-- ===== src/Lease.antt =====
-- Node leases (controller/src/lease.rs) and the prune passes over them (`run_prune_loop` of
-- controller/src/main.rs): which addresses leave the ingress status of the services. A string is a
-- list of bytes, and a time is in nanoseconds of this process's clock.
pub mod Observe
pub mod Prune
mod Tests
use beep.Common.{
  ℕ, ◌+◌, ◌-◌, ◌*◌, Bool, true, false, not, ◌&&◌, ◌||◌, Option, none, some, List, [], ◌∷◌, ◌==◌,
  ltb, leb, length, if◌then◌else◌, is_yes,
}
use beep.Common.Assoc.{lookup, insert, remove}
use beep.Maps.{Bytes-discrete}
use beep.Table.Lookup.{has_key}

abbrev pub lease_duration : ℕ
lease_duration = 40_000_000_000

abbrev pub lease_renew : ℕ
lease_renew = 10_000_000_000

abbrev pub prune_jitter_max : ℕ
prune_jitter_max = 5_000_000_000

abbrev pub prune_interval_max : ℕ
prune_interval_max = lease_renew + prune_jitter_max

abbrev pub max_prune_latency : Bool → ℕ
max_prune_latency graceful =
    if graceful then 2 * prune_interval_max else lease_duration + 3 * prune_interval_max

pub record ListedLease : Type 0 where
  pub name : List ℕ
  pub renew_time : List ℕ
  pub ips : List (List ℕ)

pub record ObservedLease : Type 0 where
  pub renew_time : List ℕ
  pub ips : List (List ℕ)
  pub changed_at : ℕ

abbrev pub Leases : Type 0
Leases = List (List ℕ × ObservedLease)

-- `saturating_duration_since` is the subtraction that stops at 0.
abbrev pub is_live_lease : ObservedLease → ℕ → Bool
is_live_lease lease now = ltb (now - lease.changed_at) lease_duration

pub record LeaseTracker : Type 0 where
  pub started : ℕ
  pub leases : Leases

abbrev pub changed_at_of : Option ObservedLease → List ℕ → ℕ → ℕ
changed_at_of none renew_time now = now
changed_at_of (some old) renew_time now =
    if is_yes (Bytes-discrete old.renew_time renew_time) then old.changed_at else now

abbrev pub observed : Option ObservedLease → ListedLease → ℕ → ObservedLease
observed previous lease now = record {
  renew_time = lease.renew_time;
  ips = lease.ips;
  changed_at = changed_at_of previous lease.renew_time now;
}

-- The loop over a listing: the leases of before that are left, and those that were recorded.
unfoldable pub observe_leases : Leases → Leases → List ListedLease → ℕ → Leases
observe_leases previous leases [] now = leases
observe_leases previous leases (lease ∷ listed) now =
    observe_leases (remove Bytes-discrete lease.name previous)
      (insert Bytes-discrete lease.name
        (observed (lookup Bytes-discrete lease.name previous) lease now) leases)
      listed now

unfoldable pub observe : LeaseTracker → List ListedLease → ℕ → LeaseTracker
unfolding observe_leases
observe tracker listed now = record {
  started = tracker.started;
  leases = observe_leases tracker.leases [] listed now;
}

abbrev pub is_live_at : Option ObservedLease → ℕ → Bool
is_live_at none now = false
is_live_at (some lease) now = is_live_lease lease now

unfoldable pub is_live : LeaseTracker → List ℕ → ℕ → Bool
is_live tracker lease_name now = is_live_at (lookup Bytes-discrete lease_name tracker.leases) now

abbrev pub warmed_up : LeaseTracker → ℕ → Bool
warmed_up tracker now = leb lease_duration (now - tracker.started)

unfoldable pub may_prune : LeaseTracker → List ℕ → ℕ → Bool
unfolding is_live
may_prune tracker own_lease now = warmed_up tracker now && is_live tracker own_lease now

-- Some live lease carries the address.
unfoldable pub is_live_ip : Leases → ℕ → List ℕ → Bool
is_live_ip [] now ip = false
is_live_ip ((name, lease) ∷ leases) now ip =
    let rest = is_live_ip leases now ip in (is_live_lease lease now && has_key ip lease.ips) || rest

-- The addresses that were unmatched in the previous pass, and in this one so far.
pub record PruneSuspects : Type 0 where
  pub previous : List (List ℕ)
  pub current : List (List ℕ)

abbrev pub end_pass : PruneSuspects → PruneSuspects
end_pass s = record { previous = s.current; current = [] }

abbrev pub reset : PruneSuspects → PruneSuspects
reset s = record { previous = []; current = [] }

abbrev pub suspect : List ℕ → PruneSuspects → PruneSuspects
suspect ip s = record s { current = if has_key ip s.current then s.current else ip ∷ s.current }

-- An entry of the ingress status is JSON: `ip_of` reads its `ip`, if that is a string.
module _ {E : Type 0} (ip_of : E → Option (List ℕ)) where
  abbrev pub keeps_live : Leases → ℕ → Option (List ℕ) → Bool
  keeps_live leases now none = true
  keeps_live leases now (some ip) = is_live_ip leases now ip

  unfoldable pub live_entries : Leases → ℕ → List E → List E
  unfolding is_live_ip
  live_entries leases now [] = []
  live_entries leases now (e ∷ es) =
      let rest = live_entries leases now es in
      if keeps_live leases now (ip_of e) then e ∷ rest else rest

  -- `(kept.len() != existing.len()).then_some(kept)`
  abbrev pub if_shorter : List E → List E → Option (List E)
  if_shorter existing kept = if length kept == length existing then none else some kept

  unfoldable pub pruned_ingress : List E → Leases → ℕ → Option (List E)
  unfolding live_entries
  pruned_ingress existing leases now = if_shorter existing (live_entries leases now existing)

  -- The closure's answer for one entry, and what it leaves of the suspects.
  abbrev pub confirm : Leases → ℕ → PruneSuspects → Option (List ℕ) → Bool × PruneSuspects
  confirm leases now s none = (true, s)
  confirm leases now s (some ip) =
      if is_live_ip leases now ip then (true, s) else (not (has_key ip s.previous), suspect ip s)

  unfoldable pub confirmed_entries : Leases → ℕ → List E → PruneSuspects → List E × PruneSuspects
  unfolding is_live_ip
  confirmed_entries leases now [] s = ([], s)
  confirmed_entries leases now (e ∷ es) s =
      let (kept, after) = confirm leases now s (ip_of e) in
      let (rest, last) = confirmed_entries leases now es after in
      (if kept then e ∷ rest else rest, last)

  unfoldable pub confirmed_pruned_ingress :
      List E → Leases → ℕ → PruneSuspects → Option (List E) × PruneSuspects
  unfolding confirmed_entries
  confirmed_pruned_ingress existing leases now s =
      let (kept, after) = confirmed_entries leases now existing s in
      (if_shorter existing kept, after)

  -- One pass over the services: their entries as they are read.
  unfoldable pub prune_services : Leases → ℕ → List (List E) → PruneSuspects → PruneSuspects
  unfolding confirmed_pruned_ingress
  prune_services leases now [] s = s
  prune_services leases now (existing ∷ services) s =
      prune_services leases now services (confirmed_pruned_ingress existing leases now s).1

  -- A pass of `run_prune_loop`: a listing that failed is `none`.
  unfoldable pub prune_pass :
      List ℕ
      → LeaseTracker
      → PruneSuspects
      → Option (List ListedLease)
      → ℕ
      → ℕ
      → List (List E)
      → LeaseTracker × PruneSuspects
  unfolding observe may_prune prune_services
  prune_pass own_lease tracker s none observed_at now services = (tracker, s)
  prune_pass own_lease tracker s (some listed) observed_at now services =
      let seen = observe tracker listed observed_at in
      if may_prune seen own_lease now
      then (seen, end_pass (prune_services seen.leases now services s))
      else (seen, reset s)
