-- ===== src/Lease/Tests.antt =====
-- A node that stops renewing: its address leaves the status at the second pass that finds it so.
use beep.Common.{ℕ, ◌≡◌, refl, true, false, not, ◌&&◌, none, some, List, [], ◌∷◌, ℕ_discrete}
use beep.Common.Assoc.{lookup}
use beep.Maps.{Bytes-discrete}
use beep.Lease.{
  ListedLease, LeaseTracker, PruneSuspects, observe, may_prune, prune_pass,
  confirmed_pruned_ingress, max_prune_latency,
}
use beep.Lease.Observe.{listed_at, Tracks, lookup-observe}
use beep.Lease.Prune.{unmatched, carries, any_carries}
use beep.Lease.Prune.Twice.{entries_after, confirmed_pruned_ingress_twice}

-- The nodes `a`, this one, and `b`.
abbrev name_a : List ℕ
name_a = 97 ∷ []

abbrev name_b : List ℕ
name_b = 98 ∷ []

abbrev ip_a : List ℕ
ip_a = 49 ∷ []

abbrev ip_b : List ℕ
ip_b = 50 ∷ []

abbrev listed : List ListedLease
listed =
    record { name = name_a; renew_time = 5 ∷ []; ips = ip_a ∷ [] }
    ∷ record { name = name_b; renew_time = 1 ∷ []; ips = ip_b ∷ [] }
    ∷ []

abbrev tracker : LeaseTracker
tracker = record {
  started = 0;
  leases =
      (name_a, record { renew_time = 4 ∷ []; ips = ip_a ∷ []; changed_at = 45_000_000_000 })
      ∷ (name_b, record { renew_time = 1 ∷ []; ips = ip_b ∷ []; changed_at = 5_000_000_000 })
      ∷ [];
}

abbrev suspects : PruneSuspects
suspects = record { previous = []; current = [] }

abbrev now : ℕ
now = 50_000_000_000

lookup-observe_example :
    let before = lookup Bytes-discrete name_b tracker.leases in
    let found = lookup Bytes-discrete name_b (observe tracker listed 50_000_000_000).leases in
    (listed_at listed name_b ≡ none → found ≡ none)
    × ((lease : ListedLease)
        → listed_at listed name_b ≡ some lease
        → Tracks before lease 50_000_000_000 found)
unfolding Bytes-discrete ℕ_discrete
lookup-observe_example = lookup-observe tracker listed 50_000_000_000 name_b (refl, (refl, tt))

confirmed_pruned_ingress_twice_example :
    let watched = observe tracker listed now in
    let after =
      (prune_pass some name_a tracker suspects (some listed) now now ((ip_a ∷ ip_b ∷ []) ∷ [])).1 in
    let answer = (confirmed_pruned_ingress some (ip_a ∷ ip_b ∷ []) watched.leases now after).0 in
    let stays = carries some ip_b (entries_after (ip_a ∷ ip_b ∷ []) answer) in
    (may_prune watched name_a now ≡ true
      → stays ≡ (
          carries some ip_b (ip_a ∷ ip_b ∷ [])
          && not (
              unmatched watched.leases now ip_b
              && (unmatched watched.leases now ip_b
                  && any_carries some ip_b ((ip_a ∷ ip_b ∷ []) ∷ [])))))
    × (may_prune watched name_a now ≡ false → stays ≡ carries some ip_b (ip_a ∷ ip_b ∷ []))
confirmed_pruned_ingress_twice_example =
    confirmed_pruned_ingress_twice some name_a tracker suspects listed now now now
      ((ip_a ∷ ip_b ∷ []) ∷ []) (observe tracker listed now).leases (ip_a ∷ ip_b ∷ []) ip_b refl

-- The figures of the documentation: 30 and 85 seconds.
latencies : (max_prune_latency true ≡ 30_000_000_000) × (max_prune_latency false ≡ 85_000_000_000)
latencies = (refl, refl)
