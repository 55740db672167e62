-- ===== src/Lease/Prune/Twice.antt =====
-- Two prune passes in a row (`confirmed_pruned_ingress` of controller/src/lease.rs).
use beep.Common.{
  ℕ, ◌≤◌, ◌≡◌, refl, sym, ◌∙◌, ap, true, false, not, ◌&&◌, ◌||◌, Option, none, some, List, [], ◌∷◌,
  ◌==◌, length, Bool-cases, inl, inr, arith, ==_iff,
}
use beep.Table.Lookup.{has_key}
use beep.Lease.{
  Leases, LeaseTracker, ListedLease, PruneSuspects, reset, end_pass, confirm, confirmed_entries,
  confirmed_pruned_ingress, prune_services, prune_pass, observe, may_prune,
}
use beep.Lease.Prune.{unmatched, carries, any_carries, confirmed_entries_lem}

-- The entries that stand after an answer.
abbrev pub entries_after : {E : Type 0} → List E → Option (List E) → List E
entries_after existing none = existing
entries_after existing (some kept) = kept

module _ {E : Type 0} (ip_of : E → Option (List ℕ)) (leases : Leases) (now : ℕ) where
  whole_when_long :
      (es : List E) (s : PruneSuspects)
      → let kept = (confirmed_entries ip_of leases now es s).0 in
        (length kept ≤ length es) × (length kept ≡ length es → kept ≡ es)
  unfolding confirmed_entries
  whole_when_long [] s = (omega arith, λ h. refl)
  whole_when_long (e ∷ es) s =
      let answer = confirm ip_of leases now s (ip_of e) in
      let rest = whole_when_long es answer.1 in
      elim (Bool-cases answer.0) [
        | inl k ↦ rw k (omega (arith, rest.0), λ h. ap (λ l. e ∷ l) (rest.1 (omega arith)))
        | inr k ↦ rw k (omega (arith, rest.0), λ h. absurd (omega (arith, rest.0)))
      ]

  entries_after_lem :
      (existing : List E) (s : PruneSuspects)
      → entries_after existing (confirmed_pruned_ingress ip_of existing leases now s).0
        ≡ (confirmed_entries ip_of leases now existing s).0
  unfolding confirmed_pruned_ingress
  entries_after_lem existing s =
      let kept = (confirmed_entries ip_of leases now existing s).0 in
      elim (Bool-cases (length kept == length existing)) [
        | inl e ↦ rw e (sym ((whole_when_long existing s).1 ((==_iff _ _).0 e)))
        | inr e ↦ rw e refl
      ]

  pub confirmed_pruned_ingress_lem :
      (existing : List E) (s : PruneSuspects) (ip : List ℕ)
      → carries ip_of ip
          (entries_after existing (confirmed_pruned_ingress ip_of existing leases now s).0)
        ≡ (carries ip_of ip existing && not (unmatched leases now ip && has_key ip s.previous))
  confirmed_pruned_ingress_lem existing s ip =
      ap (carries ip_of ip) (entries_after_lem existing s)
      ∙ (confirmed_entries_lem ip_of leases now existing s ip).2

  prune_services_lem :
      (services : List (List E)) (s : PruneSuspects) (ip : List ℕ)
      → has_key ip (prune_services ip_of leases now services s).current
        ≡ (has_key ip s.current || (unmatched leases now ip && any_carries ip_of ip services))
  unfolding prune_services confirmed_pruned_ingress
  prune_services_lem [] s ip = ground arith
  prune_services_lem (existing ∷ services) s ip =
      let one = confirmed_entries_lem ip_of leases now existing s ip in
      let rest = prune_services_lem services (confirmed_entries ip_of leases now existing s).1 ip in
      ground (arith, rest, one.1)

-- A pass whose listing came and that may prune, and then an answer for a service by any later leases
-- at any later time: an address stays in the service's status unless it has no live lease now, had
-- none in that pass, and stood in the status of some service then. After a pass that may not prune,
-- every address stays. So an address with a live lease is never pruned, nor one that was matched in
-- the pass before.
-- The pass starts, as each does, without addresses found in it yet.
pub confirmed_pruned_ingress_twice :
    {E : Type 0} (ip_of : E → Option (List ℕ)) (own : List ℕ) (tracker : LeaseTracker)
    (s : PruneSuspects) (listed : List ListedLease) (observed_at now now' : ℕ)
    (services : List (List E)) (later : Leases) (existing : List E) (ip : List ℕ)
    → s.current ≡ []
    → let seen = observe tracker listed observed_at in
      let after = (prune_pass ip_of own tracker s (some listed) observed_at now services).1 in
      let answer = (confirmed_pruned_ingress ip_of existing later now' after).0 in
      let stays = carries ip_of ip (entries_after existing answer) in
      (may_prune seen own now ≡ true
        → stays ≡ (
            carries ip_of ip existing
            && not (
                unmatched later now' ip
                && (unmatched seen.leases now ip && any_carries ip_of ip services))))
      × (may_prune seen own now ≡ false → stays ≡ carries ip_of ip existing)
unfolding prune_pass
confirmed_pruned_ingress_twice ip_of own tracker s listed observed_at now now' services later
      existing ip fresh =
    let seen = observe tracker listed observed_at in
    let found = prune_services ip_of seen.leases now services s in
    let current = prune_services_lem ip_of seen.leases now services s ip in
    let start : has_key ip s.current ≡ false = rw fresh refl in
    (
      λ m. rw m (
          confirmed_pruned_ingress_lem ip_of later now' existing (end_pass found) ip
          ∙ ground (arith, current, start)),
      λ m.
          rw m (confirmed_pruned_ingress_lem ip_of later now' existing (reset s) ip ∙ ground arith),
    )
