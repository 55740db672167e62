-- ===== src/Lease/Observe.antt =====
-- What a listing of the leases leaves in the tracker.
use beep.Common.{
  ℕ, ◌≡◌, refl, sym, ◌∙◌, ap, subst, Option, none, some, List, [], ◌∷◌, if◌then◌else◌, is_yes,
  is_yes-true, Bool-cases, inl, inr,
}
use beep.Common.Assoc.{lookup, insert, remove, lookup-insert, lookup-remove, is_yes_iff}
use beep.Maps.{Bytes-discrete}
use beep.Lease.{ListedLease, ObservedLease, Leases, LeaseTracker, observed, observe_leases, observe}

-- The lease of a name in a listing.
abbrev pub listed_at : List ListedLease → List ℕ → Option ListedLease
listed_at [] name = none
listed_at (lease ∷ listed) name =
    if is_yes (Bytes-discrete lease.name name) then some lease else listed_at listed name

-- Every name is listed once.
abbrev pub IsListing : List ListedLease → Type 0
IsListing [] = Unit {0}
IsListing (lease ∷ listed) = (listed_at listed lease.name ≡ none) × IsListing listed

abbrev seen :
    Option ObservedLease → Option ListedLease → ℕ → Option ObservedLease → Option ObservedLease
seen before none now recorded = recorded
seen before (some lease) now recorded = some (observed before lease now)

observe_leases_lem :
    (listed : List ListedLease) (previous leases : Leases) (now : ℕ) (name : List ℕ)
    → IsListing listed
    → lookup Bytes-discrete name (observe_leases previous leases listed now)
      ≡ seen
          (lookup Bytes-discrete name previous)
          (listed_at listed name)
          now
          (lookup Bytes-discrete name leases)
unfolding observe_leases
observe_leases_lem [] previous leases now name once = refl
observe_leases_lem (lease ∷ listed) previous leases now name once =
    let value = observed (lookup Bytes-discrete lease.name previous) lease now in
    observe_leases_lem listed (remove Bytes-discrete lease.name previous)
      (insert Bytes-discrete lease.name value leases) now name once.1
    ∙ elim (Bool-cases (is_yes (Bytes-discrete lease.name name))) [
      | inl e ↦
          let same = (is_yes_iff (Bytes-discrete lease.name name)).0 e in
          let gone : listed_at listed name ≡ none = ap (listed_at listed) (sym same) ∙ once.0 in
          rw (gone, e)
            (lookup-insert Bytes-discrete lease.name name value leases
              ∙ rw e (
                  ap (λ (n : List ℕ). some (observed (lookup Bytes-discrete n previous) lease now))
                    same))
      | inr e ↦
          rw
            (
              lookup-remove Bytes-discrete lease.name name previous,
              lookup-insert Bytes-discrete lease.name name value leases,
              e,
            )
            refl
    ]

-- What the tracker holds of a listed lease: what was listed, and the time since when its renewal is
-- the same.
pub record Tracks (before : Option ObservedLease) (lease : ListedLease) (now : ℕ)
    (found : Option ObservedLease) : Type 0 where
  pub value : ObservedLease
  pub found_eq : found ≡ some value
  pub renew_time_eq : value.renew_time ≡ lease.renew_time
  pub ips_eq : value.ips ≡ lease.ips
  pub renewed :
      ((old : ObservedLease) → before ≡ some old → old.renew_time ≡ lease.renew_time → ⊥)
      → value.changed_at ≡ now
  pub unrenewed :
      (old : ObservedLease)
      → before ≡ some old
      → old.renew_time ≡ lease.renew_time
      → value.changed_at ≡ old.changed_at

observed-Tracks :
    (before : Option ObservedLease) (lease : ListedLease) (now : ℕ)
    → Tracks before lease now (some (observed before lease now))
observed-Tracks none lease now = record {
  value = observed none lease now;
  found_eq = refl;
  renew_time_eq = refl;
  ips_eq = refl;
  renewed = λ h. refl;
  unrenewed = λ old e s. absurd (cc e);
}
observed-Tracks (some old) lease now = record {
  value = observed (some old) lease now;
  found_eq = refl;
  renew_time_eq = refl;
  ips_eq = refl;
  renewed = λ h. elim (Bool-cases (is_yes (Bytes-discrete old.renew_time lease.renew_time))) [
    | inl e ↦
        absurd (h old refl ((is_yes_iff (Bytes-discrete old.renew_time lease.renew_time)).0 e))
    | inr e ↦ rw e refl
  ];
  unrenewed = λ o e s.
      let same : old ≡ o = cc e in
      let old_same = ap (λ (l : ObservedLease). l.renew_time) same ∙ s in
      let yes = is_yes-true (Bytes-discrete old.renew_time lease.renew_time) old_same in
      let kept : (observed (some old) lease now).changed_at ≡ old.changed_at = rw yes refl in
      kept ∙ ap (λ (l : ObservedLease). l.changed_at) same;
}

-- After a listing the tracker has exactly the listed leases, each with its listed renewal and
-- addresses. A lease whose renewal is the one that was held before keeps its time stamp, and any
-- other gets the time of the listing. A lease that is not listed is forgotten.
-- The listing has each name once.
pub lookup-observe :
    (tracker : LeaseTracker) (listed : List ListedLease) (now : ℕ) (name : List ℕ)
    → IsListing listed
    → let before = lookup Bytes-discrete name tracker.leases in
      let found = lookup Bytes-discrete name (observe tracker listed now).leases in
      (listed_at listed name ≡ none → found ≡ none)
      × ((lease : ListedLease) → listed_at listed name ≡ some lease → Tracks before lease now found)
unfolding observe lookup
lookup-observe tracker listed now name once =
    let all = observe_leases_lem listed tracker.leases [] now name once in
    let before = lookup Bytes-discrete name tracker.leases in
    (
      λ e. all ∙ rw e refl,
      λ lease e.
          subst (Tracks before lease now) (sym (all ∙ rw e refl))
            (observed-Tracks before lease now),
    )
