-- ===== src/Lease/Prune.antt =====
-- Which addresses the prune passes take out of the status.
pub mod Twice
use beep.Common.{
  ℕ, ◌≡◌, refl, sym, ◌∙◌, ap, Bool, true, false, not, ◌&&◌, ◌||◌, Option, none, some, List, [], ◌∷◌,
  if◌then◌else◌, is_yes, Bool-cases, inl, inr, arith,
}
use beep.Common.Assoc.{is_yes_iff}
use beep.Maps.{Bytes-discrete}
use beep.Table.Lookup.{has_key}
use beep.Lease.{
  Leases, LeaseTracker, ListedLease, PruneSuspects, suspect, reset, end_pass, is_live_ip, confirm,
  confirmed_entries, confirmed_pruned_ingress, prune_services, prune_pass, observe, may_prune,
}

-- No live lease carries the address.
abbrev pub unmatched : Leases → ℕ → List ℕ → Bool
unmatched leases now ip = not (is_live_ip leases now ip)

abbrev pub names_ip : List ℕ → Option (List ℕ) → Bool
names_ip ip none = false
names_ip ip (some j) = is_yes (Bytes-discrete j ip)

has_key-suspect :
    (j ip : List ℕ) (s : PruneSuspects)
    → has_key ip (suspect j s).current ≡ (has_key ip s.current || is_yes (Bytes-discrete j ip))
has_key-suspect j ip s = elim (Bool-cases (has_key j s.current)) [
  | inl h ↦ elim (Bool-cases (is_yes (Bytes-discrete j ip))) [
    | inl e ↦
        let same = (is_yes_iff (Bytes-discrete j ip)).0 e in
        let there : has_key ip s.current ≡ true = ap (λ k. has_key k s.current) (sym same) ∙ h in
        rw (h, e, there) refl
    | inr e ↦ rw (h, e) (ground arith)
  ]
  | inr h ↦ rw h (ground arith)
]

module _ {E : Type 0} (ip_of : E → Option (List ℕ)) where
  -- Some entry has the address.
  abbrev pub carries : List ℕ → List E → Bool
  carries ip [] = false
  carries ip (e ∷ es) = names_ip ip (ip_of e) || carries ip es

  -- Some service has an entry with the address.
  abbrev pub any_carries : List ℕ → List (List E) → Bool
  any_carries ip [] = false
  any_carries ip (existing ∷ services) = carries ip existing || any_carries ip services

  module _ (leases : Leases) (now : ℕ) where
    -- What one entry's answer does to the suspects.
    confirm_lem :
        (s : PruneSuspects) (o : Option (List ℕ)) (ip : List ℕ)
        → let (kept, after) = confirm ip_of leases now s o in
          (after.previous ≡ s.previous)
          × (has_key ip after.current
              ≡ (has_key ip s.current || (unmatched leases now ip && names_ip ip o)))
          × ((kept && names_ip ip o)
              ≡ (names_ip ip o && not (unmatched leases now ip && has_key ip s.previous)))
    confirm_lem s none ip = (refl, ground arith, refl)
    confirm_lem s (some j) ip = elim (Bool-cases (is_yes (Bytes-discrete j ip))) [
      | inl e ↦
          let same = (is_yes_iff (Bytes-discrete j ip)).0 e in
          let live_same : is_live_ip leases now ip ≡ is_live_ip leases now j =
            ap (is_live_ip leases now) (sym same) in
          let held_same : has_key ip s.previous ≡ has_key j s.previous =
            ap (λ (k : List ℕ). has_key k s.previous) (sym same) in
          elim (Bool-cases (is_live_ip leases now j)) [
            | inl l ↦ rw (e, live_same, held_same, l) (refl, ground arith, refl)
            | inr l ↦
                rw (e, live_same, held_same, l)
                  (refl, has_key-suspect j ip s ∙ rw e refl, ground arith)
          ]
      | inr e ↦ elim (Bool-cases (is_live_ip leases now j)) [
        | inl l ↦ rw (l, e) (refl, ground arith, refl)
        | inr l ↦ rw (l, e) (refl, has_key-suspect j ip s ∙ rw e (ground arith), ground arith)
      ]
    ]

    pub confirmed_entries_lem :
        (es : List E) (s : PruneSuspects) (ip : List ℕ)
        → let (kept, after) = confirmed_entries ip_of leases now es s in
          (after.previous ≡ s.previous)
          × (has_key ip after.current
              ≡ (has_key ip s.current || (unmatched leases now ip && carries ip es)))
          × (carries ip kept
              ≡ (carries ip es && not (unmatched leases now ip && has_key ip s.previous)))
    unfolding confirmed_entries
    confirmed_entries_lem [] s ip = (refl, ground arith, refl)
    confirmed_entries_lem (e ∷ es) s ip =
        let one = confirm_lem s (ip_of e) ip in
        let rest = confirmed_entries_lem es (confirm ip_of leases now s (ip_of e)).1 ip in
        (rest.0 ∙ one.0, ground (arith, rest.1, one.1), ground (arith, rest.2, one.2, one.0))
