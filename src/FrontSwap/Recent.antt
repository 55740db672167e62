-- ===== src/FrontSwap/Recent.antt =====
-- The grace of a swap (`RecentSwaps` of src/front_swap.rs). An instant and a duration are numbers,
-- and the hash map is an association list.
use beep.Common.{
  ℕ, ◌-◌, ◌≤◌, ◌≡◌, refl, ap, sym, ◌∙◌, Bool, true, false, ◌||◌, Option, none, some, List, [], ◌∷◌,
  arith, ltb, leb, if◌then◌else◌, is_yes, Bool-cases, inl, inr, ◌↔◌,
}
use beep.Common.Assoc.{lookup, insert, lookup-insert, is_yes_iff}
use beep.Maps.{LbFrontKey, LbFrontKey-discrete}
use beep.FrontSwap.Plans.{has_front}

abbrev pub RecentSwaps : Type 0
RecentSwaps = List (LbFrontKey × ℕ)

-- `now.saturating_duration_since(at) < grace`
abbrev pub in_grace : ℕ → ℕ → ℕ → Bool
in_grace now grace at = ltb (now - at) grace

unfoldable pub held : ℕ → ℕ → RecentSwaps → List LbFrontKey
held now grace [] = []
held now grace ((front, at) ∷ swaps) =
    let rest = held now grace swaps in if in_grace now grace at then front ∷ rest else rest

unfoldable pub retain : ℕ → ℕ → RecentSwaps → RecentSwaps
retain now grace [] = []
retain now grace ((front, at) ∷ swaps) =
    let rest = retain now grace swaps in if in_grace now grace at then (front, at) ∷ rest else rest

unfoldable pub extend : ℕ → List LbFrontKey → RecentSwaps → RecentSwaps
extend now [] swaps = swaps
extend now (front ∷ fronts) swaps = extend now fronts (insert LbFrontKey-discrete front now swaps)

unfoldable pub record_swaps : List LbFrontKey → ℕ → ℕ → RecentSwaps → RecentSwaps
unfolding retain extend
record_swaps swapped now grace swaps = extend now swapped (retain now grace swaps)

unfoldable pub expired : ℕ → ℕ → RecentSwaps → Bool
expired now grace [] = false
expired now grace ((front, at) ∷ swaps) = leb grace (now - at) || expired now grace swaps

-- When the front's grace began, if it is in the map.
abbrev pub swapped_at : RecentSwaps → LbFrontKey → Option ℕ
swapped_at swaps front = lookup LbFrontKey-discrete front swaps

-- A hash map holds a key once.
abbrev pub IsMap : RecentSwaps → Type 0
IsMap [] = Unit {0}
IsMap ((front, at) ∷ swaps) = (swapped_at swaps front ≡ none) × IsMap swaps

abbrev pub grace_at : ℕ → ℕ → Option ℕ → Bool
grace_at now grace none = false
grace_at now grace (some at) = in_grace now grace at

held_lem :
    (now grace : ℕ) (swaps : RecentSwaps) (front : LbFrontKey)
    → IsMap swaps
    → has_front front (held now grace swaps) ≡ grace_at now grace (swapped_at swaps front)
unfolding held lookup
held_lem now grace [] front m = refl
held_lem now grace ((f, at) ∷ swaps) front m =
    ground
      (arith, is_yes_iff (LbFrontKey-discrete f front), held_lem now grace swaps front m.1, m.0)

retain_lem :
    (now grace : ℕ) (swaps : RecentSwaps) (front : LbFrontKey)
    → IsMap swaps
    → swapped_at (retain now grace swaps) front
      ≡ (if grace_at now grace (swapped_at swaps front) then swapped_at swaps front else none)
unfolding retain lookup
retain_lem now grace [] front m = ground arith
retain_lem now grace ((f, at) ∷ swaps) front m =
    ground
      (arith, is_yes_iff (LbFrontKey-discrete f front), retain_lem now grace swaps front m.1, m.0)

extend_lem :
    (now : ℕ) (fronts : List LbFrontKey) (swaps : RecentSwaps) (front : LbFrontKey)
    → swapped_at (extend now fronts swaps) front
      ≡ (if has_front front fronts then some now else swapped_at swaps front)
unfolding extend
extend_lem now [] swaps front = ground arith
extend_lem now (f ∷ fs) swaps front = ground (
  arith,
  is_yes_iff (LbFrontKey-discrete f front),
  extend_lem now fs (insert LbFrontKey-discrete f now swaps) front,
  lookup-insert LbFrontKey-discrete f front now swaps,
)

retain-IsMap : (now grace : ℕ) (swaps : RecentSwaps) → IsMap swaps → IsMap (retain now grace swaps)
unfolding retain
retain-IsMap now grace [] m = tt
retain-IsMap now grace ((f, at) ∷ swaps) m = elim (Bool-cases (in_grace now grace at)) [
  | inl e ↦
      rw e (ground (arith, retain_lem now grace swaps f m.1, m.0), retain-IsMap now grace swaps m.1)
  | inr e ↦ rw e (retain-IsMap now grace swaps m.1)
]

insert-IsMap :
    (f : LbFrontKey) (now : ℕ) (swaps : RecentSwaps)
    → IsMap swaps
    → IsMap (insert LbFrontKey-discrete f now swaps)
unfolding insert lookup
insert-IsMap f now [] m = (ground arith, tt)
insert-IsMap f now ((g, at) ∷ swaps) m = elim (Bool-cases (is_yes (LbFrontKey-discrete g f))) [
  | inl e ↦
      let same = (is_yes_iff (LbFrontKey-discrete g f)).0 e in
      rw e (ap (swapped_at swaps) (sym same) ∙ m.0, m.1)
  | inr e ↦ rw e (
    ground (
      arith,
      is_yes_iff (LbFrontKey-discrete g f),
      is_yes_iff (LbFrontKey-discrete f g),
      lookup-insert LbFrontKey-discrete f g now swaps,
      m.0,
    ),
    insert-IsMap f now swaps m.1,
  )
]

extend-IsMap :
    (now : ℕ) (fronts : List LbFrontKey) (swaps : RecentSwaps)
    → IsMap swaps
    → IsMap (extend now fronts swaps)
unfolding extend
extend-IsMap now [] swaps m = m
extend-IsMap now (f ∷ fs) swaps m = extend-IsMap now fs _ (insert-IsMap f now swaps m)

-- After a pass has recorded its swaps, a front is held at a later moment exactly while the grace
-- has not passed since its last swap: that pass if it was swapped there, else the swap that was on
-- record if its grace had not passed by then.
-- The record holds a front once.
pub held-record_swaps :
    (swapped : List LbFrontKey) (now later grace : ℕ) (swaps : RecentSwaps) (front : LbFrontKey)
    → IsMap swaps
    → now ≤ later
    → has_front front (held later grace (record_swaps swapped now grace swaps)) ≡ (
        if has_front front swapped
        then in_grace later grace now
        else grace_at later grace (swapped_at swaps front))
unfolding record_swaps
held-record_swaps swapped now later grace swaps front m le =
    held_lem later grace _ front (extend-IsMap now swapped _ (retain-IsMap now grace swaps m))
    ∙ ground (
      arith,
      extend_lem now swapped (retain now grace swaps) front,
      retain_lem now grace swaps front m,
    )

-- Another pass is due exactly if some front on record is no longer held.
-- The record holds a front once.
pub expired_exactly :
    (now grace : ℕ) (swaps : RecentSwaps)
    → IsMap swaps
    → (expired now grace swaps ≡ true)
      ↔ ((front : LbFrontKey) × (at : ℕ) × (swapped_at swaps front ≡ some at) × (grace ≤ now - at))
unfolding expired lookup
expired_exactly now grace [] m = (λ e. absurd (cc e), λ (f, at, e, _). absurd (cc e))
expired_exactly now grace ((f, at) ∷ swaps) m =
    let own = is_yes_iff (LbFrontKey-discrete f f) in
    let later = expired_exactly now grace swaps m.1 in
    elim (Bool-cases (leb grace (now - at))) [
      | inl e ↦ (λ _. (f, at, ground (arith, own), ground arith), λ _. ground arith)
      | inr e ↦ (
        λ d.
            let (front, t, on, past) = later.0 (ground (arith, d)) in
            (front, t, ground (arith, on, m.0, is_yes_iff (LbFrontKey-discrete f front)), past),
        λ (front, t, on, past). elim (Bool-cases (is_yes (LbFrontKey-discrete f front))) [
          | inl same ↦ absurd (ground (arith, on, past))
          | inr other ↦
              let due = later.1 (front, t, ground (arith, on), past) in ground (arith, due)
        ],
      )
    ]
