-- ===== src/FrontSwap/Order.antt =====
-- The plans of one pass and their order (`plan_front_writes` of src/front_swap.rs).
use beep.Common.{
  ℕ, suc, ◌+◌, ◌≤◌, ◌≡◌, refl, ap, sym, ◌∙◌, Bool, true, false, not, ◌&&◌, ◌||◌, List, [], ◌∷◌, map,
  All, arith, if◌then◌else◌, Bool-cases, inl, inr,
}
use beep.Common.Assoc.{is_yes_iff}
use beep.Maps.{LbFrontKey, LbFrontKey-discrete}
use beep.FrontSwap.{FrontPlan, Metas, Endpoints, meta_at, same_front}
use beep.FrontSwap.Apply.{Effect, plan_effect, had_meta}
use beep.FrontSwap.Plans.{
  Desired, has_front, add_fronts, planned_fronts, plan_before, insert_plan, sort_plans, plan_of,
  is_empty, plans_of, plan_front_writes,
}

abbrev pub effect_of : Metas → FrontPlan → Effect
effect_of metas p = plan_effect p (had_meta (meta_at metas p.front))

-- The net row change of the first plan is at most that of the second.
abbrev pub NetLe : Metas → FrontPlan → FrontPlan → Type 0
NetLe metas p q =
    (effect_of metas p).ep_up + (effect_of metas q).ep_down
    ≤ (effect_of metas q).ep_up + (effect_of metas p).ep_down

abbrev pub ShrinkingFirst : Metas → List FrontPlan → Type 0
ShrinkingFirst metas [] = Unit {0}
ShrinkingFirst metas (p ∷ ps) = All (NetLe metas p) ps × ShrinkingFirst metas ps

All-insert_plan :
    (P : FrontPlan → Type 0) (metas : Metas) (p : FrontPlan) (qs : List FrontPlan)
    → P p
    → All P qs
    → All P (insert_plan metas p qs)
unfolding insert_plan
All-insert_plan P metas p [] h all = (h, tt)
All-insert_plan P metas p (q ∷ qs) h all = elim (Bool-cases (plan_before metas q p)) [
  | inl e ↦ rw e (all.0, All-insert_plan P metas p qs h all.1)
  | inr e ↦ rw e (h, all)
]

before_NetLe : (metas : Metas) (p q : FrontPlan) → plan_before metas p q ≡ true → NetLe metas p q
before_NetLe metas p q e = ground (arith, e)

not_before_NetLe :
    (metas : Metas) (p q : FrontPlan) → plan_before metas q p ≡ false → NetLe metas p q
not_before_NetLe metas p q e = ground (arith, e)

NetLe-trans :
    (metas : Metas) (p q : FrontPlan) (rs : List FrontPlan)
    → NetLe metas p q
    → All (NetLe metas q) rs
    → All (NetLe metas p) rs
NetLe-trans metas p q [] h all = tt
NetLe-trans metas p q (r ∷ rs) h all = (omega (arith, h, all.0), NetLe-trans metas p q rs h all.1)

insert_plan-ShrinkingFirst :
    (metas : Metas) (p : FrontPlan) (qs : List FrontPlan)
    → ShrinkingFirst metas qs
    → ShrinkingFirst metas (insert_plan metas p qs)
unfolding insert_plan
insert_plan-ShrinkingFirst metas p [] h = (tt, tt)
insert_plan-ShrinkingFirst metas p (q ∷ qs) h = elim (Bool-cases (plan_before metas q p)) [
  | inl e ↦ rw e (
    All-insert_plan (NetLe metas q) metas p qs (before_NetLe metas q p e) h.0,
    insert_plan-ShrinkingFirst metas p qs h.1,
  )
  | inr e ↦ let le = not_before_NetLe metas p q e in rw e ((le, NetLe-trans metas p q qs le h.0), h)
]

sort_plans-ShrinkingFirst :
    (metas : Metas) (ps : List FrontPlan) → ShrinkingFirst metas (sort_plans metas ps)
unfolding sort_plans
sort_plans-ShrinkingFirst metas [] = tt
sort_plans-ShrinkingFirst metas (p ∷ ps) =
    insert_plan-ShrinkingFirst metas p (sort_plans metas ps) (sort_plans-ShrinkingFirst metas ps)

All-sort_plans :
    (P : FrontPlan → Type 0) (metas : Metas) (ps : List FrontPlan)
    → All P ps
    → All P (sort_plans metas ps)
unfolding sort_plans
All-sort_plans P metas [] all = tt
All-sort_plans P metas (p ∷ ps) all =
    All-insert_plan P metas p (sort_plans metas ps) all.0 (All-sort_plans P metas ps all.1)

-- How many of the plans, or of the fronts, are of this front.
abbrev pub count_plans : LbFrontKey → List FrontPlan → ℕ
count_plans front [] = 0
count_plans front (p ∷ ps) =
    let rest = count_plans front ps in if same_front p.front front then suc rest else rest

abbrev count_fronts : LbFrontKey → List LbFrontKey → ℕ
count_fronts front [] = 0
count_fronts front (f ∷ fs) =
    let rest = count_fronts front fs in if same_front f front then suc rest else rest

count-insert_plan :
    (metas : Metas) (front : LbFrontKey) (p : FrontPlan) (qs : List FrontPlan)
    → count_plans front (insert_plan metas p qs) ≡ count_plans front (p ∷ qs)
unfolding insert_plan
count-insert_plan metas front p [] = refl
count-insert_plan metas front p (q ∷ qs) = elim (Bool-cases (plan_before metas q p)) [
  | inl e ↦ rw e (ground (arith, count-insert_plan metas front p qs))
  | inr e ↦ rw e refl
]

count-sort_plans :
    (metas : Metas) (front : LbFrontKey) (ps : List FrontPlan)
    → count_plans front (sort_plans metas ps) ≡ count_plans front ps
unfolding sort_plans
count-sort_plans metas front [] = refl
count-sort_plans metas front (p ∷ ps) =
    count-insert_plan metas front p (sort_plans metas ps)
    ∙ ground (arith, count-sort_plans metas front ps)

abbrev once : Bool → ℕ
once b = if b then 1 else 0

count-add_fronts :
    (front : LbFrontKey) (more fs : List LbFrontKey)
    → count_fronts front fs ≡ once (has_front front fs)
    → (count_fronts front (add_fronts more fs) ≡ once (has_front front more || has_front front fs))
      × (has_front front (add_fronts more fs) ≡ (has_front front more || has_front front fs))
unfolding add_fronts
count-add_fronts front [] fs h = (h, refl)
count-add_fronts front (f ∷ more) fs h =
    let rest = count-add_fronts front more fs h in
    elim (Bool-cases (same_front f front)) [
      | inl e ↦
          let same = (is_yes_iff (LbFrontKey-discrete f front)).0 e in
          let there : has_front f (add_fronts more fs) ≡ has_front front (add_fronts more fs) =
            ap (λ (k : LbFrontKey). has_front k (add_fronts more fs)) same in
          (ground (arith, rest.0, rest.1, there, e), ground (arith, rest.0, rest.1, there, e))
      | inr e ↦ (ground (arith, rest.0, rest.1, e), ground (arith, rest.0, rest.1, e))
    ]

-- The fronts that a pass is about: the wanted ones, and when it prunes those in the maps.
abbrev pub concerned : Metas → Endpoints → Desired → Bool → LbFrontKey → Bool
concerned metas rows desired prune_absent front =
    has_front front (map (λ x. x.0) desired)
    || (prune_absent
        && (has_front front (map (λ x. x.0) metas) || has_front front (map (λ x. x.0.front) rows)))

count-planned_fronts :
    (metas : Metas) (rows : Endpoints) (desired : Desired) (prune_absent : Bool)
    (front : LbFrontKey)
    → count_fronts front (planned_fronts metas rows desired prune_absent)
      ≡ once (concerned metas rows desired prune_absent front)
unfolding planned_fronts
count-planned_fronts metas rows desired prune_absent front =
    let wanted = count-add_fronts front (map (λ x. x.0) desired) [] refl in
    let with_metas =
      count-add_fronts front (map (λ x. x.0) metas) (add_fronts (map (λ x. x.0) desired) [])
        (ground (arith, wanted.0, wanted.1)) in
    let with_rows =
      count-add_fronts front (map (λ x. x.0.front) rows)
        (add_fronts (map (λ x. x.0) metas) (add_fronts (map (λ x. x.0) desired) []))
        (ground (arith, with_metas.0, with_metas.1)) in
    ground (arith, wanted.0, wanted.1, with_metas.0, with_metas.1, with_rows.0, with_rows.1)

count-plans_of :
    (plan : LbFrontKey → FrontPlan) (front : LbFrontKey) (fs : List LbFrontKey)
    → ((f : LbFrontKey) → (plan f).front ≡ f)
    → count_plans front (plans_of plan fs)
      ≡ (if is_empty (plan front).steps then 0 else count_fronts front fs)
unfolding plans_of
count-plans_of plan front [] h = ground arith
count-plans_of plan front (f ∷ fs) h =
    let rest = count-plans_of plan front fs h in
    let own : same_front (plan f).front front ≡ same_front f front =
      ap (λ (k : LbFrontKey). same_front k front) (h f) in
    elim (Bool-cases (is_empty (plan f).steps)) [
      | inl e ↦ rw e (elim (Bool-cases (same_front f front)) [
        | inl s ↦
            let same = (is_yes_iff (LbFrontKey-discrete f front)).0 s in
            let empty = sym (ap (λ (k : LbFrontKey). is_empty (plan k).steps) same) ∙ e in
            rest ∙ rw empty refl
        | inr s ↦ rest ∙ rw s refl
      ])
      | inr e ↦ rw e (elim (Bool-cases (same_front f front)) [
        | inl s ↦
            let same = (is_yes_iff (LbFrontKey-discrete f front)).0 s in
            let steps = sym (ap (λ (k : LbFrontKey). is_empty (plan k).steps) same) ∙ e in
            rw (own, s, steps) (ap suc (rest ∙ rw steps refl))
        | inr s ↦ rw (own, s) rest
      ])
    ]

All-plans_of :
    (plan : LbFrontKey → FrontPlan) (fs : List LbFrontKey)
    → ((f : LbFrontKey) → (plan f).front ≡ f)
    → All (λ p. p ≡ plan p.front) (plans_of plan fs)
unfolding plans_of
All-plans_of plan [] h = tt
All-plans_of plan (f ∷ fs) h = elim (Bool-cases (is_empty (plan f).steps)) [
  | inl e ↦ rw e (All-plans_of plan fs h)
  | inr e ↦ rw e (sym (ap plan (h f)), All-plans_of plan fs h)
]

-- A pass has exactly one plan for each front that is wanted or, when it prunes, in the maps, if
-- that front has any steps to run, and no other plan; every plan is the front's own; and the plans
-- stand in the order of their net row change, so that rows are freed before they are needed.
pub plan_front_writes_lem :
    (metas : Metas) (rows : Endpoints) (desired : Desired) (prune_absent : Bool)
    (keep_previous : List LbFrontKey)
    → let plan = plan_of metas rows desired prune_absent keep_previous in
      let plans = plan_front_writes metas rows desired prune_absent keep_previous in
      ((front : LbFrontKey)
        → count_plans front plans ≡ (
            if concerned metas rows desired prune_absent front && not (is_empty (plan front).steps)
            then 1
            else 0))
      × All (λ p. p ≡ plan p.front) plans
      × ShrinkingFirst metas plans
unfolding plan_front_writes
plan_front_writes_lem metas rows desired prune_absent keep_previous =
    let plan = plan_of metas rows desired prune_absent keep_previous in
    let fronts = planned_fronts metas rows desired prune_absent in
    (
      λ front.
          count-sort_plans metas front (plans_of plan fronts)
          ∙ count-plans_of plan front fronts (λ f. refl)
          ∙ ground (arith, count-planned_fronts metas rows desired prune_absent front),
      All-sort_plans (λ p. p ≡ plan p.front) metas (plans_of plan fronts)
          (All-plans_of plan fronts (λ f. refl)),
      sort_plans-ShrinkingFirst metas (plans_of plan fronts),
    )
