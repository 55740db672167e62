-- ===== src/FrontSwap/Plans.antt =====
-- The plans of one pass (`plan_front_writes` of src/front_swap.rs): one for each front that is
-- wanted or, when pruning, that has anything in the maps, the ones that free rows first. A hash set
-- of fronts is a list without repeats.
use beep.Common.{
  ℕ, ◌+◌, Bool, true, false, ◌&&◌, ◌||◌, Option, none, some, List, [], ◌∷◌, map, ltb, ◌==◌,
  if◌then◌else◌,
}
use beep.Common.Assoc.{lookup}
use beep.Maps.{LbFrontKey, LbFrontKey-discrete}
use beep.FrontSwap.{DesiredFront, FrontPlan, Metas, Endpoints, meta_at, same_front, front_steps}
use beep.FrontSwap.Apply.{Effect, plan_effect, had_meta}

abbrev pub Desired : Type 0
Desired = List (LbFrontKey × DesiredFront)

abbrev pub has_front : LbFrontKey → List LbFrontKey → Bool
has_front front [] = false
has_front front (f ∷ fs) = same_front f front || has_front front fs

-- `HashSet::extend`
unfoldable pub add_fronts : List LbFrontKey → List LbFrontKey → List LbFrontKey
add_fronts [] fs = fs
add_fronts (f ∷ more) fs =
    let rest = add_fronts more fs in if has_front f rest then rest else f ∷ rest

unfoldable pub planned_fronts : Metas → Endpoints → Desired → Bool → List LbFrontKey
unfolding add_fronts
planned_fronts metas rows desired prune_absent =
    let wanted = add_fronts (map (λ x. x.0) desired) [] in
    if prune_absent
    then add_fronts (map (λ x. x.0.front) rows) (add_fronts (map (λ x. x.0) metas) wanted)
    else wanted

-- The order of byte strings of one length.
abbrev pub bytes_before : List ℕ → List ℕ → Option Bool
bytes_before [] ys = none
bytes_before (x ∷ xs) [] = none
bytes_before (x ∷ xs) (y ∷ ys) =
    let rest = bytes_before xs ys in if x == y then rest else some (ltb x y)

abbrev pub front_before : LbFrontKey → LbFrontKey → Bool
front_before a b = elim (bytes_before a.front_ip b.front_ip) [
  | some before ↦ before
  | none ↦
      if a.front_port == b.front_port then ltb a.proto b.proto else ltb a.front_port b.front_port
]

-- `a.0 < b.0` and `a.0 == b.0` for the net changes, each the difference of two counts.
abbrev pub net_before : Effect → Effect → Bool
net_before a b = ltb (a.ep_up + b.ep_down) (b.ep_up + a.ep_down)

abbrev pub net_same : Effect → Effect → Bool
net_same a b = (a.ep_up + b.ep_down) == (b.ep_up + a.ep_down)

-- The order of the sort keys.
abbrev pub plan_before : Metas → FrontPlan → FrontPlan → Bool
plan_before metas p q =
    let a = plan_effect p (had_meta (meta_at metas p.front)) in
    let b = plan_effect q (had_meta (meta_at metas q.front)) in
    net_before a b || (net_same a b && front_before p.front q.front)

-- The stable sort: a plan goes behind those that are not after it.
unfoldable pub insert_plan : Metas → FrontPlan → List FrontPlan → List FrontPlan
insert_plan metas p [] = p ∷ []
insert_plan metas p (q ∷ qs) =
    let rest = insert_plan metas p qs in if plan_before metas q p then q ∷ rest else p ∷ q ∷ qs

unfoldable pub sort_plans : Metas → List FrontPlan → List FrontPlan
unfolding insert_plan
sort_plans metas [] = []
sort_plans metas (p ∷ ps) = insert_plan metas p (sort_plans metas ps)

abbrev pub plan_of : Metas → Endpoints → Desired → Bool → List LbFrontKey → LbFrontKey → FrontPlan
plan_of metas rows desired prune_absent keep_previous front = record {
  front = front;
  steps =
      front_steps metas rows (lookup LbFrontKey-discrete front desired) prune_absent
        (has_front front keep_previous) front;
}

abbrev pub is_empty {ℓ} : {A : Type ℓ} → List A → Bool
is_empty [] = true
is_empty (x ∷ xs) = false

unfoldable pub plans_of : (LbFrontKey → FrontPlan) → List LbFrontKey → List FrontPlan
plans_of plan [] = []
plans_of plan (f ∷ fs) =
    let rest = plans_of plan fs in if is_empty (plan f).steps then rest else plan f ∷ rest

unfoldable pub plan_front_writes :
    Metas → Endpoints → Desired → Bool → List LbFrontKey → List FrontPlan
unfolding planned_fronts sort_plans plans_of
plan_front_writes metas rows desired prune_absent keep_previous = sort_plans metas (
    plans_of (plan_of metas rows desired prune_absent keep_previous)
      (planned_fronts metas rows desired prune_absent))
