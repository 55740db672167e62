-- ===== src/FrontSwap/Apply.antt =====
-- Running a plan against the two maps (src/front_swap.rs): a failed endpoint write blocks the commit,
-- a failed meta delete ends the plan, and a plan that does not fit is refused whole.
use beep.Common.{
  ℕ, ◌+◌, ◌-◌, Bool, true, false, ◌&&◌, ◌||◌, not, Option, none, some, List, [], ◌∷◌, ◌++◌, ltb,
  if◌then◌else◌, max, ◌==◌, map,
}
use beep.Common.Assoc.{insert, remove}
use beep.Maps.{LbFrontKey, LbFrontKey-discrete, FrontEndpointKey-discrete, FrontMeta}
use beep.FrontSwap.{
  FrontWrite, delete_endpoint, put_endpoint, put_meta, delete_meta, FrontPlan, Metas, Endpoints,
  meta_at,
}

pub data FailureKind : Type 0 where
  capacity out_of_memory other : FailureKind

abbrev pub e2big : ℕ
e2big = 7

abbrev pub enomem : ℕ
enomem = 12

unfoldable pub from_errno : Option ℕ → FailureKind
from_errno none = other
from_errno (some errno) =
    if errno == e2big then capacity else if errno == enomem then out_of_memory else other

pub data FrontMap : Type 0 where
  front_endpoints front_meta : FrontMap

-- The message of a failure, before it is printed: the step and its error, or the map with its use,
-- its cap and the need.
pub data Message (E : Type 0) : Type 0 where
  step_failed : FrontWrite → E → Message E
  no_room : FrontMap → ℕ → ℕ → ℕ → Message E

pub record FrontFailure (E : Type 0) : Type 0 where
  pub kind : FailureKind
  pub message : Message E

abbrev pub is_put_meta : FrontWrite → Bool
is_put_meta (put_meta front m) = true
is_put_meta (put_endpoint key row) = false
is_put_meta (delete_meta front) = false
is_put_meta (delete_endpoint key) = false

abbrev pub blocks_commit : FrontWrite → Bool
blocks_commit (put_endpoint key row) = true
blocks_commit (put_meta front m) = false
blocks_commit (delete_meta front) = false
blocks_commit (delete_endpoint key) = false

abbrev pub ends_plan : FrontWrite → Bool
ends_plan (delete_meta front) = true
ends_plan (put_meta front m) = false
ends_plan (put_endpoint key row) = false
ends_plan (delete_endpoint key) = false

pub record FrontUsage : Type 0 where
  pub meta : ℕ
  pub endpoints : ℕ

pub record FrontCapacity : Type 0 where
  pub meta : ℕ
  pub endpoints : ℕ

-- `FrontUsage::apply`
unfoldable pub use_step : Bool → FrontWrite → FrontUsage → FrontUsage
use_step had_meta (put_endpoint key row) u = record u { endpoints = u.endpoints + 1 }
use_step had_meta (delete_endpoint key) u = record u { endpoints = u.endpoints - 1 }
use_step had_meta (put_meta front m) u = if had_meta then u else record u { meta = u.meta + 1 }
use_step had_meta (delete_meta front) u = record u { meta = u.meta - 1 }

-- The loop of `plan_effect`. A signed count is the number of its increments and of its decrements,
-- and a peak, which starts from 0, is the greatest of their cut-off differences.
pub record Effect : Type 0 where
  pub ep_up : ℕ
  pub ep_down : ℕ
  pub ep_peak : ℕ
  pub meta_up : ℕ
  pub meta_down : ℕ
  pub meta_peak : ℕ

abbrev pub count_step : Bool → FrontWrite → Effect → Effect
count_step had_meta (put_endpoint key row) f = record f { ep_up = f.ep_up + 1 }
count_step had_meta (delete_endpoint key) f = record f { ep_down = f.ep_down + 1 }
count_step had_meta (put_meta front m) f =
    if had_meta then f else record f { meta_up = f.meta_up + 1 }
count_step had_meta (delete_meta front) f = record f { meta_down = f.meta_down + 1 }

abbrev pub raise_peaks : Effect → Effect
raise_peaks f = record f {
  ep_peak = max f.ep_peak (f.ep_up - f.ep_down);
  meta_peak = max f.meta_peak (f.meta_up - f.meta_down);
}

unfoldable pub effect_from : Bool → List FrontWrite → Effect → Effect
effect_from had_meta [] f = f
effect_from had_meta (w ∷ ws) f = effect_from had_meta ws (raise_peaks (count_step had_meta w f))

abbrev pub no_effect : Effect
no_effect = record {
  ep_up = 0;
  ep_down = 0;
  ep_peak = 0;
  meta_up = 0;
  meta_down = 0;
  meta_peak = 0;
}

unfoldable pub plan_effect : FrontPlan → Bool → Effect
unfolding effect_from
plan_effect plan had_meta = effect_from had_meta plan.steps no_effect

abbrev refusal : {E : Type 0} → FrontMap → ℕ → ℕ → ℕ → FrontFailure E
refusal where_ used cap need = record { kind = capacity; message = no_room where_ used cap need }

unfoldable pub capacity_shortfall :
    {E : Type 0} → FrontPlan → Bool → FrontUsage → FrontCapacity → Option (FrontFailure E)
capacity_shortfall plan had_meta used cap =
    let f = plan_effect plan had_meta in
    if ltb cap.endpoints (used.endpoints + f.ep_peak)
    then some (refusal front_endpoints used.endpoints cap.endpoints f.ep_peak)
    else if ltb cap.meta (used.meta + f.meta_peak)
    then some (refusal front_meta used.meta cap.meta f.meta_peak)
    else none

-- The error type and its errno belong to the BPF library. `write` is the closure, with its state.
module _ {E : Type 0} (errno : E → Option ℕ) where
  abbrev pub failure : FrontWrite → E → FrontFailure E
  failure w e = record { kind = from_errno (errno e); message = step_failed w e }

  module _ {S : Type 0} (write : FrontWrite → S → S × Option E) where
    -- The loop of `run_front_plan`, with `commit_blocked`.
    unfoldable pub run_steps : Bool → List FrontWrite → S → S × List (FrontFailure E)
    run_steps blocked [] s = (s, [])
    run_steps blocked (w ∷ ws) s = elim (blocked && is_put_meta w) [
      | true ↦ run_steps blocked ws s
      | false ↦
          let (t, result) = write w s in
          elim result [
            | none ↦ run_steps blocked ws t
            | some e ↦ elim (ends_plan w) [
              | true ↦ (t, failure w e ∷ [])
              | false ↦
                  let rest = run_steps (blocked || blocks_commit w) ws t in
                  (rest.0, failure w e ∷ rest.1)
            ]
          ]
    ]

    unfoldable pub run_front_plan : FrontPlan → S → S × List (FrontFailure E)
    unfolding run_steps
    run_front_plan plan s = run_steps false plan.steps s

-- The two maps, and what comes of the writes that are still to be made, in their order: an error,
-- or `none` for one that is carried out, as all are behind the end of the list.
pub record Store (E : Type 0) : Type 0 where
  pub metas : Metas
  pub endpoints : Endpoints
  pub outcomes : List (Option E)

abbrev pub apply_write : {E : Type 0} → FrontWrite → Store E → Store E
apply_write (delete_endpoint key) s = record s {
  endpoints = remove FrontEndpointKey-discrete key s.endpoints;
}
apply_write (put_endpoint key row) s = record s {
  endpoints = insert FrontEndpointKey-discrete key row s.endpoints;
}
apply_write (put_meta front m) s = record s { metas = insert LbFrontKey-discrete front m s.metas }
apply_write (delete_meta front) s = record s { metas = remove LbFrontKey-discrete front s.metas }

-- The closure that `apply_fronts` hands over, in front of a kernel that refuses some writes.
abbrev pub write_map : {E : Type 0} → FrontWrite → Store E → Store E × Option E
write_map w s = elim s.outcomes [
  | [] ↦ (apply_write w s, none)
  | none ∷ later ↦ (apply_write w (record s { outcomes = later }), none)
  | some e ∷ later ↦ (record s { outcomes = later }, some e)
]

-- `FrontApply`
pub record FrontApply (E : Type 0) : Type 0 where
  pub failures : List (LbFrontKey × FrontFailure E)
  pub swapped : List LbFrontKey

-- `live.map(|l| l.generation) != Some(m.generation)`
abbrev pub other_generation : Option FrontMeta → FrontMeta → Bool
other_generation none m = true
other_generation (some l) m = not (l.generation == m.generation)

abbrev pub commits : Option FrontMeta → FrontWrite → Bool
commits live (put_meta front m) = other_generation live m
commits live (delete_meta front) = false
commits live (put_endpoint key row) = false
commits live (delete_endpoint key) = false

abbrev pub had_meta : Option FrontMeta → Bool
had_meta none = false
had_meta (some m) = true

module _ {E : Type 0} (errno : E → Option ℕ) {S : Type 0}
    (write : FrontWrite → S → S × Option E) where
  -- The closure of one plan: the write itself, and behind its success the usage and the commit.
  abbrev pub Tracked : Type 0
  Tracked = S × FrontUsage × Bool

  abbrev pub tracked_write : Option FrontMeta → FrontWrite → Tracked → Tracked × Option E
  tracked_write live w (s, used, committed) =
      let (t, result) = write w s in
      elim result [
        | some e ↦ ((t, used, committed), some e)
        | none ↦ ((t, use_step (had_meta live) w used, committed || commits live w), none)
      ]

  abbrev add_front : FrontPlan → Bool → List (FrontFailure E) → FrontApply E → FrontApply E
  add_front plan committed errors later = record {
    failures = map (λ e. (plan.front, e)) errors ++ later.failures;
    swapped = if committed then plan.front ∷ later.swapped else later.swapped;
  }

  unfoldable pub run_front_plans :
      List FrontPlan → Metas → FrontUsage → FrontCapacity → S → S × FrontApply E
  unfolding run_front_plan
  run_front_plans [] metas used cap s = (s, record { failures = []; swapped = [] })
  run_front_plans (plan ∷ plans) metas used cap s =
      let live = meta_at metas plan.front in
      elim (capacity_shortfall {E = E} plan (had_meta live) used cap) [
        | some shortfall ↦
            let rest = run_front_plans plans metas used cap s in
            (rest.0, add_front plan false (shortfall ∷ []) rest.1)
        | none ↦
            let ((t, now_used, committed), errors) =
              run_front_plan errno (tracked_write live) plan (s, used, false) in
            let rest = run_front_plans plans metas now_used cap t in
            (rest.0, add_front plan committed errors rest.1)
      ]
