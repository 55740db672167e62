-- ===== src/FrontSwap/Tests.antt =====
-- The swap of a front with two endpoints for one with a third, with and without a failing write.
use beep.Common.{
  ℕ, ◌&&◌, not, All, zero, suc, ap, ℕ_discrete, ◌≤◌, ◌≡◌, ◌≢◌, ◌↔◌, ◌+◌, ◌%◌, refl, true, false,
  Option, none, some, List, [], ◌∷◌, arith, ◌⊎◌, get_elem?, length, if◌then◌else◌,
}
use beep.Common.Assoc.{lookup}
use beep.Reverse.{is_some}
use beep.Maps.{
  u32_mod, FrontEndpoint-discrete, LbFrontKey, FrontMeta, FrontEndpointKey, LbFrontKey-discrete,
  FrontEndpointKey-discrete, FrontEndpoint,
}
use beep.FrontSwap.{
  DesiredFront, delete_endpoint, put_endpoint, put_meta, Metas, Endpoints, meta_at, row_at,
  endpoint_key, front_steps, desired_steps, swap_steps, puts, rows_match, deletes, existing_keys,
  swapped_meta,
}
use beep.FrontSwap.Apply.{
  Store, write_map, run_steps, FrontCapacity, capacity_shortfall, plan_effect, effect_from,
}
use beep.FrontSwap.View.{slot_key, Serves}
use beep.FrontSwap.Swap.{front_steps-atomic}
use beep.FrontSwap.Settle.{IsDelete, deletes_key, front_steps-settled}
use beep.FrontSwap.Isolate.{front_steps-isolated, front_steps-pruned}
use beep.FrontSwap.Plans.{Desired, has_front, is_empty, plan_of, plan_front_writes}
use beep.FrontSwap.Order.{count_plans, concerned, ShrinkingFirst, plan_front_writes_lem}
use beep.FrontSwap.Recent.{
  RecentSwaps, held, record_swaps, swapped_at, in_grace, grace_at, held-record_swaps,
}
use beep.FrontSwap.Counts.{IsOnce}
use beep.FrontSwap.Capacity.{capacity_shortfall_bounds}

abbrev front_ip : List ℕ
front_ip = 32 ∷ 1 ∷ 13 ∷ 184 ∷ 0 ∷ 0 ∷ 0 ∷ 0 ∷ 0 ∷ 0 ∷ 0 ∷ 0 ∷ 0 ∷ 0 ∷ 0 ∷ 1 ∷ []

abbrev front : LbFrontKey
front = record { front_ip = front_ip; front_port = 443; proto = 6 }

abbrev other : LbFrontKey
other = record { front_ip = front_ip; front_port = 80; proto = 6 }

abbrev endpoint : ℕ → FrontEndpoint
endpoint port = record {
  backend = record { backend_node_ip = front_ip; pod_ip = front_ip };
  target_port = port;
  flags = 0;
}

abbrev want : DesiredFront
want = record { flags = 0; prefer_local = true; endpoints = endpoint 8080 ∷ endpoint 8082 ∷ [] }

abbrev metas : Metas
metas =
    (front, record { generation = 1; count = 2; flags = 0; local_count = 0 })
    ∷ (other, record { generation = 7; count = 0; flags = 0; local_count = 0 })
    ∷ []

abbrev rows : Endpoints
rows =
    (endpoint_key front 1 0, endpoint 8080)
    ∷ (endpoint_key front 1 1, endpoint 8081)
    ∷ (endpoint_key front 0 0, endpoint 8079)
    ∷ []

abbrev errno : ℕ → Option ℕ
errno e = some e

-- The second write of the plan fails for want of memory.
abbrev store : Store ℕ
store = record { metas = metas; endpoints = rows; outcomes = none ∷ some 12 ∷ [] }

front_steps-atomic_example :
    let result =
      run_steps errno write_map false (front_steps metas rows (some want) true false front) store in
    (Serves result.0.metas result.0.endpoints front want
      ⊎ ((result.0.metas ≡ metas) × (result.1 ≢ [])))
    × ((meta : FrontMeta) (slot : ℕ)
        → meta_at metas front ≡ some meta
        → row_at result.0.endpoints (slot_key front meta.generation slot)
          ≡ row_at rows (slot_key front meta.generation slot))
front_steps-atomic_example = front_steps-atomic errno store front want true false (omega arith)

abbrev had : DesiredFront
had = record { flags = 0; prefer_local = true; endpoints = endpoint 8080 ∷ endpoint 8081 ∷ [] }

had-Serves : Serves metas rows front had
unfolding lookup LbFrontKey-discrete FrontEndpointKey-discrete ℕ_discrete
had-Serves = record { generation = 1; meta_is = refl; rows_are = at }
  where
    at :
        (i : ℕ) (row : FrontEndpoint)
        → get_elem? had.endpoints i ≡ some row
        → row_at rows (endpoint_key front 1 i) ≡ some row
    at zero row e = e
    at (suc zero) row e = e
    at (suc (suc i)) row e = absurd (cc e)

front_steps-settled_example :
    let steps = front_steps metas rows (some had) true true front in
    All IsDelete steps
    × ((key : FrontEndpointKey)
        → (deletes_key key steps ≡ true) ↔ (
            (is_some (row_at rows key) ≡ true)
            × (key.front ≡ front)
            × (key.generation ≢ had-Serves.generation)
            × (true ≡ true → key.generation ≢ (had-Serves.generation + 0xffff_ffff) % u32_mod)))
front_steps-settled_example = front_steps-settled metas rows front had true true had-Serves

fronts_differ : front ≢ other
fronts_differ e = omega (arith, ap (λ (k : LbFrontKey). k.front_port) e)

front_steps-isolated_example :
    let t =
      (run_steps errno write_map false (front_steps metas rows none true false front) store).0 in
    (meta_at t.metas other ≡ meta_at metas other)
    × ((key : FrontEndpointKey) → key.front ≡ other → row_at t.endpoints key ≡ row_at rows key)
front_steps-isolated_example =
    front_steps-isolated errno store none true false front other fronts_differ

front_steps-pruned_example :
    let result =
      run_steps errno write_map false (front_steps metas rows none true false front) store in
    (meta_at result.0.metas front ≡ none)
    ⊎ ((result.0.metas ≡ metas) × (result.0.endpoints ≡ rows) × (result.1 ≢ []))
front_steps-pruned_example = front_steps-pruned errno store false front

abbrev caps : FrontCapacity
caps = record { meta = 2; endpoints = 4 }

rows-IsOnce : IsOnce FrontEndpointKey-discrete rows
unfolding lookup FrontEndpointKey-discrete LbFrontKey-discrete ℕ_discrete
rows-IsOnce = (refl, (refl, (refl, tt)))

-- The delete and the first put of the plan.
capacity_shortfall_bounds_example :
    let t =
      (run_steps errno write_map false
        (delete_endpoint (endpoint_key front 0 0)
          ∷ put_endpoint (endpoint_key front 2 0) (endpoint 8080)
          ∷ [])
        (record { metas = metas; endpoints = rows; outcomes = [] })).0 in
    (length t.endpoints ≤ 4) × (length t.metas ≤ 2)
unfolding capacity_shortfall plan_effect front_steps desired_steps swap_steps existing_keys deletes
    puts lookup FrontEndpointKey-discrete LbFrontKey-discrete ℕ_discrete rows_match effect_from
    FrontEndpoint-discrete
capacity_shortfall_bounds_example =
    capacity_shortfall_bounds errno metas rows front (some want) true false caps
      (delete_endpoint (endpoint_key front 0 0)
        ∷ put_endpoint (endpoint_key front 2 0) (endpoint 8080)
        ∷ [])
      (put_endpoint (endpoint_key front 2 1) (endpoint 8082)
        ∷ put_meta front (swapped_meta 2 want)
        ∷ [])
      rows-IsOnce refl refl

-- One front changes, and the other is not wanted any more.
abbrev desired : Desired
desired = (front, want) ∷ []

plan_front_writes_lem_example :
    let plan = plan_of metas rows desired true [] in
    let plans = plan_front_writes metas rows desired true [] in
    ((front : LbFrontKey)
      → count_plans front plans ≡ (
          if concerned metas rows desired true front && not (is_empty (plan front).steps)
          then 1
          else 0))
    × All (λ p. p ≡ plan p.front) plans
    × ShrinkingFirst metas plans
plan_front_writes_lem_example = plan_front_writes_lem metas rows desired true []

abbrev swaps : RecentSwaps
swaps = (other, 100) ∷ []

swaps-IsMap : (swapped_at [] other ≡ none) × Unit {0}
unfolding lookup
swaps-IsMap = (refl, tt)

held-record_swaps_example :
    has_front other (held 108 10 (record_swaps (front ∷ []) 105 10 swaps)) ≡ (
      if has_front other (front ∷ [])
      then in_grace 108 10 105
      else grace_at 108 10 (swapped_at swaps other))
held-record_swaps_example =
    held-record_swaps (front ∷ []) 105 108 10 swaps other swaps-IsMap (omega arith)
