-- ===== src/FrontSwap.antt =====
-- The endpoint rows of a front, replaced by generations (src/front_swap.rs): what one front's plan
-- writes, and in which order. A hash map is an association list.
pub mod Apply
pub mod Writes
pub mod Frame
pub mod View
pub mod Swap
pub mod Settle
pub mod Isolate
pub mod Counts
pub mod Held
pub mod Capacity
pub mod Plans
pub mod Recent
pub mod Order
mod Tests
use beep.Common.{
  ℕ, zero, suc, ◌+◌, ◌%◌, Bool, true, false, not, ◌&&◌, ◌||◌, Option, none, some, List, [], ◌∷◌,
  ◌++◌, ◌==◌, if◌then◌else◌, is_yes, length, map,
}
use beep.Common.Assoc.{lookup}
use beep.Flow.{has_bits}
use beep.Maps.{
  LbFrontKey, LbFrontKey-discrete, FrontMeta, FrontEndpointKey, FrontEndpointKey-discrete,
  FrontEndpoint, FrontEndpoint-discrete, endpoint_flag_is_local, u32_mod, u16_mod,
}

pub record DesiredFront : Type 0 where
  pub flags : ℕ
  pub prefer_local : Bool
  pub endpoints : List FrontEndpoint

-- The length of the leading run of local endpoints.
abbrev pub local_run : List FrontEndpoint → ℕ
local_run [] = 0
local_run (e ∷ es) =
    let rest = local_run es in if has_bits e.flags endpoint_flag_is_local then suc rest else 0

abbrev pub local_count : DesiredFront → ℕ
local_count want = if want.prefer_local then local_run want.endpoints % u16_mod else 0

pub data FrontWrite : Type 0 where
  delete_endpoint : FrontEndpointKey → FrontWrite
  put_endpoint : FrontEndpointKey → FrontEndpoint → FrontWrite
  put_meta : LbFrontKey → FrontMeta → FrontWrite
  delete_meta : LbFrontKey → FrontWrite

pub record FrontPlan : Type 0 where
  pub front : LbFrontKey
  pub steps : List FrontWrite

abbrev pub endpoint_key : LbFrontKey → ℕ → ℕ → FrontEndpointKey
endpoint_key front generation slot = record {
  front = front;
  generation = generation;
  slot = slot % u16_mod;
}

-- What the two kernel maps hold.
abbrev pub Metas : Type 0
Metas = List (LbFrontKey × FrontMeta)

abbrev pub Endpoints : Type 0
Endpoints = List (FrontEndpointKey × FrontEndpoint)

abbrev pub meta_at : Metas → LbFrontKey → Option FrontMeta
meta_at metas front = lookup LbFrontKey-discrete front metas

abbrev pub row_at : Endpoints → FrontEndpointKey → Option FrontEndpoint
row_at endpoints key = lookup FrontEndpointKey-discrete key endpoints

-- `current_endpoints.get(key) == Some(ep)`
abbrev pub row_is : Option FrontEndpoint → FrontEndpoint → Bool
row_is none ep = false
row_is (some row) ep = is_yes (FrontEndpoint-discrete row ep)

-- The rows from `slot` on are the endpoints.
unfoldable pub rows_match : Endpoints → LbFrontKey → ℕ → ℕ → List FrontEndpoint → Bool
rows_match rows front generation slot [] = true
rows_match rows front generation slot (ep ∷ eps) =
    row_is (row_at rows (endpoint_key front generation slot)) ep
    && rows_match rows front generation (suc slot) eps

abbrev pub same_front : LbFrontKey → LbFrontKey → Bool
same_front a b = is_yes (LbFrontKey-discrete a b)

-- `endpoints_by_front.get(&front)`
unfoldable pub existing_keys : LbFrontKey → Endpoints → List FrontEndpointKey
existing_keys front [] = []
existing_keys front ((key, row) ∷ rows) =
    let rest = existing_keys front rows in if same_front key.front front then key ∷ rest else rest

-- The deletes of the keys that a test names.
unfoldable pub deletes : (FrontEndpointKey → Bool) → List FrontEndpointKey → List FrontWrite
deletes test [] = []
deletes test (key ∷ keys) =
    let rest = deletes test keys in if test key then delete_endpoint key ∷ rest else rest

unfoldable pub puts : LbFrontKey → ℕ → ℕ → List FrontEndpoint → List FrontWrite
puts front generation slot [] = []
puts front generation slot (ep ∷ eps) =
    put_endpoint (endpoint_key front generation slot) ep ∷ puts front generation (suc slot) eps

-- `g.wrapping_add(1)` and `g.wrapping_sub(1)` of a `u32`
abbrev pub next_generation : ℕ → ℕ
next_generation g = (g + 1) % u32_mod

abbrev pub previous_generation : ℕ → ℕ
previous_generation g = (g + 0xffff_ffff) % u32_mod

-- `meta.filter(..)`: the live set is the wanted one.
abbrev pub is_unchanged : FrontMeta → Endpoints → LbFrontKey → DesiredFront → Bool
is_unchanged m rows front want =
    m.count == length want.endpoints % u16_mod
    && m.local_count == local_count want
    && rows_match rows front m.generation 0 want.endpoints

abbrev pub is_stale : FrontMeta → Bool → FrontEndpointKey → Bool
is_stale m held key =
    not (key.generation == m.generation)
    && not (held && key.generation == previous_generation m.generation)

unfoldable pub unchanged_steps :
    FrontMeta → List FrontEndpointKey → LbFrontKey → DesiredFront → Bool → List FrontWrite
unchanged_steps m existing front want held =
    deletes (is_stale m held) existing
    ++ (if m.flags == want.flags then [] else put_meta front (record m { flags = want.flags }) ∷ [])

-- `Some(k.generation) != live`
abbrev pub is_dead : Option FrontMeta → FrontEndpointKey → Bool
is_dead none key = true
is_dead (some m) key = not (key.generation == m.generation)

abbrev pub swap_generation : Option FrontMeta → ℕ
swap_generation none = 1
swap_generation (some m) = next_generation m.generation

abbrev pub swapped_meta : ℕ → DesiredFront → FrontMeta
swapped_meta generation want = record {
  generation = generation;
  count = length want.endpoints % u16_mod;
  flags = want.flags;
  local_count = local_count want;
}

unfoldable pub swap_steps :
    Option FrontMeta → List FrontEndpointKey → LbFrontKey → DesiredFront → List FrontWrite
swap_steps meta existing front want =
    let next = swap_generation meta in
    deletes (is_dead meta) existing
    ++ (puts front next 0 want.endpoints ++ put_meta front (swapped_meta next want) ∷ [])

unfoldable pub absent_steps :
    Option FrontMeta → List FrontEndpointKey → LbFrontKey → List FrontWrite
absent_steps none existing front = deletes (λ _. true) existing
absent_steps (some m) existing front = delete_meta front ∷ deletes (λ _. true) existing

-- The steps for a front that is wanted.
unfoldable pub desired_steps :
    Option FrontMeta → Endpoints → LbFrontKey → DesiredFront → Bool → List FrontWrite
desired_steps none rows front want held = swap_steps none (existing_keys front rows) front want
desired_steps (some m) rows front want held =
    if is_unchanged m rows front want
    then unchanged_steps m (existing_keys front rows) front want held
    else swap_steps (some m) (existing_keys front rows) front want

-- The body of the loop over the fronts.
unfoldable pub front_steps :
    Metas → Endpoints → Option DesiredFront → Bool → Bool → LbFrontKey → List FrontWrite
front_steps metas rows none prune_absent held front =
    if prune_absent then absent_steps (meta_at metas front) (existing_keys front rows) front else []
front_steps metas rows (some want) prune_absent held front =
    desired_steps (meta_at metas front) rows front want held
