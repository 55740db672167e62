-- ===== src/Steer.antt =====
-- Where a packet of a front goes (common/src/lib.rs): the flow hash, the endpoint slot that it
-- picks, and the steering decision of the ingress hook.
pub mod Hash
pub mod Slot
pub mod Ingress
mod Tests
use beep.Common.{
  ℕ, ◌+◌, ◌*◌, ◌/◌, ◌%◌, ◌^◌, ◌≡◌, Bool, true, false, ◌&&◌, ◌||◌, not, Option, none, some, List, [],
  ◌∷◌, ◌==◌, ltb, if◌then◌else◌, bit_and, bit_or, bit_xor,
}
use beep.Wire.{u32_of_bytes, slice}
use beep.Maps.{
  LbFrontKey, LbFrontBackend, FrontMeta, FrontEndpointKey, FrontEndpoint, ForwardFlowValue,
  front_flag_client_ip_affinity, endpoint_flag_is_local, u32_mod, u16_mod,
}

-- `x & m != 0`
abbrev has_bits : ℕ → ℕ → Bool
has_bits x m = not (bit_and x m == 0)

-- `h ^ (h >> k)` of a `u32`, and a wrapping product.
abbrev xorshift : ℕ → ℕ → ℕ
xorshift k h = bit_xor h (h / 2 ^ k)

abbrev wrapping_mul : ℕ → ℕ → ℕ
wrapping_mul h c = h * c % u32_mod

unfoldable pub mix32 : ℕ → ℕ → ℕ
mix32 h w = xorshift 15 (wrapping_mul (bit_xor h w) 0x9e37_79b1)

unfoldable pub le_words : List ℕ → ℕ × ℕ × ℕ × ℕ
unfolding u32_of_bytes
le_words b = (
  u32_of_bytes (slice 0 4 b),
  u32_of_bytes (slice 4 4 b),
  u32_of_bytes (slice 8 4 b),
  u32_of_bytes (slice 12 4 b),
)

unfoldable pub mix_words : ℕ → List ℕ → ℕ
unfolding mix32
mix_words h [] = h
mix_words h (w ∷ ws) = mix_words (mix32 h w) ws

unfoldable pub finish_hash : ℕ → ℕ
finish_hash h =
    xorshift 16 (wrapping_mul (xorshift 13 (wrapping_mul (xorshift 16 h) 0x85eb_ca6b)) 0xc2b2_ae35)

abbrev pub port_word : ℕ → ℕ → ℕ
port_word client_port front_port = bit_or client_port (front_port * 2 ^ 16)

-- The words that are mixed, in the order of the source.
unfoldable pub flow_words : ℕ → List ℕ → ℕ → LbFrontKey → List ℕ
unfolding le_words
flow_words seed client_ip client_port front =
    let c = le_words client_ip in
    let f = le_words front.front_ip in
    (seed % u32_mod)
    ∷ (seed / 2 ^ 32 % u32_mod)
    ∷ c.0
    ∷ f.0
    ∷ c.1
    ∷ f.1
    ∷ c.2
    ∷ f.2
    ∷ c.3
    ∷ f.3
    ∷ port_word client_port front.front_port
    ∷ front.proto
    ∷ []

unfoldable pub flow_hash : ℕ → List ℕ → ℕ → LbFrontKey → ℕ
unfolding mix_words finish_hash flow_words
flow_hash seed client_ip client_port front =
    finish_hash (mix_words 0x811c_9dc5 (flow_words seed client_ip client_port front))

unfoldable pub front_flow_hash : ℕ → List ℕ → ℕ → LbFrontKey → FrontMeta → ℕ
front_flow_hash seed client_ip client_port front meta =
    let port = if has_bits meta.flags front_flag_client_ip_affinity then 0 else client_port in
    flow_hash seed client_ip port front

unfoldable pub slot_in_range : ℕ → ℕ → Option ℕ
slot_in_range hash n = if n == 0 then none else some (hash * n / 2 ^ 32 % u32_mod)

unfoldable pub select_backend_slot : ℕ → List ℕ → ℕ → LbFrontKey → ℕ → Option ℕ
unfolding slot_in_range
select_backend_slot seed client_ip client_port front n =
    slot_in_range (flow_hash seed client_ip client_port front) n

abbrev as_u16 : Option ℕ → Option ℕ
as_u16 none = none
as_u16 (some slot) = some (slot % u16_mod)

unfoldable pub select_endpoint_slot : ℕ → ℕ → ℕ → Option ℕ
select_endpoint_slot hash ready_count local_count =
    if ltb ready_count local_count
    then none
    else (let range = if ltb 0 local_count then local_count else ready_count in
        as_u16 (slot_in_range hash range))

-- The key of the only slot, used before there was a choice of several.
unfoldable pub front_endpoint_key : LbFrontKey → FrontMeta → Option FrontEndpointKey
front_endpoint_key front meta =
    if meta.count == 0
    then none
    else some (record { front = front; generation = meta.generation; slot = 0 })

pub data IngressSteer : Type 0 where
  drop : IngressSteer
  forward : LbFrontBackend → ℕ → IngressSteer

-- `established.or(pending)`
abbrev pub or_else : Option ForwardFlowValue → Option ForwardFlowValue → Option ForwardFlowValue
or_else (some v) other = some v
or_else none other = other

-- The row that was read: kept unless it was picked as local and is not.
unfoldable pub steer_row : FrontMeta → Option FrontEndpoint → IngressSteer
steer_row meta none = drop
steer_row meta (some endpoint) =
    if meta.local_count == 0 || has_bits endpoint.flags endpoint_flag_is_local
    then forward endpoint.backend endpoint.target_port
    else drop

module _ (endpoint_at : FrontEndpointKey → Option FrontEndpoint) where
  unfoldable pub steer_slot : LbFrontKey → FrontMeta → Option ℕ → IngressSteer
  unfolding steer_row
  steer_slot front meta none = drop
  steer_slot front meta (some slot) =
      steer_row meta
        (endpoint_at (record { front = front; generation = meta.generation; slot = slot }))

  unfoldable pub steer_pin : FrontMeta → Option ForwardFlowValue → ℕ → LbFrontKey → IngressSteer
  unfolding steer_slot
  steer_pin meta (some pin) hash front = forward pin.backend pin.target_port
  steer_pin meta none hash front =
      if meta.count == 0
      then drop
      else steer_slot front meta (select_endpoint_slot hash meta.count meta.local_count)

  unfoldable pub ingress_steer :
      FrontMeta → Option ForwardFlowValue → Option ForwardFlowValue → ℕ → LbFrontKey → IngressSteer
  unfolding steer_pin
  ingress_steer meta established pending hash front =
      steer_pin meta (or_else established pending) hash front
