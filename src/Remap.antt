-- ===== src/Remap.antt =====
-- The backend-side source port (common/src/lib.rs): when two connections would share a reverse key,
-- the later one gets a synthetic port, found by a bounded probe.
pub mod Probe
pub mod Window
mod Tests
use beep.Common.{
  ℕ, zero, suc, ◌+◌, ◌*◌, ◌/◌, ◌%◌, ◌^◌, ◌≡◌, Bool, true, false, ◌&&◌, not, Option, none, some,
  List, ◌==◌, if◌then◌else◌, bit_xor, is_yes, ℕ_discrete,
}
use beep.Flow.{has_bits, flow_flag_closed}
use beep.Wire.{u32_of_bytes, slice}
use beep.Maps.{RevFlowValue, u16_mod}

pub data BackendPortDecision : Type 0 where
  no_remap : BackendPortDecision
  remap : ℕ → BackendPortDecision
  exhausted : BackendPortDecision

abbrev pub probe_limit : ℕ
probe_limit = 16

abbrev pub remap_port_base : ℕ
remap_port_base = 49152

-- `u16::MAX - REMAP_PORT_BASE + 1`
abbrev pub remap_port_range : ℕ
remap_port_range = 16384

-- The connection that a reverse row belongs to: its front and the client's own port.
pub record Occupant : Type 0 where
  pub front_ip : List ℕ
  pub front_port : ℕ
  pub client_port : ℕ

unfoldable pub Occupant-discrete : Discrete Occupant
Occupant-discrete = hlevel ℕ_discrete

-- `matches!(occupant, Some(identity) if identity != resolving)`
unfoldable pub occupant_conflicts : Option Occupant → Occupant → Bool
occupant_conflicts none resolving = false
occupant_conflicts (some identity) resolving = not (is_yes (Occupant-discrete identity resolving))

abbrev pub identity_of : RevFlowValue → Occupant
identity_of row = record {
  front_ip = row.front_ip;
  front_port = row.front_port;
  client_port = row.original_client_port;
}

unfoldable pub reverse_occupant : RevFlowValue → Option Occupant
reverse_occupant row = if has_bits row.flags flow_flag_closed then none else some (identity_of row)

-- `x.rotate_right(16)` of a `u32`
abbrev rotate_right_16 : ℕ → ℕ
rotate_right_16 x = x / 2 ^ 16 + x % 2 ^ 16 * 2 ^ 16

unfoldable pub synthetic_port_seed : List ℕ → ℕ → ℕ
unfolding u32_of_bytes
synthetic_port_seed front_ip front_port =
    let folded =
      bit_xor
        (bit_xor (bit_xor (u32_of_bytes (slice 0 4 front_ip)) (u32_of_bytes (slice 4 4 front_ip)))
          (u32_of_bytes (slice 8 4 front_ip)))
        (u32_of_bytes (slice 12 4 front_ip)) in
    let mixed =
      bit_xor (bit_xor (bit_xor folded (rotate_right_16 folded)) front_port) (front_port * 2 ^ 3) in
    mixed % u16_mod % remap_port_range

-- The port tried in round `i`.
unfoldable pub candidate : ℕ → ℕ → ℕ
candidate seed i =
    let offset = (seed + i) % u16_mod % remap_port_range in (remap_port_base + offset) % u16_mod

module _ (is_reverse_key_taken : ℕ → Bool) where
  abbrev pub is_free : ℕ → ℕ → Bool
  is_free original_port port = not (port == original_port) && not (is_reverse_key_taken port)

  -- The loop, with the rounds left and the round's number.
  unfoldable pub probe : ℕ → ℕ → ℕ → ℕ → BackendPortDecision
  probe seed original_port zero i = exhausted
  probe seed original_port (suc rounds) i =
      let rest = probe seed original_port rounds (i + 1) in
      let port = candidate seed i in if is_free original_port port then remap port else rest

  unfoldable pub resolve_backend_src_port : Option Occupant → Occupant → BackendPortDecision
  resolve_backend_src_port existing_occupant resolving =
      if not (occupant_conflicts existing_occupant resolving)
      then no_remap
      else probe (synthetic_port_seed resolving.front_ip resolving.front_port) resolving.client_port
          probe_limit 0
