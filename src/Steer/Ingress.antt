-- ===== src/Steer/Ingress.antt =====
-- The steering decision (`ingress_steer` of common/src/lib.rs) for a flow without a pin.
use beep.Common.{
  ℕ, ◌^◌, ◌≤◌, ◌<◌, ◌≡◌, true, false, Option, none, some, arith, ◌==◌, ◌↔◌, inl, inr, Option-cases,
}
use beep.Maps.{
  LbFrontKey, LbFrontBackend, FrontMeta, FrontEndpointKey, FrontEndpoint, u16_mod,
  endpoint_flag_is_local,
}
use beep.Steer.{drop, forward, steer_row, ingress_steer, select_endpoint_slot, has_bits}
use beep.Steer.Slot.{slot_range, select_endpoint_slot_bounds}

-- The key of a slot under the live generation.
abbrev pub slot_key : LbFrontKey → FrontMeta → ℕ → FrontEndpointKey
slot_key front meta slot = record { front = front; generation = meta.generation; slot = slot }

module _ (endpoint_at : FrontEndpointKey → Option FrontEndpoint) where
  -- A new flow whose slot is known reads one row.
  steer_new :
      (meta : FrontMeta) (hash : ℕ) (front : LbFrontKey) (slot : ℕ)
      → 0 < meta.count
      → select_endpoint_slot hash meta.count meta.local_count ≡ some slot
      → ingress_steer endpoint_at meta none none hash front
        ≡ steer_row meta (endpoint_at (slot_key front meta slot))
  unfolding ingress_steer
  steer_new meta hash front slot pos e =
      let some_count : (meta.count == 0) ≡ false = ground arith in rw (some_count, e)

  steer_none :
      (meta : FrontMeta) (hash : ℕ) (front : LbFrontKey)
      → select_endpoint_slot hash meta.count meta.local_count ≡ none
      → ingress_steer endpoint_at meta none none hash front ≡ drop
  unfolding ingress_steer
  steer_none meta hash front e = rw e (ground arith)

  -- Where a new flow goes: to the endpoint row of the live generation in a slot below the count,
  -- one of the local ones, and flagged so, if the front has any.
  pub record Chosen (meta : FrontMeta) (front : LbFrontKey) (backend : LbFrontBackend) (port : ℕ)
      : Type 0 where
    pub slot : ℕ
    pub row : FrontEndpoint
    pub read : endpoint_at (slot_key front meta slot) ≡ some row
    pub in_range : slot < slot_range meta.count meta.local_count
    pub below_count : slot < meta.count
    pub backend_is : backend ≡ row.backend
    pub port_is : port ≡ row.target_port
    pub local : 0 < meta.local_count → has_bits row.flags endpoint_flag_is_local ≡ true

  -- If a flow without a pin is forwarded, then to the backend and port of an endpoint row of the live
  -- generation, in a slot below the front's count, and to a row flagged local if the front has local
  -- endpoints. The hash is a 32-bit word and the count a 16-bit one.
  pub ingress_steer_new :
      (meta : FrontMeta) (hash : ℕ) (front : LbFrontKey) (backend : LbFrontBackend) (port : ℕ)
      → hash < 2 ^ 32
      → meta.count < u16_mod
      → ingress_steer endpoint_at meta none none hash front ≡ forward backend port
      → Chosen meta front backend port
  unfolding steer_row
  ingress_steer_new meta hash front backend port h k e =
      elim (select_endpoint_slot_bounds hash meta.count meta.local_count h k) [
        | inl (n, _) ↦ absurd (cc (steer_none meta hash front n))
        | inr (slot, s, range, below, _) ↦
            elim (Option-cases (endpoint_at (slot_key front meta slot))) [
              | inl gone ↦
                  absurd (ground (arith, steer_new meta hash front slot (omega arith) s, gone))
              | inr (row, there) ↦
                  let took = steer_new meta hash front slot (omega arith) s in
                  record {
                    slot = slot;
                    row = row;
                    read = there;
                    in_range = range;
                    below_count = below;
                    backend_is = ground (arith, took, there);
                    port_is = ground (arith, took, there);
                    local = ground (arith, took, there);
                  }
            ]
      ]

  -- What the writer of the front maps promises of a front.
  pub record IsComplete (meta : FrontMeta) (front : LbFrontKey) : Type 0 where
    pub counts : meta.local_count ≤ meta.count
    pub rows :
        (slot : ℕ)
        → slot < meta.count
        → (row : FrontEndpoint) × (endpoint_at (slot_key front meta slot) ≡ some row)
          × ((slot < meta.local_count) → has_bits row.flags endpoint_flag_is_local ≡ true)

  -- If the front's writer keeps its promise, that every slot below the count has a row and that the
  -- local ones come first and are flagged, then a flow without a pin is dropped exactly if the front has
  -- no endpoints. The hash is a 32-bit word and the count a 16-bit one.
  pub ingress_steer_total :
      (meta : FrontMeta) (hash : ℕ) (front : LbFrontKey)
      → hash < 2 ^ 32
      → meta.count < u16_mod
      → IsComplete meta front
      → (ingress_steer endpoint_at meta none none hash front ≡ drop) ↔ (meta.count ≡ 0)
  unfolding steer_row
  ingress_steer_total meta hash front h k c =
      elim (select_endpoint_slot_bounds hash meta.count meta.local_count h k) [
        | inl (n, why) ↦ (λ _. ground (arith, c.counts), λ _. steer_none meta hash front n)
        | inr (slot, s, range, below, _) ↦
            let took = steer_new meta hash front slot (omega arith) s in
            let (row, there, flagged) = c.rows slot below in
            (
              λ e. absurd (ground (arith, took, there, flagged, c.counts)),
              λ z. absurd (omega arith),
            )
      ]
