-- ===== src/Flow/Stable.antt =====
-- The words of flags that `flow_step_flags` writes (common/src/lib.rs), and a packet that comes twice.
use beep.Common.{ℕ, zero, suc, ◌<◌, ◌≡◌, Bool, true, false, ◌==◌, arith, ap, sym, ◌∙◌, ◌≤◌}
use beep.Common.Bits.{
  bit_at, bit_and-lt, bit_or-lt, bit_at-beyond, bit_at-le-one, eq_of_bits, bit_and-pow,
}
use beep.Flow.{
  keep, FlowSide, GcParity, flow_step_flags, on_syn, on_rst, on_fin, on_both, tcp_step,
  stamp_parity,
}
use beep.Flow.Marks.{Marks, marks, Seen, seen, stamp_parity-cases}
use beep.Flow.Lifecycle.{row_flags, refuses, life, marks-life, row_flags-flow_step_flags}

module _ (t : ℕ) (side : FlowSide) (x : ℕ) (h : x < 32) where
  on_syn-lt : on_syn t x < 32
  unfolding on_syn
  on_syn-lt = ground (arith, bit_and-lt 5 x 65516)

  on_rst-lt : on_rst t x < 32
  unfolding on_rst
  on_rst-lt = ground (arith, bit_or-lt 5 x 16)

  on_fin-lt : on_fin t side x < 32
  unfolding on_fin
  on_fin-lt = ground (arith, bit_or-lt 5 x 1, bit_or-lt 5 x 2)

  on_both-lt : on_both x < 32
  unfolding on_both
  on_both-lt = ground (arith, bit_or-lt 5 x 16)

pub tcp_step-lt : (proto t : ℕ) (side : FlowSide) (x : ℕ) → x < 32 → tcp_step proto t side x < 32
unfolding tcp_step
tcp_step-lt proto t side x h =
    let syn = on_syn-lt t side x h in
    let rst = on_rst-lt t side (on_syn t x) syn in
    let fin = on_fin-lt t side (on_rst t (on_syn t x)) rst in
    ground (arith, on_both-lt t side (on_fin t side (on_rst t (on_syn t x))) fin)

pub stamp_parity-lt :
    (proto : ℕ) (parity : GcParity) (x : ℕ) → x < 32 → stamp_parity proto parity x < 32
stamp_parity-lt proto parity x h =
    rw stamp_parity-cases
      (ground (arith, bit_or-lt 5 x 4, bit_or-lt 5 x 8, bit_and-lt 5 x 65531, bit_and-lt 5 x 65527))

-- Flags below 32 stay below 32 whatever the packet: no step sets a bit outside the five that the
-- source defines.
pub flow_step_flags_bounds :
    (exists : Bool) (f proto t : ℕ) (side : FlowSide) (parity : GcParity)
    → f < 32
    → row_flags f (flow_step_flags exists f proto t side parity) < 32
flow_step_flags_bounds exists f proto t side parity h = rw row_flags-flow_step_flags (
    ground
      (arith, stamp_parity-lt proto parity (tcp_step proto t side f), tcp_step-lt proto t side f))

digit_of_mark : (i x y : ℕ) → (bit_at i x == 1) ≡ (bit_at i y == 1) → bit_at i x ≡ bit_at i y
digit_of_mark i x y e = ground (arith, bit_at-le-one i x, bit_at-le-one i y)

-- Five flags make the word.
marks_injective : (x y : ℕ) → x < 32 → y < 32 → marks x ≡ marks y → x ≡ y
marks_injective x y hx hy e = eq_of_bits 5 x y hx hy digit
  where
    digit : (i : ℕ) → bit_at i x ≡ bit_at i y
    digit zero =
        ground (arith, ap (λ (m : Marks). m.fin_client) e, bit_and-pow 0 x, bit_and-pow 0 y)
    digit (suc zero) =
        ground (arith, ap (λ (m : Marks). m.fin_pod) e, bit_and-pow 1 x, bit_and-pow 1 y)
    digit (suc (suc zero)) =
        ground (arith, ap (λ (m : Marks). m.udp_parity) e, bit_and-pow 2 x, bit_and-pow 2 y)
    digit (suc (suc (suc zero))) =
        ground (arith, ap (λ (m : Marks). m.tcp_parity) e, bit_and-pow 3 x, bit_and-pow 3 y)
    digit (suc (suc (suc (suc zero)))) =
        ground (arith, ap (λ (m : Marks). m.closed) e, bit_and-pow 4 x, bit_and-pow 4 y)
    digit (suc (suc (suc (suc (suc i))))) =
        let beyond : 5 ≤ suc (suc (suc (suc (suc i)))) = omega arith in
        bit_at-beyond 5 _ x hx beyond ∙ sym (bit_at-beyond 5 _ y hy beyond)

life-life :
    (proto : ℕ) (p : Seen) (parity : GcParity) (m : Marks)
    → life proto p parity (life proto p parity m) ≡ life proto p parity m
life-life proto p parity m = ground arith

keep_of_fixed :
    (g proto t : ℕ) (side : FlowSide) (parity : GcParity)
    → stamp_parity proto parity (tcp_step proto t side g) ≡ g
    → flow_step_flags true g proto t side parity ≡ keep
unfolding flow_step_flags
keep_of_fixed g proto t side parity e = ground arith

-- A packet repeated on the row that it left, under the same parity, writes nothing: the datapath
-- makes at most one write for it.
-- The flags are below 32, and the packet is not an RST without a row.
pub flow_step_flags_again :
    (exists : Bool) (f proto t : ℕ) (side : FlowSide) (parity : GcParity)
    → f < 32
    → refuses exists proto t ≡ false
    → let g = row_flags f (flow_step_flags exists f proto t side parity) in
      flow_step_flags true g proto t side parity ≡ keep
flow_step_flags_again exists f proto t side parity h r =
    rw (row_flags-flow_step_flags, r)
      (keep_of_fixed (target f) proto t side parity
        (marks_injective _ _ (bound (target f) (bound f h)) (bound f h) same))
  where
    target : ℕ → ℕ
    target x = stamp_parity proto parity (tcp_step proto t side x)

    bound : (x : ℕ) → x < 32 → target x < 32
    bound x k = stamp_parity-lt proto parity _ (tcp_step-lt proto t side x k)

    same : marks (target (target f)) ≡ marks (target f)
    same =
        marks-life (target f) proto t side parity
        ∙ ap (life proto (seen t side) parity) (marks-life f proto t side parity)
        ∙ life-life proto (seen t side) parity (marks f)
        ∙ sym (marks-life f proto t side parity)
