-- ===== src/Flow/Lifecycle.antt =====
-- What a packet makes of a row, over one packet and over a run of packets.
use beep.Common.{
  ℕ, ◌≡◌, ◌↔◌, Bool, true, false, not, ◌&&◌, ◌==◌, if◌then◌else◌, arith, ◌⊎◌, inl, inr, Bool-cases,
  ◌∙◌, ap,
}
use beep.Flow.{
  FlowStep, keep, write, skip, FlowSide, GcParity, flow_step_flags, has_bits, tcp_step,
  stamp_parity, ipproto_tcp, tcp_flag_rst,
}
use beep.Flow.Marks.{
  Marks, marks, Seen, seen, tcp_life, stamped, marks-tcp_step, marks-stamp_parity,
}

-- The flags that a row holds after the step, if it held `flags` before (0 without a row).
abbrev pub row_flags : ℕ → FlowStep → ℕ
row_flags flags keep = flags
row_flags flags (write f) = f
row_flags flags skip = flags

-- A row without this packet: an RST makes none.
abbrev pub refuses : Bool → ℕ → ℕ → Bool
refuses exists proto tcp_flags =
    proto == ipproto_tcp && has_bits tcp_flags tcp_flag_rst && not exists

abbrev pub life : ℕ → Seen → GcParity → Marks → Marks
life proto p parity m = stamped proto parity (if proto == ipproto_tcp then tcp_life p m else m)

pub row_flags-flow_step_flags :
    (exists : Bool) (f proto t : ℕ) (side : FlowSide) (parity : GcParity)
    → row_flags f (flow_step_flags exists f proto t side parity)
      ≡ (if refuses exists proto t then f else stamp_parity proto parity (tcp_step proto t side f))
unfolding flow_step_flags
row_flags-flow_step_flags exists f proto t side parity = ground arith

pub marks-life :
    (f proto t : ℕ) (side : FlowSide) (parity : GcParity)
    → marks (stamp_parity proto parity (tcp_step proto t side f))
      ≡ life proto (seen t side) parity (marks f)
marks-life f proto t side parity =
    marks-stamp_parity proto parity (tcp_step proto t side f)
    ∙ ap (stamped proto parity) (marks-tcp_step proto t side f)

skip_exactly :
    (exists : Bool) (f proto t : ℕ) (side : FlowSide) (parity : GcParity)
    → (flow_step_flags exists f proto t side parity ≡ skip) ↔ (refuses exists proto t ≡ true)
unfolding flow_step_flags
skip_exactly exists f proto t side parity = (ground arith, ground arith)

-- Every packet, on every branch, takes the row's flags to the lifecycle's next state, and an RST
-- without a row is skipped.
pub flow_step_flags-refines :
    (exists : Bool) (f proto t : ℕ) (side : FlowSide) (parity : GcParity)
    → (marks (row_flags f (flow_step_flags exists f proto t side parity))
        ≡ (if refuses exists proto t then marks f else life proto (seen t side) parity (marks f)))
      × ((flow_step_flags exists f proto t side parity ≡ skip) ↔ (refuses exists proto t ≡ true))
flow_step_flags-refines exists f proto t side parity = (
  rw row_flags-flow_step_flags (rest (Bool-cases (refuses exists proto t))),
  skip_exactly exists f proto t side parity,
)
  where
    rest :
        (refuses exists proto t ≡ true) ⊎ (refuses exists proto t ≡ false)
        → marks (
            if refuses exists proto t
            then f
            else stamp_parity proto parity (tcp_step proto t side f))
          ≡ (if refuses exists proto t then marks f else life proto (seen t side) parity (marks f))
    rest (inl r) = rw r
    rest (inr r) = rw r (marks-life f proto t side parity)
