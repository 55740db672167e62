-- ===== src/Flow/Tests.antt =====
-- The lifecycle theorems at concrete rows and packets.
use beep.Common.{◌≡◌, true, false, ◌↔◌, List, [], ◌∷◌, arith, refl, inl, none, some, if◌then◌else◌}
use beep.Flow.{GcParity, client, pod, sweep_class, skip, flow_step_flags, ipproto_tcp}
use beep.Flow.Marks.{marks, seen}
use beep.Flow.Lifecycle.{row_flags, life, refuses, flow_step_flags-refines}
use beep.Flow.Runs.{Packet, run, run_closed}
use beep.Flow.Sweep.{sweep_passes, udp_class, tcp_class, sweep_exact, sweep_reclaims}

abbrev parity : GcParity
parity = record { udp = true; tcp = false }

-- The pod's FIN on a row that has the client's.
flow_step_flags-refines_example :
    (marks (row_flags 1 (flow_step_flags true 1 ipproto_tcp 1 pod parity)) ≡ (
      if refuses true ipproto_tcp 1
      then marks 1
      else life ipproto_tcp (seen 1 pod) parity (marks 1)))
    × ((flow_step_flags true 1 ipproto_tcp 1 pod parity ≡ skip)
        ↔ (refuses true ipproto_tcp 1 ≡ true))
flow_step_flags-refines_example = flow_step_flags-refines true 1 ipproto_tcp 1 pod parity

abbrev fins : List Packet
fins =
    record { tcp_flags = 0x11; side = client; parity = parity }
    ∷ record { tcp_flags = 0x10; side = client; parity = parity }
    ∷ record { tcp_flags = 0x11; side = pod; parity = parity }
    ∷ []

run_closed_example : (marks (run 0 fins)).closed ≡ true
run_closed_example = run_closed 0 fins refl (λ e. absurd (cc e))

sweep_exact_example :
    (sweep_passes ipproto_tcp (tcp_class ∷ udp_class ∷ tcp_class ∷ []) (record {
      row = some (row_flags 0 (flow_step_flags false 0 ipproto_tcp 2 client parity));
      parity = parity;
    })).row
    ≡ none
unfolding sweep_class flow_step_flags
sweep_exact_example =
    sweep_exact false 0 ipproto_tcp 2 client parity (tcp_class ∷ udp_class ∷ tcp_class ∷ [])
      (inl refl) refl

sweep_reclaims_example :
    (sweep_passes ipproto_tcp
      (udp_class ∷ tcp_class ∷ udp_class ∷ [])
      (record { row = some 16; parity = parity })).row
    ≡ none
unfolding sweep_class
sweep_reclaims_example =
    sweep_reclaims ipproto_tcp 16 (udp_class ∷ tcp_class ∷ udp_class ∷ []) parity (inl refl)
      (omega arith)
