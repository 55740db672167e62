-- ===== src/Reverse/Tests.antt =====
-- A packet of one connection on the live row of another.
use beep.Common.{ℕ, ◌≡◌, some, true, false, List, [], ◌∷◌, arith}
use beep.Flow.{GcParity, client, ipproto_tcp, flow_step_flags}
use beep.Flow.Lifecycle.{row_flags, refuses}
use beep.Maps.{RevFlowValue}
use beep.Reverse.{commit_reverse_row}
use beep.Reverse.Commit.{IsOwn, foreign, commit_reverse_row_lem}

abbrev node_ip : List ℕ
node_ip = 0 ∷ 0 ∷ 0 ∷ 0 ∷ 0 ∷ 0 ∷ 0 ∷ 0 ∷ 0 ∷ 0 ∷ 255 ∷ 255 ∷ 10 ∷ 0 ∷ 0 ∷ 9 ∷ []

abbrev row_of : ℕ → RevFlowValue
row_of front_port = record {
  ingress_node_ip = node_ip;
  front_ip = node_ip;
  front_port = front_port;
  original_client_port = 40000;
  flags = 0;
}

abbrev parity : GcParity
parity = record { udp = false; tcp = true }

rows_differ : IsOwn (row_of 80) (row_of 443) → ⊥
rows_differ h = absurd (omega (arith, h.front_port_eq))

commit_reverse_row_lem_example :
    let result = commit_reverse_row true (some (row_of 80)) (row_of 443) ipproto_tcp 0x10 parity in
    let left = row_flags 0 (flow_step_flags false 0 ipproto_tcp 0x10 client parity) in
    (refuses false ipproto_tcp 0x10 ≡ true → result ≡ (some (row_of 80), true))
    × (refuses false ipproto_tcp 0x10 ≡ false
        → true ≡ true
        → result ≡ (some (record (row_of 443) { flags = left }), true))
    × (result.1 ≡ false → result.0 ≡ some (row_of 80))
commit_reverse_row_lem_example =
    commit_reverse_row_lem true (some (row_of 80)) (row_of 443) ipproto_tcp 0x10 parity false 0
      (foreign (row_of 80) rows_differ)
