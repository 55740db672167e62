-- ===== src/Flow/Runs.antt =====
-- Runs of packets on one TCP row (`flow_step_flags` of common/src/lib.rs).
use beep.Common.{ℕ, ◌≡◌, Bool, true, false, not, ◌&&◌, ◌||◌, List, [], ◌∷◌, arith, ◌∙◌, ap}
use beep.Flow.{FlowSide, GcParity, flow_step_flags, ipproto_tcp}
use beep.Flow.Marks.{Marks, marks, Seen, seen}
use beep.Flow.Lifecycle.{row_flags, life, flow_step_flags-refines}

-- A packet of the connection: its TCP flags byte, its side, and the parity that it meets.
pub record Packet : Type 0 where
  pub tcp_flags : ℕ
  pub side : FlowSide
  pub parity : GcParity

abbrev pub step : ℕ → Packet → ℕ
step f p = row_flags f (flow_step_flags true f ipproto_tcp p.tcp_flags p.side p.parity)

-- The flags of a row after the packets, the first packet first.
unfoldable pub run : ℕ → List Packet → ℕ
run f [] = f
run f (p ∷ ps) = run (step f p) ps

abbrev pub any : (Seen → Bool) → List Packet → Bool
any q [] = false
any q (p ∷ ps) = q (seen p.tcp_flags p.side) || any q ps

abbrev pub client_fin : Seen → Bool
client_fin p = p.fin && p.from_client

abbrev pub pod_fin : Seen → Bool
pod_fin p = p.fin && not p.from_client

abbrev pub rst : Seen → Bool
rst p = p.rst

abbrev pub syn : Seen → Bool
syn p = p.syn

abbrev lived : Marks → List Packet → Marks
lived m [] = m
lived m (p ∷ ps) = lived (life ipproto_tcp (seen p.tcp_flags p.side) p.parity m) ps

marks-step :
    (f : ℕ) (p : Packet)
    → marks (step f p) ≡ life ipproto_tcp (seen p.tcp_flags p.side) p.parity (marks f)
marks-step f p =
    (flow_step_flags-refines true f ipproto_tcp p.tcp_flags p.side p.parity).0 ∙ ground arith

marks-run : (f : ℕ) (ps : List Packet) → marks (run f ps) ≡ lived (marks f) ps
unfolding run
marks-run f [] = ground arith
marks-run f (p ∷ ps) = marks-run (step f p) ps ∙ ap (λ (m : Marks). lived m ps) (marks-step f p)

lived_closed :
    (m : Marks) (ps : List Packet)
    → any syn ps ≡ false
    → (m.fin_client && m.fin_pod ≡ true → m.closed ≡ true)
    → (lived m ps).closed ≡ (
        m.closed
        || any rst ps
        || ((m.fin_client || any client_fin ps) && (m.fin_pod || any pod_fin ps)))
lived_closed m [] h k = ground arith
lived_closed m (p ∷ ps) h k =
    ground (arith, lived_closed (life ipproto_tcp (seen p.tcp_flags p.side) p.parity m) ps)

-- Over any packets without a SYN, from a row that is closed if it has both FINs, the row is closed
-- exactly when it was, or an RST came, or each side has sent a FIN by then.
pub run_closed :
    (f : ℕ) (ps : List Packet)
    → any syn ps ≡ false
    → ((marks f).fin_client && (marks f).fin_pod ≡ true → (marks f).closed ≡ true)
    → (marks (run f ps)).closed ≡ (
        (marks f).closed
        || any rst ps
        || (((marks f).fin_client || any client_fin ps) && ((marks f).fin_pod || any pod_fin ps)))
run_closed f ps h k = ap (λ (m : Marks). m.closed) (marks-run f ps) ∙ lived_closed (marks f) ps h k
