-- ===== src/Flow/Marks.antt =====
-- A word of flags read as five Booleans, and what each statement of `flow_step_flags` does to them.
use beep.Common.{
  ℕ, ◌≡◌, Bool, true, false, ◌&&◌, ◌||◌, not, ◌==◌, if◌then◌else◌, arith, bit_and, bit_or, refl,
  Bool-cases, inl, inr,
}
use beep.Common.Bits.{
  bit_at, bit_at-bit_and, bit_at-bit_or, bit_at-le-one, bit_and-pow, bit_and_three,
}
use beep.Flow.{
  has_bits, on_syn, on_rst, on_fin, on_both, FlowSide, client, pod, tcp_step, stamp_parity,
  GcParity, ipproto_tcp, ipproto_udp, tcp_flag_syn, tcp_flag_rst, tcp_flag_fin,
  flow_flag_fin_client, flow_flag_fin_pod, flow_flag_udp_parity, flow_flag_tcp_parity,
  flow_flag_closed,
}

-- Digit `i` as a test.
pub has : ℕ → ℕ → Bool
has i x = bit_at i x == 1

has-bit_and : (i x y : ℕ) → has i (bit_and x y) ≡ (has i x && has i y)
unfolding has
has-bit_and i x y = ground (arith, bit_at-bit_and i x y, bit_at-le-one i x, bit_at-le-one i y)

has-bit_or : (i x y : ℕ) → has i (bit_or x y) ≡ (has i x || has i y)
unfolding has
has-bit_or i x y = ground (arith, bit_at-bit_or i x y, bit_at-le-one i x, bit_at-le-one i y)

has-if :
    (i : ℕ) (b : Bool) (x y : ℕ) → has i (if b then x else y) ≡ (if b then has i x else has i y)
has-if i true x y = refl
has-if i false x y = refl

has_bits-one : (x : ℕ) → has_bits x 1 ≡ has 0 x
unfolding has
has_bits-one x = ground (arith, bit_and-pow 0 x)

has_bits_two : (x : ℕ) → has_bits x 2 ≡ has 1 x
unfolding has
has_bits_two x = ground (arith, bit_and-pow 1 x)

has_bits_four : (x : ℕ) → has_bits x 4 ≡ has 2 x
unfolding has
has_bits_four x = ground (arith, bit_and-pow 2 x)

has_bits_eight : (x : ℕ) → has_bits x 8 ≡ has 3 x
unfolding has
has_bits_eight x = ground (arith, bit_and-pow 3 x)

has_bits_sixteen : (x : ℕ) → has_bits x 16 ≡ has 4 x
unfolding has
has_bits_sixteen x = ground (arith, bit_and-pow 4 x)

both_fins : (x : ℕ) → (bit_and x 3 == 3) ≡ (has 0 x && has 1 x)
unfolding has
both_fins x = ground (arith, bit_and_three x, bit_at-le-one 0 x, bit_at-le-one 1 x)

ruleset digit_rules = (
  has-bit_and, has-bit_or, has-if, has_bits-one, has_bits_two, has_bits_four, has_bits_eight,
  has_bits_sixteen, both_fins,
)

abbrev pub is_client : FlowSide → Bool
is_client client = true
is_client pod = false

-- The five lifecycle flags of a row.
pub record Marks : Type 0 where
  pub fin_client : Bool
  pub fin_pod : Bool
  pub udp_parity : Bool
  pub tcp_parity : Bool
  pub closed : Bool

abbrev pub marks : ℕ → Marks
marks flags = record {
  fin_client = has_bits flags flow_flag_fin_client;
  fin_pod = has_bits flags flow_flag_fin_pod;
  udp_parity = has_bits flags flow_flag_udp_parity;
  tcp_parity = has_bits flags flow_flag_tcp_parity;
  closed = has_bits flags flow_flag_closed;
}

-- A TCP packet, as the lifecycle sees it.
pub record Seen : Type 0 where
  pub syn : Bool
  pub rst : Bool
  pub fin : Bool
  pub from_client : Bool

abbrev pub seen : ℕ → FlowSide → Seen
seen tcp_flags side = record {
  syn = has_bits tcp_flags tcp_flag_syn;
  rst = has_bits tcp_flags tcp_flag_rst;
  fin = has_bits tcp_flags tcp_flag_fin;
  from_client = is_client side;
}

-- The life of a TCP row: a SYN starts it afresh, a FIN of either side is kept, and it is closed by
-- an RST or by both FINs. The parities are left alone.
abbrev pub tcp_life : Seen → Marks → Marks
tcp_life p m =
    let fin_client = (m.fin_client && not p.syn) || (p.fin && p.from_client) in
    let fin_pod = (m.fin_pod && not p.syn) || (p.fin && not p.from_client) in
    record m {
      fin_client = fin_client;
      fin_pod = fin_pod;
      closed = (m.closed && not p.syn) || p.rst || (fin_client && fin_pod);
    }

-- The parity of the sweep that owns the row is copied from the global one.
abbrev pub stamped : ℕ → GcParity → Marks → Marks
stamped proto parity m =
    if proto == ipproto_udp || (proto == ipproto_tcp && m.closed)
    then record m { udp_parity = parity.udp }
    else if proto == ipproto_tcp
    then record m { tcp_parity = parity.tcp }
    else m

-- Rewriting by the rules leaves an equation of Booleans.
module _ (t : ℕ) (side : FlowSide) (x : ℕ) where
  marks-on_both :
      marks (on_both (on_fin t side (on_rst t (on_syn t x)))) ≡ tcp_life (seen t side) (marks x)
  unfolding on_syn on_rst on_fin on_both
  marks-on_both = simp digit_rules (unfold has in ground arith)

pub marks-tcp_step :
    (proto t : ℕ) (side : FlowSide) (x : ℕ)
    → marks (tcp_step proto t side x)
      ≡ (if proto == ipproto_tcp then tcp_life (seen t side) (marks x) else marks x)
unfolding tcp_step
marks-tcp_step proto t side x = ground (arith, marks-on_both t side x)

-- The class of the sweep and the bit that it owns, as one test.
pub stamp_parity-cases :
    (proto : ℕ) (parity : GcParity) (x : ℕ)
    → stamp_parity proto parity x ≡ (
        if proto == ipproto_udp || (proto == ipproto_tcp && has_bits x flow_flag_closed)
        then (if parity.udp then bit_or x 4 else bit_and x 65531)
        else if proto == ipproto_tcp
        then (if parity.tcp then bit_or x 8 else bit_and x 65527)
        else x)
unfolding stamp_parity
stamp_parity-cases proto parity x = elim (Bool-cases (proto == ipproto_tcp)) [
  | inl t ↦ elim (Bool-cases (has_bits x flow_flag_closed)) [
    | inl c ↦ ground arith
    | inr c ↦ ground arith
  ]
  | inr n ↦ ground arith
]

pub marks-stamp_parity :
    (proto : ℕ) (parity : GcParity) (x : ℕ)
    → marks (stamp_parity proto parity x) ≡ stamped proto parity (marks x)
marks-stamp_parity proto parity x =
    rw stamp_parity-cases (simp digit_rules (unfold has in ground arith))
