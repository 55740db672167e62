-- ===== src/Flow.antt =====
-- The lifecycle flags of a conntrack row (common/src/lib.rs): what one packet does to them, and
-- which rows the controller's idle sweep deletes. A `u16` of flags is a number.
mod Marks
pub mod Lifecycle
pub mod Stable
pub mod Runs
pub mod Sweep
mod Tests
use beep.Common.{
  ℕ, ◌-◌, ◌≡◌, Bool, true, false, not, ◌&&◌, ◌||◌, Option, none, some, ◌==◌, if◌then◌else◌, bit_and,
  bit_or,
}

abbrev pub ipproto_tcp : ℕ
ipproto_tcp = 6

abbrev pub ipproto_udp : ℕ
ipproto_udp = 17

abbrev pub tcp_flag_fin : ℕ
tcp_flag_fin = 0x01

abbrev pub tcp_flag_syn : ℕ
tcp_flag_syn = 0x02

abbrev pub tcp_flag_rst : ℕ
tcp_flag_rst = 0x04

abbrev pub flow_flag_fin_client : ℕ
flow_flag_fin_client = 1

abbrev pub flow_flag_fin_pod : ℕ
flow_flag_fin_pod = 2

abbrev pub flow_flag_udp_parity : ℕ
flow_flag_udp_parity = 4

abbrev pub flow_flag_tcp_parity : ℕ
flow_flag_tcp_parity = 8

abbrev pub flow_flag_closed : ℕ
flow_flag_closed = 16

-- Which end of the connection sent the packet.
pub data FlowSide : Type 0 where
  client pod : FlowSide

pub record GcParity : Type 0 where
  pub udp : Bool
  pub tcp : Bool

-- `x & m != 0`
abbrev pub has_bits : ℕ → ℕ → Bool
has_bits x m = not (bit_and x m == 0)

-- `!m` of a `u16`
abbrev pub not16 : ℕ → ℕ
not16 m = 0xffff - m

-- A closed TCP row is swept with the UDP rows.
unfoldable pub sweep_class : ℕ → ℕ → ℕ
sweep_class flags proto =
    if proto == ipproto_tcp && has_bits flags flow_flag_closed then ipproto_udp else proto

unfoldable pub parity_bit : ℕ → ℕ → GcParity → Option (ℕ × Bool)
unfolding sweep_class
parity_bit proto flags parity =
    if sweep_class flags proto == ipproto_udp
    then some (flow_flag_udp_parity, parity.udp)
    else if sweep_class flags proto == ipproto_tcp
    then some (flow_flag_tcp_parity, parity.tcp)
    else none

-- `a != b` of two Booleans
abbrev pub bool_ne : Bool → Bool → Bool
bool_ne true b = not b
bool_ne false b = b

unfoldable pub parity_sweep_deletes : ℕ → ℕ → GcParity → Bool
unfolding parity_bit
parity_sweep_deletes flags proto parity = elim (parity_bit proto flags parity) [
  | some (bit, global) ↦ bool_ne (has_bits flags bit) global
  | none ↦ false
]

pub data FlowStep : Type 0 where
  keep : FlowStep
  write : ℕ → FlowStep
  skip : FlowStep

abbrev pub fin_flag : FlowSide → ℕ
fin_flag client = flow_flag_fin_client
fin_flag pod = flow_flag_fin_pod

-- The TCP part of `flow_step_flags` in its four statements: SYN, RST, FIN, and both FINs seen.
unfoldable pub on_syn : ℕ → ℕ → ℕ
on_syn tcp_flags flags =
    if has_bits tcp_flags tcp_flag_syn
    then bit_and flags
        (not16 (bit_or (bit_or flow_flag_fin_client flow_flag_fin_pod) flow_flag_closed))
    else flags

unfoldable pub on_rst : ℕ → ℕ → ℕ
on_rst tcp_flags flags =
    if has_bits tcp_flags tcp_flag_rst then bit_or flags flow_flag_closed else flags

unfoldable pub on_fin : ℕ → FlowSide → ℕ → ℕ
on_fin tcp_flags side flags =
    if has_bits tcp_flags tcp_flag_fin then bit_or flags (fin_flag side) else flags

unfoldable pub on_both : ℕ → ℕ
on_both flags =
    let both = bit_or flow_flag_fin_client flow_flag_fin_pod in
    if bit_and flags both == both then bit_or flags flow_flag_closed else flags

-- The row's parity bit is copied from the global parity.
unfoldable pub stamp_parity : ℕ → GcParity → ℕ → ℕ
unfolding parity_bit
stamp_parity proto parity flags = elim (parity_bit proto flags parity) [
  | some (bit, global) ↦ if global then bit_or flags bit else bit_and flags (not16 bit)
  | none ↦ flags
]

-- The TCP flags that follow, before the parity.
unfoldable pub tcp_step : ℕ → ℕ → FlowSide → ℕ → ℕ
unfolding on_syn on_rst on_fin on_both
tcp_step proto tcp_flags side flags =
    if proto == ipproto_tcp
    then on_both (on_fin tcp_flags side (on_rst tcp_flags (on_syn tcp_flags flags)))
    else flags

-- The early return for an RST without a row stands first: the statements before it only set `flags`.
unfoldable pub flow_step_flags : Bool → ℕ → ℕ → ℕ → FlowSide → GcParity → FlowStep
unfolding tcp_step stamp_parity
flow_step_flags exists existing_flags proto tcp_flags side parity =
    if proto == ipproto_tcp && has_bits tcp_flags tcp_flag_rst && not exists
    then skip
    else (let flags = stamp_parity proto parity (tcp_step proto tcp_flags side existing_flags) in
        if exists && existing_flags == flags then keep else write flags)

unfoldable pub flow_step : Option ℕ → ℕ → ℕ → FlowSide → GcParity → FlowStep
unfolding flow_step_flags
flow_step (some flags) proto tcp_flags side parity =
    flow_step_flags true flags proto tcp_flags side parity
flow_step none proto tcp_flags side parity = flow_step_flags false 0 proto tcp_flags side parity

-- A memo lives as long as the reverse row that it stands for.
unfoldable pub port_memo_wanted : ℕ → Option ℕ → Bool
port_memo_wanted memo_client_port none = false
port_memo_wanted memo_client_port (some port) = port == memo_client_port
