-- ===== src/Reverse.antt =====
-- The backend node's reverse row (`commit_reverse_row` of ebpf/src/main.rs): what a packet from the
-- client to the pod makes of the row under its reverse key. The kernel may refuse the insert.
pub mod Commit
mod Tests
use beep.Common.{ℕ, Bool, true, false, Option, none, some, if◌then◌else◌, is_yes, ℕ_discrete}
use beep.Flow.{FlowStep, keep, write, skip, client, GcParity, flow_step_flags}
use beep.Maps.{RevFlowValue}
use beep.Remap.{occupant_conflicts, identity_of}

unfoldable pub RevFlowValue-discrete : Discrete RevFlowValue
RevFlowValue-discrete = hlevel ℕ_discrete

-- `stored.filter(..)`: the row, if it is of the same connection.
abbrev pub own_row : Option RevFlowValue → RevFlowValue → Option RevFlowValue
own_row none value = none
own_row (some row) value =
    if occupant_conflicts (some (identity_of row)) (identity_of value) then none else some row

abbrev pub is_some {ℓ} : {A : Type ℓ} → Option A → Bool
is_some none = false
is_some (some a) = true

abbrev pub flags_or_zero : Option RevFlowValue → ℕ
flags_or_zero none = 0
flags_or_zero (some row) = row.flags

-- `stored != Some(rev_value)`
abbrev pub holds : Option RevFlowValue → RevFlowValue → Bool
holds none value = false
holds (some row) value = is_yes (RevFlowValue-discrete row value)

-- The row that stands there afterwards, and whether the packet goes on.
abbrev pub store_row : Bool → Option RevFlowValue → RevFlowValue → Option RevFlowValue × Bool
store_row accepts stored value =
    if holds stored value
    then (stored, true)
    else if accepts
    then (some value, true)
    else (stored, false)

abbrev pub after_step :
    Bool → Option RevFlowValue → RevFlowValue → ℕ → FlowStep → Option RevFlowValue × Bool
after_step accepts stored value mine_flags skip = (stored, true)
after_step accepts stored value mine_flags (write flags) =
    store_row accepts stored (record value { flags = flags })
after_step accepts stored value mine_flags keep =
    store_row accepts stored (record value { flags = mine_flags })

unfoldable pub commit_reverse_row :
    Bool → Option RevFlowValue → RevFlowValue → ℕ → ℕ → GcParity → Option RevFlowValue × Bool
commit_reverse_row accepts stored value proto tcp_flags parity =
    let mine = own_row stored value in
    let mine_flags = flags_or_zero mine in
    after_step accepts stored value mine_flags
      (flow_step_flags (is_some mine) mine_flags proto tcp_flags client parity)
