-- ===== src/Table.antt =====
-- The flow table as the controller sweeps it (src/lib.rs): which rows an idle pass deletes, and the
-- check of each row again just before its delete.
pub mod Lookup
pub mod Idle
pub mod Evict
pub mod Departed
mod Tests
use beep.Common.{
  ℕ, ◌≡◌, Bool, true, false, not, ◌&&◌, ◌||◌, Option, none, some, List, [], ◌∷◌, ◌++◌, ◌==◌,
  if◌then◌else◌, is_yes, get_or, take,
}
use beep.Common.Assoc.{lookup, insert}
use beep.Flow.{GcParity, port_memo_wanted}
use beep.Flow.Sweep.{row_swept}
use beep.Wire.{
  FlowDirection, forward, reverse, port_memo, flow_key_direction, decode_tcp_flow_key,
  encode_flow_key,
}
use beep.Maps.{ForwardFlowValue, RevFlowValue, Bytes-discrete}

-- The arm that was written, of the union `FlowValue`.
pub data FlowValue : Type 0 where
  forward_value : ForwardFlowValue → FlowValue
  reverse_value : RevFlowValue → FlowValue
  port_memo_value : ℕ → FlowValue

-- `FlowValue::flags`: both rows have them in the same place, and a memo is written over zeros.
abbrev pub flags_of : FlowValue → ℕ
flags_of (forward_value v) = v.flags
flags_of (reverse_value v) = v.flags
flags_of (port_memo_value port) = 0

-- A key is 38 bytes.
abbrev pub Table : Type 0
Table = List (List ℕ × FlowValue)

abbrev pub flow_at : Table → List ℕ → Option FlowValue
flow_at table key = lookup Bytes-discrete key table

abbrev pub proto_of : List ℕ → ℕ
proto_of key = get_or key 36 0

abbrev pub is_row : Option FlowDirection → Bool
is_row none = false
is_row (some forward) = true
is_row (some reverse) = true
is_row (some port_memo) = false

abbrev pub is_reverse : Option FlowDirection → Bool
is_reverse none = false
is_reverse (some forward) = false
is_reverse (some reverse) = true
is_reverse (some port_memo) = false

abbrev pub is_memo : Option FlowDirection → Bool
is_memo none = false
is_memo (some forward) = false
is_memo (some reverse) = false
is_memo (some port_memo) = true

abbrev pub swept : List ℕ → FlowValue → ℕ → GcParity → Bool
swept key value class parity = row_swept (proto_of key) (flags_of value) class parity

-- What an unchecked read of another arm gives: bytes that the program does not rely on.
module _ (misread_port : FlowDirection → FlowValue → ℕ) where
  -- `as_reverse().original_client_port` and `as_port_memo().backend_src_port`
  abbrev pub original_client_port : FlowValue → ℕ
  original_client_port (reverse_value v) = v.original_client_port
  original_client_port (forward_value v) = misread_port reverse (forward_value v)
  original_client_port (port_memo_value port) = misread_port reverse (port_memo_value port)

  abbrev pub backend_src_port : FlowValue → ℕ
  backend_src_port (port_memo_value port) = port
  backend_src_port (forward_value v) = misread_port port_memo (forward_value v)
  backend_src_port (reverse_value v) = misread_port port_memo (reverse_value v)

  unfoldable pub memo_reverse_key : List ℕ → FlowValue → ℕ → ℕ × List ℕ
  memo_reverse_key key value proto =
      let (client_ip, client_port, pod_ip, target_port, _) = decode_tcp_flow_key (take 37 key) in
      (
        client_port,
        encode_flow_key client_ip (backend_src_port value) pod_ip target_port proto reverse,
      )

  -- The first loop of `idle_flow_keys`: the rows that it dooms, and the reverse rows that survive.
  unfoldable pub doomed_rows : ℕ → GcParity → Table → List (List ℕ)
  doomed_rows class parity [] = []
  doomed_rows class parity ((key, value) ∷ rows) =
      let rest = doomed_rows class parity rows in
      if is_row (flow_key_direction key) && swept key value class parity then key ∷ rest else rest

  unfoldable pub surviving_reverse : ℕ → GcParity → List (List ℕ × ℕ) → Table → List (List ℕ × ℕ)
  surviving_reverse class parity found [] = found
  surviving_reverse class parity found ((key, value) ∷ rows) =
      surviving_reverse class parity
        (if is_reverse (flow_key_direction key) && not (swept key value class parity)
          then insert Bytes-discrete key (original_client_port value) found
          else found)
        rows

  -- The second loop.
  unfoldable pub memo_doomed : List (List ℕ × ℕ) → List ℕ → FlowValue → Bool
  memo_doomed surviving key value =
      let (client_port, reverse_key) = memo_reverse_key key value (proto_of key) in
      not (port_memo_wanted client_port (lookup Bytes-discrete reverse_key surviving))

  unfoldable pub doomed_memos : List (List ℕ × ℕ) → Table → List (List ℕ)
  doomed_memos surviving [] = []
  doomed_memos surviving ((key, value) ∷ rows) =
      let rest = doomed_memos surviving rows in
      if is_memo (flow_key_direction key) && memo_doomed surviving key value
      then key ∷ rest
      else rest

  unfoldable pub idle_flow_keys : Table → ℕ → GcParity → List (List ℕ)
  unfolding doomed_rows doomed_memos
  idle_flow_keys rows class parity =
      doomed_rows class parity rows ++ doomed_memos (surviving_reverse class parity [] rows) rows

  -- `fresh(&reverse_key).filter(..).map(..)`
  abbrev pub fresh_port : List ℕ → ℕ → GcParity → Option FlowValue → Option ℕ
  fresh_port key class parity none = none
  fresh_port key class parity (some row) =
      if swept key row class parity then none else some (original_client_port row)

  abbrev pub role_idle :
      Option FlowDirection → List ℕ → FlowValue → ℕ → GcParity → (List ℕ → Option FlowValue) → Bool
  role_idle none key value class parity fresh = false
  role_idle (some forward) key value class parity fresh = swept key value class parity
  role_idle (some reverse) key value class parity fresh = swept key value class parity
  role_idle (some port_memo) key value class parity fresh =
      let (client_port, reverse_key) = memo_reverse_key key value (proto_of key) in
      not (port_memo_wanted client_port (fresh_port reverse_key class parity (fresh reverse_key)))

  -- `let Some(value) = fresh(key) else { return false }`
  abbrev pub idle_row :
      List ℕ → ℕ → GcParity → (List ℕ → Option FlowValue) → Option FlowValue → Bool
  idle_row key class parity fresh none = false
  idle_row key class parity fresh (some value) =
      role_idle (flow_key_direction key) key value class parity fresh

  unfoldable pub still_idle : List ℕ → ℕ → GcParity → (List ℕ → Option FlowValue) → Bool
  still_idle key class parity fresh = idle_row key class parity fresh (fresh key)
