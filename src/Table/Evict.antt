-- ===== src/Table/Evict.antt =====
-- The eviction of departed pods (`evict_pod_flows` of src/lib.rs): which rows of the pending table and
-- of the flow table name a departed pod, and the deletes, any of which the kernel may refuse.
use beep.Common.{
  ℕ, suc, Bool, true, false, Option, none, some, List, [], ◌∷◌, ◌++◌, if◌then◌else◌, ◌+◌, take,
}
use beep.Common.Assoc.{remove}
use beep.Wire.{FlowDirection, forward, reverse, port_memo, flow_key_direction, decode_tcp_flow_key}
use beep.Maps.{ForwardFlowValue, Bytes-discrete}
use beep.Table.{FlowValue, forward_value, reverse_value, port_memo_value, Table}
use beep.Table.Lookup.{has_key}

abbrev pub Pending : Type 0
Pending = List (List ℕ × ForwardFlowValue)

unfoldable pub stale_forward_entries : Pending → List (List ℕ) → List (List ℕ)
stale_forward_entries [] departed = []
stale_forward_entries ((key, value) ∷ rows) departed =
    let rest = stale_forward_entries rows departed in
    if has_key value.backend.pod_ip departed then key ∷ rest else rest

-- `other_ip` of the key
abbrev pub pod_of : List ℕ → List ℕ
pod_of key = (decode_tcp_flow_key (take 37 key)).2

unfoldable pub stale_flow_table_keys : List (List ℕ) → List (List ℕ) → List (List ℕ)
stale_flow_table_keys [] departed = []
stale_flow_table_keys (key ∷ keys) departed =
    let rest = stale_flow_table_keys keys departed in
    if has_key (pod_of key) departed then key ∷ rest else rest

-- The deletes of a list of keys: the outcomes say of each whether the kernel refuses it, and none is
-- refused behind their end. What is left, the outcomes to come, and the number of failures.
unfoldable pub delete_flows :
    {V : Type 0} → List (List ℕ) → List Bool → List (List ℕ × V) → List (List ℕ × V) × List Bool × ℕ
delete_flows [] refused table = (table, refused, 0)
delete_flows (key ∷ keys) [] table = delete_flows keys [] (remove Bytes-discrete key table)
delete_flows (key ∷ keys) (false ∷ refused) table =
    delete_flows keys refused (remove Bytes-discrete key table)
delete_flows (key ∷ keys) (true ∷ refused) table =
    let (left, later, failed) = delete_flows keys refused table in (left, later, suc failed)

abbrev pub no_keys : List (List ℕ) → Bool
no_keys [] = true
no_keys (key ∷ keys) = false

pub record Evicted : Type 0 where
  pub pending : Pending
  pub table : Table
  pub failed : ℕ

module _ (misread_forward : FlowValue → ForwardFlowValue) where
  abbrev pub as_forward : FlowValue → ForwardFlowValue
  as_forward (forward_value v) = v
  as_forward (reverse_value v) = misread_forward (reverse_value v)
  as_forward (port_memo_value port) = misread_forward (port_memo_value port)

  -- The rows of the walk by their role.
  unfoldable pub forward_entries : Table → Pending
  forward_entries [] = []
  forward_entries ((key, value) ∷ rows) =
      let rest = forward_entries rows in
      elim (flow_key_direction key) [ some forward ↦ (key, as_forward value) ∷ rest | _ ↦ rest ]

  unfoldable pub reverse_and_port_memo_keys : Table → List (List ℕ)
  reverse_and_port_memo_keys [] = []
  reverse_and_port_memo_keys ((key, value) ∷ rows) =
      let rest = reverse_and_port_memo_keys rows in
      elim (flow_key_direction key) [
        | some forward ↦ rest
        | some reverse ↦ key ∷ rest
        | some port_memo ↦ key ∷ rest
        | none ↦ rest
      ]

  unfoldable pub stale_flow_table : Table → List (List ℕ) → List (List ℕ)
  unfolding forward_entries reverse_and_port_memo_keys
  stale_flow_table table departed =
      stale_forward_entries (forward_entries table) departed
      ++ stale_flow_table_keys (reverse_and_port_memo_keys table) departed

  unfoldable pub evict_pod_flows : Pending → Table → List (List ℕ) → List Bool → Evicted
  unfolding stale_flow_table delete_flows
  evict_pod_flows pending table departed refused =
      if no_keys departed
      then record { pending = pending; table = table; failed = 0 }
      else (let (left_pending, later, failed_pending) =
            delete_flows (stale_forward_entries pending departed) refused pending in
          let (left, _, failed) = delete_flows (stale_flow_table table departed) later table in
          record { pending = left_pending; table = left; failed = failed_pending + failed })

  -- A row names a departed pod: the pin's backend, or the pod of the key.
  abbrev pub role_names : Option FlowDirection → List (List ℕ) → List ℕ → FlowValue → Bool
  role_names none departed key value = false
  role_names (some forward) departed key value = has_key (as_forward value).backend.pod_ip departed
  role_names (some reverse) departed key value = has_key (pod_of key) departed
  role_names (some port_memo) departed key value = has_key (pod_of key) departed
