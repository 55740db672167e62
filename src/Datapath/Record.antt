-- ===== src/Datapath/Record.antt =====
-- What the forward leg records on the backend's node (ebpf/src/main.rs): the port that the pod sees, its
-- memo, and the reverse row. The same in both families.
use beep.Common.{ℕ, Bool, Option, none, some, List, if◌then◌else◌}
use beep.Flow.{FlowStep, keep, write, skip, client, flow_step_flags}
use beep.Maps.{RevFlowValue}
use beep.Wire.{encode_flow_key, FlowDirection, reverse, port_memo, u16_bytes}
use beep.Remap.{
  Occupant, reverse_occupant, occupant_conflicts, BackendPortDecision, no_remap, remap, exhausted,
  resolve_backend_src_port,
}
use beep.Table.{Table, flow_at, reverse_value, port_memo_value}
use beep.Reverse.{own_row, is_some, flags_or_zero, holds}
use beep.Admission.{BackendPortResolution, memoized, probe_port, backend_port_resolution}
use beep.Datapath.{shot, Kernel, Hook, ◌>>=◌, ◌>>◌, pure, return, or_none, node_of}
use beep.Datapath.Maps.{
  gc_parity, flow_table_insert, read_reverse, flow_table_get_reverse, flow_table_get_port_memo,
}
use beep.Datapath.Packet.{tcp_flags_direct, write_at}

-- A packet from a client to a front, bound for a pod.
pub record PodFlow : Type 0 where
  pub client_ip : List ℕ
  pub client_port : ℕ
  pub front_ip : List ℕ
  pub front_port : ℕ
  pub pod_ip : List ℕ
  pub target_port : ℕ
  pub proto : ℕ

-- The key of the flow under a client port.
abbrev pub pod_key : PodFlow → ℕ → FlowDirection → List ℕ
pod_key flow port direction =
    encode_flow_key flow.client_ip port flow.pod_ip flow.target_port flow.proto direction

abbrev pub flow_identity : PodFlow → Occupant
flow_identity flow = record {
  front_ip = flow.front_ip;
  front_port = flow.front_port;
  client_port = flow.client_port;
}

abbrev pub rev_value : PodFlow → List ℕ → RevFlowValue
rev_value flow ingress_node_ip = record {
  ingress_node_ip = ingress_node_ip;
  front_ip = flow.front_ip;
  front_port = flow.front_port;
  original_client_port = flow.client_port;
  flags = 0;
}

-- `candidate_key`, patched with a port.
unfoldable pub candidate_key : PodFlow → ℕ → List ℕ
unfolding encode_flow_key u16_bytes
candidate_key flow port = write_at 32 (u16_bytes port) (pod_key flow 0 reverse)

abbrev pub occupant_of : Option RevFlowValue → Option Occupant
occupant_of none = none
occupant_of (some row) = reverse_occupant row

abbrev pub store_reverse : List ℕ → Option RevFlowValue → RevFlowValue → Hook (Unit {0})
store_reverse rev_key stored value =
    if holds stored value
    then pure tt
    else (flow_table_insert rev_key (reverse_value value) >>= λ a.
        if a then pure tt else or_none none)

abbrev pub commit_step :
    List ℕ → Option RevFlowValue → RevFlowValue → ℕ → FlowStep → Hook (Unit {0})
commit_step rev_key stored value mine_flags skip = pure tt
commit_step rev_key stored value mine_flags (write flags) =
    store_reverse rev_key stored (record value { flags = flags })
commit_step rev_key stored value mine_flags keep =
    store_reverse rev_key stored (record value { flags = mine_flags })

module _ (kernel : Kernel) where
  abbrev pub occupant_at : Table → List ℕ → Option Occupant
  occupant_at table key = occupant_of (read_reverse kernel (flow_at table key))

  abbrev pub is_reverse_key_taken : PodFlow → Table → ℕ → Bool
  is_reverse_key_taken flow table port =
      occupant_conflicts (occupant_at table (candidate_key flow port)) (flow_identity flow)

  -- A synthetic port is remembered under the flow's memo key.
  abbrev pub remapped : PodFlow → BackendPortDecision → Hook (List ℕ × ℕ)
  remapped flow no_remap = pure (pod_key flow flow.client_port reverse, flow.client_port)
  remapped flow (remap port) =
      flow_table_insert (pod_key flow flow.client_port port_memo) (port_memo_value port) >>= λ a.
      if a then pure (candidate_key flow port, port) else or_none none
  remapped flow exhausted = return shot

  -- The reverse key of the flow, and the port that the pod sees.
  abbrev pub backend_port : PodFlow → BackendPortResolution → Hook (List ℕ × ℕ)
  backend_port flow (memoized port) = pure (pod_key flow port reverse, port)
  backend_port flow probe_port =
      node_of (λ n.
        resolve_backend_src_port (is_reverse_key_taken flow n.table)
          (occupant_at n.table (pod_key flow flow.client_port reverse)) (flow_identity flow))
      >>= remapped flow

  unfoldable pub backend_port_of : PodFlow → Hook (List ℕ × ℕ)
  unfolding flow_table_get_port_memo flow_table_insert candidate_key
  backend_port_of flow = do
    memo ← flow_table_get_port_memo kernel (pod_key flow flow.client_port port_memo)
    backend_port flow (backend_port_resolution memo)

  unfoldable pub commit_reverse : List ℕ → RevFlowValue → ℕ → ℕ → Hook (Unit {0})
  unfolding flow_table_get_reverse gc_parity flow_table_insert
  commit_reverse rev_key value proto tcp_flags = do
    stored ← flow_table_get_reverse kernel rev_key
    parity ← gc_parity
    let mine = own_row stored value
    let mine_flags = flags_or_zero mine
    commit_step rev_key stored value mine_flags
        (flow_step_flags (is_some mine) mine_flags proto tcp_flags client parity)

  -- From the parsed flow to the port that the pod sees.
  unfoldable pub record_flow : PodFlow → List ℕ → ℕ → Hook ℕ
  unfolding backend_port_of commit_reverse tcp_flags_direct
  record_flow flow ingress_node_ip l4_off = do
    chosen ← backend_port_of flow
    tcp_flags ← tcp_flags_direct flow.proto l4_off
    commit_reverse chosen.0 (rev_value flow ingress_node_ip) flow.proto tcp_flags
    pure chosen.1
