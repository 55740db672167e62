-- ===== src/Table/Tests.antt =====
-- A table with a reverse row, its memo, and a forward row.
use beep.Common.{ℕ, ◌≡◌, refl, true, false, List, [], ◌∷◌, ◌++◌, ℕ_discrete}
use beep.Common.Assoc.{lookup}
use beep.Flow.{GcParity}
use beep.Wire.{FlowDirection, flow_key_direction}
use beep.Maps.{ForwardFlowValue, Bytes-discrete}
use beep.Table.{
  FlowValue, forward_value, reverse_value, port_memo_value, Table, flow_at, idle_flow_keys,
  still_idle,
}
use beep.Table.Lookup.{has_key, IsSnapshot, at_row}
use beep.Table.Idle.{still_idle-idle_flow_keys}
use beep.Table.Evict.{Pending, evict_pod_flows, role_names}
use beep.Table.Departed.{Evicts, evict_pod_flows_lem}

abbrev client_ip : List ℕ
client_ip = 32 ∷ 1 ∷ 13 ∷ 184 ∷ 0 ∷ 0 ∷ 0 ∷ 0 ∷ 0 ∷ 0 ∷ 0 ∷ 0 ∷ 0 ∷ 0 ∷ 0 ∷ 1 ∷ []

abbrev pod_ip : List ℕ
pod_ip = 0 ∷ 0 ∷ 0 ∷ 0 ∷ 0 ∷ 0 ∷ 0 ∷ 0 ∷ 0 ∷ 0 ∷ 255 ∷ 255 ∷ 10 ∷ 0 ∷ 0 ∷ 9 ∷ []

abbrev key_with : ℕ → ℕ → List ℕ
key_with port tag = client_ip ++ (pod_ip ++ (64 ∷ port ∷ 187 ∷ 1 ∷ 6 ∷ tag ∷ []))

abbrev pin : ForwardFlowValue
pin = record {
  backend = record { backend_node_ip = client_ip; pod_ip = pod_ip };
  ingress_ifindex = 2;
  target_port = 443;
  flags = 0;
}

abbrev table : Table
table =
    (
      key_with 200 1,
      reverse_value (record {
        ingress_node_ip = client_ip;
        front_ip = client_ip;
        front_port = 443;
        original_client_port = 40000;
        flags = 8;
      }),
    )
    ∷ (key_with 156 2, port_memo_value 51264)
    ∷ (key_with 156 0, forward_value pin)
    ∷ []

abbrev parity : GcParity
parity = record { udp = false; tcp = true }

table-IsSnapshot : IsSnapshot table
unfolding lookup Bytes-discrete ℕ_discrete
table-IsSnapshot = (refl, (refl, (refl, tt)))

abbrev misread_port : FlowDirection → FlowValue → ℕ
misread_port direction value = 0

still_idle-idle_flow_keys_example :
    still_idle misread_port (key_with 156 2) 6 parity (flow_at table)
    ≡ has_key (key_with 156 2) (idle_flow_keys misread_port table 6 parity)
still_idle-idle_flow_keys_example =
    still_idle-idle_flow_keys misread_port table 6 parity (key_with 156 2) table-IsSnapshot refl

abbrev pending : Pending
pending = (key_with 157 0, pin) ∷ []

pending-IsSnapshot : IsSnapshot pending
unfolding lookup
pending-IsSnapshot = (refl, tt)

abbrev misread_forward : FlowValue → ForwardFlowValue
misread_forward value = pin

evict_pod_flows_lem_example :
    let result = evict_pod_flows misread_forward pending table (pod_ip ∷ []) (false ∷ true ∷ []) in
    Evicts
      (at_row
        (λ v. has_key v.backend.pod_ip (pod_ip ∷ []))
        (lookup Bytes-discrete (key_with 156 0) pending))
      (lookup Bytes-discrete (key_with 156 0) pending)
      (lookup Bytes-discrete (key_with 156 0) result.pending)
      result.failed
    × Evicts
        (at_row
          (role_names misread_forward
            (flow_key_direction (key_with 156 0))
            (pod_ip ∷ [])
            (key_with 156 0))
          (flow_at table (key_with 156 0)))
        (flow_at table (key_with 156 0))
        (flow_at result.table (key_with 156 0))
        result.failed
evict_pod_flows_lem_example =
    evict_pod_flows_lem misread_forward (pod_ip ∷ []) pending table (false ∷ true ∷ [])
      (key_with 156 0) pending-IsSnapshot table-IsSnapshot
