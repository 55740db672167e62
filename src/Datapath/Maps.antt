-- ===== src/Datapath/Maps.antt =====
-- The accessors of the maps (ebpf/src/main.rs), and the refresh of a row that a packet matched.
use beep.Common.{
  ℕ, ◌+◌, ◌%◌, Bool, true, false, not, Option, none, some, List, [], ◌∷◌, ◌==◌, if◌then◌else◌,
}
use beep.Common.Assoc.{insert, lookup, remove}
use beep.Flow.{GcParity, FlowSide, pod, FlowStep, keep, write, skip, flow_step}
use beep.Maps.{ForwardFlowValue, RevFlowValue, Bytes-discrete}
use beep.Table.{FlowValue, forward_value, reverse_value, port_memo_value, flow_at}
use beep.Table.Lookup.{has_key}
use beep.Table.Evict.{Pending, as_forward}
use beep.Datapath.{Config, Node, Kernel, Hook, ◌>>=◌, ◌>>◌, pure, node_of, change_node, accepted}

-- `c.udp_parity != 0`
abbrev pub parity_of : Option Config → GcParity
parity_of none = record { udp = false; tcp = false }
parity_of (some c) = record { udp = not (c.udp_parity == 0); tcp = not (c.tcp_parity == 0) }

unfoldable pub gc_parity : Hook GcParity
gc_parity = node_of (λ n. parity_of n.config)

abbrev pub is_node_allowed : List ℕ → Node → Bool
is_node_allowed addr n = has_key addr n.node_allow

abbrev pub is_pod_target : List ℕ → Node → Bool
is_pod_target addr n = has_key addr n.pod_targets

-- The rows that are left when the kernel has evicted those of some keys.
abbrev pub left_by {ℓ} : {V : Type ℓ} → List (List ℕ) → List (List ℕ × V) → List (List ℕ × V)
left_by [] rows = rows
left_by (key ∷ keys) rows = left_by keys (remove Bytes-discrete key rows)

-- The keys that go with the next insert, and with those behind it.
abbrev pub evicted_now : List (List (List ℕ)) → List (List ℕ)
evicted_now [] = []
evicted_now (keys ∷ later) = keys

abbrev pub evicted_later : List (List (List ℕ)) → List (List (List ℕ))
evicted_later [] = []
evicted_later (keys ∷ later) = later

-- The kernel makes room before it writes the row, so the row itself is there afterwards.
abbrev pub insert_flow : List ℕ → FlowValue → Node → Node
insert_flow key value n = record n {
  table = insert Bytes-discrete key value (left_by (evicted_now n.evictions) n.table);
  evictions = evicted_later n.evictions;
}

unfoldable pub flow_table_insert : List ℕ → FlowValue → Hook Bool
flow_table_insert key value =
    accepted >>= λ a. if a then change_node (insert_flow key value) >> pure true else pure false

abbrev pub pending_at : Pending → List ℕ → Option ForwardFlowValue
pending_at rows key = lookup Bytes-discrete key rows

unfoldable pub fwd_pending_get : List ℕ → Hook (Option ForwardFlowValue)
fwd_pending_get key = node_of (λ n. pending_at n.pending key)

abbrev pub insert_pending : List ℕ → ForwardFlowValue → Node → Node
insert_pending key value n = record n {
  pending = insert Bytes-discrete key value (left_by (evicted_now n.pending_evictions) n.pending);
  pending_evictions = evicted_later n.pending_evictions;
}

unfoldable pub fwd_pending_insert : List ℕ → ForwardFlowValue → Hook Bool
fwd_pending_insert key value =
    accepted >>= λ a. if a then change_node (insert_pending key value) >> pure true else pure false

-- `*misses += 1` of a `u64`
unfoldable pub count_front_miss : Hook (Unit {0})
count_front_miss = change_node (λ n. record n { misses = (n.misses + 1) % 18446744073709551616 })

module _ (kernel : Kernel) where
  abbrev pub read_forward : Option FlowValue → Option ForwardFlowValue
  read_forward none = none
  read_forward (some value) = some (as_forward kernel.misread_forward value)

  abbrev pub as_reverse : FlowValue → RevFlowValue
  as_reverse (reverse_value v) = v
  as_reverse (forward_value v) = kernel.misread_reverse (forward_value v)
  as_reverse (port_memo_value p) = kernel.misread_reverse (port_memo_value p)

  abbrev pub read_reverse : Option FlowValue → Option RevFlowValue
  read_reverse none = none
  read_reverse (some value) = some (as_reverse value)

  abbrev pub as_port_memo : FlowValue → ℕ
  as_port_memo (port_memo_value p) = p
  as_port_memo (forward_value v) = kernel.misread_port_memo (forward_value v)
  as_port_memo (reverse_value v) = kernel.misread_port_memo (reverse_value v)

  abbrev pub read_port_memo : Option FlowValue → Option ℕ
  read_port_memo none = none
  read_port_memo (some value) = some (as_port_memo value)

  unfoldable pub flow_table_get_forward : List ℕ → Hook (Option ForwardFlowValue)
  flow_table_get_forward key = node_of (λ n. read_forward (flow_at n.table key))

  unfoldable pub flow_table_get_reverse : List ℕ → Hook (Option RevFlowValue)
  flow_table_get_reverse key = node_of (λ n. read_reverse (flow_at n.table key))

  unfoldable pub flow_table_get_port_memo : List ℕ → Hook (Option ℕ)
  flow_table_get_port_memo key = node_of (λ n. read_port_memo (flow_at n.table key))

-- The insert's failure is ignored.
unfoldable pub write_forward : List ℕ → ForwardFlowValue → FlowStep → Hook (Unit {0})
unfolding flow_table_insert
write_forward key value keep = pure tt
write_forward key value skip = pure tt
write_forward key value (write flags) =
    flow_table_insert key (forward_value (record value { flags = flags })) >>= λ _. pure tt

unfoldable pub touch_forward_row : List ℕ → ForwardFlowValue → ℕ → ℕ → FlowSide → Hook (Unit {0})
unfolding gc_parity write_forward
touch_forward_row key value proto tcp_flags side = gc_parity >>= λ parity.
    write_forward key value (flow_step (some value.flags) proto tcp_flags side parity)

unfoldable pub write_reverse : List ℕ → RevFlowValue → FlowStep → Hook (Unit {0})
unfolding flow_table_insert
write_reverse key rev keep = pure tt
write_reverse key rev skip = pure tt
write_reverse key rev (write flags) =
    flow_table_insert key (reverse_value (record rev { flags = flags })) >>= λ _. pure tt

unfoldable pub touch_return_row : List ℕ → RevFlowValue → ℕ → ℕ → Hook (Unit {0})
unfolding gc_parity write_reverse
touch_return_row key rev proto tcp_flags = gc_parity >>= λ parity.
    write_reverse key rev (flow_step (some rev.flags) proto tcp_flags pod parity)
