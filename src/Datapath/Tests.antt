-- ===== src/Datapath/Tests.antt =====
-- Two nodes' worth of packets through the hooks.
use beep.Common.{
  ℕ, ◌≡◌, ◌⊎◌, refl, true, false, none, some, List, [], ◌∷◌, ◌++◌, replicate, arith, ℕ_discrete,
  ◌==◌,
}
use beep.Common.Assoc.{lookup, insert, remove}
use beep.Flow.{
  ipproto_tcp, flow_step, flow_step_flags, tcp_step, stamp_parity, parity_bit, sweep_class,
}
use beep.Maps.{
  LbFrontKey, LbFrontBackend, FrontMeta, ForwardFlowValue, RevFlowValue, Bytes-discrete,
}
use beep.Wire.{
  encode_pod_id_option, decode_pod_id_option, unmap_ipv4, encode_tcp_flow_key, encode_flow_key,
  forward, reverse, port_memo, flow_key_direction,
}
use beep.Table.{port_memo_value, flow_at}
use beep.Reverse.{is_some}
use beep.Steer.{
  ingress_steer, steer_pin, steer_slot, steer_row, select_endpoint_slot, slot_in_range,
  front_flow_hash, flow_hash, mix_words, mix32, finish_hash, flow_words, le_words,
}
use beep.Remap.{resolve_backend_src_port, occupant_conflicts}
use beep.Datapath.{
  Config, Node, TunnelKey, read_bytes, Skb, ok, shot, redirected, World, Kernel, next, done,
  world_of, verdict_of, ◌>>=◌, ◌>>◌, pure, node_of, or_return, accepted, accepted_by, change_node,
  skb_of, or_none, accepted_or, accepted_or_none, change_skb,
}
use beep.Datapath.Maps.{
  insert_flow, fwd_pending_insert, fwd_pending_get, flow_table_get_forward, flow_table_insert,
  flow_table_get_reverse, flow_table_get_port_memo, gc_parity,
}
use beep.Datapath.Evict.{will_evict}
use beep.Datapath.Tunnel.{tunnel_remote, get_tunnel_key, vni_fwd, vni_ret}
use beep.Datapath.Ingress.{ingress_backend, try_uplink_ingress}
use beep.Datapath.Backend.{to_host, try_geneve_decap_forward}
use beep.Datapath.Record.{PodFlow, pod_key, rev_value, backend_port_of, record_flow, commit_reverse}
use beep.Datapath.Packet.{
  tcp_flags_direct, load, loaded, as_u16, csum_disabled, store, l4_csum_replace, l3_csum_replace,
  rewrite_ip_port, rewrite_l4_port,
}
use beep.Datapath.Return.{front_echo, return_pin, fwd_pending_remove, geneve_ingress}
use beep.Datapath.Egress.{front_echo_option, reply_with, return_reply, try_uplink_egress_return}
use beep.Datapath.Untracked.Hooks.{uplink_hooks-SameKeys}
use beep.Datapath.Forward.Hooks.{try_geneve_decap_forward-SamePins}
use beep.Datapath.Peers.{forward_admitted, return_admitted, geneve_ingress_refused}
use beep.Datapath.Affinity.History.{answer, reply_pin, start, reply, ingress_backend_affinity}
use beep.Datapath.Affinity.Promoted.{Promoted}
use beep.Datapath.Reply.Found.{IsNoRst, reply_of, return_reply-record_flow}
use beep.Datapath.Echo.{front_echo-front_echo_option}

abbrev zero_forward : ForwardFlowValue
zero_forward = record {
  backend = record { backend_node_ip = []; pod_ip = [] };
  ingress_ifindex = 0;
  target_port = 0;
  flags = 0;
}

abbrev zero_reverse : RevFlowValue
zero_reverse = record {
  ingress_node_ip = [];
  front_ip = [];
  front_port = 0;
  original_client_port = 0;
  flags = 0;
}

-- A kernel that leaves the checksums as they are.
abbrev still_kernel : Kernel
still_kernel = record {
  misread_forward = λ v. zero_forward;
  misread_reverse = λ v. zero_reverse;
  misread_port_memo = λ v. 0;
  l3_csum_replace = λ offset from to size b. b;
  l4_csum_replace = λ offset from to size b. b;
}

-- 198.51.100.7, 203.0.113.9, 10.42.0.5 and the nodes 192.0.2.1 and 192.0.2.2, as in a packet.
abbrev client_ip : List ℕ
client_ip = replicate 10 0 ++ 255 ∷ 255 ∷ 198 ∷ 51 ∷ 100 ∷ 7 ∷ []

abbrev front_ip : List ℕ
front_ip = replicate 10 0 ++ 255 ∷ 255 ∷ 203 ∷ 0 ∷ 113 ∷ 9 ∷ []

abbrev pod_ip : List ℕ
pod_ip = replicate 10 0 ++ 255 ∷ 255 ∷ 10 ∷ 42 ∷ 0 ∷ 5 ∷ []

abbrev ingress_ip : List ℕ
ingress_ip = replicate 10 0 ++ 255 ∷ 255 ∷ 192 ∷ 0 ∷ 2 ∷ 1 ∷ []

abbrev backend_ip : List ℕ
backend_ip = replicate 10 0 ++ 255 ∷ 255 ∷ 192 ∷ 0 ∷ 2 ∷ 2 ∷ []

abbrev front : LbFrontKey
front = record { front_ip = front_ip; front_port = 80; proto = ipproto_tcp }

abbrev backend : LbFrontBackend
backend = record { backend_node_ip = backend_ip; pod_ip = pod_ip }

abbrev meta : FrontMeta
meta = record { generation = 1; count = 1; flags = 0; local_count = 0 }

abbrev config : Config
config = record { geneve_ifindex = 9; udp_parity = 0; tcp_parity = 1; flow_hash_seed = 42 }

abbrev node : Node
node = record {
  front_meta = λ f. some meta;
  front_endpoints = λ k. some (record { backend = backend; target_port = 8080; flags = 0 });
  uplinks = λ i. some 14;
  node_allow = ingress_ip ∷ backend_ip ∷ [];
  pod_targets = pod_ip ∷ [];
  config = some config;
  pending = [];
  table = [];
  misses = 0;
  evictions = [];
  pending_evictions = [];
}

-- A SYN of the client to the front, in an Ethernet frame.
abbrev syn : List ℕ
syn =
    replicate 12 0
    ++ (8 ∷ 0 ∷ 69 ∷ 0 ∷ 0 ∷ 40 ∷ 0 ∷ 0 ∷ 0 ∷ 0 ∷ 64 ∷ 6 ∷ 0 ∷ 0 ∷ 198 ∷ 51 ∷ 100 ∷ 7 ∷ 203 ∷ 0
        ∷ 113 ∷ 9 ∷ 64 ∷ 156 ∷ 80 ∷ 0 ∷ 0 ∷ 0 ∷ 0 ∷ 0 ∷ 0 ∷ 0 ∷ 0 ∷ 0 ∷ 80 ∷ 2 ∷ 0 ∷ 0 ∷ 0 ∷ 0 ∷ 0
        ∷ 0 ∷ [])

abbrev ingress_key : TunnelKey
ingress_key = record { tunnel_id = 100; tunnel_ttl = 64; remote = 16908480 ∷ 0 ∷ 0 ∷ 0 ∷ [] }

abbrev skb : Skb
skb = record {
  data_bytes = syn;
  linear = 54;
  ifindex = 2;
  ingress_ifindex = 2;
  mark = 0;
  to_host = false;
  tunnel_v4 = some ingress_key;
  tunnel_v6 = none;
  received_opt = read_bytes 24 (encode_pod_id_option pod_ip 8080);
  sent_key = none;
  sent_opt = [];
  target = none;
}

abbrev world : World
world = record { node = node; skb = skb; refused = [] }

abbrev answered : World
answered = world_of (answer still_kernel front client_ip 40000 2 2 world)

first_answer : answer still_kernel front client_ip 40000 2 2 world ≡ next (backend, 8080) answered
unfolding ingress_backend ◌>>=◌ ◌>>◌ pure node_of or_return fwd_pending_insert accepted accepted_by
    change_node ingress_steer steer_pin steer_slot steer_row select_endpoint_slot slot_in_range
    front_flow_hash flow_hash mix_words mix32 finish_hash flow_words le_words insert lookup
    fwd_pending_get flow_table_get_forward
first_answer = refl

uplink_hooks-SameKeys_example :
    let before = is_some (flow_at world.node.table []) in
    let ingress =
      is_some (flow_at (world_of (try_uplink_ingress still_kernel world)).node.table []) in
    let egress =
      is_some (flow_at (world_of (try_uplink_egress_return still_kernel world)).node.table []) in
    ((ingress ≡ true → before ≡ true) × (egress ≡ true → before ≡ true))
    × (will_evict world.node.evictions [] ≡ false → (ingress ≡ before) × (egress ≡ before))
uplink_hooks-SameKeys_example = uplink_hooks-SameKeys still_kernel world []

try_geneve_decap_forward-SamePins_example :
    let after = (world_of (try_geneve_decap_forward still_kernel ingress_key false world)).node in
    ((key : List ℕ)
      → flow_key_direction key ≡ some forward
      → (flow_at after.table key ≡ flow_at world.node.table key)
        ⊎ ((flow_at after.table key ≡ none) × (will_evict world.node.evictions key ≡ true)))
    × (after.pending ≡ world.node.pending)
try_geneve_decap_forward-SamePins_example =
    try_geneve_decap_forward-SamePins still_kernel ingress_key false world

geneve_ingress_refused_example :
    let remote = tunnel_remote ingress_key false in
    (100 ≡ vni_fwd
      → forward_admitted world remote ≡ false
      → geneve_ingress still_kernel world ≡ done (some shot) world)
    × (100 ≡ vni_ret
        → return_admitted world remote ≡ false
        → geneve_ingress still_kernel world ≡ done (some shot) world)
    × ((100 == vni_fwd) ≡ false
        → (100 == vni_ret) ≡ false
        → geneve_ingress still_kernel world ≡ done (some ok) world)
unfolding get_tunnel_key
geneve_ingress_refused_example = geneve_ingress_refused still_kernel world ingress_key false refl

-- The pod's SYN-ACK promotes the flow.
abbrev promoted : World
promoted = world_of (reply_pin still_kernel front client_ip 40000 18 answered)

ingress_backend_affinity_example :
    (after : World) × (answer still_kernel front client_ip 40000 3 16 promoted
      ≡ next (backend, 8080) after)
unfolding ingress_backend return_pin ◌>>=◌ ◌>>◌ pure node_of or_return or_none fwd_pending_insert
    accepted accepted_by change_node ingress_steer steer_pin steer_slot steer_row
    select_endpoint_slot slot_in_range front_flow_hash flow_hash mix_words mix32 finish_hash
    flow_words le_words insert lookup fwd_pending_get flow_table_get_forward flow_table_insert
    fwd_pending_remove gc_parity flow_step flow_step_flags tcp_step stamp_parity parity_bit
    sweep_class Bytes-discrete ℕ_discrete encode_tcp_flow_key encode_flow_key
ingress_backend_affinity_example =
    ingress_backend_affinity still_kernel front client_ip 40000 2 2 3 16 world answered promoted
      backend 8080 meta config first_answer (reply 18 answered promoted start refl refl) refl refl

abbrev flow : PodFlow
flow = record {
  client_ip = client_ip;
  client_port = 40000;
  front_ip = front_ip;
  front_port = 80;
  pod_ip = pod_ip;
  target_port = 8080;
  proto = 17;
}

abbrev recorded : World
recorded = world_of (record_flow still_kernel flow ingress_ip 34 world)

udp_recorded : record_flow still_kernel flow ingress_ip 34 world ≡ next 40000 recorded
unfolding record_flow ◌>>=◌ ◌>>◌ pure node_of accepted accepted_by change_node backend_port_of
    commit_reverse flow_table_get_reverse flow_table_get_port_memo gc_parity flow_table_insert
    lookup insert resolve_backend_src_port tcp_flags_direct flow_step_flags tcp_step stamp_parity
    parity_bit sweep_class occupant_conflicts
udp_recorded = refl

no_rst : IsNoRst 17 34 skb
no_rst t e = refl

return_reply-record_flow_example :
    (flags : ℕ) × (return_reply still_kernel (reply_of flow 40000) 34 0 recorded
      ≡ reply_with still_kernel
          (reply_of flow 40000)
          34
          0
          (record (rev_value flow ingress_ip) { flags = flags })
          recorded)
return_reply-record_flow_example =
    return_reply-record_flow still_kernel flow ingress_ip 34 40000 34 0 world recorded recorded
      (record { client_ip_length = refl; pod_ip_length = refl }) no_rst udp_recorded refl

abbrev memo_world : World
memo_world = record world {
  node = record node { table = (pod_key flow 40000 port_memo, port_memo_value 50000) ∷ [] };
}

-- A memo of one front's connection, found by another's.
memo_shared :
    let other = record flow { front_ip = ingress_ip; front_port = 443 } in
    backend_port_of still_kernel other memo_world
    ≡ next (pod_key flow 50000 reverse, 50000) memo_world
unfolding backend_port_of ◌>>=◌ flow_table_get_port_memo node_of pure lookup encode_flow_key
    Bytes-discrete ℕ_discrete
memo_shared = refl

-- A full table: the row of `[]` goes when another is written.
evicted :
    let full = record node { table = ([], port_memo_value 1) ∷ []; evictions = ([] ∷ []) ∷ [] } in
    flow_at (insert_flow (0 ∷ []) (port_memo_value 2) full).table [] ≡ none
unfolding lookup insert remove Bytes-discrete ℕ_discrete
evicted = refl

-- The SYN goes into the tunnel.
syn_redirected : verdict_of ok (try_uplink_ingress still_kernel world) ≡ redirected
unfolding try_uplink_ingress ◌>>=◌ skb_of node_of or_none or_return ◌>>◌ lookup pure ingress_steer
    select_endpoint_slot slot_in_range accepted change_node accepted_or change_skb
syn_redirected = refl

-- And to the pod.
syn_delivered : verdict_of shot (geneve_ingress still_kernel world) ≡ ok
unfolding geneve_ingress ◌>>=◌ skb_of or_return ◌>>◌ node_of Bytes-discrete ℕ_discrete pure
    decode_pod_id_option encode_pod_id_option or_none load lookup resolve_backend_src_port
    occupant_conflicts flow_step_flags accepted accepted_or accepted_or_none change_node change_skb
    loaded flow_table_insert tcp_flags_direct try_geneve_decap_forward unmap_ipv4 insert
    csum_disabled store l4_csum_replace l3_csum_replace rewrite_ip_port rewrite_l4_port to_host
    as_u16
syn_delivered = refl

front_echo-front_echo_option_example :
    front_echo (read_bytes 24 (front_echo_option (rev_value flow ingress_ip))) ≡ some (front_ip, 80)
front_echo-front_echo_option_example =
    front_echo-front_echo_option (rev_value flow ingress_ip) 24 refl (omega arith)
