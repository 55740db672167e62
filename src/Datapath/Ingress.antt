-- ===== src/Datapath/Ingress.antt =====
-- Hook 1 (ebpf/src/main.rs): the packets that come in over an uplink. A packet for a front is sent into
-- the tunnel to its backend's node.
use beep.Common.{ℕ, Bool, Option, none, some, List, ◌==◌, if◌then◌else◌}
use beep.Flow.{client}
use beep.Maps.{LbFrontKey, LbFrontBackend, ForwardFlowValue}
use beep.Wire.{encode_tcp_flow_key, encode_flow_key, forward, encode_pod_id_option}
use beep.Steer.{front_flow_hash, IngressSteer, drop, ingress_steer}
use beep.Reverse.{is_some}
use beep.Admission.{
  ForwardAdmission, established, mint_pending, forward_admission, FwdPendingPin, insert_pin,
  keep_pin, fwd_pending_affinity_pin,
}
use beep.Datapath.{
  Config, Verdict, ok, shot, Kernel, Hook, ◌>>=◌, ◌>>◌, pure, return, or_none, or_return, node_of,
  skb_of,
}
use beep.Datapath.Maps.{
  flow_table_get_forward, touch_forward_row, fwd_pending_get, fwd_pending_insert, count_front_miss,
}
use beep.Datapath.Parse.{IngressFlow, ingress_flow}
use beep.Datapath.Tunnel.{redirect_to_geneve, vni_fwd, no_l3_ethertype}

-- The row of an established flow is refreshed.
abbrev pub touch_established : List ℕ → Option ForwardFlowValue → ℕ → ℕ → Hook (Unit {0})
touch_established fwd_key none proto tcp_flags = pure tt
touch_established fwd_key (some value) proto tcp_flags =
    touch_forward_row fwd_key value proto tcp_flags client

-- The pending table is asked only about a flow that is not established.
abbrev pub pending_pin : List ℕ → Option ForwardFlowValue → Hook (Option ForwardFlowValue)
pending_pin flow_key none = fwd_pending_get flow_key
pending_pin flow_key (some value) = pure none

abbrev pub pin_pending : List ℕ → FwdPendingPin → Hook (Unit {0})
pin_pending flow_key keep_pin = pure tt
pin_pending flow_key (insert_pin candidate) =
    fwd_pending_insert flow_key candidate >>= λ a. if a then pure tt else return ok

abbrev pub mint :
    List ℕ → ForwardAdmission → Option ForwardFlowValue → ForwardFlowValue → Hook (Unit {0})
mint flow_key established pending admitted = pure tt
mint flow_key mint_pending pending admitted =
    pin_pending flow_key (fwd_pending_affinity_pin pending admitted)

abbrev pub steered :
    List ℕ
    → Option ForwardFlowValue
    → Option ForwardFlowValue
    → ℕ
    → IngressSteer
    → Hook (LbFrontBackend × ℕ)
steered flow_key in_main pending ingress_ifindex drop = count_front_miss >> return shot
steered flow_key in_main pending ingress_ifindex (IngressSteer.forward backend target_port) = do
  mint flow_key (forward_admission (is_some in_main)) pending (record {
    backend = backend;
    ingress_ifindex = ingress_ifindex;
    target_port = target_port;
    flags = 0;
  })
  pure (backend, target_port)

abbrev pub seed_of : Option Config → Option ℕ
seed_of none = none
seed_of (some c) = some c.flow_hash_seed

abbrev pub geneve_of : Option Config → Option ℕ
geneve_of none = none
geneve_of (some c) = some c.geneve_ifindex

-- `CONFIG.get(0)?.geneve_ifindex`
unfoldable pub geneve_device : Hook ℕ
geneve_device = node_of (λ n. geneve_of n.config) >>= or_none

module _ (kernel : Kernel) where
  -- `Err(verdict)` ends the hook, as it does in the only caller.
  unfoldable pub ingress_backend :
      LbFrontKey → List ℕ → ℕ → List ℕ → List ℕ → ℕ → ℕ → Hook (LbFrontBackend × ℕ)
  unfolding flow_table_get_forward touch_forward_row fwd_pending_get fwd_pending_insert
      count_front_miss
  ingress_backend front client_ip client_port flow_key fwd_key ingress_ifindex tcp_flags = do
    found ← node_of (λ n. n.front_meta front)
    meta ← or_return ok found
    config_seed ← node_of (λ n. seed_of n.config)
    seed ← or_return ok config_seed
    in_main ← flow_table_get_forward kernel fwd_key
    touch_established fwd_key in_main front.proto tcp_flags
    pending ← pending_pin flow_key in_main
    endpoint_at ← node_of (λ n. n.front_endpoints)
    steered flow_key in_main pending ingress_ifindex (
        ingress_steer endpoint_at meta in_main pending
          (front_flow_hash seed client_ip client_port front meta) front)

  unfoldable pub uplink_ingress_encap : ℕ → IngressFlow → Bool → Hook Verdict
  unfolding ingress_backend redirect_to_geneve geneve_device encode_tcp_flow_key encode_flow_key
  uplink_ingress_encap ingress_ifindex flow l3_only =
      let key = flow.front in
      let flow_key =
        encode_tcp_flow_key flow.client_ip flow.client_port key.front_ip key.front_port key.proto in
      let fwd_key =
        encode_flow_key flow.client_ip flow.client_port key.front_ip key.front_port key.proto
          forward in
      do
        chosen ←
            ingress_backend key flow.client_ip flow.client_port flow_key fwd_key ingress_ifindex
              flow.tcp_flags
        geneve_ifindex ← geneve_device
        redirect_to_geneve geneve_ifindex chosen.0.backend_node_ip vni_fwd
            (encode_pod_id_option chosen.0.pod_ip chosen.1)
            (if l3_only then flow.ethertype else no_l3_ethertype)

  unfoldable pub try_uplink_ingress : Hook Verdict
  unfolding ingress_flow uplink_ingress_encap
  try_uplink_ingress = do
    ingress_ifindex ← skb_of (λ s. s.ingress_ifindex)
    uplinks ← node_of (λ n. n.uplinks)
    l2_hlen ← or_none (uplinks ingress_ifindex)
    parsed ← skb_of (ingress_flow l2_hlen)
    flow ← or_return ok parsed
    uplink_ingress_encap ingress_ifindex flow (l2_hlen == 0)
