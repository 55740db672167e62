-- ===== src/Datapath/Egress.antt =====
-- Hook 3 (ebpf/src/main.rs): the packets that leave over an uplink. A pod's reply to a served flow goes
-- back through the tunnel to the flow's ingress node, with its front in the option.
use beep.Common.{ℕ, ◌+◌, ◌/◌, ◌%◌, ◌&&◌, Option, List, [], ◌∷◌, ◌++◌, ◌==◌, if◌then◌else◌}
use beep.Maps.{RevFlowValue}
use beep.Wire.{encode_flow_key, reverse, ipv4_mapped_v6, u16_bytes, geneve_opt_class}
use beep.Reverse.{is_some}
use beep.Admission.{
  EgressReturnAdmission, not_backend_traffic, backend_traffic, egress_return_admission,
  EgressReturnOutcome, pass_through, forward_reply, egress_return_outcome,
  is_redirected_return_mark,
}
use beep.Datapath.{
  Verdict, ok, Kernel, Hook, ◌>>=◌, ◌>>◌, pure, return, or_none, node_of, skb_of, change_skb,
}
use beep.Datapath.Maps.{is_pod_target, flow_table_get_reverse, touch_return_row}
use beep.Datapath.Packet.{
  load, load_direct, loaded, as_u8, as_u16, as_u32, is_served, tcp_flags_direct, rewrite_l4_port,
  eth_hlen, ip_hlen, ip6_hlen, eth_p_ipv4, eth_p_ipv6,
}
use beep.Datapath.Parse.{version_byte}
use beep.Datapath.Ingress.{geneve_device}
use beep.Datapath.Tunnel.{redirect_to_geneve, vni_ret, no_l3_ethertype, geneve_opt_type_front_echo}

-- A packet from a pod, to the port that it knows its client by.
pub record ReplyFlow : Type 0 where
  pub client_ip : List ℕ
  pub backend_dst_port : ℕ
  pub pod_ip : List ℕ
  pub target_port : ℕ
  pub proto : ℕ

abbrev pub reply_key : ReplyFlow → List ℕ
reply_key flow =
    encode_flow_key flow.client_ip flow.backend_dst_port flow.pod_ip flow.target_port flow.proto
      reverse

-- The option of the return leg.
unfoldable pub front_echo_option : RevFlowValue → List ℕ
unfolding u16_bytes
front_echo_option rev =
    u16_bytes geneve_opt_class
    ++ (geneve_opt_type_front_echo ∷ 5 ∷ (rev.front_ip ++ (u16_bytes rev.front_port ++ 0 ∷ 0 ∷ [])))

abbrev pub egress_verdict : EgressReturnAdmission → Hook (Unit {0})
egress_verdict not_backend_traffic = return ok
egress_verdict backend_traffic = pure tt

abbrev pub from_pod : List ℕ → Hook (Unit {0})
from_pod pod_ip = node_of (λ n. egress_return_admission (is_pod_target pod_ip n)) >>= egress_verdict

abbrev pub replies : Option RevFlowValue → EgressReturnOutcome → Hook RevFlowValue
replies rev pass_through = return ok
replies rev forward_reply = or_none rev

module _ (kernel : Kernel) where
  -- The reply to a row that was found.
  unfoldable pub reply_with : ReplyFlow → ℕ → ℕ → RevFlowValue → Hook Verdict
  unfolding encode_flow_key tcp_flags_direct touch_return_row rewrite_l4_port geneve_device
      front_echo_option redirect_to_geneve
  reply_with flow l4_off l3_ethertype rev = do
    tcp_flags ← tcp_flags_direct flow.proto l4_off
    touch_return_row (reply_key flow) rev flow.proto tcp_flags
    rewrite_l4_port kernel l4_off (l4_off + 2) flow.backend_dst_port rev.original_client_port
        flow.proto
    geneve_ifindex ← geneve_device
    redirect_to_geneve geneve_ifindex rev.ingress_node_ip vni_ret (front_echo_option rev)
        l3_ethertype

  -- From the parsed flow to its ingress node: `ethertype` is stamped on an uplink without a link layer.
  unfoldable pub return_reply : ReplyFlow → ℕ → ℕ → Hook Verdict
  unfolding encode_flow_key flow_table_get_reverse reply_with
  return_reply flow l4_off l3_ethertype = do
    rev_lookup ← flow_table_get_reverse kernel (reply_key flow)
    rev ← replies rev_lookup (egress_return_outcome (is_some rev_lookup))
    reply_with flow l4_off l3_ethertype rev

  unfoldable pub try_uplink_egress_return_headers_v4 : ℕ → Hook Verdict
  unfolding load_direct load as_u16 as_u32 loaded return_reply
  try_uplink_egress_return_headers_v4 l2_hlen =
      let l4_off = l2_hlen + ip_hlen in
      do
        ver_ihl ← loaded (version_byte l2_hlen)
        if ver_ihl / 16 == 4 && ver_ihl % 16 == 5 then pure tt else return ok
        proto ← loaded (λ s. as_u8 (load_direct 1 (l2_hlen + 9) s))
        if is_served proto then pure tt else return ok
        pod_ip ← loaded (λ s. as_u32 (load_direct 4 (l2_hlen + 12) s))
        from_pod (ipv4_mapped_v6 pod_ip)
        target_port ← loaded (λ s. as_u16 (load_direct 2 l4_off s))
        client_ip ← loaded (λ s. as_u32 (load_direct 4 (l2_hlen + 16) s))
        backend_dst_port ← loaded (λ s. as_u16 (load_direct 2 (l4_off + 2) s))
        return_reply
            (record {
              client_ip = ipv4_mapped_v6 client_ip;
              backend_dst_port = backend_dst_port;
              pod_ip = ipv4_mapped_v6 pod_ip;
              target_port = target_port;
              proto = proto;
            })
            l4_off (if l2_hlen == 0 then eth_p_ipv4 else no_l3_ethertype)

  unfoldable pub try_uplink_egress_return_headers_v6 : ℕ → Hook Verdict
  unfolding load_direct load as_u16 loaded return_reply
  try_uplink_egress_return_headers_v6 l2_hlen =
      let l4_off = l2_hlen + ip6_hlen in
      do
        ver ← loaded (version_byte l2_hlen)
        if ver / 16 == 6 then pure tt else return ok
        proto ← loaded (λ s. as_u8 (load_direct 1 (l2_hlen + 6) s))
        if is_served proto then pure tt else return ok
        pod_ip ← loaded (load_direct 16 (l2_hlen + 8))
        from_pod pod_ip
        target_port ← loaded (λ s. as_u16 (load_direct 2 l4_off s))
        client_ip ← loaded (load_direct 16 (l2_hlen + 24))
        backend_dst_port ← loaded (λ s. as_u16 (load_direct 2 (l4_off + 2) s))
        return_reply
            (record {
              client_ip = client_ip;
              backend_dst_port = backend_dst_port;
              pod_ip = pod_ip;
              target_port = target_port;
              proto = proto;
            })
            l4_off (if l2_hlen == 0 then eth_p_ipv6 else no_l3_ethertype)

  abbrev by_ethertype : ℕ → ℕ → Hook Verdict
  by_ethertype l2_hlen ethertype =
      if ethertype == eth_p_ipv4
      then try_uplink_egress_return_headers_v4 l2_hlen
      else if ethertype == eth_p_ipv6
      then try_uplink_egress_return_headers_v6 l2_hlen
      else pure ok

  abbrev by_version : ℕ → ℕ → Hook Verdict
  by_version l2_hlen ver =
      if ver / 16 == 4
      then try_uplink_egress_return_headers_v4 l2_hlen
      else if ver / 16 == 6
      then try_uplink_egress_return_headers_v6 l2_hlen
      else pure ok

  unfoldable pub try_uplink_egress_return_headers : ℕ → Hook Verdict
  unfolding load_direct load as_u16 loaded try_uplink_egress_return_headers_v4
      try_uplink_egress_return_headers_v6
  try_uplink_egress_return_headers l2_hlen =
      if l2_hlen == eth_hlen
      then (loaded (λ s. as_u16 (load_direct 2 12 s)) >>= by_ethertype l2_hlen)
      else (loaded (λ s. as_u8 (load 1 0 s)) >>= by_version l2_hlen)

  abbrev pub by_hlen : ℕ → Hook Verdict
  by_hlen l2_hlen =
      if l2_hlen == 0
      then try_uplink_egress_return_headers 0
      else if l2_hlen == eth_hlen
      then try_uplink_egress_return_headers eth_hlen
      else pure ok

  -- A packet that the return leg marked is let out, without its mark.
  abbrev pub unless_marked : ℕ → Hook (Unit {0})
  unless_marked mark =
      if is_redirected_return_mark mark
      then (change_skb (λ s. record s { mark = 0 }) >> return ok)
      else pure tt

  unfoldable pub try_uplink_egress_return : Hook Verdict
  unfolding try_uplink_egress_return_headers
  try_uplink_egress_return = do
    mark ← skb_of (λ s. s.mark)
    unless_marked mark
    ifindex ← skb_of (λ s. s.ifindex)
    uplinks ← node_of (λ n. n.uplinks)
    l2_hlen ← or_none (uplinks ifindex)
    by_hlen l2_hlen
