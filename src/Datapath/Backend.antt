-- ===== src/Datapath/Backend.antt =====
-- The forward leg on the backend's node (`try_geneve_decap_forward` of ebpf/src/main.rs): a packet out of
-- the tunnel is delivered to its pod, and a reverse row records its front and the client's own port.
-- The two families share all but the offsets and widths of their headers, and so do the definitions.
use beep.Common.{ℕ, ◌%◌, Bool, true, Option, none, List, ◌==◌, if◌then◌else◌}
use beep.Flow.{ipproto_tcp}
use beep.Wire.{ipv4_mapped_v6, unmap_ipv4, decode_pod_id_option, pod_id_opt_len}
use beep.Admission.{
  PeerNodeAdmission, drop_peer, continue_peer, peer_node_admission, DecapForwardPodAdmission,
  drop_pod, deliver_pod, decap_forward_pod_admission,
}
use beep.Datapath.{
  TunnelKey, OptionRead, negative, read_bytes, Verdict, ok, shot, Kernel, Hook, ◌>>=◌, ◌>>◌, pure,
  return, or_none, or_return, node_of, skb_of, change_skb, accepted_or,
}
use beep.Datapath.Maps.{is_node_allowed, is_pod_target}
use beep.Datapath.Packet.{
  load, loaded, as_u8, as_u16, as_u32, is_served, rewrite_ip_port, rewrite_ipv6_port,
  rewrite_l4_port, eth_p_ipv4, eth_p_ipv6,
}
use beep.Datapath.Tunnel.{tunnel_remote, buffer}
use beep.Datapath.Record.{PodFlow, record_flow}

abbrev pub peer_verdict : PeerNodeAdmission → Hook (Unit {0})
peer_verdict drop_peer = return shot
peer_verdict continue_peer = pure tt

abbrev pub pod_verdict : DecapForwardPodAdmission → Hook (Unit {0})
pod_verdict drop_pod = return shot
pod_verdict deliver_pod = pure tt

abbrev pub known_peer : List ℕ → Hook (Unit {0})
known_peer remote = node_of (λ n. peer_node_admission (is_node_allowed remote n)) >>= peer_verdict

abbrev pub local_pod : List ℕ → Hook (Unit {0})
local_pod pod_ip =
    node_of (λ n. decap_forward_pod_admission (is_pod_target pod_ip n)) >>= pod_verdict

-- The option of the forward leg has the exact length.
abbrev pub pod_id_option : OptionRead → Option (List ℕ × ℕ)
pod_id_option negative = none
pod_id_option (read_bytes opt_len opt) =
    if opt_len == pod_id_opt_len then decode_pod_id_option (buffer opt) else none

-- `change_type(PACKET_HOST)`
unfoldable pub to_host : Hook Verdict
to_host = do accepted_or shot; change_skb (λ s. record s { to_host = true }); pure ok

module _ (kernel : Kernel) where
  abbrev deliver_v4 : PodFlow → ℕ → List ℕ → Hook Verdict
  deliver_v4 flow front_ip ingress_node_ip = do
    backend_src_port ← record_flow kernel flow ingress_node_ip 34
    rewrite_l4_port kernel 34 34 flow.client_port backend_src_port flow.proto
    pod_ip ← or_none (unmap_ipv4 flow.pod_ip)
    rewrite_ip_port kernel 30 front_ip pod_ip 36 flow.front_port flow.target_port flow.proto
    to_host

  -- The offsets behind an Ethernet header: IHL 14, protocol 23, addresses 26 and 30, ports 34 and 36.
  unfoldable pub try_geneve_decap_forward_v4 : List ℕ → List ℕ → ℕ → Hook Verdict
  unfolding record_flow rewrite_l4_port rewrite_ip_port to_host loaded as_u16 as_u32
  try_geneve_decap_forward_v4 ingress_node_ip pod_ip target_port = do
    ver_ihl ← loaded (λ s. as_u8 (load 1 14 s))
    if ver_ihl % 16 == 5 then pure tt else return ok
    proto ← loaded (λ s. as_u8 (load 1 23 s))
    if is_served proto then pure tt else return ok
    client_ip ← loaded (λ s. as_u32 (load 4 26 s))
    client_port ← loaded (λ s. as_u16 (load 2 34 s))
    front_ip ← loaded (λ s. as_u32 (load 4 30 s))
    front_port ← loaded (λ s. as_u16 (load 2 36 s))
    deliver_v4
        (record {
          client_ip = ipv4_mapped_v6 client_ip;
          client_port = client_port;
          front_ip = ipv4_mapped_v6 front_ip;
          front_port = front_port;
          pod_ip = pod_ip;
          target_port = target_port;
          proto = proto;
        })
        front_ip ingress_node_ip

  abbrev deliver_v6 : PodFlow → List ℕ → Hook Verdict
  deliver_v6 flow ingress_node_ip = do
    backend_src_port ← record_flow kernel flow ingress_node_ip 54
    rewrite_l4_port kernel 54 54 flow.client_port backend_src_port flow.proto
    rewrite_ipv6_port kernel 38 flow.front_ip flow.pod_ip 56 flow.front_port flow.target_port
        flow.proto (if flow.proto == ipproto_tcp then 70 else 60) 60
    to_host

  -- Next header 20, addresses 22 and 38, ports 54 and 56.
  unfoldable pub try_geneve_decap_forward_v6 : List ℕ → List ℕ → ℕ → Hook Verdict
  unfolding record_flow rewrite_l4_port rewrite_ipv6_port to_host loaded as_u16
  try_geneve_decap_forward_v6 ingress_node_ip pod_ip target_port = do
    proto ← loaded (λ s. as_u8 (load 1 20 s))
    if is_served proto then pure tt else return ok
    client_ip ← loaded (load 16 22)
    client_port ← loaded (λ s. as_u16 (load 2 54 s))
    front_ip ← loaded (load 16 38)
    front_port ← loaded (λ s. as_u16 (load 2 56 s))
    deliver_v6
        (record {
          client_ip = client_ip;
          client_port = client_port;
          front_ip = front_ip;
          front_port = front_port;
          pod_ip = pod_ip;
          target_port = target_port;
          proto = proto;
        })
        ingress_node_ip

  abbrev by_family : List ℕ → List ℕ → ℕ → ℕ → Hook Verdict
  by_family ingress_node_ip pod_ip target_port ethertype =
      if ethertype == eth_p_ipv4
      then try_geneve_decap_forward_v4 ingress_node_ip pod_ip target_port
      else if ethertype == eth_p_ipv6
      then try_geneve_decap_forward_v6 ingress_node_ip pod_ip target_port
      else pure ok

  unfoldable pub try_geneve_decap_forward : TunnelKey → Bool → Hook Verdict
  unfolding loaded as_u16 try_geneve_decap_forward_v4 try_geneve_decap_forward_v6 tunnel_remote
  try_geneve_decap_forward tkey used_ipv6 =
      let remote = tunnel_remote tkey used_ipv6 in
      do
        known_peer remote
        received ← skb_of (λ s. pod_id_option s.received_opt)
        pod ← or_return shot received
        local_pod pod.0
        ethertype ← loaded (λ s. as_u16 (load 2 12 s))
        by_family remote pod.0 pod.1 ethertype
