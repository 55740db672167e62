-- ===== src/Datapath/Return.antt =====
-- The return leg on the ingress node, and the hook on the tunnel device (ebpf/src/main.rs): a reply out
-- of the tunnel gets its front's address back and goes to the client, on the word of the flow's pin.
use beep.Common.{ℕ, ◌%◌, Bool, false, ◌&&◌, Option, none, some, List, ◌==◌, if◌then◌else◌, get_or}
use beep.Common.Assoc.{remove}
use beep.Flow.{FlowStep, keep, write, skip, pod, flow_step, ipproto_tcp}
use beep.Maps.{ForwardFlowValue, Bytes-discrete}
use beep.Wire.{
  encode_tcp_flow_key, encode_flow_key, forward, ipv4_mapped_v6, unmap_ipv4, u16_bytes,
  u16_of_bytes, bytes_eq, slice, geneve_opt_class,
}
use beep.Table.{forward_value}
use beep.Reverse.{is_some}
use beep.Admission.{
  ReturnAuthorization, authorized, promote, refuse, return_authorization, redirected_return_mark,
}
use beep.Datapath.{
  TunnelKey, OptionRead, negative, read_bytes, Verdict, ok, shot, Kernel, Hook, ◌>>=◌, ◌>>◌, pure,
  return, or_none, or_return, skb_of, change_skb, change_node,
}
use beep.Datapath.Maps.{
  gc_parity, flow_table_get_forward, flow_table_insert, touch_forward_row, fwd_pending_get,
}
use beep.Datapath.Packet.{
  load, loaded, as_u8, as_u16, as_u32, is_served, tcp_flags_direct, rewrite_ip_port,
  rewrite_ipv6_port, eth_p_ipv4, eth_p_ipv6,
}
use beep.Datapath.Tunnel.{
  tunnel_remote, get_tunnel_key, vni_fwd, vni_ret, geneve_opt_type_front_echo, buffer,
  redirect_client_bound,
}
use beep.Datapath.Backend.{known_peer, try_geneve_decap_forward}

-- What the front's echo in the option says: its address and port.
abbrev pub front_echo : OptionRead → Option (List ℕ × ℕ)
front_echo negative = none
front_echo (read_bytes opt_len opt) =
    let b = buffer opt in
    if bytes_eq (slice 0 2 b) (u16_bytes geneve_opt_class)
      && get_or b 2 0 == geneve_opt_type_front_echo
    then some (slice 4 16 b, u16_of_bytes (slice 20 2 b))
    else none

-- `FWD_PENDING.remove`, whose result is ignored.
unfoldable pub fwd_pending_remove : List ℕ → Hook (Unit {0})
fwd_pending_remove key =
    change_node (λ n. record n { pending = remove Bytes-discrete key n.pending })

-- The flags of a packet that makes the row, with those of the value where nothing is written.
abbrev pub promoted_value : ForwardFlowValue → FlowStep → ForwardFlowValue
promoted_value value keep = value
promoted_value value (write flags) = record value { flags = flags }
promoted_value value skip = value

abbrev pub insert_promoted : List ℕ → ForwardFlowValue → FlowStep → Hook (Unit {0})
insert_promoted fwd_key value skip = pure tt
insert_promoted fwd_key value keep =
    flow_table_insert fwd_key (forward_value value) >>= λ a. if a then pure tt else or_none none
insert_promoted fwd_key value (write flags) =
    flow_table_insert fwd_key (forward_value (record value { flags = flags })) >>= λ a.
    if a then pure tt else or_none none

abbrev pub authorize :
    List ℕ → List ℕ → ℕ → ℕ → Option ForwardFlowValue → ReturnAuthorization → Hook ForwardFlowValue
authorize key fwd_key proto tcp_flags pending refuse = or_none none
authorize key fwd_key proto tcp_flags pending authorized = or_none none
authorize key fwd_key proto tcp_flags pending promote = do
  value ← or_none pending
  parity ← gc_parity
  let step = flow_step none proto tcp_flags pod parity
  insert_promoted fwd_key value step
  fwd_pending_remove key
  pure (promoted_value value step)

-- The row of an established flow, or the pending pin.
abbrev pub pin_of : List ℕ → List ℕ → ℕ → ℕ → Option ForwardFlowValue → Hook ForwardFlowValue
pin_of key fwd_key proto tcp_flags (some value) =
    touch_forward_row fwd_key value proto tcp_flags pod >> pure value
pin_of key fwd_key proto tcp_flags none = fwd_pending_get key >>= λ pending.
    authorize key fwd_key proto tcp_flags pending (return_authorization false (is_some pending))

module _ (kernel : Kernel) where
  unfoldable pub return_pin : List ℕ → ℕ → List ℕ → ℕ → ℕ → ℕ → Hook ForwardFlowValue
  unfolding encode_tcp_flow_key encode_flow_key flow_table_get_forward touch_forward_row
      fwd_pending_get gc_parity flow_table_insert fwd_pending_remove
  return_pin client_ip client_port front_ip front_port proto tcp_flags =
      let key = encode_tcp_flow_key client_ip client_port front_ip front_port proto in
      let fwd_key = encode_flow_key client_ip client_port front_ip front_port proto forward in
      flow_table_get_forward kernel fwd_key >>= pin_of key fwd_key proto tcp_flags

  -- The mark is set, and the packet leaves by the uplink that the client came in by.
  unfoldable pub to_client : ForwardFlowValue → Hook Verdict
  unfolding redirect_client_bound
  to_client pin =
      change_skb (λ s. record s { mark = redirected_return_mark })
      >> redirect_client_bound pin.ingress_ifindex

  unfoldable pub try_geneve_decap_return_v4 : List ℕ → ℕ → Hook Verdict
  unfolding return_pin rewrite_ip_port to_client loaded tcp_flags_direct as_u16 as_u32
  try_geneve_decap_return_v4 front_ip front_port = do
    ver_ihl ← loaded (λ s. as_u8 (load 1 14 s))
    if ver_ihl % 16 == 5 then pure tt else return ok
    proto ← loaded (λ s. as_u8 (load 1 23 s))
    if is_served proto then pure tt else return ok
    pod_ip ← loaded (λ s. as_u32 (load 4 26 s))
    target_port ← loaded (λ s. as_u16 (load 2 34 s))
    client_ip ← loaded (λ s. as_u32 (load 4 30 s))
    client_port ← loaded (λ s. as_u16 (load 2 36 s))
    tcp_flags ← tcp_flags_direct proto 34
    pin ← return_pin (ipv4_mapped_v6 client_ip) client_port front_ip front_port proto tcp_flags
    front_v4 ← or_none (unmap_ipv4 front_ip)
    rewrite_ip_port kernel 26 pod_ip front_v4 34 target_port front_port proto
    to_client pin

  unfoldable pub try_geneve_decap_return_v6 : List ℕ → ℕ → Hook Verdict
  unfolding return_pin rewrite_ipv6_port to_client loaded tcp_flags_direct as_u16
  try_geneve_decap_return_v6 front_ip front_port = do
    proto ← loaded (λ s. as_u8 (load 1 20 s))
    if is_served proto then pure tt else return ok
    pod_ip ← loaded (load 16 22)
    target_port ← loaded (λ s. as_u16 (load 2 54 s))
    client_ip ← loaded (load 16 38)
    client_port ← loaded (λ s. as_u16 (load 2 56 s))
    tcp_flags ← tcp_flags_direct proto 54
    pin ← return_pin client_ip client_port front_ip front_port proto tcp_flags
    rewrite_ipv6_port kernel 22 pod_ip front_ip 54 target_port front_port proto
        (if proto == ipproto_tcp then 70 else 60) 60
    to_client pin

  abbrev by_family : List ℕ → ℕ → ℕ → Hook Verdict
  by_family front_ip front_port ethertype =
      if ethertype == eth_p_ipv4
      then try_geneve_decap_return_v4 front_ip front_port
      else if ethertype == eth_p_ipv6
      then try_geneve_decap_return_v6 front_ip front_port
      else pure ok

  unfoldable pub try_geneve_decap_return : TunnelKey → Bool → Hook Verdict
  unfolding loaded as_u16 try_geneve_decap_return_v4 try_geneve_decap_return_v6 tunnel_remote
      bytes_eq u16_of_bytes u16_bytes
  try_geneve_decap_return tkey used_ipv6 = do
    known_peer (tunnel_remote tkey used_ipv6)
    received ← skb_of (λ s. front_echo s.received_opt)
    front ← or_return shot received
    ethertype ← loaded (λ s. as_u16 (load 2 12 s))
    by_family front.0 front.1 ethertype

  -- The dispatch by the tunnel's id.
  abbrev pub by_tunnel : TunnelKey → Bool → Hook Verdict
  by_tunnel tkey used_ipv6 =
      if tkey.tunnel_id == vni_fwd
      then try_geneve_decap_forward kernel tkey used_ipv6
      else if tkey.tunnel_id == vni_ret
      then try_geneve_decap_return tkey used_ipv6
      else return ok

  unfoldable pub geneve_ingress : Hook Verdict
  unfolding get_tunnel_key try_geneve_decap_forward try_geneve_decap_return
  geneve_ingress = do
    found ← skb_of get_tunnel_key
    tunnel ← or_return ok found
    by_tunnel tunnel.0 tunnel.1
