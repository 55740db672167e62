-- ===== src/Datapath/Tunnel.antt =====
-- The tunnel metadata of a packet (ebpf/src/main.rs): the remote node, the option, and the redirects
-- into the tunnel and back to the client.
use beep.Common.{
  ℕ, ◌+◌, Bool, true, false, Option, none, some, List, [], ◌∷◌, ◌++◌, ◌==◌, if◌then◌else◌, get_or,
  replicate, drop, take,
}
use beep.Wire.{unmap_ipv4, tunnel_remote_addr, u16_bytes}
use beep.Datapath.{
  Skb, TunnelKey, device, neighbour, Verdict, shot, redirected, Hook, ◌>>=◌, ◌>>◌, pure, unless,
  or_none, change_skb, node_of, accepted_or,
}
use beep.Datapath.Packet.{eth_hlen, word, stored}

abbrev pub vni_fwd : ℕ
vni_fwd = 100

abbrev pub vni_ret : ℕ
vni_ret = 200

abbrev pub geneve_opt_type_front_echo : ℕ
geneve_opt_type_front_echo = 0x02

abbrev pub no_l3_ethertype : ℕ
no_l3_ethertype = 0

abbrev pub zeroed_tunnel_key : TunnelKey
zeroed_tunnel_key = record { tunnel_id = 0; tunnel_ttl = 0; remote = replicate 4 0 }

abbrev remote_arm : TunnelKey → List ℕ → Option ℕ → TunnelKey × Bool
remote_arm tkey node_ip (some v4) = (record tkey { remote = v4 ∷ drop 1 tkey.remote }, false)
remote_arm tkey node_ip none = (
  record tkey { remote = word 0 node_ip ∷ word 1 node_ip ∷ word 2 node_ip ∷ word 3 node_ip ∷ [] },
  true,
)

-- The option's buffer of 24 bytes, behind the option filled up with zeros.
abbrev pub buffer : List ℕ → List ℕ
buffer opt = take 24 (opt ++ replicate 24 0)

-- The key with its remote, and whether `BPF_F_TUNINFO_IPV6` is to be set.
unfoldable pub set_tunnel_remote : TunnelKey → List ℕ → TunnelKey × Bool
set_tunnel_remote tkey node_ip = remote_arm tkey node_ip (unmap_ipv4 node_ip)

-- The first answer of the kernel, and the family that it was asked for.
abbrev pub answer : Option TunnelKey → Option TunnelKey → Option (TunnelKey × Bool)
answer (some tkey) v6 = some (tkey, false)
answer none (some tkey) = some (tkey, true)
answer none none = none

unfoldable pub get_tunnel_key : Skb → Option (TunnelKey × Bool)
get_tunnel_key skb = answer skb.tunnel_v4 skb.tunnel_v6

unfoldable pub tunnel_remote : TunnelKey → Bool → List ℕ
unfolding tunnel_remote_addr
tunnel_remote tkey used_ipv6 = tunnel_remote_addr used_ipv6 (get_or tkey.remote 0 0) tkey.remote

-- `bpf_skb_change_head` by an Ethernet header of zeros.
abbrev pub with_head : Skb → Skb
with_head skb = record skb {
  data_bytes = replicate eth_hlen 0 ++ skb.data_bytes;
  linear = skb.linear + eth_hlen;
}

unfoldable pub redirect_to_geneve : ℕ → List ℕ → ℕ → List ℕ → ℕ → Hook Verdict
unfolding u16_bytes set_tunnel_remote
redirect_to_geneve geneve_ifindex remote vni opt l3_ethertype =
    let (tkey, is_ipv6) = set_tunnel_remote zeroed_tunnel_key remote in
    do
      accepted_or shot
      change_skb (λ s. record s {
        sent_key = some (record tkey { tunnel_id = vni; tunnel_ttl = 64 }, is_ipv6);
      })
      accepted_or shot
      change_skb (λ s. record s { sent_opt = opt })
      unless (l3_ethertype == no_l3_ethertype) (do
        accepted_or shot
        change_skb with_head
        accepted_or shot
        change_skb (stored 12 (u16_bytes l3_ethertype)))
      accepted_or shot
      change_skb (λ s. record s { target = some (device geneve_ifindex) })
      pure redirected

unfoldable pub redirect_client_bound : ℕ → Hook Verdict
redirect_client_bound ingress_ifindex = do
  uplinks ← node_of (λ n. n.uplinks)
  l2_hlen ← or_none (uplinks ingress_ifindex)
  accepted_or shot
  change_skb (λ s. record s {
    target =
        some (if l2_hlen == eth_hlen then neighbour ingress_ifindex else device ingress_ifindex);
  })
  pure redirected
