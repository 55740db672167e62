-- ===== src/Datapath/Peers.antt =====
-- The checks of the hook on the tunnel device (ebpf/src/main.rs) in front of its use of the maps.
use beep.Common.{ℕ, ◌≡◌, refl, Bool, true, false, ◌&&◌, Option, none, some, List, ◌==◌}
use beep.Reverse.{is_some}
use beep.Datapath.{
  World, TunnelKey, Kernel, ok, shot, done, ◌>>=◌, ◌>>◌, pure, return, or_return, node_of, skb_of,
}
use beep.Datapath.Maps.{is_node_allowed, is_pod_target}
use beep.Datapath.Tunnel.{get_tunnel_key, tunnel_remote, vni_fwd, vni_ret}
use beep.Datapath.Backend.{pod_id_option, try_geneve_decap_forward}
use beep.Datapath.Return.{front_echo, try_geneve_decap_return, geneve_ingress}

-- The pod that a decoded option names is one of this node's.
abbrev pub names_local_pod : World → Option (List ℕ × ℕ) → Bool
names_local_pod w none = false
names_local_pod w (some pod) = is_pod_target pod.0 w.node

-- What each leg asks for.
abbrev pub forward_admitted : World → List ℕ → Bool
forward_admitted w remote =
    is_node_allowed remote w.node && names_local_pod w (pod_id_option w.skb.received_opt)

abbrev pub return_admitted : World → List ℕ → Bool
return_admitted w remote = is_node_allowed remote w.node && is_some (front_echo w.skb.received_opt)

module _ (kernel : Kernel) (w : World) (tkey : TunnelKey) (used_ipv6 : Bool) where
  stopped_forward :
      (peer : Bool) (o : Option (List ℕ × ℕ))
      → is_node_allowed (tunnel_remote tkey used_ipv6) w.node ≡ peer
      → pod_id_option w.skb.received_opt ≡ o
      → (peer && names_local_pod w o) ≡ false
      → try_geneve_decap_forward kernel tkey used_ipv6 w ≡ done (some shot) w
  unfolding try_geneve_decap_forward ◌>>=◌ ◌>>◌ node_of skb_of return pure or_return
  stopped_forward false o hp ho h = rw hp refl
  stopped_forward true none hp ho h = rw (hp, ho) refl
  stopped_forward true (some pod) hp ho h = rw (hp, ho, h) refl

  stopped_return :
      (peer : Bool) (o : Option (List ℕ × ℕ))
      → is_node_allowed (tunnel_remote tkey used_ipv6) w.node ≡ peer
      → front_echo w.skb.received_opt ≡ o
      → (peer && is_some o) ≡ false
      → try_geneve_decap_return kernel tkey used_ipv6 w ≡ done (some shot) w
  unfolding try_geneve_decap_return ◌>>=◌ ◌>>◌ node_of skb_of return pure or_return
  stopped_return false o hp ho h = rw hp refl
  stopped_return true none hp ho h = rw (hp, ho) refl
  stopped_return true (some pod) hp ho h = absurd (cc h)

-- A packet of either leg is dropped, with no change to any map or to the packet, unless its outer
-- source is a known node, and its option names a local pod (forward leg) or echoes a front (return
-- leg). A tunnel key of another leg is let through, unchanged too.
pub geneve_ingress_refused :
    (kernel : Kernel) (w : World) (tkey : TunnelKey) (used_ipv6 : Bool)
    → get_tunnel_key w.skb ≡ some (tkey, used_ipv6)
    → let remote = tunnel_remote tkey used_ipv6 in
      (tkey.tunnel_id ≡ vni_fwd
        → forward_admitted w remote ≡ false
        → geneve_ingress kernel w ≡ done (some shot) w)
      × (tkey.tunnel_id ≡ vni_ret
          → return_admitted w remote ≡ false
          → geneve_ingress kernel w ≡ done (some shot) w)
      × ((tkey.tunnel_id == vni_fwd) ≡ false
          → (tkey.tunnel_id == vni_ret) ≡ false
          → geneve_ingress kernel w ≡ done (some ok) w)
unfolding geneve_ingress ◌>>=◌ skb_of or_return return
geneve_ingress_refused kernel w tkey used_ipv6 e = (
  λ v h. rw (e, v) (stopped_forward kernel w tkey used_ipv6 _ _ refl refl h),
  λ v h. rw (e, v) (stopped_return kernel w tkey used_ipv6 _ _ refl refl h),
  λ f r. rw (e, f, r) refl,
)
