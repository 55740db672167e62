-- ===== src/Datapath/Carry.antt =====
-- The calls on the packet (ebpf/src/main.rs) in the calculus of frames.
use beep.Common.{ℕ, zero, suc, ◌+◌, false, Option, List, ◌==◌}
use beep.Flow.{ipproto_tcp, ipproto_udp}
use beep.Wire.{u16_bytes, u32_bytes}
use beep.Datapath.{Skb, ok, shot, redirected, Kernel}
use beep.Datapath.Frame.{
  Frame, Keeps, Keeps-pure, Keeps-return, Keeps-or_none, Keeps-node_of, Keeps-skb_of,
  Keeps-change_skb, Keeps-unless, Keeps-if, Keeps-bind, Keeps-then, Keeps-accepted_or,
  Keeps-accepted_or_none,
}
use beep.Datapath.Packet.{
  loaded, tcp_flags_direct, store, csum_disabled, l3_csum_replace, l4_csum_replace, rewrite_ip_port,
  replace_words, rewrite_ipv6_port, rewrite_l4_port,
}
use beep.Datapath.Tunnel.{redirect_to_geneve, redirect_client_bound}
use beep.Datapath.Backend.{to_host, known_peer, local_pod, peer_verdict, pod_verdict}
use beep.Datapath.Ingress.{geneve_device}
use beep.Admission.{
  PeerNodeAdmission, drop_peer, continue_peer, DecapForwardPodAdmission, drop_pod, deliver_pod,
}

module _ (F : Frame) where
  pub Keeps-loaded : {A : Type 0} (f : Skb → Option A) → Keeps F (loaded f)
  unfolding loaded
  Keeps-loaded f = Keeps-bind F _ _ (Keeps-skb_of F f) (λ o. Keeps-or_none F o)

  pub Keeps-tcp_flags : (proto l4_off : ℕ) → Keeps F (tcp_flags_direct proto l4_off)
  unfolding tcp_flags_direct
  Keeps-tcp_flags proto l4_off =
      Keeps-if F (proto == ipproto_tcp) _ _ (Keeps-loaded _) (Keeps-pure F 0)

  pub Keeps-store : (offset : ℕ) (b : List ℕ) → Keeps F (store offset b)
  unfolding store
  Keeps-store offset b =
      Keeps-then F _ _ (Keeps-accepted_or_none F)
        (Keeps-then F _ _ (Keeps-loaded _) (Keeps-change_skb F _))

  Keeps-csum_disabled : (proto off : ℕ) → Keeps F (csum_disabled proto off)
  unfolding csum_disabled
  Keeps-csum_disabled proto off =
      Keeps-if F (proto == ipproto_udp) _ _
        (Keeps-bind F _ _ (Keeps-loaded _) (λ c. Keeps-pure F (c == 0))) (Keeps-pure F false)

  pub Keeps-geneve_device : Keeps F geneve_device
  unfolding geneve_device
  Keeps-geneve_device = Keeps-bind F _ _ (Keeps-node_of F _) (λ o. Keeps-or_none F o)

  pub Keeps-redirect_to_geneve :
      (i : ℕ) (remote : List ℕ) (vni : ℕ) (opt : List ℕ) (ethertype : ℕ)
      → Keeps F (redirect_to_geneve i remote vni opt ethertype)
  unfolding redirect_to_geneve
  Keeps-redirect_to_geneve i remote vni opt ethertype =
      let asked = Keeps-accepted_or F shot in
      Keeps-then F _ _ asked (
        Keeps-then F _ _ (Keeps-change_skb F _) (
          Keeps-then F _ _ asked (
            Keeps-then F _ _ (Keeps-change_skb F _) (
              Keeps-then F _ _
                (Keeps-unless F (ethertype == 0) _ (
                  Keeps-then F _ _ asked (
                    Keeps-then F _ _ (Keeps-change_skb F _)
                      (Keeps-then F _ _ asked (Keeps-change_skb F _)))))
                (Keeps-then F _ _ asked
                  (Keeps-then F _ _ (Keeps-change_skb F _) (Keeps-pure F redirected)))))))

  pub Keeps-redirect_client_bound : (i : ℕ) → Keeps F (redirect_client_bound i)
  unfolding redirect_client_bound
  Keeps-redirect_client_bound i = Keeps-bind F _ _ (Keeps-node_of F _) (λ uplinks.
      Keeps-bind F _ _ (Keeps-or_none F (uplinks i)) (λ l2_hlen.
        Keeps-then F _ _ (Keeps-accepted_or F shot)
          (Keeps-then F _ _ (Keeps-change_skb F _) (Keeps-pure F redirected))))

  pub Keeps-to_host : Keeps F to_host
  unfolding to_host
  Keeps-to_host =
      Keeps-then F _ _ (Keeps-accepted_or F shot)
        (Keeps-then F _ _ (Keeps-change_skb F _) (Keeps-pure F ok))

  peer_case : (a : PeerNodeAdmission) → Keeps F (peer_verdict a)
  peer_case drop_peer = Keeps-return F shot
  peer_case continue_peer = Keeps-pure F tt

  pub Keeps-known_peer : (remote : List ℕ) → Keeps F (known_peer remote)
  Keeps-known_peer remote = Keeps-bind F _ _ (Keeps-node_of F _) peer_case

  pod_case : (a : DecapForwardPodAdmission) → Keeps F (pod_verdict a)
  pod_case drop_pod = Keeps-return F shot
  pod_case deliver_pod = Keeps-pure F tt

  pub Keeps-local_pod : (pod_ip : List ℕ) → Keeps F (local_pod pod_ip)
  Keeps-local_pod pod_ip = Keeps-bind F _ _ (Keeps-node_of F _) pod_case

  module _ (kernel : Kernel) where
    Keeps-l4_csum_replace : (o a b n : ℕ) → Keeps F (l4_csum_replace kernel o a b n)
    unfolding l4_csum_replace
    Keeps-l4_csum_replace o a b n =
        Keeps-then F _ _ (Keeps-accepted_or_none F) (Keeps-change_skb F _)

    Keeps-l3_csum_replace : (o a b n : ℕ) → Keeps F (l3_csum_replace kernel o a b n)
    unfolding l3_csum_replace
    Keeps-l3_csum_replace o a b n =
        Keeps-then F _ _ (Keeps-accepted_or_none F) (Keeps-change_skb F _)

    pub Keeps-rewrite_ip_port :
        (ip_off old_ip new_ip port_off old_port new_port proto : ℕ)
        → Keeps F (rewrite_ip_port kernel ip_off old_ip new_ip port_off old_port new_port proto)
    unfolding rewrite_ip_port
    Keeps-rewrite_ip_port ip_off old_ip new_ip port_off old_port new_port proto =
        Keeps-bind F _ _ (Keeps-csum_disabled proto 40) (λ d.
          Keeps-then F _ _ (Keeps-l3_csum_replace _ _ _ _) (
            Keeps-then F _ _
              (Keeps-unless F d _
                (Keeps-then F _ _ (Keeps-l4_csum_replace _ _ _ _) (Keeps-l4_csum_replace _ _ _ _)))
              (Keeps-then F _ _ (Keeps-store ip_off (u32_bytes new_ip))
                (Keeps-store port_off (u16_bytes new_port)))))

    Keeps-replace_words :
        (left i off : ℕ) (old_ip new_ip : List ℕ)
        → Keeps F (replace_words kernel left i off old_ip new_ip)
    unfolding replace_words
    Keeps-replace_words zero i off old_ip new_ip = Keeps-pure F tt
    Keeps-replace_words (suc left) i off old_ip new_ip =
        Keeps-then F _ _ (Keeps-l4_csum_replace _ _ _ _)
          (Keeps-replace_words left (i + 1) off old_ip new_ip)

    pub Keeps-rewrite_ipv6_port :
        (ip_off : ℕ) (old_ip new_ip : List ℕ) (port_off old_port new_port proto l4 udp : ℕ)
        → Keeps F
            (rewrite_ipv6_port kernel ip_off old_ip new_ip port_off old_port new_port proto l4 udp)
    unfolding rewrite_ipv6_port
    Keeps-rewrite_ipv6_port ip_off old_ip new_ip port_off old_port new_port proto l4 udp =
        Keeps-bind F _ _ (Keeps-csum_disabled proto udp) (λ d.
          Keeps-then F _ _
            (Keeps-unless F d _ (
              Keeps-then F _ _ (Keeps-replace_words 4 0 l4 old_ip new_ip)
                (Keeps-l4_csum_replace _ _ _ _)))
            (Keeps-then F _ _ (Keeps-store ip_off new_ip)
              (Keeps-store port_off (u16_bytes new_port))))

    pub Keeps-rewrite_l4_port :
        (l4_off port_off old_port new_port proto : ℕ)
        → Keeps F (rewrite_l4_port kernel l4_off port_off old_port new_port proto)
    unfolding rewrite_l4_port
    Keeps-rewrite_l4_port l4_off port_off old_port new_port proto =
        Keeps-if F (old_port == new_port) _ _ (Keeps-pure F tt) (
          Keeps-bind F _ _ (Keeps-csum_disabled proto (l4_off + 6)) (λ d.
            Keeps-then F _ _ (Keeps-unless F d _ (Keeps-l4_csum_replace _ _ _ _))
              (Keeps-store port_off (u16_bytes new_port))))
