-- ===== src/Datapath/Untracked/Hooks.antt =====
-- The two hooks of the uplinks, step by step.
use beep.Common.{
  ℕ, ◌≡◌, refl, sym, ◌∙◌, ap, Bool, true, false, Option, none, some, List, if◌then◌else◌,
}
use beep.Flow.{client}
use beep.Maps.{ForwardFlowValue, RevFlowValue, LbFrontKey}
use beep.Steer.{IngressSteer, drop}
use beep.Table.{flow_at}
use beep.Reverse.{is_some}
use beep.Admission.{
  ForwardAdmission, established, mint_pending, FwdPendingPin, insert_pin, keep_pin,
  EgressReturnAdmission, not_backend_traffic, backend_traffic, egress_return_outcome,
}
use beep.Datapath.{Node, World, ok, shot, Kernel, Hook, ◌>>=◌, ◌>>◌, pure, return, world_of}
use beep.Datapath.Maps.{
  fwd_pending_get, fwd_pending_insert, count_front_miss, read_forward, read_reverse, insert_pending,
  flow_table_get_forward, flow_table_get_reverse,
}
use beep.Datapath.Frame.{
  Frame, Keeps, Keeps-pure, Keeps-return, Keeps-or_none, Keeps-or_return, Keeps-node_of,
  Keeps-skb_of, Keeps-change_skb, Keeps-change_node, Keeps-accepted, Keeps-if, Keeps-read,
  Keeps-bind, Keeps-then, Keeps-ended,
}
use beep.Datapath.Carry.{
  Keeps-loaded, Keeps-tcp_flags, Keeps-geneve_device, Keeps-redirect_to_geneve,
  Keeps-rewrite_l4_port,
}
use beep.Datapath.Evict.{will_evict}
use beep.Datapath.Parse.{IngressFlow}
use beep.Datapath.Ingress.{
  touch_established, pending_pin, pin_pending, mint, steered, ingress_backend, uplink_ingress_encap,
  try_uplink_ingress,
}
use beep.Datapath.Egress.{
  ReplyFlow, reply_key, egress_verdict, replies, reply_with, return_reply,
  try_uplink_egress_return_headers_v4, try_uplink_egress_return_headers_v6,
  try_uplink_egress_return_headers, try_uplink_egress_return,
}
use beep.Datapath.Untracked.{
  SameKeys, with_row, all_rows, Keeps-touch_forward_row, Keeps-touch_return_row, read_forward-some,
  read_reverse-some,
}

-- The steps after the row of an established flow: they leave the table alone.
module _ (F : Frame)
    (same_table : (n n' : Node)
      → n'.table ≡ n.table
      → n'.evictions ≡ n.evictions
      → F.rel n n') where
  Keeps-pending_insert :
      (key : List ℕ) (value : ForwardFlowValue) → Keeps F (fwd_pending_insert key value)
  unfolding fwd_pending_insert
  Keeps-pending_insert key value = Keeps-bind F _ _ (Keeps-accepted F) (λ a.
      Keeps-if F a _ _
        (Keeps-then F _ _
          (Keeps-change_node F (insert_pending key value)
            (λ n h. same_table n (insert_pending key value n) refl refl))
          (Keeps-pure F true))
        (Keeps-pure F false))

  Keeps-pending_pin :
      (key : List ℕ) (in_main : Option ForwardFlowValue) → Keeps F (pending_pin key in_main)
  unfolding fwd_pending_get
  Keeps-pending_pin key none = Keeps-node_of F _
  Keeps-pending_pin key (some v) = Keeps-pure F none

  Keeps-pin_pending : (key : List ℕ) (pin : FwdPendingPin) → Keeps F (pin_pending key pin)
  Keeps-pin_pending key keep_pin = Keeps-pure F tt
  Keeps-pin_pending key (insert_pin v) =
      Keeps-bind F _ _ (Keeps-pending_insert key v)
        (λ a. Keeps-if F a _ _ (Keeps-pure F tt) (Keeps-return F ok))

  Keeps-mint :
      (key : List ℕ) (a : ForwardAdmission) (p : Option ForwardFlowValue) (v : ForwardFlowValue)
      → Keeps F (mint key a p v)
  Keeps-mint key established p v = Keeps-pure F tt
  Keeps-mint key mint_pending p v = Keeps-pin_pending key _

  Keeps-steered :
      (key : List ℕ) (in_main pending : Option ForwardFlowValue) (i : ℕ) (s : IngressSteer)
      → Keeps F (steered key in_main pending i s)
  unfolding count_front_miss
  Keeps-steered key in_main pending i drop =
      Keeps-then F _ _ (Keeps-change_node F _ (λ n h. same_table n _ refl refl))
        (Keeps-return F shot)
  Keeps-steered key in_main pending i (IngressSteer.forward b p) =
      Keeps-then F _ _ (Keeps-mint key _ _ _) (Keeps-pure F (b, p))

same_all_rows : (n n' : Node) → n'.table ≡ n.table → n'.evictions ≡ n.evictions → all_rows.rel n n'
same_all_rows n n' e v = (
  λ k h. sym (ap (λ t. is_some (flow_at t k)) e) ∙ h,
  λ k h. ap (λ t. is_some (flow_at t k)) e,
  λ k h. sym (ap (λ l. will_evict l k) v) ∙ h,
)

same_with_row :
    (key : List ℕ) (n n' : Node)
    → n'.table ≡ n.table
    → n'.evictions ≡ n.evictions
    → (with_row key).rel n n'
same_with_row key n n' e v = (same_all_rows n n' e v, λ h. ap (λ t. is_some (flow_at t key)) e ∙ h)

-- A flow's row is refreshed where it was found; the rest may be any steps that leave the table alone.
module _ (kernel : Kernel) (fwd_key : List ℕ) (proto t : ℕ) {B : Type 0}
    (rest : Option ForwardFlowValue → Hook B)
    (one : (o : Option ForwardFlowValue) → Keeps (with_row fwd_key) (rest o))
    (all : (o : Option ForwardFlowValue) → Keeps all_rows (rest o)) where
  touched :
      (w : World) (found : Option ForwardFlowValue)
      → read_forward kernel (flow_at w.node.table fwd_key) ≡ found
      → SameKeys w.node (world_of ((touch_established fwd_key found proto t >> rest found) w)).node
  touched w none e = (Keeps-then all_rows _ _ (Keeps-pure all_rows tt) (all none)).kept w tt
  touched w (some v) e =
      ((Keeps-then (with_row fwd_key) _ _ (Keeps-touch_forward_row fwd_key v proto t client)
          (one (some v))).kept
        w (read_forward-some kernel fwd_key w.node v e)).0

  Keeps-touched : Keeps all_rows (
      flow_table_get_forward kernel fwd_key >>= λ found.
      touch_established fwd_key found proto t >> rest found)
  unfolding flow_table_get_forward
  Keeps-touched = Keeps-read all_rows _ _ (λ w p. touched w _ refl)

module _ (kernel : Kernel) where
  Keeps-ingress_backend :
      (front : LbFrontKey) (client_ip : List ℕ) (client_port : ℕ) (flow_key fwd_key : List ℕ)
      (i t : ℕ)
      → Keeps all_rows (ingress_backend kernel front client_ip client_port flow_key fwd_key i t)
  unfolding ingress_backend
  Keeps-ingress_backend front client_ip client_port flow_key fwd_key i t =
      let A = all_rows in
      let F = with_row fwd_key in
      Keeps-bind A _ _ (Keeps-node_of A _) (λ found.
        Keeps-bind A _ _ (Keeps-or_return A ok found) (λ meta.
          Keeps-bind A _ _ (Keeps-node_of A _) (λ config_seed.
            Keeps-bind A _ _ (Keeps-or_return A ok config_seed) (λ seed.
              Keeps-touched kernel fwd_key front.proto t _
                (λ o.
                  Keeps-bind F _ _ (Keeps-pending_pin F (same_with_row fwd_key) flow_key o) (λ p.
                    Keeps-bind F _ _ (Keeps-node_of F _)
                      (λ e. Keeps-steered F (same_with_row fwd_key) flow_key o p i _)))
                (λ o. Keeps-bind A _ _ (Keeps-pending_pin A same_all_rows flow_key o) (λ p.
                  Keeps-bind A _ _ (Keeps-node_of A _)
                    (λ e. Keeps-steered A same_all_rows flow_key o p i _)))))))

  Keeps-encap :
      (i : ℕ) (flow : IngressFlow) (l3_only : Bool)
      → Keeps all_rows (uplink_ingress_encap kernel i flow l3_only)
  unfolding uplink_ingress_encap
  Keeps-encap i flow l3_only =
      let A = all_rows in
      Keeps-bind A _ _ (Keeps-ingress_backend _ _ _ _ _ i _) (λ chosen.
        Keeps-bind A _ _ (Keeps-geneve_device A) (λ g. Keeps-redirect_to_geneve A g _ _ _ _))

  pub Keeps-uplink_ingress : Keeps all_rows (try_uplink_ingress kernel)
  unfolding try_uplink_ingress
  Keeps-uplink_ingress =
      let A = all_rows in
      Keeps-bind A _ _ (Keeps-skb_of A _) (λ i. Keeps-bind A _ _ (Keeps-node_of A _) (λ uplinks.
        Keeps-bind A _ _ (Keeps-or_none A (uplinks i)) (λ l2_hlen.
          Keeps-bind A _ _ (Keeps-skb_of A _) (λ parsed.
            Keeps-bind A _ _ (Keeps-or_return A ok parsed) (λ flow. Keeps-encap i flow _)))))

  Keeps-egress_verdict : (a : EgressReturnAdmission) → Keeps all_rows (egress_verdict a)
  Keeps-egress_verdict not_backend_traffic = Keeps-return all_rows ok
  Keeps-egress_verdict backend_traffic = Keeps-pure all_rows tt

  replied :
      (flow : ReplyFlow) (l4_off e : ℕ) (w : World) (found : Option RevFlowValue)
      → read_reverse kernel (flow_at w.node.table (reply_key flow)) ≡ found
      → SameKeys w.node
          (world_of (
            (replies found (egress_return_outcome (is_some found))
                >>= reply_with kernel flow l4_off e)
              w)).node
  unfolding reply_with
  replied flow l4_off e w none h = (Keeps-ended all_rows ok _).kept w tt
  replied flow l4_off e w (some rev) h =
      let F = with_row (reply_key flow) in
      ((Keeps-bind F _ _ (Keeps-or_none F (some rev)) (λ r.
          Keeps-bind F _ _ (Keeps-tcp_flags F flow.proto l4_off) (λ t.
            Keeps-then F _ _ (Keeps-touch_return_row _ r flow.proto t) (
              Keeps-then F _ _ (Keeps-rewrite_l4_port F kernel l4_off _ _ _ flow.proto) (
                Keeps-bind F _ _ (Keeps-geneve_device F)
                  (λ g. Keeps-redirect_to_geneve F g _ _ _ e)))))).kept
        w (read_reverse-some kernel (reply_key flow) w.node rev h)).0

  Keeps-return_reply :
      (flow : ReplyFlow) (l4_off e : ℕ) → Keeps all_rows (return_reply kernel flow l4_off e)
  unfolding return_reply flow_table_get_reverse
  Keeps-return_reply flow l4_off e = Keeps-read all_rows _ _ (λ w p. replied flow l4_off e w _ refl)

  -- A guard of a parse.
  guarded : (c : Bool) → Keeps all_rows (if c then pure tt else return ok)
  guarded c = Keeps-if all_rows c _ _ (Keeps-pure all_rows tt) (Keeps-return all_rows ok)

  Keeps-v4 : (l2_hlen : ℕ) → Keeps all_rows (try_uplink_egress_return_headers_v4 kernel l2_hlen)
  unfolding try_uplink_egress_return_headers_v4
  Keeps-v4 l2_hlen =
      let A = all_rows in
      Keeps-bind A _ _ (Keeps-loaded A _) (λ ver_ihl. Keeps-then A _ _ (guarded _) (
        Keeps-bind A _ _ (Keeps-loaded A _) (λ proto. Keeps-then A _ _ (guarded _) (
          Keeps-bind A _ _ (Keeps-loaded A _) (λ pod_ip.
            Keeps-then A _ _ (Keeps-bind A _ _ (Keeps-node_of A _) Keeps-egress_verdict) (
              Keeps-bind A _ _ (Keeps-loaded A _) (λ target_port.
                Keeps-bind A _ _ (Keeps-loaded A _) (λ client_ip.
                  Keeps-bind A _ _ (Keeps-loaded A _) (λ dst. Keeps-return_reply _ _ _)))))))))

  Keeps-v6 : (l2_hlen : ℕ) → Keeps all_rows (try_uplink_egress_return_headers_v6 kernel l2_hlen)
  unfolding try_uplink_egress_return_headers_v6
  Keeps-v6 l2_hlen =
      let A = all_rows in
      Keeps-bind A _ _ (Keeps-loaded A _) (λ ver. Keeps-then A _ _ (guarded _) (
        Keeps-bind A _ _ (Keeps-loaded A _) (λ proto. Keeps-then A _ _ (guarded _) (
          Keeps-bind A _ _ (Keeps-loaded A _) (λ pod_ip.
            Keeps-then A _ _ (Keeps-bind A _ _ (Keeps-node_of A _) Keeps-egress_verdict) (
              Keeps-bind A _ _ (Keeps-loaded A _) (λ target_port.
                Keeps-bind A _ _ (Keeps-loaded A _) (λ client_ip.
                  Keeps-bind A _ _ (Keeps-loaded A _) (λ dst. Keeps-return_reply _ _ _)))))))))

  Keeps-headers : (l2_hlen : ℕ) → Keeps all_rows (try_uplink_egress_return_headers kernel l2_hlen)
  unfolding try_uplink_egress_return_headers
  Keeps-headers l2_hlen =
      let A = all_rows in
      Keeps-if A _ _ _
        (Keeps-bind A _ _ (Keeps-loaded A _) (λ e.
          Keeps-if A _ _ _ (Keeps-v4 l2_hlen)
            (Keeps-if A _ _ _ (Keeps-v6 l2_hlen) (Keeps-pure A ok))))
        (Keeps-bind A _ _ (Keeps-loaded A _) (λ v.
          Keeps-if A _ _ _ (Keeps-v4 l2_hlen)
            (Keeps-if A _ _ _ (Keeps-v6 l2_hlen) (Keeps-pure A ok))))

  pub Keeps-uplink_egress_return : Keeps all_rows (try_uplink_egress_return kernel)
  unfolding try_uplink_egress_return
  Keeps-uplink_egress_return =
      let A = all_rows in
      Keeps-bind A _ _ (Keeps-skb_of A _) (λ mark.
        Keeps-then A _ _
          (Keeps-if A _ _ _ (Keeps-then A _ _ (Keeps-change_skb A _) (Keeps-return A ok))
            (Keeps-pure A tt))
          (Keeps-bind A _ _ (Keeps-skb_of A _) (λ i.
            Keeps-bind A _ _ (Keeps-node_of A _) (λ uplinks.
              Keeps-bind A _ _ (Keeps-or_none A (uplinks i)) (λ l2_hlen.
                Keeps-if A _ _ _ (Keeps-headers 0)
                  (Keeps-if A _ _ _ (Keeps-headers 14) (Keeps-pure A ok)))))))

-- Whatever packet comes in or goes out over an uplink, whatever helper the kernel refuses and
-- whatever rows it evicts, the flow table has no row under a new key afterwards, and it has a row
-- under the same keys as before but for those that the kernel evicts with the inserts to come.
pub uplink_hooks-SameKeys :
    (kernel : Kernel) (w : World) (key : List ℕ)
    → let before = is_some (flow_at w.node.table key) in
      let ingress = is_some (flow_at (world_of (try_uplink_ingress kernel w)).node.table key) in
      let egress =
        is_some (flow_at (world_of (try_uplink_egress_return kernel w)).node.table key) in
      ((ingress ≡ true → before ≡ true) × (egress ≡ true → before ≡ true))
      × (will_evict w.node.evictions key ≡ false → (ingress ≡ before) × (egress ≡ before))
uplink_hooks-SameKeys kernel w key =
    let i = (Keeps-uplink_ingress kernel).kept w tt in
    let e = (Keeps-uplink_egress_return kernel).kept w tt in
    ((i.0 key, e.0 key), λ h. (i.1 key h, e.1 key h))
