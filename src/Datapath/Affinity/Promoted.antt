-- ===== src/Datapath/Affinity/Promoted.antt =====
-- The return leg and the flow's pin (`return_pin` of ebpf/src/main.rs), on every branch.
use beep.Common.{
  ℕ, ◌≡◌, refl, sym, subst, Bool, true, false, Option, none, some, List, [], ◌∷◌, arith,
}
use beep.Common.Assoc.{remove}
use beep.Flow.{FlowStep, keep, write, skip, pod, flow_step, flow_step_flags}
use beep.Flow.Lifecycle.{refuses, flow_step_flags-refines}
use beep.Maps.{ForwardFlowValue, Bytes-discrete}
use beep.Wire.{encode_tcp_flow_key, encode_flow_key, forward}
use beep.Table.{forward_value, flow_at}
use beep.Datapath.{
  Node, World, Step, next, done, Kernel, Hook, ◌>>=◌, ◌>>◌, pure, or_none, node_of, change_node,
  accepted, accepted_by,
}
use beep.Datapath.Maps.{
  insert_flow, flow_table_insert, pending_at, fwd_pending_get, gc_parity, parity_of, read_forward,
  flow_table_get_forward,
}
use beep.Datapath.Return.{fwd_pending_remove, promoted_value, insert_promoted, pin_of, return_pin}
use beep.Datapath.Affinity.{IsEstablished, pin_in, pin_at, touch_forward_row-Pins, flow_at-insert}

module _ (kernel : Kernel) (key fwd_key : List ℕ) where
  -- How a reply ends under a pin: it goes on with the pin's uplink and the flow established with its
  -- backend; or the flow had no row yet and the kernel refuses the next insert, and then the maps and
  -- the packet are as they were.
  pub data Promoted (v : ForwardFlowValue) (start : World) : Step ForwardFlowValue → Type 0 where
    goes_on :
        (v' : ForwardFlowValue) (w : World)
        → v'.ingress_ifindex ≡ v.ingress_ifindex
        → IsEstablished kernel fwd_key w.node v.backend v.target_port
        → Promoted v start (next v' w)
    refused_insert :
        (later : List Bool)
        → start.refused ≡ true ∷ later
        → read_forward kernel (flow_at start.node.table fwd_key) ≡ none
        → Promoted v start (done none (record start { refused = later }))

  abbrev promoted_node : ForwardFlowValue → Node → Node
  promoted_node v n =
      let put = insert_flow fwd_key (forward_value v) n in
      record put { pending = remove Bytes-discrete key put.pending }

  promoted_pin :
      (v : ForwardFlowValue) (flags : ℕ) (n : Node)
      → IsEstablished kernel fwd_key
          (promoted_node (record v { flags = flags }) n)
          v.backend
          v.target_port
  promoted_pin v flags n = record {
    row = record v { flags = flags };
    established = rw (flow_at-insert fwd_key (forward_value (record v { flags = flags })) n) refl;
    backend_eq = refl;
    port_eq = refl;
  }

  abbrev finish : ForwardFlowValue → FlowStep → Hook ForwardFlowValue
  finish v step =
      insert_promoted fwd_key v step >> (fwd_pending_remove key >> pure (promoted_value v step))

  refused_step :
      (v : ForwardFlowValue) (flags : ℕ) (w : World) (l : List Bool)
      → w.refused ≡ true ∷ l
      → read_forward kernel (flow_at w.node.table fwd_key) ≡ none
      → Promoted v w (finish v (write flags) w)
  unfolding ◌>>=◌ ◌>>◌ pure or_none flow_table_insert accepted accepted_by change_node
      fwd_pending_remove
  refused_step v flags w l o e =
      let ran : finish v (write flags) w ≡ done none (record w { refused = l }) = rw o refl in
      subst (Promoted v w) (sym ran) (refused_insert l o e)

  finished :
      (v : ForwardFlowValue) (flags : ℕ) (w : World) (outcomes : List Bool)
      → w.refused ≡ outcomes
      → read_forward kernel (flow_at w.node.table fwd_key) ≡ none
      → Promoted v w (finish v (write flags) w)
  unfolding ◌>>=◌ ◌>>◌ pure or_none flow_table_insert accepted accepted_by change_node
      fwd_pending_remove
  finished v flags w [] o e = rw o (goes_on _ _ refl (promoted_pin v flags w.node))
  finished v flags w (false ∷ l) o e = rw o (goes_on _ _ refl (promoted_pin v flags w.node))
  finished v flags w (true ∷ l) o e = refused_step v flags w l o e

  -- A packet that makes a row writes its flags.
  by_step :
      (v : ForwardFlowValue) (w : World) (step : FlowStep)
      → (step ≡ skip → ⊥)
      → (step ≡ keep → ⊥)
      → read_forward kernel (flow_at w.node.table fwd_key) ≡ none
      → Promoted v w (finish v step w)
  by_step v w keep s k e = absurd (k refl)
  by_step v w skip s k e = absurd (s refl)
  by_step v w (write flags) s k e = finished v flags w _ refl e

  no_keep : (proto t : ℕ) (n : Node) → flow_step none proto t pod (parity_of n.config) ≡ keep → ⊥
  unfolding flow_step flow_step_flags
  no_keep proto t n e = absurd (ground (arith, e))

  pub pin_of-pinned :
      (proto t : ℕ) (v : ForwardFlowValue) (w : World) (in_main pending : Option ForwardFlowValue)
      → refuses false proto t ≡ false
      → read_forward kernel (flow_at w.node.table fwd_key) ≡ in_main
      → pending_at w.node.pending key ≡ pending
      → pin_in kernel key fwd_key in_main pending ≡ some v
      → Promoted v w (pin_of key fwd_key proto t in_main w)
  unfolding ◌>>=◌ ◌>>◌ pure or_none fwd_pending_get gc_parity node_of flow_step
  pin_of-pinned proto t v w none none r e p h = absurd (cc h)
  pin_of-pinned proto t v w none (some q) r e p h =
      let eq : q ≡ v = cc h in
      let skips = (flow_step_flags-refines false 0 proto t pod (parity_of w.node.config)).1 in
      subst (λ (u : ForwardFlowValue). Promoted u w (pin_of key fwd_key proto t none w)) eq
        (rw p (
          by_step q w (flow_step none proto t pod (parity_of w.node.config))
            (λ s. absurd (cc (skips.0 s, r))) (no_keep proto t w.node) e))
  pin_of-pinned proto t v w (some q) pending r e p h =
      let eq : q ≡ v = cc h in
      let m = touch_forward_row-Pins kernel fwd_key q proto t pod w e in
      subst (λ (u : ForwardFlowValue). Promoted u w (pin_of key fwd_key proto t (some q) w)) eq
        (rw m.goes_on (goes_on q m.after refl m.still))

  pub pin_of-none :
      (proto t : ℕ) (w : World)
      → pending_at w.node.pending key ≡ none
      → pin_of key fwd_key proto t none w ≡ done none w
  unfolding ◌>>=◌ fwd_pending_get node_of or_none
  pin_of-none proto t w p = rw p refl

  unknown :
      (proto t : ℕ) (w : World) (in_main pending : Option ForwardFlowValue)
      → pending_at w.node.pending key ≡ pending
      → pin_in kernel key fwd_key in_main pending ≡ none
      → pin_of key fwd_key proto t in_main w ≡ done none w
  unknown proto t w none none p h = pin_of-none proto t w p
  unknown proto t w none (some q) p h = absurd (cc h)
  unknown proto t w (some q) pending p h = absurd (cc h)

pub return_pin_lem :
    (kernel : Kernel) (client_ip : List ℕ) (client_port : ℕ) (front_ip : List ℕ)
    (front_port proto t : ℕ) (w : World)
    → let key = encode_tcp_flow_key client_ip client_port front_ip front_port proto in
      let fwd_key = encode_flow_key client_ip client_port front_ip front_port proto forward in
      let ended = return_pin kernel client_ip client_port front_ip front_port proto t w in
      (pin_at kernel key fwd_key w.node ≡ none → ended ≡ done none w)
      × ((v : ForwardFlowValue)
          → pin_at kernel key fwd_key w.node ≡ some v
          → refuses false proto t ≡ false
          → Promoted kernel key fwd_key v w ended)
unfolding return_pin ◌>>=◌ flow_table_get_forward node_of
return_pin_lem kernel client_ip client_port front_ip front_port proto t w =
    let key = encode_tcp_flow_key client_ip client_port front_ip front_port proto in
    let fwd_key = encode_flow_key client_ip client_port front_ip front_port proto forward in
    (
      λ h. unknown kernel key fwd_key proto t w _ _ refl h,
      λ v h r. pin_of-pinned kernel key fwd_key proto t v w _ _ r refl refl h,
    )
