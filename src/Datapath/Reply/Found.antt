-- ===== src/Datapath/Reply/Found.antt =====
-- From a packet that is delivered to a pod to the pod's reply.
use beep.Common.{
  ℕ, ◌+◌, ◌≡◌, refl, sym, ◌∙◌, ap, subst, Bool, true, false, Option, none, some, List, [], ◌∷◌,
  if◌then◌else◌, inl, inr, arith, Bool-cases, ◌==◌,
}
use beep.Flow.{ipproto_tcp}
use beep.Flow.Lifecycle.{refuses}
use beep.Maps.{RevFlowValue}
use beep.Wire.{reverse}
use beep.Remap.{BackendPortDecision, no_remap, remap, exhausted}
use beep.Table.{flow_at}
use beep.Admission.{BackendPortResolution, memoized, probe_port}
use beep.Datapath.{
  Skb, World, Step, next, done, Kernel, Hook, ◌>>=◌, ◌>>◌, pure, or_none, return, node_of, skb_of,
  change_node, accepted, accepted_by, then_step,
}
use beep.Datapath.Maps.{
  flow_table_insert, flow_table_get_port_memo, read_reverse, flow_table_get_reverse,
}
use beep.Datapath.Packet.{load, loaded, as_u8, tcp_flags_direct}
use beep.Datapath.Record.{
  PodFlow, pod_key, rev_value, remapped, backend_port, backend_port_of, commit_reverse, record_flow,
}
use beep.Datapath.Egress.{ReplyFlow, reply_with, return_reply}
use beep.Datapath.Forward.{IsPodFlow, candidate_key_lem}
use beep.Datapath.Reply.{HasRow, Leaves, commit_reverse-Leaves}

-- What `tcp_flags_direct` reads.
abbrev pub packet_flags : ℕ → ℕ → Skb → Option ℕ
packet_flags proto l4_off s =
    if proto == ipproto_tcp then as_u8 (load 1 (l4_off + 13) s) else some 0

-- The packet is no RST.
abbrev pub IsNoRst : ℕ → ℕ → Skb → Type 0
IsNoRst proto l4_off s =
    (t : ℕ) → packet_flags proto l4_off s ≡ some t → refuses false proto t ≡ false

tcp_flags_direct-packet_flags :
    (proto l4_off : ℕ) (w : World)
    → tcp_flags_direct proto l4_off w ≡ or_none (packet_flags proto l4_off w.skb) w
unfolding tcp_flags_direct loaded ◌>>=◌ skb_of or_none pure
tcp_flags_direct-packet_flags proto l4_off w = elim (Bool-cases (proto == ipproto_tcp)) [
  | inl e ↦ rw e refl
  | inr e ↦ rw e refl
]

refuses_any :
    (exists : Bool) (proto t : ℕ) → refuses false proto t ≡ false → refuses exists proto t ≡ false
refuses_any true proto t h = ground (arith, h)
refuses_any false proto t h = h

module _ (kernel : Kernel) (flow : PodFlow) (whole : IsPodFlow flow) where
  -- The key is the flow's reverse key under the port, and the packet is as it was.
  abbrev Chosen : Skb → Step (List ℕ × ℕ) → Type 0
  Chosen s (next chosen w) = (chosen.0 ≡ pod_key flow chosen.1 reverse) × (w.skb ≡ s)
  Chosen s (done v w) = Unit {0}

  remapped-Chosen :
      (d : BackendPortDecision) (w : World) (outcomes : List Bool)
      → w.refused ≡ outcomes
      → Chosen w.skb (remapped kernel flow d w)
  unfolding ◌>>=◌ ◌>>◌ pure or_none return flow_table_insert accepted accepted_by change_node
  remapped-Chosen no_remap w l o = (refl, refl)
  remapped-Chosen exhausted w l o = tt
  remapped-Chosen (remap port) w [] o = rw o (candidate_key_lem flow port whole, refl)
  remapped-Chosen (remap port) w (false ∷ l) o = rw o (candidate_key_lem flow port whole, refl)
  remapped-Chosen (remap port) w (true ∷ l) o = rw o tt

  backend_port-Chosen :
      (r : BackendPortResolution) (w : World) → Chosen w.skb (backend_port kernel flow r w)
  unfolding ◌>>=◌ node_of pure
  backend_port-Chosen (memoized port) w = (refl, refl)
  backend_port-Chosen probe_port w = remapped-Chosen _ w _ refl

  backend_port_of-Chosen : (w : World) → Chosen w.skb (backend_port_of kernel flow w)
  unfolding backend_port_of ◌>>=◌ flow_table_get_port_memo node_of
  backend_port_of-Chosen w = backend_port-Chosen _ w

  module _ (node_ip : List ℕ) (l4_off : ℕ) where
    abbrev own_value : RevFlowValue
    own_value = rev_value flow node_ip

    abbrev pub Recorded : Step ℕ → Type 0
    Recorded (next port w) = HasRow kernel (pod_key flow port reverse) own_value w.node
    Recorded (done v w) = Unit {0}

    closing :
        (port : ℕ) (s : Step (Unit {0}))
        → Leaves kernel (pod_key flow port reverse) own_value s
        → Recorded (then_step (λ _. pure port) s)
    unfolding pure
    closing port (next u w) h = h
    closing port (done v w) h = tt

    abbrev rest : List ℕ × ℕ → Hook ℕ
    rest chosen = tcp_flags_direct flow.proto l4_off >>= λ t.
        commit_reverse kernel chosen.0 own_value flow.proto t >> pure chosen.1

    by_flags :
        (port : ℕ) (w : World) (t : Option ℕ)
        → packet_flags flow.proto l4_off w.skb ≡ t
        → IsNoRst flow.proto l4_off w.skb
        → Recorded (rest (pod_key flow port reverse, port) w)
    unfolding ◌>>=◌ ◌>>◌ or_none
    by_flags port w none e n = rw (tcp_flags_direct-packet_flags flow.proto l4_off w, e) tt
    by_flags port w (some t) e n =
        rw (tcp_flags_direct-packet_flags flow.proto l4_off w, e)
          (closing port _ (
            commit_reverse-Leaves kernel (pod_key flow port reverse) own_value flow.proto t w
              (refuses_any _ flow.proto t (n t e))))

    from_choice :
        (s : Skb) (c : Step (List ℕ × ℕ))
        → Chosen s c
        → IsNoRst flow.proto l4_off s
        → Recorded (then_step rest c)
    from_choice s (done v w) h n = tt
    from_choice s (next (key, port) w) h n =
        subst (λ (k : List ℕ). Recorded (rest (k, port) w)) (sym h.0)
          (by_flags port w _ refl (subst (IsNoRst flow.proto l4_off) (sym h.1) n))

    pub record_flow-Recorded :
        (w : World)
        → IsNoRst flow.proto l4_off w.skb
        → Recorded (record_flow kernel flow node_ip l4_off w)
    unfolding record_flow ◌>>=◌
    record_flow-Recorded w n = from_choice w.skb _ (backend_port_of-Chosen w) n

-- The reply that the pod sends to the port it knows its client by.
abbrev pub reply_of : PodFlow → ℕ → ReplyFlow
reply_of flow port = record {
  client_ip = flow.client_ip;
  backend_dst_port = port;
  pod_ip = flow.pod_ip;
  target_port = flow.target_port;
  proto = flow.proto;
}

replied :
    (kernel : Kernel) (flow : PodFlow) (port l4_off e : ℕ) (rev : RevFlowValue) (w : World)
    → read_reverse kernel (flow_at w.node.table (pod_key flow port reverse)) ≡ some rev
    → return_reply kernel (reply_of flow port) l4_off e w
      ≡ reply_with kernel (reply_of flow port) l4_off e rev w
unfolding return_reply ◌>>=◌ flow_table_get_reverse node_of or_none
replied kernel flow port l4_off e rev w h = rw h refl

-- When the forward leg lets a packet that is no RST go on to its pod under some port, remapped or
-- not, then a reply of the pod to that port, while the row is there, is served by `reply_with` with a
-- row that holds the node that the packet came in by, the client's own port, and the front's address
-- and port.
-- The client's and the pod's addresses have 16 bytes.
pub return_reply-record_flow :
    (kernel : Kernel) (flow : PodFlow) (node_ip : List ℕ) (l4_off port reply_off ethertype : ℕ)
    (w w' later : World)
    → IsPodFlow flow
    → IsNoRst flow.proto l4_off w.skb
    → record_flow kernel flow node_ip l4_off w ≡ next port w'
    → flow_at later.node.table (pod_key flow port reverse)
      ≡ flow_at w'.node.table (pod_key flow port reverse)
    → (flags : ℕ) × (return_reply kernel (reply_of flow port) reply_off ethertype later
        ≡ reply_with kernel
            (reply_of flow port)
            reply_off
            ethertype
            (record (rev_value flow node_ip) { flags = flags })
            later)
return_reply-record_flow kernel flow node_ip l4_off port reply_off ethertype w w' later whole n e
      same =
    let Ends = λ (s : Step ℕ). Recorded kernel flow whole node_ip l4_off s in
    let held = subst Ends e (record_flow-Recorded kernel flow whole node_ip l4_off w n) in
    (
      held.flags,
      replied kernel flow port reply_off ethertype _ later
          (ap (read_reverse kernel) same ∙ held.row),
    )
