-- ===== src/Datapath/Forward/Hooks.antt =====
-- The forward leg on the backend's node, step by step.
use beep.Common.{
  ℕ, ◌≡◌, ◌⊎◌, refl, sym, ◌∙◌, ap, Bool, true, false, Option, none, some, List, ◌++◌, ◌==◌,
  if◌then◌else◌, Bool-cases, inl, inr, arith, length, drop, length-append, replicate,
}
use beep.Flow.{FlowStep, keep, write, skip}
use beep.Maps.{RevFlowValue}
use beep.Wire.{
  forward, reverse, port_memo, flow_key_direction, decode_pod_id_option, pod_id_opt_len,
}
use beep.Wire.Bytes.{length-take, length-drop}
use beep.Remap.{BackendPortDecision, no_remap, remap, exhausted}
use beep.Table.{FlowValue, flow_at}
use beep.Admission.{BackendPortResolution, memoized, probe_port}
use beep.Reverse.{holds}
use beep.Datapath.{
  World, ok, shot, TunnelKey, OptionRead, negative, read_bytes, Kernel, pure, return, world_of,
}
use beep.Datapath.Maps.{
  insert_flow, flow_table_insert, gc_parity, flow_table_get_reverse, flow_table_get_port_memo,
}
use beep.Datapath.Evict.{will_evict}
use beep.Datapath.Tunnel.{buffer}
use beep.Datapath.Frame.{
  Keeps, Keeps-pure, Keeps-return, Keeps-or_none, Keeps-node_of, Keeps-change_node, Keeps-accepted,
  Keeps-if, Keeps-bind, Keeps-then, Keeps-packet, Yields, Yields-pure, Yields-return, Yields-none,
  Yields-if, Yields-bind, Keeps-bind-Yields,
}
use beep.Datapath.Carry.{
  Keeps-loaded, Keeps-tcp_flags, Keeps-rewrite_l4_port, Keeps-rewrite_ip_port,
  Keeps-rewrite_ipv6_port, Keeps-to_host, Keeps-known_peer, Keeps-local_pod,
}
use beep.Datapath.Backend.{
  pod_id_option, try_geneve_decap_forward_v4, try_geneve_decap_forward_v6, try_geneve_decap_forward,
}
use beep.Datapath.Record.{
  PodFlow, pod_key, candidate_key, store_reverse, commit_step, remapped, backend_port,
  backend_port_of, commit_reverse, record_flow,
}
use beep.Datapath.Forward.{
  pins, Keeps-some_or, Keeps-loaded_with, length-load, length-ipv4_mapped, IsPodFlow,
  pod_key-direction, candidate_key_lem, insert_flow-pins,
}

-- A key that is no forward key.
abbrev IsOther : List ℕ → Type 0
IsOther key = flow_key_direction key ≡ some forward → ⊥

IsOther-reverse : (key : List ℕ) → flow_key_direction key ≡ some reverse → IsOther key
IsOther-reverse key h e = absurd (cc (h, e))

IsOther-port_memo : (key : List ℕ) → flow_key_direction key ≡ some port_memo → IsOther key
IsOther-port_memo key h e = absurd (cc (h, e))

Keeps-insert :
    (key : List ℕ) (value : FlowValue) → IsOther key → Keeps pins (flow_table_insert key value)
unfolding flow_table_insert
Keeps-insert key value h = Keeps-bind pins _ _ (Keeps-accepted pins) (λ a.
    Keeps-if pins a _ _
      (Keeps-then pins _ _
        (Keeps-change_node pins (insert_flow key value) (λ n _. insert_flow-pins key value n h))
        (Keeps-pure pins true))
      (Keeps-pure pins false))

Keeps-store_reverse :
    (key : List ℕ) (stored : Option RevFlowValue) (value : RevFlowValue)
    → IsOther key
    → Keeps pins (store_reverse key stored value)
Keeps-store_reverse key stored value h =
    Keeps-if pins (holds stored value) _ _ (Keeps-pure pins tt) (
      Keeps-bind pins _ _ (Keeps-insert key _ h)
        (λ a. Keeps-if pins a _ _ (Keeps-pure pins tt) (Keeps-or_none pins none)))

Keeps-commit_step :
    (key : List ℕ) (stored : Option RevFlowValue) (value : RevFlowValue) (flags : ℕ)
    (step : FlowStep)
    → IsOther key
    → Keeps pins (commit_step key stored value flags step)
Keeps-commit_step key stored value flags skip h = Keeps-pure pins tt
Keeps-commit_step key stored value flags (write g) h = Keeps-store_reverse key stored _ h
Keeps-commit_step key stored value flags keep h = Keeps-store_reverse key stored _ h

module _ (kernel : Kernel) where
  Keeps-commit_reverse :
      (key : List ℕ) (value : RevFlowValue) (proto t : ℕ)
      → IsOther key
      → Keeps pins (commit_reverse kernel key value proto t)
  unfolding commit_reverse flow_table_get_reverse gc_parity
  Keeps-commit_reverse key value proto t h = Keeps-bind pins _ _ (Keeps-node_of pins _) (λ stored.
      Keeps-bind pins _ _ (Keeps-node_of pins _)
        (λ parity. Keeps-commit_step key stored value _ _ h))

  module _ (flow : PodFlow) (whole : IsPodFlow flow) where
    abbrev IsOtherPair : List ℕ × ℕ → Type 0
    IsOtherPair chosen = IsOther chosen.0

    own_key : (port : ℕ) → IsOther (pod_key flow port reverse)
    own_key port = IsOther-reverse _ (pod_key-direction flow port reverse whole)

    patched_key : (port : ℕ) → IsOther (candidate_key flow port)
    patched_key port = IsOther-reverse _ (
        ap flow_key_direction (candidate_key_lem flow port whole)
        ∙ pod_key-direction flow port reverse whole)

    Yields-remapped : (d : BackendPortDecision) → Yields IsOtherPair (remapped kernel flow d)
    Yields-remapped no_remap = Yields-pure IsOtherPair _ (own_key flow.client_port)
    Yields-remapped (remap port) = Yields-bind IsOtherPair _ _ (λ a.
        Yields-if IsOtherPair a _ _ (Yields-pure IsOtherPair _ (patched_key port))
          (Yields-none IsOtherPair))
    Yields-remapped exhausted = Yields-return IsOtherPair shot

    Yields-backend_port :
        (r : BackendPortResolution) → Yields IsOtherPair (backend_port kernel flow r)
    Yields-backend_port (memoized port) = Yields-pure IsOtherPair _ (own_key port)
    Yields-backend_port probe_port = Yields-bind IsOtherPair _ _ Yields-remapped

    Yields-backend_port_of : Yields IsOtherPair (backend_port_of kernel flow)
    unfolding backend_port_of
    Yields-backend_port_of = Yields-bind IsOtherPair _ _ (λ memo. Yields-backend_port _)

    Keeps-remapped : (d : BackendPortDecision) → Keeps pins (remapped kernel flow d)
    Keeps-remapped no_remap = Keeps-pure pins _
    Keeps-remapped (remap port) =
        Keeps-bind pins _ _
          (Keeps-insert _ _
            (IsOther-port_memo _ (pod_key-direction flow flow.client_port port_memo whole)))
          (λ a. Keeps-if pins a _ _ (Keeps-pure pins _) (Keeps-or_none pins none))
    Keeps-remapped exhausted = Keeps-return pins shot

    Keeps-backend_port : (r : BackendPortResolution) → Keeps pins (backend_port kernel flow r)
    Keeps-backend_port (memoized port) = Keeps-pure pins _
    Keeps-backend_port probe_port = Keeps-bind pins _ _ (Keeps-node_of pins _) Keeps-remapped

    Keeps-backend_port_of : Keeps pins (backend_port_of kernel flow)
    unfolding backend_port_of flow_table_get_port_memo
    Keeps-backend_port_of =
        Keeps-bind pins _ _ (Keeps-node_of pins _) (λ memo. Keeps-backend_port _)

    pub Keeps-record_flow :
        (node_ip : List ℕ) (l4_off : ℕ) → Keeps pins (record_flow kernel flow node_ip l4_off)
    unfolding record_flow
    Keeps-record_flow node_ip l4_off =
        Keeps-bind-Yields IsOtherPair pins _
          (λ chosen other. Keeps-bind pins _ _ (Keeps-tcp_flags pins flow.proto l4_off) (λ t.
            Keeps-then pins _ _ (Keeps-commit_reverse chosen.0 _ flow.proto t other)
              (Keeps-pure pins chosen.1)))
          _ Keeps-backend_port_of Yields-backend_port_of

  guarded : (c : Bool) → Keeps pins (if c then pure tt else return ok)
  guarded c = Keeps-if pins c _ _ (Keeps-pure pins tt) (Keeps-return pins ok)

  module _ (node_ip pod_ip : List ℕ) (target_port : ℕ) (pod_long : length pod_ip ≡ 16) where
    Keeps-v4 : Keeps pins (try_geneve_decap_forward_v4 kernel node_ip pod_ip target_port)
    unfolding try_geneve_decap_forward_v4
    Keeps-v4 =
        let P = pins in
        Keeps-bind P _ _ (Keeps-loaded P _) (λ ver_ihl. Keeps-then P _ _ (guarded _) (
          Keeps-bind P _ _ (Keeps-loaded P _) (λ proto. Keeps-then P _ _ (guarded _) (
            Keeps-bind P _ _ (Keeps-loaded P _) (λ client_ip.
              Keeps-bind P _ _ (Keeps-loaded P _) (λ client_port.
                Keeps-bind P _ _ (Keeps-loaded P _) (λ front_ip.
                  Keeps-bind P _ _ (Keeps-loaded P _) (λ front_port.
                    Keeps-bind P _ _
                      (Keeps-record_flow _
                        (record {
                          client_ip_length = length-ipv4_mapped client_ip;
                          pod_ip_length = pod_long;
                        })
                        node_ip 34)
                      (λ port. Keeps-then P _ _ (Keeps-rewrite_l4_port P kernel 34 34 _ _ proto) (
                        Keeps-bind P _ _ (Keeps-or_none P _) (λ pod.
                          Keeps-then P _ _
                            (Keeps-rewrite_ip_port P kernel 30 front_ip pod 36 _ _ proto)
                            (Keeps-to_host P))))))))))))

    Keeps-v6 : Keeps pins (try_geneve_decap_forward_v6 kernel node_ip pod_ip target_port)
    unfolding try_geneve_decap_forward_v6
    Keeps-v6 =
        let P = pins in
        Keeps-bind P _ _ (Keeps-loaded P _) (λ proto. Keeps-then P _ _ (guarded _) (
          Keeps-loaded_with P _ _ (λ s client_ip got.
            Keeps-bind P _ _ (Keeps-loaded P _) (λ client_port.
              Keeps-bind P _ _ (Keeps-loaded P _) (λ front_ip.
                Keeps-bind P _ _ (Keeps-loaded P _) (λ front_port.
                  Keeps-bind P _ _
                    (Keeps-record_flow _
                      (record {
                        client_ip_length = length-load 16 22 s client_ip got;
                        pod_ip_length = pod_long;
                      })
                      node_ip 54)
                    (λ port. Keeps-then P _ _ (Keeps-rewrite_l4_port P kernel 54 54 _ _ proto) (
                      Keeps-then P _ _ (Keeps-rewrite_ipv6_port P kernel 38 _ _ 56 _ _ proto _ 60)
                        (Keeps-to_host P)))))))))

  length-buffer : (opt : List ℕ) → length (buffer opt) ≡ 24
  length-buffer opt =
      omega (arith, length-take 24 (opt ++ replicate 24 0), length-append opt (replicate 24 0))

  length-decode_pod_id_option :
      (opt pod_ip : List ℕ) (port : ℕ)
      → length opt ≡ 24
      → decode_pod_id_option opt ≡ some (pod_ip, port)
      → length pod_ip ≡ 16
  unfolding decode_pod_id_option
  length-decode_pod_id_option opt pod_ip port h e =
      ground (arith, e, h, length-take 16 (drop 4 opt), length-drop 4 opt)

  received_length :
      (r : OptionRead) (pod : List ℕ × ℕ) → pod_id_option r ≡ some pod → length pod.0 ≡ 16
  received_length negative pod e = absurd (cc e)
  received_length (read_bytes n opt) pod e = elim (Bool-cases (n == pod_id_opt_len)) [
    | inl c ↦
        length-decode_pod_id_option (buffer opt) pod.0 pod.1 (length-buffer opt)
          (sym (exact_length n opt c) ∙ e)
    | inr c ↦ absurd (ground (arith, c, e))
  ]
    where
      exact_length :
          (n : ℕ) (opt : List ℕ)
          → (n == pod_id_opt_len) ≡ true
          → pod_id_option (read_bytes n opt) ≡ decode_pod_id_option (buffer opt)
      exact_length n opt c = rw c refl

  Keeps-forward :
      (tkey : TunnelKey) (used_ipv6 : Bool)
      → Keeps pins (try_geneve_decap_forward kernel tkey used_ipv6)
  unfolding try_geneve_decap_forward
  Keeps-forward tkey used_ipv6 =
      let P = pins in
      Keeps-then P _ _ (Keeps-known_peer P _) (
        Keeps-packet P _ _ (λ s. Keeps-some_or P _ shot (pod_id_option s.received_opt) (λ pod got.
          let long = received_length s.received_opt pod got in
          Keeps-then P _ _ (Keeps-local_pod P pod.0) (
            Keeps-bind P _ _ (Keeps-loaded P _) (λ e.
              Keeps-if P _ _ _ (Keeps-v4 _ pod.0 pod.1 long)
                (Keeps-if P _ _ _ (Keeps-v6 _ pod.0 pod.1 long) (Keeps-pure P ok)))))))

-- A packet of the forward leg makes and rewrites no forward-tagged row of the flow table, and changes
-- nothing in the pending table, whatever helper the kernel refuses: each forward row is afterwards as
-- it was, or it is gone and is one of those that the kernel evicts with the inserts to come.
pub try_geneve_decap_forward-SamePins :
    (kernel : Kernel) (tkey : TunnelKey) (used_ipv6 : Bool) (w : World)
    → let after = (world_of (try_geneve_decap_forward kernel tkey used_ipv6 w)).node in
      ((key : List ℕ)
        → flow_key_direction key ≡ some forward
        → (flow_at after.table key ≡ flow_at w.node.table key)
          ⊎ ((flow_at after.table key ≡ none) × (will_evict w.node.evictions key ≡ true)))
      × (after.pending ≡ w.node.pending)
try_geneve_decap_forward-SamePins kernel tkey used_ipv6 w =
    let kept = (Keeps-forward kernel tkey used_ipv6).kept w tt in (kept.0, kept.1)
