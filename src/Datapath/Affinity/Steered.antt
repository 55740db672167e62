-- ===== src/Datapath/Affinity/Steered.antt =====
-- The answer of the ingress hook (`ingress_backend` of ebpf/src/main.rs) for a flow, and the flow's pin
-- afterwards.
use beep.Common.{
  ℕ, ◌≡◌, refl, sym, ◌∙◌, subst, Bool, true, false, Option, none, some, List, [], ◌∷◌,
}
use beep.Flow.{client}
use beep.Maps.{
  ForwardFlowValue, LbFrontKey, LbFrontBackend, FrontMeta, FrontEndpointKey, FrontEndpoint,
}
use beep.Steer.{front_flow_hash, IngressSteer, drop, ingress_steer, steer_pin}
use beep.Table.{flow_at}
use beep.Datapath.{
  Config, ok, Node, World, Step, next, done, Kernel, Hook, ◌>>=◌, ◌>>◌, pure, return, or_return,
  node_of, change_node, accepted, accepted_by, world_of,
}
use beep.Datapath.Maps.{
  pending_at, fwd_pending_get, fwd_pending_insert, insert_pending, count_front_miss, read_forward,
  flow_table_get_forward,
}
use beep.Datapath.Ingress.{touch_established, pending_pin, steered, ingress_backend}
use beep.Datapath.Affinity.{
  IsPinned, IsEstablished-IsPinned, pin_in, touch_forward_row-Pins, pending_at-insert,
}

module _ (kernel : Kernel) (front : LbFrontKey) (client_ip : List ℕ) (client_port : ℕ)
    (flow_key fwd_key : List ℕ) where
  abbrev answer_of : ℕ → ℕ → Hook (LbFrontBackend × ℕ)
  answer_of i t = ingress_backend kernel front client_ip client_port flow_key fwd_key i t

  abbrev Pinned : Node → LbFrontBackend → ℕ → Type 0
  Pinned = IsPinned kernel flow_key fwd_key

  module _ (i t : ℕ) (meta : FrontMeta) (config : Config) where
    abbrev steer_for :
        (FrontEndpointKey → Option FrontEndpoint)
        → Option ForwardFlowValue
        → Option ForwardFlowValue
        → IngressSteer
    steer_for endpoint_at in_main pending =
        ingress_steer endpoint_at meta in_main pending
          (front_flow_hash config.flow_hash_seed client_ip client_port front meta) front

    -- What is left once the front and the configuration are read.
    abbrev resume : Option ForwardFlowValue → Hook (LbFrontBackend × ℕ)
    resume in_main =
        touch_established fwd_key in_main front.proto t
        >> (pending_pin flow_key in_main >>= λ pending.
            node_of (λ n. n.front_endpoints) >>= λ endpoint_at.
            steered flow_key in_main pending i (steer_for endpoint_at in_main pending))

    resumes :
        (w : World)
        → w.node.front_meta front ≡ some meta
        → w.node.config ≡ some config
        → answer_of i t w ≡ resume (read_forward kernel (flow_at w.node.table fwd_key)) w
    unfolding ingress_backend ◌>>=◌ ◌>>◌ node_of or_return flow_table_get_forward
    resumes w hm hc = rw (hm, hc) refl

    established_answer :
        (v : ForwardFlowValue) (w : World)
        → read_forward kernel (flow_at w.node.table fwd_key) ≡ some v
        → (w' : World) × (resume (some v) w ≡ next (v.backend, v.target_port) w')
          × Pinned w'.node v.backend v.target_port
    unfolding ◌>>=◌ ◌>>◌ pure node_of ingress_steer steer_pin
    established_answer v w e =
        let r = touch_forward_row-Pins kernel fwd_key v front.proto t client w e in
        (
          r.after,
          rw r.goes_on refl,
          IsEstablished-IsPinned kernel flow_key fwd_key r.after.node v.backend v.target_port
              r.still,
        )

    pending_answer :
        (v : ForwardFlowValue) (w : World)
        → pending_at w.node.pending flow_key ≡ some v
        → resume none w ≡ next (v.backend, v.target_port) w
    unfolding ◌>>=◌ ◌>>◌ pure node_of fwd_pending_get ingress_steer steer_pin
    pending_answer v w p = rw p refl

  -- The last step of an answer leaves the flow pinned to it.
  abbrev Answered : Step (LbFrontBackend × ℕ) → Type 0
  Answered (next chosen w) = Pinned w.node chosen.0 chosen.1
  Answered (done v w) = Unit {0}

  abbrev admitted_pin : ℕ → LbFrontBackend → ℕ → ForwardFlowValue
  admitted_pin i b p = record { backend = b; ingress_ifindex = i; target_port = p; flags = 0 }

  new_pin :
      (i : ℕ) (b : LbFrontBackend) (p : ℕ) (n : Node)
      → read_forward kernel (flow_at n.table fwd_key) ≡ none
      → Pinned (insert_pending flow_key (admitted_pin i b p) n) b p
  new_pin i b p n e = record {
    pin = admitted_pin i b p;
    pinned = rw (e, pending_at-insert flow_key (admitted_pin i b p) n) refl;
    backend_eq = refl;
    port_eq = refl;
  }

  minted :
      (i : ℕ) (s : IngressSteer) (w : World) (outcomes : List Bool)
      → w.refused ≡ outcomes
      → read_forward kernel (flow_at w.node.table fwd_key) ≡ none
      → Answered (steered flow_key none none i s w)
  unfolding ◌>>=◌ ◌>>◌ pure return fwd_pending_insert accepted accepted_by change_node
      count_front_miss
  minted i drop w l o e = tt
  minted i (IngressSteer.forward b p) w [] o e = rw o (new_pin i b p w.node e)
  minted i (IngressSteer.forward b p) w (false ∷ l) o e = rw o (new_pin i b p w.node e)
  minted i (IngressSteer.forward b p) w (true ∷ l) o e = rw o tt

  waiting_pin :
      (v : ForwardFlowValue) (n : Node)
      → read_forward kernel (flow_at n.table fwd_key) ≡ none
      → pending_at n.pending flow_key ≡ some v
      → Pinned n v.backend v.target_port
  waiting_pin v n e p = record {
    pin = v;
    pinned = rw (e, p) refl;
    backend_eq = refl;
    port_eq = refl;
  }

  module _ (i t : ℕ) (meta : FrontMeta) (config : Config) (w : World) where
    unpinned :
        (p : Option ForwardFlowValue)
        → pending_at w.node.pending flow_key ≡ p
        → read_forward kernel (flow_at w.node.table fwd_key) ≡ none
        → Answered (resume i t meta config none w)
    unfolding ◌>>=◌ ◌>>◌ pure node_of fwd_pending_get
    unpinned none p e = rw p (minted i _ w _ refl e)
    unpinned (some v) p e =
        subst Answered (sym (pending_answer i t meta config v w p)) (waiting_pin v w.node e p)

    resumed :
        (in_main : Option ForwardFlowValue)
        → read_forward kernel (flow_at w.node.table fwd_key) ≡ in_main
        → Answered (resume i t meta config in_main w)
    resumed none e = unpinned _ refl e
    resumed (some v) e =
        let (w', ran, still) = established_answer i t meta config v w e in
        subst Answered (sym ran) still

  configured :
      (i t : ℕ) (meta : FrontMeta) (w : World) (c : Option Config)
      → w.node.front_meta front ≡ some meta
      → w.node.config ≡ c
      → Answered (answer_of i t w)
  unfolding ingress_backend ◌>>=◌ ◌>>◌ node_of or_return
  configured i t meta w none hm hc = rw (hm, hc) tt
  configured i t meta w (some config) hm hc =
      subst Answered (sym (resumes i t meta config w hm hc)) (resumed i t meta config w _ refl)

  served :
      (i t : ℕ) (w : World) (m : Option FrontMeta)
      → w.node.front_meta front ≡ m
      → Answered (answer_of i t w)
  unfolding ingress_backend ◌>>=◌ ◌>>◌ node_of or_return
  served i t w none hm = rw hm tt
  served i t w (some meta) hm = configured i t meta w _ hm refl

  pub ingress_backend-IsPinned :
      (i t : ℕ) (w w' : World) (backend : LbFrontBackend) (port : ℕ)
      → ingress_backend kernel front client_ip client_port flow_key fwd_key i t w
        ≡ next (backend, port) w'
      → IsPinned kernel flow_key fwd_key w'.node backend port
  ingress_backend-IsPinned i t w w' b p e = subst Answered e (served i t w _ refl)

  module _ (i t : ℕ) (meta : FrontMeta) (config : Config) (w : World) where
    follows :
        (in_main pending : Option ForwardFlowValue) (v : ForwardFlowValue)
        → read_forward kernel (flow_at w.node.table fwd_key) ≡ in_main
        → pending_at w.node.pending flow_key ≡ pending
        → pin_in kernel flow_key fwd_key in_main pending ≡ some v
        → (w' : World) × (resume i t meta config in_main w ≡ next (v.backend, v.target_port) w')
    follows none none v e p h = absurd (cc h)
    follows none (some q) v e p h =
        let eq : q ≡ v = cc h in
        (
          w,
          subst
              (λ (u : ForwardFlowValue).
                resume i t meta config none w ≡ next (u.backend, u.target_port) w)
              eq (pending_answer i t meta config q w p),
        )
    follows (some q) pending v e p h =
        let eq : q ≡ v = cc h in
        let (w', ran, still) = established_answer i t meta config q w e in
        (
          w',
          subst
              (λ (u : ForwardFlowValue).
                resume i t meta config (some q) w ≡ next (u.backend, u.target_port) w')
              eq ran,
        )

  -- A pinned flow is answered with its backend and port, as long as the front and the configuration
  -- can be read.
  pub IsPinned-ingress_backend :
      (i t : ℕ) (w : World) (backend : LbFrontBackend) (port : ℕ) (meta : FrontMeta)
      (config : Config)
      → IsPinned kernel flow_key fwd_key w.node backend port
      → w.node.front_meta front ≡ some meta
      → w.node.config ≡ some config
      → (after : World) × (ingress_backend kernel front client_ip client_port flow_key fwd_key i t w
          ≡ next (backend, port) after)
  IsPinned-ingress_backend i t w backend port meta config was hm hc =
      let (after, ran) = follows i t meta config w _ _ was.pin refl refl was.pinned in
      (after, resumes i t meta config w hm hc ∙ ran ∙ rw (was.backend_eq, was.port_eq) refl)

  -- And it stays pinned, even if they cannot.
  module _ (i t : ℕ) (w : World) (backend : LbFrontBackend) (port : ℕ)
      (was : IsPinned kernel flow_key fwd_key w.node backend port) where
    abbrev StillPinned : Step (LbFrontBackend × ℕ) → Type 0
    StillPinned s = IsPinned kernel flow_key fwd_key (world_of s).node backend port

    unread :
        (m : Option FrontMeta) (c : Option Config)
        → w.node.front_meta front ≡ m
        → w.node.config ≡ c
        → StillPinned (answer_of i t w)
    unfolding ingress_backend ◌>>=◌ ◌>>◌ node_of or_return
    unread none c hm hc = rw hm was
    unread (some meta) none hm hc =
        let ended : answer_of i t w ≡ done (some ok) w = simp (hm, hc) in
        subst StillPinned (sym ended) was
    unread (some meta) (some config) hm hc =
        let (after, ran) = IsPinned-ingress_backend i t w backend port meta config was hm hc in
        subst StillPinned (sym ran) (ingress_backend-IsPinned i t w after backend port ran)

    pub ingress_backend-StillPinned :
        IsPinned kernel flow_key fwd_key
          (world_of
            (ingress_backend kernel front client_ip client_port flow_key fwd_key i t w)).node
          backend
          port
    ingress_backend-StillPinned = unread _ _ refl refl
