-- ===== src/Datapath/Affinity/History.antt =====
-- What may become of a flow between two of its packets (ebpf/src/main.rs): packets from its client,
-- replies, and whatever leaves its pin alone.
use beep.Common.{ℕ, ◌≡◌, sym, ◌∙◌, subst, false, some, List}
use beep.Flow.Lifecycle.{refuses}
use beep.Maps.{ForwardFlowValue, LbFrontKey, LbFrontBackend, FrontMeta}
use beep.Wire.{encode_tcp_flow_key, encode_flow_key, forward}
use beep.Datapath.{Config, World, Step, next, Kernel, world_of}
use beep.Datapath.Ingress.{ingress_backend}
use beep.Datapath.Return.{return_pin}
use beep.Datapath.Affinity.{IsPinned, IsEstablished-IsPinned, pin_at}
use beep.Datapath.Affinity.Steered.{
  ingress_backend-IsPinned, IsPinned-ingress_backend, ingress_backend-StillPinned,
}
use beep.Datapath.Affinity.Promoted.{Promoted, goes_on, refused_insert, return_pin_lem}

module _ (kernel : Kernel) (front : LbFrontKey) (client_ip : List ℕ) (client_port : ℕ) where
  abbrev pub own_key : List ℕ
  own_key = encode_tcp_flow_key client_ip client_port front.front_ip front.front_port front.proto

  abbrev pub own_fwd_key : List ℕ
  own_fwd_key =
      encode_flow_key client_ip client_port front.front_ip front.front_port front.proto forward

  -- The hook's answer for a packet of the flow, from an uplink and with TCP flags.
  abbrev pub answer : ℕ → ℕ → World → Step (LbFrontBackend × ℕ)
  answer i t w = ingress_backend kernel front client_ip client_port own_key own_fwd_key i t w

  abbrev pub reply_pin : ℕ → World → Step ForwardFlowValue
  reply_pin t w =
      return_pin kernel client_ip client_port front.front_ip front.front_port front.proto t w

  -- Any number of steps: a packet of the flow, a reply to it that is no RST, or anything that leaves
  -- the flow's pin as it is, such as other flows, evictions of other rows, and writes to the fronts and
  -- the configuration.
  pub data History (w : World) : World → Type 0 where
    start : History w w
    packet :
        (i t : ℕ) (before after : World)
        → History w before
        → after ≡ world_of (answer i t before)
        → History w after
    reply :
        (t : ℕ) (before after : World)
        → History w before
        → refuses false front.proto t ≡ false
        → after ≡ world_of (reply_pin t before)
        → History w after
    elsewhere :
        (before after : World)
        → History w before
        → pin_at kernel own_key own_fwd_key after.node
          ≡ pin_at kernel own_key own_fwd_key before.node
        → History w after

  abbrev Pinned : World → LbFrontBackend → ℕ → Type 0
  Pinned w backend port = IsPinned kernel own_key own_fwd_key w.node backend port

  module _ (backend : LbFrontBackend) (port : ℕ) where
    after_reply :
        (v : ForwardFlowValue) (w : World) (s : Step ForwardFlowValue)
        → v.backend ≡ backend
        → v.target_port ≡ port
        → Pinned w backend port
        → Promoted kernel own_key own_fwd_key v w s
        → Pinned (world_of s) backend port
    after_reply v w s b p was (goes_on v' w' i h) =
        let pinned =
          IsEstablished-IsPinned kernel own_key own_fwd_key w'.node v.backend v.target_port h in
        record {
          pin = pinned.pin;
          pinned = pinned.pinned;
          backend_eq = pinned.backend_eq ∙ b;
          port_eq = pinned.port_eq ∙ p;
        }
    after_reply v w s b p was (refused_insert later o e) = was

    History-Pinned :
        (w later : World) → Pinned w backend port → History w later → Pinned later backend port
    History-Pinned w later was start = was
    History-Pinned w later was (packet i t before after h e) =
        subst (λ (u : World). Pinned u backend port) (sym e)
          (ingress_backend-StillPinned kernel front client_ip client_port own_key own_fwd_key i t
            before backend port (History-Pinned w before was h))
    History-Pinned w later was (reply t before after h r e) =
        let still = History-Pinned w before was h in
        let promoted =
          (return_pin_lem kernel client_ip client_port front.front_ip front.front_port front.proto t
              before).1
            still.pin still.pinned r in
        subst (λ (u : World). Pinned u backend port) (sym e)
          (after_reply still.pin before _ still.backend_eq still.port_eq still promoted)
    History-Pinned w later was (elsewhere before after h same) =
        let still = History-Pinned w before was h in
        record {
          pin = still.pin;
          pinned = same ∙ still.pinned;
          backend_eq = still.backend_eq;
          port_eq = still.port_eq;
        }

-- Once the ingress hook has sent a packet of a flow to a backend and port, it sends the flow's later
-- packets there, from any uplink and with any TCP flags. In between there may be any number of the
-- flow's packets and of replies that are no RST, with any inserts refused and any rows evicted by the
-- kernel on the way, and anything else that leaves the flow's pin as it is, whatever becomes of the
-- front's endpoints, counts and generation. The front must exist and the configuration be readable
-- when the later packet comes.
pub ingress_backend_affinity :
    (kernel : Kernel) (front : LbFrontKey) (client_ip : List ℕ) (client_port i t i' t' : ℕ)
    (w w' later : World) (backend : LbFrontBackend) (port : ℕ) (meta : FrontMeta) (config : Config)
    → answer kernel front client_ip client_port i t w ≡ next (backend, port) w'
    → History kernel front client_ip client_port w' later
    → later.node.front_meta front ≡ some meta
    → later.node.config ≡ some config
    → (after : World) × (answer kernel front client_ip client_port i' t' later
        ≡ next (backend, port) after)
ingress_backend_affinity kernel front client_ip client_port i t i' t' w w' later backend port meta
      config e history hm hc =
    let key = own_key kernel front client_ip client_port in
    let fwd_key = own_fwd_key kernel front client_ip client_port in
    let was =
      ingress_backend-IsPinned kernel front client_ip client_port key fwd_key i t w w' backend port
        e in
    IsPinned-ingress_backend kernel front client_ip client_port key fwd_key i' t' later backend port
      meta config
      (History-Pinned kernel front client_ip client_port backend port w' later was history) hm hc
