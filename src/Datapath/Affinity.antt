-- ===== src/Datapath/Affinity.antt =====
-- A flow's pin (ebpf/src/main.rs), which says where its packets go: what it is, and how an insert and a
-- refresh leave it.
pub mod Steered
pub mod Promoted
pub mod History
use beep.Common.{
  ℕ, ◌≡◌, ◌⊎◌, refl, sym, ◌∙◌, ap, Bool, true, false, not, Option, none, some, List, [], ◌∷◌,
  if◌then◌else◌, is_yes, is_yes-true, Option-cases, Bool-cases, inl, inr, arith,
}
use beep.Common.Assoc.{lookup-insert, is_yes_iff, lookup, insert, remove}
use beep.Flow.{FlowStep, keep, write, skip, FlowSide, client, flow_step}
use beep.Maps.{ForwardFlowValue, LbFrontKey, LbFrontBackend, FrontMeta, Bytes-discrete}
use beep.Steer.{front_flow_hash, IngressSteer, drop, ingress_steer, steer_pin}
use beep.Table.{FlowValue, forward_value, Table, flow_at}
use beep.Table.Evict.{Pending}
use beep.Datapath.{
  Config, Node, World, Step, next, done, Kernel, Verdict, ok, shot, Hook, ◌>>=◌, ◌>>◌, pure, return,
  or_return, node_of, change_node, accepted, accepted_by,
}
use beep.Datapath.Maps.{
  left_by, evicted_now, insert_flow, flow_table_insert, pending_at, fwd_pending_get,
  fwd_pending_insert, insert_pending, count_front_miss, gc_parity, parity_of, read_forward,
  flow_table_get_forward, write_forward, touch_forward_row,
}
use beep.Datapath.Ingress.{touch_established, pending_pin, steered, ingress_backend, seed_of}

module _ (kernel : Kernel) (flow_key fwd_key : List ℕ) where
  -- The flow's pin: of its row in the flow table, or of the pending one if it has none there.
  abbrev pub pin_in : Option ForwardFlowValue → Option ForwardFlowValue → Option ForwardFlowValue
  pin_in (some v) pending = some v
  pin_in none pending = pending

  abbrev pub pin_at : Node → Option ForwardFlowValue
  pin_at n = pin_in (read_forward kernel (flow_at n.table fwd_key)) (pending_at n.pending flow_key)

  -- The flow is pinned to a backend and a port.
  pub record IsPinned (n : Node) (backend : LbFrontBackend) (port : ℕ) : Type 0 where
    pub pin : ForwardFlowValue
    pub pinned : pin_at n ≡ some pin
    pub backend_eq : pin.backend ≡ backend
    pub port_eq : pin.target_port ≡ port

-- The flow has a row of its own in the flow table, for a backend and a port.
pub record IsEstablished (kernel : Kernel) (fwd_key : List ℕ) (n : Node) (backend : LbFrontBackend)
    (port : ℕ) : Type 0 where
  pub row : ForwardFlowValue
  pub established : read_forward kernel (flow_at n.table fwd_key) ≡ some row
  pub backend_eq : row.backend ≡ backend
  pub port_eq : row.target_port ≡ port

pub IsEstablished-IsPinned :
    (kernel : Kernel) (flow_key fwd_key : List ℕ) (n : Node) (backend : LbFrontBackend) (port : ℕ)
    → IsEstablished kernel fwd_key n backend port
    → IsPinned kernel flow_key fwd_key n backend port
IsEstablished-IsPinned kernel flow_key fwd_key n backend port h = record {
  pin = h.row;
  pinned = rw h.established refl;
  backend_eq = h.backend_eq;
  port_eq = h.port_eq;
}

-- The row under a key that was just inserted.
pub flow_at-insert :
    (key : List ℕ) (value : FlowValue) (n : Node)
    → flow_at (insert_flow key value n).table key ≡ some value
flow_at-insert key value n =
    lookup-insert Bytes-discrete key key value (left_by (evicted_now n.evictions) n.table)
    ∙ rw (is_yes-true (Bytes-discrete key key) refl) refl

pub pending_at-insert :
    (key : List ℕ) (value : ForwardFlowValue) (n : Node)
    → pending_at (insert_pending key value n).pending key ≡ some value
pending_at-insert key value n =
    lookup-insert Bytes-discrete key key value (left_by (evicted_now n.pending_evictions) n.pending)
    ∙ rw (is_yes-true (Bytes-discrete key key) refl) refl

module _ (kernel : Kernel) (fwd_key : List ℕ) where
  -- A step that ends with the flow established with the backend of a value.
  pub record Pins {A : Type 0} (v : ForwardFlowValue) (a : A) (s : Step A) : Type 0 where
    pub after : World
    pub goes_on : s ≡ next a after
    pub still : IsEstablished kernel fwd_key after.node v.backend v.target_port

  inserted_pin :
      (v : ForwardFlowValue) (flags : ℕ) (n : Node)
      → IsEstablished kernel fwd_key
          (insert_flow fwd_key (forward_value (record v { flags = flags })) n)
          v.backend
          v.target_port
  inserted_pin v flags n = record {
    row = record v { flags = flags };
    established = rw (flow_at-insert fwd_key (forward_value (record v { flags = flags })) n) refl;
    backend_eq = refl;
    port_eq = refl;
  }

  pub own_pin :
      (v : ForwardFlowValue) (n : Node)
      → read_forward kernel (flow_at n.table fwd_key) ≡ some v
      → IsEstablished kernel fwd_key n v.backend v.target_port
  own_pin v n e = record { row = v; established = rw e refl; backend_eq = refl; port_eq = refl }

  -- The kernel's outcome of the refresh, by cases.
  refreshed :
      (v : ForwardFlowValue) (w : World) (step : FlowStep) (outcomes : List Bool)
      → w.refused ≡ outcomes
      → read_forward kernel (flow_at w.node.table fwd_key) ≡ some v
      → Pins v tt (write_forward fwd_key v step w)
  unfolding write_forward flow_table_insert ◌>>=◌ ◌>>◌ pure accepted accepted_by change_node
  refreshed v w keep l o e = record { after = w; goes_on = refl; still = own_pin v w.node e }
  refreshed v w skip l o e = record { after = w; goes_on = refl; still = own_pin v w.node e }
  refreshed v w (write flags) [] o e = record {
    after = record w {
      node = insert_flow fwd_key (forward_value (record v { flags = flags })) w.node;
    };
    goes_on = rw o refl;
    still = inserted_pin v flags w.node;
  }
  refreshed v w (write flags) (false ∷ l) o e = record {
    after = record w {
      node = insert_flow fwd_key (forward_value (record v { flags = flags })) w.node;
      refused = l;
    };
    goes_on = rw o refl;
    still = inserted_pin v flags w.node;
  }
  refreshed v w (write flags) (true ∷ l) o e = record {
    after = record w { refused = l };
    goes_on = rw o refl;
    still = own_pin v w.node e;
  }

  pub touch_forward_row-Pins :
      (v : ForwardFlowValue) (proto t : ℕ) (side : FlowSide) (w : World)
      → read_forward kernel (flow_at w.node.table fwd_key) ≡ some v
      → Pins v tt (touch_forward_row fwd_key v proto t side w)
  unfolding touch_forward_row ◌>>=◌ gc_parity node_of
  touch_forward_row-Pins v proto t side w e =
      refreshed v w (flow_step (some v.flags) proto t side (parity_of w.node.config)) _ refl e
