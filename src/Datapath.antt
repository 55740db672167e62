-- ===== src/Datapath.antt =====
-- The state that the eBPF programs (ebpf/src/main.rs) work on: the maps of a node and the packet with
-- its context. A hook is a chain of steps that may end it early. The kernel may refuse any map insert
-- and any call of a packet helper: the outcomes to come stand in a list, and nothing is refused behind
-- its end. An insert into an LRU map may evict any rows: the keys that go with each insert to come
-- stand in a list too, and nothing is evicted behind its end.
pub mod Maps
pub mod Evict
pub mod Frame
pub mod Echo
mod Tests
pub mod Reply
pub mod Affinity
pub mod Peers
pub mod Forward
pub mod Untracked
pub mod Carry
pub mod Record
pub mod Backend
pub mod Return
pub mod Egress
pub mod Ingress
pub mod Parse
pub mod Tunnel
pub mod Packet
use beep.Common.{ℕ, Bool, true, false, not, Option, none, some, List, [], ◌∷◌, if◌then◌else◌, ◌≡◌}
use beep.Maps.{
  LbFrontKey, FrontMeta, FrontEndpointKey, FrontEndpoint, ForwardFlowValue, RevFlowValue,
}
use beep.Table.{FlowValue, Table}
use beep.Table.Evict.{Pending}

pub record Config : Type 0 where
  pub geneve_ifindex : ℕ
  pub udp_parity : ℕ
  pub tcp_parity : ℕ
  pub flow_hash_seed : ℕ

-- `UPLINK_CONFIG` gives the `l2_hlen` of an interface, `NODE_ALLOW` and `POD_TARGETS` are the keys of
-- their maps, and `misses` is the counter of this CPU. `evictions` and `pending_evictions` are the keys
-- that the kernel evicts with the inserts to come into the flow table and the pending one, which are
-- LRU maps.
pub record Node : Type 0 where
  pub front_meta : LbFrontKey → Option FrontMeta
  pub front_endpoints : FrontEndpointKey → Option FrontEndpoint
  pub uplinks : ℕ → Option ℕ
  pub node_allow : List (List ℕ)
  pub pod_targets : List (List ℕ)
  pub config : Option Config
  pub pending : Pending
  pub table : Table
  pub misses : ℕ
  pub evictions : List (List (List ℕ))
  pub pending_evictions : List (List (List ℕ))

-- `bpf_tunnel_key`, as far as the programs use it. The union of the remote addresses is its four words.
pub record TunnelKey : Type 0 where
  pub tunnel_id : ℕ
  pub tunnel_ttl : ℕ
  pub remote : List ℕ

-- What `bpf_skb_get_tunnel_opt` returns and leaves in the buffer.
pub data OptionRead : Type 0 where
  negative : OptionRead
  read_bytes : ℕ → List ℕ → OptionRead

-- Where a redirected packet goes.
pub data Target : Type 0 where
  device neighbour : ℕ → Target

-- `data` are the bytes of the packet, the first `linear` of them in its linear head. `tunnel_v4` and
-- `tunnel_v6` are the answers of `bpf_skb_get_tunnel_key` for either family.
pub record Skb : Type 0 where
  pub data_bytes : List ℕ
  pub linear : ℕ
  pub ifindex : ℕ
  pub ingress_ifindex : ℕ
  pub mark : ℕ
  pub to_host : Bool
  pub tunnel_v4 : Option TunnelKey
  pub tunnel_v6 : Option TunnelKey
  pub received_opt : OptionRead
  pub sent_key : Option (TunnelKey × Bool)
  pub sent_opt : List ℕ
  pub target : Option Target

-- `TC_ACT_OK`, `TC_ACT_SHOT` and `TC_ACT_REDIRECT`
pub data Verdict : Type 0 where
  ok shot redirected : Verdict

pub record World : Type 0 where
  pub node : Node
  pub skb : Skb
  pub refused : List Bool

-- What is not in the source: the bytes that a read of a union's other arm gives, and the checksum
-- updates of the kernel, at an offset and from an old to a new value of a size.
pub record Kernel : Type 0 where
  pub misread_forward : FlowValue → ForwardFlowValue
  pub misread_reverse : FlowValue → RevFlowValue
  pub misread_port_memo : FlowValue → ℕ
  pub l3_csum_replace : ℕ → ℕ → ℕ → ℕ → List ℕ → List ℕ
  pub l4_csum_replace : ℕ → ℕ → ℕ → ℕ → List ℕ → List ℕ

-- A step goes on with a value, or the hook is done: with a verdict, or with the `None` that its caller
-- turns into one.
pub data Step (A : Type 0) : Type 0 where
  next : A → World → Step A
  done : Option Verdict → World → Step A

abbrev pub Hook : Type 0 → Type 0
Hook A = World → Step A

abbrev pub then_step : {A B : Type 0} → (A → Hook B) → Step A → Step B
then_step f (next a w) = f a w
then_step f (done v w) = done v w

infixl 5 ◌>>=◌ ◌>>◌
unfoldable pub ◌>>=◌ : {A B : Type 0} → Hook A → (A → Hook B) → Hook B
◌>>=◌ m f w = then_step f (m w)

unfoldable pub ◌>>◌ : {B : Type 0} → Hook (Unit {0}) → Hook B → Hook B
unfolding ◌>>=◌
m >> k = m >>= λ _. k

unfoldable pub pure : {A : Type 0} → A → Hook A
pure a w = next a w

unfoldable pub return : {A : Type 0} → Verdict → Hook A
return v w = done (some v) w

-- `?` on an `Option`
unfoldable pub or_none : {A : Type 0} → Option A → Hook A
or_none (some a) w = next a w
or_none none w = done none w

unfoldable pub or_return : {A : Type 0} → Verdict → Option A → Hook A
or_return v (some a) w = next a w
or_return v none w = done (some v) w

unfoldable pub node_of : {A : Type 0} → (Node → A) → Hook A
node_of f w = next (f w.node) w

unfoldable pub skb_of : {A : Type 0} → (Skb → A) → Hook A
skb_of f w = next (f w.skb) w

unfoldable pub change_node : (Node → Node) → Hook (Unit {0})
change_node f w = next tt (record w { node = f w.node })

unfoldable pub change_skb : (Skb → Skb) → Hook (Unit {0})
change_skb f w = next tt (record w { skb = f w.skb })

abbrev pub unless : Bool → Hook (Unit {0}) → Hook (Unit {0})
unless true m = pure tt
unless false m = m

-- Does the kernel accept the next call?
unfoldable pub accepted_by : List Bool → World → Step Bool
accepted_by [] w = next true w
accepted_by (r ∷ later) w = next (not r) (record w { refused = later })

unfoldable pub accepted : Hook Bool
unfolding accepted_by
accepted w = accepted_by w.refused w

-- The next call, whose refusal ends the hook with a verdict.
unfoldable pub accepted_or : Verdict → Hook (Unit {0})
accepted_or v = accepted >>= λ a. if a then pure tt else return v

-- The same with `?`.
unfoldable pub accepted_or_none : Hook (Unit {0})
accepted_or_none = accepted >>= λ a. if a then pure tt else or_none none

-- Where a hook ends.
abbrev pub world_of : {A : Type 0} → Step A → World
world_of (next a w) = w
world_of (done v w) = w

-- `unwrap_or`
abbrev pub verdict_of : Verdict → Step Verdict → Verdict
verdict_of default (next v w) = v
verdict_of default (done (some v) w) = v
verdict_of default (done none w) = default
