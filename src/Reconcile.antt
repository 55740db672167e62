-- ===== src/Reconcile.antt =====
-- What a service wants (controller/src/reconcile.rs): the endpoints of its fronts in their order, the pods
-- that this node serves, and the endpoints that it refuses.
pub mod Address
pub mod Local
pub mod Targets
mod Tests
use beep.Common.{
  ℕ, ◌+◌, ◌-◌, ◌*◌, ◌%◌, ◌^◌, Bool, true, false, not, ◌&&◌, ◌||◌, Option, none, some, List, [], ◌∷◌,
  ◌++◌, ◌==◌, ltb, if◌then◌else◌, bit_and, map,
}
use beep.Common.Assoc.{insert}
use beep.Flow.{ipproto_tcp, ipproto_udp}
use beep.Maps.{
  LbFrontKey, FrontEndpoint, endpoint_flag_is_local, front_flag_client_ip_affinity, u32_mod,
  LbFrontKey-discrete,
}
use beep.Wire.{ipv4_mapped_v6, wire_ip, wire_port, bytes_eq}
use beep.FrontSwap.{DesiredFront}
use beep.Reconcile.Address.{
  IpAddr, is_ipv4, bool_eq, ip_eq, contains_ip, bytes_before, ip_before, wire_ip_v6,
  tunnel_remote_v6, Cidr, cidr_mask, new_cidr, cidr_contains, PodCidrs, of_octets, some_contains,
  pod_cidrs_contain, v4, v6,
}

pub data Protocol : Type 0 where
  tcp udp : Protocol

abbrev pub as_ip_proto : Protocol → ℕ
as_ip_proto tcp = ipproto_tcp
as_ip_proto udp = ipproto_udp

pub record NodeContext : Type 0 where
  pub node_ip : IpAddr
  pub pod_cidr : PodCidrs

pub data EndpointPolicy : Type 0 where
  uniform prefer_local only_local : EndpointPolicy

pub record ServicePort : Type 0 where
  pub port : ℕ
  pub protocol : Protocol
  pub target_port : ℕ

pub record ServiceView : Type 0 where
  pub front_ip : IpAddr
  pub policy : EndpointPolicy
  pub client_ip_affinity : Bool
  pub ports : List ServicePort

pub record Endpoint : Type 0 where
  pub pod_ip : IpAddr
  pub node_ip : IpAddr
  pub node_addrs : List IpAddr
  pub ready : Bool
  pub terminating : Bool
  pub serving : Bool
  pub ports : List ℕ

abbrev pub is_local : IpAddr → Endpoint → Bool
is_local node_ip ep = contains_ip ep.node_addrs node_ip

unfoldable pub is_admitted : NodeContext → Endpoint → Bool
unfolding pod_cidrs_contain
is_admitted node ep =
    pod_cidrs_contain node.pod_cidr ep.pod_ip || contains_ip ep.node_addrs ep.pod_ip

-- Lists: `filter`, and the stable sort by an order of keys.
module _ {ℓ} {A : Type ℓ} where
  abbrev pub filter : (A → Bool) → List A → List A
  filter test [] = []
  filter test (x ∷ xs) = let rest = filter test xs in if test x then x ∷ rest else rest

  abbrev pub sorted_insert : (A → A → Bool) → A → List A → List A
  sorted_insert before x [] = x ∷ []
  sorted_insert before x (y ∷ ys) =
      let rest = sorted_insert before x ys in if before y x then y ∷ rest else x ∷ y ∷ ys

  abbrev pub sort_by : (A → A → Bool) → List A → List A
  sort_by before [] = []
  sort_by before (x ∷ xs) = sorted_insert before x (sort_by before xs)

  abbrev pub is_empty : List A → Bool
  is_empty [] = true
  is_empty (x ∷ xs) = false

abbrev pub is_ready : Endpoint → Bool
is_ready ep = ep.ready && not ep.terminating

abbrev pub is_draining : Endpoint → Bool
is_draining ep = ep.serving && ep.terminating

unfoldable pub local_usable_endpoints : List Endpoint → IpAddr → List Endpoint
local_usable_endpoints candidates node_ip =
    let local_ready = filter (λ ep. is_local node_ip ep && is_ready ep) candidates in
    if is_empty local_ready
    then filter (λ ep. is_local node_ip ep && is_draining ep) candidates
    else local_ready

abbrev pub by_ip : Endpoint → Endpoint → Bool
by_ip a b = ip_before a.pod_ip b.pod_ip

-- By the key `(!is_local, pod_ip)`.
abbrev pub local_first : IpAddr → Endpoint → Endpoint → Bool
local_first node_ip a b =
    if bool_eq (is_local node_ip a) (is_local node_ip b) then by_ip a b else is_local node_ip a

unfoldable pub eligible_endpoints : EndpointPolicy → List Endpoint → IpAddr → List Endpoint
unfolding local_usable_endpoints
eligible_endpoints uniform candidates node_ip = sort_by by_ip (filter is_ready candidates)
eligible_endpoints prefer_local candidates node_ip =
    sort_by (local_first node_ip) (filter is_ready candidates)
eligible_endpoints only_local candidates node_ip =
    let usable = local_usable_endpoints candidates node_ip in
    sort_by by_ip (if is_empty usable then filter is_ready candidates else usable)

abbrev pub any_endpoint : (Endpoint → Bool) → List Endpoint → Bool
any_endpoint test [] = false
any_endpoint test (ep ∷ eps) = test ep || any_endpoint test eps

abbrev pub publishes_local : List Endpoint → IpAddr → Bool
publishes_local same_family node_ip =
    not (any_endpoint (λ ep. is_ready ep || is_draining ep) same_family)
    || not (is_empty (local_usable_endpoints same_family node_ip))

unfoldable pub publishes_ingress : EndpointPolicy → List Endpoint → IpAddr → Bool → Bool
unfolding local_usable_endpoints
publishes_ingress uniform endpoints node_ip family_is_v4 = true
publishes_ingress prefer_local endpoints node_ip family_is_v4 = true
publishes_ingress only_local endpoints node_ip family_is_v4 =
    publishes_local (filter (λ ep. bool_eq (is_ipv4 ep.pod_ip) family_is_v4) endpoints) node_ip

unfoldable pub front_key : IpAddr → ServicePort → LbFrontKey
unfolding wire_ip_v6 wire_port
front_key front_ip port = record {
  front_ip = wire_ip_v6 front_ip;
  front_port = wire_port port.port;
  proto = as_ip_proto port.protocol;
}

-- The endpoints of all slices, in order; the two loops over them.
unfoldable pub pod_targets_for_node : List Endpoint → NodeContext → List (List ℕ)
unfolding is_admitted wire_ip_v6
pod_targets_for_node [] node = []
pod_targets_for_node (ep ∷ eps) node =
    let rest = pod_targets_for_node eps node in
    if is_local node.node_ip ep && is_admitted node ep then wire_ip_v6 ep.pod_ip ∷ rest else rest

unfoldable pub rejected_endpoints_for_node : List Endpoint → NodeContext → List IpAddr
unfolding is_admitted
rejected_endpoints_for_node [] node = []
rejected_endpoints_for_node (ep ∷ eps) node =
    let rest = rejected_endpoints_for_node eps node in
    if is_local node.node_ip ep && not (is_admitted node ep) then ep.pod_ip ∷ rest else rest

abbrev pub has_port : ℕ → List ℕ → Bool
has_port port [] = false
has_port port (p ∷ ports) = p == port || has_port port ports

abbrev pub same_family : IpAddr → Endpoint → Bool
same_family front_ip ep = bool_eq (is_ipv4 ep.pod_ip) (is_ipv4 front_ip)

unfoldable pub front_endpoint : IpAddr → ℕ → Endpoint → FrontEndpoint
unfolding tunnel_remote_v6 wire_ip_v6 wire_port
front_endpoint node_ip target_port ep = record {
  backend = record { backend_node_ip = tunnel_remote_v6 ep.node_ip; pod_ip = wire_ip_v6 ep.pod_ip };
  target_port = wire_port target_port;
  flags = if is_local node_ip ep then endpoint_flag_is_local else 0;
}

abbrev pub prefers_local : EndpointPolicy → Bool
prefers_local uniform = false
prefers_local prefer_local = true
prefers_local only_local = true

-- The front of one port.
unfoldable pub desired_front : ServiceView → List Endpoint → IpAddr → ServicePort → DesiredFront
unfolding eligible_endpoints front_endpoint
desired_front svc endpoints node_ip port =
    let matching =
      filter (λ ep. has_port port.target_port ep.ports && same_family svc.front_ip ep) endpoints in
    record {
      flags = if svc.client_ip_affinity then front_flag_client_ip_affinity else 0;
      prefer_local = prefers_local svc.policy;
      endpoints =
          map (front_endpoint node_ip port.target_port)
            (eligible_endpoints svc.policy matching node_ip);
    }

pub record DesiredEntries : Type 0 where
  pub fronts : List (LbFrontKey × DesiredFront)
  pub pod_targets : List (List ℕ)
  pub rejected : List IpAddr

-- The loop over the ports: a later port replaces the front of an earlier one under the same key.
unfoldable pub insert_fronts :
    ServiceView
    → List Endpoint
    → IpAddr
    → List (LbFrontKey × DesiredFront)
    → List ServicePort
    → List (LbFrontKey × DesiredFront)
unfolding front_key desired_front
insert_fronts svc endpoints node_ip fronts [] = fronts
insert_fronts svc endpoints node_ip fronts (port ∷ ports) =
    insert_fronts svc endpoints node_ip
      (insert LbFrontKey-discrete (front_key svc.front_ip port)
        (desired_front svc endpoints node_ip port) fronts)
      ports

unfoldable pub reconcile_service : ServiceView → List Endpoint → NodeContext → DesiredEntries
unfolding pod_targets_for_node rejected_endpoints_for_node insert_fronts
reconcile_service svc endpoints node = record {
  fronts = insert_fronts svc endpoints node.node_ip [] svc.ports;
  pod_targets = pod_targets_for_node endpoints node;
  rejected = rejected_endpoints_for_node endpoints node;
}

abbrev pub serving : ServiceView → List Endpoint → ServicePort → Bool → Bool
serving svc endpoints port same =
    any_endpoint
      (λ ep.
        is_ready ep
        && has_port port.target_port ep.ports
        && bool_eq (same_family svc.front_ip ep) same)
      endpoints

unfoldable pub ports_without_same_family_endpoint : ServiceView → List Endpoint → List ServicePort
ports_without_same_family_endpoint svc endpoints =
    filter (λ p. not (serving svc endpoints p true) && serving svc endpoints p false) svc.ports
