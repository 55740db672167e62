-- ===== src/Reconcile/Targets.antt =====
-- The pods that a node serves, and those that it refuses (controller/src/reconcile.rs).
use beep.Common.{ℕ, ◌≡◌, refl, Bool, not, ◌&&◌, List, [], ◌∷◌, is_yes, Bool-cases, inl, inr}
use beep.Maps.{Bytes-discrete}
use beep.Table.Lookup.{has_key}
use beep.Reconcile.{
  Endpoint, NodeContext, is_local, is_admitted, any_endpoint, pod_targets_for_node,
  rejected_endpoints_for_node, ServiceView, reconcile_service,
}
use beep.Reconcile.Address.{IpAddr, wire_ip_v6, contains_ip, ip_eq}

abbrev pub is_target : NodeContext → List ℕ → Endpoint → Bool
is_target node address ep =
    (is_local node.node_ip ep && is_admitted node ep)
    && is_yes (Bytes-discrete (wire_ip_v6 ep.pod_ip) address)

abbrev pub is_refused : NodeContext → IpAddr → Endpoint → Bool
is_refused node ip ep =
    (is_local node.node_ip ep && not (is_admitted node ep)) && ip_eq ep.pod_ip ip

targets_lem :
    (eps : List Endpoint) (node : NodeContext) (address : List ℕ)
    → has_key address (pod_targets_for_node eps node) ≡ any_endpoint (is_target node address) eps
unfolding pod_targets_for_node
targets_lem [] node address = refl
targets_lem (ep ∷ eps) node address =
    elim (Bool-cases (is_local node.node_ip ep && is_admitted node ep)) [
      | inl e ↦ rw (e, targets_lem eps node address) refl
      | inr e ↦ rw (e, targets_lem eps node address) refl
    ]

rejected_lem :
    (eps : List Endpoint) (node : NodeContext) (ip : IpAddr)
    → contains_ip (rejected_endpoints_for_node eps node) ip ≡ any_endpoint (is_refused node ip) eps
unfolding rejected_endpoints_for_node
rejected_lem [] node ip = refl
rejected_lem (ep ∷ eps) node ip =
    elim (Bool-cases (is_local node.node_ip ep && not (is_admitted node ep))) [
      | inl e ↦ rw (e, rejected_lem eps node ip) refl
      | inr e ↦ rw (e, rejected_lem eps node ip) refl
    ]

-- Whatever the service's policy and ports, the pods that the node is to serve are exactly the wire
-- addresses of the endpoints on this node that are admitted, ready or not, so that a draining pod still
-- answers; and the rejected addresses are exactly those of its endpoints that are not admitted.
pub reconcile_service-targets :
    (svc : ServiceView) (eps : List Endpoint) (node : NodeContext) (address : List ℕ) (ip : IpAddr)
    → let desired = reconcile_service svc eps node in
      (has_key address desired.pod_targets ≡ any_endpoint (is_target node address) eps)
      × (contains_ip desired.rejected ip ≡ any_endpoint (is_refused node ip) eps)
unfolding reconcile_service
reconcile_service-targets svc eps node address ip =
    (targets_lem eps node address, rejected_lem eps node ip)
