-- ===== src/Reconcile/Tests.antt =====
-- A service with an endpoint here and one elsewhere.
use beep.Common.{ℕ, ◌≡◌, refl, true, false, none, some, List, [], ◌∷◌}
use beep.FrontSwap.{local_run}
use beep.Table.Lookup.{has_key}
use beep.Reconcile.{
  Endpoint, NodeContext, ServiceView, ServicePort, prefer_local, prefers_local, tcp, desired_front,
  reconcile_service, any_endpoint, eligible_endpoints, front_endpoint,
}
use beep.Reconcile.Address.{IpAddr, v4, new_cidr, contains_ip, pod_cidrs_contain, ip_eq}
use beep.Reconcile.Local.{count, local_row, local_run-desired_front}
use beep.Reconcile.Targets.{is_target, is_refused, reconcile_service-targets}

-- 192.0.2.1 and 192.0.2.2, with pods out of 10.42.0.0/16.
abbrev here : IpAddr
here = v4 3221225985

abbrev there : IpAddr
there = v4 3221225986

abbrev node : NodeContext
node = record {
  node_ip = here;
  pod_cidr = record { cidr4 = some (new_cidr 32 170524672 16); cidr6 = none };
}

abbrev endpoint_on : IpAddr → ℕ → Endpoint
endpoint_on at_node ip = record {
  pod_ip = v4 ip;
  node_ip = at_node;
  node_addrs = at_node ∷ [];
  ready = true;
  terminating = false;
  serving = true;
  ports = 8080 ∷ [];
}

abbrev endpoints : List Endpoint
endpoints = endpoint_on there 170524673 ∷ endpoint_on here 170524933 ∷ []

abbrev port : ServicePort
port = record { port = 80; protocol = tcp; target_port = 8080 }

abbrev service : ServiceView
service = record {
  front_ip = here;
  policy = prefer_local;
  client_ip_affinity = false;
  ports = port ∷ [];
}

local_run-desired_front_example :
    let want = desired_front service endpoints here port in
    (want.prefer_local ≡ prefers_local prefer_local)
    × (want.prefer_local ≡ true → local_run want.endpoints ≡ count (local_row here) want.endpoints)
local_run-desired_front_example = local_run-desired_front service endpoints here port

reconcile_service-targets_example :
    let desired = reconcile_service service endpoints node in
    (has_key [] desired.pod_targets ≡ any_endpoint (is_target node []) endpoints)
    × (contains_ip desired.rejected here ≡ any_endpoint (is_refused node here) endpoints)
reconcile_service-targets_example = reconcile_service-targets service endpoints node [] here

-- The local endpoint stands first, although its address is the greater.
local_slot_first : local_run (desired_front service endpoints here port).endpoints ≡ 1
unfolding desired_front eligible_endpoints front_endpoint ip_eq
local_slot_first = refl

pods_contained : pod_cidrs_contain node.pod_cidr (v4 170524933) ≡ true
unfolding pod_cidrs_contain
pods_contained = refl
