-- ===== src/Steer/Tests.antt =====
-- The steering theorems at a concrete front.
use beep.Common.{
  ℕ, ◌+◌, ◌*◌, ◌^◌, ◌<◌, ◌≤◌, ◌≡◌, refl, Option, none, some, List, [], ◌∷◌, arith, ◌↔◌, ◌⊎◌, true,
  ◌==◌, if◌then◌else◌,
}
use beep.Maps.{
  LbFrontKey, LbFrontBackend, FrontMeta, FrontEndpointKey, FrontEndpoint, ForwardFlowValue,
  front_flag_client_ip_affinity,
}
use beep.Steer.{
  has_bits, flow_hash, front_flow_hash, slot_in_range, select_endpoint_slot, ingress_steer, forward,
  drop,
}
use beep.Steer.Hash.{flow_hash-lt, front_flow_hash_affinity}
use beep.Steer.Slot.{slot_in_range_exact}
use beep.Steer.Ingress.{Chosen, IsComplete, ingress_steer_new, ingress_steer_total}

abbrev client_ip : List ℕ
client_ip = 32 ∷ 1 ∷ 13 ∷ 184 ∷ 0 ∷ 0 ∷ 0 ∷ 0 ∷ 0 ∷ 0 ∷ 0 ∷ 0 ∷ 0 ∷ 0 ∷ 0 ∷ 1 ∷ []

abbrev front : LbFrontKey
front = record { front_ip = client_ip; front_port = 443; proto = 6 }

-- Two endpoints, the first of them local.
abbrev meta : FrontMeta
meta = record { generation = 3; count = 2; flags = 1; local_count = 1 }

abbrev backend : LbFrontBackend
backend = record { backend_node_ip = client_ip; pod_ip = client_ip }

abbrev endpoint_at : FrontEndpointKey → Option FrontEndpoint
endpoint_at k =
    if k.slot == 0
    then some (record { backend = backend; target_port = 8080; flags = 1 })
    else some (record { backend = backend; target_port = 8081; flags = 0 })

abbrev pin : ForwardFlowValue
pin = record { backend = backend; ingress_ifindex = 2; target_port = 9000; flags = 0 }

flow_hash-lt_example : flow_hash 7 client_ip 40000 front < 2 ^ 32
flow_hash-lt_example = flow_hash-lt 7 client_ip 40000 front

front_flow_hash_affinity_example :
    (front_flow_hash 7 client_ip 40000 front meta ≡ front_flow_hash 7 client_ip 40001 front meta)
    ↔ ((has_bits meta.flags front_flag_client_ip_affinity ≡ true) ⊎ (◌≡◌ {A = ℕ} 40000 40001))
front_flow_hash_affinity_example =
    front_flow_hash_affinity 7 client_ip 40000 40001 front meta (omega arith) (omega arith)
      (omega arith) (omega arith)

slot_in_range_exact_example :
    (slot_in_range 0x8000_0000 6 ≡ some 3)
    ↔ ((3 * 2 ^ 32 ≤ 0x8000_0000 * 6) × (0x8000_0000 * 6 < (3 + 1) * 2 ^ 32) × (0 < 6))
slot_in_range_exact_example = slot_in_range_exact 0x8000_0000 6 3 (omega arith) (omega arith)

steered : ingress_steer endpoint_at meta none none 77 front ≡ forward backend 8080
unfolding ingress_steer select_endpoint_slot slot_in_range
steered = refl

ingress_steer_new_example : Chosen endpoint_at meta front backend 8080
ingress_steer_new_example =
    ingress_steer_new endpoint_at meta 77 front backend 8080 (omega arith) (omega arith) steered

meta-IsComplete : IsComplete endpoint_at meta front
meta-IsComplete = record {
  counts = omega arith;
  rows = λ slot below. (
    (if slot == 0
        then (record { backend = backend; target_port = 8080; flags = 1 })
        else (record { backend = backend; target_port = 8081; flags = 0 })),
    ground arith,
    ground arith,
  );
}

ingress_steer_total_example :
    (ingress_steer endpoint_at meta none none 77 front ≡ drop) ↔ (◌≡◌ {A = ℕ} 2 0)
ingress_steer_total_example =
    ingress_steer_total endpoint_at meta 77 front (omega arith) (omega arith) meta-IsComplete
