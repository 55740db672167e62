-- ===== src/Remap/Tests.antt =====
-- The remapping theorems with the natural key held by another connection.
use beep.Common.{ℕ, ◌≤◌, ◌<◌, ◌≡◌, ◌≢◌, some, List, length, [], ◌∷◌, arith, ◌↔◌, true, false}
use beep.Remap.{
  Occupant, occupant_conflicts, resolve_backend_src_port, no_remap, remap, exhausted,
  synthetic_port_seed, candidate, is_free, probe_limit, remap_port_base,
}
use beep.Remap.Probe.{Found, resolve_backend_src_port_lem}
use beep.Remap.Window.{contains, taken_among, resolve_backend_src_port_total}

abbrev front_ip : List ℕ
front_ip = 32 ∷ 1 ∷ 13 ∷ 184 ∷ 0 ∷ 0 ∷ 0 ∷ 0 ∷ 0 ∷ 0 ∷ 0 ∷ 0 ∷ 0 ∷ 0 ∷ 0 ∷ 1 ∷ []

abbrev other : Occupant
other = record { front_ip = front_ip; front_port = 443; client_port = 40000 }

abbrev mine : Occupant
mine = record { front_ip = front_ip; front_port = 8443; client_port = 40000 }

abbrev taken : List ℕ
taken = 40000 ∷ 50000 ∷ []

resolve_backend_src_port_lem_example :
    ((resolve_backend_src_port (contains taken) (some other) mine ≡ no_remap)
      ↔ (occupant_conflicts (some other) mine ≡ false))
    × ((port : ℕ)
        → resolve_backend_src_port (contains taken) (some other) mine ≡ remap port
        → Found (contains taken) (synthetic_port_seed front_ip 8443) 40000 0 probe_limit port
          × (remap_port_base ≤ port)
          × (port < 65536)
          × (occupant_conflicts (some other) mine ≡ true))
    × ((resolve_backend_src_port (contains taken) (some other) mine ≡ exhausted) ↔ (
        (occupant_conflicts (some other) mine ≡ true)
        × ((k : ℕ)
            → k < probe_limit
            → is_free (contains taken) 40000 (candidate (synthetic_port_seed front_ip 8443) k)
              ≡ false)))
resolve_backend_src_port_lem_example =
    resolve_backend_src_port_lem (contains taken) (some other) mine

few_taken :
    length
      (taken_among (contains taken) (candidate (synthetic_port_seed front_ip 8443)) probe_limit)
    < 15
unfolding candidate synthetic_port_seed
few_taken = omega arith

resolve_backend_src_port_total_example :
    resolve_backend_src_port (contains taken) (some other) mine ≢ exhausted
resolve_backend_src_port_total_example =
    resolve_backend_src_port_total (some other) mine (contains taken) few_taken
