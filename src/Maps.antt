-- ===== src/Maps.antt =====
-- The keys and values of the maps that the loader, the controller and the datapath share
-- (common/src/lib.rs). The `_pad` fields are left out: every writer sets them to 0.
use beep.Common.{ℕ, List, ℕ_discrete}

pub record LbFrontKey : Type 0 where
  pub front_ip : List ℕ
  pub front_port : ℕ
  pub proto : ℕ

pub record LbFrontBackend : Type 0 where
  pub backend_node_ip : List ℕ
  pub pod_ip : List ℕ

pub record FrontMeta : Type 0 where
  pub generation : ℕ
  pub count : ℕ
  pub flags : ℕ
  pub local_count : ℕ

abbrev pub front_flag_client_ip_affinity : ℕ
front_flag_client_ip_affinity = 1

pub record FrontEndpointKey : Type 0 where
  pub front : LbFrontKey
  pub generation : ℕ
  pub slot : ℕ

pub record FrontEndpoint : Type 0 where
  pub backend : LbFrontBackend
  pub target_port : ℕ
  pub flags : ℕ

abbrev pub endpoint_flag_is_local : ℕ
endpoint_flag_is_local = 1

pub record ForwardFlowValue : Type 0 where
  pub backend : LbFrontBackend
  pub ingress_ifindex : ℕ
  pub target_port : ℕ
  pub flags : ℕ

pub record RevFlowValue : Type 0 where
  pub ingress_node_ip : List ℕ
  pub front_ip : List ℕ
  pub front_port : ℕ
  pub original_client_port : ℕ
  pub flags : ℕ

-- `u32::MAX + 1` and `u16::MAX + 1`
abbrev pub u32_mod : ℕ
u32_mod = 4294967296

abbrev pub u16_mod : ℕ
u16_mod = 65536

unfoldable pub Bytes-discrete : Discrete (List ℕ)
Bytes-discrete = hlevel ℕ_discrete

unfoldable pub LbFrontKey-discrete : Discrete LbFrontKey
LbFrontKey-discrete = hlevel ℕ_discrete

unfoldable pub LbFrontBackend-discrete : Discrete LbFrontBackend
LbFrontBackend-discrete = hlevel ℕ_discrete

unfoldable pub FrontEndpointKey-discrete : Discrete FrontEndpointKey
FrontEndpointKey-discrete = hlevel ℕ_discrete

unfoldable pub FrontEndpoint-discrete : Discrete FrontEndpoint
FrontEndpoint-discrete = hlevel ℕ_discrete
