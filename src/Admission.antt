-- ===== src/Admission.antt =====
-- The admission decisions of the datapath (common/src/lib.rs), each from the results of its lookups.
use beep.Common.{ℕ, Bool, Option, none, some, ◌==◌, if◌then◌else◌}
use beep.Maps.{ForwardFlowValue}

pub data ForwardAdmission : Type 0 where
  established mint_pending : ForwardAdmission

abbrev pub forward_admission : Bool → ForwardAdmission
forward_admission in_main = if in_main then established else mint_pending

pub data FwdPendingPin : Type 0 where
  insert_pin : ForwardFlowValue → FwdPendingPin
  keep_pin : FwdPendingPin

abbrev pub fwd_pending_affinity_pin : Option ForwardFlowValue → ForwardFlowValue → FwdPendingPin
fwd_pending_affinity_pin (some v) candidate = keep_pin
fwd_pending_affinity_pin none candidate = insert_pin candidate

pub data ReturnAuthorization : Type 0 where
  authorized promote refuse : ReturnAuthorization

abbrev pub return_authorization : Bool → Bool → ReturnAuthorization
return_authorization in_main in_pending =
    if in_main then authorized else if in_pending then promote else refuse

pub data EgressReturnAdmission : Type 0 where
  not_backend_traffic backend_traffic : EgressReturnAdmission

abbrev pub egress_return_admission : Bool → EgressReturnAdmission
egress_return_admission is_backend_pod =
    if is_backend_pod then backend_traffic else not_backend_traffic

pub data EgressReturnOutcome : Type 0 where
  pass_through forward_reply : EgressReturnOutcome

abbrev pub egress_return_outcome : Bool → EgressReturnOutcome
egress_return_outcome has_rev_flow_entry =
    if has_rev_flow_entry then forward_reply else pass_through

abbrev pub redirected_return_mark : ℕ
redirected_return_mark = 0xbeeb_0001

abbrev pub is_redirected_return_mark : ℕ → Bool
is_redirected_return_mark mark = mark == redirected_return_mark

-- `DecapForwardPodAdmission` and `PeerNodeAdmission`
pub data DecapForwardPodAdmission : Type 0 where
  drop_pod deliver_pod : DecapForwardPodAdmission

abbrev pub decap_forward_pod_admission : Bool → DecapForwardPodAdmission
decap_forward_pod_admission is_local_pod = if is_local_pod then deliver_pod else drop_pod

pub data PeerNodeAdmission : Type 0 where
  drop_peer continue_peer : PeerNodeAdmission

abbrev pub peer_node_admission : Bool → PeerNodeAdmission
peer_node_admission is_known_peer = if is_known_peer then continue_peer else drop_peer

pub data BackendPortResolution : Type 0 where
  memoized : ℕ → BackendPortResolution
  probe_port : BackendPortResolution

abbrev pub backend_port_resolution : Option ℕ → BackendPortResolution
backend_port_resolution (some port) = memoized port
backend_port_resolution none = probe_port
