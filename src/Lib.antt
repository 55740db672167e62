-- ===== src/Lib.antt =====
-- Correctness of beep, a layer-4 load balancer for Kubernetes services: eBPF programs on every node
-- steer the packets of a service's front to backend pods, over Geneve tunnels between the nodes, and
-- a controller on each node keeps the maps that they read.
--
-- The parts, and the files that model them:
--   Flow: the lifecycle flags of a conntrack row. `flow_step_flags` (common/src/lib.rs) is `Flow.flow_step_flags`,
--     with its four statements on TCP flags as helpers of their own; Flow/Marks.antt reads a word of
--     flags as five Booleans, the abstract view that Flow/Lifecycle.antt refines to. Flow/Sweep.antt is
--     the idle sweep: `row_swept` (src/lib.rs) and the passes of `run_idle_sweep_loop`
--     (controller/src/main.rs) over one row, in any order of the two classes.
--   Wire: addresses, flow keys and the Geneve option of the forward leg as lists of bytes
--     (common/src/lib.rs). Native byte order is little-endian.
--   Maps: the keys and values that the loader, the controller and the datapath share.
--   Steer: the flow hash, the endpoint slot and `ingress_steer` (common/src/lib.rs). A map lookup is a
--     function that the section takes.
--   Remap: `resolve_backend_src_port` (common/src/lib.rs), whose lookup of taken keys is a function too.
--   FrontSwap: src/front_swap.rs. `plan_front_writes` is FrontSwap.antt for one front and
--     FrontSwap/Plans.antt for a pass; `run_front_plan`, `capacity_shortfall` and `run_front_plans` are
--     FrontSwap/Apply.antt; `RecentSwaps` is FrontSwap/Recent.antt. FrontSwap/Held.antt and
--     FrontSwap/Counts.antt count what a plan leaves in the maps. The two kernel maps are
--     association lists beside a list of outcomes for the writes to come, so that any write may fail.
--     The error type of the BPF library is a parameter, with the errno that it may hold.
--   Common: the names that the modules share, Boolean tests, lists, association lists, and the binary
--     digits of machine words.
--   Table: the controller's passes over the flow table (src/lib.rs). Table.antt is `idle_flow_keys`, in its
--     two loops, and `still_idle`; Table/Evict.antt is `evict_pod_flows`, with deletes that may be refused.
--     A row of the table is the arm of the union that was written, and what a read of another arm gives
--     is a parameter.
--   Sizing: `front_map_max_entries` (src/lib.rs).
--   Reverse: `commit_reverse_row` (ebpf/src/main.rs) as a function on one row; the hook's own step is
--     `commit_reverse` of Datapath/Record.antt.
--   Admission: the decisions of the hooks (common/src/lib.rs).
--   Datapath: the eBPF programs (ebpf/src/main.rs). Datapath.antt is the state, a node's maps and a packet,
--     and the monad of a hook: a step goes on, ends with a verdict, or ends with the `None` that `?`
--     returns. Datapath/Packet.antt and Datapath/Tunnel.antt are the loads, rewrites, tunnel keys and
--     redirects; Datapath/Maps.antt the accessors of the maps; Datapath/Parse.antt and
--     Datapath/Ingress.antt are `uplink_ingress`, Datapath/Record.antt, Datapath/Backend.antt and
--     Datapath/Return.antt the two legs of `geneve_ingress`, Datapath/Egress.antt is
--     `uplink_egress_return`. Where the source repeats a body for IPv4 and IPv6, the part that does not
--     depend on the family is one definition. Datapath/Frame.antt is the calculus that the proofs about
--     whole hooks use. The kernel may refuse any insert and any packet helper, and an insert into the flow
--     table or the pending one, which are LRU maps, may evict any other rows: the outcomes and the
--     evicted keys to come are lists, so a theorem for all lists covers each policy and each size of
--     the maps. Datapath/Evict.antt reads a table
--     behind an insert. Datapath/Affinity/History.antt is what may happen between two packets of a
--     flow. The checksum updates, and what a read of a union's other arm gives, are the record `Kernel`,
--     a parameter.
--   Lease: controller/src/lease.rs, and the passes of `run_prune_loop` (controller/src/main.rs): the tracker of
--     the nodes' leases, which addresses are live, and the two passes that it takes to prune one. Times
--     are numbers of nanoseconds; an entry of the status is JSON, read by a parameter.
--   Reconcile: controller/src/reconcile.rs: `reconcile_service`, whose fronts FrontSwap publishes and whose pods
--     are the `pod_targets` of Datapath. The slices of a service are one list of endpoints;
--     Reconcile/Address.antt is its addresses and ranges.
-- How they meet: the writer of FrontSwap publishes the meta and the rows that Steer reads, the flags
-- of Flow decide which rows the sweep takes away and which occupants Remap passes over, and the keys
-- of Wire tell the rows of the flow table apart.
--
-- A machine word is a number, with its wrap-around written out. Loops are recursion on their lists;
-- the probe of Remap recurses on its 16 rounds. Hash maps and hash sets are lists in one order of
-- iteration, and the theorems hold for each.
--
-- Not modelled: the loader, the Kubernetes watches and requests of the controller, and pin migration.
pub mod Common
pub mod Flow
pub mod Wire
pub mod Maps
pub mod Steer
pub mod Remap
pub mod FrontSwap
pub mod Table
pub mod Sizing
pub mod Reverse
pub mod Admission
pub mod Datapath
pub mod Lease
pub mod Reconcile
