-- ===== src/Datapath/Reply.antt =====
-- The reverse row between the two legs on the backend's node (`commit_reverse_row` of ebpf/src/main.rs).
pub mod Found
use beep.Common.{
  ℕ, ◌<◌, ◌≡◌, refl, sym, ◌∙◌, ap, subst, Bool, true, false, ◌&&◌, not, Option, none, some, List,
  [], ◌∷◌, ◌++◌, if◌then◌else◌, is_yes, is_yes-true, inl, inr, arith, length, take, Bool-cases,
  ◌==◌,
}
use beep.Common.Assoc.{lookup-insert, is_yes_iff}
use beep.Flow.{FlowStep, keep, write, skip, client, flow_step_flags}
use beep.Flow.Lifecycle.{refuses, flow_step_flags-refines}
use beep.Maps.{RevFlowValue, Bytes-discrete}
use beep.Wire.{reverse}
use beep.Remap.{identity_of}
use beep.Table.{FlowValue, reverse_value, flow_at}
use beep.Reverse.{own_row, is_some, flags_or_zero, holds, RevFlowValue-discrete}
use beep.Datapath.{
  Node, World, Step, next, done, Kernel, Hook, ◌>>=◌, ◌>>◌, pure, or_none, node_of, change_node,
  accepted, accepted_by, world_of, then_step,
}
use beep.Datapath.Maps.{
  left_by, evicted_now, insert_flow, flow_table_insert, gc_parity, parity_of, read_reverse,
  flow_table_get_reverse,
}
use beep.Datapath.Record.{
  PodFlow, pod_key, rev_value, store_reverse, commit_step, commit_reverse, backend_port_of,
  record_flow,
}

module _ (kernel : Kernel) (key : List ℕ) (value : RevFlowValue) where
  -- The row under the key is the value, whatever its flags.
  pub record HasRow (n : Node) : Type 0 where
    pub flags : ℕ
    pub row : read_reverse kernel (flow_at n.table key) ≡ some (record value { flags = flags })

  -- A step that, if it goes on, leaves the row.
  abbrev pub Leaves : Step (Unit {0}) → Type 0
  Leaves (next u w) = HasRow w.node
  Leaves (done v w) = Unit {0}

  flow_at-insert : (v : FlowValue) (n : Node) → flow_at (insert_flow key v n).table key ≡ some v
  flow_at-insert v n =
      lookup-insert Bytes-discrete key key v (left_by (evicted_now n.evictions) n.table)
      ∙ rw (is_yes-true (Bytes-discrete key key) refl) refl

  inserted_row :
      (flags : ℕ) (n : Node)
      → HasRow (insert_flow key (reverse_value (record value { flags = flags })) n)
  inserted_row flags n = record {
    flags = flags;
    row = rw (flow_at-insert (reverse_value (record value { flags = flags })) n) refl;
  }

  abbrev inserting : RevFlowValue → Hook (Unit {0})
  inserting v = flow_table_insert key (reverse_value v) >>= λ a. if a then pure tt else or_none none

  inserting_row :
      (flags : ℕ) (w : World) (outcomes : List Bool)
      → w.refused ≡ outcomes
      → Leaves (inserting (record value { flags = flags }) w)
  unfolding ◌>>=◌ ◌>>◌ pure or_none flow_table_insert accepted accepted_by change_node
  inserting_row flags w [] o = rw o (inserted_row flags w.node)
  inserting_row flags w (false ∷ l) o = rw o (inserted_row flags w.node)
  inserting_row flags w (true ∷ l) o = rw o tt

  stored_row :
      (flags : ℕ) (w : World) (stored : Option RevFlowValue)
      → read_reverse kernel (flow_at w.node.table key) ≡ stored
      → Leaves (store_reverse key stored (record value { flags = flags }) w)
  unfolding pure
  stored_row flags w none e = inserting_row flags w _ refl
  stored_row flags w (some row) e =
      elim (Bool-cases (holds (some row) (record value { flags = flags }))) [
        | inl c ↦
            let same =
              (is_yes_iff (RevFlowValue-discrete row (record value { flags = flags }))).0 c in
            rw c (record { flags = flags; row = e ∙ ap some same })
        | inr c ↦ rw c (inserting_row flags w _ refl)
      ]

  committed :
      (flags : ℕ) (w : World) (stored : Option RevFlowValue) (step : FlowStep)
      → (step ≡ skip → ⊥)
      → read_reverse kernel (flow_at w.node.table key) ≡ stored
      → Leaves (commit_step key stored value flags step w)
  committed flags w stored keep n e = stored_row flags w stored e
  committed flags w stored (write g) n e = stored_row g w stored e
  committed flags w stored skip n e = absurd (n refl)

  -- An RST is skipped where the connection has no row.
  abbrev pub row_exists : Node → Bool
  row_exists n = is_some (own_row (read_reverse kernel (flow_at n.table key)) value)

  pub commit_reverse-Leaves :
      (proto t : ℕ) (w : World)
      → refuses (row_exists w.node) proto t ≡ false
      → Leaves (commit_reverse kernel key value proto t w)
  unfolding commit_reverse ◌>>=◌ flow_table_get_reverse gc_parity node_of
  commit_reverse-Leaves proto t w r =
      let stored = read_reverse kernel (flow_at w.node.table key) in
      let mine = own_row stored value in
      let skips =
        (flow_step_flags-refines (is_some mine) (flags_or_zero mine) proto t client
          (parity_of w.node.config)).1 in
      committed (flags_or_zero mine) w stored _
        (λ (e : flow_step_flags (is_some mine) (flags_or_zero mine) proto t client
              (parity_of w.node.config)
            ≡ skip).
          absurd (cc (skips.0 e, r)))
        refl
