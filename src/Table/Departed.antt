-- ===== src/Table/Departed.antt =====
-- The tables behind an eviction of departed pods (`evict_pod_flows` of src/lib.rs).
use beep.Common.{
  ℕ, ◌≡◌, refl, ap, ◌∙◌, Bool, true, false, ◌&&◌, ◌||◌, Option, none, some, List, [], ◌∷◌, arith,
  Bool-cases, inl, inr,
}
use beep.Common.Assoc.{lookup, remove, lookup-remove}
use beep.Wire.{FlowDirection, forward, reverse, port_memo, flow_key_direction}
use beep.Maps.{ForwardFlowValue, Bytes-discrete}
use beep.Table.{FlowValue, Table, flow_at, is_reverse, is_memo}
use beep.Table.Lookup.{has_key, has_key-append, IsSnapshot, at_row, collected, collected_lem}
use beep.Table.Evict.{
  Pending, stale_forward_entries, stale_flow_table_keys, delete_flows, pod_of, as_forward,
  forward_entries, reverse_and_port_memo_keys, stale_flow_table, evict_pod_flows, role_names,
}

-- Keys that are not listed are untouched, and listed ones are gone if no delete failed.
delete_flows_lem :
    {V : Type 0} (keys : List (List ℕ)) (refused : List Bool) (table : List (List ℕ × V))
    (key : List ℕ)
    → let result = delete_flows keys refused table in
      (has_key key keys ≡ false
        → lookup Bytes-discrete key result.0 ≡ lookup Bytes-discrete key table)
      × (result.2 ≡ 0 → has_key key keys ≡ true → lookup Bytes-discrete key result.0 ≡ none)
unfolding delete_flows
delete_flows_lem [] refused table key = (λ h. refl, λ z h. absurd (cc h))
delete_flows_lem (k ∷ ks) [] table key =
    let rest = delete_flows_lem ks [] (remove Bytes-discrete k table) key in
    let removed = lookup-remove Bytes-discrete k key table in
    (
      λ h. rest.0 (ground (arith, h)) ∙ removed ∙ ground (arith, h),
      λ z h. elim (Bool-cases (has_key key ks)) [
        | inl later ↦ rest.1 z later
        | inr last ↦ rest.0 last ∙ removed ∙ ground (arith, h, last)
      ],
    )
delete_flows_lem (k ∷ ks) (false ∷ refused) table key =
    let rest = delete_flows_lem ks refused (remove Bytes-discrete k table) key in
    let removed = lookup-remove Bytes-discrete k key table in
    (
      λ h. rest.0 (ground (arith, h)) ∙ removed ∙ ground (arith, h),
      λ z h. elim (Bool-cases (has_key key ks)) [
        | inl later ↦ rest.1 z later
        | inr last ↦ rest.0 last ∙ removed ∙ ground (arith, h, last)
      ],
    )
delete_flows_lem (k ∷ ks) (true ∷ refused) table key =
    let rest = delete_flows_lem ks refused table key in
    (λ h. rest.0 (ground (arith, h)), λ z h. absurd (omega arith))

stale_pending-collected :
    (pending : Pending) (departed : List (List ℕ))
    → stale_forward_entries pending departed
      ≡ collected (λ k v. has_key v.backend.pod_ip departed) pending
unfolding stale_forward_entries
stale_pending-collected [] departed = refl
stale_pending-collected ((k, v) ∷ rows) departed = rw (stale_pending-collected rows departed) refl

abbrev is_forward : Option FlowDirection → Bool
is_forward none = false
is_forward (some forward) = true
is_forward (some reverse) = false
is_forward (some port_memo) = false

module _ (misread_forward : FlowValue → ForwardFlowValue) (departed : List (List ℕ)) where
  abbrev stale_pin : List ℕ → FlowValue → Bool
  stale_pin k v =
      is_forward (flow_key_direction k)
      && has_key (as_forward misread_forward v).backend.pod_ip departed

  abbrev stale_pod : List ℕ → FlowValue → Bool
  stale_pod k v =
      (is_reverse (flow_key_direction k) || is_memo (flow_key_direction k))
      && has_key (pod_of k) departed

  forward-collected :
      (table : Table)
      → stale_forward_entries (forward_entries misread_forward table) departed
        ≡ collected stale_pin table
  unfolding stale_forward_entries forward_entries
  forward-collected [] = refl
  forward-collected ((k, v) ∷ rows) = ground (arith, forward-collected rows)

  keys-collected :
      (table : Table)
      → stale_flow_table_keys (reverse_and_port_memo_keys misread_forward table) departed
        ≡ collected stale_pod table
  unfolding stale_flow_table_keys reverse_and_port_memo_keys
  keys-collected [] = refl
  keys-collected ((k, v) ∷ rows) = ground (arith, keys-collected rows)

  stale_flow_table_lem :
      (table : Table) (key : List ℕ)
      → IsSnapshot table
      → has_key key (stale_flow_table misread_forward table departed)
        ≡ at_row
            (role_names misread_forward (flow_key_direction key) departed key)
            (flow_at table key)
  unfolding stale_flow_table
  stale_flow_table_lem table key m =
      has_key-append key (stale_forward_entries (forward_entries misread_forward table) departed)
        (stale_flow_table_keys (reverse_and_port_memo_keys misread_forward table) departed)
      ∙ rw
          (
            forward-collected table,
            keys-collected table,
            collected_lem stale_pin table key m,
            collected_lem stale_pod table key m,
          )
          (either (flow_at table key))
    where
      by_role :
          (d : Option FlowDirection) (value : FlowValue)
          → ((is_forward d && has_key (as_forward misread_forward value).backend.pod_ip departed)
              || ((is_reverse d || is_memo d) && has_key (pod_of key) departed))
            ≡ role_names misread_forward d departed key value
      by_role none value = refl
      by_role (some forward) value = ground arith
      by_role (some reverse) value = refl
      by_role (some port_memo) value = refl

      either :
          (row : Option FlowValue)
          → (at_row (stale_pin key) row || at_row (stale_pod key) row)
            ≡ at_row (role_names misread_forward (flow_key_direction key) departed key) row
      either none = refl
      either (some value) = by_role (flow_key_direction key) value

-- The row under a key, of the two tables, after the eviction: as it was if it names no departed
-- pod, and gone if it does.
abbrev pub Evicts : {V : Type 0} → Bool → Option V → Option V → ℕ → Type 0
Evicts names before after failed =
    (names ≡ false → after ≡ before) × (failed ≡ 0 → names ≡ true → after ≡ none)

none_departed-pin :
    (row : Option ForwardFlowValue) → at_row (λ v. has_key v.backend.pod_ip []) row ≡ false
none_departed-pin none = refl
none_departed-pin (some v) = refl

none_departed-row :
    (misread_forward : FlowValue → ForwardFlowValue) (direction : Option FlowDirection)
    (key : List ℕ) (row : Option FlowValue)
    → at_row (role_names misread_forward direction [] key) row ≡ false
none_departed-row misread_forward direction key none = refl
none_departed-row misread_forward none key (some v) = refl
none_departed-row misread_forward (some forward) key (some v) = refl
none_departed-row misread_forward (some reverse) key (some v) = refl
none_departed-row misread_forward (some port_memo) key (some v) = refl

-- Whatever deletes the kernel refuses, an eviction leaves every row that names no departed pod as it
-- was, in the pending table and in the flow table; and if none failed, every row that names one, by
-- its pin's backend or by the pod of its key, is gone from both. Each table holds a key once.
pub evict_pod_flows_lem :
    (misread_forward : FlowValue → ForwardFlowValue) (departed : List (List ℕ)) (pending : Pending)
    (table : Table) (refused : List Bool) (key : List ℕ)
    → IsSnapshot pending
    → IsSnapshot table
    → let result = evict_pod_flows misread_forward pending table departed refused in
      Evicts
        (at_row (λ v. has_key v.backend.pod_ip departed) (lookup Bytes-discrete key pending))
        (lookup Bytes-discrete key pending)
        (lookup Bytes-discrete key result.pending)
        result.failed
      × Evicts
          (at_row
            (role_names misread_forward (flow_key_direction key) departed key)
            (flow_at table key))
          (flow_at table key)
          (flow_at result.table key)
          result.failed
unfolding evict_pod_flows
evict_pod_flows_lem misread_forward [] pending table refused key m n = (
  (λ _. refl, λ _ h. absurd (cc (none_departed-pin (lookup Bytes-discrete key pending), h))),
  (
    λ _. refl,
    λ _ h. absurd (
        cc (none_departed-row misread_forward (flow_key_direction key) key (flow_at table key), h)),
  ),
)
evict_pod_flows_lem misread_forward (d ∷ ds) pending table refused key m n =
    let departed = d ∷ ds in
    let pins = stale_forward_entries pending departed in
    let pin = delete_flows_lem pins refused pending key in
    let pin_keys =
      ap (has_key key) (stale_pending-collected pending departed) ∙ collected_lem _ pending key m in
    let rows = stale_flow_table misread_forward table departed in
    let later = (delete_flows pins refused pending).1 in
    let row = delete_flows_lem rows later table key in
    let row_keys = stale_flow_table_lem misread_forward departed table key n in
    (
      (λ h. pin.0 (pin_keys ∙ h), λ z h. pin.1 (omega (arith, z)) (pin_keys ∙ h)),
      (λ h. row.0 (row_keys ∙ h), λ z h. row.1 (omega (arith, z)) (row_keys ∙ h)),
    )
