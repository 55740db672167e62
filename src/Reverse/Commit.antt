-- ===== src/Reverse/Commit.antt =====
-- What a commit makes of the row under the reverse key (`commit_reverse_row` of ebpf/src/main.rs).
use beep.Common.{
  ℕ, ◌≡◌, refl, ap, subst, Bool, true, false, Option, none, some, arith, Bool-cases, inl, inr,
  is_yes, is_yes-true,
}
use beep.Common.Assoc.{is_yes_iff}
use beep.Flow.{FlowStep, keep, write, skip, client, GcParity, flow_step_flags}
use beep.Flow.Lifecycle.{row_flags, refuses, flow_step_flags-refines}
use beep.Maps.{RevFlowValue}
use beep.Remap.{Occupant, Occupant-discrete, occupant_conflicts, identity_of}
use beep.Reverse.{
  RevFlowValue-discrete, own_row, is_some, flags_or_zero, holds, store_row, after_step,
  commit_reverse_row,
}

-- A row of the same connection as the value: of its front, and of its client's own port.
pub record IsOwn (row value : RevFlowValue) : Type 0 where
  pub front_ip_eq : row.front_ip ≡ value.front_ip
  pub front_port_eq : row.front_port ≡ value.front_port
  pub client_port_eq : row.original_client_port ≡ value.original_client_port

-- The connection has a row of its own under the key, with these flags; or it has none, and starts
-- from 0.
pub data Sees (value : RevFlowValue) : Option RevFlowValue → Bool → ℕ → Type 0 where
  own : (row : RevFlowValue) → IsOwn row value → Sees value (some row) true row.flags
  missing : Sees value none false 0
  foreign : (row : RevFlowValue) → (IsOwn row value → ⊥) → Sees value (some row) false 0

own_row_own : (row value : RevFlowValue) → IsOwn row value → own_row (some row) value ≡ some row
unfolding occupant_conflicts
own_row_own row value h =
    let same : identity_of row ≡ identity_of value =
      cc (h.front_ip_eq, h.front_port_eq, h.client_port_eq) in
    rw (is_yes-true (Occupant-discrete (identity_of row) (identity_of value)) same) refl

own_row_foreign :
    (row value : RevFlowValue) → (IsOwn row value → ⊥) → own_row (some row) value ≡ none
unfolding occupant_conflicts
own_row_foreign row value h =
    elim (Bool-cases (is_yes (Occupant-discrete (identity_of row) (identity_of value)))) [
      | inl e ↦
          let same = (is_yes_iff (Occupant-discrete (identity_of row) (identity_of value))).0 e in
          absurd (
            h (record {
              front_ip_eq = ap (λ (o : Occupant). o.front_ip) same;
              front_port_eq = ap (λ (o : Occupant). o.front_port) same;
              client_port_eq = ap (λ (o : Occupant). o.client_port) same;
            }))
      | inr e ↦ rw e refl
    ]

-- What the filter of the source leaves is what the connection sees.
seen_lem :
    (stored : Option RevFlowValue) (value : RevFlowValue) (exists : Bool) (flags : ℕ)
    → Sees value stored exists flags
    → (is_some (own_row stored value) ≡ exists) × (flags_or_zero (own_row stored value) ≡ flags)
seen_lem stored value exists flags (own row h) =
    let e = own_row_own row value h in (ap is_some e, ap flags_or_zero e)
seen_lem stored value exists flags missing = (refl, refl)
seen_lem stored value exists flags (foreign row h) =
    let e = own_row_foreign row value h in (ap is_some e, ap flags_or_zero e)

holds_lem :
    (stored : Option RevFlowValue) (value : RevFlowValue)
    → holds stored value ≡ true
    → stored ≡ some value
holds_lem none value e = absurd (cc e)
holds_lem (some row) value e = ap some ((is_yes_iff (RevFlowValue-discrete row value)).0 e)

store_row_lem :
    (accepts : Bool) (stored : Option RevFlowValue) (value : RevFlowValue)
    → (accepts ≡ true → store_row accepts stored value ≡ (some value, true))
      × ((store_row accepts stored value).1 ≡ false → (store_row accepts stored value).0 ≡ stored)
store_row_lem accepts stored value = elim (Bool-cases (holds stored value)) [
  | inl h ↦
      let same = holds_lem stored value h in (λ a. rw h (ground (arith, same)), λ f. rw h refl)
  | inr h ↦ (λ a. rw (h, a) refl, λ f. ground (arith, h, f))
]

module _ (accepts : Bool) (stored : Option RevFlowValue) (value : RevFlowValue) (flags : ℕ) where
  after_step_lem :
      (step : FlowStep)
      → (step ≡ skip → after_step accepts stored value flags step ≡ (stored, true))
        × ((step ≡ skip → ⊥)
            → accepts ≡ true
            → after_step accepts stored value flags step
              ≡ (some (record value { flags = row_flags flags step }), true))
        × ((after_step accepts stored value flags step).1 ≡ false
            → (after_step accepts stored value flags step).0 ≡ stored)
  after_step_lem skip = (λ _. refl, λ n. absurd (n refl), λ f. refl)
  after_step_lem (write g) =
      let s = store_row_lem accepts stored (record value { flags = g }) in
      (λ e. absurd (cc e), λ _ a. s.0 a, s.1)
  after_step_lem keep =
      let s = store_row_lem accepts stored (record value { flags = flags }) in
      (λ e. absurd (cc e), λ _ a. s.0 a, s.1)

module _ (accepts : Bool) (stored : Option RevFlowValue) (value : RevFlowValue) (proto t : ℕ)
    (parity : GcParity) where
  abbrev Commits : Bool → ℕ → Type 0
  Commits exists flags =
      let result = commit_reverse_row accepts stored value proto t parity in
      let left = row_flags flags (flow_step_flags exists flags proto t client parity) in
      (refuses exists proto t ≡ true → result ≡ (stored, true))
      × (refuses exists proto t ≡ false
          → accepts ≡ true
          → result ≡ (some (record value { flags = left }), true))
      × (result.1 ≡ false → result.0 ≡ stored)

  own_row-Commits : Commits (is_some (own_row stored value)) (flags_or_zero (own_row stored value))
  unfolding commit_reverse_row
  own_row-Commits =
      let mine = own_row stored value in
      let flags = flags_or_zero mine in
      let step = flow_step_flags (is_some mine) flags proto t client parity in
      let skips = (flow_step_flags-refines (is_some mine) flags proto t client parity).1 in
      let cases = after_step_lem accepts stored value flags step in
      (λ r. cases.0 (skips.1 r), λ r a. cases.1 (λ s. cc (skips.0 s, r)) a, cases.2)

-- An RST without a row of its own connection changes nothing and lets the packet go on. Any other
-- packet, if the kernel accepts the insert, leaves exactly its own value under the key, with the
-- flags that follow from its own connection's row, or from 0 if the row was missing or of another
-- front or client port: such a row is replaced, closed or not. If the packet is stopped, the row is
-- as it was.
pub commit_reverse_row_lem :
    (accepts : Bool) (stored : Option RevFlowValue) (value : RevFlowValue) (proto t : ℕ)
    (parity : GcParity) (exists : Bool) (flags : ℕ)
    → Sees value stored exists flags
    → let result = commit_reverse_row accepts stored value proto t parity in
      let left = row_flags flags (flow_step_flags exists flags proto t client parity) in
      (refuses exists proto t ≡ true → result ≡ (stored, true))
      × (refuses exists proto t ≡ false
          → accepts ≡ true
          → result ≡ (some (record value { flags = left }), true))
      × (result.1 ≡ false → result.0 ≡ stored)
commit_reverse_row_lem accepts stored value proto t parity exists flags sees =
    let (there, from) = seen_lem stored value exists flags sees in
    let C = Commits accepts stored value proto t parity in
    subst (λ (e : Bool). C e flags) there
      (subst (λ (f : ℕ). C (is_some (own_row stored value)) f) from
        (own_row-Commits accepts stored value proto t parity))
