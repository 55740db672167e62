-- ===== src/Datapath/Untracked.antt =====
-- The keys of the flow table under the two hooks of the uplinks (ebpf/src/main.rs).
pub mod Hooks
use beep.Common.{
  ℕ, ◌/◌, ◌%◌, ◌≡◌, refl, sym, ◌∙◌, ap, Bool, true, false, ◌&&◌, ◌||◌, not, Option, none, some,
  List, ◌==◌, if◌then◌else◌, is_yes, is_yes-true, Bool-cases, inl, inr, arith,
}
use beep.Common.Assoc.{is_yes_iff}
use beep.Table.Lookup.{has_key}
use beep.Datapath.Evict.{
  will_evict, will_evict-now, EvictsLater, insert_flow-EvictsLater, flow_at-insert_flow,
}
use beep.Flow.{FlowStep, keep, write, skip, FlowSide, pod, flow_step}
use beep.Maps.{ForwardFlowValue, RevFlowValue, Bytes-discrete}
use beep.Table.{FlowValue, forward_value, reverse_value, Table, flow_at}
use beep.Reverse.{is_some}
use beep.Admission.{
  ForwardAdmission, established, mint_pending, FwdPendingPin, insert_pin, keep_pin,
  EgressReturnAdmission, not_backend_traffic, backend_traffic, EgressReturnOutcome, pass_through,
  forward_reply,
}
use beep.Datapath.{
  Node, Skb, World, Verdict, ok, shot, Kernel, Hook, ◌>>=◌, ◌>>◌, pure, return, world_of,
}
use beep.Datapath.Maps.{
  evicted_now, insert_flow, flow_table_insert, fwd_pending_get, fwd_pending_insert,
  count_front_miss, gc_parity, write_forward, touch_forward_row, write_reverse, touch_return_row,
  read_forward, read_reverse,
}
use beep.Datapath.Frame.{
  Frame, Keeps, Keeps-pure, Keeps-return, Keeps-or_none, Keeps-or_return, Keeps-node_of,
  Keeps-change_node, Keeps-accepted, Keeps-if, Keeps-read, Keeps-bind, Keeps-then, Keeps-from,
}

-- The table has no new keys, and it has lost those only that the kernel evicts.
abbrev pub SameKeys : Node → Node → Type 0
SameKeys n n' =
    ((key : List ℕ) → is_some (flow_at n'.table key) ≡ true → is_some (flow_at n.table key) ≡ true)
    × ((key : List ℕ)
        → will_evict n.evictions key ≡ false
        → is_some (flow_at n'.table key) ≡ is_some (flow_at n.table key))
    × EvictsLater n n'

pub SameKeys-joins : (n n' n'' : Node) → SameKeys n n' → SameKeys n' n'' → SameKeys n n''
SameKeys-joins n n' n'' r r' =
    (λ k h. r.0 k (r'.0 k h), λ k h. r'.1 k (still k h) ∙ r.1 k h, λ k h. r.2 k (r'.2 k h))
  where
    still : (k : List ℕ) → will_evict n.evictions k ≡ false → will_evict n'.evictions k ≡ false
    still k h = elim (Bool-cases (will_evict n'.evictions k)) [
      | inl e ↦ absurd (cc (r.2 k e, h))
      | inr e ↦ e
    ]

pub SameKeys-refl : (n : Node) → SameKeys n n
SameKeys-refl n = (λ k h. h, λ k h. refl, λ k h. h)

-- It has a row under a key, if it had one.
abbrev StillAt : List ℕ → Node → Node → Type 0
StillAt key n n' = is_some (flow_at n.table key) ≡ true → is_some (flow_at n'.table key) ≡ true

-- The frame of nodes whose table has a row under a key, and of all nodes.
abbrev pub with_row : List ℕ → Frame
with_row key = record {
  rel = λ n n'. SameKeys n n' × StillAt key n n';
  at = λ n. is_some (flow_at n.table key) ≡ true;
  stays = λ n. (SameKeys-refl n, λ h. h);
  joins = λ n n' n'' r r'. (SameKeys-joins n n' n'' r.0 r'.0, λ h. r'.1 (r.1 h));
  stable = λ n n' r h. r.1 h;
}

abbrev pub all_rows : Frame
all_rows = record {
  rel = SameKeys;
  at = λ n. Unit {0};
  stays = SameKeys-refl;
  joins = SameKeys-joins;
  stable = λ n n' r h. tt;
}

insert_flow-keys :
    (key : List ℕ) (value : FlowValue) (n : Node)
    → is_some (flow_at n.table key) ≡ true
    → SameKeys n (insert_flow key value n) × StillAt key n (insert_flow key value n)
insert_flow-keys key value n h = (
  (no_new, kept, insert_flow-EvictsLater key value n),
  λ _.
      ap is_some (flow_at-insert_flow key key value n)
      ∙ rw (is_yes-true (Bytes-discrete key key) refl) refl,
)
  where
    was : (k : List ℕ) → is_yes (Bytes-discrete key k) ≡ true → is_some (flow_at n.table k) ≡ true
    was k e =
        ap (λ (j : List ℕ). is_some (flow_at n.table j))
          (sym ((is_yes_iff (Bytes-discrete key k)).0 e))
        ∙ h

    no_new :
        (k : List ℕ)
        → is_some (flow_at (insert_flow key value n).table k) ≡ true
        → is_some (flow_at n.table k) ≡ true
    no_new k f =
        let row = flow_at-insert_flow key k value n in
        elim (Bool-cases (is_yes (Bytes-discrete key k))) [
          | inl e ↦ was k e
          | inr e ↦ elim (Bool-cases (has_key k (evicted_now n.evictions))) [
            | inl g ↦
                let gone : is_some (flow_at (insert_flow key value n).table k) ≡ false =
                  ap is_some row ∙ rw (e, g) refl in
                absurd (cc (f, gone))
            | inr g ↦
                let same : is_some (flow_at (insert_flow key value n).table k)
                    ≡ is_some (flow_at n.table k) =
                  ap is_some row ∙ rw (e, g) refl in
                sym same ∙ f
          ]
        ]

    kept :
        (k : List ℕ)
        → will_evict n.evictions k ≡ false
        → is_some (flow_at (insert_flow key value n).table k) ≡ is_some (flow_at n.table k)
    kept k f =
        let row = flow_at-insert_flow key k value n in
        elim (Bool-cases (is_yes (Bytes-discrete key k))) [
          | inl e ↦ ap is_some row ∙ rw e refl ∙ sym (was k e)
          | inr e ↦ elim (Bool-cases (has_key k (evicted_now n.evictions))) [
            | inl g ↦ absurd (cc (f, will_evict-now n.evictions k g))
            | inr g ↦ ap is_some row ∙ rw (e, g) refl
          ]
        ]

module _ (key : List ℕ) where
  Keeps-insert : (value : FlowValue) → Keeps (with_row key) (flow_table_insert key value)
  unfolding flow_table_insert
  Keeps-insert value =
      let F = with_row key in
      Keeps-bind F _ _ (Keeps-accepted F) (λ a.
        Keeps-if F a _ _
          (Keeps-then F _ _
            (Keeps-change_node F (insert_flow key value) (λ n h. insert_flow-keys key value n h))
            (Keeps-pure F true))
          (Keeps-pure F false))

  Keeps-write_forward :
      (value : ForwardFlowValue) (step : FlowStep)
      → Keeps (with_row key) (write_forward key value step)
  unfolding write_forward
  Keeps-write_forward value keep = Keeps-pure _ tt
  Keeps-write_forward value skip = Keeps-pure _ tt
  Keeps-write_forward value (write flags) = Keeps-bind _ _ _ (Keeps-insert _) (λ a. Keeps-pure _ tt)

  pub Keeps-touch_forward_row :
      (value : ForwardFlowValue) (proto tcp_flags : ℕ) (side : FlowSide)
      → Keeps (with_row key) (touch_forward_row key value proto tcp_flags side)
  unfolding touch_forward_row gc_parity
  Keeps-touch_forward_row value proto tcp_flags side =
      Keeps-bind _ _ _ (Keeps-node_of _ _) (λ parity. Keeps-write_forward value _)

  Keeps-write_reverse :
      (rev : RevFlowValue) (step : FlowStep) → Keeps (with_row key) (write_reverse key rev step)
  unfolding write_reverse
  Keeps-write_reverse rev keep = Keeps-pure _ tt
  Keeps-write_reverse rev skip = Keeps-pure _ tt
  Keeps-write_reverse rev (write flags) = Keeps-bind _ _ _ (Keeps-insert _) (λ a. Keeps-pure _ tt)

  pub Keeps-touch_return_row :
      (rev : RevFlowValue) (proto tcp_flags : ℕ)
      → Keeps (with_row key) (touch_return_row key rev proto tcp_flags)
  unfolding touch_return_row gc_parity
  Keeps-touch_return_row rev proto tcp_flags =
      Keeps-bind _ _ _ (Keeps-node_of _ _) (λ parity. Keeps-write_reverse rev _)

module _ (kernel : Kernel) where
  -- A row that was read is there.
  pub read_forward-some :
      (key : List ℕ) (n : Node) (value : ForwardFlowValue)
      → read_forward kernel (flow_at n.table key) ≡ some value
      → is_some (flow_at n.table key) ≡ true
  read_forward-some key n value e = go (flow_at n.table key) e
    where
      go :
          (found : Option FlowValue) → read_forward kernel found ≡ some value → is_some found ≡ true
      go none e = absurd (cc e)
      go (some v) e = refl

  pub read_reverse-some :
      (key : List ℕ) (n : Node) (value : RevFlowValue)
      → read_reverse kernel (flow_at n.table key) ≡ some value
      → is_some (flow_at n.table key) ≡ true
  read_reverse-some key n value e = go (flow_at n.table key) e
    where
      go :
          (found : Option FlowValue) → read_reverse kernel found ≡ some value → is_some found ≡ true
      go none e = absurd (cc e)
      go (some v) e = refl
