-- ===== src/Datapath/Evict.antt =====
-- What the LRU maps lose to the kernel (`FLOW_TABLE` of ebpf/src/main.rs): the rows under the keys of
-- `evictions`, the row that is being written excepted.
use beep.Common.{
  ℕ, ◌≡◌, refl, ◌∙◌, Bool, true, false, ◌||◌, none, some, List, [], ◌∷◌, if◌then◌else◌, is_yes,
  arith,
}
use beep.Common.Assoc.{lookup, remove, lookup-insert, lookup-remove}
use beep.Maps.{Bytes-discrete}
use beep.Table.{FlowValue, Table, flow_at}
use beep.Table.Lookup.{has_key}
use beep.Datapath.{Node}
use beep.Datapath.Maps.{left_by, evicted_now, evicted_later, insert_flow}

-- The kernel evicts the row of a key with one of these inserts.
abbrev pub will_evict : List (List (List ℕ)) → List ℕ → Bool
will_evict [] key = false
will_evict (keys ∷ later) key = has_key key keys || will_evict later key

pub will_evict-now :
    (e : List (List (List ℕ))) (key : List ℕ)
    → has_key key (evicted_now e) ≡ true
    → will_evict e key ≡ true
will_evict-now [] key h = h
will_evict-now (keys ∷ later) key h = rw h refl

-- What may still be evicted behind some steps is among what may be evicted before them.
abbrev pub EvictsLater : Node → Node → Type 0
EvictsLater n n' =
    (key : List ℕ) → will_evict n'.evictions key ≡ true → will_evict n.evictions key ≡ true

pub insert_flow-EvictsLater :
    (key : List ℕ) (value : FlowValue) (n : Node) → EvictsLater n (insert_flow key value n)
insert_flow-EvictsLater key value n k h = go n.evictions h
  where
    go : (e : List (List (List ℕ))) → will_evict (evicted_later e) k ≡ true → will_evict e k ≡ true
    go [] h = h
    go (keys ∷ later) h = ground (arith, h)

lookup-left_by :
    (keys : List (List ℕ)) (key : List ℕ) (rows : Table)
    → lookup Bytes-discrete key (left_by keys rows)
      ≡ (if has_key key keys then none else lookup Bytes-discrete key rows)
lookup-left_by [] key rows = refl
lookup-left_by (k ∷ keys) key rows =
    lookup-left_by keys key (remove Bytes-discrete k rows)
    ∙ ground (arith, lookup-remove Bytes-discrete k key rows)

-- Every row behind an insert.
pub flow_at-insert_flow :
    (key k : List ℕ) (value : FlowValue) (n : Node)
    → flow_at (insert_flow key value n).table k ≡ (
        if is_yes (Bytes-discrete key k)
        then some value
        else if has_key k (evicted_now n.evictions)
        then none
        else flow_at n.table k)
flow_at-insert_flow key k value n =
    lookup-insert Bytes-discrete key k value (left_by (evicted_now n.evictions) n.table)
    ∙ rw (lookup-left_by (evicted_now n.evictions) k n.table) refl
