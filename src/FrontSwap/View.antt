-- ===== src/FrontSwap/View.antt =====
-- What a reader of the two maps finds under a front, and which rows the plans for a wanted front
-- pass over.
use beep.Common.{
  ℕ, zero, suc, ◌+◌, ◌≡◌, ◌≢◌, ap, ◌∙◌, Bool, true, Option, none, some, List, [], ◌∷◌, All,
  All-append, get_elem?, arith, of_is_yes, if◌then◌else◌, Bool-cases, inl, inr, ◌==◌,
}
use beep.Maps.{LbFrontKey, FrontMeta, FrontEndpointKey, FrontEndpoint, FrontEndpoint-discrete}
use beep.FrontSwap.{
  DesiredFront, put_meta, Metas, Endpoints, meta_at, row_at, endpoint_key, deletes, puts,
  rows_match, row_is, existing_keys, is_unchanged, is_stale, is_dead, unchanged_steps, swap_steps,
  next_generation, swapped_meta, desired_steps,
}
use beep.FrontSwap.Frame.{SparesRow, All-puts, All-deletes}

abbrev pub slot_key : LbFrontKey → ℕ → ℕ → FrontEndpointKey
slot_key front generation slot = record { front = front; generation = generation; slot = slot }

-- The front is published as it is wanted: the meta has its counts and flags, and the rows of the
-- meta's generation are its endpoints, in their order.
pub record Serves (metas : Metas) (rows : Endpoints) (front : LbFrontKey) (want : DesiredFront)
    : Type 0 where
  pub generation : ℕ
  pub meta_is : meta_at metas front ≡ some (swapped_meta generation want)
  pub rows_are :
      (i : ℕ) (row : FrontEndpoint)
      → get_elem? want.endpoints i ≡ some row
      → row_at rows (endpoint_key front generation i) ≡ some row

pub row_is-eq : (o : Option FrontEndpoint) (ep : FrontEndpoint) → row_is o ep ≡ true → o ≡ some ep
row_is-eq none ep e = absurd (cc e)
row_is-eq (some row) ep e = ap some (of_is_yes (FrontEndpoint-discrete row ep) e)

-- Rows that match are the endpoints.
pub rows_match-rows :
    (rows : Endpoints) (front : LbFrontKey) (g slot : ℕ) (eps : List FrontEndpoint)
    → rows_match rows front g slot eps ≡ true
    → (i : ℕ) (row : FrontEndpoint) → get_elem? eps i ≡ some row
    → row_at rows (endpoint_key front g (slot + i)) ≡ some row
unfolding rows_match
rows_match-rows rows front g slot [] h i row e = absurd (cc e)
rows_match-rows rows front g slot (ep ∷ eps) h zero row e =
    let same : slot + 0 ≡ slot = omega arith in
    ap (λ (n : ℕ). row_at rows (endpoint_key front g n)) same
    ∙ row_is-eq (row_at rows (endpoint_key front g slot)) ep (ground (arith, h))
    ∙ e
rows_match-rows rows front g slot (ep ∷ eps) h (suc i) row e =
    let next : slot + suc i ≡ suc slot + i = omega arith in
    ap (λ (n : ℕ). row_at rows (endpoint_key front g n)) next
    ∙ rows_match-rows rows front g (suc slot) eps (ground (arith, h)) i row e

-- The first slot is 0.
pub from_zero :
    (rows : Endpoints) (front : LbFrontKey) (g : ℕ) (eps : List FrontEndpoint)
    → ((i : ℕ) (row : FrontEndpoint)
        → get_elem? eps i ≡ some row
        → row_at rows (endpoint_key front g (0 + i)) ≡ some row)
    → (i : ℕ) (row : FrontEndpoint) → get_elem? eps i ≡ some row
    → row_at rows (endpoint_key front g i) ≡ some row
from_zero rows front g eps h i row e =
    let same : i ≡ 0 + i = omega arith in
    ap (λ (n : ℕ). row_at rows (endpoint_key front g n)) same ∙ h i row e

-- Deletes that pass over a generation spare its rows, and deletes spare every meta.
deletes-SparesRow :
    (front : LbFrontKey) (g slot : ℕ) (test : FrontEndpointKey → Bool)
    (keys : List FrontEndpointKey)
    → ((key : FrontEndpointKey) → test key ≡ true → key.generation ≢ g)
    → All (SparesRow (slot_key front g slot)) (deletes test keys)
deletes-SparesRow front g slot test keys h =
    All-deletes (SparesRow (slot_key front g slot)) test keys (each keys)
  where
    each :
        (keys : List FrontEndpointKey)
        → All (λ key. test key ≡ true → key ≢ slot_key front g slot) keys
    each [] = tt
    each (key ∷ keys) = (λ t e. h key t (ap (λ (k : FrontEndpointKey). k.generation) e), each keys)

is_dead-generation :
    (m : FrontMeta) (key : FrontEndpointKey)
    → is_dead (some m) key ≡ true
    → key.generation ≢ m.generation
is_dead-generation m key h e = ground (arith, h, e)

is_stale-generation :
    (m : FrontMeta) (held : Bool) (key : FrontEndpointKey)
    → is_stale m held key ≡ true
    → key.generation ≢ m.generation
is_stale-generation m held key h e = ground (arith, h, e)

next_generation-ne : (g : ℕ) → next_generation g ≢ g
next_generation-ne g e = omega arith

pub swap-SparesRow :
    (m : FrontMeta) (keys : List FrontEndpointKey) (front : LbFrontKey) (want : DesiredFront)
    (slot : ℕ)
    → All (SparesRow (slot_key front m.generation slot)) (swap_steps (some m) keys front want)
unfolding swap_steps
swap-SparesRow m keys front want slot =
    let P = SparesRow (slot_key front m.generation slot) in
    All-append P (deletes (is_dead (some m)) keys) _
      (deletes-SparesRow front m.generation slot (is_dead (some m)) keys (is_dead-generation m))
      (All-append P (puts front (next_generation m.generation) 0 want.endpoints) _
        (All-puts P front (next_generation m.generation) 0 want.endpoints (λ i a b row e.
          next_generation-ne m.generation (ap (λ (k : FrontEndpointKey). k.generation) e)))
        (tt, tt))

flags-SparesRow :
    (m : FrontMeta) (front : LbFrontKey) (want : DesiredFront) (key : FrontEndpointKey)
    → All (SparesRow key) (
        if m.flags == want.flags then [] else put_meta front (record m { flags = want.flags }) ∷ [])
flags-SparesRow m front want key = elim (Bool-cases (m.flags == want.flags)) [
  | inl e ↦ rw e tt
  | inr e ↦ rw e (tt, tt)
]

pub unchanged-SparesRow :
    (m : FrontMeta) (keys : List FrontEndpointKey) (front : LbFrontKey) (want : DesiredFront)
    (held : Bool) (slot : ℕ)
    → All (SparesRow (slot_key front m.generation slot)) (unchanged_steps m keys front want held)
unfolding unchanged_steps
unchanged-SparesRow m keys front want held slot =
    All-append (SparesRow (slot_key front m.generation slot)) (deletes (is_stale m held) keys) _
      (deletes-SparesRow front m.generation slot (is_stale m held) keys
        (is_stale-generation m held))
      (flags-SparesRow m front want (slot_key front m.generation slot))

pub desired-SparesRow :
    (m : FrontMeta) (rows : Endpoints) (front : LbFrontKey) (want : DesiredFront) (held : Bool)
    (slot : ℕ)
    → All
        (SparesRow (slot_key front m.generation slot))
        (desired_steps (some m) rows front want held)
unfolding desired_steps
desired-SparesRow m rows front want held slot = elim (Bool-cases (is_unchanged m rows front want)) [
  | inl e ↦ rw e (unchanged-SparesRow m (existing_keys front rows) front want held slot)
  | inr e ↦ rw e (swap-SparesRow m (existing_keys front rows) front want slot)
]
