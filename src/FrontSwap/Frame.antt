-- ===== src/FrontSwap/Frame.antt =====
-- The rows and the fronts that none of a run's steps names (src/front_swap.rs).
use beep.Common.{
  ℕ, suc, ◌+◌, ◌<◌, ◌≤◌, ◌≡◌, ◌≢◌, refl, ◌∙◌, Bool, true, false, ◌&&◌, ◌||◌, Option, none, some,
  List, [], ◌∷◌, All, All-map, length, arith, is_yes-false, of_is_yes, Bool-cases, inl, inr,
}
use beep.Common.Assoc.{lookup-insert, lookup-remove}
use beep.Maps.{
  LbFrontKey, LbFrontKey-discrete, FrontEndpointKey, FrontEndpointKey-discrete, FrontEndpoint,
}
use beep.FrontSwap.{
  FrontWrite, delete_endpoint, put_endpoint, put_meta, delete_meta, Metas, Endpoints, meta_at,
  row_at, endpoint_key, deletes, puts, existing_keys, same_front,
}
use beep.FrontSwap.Apply.{
  Store, FrontFailure, failure, apply_write, write_map, run_steps, is_put_meta, ends_plan,
  blocks_commit,
}

-- No step of this kind names the row, or the front.
abbrev pub SparesRow : FrontEndpointKey → FrontWrite → Type 0
SparesRow key (delete_endpoint k) = k ≢ key
SparesRow key (put_endpoint k row) = k ≢ key
SparesRow key (put_meta front m) = Unit
SparesRow key (delete_meta front) = Unit

abbrev pub SparesMeta : LbFrontKey → FrontWrite → Type 0
SparesMeta front (put_meta f m) = f ≢ front
SparesMeta front (delete_meta f) = f ≢ front
SparesMeta front (delete_endpoint k) = Unit
SparesMeta front (put_endpoint k row) = Unit

module _ {E : Type 0} (errno : E → Option ℕ) where
  abbrev pub end_of : Bool → List FrontWrite → Store E → Store E
  end_of blocked ws s = (run_steps errno write_map blocked ws s).0

  abbrev store : Metas → Endpoints → List (Option E) → Store E
  store m r os = record { metas = m; endpoints = r; outcomes = os }

  -- A step is passed over, carried out, or refused, and the run goes on or ends there.
  pub run_steps-cases :
      (Q : Store E × List (FrontFailure E) → Type 0) (blocked : Bool) (w : FrontWrite)
      (ws : List FrontWrite) (m : Metas) (r : Endpoints) (os : List (Option E))
      → (blocked && is_put_meta w ≡ true → Q (run_steps errno write_map blocked ws (store m r os)))
      → (blocked && is_put_meta w ≡ false
          → (later : List (Option E))
          → Q (run_steps errno write_map blocked ws (apply_write w (store m r later))))
      → (blocked && is_put_meta w ≡ false
          → ends_plan w ≡ true
          → (later : List (Option E)) (e : E) → Q (store m r later, failure errno w e ∷ []))
      → (blocked && is_put_meta w ≡ false
          → ends_plan w ≡ false
          → (later : List (Option E)) (e : E)
          → let rest =
              run_steps errno write_map (blocked || blocks_commit w) ws (store m r later) in
            Q (rest.0, failure errno w e ∷ rest.1))
      → Q (run_steps errno write_map blocked (w ∷ ws) (store m r os))
  unfolding run_steps
  run_steps-cases Q blocked w ws m r os passed done ended refused =
      elim (Bool-cases (blocked && is_put_meta w)) [
        | inl p ↦ rw (p, run_steps) (passed p)
        | inr p ↦ tried os p
      ]
    where
      tried :
          (os : List (Option E))
          → blocked && is_put_meta w ≡ false
          → Q (run_steps errno write_map blocked (w ∷ ws) (store m r os))
      tried [] p = rw (p, run_steps) (done p [])
      tried (none ∷ later) p = rw (p, run_steps) (done p later)
      tried (some e ∷ later) p = elim (Bool-cases (ends_plan w)) [
        | inl x ↦ rw (p, x, run_steps) (ended p x later e)
        | inr x ↦ rw (p, x, run_steps) (refused p x later e)
      ]

  -- A property of the maps that each step keeps is kept by a run.
  pub run_steps-keeps :
      (P : Metas → Endpoints → Type 0) (ws : List FrontWrite)
      → All
          (λ w.
            (s : Store E)
            → P s.metas s.endpoints
            → P (apply_write w s).metas (apply_write w s).endpoints)
          ws
      → (blocked : Bool) (s : Store E) → P s.metas s.endpoints
      → P (end_of blocked ws s).metas (end_of blocked ws s).endpoints
  unfolding run_steps
  run_steps-keeps P [] all blocked s h = h
  run_steps-keeps P (w ∷ ws) all blocked s h =
      run_steps-cases (λ t. P t.0.metas t.0.endpoints) blocked w ws s.metas s.endpoints s.outcomes
        (λ _. run_steps-keeps P ws all.1 blocked s h)
        (λ _ later.
          run_steps-keeps P ws all.1 blocked _ (all.0 (store s.metas s.endpoints later) h))
        (λ _ _ later e. h)
        (λ _ _ later e.
          run_steps-keeps P ws all.1 (blocked || blocks_commit w) (store s.metas s.endpoints later)
            h)

  row-apply_write :
      (key : FrontEndpointKey) (w : FrontWrite)
      → SparesRow key w
      → (s : Store E) → row_at (apply_write w s).endpoints key ≡ row_at s.endpoints key
  row-apply_write key (delete_endpoint k) n s = ground (
    arith,
    lookup-remove FrontEndpointKey-discrete k key s.endpoints,
    is_yes-false (FrontEndpointKey-discrete k key) n,
  )
  row-apply_write key (put_endpoint k row) n s = ground (
    arith,
    lookup-insert FrontEndpointKey-discrete k key row s.endpoints,
    is_yes-false (FrontEndpointKey-discrete k key) n,
  )
  row-apply_write key (put_meta f m) n s = refl
  row-apply_write key (delete_meta f) n s = refl

  meta-apply_write :
      (front : LbFrontKey) (w : FrontWrite)
      → SparesMeta front w
      → (s : Store E) → meta_at (apply_write w s).metas front ≡ meta_at s.metas front
  meta-apply_write front (put_meta f m) n s = ground (
    arith,
    lookup-insert LbFrontKey-discrete f front m s.metas,
    is_yes-false (LbFrontKey-discrete f front) n,
  )
  meta-apply_write front (delete_meta f) n s = ground (
    arith,
    lookup-remove LbFrontKey-discrete f front s.metas,
    is_yes-false (LbFrontKey-discrete f front) n,
  )
  meta-apply_write front (delete_endpoint k) n s = refl
  meta-apply_write front (put_endpoint k row) n s = refl

  -- A row that no step names is the same after the run.
  pub row-run_steps :
      (key : FrontEndpointKey) (ws : List FrontWrite)
      → All (SparesRow key) ws
      → (blocked : Bool) (s : Store E)
      → row_at (end_of blocked ws s).endpoints key ≡ row_at s.endpoints key
  row-run_steps key ws all blocked s =
      run_steps-keeps (λ m r. row_at r key ≡ row_at s.endpoints key) ws
        (All-map (SparesRow key) _ (λ w n t h. row-apply_write key w n t ∙ h) ws all) blocked s refl

  -- A front that no step names keeps its meta.
  pub meta-run_steps :
      (front : LbFrontKey) (ws : List FrontWrite)
      → All (SparesMeta front) ws
      → (blocked : Bool) (s : Store E)
      → meta_at (end_of blocked ws s).metas front ≡ meta_at s.metas front
  meta-run_steps front ws all blocked s =
      run_steps-keeps (λ m r. meta_at m front ≡ meta_at s.metas front) ws
        (All-map (SparesMeta front) _ (λ w n t h. meta-apply_write front w n t ∙ h) ws all) blocked
        s refl

-- The keys of a front are those of the front.
pub existing_keys-front :
    (front : LbFrontKey) (rows : Endpoints)
    → All (λ key. key.front ≡ front) (existing_keys front rows)
unfolding existing_keys
existing_keys-front front [] = tt
existing_keys-front front ((key, row) ∷ rows) = elim (Bool-cases (same_front key.front front)) [
  | inl e ↦ rw e (of_is_yes (LbFrontKey-discrete key.front front) e, existing_keys-front front rows)
  | inr e ↦ rw e (existing_keys-front front rows)
]

-- Every delete of a list has a property that the keys which pass the test give it.
pub All-deletes :
    (P : FrontWrite → Type 0) (test : FrontEndpointKey → Bool) (keys : List FrontEndpointKey)
    → All (λ key. test key ≡ true → P (delete_endpoint key)) keys
    → All P (deletes test keys)
unfolding deletes
All-deletes P test [] h = tt
All-deletes P test (key ∷ keys) h = elim (Bool-cases (test key)) [
  | inl e ↦ rw e (h.0 e, All-deletes P test keys h.1)
  | inr e ↦ rw e (All-deletes P test keys h.1)
]

-- Likewise for the puts of a run of slots.
pub All-puts :
    (P : FrontWrite → Type 0) (front : LbFrontKey) (generation slot : ℕ) (eps : List FrontEndpoint)
    → ((i : ℕ)
        → slot ≤ i
        → i < slot + length eps
        → (row : FrontEndpoint) → P (put_endpoint (endpoint_key front generation i) row))
    → All P (puts front generation slot eps)
unfolding puts
All-puts P front g slot [] h = tt
All-puts P front g slot (ep ∷ eps) h = (
  h slot (omega arith) (omega arith) ep,
  All-puts P front g (suc slot) eps (λ i a b row. h i (omega arith) (omega arith) row),
)
