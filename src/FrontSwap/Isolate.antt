-- ===== src/FrontSwap/Isolate.antt =====
-- The plan of one front beside the other fronts, and the plan of an absent front (src/front_swap.rs).
use beep.Common.{
  ℕ, ◌≡◌, ◌≢◌, refl, ap, sym, ◌∙◌, Bool, true, false, Option, none, some, List, [], ◌∷◌, All,
  All-append, All-map, arith, Bool-cases, inl, inr, ◌⊎◌, ◌==◌, is_yes-true,
}
use beep.Common.Assoc.{remove, lookup-remove}
use beep.Maps.{LbFrontKey, LbFrontKey-discrete, FrontMeta, FrontEndpointKey}
use beep.FrontSwap.{
  DesiredFront, FrontWrite, delete_endpoint, put_endpoint, put_meta, delete_meta, Metas, Endpoints,
  meta_at, row_at, deletes, puts, existing_keys, is_unchanged, is_stale, is_dead, unchanged_steps,
  swap_steps, swap_generation, absent_steps, desired_steps, front_steps,
}
use beep.FrontSwap.Apply.{Store, write_map, run_steps}
use beep.FrontSwap.Frame.{
  SparesRow, SparesMeta, run_steps-cases, row-run_steps, meta-run_steps, All-puts, All-deletes,
  existing_keys-front,
}

-- A write names this front.
abbrev pub Names : LbFrontKey → FrontWrite → Type 0
Names front (delete_endpoint key) = key.front ≡ front
Names front (put_endpoint key row) = key.front ≡ front
Names front (put_meta f m) = f ≡ front
Names front (delete_meta f) = f ≡ front

deletes-Names :
    (test : FrontEndpointKey → Bool) (front : LbFrontKey) (rows : Endpoints)
    → All (Names front) (deletes test (existing_keys front rows))
deletes-Names test front rows = All-deletes (Names front) test (existing_keys front rows) (
    All-map (λ key. key.front ≡ front) (λ key. test key ≡ true → key.front ≡ front) (λ key e _. e)
      (existing_keys front rows) (existing_keys-front front rows))

swap-Names :
    (meta : Option FrontMeta) (rows : Endpoints) (front : LbFrontKey) (want : DesiredFront)
    → All (Names front) (swap_steps meta (existing_keys front rows) front want)
unfolding swap_steps
swap-Names meta rows front want =
    let g = swap_generation meta in
    All-append (Names front) (deletes (is_dead meta) (existing_keys front rows)) _
      (deletes-Names (is_dead meta) front rows)
      (All-append (Names front) (puts front g 0 want.endpoints) _
        (All-puts (Names front) front g 0 want.endpoints (λ i a b row. refl)) (refl, tt))

unchanged-Names :
    (m : FrontMeta) (rows : Endpoints) (front : LbFrontKey) (want : DesiredFront) (held : Bool)
    → All (Names front) (unchanged_steps m (existing_keys front rows) front want held)
unfolding unchanged_steps
unchanged-Names m rows front want held =
    All-append (Names front) (deletes (is_stale m held) (existing_keys front rows)) _
      (deletes-Names (is_stale m held) front rows)
      (elim (Bool-cases (m.flags == want.flags)) [ inl e ↦ rw e tt | inr e ↦ rw e (refl, tt) ])

desired-Names :
    (meta : Option FrontMeta) (rows : Endpoints) (front : LbFrontKey) (want : DesiredFront)
    (held : Bool)
    → All (Names front) (desired_steps meta rows front want held)
unfolding desired_steps
desired-Names none rows front want held = swap-Names none rows front want
desired-Names (some m) rows front want held = elim (Bool-cases (is_unchanged m rows front want)) [
  | inl e ↦ rw e (unchanged-Names m rows front want held)
  | inr e ↦ rw e (swap-Names (some m) rows front want)
]

absent-Names :
    (meta : Option FrontMeta) (rows : Endpoints) (front : LbFrontKey)
    → All (Names front) (absent_steps meta (existing_keys front rows) front)
unfolding absent_steps
absent-Names none rows front = deletes-Names (λ _. true) front rows
absent-Names (some m) rows front = (refl, deletes-Names (λ _. true) front rows)

front_steps-Names :
    (metas : Metas) (rows : Endpoints) (want : Option DesiredFront) (prune_absent held : Bool)
    (front : LbFrontKey)
    → All (Names front) (front_steps metas rows want prune_absent held front)
unfolding front_steps
front_steps-Names metas rows none true held front = absent-Names (meta_at metas front) rows front
front_steps-Names metas rows none false held front = tt
front_steps-Names metas rows (some want) prune_absent held front =
    desired-Names (meta_at metas front) rows front want held

spares_row :
    (front : LbFrontKey) (key : FrontEndpointKey)
    → front ≢ key.front
    → (w : FrontWrite) → Names front w
    → SparesRow key w
spares_row front key n (delete_endpoint k) e =
    λ same. n (sym e ∙ ap (λ (k : FrontEndpointKey). k.front) same)
spares_row front key n (put_endpoint k row) e =
    λ same. n (sym e ∙ ap (λ (k : FrontEndpointKey). k.front) same)
spares_row front key n (put_meta f m) e = tt
spares_row front key n (delete_meta f) e = tt

spares_meta :
    (front other : LbFrontKey)
    → front ≢ other
    → (w : FrontWrite) → Names front w
    → SparesMeta other w
spares_meta front other n (put_meta f m) e = λ same. n (sym e ∙ same)
spares_meta front other n (delete_meta f) e = λ same. n (sym e ∙ same)
spares_meta front other n (delete_endpoint k) e = tt
spares_meta front other n (put_endpoint k row) e = tt

-- Running the plan of one front, wanted or not and with any writes failing, leaves the meta and
-- every row of every other front as they were.
pub front_steps-isolated :
    {E : Type 0} (errno : E → Option ℕ) (s : Store E) (want : Option DesiredFront)
    (prune_absent held : Bool) (front other : LbFrontKey)
    → front ≢ other
    → let t =
        (run_steps errno write_map false
          (front_steps s.metas s.endpoints want prune_absent held front)
          s).0 in
      (meta_at t.metas other ≡ meta_at s.metas other)
      × ((key : FrontEndpointKey)
          → key.front ≡ other
          → row_at t.endpoints key ≡ row_at s.endpoints key)
front_steps-isolated errno s want prune_absent held front other n =
    let steps = front_steps s.metas s.endpoints want prune_absent held front in
    let names = front_steps-Names s.metas s.endpoints want prune_absent held front in
    (
      meta-run_steps errno other steps
          (All-map (Names front) (SparesMeta other) (spares_meta front other n) steps names) false
          s,
      λ key e.
          row-run_steps errno key steps
            (All-map (Names front) (SparesRow key) (spares_row front key (λ same. n (same ∙ e)))
              steps names)
            false s,
    )

deletes-SparesMeta :
    (front : LbFrontKey) (test : FrontEndpointKey → Bool) (keys : List FrontEndpointKey)
    → All (SparesMeta front) (deletes test keys)
deletes-SparesMeta front test keys = All-deletes (SparesMeta front) test keys (each keys)
  where
    each :
        (keys : List FrontEndpointKey)
        → All (λ key. test key ≡ true → SparesMeta front (delete_endpoint key)) keys
    each [] = tt
    each (key ∷ keys) = (λ _. tt, each keys)

-- Pruning an absent front, with any writes failing, either takes its meta away, or leaves both maps
-- as they were and reports a failure: no row is deleted while the meta that names it stands.
pub front_steps-pruned :
    {E : Type 0} (errno : E → Option ℕ) (s : Store E) (held : Bool) (front : LbFrontKey)
    → let result =
        run_steps errno write_map false (front_steps s.metas s.endpoints none true held front) s in
      (meta_at result.0.metas front ≡ none)
      ⊎ ((result.0.metas ≡ s.metas) × (result.0.endpoints ≡ s.endpoints) × (result.1 ≢ []))
unfolding front_steps absent_steps
front_steps-pruned {E = E} errno s held front = go (meta_at s.metas front) refl
  where
    keys : List FrontEndpointKey
    keys = existing_keys front s.endpoints

    gone : FrontWrite → Type 0
    gone = SparesMeta front

    removed : meta_at (remove LbFrontKey-discrete front s.metas) front ≡ none
    removed = ground (
      arith,
      lookup-remove LbFrontKey-discrete front front s.metas,
      is_yes-true (LbFrontKey-discrete front front) refl,
    )

    go :
        (meta : Option FrontMeta)
        → meta_at s.metas front ≡ meta
        → let result = run_steps errno write_map false (absent_steps meta keys front) s in
          (meta_at result.0.metas front ≡ none)
          ⊎ ((result.0.metas ≡ s.metas) × (result.0.endpoints ≡ s.endpoints) × (result.1 ≢ []))
    go none e = inl (meta-run_steps errno front _ (deletes-SparesMeta front _ keys) false s ∙ e)
    go (some m) e =
        run_steps-cases errno
          (λ r.
            (meta_at r.0.metas front ≡ none)
            ⊎ ((r.0.metas ≡ s.metas) × (r.0.endpoints ≡ s.endpoints) × (r.1 ≢ [])))
          false (delete_meta front) (deletes (λ _. true) keys) s.metas s.endpoints s.outcomes
          (λ p. absurd (cc p))
          (λ _ later.
            inl (meta-run_steps errno front _ (deletes-SparesMeta front _ keys) false _ ∙ removed))
          (λ _ _ later x. inr (refl, refl, λ e. cc e)) (λ _ p later x. absurd (cc p))
