-- ===== src/FrontSwap/Swap.antt =====
-- What a reader of the two maps sees while one front's plan runs, whatever writes fail.
-- Every moment of a run is the end of a run whose later writes all fail, since a failed write
-- changes nothing: so what holds at the end of every run holds throughout each of them.
use beep.Common.{
  ℕ, ◌%◌, ◌<◌, ◌≡◌, ◌≢◌, refl, ap, ◌∙◌, Bool, true, false, Option, none, some, List, [], ◌∷◌,
  length, arith, if◌then◌else◌, Bool-cases, inl, inr, ◌⊎◌, ◌==◌, ==_iff,
}
use beep.Maps.{LbFrontKey, FrontMeta, FrontEndpointKey, u16_mod}
use beep.FrontSwap.{
  DesiredFront, put_meta, Metas, Endpoints, meta_at, row_at, puts, existing_keys, is_unchanged,
  is_stale, is_dead, unchanged_steps, swap_steps, swap_generation, swapped_meta, desired_steps,
  front_steps,
}
use beep.FrontSwap.Apply.{Store, FrontFailure, write_map, run_steps}
use beep.FrontSwap.Frame.{row-run_steps}
use beep.FrontSwap.Writes.{commit_steps, run_steps-deletes, run_steps-commit}
use beep.FrontSwap.View.{
  slot_key, Serves, from_zero, rows_match-rows, unchanged-SparesRow, desired-SparesRow,
}

-- The two outcomes of a run for a wanted front.
abbrev pub SwappedOrNot :
    {E : Type 0} → Metas → LbFrontKey → DesiredFront → Store E × List (FrontFailure E) → Type 0
SwappedOrNot metas front want result =
    Serves result.0.metas result.0.endpoints front want
    ⊎ ((result.0.metas ≡ metas) × (result.1 ≢ []))

module _ {E : Type 0} (errno : E → Option ℕ) where
  abbrev store : Metas → Endpoints → List (Option E) → Store E
  store m r os = record { metas = m; endpoints = r; outcomes = os }

  more_failures :
      (metas : Metas) (front : LbFrontKey) (want : DesiredFront) (t : Store E) (x : FrontFailure E)
      (fs : List (FrontFailure E))
      → SwappedOrNot metas front want (t, fs)
      → SwappedOrNot metas front want (t, x ∷ fs)
  more_failures metas front want t x fs (inl s) = inl s
  more_failures metas front want t x fs (inr (same, _)) = inr (same, λ e. cc e)

  swap-SwappedOrNot :
      (meta : Option FrontMeta) (keys : List FrontEndpointKey) (front : LbFrontKey)
      (want : DesiredFront)
      → length want.endpoints < u16_mod
      → (m : Metas) (r : Endpoints) (os : List (Option E))
      → SwappedOrNot m front want
          (run_steps errno write_map false (swap_steps meta keys front want) (store m r os))
  unfolding swap_steps
  swap-SwappedOrNot meta keys front want h m r os =
      let g = swap_generation meta in
      run_steps-deletes errno (SwappedOrNot m front want) (is_dead meta) keys
        (commit_steps errno front g (swapped_meta g want) 0 want.endpoints) m
        (λ r os.
          elim (run_steps-commit errno front g (swapped_meta g want) 0 want.endpoints (omega arith)
            false m r os) [
              | inl (d, _) ↦ inl (record {
                generation = g;
                meta_is = d.0;
                rows_are = from_zero _ front g want.endpoints d.1;
              })
              | inr (same, why) ↦ inr (same, elim why [ inl b ↦ absurd (cc b) | inr n ↦ n ])
            ])
        (more_failures m front want) r os

  wanted_meta :
      (m : FrontMeta) (rows : Endpoints) (front : LbFrontKey) (want : DesiredFront)
      → is_unchanged m rows front want ≡ true
      → record m { flags = want.flags } ≡ swapped_meta m.generation want
  wanted_meta m rows front want h = ground (arith, h)

  -- The steps behind the deletes of an unchanged front.
  flags-SwappedOrNot :
      (meta : FrontMeta) (front : LbFrontKey) (want : DesiredFront)
      → record meta { flags = want.flags } ≡ swapped_meta meta.generation want
      → (m : Metas) (r : Endpoints) (os : List (Option E)) → meta_at m front ≡ some meta
      → let result =
          run_steps errno write_map false
            (if meta.flags == want.flags
              then []
              else put_meta front (record meta { flags = want.flags }) ∷ [])
            (store m r os) in
        (meta_at result.0.metas front ≡ some (swapped_meta meta.generation want))
        ⊎ ((result.0.metas ≡ m) × (result.1 ≢ []))
  unfolding run_steps puts
  flags-SwappedOrNot meta front want same m r os live =
      elim (Bool-cases (meta.flags == want.flags)) [
        | inl e ↦
            let flags = (==_iff meta.flags want.flags).0 e in
            rw e (inl (live ∙ ap some (ap (λ (f : ℕ). record meta { flags = f }) flags ∙ same)))
        | inr e ↦
            rw e
              (elim (run_steps-commit errno front 0 (record meta { flags = want.flags }) 0 []
                (omega arith) false m r os) [
                  | inl (d, _) ↦ inl (d.0 ∙ ap some same)
                  | inr (kept, why) ↦ inr (kept, elim why [ inl b ↦ absurd (cc b) | inr n ↦ n ])
                ])
      ]

  abbrev Unchanged :
      (m : Metas) (front : LbFrontKey) (live : FrontMeta) → Store E × List (FrontFailure E) → Type 0
  Unchanged m front live result =
      (meta_at result.0.metas front ≡ some live) ⊎ ((result.0.metas ≡ m) × (result.1 ≢ []))

  unchanged-SwappedOrNot :
      (meta : FrontMeta) (front : LbFrontKey) (want : DesiredFront) (held : Bool)
      → (m : Metas) (r : Endpoints) (os : List (Option E)) → meta_at m front ≡ some meta
      → is_unchanged meta r front want ≡ true
      → SwappedOrNot m front want (
          run_steps errno write_map false
            (unchanged_steps meta (existing_keys front r) front want held)
            (store m r os))
  unfolding unchanged_steps
  unchanged-SwappedOrNot meta front want held m r os live h =
      let g = meta.generation in
      let keys = existing_keys front r in
      let steps = unchanged_steps meta keys front want held in
      let rows =
        from_zero r front g want.endpoints
          (rows_match-rows r front g 0 want.endpoints (ground (arith, h))) in
      let wanted = wanted_meta meta r front want h in
      let run =
        run_steps-deletes errno (Unchanged m front (swapped_meta g want)) (is_stale meta held) keys
          (if meta.flags == want.flags
            then []
            else put_meta front (record meta { flags = want.flags }) ∷ [])
          m (λ r os. flags-SwappedOrNot meta front want wanted m r os live)
          (λ t x fs u. elim u [ inl e ↦ inl e | inr (same, _) ↦ inr (same, λ e. cc e) ]) r os in
      elim run [
        | inl e ↦ inl (record {
          generation = g;
          meta_is = e;
          rows_are = λ i row k.
              row-run_steps errno (slot_key front g (i % u16_mod)) steps
                (unchanged-SparesRow meta keys front want held (i % u16_mod)) false (store m r os)
              ∙ rows i row k;
        })
        | inr (same, n) ↦ inr (same, n)
      ]

  desired-SwappedOrNot :
      (meta : Option FrontMeta) (front : LbFrontKey) (want : DesiredFront) (held : Bool)
      → length want.endpoints < u16_mod
      → (m : Metas) (r : Endpoints) (os : List (Option E)) → meta_at m front ≡ meta
      → SwappedOrNot m front want
          (run_steps errno write_map false (desired_steps meta r front want held) (store m r os))
  unfolding desired_steps
  desired-SwappedOrNot none front want held k m r os live =
      swap-SwappedOrNot none (existing_keys front r) front want k m r os
  desired-SwappedOrNot (some meta) front want held k m r os live =
      elim (Bool-cases (is_unchanged meta r front want)) [
        | inl e ↦ rw e (unchanged-SwappedOrNot meta front want held m r os live e)
        | inr e ↦ rw e (swap-SwappedOrNot (some meta) (existing_keys front r) front want k m r os)
      ]

  -- A plan for a wanted front, run with any writes failing, leaves either the front served as it
  -- is wanted, or the meta maps as they were and a failure reported; and it touches no row of the
  -- generation that was live before, so that a reader who has read the old meta finds every row of it.
  -- The front has fewer than 65,536 endpoints.
  pub front_steps-atomic :
      (s : Store E) (front : LbFrontKey) (want : DesiredFront) (prune_absent held : Bool)
      → length want.endpoints < u16_mod
      → let result =
          run_steps errno write_map false
            (front_steps s.metas s.endpoints (some want) prune_absent held front)
            s in
        (Serves result.0.metas result.0.endpoints front want
          ⊎ ((result.0.metas ≡ s.metas) × (result.1 ≢ [])))
        × ((meta : FrontMeta) (slot : ℕ)
            → meta_at s.metas front ≡ some meta
            → row_at result.0.endpoints (slot_key front meta.generation slot)
              ≡ row_at s.endpoints (slot_key front meta.generation slot))
  unfolding front_steps
  front_steps-atomic s front want prune_absent held h = (
    desired-SwappedOrNot (meta_at s.metas front) front want held h s.metas s.endpoints s.outcomes
        refl,
    λ meta slot live. rw live (
        row-run_steps errno (slot_key front meta.generation slot)
          (desired_steps (some meta) s.endpoints front want held)
          (desired-SparesRow meta s.endpoints front want held slot) false s),
  )
