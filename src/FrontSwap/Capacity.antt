-- ===== src/FrontSwap/Capacity.antt =====
-- Room in the two maps (`capacity_shortfall` of src/front_swap.rs): what the peaks of a plan count, and
-- what the maps hold while it runs.
use beep.Common.{
  ℕ, ◌+◌, ◌≤◌, ◌≡◌, refl, sym, subst, Bool, true, false, Option, none, List, [], ◌∷◌, ◌++◌, arith,
  length,
}
use beep.Common.Assoc.{insert, remove}
use beep.Maps.{LbFrontKey, LbFrontKey-discrete, FrontEndpointKey-discrete}
use beep.FrontSwap.{
  DesiredFront, FrontWrite, delete_endpoint, put_endpoint, put_meta, delete_meta, FrontPlan, Metas,
  Endpoints, meta_at, front_steps,
}
use beep.FrontSwap.Apply.{
  FrontUsage, FrontCapacity, Effect, effect_from, plan_effect, no_effect, capacity_shortfall,
  count_step, raise_peaks, Store, apply_write, write_map, run_steps, had_meta,
}
use beep.FrontSwap.Counts.{IsOnce, length-insert, length-insert_held, length-remove_held}
use beep.FrontSwap.Held.{carried_out, Held, AllHeld, AllHeld-prefix, front_steps-AllHeld}

peaks_grow :
    (had : Bool) (ws : List FrontWrite) (f : Effect)
    → (f.ep_peak ≤ (effect_from had ws f).ep_peak)
      × (f.meta_peak ≤ (effect_from had ws f).meta_peak)
unfolding effect_from
peaks_grow had [] f = (omega arith, omega arith)
peaks_grow had (w ∷ ws) f =
    let rest = peaks_grow had ws (raise_peaks (count_step had w f)) in
    let up = raised had w f in (omega (arith, rest.0, up.0), omega (arith, rest.1, up.1))
  where
    raised :
        (had : Bool) (w : FrontWrite) (f : Effect)
        → (f.ep_peak ≤ (raise_peaks (count_step had w f)).ep_peak)
          × (f.meta_peak ≤ (raise_peaks (count_step had w f)).meta_peak)
    raised had (delete_endpoint key) f = (omega arith, omega arith)
    raised had (put_endpoint key row) f = (omega arith, omega arith)
    raised true (put_meta front m) f = (omega arith, omega arith)
    raised false (put_meta front m) f = (omega arith, omega arith)
    raised had (delete_meta front) f = (omega arith, omega arith)

module _ {E : Type 0} where
  -- The counts of the effect account for the entries so far, and the peaks are above them.
  record Accounts (start : FrontUsage) (s : Store E) (f : Effect) : Type 0 where
    endpoints_are : length s.endpoints + f.ep_down ≤ start.endpoints + f.ep_up
    meta_are : length s.metas + f.meta_down ≤ start.meta + f.meta_up
    endpoints_under : length s.endpoints ≤ start.endpoints + f.ep_peak
    meta_under : length s.metas ≤ start.meta + f.meta_peak

  Accounts-step :
      (had : Bool) (w : FrontWrite) (start : FrontUsage) (s : Store E) (f : Effect)
      → Held had w s
      → Accounts start s f
      → Accounts start (apply_write w s) (raise_peaks (count_step had w f))
  Accounts-step had (delete_endpoint key) start s f h a =
      let less = length-remove_held FrontEndpointKey-discrete key s.endpoints h in
      record {
        endpoints_are = omega (arith, a.endpoints_are, less);
        meta_are = a.meta_are;
        endpoints_under = omega (arith, a.endpoints_under, less);
        meta_under = omega (arith, a.meta_under);
      }
  Accounts-step had (put_endpoint key row) start s f h a =
      let more = length-insert FrontEndpointKey-discrete key row s.endpoints in
      record {
        endpoints_are = omega (arith, a.endpoints_are, more);
        meta_are = a.meta_are;
        endpoints_under = omega (arith, a.endpoints_are, more);
        meta_under = omega (arith, a.meta_under);
      }
  Accounts-step true (put_meta front m) start s f h a =
      let same = length-insert_held LbFrontKey-discrete front m s.metas (h refl) in
      record {
        endpoints_are = a.endpoints_are;
        meta_are = omega (arith, a.meta_are, same);
        endpoints_under = omega (arith, a.endpoints_under);
        meta_under = omega (arith, a.meta_under, same);
      }
  Accounts-step false (put_meta front m) start s f h a =
      let more = length-insert LbFrontKey-discrete front m s.metas in
      record {
        endpoints_are = a.endpoints_are;
        meta_are = omega (arith, a.meta_are, more);
        endpoints_under = omega (arith, a.endpoints_under);
        meta_under = omega (arith, a.meta_are, more);
      }
  Accounts-step had (delete_meta front) start s f h a =
      let less = length-remove_held LbFrontKey-discrete front s.metas h in
      record {
        endpoints_are = a.endpoints_are;
        meta_are = omega (arith, a.meta_are, less);
        endpoints_under = omega (arith, a.endpoints_under);
        meta_under = omega (arith, a.meta_under, less);
      }

  under_peak :
      (had : Bool) (xs ys : List FrontWrite) (start : FrontUsage) (s : Store E) (f : Effect)
      → AllHeld had xs s
      → Accounts start s f
      → (length (carried_out xs s).endpoints
          ≤ start.endpoints + (effect_from had (xs ++ ys) f).ep_peak)
        × (length (carried_out xs s).metas ≤ start.meta + (effect_from had (xs ++ ys) f).meta_peak)
  unfolding effect_from
  under_peak had [] ys start s f h a =
      let grow = peaks_grow had ys f in
      (omega (arith, grow.0, a.endpoints_under), omega (arith, grow.1, a.meta_under))
  under_peak had (w ∷ xs) ys start s f h a =
      under_peak had xs ys start (apply_write w s) (raise_peaks (count_step had w f)) h.1
        (Accounts-step had w start s f h.0 a)

  abbrev maps : Metas → Endpoints → Store E
  maps metas rows = record { metas = metas; endpoints = rows; outcomes = [] }

  -- A run without a failing write carries out every step.
  run_steps-carried_out :
      (errno : E → Option ℕ) (ws : List FrontWrite) (metas : Metas) (rows : Endpoints)
      → (run_steps errno write_map false ws (maps metas rows)).0 ≡ carried_out ws (maps metas rows)
  unfolding run_steps
  run_steps-carried_out errno [] metas rows = refl
  run_steps-carried_out errno (delete_endpoint key ∷ ws) metas rows =
      run_steps-carried_out errno ws metas (remove FrontEndpointKey-discrete key rows)
  run_steps-carried_out errno (put_endpoint key row ∷ ws) metas rows =
      run_steps-carried_out errno ws metas (insert FrontEndpointKey-discrete key row rows)
  run_steps-carried_out errno (put_meta front m ∷ ws) metas rows =
      run_steps-carried_out errno ws (insert LbFrontKey-discrete front m metas) rows
  run_steps-carried_out errno (delete_meta front ∷ ws) metas rows =
      run_steps-carried_out errno ws (remove LbFrontKey-discrete front metas) rows

-- A plan that is not refused fits under the caps at its peak.
peak_fits :
    {E : Type 0} (plan : FrontPlan) (had_meta : Bool) (used : FrontUsage) (cap : FrontCapacity)
    → capacity_shortfall {E = E} plan had_meta used cap ≡ none
    → (used.endpoints + (plan_effect plan had_meta).ep_peak ≤ cap.endpoints)
      × (used.meta + (plan_effect plan had_meta).meta_peak ≤ cap.meta)
unfolding capacity_shortfall
peak_fits plan had used c fits = (ground (arith, fits), ground (arith, fits))

-- If the plan for a front is not refused, with the entries of the two maps as their usage, then
-- behind every part of its steps, all of them carried out, both maps hold no more entries than their
-- caps. The endpoint map has each key once.
pub capacity_shortfall_bounds :
    {E : Type 0} (errno : E → Option ℕ) (metas : Metas) (rows : Endpoints) (front : LbFrontKey)
    (wanted : Option DesiredFront) (prune_absent held : Bool) (cap : FrontCapacity)
    (xs ys : List FrontWrite)
    → IsOnce FrontEndpointKey-discrete rows
    → front_steps metas rows wanted prune_absent held front ≡ xs ++ ys
    → capacity_shortfall {E = E}
        (record { front = front; steps = xs ++ ys })
        (had_meta (meta_at metas front))
        (record { meta = length metas; endpoints = length rows })
        cap
      ≡ none
    → let t =
        (run_steps errno write_map false xs
          (record { metas = metas; endpoints = rows; outcomes = [] })).0 in
      (length t.endpoints ≤ cap.endpoints) × (length t.metas ≤ cap.meta)
unfolding plan_effect
capacity_shortfall_bounds {E = E} errno metas rows front wanted prune_absent held c xs ys once split
      fits =
    let s : Store E = maps metas rows in
    let had = had_meta (meta_at metas front) in
    let used : FrontUsage = record { meta = length metas; endpoints = length rows } in
    let start : Accounts used s no_effect = record {
      endpoints_are = omega arith;
      meta_are = omega arith;
      endpoints_under = omega arith;
      meta_under = omega arith;
    } in
    let all =
      subst (λ (ws : List FrontWrite). AllHeld had ws s) split
        (front_steps-AllHeld s once front wanted prune_absent held) in
    let peak = under_peak had xs ys used s no_effect (AllHeld-prefix had xs ys s all) start in
    let fit = peak_fits (record { front = front; steps = xs ++ ys }) had used c fits in
    let ran = run_steps-carried_out errno xs metas rows in
    (
      subst (λ (t : Store E). length t.endpoints ≤ c.endpoints) (sym ran)
          (omega (arith, peak.0, fit.0)),
      subst (λ (t : Store E). length t.metas ≤ c.meta) (sym ran) (omega (arith, peak.1, fit.1)),
    )
