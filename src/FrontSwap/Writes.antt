-- ===== src/FrontSwap/Writes.antt =====
-- How far a run of deletes, of puts and the commit behind them gets (`run_front_plan` of
-- src/front_swap.rs).
use beep.Common.{
  ℕ, zero, suc, ◌+◌, ◌%◌, ◌<◌, ◌≤◌, ◌≡◌, ◌≢◌, refl, ap, ◌∙◌, Bool, true, false, ◌||◌, Option, some,
  List, [], ◌∷◌, ◌++◌, All, All-append, length, get_elem?, arith, is_yes-true, Bool-cases, inl, inr,
  ◌⊎◌,
}
use beep.Common.Assoc.{lookup-insert}
use beep.Maps.{
  LbFrontKey, LbFrontKey-discrete, FrontMeta, FrontEndpointKey, FrontEndpointKey-discrete,
  FrontEndpoint, u16_mod,
}
use beep.FrontSwap.{
  FrontWrite, delete_endpoint, put_endpoint, put_meta, Metas, Endpoints, meta_at, row_at,
  endpoint_key, deletes, puts,
}
use beep.FrontSwap.Apply.{Store, FrontFailure, write_map, run_steps, apply_write}
use beep.FrontSwap.Frame.{SparesRow, run_steps-cases, row-run_steps, All-puts}

module _ {E : Type 0} (errno : E → Option ℕ) where
  abbrev store : Metas → Endpoints → List (Option E) → Store E
  store m r os = record { metas = m; endpoints = r; outcomes = os }

  abbrev Result : Type 0
  Result = Store E × List (FrontFailure E)

  cons-nonempty : {A : Type 0} (x : A) (xs : List A) → (x ∷ xs) ≢ []
  cons-nonempty x xs e = cc e

  -- A property of the result that an earlier failure does not undo holds behind the deletes if it
  -- holds from every set of rows.
  pub run_steps-deletes :
      (C : Result → Type 0) (test : FrontEndpointKey → Bool) (keys : List FrontEndpointKey)
      (rest : List FrontWrite) (m : Metas)
      → ((r : Endpoints) (os : List (Option E))
          → C (run_steps errno write_map false rest (store m r os)))
      → ((t : Store E) (x : FrontFailure E) (fs : List (FrontFailure E))
          → C (t, fs)
          → C (t, x ∷ fs))
      → (r : Endpoints) (os : List (Option E))
      → C (run_steps errno write_map false (deletes test keys ++ rest) (store m r os))
  unfolding deletes
  run_steps-deletes C test [] rest m base more r os = base r os
  run_steps-deletes C test (key ∷ keys) rest m base more r os = elim (Bool-cases (test key)) [
    | inl e ↦ rw e (
        run_steps-cases errno C false (delete_endpoint key) (deletes test keys ++ rest) m r os
          (λ p. absurd (cc p)) (λ _ later. run_steps-deletes C test keys rest m base more _ later)
          (λ _ p later x. absurd (cc p))
          (λ _ _ later x. more _ _ _ (run_steps-deletes C test keys rest m base more r later)))
    | inr e ↦ rw e (run_steps-deletes C test keys rest m base more r os)
  ]

  module _ (front : LbFrontKey) (g : ℕ) (live : FrontMeta) where
    -- The commit is made, behind all the rows from `slot` on.
    abbrev pub Done : ℕ → List FrontEndpoint → Store E → Type 0
    Done slot eps t =
        (meta_at t.metas front ≡ some live)
        × ((i : ℕ) (row : FrontEndpoint)
            → get_elem? eps i ≡ some row
            → row_at t.endpoints (endpoint_key front g (slot + i)) ≡ some row)

    -- The commit is not made, and a failure was reported, here or before.
    abbrev pub Refused : Bool → Metas → Result → Type 0
    Refused blocked m r = (r.0.metas ≡ m) × ((blocked ≡ true) ⊎ (r.1 ≢ []))

    abbrev pub commit_steps : ℕ → List FrontEndpoint → List FrontWrite
    commit_steps slot eps = puts front g slot eps ++ put_meta front live ∷ []

    rest-SparesRow :
        (slot : ℕ) (eps : List FrontEndpoint)
        → suc slot + length eps ≤ u16_mod
        → All (SparesRow (endpoint_key front g slot)) (commit_steps (suc slot) eps)
    rest-SparesRow slot eps h =
        All-append (SparesRow (endpoint_key front g slot)) (puts front g (suc slot) eps) _
          (All-puts (SparesRow (endpoint_key front g slot)) front g (suc slot) eps
            (λ i a b row e. other_slot i a b (ap (λ (k : FrontEndpointKey). k.slot) e)))
          (tt, tt)
      where
        other_slot :
            (i : ℕ) → suc slot ≤ i → i < suc slot + length eps → i % u16_mod ≢ slot % u16_mod
        other_slot i a b e = omega arith

    abbrev with_row : ℕ → FrontEndpoint → Metas → Endpoints → List (Option E) → Store E
    with_row slot ep m r os =
        apply_write (put_endpoint (endpoint_key front g slot) ep) (store m r os)

    -- The row of a put is still there behind the puts of the slots after it.
    Done-suc :
        (slot : ℕ) (ep : FrontEndpoint) (eps : List FrontEndpoint) (blocked : Bool) (m : Metas)
        (r : Endpoints) (os : List (Option E))
        → suc slot + length eps ≤ u16_mod
        → let t =
            (run_steps errno write_map blocked
              (commit_steps (suc slot) eps)
              (with_row slot ep m r os)).0 in
          Done (suc slot) eps t → Done slot (ep ∷ eps) t
    Done-suc slot ep eps blocked m r os h d = (d.0, rows)
      where
        after : Store E
        after =
            (run_steps errno write_map blocked (commit_steps (suc slot) eps)
              (with_row slot ep m r os)).0

        row_of : ℕ → Option FrontEndpoint
        row_of n = row_at after.endpoints (endpoint_key front g n)

        here : row_of slot ≡ some ep
        here =
            row-run_steps errno (endpoint_key front g slot) (commit_steps (suc slot) eps)
              (rest-SparesRow slot eps h) blocked (with_row slot ep m r os)
            ∙ ground (
              arith,
              lookup-insert FrontEndpointKey-discrete (endpoint_key front g slot)
                  (endpoint_key front g slot) ep r,
              is_yes-true
                  (FrontEndpointKey-discrete (endpoint_key front g slot)
                    (endpoint_key front g slot))
                  refl,
            )

        rows :
            (i : ℕ) (row : FrontEndpoint)
            → get_elem? (ep ∷ eps) i ≡ some row
            → row_of (slot + i) ≡ some row
        rows zero row e = let same : slot + 0 ≡ slot = omega arith in ap row_of same ∙ here ∙ e
        rows (suc i) row e =
            let next : slot + suc i ≡ suc slot + i = omega arith in ap row_of next ∙ d.1 i row e

    pub run_steps-commit :
        (slot : ℕ) (eps : List FrontEndpoint)
        → slot + length eps ≤ u16_mod
        → (blocked : Bool) (m : Metas) (r : Endpoints) (os : List (Option E))
        → let result = run_steps errno write_map blocked (commit_steps slot eps) (store m r os) in
          (Done slot eps result.0 × (blocked ≡ false)) ⊎ Refused blocked m result
    unfolding puts run_steps
    run_steps-commit slot [] h blocked m r os =
        run_steps-cases errno (λ x. (Done slot [] x.0 × (blocked ≡ false)) ⊎ Refused blocked m x)
          blocked (put_meta front live) [] m r os (λ p. inr (refl, inl (ground arith)))
          (λ p later. inl (
            (
              ground (
                arith,
                lookup-insert LbFrontKey-discrete front front live m,
                is_yes-true (LbFrontKey-discrete front front) refl,
              ),
              λ i row e. absurd (cc e),
            ),
            ground arith,
          ))
          (λ _ p later x. absurd (cc p)) (λ _ _ later x. inr (refl, inr (cons-nonempty _ _)))
    run_steps-commit slot (ep ∷ eps) h blocked m r os =
        run_steps-cases errno
          (λ x. (Done slot (ep ∷ eps) x.0 × (blocked ≡ false)) ⊎ Refused blocked m x) blocked
          (put_endpoint (endpoint_key front g slot) ep) (commit_steps (suc slot) eps) m r os
          (λ p. absurd (ground arith))
          (λ _ later.
            elim (run_steps-commit (suc slot) eps (omega arith) blocked m
              (with_row slot ep m r later).endpoints later) [
                | inl (d, free) ↦ inl (Done-suc slot ep eps blocked m r later (omega arith) d, free)
                | inr refused ↦ inr refused
              ])
          (λ _ p later x. absurd (cc p))
          (λ _ _ later x.
            elim (run_steps-commit (suc slot) eps (omega arith) (blocked || true) m r later) [
              | inl (d, free) ↦ absurd (ground arith)
              | inr refused ↦ inr (refused.0, inr (cons-nonempty _ _))
            ])
