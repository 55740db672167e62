-- ===== src/FrontSwap/Settle.antt =====
-- The plan for a front that is served as wanted (`plan_front_writes` of src/front_swap.rs).
use beep.Common.{
  ℕ, zero, suc, ◌+◌, ◌≡◌, refl, ◌≢◌, ◌↔◌, sym, subst, ap, ◌∙◌, Bool, true, false, ◌&&◌, ◌||◌, All,
  ◌%◌, is_yes, Bool-cases, inl, inr, Option, some, List, [], ◌∷◌, append-nil, get_elem?, arith,
  is_yes-true, ◌==◌,
}
use beep.Common.Assoc.{lookup, is_yes_iff}
use beep.Reverse.{is_some}
use beep.Maps.{
  LbFrontKey, LbFrontKey-discrete, FrontEndpointKey, FrontEndpointKey-discrete, u32_mod,
  FrontEndpoint, FrontEndpoint-discrete,
}
use beep.FrontSwap.{
  DesiredFront, FrontWrite, delete_endpoint, put_endpoint, put_meta, delete_meta, same_front, Metas,
  Endpoints, row_at, endpoint_key, deletes, rows_match, row_is, existing_keys, is_unchanged,
  is_stale, unchanged_steps, swapped_meta, desired_steps, front_steps,
}
use beep.FrontSwap.View.{Serves}

row_is-some : (o : Option FrontEndpoint) (ep : FrontEndpoint) → o ≡ some ep → row_is o ep ≡ true
row_is-some o ep e = rw e (is_yes-true (FrontEndpoint-discrete ep ep) refl)

rows_match_of_rows :
    (rows : Endpoints) (front : LbFrontKey) (g slot : ℕ) (eps : List FrontEndpoint)
    → ((i : ℕ) (row : FrontEndpoint)
        → get_elem? eps i ≡ some row
        → row_at rows (endpoint_key front g (slot + i)) ≡ some row)
    → rows_match rows front g slot eps ≡ true
unfolding rows_match
rows_match_of_rows rows front g slot [] h = refl
rows_match_of_rows rows front g slot (ep ∷ eps) h =
    let first : row_at rows (endpoint_key front g slot) ≡ some ep =
      let same : slot ≡ slot + 0 = omega arith in
      ap (λ (n : ℕ). row_at rows (endpoint_key front g n)) same ∙ h zero ep refl in
    rw (row_is-some (row_at rows (endpoint_key front g slot)) ep first) (
      rows_match_of_rows rows front g (suc slot) eps λ i row e.
        let next : suc slot + i ≡ slot + suc i = omega arith in
        ap (λ (n : ℕ). row_at rows (endpoint_key front g n)) next ∙ h (suc i) row e)

settled_steps :
    (metas : Metas) (rows : Endpoints) (front : LbFrontKey) (want : DesiredFront)
    (prune_absent held : Bool) (served : Serves metas rows front want)
    → front_steps metas rows (some want) prune_absent held front
      ≡ deletes (is_stale (swapped_meta served.generation want) held) (existing_keys front rows)
unfolding front_steps desired_steps unchanged_steps
settled_steps metas rows front want prune_absent held served =
    let matched = rows_match_of_rows rows front served.generation 0 want.endpoints λ i row e.
      let same : 0 + i ≡ i = omega arith in
      ap (λ (n : ℕ). row_at rows (endpoint_key front served.generation n)) same
      ∙ served.rows_are i row e in
    let live = served.meta_is in
    let unchanged : is_unchanged (swapped_meta served.generation want) rows front want ≡ true =
      ground (arith, matched) in
    let no_flags : (want.flags == want.flags) ≡ true = ground arith in
    rw (live, unchanged, no_flags) (append-nil _)

abbrev pub IsDelete : FrontWrite → Type 0
IsDelete (delete_endpoint key) = Unit {0}
IsDelete (put_endpoint key row) = ⊥
IsDelete (put_meta front m) = ⊥
IsDelete (delete_meta front) = ⊥

-- Some step deletes the row of the key.
abbrev pub deletes_key : FrontEndpointKey → List FrontWrite → Bool
deletes_key key [] = false
deletes_key key (delete_endpoint k ∷ ws) =
    is_yes (FrontEndpointKey-discrete k key) || deletes_key key ws
deletes_key key (put_endpoint k row ∷ ws) = deletes_key key ws
deletes_key key (put_meta front m ∷ ws) = deletes_key key ws
deletes_key key (delete_meta front ∷ ws) = deletes_key key ws

module _ (test : FrontEndpointKey → Bool) where
  All-IsDelete : (keys : List FrontEndpointKey) → All IsDelete (deletes test keys)
  unfolding deletes
  All-IsDelete [] = tt
  All-IsDelete (k ∷ keys) = elim (Bool-cases (test k)) [
    | inl e ↦ rw e (tt, All-IsDelete keys)
    | inr e ↦ rw e (All-IsDelete keys)
  ]

  -- The keys that are deleted: of a row of the front, and named by the test.
  deletes_key-deletes :
      (key : FrontEndpointKey) (front : LbFrontKey) (rows : Endpoints)
      → deletes_key key (deletes test (existing_keys front rows))
        ≡ (is_some (row_at rows key) && (same_front key.front front && test key))
  unfolding deletes existing_keys lookup
  deletes_key-deletes key front [] = refl
  deletes_key-deletes key front ((k, row) ∷ rows) =
      let rest = deletes_key-deletes key front rows in
      elim (Bool-cases (is_yes (FrontEndpointKey-discrete k key))) [
        | inl e ↦
            let same = (is_yes_iff (FrontEndpointKey-discrete k key)).0 e in
            let of_front : same_front k.front front ≡ same_front key.front front =
              ap (λ (j : FrontEndpointKey). same_front j.front front) same in
            let named = ap test same in ground (arith, e, rest, of_front, named)
        | inr e ↦ ground (arith, e, rest)
      ]

-- Planning again for a front that is served as wanted changes nothing that a reader can see: every
-- step is the delete of a row, and a row is deleted exactly if it stands in the map under the front,
-- not under the live generation and, while the previous one is held, not under that either.
pub front_steps-settled :
    (metas : Metas) (rows : Endpoints) (front : LbFrontKey) (want : DesiredFront)
    (prune_absent held : Bool) (served : Serves metas rows front want)
    → let steps = front_steps metas rows (some want) prune_absent held front in
      All IsDelete steps
      × ((key : FrontEndpointKey)
          → (deletes_key key steps ≡ true) ↔ (
              (is_some (row_at rows key) ≡ true)
              × (key.front ≡ front)
              × (key.generation ≢ served.generation)
              × (held ≡ true → key.generation ≢ (served.generation + 0xffff_ffff) % u32_mod)))
front_steps-settled metas rows front want prune_absent held served =
    let stale = is_stale (swapped_meta served.generation want) held in
    let plan = settled_steps metas rows front want prune_absent held served in
    (
      subst (All IsDelete) (sym plan) (All-IsDelete stale (existing_keys front rows)),
      λ key.
          let named = ap (deletes_key key) plan ∙ deletes_key-deletes stale key front rows in
          let own = is_yes_iff (LbFrontKey-discrete key.front front) in
          (
            λ h.
                let all = sym named ∙ h in
                (
                  ground (arith, all),
                  own.0 (ground (arith, all)),
                  λ e. absurd (ground (arith, all, e)),
                  λ k e. absurd (ground (arith, all, k, e)),
                ),
            λ (there, front_eq, g, previous).
                named ∙ ground (arith, there, own.1 front_eq, g, previous),
          ),
    )
