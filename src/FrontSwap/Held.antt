-- ===== src/FrontSwap/Held.antt =====
-- The entries that the plan for a front meets (src/front_swap.rs): each step against the maps as the
-- steps before it leave them.
use beep.Common.{
  ℕ, suc, ◌≡◌, refl, sym, ◌∙◌, ap, Bool, true, false, Option, none, some, List, [], ◌∷◌, ◌++◌, ◌==◌,
  is_yes, is_yes-true, Bool-cases, inl, inr,
}
use beep.Common.Assoc.{lookup, lookup-remove, is_yes_iff}
use beep.Maps.{LbFrontKey, FrontMeta, FrontEndpointKey, FrontEndpoint, FrontEndpointKey-discrete}
use beep.Reverse.{is_some}
use beep.FrontSwap.{
  DesiredFront, FrontWrite, delete_endpoint, put_endpoint, put_meta, delete_meta, Metas, Endpoints,
  meta_at, row_at, same_front, existing_keys, deletes, puts, is_stale, is_dead, unchanged_steps,
  swap_steps, swap_generation, swapped_meta, absent_steps, desired_steps, front_steps, is_unchanged,
}
use beep.FrontSwap.Counts.{IsOnce}
use beep.FrontSwap.Apply.{Store, apply_write, had_meta}

had_meta-is_some : (o : Option FrontMeta) → had_meta o ≡ true → is_some o ≡ true
had_meta-is_some none e = absurd (cc e)
had_meta-is_some (some m) e = refl

module _ {E : Type 0} where
  -- The maps behind these steps, all of them carried out.
  abbrev pub carried_out : List FrontWrite → Store E → Store E
  carried_out [] s = s
  carried_out (w ∷ ws) s = carried_out ws (apply_write w s)

  -- A delete finds its entry. So does the write of a meta, if the front had one.
  abbrev pub Held : Bool → FrontWrite → Store E → Type 0
  Held had (delete_endpoint key) s = is_some (row_at s.endpoints key) ≡ true
  Held had (put_endpoint key row) s = Unit {0}
  Held had (put_meta front m) s = had ≡ true → is_some (meta_at s.metas front) ≡ true
  Held had (delete_meta front) s = is_some (meta_at s.metas front) ≡ true

  abbrev pub AllHeld : Bool → List FrontWrite → Store E → Type 0
  AllHeld had [] s = Unit {0}
  AllHeld had (w ∷ ws) s = Held had w s × AllHeld had ws (apply_write w s)

  metas-deletes :
      (test : FrontEndpointKey → Bool) (keys : List FrontEndpointKey) (s : Store E)
      → (carried_out (deletes test keys) s).metas ≡ s.metas
  unfolding deletes
  metas-deletes test [] s = refl
  metas-deletes test (k ∷ keys) s = elim (Bool-cases (test k)) [
    | inl e ↦ rw e (metas-deletes test keys (apply_write (delete_endpoint k) s))
    | inr e ↦ rw e (metas-deletes test keys s)
  ]

  metas-puts :
      (front : LbFrontKey) (g slot : ℕ) (eps : List FrontEndpoint) (s : Store E)
      → (carried_out (puts front g slot eps) s).metas ≡ s.metas
  unfolding puts
  metas-puts front g slot [] s = refl
  metas-puts front g slot (ep ∷ eps) s = metas-puts front g (suc slot) eps _

  module _ (had : Bool) where
    AllHeld-append :
        (xs ys : List FrontWrite) (s : Store E)
        → AllHeld had xs s
        → AllHeld had ys (carried_out xs s)
        → AllHeld had (xs ++ ys) s
    AllHeld-append [] ys s h k = k
    AllHeld-append (w ∷ xs) ys s h k = (h.0, AllHeld-append xs ys (apply_write w s) h.1 k)

    pub AllHeld-prefix :
        (xs ys : List FrontWrite) (s : Store E) → AllHeld had (xs ++ ys) s → AllHeld had xs s
    AllHeld-prefix [] ys s h = tt
    AllHeld-prefix (w ∷ xs) ys s h = (h.0, AllHeld-prefix xs ys (apply_write w s) h.1)

    -- Deletes of keys that stand in the map.
    module _ (front : LbFrontKey) (test : FrontEndpointKey → Bool) where
      abbrev Covers : Endpoints → Store E → Type 0
      Covers rest s =
          (key : FrontEndpointKey)
          → is_some (row_at rest key) ≡ true
          → is_some (row_at s.endpoints key) ≡ true

      Covers-tail :
          (k : FrontEndpointKey) (row : FrontEndpoint) (rest : Endpoints) (s : Store E)
          → Covers ((k, row) ∷ rest) s
          → Covers rest s
      unfolding lookup
      Covers-tail k row rest s h key found =
          elim (Bool-cases (is_yes (FrontEndpointKey-discrete k key))) [
            | inl e ↦ h key (rw e refl)
            | inr e ↦ h key (rw e found)
          ]

      Covers-delete :
          (k : FrontEndpointKey) (rest : Endpoints) (s : Store E)
          → row_at rest k ≡ none
          → Covers rest s
          → Covers rest (apply_write (delete_endpoint k) s)
      Covers-delete k rest s once h key found =
          let removed = lookup-remove FrontEndpointKey-discrete k key s.endpoints in
          elim (Bool-cases (is_yes (FrontEndpointKey-discrete k key))) [
            | inl e ↦
                let same = (is_yes_iff (FrontEndpointKey-discrete k key)).0 e in
                let gone : is_some (row_at rest key) ≡ false =
                  ap (λ (j : FrontEndpointKey). is_some (row_at rest j)) (sym same)
                  ∙ ap is_some once in
                absurd (cc (gone, found))
            | inr e ↦ ap is_some removed ∙ rw e (h key found)
          ]

      pub AllHeld-deletes :
          (rest : Endpoints) (s : Store E)
          → IsOnce FrontEndpointKey-discrete rest
          → Covers rest s
          → AllHeld had (deletes test (existing_keys front rest)) s
      unfolding deletes existing_keys lookup
      AllHeld-deletes [] s once h = tt
      AllHeld-deletes ((k, row) ∷ rest) s once h =
          let tail = Covers-tail k row rest s h in
          let skipped = AllHeld-deletes rest s once.1 tail in
          elim (Bool-cases (same_front k.front front)) [
            | inr e ↦ rw e skipped
            | inl e ↦ elim (Bool-cases (test k)) [
              | inr t ↦ rw (e, t) skipped
              | inl t ↦
                  let here : is_some (row_at ((k, row) ∷ rest) k) ≡ true =
                    rw (is_yes-true (FrontEndpointKey-discrete k k) refl) refl in
                  let later =
                    AllHeld-deletes rest (apply_write (delete_endpoint k) s) once.1
                      (Covers-delete k rest s once.0 tail) in
                  rw (e, t) (h k here, later)
            ]
          ]

    AllHeld-puts :
        (front : LbFrontKey) (g slot : ℕ) (eps : List FrontEndpoint) (s : Store E)
        → AllHeld had (puts front g slot eps) s
    unfolding puts
    AllHeld-puts front g slot [] s = tt
    AllHeld-puts front g slot (ep ∷ eps) s = (tt, AllHeld-puts front g (suc slot) eps _)

  -- The plan for a front, run on the maps that it was made for.
  module _ (s : Store E) (once : IsOnce FrontEndpointKey-discrete s.endpoints)
      (front : LbFrontKey) where
    abbrev had : Bool
    had = had_meta (meta_at s.metas front)

    deletes-held :
        (test : FrontEndpointKey → Bool)
        → AllHeld had (deletes test (existing_keys front s.endpoints)) s
    deletes-held test = AllHeld-deletes had front test s.endpoints s once (λ key h. h)

    -- The meta is written behind steps that leave the metas alone.
    meta_held :
        (m : FrontMeta) (t : Store E) → t.metas ≡ s.metas → AllHeld had (put_meta front m ∷ []) t
    meta_held m t same =
        (λ h. ap (λ (ms : Metas). is_some (meta_at ms front)) same ∙ had_meta-is_some _ h, tt)

    swap-held :
        (meta : Option FrontMeta) (want : DesiredFront)
        → AllHeld had (swap_steps meta (existing_keys front s.endpoints) front want) s
    unfolding swap_steps
    swap-held meta want =
        let keys = existing_keys front s.endpoints in
        let g = swap_generation meta in
        let t = carried_out (deletes (is_dead meta) keys) s in
        AllHeld-append had (deletes (is_dead meta) keys) _ s (deletes-held (is_dead meta)) (
          AllHeld-append had (puts front g 0 want.endpoints) _ t
            (AllHeld-puts had front g 0 want.endpoints t)
            (meta_held (swapped_meta g want) (carried_out (puts front g 0 want.endpoints) t)
              (metas-puts front g 0 want.endpoints t ∙ metas-deletes (is_dead meta) keys s)))

    unchanged-held :
        (m : FrontMeta) (want : DesiredFront) (held : Bool)
        → AllHeld had (unchanged_steps m (existing_keys front s.endpoints) front want held) s
    unfolding unchanged_steps
    unchanged-held m want held =
        let keys = existing_keys front s.endpoints in
        AllHeld-append had (deletes (is_stale m held) keys) _ s (deletes-held (is_stale m held))
          (elim (Bool-cases (m.flags == want.flags)) [
            | inl e ↦ rw e tt
            | inr e ↦ rw e (
                meta_held (record m { flags = want.flags })
                  (carried_out (deletes (is_stale m held) keys) s)
                  (metas-deletes (is_stale m held) keys s))
          ])

    absent-held :
        (meta : Option FrontMeta)
        → meta_at s.metas front ≡ meta
        → AllHeld had (absent_steps meta (existing_keys front s.endpoints) front) s
    unfolding absent_steps
    absent-held none e = deletes-held (λ _. true)
    absent-held (some m) e = (
      ap is_some e,
      AllHeld-deletes had front (λ _. true) s.endpoints (apply_write (delete_meta front) s) once
          (λ key h. h),
    )

    desired-held :
        (meta : Option FrontMeta) (want : DesiredFront) (held : Bool)
        → AllHeld had (desired_steps meta s.endpoints front want held) s
    unfolding desired_steps
    desired-held none want held = swap-held none want
    desired-held (some m) want held = elim (Bool-cases (is_unchanged m s.endpoints front want)) [
      | inl e ↦ rw e (unchanged-held m want held)
      | inr e ↦ rw e (swap-held (some m) want)
    ]

    pub front_steps-AllHeld :
        (wanted : Option DesiredFront) (prune_absent held : Bool)
        → AllHeld had (front_steps s.metas s.endpoints wanted prune_absent held front) s
    unfolding front_steps
    front_steps-AllHeld (some want) prune_absent held = desired-held _ want held
    front_steps-AllHeld none true held = absent-held _ refl
    front_steps-AllHeld none false held = tt
