-- ===== src/Table/Lookup.antt =====
-- What each of the two loops of `idle_flow_keys` finds, read by key. A snapshot of the table has a key
-- once.
use beep.Common.{
  ℕ, ◌≡◌, refl, ap, sym, ◌∙◌, Bool, true, false, not, ◌&&◌, ◌||◌, Option, none, some, List, [], ◌∷◌,
  ◌++◌, arith, if◌then◌else◌, is_yes, Bool-cases, inl, inr,
}
use beep.Common.Assoc.{lookup, insert, lookup-insert, is_yes_iff}
use beep.Flow.{GcParity}
use beep.Wire.{FlowDirection, flow_key_direction}
use beep.Maps.{Bytes-discrete}
use beep.Table.{
  FlowValue, Table, flow_at, is_row, is_reverse, is_memo, swept, original_client_port, doomed_rows,
  surviving_reverse, memo_doomed, doomed_memos,
}

abbrev pub has_key : List ℕ → List (List ℕ) → Bool
has_key key [] = false
has_key key (k ∷ ks) = is_yes (Bytes-discrete k key) || has_key key ks

pub has_key-append :
    (key : List ℕ) (xs ys : List (List ℕ))
    → has_key key (xs ++ ys) ≡ (has_key key xs || has_key key ys)
has_key-append key [] ys = refl
has_key-append key (x ∷ xs) ys = ground (arith, has_key-append key xs ys)

module _ {V : Type 0} where
  abbrev pub IsSnapshot : List (List ℕ × V) → Type 0
  IsSnapshot [] = Unit {0}
  IsSnapshot ((key, value) ∷ rows) = (lookup Bytes-discrete key rows ≡ none) × IsSnapshot rows

  -- A test of the row under a key, false without one.
  abbrev pub at_row : (V → Bool) → Option V → Bool
  at_row test none = false
  at_row test (some value) = test value

  -- The keys of the rows that pass a test, collected by the loop.
  abbrev pub collected : (List ℕ → V → Bool) → List (List ℕ × V) → List (List ℕ)
  collected test [] = []
  collected test ((key, value) ∷ rows) =
      let rest = collected test rows in if test key value then key ∷ rest else rest

  pub collected_lem :
      (test : List ℕ → V → Bool) (rows : List (List ℕ × V)) (key : List ℕ)
      → IsSnapshot rows
      → has_key key (collected test rows) ≡ at_row (test key) (lookup Bytes-discrete key rows)
  unfolding lookup
  collected_lem test [] key m = refl
  collected_lem test ((k, value) ∷ rows) key m =
      let rest = collected_lem test rows key m.1 in
      elim (Bool-cases (is_yes (Bytes-discrete k key))) [
        | inl e ↦
            let same = (is_yes_iff (Bytes-discrete k key)).0 e in
            let once : at_row (test key) (lookup Bytes-discrete key rows) ≡ false =
              ap (λ (j : List ℕ). at_row (test key) (lookup Bytes-discrete j rows)) (sym same)
              ∙ ap (at_row (test key)) m.0 in
            let own : test k value ≡ test key value = ap (λ (j : List ℕ). test j value) same in
            ground (arith, e, rest, once, own)
        | inr e ↦ ground (arith, e, rest)
      ]

module _ (misread_port : FlowDirection → FlowValue → ℕ) (class : ℕ) (parity : GcParity) where
  doomed_rows-collected :
      (rows : Table)
      → doomed_rows misread_port class parity rows
        ≡ collected (λ k v. is_row (flow_key_direction k) && swept k v class parity) rows
  unfolding doomed_rows
  doomed_rows-collected [] = refl
  doomed_rows-collected ((k, v) ∷ rows) = rw (doomed_rows-collected rows) refl

  doomed_memos-collected :
      (surviving : List (List ℕ × ℕ)) (rows : Table)
      → doomed_memos misread_port surviving rows
        ≡ collected
            (λ k v. is_memo (flow_key_direction k) && memo_doomed misread_port surviving k v)
            rows
  unfolding doomed_memos
  doomed_memos-collected surviving [] = refl
  doomed_memos-collected surviving ((k, v) ∷ rows) = rw (doomed_memos-collected surviving rows) refl

  pub doomed_rows_lem :
      (rows : Table) (key : List ℕ)
      → IsSnapshot rows
      → has_key key (doomed_rows misread_port class parity rows)
        ≡ at_row
            (λ v. is_row (flow_key_direction key) && swept key v class parity)
            (flow_at rows key)
  doomed_rows_lem rows key m =
      ap (has_key key) (doomed_rows-collected rows) ∙ collected_lem _ rows key m

  pub doomed_memos_lem :
      (surviving : List (List ℕ × ℕ)) (rows : Table) (key : List ℕ)
      → IsSnapshot rows
      → has_key key (doomed_memos misread_port surviving rows)
        ≡ at_row
            (λ v. is_memo (flow_key_direction key) && memo_doomed misread_port surviving key v)
            (flow_at rows key)
  doomed_memos_lem surviving rows key m =
      ap (has_key key) (doomed_memos-collected surviving rows) ∙ collected_lem _ rows key m

  -- What the first loop has found under a key.
  abbrev pub found_port : List ℕ → Option FlowValue → Option ℕ → Option ℕ
  found_port key none before = before
  found_port key (some v) before =
      if is_reverse (flow_key_direction key) && not (swept key v class parity)
      then some (original_client_port misread_port v)
      else before

  abbrev survives : List ℕ → FlowValue → Bool
  survives key v = is_reverse (flow_key_direction key) && not (swept key v class parity)

  abbrev added : List ℕ → FlowValue → List (List ℕ × ℕ) → List (List ℕ × ℕ)
  added key v found =
      if survives key v
      then insert Bytes-discrete key (original_client_port misread_port v) found
      else found

  added_lem :
      (k : List ℕ) (v : FlowValue) (found : List (List ℕ × ℕ)) (key : List ℕ)
      → lookup Bytes-discrete key (added k v found) ≡ (
          if survives k v
          then (if is_yes (Bytes-discrete k key)
              then some (original_client_port misread_port v)
              else lookup Bytes-discrete key found)
          else lookup Bytes-discrete key found)
  added_lem k v found key = elim (Bool-cases (survives k v)) [
    | inl s ↦ rw s (lookup-insert Bytes-discrete k key (original_client_port misread_port v) found)
    | inr s ↦ rw s refl
  ]

  both_same : (b : Bool) (x : Option ℕ) → (if b then x else x) ≡ x
  both_same true x = refl
  both_same false x = refl

  pub surviving_reverse_lem :
      (rows : Table) (found : List (List ℕ × ℕ)) (key : List ℕ)
      → IsSnapshot rows
      → lookup Bytes-discrete key (surviving_reverse misread_port class parity found rows)
        ≡ found_port key (flow_at rows key) (lookup Bytes-discrete key found)
  unfolding surviving_reverse lookup
  surviving_reverse_lem [] found key m = refl
  surviving_reverse_lem ((k, v) ∷ rows) found key m =
      surviving_reverse_lem rows (added k v found) key m.1
      ∙ elim (Bool-cases (is_yes (Bytes-discrete k key))) [
        | inl e ↦
            let same = (is_yes_iff (Bytes-discrete k key)).0 e in
            let none_later : flow_at rows key ≡ none = ap (flow_at rows) (sym same) ∙ m.0 in
            let own : survives k v ≡ survives key v = ap (λ (j : List ℕ). survives j v) same in
            rw (none_later, e) (added_lem k v found key ∙ rw (e, own) refl)
        | inr e ↦ rw e (
            ap (found_port key (flow_at rows key))
              (added_lem k v found key ∙ rw e (both_same (survives k v) _)))
      ]
