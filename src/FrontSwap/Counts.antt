-- ===== src/FrontSwap/Counts.antt =====
-- The number of entries of a map behind an insert and a remove.
use beep.Common.{suc, ◌≤◌, ◌≡◌, true, none, List, [], ◌∷◌, arith, length}
use beep.Common.Assoc.{lookup, insert, remove}
use beep.Reverse.{is_some}

module _ {K V : Type 0} (dec : Discrete K) where
  -- Every key stands in the map once.
  abbrev pub IsOnce : List (K × V) → Type 0
  IsOnce [] = Unit {0}
  IsOnce ((key, value) ∷ rows) = (lookup dec key rows ≡ none) × IsOnce rows

  pub length-insert :
      (k : K) (v : V) (m : List (K × V)) → length (insert dec k v m) ≤ suc (length m)
  unfolding insert
  length-insert k v [] = omega arith
  length-insert k v ((j, w) ∷ m) = ground (arith, length-insert k v m)

  pub length-insert_held :
      (k : K) (v : V) (m : List (K × V))
      → is_some (lookup dec k m) ≡ true
      → length (insert dec k v m) ≡ length m
  unfolding insert lookup
  length-insert_held k v [] h = absurd (cc h)
  length-insert_held k v ((j, w) ∷ m) h = ground (arith, length-insert_held k v m, h)

  pub length-remove : (k : K) (m : List (K × V)) → length (remove dec k m) ≤ length m
  unfolding remove
  length-remove k [] = omega arith
  length-remove k ((j, w) ∷ m) = ground (arith, length-remove k m)

  pub length-remove_held :
      (k : K) (m : List (K × V))
      → is_some (lookup dec k m) ≡ true
      → suc (length (remove dec k m)) ≤ length m
  unfolding remove lookup
  length-remove_held k [] h = absurd (cc h)
  length-remove_held k ((j, w) ∷ m) h = ground (arith, length-remove_held k m, length-remove k m, h)
