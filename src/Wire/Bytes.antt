-- ===== src/Wire/Bytes.antt =====
-- Byte lists: integers and their bytes, and slices of a concatenation.
use beep.Common.{
  ℕ, zero, suc, ◌+◌, ◌<◌, ◌≡◌, refl, ap, ◌∙◌, true, List, [], ◌∷◌, ◌++◌, arith, length, take, drop,
  get_or, All, ◌-◌, min, sym,
}
use beep.Wire.{u16_bytes, u32_bytes, u16_of_bytes, u32_of_bytes, bytes_eq, IsBytes}

pub u16_of_bytes-u16_bytes : (x : ℕ) → x < 65536 → u16_of_bytes (u16_bytes x) ≡ x
unfolding u16_of_bytes u16_bytes
u16_of_bytes-u16_bytes x h = omega arith

pub u32_of_bytes-u32_bytes : (x : ℕ) → x < 4294967296 → u32_of_bytes (u32_bytes x) ≡ x
unfolding u32_of_bytes u32_bytes
u32_of_bytes-u32_bytes x h = omega arith

pub bytes_eq_refl : (xs : List ℕ) → bytes_eq xs xs ≡ true
unfolding bytes_eq
bytes_eq_refl [] = refl
bytes_eq_refl (x ∷ xs) = ground (arith, bytes_eq_refl xs)

pub eq_of_bytes_eq : (xs ys : List ℕ) → bytes_eq xs ys ≡ true → xs ≡ ys
unfolding bytes_eq
eq_of_bytes_eq [] [] h = refl
eq_of_bytes_eq [] (y ∷ ys) h = cc
eq_of_bytes_eq (x ∷ xs) [] h = cc
eq_of_bytes_eq (x ∷ xs) (y ∷ ys) h = ground (arith, eq_of_bytes_eq xs ys)

-- What lies before and behind a part of known length.
module _ {ℓ} {A : Type ℓ} where
  pub take_whole : (n : ℕ) (xs ys : List A) → length xs ≡ n → take n (xs ++ ys) ≡ xs
  take_whole zero [] ys h = refl
  take_whole zero (x ∷ xs) ys h = absurd (omega arith)
  take_whole (suc n) [] ys h = absurd (omega arith)
  take_whole (suc n) (x ∷ xs) ys h = ap (λ (l : List A). x ∷ l) (take_whole n xs ys (omega arith))

  pub drop_past : (n k : ℕ) (xs ys : List A) → length xs ≡ n → drop (n + k) (xs ++ ys) ≡ drop k ys
  drop_past zero k [] ys h = ap (λ (m : ℕ). drop m ys) (omega arith)
  drop_past zero k (x ∷ xs) ys h = absurd (omega arith)
  drop_past (suc n) k [] ys h = absurd (omega arith)
  drop_past (suc n) k (x ∷ xs) ys h =
      let e : suc n + k ≡ suc (n + k) = omega arith in
      ap (λ (m : ℕ). drop m ((x ∷ xs) ++ ys)) e ∙ drop_past n k xs ys (omega arith)

  pub get_or_past :
      (n k : ℕ) (xs ys : List A) (d : A)
      → length xs ≡ n
      → get_or (xs ++ ys) (n + k) d ≡ get_or ys k d
  get_or_past zero k [] ys d h = ap (λ (m : ℕ). get_or ys m d) (omega arith)
  get_or_past zero k (x ∷ xs) ys d h = absurd (omega arith)
  get_or_past (suc n) k [] ys d h = absurd (omega arith)
  get_or_past (suc n) k (x ∷ xs) ys d h =
      let e : suc n + k ≡ suc (n + k) = omega arith in
      ap (λ (m : ℕ). get_or ((x ∷ xs) ++ ys) m d) e ∙ get_or_past n k xs ys d (omega arith)

  -- A list of at least `n` items is its first `n` and the rest.
  pub split_at : (n : ℕ) (xs : List A) → take n xs ++ drop n xs ≡ xs
  split_at zero xs = refl
  split_at (suc n) [] = refl
  split_at (suc n) (x ∷ xs) = ap (λ (l : List A). x ∷ l) (split_at n xs)

  drop-nil : (n : ℕ) → drop {A = A} n [] ≡ []
  drop-nil zero = refl
  drop-nil (suc n) = refl

  pub drop-drop : (n k : ℕ) (xs : List A) → drop (n + k) xs ≡ drop k (drop n xs)
  drop-drop zero k xs = ap (λ (m : ℕ). drop m xs) (omega arith)
  drop-drop (suc n) k [] = drop-nil (suc n + k) ∙ sym (drop-nil k)
  drop-drop (suc n) k (x ∷ xs) =
      let e : suc n + k ≡ suc (n + k) = omega arith in
      ap (λ (m : ℕ). drop m (x ∷ xs)) e ∙ drop-drop n k xs

  pub get_or-drop : (n k : ℕ) (xs : List A) (d : A) → get_or xs (n + k) d ≡ get_or (drop n xs) k d
  get_or-drop zero k xs d = ap (λ (m : ℕ). get_or xs m d) (omega arith)
  get_or-drop (suc n) k [] d = refl
  get_or-drop (suc n) k (x ∷ xs) d =
      let e : suc n + k ≡ suc (n + k) = omega arith in
      ap (λ (m : ℕ). get_or (x ∷ xs) m d) e ∙ get_or-drop n k xs d

  pub length-drop : (n : ℕ) (xs : List A) → length (drop n xs) ≡ length xs - n
  length-drop zero xs = omega arith
  length-drop (suc n) [] = omega arith
  length-drop (suc n) (x ∷ xs) = omega (arith, length-drop n xs)

  pub length-take : (n : ℕ) (xs : List A) → length (take n xs) ≡ min n (length xs)
  length-take zero xs = omega arith
  length-take (suc n) [] = omega arith
  length-take (suc n) (x ∷ xs) = omega (arith, length-take n xs)

module _ {ℓ} {A : Type ℓ} where
  pub take_past :
      (n k : ℕ) (xs ys : List A) → length xs ≡ n → take (n + k) (xs ++ ys) ≡ xs ++ take k ys
  take_past zero k [] ys h = ap (λ (m : ℕ). take m ys) (omega arith)
  take_past zero k (x ∷ xs) ys h = absurd (omega arith)
  take_past (suc n) k [] ys h = absurd (omega arith)
  take_past (suc n) k (x ∷ xs) ys h =
      let e : suc n + k ≡ suc (n + k) = omega arith in
      ap (λ (m : ℕ). take m ((x ∷ xs) ++ ys)) e
      ∙ ap (λ (l : List A). x ∷ l) (take_past n k xs ys (omega arith))

module _ {ℓ κ} {A : Type ℓ} (P : A → Type κ) where
  pub All-drop : (n : ℕ) (xs : List A) → All P xs → All P (drop n xs)
  All-drop zero xs h = h
  All-drop (suc n) [] h = tt
  All-drop (suc n) (x ∷ xs) h = All-drop n xs h.1

  pub All-take : (n : ℕ) (xs : List A) → All P xs → All P (take n xs)
  All-take zero xs h = tt
  All-take (suc n) [] h = tt
  All-take (suc n) (x ∷ xs) h = (h.0, All-take n xs h.1)

pub two_bytes : (r : List ℕ) → IsBytes 2 r → u16_bytes (u16_of_bytes r) ≡ r
unfolding u16_bytes u16_of_bytes
two_bytes [] h = absurd (omega arith)
two_bytes (a ∷ []) h = absurd (omega arith)
two_bytes (a ∷ b ∷ []) h = ground arith
two_bytes (a ∷ b ∷ c ∷ r) h = absurd (omega arith)
