-- ===== src/Common/Bits/Step.antt =====
-- One digit of `bit_and`, `bit_or` and `bit_xor`: the lowest, with the rest by the same operation.
use mathlib.Core.Path.{◌≡◌, refl, ap, ◌∙◌}
use Prim.Native.Nat.{ℕ, zero, suc, ◌+◌, ◌*◌, ◌/◌, ◌%◌, ◌≤◌, ◌<◌, min, max}
use Prim.Native.Nat.{bit_and, bit_or, bit_xor, bitwise, digits, differ}
use Prim.Native.Nat.{bit_and-bitwise, bit_or-bitwise, bit_xor-bitwise}
use native.Mathlib.Omega.{arith}
use native.Mathlib.Decide.{dec_le}

-- A native word operation is a recursion on digits whose rounds are bounded by its first operand.
module _ (rest : ℕ → ℕ) (digit : ℕ → ℕ → ℕ) where
  one_more : (n x y : ℕ) → x ≤ n → digits rest digit (suc n) x y ≡ digits rest digit n x y
  one_more zero zero y h = refl
  one_more (suc n) zero y h = refl
  one_more zero (suc x) y h = absurd (omega arith)
  one_more (suc n) (suc x) y h = omega (arith, one_more n (suc x / 2) (y / 2) (omega arith))

  -- Rounds beyond the operand change nothing.
  spare : (n m x y : ℕ) → m ≤ n → x ≤ m → digits rest digit n x y ≡ digits rest digit m x y
  spare zero m x y le h =
      let same : zero ≡ m = omega arith in ap (λ (k : ℕ). digits rest digit k x y) same
  spare (suc n) m x y le h = elim (dec_le m n) [
    | yes below ↦ one_more n x y (omega arith) ∙ spare n m x y below h
    | no top ↦ let same : suc n ≡ m = omega arith in ap (λ (k : ℕ). digits rest digit k x y) same
  ]

  -- So the operation is its digit operation on the lowest digits, above itself on the halves.
  by_digit :
      (word : ℕ → ℕ → ℕ)
      → ((x y : ℕ) → word x y ≡ bitwise rest digit x y)
      → ((y : ℕ) → rest y ≡ rest (y / 2) * 2 + digit 0 (y % 2))
      → (x y : ℕ) → word x y ≡ word (x / 2) (y / 2) * 2 + digit (x % 2) (y % 2)
  by_digit word is low zero y = omega (arith, is 0 y, is 0 (y / 2), low y)
  by_digit word is low (suc x) y =
      let enough = spare x (suc x / 2) (suc x / 2) (y / 2) (omega arith) (omega arith) in
      omega (arith, is (suc x) y, is (suc x / 2) (y / 2), enough)

pub bit_and_step : (a b : ℕ) → bit_and a b ≡ bit_and (a / 2) (b / 2) * 2 + min (a % 2) (b % 2)
bit_and_step = by_digit (λ _. 0) min bit_and bit_and-bitwise (λ y. omega arith)

pub bit_or_step : (a b : ℕ) → bit_or a b ≡ bit_or (a / 2) (b / 2) * 2 + max (a % 2) (b % 2)
bit_or_step = by_digit (λ y. y) max bit_or bit_or-bitwise (λ y. omega arith)

-- Exclusive or of two digits.
abbrev pub flip : ℕ → ℕ → ℕ
flip a b = (a + b) % 2

differ-flip : (a b : ℕ) → differ (a % 2) (b % 2) ≡ flip (a % 2) (b % 2)
differ-flip a b = digit (a % 2) (b % 2) (omega arith) (omega arith)
  where
    digit : (x y : ℕ) → x < 2 → y < 2 → differ x y ≡ flip x y
    digit zero zero h k = refl
    digit zero (suc zero) h k = refl
    digit zero (suc (suc y)) h k = absurd (omega arith)
    digit (suc zero) zero h k = refl
    digit (suc zero) (suc zero) h k = refl
    digit (suc zero) (suc (suc y)) h k = absurd (omega arith)
    digit (suc (suc x)) y h k = absurd (omega arith)

pub bit_xor_step : (a b : ℕ) → bit_xor a b ≡ bit_xor (a / 2) (b / 2) * 2 + flip (a % 2) (b % 2)
bit_xor_step a b =
    by_digit (λ y. y) differ bit_xor bit_xor-bitwise (λ y. omega (arith, differ-flip 0 y)) a b
    ∙ omega (arith, differ-flip a b)

-- Induction by halves.
halves :
    (P : ℕ → Type 0) → P 0 → ((a : ℕ) → P (suc a / 2) → P (suc a)) → (bound a : ℕ) → a ≤ bound → P a
halves P base half bound zero h = base
halves P base half zero (suc a) h = absurd (omega arith)
halves P base half (suc bound) (suc a) h =
    half a (halves P base half bound (suc a / 2) (omega arith))

pub bit_and-zero : (a : ℕ) → bit_and a 0 ≡ 0
bit_and-zero a =
    halves (λ x. bit_and x 0 ≡ 0) refl (λ x ih. omega (arith, bit_and_step (suc x) 0, ih)) a a
      (omega arith)
