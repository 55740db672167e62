-- ===== src/Common/Bits.antt =====
-- The binary digits of a number, and what `bit_and`, `bit_or` and `bit_xor` do to them. The
-- native operations have no laws at variables, so these start from their definition by digits.
mod Step
use mathlib.Core.Path.{◌≡◌, refl, ap, sym, ◌∙◌}
use Prim.Native.Nat.{ℕ, zero, suc, ◌+◌, ◌-◌, ◌*◌, ◌/◌, ◌%◌, ◌^◌, ◌≤◌, ◌<◌, min, max}
use Prim.Native.Nat.{bit_and, bit_or, bit_xor}
use Prim.Native.Nat.{bit_and-bitwise, bit_or-bitwise, bit_xor-bitwise}
use native.Mathlib.Nat.{pow-suc, pow-succ', mul_left_comm, div-div-eq-div-mul}
use native.Mathlib.Omega.{arith}
use Step.{flip, bit_and_step, bit_or_step, bit_xor_step}
pub use Step.{bit_and-zero}

-- Digit `i` of `x`, the lowest first.
abbrev pub bit_at : ℕ → ℕ → ℕ
bit_at zero x = x % 2
bit_at (suc i) x = bit_at i (x / 2)

pub bit_at-bit_and : (i x y : ℕ) → bit_at i (bit_and x y) ≡ min (bit_at i x) (bit_at i y)
bit_at-bit_and zero x y = omega (arith, bit_and_step x y)
bit_at-bit_and (suc i) x y =
    ap (bit_at i) (omega (arith, bit_and_step x y)) ∙ bit_at-bit_and i (x / 2) (y / 2)

pub bit_at-bit_or : (i x y : ℕ) → bit_at i (bit_or x y) ≡ max (bit_at i x) (bit_at i y)
bit_at-bit_or zero x y = omega (arith, bit_or_step x y)
bit_at-bit_or (suc i) x y =
    ap (bit_at i) (omega (arith, bit_or_step x y)) ∙ bit_at-bit_or i (x / 2) (y / 2)

pub bit_at-bit_xor : (i x y : ℕ) → bit_at i (bit_xor x y) ≡ flip (bit_at i x) (bit_at i y)
bit_at-bit_xor zero x y = omega (arith, bit_xor_step x y)
bit_at-bit_xor (suc i) x y =
    ap (bit_at i) (omega (arith, bit_xor_step x y)) ∙ bit_at-bit_xor i (x / 2) (y / 2)

pub bit_at-le-one : (i x : ℕ) → bit_at i x ≤ 1
bit_at-le-one zero x = omega arith
bit_at-le-one (suc i) x = bit_at-le-one i (x / 2)

double_pow : (w : ℕ) → 2 ^ suc w ≡ 2 * 2 ^ w
double_pow w = omega (arith, pow-suc 2 w)

-- A word is known by its digits.
pub eq_of_bits : (w x y : ℕ) → x < 2 ^ w → y < 2 ^ w → ((i : ℕ) → bit_at i x ≡ bit_at i y) → x ≡ y
eq_of_bits zero x y hx hy h = omega arith
eq_of_bits (suc w) x y hx hy h = omega (
  arith,
  h 0,
  eq_of_bits w (x / 2) (y / 2) (omega (arith, double_pow w)) (omega (arith, double_pow w))
      (λ i. h (suc i)),
)

-- Digits from the width on are zero.
pub bit_at-beyond : (w i x : ℕ) → x < 2 ^ w → w ≤ i → bit_at i x ≡ 0
bit_at-beyond zero zero x h k = omega arith
bit_at-beyond zero (suc i) x h k = bit_at-beyond zero i (x / 2) (omega arith) (omega arith)
bit_at-beyond (suc w) zero x h k = absurd (omega arith)
bit_at-beyond (suc w) (suc i) x h k =
    bit_at-beyond w i (x / 2) (omega (arith, double_pow w)) (omega arith)

-- The operations keep the width of their operands.
pub bit_and-lt : (w x y : ℕ) → x < 2 ^ w → bit_and x y < 2 ^ w
bit_and-lt zero zero y hx = omega (arith, bit_and_step 0 y, bit_and-bitwise 0 y)
bit_and-lt zero (suc x) y hx = absurd (omega arith)
bit_and-lt (suc w) x y hx = omega (
  arith,
  double_pow w,
  bit_and_step x y,
  bit_and-lt w (x / 2) (y / 2) (omega (arith, double_pow w)),
)

pub bit_or-lt : (w x y : ℕ) → x < 2 ^ w → y < 2 ^ w → bit_or x y < 2 ^ w
bit_or-lt zero zero y hx hy = omega (arith, bit_or-bitwise 0 y)
bit_or-lt zero (suc x) y hx hy = absurd (omega arith)
bit_or-lt (suc w) x y hx hy = omega (
  arith,
  double_pow w,
  bit_or_step x y,
  bit_or-lt w (x / 2) (y / 2) (omega (arith, double_pow w)) (omega (arith, double_pow w)),
)

pub bit_xor-lt : (w x y : ℕ) → x < 2 ^ w → y < 2 ^ w → bit_xor x y < 2 ^ w
bit_xor-lt zero zero y hx hy = omega (arith, bit_xor-bitwise 0 y)
bit_xor-lt zero (suc x) y hx hy = absurd (omega arith)
bit_xor-lt (suc w) x y hx hy = omega (
  arith,
  double_pow w,
  bit_xor_step x y,
  bit_xor-lt w (x / 2) (y / 2) (omega (arith, double_pow w)) (omega (arith, double_pow w)),
)

-- A mask of one digit reads that digit.
pub bit_and-pow : (i x : ℕ) → bit_and x (2 ^ i) ≡ bit_at i x * 2 ^ i
bit_and-pow zero x = omega (arith, bit_and_step x 1, bit_and-zero (x / 2))
bit_and-pow (suc i) x =
    let half : 2 ^ suc i / 2 ≡ 2 ^ i = omega (arith, double_pow i) in
    let low : 2 ^ suc i % 2 ≡ 0 = omega (arith, double_pow i) in
    let step = ap (bit_and (x / 2)) half in
    omega (
      arith,
      step,
      low,
      bit_and_step x (2 ^ suc i),
      bit_and-pow i (x / 2),
      ap (λ (t : ℕ). bit_at i (x / 2) * t) (double_pow i),
    )

pub bit_and_three : (x : ℕ) → bit_and x 3 ≡ bit_at 1 x * 2 + bit_at 0 x
bit_and_three x = omega (arith, bit_and_step x 3, bit_and-pow 0 (x / 2), bit_at-le-one 0 x)

add-suc_lem : (i k : ℕ) → suc (i + k) ≡ i + suc k
add-suc_lem i k = omega arith

-- A shift to the right moves the digits down.
pub bit_at-shr : (k i x : ℕ) → bit_at i (x / 2 ^ k) ≡ bit_at (i + k) x
bit_at-shr zero i x =
    let whole : x / 2 ^ 0 ≡ x = omega arith in
    let same : i ≡ i + 0 = omega arith in ap (bit_at i) whole ∙ ap (λ (j : ℕ). bit_at j x) same
bit_at-shr (suc k) i x =
    ap (bit_at i)
      (omega (arith, ap (λ (t : ℕ). x / t) (pow-succ' 2 k), div-div-eq-div-mul x 2 (2 ^ k)))
    ∙ bit_at-shr k i (x / 2)
    ∙ ap (λ (j : ℕ). bit_at j x) (add-suc_lem i k)

-- A shift to the left leaves zeros behind.
pub bit_at-shl : (k i y : ℕ) → i < k → bit_at i (y * 2 ^ k) ≡ 0
bit_at-shl zero i y h = absurd (omega arith)
bit_at-shl (suc k) zero y h =
    omega (arith, ap (λ (t : ℕ). y * t) (double_pow k), mul_left_comm y 2 (2 ^ k))
bit_at-shl (suc k) (suc i) y h =
    let half : y * 2 ^ suc k / 2 ≡ y * 2 ^ k =
      omega (arith, ap (λ (t : ℕ). y * t) (double_pow k), mul_left_comm y 2 (2 ^ k)) in
    ap (bit_at i) half ∙ bit_at-shl k i y (omega arith)

-- `x ^ (x >> k)` loses nothing: its digits give those of `x` from the highest down.
module _ (w k x y : ℕ) (hx : x < 2 ^ w) (hy : y < 2 ^ w) where
  xorshift_digits :
      bit_xor x (x / 2 ^ suc k) ≡ bit_xor y (y / 2 ^ suc k)
      → (n i : ℕ) → w ≤ i + n
      → bit_at i x ≡ bit_at i y
  xorshift_digits e zero i h =
      bit_at-beyond w i x hx (omega arith) ∙ sym (bit_at-beyond w i y hy (omega arith))
  xorshift_digits e (suc n) i h = omega (
    arith,
    ap (bit_at i) e,
    bit_at-bit_xor i x (x / 2 ^ suc k),
    bit_at-bit_xor i y (y / 2 ^ suc k),
    bit_at-shr (suc k) i x,
    bit_at-shr (suc k) i y,
    bit_at-le-one i x,
    bit_at-le-one i y,
    xorshift_digits e n (i + suc k) (omega arith),
  )

  pub xorshift_injective : bit_xor x (x / 2 ^ suc k) ≡ bit_xor y (y / 2 ^ suc k) → x ≡ y
  xorshift_injective e = eq_of_bits w x y hx hy (λ i. xorshift_digits e w i (omega arith))

-- Exclusive or with one word is undone by the same word.
pub bit_xor-injective : (w h x y : ℕ) → x < 2 ^ w → y < 2 ^ w → bit_xor h x ≡ bit_xor h y → x ≡ y
bit_xor-injective w h x y hx hy e = eq_of_bits w x y hx hy λ i. omega (
  arith,
  ap (bit_at i) e,
  bit_at-bit_xor i h x,
  bit_at-bit_xor i h y,
  bit_at-le-one i x,
  bit_at-le-one i y,
)

pub bit_xor-injective_left :
    (w h x y : ℕ) → x < 2 ^ w → y < 2 ^ w → bit_xor x h ≡ bit_xor y h → x ≡ y
bit_xor-injective_left w h x y hx hy e = eq_of_bits w x y hx hy λ i. omega (
  arith,
  ap (bit_at i) e,
  bit_at-bit_xor i x h,
  bit_at-bit_xor i y h,
  bit_at-le-one i x,
  bit_at-le-one i y,
)
