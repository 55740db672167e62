-- ===== src/Steer/Slot.antt =====
-- The slot that a hash picks (`slot_in_range` and `select_endpoint_slot` of common/src/lib.rs).
use native.Mathlib.Nat.{mul-lt-mul_of_pos_right}
use beep.Common.{
  ℕ, zero, suc, ◌+◌, ◌*◌, ◌/◌, ◌^◌, ◌≤◌, ◌<◌, ◌≡◌, refl, none, some, arith, ltb, if◌then◌else◌, ◌↔◌,
  ◌⊎◌, inl, inr, Bool-cases,
}
use beep.Maps.{u16_mod}
use beep.Steer.{slot_in_range, select_endpoint_slot}

product-lt : (hash n : ℕ) → hash < 2 ^ 32 → 0 < n → hash * n < 4294967296 * n
product-lt hash n h pos = mul-lt-mul_of_pos_right h pos

-- A `u32` hash picks slot `s` of `n` exactly when it lies in the s-th of `n` equal parts of the 32-bit
-- range, so every slot below `n` has its share and no slot from `n` on has any.
-- The hash and the count are 32-bit words.
pub slot_in_range_exact :
    (hash n s : ℕ)
    → hash < 2 ^ 32
    → n < 2 ^ 32
    → (slot_in_range hash n ≡ some s)
      ↔ ((s * 2 ^ 32 ≤ hash * n) × (hash * n < (s + 1) * 2 ^ 32) × (0 < n))
unfolding slot_in_range
slot_in_range_exact hash zero s h k = (λ e. cc, λ e. absurd (omega arith))
slot_in_range_exact hash (suc n) s h k =
    let p = product-lt hash (suc n) h (omega arith) in (ground (arith, p), ground (arith, p))

-- The slot lies below the count, and there is one unless the count is 0.
pub slot_in_range_bounds :
    (hash n : ℕ)
    → hash < 2 ^ 32
    → n < 2 ^ 32
    → (slot_in_range hash n ≡ none) × (n ≡ 0)
      ⊎ ((s : ℕ) × (slot_in_range hash n ≡ some s) × (s < n))
unfolding slot_in_range
slot_in_range_bounds hash zero h k = inl (refl, refl)
slot_in_range_bounds hash (suc n) h k =
    let p = product-lt hash (suc n) h (omega arith) in
    inr (hash * suc n / 4294967296, ground (arith, p), ground (arith, p))

-- The range that a new flow is spread over: the node's own endpoints if there are any.
abbrev pub slot_range : ℕ → ℕ → ℕ
slot_range ready_count local_count = if ltb 0 local_count then local_count else ready_count

-- A new flow gets a slot exactly if there is an endpoint and the counts are consistent, and then a
-- slot among the local endpoints if there are any, else among all.
-- The hash is a 32-bit word and the count a 16-bit one.
pub select_endpoint_slot_bounds :
    (hash ready_count local_count : ℕ)
    → hash < 2 ^ 32
    → ready_count < u16_mod
    → (select_endpoint_slot hash ready_count local_count ≡ none)
        × ((ready_count ≡ 0) ⊎ (ready_count < local_count))
      ⊎ ((slot : ℕ) × (select_endpoint_slot hash ready_count local_count ≡ some slot)
          × (slot < slot_range ready_count local_count)
          × (slot < ready_count)
          × (local_count ≤ ready_count))
unfolding select_endpoint_slot
select_endpoint_slot_bounds hash ready local h k = elim (Bool-cases (ltb ready local)) [
  | inl over ↦ inl (rw over, inr (ground arith))
  | inr fits ↦ elim (slot_in_range_bounds hash (slot_range ready local) h (ground arith)) [
    | inl (e, z) ↦ inl (rw (fits, e), inl (ground arith))
    | inr (s, e, lt) ↦
        let small : s < u16_mod = ground arith in
        inr (s, rw (fits, e) (ground arith), lt, ground arith, ground arith)
  ]
]
