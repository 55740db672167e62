-- ===== src/Sizing.antt =====
-- The row counts of the two front maps (`front_map_max_entries` of src/lib.rs).
mod Tests
use beep.Common.{
  ℕ, ◌*◌, ◌<◌, ◌≡◌, refl, ◌||◌, true, false, ◌==◌, ltb, if◌then◌else◌, Option, none, some, arith,
  ◌↔◌, Bool-cases, inl, inr,
}
use beep.Maps.{u32_mod}

-- The two errors, or the rows of the meta map and of the endpoint map.
pub data Sizing : Type 0 where
  zero_flag overflow : Sizing
  entries : ℕ → ℕ → Sizing

abbrev pub checked_mul : ℕ → ℕ → Option ℕ
checked_mul a b = if ltb (a * b) u32_mod then some (a * b) else none

abbrev doubled : ℕ → Option ℕ → Sizing
doubled max_fronts none = overflow
doubled max_fronts (some rows) = elim (checked_mul rows 2) [
  | none ↦ overflow
  | some all ↦ entries max_fronts all
]

unfoldable pub front_map_max_entries : ℕ → ℕ → Sizing
front_map_max_entries max_fronts endpoints_per_front =
    if max_fronts == 0 || endpoints_per_front == 0
    then zero_flag
    else doubled max_fronts (checked_mul max_fronts endpoints_per_front)

-- The flags are refused exactly if one is 0, or if twice the product does not fit a 32-bit word,
-- and else the meta map has the fronts and the endpoint map twice the product.
pub front_map_max_entries_exact :
    (max_fronts endpoints_per_front : ℕ)
    → front_map_max_entries max_fronts endpoints_per_front ≡ (
        if max_fronts == 0 || endpoints_per_front == 0
        then zero_flag
        else if ltb (max_fronts * endpoints_per_front * 2) u32_mod
        then entries max_fronts (max_fronts * endpoints_per_front * 2)
        else overflow)
unfolding front_map_max_entries
front_map_max_entries_exact max_fronts per = ground arith
