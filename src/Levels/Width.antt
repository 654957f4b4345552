-- ===== src/Levels/Width.antt =====
-- `bit_width_for` of levels.rs: the width of levels.
use ematix_parquet.Base.{ℕ, ◌-◌, ◌^◌, ◌≤◌, ◌<◌, arith, ◌==◌, Bool-cases, inl, inr}
use ematix_parquet.Rle.Width.{digits_enough, last_digit_needed, digits_few}
use ematix_parquet.Levels.{bit_width_for}

-- For a maximum level that is a u16, the width holds it, is at most 16, and, if the maximum is not
-- 0, is the least that does.
pub bit_width_for_lem :
    (max_level : ℕ)
    → max_level < 2 ^ 16
    → (max_level < 2 ^ bit_width_for max_level)
      × (bit_width_for max_level ≤ 16)
      × (0 < max_level → 2 ^ (bit_width_for max_level - 1) ≤ max_level)
unfolding bit_width_for
bit_width_for_lem max_level h = elim (Bool-cases (max_level == 0)) [
  | inl none ↦ rw none (ground arith)
  | inr some ↦ rw some (
    digits_enough 32 max_level (omega arith),
    digits_few 32 16 max_level h,
    last_digit_needed 32 max_level (omega arith),
  )
]
