-- ===== src/Rle/Wide.antt =====
-- What the 64-bit accumulator of the decoder can hold.
use mathlib.Core.Option
use mathlib.Core.Option.{some-injective}
use native.Mathlib.Nat.{div-lt_iff_lt-mul}
use ematix_parquet.Base.{
  ℕ, zero, suc, ◌+◌, ◌-◌, ◌*◌, ◌/◌, ◌%◌, ◌^◌, ◌≤◌, ◌<◌, ◌≡◌, arith, bit_and, List, get_or, ◌==◌, ap,
  ◌∙◌, subst, Bool-cases, inl, inr, Option, none, some, length, ltb,
}
use ematix_parquet.Base.Bits.{bit_or-lt, bit_and_ones}
use ematix_parquet.Base.Powers.{two_pow_pos, two_pow-add}
use ematix_parquet.Rle.{gather, packed_value, value_mask, div_ceil}

-- What holds of a value, if there is one.
abbrev IfSome : (ℕ → Type 0) → Option ℕ → Type 0
IfSome P none = Unit {0}
IfSome P (some v) = P v

gather-lt :
    (chunk : List ℕ) (off n j acc : ℕ)
    → acc < 2 ^ 64
    → IfSome (λ v. v < 2 ^ 64) (gather chunk off n j acc)
unfolding gather
gather-lt chunk off zero j acc h = h
gather-lt chunk off (suc n) j acc h = elim (Bool-cases (ltb (off + j) (length chunk))) [
  | inl inside ↦ rw inside (
      gather-lt chunk off n (j + 1) _
        (bit_or-lt 64 acc (get_or chunk (off + j) 0 * 2 ^ (j * 8 % 64) % 2 ^ 64) h (omega arith)))
  | inr outside ↦ rw outside tt
]

mask-le : (bw a : ℕ) → bit_and a (value_mask bw) ≤ a
mask-le bw a = elim (Bool-cases (bw == 64)) [
  | inl full ↦ rw full (omega (arith, bit_and_ones 64 a))
  | inr part ↦ rw part (omega (arith, bit_and_ones bw a))
]

two_pow_sum : (s : ℕ) → s ≤ 64 → 2 ^ 64 ≡ 2 ^ (64 - s) * 2 ^ s
two_pow_sum s h =
    ap (λ (t : ℕ). 2 ^ t) (let e : 64 ≡ 64 - s + s = omega arith in e) ∙ two_pow-add (64 - s) s

shifted-lt : (s a : ℕ) → s ≤ 64 → a < 2 ^ 64 → a / 2 ^ s < 2 ^ (64 - s)
shifted-lt s a h ha =
    let (_, from) = div-lt_iff_lt-mul {k = 2 ^ s} {x = a} {y = 2 ^ (64 - s)} (two_pow_pos s) in
    from (subst (λ (t : ℕ). a < t) (two_pow_sum s h) ha)

field-lt :
    (bw s v : ℕ) (acc : Option ℕ)
    → s ≤ 64
    → IfSome (λ a. a < 2 ^ 64) acc
    → Option.map (λ a. bit_and (a / 2 ^ s) (value_mask bw)) acc ≡ some v
    → v < 2 ^ (64 - s)
field-lt bw s v none h low e = cc
field-lt bw s v (some a) h low e =
    subst (λ t. t < 2 ^ (64 - s)) (some-injective _ _ e)
      (omega (arith, mask-le bw (a / 2 ^ s), shifted-lt s a h low))

-- A value of a bit-packed run that starts s bits into a byte, if it is read without a panic, is
-- below 2^(64 - s), whatever the width and the bytes.
pub packed_value-lt :
    (chunk : List ℕ) (bw i v : ℕ) → packed_value chunk bw i ≡ some v → v < 2 ^ (64 - i * bw % 8)
unfolding packed_value
packed_value-lt chunk bw i v e =
    field-lt bw (i * bw % 8) v _ (omega arith)
      (gather-lt chunk (i * bw / 8) (div_ceil (i * bw % 8 + bw) 8) 0 0 (omega arith)) e
