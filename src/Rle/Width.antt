-- ===== src/Rle/Width.antt =====
-- The width of dictionary indices: the number of binary digits of the largest value.
use native.Mathlib.Nat.{pow-suc}
use ematix_parquet.Base.{
  ℕ, zero, suc, ◌+◌, ◌-◌, ◌*◌, ◌/◌, ◌%◌, ◌^◌, ◌≤◌, ◌<◌, ◌≡◌, ap, arith, ◌==◌, leb, Bool-cases, inl,
  inr, dec_le, refl, true, false,
}
use ematix_parquet.Rle.{binary_digits, min_bit_width_for_dict}

-- `k` rounds count enough digits for a number below `2 ^ k`.
pub digits_enough : (k n : ℕ) → n < 2 ^ k → n < 2 ^ binary_digits k n
unfolding binary_digits
digits_enough zero n h = h
digits_enough (suc k) n h = elim (Bool-cases (n == 0)) [
  | inl none ↦ rw none (ground arith)
  | inr some ↦ rw some (
      omega (
        arith,
        pow-suc 2 k,
        digits_enough k (n / 2) (omega (arith, pow-suc 2 k)),
        pow-suc 2 (binary_digits k (n / 2)),
      ))
]

digits_zero : (k : ℕ) → binary_digits k 0 ≡ 0
unfolding binary_digits
digits_zero zero = refl
digits_zero (suc k) = refl

pub digits_few : (k j n : ℕ) → n < 2 ^ j → binary_digits k n ≤ j
unfolding binary_digits
digits_few zero j n h = omega arith
digits_few (suc k) zero n h = let e : n == 0 ≡ true = ground arith in rw e (omega arith)
digits_few (suc k) (suc j) n h = elim (Bool-cases (n == 0)) [
  | inl none ↦ rw none (omega arith)
  | inr some ↦ rw some (omega (arith, digits_few k j (n / 2) (omega (arith, pow-suc 2 j))))
]

-- They count none too many.
digits_needed : (k n : ℕ) → n < 2 ^ k → 0 < n → 2 ^ binary_digits k n ≤ 2 * n
unfolding binary_digits
digits_needed zero n h pos = omega arith
digits_needed (suc k) n h pos = elim (Bool-cases (n == 0)) [
  | inl none ↦ absurd (ground arith)
  | inr some ↦ rw some (elim (dec_le 2 n) [
    | yes more ↦ omega (
      arith,
      pow-suc 2 k,
      pow-suc 2 (binary_digits k (n / 2)),
      digits_needed k (n / 2) (omega (arith, pow-suc 2 k)) (omega arith),
    )
    | no one ↦ omega (
      arith,
      pow-suc 2 (binary_digits k (n / 2)),
      ap (λ (t : ℕ). 2 ^ binary_digits k t) (let e : n / 2 ≡ 0 = omega arith in e),
      ap (λ (t : ℕ). 2 ^ t) (digits_zero k),
    )
  ])
]

half_power : (d n : ℕ) → 0 < n → 2 ^ d ≤ 2 * n → 2 ^ (d - 1) ≤ n
half_power zero n pos h = omega arith
half_power (suc d) n pos h =
    omega (arith, pow-suc 2 d, ap (λ (t : ℕ). 2 ^ t) (let e : suc d - 1 ≡ d = omega arith in e))

pub last_digit_needed : (k n : ℕ) → n < 2 ^ k → 0 < n → 2 ^ (binary_digits k n - 1) ≤ n
last_digit_needed k n h pos = half_power (binary_digits k n) n pos (digits_needed k n h pos)

-- For a dictionary of 2 to 2^32 entries, the width of an index holds every index below the number
-- of entries, and one bit less would not hold the last.
pub min_bit_width_for_dict_lem :
    (dict_len : ℕ)
    → 2 ≤ dict_len
    → dict_len ≤ 2 ^ 32
    → (dict_len ≤ 2 ^ min_bit_width_for_dict dict_len)
      × (2 ^ (min_bit_width_for_dict dict_len - 1) < dict_len)
unfolding min_bit_width_for_dict
min_bit_width_for_dict_lem dict_len low high =
    let e : (dict_len % 2 ^ 32 + 2 ^ 32 - 1) % 2 ^ 32 ≡ dict_len - 1 = omega arith in
    let b : leb dict_len 1 ≡ false = ground arith in
    rw (b, e)
      (
        omega (arith, digits_enough 32 (dict_len - 1) (omega arith)),
        omega (arith, last_digit_needed 32 (dict_len - 1) (omega arith) (omega arith)),
      )
