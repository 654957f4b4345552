-- ===== src/Base/Powers.antt =====
-- Quotients and remainders by powers of two: fields of a number's binary digits.
use Prim.Native.Nat.{ℕ, zero, suc, ◌+◌, ◌-◌, ◌*◌, ◌/◌, ◌%◌, ◌^◌, ◌≤◌}
use mathlib.Core.Path.{◌≡◌, ap}
use native.Mathlib.Nat.{
  pow-suc, one-le-pow, mod-lt, div-add-mod, suc-add, zero-add, mul-le-mul_left,
}
use native.Mathlib.Omega.{arith}
use ematix_parquet.Base.Bits.{double, div_digit, mod_unique, div_unique}

pub two_pow_pos : (k : ℕ) → 1 ≤ 2 ^ k
two_pow_pos k = one-le-pow k 2 (omega arith)

pub two_pow-add : (a b : ℕ) → 2 ^ (a + b) ≡ 2 ^ a * 2 ^ b
two_pow-add zero b = rw (zero-add b) (omega arith)
two_pow-add (suc a) b = rw (suc-add a b) (
    omega (
      arith,
      pow-suc 2 (a + b),
      pow-suc 2 a,
      ap (λ (t : ℕ). t * 2) (two_pow-add a b),
      double (2 ^ b) a,
    ))

pub div_div_pow : (a b n : ℕ) → n / 2 ^ a / 2 ^ b ≡ n / 2 ^ (a + b)
div_div_pow zero b n = let e : n / 2 ^ 0 ≡ n = omega arith in rw (e, zero-add b)
div_div_pow (suc a) b n =
    rw (suc-add a b, div_digit a n, div_digit (a + b) n) (div_div_pow a b (n / 2))

pub mod_split : (a b n : ℕ) → n % 2 ^ (a + b) ≡ n % 2 ^ a + 2 ^ a * (n / 2 ^ a % 2 ^ b)
mod_split a b n =
    mod_unique n (n / 2 ^ a / 2 ^ b) (2 ^ (a + b)) (n % 2 ^ a + 2 ^ a * (n / 2 ^ a % 2 ^ b))
      (omega (
        arith,
        div-add-mod n (2 ^ a),
        ap (λ (t : ℕ). 2 ^ a * t) (div-add-mod (n / 2 ^ a) (2 ^ b)),
        ap (λ (t : ℕ). t * (n / 2 ^ a / 2 ^ b)) (two_pow-add a b),
      ))
      (omega (
        arith,
        two_pow-add a b,
        mod-lt n (two_pow_pos a),
        mul-le-mul_left (2 ^ a) (mod-lt (n / 2 ^ a) (two_pow_pos b)),
      ))

-- The quotient that `mod_split` shows.
pub mod_div : (a b n : ℕ) → n % 2 ^ (a + b) / 2 ^ a ≡ n / 2 ^ a % 2 ^ b
mod_div a b n =
    div_unique (n % 2 ^ (a + b)) (n / 2 ^ a % 2 ^ b) (2 ^ a) (n % 2 ^ a) (mod_split a b n)
      (mod-lt n (two_pow_pos a))

pub mod_mod_pow : (a b n : ℕ) → n % 2 ^ (a + b) % 2 ^ a ≡ n % 2 ^ a
mod_mod_pow a b n =
    mod_unique (n % 2 ^ (a + b)) (n / 2 ^ a % 2 ^ b) (2 ^ a) (n % 2 ^ a) (mod_split a b n)
      (mod-lt n (two_pow_pos a))

-- The field of `w` digits from digit `b` on lies below digit `b + w`.
pub field_of_mod : (b w m n : ℕ) → b + w ≤ m → n % 2 ^ m / 2 ^ b % 2 ^ w ≡ n / 2 ^ b % 2 ^ w
field_of_mod b w m n h =
    let e : m ≡ b + (w + (m - (b + w))) = omega arith in
    rw e (rw (mod_div b (w + (m - (b + w))) n) (mod_mod_pow w (m - (b + w)) (n / 2 ^ b)))
