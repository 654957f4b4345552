-- ===== src/Base/Bits.antt =====
-- `|`, `&` and `^` on native numbers, as arithmetic on disjoint fields, masks and complements.
use Prim.Native.Nat.{ℕ, zero, suc, ◌+◌, ◌-◌, ◌*◌, ◌/◌, ◌%◌, ◌^◌, ◌≤◌, ◌<◌, min, max}
use Prim.Native.Nat.{bit_and, bit_or, bit_xor, digits, differ}
use Prim.Native.Nat.{bit_and-bitwise, bit_or-bitwise, bit_xor-bitwise}
use mathlib.Core.Path.{◌≡◌, refl, ap, ap₂, ◌∙◌}
use native.Mathlib.Nat.{
  pow-suc, one-le-pow, mod-lt, mod-eq_of_lt, div-add-mod, div-eq_of_lt, add-mul-div_left,
  add-mul-mod_self_left,
}
use native.Mathlib.Omega.{arith}

-- The digit recursion does not depend on spare fuel.
more_fuel :
    (z : ℕ → ℕ) (f : ℕ → ℕ → ℕ) (n m a b : ℕ) → a ≤ n → a ≤ m → digits z f n a b ≡ digits z f m a b
more_fuel z f zero zero a b p q = refl
more_fuel z f zero (suc m) zero b p q = refl
more_fuel z f zero (suc m) (suc a) b p q = elim p [ ]
more_fuel z f (suc n) zero zero b p q = refl
more_fuel z f (suc n) zero (suc a) b p q = elim q [ ]
more_fuel z f (suc n) (suc m) zero b p q = refl
more_fuel z f (suc n) (suc m) (suc a) b p q =
    ap (λ t. t * 2 + f (suc a % 2) (b % 2))
      (more_fuel z f n m (suc a / 2) (b / 2) (omega arith) (omega arith))

half_fuel :
    (z : ℕ → ℕ) (f : ℕ → ℕ → ℕ) (a b : ℕ)
    → digits z f (suc a) (suc a) b
      ≡ digits z f (suc a / 2) (suc a / 2) (b / 2) * 2 + f (suc a % 2) (b % 2)
half_fuel z f a b =
    ap (λ t. t * 2 + f (suc a % 2) (b % 2))
      (more_fuel z f a (suc a / 2) (suc a / 2) (b / 2) (omega arith) (omega arith))

-- One binary digit at a time.
pub bit_and_digit : (a b : ℕ) → bit_and a b ≡ bit_and (a / 2) (b / 2) * 2 + min (a % 2) (b % 2)
bit_and_digit zero b = simp bit_and-bitwise (omega arith)
bit_and_digit (suc a) b = simp bit_and-bitwise (half_fuel (λ _. 0) min a b)

pub bit_or_digit : (a b : ℕ) → bit_or a b ≡ bit_or (a / 2) (b / 2) * 2 + max (a % 2) (b % 2)
bit_or_digit zero b = simp bit_or-bitwise (omega arith)
bit_or_digit (suc a) b = simp bit_or-bitwise (half_fuel (λ y. y) max a b)

differ_zero : (b : ℕ) → differ 0 (b % 2) ≡ b % 2
differ_zero b = refl

pub bit_xor_digit : (a b : ℕ) → bit_xor a b ≡ bit_xor (a / 2) (b / 2) * 2 + differ (a % 2) (b % 2)
bit_xor_digit zero b = simp bit_xor-bitwise (omega arith)
bit_xor_digit (suc a) b = simp bit_xor-bitwise (half_fuel (λ y. y) differ a b)

-- A zero operand.
pub bit_or_zero_left : (a : ℕ) → bit_or 0 a ≡ a
bit_or_zero_left a = bit_or-bitwise 0 a

pub bit_and_zero_left : (a : ℕ) → bit_and 0 a ≡ 0
bit_and_zero_left a = bit_and-bitwise 0 a

bit_and_zero_fuel : (n a : ℕ) → a ≤ n → bit_and a 0 ≡ 0
bit_and_zero_fuel zero a h = omega (
  arith,
  bit_and_digit a 0,
  ap (λ t. bit_and t 0) (let e : a / 2 ≡ 0 = omega arith in e),
  bit_and_zero_left 0,
)
bit_and_zero_fuel (suc n) a h =
    omega (arith, bit_and_digit a 0, bit_and_zero_fuel n (a / 2) (omega arith))

pub bit_and_zero : (a : ℕ) → bit_and a 0 ≡ 0
bit_and_zero a = bit_and_zero_fuel a a (omega arith)

differ_right_zero : (x : ℕ) → differ x 0 ≡ x
differ_right_zero zero = refl
differ_right_zero (suc x) = refl

bit_xor_zero_fuel : (n a : ℕ) → a ≤ n → bit_xor a 0 ≡ a
bit_xor_zero_fuel n zero h = bit_xor-bitwise 0 0
bit_xor_zero_fuel zero (suc a) h = elim h [ ]
bit_xor_zero_fuel (suc n) (suc a) h = omega (
  arith,
  bit_xor_digit (suc a) 0,
  bit_xor_zero_fuel n (suc a / 2) (omega arith),
  differ_right_zero (suc a % 2),
)

pub bit_xor_zero : (a : ℕ) → bit_xor a 0 ≡ a
bit_xor_zero a = bit_xor_zero_fuel a a (omega arith)

pub double : (q k : ℕ) → q * 2 ^ suc k ≡ 2 * (q * 2 ^ k)
double q k = omega (arith, ap (λ (t : ℕ). q * t) (pow-suc 2 k))

-- A field above `k` bits joins a field of `k` bits as a sum.
pub bit_or_low_high : (k r q : ℕ) → r < 2 ^ k → bit_or r (q * 2 ^ k) ≡ r + q * 2 ^ k
bit_or_low_high zero zero q h = omega (arith, bit_or_zero_left (q * 2 ^ 0))
bit_or_low_high zero (suc r) q h = absurd (omega arith)
bit_or_low_high (suc k) r q h = ground (
  arith,
  bit_or_digit r (q * 2 ^ suc k),
  double q k,
  pow-suc 2 k,
  bit_or_low_high k (r / 2) q (omega (arith, pow-suc 2 k)),
)

bit_or_zero_fuel : (n a : ℕ) → a ≤ n → bit_or a 0 ≡ a
bit_or_zero_fuel n zero h = bit_or-bitwise 0 0
bit_or_zero_fuel zero (suc a) h = elim h [ ]
bit_or_zero_fuel (suc n) (suc a) h =
    omega (arith, bit_or_digit (suc a) 0, bit_or_zero_fuel n (suc a / 2) (omega arith))

pub bit_or_high_low : (k r q : ℕ) → r < 2 ^ k → bit_or (q * 2 ^ k) r ≡ q * 2 ^ k + r
bit_or_high_low zero zero q h =
    omega (arith, bit_or_zero_fuel (q * 2 ^ 0) (q * 2 ^ 0) (omega arith))
bit_or_high_low zero (suc r) q h = absurd (omega arith)
bit_or_high_low (suc k) r q h = ground (
  arith,
  bit_or_digit (q * 2 ^ suc k) r,
  double q k,
  pow-suc 2 k,
  bit_or_high_low k (r / 2) q (omega (arith, pow-suc 2 k)),
)

pub bit_or-lt : (k a b : ℕ) → a < 2 ^ k → b < 2 ^ k → bit_or a b < 2 ^ k
bit_or-lt zero zero b ha hb = omega (arith, bit_or_zero_left b)
bit_or-lt zero (suc a) b ha hb = absurd (omega arith)
bit_or-lt (suc k) a b ha hb =
    let rest : bit_or (a / 2) (b / 2) < 2 ^ k =
      bit_or-lt k (a / 2) (b / 2) (omega (arith, pow-suc 2 k)) (omega (arith, pow-suc 2 k)) in
    omega (arith, bit_or_digit a b, pow-suc 2 k)

-- Quotient and remainder are what the division equation determines.
pub mod_unique : (a q m r : ℕ) → a ≡ r + m * q → r < m → a % m ≡ r
mod_unique a q m r e h = rw e (add-mul-mod_self_left r m q ∙ mod-eq_of_lt h)

pub div_unique : (a q m r : ℕ) → a ≡ r + m * q → r < m → a / m ≡ q
div_unique a q m r e h =
    rw e (omega (arith, add-mul-div_left r q {y = m} (omega arith), div-eq_of_lt h))

-- Dropping the lowest digit before a remainder or a quotient by a power of two.
pub mod_digit : (k a : ℕ) → a % 2 ^ suc k ≡ a / 2 % 2 ^ k * 2 + a % 2
mod_digit k a =
    mod_unique a (a / 2 / 2 ^ k) (2 ^ suc k) (a / 2 % 2 ^ k * 2 + a % 2)
      (omega (arith, pow-suc 2 k, div-add-mod (a / 2) (2 ^ k), double (a / 2 / 2 ^ k) k))
      (omega (arith, pow-suc 2 k, mod-lt (a / 2) (one-le-pow k 2 (omega arith))))

pub div_digit : (k a : ℕ) → a / 2 ^ suc k ≡ a / 2 / 2 ^ k
div_digit k a =
    div_unique a (a / 2 / 2 ^ k) (2 ^ suc k) (a / 2 % 2 ^ k * 2 + a % 2)
      (omega (arith, pow-suc 2 k, div-add-mod (a / 2) (2 ^ k), double (a / 2 / 2 ^ k) k))
      (omega (arith, pow-suc 2 k, mod-lt (a / 2) (one-le-pow k 2 (omega arith))))

ones_half : (k : ℕ) → (2 ^ suc k - 1) / 2 ≡ 2 ^ k - 1
ones_half k = omega (arith, pow-suc 2 k, one-le-pow k 2 (omega arith))

ones_odd : (k : ℕ) → (2 ^ suc k - 1) % 2 ≡ 1
ones_odd k = omega (arith, pow-suc 2 k, one-le-pow k 2 (omega arith))

-- A mask of `k` ones is the remainder by `2 ^ k`.
pub bit_and_ones : (k a : ℕ) → bit_and a (2 ^ k - 1) ≡ a % 2 ^ k
bit_and_ones zero a = omega (arith, bit_and_zero a)
bit_and_ones (suc k) a =
    bit_and_digit a (2 ^ suc k - 1)
    ∙ rw (ones_half k, ones_odd k, bit_and_ones k (a / 2), mod_digit k a) (omega arith)

differ_one : (x : ℕ) → x < 2 → differ x 1 ≡ 1 - x
differ_one zero h = refl
differ_one (suc zero) h = refl
differ_one (suc (suc x)) h = absurd (omega arith)

-- `^` with all ones is the complement.
pub bit_xor_ones : (k a : ℕ) → a < 2 ^ k → bit_xor a (2 ^ k - 1) ≡ 2 ^ k - 1 - a
bit_xor_ones zero a h = omega (arith, bit_xor_zero a)
bit_xor_ones (suc k) a h =
    let below : a / 2 < 2 ^ k = omega (arith, pow-suc 2 k) in
    bit_xor_digit a (2 ^ suc k - 1)
    ∙ rw (ones_half k, ones_odd k, bit_xor_ones k (a / 2) below, differ_one (a % 2) (omega arith))
        (omega (arith, pow-suc 2 k))

-- A mask whose low `k` bits are clear.
pub bit_and_shifted : (k a m : ℕ) → bit_and a (m * 2 ^ k) ≡ bit_and (a / 2 ^ k) m * 2 ^ k
bit_and_shifted zero a m =
    ap₂ bit_and (let e : a ≡ a / 2 ^ 0 = omega arith in e)
      (let e : m * 2 ^ 0 ≡ m = omega arith in e)
    ∙ omega arith
bit_and_shifted (suc k) a m =
    bit_and_digit a (m * 2 ^ suc k)
    ∙ rw
        (
          let e : m * 2 ^ suc k / 2 ≡ m * 2 ^ k = omega (arith, double m k) in e,
          let e : m * 2 ^ suc k % 2 ≡ 0 = omega (arith, double m k) in e,
          bit_and_shifted k (a / 2) m,
          div_digit k a,
        )
        (omega (arith, double (bit_and (a / 2 / 2 ^ k) m) k))

-- The masks that the codecs use on a byte.
pub and_7f : (b : ℕ) → bit_and b 0x7f ≡ b % 128
and_7f b = bit_and_ones 7 b

pub and_0f : (b : ℕ) → bit_and b 0x0f ≡ b % 16
and_0f b = bit_and_ones 4 b

pub and_01 : (b : ℕ) → bit_and b 1 ≡ b % 2
and_01 b = bit_and_ones 1 b

pub and_80 : (b : ℕ) → bit_and b 0x80 ≡ b / 128 % 2 * 128
and_80 b = omega (arith, bit_and_shifted 7 b 1, and_01 (b / 128))

pub and_f0 : (b : ℕ) → bit_and b 0xf0 ≡ b / 16 % 16 * 16
and_f0 b = omega (arith, bit_and_shifted 4 b 15, and_0f (b / 16))

-- A field of 4 bits above another, or the top bit above seven.
pub or_nibbles : (hi lo : ℕ) → lo < 16 → bit_or (hi * 2 ^ 4) lo ≡ hi * 16 + lo
or_nibbles hi lo h = bit_or_high_low 4 lo hi h

pub or_80 : (g : ℕ) → g < 128 → bit_or g 0x80 ≡ g + 128
or_80 g h = bit_or_low_high 7 g 1 h
