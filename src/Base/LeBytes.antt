-- ===== src/Base/LeBytes.antt =====
-- Byte strings as little-endian numbers.
use Prim.Native.Nat.{ℕ, zero, suc, ◌+◌, ◌*◌, ◌/◌, ◌%◌, ◌^◌, ◌<◌, bit_or}
use mathlib.Core.Path.{◌≡◌, refl, ap, sym}
use mathlib.Core.List.{List, [], ◌∷◌, ◌++◌}
use native.Mathlib.Nat.{zero-div, zero-mod, mod-eq_of_lt}
use native.Mathlib.Omega.{arith}
use ematix_parquet.Base.Lists.{length, get_or, set, take, drop, replicate, All}
use ematix_parquet.Base.Bits.{bit_or_low_high}
use ematix_parquet.Base.Powers.{two_pow-add, div_div_pow, mod_split}

abbrev pub le_value : List ℕ → ℕ
le_value [] = 0
le_value (b ∷ bs) = b + 2 ^ 8 * le_value bs

abbrev pub IsBytes : List ℕ → Type 0
IsBytes bs = All (λ b. b < 2 ^ 8) bs

-- `8 * suc n` as a sum, so that the lemmas on powers apply.
pub eight_suc : (n : ℕ) → 8 * suc n ≡ 8 + 8 * n
eight_suc n = omega arith

pub le_value-append :
    (xs ys : List ℕ) → le_value (xs ++ ys) ≡ le_value xs + 2 ^ (8 * length xs) * le_value ys
le_value-append [] ys = omega arith
le_value-append (x ∷ xs) ys = rw (eight_suc (length xs)) (
    omega (
      arith,
      le_value-append xs ys,
      ap (λ (t : ℕ). t * le_value ys) (two_pow-add 8 (8 * length xs)),
    ))

pub le_value-lt : (xs : List ℕ) → IsBytes xs → le_value xs < 2 ^ (8 * length xs)
le_value-lt [] h = omega arith
le_value-lt (x ∷ xs) (hx, hxs) =
    rw (eight_suc (length xs)) (omega (arith, le_value-lt xs hxs, two_pow-add 8 (8 * length xs)))

pub le_value-drop :
    (n : ℕ) (xs : List ℕ) → IsBytes xs → le_value (drop n xs) ≡ le_value xs / 2 ^ (8 * n)
le_value-drop zero xs h = omega arith
le_value-drop (suc n) [] h = sym (zero-div (2 ^ (8 * suc n)))
le_value-drop (suc n) (x ∷ xs) (hx, hxs) =
    rw (eight_suc n, ← div_div_pow 8 (8 * n) (x + 2 ^ 8 * le_value xs))
      (rw (let e : (x + 2 ^ 8 * le_value xs) / 2 ^ 8 ≡ le_value xs = omega arith in e)
        (le_value-drop n xs hxs))

pub le_value-take :
    (n : ℕ) (xs : List ℕ) → IsBytes xs → le_value (take n xs) ≡ le_value xs % 2 ^ (8 * n)
le_value-take zero xs h = omega arith
le_value-take (suc n) [] h = sym (zero-mod (2 ^ (8 * suc n)))
le_value-take (suc n) (x ∷ xs) (hx, hxs) =
    rw (eight_suc n, mod_split 8 (8 * n) (x + 2 ^ 8 * le_value xs))
      (omega (
        arith,
        le_value-take n xs hxs,
        ap (λ (t : ℕ). t % 2 ^ (8 * n))
            (let e : (x + 2 ^ 8 * le_value xs) / 2 ^ 8 ≡ le_value xs = omega arith in e),
      ))

pub le_value-replicate : (n : ℕ) → le_value (replicate n 0) ≡ 0
le_value-replicate zero = refl
le_value-replicate (suc n) = omega (arith, le_value-replicate n)

pub IsBytes-drop : (n : ℕ) (xs : List ℕ) → IsBytes xs → IsBytes (drop n xs)
IsBytes-drop zero xs h = h
IsBytes-drop (suc n) [] h = h
IsBytes-drop (suc n) (x ∷ xs) h = IsBytes-drop n xs h.1

pub IsBytes-append : (xs ys : List ℕ) → IsBytes xs → IsBytes ys → IsBytes (xs ++ ys)
IsBytes-append [] ys hx hy = hy
IsBytes-append (x ∷ xs) ys hx hy = (hx.0, IsBytes-append xs ys hx.1 hy)

pub IsBytes-replicate : (n : ℕ) → IsBytes (replicate n 0)
IsBytes-replicate zero = tt
IsBytes-replicate (suc n) = (omega arith, IsBytes-replicate n)

pub IsBytes-get : (xs : List ℕ) (i : ℕ) → IsBytes xs → get_or xs i 0 < 2 ^ 8
IsBytes-get [] i h = omega arith
IsBytes-get (x ∷ xs) zero h = h.0
IsBytes-get (x ∷ xs) (suc i) h = IsBytes-get xs i h.1

pub IsBytes-set : (xs : List ℕ) (i b : ℕ) → IsBytes xs → b < 2 ^ 8 → IsBytes (set xs i b)
IsBytes-set [] i b h hb = h
IsBytes-set (x ∷ xs) zero b h hb = (hb, h.1)
IsBytes-set (x ∷ xs) (suc i) b h hb = (h.0, IsBytes-set xs i b h.1 hb)

-- A bit field joined into the byte at `ix`, above all bits that are set, adds its value.
pub le_value-join :
    (out : List ℕ) (ix shift chunk : ℕ)
    → ix < length out
    → chunk * 2 ^ shift < 2 ^ 8
    → le_value out < 2 ^ (8 * ix + shift)
    → le_value (set out ix (bit_or (get_or out ix 0) (chunk * 2 ^ shift % 2 ^ 8)))
      ≡ le_value out + chunk * 2 ^ (8 * ix + shift)
le_value-join [] ix shift chunk hi hc low = absurd (omega arith)
le_value-join (x ∷ xs) zero shift chunk hi hc low =
    let e : 8 * 0 + shift ≡ shift = omega arith in
    let low' : x < 2 ^ shift = omega (arith, ap (λ (t : ℕ). 2 ^ t) e) in
    rw (e, mod-eq_of_lt {n = chunk * 2 ^ shift} {m = 2 ^ 8} hc)
      (omega (arith, bit_or_low_high shift x chunk low'))
le_value-join (x ∷ xs) (suc ix) shift chunk hi hc low =
    let e : 8 * suc ix + shift ≡ 8 + (8 * ix + shift) = omega arith in
    rw e (
      omega (
        arith,
        le_value-join xs ix shift chunk (omega arith) hc
            (omega (arith, two_pow-add 8 (8 * ix + shift), ap (λ t. 2 ^ t) e)),
        ap (λ (t : ℕ). chunk * t) (two_pow-add 8 (8 * ix + shift)),
      ))

-- The `n` low bytes of a number, lowest first: `to_le_bytes`.
abbrev pub le_bytes : ℕ → ℕ → List ℕ
le_bytes zero v = []
le_bytes (suc n) v = v % 2 ^ 8 ∷ le_bytes n (v / 2 ^ 8)

pub length-le_bytes : (n v : ℕ) → length (le_bytes n v) ≡ n
length-le_bytes zero v = refl
length-le_bytes (suc n) v = ap suc (length-le_bytes n (v / 2 ^ 8))

pub le_value-le_bytes : (n v : ℕ) → v < 2 ^ (8 * n) → le_value (le_bytes n v) ≡ v
le_value-le_bytes zero v h = omega arith
le_value-le_bytes (suc n) v h =
    let h' : v < 2 ^ 8 * 2 ^ (8 * n) =
      omega (arith, two_pow-add 8 (8 * n), ap (λ (t : ℕ). 2 ^ t) (eight_suc n)) in
    omega (arith, le_value-le_bytes n (v / 2 ^ 8) (omega arith))
