-- ===== src/Rle/Window.antt =====
-- The decoder's byte window: `gather` and `packed_value` as fields of the little-endian number
-- that the run's bytes spell.
use native.Mathlib.Nat.{
  mod-eq_of_lt, add-zero, zero-div, zero-mod, pow-le-pow_right, mul-le-mul, mul-le-mul_right,
}
use ematix_parquet.Base.{
  ℕ, zero, suc, ◌+◌, ◌*◌, ◌/◌, ◌%◌, ◌^◌, ◌≤◌, ◌<◌, ◌≡◌, refl, ap, ◌∙◌, arith, bit_or, List, [], ◌∷◌,
  length, get_or, take, drop, All, ◌==◌, ltb, some, true, false,
}
use ematix_parquet.Base.Bits.{bit_or_low_high, bit_and_ones, mod_unique, div_unique}
use ematix_parquet.Base.Powers.{two_pow-add, div_div_pow, field_of_mod}
use ematix_parquet.Base.LeBytes.{
  le_value, IsBytes, IsBytes-get, IsBytes-drop, le_value-drop, le_value-take,
}
use ematix_parquet.Rle.{gather, packed_value, packed_values, div_ceil}

-- A byte in the list begins the bytes from its place on.
drop_at : (xs : List ℕ) (i : ℕ) → i < length xs → drop i xs ≡ get_or xs i 0 ∷ drop (suc i) xs
drop_at [] i h = absurd (omega arith)
drop_at (x ∷ xs) zero h = refl
drop_at (x ∷ xs) (suc i) h = drop_at xs i (omega arith)

-- One round of the window.
gather_step :
    (acc b j : ℕ)
    → b < 2 ^ 8
    → j < 8
    → acc < 2 ^ (8 * j)
    → bit_or acc (b * 2 ^ (j * 8 % 64) % 2 ^ 64) ≡ acc + b * 2 ^ (8 * j)
gather_step acc b j hb hj low =
    let e : j * 8 % 64 ≡ 8 * j = omega arith in
    let top : 2 ^ (8 * j) ≤ 2 ^ 56 = pow-le-pow_right (omega arith) {j = 56} (omega arith) in
    let fits : b * 2 ^ (8 * j) < 2 ^ 64 =
      omega (
        arith,
        mul-le-mul {n₁ = b} {m₁ = 2 ^ (8 * j)} {n₂ = 255} {m₂ = 2 ^ 56} (omega arith) top,
      ) in
    rw (e, mod-eq_of_lt fits) (bit_or_low_high (8 * j) acc b low)

-- At most eight bytes fit the 64 bits of the accumulator: they join as a little-endian number.
gather-lem :
    (chunk : List ℕ) (off n j acc : ℕ)
    → IsBytes chunk
    → off + j + n ≤ length chunk
    → j + n ≤ 8
    → acc < 2 ^ (8 * j)
    → gather chunk off n j acc ≡ some (acc + 2 ^ (8 * j) * le_value (take n (drop (off + j) chunk)))
unfolding gather
gather-lem chunk off zero j acc hb len fits low =
    ap some (let e : acc ≡ acc + 2 ^ (8 * j) * 0 = omega arith in e)
gather-lem chunk off (suc n) j acc hb len fits low =
    let b = get_or chunk (off + j) 0 in
    let hj : b < 2 ^ 8 = IsBytes-get chunk (off + j) hb in
    let e : off + (j + 1) ≡ suc (off + j) = omega arith in
    let next : 8 * (j + 1) ≡ 8 + 8 * j = omega arith in
    let low' : acc + b * 2 ^ (8 * j) < 2 ^ (8 * (j + 1)) =
      rw (next, two_pow-add 8 (8 * j)) (omega (arith, mul-le-mul_right (2 ^ (8 * j)) hj)) in
    let inside : ltb (off + j) (length chunk) ≡ true = ground arith in
    let joins : acc
          + b * 2 ^ (8 * j)
          + 2 ^ (8 * (j + 1)) * le_value (take n (drop (off + (j + 1)) chunk))
        ≡ acc + 2 ^ (8 * j) * le_value (take (suc n) (drop (off + j) chunk)) =
      rw (e, next, two_pow-add 8 (8 * j), drop_at chunk (off + j) (omega arith)) (omega arith) in
    rw inside (
      ap (gather chunk off n (j + 1)) (gather_step acc b j hj (omega arith) low)
      ∙ gather-lem chunk off n (j + 1) (acc + b * 2 ^ (8 * j)) hb (omega arith) (omega arith) low'
      ∙ ap some joins)

-- The whole window, as a field of the number that the bytes spell.
pub gather_window :
    (chunk : List ℕ) (off n : ℕ)
    → IsBytes chunk
    → off + n ≤ length chunk
    → n ≤ 8
    → gather chunk off n 0 0 ≡ some (le_value chunk / 2 ^ (8 * off) % 2 ^ (8 * n))
gather_window chunk off n hb len fits =
    gather-lem chunk off n 0 0 hb (omega arith) (omega arith) (omega arith)
    ∙ ap some (
        rw
          (
            add-zero off,
            le_value-take n (drop off chunk) (IsBytes-drop off chunk hb),
            le_value-drop off chunk hb,
          )
          (let e : (t : ℕ) → 0 + 2 ^ (8 * 0) * t ≡ t = λ t. omega arith in e _))

bits_split : (p : ℕ) → 8 * (p / 8) + p % 8 ≡ p
bits_split p = omega arith

-- The `i`-th value of a bit-packed run: `bw` binary digits from digit `i * bw` on.
pub packed_value_lem :
    (chunk : List ℕ) (bw i : ℕ)
    → IsBytes chunk
    → bw ≤ 57
    → i * bw + bw ≤ 8 * length chunk
    → packed_value chunk bw i ≡ some (le_value chunk / 2 ^ (i * bw) % 2 ^ bw)
unfolding packed_value
packed_value_lem chunk bw i hb width fits =
    let p : ℕ = i * bw in
    let n : ℕ = div_ceil (p % 8 + bw) 8 in
    let window : gather chunk (p / 8) n 0 0
        ≡ some (le_value chunk / 2 ^ (8 * (p / 8)) % 2 ^ (8 * n)) =
      gather_window chunk (p / 8) n hb (omega arith) (omega arith) in
    let plain : (bw == 64) ≡ false = ground arith in
    rw (window, plain, bit_and_ones bw)
      (ap some (
        field_of_mod (p % 8) bw (8 * n) (le_value chunk / 2 ^ (8 * (p / 8))) (omega arith)
        ∙ rw (div_div_pow (8 * (p / 8)) (p % 8) (le_value chunk), bits_split p)))

-- The number that packs the values, the first one lowest.
abbrev pub packed_number : ℕ → List ℕ → ℕ
packed_number bw [] = 0
packed_number bw (v ∷ vs) = v + 2 ^ bw * packed_number bw vs

-- Its fields of `bw` digits are the values, and zeros behind them.
field_of_packed :
    (bw i : ℕ) (vs : List ℕ)
    → All (λ v. v < 2 ^ bw) vs
    → packed_number bw vs / 2 ^ (i * bw) % 2 ^ bw ≡ get_or vs i 0
field_of_packed bw i [] h = rw (zero-div (2 ^ (i * bw)), zero-mod (2 ^ bw))
field_of_packed bw zero (v ∷ vs) (hv, hvs) =
    let e : (v + 2 ^ bw * packed_number bw vs) / 2 ^ (0 * bw) ≡ v + 2 ^ bw * packed_number bw vs =
      ap (λ t. (v + 2 ^ bw * packed_number bw vs) / 2 ^ t) (let z : 0 * bw ≡ 0 = omega arith in z)
      ∙ omega arith in
    rw e (mod_unique _ (packed_number bw vs) (2 ^ bw) v refl hv)
field_of_packed bw (suc i) (v ∷ vs) (hv, hvs) =
    let e : suc i * bw ≡ bw + i * bw = omega arith in
    let next : (v + 2 ^ bw * packed_number bw vs) / 2 ^ bw ≡ packed_number bw vs =
      div_unique _ (packed_number bw vs) (2 ^ bw) v refl hv in
    rw (e, ← div_div_pow bw (i * bw) (v + 2 ^ bw * packed_number bw vs), next)
      (field_of_packed bw i vs hvs)

-- At a width of at most 57, from a chunk of bytes that spell the number with given values below
-- 2^width as digits, the decoder's unpacking loop takes, without a panic, the values of any index
-- range that the chunk covers.
pub packed_values_lem :
    (chunk : List ℕ) (bw : ℕ) (vs : List ℕ) (i n : ℕ)
    → IsBytes chunk
    → bw ≤ 57
    → (i + n) * bw ≤ 8 * length chunk
    → le_value chunk ≡ packed_number bw vs
    → All (λ v. v < 2 ^ bw) vs
    → i + n ≤ length vs
    → packed_values chunk bw i n ≡ some (take n (drop i vs))
unfolding packed_values
packed_values_lem chunk bw vs i zero hb width fits e hv len = refl
packed_values_lem chunk bw vs i (suc n) hb width fits e hv len =
    let next : i + 1 ≡ suc i = omega arith in
    let this : packed_value chunk bw i ≡ some (get_or vs i 0) =
      packed_value_lem chunk bw i hb width (omega arith)
      ∙ ap some (ap (λ t. t / 2 ^ (i * bw) % 2 ^ bw) e ∙ field_of_packed bw i vs hv) in
    let rest : packed_values chunk bw (i + 1) n ≡ some (take n (drop (i + 1) vs)) =
      packed_values_lem chunk bw vs (i + 1) n hb width (omega arith) e hv (omega arith) in
    rw (packed_values, this, rest, next, drop_at vs i (omega arith))
