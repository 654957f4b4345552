-- ===== src/Rle/PackBits.antt =====
-- One value after the other: what each write of `pack_lsb_first` adds to the number that the bytes
-- spell.
use native.Mathlib.Nat.{
  mod-eq_of_lt, mod-lt, div-add-mod, pow-le-pow_right, div-eq_of_lt, div-lt_iff_lt-mul,
  mul-le-mul_right,
}
use ematix_parquet.Base.{
  ℕ, zero, suc, ◌+◌, ◌-◌, ◌*◌, ◌/◌, ◌%◌, ◌^◌, ◌≤◌, ◌<◌, min, ◌≡◌, refl, sym, ap, ◌∙◌, arith, bit_or,
  bit_and, List, [], ◌∷◌, length, get_or, set, All, subst, ◌==◌, Bool-cases, inl, inr, ◌⊎◌, dec_le,
  length-set,
}
use ematix_parquet.Base.Bits.{bit_and_ones, bit_or-lt}
use ematix_parquet.Base.Powers.{two_pow_pos, two_pow-add}
use ematix_parquet.Base.LeBytes.{le_value, IsBytes, IsBytes-get, IsBytes-set, le_value-join}
use ematix_parquet.Rle.{pack_bits, pack_each}
use ematix_parquet.Rle.Window.{packed_number}

-- `out'` is `out` with `value` added from binary digit `p` on.
pub record IsPacked (p value : ℕ) (out out' : List ℕ) : Type 0 where
  pub spells : le_value out' ≡ le_value out + value * 2 ^ p
  pub bytes : IsBytes out'
  pub same_length : length out' ≡ length out

-- The bits that one round moves fit the byte.
chunk_fits : (value bits shift : ℕ) → bits + shift ≤ 8 → value % 2 ^ bits * 2 ^ shift < 2 ^ 8
chunk_fits value bits shift h = omega (
  arith,
  mul-le-mul_right (2 ^ shift) (mod-lt value (two_pow_pos bits)),
  two_pow-add bits shift,
  pow-le-pow_right {n = 2} (omega arith) {j = 8} h,
  two_pow_pos shift,
)

-- What one round stores.
abbrev stored : List ℕ → ℕ → ℕ → ℕ → ℕ → List ℕ
stored out value ix shift bits =
    set out ix (bit_or (get_or out ix 0) (bit_and value (2 ^ bits - 1) * 2 ^ shift % 2 ^ 8))

round-IsPacked :
    (out : List ℕ) (value ix shift bits : ℕ)
    → IsBytes out
    → ix < length out
    → bits + shift ≤ 8
    → le_value out < 2 ^ (8 * ix + shift)
    → IsPacked (8 * ix + shift) (value % 2 ^ bits) out (stored out value ix shift bits)
round-IsPacked out value ix shift bits hb hi fits low = record {
  spells =
      rw (bit_and_ones bits value)
        (le_value-join out ix shift (value % 2 ^ bits) hi (chunk_fits value bits shift fits) low);
  bytes =
      IsBytes-set out ix _ hb
        (bit_or-lt 8 (get_or out ix 0) _ (IsBytes-get out ix hb) (mod-lt _ (omega arith)));
  same_length = length-set out ix _;
}

-- The bits moved and the bits left make up the value.
split_value :
    (value bits p q : ℕ)
    → (q ≡ p + bits) ⊎ (value < 2 ^ bits)
    → value % 2 ^ bits * 2 ^ p + value / 2 ^ bits * 2 ^ q ≡ value * 2 ^ p
split_value value bits p q (inl e) =
    rw (e, two_pow-add p bits)
      (omega (arith, ap (λ (t : ℕ). t * 2 ^ p) (div-add-mod value (2 ^ bits))))
split_value value bits p q (inr small) = rw (mod-eq_of_lt small, div-eq_of_lt small) (omega arith)

nothing_left :
    (p value remaining : ℕ) (out : List ℕ)
    → remaining ≡ 0
    → value < 2 ^ remaining
    → IsBytes out
    → IsPacked p value out out
nothing_left p value remaining out none hv hb =
    let zero_value : value ≡ 0 = omega (arith, ap (λ (t : ℕ). 2 ^ t) none) in
    record { spells = rw zero_value (omega arith); bytes = hb; same_length = refl }

-- After a round the bits that are set lie below the next byte.
below_next :
    (out out' : List ℕ) (value p bits q : ℕ)
    → le_value out < 2 ^ p
    → IsPacked p (value % 2 ^ bits) out out'
    → p + bits ≤ q
    → le_value out' < 2 ^ q
below_next out out' value p bits q low packed h = omega (
  arith,
  packed.spells,
  mul-le-mul_right (2 ^ p) (mod-lt value (two_pow_pos bits)),
  two_pow-add p bits,
  pow-le-pow_right {n = 2} (omega arith) {j = q} h,
)

left_fits :
    (value bits remaining : ℕ)
    → bits ≤ remaining
    → value < 2 ^ remaining
    → value / 2 ^ bits < 2 ^ (remaining - bits)
left_fits value bits remaining h hv =
    let e : remaining ≡ remaining - bits + bits = omega arith in
    (div-lt_iff_lt-mul (two_pow_pos bits)).1 (rw (← two_pow-add (remaining - bits) bits, ← e) hv)

IsPacked-next :
    (p q value bits : ℕ) (out out' out'' : List ℕ)
    → (q ≡ p + bits) ⊎ (value < 2 ^ bits)
    → IsPacked p (value % 2 ^ bits) out out'
    → IsPacked q (value / 2 ^ bits) out' out''
    → IsPacked p value out out''
IsPacked-next p q value bits out out' out'' cases first rest = record {
  spells = omega (arith, first.spells, rest.spells, split_value value bits p q cases);
  bytes = rest.bytes;
  same_length = rest.same_length ∙ first.same_length;
}

-- A round fills its byte or is the last.
round_cases :
    (value ix shift remaining : ℕ)
    → shift < 8
    → value < 2 ^ remaining
    → (8 * (ix + 1) + 0 ≡ 8 * ix + shift + min (8 - shift) remaining)
      ⊎ (value < 2 ^ min (8 - shift) remaining)
round_cases value ix shift remaining hs hv = elim (dec_le (8 - shift) remaining) [
  | yes full ↦ inl (omega arith)
  | no last ↦
      let e : remaining ≡ min (8 - shift) remaining = omega arith in
      inr (subst (λ t. value < 2 ^ t) e hv)
]

-- Packing one value from digit `8 * ix + shift` on, above all digits that are set.
pack_bits-IsPacked :
    (rounds : ℕ) (out : List ℕ) (value ix shift remaining : ℕ)
    → remaining ≤ rounds
    → value < 2 ^ remaining
    → shift < 8
    → IsBytes out
    → le_value out < 2 ^ (8 * ix + shift)
    → 8 * ix + shift + remaining ≤ 8 * length out
    → IsPacked (8 * ix + shift) value out (pack_bits rounds out value ix shift remaining)
unfolding pack_bits
pack_bits-IsPacked zero out value ix shift remaining hr hv hs hb low room =
    nothing_left (8 * ix + shift) value remaining out (omega arith) hv hb
pack_bits-IsPacked (suc rounds) out value ix shift remaining hr hv hs hb low room =
    elim (Bool-cases (remaining == 0)) [
      | inl done ↦ rw done (nothing_left (8 * ix + shift) value remaining out (ground arith) hv hb)
      | inr more ↦
          let left : 0 < remaining = ground arith in
          let bits : ℕ = min (8 - shift) remaining in
          let first : IsPacked (8 * ix + shift) (value % 2 ^ bits) out
              (stored out value ix shift bits) =
            round-IsPacked out value ix shift bits hb (omega arith) (omega arith) low in
          let cases : (8 * (ix + 1) + 0 ≡ 8 * ix + shift + bits) ⊎ (value < 2 ^ bits) =
            round_cases value ix shift remaining hs hv in
          rw more (
            IsPacked-next (8 * ix + shift) (8 * (ix + 1) + 0) value bits out
              (stored out value ix shift bits) _ cases first
              (pack_bits-IsPacked rounds (stored out value ix shift bits) (value / 2 ^ bits)
                (ix + 1) 0 (remaining - bits) (omega arith)
                (left_fits value bits remaining (omega arith) hv) (omega arith) first.bytes
                (below_next out _ value (8 * ix + shift) bits (8 * (ix + 1) + 0) low first
                  (omega arith))
                (omega (arith, first.same_length))))
    ]

-- Packing all values, from the `i`-th on.
pub pack_each-IsPacked :
    (bw i : ℕ) (indices out : List ℕ)
    → All (λ v. v < 2 ^ bw) indices
    → IsBytes out
    → le_value out < 2 ^ (i * bw)
    → (i + length indices) * bw ≤ 8 * length out
    → IsPacked (i * bw) (packed_number bw indices) out (pack_each bw 0 i indices out)
unfolding pack_each
pack_each-IsPacked bw i [] out h hb low room = record {
  spells = omega arith;
  bytes = hb;
  same_length = refl;
}
pack_each-IsPacked bw i (v ∷ vs) out (hv, hvs) hb low room =
    let at : 8 * (0 + i * bw / 8) + i * bw % 8 ≡ i * bw = omega arith in
    let next : (i + 1) * bw ≡ i * bw + bw = omega arith in
    let one : List ℕ = pack_bits bw out v (0 + i * bw / 8) (i * bw % 8) bw in
    let first : IsPacked (i * bw) v out one =
      subst (λ t. IsPacked t v out one) at
        (pack_bits-IsPacked bw out v (0 + i * bw / 8) (i * bw % 8) bw (omega arith) hv (omega arith)
          hb (subst (λ t. le_value out < 2 ^ t) (sym at) low) (omega arith)) in
    let low' : le_value one < 2 ^ ((i + 1) * bw) =
      below_next out one v (i * bw) bw ((i + 1) * bw) low (rw (mod-eq_of_lt hv) first)
        (omega arith) in
    let rest : IsPacked ((i + 1) * bw) (packed_number bw vs) one (pack_each bw 0 (i + 1) vs one) =
      pack_each-IsPacked bw (i + 1) vs one hvs first.bytes low'
        (omega (arith, first.same_length)) in
    record {
      spells = omega (
        arith,
        first.spells,
        rest.spells,
        ap (λ (t : ℕ). packed_number bw vs * 2 ^ t) next,
        ap (λ (t : ℕ). packed_number bw vs * t) (two_pow-add (i * bw) bw),
      );
      bytes = rest.bytes;
      same_length = rest.same_length ∙ first.same_length;
    }
