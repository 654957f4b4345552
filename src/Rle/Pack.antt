-- ===== src/Rle/Pack.antt =====
-- `pack_lsb_first` of rle.rs: the bytes it appends, as a number.
use native.Mathlib.Nat.{zero-add, suc-add, add_assoc}
use ematix_parquet.Base.{
  ℕ, zero, suc, ◌+◌, ◌-◌, ◌*◌, ◌/◌, ◌%◌, ◌^◌, ◌<◌, min, ◌≡◌, refl, ap, ◌∙◌, arith, List, [], ◌∷◌,
  ◌++◌, length, get_or, set, replicate, All, ◌==◌, Bool-cases, inl, inr, length-replicate,
}
use ematix_parquet.Base.Powers.{two_pow_pos}
use ematix_parquet.Base.LeBytes.{le_value, IsBytes, IsBytes-replicate, le_value-replicate}
use ematix_parquet.Rle.{pack_bits, pack_each, pack_lsb_first}
use ematix_parquet.Rle.Window.{packed_number}
use ematix_parquet.Rle.PackBits.{IsPacked, pack_each-IsPacked}

set_behind :
    (pre body : List ℕ) (i b : ℕ) → set (pre ++ body) (length pre + i) b ≡ pre ++ set body i b
set_behind [] body i b = rw (zero-add i)
set_behind (x ∷ pre) body i b = rw (suc-add (length pre) i) (ap (◌∷◌ x) (set_behind pre body i b))

get_behind : (pre body : List ℕ) (i : ℕ) → get_or (pre ++ body) (length pre + i) 0 ≡ get_or body i 0
get_behind [] body i = rw (zero-add i)
get_behind (x ∷ pre) body i = rw (suc-add (length pre) i) (get_behind pre body i)

-- The bytes in front of the body are not touched.
pack_bits_behind :
    (rounds : ℕ) (pre body : List ℕ) (value ix shift remaining : ℕ)
    → pack_bits rounds (pre ++ body) value (length pre + ix) shift remaining
      ≡ pre ++ pack_bits rounds body value ix shift remaining
unfolding pack_bits
pack_bits_behind zero pre body value ix shift remaining = refl
pack_bits_behind (suc rounds) pre body value ix shift remaining =
    elim (Bool-cases (remaining == 0)) [
      | inl done ↦ rw done
      | inr more ↦
          rw (more, get_behind pre body ix, set_behind pre body ix, add_assoc (length pre) ix 1)
            (pack_bits_behind rounds pre _ (value / 2 ^ min (8 - shift) remaining) (ix + 1) 0
              (remaining - min (8 - shift) remaining))
    ]

pack_each_behind :
    (bw start i : ℕ) (indices pre body : List ℕ)
    → pack_each bw (length pre) i indices (pre ++ body) ≡ pre ++ pack_each bw 0 i indices body
unfolding pack_each
pack_each_behind bw start i [] pre body = refl
pack_each_behind bw start i (v ∷ vs) pre body =
    rw (pack_bits_behind bw pre body v (i * bw / 8) (i * bw % 8) bw, zero-add (i * bw / 8))
      (pack_each_behind bw start (i + 1) vs pre _)

-- The body that `pack_lsb_first` appends.
pub packed_body : List ℕ → ℕ → List ℕ
packed_body indices bw = pack_each bw 0 0 indices (replicate (length indices / 8 * bw) 0)

pub pack_lsb_first-append :
    (out indices : List ℕ) (bw : ℕ) → pack_lsb_first out indices bw ≡ out ++ packed_body indices bw
unfolding pack_lsb_first packed_body
pack_lsb_first-append out indices bw = pack_each_behind bw 0 0 indices out _

-- A multiple of eight values of `bw` digits takes `bw` bytes for each eight, and they spell the
-- packed number.
pub packed_body_lem :
    (indices : List ℕ) (bw g : ℕ)
    → length indices ≡ 8 * g
    → All (λ v. v < 2 ^ bw) indices
    → (le_value (packed_body indices bw) ≡ packed_number bw indices)
      × IsBytes (packed_body indices bw)
      × (length (packed_body indices bw) ≡ g * bw)
unfolding packed_body
packed_body_lem indices bw g len h =
    let e : length indices / 8 ≡ g = omega arith in
    let z : 0 * bw ≡ 0 = omega arith in
    let zeros : List ℕ = replicate (length indices / 8 * bw) 0 in
    let size : length zeros ≡ length indices / 8 * bw = length-replicate _ 0 in
    let p : IsPacked (0 * bw) (packed_number bw indices) zeros (packed_body indices bw) =
      pack_each-IsPacked bw 0 indices zeros h (IsBytes-replicate _)
        (omega (arith, le_value-replicate (length indices / 8 * bw), two_pow_pos (0 * bw)))
        (omega (arith, size, ap (λ (t : ℕ). t * bw) e, ap (λ (t : ℕ). t * bw) len)) in
    (
      omega (
        arith,
        p.spells,
        le_value-replicate (length indices / 8 * bw),
        ap (λ (t : ℕ). packed_number bw indices * 2 ^ t) z,
      ),
      p.bytes,
      p.same_length ∙ size ∙ ap (λ t. t * bw) e,
    )

-- For a multiple of eight values below 2^width, `pack_lsb_first` keeps what was written and appends
-- as many bytes for each eight values as the width has bits, which spell, lowest byte first, the
-- number with the values as digits of that width.
pub pack_lsb_first_lem :
    (out indices : List ℕ) (bw g : ℕ)
    → length indices ≡ 8 * g
    → All (λ v. v < 2 ^ bw) indices
    → (body : List ℕ) × (pack_lsb_first out indices bw ≡ out ++ body)
      × (le_value body ≡ packed_number bw indices)
      × IsBytes body
      × (length body ≡ g * bw)
pack_lsb_first_lem out indices bw g len h =
    let (spells, bytes, size) = packed_body_lem indices bw g len h in
    (packed_body indices bw, pack_lsb_first-append out indices bw, spells, bytes, size)
