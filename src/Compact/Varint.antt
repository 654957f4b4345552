-- ===== src/Compact/Varint.antt =====
-- `read_uvarint` against the LEB128 description, and the zigzag readers.
use native.Mathlib.Nat.{mod_self, mod-eq_of_lt, pow-suc}
use native.Mathlib.Numerals.{towards_suc}
use ematix_parquet.Base.{
  ℕ, zero, suc, ◌+◌, ◌-◌, ◌*◌, ◌/◌, ◌%◌, ◌^◌, ◌≤◌, ◌<◌, ◌≡◌, refl, ap, ◌∙◌, arith, List, [], ◌∷◌,
  ◌++◌, bit_and, bit_or, bit_xor, ok, err, subst, ap₂, leb, if◌then◌else◌, length,
}
use ematix_parquet.Base.Bits.{and_7f, and_80, and_01, bit_or_low_high, bit_xor_ones, bit_xor_zero}
use ematix_parquet.Compact.{
  Cursor, advance, uvarint_rounds, read_uvarint, unzigzag, read_zigzag_i32, read_zigzag_i64,
  varint_overflow, unexpected_eof, ◌>>=◌,
}
use ematix_parquet.Compact.At.{At, At-advance, Reads, Reads-u8, read_u8_end, advance_twice}
use ematix_parquet.Compact.Wire.{IsLeb, leb_value, IsUnended, zigzag_code}

-- `shift` moves on by seven bits.
shift_seven : (s : ℕ) → 2 ^ (s + 7) ≡ 128 * 2 ^ s
shift_seven s = simp towards_suc (omega arith)

-- The bits of one byte join the result above its `shift` bits.
join_group :
    (r g s : ℕ) → r < 2 ^ s → r + g * 2 ^ s < 2 ^ 64 → bit_or r (g * 2 ^ s % 2 ^ 64) ≡ r + g * 2 ^ s
join_group r g s low fits =
    rw (mod-eq_of_lt {n = g * 2 ^ s} {m = 2 ^ 64} (omega arith)) (bit_or_low_high s r g low)

last_round :
    (n r s b : ℕ)
    → b < 128
    → r < 2 ^ s
    → r + b * 2 ^ s < 2 ^ 64
    → Reads (uvarint_rounds (suc n) r s) (b ∷ []) (r + b * 2 ^ s)
unfolding uvarint_rounds
last_round n r s b hb low fits c rest h =
    ground (arith, Reads-u8 b c rest h, and_7f b, and_80 b, join_group r b s)

more_round :
    (n r s b : ℕ) (c : Cursor) (rest : List ℕ)
    → 128 ≤ b
    → b < 256
    → r < 2 ^ s
    → r + b % 128 * 2 ^ s < 2 ^ 64
    → At c (b ∷ rest)
    → uvarint_rounds (suc n) r s c ≡ uvarint_rounds n (r + b % 128 * 2 ^ s) (s + 7) (advance 1 c)
unfolding uvarint_rounds
more_round n r s b c rest lo hi low fits h =
    ground (arith, Reads-u8 b c rest h, and_7f b, and_80 b, join_group r (b % 128) s)

-- What `uvarint_rounds` makes of a number that ends within its rounds and fits 64 bits.
rounds-Reads :
    (n : ℕ) (bs : List ℕ) (r s : ℕ)
    → IsLeb bs
    → length bs ≤ n
    → r < 2 ^ s
    → r + leb_value bs * 2 ^ s < 2 ^ 64
    → Reads (uvarint_rounds n r s) bs (r + leb_value bs * 2 ^ s)
rounds-Reads n [] r s leb len low fits = absurd leb
rounds-Reads zero (b ∷ bs) r s leb len low fits = elim len [ ]
rounds-Reads (suc n) (b ∷ []) r s leb len low fits =
    let value : b ≡ leb_value (b ∷ []) = omega arith in
    subst (λ t. Reads (uvarint_rounds (suc n) r s) (b ∷ []) (r + t * 2 ^ s)) value
      (last_round n r s b leb low (rw value fits))
rounds-Reads (suc n) (b ∷ (x ∷ xs)) r s (lo, hi, leb) len low fits = λ c rest h.
    more_round n r s b c (x ∷ xs ++ rest) lo hi low (omega (arith, split)) h
    ∙ rounds-Reads n (x ∷ xs) (r + b % 128 * 2 ^ s) (s + 7) leb (omega arith)
        (grind (arith, shift_seven s)) (omega (arith, split)) (advance 1 c) rest
        (At-advance c (b ∷ []) h)
    ∙ ap₂ (λ t d. ok (t, d)) split
        (advance_twice 1 (length (x ∷ xs)) c ∙ ap (λ t. advance t c) (omega arith))
  where
    split :
        r + b % 128 * 2 ^ s + leb_value (x ∷ xs) * 2 ^ (s + 7)
        ≡ r + leb_value (b ∷ (x ∷ xs)) * 2 ^ s
    split = rw (shift_seven s) (omega arith)

-- `read_uvarint` reads any LEB128 form of at most ten bytes whose number fits 64 bits.
pub uvarint-Reads :
    (bs : List ℕ)
    → IsLeb bs
    → length bs ≤ 10
    → leb_value bs < 2 ^ 64
    → Reads read_uvarint bs (leb_value bs)
unfolding read_uvarint
uvarint-Reads bs leb len fits =
    let e : 0 + leb_value bs * 2 ^ 0 ≡ leb_value bs = omega arith in
    rw e at (rounds-Reads 10 bs 0 0 leb len (omega arith) (omega arith))

-- A byte with its top bit set uses up a round, whatever it adds to the result.
continue_round :
    (n r s b : ℕ) (c : Cursor) (rest : List ℕ)
    → 128 ≤ b
    → b < 256
    → At c (b ∷ rest)
    → (r' : ℕ) × (uvarint_rounds (suc n) r s c ≡ uvarint_rounds n r' (s + 7) (advance 1 c))
unfolding uvarint_rounds
continue_round n r s b c rest lo hi h =
    (bit_or r (bit_and b 0x7f * 2 ^ s % 2 ^ 64), ground (arith, Reads-u8 b c rest h, and_80 b))

-- A number that does not end: the rounds run out first, or the bytes do.
rounds-unended :
    (n : ℕ) (bs : List ℕ) (r s : ℕ) (c : Cursor)
    → IsUnended bs
    → At c bs
    → uvarint_rounds n r s c
      ≡ (if leb n (length bs) then err varint_overflow else err (unexpected_eof 1 0))
rounds-unended zero [] r s c u h = unfold uvarint_rounds in refl
rounds-unended (suc n) [] r s c u h =
    unfold uvarint_rounds in rw (read_u8_end c h, ◌>>=◌) (ground arith)
rounds-unended zero (b ∷ bs) r s c u h = unfold uvarint_rounds in ground arith
rounds-unended (suc n) (b ∷ bs) r s c (lo, hi, u) h =
    let (r', e) = continue_round n r s b c bs lo hi h in
    e ∙ rounds-unended n bs r' (s + 7) (advance 1 c) u (At-advance c (b ∷ []) h) ∙ ground arith

-- On bytes to the end of the buffer that all have the top bit set, `read_uvarint` reports an
-- overflow if they are ten or more, and the end of the buffer if they are fewer.
pub read_uvarint-unended :
    (bs : List ℕ) (c : Cursor)
    → IsUnended bs
    → At c bs
    → read_uvarint c
      ≡ (if leb 10 (length bs) then err varint_overflow else err (unexpected_eof 1 0))
unfolding read_uvarint
read_uvarint-unended bs c u h = rounds-unended 10 bs 0 0 c u h

unzigzag_even : (k v : ℕ) → v < 2 ^ k → unzigzag (suc k) (2 * v) ≡ v
unfolding unzigzag
unzigzag_even k v h = rw (and_01 (2 * v)) (ap₂ bit_xor half sign ∙ bit_xor_zero v)
  where
    half : 2 * v / 2 ≡ v
    half = omega arith

    sign : (2 ^ suc k - 2 * v % 2) % 2 ^ suc k ≡ 0
    sign = ground (arith, mod_self (2 ^ suc k))

unzigzag_odd : (k m : ℕ) → m < 2 ^ suc k → unzigzag (suc k) (2 * m + 1) ≡ 2 ^ suc k - 1 - m
unfolding unzigzag
unzigzag_odd k m h = rw (and_01 (2 * m + 1)) (ap₂ bit_xor half sign ∙ bit_xor_ones (suc k) m h)
  where
    half : (2 * m + 1) / 2 ≡ m
    half = omega arith

    sign : (2 ^ suc k - (2 * m + 1) % 2) % 2 ^ suc k ≡ 2 ^ suc k - 1
    sign = ground (arith, mod-eq_of_lt {n = 2 ^ suc k - 1} {m = 2 ^ suc k} (omega arith))

-- Zigzag decoding undoes the zigzag code, at every width.
pub unzigzag-code : (k v : ℕ) → v < 2 ^ suc k → unzigzag (suc k) (zigzag_code (suc k) v) ≡ v
unzigzag-code k v h = ground (
  arith,
  unzigzag_even k v,
  unzigzag_odd k (2 ^ suc k - 1 - v) (omega arith),
  let e : suc k - 1 ≡ k = omega arith in e,
)

pub zigzag_code-lt : (k v : ℕ) → v < 2 ^ suc k → zigzag_code (suc k) v < 2 ^ suc k
zigzag_code-lt k v h = ground (arith, pow-suc 2 k, let e : suc k - 1 ≡ k = omega arith in e)

-- The bytes of a zigzag number of 32 or 64 bits are read back to the number's bit pattern.
pub zigzag_i32-Reads :
    (bs : List ℕ) (v : ℕ)
    → IsLeb bs
    → length bs ≤ 10
    → v < 2 ^ 32
    → leb_value bs ≡ zigzag_code 32 v
    → Reads read_zigzag_i32 bs v
unfolding read_zigzag_i32
zigzag_i32-Reads bs v leb len hv e c rest h =
    let small : leb_value bs < 2 ^ 32 = rw e (zigzag_code-lt 31 v hv) in
    rw (uvarint-Reads bs leb len (omega arith) c rest h, ◌>>=◌)
      (ap (λ t. ok (t, advance (length bs) c))
        (rw (mod-eq_of_lt {n = leb_value bs} {m = 2 ^ 32} small) (rw e (unzigzag-code 31 v hv))))

pub zigzag_i64-Reads :
    (bs : List ℕ) (v : ℕ)
    → IsLeb bs
    → length bs ≤ 10
    → v < 2 ^ 64
    → leb_value bs ≡ zigzag_code 64 v
    → Reads read_zigzag_i64 bs v
unfolding read_zigzag_i64
zigzag_i64-Reads bs v leb len hv e c rest h =
    let fits : leb_value bs < 2 ^ 64 = rw e (zigzag_code-lt 63 v hv) in
    rw (uvarint-Reads bs leb len fits c rest h, ◌>>=◌)
      (ap (λ t. ok (t, advance (length bs) c)) (rw e (unzigzag-code 63 v hv)))
