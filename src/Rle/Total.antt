-- ===== src/Rle/Total.antt =====
-- `decode_rle_bit_packed` of rle.rs on any bytes: its end, and the number of its values.
use mathlib.Core.Option
use ematix_parquet.Base.{
  false, ℕ, zero, suc, ◌+◌, ◌-◌, ◌*◌, ◌/◌, ◌%◌, ◌^◌, ◌≤◌, ◌<◌, min, ◌≡◌, refl, ap, arith, bit_and,
  List, [], ◌∷◌, ◌++◌, length, ◌==◌, leb, ltb, Bool-cases, inl, inr, length-append,
  length-replicate, replicate, Option, none, some, ok, err, Result,
}
use ematix_parquet.Compact.{Cursor, FormatError, new_cursor, remaining, read_uvarint, take_bytes}
use ematix_parquet.Compact.Outcome.{IsWithin, Stays}
use ematix_parquet.Compact.Bounds.{uvarint_moves, take-Stays}
use ematix_parquet.Codec.{CodecError, over_capacity, CodecReader, IsOutcome, wire_error, or_panic}
use ematix_parquet.Compact.{advance}
use ematix_parquet.Rle.{
  packed_values, read_run, decode_runs, decode_rle_bit_packed, drop_cursor, gather, div_ceil,
  packed_value,
}

-- A result of `n` values, or an error or a panic of the source.
abbrev pub IsComplete : ℕ → Result CodecError (List ℕ) → Type 0
IsComplete n (ok vs) = length vs ≡ n
IsComplete n (err e) = IsOutcome e

-- The same of a decoder's result, and what a step leaves for the next.
abbrev Leaves : {A : Type 0} → (A → Cursor → Type 0) → Result CodecError (A × Cursor) → Type 0
Leaves Q (ok (a, c)) = Q a c
Leaves Q (err e) = IsOutcome e

module _ {A B : Type 0} where
  then-Leaves :
      (Q : A → Cursor → Type 0) (R : B → Cursor → Type 0) (r : Result CodecError (A × Cursor))
      (f : A → CodecReader B)
      → Leaves Q r
      → ((a : A) (c : Cursor) → Q a c → Leaves R (f a c))
      → Leaves R (elim r [ ok (a, c') ↦ f a c' | err e ↦ err e ])
  then-Leaves Q R (ok (a, c)) f h hf = hf a c h
  then-Leaves Q R (err e) f h hf = h

-- A reader of the format crate fails with its own errors only.
Stays-Leaves :
    {A : Type 0} (d : Cursor) (r : Result FormatError (A × Cursor))
    → Stays false d r
    → Leaves
        (λ a c'. (c'.buf ≡ d.buf) × (d.pos ≤ c'.pos) × IsWithin c')
        (elim r [ ok p ↦ ok p | err e ↦ err (wire_error e) ])
Stays-Leaves d (ok (a, c)) h = h
Stays-Leaves d (err e) h = h

-- The values of a run, unless there is none to have.
abbrev Few : ℕ → Option (List ℕ) → Type 0
Few n none = Unit {0}
Few n (some vs) = length vs ≡ n

Few-cons : (n v : ℕ) (o : Option (List ℕ)) → Few n o → Few (suc n) (Option.map (λ vs. v ∷ vs) o)
Few-cons n v none h = tt
Few-cons n v (some vs) h = ap suc h

Few-both :
    (n : ℕ) (v : Option ℕ) (o : Option (List ℕ))
    → Few n o
    → Few (suc n) (elim v [ some x ↦ Option.map (λ vs. x ∷ vs) o | none ↦ none ])
Few-both n none o h = tt
Few-both n (some x) o h = Few-cons n x o h

Few-packed_values : (chunk : List ℕ) (bw i n : ℕ) → Few n (packed_values chunk bw i n)
unfolding packed_values
Few-packed_values chunk bw i zero = refl
Few-packed_values chunk bw i (suc n) =
    Few-both n (packed_value chunk bw i) _ (Few-packed_values chunk bw (i + 1) n)

Few-replicate : (n : ℕ) (o : Option ℕ) → Few n (Option.map (λ v. replicate n v) o)
Few-replicate n none = tt
Few-replicate n (some v) = length-replicate n v

-- What is left behind a run's values, if there are any.
or_panic-Leaves :
    (n left : ℕ) (o : Option (List ℕ)) (c c' : Cursor)
    → n ≤ left
    → Few n o
    → (c'.buf ≡ c.buf) × (c.pos ≤ c'.pos) × IsWithin c'
    → Leaves
        (λ vs d. (length vs ≤ left) × (d.buf ≡ c.buf) × (c.pos ≤ d.pos) × IsWithin d)
        (or_panic o c')
or_panic-Leaves n left none c c' h few (same, forward, within) = tt
or_panic-Leaves n left (some vs) c c' h few (same, forward, within) =
    (omega (arith, few), same, forward, within)

-- A run gives at most the values that are wanted.
read_run-Leaves :
    (bw left header : ℕ) (c : Cursor)
    → IsWithin c
    → Leaves
        (λ vs c'. (length vs ≤ left) × (c'.buf ≡ c.buf) × (c.pos ≤ c'.pos) × IsWithin c')
        (read_run bw left header c)
unfolding read_run
read_run-Leaves bw left header c h = elim (Bool-cases (bit_and header 1 == 1)) [
  | inl packed ↦ rw packed (
      then-Leaves (λ chunk c'. (c'.buf ≡ c.buf) × (c.pos ≤ c'.pos) × IsWithin c') _ _ _
        (Stays-Leaves c (take_bytes _ c) (take-Stays false _ c h))
        λ chunk c' h'.
          or_panic-Leaves _ left _ c c' (omega arith)
            (Few-packed_values chunk bw 0 (min left (header / 2 * 8 % 2 ^ 64))) h')
  | inr repeated ↦ rw repeated (
      then-Leaves (λ chunk c'. (c'.buf ≡ c.buf) × (c.pos ≤ c'.pos) × IsWithin c') _ _ _
        (Stays-Leaves c (take_bytes _ c) (take-Stays false _ c h))
        λ chunk c' h'.
          or_panic-Leaves _ left _ c c' (omega arith)
            (Few-replicate (min left (header / 2)) (gather chunk 0 (div_ceil bw 8) 0 0)) h')
]

decode_runs-Leaves :
    (rounds bw n : ℕ) (out : List ℕ) (c : Cursor)
    → IsWithin c
    → remaining c < rounds
    → length out ≤ n
    → Leaves (λ vs c'. length vs ≡ n) (decode_runs rounds bw n out c)
unfolding decode_runs
decode_runs-Leaves zero bw n out c h hr low = absurd (omega arith)
decode_runs-Leaves (suc rounds) bw n out c h hr low = elim (Bool-cases (leb n (length out))) [
  | inl full ↦ rw full (ground arith)
  | inr more ↦
      let wanted : length out < n = ground arith in
      rw more (
        then-Leaves (λ header c'. (c'.buf ≡ c.buf) × (c.pos + 1 ≤ c'.pos) × IsWithin c') _ _ _
          (Stays-Leaves (advance 1 c) (read_uvarint c) (uvarint_moves false c h))
          λ header c' (same, forward, within).
            then-Leaves
              (λ vs d.
                (length vs ≤ n - length out) × (d.buf ≡ c'.buf) × (c'.pos ≤ d.pos) × IsWithin d)
              _ _ _ (read_run-Leaves bw (n - length out) header c' within)
              λ vs d (few, same', forward', within').
                decode_runs-Leaves rounds bw n (out ++ vs) d within'
                  (omega (arith, ap length same, ap length same'))
                  (omega (arith, length-append out vs)))
]

drop_cursor-IsComplete :
    (n : ℕ) (r : Result CodecError (List ℕ × Cursor))
    → Leaves (λ vs c. length vs ≡ n) r
    → IsComplete n (drop_cursor r)
drop_cursor-IsComplete n (ok (vs, c)) h = h
drop_cursor-IsComplete n (err e) h = h

-- On any bytes, at any width and for any number of values the decoder ends, never for want of fuel,
-- with exactly that many values, with an error of the source, or with the panic on an index out of
-- bounds or on the capacity for the values.
pub decode-IsComplete :
    (bytes : List ℕ) (bw n : ℕ) → IsComplete n (decode_rle_bit_packed bytes bw n)
unfolding decode_rle_bit_packed
decode-IsComplete bytes bw n = elim (Bool-cases (ltb 64 bw)) [
  | inl wide ↦ rw wide tt
  | inr narrow ↦ elim (Bool-cases (n == 0)) [
    | inl nothing ↦ rw (narrow, nothing) (ground arith)
    | inr wanted ↦ elim (Bool-cases (over_capacity n 8)) [
      | inl large ↦ rw (narrow, wanted, large) tt
      | inr fits ↦ elim (Bool-cases (bw == 0)) [
        | inl flat ↦ rw (narrow, wanted, fits, flat) (length-replicate n 0)
        | inr deep ↦
            rw (narrow, wanted, fits, deep)
              (drop_cursor-IsComplete n _ (
                decode_runs-Leaves (suc (length bytes)) bw n [] (new_cursor bytes) (omega arith)
                  (omega arith) (omega arith)))
      ]
    ]
  ]
]
