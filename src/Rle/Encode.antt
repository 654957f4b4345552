-- ===== src/Rle/Encode.antt =====
-- What an RLE run is for the decoder, and what the encoder's writers append.
use mathlib.Core.Option
use native.Mathlib.Nat.{pow-le-pow_right, mod-eq_of_lt, mul-le-mul}
use ematix_parquet.Base.{
  ℕ, zero, suc, ◌+◌, ◌-◌, ◌*◌, ◌/◌, ◌%◌, ◌^◌, ◌≤◌, ◌<◌, min, ◌≡◌, refl, sym, ap, ◌∙◌, arith,
  bit_and, List, some, [], ◌∷◌, ◌++◌, append_assoc, append-nil, length, take, replicate, All, subst,
  length-append, length-replicate,
}
use ematix_parquet.Base.Bits.{and_01}
use ematix_parquet.Base.Powers.{two_pow_pos, div_div_pow, mod_split}
use ematix_parquet.Base.LeBytes.{le_value, IsBytes, eight_suc}
use ematix_parquet.Compact.{take_bytes}
use ematix_parquet.Compact.At.{Reads, Reads-take}
use ematix_parquet.Codec.At.{CodecReads, CodecReads-or_panic, wire-Reads}
use ematix_parquet.CompactWriter.Varint.{uvarint_round_trip, write_uvarint-some}
use ematix_parquet.Rle.{
  read_run, gather, div_ceil, push_value, write_rle_run, write_packed_run, write_uvarint,
}
use ematix_parquet.Rle.Header.{header_bytes, write_header}
use ematix_parquet.Rle.Runs.{IsRun}
use ematix_parquet.Rle.Window.{gather_window}
use ematix_parquet.Rle.PackedRun.{packed_run_bytes, packed-IsRun, packed_run-append}

-- The bytes that `push_value` appends.
low_bytes : ℕ → ℕ → ℕ → List ℕ
low_bytes zero b v = []
low_bytes (suc n) b v = v / 2 ^ (b * 8) % 2 ^ 8 ∷ low_bytes n (b + 1) v

push_value-append : (n b v : ℕ) (out : List ℕ) → push_value n b v out ≡ out ++ low_bytes n b v
unfolding push_value low_bytes
push_value-append zero b v out = sym (append-nil out)
push_value-append (suc n) b v out =
    push_value-append n (b + 1) v (out ++ v / 2 ^ (b * 8) % 2 ^ 8 ∷ [])
    ∙ append_assoc out (v / 2 ^ (b * 8) % 2 ^ 8 ∷ []) (low_bytes n (b + 1) v)

low_bytes_lem :
    (n b v : ℕ)
    → (le_value (low_bytes n b v) ≡ v / 2 ^ (b * 8) % 2 ^ (8 * n))
      × IsBytes (low_bytes n b v)
      × (length (low_bytes n b v) ≡ n)
unfolding low_bytes
low_bytes_lem zero b v = (omega arith, tt, refl)
low_bytes_lem (suc n) b v =
    let (spells, bytes, size) = low_bytes_lem n (b + 1) v in
    let next : v / 2 ^ (b * 8) / 2 ^ 8 ≡ v / 2 ^ ((b + 1) * 8) =
      div_div_pow (b * 8) 8 v
      ∙ ap (λ t. v / 2 ^ t) (let e : b * 8 + 8 ≡ (b + 1) * 8 = omega arith in e) in
    (
      rw (eight_suc n, mod_split 8 (8 * n) (v / 2 ^ (b * 8)), next, spells) refl,
      (omega arith, bytes),
      omega (arith, size),
    )

take-replicate : (k n v : ℕ) → take k (replicate n v) ≡ replicate (min k n) v
take-replicate zero n v = ap (λ t. replicate t v) (let e : 0 ≡ min 0 n = omega arith in e)
take-replicate (suc k) zero v =
    ap (λ t. replicate t v) (let e : 0 ≡ min (suc k) 0 = omega arith in e)
take-replicate (suc k) (suc n) v =
    ap (◌∷◌ v) (take-replicate k n v)
    ∙ ap (λ t. replicate t v) (let e : suc (min k n) ≡ min (suc k) (suc n) = omega arith in e)

-- The value bytes of an RLE run are read back to the value.
repeated_value :
    (bw v : ℕ)
    → bw ≤ 64
    → v < 2 ^ bw
    → gather (low_bytes (div_ceil bw 8) 0 v) 0 (div_ceil bw 8) 0 0 ≡ some v
repeated_value bw v width hv =
    let n : ℕ = div_ceil bw 8 in
    let (spells, bytes, size) = low_bytes_lem n 0 v in
    let room : 2 ^ bw ≤ 2 ^ (8 * n) = pow-le-pow_right (omega arith) {j = 8 * n} (omega arith) in
    let fits : v % 2 ^ (8 * n) ≡ v = mod-eq_of_lt (omega arith) in
    let whole : v / 2 ^ (0 * 8) ≡ v = omega arith in
    let first : v / 2 ^ (8 * 0) ≡ v = omega arith in
    gather_window (low_bytes n 0 v) 0 n bytes (omega (arith, size)) (omega arith)
    ∙ ap some (rw (spells, whole, fits, first, fits) refl)

repeated-CodecReads :
    (bw n left v : ℕ)
    → bw ≤ 64
    → n < 2 ^ 63
    → v < 2 ^ bw
    → CodecReads
        (read_run bw left (n * 2))
        (low_bytes (div_ceil bw 8) 0 v)
        (take left (replicate n v))
unfolding read_run
repeated-CodecReads bw n left v width small hv =
    let even : bit_and (n * 2) 1 ≡ 0 = omega (arith, and_01 (n * 2)) in
    let half : n * 2 / 2 ≡ n = omega arith in
    let nb : ℕ = div_ceil bw 8 in
    let chunk : List ℕ = low_bytes nb 0 v in
    let size : nb ≡ length chunk = sym (low_bytes_lem nb 0 v).2 in
    let values : Option.map (λ t. replicate (min left n) t) (gather chunk 0 nb 0 0)
        ≡ some (take left (replicate n v)) =
      ap (Option.map (λ t. replicate (min left n) t)) (repeated_value bw v width hv)
      ∙ ap some (sym (take-replicate left n v)) in
    rw (even, half)
      (CodecReads-or_panic _ (λ t. Option.map (λ x. replicate (min left n) x) (gather t 0 nb 0 0))
        chunk chunk (take left (replicate n v))
        (wire-Reads _ chunk chunk
          (subst (λ t. Reads (take_bytes t) chunk chunk) (sym size) (Reads-take chunk)))
        values)

-- What `write_rle_run` appends.
pub rle_run_bytes : ℕ → ℕ → ℕ → List ℕ
rle_run_bytes n v bw = header_bytes (n * 2) ++ low_bytes (div_ceil bw 8) 0 v

pub rle-IsRun :
    (bw n v : ℕ)
    → bw ≤ 64
    → n < 2 ^ 63
    → v < 2 ^ bw
    → IsRun bw (rle_run_bytes n v bw) (replicate n v)
unfolding rle_run_bytes
rle-IsRun bw n v width small hv = record {
  header = n * 2;
  head = header_bytes (n * 2);
  body = low_bytes (div_ceil bw 8) 0 v;
  split = refl;
  some_head = write_uvarint-some (n * 2) (omega arith);
  reads_header = uvarint_round_trip (n * 2) (omega arith);
  reads_body = λ left. repeated-CodecReads bw n left v width small hv;
}

-- The writers append these runs.
pub write_rle_run-append :
    (out : List ℕ) (n v bw : ℕ)
    → n < 2 ^ 63
    → write_rle_run out n v bw ≡ out ++ rle_run_bytes n v bw
unfolding write_rle_run rle_run_bytes
write_rle_run-append out n v bw h =
    let e : n * 2 % 2 ^ 64 ≡ n * 2 = omega arith in
    push_value-append (div_ceil bw 8) 0 v (write_uvarint out (n * 2 % 2 ^ 64))
    ∙ rw (e, write_header out (n * 2)) (append_assoc out (header_bytes (n * 2)) _)

-- The groups of eight that hold the values, and the zeros that fill the last.
abbrev pub groups : List ℕ → ℕ
groups vs = div_ceil (length vs) 8

abbrev pub padded : List ℕ → List ℕ
padded vs = vs ++ replicate (groups vs * 8 - length vs) 0

pub write_packed_run-append :
    (out vs : List ℕ) (bw : ℕ)
    → groups vs < 2 ^ 63
    → write_packed_run out vs bw ≡ out ++ packed_run_bytes (groups vs) (padded vs) bw
unfolding write_packed_run
write_packed_run-append out vs bw h = packed_run-append out (padded vs) (groups vs) bw h

pub All-append : (P : ℕ → Type 0) (xs ys : List ℕ) → All P xs → All P ys → All P (xs ++ ys)
All-append P [] ys hx hy = hy
All-append P (x ∷ xs) ys hx hy = (hx.0, All-append P xs ys hx.1 hy)

pub All-replicate : (P : ℕ → Type 0) (n v : ℕ) → P v → All P (replicate n v)
All-replicate P zero v h = tt
All-replicate P (suc n) v h = (h, All-replicate P n v h)

-- The last run, padded.
pub padded-IsRun :
    (bw : ℕ) (vs : List ℕ)
    → bw ≤ 32
    → length vs < 2 ^ 58
    → All (λ v. v < 2 ^ bw) vs
    → IsRun bw (packed_run_bytes (groups vs) (padded vs) bw) (padded vs)
padded-IsRun bw vs width small hv =
    let size : length (padded vs) ≡ 8 * groups vs =
      length-append vs _
      ∙ ap (λ t. length vs + t) (length-replicate (groups vs * 8 - length vs) 0)
      ∙ omega arith in
    packed-IsRun bw (groups vs) (padded vs) (omega arith) size
      (omega (
        arith,
        mul-le-mul {n₁ = 8 * groups vs} {m₁ = bw} {n₂ = 2 ^ 58 + 8} {m₂ = 32} (omega arith) width,
      ))
      (omega arith) (All-append _ vs _ hv (All-replicate _ _ 0 (two_pow_pos bw)))
