-- ===== src/Rle/PackedRun.antt =====
-- What a bit-packed run is for the decoder.
use native.Mathlib.Nat.{mul-le-mul_right}
use ematix_parquet.Base.{
  ℕ, ◌+◌, ◌*◌, ◌/◌, ◌%◌, ◌^◌, ◌≤◌, ◌<◌, min, ◌≡◌, refl, sym, ap, ◌∙◌, arith, bit_and, bit_or, List,
  some, ◌++◌, append_assoc, length, take, All, dec_le,
}
use ematix_parquet.Base.Bits.{and_01, bit_or_high_low}
use ematix_parquet.Compact.At.{Reads-take}
use ematix_parquet.Codec.At.{CodecReads, CodecReads-or_panic, wire-Reads}
use ematix_parquet.CompactWriter.Varint.{uvarint_round_trip, write_uvarint-some}
use ematix_parquet.Rle.{read_run, packed_values, div_ceil, pack_lsb_first, write_uvarint}
use ematix_parquet.Rle.Header.{header_bytes, write_header}
use ematix_parquet.Rle.Pack.{packed_body, packed_body_lem, pack_lsb_first-append}
use ematix_parquet.Rle.Runs.{IsRun, take_all}
use ematix_parquet.Rle.Window.{packed_values_lem}

-- The header of a bit-packed run of `g` groups.
pub packed_header : (g : ℕ) → g < 2 ^ 63 → bit_or (g * 2 % 2 ^ 64) 1 ≡ g * 2 + 1
packed_header g h =
    let e : g * 2 % 2 ^ 64 ≡ g * 2 ^ 1 = omega arith in rw e (bit_or_high_low 1 1 g (omega arith))

take-min : (n k : ℕ) (xs : List ℕ) → k ≡ length xs → take (min n k) xs ≡ take n xs
take-min n k xs e = elim (dec_le n k) [
  | yes h ↦ ap (λ t. take t xs) (let m : min n k ≡ n = omega arith in m)
  | no h ↦ take_all (min n k) xs (omega arith) ∙ sym (take_all n xs (omega arith))
]

-- Behind such a header the decoder takes the packed bytes, and as many values as are wanted.
packed-CodecReads :
    (bw g left : ℕ) (vs : List ℕ)
    → bw ≤ 57
    → length vs ≡ 8 * g
    → 8 * g * bw < 2 ^ 64
    → 8 * g < 2 ^ 64
    → All (λ v. v < 2 ^ bw) vs
    → CodecReads (read_run bw left (g * 2 + 1)) (packed_body vs bw) (take left vs)
unfolding read_run
packed-CodecReads bw g left vs width len fits small hv =
    let (spells, bytes, size) = packed_body_lem vs bw g len hv in
    let odd : bit_and (g * 2 + 1) 1 ≡ 1 = omega (arith, and_01 (g * 2 + 1)) in
    let half : (g * 2 + 1) / 2 ≡ g = omega arith in
    let total : g * 8 % 2 ^ 64 ≡ 8 * g = omega arith in
    let needed : div_ceil (8 * g * bw % 2 ^ 64) 8 ≡ length (packed_body vs bw) =
      omega (arith, size) in
    let values : packed_values (packed_body vs bw) bw 0 (min left (8 * g)) ≡ some (take left vs) =
      packed_values_lem (packed_body vs bw) bw vs 0 (min left (8 * g)) bytes width
        (omega (arith, size, mul-le-mul_right {m = min left (8 * g)} {n = 8 * g} bw (omega arith)))
        spells hv (omega arith)
      ∙ ap some (take-min left (8 * g) vs (sym len)) in
    rw (odd, half, total, needed)
      (CodecReads-or_panic _ (λ chunk. packed_values chunk bw 0 (min left (8 * g)))
        (packed_body vs bw) (packed_body vs bw) (take left vs)
        (wire-Reads _ (packed_body vs bw) (packed_body vs bw) (Reads-take (packed_body vs bw)))
        values)

-- What `write_packed_run` appends: a header and the packed body, for `g` groups.
pub packed_run_bytes : ℕ → List ℕ → ℕ → List ℕ
packed_run_bytes g vs bw = header_bytes (g * 2 + 1) ++ packed_body vs bw

pub packed-IsRun :
    (bw g : ℕ) (vs : List ℕ)
    → bw ≤ 57
    → length vs ≡ 8 * g
    → 8 * g * bw < 2 ^ 64
    → 8 * g < 2 ^ 63
    → All (λ v. v < 2 ^ bw) vs
    → IsRun bw (packed_run_bytes g vs bw) vs
unfolding packed_run_bytes
packed-IsRun bw g vs width len fits small hv = record {
  header = g * 2 + 1;
  head = header_bytes (g * 2 + 1);
  body = packed_body vs bw;
  split = refl;
  some_head = write_uvarint-some (g * 2 + 1) (omega arith);
  reads_header = uvarint_round_trip (g * 2 + 1) (omega arith);
  reads_body = λ left. packed-CodecReads bw g left vs width len fits (omega arith) hv;
}

-- The writers append such a run.
pub packed_run-append :
    (out vs : List ℕ) (g bw : ℕ)
    → g < 2 ^ 63
    → pack_lsb_first (write_uvarint out (bit_or (g * 2 % 2 ^ 64) 1)) vs bw
      ≡ out ++ packed_run_bytes g vs bw
unfolding packed_run_bytes
packed_run-append out vs g bw h =
    pack_lsb_first-append (write_uvarint out (bit_or (g * 2 % 2 ^ 64) 1)) vs bw
    ∙ rw (packed_header g h, write_header out (g * 2 + 1))
        (append_assoc out (header_bytes (g * 2 + 1)) (packed_body vs bw))
