-- ===== src/Types/Codes.antt =====
-- Each code of types.rs is read back to the member it stands for.
use ematix_parquet.Base.{ℕ, ◌≡◌, refl, Result, ok, List, ◌<◌, ◌^◌, arith}
use ematix_parquet.Compact.{FormatError, Reader, ◌>>=◌, from_result, read_zigzag_i32}
use ematix_parquet.Compact.At.{Reads}
use ematix_parquet.Types.{
  read_parquet_type, read_encoding, read_codec, read_page_type, read_repetition_type,
  read_boundary_order, read_algorithm, read_converted_type, ParquetType, parquet_type_code,
  parquet_type_from_i32, Encoding, encoding_code, encoding_from_i32, CompressionCodec, codec_code,
  codec_from_i32, PageType, page_type_code, page_type_from_i32, FieldRepetitionType,
  repetition_type_code, repetition_type_from_i32, BoundaryOrder, boundary_order_code,
  boundary_order_from_i32, EdgeInterpolationAlgorithm, algorithm_code, algorithm_from_i32,
  ConvertedType, converted_type_code, converted_type_from_i32,
}

-- A reader, and then what may fail on its result.
pub Reads-result :
    {A B : Type 0} (p : Reader A) (f : A → Result FormatError B) (bs : List ℕ) (a : A) (b : B)
    → Reads p bs a
    → f a ≡ ok b
    → Reads (p >>= λ v. from_result (f v)) bs b
Reads-result p f bs a b r e c rest h = rw (r c rest h, ◌>>=◌, e)

pub parquet_type_from_i32-code :
    (t : ParquetType) → parquet_type_from_i32 (parquet_type_code t) ≡ ok t
unfolding parquet_type_from_i32
parquet_type_from_i32-code ParquetType.boolean = refl
parquet_type_from_i32-code _ = refl

pub parquet_type_code-lt : (t : ParquetType) → parquet_type_code t < 2 ^ 32
parquet_type_code-lt ParquetType.boolean = omega arith
parquet_type_code-lt _ = omega arith

pub encoding_from_i32-code : (t : Encoding) → encoding_from_i32 (encoding_code t) ≡ ok t
unfolding encoding_from_i32
encoding_from_i32-code Encoding.plain = refl
encoding_from_i32-code _ = refl

pub encoding_code-lt : (t : Encoding) → encoding_code t < 2 ^ 32
encoding_code-lt Encoding.plain = omega arith
encoding_code-lt _ = omega arith

pub codec_from_i32-code : (t : CompressionCodec) → codec_from_i32 (codec_code t) ≡ ok t
unfolding codec_from_i32
codec_from_i32-code CompressionCodec.uncompressed = refl
codec_from_i32-code _ = refl

pub codec_code-lt : (t : CompressionCodec) → codec_code t < 2 ^ 32
codec_code-lt CompressionCodec.uncompressed = omega arith
codec_code-lt _ = omega arith

pub page_type_from_i32-code : (t : PageType) → page_type_from_i32 (page_type_code t) ≡ ok t
unfolding page_type_from_i32
page_type_from_i32-code PageType.data_page = refl
page_type_from_i32-code _ = refl

pub page_type_code-lt : (t : PageType) → page_type_code t < 2 ^ 32
page_type_code-lt PageType.data_page = omega arith
page_type_code-lt _ = omega arith

pub repetition_type_from_i32-code :
    (t : FieldRepetitionType) → repetition_type_from_i32 (repetition_type_code t) ≡ ok t
unfolding repetition_type_from_i32
repetition_type_from_i32-code FieldRepetitionType.required = refl
repetition_type_from_i32-code _ = refl

pub repetition_type_code-lt : (t : FieldRepetitionType) → repetition_type_code t < 2 ^ 32
repetition_type_code-lt FieldRepetitionType.required = omega arith
repetition_type_code-lt _ = omega arith

pub boundary_order_from_i32-code :
    (t : BoundaryOrder) → boundary_order_from_i32 (boundary_order_code t) ≡ ok t
unfolding boundary_order_from_i32
boundary_order_from_i32-code BoundaryOrder.unordered = refl
boundary_order_from_i32-code _ = refl

pub boundary_order_code-lt : (t : BoundaryOrder) → boundary_order_code t < 2 ^ 32
boundary_order_code-lt BoundaryOrder.unordered = omega arith
boundary_order_code-lt _ = omega arith

pub algorithm_from_i32-code :
    (t : EdgeInterpolationAlgorithm) → algorithm_from_i32 (algorithm_code t) ≡ ok t
unfolding algorithm_from_i32
algorithm_from_i32-code EdgeInterpolationAlgorithm.spherical = refl
algorithm_from_i32-code _ = refl

pub algorithm_code-lt : (t : EdgeInterpolationAlgorithm) → algorithm_code t < 2 ^ 32
algorithm_code-lt EdgeInterpolationAlgorithm.spherical = omega arith
algorithm_code-lt _ = omega arith

pub converted_type_from_i32-code :
    (t : ConvertedType) → converted_type_from_i32 (converted_type_code t) ≡ ok t
unfolding converted_type_from_i32
converted_type_from_i32-code ConvertedType.utf8 = refl
converted_type_from_i32-code _ = refl

pub converted_type_code-lt : (t : ConvertedType) → converted_type_code t < 2 ^ 32
converted_type_code-lt ConvertedType.utf8 = omega arith
converted_type_code-lt _ = omega arith

pub parquet_type_code-Reads :
    (t : ParquetType) (bs : List ℕ)
    → Reads read_zigzag_i32 bs (parquet_type_code t)
    → Reads read_parquet_type bs t
unfolding read_parquet_type
parquet_type_code-Reads t bs r =
    Reads-result read_zigzag_i32 parquet_type_from_i32 bs (parquet_type_code t) t r
      (parquet_type_from_i32-code t)

pub encoding_code-Reads :
    (t : Encoding) (bs : List ℕ)
    → Reads read_zigzag_i32 bs (encoding_code t)
    → Reads read_encoding bs t
unfolding read_encoding
encoding_code-Reads t bs r =
    Reads-result read_zigzag_i32 encoding_from_i32 bs (encoding_code t) t r
      (encoding_from_i32-code t)

pub codec_code-Reads :
    (t : CompressionCodec) (bs : List ℕ)
    → Reads read_zigzag_i32 bs (codec_code t)
    → Reads read_codec bs t
unfolding read_codec
codec_code-Reads t bs r =
    Reads-result read_zigzag_i32 codec_from_i32 bs (codec_code t) t r (codec_from_i32-code t)

pub page_type_code-Reads :
    (t : PageType) (bs : List ℕ)
    → Reads read_zigzag_i32 bs (page_type_code t)
    → Reads read_page_type bs t
unfolding read_page_type
page_type_code-Reads t bs r =
    Reads-result read_zigzag_i32 page_type_from_i32 bs (page_type_code t) t r
      (page_type_from_i32-code t)

pub repetition_type_code-Reads :
    (t : FieldRepetitionType) (bs : List ℕ)
    → Reads read_zigzag_i32 bs (repetition_type_code t)
    → Reads read_repetition_type bs t
unfolding read_repetition_type
repetition_type_code-Reads t bs r =
    Reads-result read_zigzag_i32 repetition_type_from_i32 bs (repetition_type_code t) t r
      (repetition_type_from_i32-code t)

pub boundary_order_code-Reads :
    (t : BoundaryOrder) (bs : List ℕ)
    → Reads read_zigzag_i32 bs (boundary_order_code t)
    → Reads read_boundary_order bs t
unfolding read_boundary_order
boundary_order_code-Reads t bs r =
    Reads-result read_zigzag_i32 boundary_order_from_i32 bs (boundary_order_code t) t r
      (boundary_order_from_i32-code t)

pub algorithm_code-Reads :
    (t : EdgeInterpolationAlgorithm) (bs : List ℕ)
    → Reads read_zigzag_i32 bs (algorithm_code t)
    → Reads read_algorithm bs t
unfolding read_algorithm
algorithm_code-Reads t bs r =
    Reads-result read_zigzag_i32 algorithm_from_i32 bs (algorithm_code t) t r
      (algorithm_from_i32-code t)

pub converted_type_code-Reads :
    (t : ConvertedType) (bs : List ℕ)
    → Reads read_zigzag_i32 bs (converted_type_code t)
    → Reads read_converted_type bs t
unfolding read_converted_type
converted_type_code-Reads t bs r =
    Reads-result read_zigzag_i32 converted_type_from_i32 bs (converted_type_code t) t r
      (converted_type_from_i32-code t)
