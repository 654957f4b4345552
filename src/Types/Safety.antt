-- ===== src/Types/Safety.antt =====
-- The readers of the enumerations of types.rs, on any bytes.
use Prim.Native.String.{String}
use ematix_parquet.Base.{ℕ, Bool, true, false, if◌then◌else◌, Result, ok, err}
use ematix_parquet.Compact.{FormatError, invalid_enum_value, read_zigzag_i32}
use ematix_parquet.Compact.Outcome.{Safe, IsSource, bind-Safe, result-Safe}
use ematix_parquet.Compact.Bounds.{zigzag_i32-Safe}
use ematix_parquet.Types.{
  parquet_type_from_i32, read_parquet_type, encoding_from_i32, read_encoding, codec_from_i32,
  read_codec, page_type_from_i32, read_page_type, repetition_type_from_i32, read_repetition_type,
  boundary_order_from_i32, read_boundary_order, algorithm_from_i32, read_algorithm,
  converted_type_from_i32, read_converted_type,
}

if-IsSource :
    {A : Type 0} (b : Bool) (a : A) (r : Result FormatError A)
    → IsSource r
    → IsSource (if b then ok a else r)
if-IsSource true a r h = tt
if-IsSource false a r h = h

invalid-IsSource :
    (A : Type 0) (name : String) (value : ℕ)
    → IsSource {A = A} (err (invalid_enum_value name value))
invalid-IsSource A name value = tt

pub parquet_type_from_i32-IsSource : (value : ℕ) → IsSource (parquet_type_from_i32 value)
unfolding parquet_type_from_i32
parquet_type_from_i32-IsSource value = search (if-IsSource, invalid-IsSource) depth 10

pub parquet_type-Safe : (b : Bool) → Safe b read_parquet_type
unfolding read_parquet_type
parquet_type-Safe b =
    bind-Safe b read_zigzag_i32 _ (zigzag_i32-Safe b)
      (λ v. result-Safe b _ (parquet_type_from_i32-IsSource v))

pub encoding_from_i32-IsSource : (value : ℕ) → IsSource (encoding_from_i32 value)
unfolding encoding_from_i32
encoding_from_i32-IsSource value = search (if-IsSource, invalid-IsSource) depth 11

pub encoding-Safe : (b : Bool) → Safe b read_encoding
unfolding read_encoding
encoding-Safe b =
    bind-Safe b read_zigzag_i32 _ (zigzag_i32-Safe b)
      (λ v. result-Safe b _ (encoding_from_i32-IsSource v))

pub codec_from_i32-IsSource : (value : ℕ) → IsSource (codec_from_i32 value)
unfolding codec_from_i32
codec_from_i32-IsSource value = search (if-IsSource, invalid-IsSource) depth 10

pub codec-Safe : (b : Bool) → Safe b read_codec
unfolding read_codec
codec-Safe b =
    bind-Safe b read_zigzag_i32 _ (zigzag_i32-Safe b)
      (λ v. result-Safe b _ (codec_from_i32-IsSource v))

pub page_type_from_i32-IsSource : (value : ℕ) → IsSource (page_type_from_i32 value)
unfolding page_type_from_i32
page_type_from_i32-IsSource value = search (if-IsSource, invalid-IsSource) depth 6

pub page_type-Safe : (b : Bool) → Safe b read_page_type
unfolding read_page_type
page_type-Safe b =
    bind-Safe b read_zigzag_i32 _ (zigzag_i32-Safe b)
      (λ v. result-Safe b _ (page_type_from_i32-IsSource v))

pub repetition_type_from_i32-IsSource : (value : ℕ) → IsSource (repetition_type_from_i32 value)
unfolding repetition_type_from_i32
repetition_type_from_i32-IsSource value = search (if-IsSource, invalid-IsSource) depth 5

pub repetition_type-Safe : (b : Bool) → Safe b read_repetition_type
unfolding read_repetition_type
repetition_type-Safe b =
    bind-Safe b read_zigzag_i32 _ (zigzag_i32-Safe b)
      (λ v. result-Safe b _ (repetition_type_from_i32-IsSource v))

pub boundary_order_from_i32-IsSource : (value : ℕ) → IsSource (boundary_order_from_i32 value)
unfolding boundary_order_from_i32
boundary_order_from_i32-IsSource value = search (if-IsSource, invalid-IsSource) depth 5

pub boundary_order-Safe : (b : Bool) → Safe b read_boundary_order
unfolding read_boundary_order
boundary_order-Safe b =
    bind-Safe b read_zigzag_i32 _ (zigzag_i32-Safe b)
      (λ v. result-Safe b _ (boundary_order_from_i32-IsSource v))

pub algorithm_from_i32-IsSource : (value : ℕ) → IsSource (algorithm_from_i32 value)
unfolding algorithm_from_i32
algorithm_from_i32-IsSource value = search (if-IsSource, invalid-IsSource) depth 7

pub algorithm-Safe : (b : Bool) → Safe b read_algorithm
unfolding read_algorithm
algorithm-Safe b =
    bind-Safe b read_zigzag_i32 _ (zigzag_i32-Safe b)
      (λ v. result-Safe b _ (algorithm_from_i32-IsSource v))

pub converted_type_from_i32-IsSource : (value : ℕ) → IsSource (converted_type_from_i32 value)
unfolding converted_type_from_i32
converted_type_from_i32-IsSource value = search (if-IsSource, invalid-IsSource) depth 24

pub converted_type-Safe : (b : Bool) → Safe b read_converted_type
unfolding read_converted_type
converted_type-Safe b =
    bind-Safe b read_zigzag_i32 _ (zigzag_i32-Safe b)
      (λ v. result-Safe b _ (converted_type_from_i32-IsSource v))
