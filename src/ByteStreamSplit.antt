-- ===== src/ByteStreamSplit.antt =====
-- crates/ematix-parquet-codec/src/byte_stream_split.rs: values of `width` bytes, 4 for FLOAT and 8
-- for DOUBLE, with the bytes of one place in all values together. A float is its bit pattern, which
-- is all that the source reads and writes of it. `num_values * width` wraps, as in a release build;
-- where it does, the allocation for the values panics, so that every read is inside the bytes.
pub mod RoundTrip
pub mod Tests
use ematix_parquet.Base.{
  ℕ, zero, suc, ◌+◌, ◌*◌, ◌%◌, ◌^◌, ◌==◌, if◌then◌else◌, List, [], ◌∷◌, length, get_or, set,
  replicate, Result, ok, err,
}
use ematix_parquet.Base.LeBytes.{le_value, le_bytes}
use ematix_parquet.Codec.{CodecError, unaligned_plain_buffer, over_capacity, panicked}

abbrev pub f32_width : ℕ
f32_width = 4

abbrev pub f64_width : ℕ
f64_width = 8

-- The bytes of value `i` at the places from `b` on.
pub value_bytes : List ℕ → ℕ → ℕ → ℕ → ℕ → List ℕ
value_bytes bytes n i b zero = []
value_bytes bytes n i b (suc places) =
    get_or bytes (b * n + i) 0 ∷ value_bytes bytes n i (b + 1) places

-- `for i in 0..num_values`, from `i` on.
pub join_values : ℕ → List ℕ → ℕ → ℕ → ℕ → List ℕ
join_values width bytes n i zero = []
join_values width bytes n i (suc left) =
    le_value (value_bytes bytes n i 0 width) ∷ join_values width bytes n (i + 1) left

pub decode_byte_stream_split : ℕ → List ℕ → ℕ → Result CodecError (List ℕ)
decode_byte_stream_split width bytes num_values =
    if length bytes == num_values * width % 2 ^ 64
    then if over_capacity num_values width
      then err panicked
      else ok (join_values width bytes num_values 0 num_values)
    else err (unaligned_plain_buffer width (length bytes))

-- `out[b * n + i] = bytes[b]`, from place `b` on.
pub split_bytes : ℕ → ℕ → ℕ → List ℕ → List ℕ → List ℕ
split_bytes n i b [] out = out
split_bytes n i b (x ∷ xs) out = split_bytes n i (b + 1) xs (set out (b * n + i) x)

-- `for (i, &v) in values.iter().enumerate()`.
pub split_values : ℕ → ℕ → ℕ → List ℕ → List ℕ → List ℕ
split_values width n i [] out = out
split_values width n i (v ∷ vs) out =
    split_values width n (i + 1) vs (split_bytes n i 0 (le_bytes width v) out)

pub encode_byte_stream_split : ℕ → List ℕ → List ℕ
encode_byte_stream_split width values =
    let n = length values in split_values width n 0 values (replicate (n * width) 0)

pub decode_byte_stream_split_f32 : List ℕ → ℕ → Result CodecError (List ℕ)
decode_byte_stream_split_f32 = decode_byte_stream_split f32_width

pub decode_byte_stream_split_f64 : List ℕ → ℕ → Result CodecError (List ℕ)
decode_byte_stream_split_f64 = decode_byte_stream_split f64_width

pub encode_byte_stream_split_f32 : List ℕ → List ℕ
encode_byte_stream_split_f32 = encode_byte_stream_split f32_width

pub encode_byte_stream_split_f64 : List ℕ → List ℕ
encode_byte_stream_split_f64 = encode_byte_stream_split f64_width
