-- ===== src/ByteStreamSplit/Tests.antt =====
-- Split values at concrete inputs: 1.0 and -2.0 in 32 bits.
use ematix_parquet.Base.{ℕ, ◌*◌, ◌^◌, ◌<◌, ◌≡◌, refl, arith, List, [], ◌∷◌, All, ok}
use ematix_parquet.ByteStreamSplit.{
  split_bytes, split_values, encode_byte_stream_split, encode_byte_stream_split_f32,
  decode_byte_stream_split,
}
use ematix_parquet.ByteStreamSplit.RoundTrip.{decode_byte_stream_split-encode}

abbrev floats : List ℕ
floats = 0x3f800000 ∷ 0xc0000000 ∷ []

encode_floats : encode_byte_stream_split_f32 floats ≡ 0 ∷ 0 ∷ 0 ∷ 0 ∷ 0x80 ∷ 0 ∷ 0x3f ∷ 0xc0 ∷ []
unfolding encode_byte_stream_split_f32 encode_byte_stream_split split_values split_bytes
encode_floats = refl

floats_fit : All (λ v. v < 2 ^ (8 * 4)) floats
floats_fit = ground arith

decode_byte_stream_split-encode_example :
    decode_byte_stream_split 4 (encode_byte_stream_split 4 floats) 2 ≡ ok floats
decode_byte_stream_split-encode_example =
    decode_byte_stream_split-encode 4 floats (omega arith) floats_fit
