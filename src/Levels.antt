-- ===== src/Levels.antt =====
-- crates/ematix-parquet-codec/src/levels.rs: the repetition and definition levels in front of the
-- values of a v1 data page. A message of an error is its fixed text, without the lengths that the
-- source prints into it.
pub mod MaxLevels
pub mod Width
pub mod Body
pub mod RoundTrip
pub mod Tests
use ematix_parquet.Base.{
  ℕ, ◌+◌, ◌*◌, ◌%◌, ◌^◌, ltb, ◌==◌, if◌then◌else◌, List, [], ◌∷◌, length, take, drop, replicate,
  map, Result, ok, err, ◌>>=◌,
}
use ematix_parquet.Base.LeBytes.{le_value}
use ematix_parquet.Codec.{over_capacity, panicked, CodecError, decompress}
use ematix_parquet.Rle.{decode_rle_bit_packed, binary_digits}

-- `32 - (max_level as u32).leading_zeros()`.
pub bit_width_for : ℕ → ℕ
bit_width_for max_level = if max_level == 0 then 0 else binary_digits 32 max_level

-- The levels, and how many bytes of the body they take.
pub decode_levels : List ℕ → ℕ → ℕ → Result CodecError (List ℕ × ℕ)
decode_levels body bw num_values =
    let len = le_value (take 4 body) in
    let stream = take len (drop 4 body) in
    let levels : Result CodecError (List ℕ × ℕ) = do
      values ← decode_rle_bit_packed stream bw num_values
      ok (map (λ v. v % 2 ^ 16) values, 4 + len)
    in if bw == 0
      then if over_capacity num_values 2 then err panicked else ok (replicate num_values 0, 0)
      else if ltb (length body) 4
      then err (decompress "level stream: need 4-byte length prefix")
      else if ltb (length body) (4 + len)
      then err (decompress "level stream: prefix says more body bytes")
      else levels

-- The repetition levels, the definition levels, and the bytes of the values.
pub parse_v1_data_page_body : List ℕ → ℕ → ℕ → ℕ → Result CodecError (List ℕ × List ℕ × List ℕ)
parse_v1_data_page_body body max_rep_level max_def_level num_values = do
  (rep, rep_consumed) ← decode_levels body (bit_width_for max_rep_level) num_values
  (def, def_consumed) ←
      decode_levels (drop rep_consumed body) (bit_width_for max_def_level) num_values
  ok (rep, def, drop (rep_consumed + def_consumed) body)

-- One turn of the loop over the two widths: the offset behind a level stream at `off`.
pub skip_stream : List ℕ → ℕ → ℕ → Result CodecError ℕ
skip_stream body off bw =
    let stop = off + 4 + le_value (take 4 (drop off body)) in
    if bw == 0
    then ok off
    else if ltb (length body) (off + 4)
    then err (decompress "level stream: need 4-byte length prefix at offset")
    else if ltb (length body) stop
    then err (decompress "level stream: prefix says more body bytes at offset")
    else ok stop

pub skip_v1_level_prefixes : List ℕ → ℕ → ℕ → Result CodecError ℕ
skip_v1_level_prefixes body max_rep_level max_def_level = do
  off ← skip_stream body 0 (bit_width_for max_rep_level)
  skip_stream body off (bit_width_for max_def_level)
