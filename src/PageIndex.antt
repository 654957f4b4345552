-- ===== src/PageIndex.antt =====
-- crates/ematix-parquet-codec/src/page_index.rs: which pages of a column a range can touch. The two
-- selectors, of INT32 and INT64 columns, are one function of the number of bits. A message of an
-- error is its fixed text.
pub mod Select
pub mod Tests
use ematix_parquet.Base.{
  ℕ, zero, suc, ◌+◌, ◌-◌, ◌*◌, ◌/◌, ◌%◌, ◌^◌, ltb, leb, ◌==◌, not, ◌&&◌, ◌||◌, if◌then◌else◌, Bool,
  true, false, Option, List, [], ◌∷◌, length, get_or, Result, ok, err, ◌>>=◌,
}
use ematix_parquet.Base.LeBytes.{le_value}
use ematix_parquet.Codec.{CodecError, decompress}
use ematix_parquet.Metadata.Index.{ColumnIndex}

-- A two's-complement pattern of `w` bits, moved up so that the order of numbers is the signed one.
abbrev pub rank : ℕ → ℕ → ℕ
rank w a = (a + 2 ^ (w - 1)) % 2 ^ w

abbrev pub signed_leb : ℕ → ℕ → ℕ → Bool
signed_leb w a b = leb (rank w a) (rank w b)

-- `decode_i32` and `decode_i64`: a bit pattern of `w` bits.
pub decode_stat : ℕ → List ℕ → Result CodecError ℕ
decode_stat w bytes =
    if length bytes == w / 8
    then ok (le_value bytes)
    else err (decompress "ColumnIndex stat: expected another number of bytes")

-- `for i in 0..n`, from `i` on.
pub select_from : ℕ → ColumnIndex → ℕ → ℕ → ℕ → ℕ → Result CodecError (List Bool)
select_from w idx lo hi zero i = ok []
select_from w idx lo hi (suc n) i =
    let rest = select_from w idx lo hi n (i + 1) in
    let none : Result CodecError (List Bool) = do selected ← rest; ok (false ∷ selected)
    in let some : Result CodecError (List Bool) = do
      pmin ← decode_stat w (get_or idx.min_values i [])
      pmax ← decode_stat w (get_or idx.max_values i [])
      selected ← rest
      ok ((signed_leb w lo pmax && signed_leb w pmin hi) ∷ selected)
      in if get_or idx.null_pages i false then none else some

pub select_pages_overlapping : ℕ → ColumnIndex → ℕ → ℕ → Result CodecError (List Bool)
select_pages_overlapping w idx lo hi =
    let n = length idx.null_pages in
    if not (signed_leb w lo hi)
    then err (decompress "select_pages_overlapping: lo > hi")
    else if not (length idx.min_values == n) || not (length idx.max_values == n)
    then err (decompress "ColumnIndex: null_pages/min/max length mismatch")
    else select_from w idx lo hi n 0

pub select_pages_overlapping_i32 : ColumnIndex → ℕ → ℕ → Result CodecError (List Bool)
select_pages_overlapping_i32 = select_pages_overlapping 32

pub select_pages_overlapping_i64 : ColumnIndex → ℕ → ℕ → Result CodecError (List Bool)
select_pages_overlapping_i64 = select_pages_overlapping 64
