-- ===== src/RowSet.antt =====
-- crates/ematix-parquet-codec/src/index/rowset.rs: the rows of a page that an index lists under a
-- key, stored as a bitmap or as a list of positions. A message of an error is its fixed text,
-- without the numbers that the source prints into it.
pub mod Bitmap
pub mod RoundTrip
pub mod Tests
use ematix_parquet.Base.{
  ℕ, zero, suc, ◌+◌, ◌*◌, ◌/◌, ◌%◌, ◌^◌, bit_or, ltb, leb, ◌==◌, not, if◌then◌else◌, List, [], ◌∷◌,
  ◌++◌, length, get_or, set, take, drop, replicate, Result, ok, err,
}
use ematix_parquet.Base.LeBytes.{le_value, le_bytes}
use ematix_parquet.Codec.{CodecError, invalid_input, panicked}
use ematix_parquet.Rle.{div_ceil}

abbrev pub tag_bitmap : ℕ
tag_bitmap = 0x00

abbrev pub tag_sparse : ℕ
tag_sparse = 0x01

pub data RowsetFormat : Type 0 where
  v1_raw v2_tagged : RowsetFormat

-- `out[base + r / 8] |= 1 << (r % 8)`, with its panic on an index out of bounds. The
-- `debug_assert!` in front of it is empty in a release build.
pub mark : ℕ → List ℕ → ℕ → Result CodecError (List ℕ)
mark base out r =
    if ltb (base + r / 8) (length out)
    then ok (set out (base + r / 8) (bit_or (get_or out (base + r / 8) 0) (2 ^ (r % 8))))
    else err panicked

pub mark_all : ℕ → List ℕ → List ℕ → Result CodecError (List ℕ)
mark_all base out [] = ok out
mark_all base out (r ∷ rows) = elim (mark base out r) [
  | ok marked ↦ mark_all base marked rows
  | err e ↦ err e
]

-- `out.extend_from_slice(&p.to_le_bytes())` for each position.
pub push_rows : List ℕ → List ℕ → List ℕ
push_rows out [] = out
push_rows out (p ∷ rows) = push_rows (out ++ le_bytes 4 p) rows

pub encode_tagged : List ℕ → ℕ → Result CodecError (List ℕ)
encode_tagged positions num_page_values =
    let bitmap_len = div_ceil num_page_values 8 in
    let sparse_len = 1 + 4 + 4 + 4 * length positions in
    if ltb sparse_len (1 + bitmap_len)
    then ok (
        push_rows
          ((tag_sparse ∷ [])
            ++ le_bytes 4 (num_page_values % 2 ^ 32)
            ++ le_bytes 4 (length positions % 2 ^ 32))
          positions)
    else mark_all 1 (tag_bitmap ∷ replicate bitmap_len 0) positions

-- `for i in 0..count`, from `i` on.
pub read_rows : ℕ → ℕ → List ℕ → ℕ → List ℕ → Result CodecError (List ℕ)
read_rows zero i bytes npv bm = ok bm
read_rows (suc n) i bytes npv bm =
    let r = le_value (take 4 (drop (9 + 4 * i) bytes)) in
    let rest : Result CodecError (List ℕ) = elim (mark 0 bm r) [
      | ok marked ↦ read_rows n (i + 1) bytes npv marked
      | err e ↦ err e
    ] in
    if leb npv r then err (invalid_input "v2 sparse rowset row out of page range") else rest

pub sparse_to_bitmap : List ℕ → Result CodecError (List ℕ)
sparse_to_bitmap bytes =
    let npv = le_value (take 4 (drop 1 bytes)) in
    let count = le_value (take 4 (drop 5 bytes)) in
    if ltb (length bytes) 9
    then err (invalid_input "v2 sparse rowset truncated")
    else if length bytes == 9 + 4 * count
    then read_rows count 0 bytes npv (replicate (div_ceil npv 8) 0)
    else err (invalid_input "v2 sparse rowset length mismatch")

pub to_bitmap : List ℕ → RowsetFormat → Result CodecError (List ℕ)
to_bitmap bytes v1_raw = ok bytes
to_bitmap [] v2_tagged = err (invalid_input "v2 rowset is empty")
to_bitmap (tag ∷ payload) v2_tagged =
    if tag == tag_bitmap
    then ok payload
    else if tag == tag_sparse
    then sparse_to_bitmap (tag ∷ payload)
    else err (invalid_input "v2 rowset has unknown tag")
