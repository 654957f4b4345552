-- ===== src/RowSet/Tests.antt =====
-- Row sets at concrete inputs.
use ematix_parquet.Base.{
  ℕ, ◌+◌, ◌*◌, ◌<◌, ◌≡◌, refl, arith, min, List, [], ◌∷◌, length, All, ok, err,
}
use ematix_parquet.Codec.{panicked}
use ematix_parquet.Rle.{div_ceil}
use ematix_parquet.RowSet.{v2_tagged, encode_tagged, to_bitmap, mark, mark_all}
use ematix_parquet.RowSet.Bitmap.{has_row, is_member}
use ematix_parquet.RowSet.RoundTrip.{to_bitmap-encode_tagged, length-encode_tagged}

abbrev rows : List ℕ
rows = 0 ∷ 3 ∷ 17 ∷ []

rows_inside : All (λ p. p < 200) rows
rows_inside = ground arith

-- The bitmap that the repository's test expects.
dense_bytes : encode_tagged (0 ∷ 1 ∷ 2 ∷ 3 ∷ 4 ∷ 5 ∷ 6 ∷ 7 ∷ []) 8 ≡ ok (0x00 ∷ 0xff ∷ [])
unfolding encode_tagged mark mark_all
dense_bytes = refl

-- The same page has no row 100: the write past the bitmap panics.
outside_panics : encode_tagged (100 ∷ []) 8 ≡ err panicked
unfolding encode_tagged mark mark_all
outside_panics = refl

to_bitmap-encode_tagged_example :
    (bytes : List ℕ) × (encode_tagged rows 200 ≡ ok bytes)
    × (bm : List ℕ) × (to_bitmap bytes v2_tagged ≡ ok bm)
    × (length bm ≡ div_ceil 200 8)
    × ((r : ℕ) → has_row bm r ≡ is_member r rows)
to_bitmap-encode_tagged_example =
    to_bitmap-encode_tagged rows 200 rows_inside (omega arith) (omega arith)

length-encode_tagged_example :
    (bytes : List ℕ) × (encode_tagged rows 200 ≡ ok bytes)
    × (length bytes ≡ min (9 + 4 * length rows) (1 + div_ceil 200 8))
length-encode_tagged_example = length-encode_tagged rows 200 rows_inside
