-- ===== src/RowSet/RoundTrip.antt =====
-- `to_bitmap` of rowset.rs on what `encode_tagged` stores, in either form.
use ematix_parquet.Base.{
  ℕ, ◌+◌, ◌*◌, ◌/◌, ◌%◌, if◌then◌else◌, ◌^◌, ◌≤◌, ◌<◌, ◌≡◌, refl, sym, ap, ◌∙◌, arith, ltb, leb,
  ◌==◌, ◌||◌, Bool, true, false, Bool-cases, inl, inr, List, [], ◌∷◌, ◌++◌, append_assoc,
  append-nil, length, length-replicate, take, drop, min, replicate, All, ok,
}
use ematix_parquet.Base.LeBytes.{le_value, le_bytes, le_value-le_bytes}
use ematix_parquet.Compact.At.{drop-add}
use ematix_parquet.Rle.{div_ceil}
use ematix_parquet.RowSet.{
  tag_bitmap, tag_sparse, v2_tagged, push_rows, encode_tagged, read_rows, sparse_to_bitmap,
  to_bitmap,
}
use ematix_parquet.RowSet.Bitmap.{
  has_row, is_member, marked_all, marked, mark-marked, length-marked, length-marked_all,
  mark_all-marked, has_row-marked_all, has_row-zeros, marked_all-tag,
}

-- The positions' bytes, one behind the other.
abbrev row_bytes : List ℕ → List ℕ
row_bytes [] = []
row_bytes (p ∷ rows) = le_bytes 4 p ++ row_bytes rows

push_rows-append : (out rows : List ℕ) → push_rows out rows ≡ out ++ row_bytes rows
unfolding push_rows
push_rows-append out [] = sym (append-nil out)
push_rows-append out (p ∷ rows) =
    push_rows-append (out ++ le_bytes 4 p) rows ∙ append_assoc out (le_bytes 4 p) (row_bytes rows)

length-row_bytes : (rows : List ℕ) → length (row_bytes rows) ≡ 4 * length rows
length-row_bytes [] = refl
length-row_bytes (p ∷ rows) = omega (arith, length-row_bytes rows)

read_rows-rows :
    (rows : List ℕ) (i : ℕ) (bytes : List ℕ) (npv : ℕ) (bm : List ℕ)
    → drop (9 + 4 * i) bytes ≡ row_bytes rows
    → All (λ p. p < npv) rows
    → npv < 2 ^ 32
    → npv ≤ 8 * length bm
    → read_rows (length rows) i bytes npv bm ≡ ok (marked_all 0 bm rows)
unfolding read_rows
read_rows-rows [] i bytes npv bm at h small room = refl
read_rows-rows (p ∷ rows) i bytes npv bm at (hp, hrows) small room =
    let r : le_value (take 4 (drop (9 + 4 * i) bytes)) ≡ p =
      ap (λ bs. le_value (take 4 bs)) at ∙ le_value-le_bytes 4 p (omega arith) in
    let next : 9 + 4 * (i + 1) ≡ 9 + 4 * i + 4 = omega arith in
    let behind : drop (9 + 4 * (i + 1)) bytes ≡ row_bytes rows =
      ap (λ (n : ℕ). drop n bytes) next ∙ drop-add (9 + 4 * i) 4 bytes ∙ ap (drop 4) at in
    let inside : leb npv p ≡ false = ground arith in
    rw (r, inside, mark-marked 0 bm p (omega arith))
      (read_rows-rows rows (i + 1) bytes npv (marked 0 bm p) behind hrows small
        (omega (arith, length-marked 0 bm p)))

sparse-read :
    (rows : List ℕ) (npv : ℕ)
    → All (λ p. p < npv) rows
    → npv < 2 ^ 32
    → length rows < 2 ^ 32
    → sparse_to_bitmap (
        tag_sparse
        ∷ (le_bytes 4 (npv % 2 ^ 32) ++ (le_bytes 4 (length rows % 2 ^ 32) ++ row_bytes rows)))
      ≡ ok (marked_all 0 (replicate (div_ceil npv 8) 0) rows)
unfolding sparse_to_bitmap
sparse-read rows npv h small few =
    let bytes : List ℕ =
      tag_sparse
      ∷ (le_bytes 4 (npv % 2 ^ 32) ++ (le_bytes 4 (length rows % 2 ^ 32) ++ row_bytes rows)) in
    let pages : le_value (le_bytes 4 (npv % 2 ^ 32)) ≡ npv =
      le_value-le_bytes 4 (npv % 2 ^ 32) (omega arith) ∙ omega arith in
    let count : le_value (le_bytes 4 (length rows % 2 ^ 32)) ≡ length rows =
      le_value-le_bytes 4 (length rows % 2 ^ 32) (omega arith) ∙ omega arith in
    let long : ltb (length bytes) 9 ≡ false = ground (arith, length-row_bytes rows) in
    let whole : length bytes == 9 + 4 * length rows ≡ true =
      ground (arith, length-row_bytes rows) in
    rw (long, pages, count, whole)
      (read_rows-rows rows 0 bytes npv (replicate (div_ceil npv 8) 0) refl h small
        (omega (arith, length-replicate {A = ℕ} (div_ceil npv 8) 0)))

or_false : (b : Bool) → (b || false) ≡ b
or_false true = refl
or_false false = refl

fits_bitmap :
    (npv n : ℕ) (rows : List ℕ) → npv ≤ 8 * n → All (λ p. p < npv) rows → All (λ p. p < 8 * n) rows
fits_bitmap npv n [] h hs = tt
fits_bitmap npv n (p ∷ rows) h (hp, hrows) = (omega arith, fits_bitmap npv n rows h hrows)

-- A row of the page has its bit behind the tag byte, too.
behind_tag :
    (npv n : ℕ) (rows : List ℕ)
    → npv + 8 ≤ 8 * n
    → All (λ p. p < npv) rows
    → All (λ p. 1 + p / 8 < n) rows
behind_tag npv n [] h hs = tt
behind_tag npv n (p ∷ rows) h (hp, hrows) = (omega arith, behind_tag npv n rows h hrows)

-- The bytes of either form.
unfoldable stored : List ℕ → ℕ → List ℕ
stored rows npv =
    if ltb (1 + 4 + 4 + 4 * length rows) (1 + div_ceil npv 8)
    then tag_sparse
      ∷ (le_bytes 4 (npv % 2 ^ 32) ++ (le_bytes 4 (length rows % 2 ^ 32) ++ row_bytes rows))
    else tag_bitmap ∷ marked_all 0 (replicate (div_ceil npv 8) 0) rows

encode_tagged-stored :
    (rows : List ℕ) (npv : ℕ)
    → All (λ p. p < npv) rows
    → encode_tagged rows npv ≡ ok (stored rows npv)
unfolding encode_tagged stored
encode_tagged-stored rows npv h =
    elim (Bool-cases (ltb (1 + 4 + 4 + 4 * length rows) (1 + div_ceil npv 8))) [
      | inl sparse ↦
          rw
            (
              sparse,
              push_rows-append
                  ((tag_sparse ∷ [])
                    ++ le_bytes 4 (npv % 2 ^ 32)
                    ++ le_bytes 4 (length rows % 2 ^ 32))
                  rows,
            )
            refl
      | inr dense ↦
          let zeros : List ℕ = replicate (div_ceil npv 8) 0 in
          let size : length zeros ≡ div_ceil npv 8 = length-replicate (div_ceil npv 8) 0 in
          rw dense (
            mark_all-marked 1 (tag_bitmap ∷ zeros) rows
              (behind_tag npv (length (tag_bitmap ∷ zeros)) rows (omega arith) h)
            ∙ ap ok (marked_all-tag tag_bitmap zeros rows))
    ]

-- Either form is read back as zeros with the rows marked.
stored-read :
    (rows : List ℕ) (npv : ℕ)
    → All (λ p. p < npv) rows
    → npv < 2 ^ 32
    → length rows < 2 ^ 32
    → to_bitmap (stored rows npv) v2_tagged ≡ ok (marked_all 0 (replicate (div_ceil npv 8) 0) rows)
unfolding stored to_bitmap
stored-read rows npv h small few =
    elim (Bool-cases (ltb (1 + 4 + 4 + 4 * length rows) (1 + div_ceil npv 8))) [
      | inl sparse ↦ rw sparse (sparse-read rows npv h small few)
      | inr dense ↦ rw dense refl
    ]

-- Fewer than 2^32 positions below a page size that is below 2^32, are stored without a panic, in
-- either form, and read back as a bitmap with one bit for each row of the page, rounded up to
-- bytes, in which exactly the rows of the positions are set.
pub to_bitmap-encode_tagged :
    (positions : List ℕ) (npv : ℕ)
    → All (λ p. p < npv) positions
    → npv < 2 ^ 32
    → length positions < 2 ^ 32
    → (bytes : List ℕ) × (encode_tagged positions npv ≡ ok bytes)
      × (bm : List ℕ) × (to_bitmap bytes v2_tagged ≡ ok bm)
      × (length bm ≡ div_ceil npv 8)
      × ((r : ℕ) → has_row bm r ≡ is_member r positions)
to_bitmap-encode_tagged rows npv h small few =
    let zeros : List ℕ = replicate (div_ceil npv 8) 0 in
    let size : length zeros ≡ div_ceil npv 8 = length-replicate (div_ceil npv 8) 0 in
    (
      stored rows npv,
      encode_tagged-stored rows npv h,
      marked_all 0 zeros rows,
      stored-read rows npv h small few,
      length-marked_all 0 zeros rows ∙ size,
      λ r.
          has_row-marked_all zeros rows r (fits_bitmap npv (length zeros) rows (omega arith) h)
          ∙ ap (λ b. is_member r rows || b) (has_row-zeros (div_ceil npv 8) r)
          ∙ or_false (is_member r rows),
    )

length-stored :
    (rows : List ℕ) (npv : ℕ)
    → length (stored rows npv) ≡ min (9 + 4 * length rows) (1 + div_ceil npv 8)
unfolding stored
length-stored rows npv =
    elim (Bool-cases (ltb (1 + 4 + 4 + 4 * length rows) (1 + div_ceil npv 8))) [
      | inl sparse ↦ rw sparse (ground (arith, length-row_bytes rows))
      | inr dense ↦ rw dense (
          ground (
            arith,
            length-marked_all 0 (replicate (div_ceil npv 8) 0) rows,
            length-replicate {A = ℕ} (div_ceil npv 8) 0,
          ))
    ]

-- Positions below the page size are stored without a panic, in a form that is as long as the
-- shorter of the two: 9 bytes and 4 for each position, or 1 byte and the bitmap.
pub length-encode_tagged :
    (positions : List ℕ) (npv : ℕ)
    → All (λ p. p < npv) positions
    → (bytes : List ℕ) × (encode_tagged positions npv ≡ ok bytes)
      × (length bytes ≡ min (9 + 4 * length positions) (1 + div_ceil npv 8))
length-encode_tagged rows npv h =
    (stored rows npv, encode_tagged-stored rows npv h, length-stored rows npv)
