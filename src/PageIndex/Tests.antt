-- ===== src/PageIndex/Tests.antt =====
-- The selection of pages at concrete bounds.
use ematix_parquet.Base.{
  ℕ, ◌/◌, ◌≤◌, ◌<◌, ◌≡◌, ◌↔◌, refl, zero, suc, arith, Bool, true, false, none, List, [], ◌∷◌,
  length, get_or, ok,
}
use ematix_parquet.Types.{unordered}
use ematix_parquet.Metadata.Index.{ColumnIndex}
use ematix_parquet.PageIndex.{
  rank, decode_stat, select_from, select_pages_overlapping, select_pages_overlapping_i32,
}
use ematix_parquet.PageIndex.Select.{
  IsIndex, Overlaps, is_null, page_min, page_max, select_pages-Overlaps,
}

-- Pages with -1 to 5, with nulls only, and with 256 to 257.
abbrev index : ColumnIndex
index = record {
  null_pages = false ∷ true ∷ false ∷ [];
  min_values = (0xff ∷ 0xff ∷ 0xff ∷ 0xff ∷ []) ∷ [] ∷ (0 ∷ 1 ∷ 0 ∷ 0 ∷ []) ∷ [];
  max_values = (5 ∷ 0 ∷ 0 ∷ 0 ∷ []) ∷ [] ∷ (1 ∷ 1 ∷ 0 ∷ 0 ∷ []) ∷ [];
  boundary_order = unordered;
  null_counts = none;
}

select_non_negative : select_pages_overlapping_i32 index 0 100 ≡ ok (true ∷ false ∷ false ∷ [])
unfolding select_pages_overlapping_i32 select_pages_overlapping select_from decode_stat
select_non_negative = refl

min_width :
    (i : ℕ) → i < 3 → is_null index i ≡ false → length (get_or index.min_values i []) ≡ 32 / 8
min_width zero h some = refl
min_width (suc zero) h some = absurd (cc)
min_width (suc (suc zero)) h some = refl
min_width (suc (suc (suc i))) h some = absurd (omega arith)

max_width :
    (i : ℕ) → i < 3 → is_null index i ≡ false → length (get_or index.max_values i []) ≡ 32 / 8
max_width zero h some = refl
max_width (suc zero) h some = absurd (cc)
max_width (suc (suc zero)) h some = refl
max_width (suc (suc (suc i))) h some = absurd (omega arith)

ordered :
    (i : ℕ)
    → i < 3
    → is_null index i ≡ false
    → rank 32 (page_min index i) ≤ rank 32 (page_max index i)
ordered zero h some = omega arith
ordered (suc zero) h some = absurd (cc)
ordered (suc (suc zero)) h some = omega arith
ordered (suc (suc (suc i))) h some = absurd (omega arith)

index-IsIndex : IsIndex 32 index
index-IsIndex = record {
  mins = refl;
  maxes = refl;
  min_width = min_width;
  max_width = max_width;
  ordered = ordered;
}

select_pages-Overlaps_example :
    (sel : List Bool) × (select_pages_overlapping 32 index 0 100 ≡ ok sel)
    × (length sel ≡ 3)
    × ((i : ℕ)
        → i < 3
        → (get_or sel i false ≡ true) ↔ ((is_null index i ≡ false) × Overlaps 32 index 0 100 i))
select_pages-Overlaps_example = select_pages-Overlaps 32 index 0 100 index-IsIndex (omega arith)
