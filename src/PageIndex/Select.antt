-- ===== src/PageIndex/Select.antt =====
-- The selectors of page_index.rs: pages and the values that their bounds and the range share.
use ematix_parquet.Base.{
  ℕ, zero, suc, ◌+◌, ◌/◌, ◌≤◌, ◌<◌, ◌≡◌, refl, ap, ◌∙◌, ◌↔◌, arith, leb, ◌==◌, not, ◌&&◌, Bool,
  true, false, dec_le, Bool-cases, inl, inr, List, [], ◌∷◌, length, get_or, ok, ◌>>=◌,
}
use ematix_parquet.Base.LeBytes.{le_value}
use ematix_parquet.Metadata.Index.{ColumnIndex}
use ematix_parquet.PageIndex.{rank, signed_leb, decode_stat, select_from, select_pages_overlapping}

abbrev pub page_min : ColumnIndex → ℕ → ℕ
page_min idx i = le_value (get_or idx.min_values i [])

abbrev pub page_max : ColumnIndex → ℕ → ℕ
page_max idx i = le_value (get_or idx.max_values i [])

abbrev pub is_null : ColumnIndex → ℕ → Bool
is_null idx i = get_or idx.null_pages i false

-- As many bounds as pages, and in each page with values bounds of `w` bits, in order.
pub record IsIndex (w : ℕ) (idx : ColumnIndex) : Type 0 where
  pub mins : length idx.min_values ≡ length idx.null_pages
  pub maxes : length idx.max_values ≡ length idx.null_pages
  pub min_width :
      (i : ℕ)
      → i < length idx.null_pages
      → is_null idx i ≡ false
      → length (get_or idx.min_values i []) ≡ w / 8
  pub max_width :
      (i : ℕ)
      → i < length idx.null_pages
      → is_null idx i ≡ false
      → length (get_or idx.max_values i []) ≡ w / 8
  pub ordered :
      (i : ℕ)
      → i < length idx.null_pages
      → is_null idx i ≡ false
      → rank w (page_min idx i) ≤ rank w (page_max idx i)

-- A value, of a signed type of `w` bits, that the page may hold and the range has.
abbrev pub Overlaps : ℕ → ColumnIndex → ℕ → ℕ → ℕ → Type 0
Overlaps w idx lo hi i =
    (v : ℕ) × (rank w (page_min idx i) ≤ rank w v)
    × (rank w v ≤ rank w (page_max idx i))
    × (rank w lo ≤ rank w v)
    × (rank w v ≤ rank w hi)

-- What the loop computes for page `i`.
abbrev chosen : ℕ → ColumnIndex → ℕ → ℕ → ℕ → Bool
chosen w idx lo hi i =
    not (is_null idx i) && (signed_leb w lo (page_max idx i) && signed_leb w (page_min idx i) hi)

shift_entries :
    (f : ℕ → Bool) (b : Bool) (sel : List Bool) (i n : ℕ)
    → b ≡ f i
    → ((k : ℕ) → k < n → get_or sel k false ≡ f (i + 1 + k))
    → (k : ℕ) → k < suc n
    → get_or (b ∷ sel) k false ≡ f (i + k)
shift_entries f b sel i n first each zero low = first ∙ ap f (let p : i ≡ i + 0 = omega arith in p)
shift_entries f b sel i n first each (suc k) low =
    each k (omega arith) ∙ ap f (let p : i + 1 + k ≡ i + suc k = omega arith in p)

-- The loop succeeds with an entry for each page.
select_from-chosen :
    (w : ℕ) (idx : ColumnIndex) (lo hi n i : ℕ)
    → IsIndex w idx
    → i + n ≤ length idx.null_pages
    → (sel : List Bool) × (select_from w idx lo hi n i ≡ ok sel)
      × (length sel ≡ n)
      × ((k : ℕ) → k < n → get_or sel k false ≡ chosen w idx lo hi (i + k))
unfolding select_from decode_stat
select_from-chosen w idx lo hi zero i h len = ([], refl, refl, λ k low. absurd (omega arith))
select_from-chosen w idx lo hi (suc n) i h len =
    let (sel, e, size, each) = select_from-chosen w idx lo hi n (i + 1) h (omega arith) in
    elim (Bool-cases (is_null idx i)) [
      | inl null ↦ (
        false ∷ sel,
        rw (null, e) refl,
        ap suc size,
        shift_entries (chosen w idx lo hi) false sel i n (rw null refl) each,
      )
      | inr some ↦
          let wmin : length (get_or idx.min_values i []) == w / 8 ≡ true =
            ground (arith, h.min_width i (omega arith) some) in
          let wmax : length (get_or idx.max_values i []) == w / 8 ≡ true =
            ground (arith, h.max_width i (omega arith) some) in
          (
            chosen w idx lo hi i ∷ sel,
            rw (some, wmin, ◌>>=◌, wmax, ◌>>=◌, e) refl,
            ap suc size,
            shift_entries (chosen w idx lo hi) _ sel i n refl each,
          )
    ]

overlap_of :
    (a b lo hi : ℕ) (w : ℕ)
    → rank w a ≤ rank w b
    → rank w lo ≤ rank w hi
    → rank w lo ≤ rank w b
    → rank w a ≤ rank w hi
    → (v : ℕ) × (rank w a ≤ rank w v)
      × (rank w v ≤ rank w b)
      × (rank w lo ≤ rank w v)
      × (rank w v ≤ rank w hi)
overlap_of a b lo hi w ab range low high = elim (dec_le (rank w a) (rank w lo)) [
  | yes behind ↦ (lo, behind, low, omega arith, range)
  | no front ↦ (a, omega arith, ab, omega arith, high)
]

both : (a b c d : ℕ) → (leb a b && leb c d) ≡ true → (a ≤ b) × (c ≤ d)
both a b c d h = ground arith

chosen_iff :
    (w : ℕ) (idx : ColumnIndex) (lo hi i : ℕ)
    → IsIndex w idx
    → i < length idx.null_pages
    → rank w lo ≤ rank w hi
    → (chosen w idx lo hi i ≡ true) ↔ ((is_null idx i ≡ false) × Overlaps w idx lo hi i)
chosen_iff w idx lo hi i h low range = elim (Bool-cases (is_null idx i)) [
  | inl null ↦ rw null (λ e. absurd (cc), λ e. absurd (cc))
  | inr some ↦ rw some (
    λ e.
        let (below, above) =
          both (rank w lo) (rank w (page_max idx i)) (rank w (page_min idx i)) (rank w hi) e in
        (
          refl,
          overlap_of (page_min idx i) (page_max idx i) lo hi w (h.ordered i low some) range below
              above,
        ),
    λ (_, (v, from, to, behind, front)).
        let low_end : signed_leb w lo (page_max idx i) ≡ true = ground arith in
        let high_end : signed_leb w (page_min idx i) hi ≡ true = ground arith in
        rw (low_end, high_end) refl,
  )
]

-- For a column index with as many bounds as pages, whose pages with values have bounds of the
-- type's width with the smaller first, and a range with its smaller end first, the selector
-- succeeds with one entry for each page, and selects a page exactly when it is not a null page and
-- some value lies, in the signed order, both between its bounds and in the range.
pub select_pages-Overlaps :
    (w : ℕ) (idx : ColumnIndex) (lo hi : ℕ)
    → IsIndex w idx
    → rank w lo ≤ rank w hi
    → (sel : List Bool) × (select_pages_overlapping w idx lo hi ≡ ok sel)
      × (length sel ≡ length idx.null_pages)
      × ((i : ℕ)
          → i < length idx.null_pages
          → (get_or sel i false ≡ true) ↔ ((is_null idx i ≡ false) × Overlaps w idx lo hi i))
unfolding select_pages_overlapping
select_pages-Overlaps w idx lo hi h range =
    let n : ℕ = length idx.null_pages in
    let (sel, e, size, each) = select_from-chosen w idx lo hi n 0 h (omega arith) in
    let in_range : signed_leb w lo hi ≡ true = ground arith in
    let mins : length idx.min_values == n ≡ true = ground (arith, h.mins) in
    let maxes : length idx.max_values == n ≡ true = ground (arith, h.maxes) in
    (
      sel,
      rw (in_range, mins, maxes) e,
      size,
      λ i low.
          let entry : get_or sel i false ≡ chosen w idx lo hi i =
            each i low ∙ ap (chosen w idx lo hi) (let p : 0 + i ≡ i = omega arith in p) in
          rw entry (chosen_iff w idx lo hi i h low range),
    )
