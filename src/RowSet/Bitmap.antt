-- ===== src/RowSet/Bitmap.antt =====
-- What a bitmap of rowset.rs says of a row, and what marking rows does to it.
use native.Mathlib.Nat.{pow-suc, zero-div}
use Prim.Native.Nat.{max}
use ematix_parquet.Base.{
  get_or-set_self, ok, ltb, get_or-set_ne, ℕ, zero, suc, ◌+◌, ◌*◌, ◌/◌, ◌%◌, ◌^◌, ◌<◌, ◌≡◌, ◌≢◌,
  refl, sym, subst, ap, ◌∙◌, arith, bit_or, ◌==◌, ◌||◌, Bool, if◌then◌else◌, true, false,
  Bool-cases, inl, inr, List, [], ◌∷◌, length, get_or, set, replicate, length-set, All,
}
use ematix_parquet.Base.Bits.{bit_or_digit, div_digit}
use ematix_parquet.RowSet.{mark, mark_all}

-- The bit of a row.
abbrev pub has_row : List ℕ → ℕ → Bool
has_row bm r = get_or bm (r / 8) 0 / 2 ^ (r % 8) % 2 == 1

abbrev pub is_member : ℕ → List ℕ → Bool
is_member r [] = false
is_member r (p ∷ rows) = (r == p) || is_member r rows

or_bit : (k a b : ℕ) → bit_or a b / 2 ^ k % 2 ≡ max (a / 2 ^ k % 2) (b / 2 ^ k % 2)
or_bit zero a b = omega (arith, bit_or_digit a b)
or_bit (suc k) a b =
    let half : bit_or a b / 2 ≡ bit_or (a / 2) (b / 2) = omega (arith, bit_or_digit a b) in
    rw (div_digit k (bit_or a b), div_digit k a, div_digit k b, half) (or_bit k (a / 2) (b / 2))

power_bit : (k j : ℕ) → 2 ^ j / 2 ^ k % 2 ≡ (if j == k then 1 else 0)
power_bit zero zero = refl
power_bit zero (suc j) = ground (arith, pow-suc 2 j)
power_bit (suc k) zero =
    rw (div_digit k (2 ^ 0))
      (let e : 2 ^ 0 / 2 / 2 ^ k ≡ 0 = zero-div (2 ^ k) in rw e (ground arith))
power_bit (suc k) (suc j) =
    let half : 2 ^ suc j / 2 ≡ 2 ^ j = omega (arith, pow-suc 2 j) in
    rw (div_digit k (2 ^ suc j), half) (power_bit k j ∙ ground arith)

-- The bitmap with one row marked, and with each of a list's, where the marks are inside it.
abbrev pub marked : ℕ → List ℕ → ℕ → List ℕ
marked base out r = set out (base + r / 8) (bit_or (get_or out (base + r / 8) 0) (2 ^ (r % 8)))

abbrev pub marked_all : ℕ → List ℕ → List ℕ → List ℕ
marked_all base out [] = out
marked_all base out (r ∷ rows) = marked_all base (marked base out r) rows

pub mark-marked :
    (base : ℕ) (out : List ℕ) (r : ℕ)
    → base + r / 8 < length out
    → mark base out r ≡ ok (marked base out r)
unfolding mark
mark-marked base out r h =
    let inside : ltb (base + r / 8) (length out) ≡ true = ground arith in rw inside refl

has_row-marked :
    (bm : List ℕ) (p r : ℕ)
    → p < 8 * length bm
    → has_row (marked 0 bm p) r ≡ ((r == p) || has_row bm r)
has_row-marked bm p r h =
    let at : 0 + p / 8 ≡ p / 8 = omega arith in
    elim (Bool-cases (r / 8 == p / 8)) [
      | inl same ↦
          let byte : r / 8 ≡ p / 8 = ground arith in
          rw
            (
              at,
              byte,
              get_or-set_self bm (p / 8) (bit_or (get_or bm (p / 8) 0) (2 ^ (p % 8))) 0
                  (omega arith),
              or_bit (r % 8) (get_or bm (p / 8) 0) (2 ^ (p % 8)),
              power_bit (r % 8) (p % 8),
            )
            (ground arith)
      | inr differ ↦
          let other : p / 8 ≢ r / 8 = ground arith in
          let apart : r == p ≡ false = ground arith in
          rw
            (
              at,
              get_or-set_ne bm (p / 8) (r / 8) (bit_or (get_or bm (p / 8) 0) (2 ^ (p % 8))) 0 other,
              apart,
            )
            refl
    ]

pub length-marked : (base : ℕ) (bm : List ℕ) (p : ℕ) → length (marked base bm p) ≡ length bm
length-marked base bm p = length-set bm (base + p / 8) _

pub length-marked_all : (base : ℕ) (bm rows : List ℕ) → length (marked_all base bm rows) ≡ length bm
length-marked_all base bm [] = refl
length-marked_all base bm (p ∷ rows) =
    length-marked_all base (marked base bm p) rows ∙ length-marked base bm p

pub mark_all-marked :
    (base : ℕ) (bm rows : List ℕ)
    → All (λ p. base + p / 8 < length bm) rows
    → mark_all base bm rows ≡ ok (marked_all base bm rows)
unfolding mark_all
mark_all-marked base bm [] h = refl
mark_all-marked base bm (p ∷ rows) (hp, hrows) =
    rw (mark_all, mark-marked base bm p hp)
      (mark_all-marked base (marked base bm p) rows
        (subst (λ (n : ℕ). All (λ q. base + q / 8 < n) rows) (sym (length-marked base bm p)) hrows))

or_swap : (a b c : Bool) → (a || (b || c)) ≡ ((b || a) || c)
or_swap true true c = refl
or_swap true false c = refl
or_swap false true c = refl
or_swap false false c = refl

-- Behind marking, the rows of the bitmap are those it had and those marked.
pub has_row-marked_all :
    (bm rows : List ℕ) (r : ℕ)
    → All (λ p. p < 8 * length bm) rows
    → has_row (marked_all 0 bm rows) r ≡ (is_member r rows || has_row bm r)
has_row-marked_all bm [] r h = refl
has_row-marked_all bm (p ∷ rows) r (hp, hrows) =
    has_row-marked_all (marked 0 bm p) rows r
      (subst (λ (n : ℕ). All (λ q. q < 8 * n) rows) (sym (length-marked 0 bm p)) hrows)
    ∙ ap (λ b. is_member r rows || b) (has_row-marked bm p r hp)
    ∙ or_swap (is_member r rows) (r == p) (has_row bm r)

get_or-zeros : (n i : ℕ) → get_or {A = ℕ} (replicate n 0) i 0 ≡ 0
get_or-zeros zero i = refl
get_or-zeros (suc n) zero = refl
get_or-zeros (suc n) (suc i) = get_or-zeros n i

pub has_row-zeros : (n r : ℕ) → has_row (replicate n 0) r ≡ false
has_row-zeros n r = rw (get_or-zeros n (r / 8), zero-div (2 ^ (r % 8))) refl

-- A tag in front of the bitmap shifts the bytes by one.
marked-tag : (tag : ℕ) (bm : List ℕ) (p : ℕ) → marked 1 (tag ∷ bm) p ≡ tag ∷ marked 0 bm p
marked-tag tag bm p =
    let e : 1 + p / 8 ≡ suc (p / 8) = omega arith in
    let e' : 0 + p / 8 ≡ p / 8 = omega arith in rw (e, e') refl

pub marked_all-tag :
    (tag : ℕ) (bm rows : List ℕ) → marked_all 1 (tag ∷ bm) rows ≡ tag ∷ marked_all 0 bm rows
marked_all-tag tag bm [] = refl
marked_all-tag tag bm (p ∷ rows) =
    rw (marked-tag tag bm p) (marked_all-tag tag (marked 0 bm p) rows)
