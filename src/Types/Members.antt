-- ===== src/Types/Members.antt =====
-- `from_i32` of each enumeration of types.rs takes the codes of its members, and no other number.
use Prim.Native.String.{String}
use ematix_parquet.Base.{
  ℕ, ◌≡◌, ◌↔◌, ◌==◌, ◌∙◌, sym, ap, arith, if◌then◌else◌, true, false, Bool-cases, inl, inr, Result,
  ok, err, ◌⊎◌,
}
use ematix_parquet.Compact.{FormatError, invalid_enum_value}
use ematix_parquet.Types.{
  parquet_type_code, parquet_type_from_i32, encoding_code, encoding_from_i32, codec_code,
  codec_from_i32, page_type_code, page_type_from_i32, repetition_type_code,
  repetition_type_from_i32, boundary_order_code, boundary_order_from_i32, algorithm_code,
  algorithm_from_i32, converted_type_code, converted_type_from_i32,
}
use ematix_parquet.Types.Codes.{
  parquet_type_from_i32-code, encoding_from_i32-code, codec_from_i32-code, page_type_from_i32-code,
  repetition_type_from_i32-code, boundary_order_from_i32-code, algorithm_from_i32-code,
  converted_type_from_i32-code,
}

-- A member that is found is the one with the number for its code.
record IsMember {A : Type 0} (code : A → ℕ) (value : ℕ) (r : Result FormatError A) : Type 0 where
  known : (t : A) → r ≡ ok t → code t ≡ value

module _ {A : Type 0} {code : A → ℕ} {value : ℕ} where
  if-IsMember :
      (k : ℕ) (a : A) (r : Result FormatError A)
      → code a ≡ k
      → IsMember code value r
      → IsMember code value (if value == k then ok a else r)
  if-IsMember k a r e h = record { known = λ t f. choose (Bool-cases (value == k)) t f }
    where
      choose :
          ((value == k) ≡ true) ⊎ ((value == k) ≡ false)
          → (t : A) → (if value == k then ok a else r) ≡ ok t
          → code t ≡ value
      choose (inl y) t f = ground (arith, e)
      choose (inr n) t f = h.known t (ap (λ b. if b then ok a else r) (sym n) ∙ f)

  invalid-IsMember : (name : String) (v : ℕ) → IsMember code value (err (invalid_enum_value name v))
  invalid-IsMember name v = record { known = λ t f. absurd (cc) }

-- That `from` finds exactly the members, by their codes.
abbrev pub Finds : {A : Type 0} → (ℕ → Result FormatError A) → (A → ℕ) → ℕ → Type 0
Finds {A} from code value = (t : A) → (from value ≡ ok t) ↔ (code t ≡ value)

finds :
    {A : Type 0} (from : ℕ → Result FormatError A) (code : A → ℕ) (value : ℕ)
    → ((t : A) → from (code t) ≡ ok t)
    → IsMember code value (from value)
    → Finds from code value
finds from code value back m t = (m.known t, λ e. ap from (sym e) ∙ back t)

parquet_type-IsMember : (value : ℕ) → IsMember parquet_type_code value (parquet_type_from_i32 value)
unfolding parquet_type_from_i32
parquet_type-IsMember value = search (if-IsMember, invalid-IsMember) depth 20

encoding-IsMember : (value : ℕ) → IsMember encoding_code value (encoding_from_i32 value)
unfolding encoding_from_i32
encoding-IsMember value = search (if-IsMember, invalid-IsMember) depth 22

codec-IsMember : (value : ℕ) → IsMember codec_code value (codec_from_i32 value)
unfolding codec_from_i32
codec-IsMember value = search (if-IsMember, invalid-IsMember) depth 20

page_type-IsMember : (value : ℕ) → IsMember page_type_code value (page_type_from_i32 value)
unfolding page_type_from_i32
page_type-IsMember value = search (if-IsMember, invalid-IsMember) depth 12

repetition_type-IsMember :
    (value : ℕ) → IsMember repetition_type_code value (repetition_type_from_i32 value)
unfolding repetition_type_from_i32
repetition_type-IsMember value = search (if-IsMember, invalid-IsMember) depth 10

boundary_order-IsMember :
    (value : ℕ) → IsMember boundary_order_code value (boundary_order_from_i32 value)
unfolding boundary_order_from_i32
boundary_order-IsMember value = search (if-IsMember, invalid-IsMember) depth 10

algorithm-IsMember : (value : ℕ) → IsMember algorithm_code value (algorithm_from_i32 value)
unfolding algorithm_from_i32
algorithm-IsMember value = search (if-IsMember, invalid-IsMember) depth 14

converted_type-IsMember :
    (value : ℕ) → IsMember converted_type_code value (converted_type_from_i32 value)
unfolding converted_type_from_i32
converted_type-IsMember value = search (if-IsMember, invalid-IsMember) depth 48

-- For each of the eight enumerations and any number, `from_i32` finds a member exactly if the
-- number is the member's code.
pub from_i32_lem :
    (value : ℕ)
    → Finds parquet_type_from_i32 parquet_type_code value
      × Finds encoding_from_i32 encoding_code value
      × Finds codec_from_i32 codec_code value
      × Finds page_type_from_i32 page_type_code value
      × Finds repetition_type_from_i32 repetition_type_code value
      × Finds boundary_order_from_i32 boundary_order_code value
      × Finds algorithm_from_i32 algorithm_code value
      × Finds converted_type_from_i32 converted_type_code value
from_i32_lem value = (
  finds parquet_type_from_i32 parquet_type_code value parquet_type_from_i32-code
      (parquet_type-IsMember value),
  finds encoding_from_i32 encoding_code value encoding_from_i32-code (encoding-IsMember value),
  finds codec_from_i32 codec_code value codec_from_i32-code (codec-IsMember value),
  finds page_type_from_i32 page_type_code value page_type_from_i32-code (page_type-IsMember value),
  finds repetition_type_from_i32 repetition_type_code value repetition_type_from_i32-code
      (repetition_type-IsMember value),
  finds boundary_order_from_i32 boundary_order_code value boundary_order_from_i32-code
      (boundary_order-IsMember value),
  finds algorithm_from_i32 algorithm_code value algorithm_from_i32-code (algorithm-IsMember value),
  finds converted_type_from_i32 converted_type_code value converted_type_from_i32-code
      (converted_type-IsMember value),
)
