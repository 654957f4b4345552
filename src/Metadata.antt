-- ===== src/Metadata.antt =====
-- crates/ematix-parquet-format/src/metadata.rs: what its struct readers share. Each reads field
-- headers to the stop byte and matches on the id and the type; here the match is a function on what
-- has been read, and `read_struct` the loop.
pub mod Safety
pub mod Empty
pub mod Statistics
pub mod Page
pub mod Logical
pub mod Schema
pub mod Index
pub mod Crypto
pub mod Chunk
pub mod File
pub mod Stays
pub mod Tests
use Prim.Native.String.{String}
use ematix_parquet.Base.{ℕ, zero, suc, ◌==◌, ◌&&◌, Bool, Option, none, some, ok, err}
use ematix_parquet.Compact.{
  FieldHeader, FieldType, unknown_struct_field, missing_required_field, empty_union, out_of_fuel,
  Reader, ◌>>=◌, pure, remaining, read_field_header, is_type,
}

-- The sizes that the compiler gives to the elements of the lists of structs, in bytes:
-- `size_of::<T>()`.
pub record Layout : Type 0 where
  pub page_location : ℕ
  pub key_value : ℕ
  pub page_encoding_stats : ℕ
  pub schema_element : ℕ
  pub column_chunk : ℕ
  pub sorting_column : ℕ
  pub row_group : ℕ
  pub column_order : ℕ

abbrev pub unknown : {A : Type 0} → String → ℕ → Reader A
unknown struct_name field_id c = err (unknown_struct_field struct_name field_id)

-- `x.ok_or_else(|| missing(struct_name, field_id))`.
abbrev pub required : {A : Type 0} → String → ℕ → Option A → Reader A
required struct_name field_id none c = err (missing_required_field struct_name field_id)
required struct_name field_id (some a) c = ok (a, c)

-- `chosen.ok_or(FormatError::EmptyUnion { union_name })`.
abbrev pub chosen_of : {A : Type 0} → String → Option A → Reader A
chosen_of union_name none c = err (empty_union union_name)
chosen_of union_name (some a) c = ok (a, c)

-- A pattern `(id, FieldType::t)`.
abbrev pub is_field : FieldHeader → ℕ → FieldType → Bool
is_field h id t = h.id == id && is_type h.field_type t

-- The loop `while let Some(h) = read_field_header(cur, prev)?`, in rounds, each of which takes a
-- byte at least.
unfoldable pub read_fields : {S : Type 0} → ℕ → (FieldHeader → S → Reader S) → ℕ → S → Reader S
read_fields zero field prev s = λ c. err out_of_fuel
read_fields (suc rounds) field prev s = do
  header ← read_field_header prev
  elim header [ none ↦ pure s | some h ↦ field h s >>= λ s'. read_fields rounds field h.id s' ]

unfoldable pub read_struct :
    {A S : Type 0} → (FieldHeader → S → Reader S) → S → (S → Reader A) → Reader A
read_struct field start finish c =
    (do s ← read_fields (suc (remaining c)) field 0 start; finish s) c

-- A struct with no fields.
pub read_empty_struct : String → Reader (Unit {0})
read_empty_struct name = do
  header ← read_field_header 0
  elim header [ none ↦ pure tt | some h ↦ unknown name h.id ]
