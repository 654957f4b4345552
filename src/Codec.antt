-- ===== src/Codec.antt =====
-- crates/ematix-parquet-codec/src/error.rs, and `?` from the format crate's errors to its own.
pub mod At
use Prim.Native.String.{String}
use ematix_parquet.Base.{ℕ, ◌*◌, ◌-◌, ◌^◌, Bool, ltb, false, Option, none, some, Result, ok, err}
use ematix_parquet.Compact.{FormatError, Cursor, Reader}
use ematix_parquet.Compact.Outcome.{Allowed}

-- Two that are no errors of the source: `panicked` is a panic of it, for an index out of bounds or
-- for a capacity above isize::MAX bytes, and `out_of_fuel` marks a loop of the model that was cut
-- short.
pub data CodecError : Type 0 where
  wire_error : FormatError → CodecError
  decompress : String → CodecError
  unaligned_plain_buffer : ℕ → ℕ → CodecError
  underflowing_plain_buffer : ℕ → ℕ → ℕ → CodecError
  bit_width_out_of_range : ℕ → CodecError
  empty_dict_page_body : CodecError
  dict_index_out_of_range : ℕ → ℕ → CodecError
  invalid_input : String → CodecError
  unsupported : String → CodecError
  cancelled : CodecError
  panicked : CodecError
  out_of_fuel : CodecError

abbrev pub CodecReader : Type 0 → Type 0
CodecReader A = Cursor → Result CodecError (A × Cursor)

infixl 5 ◌>>=◌
abbrev pub ◌>>=◌ : {A B : Type 0} → CodecReader A → (A → CodecReader B) → CodecReader B
◌>>=◌ m f c = elim (m c) [ ok (a, c') ↦ f a c' | err e ↦ err e ]

abbrev pub pure : {A : Type 0} → A → CodecReader A
pure a c = ok (a, c)

-- A reader of the format crate under `?`.
abbrev pub wire : {A : Type 0} → Reader A → CodecReader A
wire m c = elim (m c) [ ok r ↦ ok r | err e ↦ err (wire_error e) ]

-- An outcome that the source has: one of its errors, or a panic.
abbrev pub IsOutcome : CodecError → Type 0
IsOutcome (wire_error e) = Allowed false e
IsOutcome out_of_fuel = ⊥
IsOutcome _ = Unit {0}

-- A vector of that many values of `size` bytes is larger than isize::MAX bytes: to allocate it
-- panics.
abbrev pub over_capacity : ℕ → ℕ → Bool
over_capacity num_values size = ltb (2 ^ 63 - 1) (num_values * size)

-- What an index out of bounds does.
abbrev pub or_panic : {A : Type 0} → Option A → CodecReader A
or_panic none c = err panicked
or_panic (some a) c = ok (a, c)
