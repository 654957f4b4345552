-- ===== src/MetadataWriter.antt =====
-- crates/ematix-parquet-format/src/metadata_writer.rs: what its struct writers share. A writer that
-- would panic gives `none`. A struct is written as the list of its fields, each behind the id of the
-- field written last, and then the stop byte.
pub mod Rules
pub mod Lists
pub mod Values
pub mod Page
pub mod Crypto
pub mod Chunk
pub mod File
pub mod RoundTrip
pub mod Panics
pub mod Refused
pub mod Tests
use ematix_parquet.Base.{ℕ, Bool, true, false, Option, none, some, List, [], ◌∷◌, length}
use ematix_parquet.Compact.{FieldType, bool_true, bool_false, struct}
use ematix_parquet.Types.{Encoding, encoding_code}
use ematix_parquet.CompactWriter.{
  Writer, write_list_i32, write_zigzag_i32, write_field_header, write_field_stop, write_list_header,
}

abbrev pub Encoder : Type 0 → Type 0
Encoder A = Writer → A → Option Writer

-- A writer that does not panic.
abbrev pub total : {A : Type 0} → (Writer → A → Writer) → Encoder A
total g w a = some (g w a)

-- `x as i32` of an enumeration.
abbrev pub write_code : {A : Type 0} → (A → ℕ) → Encoder A
write_code code w t = some (write_zigzag_i32 w (code t))

-- A struct without fields.
abbrev pub write_empty_struct : Encoder (Unit {0})
write_empty_struct w t = some (write_field_stop w)

-- The buffer, with the id of the field written last.
abbrev pub FieldWriter : Type 0
FieldWriter = Writer × ℕ → Option (Writer × ℕ)

abbrev pub written : ℕ → Option Writer → Option (Writer × ℕ)
written id none = none
written id (some w) = some (w, id)

unfoldable pub put : {A : Type 0} → ℕ → FieldType → Encoder A → A → FieldWriter
put id t g a (w, prev) = written id (g (write_field_header w id t prev) a)

-- `if let Some(a) = field`.
unfoldable pub put_opt : {A : Type 0} → ℕ → FieldType → Encoder A → Option A → FieldWriter
put_opt id t g none st = some st
put_opt id t g (some a) st = put id t g a st

abbrev pub bool_type : Bool → FieldType
bool_type true = bool_true
bool_type false = bool_false

-- A boolean stands in the header itself.
pub put_bool : ℕ → Option Bool → FieldWriter
put_bool id none st = some st
put_bool id (some b) (w, prev) = some (write_field_header w id (bool_type b) prev, id)

-- `if !flag`: only false is written.
pub put_unless : ℕ → Bool → FieldWriter
put_unless id true st = some st
put_unless id false (w, prev) = some (write_field_header w id bool_false prev, id)

-- `panic!` if the field is there.
unfoldable pub refuse : {A : Type 0} → Option A → FieldWriter
refuse none st = some st
refuse (some a) st = none

unfoldable pub write_fields : List FieldWriter → Writer × ℕ → Option Writer
write_fields [] (w, prev) = some (write_field_stop w)
write_fields (f ∷ fs) st = elim (f st) [ none ↦ none | some st' ↦ write_fields fs st' ]

unfoldable pub write_struct : List FieldWriter → Writer → Option Writer
write_struct fs w = write_fields fs (w, 0)

-- `for x in xs { encode(w, x) }`.
unfoldable pub encode_each : {A : Type 0} → Encoder A → Writer → List A → Option Writer
encode_each g w [] = some w
encode_each g w (x ∷ xs) = elim (g w x) [ none ↦ none | some w' ↦ encode_each g w' xs ]

unfoldable pub write_list_struct : {A : Type 0} → Encoder A → Encoder (List A)
write_list_struct g w xs = encode_each g (write_list_header w (length xs) struct) xs

-- `enc_values`.
abbrev pub codes_of : List Encoding → List ℕ
codes_of [] = []
codes_of (t ∷ ts) = encoding_code t ∷ codes_of ts

pub write_encodings : Encoder (List Encoding)
write_encodings w ts = some (write_list_i32 w (codes_of ts))
