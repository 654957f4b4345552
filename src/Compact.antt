-- ===== src/Compact.antt =====
-- crates/ematix-parquet-format/src/compact.rs and error.rs: the Thrift compact-protocol readers.
-- A byte slice is a list of numbers below 256. A signed integer of w bits is its bit pattern, a
-- number below 2 ^ w. A reader takes the cursor to the value and the moved cursor; after an
-- error the source drops the cursor, so the model returns none.
pub mod Wire
pub mod At
pub mod Varint
pub mod Headers
pub mod Lists
pub mod Outcome
pub mod Bounds
pub mod Tests
use Prim.Native.String.{String}
use ematix_parquet.Base.{
  ℕ, zero, suc, ◌+◌, ◌-◌, ◌*◌, ◌/◌, ◌%◌, ◌^◌, bit_and, bit_or, bit_xor, ltb, leb, ◌==◌, ◌||◌,
  if◌then◌else◌, Bool, true, false, Option, none, some, List, [], ◌∷◌, Result, ok, err, length,
  get_or, take, drop,
}

pub data FieldType : Type 0 where
  bool_true bool_false byte i16 i32 i64 double binary list_of set_of map_of struct : FieldType

-- Two that are no errors of the source: `capacity_overflow` is the panic of a `Vec::with_capacity`,
-- and `out_of_fuel` marks a loop of the model that was cut short.
pub data FormatError : Type 0 where
  unexpected_eof : ℕ → ℕ → FormatError
  varint_overflow : FormatError
  invalid_enum_value : String → ℕ → FormatError
  invalid_field_type : ℕ → FormatError
  unknown_struct_field : String → ℕ → FormatError
  missing_required_field : String → ℕ → FormatError
  unexpected_field_type : String → ℕ → FormatError
  unexpected_list_element_type : FieldType → FieldType → FormatError
  empty_union : String → FormatError
  invalid_bool_byte : ℕ → FormatError
  capacity_overflow : FormatError
  out_of_fuel : FormatError

pub record Cursor : Type 0 where
  pub buf : List ℕ
  pub pos : ℕ

-- The methods of `Cursor` that only look.
abbrev pub new_cursor : List ℕ → Cursor
new_cursor bytes = record { buf = bytes; pos = 0 }

abbrev pub remaining : Cursor → ℕ
remaining c = length c.buf - c.pos

abbrev pub is_empty : Cursor → Bool
is_empty c = leb (length c.buf) c.pos

abbrev pub advance : ℕ → Cursor → Cursor
advance n c = record c { pos = c.pos + n }

abbrev pub Reader : Type 0 → Type 0
Reader A = Cursor → Result FormatError (A × Cursor)

infixl 5 ◌>>=◌
abbrev pub ◌>>=◌ : {A B : Type 0} → Reader A → (A → Reader B) → Reader B
◌>>=◌ m f c = elim (m c) [ ok (a, c') ↦ f a c' | err e ↦ err e ]

abbrev pub pure : {A : Type 0} → A → Reader A
pure a c = ok (a, c)

-- `?` on a result that does not involve the cursor.
abbrev pub from_result : {A : Type 0} → Result FormatError A → Reader A
from_result (ok a) c = ok (a, c)
from_result (err e) c = err e

unfoldable pub read_u8 : Reader ℕ
read_u8 c =
    if leb (length c.buf) c.pos
    then err (unexpected_eof 1 0)
    else ok (get_or c.buf c.pos 0, advance 1 c)

unfoldable pub take_bytes : ℕ → Reader (List ℕ)
take_bytes n c =
    if ltb (remaining c) n
    then err (unexpected_eof n (remaining c))
    else ok (take n (drop c.pos c.buf), advance n c)

-- One round for each of the ten bytes: `result |= ((byte & 0x7F) as u64) << shift`.
unfoldable pub uvarint_rounds : ℕ → ℕ → ℕ → Reader ℕ
uvarint_rounds zero result shift = λ c. err varint_overflow
uvarint_rounds (suc rounds) result shift = do
  b ← read_u8
  let result' = bit_or result (bit_and b 0x7f * 2 ^ shift % 2 ^ 64)
  let rest = uvarint_rounds rounds result' (shift + 7)
  if bit_and b 0x80 == 0 then pure result' else rest

unfoldable pub read_uvarint : Reader ℕ
read_uvarint = uvarint_rounds 10 0 0

-- `((u >> 1) as iw) ^ -((u & 1) as iw)` on bit patterns of `w` bits.
pub unzigzag : ℕ → ℕ → ℕ
unzigzag w u = bit_xor (u / 2) ((2 ^ w - bit_and u 1) % 2 ^ w)

pub read_zigzag_i32 : Reader ℕ
read_zigzag_i32 = do u ← read_uvarint; pure (unzigzag 32 (u % 2 ^ 32))

pub read_zigzag_i64 : Reader ℕ
read_zigzag_i64 = do u ← read_uvarint; pure (unzigzag 64 u)

-- `as i8` keeps the bit pattern.
pub read_i8 : Reader ℕ
read_i8 = read_u8

pub read_zigzag_i16 : Reader ℕ
read_zigzag_i16 = do v ← read_zigzag_i32; pure (v % 2 ^ 16)

pub decode_field_type : ℕ → Result FormatError FieldType
decode_field_type n =
    if n == 1
    then ok bool_true
    else if n == 2
    then ok bool_false
    else if n == 3
    then ok byte
    else if n == 4
    then ok i16
    else if n == 5
    then ok i32
    else if n == 6
    then ok i64
    else if n == 7
    then ok double
    else if n == 8
    then ok binary
    else if n == 9
    then ok list_of
    else if n == 10
    then ok set_of
    else if n == 11
    then ok map_of
    else if n == 12
    then ok struct
    else err (invalid_field_type n)

pub record FieldHeader : Type 0 where
  pub id : ℕ
  pub field_type : FieldType

-- `delta == 0` is the long form. `prev_id + delta as i16` wraps, as in a release build.
pub field_id : ℕ → ℕ → Reader ℕ
field_id prev_id delta =
    if delta == 0
    then (do z ← read_zigzag_i32; pure (z % 2 ^ 16))
    else pure ((prev_id + delta) % 2 ^ 16)

pub read_field_header : ℕ → Reader (Option FieldHeader)
unfolding field_id
read_field_header prev_id = do
  header ← read_u8
  let body : Reader (Option FieldHeader) = do
    field_type ← from_result (decode_field_type (bit_and header 0x0f))
    id ← field_id prev_id (bit_and header 0xf0 / 2 ^ 4)
    pure (some (record { id = id; field_type = field_type }))
  if header == 0 then pure none else body

pub read_list_header : Reader (ℕ × FieldType)
read_list_header = do
  header ← read_u8
  element_type ← from_result (decode_field_type (bit_and header 0x0f))
  let high = bit_and header 0xf0 / 2 ^ 4
  count ← if ltb high 0x0f then pure high else read_uvarint
  pure (count, element_type)

pub read_binary : Reader (List ℕ)
read_binary = do len ← read_uvarint; take_bytes len

-- `for _ in 0..n { out.push(one(cur)?) }`, and `(0..n).map(one).collect()`.
unfoldable pub times : {A : Type 0} → ℕ → Reader A → Reader (List A)
times zero one = pure []
times (suc n) one = do x ← one; xs ← times n one; pure (x ∷ xs)

-- The element type's code is what `matches!` compares.
abbrev pub field_code : FieldType → ℕ
field_code bool_true = 1
field_code bool_false = 2
field_code byte = 3
field_code i16 = 4
field_code i32 = 5
field_code i64 = 6
field_code double = 7
field_code binary = 8
field_code list_of = 9
field_code set_of = 10
field_code map_of = 11
field_code struct = 12

abbrev pub is_type : FieldType → FieldType → Bool
is_type a b = field_code a == field_code b

-- A list whose header must name the element type `et`.
pub read_list : {A : Type 0} → FieldType → Reader A → Reader (List A)
read_list et one = do
  (n, actual) ← read_list_header
  let body = times n one
  if is_type actual et then body else (λ c. err (unexpected_list_element_type et actual))

pub read_list_i32 : Reader (List ℕ)
read_list_i32 = read_list i32 read_zigzag_i32

pub read_list_i64 : Reader (List ℕ)
read_list_i64 = read_list i64 read_zigzag_i64

pub read_list_binary : Reader (List (List ℕ))
read_list_binary = read_list binary read_binary

-- `Vec::with_capacity(n)` for elements of `size` bytes, in front of the rest: it panics above
-- isize::MAX bytes.
abbrev pub with_capacity : {A : Type 0} → ℕ → ℕ → Reader A → Reader A
with_capacity n size rest =
    if ltb (2 ^ 63 - 1) (n * size) then (λ c. err capacity_overflow) else rest

-- The size of the element type, `size_of::<T>()`, is a parameter.
pub read_list_struct : {A : Type 0} → ℕ → Reader A → Reader (List A)
read_list_struct size decode_one = do
  (n, actual) ← read_list_header
  let body = with_capacity n size (times n decode_one)
  if is_type actual struct then body else (λ c. err (unexpected_list_element_type struct actual))

pub bool_byte : ℕ → Result FormatError Bool
bool_byte b =
    if b == 0x01 then ok true else if b == 0x02 then ok false else err (invalid_bool_byte b)

pub read_bool : Reader Bool
read_bool = do b ← read_u8; from_result (bool_byte b)

-- Either code of a boolean is taken; an error names `BoolTrue` as the one expected.
pub read_list_bool : Reader (List Bool)
read_list_bool = do
  (n, actual) ← read_list_header
  let body = with_capacity n 1 (times n read_bool)
  if is_type actual bool_true || is_type actual bool_false
      then body
      else (λ c. err (unexpected_list_element_type bool_true actual))
