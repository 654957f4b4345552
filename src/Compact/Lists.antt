-- ===== src/Compact/Lists.antt =====
-- The list readers: a header that names the element type, then the elements.
use ematix_parquet.Base.{
  ℕ, All, ◌*◌, ◌-◌, ◌^◌, ◌<◌, ltb, ◌≡◌, arith, List, [], ◌∷◌, ◌++◌, length, true, false, Bool,
  if◌then◌else◌, err,
}
use ematix_parquet.Compact.{
  Cursor, Reader, FieldType, times, read_list_header, read_list, read_list_i32, read_list_i64,
  read_list_binary, read_list_struct, read_list_bool, read_zigzag_i32, read_zigzag_i64, read_binary,
  is_type, bool_byte, read_bool, ◌>>=◌, bool_true, i32, i64, binary, struct,
  unexpected_list_element_type,
}
use ematix_parquet.Compact.At.{At, Reads, Reads-bind, Reads-pure, Reads-map, Reads-u8}
use ematix_parquet.Compact.Wire.{each}

is_type_self : (t : FieldType) → is_type t t ≡ true
is_type_self t = ground arith

module _ {A : Type 0} where
  -- `times` reads the items one after the other, if `one` reads each.
  pub times-Reads :
      (P : A → Type 0) (one : Reader A) (f : A → List ℕ)
      → ((x : A) → P x → Reads one (f x) x)
      → (xs : List A) → All P xs
      → Reads (times (length xs) one) (each f xs) xs
  unfolding times
  times-Reads P one f r [] h = Reads-pure []
  times-Reads P one f r (x ∷ xs) (hx, hxs) =
      Reads-bind one _ (f x) (each f xs) x (x ∷ xs) (r x hx) (
        Reads-map (times (length xs) one) (λ ys. x ∷ ys) (each f xs) xs
          (times-Reads P one f r xs hxs))

  -- A header with the right type, then as many items as it says.
  pub read_list-Reads :
      (t : FieldType) (one : Reader A) (header body : List ℕ) (xs : List A)
      → Reads read_list_header header (length xs, t)
      → Reads (times (length xs) one) body xs
      → Reads (read_list t one) (header ++ body) xs
  unfolding read_list
  read_list-Reads t one header body xs rh rb =
      Reads-bind read_list_header _ header body (length xs, t) xs rh (rw (is_type_self t) rb)

  -- A header with another type is refused, with both types, before any item is read.
  pub read_list_wrong :
      (t : FieldType) (one : Reader A) (header : List ℕ) (n : ℕ) (actual : FieldType)
      → Reads read_list_header header (n, actual)
      → is_type actual t ≡ false
      → (c : Cursor) (rest : List ℕ) → At c (header ++ rest)
      → read_list t one c ≡ err (unexpected_list_element_type t actual)
  unfolding read_list
  read_list_wrong t one header n actual rh wrong c rest h = rw (rh c rest h, ◌>>=◌, wrong)

-- The element types of the instances.
pub list_i32-Reads :
    (header body : List ℕ) (xs : List ℕ)
    → Reads read_list_header header (length xs, i32)
    → Reads (times (length xs) read_zigzag_i32) body xs
    → Reads read_list_i32 (header ++ body) xs
unfolding read_list_i32
list_i32-Reads header body xs rh rb = read_list-Reads i32 read_zigzag_i32 header body xs rh rb

pub list_i64-Reads :
    (header body : List ℕ) (xs : List ℕ)
    → Reads read_list_header header (length xs, i64)
    → Reads (times (length xs) read_zigzag_i64) body xs
    → Reads read_list_i64 (header ++ body) xs
unfolding read_list_i64
list_i64-Reads header body xs rh rb = read_list-Reads i64 read_zigzag_i64 header body xs rh rb

pub list_binary-Reads :
    (header body : List ℕ) (xs : List (List ℕ))
    → Reads read_list_header header (length xs, binary)
    → Reads (times (length xs) read_binary) body xs
    → Reads read_list_binary (header ++ body) xs
unfolding read_list_binary
list_binary-Reads header body xs rh rb = read_list-Reads binary read_binary header body xs rh rb

pub list_struct-Reads :
    {A : Type 0} (size : ℕ) (one : Reader A) (header body : List ℕ) (xs : List A)
    → length xs * size < 2 ^ 63
    → Reads read_list_header header (length xs, struct)
    → Reads (times (length xs) one) body xs
    → Reads (read_list_struct size one) (header ++ body) xs
unfolding read_list_struct
list_struct-Reads size one header body xs room rh rb =
    let fits : ltb (2 ^ 63 - 1) (length xs * size) ≡ false = ground arith in
    Reads-bind read_list_header _ header body (length xs, struct) xs rh (rw fits rb)

-- 0x01 is true and 0x02 is false.
pub bool-Reads : (v : Bool) → Reads read_bool ((if v then 0x01 else 0x02) ∷ []) v
unfolding read_bool bool_byte
bool-Reads true c rest h = rw (Reads-u8 0x01 c rest h, ◌>>=◌)
bool-Reads false c rest h = rw (Reads-u8 0x02 c rest h, ◌>>=◌)

pub list_bool-Reads :
    (header body : List ℕ) (xs : List Bool)
    → length xs < 2 ^ 63
    → Reads read_list_header header (length xs, bool_true)
    → Reads (times (length xs) read_bool) body xs
    → Reads read_list_bool (header ++ body) xs
unfolding read_list_bool
list_bool-Reads header body xs room rh rb =
    let fits : ltb (2 ^ 63 - 1) (length xs * 1) ≡ false = ground arith in
    Reads-bind read_list_header _ header body (length xs, bool_true) xs rh (rw fits rb)

pub list_i32_wrong :
    (header : List ℕ) (n : ℕ) (actual : FieldType)
    → Reads read_list_header header (n, actual)
    → is_type actual i32 ≡ false
    → (c : Cursor) (rest : List ℕ) → At c (header ++ rest)
    → read_list_i32 c ≡ err (unexpected_list_element_type i32 actual)
unfolding read_list_i32
list_i32_wrong header n actual r wrong = read_list_wrong i32 read_zigzag_i32 header n actual r wrong

pub list_i64_wrong :
    (header : List ℕ) (n : ℕ) (actual : FieldType)
    → Reads read_list_header header (n, actual)
    → is_type actual i64 ≡ false
    → (c : Cursor) (rest : List ℕ) → At c (header ++ rest)
    → read_list_i64 c ≡ err (unexpected_list_element_type i64 actual)
unfolding read_list_i64
list_i64_wrong header n actual r wrong = read_list_wrong i64 read_zigzag_i64 header n actual r wrong

pub list_binary_wrong :
    (header : List ℕ) (n : ℕ) (actual : FieldType)
    → Reads read_list_header header (n, actual)
    → is_type actual binary ≡ false
    → (c : Cursor) (rest : List ℕ) → At c (header ++ rest)
    → read_list_binary c ≡ err (unexpected_list_element_type binary actual)
unfolding read_list_binary
list_binary_wrong header n actual r wrong =
    read_list_wrong binary read_binary header n actual r wrong
