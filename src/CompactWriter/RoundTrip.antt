-- ===== src/CompactWriter/RoundTrip.antt =====
-- The readers of compact.rs on what the writers of compact_writer.rs append: behind any bytes
-- already written, and in front of any others.
use ematix_parquet.Base.{
  ℕ, ◌^◌, ◌≤◌, ◌<◌, ◌≡◌, refl, sym, ap, ◌∙◌, List, [], ◌∷◌, ◌++◌, append_assoc, length,
  length-append, some, none, Bool, false, ok, err, All, drop,
}
use ematix_parquet.Compact.{
  Cursor, Reader, FieldType, i32, i64, binary, read_uvarint, read_zigzag_i16, read_zigzag_i32,
  read_zigzag_i64, read_field_header, read_list_header, read_binary, read_list_i32, read_list_i64,
  read_list_binary, read_list_bool, is_type, unexpected_list_element_type,
}
use ematix_parquet.Compact.At.{At, Reads, drop_prefix}
use ematix_parquet.Compact.Headers.{field_stop-Reads}
use ematix_parquet.Compact.Lists.{list_i32_wrong, list_i64_wrong, list_binary_wrong}
use ematix_parquet.Compact.Wire.{IsLeb, leb_value}
use ematix_parquet.CompactWriter.{
  Writer, write_uvarint, write_zigzag_i16, write_zigzag_i32, write_zigzag_i64, write_field_header,
  write_field_stop, write_list_header, write_binary, write_list_i32, write_list_i64,
  write_list_binary, write_list_bool,
}
use ematix_parquet.CompactWriter.Headers.{
  zigzag_i16_round_trip, write_zigzag_i16-append, field_header_round_trip,
  write_field_header-append, list_header_round_trip, write_list_header-append, binary_round_trip,
  write_binary-append,
}
use ematix_parquet.CompactWriter.Lists.{
  list_i32_round_trip, list_i64_round_trip, list_binary_round_trip, list_bool_round_trip,
  write_list_i32-append, write_list_i64-append, write_list_binary-append, write_list_bool-append,
}
use ematix_parquet.CompactWriter.Varint.{
  write_uvarint-append, write_uvarint-Spells, write_uvarint-some, uvarint_round_trip,
  zigzag_i32_round_trip, zigzag_i64_round_trip, write_zigzag_i32-append, write_zigzag_i64-append,
}

-- A cursor in `bytes` behind what `w` had written.
abbrev pub behind : Writer → List ℕ → Cursor
behind w bytes = record { buf = bytes; pos = length w }

At-behind : (w bs rest : List ℕ) → At (behind w ((w ++ bs) ++ rest)) (bs ++ rest)
At-behind w bs rest = ap (drop (length w)) (append_assoc w bs rest) ∙ drop_prefix w (bs ++ rest)

-- A writer that appends `bs` to `w`, and a reader of `bs`.
read_back :
    {A : Type 0} (p : Reader A) (bs : List ℕ) (a : A) (w written rest : List ℕ)
    → Reads p bs a
    → written ≡ w ++ bs
    → p (behind w (written ++ rest)) ≡ ok (a, behind written (written ++ rest))
read_back p bs a w written rest r e = rw e (
    r (behind w ((w ++ bs) ++ rest)) rest (At-behind w bs rest)
    ∙ ap (λ n. ok (a, record { buf = (w ++ bs) ++ rest; pos = n })) (sym (length-append w bs)))

-- `write_uvarint` of a u64 keeps what was written and appends 1 to 10 bytes, a LEB128 form of the
-- number: the last byte, and no other, is below 128.
pub write_uvarint_shape :
    (w : Writer) (v : ℕ)
    → v < 2 ^ 64
    → (bs : List ℕ) × (write_uvarint w v ≡ w ++ bs)
      × IsLeb bs
      × (leb_value bs ≡ v)
      × (1 ≤ length bs)
      × (length bs ≤ 10)
write_uvarint_shape w v h =
    let s = write_uvarint-Spells v h in
    (write_uvarint [] v, write_uvarint-append w v, s.leb, s.value, write_uvarint-some v h, s.short)

-- `read_uvarint` reads back every u64 that `write_uvarint` wrote behind any bytes and in front of
-- any others, and ends right behind it.
pub read_uvarint-write :
    (w rest : List ℕ) (v : ℕ)
    → v < 2 ^ 64
    → let bytes = write_uvarint w v ++ rest in
      read_uvarint (behind w bytes) ≡ ok (v, behind (write_uvarint w v) bytes)
read_uvarint-write w rest v h =
    read_back read_uvarint (write_uvarint [] v) v w _ rest (uvarint_round_trip v h)
      (write_uvarint-append w v)

-- `read_zigzag_i32` reads back every i32, given by its bit pattern, that `write_zigzag_i32` wrote,
-- and ends right behind it.
pub read_zigzag_i32-write :
    (w rest : List ℕ) (v : ℕ)
    → v < 2 ^ 32
    → let bytes = write_zigzag_i32 w v ++ rest in
      read_zigzag_i32 (behind w bytes) ≡ ok (v, behind (write_zigzag_i32 w v) bytes)
read_zigzag_i32-write w rest v h =
    read_back read_zigzag_i32 (write_zigzag_i32 [] v) v w _ rest (zigzag_i32_round_trip v h)
      (write_zigzag_i32-append w v)

-- `read_zigzag_i64` reads back every i64, given by its bit pattern, that `write_zigzag_i64` wrote,
-- and ends right behind it.
pub read_zigzag_i64-write :
    (w rest : List ℕ) (v : ℕ)
    → v < 2 ^ 64
    → let bytes = write_zigzag_i64 w v ++ rest in
      read_zigzag_i64 (behind w bytes) ≡ ok (v, behind (write_zigzag_i64 w v) bytes)
read_zigzag_i64-write w rest v h =
    read_back read_zigzag_i64 (write_zigzag_i64 [] v) v w _ rest (zigzag_i64_round_trip v h)
      (write_zigzag_i64-append w v)

-- `read_zigzag_i16` reads back every i16, given by its bit pattern, that `write_zigzag_i16` wrote,
-- and ends right behind it.
pub read_zigzag_i16-write :
    (w rest : List ℕ) (v : ℕ)
    → v < 2 ^ 16
    → let bytes = write_zigzag_i16 w v ++ rest in
      read_zigzag_i16 (behind w bytes) ≡ ok (v, behind (write_zigzag_i16 w v) bytes)
read_zigzag_i16-write w rest v h =
    read_back read_zigzag_i16 (write_zigzag_i16 [] v) v w _ rest (zigzag_i16_round_trip v h)
      (write_zigzag_i16-append w v)

-- For any two i16 ids, given by their bit patterns, and any field type, `read_field_header` reads
-- back the id and the type that `write_field_header` wrote, in the short form and in the long one,
-- and ends right behind them.
pub read_field_header-write :
    (w rest : List ℕ) (id prev : ℕ) (t : FieldType)
    → id < 2 ^ 16
    → prev < 2 ^ 16
    → let bytes = write_field_header w id t prev ++ rest in
      read_field_header prev (behind w bytes)
      ≡ ok
          (some (record { id = id; field_type = t }), behind (write_field_header w id t prev) bytes)
read_field_header-write w rest id prev t hi hp =
    read_back (read_field_header prev) (write_field_header [] id t prev) _ w _ rest
      (field_header_round_trip id prev t hi hp) (write_field_header-append w id t prev)

-- `read_field_header` reads what `write_field_stop` wrote as the end of the struct, behind any
-- field id, and ends right behind it.
pub read_field_header-write_stop :
    (w rest : List ℕ) (prev : ℕ)
    → let bytes = write_field_stop w ++ rest in
      read_field_header prev (behind w bytes) ≡ ok (none, behind (write_field_stop w) bytes)
unfolding write_field_stop
read_field_header-write_stop w rest prev =
    read_back (read_field_header prev) (0x00 ∷ []) none w _ rest (field_stop-Reads prev) refl

-- `read_list_header` reads back the count, a u64, and the element type that `write_list_header`
-- wrote, and ends right behind it.
pub read_list_header-write :
    (w rest : List ℕ) (n : ℕ) (t : FieldType)
    → n < 2 ^ 64
    → let bytes = write_list_header w n t ++ rest in
      read_list_header (behind w bytes) ≡ ok ((n, t), behind (write_list_header w n t) bytes)
read_list_header-write w rest n t h =
    read_back read_list_header (write_list_header [] n t) (n, t) w _ rest
      (list_header_round_trip n t h) (write_list_header-append w n t)

-- `read_binary` reads back the byte string, of a length below 2^64, that `write_binary` wrote, and
-- ends right behind it.
pub read_binary-write :
    (w rest bs : List ℕ)
    → length bs < 2 ^ 64
    → let bytes = write_binary w bs ++ rest in
      read_binary (behind w bytes) ≡ ok (bs, behind (write_binary w bs) bytes)
read_binary-write w rest bs h =
    read_back read_binary (write_binary [] bs) bs w _ rest (binary_round_trip bs h)
      (write_binary-append w bs)

-- `read_list_i32` reads back the list of fewer than 2^64 i32 patterns that `write_list_i32` wrote,
-- and ends right behind it.
pub read_list_i32-write :
    (w rest xs : List ℕ)
    → length xs < 2 ^ 64
    → All (λ x. x < 2 ^ 32) xs
    → let bytes = write_list_i32 w xs ++ rest in
      read_list_i32 (behind w bytes) ≡ ok (xs, behind (write_list_i32 w xs) bytes)
read_list_i32-write w rest xs len h =
    read_back read_list_i32 (write_list_i32 [] xs) xs w _ rest (list_i32_round_trip xs len h)
      (write_list_i32-append w xs)

-- `read_list_i64` reads back the list of fewer than 2^64 i64 patterns that `write_list_i64` wrote,
-- and ends right behind it.
pub read_list_i64-write :
    (w rest xs : List ℕ)
    → length xs < 2 ^ 64
    → All (λ x. x < 2 ^ 64) xs
    → let bytes = write_list_i64 w xs ++ rest in
      read_list_i64 (behind w bytes) ≡ ok (xs, behind (write_list_i64 w xs) bytes)
read_list_i64-write w rest xs len h =
    read_back read_list_i64 (write_list_i64 [] xs) xs w _ rest (list_i64_round_trip xs len h)
      (write_list_i64-append w xs)

-- `read_list_binary` reads back the list of fewer than 2^64 byte strings, each shorter than 2^64,
-- that `write_list_binary` wrote, and ends right behind it.
pub read_list_binary-write :
    (w rest : List ℕ) (xs : List (List ℕ))
    → length xs < 2 ^ 64
    → All (λ x. length x < 2 ^ 64) xs
    → let bytes = write_list_binary w xs ++ rest in
      read_list_binary (behind w bytes) ≡ ok (xs, behind (write_list_binary w xs) bytes)
read_list_binary-write w rest xs len h =
    read_back read_list_binary (write_list_binary [] xs) xs w _ rest
      (list_binary_round_trip xs len h) (write_list_binary-append w xs)

-- `read_list_bool` reads back the list of fewer than 2^63 booleans that `write_list_bool` wrote,
-- and ends right behind it.
pub read_list_bool-write :
    (w rest : List ℕ) (xs : List Bool)
    → length xs < 2 ^ 63
    → let bytes = write_list_bool w xs ++ rest in
      read_list_bool (behind w bytes) ≡ ok (xs, behind (write_list_bool w xs) bytes)
read_list_bool-write w rest xs len =
    read_back read_list_bool (write_list_bool [] xs) xs w _ rest (list_bool_round_trip xs len)
      (write_list_bool-append w xs)

-- Behind a list header with a u64 count and an element type other than i32, i64 and binary, the
-- readers of i32, i64 and binary lists fail with the expected and the actual type, whatever
-- follows.
pub read_list_refuses :
    (w rest : List ℕ) (n : ℕ) (t : FieldType)
    → n < 2 ^ 64
    → is_type t i32 ≡ false
    → is_type t i64 ≡ false
    → is_type t binary ≡ false
    → let c = behind w (write_list_header w n t ++ rest) in
      (read_list_i32 c ≡ err (unexpected_list_element_type i32 t))
      × (read_list_i64 c ≡ err (unexpected_list_element_type i64 t))
      × (read_list_binary c ≡ err (unexpected_list_element_type binary t))
read_list_refuses w rest n t h no_i32 no_i64 no_binary =
    let header : List ℕ = write_list_header [] n t in
    let r : Reads read_list_header header (n, t) = list_header_round_trip n t h in
    let at : At (behind w ((w ++ header) ++ rest)) (header ++ rest) = At-behind w header rest in
    rw (write_list_header-append w n t) (
      list_i32_wrong header n t r no_i32 _ rest at,
      list_i64_wrong header n t r no_i64 _ rest at,
      list_binary_wrong header n t r no_binary _ rest at,
    )

-- The reader takes back what the writer wrote behind `w` and in front of `rest`, and ends right
-- behind it.
abbrev pub TakesBack :
    {A : Type 0} → Reader A → (Writer → A → Writer) → Writer → List ℕ → A → Type 0
TakesBack p write w rest a =
    let bytes = write w a ++ rest in p (behind w bytes) ≡ ok (a, behind (write w a) bytes)

-- `read_zigzag_i16`, `read_zigzag_i32` and `read_zigzag_i64` read back every i16, i32 and i64,
-- given by its bit pattern, that the writer of the same name wrote behind any bytes and in front of
-- any others, and end right behind it.
pub read_zigzag-write :
    (w rest : List ℕ) (a b c : ℕ)
    → a < 2 ^ 16
    → b < 2 ^ 32
    → c < 2 ^ 64
    → TakesBack read_zigzag_i16 write_zigzag_i16 w rest a
      × TakesBack read_zigzag_i32 write_zigzag_i32 w rest b
      × TakesBack read_zigzag_i64 write_zigzag_i64 w rest c
read_zigzag-write w rest a b c ha hb hc = (
  read_zigzag_i16-write w rest a ha,
  read_zigzag_i32-write w rest b hb,
  read_zigzag_i64-write w rest c hc,
)

-- The readers of lists of i32, i64, byte strings and booleans read back the list of fewer than 2^64
-- values of the type, of booleans fewer than 2^63, byte strings shorter than 2^64, that the writer
-- of the same name wrote behind any bytes and in front of any others, and end right behind it.
pub read_list-write :
    (w rest : List ℕ) (is bs : List ℕ) (cs : List (List ℕ)) (ds : List Bool)
    → length is < 2 ^ 64
    → All (λ x. x < 2 ^ 32) is
    → length bs < 2 ^ 64
    → All (λ x. x < 2 ^ 64) bs
    → length cs < 2 ^ 64
    → All (λ x. length x < 2 ^ 64) cs
    → length ds < 2 ^ 63
    → TakesBack read_list_i32 write_list_i32 w rest is
      × TakesBack read_list_i64 write_list_i64 w rest bs
      × TakesBack read_list_binary write_list_binary w rest cs
      × TakesBack read_list_bool write_list_bool w rest ds
read_list-write w rest is bs cs ds few_is his few_bs hbs few_cs hcs few_ds = (
  read_list_i32-write w rest is few_is his,
  read_list_i64-write w rest bs few_bs hbs,
  read_list_binary-write w rest cs few_cs hcs,
  read_list_bool-write w rest ds few_ds,
)
