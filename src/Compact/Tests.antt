-- ===== src/Compact/Tests.antt =====
-- The readers at concrete bytes.
use ematix_parquet.Base.{ℕ, ◌≡◌, refl, arith, List, [], ◌∷◌, ok, err}
use ematix_parquet.Compact.{
  Cursor, new_cursor, read_u8, read_uvarint, read_list_header, read_list_bool, read_list_struct,
  uvarint_rounds, varint_overflow, capacity_overflow, decode_field_type,
}
use ematix_parquet.Compact.Varint.{read_uvarint-unended}

abbrev sample : Cursor
sample = new_cursor (0xac ∷ 0x02 ∷ 0x15 ∷ [])

read_uvarint_300 : read_uvarint sample ≡ ok (300, record { buf = sample.buf; pos = 2 })
unfolding read_uvarint uvarint_rounds read_u8
read_uvarint_300 = refl

-- A list of 2^63 booleans is announced: the vector for them panics, as does one of structs.
huge_list_bool :
    read_list_bool
      (new_cursor (0xf1 ∷ 0x80 ∷ 0x80 ∷ 0x80 ∷ 0x80 ∷ 0x80 ∷ 0x80 ∷ 0x80 ∷ 0x80 ∷ 0x80 ∷ 0x01 ∷ []))
    ≡ err capacity_overflow
unfolding read_list_bool read_list_header decode_field_type read_uvarint uvarint_rounds read_u8
huge_list_bool = refl

huge_list_struct :
    read_list_struct 8 read_u8
      (new_cursor (0xfc ∷ 0x80 ∷ 0x80 ∷ 0x80 ∷ 0x80 ∷ 0x80 ∷ 0x80 ∷ 0x80 ∷ 0x80 ∷ 0x10 ∷ []))
    ≡ err capacity_overflow
unfolding read_list_struct read_list_header decode_field_type read_uvarint uvarint_rounds read_u8
huge_list_struct = refl

abbrev ten_bytes : List ℕ
ten_bytes = 0x80 ∷ 0x81 ∷ 0x82 ∷ 0x83 ∷ 0x84 ∷ 0x85 ∷ 0x86 ∷ 0x87 ∷ 0x88 ∷ 0x89 ∷ []

read_uvarint-unended_example : read_uvarint (new_cursor ten_bytes) ≡ err varint_overflow
read_uvarint-unended_example =
    read_uvarint-unended ten_bytes (new_cursor ten_bytes) (ground arith) refl
