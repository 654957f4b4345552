-- ===== src/CompactWriter/Tests.antt =====
-- The writers and their readers at concrete inputs.
use ematix_parquet.Base.{
  ℕ, ◌^◌, ◌-◌, ◌≤◌, ◌≡◌, refl, arith, List, [], ◌∷◌, ◌++◌, length, some, none, lt_wf, dec_le, Bool,
  true, false, ok, err,
}
use ematix_parquet.Compact.{
  i32, i64, binary, struct, double, read_uvarint, read_zigzag_i16, read_zigzag_i32, read_zigzag_i64,
  read_field_header, read_list_header, read_binary, read_list_i32, read_list_i64, read_list_binary,
  read_list_bool, unexpected_list_element_type,
}
use ematix_parquet.Compact.Wire.{IsLeb, leb_value}
use ematix_parquet.CompactWriter.{
  uvarint_loop, write_uvarint, write_zigzag_i16, write_zigzag_i32, write_zigzag_i64,
  write_field_header, write_field_stop, write_list_header, write_binary, write_list_i32,
  write_list_i64, write_list_binary, write_list_bool,
}
use ematix_parquet.CompactWriter.RoundTrip.{
  TakesBack, read_zigzag-write, read_list-write, behind, read_uvarint-write, write_uvarint_shape,
  read_field_header-write, read_field_header-write_stop, read_list_header-write, read_binary-write,
  read_list_refuses,
}

abbrev before : List ℕ
before = 0xff ∷ 0x80 ∷ []

abbrev after : List ℕ
after = 0x81 ∷ 0x00 ∷ []

-- -2 and -300 as bit patterns.
abbrev minus_two : ℕ
minus_two = 2 ^ 32 - 2

abbrev minus_three_hundred : ℕ
minus_three_hundred = 2 ^ 64 - 300

write_uvarint_300 : write_uvarint [] 300 ≡ 0xac ∷ 0x02 ∷ []
unfolding write_uvarint uvarint_loop lt_wf dec_le
write_uvarint_300 = refl

write_uvarint_shape_example :
    (bs : List ℕ) × (write_uvarint before 300 ≡ before ++ bs)
    × IsLeb bs
    × (leb_value bs ≡ 300)
    × (1 ≤ length bs)
    × (length bs ≤ 10)
write_uvarint_shape_example = write_uvarint_shape before 300 (omega arith)

read_uvarint-write_example :
    read_uvarint (behind before (write_uvarint before (2 ^ 64 - 1) ++ after))
    ≡ ok (
      2 ^ 64 - 1,
      behind (write_uvarint before (2 ^ 64 - 1)) (write_uvarint before (2 ^ 64 - 1) ++ after),
    )
read_uvarint-write_example = read_uvarint-write before after (2 ^ 64 - 1) (omega arith)

-- The long form: field 5 behind field 40.
read_field_header-write_example :
    read_field_header 40 (behind before (write_field_header before 5 double 40 ++ after))
    ≡ ok (
      some (record { id = 5; field_type = double }),
      behind
          (write_field_header before 5 double 40)
          (write_field_header before 5 double 40 ++ after),
    )
read_field_header-write_example =
    read_field_header-write before after 5 40 double (omega arith) (omega arith)

read_field_header-write_stop_example :
    read_field_header 7 (behind before (write_field_stop before ++ after))
    ≡ ok (none, behind (write_field_stop before) (write_field_stop before ++ after))
read_field_header-write_stop_example = read_field_header-write_stop before after 7

read_list_header-write_example :
    read_list_header (behind before (write_list_header before 15 struct ++ after))
    ≡ ok (
      (15, struct),
      behind (write_list_header before 15 struct) (write_list_header before 15 struct ++ after),
    )
read_list_header-write_example = read_list_header-write before after 15 struct (omega arith)

read_binary-write_example :
    read_binary (behind before (write_binary before after ++ after))
    ≡ ok (after, behind (write_binary before after) (write_binary before after ++ after))
read_binary-write_example = read_binary-write before after after (omega arith)

abbrev integers : List ℕ
integers = 1 ∷ minus_two ∷ []

abbrev strings : List (List ℕ)
strings = before ∷ [] ∷ []

abbrev answers : List Bool
answers = true ∷ false ∷ true ∷ []

read_list_refuses_example :
    (read_list_i32 (behind before (write_list_header before 20 double ++ after))
      ≡ err (unexpected_list_element_type i32 double))
    × (read_list_i64 (behind before (write_list_header before 20 double ++ after))
        ≡ err (unexpected_list_element_type i64 double))
    × (read_list_binary (behind before (write_list_header before 20 double ++ after))
        ≡ err (unexpected_list_element_type binary double))
read_list_refuses_example = read_list_refuses before after 20 double (omega arith) refl refl refl

read_zigzag-write_example :
    TakesBack read_zigzag_i16 write_zigzag_i16 before after 65535
    × TakesBack read_zigzag_i32 write_zigzag_i32 before after minus_two
    × TakesBack read_zigzag_i64 write_zigzag_i64 before after minus_three_hundred
read_zigzag-write_example =
    read_zigzag-write before after 65535 minus_two minus_three_hundred (omega arith) (omega arith)
      (omega arith)

read_list-write_example :
    TakesBack read_list_i32 write_list_i32 before after integers
    × TakesBack read_list_i64 write_list_i64 before after integers
    × TakesBack read_list_binary write_list_binary before after strings
    × TakesBack read_list_bool write_list_bool before after answers
read_list-write_example =
    read_list-write before after integers integers strings answers (omega arith) (ground arith)
      (omega arith) (ground arith) (omega arith) (ground arith) (omega arith)
