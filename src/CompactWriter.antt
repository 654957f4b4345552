-- ===== src/CompactWriter.antt =====
-- crates/ematix-parquet-format/src/compact_writer.rs: the Thrift compact-protocol writers.
-- The `Writer` is its buffer, a list of bytes; every method returns the grown buffer. A signed
-- integer of w bits is its bit pattern.
pub mod Varint
pub mod Headers
pub mod Lists
pub mod RoundTrip
pub mod Tests
use mathlib.Core.WellFounded.{Acc}
use ematix_parquet.Base.{
  ℕ, zero, suc, ◌+◌, ◌-◌, ◌*◌, ◌/◌, ◌%◌, ◌^◌, ◌≤◌, ◌<◌, bit_and, bit_or, bit_xor, ltb, leb, ◌&&◌,
  if◌then◌else◌, Bool, true, false, List, [], ◌∷◌, ◌++◌, length, lt_wf, dec_le, dite, arith,
}
use ematix_parquet.Base.LeBytes.{le_bytes}
use ematix_parquet.Compact.{FieldType, bool_true, bool_false, i32, i64, binary, field_code}

abbrev pub Writer : Type 0
Writer = List ℕ

pub write_u8 : Writer → ℕ → Writer
write_u8 w b = w ++ b ∷ []

-- `as u8` keeps the bit pattern.
pub write_i8 : Writer → ℕ → Writer
write_i8 w b = w ++ b ∷ []

-- A double is its bit pattern.
pub write_double : Writer → ℕ → Writer
write_double w v = w ++ le_bytes 8 v

pub shrinks : (v : ℕ) → 0x80 ≤ v → v / 2 ^ 7 < v
shrinks v h = omega arith

-- `while v >= 0x80`.
unfoldable pub uvarint_loop : Writer → (v : ℕ) → Acc ◌<◌ v → Writer
uvarint_loop w v (Acc.intro _ smaller) =
    dite (dec_le 0x80 v)
      (λ more.
        uvarint_loop (w ++ bit_or (bit_and v 0x7f % 2 ^ 8) 0x80 ∷ []) (v / 2 ^ 7)
          (smaller _ (shrinks v more)))
      (λ _. w ++ v % 2 ^ 8 ∷ [])

unfoldable pub write_uvarint : Writer → ℕ → Writer
write_uvarint w v = uvarint_loop w v (lt_wf.apply v)

-- `v >> (w - 1)` on a signed pattern of `w` bits: all zeros or all ones.
abbrev pub sign_fill : ℕ → ℕ → ℕ
sign_fill w v = if ltb v (2 ^ (w - 1)) then 0 else 2 ^ w - 1

-- `(v << 1) ^ (v >> (w - 1))` on bit patterns of `w` bits.
unfoldable pub zigzag : ℕ → ℕ → ℕ
zigzag w v = bit_xor (v * 2 % 2 ^ w) (sign_fill w v)

unfoldable pub write_zigzag_i32 : Writer → ℕ → Writer
write_zigzag_i32 w v = write_uvarint w (zigzag 32 v)

unfoldable pub write_zigzag_i64 : Writer → ℕ → Writer
write_zigzag_i64 w v = write_uvarint w (zigzag 64 v)

-- `as i32` on an i16 pattern extends the sign.
abbrev pub sign_extend_i16 : ℕ → ℕ
sign_extend_i16 v = if ltb v (2 ^ 15) then v else v + (2 ^ 32 - 2 ^ 16)

unfoldable pub write_zigzag_i16 : Writer → ℕ → Writer
write_zigzag_i16 w v = write_zigzag_i32 w (sign_extend_i16 v)

unfoldable pub write_binary : Writer → List ℕ → Writer
write_binary w bytes = write_uvarint w (length bytes % 2 ^ 64) ++ bytes

-- `id as i32 - prev_id as i32` on bit patterns.
unfoldable pub id_diff : ℕ → ℕ → ℕ
id_diff id prev_id = (sign_extend_i16 id + 2 ^ 32 - sign_extend_i16 prev_id) % 2 ^ 32

-- `diff > 0 && diff <= 15` on an i32 pattern, whose upper half is negative.
unfoldable pub is_short_delta : ℕ → Bool
is_short_delta diff = (ltb 0 diff && ltb diff (2 ^ 31)) && leb diff 15

unfoldable pub write_field_header : Writer → ℕ → FieldType → ℕ → Writer
write_field_header w id field_type prev_id =
    let type_code = field_code field_type in
    let diff = id_diff id prev_id in
    if is_short_delta diff
    then w ++ bit_or (diff % 2 ^ 8 * 2 ^ 4 % 2 ^ 8) type_code ∷ []
    else write_zigzag_i16 (w ++ type_code ∷ []) id

unfoldable pub write_field_stop : Writer → Writer
write_field_stop w = w ++ 0x00 ∷ []

unfoldable pub write_list_header : Writer → ℕ → FieldType → Writer
write_list_header w count element_type =
    let type_code = field_code element_type in
    if ltb count 15
    then w ++ bit_or (count % 2 ^ 8 * 2 ^ 4 % 2 ^ 8) type_code ∷ []
    else write_uvarint (w ++ bit_or 0xf0 type_code ∷ []) count

-- `for &v in values { one(v) }`.
pub write_each {ℓ} : {A : Type ℓ} → (Writer → A → Writer) → Writer → List A → Writer
write_each one w [] = w
write_each one w (v ∷ vs) = write_each one (one w v) vs

pub write_list_i32 : Writer → List ℕ → Writer
unfolding write_each
write_list_i32 w values =
    write_each write_zigzag_i32 (write_list_header w (length values) i32) values

pub write_list_i64 : Writer → List ℕ → Writer
unfolding write_each
write_list_i64 w values =
    write_each write_zigzag_i64 (write_list_header w (length values) i64) values

abbrev pub bool_code : Bool → ℕ
bool_code v = if v then field_code bool_true else field_code bool_false

pub write_list_bool : Writer → List Bool → Writer
unfolding write_each
write_list_bool w values =
    write_each (λ u v. u ++ bool_code v ∷ []) (write_list_header w (length values) bool_true) values

pub write_list_binary : Writer → List (List ℕ) → Writer
unfolding write_each
write_list_binary w items =
    write_each write_binary (write_list_header w (length items) binary) items
