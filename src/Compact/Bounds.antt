-- ===== src/Compact/Bounds.antt =====
-- Where the readers of compact.rs leave the cursor, on any bytes, well formed or not.
use ematix_parquet.Base.{
  ℕ, zero, suc, ◌+◌, ◌-◌, ◌*◌, ◌/◌, ◌%◌, ◌^◌, refl, arith, bit_and, bit_or, length, true, Bool,
  ◌==◌, ◌||◌, Bool-cases, inl, inr, leb, ltb,
}
use ematix_parquet.Compact.Outcome.{
  IsWithin, Stays, Safe, IsSource, result-Safe, if-Safe, bind-Safe,
}
use ematix_parquet.Compact.{
  decode_field_type, bool_byte, read_zigzag_i16, Cursor, Reader, advance, read_u8, read_i8,
  take_bytes, uvarint_rounds, read_uvarint, read_zigzag_i32, read_zigzag_i64, field_id,
  read_field_header, read_list_header, read_binary, times, read_list, read_list_i32, read_list_i64,
  read_list_binary, read_list_struct, read_bool, read_list_bool, ◌>>=◌, FieldType, is_type, i32,
  i64, binary, struct, bool_true, bool_false,
}

decode_field_type-IsSource : (n : ℕ) → IsSource (decode_field_type n)
unfolding decode_field_type
decode_field_type-IsSource n = ground arith

bool_byte-IsSource : (b : ℕ) → IsSource (bool_byte b)
unfolding bool_byte
bool_byte-IsSource b = ground arith

module _ (b : Bool) where
  pub u8-Safe : Safe b read_u8
  unfolding read_u8
  u8-Safe c h = ground arith

  pub take-Safe : (n : ℕ) → Safe b (take_bytes n)
  unfolding take_bytes
  take-Safe n c h = ground arith

  rounds-Safe : (n r s : ℕ) → Safe b (uvarint_rounds n r s)
  unfolding uvarint_rounds
  rounds-Safe zero r s = λ c h. tt
  rounds-Safe (suc n) r s = bind-Safe b read_u8 _ u8-Safe λ v.
      if-Safe b (bit_and v 0x80 == 0) _ _ (λ d k. (refl, omega arith, k))
        (rounds-Safe n (bit_or r (bit_and v 0x7f * 2 ^ s % 2 ^ 64)) (s + 7))

  pub uvarint-Safe : Safe b read_uvarint
  unfolding read_uvarint
  uvarint-Safe = rounds-Safe 10 0 0

  pub zigzag_i32-Safe : Safe b read_zigzag_i32
  unfolding read_zigzag_i32
  zigzag_i32-Safe = bind-Safe b read_uvarint _ uvarint-Safe (λ u. λ d k. (refl, omega arith, k))

  pub zigzag_i64-Safe : Safe b read_zigzag_i64
  unfolding read_zigzag_i64
  zigzag_i64-Safe = bind-Safe b read_uvarint _ uvarint-Safe (λ u. λ d k. (refl, omega arith, k))

  field_id-Safe : (prev delta : ℕ) → Safe b (field_id prev delta)
  unfolding field_id
  field_id-Safe prev delta =
      if-Safe b (delta == 0) _ _
        (bind-Safe b read_zigzag_i32 _ zigzag_i32-Safe (λ z. λ d k. (refl, omega arith, k)))
        (λ d k. (refl, omega arith, k))

  pub field_header-Safe : (prev : ℕ) → Safe b (read_field_header prev)
  unfolding read_field_header
  field_header-Safe prev = bind-Safe b read_u8 _ u8-Safe λ header.
      if-Safe b (header == 0) _ _ (λ d k. (refl, omega arith, k))
        (bind-Safe b _ _ (result-Safe b _ (decode_field_type-IsSource _)) λ t.
          bind-Safe b (field_id prev (bit_and header 0xf0 / 2 ^ 4)) _ (field_id-Safe prev _)
            λ id. λ d k. (refl, omega arith, k))

  list_header-Safe : Safe b read_list_header
  unfolding read_list_header
  list_header-Safe = bind-Safe b read_u8 _ u8-Safe λ header.
      bind-Safe b _ _ (result-Safe b _ (decode_field_type-IsSource _)) λ t.
        bind-Safe b _ _
          (if-Safe b (ltb (bit_and header 0xf0 / 2 ^ 4) 0x0f) _ _ (λ d k. (refl, omega arith, k))
            uvarint-Safe)
          λ n. λ d k. (refl, omega arith, k)

  pub binary-Safe : Safe b read_binary
  unfolding read_binary
  binary-Safe = bind-Safe b read_uvarint _ uvarint-Safe take-Safe

  bool-Safe : Safe b read_bool
  unfolding read_bool
  bool-Safe = bind-Safe b read_u8 _ u8-Safe (λ v. result-Safe b _ (bool_byte-IsSource v))

  module _ {A : Type 0} (one : Reader A) (hone : Safe b one) where
    times-Safe : (n : ℕ) → Safe b (times n one)
    unfolding times
    times-Safe zero = λ d k. (refl, omega arith, k)
    times-Safe (suc n) =
        bind-Safe b one _ hone
          (λ x. bind-Safe b (times n one) _ (times-Safe n) (λ xs. λ d k. (refl, omega arith, k)))

    pub list-Safe : (t : FieldType) → Safe b (read_list t one)
    unfolding read_list
    list-Safe t =
        bind-Safe b read_list_header _ list_header-Safe
          λ p. if-Safe b (is_type p.1 t) _ _ (times-Safe p.0) (λ d k. tt)

  pub i8-Safe : Safe b read_i8
  unfolding read_i8
  i8-Safe = u8-Safe

  pub list_i32-Safe : Safe b read_list_i32
  unfolding read_list_i32
  list_i32-Safe = list-Safe read_zigzag_i32 zigzag_i32-Safe i32

  pub list_i64-Safe : Safe b read_list_i64
  unfolding read_list_i64
  list_i64-Safe = list-Safe read_zigzag_i64 zigzag_i64-Safe i64

  pub list_binary-Safe : Safe b read_list_binary
  unfolding read_list_binary
  list_binary-Safe = list-Safe read_binary binary-Safe binary

  behind_u8 :
      {B : Type 0} (f : ℕ → Reader B)
      → ((n : ℕ) → Safe b (f n))
      → (c : Cursor) → IsWithin c
      → Stays b (advance 1 c) ((read_u8 >>= f) c)
  unfolding read_u8
  behind_u8 f hf c h = elim (Bool-cases (leb (length c.buf) c.pos)) [
    | inl ended ↦ rw (ended, ◌>>=◌) tt
    | inr more ↦ rw (more, ◌>>=◌) (hf _ (advance 1 c) (ground arith))
  ]

  -- A field header takes a byte at least.
  pub field_header_moves :
      (prev : ℕ) (c : Cursor) → IsWithin c → Stays b (advance 1 c) (read_field_header prev c)
  unfolding read_field_header
  field_header_moves prev c h =
      behind_u8 _
        (λ header.
          if-Safe b (header == 0) _ _ (λ d k. (refl, omega arith, k))
            (bind-Safe b _ _ (result-Safe b _ (decode_field_type-IsSource _)) λ t.
              bind-Safe b (field_id prev (bit_and header 0xf0 / 2 ^ 4)) _ (field_id-Safe prev _)
                λ id. λ d k. (refl, omega arith, k)))
        c h

  -- A number takes a byte at least.
  pub uvarint_moves : (c : Cursor) → IsWithin c → Stays b (advance 1 c) (read_uvarint c)
  unfolding read_uvarint uvarint_rounds
  uvarint_moves c h =
      behind_u8 _
        (λ v.
          if-Safe b (bit_and v 0x80 == 0) _ _ (λ d k. (refl, omega arith, k))
            (rounds-Safe 9 _ (0 + 7)))
        c h

  pub take-Stays : (n : ℕ) (c : Cursor) → IsWithin c → Stays b c (take_bytes n c)
  take-Stays n c h = take-Safe n c h

  pub zigzag_i16-Safe : Safe b read_zigzag_i16
  unfolding read_zigzag_i16
  zigzag_i16-Safe =
      bind-Safe b read_zigzag_i32 _ zigzag_i32-Safe (λ v. λ d k. (refl, omega arith, k))

-- The two readers that allocate for the count of the header can panic there.
pub list_bool-Safe : Safe true read_list_bool
unfolding read_list_bool
list_bool-Safe = bind-Safe true read_list_header _ (list_header-Safe true) λ p.
    if-Safe true (is_type p.1 bool_true || is_type p.1 bool_false) _ _
      (if-Safe true (ltb (2 ^ 63 - 1) (p.0 * 1)) _ _ (λ d k. refl)
        (times-Safe true read_bool (bool-Safe true) p.0))
      (λ d k. tt)

pub list_struct-Safe :
    {A : Type 0} (size : ℕ) (one : Reader A) → Safe true one → Safe true (read_list_struct size one)
unfolding read_list_struct
list_struct-Safe size one h = bind-Safe true read_list_header _ (list_header-Safe true) λ p.
    if-Safe true (is_type p.1 struct) _ _
      (if-Safe true (ltb (2 ^ 63 - 1) (p.0 * size)) _ _ (λ d k. refl) (times-Safe true one h p.0))
      (λ d k. tt)
