-- ===== src/CompactWriter/Headers.antt =====
-- Round trips of 16-bit numbers, field headers, list headers and byte strings: the readers of
-- compact.rs take back what the writers of compact_writer.rs append.
use native.Mathlib.Nat.{zero-add}
use ematix_parquet.Base.{
  ℕ, ◌+◌, ◌*◌, ◌%◌, ◌^◌, ◌≤◌, ◌<◌, ◌≡◌, arith, List, [], ◌∷◌, ◌++◌, append_assoc, bit_or, length,
  some, subst, true, ltb, ltb→lt, Bool-cases, inl, inr,
}
use ematix_parquet.Base.Bits.{or_nibbles}
use ematix_parquet.Compact.{
  FieldType, read_field_header, read_list_header, field_code, read_binary, read_zigzag_i16,
  field_id,
}
use ematix_parquet.Compact.At.{Reads}
use ematix_parquet.Compact.Headers.{
  field_code_range, field_header-Reads, short_id-Reads, long_id-Reads, list_header_short-Reads,
  list_header_long-Reads, binary-Reads, zigzag_i16-Reads,
}
use ematix_parquet.CompactWriter.{
  Writer, write_zigzag_i16, write_zigzag_i32, sign_extend_i16, write_field_header,
  write_list_header, write_uvarint, write_binary, id_diff, is_short_delta,
}
use ematix_parquet.CompactWriter.Varint.{
  write_uvarint-append, write_zigzag_i32-append, uvarint_round_trip, zigzag_i32_round_trip,
}

sign_extend_i16_mod : (v : ℕ) → v < 2 ^ 16 → sign_extend_i16 v % 2 ^ 16 ≡ v
sign_extend_i16_mod v h = ground arith

sign_extend_i16-lt : (v : ℕ) → v < 2 ^ 16 → sign_extend_i16 v < 2 ^ 32
sign_extend_i16-lt v h = ground arith

pub zigzag_i16_round_trip : (v : ℕ) → v < 2 ^ 16 → Reads read_zigzag_i16 (write_zigzag_i16 [] v) v
unfolding write_zigzag_i16
zigzag_i16_round_trip v h =
    subst (Reads read_zigzag_i16 (write_zigzag_i16 [] v)) (sign_extend_i16_mod v h) (
      zigzag_i16-Reads (write_zigzag_i32 [] (sign_extend_i16 v)) (sign_extend_i16 v)
        (zigzag_i32_round_trip (sign_extend_i16 v) (sign_extend_i16-lt v h)))

pub write_zigzag_i16-append :
    (w : Writer) (v : ℕ) → write_zigzag_i16 w v ≡ w ++ write_zigzag_i16 [] v
unfolding write_zigzag_i16
write_zigzag_i16-append w v = write_zigzag_i32-append w (sign_extend_i16 v)

pub write_binary-append : (w : Writer) (bs : List ℕ) → write_binary w bs ≡ w ++ write_binary [] bs
unfolding write_binary
write_binary-append w bs = rw (write_uvarint-append w (length bs % 2 ^ 64)) (append_assoc w _ bs)

pub binary_round_trip :
    (bs : List ℕ) → length bs < 2 ^ 64 → Reads read_binary (write_binary [] bs) bs
unfolding write_binary
binary_round_trip bs h =
    let e : length bs % 2 ^ 64 ≡ length bs = omega arith in
    rw e (binary-Reads bs (write_uvarint [] (length bs)) (uvarint_round_trip (length bs) h))

-- The short form is right: a difference of 1 to 15 leads back to the id, modulo 2 ^ 16.
id_diff_back :
    (id prev : ℕ)
    → id < 2 ^ 16
    → prev < 2 ^ 16
    → is_short_delta (id_diff id prev) ≡ true
    → (0 < id_diff id prev) × (id_diff id prev < 16) × ((prev + id_diff id prev) % 2 ^ 16 ≡ id)
unfolding id_diff is_short_delta
id_diff_back id prev hi hp h = ground arith

-- The long form: the id is written whole, and read back whatever the previous id.
long_id : (id prev : ℕ) → id < 2 ^ 16 → Reads (field_id prev 0) (write_zigzag_i16 [] id) id
unfolding write_zigzag_i16
long_id id prev h =
    subst (Reads (field_id prev 0) (write_zigzag_i16 [] id)) (sign_extend_i16_mod id h) (
      long_id-Reads prev (sign_extend_i16 id) (write_zigzag_i16 [] id)
        (zigzag_i32_round_trip (sign_extend_i16 id) (sign_extend_i16-lt id h)))

-- A header byte made of a small number and a type code.
header_byte :
    (n : ℕ) (t : FieldType)
    → n < 16
    → bit_or (n % 2 ^ 8 * 2 ^ 4 % 2 ^ 8) (field_code t) ≡ n * 16 + field_code t
header_byte n t h =
    let e : n % 2 ^ 8 * 2 ^ 4 % 2 ^ 8 ≡ n * 2 ^ 4 = omega arith in
    rw e (or_nibbles n (field_code t) (omega (arith, field_code_range t)))

pub write_field_header-append :
    (w : Writer) (id : ℕ) (t : FieldType) (prev : ℕ)
    → write_field_header w id t prev ≡ w ++ write_field_header [] id t prev
unfolding write_field_header
write_field_header-append w id t prev = elim (Bool-cases (is_short_delta (id_diff id prev))) [
  | inl short ↦ rw short
  | inr long ↦ rw long (
      rw
        (
          write_zigzag_i16-append (w ++ field_code t ∷ []) id,
          write_zigzag_i16-append (field_code t ∷ []) id,
        )
        (append_assoc w (field_code t ∷ []) _))
]

pub field_header_round_trip :
    (id prev : ℕ) (t : FieldType)
    → id < 2 ^ 16
    → prev < 2 ^ 16
    → Reads
        (read_field_header prev)
        (write_field_header [] id t prev)
        (some (record { id = id; field_type = t }))
unfolding write_field_header
field_header_round_trip id prev t hi hp = elim (Bool-cases (is_short_delta (id_diff id prev))) [
  | inl short ↦
      let (pos, small, back) = id_diff_back id prev hi hp short in
      rw (short, header_byte (id_diff id prev) t small)
        (field_header-Reads prev (id_diff id prev) id t [] small (
          subst (Reads (field_id prev (id_diff id prev)) []) back
            (short_id-Reads prev (id_diff id prev) pos)))
  | inr long ↦
      rw (long, write_zigzag_i16-append (field_code t ∷ []) id)
        (rw (zero-add (field_code t)) at (
          field_header-Reads prev 0 id t (write_zigzag_i16 [] id) (omega arith)
            (long_id id prev hi)))
]

pub list_header_round_trip :
    (n : ℕ) (t : FieldType) → n < 2 ^ 64 → Reads read_list_header (write_list_header [] n t) (n, t)
unfolding write_list_header
list_header_round_trip n t h = elim (Bool-cases (ltb n 15)) [
  | inl short ↦
      let small : n < 15 = ltb→lt n 15 short in
      rw (short, header_byte n t (omega arith)) (list_header_short-Reads n t small)
  | inr long ↦
      rw
        (
          long,
          or_nibbles 15 (field_code t) (omega (arith, field_code_range t)),
          write_uvarint-append ((15 * 16 + field_code t) ∷ []) n,
        )
        (list_header_long-Reads n t (write_uvarint [] n) (uvarint_round_trip n h))
]

pub write_list_header-append :
    (w : Writer) (n : ℕ) (t : FieldType) → write_list_header w n t ≡ w ++ write_list_header [] n t
unfolding write_list_header
write_list_header-append w n t = elim (Bool-cases (ltb n 15)) [
  | inl short ↦ rw short
  | inr long ↦ rw long (
      rw
        (
          write_uvarint-append (w ++ bit_or 0xf0 (field_code t) ∷ []) n,
          write_uvarint-append (bit_or 0xf0 (field_code t) ∷ []) n,
        )
        (append_assoc w (bit_or 0xf0 (field_code t) ∷ []) _))
]

pub write_field_header-some :
    (id : ℕ) (t : FieldType) (prev : ℕ) → 1 ≤ length (write_field_header [] id t prev)
unfolding write_field_header
write_field_header-some id t prev = elim (Bool-cases (is_short_delta (id_diff id prev))) [
  | inl short ↦ rw short (omega arith)
  | inr long ↦ rw (long, write_zigzag_i16-append (field_code t ∷ []) id) (omega arith)
]
