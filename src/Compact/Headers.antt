-- ===== src/Compact/Headers.antt =====
-- Field headers, list headers and byte strings: which bytes the readers take for them.
use ematix_parquet.Base.{
  ℕ, ◌+◌, ◌*◌, ◌/◌, ◌%◌, ◌^◌, ◌≤◌, ◌<◌, ◌≡◌, refl, arith, List, [], ◌∷◌, ◌++◌, bit_and, ok, length,
  none, some, false, lt→ltb, ◌==◌,
}
use ematix_parquet.Base.Bits.{and_0f, and_f0}
use ematix_parquet.Compact.{
  FieldType, read_field_header, read_list_header, field_id, field_code, decode_field_type,
  read_zigzag_i32, read_zigzag_i16, read_uvarint, read_binary, take_bytes, ◌>>=◌, bool_true,
  bool_false, byte, i16, i32, i64, double, binary, list_of, set_of, map_of, struct,
}
use ematix_parquet.Compact.At.{Reads, Reads-u8, Reads-bind, Reads-pure, Reads-map, Reads-take}

-- Every type's code decodes to the type.
pub decode-code : (t : FieldType) → decode_field_type (field_code t) ≡ ok t
unfolding decode_field_type
decode-code bool_true = refl
decode-code bool_false = refl
decode-code byte = refl
decode-code i16 = refl
decode-code i32 = refl
decode-code i64 = refl
decode-code double = refl
decode-code binary = refl
decode-code list_of = refl
decode-code set_of = refl
decode-code map_of = refl
decode-code struct = refl

pub field_code_range : (t : FieldType) → (1 ≤ field_code t) × (field_code t ≤ 12)
field_code_range bool_true = omega arith
field_code_range bool_false = omega arith
field_code_range byte = omega arith
field_code_range i16 = omega arith
field_code_range i32 = omega arith
field_code_range i64 = omega arith
field_code_range double = omega arith
field_code_range binary = omega arith
field_code_range list_of = omega arith
field_code_range set_of = omega arith
field_code_range map_of = omega arith
field_code_range struct = omega arith

-- The two nibbles of a header byte.
low_nibble : (hi : ℕ) (t : FieldType) → bit_and (hi * 16 + field_code t) 0x0f ≡ field_code t
low_nibble hi t = omega (arith, and_0f (hi * 16 + field_code t), field_code_range t)

high_nibble :
    (hi : ℕ) (t : FieldType) → hi < 16 → bit_and (hi * 16 + field_code t) 0xf0 / 2 ^ 4 ≡ hi
high_nibble hi t h = omega (arith, and_f0 (hi * 16 + field_code t), field_code_range t)

decode_nibble :
    (hi : ℕ) (t : FieldType) → decode_field_type (bit_and (hi * 16 + field_code t) 0x0f) ≡ ok t
decode_nibble hi t = rw (low_nibble hi t) (decode-code t)

-- A header byte with the delta `hi` and the bytes that the id takes.
pub field_header-Reads :
    (prev hi id : ℕ) (t : FieldType) (bs : List ℕ)
    → hi < 16
    → Reads (field_id prev hi) bs id
    → Reads
        (read_field_header prev)
        ((hi * 16 + field_code t) ∷ bs)
        (some (record { id = id; field_type = t }))
unfolding read_field_header
field_header-Reads prev hi id t bs h r =
    Reads-bind _ _ ((hi * 16 + field_code t) ∷ []) bs _ _ (Reads-u8 (hi * 16 + field_code t)) (
      rw
        (
          let e : ((hi * 16 + field_code t) == 0) ≡ false = ground (arith, field_code_range t) in e,
          decode_nibble hi t,
          high_nibble hi t h,
        )
        (Reads-map (field_id prev hi) (λ x. some (record { id = x; field_type = t })) bs id r))

pub field_stop-Reads : (prev : ℕ) → Reads (read_field_header prev) (0x00 ∷ []) none
unfolding read_field_header
field_stop-Reads prev c rest h = rw (Reads-u8 0x00 c rest h, ◌>>=◌)

pub short_id-Reads : (prev d : ℕ) → 0 < d → Reads (field_id prev d) [] ((prev + d) % 2 ^ 16)
unfolding field_id
short_id-Reads prev d h =
    rw (let e : (d == 0) ≡ false = ground arith in e) (Reads-pure ((prev + d) % 2 ^ 16))

pub long_id-Reads :
    (prev z : ℕ) (bs : List ℕ)
    → Reads read_zigzag_i32 bs z
    → Reads (field_id prev 0) bs (z % 2 ^ 16)
unfolding field_id
long_id-Reads prev z bs r = Reads-map read_zigzag_i32 (λ x. x % 2 ^ 16) bs z r

pub list_header_short-Reads :
    (n : ℕ) (t : FieldType) → n < 15 → Reads read_list_header ((n * 16 + field_code t) ∷ []) (n, t)
unfolding read_list_header
list_header_short-Reads n t h c rest at = rw (
  Reads-u8 (n * 16 + field_code t) c rest at,
  ◌>>=◌,
  decode_nibble n t,
  high_nibble n t (omega arith),
  lt→ltb n 15 h,
)

pub list_header_long-Reads :
    (n : ℕ) (t : FieldType) (bs : List ℕ)
    → Reads read_uvarint bs n
    → Reads read_list_header ((15 * 16 + field_code t) ∷ bs) (n, t)
unfolding read_list_header
list_header_long-Reads n t bs r =
    Reads-bind _ _ ((15 * 16 + field_code t) ∷ []) bs _ _ (Reads-u8 (15 * 16 + field_code t)) (
      rw (decode_nibble 15 t, high_nibble 15 t (omega arith))
        (Reads-map read_uvarint (λ x. (x, t)) bs n r))

pub binary-Reads :
    (bytes len_bytes : List ℕ)
    → Reads read_uvarint len_bytes (length bytes)
    → Reads read_binary (len_bytes ++ bytes) bytes
unfolding read_binary
binary-Reads bytes len_bytes r =
    Reads-bind read_uvarint take_bytes len_bytes bytes (length bytes) bytes r (Reads-take bytes)

pub zigzag_i16-Reads :
    (bs : List ℕ) (v : ℕ) → Reads read_zigzag_i32 bs v → Reads read_zigzag_i16 bs (v % 2 ^ 16)
unfolding read_zigzag_i16
zigzag_i16-Reads bs v r = Reads-map read_zigzag_i32 (λ x. x % 2 ^ 16) bs v r
