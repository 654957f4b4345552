-- ===== src/MetadataWriter/Values.antt =====
-- Values that a field holds: what is written of one is read back.
use Prim.Native.String.{String}
use ematix_parquet.Base.{
  ℕ, ◌*◌, ◌^◌, ◌<◌, ◌≡◌, ◌∙◌, refl, ap, arith, Result, err, Option, none, some, List, [], ◌∷◌, ok,
  length, All,
}
use ematix_parquet.Compact.{
  FormatError, Reader, read_zigzag_i16, read_zigzag_i32, read_zigzag_i64, read_binary,
  read_list_i32, read_list_binary, read_list_struct,
}
use ematix_parquet.Compact.At.{Reads}
use ematix_parquet.CompactWriter.{
  write_zigzag_i16, write_zigzag_i32, write_zigzag_i64, write_binary, write_list_i32,
  write_list_binary, write_field_stop,
}
use ematix_parquet.CompactWriter.Varint.{
  zigzag_i32_round_trip, zigzag_i64_round_trip, write_zigzag_i32-append, write_zigzag_i64-append,
}
use ematix_parquet.CompactWriter.Headers.{
  zigzag_i16_round_trip, write_zigzag_i16-append, binary_round_trip, write_binary-append,
}
use ematix_parquet.CompactWriter.Lists.{
  list_i32_round_trip, write_list_i32-append, list_binary_round_trip, write_list_binary-append,
}
use ematix_parquet.Types.{
  ParquetType, parquet_type_code, read_parquet_type, Encoding, encoding_code, read_encoding,
  CompressionCodec, codec_code, read_codec, PageType, page_type_code, read_page_type,
  FieldRepetitionType, repetition_type_code, read_repetition_type, ConvertedType,
  converted_type_code, read_converted_type,
}
use ematix_parquet.Types.Codes.{
  Reads-result, parquet_type_code-Reads, parquet_type_code-lt, encoding_code-Reads,
  encoding_code-lt, codec_code-Reads, codec_code-lt, page_type_code-Reads, page_type_code-lt,
  repetition_type_code-Reads, repetition_type_code-lt, converted_type_code-Reads,
  converted_type_code-lt, encoding_from_i32-code,
}
use ematix_parquet.Metadata.{read_empty_struct}
use ematix_parquet.Metadata.Empty.{read_empty_struct-Reads}
use ematix_parquet.Metadata.Chunk.{encodings_of, read_encodings}
use ematix_parquet.MetadataWriter.{
  Encoder, total, write_code, write_empty_struct, write_list_struct, codes_of, write_encodings,
}
use ematix_parquet.MetadataWriter.Lists.{Carries-list}
use ematix_parquet.MetadataWriter.Rules.{Carries, OptAll}

abbrev pub IsI16 : ℕ → Type 0
IsI16 v = v < 2 ^ 16

abbrev pub IsI32 : ℕ → Type 0
IsI32 v = v < 2 ^ 32

abbrev pub IsI64 : ℕ → Type 0
IsI64 v = v < 2 ^ 64

-- A length is a usize.
abbrev pub IsSized : {A : Type 0} → List A → Type 0
IsSized xs = length xs < 2 ^ 64

abbrev pub IsList : {A : Type 0} → (A → Type 0) → List A → Type 0
IsList P xs = IsSized xs × All P xs

-- A vector of structs of `size` bytes is a vector that Rust can hold: isize::MAX bytes at most.
abbrev pub IsVec : {A : Type 0} → ℕ → (A → Type 0) → List A → Type 0
IsVec size P xs = IsSized xs × (length xs * size < 2 ^ 63) × All P xs

pub i16-Carries : (v : ℕ) → IsI16 v → Carries read_zigzag_i16 (total write_zigzag_i16) v
i16-Carries v h = record {
  bytes = write_zigzag_i16 [] v;
  writes = λ w. ap some (write_zigzag_i16-append w v);
  reads = zigzag_i16_round_trip v h;
}

pub i32-Carries : (v : ℕ) → IsI32 v → Carries read_zigzag_i32 (total write_zigzag_i32) v
i32-Carries v h = record {
  bytes = write_zigzag_i32 [] v;
  writes = λ w. ap some (write_zigzag_i32-append w v);
  reads = zigzag_i32_round_trip v h;
}

pub i64-Carries : (v : ℕ) → IsI64 v → Carries read_zigzag_i64 (total write_zigzag_i64) v
i64-Carries v h = record {
  bytes = write_zigzag_i64 [] v;
  writes = λ w. ap some (write_zigzag_i64-append w v);
  reads = zigzag_i64_round_trip v h;
}

pub binary-Carries : (bs : List ℕ) → IsSized bs → Carries read_binary (total write_binary) bs
binary-Carries bs h = record {
  bytes = write_binary [] bs;
  writes = λ w. ap some (write_binary-append w bs);
  reads = binary_round_trip bs h;
}

pub list_binary-Carries :
    (xs : List (List ℕ)) → IsList IsSized xs → Carries read_list_binary (total write_list_binary) xs
list_binary-Carries xs (few, h) = record {
  bytes = write_list_binary [] xs;
  writes = λ w. ap some (write_list_binary-append w xs);
  reads = list_binary_round_trip xs few h;
}

-- An enumeration is written as its code.
code-Carries :
    {A : Type 0} (p : Reader A) (code : A → ℕ) (t : A)
    → code t < 2 ^ 32
    → ((bs : List ℕ) → Reads read_zigzag_i32 bs (code t) → Reads p bs t)
    → Carries p (write_code code) t
code-Carries p code t h r = record {
  bytes = write_zigzag_i32 [] (code t);
  writes = λ w. ap some (write_zigzag_i32-append w (code t));
  reads = r (write_zigzag_i32 [] (code t)) (zigzag_i32_round_trip (code t) h);
}

pub parquet_type-Carries :
    (t : ParquetType) → Carries read_parquet_type (write_code parquet_type_code) t
parquet_type-Carries t =
    code-Carries read_parquet_type parquet_type_code t (parquet_type_code-lt t)
      (parquet_type_code-Reads t)

pub encoding-Carries : (t : Encoding) → Carries read_encoding (write_code encoding_code) t
encoding-Carries t =
    code-Carries read_encoding encoding_code t (encoding_code-lt t) (encoding_code-Reads t)

pub codec-Carries : (t : CompressionCodec) → Carries read_codec (write_code codec_code) t
codec-Carries t = code-Carries read_codec codec_code t (codec_code-lt t) (codec_code-Reads t)

pub page_type-Carries : (t : PageType) → Carries read_page_type (write_code page_type_code) t
page_type-Carries t =
    code-Carries read_page_type page_type_code t (page_type_code-lt t) (page_type_code-Reads t)

pub repetition_type-Carries :
    (t : FieldRepetitionType) → Carries read_repetition_type (write_code repetition_type_code) t
repetition_type-Carries t =
    code-Carries read_repetition_type repetition_type_code t (repetition_type_code-lt t)
      (repetition_type_code-Reads t)

pub converted_type-Carries :
    (t : ConvertedType) → Carries read_converted_type (write_code converted_type_code) t
converted_type-Carries t =
    code-Carries read_converted_type converted_type_code t (converted_type_code-lt t)
      (converted_type_code-Reads t)

pub empty-Carries :
    (name : String) (t : Unit {0}) → Carries (read_empty_struct name) write_empty_struct t
unfolding write_field_stop
empty-Carries name t = record {
  bytes = 0x00 ∷ [];
  writes = λ w. refl;
  reads = read_empty_struct-Reads name t;
}

length-codes_of : (ts : List Encoding) → length (codes_of ts) ≡ length ts
length-codes_of [] = refl
length-codes_of (t ∷ ts) = omega (arith, length-codes_of ts)

codes_of-IsI32 : (ts : List Encoding) → All IsI32 (codes_of ts)
codes_of-IsI32 [] = tt
codes_of-IsI32 (t ∷ ts) = (encoding_code-lt t, codes_of-IsI32 ts)

encodings_of-codes : (ts : List Encoding) → encodings_of (codes_of ts) ≡ ok ts
unfolding encodings_of
encodings_of-codes [] = refl
encodings_of-codes (t ∷ ts) =
    ap
      (λ r. elim r as (λ _. Result FormatError (List Encoding)) [
        | err e ↦ err e
        | ok u ↦ elim (encodings_of (codes_of ts)) [ err e ↦ err e | ok us ↦ ok (u ∷ us) ]
      ])
      (encoding_from_i32-code t)
    ∙ ap
        (λ r. elim r as (λ _. Result FormatError (List Encoding)) [
          | err e ↦ err e
          | ok us ↦ ok (t ∷ us)
        ])
        (encodings_of-codes ts)

pub encodings-Carries :
    (ts : List Encoding) → IsSized ts → Carries read_encodings write_encodings ts
unfolding read_encodings write_encodings
encodings-Carries ts few = record {
  bytes = write_list_i32 [] (codes_of ts);
  writes = λ w. ap some (write_list_i32-append w (codes_of ts));
  reads =
      Reads-result read_list_i32 encodings_of (write_list_i32 [] (codes_of ts)) (codes_of ts) ts
        (list_i32_round_trip (codes_of ts) (omega (arith, length-codes_of ts)) (codes_of-IsI32 ts))
        (encodings_of-codes ts);
}

module _ {A : Type 0} {p : Reader A} {g : Encoder A} where
  pub opt_any : ((a : A) → Carries p g a) → (o : Option A) → OptAll (Carries p g) o
  opt_any f none = tt
  opt_any f (some a) = f a

  module _ {P : A → Type 0} (f : (a : A) → P a → Carries p g a) where
    pub opt-Carries : (o : Option A) → OptAll P o → OptAll (Carries p g) o
    opt-Carries none h = tt
    opt-Carries (some a) h = f a h

    All-Carries : (xs : List A) → All P xs → All (Carries p g) xs
    All-Carries [] h = tt
    All-Carries (x ∷ xs) (hx, hxs) = (f x hx, All-Carries xs hxs)

    pub list-Carries :
        (size : ℕ) (xs : List A)
        → IsVec size P xs
        → Carries (read_list_struct size p) (write_list_struct g) xs
    list-Carries size xs (few, room, h) = Carries-list p g size xs few room (All-Carries xs h)
