-- ===== src/Metadata/Safety.antt =====
-- The loop of metadata.rs's struct readers, on any bytes: it stays in the buffer, and the rounds
-- it is given suffice.
use Prim.Native.String.{String}
use ematix_parquet.Base.{
  ℕ, zero, suc, ◌<◌, refl, ap, arith, length, Bool, true, Option, none, some, Result, if◌then◌else◌,
}
use ematix_parquet.Compact.{
  Cursor, FormatError, Reader, FieldHeader, ◌>>=◌, pure, from_result, advance, remaining,
  read_field_header, read_list_struct, read_i8, read_zigzag_i16, read_zigzag_i32, read_zigzag_i64,
  read_binary, read_list_i32, read_list_i64, read_list_binary, read_list_bool,
}
use ematix_parquet.Compact.Outcome.{
  IsWithin, IsSource, Stays, Safe, bind-Safe, if-Safe, result-Safe, next-Stays, Stays-trans,
}
use ematix_parquet.Compact.Bounds.{
  field_header_moves, field_header-Safe, list_struct-Safe, i8-Safe, zigzag_i16-Safe,
  zigzag_i32-Safe, zigzag_i64-Safe, binary-Safe, list_i32-Safe, list_i64-Safe, list_binary-Safe,
  list_bool-Safe,
}
use ematix_parquet.Types.{
  read_parquet_type, read_encoding, read_codec, read_page_type, read_repetition_type,
  read_boundary_order, read_algorithm, read_converted_type,
}
use ematix_parquet.Types.Safety.{
  parquet_type-Safe, encoding-Safe, codec-Safe, page_type-Safe, repetition_type-Safe,
  boundary_order-Safe, algorithm-Safe, converted_type-Safe,
}
use ematix_parquet.Metadata.{
  unknown, required, chosen_of, read_fields, read_struct, read_empty_struct,
}

-- `Safe`, as a record that a search finds by its head.
pub record IsSafe {A : Type 0} (b : Bool) (p : Reader A) : Type 0 where
  pub stays : Safe b p

pub unknown-IsSafe :
    {b : Bool} (A : Type 0) (name : String) (id : ℕ) → IsSafe b (unknown {A = A} name id)
unknown-IsSafe A name id = record { stays = λ d k. tt }

module _ {A : Type 0} (b : Bool) where
  pure-Safe : (a : A) → Safe b (pure a)
  pure-Safe a d k = (refl, omega arith, k)

  required-Safe : (name : String) (id : ℕ) (o : Option A) → Safe b (required name id o)
  required-Safe name id none d k = tt
  required-Safe name id (some a) d k = (refl, omega arith, k)

  chosen_of-Safe : (name : String) (o : Option A) → Safe b (chosen_of name o)
  chosen_of-Safe name none d k = tt
  chosen_of-Safe name (some a) d k = (refl, omega arith, k)

module _ {A : Type 0} {b : Bool} where
  pub pure-IsSafe : (a : A) → IsSafe b (pure a)
  pure-IsSafe a = record { stays = pure-Safe b a }

  pub required-IsSafe : (name : String) (id : ℕ) (o : Option A) → IsSafe b (required name id o)
  required-IsSafe name id o = record { stays = required-Safe b name id o }

  pub chosen_of-IsSafe : (name : String) (o : Option A) → IsSafe b (chosen_of name o)
  chosen_of-IsSafe name o = record { stays = chosen_of-Safe b name o }

  pub result-IsSafe : (r : Result FormatError A) → IsSource r → IsSafe b (from_result r)
  result-IsSafe r h = record { stays = result-Safe _ r h }

  pub if-IsSafe :
      (t : Bool) (p q : Reader A) → IsSafe b p → IsSafe b q → IsSafe b (if t then p else q)
  if-IsSafe t p q hp hq = record { stays = if-Safe _ t p q hp.stays hq.stays }

pub list_struct-IsSafe :
    {A : Type 0} (size : ℕ) (one : Reader A)
    → IsSafe true one
    → IsSafe true (read_list_struct size one)
list_struct-IsSafe size one h = record { stays = list_struct-Safe size one h.stays }

pub bind-IsSafe :
    {b : Bool} {A B : Type 0} (p : Reader A) (f : A → Reader B)
    → IsSafe b p
    → ((a : A) → IsSafe b (f a))
    → IsSafe b (p >>= f)
bind-IsSafe p f hp hf = record { stays = bind-Safe _ p f hp.stays (λ a. (hf a).stays) }

pub i8-IsSafe : {b : Bool} → IsSafe b read_i8
i8-IsSafe = record { stays = i8-Safe _ }

pub zigzag_i16-IsSafe : {b : Bool} → IsSafe b read_zigzag_i16
zigzag_i16-IsSafe = record { stays = zigzag_i16-Safe _ }

pub zigzag_i32-IsSafe : {b : Bool} → IsSafe b read_zigzag_i32
zigzag_i32-IsSafe = record { stays = zigzag_i32-Safe _ }

pub zigzag_i64-IsSafe : {b : Bool} → IsSafe b read_zigzag_i64
zigzag_i64-IsSafe = record { stays = zigzag_i64-Safe _ }

pub binary-IsSafe : {b : Bool} → IsSafe b read_binary
binary-IsSafe = record { stays = binary-Safe _ }

pub list_i32-IsSafe : {b : Bool} → IsSafe b read_list_i32
list_i32-IsSafe = record { stays = list_i32-Safe _ }

pub list_i64-IsSafe : {b : Bool} → IsSafe b read_list_i64
list_i64-IsSafe = record { stays = list_i64-Safe _ }

pub list_binary-IsSafe : {b : Bool} → IsSafe b read_list_binary
list_binary-IsSafe = record { stays = list_binary-Safe _ }

pub list_bool-IsSafe : IsSafe true read_list_bool
list_bool-IsSafe = record { stays = list_bool-Safe }

pub parquet_type-IsSafe : {b : Bool} → IsSafe b read_parquet_type
parquet_type-IsSafe = record { stays = parquet_type-Safe _ }

pub encoding-IsSafe : {b : Bool} → IsSafe b read_encoding
encoding-IsSafe = record { stays = encoding-Safe _ }

pub codec-IsSafe : {b : Bool} → IsSafe b read_codec
codec-IsSafe = record { stays = codec-Safe _ }

pub page_type-IsSafe : {b : Bool} → IsSafe b read_page_type
page_type-IsSafe = record { stays = page_type-Safe _ }

pub repetition_type-IsSafe : {b : Bool} → IsSafe b read_repetition_type
repetition_type-IsSafe = record { stays = repetition_type-Safe _ }

pub boundary_order-IsSafe : {b : Bool} → IsSafe b read_boundary_order
boundary_order-IsSafe = record { stays = boundary_order-Safe _ }

pub algorithm-IsSafe : {b : Bool} → IsSafe b read_algorithm
algorithm-IsSafe = record { stays = algorithm-Safe _ }

pub converted_type-IsSafe : {b : Bool} → IsSafe b read_converted_type
converted_type-IsSafe = record { stays = converted_type-Safe _ }

pub ruleset arms = (
  if-IsSafe, bind-IsSafe, pure-IsSafe, unknown-IsSafe, required-IsSafe, chosen_of-IsSafe,
  list_struct-IsSafe, i8-IsSafe, zigzag_i16-IsSafe, zigzag_i32-IsSafe, zigzag_i64-IsSafe,
  binary-IsSafe, list_i32-IsSafe, list_i64-IsSafe, list_binary-IsSafe, list_bool-IsSafe,
  parquet_type-IsSafe, encoding-IsSafe, codec-IsSafe, page_type-IsSafe, repetition_type-IsSafe,
  boundary_order-IsSafe, algorithm-IsSafe, converted_type-IsSafe,
)

-- What follows a field header.
pub option-Stays :
    (b : Bool) {A B : Type 0} (o : Option A) (p : Reader B) (f : A → Reader B) (c : Cursor)
    → Stays b c (p c)
    → ((a : A) → Stays b c (f a c))
    → Stays b c ((elim o as (λ k. Reader B) [ none ↦ p | some a ↦ f a ]) c)
option-Stays b none p f c hp hf = hp
option-Stays b (some a) p f c hp hf = hf a

module _ {S : Type 0} {b : Bool} (field : FieldHeader → S → Reader S)
    (hfield : (h : FieldHeader) (s : S) → IsSafe b (field h s)) where
  -- The loop takes the stop byte at least.
  fields-Stays :
      (rounds prev : ℕ) (s : S) (c : Cursor)
      → IsWithin c
      → remaining c < rounds
      → Stays b (advance 1 c) (read_fields rounds field prev s c)
  unfolding read_fields
  fields-Stays zero prev s c h few = absurd (omega arith)
  fields-Stays (suc n) prev s c h few =
      next-Stays _ (advance 1 c) (read_field_header prev c) _ (field_header_moves _ prev c h)
        λ o c' same forward within. option-Stays _ o (pure s) _ c' (pure-Safe b s c' within) λ hd.
          next-Stays _ c' (field hd s c') _ ((hfield hd s).stays c' within)
            λ s' c'' same' forward' within'.
              Stays-trans _ c'' (advance 1 c'') _ refl (omega arith) (
                fields-Stays n hd.id s' c'' within'
                  (omega (arith, ap length same, ap length same')))

  module _ {A : Type 0} (start : S) (finish : S → Reader A)
      (hfinish : (s : S) → IsSafe b (finish s)) where
    pub read_struct_moves :
        (c : Cursor) → IsWithin c → Stays b (advance 1 c) (read_struct field start finish c)
    unfolding read_struct
    read_struct_moves c h =
        next-Stays _ (advance 1 c) (read_fields (suc (remaining c)) field 0 start c) finish
          (fields-Stays (suc (remaining c)) 0 start c h (omega arith))
          (λ s c' same forward within. (hfinish s).stays c' within)

    pub read_struct-IsSafe : IsSafe b (read_struct field start finish)
    read_struct-IsSafe = record {
      stays = λ c h. Stays-trans _ c (advance 1 c) _ refl (omega arith) (read_struct_moves c h);
    }

empty_struct-Safe : (b : Bool) (name : String) → Safe b (read_empty_struct name)
unfolding read_empty_struct
empty_struct-Safe b name = bind-Safe _ (read_field_header 0) _ (field_header-Safe _ 0) λ o c h.
    option-Stays _ o (pure tt) _ c (pure-Safe b tt c h)
      (λ hd. (unknown-IsSafe {b = b} (Unit {0}) name hd.id).stays c h)

pub empty_struct-IsSafe : {b : Bool} (name : String) → IsSafe b (read_empty_struct name)
empty_struct-IsSafe name = record { stays = empty_struct-Safe _ name }
