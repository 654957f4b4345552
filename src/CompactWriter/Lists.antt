-- ===== src/CompactWriter/Lists.antt =====
-- Round trips of the lists: the list readers take back what the list writers append.
use ematix_parquet.Base.{
  ℕ, All, ◌^◌, ◌<◌, ◌≡◌, refl, sym, ap, ◌∙◌, arith, List, [], ◌∷◌, ◌++◌, append_assoc, append-nil,
  length, true, false, Bool,
}
use ematix_parquet.Compact.{
  FieldType, read_list_i32, read_list_i64, read_list_binary, read_list_bool, read_bool,
  read_zigzag_i32, read_zigzag_i64, read_binary, i32, i64, binary, bool_true,
}
use ematix_parquet.Compact.At.{Reads}
use ematix_parquet.Compact.Lists.{
  times-Reads, list_i32-Reads, list_i64-Reads, list_binary-Reads, list_bool-Reads, bool-Reads,
}
use ematix_parquet.Compact.Wire.{each}
use ematix_parquet.CompactWriter.{
  Writer, write_each, write_list_header, write_list_i32, write_list_i64, write_list_bool,
  write_list_binary, write_zigzag_i32, write_zigzag_i64, write_binary, bool_code,
}
use ematix_parquet.CompactWriter.Varint.{
  write_zigzag_i32-append, write_zigzag_i64-append, zigzag_i32_round_trip, zigzag_i64_round_trip,
}
use ematix_parquet.CompactWriter.Headers.{
  list_header_round_trip, write_list_header-append, write_binary-append, binary_round_trip,
}

module _ {ℓ} {A : Type ℓ} (one : Writer → A → Writer)
    (adds : (w : Writer) (x : A) → one w x ≡ w ++ one [] x) where
  -- A writer that appends, over a list, appends the items' bytes.
  write_each-each : (w : Writer) (xs : List A) → write_each one w xs ≡ w ++ each (one []) xs
  unfolding write_each
  write_each-each w [] = sym (append-nil w)
  write_each-each w (x ∷ xs) =
      write_each-each (one w x) xs
      ∙ ap (λ u. u ++ each (one []) xs) (adds w x)
      ∙ append_assoc w (one [] x) (each (one []) xs)

pub list_i32_round_trip :
    (xs : List ℕ)
    → length xs < 2 ^ 64
    → All (λ x. x < 2 ^ 32) xs
    → Reads read_list_i32 (write_list_i32 [] xs) xs
unfolding write_list_i32
list_i32_round_trip xs len h =
    rw
      (write_each-each write_zigzag_i32 write_zigzag_i32-append
        (write_list_header [] (length xs) i32) xs)
      (list_i32-Reads (write_list_header [] (length xs) i32) (each (write_zigzag_i32 []) xs) xs
        (list_header_round_trip (length xs) i32 len)
        (times-Reads _ read_zigzag_i32 (write_zigzag_i32 []) zigzag_i32_round_trip xs h))

pub list_i64_round_trip :
    (xs : List ℕ)
    → length xs < 2 ^ 64
    → All (λ x. x < 2 ^ 64) xs
    → Reads read_list_i64 (write_list_i64 [] xs) xs
unfolding write_list_i64
list_i64_round_trip xs len h =
    rw
      (write_each-each write_zigzag_i64 write_zigzag_i64-append
        (write_list_header [] (length xs) i64) xs)
      (list_i64-Reads (write_list_header [] (length xs) i64) (each (write_zigzag_i64 []) xs) xs
        (list_header_round_trip (length xs) i64 len)
        (times-Reads _ read_zigzag_i64 (write_zigzag_i64 []) zigzag_i64_round_trip xs h))

pub list_binary_round_trip :
    (xs : List (List ℕ))
    → length xs < 2 ^ 64
    → All (λ x. length x < 2 ^ 64) xs
    → Reads read_list_binary (write_list_binary [] xs) xs
unfolding write_list_binary
list_binary_round_trip xs len h =
    rw
      (write_each-each write_binary write_binary-append (write_list_header [] (length xs) binary)
        xs)
      (list_binary-Reads (write_list_header [] (length xs) binary) (each (write_binary []) xs) xs
        (list_header_round_trip (length xs) binary len)
        (times-Reads _ read_binary (write_binary []) binary_round_trip xs h))

All-of_unit : (xs : List Bool) → All (λ _. Unit {0}) xs
All-of_unit [] = tt
All-of_unit (x ∷ xs) = (tt, All-of_unit xs)

bool_code_byte : (v : Bool) → Reads read_bool (bool_code v ∷ []) v
bool_code_byte true = bool-Reads true
bool_code_byte false = bool-Reads false

pub list_bool_round_trip :
    (xs : List Bool) → length xs < 2 ^ 63 → Reads read_list_bool (write_list_bool [] xs) xs
unfolding write_list_bool
list_bool_round_trip xs len =
    rw
      (write_each-each (λ u v. u ++ bool_code v ∷ []) (λ w x. refl)
        (write_list_header [] (length xs) bool_true) xs)
      (list_bool-Reads (write_list_header [] (length xs) bool_true)
        (each (λ v. bool_code v ∷ []) xs) xs len
        (list_header_round_trip (length xs) bool_true (omega arith))
        (times-Reads _ read_bool (λ v. bool_code v ∷ []) (λ v _. bool_code_byte v) xs
          (All-of_unit xs)))

module _ {ℓ} {A : Type ℓ} (t : FieldType) (one : Writer → A → Writer)
    (adds : (w : Writer) (x : A) → one w x ≡ w ++ one [] x) where
  -- A header and then each item, behind what was written.
  list-append :
      (w : Writer) (xs : List A)
      → write_each one (write_list_header w (length xs) t) xs
        ≡ w ++ write_each one (write_list_header [] (length xs) t) xs
  list-append w xs =
      let header : List ℕ = write_list_header [] (length xs) t in
      write_each-each one adds (write_list_header w (length xs) t) xs
      ∙ ap (λ u. u ++ each (one []) xs) (write_list_header-append w (length xs) t)
      ∙ append_assoc w header (each (one []) xs)
      ∙ ap (λ u. w ++ u) (sym (write_each-each one adds header xs))

pub write_list_i32-append :
    (w : Writer) (xs : List ℕ) → write_list_i32 w xs ≡ w ++ write_list_i32 [] xs
unfolding write_list_i32
write_list_i32-append w xs = list-append i32 write_zigzag_i32 write_zigzag_i32-append w xs

pub write_list_i64-append :
    (w : Writer) (xs : List ℕ) → write_list_i64 w xs ≡ w ++ write_list_i64 [] xs
unfolding write_list_i64
write_list_i64-append w xs = list-append i64 write_zigzag_i64 write_zigzag_i64-append w xs

pub write_list_binary-append :
    (w : Writer) (xs : List (List ℕ)) → write_list_binary w xs ≡ w ++ write_list_binary [] xs
unfolding write_list_binary
write_list_binary-append w xs = list-append binary write_binary write_binary-append w xs

pub write_list_bool-append :
    (w : Writer) (xs : List Bool) → write_list_bool w xs ≡ w ++ write_list_bool [] xs
unfolding write_list_bool
write_list_bool-append w xs =
    list-append bool_true (λ u v. u ++ bool_code v ∷ []) (λ u v. refl) w xs
