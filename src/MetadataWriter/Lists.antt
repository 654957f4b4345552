-- ===== src/MetadataWriter/Lists.antt =====
-- Lists of structs: what is written of one is read back, if it is of each item.
use ematix_parquet.Base.{
  ℕ, ◌*◌, ◌^◌, ◌<◌, ◌≡◌, sym, ap, ◌∙◌, none, some, List, [], ◌∷◌, ◌++◌, append_assoc, append-nil,
  length, All,
}
use ematix_parquet.Compact.{Reader, struct, read_list_struct, times}
use ematix_parquet.Compact.At.{Reads, Reads-bind, Reads-pure, Reads-map}
use ematix_parquet.Compact.Lists.{list_struct-Reads}
use ematix_parquet.CompactWriter.{Writer, write_list_header}
use ematix_parquet.CompactWriter.Headers.{list_header_round_trip, write_list_header-append}
use ematix_parquet.MetadataWriter.{Encoder, encode_each, write_list_struct}
use ematix_parquet.MetadataWriter.Rules.{Carries}

module _ {A : Type 0} (p : Reader A) (g : Encoder A) where
  record CarriesEach (xs : List A) : Type 0 where
    bytes : List ℕ
    writes : (w : Writer) → encode_each g w xs ≡ some (w ++ bytes)
    reads : Reads (times (length xs) p) bytes xs

  each_cons :
      (w w' : Writer) (x : A) (xs : List A)
      → g w x ≡ some w'
      → encode_each g w (x ∷ xs) ≡ encode_each g w' xs
  unfolding encode_each
  each_cons w w' x xs e = ap (λ r. elim r [ none ↦ none | some v ↦ encode_each g v xs ]) e

  Carries-each : (xs : List A) → All (Carries p g) xs → CarriesEach xs
  unfolding encode_each times
  Carries-each [] h = record {
    bytes = [];
    writes = λ w. ap some (sym (append-nil w));
    reads = Reads-pure [];
  }
  Carries-each (x ∷ xs) (hx, hxs) =
      let rest : CarriesEach xs = Carries-each xs hxs in
      record {
        bytes = hx.bytes ++ rest.bytes;
        writes = λ w.
            each_cons w (w ++ hx.bytes) x xs (hx.writes w)
            ∙ rest.writes (w ++ hx.bytes)
            ∙ ap some (append_assoc w hx.bytes rest.bytes);
        reads =
            Reads-bind p _ hx.bytes rest.bytes x (x ∷ xs) hx.reads
              (Reads-map (times (length xs) p) (λ ys. x ∷ ys) rest.bytes xs rest.reads);
      }

  pub Carries-list :
      (size : ℕ) (xs : List A)
      → length xs < 2 ^ 64
      → length xs * size < 2 ^ 63
      → All (Carries p g) xs
      → Carries (read_list_struct size p) (write_list_struct g) xs
  unfolding write_list_struct
  Carries-list size xs few room h =
      let each : CarriesEach xs = Carries-each xs h in
      let header : List ℕ = write_list_header [] (length xs) struct in
      record {
        bytes = header ++ each.bytes;
        writes = λ w.
            each.writes (write_list_header w (length xs) struct)
            ∙ ap some (
                ap (λ v. v ++ each.bytes) (write_list_header-append w (length xs) struct)
                ∙ append_assoc w header each.bytes);
        reads =
            list_struct-Reads size p header each.bytes xs room
              (list_header_round_trip (length xs) struct few) each.reads;
      }
