-- ===== src/ParquetFile/Footer.antt =====
-- A file that is put together from a body and a footer, opened and read.
use ematix_parquet.Metadata.{Layout}
use ematix_parquet.Base.{
  ℕ, ◌+◌, ◌-◌, ◌^◌, ◌<◌, ◌≡◌, ◌∙◌, refl, sym, ap, min, arith, ltb, false, none, some, List, [],
  ◌++◌, append_assoc, append-nil, length, length-append, take, drop, ok,
}
use ematix_parquet.Base.LeBytes.{le_value, le_bytes, length-le_bytes, le_value-le_bytes}
use ematix_parquet.Compact.{new_cursor}
use ematix_parquet.Compact.At.{take_prefix, drop_prefix}
use ematix_parquet.Metadata.File.{FileMetaData, read_file_metadata}
use ematix_parquet.MetadataWriter.File.{write_file_metadata}
use ematix_parquet.MetadataWriter.File.Valid.{IsFileMetaData}
use ematix_parquet.MetadataWriter.RoundTrip.{read_file_metadata-write}
use ematix_parquet.ParquetFile.{
  ParquetFile, parquet_magic, read_at, open_file, from_format, metadata, read_range,
}

-- The magic, the body, the footer, its length in four bytes, and the magic.
abbrev pub file_of : List ℕ → List ℕ → List ℕ
file_of body footer =
    parquet_magic ++ (body ++ (footer ++ (le_bytes 4 (length footer) ++ parquet_magic)))

read_at_prefix : (a b c : List ℕ) → read_at (a ++ (b ++ c)) (length a) (length b) ≡ b
read_at_prefix a b c = ap (take (length b)) (drop_prefix a (b ++ c)) ∙ take_prefix b c

module _ (body footer : List ℕ) where
  trailer : List ℕ
  trailer = le_bytes 4 (length footer) ++ parquet_magic

  length-trailer : length trailer ≡ 8
  unfolding trailer
  length-trailer = omega (
    arith,
    length-append (le_bytes 4 (length footer)) parquet_magic,
    length-le_bytes 4 (length footer),
  )

  length-file_of : length (file_of body footer) ≡ 12 + length body + length footer
  unfolding trailer
  length-file_of = omega (
    arith,
    length-trailer,
    length-append parquet_magic (body ++ (footer ++ trailer)),
    length-append body (footer ++ trailer),
    length-append footer trailer,
  )

-- What `open_file` looks at, and what it makes of it.
record Shape (file footer : List ℕ) (offset : ℕ) : Type 0 where
  size : ltb (length file) 12 ≡ false
  head : read_at file 0 4 ≡ parquet_magic
  magic : drop 4 (read_at file (length file - 8) 8) ≡ parquet_magic
  declared : le_value (take 4 (read_at file (length file - 8) 8)) ≡ length footer
  fits : ltb (length file - 8 - 4) (length footer) ≡ false
  at : length file - 8 - length footer ≡ offset
  footer_at : read_at file offset (length footer) ≡ footer

open_file-Shape :
    (file footer : List ℕ) (offset : ℕ)
    → Shape file footer offset
    → open_file file
      ≡ ok (record {
        file = file;
        file_size = length file;
        footer_bytes = footer;
        footer_offset = offset;
        cached_meta = none;
      })
unfolding open_file
open_file-Shape file footer offset s =
    rw (s.size, s.head, s.magic, s.declared, s.fits, s.at, s.footer_at) refl

module _ (body footer : List ℕ) (short : length footer < 2 ^ 32) where
  file_of-Shape : Shape (file_of body footer) footer (4 + length body)
  unfolding trailer
  file_of-Shape =
      let size : length (file_of body footer) ≡ 12 + length body + length footer =
        length-file_of body footer in
      let before : List ℕ = parquet_magic ++ body in
      let first : file_of body footer ≡ before ++ (footer ++ trailer body footer) =
        sym (append_assoc parquet_magic body (footer ++ trailer body footer)) in
      let split : file_of body footer ≡ (before ++ footer) ++ (trailer body footer ++ []) =
        first
        ∙ sym (append_assoc before footer (trailer body footer))
        ∙ ap (λ t. (before ++ footer) ++ t) (sym (append-nil (trailer body footer))) in
      let tail_at : length (file_of body footer) - 8 ≡ length (before ++ footer) =
        omega (arith, size, length-append before footer, length-append parquet_magic body) in
      let tail : read_at (file_of body footer) (length (file_of body footer) - 8) 8
          ≡ trailer body footer =
        ap (λ n. read_at (file_of body footer) n 8) tail_at
        ∙ ap (λ f. read_at f (length (before ++ footer)) 8) split
        ∙ ap
            (λ n.
              read_at ((before ++ footer) ++ (trailer body footer ++ []))
                (length (before ++ footer)) n)
            (sym (length-trailer body footer))
        ∙ read_at_prefix (before ++ footer) (trailer body footer) [] in
      let bytes : List ℕ = le_bytes 4 (length footer) in
      record {
        size = ground (arith, size);
        head = refl;
        magic = ap (drop 4) tail ∙ drop_prefix bytes parquet_magic;
        declared =
            ap (λ t. le_value (take 4 t)) tail
            ∙ ap le_value (take_prefix bytes parquet_magic)
            ∙ le_value-le_bytes 4 (length footer) short;
        fits = ground (arith, size);
        at = omega (arith, size);
        footer_at =
            ap (λ f. read_at f (4 + length body) (length footer)) first
            ∙ ap (λ n. read_at (before ++ (footer ++ trailer body footer)) n (length footer))
                (sym (length-append parquet_magic body))
            ∙ read_at_prefix before footer (trailer body footer);
      }

-- For a file of the magic, any body, a footer that `write_file_metadata` put out for metadata in
-- its ranges and without the fields it refuses and that is shorter than 2^32 bytes, its length in
-- four bytes and the magic: `open_file` succeeds, its `metadata` is that of the footer, the
-- footer's offset is where the body ends, and a read of the body's range gives the body.
pub open_file-write :
    ⦃layout : Layout⦄ (md : FileMetaData) (body footer : List ℕ)
    → IsFileMetaData md
    → write_file_metadata md ≡ some footer
    → length footer < 2 ^ 32
    → (f : ParquetFile) × (open_file (file_of body footer) ≡ ok f)
      × (metadata f ≡ ok md)
      × (f.footer_offset ≡ 4 + length body)
      × (read_range f 4 (length body) ≡ ok body)
unfolding metadata read_range trailer
open_file-write md body footer valid e short =
    let (bytes, written, back) = read_file_metadata-write md [] valid in
    let same : footer ≡ bytes = cc in
    let size : length (file_of body footer) ≡ 12 + length body + length footer =
      length-file_of body footer in
    let inside : ltb (length (file_of body footer)) (min (4 + length body) (2 ^ 64 - 1)) ≡ false =
      ground (arith, size) in
    (
      _,
      open_file-Shape (file_of body footer) footer (4 + length body)
          (file_of-Shape body footer short),
      ap (λ b. from_format (read_file_metadata (new_cursor b))) (same ∙ sym (append-nil bytes))
          ∙ ap from_format back,
      refl,
      rw inside (ap ok (read_at_prefix parquet_magic body (footer ++ trailer body footer))),
    )
