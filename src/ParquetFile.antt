-- ===== src/ParquetFile.antt =====
-- crates/ematix-parquet-io/src/file.rs: the footer of a file, and reads of byte ranges. The file is
-- the list of its bytes, which is all that `open` and `read_range` take from the operating system;
-- I/O errors and the path are left out. `cached_meta` is the `OnceLock`.
pub mod Footer
pub mod Cache
pub mod Tests
use ematix_parquet.Metadata.{Layout}
use ematix_parquet.Base.{
  ℕ, ◌+◌, ◌-◌, ◌^◌, min, ltb, ◌==◌, ◌&&◌, not, if◌then◌else◌, Bool, true, false, Option, none, some,
  List, [], ◌∷◌, length, take, drop, Result, ok, err,
}
use ematix_parquet.Base.LeBytes.{le_value}
use ematix_parquet.Compact.{Cursor, FormatError, new_cursor}
use ematix_parquet.Metadata.File.{FileMetaData, read_file_metadata}
use ematix_parquet.PageWalker.{
  IoError, format, not_a_parquet_file, truncated_footer, out_of_range_read,
}

-- "PAR1".
abbrev pub parquet_magic : List ℕ
parquet_magic = 0x50 ∷ 0x41 ∷ 0x52 ∷ 0x31 ∷ []

abbrev pub footer_trailer_len : ℕ
footer_trailer_len = 8

pub record ParquetFile : Type 0 where
  pub file : List ℕ
  pub file_size : ℕ
  pub footer_bytes : List ℕ
  pub footer_offset : ℕ
  pub cached_meta : Option FileMetaData

abbrev pub same_bytes : List ℕ → List ℕ → Bool
same_bytes [] [] = true
same_bytes [] (y ∷ ys) = false
same_bytes (x ∷ xs) [] = false
same_bytes (x ∷ xs) (y ∷ ys) = x == y && same_bytes xs ys

-- `seek` and `read_exact`, inside the file.
abbrev pub read_at : List ℕ → ℕ → ℕ → List ℕ
read_at file offset n = take n (drop offset file)

pub open_file : List ℕ → Result IoError ParquetFile
open_file file =
    let file_size = length file in
    let head = read_at file 0 4 in
    let tail = read_at file (file_size - footer_trailer_len) 8 in
    let tail_magic = drop 4 tail in
    let footer_len = le_value (take 4 tail) in
    let footer_offset = file_size - footer_trailer_len - footer_len in
    if ltb file_size (4 + footer_trailer_len)
    then err (truncated_footer file_size 0)
    else if not (same_bytes head parquet_magic)
    then err (not_a_parquet_file parquet_magic head "file head")
    else if not (same_bytes tail_magic parquet_magic)
    then err (not_a_parquet_file parquet_magic tail_magic "file tail")
    else if ltb (file_size - footer_trailer_len - 4) footer_len
    then err (truncated_footer file_size footer_len)
    else ok (record {
      file = file;
      file_size = file_size;
      footer_bytes = read_at file footer_offset footer_len;
      footer_offset = footer_offset;
      cached_meta = none;
    })

abbrev pub from_format : {A : Type 0} → Result FormatError (A × Cursor) → Result IoError A
from_format (err e) = err (format e)
from_format (ok (a, c)) = ok a

pub metadata : ⦃layout : Layout⦄ → ParquetFile → Result IoError FileMetaData
metadata f = from_format (read_file_metadata (new_cursor f.footer_bytes))

-- What is read is stored; the result comes with the file as it is then.
pub cached_metadata : ⦃layout : Layout⦄ → ParquetFile → Result IoError (FileMetaData × ParquetFile)
cached_metadata f = elim f.cached_meta [
  | some m ↦ ok (m, f)
  | none ↦ elim (metadata f) [ err e ↦ err e | ok md ↦ ok (md, record f { cached_meta = some md }) ]
]

-- `offset.saturating_add(length)` of two u64.
abbrev pub saturating_add : ℕ → ℕ → ℕ
saturating_add a b = min (a + b) (2 ^ 64 - 1)

pub read_range : ParquetFile → ℕ → ℕ → Result IoError (List ℕ)
read_range f offset n =
    if ltb f.file_size (saturating_add offset n)
    then err (out_of_range_read offset n f.file_size)
    else ok (read_at f.file offset n)
