-- ===== src/ParquetFile/Tests.antt =====
-- A file without rows, from its bytes.
use ematix_parquet.Base.{
  ℕ, ◌+◌, ◌≡◌, refl, arith, lt_wf, dec_le, some, none, List, [], ◌∷◌, length, ok,
}
use ematix_parquet.CompactWriter.{
  write_field_header, write_field_stop, write_list_header, write_zigzag_i32, write_zigzag_i64,
  write_uvarint, uvarint_loop, zigzag, id_diff, is_short_delta,
}
use ematix_parquet.Metadata.{Layout}
use ematix_parquet.Metadata.File.{FileMetaData}
use ematix_parquet.MetadataWriter.{
  put, put_opt, refuse, write_fields, write_struct, encode_each, write_list_struct,
}
use ematix_parquet.MetadataWriter.File.{write_file_metadata, encode_file_metadata}
use ematix_parquet.MetadataWriter.File.Valid.{IsFileMetaData}
use ematix_parquet.ParquetFile.{ParquetFile, open_file, metadata, cached_metadata, read_range}
use ematix_parquet.ParquetFile.Footer.{file_of, open_file-write}
use ematix_parquet.ParquetFile.Cache.{opened, Answer, cached_metadata-Reached}

-- Sizes of the structs.
instance abbrev sizes : Layout
sizes = record {
  page_location = 24;
  key_value = 32;
  page_encoding_stats = 8;
  schema_element = 120;
  column_chunk = 600;
  sorting_column = 8;
  row_group = 104;
  column_order = 1;
}

abbrev no_rows : FileMetaData
no_rows = record {
  version = 2;
  schema = [];
  num_rows = 0;
  row_groups = [];
  key_value_metadata = none;
  created_by = none;
  column_orders = none;
  encryption_algorithm = none;
  footer_signing_key_metadata = none;
}

abbrev footer : List ℕ
footer = 0x15 ∷ 0x04 ∷ 0x19 ∷ 0x0c ∷ 0x16 ∷ 0x00 ∷ 0x19 ∷ 0x0c ∷ 0x00 ∷ []

abbrev body : List ℕ
body = 0x01 ∷ 0x02 ∷ []

no_rows-IsFileMetaData : IsFileMetaData no_rows
no_rows-IsFileMetaData = record {
  version = omega arith;
  schema = (omega arith, omega arith, tt);
  num_rows = omega arith;
  row_groups = (omega arith, omega arith, tt);
  key_value_metadata = tt;
  created_by = tt;
  column_orders = refl;
  encryption_algorithm = tt;
  footer_signing_key_metadata = tt;
}

no_rows_written : write_file_metadata no_rows ≡ some footer
unfolding write_file_metadata encode_file_metadata write_struct write_fields put put_opt refuse
    write_list_struct encode_each write_field_header write_field_stop write_list_header
    write_zigzag_i32 write_zigzag_i64 write_uvarint uvarint_loop lt_wf dec_le zigzag id_diff
    is_short_delta
no_rows_written = refl

open_file-write_example :
    (f : ParquetFile) × (open_file (file_of body footer) ≡ ok f)
    × (metadata f ≡ ok no_rows)
    × (f.footer_offset ≡ 4 + length body)
    × (read_range f 4 (length body) ≡ ok body)
open_file-write_example =
    open_file-write no_rows body footer no_rows-IsFileMetaData no_rows_written (omega arith)

-- The file as it is opened.
abbrev opened_file : ParquetFile
opened_file = record {
  file = file_of body footer;
  file_size = 23;
  footer_bytes = footer;
  footer_offset = 6;
  cached_meta = none;
}

opens : open_file (file_of body footer) ≡ ok opened_file
unfolding open_file
opens = refl

cached_metadata-Reached_example :
    (f0 : ParquetFile) × (open_file (file_of body footer) ≡ ok f0)
    × (metadata opened_file ≡ metadata f0)
    × (cached_metadata opened_file ≡ Answer opened_file (metadata f0))
cached_metadata-Reached_example =
    cached_metadata-Reached (file_of body footer) opened_file (opened opens)
