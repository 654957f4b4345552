-- ===== src/Metadata/Tests.antt =====
-- The struct readers on bytes that are no struct.
use ematix_parquet.Base.{arith, true, false, [], ◌∷◌}
use ematix_parquet.Compact.{Cursor, new_cursor}
use ematix_parquet.Compact.Outcome.{Stays}
use ematix_parquet.Metadata.{Layout}
use ematix_parquet.Metadata.Page.{read_page_header}
use ematix_parquet.Metadata.Logical.{read_logical_type}
use ematix_parquet.Metadata.Index.{read_offset_index, read_column_index, read_bloom_filter_header}
use ematix_parquet.Metadata.Crypto.{read_file_crypto_metadata}
use ematix_parquet.Metadata.Chunk.{read_column_chunk}
use ematix_parquet.Metadata.File.{read_file_metadata}
use ematix_parquet.Metadata.Stays.{struct_readers_stay}

-- Sizes of the structs.
instance abbrev sizes : Layout
sizes = record {
  page_location = 24;
  key_value = 32;
  page_encoding_stats = 8;
  schema_element = 120;
  column_chunk = 600;
  sorting_column = 8;
  row_group = 104;
  column_order = 1;
}

abbrev garbage : Cursor
garbage = new_cursor (0x19 ∷ 0xfc ∷ 0xff ∷ 0x15 ∷ [])

struct_readers_stay_example :
    Stays true garbage (read_file_metadata garbage)
    × Stays false garbage (read_page_header garbage)
    × Stays true garbage (read_column_chunk garbage)
    × Stays true garbage (read_column_index garbage)
    × Stays true garbage (read_offset_index garbage)
    × Stays false garbage (read_bloom_filter_header garbage)
    × Stays false garbage (read_logical_type garbage)
    × Stays false garbage (read_file_crypto_metadata garbage)
struct_readers_stay_example = struct_readers_stay garbage (omega arith)
