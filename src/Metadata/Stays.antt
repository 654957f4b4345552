-- ===== src/Metadata/Stays.antt =====
-- Where the struct readers of metadata.rs leave the cursor, on any bytes, well formed or not.
use ematix_parquet.Base.{true, false}
use ematix_parquet.Metadata.{Layout}
use ematix_parquet.Compact.{Cursor}
use ematix_parquet.Compact.Outcome.{IsWithin, Stays}
use ematix_parquet.Metadata.Page.{read_page_header}
use ematix_parquet.Metadata.Page.Safety.{page_header-IsSafe}
use ematix_parquet.Metadata.Logical.{read_logical_type}
use ematix_parquet.Metadata.Logical.Safety.{logical_type-IsSafe}
use ematix_parquet.Metadata.Index.{read_offset_index, read_column_index, read_bloom_filter_header}
use ematix_parquet.Metadata.Index.Safety.{
  offset_index-IsSafe, column_index-IsSafe, bloom_filter_header-IsSafe,
}
use ematix_parquet.Metadata.Crypto.{read_file_crypto_metadata}
use ematix_parquet.Metadata.Crypto.Safety.{file_crypto_metadata-IsSafe}
use ematix_parquet.Metadata.Chunk.{read_column_chunk}
use ematix_parquet.Metadata.Chunk.Safety.{column_chunk-IsSafe}
use ematix_parquet.Metadata.File.{read_file_metadata}
use ematix_parquet.Metadata.File.Safety.{file_metadata-IsSafe}

-- On any bytes, from a cursor inside its buffer, each of these readers of the footer, the headers
-- and the indexes keeps the buffer and, if it succeeds, ends inside it, at or behind where it
-- began; if it fails, then with an error of the source, or, the readers with a list of structs or
-- of booleans, with the panic of a vector's capacity, never for want of rounds; the readers of page
-- headers, Bloom filter headers, logical types and encryption metadata do not panic.
pub struct_readers_stay :
    ⦃layout : Layout⦄ (c : Cursor)
    → IsWithin c
    → Stays true c (read_file_metadata c)
      × Stays false c (read_page_header c)
      × Stays true c (read_column_chunk c)
      × Stays true c (read_column_index c)
      × Stays true c (read_offset_index c)
      × Stays false c (read_bloom_filter_header c)
      × Stays false c (read_logical_type c)
      × Stays false c (read_file_crypto_metadata c)
struct_readers_stay c h = (
  file_metadata-IsSafe.stays c h,
  page_header-IsSafe.stays c h,
  column_chunk-IsSafe.stays c h,
  column_index-IsSafe.stays c h,
  offset_index-IsSafe.stays c h,
  bloom_filter_header-IsSafe.stays c h,
  logical_type-IsSafe.stays c h,
  file_crypto_metadata-IsSafe.stays c h,
)
