-- ===== src/MetadataWriter/Tests.antt =====
-- Round trips of concrete metadata.
use ematix_parquet.Base.{ℕ, ◌-◌, ◌^◌, ◌≡◌, refl, arith, some, none, List, [], ◌∷◌, true, false}
use ematix_parquet.Types.{
  ParquetType, Encoding, CompressionCodec, PageType, FieldRepetitionType, ConvertedType,
}
use ematix_parquet.Metadata.{Layout}
use ematix_parquet.Metadata.Page.{DataPageHeader, PageHeader, read_page_header}
use ematix_parquet.Metadata.Crypto.{
  EncryptionAlgorithm, AesGcmV1, FileCryptoMetaData, read_file_crypto_metadata,
}
use ematix_parquet.Metadata.Chunk.{ColumnMetaData, ColumnChunk, read_column_chunk}
use ematix_parquet.Metadata.Schema.{SchemaElement}
use ematix_parquet.Metadata.Logical.{LogicalType}
use ematix_parquet.MetadataWriter.Panics.{is_none}
use ematix_parquet.MetadataWriter.Refused.{refused_file_metadata, is_none-write_file_metadata}
use ematix_parquet.Metadata.File.{RowGroup, FileMetaData, read_file_metadata}
use ematix_parquet.MetadataWriter.Page.{write_page_header}
use ematix_parquet.MetadataWriter.Page.Valid.{IsStatistics, IsPageHeader}
use ematix_parquet.MetadataWriter.Crypto.{write_file_crypto_metadata}
use ematix_parquet.MetadataWriter.Crypto.Valid.{IsAesGcmV1}
use ematix_parquet.MetadataWriter.Chunk.{write_column_chunk}
use ematix_parquet.MetadataWriter.Chunk.Valid.{IsColumnMetaData, IsColumnChunk}
use ematix_parquet.MetadataWriter.File.{write_file_metadata}
use ematix_parquet.MetadataWriter.File.Valid.{IsSchemaElement, IsRowGroup, IsFileMetaData}
use ematix_parquet.MetadataWriter.RoundTrip.{
  ReadsBack, read_file_metadata-write, read_page_header-write, read_column_chunk-write,
  read_file_crypto_metadata-write,
}
use ematix_parquet.Metadata.Statistics.{Statistics, KeyValue}

-- Sizes of the structs.
instance abbrev sizes : Layout
sizes = record {
  page_location = 24;
  key_value = 32;
  page_encoding_stats = 8;
  schema_element = 120;
  column_chunk = 600;
  sorting_column = 8;
  row_group = 104;
  column_order = 1;
}

abbrev after : List ℕ
after = 0xff ∷ 0x00 ∷ []

-- The bounds and the null count of a column of three values.
abbrev bounds : Statistics
bounds = record {
  max = none;
  min = none;
  null_count = some 1;
  distinct_count = none;
  max_value = some (9 ∷ []);
  min_value = some (2 ∷ []);
  is_max_value_exact = some true;
  is_min_value_exact = some false;
}

bounds-IsStatistics : IsStatistics bounds
bounds-IsStatistics = record {
  max = tt;
  min = tt;
  null_count = omega arith;
  distinct_count = tt;
  max_value = omega arith;
  min_value = omega arith;
}

abbrev data_header : DataPageHeader
data_header = record {
  num_values = 3;
  encoding = Encoding.plain;
  definition_level_encoding = Encoding.rle;
  repetition_level_encoding = Encoding.rle;
  statistics = some bounds;
}

-- The check sum is a negative i32.
abbrev header : PageHeader
header = record {
  page_type = PageType.data_page;
  uncompressed_page_size = 20;
  compressed_page_size = 12;
  crc = some (2 ^ 32 - 5);
  data_page_header = some data_header;
  index_page_header = none;
  dictionary_page_header = none;
  data_page_header_v2 = none;
}

header-IsPageHeader : IsPageHeader header
header-IsPageHeader = record {
  uncompressed_page_size = omega arith;
  compressed_page_size = omega arith;
  crc = omega arith;
  data_page_header = record { num_values = omega arith; statistics = bounds-IsStatistics };
  dictionary_page_header = tt;
  data_page_header_v2 = tt;
}

read_page_header-write_example : ReadsBack read_page_header (write_page_header header) header after
read_page_header-write_example = read_page_header-write header after header-IsPageHeader

abbrev column : ColumnMetaData
column = record {
  column_type = ParquetType.int64;
  encodings = Encoding.plain ∷ Encoding.rle ∷ [];
  path_in_schema = (97 ∷ []) ∷ (98 ∷ 99 ∷ []) ∷ [];
  codec = CompressionCodec.zstd;
  num_values = 3;
  total_uncompressed_size = 40;
  total_compressed_size = 32;
  key_value_metadata = none;
  data_page_offset = 4;
  index_page_offset = none;
  dictionary_page_offset = some 4;
  statistics = some bounds;
  encoding_stats = none;
  bloom_filter_offset = none;
  bloom_filter_length = some 7;
  size_statistics = none;
}

column-IsColumnMetaData : IsColumnMetaData column
column-IsColumnMetaData = record {
  encodings = omega arith;
  path_in_schema = (omega arith, (omega arith, (omega arith, tt)));
  num_values = omega arith;
  total_uncompressed_size = omega arith;
  total_compressed_size = omega arith;
  key_value_metadata = refl;
  data_page_offset = omega arith;
  index_page_offset = tt;
  dictionary_page_offset = omega arith;
  statistics = bounds-IsStatistics;
  encoding_stats = refl;
  bloom_filter_offset = tt;
  bloom_filter_length = omega arith;
  size_statistics = refl;
}

abbrev chunk : ColumnChunk
chunk = record {
  file_path = none;
  file_offset = 4;
  meta_data = some column;
  offset_index_offset = none;
  offset_index_length = none;
  column_index_offset = none;
  column_index_length = none;
  crypto_metadata = none;
  encrypted_column_metadata = none;
}

chunk-IsColumnChunk : IsColumnChunk chunk
chunk-IsColumnChunk = record {
  file_path = tt;
  file_offset = omega arith;
  meta_data = column-IsColumnMetaData;
  offset_index_offset = tt;
  offset_index_length = tt;
  column_index_offset = tt;
  column_index_length = tt;
  crypto_metadata = tt;
  encrypted_column_metadata = tt;
}

read_column_chunk-write_example : ReadsBack read_column_chunk (write_column_chunk chunk) chunk after
read_column_chunk-write_example = read_column_chunk-write chunk after chunk-IsColumnChunk

abbrev aes : AesGcmV1
aes = record {
  aad_prefix = none;
  aad_file_unique = some (1 ∷ 2 ∷ 3 ∷ []);
  supply_aad_prefix = some true;
}

aes-IsAesGcmV1 : IsAesGcmV1 aes
aes-IsAesGcmV1 = record { aad_prefix = tt; aad_file_unique = omega arith }

abbrev crypto : FileCryptoMetaData
crypto = record {
  encryption_algorithm = some (EncryptionAlgorithm.aes_gcm_v1 aes);
  key_metadata = some (5 ∷ []);
}

read_file_crypto_metadata-write_example :
    ReadsBack read_file_crypto_metadata (write_file_crypto_metadata crypto) crypto after
read_file_crypto_metadata-write_example =
    read_file_crypto_metadata-write (EncryptionAlgorithm.aes_gcm_v1 aes) (some (5 ∷ [])) after
      aes-IsAesGcmV1 (omega arith)

-- A leaf of the schema, of which there is one.
abbrev leaf : SchemaElement
leaf = record {
  column_type = some ParquetType.int64;
  type_length = none;
  repetition_type = some FieldRepetitionType.optional;
  name = 97 ∷ [];
  num_children = none;
  converted_type = some ConvertedType.timestamp_micros;
  scale = none;
  precision = none;
  field_id = some 1;
  logical_type = none;
}

leaf-IsSchemaElement : IsSchemaElement leaf
leaf-IsSchemaElement = record {
  type_length = tt;
  name = omega arith;
  num_children = tt;
  scale = tt;
  precision = tt;
  field_id = omega arith;
  logical_type = refl;
}

abbrev group : RowGroup
group = record {
  columns = chunk ∷ [];
  total_byte_size = 40;
  num_rows = 3;
  sorting_columns = none;
  file_offset = some 4;
  total_compressed_size = none;
  ordinal = some 0;
}

group-IsRowGroup : IsRowGroup group
group-IsRowGroup = record {
  columns = (omega arith, omega arith, (chunk-IsColumnChunk, tt));
  total_byte_size = omega arith;
  num_rows = omega arith;
  sorting_columns = refl;
  file_offset = omega arith;
  total_compressed_size = tt;
  ordinal = omega arith;
}

abbrev entry : KeyValue
entry = record { key = 107 ∷ []; value = none }

abbrev footer : FileMetaData
footer = record {
  version = 2;
  schema = leaf ∷ [];
  num_rows = 3;
  row_groups = group ∷ [];
  key_value_metadata = some (entry ∷ []);
  created_by = some (101 ∷ []);
  column_orders = none;
  encryption_algorithm = none;
  footer_signing_key_metadata = none;
}

footer-IsFileMetaData : IsFileMetaData footer
footer-IsFileMetaData = record {
  version = omega arith;
  schema = (omega arith, omega arith, (leaf-IsSchemaElement, tt));
  num_rows = omega arith;
  row_groups = (omega arith, omega arith, (group-IsRowGroup, tt));
  key_value_metadata = (omega arith, omega arith, (record { key = omega arith; value = tt }, tt));
  created_by = omega arith;
  column_orders = refl;
  encryption_algorithm = tt;
  footer_signing_key_metadata = tt;
}

read_file_metadata-write_example :
    ReadsBack read_file_metadata (write_file_metadata footer) footer after
read_file_metadata-write_example = read_file_metadata-write footer after footer-IsFileMetaData

-- The same footer with a logical type in its schema.
abbrev with_logical_type : FileMetaData
with_logical_type = record footer {
  schema = record leaf { logical_type = some LogicalType.uuid } ∷ [];
}

is_none-write_file_metadata_example :
    is_none (write_file_metadata with_logical_type) ≡ refused_file_metadata with_logical_type
is_none-write_file_metadata_example = is_none-write_file_metadata with_logical_type
