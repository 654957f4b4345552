-- ===== src/Metadata/Chunk.antt =====
-- crates/ematix-parquet-format/src/metadata.rs: the column chunks. Of each struct `x`, `x_field` is
-- the body of its loop and `x_of` the struct made of the fields in the end.
pub mod Safety
use ematix_parquet.Base.{ℕ, if◌then◌else◌, Option, none, some, List, [], ◌∷◌, Result, ok, err}
use ematix_parquet.Compact.{
  ◌>>=◌, FieldHeader, FormatError, Reader, pure, from_result, i32, i64, binary, list_of, struct,
  read_zigzag_i32, read_zigzag_i64, read_binary, read_list_i32, read_list_binary, read_list_struct,
}
use ematix_parquet.Types.{
  ParquetType, Encoding, CompressionCodec, read_parquet_type, read_codec, encoding_from_i32,
}
use ematix_parquet.Metadata.{Layout, unknown, required, is_field, read_struct}
use ematix_parquet.Metadata.Crypto.{ColumnCryptoMetaData, read_column_crypto_metadata}
use ematix_parquet.Metadata.Statistics.{
  Statistics, read_statistics, KeyValue, read_key_value, SizeStatistics, read_size_statistics,
  PageEncodingStats, read_page_encoding_stats,
}

-- `raw.into_iter().map(Encoding::from_i32).collect::<Result<Vec<_>>>()`.
unfoldable pub encodings_of : List ℕ → Result FormatError (List Encoding)
encodings_of [] = ok []
encodings_of (v ∷ vs) = elim (encoding_from_i32 v) [
  | err e ↦ err e
  | ok t ↦ elim (encodings_of vs) [ err e ↦ err e | ok ts ↦ ok (t ∷ ts) ]
]

unfoldable pub read_encodings : Reader (List Encoding)
read_encodings = do raw ← read_list_i32; from_result (encodings_of raw)

pub record ColumnMetaData : Type 0 where
  pub column_type : ParquetType
  pub encodings : List Encoding
  pub path_in_schema : List (List ℕ)
  pub codec : CompressionCodec
  pub num_values : ℕ
  pub total_uncompressed_size : ℕ
  pub total_compressed_size : ℕ
  pub key_value_metadata : Option (List KeyValue)
  pub data_page_offset : ℕ
  pub index_page_offset : Option ℕ
  pub dictionary_page_offset : Option ℕ
  pub statistics : Option Statistics
  pub encoding_stats : Option (List PageEncodingStats)
  pub bloom_filter_offset : Option ℕ
  pub bloom_filter_length : Option ℕ
  pub size_statistics : Option SizeStatistics

pub record ColumnMetaDataFields : Type 0 where
  pub column_type : Option ParquetType
  pub encodings : Option (List Encoding)
  pub path_in_schema : Option (List (List ℕ))
  pub codec : Option CompressionCodec
  pub num_values : Option ℕ
  pub total_uncompressed_size : Option ℕ
  pub total_compressed_size : Option ℕ
  pub key_value_metadata : Option (List KeyValue)
  pub data_page_offset : Option ℕ
  pub index_page_offset : Option ℕ
  pub dictionary_page_offset : Option ℕ
  pub statistics : Option Statistics
  pub encoding_stats : Option (List PageEncodingStats)
  pub bloom_filter_offset : Option ℕ
  pub bloom_filter_length : Option ℕ
  pub size_statistics : Option SizeStatistics

abbrev pub no_column_metadata : ColumnMetaDataFields
no_column_metadata = record {
  column_type = none;
  encodings = none;
  path_in_schema = none;
  codec = none;
  num_values = none;
  total_uncompressed_size = none;
  total_compressed_size = none;
  key_value_metadata = none;
  data_page_offset = none;
  index_page_offset = none;
  dictionary_page_offset = none;
  statistics = none;
  encoding_stats = none;
  bloom_filter_offset = none;
  bloom_filter_length = none;
  size_statistics = none;
}

unfoldable pub column_metadata_field :
    ⦃layout : Layout⦄ → FieldHeader → ColumnMetaDataFields → Reader ColumnMetaDataFields
column_metadata_field ⦃layout⦄ h s =
    if is_field h 1 i32
    then (do v ← read_parquet_type; pure (record s { column_type = some v }))
    else if is_field h 2 list_of
    then (do v ← read_encodings; pure (record s { encodings = some v }))
    else if is_field h 3 list_of
    then (do v ← read_list_binary; pure (record s { path_in_schema = some v }))
    else if is_field h 4 i32
    then (do v ← read_codec; pure (record s { codec = some v }))
    else if is_field h 5 i64
    then (do v ← read_zigzag_i64; pure (record s { num_values = some v }))
    else if is_field h 6 i64
    then (do v ← read_zigzag_i64; pure (record s { total_uncompressed_size = some v }))
    else if is_field h 7 i64
    then (do v ← read_zigzag_i64; pure (record s { total_compressed_size = some v }))
    else if is_field h 8 list_of
    then (do
      v ← read_list_struct layout.key_value read_key_value
      pure (record s { key_value_metadata = some v }))
    else if is_field h 9 i64
    then (do v ← read_zigzag_i64; pure (record s { data_page_offset = some v }))
    else if is_field h 10 i64
    then (do v ← read_zigzag_i64; pure (record s { index_page_offset = some v }))
    else if is_field h 11 i64
    then (do v ← read_zigzag_i64; pure (record s { dictionary_page_offset = some v }))
    else if is_field h 12 struct
    then (do v ← read_statistics; pure (record s { statistics = some v }))
    else if is_field h 13 list_of
    then (do
      v ← read_list_struct layout.page_encoding_stats read_page_encoding_stats
      pure (record s { encoding_stats = some v }))
    else if is_field h 14 i64
    then (do v ← read_zigzag_i64; pure (record s { bloom_filter_offset = some v }))
    else if is_field h 15 i32
    then (do v ← read_zigzag_i32; pure (record s { bloom_filter_length = some v }))
    else if is_field h 16 struct
    then (do v ← read_size_statistics; pure (record s { size_statistics = some v }))
    else unknown "ColumnMetaData" h.id

unfoldable pub column_metadata_of : ColumnMetaDataFields → Reader ColumnMetaData
column_metadata_of s = do
  column_type ← required "ColumnMetaData" 1 s.column_type
  encodings ← required "ColumnMetaData" 2 s.encodings
  path_in_schema ← required "ColumnMetaData" 3 s.path_in_schema
  codec ← required "ColumnMetaData" 4 s.codec
  num_values ← required "ColumnMetaData" 5 s.num_values
  total_uncompressed_size ← required "ColumnMetaData" 6 s.total_uncompressed_size
  total_compressed_size ← required "ColumnMetaData" 7 s.total_compressed_size
  data_page_offset ← required "ColumnMetaData" 9 s.data_page_offset
  pure (record {
    column_type = column_type;
    encodings = encodings;
    path_in_schema = path_in_schema;
    codec = codec;
    num_values = num_values;
    total_uncompressed_size = total_uncompressed_size;
    total_compressed_size = total_compressed_size;
    key_value_metadata = s.key_value_metadata;
    data_page_offset = data_page_offset;
    index_page_offset = s.index_page_offset;
    dictionary_page_offset = s.dictionary_page_offset;
    statistics = s.statistics;
    encoding_stats = s.encoding_stats;
    bloom_filter_offset = s.bloom_filter_offset;
    bloom_filter_length = s.bloom_filter_length;
    size_statistics = s.size_statistics;
  })

unfoldable pub read_column_metadata : ⦃layout : Layout⦄ → Reader ColumnMetaData
read_column_metadata = read_struct column_metadata_field no_column_metadata column_metadata_of

pub record ColumnChunk : Type 0 where
  pub file_path : Option (List ℕ)
  pub file_offset : ℕ
  pub meta_data : Option ColumnMetaData
  pub offset_index_offset : Option ℕ
  pub offset_index_length : Option ℕ
  pub column_index_offset : Option ℕ
  pub column_index_length : Option ℕ
  pub crypto_metadata : Option ColumnCryptoMetaData
  pub encrypted_column_metadata : Option (List ℕ)

pub record ColumnChunkFields : Type 0 where
  pub file_path : Option (List ℕ)
  pub file_offset : Option ℕ
  pub meta_data : Option ColumnMetaData
  pub offset_index_offset : Option ℕ
  pub offset_index_length : Option ℕ
  pub column_index_offset : Option ℕ
  pub column_index_length : Option ℕ
  pub crypto_metadata : Option ColumnCryptoMetaData
  pub encrypted_column_metadata : Option (List ℕ)

abbrev pub no_column_chunk : ColumnChunkFields
no_column_chunk = record {
  file_path = none;
  file_offset = none;
  meta_data = none;
  offset_index_offset = none;
  offset_index_length = none;
  column_index_offset = none;
  column_index_length = none;
  crypto_metadata = none;
  encrypted_column_metadata = none;
}

unfoldable pub column_chunk_field :
    ⦃layout : Layout⦄ → FieldHeader → ColumnChunkFields → Reader ColumnChunkFields
column_chunk_field h s =
    if is_field h 1 binary
    then (do v ← read_binary; pure (record s { file_path = some v }))
    else if is_field h 2 i64
    then (do v ← read_zigzag_i64; pure (record s { file_offset = some v }))
    else if is_field h 3 struct
    then (do v ← read_column_metadata; pure (record s { meta_data = some v }))
    else if is_field h 4 i64
    then (do v ← read_zigzag_i64; pure (record s { offset_index_offset = some v }))
    else if is_field h 5 i32
    then (do v ← read_zigzag_i32; pure (record s { offset_index_length = some v }))
    else if is_field h 6 i64
    then (do v ← read_zigzag_i64; pure (record s { column_index_offset = some v }))
    else if is_field h 7 i32
    then (do v ← read_zigzag_i32; pure (record s { column_index_length = some v }))
    else if is_field h 8 struct
    then (do v ← read_column_crypto_metadata; pure (record s { crypto_metadata = some v }))
    else if is_field h 9 binary
    then (do v ← read_binary; pure (record s { encrypted_column_metadata = some v }))
    else unknown "ColumnChunk" h.id

unfoldable pub column_chunk_of : ColumnChunkFields → Reader ColumnChunk
column_chunk_of s = do
  file_offset ← required "ColumnChunk" 2 s.file_offset
  pure (record {
    file_path = s.file_path;
    file_offset = file_offset;
    meta_data = s.meta_data;
    offset_index_offset = s.offset_index_offset;
    offset_index_length = s.offset_index_length;
    column_index_offset = s.column_index_offset;
    column_index_length = s.column_index_length;
    crypto_metadata = s.crypto_metadata;
    encrypted_column_metadata = s.encrypted_column_metadata;
  })

unfoldable pub read_column_chunk : ⦃layout : Layout⦄ → Reader ColumnChunk
read_column_chunk = read_struct column_chunk_field no_column_chunk column_chunk_of
