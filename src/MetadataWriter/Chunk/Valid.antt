-- ===== src/MetadataWriter/Chunk/Valid.antt =====
-- What the writers of the column chunks take: numbers in their ranges, lengths that fit, and
-- none of the fields that they refuse.
use ematix_parquet.Base.{none, ◌≡◌}
use ematix_parquet.MetadataWriter.Rules.{OptAll}
use ematix_parquet.MetadataWriter.Values.{IsI32, IsI64, IsSized, IsList}
use ematix_parquet.Metadata.Chunk.{ColumnMetaData, ColumnChunk}
use ematix_parquet.MetadataWriter.Page.Valid.{IsStatistics}
use ematix_parquet.MetadataWriter.Crypto.Valid.{IsColumnCryptoMetaData}
use ematix_parquet.Metadata.Statistics.{KeyValue}

pub record IsKeyValue (a : KeyValue) : Type 0 where
  pub key : IsSized a.key
  pub value : OptAll IsSized a.value

pub record IsColumnMetaData (a : ColumnMetaData) : Type 0 where
  pub encodings : IsSized a.encodings
  pub path_in_schema : IsList IsSized a.path_in_schema
  pub num_values : IsI64 a.num_values
  pub total_uncompressed_size : IsI64 a.total_uncompressed_size
  pub total_compressed_size : IsI64 a.total_compressed_size
  pub key_value_metadata : a.key_value_metadata ≡ none
  pub data_page_offset : IsI64 a.data_page_offset
  pub index_page_offset : OptAll IsI64 a.index_page_offset
  pub dictionary_page_offset : OptAll IsI64 a.dictionary_page_offset
  pub statistics : OptAll IsStatistics a.statistics
  pub encoding_stats : a.encoding_stats ≡ none
  pub bloom_filter_offset : OptAll IsI64 a.bloom_filter_offset
  pub bloom_filter_length : OptAll IsI32 a.bloom_filter_length
  pub size_statistics : a.size_statistics ≡ none

pub record IsColumnChunk (a : ColumnChunk) : Type 0 where
  pub file_path : OptAll IsSized a.file_path
  pub file_offset : IsI64 a.file_offset
  pub meta_data : OptAll IsColumnMetaData a.meta_data
  pub offset_index_offset : OptAll IsI64 a.offset_index_offset
  pub offset_index_length : OptAll IsI32 a.offset_index_length
  pub column_index_offset : OptAll IsI64 a.column_index_offset
  pub column_index_length : OptAll IsI32 a.column_index_length
  pub crypto_metadata : OptAll IsColumnCryptoMetaData a.crypto_metadata
  pub encrypted_column_metadata : OptAll IsSized a.encrypted_column_metadata
