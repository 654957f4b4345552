-- ===== src/MetadataWriter/Refused.antt =====
-- The fields that metadata_writer.rs refuses, and when a whole footer is not written.
use ematix_parquet.Base.{◌≡◌, refl, Bool, false, ◌||◌, []}
use ematix_parquet.Metadata.Schema.{SchemaElement}
use ematix_parquet.Metadata.Crypto.{
  AesGcmV1, AesGcmCtrV1, EncryptionAlgorithm, EncryptionWithColumnKey, ColumnCryptoMetaData,
}
use ematix_parquet.Metadata.Chunk.{ColumnMetaData, ColumnChunk}
use ematix_parquet.Metadata.File.{RowGroup, FileMetaData}
use ematix_parquet.MetadataWriter.Page.{encode_statistics}
use ematix_parquet.MetadataWriter.Crypto.{
  encode_aes_gcm_v1, encode_aes_gcm_ctr_v1, encode_encryption_algorithm,
  encode_encryption_with_column_key, encode_column_crypto_metadata,
}
use ematix_parquet.MetadataWriter.Chunk.{
  encode_key_value, encode_column_metadata, encode_column_chunk,
}
use ematix_parquet.MetadataWriter.File.{
  encode_schema_element, encode_row_group, encode_file_metadata, write_file_metadata,
}
use ematix_parquet.MetadataWriter.Panics.{
  is_none, is_some, any, any_opt, Panics, harmless, FieldPanics-opt, FieldPanics-refuse,
  Panics-list, Panics-struct, Panics-empty, FieldsPanic-or, FieldsPanic-last,
}
use ematix_parquet.Metadata.Statistics.{Statistics, KeyValue}

abbrev pub refused_column_metadata : ColumnMetaData → Bool
refused_column_metadata cm =
    is_some cm.key_value_metadata || (is_some cm.encoding_stats || is_some cm.size_statistics)

abbrev pub refused_row_group : RowGroup → Bool
refused_row_group rg =
    any (λ cc. any_opt refused_column_metadata cc.meta_data) rg.columns
    || is_some rg.sorting_columns

-- A logical type in the schema, a refused row group, or the orders of the columns.
abbrev pub refused_file_metadata : FileMetaData → Bool
refused_file_metadata md =
    any (λ se. is_some se.logical_type) md.schema
    || (any refused_row_group md.row_groups || is_some md.column_orders)

statistics-Panics : (a : Statistics) → Panics encode_statistics a false
unfolding encode_statistics
statistics-Panics a =
    Panics-struct encode_statistics a _ false (λ w. refl) (search harmless depth 20)

key_value-Panics : (a : KeyValue) → Panics encode_key_value a false
unfolding encode_key_value
key_value-Panics a = Panics-struct encode_key_value a _ false (λ w. refl) (search harmless depth 20)

aes_gcm_v1-Panics : (a : AesGcmV1) → Panics encode_aes_gcm_v1 a false
unfolding encode_aes_gcm_v1
aes_gcm_v1-Panics a =
    Panics-struct encode_aes_gcm_v1 a _ false (λ w. refl) (search harmless depth 20)

aes_gcm_ctr_v1-Panics : (a : AesGcmCtrV1) → Panics encode_aes_gcm_ctr_v1 a false
unfolding encode_aes_gcm_ctr_v1
aes_gcm_ctr_v1-Panics a =
    Panics-struct encode_aes_gcm_ctr_v1 a _ false (λ w. refl) (search harmless depth 20)

encryption_algorithm-Panics : (a : EncryptionAlgorithm) → Panics encode_encryption_algorithm a false
unfolding encode_encryption_algorithm
encryption_algorithm-Panics (EncryptionAlgorithm.aes_gcm_v1 v) =
    Panics-struct encode_encryption_algorithm _ _ false (λ w. refl)
      (search (harmless, aes_gcm_v1-Panics) depth 20)
encryption_algorithm-Panics (EncryptionAlgorithm.aes_gcm_ctr_v1 v) =
    Panics-struct encode_encryption_algorithm _ _ false (λ w. refl)
      (search (harmless, aes_gcm_ctr_v1-Panics) depth 20)

encryption_with_column_key-Panics :
    (a : EncryptionWithColumnKey) → Panics encode_encryption_with_column_key a false
unfolding encode_encryption_with_column_key
encryption_with_column_key-Panics a =
    Panics-struct encode_encryption_with_column_key a _ false (λ w. refl) (search harmless depth 20)

column_crypto_metadata-Panics :
    (a : ColumnCryptoMetaData) → Panics encode_column_crypto_metadata a false
unfolding encode_column_crypto_metadata
column_crypto_metadata-Panics ColumnCryptoMetaData.encryption_with_footer_key =
    Panics-struct encode_column_crypto_metadata _ _ false (λ w. refl)
      (search (harmless, Panics-empty) depth 20)
column_crypto_metadata-Panics (ColumnCryptoMetaData.encryption_with_column_key v) =
    Panics-struct encode_column_crypto_metadata _ _ false (λ w. refl)
      (search (harmless, encryption_with_column_key-Panics) depth 20)

schema_element-Panics :
    (a : SchemaElement) → Panics encode_schema_element a (is_some a.logical_type)
unfolding encode_schema_element
schema_element-Panics a =
    Panics-struct encode_schema_element a _ _ (λ w. refl)
      (search (harmless, FieldsPanic-last, FieldPanics-refuse) depth 20)

column_metadata-Panics :
    (a : ColumnMetaData) → Panics encode_column_metadata a (refused_column_metadata a)
unfolding encode_column_metadata
column_metadata-Panics a =
    Panics-struct encode_column_metadata a _ _ (λ w. refl)
      (search (harmless, FieldsPanic-or, FieldsPanic-last, FieldPanics-refuse, statistics-Panics)
        depth 24)

column_chunk-Panics :
    (a : ColumnChunk) → Panics encode_column_chunk a (any_opt refused_column_metadata a.meta_data)
unfolding encode_column_chunk
column_chunk-Panics a =
    Panics-struct encode_column_chunk a _ _ (λ w. refl)
      (search
        (
          harmless, FieldsPanic-last, FieldPanics-opt, column_metadata-Panics,
          column_crypto_metadata-Panics,
        )
        depth 20)

row_group-Panics : (a : RowGroup) → Panics encode_row_group a (refused_row_group a)
unfolding encode_row_group
row_group-Panics a =
    Panics-struct encode_row_group a _ _ (λ w. refl)
      (search
        (
          harmless, FieldsPanic-or, FieldsPanic-last, FieldPanics-refuse, Panics-list,
          column_chunk-Panics,
        )
        depth 20)

file_metadata-Panics : (a : FileMetaData) → Panics encode_file_metadata a (refused_file_metadata a)
unfolding encode_file_metadata
file_metadata-Panics a =
    Panics-struct encode_file_metadata a _ _ (λ w. refl)
      (search
        (
          harmless, FieldsPanic-or, FieldsPanic-last, FieldPanics-refuse, Panics-list,
          schema_element-Panics, row_group-Panics, key_value-Panics, encryption_algorithm-Panics,
        )
        depth 20)

-- `write_file_metadata` panics exactly on metadata with the orders of the columns, a logical type
-- in the schema, the sorting columns of a row group, or, in the metadata of a column, key-value
-- metadata, encoding statistics or size statistics.
pub is_none-write_file_metadata :
    (md : FileMetaData) → is_none (write_file_metadata md) ≡ refused_file_metadata md
unfolding write_file_metadata
is_none-write_file_metadata md = (file_metadata-Panics md).known []
