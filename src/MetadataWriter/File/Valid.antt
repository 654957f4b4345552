-- ===== src/MetadataWriter/File/Valid.antt =====
-- What the writers of the schema, the row groups and the footer take: numbers in their ranges,
-- lengths that fit, and none of the fields that they refuse.
use ematix_parquet.Metadata.{Layout}
use ematix_parquet.Base.{none, ◌≡◌}
use ematix_parquet.MetadataWriter.Rules.{OptAll}
use ematix_parquet.MetadataWriter.Values.{IsI16, IsI32, IsI64, IsSized, IsVec}
use ematix_parquet.Metadata.Schema.{SchemaElement}
use ematix_parquet.Metadata.File.{RowGroup, FileMetaData}
use ematix_parquet.MetadataWriter.Crypto.Valid.{IsEncryptionAlgorithm}
use ematix_parquet.MetadataWriter.Chunk.Valid.{IsKeyValue, IsColumnChunk}

pub record IsSchemaElement (a : SchemaElement) : Type 0 where
  pub type_length : OptAll IsI32 a.type_length
  pub name : IsSized a.name
  pub num_children : OptAll IsI32 a.num_children
  pub scale : OptAll IsI32 a.scale
  pub precision : OptAll IsI32 a.precision
  pub field_id : OptAll IsI32 a.field_id
  pub logical_type : a.logical_type ≡ none

pub record IsRowGroup ⦃layout : Layout⦄ (a : RowGroup) : Type 0 where
  pub columns : IsVec layout.column_chunk IsColumnChunk a.columns
  pub total_byte_size : IsI64 a.total_byte_size
  pub num_rows : IsI64 a.num_rows
  pub sorting_columns : a.sorting_columns ≡ none
  pub file_offset : OptAll IsI64 a.file_offset
  pub total_compressed_size : OptAll IsI64 a.total_compressed_size
  pub ordinal : OptAll IsI16 a.ordinal

pub record IsFileMetaData ⦃layout : Layout⦄ (a : FileMetaData) : Type 0 where
  pub version : IsI32 a.version
  pub schema : IsVec layout.schema_element IsSchemaElement a.schema
  pub num_rows : IsI64 a.num_rows
  pub row_groups : IsVec layout.row_group IsRowGroup a.row_groups
  pub key_value_metadata : OptAll (IsVec layout.key_value IsKeyValue) a.key_value_metadata
  pub created_by : OptAll IsSized a.created_by
  pub column_orders : a.column_orders ≡ none
  pub encryption_algorithm : OptAll IsEncryptionAlgorithm a.encryption_algorithm
  pub footer_signing_key_metadata : OptAll IsSized a.footer_signing_key_metadata
