-- ===== src/MetadataWriter/File.antt =====
-- crates/ematix-parquet-format/src/metadata_writer.rs: the writers of the schema, the row groups
-- and the footer.
pub mod Valid
pub mod Carries
use ematix_parquet.Base.{Option, [], ◌∷◌}
use ematix_parquet.Compact.{i16, i32, i64, binary, list_of, struct}
use ematix_parquet.CompactWriter.{
  Writer, write_zigzag_i16, write_zigzag_i32, write_zigzag_i64, write_binary,
}
use ematix_parquet.Types.{parquet_type_code, repetition_type_code, converted_type_code}
use ematix_parquet.MetadataWriter.{
  Encoder, total, write_code, put, put_opt, refuse, write_struct, write_list_struct,
}
use ematix_parquet.Metadata.Schema.{SchemaElement}
use ematix_parquet.Metadata.File.{RowGroup, FileMetaData}
use ematix_parquet.MetadataWriter.Crypto.{encode_encryption_algorithm}
use ematix_parquet.MetadataWriter.Chunk.{encode_key_value, encode_column_chunk}

unfoldable pub encode_schema_element : Encoder SchemaElement
encode_schema_element w a =
    write_struct
      (put_opt 1 i32 (write_code parquet_type_code) a.column_type
        ∷ put_opt 2 i32 (total write_zigzag_i32) a.type_length
        ∷ put_opt 3 i32 (write_code repetition_type_code) a.repetition_type
        ∷ put 4 binary (total write_binary) a.name
        ∷ put_opt 5 i32 (total write_zigzag_i32) a.num_children
        ∷ put_opt 6 i32 (write_code converted_type_code) a.converted_type
        ∷ put_opt 7 i32 (total write_zigzag_i32) a.scale
        ∷ put_opt 8 i32 (total write_zigzag_i32) a.precision
        ∷ put_opt 9 i32 (total write_zigzag_i32) a.field_id
        ∷ refuse a.logical_type
        ∷ [])
      w

unfoldable pub encode_row_group : Encoder RowGroup
encode_row_group w a =
    write_struct
      (put 1 list_of (write_list_struct encode_column_chunk) a.columns
        ∷ put 2 i64 (total write_zigzag_i64) a.total_byte_size
        ∷ put 3 i64 (total write_zigzag_i64) a.num_rows
        ∷ refuse a.sorting_columns
        ∷ put_opt 5 i64 (total write_zigzag_i64) a.file_offset
        ∷ put_opt 6 i64 (total write_zigzag_i64) a.total_compressed_size
        ∷ put_opt 7 i16 (total write_zigzag_i16) a.ordinal
        ∷ [])
      w

unfoldable pub encode_file_metadata : Encoder FileMetaData
encode_file_metadata w a =
    write_struct
      (put 1 i32 (total write_zigzag_i32) a.version
        ∷ put 2 list_of (write_list_struct encode_schema_element) a.schema
        ∷ put 3 i64 (total write_zigzag_i64) a.num_rows
        ∷ put 4 list_of (write_list_struct encode_row_group) a.row_groups
        ∷ put_opt 5 list_of (write_list_struct encode_key_value) a.key_value_metadata
        ∷ put_opt 6 binary (total write_binary) a.created_by
        ∷ refuse a.column_orders
        ∷ put_opt 8 struct encode_encryption_algorithm a.encryption_algorithm
        ∷ put_opt 9 binary (total write_binary) a.footer_signing_key_metadata
        ∷ [])
      w

unfoldable pub write_file_metadata : FileMetaData → Option Writer
write_file_metadata a = encode_file_metadata [] a
