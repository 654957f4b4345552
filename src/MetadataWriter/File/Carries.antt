-- ===== src/MetadataWriter/File/Carries.antt =====
-- What is written of the schema, the row groups and the footer, field by field, is read back.
use ematix_parquet.Metadata.{Layout}
use ematix_parquet.Base.{arith, some, refl}
use ematix_parquet.Compact.{
  i16, i32, i64, binary, list_of, struct, read_zigzag_i16, read_zigzag_i32, read_zigzag_i64,
  read_binary, read_list_struct,
}
use ematix_parquet.CompactWriter.{
  write_zigzag_i16, write_zigzag_i32, write_zigzag_i64, write_binary,
}
use ematix_parquet.Types.{
  parquet_type_code, repetition_type_code, converted_type_code, read_parquet_type,
  read_repetition_type, read_converted_type,
}
use ematix_parquet.MetadataWriter.{total, write_code, write_list_struct}
use ematix_parquet.MetadataWriter.Rules.{
  Carries, Chain-end, Chain-put, Chain-opt, Chain-refuse, Carries-struct,
}
use ematix_parquet.MetadataWriter.Values.{
  i16-Carries, i32-Carries, i64-Carries, binary-Carries, parquet_type-Carries,
  repetition_type-Carries, converted_type-Carries, opt_any, opt-Carries, list-Carries,
}
use ematix_parquet.Metadata.Schema.{
  SchemaElement, SchemaElementFields, read_schema_element, schema_element_field, no_schema_element,
  schema_element_of,
}
use ematix_parquet.Metadata.Crypto.{read_encryption_algorithm}
use ematix_parquet.Metadata.Chunk.{read_column_chunk}
use ematix_parquet.Metadata.File.{
  RowGroup, RowGroupFields, read_row_group, row_group_field, no_row_group, row_group_of,
  FileMetaData, FileMetaDataFields, read_file_metadata, file_metadata_field, no_file_metadata,
  file_metadata_of,
}
use ematix_parquet.MetadataWriter.Crypto.{encode_encryption_algorithm}
use ematix_parquet.MetadataWriter.Chunk.{encode_key_value, encode_column_chunk}
use ematix_parquet.MetadataWriter.File.{
  encode_schema_element, encode_row_group, encode_file_metadata,
}
use ematix_parquet.MetadataWriter.File.Valid.{IsSchemaElement, IsRowGroup, IsFileMetaData}
use ematix_parquet.MetadataWriter.Crypto.Carries.{encryption_algorithm-Carries}
use ematix_parquet.MetadataWriter.Chunk.Carries.{key_value-Carries, column_chunk-Carries}
use ematix_parquet.Metadata.Statistics.{read_key_value}

pub schema_element-Carries :
    (a : SchemaElement) → IsSchemaElement a → Carries read_schema_element encode_schema_element a
unfolding read_schema_element schema_element_field encode_schema_element schema_element_of
schema_element-Carries a h =
    let s1 : SchemaElementFields = record no_schema_element { column_type = a.column_type } in
    let s2 : SchemaElementFields = record s1 { type_length = a.type_length } in
    let s3 : SchemaElementFields = record s2 { repetition_type = a.repetition_type } in
    let s4 : SchemaElementFields = record s3 { name = some a.name } in
    let s5 : SchemaElementFields = record s4 { num_children = a.num_children } in
    let s6 : SchemaElementFields = record s5 { converted_type = a.converted_type } in
    let s7 : SchemaElementFields = record s6 { scale = a.scale } in
    let s8 : SchemaElementFields = record s7 { precision = a.precision } in
    let s9 : SchemaElementFields = record s8 { field_id = a.field_id } in
    Carries-struct schema_element_of encode_schema_element a (λ w. refl)
      (Chain-opt 1 i32 read_parquet_type (write_code parquet_type_code) a.column_type
        (λ o. record no_schema_element { column_type = o })
        (opt_any parquet_type-Carries a.column_type) refl refl (omega arith) (omega arith)
        λ q b.
          (Chain-opt 2 i32 read_zigzag_i32 (total write_zigzag_i32) a.type_length
            (λ o. record s1 { type_length = o })
            (opt-Carries i32-Carries a.type_length h.type_length) refl refl (omega arith) b
            λ q b.
              (Chain-opt 3 i32 read_repetition_type (write_code repetition_type_code)
                a.repetition_type (λ o. record s2 { repetition_type = o })
                (opt_any repetition_type-Carries a.repetition_type) refl refl (omega arith) b
                λ q b.
                  (Chain-put 4 binary read_binary (total write_binary)
                    (λ v. record s3 { name = some v }) (binary-Carries a.name h.name) refl
                    (omega arith) b
                    (Chain-opt 5 i32 read_zigzag_i32 (total write_zigzag_i32) a.num_children
                      (λ o. record s4 { num_children = o })
                      (opt-Carries i32-Carries a.num_children h.num_children) refl refl
                      (omega arith) (omega arith)
                      λ q b.
                        (Chain-opt 6 i32 read_converted_type (write_code converted_type_code)
                          a.converted_type (λ o. record s5 { converted_type = o })
                          (opt_any converted_type-Carries a.converted_type) refl refl (omega arith)
                          b
                          λ q b.
                            (Chain-opt 7 i32 read_zigzag_i32 (total write_zigzag_i32) a.scale
                              (λ o. record s6 { scale = o })
                              (opt-Carries i32-Carries a.scale h.scale) refl refl (omega arith) b
                              λ q b.
                                (Chain-opt 8 i32 read_zigzag_i32 (total write_zigzag_i32)
                                  a.precision (λ o. record s7 { precision = o })
                                  (opt-Carries i32-Carries a.precision h.precision) refl refl
                                  (omega arith) b
                                  λ q b.
                                    (Chain-opt 9 i32 read_zigzag_i32 (total write_zigzag_i32)
                                      a.field_id (λ o. record s8 { field_id = o })
                                      (opt-Carries i32-Carries a.field_id h.field_id) refl refl
                                      (omega arith) b
                                      λ q b.
                                        (Chain-refuse a.logical_type
                                          (λ o. record s9 { logical_type = o }) h.logical_type refl
                                          Chain-end))))))))))
      refl

pub row_group-Carries :
    ⦃layout : Layout⦄ (a : RowGroup) → IsRowGroup a → Carries read_row_group encode_row_group a
unfolding read_row_group row_group_field encode_row_group row_group_of
row_group-Carries ⦃layout⦄ a h =
    let s1 : RowGroupFields = record no_row_group { columns = some a.columns } in
    let s2 : RowGroupFields = record s1 { total_byte_size = some a.total_byte_size } in
    let s3 : RowGroupFields = record s2 { num_rows = some a.num_rows } in
    let s4 : RowGroupFields = record s3 { sorting_columns = a.sorting_columns } in
    let s5 : RowGroupFields = record s4 { file_offset = a.file_offset } in
    let s6 : RowGroupFields = record s5 { total_compressed_size = a.total_compressed_size } in
    Carries-struct row_group_of encode_row_group a (λ w. refl)
      (Chain-put 1 list_of (read_list_struct layout.column_chunk read_column_chunk)
        (write_list_struct encode_column_chunk) (λ v. record no_row_group { columns = some v })
        (list-Carries column_chunk-Carries layout.column_chunk a.columns h.columns) refl
        (omega arith) (omega arith)
        (Chain-put 2 i64 read_zigzag_i64 (total write_zigzag_i64)
          (λ v. record s1 { total_byte_size = some v })
          (i64-Carries a.total_byte_size h.total_byte_size) refl (omega arith) (omega arith)
          (Chain-put 3 i64 read_zigzag_i64 (total write_zigzag_i64)
            (λ v. record s2 { num_rows = some v }) (i64-Carries a.num_rows h.num_rows) refl
            (omega arith) (omega arith)
            (Chain-refuse a.sorting_columns (λ o. record s3 { sorting_columns = o })
              h.sorting_columns refl
              (Chain-opt 5 i64 read_zigzag_i64 (total write_zigzag_i64) a.file_offset
                (λ o. record s4 { file_offset = o })
                (opt-Carries i64-Carries a.file_offset h.file_offset) refl refl (omega arith)
                (omega arith)
                λ q b.
                  (Chain-opt 6 i64 read_zigzag_i64 (total write_zigzag_i64) a.total_compressed_size
                    (λ o. record s5 { total_compressed_size = o })
                    (opt-Carries i64-Carries a.total_compressed_size h.total_compressed_size) refl
                    refl (omega arith) b
                    λ q b.
                      (Chain-opt 7 i16 read_zigzag_i16 (total write_zigzag_i16) a.ordinal
                        (λ o. record s6 { ordinal = o })
                        (opt-Carries i16-Carries a.ordinal h.ordinal) refl refl (omega arith) b
                        λ q b. Chain-end)))))))
      refl

pub file_metadata-Carries :
    ⦃layout : Layout⦄ (a : FileMetaData)
    → IsFileMetaData a
    → Carries read_file_metadata encode_file_metadata a
unfolding read_file_metadata file_metadata_field encode_file_metadata file_metadata_of
file_metadata-Carries ⦃layout⦄ a h =
    let s1 : FileMetaDataFields = record no_file_metadata { version = some a.version } in
    let s2 : FileMetaDataFields = record s1 { schema = some a.schema } in
    let s3 : FileMetaDataFields = record s2 { num_rows = some a.num_rows } in
    let s4 : FileMetaDataFields = record s3 { row_groups = some a.row_groups } in
    let s5 : FileMetaDataFields = record s4 { key_value_metadata = a.key_value_metadata } in
    let s6 : FileMetaDataFields = record s5 { created_by = a.created_by } in
    let s7 : FileMetaDataFields = record s6 { column_orders = a.column_orders } in
    let s8 : FileMetaDataFields = record s7 { encryption_algorithm = a.encryption_algorithm } in
    Carries-struct file_metadata_of encode_file_metadata a (λ w. refl)
      (Chain-put 1 i32 read_zigzag_i32 (total write_zigzag_i32)
        (λ v. record no_file_metadata { version = some v }) (i32-Carries a.version h.version) refl
        (omega arith) (omega arith)
        (Chain-put 2 list_of (read_list_struct layout.schema_element read_schema_element)
          (write_list_struct encode_schema_element) (λ v. record s1 { schema = some v })
          (list-Carries schema_element-Carries layout.schema_element a.schema h.schema) refl
          (omega arith) (omega arith)
          (Chain-put 3 i64 read_zigzag_i64 (total write_zigzag_i64)
            (λ v. record s2 { num_rows = some v }) (i64-Carries a.num_rows h.num_rows) refl
            (omega arith) (omega arith)
            (Chain-put 4 list_of (read_list_struct layout.row_group read_row_group)
              (write_list_struct encode_row_group) (λ v. record s3 { row_groups = some v })
              (list-Carries row_group-Carries layout.row_group a.row_groups h.row_groups) refl
              (omega arith) (omega arith)
              (Chain-opt 5 list_of (read_list_struct layout.key_value read_key_value)
                (write_list_struct encode_key_value) a.key_value_metadata
                (λ o. record s4 { key_value_metadata = o })
                (opt-Carries (list-Carries key_value-Carries layout.key_value) a.key_value_metadata
                  h.key_value_metadata)
                refl refl (omega arith) (omega arith)
                λ q b.
                  (Chain-opt 6 binary read_binary (total write_binary) a.created_by
                    (λ o. record s5 { created_by = o })
                    (opt-Carries binary-Carries a.created_by h.created_by) refl refl (omega arith) b
                    λ q b.
                      (Chain-refuse a.column_orders (λ o. record s6 { column_orders = o })
                        h.column_orders refl
                        (Chain-opt 8 struct read_encryption_algorithm encode_encryption_algorithm
                          a.encryption_algorithm (λ o. record s7 { encryption_algorithm = o })
                          (opt-Carries encryption_algorithm-Carries a.encryption_algorithm
                            h.encryption_algorithm)
                          refl refl (omega arith) b
                          λ q b.
                            (Chain-opt 9 binary read_binary (total write_binary)
                              a.footer_signing_key_metadata
                              (λ o. record s8 { footer_signing_key_metadata = o })
                              (opt-Carries binary-Carries a.footer_signing_key_metadata
                                h.footer_signing_key_metadata)
                              refl refl (omega arith) b λ q b. Chain-end)))))))))
      refl
