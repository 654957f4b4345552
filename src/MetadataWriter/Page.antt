-- ===== src/MetadataWriter/Page.antt =====
-- crates/ematix-parquet-format/src/metadata_writer.rs: the writers of the page headers and the
-- statistics.
pub mod Valid
pub mod Carries
use ematix_parquet.Base.{Option, [], ◌∷◌}
use ematix_parquet.Compact.{i32, i64, binary, struct}
use ematix_parquet.CompactWriter.{Writer, write_zigzag_i32, write_zigzag_i64, write_binary}
use ematix_parquet.Types.{encoding_code, page_type_code}
use ematix_parquet.MetadataWriter.{
  Encoder, total, write_code, write_empty_struct, put, put_opt, put_bool, put_unless, write_struct,
}
use ematix_parquet.Metadata.Page.{
  DataPageHeader, DictionaryPageHeader, DataPageHeaderV2, PageHeader,
}
use ematix_parquet.Metadata.Statistics.{Statistics}

unfoldable pub encode_statistics : Encoder Statistics
encode_statistics w a =
    write_struct
      (put_opt 1 binary (total write_binary) a.max
        ∷ put_opt 2 binary (total write_binary) a.min
        ∷ put_opt 3 i64 (total write_zigzag_i64) a.null_count
        ∷ put_opt 4 i64 (total write_zigzag_i64) a.distinct_count
        ∷ put_opt 5 binary (total write_binary) a.max_value
        ∷ put_opt 6 binary (total write_binary) a.min_value
        ∷ put_bool 7 a.is_max_value_exact
        ∷ put_bool 8 a.is_min_value_exact
        ∷ [])
      w

unfoldable pub encode_data_page_header : Encoder DataPageHeader
encode_data_page_header w a =
    write_struct
      (put 1 i32 (total write_zigzag_i32) a.num_values
        ∷ put 2 i32 (write_code encoding_code) a.encoding
        ∷ put 3 i32 (write_code encoding_code) a.definition_level_encoding
        ∷ put 4 i32 (write_code encoding_code) a.repetition_level_encoding
        ∷ put_opt 5 struct encode_statistics a.statistics
        ∷ [])
      w

unfoldable pub encode_dictionary_page_header : Encoder DictionaryPageHeader
encode_dictionary_page_header w a =
    write_struct
      (put 1 i32 (total write_zigzag_i32) a.num_values
        ∷ put 2 i32 (write_code encoding_code) a.encoding
        ∷ put_bool 3 a.is_sorted
        ∷ [])
      w

unfoldable pub encode_data_page_header_v2 : Encoder DataPageHeaderV2
encode_data_page_header_v2 w a =
    write_struct
      (put 1 i32 (total write_zigzag_i32) a.num_values
        ∷ put 2 i32 (total write_zigzag_i32) a.num_nulls
        ∷ put 3 i32 (total write_zigzag_i32) a.num_rows
        ∷ put 4 i32 (write_code encoding_code) a.encoding
        ∷ put 5 i32 (total write_zigzag_i32) a.definition_levels_byte_length
        ∷ put 6 i32 (total write_zigzag_i32) a.repetition_levels_byte_length
        ∷ put_unless 7 a.is_compressed
        ∷ put_opt 8 struct encode_statistics a.statistics
        ∷ [])
      w

unfoldable pub encode_page_header : Encoder PageHeader
encode_page_header w a =
    write_struct
      (put 1 i32 (write_code page_type_code) a.page_type
        ∷ put 2 i32 (total write_zigzag_i32) a.uncompressed_page_size
        ∷ put 3 i32 (total write_zigzag_i32) a.compressed_page_size
        ∷ put_opt 4 i32 (total write_zigzag_i32) a.crc
        ∷ put_opt 5 struct encode_data_page_header a.data_page_header
        ∷ put_opt 6 struct write_empty_struct a.index_page_header
        ∷ put_opt 7 struct encode_dictionary_page_header a.dictionary_page_header
        ∷ put_opt 8 struct encode_data_page_header_v2 a.data_page_header_v2
        ∷ [])
      w

unfoldable pub write_page_header : PageHeader → Option Writer
write_page_header a = encode_page_header [] a
