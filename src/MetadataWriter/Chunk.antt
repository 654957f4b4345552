-- ===== src/MetadataWriter/Chunk.antt =====
-- crates/ematix-parquet-format/src/metadata_writer.rs: the writers of the column chunks.
pub mod Valid
pub mod Carries
use ematix_parquet.Base.{Option, [], ◌∷◌}
use ematix_parquet.Compact.{i32, i64, binary, list_of, struct}
use ematix_parquet.CompactWriter.{
  Writer, write_zigzag_i32, write_zigzag_i64, write_binary, write_list_binary,
}
use ematix_parquet.Types.{parquet_type_code, codec_code}
use ematix_parquet.MetadataWriter.{
  Encoder, total, write_code, write_encodings, put, put_opt, refuse, write_struct,
}
use ematix_parquet.Metadata.Chunk.{ColumnMetaData, ColumnChunk}
use ematix_parquet.MetadataWriter.Page.{encode_statistics}
use ematix_parquet.MetadataWriter.Crypto.{encode_column_crypto_metadata}
use ematix_parquet.Metadata.Statistics.{KeyValue}

unfoldable pub encode_key_value : Encoder KeyValue
encode_key_value w a =
    write_struct
      (put 1 binary (total write_binary) a.key ∷ put_opt 2 binary (total write_binary) a.value ∷ [])
      w

unfoldable pub encode_column_metadata : Encoder ColumnMetaData
encode_column_metadata w a =
    write_struct
      (put 1 i32 (write_code parquet_type_code) a.column_type
        ∷ put 2 list_of write_encodings a.encodings
        ∷ put 3 list_of (total write_list_binary) a.path_in_schema
        ∷ put 4 i32 (write_code codec_code) a.codec
        ∷ put 5 i64 (total write_zigzag_i64) a.num_values
        ∷ put 6 i64 (total write_zigzag_i64) a.total_uncompressed_size
        ∷ put 7 i64 (total write_zigzag_i64) a.total_compressed_size
        ∷ refuse a.key_value_metadata
        ∷ put 9 i64 (total write_zigzag_i64) a.data_page_offset
        ∷ put_opt 10 i64 (total write_zigzag_i64) a.index_page_offset
        ∷ put_opt 11 i64 (total write_zigzag_i64) a.dictionary_page_offset
        ∷ put_opt 12 struct encode_statistics a.statistics
        ∷ refuse a.encoding_stats
        ∷ put_opt 14 i64 (total write_zigzag_i64) a.bloom_filter_offset
        ∷ put_opt 15 i32 (total write_zigzag_i32) a.bloom_filter_length
        ∷ refuse a.size_statistics
        ∷ [])
      w

unfoldable pub encode_column_chunk : Encoder ColumnChunk
encode_column_chunk w a =
    write_struct
      (put_opt 1 binary (total write_binary) a.file_path
        ∷ put 2 i64 (total write_zigzag_i64) a.file_offset
        ∷ put_opt 3 struct encode_column_metadata a.meta_data
        ∷ put_opt 4 i64 (total write_zigzag_i64) a.offset_index_offset
        ∷ put_opt 5 i32 (total write_zigzag_i32) a.offset_index_length
        ∷ put_opt 6 i64 (total write_zigzag_i64) a.column_index_offset
        ∷ put_opt 7 i32 (total write_zigzag_i32) a.column_index_length
        ∷ put_opt 8 struct encode_column_crypto_metadata a.crypto_metadata
        ∷ put_opt 9 binary (total write_binary) a.encrypted_column_metadata
        ∷ [])
      w

unfoldable pub write_column_chunk : ColumnChunk → Option Writer
write_column_chunk a = encode_column_chunk [] a
