-- ===== src/MetadataWriter/Chunk/Carries.antt =====
-- What is written of the column chunks, field by field, is read back.
use ematix_parquet.Metadata.{Layout}
use ematix_parquet.Base.{arith, some, refl}
use ematix_parquet.Compact.{
  i32, i64, binary, list_of, struct, read_zigzag_i32, read_zigzag_i64, read_binary,
  read_list_binary,
}
use ematix_parquet.CompactWriter.{
  write_zigzag_i32, write_zigzag_i64, write_binary, write_list_binary,
}
use ematix_parquet.Types.{parquet_type_code, codec_code, read_parquet_type, read_codec}
use ematix_parquet.MetadataWriter.{total, write_code, write_encodings}
use ematix_parquet.MetadataWriter.Rules.{
  Carries, Chain-end, Chain-put, Chain-opt, Chain-refuse, Carries-struct,
}
use ematix_parquet.MetadataWriter.Values.{
  i32-Carries, i64-Carries, binary-Carries, list_binary-Carries, encodings-Carries,
  parquet_type-Carries, codec-Carries, opt-Carries,
}
use ematix_parquet.Metadata.Crypto.{read_column_crypto_metadata}
use ematix_parquet.Metadata.Chunk.{
  read_encodings, ColumnMetaData, ColumnMetaDataFields, read_column_metadata, column_metadata_field,
  no_column_metadata, column_metadata_of, ColumnChunk, ColumnChunkFields, read_column_chunk,
  column_chunk_field, no_column_chunk, column_chunk_of,
}
use ematix_parquet.MetadataWriter.Page.{encode_statistics}
use ematix_parquet.MetadataWriter.Crypto.{encode_column_crypto_metadata}
use ematix_parquet.MetadataWriter.Chunk.{
  encode_key_value, encode_column_metadata, encode_column_chunk,
}
use ematix_parquet.MetadataWriter.Chunk.Valid.{IsKeyValue, IsColumnMetaData, IsColumnChunk}
use ematix_parquet.MetadataWriter.Page.Carries.{statistics-Carries}
use ematix_parquet.MetadataWriter.Crypto.Carries.{column_crypto_metadata-Carries}
use ematix_parquet.Metadata.Statistics.{
  read_statistics, KeyValue, KeyValueFields, read_key_value, key_value_field, no_key_value,
  key_value_of,
}

pub key_value-Carries : (a : KeyValue) → IsKeyValue a → Carries read_key_value encode_key_value a
unfolding read_key_value key_value_field encode_key_value key_value_of
key_value-Carries a h =
    let s1 : KeyValueFields = record no_key_value { key = some a.key } in
    Carries-struct key_value_of encode_key_value a (λ w. refl)
      (Chain-put 1 binary read_binary (total write_binary)
        (λ v. record no_key_value { key = some v }) (binary-Carries a.key h.key) refl (omega arith)
        (omega arith)
        (Chain-opt 2 binary read_binary (total write_binary) a.value (λ o. record s1 { value = o })
          (opt-Carries binary-Carries a.value h.value) refl refl (omega arith) (omega arith)
          λ q b. Chain-end))
      refl

pub column_metadata-Carries :
    ⦃layout : Layout⦄ (a : ColumnMetaData)
    → IsColumnMetaData a
    → Carries read_column_metadata encode_column_metadata a
unfolding read_column_metadata column_metadata_field encode_column_metadata column_metadata_of
column_metadata-Carries a h =
    let s1 : ColumnMetaDataFields = record no_column_metadata {
      column_type = some a.column_type;
    } in
    let s2 : ColumnMetaDataFields = record s1 { encodings = some a.encodings } in
    let s3 : ColumnMetaDataFields = record s2 { path_in_schema = some a.path_in_schema } in
    let s4 : ColumnMetaDataFields = record s3 { codec = some a.codec } in
    let s5 : ColumnMetaDataFields = record s4 { num_values = some a.num_values } in
    let s6 : ColumnMetaDataFields = record s5 {
      total_uncompressed_size = some a.total_uncompressed_size;
    } in
    let s7 : ColumnMetaDataFields = record s6 {
      total_compressed_size = some a.total_compressed_size;
    } in
    let s8 : ColumnMetaDataFields = record s7 { key_value_metadata = a.key_value_metadata } in
    let s9 : ColumnMetaDataFields = record s8 { data_page_offset = some a.data_page_offset } in
    let s10 : ColumnMetaDataFields = record s9 { index_page_offset = a.index_page_offset } in
    let s11 : ColumnMetaDataFields = record s10 {
      dictionary_page_offset = a.dictionary_page_offset;
    } in
    let s12 : ColumnMetaDataFields = record s11 { statistics = a.statistics } in
    let s13 : ColumnMetaDataFields = record s12 { encoding_stats = a.encoding_stats } in
    let s14 : ColumnMetaDataFields = record s13 { bloom_filter_offset = a.bloom_filter_offset } in
    let s15 : ColumnMetaDataFields = record s14 { bloom_filter_length = a.bloom_filter_length } in
    Carries-struct column_metadata_of encode_column_metadata a (λ w. refl)
      (Chain-put 1 i32 read_parquet_type (write_code parquet_type_code)
        (λ v. record no_column_metadata { column_type = some v })
        (parquet_type-Carries a.column_type) refl (omega arith) (omega arith)
        (Chain-put 2 list_of read_encodings write_encodings (λ v. record s1 { encodings = some v })
          (encodings-Carries a.encodings h.encodings) refl (omega arith) (omega arith)
          (Chain-put 3 list_of read_list_binary (total write_list_binary)
            (λ v. record s2 { path_in_schema = some v })
            (list_binary-Carries a.path_in_schema h.path_in_schema) refl (omega arith) (omega arith)
            (Chain-put 4 i32 read_codec (write_code codec_code) (λ v. record s3 { codec = some v })
              (codec-Carries a.codec) refl (omega arith) (omega arith)
              (Chain-put 5 i64 read_zigzag_i64 (total write_zigzag_i64)
                (λ v. record s4 { num_values = some v }) (i64-Carries a.num_values h.num_values)
                refl (omega arith) (omega arith)
                (Chain-put 6 i64 read_zigzag_i64 (total write_zigzag_i64)
                  (λ v. record s5 { total_uncompressed_size = some v })
                  (i64-Carries a.total_uncompressed_size h.total_uncompressed_size) refl
                  (omega arith) (omega arith)
                  (Chain-put 7 i64 read_zigzag_i64 (total write_zigzag_i64)
                    (λ v. record s6 { total_compressed_size = some v })
                    (i64-Carries a.total_compressed_size h.total_compressed_size) refl (omega arith)
                    (omega arith)
                    (Chain-refuse a.key_value_metadata (λ o. record s7 { key_value_metadata = o })
                      h.key_value_metadata refl
                      (Chain-put 9 i64 read_zigzag_i64 (total write_zigzag_i64)
                        (λ v. record s8 { data_page_offset = some v })
                        (i64-Carries a.data_page_offset h.data_page_offset) refl (omega arith)
                        (omega arith)
                        (Chain-opt 10 i64 read_zigzag_i64 (total write_zigzag_i64)
                          a.index_page_offset (λ o. record s9 { index_page_offset = o })
                          (opt-Carries i64-Carries a.index_page_offset h.index_page_offset) refl
                          refl (omega arith) (omega arith)
                          λ q b.
                            (Chain-opt 11 i64 read_zigzag_i64 (total write_zigzag_i64)
                              a.dictionary_page_offset
                              (λ o. record s10 { dictionary_page_offset = o })
                              (opt-Carries i64-Carries a.dictionary_page_offset
                                h.dictionary_page_offset)
                              refl refl (omega arith) b
                              λ q b.
                                (Chain-opt 12 struct read_statistics encode_statistics a.statistics
                                  (λ o. record s11 { statistics = o })
                                  (opt-Carries statistics-Carries a.statistics h.statistics) refl
                                  refl (omega arith) b
                                  λ q b.
                                    (Chain-refuse a.encoding_stats
                                      (λ o. record s12 { encoding_stats = o }) h.encoding_stats refl
                                      (Chain-opt 14 i64 read_zigzag_i64 (total write_zigzag_i64)
                                        a.bloom_filter_offset
                                        (λ o. record s13 { bloom_filter_offset = o })
                                        (opt-Carries i64-Carries a.bloom_filter_offset
                                          h.bloom_filter_offset)
                                        refl refl (omega arith) b
                                        λ q b.
                                          (Chain-opt 15 i32 read_zigzag_i32 (total write_zigzag_i32)
                                            a.bloom_filter_length
                                            (λ o. record s14 { bloom_filter_length = o })
                                            (opt-Carries i32-Carries a.bloom_filter_length
                                              h.bloom_filter_length)
                                            refl refl (omega arith) b
                                            λ q b.
                                              (Chain-refuse a.size_statistics
                                                (λ o. record s15 { size_statistics = o })
                                                h.size_statistics refl Chain-end))))))))))))))))
      refl

pub column_chunk-Carries :
    ⦃layout : Layout⦄ (a : ColumnChunk)
    → IsColumnChunk a
    → Carries read_column_chunk encode_column_chunk a
unfolding read_column_chunk column_chunk_field encode_column_chunk column_chunk_of
column_chunk-Carries a h =
    let s1 : ColumnChunkFields = record no_column_chunk { file_path = a.file_path } in
    let s2 : ColumnChunkFields = record s1 { file_offset = some a.file_offset } in
    let s3 : ColumnChunkFields = record s2 { meta_data = a.meta_data } in
    let s4 : ColumnChunkFields = record s3 { offset_index_offset = a.offset_index_offset } in
    let s5 : ColumnChunkFields = record s4 { offset_index_length = a.offset_index_length } in
    let s6 : ColumnChunkFields = record s5 { column_index_offset = a.column_index_offset } in
    let s7 : ColumnChunkFields = record s6 { column_index_length = a.column_index_length } in
    let s8 : ColumnChunkFields = record s7 { crypto_metadata = a.crypto_metadata } in
    Carries-struct column_chunk_of encode_column_chunk a (λ w. refl)
      (Chain-opt 1 binary read_binary (total write_binary) a.file_path
        (λ o. record no_column_chunk { file_path = o })
        (opt-Carries binary-Carries a.file_path h.file_path) refl refl (omega arith) (omega arith)
        λ q b.
          (Chain-put 2 i64 read_zigzag_i64 (total write_zigzag_i64)
            (λ v. record s1 { file_offset = some v }) (i64-Carries a.file_offset h.file_offset) refl
            (omega arith) b
            (Chain-opt 3 struct read_column_metadata encode_column_metadata a.meta_data
              (λ o. record s2 { meta_data = o })
              (opt-Carries column_metadata-Carries a.meta_data h.meta_data) refl refl (omega arith)
              (omega arith)
              λ q b.
                (Chain-opt 4 i64 read_zigzag_i64 (total write_zigzag_i64) a.offset_index_offset
                  (λ o. record s3 { offset_index_offset = o })
                  (opt-Carries i64-Carries a.offset_index_offset h.offset_index_offset) refl refl
                  (omega arith) b
                  λ q b.
                    (Chain-opt 5 i32 read_zigzag_i32 (total write_zigzag_i32) a.offset_index_length
                      (λ o. record s4 { offset_index_length = o })
                      (opt-Carries i32-Carries a.offset_index_length h.offset_index_length) refl
                      refl (omega arith) b
                      λ q b.
                        (Chain-opt 6 i64 read_zigzag_i64 (total write_zigzag_i64)
                          a.column_index_offset (λ o. record s5 { column_index_offset = o })
                          (opt-Carries i64-Carries a.column_index_offset h.column_index_offset) refl
                          refl (omega arith) b
                          λ q b.
                            (Chain-opt 7 i32 read_zigzag_i32 (total write_zigzag_i32)
                              a.column_index_length (λ o. record s6 { column_index_length = o })
                              (opt-Carries i32-Carries a.column_index_length h.column_index_length)
                              refl refl (omega arith) b
                              λ q b.
                                (Chain-opt 8 struct read_column_crypto_metadata
                                  encode_column_crypto_metadata a.crypto_metadata
                                  (λ o. record s7 { crypto_metadata = o })
                                  (opt-Carries column_crypto_metadata-Carries a.crypto_metadata
                                    h.crypto_metadata)
                                  refl refl (omega arith) b
                                  λ q b.
                                    (Chain-opt 9 binary read_binary (total write_binary)
                                      a.encrypted_column_metadata
                                      (λ o. record s8 { encrypted_column_metadata = o })
                                      (opt-Carries binary-Carries a.encrypted_column_metadata
                                        h.encrypted_column_metadata)
                                      refl refl (omega arith) b λ q b. Chain-end)))))))))
      refl
