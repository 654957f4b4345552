-- ===== src/MetadataWriter/Page/Carries.antt =====
-- What is written of the page headers and the statistics, field by field, is read back.
use ematix_parquet.Base.{arith, some, refl}
use ematix_parquet.Compact.{i32, i64, binary, struct, read_zigzag_i32, read_zigzag_i64, read_binary}
use ematix_parquet.CompactWriter.{write_zigzag_i32, write_zigzag_i64, write_binary}
use ematix_parquet.Types.{encoding_code, page_type_code, read_encoding, read_page_type}
use ematix_parquet.MetadataWriter.{total, write_code, write_empty_struct}
use ematix_parquet.Compact.{pure}
use ematix_parquet.MetadataWriter.Rules.{
  Carries, Chain-end, Chain-put, Chain-opt, Chain-bool, Chain-unless, Carries-struct,
}
use ematix_parquet.MetadataWriter.Values.{
  i32-Carries, i64-Carries, binary-Carries, empty-Carries, encoding-Carries, page_type-Carries,
  opt_any, opt-Carries,
}
use ematix_parquet.Metadata.Page.{
  DataPageHeader, DataPageHeaderFields, read_data_page_header, data_page_header_field,
  no_data_page_header, data_page_header_of, read_index_page_header, DictionaryPageHeader,
  DictionaryPageHeaderFields, read_dictionary_page_header, dictionary_page_header_field,
  no_dictionary_page_header, dictionary_page_header_of, DataPageHeaderV2, DataPageHeaderV2Fields,
  read_data_page_header_v2, data_page_header_v2_field, no_data_page_header_v2,
  data_page_header_v2_of, PageHeader, PageHeaderFields, read_page_header, page_header_field,
  no_page_header, page_header_of,
}
use ematix_parquet.MetadataWriter.Page.{
  encode_statistics, encode_data_page_header, encode_dictionary_page_header,
  encode_data_page_header_v2, encode_page_header,
}
use ematix_parquet.MetadataWriter.Page.Valid.{
  IsStatistics, IsDataPageHeader, IsDictionaryPageHeader, IsDataPageHeaderV2, IsPageHeader,
}
use ematix_parquet.Metadata.Statistics.{
  Statistics, read_statistics, statistics_field, no_statistics,
}

pub statistics-Carries :
    (a : Statistics) → IsStatistics a → Carries read_statistics encode_statistics a
unfolding read_statistics statistics_field encode_statistics
statistics-Carries a h =
    let s1 : Statistics = record no_statistics { max = a.max } in
    let s2 : Statistics = record s1 { min = a.min } in
    let s3 : Statistics = record s2 { null_count = a.null_count } in
    let s4 : Statistics = record s3 { distinct_count = a.distinct_count } in
    let s5 : Statistics = record s4 { max_value = a.max_value } in
    let s6 : Statistics = record s5 { min_value = a.min_value } in
    let s7 : Statistics = record s6 { is_max_value_exact = a.is_max_value_exact } in
    Carries-struct pure encode_statistics a (λ w. refl)
      (Chain-opt 1 binary read_binary (total write_binary) a.max
        (λ o. record no_statistics { max = o }) (opt-Carries binary-Carries a.max h.max) refl refl
        (omega arith) (omega arith)
        λ q b.
          (Chain-opt 2 binary read_binary (total write_binary) a.min (λ o. record s1 { min = o })
            (opt-Carries binary-Carries a.min h.min) refl refl (omega arith) b
            λ q b.
              (Chain-opt 3 i64 read_zigzag_i64 (total write_zigzag_i64) a.null_count
                (λ o. record s2 { null_count = o })
                (opt-Carries i64-Carries a.null_count h.null_count) refl refl (omega arith) b
                λ q b.
                  (Chain-opt 4 i64 read_zigzag_i64 (total write_zigzag_i64) a.distinct_count
                    (λ o. record s3 { distinct_count = o })
                    (opt-Carries i64-Carries a.distinct_count h.distinct_count) refl refl
                    (omega arith) b
                    λ q b.
                      (Chain-opt 5 binary read_binary (total write_binary) a.max_value
                        (λ o. record s4 { max_value = o })
                        (opt-Carries binary-Carries a.max_value h.max_value) refl refl (omega arith)
                        b
                        λ q b.
                          (Chain-opt 6 binary read_binary (total write_binary) a.min_value
                            (λ o. record s5 { min_value = o })
                            (opt-Carries binary-Carries a.min_value h.min_value) refl refl
                            (omega arith) b
                            λ q b.
                              (Chain-bool 7 a.is_max_value_exact
                                (λ o. record s6 { is_max_value_exact = o }) refl refl refl
                                (omega arith) b
                                λ q b.
                                  (Chain-bool 8 a.is_min_value_exact
                                    (λ o. record s7 { is_min_value_exact = o }) refl refl refl
                                    (omega arith) b λ q b. Chain-end))))))))
      refl

pub data_page_header-Carries :
    (a : DataPageHeader)
    → IsDataPageHeader a
    → Carries read_data_page_header encode_data_page_header a
unfolding read_data_page_header data_page_header_field encode_data_page_header data_page_header_of
data_page_header-Carries a h =
    let s1 : DataPageHeaderFields = record no_data_page_header { num_values = some a.num_values } in
    let s2 : DataPageHeaderFields = record s1 { encoding = some a.encoding } in
    let s3 : DataPageHeaderFields = record s2 {
      definition_level_encoding = some a.definition_level_encoding;
    } in
    let s4 : DataPageHeaderFields = record s3 {
      repetition_level_encoding = some a.repetition_level_encoding;
    } in
    Carries-struct data_page_header_of encode_data_page_header a (λ w. refl)
      (Chain-put 1 i32 read_zigzag_i32 (total write_zigzag_i32)
        (λ v. record no_data_page_header { num_values = some v })
        (i32-Carries a.num_values h.num_values) refl (omega arith) (omega arith)
        (Chain-put 2 i32 read_encoding (write_code encoding_code)
          (λ v. record s1 { encoding = some v }) (encoding-Carries a.encoding) refl (omega arith)
          (omega arith)
          (Chain-put 3 i32 read_encoding (write_code encoding_code)
            (λ v. record s2 { definition_level_encoding = some v })
            (encoding-Carries a.definition_level_encoding) refl (omega arith) (omega arith)
            (Chain-put 4 i32 read_encoding (write_code encoding_code)
              (λ v. record s3 { repetition_level_encoding = some v })
              (encoding-Carries a.repetition_level_encoding) refl (omega arith) (omega arith)
              (Chain-opt 5 struct read_statistics encode_statistics a.statistics
                (λ o. record s4 { statistics = o })
                (opt-Carries statistics-Carries a.statistics h.statistics) refl refl (omega arith)
                (omega arith) λ q b. Chain-end)))))
      refl

pub dictionary_page_header-Carries :
    (a : DictionaryPageHeader)
    → IsDictionaryPageHeader a
    → Carries read_dictionary_page_header encode_dictionary_page_header a
unfolding read_dictionary_page_header dictionary_page_header_field encode_dictionary_page_header
    dictionary_page_header_of
dictionary_page_header-Carries a h =
    let s1 : DictionaryPageHeaderFields = record no_dictionary_page_header {
      num_values = some a.num_values;
    } in
    let s2 : DictionaryPageHeaderFields = record s1 { encoding = some a.encoding } in
    Carries-struct dictionary_page_header_of encode_dictionary_page_header a (λ w. refl)
      (Chain-put 1 i32 read_zigzag_i32 (total write_zigzag_i32)
        (λ v. record no_dictionary_page_header { num_values = some v })
        (i32-Carries a.num_values h.num_values) refl (omega arith) (omega arith)
        (Chain-put 2 i32 read_encoding (write_code encoding_code)
          (λ v. record s1 { encoding = some v }) (encoding-Carries a.encoding) refl (omega arith)
          (omega arith)
          (Chain-bool 3 a.is_sorted (λ o. record s2 { is_sorted = o }) refl refl refl (omega arith)
            (omega arith) λ q b. Chain-end)))
      refl

pub data_page_header_v2-Carries :
    (a : DataPageHeaderV2)
    → IsDataPageHeaderV2 a
    → Carries read_data_page_header_v2 encode_data_page_header_v2 a
unfolding read_data_page_header_v2 data_page_header_v2_field encode_data_page_header_v2
    data_page_header_v2_of
data_page_header_v2-Carries a h =
    let s1 : DataPageHeaderV2Fields = record no_data_page_header_v2 {
      num_values = some a.num_values;
    } in
    let s2 : DataPageHeaderV2Fields = record s1 { num_nulls = some a.num_nulls } in
    let s3 : DataPageHeaderV2Fields = record s2 { num_rows = some a.num_rows } in
    let s4 : DataPageHeaderV2Fields = record s3 { encoding = some a.encoding } in
    let s5 : DataPageHeaderV2Fields = record s4 {
      definition_levels_byte_length = some a.definition_levels_byte_length;
    } in
    let s6 : DataPageHeaderV2Fields = record s5 {
      repetition_levels_byte_length = some a.repetition_levels_byte_length;
    } in
    let s7 : DataPageHeaderV2Fields = record s6 { is_compressed = a.is_compressed } in
    Carries-struct data_page_header_v2_of encode_data_page_header_v2 a (λ w. refl)
      (Chain-put 1 i32 read_zigzag_i32 (total write_zigzag_i32)
        (λ v. record no_data_page_header_v2 { num_values = some v })
        (i32-Carries a.num_values h.num_values) refl (omega arith) (omega arith)
        (Chain-put 2 i32 read_zigzag_i32 (total write_zigzag_i32)
          (λ v. record s1 { num_nulls = some v }) (i32-Carries a.num_nulls h.num_nulls) refl
          (omega arith) (omega arith)
          (Chain-put 3 i32 read_zigzag_i32 (total write_zigzag_i32)
            (λ v. record s2 { num_rows = some v }) (i32-Carries a.num_rows h.num_rows) refl
            (omega arith) (omega arith)
            (Chain-put 4 i32 read_encoding (write_code encoding_code)
              (λ v. record s3 { encoding = some v }) (encoding-Carries a.encoding) refl
              (omega arith) (omega arith)
              (Chain-put 5 i32 read_zigzag_i32 (total write_zigzag_i32)
                (λ v. record s4 { definition_levels_byte_length = some v })
                (i32-Carries a.definition_levels_byte_length h.definition_levels_byte_length) refl
                (omega arith) (omega arith)
                (Chain-put 6 i32 read_zigzag_i32 (total write_zigzag_i32)
                  (λ v. record s5 { repetition_levels_byte_length = some v })
                  (i32-Carries a.repetition_levels_byte_length h.repetition_levels_byte_length) refl
                  (omega arith) (omega arith)
                  (Chain-unless 7 a.is_compressed (λ x. record s6 { is_compressed = x }) refl refl
                    (omega arith) (omega arith)
                    λ q b.
                      (Chain-opt 8 struct read_statistics encode_statistics a.statistics
                        (λ o. record s7 { statistics = o })
                        (opt-Carries statistics-Carries a.statistics h.statistics) refl refl
                        (omega arith) b λ q b. Chain-end))))))))
      refl

pub page_header-Carries :
    (a : PageHeader) → IsPageHeader a → Carries read_page_header encode_page_header a
unfolding read_page_header page_header_field encode_page_header page_header_of
    read_index_page_header
page_header-Carries a h =
    let s1 : PageHeaderFields = record no_page_header { page_type = some a.page_type } in
    let s2 : PageHeaderFields = record s1 {
      uncompressed_page_size = some a.uncompressed_page_size;
    } in
    let s3 : PageHeaderFields = record s2 { compressed_page_size = some a.compressed_page_size } in
    let s4 : PageHeaderFields = record s3 { crc = a.crc } in
    let s5 : PageHeaderFields = record s4 { data_page_header = a.data_page_header } in
    let s6 : PageHeaderFields = record s5 { index_page_header = a.index_page_header } in
    let s7 : PageHeaderFields = record s6 { dictionary_page_header = a.dictionary_page_header } in
    Carries-struct page_header_of encode_page_header a (λ w. refl)
      (Chain-put 1 i32 read_page_type (write_code page_type_code)
        (λ v. record no_page_header { page_type = some v }) (page_type-Carries a.page_type) refl
        (omega arith) (omega arith)
        (Chain-put 2 i32 read_zigzag_i32 (total write_zigzag_i32)
          (λ v. record s1 { uncompressed_page_size = some v })
          (i32-Carries a.uncompressed_page_size h.uncompressed_page_size) refl (omega arith)
          (omega arith)
          (Chain-put 3 i32 read_zigzag_i32 (total write_zigzag_i32)
            (λ v. record s2 { compressed_page_size = some v })
            (i32-Carries a.compressed_page_size h.compressed_page_size) refl (omega arith)
            (omega arith)
            (Chain-opt 4 i32 read_zigzag_i32 (total write_zigzag_i32) a.crc
              (λ o. record s3 { crc = o }) (opt-Carries i32-Carries a.crc h.crc) refl refl
              (omega arith) (omega arith)
              λ q b.
                (Chain-opt 5 struct read_data_page_header encode_data_page_header a.data_page_header
                  (λ o. record s4 { data_page_header = o })
                  (opt-Carries data_page_header-Carries a.data_page_header h.data_page_header) refl
                  refl (omega arith) b
                  λ q b.
                    (Chain-opt 6 struct read_index_page_header write_empty_struct
                      a.index_page_header (λ o. record s5 { index_page_header = o })
                      (opt_any (empty-Carries "IndexPageHeader") a.index_page_header) refl refl
                      (omega arith) b
                      λ q b.
                        (Chain-opt 7 struct read_dictionary_page_header
                          encode_dictionary_page_header a.dictionary_page_header
                          (λ o. record s6 { dictionary_page_header = o })
                          (opt-Carries dictionary_page_header-Carries a.dictionary_page_header
                            h.dictionary_page_header)
                          refl refl (omega arith) b
                          λ q b.
                            (Chain-opt 8 struct read_data_page_header_v2 encode_data_page_header_v2
                              a.data_page_header_v2 (λ o. record s7 { data_page_header_v2 = o })
                              (opt-Carries data_page_header_v2-Carries a.data_page_header_v2
                                h.data_page_header_v2)
                              refl refl (omega arith) b λ q b. Chain-end))))))))
      refl
