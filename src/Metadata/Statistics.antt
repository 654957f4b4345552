-- ===== src/Metadata/Statistics.antt =====
-- crates/ematix-parquet-format/src/metadata.rs: the statistics of columns and pages, and key-value
-- entries. Of each struct `x`, `x_field` is the body of its loop and `x_of` the struct made of the
-- fields in the end.
pub mod Safety
use ematix_parquet.Base.{ℕ, if◌then◌else◌, Bool, true, false, Option, none, some, List}
use ematix_parquet.Compact.{
  ◌>>=◌, FieldHeader, Reader, pure, bool_true, bool_false, i32, i64, binary, read_zigzag_i32,
  read_zigzag_i64, read_binary, list_of, read_list_i64,
}
use ematix_parquet.Types.{Encoding, PageType, read_encoding, read_page_type}
use ematix_parquet.Metadata.{unknown, required, is_field, read_struct}

pub record Statistics : Type 0 where
  pub max : Option (List ℕ)
  pub min : Option (List ℕ)
  pub null_count : Option ℕ
  pub distinct_count : Option ℕ
  pub max_value : Option (List ℕ)
  pub min_value : Option (List ℕ)
  pub is_max_value_exact : Option Bool
  pub is_min_value_exact : Option Bool

abbrev pub no_statistics : Statistics
no_statistics = record {
  max = none;
  min = none;
  null_count = none;
  distinct_count = none;
  max_value = none;
  min_value = none;
  is_max_value_exact = none;
  is_min_value_exact = none;
}

unfoldable pub statistics_field : FieldHeader → Statistics → Reader Statistics
statistics_field h s =
    if is_field h 1 binary
    then (do v ← read_binary; pure (record s { max = some v }))
    else if is_field h 2 binary
    then (do v ← read_binary; pure (record s { min = some v }))
    else if is_field h 3 i64
    then (do v ← read_zigzag_i64; pure (record s { null_count = some v }))
    else if is_field h 4 i64
    then (do v ← read_zigzag_i64; pure (record s { distinct_count = some v }))
    else if is_field h 5 binary
    then (do v ← read_binary; pure (record s { max_value = some v }))
    else if is_field h 6 binary
    then (do v ← read_binary; pure (record s { min_value = some v }))
    else if is_field h 7 bool_true
    then pure (record s { is_max_value_exact = some true })
    else if is_field h 7 bool_false
    then pure (record s { is_max_value_exact = some false })
    else if is_field h 8 bool_true
    then pure (record s { is_min_value_exact = some true })
    else if is_field h 8 bool_false
    then pure (record s { is_min_value_exact = some false })
    else unknown "Statistics" h.id

unfoldable pub read_statistics : Reader Statistics
read_statistics = read_struct statistics_field no_statistics pure

pub record KeyValue : Type 0 where
  pub key : List ℕ
  pub value : Option (List ℕ)

pub record KeyValueFields : Type 0 where
  pub key : Option (List ℕ)
  pub value : Option (List ℕ)

abbrev pub no_key_value : KeyValueFields
no_key_value = record { key = none; value = none }

unfoldable pub key_value_field : FieldHeader → KeyValueFields → Reader KeyValueFields
key_value_field h s =
    if is_field h 1 binary
    then (do v ← read_binary; pure (record s { key = some v }))
    else if is_field h 2 binary
    then (do v ← read_binary; pure (record s { value = some v }))
    else unknown "KeyValue" h.id

unfoldable pub key_value_of : KeyValueFields → Reader KeyValue
key_value_of s = do key ← required "KeyValue" 1 s.key; pure (record { key = key; value = s.value })

unfoldable pub read_key_value : Reader KeyValue
read_key_value = read_struct key_value_field no_key_value key_value_of

pub record SizeStatistics : Type 0 where
  pub unencoded_byte_array_data_bytes : Option ℕ
  pub repetition_level_histogram : Option (List ℕ)
  pub definition_level_histogram : Option (List ℕ)

abbrev pub no_size_statistics : SizeStatistics
no_size_statistics = record {
  unencoded_byte_array_data_bytes = none;
  repetition_level_histogram = none;
  definition_level_histogram = none;
}

pub size_statistics_field : FieldHeader → SizeStatistics → Reader SizeStatistics
size_statistics_field h s =
    if is_field h 1 i64
    then (do v ← read_zigzag_i64; pure (record s { unencoded_byte_array_data_bytes = some v }))
    else if is_field h 2 list_of
    then (do v ← read_list_i64; pure (record s { repetition_level_histogram = some v }))
    else if is_field h 3 list_of
    then (do v ← read_list_i64; pure (record s { definition_level_histogram = some v }))
    else unknown "SizeStatistics" h.id

pub read_size_statistics : Reader SizeStatistics
read_size_statistics = read_struct size_statistics_field no_size_statistics pure

pub record PageEncodingStats : Type 0 where
  pub page_type : PageType
  pub encoding : Encoding
  pub count : ℕ

pub record PageEncodingStatsFields : Type 0 where
  pub page_type : Option PageType
  pub encoding : Option Encoding
  pub count : Option ℕ

abbrev pub no_page_encoding_stats : PageEncodingStatsFields
no_page_encoding_stats = record { page_type = none; encoding = none; count = none }

pub page_encoding_stats_field :
    FieldHeader → PageEncodingStatsFields → Reader PageEncodingStatsFields
page_encoding_stats_field h s =
    if is_field h 1 i32
    then (do v ← read_page_type; pure (record s { page_type = some v }))
    else if is_field h 2 i32
    then (do v ← read_encoding; pure (record s { encoding = some v }))
    else if is_field h 3 i32
    then (do v ← read_zigzag_i32; pure (record s { count = some v }))
    else unknown "PageEncodingStats" h.id

pub page_encoding_stats_of : PageEncodingStatsFields → Reader PageEncodingStats
page_encoding_stats_of s = do
  page_type ← required "PageEncodingStats" 1 s.page_type
  encoding ← required "PageEncodingStats" 2 s.encoding
  count ← required "PageEncodingStats" 3 s.count
  pure (record { page_type = page_type; encoding = encoding; count = count })

pub read_page_encoding_stats : Reader PageEncodingStats
read_page_encoding_stats =
    read_struct page_encoding_stats_field no_page_encoding_stats page_encoding_stats_of
