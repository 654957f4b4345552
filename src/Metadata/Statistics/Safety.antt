-- ===== src/Metadata/Statistics/Safety.antt =====
-- The readers of the statistics and the key-value entries, on any bytes.
use ematix_parquet.Base.{Bool}
use ematix_parquet.Compact.{FieldHeader}
use ematix_parquet.Metadata.Safety.{IsSafe, arms, pure-IsSafe, read_struct-IsSafe}
use ematix_parquet.Metadata.Statistics.{
  KeyValueFields, PageEncodingStatsFields, SizeStatistics, Statistics, key_value_field,
  key_value_of, no_key_value, no_page_encoding_stats, no_size_statistics, no_statistics,
  page_encoding_stats_field, page_encoding_stats_of, read_key_value, read_page_encoding_stats,
  read_size_statistics, read_statistics, size_statistics_field, statistics_field,
}

statistics_field-IsSafe :
    {b : Bool} (h : FieldHeader) (s : Statistics) → IsSafe b (statistics_field h s)
unfolding statistics_field
statistics_field-IsSafe h s = search (arms) depth 15

pub statistics-IsSafe : {b : Bool} → IsSafe b read_statistics
unfolding read_statistics
statistics-IsSafe =
    read_struct-IsSafe statistics_field statistics_field-IsSafe no_statistics _ pure-IsSafe

key_value_field-IsSafe :
    {b : Bool} (h : FieldHeader) (s : KeyValueFields) → IsSafe b (key_value_field h s)
unfolding key_value_field
key_value_field-IsSafe h s = search (arms) depth 7

key_value_of-IsSafe : {b : Bool} (s : KeyValueFields) → IsSafe b (key_value_of s)
unfolding key_value_of
key_value_of-IsSafe s = search arms depth 4

pub key_value-IsSafe : {b : Bool} → IsSafe b read_key_value
unfolding read_key_value
key_value-IsSafe =
    read_struct-IsSafe key_value_field key_value_field-IsSafe no_key_value _ key_value_of-IsSafe

size_statistics_field-IsSafe :
    {b : Bool} (h : FieldHeader) (s : SizeStatistics) → IsSafe b (size_statistics_field h s)
unfolding size_statistics_field
size_statistics_field-IsSafe h s = search (arms) depth 8

pub size_statistics-IsSafe : {b : Bool} → IsSafe b read_size_statistics
unfolding read_size_statistics
size_statistics-IsSafe =
    read_struct-IsSafe size_statistics_field size_statistics_field-IsSafe no_size_statistics _
      pure-IsSafe

page_encoding_stats_field-IsSafe :
    {b : Bool} (h : FieldHeader) (s : PageEncodingStatsFields)
    → IsSafe b (page_encoding_stats_field h s)
unfolding page_encoding_stats_field
page_encoding_stats_field-IsSafe h s = search (arms) depth 8

page_encoding_stats_of-IsSafe :
    {b : Bool} (s : PageEncodingStatsFields) → IsSafe b (page_encoding_stats_of s)
unfolding page_encoding_stats_of
page_encoding_stats_of-IsSafe s = search arms depth 6

pub page_encoding_stats-IsSafe : {b : Bool} → IsSafe b read_page_encoding_stats
unfolding read_page_encoding_stats
page_encoding_stats-IsSafe =
    read_struct-IsSafe page_encoding_stats_field page_encoding_stats_field-IsSafe
      no_page_encoding_stats _ page_encoding_stats_of-IsSafe
