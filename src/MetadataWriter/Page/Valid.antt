-- ===== src/MetadataWriter/Page/Valid.antt =====
-- What the writers of the page headers and the statistics take: numbers in their ranges, lengths
-- that fit, and none of the fields that they refuse.
use ematix_parquet.MetadataWriter.Rules.{OptAll}
use ematix_parquet.MetadataWriter.Values.{IsI32, IsI64, IsSized}
use ematix_parquet.Metadata.Page.{
  DataPageHeader, DictionaryPageHeader, DataPageHeaderV2, PageHeader,
}
use ematix_parquet.Metadata.Statistics.{Statistics}

pub record IsStatistics (a : Statistics) : Type 0 where
  pub max : OptAll IsSized a.max
  pub min : OptAll IsSized a.min
  pub null_count : OptAll IsI64 a.null_count
  pub distinct_count : OptAll IsI64 a.distinct_count
  pub max_value : OptAll IsSized a.max_value
  pub min_value : OptAll IsSized a.min_value

pub record IsDataPageHeader (a : DataPageHeader) : Type 0 where
  pub num_values : IsI32 a.num_values
  pub statistics : OptAll IsStatistics a.statistics

pub record IsDictionaryPageHeader (a : DictionaryPageHeader) : Type 0 where
  pub num_values : IsI32 a.num_values

pub record IsDataPageHeaderV2 (a : DataPageHeaderV2) : Type 0 where
  pub num_values : IsI32 a.num_values
  pub num_nulls : IsI32 a.num_nulls
  pub num_rows : IsI32 a.num_rows
  pub definition_levels_byte_length : IsI32 a.definition_levels_byte_length
  pub repetition_levels_byte_length : IsI32 a.repetition_levels_byte_length
  pub statistics : OptAll IsStatistics a.statistics

pub record IsPageHeader (a : PageHeader) : Type 0 where
  pub uncompressed_page_size : IsI32 a.uncompressed_page_size
  pub compressed_page_size : IsI32 a.compressed_page_size
  pub crc : OptAll IsI32 a.crc
  pub data_page_header : OptAll IsDataPageHeader a.data_page_header
  pub dictionary_page_header : OptAll IsDictionaryPageHeader a.dictionary_page_header
  pub data_page_header_v2 : OptAll IsDataPageHeaderV2 a.data_page_header_v2
