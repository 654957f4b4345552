-- ===== src/Metadata/Page/Safety.antt =====
-- The readers of the statistics and the page headers, on any bytes.
use ematix_parquet.Base.{Bool}
use ematix_parquet.Compact.{FieldHeader}
use ematix_parquet.Compact.{Cursor, advance}
use ematix_parquet.Compact.Outcome.{IsWithin, Stays}
use ematix_parquet.Metadata.Safety.{
  read_struct_moves, IsSafe, arms, read_struct-IsSafe, empty_struct-IsSafe,
}
use ematix_parquet.Metadata.Page.{
  DataPageHeaderFields, data_page_header_field, read_data_page_header, no_data_page_header,
  data_page_header_of, read_index_page_header, DictionaryPageHeaderFields,
  dictionary_page_header_field, read_dictionary_page_header, no_dictionary_page_header,
  dictionary_page_header_of, DataPageHeaderV2Fields, data_page_header_v2_field,
  read_data_page_header_v2, no_data_page_header_v2, data_page_header_v2_of, PageHeaderFields,
  page_header_field, read_page_header, no_page_header, page_header_of,
}
use ematix_parquet.Metadata.Statistics.Safety.{statistics-IsSafe}

data_page_header_field-IsSafe :
    {b : Bool} (h : FieldHeader) (s : DataPageHeaderFields) → IsSafe b (data_page_header_field h s)
unfolding data_page_header_field
data_page_header_field-IsSafe h s = search (arms, statistics-IsSafe) depth 10

data_page_header_of-IsSafe :
    {b : Bool} (s : DataPageHeaderFields) → IsSafe b (data_page_header_of s)
unfolding data_page_header_of
data_page_header_of-IsSafe s = search arms depth 7

pub data_page_header-IsSafe : {b : Bool} → IsSafe b read_data_page_header
unfolding read_data_page_header
data_page_header-IsSafe =
    read_struct-IsSafe data_page_header_field data_page_header_field-IsSafe no_data_page_header _
      data_page_header_of-IsSafe

pub index_page_header-IsSafe : {b : Bool} → IsSafe b read_index_page_header
unfolding read_index_page_header
index_page_header-IsSafe = empty_struct-IsSafe "IndexPageHeader"

dictionary_page_header_field-IsSafe :
    {b : Bool} (h : FieldHeader) (s : DictionaryPageHeaderFields)
    → IsSafe b (dictionary_page_header_field h s)
unfolding dictionary_page_header_field
dictionary_page_header_field-IsSafe h s = search (arms) depth 9

dictionary_page_header_of-IsSafe :
    {b : Bool} (s : DictionaryPageHeaderFields) → IsSafe b (dictionary_page_header_of s)
unfolding dictionary_page_header_of
dictionary_page_header_of-IsSafe s = search arms depth 5

pub dictionary_page_header-IsSafe : {b : Bool} → IsSafe b read_dictionary_page_header
unfolding read_dictionary_page_header
dictionary_page_header-IsSafe =
    read_struct-IsSafe dictionary_page_header_field dictionary_page_header_field-IsSafe
      no_dictionary_page_header _ dictionary_page_header_of-IsSafe

data_page_header_v2_field-IsSafe :
    {b : Bool} (h : FieldHeader) (s : DataPageHeaderV2Fields)
    → IsSafe b (data_page_header_v2_field h s)
unfolding data_page_header_v2_field
data_page_header_v2_field-IsSafe h s = search (arms, statistics-IsSafe) depth 14

data_page_header_v2_of-IsSafe :
    {b : Bool} (s : DataPageHeaderV2Fields) → IsSafe b (data_page_header_v2_of s)
unfolding data_page_header_v2_of
data_page_header_v2_of-IsSafe s = search arms depth 9

pub data_page_header_v2-IsSafe : {b : Bool} → IsSafe b read_data_page_header_v2
unfolding read_data_page_header_v2
data_page_header_v2-IsSafe =
    read_struct-IsSafe data_page_header_v2_field data_page_header_v2_field-IsSafe
      no_data_page_header_v2 _ data_page_header_v2_of-IsSafe

page_header_field-IsSafe :
    {b : Bool} (h : FieldHeader) (s : PageHeaderFields) → IsSafe b (page_header_field h s)
unfolding page_header_field
page_header_field-IsSafe h s =
    search
      (
        arms, data_page_header-IsSafe, index_page_header-IsSafe, dictionary_page_header-IsSafe,
        data_page_header_v2-IsSafe,
      )
      depth 13

page_header_of-IsSafe : {b : Bool} (s : PageHeaderFields) → IsSafe b (page_header_of s)
unfolding page_header_of
page_header_of-IsSafe s = search arms depth 6

pub page_header-IsSafe : {b : Bool} → IsSafe b read_page_header
unfolding read_page_header
page_header-IsSafe =
    read_struct-IsSafe page_header_field page_header_field-IsSafe no_page_header _
      page_header_of-IsSafe

-- A page header takes a byte at least.
pub page_header_moves :
    (b : Bool) (c : Cursor) → IsWithin c → Stays b (advance 1 c) (read_page_header c)
unfolding read_page_header
page_header_moves b =
    read_struct_moves page_header_field page_header_field-IsSafe no_page_header _
      page_header_of-IsSafe
