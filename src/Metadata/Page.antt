-- ===== src/Metadata/Page.antt =====
-- crates/ematix-parquet-format/src/metadata.rs: the statistics and the page headers. Of each struct
-- `x`, `x_field` is the body of its loop and `x_of` the struct made of the fields in the end.
pub mod Safety
use ematix_parquet.Base.{ℕ, if◌then◌else◌, Bool, true, false, Option, none, some}
use ematix_parquet.Compact.{
  ◌>>=◌, FieldHeader, Reader, pure, bool_true, bool_false, i32, struct, read_zigzag_i32,
}
use ematix_parquet.Types.{Encoding, PageType, read_encoding, read_page_type}
use ematix_parquet.Metadata.{unknown, required, is_field, read_struct, read_empty_struct}
use ematix_parquet.Metadata.Statistics.{Statistics, read_statistics}

pub record DataPageHeader : Type 0 where
  pub num_values : ℕ
  pub encoding : Encoding
  pub definition_level_encoding : Encoding
  pub repetition_level_encoding : Encoding
  pub statistics : Option Statistics

pub record DataPageHeaderFields : Type 0 where
  pub num_values : Option ℕ
  pub encoding : Option Encoding
  pub definition_level_encoding : Option Encoding
  pub repetition_level_encoding : Option Encoding
  pub statistics : Option Statistics

abbrev pub no_data_page_header : DataPageHeaderFields
no_data_page_header = record {
  num_values = none;
  encoding = none;
  definition_level_encoding = none;
  repetition_level_encoding = none;
  statistics = none;
}

unfoldable pub data_page_header_field :
    FieldHeader → DataPageHeaderFields → Reader DataPageHeaderFields
data_page_header_field h s =
    if is_field h 1 i32
    then (do v ← read_zigzag_i32; pure (record s { num_values = some v }))
    else if is_field h 2 i32
    then (do v ← read_encoding; pure (record s { encoding = some v }))
    else if is_field h 3 i32
    then (do v ← read_encoding; pure (record s { definition_level_encoding = some v }))
    else if is_field h 4 i32
    then (do v ← read_encoding; pure (record s { repetition_level_encoding = some v }))
    else if is_field h 5 struct
    then (do v ← read_statistics; pure (record s { statistics = some v }))
    else unknown "DataPageHeader" h.id

unfoldable pub data_page_header_of : DataPageHeaderFields → Reader DataPageHeader
data_page_header_of s = do
  num_values ← required "DataPageHeader" 1 s.num_values
  encoding ← required "DataPageHeader" 2 s.encoding
  definition_level_encoding ← required "DataPageHeader" 3 s.definition_level_encoding
  repetition_level_encoding ← required "DataPageHeader" 4 s.repetition_level_encoding
  pure (record {
    num_values = num_values;
    encoding = encoding;
    definition_level_encoding = definition_level_encoding;
    repetition_level_encoding = repetition_level_encoding;
    statistics = s.statistics;
  })

unfoldable pub read_data_page_header : Reader DataPageHeader
read_data_page_header = read_struct data_page_header_field no_data_page_header data_page_header_of

abbrev pub IndexPageHeader : Type 0
IndexPageHeader = Unit {0}

unfoldable pub read_index_page_header : Reader IndexPageHeader
read_index_page_header = read_empty_struct "IndexPageHeader"

pub record DictionaryPageHeader : Type 0 where
  pub num_values : ℕ
  pub encoding : Encoding
  pub is_sorted : Option Bool

pub record DictionaryPageHeaderFields : Type 0 where
  pub num_values : Option ℕ
  pub encoding : Option Encoding
  pub is_sorted : Option Bool

abbrev pub no_dictionary_page_header : DictionaryPageHeaderFields
no_dictionary_page_header = record { num_values = none; encoding = none; is_sorted = none }

unfoldable pub dictionary_page_header_field :
    FieldHeader → DictionaryPageHeaderFields → Reader DictionaryPageHeaderFields
dictionary_page_header_field h s =
    if is_field h 1 i32
    then (do v ← read_zigzag_i32; pure (record s { num_values = some v }))
    else if is_field h 2 i32
    then (do v ← read_encoding; pure (record s { encoding = some v }))
    else if is_field h 3 bool_true
    then pure (record s { is_sorted = some true })
    else if is_field h 3 bool_false
    then pure (record s { is_sorted = some false })
    else unknown "DictionaryPageHeader" h.id

unfoldable pub dictionary_page_header_of : DictionaryPageHeaderFields → Reader DictionaryPageHeader
dictionary_page_header_of s = do
  num_values ← required "DictionaryPageHeader" 1 s.num_values
  encoding ← required "DictionaryPageHeader" 2 s.encoding
  pure (record { num_values = num_values; encoding = encoding; is_sorted = s.is_sorted })

unfoldable pub read_dictionary_page_header : Reader DictionaryPageHeader
read_dictionary_page_header =
    read_struct dictionary_page_header_field no_dictionary_page_header dictionary_page_header_of

pub record DataPageHeaderV2 : Type 0 where
  pub num_values : ℕ
  pub num_nulls : ℕ
  pub num_rows : ℕ
  pub encoding : Encoding
  pub definition_levels_byte_length : ℕ
  pub repetition_levels_byte_length : ℕ
  pub is_compressed : Bool
  pub statistics : Option Statistics

pub record DataPageHeaderV2Fields : Type 0 where
  pub num_values : Option ℕ
  pub num_nulls : Option ℕ
  pub num_rows : Option ℕ
  pub encoding : Option Encoding
  pub definition_levels_byte_length : Option ℕ
  pub repetition_levels_byte_length : Option ℕ
  pub is_compressed : Bool
  pub statistics : Option Statistics

abbrev pub no_data_page_header_v2 : DataPageHeaderV2Fields
no_data_page_header_v2 = record {
  num_values = none;
  num_nulls = none;
  num_rows = none;
  encoding = none;
  definition_levels_byte_length = none;
  repetition_levels_byte_length = none;
  is_compressed = true;
  statistics = none;
}

unfoldable pub data_page_header_v2_field :
    FieldHeader → DataPageHeaderV2Fields → Reader DataPageHeaderV2Fields
data_page_header_v2_field h s =
    if is_field h 1 i32
    then (do v ← read_zigzag_i32; pure (record s { num_values = some v }))
    else if is_field h 2 i32
    then (do v ← read_zigzag_i32; pure (record s { num_nulls = some v }))
    else if is_field h 3 i32
    then (do v ← read_zigzag_i32; pure (record s { num_rows = some v }))
    else if is_field h 4 i32
    then (do v ← read_encoding; pure (record s { encoding = some v }))
    else if is_field h 5 i32
    then (do v ← read_zigzag_i32; pure (record s { definition_levels_byte_length = some v }))
    else if is_field h 6 i32
    then (do v ← read_zigzag_i32; pure (record s { repetition_levels_byte_length = some v }))
    else if is_field h 7 bool_true
    then pure (record s { is_compressed = true })
    else if is_field h 7 bool_false
    then pure (record s { is_compressed = false })
    else if is_field h 8 struct
    then (do v ← read_statistics; pure (record s { statistics = some v }))
    else unknown "DataPageHeaderV2" h.id

unfoldable pub data_page_header_v2_of : DataPageHeaderV2Fields → Reader DataPageHeaderV2
data_page_header_v2_of s = do
  num_values ← required "DataPageHeaderV2" 1 s.num_values
  num_nulls ← required "DataPageHeaderV2" 2 s.num_nulls
  num_rows ← required "DataPageHeaderV2" 3 s.num_rows
  encoding ← required "DataPageHeaderV2" 4 s.encoding
  definition_levels_byte_length ← required "DataPageHeaderV2" 5 s.definition_levels_byte_length
  repetition_levels_byte_length ← required "DataPageHeaderV2" 6 s.repetition_levels_byte_length
  pure (record {
    num_values = num_values;
    num_nulls = num_nulls;
    num_rows = num_rows;
    encoding = encoding;
    definition_levels_byte_length = definition_levels_byte_length;
    repetition_levels_byte_length = repetition_levels_byte_length;
    is_compressed = s.is_compressed;
    statistics = s.statistics;
  })

unfoldable pub read_data_page_header_v2 : Reader DataPageHeaderV2
read_data_page_header_v2 =
    read_struct data_page_header_v2_field no_data_page_header_v2 data_page_header_v2_of

pub record PageHeader : Type 0 where
  pub page_type : PageType
  pub uncompressed_page_size : ℕ
  pub compressed_page_size : ℕ
  pub crc : Option ℕ
  pub data_page_header : Option DataPageHeader
  pub index_page_header : Option IndexPageHeader
  pub dictionary_page_header : Option DictionaryPageHeader
  pub data_page_header_v2 : Option DataPageHeaderV2

pub record PageHeaderFields : Type 0 where
  pub page_type : Option PageType
  pub uncompressed_page_size : Option ℕ
  pub compressed_page_size : Option ℕ
  pub crc : Option ℕ
  pub data_page_header : Option DataPageHeader
  pub index_page_header : Option IndexPageHeader
  pub dictionary_page_header : Option DictionaryPageHeader
  pub data_page_header_v2 : Option DataPageHeaderV2

abbrev pub no_page_header : PageHeaderFields
no_page_header = record {
  page_type = none;
  uncompressed_page_size = none;
  compressed_page_size = none;
  crc = none;
  data_page_header = none;
  index_page_header = none;
  dictionary_page_header = none;
  data_page_header_v2 = none;
}

unfoldable pub page_header_field : FieldHeader → PageHeaderFields → Reader PageHeaderFields
page_header_field h s =
    if is_field h 1 i32
    then (do v ← read_page_type; pure (record s { page_type = some v }))
    else if is_field h 2 i32
    then (do v ← read_zigzag_i32; pure (record s { uncompressed_page_size = some v }))
    else if is_field h 3 i32
    then (do v ← read_zigzag_i32; pure (record s { compressed_page_size = some v }))
    else if is_field h 4 i32
    then (do v ← read_zigzag_i32; pure (record s { crc = some v }))
    else if is_field h 5 struct
    then (do v ← read_data_page_header; pure (record s { data_page_header = some v }))
    else if is_field h 6 struct
    then (do v ← read_index_page_header; pure (record s { index_page_header = some v }))
    else if is_field h 7 struct
    then (do v ← read_dictionary_page_header; pure (record s { dictionary_page_header = some v }))
    else if is_field h 8 struct
    then (do v ← read_data_page_header_v2; pure (record s { data_page_header_v2 = some v }))
    else unknown "PageHeader" h.id

unfoldable pub page_header_of : PageHeaderFields → Reader PageHeader
page_header_of s = do
  page_type ← required "PageHeader" 1 s.page_type
  uncompressed_page_size ← required "PageHeader" 2 s.uncompressed_page_size
  compressed_page_size ← required "PageHeader" 3 s.compressed_page_size
  pure (record {
    page_type = page_type;
    uncompressed_page_size = uncompressed_page_size;
    compressed_page_size = compressed_page_size;
    crc = s.crc;
    data_page_header = s.data_page_header;
    index_page_header = s.index_page_header;
    dictionary_page_header = s.dictionary_page_header;
    data_page_header_v2 = s.data_page_header_v2;
  })

unfoldable pub read_page_header : Reader PageHeader
read_page_header = read_struct page_header_field no_page_header page_header_of
