-- ===== src/Metadata/Index.antt =====
-- crates/ematix-parquet-format/src/metadata.rs: the page index and the Bloom filter header. Of each
-- struct `x`, `x_field` is the body of its loop and `x_of` the struct made of the fields in the
-- end.
pub mod Safety
use ematix_parquet.Base.{ℕ, zero, suc, ◌==◌, if◌then◌else◌, Bool, Option, none, some, List, err}
use ematix_parquet.Compact.{
  ◌>>=◌, FieldHeader, Reader, pure, i32, i64, list_of, struct, read_field_header, read_zigzag_i32,
  read_zigzag_i64, read_list_i64, read_list_binary, read_list_bool, read_list_struct, remaining,
  out_of_fuel,
}
use ematix_parquet.Types.{BoundaryOrder, read_boundary_order}
use ematix_parquet.Metadata.{Layout, unknown, required, is_field, read_struct}

pub record PageLocation : Type 0 where
  pub offset : ℕ
  pub compressed_page_size : ℕ
  pub first_row_index : ℕ

pub record PageLocationFields : Type 0 where
  pub offset : Option ℕ
  pub compressed_page_size : Option ℕ
  pub first_row_index : Option ℕ

abbrev pub no_page_location : PageLocationFields
no_page_location = record { offset = none; compressed_page_size = none; first_row_index = none }

pub page_location_field : FieldHeader → PageLocationFields → Reader PageLocationFields
page_location_field h s =
    if is_field h 1 i64
    then (do v ← read_zigzag_i64; pure (record s { offset = some v }))
    else if is_field h 2 i32
    then (do v ← read_zigzag_i32; pure (record s { compressed_page_size = some v }))
    else if is_field h 3 i64
    then (do v ← read_zigzag_i64; pure (record s { first_row_index = some v }))
    else unknown "PageLocation" h.id

pub page_location_of : PageLocationFields → Reader PageLocation
page_location_of s = do
  offset ← required "PageLocation" 1 s.offset
  compressed_page_size ← required "PageLocation" 2 s.compressed_page_size
  first_row_index ← required "PageLocation" 3 s.first_row_index
  pure (record {
    offset = offset;
    compressed_page_size = compressed_page_size;
    first_row_index = first_row_index;
  })

pub read_page_location : Reader PageLocation
read_page_location = read_struct page_location_field no_page_location page_location_of

pub record OffsetIndex : Type 0 where
  pub page_locations : List PageLocation
  pub unencoded_byte_array_data_bytes : Option (List ℕ)

pub record OffsetIndexFields : Type 0 where
  pub page_locations : Option (List PageLocation)
  pub unencoded_byte_array_data_bytes : Option (List ℕ)

abbrev pub no_offset_index : OffsetIndexFields
no_offset_index = record { page_locations = none; unencoded_byte_array_data_bytes = none }

pub offset_index_field :
    ⦃layout : Layout⦄ → FieldHeader → OffsetIndexFields → Reader OffsetIndexFields
offset_index_field ⦃layout⦄ h s =
    if is_field h 1 list_of
    then (do
      v ← read_list_struct layout.page_location read_page_location
      pure (record s { page_locations = some v }))
    else if is_field h 2 list_of
    then (do v ← read_list_i64; pure (record s { unencoded_byte_array_data_bytes = some v }))
    else unknown "OffsetIndex" h.id

pub offset_index_of : OffsetIndexFields → Reader OffsetIndex
offset_index_of s = do
  page_locations ← required "OffsetIndex" 1 s.page_locations
  pure (record {
    page_locations = page_locations;
    unencoded_byte_array_data_bytes = s.unencoded_byte_array_data_bytes;
  })

pub read_offset_index : ⦃layout : Layout⦄ → Reader OffsetIndex
read_offset_index = read_struct offset_index_field no_offset_index offset_index_of

pub record ColumnIndex : Type 0 where
  pub null_pages : List Bool
  pub min_values : List (List ℕ)
  pub max_values : List (List ℕ)
  pub boundary_order : BoundaryOrder
  pub null_counts : Option (List ℕ)

pub record ColumnIndexFields : Type 0 where
  pub null_pages : Option (List Bool)
  pub min_values : Option (List (List ℕ))
  pub max_values : Option (List (List ℕ))
  pub boundary_order : Option BoundaryOrder
  pub null_counts : Option (List ℕ)

abbrev pub no_column_index : ColumnIndexFields
no_column_index = record {
  null_pages = none;
  min_values = none;
  max_values = none;
  boundary_order = none;
  null_counts = none;
}

pub column_index_field : FieldHeader → ColumnIndexFields → Reader ColumnIndexFields
column_index_field h s =
    if is_field h 1 list_of
    then (do v ← read_list_bool; pure (record s { null_pages = some v }))
    else if is_field h 2 list_of
    then (do v ← read_list_binary; pure (record s { min_values = some v }))
    else if is_field h 3 list_of
    then (do v ← read_list_binary; pure (record s { max_values = some v }))
    else if is_field h 4 i32
    then (do v ← read_boundary_order; pure (record s { boundary_order = some v }))
    else if is_field h 5 list_of
    then (do v ← read_list_i64; pure (record s { null_counts = some v }))
    else unknown "ColumnIndex" h.id

pub column_index_of : ColumnIndexFields → Reader ColumnIndex
column_index_of s = do
  null_pages ← required "ColumnIndex" 1 s.null_pages
  min_values ← required "ColumnIndex" 2 s.min_values
  max_values ← required "ColumnIndex" 3 s.max_values
  boundary_order ← required "ColumnIndex" 4 s.boundary_order
  pure (record {
    null_pages = null_pages;
    min_values = min_values;
    max_values = max_values;
    boundary_order = boundary_order;
    null_counts = s.null_counts;
  })

pub read_column_index : Reader ColumnIndex
read_column_index = read_struct column_index_field no_column_index column_index_of

pub data BloomFilterAlgorithm : Type 0 where
  split_block : BloomFilterAlgorithm

pub data BloomFilterHash : Type 0 where
  xx_hash : BloomFilterHash

pub data BloomFilterCompression : Type 0 where
  uncompressed : BloomFilterCompression

-- `while let Some(_inner) = read_field_header(cur, 0)? {}`, in rounds.
pub skip_fields : ℕ → Reader (Unit {0})
skip_fields zero = λ c. err out_of_fuel
skip_fields (suc rounds) = do
  header ← read_field_header 0
  elim header [ none ↦ pure tt | some h ↦ skip_fields rounds ]

pub skip_struct : Reader (Unit {0})
skip_struct c = skip_fields (suc (remaining c)) c

pub bloom_algorithm_field :
    FieldHeader → Option BloomFilterAlgorithm → Reader (Option BloomFilterAlgorithm)
bloom_algorithm_field h s =
    if h.id == 1
    then (do _ ← skip_struct; pure (some split_block))
    else unknown "BloomFilterAlgorithm" h.id

pub read_bloom_algorithm : Reader BloomFilterAlgorithm
read_bloom_algorithm = read_struct bloom_algorithm_field none (required "BloomFilterAlgorithm" 1)

pub bloom_hash_field : FieldHeader → Option BloomFilterHash → Reader (Option BloomFilterHash)
bloom_hash_field h s =
    if h.id == 1 then (do _ ← skip_struct; pure (some xx_hash)) else unknown "BloomFilterHash" h.id

pub read_bloom_hash : Reader BloomFilterHash
read_bloom_hash = read_struct bloom_hash_field none (required "BloomFilterHash" 1)

pub bloom_compression_field :
    FieldHeader → Option BloomFilterCompression → Reader (Option BloomFilterCompression)
bloom_compression_field h s =
    if h.id == 1
    then (do _ ← skip_struct; pure (some BloomFilterCompression.uncompressed))
    else unknown "BloomFilterCompression" h.id

pub read_bloom_compression : Reader BloomFilterCompression
read_bloom_compression =
    read_struct bloom_compression_field none (required "BloomFilterCompression" 1)

pub record BloomFilterHeader : Type 0 where
  pub num_bytes : ℕ
  pub algorithm : BloomFilterAlgorithm
  pub hash : BloomFilterHash
  pub compression : BloomFilterCompression

pub record BloomFilterHeaderFields : Type 0 where
  pub num_bytes : Option ℕ
  pub algorithm : Option BloomFilterAlgorithm
  pub hash : Option BloomFilterHash
  pub compression : Option BloomFilterCompression

abbrev pub no_bloom_filter_header : BloomFilterHeaderFields
no_bloom_filter_header = record {
  num_bytes = none;
  algorithm = none;
  hash = none;
  compression = none;
}

pub bloom_filter_header_field :
    FieldHeader → BloomFilterHeaderFields → Reader BloomFilterHeaderFields
bloom_filter_header_field h s =
    if is_field h 1 i32
    then (do v ← read_zigzag_i32; pure (record s { num_bytes = some v }))
    else if is_field h 2 struct
    then (do v ← read_bloom_algorithm; pure (record s { algorithm = some v }))
    else if is_field h 3 struct
    then (do v ← read_bloom_hash; pure (record s { hash = some v }))
    else if is_field h 4 struct
    then (do v ← read_bloom_compression; pure (record s { compression = some v }))
    else unknown "BloomFilterHeader" h.id

pub bloom_filter_header_of : BloomFilterHeaderFields → Reader BloomFilterHeader
bloom_filter_header_of s = do
  num_bytes ← required "BloomFilterHeader" 1 s.num_bytes
  algorithm ← required "BloomFilterHeader" 2 s.algorithm
  hash ← required "BloomFilterHeader" 3 s.hash
  compression ← required "BloomFilterHeader" 4 s.compression
  pure (record {
    num_bytes = num_bytes;
    algorithm = algorithm;
    hash = hash;
    compression = compression;
  })

pub read_bloom_filter_header : Reader BloomFilterHeader
read_bloom_filter_header =
    read_struct bloom_filter_header_field no_bloom_filter_header bloom_filter_header_of
