-- ===== src/Metadata/Index/Safety.antt =====
-- The readers of the page index and the Bloom filter header, on any bytes.
use ematix_parquet.Metadata.{Layout}
use ematix_parquet.Base.{ℕ, zero, suc, ◌<◌, refl, ap, arith, Bool, true, length, Option, none}
use ematix_parquet.Compact.{Cursor, FieldHeader, pure, advance, remaining, read_field_header}
use ematix_parquet.Compact.Outcome.{Stays, IsWithin, Stays-trans, next-Stays}
use ematix_parquet.Compact.Bounds.{field_header_moves}
use ematix_parquet.Metadata.Safety.{
  IsSafe, arms, option-Stays, pure-IsSafe, required-IsSafe, read_struct-IsSafe,
}
use ematix_parquet.Metadata.Index.{
  PageLocationFields, page_location_field, read_page_location, no_page_location, page_location_of,
  OffsetIndexFields, offset_index_field, read_offset_index, no_offset_index, offset_index_of,
  ColumnIndexFields, column_index_field, read_column_index, no_column_index, column_index_of,
  skip_fields, skip_struct, BloomFilterAlgorithm, bloom_algorithm_field, read_bloom_algorithm,
  BloomFilterHash, bloom_hash_field, read_bloom_hash, BloomFilterCompression,
  bloom_compression_field, read_bloom_compression, BloomFilterHeaderFields,
  bloom_filter_header_field, read_bloom_filter_header, no_bloom_filter_header,
  bloom_filter_header_of,
}

page_location_field-IsSafe :
    {b : Bool} (h : FieldHeader) (s : PageLocationFields) → IsSafe b (page_location_field h s)
unfolding page_location_field
page_location_field-IsSafe h s = search (arms) depth 8

page_location_of-IsSafe : {b : Bool} (s : PageLocationFields) → IsSafe b (page_location_of s)
unfolding page_location_of
page_location_of-IsSafe s = search arms depth 6

pub page_location-IsSafe : {b : Bool} → IsSafe b read_page_location
unfolding read_page_location
page_location-IsSafe =
    read_struct-IsSafe page_location_field page_location_field-IsSafe no_page_location _
      page_location_of-IsSafe

offset_index_field-IsSafe :
    ⦃layout : Layout⦄ (h : FieldHeader) (s : OffsetIndexFields)
    → IsSafe true (offset_index_field h s)
unfolding offset_index_field
offset_index_field-IsSafe h s = search (arms, page_location-IsSafe) depth 7

offset_index_of-IsSafe : {b : Bool} (s : OffsetIndexFields) → IsSafe b (offset_index_of s)
unfolding offset_index_of
offset_index_of-IsSafe s = search arms depth 4

pub offset_index-IsSafe : ⦃layout : Layout⦄ → IsSafe true read_offset_index
unfolding read_offset_index
offset_index-IsSafe =
    read_struct-IsSafe offset_index_field offset_index_field-IsSafe no_offset_index _
      offset_index_of-IsSafe

column_index_field-IsSafe :
    (h : FieldHeader) (s : ColumnIndexFields) → IsSafe true (column_index_field h s)
unfolding column_index_field
column_index_field-IsSafe h s = search (arms) depth 10

column_index_of-IsSafe : {b : Bool} (s : ColumnIndexFields) → IsSafe b (column_index_of s)
unfolding column_index_of
column_index_of-IsSafe s = search arms depth 7

pub column_index-IsSafe : IsSafe true read_column_index
unfolding read_column_index
column_index-IsSafe =
    read_struct-IsSafe column_index_field column_index_field-IsSafe no_column_index _
      column_index_of-IsSafe

skip_fields-Stays :
    (b : Bool) (rounds : ℕ) (c : Cursor)
    → IsWithin c
    → remaining c < rounds
    → Stays b c (skip_fields rounds c)
unfolding skip_fields
skip_fields-Stays b zero c h few = absurd (omega arith)
skip_fields-Stays b (suc n) c h few = Stays-trans b c (advance 1 c) _ refl (omega arith) (
    next-Stays b (advance 1 c) (read_field_header 0 c) _ (field_header_moves b 0 c h)
      λ o c' same forward within.
        option-Stays b o (pure tt) _ c' ((pure-IsSafe {b = b} tt).stays c' within)
          λ hd. skip_fields-Stays b n c' within (omega (arith, ap length same)))

skip_struct-IsSafe : {b : Bool} → IsSafe b skip_struct
unfolding skip_struct
skip_struct-IsSafe = record {
  stays = λ c h. skip_fields-Stays _ (suc (remaining c)) c h (omega arith);
}

bloom_algorithm_field-IsSafe :
    {b : Bool} (h : FieldHeader) (s : Option BloomFilterAlgorithm)
    → IsSafe b (bloom_algorithm_field h s)
unfolding bloom_algorithm_field
bloom_algorithm_field-IsSafe h s = search (arms, skip_struct-IsSafe)

pub bloom_algorithm-IsSafe : {b : Bool} → IsSafe b read_bloom_algorithm
unfolding read_bloom_algorithm
bloom_algorithm-IsSafe =
    read_struct-IsSafe bloom_algorithm_field bloom_algorithm_field-IsSafe none _
      (required-IsSafe "BloomFilterAlgorithm" 1)

bloom_hash_field-IsSafe :
    {b : Bool} (h : FieldHeader) (s : Option BloomFilterHash) → IsSafe b (bloom_hash_field h s)
unfolding bloom_hash_field
bloom_hash_field-IsSafe h s = search (arms, skip_struct-IsSafe)

pub bloom_hash-IsSafe : {b : Bool} → IsSafe b read_bloom_hash
unfolding read_bloom_hash
bloom_hash-IsSafe =
    read_struct-IsSafe bloom_hash_field bloom_hash_field-IsSafe none _
      (required-IsSafe "BloomFilterHash" 1)

bloom_compression_field-IsSafe :
    {b : Bool} (h : FieldHeader) (s : Option BloomFilterCompression)
    → IsSafe b (bloom_compression_field h s)
unfolding bloom_compression_field
bloom_compression_field-IsSafe h s = search (arms, skip_struct-IsSafe)

pub bloom_compression-IsSafe : {b : Bool} → IsSafe b read_bloom_compression
unfolding read_bloom_compression
bloom_compression-IsSafe =
    read_struct-IsSafe bloom_compression_field bloom_compression_field-IsSafe none _
      (required-IsSafe "BloomFilterCompression" 1)

bloom_filter_header_field-IsSafe :
    {b : Bool} (h : FieldHeader) (s : BloomFilterHeaderFields)
    → IsSafe b (bloom_filter_header_field h s)
unfolding bloom_filter_header_field
bloom_filter_header_field-IsSafe h s =
    search (arms, bloom_algorithm-IsSafe, bloom_hash-IsSafe, bloom_compression-IsSafe) depth 9

bloom_filter_header_of-IsSafe :
    {b : Bool} (s : BloomFilterHeaderFields) → IsSafe b (bloom_filter_header_of s)
unfolding bloom_filter_header_of
bloom_filter_header_of-IsSafe s = search arms depth 7

pub bloom_filter_header-IsSafe : {b : Bool} → IsSafe b read_bloom_filter_header
unfolding read_bloom_filter_header
bloom_filter_header-IsSafe =
    read_struct-IsSafe bloom_filter_header_field bloom_filter_header_field-IsSafe
      no_bloom_filter_header _ bloom_filter_header_of-IsSafe
