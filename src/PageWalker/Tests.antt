-- ===== src/PageWalker/Tests.antt =====
-- A walk over two pages of one column chunk, and one over bytes that are no pages.
use ematix_parquet.Base.{
  ℕ, suc, ◌≡◌, refl, arith, some, none, List, [], ◌∷◌, ◌++◌, length, ok, false,
}
use ematix_parquet.Types.{PageType, Encoding}
use ematix_parquet.Compact.{new_cursor}
use ematix_parquet.Metadata.Page.{PageHeader}
use ematix_parquet.MetadataWriter.Page.Valid.{IsPageHeader}
use ematix_parquet.PageWalker.{PageWalker, Page, with_byte_limit, next_page, walk}
use ematix_parquet.PageWalker.Walk.{Ends, Step, chunk_of, walk-chunk_of, walk-Ends, next_page-Step}

abbrev dictionary : PageHeader
dictionary = record {
  page_type = PageType.dictionary_page;
  uncompressed_page_size = 9;
  compressed_page_size = 3;
  crc = none;
  data_page_header = none;
  index_page_header = none;
  dictionary_page_header =
      some (record { num_values = 2; encoding = Encoding.plain; is_sorted = some false });
  data_page_header_v2 = none;
}

-- A page without a body.
abbrev index_header : PageHeader
index_header = record {
  page_type = PageType.index_page;
  uncompressed_page_size = 0;
  compressed_page_size = 0;
  crc = none;
  data_page_header = none;
  index_page_header = some tt;
  dictionary_page_header = none;
  data_page_header_v2 = none;
}

dictionary-IsPageHeader : IsPageHeader dictionary
dictionary-IsPageHeader = record {
  uncompressed_page_size = omega arith;
  compressed_page_size = omega arith;
  crc = tt;
  data_page_header = tt;
  dictionary_page_header = record { num_values = omega arith };
  data_page_header_v2 = tt;
}

index_header-IsPageHeader : IsPageHeader index_header
index_header-IsPageHeader = record {
  uncompressed_page_size = omega arith;
  compressed_page_size = omega arith;
  crc = tt;
  data_page_header = tt;
  dictionary_page_header = tt;
  data_page_header_v2 = tt;
}

abbrev pages : List Page
pages = (dictionary, 7 ∷ 8 ∷ 9 ∷ []) ∷ (index_header, []) ∷ []

abbrev after : List ℕ
after = 0x15 ∷ 0x00 ∷ []

walk-chunk_of_example :
    (bytes : List ℕ) × (chunk_of pages ≡ some bytes)
    × (walk (suc (length pages)) (with_byte_limit (bytes ++ after) (length bytes)) ≡ ok pages)
walk-chunk_of_example =
    walk-chunk_of pages after
      ((dictionary-IsPageHeader, refl), ((index_header-IsPageHeader, refl), tt))

abbrev no_pages : List ℕ
no_pages = 0x15 ∷ 0x00 ∷ 0xff ∷ []

walk-Ends_example : Ends (walk (suc (length no_pages)) (with_byte_limit no_pages 2))
walk-Ends_example = walk-Ends no_pages 2

abbrev walker : PageWalker
walker = record { cur = new_cursor no_pages; end_offset = 3 }

next_page-Step_example : Step walker (next_page walker)
next_page-Step_example = next_page-Step walker (omega arith)
