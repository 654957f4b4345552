-- ===== src/Types/Tests.antt =====
-- The enumerations at a code that only some of them have.
use ematix_parquet.Base.{◌≡◌, refl, ok}
use ematix_parquet.Types.{
  plain_dictionary, parquet_type_code, parquet_type_from_i32, encoding_code, encoding_from_i32,
  codec_code, codec_from_i32, page_type_code, page_type_from_i32, repetition_type_code,
  repetition_type_from_i32, boundary_order_code, boundary_order_from_i32, algorithm_code,
  algorithm_from_i32, converted_type_code, converted_type_from_i32,
}
use ematix_parquet.Types.Members.{Finds, from_i32_lem}

plain_dictionary_2 : encoding_from_i32 2 ≡ ok plain_dictionary
unfolding encoding_from_i32
plain_dictionary_2 = refl

from_i32_lem_example :
    Finds parquet_type_from_i32 parquet_type_code 6
    × Finds encoding_from_i32 encoding_code 6
    × Finds codec_from_i32 codec_code 6
    × Finds page_type_from_i32 page_type_code 6
    × Finds repetition_type_from_i32 repetition_type_code 6
    × Finds boundary_order_from_i32 boundary_order_code 6
    × Finds algorithm_from_i32 algorithm_code 6
    × Finds converted_type_from_i32 converted_type_code 6
from_i32_lem_example = from_i32_lem 6
