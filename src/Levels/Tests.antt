-- ===== src/Levels/Tests.antt =====
-- Page bodies at concrete inputs: an optional column of three rows, the second of them null.
use ematix_parquet.Base.{
  ℕ, ◌-◌, ◌^◌, ◌≤◌, ◌<◌, ◌≡◌, refl, ap, arith, List, [], ◌∷◌, ◌++◌, length, drop, ok,
}
use ematix_parquet.Rle.{encode_rle_bit_packed}
use ematix_parquet.Rle.Tests.{encode_levels, encode_no_levels}
use ematix_parquet.Levels.{bit_width_for, parse_v1_data_page_body, skip_v1_level_prefixes}
use ematix_parquet.Levels.Width.{bit_width_for_lem}
use ematix_parquet.Levels.Body.{skip-parse}
use ematix_parquet.Levels.RoundTrip.{level_stream, IsLevels, parse_v1_data_page_body-streams}

abbrev rep_levels : List ℕ
rep_levels = 0 ∷ 0 ∷ 0 ∷ []

abbrev def_levels : List ℕ
def_levels = 1 ∷ 0 ∷ 1 ∷ []

abbrev values : List ℕ
values = 42 ∷ 43 ∷ []

rep_stream_is_small : length (encode_rle_bit_packed rep_levels (bit_width_for 0)) < 2 ^ 32
unfolding bit_width_for
rep_stream_is_small = omega (arith, ap length encode_no_levels)

def_stream_is_small : length (encode_rle_bit_packed def_levels (bit_width_for 1)) < 2 ^ 32
unfolding bit_width_for
def_stream_is_small = omega (arith, ap length encode_levels)

rep-IsLevels : IsLevels 0 rep_levels
rep-IsLevels = record {
  short = omega arith;
  few = omega arith;
  small = rep_stream_is_small;
  bounded = ground arith;
}

def-IsLevels : IsLevels 1 def_levels
def-IsLevels = record {
  short = omega arith;
  few = omega arith;
  small = def_stream_is_small;
  bounded = ground arith;
}

abbrev body : List ℕ
body = level_stream 0 rep_levels ++ (level_stream 1 def_levels ++ values)

parse_v1_data_page_body-streams_example :
    parse_v1_data_page_body body 0 1 3 ≡ ok (rep_levels, def_levels, values)
parse_v1_data_page_body-streams_example =
    parse_v1_data_page_body-streams 0 1 rep_levels def_levels values rep-IsLevels def-IsLevels refl

body_parses : parse_v1_data_page_body body 0 1 3 ≡ ok (rep_levels, def_levels, values)
body_parses =
    parse_v1_data_page_body-streams 0 1 rep_levels def_levels values rep-IsLevels def-IsLevels refl

skip-parse_example :
    (off : ℕ) × (skip_v1_level_prefixes body 0 1 ≡ ok off)
    × (values ≡ drop off body)
    × (off ≤ length body)
    × (length rep_levels ≡ 3)
    × (length def_levels ≡ 3)
skip-parse_example = skip-parse body 0 1 3 rep_levels def_levels values body_parses

bit_width_for_lem_example :
    (5 < 2 ^ bit_width_for 5) × (bit_width_for 5 ≤ 16) × (0 < 5 → 2 ^ (bit_width_for 5 - 1) ≤ 5)
bit_width_for_lem_example = bit_width_for_lem 5 (omega arith)
