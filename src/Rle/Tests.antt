-- ===== src/Rle/Tests.antt =====
-- The hybrid encoding at concrete inputs.
use ematix_parquet.Base.{
  ℕ, ◌*◌, ◌^◌, ◌<◌, ◌≤◌, ◌-◌, lt_wf, dec_le, ◌≡◌, refl, arith, List, [], ◌∷◌, ◌++◌, length,
  replicate, All, some, ok, err,
}
use ematix_parquet.Base.LeBytes.{IsBytes, le_value}
use ematix_parquet.CompactWriter
use ematix_parquet.Rle.Width.{min_bit_width_for_dict_lem}
use ematix_parquet.Rle.{
  binary_digits, encode_runs, emit_run, borrow_for, repeats, flush_last, write_packed_run,
  pack_each, pack_bits, uvarint_loop, min_bit_width_for_dict, encode_rle_bit_packed,
  encode_rle_bit_packed_single_run, decode_rle_bit_packed, write_uvarint, packed_value,
  packed_values, pack_lsb_first, gather, read_run, decode_runs,
}
use ematix_parquet.Codec.{panicked}
use ematix_parquet.Compact.{read_uvarint, uvarint_rounds, read_u8, take_bytes}
use ematix_parquet.Rle.RoundTrip.{encode_runs_round_trip, single_run_round_trip}
use ematix_parquet.Rle.Total.{IsComplete, decode-IsComplete}
use ematix_parquet.Rle.Header.{same_write_uvarint}
use ematix_parquet.Rle.Wide.{packed_value-lt}
use ematix_parquet.Rle.Window.{packed_number, packed_values_lem}
use ematix_parquet.Rle.Pack.{pack_lsb_first_lem}

-- Five values, and a run that lends three of its twelve.
abbrev indices : List ℕ
indices = 1 ∷ 2 ∷ 3 ∷ 4 ∷ 5 ∷ 7 ∷ 7 ∷ 7 ∷ 7 ∷ 7 ∷ 7 ∷ 7 ∷ 7 ∷ 7 ∷ 7 ∷ 7 ∷ 7 ∷ []

indices_fit : All (λ v. v < 2 ^ 3) indices
indices_fit = ground arith

encode_runs_round_trip_example :
    decode_rle_bit_packed (encode_rle_bit_packed indices 3) 3 17 ≡ ok indices
encode_runs_round_trip_example =
    encode_runs_round_trip 3 indices (omega arith) (omega arith) indices_fit

single_run_round_trip_example :
    decode_rle_bit_packed (encode_rle_bit_packed_single_run indices 3) 3 17 ≡ ok indices
single_run_round_trip_example =
    single_run_round_trip 3 indices (omega arith) (omega arith) indices_fit

abbrev noise : List ℕ
noise = 0x03 ∷ 0x88 ∷ 0xc6 ∷ 0xfa ∷ 0x06 ∷ []

decode-IsComplete_example : IsComplete 20 (decode_rle_bit_packed noise 3 20)
decode-IsComplete_example = decode-IsComplete noise 3 20

same_write_uvarint_example : write_uvarint noise 300 ≡ CompactWriter.write_uvarint noise 300
same_write_uvarint_example = same_write_uvarint noise 300

ones_read : packed_value (replicate 59 0xff) 59 5 ≡ some (2 ^ 57 - 1)
unfolding packed_value gather
ones_read = refl

packed_value-lt_example : 2 ^ 57 - 1 < 2 ^ 57
packed_value-lt_example = packed_value-lt (replicate 59 0xff) 59 5 (2 ^ 57 - 1) ones_read

-- The size of this run is a product that wraps to 0: no bytes are taken, and the first read panics.
wrapped_run_panics :
    decode_rle_bit_packed (0x81 ∷ 0x80 ∷ 0x80 ∷ 0x80 ∷ 0x80 ∷ 0x80 ∷ 0x80 ∷ 0x80 ∷ 0x20 ∷ []) 2 3
    ≡ err panicked
unfolding decode_rle_bit_packed decode_runs read_run read_uvarint uvarint_rounds read_u8 take_bytes
    packed_values packed_value gather
wrapped_run_panics = refl

-- No allocation holds so many values.
capacity_panics : decode_rle_bit_packed [] 0 (2 ^ 60) ≡ err panicked
unfolding decode_rle_bit_packed
capacity_panics = refl

-- The values 0 to 7 in three bits.
abbrev eight : List ℕ
eight = 0 ∷ 1 ∷ 2 ∷ 3 ∷ 4 ∷ 5 ∷ 6 ∷ 7 ∷ []

eight_fit : All (λ v. v < 2 ^ 3) eight
eight_fit = ground arith

abbrev eight_packed : List ℕ
eight_packed = 0x88 ∷ 0xc6 ∷ 0xfa ∷ []

packed_values_lem_example : packed_values eight_packed 3 0 8 ≡ some eight
packed_values_lem_example =
    packed_values_lem eight_packed 3 eight 0 8 (ground arith) (omega arith) (omega arith) refl
      eight_fit (omega arith)

pack_lsb_first_lem_example :
    (body : List ℕ) × (pack_lsb_first noise eight 3 ≡ noise ++ body)
    × (le_value body ≡ packed_number 3 eight)
    × IsBytes body
    × (length body ≡ 1 * 3)
pack_lsb_first_lem_example = pack_lsb_first_lem noise eight 3 1 refl eight_fit

pub encode_levels : encode_rle_bit_packed (1 ∷ 0 ∷ 1 ∷ []) (binary_digits 32 1) ≡ 0x03 ∷ 0x05 ∷ []
unfolding encode_rle_bit_packed encode_runs emit_run borrow_for repeats flush_last write_packed_run
    write_uvarint uvarint_loop pack_lsb_first pack_each pack_bits binary_digits lt_wf dec_le
encode_levels = refl

pub encode_no_levels : encode_rle_bit_packed (0 ∷ 0 ∷ 0 ∷ []) 0 ≡ 0x06 ∷ []
unfolding encode_rle_bit_packed write_uvarint uvarint_loop lt_wf dec_le
encode_no_levels = refl

min_bit_width_for_dict_lem_example :
    (1000 ≤ 2 ^ min_bit_width_for_dict 1000) × (2 ^ (min_bit_width_for_dict 1000 - 1) < 1000)
min_bit_width_for_dict_lem_example = min_bit_width_for_dict_lem 1000 (omega arith) (omega arith)
