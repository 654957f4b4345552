-- ===== src/Rle.antt =====
-- crates/ematix-parquet-codec/src/rle.rs: the RLE / bit-packed hybrid of indices and levels.
-- `usize` has 64 bits. An array is a list of bytes. A read past the end of a run's bytes panics, as
-- in the source; the writers stay inside the zeros that they append, since their callers pad the
-- values to a multiple of eight.
pub mod Window
pub mod PackBits
pub mod Pack
pub mod Runs
pub mod Header
pub mod PackedRun
pub mod Encode
pub mod Loop
pub mod RoundTrip
pub mod Tests
pub mod Total
pub mod Wide
pub mod Width
use mathlib.Core.Option
use mathlib.Core.WellFounded.{Acc}
use ematix_parquet.Base.{
  ℕ, zero, suc, ◌+◌, ◌-◌, ◌*◌, ◌/◌, ◌%◌, ◌^◌, ◌≤◌, ◌<◌, min, bit_and, bit_or, ltb, leb, ◌==◌,
  if◌then◌else◌, Bool, true, false, List, [], ◌∷◌, ◌++◌, length, get_or, set, drop, replicate,
  Option, none, some, Result, ok, err, lt_wf, dec_le, dite, arith,
}
use ematix_parquet.Compact.{Cursor, new_cursor, read_uvarint, take_bytes}
use ematix_parquet.Codec.{
  CodecError, CodecReader, bit_width_out_of_range, out_of_fuel, panicked, over_capacity, ◌>>=◌,
  pure, wire, or_panic,
}

abbrev pub div_ceil : ℕ → ℕ → ℕ
div_ceil a b = (a + b - 1) / b

shrinks : (v : ℕ) → 0x80 ≤ v → v / 2 ^ 7 < v
shrinks v h = omega arith

pub uvarint_loop : List ℕ → (v : ℕ) → Acc ◌<◌ v → List ℕ
uvarint_loop out v (Acc.intro _ smaller) =
    dite (dec_le 0x80 v)
      (λ more.
        uvarint_loop (out ++ bit_or (bit_and (v % 2 ^ 8) 0x7f) 0x80 ∷ []) (v / 2 ^ 7)
          (smaller _ (shrinks v more)))
      (λ _. out ++ v % 2 ^ 8 ∷ [])

pub write_uvarint : List ℕ → ℕ → List ℕ
write_uvarint out v = uvarint_loop out v (lt_wf.apply v)

-- `while remaining > 0`, in rounds; each takes at least one bit, so `remaining` rounds are enough.
pub pack_bits : ℕ → List ℕ → ℕ → ℕ → ℕ → ℕ → List ℕ
pack_bits zero out value byte_ix shift remaining = out
pack_bits (suc rounds) out value byte_ix shift remaining =
    let bits = min (8 - shift) remaining in
    let chunk = bit_and value (2 ^ bits - 1) in
    let joined = bit_or (get_or out byte_ix 0) (chunk * 2 ^ shift % 2 ^ 8) in
    let rest =
      pack_bits rounds (set out byte_ix joined) (value / 2 ^ bits) (byte_ix + 1) 0
        (remaining - bits) in
    if remaining == 0 then out else rest

-- `for (i, &idx) in indices.iter().enumerate()`.
pub pack_each : ℕ → ℕ → ℕ → List ℕ → List ℕ → List ℕ
pack_each bw body_start i [] out = out
pack_each bw body_start i (idx ∷ indices) out =
    let bit_pos = i * bw in
    pack_each bw body_start (i + 1) indices
      (pack_bits bw out idx (body_start + bit_pos / 8) (bit_pos % 8) bw)

pub pack_lsb_first : List ℕ → List ℕ → ℕ → List ℕ
pack_lsb_first out indices bw =
    let body_len = length indices / 8 * bw in
    pack_each bw (length out) 0 indices (out ++ replicate body_len 0)

-- A bit-packed run of the values, padded with zeros to a multiple of eight.
pub write_packed_run : List ℕ → List ℕ → ℕ → List ℕ
write_packed_run out values bw =
    let num_groups = div_ceil (length values) 8 in
    let padded = values ++ replicate (num_groups * 8 - length values) 0 in
    pack_lsb_first (write_uvarint out (bit_or (num_groups * 2 % 2 ^ 64) 1)) padded bw

pub encode_rle_bit_packed_single_run : List ℕ → ℕ → List ℕ
encode_rle_bit_packed_single_run indices bw =
    if length indices == 0
    then []
    else if bw == 0
    then write_uvarint [] (length indices * 2 % 2 ^ 64)
    else if ltb 32 bw
    then []
    else write_packed_run [] indices bw

abbrev pub rle_threshold : ℕ
rle_threshold = 8

-- The `value_bytes` low bytes of the value, lowest first: `(value >> (b * 8)) as u8`.
pub push_value : ℕ → ℕ → ℕ → List ℕ → List ℕ
push_value zero b value out = out
push_value (suc n) b value out =
    push_value n (b + 1) value (out ++ value / 2 ^ (b * 8) % 2 ^ 8 ∷ [])

pub write_rle_run : List ℕ → ℕ → ℕ → ℕ → List ℕ
write_rle_run out run_len value bw =
    push_value (div_ceil bw 8) 0 value (write_uvarint out (run_len * 2 % 2 ^ 64))

-- How many of the values at the front repeat `v`.
pub repeats : ℕ → List ℕ → ℕ
repeats v [] = 0
repeats v (x ∷ xs) = if x == v then suc (repeats v xs) else 0

-- The values that align the pending ones with a group of eight.
pub borrow_for : ℕ → ℕ
borrow_for pending_len = if pending_len % 8 == 0 then 0 else 8 - pending_len % 8

-- `if !pending.is_empty()`: before an RLE run, with the pending values a multiple of eight, and at
-- the end, with padding.
pub flush_aligned : List ℕ → List ℕ → ℕ → List ℕ
flush_aligned out pending bw =
    if length pending == 0
    then out
    else pack_lsb_first (write_uvarint out (bit_or (length pending / 8 * 2 % 2 ^ 64) 1)) pending bw

pub flush_last : List ℕ → List ℕ → ℕ → List ℕ
flush_last out pending bw = if length pending == 0 then out else write_packed_run out pending bw

-- One turn of `while i < indices.len()`: the run of `v` goes out as an RLE run behind the pending
-- values, or joins them.
pub emit_run : ℕ → ℕ → ℕ → List ℕ → List ℕ → List ℕ × List ℕ
emit_run bw v run_len pending out =
    let borrow = borrow_for (length pending) in
    if leb (rle_threshold + borrow) run_len
    then (
      [],
      write_rle_run (flush_aligned out (pending ++ replicate borrow v) bw) (run_len - borrow) v bw,
    )
    else (pending ++ replicate run_len v, out)

-- The loop over the values not yet reached, with the pending values and the output. Each round
-- takes one value at least, so as many rounds as values are enough.
pub encode_runs : ℕ → ℕ → List ℕ → List ℕ × List ℕ → List ℕ × List ℕ
encode_runs zero bw indices state = state
encode_runs (suc rounds) bw [] state = state
encode_runs (suc rounds) bw (v ∷ indices) (pending, out) =
    encode_runs rounds bw (drop (repeats v indices) indices)
      (emit_run bw v (suc (repeats v indices)) pending out)

pub encode_rle_bit_packed : List ℕ → ℕ → List ℕ
encode_rle_bit_packed indices bw =
    if length indices == 0
    then []
    else if bw == 0
    then write_uvarint [] (length indices * 2 % 2 ^ 64)
    else if ltb 32 bw
    then []
    else (let (pending, out) = encode_runs (length indices) bw indices ([], []) in
        flush_last out pending bw)

-- `acc |= (chunk[off + j] as u64) << (j * 8)` for the `n` bytes from `j` on. A shift by 64 or
-- more is taken modulo 64, as in a release build. None is the panic on an index out of bounds.
pub gather : List ℕ → ℕ → ℕ → ℕ → ℕ → Option ℕ
gather chunk off zero j acc = some acc
gather chunk off (suc n) j acc =
    let joined = bit_or acc (get_or chunk (off + j) 0 * 2 ^ (j * 8 % 64) % 2 ^ 64) in
    let rest = gather chunk off n (j + 1) joined in
    if ltb (off + j) (length chunk) then rest else none

abbrev pub value_mask : ℕ → ℕ
value_mask bw = if bw == 64 then 2 ^ 64 - 1 else 2 ^ bw - 1

pub packed_value : List ℕ → ℕ → ℕ → Option ℕ
packed_value chunk bw i =
    let bit_offset = i * bw in
    let bit_in_byte = bit_offset % 8 in
    Option.map (λ acc. bit_and (acc / 2 ^ bit_in_byte) (value_mask bw))
      (gather chunk (bit_offset / 8) (div_ceil (bit_in_byte + bw) 8) 0 0)

-- `for i in 0..to_emit`, from `i` on.
pub packed_values : List ℕ → ℕ → ℕ → ℕ → Option (List ℕ)
packed_values chunk bw i zero = some []
packed_values chunk bw i (suc n) =
    let rest = packed_values chunk bw (i + 1) n in
    elim (packed_value chunk bw i) [ some v ↦ Option.map (λ vs. v ∷ vs) rest | none ↦ none ]

-- One run behind its header; `left` values are still wanted.
pub read_run : ℕ → ℕ → ℕ → CodecReader (List ℕ)
read_run bw left header =
    let count = header / 2 in
    let total = count * 8 % 2 ^ 64 in
    let packed : CodecReader (List ℕ) = do
      chunk ← wire (take_bytes (div_ceil (total * bw % 2 ^ 64) 8))
      or_panic (packed_values chunk bw 0 (min left total))
    in let repeated : CodecReader (List ℕ) = do
      chunk ← wire (take_bytes (div_ceil bw 8))
      or_panic
          (Option.map (λ val. replicate (min left count) val) (gather chunk 0 (div_ceil bw 8) 0 0))
      in if bit_and header 1 == 1 then packed else repeated

-- `while out.len() < num_values`, in rounds.
pub decode_runs : ℕ → ℕ → ℕ → List ℕ → CodecReader (List ℕ)
decode_runs zero bw num_values out =
    if leb num_values (length out) then pure out else (λ c. err out_of_fuel)
decode_runs (suc rounds) bw num_values out =
    let round : CodecReader (List ℕ) = do
      header ← wire read_uvarint
      run ← read_run bw (num_values - length out) header
      decode_runs rounds bw num_values (out ++ run)
    in if leb num_values (length out) then pure out else round

abbrev drop_cursor : Result CodecError (List ℕ × Cursor) → Result CodecError (List ℕ)
drop_cursor (ok (values, c)) = ok values
drop_cursor (err e) = err e

-- Every run takes a byte at least: a round for each, and one for the end of the bytes.
pub decode_rle_bit_packed : List ℕ → ℕ → ℕ → Result CodecError (List ℕ)
decode_rle_bit_packed bytes bw num_values =
    if ltb 64 bw
    then err (bit_width_out_of_range bw)
    else if num_values == 0
    then ok []
    else if over_capacity num_values 8
    then err panicked
    else if bw == 0
    then ok (replicate num_values 0)
    else drop_cursor (decode_runs (suc (length bytes)) bw num_values [] (new_cursor bytes))

-- `32 - ((dict_len as u32) - 1).leading_zeros()`: the number of binary digits of a u32.
pub binary_digits : ℕ → ℕ → ℕ
binary_digits zero n = 0
binary_digits (suc k) n = if n == 0 then 0 else suc (binary_digits k (n / 2))

pub min_bit_width_for_dict : ℕ → ℕ
min_bit_width_for_dict dict_len =
    if leb dict_len 1 then 0 else binary_digits 32 ((dict_len % 2 ^ 32 + 2 ^ 32 - 1) % 2 ^ 32)
