-- ===== src/Rle/RoundTrip.antt =====
-- Both encoders of rle.rs against the decoder, on every branch.
use ematix_parquet.Base.{
  ℕ, zero, suc, ◌-◌, ◌*◌, ◌^◌, ◌≤◌, ◌<◌, ◌≡◌, refl, sym, ap, ap₂, ◌∙◌, arith, List, [], ◌∷◌, ◌++◌,
  append_assoc, append-nil, length, take, replicate, All, subst, ◌==◌, ltb, false, length-append,
  ok,
}
use ematix_parquet.Compact.{new_cursor}
use ematix_parquet.Compact.At.{take_prefix}
use ematix_parquet.Codec.{over_capacity}
use ematix_parquet.Rle.{
  decode_rle_bit_packed, encode_rle_bit_packed_single_run, encode_rle_bit_packed, encode_runs,
  flush_last, write_packed_run,
}
use ematix_parquet.Rle.Encode.{write_packed_run-append, padded-IsRun, padded, groups}
use ematix_parquet.Rle.Runs.{Runs, done, decode_runs-Runs}
use ematix_parquet.Rle.Loop.{Encoded, encode_runs-Encoded, Runs-snoc, pending-le}

-- The decoder on the bytes of a sequence of runs.
pub decode-Runs :
    (bw n : ℕ) (bs vs : List ℕ)
    → 0 < bw
    → bw ≤ 64
    → 0 < n
    → n < 2 ^ 57
    → n ≤ length vs
    → Runs bw bs vs
    → decode_rle_bit_packed bs bw n ≡ ok (take n vs)
unfolding decode_rle_bit_packed
decode-Runs bw n bs vs pos width wanted small enough rs =
    let at_start : bs ≡ bs ++ [] = sym (append-nil bs) in
    let (c, e) =
      decode_runs-Runs bw (suc (length bs)) n [] (new_cursor bs) [] rs (omega arith) (omega arith)
        (omega arith) at_start in
    rw
      (
        let p : ltb 64 bw ≡ false = ground arith in p,
        let p : (n == 0) ≡ false = ground arith in p,
        let p : over_capacity n 8 ≡ false = ground arith in p,
        let p : (bw == 0) ≡ false = ground arith in p,
        e,
      )
      refl

-- Values of no bits are zeros.
zeros_of_width_zero : (vs : List ℕ) → All (λ v. v < 2 ^ 0) vs → replicate (length vs) 0 ≡ vs
zeros_of_width_zero [] h = refl
zeros_of_width_zero (v ∷ vs) (hv, hvs) =
    ap₂ ◌∷◌ (let e : 0 ≡ v = omega arith in e) (zeros_of_width_zero vs hvs)

decode_none : (bs : List ℕ) (bw : ℕ) → bw ≤ 64 → decode_rle_bit_packed bs bw 0 ≡ ok []
unfolding decode_rle_bit_packed
decode_none bs bw width = rw (let p : ltb 64 bw ≡ false = ground arith in p)

decode_width_zero :
    (bs vs : List ℕ)
    → length vs < 2 ^ 57
    → All (λ v. v < 2 ^ 0) vs
    → decode_rle_bit_packed bs 0 (length vs) ≡ ok vs
unfolding decode_rle_bit_packed
decode_width_zero bs [] small h = refl
decode_width_zero bs (v ∷ vs) small h =
    rw
      (
        let p : (length (v ∷ vs) == 0) ≡ false = ground arith in p,
        let p : over_capacity (length (v ∷ vs)) 8 ≡ false = ground arith in p,
      )
      (ap ok (zeros_of_width_zero (v ∷ vs) h))

-- A single padded run.
last_run :
    (bw : ℕ) (out ds vs : List ℕ)
    → bw ≤ 32
    → length vs < 2 ^ 58
    → All (λ v. v < 2 ^ bw) vs
    → Runs bw out ds
    → Runs bw (flush_last out vs bw) ((ds ++ vs) ++ replicate (groups vs * 8 - length vs) 0)
unfolding flush_last
last_run bw out ds [] width small hv rs = rw (append-nil ds, append-nil ds) rs
last_run bw out ds (x ∷ xs) width small hv rs =
    rw
      (
        let p : (length (x ∷ xs) == 0) ≡ false = ground arith in p,
        write_packed_run-append out (x ∷ xs) bw (omega arith),
        append_assoc ds (x ∷ xs) _,
      )
      (Runs-snoc _ (padded (x ∷ xs)) rs (padded-IsRun bw (x ∷ xs) width small hv))

last_run_alone :
    (bw v : ℕ) (vs : List ℕ)
    → bw ≤ 32
    → length (v ∷ vs) < 2 ^ 58
    → All (λ x. x < 2 ^ bw) (v ∷ vs)
    → Runs bw (write_packed_run [] (v ∷ vs) bw) (padded (v ∷ vs))
last_run_alone bw v vs width small hv =
    rw (write_packed_run-append [] (v ∷ vs) bw (omega arith))
      (Runs-snoc _ (padded (v ∷ vs)) done (padded-IsRun bw (v ∷ vs) width small hv))

-- A stream whose runs hold the values, and perhaps some more.
decode_front :
    (bw : ℕ) (bs vs more : List ℕ)
    → 0 < bw
    → bw ≤ 64
    → 0 < length vs
    → length vs < 2 ^ 57
    → Runs bw bs (vs ++ more)
    → decode_rle_bit_packed bs bw (length vs) ≡ ok vs
decode_front bw bs vs more pos width some small rs =
    decode-Runs bw (length vs) bs (vs ++ more) pos width some small
      (omega (arith, length-append vs more)) rs
    ∙ ap ok (take_prefix vs more)

-- After the loop: the last flush makes the stream complete.
decode_flushed :
    (bw : ℕ) (all : List ℕ) (state : List ℕ × List ℕ)
    → 0 < bw
    → bw ≤ 32
    → 0 < length all
    → length all < 2 ^ 57
    → Encoded bw all state
    → decode_rle_bit_packed (flush_last state.1 state.0 bw) bw (length all) ≡ ok all
decode_flushed bw all (pending, out) pos width some small e =
    let zeros : List ℕ = replicate (groups pending * 8 - length pending) 0 in
    let rs : Runs bw (flush_last out pending bw) ((e.values ++ pending) ++ zeros) =
      last_run bw out e.values pending width (omega (arith, pending-le e)) e.fits e.runs in
    decode_front bw (flush_last out pending bw) all zeros pos (omega arith) some small
      (subst (λ t. Runs bw (flush_last out pending bw) (t ++ zeros)) e.whole rs)

-- For every width up to 32 and every list of fewer than 2^57 values below 2^width, the decoder
-- asked for as many values as the list has returns the list from what the coalescing encoder puts
-- out.
pub encode_runs_round_trip :
    (bw : ℕ) (indices : List ℕ)
    → bw ≤ 32
    → length indices < 2 ^ 57
    → All (λ v. v < 2 ^ bw) indices
    → decode_rle_bit_packed (encode_rle_bit_packed indices bw) bw (length indices) ≡ ok indices
unfolding encode_rle_bit_packed
encode_runs_round_trip bw [] width small hv = decode_none _ bw (omega arith)
encode_runs_round_trip zero (v ∷ vs) width small hv = decode_width_zero _ (v ∷ vs) small hv
encode_runs_round_trip (suc k) (v ∷ vs) width small hv =
    let e : Encoded (suc k) (v ∷ vs) (encode_runs (length (v ∷ vs)) (suc k) (v ∷ vs) ([], [])) =
      encode_runs-Encoded (length (v ∷ vs)) (suc k) [] (v ∷ vs) ([], []) width hv (omega arith)
        (omega arith) (record { values = []; runs = done; whole = refl; fits = tt }) in
    rw
      (
        let p : (length (v ∷ vs) == 0) ≡ false = ground arith in p,
        let p : (suc k == 0) ≡ false = ground arith in p,
        let p : ltb 32 (suc k) ≡ false = ground arith in p,
      )
      (decode_flushed (suc k) (v ∷ vs) _ (omega arith) width (omega arith) small e)

-- For every width up to 32 and every list of fewer than 2^57 values below 2^width, the decoder
-- asked for as many values as the list has returns the list from what the single-run encoder puts
-- out.
pub single_run_round_trip :
    (bw : ℕ) (indices : List ℕ)
    → bw ≤ 32
    → length indices < 2 ^ 57
    → All (λ v. v < 2 ^ bw) indices
    → decode_rle_bit_packed (encode_rle_bit_packed_single_run indices bw) bw (length indices)
      ≡ ok indices
unfolding encode_rle_bit_packed_single_run
single_run_round_trip bw [] width small hv = decode_none _ bw (omega arith)
single_run_round_trip zero (v ∷ vs) width small hv = decode_width_zero _ (v ∷ vs) small hv
single_run_round_trip (suc k) (v ∷ vs) width small hv =
    rw
      (
        let p : (length (v ∷ vs) == 0) ≡ false = ground arith in p,
        let p : (suc k == 0) ≡ false = ground arith in p,
        let p : ltb 32 (suc k) ≡ false = ground arith in p,
      )
      (decode_front (suc k) _ (v ∷ vs) _ (omega arith) (omega arith) (omega arith) small
        (last_run_alone (suc k) v vs width (omega arith) hv))
