-- ===== src/ByteStreamSplit/RoundTrip.antt =====
-- The decoders of byte_stream_split.rs on what the encoders split.
use ematix_parquet.Base.{
  false, ℕ, zero, suc, ◌+◌, ◌*◌, ◌%◌, ◌^◌, ◌≤◌, ◌<◌, ◌≡◌, ◌≢◌, refl, sym, ap, ap₂, ◌∙◌, arith, ◌==◌,
  true, List, [], ◌∷◌, length, length-set, length-replicate, get_or, get_or-set_self, get_or-set_ne,
  set, replicate, All, ok,
}
use ematix_parquet.Base.Bits.{mod_unique}
use ematix_parquet.Base.LeBytes.{le_value, le_bytes, length-le_bytes, le_value-le_bytes}
use ematix_parquet.Codec.{over_capacity}
use ematix_parquet.ByteStreamSplit.{
  value_bytes, join_values, decode_byte_stream_split, split_bytes, split_values,
  encode_byte_stream_split,
}

-- The places of two values have nothing in common.
places_apart : (n b c i j : ℕ) → i < n → j < n → i ≢ j → b * n + i ≢ c * n + j
places_apart n b c i j hi hj apart e = apart (
    sym (mod_unique (b * n + i) b n i (omega arith) hi)
    ∙ ap (λ (t : ℕ). t % n) e
    ∙ mod_unique (c * n + j) c n j (omega arith) hj)

length-split_bytes : (n i b : ℕ) (xs out : List ℕ) → length (split_bytes n i b xs out) ≡ length out
unfolding split_bytes
length-split_bytes n i b [] out = refl
length-split_bytes n i b (x ∷ xs) out =
    length-split_bytes n i (b + 1) xs (set out (b * n + i) x) ∙ length-set out (b * n + i) x

length-split_values :
    (w n i : ℕ) (vs out : List ℕ) → length (split_values w n i vs out) ≡ length out
unfolding split_values
length-split_values w n i [] out = refl
length-split_values w n i (v ∷ vs) out =
    length-split_values w n (i + 1) vs (split_bytes n i 0 (le_bytes w v) out)
    ∙ length-split_bytes n i 0 (le_bytes w v) out

-- Splitting one value leaves the bytes of the others.
other_byte :
    (n i j b c : ℕ) (xs out : List ℕ)
    → i < n
    → j < n
    → i ≢ j
    → get_or (split_bytes n i b xs out) (c * n + j) 0 ≡ get_or out (c * n + j) 0
unfolding split_bytes
other_byte n i j b c [] out hi hj apart = refl
other_byte n i j b c (x ∷ xs) out hi hj apart =
    other_byte n i j (b + 1) c xs (set out (b * n + i) x) hi hj apart
    ∙ get_or-set_ne out (b * n + i) (c * n + j) x 0 (places_apart n b c i j hi hj apart)

other_value :
    (n i j c k : ℕ) (xs out : List ℕ)
    → i < n
    → j < n
    → i ≢ j
    → value_bytes (split_bytes n i 0 xs out) n j c k ≡ value_bytes out n j c k
unfolding value_bytes
other_value n i j c zero xs out hi hj apart = refl
other_value n i j c (suc k) xs out hi hj apart =
    ap₂ (◌∷◌) (other_byte n i j 0 c xs out hi hj apart)
      (other_value n i j (c + 1) k xs out hi hj apart)

-- The places before `b` are not written.
earlier_byte :
    (n i b c : ℕ) (xs out : List ℕ)
    → c * n + i < b * n + i
    → get_or (split_bytes n i b xs out) (c * n + i) 0 ≡ get_or out (c * n + i) 0
unfolding split_bytes
earlier_byte n i b c [] out h = refl
earlier_byte n i b c (x ∷ xs) out h =
    earlier_byte n i (b + 1) c xs (set out (b * n + i) x) (omega arith)
    ∙ get_or-set_ne out (b * n + i) (c * n + i) x 0 (λ e. absurd (omega arith))

own_value :
    (n i b : ℕ) (xs out : List ℕ)
    → i < n
    → b * n + length xs * n ≤ length out
    → value_bytes (split_bytes n i b xs out) n i b (length xs) ≡ xs
unfolding value_bytes split_bytes
own_value n i b [] out hi room = refl
own_value n i b (x ∷ xs) out hi room =
    ap₂ (◌∷◌)
      (earlier_byte n i (b + 1) b xs (set out (b * n + i) x) (omega arith)
        ∙ get_or-set_self out (b * n + i) x 0 (omega arith))
      (own_value n i (b + 1) xs (set out (b * n + i) x) hi
        (omega (arith, length-set out (b * n + i) x)))

-- The values split later leave the earlier ones.
earlier_value :
    (w n i j k : ℕ) (vs out : List ℕ)
    → j < i
    → i + length vs ≤ n
    → value_bytes (split_values w n i vs out) n j 0 k ≡ value_bytes out n j 0 k
unfolding split_values
earlier_value w n i j k [] out low len = refl
earlier_value w n i j k (v ∷ vs) out low len =
    earlier_value w n (i + 1) j k vs (split_bytes n i 0 (le_bytes w v) out) (omega arith)
      (omega arith)
    ∙ other_value n i j 0 k (le_bytes w v) out (omega arith) (omega arith)
        (λ e. absurd (omega arith))

joined :
    (w n i : ℕ) (vs out : List ℕ)
    → w * n ≤ length out
    → i + length vs ≤ n
    → All (λ v. v < 2 ^ (8 * w)) vs
    → join_values w (split_values w n i vs out) n i (length vs) ≡ vs
unfolding join_values split_values
joined w n i [] out room len h = refl
joined w n i (v ∷ vs) out room len (hv, hvs) =
    let own : List ℕ = split_bytes n i 0 (le_bytes w v) out in
    let bytes : value_bytes own n i 0 w ≡ le_bytes w v =
      ap (value_bytes own n i 0) (sym (length-le_bytes w v))
      ∙ own_value n i 0 (le_bytes w v) out (omega arith)
          (omega (arith, ap (λ (t : ℕ). t * n) (length-le_bytes w v))) in
    ap₂ (◌∷◌)
      (ap le_value (earlier_value w n (i + 1) i w vs own (omega arith) (omega arith) ∙ bytes)
        ∙ le_value-le_bytes w v hv)
      (joined w n (i + 1) vs own (omega (arith, length-split_bytes n i 0 (le_bytes w v) out))
        (omega arith) hvs)

-- For every width in bytes and every list of bit patterns of that width whose bytes number fewer
-- than 2^63, as those of every slice do, the decoder asked for as many values as the list has
-- returns the list from the split bytes.
pub decode_byte_stream_split-encode :
    (width : ℕ) (values : List ℕ)
    → length values * width < 2 ^ 63
    → All (λ v. v < 2 ^ (8 * width)) values
    → decode_byte_stream_split width (encode_byte_stream_split width values) (length values)
      ≡ ok values
unfolding decode_byte_stream_split encode_byte_stream_split
decode_byte_stream_split-encode w values small h =
    let n : ℕ = length values in
    let zeros : List ℕ = replicate (n * w) 0 in
    let out : List ℕ = split_values w n 0 values zeros in
    let room : length zeros ≡ n * w = length-replicate (n * w) 0 in
    let size : length out == n * w % 2 ^ 64 ≡ true =
      ground (arith, length-split_values w n 0 values zeros) in
    let fits : over_capacity n w ≡ false = ground (arith, small) in
    rw (size, fits) (ap ok (joined w n 0 values zeros (omega arith) (omega arith) h))
