-- ===== src/Levels/RoundTrip.antt =====
-- `parse_v1_data_page_body` of levels.rs on bodies put together from encoded levels and values.
use ematix_parquet.Base.{
  ℕ, suc, ◌+◌, ◌%◌, ◌^◌, ◌≤◌, ◌<◌, ◌≡◌, refl, subst, sym, ap, ap₂, ◌∙◌, arith, ltb, ◌==◌,
  Bool-cases, inl, inr, true, false, List, [], ◌∷◌, ◌++◌, length, length-append, take, drop,
  replicate, map, All, if◌then◌else◌, ok, ◌>>=◌,
}
use ematix_parquet.Base.LeBytes.{le_value, le_bytes, le_value-le_bytes}
use ematix_parquet.Codec.{over_capacity}
use ematix_parquet.Compact.At.{take_prefix, drop_prefix, drop-add}
use ematix_parquet.Rle.{encode_rle_bit_packed, decode_rle_bit_packed}
use ematix_parquet.Rle.RoundTrip.{encode_runs_round_trip}
use ematix_parquet.Levels.{bit_width_for, decode_levels, parse_v1_data_page_body}
use ematix_parquet.Levels.Width.{bit_width_for_lem}

-- The page format: no bytes for levels that are all zero, and else the encoded levels behind their
-- length.
abbrev pub level_stream : ℕ → List ℕ → List ℕ
level_stream max_level levels =
    let stream = encode_rle_bit_packed levels (bit_width_for max_level) in
    if bit_width_for max_level == 0 then [] else le_bytes 4 (length stream) ++ stream

-- Levels up to the maximum, whose stream has a length of 32 bits.
pub record IsLevels (max_level : ℕ) (levels : List ℕ) : Type 0 where
  pub short : max_level < 2 ^ 16
  pub few : length levels < 2 ^ 57
  pub small : length (encode_rle_bit_packed levels (bit_width_for max_level)) < 2 ^ 32
  pub bounded : All (λ v. v ≤ max_level) levels

All-zero : (levels : List ℕ) → All (λ v. v ≤ 0) levels → levels ≡ replicate (length levels) 0
All-zero [] h = refl
All-zero (v ∷ vs) (hv, hvs) = ap₂ (◌∷◌) (let e : v ≡ 0 = omega arith in e) (All-zero vs hvs)

All-fit : (m k : ℕ) (levels : List ℕ) → m < k → All (λ v. v ≤ m) levels → All (λ v. v < k) levels
All-fit m k [] h hs = tt
All-fit m k (v ∷ vs) h (hv, hvs) = (omega arith, All-fit m k vs h hvs)

map_mod :
    (levels : List ℕ) (m : ℕ)
    → m < 2 ^ 16
    → All (λ v. v ≤ m) levels
    → map (λ v. v % 2 ^ 16) levels ≡ levels
map_mod [] m h hs = refl
map_mod (v ∷ vs) m h (hv, hvs) =
    ap₂ (◌∷◌) (let e : v % 2 ^ 16 ≡ v = omega arith in e) (map_mod vs m h hvs)

decode_levels_read :
    (body stream rest values : List ℕ) (bw n : ℕ)
    → bw == 0 ≡ false
    → le_value (take 4 body) ≡ length stream
    → drop 4 body ≡ stream ++ rest
    → length body ≡ 4 + (length stream + length rest)
    → decode_rle_bit_packed stream bw n ≡ ok values
    → decode_levels body bw n ≡ ok (map (λ v. v % 2 ^ 16) values, 4 + length stream)
unfolding decode_levels
decode_levels_read body stream rest values bw n some prefix behind size decoded =
    let long : ltb (length body) 4 ≡ false = ground arith in
    let whole : ltb (length body) (4 + length stream) ≡ false = ground arith in
    rw (some, long, prefix, whole, behind, take_prefix stream rest, decoded) refl

no_stream :
    (m : ℕ) (levels rest : List ℕ)
    → bit_width_for m == 0 ≡ true
    → IsLevels m levels
    → decode_levels rest (bit_width_for m) (length levels) ≡ ok (levels, 0)
unfolding decode_levels
no_stream m levels rest none h =
    let (enough, narrow, _) = bit_width_for_lem m h.short in
    let zero_width : bit_width_for m ≡ 0 = ground arith in
    let flat : m ≡ 0 = omega (arith, ap (λ (t : ℕ). 2 ^ t) zero_width) in
    let fits : over_capacity (length levels) 2 ≡ false = ground (arith, h.few) in
    rw (none, fits)
      (ap (λ vs. ok (vs, 0))
        (sym (All-zero levels (subst (λ (t : ℕ). All (λ v. v ≤ t) levels) flat h.bounded))))

decode_levels_stream :
    (m : ℕ) (levels rest : List ℕ)
    → IsLevels m levels
    → decode_levels (level_stream m levels ++ rest) (bit_width_for m) (length levels)
      ≡ ok (levels, length (level_stream m levels))
decode_levels_stream m levels rest h =
    let (enough, narrow, _) = bit_width_for_lem m h.short in
    elim (Bool-cases (bit_width_for m == 0)) [
      | inl none ↦ rw none (no_stream m levels rest none h)
      | inr some ↦
          let stream : List ℕ = encode_rle_bit_packed levels (bit_width_for m) in
          rw some (
            decode_levels_read ((le_bytes 4 (length stream) ++ stream) ++ rest) stream rest levels
              (bit_width_for m) (length levels) some (le_value-le_bytes 4 (length stream) h.small)
              refl (omega (arith, length-append stream rest))
              (encode_runs_round_trip (bit_width_for m) levels (omega arith) h.few
                (All-fit m (2 ^ bit_width_for m) levels enough h.bounded))
            ∙ ap₂ (λ vs (t : ℕ). ok (vs, t)) (map_mod levels m h.short h.bounded)
                (let e : 4 + length stream ≡ suc (suc (suc (suc (length stream)))) = omega arith in
                  e))
    ]

-- A v1 page body put together from a stream of each kind of level and the bytes of the values, with
-- as many definition levels as repetition levels, is parsed into these levels and values; a stream
-- is nothing when the maximum level is 0, and else the encoder's bytes behind their length in four
-- bytes; the maxima are u16, no level is above its maximum, and there are fewer than 2^57 levels,
-- encoded in fewer than 2^32 bytes.
pub parse_v1_data_page_body-streams :
    (max_rep max_def : ℕ) (rep def values : List ℕ)
    → IsLevels max_rep rep
    → IsLevels max_def def
    → length def ≡ length rep
    → parse_v1_data_page_body
        (level_stream max_rep rep ++ (level_stream max_def def ++ values))
        max_rep
        max_def
        (length rep)
      ≡ ok (rep, def, values)
unfolding parse_v1_data_page_body
parse_v1_data_page_body-streams r d rep def values hr hd same =
    let front : List ℕ = level_stream r rep in
    let mid : List ℕ = level_stream d def in
    rw
      (
        decode_levels_stream r rep (mid ++ values) hr,
        ◌>>=◌,
        drop_prefix front (mid ++ values),
        ← same,
        decode_levels_stream d def values hd,
        ◌>>=◌,
        drop-add (length front) (length mid) (front ++ (mid ++ values)),
        drop_prefix front (mid ++ values),
        drop_prefix mid values,
      )
      refl
