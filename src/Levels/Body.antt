-- ===== src/Levels/Body.antt =====
-- The front of a v1 page body in levels.rs: `skip_v1_level_prefixes` beside
-- `parse_v1_data_page_body`.
use ematix_parquet.Base.{
  ℕ, ◌+◌, ◌%◌, ◌^◌, ◌≤◌, ◌≡◌, refl, ap, subst, ◌∙◌, arith, ltb, ◌==◌, Bool-cases, false, inl, inr,
  List, length, take, drop, map, length-drop, length-replicate, length-map, Result, ok, err, ◌>>=◌,
}
use ematix_parquet.Base.LeBytes.{le_value}
use ematix_parquet.Codec.{over_capacity, CodecError}
use ematix_parquet.Rle.Total.{IsComplete, decode-IsComplete}
use ematix_parquet.Levels.{
  bit_width_for, decode_levels, parse_v1_data_page_body, skip_stream, skip_v1_level_prefixes,
}

-- What is known of a body behind `off` whose levels were decoded.
abbrev Skips : List ℕ → ℕ → ℕ → ℕ → Result CodecError (List ℕ × ℕ) → Type 0
Skips body off bw n (ok (levels, used)) =
    (skip_stream body off bw ≡ ok (off + used)) × (length levels ≡ n) × (off + used ≤ length body)
Skips body off bw n (err e) = Unit {0}

decoded-Skips :
    (body : List ℕ) (off bw n used : ℕ) (r : Result CodecError (List ℕ))
    → IsComplete n r
    → skip_stream body off bw ≡ ok (off + used)
    → off + used ≤ length body
    → Skips body off bw n (r >>= λ values. ok (map (λ v. v % 2 ^ 16) values, used))
decoded-Skips body off bw n used (ok values) whole skips fits =
    (skips, length-map values (λ v. v % 2 ^ 16) ∙ whole, fits)
decoded-Skips body off bw n used (err e) whole skips fits = tt

skip_whole :
    (body : List ℕ) (off bw : ℕ)
    → bw == 0 ≡ false
    → off + (4 + le_value (take 4 (drop off body))) ≤ length body
    → skip_stream body off bw ≡ ok (off + (4 + le_value (take 4 (drop off body))))
unfolding skip_stream
skip_whole body off bw some h =
    let len : ℕ = le_value (take 4 (drop off body)) in
    let prefix : ltb (length body) (off + 4) ≡ false = ground arith in
    let stream : ltb (length body) (off + 4 + len) ≡ false = ground arith in
    rw (some, prefix, stream) (ap ok (let e : off + 4 + len ≡ off + (4 + len) = omega arith in e))

decode_levels-Skips :
    (body : List ℕ) (off bw n : ℕ)
    → off ≤ length body
    → Skips body off bw n (decode_levels (drop off body) bw n)
unfolding decode_levels skip_stream
decode_levels-Skips body off bw n h =
    let len : ℕ = le_value (take 4 (drop off body)) in
    elim (Bool-cases (bw == 0)) [
      | inl none ↦ elim (Bool-cases (over_capacity n 2)) [
        | inl large ↦ rw (none, large) tt
        | inr fits ↦
            rw (none, fits, none)
              (ap ok (let e : off ≡ off + 0 = omega arith in e), length-replicate n 0, omega arith)
      ]
      | inr some ↦ elim (Bool-cases (ltb (length (drop off body)) 4)) [
        | inl short ↦ rw (some, short) tt
        | inr long ↦ elim (Bool-cases (ltb (length (drop off body)) (4 + len))) [
          | inl cut ↦ rw (some, long, cut) tt
          | inr full ↦
              rw (some, long, full)
                (decoded-Skips body off bw n (4 + len) _
                  (decode-IsComplete (take len (drop 4 (drop off body))) bw n)
                  (skip_whole body off bw some (ground (arith, length-drop off body)))
                  (ground (arith, length-drop off body)))
        ]
      ]
    ]

-- What is left of the body when a first stream was read, and then a second.
abbrev Parses : List ℕ → ℕ → ℕ → ℕ → Result CodecError (List ℕ × List ℕ × List ℕ) → Type 0
Parses body r d n (ok (rep, def, values)) =
    (off : ℕ) × (skip_v1_level_prefixes body r d ≡ ok off)
    × (values ≡ drop off body)
    × (off ≤ length body)
    × (length rep ≡ n)
    × (length def ≡ n)
Parses body r d n (err e) = Unit {0}

second-Parses :
    (body : List ℕ) (r d n off : ℕ) (rep : List ℕ) (q : Result CodecError (List ℕ × ℕ))
    → skip_stream body 0 (bit_width_for r) ≡ ok off
    → length rep ≡ n
    → Skips body off (bit_width_for d) n q
    → Parses body r d n (q >>= λ p. ok (rep, p.0, drop (off + p.1) body))
unfolding skip_v1_level_prefixes
second-Parses body r d n off rep (ok (def, used)) skip len (skip', len', fits) =
    (off + used, rw (skip, ◌>>=◌) skip', refl, fits, len, len')
second-Parses body r d n off rep (err e) skip len h = tt

first-Parses :
    (body : List ℕ) (r d n : ℕ) (q : Result CodecError (List ℕ × ℕ))
    → Skips body 0 (bit_width_for r) n q
    → Parses body r d n (
        q >>= λ p. decode_levels (drop p.1 body) (bit_width_for d) n >>= λ p'.
        ok (p.0, p'.0, drop (p.1 + p'.1) body))
first-Parses body r d n (ok (rep, used)) (skip, len, fits) =
    second-Parses body r d n used rep _ (skip ∙ ap ok (let e : 0 + used ≡ used = omega arith in e))
      len (decode_levels-Skips body used (bit_width_for d) n (omega arith))
first-Parses body r d n (err e) h = tt

-- On any body that `parse_v1_data_page_body` parses, `skip_v1_level_prefixes` succeeds, with the
-- offset inside the body at which the parsed values begin, and each kind of level is parsed as many
-- times as values were asked for.
pub skip-parse :
    (body : List ℕ) (max_rep max_def n : ℕ) (rep def values : List ℕ)
    → parse_v1_data_page_body body max_rep max_def n ≡ ok (rep, def, values)
    → (off : ℕ) × (skip_v1_level_prefixes body max_rep max_def ≡ ok off)
      × (values ≡ drop off body)
      × (off ≤ length body)
      × (length rep ≡ n)
      × (length def ≡ n)
unfolding parse_v1_data_page_body
skip-parse body r d n rep def values h = subst (Parses body r d n) h (
    first-Parses body r d n (decode_levels body (bit_width_for r) n)
      (decode_levels-Skips body 0 (bit_width_for r) n (omega arith)))
