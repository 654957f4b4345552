-- ===== src/Rle/Runs.antt =====
-- Streams of runs: what a run is for the decoder, and that the decoder returns the values of the
-- runs, up to the number that is asked for.
use ematix_parquet.Base.{
  ℕ, zero, suc, ◌+◌, ◌-◌, ◌≤◌, ◌<◌, min, ◌≡◌, refl, sym, ap, ◌∙◌, arith, List, [], ◌∷◌, ◌++◌,
  append_assoc, length, take, leb, true, false, length-append, length-take, ok, dec_le,
}
use ematix_parquet.Compact.{Cursor, advance, read_uvarint}
use ematix_parquet.Compact.At.{At, At-advance, Reads, advance_twice, take_prefix}
use ematix_parquet.Codec.{◌>>=◌}
use ematix_parquet.Codec.At.{CodecReads, wire-Reads}
use ematix_parquet.Rle.{read_run, decode_runs}

-- `bs` is one run of the values `vs`: a header, and bytes that give as many of the values as are
-- still wanted.
pub record IsRun (bw : ℕ) (bs vs : List ℕ) : Type 0 where
  pub header : ℕ
  pub head : List ℕ
  pub body : List ℕ
  pub split : bs ≡ head ++ body
  pub some_head : 1 ≤ length head
  pub reads_header : Reads read_uvarint head header
  pub reads_body : (left : ℕ) → CodecReads (read_run bw left header) body (take left vs)

-- `bs` is a sequence of runs of the values `vs`.
pub data Runs (bw : ℕ) : List ℕ → List ℕ → Type 0 where
  done : Runs bw [] []
  run :
      {b v bs vs bs' vs' : List ℕ}
      → IsRun bw b v
      → Runs bw bs vs
      → bs' ≡ b ++ bs
      → vs' ≡ v ++ vs
      → Runs bw bs' vs'

module _ {A : Type 0} where
  pub take_all : (n : ℕ) (xs : List A) → length xs ≤ n → take n xs ≡ xs
  take_all zero [] h = refl
  take_all zero (x ∷ xs) h = absurd (omega arith)
  take_all (suc n) [] h = refl
  take_all (suc n) (x ∷ xs) h = ap (◌∷◌ x) (take_all n xs (omega arith))

  take_twice : (n : ℕ) (v vs : List A) → take n (take n v ++ vs) ≡ take n (v ++ vs)
  take_twice zero v vs = refl
  take_twice (suc n) [] vs = refl
  take_twice (suc n) (x ∷ v) vs = ap (◌∷◌ x) (take_twice n v vs)

  -- What a round adds does not change the first `n` values of the whole.
  take_round :
      (n : ℕ) (out v vs : List A)
      → length out ≤ n
      → take n ((out ++ take (n - length out) v) ++ vs) ≡ take n (out ++ (v ++ vs))
  take_round n [] v vs h =
      ap (λ k. take n (take k v ++ vs)) (let e : n - 0 ≡ n = omega arith in e) ∙ take_twice n v vs
  take_round zero (x ∷ out) v vs h = absurd (omega arith)
  take_round (suc n) (x ∷ out) v vs h = ap (◌∷◌ x) (
      ap (λ k. take n ((out ++ take k v) ++ vs))
        (let e : suc n - suc (length out) ≡ n - length out = omega arith in e)
      ∙ take_round n out v vs (omega arith))

-- One round of the decoder on a run, while values are wanted.
decode_round :
    (rounds bw n : ℕ) (out b v : List ℕ) (c : Cursor) (rest : List ℕ)
    → length out < n
    → IsRun bw b v
    → At c (b ++ rest)
    → decode_runs (suc rounds) bw n out c
      ≡ decode_runs rounds bw n (out ++ take (n - length out) v) (advance (length b) c)
unfolding decode_runs
decode_round rounds bw n out b v c rest wanted r h =
    let more : leb n (length out) ≡ false = ground arith in
    let at_run : At c (r.head ++ (r.body ++ rest)) =
      h ∙ ap (λ t. t ++ rest) r.split ∙ append_assoc r.head r.body rest in
    rw
      (
        more,
        wire-Reads read_uvarint r.head r.header r.reads_header c (r.body ++ rest) at_run,
        ◌>>=◌,
      )
      (rw
        (
          r.reads_body (n - length out) (advance (length r.head) c) rest
              (At-advance c r.head at_run),
          ◌>>=◌,
        )
        (ap (decode_runs rounds bw n (out ++ take (n - length out) v)) (
          advance_twice (length r.head) (length r.body) c
          ∙ ap (λ t. advance t c) (sym (ap length r.split ∙ length-append r.head r.body)))))

-- No value is wanted: the decoder returns what it has, with rounds left or not.
decode_stop :
    (rounds bw n : ℕ) (out : List ℕ) (c : Cursor)
    → n ≤ length out
    → decode_runs rounds bw n out c ≡ ok (out, c)
unfolding decode_runs
decode_stop zero bw n out c h = ground arith
decode_stop (suc rounds) bw n out c h = let e : leb n (length out) ≡ true = ground arith in rw e

run_some : {bw : ℕ} {b v : List ℕ} → IsRun bw b v → 1 ≤ length b
run_some r = omega (arith, ap length r.split, length-append r.head r.body, r.some_head)

enough_values :
    (n : ℕ) (out vs : List ℕ) → length out ≤ n → n ≤ length out → out ≡ take n (out ++ vs)
enough_values n out vs h k =
    let e : n ≡ length out = omega arith in
    sym (ap (λ t. take t (out ++ vs)) e ∙ take_prefix out vs)

-- The decoder on a sequence of runs that has enough values: it returns the first `n` of them,
-- behind those it had, and a round for each byte is enough.
pub decode_runs-Runs :
    (bw rounds n : ℕ) (out : List ℕ) (c : Cursor) {bs vs : List ℕ} (rest : List ℕ)
    → Runs bw bs vs
    → length bs ≤ rounds
    → length out ≤ n
    → n ≤ length out + length vs
    → At c (bs ++ rest)
    → (c' : Cursor) × (decode_runs rounds bw n out c ≡ ok (take n (out ++ vs), c'))
decode_runs-Runs bw rounds n out c rest done hr low enough h = (
  c,
  decode_stop rounds bw n out c (omega arith)
      ∙ ap (λ t. ok (t, c)) (enough_values n out [] low (omega arith)),
)
decode_runs-Runs bw zero n out c rest (run {b} {v} {bs} {vs} r rs eb ev) hr low enough h =
    absurd (omega (arith, run_some r, ap length eb, length-append b bs))
decode_runs-Runs bw (suc rounds) n out c rest (run {b} {v} {bs} {vs} {bs'} {vs'} r rs eb ev) hr low
      enough h =
    elim (dec_le n (length out)) [
      | yes stop ↦ (
        c,
        decode_stop (suc rounds) bw n out c stop
            ∙ ap (λ t. ok (t, c)) (enough_values n out vs' low stop),
      )
      | no wanted ↦
          let at_run : At c (b ++ (bs ++ rest)) =
            h ∙ ap (λ t. t ++ rest) eb ∙ append_assoc b bs rest in
          let out' : List ℕ = out ++ take (n - length out) v in
          let size : length out' ≡ length out + min (n - length out) (length v) =
            length-append out (take (n - length out) v)
            ∙ ap (λ t. length out + t) (length-take (n - length out) v) in
          let total : length vs' ≡ length v + length vs = ap length ev ∙ length-append v vs in
          let (c', e) =
            decode_runs-Runs bw rounds n out' (advance (length b) c) rest rs
              (omega (arith, run_some r, ap length eb, length-append b bs)) (omega (arith, size))
              (omega (arith, size, total)) (At-advance c b at_run) in
          (
            c',
            decode_round rounds bw n out b v c (bs ++ rest) (omega arith) r at_run
                ∙ e
                ∙ ap (λ t. ok (t, c'))
                    (take_round n out v vs low ∙ ap (λ t. take n (out ++ t)) (sym ev)),
          )
    ]
