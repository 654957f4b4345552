-- ===== src/Rle/Loop.antt =====
-- The coalescing encoder's loop: after each turn the bytes written and the pending values hold the
-- values so far.
use native.Mathlib.Nat.{zero-add, suc-add, mul-le-mul}
use ematix_parquet.Base.{
  ℕ, zero, suc, ◌+◌, ◌-◌, ◌*◌, ◌/◌, ◌^◌, ◌≤◌, ◌<◌, ◌≡◌, refl, sym, ap, ap₂, ◌∙◌, arith, List, [],
  ◌∷◌, ◌++◌, append_assoc, append-nil, length, drop, replicate, All, subst, ◌==◌, leb, false,
  Bool-cases, inl, inr, length-append, length-replicate, ==_iff,
}
use ematix_parquet.Rle.{
  encode_runs, emit_run, borrow_for, flush_aligned, repeats, rle_threshold, write_rle_run,
}
use ematix_parquet.Rle.Encode.{write_rle_run-append, rle-IsRun, All-append, All-replicate}
use ematix_parquet.Rle.PackedRun.{packed_run-append, packed-IsRun}
use ematix_parquet.Rle.Runs.{IsRun, Runs, done, run}

-- A run behind a sequence of runs.
pub Runs-snoc :
    {bw : ℕ} {bs vs : List ℕ} (b v : List ℕ)
    → Runs bw bs vs
    → IsRun bw b v
    → Runs bw (bs ++ b) (vs ++ v)
Runs-snoc b v done r = run r done (sym (append-nil b)) (sym (append-nil v))
Runs-snoc b v (run {b = b'} {v = v'} {bs = bs'} {vs = vs'} r' rs eb ev) r =
    run r' (Runs-snoc b v rs r) (ap (λ t. t ++ b) eb ∙ append_assoc b' bs' b)
      (ap (λ t. t ++ v) ev ∙ append_assoc v' vs' v)

flush_aligned-Runs :
    (bw g : ℕ) (out ds vs : List ℕ)
    → bw ≤ 32
    → length vs ≡ 8 * g
    → length vs < 2 ^ 58
    → All (λ v. v < 2 ^ bw) vs
    → Runs bw out ds
    → Runs bw (flush_aligned out vs bw) (ds ++ vs)
unfolding flush_aligned
flush_aligned-Runs bw g out ds [] width size small hv rs = rw (append-nil ds) rs
flush_aligned-Runs bw g out ds (x ∷ xs) width size small hv rs =
    let e : length (x ∷ xs) / 8 ≡ g = omega arith in
    rw
      (
        let p : (length (x ∷ xs) == 0) ≡ false = ground arith in p,
        e,
        packed_run-append out (x ∷ xs) g bw (omega arith),
      )
      (Runs-snoc _ (x ∷ xs) rs (
        packed-IsRun bw g (x ∷ xs) (omega arith) size
          (omega
            (arith, mul-le-mul {n₁ = 8 * g} {m₁ = bw} {n₂ = 2 ^ 58} {m₂ = 32} (omega arith) width))
          (omega arith) hv))

-- What the encoder has done with the values `all`: those of the runs written, then the pending.
pub record Encoded (bw : ℕ) (all : List ℕ) (state : List ℕ × List ℕ) : Type 0 where
  pub values : List ℕ
  pub runs : Runs bw state.1 values
  pub whole : values ++ state.0 ≡ all
  pub fits : All (λ v. v < 2 ^ bw) state.0

replicate-add : (m n v : ℕ) → replicate m v ++ replicate n v ≡ replicate (m + n) v
replicate-add zero n v = ap (λ k. replicate k v) (sym (zero-add n))
replicate-add (suc m) n v =
    ap (◌∷◌ v) (replicate-add m n v) ∙ ap (λ k. replicate k v) (sym (suc-add m n))

-- The borrowed values fill the last group of eight.
borrow_aligns : (n : ℕ) → n + borrow_for n ≡ 8 * ((n + borrow_for n) / 8)
unfolding borrow_for
borrow_aligns n = ground arith

borrow_for-lt : (n : ℕ) → borrow_for n < 8
unfolding borrow_for
borrow_for-lt n = ground arith

pub pending-le :
    {bw : ℕ} {all : List ℕ} {state : List ℕ × List ℕ}
    → Encoded bw all state
    → length state.0 ≤ length all
pending-le {state = state} e = omega (arith, ap length e.whole, length-append e.values state.0)

-- The turn that writes the pending values, with those borrowed, and then an RLE run.
rle_turn :
    (bw v run_len : ℕ) (all pending out : List ℕ)
    → bw ≤ 32
    → v < 2 ^ bw
    → length all + run_len < 2 ^ 57
    → borrow_for (length pending) ≤ run_len
    → Encoded bw all (pending, out)
    → Encoded bw (all ++ replicate run_len v) (
      [],
      write_rle_run
          (flush_aligned out (pending ++ replicate (borrow_for (length pending)) v) bw)
          (run_len - borrow_for (length pending))
          v
          bw,
    )
rle_turn bw v run_len all pending out width hv small room e =
    let k : ℕ = borrow_for (length pending) in
    let full : List ℕ = pending ++ replicate k v in
    let size : length full ≡ length pending + k =
      length-append pending (replicate k v) ∙ ap (λ t. length pending + t) (length-replicate k v) in
    let flushed : Runs bw (flush_aligned out full bw) (e.values ++ full) =
      flush_aligned-Runs bw ((length pending + k) / 8) out e.values full width
        (size ∙ borrow_aligns (length pending))
        (omega (arith, size, borrow_for-lt (length pending), pending-le e))
        (All-append _ pending _ e.fits (All-replicate _ k v hv)) e.runs in
    let joined : k + (run_len - k) ≡ run_len = omega arith in
    record {
      values = (e.values ++ full) ++ replicate (run_len - k) v;
      runs =
          rw (write_rle_run-append (flush_aligned out full bw) (run_len - k) v bw (omega arith))
            (Runs-snoc _ _ flushed (rle-IsRun bw (run_len - k) v (omega arith) (omega arith) hv));
      whole =
          append-nil _
          ∙ ap (λ t. t ++ replicate (run_len - k) v)
              (sym (append_assoc e.values pending (replicate k v))
                ∙ ap (λ t. t ++ replicate k v) e.whole)
          ∙ append_assoc all (replicate k v) (replicate (run_len - k) v)
          ∙ ap (λ t. all ++ t) (replicate-add k (run_len - k) v ∙ ap (λ t. replicate t v) joined);
      fits = tt;
    }

-- One turn of the loop keeps that, whichever way the run goes.
emit_run-Encoded :
    (bw v run_len : ℕ) (all pending out : List ℕ)
    → bw ≤ 32
    → v < 2 ^ bw
    → length all + run_len < 2 ^ 57
    → Encoded bw all (pending, out)
    → Encoded bw (all ++ replicate run_len v) (emit_run bw v run_len pending out)
unfolding emit_run
emit_run-Encoded bw v run_len all pending out width hv small e =
    elim (Bool-cases (leb (rle_threshold + borrow_for (length pending)) run_len)) [
      | inl rle ↦ rw rle (rle_turn bw v run_len all pending out width hv small (ground arith) e)
      | inr short ↦ rw short (record {
        values = e.values;
        runs = e.runs;
        whole =
            sym (append_assoc e.values pending (replicate run_len v))
            ∙ ap (λ t. t ++ replicate run_len v) e.whole;
        fits = All-append _ pending _ e.fits (All-replicate _ run_len v hv);
      })
    ]

repeats-split : (v : ℕ) (vs : List ℕ) → replicate (repeats v vs) v ++ drop (repeats v vs) vs ≡ vs
unfolding repeats
repeats-split v [] = refl
repeats-split v (x ∷ vs) = elim (Bool-cases (x == v)) [
  | inl same ↦ rw same (ap₂ ◌∷◌ (sym ((==_iff x v).0 same)) (repeats-split v vs))
  | inr other ↦ rw other
]

All-drop : (P : ℕ → Type 0) (n : ℕ) (xs : List ℕ) → All P xs → All P (drop n xs)
All-drop P zero xs h = h
All-drop P (suc n) [] h = h
All-drop P (suc n) (x ∷ xs) h = All-drop P n xs h.1

pub encode_runs-Encoded :
    (rounds bw : ℕ) (all indices : List ℕ) (state : List ℕ × List ℕ)
    → bw ≤ 32
    → All (λ v. v < 2 ^ bw) indices
    → length indices ≤ rounds
    → length all + length indices < 2 ^ 57
    → Encoded bw all state
    → Encoded bw (all ++ indices) (encode_runs rounds bw indices state)
unfolding encode_runs
encode_runs-Encoded zero bw all [] state width hv hr small e = rw (append-nil all) e
encode_runs-Encoded zero bw all (v ∷ vs) state width hv hr small e = elim hr [ ]
encode_runs-Encoded (suc rounds) bw all [] state width hv hr small e = rw (append-nil all) e
encode_runs-Encoded (suc rounds) bw all (v ∷ vs) (pending, out) width (hv, hvs) hr small e =
    let k : ℕ = repeats v vs in
    let split : replicate k v ++ drop k vs ≡ vs = repeats-split v vs in
    let sizes : k + length (drop k vs) ≡ length vs =
      ap (λ t. t + length (drop k vs)) (sym (length-replicate k v))
      ∙ sym (length-append (replicate k v) (drop k vs))
      ∙ ap length split in
    let all' : List ℕ = all ++ replicate (suc k) v in
    let size' : length all' ≡ length all + suc k =
      length-append all _ ∙ ap (λ t. length all + t) (length-replicate (suc k) v) in
    subst
      (λ t. Encoded bw t (encode_runs rounds bw (drop k vs) (emit_run bw v (suc k) pending out)))
      (append_assoc all (replicate (suc k) v) (drop k vs) ∙ ap (λ t. all ++ (v ∷ t)) split)
      (encode_runs-Encoded rounds bw all' (drop k vs) (emit_run bw v (suc k) pending out) width
        (All-drop _ k vs hvs) (omega (arith, sizes)) (omega (arith, sizes, size'))
        (emit_run-Encoded bw v (suc k) all pending out width hv (omega (arith, sizes)) e))
