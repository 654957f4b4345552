-- ===== src/Codec/At.antt =====
-- Decoders that consume exactly a known stretch of bytes: `Compact.At` with the codec's errors.
use ematix_parquet.Base.{ℕ, ◌≡◌, refl, Option, some, List, ◌++◌, ok, length}
use ematix_parquet.Compact.{Cursor, Reader, advance}
use ematix_parquet.Compact.At.{At, Reads}
use ematix_parquet.Codec.{CodecReader, ◌>>=◌, wire, or_panic}

-- `p` consumes `bs` and returns `a`, whatever follows.
abbrev pub CodecReads : {A : Type 0} → CodecReader A → List ℕ → A → Type 0
CodecReads p bs a =
    (c : Cursor) (rest : List ℕ) → At c (bs ++ rest) → p c ≡ ok (a, advance (length bs) c)

module _ {A : Type 0} where
  pub wire-Reads : (p : Reader A) (bs : List ℕ) (a : A) → Reads p bs a → CodecReads (wire p) bs a
  wire-Reads p bs a r c rest h = rw (r c rest h, wire)

module _ {A B : Type 0} where
  pub CodecReads-or_panic :
      (p : CodecReader A) (f : A → Option B) (bs : List ℕ) (a : A) (b : B)
      → CodecReads p bs a
      → f a ≡ some b
      → CodecReads (p >>= λ x. or_panic (f x)) bs b
  CodecReads-or_panic p f bs a b r e c rest h = rw (r c rest h, ◌>>=◌, e) refl

  -- One decoder, then another: where the second ends does not have to be known.
  pub then_reads :
      (p : CodecReader A) (f : A → CodecReader B) (bs : List ℕ) (a : A) (c : Cursor) (rest : List ℕ)
      → CodecReads p bs a
      → At c (bs ++ rest)
      → (p >>= f) c ≡ f a (advance (length bs) c)
  then_reads p f bs a c rest r h = rw (r c rest h, ◌>>=◌)
