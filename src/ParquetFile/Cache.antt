-- ===== src/ParquetFile/Cache.antt =====
-- `cached_metadata` against `metadata`, on a file that is opened and asked any number of times.
use ematix_parquet.Metadata.{Layout}
use ematix_parquet.Base.{
  ℕ, ◌≡◌, ◌∙◌, refl, sym, ap, subst, arith, Option, some, none, List, Result, ok, err,
}
use ematix_parquet.Metadata.File.{FileMetaData}
use ematix_parquet.MetadataWriter.Rules.{OptAll}
use ematix_parquet.PageWalker.{IoError}
use ematix_parquet.ParquetFile.{ParquetFile, open_file, metadata, cached_metadata}

-- The states of an opened file.
pub data Reached ⦃layout : Layout⦄ (bytes : List ℕ) : ParquetFile → Type 0 where
  opened : {f : ParquetFile} → open_file bytes ≡ ok f → Reached bytes f
  asked :
      {f f' : ParquetFile} {md : FileMetaData}
      → Reached bytes f
      → cached_metadata f ≡ ok (md, f')
      → Reached bytes f'

-- What is stored is what the footer says.
abbrev IsCached : ⦃layout : Layout⦄ → ParquetFile → Type 0
IsCached f = OptAll (λ md. metadata f ≡ ok md) f.cached_meta

-- With the metadata that the footer says, the answer is this, and it is stored.
abbrev pub Answer :
    ParquetFile → Result IoError FileMetaData → Result IoError (FileMetaData × ParquetFile)
Answer f (err e) = err e
Answer f (ok md) = ok (md, record f { cached_meta = some md })

-- The answer, whatever is stored.
answer :
    ⦃layout : Layout⦄ (f : ParquetFile) (o : Option FileMetaData)
    → OptAll (λ md. metadata f ≡ ok md) o
    → let g : ParquetFile = record f { cached_meta = o } in
      cached_metadata g ≡ Answer g (metadata f)
unfolding cached_metadata metadata
answer f none h = first (metadata f)
  where
    first :
        (r : Result IoError FileMetaData)
        → elim r as (λ _. Result IoError (FileMetaData × ParquetFile)) [
          | err e ↦ err e
          | ok md ↦ ok (md, record f { cached_meta = some md })
        ]
          ≡ Answer f r
    first (err e) = refl
    first (ok md) = refl
answer f (some md) h = sym (ap (Answer (record f { cached_meta = some md })) h)

Answer-IsCached :
    ⦃layout : Layout⦄ (f f' : ParquetFile) (md : FileMetaData) (r : Result IoError FileMetaData)
    → metadata f ≡ r
    → Answer f r ≡ ok (md, f')
    → IsCached f' × (metadata f' ≡ metadata f)
unfolding metadata
Answer-IsCached f f' md (err e) em e' = absurd (cc)
Answer-IsCached f f' md (ok m) em e' =
    let same : record f { cached_meta = some m } ≡ f' = cc in
    subst (λ g. IsCached g × (metadata g ≡ metadata f)) same (em, refl)

abbrev IsFresh : Result IoError ParquetFile → Type 0
IsFresh (err e) = Unit {0}
IsFresh (ok f) = f.cached_meta ≡ none

open_file-IsFresh : (bytes : List ℕ) → IsFresh (open_file bytes)
unfolding open_file
open_file-IsFresh bytes = ground arith

-- The file as it was opened, against a state of it.
record Same ⦃layout : Layout⦄ (bytes : List ℕ) (f : ParquetFile) : Type 0 where
  first : ParquetFile
  open_first : open_file bytes ≡ ok first
  same : metadata f ≡ metadata first
  cached : IsCached f

Reached-Same : ⦃layout : Layout⦄ (bytes : List ℕ) (f : ParquetFile) → Reached bytes f → Same bytes f
Reached-Same bytes f (opened e) =
    let fresh : f.cached_meta ≡ none = subst IsFresh e (open_file-IsFresh bytes) in
    record {
      first = f;
      open_first = e;
      same = refl;
      cached = subst (OptAll (λ md. metadata f ≡ ok md)) (sym fresh) tt;
    }
Reached-Same bytes f' (asked {f = f} {md = md} r e) =
    let s : Same bytes f = Reached-Same bytes f r in
    let (cached, kept) =
      Answer-IsCached f f' md (metadata f) refl (sym (answer f f.cached_meta s.cached) ∙ e) in
    record { first = s.first; open_first = s.open_first; same = kept ∙ s.same; cached = cached }

-- A file that was opened and asked for its cached metadata any number of times says the same
-- metadata as when it was opened, and `cached_metadata` answers with that, which it then holds, or
-- with its error.
pub cached_metadata-Reached :
    ⦃layout : Layout⦄ (bytes : List ℕ) (f : ParquetFile)
    → Reached bytes f
    → (f0 : ParquetFile) × (open_file bytes ≡ ok f0)
      × (metadata f ≡ metadata f0)
      × (cached_metadata f ≡ Answer f (metadata f0))
cached_metadata-Reached bytes f r =
    let s : Same bytes f = Reached-Same bytes f r in
    (s.first, s.open_first, s.same, answer f f.cached_meta s.cached ∙ ap (Answer f) s.same)
