-- ===== src/Metadata/Chunk/Safety.antt =====
-- The readers of the column chunks, on any bytes.
use ematix_parquet.Metadata.{Layout}
use ematix_parquet.Base.{ℕ, true, List, [], ◌∷◌, Result, ok, err}
use ematix_parquet.Compact.{FieldHeader, FormatError}
use ematix_parquet.Compact.Outcome.{IsSource}
use ematix_parquet.Types.{encoding_from_i32}
use ematix_parquet.Types.Safety.{encoding_from_i32-IsSource}
use ematix_parquet.Metadata.Safety.{IsSafe, arms, result-IsSafe, read_struct-IsSafe}
use ematix_parquet.Metadata.Chunk.{
  encodings_of, read_encodings, ColumnMetaDataFields, column_metadata_field, read_column_metadata,
  no_column_metadata, column_metadata_of, ColumnChunkFields, column_chunk_field, read_column_chunk,
  no_column_chunk, column_chunk_of,
}
use ematix_parquet.Metadata.Crypto.Safety.{column_crypto_metadata-IsSafe}
use ematix_parquet.Metadata.Statistics.Safety.{
  statistics-IsSafe, key_value-IsSafe, size_statistics-IsSafe, page_encoding_stats-IsSafe,
}

cons-IsSource :
    {A : Type 0} (r : Result FormatError A) (rs : Result FormatError (List A))
    → IsSource r
    → IsSource rs
    → IsSource (elim r as (λ _. Result FormatError (List A)) [
      | err e ↦ err e
      | ok t ↦ elim rs [ err e ↦ err e | ok ts ↦ ok (t ∷ ts) ]
    ])
cons-IsSource (ok t) (ok ts) h hs = tt
cons-IsSource (ok t) (err e) h hs = hs
cons-IsSource (err e) rs h hs = h

encodings_of-IsSource : (vs : List ℕ) → IsSource (encodings_of vs)
unfolding encodings_of
encodings_of-IsSource [] = tt
encodings_of-IsSource (v ∷ vs) =
    cons-IsSource (encoding_from_i32 v) (encodings_of vs) (encoding_from_i32-IsSource v)
      (encodings_of-IsSource vs)

encodings-IsSafe : IsSafe true read_encodings
unfolding read_encodings
encodings-IsSafe = search (arms, result-IsSafe, encodings_of-IsSource)

column_metadata_field-IsSafe :
    ⦃layout : Layout⦄ (h : FieldHeader) (s : ColumnMetaDataFields)
    → IsSafe true (column_metadata_field h s)
unfolding column_metadata_field
column_metadata_field-IsSafe h s =
    search
      (
        arms, encodings-IsSafe, key_value-IsSafe, statistics-IsSafe, page_encoding_stats-IsSafe,
        size_statistics-IsSafe,
      )
      depth 21

column_metadata_of-IsSafe : (s : ColumnMetaDataFields) → IsSafe true (column_metadata_of s)
unfolding column_metadata_of
column_metadata_of-IsSafe s = search arms depth 11

pub column_metadata-IsSafe : ⦃layout : Layout⦄ → IsSafe true read_column_metadata
unfolding read_column_metadata
column_metadata-IsSafe =
    read_struct-IsSafe column_metadata_field column_metadata_field-IsSafe no_column_metadata _
      column_metadata_of-IsSafe

column_chunk_field-IsSafe :
    ⦃layout : Layout⦄ (h : FieldHeader) (s : ColumnChunkFields)
    → IsSafe true (column_chunk_field h s)
unfolding column_chunk_field
column_chunk_field-IsSafe h s =
    search (arms, column_metadata-IsSafe, column_crypto_metadata-IsSafe) depth 14

column_chunk_of-IsSafe : (s : ColumnChunkFields) → IsSafe true (column_chunk_of s)
unfolding column_chunk_of
column_chunk_of-IsSafe s = search arms depth 4

pub column_chunk-IsSafe : ⦃layout : Layout⦄ → IsSafe true read_column_chunk
unfolding read_column_chunk
column_chunk-IsSafe =
    read_struct-IsSafe column_chunk_field column_chunk_field-IsSafe no_column_chunk _
      column_chunk_of-IsSafe
