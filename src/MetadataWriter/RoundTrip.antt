-- ===== src/MetadataWriter/RoundTrip.antt =====
-- The readers of metadata.rs on what the writers of metadata_writer.rs put out, in front of any
-- other bytes.
use ematix_parquet.Metadata.{Layout}
use ematix_parquet.Base.{ℕ, ◌≡◌, refl, List, [], ◌++◌, Option, some, length, ok}
use ematix_parquet.Compact.{Reader, new_cursor, advance}
use ematix_parquet.CompactWriter.{Writer}
use ematix_parquet.Metadata.Page.{PageHeader, read_page_header}
use ematix_parquet.Metadata.Crypto.{
  EncryptionAlgorithm, FileCryptoMetaData, read_file_crypto_metadata,
}
use ematix_parquet.Metadata.Chunk.{ColumnChunk, read_column_chunk}
use ematix_parquet.Metadata.File.{FileMetaData, read_file_metadata}
use ematix_parquet.MetadataWriter.{Encoder}
use ematix_parquet.MetadataWriter.Rules.{Carries, OptAll}
use ematix_parquet.MetadataWriter.Values.{IsSized}
use ematix_parquet.MetadataWriter.Page.{write_page_header}
use ematix_parquet.MetadataWriter.Page.Valid.{IsPageHeader}
use ematix_parquet.MetadataWriter.Page.Carries.{page_header-Carries}
use ematix_parquet.MetadataWriter.Crypto.{write_file_crypto_metadata}
use ematix_parquet.MetadataWriter.Crypto.Valid.{IsEncryptionAlgorithm}
use ematix_parquet.MetadataWriter.Crypto.Carries.{file_crypto_metadata-Carries}
use ematix_parquet.MetadataWriter.Chunk.{write_column_chunk}
use ematix_parquet.MetadataWriter.Chunk.Valid.{IsColumnChunk}
use ematix_parquet.MetadataWriter.Chunk.Carries.{column_chunk-Carries}
use ematix_parquet.MetadataWriter.File.{write_file_metadata}
use ematix_parquet.MetadataWriter.File.Valid.{IsFileMetaData}
use ematix_parquet.MetadataWriter.File.Carries.{file_metadata-Carries}

-- The writer ends without a panic, and the reader takes back what it put out, in front of `rest`,
-- up to its last byte.
abbrev pub ReadsBack : {A : Type 0} → Reader A → Option Writer → A → List ℕ → Type 0
ReadsBack p out a rest =
    (bytes : List ℕ) × (out ≡ some bytes)
    × (p (new_cursor (bytes ++ rest)) ≡ ok (a, advance (length bytes) (new_cursor (bytes ++ rest))))

Carries-back :
    {A : Type 0} (p : Reader A) (g : Encoder A) (a : A) (rest : List ℕ)
    → Carries p g a
    → ReadsBack p (g [] a) a rest
Carries-back p g a rest c = (c.bytes, c.writes [], c.reads (new_cursor (c.bytes ++ rest)) rest refl)

-- If numbers are in the ranges of their types, lengths below 2^64, the vectors of structs at most
-- isize::MAX bytes large, and no field is present that the writers refuse, `write_file_metadata`
-- ends without a panic, and `read_file_metadata` takes the same metadata back from the bytes it
-- puts out, whatever follows, and ends right behind them.
pub read_file_metadata-write :
    ⦃layout : Layout⦄ (md : FileMetaData) (rest : List ℕ)
    → IsFileMetaData md
    → ReadsBack read_file_metadata (write_file_metadata md) md rest
unfolding write_file_metadata
read_file_metadata-write md rest h = Carries-back _ _ md rest (file_metadata-Carries md h)

-- If numbers are in the ranges of their types and lengths below 2^64, `write_page_header` ends
-- without a panic, and `read_page_header` takes the same header back from the bytes it puts out,
-- whatever follows, and ends right behind them.
pub read_page_header-write :
    (hdr : PageHeader) (rest : List ℕ)
    → IsPageHeader hdr
    → ReadsBack read_page_header (write_page_header hdr) hdr rest
unfolding write_page_header
read_page_header-write hdr rest h = Carries-back _ _ hdr rest (page_header-Carries hdr h)

-- If numbers are in the ranges of their types, lengths below 2^64, and no field is present that the
-- writers refuse, `write_column_chunk` ends without a panic, and `read_column_chunk` takes the same
-- chunk back from the bytes it puts out, whatever follows, and ends right behind them.
pub read_column_chunk-write :
    ⦃layout : Layout⦄ (cc : ColumnChunk) (rest : List ℕ)
    → IsColumnChunk cc
    → ReadsBack read_column_chunk (write_column_chunk cc) cc rest
unfolding write_column_chunk
read_column_chunk-write cc rest h = Carries-back _ _ cc rest (column_chunk-Carries cc h)

-- For an algorithm whose byte strings, and the key's metadata, are shorter than 2^64,
-- `write_file_crypto_metadata` ends without a panic, and `read_file_crypto_metadata` takes both
-- back from the bytes it puts out, whatever follows, and ends right behind them.
pub read_file_crypto_metadata-write :
    (alg : EncryptionAlgorithm) (key_metadata : Option (List ℕ)) (rest : List ℕ)
    → IsEncryptionAlgorithm alg
    → OptAll IsSized key_metadata
    → let fcm : FileCryptoMetaData = record {
      encryption_algorithm = some alg;
      key_metadata = key_metadata;
    } in
      ReadsBack read_file_crypto_metadata (write_file_crypto_metadata fcm) fcm rest
unfolding write_file_crypto_metadata
read_file_crypto_metadata-write alg key_metadata rest h_alg h_key =
    Carries-back _ _ _ rest (file_crypto_metadata-Carries alg key_metadata h_alg h_key)
