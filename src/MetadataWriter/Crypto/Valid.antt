-- ===== src/MetadataWriter/Crypto/Valid.antt =====
-- What the writers of what the footer says of encryption take: numbers in their ranges, lengths
-- that fit, and none of the fields that they refuse.
use ematix_parquet.MetadataWriter.Rules.{OptAll}
use ematix_parquet.MetadataWriter.Values.{IsSized, IsList}
use ematix_parquet.Metadata.Crypto.{
  AesGcmV1, AesGcmCtrV1, EncryptionAlgorithm, EncryptionWithColumnKey, ColumnCryptoMetaData,
}

pub record IsAesGcmV1 (a : AesGcmV1) : Type 0 where
  pub aad_prefix : OptAll IsSized a.aad_prefix
  pub aad_file_unique : OptAll IsSized a.aad_file_unique

pub record IsAesGcmCtrV1 (a : AesGcmCtrV1) : Type 0 where
  pub aad_prefix : OptAll IsSized a.aad_prefix
  pub aad_file_unique : OptAll IsSized a.aad_file_unique

abbrev pub IsEncryptionAlgorithm : EncryptionAlgorithm → Type 0
IsEncryptionAlgorithm (EncryptionAlgorithm.aes_gcm_v1 v) = IsAesGcmV1 v
IsEncryptionAlgorithm (EncryptionAlgorithm.aes_gcm_ctr_v1 v) = IsAesGcmCtrV1 v

pub record IsEncryptionWithColumnKey (a : EncryptionWithColumnKey) : Type 0 where
  pub path_in_schema : IsList IsSized a.path_in_schema
  pub key_metadata : OptAll IsSized a.key_metadata

abbrev pub IsColumnCryptoMetaData : ColumnCryptoMetaData → Type 0
IsColumnCryptoMetaData ColumnCryptoMetaData.encryption_with_footer_key = Unit {0}
IsColumnCryptoMetaData (ColumnCryptoMetaData.encryption_with_column_key v) =
    IsEncryptionWithColumnKey v
