-- ===== src/MetadataWriter/Crypto.antt =====
-- crates/ematix-parquet-format/src/metadata_writer.rs: the writers of what the footer says of
-- encryption.
pub mod Valid
pub mod Carries
use ematix_parquet.Base.{Option, none, some, [], ◌∷◌}
use ematix_parquet.Compact.{binary, list_of, struct}
use ematix_parquet.CompactWriter.{Writer, write_binary, write_list_binary}
use ematix_parquet.MetadataWriter.{
  Encoder, total, write_empty_struct, put, put_opt, put_bool, write_struct,
}
use ematix_parquet.Metadata.Crypto.{
  AesGcmV1, AesGcmCtrV1, EncryptionAlgorithm, EncryptionWithColumnKey, ColumnCryptoMetaData,
  FileCryptoMetaData,
}

unfoldable pub encode_aes_gcm_v1 : Encoder AesGcmV1
encode_aes_gcm_v1 w a =
    write_struct
      (put_opt 1 binary (total write_binary) a.aad_prefix
        ∷ put_opt 2 binary (total write_binary) a.aad_file_unique
        ∷ put_bool 3 a.supply_aad_prefix
        ∷ [])
      w

unfoldable pub encode_aes_gcm_ctr_v1 : Encoder AesGcmCtrV1
encode_aes_gcm_ctr_v1 w a =
    write_struct
      (put_opt 1 binary (total write_binary) a.aad_prefix
        ∷ put_opt 2 binary (total write_binary) a.aad_file_unique
        ∷ put_bool 3 a.supply_aad_prefix
        ∷ [])
      w

unfoldable pub encode_encryption_algorithm : Encoder EncryptionAlgorithm
encode_encryption_algorithm w (EncryptionAlgorithm.aes_gcm_v1 v) =
    write_struct (put 1 struct encode_aes_gcm_v1 v ∷ []) w
encode_encryption_algorithm w (EncryptionAlgorithm.aes_gcm_ctr_v1 v) =
    write_struct (put 2 struct encode_aes_gcm_ctr_v1 v ∷ []) w

unfoldable pub encode_encryption_with_column_key : Encoder EncryptionWithColumnKey
encode_encryption_with_column_key w a =
    write_struct
      (put 1 list_of (total write_list_binary) a.path_in_schema
        ∷ put_opt 2 binary (total write_binary) a.key_metadata
        ∷ [])
      w

unfoldable pub encode_column_crypto_metadata : Encoder ColumnCryptoMetaData
encode_column_crypto_metadata w ColumnCryptoMetaData.encryption_with_footer_key =
    write_struct (put 1 struct write_empty_struct tt ∷ []) w
encode_column_crypto_metadata w (ColumnCryptoMetaData.encryption_with_column_key v) =
    write_struct (put 2 struct encode_encryption_with_column_key v ∷ []) w

-- `expect` panics without an algorithm.
unfoldable pub encode_file_crypto_metadata : Encoder FileCryptoMetaData
encode_file_crypto_metadata w fcm = elim fcm.encryption_algorithm [
  | none ↦ none
  | some alg ↦
      write_struct
        (put 1 struct encode_encryption_algorithm alg
          ∷ put_opt 2 binary (total write_binary) fcm.key_metadata
          ∷ [])
        w
]

unfoldable pub write_file_crypto_metadata : FileCryptoMetaData → Option Writer
write_file_crypto_metadata a = encode_file_crypto_metadata [] a
