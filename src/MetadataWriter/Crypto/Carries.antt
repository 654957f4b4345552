-- ===== src/MetadataWriter/Crypto/Carries.antt =====
-- What is written of what the footer says of encryption, field by field, is read back.
use ematix_parquet.Base.{ℕ, arith, Option, some, List, refl}
use ematix_parquet.Compact.{binary, list_of, struct, read_binary, read_list_binary}
use ematix_parquet.CompactWriter.{write_binary, write_list_binary}
use ematix_parquet.MetadataWriter.{total, write_empty_struct}
use ematix_parquet.Compact.{pure}
use ematix_parquet.Metadata.{chosen_of, read_empty_struct}
use ematix_parquet.MetadataWriter.Rules.{
  Carries, OptAll, Chain-end, Chain-put, Chain-opt, Chain-bool, Carries-struct,
}
use ematix_parquet.MetadataWriter.Values.{
  binary-Carries, list_binary-Carries, empty-Carries, opt-Carries, IsSized,
}
use ematix_parquet.Metadata.Crypto.{
  AesGcmV1, read_aes_gcm_v1, aes_gcm_v1_field, no_aes_gcm_v1, AesGcmCtrV1, read_aes_gcm_ctr_v1,
  aes_gcm_ctr_v1_field, no_aes_gcm_ctr_v1, EncryptionAlgorithm, read_encryption_algorithm,
  encryption_algorithm_field, EncryptionWithColumnKey, EncryptionWithColumnKeyFields,
  read_encryption_with_column_key, encryption_with_column_key_field, no_encryption_with_column_key,
  encryption_with_column_key_of, read_encryption_with_footer_key, ColumnCryptoMetaData,
  read_column_crypto_metadata, column_crypto_metadata_field, read_file_crypto_metadata,
  file_crypto_metadata_field, no_file_crypto_metadata, file_crypto_metadata_of,
}
use ematix_parquet.MetadataWriter.Crypto.{
  encode_aes_gcm_v1, encode_aes_gcm_ctr_v1, encode_encryption_algorithm,
  encode_encryption_with_column_key, encode_column_crypto_metadata, encode_file_crypto_metadata,
}
use ematix_parquet.MetadataWriter.Crypto.Valid.{
  IsAesGcmV1, IsAesGcmCtrV1, IsEncryptionAlgorithm, IsEncryptionWithColumnKey,
  IsColumnCryptoMetaData,
}

pub aes_gcm_v1-Carries : (a : AesGcmV1) → IsAesGcmV1 a → Carries read_aes_gcm_v1 encode_aes_gcm_v1 a
unfolding read_aes_gcm_v1 aes_gcm_v1_field encode_aes_gcm_v1
aes_gcm_v1-Carries a h =
    let s1 : AesGcmV1 = record no_aes_gcm_v1 { aad_prefix = a.aad_prefix } in
    let s2 : AesGcmV1 = record s1 { aad_file_unique = a.aad_file_unique } in
    Carries-struct pure encode_aes_gcm_v1 a (λ w. refl)
      (Chain-opt 1 binary read_binary (total write_binary) a.aad_prefix
        (λ o. record no_aes_gcm_v1 { aad_prefix = o })
        (opt-Carries binary-Carries a.aad_prefix h.aad_prefix) refl refl (omega arith) (omega arith)
        λ q b.
          (Chain-opt 2 binary read_binary (total write_binary) a.aad_file_unique
            (λ o. record s1 { aad_file_unique = o })
            (opt-Carries binary-Carries a.aad_file_unique h.aad_file_unique) refl refl (omega arith)
            b
            λ q b.
              (Chain-bool 3 a.supply_aad_prefix (λ o. record s2 { supply_aad_prefix = o }) refl refl
                refl (omega arith) b λ q b. Chain-end)))
      refl

pub aes_gcm_ctr_v1-Carries :
    (a : AesGcmCtrV1) → IsAesGcmCtrV1 a → Carries read_aes_gcm_ctr_v1 encode_aes_gcm_ctr_v1 a
unfolding read_aes_gcm_ctr_v1 aes_gcm_ctr_v1_field encode_aes_gcm_ctr_v1
aes_gcm_ctr_v1-Carries a h =
    let s1 : AesGcmCtrV1 = record no_aes_gcm_ctr_v1 { aad_prefix = a.aad_prefix } in
    let s2 : AesGcmCtrV1 = record s1 { aad_file_unique = a.aad_file_unique } in
    Carries-struct pure encode_aes_gcm_ctr_v1 a (λ w. refl)
      (Chain-opt 1 binary read_binary (total write_binary) a.aad_prefix
        (λ o. record no_aes_gcm_ctr_v1 { aad_prefix = o })
        (opt-Carries binary-Carries a.aad_prefix h.aad_prefix) refl refl (omega arith) (omega arith)
        λ q b.
          (Chain-opt 2 binary read_binary (total write_binary) a.aad_file_unique
            (λ o. record s1 { aad_file_unique = o })
            (opt-Carries binary-Carries a.aad_file_unique h.aad_file_unique) refl refl (omega arith)
            b
            λ q b.
              (Chain-bool 3 a.supply_aad_prefix (λ o. record s2 { supply_aad_prefix = o }) refl refl
                refl (omega arith) b λ q b. Chain-end)))
      refl

pub encryption_algorithm-Carries :
    (a : EncryptionAlgorithm)
    → IsEncryptionAlgorithm a
    → Carries read_encryption_algorithm encode_encryption_algorithm a
unfolding read_encryption_algorithm encryption_algorithm_field encode_encryption_algorithm
encryption_algorithm-Carries (EncryptionAlgorithm.aes_gcm_v1 v) h =
    Carries-struct (chosen_of "EncryptionAlgorithm") encode_encryption_algorithm
      (EncryptionAlgorithm.aes_gcm_v1 v) (λ w. refl)
      (Chain-put 1 struct read_aes_gcm_v1 encode_aes_gcm_v1
        (λ x. some (EncryptionAlgorithm.aes_gcm_v1 x)) (aes_gcm_v1-Carries v h) refl (omega arith)
        (omega arith) Chain-end)
      refl
encryption_algorithm-Carries (EncryptionAlgorithm.aes_gcm_ctr_v1 v) h =
    Carries-struct (chosen_of "EncryptionAlgorithm") encode_encryption_algorithm
      (EncryptionAlgorithm.aes_gcm_ctr_v1 v) (λ w. refl)
      (Chain-put 2 struct read_aes_gcm_ctr_v1 encode_aes_gcm_ctr_v1
        (λ x. some (EncryptionAlgorithm.aes_gcm_ctr_v1 x)) (aes_gcm_ctr_v1-Carries v h) refl
        (omega arith) (omega arith) Chain-end)
      refl

pub encryption_with_column_key-Carries :
    (a : EncryptionWithColumnKey)
    → IsEncryptionWithColumnKey a
    → Carries read_encryption_with_column_key encode_encryption_with_column_key a
unfolding read_encryption_with_column_key encryption_with_column_key_field
    encode_encryption_with_column_key encryption_with_column_key_of
encryption_with_column_key-Carries a h =
    let s1 : EncryptionWithColumnKeyFields = record no_encryption_with_column_key {
      path_in_schema = some a.path_in_schema;
    } in
    Carries-struct encryption_with_column_key_of encode_encryption_with_column_key a (λ w. refl)
      (Chain-put 1 list_of read_list_binary (total write_list_binary)
        (λ v. record no_encryption_with_column_key { path_in_schema = some v })
        (list_binary-Carries a.path_in_schema h.path_in_schema) refl (omega arith) (omega arith)
        (Chain-opt 2 binary read_binary (total write_binary) a.key_metadata
          (λ o. record s1 { key_metadata = o })
          (opt-Carries binary-Carries a.key_metadata h.key_metadata) refl refl (omega arith)
          (omega arith) λ q b. Chain-end))
      refl

pub column_crypto_metadata-Carries :
    (a : ColumnCryptoMetaData)
    → IsColumnCryptoMetaData a
    → Carries read_column_crypto_metadata encode_column_crypto_metadata a
unfolding read_column_crypto_metadata column_crypto_metadata_field encode_column_crypto_metadata
    read_encryption_with_footer_key
column_crypto_metadata-Carries ColumnCryptoMetaData.encryption_with_footer_key h =
    Carries-struct (chosen_of "ColumnCryptoMetaData") encode_column_crypto_metadata
      ColumnCryptoMetaData.encryption_with_footer_key (λ w. refl)
      (Chain-put 1 struct (read_empty_struct "EncryptionWithFooterKey") write_empty_struct
        (λ _. some ColumnCryptoMetaData.encryption_with_footer_key)
        (empty-Carries "EncryptionWithFooterKey" tt) refl (omega arith) (omega arith) Chain-end)
      refl
column_crypto_metadata-Carries (ColumnCryptoMetaData.encryption_with_column_key v) h =
    Carries-struct (chosen_of "ColumnCryptoMetaData") encode_column_crypto_metadata
      (ColumnCryptoMetaData.encryption_with_column_key v) (λ w. refl)
      (Chain-put 2 struct read_encryption_with_column_key encode_encryption_with_column_key
        (λ x. some (ColumnCryptoMetaData.encryption_with_column_key x))
        (encryption_with_column_key-Carries v h) refl (omega arith) (omega arith) Chain-end)
      refl

pub file_crypto_metadata-Carries :
    (alg : EncryptionAlgorithm) (key_metadata : Option (List ℕ))
    → IsEncryptionAlgorithm alg
    → OptAll IsSized key_metadata
    → Carries read_file_crypto_metadata encode_file_crypto_metadata
        (record { encryption_algorithm = some alg; key_metadata = key_metadata })
unfolding read_file_crypto_metadata file_crypto_metadata_field file_crypto_metadata_of
    encode_file_crypto_metadata
file_crypto_metadata-Carries alg key_metadata h_alg h_key =
    Carries-struct file_crypto_metadata_of encode_file_crypto_metadata _ (λ w. refl)
      (Chain-put 1 struct read_encryption_algorithm encode_encryption_algorithm
        (λ v. record no_file_crypto_metadata { encryption_algorithm = some v })
        (encryption_algorithm-Carries alg h_alg) refl (omega arith) (omega arith)
        (Chain-opt 2 binary read_binary (total write_binary) key_metadata
          (λ o. record { encryption_algorithm = some alg; key_metadata = o })
          (opt-Carries binary-Carries key_metadata h_key) refl refl (omega arith) (omega arith)
          (λ q b. Chain-end)))
      refl
