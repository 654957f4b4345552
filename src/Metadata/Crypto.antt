-- ===== src/Metadata/Crypto.antt =====
-- crates/ematix-parquet-format/src/metadata.rs: what the footer says of encryption. Of each struct
-- `x`, `x_field` is the body of its loop and `x_of` the struct made of the fields in the end.
pub mod Safety
use ematix_parquet.Base.{ℕ, if◌then◌else◌, Bool, true, false, Option, none, some, List}
use ematix_parquet.Compact.{
  ◌>>=◌, FieldHeader, Reader, pure, bool_true, bool_false, binary, list_of, struct, read_binary,
  read_list_binary,
}
use ematix_parquet.Metadata.{unknown, required, chosen_of, is_field, read_struct, read_empty_struct}

pub record AesGcmV1 : Type 0 where
  pub aad_prefix : Option (List ℕ)
  pub aad_file_unique : Option (List ℕ)
  pub supply_aad_prefix : Option Bool

abbrev pub no_aes_gcm_v1 : AesGcmV1
no_aes_gcm_v1 = record { aad_prefix = none; aad_file_unique = none; supply_aad_prefix = none }

unfoldable pub aes_gcm_v1_field : FieldHeader → AesGcmV1 → Reader AesGcmV1
aes_gcm_v1_field h s =
    if is_field h 1 binary
    then (do v ← read_binary; pure (record s { aad_prefix = some v }))
    else if is_field h 2 binary
    then (do v ← read_binary; pure (record s { aad_file_unique = some v }))
    else if is_field h 3 bool_true
    then pure (record s { supply_aad_prefix = some true })
    else if is_field h 3 bool_false
    then pure (record s { supply_aad_prefix = some false })
    else unknown "AesGcmV1" h.id

unfoldable pub read_aes_gcm_v1 : Reader AesGcmV1
read_aes_gcm_v1 = read_struct aes_gcm_v1_field no_aes_gcm_v1 pure

pub record AesGcmCtrV1 : Type 0 where
  pub aad_prefix : Option (List ℕ)
  pub aad_file_unique : Option (List ℕ)
  pub supply_aad_prefix : Option Bool

abbrev pub no_aes_gcm_ctr_v1 : AesGcmCtrV1
no_aes_gcm_ctr_v1 = record { aad_prefix = none; aad_file_unique = none; supply_aad_prefix = none }

unfoldable pub aes_gcm_ctr_v1_field : FieldHeader → AesGcmCtrV1 → Reader AesGcmCtrV1
aes_gcm_ctr_v1_field h s =
    if is_field h 1 binary
    then (do v ← read_binary; pure (record s { aad_prefix = some v }))
    else if is_field h 2 binary
    then (do v ← read_binary; pure (record s { aad_file_unique = some v }))
    else if is_field h 3 bool_true
    then pure (record s { supply_aad_prefix = some true })
    else if is_field h 3 bool_false
    then pure (record s { supply_aad_prefix = some false })
    else unknown "AesGcmCtrV1" h.id

unfoldable pub read_aes_gcm_ctr_v1 : Reader AesGcmCtrV1
read_aes_gcm_ctr_v1 = read_struct aes_gcm_ctr_v1_field no_aes_gcm_ctr_v1 pure

pub data EncryptionAlgorithm : Type 0 where
  aes_gcm_v1 : AesGcmV1 → EncryptionAlgorithm
  aes_gcm_ctr_v1 : AesGcmCtrV1 → EncryptionAlgorithm

unfoldable pub encryption_algorithm_field :
    FieldHeader → Option EncryptionAlgorithm → Reader (Option EncryptionAlgorithm)
encryption_algorithm_field h s =
    if is_field h 1 struct
    then (do v ← read_aes_gcm_v1; pure (some (EncryptionAlgorithm.aes_gcm_v1 v)))
    else if is_field h 2 struct
    then (do v ← read_aes_gcm_ctr_v1; pure (some (EncryptionAlgorithm.aes_gcm_ctr_v1 v)))
    else unknown "EncryptionAlgorithm" h.id

unfoldable pub read_encryption_algorithm : Reader EncryptionAlgorithm
read_encryption_algorithm =
    read_struct encryption_algorithm_field none (chosen_of "EncryptionAlgorithm")

pub record EncryptionWithColumnKey : Type 0 where
  pub path_in_schema : List (List ℕ)
  pub key_metadata : Option (List ℕ)

pub record EncryptionWithColumnKeyFields : Type 0 where
  pub path_in_schema : Option (List (List ℕ))
  pub key_metadata : Option (List ℕ)

abbrev pub no_encryption_with_column_key : EncryptionWithColumnKeyFields
no_encryption_with_column_key = record { path_in_schema = none; key_metadata = none }

unfoldable pub encryption_with_column_key_field :
    FieldHeader → EncryptionWithColumnKeyFields → Reader EncryptionWithColumnKeyFields
encryption_with_column_key_field h s =
    if is_field h 1 list_of
    then (do v ← read_list_binary; pure (record s { path_in_schema = some v }))
    else if is_field h 2 binary
    then (do v ← read_binary; pure (record s { key_metadata = some v }))
    else unknown "EncryptionWithColumnKey" h.id

unfoldable pub encryption_with_column_key_of :
    EncryptionWithColumnKeyFields → Reader EncryptionWithColumnKey
encryption_with_column_key_of s = do
  path_in_schema ← required "EncryptionWithColumnKey" 1 s.path_in_schema
  pure (record { path_in_schema = path_in_schema; key_metadata = s.key_metadata })

unfoldable pub read_encryption_with_column_key : Reader EncryptionWithColumnKey
read_encryption_with_column_key =
    read_struct encryption_with_column_key_field no_encryption_with_column_key
      encryption_with_column_key_of

unfoldable pub read_encryption_with_footer_key : Reader (Unit {0})
read_encryption_with_footer_key = read_empty_struct "EncryptionWithFooterKey"

pub data ColumnCryptoMetaData : Type 0 where
  encryption_with_footer_key : ColumnCryptoMetaData
  encryption_with_column_key : EncryptionWithColumnKey → ColumnCryptoMetaData

unfoldable pub column_crypto_metadata_field :
    FieldHeader → Option ColumnCryptoMetaData → Reader (Option ColumnCryptoMetaData)
column_crypto_metadata_field h s =
    if is_field h 1 struct
    then (do
      _ ← read_encryption_with_footer_key
      pure (some ColumnCryptoMetaData.encryption_with_footer_key))
    else if is_field h 2 struct
    then (do
      v ← read_encryption_with_column_key
      pure (some (ColumnCryptoMetaData.encryption_with_column_key v)))
    else unknown "ColumnCryptoMetaData" h.id

unfoldable pub read_column_crypto_metadata : Reader ColumnCryptoMetaData
read_column_crypto_metadata =
    read_struct column_crypto_metadata_field none (chosen_of "ColumnCryptoMetaData")

pub record FileCryptoMetaData : Type 0 where
  pub encryption_algorithm : Option EncryptionAlgorithm
  pub key_metadata : Option (List ℕ)

abbrev pub no_file_crypto_metadata : FileCryptoMetaData
no_file_crypto_metadata = record { encryption_algorithm = none; key_metadata = none }

unfoldable pub file_crypto_metadata_field :
    FieldHeader → FileCryptoMetaData → Reader FileCryptoMetaData
file_crypto_metadata_field h s =
    if is_field h 1 struct
    then (do v ← read_encryption_algorithm; pure (record s { encryption_algorithm = some v }))
    else if is_field h 2 binary
    then (do v ← read_binary; pure (record s { key_metadata = some v }))
    else unknown "FileCryptoMetaData" h.id

unfoldable pub file_crypto_metadata_of : FileCryptoMetaData → Reader FileCryptoMetaData
file_crypto_metadata_of s = do
  encryption_algorithm ← required "FileCryptoMetaData" 1 s.encryption_algorithm
  pure (record { encryption_algorithm = some encryption_algorithm; key_metadata = s.key_metadata })

unfoldable pub read_file_crypto_metadata : Reader FileCryptoMetaData
read_file_crypto_metadata =
    read_struct file_crypto_metadata_field no_file_crypto_metadata file_crypto_metadata_of
