-- ===== src/Metadata/Crypto/Safety.antt =====
-- The readers of what the footer says of encryption, on any bytes.
use ematix_parquet.Base.{Bool, Option, none}
use ematix_parquet.Compact.{FieldHeader}
use ematix_parquet.Metadata.Safety.{
  IsSafe, arms, pure-IsSafe, chosen_of-IsSafe, read_struct-IsSafe, empty_struct-IsSafe,
}
use ematix_parquet.Metadata.Crypto.{
  AesGcmV1, aes_gcm_v1_field, read_aes_gcm_v1, no_aes_gcm_v1, AesGcmCtrV1, aes_gcm_ctr_v1_field,
  read_aes_gcm_ctr_v1, no_aes_gcm_ctr_v1, EncryptionAlgorithm, encryption_algorithm_field,
  read_encryption_algorithm, EncryptionWithColumnKeyFields, encryption_with_column_key_field,
  read_encryption_with_column_key, no_encryption_with_column_key, encryption_with_column_key_of,
  read_encryption_with_footer_key, ColumnCryptoMetaData, column_crypto_metadata_field,
  read_column_crypto_metadata, FileCryptoMetaData, file_crypto_metadata_field,
  read_file_crypto_metadata, no_file_crypto_metadata, file_crypto_metadata_of,
}

aes_gcm_v1_field-IsSafe :
    {b : Bool} (h : FieldHeader) (s : AesGcmV1) → IsSafe b (aes_gcm_v1_field h s)
unfolding aes_gcm_v1_field
aes_gcm_v1_field-IsSafe h s = search (arms) depth 9

pub aes_gcm_v1-IsSafe : {b : Bool} → IsSafe b read_aes_gcm_v1
unfolding read_aes_gcm_v1
aes_gcm_v1-IsSafe =
    read_struct-IsSafe aes_gcm_v1_field aes_gcm_v1_field-IsSafe no_aes_gcm_v1 _ pure-IsSafe

aes_gcm_ctr_v1_field-IsSafe :
    {b : Bool} (h : FieldHeader) (s : AesGcmCtrV1) → IsSafe b (aes_gcm_ctr_v1_field h s)
unfolding aes_gcm_ctr_v1_field
aes_gcm_ctr_v1_field-IsSafe h s = search (arms) depth 9

pub aes_gcm_ctr_v1-IsSafe : {b : Bool} → IsSafe b read_aes_gcm_ctr_v1
unfolding read_aes_gcm_ctr_v1
aes_gcm_ctr_v1-IsSafe =
    read_struct-IsSafe aes_gcm_ctr_v1_field aes_gcm_ctr_v1_field-IsSafe no_aes_gcm_ctr_v1 _
      pure-IsSafe

encryption_algorithm_field-IsSafe :
    {b : Bool} (h : FieldHeader) (s : Option EncryptionAlgorithm)
    → IsSafe b (encryption_algorithm_field h s)
unfolding encryption_algorithm_field
encryption_algorithm_field-IsSafe h s =
    search (arms, aes_gcm_v1-IsSafe, aes_gcm_ctr_v1-IsSafe) depth 7

pub encryption_algorithm-IsSafe : {b : Bool} → IsSafe b read_encryption_algorithm
unfolding read_encryption_algorithm
encryption_algorithm-IsSafe =
    read_struct-IsSafe encryption_algorithm_field encryption_algorithm_field-IsSafe none _
      (chosen_of-IsSafe "EncryptionAlgorithm")

encryption_with_column_key_field-IsSafe :
    {b : Bool} (h : FieldHeader) (s : EncryptionWithColumnKeyFields)
    → IsSafe b (encryption_with_column_key_field h s)
unfolding encryption_with_column_key_field
encryption_with_column_key_field-IsSafe h s = search (arms) depth 7

encryption_with_column_key_of-IsSafe :
    {b : Bool} (s : EncryptionWithColumnKeyFields) → IsSafe b (encryption_with_column_key_of s)
unfolding encryption_with_column_key_of
encryption_with_column_key_of-IsSafe s = search arms depth 4

pub encryption_with_column_key-IsSafe : {b : Bool} → IsSafe b read_encryption_with_column_key
unfolding read_encryption_with_column_key
encryption_with_column_key-IsSafe =
    read_struct-IsSafe encryption_with_column_key_field encryption_with_column_key_field-IsSafe
      no_encryption_with_column_key _ encryption_with_column_key_of-IsSafe

encryption_with_footer_key-IsSafe : {b : Bool} → IsSafe b read_encryption_with_footer_key
unfolding read_encryption_with_footer_key
encryption_with_footer_key-IsSafe = empty_struct-IsSafe "EncryptionWithFooterKey"

column_crypto_metadata_field-IsSafe :
    {b : Bool} (h : FieldHeader) (s : Option ColumnCryptoMetaData)
    → IsSafe b (column_crypto_metadata_field h s)
unfolding column_crypto_metadata_field
column_crypto_metadata_field-IsSafe h s =
    search (arms, encryption_with_footer_key-IsSafe, encryption_with_column_key-IsSafe) depth 7

pub column_crypto_metadata-IsSafe : {b : Bool} → IsSafe b read_column_crypto_metadata
unfolding read_column_crypto_metadata
column_crypto_metadata-IsSafe =
    read_struct-IsSafe column_crypto_metadata_field column_crypto_metadata_field-IsSafe none _
      (chosen_of-IsSafe "ColumnCryptoMetaData")

file_crypto_metadata_field-IsSafe :
    {b : Bool} (h : FieldHeader) (s : FileCryptoMetaData)
    → IsSafe b (file_crypto_metadata_field h s)
unfolding file_crypto_metadata_field
file_crypto_metadata_field-IsSafe h s = search (arms, encryption_algorithm-IsSafe) depth 7

file_crypto_metadata_of-IsSafe :
    {b : Bool} (s : FileCryptoMetaData) → IsSafe b (file_crypto_metadata_of s)
unfolding file_crypto_metadata_of
file_crypto_metadata_of-IsSafe s = search arms depth 4

pub file_crypto_metadata-IsSafe : {b : Bool} → IsSafe b read_file_crypto_metadata
unfolding read_file_crypto_metadata
file_crypto_metadata-IsSafe =
    read_struct-IsSafe file_crypto_metadata_field file_crypto_metadata_field-IsSafe
      no_file_crypto_metadata _ file_crypto_metadata_of-IsSafe
