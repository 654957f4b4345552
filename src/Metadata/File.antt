-- ===== src/Metadata/File.antt =====
-- crates/ematix-parquet-format/src/metadata.rs: row groups and the footer. Of each struct `x`,
-- `x_field` is the body of its loop and `x_of` the struct made of the fields in the end.
pub mod Safety
use ematix_parquet.Base.{ℕ, if◌then◌else◌, Bool, true, false, Option, none, some, List}
use ematix_parquet.Compact.{
  ◌>>=◌, FieldHeader, Reader, pure, bool_true, bool_false, i16, i32, i64, binary, list_of, struct,
  read_zigzag_i16, read_zigzag_i32, read_zigzag_i64, read_binary, read_list_struct,
}
use ematix_parquet.Metadata.{
  Layout, unknown, required, chosen_of, is_field, read_struct, read_empty_struct,
}
use ematix_parquet.Metadata.Schema.{SchemaElement, read_schema_element}
use ematix_parquet.Metadata.Crypto.{EncryptionAlgorithm, read_encryption_algorithm}
use ematix_parquet.Metadata.Chunk.{ColumnChunk, read_column_chunk}
use ematix_parquet.Metadata.Statistics.{KeyValue, read_key_value}

pub record SortingColumn : Type 0 where
  pub column_idx : ℕ
  pub descending : Bool
  pub nulls_first : Bool

pub record SortingColumnFields : Type 0 where
  pub column_idx : Option ℕ
  pub descending : Option Bool
  pub nulls_first : Option Bool

abbrev pub no_sorting_column : SortingColumnFields
no_sorting_column = record { column_idx = none; descending = none; nulls_first = none }

pub sorting_column_field : FieldHeader → SortingColumnFields → Reader SortingColumnFields
sorting_column_field h s =
    if is_field h 1 i32
    then (do v ← read_zigzag_i32; pure (record s { column_idx = some v }))
    else if is_field h 2 bool_true
    then pure (record s { descending = some true })
    else if is_field h 2 bool_false
    then pure (record s { descending = some false })
    else if is_field h 3 bool_true
    then pure (record s { nulls_first = some true })
    else if is_field h 3 bool_false
    then pure (record s { nulls_first = some false })
    else unknown "SortingColumn" h.id

pub sorting_column_of : SortingColumnFields → Reader SortingColumn
sorting_column_of s = do
  column_idx ← required "SortingColumn" 1 s.column_idx
  descending ← required "SortingColumn" 2 s.descending
  nulls_first ← required "SortingColumn" 3 s.nulls_first
  pure (record { column_idx = column_idx; descending = descending; nulls_first = nulls_first })

pub read_sorting_column : Reader SortingColumn
read_sorting_column = read_struct sorting_column_field no_sorting_column sorting_column_of

pub record RowGroup : Type 0 where
  pub columns : List ColumnChunk
  pub total_byte_size : ℕ
  pub num_rows : ℕ
  pub sorting_columns : Option (List SortingColumn)
  pub file_offset : Option ℕ
  pub total_compressed_size : Option ℕ
  pub ordinal : Option ℕ

pub record RowGroupFields : Type 0 where
  pub columns : Option (List ColumnChunk)
  pub total_byte_size : Option ℕ
  pub num_rows : Option ℕ
  pub sorting_columns : Option (List SortingColumn)
  pub file_offset : Option ℕ
  pub total_compressed_size : Option ℕ
  pub ordinal : Option ℕ

abbrev pub no_row_group : RowGroupFields
no_row_group = record {
  columns = none;
  total_byte_size = none;
  num_rows = none;
  sorting_columns = none;
  file_offset = none;
  total_compressed_size = none;
  ordinal = none;
}

unfoldable pub row_group_field :
    ⦃layout : Layout⦄ → FieldHeader → RowGroupFields → Reader RowGroupFields
row_group_field ⦃layout⦄ h s =
    if is_field h 1 list_of
    then (do
      v ← read_list_struct layout.column_chunk read_column_chunk
      pure (record s { columns = some v }))
    else if is_field h 2 i64
    then (do v ← read_zigzag_i64; pure (record s { total_byte_size = some v }))
    else if is_field h 3 i64
    then (do v ← read_zigzag_i64; pure (record s { num_rows = some v }))
    else if is_field h 4 list_of
    then (do
      v ← read_list_struct layout.sorting_column read_sorting_column
      pure (record s { sorting_columns = some v }))
    else if is_field h 5 i64
    then (do v ← read_zigzag_i64; pure (record s { file_offset = some v }))
    else if is_field h 6 i64
    then (do v ← read_zigzag_i64; pure (record s { total_compressed_size = some v }))
    else if is_field h 7 i16
    then (do v ← read_zigzag_i16; pure (record s { ordinal = some v }))
    else unknown "RowGroup" h.id

unfoldable pub row_group_of : RowGroupFields → Reader RowGroup
row_group_of s = do
  columns ← required "RowGroup" 1 s.columns
  total_byte_size ← required "RowGroup" 2 s.total_byte_size
  num_rows ← required "RowGroup" 3 s.num_rows
  pure (record {
    columns = columns;
    total_byte_size = total_byte_size;
    num_rows = num_rows;
    sorting_columns = s.sorting_columns;
    file_offset = s.file_offset;
    total_compressed_size = s.total_compressed_size;
    ordinal = s.ordinal;
  })

unfoldable pub read_row_group : ⦃layout : Layout⦄ → Reader RowGroup
read_row_group = read_struct row_group_field no_row_group row_group_of

pub data ColumnOrder : Type 0 where
  type_defined_order : ColumnOrder

pub column_order_field : FieldHeader → Option ColumnOrder → Reader (Option ColumnOrder)
column_order_field h s =
    if is_field h 1 struct
    then (do _ ← read_empty_struct "TypeDefinedOrder"; pure (some ColumnOrder.type_defined_order))
    else unknown "ColumnOrder" h.id

pub read_column_order : Reader ColumnOrder
read_column_order = read_struct column_order_field none (chosen_of "ColumnOrder")

pub record FileMetaData : Type 0 where
  pub version : ℕ
  pub schema : List SchemaElement
  pub num_rows : ℕ
  pub row_groups : List RowGroup
  pub key_value_metadata : Option (List KeyValue)
  pub created_by : Option (List ℕ)
  pub column_orders : Option (List ColumnOrder)
  pub encryption_algorithm : Option EncryptionAlgorithm
  pub footer_signing_key_metadata : Option (List ℕ)

pub record FileMetaDataFields : Type 0 where
  pub version : Option ℕ
  pub schema : Option (List SchemaElement)
  pub num_rows : Option ℕ
  pub row_groups : Option (List RowGroup)
  pub key_value_metadata : Option (List KeyValue)
  pub created_by : Option (List ℕ)
  pub column_orders : Option (List ColumnOrder)
  pub encryption_algorithm : Option EncryptionAlgorithm
  pub footer_signing_key_metadata : Option (List ℕ)

abbrev pub no_file_metadata : FileMetaDataFields
no_file_metadata = record {
  version = none;
  schema = none;
  num_rows = none;
  row_groups = none;
  key_value_metadata = none;
  created_by = none;
  column_orders = none;
  encryption_algorithm = none;
  footer_signing_key_metadata = none;
}

unfoldable pub file_metadata_field :
    ⦃layout : Layout⦄ → FieldHeader → FileMetaDataFields → Reader FileMetaDataFields
file_metadata_field ⦃layout⦄ h s =
    if is_field h 1 i32
    then (do v ← read_zigzag_i32; pure (record s { version = some v }))
    else if is_field h 2 list_of
    then (do
      v ← read_list_struct layout.schema_element read_schema_element
      pure (record s { schema = some v }))
    else if is_field h 3 i64
    then (do v ← read_zigzag_i64; pure (record s { num_rows = some v }))
    else if is_field h 4 list_of
    then (do
      v ← read_list_struct layout.row_group read_row_group
      pure (record s { row_groups = some v }))
    else if is_field h 5 list_of
    then (do
      v ← read_list_struct layout.key_value read_key_value
      pure (record s { key_value_metadata = some v }))
    else if is_field h 6 binary
    then (do v ← read_binary; pure (record s { created_by = some v }))
    else if is_field h 7 list_of
    then (do
      v ← read_list_struct layout.column_order read_column_order
      pure (record s { column_orders = some v }))
    else if is_field h 8 struct
    then (do v ← read_encryption_algorithm; pure (record s { encryption_algorithm = some v }))
    else if is_field h 9 binary
    then (do v ← read_binary; pure (record s { footer_signing_key_metadata = some v }))
    else unknown "FileMetaData" h.id

unfoldable pub file_metadata_of : FileMetaDataFields → Reader FileMetaData
file_metadata_of s = do
  version ← required "FileMetaData" 1 s.version
  schema ← required "FileMetaData" 2 s.schema
  num_rows ← required "FileMetaData" 3 s.num_rows
  row_groups ← required "FileMetaData" 4 s.row_groups
  pure (record {
    version = version;
    schema = schema;
    num_rows = num_rows;
    row_groups = row_groups;
    key_value_metadata = s.key_value_metadata;
    created_by = s.created_by;
    column_orders = s.column_orders;
    encryption_algorithm = s.encryption_algorithm;
    footer_signing_key_metadata = s.footer_signing_key_metadata;
  })

unfoldable pub read_file_metadata : ⦃layout : Layout⦄ → Reader FileMetaData
read_file_metadata = read_struct file_metadata_field no_file_metadata file_metadata_of
