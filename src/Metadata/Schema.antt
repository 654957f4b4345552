-- ===== src/Metadata/Schema.antt =====
-- crates/ematix-parquet-format/src/metadata.rs: the elements of the schema. Of each struct `x`,
-- `x_field` is the body of its loop and `x_of` the struct made of the fields in the end.
pub mod Safety
use ematix_parquet.Base.{ℕ, if◌then◌else◌, Option, none, some, List}
use ematix_parquet.Compact.{
  ◌>>=◌, FieldHeader, Reader, pure, i32, binary, struct, read_zigzag_i32, read_binary,
}
use ematix_parquet.Types.{
  ParquetType, FieldRepetitionType, ConvertedType, read_parquet_type, read_repetition_type,
  read_converted_type,
}
use ematix_parquet.Metadata.{unknown, required, is_field, read_struct}
use ematix_parquet.Metadata.Logical.{LogicalType, read_logical_type}

pub record SchemaElement : Type 0 where
  pub column_type : Option ParquetType
  pub type_length : Option ℕ
  pub repetition_type : Option FieldRepetitionType
  pub name : List ℕ
  pub num_children : Option ℕ
  pub converted_type : Option ConvertedType
  pub scale : Option ℕ
  pub precision : Option ℕ
  pub field_id : Option ℕ
  pub logical_type : Option LogicalType

pub record SchemaElementFields : Type 0 where
  pub column_type : Option ParquetType
  pub type_length : Option ℕ
  pub repetition_type : Option FieldRepetitionType
  pub name : Option (List ℕ)
  pub num_children : Option ℕ
  pub converted_type : Option ConvertedType
  pub scale : Option ℕ
  pub precision : Option ℕ
  pub field_id : Option ℕ
  pub logical_type : Option LogicalType

abbrev pub no_schema_element : SchemaElementFields
no_schema_element = record {
  column_type = none;
  type_length = none;
  repetition_type = none;
  name = none;
  num_children = none;
  converted_type = none;
  scale = none;
  precision = none;
  field_id = none;
  logical_type = none;
}

unfoldable pub schema_element_field : FieldHeader → SchemaElementFields → Reader SchemaElementFields
schema_element_field h s =
    if is_field h 1 i32
    then (do v ← read_parquet_type; pure (record s { column_type = some v }))
    else if is_field h 2 i32
    then (do v ← read_zigzag_i32; pure (record s { type_length = some v }))
    else if is_field h 3 i32
    then (do v ← read_repetition_type; pure (record s { repetition_type = some v }))
    else if is_field h 4 binary
    then (do v ← read_binary; pure (record s { name = some v }))
    else if is_field h 5 i32
    then (do v ← read_zigzag_i32; pure (record s { num_children = some v }))
    else if is_field h 6 i32
    then (do v ← read_converted_type; pure (record s { converted_type = some v }))
    else if is_field h 7 i32
    then (do v ← read_zigzag_i32; pure (record s { scale = some v }))
    else if is_field h 8 i32
    then (do v ← read_zigzag_i32; pure (record s { precision = some v }))
    else if is_field h 9 i32
    then (do v ← read_zigzag_i32; pure (record s { field_id = some v }))
    else if is_field h 10 struct
    then (do v ← read_logical_type; pure (record s { logical_type = some v }))
    else unknown "SchemaElement" h.id

unfoldable pub schema_element_of : SchemaElementFields → Reader SchemaElement
schema_element_of s = do
  name ← required "SchemaElement" 4 s.name
  pure (record {
    column_type = s.column_type;
    type_length = s.type_length;
    repetition_type = s.repetition_type;
    name = name;
    num_children = s.num_children;
    converted_type = s.converted_type;
    scale = s.scale;
    precision = s.precision;
    field_id = s.field_id;
    logical_type = s.logical_type;
  })

unfoldable pub read_schema_element : Reader SchemaElement
read_schema_element = read_struct schema_element_field no_schema_element schema_element_of
