-- ===== src/Metadata/Schema/Safety.antt =====
-- The readers of the elements of the schema, on any bytes.
use ematix_parquet.Base.{Bool}
use ematix_parquet.Compact.{FieldHeader}
use ematix_parquet.Metadata.Safety.{IsSafe, arms, read_struct-IsSafe}
use ematix_parquet.Metadata.Schema.{
  SchemaElementFields, schema_element_field, read_schema_element, no_schema_element,
  schema_element_of,
}
use ematix_parquet.Metadata.Logical.Safety.{logical_type-IsSafe}

schema_element_field-IsSafe :
    {b : Bool} (h : FieldHeader) (s : SchemaElementFields) → IsSafe b (schema_element_field h s)
unfolding schema_element_field
schema_element_field-IsSafe h s = search (arms, logical_type-IsSafe) depth 15

schema_element_of-IsSafe : {b : Bool} (s : SchemaElementFields) → IsSafe b (schema_element_of s)
unfolding schema_element_of
schema_element_of-IsSafe s = search arms depth 4

pub schema_element-IsSafe : {b : Bool} → IsSafe b read_schema_element
unfolding read_schema_element
schema_element-IsSafe =
    read_struct-IsSafe schema_element_field schema_element_field-IsSafe no_schema_element _
      schema_element_of-IsSafe
