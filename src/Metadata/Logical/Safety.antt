-- ===== src/Metadata/Logical/Safety.antt =====
-- The readers of the payloads of the logical types and their union, on any bytes.
use ematix_parquet.Base.{Bool, Option, none}
use ematix_parquet.Compact.{FieldHeader}
use ematix_parquet.Metadata.Safety.{
  IsSafe, arms, pure-IsSafe, chosen_of-IsSafe, read_struct-IsSafe, empty_struct-IsSafe,
}
use ematix_parquet.Metadata.Logical.{
  DecimalTypeFields, decimal_type_field, read_decimal_type, no_decimal_type, decimal_type_of,
  IntTypeFields, int_type_field, read_int_type, no_int_type, int_type_of, TimeUnit, time_unit_field,
  read_time_unit, TimestampTypeFields, timestamp_type_field, read_timestamp_type, no_timestamp_type,
  timestamp_type_of, TimeTypeFields, time_type_field, read_time_type, no_time_type, time_type_of,
  VariantType, variant_type_field, read_variant_type, no_variant_type, GeometryType,
  geometry_type_field, read_geometry_type, no_geometry_type, GeographyType, geography_type_field,
  read_geography_type, no_geography_type, LogicalType, logical_type_field, read_logical_type,
}

decimal_type_field-IsSafe :
    {b : Bool} (h : FieldHeader) (s : DecimalTypeFields) → IsSafe b (decimal_type_field h s)
unfolding decimal_type_field
decimal_type_field-IsSafe h s = search (arms) depth 7

decimal_type_of-IsSafe : {b : Bool} (s : DecimalTypeFields) → IsSafe b (decimal_type_of s)
unfolding decimal_type_of
decimal_type_of-IsSafe s = search arms depth 5

pub decimal_type-IsSafe : {b : Bool} → IsSafe b read_decimal_type
unfolding read_decimal_type
decimal_type-IsSafe =
    read_struct-IsSafe decimal_type_field decimal_type_field-IsSafe no_decimal_type _
      decimal_type_of-IsSafe

int_type_field-IsSafe :
    {b : Bool} (h : FieldHeader) (s : IntTypeFields) → IsSafe b (int_type_field h s)
unfolding int_type_field
int_type_field-IsSafe h s = search (arms) depth 8

int_type_of-IsSafe : {b : Bool} (s : IntTypeFields) → IsSafe b (int_type_of s)
unfolding int_type_of
int_type_of-IsSafe s = search arms depth 5

pub int_type-IsSafe : {b : Bool} → IsSafe b read_int_type
unfolding read_int_type
int_type-IsSafe =
    read_struct-IsSafe int_type_field int_type_field-IsSafe no_int_type _ int_type_of-IsSafe

time_unit_field-IsSafe :
    {b : Bool} (h : FieldHeader) (s : Option TimeUnit) → IsSafe b (time_unit_field h s)
unfolding time_unit_field
time_unit_field-IsSafe h s = search (arms, empty_struct-IsSafe) depth 8

pub time_unit-IsSafe : {b : Bool} → IsSafe b read_time_unit
unfolding read_time_unit
time_unit-IsSafe =
    read_struct-IsSafe time_unit_field time_unit_field-IsSafe none _ (chosen_of-IsSafe "TimeUnit")

timestamp_type_field-IsSafe :
    {b : Bool} (h : FieldHeader) (s : TimestampTypeFields) → IsSafe b (timestamp_type_field h s)
unfolding timestamp_type_field
timestamp_type_field-IsSafe h s = search (arms, time_unit-IsSafe) depth 8

timestamp_type_of-IsSafe : {b : Bool} (s : TimestampTypeFields) → IsSafe b (timestamp_type_of s)
unfolding timestamp_type_of
timestamp_type_of-IsSafe s = search arms depth 5

pub timestamp_type-IsSafe : {b : Bool} → IsSafe b read_timestamp_type
unfolding read_timestamp_type
timestamp_type-IsSafe =
    read_struct-IsSafe timestamp_type_field timestamp_type_field-IsSafe no_timestamp_type _
      timestamp_type_of-IsSafe

time_type_field-IsSafe :
    {b : Bool} (h : FieldHeader) (s : TimeTypeFields) → IsSafe b (time_type_field h s)
unfolding time_type_field
time_type_field-IsSafe h s = search (arms, time_unit-IsSafe) depth 8

time_type_of-IsSafe : {b : Bool} (s : TimeTypeFields) → IsSafe b (time_type_of s)
unfolding time_type_of
time_type_of-IsSafe s = search arms depth 5

pub time_type-IsSafe : {b : Bool} → IsSafe b read_time_type
unfolding read_time_type
time_type-IsSafe =
    read_struct-IsSafe time_type_field time_type_field-IsSafe no_time_type _ time_type_of-IsSafe

variant_type_field-IsSafe :
    {b : Bool} (h : FieldHeader) (s : VariantType) → IsSafe b (variant_type_field h s)
unfolding variant_type_field
variant_type_field-IsSafe h s = search (arms) depth 6

pub variant_type-IsSafe : {b : Bool} → IsSafe b read_variant_type
unfolding read_variant_type
variant_type-IsSafe =
    read_struct-IsSafe variant_type_field variant_type_field-IsSafe no_variant_type _ pure-IsSafe

geometry_type_field-IsSafe :
    {b : Bool} (h : FieldHeader) (s : GeometryType) → IsSafe b (geometry_type_field h s)
unfolding geometry_type_field
geometry_type_field-IsSafe h s = search (arms) depth 6

pub geometry_type-IsSafe : {b : Bool} → IsSafe b read_geometry_type
unfolding read_geometry_type
geometry_type-IsSafe =
    read_struct-IsSafe geometry_type_field geometry_type_field-IsSafe no_geometry_type _ pure-IsSafe

geography_type_field-IsSafe :
    {b : Bool} (h : FieldHeader) (s : GeographyType) → IsSafe b (geography_type_field h s)
unfolding geography_type_field
geography_type_field-IsSafe h s = search (arms) depth 7

pub geography_type-IsSafe : {b : Bool} → IsSafe b read_geography_type
unfolding read_geography_type
geography_type-IsSafe =
    read_struct-IsSafe geography_type_field geography_type_field-IsSafe no_geography_type _
      pure-IsSafe

logical_type_field-IsSafe :
    {b : Bool} (h : FieldHeader) (s : Option LogicalType) → IsSafe b (logical_type_field h s)
unfolding logical_type_field
logical_type_field-IsSafe h s =
    search
      (
        arms, empty_struct-IsSafe, decimal_type-IsSafe, time_type-IsSafe, timestamp_type-IsSafe,
        int_type-IsSafe, variant_type-IsSafe, geometry_type-IsSafe, geography_type-IsSafe,
      )
      depth 22

pub logical_type-IsSafe : {b : Bool} → IsSafe b read_logical_type
unfolding read_logical_type
logical_type-IsSafe =
    read_struct-IsSafe logical_type_field logical_type_field-IsSafe none _
      (chosen_of-IsSafe "LogicalType")
