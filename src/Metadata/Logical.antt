-- ===== src/Metadata/Logical.antt =====
-- crates/ematix-parquet-format/src/metadata.rs: the payloads of the logical types and their union.
-- Of each struct `x`, `x_field` is the body of its loop and `x_of` the struct made of the fields in
-- the end.
pub mod Safety
use ematix_parquet.Base.{ℕ, if◌then◌else◌, Bool, true, false, Option, none, some, List}
use ematix_parquet.Compact.{
  ◌>>=◌, FieldHeader, Reader, pure, bool_true, bool_false, byte, i32, binary, struct, read_i8,
  read_zigzag_i32, read_binary,
}
use ematix_parquet.Types.{EdgeInterpolationAlgorithm, read_algorithm}
use ematix_parquet.Metadata.{unknown, required, chosen_of, is_field, read_struct, read_empty_struct}

pub record DecimalType : Type 0 where
  pub scale : ℕ
  pub precision : ℕ

pub record DecimalTypeFields : Type 0 where
  pub scale : Option ℕ
  pub precision : Option ℕ

abbrev pub no_decimal_type : DecimalTypeFields
no_decimal_type = record { scale = none; precision = none }

pub decimal_type_field : FieldHeader → DecimalTypeFields → Reader DecimalTypeFields
decimal_type_field h s =
    if is_field h 1 i32
    then (do v ← read_zigzag_i32; pure (record s { scale = some v }))
    else if is_field h 2 i32
    then (do v ← read_zigzag_i32; pure (record s { precision = some v }))
    else unknown "DecimalType" h.id

pub decimal_type_of : DecimalTypeFields → Reader DecimalType
decimal_type_of s = do
  scale ← required "DecimalType" 1 s.scale
  precision ← required "DecimalType" 2 s.precision
  pure (record { scale = scale; precision = precision })

pub read_decimal_type : Reader DecimalType
read_decimal_type = read_struct decimal_type_field no_decimal_type decimal_type_of

pub record IntType : Type 0 where
  pub bit_width : ℕ
  pub is_signed : Bool

pub record IntTypeFields : Type 0 where
  pub bit_width : Option ℕ
  pub is_signed : Option Bool

abbrev pub no_int_type : IntTypeFields
no_int_type = record { bit_width = none; is_signed = none }

pub int_type_field : FieldHeader → IntTypeFields → Reader IntTypeFields
int_type_field h s =
    if is_field h 1 byte
    then (do v ← read_i8; pure (record s { bit_width = some v }))
    else if is_field h 2 bool_true
    then pure (record s { is_signed = some true })
    else if is_field h 2 bool_false
    then pure (record s { is_signed = some false })
    else unknown "IntType" h.id

pub int_type_of : IntTypeFields → Reader IntType
int_type_of s = do
  bit_width ← required "IntType" 1 s.bit_width
  is_signed ← required "IntType" 2 s.is_signed
  pure (record { bit_width = bit_width; is_signed = is_signed })

pub read_int_type : Reader IntType
read_int_type = read_struct int_type_field no_int_type int_type_of

pub data TimeUnit : Type 0 where
  millis : TimeUnit
  micros : TimeUnit
  nanos : TimeUnit

pub time_unit_field : FieldHeader → Option TimeUnit → Reader (Option TimeUnit)
time_unit_field h s =
    if is_field h 1 struct
    then (do _ ← read_empty_struct "MilliSeconds"; pure (some TimeUnit.millis))
    else if is_field h 2 struct
    then (do _ ← read_empty_struct "MicroSeconds"; pure (some TimeUnit.micros))
    else if is_field h 3 struct
    then (do _ ← read_empty_struct "NanoSeconds"; pure (some TimeUnit.nanos))
    else unknown "TimeUnit" h.id

pub read_time_unit : Reader TimeUnit
read_time_unit = read_struct time_unit_field none (chosen_of "TimeUnit")

pub record TimestampType : Type 0 where
  pub is_adjusted_to_utc : Bool
  pub unit : TimeUnit

pub record TimestampTypeFields : Type 0 where
  pub is_adjusted_to_utc : Option Bool
  pub unit : Option TimeUnit

abbrev pub no_timestamp_type : TimestampTypeFields
no_timestamp_type = record { is_adjusted_to_utc = none; unit = none }

pub timestamp_type_field : FieldHeader → TimestampTypeFields → Reader TimestampTypeFields
timestamp_type_field h s =
    if is_field h 1 bool_true
    then pure (record s { is_adjusted_to_utc = some true })
    else if is_field h 1 bool_false
    then pure (record s { is_adjusted_to_utc = some false })
    else if is_field h 2 struct
    then (do v ← read_time_unit; pure (record s { unit = some v }))
    else unknown "TimestampType" h.id

pub timestamp_type_of : TimestampTypeFields → Reader TimestampType
timestamp_type_of s = do
  is_adjusted_to_utc ← required "TimestampType" 1 s.is_adjusted_to_utc
  unit ← required "TimestampType" 2 s.unit
  pure (record { is_adjusted_to_utc = is_adjusted_to_utc; unit = unit })

pub read_timestamp_type : Reader TimestampType
read_timestamp_type = read_struct timestamp_type_field no_timestamp_type timestamp_type_of

pub record TimeType : Type 0 where
  pub is_adjusted_to_utc : Bool
  pub unit : TimeUnit

pub record TimeTypeFields : Type 0 where
  pub is_adjusted_to_utc : Option Bool
  pub unit : Option TimeUnit

abbrev pub no_time_type : TimeTypeFields
no_time_type = record { is_adjusted_to_utc = none; unit = none }

pub time_type_field : FieldHeader → TimeTypeFields → Reader TimeTypeFields
time_type_field h s =
    if is_field h 1 bool_true
    then pure (record s { is_adjusted_to_utc = some true })
    else if is_field h 1 bool_false
    then pure (record s { is_adjusted_to_utc = some false })
    else if is_field h 2 struct
    then (do v ← read_time_unit; pure (record s { unit = some v }))
    else unknown "TimeType" h.id

pub time_type_of : TimeTypeFields → Reader TimeType
time_type_of s = do
  is_adjusted_to_utc ← required "TimeType" 1 s.is_adjusted_to_utc
  unit ← required "TimeType" 2 s.unit
  pure (record { is_adjusted_to_utc = is_adjusted_to_utc; unit = unit })

pub read_time_type : Reader TimeType
read_time_type = read_struct time_type_field no_time_type time_type_of

pub record VariantType : Type 0 where
  pub specification_version : Option ℕ

abbrev pub no_variant_type : VariantType
no_variant_type = record { specification_version = none }

pub variant_type_field : FieldHeader → VariantType → Reader VariantType
variant_type_field h s =
    if is_field h 1 byte
    then (do v ← read_i8; pure (record s { specification_version = some v }))
    else unknown "VariantType" h.id

pub read_variant_type : Reader VariantType
read_variant_type = read_struct variant_type_field no_variant_type pure

pub record GeometryType : Type 0 where
  pub crs : Option (List ℕ)

abbrev pub no_geometry_type : GeometryType
no_geometry_type = record { crs = none }

pub geometry_type_field : FieldHeader → GeometryType → Reader GeometryType
geometry_type_field h s =
    if is_field h 1 binary
    then (do v ← read_binary; pure (record s { crs = some v }))
    else unknown "GeometryType" h.id

pub read_geometry_type : Reader GeometryType
read_geometry_type = read_struct geometry_type_field no_geometry_type pure

pub record GeographyType : Type 0 where
  pub crs : Option (List ℕ)
  pub algorithm : Option EdgeInterpolationAlgorithm

abbrev pub no_geography_type : GeographyType
no_geography_type = record { crs = none; algorithm = none }

pub geography_type_field : FieldHeader → GeographyType → Reader GeographyType
geography_type_field h s =
    if is_field h 1 binary
    then (do v ← read_binary; pure (record s { crs = some v }))
    else if is_field h 2 i32
    then (do v ← read_algorithm; pure (record s { algorithm = some v }))
    else unknown "GeographyType" h.id

pub read_geography_type : Reader GeographyType
read_geography_type = read_struct geography_type_field no_geography_type pure

pub data LogicalType : Type 0 where
  string_type : LogicalType
  map_type : LogicalType
  list_type : LogicalType
  enum_type : LogicalType
  decimal : DecimalType → LogicalType
  date : LogicalType
  time : TimeType → LogicalType
  timestamp : TimestampType → LogicalType
  integer : IntType → LogicalType
  null : LogicalType
  json : LogicalType
  bson : LogicalType
  uuid : LogicalType
  float16 : LogicalType
  variant : VariantType → LogicalType
  geometry : GeometryType → LogicalType
  geography : GeographyType → LogicalType

pub logical_type_field : FieldHeader → Option LogicalType → Reader (Option LogicalType)
logical_type_field h s =
    if is_field h 1 struct
    then (do _ ← read_empty_struct "StringType"; pure (some LogicalType.string_type))
    else if is_field h 2 struct
    then (do _ ← read_empty_struct "MapType"; pure (some LogicalType.map_type))
    else if is_field h 3 struct
    then (do _ ← read_empty_struct "ListType"; pure (some LogicalType.list_type))
    else if is_field h 4 struct
    then (do _ ← read_empty_struct "EnumType"; pure (some LogicalType.enum_type))
    else if is_field h 5 struct
    then (do v ← read_decimal_type; pure (some (LogicalType.decimal v)))
    else if is_field h 6 struct
    then (do _ ← read_empty_struct "DateType"; pure (some LogicalType.date))
    else if is_field h 7 struct
    then (do v ← read_time_type; pure (some (LogicalType.time v)))
    else if is_field h 8 struct
    then (do v ← read_timestamp_type; pure (some (LogicalType.timestamp v)))
    else if is_field h 10 struct
    then (do v ← read_int_type; pure (some (LogicalType.integer v)))
    else if is_field h 11 struct
    then (do _ ← read_empty_struct "NullType"; pure (some LogicalType.null))
    else if is_field h 12 struct
    then (do _ ← read_empty_struct "JsonType"; pure (some LogicalType.json))
    else if is_field h 13 struct
    then (do _ ← read_empty_struct "BsonType"; pure (some LogicalType.bson))
    else if is_field h 14 struct
    then (do _ ← read_empty_struct "UUIDType"; pure (some LogicalType.uuid))
    else if is_field h 15 struct
    then (do _ ← read_empty_struct "Float16Type"; pure (some LogicalType.float16))
    else if is_field h 16 struct
    then (do v ← read_variant_type; pure (some (LogicalType.variant v)))
    else if is_field h 17 struct
    then (do v ← read_geometry_type; pure (some (LogicalType.geometry v)))
    else if is_field h 18 struct
    then (do v ← read_geography_type; pure (some (LogicalType.geography v)))
    else unknown "LogicalType" h.id

pub read_logical_type : Reader LogicalType
read_logical_type = read_struct logical_type_field none (chosen_of "LogicalType")
