-- ===== src/Types.antt =====
-- crates/ematix-parquet-format/src/types.rs: the enumerations of i32 values. What the macro
-- `thrift_enum!` makes of each: its codes, `from_i32` on bit patterns, and `read`.
pub mod Codes
pub mod Safety
pub mod Members
pub mod Tests
use ematix_parquet.Base.{ℕ, ◌==◌, if◌then◌else◌, Result, ok, err}
use ematix_parquet.Compact.{
  ◌>>=◌, FormatError, invalid_enum_value, Reader, from_result, read_zigzag_i32,
}

pub data ParquetType : Type 0 where
  boolean int32 int64 int96 float double byte_array fixed_len_byte_array : ParquetType

abbrev pub parquet_type_code : ParquetType → ℕ
parquet_type_code ParquetType.boolean = 0
parquet_type_code ParquetType.int32 = 1
parquet_type_code ParquetType.int64 = 2
parquet_type_code ParquetType.int96 = 3
parquet_type_code ParquetType.float = 4
parquet_type_code ParquetType.double = 5
parquet_type_code ParquetType.byte_array = 6
parquet_type_code ParquetType.fixed_len_byte_array = 7

pub parquet_type_from_i32 : ℕ → Result FormatError ParquetType
parquet_type_from_i32 value =
    if value == 0
    then ok ParquetType.boolean
    else if value == 1
    then ok ParquetType.int32
    else if value == 2
    then ok ParquetType.int64
    else if value == 3
    then ok ParquetType.int96
    else if value == 4
    then ok ParquetType.float
    else if value == 5
    then ok ParquetType.double
    else if value == 6
    then ok ParquetType.byte_array
    else if value == 7
    then ok ParquetType.fixed_len_byte_array
    else err (invalid_enum_value "ParquetType" value)

pub read_parquet_type : Reader ParquetType
read_parquet_type = do v ← read_zigzag_i32; from_result (parquet_type_from_i32 v)

pub data Encoding : Type 0 where
  plain plain_dictionary rle bit_packed delta_binary_packed delta_length_byte_array delta_byte_array
        rle_dictionary byte_stream_split :
      Encoding

abbrev pub encoding_code : Encoding → ℕ
encoding_code Encoding.plain = 0
encoding_code Encoding.plain_dictionary = 2
encoding_code Encoding.rle = 3
encoding_code Encoding.bit_packed = 4
encoding_code Encoding.delta_binary_packed = 5
encoding_code Encoding.delta_length_byte_array = 6
encoding_code Encoding.delta_byte_array = 7
encoding_code Encoding.rle_dictionary = 8
encoding_code Encoding.byte_stream_split = 9

pub encoding_from_i32 : ℕ → Result FormatError Encoding
encoding_from_i32 value =
    if value == 0
    then ok Encoding.plain
    else if value == 2
    then ok Encoding.plain_dictionary
    else if value == 3
    then ok Encoding.rle
    else if value == 4
    then ok Encoding.bit_packed
    else if value == 5
    then ok Encoding.delta_binary_packed
    else if value == 6
    then ok Encoding.delta_length_byte_array
    else if value == 7
    then ok Encoding.delta_byte_array
    else if value == 8
    then ok Encoding.rle_dictionary
    else if value == 9
    then ok Encoding.byte_stream_split
    else err (invalid_enum_value "Encoding" value)

pub read_encoding : Reader Encoding
read_encoding = do v ← read_zigzag_i32; from_result (encoding_from_i32 v)

pub data CompressionCodec : Type 0 where
  uncompressed snappy gzip lzo brotli lz4 zstd lz4_raw : CompressionCodec

abbrev pub codec_code : CompressionCodec → ℕ
codec_code CompressionCodec.uncompressed = 0
codec_code CompressionCodec.snappy = 1
codec_code CompressionCodec.gzip = 2
codec_code CompressionCodec.lzo = 3
codec_code CompressionCodec.brotli = 4
codec_code CompressionCodec.lz4 = 5
codec_code CompressionCodec.zstd = 6
codec_code CompressionCodec.lz4_raw = 7

pub codec_from_i32 : ℕ → Result FormatError CompressionCodec
codec_from_i32 value =
    if value == 0
    then ok CompressionCodec.uncompressed
    else if value == 1
    then ok CompressionCodec.snappy
    else if value == 2
    then ok CompressionCodec.gzip
    else if value == 3
    then ok CompressionCodec.lzo
    else if value == 4
    then ok CompressionCodec.brotli
    else if value == 5
    then ok CompressionCodec.lz4
    else if value == 6
    then ok CompressionCodec.zstd
    else if value == 7
    then ok CompressionCodec.lz4_raw
    else err (invalid_enum_value "CompressionCodec" value)

pub read_codec : Reader CompressionCodec
read_codec = do v ← read_zigzag_i32; from_result (codec_from_i32 v)

pub data PageType : Type 0 where
  data_page index_page dictionary_page data_page_v2 : PageType

abbrev pub page_type_code : PageType → ℕ
page_type_code PageType.data_page = 0
page_type_code PageType.index_page = 1
page_type_code PageType.dictionary_page = 2
page_type_code PageType.data_page_v2 = 3

pub page_type_from_i32 : ℕ → Result FormatError PageType
page_type_from_i32 value =
    if value == 0
    then ok PageType.data_page
    else if value == 1
    then ok PageType.index_page
    else if value == 2
    then ok PageType.dictionary_page
    else if value == 3
    then ok PageType.data_page_v2
    else err (invalid_enum_value "PageType" value)

pub read_page_type : Reader PageType
read_page_type = do v ← read_zigzag_i32; from_result (page_type_from_i32 v)

pub data FieldRepetitionType : Type 0 where
  required optional repeated : FieldRepetitionType

abbrev pub repetition_type_code : FieldRepetitionType → ℕ
repetition_type_code FieldRepetitionType.required = 0
repetition_type_code FieldRepetitionType.optional = 1
repetition_type_code FieldRepetitionType.repeated = 2

pub repetition_type_from_i32 : ℕ → Result FormatError FieldRepetitionType
repetition_type_from_i32 value =
    if value == 0
    then ok FieldRepetitionType.required
    else if value == 1
    then ok FieldRepetitionType.optional
    else if value == 2
    then ok FieldRepetitionType.repeated
    else err (invalid_enum_value "FieldRepetitionType" value)

pub read_repetition_type : Reader FieldRepetitionType
read_repetition_type = do v ← read_zigzag_i32; from_result (repetition_type_from_i32 v)

pub data BoundaryOrder : Type 0 where
  unordered ascending descending : BoundaryOrder

abbrev pub boundary_order_code : BoundaryOrder → ℕ
boundary_order_code BoundaryOrder.unordered = 0
boundary_order_code BoundaryOrder.ascending = 1
boundary_order_code BoundaryOrder.descending = 2

pub boundary_order_from_i32 : ℕ → Result FormatError BoundaryOrder
boundary_order_from_i32 value =
    if value == 0
    then ok BoundaryOrder.unordered
    else if value == 1
    then ok BoundaryOrder.ascending
    else if value == 2
    then ok BoundaryOrder.descending
    else err (invalid_enum_value "BoundaryOrder" value)

pub read_boundary_order : Reader BoundaryOrder
read_boundary_order = do v ← read_zigzag_i32; from_result (boundary_order_from_i32 v)

pub data EdgeInterpolationAlgorithm : Type 0 where
  spherical vincenty thomas andoyer karney : EdgeInterpolationAlgorithm

abbrev pub algorithm_code : EdgeInterpolationAlgorithm → ℕ
algorithm_code EdgeInterpolationAlgorithm.spherical = 0
algorithm_code EdgeInterpolationAlgorithm.vincenty = 1
algorithm_code EdgeInterpolationAlgorithm.thomas = 2
algorithm_code EdgeInterpolationAlgorithm.andoyer = 3
algorithm_code EdgeInterpolationAlgorithm.karney = 4

pub algorithm_from_i32 : ℕ → Result FormatError EdgeInterpolationAlgorithm
algorithm_from_i32 value =
    if value == 0
    then ok EdgeInterpolationAlgorithm.spherical
    else if value == 1
    then ok EdgeInterpolationAlgorithm.vincenty
    else if value == 2
    then ok EdgeInterpolationAlgorithm.thomas
    else if value == 3
    then ok EdgeInterpolationAlgorithm.andoyer
    else if value == 4
    then ok EdgeInterpolationAlgorithm.karney
    else err (invalid_enum_value "EdgeInterpolationAlgorithm" value)

pub read_algorithm : Reader EdgeInterpolationAlgorithm
read_algorithm = do v ← read_zigzag_i32; from_result (algorithm_from_i32 v)

pub data ConvertedType : Type 0 where
  utf8 map_type map_key_value list_type enum_type decimal date time_millis time_micros
        timestamp_millis timestamp_micros uint8 uint16 uint32 uint64 int8 int16 int32 int64 json
        bson interval :
      ConvertedType

abbrev pub converted_type_code : ConvertedType → ℕ
converted_type_code ConvertedType.utf8 = 0
converted_type_code ConvertedType.map_type = 1
converted_type_code ConvertedType.map_key_value = 2
converted_type_code ConvertedType.list_type = 3
converted_type_code ConvertedType.enum_type = 4
converted_type_code ConvertedType.decimal = 5
converted_type_code ConvertedType.date = 6
converted_type_code ConvertedType.time_millis = 7
converted_type_code ConvertedType.time_micros = 8
converted_type_code ConvertedType.timestamp_millis = 9
converted_type_code ConvertedType.timestamp_micros = 10
converted_type_code ConvertedType.uint8 = 11
converted_type_code ConvertedType.uint16 = 12
converted_type_code ConvertedType.uint32 = 13
converted_type_code ConvertedType.uint64 = 14
converted_type_code ConvertedType.int8 = 15
converted_type_code ConvertedType.int16 = 16
converted_type_code ConvertedType.int32 = 17
converted_type_code ConvertedType.int64 = 18
converted_type_code ConvertedType.json = 19
converted_type_code ConvertedType.bson = 20
converted_type_code ConvertedType.interval = 21

pub converted_type_from_i32 : ℕ → Result FormatError ConvertedType
converted_type_from_i32 value =
    if value == 0
    then ok ConvertedType.utf8
    else if value == 1
    then ok ConvertedType.map_type
    else if value == 2
    then ok ConvertedType.map_key_value
    else if value == 3
    then ok ConvertedType.list_type
    else if value == 4
    then ok ConvertedType.enum_type
    else if value == 5
    then ok ConvertedType.decimal
    else if value == 6
    then ok ConvertedType.date
    else if value == 7
    then ok ConvertedType.time_millis
    else if value == 8
    then ok ConvertedType.time_micros
    else if value == 9
    then ok ConvertedType.timestamp_millis
    else if value == 10
    then ok ConvertedType.timestamp_micros
    else if value == 11
    then ok ConvertedType.uint8
    else if value == 12
    then ok ConvertedType.uint16
    else if value == 13
    then ok ConvertedType.uint32
    else if value == 14
    then ok ConvertedType.uint64
    else if value == 15
    then ok ConvertedType.int8
    else if value == 16
    then ok ConvertedType.int16
    else if value == 17
    then ok ConvertedType.int32
    else if value == 18
    then ok ConvertedType.int64
    else if value == 19
    then ok ConvertedType.json
    else if value == 20
    then ok ConvertedType.bson
    else if value == 21
    then ok ConvertedType.interval
    else err (invalid_enum_value "ConvertedType" value)

pub read_converted_type : Reader ConvertedType
read_converted_type = do v ← read_zigzag_i32; from_result (converted_type_from_i32 v)
