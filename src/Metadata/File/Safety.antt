-- ===== src/Metadata/File/Safety.antt =====
-- The readers of row groups and the footer, on any bytes.
use ematix_parquet.Metadata.{Layout}
use ematix_parquet.Base.{true, Option, none}
use ematix_parquet.Compact.{FieldHeader}
use ematix_parquet.Metadata.Safety.{
  IsSafe, arms, chosen_of-IsSafe, read_struct-IsSafe, empty_struct-IsSafe,
}
use ematix_parquet.Metadata.File.{
  SortingColumnFields, sorting_column_field, read_sorting_column, no_sorting_column,
  sorting_column_of, RowGroupFields, row_group_field, read_row_group, no_row_group, row_group_of,
  ColumnOrder, column_order_field, read_column_order, FileMetaDataFields, file_metadata_field,
  read_file_metadata, no_file_metadata, file_metadata_of,
}
use ematix_parquet.Metadata.Schema.Safety.{schema_element-IsSafe}
use ematix_parquet.Metadata.Crypto.Safety.{encryption_algorithm-IsSafe}
use ematix_parquet.Metadata.Chunk.Safety.{column_chunk-IsSafe}
use ematix_parquet.Metadata.Statistics.Safety.{key_value-IsSafe}

sorting_column_field-IsSafe :
    (h : FieldHeader) (s : SortingColumnFields) → IsSafe true (sorting_column_field h s)
unfolding sorting_column_field
sorting_column_field-IsSafe h s = search (arms) depth 10

sorting_column_of-IsSafe : (s : SortingColumnFields) → IsSafe true (sorting_column_of s)
unfolding sorting_column_of
sorting_column_of-IsSafe s = search arms depth 6

pub sorting_column-IsSafe : IsSafe true read_sorting_column
unfolding read_sorting_column
sorting_column-IsSafe =
    read_struct-IsSafe sorting_column_field sorting_column_field-IsSafe no_sorting_column _
      sorting_column_of-IsSafe

row_group_field-IsSafe :
    ⦃layout : Layout⦄ (h : FieldHeader) (s : RowGroupFields) → IsSafe true (row_group_field h s)
unfolding row_group_field
row_group_field-IsSafe h s = search (arms, column_chunk-IsSafe, sorting_column-IsSafe) depth 12

row_group_of-IsSafe : (s : RowGroupFields) → IsSafe true (row_group_of s)
unfolding row_group_of
row_group_of-IsSafe s = search arms depth 6

pub row_group-IsSafe : ⦃layout : Layout⦄ → IsSafe true read_row_group
unfolding read_row_group
row_group-IsSafe =
    read_struct-IsSafe row_group_field row_group_field-IsSafe no_row_group _ row_group_of-IsSafe

column_order_field-IsSafe :
    (h : FieldHeader) (s : Option ColumnOrder) → IsSafe true (column_order_field h s)
unfolding column_order_field
column_order_field-IsSafe h s = search (arms, empty_struct-IsSafe) depth 6

pub column_order-IsSafe : IsSafe true read_column_order
unfolding read_column_order
column_order-IsSafe =
    read_struct-IsSafe column_order_field column_order_field-IsSafe none _
      (chosen_of-IsSafe "ColumnOrder")

file_metadata_field-IsSafe :
    ⦃layout : Layout⦄ (h : FieldHeader) (s : FileMetaDataFields)
    → IsSafe true (file_metadata_field h s)
unfolding file_metadata_field
file_metadata_field-IsSafe h s =
    search
      (
        arms, schema_element-IsSafe, row_group-IsSafe, key_value-IsSafe, column_order-IsSafe,
        encryption_algorithm-IsSafe,
      )
      depth 14

file_metadata_of-IsSafe : (s : FileMetaDataFields) → IsSafe true (file_metadata_of s)
unfolding file_metadata_of
file_metadata_of-IsSafe s = search arms depth 7

pub file_metadata-IsSafe : ⦃layout : Layout⦄ → IsSafe true read_file_metadata
unfolding read_file_metadata
file_metadata-IsSafe =
    read_struct-IsSafe file_metadata_field file_metadata_field-IsSafe no_file_metadata _
      file_metadata_of-IsSafe
