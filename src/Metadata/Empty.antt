-- ===== src/Metadata/Empty.antt =====
-- A struct without fields is its stop byte.
use Prim.Native.String.{String}
use ematix_parquet.Base.{[], ◌∷◌, none}
use ematix_parquet.Compact.{read_field_header}
use ematix_parquet.Compact.At.{Reads, Reads-bind, Reads-pure}
use ematix_parquet.Compact.Headers.{field_stop-Reads}
use ematix_parquet.Metadata.{read_empty_struct}

pub read_empty_struct-Reads :
    (name : String) (t : Unit {0}) → Reads (read_empty_struct name) (0x00 ∷ []) t
unfolding read_empty_struct
read_empty_struct-Reads name t =
    Reads-bind (read_field_header 0) _ (0x00 ∷ []) [] none t (field_stop-Reads 0) (Reads-pure t)
