-- ===== src/Lib.antt =====
-- Verification of ematix-parquet, a reader and writer of Parquet files in Rust.
--
-- The program's crates: ematix-parquet-format has the Thrift compact protocol and the file's metadata,
-- ematix-parquet-codec the encodings of pages, ematix-parquet-io the files, and others the encryption,
-- the asynchronous reader and the Iceberg extension. A page's body is bytes of one of the encodings;
-- its header and the file's footer are structs of the compact protocol. What is modelled:
--
-- - Compact.antt: crates/ematix-parquet-format/src/compact.rs and error.rs. `Cursor` is the source's
--   record; each `read_...` has the source's name and takes the cursor to a result, with the moved
--   cursor in a success. `take_bytes` is `Cursor::take`. `uvarint_rounds` is the loop of `read_uvarint`,
--   ten rounds as in the source. `with_capacity` is the
--   allocation that the readers of lists of booleans and of structs make before the first element.
-- - CompactWriter.antt: crates/ematix-parquet-format/src/compact_writer.rs. A `Writer` is its buffer;
--   each `write_...` takes it to the grown one. `CompactWriter.uvarint_loop` recurs on the accessibility
--   of the number, so no bound is chosen.
-- - Types.antt: crates/ematix-parquet-format/src/types.rs. Of each enumeration, `x_code` is `x as i32`,
--   `x_from_i32` is `from_i32` and `read_x` is `read`.
-- - Metadata.antt: crates/ematix-parquet-format/src/metadata.rs, one child for each group of structs:
--   Statistics, Page, Logical, Schema, Index, Crypto, Chunk and File. `read_struct` is the loop over
--   the field headers that every reader has; of the reader `read_x`, `x_field` is the match in that
--   loop, `XFields` the local variables and `x_of` the struct that is made of them in the end.
-- - MetadataWriter.antt: crates/ematix-parquet-format/src/metadata_writer.rs, with the children Page,
--   Crypto, Chunk and File. An `encode_x` is the list of the fields that it writes, each behind the
--   header that `put`, `put_opt` or `put_bool` writes; a panic is `none`, and a field that makes the
--   writer panic is a `refuse`. The children Valid have the ranges and lengths of what is written, and
--   Refused says which fields are refused.
-- - PageWalker.antt: crates/ematix-parquet-io/src/pages.rs and error.rs. `next_page` returns the moved
--   walker with the page; `walk` is the loop of its callers.
-- - ParquetFile.antt: crates/ematix-parquet-io/src/file.rs, on the bytes of a file. `open_file` is
--   `ParquetFile::open`; `cached_metadata` returns the file with what it stored.
-- - Codec.antt: crates/ematix-parquet-codec/src/error.rs, with the conversion of errors under `?`.
-- - Rle.antt: crates/ematix-parquet-codec/src/rle.rs. `encode_rle_bit_packed` and
--   `encode_rle_bit_packed_single_run` are the encoders, with `encode_runs` for the loop over runs and
--   `emit_run` for one turn of it; `decode_rle_bit_packed` is the decoder, with `decode_runs` for its
--   loop and `read_run` for one turn. It reads run headers with `read_uvarint` of Compact.antt.
-- - Levels.antt: crates/ematix-parquet-codec/src/levels.rs. `skip_stream` is one turn of the loop of
--   `skip_v1_level_prefixes`. Levels are decoded by `decode_rle_bit_packed`. In the child MaxLevels,
--   `find_leaf` is the loop of `compute_max_levels`, and `unwind` the loop in it.
-- - RowSet.antt: crates/ematix-parquet-codec/src/index/rowset.rs. `encode_tagged` and `to_bitmap` have
--   the source's names; `mark` sets the bit of one row, and `read_rows` is the loop over the positions.
-- - PageIndex.antt: crates/ematix-parquet-codec/src/page_index.rs. `select_pages_overlapping` is both
--   selectors, as a function of the width, and `select_from` their loop; `rank` turns the signed order
--   into that of the numbers.
-- - ByteStreamSplit.antt: crates/ematix-parquet-codec/src/byte_stream_split.rs. The `_f32` and `_f64`
--   functions are instances of one function of the width.
-- - Base.antt: the helpers they share, on bits, powers of two, lists and results.
--
-- Panics are outcomes of the model. In the readers, `capacity_overflow` is the panic of a
-- `Vec::with_capacity` for more than isize::MAX bytes. It needs the sizes that the compiler gives to
-- the structs, which are a parameter, `Layout` of Metadata.antt. In the codec, `panicked` is that panic,
-- or the one on an index out of bounds; in the metadata writers, a panic is `none`. Allocations that
-- fail for want of memory are left out.
--
-- Bytes are numbers below 256, and an integer of w bits is its bit pattern, below 2 ^ w; where the
-- source wraps, the model writes the remainder out. `usize` has 64 bits. Sums that a debug build checks
-- for overflow wrap, as in a release build.
--
-- Fuel: `pack_bits` has a round for each bit of a value, and each round takes one at least;
-- `encode_runs` has a round for each value; `decode_runs` has a round for each byte and one more, and
-- each run takes a byte at least; `read_fields` and `skip_fields` have a round for each byte and one
-- more, and each field takes a byte at least; `walk` needs a round for each byte and one more, since
-- a page takes a byte at least. Only the last four could run out, as an
-- error `out_of_fuel`, which the source does not have.
--
-- Not modelled: the SIMD code, which is processor intrinsics; I/O errors, threads and asynchronous I/O;
-- compression and ciphers, which are third-party; the other encodings, the rest of the index and the
-- Iceberg extension, which stand above or beside the parts modelled.
pub mod Base
pub mod Compact
pub mod CompactWriter
pub mod Types
pub mod Metadata
pub mod MetadataWriter
pub mod PageWalker
pub mod ParquetFile
pub mod Codec
pub mod Rle
pub mod Levels
pub mod RowSet
pub mod PageIndex
pub mod ByteStreamSplit
