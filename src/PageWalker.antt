-- ===== src/PageWalker.antt =====
-- crates/ematix-parquet-io/src/pages.rs and error.rs: the walk over the pages of a column chunk.
-- A slice is the list of its bytes; after an error the callers drop the walker.
pub mod Walk
pub mod Tests
use Prim.Native.String.{String}
use ematix_parquet.Base.{
  ℕ, zero, suc, ◌+◌, ◌-◌, ◌^◌, min, ltb, leb, if◌then◌else◌, Option, none, some, List, [], ◌∷◌,
  length, Result, ok, err,
}
use ematix_parquet.Compact.{
  ◌>>=◌, Cursor, FormatError, new_cursor, Reader, pure, take_bytes, out_of_fuel,
}
use ematix_parquet.Metadata.Page.{PageHeader, read_page_header}

-- An `io::Error` is not looked into.
pub data IoError : Type 0 where
  io : IoError
  format : FormatError → IoError
  not_a_parquet_file : List ℕ → List ℕ → String → IoError
  truncated_footer : ℕ → ℕ → IoError
  out_of_range_read : ℕ → ℕ → ℕ → IoError

pub record PageWalker : Type 0 where
  pub cur : Cursor
  pub end_offset : ℕ

pub new_walker : List ℕ → PageWalker
new_walker bytes = record { cur = new_cursor bytes; end_offset = length bytes }

pub with_byte_limit : List ℕ → ℕ → PageWalker
with_byte_limit bytes byte_limit = record {
  cur = new_cursor bytes;
  end_offset = min byte_limit (length bytes);
}

abbrev pub position : PageWalker → ℕ
position w = w.cur.pos

-- `as usize` extends the sign of an i32.
abbrev pub as_usize : ℕ → ℕ
as_usize v = if ltb v (2 ^ 31) then v else v + (2 ^ 64 - 2 ^ 32)

pub read_page : Reader (PageHeader × List ℕ)
read_page = do
  header ← read_page_header
  body ← take_bytes (as_usize header.compressed_page_size)
  pure (header, body)

abbrev pub Page : Type 0
Page = PageHeader × List ℕ

pub next_page : PageWalker → Result IoError (Option Page × PageWalker)
next_page w = if leb w.end_offset (position w) then ok (none, w) else elim (read_page w.cur) [
  | err e ↦ err (format e)
  | ok (page, c) ↦ ok (some page, record w { cur = c })
]

-- What a loop does with a page: it keeps it, and goes on.
abbrev pub collect :
    (PageWalker → Result IoError (List Page))
    → Result IoError (Option Page × PageWalker)
    → Result IoError (List Page)
collect rest (err e) = err e
collect rest (ok (none, w)) = ok []
collect rest (ok (some page, w)) = elim (rest w) [ err e ↦ err e | ok pages ↦ ok (page ∷ pages) ]

-- `while let Some((hdr, body)) = walker.next_page()?`, in rounds: what the callers see of a walk.
pub walk : ℕ → PageWalker → Result IoError (List Page)
walk zero w = err (format out_of_fuel)
walk (suc rounds) w = collect (λ w'. walk rounds w') (next_page w)
