-- ===== src/PageWalker/Walk.antt =====
-- A walk over written pages yields them, and a walk over any bytes ends.
use ematix_parquet.Base.{
  ℕ, zero, suc, ◌+◌, ◌≤◌, ◌<◌, ◌≡◌, ◌∙◌, refl, sym, ap, subst, min, arith, leb, true, false,
  Bool-cases, inl, inr, Option, none, some, List, [], ◌∷◌, ◌++◌, append_assoc, append-nil, length,
  length-append, Result, ok, err, All,
}
use ematix_parquet.Compact.{Cursor, FormatError, new_cursor, advance, remaining, take_bytes}
use ematix_parquet.Compact.At.{At, Reads, Reads-bind, Reads-map, Reads-take, At-advance}
use ematix_parquet.Compact.Outcome.{Allowed, IsWithin, Stays, next-Stays, bind-Safe}
use ematix_parquet.Compact.Bounds.{take-Safe}
use ematix_parquet.Metadata.Page.{PageHeader, read_page_header}
use ematix_parquet.Metadata.Page.Safety.{page_header_moves}
use ematix_parquet.MetadataWriter.Page.{write_page_header, encode_page_header}
use ematix_parquet.MetadataWriter.Page.Valid.{IsPageHeader}
use ematix_parquet.MetadataWriter.Page.Carries.{page_header-Carries}
use ematix_parquet.MetadataWriter.Rules.{Carries}
use ematix_parquet.PageWalker.{
  IoError, format, PageWalker, with_byte_limit, as_usize, read_page, Page, next_page, collect, walk,
  position,
}

-- A page takes a byte at least.
read_page_moves : (c : Cursor) → IsWithin c → Stays false (advance 1 c) (read_page c)
unfolding read_page
read_page_moves c h =
    next-Stays false (advance 1 c) (read_page_header c) _ (page_header_moves false c h)
      λ hdr c' same forward within.
        bind-Safe false (take_bytes (as_usize hdr.compressed_page_size)) _ (take-Safe false _)
          (λ body d k. (refl, omega arith, k)) c' within

-- An error of the source: no panic, and no loop of the model that was cut short.
abbrev pub IsSource : IoError → Type 0
IsSource (format e) = Allowed false e
IsSource e = Unit {0}

-- What a walk ends with: the pages, or an error of the source.
abbrev pub Ends : Result IoError (List Page) → Type 0
Ends (ok pages) = Unit {0}
Ends (err e) = IsSource e

Ends-collect :
    (rest : PageWalker → Result IoError (List Page)) (page : Page) (w : PageWalker)
    → Ends (rest w)
    → Ends (collect rest (ok (some page, w)))
Ends-collect rest page w h = keep (rest w) h
  where
    keep :
        (r : Result IoError (List Page))
        → Ends r
        → Ends (elim r as (λ _. Result IoError (List Page)) [
          | err e ↦ err e
          | ok pages ↦ ok (page ∷ pages)
        ])
    keep (ok pages) h = tt
    keep (err e) h = h

-- The outcomes of one step.
abbrev pub Step : PageWalker → Result IoError (Option Page × PageWalker) → Type 0
Step w (err e) = IsSource e
Step w (ok (none, w')) = w' ≡ w
Step w (ok (some page, w')) =
    (w'.end_offset ≡ w.end_offset)
    × (w'.cur.buf ≡ w.cur.buf)
    × (position w < position w')
    × IsWithin w'.cur

-- From a walker inside its buffer, `next_page` fails with an error of the source, or has no page
-- and leaves the walker as it is, or has one, keeps the buffer and the end, moves on by a byte at
-- least, and stays inside the buffer.
pub next_page-Step : (w : PageWalker) → IsWithin w.cur → Step w (next_page w)
unfolding next_page
next_page-Step w h = elim (Bool-cases (leb w.end_offset (position w))) [
  | inl ended ↦ rw ended refl
  | inr more ↦ rw more (step (read_page w.cur) (read_page_moves w.cur h))
]
  where
    step :
        (r : Result FormatError (Page × Cursor))
        → Stays false (advance 1 w.cur) r
        → Step w (elim r as (λ _. Result IoError (Option Page × PageWalker)) [
          | err e ↦ err (format e)
          | ok (page, c) ↦ ok (some page, record w { cur = c })
        ])
    step (err e) he = he
    step (ok (page, c)) (same, forward, within) = (refl, same, omega arith, within)

walk_rounds-Ends :
    (rounds : ℕ) (w : PageWalker) → IsWithin w.cur → remaining w.cur < rounds → Ends (walk rounds w)
unfolding walk
walk_rounds-Ends zero w h few = absurd (omega arith)
walk_rounds-Ends (suc n) w h few =
    ends (next_page w) (next_page-Step w h) (λ w'. walk_rounds-Ends n w')
  where
    ends :
        (r : Result IoError (Option Page × PageWalker))
        → Step w r
        → ((w' : PageWalker) → IsWithin w'.cur → remaining w'.cur < n → Ends (walk n w'))
        → Ends (collect (λ w'. walk n w') r)
    ends (err e) he next = he
    ends (ok (none, w')) e next = tt
    ends (ok (some page, w')) (end, same, forward, within) next =
        Ends-collect (λ v. walk n v) page w' (next w' within (omega (arith, ap length same)))

-- On any bytes and with any limit, a walk with one round more than there are bytes ends with pages
-- or with an error of the source, never with a panic or for want of rounds.
pub walk-Ends :
    (bytes : List ℕ) (byte_limit : ℕ)
    → Ends (walk (suc (length bytes)) (with_byte_limit bytes byte_limit))
unfolding with_byte_limit
walk-Ends bytes byte_limit = walk_rounds-Ends (suc (length bytes)) _ (omega arith) (omega arith)

-- A page as a writer leaves it: its header says how long the body is.
abbrev pub IsPage : Page → Type 0
IsPage (hdr, body) = IsPageHeader hdr × (as_usize hdr.compressed_page_size ≡ length body)

abbrev join_page : Option (List ℕ) → List ℕ → Option (List ℕ) → Option (List ℕ)
join_page none body rest = none
join_page (some hdr) body none = none
join_page (some hdr) body (some rest) = some (hdr ++ (body ++ rest))

-- The bytes of a column chunk: each page's header, and then its body.
abbrev pub chunk_of : List Page → Option (List ℕ)
chunk_of [] = some []
chunk_of ((hdr, body) ∷ pages) = join_page (write_page_header hdr) body (chunk_of pages)

header-some :
    (hdr : PageHeader) (c : Carries read_page_header encode_page_header hdr) → 1 ≤ length c.bytes
header-some hdr c =
    let at : At (new_cursor c.bytes) (c.bytes ++ []) = sym (append-nil c.bytes) in
    let moved : Stays false (advance 1 (new_cursor c.bytes))
        (read_page_header (new_cursor c.bytes)) =
      page_header_moves false (new_cursor c.bytes) (omega arith) in
    let s =
      subst (Stays false (advance 1 (new_cursor c.bytes))) (c.reads (new_cursor c.bytes) [] at)
        moved in
    omega (arith, s.1)

page-Reads :
    (hdr : PageHeader) (body : List ℕ) (c : Carries read_page_header encode_page_header hdr)
    → as_usize hdr.compressed_page_size ≡ length body
    → Reads read_page (c.bytes ++ body) (hdr, body)
unfolding read_page
page-Reads hdr body c e =
    Reads-bind read_page_header _ c.bytes body hdr (hdr, body) c.reads
      (Reads-map (take_bytes (as_usize hdr.compressed_page_size)) (λ b. (hdr, b)) body body
        (subst (λ n. Reads (take_bytes n) body body) (sym e) (Reads-take body)))

next_page-Reads :
    (c : Cursor) (end_offset : ℕ) (bs rest : List ℕ) (page : Page)
    → Reads read_page bs page
    → At c (bs ++ rest)
    → c.pos < end_offset
    → next_page (record { cur = c; end_offset = end_offset })
      ≡ ok (some page, record { cur = advance (length bs) c; end_offset = end_offset })
unfolding next_page
next_page-Reads c end_offset bs rest page r at more =
    let e : leb end_offset c.pos ≡ false = ground arith in rw (e, r c rest at)

regroup : (a b t r : List ℕ) → (a ++ (b ++ t)) ++ r ≡ (a ++ b) ++ (t ++ r)
regroup a b t r = ap (λ u. u ++ r) (sym (append_assoc a b t)) ∙ append_assoc (a ++ b) t r

-- From a cursor at the bytes of the pages, a walk yields them.
record Walks (pages : List Page) : Type 0 where
  bytes : List ℕ
  chunk : chunk_of pages ≡ some bytes
  walks :
      (c : Cursor) (rest : List ℕ)
      → At c (bytes ++ rest)
      → walk (suc (length pages)) (record { cur = c; end_offset = c.pos + length bytes }) ≡ ok pages

pages-Walks : (pages : List Page) → All IsPage pages → Walks pages
unfolding walk next_page write_page_header
pages-Walks [] h = record {
  bytes = [];
  chunk = refl;
  walks = λ c rest at. let e : leb (c.pos + 0) c.pos ≡ true = ground arith in rw e refl;
}
pages-Walks ((hdr, body) ∷ pages) ((valid, len), h) =
    let c : Carries read_page_header encode_page_header hdr = page_header-Carries hdr valid in
    let tail : Walks pages = pages-Walks pages h in
    record {
      bytes = c.bytes ++ (body ++ tail.bytes);
      chunk = rw (c.writes [], tail.chunk) refl;
      walks = λ d rest at.
          let page : List ℕ = c.bytes ++ body in
          let split : At d (page ++ (tail.bytes ++ rest)) =
            at ∙ regroup c.bytes body tail.bytes rest in
          let end_offset : ℕ = d.pos + length (c.bytes ++ (body ++ tail.bytes)) in
          let same : end_offset ≡ (d.pos + length page) + length tail.bytes = omega (
            arith,
            length-append c.bytes (body ++ tail.bytes),
            length-append body tail.bytes,
            length-append c.bytes body,
          ) in
          ap (collect (λ w. walk (suc (length pages)) w)) (
            next_page-Reads d end_offset page (tail.bytes ++ rest) (hdr, body)
              (page-Reads hdr body c len) split
              (omega (arith, header-some hdr c, length-append c.bytes (body ++ tail.bytes))))
          ∙ ap
              (λ r. elim r as (λ _. Result IoError (List Page)) [
                | err e ↦ err e
                | ok ps ↦ ok ((hdr, body) ∷ ps)
              ])
              (ap
                  (λ n.
                    walk (suc (length pages))
                      (record { cur = advance (length page) d; end_offset = n }))
                  same
                ∙ tail.walks (advance (length page) d) rest (At-advance d page split));
    }

-- For pages whose headers are in range and say how long the bodies are, the headers are written
-- without a panic, and a walk limited to the bytes of the headers and bodies one after the other
-- yields these pages, in order, and ends, whatever follows.
pub walk-chunk_of :
    (pages : List Page) (rest : List ℕ)
    → All IsPage pages
    → (bytes : List ℕ) × (chunk_of pages ≡ some bytes)
      × (walk (suc (length pages)) (with_byte_limit (bytes ++ rest) (length bytes)) ≡ ok pages)
unfolding with_byte_limit
walk-chunk_of pages rest h =
    let w : Walks pages = pages-Walks pages h in
    let limit : min (length w.bytes) (length (w.bytes ++ rest)) ≡ 0 + length w.bytes =
      ground (arith, length-append w.bytes rest) in
    (
      w.bytes,
      w.chunk,
      ap
            (λ n.
              walk (suc (length pages))
                (record { cur = new_cursor (w.bytes ++ rest); end_offset = n }))
            limit
          ∙ w.walks (new_cursor (w.bytes ++ rest)) rest refl,
    )
