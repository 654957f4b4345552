-- ===== src/CompactWriter/Varint.antt =====
-- `write_uvarint` and the zigzag writers against the LEB128 description.
use mathlib.Core.Logic.{dif_pos, dif_neg}
use mathlib.Core.WellFounded.{Acc}
use native.Mathlib.Bridge.{le_prop}
use native.Mathlib.Nat.{mod-eq_of_lt, pow-suc}
use ematix_parquet.Base.{
  ℕ, zero, suc, ◌+◌, ◌-◌, ◌*◌, ◌/◌, ◌%◌, ◌^◌, ◌≤◌, ◌<◌, ◌≡◌, refl, sym, ap, ◌∙◌, arith, List, [],
  ◌∷◌, ◌++◌, append_assoc, bit_and, bit_or, length, lt_wf, dec_le, subst,
}
use ematix_parquet.Base.Bits.{and_7f, or_80, bit_xor_ones, bit_xor_zero, mod_unique}
use ematix_parquet.Compact.{read_uvarint, read_zigzag_i32, read_zigzag_i64}
use ematix_parquet.Compact.At.{Reads}
use ematix_parquet.Compact.Varint.{
  uvarint-Reads, zigzag_i32-Reads, zigzag_i64-Reads, zigzag_code-lt,
}
use ematix_parquet.Compact.Wire.{IsLeb, leb_value, zigzag_code}
use ematix_parquet.CompactWriter.{
  Writer, uvarint_loop, write_uvarint, zigzag, write_zigzag_i32, write_zigzag_i64, shrinks,
}

-- The byte of a group that is not the last.
abbrev pub group : ℕ → ℕ
group v = bit_or (bit_and v 0x7f % 2 ^ 8) 0x80

pub group_value : (v : ℕ) → group v ≡ v % 128 + 128
group_value v =
    let e : v % 128 % 2 ^ 8 ≡ v % 128 = omega arith in
    rw (and_7f v, e) (or_80 (v % 128) (omega arith))

pub loop_more :
    (w : Writer) (v : ℕ) (smaller : (m : ℕ) → m < v → Acc ◌<◌ m) (more : 0x80 ≤ v)
    → uvarint_loop w v (Acc.intro v smaller)
      ≡ uvarint_loop (w ++ group v ∷ []) (v / 2 ^ 7) (smaller (v / 2 ^ 7) (shrinks v more))
unfolding uvarint_loop
loop_more w v smaller more = dif_pos (dec_le 0x80 v) le_prop more _ _

pub loop_last :
    (w : Writer) (v : ℕ) (smaller : (m : ℕ) → m < v → Acc ◌<◌ m)
    → ¬ (0x80 ≤ v)
    → uvarint_loop w v (Acc.intro v smaller) ≡ w ++ v % 2 ^ 8 ∷ []
unfolding uvarint_loop
loop_last w v smaller last = dif_neg (dec_le 0x80 v) last _ _

loop-append : (w : Writer) (v : ℕ) (a : Acc ◌<◌ v) → uvarint_loop w v a ≡ w ++ uvarint_loop [] v a
loop-append w v (Acc.intro _ smaller) = elim (dec_le 0x80 v) [
  | yes more ↦
      loop_more w v smaller more
      ∙ loop-append (w ++ group v ∷ []) (v / 2 ^ 7) (smaller _ (shrinks v more))
      ∙ append_assoc w (group v ∷ []) _
      ∙ ap (◌++◌ w) (
          sym (
            loop_more [] v smaller more
            ∙ loop-append (group v ∷ []) (v / 2 ^ 7) (smaller _ (shrinks v more))))
  | no last ↦ rw (loop_last w v smaller last, loop_last [] v smaller last)
]

IsLeb-cons : (b : ℕ) (bs : List ℕ) → 128 ≤ b → b < 256 → IsLeb bs → IsLeb (b ∷ bs)
IsLeb-cons b [] lo hi leb = absurd leb
IsLeb-cons b (x ∷ xs) lo hi leb = (lo, hi, leb)

-- What the loop writes for a number with at most `k + 1` groups of seven bits.
pub record Spells (k v : ℕ) (bs : List ℕ) : Type 0 where
  pub leb : IsLeb bs
  pub value : leb_value bs ≡ v
  pub short : length bs ≤ suc k

Spells-cons :
    (k v : ℕ) (bs : List ℕ) → 0x80 ≤ v → Spells k (v / 2 ^ 7) bs → Spells (suc k) v (group v ∷ bs)
Spells-cons k v bs more s = rw (group_value v) (record {
  leb = IsLeb-cons (v % 128 + 128) bs (omega arith) (omega arith) s.leb;
  value = omega (arith, s.value);
  short = omega (arith, s.short);
})

Spells-last : (k v : ℕ) → v < 0x80 → Spells k v (v % 2 ^ 8 ∷ [])
Spells-last k v h = omega arith

loop-Spells : (k v : ℕ) (a : Acc ◌<◌ v) → v < 128 ^ suc k → Spells k v (uvarint_loop [] v a)
loop-Spells zero v (Acc.intro _ smaller) h =
    let last : ¬ (0x80 ≤ v) = omega arith in
    rw (loop_last [] v smaller last) (Spells-last zero v (omega arith))
loop-Spells (suc k) v (Acc.intro _ smaller) h = elim (dec_le 0x80 v) [
  | yes more ↦
      let a : Acc ◌<◌ (v / 2 ^ 7) = smaller (v / 2 ^ 7) (shrinks v more) in
      let rest : Spells k (v / 2 ^ 7) (uvarint_loop [] (v / 2 ^ 7) a) =
        loop-Spells k (v / 2 ^ 7) a (omega (arith, pow-suc 128 (suc k))) in
      rw (loop_more [] v smaller more, loop-append (group v ∷ []) (v / 2 ^ 7) a)
        (Spells-cons k v _ more rest)
  | no last ↦ rw (loop_last [] v smaller last) (Spells-last (suc k) v (omega arith))
]

-- Writing appends, and what is appended does not depend on what was there.
pub write_uvarint-append : (w : Writer) (v : ℕ) → write_uvarint w v ≡ w ++ write_uvarint [] v
unfolding write_uvarint
write_uvarint-append w v = loop-append w v (lt_wf.apply v)

-- A number of 64 bits takes at most ten bytes, which spell it in LEB128.
pub write_uvarint-Spells : (v : ℕ) → v < 2 ^ 64 → Spells 9 v (write_uvarint [] v)
unfolding write_uvarint
write_uvarint-Spells v h = loop-Spells 9 v (lt_wf.apply v) (omega arith)

zigzag_even : (k v : ℕ) → v < 2 ^ k → zigzag (suc k) v ≡ 2 * v
unfolding zigzag
zigzag_even k v h = ground (
  arith,
  pow-suc 2 k,
  mod-eq_of_lt {n = v * 2} {m = 2 ^ suc k} (omega (arith, pow-suc 2 k)),
  bit_xor_zero (v * 2),
  let e : suc k - 1 ≡ k = omega arith in e,
)

zigzag_odd : (k v : ℕ) → 2 ^ k ≤ v → v < 2 ^ suc k → zigzag (suc k) v ≡ 2 * (2 ^ suc k - 1 - v) + 1
unfolding zigzag
zigzag_odd k v lo hi = ground (
  arith,
  mod_unique (v * 2) 1 (2 ^ suc k) (v * 2 - 2 ^ suc k) (omega (arith, pow-suc 2 k))
      (omega (arith, pow-suc 2 k)),
  bit_xor_ones (suc k) (v * 2 - 2 ^ suc k) (omega (arith, pow-suc 2 k)),
  pow-suc 2 k,
  let e : suc k - 1 ≡ k = omega arith in e,
)

-- The shifts and the exclusive or compute the zigzag code.
pub zigzag-code : (k v : ℕ) → v < 2 ^ suc k → zigzag (suc k) v ≡ zigzag_code (suc k) v
zigzag-code k v h =
    ground (arith, zigzag_even k v, zigzag_odd k v, let e : suc k - 1 ≡ k = omega arith in e)

-- The zigzag writers: the bytes they append spell the zigzag code.
pub zigzag_i32-Spells : (v : ℕ) → v < 2 ^ 32 → Spells 9 (zigzag_code 32 v) (write_zigzag_i32 [] v)
unfolding write_zigzag_i32
zigzag_i32-Spells v h =
    rw (zigzag-code 31 v h)
      (write_uvarint-Spells (zigzag_code 32 v) (omega (arith, zigzag_code-lt 31 v h)))

pub zigzag_i64-Spells : (v : ℕ) → v < 2 ^ 64 → Spells 9 (zigzag_code 64 v) (write_zigzag_i64 [] v)
unfolding write_zigzag_i64
zigzag_i64-Spells v h =
    rw (zigzag-code 63 v h) (write_uvarint-Spells (zigzag_code 64 v) (zigzag_code-lt 63 v h))

pub write_zigzag_i32-append :
    (w : Writer) (v : ℕ) → write_zigzag_i32 w v ≡ w ++ write_zigzag_i32 [] v
unfolding write_zigzag_i32
write_zigzag_i32-append w v = write_uvarint-append w (zigzag 32 v)

pub write_zigzag_i64-append :
    (w : Writer) (v : ℕ) → write_zigzag_i64 w v ≡ w ++ write_zigzag_i64 [] v
unfolding write_zigzag_i64
write_zigzag_i64-append w v = write_uvarint-append w (zigzag 64 v)

-- What the readers make of the writers' bytes.
pub uvarint_round_trip : (v : ℕ) → v < 2 ^ 64 → Reads read_uvarint (write_uvarint [] v) v
uvarint_round_trip v h =
    let s = write_uvarint-Spells v h in
    subst (Reads read_uvarint (write_uvarint [] v)) s.value
      (uvarint-Reads (write_uvarint [] v) s.leb s.short (rw s.value h))

pub zigzag_i32_round_trip : (v : ℕ) → v < 2 ^ 32 → Reads read_zigzag_i32 (write_zigzag_i32 [] v) v
zigzag_i32_round_trip v h =
    let s = zigzag_i32-Spells v h in
    zigzag_i32-Reads (write_zigzag_i32 [] v) v s.leb s.short h s.value

pub zigzag_i64_round_trip : (v : ℕ) → v < 2 ^ 64 → Reads read_zigzag_i64 (write_zigzag_i64 [] v) v
zigzag_i64_round_trip v h =
    let s = zigzag_i64-Spells v h in
    zigzag_i64-Reads (write_zigzag_i64 [] v) v s.leb s.short h s.value

-- `write_uvarint` is its loop.
pub write_uvarint-loop : (w : Writer) (v : ℕ) → write_uvarint w v ≡ uvarint_loop w v (lt_wf.apply v)
unfolding write_uvarint
write_uvarint-loop w v = refl

-- A number takes a byte at least.
pub write_uvarint-some : (v : ℕ) → v < 2 ^ 64 → 1 ≤ length (write_uvarint [] v)
write_uvarint-some v h = some_leb (write_uvarint [] v) (write_uvarint-Spells v h).leb
  where
    some_leb : (bs : List ℕ) → IsLeb bs → 1 ≤ length bs
    some_leb [] leb = absurd leb
    some_leb (b ∷ bs) leb = omega arith
