-- ===== src/Rle/Header.antt =====
-- Run headers of rle.rs: the encoder's own `write_uvarint` beside the compact protocol's.
use mathlib.Core.Logic.{dif_pos, dif_neg}
use mathlib.Core.WellFounded.{Acc}
use native.Mathlib.Bridge.{le_prop}
use ematix_parquet.Base.{
  ℕ, ◌/◌, ◌%◌, ◌^◌, ◌<◌, ◌≡◌, sym, ap, ◌∙◌, arith, List, [], ◌∷◌, ◌++◌, bit_and, bit_or, dec_le,
  lt_wf,
}
use ematix_parquet.Base.Bits.{and_7f, or_80}
use ematix_parquet.CompactWriter
use ematix_parquet.CompactWriter.Varint.{
  loop_more, loop_last, group, group_value, write_uvarint-append, write_uvarint-loop,
}
use ematix_parquet.Rle.{uvarint_loop, write_uvarint, shrinks}

same_byte : (v : ℕ) → bit_or (bit_and (v % 2 ^ 8) 0x7f) 0x80 ≡ group v
same_byte v =
    let e : v % 2 ^ 8 % 128 ≡ v % 128 = omega arith in
    rw (and_7f (v % 2 ^ 8), e, or_80 (v % 128) (omega arith)) (sym (group_value v))

-- The two loops agree, on whatever proofs that they end.
same_loop :
    (out : List ℕ) (v : ℕ) (a b : Acc ◌<◌ v)
    → uvarint_loop out v a ≡ CompactWriter.uvarint_loop out v b
unfolding uvarint_loop
same_loop out v (Acc.intro _ smaller) (Acc.intro _ smaller') = elim (dec_le 0x80 v) [
  | yes more ↦
      dif_pos (dec_le 0x80 v) le_prop more _ _
      ∙ same_loop (out ++ bit_or (bit_and (v % 2 ^ 8) 0x7f) 0x80 ∷ []) (v / 2 ^ 7)
          (smaller (v / 2 ^ 7) (shrinks v more))
          (smaller' (v / 2 ^ 7) (CompactWriter.shrinks v more))
      ∙ ap
          (λ t.
            CompactWriter.uvarint_loop (out ++ t ∷ []) (v / 2 ^ 7)
              (smaller' (v / 2 ^ 7) (CompactWriter.shrinks v more)))
          (same_byte v)
      ∙ sym (loop_more out v smaller' more)
  | no last ↦ dif_neg (dec_le 0x80 v) last _ _ ∙ sym (loop_last out v smaller' last)
]

-- The number writer of the run encoder appends the same bytes as the compact protocol's, for every
-- number.
pub same_write_uvarint :
    (out : List ℕ) (v : ℕ) → write_uvarint out v ≡ CompactWriter.write_uvarint out v
unfolding write_uvarint
same_write_uvarint out v =
    same_loop out v (lt_wf.apply v) (lt_wf.apply v) ∙ sym (write_uvarint-loop out v)

-- The bytes of a number, as a header.
abbrev pub header_bytes : ℕ → List ℕ
header_bytes v = CompactWriter.write_uvarint [] v

pub write_header : (out : List ℕ) (v : ℕ) → write_uvarint out v ≡ out ++ header_bytes v
write_header out v = same_write_uvarint out v ∙ write_uvarint-append out v
