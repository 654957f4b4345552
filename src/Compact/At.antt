-- ===== src/Compact/At.antt =====
-- What stands at a cursor, and readers that consume exactly a known stretch of bytes. With these
-- a reader's lemmas compose as the reader does.
use native.Mathlib.Nat.{add_assoc, add-zero, zero-add, suc-add}
use ematix_parquet.Base.{
  ℕ, zero, suc, ◌+◌, ◌≡◌, refl, sym, ap, ◌∙◌, arith, List, [], ◌∷◌, ◌++◌, append_assoc, ok, err,
  length, get_or, take, drop, length-append, length-drop,
}
use ematix_parquet.Compact.{
  Cursor, Reader, ◌>>=◌, pure, advance, remaining, read_u8, take_bytes, unexpected_eof,
}

-- The bytes from the cursor to the end of the buffer.
abbrev pub At : Cursor → List ℕ → Type 0
At c bs = drop c.pos c.buf ≡ bs

-- `p` consumes `bs` and returns `a`, whatever follows.
abbrev pub Reads : {A : Type 0} → Reader A → List ℕ → A → Type 0
Reads p bs a =
    (c : Cursor) (rest : List ℕ) → At c (bs ++ rest) → p c ≡ ok (a, advance (length bs) c)

module _ {A : Type 0} where
  drop-nil : (n : ℕ) → drop {A = A} n [] ≡ []
  drop-nil zero = refl
  drop-nil (suc n) = refl

  pub drop-add : (m n : ℕ) (xs : List A) → drop (m + n) xs ≡ drop n (drop m xs)
  drop-add zero n xs = rw zero-add
  drop-add (suc m) n [] = rw (drop-nil n, suc-add m n)
  drop-add (suc m) n (x ∷ xs) = rw (suc-add m n) (drop-add m n xs)

  pub take_prefix : (xs ys : List A) → take (length xs) (xs ++ ys) ≡ xs
  take_prefix [] ys = refl
  take_prefix (x ∷ xs) ys = ap (◌∷◌ x) (take_prefix xs ys)

  pub drop_prefix : (xs ys : List A) → drop (length xs) (xs ++ ys) ≡ ys
  drop_prefix [] ys = refl
  drop_prefix (x ∷ xs) ys = drop_prefix xs ys

  get_or-drop :
      (xs : List A) (i : ℕ) (d x : A) (rest : List A) → drop i xs ≡ x ∷ rest → get_or xs i d ≡ x
  get_or-drop [] i d x rest e = cc (drop-nil i)
  get_or-drop (y ∷ xs) zero d x rest e = cc
  get_or-drop (y ∷ xs) (suc i) d x rest e = get_or-drop xs i d x rest e

pub At-advance :
    (c : Cursor) (xs : List ℕ) {ys : List ℕ} → At c (xs ++ ys) → At (advance (length xs) c) ys
At-advance c xs {ys} h =
    drop-add c.pos (length xs) c.buf ∙ ap (drop (length xs)) h ∙ drop_prefix xs ys

pub advance_twice : (m n : ℕ) (c : Cursor) → advance n (advance m c) ≡ advance (m + n) c
advance_twice m n c = λ i. record { buf = c.buf; pos = add_assoc c.pos m n i }

pub length-At : (c : Cursor) (bs : List ℕ) → At c bs → remaining c ≡ length bs
length-At c bs h = sym (length-drop c.pos c.buf) ∙ ap length h

-- At the end of the buffer there is no byte to read.
pub read_u8_end : (c : Cursor) → At c [] → read_u8 c ≡ err (unexpected_eof 1 0)
unfolding read_u8
read_u8_end c h = ground (arith, length-At c [] h)

pub Reads-u8 : (b : ℕ) → Reads read_u8 (b ∷ []) b
unfolding read_u8
Reads-u8 b c rest h = ground (arith, length-At c (b ∷ rest) h, get_or-drop c.buf c.pos 0 b rest h)

pub Reads-take : (bs : List ℕ) → Reads (take_bytes (length bs)) bs bs
unfolding take_bytes
Reads-take bs c rest h = ground (
  arith,
  length-At c (bs ++ rest) h,
  length-append bs rest,
  ap (take (length bs)) h,
  take_prefix bs rest,
)

module _ {A : Type 0} where
  pub Reads-pure : (a : A) → Reads (pure a) [] a
  Reads-pure a c rest h = λ i. ok (a, record { buf = c.buf; pos = sym (add-zero c.pos) i })

module _ {A B : Type 0} where
  pub Reads-bind :
      (p : Reader A) (f : A → Reader B) (xs ys : List ℕ) (a : A) (b : B)
      → Reads p xs a
      → Reads (f a) ys b
      → Reads (p >>= f) (xs ++ ys) b
  Reads-bind p f xs ys a b hp hf c rest h =
      let at_xs : At c (xs ++ (ys ++ rest)) = h ∙ append_assoc xs ys rest in
      rw (hp c (ys ++ rest) at_xs, ◌>>=◌)
        (hf (advance (length xs) c) rest (At-advance c xs at_xs)
          ∙ rw (advance_twice (length xs) (length ys) c, length-append xs ys))

module _ {A B : Type 0} where
  pub Reads-map :
      (p : Reader A) (f : A → B) (bs : List ℕ) (a : A)
      → Reads p bs a
      → Reads (p >>= λ x. pure (f x)) bs (f a)
  Reads-map p f bs a r c rest h = rw (r c rest h, ◌>>=◌)
