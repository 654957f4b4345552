-- ===== src/MetadataWriter/Rules.antt =====
-- Writers against readers, field by field: `Carries` for a value, and `Chain` for the fields of a
-- struct from one on.
use ematix_parquet.Base.{
  ℕ, zero, suc, ◌^◌, ◌≤◌, ◌<◌, ◌≡◌, refl, ap, subst, ◌∙◌, arith, Bool, true, false, Option, none,
  some, List, [], ◌∷◌, ◌++◌, append_assoc, append-nil, length, length-append,
}
use ematix_parquet.Compact.{
  Reader, FieldType, FieldHeader, advance, ◌>>=◌, pure, read_field_header, remaining, bool_true,
  bool_false,
}
use ematix_parquet.Compact.At.{Reads, Reads-bind, Reads-pure, Reads-map, length-At}
use ematix_parquet.Compact.Headers.{field_stop-Reads}
use ematix_parquet.CompactWriter.{Writer, write_field_header, write_field_stop}
use ematix_parquet.CompactWriter.Headers.{
  field_header_round_trip, write_field_header-append, write_field_header-some,
}
use ematix_parquet.Metadata.{read_fields, read_struct}
use ematix_parquet.MetadataWriter.{
  Encoder, FieldWriter, put, put_opt, put_bool, put_unless, refuse, write_fields, write_struct,
}

-- The writer appends bytes, without a panic, that the reader takes for the value.
pub record Carries {A : Type 0} (p : Reader A) (g : Encoder A) (a : A) : Type 0 where
  pub bytes : List ℕ
  pub writes : (w : Writer) → g w a ≡ some (w ++ bytes)
  pub reads : Reads p bytes a

-- A reader, and a last step that takes no bytes.
Reads-finish :
    {A S : Type 0} (p : Reader S) (finish : S → Reader A) (bs : List ℕ) (s : S) (a : A)
    → Reads p bs s
    → finish s ≡ pure a
    → Reads (p >>= finish) bs a
Reads-finish p finish bs s a r e c rest h =
    rw (r c rest h, ◌>>=◌) (ap (λ q. q (advance (length bs) c)) e)

abbrev pub OptAll : {A : Type 0} → (A → Type 0) → Option A → Type 0
OptAll P none = Unit {0}
OptAll P (some a) = P a

-- From the state `s`, the fields are read to the state `s'`, behind any id.
pub record Chain {S : Type 0} (field : FieldHeader → S → Reader S) (s : S) (fs : List FieldWriter)
    (s' : S) (prev : ℕ) : Type 0 where
  pub bytes : List ℕ
  pub writes : (w : Writer) → write_fields fs (w, prev) ≡ some (w ++ bytes)
  pub reads :
      (rounds : ℕ) → length bytes ≤ rounds → Reads (read_fields rounds field prev s) bytes s'

module _ {S : Type 0} (field : FieldHeader → S → Reader S) where
  -- The loop at the stop byte.
  stop-Reads :
      (rounds prev : ℕ) (s : S) → 1 ≤ rounds → Reads (read_fields rounds field prev s) (0x00 ∷ []) s
  unfolding read_fields
  stop-Reads zero prev s h = absurd (omega arith)
  stop-Reads (suc n) prev s h =
      Reads-bind (read_field_header prev) _ (0x00 ∷ []) [] none s (field_stop-Reads prev)
        (Reads-pure s)

  -- One turn of the loop, and the turns behind it.
  turn-Reads :
      (rounds prev id : ℕ) (t : FieldType) (header bs rest : List ℕ) (s s1 s' : S)
      → length (header ++ (bs ++ rest)) ≤ rounds
      → 1 ≤ length header
      → Reads (read_field_header prev) header (some (record { id = id; field_type = t }))
      → Reads (field (record { id = id; field_type = t }) s) bs s1
      → ((n : ℕ) → length rest ≤ n → Reads (read_fields n field id s1) rest s')
      → Reads (read_fields rounds field prev s) (header ++ (bs ++ rest)) s'
  unfolding read_fields
  turn-Reads zero prev id t header bs rest s s1 s' h some_byte hh hf next =
      absurd (omega (arith, length-append header (bs ++ rest)))
  turn-Reads (suc n) prev id t header bs rest s s1 s' h some_byte hh hf next =
      Reads-bind (read_field_header prev) _ header (bs ++ rest) _ s' hh (
        Reads-bind (field (record { id = id; field_type = t }) s) _ bs rest s1 s' hf
          (next n (omega (arith, length-append header (bs ++ rest), length-append bs rest))))

module _ {S : Type 0} {field : FieldHeader → S → Reader S} where
  pub Chain-end : {s : S} {prev : ℕ} → Chain field s [] s prev
  unfolding write_fields write_field_stop
  Chain-end {s} {prev} = record {
    bytes = 0x00 ∷ [];
    writes = λ w. refl;
    reads = λ rounds h. stop-Reads field rounds prev s h;
  }

  -- A field that is not written.
  Chain-skip :
      (f : FieldWriter) (fs : List FieldWriter) (s s' : S) (prev : ℕ)
      → ((w : Writer) → f (w, prev) ≡ some (w, prev))
      → Chain field s fs s' prev
      → Chain field s (f ∷ fs) s' prev
  unfolding write_fields
  Chain-skip f fs s s' prev e rest = record {
    bytes = rest.bytes;
    writes = λ w. rw (e w) (rest.writes w);
    reads = rest.reads;
  }

  -- A field with the bytes `bs` behind its header, and the fields behind it.
  Chain-step :
      (f : FieldWriter) (fs : List FieldWriter) (id : ℕ) (t : FieldType) (bs : List ℕ) (s s1 s' : S)
      (prev : ℕ)
      → id < 2 ^ 16
      → prev < 2 ^ 16
      → ((w : Writer) → f (w, prev) ≡ some (write_field_header w id t prev ++ bs, id))
      → Reads (field (record { id = id; field_type = t }) s) bs s1
      → Chain field s1 fs s' id
      → Chain field s (f ∷ fs) s' prev
  unfolding write_fields
  Chain-step f fs id t bs s s1 s' prev hid hprev hw hr rest =
      let header : List ℕ = write_field_header [] id t prev in
      record {
        bytes = header ++ (bs ++ rest.bytes);
        writes = λ w.
            rw
              (
                hw w,
                rest.writes (write_field_header w id t prev ++ bs),
                write_field_header-append w id t prev,
              )
              (ap some (
                append_assoc (w ++ header) bs rest.bytes
                ∙ append_assoc w header (bs ++ rest.bytes)));
        reads = λ rounds h.
            turn-Reads field rounds prev id t header bs rest.bytes s s1 s' h
              (write_field_header-some id t prev) (field_header_round_trip id prev t hid hprev) hr
              rest.reads;
      }

  module _ {A : Type 0} (id : ℕ) (t : FieldType) (p : Reader A) (g : Encoder A) where
    -- A required field. What the reader does for its header is to read a value and store it.
    pub Chain-put :
        {a : A} {fs : List FieldWriter} {s s' : S} {prev : ℕ} (store : A → S)
        → Carries p g a
        → field (record { id = id; field_type = t }) s ≡ (p >>= λ x. pure (store x))
        → id < 2 ^ 16
        → prev < 2 ^ 16
        → Chain field (store a) fs s' id
        → Chain field s (put id t g a ∷ fs) s' prev
    unfolding put
    Chain-put {a} {fs} {s} {s'} {prev} store c e hid hprev rest =
        Chain-step (put id t g a) fs id t c.bytes s (store a) s' prev hid hprev
          (λ w. rw (c.writes (write_field_header w id t prev)))
          (rw e (Reads-map p store c.bytes a c.reads)) rest

    -- An optional field, behind which the state holds what was written of it.
    pub Chain-opt :
        {fs : List FieldWriter} {s s' : S} {prev : ℕ} (o : Option A) (store : Option A → S)
        → OptAll (Carries p g) o
        → field (record { id = id; field_type = t }) s ≡ (p >>= λ x. pure (store (some x)))
        → store none ≡ s
        → id < 2 ^ 16
        → prev < 2 ^ 16
        → ((q : ℕ) → q < 2 ^ 16 → Chain field (store o) fs s' q)
        → Chain field s (put_opt id t g o ∷ fs) s' prev
    unfolding put_opt put
    Chain-opt {fs} {s} {s'} {prev} none store c e e0 hid hprev rest =
        Chain-skip (put_opt id t g none) fs s s' prev (λ w. refl)
          (subst (λ u. Chain field u fs s' prev) e0 (rest prev hprev))
    Chain-opt {fs} {s} {s'} {prev} (some a) store c e e0 hid hprev rest =
        Chain-step (put_opt id t g (some a)) fs id t c.bytes s (store (some a)) s' prev hid hprev
          (λ w. rw (c.writes (write_field_header w id t prev)))
          (rw e (Reads-map p (λ x. store (some x)) c.bytes a c.reads)) (rest id hid)

  -- A boolean field has no bytes behind its header.
  pub Chain-bool :
      (id : ℕ) {fs : List FieldWriter} {s s' : S} {prev : ℕ} (o : Option Bool)
      (store : Option Bool → S)
      → field (record { id = id; field_type = bool_true }) s ≡ pure (store (some true))
      → field (record { id = id; field_type = bool_false }) s ≡ pure (store (some false))
      → store none ≡ s
      → id < 2 ^ 16
      → prev < 2 ^ 16
      → ((q : ℕ) → q < 2 ^ 16 → Chain field (store o) fs s' q)
      → Chain field s (put_bool id o ∷ fs) s' prev
  unfolding put_bool
  Chain-bool id {fs} {s} {s'} {prev} none store et ef e0 hid hprev rest =
      Chain-skip (put_bool id none) fs s s' prev (λ w. refl)
        (subst (λ u. Chain field u fs s' prev) e0 (rest prev hprev))
  Chain-bool id {fs} {s} {s'} {prev} (some true) store et ef e0 hid hprev rest =
      Chain-step (put_bool id (some true)) fs id bool_true [] s (store (some true)) s' prev hid
        hprev (λ w. rw (append-nil (write_field_header w id bool_true prev)))
        (rw et (Reads-pure (store (some true)))) (rest id hid)
  Chain-bool id {fs} {s} {s'} {prev} (some false) store et ef e0 hid hprev rest =
      Chain-step (put_bool id (some false)) fs id bool_false [] s (store (some false)) s' prev hid
        hprev (λ w. rw (append-nil (write_field_header w id bool_false prev)))
        (rw ef (Reads-pure (store (some false)))) (rest id hid)

  -- A flag that stands for true if it is not written.
  pub Chain-unless :
      (id : ℕ) {fs : List FieldWriter} {s s' : S} {prev : ℕ} (b : Bool) (store : Bool → S)
      → field (record { id = id; field_type = bool_false }) s ≡ pure (store false)
      → store true ≡ s
      → id < 2 ^ 16
      → prev < 2 ^ 16
      → ((q : ℕ) → q < 2 ^ 16 → Chain field (store b) fs s' q)
      → Chain field s (put_unless id b ∷ fs) s' prev
  unfolding put_unless
  Chain-unless id {fs} {s} {s'} {prev} true store ef et hid hprev rest =
      Chain-skip (put_unless id true) fs s s' prev (λ w. refl)
        (subst (λ u. Chain field u fs s' prev) et (rest prev hprev))
  Chain-unless id {fs} {s} {s'} {prev} false store ef et hid hprev rest =
      Chain-step (put_unless id false) fs id bool_false [] s (store false) s' prev hid hprev
        (λ w. rw (append-nil (write_field_header w id bool_false prev)))
        (rw ef (Reads-pure (store false))) (rest id hid)

  -- A field that must be absent, behind which the state holds that it is.
  pub Chain-refuse :
      {A : Type 0} {fs : List FieldWriter} {s s' : S} {prev : ℕ} (o : Option A)
      (store : Option A → S)
      → o ≡ none
      → store none ≡ s
      → Chain field (store o) fs s' prev
      → Chain field s (refuse o ∷ fs) s' prev
  unfolding refuse
  Chain-refuse {A} {fs} {s} {s'} {prev} none store absent e0 rest =
      Chain-skip (refuse {A = A} none) fs s s' prev (λ w. refl)
        (subst (λ u. Chain field u fs s' prev) e0 rest)
  Chain-refuse (some a) store absent e0 rest = absurd (cc)

  -- A struct whose fields are read to a state that the reader finishes with the value.
  pub Carries-struct :
      {A : Type 0} {start s : S} {fs : List FieldWriter} (finish : S → Reader A) (g : Encoder A)
      (a : A)
      → ((w : Writer) → g w a ≡ write_struct fs w)
      → Chain field start fs s 0
      → finish s ≡ pure a
      → Carries (read_struct field start finish) g a
  unfolding write_struct read_struct
  Carries-struct {start = start} {s} {fs} finish g a e c done = record {
    bytes = c.bytes;
    writes = λ w. e w ∙ c.writes w;
    reads = λ cur rest at.
        Reads-finish (read_fields (suc (remaining cur)) field 0 start) finish c.bytes s a
          (c.reads (suc (remaining cur))
            (omega (arith, length-At cur (c.bytes ++ rest) at, length-append c.bytes rest)))
          done cur rest at;
  }
