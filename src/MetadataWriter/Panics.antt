-- ===== src/MetadataWriter/Panics.antt =====
-- When a writer of metadata_writer.rs panics: whether each field does, and whether a struct does.
use ematix_parquet.Base.{
  ℕ, ◌≡◌, ◌∙◌, refl, ap, Bool, true, false, ◌||◌, Option, none, some, List, [], ◌∷◌,
}
use ematix_parquet.Compact.{FieldType}
use ematix_parquet.Types.{Encoding}
use ematix_parquet.CompactWriter.{Writer}
use ematix_parquet.MetadataWriter.{
  Encoder, FieldWriter, total, write_code, write_empty_struct, write_encodings, written, put,
  put_opt, put_bool, refuse, write_fields, write_struct, encode_each, write_list_struct,
}

abbrev pub is_none : {A : Type 0} → Option A → Bool
is_none none = true
is_none (some a) = false

abbrev pub is_some : {A : Type 0} → Option A → Bool
is_some none = false
is_some (some a) = true

abbrev pub any : {A : Type 0} → (A → Bool) → List A → Bool
any p [] = false
any p (x ∷ xs) = p x || any p xs

abbrev pub any_opt : {A : Type 0} → (A → Bool) → Option A → Bool
any_opt p none = false
any_opt p (some a) = p a

-- The encoder panics on the value, behind any bytes, if and only if `b`; and so for fields.
pub record Panics {A : Type 0} (g : Encoder A) (a : A) (b : Bool) : Type 0 where
  pub known : (w : Writer) → is_none (g w a) ≡ b

pub record FieldPanics (f : FieldWriter) (b : Bool) : Type 0 where
  pub known : (st : Writer × ℕ) → is_none (f st) ≡ b

pub record FieldsPanic (fs : List FieldWriter) (b : Bool) : Type 0 where
  pub known : (st : Writer × ℕ) → is_none (write_fields fs st) ≡ b

is_none-written : (id : ℕ) (o : Option Writer) → is_none (written id o) ≡ is_none o
is_none-written id none = refl
is_none-written id (some w) = refl

module _ {A : Type 0} where
  pub Panics-total : (g : Writer → A → Writer) (a : A) → Panics (total g) a false
  Panics-total g a = record { known = λ w. refl }

  pub Panics-code : (code : A → ℕ) (a : A) → Panics (write_code code) a false
  Panics-code code a = record { known = λ w. refl }

  pub FieldPanics-put :
      (id : ℕ) (t : FieldType) (g : Encoder A) (a : A) (b : Bool)
      → Panics g a b
      → FieldPanics (put id t g a) b
  unfolding put
  FieldPanics-put id t g a b h = record { known = λ st. is_none-written id _ ∙ h.known _ }

  opt_known :
      (id : ℕ) (t : FieldType) (g : Encoder A) (r : A → Bool) (o : Option A)
      → ((a : A) → Panics g a (r a))
      → (st : Writer × ℕ) → is_none (put_opt id t g o st) ≡ any_opt r o
  unfolding put_opt
  opt_known id t g r none h st = refl
  opt_known id t g r (some a) h st = (FieldPanics-put id t g a (r a) (h a)).known st

  pub FieldPanics-opt :
      (id : ℕ) (t : FieldType) (g : Encoder A) (r : A → Bool) (o : Option A)
      → ((a : A) → Panics g a (r a))
      → FieldPanics (put_opt id t g o) (any_opt r o)
  FieldPanics-opt id t g r o h = record { known = opt_known id t g r o h }

  any_opt-false : (o : Option A) → any_opt (λ _. false) o ≡ false
  any_opt-false none = refl
  any_opt-false (some a) = refl

  pub FieldPanics-opt_false :
      (id : ℕ) (t : FieldType) (g : Encoder A) (o : Option A)
      → ((a : A) → Panics g a false)
      → FieldPanics (put_opt id t g o) false
  FieldPanics-opt_false id t g o h = record {
    known = λ st. opt_known id t g (λ _. false) o h st ∙ any_opt-false o;
  }

  refuse_known : (o : Option A) (st : Writer × ℕ) → is_none (refuse o st) ≡ is_some o
  unfolding refuse
  refuse_known none st = refl
  refuse_known (some a) st = refl

  pub FieldPanics-refuse : (o : Option A) → FieldPanics (refuse o) (is_some o)
  FieldPanics-refuse o = record { known = refuse_known o }

  pub Panics-struct :
      (g : Encoder A) (a : A) (fs : List FieldWriter) (b : Bool)
      → ((w : Writer) → g w a ≡ write_struct fs w)
      → FieldsPanic fs b
      → Panics g a b
  unfolding write_struct
  Panics-struct g a fs b e h = record { known = λ w. ap is_none (e w) ∙ h.known (w, 0) }

  each_known :
      (g : Encoder A) (r : A → Bool) (xs : List A)
      → ((a : A) → Panics g a (r a))
      → (w : Writer) → is_none (encode_each g w xs) ≡ any r xs
  unfolding encode_each
  each_known g r [] h w = refl
  each_known g r (x ∷ xs) h w = step (g w x) (r x) ((h x).known w) (each_known g r xs h)
    where
      step :
          (o : Option Writer) (c : Bool)
          → is_none o ≡ c
          → ((v : Writer) → is_none (encode_each g v xs) ≡ any r xs)
          → is_none (elim o as (λ _. Option Writer) [ none ↦ none | some w' ↦ encode_each g w' xs ])
            ≡ c || any r xs
      step none true e rest = refl
      step none false e rest = absurd (cc)
      step (some w') true e rest = absurd (cc)
      step (some w') false e rest = rest w'

  pub Panics-list :
      (g : Encoder A) (r : A → Bool) (xs : List A)
      → ((a : A) → Panics g a (r a))
      → Panics (write_list_struct g) xs (any r xs)
  unfolding write_list_struct
  Panics-list g r xs h = record { known = λ w. each_known g r xs h _ }

  any-false : (xs : List A) → any (λ _. false) xs ≡ false
  any-false [] = refl
  any-false (x ∷ xs) = any-false xs

  pub Panics-list_false :
      (g : Encoder A) (xs : List A)
      → ((a : A) → Panics g a false)
      → Panics (write_list_struct g) xs false
  unfolding write_list_struct
  Panics-list_false g xs h = record { known = λ w. each_known g (λ _. false) xs h _ ∙ any-false xs }

bool_known : (id : ℕ) (o : Option Bool) (st : Writer × ℕ) → is_none (put_bool id o st) ≡ false
unfolding put_bool
bool_known id none st = refl
bool_known id (some b) st = refl

pub FieldPanics-bool : (id : ℕ) (o : Option Bool) → FieldPanics (put_bool id o) false
FieldPanics-bool id o = record { known = bool_known id o }

pub Panics-encodings : (ts : List Encoding) → Panics write_encodings ts false
unfolding write_encodings
Panics-encodings ts = record { known = λ w. refl }

pub Panics-empty : (t : Unit {0}) → Panics write_empty_struct t false
Panics-empty t = record { known = λ w. refl }

pub FieldsPanic-end : FieldsPanic [] false
unfolding write_fields
FieldsPanic-end = record { known = λ st. refl }

-- What is behind a field is written where the field was.
then_known :
    (o : Option (Writer × ℕ)) (fs : List FieldWriter) (a b : Bool)
    → is_none o ≡ a
    → ((st : Writer × ℕ) → is_none (write_fields fs st) ≡ b)
    → is_none (elim o as (λ _. Option Writer) [ none ↦ none | some st ↦ write_fields fs st ])
      ≡ a || b
then_known none fs true b h hs = refl
then_known none fs false b h hs = absurd (cc)
then_known (some st) fs true b h hs = absurd (cc)
then_known (some st) fs false b h hs = hs st

pub FieldsPanic-or :
    (f : FieldWriter) (fs : List FieldWriter) (a b : Bool)
    → FieldPanics f a
    → FieldsPanic fs b
    → FieldsPanic (f ∷ fs) (a || b)
unfolding write_fields
FieldsPanic-or f fs a b h hs = record {
  known = λ st. then_known (f st) fs a b (h.known st) hs.known;
}

pub FieldsPanic-safe :
    (f : FieldWriter) (fs : List FieldWriter) (b : Bool)
    → FieldPanics f false
    → FieldsPanic fs b
    → FieldsPanic (f ∷ fs) b
FieldsPanic-safe f fs b h hs = FieldsPanic-or f fs false b h hs

-- The last field that may panic.
pub FieldsPanic-last :
    (f : FieldWriter) (fs : List FieldWriter) (a : Bool)
    → FieldPanics f a
    → FieldsPanic fs false
    → FieldsPanic (f ∷ fs) a
unfolding write_fields
FieldsPanic-last f fs a h hs = record {
  known = λ st. or_false a (then_known (f st) fs a false (h.known st) hs.known);
}
  where
    or_false : {x : Bool} (c : Bool) → x ≡ c || false → x ≡ c
    or_false true e = e
    or_false false e = e

pub ruleset harmless = (
  FieldsPanic-end, FieldsPanic-safe, FieldPanics-put, FieldPanics-opt_false, FieldPanics-bool,
  Panics-total, Panics-code, Panics-list_false, Panics-encodings,
)
