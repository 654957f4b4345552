-- ===== src/Compact/Outcome.antt =====
-- How a reader of compact.rs may end: where it leaves the cursor, and with which errors.
use ematix_parquet.Base.{
  ◌≤◌, ◌≡◌, refl, ◌∙◌, arith, length, true, false, Bool, Result, ok, err, if◌then◌else◌,
}
use ematix_parquet.Compact.{
  out_of_fuel, capacity_overflow, unexpected_eof, varint_overflow, invalid_enum_value,
  invalid_field_type, unknown_struct_field, missing_required_field, unexpected_field_type,
  unexpected_list_element_type, empty_union, invalid_bool_byte, Cursor, Reader, FormatError,
  from_result, ◌>>=◌,
}

abbrev pub IsWithin : Cursor → Type 0
IsWithin c = c.pos ≤ length c.buf

-- Which errors a reader may end with: those of the source, and, if `panics`, the panic of a
-- vector's capacity; never a loop of the model that was cut short.
abbrev pub Allowed : Bool → FormatError → Type 0
Allowed panics capacity_overflow = panics ≡ true
Allowed panics out_of_fuel = ⊥
Allowed panics e = Unit {0}

-- What a success says of the cursor; an error is one that is allowed.
abbrev pub Stays : {A : Type 0} → Bool → Cursor → Result FormatError (A × Cursor) → Type 0
Stays panics c (ok (a, c')) = (c'.buf ≡ c.buf) × (c.pos ≤ c'.pos) × IsWithin c'
Stays panics c (err e) = Allowed panics e

abbrev pub Safe : {A : Type 0} → Bool → Reader A → Type 0
Safe panics p = (c : Cursor) → IsWithin c → Stays panics c (p c)

-- A result whose error, if any, is one of the source.
abbrev pub IsSource : {A : Type 0} → Result FormatError A → Type 0
IsSource (ok a) = Unit {0}
IsSource (err e) = Allowed false e

source-Allowed : (b : Bool) (e : FormatError) → Allowed false e → Allowed b e
source-Allowed b (unexpected_eof _ _) h = tt
source-Allowed b varint_overflow h = tt
source-Allowed b (invalid_enum_value _ _) h = tt
source-Allowed b (invalid_field_type _) h = tt
source-Allowed b (unknown_struct_field _ _) h = tt
source-Allowed b (missing_required_field _ _) h = tt
source-Allowed b (unexpected_field_type _ _) h = tt
source-Allowed b (unexpected_list_element_type _ _) h = tt
source-Allowed b (empty_union _) h = tt
source-Allowed b (invalid_bool_byte _) h = tt
source-Allowed b capacity_overflow h = absurd (let e : false ≡ true = h in cc)
source-Allowed b out_of_fuel h = h

module _ (b : Bool) where
  module _ {A : Type 0} where
    pub result-Safe : (r : Result FormatError A) → IsSource r → Safe b (from_result r)
    result-Safe (ok a) s c h = (refl, omega arith, h)
    result-Safe (err e) s c h = source-Allowed b e s

    pub Stays-trans :
        (c c' : Cursor) (r : Result FormatError (A × Cursor))
        → c'.buf ≡ c.buf
        → c.pos ≤ c'.pos
        → Stays b c' r
        → Stays b c r
    Stays-trans c c' (ok (a, d)) same forward (same', forward', within) =
        (same' ∙ same, omega arith, within)
    Stays-trans c c' (err e) same forward h = h

    pub if-Safe : (t : Bool) (p q : Reader A) → Safe b p → Safe b q → Safe b (if t then p else q)
    if-Safe true p q hp hq = hp
    if-Safe false p q hp hq = hq

  module _ {A B : Type 0} where
    pub then-Stays :
        (c : Cursor) (r : Result FormatError (A × Cursor)) (f : A → Reader B)
        → Stays b c r
        → ((a : A) → Safe b (f a))
        → Stays b c (elim r [ ok (a, c') ↦ f a c' | err e ↦ err e ])
    then-Stays c (ok (a, c')) f (same, forward, within) hf =
        Stays-trans c c' (f a c') same forward (hf a c' within)
    then-Stays c (err e) f h hf = h

    pub bind-Safe :
        (p : Reader A) (f : A → Reader B) → Safe b p → ((a : A) → Safe b (f a)) → Safe b (p >>= f)
    bind-Safe p f hp hf c h = then-Stays c (p c) f (hp c h) hf

  module _ {A B : Type 0} where
    -- As `then-Stays`, for a second reader that is only safe where the first one can end.
    pub next-Stays :
        (d : Cursor) (r : Result FormatError (A × Cursor)) (f : A → Reader B)
        → Stays b d r
        → ((a : A) (c' : Cursor)
            → c'.buf ≡ d.buf
            → d.pos ≤ c'.pos
            → IsWithin c'
            → Stays b c' (f a c'))
        → Stays b d (elim r [ ok (a, c') ↦ f a c' | err e ↦ err e ])
    next-Stays d (ok (a, c')) f (same, forward, within) hf =
        Stays-trans d c' (f a c') same forward (hf a c' same forward within)
    next-Stays d (err e) f h hf = h
