-- ===== src/Compact/Wire.antt =====
-- The compact protocol on the wire, described without the readers and writers: which bytes stand
-- for a number, a field header, a list header, a string and a list.
use ematix_parquet.Base.{
  ℕ, ◌+◌, ◌-◌, ◌*◌, ◌%◌, ◌^◌, ◌≤◌, ◌<◌, ltb, if◌then◌else◌, List, [], ◌∷◌, ◌++◌,
}

-- LEB128: seven bits a byte, lowest first, the top bit set on all bytes but the last.
abbrev pub IsLeb : List ℕ → Type 0
IsLeb [] = ⊥
IsLeb (b ∷ []) = b < 128
IsLeb (b ∷ (x ∷ xs)) = (128 ≤ b) × (b < 256) × IsLeb (x ∷ xs)

-- The number that the bytes spell.
abbrev pub leb_value : List ℕ → ℕ
leb_value [] = 0
leb_value (b ∷ bs) = b % 128 + 128 * leb_value bs

-- Every byte has its top bit set: a number that does not end.
abbrev pub IsUnended : List ℕ → Type 0
IsUnended [] = Unit {0}
IsUnended (b ∷ bs) = (128 ≤ b) × (b < 256) × IsUnended bs

-- The zigzag code of a two's-complement pattern of `w` bits: 0, -1, 1, -2 are 0, 1, 2, 3.
abbrev pub zigzag_code : ℕ → ℕ → ℕ
zigzag_code w v = if ltb v (2 ^ (w - 1)) then 2 * v else 2 * (2 ^ w - 1 - v) + 1

-- The bytes of the items, one after the other.
abbrev pub each {ℓ} : {A : Type ℓ} → (A → List ℕ) → List A → List ℕ
each f [] = []
each f (x ∷ xs) = f x ++ each f xs
