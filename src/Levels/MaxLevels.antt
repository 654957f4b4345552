-- ===== src/Levels/MaxLevels.antt =====
-- crates/ematix-parquet-codec/src/levels.rs: `compute_max_levels`. The stack is a list with its top
-- in front; a u16 wraps, as in a release build, and an i32 is its bit pattern.
pub mod Tree
pub mod Tests
use ematix_parquet.Base.{
  ℕ, ◌+◌, ◌-◌, ◌%◌, ◌^◌, leb, ◌==◌, ◌||◌, if◌then◌else◌, Bool, Option, none, some, List, [], ◌∷◌,
  Result, ok, err,
}
use ematix_parquet.Types.{FieldRepetitionType, required, optional, repeated}
use ematix_parquet.Metadata.Schema.{SchemaElement}
use ematix_parquet.Codec.{CodecError, invalid_input}

pub record Frame : Type 0 where
  pub max_rep : ℕ
  pub max_def : ℕ
  pub remaining : ℕ

-- `num_children.unwrap_or(0)`.
abbrev pub children_of : SchemaElement → ℕ
children_of el = elim el.num_children [ none ↦ 0 | some n ↦ n ]

abbrev pub plus_one : ℕ → ℕ
plus_one level = (level + 1) % 2 ^ 16

-- The levels of an element with the levels of its parent.
abbrev pub step_levels : Option FieldRepetitionType → ℕ → ℕ → ℕ × ℕ
step_levels none parent_rep parent_def = (parent_rep, parent_def)
step_levels (some required) parent_rep parent_def = (parent_rep, parent_def)
step_levels (some optional) parent_rep parent_def = (parent_rep, plus_one parent_def)
step_levels (some repeated) parent_rep parent_def = (plus_one parent_rep, plus_one parent_def)

-- `remaining -= 1`.
abbrev pub less_one : Frame → Frame
less_one f = record f { remaining = (f.remaining + (2 ^ 32 - 1)) % 2 ^ 32 }

-- `remaining <= 0`: zero, or the sign bit is set.
abbrev pub is_done : ℕ → Bool
is_done remaining = remaining == 0 || leb (2 ^ 31) remaining

-- `while let Some(..) = stack.last()`, on the top and what is below it.
pub unwind : Frame → List Frame → List Frame
unwind top [] = top ∷ []
unwind top (parent ∷ below) =
    let rest = unwind (less_one parent) below in
    if is_done top.remaining then rest else top ∷ parent ∷ below

-- `for el in &schema[1..]`.
pub find_leaf : List SchemaElement → List Frame → ℕ → ℕ → Result CodecError (ℕ × ℕ)
find_leaf [] stack leaf_count leaf_index = err (invalid_input "leaf index out of range")
find_leaf (el ∷ schema) [] leaf_count leaf_index = err (invalid_input "schema tree underflow")
find_leaf (el ∷ schema) (top ∷ below) leaf_count leaf_index =
    let levels = step_levels el.repetition_type top.max_rep top.max_def in
    let behind = find_leaf schema (unwind (less_one top) below) (leaf_count + 1) leaf_index in
    let frame : Frame = record {
      max_rep = levels.0;
      max_def = levels.1;
      remaining = children_of el;
    } in
    let inside = find_leaf schema (frame ∷ top ∷ below) leaf_count leaf_index in
    if children_of el == 0 then (if leaf_count == leaf_index then ok levels else behind) else inside

pub compute_max_levels : List SchemaElement → ℕ → Result CodecError (ℕ × ℕ)
compute_max_levels [] leaf_index = err (invalid_input "empty schema")
compute_max_levels (root ∷ schema) leaf_index =
    let frame : Frame = record { max_rep = 0; max_def = 0; remaining = children_of root } in
    if is_done (children_of root)
    then err (invalid_input "schema root has no children")
    else find_leaf schema (frame ∷ []) 0 leaf_index
