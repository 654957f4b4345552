-- ===== src/Levels/MaxLevels/Tests.antt =====
-- The levels of a schema with an optional group.
use ematix_parquet.Base.{ℕ, ◌≡◌, refl, arith, Option, some, none, [], ok}
use ematix_parquet.Types.{FieldRepetitionType, required, optional, repeated}
use ematix_parquet.Metadata.Schema.{SchemaElement}
use ematix_parquet.Levels.MaxLevels.{find_leaf, unwind, compute_max_levels}
use ematix_parquet.Levels.MaxLevels.Tree.{
  Nodes, leaf, group, last, more, IsNode, flatten, leaves_all, nth, found,
  compute_max_levels-leaves,
}

abbrev element : Option FieldRepetitionType → Option ℕ → SchemaElement
element repetition_type num_children = record {
  column_type = none;
  type_length = none;
  repetition_type = repetition_type;
  name = [];
  num_children = num_children;
  converted_type = none;
  scale = none;
  precision = none;
  field_id = none;
  logical_type = none;
}

abbrev root : SchemaElement
root = element none (some 2)

-- An optional group of a repeated leaf, and a required leaf.
abbrev below : Nodes
below =
    more (group (element (some optional) (some 1)) (last (leaf (element (some repeated) none))))
      (last (leaf (element (some required) none)))

below-IsNode : IsNode (group root below)
unfolding IsNode
below-IsNode = (refl, omega arith, ((refl, omega arith, refl), refl))

first_leaf : compute_max_levels (flatten (group root below)) 0 ≡ ok (1, 2)
unfolding compute_max_levels find_leaf unwind flatten
first_leaf = refl

second_leaf : compute_max_levels (flatten (group root below)) 1 ≡ ok (0, 0)
unfolding compute_max_levels find_leaf unwind flatten
second_leaf = refl

compute_max_levels-leaves_example :
    compute_max_levels (flatten (group root below)) 1 ≡ found (nth (leaves_all below 0 0) 1)
compute_max_levels-leaves_example = compute_max_levels-leaves root below 1 below-IsNode
