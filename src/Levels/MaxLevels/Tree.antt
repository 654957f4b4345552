-- ===== src/Levels/MaxLevels/Tree.antt =====
-- `compute_max_levels` on the depth-first list of a schema tree: the levels of a leaf are those of
-- the path to it.
use ematix_parquet.Base.{
  ℕ, zero, suc, ◌+◌, ◌-◌, ◌%◌, ◌^◌, ◌≤◌, ◌<◌, ◌≡◌, ◌∙◌, refl, sym, ap, arith, ◌==◌, if◌then◌else◌,
  true, false, Option, none, some, List, [], ◌∷◌, ◌++◌, append_assoc, append-nil, Result, ok, err,
}
use ematix_parquet.Metadata.Schema.{SchemaElement}
use ematix_parquet.Codec.{CodecError, invalid_input}
use ematix_parquet.Levels.MaxLevels.{
  Frame, children_of, step_levels, less_one, is_done, unwind, find_leaf, compute_max_levels,
}

-- A schema, as a tree of its elements.
mutual
  pub data Node : Type 0 where
    leaf : SchemaElement → Node
    group : SchemaElement → Nodes → Node

  pub data Nodes : Type 0 where
    last : Node → Nodes
    more : Node → Nodes → Nodes

abbrev pub count : Nodes → ℕ
count (last t) = 1
count (more t ts) = suc (count ts)

-- The elements, each in front of its children.
unfoldable mutual
  pub flatten : Node → List SchemaElement
  flatten (leaf el) = el ∷ []
  flatten (group el ts) = el ∷ flatten_all ts

  pub flatten_all : Nodes → List SchemaElement
  flatten_all (last t) = flatten t
  flatten_all (more t ts) = flatten t ++ flatten_all ts

-- A leaf has no children, a group as many as it says, and they number below 2^31.
unfoldable mutual
  pub IsNode : Node → Type 0
  IsNode (leaf el) = children_of el ≡ 0
  IsNode (group el ts) = (children_of el ≡ count ts) × (count ts < 2 ^ 31) × IsForest ts

  pub IsForest : Nodes → Type 0
  IsForest (last t) = IsNode t
  IsForest (more t ts) = IsNode t × IsForest ts

-- The levels of the leaves, in order, below a parent with the levels `rep` and `def`.
unfoldable mutual
  pub leaves : Node → ℕ → ℕ → List (ℕ × ℕ)
  leaves (leaf el) rep def = step_levels el.repetition_type rep def ∷ []
  leaves (group el ts) rep def =
      let levels = step_levels el.repetition_type rep def in leaves_all ts levels.0 levels.1

  pub leaves_all : Nodes → ℕ → ℕ → List (ℕ × ℕ)
  leaves_all (last t) rep def = leaves t rep def
  leaves_all (more t ts) rep def = leaves t rep def ++ leaves_all ts rep def

abbrev Answer : Type 0
Answer = Result CodecError (ℕ × ℕ)

-- The leaf with the index among these, or what comes behind them.
abbrev pick : List (ℕ × ℕ) → ℕ → ℕ → (ℕ → Answer) → Answer
pick [] leaf_count leaf_index next = next leaf_count
pick (p ∷ ps) leaf_count leaf_index next =
    let rest = pick ps (leaf_count + 1) leaf_index next in
    if leaf_count == leaf_index then ok p else rest

pick-append :
    (ps qs : List (ℕ × ℕ)) (leaf_count leaf_index : ℕ) (next : ℕ → Answer)
    → pick (ps ++ qs) leaf_count leaf_index next
      ≡ pick ps leaf_count leaf_index (λ n. pick qs n leaf_index next)
pick-append [] qs leaf_count leaf_index next = refl
pick-append (p ∷ ps) qs leaf_count leaf_index next =
    ap (λ r. if leaf_count == leaf_index then ok p else r)
      (pick-append ps qs (leaf_count + 1) leaf_index next)

-- A frame whose last child ends is popped; any other stays, with one child less.
unwind_last :
    (f g : Frame) (below : List Frame)
    → f.remaining ≡ 1
    → unwind (less_one f) (g ∷ below) ≡ unwind (less_one g) below
unfolding unwind
unwind_last f g below h = rw h

unwind_more :
    (f g : Frame) (below : List Frame) (n : ℕ)
    → f.remaining ≡ suc n
    → 1 ≤ n
    → n < 2 ^ 31
    → unwind (less_one f) (g ∷ below) ≡ less_one f ∷ g ∷ below
unfolding unwind
unwind_more f g below n h pos few =
    let e : is_done ((f.remaining + (2 ^ 32 - 1)) % 2 ^ 32) ≡ false = ground arith in rw e refl

count-some : (ts : Nodes) → 1 ≤ count ts
count-some (last t) = omega arith
count-some (more t ts) = omega arith

mutual
  unfolding find_leaf flatten flatten_all IsNode IsForest leaves leaves_all

  find_leaf-node :
      (t : Node) (els : List SchemaElement) (top : Frame) (below : List Frame)
      (leaf_count leaf_index : ℕ)
      → IsNode t
      → find_leaf (flatten t ++ els) (top ∷ below) leaf_count leaf_index
        ≡ pick
            (leaves t top.max_rep top.max_def)
            leaf_count
            leaf_index
            (λ n. find_leaf els (unwind (less_one top) below) n leaf_index)
  find_leaf-node (leaf el) els top below leaf_count leaf_index h = rw h refl
  find_leaf-node (group el ts) els top below leaf_count leaf_index (h, few, hs) =
      let some : children_of el == 0 ≡ false = ground (arith, count-some ts) in
      let levels = step_levels el.repetition_type top.max_rep top.max_def in
      rw some (
        find_leaf-nodes ts els
          (record { max_rep = levels.0; max_def = levels.1; remaining = children_of el }) top below
          leaf_count leaf_index hs h few)

  -- The children of a group, below which there is another frame.
  find_leaf-nodes :
      (ts : Nodes) (els : List SchemaElement) (f g : Frame) (below : List Frame)
      (leaf_count leaf_index : ℕ)
      → IsForest ts
      → f.remaining ≡ count ts
      → count ts < 2 ^ 31
      → find_leaf (flatten_all ts ++ els) (f ∷ g ∷ below) leaf_count leaf_index
        ≡ pick
            (leaves_all ts f.max_rep f.max_def)
            leaf_count
            leaf_index
            (λ n. find_leaf els (unwind (less_one g) below) n leaf_index)
  find_leaf-nodes (last t) els f g below leaf_count leaf_index h e few =
      find_leaf-node t els f (g ∷ below) leaf_count leaf_index h
      ∙ ap
          (λ stack.
            pick (leaves t f.max_rep f.max_def) leaf_count leaf_index
              (λ n. find_leaf els stack n leaf_index))
          (unwind_last f g below e)
  find_leaf-nodes (more t ts) els f g below leaf_count leaf_index (h, hs) e few =
      let ps = leaves t f.max_rep f.max_def in
      ap (λ schema. find_leaf schema (f ∷ g ∷ below) leaf_count leaf_index)
        (append_assoc (flatten t) (flatten_all ts) els)
      ∙ find_leaf-node t (flatten_all ts ++ els) f (g ∷ below) leaf_count leaf_index h
      ∙ ap
          (λ stack.
            pick ps leaf_count leaf_index
              (λ n. find_leaf (flatten_all ts ++ els) stack n leaf_index))
          (unwind_more f g below (count ts) e (count-some ts) (omega arith))
      ∙ ap (pick ps leaf_count leaf_index) (λ i n.
        find_leaf-nodes ts els (less_one f) g below n leaf_index hs (omega arith) (omega arith) i)
      ∙ sym (
          pick-append ps (leaves_all ts f.max_rep f.max_def) leaf_count leaf_index
            (λ n. find_leaf els (unwind (less_one g) below) n leaf_index))

-- Out of range.
abbrev none_left : Answer
none_left = err (invalid_input "leaf index out of range")

-- The children of the root, which is the last frame.
find_leaf-root :
    (ts : Nodes) (f : Frame) (leaf_count leaf_index : ℕ)
    → IsForest ts
    → find_leaf (flatten_all ts) (f ∷ []) leaf_count leaf_index
      ≡ pick (leaves_all ts f.max_rep f.max_def) leaf_count leaf_index (λ _. none_left)
unfolding find_leaf unwind flatten_all IsForest leaves_all
find_leaf-root (last t) f leaf_count leaf_index h =
    ap (λ schema. find_leaf schema (f ∷ []) leaf_count leaf_index) (sym (append-nil (flatten t)))
    ∙ find_leaf-node t [] f [] leaf_count leaf_index h
find_leaf-root (more t ts) f leaf_count leaf_index (h, hs) =
    let ps = leaves t f.max_rep f.max_def in
    find_leaf-node t (flatten_all ts) f [] leaf_count leaf_index h
    ∙ ap (pick ps leaf_count leaf_index) (λ i n. find_leaf-root ts (less_one f) n leaf_index hs i)
    ∙ sym
        (pick-append ps (leaves_all ts f.max_rep f.max_def) leaf_count leaf_index (λ _. none_left))

abbrev pub nth : List (ℕ × ℕ) → ℕ → Option (ℕ × ℕ)
nth [] i = none
nth (p ∷ ps) zero = some p
nth (p ∷ ps) (suc i) = nth ps i

abbrev pub found : Option (ℕ × ℕ) → Answer
found none = none_left
found (some p) = ok p

pick-nth :
    (ps : List (ℕ × ℕ)) (leaf_count i : ℕ)
    → pick ps leaf_count (leaf_count + i) (λ _. none_left) ≡ found (nth ps i)
pick-nth [] leaf_count i = refl
pick-nth (p ∷ ps) leaf_count zero =
    let here : leaf_count == leaf_count + 0 ≡ true = ground arith in rw here refl
pick-nth (p ∷ ps) leaf_count (suc i) =
    let later : leaf_count == leaf_count + suc i ≡ false = ground arith in
    let next : leaf_count + suc i ≡ (leaf_count + 1) + i = omega arith in
    rw later
      (ap (λ n. pick ps (leaf_count + 1) n (λ _. none_left)) next ∙ pick-nth ps (leaf_count + 1) i)

-- On the depth-first list of a schema tree, in which a leaf has no children and a group says how
-- many it has, at least 1 and fewer than 2^31, `compute_max_levels` gives for the index of a leaf
-- the levels that the elements on the path to it add up to, and the error of an index out of range
-- for any other.
pub compute_max_levels-leaves :
    (root : SchemaElement) (ts : Nodes) (leaf_index : ℕ)
    → IsNode (group root ts)
    → compute_max_levels (flatten (group root ts)) leaf_index
      ≡ found (nth (leaves_all ts 0 0) leaf_index)
unfolding compute_max_levels flatten IsNode
compute_max_levels-leaves root ts leaf_index (h, few, hs) =
    let some_left : is_done (children_of root) ≡ false = ground (arith, count-some ts) in
    let same : leaf_index ≡ 0 + leaf_index = omega arith in
    rw some_left (
      find_leaf-root ts (record { max_rep = 0; max_def = 0; remaining = children_of root }) 0
        leaf_index hs
      ∙ ap (λ n. pick (leaves_all ts 0 0) 0 n (λ _. none_left)) same
      ∙ pick-nth (leaves_all ts 0 0) 0 leaf_index)
