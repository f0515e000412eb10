-- ===== src/BinaryTree.antt =====
-- The binary tree of data-structures/binary-tree.c: insertions and the walk in order.
pub mod InOrder
mod Tests
use bare_metal_architect.Prelude.{
  ℕ, zero, suc, ◌+◌, ◌-◌, ◌*◌, ◌/◌, ◌%◌, ◌^◌, ◌≤◌, ◌<◌, ◌≡◌, refl, sym, ap, ◌∙◌, ◌≢◌, ◌↔◌, ◌⊎◌, inl,
  inr, Bool, true, false, ◌&&◌, ◌||◌, not, Option, none, some, List, [], ◌∷◌, ◌++◌, arith, ltb, leb,
  ◌==◌, if◌then◌else◌, Bool-cases, Option-cases, length, get_elem?, get_elem?-some, set, replicate,
  take, drop, All, length-append, length-set, length-replicate, get_elem?-set_self,
  get_elem?-set_ne, get_elem?-replicate, ℤ, pos, negsuc, to_uint8, Outcome, done, exits, fault,
  ◌>>=◌, ◌>>◌, or_fault, index, index_int, granted, ℕ_discrete, dec_lt, ltb→lt, lt→ltb, leb→le,
  ==_iff,
}
use bare_metal_architect.Prelude.{ltb_ℤ}

-- A null pointer is `empty`.
pub data TreeNode : Type 0 where
  empty : TreeNode
  node : ℤ → TreeNode → TreeNode → TreeNode

unfoldable pub tree_create_node : Bool → ℤ → Outcome TreeNode
tree_create_node alloc value = do granted alloc; done (node value empty empty)

-- With the allocation that an insertion at an empty place makes.
unfoldable pub tree_insert : Bool → TreeNode → ℤ → Outcome TreeNode
tree_insert alloc empty value = do granted alloc; done (node value empty empty)
tree_insert alloc (node root left right) value =
    let to_right = tree_insert alloc right value in
    let to_left = tree_insert alloc left value in
    if ltb_ℤ root value
    then (do grown ← to_right; done (node root left grown))
    else if ltb_ℤ value root
    then (do grown ← to_left; done (node root grown right))
    else done (node root left right)

-- The values that are printed.
unfoldable pub tree_print_inorder : TreeNode → List ℤ
tree_print_inorder empty = []
tree_print_inorder (node root left right) =
    tree_print_inorder left ++ (root ∷ tree_print_inorder right)

-- Some insertions after one another.
unfoldable pub insert_values : TreeNode → List ℤ → Outcome TreeNode
insert_values tree [] = done tree
insert_values tree (value ∷ rest) = do grown ← tree_insert true tree value; insert_values grown rest
