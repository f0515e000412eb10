-- ===== src/BinaryTree/Tests.antt =====
-- The tree of the `main` of binary-tree.c.
use bare_metal_architect.Prelude.{◌≡◌, refl, true, [], ◌∷◌, pos, negsuc, done, ◌>>=◌}
use bare_metal_architect.BinaryTree.{
  TreeNode, empty, node, tree_create_node, tree_insert, tree_print_inorder, insert_values,
}
use bare_metal_architect.BinaryTree.InOrder.{IsSorted, Inserted, tree_insert-eq-insert_sorted}

main_values :
    (do
      tree ← tree_create_node true (pos 14)
      grown ← insert_values tree (pos 3 ∷ pos 2 ∷ pos 5 ∷ pos 6 ∷ pos 4 ∷ [])
      done (tree_print_inorder grown))
    ≡ done (pos 2 ∷ pos 3 ∷ pos 4 ∷ pos 5 ∷ pos 6 ∷ pos 14 ∷ [])
unfolding tree_create_node insert_values tree_insert tree_print_inorder
main_values = refl

abbrev tree : TreeNode
tree = node (pos 14) (node (pos 3) empty empty) empty

tree-IsSorted : IsSorted (tree_print_inorder tree)
unfolding tree_print_inorder
tree-IsSorted = ((refl, tt), (tt, tt))

tree_insert-eq-insert_sorted_example :
    (r : Inserted tree (negsuc 4)) × IsSorted (tree_print_inorder r.grown)
tree_insert-eq-insert_sorted_example = tree_insert-eq-insert_sorted tree (negsuc 4) tree-IsSorted
