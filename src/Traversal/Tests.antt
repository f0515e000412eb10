-- ===== src/Traversal/Tests.antt =====
-- The graph of the `main` of BFS_and_DFS.c.
use bare_metal_architect.Prelude.{
  ℕ, ◌≡◌, refl, Bool, true, List, [], ◌∷◌, arith, ℤ, pos, done, ◌>>=◌,
}
use bare_metal_architect.Traversal.{
  Walk, edge, enqueue, dequeue, meet, neighbours, serve, fresh, bfs, branches, dfs,
}
use bare_metal_architect.Traversal.Marks.{IsGrid, Explores}
use bare_metal_architect.Traversal.Breadth.{bfs-Explores}
use bare_metal_architect.Traversal.Depth.{dfs-Explores}
use bare_metal_architect.Chains.{append_tail}

abbrev row : List ℕ → List ℤ
row [] = []
row (n ∷ rest) = pos n ∷ row rest

abbrev matrix : List (List ℤ)
matrix =
    row (0 ∷ 0 ∷ 0 ∷ 0 ∷ 0 ∷ 0 ∷ 0 ∷ [])
    ∷ row (0 ∷ 0 ∷ 1 ∷ 1 ∷ 0 ∷ 0 ∷ 0 ∷ [])
    ∷ row (0 ∷ 1 ∷ 0 ∷ 0 ∷ 1 ∷ 0 ∷ 0 ∷ [])
    ∷ row (0 ∷ 1 ∷ 0 ∷ 0 ∷ 1 ∷ 0 ∷ 0 ∷ [])
    ∷ row (0 ∷ 0 ∷ 1 ∷ 1 ∷ 0 ∷ 1 ∷ 1 ∷ [])
    ∷ row (0 ∷ 0 ∷ 0 ∷ 0 ∷ 1 ∷ 0 ∷ 0 ∷ [])
    ∷ row (0 ∷ 0 ∷ 0 ∷ 0 ∷ 1 ∷ 0 ∷ 0 ∷ [])
    ∷ []

abbrev always : ℕ → Bool
always k = true

bfs_order :
    (bfs 8 always matrix 7 1 [] >>= λ s. done s.0.printed) ≡ done (1 ∷ 2 ∷ 3 ∷ 4 ∷ 5 ∷ 6 ∷ [])
unfolding edge enqueue dequeue meet neighbours serve bfs append_tail
bfs_order = refl

dfs_order : (dfs 8 matrix 7 fresh 1 >>= λ w. done w.printed) ≡ done (1 ∷ 2 ∷ 4 ∷ 3 ∷ 5 ∷ 6 ∷ [])
unfolding edge branches dfs
dfs_order = refl

matrix-IsGrid : IsGrid matrix
matrix-IsGrid = record {
  rows = refl;
  columns = (refl, (refl, (refl, (refl, (refl, (refl, (refl, tt)))))));
}

bfs-Explores_example :
    (w : Walk) × (bfs 8 always matrix 7 1 [] ≡ done (w, [])) × Explores matrix 7 1 w
bfs-Explores_example =
    bfs-Explores 8 always matrix 7 1 (λ k. refl) matrix-IsGrid (omega arith) (omega arith)
      (omega arith)

dfs-Explores_example :
    (w : Walk) × (dfs 8 matrix 7 fresh 1 ≡ done w)
    × Explores matrix 7 1 w
    × (dfs 8 matrix 7 w 1 ≡ done w)
dfs-Explores_example =
    dfs-Explores 8 matrix 7 1 matrix-IsGrid (omega arith) (omega arith) (omega arith)
