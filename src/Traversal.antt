-- ===== src/Traversal.antt =====
-- The breadth-first and the depth-first search of graphs/BFS_and_DFS.c, on the matrix of a graph
-- whose vertices are the indices from 1 on.
pub mod Marks
pub mod Breadth
pub mod Depth
mod Tests
use bare_metal_architect.Prelude.{
  ℕ, zero, suc, ◌+◌, ◌-◌, ◌*◌, ◌/◌, ◌%◌, ◌^◌, ◌≤◌, ◌<◌, ◌≡◌, refl, sym, ap, ◌∙◌, ◌≢◌, ◌↔◌, ◌⊎◌, inl,
  inr, Bool, true, false, ◌&&◌, ◌||◌, not, Option, none, some, List, [], ◌∷◌, ◌++◌, arith, ltb, leb,
  ◌==◌, if◌then◌else◌, Bool-cases, Option-cases, length, get_elem?, get_elem?-some, set, replicate,
  take, drop, All, length-append, length-set, length-replicate, get_elem?-set_self,
  get_elem?-set_ne, get_elem?-replicate, ℤ, pos, negsuc, to_uint8, Outcome, done, exits, fault,
  ◌>>=◌, ◌>>◌, or_fault, index, index_int, granted, ℕ_discrete, dec_lt, ltb→lt, lt→ltb, leb→le,
  ==_iff,
}
use bare_metal_architect.Chains.{append_tail}

-- With the allocation of the node; the nodes of the queue by their values.
unfoldable pub enqueue : Bool → List ℕ → ℕ → Outcome (List ℕ)
enqueue alloc queue value = do granted alloc; done (append_tail queue value)

unfoldable pub dequeue : List ℕ → Option (ℕ × List ℕ)
dequeue [] = none
dequeue (head ∷ rest) = some (head, rest)

-- `visited` and the vertices printed.
pub record Walk : Type 0 where
  pub visited : List ℕ
  pub printed : List ℕ

-- An int that is 1.
abbrev pub is_one : ℤ → Bool
is_one (pos n) = n == 1
is_one (negsuc n) = false

-- `matrix[i][j] == 1`.
unfoldable pub edge : List (List ℤ) → ℕ → ℕ → Outcome Bool
edge matrix i j = do row ← index matrix i; cell ← index row j; done (is_one cell)

-- `visited[v] = 1`, beside the print.
abbrev pub visit : Walk → ℕ → Walk
visit w v = record { visited = set w.visited v 1; printed = w.printed ++ (v ∷ []) }

-- The body of the loop over the neighbours, behind the test for an edge. The allocations are
-- numbered by the vertices printed before them.
unfoldable pub meet : (ℕ → Bool) → ℕ → Walk × List ℕ → Outcome (Walk × List ℕ)
meet alloc j s = do
  mark ← index s.0.visited j
  if mark == 0
      then (do queue ← enqueue (alloc (length s.0.printed)) s.1 j; done (visit s.0 j, queue))
      else done s

-- The loop over the neighbours of `i`, with `n` more from `j` on.
unfoldable pub neighbours :
    (ℕ → Bool) → List (List ℤ) → ℕ → ℕ → ℕ → Walk × List ℕ → Outcome (Walk × List ℕ)
neighbours alloc matrix i zero j s = done s
neighbours alloc matrix i (suc n) j s = do
  b ← edge matrix i j
  s' ← if b then meet alloc j s else done s
  neighbours alloc matrix i n (suc j) s'

-- The loop until the queue is empty, on fuel.
unfoldable pub serve : ℕ → (ℕ → Bool) → List (List ℤ) → ℕ → Walk × List ℕ → Outcome (Walk × List ℕ)
serve zero alloc matrix matrix_size s = fault
serve (suc fuel) alloc matrix matrix_size s = elim (dequeue s.1) [
  | none ↦ done s
  | some (i, rest) ↦ do
    s' ← neighbours alloc matrix i (matrix_size - 1) 1 (s.0, rest)
    serve fuel alloc matrix matrix_size s'
]

-- Nothing is visited.
abbrev pub fresh : Walk
fresh = record { visited = replicate 7 0; printed = [] }

-- `BFS`, with the queue that it is given and returns.
unfoldable pub bfs : ℕ → (ℕ → Bool) → List (List ℤ) → ℕ → ℕ → List ℕ → Outcome (Walk × List ℕ)
bfs fuel alloc matrix matrix_size start_vertex queue = do
  _ ← index fresh.visited start_vertex
  queue' ← enqueue (alloc 0) queue start_vertex
  serve fuel alloc matrix matrix_size (visit fresh start_vertex, queue')

-- The loop of `DFS` over the neighbours of `v`.
unfoldable pub branches :
    (Walk → ℕ → Outcome Walk) → List (List ℤ) → ℕ → ℕ → ℕ → Walk → Outcome Walk
branches search matrix v zero i w = done w
branches search matrix v (suc n) i w = do
  b ← edge matrix v i
  w' ← if b then (do mark ← index w.visited i; if mark == 0 then search w i else done w) else done w
  branches search matrix v n (suc i) w'

-- `DFS`, with the static array `visited` passed from call to call; on fuel for the depth.
unfoldable pub dfs : ℕ → List (List ℤ) → ℕ → Walk → ℕ → Outcome Walk
dfs zero matrix matrix_size w start_vertex = fault
dfs (suc fuel) matrix matrix_size w start_vertex = do
  mark ← index w.visited start_vertex
  if mark == 0
      then branches (dfs fuel matrix matrix_size) matrix start_vertex (matrix_size - 1) 1
          (visit w start_vertex)
      else done w
