-- ===== src/TaskGraph/Tests.antt =====
-- The six tasks of the `main` of micro-make.c.
use bare_metal_architect.Prelude.{
  ◌+ℤ◌, true, ℕ, zero, suc, ◌<◌, ◌≡◌, refl, Bool, false, some, List, [], ◌∷◌, arith, get_elem?, All,
  pos, negsuc, Outcome, done, fault, ◌>>=◌,
}
use bare_metal_architect.Prelude.{All-get_elem?}
use bare_metal_architect.TaskGraph.{
  add_dependency, create_graph, Graph, has_cycle, walk, test_tasks, test_graph_for_cycles,
}
use bare_metal_architect.Dsu.{set_union, find, find_loop, join, attach}
use bare_metal_architect.TaskGraph.Topo.{IsReady, Searched, IsDone}
use bare_metal_architect.TaskGraph.Search.{has_cycle-Searched}
use bare_metal_architect.TaskGraph.Overrun.{build, add_all, test_graph_for_cycles-build}

-- The graph that `main` tests, with one cell less in its order than it has tasks.
abbrev tasks : List ℕ → Graph
tasks cells = record {
  num_tasks = 6;
  dsu = pos 1 ∷ negsuc 2 ∷ pos 1 ∷ pos 4 ∷ negsuc 2 ∷ pos 4 ∷ [];
  state = 0 ∷ 0 ∷ 0 ∷ 0 ∷ 0 ∷ 0 ∷ [];
  topo_order = cells;
  topo_idx = 0;
  adj_list = [] ∷ (0 ∷ []) ∷ (1 ∷ []) ∷ [] ∷ (3 ∷ []) ∷ (3 ∷ []) ∷ [];
}

abbrev five_cells : List ℕ
five_cells = 0 ∷ 0 ∷ 0 ∷ 0 ∷ 0 ∷ []

abbrev order_and_answer : Graph × Bool → Outcome (List ℕ × Bool)
order_and_answer r = done (r.0.topo_order, r.1)

-- A search from the third task: its prerequisites come first.
search_third :
    (has_cycle 7 (tasks five_cells) 2 >>= order_and_answer) ≡ done (0 ∷ 1 ∷ 2 ∷ 0 ∷ 0 ∷ [], false)
unfolding has_cycle walk
search_third = refl

-- With all tasks the sixth is written behind the end.
main_faults : test_graph_for_cycles 7 (tasks five_cells) ≡ fault
unfolding test_graph_for_cycles test_tasks has_cycle walk
main_faults = refl

tasks-IsReady : (cells : List ℕ) → IsReady 7 (tasks cells)
tasks-IsReady cells = record {
  topo = record {
    black = λ v e. absurd (none_done v e);
    behind = λ i v row k t lt a b c. absurd (omega arith);
    counted = refl;
    room = omega arith;
  };
  graph = record { states = refl; rows = refl; targets = targets };
  enough = omega arith;
}
  where
    none_done : (v : ℕ) → get_elem? (tasks cells).state v ≡ some 2 → ⊥
    none_done zero e = cc
    none_done (suc zero) e = cc
    none_done (suc (suc zero)) e = cc
    none_done (suc (suc (suc zero))) e = cc
    none_done (suc (suc (suc (suc zero)))) e = cc
    none_done (suc (suc (suc (suc (suc zero))))) e = cc
    none_done (suc (suc (suc (suc (suc (suc v)))))) e = cc

    targets :
        (v : ℕ) (row : List ℕ)
        → get_elem? (tasks cells).adj_list v ≡ some row
        → All (λ t. t < 6) row
    targets v row e =
        All-get_elem? (All (λ t. t < 6)) (tasks cells).adj_list v row
          (
            tt,
            (
              (omega arith, tt),
              ((omega arith, tt), (tt, ((omega arith, tt), ((omega arith, tt), tt)))),
            ),
          )
          e

has_cycle-Searched_example :
    Searched (tasks five_cells) (IsDone 2) (has_cycle 7 (tasks five_cells) 2)
has_cycle-Searched_example =
    has_cycle-Searched 7 (tasks five_cells) 2 (tasks-IsReady five_cells) (omega arith)

-- The four dependencies that `main` adds.
abbrev dependencies : List (ℕ × ℕ)
dependencies = (1, 0) ∷ (2, 1) ∷ (4, 3) ∷ (5, 3) ∷ []

abbrev always : ℕ → Bool
always n = true

test_graph_for_cycles-build_example : test_graph_for_cycles 7 (tasks five_cells) ≡ fault
unfolding build create_graph add_all add_dependency set_union find find_loop join attach ◌+ℤ◌
test_graph_for_cycles-build_example =
    test_graph_for_cycles-build always 20 6 dependencies (tasks five_cells) (omega arith)
      (omega arith, (omega arith, (omega arith, (omega arith, tt)))) refl 7 (omega arith)
