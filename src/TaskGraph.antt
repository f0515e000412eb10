-- ===== src/TaskGraph.antt =====
-- The tasks of graphs_bootcamp/micro-make.c and their prerequisites: the search for a cycle and the
-- order of the execution.
pub mod Topo
pub mod Mark
pub mod Search
pub mod Overrun
mod Tests
use bare_metal_architect.Prelude.{
  ℕ, zero, suc, ◌+◌, ◌-◌, ◌*◌, ◌/◌, ◌%◌, ◌^◌, ◌≤◌, ◌<◌, ◌≡◌, refl, sym, ap, ◌∙◌, ◌≢◌, ◌↔◌, ◌⊎◌, inl,
  inr, Bool, true, false, ◌&&◌, ◌||◌, not, Option, none, some, List, [], ◌∷◌, ◌++◌, arith, ltb, leb,
  ◌==◌, if◌then◌else◌, Bool-cases, Option-cases, length, get_elem?, get_elem?-some, set, replicate,
  take, drop, All, length-append, length-set, length-replicate, get_elem?-set_self,
  get_elem?-set_ne, get_elem?-replicate, ℤ, pos, negsuc, to_uint8, Outcome, done, exits, fault,
  ◌>>=◌, ◌>>◌, or_fault, index, index_int, granted, ℕ_discrete, dec_lt, ltb→lt, lt→ltb, leb→le,
  ==_iff,
}
use bare_metal_architect.Dsu.{set_union}

-- `struct Graph`; a task that is not visited has state 0, one on the path of the search 1, one that
-- is done 2.
pub record Graph : Type 0 where
  pub num_tasks : ℕ
  pub dsu : List ℤ
  pub state : List ℕ
  pub topo_order : List ℕ
  pub topo_idx : ℕ
  pub adj_list : List (List ℕ)

-- With the five allocations; the cells of `topo_order` are not set.
unfoldable pub create_graph : (ℕ → Bool) → ℕ → Outcome Graph
create_graph alloc vertices = do
  granted (alloc 0)
  granted (alloc 1)
  granted (alloc 2)
  granted (alloc 3)
  granted (alloc 4)
  done (record {
    num_tasks = vertices;
    dsu = replicate vertices (negsuc 0);
    state = replicate vertices 0;
    topo_order = replicate (vertices - 1) 0;
    topo_idx = 0;
    adj_list = replicate vertices [];
  })

-- A union that was not given enough fuel does not return.
abbrev pub settled : Option (Outcome (List ℤ)) → Outcome (List ℤ)
settled none = fault
settled (some r) = r

unfoldable pub add_dependency : ℕ → Bool → Graph → ℕ → ℕ → Outcome Graph
add_dependency fuel alloc graph task prerequisite = do
  granted alloc
  head ← index graph.adj_list task
  dsu ← settled (set_union fuel (pos task) (pos prerequisite) graph.dsu)
  done (record graph { adj_list = set graph.adj_list task (prerequisite ∷ head); dsu = dsu })

-- The walk over the prerequisites of a task, until one of them has a cycle.
unfoldable pub walk : (Graph → ℕ → Outcome (Graph × Bool)) → Graph → List ℕ → Outcome (Graph × Bool)
walk visit graph [] = done (graph, false)
walk visit graph (t ∷ next) = do
  r ← visit graph t
  if r.1 then done (r.0, true) else walk visit (r.0) next

-- On fuel for the depth of the recursion.
unfoldable pub has_cycle : ℕ → Graph → ℕ → Outcome (Graph × Bool)
has_cycle zero graph current_task = fault
has_cycle (suc fuel) graph current_task = if ltb graph.num_tasks current_task then exits else do
  status ← index graph.state current_task
  if status == 1
      then done (graph, true)
      else if status == 2
      then done (graph, false)
      else if status == 0
      then (do
        edges ← index graph.adj_list current_task
        r ← walk (has_cycle fuel) (record graph { state = set graph.state current_task 1 }) edges
        if r.1 then done (r.0, true) else do
          _ ← index r.0.topo_order r.0.topo_idx
          done (
            record r.0 {
              state = set r.0.state current_task 2;
              topo_order = set r.0.topo_order r.0.topo_idx current_task;
              topo_idx = r.0.topo_idx + 1;
            },
            false,
          ))
      else exits

-- The first loop of `test_graph_for_cycles`, with what it prints for each task that it starts from.
unfoldable pub test_tasks : ℕ → ℕ → ℕ → Graph → Outcome (Graph × List (ℕ × Bool))
test_tasks fuel zero i graph = done (graph, [])
test_tasks fuel (suc n) i graph = do
  status ← index graph.state i
  if status == 0
      then (do
        r ← has_cycle fuel graph i
        rest ← test_tasks fuel n (suc i) (r.0)
        done (rest.0, (i, r.1) ∷ rest.1))
      else test_tasks fuel n (suc i) graph

-- Its second loop: the order that it prints.
unfoldable pub read_order : ℕ → ℕ → List ℕ → Outcome (List ℕ)
read_order zero i cells = done []
read_order (suc n) i cells = do
  task ← index cells i
  rest ← read_order n (suc i) cells
  done (task ∷ rest)

unfoldable pub test_graph_for_cycles : ℕ → Graph → Outcome (Graph × List (ℕ × Bool) × List ℕ)
test_graph_for_cycles fuel graph = do
  r ← test_tasks fuel graph.num_tasks 0 graph
  order ← read_order r.0.num_tasks 0 r.0.topo_order
  done (r.0, r.1, order)
