-- ===== src/TaskGraph/Topo.antt =====
-- The order of the execution: every task stands behind its prerequisites.
use bare_metal_architect.Prelude.{
  ℕ, ◌≤◌, ◌<◌, ◌≡◌, refl, sym, ap, ◌∙◌, ◌≢◌, Bool, true, false, some, List, [], ◌∷◌, arith, ◌==◌,
  if◌then◌else◌, length, get_elem?, All, Outcome, done, exits, fault, ◌>>=◌,
}
use bare_metal_architect.MinHeap.Swap.{count}
use bare_metal_architect.TaskGraph.{Graph, walk}

-- A task in one of the first n cells of the order.
pub record Listed (g : Graph) (v n : ℕ) : Type 0 where
  pub place : ℕ
  pub before : place < n
  pub at : get_elem? g.topo_order place ≡ some v

-- The tasks that are done stand in the order, as many as there are, and each behind its
-- prerequisites.
pub record IsTopo (g : Graph) : Type 0 where
  pub black : (v : ℕ) → get_elem? g.state v ≡ some 2 → Listed g v g.topo_idx
  pub behind :
      (i v : ℕ) (row : List ℕ) (k t : ℕ)
      → i < g.topo_idx
      → get_elem? g.topo_order i ≡ some v
      → get_elem? g.adj_list v ≡ some row
      → get_elem? row k ≡ some t
      → Listed g t i
  pub counted : count (λ s. s == 2) g.state ≡ g.topo_idx
  pub room : g.topo_idx ≤ length g.topo_order

-- How many tasks were not visited.
abbrev pub unvisited : Graph → ℕ
unvisited g = count (λ s. s == 0) g.state

-- A state and a row of prerequisites for each task.
pub record IsGraph (g : Graph) : Type 0 where
  pub states : length g.state ≡ g.num_tasks
  pub rows : length g.adj_list ≡ g.num_tasks
  pub targets :
      (v : ℕ) (row : List ℕ) → get_elem? g.adj_list v ≡ some row → All (λ t. t < g.num_tasks) row

-- What a search on some fuel starts from.
pub record IsReady (fuel : ℕ) (g : Graph) : Type 0 where
  pub topo : IsTopo g
  pub graph : IsGraph g
  pub enough : unvisited g < fuel

-- A graph in which the search went on: tasks that were visited keep their state, and no state above
-- 2 is new.
pub record Grown (g g' : Graph) : Type 0 where
  pub same_tasks : g'.num_tasks ≡ g.num_tasks
  pub same_edges : g'.adj_list ≡ g.adj_list
  pub same_room : length g'.topo_order ≡ length g.topo_order
  pub same_states : length g'.state ≡ length g.state
  pub more : g.topo_idx ≤ g'.topo_idx
  pub fewer : unvisited g' ≤ unvisited g
  pub kept : (v s : ℕ) → get_elem? g.state v ≡ some s → s ≢ 0 → get_elem? g'.state v ≡ some s
  pub unknown : (v s : ℕ) → get_elem? g'.state v ≡ some s → 2 < s → get_elem? g.state v ≡ some s

pub Grown-refl : (g : Graph) → Grown g g
Grown-refl g = record {
  same_tasks = refl;
  same_edges = refl;
  same_room = refl;
  same_states = refl;
  more = omega arith;
  fewer = omega arith;
  kept = λ v s e ne. e;
  unknown = λ v s e lt. e;
}

pub Grown-trans : (a b c : Graph) → Grown a b → Grown b c → Grown a c
Grown-trans a b c x y = record {
  same_tasks = y.same_tasks ∙ x.same_tasks;
  same_edges = y.same_edges ∙ x.same_edges;
  same_room = y.same_room ∙ x.same_room;
  same_states = y.same_states ∙ x.same_states;
  more = omega (arith, x.more, y.more);
  fewer = omega (arith, x.fewer, y.fewer);
  kept = λ v s e ne. y.kept v s (x.kept v s e ne) ne;
  unknown = λ v s e lt. x.unknown v s (y.unknown v s e lt) lt;
}

pub Grown-IsReady :
    (fuel : ℕ) (g g' : Graph) → IsReady fuel g → IsTopo g' → Grown g g' → IsReady fuel g'
Grown-IsReady fuel g g' r o w = record {
  topo = o;
  graph = record {
    states = w.same_states ∙ r.graph.states ∙ sym w.same_tasks;
    rows = ap length w.same_edges ∙ r.graph.rows ∙ sym w.same_tasks;
    targets = λ v row at.
        rw (w.same_tasks) (r.graph.targets v row (sym (ap (λ l. get_elem? l v) w.same_edges) ∙ at));
  };
  enough = omega (arith, r.enough, w.fewer);
}

-- How a search ends: with a cycle found; without one, in an order that is kept, and with the
-- property; by the end of the process, at a state above 2; or with a write behind the end of an order that has
-- fewer cells than there are tasks.
pub data Searched (g : Graph) (P : Graph → Type 0) : Outcome (Graph × Bool) → Type 0 where
  cyclic : (g' : Graph) → IsTopo g' → Grown g g' → Searched g P (done (g', true))
  acyclic : (g' : Graph) → IsTopo g' → Grown g g' → P g' → Searched g P (done (g', false))
  stopped : (v s : ℕ) → get_elem? g.state v ≡ some s → 2 < s → Searched g P exits
  faulted : length g.topo_order < g.num_tasks → Searched g P fault

abbrev pub IsDone : ℕ → Graph → Type 0
IsDone t g = get_elem? g.state t ≡ some 2

all_kept :
    (ts : List ℕ) (a b : Graph) → Grown a b → All (λ t. IsDone t a) ts → All (λ t. IsDone t b) ts
all_kept [] a b w h = tt
all_kept (t ∷ ts) a b w h = (w.kept t 2 h.0 (λ e. omega arith), all_kept ts a b w h.1)

module _ (visit : Graph → ℕ → Outcome (Graph × Bool)) where
  walk_on :
      (g : Graph) (t : ℕ) (next : List ℕ) (r : Outcome (Graph × Bool))
      → Searched g (IsDone t) r
      → ((g' : Graph)
          → IsTopo g'
          → Grown g g'
          → Searched g' (λ e. All (λ t. IsDone t e) next) (walk visit g' next))
      → Searched g
          (λ e. All (λ t. IsDone t e) (t ∷ next))
          (r >>= λ r. if r.1 then done (r.0, true) else walk visit (r.0) next)
  walk_on g t next _ (cyclic g' o w) f = cyclic g' o w
  walk_on g t next _ (stopped v s e lt) f = stopped v s e lt
  walk_on g t next _ (faulted lt) f = faulted lt
  walk_on g t next _ (acyclic g' o w d) f = behind_it (walk visit g' next) (f g' o w)
    where
      behind_it :
          (m : Outcome (Graph × Bool))
          → Searched g' (λ e. All (λ t. IsDone t e) next) m
          → Searched g (λ e. All (λ t. IsDone t e) (t ∷ next)) m
      behind_it _ (cyclic e p x) = cyclic e p (Grown-trans g g' e w x)
      behind_it _ (stopped v s e lt) = stopped v s (w.unknown v s e lt) lt
      behind_it _ (faulted lt) = faulted (omega (arith, lt, w.same_room, w.same_tasks))
      behind_it _ (acyclic e p x h) =
          acyclic e p (Grown-trans g g' e w x) (x.kept t 2 d (λ e. omega arith), h)

  pub walk-Searched :
      (fuel : ℕ)
      → ((g : Graph) (t : ℕ) → IsReady fuel g → t < g.num_tasks → Searched g (IsDone t) (visit g t))
      → (g : Graph) (ts : List ℕ) → IsReady fuel g
      → All (λ t. t < g.num_tasks) ts
      → Searched g (λ e. All (λ t. IsDone t e) ts) (walk visit g ts)
  unfolding walk
  walk-Searched fuel f g [] r lts = acyclic g r.topo (Grown-refl g) tt
  walk-Searched fuel f g (t ∷ ts) r lts = walk_on g t ts (visit g t) (f g t r lts.0) (λ g' o w.
      walk-Searched fuel f g' ts (Grown-IsReady fuel g g' r o w) (rw (w.same_tasks) (lts.1)))
