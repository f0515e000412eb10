-- ===== src/TaskGraph/Overrun.antt =====
-- The run over all tasks of a graph that `main` makes, and the access behind the end of the order.
use bare_metal_architect.Prelude.{get_elem?-none}
use bare_metal_architect.Prelude.{
  ℕ, zero, suc, ◌+◌, ◌-◌, ◌≤◌, ◌<◌, ◌≡◌, refl, sym, ap, ◌∙◌, subst, inl, inr, Bool, true, false,
  some, List, [], ◌∷◌, arith, ◌==◌, Bool-cases, Option-cases, length, get_elem?, get_elem?-some,
  replicate, All, length-replicate, length-set, pos, Outcome, done, exits, fault, ◌>>=◌, granted,
  dec_lt, index, bind-done, done_injective, All-set, All-get_elem?,
}
use mathlib.Core.Option.{some-injective}
use bare_metal_architect.Dsu.{set_union}
use bare_metal_architect.MinHeap.Swap.{count}
use bare_metal_architect.Ensures.{Ensures, returns, ended}
use bare_metal_architect.TaskGraph.{
  Graph, settled, create_graph, add_dependency, has_cycle, test_tasks, read_order,
  test_graph_for_cycles,
}
use bare_metal_architect.TaskGraph.Topo.{
  IsTopo, IsReady, Grown-IsReady, Grown, Grown-refl, Grown-trans, IsDone, Searched, cyclic, acyclic,
  stopped, faulted,
}
use bare_metal_architect.TaskGraph.Search.{has_cycle-Searched}

-- How the run over some tasks ends.
pub data Ran {A : Type 0} (g : Graph) : Outcome (Graph × A) → Type 0 where
  ran : (g' : Graph) (a : A) → IsTopo g' → Grown g g' → Ran g (done (g', a))
  no_run : (v s : ℕ) → get_elem? g.state v ≡ some s → 2 < s → Ran g exits
  overrun : Ran g fault

module _ {A B : Type 0} (g : Graph) (k : Graph → A → B) where
  further :
      (g' : Graph)
      → Grown g g'
      → (m : Outcome (Graph × A)) → Ran g' m
      → Ran g (m >>= λ r. done (r.0, k r.0 r.1))
  further g' w _ (ran e a o x) = ran e (k e a) o (Grown-trans g g' e w x)
  further g' w _ (no_run v s e lt) = no_run v s (w.unknown v s e lt) lt
  further g' w _ overrun = overrun

abbrev task_run : Graph → (ℕ × Bool) → List (ℕ × Bool) → List (ℕ × Bool)
task_run g r rest = r ∷ rest

module _ (fuel : ℕ) where
  after_search :
      (g : Graph) (t i n : ℕ) (m : Outcome (Graph × Bool))
      → Searched g (IsDone t) m
      → ((g' : Graph) → IsTopo g' → Grown g g' → Ran g' (test_tasks fuel n i g'))
      → Ran g (m >>= λ r. test_tasks fuel n i (r.0) >>= λ rest. done (rest.0, (t, r.1) ∷ rest.1))
  after_search g t i n _ (cyclic g' o w) f =
      further g (λ e a. (t, true) ∷ a) g' w (test_tasks fuel n i g') (f g' o w)
  after_search g t i n _ (acyclic g' o w d) f =
      further g (λ e a. (t, false) ∷ a) g' w (test_tasks fuel n i g') (f g' o w)
  after_search g t i n _ (stopped v s e lt) f = no_run v s e lt
  after_search g t i n _ (faulted lt) f = overrun

  test_tasks-Ran :
      (n i : ℕ) (g : Graph) → IsReady fuel g → i + n ≤ g.num_tasks → Ran g (test_tasks fuel n i g)
  unfolding test_tasks
  test_tasks-Ran zero i g r le = ran g [] r.topo (Grown-refl g)
  test_tasks-Ran (suc n) i g r le =
      let (s, at_s) = get_elem?-some g.state i (omega (arith, r.graph.states)) in
      let rest : (g' : Graph) → IsTopo g' → Grown g g' → Ran g' (test_tasks fuel n (suc i) g') =
        λ g' o w.
          test_tasks-Ran n (suc i) g' (Grown-IsReady fuel g g' r o w)
            (omega (arith, le, w.same_tasks)) in
      elim (Bool-cases (s == 0)) [
        | inl white ↦
            rw (at_s, white)
              (after_search g i (suc i) n (has_cycle fuel g i)
                (has_cycle-Searched fuel g i r (omega arith)) rest)
        | inr visited ↦ rw (at_s, visited) (rest g r.topo (Grown-refl g))
      ]

read_order_overrun :
    (n i : ℕ) (cells : List ℕ)
    → i ≤ length cells
    → length cells < i + n
    → read_order n i cells ≡ fault
unfolding read_order
read_order_overrun zero i cells le lt = absurd (omega arith)
read_order_overrun (suc n) i cells le lt = elim (dec_lt i (length cells)) [
  | yes more ↦
      rw
        (
          (get_elem?-some cells i more).1,
          read_order_overrun n (suc i) cells (omega arith) (omega arith),
        )
        refl
  | no last ↦ rw (get_elem?-none cells i (omega arith)) refl
]

-- A run over the tasks of a graph without a state above 2, whose order has fewer cells than there are
-- tasks, on more fuel than there are tasks.
short_order :
    (fuel : ℕ) (g : Graph)
    → IsReady fuel g
    → ((v s : ℕ) → get_elem? g.state v ≡ some s → s ≤ 2)
    → length g.topo_order < g.num_tasks
    → test_graph_for_cycles fuel g ≡ fault
unfolding test_graph_for_cycles
short_order fuel g r known short =
    over (test_tasks fuel g.num_tasks 0 g) (test_tasks-Ran fuel g.num_tasks 0 g r (omega arith))
  where
    over :
        (m : Outcome (Graph × List (ℕ × Bool)))
        → Ran g m
        → ◌>>=◌ {B = Graph × List (ℕ × Bool) × List ℕ} m
            (λ r. read_order r.0.num_tasks 0 r.0.topo_order >>= λ order. done (r.0, r.1, order))
          ≡ fault
    over _ (ran g' a o w) =
        rw
          (read_order_overrun g'.num_tasks 0 g'.topo_order (omega arith)
            (omega (arith, w.same_tasks, w.same_room, short)))
          refl
    over _ (no_run v s e lt) = absurd (omega (arith, known v s e, lt))
    over _ overrun = refl

all_white : (n : ℕ) → count (λ s. s == 0) (replicate n 0) ≡ n
all_white zero = refl
all_white (suc n) = omega (arith, all_white n)

none_black : (n : ℕ) → count (λ s. s == 2) (replicate n 0) ≡ 0
none_black zero = refl
none_black (suc n) = omega (arith, none_black n)

no_black : (n v : ℕ) → get_elem? {A = ℕ} (replicate n 0) v ≡ some 2 → ⊥
no_black zero v e = cc
no_black (suc n) zero e = cc
no_black (suc n) (suc v) e = no_black n v e

zero_only : (n v s : ℕ) → get_elem? {A = ℕ} (replicate n 0) v ≡ some s → s ≤ 2
zero_only zero v s e = absurd (cc)
zero_only (suc n) zero s e = omega (arith, some-injective 0 s e)
zero_only (suc n) (suc v) s e = zero_only n v s e

no_rows : (n m : ℕ) → All (All (λ t. t < m)) (replicate n [])
no_rows zero m = tt
no_rows (suc n) m = (tt, no_rows n m)

-- A graph that `create_graph` made for n tasks, with any dependencies.
record Fresh (n : ℕ) (g : Graph) : Type 0 where
  tasks : g.num_tasks ≡ n
  one_short : length g.topo_order ≡ n - 1
  states : g.state ≡ replicate n 0
  none_done : g.topo_idx ≡ 0
  rows : length g.adj_list ≡ n
  targets : All (All (λ t. t < n)) g.adj_list

Fresh-IsReady : (n depth : ℕ) (g : Graph) → Fresh n g → n < depth → IsReady depth g
Fresh-IsReady n depth g f enough = record {
  topo = record {
    black = λ v e. absurd (no_black n v (sym (ap (λ l. get_elem? l v) f.states) ∙ e));
    behind = λ i v row k t lt a b c. absurd (omega (arith, lt, f.none_done));
    counted = ap (count (λ s. s == 2)) f.states ∙ none_black n ∙ sym f.none_done;
    room = omega (arith, f.none_done);
  };
  graph = record {
    states = ap length f.states ∙ length-replicate {A = ℕ} n 0 ∙ sym f.tasks;
    rows = f.rows ∙ sym f.tasks;
    targets = λ v row e.
        subst (λ m. All (λ t. t < m) row) (sym f.tasks)
          (All-get_elem? (All (λ t. t < n)) g.adj_list v row f.targets e);
  };
  enough = omega (arith, ap (count (λ s. s == 0)) f.states, all_white n);
}

granted_then :
    {P : Graph → Type 0} (b : Bool) {m : Outcome Graph}
    → Ensures P m
    → Ensures P (granted b >>= λ u. m)
granted_then true h = h
granted_then false h = ended

create_graph-Fresh : (alloc : ℕ → Bool) (n : ℕ) → Ensures (Fresh n) (create_graph alloc n)
unfolding create_graph
create_graph-Fresh alloc n = granted_then (alloc 0) (
    granted_then (alloc 1) (
      granted_then (alloc 2) (
        granted_then (alloc 3) (
          granted_then (alloc 4) (
            returns _ (record {
              tasks = refl;
              one_short = length-replicate {A = ℕ} (n - 1) 0;
              states = refl;
              none_done = refl;
              rows = length-replicate {A = List ℕ} n [];
              targets = no_rows n n;
            }))))))

ensured : {P : Graph → Type 0} {m : Outcome Graph} → Ensures P m → (g : Graph) → m ≡ done g → P g
ensured {P} (returns a h) g e = subst P (done_injective e) h
ensured ended g e = absurd (cc)

add_dependency-Fresh :
    (n fuel : ℕ) (alloc : Bool) (g : Graph) (task prerequisite : ℕ) (g' : Graph)
    → Fresh n g
    → prerequisite < n
    → add_dependency fuel alloc g task prerequisite ≡ done g'
    → Fresh n g'
unfolding add_dependency
add_dependency-Fresh n fuel alloc g task prerequisite g' f lt e =
    let (_, _, e1) = bind-done (granted alloc) _ g' e in
    let (row, at, e2) = bind-done (index g.adj_list task) _ g' e1 in
    let (dsu, _, e3) =
      bind-done (settled (set_union fuel (pos task) (pos prerequisite) g.dsu)) _ g' e2 in
    subst (Fresh n) (done_injective e3) (record {
      tasks = f.tasks;
      one_short = f.one_short;
      states = f.states;
      none_done = f.none_done;
      rows = length-set g.adj_list task (prerequisite ∷ row) ∙ f.rows;
      targets =
          All-set (All (λ t. t < n)) g.adj_list task (prerequisite ∷ row) f.targets
            (lt, All-get_elem? (All (λ t. t < n)) g.adj_list task row f.targets (found at));
    })
  where
    found : {row : List ℕ} → index g.adj_list task ≡ done row → get_elem? g.adj_list task ≡ some row
    found {row} at = elim (Option-cases (get_elem? g.adj_list task)) [
      | inl missing ↦ cc (rw missing at at)
      | inr (x, there) ↦ there ∙ ap some (done_injective (rw there at at))
    ]

-- The dependencies that `main` adds, a task and its prerequisite each, with memory.
unfoldable pub add_all : ℕ → Graph → List (ℕ × ℕ) → Outcome Graph
add_all fuel g [] = done g
add_all fuel g (d ∷ deps) = do g' ← add_dependency fuel true g (d.0) (d.1); add_all fuel g' deps

add_all-Fresh :
    (n fuel : ℕ) (deps : List (ℕ × ℕ)) (g g' : Graph)
    → Fresh n g
    → All (λ d. d.1 < n) deps
    → add_all fuel g deps ≡ done g'
    → Fresh n g'
unfolding add_all
add_all-Fresh n fuel [] g g' f lts e = subst (Fresh n) (done_injective e) f
add_all-Fresh n fuel (d ∷ deps) g g' f lts e =
    let (mid, added, rest) = bind-done (add_dependency fuel true g (d.0) (d.1)) _ g' e in
    add_all-Fresh n fuel deps mid g'
      (add_dependency-Fresh n fuel true g (d.0) (d.1) mid f lts.0 added) lts.1 rest

-- The graph of so many tasks with these dependencies.
unfoldable pub build : (ℕ → Bool) → ℕ → ℕ → List (ℕ × ℕ) → Outcome Graph
build alloc fuel n deps = do g ← create_graph alloc n; add_all fuel g deps

-- Whenever `create_graph` for some tasks and the calls of `add_dependency` after it, with
-- prerequisites among the tasks, return a graph: `test_graph_for_cycles` of that graph is a fault on
-- any fuel above the number of tasks, an access behind the end of `topo_order`, which has a cell less
-- than there are tasks. The test never returns and never ends the process by `exit`.
pub test_graph_for_cycles-build :
    (alloc : ℕ → Bool) (fuel n : ℕ) (deps : List (ℕ × ℕ)) (g : Graph)
    → 0 < n
    → All (λ d. d.1 < n) deps
    → build alloc fuel n deps ≡ done g
    → (depth : ℕ) → n < depth
    → test_graph_for_cycles depth g ≡ fault
unfolding build
test_graph_for_cycles-build alloc fuel n deps g positive lts e depth enough =
    let (new, made, added) = bind-done (create_graph alloc n) _ g e in
    let f =
      add_all-Fresh n fuel deps new g (ensured (create_graph-Fresh alloc n) new made) lts added in
    short_order depth g (Fresh-IsReady n depth g f enough)
      (λ v s at. zero_only n v s (sym (ap (λ l. get_elem? l v) f.states) ∙ at))
      (omega (arith, f.tasks, f.one_short, positive))
