-- ===== src/TaskGraph/Mark.antt =====
-- A task on the path of the search, and a task that is done.
use bare_metal_architect.Prelude.{
  ℕ, ◌+◌, ◌≤◌, ◌<◌, ◌≡◌, refl, sym, ap, ◌∙◌, ◌≢◌, some, List, arith, ◌==◌, length, get_elem?, set,
  All, length-set, get_elem?-set_self, get_elem?-set_ne, ℕ_discrete,
}
use bare_metal_architect.Prelude.{All-get_elem?}
use mathlib.Core.Option.{some-injective}
use bare_metal_architect.MinHeap.Swap.{count-set}
use bare_metal_architect.Dijkstra.Distances.{inside}
use bare_metal_architect.TaskGraph.{Graph}
use bare_metal_architect.TaskGraph.Topo.{Listed, IsTopo, Grown, Grown-trans, IsDone}

module _ (g : Graph) (t : ℕ) (o : IsTopo g) (at_t : get_elem? g.state t ≡ some 0) where
  -- The task is put on the path of the search.
  abbrev pub marked : Graph
  marked = record g { state = set g.state t 1 }

  marked_other : (v : ℕ) → t ≢ v → get_elem? marked.state v ≡ get_elem? g.state v
  marked_other v ne = get_elem?-set_ne g.state t v 1 ne

  pub marked_self : get_elem? marked.state t ≡ some 1
  marked_self = get_elem?-set_self g.state t 1 (inside g.state t 0 at_t)

  pub marked-IsTopo : IsTopo marked
  marked-IsTopo = record {
    black = λ v e. elim (ℕ_discrete t v) [
      | yes same ↦
          let two : 1 ≡ 2 =
            some-injective 1 2 (sym marked_self ∙ ap (get_elem? marked.state) same ∙ e) in
          absurd (omega arith)
      | no ne ↦
          let l = o.black v (sym (marked_other v ne) ∙ e) in
          record { place = l.place; before = l.before; at = l.at }
    ];
    behind = λ i v row k u lt a b c.
        let l = o.behind i v row k u lt a b c in
        record { place = l.place; before = l.before; at = l.at };
    counted = omega (arith, count-set (λ s. s == 2) g.state t 0 1 at_t, o.counted);
    room = o.room;
  }

  pub marked-Grown : Grown g marked
  marked-Grown = record {
    same_tasks = refl;
    same_edges = refl;
    same_room = refl;
    same_states = length-set g.state t 1;
    more = omega arith;
    fewer = omega (arith, count-set (λ s. s == 0) g.state t 0 1 at_t);
    kept = λ v s e ne. elim (ℕ_discrete t v) [
      | yes same ↦
          absurd (ne (some-injective s 0 (sym e ∙ ap (get_elem? g.state) (sym same) ∙ at_t)))
      | no other ↦ marked_other v other ∙ e
    ];
    unknown = λ v s e high. elim (ℕ_discrete t v) [
      | yes same ↦
          let one : 1 ≡ s =
            some-injective 1 s (sym marked_self ∙ ap (get_elem? marked.state) same ∙ e) in
          absurd (omega arith)
      | no other ↦ sym (marked_other v other) ∙ e
    ];
  }

  module _ (b : Graph) (p : IsTopo b) (w : Grown marked b) (row : List ℕ)
      (at_row : get_elem? g.adj_list t ≡ some row) (all : All (λ u. IsDone u b) row)
      (lt : b.topo_idx < length b.topo_order) where
    -- The task is done and stands behind all others.
    abbrev pub ended : Graph
    ended = record b {
      state = set b.state t 2;
      topo_order = set b.topo_order b.topo_idx t;
      topo_idx = b.topo_idx + 1;
    }

    pub was_marked : get_elem? b.state t ≡ some 1
    was_marked = w.kept t 1 marked_self (λ e. omega arith)

    old_cell : (i : ℕ) → i < b.topo_idx → get_elem? ended.topo_order i ≡ get_elem? b.topo_order i
    old_cell i less = get_elem?-set_ne b.topo_order b.topo_idx i t (λ e. omega arith)

    new_cell : get_elem? ended.topo_order b.topo_idx ≡ some t
    new_cell = get_elem?-set_self b.topo_order b.topo_idx t lt

    relisted : (v n n' : ℕ) → n ≤ b.topo_idx → n ≤ n' → Listed b v n → Listed ended v n'
    relisted v n n' le le' l = record {
      place = l.place;
      before = omega (arith, l.before);
      at = old_cell l.place (omega (arith, l.before)) ∙ l.at;
    }

    ended_behind :
        (i v : ℕ) (r : List ℕ) (k u : ℕ)
        → i < b.topo_idx + 1
        → get_elem? ended.topo_order i ≡ some v
        → get_elem? b.adj_list v ≡ some r
        → get_elem? r k ≡ some u
        → Listed ended u i
    ended_behind i v r k u less a e c = elim (ℕ_discrete i b.topo_idx) [
      | yes last ↦
          let it : v ≡ t =
            some-injective v t (sym a ∙ ap (get_elem? ended.topo_order) last ∙ new_cell) in
          let same : r ≡ row = some-injective r row (
            sym e ∙ ap (get_elem? b.adj_list) it ∙ ap (λ l. get_elem? l t) w.same_edges ∙ at_row) in
          let finished_then =
            All-get_elem? (λ x. IsDone x b) row k u all (sym (ap (λ l. get_elem? l k) same) ∙ c) in
          relisted u b.topo_idx i (omega arith) (omega arith) (p.black u finished_then)
      | no older ↦
          relisted u i i (omega arith) (omega arith)
            (p.behind i v r k u (omega arith) (sym (old_cell i (omega arith)) ∙ a) e c)
    ]

    pub ended-IsTopo : IsTopo ended
    ended-IsTopo = record {
      black = λ v e. elim (ℕ_discrete t v) [
        | yes same ↦ record {
          place = b.topo_idx;
          before = omega arith;
          at = new_cell ∙ ap some same;
        }
        | no ne ↦
            relisted v b.topo_idx (b.topo_idx + 1) (omega arith) (omega arith)
              (p.black v (sym (get_elem?-set_ne b.state t v 2 ne) ∙ e))
      ];
      behind = ended_behind;
      counted = omega (arith, count-set (λ s. s == 2) b.state t 1 2 was_marked, p.counted);
      room = omega (arith, length-set b.topo_order b.topo_idx t);
    }

    pub ended-Grown : Grown g ended
    ended-Grown =
        let y = Grown-trans g marked b marked-Grown w in
        record {
          same_tasks = y.same_tasks;
          same_edges = y.same_edges;
          same_room = length-set b.topo_order b.topo_idx t ∙ y.same_room;
          same_states = length-set b.state t 2 ∙ y.same_states;
          more = omega (arith, y.more);
          fewer = omega (arith, y.fewer, count-set (λ s. s == 0) b.state t 1 2 was_marked);
          kept = λ v s e ne. elim (ℕ_discrete t v) [
            | yes same ↦
                absurd (ne (some-injective s 0 (sym e ∙ ap (get_elem? g.state) (sym same) ∙ at_t)))
            | no other ↦ get_elem?-set_ne b.state t v 2 other ∙ y.kept v s e ne
          ];
          unknown = λ v s e high. elim (ℕ_discrete t v) [
            | yes same ↦
                let two : 2 ≡ s = some-injective 2 s (
                  sym (get_elem?-set_self b.state t 2 (inside b.state t 1 was_marked))
                  ∙ ap (get_elem? ended.state) same
                  ∙ e) in
                absurd (omega arith)
            | no other ↦ y.unknown v s (sym (get_elem?-set_ne b.state t v 2 other) ∙ e) high
          ];
        }

    pub ended-IsDone : IsDone t ended
    ended-IsDone = get_elem?-set_self b.state t 2 (inside b.state t 1 was_marked)
