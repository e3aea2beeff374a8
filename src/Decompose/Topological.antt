-- ===== src/Decompose/Topological.antt =====
-- src/hca/decompose.py: `_topo_order` as a whole: its start, its loop and its result.
use hermes_concurrent_agents.Common.{
  suc, ◌+◌, String, ◌≡◌, refl, ap, subst, ◌∙◌, true, false, some, List, [], ◌∷◌, arith, nat_eq,
  string_eq, length, filter, All, All-map, All-both, contains,
}
use hermes_concurrent_agents.Decompose.{
  TaskNode, ids, sort, Pending, start_rows, is_free, row_ids, kahn, topo_order,
}
use hermes_concurrent_agents.Common.Counting.{
  nodup, hits-le-length, hits_le_hits, placed_of_hits, hits-All, All-contains,
}
use hermes_concurrent_agents.Decompose.Rows.{
  contains-sort, nodup-sort, length-sort, All-sort, chosen, All-chosen, nodup-chosen,
  contains-chosen, waits, tasks,
}
use hermes_concurrent_agents.Decompose.Kahn.{Balanced, Queued, Named, Inv, kahn_end, rows_in}
use hermes_concurrent_agents.Decompose.Order.{tasks-start, IsTopological, kahn-IsTopological}

pub length-ids : (nodes : List TaskNode) → length (ids nodes) ≡ length nodes
length-ids [] = refl
length-ids (n ∷ ns) = ap suc (length-ids ns)

row_ids-start :
    (names : List String) (nodes : List TaskNode) → row_ids (start_rows names nodes) ≡ ids nodes
unfolding start_rows
row_ids-start names [] = refl
row_ids-start names (n ∷ ns) = ap (◌∷◌ n.id) (row_ids-start names ns)

Balanced-start :
    (names : List String) (nodes : List TaskNode) → All (Balanced names []) (start_rows names nodes)
unfolding start_rows
Balanced-start names [] = tt
Balanced-start names (n ∷ ns) = (omega arith, Balanced-start names ns)

start_measure :
    (names : List String) (nodes : List TaskNode)
    → length (chosen is_free (start_rows names nodes))
        + length (filter waits (start_rows names nodes))
      ≡ length nodes
unfolding start_rows
start_measure names [] = omega arith
start_measure names (n ∷ ns) = ground (arith, start_measure names ns)

disjoint_nil : (xs : List String) → All (λ x. contains x [] ≡ false) xs
disjoint_nil [] = tt
disjoint_nil (x ∷ xs) = (refl, disjoint_nil xs)

module _ (nodes : List TaskNode) (distinct : nodup (ids nodes) ≡ true) where
  abbrev pub start : List Pending
  start = start_rows (ids nodes) nodes

  start-nodup : nodup (row_ids start) ≡ true
  start-nodup = rw (row_ids-start (ids nodes) nodes) distinct

  Queued-start : All (Queued (ids nodes) [] (sort (chosen is_free start))) start
  Queued-start =
      All-map (λ p h. ground (arith, contains-sort p.task.id (chosen is_free start), h)) start
        (contains-chosen is_free start start-nodup)

  Named-start : All (Named (ids nodes)) (chosen is_free start)
  Named-start = All-chosen (Named (ids nodes)) is_free start (
      All-map (λ p h f. h) start
        (rows_in (ids nodes) start
          (rw (row_ids-start (ids nodes) nodes) (All-contains (ids nodes)))))

  start-Inv : Inv (ids nodes) start (sort (chosen is_free start)) []
  start-Inv = record {
    balanced = Balanced-start (ids nodes) nodes;
    queued = Queued-start;
    order_nodup = refl;
    ready_nodup = nodup-sort (chosen is_free start) ∙ nodup-chosen is_free start start-nodup;
    disjoint = disjoint_nil (sort (chosen is_free start));
    order_named = tt;
    ready_named = All-sort (Named (ids nodes)) (chosen is_free start) Named-start;
    rows_named = row_ids-start (ids nodes) nodes;
  }

  -- The loop ends within its fuel.
  pub loop_end :
      (rows : List Pending) × (order : List String) × (kahn
          (suc (length nodes))
          start
          (sort (chosen is_free start))
          []
        ≡ some order)
      × Inv (ids nodes) rows [] order
      × (tasks rows ≡ nodes)
  loop_end =
      let (rows, order, e, v, same) =
        kahn_end (ids nodes) distinct (suc (length nodes)) start (sort (chosen is_free start)) []
          start-Inv
          (omega (arith, length-sort (chosen is_free start), start_measure (ids nodes) nodes)) in
      (rows, order, e, v, same ∙ tasks-start (ids nodes) nodes)

  pub loop_order :
      (order : List String)
      → topo_order nodes ≡ some order
      → (kahn (suc (length nodes)) start (sort (chosen is_free start)) [] ≡ some order)
        × (length order ≡ length nodes)
  unfolding topo_order
  loop_order order h = let (rows, o, e, v, _) = loop_end in ground (arith, e)

  -- What is known of a result: the final rows, and the invariant with nothing ready.
  pub loop_result :
      (order : List String)
      → topo_order nodes ≡ some order
      → (rows : List Pending) × Inv (ids nodes) rows [] order × (tasks rows ≡ nodes)
  loop_result order h =
      let (rows, o, e, v, tasks_same) = loop_end in
      let same : o ≡ order = ground (arith, e, (loop_order order h).0) in
      (rows, subst (Inv (ids nodes) rows []) same v, tasks_same)

  All-emitted :
      (order : List String)
      → topo_order nodes ≡ some order
      → All (λ x. contains x order ≡ true) (ids nodes)
  All-emitted order h =
      let (rows, v, _) = loop_result order h in
      All-map
        (λ x
            (k : (contains x (ids nodes) ≡ true → contains x order ≡ true)
              × (contains x (ids nodes) ≡ true)).
          k.0 k.1)
        (ids nodes)
        (All-both (λ x. contains x (ids nodes) ≡ true → contains x order ≡ true)
          (λ x. contains x (ids nodes) ≡ true) (ids nodes)
          (placed_of_hits (ids nodes) order (ids nodes) v.order_named (
            omega (
              arith,
              hits-All order (ids nodes) v.order_named,
              hits_le_hits order (ids nodes) v.order_nodup,
              hits-le-length (ids nodes) (ids nodes),
              (loop_order order h).1,
              length-ids nodes,
            )))
          (All-contains (ids nodes)))

  -- The order holds each task of the graph exactly once and nothing else, and each task comes after all
  -- its dependencies in the graph.
  pub topo_order_sound :
      (order : List String)
      → topo_order nodes ≡ some order
      → (nodup order ≡ true)
        × All (λ x. contains x (ids nodes) ≡ true) order
        × All (λ x. contains x order ≡ true) (ids nodes)
        × IsTopological nodes [] order
  topo_order_sound order h =
      let (rows, v, _) = loop_result order h in
      (
        v.order_nodup,
        v.order_named,
        All-emitted order h,
        kahn-IsTopological nodes distinct (suc (length nodes)) start (sort (chosen is_free start))
            [] order (tasks-start (ids nodes) nodes) start-Inv tt (loop_order order h).0,
      )
