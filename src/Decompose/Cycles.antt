-- ===== src/Decompose/Cycles.antt =====
-- src/hca/decompose.py: which graphs `_topo_order` accepts.
use hermes_concurrent_agents.Common.{
  ℕ, zero, suc, ◌≤◌, ◌<◌, max, String, ◌≡◌, refl, sym, subst, ◌∙◌, inl, inr, true, some, List, [],
  ◌∷◌, arith, eq_iff, eqb_iff, ◌==◌, nat_eq, string_eq, Bool-cases, length, filter, All, All-map,
  All-both, contains,
}
use hermes_concurrent_agents.Decompose.{TaskNode, ids, Pending, is_free, row_ids, topo_order}
use hermes_concurrent_agents.Common.Counting.{
  nodup, hits, hits-le-length, hits_le_hits, nodup_of_hits, hits-All, hits-filter_known,
  All-contains,
}
use hermes_concurrent_agents.Decompose.Rows.{tasks}
use hermes_concurrent_agents.Decompose.Kahn.{Balanced, Queued, Named, Inv, rows_in}
use hermes_concurrent_agents.Decompose.Order.{All-tasks, DepsSeen}
use hermes_concurrent_agents.Decompose.Topological.{
  length-ids, loop_end, loop_result, topo_order_sound,
}

-- The known dependencies of a node are listed once each.
abbrev pub KnownOnce : List String → TaskNode → Type 0
KnownOnce names n = nodup (filter (λ d. contains d names) n.depends_on) ≡ true

-- A rank that falls along each known dependency, so that no cycle is possible.
abbrev pub Falls : List String → (String → ℕ) → TaskNode → Type 0
Falls names rank n = All (λ d. contains d names ≡ true → rank d < rank n.id) n.depends_on

hits_known :
    (ds order names : List String)
    → All (λ d. contains d names ≡ true → contains d order ≡ true) ds
    → hits (filter (λ d. contains d names) ds) order ≡ hits ds names
hits_known [] order names h = refl
hits_known (d ∷ ds) order names h = ground (arith, h.0, hits_known ds order names h.1)

free_of_deps :
    (names order : List String) (p : Pending)
    → All (Named names) order
    → Balanced names order p
    → KnownOnce names p.task
    → DepsSeen names order p.task
    → is_free p ≡ true
free_of_deps names order p k b once seen = (eqb_iff p.indegree 0).1 (
    omega (
      arith,
      hits_known p.task.depends_on order names seen,
      hits_le_hits (filter (λ d. contains d names) p.task.depends_on) order once,
      hits-filter_known order p.task.depends_on names k,
    ))

-- What holds of the identifier of each row holds of each name among them.
at_name :
    (P : String → Type 0) (d : String) (rows : List Pending)
    → All (λ p. P p.task.id) rows
    → contains d (row_ids rows) ≡ true
    → P d
at_name P d [] h c = cc
at_name P d (p ∷ ps) h c = elim (Bool-cases (p.task.id == d)) [
  | inl same ↦ subst P ((eq_iff p.task.id d).0 same) h.0
  | inr other ↦ at_name P d ps h.1 (ground (arith, other))
]

-- A number above every rank.
top : (String → ℕ) → List Pending → ℕ
top rank [] = 0
top rank (p ∷ ps) = max (suc (rank p.task.id)) (top rank ps)

below_top :
    (rank : String → ℕ) (rows : List Pending) (m : ℕ)
    → top rank rows ≤ m
    → All (λ p. rank p.task.id < m) rows
unfolding top
below_top rank [] m h = tt
below_top rank (p ∷ ps) m h = (omega arith, below_top rank ps m (omega arith))

module _ (names : List String) (rank : String → ℕ) (rows : List Pending) (order : List String)
    (v : Inv names rows [] order) (once : All (λ p. KnownOnce names p.task) rows)
    (falls_all : All (λ p. Falls names rank p.task) rows) where
  abbrev FreeBelow : ℕ → Pending → Type 0
  FreeBelow k p = rank p.task.id < k → is_free p ≡ true

  emitted :
      (k : ℕ)
      → All (FreeBelow k) rows
      → All (λ p. rank p.task.id < k → contains p.task.id order ≡ true) rows
  emitted k ih =
      All-map {Q = λ p. rank p.task.id < k → contains p.task.id order ≡ true}
        (λ p (h : FreeBelow k p × Queued names order [] p) below. ground (arith, h.0 below, h.1))
        rows (All-both (FreeBelow k) (Queued names order []) rows ih v.queued)

  deps_below :
      (k : ℕ)
      → All (FreeBelow k) rows
      → (p : Pending) → Falls names rank p.task
      → rank p.task.id < suc k
      → DepsSeen names order p.task
  deps_below k ih p f below =
      All-map {Q = λ d. contains d names ≡ true → contains d order ≡ true}
        (λ d (g : contains d names ≡ true → rank d < rank p.task.id) c.
          at_name (λ x. rank x < k → contains x order ≡ true) d rows (emitted k ih)
            (rw v.rows_named c) (omega (arith, g c)))
        p.task.depends_on f

  freed_step : (k : ℕ) → All (FreeBelow k) rows → All (FreeBelow (suc k)) rows
  freed_step k ih =
      All-map {Q = FreeBelow (suc k)}
        (λ p h below.
          free_of_deps names order p v.order_named h.0 h.1.0 (deps_below k ih p h.1.1 below))
        rows
        (All-both (Balanced names order) (λ p. KnownOnce names p.task × Falls names rank p.task)
          rows v.balanced
          (All-both (λ p. KnownOnce names p.task) (λ p. Falls names rank p.task) rows once
            falls_all))

  -- By the rank: when the loop ends, the rows below any rank are at 0.
  freed : (k : ℕ) → All (FreeBelow k) rows
  freed zero =
      All-map {Q = FreeBelow zero} (λ p (b : Balanced names order p) h. absurd (omega arith)) rows
        v.balanced
  freed (suc k) = freed_step k (freed k)

  pub All-free : All (λ p. is_free p ≡ true) rows
  All-free =
      All-map (λ p (h : FreeBelow (top rank rows) p × (rank p.task.id < top rank rows)). h.0 h.1)
        rows
        (All-both (FreeBelow (top rank rows)) (λ p. rank p.task.id < top rank rows) rows
          (freed (top rank rows)) (below_top rank rows (top rank rows) (omega arith)))

  All-out : All (λ p. contains p.task.id order ≡ true) rows
  All-out =
      All-map (λ p (h : (is_free p ≡ true) × Queued names order [] p). ground (arith, h.0, h.1))
        rows (All-both (λ p. is_free p ≡ true) (Queued names order []) rows All-free v.queued)

  names_out : All (λ x. contains x order ≡ true) names
  names_out =
      All-map
        (λ x (h : contains x names ≡ true).
          at_name (λ y. contains y order ≡ true) x rows All-out (rw v.rows_named h))
        names (All-contains names)

  pub full_length : nodup names ≡ true → length order ≡ length names
  full_length n = omega (
    arith,
    hits-All names order names_out,
    hits-All order names v.order_named,
    hits_le_hits names order n,
    hits_le_hits order names v.order_nodup,
    hits-le-length names order,
    hits-le-length order names,
  )

tasks_All :
    (P : TaskNode → Type 0) (rows : List Pending) → All P (tasks rows) → All (λ p. P p.task) rows
tasks_All P [] h = tt
tasks_All P (p ∷ ps) h = (h.0, tasks_All P ps h.1)

-- A graph whose known dependencies fall in rank, each listed once, has an order.
pub topo_order_complete :
    (nodes : List TaskNode) (rank : String → ℕ)
    → nodup (ids nodes) ≡ true
    → All (KnownOnce (ids nodes)) nodes
    → All (Falls (ids nodes) rank) nodes
    → (order : List String) × (topo_order nodes ≡ some order)
unfolding topo_order
topo_order_complete nodes rank n once f =
    let (rows, order, e, v, same) = loop_end nodes n in
    let full : length order ≡ length nodes =
      full_length (ids nodes) rank rows order v
        (tasks_All (KnownOnce (ids nodes)) rows
          (subst (All (KnownOnce (ids nodes))) (sym same) once))
        (tasks_All (Falls (ids nodes) rank) rows
          (subst (All (Falls (ids nodes) rank)) (sym same) f))
        n
      ∙ length-ids nodes in
    (order, ground (arith, e, full))

-- The other way: each row of a full order is at 0, so its dependencies are listed once.
once_of_free :
    (names order : List String) (p : Pending)
    → nodup order ≡ true
    → All (Named names) order
    → Balanced names order p
    → is_free p ≡ true
    → KnownOnce names p.task
once_of_free names order p n k b f =
    nodup_of_hits order (filter (λ d. contains d names) p.task.depends_on) n
      (omega (arith, hits-filter_known order p.task.depends_on names k, (eqb_iff p.indegree 0).0 f))

module _ (nodes : List TaskNode) (distinct : nodup (ids nodes) ≡ true) (order : List String)
    (h : topo_order nodes ≡ some order) where
  pub All-once : All (KnownOnce (ids nodes)) nodes
  All-once =
      let (rows, v, same) = loop_result nodes distinct order h in
      let (_, _, out, _) = topo_order_sound nodes distinct order h in
      let rows_out : All (λ p. contains p.task.id order ≡ true) rows =
        rows_in order rows (rw v.rows_named out) in
      subst (All (KnownOnce (ids nodes))) same (
        All-tasks (KnownOnce (ids nodes)) rows (
          All-map
            (λ p
                (g : Balanced (ids nodes) order p
                  × (Queued (ids nodes) order [] p × (contains p.task.id order ≡ true))).
              once_of_free (ids nodes) order p v.order_nodup v.order_named g.0
                (ground (arith, g.1.0, g.1.1)))
            rows
            (All-both (Balanced (ids nodes) order)
              (λ p. Queued (ids nodes) order [] p × (contains p.task.id order ≡ true)) rows
              v.balanced
              (All-both (Queued (ids nodes) order []) (λ p. contains p.task.id order ≡ true) rows
                v.queued rows_out))))
