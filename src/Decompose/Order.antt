-- ===== src/Decompose/Order.antt =====
-- src/hca/decompose.py: what `_topo_order` returns, and when.
use mathlib.Core.List.{append-nil, append_assoc}
use hermes_concurrent_agents.Common.{
  ℕ, zero, suc, String, ◌≡◌, refl, ap, subst, ◌∙◌, true, some, List, [], ◌∷◌, ◌++◌, arith, eq_iff,
  eqb_iff, nat_eq, string_eq, All, All-map, All-both, contains,
}
use hermes_concurrent_agents.Decompose.{
  TaskNode, ids, sort, Pending, start_rows, is_free, lower_rows, released, kahn,
}
use hermes_concurrent_agents.Common.Counting.{nodup, hits_le_hits, placed_of_hits}
use hermes_concurrent_agents.Decompose.Rows.{tasks, tasks-lower}
use hermes_concurrent_agents.Decompose.Kahn.{Balanced, Queued, Named, Inv, step-Inv}

pub tasks-start :
    (names : List String) (nodes : List TaskNode) → tasks (start_rows names nodes) ≡ nodes
unfolding start_rows
tasks-start names [] = refl
tasks-start names (n ∷ ns) = ap (◌∷◌ n) (tasks-start names ns)

pub All-tasks :
    (P : TaskNode → Type 0) (rows : List Pending) → All (λ p. P p.task) rows → All P (tasks rows)
All-tasks P [] h = tt
All-tasks P (p ∷ ps) h = (h.0, All-tasks P ps h.1)

-- The dependencies of a node that are tasks of the graph have been seen.
abbrev pub DepsSeen : List String → List String → TaskNode → Type 0
DepsSeen names seen n = All (λ d. contains d names ≡ true → contains d seen ≡ true) n.depends_on

-- Each identifier comes after the known dependencies of its node.
abbrev pub IsTopological : List TaskNode → List String → List String → Type 0
IsTopological nodes seen [] = Unit {0}
IsTopological nodes seen (x ∷ xs) =
    All (λ n. n.id ≡ x → DepsSeen (ids nodes) seen n) nodes
    × IsTopological nodes (seen ++ x ∷ []) xs

IsTopological-snoc :
    (nodes : List TaskNode) (seen xs : List String) (x : String)
    → IsTopological nodes seen xs
    → All (λ n. n.id ≡ x → DepsSeen (ids nodes) (seen ++ xs) n) nodes
    → IsTopological nodes seen (xs ++ x ∷ [])
IsTopological-snoc nodes seen [] x t h = (rw (append-nil seen) at h, tt)
IsTopological-snoc nodes seen (y ∷ ys) x t h =
    (t.0, IsTopological-snoc nodes (seen ++ y ∷ []) ys x t.1 (rw (append_assoc seen (y ∷ []) ys) h))

-- A row at 0 has all its known dependencies emitted.
deps_emitted :
    (names order : List String) (p : Pending)
    → nodup order ≡ true
    → All (Named names) order
    → Balanced names order p
    → is_free p ≡ true
    → DepsSeen names order p.task
deps_emitted names order p n k b f =
    placed_of_hits p.task.depends_on order names k
      (omega (arith, hits_le_hits order p.task.depends_on n, (eqb_iff p.indegree 0).0 f))

module _ (nodes : List TaskNode) (distinct : nodup (ids nodes) ≡ true) where
  next_deps :
      (rows : List Pending) (ready order : List String) (nid : String)
      → tasks rows ≡ nodes
      → Inv (ids nodes) rows (nid ∷ ready) order
      → All (λ n. n.id ≡ nid → DepsSeen (ids nodes) order n) nodes
  next_deps rows ready order nid same v =
      subst (All (λ n. n.id ≡ nid → DepsSeen (ids nodes) order n)) same (
        All-tasks (λ n. n.id ≡ nid → DepsSeen (ids nodes) order n) rows
          (All-map
            (λ p h e.
              deps_emitted (ids nodes) order p v.order_nodup v.order_named h.0 (free p h.1 e))
            rows
            (All-both (Balanced (ids nodes) order) (Queued (ids nodes) order (nid ∷ ready)) rows
              v.balanced v.queued)))
    where
      free :
          (p : Pending)
          → Queued (ids nodes) order (nid ∷ ready) p
          → p.task.id ≡ nid
          → is_free p ≡ true
      free p q e = ground (arith, eq_iff nid p.task.id)

  pub kahn-IsTopological :
      (fuel : ℕ) (rows : List Pending) (ready order : List String) (result : List String)
      → tasks rows ≡ nodes
      → Inv (ids nodes) rows ready order
      → IsTopological nodes [] order
      → kahn fuel rows ready order ≡ some result
      → IsTopological nodes [] result
  unfolding kahn
  kahn-IsTopological fuel rows [] order result same v t h =
      subst (IsTopological nodes []) (ground arith) t
  kahn-IsTopological zero rows (nid ∷ ready) order result same v t h = cc
  kahn-IsTopological (suc fuel) rows (nid ∷ ready) order result same v t h =
      kahn-IsTopological fuel (lower_rows nid rows) (sort (ready ++ released nid rows))
        (order ++ nid ∷ []) result (tasks-lower nid rows ∙ same)
        (step-Inv (ids nodes) distinct rows ready order nid v)
        (IsTopological-snoc nodes [] order nid t (next_deps rows ready order nid same v)) h
