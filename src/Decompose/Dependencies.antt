-- ===== src/Decompose/Dependencies.antt =====
-- src/hca/decompose.py: transitive dependencies, and the ones that the loop of `_ancestors` may still push.
use hermes_concurrent_agents.Common.{
  ℕ, ◌+◌, ◌≤◌, String, ◌≡◌, refl, ap, subst, ◌∙◌, inl, inr, true, false, some, List, [], ◌∷◌, arith,
  eq_iff, if◌then◌else◌, ◌==◌, nat_eq, string_eq, is_some, Bool-cases, length, All, length-append,
  All-append, contains,
}
use hermes_concurrent_agents.Decompose.{TaskNode, node, edges}
use hermes_concurrent_agents.Common.Counting.{contains-append}
use mathlib.Core.List.{reverse, reverse-cons}

pub length-reverse : (ids : List String) → length (reverse ids) ≡ length ids
length-reverse [] = refl
length-reverse (id ∷ ids) =
    rw (reverse-cons id ids, length-append (reverse ids) (id ∷ []), length-reverse ids)
      (omega arith)

pub contains-reverse : (a : String) (xs : List String) → contains a (reverse xs) ≡ contains a xs
contains-reverse a [] = refl
contains-reverse a (x ∷ xs) =
    ap (contains a) (reverse-cons x xs)
    ∙ contains-append a (reverse xs) (x ∷ [])
    ∙ ground (arith, contains-reverse a xs)

pub All-reverse : (P : String → Type 0) (xs : List String) → All P xs → All P (reverse xs)
All-reverse P [] h = tt
All-reverse P (x ∷ xs) h =
    rw (reverse-cons x xs) (All-append P (reverse xs) (x ∷ []) (All-reverse P xs h.1) (h.0, tt))

pub at_member :
    (P : String → Type 0) (x : String) (xs : List String) → All P xs → contains x xs ≡ true → P x
at_member P x [] h c = cc
at_member P x (y ∷ ys) h c = elim (Bool-cases (y == x)) [
  | inl same ↦ subst P ((eq_iff y x).0 same) h.0
  | inr other ↦ at_member P x ys h.1 (ground (arith, other))
]

-- A dependency of a task, if both stand in the graph.
abbrev pub Depends : List TaskNode → String → String → Type 0
Depends nodes x y =
    (n : TaskNode) × (node x nodes ≡ some n)
    × (contains y n.depends_on ≡ true)
    × (is_some (node y nodes) ≡ true)

-- The transitive dependencies.
pub data Reaches (nodes : List TaskNode) (start : String) : String → Type 0 where
  direct : {y : String} → Depends nodes start y → Reaches nodes start y
  further : {x y : String} → Reaches nodes start x → Depends nodes x y → Reaches nodes start y

-- The dependencies that the loop may still push.
pub rest : List TaskNode → List String → ℕ
rest [] seen = 0
rest (n ∷ ns) seen = (if contains n.id seen then 0 else length n.depends_on) + rest ns seen

pub rest-nil : (nodes : List TaskNode) → rest nodes [] ≡ edges nodes
unfolding rest edges
rest-nil [] = refl
rest-nil (n ∷ ns) = ap (◌+◌ (length n.depends_on)) (rest-nil ns)

rest_less :
    (nodes : List TaskNode) (x : String) (seen : List String)
    → rest nodes (x ∷ seen) ≤ rest nodes seen
unfolding rest
rest_less [] x seen = omega arith
rest_less (n ∷ ns) x seen = ground (arith, rest_less ns x seen)

pub rest_push :
    (nodes : List TaskNode) (x : String) (seen : List String) (n : TaskNode)
    → node x nodes ≡ some n
    → contains x seen ≡ false
    → rest nodes (x ∷ seen) + length n.depends_on ≤ rest nodes seen
unfolding rest node
rest_push [] x seen n h c = cc
rest_push (m ∷ ms) x seen n h c =
    ground (arith, eq_iff m.id x, eq_iff x m.id, rest_less ms x seen, rest_push ms x seen n)
