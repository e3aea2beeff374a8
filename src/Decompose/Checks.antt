-- ===== src/Decompose/Checks.antt =====
-- src/hca/decompose.py: when each check of `validate_task_graph` adds no reason.
use hermes_concurrent_agents.Common.{
  String, ◌≡◌, refl, sym, ap, subst, ◌∙◌, ◌≢◌, ◌↔◌, inl, inr, Bool, true, false, List, [], ◌∷◌,
  ◌++◌, arith, eq_iff, nat_eq, string_eq, is_empty, Bool-cases, All, contains,
}
use hermes_concurrent_agents.Decompose.{
  TaskNode, ids, put_node, Reason, no_acceptance, no_scope, map_nodes, duplicate_reasons,
  edge_reasons, dependency_reasons, lacks_acceptance, form_reasons,
}
use hermes_concurrent_agents.Common.Counting.{nodup, contains-append, nodup-snoc}
use hermes_concurrent_agents.Decompose.{when}
use mathlib.Core.List.{append-nil, append_assoc}

append_nil_iff : {A : Type 0} (xs ys : List A) → (xs ++ ys ≡ []) ↔ ((xs ≡ []) × (ys ≡ []))
append_nil_iff [] ys = (λ h. (refl, h), λ h. h.1)
append_nil_iff (x ∷ xs) ys = (λ h. cc, λ h. cc)

pub no_reasons : (xs ys : List Reason) → (xs ++ ys ≡ []) ↔ ((xs ≡ []) × (ys ≡ []))
no_reasons xs ys = append_nil_iff xs ys

pub when_nil : (b : Bool) (r : Reason) → (when b r ≡ []) ↔ (b ≡ false)
when_nil true r = (λ h. cc, λ h. cc)
when_nil false r = (λ h. refl, λ h. refl)

ids-append : (ms ns : List TaskNode) → ids (ms ++ ns) ≡ ids ms ++ ids ns
ids-append [] ns = refl
ids-append (m ∷ ms) ns = ap (◌∷◌ m.id) (ids-append ms ns)

put_new :
    (n : TaskNode) (seen : List TaskNode)
    → contains n.id (ids seen) ≡ false
    → put_node n seen ≡ seen ++ n ∷ []
unfolding put_node
put_new n [] h = refl
put_new n (m ∷ ms) h = ground (arith, put_new n ms)

nodup_start : (xs ys : List String) → nodup (xs ++ ys) ≡ true → nodup xs ≡ true
nodup_start [] ys h = refl
nodup_start (x ∷ xs) ys h = ground (arith, contains-append x xs ys, nodup_start xs ys)

nodup_middle :
    (xs : List String) (y : String) (zs : List String)
    → nodup (xs ++ y ∷ zs) ≡ true
    → contains y xs ≡ false
nodup_middle [] y zs h = refl
nodup_middle (x ∷ xs) y zs h =
    ground (arith, contains-append x xs (y ∷ zs), eq_iff x y, eq_iff y x, nodup_middle xs y zs)

shift :
    (seen : List TaskNode) (n : TaskNode) (ns : List TaskNode)
    → ids ((seen ++ n ∷ []) ++ ns) ≡ ids (seen ++ n ∷ ns)
shift seen n ns = ap ids (append_assoc seen (n ∷ []) ns)

map_distinct :
    (nodes seen : List TaskNode)
    → nodup (ids (seen ++ nodes)) ≡ true
    → map_nodes nodes seen ≡ seen ++ nodes
unfolding map_nodes
map_distinct [] seen h = rw (append-nil seen)
map_distinct (n ∷ ns) seen h =
    let new : contains n.id (ids seen) ≡ false =
      nodup_middle (ids seen) n.id (ids ns)
        (subst (λ xs. nodup xs ≡ true) (ids-append seen (n ∷ ns)) h) in
    rw (put_new n seen new)
      (map_distinct ns (seen ++ n ∷ []) (rw (shift seen n ns) h) ∙ append_assoc seen (n ∷ []) ns)

-- With distinct identifiers the dictionary of nodes is the list of nodes.
pub map_nodes_distinct :
    (nodes : List TaskNode) → nodup (ids nodes) ≡ true → map_nodes nodes [] ≡ nodes
map_nodes_distinct nodes h = map_distinct nodes [] h

no_duplicates :
    (nodes seen : List TaskNode)
    → nodup (ids seen) ≡ true
    → (duplicate_reasons nodes seen ≡ []) ↔ (nodup (ids (seen ++ nodes)) ≡ true)
unfolding duplicate_reasons
no_duplicates [] seen n = (λ h. rw (append-nil seen) n, λ h. refl)
no_duplicates (m ∷ ms) seen n = elim (Bool-cases (contains m.id (ids seen))) [
  | inl old ↦ rw old (
    λ h. cc,
    λ h.
        let new : contains m.id (ids seen) ≡ false =
          nodup_middle (ids seen) m.id (ids ms)
            (subst (λ xs. nodup xs ≡ true) (ids-append seen (m ∷ ms)) h) in
        cc,
  )
  | inr new ↦
      let longer : nodup (ids (seen ++ m ∷ [])) ≡ true =
        subst (λ xs. nodup xs ≡ true) (sym (ids-append seen (m ∷ [])))
          (nodup-snoc (ids seen) m.id n new) in
      rw (new, put_new m seen new)
        (subst (λ xs. (duplicate_reasons ms (seen ++ m ∷ []) ≡ []) ↔ (nodup xs ≡ true))
          (shift seen m ms) (no_duplicates ms (seen ++ m ∷ []) longer))
]

pub duplicate_iff :
    (nodes : List TaskNode) → (duplicate_reasons nodes [] ≡ []) ↔ (nodup (ids nodes) ≡ true)
duplicate_iff nodes = no_duplicates nodes [] refl

-- A list of dependencies that are all tasks of the graph, and not the task itself.
abbrev pub IsLinked : List String → String → String → Type 0
IsLinked names i d = (contains d names ≡ true) × (d ≢ i)

edge_iff :
    (names : List String) (i : String) (ds : List String)
    → (edge_reasons names i ds ≡ []) ↔ All (IsLinked names i) ds
unfolding edge_reasons
edge_iff names i [] = (λ h. tt, λ h. refl)
edge_iff names i (d ∷ ds) = (
  λ h. ground (arith, eq_iff d i, edge_iff names i ds),
  λ h. ground (arith, eq_iff d i, edge_iff names i ds),
)

pub dependency_iff :
    (names : List String) (nodes : List TaskNode)
    → (dependency_reasons names nodes ≡ [])
      ↔ All (λ n. All (IsLinked names n.id) n.depends_on) nodes
unfolding dependency_reasons
dependency_iff names [] = (λ h. tt, λ h. refl)
dependency_iff names (n ∷ ns) =
    let both = no_reasons (edge_reasons names n.id n.depends_on) (dependency_reasons names ns) in
    (
      λ h.
          let (a, b) = both.0 h in
          ((edge_iff names n.id n.depends_on).0 a, (dependency_iff names ns).0 b),
      λ h. both.1 ((edge_iff names n.id n.depends_on).1 h.0, (dependency_iff names ns).1 h.1),
    )

-- A task with a scope, and with acceptance criteria where its kind needs them.
abbrev pub IsFormed : Bool → TaskNode → Type 0
IsFormed require n = (lacks_acceptance require n ≡ false) × (n.scope ≢ "")

pub form_iff :
    (require : Bool) (nodes : List TaskNode)
    → (form_reasons require nodes ≡ []) ↔ All (IsFormed require) nodes
unfolding form_reasons
form_iff require [] = (λ h. tt, λ h. refl)
form_iff require (n ∷ ns) =
    let first = when_nil (lacks_acceptance require n) (no_acceptance n.id) in
    let second = when_nil (is_empty n.scope) (no_scope n.id) in
    let outer =
      no_reasons (when (lacks_acceptance require n) (no_acceptance n.id))
        (when (is_empty n.scope) (no_scope n.id) ++ form_reasons require ns) in
    let inner = no_reasons (when (is_empty n.scope) (no_scope n.id)) (form_reasons require ns) in
    (
      λ h.
          let (a, b) = outer.0 h in
          let (c, d) = inner.0 b in
          ((first.0 a, (λ e. cc ((eq_iff n.scope "").1 e, second.0 c))), (form_iff require ns).0 d),
      λ h. outer.1 (
        first.1 h.0.0,
        inner.1 (second.1 (ground (arith, eq_iff n.scope "", h.0.1)), (form_iff require ns).1 h.1),
      ),
    )
