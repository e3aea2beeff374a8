-- ===== src/Decompose/Rows.antt =====
-- src/hca/decompose.py: the rows of `indeg` and the ready list, as one round of the loop changes them.
use hermes_concurrent_agents.Common.{
  suc, ◌+◌, ◌-◌, String, ◌≡◌, refl, ◌∙◌, Bool, true, false, not, ◌&&◌, ◌||◌, List, [], ◌∷◌, map,
  arith, eq_iff, eqb, if◌then◌else◌, ◌==◌, nat_eq, string_eq, and_true, not-true, length, filter,
  All, All-map, All-both, contains,
}
use hermes_concurrent_agents.Decompose.{
  TaskNode, insert_text, sort, Pending, is_free, row_ids, lower_rows, released,
}
use hermes_concurrent_agents.Common.Counting.{nodup}

contains-insert :
    (b a : String) (xs : List String) → contains b (insert_text a xs) ≡ (a == b || contains b xs)
unfolding insert_text
contains-insert b a [] = refl
contains-insert b a (x ∷ xs) = ground (arith, contains-insert b a xs)

pub contains-sort : (b : String) (xs : List String) → contains b (sort xs) ≡ contains b xs
unfolding sort
contains-sort b [] = refl
contains-sort b (x ∷ xs) = contains-insert b x (sort xs) ∙ rw (contains-sort b xs)

nodup-insert :
    (a : String) (xs : List String) → nodup (insert_text a xs) ≡ (not (contains a xs) && nodup xs)
unfolding insert_text
nodup-insert a [] = refl
nodup-insert a (x ∷ xs) =
    ground (arith, nodup-insert a xs, contains-insert x a xs, eq_iff a x, eq_iff x a)

pub nodup-sort : (xs : List String) → nodup (sort xs) ≡ nodup xs
unfolding sort
nodup-sort [] = refl
nodup-sort (x ∷ xs) = nodup-insert x (sort xs) ∙ rw (contains-sort x xs, nodup-sort xs)

length-insert : (a : String) (xs : List String) → length (insert_text a xs) ≡ suc (length xs)
unfolding insert_text
length-insert a [] = refl
length-insert a (x ∷ xs) = ground (arith, length-insert a xs)

pub length-sort : (xs : List String) → length (sort xs) ≡ length xs
unfolding sort
length-sort [] = refl
length-sort (x ∷ xs) = omega (arith, length-insert x (sort xs), length-sort xs)

pub All-sort : (P : String → Type 0) (xs : List String) → All P xs → All P (sort xs)
unfolding sort insert_text
All-sort P [] h = tt
All-sort P (x ∷ xs) h = go (sort xs) (All-sort P xs h.1)
  where
    go : (ys : List String) → All P ys → All P (insert_text x ys)
    go [] k = (h.0, tt)
    go (y ∷ ys) k = ground (arith, go ys k.1)

-- The rows whose node the round releases.
abbrev pub falls : String → Pending → Bool
falls nid p = contains nid p.task.depends_on && eqb p.indegree 1

pub released-filter :
    (nid : String) (rows : List Pending) → released nid rows ≡ row_ids (filter (falls nid) rows)
unfolding released
released-filter nid [] = refl
released-filter nid (p ∷ ps) = ground (arith, released-filter nid ps)

-- A choice of rows by a test, seen through their identifiers.
abbrev pub chosen : (Pending → Bool) → List Pending → List String
chosen f rows = row_ids (filter f rows)

pub All-chosen :
    (P : String → Type 0) (f : Pending → Bool) (rows : List Pending)
    → All (λ p. f p ≡ true → P p.task.id) rows
    → All P (chosen f rows)
All-chosen P f [] h = tt
All-chosen P f (p ∷ ps) h = ground (arith, All-chosen P f ps h.1)

chosen_sub :
    (x : String) (f : Pending → Bool) (rows : List Pending)
    → contains x (row_ids rows) ≡ false
    → contains x (chosen f rows) ≡ false
chosen_sub x f [] h = refl
chosen_sub x f (p ∷ ps) h = ground (arith, chosen_sub x f ps)

pub nodup-chosen :
    (f : Pending → Bool) (rows : List Pending)
    → nodup (row_ids rows) ≡ true
    → nodup (chosen f rows) ≡ true
nodup-chosen f [] h = refl
nodup-chosen f (p ∷ ps) h = ground (arith, nodup-chosen f ps, chosen_sub p.task.id f ps)

apart :
    (x : String) (rows : List Pending)
    → contains x (row_ids rows) ≡ false
    → All (λ p. (x == p.task.id) ≡ false) rows
apart x [] h = tt
apart x (p ∷ ps) h = ground (arith, eq_iff p.task.id x, eq_iff x p.task.id, apart x ps)

chosen_tail :
    (p : Pending) (f : Pending → Bool) (q : Pending) (qs : List Pending)
    → (q.task.id == p.task.id) ≡ false
    → contains p.task.id (chosen f qs) ≡ f p
    → contains p.task.id (chosen f (q ∷ qs)) ≡ f p
chosen_tail p f q qs n h = ground arith

-- With distinct identifiers, the choice holds a row's identifier exactly if the row passes the test.
pub contains-chosen :
    (f : Pending → Bool) (rows : List Pending)
    → nodup (row_ids rows) ≡ true
    → All (λ p. contains p.task.id (chosen f rows) ≡ f p) rows
contains-chosen f [] h = tt
contains-chosen f (q ∷ qs) h =
    let (new, rest) =
      and_true {a = not (contains q.task.id (row_ids qs))} {b = nodup (row_ids qs)} h in
    (
      ground (arith, chosen_sub q.task.id f qs, eq_iff q.task.id q.task.id),
      All-map
          (λ p (k : ((q.task.id == p.task.id) ≡ false) × (contains p.task.id (chosen f qs) ≡ f p)).
            chosen_tail p f q qs k.0 k.1)
          qs
          (All-both (λ p. (q.task.id == p.task.id) ≡ false)
            (λ p. contains p.task.id (chosen f qs) ≡ f p) qs (apart q.task.id qs (not-true new))
            (contains-chosen f qs rest)),
    )

-- The rows that wait for something, and the measure of the loop.
abbrev pub waits : Pending → Bool
waits p = not (is_free p)

pub length-released :
    (nid : String) (rows : List Pending)
    → length (released nid rows) + length (filter waits (lower_rows nid rows))
      ≡ length (filter waits rows)
unfolding released lower_rows
length-released nid [] = omega arith
length-released nid (p ∷ ps) = ground (arith, length-released nid ps)

pub row_ids-lower :
    (nid : String) (rows : List Pending) → row_ids (lower_rows nid rows) ≡ row_ids rows
unfolding lower_rows
row_ids-lower nid [] = refl
row_ids-lower nid (p ∷ ps) = ground (arith, row_ids-lower nid ps)

-- What a round does to a row.
abbrev pub lowered : String → Pending → Pending
lowered nid p = if contains nid p.task.depends_on then record p { indegree = p.indegree - 1 } else p

pub All-lower :
    (P Q : Pending → Type 0) (nid : String) (rows : List Pending)
    → ((p : Pending) → P p → Q (lowered nid p))
    → All P rows
    → All Q (lower_rows nid rows)
unfolding lower_rows
All-lower P Q nid [] f h = tt
All-lower P Q nid (p ∷ ps) f h = (f p h.0, All-lower P Q nid ps f h.1)

abbrev pub tasks : List Pending → List TaskNode
tasks rows = map (λ p. p.task) rows

pub tasks-lower : (nid : String) (rows : List Pending) → tasks (lower_rows nid rows) ≡ tasks rows
unfolding lower_rows
tasks-lower nid [] = refl
tasks-lower nid (p ∷ ps) = ground (arith, tasks-lower nid ps)
