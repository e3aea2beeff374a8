-- ===== src/Common/Tables.antt =====
-- The SQLite statements that the stores use, on a table as the list of its rows in insertion order:
-- a row by its primary key, an update by key, and `ORDER BY` as a stable sort.
use hermes_concurrent_agents.Common.{
  ℕ, ◌≤◌, String, ◌≡◌, refl, ◌≢◌, ◌⊎◌, inl, inr, Option, none, some, List, [], ◌∷◌, ◌++◌, arith,
  eq_iff, leb, if◌then◌else◌, leb→le, ◌==◌, nat_eq, string_eq, Bool, Bool-cases, All, All-map,
  filter,
}

module _ {A : Type 0} (key : A → String) where
  -- `SELECT * FROM t WHERE key = ?`, `fetchone`.
  unfoldable pub row : String → List A → Option A
  row k [] = none
  row k (x ∷ xs) = if key x == k then some x else row k xs

  -- `UPDATE t SET … WHERE key = ?`.
  unfoldable pub update : String → (A → A) → List A → List A
  update k f [] = []
  update k f (x ∷ xs) = (if key x == k then f x else x) ∷ update k f xs

  pub row-key : (k : String) (xs : List A) {a : A} → row k xs ≡ some a → key a ≡ k
  unfolding row
  row-key k [] h = cc
  row-key k (x ∷ xs) {a} h = ground (arith, eq_iff (key x) k, row-key k xs {a = a})

  pub row-append_some :
      (k : String) (xs ys : List A) {a : A} → row k xs ≡ some a → row k (xs ++ ys) ≡ some a
  unfolding row
  row-append_some k [] ys h = cc
  row-append_some k (x ∷ xs) ys {a} h = ground (arith, row-append_some k xs ys {a = a})

  pub row-append_none :
      (k : String) (xs ys : List A) → row k xs ≡ none → row k (xs ++ ys) ≡ row k ys
  unfolding row
  row-append_none k [] ys h = refl
  row-append_none k (x ∷ xs) ys h = ground (arith, row-append_none k xs ys)

  pub row-singleton : (a : A) → row (key a) (a ∷ []) ≡ some a
  unfolding row
  row-singleton a = rw ((eq_iff (key a) (key a)).1 refl)

  pub row-singleton_ne : (k : String) (a : A) → key a ≢ k → row k (a ∷ []) ≡ none
  unfolding row
  row-singleton_ne k a h = ground (arith, eq_iff (key a) k)

  module _ (f : A → A) (keeps : (x : A) → key (f x) ≡ key x) where
    pub row-update_self :
        (k : String) (xs : List A) {a : A} → row k xs ≡ some a → row k (update k f xs) ≡ some (f a)
    unfolding row update
    row-update_self k [] h = cc
    row-update_self k (x ∷ xs) {a} h = elim (Bool-cases (key x == k)) [
      | inl hit ↦ ground (arith, keeps x, hit)
      | inr miss ↦ ground (arith, miss, row-update_self k xs {a = a})
    ]

    pub row-update-none :
        (k : String) (xs : List A) → row k xs ≡ none → row k (update k f xs) ≡ none
    unfolding row update
    row-update-none k [] h = refl
    row-update-none k (x ∷ xs) h = ground (arith, keeps x, row-update-none k xs)

    pub row-update_ne : (k j : String) (xs : List A) → k ≢ j → row j (update k f xs) ≡ row j xs
    unfolding row update
    row-update_ne k j [] h = refl
    row-update_ne k j (x ∷ xs) h =
        ground (arith, keeps x, eq_iff (key x) k, eq_iff (key x) j, row-update_ne k j xs h)

module _ {A : Type 0} where
  abbrev pub Among : A → List A → Type 0
  Among a [] = ⊥
  Among a (x ∷ xs) = (x ≡ a) ⊎ Among a xs

  pub All-Among : (xs : List A) → All (λ x. Among x xs) xs
  All-Among [] = tt
  All-Among (x ∷ xs) = (inl refl, All-map (λ _ h. inr h) xs (All-Among xs))

module _ {A : Type 0} (rank : A → ℕ) where
  insert_desc : A → List A → List A
  insert_desc a [] = a ∷ []
  insert_desc a (x ∷ xs) = if leb (rank x) (rank a) then a ∷ x ∷ xs else x ∷ insert_desc a xs

  -- `ORDER BY rank DESC`: the first row of equal rank stays first.
  unfoldable pub order_desc : List A → List A
  unfolding insert_desc
  order_desc [] = []
  order_desc (x ∷ xs) = insert_desc x (order_desc xs)

  insert_asc : A → List A → List A
  insert_asc a [] = a ∷ []
  insert_asc a (x ∷ xs) = if leb (rank a) (rank x) then a ∷ x ∷ xs else x ∷ insert_asc a xs

  -- `ORDER BY rank ASC`.
  unfoldable pub order_asc : List A → List A
  unfolding insert_asc
  order_asc [] = []
  order_asc (x ∷ xs) = insert_asc x (order_asc xs)

  abbrev pub first : List A → Option A
  first [] = none
  first (x ∷ xs) = some x

  insert_desc-All :
      (P : A → Type 0) (a : A) (xs : List A) → P a → All P xs → All P (insert_desc a xs)
  unfolding insert_desc
  insert_desc-All P a [] p h = (p, tt)
  insert_desc-All P a (x ∷ xs) p h = ground (arith, insert_desc-All P a xs p h.1)

  pub order_desc-All : (P : A → Type 0) (xs : List A) → All P xs → All P (order_desc xs)
  unfolding order_desc
  order_desc-All P [] h = tt
  order_desc-All P (x ∷ xs) h = insert_desc-All P x (order_desc xs) h.0 (order_desc-All P xs h.1)

  insert_asc-All : (P : A → Type 0) (a : A) (xs : List A) → P a → All P xs → All P (insert_asc a xs)
  unfolding insert_asc
  insert_asc-All P a [] p h = (p, tt)
  insert_asc-All P a (x ∷ xs) p h = ground (arith, insert_asc-All P a xs p h.1)

  pub order_asc-All : (P : A → Type 0) (xs : List A) → All P xs → All P (order_asc xs)
  unfolding order_asc
  order_asc-All P [] h = tt
  order_asc-All P (x ∷ xs) h = insert_asc-All P x (order_asc xs) h.0 (order_asc-All P xs h.1)

  -- Each rank is at least the one before it, and the first at least `low`.
  abbrev pub Rising : ℕ → List A → Type 0
  Rising low [] = Unit {0}
  Rising low (x ∷ xs) = (low ≤ rank x) × Rising (rank x) xs

  insert_asc-Rising :
      (low : ℕ) (a : A) (xs : List A) → low ≤ rank a → Rising low xs → Rising low (insert_asc a xs)
  unfolding insert_asc
  insert_asc-Rising low a [] h k = (h, tt)
  insert_asc-Rising low a (x ∷ xs) h k = elim (Bool-cases (leb (rank a) (rank x))) [
    | inl le ↦ rw le (h, (leb→le _ _ le, k.1))
    | inr gt ↦ rw gt (k.0, insert_asc-Rising (rank x) a xs (ground (arith, gt)) k.1)
  ]

  pub order_asc-Rising : (xs : List A) → Rising 0 (order_asc xs)
  unfolding order_asc
  order_asc-Rising [] = tt
  order_asc-Rising (x ∷ xs) =
      insert_asc-Rising 0 x (order_asc xs) (omega arith) (order_asc-Rising xs)

  pub filter-Rising :
      (p : A → Bool) (low high : ℕ) (xs : List A)
      → low ≤ high
      → Rising high xs
      → Rising low (filter p xs)
  filter-Rising p low high [] h k = tt
  filter-Rising p low high (x ∷ xs) h k = elim (Bool-cases (p x)) [
    | inl kept ↦
        rw kept (omega (arith, k.0), filter-Rising p (rank x) (rank x) xs (omega arith) k.1)
    | inr cut ↦ rw cut (filter-Rising p low (rank x) xs (omega (arith, k.0)) k.1)
  ]

  -- The first row of the order is at least as new as every row.
  abbrev pub NoNewer : List A → Option A → Type 0
  NoNewer xs none = xs ≡ []
  NoNewer xs (some a) = All (λ x. rank x ≤ rank a) xs

  first-insert_desc :
      (a : A) (xs : List A)
      → first (insert_desc a xs) ≡ elim (first xs) [
        | none ↦ some a
        | some b ↦ if leb (rank b) (rank a) then some a else some b
      ]
  unfolding insert_desc
  first-insert_desc a [] = refl
  first-insert_desc a (x ∷ xs) = ground arith

  raise_bound :
      (m n : ℕ) (xs : List A) → m ≤ n → All (λ x. rank x ≤ m) xs → All (λ x. rank x ≤ n) xs
  raise_bound m n [] h a = tt
  raise_bound m n (x ∷ xs) h a = (omega arith, raise_bound m n xs h a.1)

  pub first-order_desc : (xs : List A) → NoNewer xs (first (order_desc xs))
  unfolding order_desc
  first-order_desc [] = refl
  first-order_desc (x ∷ xs) =
      rw (first-insert_desc x (order_desc xs)) (go (first (order_desc xs)) (first-order_desc xs))
    where
      go :
          (o : Option A)
          → NoNewer xs o
          → NoNewer
              (x ∷ xs)
              (elim o [ none ↦ some x | some b ↦ if leb (rank b) (rank x) then some x else some b ])
      go none h = rw h (omega arith, tt)
      go (some b) h = elim (Bool-cases (leb (rank b) (rank x))) [
        | inl le ↦ rw le (omega arith, raise_bound (rank b) (rank x) xs (leb→le _ _ le) h)
        | inr gt ↦ rw gt (ground arith, h)
      ]
