-- ===== src/Common/Counting.antt =====
-- Counting lemmas on lists without repetition.
use hermes_concurrent_agents.Common.{
  ℕ, ◌+◌, ◌≤◌, ◌≡◌, refl, Bool, true, false, not, ◌&&◌, ◌||◌, List, [], ◌∷◌, ◌++◌, arith, Eq, ◌==◌,
  nat_eq, string_eq, length, filter, All, length-filter-le, All-map, contains,
}

abbrev pub one_if : Bool → ℕ
one_if true = 1
one_if false = 0

module _ {A : Type 0} ⦃e : Eq A⦄ where
  -- No element twice, as a test.
  abbrev pub nodup : List A → Bool
  nodup [] = true
  nodup (x ∷ xs) = not (contains x xs) && nodup xs

  -- How many elements of `xs` stand in `ys`.
  abbrev pub hits : List A → List A → ℕ
  hits xs ys = length (filter (λ x. contains x ys) xs)

  pub contains-append :
      (a : A) (xs ys : List A) → contains a (xs ++ ys) ≡ (contains a xs || contains a ys)
  contains-append a [] ys = refl
  contains-append a (x ∷ xs) ys = ground (arith, contains-append a xs ys)

  pub hits-append : (xs ys zs : List A) → hits (xs ++ ys) zs ≡ hits xs zs + hits ys zs
  hits-append [] ys zs = omega arith
  hits-append (x ∷ xs) ys zs = ground (arith, hits-append xs ys zs)

  pub hits-le-length : (xs ys : List A) → hits xs ys ≤ length xs
  hits-le-length xs ys = length-filter-le (λ x. contains x ys) xs

  hits-nil : (xs : List A) → hits xs [] ≡ 0
  hits-nil [] = refl
  hits-nil (x ∷ xs) = hits-nil xs

  -- An element that is not in `xs` adds no hit.
  hits-cons_absent :
      (xs ys : List A) (y : A) → contains y xs ≡ false → hits xs (y ∷ ys) ≡ hits xs ys
  hits-cons_absent [] ys y h = refl
  hits-cons_absent (x ∷ xs) ys y h =
      ground (arith, e.same_iff x y, e.same_iff y x, hits-cons_absent xs ys y)

  -- It adds one at most, if `xs` has no repetition.
  pub hits-cons_le :
      (xs ys : List A) (y : A)
      → nodup xs ≡ true
      → hits xs (y ∷ ys) ≤ hits xs ys + one_if (contains y xs)
  hits-cons_le [] ys y h = omega arith
  hits-cons_le (x ∷ xs) ys y h = ground (
    arith,
    e.same_iff x y,
    e.same_iff y x,
    hits-cons_absent xs ys x,
    hits-cons_absent xs ys y,
    hits-cons_le xs ys y,
  )

  -- Without repetition in `xs`, it has no more elements in `ys` than `ys` has in `xs`.
  pub hits_le_hits : (xs ys : List A) → nodup xs ≡ true → hits xs ys ≤ hits ys xs
  hits_le_hits xs [] h = rw (hits-nil xs) (omega arith)
  hits_le_hits xs (y ∷ ys) h = ground (arith, hits-cons_le xs ys y, hits_le_hits xs ys h)

  pub hits-cons_present :
      (xs ys : List A) (y : A) → contains y ys ≡ true → hits xs (y ∷ ys) ≡ hits xs ys
  hits-cons_present [] ys y h = refl
  hits-cons_present (x ∷ xs) ys y h = ground (arith, e.same_iff y x, hits-cons_present xs ys y)

  pub contains_of_All :
      (x : A) (ys zs : List A)
      → All (λ y. contains y zs ≡ true) ys
      → contains x ys ≡ true
      → contains x zs ≡ true
  contains_of_All x [] zs h c = cc
  contains_of_All x (y ∷ ys) zs h c = ground (arith, e.same_iff y x, contains_of_All x ys zs h.1)

  -- More places, more hits.
  pub hits_mono : (xs ys zs : List A) → All (λ y. contains y zs ≡ true) ys → hits xs ys ≤ hits xs zs
  hits_mono [] ys zs h = omega arith
  hits_mono (x ∷ xs) ys zs h = ground (arith, contains_of_All x ys zs h, hits_mono xs ys zs h)

  pub hits-All : (xs ys : List A) → All (λ x. contains x ys ≡ true) xs → hits xs ys ≡ length xs
  hits-All [] ys h = refl
  hits-All (x ∷ xs) ys h = ground (arith, hits-All xs ys h.1)

  -- If fewer places give as many hits, each hit stands in those places.
  pub placed_of_hits :
      (xs ys zs : List A)
      → All (λ y. contains y zs ≡ true) ys
      → hits xs zs ≤ hits xs ys
      → All (λ x. contains x zs ≡ true → contains x ys ≡ true) xs
  placed_of_hits [] ys zs k h = tt
  placed_of_hits (x ∷ xs) ys zs k h = (
    ground (arith, hits_mono xs ys zs k),
    placed_of_hits xs ys zs k (ground (arith, contains_of_All x ys zs k)),
  )

  -- As many hits from a list without repetition as `ys` is long: `ys` has no repetition.
  pub nodup_of_hits : (xs ys : List A) → nodup xs ≡ true → length ys ≤ hits xs ys → nodup ys ≡ true
  nodup_of_hits xs [] n h = refl
  nodup_of_hits xs (y ∷ ys) n h = ground (
    arith,
    hits-cons_present xs ys y,
    hits-cons_le xs ys y n,
    hits_le_hits xs ys n,
    hits-le-length ys xs,
    nodup_of_hits xs ys n,
  )

  -- Only the known elements of `ds` can be hit from known ones.
  pub hits-filter_known :
      (xs ds names : List A)
      → All (λ x. contains x names ≡ true) xs
      → hits xs (filter (λ d. contains d names) ds) ≡ hits xs ds
  hits-filter_known [] ds names h = refl
  hits-filter_known (x ∷ xs) ds names h = ground (arith, kept ds, hits-filter_known xs ds names h.1)
    where
      kept : (us : List A) → contains x (filter (λ d. contains d names) us) ≡ contains x us
      kept [] = refl
      kept (u ∷ us) = ground (arith, e.same_iff u x, h.0, kept us)

  -- A new element at the end.
  pub nodup-snoc :
      (xs : List A) (y : A) → nodup xs ≡ true → contains y xs ≡ false → nodup (xs ++ y ∷ []) ≡ true
  nodup-snoc [] y n h = refl
  nodup-snoc (x ∷ xs) y n h =
      ground (arith, contains-append x xs (y ∷ []), e.same_iff x y, e.same_iff y x, nodup-snoc xs y)

  pub nodup-append_of :
      (xs ys : List A)
      → nodup xs ≡ true
      → nodup ys ≡ true
      → All (λ y. contains y xs ≡ false) ys
      → nodup (xs ++ ys) ≡ true
  nodup-append_of [] ys n m h = m
  nodup-append_of (x ∷ xs) ys n m h =
      ground (arith, contains-append x xs ys, apart ys h, nodup-append_of xs ys, rest ys h)
    where
      apart : (us : List A) → All (λ y. contains y (x ∷ xs) ≡ false) us → contains x us ≡ false
      apart [] k = refl
      apart (u ∷ us) k = ground (arith, e.same_iff u x, e.same_iff x u, apart us k.1)

      rest :
          (us : List A)
          → All (λ y. contains y (x ∷ xs) ≡ false) us
          → All (λ y. contains y xs ≡ false) us
      rest [] k = tt
      rest (u ∷ us) k = (ground arith, rest us k.1)

  -- A list holds its own elements.
  pub All-contains : (xs : List A) → All (λ x. contains x xs ≡ true) xs
  All-contains [] = tt
  All-contains (x ∷ xs) = (
    ground (arith, e.same_iff x x),
    All-map (λ y (h : contains y xs ≡ true). ground (arith, h)) xs (All-contains xs),
  )

  -- The elements of a list without repetition differ from its head.
  pub All-apart : (x : A) (xs : List A) → contains x xs ≡ false → All (λ y. (y == x) ≡ false) xs
  All-apart x [] h = tt
  All-apart x (y ∷ xs) h = ground (arith, All-apart x xs)
