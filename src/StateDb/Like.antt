-- ===== src/StateDb/Like.antt =====
-- src/hca/state.py: `release_lease_prefix`, with SQLite's `LIKE … ESCAPE '\'` on the code points of a
-- text. LIKE takes the ASCII letters without regard to case.
use hermes_concurrent_agents.Common.{
  ℕ, ◌+◌, String, ◌≡◌, refl, ap, ◌∙◌, inl, inr, Bool, true, false, not, ◌&&◌, ◌||◌, List, [], ◌∷◌,
  ◌++◌, arith, leb, eqb, if◌then◌else◌, nat_eq, string_eq, Bool-cases, length, is_nil, filter,
  contains,
}
use hermes_concurrent_agents.StateDb.{Lease, StateDb, delete_leases}
use hermes_concurrent_agents.Common.Words.{codes}

fold_code : ℕ → ℕ
fold_code c = if leb b'A' c && leb c b'Z' then c + 32 else c

-- Two code points that LIKE does not tell apart.
unfoldable pub alike : ℕ → ℕ → Bool
unfolding fold_code
alike a b = eqb (fold_code a) (fold_code b)

abbrev any_tail : (List ℕ → Bool) → List ℕ → Bool
any_tail f [] = f []
any_tail f (c ∷ cs) = f (c ∷ cs) || any_tail f cs

abbrev one_of : (ℕ → Bool) → (List ℕ → Bool) → List ℕ → Bool
one_of p f [] = false
one_of p f (c ∷ cs) = p c && f cs

-- A pattern that ends in its escape character matches nothing.
unfoldable pub like : List ℕ → List ℕ → Bool
unfolding alike
like [] cs = is_nil cs
like (p ∷ []) cs =
    if eqb p b'%'
    then true
    else if eqb p b'\\'
    then false
    else one_of (λ c. eqb p b'_' || alike p c) is_nil cs
like (p ∷ q ∷ ps) cs =
    let rest = like (q ∷ ps) in
    let after = like ps in
    if eqb p b'%'
    then any_tail rest cs
    else if eqb p b'\\'
    then one_of (alike q) after cs
    else one_of (λ c. eqb p b'_' || alike p c) rest cs

-- `prefix.replace("%", r"\%").replace("_", r"\_")`.
unfoldable pub escape : List ℕ → List ℕ
escape [] = []
escape (c ∷ cs) = if eqb c b'%' || eqb c b'_' then b'\\' ∷ c ∷ escape cs else c ∷ escape cs

unfoldable pub prefix_like : String → String → Bool
unfolding like escape
prefix_like prefix lease_id = like (escape (codes prefix) ++ b'%' ∷ []) (codes lease_id)

unfoldable pub release_lease_prefix : StateDb → String → ℕ × StateDb
unfolding prefix_like
release_lease_prefix db prefix = delete_leases (λ l. prefix_like prefix l.lease_id) db

-- "Begins with", up to the case of ASCII letters.
unfoldable pub begins_alike : List ℕ → List ℕ → Bool
unfolding alike
begins_alike [] cs = true
begins_alike (p ∷ ps) [] = false
begins_alike (p ∷ ps) (c ∷ cs) = alike p c && begins_alike ps cs

like-quoted : (p : ℕ) (ps cs : List ℕ) → like (b'\\' ∷ p ∷ ps) cs ≡ one_of (alike p) (like ps) cs
unfolding like
like-quoted p ps cs = refl

like-literal :
    (p : ℕ) (ps cs : List ℕ)
    → eqb p b'%' ≡ false
    → eqb p b'_' ≡ false
    → eqb p b'\\' ≡ false
    → like (p ∷ ps) cs ≡ one_of (alike p) (like ps) cs
unfolding like
like-literal p [] [] a b c = rw (a, c) refl
like-literal p [] (d ∷ ds) a b c = rw (a, c, b) refl
like-literal p (q ∷ ps) [] a b c = rw (a, c) refl
like-literal p (q ∷ ps) (d ∷ ds) a b c = rw (a, c, b) refl

one_of-begins_alike :
    (p : ℕ) (ps : List ℕ) (f : List ℕ → Bool) (cs : List ℕ)
    → ((ds : List ℕ) → f ds ≡ begins_alike ps ds)
    → one_of (alike p) f cs ≡ begins_alike (p ∷ ps) cs
unfolding begins_alike
one_of-begins_alike p ps f [] same = refl
one_of-begins_alike p ps f (c ∷ cs) same = rw (same cs) refl

like-escape :
    (ps cs : List ℕ)
    → contains b'\\' ps ≡ false
    → like (escape ps ++ b'%' ∷ []) cs ≡ begins_alike ps cs
unfolding escape
like-escape [] cs h = unfold like begins_alike in refl
like-escape (p ∷ ps) cs h =
    let rest =
      one_of-begins_alike p ps (like (escape ps ++ b'%' ∷ [])) cs
        (λ ds. like-escape ps ds (ground (arith, h))) in
    elim (Bool-cases (eqb p b'%' || eqb p b'_')) [
      | inl special ↦ rw special (like-quoted p (escape ps ++ b'%' ∷ []) cs ∙ rest)
      | inr plain ↦ rw plain (
          like-literal p (escape ps ++ b'%' ∷ []) cs (ground (arith, plain)) (ground (arith, plain))
            (ground (arith, h))
          ∙ rest)
    ]

pub prefix_like_iff :
    (prefix lease_id : String)
    → contains b'\\' (codes prefix) ≡ false
    → prefix_like prefix lease_id ≡ begins_alike (codes prefix) (codes lease_id)
unfolding prefix_like
prefix_like_iff prefix lease_id h = like-escape (codes prefix) (codes lease_id) h

filter-same :
    (p q : Lease → Bool) (ls : List Lease) → ((l : Lease) → p l ≡ q l) → filter p ls ≡ filter q ls
filter-same p q [] same = refl
filter-same p q (l ∷ ls) same = rw (same l, filter-same p q ls same) refl

abbrev pub under : String → Lease → Bool
under prefix l = begins_alike (codes prefix) (codes l.lease_id)

-- A release by a prefix that holds no backslash removes exactly the leases whose identifier begins
-- with the prefix up to the case of ASCII letters, keeps the others in order, returns how many it
-- removed, and leaves the other tables alone.
pub release_prefix_exact :
    (db : StateDb) (prefix : String)
    → contains b'\\' (codes prefix) ≡ false
    → release_lease_prefix db prefix ≡ (
      length (filter (under prefix) db.leases),
      record db { leases = filter (λ l. not (under prefix l)) db.leases },
    )
unfolding release_lease_prefix
release_prefix_exact db prefix h =
    rw
      (
        filter-same (λ l. prefix_like prefix l.lease_id) (under prefix) db.leases
            (λ l. prefix_like_iff prefix l.lease_id h),
        filter-same (λ l. not (prefix_like prefix l.lease_id)) (λ l. not (under prefix l)) db.leases
            (λ l. ap not (prefix_like_iff prefix l.lease_id h)),
      )
      refl
