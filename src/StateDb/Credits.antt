-- ===== src/StateDb/Credits.antt =====
-- src/hca/state.py: the sum of the credits in the table `leases`.
use hermes_concurrent_agents.Common.{
  ◌≤◌, ◌≡◌, refl, Bool, true, List, [], ◌∷◌, arith, nat_eq, string_eq, filter,
}
use hermes_concurrent_agents.StateDb.{Lease, sum_credits}

pub sum_credits-filter_le :
    (p : Lease → Bool) (ls : List Lease) → sum_credits (filter p ls) ≤ sum_credits ls
unfolding sum_credits
sum_credits-filter_le p [] = omega arith
sum_credits-filter_le p (l ∷ ls) = ground (arith, sum_credits-filter_le p ls)

pub filter_all :
    (p : Lease → Bool) (ls : List Lease) → ((l : Lease) → p l ≡ true) → filter p ls ≡ ls
filter_all p [] h = refl
filter_all p (l ∷ ls) h = rw (h l, filter_all p ls h) refl
