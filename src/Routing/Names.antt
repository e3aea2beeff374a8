-- ===== src/Routing/Names.antt =====
-- src/hca/tmux.py: what `sanitize_session_name` makes of any text.
use hermes_concurrent_agents.Common.{
  ℕ, zero, suc, ◌≤◌, ◌≡◌, refl, inl, inr, Bool, true, false, List, [], ◌∷◌, arith, if◌then◌else◌,
  nat_eq, string_eq, Bool-cases, length, take, is_nil, All, contains,
}
use hermes_concurrent_agents.Common.Words.{codes, codes_eq}
use hermes_concurrent_agents.Routing.{
  is_name_code, replace_runs, strip_dashes, drop_dashes, drop_dashes_end, sanitize_session_name,
}

abbrev pub AllNameCodes : List ℕ → Type 0
AllNameCodes cs = All (λ c. is_name_code c ≡ true) cs

replace_runs-AllNameCodes : (b : Bool) (cs : List ℕ) → AllNameCodes (replace_runs b cs)
unfolding replace_runs
replace_runs-AllNameCodes b [] = tt
replace_runs-AllNameCodes b (c ∷ cs) = elim (Bool-cases (is_name_code c)) [
  | inl keep ↦ rw keep (keep, replace_runs-AllNameCodes false cs)
  | inr drop ↦ rw drop (skipped b (replace_runs-AllNameCodes true cs))
]
  where
    skipped :
        (b : Bool)
        → AllNameCodes (replace_runs true cs)
        → AllNameCodes (if b then replace_runs true cs else b'-' ∷ replace_runs true cs)
    skipped true rest = rest
    skipped false rest = (unfold is_name_code in refl, rest)

drop_dashes-AllNameCodes : (cs : List ℕ) → AllNameCodes cs → AllNameCodes (drop_dashes cs)
unfolding drop_dashes
drop_dashes-AllNameCodes [] h = tt
drop_dashes-AllNameCodes (c ∷ cs) h = ground (arith, drop_dashes-AllNameCodes cs h.1)

drop_dashes_end-AllNameCodes : (cs : List ℕ) → AllNameCodes cs → AllNameCodes (drop_dashes_end cs)
unfolding drop_dashes_end
drop_dashes_end-AllNameCodes [] h = tt
drop_dashes_end-AllNameCodes (c ∷ cs) h = ground (arith, drop_dashes_end-AllNameCodes cs h.1)

take-AllNameCodes : (n : ℕ) (cs : List ℕ) → AllNameCodes cs → AllNameCodes (take n cs)
take-AllNameCodes zero cs h = tt
take-AllNameCodes (suc n) [] h = tt
take-AllNameCodes (suc n) (c ∷ cs) h = (h.0, take-AllNameCodes n cs h.1)

length-take_le : (n : ℕ) (cs : List ℕ) → length (take n cs) ≤ n
length-take_le zero cs = omega arith
length-take_le (suc n) [] = omega arith
length-take_le (suc n) (c ∷ cs) = omega (arith, length-take_le n cs)

name_code_ne : (cs : List ℕ) → AllNameCodes cs → contains b':' cs ≡ false
unfolding is_name_code
name_code_ne [] h = refl
name_code_ne (c ∷ cs) h = ground (arith, name_code_ne cs h.1)

pub IsSessionName : List ℕ → Type 0
IsSessionName cs =
    ((is_nil cs ≡ false) × (length cs ≤ 80)) × ((contains b':' cs ≡ false) × AllNameCodes cs)

session_name :
    (cs : List ℕ) → AllNameCodes cs → length cs ≤ 80 → is_nil cs ≡ false → IsSessionName cs
unfolding IsSessionName
session_name cs a b c = ((c, b), (name_code_ne cs a, a))

-- Every text becomes a session name that is not empty, has at most 80 characters, no colon, and only
-- letters, digits, underscores, dots and dashes.
pub sanitize-IsSessionName : (name : List ℕ) → IsSessionName (sanitize_session_name name)
unfolding sanitize_session_name
sanitize-IsSessionName name =
    let cut = take 80 (strip_dashes (replace_runs false name)) in
    elim (Bool-cases (is_nil cut)) [
      | inl none_left ↦ rw none_left (
          session_name (codes "hca-slot") (unfold is_name_code in ground arith) (ground arith) refl)
      | inr some_left ↦ rw some_left (
          session_name cut
            (take-AllNameCodes 80 (strip_dashes (replace_runs false name)) (
              unfold strip_dashes in
              drop_dashes_end-AllNameCodes (drop_dashes (replace_runs false name)) (
                drop_dashes-AllNameCodes (replace_runs false name)
                  (replace_runs-AllNameCodes false name))))
            (length-take_le 80 (strip_dashes (replace_runs false name))) some_left)
    ]
