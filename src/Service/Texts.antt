-- ===== src/Service/Texts.antt =====
-- src/hca/service.py: the tests on the texts of a submission.
use hermes_concurrent_agents.Common.{
  String, ◌≡◌, refl, sym, ◌∙◌, inl, inr, Bool, false, not, ◌||◌, nat_eq, string_eq, eq_iff,
  Bool-cases, is_empty,
}
use hermes_concurrent_agents.Common.Words.{is_space}
use hermes_concurrent_agents.Service.Submit.{drop_front, drop_back, stripped}
use Prim.Native.Char.{Char, code}

-- A character that is no white space.
abbrev pub has_text : String → Bool
has_text String.[] = false
has_text (String.◌∷◌ c s) = not (is_space (code c)) || has_text s

drop_front-has_text : (s : String) → has_text (drop_front s) ≡ has_text s
unfolding drop_front
drop_front-has_text String.[] = refl
drop_front-has_text (String.◌∷◌ c s) = elim (Bool-cases (is_space (code c))) [
  | inl space ↦ rw space (drop_front-has_text s)
  | inr other ↦ rw other (rw other refl)
]

cons_is_empty : (c : Char) (s : String) → is_empty (String.◌∷◌ c s) ≡ false
cons_is_empty c s = elim (Bool-cases (is_empty (String.◌∷◌ c s))) [
  | inl e ↦ let h : String.◌∷◌ c s ≡ "" = (eq_iff (String.◌∷◌ c s) "").0 e in cc h
  | inr e ↦ e
]

drop_back-is_empty : (s : String) → is_empty (drop_back s) ≡ not (has_text s)
unfolding drop_back
drop_back-is_empty String.[] = refl
drop_back-is_empty (String.◌∷◌ c s) = elim (Bool-cases (is_space (code c))) [
  | inl space ↦ elim (Bool-cases (is_empty (drop_back s))) [
    | inl none_left ↦ rw (space, none_left) (rw (sym (drop_back-is_empty s)) (rw none_left refl))
    | inr some_left ↦
        rw (space, some_left)
          (cons_is_empty c (drop_back s) ∙ (sym some_left ∙ drop_back-is_empty s))
  ]
  | inr other ↦ elim (Bool-cases (is_empty (drop_back s))) [
    | inl none_left ↦ rw (other, none_left) (cons_is_empty c (drop_back s))
    | inr some_left ↦ rw (other, some_left) (cons_is_empty c (drop_back s))
  ]
]

-- What is left of a text without its outer white space is empty exactly if the text is all white space.
pub stripped-is_empty : (s : String) → is_empty (stripped s) ≡ not (has_text s)
unfolding stripped
stripped-is_empty s = rw (drop_back-is_empty (drop_front s), drop_front-has_text s) refl
