-- ===== src/Common/Words.antt =====
-- Python's `str.lower` and `str.strip` on the code points of a text, as far as a comparison with an
-- ASCII word can tell.
use hermes_concurrent_agents.Common.{
  ℕ, ◌+◌, String, ◌≡◌, refl, ◌↔◌, Bool, true, false, ◌&&◌, ◌||◌, List, [], ◌∷◌, map, arith, leb,
  eqb, if◌then◌else◌, Eq, nat_eq, string_eq, is_nil,
}
use Prim.Native.Char.{code}

abbrev pub codes : String → List ℕ
codes String.[] = []
codes (String.◌∷◌ c s) = code c ∷ codes s

-- Besides A to Z, only the Kelvin sign has an ASCII letter alone for its lower case.
unfoldable pub lower_code : ℕ → ℕ
lower_code c = if leb b'A' c && leb c b'Z' then c + 32 else if eqb c 0x212A then b'k' else c

unfoldable pub lower : List ℕ → List ℕ
unfolding lower_code
lower cs = map lower_code cs

-- The white space of `str.strip`.
unfoldable pub is_space : ℕ → Bool
is_space c =
    leb 9 c && leb c 13
    || leb 28 c && leb c 32
    || eqb c 0x85
    || eqb c 0xA0
    || eqb c 0x1680
    || leb 0x2000 c && leb c 0x200A
    || eqb c 0x2028
    || eqb c 0x2029
    || eqb c 0x202F
    || eqb c 0x205F
    || eqb c 0x3000

drop_spaces : List ℕ → List ℕ
drop_spaces [] = []
drop_spaces (c ∷ cs) = if is_space c then drop_spaces cs else c ∷ cs

-- A text of nothing but white space has no end to keep.
trim_end : List ℕ → List ℕ
trim_end [] = []
trim_end (c ∷ cs) = let rest = trim_end cs in if is_nil rest && is_space c then [] else c ∷ rest

unfoldable pub strip : List ℕ → List ℕ
unfolding drop_spaces trim_end is_space
strip cs = trim_end (drop_spaces cs)

unfoldable pub same_codes : List ℕ → List ℕ → Bool
same_codes [] [] = true
same_codes (a ∷ as') (b ∷ bs) = eqb a b && same_codes as' bs
same_codes _ _ = false

pub same_codes_iff : (as' bs : List ℕ) → (same_codes as' bs ≡ true) ↔ (as' ≡ bs)
unfolding same_codes
same_codes_iff [] [] = (λ _. refl, λ _. refl)
same_codes_iff [] (b ∷ bs) = (λ h. cc, λ h. cc)
same_codes_iff (a ∷ as') [] = (λ h. cc, λ h. cc)
same_codes_iff (a ∷ as') (b ∷ bs) =
    (λ h. ground (arith, same_codes_iff as' bs), λ h. ground (arith, same_codes_iff as' bs))

instance abbrev pub codes_eq : Eq (List ℕ)
codes_eq = record { same = same_codes; same_iff = same_codes_iff }

strip-lower_hint : lower (strip (codes "  QA\n")) ≡ codes "qa"
unfolding lower strip
strip-lower_hint = refl
