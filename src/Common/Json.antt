-- ===== src/Common/Json.antt =====
-- The values that `json.dumps` writes and `json.loads` reads back, and typed reads of a dictionary.
-- Numbers are natural: the program writes counts, versions and times.
use hermes_concurrent_agents.Common.{
  ℕ, String, ◌≡◌, refl, Bool, Option, none, some, List, [], ◌∷◌, if◌then◌else◌, ◌==◌, nat_eq,
  string_eq,
}

mutual
  pub data Value : Type 0 where
    null : Value
    bool : Bool → Value
    num : ℕ → Value
    text : String → Value
    obj : Fields → Value
    arr : Items → Value

  pub data Fields : Type 0 where
    end : Fields
    field : String → Value → Fields → Fields

  pub data Items : Type 0 where
    nil : Items
    cons : Value → Items → Items

-- `d.get(key)`.
abbrev pub get : String → Fields → Option Value
get k end = none
get k (field j v fs) = if j == k then some v else get k fs

abbrev pub texts_value : List String → Items
texts_value [] = nil
texts_value (s ∷ ss) = cons (text s) (texts_value ss)

infixl 5 ◌>>=◌
abbrev pub ◌>>=◌ {ℓ κ} : {A : Type ℓ} {B : Type κ} → Option A → (A → Option B) → Option B
none >>= f = none
some a >>= f = f a

-- A read of a value that has another type than the program writes is `none`.
abbrev pub as_text : Value → Option String
as_text (text s) = some s
as_text _ = none

abbrev pub as_num : Value → Option ℕ
as_num (num n) = some n
as_num _ = none

abbrev pub as_bool : Value → Option Bool
as_bool (bool b) = some b
as_bool _ = none

pub items_texts : Items → Option (List String)
items_texts nil = some []
items_texts (cons v vs) = do s ← as_text v; ss ← items_texts vs; some (s ∷ ss)

-- `tuple(v or ())`.
abbrev pub as_texts : Value → Option (List String)
as_texts null = some []
as_texts (arr vs) = items_texts vs
as_texts _ = none

abbrev pub read_or {ℓ} : {A : Type ℓ} → (Value → Option A) → A → Option Value → Option A
read_or read default none = some default
read_or read default (some v) = read v

-- `d.get(key, default)`, and `d[key]`.
abbrev pub get_or {ℓ} : {A : Type ℓ} → (Value → Option A) → String → A → Fields → Option A
get_or read k default d = read_or read default (get k d)

abbrev pub need {ℓ} : {A : Type ℓ} → (Value → Option A) → String → Fields → Option A
need read k d = get k d >>= read

pub items_texts-texts_value : (ss : List String) → items_texts (texts_value ss) ≡ some ss
unfolding items_texts
items_texts-texts_value [] = refl
items_texts-texts_value (s ∷ ss) = rw (items_texts-texts_value ss)
