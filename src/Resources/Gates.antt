-- ===== src/Resources/Gates.antt =====
-- src/hca/resources.py: the hysteresis of the memory gate.
use hermes_concurrent_agents.Common.{
  ℕ, ◌≤◌, ◌<◌, String, ◌≡◌, refl, ◌∙◌, ◌≢◌, ◌↔◌, inl, inr, true, not, Option, none, some, List, [],
  ◌∷◌, ◌++◌, arith, eq_iff, ◌==◌, nat_eq, string_eq, Bool-cases, filter, All,
}
use hermes_concurrent_agents.StateDb.{Setting, StateDb, setting, get_meta, set_meta}
use hermes_concurrent_agents.Resources.{mem_key, is_closed, mem_gate}

setting-append_absent :
    (k : String) (ss ts : List Setting)
    → setting k (filter (λ s. not (s.key == k)) ss ++ ts) ≡ setting k ts
unfolding setting
setting-append_absent k [] ts = refl
setting-append_absent k (s ∷ ss) ts = ground (arith, setting-append_absent k ss ts)

setting-singleton : (k v : String) → setting k (record { key = k; value_text = v } ∷ []) ≡ some v
unfolding setting
setting-singleton k v = rw ((eq_iff k k).1 refl) refl

pub get_meta-set_meta :
    (db : StateDb) (key v default : String) → get_meta (set_meta db key v) key default ≡ v
unfolding get_meta set_meta
get_meta-set_meta db key v default =
    rw
      (
        setting-append_absent key db.meta (record { key = key; value_text = v } ∷ [])
            ∙ setting-singleton key v,
        get_meta,
      )
      refl

closed_by : (db : StateDb) (key : String) → is_closed (set_meta db key "1") key ≡ true
unfolding is_closed
closed_by db key = rw (get_meta-set_meta db key "1" "0") refl

-- A reading that proves no recovery.
abbrev pub NotLow : ℕ → Option ℕ → Type 0
NotLow low none = Unit
NotLow low (some p) = low < p

abbrev pub feed : ℕ → ℕ → StateDb → List (Option ℕ) → StateDb
feed high low db [] = db
feed high low db (r ∷ rs) = feed high low (mem_gate db r high low).1 rs

mem_gate-closed :
    (db : StateDb) (high low : ℕ) (r : Option ℕ)
    → is_closed db mem_key ≡ true
    → NotLow low r
    → ((mem_gate db r high low).0 ≢ none) × ((mem_gate db r high low).1 ≡ db)
unfolding mem_gate
mem_gate-closed db high low none h a = rw h (λ e. cc, refl)
mem_gate-closed db high low (some p) h a = rw h (ground arith)

mem_gate-high :
    (db : StateDb) (high low p : ℕ)
    → high ≤ p
    → low < high
    → is_closed (mem_gate db (some p) high low).1 mem_key ≡ true
unfolding mem_gate
mem_gate-high db high low p a b = elim (Bool-cases (is_closed db mem_key)) [
  | inl h ↦ ground (arith, h)
  | inr h ↦ ground (arith, h, closed_by db mem_key)
]

feed-closed :
    (high low : ℕ) (db : StateDb) (rs : List (Option ℕ))
    → is_closed db mem_key ≡ true
    → All (NotLow low) rs
    → is_closed (feed high low db rs) mem_key ≡ true
feed-closed high low db [] h a = h
feed-closed high low db (r ∷ rs) h a =
    rw (mem_gate-closed db high low r h a.0).1 (feed-closed high low db rs h a.1)

passes_iff :
    (db : StateDb) (high low : ℕ) (r : Option ℕ)
    → is_closed db mem_key ≡ true
    → ((mem_gate db r high low).0 ≡ none) ↔ ((p : ℕ) × ((r ≡ some p) × (p ≤ low)))
passes_iff db high low none h =
    (λ e. ground (arith, (mem_gate-closed db high low none h tt).0 e), λ x. cc)
passes_iff db high low (some p) h =
    unfold mem_gate in rw h ((λ e. (p, (refl, ground arith))), λ x. ground arith)

-- Once a reading of the memory reaches the high mark, and as long as no later reading is at or below
-- the low mark, an unknown one included, the gate lets a launch pass exactly if the next reading is
-- known and at or below the low mark.
pub closed_until_low :
    (db : StateDb) (high low p : ℕ) (rs : List (Option ℕ)) (next : Option ℕ)
    → low < high
    → high ≤ p
    → All (NotLow low) rs
    → ((mem_gate (feed high low db (some p ∷ rs)) next high low).0 ≡ none)
      ↔ ((q : ℕ) × ((next ≡ some q) × (q ≤ low)))
closed_until_low db high low p rs next a b h =
    passes_iff (feed high low db (some p ∷ rs)) high low next (
      feed-closed high low (mem_gate db (some p) high low).1 rs (mem_gate-high db high low p b a) h)
