-- ===== src/StateDb/Slots.antt =====
-- src/hca/state.py: the uniqueness constraints of the table `runs`.
use hermes_concurrent_agents.Common.{
  ◌+◌, ◌≤◌, String, ◌≡◌, refl, ap, subst, ◌∙◌, inl, inr, Bool, true, false, not, ◌&&◌, some, List,
  [], ◌∷◌, ◌++◌, arith, eq_iff, if◌then◌else◌, nat_eq, string_eq, Bool-cases, and_true, length,
  filter, any, find?,
}
use hermes_concurrent_agents.StateDb.{
  RunRecord, StateDb, is_run, is_live, holds_slot, update_runs, slot_taken,
}

-- The live rows that hold a slot.
abbrev pub holders : String → List RunRecord → List RunRecord
holders slot rs = filter (holds_slot slot) rs

abbrev pub rows_of : String → String → List RunRecord → List RunRecord
rows_of board run_id rs = filter (is_run board run_id) rs

-- The two uniqueness constraints of the table.
abbrev pub IsSlotted : StateDb → Type 0
IsSlotted db =
    ((slot : String) → length (holders slot db.runs) ≤ 1)
    × ((board run_id : String) → length (rows_of board run_id db.runs) ≤ 1)

pub length-filter-append :
    (p : RunRecord → Bool) (rs : List RunRecord) (r : RunRecord)
    → length (filter p (rs ++ r ∷ [])) ≡ length (filter p rs) + (if p r then 1 else 0)
length-filter-append p [] r = ground arith
length-filter-append p (x ∷ rs) r = ground (arith, length-filter-append p rs r)

pub length-filter_none :
    (p : RunRecord → Bool) (rs : List RunRecord) → any p rs ≡ false → length (filter p rs) ≡ 0
length-filter_none p [] h = refl
length-filter_none p (x ∷ rs) h = ground (arith, length-filter_none p rs)

-- A test that an update cannot change counts the same rows after it.
pub length-filter-update :
    (p q : RunRecord → Bool) (f : RunRecord → RunRecord) (rs : List RunRecord)
    → ((r : RunRecord) → q r ≡ true → p (f r) ≡ p r)
    → length (filter p (update_runs q f rs)) ≡ length (filter p rs)
unfolding update_runs
length-filter-update p q f [] same = refl
length-filter-update p q f (x ∷ rs) same = elim (Bool-cases (q x)) [
  | inl hit ↦ rw hit (ground (arith, same x hit, length-filter-update p q f rs same))
  | inr miss ↦ rw miss (ground (arith, length-filter-update p q f rs same))
]

-- Where the test is false after the update, only rows that are left out count.
length-filter-update_lost :
    (p q : RunRecord → Bool) (f : RunRecord → RunRecord) (rs : List RunRecord)
    → ((r : RunRecord) → q r ≡ true → p (f r) ≡ false)
    → length (filter p (update_runs q f rs)) ≤ length (filter p rs)
unfolding update_runs
length-filter-update_lost p q f [] lost = omega arith
length-filter-update_lost p q f (x ∷ rs) lost = elim (Bool-cases (q x)) [
  | inl hit ↦ rw hit (ground (arith, lost x hit, length-filter-update_lost p q f rs lost))
  | inr miss ↦ rw miss (ground (arith, length-filter-update_lost p q f rs lost))
]

-- Where no other row passes the test, the updated rows alone count.
length-filter-update_gained :
    (p q : RunRecord → Bool) (f : RunRecord → RunRecord) (rs : List RunRecord)
    → any (λ r. p r && not (q r)) rs ≡ false
    → length (filter p (update_runs q f rs)) ≤ length (filter q rs)
unfolding update_runs
length-filter-update_gained p q f [] h = omega arith
length-filter-update_gained p q f (x ∷ rs) h = elim (Bool-cases (q x)) [
  | inl hit ↦ rw hit (ground (arith, hit, length-filter-update_gained p q f rs))
  | inr miss ↦ rw miss (ground (arith, miss, length-filter-update_gained p q f rs))
]

update_runs-unmatched :
    (q : RunRecord → Bool) (f g : RunRecord → RunRecord) (rs : List RunRecord)
    → length (filter q rs) ≡ 0
    → update_runs q f rs ≡ update_runs q g rs
unfolding update_runs
update_runs-unmatched q f g [] h = refl
update_runs-unmatched q f g (x ∷ rs) h = elim (Bool-cases (q x)) [
  | inl hit ↦ ground (arith, hit)
  | inr miss ↦ rw miss (ap (λ us. x ∷ us) (update_runs-unmatched q f g rs (ground (arith, miss))))
]

-- With one row under a key, an update writes what it makes of the row that a lookup finds.
pub update_runs-found :
    (q : RunRecord → Bool) (f : RunRecord → RunRecord) (rs : List RunRecord) (r : RunRecord)
    → length (filter q rs) ≤ 1
    → find? q rs ≡ some r
    → update_runs q f rs ≡ update_runs q (λ _. f r) rs
unfolding update_runs
update_runs-found q f [] r one found = cc
update_runs-found q f (x ∷ rs) r one found = elim (Bool-cases (q x)) [
  | inl hit ↦
      let first_row : x ≡ r = ground (arith, hit) in
      rw (hit, first_row)
        (ap (λ us. f r ∷ us) (update_runs-unmatched q f (λ _. f r) rs (ground (arith, hit))))
  | inr miss ↦
      rw miss (
        ap (λ us. x ∷ us)
          (update_runs-found q f rs r (ground (arith, miss)) (ground (arith, miss))))
]

-- Whether another row holds the slot of the new one, for a slot named on its own.
pub other_holder :
    (rec : RunRecord) (slot : String) (rs : List RunRecord)
    → rec.slot ≡ slot
    → slot_taken rec rs ≡ false
    → is_live rec ≡ true
    → any (λ r. holds_slot slot r && not (is_run rec.board rec.run_id r)) rs ≡ false
other_holder rec slot rs same free live =
    subst (λ s. any (λ r. holds_slot s r && not (is_run rec.board rec.run_id r)) rs ≡ false) same
      (ground arith)

pub write-IsSlotted :
    (db : StateDb) (rec : RunRecord) (f : RunRecord → RunRecord)
    → ((s : String) (r : RunRecord) → holds_slot s (f r) ≡ holds_slot s rec)
    → ((b i : String) (r : RunRecord)
        → is_run rec.board rec.run_id r ≡ true
        → is_run b i (f r) ≡ is_run b i r)
    → slot_taken rec db.runs ≡ false
    → IsSlotted db
    → IsSlotted (record db { runs = update_runs (is_run rec.board rec.run_id) f db.runs })
write-IsSlotted db rec f holds keeps free old = (slots, keys)
  where
    keys :
        (b i : String)
        → length (rows_of b i (update_runs (is_run rec.board rec.run_id) f db.runs)) ≤ 1
    keys b i =
        rw
          (length-filter-update (is_run b i) (is_run rec.board rec.run_id) f db.runs
            (λ r q. keeps b i r q))
          (old.1 b i)

    slots :
        (s : String) → length (holders s (update_runs (is_run rec.board rec.run_id) f db.runs)) ≤ 1
    slots s = elim (Bool-cases (holds_slot s rec)) [
      | inr away ↦ omega (
        arith,
        length-filter-update_lost (holds_slot s) (is_run rec.board rec.run_id) f db.runs
            (λ r q. holds s r ∙ away),
        old.0 s,
      )
      | inl here ↦ omega (
        arith,
        length-filter-update_gained (holds_slot s) (is_run rec.board rec.run_id) f db.runs (
            other_holder rec s db.runs ((eq_iff rec.slot s).0 (and_true here).1) free
              (and_true here).0),
        old.1 rec.board rec.run_id,
      )
    ]
