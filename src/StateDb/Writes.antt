-- ===== src/StateDb/Writes.antt =====
-- src/hca/state.py: the writes to the table `runs` and its two uniqueness constraints.
use hermes_concurrent_agents.Common.{
  ℕ, ◌≤◌, String, ◌≡◌, refl, sym, subst, ◌∙◌, inl, inr, Bool, true, false, not, ◌&&◌, Option, none,
  some, List, [], ◌∷◌, ◌++◌, arith, eq_iff, nat_eq, string_eq, is_empty, or_else, Bool-cases,
  and_true, length, filter, any, find?,
}
use hermes_concurrent_agents.Common.Json.{Fields}
use hermes_concurrent_agents.StateDb.{
  RunRecord, StateDb, is_run, holds_slot, update_runs, excluded, slot_taken, upsert_run, marked,
  mark_run_status, active, set_activity,
}
use hermes_concurrent_agents.StateDb.Slots.{
  IsSlotted, length-filter-append, length-filter_none, length-filter-update, update_runs-found,
  other_holder, write-IsSlotted,
}

any_apart :
    (p q : RunRecord → Bool) (rs : List RunRecord)
    → any (λ r. p r && not (q r)) rs ≡ false
    → any q rs ≡ false
    → any p rs ≡ false
any_apart p q [] h k = refl
any_apart p q (x ∷ rs) h k = ground (arith, any_apart p q rs)

length-filter-append_le :
    (p : RunRecord → Bool) (rs : List RunRecord) (r : RunRecord)
    → (p r ≡ true → any p rs ≡ false)
    → length (filter p rs) ≤ 1
    → length (filter p (rs ++ r ∷ [])) ≤ 1
length-filter-append_le p rs r absent one = elim (Bool-cases (p r)) [
  | inl hit ↦
      rw (length-filter-append p rs r, hit, length-filter_none p rs (absent hit)) (omega arith)
  | inr miss ↦ rw (length-filter-append p rs r, miss) (omega arith)
]

insert-IsSlotted :
    (db : StateDb) (rec : RunRecord)
    → slot_taken rec db.runs ≡ false
    → any (is_run rec.board rec.run_id) db.runs ≡ false
    → IsSlotted db
    → IsSlotted (record db { runs = db.runs ++ rec ∷ [] })
insert-IsSlotted db rec free fresh old = (
  λ s.
      length-filter-append_le (holds_slot s) db.runs rec
        (λ here.
          any_apart (holds_slot s) (is_run rec.board rec.run_id) db.runs
            (other_holder rec s db.runs ((eq_iff rec.slot s).0 (and_true here).1) free
              (and_true here).0)
            fresh)
        (old.0 s),
  λ b i.
      length-filter-append_le (is_run b i) db.runs rec
        (λ key.
          subst (λ j. any (is_run b j) db.runs ≡ false) ((eq_iff rec.run_id i).0 (and_true key).1)
            (subst (λ c. any (is_run c rec.run_id) db.runs ≡ false)
              ((eq_iff rec.board b).0 (and_true key).0) fresh))
        (old.1 b i),
)

pub upsert_run-IsSlotted :
    (db : StateDb) (rec : RunRecord) (db' : StateDb)
    → upsert_run db rec ≡ some db'
    → IsSlotted db
    → IsSlotted db'
unfolding upsert_run
upsert_run-IsSlotted db rec db' h old = elim (Bool-cases (slot_taken rec db.runs)) [
  | inl taken ↦ ground (arith, taken)
  | inr free ↦ elim (Bool-cases (any (is_run rec.board rec.run_id) db.runs)) [
    | inl present ↦
        let written : record db {
          runs = update_runs (is_run rec.board rec.run_id) (excluded rec) db.runs;
        }
            ≡ db' =
          ground (arith, free, present) in
        subst IsSlotted written (
          write-IsSlotted db rec (excluded rec) (λ s r. refl)
            (λ b i r q. ground (arith, q, eq_iff r.board rec.board, eq_iff r.run_id rec.run_id))
            free old)
    | inr fresh ↦
        let added : record db { runs = db.runs ++ rec ∷ [] } ≡ db' = ground (arith, free, fresh) in
        subst IsSlotted added (insert-IsSlotted db rec free fresh old)
  ]
]

find?-run :
    (board run_id : String) (rs : List RunRecord) (r : RunRecord)
    → find? (is_run board run_id) rs ≡ some r
    → (r.board ≡ board) × (r.run_id ≡ run_id)
find?-run board run_id [] r h = cc
find?-run board run_id (x ∷ rs) r h = elim (Bool-cases (is_run board run_id x)) [
  | inl hit ↦ ground (arith, hit, eq_iff x.board board, eq_iff x.run_id run_id)
  | inr miss ↦ find?-run board run_id rs r (ground (arith, miss))
]

-- An update that keeps the key of the row which it writes.
mark_write :
    (db : StateDb) (board run_id : String) (r : RunRecord) (f : RunRecord → RunRecord)
    → (f r).board ≡ r.board
    → (f r).run_id ≡ r.run_id
    → find? (is_run board run_id) db.runs ≡ some r
    → slot_taken (f r) db.runs ≡ false
    → IsSlotted db
    → IsSlotted (record db { runs = update_runs (is_run board run_id) f db.runs })
mark_write db board run_id r f same_board same_run found free old =
    let key = find?-run board run_id db.runs r found in
    subst (λ us. IsSlotted (record db { runs = us }))
      (sym (update_runs-found (is_run board run_id) f db.runs r (old.1 board run_id) found))
      (subst
        (λ b. IsSlotted (record db { runs = update_runs (is_run b run_id) (λ _. f r) db.runs }))
        (same_board ∙ key.0)
        (subst
          (λ i.
            IsSlotted (record db { runs = update_runs (is_run (f r).board i) (λ _. f r) db.runs }))
          (same_run ∙ key.1)
          (write-IsSlotted db (f r) (λ _. f r) (λ s x. refl)
            (λ b i x q. ground (arith, q, eq_iff x.board (f r).board, eq_iff x.run_id (f r).run_id))
            free old)))

pub mark_run_status-IsSlotted :
    (db : StateDb) (board run_id status error : String) (now : ℕ) (db' : StateDb)
    → mark_run_status db board run_id status error now ≡ some db'
    → IsSlotted db
    → IsSlotted db'
unfolding mark_run_status
mark_run_status-IsSlotted db board run_id status error now db' h old =
    go (find? (is_run board run_id) db.runs) refl
  where
    go : (o : Option RunRecord) → find? (is_run board run_id) db.runs ≡ o → IsSlotted db'
    go none e = let same : db ≡ db' = ground (arith, e) in subst IsSlotted same old
    go (some r) e = elim (Bool-cases (slot_taken (marked status error now r) db.runs)) [
      | inl taken ↦ ground (arith, e, taken)
      | inr free ↦
          let written : record db {
            runs = update_runs (is_run board run_id) (marked status error now) db.runs;
          }
              ≡ db' =
            ground (arith, e, free) in
          subst IsSlotted written
            (mark_write db board run_id r (marked status error now) refl refl e free old)
    ]

pub set_activity-IsSlotted :
    (db : StateDb) (kind message board task_id run_id slot host : String) (payload : Fields)
    (ts : ℕ)
    → IsSlotted db
    → IsSlotted (set_activity db kind message board task_id run_id slot host payload ts)
unfolding set_activity
set_activity-IsSlotted db kind message board task_id run_id slot host payload ts old =
    elim (Bool-cases (not (is_empty run_id) && not (is_empty board))) [
      | inr off ↦ rw off old
      | inl on ↦ rw on (
        λ s.
            rw
              (length-filter-update (holds_slot s) (is_run board run_id)
                (active (or_else message kind) ts) db.runs (λ r q. refl))
              (old.0 s),
        λ b i.
            rw
              (length-filter-update (is_run b i) (is_run board run_id)
                (active (or_else message kind) ts) db.runs (λ r q. refl))
              (old.1 b i),
      )
    ]
