-- ===== src/Evidence/Facts.antt =====
-- src/hca/evidence.py: the facts about tasks that the checks of `derive_final_state` come down to.
use hermes_concurrent_agents.Common.{
  String, ◌≡◌, refl, ◌≢◌, ◌↔◌, ◌⊎◌, inl, inr, true, false, not, ◌&&◌, List, [], ◌∷◌, arith, eq_iff,
  nat_eq, string_eq, is_empty, is_some, Bool-cases, is_nil, filter, any, All, All-map, All-both,
  All-of_filter-nil, contains,
}
use hermes_concurrent_agents.Run.State.{run_state_eq}
use hermes_concurrent_agents.Evidence.{
  TaskEvidence, is_terminal, is_fatal, is_done, wants_input, is_stuck, is_unproven, is_implementer,
  done_work, implementers, judge_review,
}
use hermes_concurrent_agents.Evidence.Stages.{Completes, judge_stage}

-- A task with no more to do: done, put away, or the review gate that HCA holds blocked.
abbrev pub IsSettled : TaskEvidence → Type 0
IsSettled t =
    (t.terminal_status ≡ "done")
    ⊎ (t.terminal_status ≡ "archived")
    ⊎ (t.terminal_status ≡ "blocked") × (t.kind ≡ "gate") × (t.block_kind ≡ "hca_review_gate")

-- A done task that a worker was seen to run, and that left a result of its own.
abbrev pub IsProven : TaskEvidence → Type 0
IsProven t =
    t.is_review ≡ false
    → t.terminal_status ≡ "done"
    → (is_some t.run_id ≡ true) × (is_some t.pid ≡ true) × (t.result ≢ "")

IsSettled-of_checks :
    (t : TaskEvidence)
    → is_fatal t ≡ false
    → wants_input t ≡ false
    → is_stuck t ≡ false
    → not (is_terminal t) ≡ false
    → IsSettled t
IsSettled-of_checks t f i s n = ground (
  arith,
  eq_iff "done" t.terminal_status,
  eq_iff "archived" t.terminal_status,
  eq_iff "blocked" t.terminal_status,
  eq_iff t.terminal_status "blocked",
  eq_iff t.kind "gate",
  eq_iff t.block_kind "hca_review_gate",
)

pub checks_of_settled :
    (t : TaskEvidence)
    → IsSettled t
    → (is_fatal t ≡ false)
      × (wants_input t ≡ false)
      × (is_stuck t ≡ false)
      × (not (is_terminal t) ≡ false)
checks_of_settled t (inl e) = rw e (refl, refl, refl, refl)
checks_of_settled t (inr (inl e)) = rw e (refl, refl, refl, refl)
checks_of_settled t (inr (inr (e, k, b))) = rw (e, k, b) (refl, refl, refl, refl)

pub All-IsSettled :
    (ts : List TaskEvidence)
    → All (λ t. is_fatal t ≡ false) ts
    → All (λ t. wants_input t ≡ false) ts
    → All (λ t. is_stuck t ≡ false) ts
    → All (λ t. not (is_terminal t) ≡ false) ts
    → All IsSettled ts
All-IsSettled [] f i s n = tt
All-IsSettled (t ∷ ts) f i s n =
    (IsSettled-of_checks t f.0 i.0 s.0 n.0, All-IsSettled ts f.1 i.1 s.1 n.1)

-- The checks of one done task of the work.
abbrev pub Checks : TaskEvidence → Type 0
Checks t = (is_unproven t ≡ false) × (is_empty t.result ≡ false)

IsProven-of_Checks :
    (t : TaskEvidence) → (t.is_review ≡ false → is_done t ≡ true → Checks t) ↔ IsProven t
IsProven-of_Checks t = (
  λ h r d.
      let (u, e) = h r ((eq_iff t.terminal_status "done").1 d) in
      ground (arith, eq_iff t.result ""),
  λ h r d.
      let (a, b, c) = h r ((eq_iff t.terminal_status "done").0 d) in
      ground (arith, eq_iff t.result ""),
)

done_work-Checks :
    (ts : List TaskEvidence)
    → All Checks (done_work ts) ↔ All (λ t. t.is_review ≡ false → is_done t ≡ true → Checks t) ts
done_work-Checks [] = (λ _. tt, λ _. tt)
done_work-Checks (t ∷ ts) = elim (Bool-cases t.is_review) [
  | inl reviews ↦
      rw reviews (λ h. (λ r. cc, (done_work-Checks ts).0 h), λ h. (done_work-Checks ts).1 h.1)
  | inr work ↦ elim (Bool-cases (is_done t)) [
    | inl d ↦
        rw (work, d)
          (
            λ h. (λ _ _. h.0, (done_work-Checks ts).0 h.1),
            λ h. (h.0 refl refl, (done_work-Checks ts).1 h.1),
          )
    | inr d ↦
        rw (work, d) (λ h. (λ _ e. cc, (done_work-Checks ts).0 h), λ h. (done_work-Checks ts).1 h.1)
  ]
]

-- The review that a run rests on, where it requires one: the last one that is done, run by a worker,
-- with a result or an artifact, accepting, and by someone who did none of the work.
abbrev pub AcceptedBy : List TaskEvidence → TaskEvidence → Type 0
AcceptedBy tasks r =
    (is_some r.run_id ≡ true)
    × (is_some r.pid ≡ true)
    × ((r.result ≢ "") ⊎ (r.artifacts ≢ []))
    × (r.review_verdict ≡ "accept")
    × (r.reviewed_by ≢ "")
    × All (λ t. t.is_review ≡ false → is_implementer t ≡ true → t.assignee ≢ r.reviewed_by) tasks

implementers_differ :
    (name : String) (ts : List TaskEvidence)
    → (contains name (implementers ts) ≡ false)
      ↔ All (λ t. t.is_review ≡ false → is_implementer t ≡ true → t.assignee ≢ name) ts
implementers_differ name [] = (λ _. tt, λ _. refl)
implementers_differ name (t ∷ ts) = elim (Bool-cases t.is_review) [
  | inl reviews ↦
      rw reviews (
        λ h. (λ r. cc, (implementers_differ name ts).0 h),
        λ h. (implementers_differ name ts).1 h.1,
      )
  | inr work ↦ elim (Bool-cases (is_implementer t)) [
    | inl i ↦
        rw (work, i)
          (
            λ h. ground (arith, eq_iff t.assignee name, implementers_differ name ts),
            λ h. ground (arith, eq_iff t.assignee name, implementers_differ name ts),
          )
    | inr i ↦
        rw (work, i)
          (
            λ h. (λ _ e. cc, (implementers_differ name ts).0 h),
            λ h. (implementers_differ name ts).1 h.1,
          )
  ]
]

pub some_done_work :
    (ts : List TaskEvidence)
    → (is_nil (done_work ts) ≡ false) ↔ (any (λ t. not t.is_review && is_done t) ts ≡ true)
some_done_work [] = (λ h. cc, λ h. cc)
some_done_work (t ∷ ts) = elim (Bool-cases t.is_review) [
  | inl reviews ↦ rw reviews (some_done_work ts)
  | inr work ↦ elim (Bool-cases (is_done t)) [
    | inl d ↦ rw (work, d) (λ _. refl, λ _. refl)
    | inr d ↦ rw (work, d) (some_done_work ts)
  ]
]

pub judge_iff :
    (ts : List TaskEvidence) (r : TaskEvidence) → Completes (judge_review ts r) ↔ AcceptedBy ts r
judge_iff ts r = (
  λ h.
      let (u, e, v, c, n) = (judge_stage ts r).0 h in
      (
        ground arith,
        ground arith,
        ground (arith, eq_iff r.result ""),
        v,
        ground (arith, eq_iff r.reviewed_by ""),
        (implementers_differ r.reviewed_by ts).0 c,
      ),
  λ h.
      let (x, y, z, v, n, c) = h in
      (judge_stage ts r).1 (
        ground arith,
        ground (arith, eq_iff r.result ""),
        v,
        (implementers_differ r.reviewed_by ts).1 c,
        ground (arith, eq_iff r.reviewed_by ""),
      ),
)

pub executed_of_checks :
    (ts : List TaskEvidence)
    → filter is_unproven (done_work ts) ≡ []
    → filter (λ t. is_empty t.result) (done_work ts) ≡ []
    → All IsProven ts
executed_of_checks ts u e =
    All-map (λ t. (IsProven-of_Checks t).0) ts
      ((done_work-Checks ts).0 (
        All-both (λ t. is_unproven t ≡ false) (λ t. is_empty t.result ≡ false) (done_work ts)
          (All-of_filter-nil is_unproven (done_work ts) u)
          (All-of_filter-nil (λ t. is_empty t.result) (done_work ts) e)))

pub Checks-of_executed : (ts : List TaskEvidence) → All IsProven ts → All Checks (done_work ts)
Checks-of_executed ts h = (done_work-Checks ts).1 (All-map (λ t. (IsProven-of_Checks t).1) ts h)
