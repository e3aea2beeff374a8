-- ===== src/Service/Admitted.antt =====
-- src/hca/service.py: which submissions to `run` pass its checks.
use hermes_concurrent_agents.Common.{
  ◌≤◌, String, ◌≡◌, refl, ap, ◌∙◌, ◌≢◌, ◌↔◌, ◌⊎◌, inl, inr, true, false, not, ◌&&◌, Option, none,
  some, List, [], ◌∷◌, arith, eq_iff, ltb, if◌then◌else◌, ◌==◌, nat_eq, string_eq, Bool-cases,
  is_empty, length, contains,
}
use hermes_concurrent_agents.Run.Spec.{RunBudgets}
use hermes_concurrent_agents.Run.Store.{Store, RunProjection, get_run, find_by_idempotency_key}
use hermes_concurrent_agents.Team.{TeamSpec, select_team}
use hermes_concurrent_agents.Service.Submit.{
  Site, RunRequest, Admission, admitted, admission, checked, stripped, replay_or, concurrency_limit,
  within_limit, with_budgets, parsed_budgets, unknown_keys, resumed,
}
use hermes_concurrent_agents.Service.Gates.{admitted_inj, refused_apart, replayed_apart, gates-into}

module _ (site : Site) where
  -- What the checks on the arguments alone come to.
  pub record Passed (q : RunRequest) (team : TeamSpec) (budgets : RunBudgets) : Type 0 where
    pub some_workers : 1 ≤ q.concurrency
    pub policy : (q.input_policy ≡ "allow") ⊎ (q.input_policy ≡ "fail_closed")
    pub known : unknown_keys site q.budgets ≡ []
    pub parsed : parsed_budgets q.budgets ≡ some budgets
    pub selected : select_team site.templates q.team q.review_policy ≡ some team
    pub few_workers : q.concurrency ≤ concurrency_limit site.config team budgets

  within_limit-into :
      (q : RunRequest) (t team : TeamSpec) (budgets b : RunBudgets)
      → within_limit site q b (some t) ≡ admitted team budgets
      → (b ≡ budgets) × (t ≡ team) × (q.concurrency ≤ concurrency_limit site.config t b)
  unfolding within_limit
  within_limit-into q t team budgets b h =
      elim (Bool-cases (ltb (concurrency_limit site.config t b) q.concurrency)) [
        | inl over ↦ absurd (refused_apart _ team budgets (rw over at h))
        | inr fits ↦
            let (e, f) = admitted_inj t team b budgets (rw fits at h) in
            (f, e, ground (arith, fits))
      ]

  within_limit-back :
      (q : RunRequest) (team : TeamSpec) (budgets : RunBudgets)
      → q.concurrency ≤ concurrency_limit site.config team budgets
      → within_limit site q budgets (some team) ≡ admitted team budgets
  unfolding within_limit
  within_limit-back q team budgets h =
      elim (Bool-cases (ltb (concurrency_limit site.config team budgets) q.concurrency)) [
        | inl over ↦ ground (arith, over)
        | inr fits ↦ rw fits refl
      ]

  with_budgets-into :
      (q : RunRequest) (o : Option RunBudgets) (team : TeamSpec) (budgets : RunBudgets)
      → with_budgets site q o ≡ admitted team budgets
      → (o ≡ some budgets)
        × (select_team site.templates q.team q.review_policy ≡ some team)
        × (q.concurrency ≤ concurrency_limit site.config team budgets)
  unfolding with_budgets
  with_budgets-into q none team budgets h = absurd (refused_apart _ team budgets h)
  with_budgets-into q (some b) team budgets h =
      go (select_team site.templates q.team q.review_policy) refl h
    where
      go :
          (o : Option TeamSpec)
          → select_team site.templates q.team q.review_policy ≡ o
          → within_limit site q b o ≡ admitted team budgets
          → (some b ≡ some budgets)
            × (select_team site.templates q.team q.review_policy ≡ some team)
            × (q.concurrency ≤ concurrency_limit site.config team budgets)
      go none e k = absurd (refused_apart _ team budgets (unfold within_limit in k))
      go (some t) e k =
          let (same, which, fits) = within_limit-into q t team budgets b k in
          (ap some same, e ∙ ap some which, rw (same, which) at fits)

  checked-into :
      (q : RunRequest) (team : TeamSpec) (budgets : RunBudgets)
      → checked site q ≡ admitted team budgets
      → Passed q team budgets
  unfolding checked
  checked-into q team budgets h = elim (Bool-cases (q.concurrency == 0)) [
    | inl idle ↦ absurd (refused_apart _ team budgets (rw idle at h))
    | inr busy ↦ elim (Bool-cases (contains q.input_policy ("allow" ∷ "fail_closed" ∷ []))) [
      | inr other ↦ absurd (refused_apart _ team budgets (rw (busy, other) at h))
      | inl policy ↦ elim (Bool-cases (ltb 0 (length (unknown_keys site q.budgets)))) [
        | inl more ↦ absurd (refused_apart _ team budgets (rw (busy, policy, more) at h))
        | inr known ↦
            let (parsed, selected, fits) =
              with_budgets-into q (parsed_budgets q.budgets) team budgets
                (rw (busy, policy, known) at h) in
            record {
              some_workers = ground (arith, busy);
              policy = known_policy policy;
              known = no_more (unknown_keys site q.budgets) known;
              parsed = parsed;
              selected = selected;
              few_workers = fits;
            }
      ]
    ]
  ]
    where
      known_policy :
          contains q.input_policy ("allow" ∷ "fail_closed" ∷ []) ≡ true
          → (q.input_policy ≡ "allow") ⊎ (q.input_policy ≡ "fail_closed")
      known_policy c =
          ground (arith, c, eq_iff "allow" q.input_policy, eq_iff "fail_closed" q.input_policy)

      no_more : (ks : List String) → ltb 0 (length ks) ≡ false → ks ≡ []
      no_more [] h = refl
      no_more (k ∷ ks) h = ground (arith, h)

  checked-back :
      (q : RunRequest) (team : TeamSpec) (budgets : RunBudgets)
      → Passed q team budgets
      → checked site q ≡ admitted team budgets
  unfolding checked with_budgets
  checked-back q team budgets sound =
      let busy : (q.concurrency == 0) ≡ false = ground (arith, sound.some_workers) in
      let policy : contains q.input_policy ("allow" ∷ "fail_closed" ∷ []) ≡ true =
        ground (
          arith,
          sound.policy,
          eq_iff q.input_policy "allow",
          eq_iff q.input_policy "fail_closed",
        ) in
      rw busy (
        rw policy (
          rw sound.known (
            rw sound.parsed
              (rw sound.selected (within_limit-back q team budgets sound.few_workers)))))

  -- The conditions of a new run on the request and on the store.
  pub record Fresh (q : RunRequest) (s : Store) : Type 0 where
    pub not_resumed : q.resume ≡ ""
    pub single : site.config.role ≡ "single"
    pub goal_given : stripped q.goal ≢ ""
    pub criteria : (q.independent_criteria ≡ true) → 2 ≤ length q.acceptance_criteria
    pub not_replayed :
        (q.idempotency_key ≡ "") ⊎ (find_by_idempotency_key s q.idempotency_key ≡ none)

  admission-back :
      (q : RunRequest) (s : Store) (team : TeamSpec) (budgets : RunBudgets)
      → Fresh q s
      → Passed q team budgets
      → admission site q s ≡ admitted team budgets
  unfolding admission
  admission-back q s team budgets fresh sound =
      let new : is_empty q.resume ≡ true = (eq_iff q.resume "").1 fresh.not_resumed in
      let single : (site.config.role == "single") ≡ true =
        (eq_iff site.config.role "single").1 fresh.single in
      let goal : is_empty (stripped q.goal) ≡ false =
        ground (arith, fresh.goal_given, eq_iff (stripped q.goal) "") in
      let enough : (q.independent_criteria && ltb (length q.acceptance_criteria) 2) ≡ false =
        ground (arith, fresh.criteria) in
      rw new (rw single (rw goal (rw enough (last fresh.not_replayed))))
    where
      last :
          (q.idempotency_key ≡ "") ⊎ (find_by_idempotency_key s q.idempotency_key ≡ none)
          → (if is_empty q.idempotency_key
              then checked site q
              else replay_or site (find_by_idempotency_key s q.idempotency_key) (checked site q))
            ≡ admitted team budgets
      last (inl e) = rw ((eq_iff q.idempotency_key "").1 e) (checked-back q team budgets sound)
      last (inr e) = elim (Bool-cases (is_empty q.idempotency_key)) [
        | inl none_given ↦ rw none_given (checked-back q team budgets sound)
        | inr given ↦ rw given (rw e (checked-back q team budgets sound))
      ]

  replay-into :
      (o : Option RunProjection) (rest : Admission) (team : TeamSpec) (budgets : RunBudgets)
      → replay_or site o rest ≡ admitted team budgets
      → (o ≡ none) × (rest ≡ admitted team budgets)
  replay-into none rest team budgets h = (refl, h)
  replay-into (some p) rest team budgets h = absurd (replayed_apart _ _ team budgets h)

  resumed_apart :
      (r : String) (o : Option RunProjection) (team : TeamSpec) (budgets : RunBudgets)
      → resumed site r o ≢ admitted team budgets
  resumed_apart r none team budgets e = refused_apart _ team budgets e
  resumed_apart r (some p) team budgets e = replayed_apart _ _ team budgets e

  admission-into :
      (q : RunRequest) (s : Store) (team : TeamSpec) (budgets : RunBudgets)
      → admission site q s ≡ admitted team budgets
      → Fresh q s × Passed q team budgets
  unfolding admission
  admission-into q s team budgets h =
      let (local, new, goal, enough, last) =
        gates-into (is_empty q.resume && not (site.config.role == "single"))
          (not (is_empty q.resume)) (is_empty (stripped q.goal))
          (q.independent_criteria && ltb (length q.acceptance_criteria) 2)
          (is_empty q.idempotency_key) _ _ _ (resumed site q.resume (get_run s q.resume))
          (checked site q)
          (replay_or site (find_by_idempotency_key s q.idempotency_key) (checked site q)) team
          budgets (resumed_apart q.resume (get_run s q.resume) team budgets) h in
      let (once, sound) = ended last in
      (
        record {
          not_resumed = ground (arith, new, eq_iff q.resume "");
          single = ground (arith, local, new, eq_iff site.config.role "single");
          goal_given = λ e. ground (arith, goal, eq_iff (stripped q.goal) "", e);
          criteria = λ e. ground (arith, enough, e);
          not_replayed = once;
        },
        checked-into q team budgets sound,
      )
    where
      ended :
          ((is_empty q.idempotency_key ≡ true) × (checked site q ≡ admitted team budgets))
            ⊎ ((is_empty q.idempotency_key ≡ false)
                × (replay_or site (find_by_idempotency_key s q.idempotency_key) (checked site q)
                    ≡ admitted team budgets))
          → ((q.idempotency_key ≡ "") ⊎ (find_by_idempotency_key s q.idempotency_key ≡ none))
            × (checked site q ≡ admitted team budgets)
      ended (inl (empty, good)) = (inl ((eq_iff q.idempotency_key "").0 empty), good)
      ended (inr (given, good)) =
          let (missing, rest) =
            replay-into (find_by_idempotency_key s q.idempotency_key) (checked site q) team budgets
              good in
          (inr missing, rest)

  -- A submission is admitted with a team and budgets exactly if its checks gave them.
  pub admission_iff :
      (q : RunRequest) (s : Store) (team : TeamSpec) (budgets : RunBudgets)
      → (admission site q s ≡ admitted team budgets) ↔ (Fresh q s × Passed q team budgets)
  admission_iff q s team budgets =
      (admission-into q s team budgets, λ h. admission-back q s team budgets h.0 h.1)
