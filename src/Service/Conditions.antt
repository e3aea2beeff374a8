-- ===== src/Service/Conditions.antt =====
-- src/hca/service.py: the checks on a submission, and the conditions that they stand for.
use hermes_concurrent_agents.Common.{
  ℕ, ◌≤◌, String, ◌≡◌, refl, sym, ap, subst, ◌∙◌, ◌≢◌, ◌↔◌, ◌⊎◌, inl, inr, true, false, Option,
  none, some, List, [], ◌∷◌, arith, if◌then◌else◌, nat_eq, string_eq, Bool-cases, is_empty, length,
  contains, eq_iff, ◌==◌, All-of_filter-nil, filter-nil_of_All, filter, All,
}
use hermes_concurrent_agents.Common.Tables.{order_desc}
use hermes_concurrent_agents.Run.Spec.{RunBudgets}
use hermes_concurrent_agents.Run.Store.{Store, RunProjection, find_by_idempotency_key}
use hermes_concurrent_agents.Run.Store.Specs.{Newest, find_by_key}
use hermes_concurrent_agents.Team.{TeamSpec, select_team, load_team, with_policy}
use hermes_concurrent_agents.Service.Submit.{
  Site, RunRequest, BudgetEntry, stripped, concurrency_limit, budget_names, unknown_keys,
}
use hermes_concurrent_agents.Service.Admitted.{Fresh, Passed}
use hermes_concurrent_agents.Service.Texts.{has_text, stripped-is_empty}
use hermes_concurrent_agents.Service.Budgets.{
  IsNumber, asked, asked_budgets, parsed_budgets-numbers, parsed_budgets-only,
}

-- One worker, or no more than the team, the run's budget and the configuration admit.
abbrev pub WithinLimits : Site → RunRequest → TeamSpec → Type 0
WithinLimits site q team =
    (q.concurrency ≡ 1)
    ⊎ ((q.concurrency ≤ team.max_workers)
        × (q.concurrency ≤ asked "max_workers" 4 q.budgets)
        × (q.concurrency ≤ site.config.max_wave_size))

-- The conditions on the arguments of a submission.
pub record Sound (site : Site) (q : RunRequest) : Type 0 where
  pub some_workers : 1 ≤ q.concurrency
  pub policy : (q.input_policy ≡ "allow") ⊎ (q.input_policy ≡ "fail_closed")
  pub known : All (λ b. contains b.key budget_names ≡ true) q.budgets
  pub numbers : All (λ b. IsNumber b.value) q.budgets
  pub team_found :
      (t : TeamSpec) × (site.templates (if is_empty q.team then "default" else q.team) ≡ some t)
      × WithinLimits site q t

-- The conditions on the request and on the runs of the store.
pub record New (site : Site) (q : RunRequest) (s : Store) : Type 0 where
  pub not_resumed : q.resume ≡ ""
  pub single : site.config.role ≡ "single"
  pub goal_given : has_text q.goal ≡ true
  pub criteria : (q.independent_criteria ≡ true) → 2 ≤ length q.acceptance_criteria
  pub not_replayed :
      (q.idempotency_key ≡ "") ⊎ All (λ x. (x.idempotency_key == q.idempotency_key) ≡ false) s.runs

-- No run is found by a key exactly if none has it.
unknown_key :
    (s : Store) (key : String)
    → ((key ≡ "") ⊎ (find_by_idempotency_key s key ≡ none))
      ↔ ((key ≡ "") ⊎ All (λ x. (x.idempotency_key == key) ≡ false) s.runs)
unknown_key s key = (into, back)
  where
    newest :
        (o : Option RunProjection)
        → o ≡ none
        → Newest (filter (λ x. x.idempotency_key == key) s.runs) o
        → filter (λ x. x.idempotency_key == key) s.runs ≡ []
    newest none e n = n
    newest (some p) e n = cc e

    into :
        (key ≡ "") ⊎ (find_by_idempotency_key s key ≡ none)
        → (key ≡ "") ⊎ All (λ x. (x.idempotency_key == key) ≡ false) s.runs
    into (inl e) = inl e
    into (inr e) = elim (Bool-cases (is_empty key)) [
      | inl given ↦ inl ((eq_iff key "").0 given)
      | inr given ↦
          let (from, keyed, newer) = (find_by_key s key).1 (λ h. cc (given, (eq_iff key "").1 h)) in
          inr (
            All-of_filter-nil (λ x. x.idempotency_key == key) s.runs
              (newest (find_by_idempotency_key s key) e newer))
    ]

    back :
        (key ≡ "") ⊎ All (λ x. (x.idempotency_key == key) ≡ false) s.runs
        → (key ≡ "") ⊎ (find_by_idempotency_key s key ≡ none)
    back (inl e) = inl e
    back (inr h) = inr (
        unfold find_by_idempotency_key in
        unfold order_desc in
        elim (Bool-cases (is_empty key)) [
          | inl given ↦ rw given refl
          | inr given ↦ rw (given, filter-nil_of_All (λ x. x.idempotency_key == key) s.runs h) refl
        ])

-- A goal has a text exactly if something is left of it without its white space.
goal_text : (goal : String) → (stripped goal ≢ "") ↔ (has_text goal ≡ true)
goal_text goal = (
  λ n. elim (Bool-cases (has_text goal)) [
    | inl e ↦ e
    | inr e ↦ absurd (n ((eq_iff (stripped goal) "").0 (rw (stripped-is_empty goal) (rw e refl))))
  ],
  λ e h. cc (stripped-is_empty goal, e, (eq_iff (stripped goal) "").1 h),
)

pub Fresh-New : (site : Site) (q : RunRequest) (s : Store) → Fresh site q s ↔ New site q s
Fresh-New site q s = (
  λ f. record {
    not_resumed = f.not_resumed;
    single = f.single;
    goal_given = (goal_text q.goal).0 f.goal_given;
    criteria = f.criteria;
    not_replayed = (unknown_key s q.idempotency_key).0 f.not_replayed;
  },
  λ n. record {
    not_resumed = n.not_resumed;
    single = n.single;
    goal_given = (goal_text q.goal).1 n.goal_given;
    criteria = n.criteria;
    not_replayed = (unknown_key s q.idempotency_key).1 n.not_replayed;
  },
)

known_of_none :
    (bs : List BudgetEntry) (site : Site)
    → unknown_keys site bs ≡ []
    → All (λ b. contains b.key budget_names ≡ true) bs
known_of_none [] site h = tt
known_of_none (b ∷ bs) site h = elim (Bool-cases (contains b.key budget_names)) [
  | inl known ↦ (known, known_of_none bs site (rw known at h))
  | inr unknown ↦ cc (rw unknown at h)
]

none_of_known :
    (bs : List BudgetEntry) (site : Site)
    → All (λ b. contains b.key budget_names ≡ true) bs
    → unknown_keys site bs ≡ []
none_of_known [] site h = refl
none_of_known (b ∷ bs) site h = rw h.0 (none_of_known bs site h.1)

abbrev workers_of : Option TeamSpec → ℕ
workers_of none = 0
workers_of (some t) = t.max_workers

abbrev template : Site → String → Option TeamSpec
template site name = site.templates (if is_empty name then "default" else name)

with_policy-workers :
    (site : Site) (policy : String) (o : Option TeamSpec)
    → workers_of (with_policy site.templates policy o) ≡ workers_of o
with_policy-workers site policy none = refl
with_policy-workers site policy (some t) =
    elim (Bool-cases (contains policy ("auto" ∷ "always" ∷ "never" ∷ []))) [
      | inl known ↦ rw known refl
      | inr other ↦ rw other refl
    ]

with_policy-some :
    (site : Site) (policy : String) (t : TeamSpec)
    → (team : TeamSpec) × (with_policy site.templates policy (some t) ≡ some team)
with_policy-some site policy t =
    elim (Bool-cases (contains policy ("auto" ∷ "always" ∷ "never" ∷ []))) [
      | inl known ↦ (record t { review_policy = policy }, rw known refl)
      | inr other ↦ (t, rw other refl)
    ]

-- A selected team is a template, with another policy perhaps.
selected-template :
    (site : Site) (name policy : String) (team : TeamSpec)
    → select_team site.templates name policy ≡ some team
    → (t : TeamSpec) × (template site name ≡ some t) × (team.max_workers ≡ t.max_workers)
unfolding select_team load_team
selected-template site name policy team h = go (template site name) refl
  where
    go :
        (o : Option TeamSpec)
        → template site name ≡ o
        → (t : TeamSpec) × (template site name ≡ some t) × (team.max_workers ≡ t.max_workers)
    go none e = cc (rw e at h)
    go (some t) e = (
      t,
      e,
      sym (ap workers_of h)
          ∙ with_policy-workers site policy (template site name)
          ∙ ap workers_of e,
    )

template-selected :
    (site : Site) (name policy : String) (t : TeamSpec)
    → template site name ≡ some t
    → (team : TeamSpec) × (select_team site.templates name policy ≡ some team)
      × (team.max_workers ≡ t.max_workers)
unfolding select_team load_team
template-selected site name policy t e =
    let (team, made) = with_policy-some site policy t in
    (
      team,
      ap (with_policy site.templates policy) e ∙ made,
      sym (ap workers_of made) ∙ with_policy-workers site policy (some t),
    )

limit-within :
    (site : Site) (q : RunRequest) (team t : TeamSpec)
    → team.max_workers ≡ t.max_workers
    → 1 ≤ q.concurrency
    → (q.concurrency ≤ concurrency_limit site.config team (asked_budgets q.budgets))
      ↔ WithinLimits site q t
unfolding concurrency_limit
limit-within site q team t e h = (λ k. ground (arith, e, h, k), λ k. ground (arith, e, h, k))

pub Passed-Sound :
    (site : Site) (q : RunRequest) (team : TeamSpec) (budgets : RunBudgets)
    → Passed site q team budgets
    → Sound site q
Passed-Sound site q team budgets good =
    let numbers = parsed_budgets-only q.budgets budgets good.parsed in
    let (t, found, same) = selected-template site q.team q.review_policy team good.selected in
    let b : budgets ≡ asked_budgets q.budgets =
      ap (λ o. elim o [ none ↦ budgets | some x ↦ x ])
        (sym good.parsed ∙ parsed_budgets-numbers q.budgets numbers) in
    record {
      some_workers = good.some_workers;
      policy = good.policy;
      known = known_of_none q.budgets site good.known;
      numbers = numbers;
      team_found = (
        t,
        found,
        (limit-within site q team t same good.some_workers).0
            (subst (λ x. q.concurrency ≤ concurrency_limit site.config team x) b good.few_workers),
      );
    }

pub Sound-Passed :
    (site : Site) (q : RunRequest)
    → Sound site q
    → (team : TeamSpec) × Passed site q team (asked_budgets q.budgets)
Sound-Passed site q good =
    let (t, found, fits) = good.team_found in
    let (team, selected, same) = template-selected site q.team q.review_policy t found in
    (
      team,
      record {
        some_workers = good.some_workers;
        policy = good.policy;
        known = none_of_known q.budgets site good.known;
        parsed = parsed_budgets-numbers q.budgets good.numbers;
        selected = selected;
        few_workers = (limit-within site q team t same good.some_workers).1 fits;
      },
    )
