-- ===== src/Harness/Recover/Bounded.antt =====
-- How often recovery calls the adapter, and with which strategies.
use mathlib.Core.Path.{subst}
use knolo_agents.Base.{
  eqb, ℕ, zero, suc, ◌+◌, ◌≤◌, ◌≡◌, refl, sym, ap, ◌∙◌, String, Bool, true, false, not, ◌&&◌, ◌||◌,
  Option, none, some, List, [], ◌∷◌, ◌++◌, Result, ok, err, arith, if◌then◌else◌, inl, inr,
  Bool-cases, length, length-append, >>-eq-ok, >>=-eq-ok, Option-cases, Result-cases,
}
use knolo_agents.Harness.Types.{AgentInvocationResult}
use knolo_agents.Recovery.Types.{
  FailureClass, RecoveryStrategy, RecoveryPolicy, includes_strategy, strategy_number,
}
use knolo_agents.Recovery.Classify.{needs_recovery}
use knolo_agents.Recovery.Policy.{retries, retry_limit, policy_strategies, disabled, next_strategy}
use knolo_agents.Recovery.Policy.Allowed.{Allowed, Chosen, next_strategy-Chosen}
use knolo_agents.Harness.Recover.{
  Invocation, RecoveryRun, any_used, apply_strategy, recover, finish, finished,
  invoke_with_recovery, recovered, invoke_once, degrade, again, ask_again, exhaust, throw_if,
  first_run,
}

-- Whether a strategy that is applied once was applied.
abbrev pub once : List RecoveryStrategy → RecoveryStrategy → ℕ
once used s = if includes_strategy used s then 1 else 0

-- How many strategies were applied that call the adapter.
abbrev pub spent : List RecoveryStrategy → ℕ
spent used =
    retries used
    + (once used RecoveryStrategy.alternate_plan
        + (once used RecoveryStrategy.fallback_skill + once used RecoveryStrategy.alternate_tool))

includes-snoc :
    (used : List RecoveryStrategy) (s t : RecoveryStrategy)
    → includes_strategy (used ++ s ∷ []) t
      ≡ (includes_strategy used t || includes_strategy (s ∷ []) t)
includes-snoc [] s t = refl
includes-snoc (u ∷ used) s t = ground (arith, includes-snoc used s t)

retries-snoc :
    (used : List RecoveryStrategy) (s : RecoveryStrategy)
    → retries (used ++ s ∷ []) ≡ retries used + retries (s ∷ [])
retries-snoc [] s = omega arith
retries-snoc (RecoveryStrategy.retry ∷ used) s = omega (arith, retries-snoc used s)
retries-snoc (RecoveryStrategy.alternate_plan ∷ used) s = retries-snoc used s
retries-snoc (RecoveryStrategy.fallback_skill ∷ used) s = retries-snoc used s
retries-snoc (RecoveryStrategy.alternate_tool ∷ used) s = retries-snoc used s
retries-snoc (RecoveryStrategy.narrowed_child ∷ used) s = retries-snoc used s
retries-snoc (RecoveryStrategy.hitl ∷ used) s = retries-snoc used s
retries-snoc (RecoveryStrategy.graceful_partial ∷ used) s = retries-snoc used s

-- What holds of the variables at each turn of the loop.
pub record IsBounded (policy : RecoveryPolicy) (run : RecoveryRun) : Type 0 where
  pub calls_counted : run.calls ≡ suc (spent run.used)
  pub retries_bounded : retries run.used ≤ retry_limit policy
  pub attempts_counted : run.attempt ≡ length run.used
  pub only_enabled : any_used run.used ≡ true → disabled policy ≡ false
  pub all_listed :
      (s : RecoveryStrategy)
      → includes_strategy run.used s ≡ true
      → includes_strategy (policy_strategies policy) s ≡ true
  pub never_hitl : includes_strategy run.used RecoveryStrategy.hitl ≡ false
  pub never_child : includes_strategy run.used RecoveryStrategy.narrowed_child ≡ false

-- Whether a strategy is the one applied now or was applied before.
once_more : List RecoveryStrategy → RecoveryStrategy → RecoveryStrategy → ℕ
once_more used s t = if includes_strategy used t || includes_strategy (s ∷ []) t then 1 else 0

spent-snoc :
    (used : List RecoveryStrategy) (s : RecoveryStrategy)
    → spent (used ++ s ∷ [])
      ≡ retries used
        + retries (s ∷ [])
        + (once_more used s RecoveryStrategy.alternate_plan
            + (once_more used s RecoveryStrategy.fallback_skill
                + once_more used s RecoveryStrategy.alternate_tool))
unfolding once_more
spent-snoc used s =
    rw
      (
        retries-snoc used s,
        includes-snoc used s RecoveryStrategy.alternate_plan,
        includes-snoc used s RecoveryStrategy.fallback_skill,
        includes-snoc used s RecoveryStrategy.alternate_tool,
      )
      refl

-- A strategy that was chosen spends a call, unless it is `graceful-partial`.
spent-Chosen :
    (policy : RecoveryPolicy) (used : List RecoveryStrategy) (s : RecoveryStrategy)
    → Allowed policy used s
    → spent (used ++ s ∷ [])
      ≡ spent used + (if includes_strategy (s ∷ []) RecoveryStrategy.graceful_partial then 0 else 1)
unfolding once_more
spent-Chosen policy used RecoveryStrategy.retry a =
    ground (arith, spent-snoc used RecoveryStrategy.retry)
spent-Chosen policy used RecoveryStrategy.alternate_plan a =
    ground (arith, spent-snoc used RecoveryStrategy.alternate_plan)
spent-Chosen policy used RecoveryStrategy.fallback_skill a =
    ground (arith, spent-snoc used RecoveryStrategy.fallback_skill)
spent-Chosen policy used RecoveryStrategy.alternate_tool a =
    ground (arith, spent-snoc used RecoveryStrategy.alternate_tool)
spent-Chosen policy used RecoveryStrategy.narrowed_child a = absurd a
spent-Chosen policy used RecoveryStrategy.hitl a = absurd a
spent-Chosen policy used RecoveryStrategy.graceful_partial a =
    ground (arith, spent-snoc used RecoveryStrategy.graceful_partial)

retries-Chosen :
    (policy : RecoveryPolicy) (used : List RecoveryStrategy) (s : RecoveryStrategy)
    → Allowed policy used s
    → retries used ≤ retry_limit policy
    → retries (used ++ s ∷ []) ≤ retry_limit policy
retries-Chosen policy used RecoveryStrategy.retry a h = omega (arith, retries-snoc used _)
retries-Chosen policy used RecoveryStrategy.alternate_plan a h = omega (arith, retries-snoc used _)
retries-Chosen policy used RecoveryStrategy.fallback_skill a h = omega (arith, retries-snoc used _)
retries-Chosen policy used RecoveryStrategy.alternate_tool a h = omega (arith, retries-snoc used _)
retries-Chosen policy used RecoveryStrategy.narrowed_child a h = absurd a
retries-Chosen policy used RecoveryStrategy.hitl a h = absurd a
retries-Chosen policy used RecoveryStrategy.graceful_partial a h =
    omega (arith, retries-snoc used _)

never-Chosen :
    (policy : RecoveryPolicy) (used : List RecoveryStrategy) (s : RecoveryStrategy)
    → Allowed policy used s
    → (includes_strategy (s ∷ []) RecoveryStrategy.hitl ≡ false)
      × (includes_strategy (s ∷ []) RecoveryStrategy.narrowed_child ≡ false)
never-Chosen policy used RecoveryStrategy.retry a = (refl, refl)
never-Chosen policy used RecoveryStrategy.alternate_plan a = (refl, refl)
never-Chosen policy used RecoveryStrategy.fallback_skill a = (refl, refl)
never-Chosen policy used RecoveryStrategy.alternate_tool a = (refl, refl)
never-Chosen policy used RecoveryStrategy.narrowed_child a = absurd a
never-Chosen policy used RecoveryStrategy.hitl a = absurd a
never-Chosen policy used RecoveryStrategy.graceful_partial a = (refl, refl)

-- How the counters go on when a strategy is applied.
pub record Extends (run : RecoveryRun) (s : RecoveryStrategy) (next : RecoveryRun) : Type 0 where
  pub used_extended : next.used ≡ run.used ++ s ∷ []
  pub attempt_counted : next.attempt ≡ suc run.attempt
  pub call_counted :
      next.calls
      ≡ run.calls + (if includes_strategy (s ∷ []) RecoveryStrategy.graceful_partial then 0 else 1)

strategy_at : ℕ → RecoveryStrategy
strategy_at n =
    if eqb n 0
    then RecoveryStrategy.retry
    else if eqb n 1
    then RecoveryStrategy.alternate_plan
    else if eqb n 2
    then RecoveryStrategy.fallback_skill
    else if eqb n 3
    then RecoveryStrategy.alternate_tool
    else if eqb n 4
    then RecoveryStrategy.narrowed_child
    else if eqb n 5
    then RecoveryStrategy.hitl
    else RecoveryStrategy.graceful_partial

strategy_at-number : (s : RecoveryStrategy) → strategy_at (strategy_number s) ≡ s
unfolding strategy_at
strategy_at-number RecoveryStrategy.retry = refl
strategy_at-number RecoveryStrategy.alternate_plan = refl
strategy_at-number RecoveryStrategy.fallback_skill = refl
strategy_at-number RecoveryStrategy.alternate_tool = refl
strategy_at-number RecoveryStrategy.narrowed_child = refl
strategy_at-number RecoveryStrategy.hitl = refl
strategy_at-number RecoveryStrategy.graceful_partial = refl

same_strategy→eq : (s t : RecoveryStrategy) → includes_strategy (s ∷ []) t ≡ true → s ≡ t
same_strategy→eq s t h =
    sym (strategy_at-number s)
    ∙ ap strategy_at (number_eq (strategy_number s) (strategy_number t) h)
    ∙ strategy_at-number t
  where
    number_eq : (m n : ℕ) → (eqb m n || false) ≡ true → m ≡ n
    number_eq m n h = ground arith

pub Extends-IsBounded :
    (policy : RecoveryPolicy) (c : FailureClass) (run next : RecoveryRun) (s : RecoveryStrategy)
    → IsBounded policy run
    → Chosen policy c run.used s
    → Extends run s next
    → IsBounded policy next
Extends-IsBounded policy c run next s b chosen e =
    let (no_hitl, no_child) = never-Chosen policy run.used s chosen.allowed in
    record {
      calls_counted = rw e.used_extended (
          omega (
            arith,
            b.calls_counted,
            e.call_counted,
            spent-Chosen policy run.used s chosen.allowed,
          ));
      retries_bounded =
          rw e.used_extended (retries-Chosen policy run.used s chosen.allowed b.retries_bounded);
      attempts_counted =
          rw e.used_extended
            (omega (arith, length-append run.used (s ∷ []), e.attempt_counted, b.attempts_counted));
      only_enabled = λ h. chosen.enabled;
      all_listed = λ t h. elim (Bool-cases (includes_strategy (s ∷ []) t)) [
        | inl new ↦ rw (← same_strategy→eq s t new) chosen.listed
        | inr old ↦ b.all_listed t (
            ground (
              arith,
              includes-snoc run.used s t,
              subst (λ u. includes_strategy u t ≡ true) e.used_extended h,
            ))
      ];
      never_hitl = rw (e.used_extended, includes-snoc run.used s) (ground (arith, b.never_hitl));
      never_child = rw (e.used_extended, includes-snoc run.used s) (ground (arith, b.never_child));
    }

module _ (classify : AgentInvocationResult → FailureClass) (adapter : ℕ → Invocation)
    (on_recovery : ℕ → Option String) (policy : RecoveryPolicy) where
  ask_again-Extends :
      (run next : RecoveryRun) (s : RecoveryStrategy) (more : Bool)
      → includes_strategy (s ∷ []) RecoveryStrategy.graceful_partial ≡ false
      → ask_again classify adapter on_recovery policy run s ≡ ok (more, next)
      → Extends run s next × (more ≡ true)
  unfolding ask_again again
  ask_again-Extends run next s more n h =
      let (passed, asked) = >>-eq-ok (throw_if (on_recovery run.attempt)) _ h in
      let (result, answered, same) = >>=-eq-ok (invoke_once (adapter run.calls)) _ asked in
      let e : again (classify run.result) s (adapter run.calls) result run ≡ next = cc same in
      (
        subst (λ r. Extends run s r) e
            (record {
              used_extended = refl;
              attempt_counted = refl;
              call_counted = ground (arith, n);
            }),
        cc same,
      )

  pub apply_strategy-Extends :
      (run next : RecoveryRun) (s : RecoveryStrategy) (more : Bool)
      → apply_strategy classify adapter on_recovery policy run s ≡ ok (more, next)
      → Extends run s next
        × (more ≡ not (includes_strategy (s ∷ []) RecoveryStrategy.graceful_partial))
  unfolding apply_strategy degrade
  apply_strategy-Extends run next RecoveryStrategy.retry more h =
      ask_again-Extends run next _ more refl h
  apply_strategy-Extends run next RecoveryStrategy.alternate_plan more h =
      ask_again-Extends run next _ more refl h
  apply_strategy-Extends run next RecoveryStrategy.fallback_skill more h =
      ask_again-Extends run next _ more refl h
  apply_strategy-Extends run next RecoveryStrategy.alternate_tool more h =
      ask_again-Extends run next _ more refl h
  apply_strategy-Extends run next RecoveryStrategy.narrowed_child more h =
      ask_again-Extends run next _ more refl h
  apply_strategy-Extends run next RecoveryStrategy.hitl more h =
      ask_again-Extends run next _ more refl h
  apply_strategy-Extends run next RecoveryStrategy.graceful_partial more h =
      let (passed, same) = >>-eq-ok (throw_if (on_recovery run.attempt)) _ h in
      let e : degrade (classify run.result) run ≡ next = cc same in
      (
        subst (λ r. Extends run RecoveryStrategy.graceful_partial r) e
            (record { used_extended = refl; attempt_counted = refl; call_counted = ground arith }),
        cc same,
      )

  -- A property that every applied strategy keeps holds of what the loop returns.
  recover-keeps :
      (P : RecoveryRun → Type 0)
      → ((run next : RecoveryRun) (s : RecoveryStrategy)
          → Chosen policy (classify run.result) run.used s
          → Extends run s next
          → P run
          → P next)
      → (fuel : ℕ) (run r : RecoveryRun)
      → recover classify adapter on_recovery policy fuel run ≡ some (ok r)
      → P run
      → P r
  unfolding recover
  recover-keeps P step zero run r h p = cc
  recover-keeps P step (suc fuel) run r h p = elim (Bool-cases (needs_recovery run.result)) [
    | inr e ↦ subst P (cc (rw (e, recover) at h)) p
    | inl e ↦ elim (Option-cases (next_strategy policy (classify run.result) run.used)) [
      | inl n ↦ subst P (cc (rw (e, n, recover) at h)) p
      | inr (s, n) ↦
          elim (Result-cases (apply_strategy classify adapter on_recovery policy run s)) [
            | inr (m, a) ↦ cc (rw (e, n, a, recover) at h)
            | inl ((more, next), a) ↦
                let kept =
                  step run next s (next_strategy-Chosen policy _ _ s n)
                    (apply_strategy-Extends run next s more a).0 p in
                elim (Bool-cases more) [
                  | inl m ↦ recover-keeps P step fuel next r (rw (e, n, a, m, recover) at h) kept
                  | inr m ↦ subst P (cc (rw (e, n, a, m, recover) at h)) kept
                ]
          ]
    ]
  ]

  counters :
      (run : RecoveryRun)
      → IsBounded policy run
      → IsBounded policy (exhaust (classify run.result) run)
  unfolding exhaust
  counters run b = record {
    calls_counted = b.calls_counted;
    retries_bounded = b.retries_bounded;
    attempts_counted = b.attempts_counted;
    only_enabled = b.only_enabled;
    all_listed = b.all_listed;
    never_hitl = b.never_hitl;
    never_child = b.never_child;
  }

  finish-IsBounded :
      (run : RecoveryRun)
      → IsBounded policy run
      → IsBounded policy (finish classify adapter on_recovery policy run)
  unfolding finish exhaust
  finish-IsBounded run b = elim (Bool-cases (needs_recovery run.result && any_used run.used)) [
    | inl e ↦ rw e (counters run b)
    | inr e ↦ rw e b
  ]

  finished-IsBounded :
      (r : RecoveryRun) (o : Option (Result String RecoveryRun))
      → ((run : RecoveryRun) → o ≡ some (ok run) → IsBounded policy run)
      → finished classify adapter on_recovery policy o ≡ some (ok r)
      → IsBounded policy r
  unfolding finished
  finished-IsBounded r none b h = cc
  finished-IsBounded r (some (err m)) b h = cc
  finished-IsBounded r (some (ok run)) b h =
      subst (IsBounded policy) (cc h) (finish-IsBounded run (b run refl))

  pub first_run-IsBounded :
      (result : AgentInvocationResult)
      → IsBounded policy (first_run classify adapter on_recovery policy result)
  unfolding first_run
  first_run-IsBounded result = record {
    calls_counted = refl;
    retries_bounded = omega arith;
    attempts_counted = refl;
    only_enabled = λ h. cc h;
    all_listed = λ s h. cc h;
    never_hitl = refl;
    never_child = refl;
  }

  recovered-IsBounded :
      (fuel : ℕ) (first : Result String AgentInvocationResult) (r : RecoveryRun)
      → recovered classify adapter on_recovery policy fuel first ≡ some (ok r)
      → IsBounded policy r
  unfolding recovered
  recovered-IsBounded fuel (err m) r h = cc
  recovered-IsBounded fuel (ok result) r h =
      finished-IsBounded r _
        (λ run eq.
          recover-keeps (IsBounded policy)
            (λ run next s chosen ext b. Extends-IsBounded policy _ run next s b chosen ext) fuel _
            run eq (first_run-IsBounded result))
        h

  -- When the run with recovery returns, the adapter was called once and once more for each strategy that was applied, but
  -- for `graceful-partial`; the retries are at most the policy's limit; a strategy was
  -- only applied if the policy is enabled and lists it; `hitl` and `narrowed-child` were not.
  pub invoke_with_recovery-IsBounded :
      (fuel : ℕ) (r : RecoveryRun)
      → invoke_with_recovery classify adapter on_recovery policy fuel ≡ some (ok r)
      → IsBounded policy r
  unfolding invoke_with_recovery
  invoke_with_recovery-IsBounded fuel r h = recovered-IsBounded fuel _ r h
