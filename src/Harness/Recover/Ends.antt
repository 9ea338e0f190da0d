-- ===== src/Harness/Recover/Ends.antt =====
-- Recovery ends, and leaves a failure only where no strategy is left for it.
use knolo_agents.Base.{
  ℕ, zero, suc, ◌+◌, ◌≤◌, ◌<◌, ◌≡◌, refl, String, Bool, true, false, not, Option, none, some,
  Result, ok, err, arith, if◌then◌else◌, inl, inr, Bool-cases, Option-cases, Result-cases, List, [],
  ◌∷◌,
}
use knolo_agents.Harness.Types.{AgentInvocationResult}
use knolo_agents.Recovery.Types.{FailureClass, RecoveryPolicy, RecoveryStrategy, includes_strategy}
use knolo_agents.Recovery.Classify.{needs_recovery}
use knolo_agents.Recovery.Policy.{retries, retry_limit, next_strategy}
use knolo_agents.Recovery.Policy.Allowed.{next_strategy-Chosen}
use knolo_agents.Harness.Recover.{
  Invocation, RecoveryRun, apply_strategy, recover, finished, recovered, invoke_with_recovery,
  first_run,
}
use knolo_agents.Harness.Recover.Bounded.{
  IsBounded, Extends, Extends-IsBounded, apply_strategy-Extends, first_run-IsBounded, spent,
}

once_le : (b : Bool) → (if b then 1 else 0) ≤ 1
once_le true = omega arith
once_le false = omega arith

-- At most three strategies besides the retries call the adapter.
spent_le : (used : List RecoveryStrategy) → spent used ≤ retries used + 3
spent_le used = omega (
  arith,
  once_le (includes_strategy used RecoveryStrategy.alternate_plan),
  once_le (includes_strategy used RecoveryStrategy.fallback_skill),
  once_le (includes_strategy used RecoveryStrategy.alternate_tool),
)

module _ (classify : AgentInvocationResult → FailureClass) (adapter : ℕ → Invocation)
    (on_recovery : ℕ → Option String) (policy : RecoveryPolicy) where
  recover_ends :
      (fuel : ℕ) (run : RecoveryRun)
      → IsBounded policy run
      → retry_limit policy + 3 < fuel + spent run.used
      → (r : Result String RecoveryRun) × (recover classify adapter on_recovery policy fuel run
          ≡ some r)
  unfolding recover
  recover_ends zero run b h = absurd (omega (arith, spent_le run.used, b.retries_bounded))
  recover_ends (suc fuel) run b h = elim (Bool-cases (needs_recovery run.result)) [
    | inr e ↦ (ok run, rw e refl)
    | inl e ↦ elim (Option-cases (next_strategy policy (classify run.result) run.used)) [
      | inl n ↦ (ok run, rw (e, n) refl)
      | inr (s, n) ↦
          elim (Result-cases (apply_strategy classify adapter on_recovery policy run s)) [
            | inr (m, a) ↦ (err m, rw (e, n, a) refl)
            | inl ((more, next), a) ↦
                let (ext, again) =
                  apply_strategy-Extends classify adapter on_recovery policy run next s more a in
                let kept =
                  Extends-IsBounded policy _ run next s b (next_strategy-Chosen policy _ _ s n)
                    ext in
                elim (Bool-cases more) [
                  | inr m ↦ (ok next, rw (e, n, a, m) refl)
                  | inl m ↦
                      let (r, done) =
                        recover_ends fuel next kept
                          (calls_go_on fuel run next s more b kept ext again m h) in
                      (r, rw (e, n, a, m, recover) done)
                ]
          ]
    ]
  ]
    where
      calls_go_on :
          (fuel : ℕ) (run next : RecoveryRun) (s : RecoveryStrategy) (more : Bool)
          → IsBounded policy run
          → IsBounded policy next
          → Extends run s next
          → more ≡ not (includes_strategy (s ∷ []) RecoveryStrategy.graceful_partial)
          → more ≡ true
          → retry_limit policy + 3 < suc fuel + spent run.used
          → retry_limit policy + 3 < fuel + spent next.used
      calls_go_on fuel run next s more b kept ext again m h =
          ground (arith, b.calls_counted, kept.calls_counted, ext.call_counted)

  finished_ends :
      (o : Option (Result String RecoveryRun)) (r : Result String RecoveryRun)
      → o ≡ some r
      → (q : Result String RecoveryRun) × (finished classify adapter on_recovery policy o ≡ some q)
  unfolding finished
  finished_ends none r h = cc
  finished_ends (some (ok run)) r h = (_, refl)
  finished_ends (some (err m)) r h = (_, refl)

  recovered_ends :
      (fuel : ℕ) (first : Result String AgentInvocationResult)
      → retry_limit policy + 4 ≤ fuel
      → (r : Result String RecoveryRun) × (recovered classify adapter on_recovery policy fuel first
          ≡ some r)
  unfolding recovered first_run
  recovered_ends fuel (err m) h = (err m, refl)
  recovered_ends fuel (ok result) h =
      let start = first_run classify adapter on_recovery policy result in
      let bounded = first_run-IsBounded classify adapter on_recovery policy result in
      let (r, done) = recover_ends fuel start bounded (omega (arith, h)) in finished_ends _ r done

  -- With fuel for the policy's retries and four more turns the loop ends: a result is returned or an
  -- error leaves the function.
  pub invoke_with_recovery_ends :
      (fuel : ℕ)
      → retry_limit policy + 4 ≤ fuel
      → (r : Result String RecoveryRun) × (invoke_with_recovery classify adapter on_recovery policy
            fuel
          ≡ some r)
  unfolding invoke_with_recovery
  invoke_with_recovery_ends fuel h = recovered_ends fuel _ h
