-- ===== src/Harness/Lifecycle/Judged.antt =====
-- How a result is judged, and which tasks are let through.
use knolo_agents.Base.{
  ℕ, ◌≡◌, ◌≢◌, ◌↔◌, refl, String, Bool, true, false, not, ◌&&◌, ◌||◌, List, [], ◌∷◌, includes, In,
  In-filter, ◌⊎◌, inl, inr, ok, require, >>-eq-ok, if◌then◌else◌, arith, Bool-cases,
}
use knolo_agents.Contracts.Values.{Json}
use knolo_agents.Builder.{or_default}
use knolo_agents.Recovery.Classify.{is_failed}
use knolo_agents.Harness.Types.{
  HarnessError, tools_unsupported, resume_unsupported, AgentCapabilities, Task, InvocationStatus,
  EvaluationReceipt,
}
use knolo_agents.Harness.Lifecycle.{
  assert_adapter_supports_task, contains, violations_of, matched_of, receipt_of,
  evaluate_invocation, required_of, is_nil,
}

gate_iff :
    (e : HarnessError) (needed supported : Bool)
    → (require (not (needed && not supported)) e ≡ ok tt) ↔ (needed ≡ true → supported ≡ true)
gate_iff e true true = (λ h i. refl, λ p. refl)
gate_iff e true false = (λ h i. cc h, λ p. cc (p refl))
gate_iff e false supported = (λ h i. cc i, λ p. refl)

-- An adapter supports a task exactly where it gates tools if the task requires tools, and resumes
-- if the task requires that.
pub assert_adapter_supports_task_iff :
    (capabilities : AgentCapabilities) (task : Task)
    → (assert_adapter_supports_task capabilities task ≡ ok tt) ↔ (
        (In "tools" (or_default task.required_capabilities []) → capabilities.tools ≡ true)
        × (In "resume" (or_default task.required_capabilities []) → capabilities.resume ≡ true))
unfolding assert_adapter_supports_task required_of
assert_adapter_supports_task_iff capabilities task =
    let required = or_default task.required_capabilities [] in
    let tools = gate_iff tools_unsupported (includes required "tools") capabilities.tools in
    let resume = gate_iff resume_unsupported (includes required "resume") capabilities.resume in
    (
      λ h.
          let (a, b) =
            >>-eq-ok
              (require (not (includes required "tools" && not capabilities.tools))
                tools_unsupported)
              _ h in
          (tools.0 a, resume.0 b),
      λ p. rw (tools.1 p.0) (resume.1 p.1),
    )

is_nil_iff : (xs : List String) → (is_nil xs ≡ true) ↔ (xs ≡ [])
unfolding is_nil
is_nil_iff [] = (λ h. refl, λ h. refl)
is_nil_iff (x ∷ xs) = (λ h. cc h, λ h. cc h)

module _ (lower : String → String) (stringify : Json → String) (show : ℕ → String) where
  -- The judgement of a result.
  pub record IsJudged (task : Task) (status : InvocationStatus) (output : Json)
      (tool_calls : List String) (receipt : EvaluationReceipt) : Type 0 where
    pub violations_found :
        (action : String)
        → In action receipt.prohibited_violations ↔ (
            In action (or_default task.prohibited_actions [])
            × ((contains lower stringify show (stringify output) action ≡ true)
                ⊎ In action tool_calls))
    pub criteria_found :
        (criterion : String)
        → In criterion receipt.success_criteria_matched ↔ (
            In criterion task.success_criteria
            × (contains lower stringify show (stringify output) criterion ≡ true))
    pub passed_iff :
        (receipt.passed ≡ true)
        ↔ ((receipt.prohibited_violations ≡ []) × (is_failed status ≡ false))
    pub failed_by_violation :
        receipt.prohibited_violations ≢ [] → receipt.status ≡ InvocationStatus.failed
    pub status_kept : receipt.prohibited_violations ≡ [] → receipt.status ≡ status

  violations_iff :
      (task : Task) (text action : String) (calls : List String)
      → In action (violations_of lower stringify show task text calls) ↔ (
          In action (or_default task.prohibited_actions [])
          × ((contains lower stringify show text action ≡ true) ⊎ In action calls))
  unfolding violations_of
  violations_iff task text action calls =
      let kept =
        In-filter (λ a. contains lower stringify show text a || includes calls a)
          (or_default task.prohibited_actions []) action in
      (
        λ h. (
          ground arith,
          elim (Bool-cases (contains lower stringify show text action)) [
            | inl e ↦ inl e
            | inr e ↦ inr (ground arith)
          ],
        ),
        λ p. elim p.1 [ inl e ↦ ground (arith, p.0) | inr e ↦ ground (arith, p.0) ],
      )

  matched_iff :
      (task : Task) (text criterion : String)
      → In criterion (matched_of lower stringify show task text) ↔ (
          In criterion task.success_criteria
          × (contains lower stringify show text criterion ≡ true))
  unfolding matched_of
  matched_iff task text criterion =
      let kept =
        In-filter (λ c. contains lower stringify show text c) task.success_criteria criterion in
      (λ h. (ground arith, ground arith), λ p. ground (arith, p.0, p.1))

  status_failed :
      (status : InvocationStatus) (violations : List String)
      → violations ≢ []
      → (if is_nil violations then status else InvocationStatus.failed) ≡ InvocationStatus.failed
  unfolding is_nil
  status_failed status [] n = absurd (n refl)
  status_failed status (x ∷ xs) n = refl

  -- The receipt names exactly the prohibited actions that the output mentions or the tools performed, and
  -- exactly the criteria that the output mentions. It is passed where there is no violation and the
  -- invocation did not fail; a violation makes the status failed, and else the status is kept.
  pub evaluate_invocation-IsJudged :
      (task : Task) (status : InvocationStatus) (output : Json) (tool_calls : List String)
      → IsJudged task status output tool_calls
          (evaluate_invocation lower stringify show task status output tool_calls)
  unfolding evaluate_invocation receipt_of
  evaluate_invocation-IsJudged task status output tool_calls =
      let text = stringify output in
      let violations = violations_of lower stringify show task text tool_calls in
      let nil = is_nil_iff violations in
      record {
        violations_found = λ action. violations_iff task text action tool_calls;
        criteria_found = λ criterion. matched_iff task text criterion;
        passed_iff =
            (λ h. (nil.0 (ground arith), ground arith), λ p. ground (arith, nil.1 p.0, p.1));
        failed_by_violation = λ n. status_failed status violations n;
        status_kept = λ e. rw (nil.1 e) refl;
      }
