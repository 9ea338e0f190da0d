-- ===== src/Evaluation/Suite/Passed.antt =====
-- When an evaluation passes.
use knolo_agents.Base.{
  ℕ, String, Bool, true, false, not, ◌&&◌, ◌||◌, Option, none, some, List, [], ◌∷◌, every, filter,
  length, eqb, ◌==◌, ◌≡◌, ◌≢◌, ◌↔◌, refl, arith, eq_iff, Bool-cases, inl, inr, Result, ok, err,
  Option-cases,
}
use knolo_agents.Contracts.Values.{Json}
use knolo_agents.Harness.Lifecycle.{contains, is_nil}
use knolo_agents.Harness.Types.{
  EvaluationCheck, InvocationStatus, SemanticJudgeRecord, status_text, Task, ContextEnvelope,
  EvaluationReceipt,
}
use knolo_agents.Evaluation.Types.{EvaluateRunInput}
use knolo_agents.Evaluation.Suite.{
  within_budget, max_tokens_of, matches_schema, tools_pass, expected_tools_of, prohibited_of,
  required_evidence_of, is_status, check, is_deterministic, is_evidenced, task_evaluation,
  deterministic_checks, judged, judge_checks, evaluate_run, receipt_with,
}
use knolo_agents.Evaluation.Suite.Declared.{
  KeepsSchema, matches_schema_iff, UsesTools, tools_pass_iff,
}
use knolo_agents.Evaluation.Suite.Limits.{KeepsLimit, within_limit_iff, StandsIn, StandsIn-iff}

is_status-true : (status : InvocationStatus) → is_status status ≡ true
unfolding is_status status_text
is_status-true InvocationStatus.succeeded = refl
is_status-true InvocationStatus.partial = refl
is_status-true InvocationStatus.failed = refl
is_status-true InvocationStatus.suspended = refl

is_nil→eq : (xs : List String) → is_nil xs ≡ true → xs ≡ []
unfolding is_nil
is_nil→eq [] h = refl
is_nil→eq (x ∷ xs) h = cc

every-is_nil :
    (p : String → Bool) (xs : List String) → (is_nil xs || every p xs) ≡ true → every p xs ≡ true
unfolding is_nil
every-is_nil p [] h = refl
every-is_nil p (x ∷ xs) h = h

is_nil-every :
    (p : String → Bool) (xs : List String) → every p xs ≡ true → (is_nil xs || every p xs) ≡ true
is_nil-every p xs h = ground arith

root_iff : (r s : String) → ((not (r == "") && r == s) ≡ true) ↔ ((r ≢ "") × (r ≡ s))
root_iff r s = (
  λ h.
      let distinct : (r == "") ≡ false = ground arith in
      let same : (r == s) ≡ true = ground arith in
      (λ e. cc (distinct, (eq_iff r "").1 e), (eq_iff r s).0 same),
  λ (n, e). elim (Bool-cases (r == "")) [
    | inl y ↦ absurd (n ((eq_iff r "").0 y))
    | inr d ↦ rw (d, (eq_iff r s).1 e) refl
  ],
)

eqb_iff : (m n : ℕ) → (eqb m n ≡ true) ↔ (m ≡ n)
eqb_iff m n = (λ h. ground arith, λ h. ground arith)

both : (a b : Bool) → (a && b) ≡ true → (a ≡ true) × (b ≡ true)
both true b h = (refl, h)
both false b h = cc

-- A conjunction of nine tests.
all_nine :
    (a b c d e f g k l : Bool)
    → ((a && (b && (c && (d && (e && (f && (g && (k && (l && true))))))))) ≡ true) ↔ (
        (a ≡ true)
        × (b ≡ true)
        × (c ≡ true)
        × (d ≡ true)
        × (e ≡ true)
        × (f ≡ true)
        × (g ≡ true)
        × (k ≡ true)
        × (l ≡ true))
all_nine a b c d e f g k l = (
  λ h.
      let (pa, ha) = both a _ h in
      let (pb, hb) = both b _ ha in
      let (pc, hc) = both c _ hb in
      let (pd, hd) = both d _ hc in
      let (pe, he) = both e _ hd in
      let (pf, hf) = both f _ he in
      let (pg, hg) = both g _ hf in
      let (pk, hk) = both k _ hg in (pa, pb, pc, pd, pe, pf, pg, pk, (both l _ hk).0),
  λ (pa, pb, pc, pd, pe, pf, pg, pk, pl). rw (pa, pb, pc, pd, pe, pf, pg, pk, pl) refl,
)

not-is_nil : (xs : List String) → (not (is_nil xs) ≡ true) ↔ (xs ≢ [])
unfolding is_nil
not-is_nil [] = (λ h e. cc h, λ n. absurd (n refl))
not-is_nil (x ∷ xs) = (λ h e. cc e, λ n. refl)

module _ (lower : String → String) (stringify : Json → String) (evidence_text : List Json → String)
    (show : ℕ → String) where
  -- What a run must do, whatever a judge says of it.
  pub record IsPassing (input : EvaluateRunInput) : Type 0 where
    pub keeps_policy :
        (task_evaluation lower stringify evidence_text show input).prohibited_violations ≡ []
    pub keeps_budget : KeepsLimit input.result.tokens input.task input.suite
    pub keeps_schema : KeepsSchema input.result.output input.task.output_schema
    pub has_root :
        (input.dependencies.root ≢ "") × (input.dependencies.root ≡ input.envelope.dependency_root)
    pub has_receipts : input.evidence_receipts ≢ []
    pub uses_tools :
        UsesTools input.tool_calls
          (expected_tools_of input.suite)
          (prohibited_of input.task input.suite)
    pub meets_criteria :
        length (task_evaluation lower stringify evidence_text show input).success_criteria_matched
        ≡ length input.task.success_criteria
    pub has_evidence :
        StandsIn
          (contains lower stringify show)
          (stringify input.result.output)
          (evidence_text input.envelope.evidence)
          (required_evidence_of input.task input.suite)

  judge_checks-filter :
      (judge : Option SemanticJudgeRecord)
      → filter is_deterministic (judge_checks lower stringify evidence_text show judge) ≡ []
  unfolding judge_checks is_deterministic check
  judge_checks-filter none = refl
  judge_checks-filter (some judge) = refl

  -- The judge's check is left out.
  receipt_with-checks :
      (input : EvaluateRunInput) (judge : Option SemanticJudgeRecord)
      → (receipt_with lower stringify evidence_text show input judge).passed
        ≡ every
            (λ (c : EvaluationCheck). c.passed)
            (deterministic_checks lower stringify evidence_text show input)
  unfolding receipt_with deterministic_checks is_deterministic check
  receipt_with-checks input judge = rw (judge_checks-filter judge) refl

  deterministic_checks_iff :
      (input : EvaluateRunInput)
      → (every
            (λ (c : EvaluationCheck). c.passed)
            (deterministic_checks lower stringify evidence_text show input)
          ≡ true)
        ↔ IsPassing input
  unfolding deterministic_checks check is_nil is_evidenced
  deterministic_checks_iff input =
      let violations =
        (task_evaluation lower stringify evidence_text show input).prohibited_violations in
      let matched =
        (task_evaluation lower stringify evidence_text show input).success_criteria_matched in
      let required = required_evidence_of input.task input.suite in
      let evidenced = is_evidenced lower stringify evidence_text show input in
      let (to_evidence, from_evidence) =
        StandsIn-iff (contains lower stringify show) (stringify input.result.output)
          (evidence_text input.envelope.evidence) required in
      let (to_limit, from_limit) = within_limit_iff input.result.tokens input.task input.suite in
      let (to_schema, from_schema) =
        matches_schema_iff input.result.output input.task.output_schema in
      let (to_tools, from_tools) =
        tools_pass_iff input.tool_calls (expected_tools_of input.suite)
          (prohibited_of input.task input.suite) in
      let root = input.dependencies.root in
      let (there, back) =
        all_nine (is_nil violations) (is_status input.result.status)
          (within_budget input.result.tokens (max_tokens_of input.task input.suite))
          (matches_schema input.result.output input.task.output_schema)
          (not (root == "") && root == input.envelope.dependency_root)
          (not (is_nil input.evidence_receipts))
          (tools_pass input.tool_calls (expected_tools_of input.suite)
            (prohibited_of input.task input.suite))
          (eqb (length matched) (length input.task.success_criteria))
          (is_nil required || every evidenced required) in
      (
        λ h.
            let (policy, status, tokens, schema, same_root, receipts, tools, criteria, evidence) =
              there h in
            record {
              keeps_policy = is_nil→eq violations policy;
              keeps_budget = to_limit tokens;
              keeps_schema = to_schema schema;
              has_root = (root_iff root input.envelope.dependency_root).0 same_root;
              has_receipts = (not-is_nil input.evidence_receipts).0 receipts;
              uses_tools = to_tools tools;
              meets_criteria =
                  (eqb_iff (length matched) (length input.task.success_criteria)).0 criteria;
              has_evidence = to_evidence (every-is_nil evidenced required evidence);
            },
        λ p. back (
          rw p.keeps_policy refl,
          is_status-true input.result.status,
          from_limit p.keeps_budget,
          from_schema p.keeps_schema,
          (root_iff root input.envelope.dependency_root).1 p.has_root,
          (not-is_nil input.evidence_receipts).1 p.has_receipts,
          from_tools p.uses_tools,
          (eqb_iff (length matched) (length input.task.success_criteria)).1 p.meets_criteria,
          is_nil-every evidenced required (from_evidence p.has_evidence),
        ),
      )

  -- What is returned says whether the run passes; what is thrown, the judge threw.
  abbrev pub IsEvaluated : EvaluateRunInput → Result String EvaluationReceipt → Type 0
  IsEvaluated input (ok receipt) = (receipt.passed ≡ true) ↔ IsPassing input
  IsEvaluated input (err message) =
      (judge : Task → Json → ContextEnvelope → Result String SemanticJudgeRecord) × (input.judge
        ≡ some judge)
      × (judge input.task input.result.output input.envelope ≡ err message)

  receipt_with-passed :
      (input : EvaluateRunInput) (judge : Option SemanticJudgeRecord)
      → ((receipt_with lower stringify evidence_text show input judge).passed ≡ true)
        ↔ IsPassing input
  receipt_with-passed input judge =
      let (there, back) = deterministic_checks_iff input in
      (
        λ h. there (rw (receipt_with-checks input judge) at h),
        λ p. rw (receipt_with-checks input judge) (back p),
      )

  evaluate_judged :
      (input : EvaluateRunInput)
      (judge : Task → Json → ContextEnvelope → Result String SemanticJudgeRecord)
      (verdict : Result String SemanticJudgeRecord)
      → input.judge ≡ some judge
      → judge input.task input.result.output input.envelope ≡ verdict
      → IsEvaluated input (evaluate_run lower stringify evidence_text show input)
  unfolding evaluate_run judged
  evaluate_judged input judge (ok verdict) j v =
      simp (j, v) (receipt_with-passed input (some verdict))
  evaluate_judged input judge (err message) j v = simp (j, v) (judge, refl, v)

  -- An evaluation throws only what its judge throws. Where it returns, it says that the run passes exactly
  -- where no prohibited action was found; the tokens, where they are given, are at most the limit of the
  -- task's budget, or of the suite's task where the budget has none; the output is an object, an array, a
  -- text or a number where the schema names that type; the dependency root is not empty and is that of the
  -- envelope; there is an evidence receipt; no tool that was used is prohibited and each expected one was
  -- used; as many criteria matched as there are; and each required evidence stands in the output or in the
  -- evidence. A judge that returns has no say in it.
  pub evaluate_run-passed :
      (input : EvaluateRunInput)
      → IsEvaluated input (evaluate_run lower stringify evidence_text show input)
  unfolding evaluate_run judged
  evaluate_run-passed input = elim (Option-cases input.judge) [
    | inl j ↦ simp j (receipt_with-passed input none)
    | inr (judge, j) ↦
        evaluate_judged input judge (judge input.task input.result.output input.envelope) j refl
  ]
