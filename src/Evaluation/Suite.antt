-- ===== src/Evaluation/Suite.antt =====
-- packages/agents/src/evaluation/suite.ts. `lower` is `toLowerCase`, `stringify` is `stringifyOutput`,
-- `evidence_text` is `JSON.stringify` of the evidence and `show` the text of a number.
pub mod Declared
pub mod Limits
pub mod Passed
use knolo_agents.Base.{
  ℕ, String, Bool, true, false, not, ◌&&◌, ◌||◌, Option, none, some, List, [], ◌∷◌, ◌++◌, any,
  every, filter, includes, length, leb, ltb, eqb, ◌==◌, if◌then◌else◌, Result, ok, ◌>>=◌,
}
use knolo_agents.Base.Text.{◌^^◌}
use knolo_agents.Builder.{or_default}
use knolo_agents.Contracts.Values.{Json, null, bool, number, string, array, object, Fields, lookup}
use knolo_agents.Harness.Lifecycle.{contains, evaluate_invocation, joined, joined_or_ok, is_nil}
use knolo_agents.Harness.Types.{
  CheckPhase, ContextEnvelope, EvaluationCheck, EvaluationReceipt, HarnessBudget, InvocationStatus,
  SemanticJudgeRecord, Task, status_text,
}
use knolo_agents.Recovery.Policy.{safe_natural, given}
use knolo_agents.Evaluation.Types.{
  AcsTask, AcsSuite, EvaluationSuite, Suite, EvaluateRunInput, plain_suite, acs_suite,
}

-- record.version === 1
is_one : Option Json → Bool
unfolding safe_natural
is_one (some (number negative digits scale)) = elim (safe_natural negative digits scale) [
  | none ↦ false
  | some n ↦ eqb n 1
]
is_one _ = false

is_string : Option Json → Bool
is_string (some (string s)) = true
is_string _ = false

is_array : Option Json → Bool
is_array (some (array xs)) = true
is_array _ = false

-- Boolean(task?.objective) && Array.isArray(task?.successCriteria)
is_acs_task : Option Json → Bool
unfolding is_array lookup
is_acs_task (some (object task)) =
    given (lookup "objective" task) && is_array (lookup "successCriteria" task)
is_acs_task _ = false

unfoldable pub is_acs_suite : Json → Bool
unfolding is_one is_string is_acs_task lookup
is_acs_suite (object o) =
    is_one (lookup "version" o)
    && (is_string (lookup "id" o) && (is_acs_task (lookup "task" o) && given (lookup "baseline" o)))
is_acs_suite v = false

plain_value : Json → Option Json
unfolding is_one is_string lookup
plain_value (object o) =
    if is_one (lookup "version" o) && is_string (lookup "id" o) then some (object o) else none
plain_value v = none

-- The value where it is a suite.
unfoldable pub parse_evaluation_suite : Option Json → Option Json
unfolding is_acs_suite plain_value
parse_evaluation_suite none = none
parse_evaluation_suite (some v) = if is_acs_suite v then some v else plain_value v

-- isAcsSuite(input.suite) ? input.suite.task : undefined, for a suite of the declared type
unfoldable pub suite_task : Option Suite → Option AcsTask
suite_task (some (acs_suite acs)) =
    if eqb acs.version 1 && not (acs.task.objective == "") then some acs.task else none
suite_task _ = none

task_part : (AcsTask → Option (List String)) → Option AcsTask → Option (List String)
task_part part none = none
task_part part (some task) = part task

-- "key" in input.suite ? input.suite[key] : undefined
suite_part : (EvaluationSuite → Option (List String)) → Option Suite → Option (List String)
suite_part part (some (plain_suite plain)) = part plain
suite_part part _ = none

-- a ?? b
abbrev first_given {ℓ} : {A : Type ℓ} → Option A → Option A → Option A
first_given none other = other
first_given (some a) other = some a

unfoldable pub expected_tools_of : Option Suite → List String
unfolding suite_task task_part suite_part
expected_tools_of suite =
    or_default
      (first_given (task_part (λ (t : AcsTask). t.expected_tools) (suite_task suite))
        (suite_part (λ (s : EvaluationSuite). s.expected_tools) suite))
      []

unfoldable pub required_evidence_of : Task → Option Suite → List String
unfolding suite_task task_part suite_part
required_evidence_of task suite =
    or_default task.evidence_requirements []
    ++ (or_default (task_part (λ (t : AcsTask). t.required_evidence) (suite_task suite)) []
        ++ or_default (suite_part (λ (s : EvaluationSuite). s.required_evidence) suite) [])

unfoldable pub prohibited_of : Task → Option Suite → List String
unfolding suite_task task_part
prohibited_of task suite =
    or_default
      (first_given task.prohibited_actions
        (task_part (λ (t : AcsTask). t.prohibited_actions) (suite_task suite)))
      []

budget_tokens : Option HarnessBudget → Option ℕ
budget_tokens none = none
budget_tokens (some budget) = budget.max_tokens

target_tokens : Option AcsTask → Option ℕ
target_tokens none = none
target_tokens (some task) = task.target_tokens

unfoldable pub max_tokens_of : Task → Option Suite → Option ℕ
unfolding budget_tokens target_tokens suite_task
max_tokens_of task suite =
    first_given (budget_tokens task.budget) (target_tokens (suite_task suite))

unfoldable pub within_budget : Option ℕ → Option ℕ → Bool
within_budget (some tokens) (some max_tokens) = leb tokens max_tokens
within_budget _ _ = true

is_object : Json → Bool
is_object (object o) = true
is_object v = false

type_matches : Option Json → Json → Bool
unfolding is_object is_array is_string
type_matches (some (string s)) output =
    if s == "object"
    then is_object output
    else if s == "array"
    then is_array (some output)
    else if s == "string"
    then is_string (some output)
    else if s == "number"
    then elim output [ number negative digits scale ↦ true | _ ↦ false ]
    else true
type_matches _ output = true

-- An output is there always.
unfoldable pub matches_schema : Json → Option Json → Bool
unfolding type_matches lookup
matches_schema output (some (object o)) = type_matches (lookup "type" o) output
matches_schema output _ = true

unfoldable pub tools_pass : (used expected prohibited : List String) → Bool
tools_pass used expected prohibited =
    not (any (λ tool. includes prohibited tool) used) && every (λ tool. includes used tool) expected

abbrev statuses : List InvocationStatus
statuses =
    InvocationStatus.succeeded ∷ InvocationStatus.partial ∷ InvocationStatus.failed
    ∷ InvocationStatus.suspended ∷ []

-- STATUSES.includes(status)
is_status : InvocationStatus → Bool
unfolding status_text
is_status status = any (λ s. status_text s == status_text status) statuses

unfoldable pub check : CheckPhase → String → Bool → String → EvaluationCheck
check phase id passed detail = record {
  phase = phase;
  id = id;
  passed = passed;
  detail = some detail;
}

unfoldable pub is_deterministic : EvaluationCheck → Bool
is_deterministic c = elim c.phase [ CheckPhase.judge_phase ↦ false | _ ↦ true ]

module _ (lower : String → String) (stringify : Json → String) (evidence_text : List Json → String)
    (show : ℕ → String) where
  -- A requirement stands in the output or in the evidence.
  unfoldable pub is_evidenced : EvaluateRunInput → String → Bool
  unfolding contains
  is_evidenced input item =
      contains lower stringify show (stringify input.result.output) item
      || contains lower stringify show (evidence_text input.envelope.evidence) item

  unfoldable pub task_evaluation : EvaluateRunInput → EvaluationReceipt
  unfolding evaluate_invocation
  task_evaluation input =
      evaluate_invocation lower stringify show input.task input.result.status input.result.output
        input.tool_calls

  unfoldable pub deterministic_checks : EvaluateRunInput → List EvaluationCheck
  unfolding check joined joined_or_ok is_nil is_status status_text within_budget matches_schema
      tools_pass task_evaluation is_evidenced expected_tools_of required_evidence_of prohibited_of
      max_tokens_of
  deterministic_checks input =
      let task_eval = task_evaluation input in
      let required = required_evidence_of input.task input.suite in
      let root = input.dependencies.root in
      check CheckPhase.contract "policy" (is_nil task_eval.prohibited_violations)
        (joined_or_ok task_eval.prohibited_violations)
      ∷ check CheckPhase.contract "terminal" (is_status input.result.status)
          (status_text input.result.status)
      ∷ check CheckPhase.contract "budget"
          (within_budget input.result.tokens (max_tokens_of input.task input.suite))
          (show (or_default input.result.tokens 0))
      ∷ check CheckPhase.contract "schema"
          (matches_schema input.result.output input.task.output_schema) "output"
      ∷ check CheckPhase.artifact "dependencyRoot"
          (not (root == "") && root == input.envelope.dependency_root) root
      ∷ check CheckPhase.artifact "evidenceReceipt" (not (is_nil input.evidence_receipts))
          (show (length input.evidence_receipts))
      ∷ check CheckPhase.artifact "tools"
          (tools_pass input.tool_calls (expected_tools_of input.suite)
            (prohibited_of input.task input.suite))
          (joined input.tool_calls)
      ∷ check CheckPhase.task_phase "successCriteria"
          (eqb (length task_eval.success_criteria_matched) (length input.task.success_criteria))
          (show (length task_eval.success_criteria_matched)
            ^^ ("/" ^^ show (length input.task.success_criteria)))
      ∷ check CheckPhase.task_phase "evidence"
          (is_nil required || every (is_evidenced input) required) (joined required)
      ∷ []

  judged :
      Option (Task → Json → ContextEnvelope → Result String SemanticJudgeRecord)
      → EvaluateRunInput
      → Result String (Option SemanticJudgeRecord)
  judged none input = ok none
  judged (some judge) input =
      judge input.task input.result.output input.envelope >>= (λ verdict. ok (some verdict))

  judge_checks : Option SemanticJudgeRecord → List EvaluationCheck
  unfolding check
  judge_checks none = []
  judge_checks (some judge) =
      check CheckPhase.judge_phase "semantic" judge.passed
        (or_default judge.notes "external-effect")
      ∷ []

  -- What is returned once the judge, if there is one, has returned.
  receipt_with : EvaluateRunInput → Option SemanticJudgeRecord → EvaluationReceipt
  unfolding task_evaluation deterministic_checks judge_checks is_deterministic is_nil
  receipt_with input judge =
      let task_eval = task_evaluation input in
      let checks = deterministic_checks input ++ judge_checks judge in
      record {
        status =
            if is_nil task_eval.prohibited_violations
            then input.result.status
            else InvocationStatus.failed;
        success_criteria_matched = task_eval.success_criteria_matched;
        prohibited_violations = task_eval.prohibited_violations;
        passed = every (λ (c : EvaluationCheck). c.passed) (filter is_deterministic checks);
        checks = checks;
        judge = judge;
      }

  unfoldable pub evaluate_run : EvaluateRunInput → Result String EvaluationReceipt
  unfolding judged receipt_with
  evaluate_run input = judged input.judge input >>= (λ judge. ok (receipt_with input judge))
