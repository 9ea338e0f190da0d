-- ===== src/Harness/Lifecycle.antt =====
-- packages/agents/src/harness/lifecycle.ts and packages/agents/src/harness/task.ts: what is asked of a task
-- before a run, and how its result is judged. `lower` is `toLowerCase`, `stringify` is `stringifyOutput` and
-- `show` the text of a number.
pub mod Judged
use knolo_agents.Base.{
  ℕ, String, Bool, true, false, not, ◌&&◌, ◌||◌, Option, none, some, List, [], ◌∷◌, length, every,
  filter, includes, eqb, Result, ok, err, ◌>>◌, require, ◌==◌, if◌then◌else◌,
}
use knolo_agents.Base.Text.{◌^^◌, text_includes}
use knolo_agents.Contracts.Values.{Json}
use knolo_agents.Builder.{or_default}
use knolo_agents.Builder.Identifier.{is_identifier}
use knolo_agents.Builder.Validate.{is_positive_safe}
use knolo_agents.Dependencies.Root.{is_blank}
use knolo_agents.Recovery.Classify.{is_failed}
use knolo_agents.Harness.Types.{
  HarnessError, tools_unsupported, resume_unsupported, objective_missing, criteria_missing,
  criterion_blank, task_id_invalid, budget_not_positive, AgentCapabilities, HarnessBudget, Task,
  ContextEnvelope, CheckPhase, InvocationStatus, EvaluationCheck, EvaluationReceipt,
}

required_of : Task → List String
required_of task = or_default task.required_capabilities []

-- The first argument are the adapter's capabilities.
unfoldable pub assert_adapter_supports_task :
    AgentCapabilities → Task → Result HarnessError (Unit {0})
unfolding required_of
assert_adapter_supports_task capabilities task =
    require (not (includes (required_of task) "tools" && not capabilities.tools)) tools_unsupported
    >> require (not (includes (required_of task) "resume" && not capabilities.resume))
        resume_unsupported

unfoldable pub empty_envelope : Task → AgentCapabilities → HarnessBudget → String → ContextEnvelope
empty_envelope task capabilities budget dependency_root = record {
  task = task;
  evidence = [];
  memories = [];
  skills = [];
  constraints = or_default task.constraints [];
  capabilities = capabilities;
  budget = budget;
  dependency_root = dependency_root;
  receipts = [];
}

unfoldable pub is_nil : List String → Bool
is_nil [] = true
is_nil (x ∷ xs) = false

check_task_id : Option String → Result HarnessError (Unit {0})
unfolding is_identifier
check_task_id none = ok tt
check_task_id (some id) = require (is_identifier id) (task_id_invalid id)

-- A limit that is given is a positive safe integer.
abbrev pub fits_limit : Option ℕ → Bool
fits_limit none = true
fits_limit (some n) = is_positive_safe n

check_budget : Option HarnessBudget → Result HarnessError (Unit {0})
check_budget none = ok tt
check_budget (some b) =
    require
      (fits_limit b.max_steps
        && (fits_limit b.max_tokens && (fits_limit b.max_cost_micros && fits_limit b.timeout_ms)))
      budget_not_positive

unfoldable pub validate_task : Task → Result HarnessError Task
unfolding is_blank is_nil check_task_id check_budget
validate_task task =
    require (not (is_blank task.objective)) objective_missing
    >> (require (not (is_nil task.success_criteria)) criteria_missing
        >> (require (every (λ c. not (is_blank c)) task.success_criteria) criterion_blank
            >> (check_task_id task.id >> (check_budget task.budget >> ok task))))

join_from : String → List String → String
join_from joined [] = joined
join_from joined (x ∷ xs) = join_from (joined ^^ ("," ^^ x)) xs

unfoldable pub joined : List String → String
unfolding join_from
joined [] = ""
joined (x ∷ xs) = join_from x xs

-- xs.join(",") || "ok"
unfoldable pub joined_or_ok : List String → String
unfolding joined
joined_or_ok xs = if joined xs == "" then "ok" else joined xs

module _ (lower : String → String) (stringify : Json → String) (show : ℕ → String) where
  unfoldable pub contains : String → String → Bool
  unfolding text_includes
  contains haystack needle = text_includes (lower haystack) (lower needle)

  unfoldable pub violations_of : Task → String → List String → List String
  unfolding contains
  violations_of task text tool_calls =
      filter (λ action. contains text action || includes tool_calls action)
        (or_default task.prohibited_actions [])

  unfoldable pub matched_of : Task → String → List String
  unfolding contains
  matched_of task text = filter (λ criterion. contains text criterion) task.success_criteria

  receipt_of : Task → InvocationStatus → List String → List String → EvaluationReceipt
  unfolding joined_or_ok is_nil is_failed
  receipt_of task status matched violations = record {
    status = if is_nil violations then status else InvocationStatus.failed;
    success_criteria_matched = matched;
    prohibited_violations = violations;
    passed = is_nil violations && not (is_failed status);
    checks =
        record {
          phase = CheckPhase.contract;
          id = "policy";
          passed = is_nil violations;
          detail = some (joined_or_ok violations);
        }
        ∷ record {
          phase = CheckPhase.task_phase;
          id = "successCriteria";
          passed = eqb (length matched) (length task.success_criteria);
          detail = some (show (length matched) ^^ ("/" ^^ show (length task.success_criteria)));
        }
        ∷ [];
    judge = none;
  }

  unfoldable pub evaluate_invocation :
      Task → InvocationStatus → Json → List String → EvaluationReceipt
  unfolding receipt_of matched_of violations_of
  evaluate_invocation task status output tool_calls =
      receipt_of task status (matched_of task (stringify output))
        (violations_of task (stringify output) tool_calls)
