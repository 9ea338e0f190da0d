-- ===== src/Tests/Judged.antt =====
-- The judgement of a run and the context that is compiled for it.
use knolo_agents.Base.{
  ℕ, String, false, true, ◌≡◌, refl, none, some, [], ◌∷◌, ok, err, Result, Bool,
}
use knolo_agents.Base.Sort.{text_le}
use knolo_agents.Contracts.Values.{Json, string, object, field, end}
use knolo_agents.Harness.Types.{
  AgentCapabilities, AssuranceLevel, ContextEnvelope, InvocationStatus, Task, SemanticJudgeRecord,
  EvaluationReceipt,
}
use knolo_agents.Evaluation.Types.{EvaluateRunInput}
use knolo_agents.Evaluation.Suite.{evaluate_run}
use knolo_agents.Evaluation.Suite.Passed.{IsEvaluated, evaluate_run-passed}
use knolo_agents.Context.Budget.{Decimal, evidence, constraint}
use knolo_agents.Context.Types.{EvidenceItem, absent, listed, ContextSelectionReceipt}
use knolo_agents.Context.Compiler.{CompileContextInput, CompiledContext, compile_context}
use knolo_agents.Context.Compiler.Kept.{IsCompiled, compile_context-IsCompiled}

abbrev gate : AgentCapabilities
gate = record {
  version = 1;
  level = AssuranceLevel.l2;
  tools = true;
  resume = false;
  observe = false;
  interrupt = false;
  limitations = [];
}

abbrev summing : Task
summing = record {
  id = none;
  objective = "sum up";
  inputs = none;
  constraints = some (record { id = "brief"; description = "be brief" } ∷ []);
  success_criteria = "summed" ∷ [];
  required_capabilities = none;
  preferred_skills = none;
  prohibited_actions = some ("sign" ∷ []);
  budget = none;
  deadline_ms = none;
  output_schema = none;
  evidence_requirements = some ("statute" ∷ []);
}

abbrev sum_envelope : ContextEnvelope
sum_envelope = record {
  task = summing;
  evidence = [];
  memories = [];
  skills = [];
  constraints = [];
  capabilities = gate;
  budget = record {
    max_steps = none;
    max_tokens = none;
    max_cost_micros = none;
    timeout_ms = none;
  };
  dependency_root = "root";
  receipts = [];
}

-- A judge that objects to everything.
abbrev strict_judge : Task → Json → ContextEnvelope → Result String SemanticJudgeRecord
strict_judge task output envelope = ok (record { passed = false; model = none; notes = none })

abbrev sum_run : EvaluateRunInput
sum_run = record {
  task = summing;
  result = record {
    status = InvocationStatus.succeeded;
    output = string "summed by statute";
    error = none;
    tool_calls = none;
    tokens = none;
    events = none;
  };
  tool_calls = [];
  envelope = sum_envelope;
  dependencies = record { version = 1; algorithm = "sha256"; dependencies = []; root = "root" };
  evidence_receipts = "receipt" ∷ [];
  suite = none;
  judge = some strict_judge;
}

abbrev text_of_output : Json → String
text_of_output output = "summed by statute"

abbrev passes : Result String EvaluationReceipt → Bool
passes result = elim result [ ok receipt ↦ receipt.passed | err message ↦ false ]

abbrev evaluated : EvaluateRunInput → Result String EvaluationReceipt
evaluated = evaluate_run (λ text. text) text_of_output (λ evidence. "[]") (λ n. "n")

sum_passes : passes (evaluated sum_run) ≡ true
unfolding evaluate_run
sum_passes = refl

-- A judge that throws makes the evaluation throw.
sum_throws :
    evaluated (record sum_run { judge = some (λ task output envelope. err "no model") })
    ≡ err "no model"
unfolding evaluate_run
sum_throws = refl

evaluate_run-passed_example :
    IsEvaluated
      (λ text. text)
      text_of_output
      (λ evidence. "[]")
      (λ n. "n")
      sum_run
      (evaluate_run (λ text. text) text_of_output (λ evidence. "[]") (λ n. "n") sum_run)
evaluate_run-passed_example =
    evaluate_run-passed (λ text. text) text_of_output (λ evidence. "[]") (λ n. "n") sum_run

abbrev statute_item : EvidenceItem
statute_item = record {
  id = "statute";
  text = "the statute applies";
  source_id = none;
  required = none;
  score = none;
}

abbrev sum_input : CompileContextInput
sum_input = record {
  task = summing;
  capabilities = gate;
  budget = sum_envelope.budget;
  dependency_root = "root";
  evidence = listed (statute_item ∷ []);
  memories = absent;
  skills = none;
  context_budget = none;
  semantic_rerank = none;
  semantic_rerank_model = none;
}

abbrev zero : Decimal
zero = record { negative = false; digits = 0; scale = 0 }

abbrev hit_count : ℕ → ℕ → ℕ
hit_count hits terms = hits

abbrev sum_digest : ContextSelectionReceipt → String
sum_digest receipt = "digest"

abbrev sum_context : CompiledContext
sum_context = record {
  envelope = record sum_envelope {
    evidence =
        object (field "id" (string "statute") (field "text" (string "the statute applies") end))
        ∷ [];
    constraints = record { id = "brief"; description = "be brief" } ∷ [];
    receipts = "digest" ∷ [];
  };
  selection = record {
    version = 1;
    query = "sum up";
    lexical = true;
    selected =
        record { kind = evidence; id = "statute"; chars = 19; score = zero; required = true }
        ∷ record { kind = constraint; id = "brief"; chars = 8; score = zero; required = true }
        ∷ [];
    dropped = [];
    max_chars = 9007199254740991;
    used_chars = 27;
    semantic_rerank = none;
  };
  selection_root = "digest";
}

sum_compiled :
    compile_context (λ text. text) hit_count text_le sum_digest sum_input ≡ ok sum_context
unfolding compile_context
sum_compiled = refl

compile_context-IsCompiled_example :
    IsCompiled (λ text. text) hit_count text_le sum_digest sum_input sum_context
compile_context-IsCompiled_example =
    compile_context-IsCompiled (λ text. text) hit_count text_le sum_digest sum_input sum_context
      sum_compiled
