-- ===== src/Tests/Parts.antt =====
-- The theorems of the context, the dependencies, the handoffs and the judgement on concrete inputs.
use knolo_agents.Base.{
  ℕ, String, ◌≡◌, ◌↔◌, refl, true, false, Option, none, some, List, [], ◌∷◌, Result, ok, err,
}
use knolo_agents.Contracts.Values.{Json, object, end}
use knolo_agents.Replay.{ArtifactHashes}
use knolo_agents.Harness.Types.{
  AgentCapabilities, AssuranceLevel, Task, InvocationStatus, HarnessError,
}
use knolo_agents.Base.Sort.{text_le}
use knolo_agents.Context.Budget.{
  ContextItemKind, Decimal, ContextBudget, RankedContextItem, BudgetPlan, apply_budget,
  max_chars_from_budget,
}
use knolo_agents.Context.Budget.Fits.{IsPlan, apply_budget-IsPlan}
use knolo_agents.Dependencies.Root.{PackDependency, PackDependencyRole, HarnessDependencyRoot}
use knolo_agents.Dependencies.Activation.{
  DependencyActivation, fresh, adding, staging, freezing, perform_all,
}
use knolo_agents.Dependencies.Activation.Frozen.{
  IsBound, Freezes, Keeps, perform_all-Keeps, perform_all-IsBound,
}
use knolo_agents.Handoff.{
  Authority, HitlSuspension, assert_narrow_authority, IsWithin, assert_narrow_authority_iff,
}
use knolo_agents.Harness.Lifecycle.{evaluate_invocation}
use knolo_agents.Harness.Lifecycle.Judged.{IsJudged, evaluate_invocation-IsJudged}

abbrev same : String → String
same text = text

abbrev one : Decimal
one = record { negative = false; digits = 1; scale = 0 }

abbrev statute : RankedContextItem
statute = record {
  kind = ContextItemKind.evidence;
  id = "statute";
  text = "the statute applies";
  score = one;
  required = true;
  source_id = none;
}

abbrev memo : RankedContextItem
memo = record {
  kind = ContextItemKind.memory;
  id = "memo";
  text = "an older memo on other matters";
  score = one;
  required = false;
  source_id = none;
}

abbrev twenty_chars : Option ContextBudget
twenty_chars = some (record {
  max_chars = some (record { negative = false; digits = 20; scale = 0 });
  max_tokens = none;
})

abbrev plan_of : Result HarnessError BudgetPlan → BudgetPlan
plan_of (ok plan) = plan
plan_of (err e) = record {
  selected = [];
  entries = [];
  dropped = [];
  selected_texts = [];
  max_chars = 0;
  used_chars = 0;
}

abbrev filled : BudgetPlan
filled = plan_of (apply_budget same (statute ∷ memo ∷ []) twenty_chars)

apply_budget-IsPlan_example :
    (max_chars : ℕ) × (max_chars_from_budget twenty_chars ≡ ok max_chars)
    × IsPlan same max_chars (statute ∷ memo ∷ []) filled
unfolding apply_budget
apply_budget-IsPlan_example =
    apply_budget-IsPlan same (statute ∷ memo ∷ []) twenty_chars filled refl

abbrev law : PackDependency
law = record {
  name = "acme/law";
  version = "1.0.0";
  sha256 = "00112233445566778899aabbccddeeff00112233445566778899aabbccddeeff";
  state_root = none;
  role = PackDependencyRole.knowledge;
}

abbrev first_name : List PackDependency → String
first_name [] = ""
first_name (d ∷ ds) = d.name

abbrev frozen_root_of : Option HarnessDependencyRoot → HarnessDependencyRoot
frozen_root_of (some root) = root
frozen_root_of none = record { version = 0; algorithm = ""; dependencies = []; root = "" }

abbrev frozen_run : DependencyActivation
frozen_run = perform_all text_le first_name (adding law ∷ freezing ∷ []) fresh

perform_all-Keeps_example :
    Keeps text_le first_name frozen_run
      (perform_all text_le first_name (adding law ∷ staging law ∷ []) frozen_run)
unfolding perform_all fresh text_le
perform_all-Keeps_example =
    perform_all-Keeps text_le first_name (adding law ∷ staging law ∷ []) frozen_run
      (frozen_root_of frozen_run.frozen_root) refl (tt, (tt, tt))

perform_all-IsBound_example :
    IsBound text_le first_name
      (perform_all text_le first_name (adding law ∷ staging law ∷ freezing ∷ []) fresh)
    × Freezes text_le first_name
        (perform_all text_le first_name (adding law ∷ staging law ∷ freezing ∷ []) fresh)
perform_all-IsBound_example =
    perform_all-IsBound text_le first_name (adding law ∷ staging law ∷ freezing ∷ [])

abbrev lead : Authority
lead = record {
  capabilities = "read" ∷ "write" ∷ [];
  namespaces = "law" ∷ [];
  max_steps = 9;
  max_cost_micros = 70;
}

abbrev clerk : Authority
clerk = record {
  capabilities = "read" ∷ [];
  namespaces = "law" ∷ [];
  max_steps = 4;
  max_cost_micros = 20;
}

assert_narrow_authority_iff_example :
    (assert_narrow_authority clerk lead lead ≡ ok tt) ↔ (IsWithin clerk lead × IsWithin clerk lead)
assert_narrow_authority_iff_example = assert_narrow_authority_iff clerk lead lead

abbrev hashes : ArtifactHashes
hashes = record { graph = "g"; pack = "p"; policy = "q"; node_implementation = "n"; contract = "c" }

abbrev suspension : HitlSuspension
suspension = record {
  version = 1;
  execution_id = "run-1";
  reason = "review";
  requested_action = "approve";
  review_context = object end;
  expires_at_ms = 100;
  resume_schema_hash = "s";
  artifact_hashes = hashes;
  token = "t";
}

abbrev gated : AgentCapabilities
gated = record {
  version = 1;
  level = AssuranceLevel.l2;
  tools = true;
  resume = false;
  observe = false;
  interrupt = false;
  limitations = [];
}

abbrev review : Task
review = record {
  id = some "review-1";
  objective = "review the contract";
  inputs = none;
  constraints = none;
  success_criteria = "approved" ∷ [];
  required_capabilities = some ("tools" ∷ []);
  preferred_skills = none;
  prohibited_actions = some ("sign" ∷ []);
  budget = none;
  deadline_ms = none;
  output_schema = none;
  evidence_requirements = none;
}

abbrev plain : Json → String
plain output = "approved"

abbrev number_text : ℕ → String
number_text n = "1"

evaluate_invocation-IsJudged_example :
    IsJudged same plain number_text review InvocationStatus.succeeded
      (object end)
      []
      (evaluate_invocation same plain number_text review InvocationStatus.succeeded (object end) [])
evaluate_invocation-IsJudged_example =
    evaluate_invocation-IsJudged same plain number_text review InvocationStatus.succeeded
      (object end) []
