-- ===== src/Evaluation/Types.antt =====
-- packages/agents/src/evaluation/types.ts, and the suites of packages/agents/src/evaluation/acs.ts.
use knolo_agents.Base.{ℕ, String, Bool, Option, List, Result}
use knolo_agents.Contracts.Values.{Json}
use knolo_agents.Dependencies.Root.{HarnessDependencyRoot}
use knolo_agents.Harness.Types.{
  AgentInvocationResult, ContextEnvelope, InvocationStatus, SemanticJudgeRecord, Task,
}

pub record AcsRecordedRun : Type 0 where
  pub output : String
  pub tool_calls : Option (List String)
  pub status : Option InvocationStatus
  pub tokens : Option ℕ
  pub latency_ms : Option ℕ

pub record AcsTask : Type 0 where
  pub objective : String
  pub success_criteria : List String
  pub required_evidence : Option (List String)
  pub expected_tools : Option (List String)
  pub prohibited_actions : Option (List String)
  pub target_tokens : Option ℕ
  pub injected_failure : Option String

pub record AcsSuite : Type 0 where
  pub version : ℕ
  pub id : String
  pub task : AcsTask
  pub baseline : AcsRecordedRun

pub record EvaluationSuite : Type 0 where
  pub version : ℕ
  pub id : String
  pub expected_tools : Option (List String)
  pub required_evidence : Option (List String)
  pub target_tokens : Option ℕ
  pub injected_failure : Option String
  pub baseline : Option AcsRecordedRun
  pub judge_required : Option Bool

-- `EvaluationSuiteV1 | AcsSuiteV1`
pub data Suite : Type 0 where
  plain_suite : (plain : EvaluationSuite) → Suite
  acs_suite : (acs : AcsSuite) → Suite

-- `judge` is a function of the caller, which may throw; what it throws is its text.
pub record EvaluateRunInput : Type 0 where
  pub task : Task
  pub result : AgentInvocationResult
  pub tool_calls : List String
  pub envelope : ContextEnvelope
  pub dependencies : HarnessDependencyRoot
  pub evidence_receipts : List String
  pub suite : Option Suite
  pub judge : Option (Task → Json → ContextEnvelope → Result String SemanticJudgeRecord)
