-- ===== src/Harness/Types.antt =====
-- packages/agents/src/harness/types.ts: what the parts of the harness hand to one another.
use knolo_agents.Base.{ℕ, String, Bool, Option, List}
use knolo_agents.Contracts.Values.{Json}

-- `HarnessError`, one constructor for each message of the modelled parts.
pub data HarnessError : Type 0 where
  recovery_not_a_policy max_retries_invalid unknown_strategy : HarnessError
  max_chars_not_positive max_tokens_not_positive : HarnessError
  required_exceeds_budget : (id : String) (needed available : ℕ) → HarnessError
  dependency_name_missing : HarnessError
  dependency_version_missing dependency_digest_invalid : (name : String) → HarnessError
  dependencies_frozen : HarnessError
  tools_unsupported resume_unsupported : HarnessError
  objective_missing criteria_missing criterion_blank : HarnessError
  task_id_invalid : (id : String) → HarnessError
  budget_not_positive : HarnessError
  duplicate_pack : (pack : String) → HarnessError
  duplicate_skill : (skill : String) → HarnessError
  pack_metadata_not_object pack_metadata_without_id : HarnessError
  skill_version_not_one : HarnessError
  skill_id_invalid skill_without_version skill_without_instructions :
      (skill : String) → HarnessError
  provenance_not_local provenance_pack_invalid content_hash_mismatch :
      (skill : String) → HarnessError
  pinned_skill_missing pinned_skill_denied : (skill : String) → HarnessError
  publish_not_disabled min_usefulness_invalid max_records_invalid : HarnessError
  allowlist_missing : HarnessError
  remember_failed : (message : String) → HarnessError

pub data AssuranceLevel : Type 0 where
  l0 l1 l2 l3 platform : AssuranceLevel

pub record AgentCapabilities : Type 0 where
  pub version : ℕ
  pub level : AssuranceLevel
  pub tools : Bool
  pub resume : Bool
  pub observe : Bool
  pub interrupt : Bool
  pub limitations : List String

pub data InvocationStatus : Type 0 where
  succeeded partial failed suspended : InvocationStatus

unfoldable pub status_text : InvocationStatus → String
status_text InvocationStatus.succeeded = "succeeded"
status_text InvocationStatus.partial = "partial"
status_text InvocationStatus.failed = "failed"
status_text InvocationStatus.suspended = "suspended"

pub record AgentInvocationResult : Type 0 where
  pub status : InvocationStatus
  pub output : Json
  pub error : Option String
  pub tool_calls : Option (List String)
  pub tokens : Option ℕ
  pub events : Option (List Json)

pub record HarnessBudget : Type 0 where
  pub max_steps : Option ℕ
  pub max_tokens : Option ℕ
  pub max_cost_micros : Option ℕ
  pub timeout_ms : Option ℕ

pub record Constraint : Type 0 where
  pub id : String
  pub description : String

pub record Task : Type 0 where
  pub id : Option String
  pub objective : String
  pub inputs : Option Json
  pub constraints : Option (List Constraint)
  pub success_criteria : List String
  pub required_capabilities : Option (List String)
  pub preferred_skills : Option (List String)
  pub prohibited_actions : Option (List String)
  pub budget : Option HarnessBudget
  pub deadline_ms : Option ℕ
  pub output_schema : Option Json
  pub evidence_requirements : Option (List String)

pub record ContextEnvelope : Type 0 where
  pub task : Task
  pub evidence : List Json
  pub memories : List Json
  pub skills : List Json
  pub constraints : List Constraint
  pub capabilities : AgentCapabilities
  pub budget : HarnessBudget
  pub dependency_root : String
  pub receipts : List String

pub data CheckPhase : Type 0 where
  contract artifact task_phase judge_phase : CheckPhase

pub record EvaluationCheck : Type 0 where
  pub phase : CheckPhase
  pub id : String
  pub passed : Bool
  pub detail : Option String

pub record SemanticJudgeRecord : Type 0 where
  pub passed : Bool
  pub model : Option String
  pub notes : Option String

pub record EvaluationReceipt : Type 0 where
  pub status : InvocationStatus
  pub success_criteria_matched : List String
  pub prohibited_violations : List String
  pub passed : Bool
  pub checks : List EvaluationCheck
  pub judge : Option SemanticJudgeRecord
