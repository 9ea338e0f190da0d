-- ===== src/Experience/Types.antt =====
-- packages/agents/src/experience/types.ts.
use knolo_agents.Base.{ℕ, String, Bool, Option, List}
use knolo_agents.Contracts.Values.{Json}
use knolo_agents.Harness.Types.{InvocationStatus, Task}
use knolo_agents.Skills.Types.{SkillDefinitionInput, SkillDefinition}

pub data ExperiencePromoteMode : Type 0 where
  disabled require_approval auto_approved : ExperiencePromoteMode

-- `publish` is asked for by its text.
pub record ExperiencePolicy : Type 0 where
  pub enabled : Option Bool
  pub promote : Option ExperiencePromoteMode
  pub min_usefulness : Option ℕ
  pub publish : Option String
  pub max_records : Option ℕ

pub record ExperienceRecord : Type 0 where
  pub version : ℕ
  pub id : String
  pub run_id : String
  pub sequence : ℕ
  pub pattern_key : String
  pub objective : String
  pub success_criteria : List String
  pub status : InvocationStatus
  pub useful : Bool
  pub text : String
  pub skill_ids : List String
  pub required_capabilities : List String
  pub evidence_ids : List String
  pub dependency_root : String
  pub success_criteria_matched : List String
  pub prohibited_violations : List String
  pub labels : List String

-- `run_ids` are those of the provenance, whose source is always local.
pub record LessonCandidate : Type 0 where
  pub version : ℕ
  pub id : String
  pub pattern_key : String
  pub objective : String
  pub success_criteria : List String
  pub experience_ids : List String
  pub usefulness : ℕ
  pub skill_ids : List String
  pub required_capabilities : List String
  pub run_ids : List String

pub record PromotionGates : Type 0 where
  pub usefulness : Bool
  pub evaluation : Bool
  pub provenance : Bool
  pub approval : Bool

pub data CandidateStatus : Type 0 where
  candidate promoted rejected : CandidateStatus

pub record SkillCandidate : Type 0 where
  pub version : ℕ
  pub id : String
  pub lesson_id : String
  pub skill : SkillDefinitionInput
  pub gates : PromotionGates
  pub status : CandidateStatus

pub record ExperienceReceipt : Type 0 where
  pub version : ℕ
  pub recorded : Bool
  pub experience_id : Option String
  pub lesson_id : Option String
  pub candidate_id : Option String
  pub promoted : Bool
  pub gates : Option PromotionGates

pub record ExperienceSnapshot : Type 0 where
  pub records : List ExperienceRecord
  pub lessons : List LessonCandidate
  pub candidates : List SkillCandidate
  pub promoted : List SkillDefinition

pub record RecordExperienceInput : Type 0 where
  pub run_id : String
  pub task : Task
  pub status : InvocationStatus
  pub output : Json
  pub success_criteria_matched : List String
  pub prohibited_violations : List String
  pub skill_ids : Option (List String)
  pub evidence_ids : Option (List String)
  pub dependency_root : String
  pub labels : Option (List String)
