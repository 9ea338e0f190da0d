-- ===== src/Skills/Types.antt =====
-- packages/agents/src/skills/types.ts.
use knolo_agents.Base.{ℕ, String, Bool, Option, List}
use knolo_agents.Contracts.Values.{Json}

pub record SkillProvenance : Type 0 where
  pub source : String
  pub pack_id : String
  pub digest : Option String
  pub publisher : Option String

pub record SkillSchemas : Type 0 where
  pub input : Option Json
  pub output : Option Json

-- `SkillDefinitionInputV1`; a definition with its hash is one whose `content_hash` is there.
pub record SkillDefinitionInput : Type 0 where
  pub version : ℕ
  pub id : String
  pub skill_version : String
  pub name : Option String
  pub triggers : List String
  pub domains : List String
  pub schemas : Option SkillSchemas
  pub instructions : String
  pub required_capabilities : List String
  pub required_tools : List String
  pub knowledge_refs : List String
  pub provenance : SkillProvenance
  pub content_hash : Option String

-- `SkillDefinitionV1`
pub record SkillDefinition : Type 0 where
  pub body : SkillDefinitionInput
  pub content_hash : String

pub data RegistryMode : Type 0 where
  disabled discover acquire_approved acquire_any_verified : RegistryMode

pub data PublishPolicy : Type 0 where
  propose_only disabled authorized : PublishPolicy

pub record SkillTrustPolicy : Type 0 where
  pub registry : RegistryMode
  pub allowlist : Option (List String)
  pub publish : Option PublishPolicy

pub data SkillResolutionMode : Type 0 where
  none local auto : SkillResolutionMode

pub data SkillRejectReason : Type 0 where
  authority missing hash policy : SkillRejectReason

pub data SkillAcquisitionDecision : Type 0 where
  staged discover skipped : SkillAcquisitionDecision

pub record SkillAcquisitionCandidate : Type 0 where
  pub name : String
  pub version : String
  pub sha256 : String
  pub score : ℕ
  pub decision : SkillAcquisitionDecision
  pub reason : Option String

pub record SkillAcquisitionStaged : Type 0 where
  pub name : String
  pub version : String
  pub sha256 : String

pub record SkillAcquisitionReceipt : Type 0 where
  pub version : ℕ
  pub registry : RegistryMode
  pub publish : PublishPolicy
  pub gaps : List String
  pub missing_skills : List String
  pub queried : Bool
  pub pulled : Bool
  pub staged : List SkillAcquisitionStaged
  pub candidates : List SkillAcquisitionCandidate

pub record SkillRank : Type 0 where
  pub id : String
  pub score : ℕ

pub record SkillSelected : Type 0 where
  pub id : String
  pub skill_version : String
  pub pack_id : String
  pub score : ℕ
  pub required : Bool
  pub content_hash : String

pub record SkillRejected : Type 0 where
  pub id : String
  pub reason : SkillRejectReason

pub record SkillAuthority : Type 0 where
  pub capabilities : List String
  pub tools : List String

pub record SkillSelectionReceipt : Type 0 where
  pub version : ℕ
  pub query : String
  pub resolution : SkillResolutionMode
  pub registry : RegistryMode
  pub selected : List SkillSelected
  pub rejected : List SkillRejected
  pub candidates : List SkillRank
  pub authority : SkillAuthority
  pub acquisition : SkillAcquisitionReceipt
