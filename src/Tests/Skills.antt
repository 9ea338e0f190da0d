-- ===== src/Tests/Skills.antt =====
-- An index with one pack, from which a pinned skill is resolved.
use knolo_agents.Base.{ℕ, String, false, true, ◌≡◌, refl, inl, none, some, [], ◌∷◌, ok, Has}
use knolo_agents.Base.Sort.{text_le}
use knolo_agents.Capabilities.Authority.{EffectiveAuthority}
use knolo_agents.Capabilities.Index.{
  CapabilityMetadata, CapabilityRole, CapabilityIndex, empty, change_all, adding, trying,
}
use knolo_agents.Capabilities.Index.Sound.{IsIndexed, change_all-IsIndexed}
use knolo_agents.Harness.Types.{Task}
use knolo_agents.Skills.Types.{
  SkillDefinitionInput, SkillDefinition, SkillSelected, RegistryMode, PublishPolicy,
  SkillResolutionMode,
}
use knolo_agents.Skills.Definition.{normalize_skill_definition}
use knolo_agents.Skills.Definition.Shape.{IsNormal, normalize_skill_definition-IsNormal}
use knolo_agents.Skills.Resolver.{
  ResolveSkillsInput, ResolvedSkills, resolve_skills, resolve_indexed,
}
use knolo_agents.Skills.Resolver.Chosen.{IsChosen, resolve_skills-IsChosen}
use knolo_agents.Skills.Resolver.Pinned.{resolve_indexed-pinned}

abbrev reading : SkillDefinitionInput
reading = record {
  version = 1;
  id = "acme/read";
  skill_version = "1.0.0";
  name = none;
  triggers = "read" ∷ [];
  domains = [];
  schemas = none;
  instructions = "Read the file.";
  required_capabilities = "files" ∷ [];
  required_tools = [];
  knowledge_refs = [];
  provenance = record {
    source = "local-pack";
    pack_id = "acme/pack";
    digest = none;
    publisher = none;
  };
  content_hash = none;
}

abbrev acme_pack : CapabilityMetadata
acme_pack = record {
  version = 1;
  pack_id = "acme/pack";
  digest = none;
  role = CapabilityRole.skill;
  capabilities = "files" ∷ [];
  tools = [];
  namespaces = [];
  skills = reading ∷ [];
  license = none;
}

abbrev one_hash : SkillDefinitionInput → String
one_hash input = "hash"

abbrev read_skill : SkillDefinition
read_skill = record { body = reading; content_hash = "hash" }

normal_reading : normalize_skill_definition one_hash reading ≡ ok read_skill
unfolding normalize_skill_definition
normal_reading = refl

normalize_skill_definition-IsNormal_example : IsNormal one_hash reading read_skill
normalize_skill_definition-IsNormal_example =
    normalize_skill_definition-IsNormal one_hash reading read_skill normal_reading

abbrev acme_index : CapabilityIndex
acme_index = change_all (adding acme_pack ∷ []) empty

change_all-IsIndexed_example :
    IsIndexed (change_all (adding acme_pack ∷ trying acme_pack ∷ []) empty)
change_all-IsIndexed_example = change_all-IsIndexed (adding acme_pack ∷ trying acme_pack ∷ [])

abbrev read_a_file : Task
read_a_file = record {
  id = none;
  objective = "read a file";
  inputs = none;
  constraints = none;
  success_criteria = "file read" ∷ [];
  required_capabilities = some ("files" ∷ []);
  preferred_skills = some ("acme/read" ∷ []);
  prohibited_actions = none;
  budget = none;
  deadline_ms = none;
  output_schema = none;
  evidence_requirements = none;
}

abbrev files_only : EffectiveAuthority
files_only = record { capabilities = "files" ∷ []; tools = []; namespaces = [] }

abbrev read_input : ResolveSkillsInput
read_input = record {
  task = read_a_file;
  index = acme_index;
  authority = files_only;
  trust = none;
  resolution = none;
}

abbrev read_selected : SkillSelected
read_selected = record {
  id = "acme/read";
  skill_version = "1.0.0";
  pack_id = "acme/pack";
  score = 1001002;
  required = true;
  content_hash = "hash";
}

abbrev read_result : ResolvedSkills
read_result = record {
  items =
      record {
        id = "acme/read";
        text = "Read the file.";
        required = true;
        score = 1001002;
        source_id = some "acme/pack";
      }
      ∷ [];
  receipt = record {
    version = 1;
    query = "read a file";
    resolution = SkillResolutionMode.local;
    registry = RegistryMode.disabled;
    selected = read_selected ∷ [];
    rejected = [];
    candidates = record { id = "acme/read"; score = 1001002 } ∷ [];
    authority = record { capabilities = "files" ∷ []; tools = [] };
    acquisition = record {
      version = 1;
      registry = RegistryMode.disabled;
      publish = PublishPolicy.propose_only;
      gaps = [];
      missing_skills = [];
      queried = false;
      pulled = false;
      staged = [];
      candidates = [];
    };
  };
}

-- Every word of the query that stands in the text counts one.
abbrev hits_only : ℕ → ℕ → ℕ
hits_only hits terms = hits

resolved_read : resolve_skills (λ text. text) hits_only text_le one_hash read_input ≡ ok read_result
unfolding resolve_skills change_all empty
resolved_read = refl

resolve_skills-IsChosen_example :
    IsChosen (λ text. text) hits_only text_le one_hash read_input read_selected
resolve_skills-IsChosen_example =
    resolve_skills-IsChosen (λ text. text) hits_only text_le one_hash read_input read_result
      resolved_read read_selected (inl refl)

indexed_read :
    resolve_indexed
      (λ text. text)
      hits_only
      text_le
      one_hash
      read_input
      RegistryMode.disabled
      PublishPolicy.propose_only
      SkillResolutionMode.local
    ≡ ok read_result
unfolding resolve_indexed change_all empty
indexed_read = refl

resolve_indexed-pinned_example :
    (s : SkillSelected) × Has s read_result.receipt.selected
    × (s.id ≡ "acme/read")
    × (s.required ≡ true)
resolve_indexed-pinned_example =
    resolve_indexed-pinned (λ text. text) hits_only text_le one_hash read_input
      PublishPolicy.propose_only SkillResolutionMode.local read_result
      (change_all-IsIndexed (adding acme_pack ∷ [])) indexed_read "acme/read" refl
