-- ===== src/Tests/Acquire.antt =====
-- A task whose gap one pack of the registry closes.
use knolo_agents.Base.{String, false, ◌≡◌, refl, none, some, List, [], ◌∷◌, ok, err}
use knolo_agents.Base.Sort.{text_le}
use knolo_agents.Capabilities.Index.{CapabilityMetadata, CapabilityRole, empty}
use knolo_agents.Dependencies.Activation.{fresh}
use knolo_agents.Dependencies.Activation.Aware.{freeze_aware_pull}
use knolo_agents.Dependencies.Root.{PackDependency, PackDependencyRole}
use knolo_agents.Registry.Types.{PackBytes, PackSearchHit}
use knolo_agents.Skills.Types.{RegistryMode, SkillAcquisitionStaged, SkillDefinitionInput}
use knolo_agents.Skills.Acquire.{AcquireSkillsInput}
use knolo_agents.Skills.Acquire.Loop.{Acquired, acquire_skills}

abbrev a_digest : String
a_digest = "00112233445566778899aabbccddeeff00112233445566778899aabbccddeeff"

abbrev writing : SkillDefinitionInput
writing = record {
  version = 1;
  id = "acme/write";
  skill_version = "1.0.0";
  name = none;
  triggers = [];
  domains = [];
  schemas = none;
  instructions = "Write the file.";
  required_capabilities = "files" ∷ [];
  required_tools = [];
  knowledge_refs = [];
  provenance = record {
    source = "local-pack";
    pack_id = "acme/files";
    digest = none;
    publisher = none;
  };
  content_hash = none;
}

abbrev files_pack : CapabilityMetadata
files_pack = record {
  version = 1;
  pack_id = "acme/files";
  digest = none;
  role = CapabilityRole.skill;
  capabilities = [];
  tools = [];
  namespaces = [];
  skills = writing ∷ [];
  license = none;
}

abbrev files_hit : PackSearchHit
files_hit = record {
  name = "acme/files";
  publisher = "acme";
  slug = "files";
  version = "1.0.0";
  sha256 = a_digest;
  state_root = none;
  license = none;
  description = none;
  yanked = false;
}

abbrev first_root : List PackDependency → String
first_root ds = "root"

abbrev files_bytes : PackBytes
files_bytes = record {
  manifest = record {
    name = "acme/files";
    version = "1.0.0";
    sha256 = a_digest;
    state_root = none;
    url = "memory://files";
    license = none;
    size_bytes = 1;
    yanked = false;
    format = none;
  };
  bytes = 1 ∷ [];
}

abbrev gap_input : AcquireSkillsInput
gap_input = record {
  task = record {
    id = none;
    objective = "write a file";
    inputs = none;
    constraints = none;
    success_criteria = "file written" ∷ [];
    required_capabilities = some ("files" ∷ []);
    preferred_skills = none;
    prohibited_actions = none;
    budget = none;
    deadline_ms = none;
    output_schema = none;
    evidence_requirements = none;
  };
  index = empty;
  authority = record { capabilities = "files" ∷ []; tools = []; namespaces = [] };
  trust = record {
    registry = RegistryMode.acquire_approved;
    allowlist = some ("acme/files" ∷ []);
    publish = none;
  };
  search = λ q. ok (files_hit ∷ []);
  pull =
      freeze_aware_pull text_le first_root (λ e. "error") PackDependencyRole.knowledge
        (λ call spec. ok files_bytes);
  inspect = λ bytes hit. some files_pack;
  activation = fresh;
  selected = none;
}

abbrev gap_acquired : Acquired
gap_acquired = acquire_skills (λ s. s) (λ hits terms. hits) text_le first_root gap_input

abbrev staged_of : Acquired → List SkillAcquisitionStaged
staged_of (activation, ok a) = a.receipt.staged
staged_of (activation, err e) = []

one_staged :
    staged_of gap_acquired
    ≡ record { name = "acme/files"; version = "1.0.0"; sha256 = a_digest } ∷ []
unfolding acquire_skills empty fresh freeze_aware_pull
one_staged = refl

-- The pull adds the pack as knowledge, and the acquisition stages it as a skill.
abbrev roles_of : List PackDependency → List PackDependencyRole
roles_of [] = []
roles_of (d ∷ ds) = d.role ∷ roles_of ds

both_noted :
    (roles_of gap_acquired.0.active ≡ PackDependencyRole.knowledge ∷ [])
    × (roles_of gap_acquired.0.staged_list ≡ PackDependencyRole.skill ∷ [])
unfolding acquire_skills empty fresh freeze_aware_pull
both_noted = (refl, refl)
