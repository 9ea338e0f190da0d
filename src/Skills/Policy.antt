-- ===== src/Skills/Policy.antt =====
-- packages/agents/src/skills/policy.ts.
use knolo_agents.Base.{
  String, Bool, true, false, not, Option, none, some, List, [], ◌∷◌, ◌++◌, filter, includes,
}
use knolo_agents.Base.Sort.{unique_sorted}
use knolo_agents.Builder.{or_default}
use knolo_agents.Harness.Types.{Task}
use knolo_agents.Capabilities.Index.{CapabilityIndex, find_skill}
use knolo_agents.Skills.Types.{
  RegistryMode, PublishPolicy, SkillTrustPolicy, SkillAcquisitionReceipt,
}

abbrev pub adapter_capabilities : List String
adapter_capabilities = "tools" ∷ "resume" ∷ "observe" ∷ "interrupt" ∷ []

-- What the caller gives for the registry: nothing, a Boolean or a mode.
pub data RegistryChoice : Type 0 where
  not_given : RegistryChoice
  switched : Bool → RegistryChoice
  in_mode : RegistryMode → RegistryChoice

unfoldable pub normalize_registry : RegistryChoice → RegistryMode
normalize_registry not_given = RegistryMode.disabled
normalize_registry (switched true) = RegistryMode.acquire_any_verified
normalize_registry (switched false) = RegistryMode.disabled
normalize_registry (in_mode mode) = mode

unfoldable pub normalize_publish : Option PublishPolicy → PublishPolicy
normalize_publish none = PublishPolicy.propose_only
normalize_publish (some publish) = publish

pub record TrustOptions : Type 0 where
  pub registry : RegistryChoice
  pub allowlist : Option (List String)
  pub publish : Option PublishPolicy

nonempty_list : Option (List String) → Option (List String)
nonempty_list (some (x ∷ xs)) = some (x ∷ xs)
nonempty_list _ = none

unfoldable pub normalize_trust : Option TrustOptions → SkillTrustPolicy
unfolding normalize_registry normalize_publish nonempty_list
normalize_trust none = record {
  registry = RegistryMode.disabled;
  allowlist = none;
  publish = some PublishPolicy.propose_only;
}
normalize_trust (some options) = record {
  registry = normalize_registry options.registry;
  allowlist = nonempty_list options.allowlist;
  publish = some (normalize_publish options.publish);
}

unfoldable pub empty_acquisition :
    RegistryMode → PublishPolicy → List String → List String → SkillAcquisitionReceipt
empty_acquisition registry publish gaps missing_skills = record {
  version = 1;
  registry = registry;
  publish = publish;
  gaps = gaps;
  missing_skills = missing_skills;
  queried = false;
  pulled = false;
  staged = [];
  candidates = [];
}

capabilities_covered : CapabilityIndex → List String → List String
unfolding find_skill
capabilities_covered index [] = []
capabilities_covered index (id ∷ ids) = elim (find_skill id index) [
  | none ↦ capabilities_covered index ids
  | some entry ↦ entry.skill.required_capabilities ++ capabilities_covered index ids
]

unfoldable pub capability_gaps : Task → CapabilityIndex → List String → List String
unfolding capabilities_covered unique_sorted
capability_gaps task index selected = unique_sorted (
    filter (λ c. not (includes (capabilities_covered index selected) c))
      (filter (λ c. not (includes adapter_capabilities c))
        (or_default task.required_capabilities [])))

unfoldable pub missing_preferred_skills : Task → CapabilityIndex → List String
unfolding find_skill unique_sorted
missing_preferred_skills task index = unique_sorted (
    filter (λ id. elim (find_skill id index) [ none ↦ true | some entry ↦ false ])
      (or_default task.preferred_skills []))
