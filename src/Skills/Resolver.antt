-- ===== src/Skills/Resolver.antt =====
-- packages/agents/src/skills/resolver.ts: which skills of the index a task gets. Scores are whole numbers.
pub mod Chosen
pub mod Pinned
use knolo_agents.Base.{
  ℕ, ◌+◌, ◌*◌, String, Bool, true, false, not, ◌&&◌, ◌||◌, Option, none, some, List, [], ◌∷◌, ◌++◌,
  map, filter, every, includes, length, ltb, eqb, Result, ok, err, ◌>>=◌, ◌==◌, if◌then◌else◌,
}
use knolo_agents.Base.Sort.{sort_by}
use knolo_agents.Base.Text.{join}
use knolo_agents.Builder.{or_default}
use knolo_agents.Capabilities.Authority.{EffectiveAuthority}
use knolo_agents.Capabilities.Index.{IndexedSkill, CapabilityIndex, find_skill, skills_of}
use knolo_agents.Context.Lexical.{lexical_score}
use knolo_agents.Harness.Types.{HarnessError, pinned_skill_missing, pinned_skill_denied, Task}
use knolo_agents.Skills.Types.{
  SkillDefinitionInput, SkillDefinition, RegistryMode, PublishPolicy, SkillTrustPolicy,
  SkillResolutionMode, SkillRejectReason, SkillRejected, SkillSelected, SkillRank, SkillAuthority,
  SkillSelectionReceipt, SkillAcquisitionReceipt,
}
use knolo_agents.Skills.Definition.{normalize_skill_definition}
use knolo_agents.Skills.Policy.{
  normalize_publish, empty_acquisition, capability_gaps, missing_preferred_skills,
}

abbrev pub preferred_boost : ℕ
preferred_boost = 1000000

abbrev pub capability_boost : ℕ
capability_boost = 1000

-- `SkillItemV1` as the resolver builds it.
pub record SkillItem : Type 0 where
  pub id : String
  pub text : String
  pub required : Bool
  pub score : ℕ
  pub source_id : Option String

pub record ResolveSkillsInput : Type 0 where
  pub task : Task
  pub index : CapabilityIndex
  pub authority : EffectiveAuthority
  pub trust : Option SkillTrustPolicy
  pub resolution : Option SkillResolutionMode

pub record ResolvedSkills : Type 0 where
  pub items : List SkillItem
  pub receipt : SkillSelectionReceipt

-- An element of `ranked`.
pub record RankedSkill : Type 0 where
  pub skill : SkillDefinition
  pub score : ℕ
  pub required : Bool

unfoldable pub is_authorized : SkillDefinition → EffectiveAuthority → Bool
is_authorized skill authority =
    every (includes authority.capabilities) skill.body.required_capabilities
    && every (includes authority.tools) skill.body.required_tools

abbrev is_disabled : RegistryMode → Bool
is_disabled RegistryMode.disabled = true
is_disabled _ = false

-- The loop over the pinned skills.
unfoldable pub check_pinned :
    RegistryMode → CapabilityIndex → List String → Result HarnessError (List SkillRejected)
unfolding find_skill
check_pinned registry index [] = ok []
check_pinned registry index (pinned ∷ rest) = elim (find_skill pinned index) [
  | some entry ↦ check_pinned registry index rest
  | none ↦ elim (is_disabled registry) [
    | true ↦ err (pinned_skill_missing pinned)
    | false ↦
        check_pinned registry index rest
        >>= (λ others. ok (record { id = pinned; reason = SkillRejectReason.missing } ∷ others))
  ]
]

-- A skill that is ranked, or refused.
pub data Placement : Type 0 where
  ranked : RankedSkill → Placement
  refused : SkillRejected → Placement

unfoldable pub ranked_of : List Placement → List RankedSkill
ranked_of [] = []
ranked_of (ranked r ∷ rest) = r ∷ ranked_of rest
ranked_of (refused r ∷ rest) = ranked_of rest

refused_of : List Placement → List SkillRejected
refused_of [] = []
refused_of (ranked r ∷ rest) = refused_of rest
refused_of (refused r ∷ rest) = r ∷ refused_of rest

unfoldable pub selected_of : RankedSkill → SkillSelected
selected_of r = record {
  id = r.skill.body.id;
  skill_version = r.skill.body.skill_version;
  pack_id = r.skill.body.provenance.pack_id;
  score = r.score;
  required = r.required;
  content_hash = r.skill.content_hash;
}

item_of : RankedSkill → SkillItem
item_of r = record {
  id = r.skill.body.id;
  text = r.skill.body.instructions;
  required = r.required;
  score = r.score;
  source_id =
      if r.skill.body.provenance.pack_id == "" then none else some r.skill.body.provenance.pack_id;
}

unfoldable pub trust_registry : Option SkillTrustPolicy → RegistryMode
trust_registry none = RegistryMode.disabled
trust_registry (some trust) = trust.registry

unfoldable pub trust_publish : Option SkillTrustPolicy → PublishPolicy
unfolding normalize_publish
trust_publish none = PublishPolicy.propose_only
trust_publish (some trust) = normalize_publish trust.publish

module _ (lower : String → String) (per_million : ℕ → ℕ → ℕ) (locale_le : String → String → Bool)
    (content_hash_of : SkillDefinitionInput → String) where
  score_skill : SkillDefinition → String → Task → Bool → ℕ
  unfolding lexical_score join
  score_skill skill query task preferred =
      lexical_score lower per_million query (
        join " " (
          skill.body.id
          ∷ skill.body.skill_version
          ∷ (skill.body.triggers ++ (skill.body.domains ++ skill.body.instructions ∷ []))))
      + ((if preferred then preferred_boost else 0)
          + length (
              filter (includes (or_default task.required_capabilities []))
                skill.body.required_capabilities)
            * capability_boost)

  is_preferred : Task → String → Bool
  is_preferred task id = includes (or_default task.preferred_skills []) id

  -- What becomes of one skill, by whether it is authorized and whether it is pinned.
  unfoldable pub place_skill :
      (is_authorized is_required : Bool) → Task → SkillDefinition → Result HarnessError Placement
  unfolding score_skill
  place_skill true required task skill = ok (
      ranked (record {
        skill = skill;
        score = score_skill skill task.objective task required;
        required = required;
      }))
  place_skill false true task skill = err (pinned_skill_denied skill.body.id)
  place_skill false false task skill =
      ok (refused (record { id = skill.body.id; reason = SkillRejectReason.authority }))

  unfoldable pub rank_skill :
      Task → EffectiveAuthority → IndexedSkill → Result HarnessError Placement
  unfolding normalize_skill_definition is_authorized is_preferred place_skill
  rank_skill task authority entry =
      normalize_skill_definition content_hash_of entry.skill >>= (λ skill.
        place_skill (is_authorized skill authority) (is_preferred task skill.body.id) task skill)

  -- The loop over the skills of the index.
  unfoldable pub rank_skills :
      Task → EffectiveAuthority → List IndexedSkill → Result HarnessError (List Placement)
  unfolding rank_skill
  rank_skills task authority [] = ok []
  rank_skills task authority (entry ∷ rest) =
      rank_skill task authority entry
      >>= (λ first. rank_skills task authority rest >>= (λ others. ok (first ∷ others)))

  ranked_le : RankedSkill → RankedSkill → Bool
  ranked_le l r =
      ltb r.score l.score || (eqb l.score r.score && locale_le l.skill.body.id r.skill.body.id)

  unfoldable pub sorted_ranks : List Placement → List RankedSkill
  unfolding sort_by ranked_le ranked_of
  sorted_ranks placements = sort_by ranked_le (ranked_of placements)

  unfoldable pub selected_ranks : List Placement → List RankedSkill
  unfolding sorted_ranks
  selected_ranks placements =
      filter (λ (r : RankedSkill). r.required || ltb 0 r.score) (sorted_ranks placements)

  unfoldable pub receipt_for :
      ResolveSkillsInput
      → RegistryMode
      → PublishPolicy
      → SkillResolutionMode
      → List SkillSelected
      → List SkillRejected
      → List SkillRank
      → SkillSelectionReceipt
  unfolding empty_acquisition capability_gaps missing_preferred_skills
  receipt_for input registry publish resolution selected rejected candidates = record {
    version = 1;
    query = input.task.objective;
    resolution = resolution;
    registry = registry;
    selected = selected;
    rejected = rejected;
    candidates = candidates;
    authority = record {
      capabilities = input.authority.capabilities;
      tools = input.authority.tools;
    };
    acquisition =
        empty_acquisition registry publish
          (capability_gaps input.task input.index (map (λ (x : SkillSelected). x.id) selected))
          (missing_preferred_skills input.task input.index);
  }

  unfoldable pub resolved :
      ResolveSkillsInput
      → RegistryMode
      → PublishPolicy
      → SkillResolutionMode
      → List SkillRejected
      → List Placement
      → ResolvedSkills
  unfolding receipt_for selected_ranks sorted_ranks selected_of item_of sort_by refused_of
  resolved input registry publish resolution missing placements = record {
    items = map item_of (selected_ranks placements);
    receipt =
        receipt_for input registry publish resolution (map selected_of (selected_ranks placements))
          (sort_by (λ (l r : SkillRejected). locale_le l.id r.id)
            (missing ++ refused_of placements))
          (map (λ (r : RankedSkill). record { id = r.skill.body.id; score = r.score })
            (sorted_ranks placements));
  }

  -- The part of `resolveSkills` that reads the index.
  unfoldable pub resolve_indexed :
      ResolveSkillsInput
      → RegistryMode
      → PublishPolicy
      → SkillResolutionMode
      → Result HarnessError ResolvedSkills
  unfolding check_pinned rank_skills skills_of resolved
  resolve_indexed input registry publish resolution =
      check_pinned registry input.index (or_default input.task.preferred_skills []) >>= (λ missing.
        rank_skills input.task input.authority (skills_of locale_le input.index)
        >>= (λ placements. ok (resolved input registry publish resolution missing placements)))

  unfoldable pub resolve_in :
      ResolveSkillsInput
      → RegistryMode
      → PublishPolicy
      → SkillResolutionMode
      → Result HarnessError ResolvedSkills
  unfolding receipt_for resolve_indexed
  resolve_in input registry publish SkillResolutionMode.none = ok (record {
    items = [];
    receipt = receipt_for input registry publish SkillResolutionMode.none [] [] [];
  })
  resolve_in input registry publish SkillResolutionMode.local =
      resolve_indexed input registry publish SkillResolutionMode.local
  resolve_in input registry publish SkillResolutionMode.auto =
      resolve_indexed input registry publish SkillResolutionMode.auto

  unfoldable pub resolve_skills : ResolveSkillsInput → Result HarnessError ResolvedSkills
  unfolding resolve_in trust_registry trust_publish
  resolve_skills input =
      resolve_in input (trust_registry input.trust) (trust_publish input.trust)
        (or_default input.resolution SkillResolutionMode.local)
