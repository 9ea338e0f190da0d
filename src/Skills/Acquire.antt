-- ===== src/Skills/Acquire.antt =====
-- packages/agents/src/skills/acquire.ts. The registry's `search` and `pull` are functions, the latter of the number
-- of the call and of the activation, which it may change as `freezeAwareRegistry` does; `inspect` is
-- `inspectPack`, which decodes and verifies the bytes. An error of `pull` is its text.
pub mod Loop
pub mod Staged
pub mod Acquired
use knolo_agents.Base.{
  ℕ, ◌+◌, String, Bool, true, false, not, ◌&&◌, ◌||◌, Option, none, some, List, [], ◌∷◌, ◌++◌, map,
  filter, any, every, includes, length, leb, ltb, eqb, Result, ok, err, ◌>>=◌, ◌==◌, if◌then◌else◌,
}
use knolo_agents.Base.Dict.{Dict, put_key, dict_values, has_key}
use knolo_agents.Base.Sort.{sort_by, unique_sorted}
use knolo_agents.Base.Text.{◌^^◌, join}
use knolo_agents.Builder.{or_default}
use knolo_agents.Capabilities.Authority.{EffectiveAuthority}
use knolo_agents.Capabilities.Index.{CapabilityMetadata, CapabilityIndex, find_skill}
use knolo_agents.Context.Lexical.{lexical_score}
use knolo_agents.Dependencies.Activation.{DependencyActivation, stage}
use knolo_agents.Dependencies.Root.{
  PackDependency, PackDependencyRole, nonempty, normalize_pack_dependency,
}
use knolo_agents.Harness.Types.{HarnessError, Task, allowlist_missing}
use knolo_agents.Registry.Types.{PackSearchHit}
use knolo_agents.Skills.Policy.{
  capability_gaps, empty_acquisition, missing_preferred_skills, normalize_publish,
}
use knolo_agents.Skills.Hits.{
  is_empty, search_queries, put_hits, collect_from, hit_text, allowlisted, covering_skills, may_use,
  hit_manifest, pack_dependency_from_manifest, has_skill, is_approved_mode, is_discover_mode,
  is_disabled_registry,
}
use knolo_agents.Skills.Types.{
  PublishPolicy, RegistryMode, SkillAcquisitionCandidate, SkillAcquisitionDecision,
  SkillAcquisitionReceipt, SkillAcquisitionStaged, SkillDefinitionInput, SkillSelected,
  SkillTrustPolicy,
}

abbrev pub max_pulls : ℕ
max_pulls = 8

pub record AcquireSkillsInput : Type 0 where
  pub task : Task
  pub index : CapabilityIndex
  pub authority : EffectiveAuthority
  pub trust : SkillTrustPolicy
  pub search : String → Result HarnessError (List PackSearchHit)
  pub pull : ℕ → String → DependencyActivation → DependencyActivation × Result String (List ℕ)
  pub inspect : List ℕ → PackSearchHit → Option CapabilityMetadata
  pub activation : DependencyActivation
  pub selected : Option (List SkillSelected)

pub record RankedHit : Type 0 where
  pub hit : PackSearchHit
  pub score : ℕ

-- The variables of the loop.
pub record Acquiring : Type 0 where
  pub candidates : List SkillAcquisitionCandidate
  pub staged : List SkillAcquisitionStaged
  pub packs : List CapabilityMetadata
  pub remaining_gaps : List String
  pub remaining_pins : List String
  pub pulls : ℕ
  pub pulled : Bool
  pub activation : DependencyActivation

pub record AcquiredSkills : Type 0 where
  pub receipt : SkillAcquisitionReceipt
  pub packs : List CapabilityMetadata

unfoldable pub candidate_of :
    RankedHit → SkillAcquisitionDecision → Option String → SkillAcquisitionCandidate
unfolding nonempty
candidate_of item decision reason = record {
  name = item.hit.name;
  version = item.hit.version;
  sha256 = item.hit.sha256;
  score = item.score;
  decision = decision;
  reason = nonempty reason;
}

-- What a turn of the loop leaves, and what it threw.
abbrev pub Turned : Type 0
Turned = Acquiring × Option HarnessError

unfoldable pub note : RankedHit → SkillAcquisitionDecision → Option String → Acquiring → Turned
unfolding candidate_of
note item decision reason st =
    (record st { candidates = st.candidates ++ candidate_of item decision reason ∷ [] }, none)

abbrev pub skip : RankedHit → String → Acquiring → Turned
skip item reason st = note item SkillAcquisitionDecision.skipped (some reason) st

is_indexed : CapabilityIndex → SkillDefinitionInput → Bool
unfolding find_skill
is_indexed index s = elim (find_skill s.id index) [ none ↦ false | some entry ↦ true ]

-- A usable skill that the index or a pack has.
repeats : CapabilityIndex → List CapabilityMetadata → List SkillDefinitionInput → Bool
unfolding is_indexed has_skill
repeats index packs usable =
    any (is_indexed index) usable
    || any
        (λ (p : CapabilityMetadata).
          any (λ (s : SkillDefinitionInput). has_skill s.id usable) p.skills)
        packs

module _ (lower : String → String) (per_million : ℕ → ℕ → ℕ) (locale_le : String → String → Bool)
    (root_text : List PackDependency → String) (input : AcquireSkillsInput) where
  staged_with :
      PackDependency
      → CapabilityMetadata
      → List SkillDefinitionInput
      → Acquiring
      → DependencyActivation
      → Acquiring
  unfolding has_skill
  staged_with d metadata usable st activation = record st {
    staged = st.staged ++ record { name = d.name; version = d.version; sha256 = d.sha256 } ∷ [];
    packs = st.packs ++ metadata ∷ [];
    remaining_gaps =
        filter
          (λ gap.
            not (any (λ (s : SkillDefinitionInput). includes s.required_capabilities gap) usable))
          st.remaining_gaps;
    remaining_pins = filter (λ id. not (has_skill id usable)) st.remaining_pins;
    activation = activation;
  }

  staged_by :
      RankedHit
      → PackDependency
      → CapabilityMetadata
      → List SkillDefinitionInput
      → Acquiring
      → DependencyActivation × Option HarnessError
      → Turned
  unfolding staged_with note
  staged_by item d metadata usable st (activation, some e) =
      (record st { activation = activation }, some e)
  staged_by item d metadata usable st (activation, none) =
      note item SkillAcquisitionDecision.staged none (staged_with d metadata usable st activation)

  stage_dependency :
      RankedHit
      → Result HarnessError PackDependency
      → CapabilityMetadata
      → List SkillDefinitionInput
      → Acquiring
      → Turned
  unfolding staged_by stage
  stage_dependency item (err e) metadata usable st = (st, some e)
  stage_dependency item (ok d) metadata usable st =
      staged_by item d metadata usable st (stage locale_le root_text d st.activation)

  stage_usable : RankedHit → CapabilityMetadata → List SkillDefinitionInput → Acquiring → Turned
  unfolding repeats stage_dependency pack_dependency_from_manifest hit_manifest note is_empty
  stage_usable item metadata usable st =
      if is_empty usable
      then skip item "authority" st
      else if repeats input.index st.packs usable
      then skip item "duplicate" st
      else stage_dependency item (pack_dependency_from_manifest (hit_manifest item.hit)) metadata
          usable st

  inspected : RankedHit → Option CapabilityMetadata → Acquiring → Turned
  unfolding covering_skills may_use stage_usable note is_empty
  inspected item none st = skip item "unreadable" st
  inspected item (some metadata) st =
      let covering = covering_skills metadata.skills st.remaining_gaps st.remaining_pins in
      if is_empty covering
      then skip item "no_cover" st
      else stage_usable item metadata (filter (may_use input.authority) covering) st

  pulled_bytes : RankedHit → Result String (List ℕ) → Acquiring → Turned
  unfolding inspected note
  pulled_bytes item (err message) st = skip item message st
  pulled_bytes item (ok bytes) st =
      inspected item (input.inspect bytes item.hit) (record st { pulled = true })

  -- What a pull left of the activation, and the bytes.
  pulled_at : RankedHit → DependencyActivation × Result String (List ℕ) → Acquiring → Turned
  unfolding pulled_bytes
  pulled_at item (activation, bytes) st =
      pulled_bytes item bytes (record st { pulls = st.pulls + 1; activation = activation })

  pull_hit : RankedHit → Acquiring → Turned
  unfolding pulled_at
  pull_hit item st =
      pulled_at item
        (input.pull st.pulls (item.hit.name ^^ ("@" ^^ item.hit.version)) st.activation) st

  unfoldable pub is_held : PackSearchHit → Acquiring → Bool
  unfolding has_key
  is_held hit st =
      has_key hit.name input.index.packs
      || any (λ (p : CapabilityMetadata). p.pack_id == hit.name) st.packs

  -- A turn of the loop, after the test that ends it.
  unfoldable pub consider : RankedHit → Acquiring → Turned
  unfolding allowlisted is_held pull_hit note
  consider item st =
      if item.hit.yanked
      then skip item "yanked" st
      else if is_approved_mode input.trust.registry
          && not (allowlisted item.hit.name item.hit.version (or_default input.trust.allowlist []))
      then skip item "policy" st
      else if is_held item.hit st
      then skip item "duplicate" st
      else if is_discover_mode input.trust.registry
      then note item SkillAcquisitionDecision.discover none st
      else if leb max_pulls st.pulls
      then skip item "budget" st
      else pull_hit item st
