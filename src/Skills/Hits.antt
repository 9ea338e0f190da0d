-- ===== src/Skills/Hits.antt =====
-- packages/agents/src/skills/acquire.ts: what is asked of a registry, and the tests of its hits.
use knolo_agents.Base.{
  String, Bool, true, false, not, ◌&&◌, ◌||◌, List, [], ◌∷◌, ◌++◌, filter, any, every, includes,
  Result, ok, ◌>>=◌, ◌==◌,
}
use knolo_agents.Base.Dict.{Dict, put_key}
use knolo_agents.Base.Sort.{unique_sorted}
use knolo_agents.Base.Text.{◌^^◌, join}
use knolo_agents.Builder.{or_default}
use knolo_agents.Capabilities.Authority.{EffectiveAuthority}
use knolo_agents.Dependencies.Root.{
  PackDependency, PackDependencyRole, nonempty, normalize_pack_dependency,
}
use knolo_agents.Harness.Types.{HarnessError}
use knolo_agents.Registry.Types.{PackSearchHit}
use knolo_agents.Skills.Types.{RegistryMode, SkillDefinitionInput}

unfoldable pub is_empty {ℓ} : {A : Type ℓ} → List A → Bool
is_empty [] = true
is_empty (x ∷ xs) = false

-- .filter(Boolean)
unfoldable pub search_queries : (gaps missing_skills : List String) → List String
unfolding unique_sorted join
search_queries gaps missing_skills =
    let queries = unique_sorted (gaps ++ missing_skills) in
    filter (λ q. not (q == "")) (unique_sorted (join " " queries ∷ queries))

unfoldable pub put_hits : List PackSearchHit → Dict PackSearchHit → Dict PackSearchHit
unfolding put_key
put_hits [] d = d
put_hits (hit ∷ hits) d = put_hits hits (put_key (hit.name ^^ ("@" ^^ hit.version)) hit d)

unfoldable pub collect_from :
    (String → Result HarnessError (List PackSearchHit))
    → List String
    → Dict PackSearchHit
    → Result HarnessError (Dict PackSearchHit)
unfolding put_hits
collect_from search [] d = ok d
collect_from search (q ∷ queries) d =
    search q >>= (λ hits. collect_from search queries (put_hits hits d))

unfoldable pub hit_text : List String → PackSearchHit → String
unfolding join
hit_text gaps hit =
    join " "
      (hit.name ∷ hit.publisher ∷ hit.slug ∷ or_default hit.description "" ∷ join " " gaps ∷ [])

unfoldable pub allowlisted : String → String → List String → Bool
allowlisted name version allowlist =
    includes allowlist name || includes allowlist (name ^^ ("@" ^^ version))

unfoldable pub covering_skills :
    List SkillDefinitionInput → (gaps missing_skills : List String) → List SkillDefinitionInput
covering_skills skills gaps missing_skills =
    filter
      (λ (s : SkillDefinitionInput).
        includes missing_skills s.id || any (λ c. includes gaps c) s.required_capabilities)
      skills

unfoldable pub may_use : EffectiveAuthority → SkillDefinitionInput → Bool
may_use authority s =
    every (λ c. includes authority.capabilities c) s.required_capabilities
    && every (λ t. includes authority.tools t) s.required_tools

abbrev pub is_approved_mode : RegistryMode → Bool
is_approved_mode RegistryMode.acquire_approved = true
is_approved_mode mode = false

abbrev pub is_discover_mode : RegistryMode → Bool
is_discover_mode RegistryMode.discover = true
is_discover_mode mode = false

abbrev pub is_disabled_registry : RegistryMode → Bool
is_disabled_registry RegistryMode.disabled = true
is_disabled_registry mode = false

-- The manifest that is made of a hit; its URL, its size and its licence are not read.
unfoldable pub hit_manifest : PackSearchHit → PackDependency
unfolding nonempty
hit_manifest hit = record {
  name = hit.name;
  version = hit.version;
  sha256 = hit.sha256;
  state_root = nonempty hit.state_root;
  role = PackDependencyRole.skill;
}

-- packDependencyFromManifest(manifest, "skill")
unfoldable pub pack_dependency_from_manifest : PackDependency → Result HarnessError PackDependency
unfolding normalize_pack_dependency
pack_dependency_from_manifest manifest = normalize_pack_dependency manifest

unfoldable pub has_skill : String → List SkillDefinitionInput → Bool
has_skill id skills = any (λ (s : SkillDefinitionInput). s.id == id) skills
