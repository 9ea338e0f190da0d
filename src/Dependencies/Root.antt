-- ===== src/Dependencies/Root.antt =====
-- packages/agents/src/dependencies/root.ts and packages/agents/src/dependencies/types.ts. `locale_le` is
-- the order of `localeCompare`; `root_text` is the root of a sorted list, which the injected codec and
-- SHA-256 compute.
use knolo_agents.Base.{
  ℕ, String, Bool, true, false, not, ◌&&◌, ◌||◌, Option, none, some, List, [], ◌∷◌, ◌++◌, length,
  every, eqb, leb, Result, ok, ◌>>=◌, ◌>>◌, require, ◌==◌, if◌then◌else◌,
}
use knolo_agents.Base.Sort.{sort_by}
use knolo_agents.Base.Text.{◌^^◌, codes, is_space}
use knolo_agents.Harness.Types.{
  HarnessError, dependency_name_missing, dependency_version_missing, dependency_digest_invalid,
}

pub data PackDependencyRole : Type 0 where
  knowledge skill policy evaluation workflow : PackDependencyRole

unfoldable pub role_text : PackDependencyRole → String
role_text knowledge = "knowledge"
role_text skill = "skill"
role_text policy = "policy"
role_text evaluation = "evaluation"
role_text workflow = "workflow"

pub record PackDependency : Type 0 where
  pub name : String
  pub version : String
  pub sha256 : String
  pub state_root : Option String
  pub role : PackDependencyRole

pub record HarnessDependencyRoot : Type 0 where
  pub version : ℕ
  pub algorithm : String
  pub dependencies : List PackDependency
  pub root : String

abbrev pub dependency_root_label : String
dependency_root_label = "knolo.harness.dependencies.v1"

-- /^[0-9a-f]{64}$/
unfoldable pub is_sha256 : String → Bool
unfolding codes
is_sha256 s =
    eqb (length (codes s)) 64
    && every (λ c. (leb b'0' c && leb c b'9') || (leb b'a' c && leb c b'f')) (codes s)

-- text.trim() is empty
unfoldable pub is_blank : String → Bool
unfolding codes
is_blank s = every is_space (codes s)

-- A field that is left out where it is empty.
unfoldable pub nonempty : Option String → Option String
nonempty none = none
nonempty (some s) = if s == "" then none else some s

unfoldable pub normalize_pack_dependency : PackDependency → Result HarnessError PackDependency
unfolding is_blank is_sha256 nonempty
normalize_pack_dependency d =
    require (not (is_blank d.name)) dependency_name_missing
    >> (require (not (is_blank d.version)) (dependency_version_missing d.name)
        >> (require (is_sha256 d.sha256) (dependency_digest_invalid d.name)
            >> ok (record d { state_root = nonempty d.state_root })))

unfoldable pub normalize_all : List PackDependency → Result HarnessError (List PackDependency)
unfolding normalize_pack_dependency
normalize_all [] = ok []
normalize_all (d ∷ ds) =
    normalize_pack_dependency d >>= (λ first. normalize_all ds >>= (λ rest. ok (first ∷ rest)))

-- `${item.role}:${item.name}`
unfoldable pub dependency_key : PackDependency → String
unfolding role_text
dependency_key d = role_text d.role ^^ (":" ^^ d.name)

-- map.set(key, item): a key that is there keeps its place.
unfoldable pub set_dependency : PackDependency → List PackDependency → List PackDependency
unfolding dependency_key
set_dependency d [] = d ∷ []
set_dependency d (e ∷ es) =
    let rest = set_dependency d es in
    if dependency_key e == dependency_key d then d ∷ es else e ∷ rest

unfoldable pub collect_dependencies :
    List PackDependency → List PackDependency → List PackDependency
unfolding set_dependency
collect_dependencies collected [] = collected
collect_dependencies collected (d ∷ ds) = collect_dependencies (set_dependency d collected) ds

module _ (locale_le : String → String → Bool) where
  -- One step of the chain of comparisons: the next one decides where this one is 0.
  then_by : String → String → Bool → Bool
  then_by left right following =
      if locale_le left right then (if locale_le right left then following else true) else false

  pub dependency_le : PackDependency → PackDependency → Bool
  unfolding then_by role_text
  dependency_le left right = then_by left.name right.name (
      then_by (role_text left.role) (role_text right.role)
        (then_by left.sha256 right.sha256 (locale_le left.version right.version)))

  unfoldable pub sort_pack_dependencies :
      List PackDependency → Result HarnessError (List PackDependency)
  unfolding normalize_all sort_by dependency_le
  sort_pack_dependencies ds = normalize_all ds >>= (λ normal. ok (sort_by dependency_le normal))

  unfoldable pub merge_pack_dependencies :
      List PackDependency → List PackDependency → Result HarnessError (List PackDependency)
  unfolding normalize_all collect_dependencies sort_pack_dependencies
  merge_pack_dependencies base extra =
      normalize_all (base ++ extra)
      >>= (λ normal. sort_pack_dependencies (collect_dependencies [] normal))

  unfoldable pub compute_harness_dependency_root :
      (List PackDependency → String)
      → List PackDependency
      → Result HarnessError HarnessDependencyRoot
  unfolding sort_pack_dependencies
  compute_harness_dependency_root root_text ds = sort_pack_dependencies ds >>= (λ sorted.
      ok (record {
        version = 1;
        algorithm = dependency_root_label;
        dependencies = sorted;
        root = dependency_root_label ^^ (":" ^^ root_text sorted);
      }))
