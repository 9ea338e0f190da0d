-- ===== src/Capabilities/Index.antt =====
-- packages/agents/src/capabilities/catalog.ts and packages/agents/src/capabilities/pack.ts: `CapabilityIndex`.
-- A method that changes the index returns it together with the error that it threw, if it did.
-- `locale_le` is the order of `localeCompare`, `as_skill` the reading of an unchecked JSON value as a definition.
pub mod Sound
use knolo_agents.Base.{
  ℕ, String, Bool, true, false, Option, none, some, List, [], ◌∷◌, ◌++◌, map, any, Result, ok, err,
  ◌>>◌, require, not, ◌==◌, if◌then◌else◌,
}
use knolo_agents.Base.Dict.{Dict, get_key, put_key, has_key, dict_values}
use knolo_agents.Base.Sort.{sort_by, unique_sorted}
use knolo_agents.Contracts.Values.{
  Json, null, bool, number, string, array, object, Items, nil, item, Fields, end, lookup,
}
use knolo_agents.Builder.{or_default}
use knolo_agents.Capabilities.Authority.{as_string_array}
use knolo_agents.Dependencies.Root.{is_blank, nonempty}
use knolo_agents.Harness.Types.{
  HarnessError, duplicate_pack, duplicate_skill, pack_metadata_not_object, pack_metadata_without_id,
}
use knolo_agents.Skills.Types.{SkillDefinitionInput}

pub data CapabilityRole : Type 0 where
  knowledge skill policy evaluation workflow : CapabilityRole

pub record CapabilityMetadata : Type 0 where
  pub version : ℕ
  pub pack_id : String
  pub digest : Option String
  pub role : CapabilityRole
  pub capabilities : List String
  pub tools : List String
  pub namespaces : List String
  pub skills : List SkillDefinitionInput
  pub license : Option String

pub record IndexedSkill : Type 0 where
  pub skill : SkillDefinitionInput
  pub pack_id : String

pub record CapabilityIndex : Type 0 where
  pub packs : Dict CapabilityMetadata
  pub by_skill_id : Dict IndexedSkill

unfoldable pub empty : CapabilityIndex
empty = record { packs = []; by_skill_id = [] }

-- The loop over the skills of a pack.
unfoldable pub add_skills :
    String → List SkillDefinitionInput → CapabilityIndex → CapabilityIndex × Option HarnessError
unfolding has_key put_key
add_skills pack [] index = (index, none)
add_skills pack (s ∷ rest) index =
    let others = add_skills pack rest (record index {
      by_skill_id = put_key s.id (record { skill = s; pack_id = pack }) index.by_skill_id;
    }) in
    if has_key s.id index.by_skill_id then (index, some (duplicate_skill s.id)) else others

-- this.packs.set(metadata.packId, metadata)
unfoldable pub enter_pack : CapabilityMetadata → CapabilityIndex → CapabilityIndex
unfolding put_key
enter_pack metadata index = record index { packs = put_key metadata.pack_id metadata index.packs }

unfoldable pub add : CapabilityMetadata → CapabilityIndex → CapabilityIndex × Option HarnessError
unfolding has_key enter_pack add_skills
add metadata index =
    if has_key metadata.pack_id index.packs
    then (index, some (duplicate_pack metadata.pack_id))
    else add_skills metadata.pack_id metadata.skills (enter_pack metadata index)

-- The result of `tryAdd`, where it does not throw.
unfoldable pub try_add :
    CapabilityMetadata → CapabilityIndex → CapabilityIndex × Result HarnessError Bool
unfolding has_key add
try_add metadata index =
    let added = add metadata index in
    if has_key metadata.pack_id index.packs
    then (index, ok false)
    else if any (λ (s : SkillDefinitionInput). has_key s.id index.by_skill_id) metadata.skills
    then (index, ok false)
    else (added.0, elim added.1 [ none ↦ ok true | some e ↦ err e ])

unfoldable pub add_all :
    List CapabilityMetadata → CapabilityIndex → CapabilityIndex × Option HarnessError
unfolding add
add_all [] index = (index, none)
add_all (metadata ∷ rest) index =
    let added = add metadata index in
    let others = add_all rest added.0 in elim added.1 [ none ↦ others | some e ↦ added ]

-- A call of `add` or `tryAdd`, whose error is caught.
pub data Change : Type 0 where
  adding trying : (metadata : CapabilityMetadata) → Change

unfoldable pub change_all : List Change → CapabilityIndex → CapabilityIndex
unfolding add try_add
change_all [] index = index
change_all (adding m ∷ rest) index = change_all rest (add m index).0
change_all (trying m ∷ rest) index = change_all rest (try_add m index).0

-- The metadata of `addDefinitions`.
unfoldable pub definitions_metadata : List SkillDefinitionInput → String → CapabilityMetadata
definitions_metadata definitions pack = record {
  version = 1;
  pack_id = pack;
  digest = none;
  role = CapabilityRole.skill;
  capabilities = [];
  tools = [];
  namespaces = [];
  skills = definitions;
  license = none;
}

unfoldable pub add_definitions :
    List SkillDefinitionInput → String → CapabilityIndex → CapabilityIndex × Option HarnessError
unfolding add definitions_metadata
add_definitions definitions pack index = add (definitions_metadata definitions pack) index

unfoldable pub find_skill : String → CapabilityIndex → Option IndexedSkill
unfolding get_key
find_skill id index = get_key id index.by_skill_id

concat_capabilities : List CapabilityMetadata → List String
concat_capabilities [] = []
concat_capabilities (m ∷ ms) = m.capabilities ++ concat_capabilities ms

concat_tools : List CapabilityMetadata → List String
concat_tools [] = []
concat_tools (m ∷ ms) = m.tools ++ concat_tools ms

module _ (locale_le : String → String → Bool) where
  unfoldable pub metadata_of : CapabilityIndex → List CapabilityMetadata
  unfolding sort_by dict_values
  metadata_of index =
      sort_by (λ (l r : CapabilityMetadata). locale_le l.pack_id r.pack_id)
        (dict_values index.packs)

  unfoldable pub skills_of : CapabilityIndex → List IndexedSkill
  unfolding sort_by dict_values
  skills_of index =
      sort_by (λ (l r : IndexedSkill). locale_le l.skill.id r.skill.id)
        (dict_values index.by_skill_id)

  unfoldable pub capabilities_of : CapabilityIndex → List String
  unfolding metadata_of concat_capabilities unique_sorted
  capabilities_of index = unique_sorted (concat_capabilities (metadata_of index))

  unfoldable pub tools_of : CapabilityIndex → List String
  unfolding metadata_of concat_tools unique_sorted
  tools_of index = unique_sorted (concat_tools (metadata_of index))

-- asRecord(value) ?? {}: the properties of an object, or none.
as_record : Option Json → Fields
as_record (some (object o)) = o
as_record _ = end

parse_role : Option Json → Option CapabilityRole
parse_role (some (string s)) =
    if s == "knowledge"
    then some CapabilityRole.knowledge
    else if s == "skill"
    then some CapabilityRole.skill
    else if s == "policy"
    then some CapabilityRole.policy
    else if s == "evaluation"
    then some CapabilityRole.evaluation
    else if s == "workflow"
    then some CapabilityRole.workflow
    else none
parse_role _ = none

-- a ?? b, on values that are read from an object
or_nullish : Option Json → Option Json → Option Json
or_nullish none b = b
or_nullish (some null) b = b
or_nullish (some v) b = some v

strings_at : String → Fields → List String
unfolding as_string_array lookup
strings_at key o = or_default (as_string_array (lookup key o)) []

-- The first of the two that is a text, if it is not empty.
text_of : Option Json → Option Json → Option String
unfolding nonempty
text_of (some (string s)) other = nonempty (some s)
text_of _ (some (string s)) = nonempty (some s)
text_of _ _ = none

default_role : List SkillDefinitionInput → CapabilityRole
default_role [] = CapabilityRole.knowledge
default_role (s ∷ ss) = CapabilityRole.skill

module _ (as_skill : Json → SkillDefinitionInput) where
  read_items : Items → List SkillDefinitionInput
  read_items nil = []
  read_items (item v rest) = as_skill v ∷ read_items rest

  skills_at : String → Fields → List SkillDefinitionInput
  unfolding read_items lookup
  skills_at key o = elim (lookup key o) [ some (array items) ↦ read_items items | _ ↦ [] ]

  metadata_of_fields : String → Fields → Fields → Fields → CapabilityMetadata
  unfolding strings_at unique_sorted parse_role or_nullish default_role skills_at text_of lookup
  metadata_of_fields id o authority embedded =
      let skills = skills_at "skills" o ++ skills_at "skills" embedded in
      record {
        version = 1;
        pack_id = id;
        digest = text_of (lookup "digest" o) (lookup "digest" embedded);
        role =
            or_default (parse_role (or_nullish (lookup "role" embedded) (lookup "role" o)))
              (default_role skills);
        capabilities = unique_sorted (
            strings_at "capabilities" authority
            ++ (strings_at "capabilities" o ++ strings_at "capabilities" embedded));
        tools = unique_sorted (strings_at "tools" o ++ strings_at "tools" embedded);
        namespaces = unique_sorted (
            strings_at "namespaces" authority
            ++ (strings_at "namespaces" o ++ strings_at "namespaces" embedded));
        skills = skills;
        license = text_of (lookup "license" o) (lookup "license" embedded);
      }

  metadata_with_id : Option Json → Fields → Result HarnessError CapabilityMetadata
  unfolding is_blank metadata_of_fields as_record lookup
  metadata_with_id (some (string id)) o =
      require (not (is_blank id)) pack_metadata_without_id
      >> ok (
          metadata_of_fields id o (as_record (lookup "authority" o))
            (as_record (lookup "capabilityMetadata" o)))
  metadata_with_id _ o = err pack_metadata_without_id

  unfoldable pub capability_metadata_from_pack : Json → Result HarnessError CapabilityMetadata
  unfolding metadata_with_id lookup
  capability_metadata_from_pack (object o) = metadata_with_id (lookup "id" o) o
  capability_metadata_from_pack _ = err pack_metadata_not_object
