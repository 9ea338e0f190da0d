-- ===== src/Skills/Definition.antt =====
-- packages/agents/src/skills/definition.ts. `content_hash_of` is `hashSkillDefinition`: SHA-256 of the
-- canonical JSON of the definition without its own hash.
pub mod Shape
use knolo_agents.Base.{
  String, Bool, true, false, not, ◌&&◌, ◌||◌, Option, none, some, eqb, Result, ok, err, ◌>>=◌, ◌>>◌,
  require, ◌==◌, if◌then◌else◌,
}
use knolo_agents.Base.Text.{trim}
use knolo_agents.Builder.Identifier.{is_identifier}
use knolo_agents.Dependencies.Root.{is_blank, nonempty}
use knolo_agents.Harness.Types.{
  HarnessError, skill_version_not_one, skill_id_invalid, skill_without_version,
  skill_without_instructions, provenance_not_local, provenance_pack_invalid, content_hash_mismatch,
}
use knolo_agents.Skills.Types.{SkillProvenance, SkillDefinitionInput, SkillDefinition}

unfoldable pub validate_provenance : String → SkillProvenance → Result HarnessError SkillProvenance
unfolding is_identifier nonempty
validate_provenance skill p =
    require (p.source == "local-pack") (provenance_not_local skill)
    >> (require (is_identifier p.pack_id) (provenance_pack_invalid skill)
        >> ok (record p { digest = nonempty p.digest; publisher = nonempty p.publisher }))

trimmed_name : Option String → Option String
unfolding trim nonempty
trimmed_name none = none
trimmed_name (some name) = nonempty (some (trim name))

unfoldable pub shaped : SkillDefinitionInput → SkillProvenance → SkillDefinitionInput
unfolding trim trimmed_name nonempty
shaped input provenance = record input {
  skill_version = trim input.skill_version;
  name = trimmed_name input.name;
  provenance = provenance;
  content_hash = nonempty input.content_hash;
}

unfoldable pub validate_skill_shape :
    SkillDefinitionInput → Result HarnessError SkillDefinitionInput
unfolding is_identifier is_blank validate_provenance shaped
validate_skill_shape input =
    require (eqb input.version 1) skill_version_not_one
    >> (require (is_identifier input.id) (skill_id_invalid input.id)
        >> (require (not (is_blank input.skill_version)) (skill_without_version input.id)
            >> (require (not (is_blank input.instructions)) (skill_without_instructions input.id)
                >> (validate_provenance input.id input.provenance
                    >>= (λ provenance. ok (shaped input provenance))))))

-- skill.contentHash && skill.contentHash !== contentHash
unfoldable pub hash_agrees : Option String → String → Bool
hash_agrees none hash = true
hash_agrees (some given) hash = given == "" || given == hash

module _ (content_hash_of : SkillDefinitionInput → String) where
  unfoldable pub with_hash : SkillDefinitionInput → Result HarnessError SkillDefinition
  unfolding hash_agrees
  with_hash skill =
      require (hash_agrees skill.content_hash (content_hash_of skill))
        (content_hash_mismatch skill.id)
      >> ok (record { body = skill; content_hash = content_hash_of skill })

  unfoldable pub normalize_skill_definition :
      SkillDefinitionInput → Result HarnessError SkillDefinition
  unfolding validate_skill_shape with_hash
  normalize_skill_definition input = validate_skill_shape input >>= with_hash
