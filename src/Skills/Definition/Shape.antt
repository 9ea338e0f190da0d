-- ===== src/Skills/Definition/Shape.antt =====
-- What a definition that is accepted looks like.
use knolo_agents.Base.{
  String, Option, none, some, true, false, not, eqb, ◌==◌, ok, require, ◌≢◌, Bool-cases, inl, inr,
  eq_iff, arith, >>-eq-ok, >>=-eq-ok, require-eq-ok, ◌≡◌, refl, sym, ap, ◌∙◌, str_eq→eq,
}
use mathlib.Core.Path.{subst}
use knolo_agents.Base.Text.{trim}
use knolo_agents.Builder.Identifier.{is_identifier}
use knolo_agents.Dependencies.Root.{is_blank, nonempty}
use knolo_agents.Harness.Types.{
  skill_version_not_one, skill_id_invalid, skill_without_version, skill_without_instructions,
  content_hash_mismatch, provenance_not_local, provenance_pack_invalid,
}
use knolo_agents.Skills.Types.{SkillProvenance, SkillDefinitionInput, SkillDefinition}
use knolo_agents.Skills.Definition.{
  validate_provenance, shaped, trimmed_name, validate_skill_shape, hash_agrees, with_hash,
  normalize_skill_definition,
}

-- The name that is left of one, if any is.
abbrev pub kept_name : Option String → Option String
kept_name name = elim name [ none ↦ none | some n ↦ nonempty (some (trim n)) ]

-- A definition made from the input: trimmed, from a local pack, with its hash.
pub record IsNormal (content_hash_of : SkillDefinitionInput → String) (input : SkillDefinitionInput)
    (d : SkillDefinition) : Type 0 where
  pub has_body : d.body ≡ record input {
    skill_version = trim input.skill_version;
    name = kept_name input.name;
    provenance = record {
      source = "local-pack";
      pack_id = input.provenance.pack_id;
      digest = nonempty input.provenance.digest;
      publisher = nonempty input.provenance.publisher;
    };
    content_hash = nonempty input.content_hash;
  }
  pub has_version : input.version ≡ 1
  pub has_id : is_identifier input.id ≡ true
  pub has_skill_version : is_blank input.skill_version ≡ false
  pub has_instructions : is_blank input.instructions ≡ false
  pub is_local : input.provenance.source ≡ "local-pack"
  pub has_pack_id : is_identifier input.provenance.pack_id ≡ true
  pub keeps_hash :
      (given : String) → input.content_hash ≡ some given → given ≢ "" → given ≡ d.content_hash
  pub has_hash : d.content_hash ≡ content_hash_of d.body

kept_name_lem : (name : Option String) → trimmed_name name ≡ kept_name name
unfolding trimmed_name
kept_name_lem none = refl
kept_name_lem (some n) = refl

validate_provenance-eq-ok :
    (skill : String) (p q : SkillProvenance)
    → validate_provenance skill p ≡ ok q
    → (p.source ≡ "local-pack")
      × (is_identifier p.pack_id ≡ true)
      × (q ≡ record {
        source = "local-pack";
        pack_id = p.pack_id;
        digest = nonempty p.digest;
        publisher = nonempty p.publisher;
      })
unfolding validate_provenance
validate_provenance-eq-ok skill p q h =
    let (s, h1) = >>-eq-ok (require (p.source == "local-pack") (provenance_not_local skill)) _ h in
    let (i, h2) =
      >>-eq-ok (require (is_identifier p.pack_id) (provenance_pack_invalid skill)) _ h1 in
    let own : p.source ≡ "local-pack" = str_eq→eq p.source "local-pack" (require-eq-ok _ _ s) in
    let made : record p { digest = nonempty p.digest; publisher = nonempty p.publisher } ≡ q =
      cc h2 in
    (
      own,
      require-eq-ok _ _ i,
      sym made
          ∙ ap
              (λ source. record p {
                source = source;
                digest = nonempty p.digest;
                publisher = nonempty p.publisher;
              })
              own,
    )

-- A hash that was given, and is not empty, is the hash.
hash_agrees-eq :
    (hash : String) (given : Option String)
    → hash_agrees (nonempty given) hash ≡ true
    → (g : String) → given ≡ some g
    → g ≢ ""
    → g ≡ hash
unfolding hash_agrees nonempty
hash_agrees-eq hash none h g e n = cc e
hash_agrees-eq hash (some x) h g e n =
    let same : x ≡ g = cc e in
    elim (Bool-cases (x == "")) [
      | inl blank ↦ absurd (n (sym same ∙ (eq_iff x "").0 blank))
      | inr full ↦ sym same ∙ (eq_iff x hash).0 (rw (full, nonempty, hash_agrees, full) at h)
    ]

-- A definition that is accepted is the input with its version and name trimmed, an empty name, hash,
-- digest or publisher left out, and is from a local pack whose id is an identifier; its version is 1, its
-- id an identifier, its skill version and instructions are not blank, its hash is that of its content,
-- and is the hash that was given, where one was that is not empty.
pub normalize_skill_definition-IsNormal :
    (content_hash_of : SkillDefinitionInput → String) (input : SkillDefinitionInput)
    (d : SkillDefinition)
    → normalize_skill_definition content_hash_of input ≡ ok d
    → IsNormal content_hash_of input d
unfolding normalize_skill_definition validate_skill_shape with_hash shaped
normalize_skill_definition-IsNormal content_hash_of input d h =
    let (shape, v, w) = >>=-eq-ok (validate_skill_shape input) (with_hash content_hash_of) h in
    let (v1, h1) = >>-eq-ok (require (eqb input.version 1) skill_version_not_one) _ v in
    let (v2, h2) = >>-eq-ok (require (is_identifier input.id) (skill_id_invalid input.id)) _ h1 in
    let (v3, h3) =
      >>-eq-ok (require (not (is_blank input.skill_version)) (skill_without_version input.id)) _
        h2 in
    let (v4, h4) =
      >>-eq-ok (require (not (is_blank input.instructions)) (skill_without_instructions input.id)) _
        h3 in
    let (provenance, p, q) =
      >>=-eq-ok (validate_provenance input.id input.provenance) (λ x. ok (shaped input x)) h4 in
    let own : shaped input provenance ≡ shape = cc q in
    let (agrees, made) =
      >>-eq-ok
        (require (hash_agrees shape.content_hash (content_hash_of shape))
          (content_hash_mismatch shape.id))
        _ w in
    let built : SkillDefinition = record { body = shape; content_hash = content_hash_of shape } in
    let same : built ≡ d = cc made in
    let (source, pack, kept) = validate_provenance-eq-ok input.id input.provenance provenance p in
    let one : eqb input.version 1 ≡ true = require-eq-ok _ _ v1 in
    let version : not (is_blank input.skill_version) ≡ true = require-eq-ok _ _ v3 in
    let instructions : not (is_blank input.instructions) ≡ true = require-eq-ok _ _ v4 in
    let hashed : hash_agrees (nonempty input.content_hash) (content_hash_of shape) ≡ true =
      subst
        (λ (x : SkillDefinitionInput). hash_agrees x.content_hash (content_hash_of shape) ≡ true)
        (sym own) (require-eq-ok _ _ agrees) in
    record {
      has_body =
          sym (ap (λ (x : SkillDefinition). x.body) same)
          ∙ (sym own
              ∙ (ap (shaped input) kept
                  ∙ ap
                      (λ name.
                        record (shaped input (record input.provenance {
                          source = "local-pack";
                          digest = nonempty input.provenance.digest;
                          publisher = nonempty input.provenance.publisher;
                        })) { name = name })
                      (kept_name_lem input.name)));
      has_version = ground arith;
      has_id = require-eq-ok _ _ v2;
      has_skill_version = ground arith;
      has_instructions = ground arith;
      is_local = source;
      has_pack_id = pack;
      keeps_hash = λ g e n.
          hash_agrees-eq (content_hash_of shape) input.content_hash hashed g e n
          ∙ ap (λ (x : SkillDefinition). x.content_hash) same;
      has_hash = subst (λ (x : SkillDefinition). x.content_hash ≡ content_hash_of x.body) same refl;
    }
