-- ===== src/Skills/Resolver/Chosen.antt =====
-- Which skills are chosen.
use mathlib.Core.Path.{subst}
use knolo_agents.Base.{
  ℕ, String, ◌≡◌, refl, sym, ap, ◌∙◌, Bool, true, false, List, [], ◌∷◌, map, includes, Subset,
  every-includes→Subset, Has, Has-filter, Has-map, Result, ok, >>=-eq-ok, arith, inl, inr, ◌↔◌,
}
use knolo_agents.Base.Sort.{sort_by-Has}
use knolo_agents.Builder.{or_default}
use knolo_agents.Capabilities.Authority.{EffectiveAuthority}
use knolo_agents.Capabilities.Index.{IndexedSkill, skills_of}
use knolo_agents.Harness.Types.{HarnessError, Task}
use knolo_agents.Skills.Types.{
  SkillDefinitionInput, SkillDefinition, RegistryMode, PublishPolicy, SkillResolutionMode,
  SkillSelected,
}
use knolo_agents.Skills.Definition.{normalize_skill_definition}
use knolo_agents.Skills.Resolver.{
  ResolveSkillsInput, ResolvedSkills, RankedSkill, Placement, ranked, refused, ranked_of,
  selected_of, is_authorized, check_pinned, place_skill, rank_skill, rank_skills, sorted_ranks,
  selected_ranks, receipt_for, resolved, resolve_indexed, resolve_in, resolve_skills, is_preferred,
}

-- A skill needs only what the authority grants.
pub record IsAuthorized (skill : SkillDefinition) (authority : EffectiveAuthority) : Type 0 where
  pub capabilities_granted : Subset skill.body.required_capabilities authority.capabilities
  pub tools_granted : Subset skill.body.required_tools authority.tools

is_authorized_lem :
    (skill : SkillDefinition) (authority : EffectiveAuthority)
    → is_authorized skill authority ≡ true
    → IsAuthorized skill authority
unfolding is_authorized
is_authorized_lem skill authority h = record {
  capabilities_granted =
      every-includes→Subset skill.body.required_capabilities authority.capabilities (ground arith);
  tools_granted = every-includes→Subset skill.body.required_tools authority.tools (ground arith);
}

pub ranked_of-Has :
    (ps : List Placement) (r : RankedSkill) → Has r (ranked_of ps) ↔ Has (ranked r) ps
unfolding ranked_of
ranked_of-Has [] r = (λ h. h, λ h. h)
ranked_of-Has (ranked x ∷ ps) r =
    let (there, back) = ranked_of-Has ps r in
    (
      λ h. elim h [ inl q ↦ inl (ap ranked q) | inr k ↦ inr (there k) ],
      λ h. elim h [ inl q ↦ inl (cc q) | inr k ↦ inr (back k) ],
    )
ranked_of-Has (refused x ∷ ps) r =
    let (there, back) = ranked_of-Has ps r in
    (λ h. inr (there h), λ h. elim h [ inl q ↦ cc q | inr k ↦ back k ])

module _ (lower : String → String) (per_million : ℕ → ℕ → ℕ) (locale_le : String → String → Bool)
    (content_hash_of : SkillDefinitionInput → String) where
  -- A ranked skill is the normal form of a skill of the list, and is authorized.
  pub record IsRanked (task : Task) (authority : EffectiveAuthority) (entries : List IndexedSkill)
      (r : RankedSkill) : Type 0 where
    pub entry : IndexedSkill
    pub from_index : Has entry entries
    pub normal : normalize_skill_definition content_hash_of entry.skill ≡ ok r.skill
    pub granted : IsAuthorized r.skill authority
    pub pinned : r.required ≡ includes (or_default task.preferred_skills []) r.skill.body.id

  place_skill-ranked :
      (a required : Bool) (task : Task) (skill : SkillDefinition) (r : RankedSkill)
      → place_skill lower per_million locale_le content_hash_of a required task skill
        ≡ ok (ranked r)
      → (a ≡ true) × (skill ≡ r.skill) × (r.required ≡ required)
  unfolding place_skill
  place_skill-ranked true required task skill r h =
      let same = ranked_inverse _ r h in
      (
        refl,
        ap (λ (x : RankedSkill). x.skill) same,
        sym (ap (λ (x : RankedSkill). x.required) same),
      )
    where
      ranked_inverse :
          (x r : RankedSkill)
          → ◌≡◌ {A = Result HarnessError Placement} (ok (ranked x)) (ok (ranked r))
          → x ≡ r
      ranked_inverse x r h = cc h
  place_skill-ranked false true task skill r h = cc
  place_skill-ranked false false task skill r h = cc

  ranked_first :
      (task : Task) (authority : EffectiveAuthority) (entry : IndexedSkill)
      (rest : List IndexedSkill) (r : RankedSkill) (first : Placement)
      → first ≡ ranked r
      → rank_skill lower per_million locale_le content_hash_of task authority entry ≡ ok first
      → IsRanked task authority (entry ∷ rest) r
  unfolding rank_skill is_preferred
  ranked_first task authority entry rest r first q h =
      let (skill, n, p) = >>=-eq-ok (normalize_skill_definition content_hash_of entry.skill) _ h in
      let (a, same, required) =
        place_skill-ranked (is_authorized skill authority) _ task skill r (p ∙ ap ok q) in
      record {
        entry = entry;
        from_index = inl refl;
        normal = n ∙ ap ok same;
        granted =
            is_authorized_lem r.skill authority
              (subst (λ s. is_authorized s authority ≡ true) same a);
        pinned =
            required
            ∙ ap (λ (s : SkillDefinition). includes (or_default task.preferred_skills []) s.body.id)
                same;
      }

  rank_skills-IsRanked :
      (task : Task) (authority : EffectiveAuthority) (entries : List IndexedSkill)
      (ps : List Placement)
      → rank_skills lower per_million locale_le content_hash_of task authority entries ≡ ok ps
      → (r : RankedSkill) → Has (ranked r) ps
      → IsRanked task authority entries r
  unfolding rank_skills rank_skill is_preferred
  rank_skills-IsRanked task authority [] ps h r m =
      absurd (subst (λ qs. Has (ranked r) qs) (sym (ok_inverse ps h)) m)
    where
      ok_inverse :
          (ps : List Placement)
          → ◌≡◌ {A = Result HarnessError (List Placement)} (ok []) (ok ps)
          → [] ≡ ps
      ok_inverse ps h = cc h
  rank_skills-IsRanked task authority (entry ∷ rest) ps h r m =
      let (first, e1, h1) =
        >>=-eq-ok (rank_skill lower per_million locale_le content_hash_of task authority entry) _
          h in
      let (others, e2, h2) =
        >>=-eq-ok (rank_skills lower per_million locale_le content_hash_of task authority rest) _
          h1 in
      let same : first ∷ others ≡ ps = cc h2 in
      let there : Has (ranked r) (first ∷ others) = subst (λ qs. Has (ranked r) qs) (sym same) m in
      elim there [
        | inl q ↦ ranked_first task authority entry rest r first q e1
        | inr k ↦
            let old = rank_skills-IsRanked task authority rest others e2 r k in
            record {
              entry = old.entry;
              from_index = inr old.from_index;
              normal = old.normal;
              granted = old.granted;
              pinned = old.pinned;
            }
      ]

  -- A selected skill, and the ranked skill that it reports.
  pub record IsChosen (input : ResolveSkillsInput) (selected : SkillSelected) : Type 0 where
    pub rank : RankedSkill
    pub reported : selected_of rank ≡ selected
    pub ranked_soundly : IsRanked input.task input.authority (skills_of locale_le input.index) rank

  selected_ranks-Has :
      (ps : List Placement) (r : RankedSkill)
      → Has r (selected_ranks lower per_million locale_le content_hash_of ps)
      → Has (ranked r) ps
  unfolding selected_ranks sorted_ranks
  selected_ranks-Has ps r h =
      (ranked_of-Has ps r).0 ((sort_by-Has _ (ranked_of ps) r).0 (Has-filter _ _ r h).0)

  resolve_indexed-IsChosen :
      (input : ResolveSkillsInput) (registry : RegistryMode) (publish : PublishPolicy)
      (resolution : SkillResolutionMode) (result : ResolvedSkills)
      → resolve_indexed lower per_million locale_le content_hash_of input registry publish
          resolution
        ≡ ok result
      → (s : SkillSelected) → Has s result.receipt.selected
      → IsChosen input s
  unfolding resolve_indexed resolved receipt_for
  resolve_indexed-IsChosen input registry publish resolution result h s m =
      let (missing, c, h1) =
        >>=-eq-ok (check_pinned registry input.index (or_default input.task.preferred_skills [])) _
          h in
      let (ps, r, h2) =
        >>=-eq-ok
          (rank_skills lower per_million locale_le content_hash_of input.task input.authority
            (skills_of locale_le input.index))
          _ h1 in
      let same : resolved lower per_million locale_le content_hash_of input registry publish
            resolution missing ps
          ≡ result =
        cc h2 in
      let there : Has s
          (map selected_of (selected_ranks lower per_million locale_le content_hash_of ps)) =
        subst (λ (x : ResolvedSkills). Has s x.receipt.selected) (sym same) m in
      let (rank, k, eq) = Has-map selected_of _ s there in
      record {
        rank = rank;
        reported = eq;
        ranked_soundly =
            rank_skills-IsRanked input.task input.authority _ ps r rank
              (selected_ranks-Has ps rank k);
      }

  resolve_in-IsChosen :
      (input : ResolveSkillsInput) (registry : RegistryMode) (publish : PublishPolicy)
      (resolution : SkillResolutionMode) (result : ResolvedSkills)
      → resolve_in lower per_million locale_le content_hash_of input registry publish resolution
        ≡ ok result
      → (s : SkillSelected) → Has s result.receipt.selected
      → IsChosen input s
  unfolding resolve_in receipt_for
  resolve_in-IsChosen input registry publish SkillResolutionMode.none result h s m =
      let empty : ResolvedSkills = record {
        items = [];
        receipt =
            receipt_for lower per_million locale_le content_hash_of input registry publish
              SkillResolutionMode.none [] [] [];
      } in
      let same : empty ≡ result = cc h in
      absurd (subst (λ (x : ResolvedSkills). Has s x.receipt.selected) (sym same) m)
  resolve_in-IsChosen input registry publish SkillResolutionMode.local result h s m =
      resolve_indexed-IsChosen input registry publish SkillResolutionMode.local result h s m
  resolve_in-IsChosen input registry publish SkillResolutionMode.auto result h s m =
      resolve_indexed-IsChosen input registry publish SkillResolutionMode.auto result h s m

  -- Every skill that the receipt reports as selected is the normal form of a skill of the index, with the hash
  -- of its own content, and needs no capability and no tool beyond the authority.
  pub resolve_skills-IsChosen :
      (input : ResolveSkillsInput) (result : ResolvedSkills)
      → resolve_skills lower per_million locale_le content_hash_of input ≡ ok result
      → (s : SkillSelected) → Has s result.receipt.selected
      → IsChosen input s
  unfolding resolve_skills
  resolve_skills-IsChosen input result h s m = resolve_in-IsChosen input _ _ _ result h s m
