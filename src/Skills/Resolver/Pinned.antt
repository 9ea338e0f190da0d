-- ===== src/Skills/Resolver/Pinned.antt =====
-- A pinned skill is selected, where it does not stop the resolution.
use mathlib.Core.Path.{subst}
use knolo_agents.Base.{
  ℕ, String, ◌≡◌, refl, sym, ap, ◌∙◌, Bool, true, false, ◌||◌, some, List, [], ◌∷◌, includes, In,
  Has, filter-Has, map-Has, ok, >>=-eq-ok, ltb, arith, inl, inr, Bool-cases, Option-cases, ◌==◌,
  str_eq→eq,
}
use knolo_agents.Base.Dict.{get_key-Has, dict_values}
use knolo_agents.Base.Sort.{sort_by-Has}
use knolo_agents.Builder.{or_default}
use knolo_agents.Capabilities.Authority.{EffectiveAuthority}
use knolo_agents.Capabilities.Index.{IndexedSkill, CapabilityIndex, find_skill, skills_of}
use knolo_agents.Capabilities.Index.Sound.{IsIndexed}
use knolo_agents.Harness.Types.{Task}
use knolo_agents.Skills.Types.{
  SkillDefinitionInput, SkillDefinition, RegistryMode, PublishPolicy, SkillResolutionMode,
  SkillSelected, SkillRejected,
}
use knolo_agents.Skills.Definition.{normalize_skill_definition, shaped}
use knolo_agents.Skills.Definition.Shape.{IsNormal, normalize_skill_definition-IsNormal}
use knolo_agents.Skills.Resolver.{
  ResolveSkillsInput, ResolvedSkills, RankedSkill, Placement, ranked, ranked_of, selected_of,
  is_authorized, check_pinned, score_skill, place_skill, rank_skill, rank_skills, sorted_ranks,
  selected_ranks, receipt_for, resolved, resolve_indexed, is_preferred,
}
use knolo_agents.Skills.Resolver.Chosen.{ranked_of-Has}

-- Without a registry, every pinned skill is in the index.
check_pinned-found :
    (index : CapabilityIndex) (pins : List String) (missing : List SkillRejected)
    → check_pinned RegistryMode.disabled index pins ≡ ok missing
    → (p : String) → In p pins
    → (entry : IndexedSkill) × (find_skill p index ≡ some entry)
unfolding check_pinned
check_pinned-found index [] missing h p m = cc
check_pinned-found index (q ∷ pins) missing h p m = elim (Option-cases (find_skill q index)) [
  | inl n ↦ cc (rw (n, check_pinned) at h)
  | inr (entry, f) ↦ elim (Bool-cases (q == p)) [
    | inl e ↦ (entry, subst (λ k. find_skill k index ≡ some entry) (str_eq→eq q p e) f)
    | inr d ↦ check_pinned-found index pins missing (rw (f, check_pinned) at h) p (ground arith)
  ]
]

normalize-id :
    (content_hash_of : SkillDefinitionInput → String) (input : SkillDefinitionInput)
    (d : SkillDefinition)
    → normalize_skill_definition content_hash_of input ≡ ok d
    → d.body.id ≡ input.id
unfolding shaped
normalize-id content_hash_of input d h =
    let normal : IsNormal content_hash_of input d =
      normalize_skill_definition-IsNormal content_hash_of input d h in
    ap (λ (x : SkillDefinitionInput). x.id) normal.has_body

module _ (lower : String → String) (per_million : ℕ → ℕ → ℕ) (locale_le : String → String → Bool)
    (content_hash_of : SkillDefinitionInput → String) where
  -- A pinned skill that does not throw is ranked.
  place_skill-pinned :
      (a : Bool) (task : Task) (skill : SkillDefinition) (p : Placement)
      → place_skill lower per_million locale_le content_hash_of a true task skill ≡ ok p
      → (r : RankedSkill) × (p ≡ ranked r) × (r.required ≡ true) × (r.skill ≡ skill)
  unfolding place_skill
  place_skill-pinned true task skill p h =
      let r : RankedSkill = record {
        skill = skill;
        score =
            score_skill lower per_million locale_le content_hash_of skill task.objective task true;
        required = true;
      } in
      let same : ranked r ≡ p = cc h in (r, sym same, refl, refl)
  place_skill-pinned false task skill p h = cc h

  rank_skills-Has :
      (task : Task) (authority : EffectiveAuthority) (entries : List IndexedSkill)
      (ps : List Placement)
      → rank_skills lower per_million locale_le content_hash_of task authority entries ≡ ok ps
      → (entry : IndexedSkill) → Has entry entries
      → (p : Placement) × Has p ps
        × (rank_skill lower per_million locale_le content_hash_of task authority entry ≡ ok p)
  unfolding rank_skills
  rank_skills-Has task authority [] ps h entry m = absurd m
  rank_skills-Has task authority (first ∷ rest) ps h entry m =
      let (p, e1, h1) =
        >>=-eq-ok (rank_skill lower per_million locale_le content_hash_of task authority first) _
          h in
      let (others, e2, h2) =
        >>=-eq-ok (rank_skills lower per_million locale_le content_hash_of task authority rest) _
          h1 in
      let same : p ∷ others ≡ ps = cc h2 in
      elim m [
        | inl q ↦ (
          p,
          subst (λ qs. Has p qs) same (inl refl),
          subst
              (λ x. rank_skill lower per_million locale_le content_hash_of task authority x ≡ ok p)
              q e1,
        )
        | inr k ↦
            let (o, there, e) = rank_skills-Has task authority rest others e2 entry k in
            (o, subst (λ qs. Has o qs) same (inr there), e)
      ]

  rank_skill-pinned :
      (task : Task) (authority : EffectiveAuthority) (entry : IndexedSkill) (p : Placement)
      → rank_skill lower per_million locale_le content_hash_of task authority entry ≡ ok p
      → In entry.skill.id (or_default task.preferred_skills [])
      → (r : RankedSkill) × (p ≡ ranked r)
        × (r.required ≡ true)
        × (r.skill.body.id ≡ entry.skill.id)
  unfolding rank_skill is_preferred
  rank_skill-pinned task authority entry p h m =
      let (skill, n, placed) =
        >>=-eq-ok (normalize_skill_definition content_hash_of entry.skill) _ h in
      let id : skill.body.id ≡ entry.skill.id = normalize-id content_hash_of entry.skill skill n in
      let pinned : includes (or_default task.preferred_skills []) skill.body.id ≡ true =
        subst (λ k. In k (or_default task.preferred_skills [])) (sym id) m in
      let (r, e, q, same) = place_skill-pinned (is_authorized skill authority) task skill p (
        subst
          (λ b.
            place_skill lower per_million locale_le content_hash_of (is_authorized skill authority)
              b task skill
            ≡ ok p)
          pinned placed) in
      (r, e, q, ap (λ (s : SkillDefinition). s.body.id) same ∙ id)

  -- With an index in order, without a registry and with a resolution that is not `none`, every pinned skill is among
  -- the selected ones and marked as required, unless the resolution throws.
  pub resolve_indexed-pinned :
      (input : ResolveSkillsInput) (publish : PublishPolicy) (resolution : SkillResolutionMode)
      (result : ResolvedSkills)
      → IsIndexed input.index
      → resolve_indexed lower per_million locale_le content_hash_of input RegistryMode.disabled
          publish resolution
        ≡ ok result
      → (p : String) → In p (or_default input.task.preferred_skills [])
      → (s : SkillSelected) × Has s result.receipt.selected × (s.id ≡ p) × (s.required ≡ true)
  unfolding resolve_indexed resolved receipt_for selected_ranks sorted_ranks skills_of find_skill
      selected_of
  resolve_indexed-pinned input publish resolution result indexed h p m =
      let (missing, c, h1) =
        >>=-eq-ok
          (check_pinned RegistryMode.disabled input.index
            (or_default input.task.preferred_skills []))
          _ h in
      let (ps, ranks, h2) =
        >>=-eq-ok
          (rank_skills lower per_million locale_le content_hash_of input.task input.authority
            (skills_of locale_le input.index))
          _ h1 in
      let same : resolved lower per_million locale_le content_hash_of input RegistryMode.disabled
            publish resolution missing ps
          ≡ result =
        cc h2 in
      let (entry, found) =
        check_pinned-found input.index (or_default input.task.preferred_skills []) missing c p m in
      let own : entry.skill.id ≡ p = (indexed p entry found).same_id in
      let listed : Has entry (skills_of locale_le input.index) =
        (sort_by-Has (λ (l r : IndexedSkill). locale_le l.skill.id r.skill.id)
            (dict_values input.index.by_skill_id) entry).1
          (get_key-Has p input.index.by_skill_id found) in
      let (placement, there, e) =
        rank_skills-Has input.task input.authority _ ps ranks entry listed in
      let (r, q, required, id) =
        rank_skill-pinned input.task input.authority entry placement e
          (subst (λ k. In k (or_default input.task.preferred_skills [])) (sym own) m) in
      let sorted : Has r (sorted_ranks lower per_million locale_le content_hash_of ps) =
        (sort_by-Has _ (ranked_of ps) r).1
          ((ranked_of-Has ps r).1 (subst (λ x. Has x ps) q there)) in
      let chosen : Has r (selected_ranks lower per_million locale_le content_hash_of ps) =
        filter-Has (λ (x : RankedSkill). x.required || ltb 0 x.score) _ r sorted
          (ground (arith, required)) in
      (
        selected_of r,
        subst (λ (x : ResolvedSkills). Has (selected_of r) x.receipt.selected) same
            (map-Has selected_of _ r chosen),
        id ∙ own,
        required,
      )
