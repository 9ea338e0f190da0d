-- ===== src/Experience/Store/Allowed.antt =====
-- What holds of the candidates and the promoted skills, and that the storing of a candidate keeps it.
use mathlib.Core.Path.{subst}
use knolo_agents.Base.{
  ◌≤◌, String, Bool, true, false, ◌&&◌, ◌||◌, Option, none, some, List, [], ◌∷◌, filter, any,
  includes, length, ok, Result-cases, Bool-cases, ◌==◌, ◌≡◌, refl, sym, ap, inl, inr, ◌⊎◌, arith,
  ◌≢◌, In, Subset, Has, str_eq→eq, snoc-Has,
}
use knolo_agents.Base.Dict.{get_key, get_key-put_key, get_key-put_key_same}
use knolo_agents.Base.Sort.{unique_sorted}
use knolo_agents.Skills.Types.{SkillDefinition}
use knolo_agents.Skills.Policy.{adapter_capabilities}
use knolo_agents.Skills.Definition.{normalize_skill_definition}
use knolo_agents.Experience.Types.{LessonCandidate, PromotionGates, SkillCandidate}
use knolo_agents.Experience.Promote.{
  granted, is_nil, not_of_adapter, draft_skill_from_lesson, gates_pass, evaluate_gates,
}
use knolo_agents.Experience.State.{
  Setting, LocalExperience, is_disabled_mode, is_auto_mode, is_promoted, drafted_status, push_new,
  kept_with,
}
use knolo_agents.Experience.Store.{
  with_candidate, gates_of, drafted, promote_skill, add_candidate, sync_existing, sync_candidate,
}

-- What a skill may ask for: what the authority has, where one is given, and nothing of an adapter.
abbrev pub Asks : (authority asked : List String) → Type 0
Asks authority asked =
    (authority ≢ [] → Subset asked authority)
    × ((c : String) → In c asked → ¬ In c adapter_capabilities)

-- What is left by a test passes it.
includes-filter :
    (p : String → Bool) (xs : List String) (c : String) → In c (filter p xs) → p c ≡ true
includes-filter p [] c h = cc h
includes-filter p (x ∷ xs) c h = elim (Bool-cases (p x)) [
  | inr n ↦ includes-filter p xs c (rw n at h)
  | inl y ↦ elim (Bool-cases (x == c)) [
    | inl e ↦ subst (λ k. p k ≡ true) (str_eq→eq x c e) y
    | inr d ↦ includes-filter p xs c (rw (y, d) at h)
  ]
]

granted-In :
    (authority : List String) (c : String)
    → authority ≢ []
    → granted authority c ≡ true
    → In c authority
unfolding granted is_nil
granted-In [] c n h = absurd (n refl)
granted-In (x ∷ authority) c n h = h

filter-Asks :
    (authority xs : List String)
    → Asks authority (filter (λ c. not_of_adapter c && granted authority c) xs)
unfolding not_of_adapter
filter-Asks authority xs = (
  λ n c h.
      let passed = includes-filter (λ c. not_of_adapter c && granted authority c) xs c h in
      granted-In authority c n (ground arith),
  λ c h a.
      let passed = includes-filter (λ c. not_of_adapter c && granted authority c) xs c h in
      ground arith,
)

module _ (o : Setting) where
  -- A promoted candidate: promotion is on, and automatic or approved for its lesson.
  abbrev pub IsAllowed : LocalExperience → String → SkillCandidate → Type 0
  IsAllowed s lesson c =
      (is_promoted c.status ≡ true
        → (is_disabled_mode o.policy.promote ≡ false)
          × ((is_auto_mode o.policy.promote || includes s.approvals lesson) ≡ true))
      × Asks o.authority_capabilities c.skill.required_capabilities

  -- The candidate from which a skill was promoted.
  abbrev pub IsSource : LocalExperience → SkillDefinition → Type 0
  IsSource s n =
      (lesson : String) × (c : SkillCandidate) × (get_key lesson s.candidates_by_lesson ≡ some c)
      × (is_promoted c.status ≡ true)
      × (normalize_skill_definition o.content_hash_of c.skill ≡ ok n)

  abbrev pub IsApproved : LocalExperience → Type 0
  IsApproved s =
      ((lesson : String) (c : SkillCandidate)
        → get_key lesson s.candidates_by_lesson ≡ some c
        → IsAllowed s lesson c)
      × ((n : SkillDefinition) → Has n s.promoted_skills → IsSource s n)
      × (length s.records ≤ o.policy.max_records)

  -- What replaces a candidate that is there.
  abbrev Replaces : LocalExperience → String → SkillCandidate → Type 0
  Replaces s lesson c =
      (old : SkillCandidate)
      → get_key lesson s.candidates_by_lesson ≡ some old
      → is_promoted old.status ≡ true
      → (is_promoted c.status ≡ true) × (old.skill ≡ c.skill)

  with_candidate-IsSource :
      (lesson : String) (c : SkillCandidate) (s : LocalExperience)
      → Replaces s lesson c
      → (n : SkillDefinition) → IsSource s n
      → IsSource (with_candidate o lesson c s) n
  with_candidate-IsSource lesson c s r n (j, old, f, p, q) = elim (Bool-cases (lesson == j)) [
    | inl e ↦
        let at : get_key lesson s.candidates_by_lesson ≡ some old =
          subst (λ k. get_key k s.candidates_by_lesson ≡ some old) (sym (str_eq→eq lesson j e)) f in
        let (promoted, same) = r old at p in
        (
          j,
          c,
          rw (get_key-put_key lesson j c s.candidates_by_lesson, e) refl,
          promoted,
          subst (λ k. normalize_skill_definition o.content_hash_of k ≡ ok n) same q,
        )
    | inr d ↦ (j, old, rw (get_key-put_key lesson j c s.candidates_by_lesson, d) f, p, q)
  ]

  with_candidate-IsApproved :
      (lesson : String) (c : SkillCandidate) (s : LocalExperience)
      → Replaces s lesson c
      → IsAllowed s lesson c
      → IsApproved s
      → IsApproved (with_candidate o lesson c s)
  with_candidate-IsApproved lesson c s r a (candidates, sources, bound) = (
    λ j d h. elim (Bool-cases (lesson == j)) [
      | inl e ↦
          let same : c ≡ d = cc (rw (get_key-put_key lesson j c s.candidates_by_lesson, e) at h) in
          subst (λ k. IsAllowed s k d) (str_eq→eq lesson j e)
            (subst (λ k. IsAllowed s lesson k) same a)
      | inr n ↦ candidates j d (rw (get_key-put_key lesson j c s.candidates_by_lesson, n) at h)
    ],
    λ n h. with_candidate-IsSource lesson c s r n (sources n h),
    bound,
  )

  push_new-Has :
      (x : SkillDefinition) (xs : List SkillDefinition) (n : SkillDefinition)
      → Has n (push_new x xs)
      → Has n xs ⊎ (x ≡ n)
  unfolding push_new
  push_new-Has x xs n h =
      elim (Bool-cases (any (λ (other : SkillDefinition). other.body.id == x.body.id) xs)) [
        | inl e ↦ inl (rw e at h)
        | inr d ↦ snoc-Has x xs n (rw d at h)
      ]

  promote_skill-IsApproved :
      (lesson : String) (c : SkillCandidate) (s : LocalExperience)
      → get_key lesson s.candidates_by_lesson ≡ some c
      → is_promoted c.status ≡ true
      → IsApproved s
      → IsApproved (promote_skill o c (normalize_skill_definition o.content_hash_of c.skill) s).0
  unfolding promote_skill
  promote_skill-IsApproved lesson c s f p (candidates, sources, bound) =
      elim (Result-cases (normalize_skill_definition o.content_hash_of c.skill)) [
        | inr (e, q) ↦ rw q (candidates, sources, bound)
        | inl (x, q) ↦ rw q (
          candidates,
          λ n h. elim (push_new-Has x s.promoted_skills n h) [
            | inl m ↦ sources n m
            | inr same ↦ (
              lesson,
              c,
              f,
              p,
              subst (λ k. normalize_skill_definition o.content_hash_of c.skill ≡ ok k) same q,
            )
          ],
          bound,
        )
      ]

  add_candidate-IsApproved :
      (lesson : String) (c : SkillCandidate) (s : LocalExperience)
      → Replaces s lesson c
      → IsAllowed s lesson c
      → IsApproved s
      → IsApproved (add_candidate o lesson c s).0
  unfolding add_candidate
  add_candidate-IsApproved lesson c s r a h =
      let stored : IsApproved (with_candidate o lesson c s) =
        with_candidate-IsApproved lesson c s r a h in
      let at : get_key lesson (with_candidate o lesson c s).candidates_by_lesson ≡ some c =
        get_key-put_key_same lesson c s.candidates_by_lesson in
      elim (Bool-cases (is_promoted c.status)) [
        | inl p ↦ rw p (promote_skill-IsApproved lesson c (with_candidate o lesson c s) at p stored)
        | inr n ↦ rw n stored
      ]

  drafted_status-promoted :
      (pass : Bool)
      → is_promoted (drafted_status o.policy.promote pass) ≡ true
      → (is_disabled_mode o.policy.promote ≡ false) × (pass ≡ true)
  unfolding drafted_status is_promoted
  drafted_status-promoted pass p = ground arith

  gates_pass-approval : (g : PromotionGates) → gates_pass g ≡ true → g.approval ≡ true
  unfolding gates_pass
  gates_pass-approval g h = ground arith

  drafted-IsAllowed :
      (lesson : LessonCandidate) (s : LocalExperience) → IsAllowed s lesson.id (drafted o lesson s)
  unfolding drafted draft_skill_from_lesson gates_of evaluate_gates
  drafted-IsAllowed lesson s = (
    λ p.
        let (on, pass) = drafted_status-promoted (gates_pass (gates_of o lesson s)) p in
        (on, gates_pass-approval (gates_of o lesson s) pass),
    filter-Asks o.authority_capabilities (unique_sorted lesson.required_capabilities),
  )

  -- Nothing, or a candidate that is not promoted, is replaced.
  draft-Replaces :
      (lesson : String) (c : SkillCandidate) (s : LocalExperience)
      → ((old : SkillCandidate)
          → get_key lesson s.candidates_by_lesson ≡ some old
          → is_promoted old.status ≡ false)
      → Replaces s lesson c
  draft-Replaces lesson c s n old f p = cc (n old f)

  sync_existing-IsApproved :
      (lesson : LessonCandidate) (existing : Option SkillCandidate) (s : LocalExperience)
      → get_key lesson.id s.candidates_by_lesson ≡ existing
      → IsApproved s
      → IsApproved (sync_existing o lesson existing s).0
  unfolding sync_existing
  sync_existing-IsApproved lesson none s f h =
      add_candidate-IsApproved lesson.id (drafted o lesson s) s
        (draft-Replaces lesson.id (drafted o lesson s) s (λ old g. cc)) (drafted-IsAllowed lesson s)
        h
  sync_existing-IsApproved lesson (some existing) s f h =
      elim (Bool-cases (is_promoted existing.status)) [
        | inr n ↦ rw n (
            add_candidate-IsApproved lesson.id (drafted o lesson s) s
              (draft-Replaces lesson.id (drafted o lesson s) s (λ old g.
                let same : existing ≡ old = cc in
                subst (λ (k : SkillCandidate). is_promoted k.status ≡ false) same n))
              (drafted-IsAllowed lesson s) h)
        | inl p ↦ rw p (
            with_candidate-IsApproved lesson.id (kept_with existing (gates_of o lesson s)) s
              (λ old g q.
                let same : old ≡ existing = cc in (p, ap (λ (k : SkillCandidate). k.skill) same))
              (h.0 lesson.id existing f) h)
      ]

  pub sync_candidate-IsApproved :
      (lesson : LessonCandidate) (s : LocalExperience)
      → IsApproved s
      → IsApproved (sync_candidate o lesson s).0
  unfolding sync_candidate
  sync_candidate-IsApproved lesson s h =
      sync_existing-IsApproved lesson (get_key lesson.id s.candidates_by_lesson) s refl h
