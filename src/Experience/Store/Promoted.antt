-- ===== src/Experience/Store/Promoted.antt =====
-- What promoted skills may ask for, and when an approval promotes.
use knolo_agents.Base.{
  ◌≤◌, ◌<◌, err, find-eq-some, includes-append, [], ◌∷◌, String, true, false, Option, none, some,
  List, find, includes, Has, Result, ok, ◌==◌, ◌≡◌, arith, refl, inl, inr, Bool-cases, sym,
  str_eq→eq, str_eq_refl,
}
use mathlib.Core.Path.{subst}
use knolo_agents.Base.Dict.{get_key, get_key-put_key_same, dict_values}
use knolo_agents.Harness.Types.{HarnessError}
use knolo_agents.Skills.Types.{SkillDefinition, SkillDefinitionInput}
use knolo_agents.Skills.Definition.{normalize_skill_definition}
use knolo_agents.Skills.Definition.Shape.{IsNormal, normalize_skill_definition-IsNormal}
use knolo_agents.Experience.Types.{LessonCandidate, SkillCandidate}
use knolo_agents.Experience.Promote.{is_nil, gates_pass, evaluate_gates}
use knolo_agents.Experience.State.{
  Setting, LocalExperience, new_experience, is_disabled_mode, is_promoted, add_text, drafted_status,
  kept_with,
}
use knolo_agents.Experience.Store.{
  Call, call_all, approve, approve_lesson, sync_candidate, sync_existing, add_candidate,
  promote_skill, with_candidate, drafted, gates_of,
}
use knolo_agents.Experience.Store.Allowed.{Asks}
use knolo_agents.Experience.Store.Approved.{found_candidate-state, call_all-IsApproved}

module _ (o : Setting) where
  -- A skill that is promoted after any calls on a new object asks for none of the capabilities of an
  -- adapter and, where an authority was given, only for capabilities of it (with none given, it may ask
  -- for any other); it has the hash of its own content, and promotion is switched on.
  pub call_all-promoted :
      (calls : List Call) (n : SkillDefinition)
      → Has n (call_all o calls new_experience).promoted_skills
      → Asks o.authority_capabilities n.body.required_capabilities
        × (n.content_hash ≡ o.content_hash_of n.body)
        × (is_disabled_mode o.policy.promote ≡ false)
  call_all-promoted calls n h =
      let (candidates, sources, bound) = call_all-IsApproved o calls in
      let (lesson, c, f, p, q) = sources n h in
      let (allowed, within) = candidates lesson c f in
      let normal : IsNormal o.content_hash_of c.skill n =
        normalize_skill_definition-IsNormal o.content_hash_of c.skill n q in
      (
        subst (λ (b : SkillDefinitionInput). Asks o.authority_capabilities b.required_capabilities)
            (sym normal.has_body) within,
        normal.has_hash,
        (allowed p).0,
      )

  promote_skill-candidates :
      (c : SkillCandidate) (n : Result HarnessError SkillDefinition) (s : LocalExperience)
      → (promote_skill o c n s).0.candidates_by_lesson ≡ s.candidates_by_lesson
  unfolding promote_skill
  promote_skill-candidates c (ok n) s = refl
  promote_skill-candidates c (err e) s = refl

  add_candidate-get_key :
      (lesson : String) (c : SkillCandidate) (s : LocalExperience)
      → get_key lesson (add_candidate o lesson c s).0.candidates_by_lesson ≡ some c
  unfolding add_candidate
  add_candidate-get_key lesson c s =
      let at : get_key lesson (with_candidate o lesson c s).candidates_by_lesson ≡ some c =
        get_key-put_key_same lesson c s.candidates_by_lesson in
      elim (Bool-cases (is_promoted c.status)) [
        | inl p ↦
            rw
              (
                p,
                promote_skill-candidates c (normalize_skill_definition o.content_hash_of c.skill)
                    (with_candidate o lesson c s),
              )
              at
        | inr n ↦ rw n at
      ]

  drafted-promoted :
      (lesson : LessonCandidate) (s : LocalExperience)
      → is_disabled_mode o.policy.promote ≡ false
      → gates_pass (gates_of o lesson s) ≡ true
      → is_promoted (drafted o lesson s).status ≡ true
  unfolding drafted drafted_status is_promoted
  drafted-promoted lesson s on pass = rw (on, pass) refl

  -- The lesson's candidate is there and promoted.
  abbrev pub IsPromoted : LocalExperience → String → Type 0
  IsPromoted s lesson =
      (c : SkillCandidate) × (get_key lesson s.candidates_by_lesson ≡ some c)
      × (is_promoted c.status ≡ true)

  sync_existing-IsPromoted :
      (lesson : LessonCandidate) (existing : Option SkillCandidate) (s : LocalExperience)
      → is_disabled_mode o.policy.promote ≡ false
      → gates_pass (gates_of o lesson s) ≡ true
      → IsPromoted (sync_existing o lesson existing s).0 lesson.id
  unfolding sync_existing
  sync_existing-IsPromoted lesson none s on pass = (
    drafted o lesson s,
    add_candidate-get_key lesson.id (drafted o lesson s) s,
    drafted-promoted lesson s on pass,
  )
  sync_existing-IsPromoted lesson (some existing) s on pass =
      elim (Bool-cases (is_promoted existing.status)) [
        | inl p ↦ (
          kept_with existing (gates_of o lesson s),
          rw p (
              get_key-put_key_same lesson.id (kept_with existing (gates_of o lesson s))
                s.candidates_by_lesson),
          p,
        )
        | inr n ↦ (
          drafted o lesson s,
          rw n (add_candidate-get_key lesson.id (drafted o lesson s) s),
          drafted-promoted lesson s on pass,
        )
      ]

  sync_candidate-IsPromoted :
      (lesson : LessonCandidate) (s : LocalExperience)
      → is_disabled_mode o.policy.promote ≡ false
      → gates_pass (gates_of o lesson s) ≡ true
      → IsPromoted (sync_candidate o lesson s).0 lesson.id
  unfolding sync_candidate
  sync_candidate-IsPromoted lesson s =
      sync_existing-IsPromoted lesson (get_key lesson.id s.candidates_by_lesson) s

  add_text_self : (x : String) (xs : List String) → includes (add_text x xs) x ≡ true
  unfolding add_text
  add_text_self x xs = ground (arith, includes-append xs (x ∷ []) x, str_eq_refl x)

  approved-gates :
      (lesson : LessonCandidate) (s : LocalExperience)
      → o.policy.min_usefulness ≤ lesson.usefulness
      → 0 < lesson.usefulness
      → is_nil lesson.run_ids ≡ false
      → gates_pass (gates_of o lesson (record s { approvals = add_text lesson.id s.approvals }))
        ≡ true
  unfolding gates_pass gates_of evaluate_gates
  approved-gates lesson s enough some_use runs = ground (arith, add_text_self lesson.id s.approvals)

  -- Where promotion is on, approving the lesson that has the id, with enough uses, at least one, and
  -- with runs in its provenance, leaves a promoted candidate for it, also where the normalisation of the
  -- skill throws.
  pub approve-IsPromoted :
      (id : String) (lesson : LessonCandidate) (s : LocalExperience)
      → find (λ (l : LessonCandidate). l.id == id) (dict_values s.lessons_by_key) ≡ some lesson
      → is_disabled_mode o.policy.promote ≡ false
      → o.policy.min_usefulness ≤ lesson.usefulness
      → 0 < lesson.usefulness
      → is_nil lesson.run_ids ≡ false
      → IsPromoted (approve o id s).0 id
  unfolding approve approve_lesson
  approve-IsPromoted id lesson s f on enough some_use runs =
      let after : LocalExperience = record s { approvals = add_text id s.approvals } in
      let same : lesson.id ≡ id =
        str_eq→eq lesson.id id
          (find-eq-some (λ (l : LessonCandidate). l.id == id) (dict_values s.lessons_by_key) f).1 in
      let pass : gates_pass (gates_of o lesson after) ≡ true =
        subst
          (λ (k : String).
            gates_pass (gates_of o lesson (record s { approvals = add_text k s.approvals })) ≡ true)
          same (approved-gates lesson s enough some_use runs) in
      let (c, g, p) = sync_candidate-IsPromoted lesson after on pass in
      (
        c,
        rw (f, found_candidate-state o (sync_candidate o lesson after))
            (subst (λ k. get_key k (sync_candidate o lesson after).0.candidates_by_lesson ≡ some c)
              same g),
        p,
      )
