-- ===== src/Experience/Store/Approved.antt =====
-- What holds of the object after any calls: what is promoted, and how much is kept.
use mathlib.Core.Path.{subst}
use knolo_agents.Base.{
  ℕ, ◌-◌, ◌≤◌, zero, suc, String, true, false, Option, none, some, List, [], ◌∷◌, ◌++◌, includes,
  length, Result, ok, err, Bool-cases, ◌≡◌, refl, sym, inl, inr, arith, includes-append,
}
use knolo_agents.Base.Dict.{get_key, put_key}
use knolo_agents.Harness.Types.{status_text, HarnessError}
use knolo_agents.Experience.Types.{
  ExperienceRecord, LessonCandidate, SkillCandidate, RecordExperienceInput,
}
use knolo_agents.Experience.State.{
  Setting, LocalExperience, new_experience, is_disabled_mode, add_text, pushed, splice_first,
}
use knolo_agents.Experience.Store.{
  Done, sync_candidate, found_candidate, approve_lesson, approve, new_record, synced, learn,
  remembered, keep_record, record_experience, Call, recording, approving, call_all,
}
use knolo_agents.Experience.Store.Allowed.{IsApproved, sync_candidate-IsApproved}

module _ (o : Setting) where
  add_text-includes :
      (x : String) (xs : List String) (y : String)
      → includes xs y ≡ true
      → includes (add_text x xs) y ≡ true
  unfolding add_text
  add_text-includes x xs y h = ground (arith, includes-append xs (x ∷ []) y)

  length-splice_first :
      (n : ℕ) (xs : List ExperienceRecord) → length (splice_first n xs) ≡ length xs - n
  unfolding splice_first
  length-splice_first zero xs = omega arith
  length-splice_first (suc n) [] = omega arith
  length-splice_first (suc n) (x ∷ xs) = omega (arith, length-splice_first n xs)

  length-pushed :
      (r : ExperienceRecord) (xs : List ExperienceRecord)
      → length (pushed o.policy.max_records r xs) ≤ o.policy.max_records
  unfolding pushed
  length-pushed r xs =
      ground
        (arith, length-splice_first (length (xs ++ r ∷ []) - o.policy.max_records) (xs ++ r ∷ []))

  pub found_candidate-state : (d : Done SkillCandidate) → (found_candidate o d).0 ≡ d.0
  unfolding found_candidate
  found_candidate-state (s, ok c) = refl
  found_candidate-state (s, err e) = refl

  synced-state :
      (r : ExperienceRecord) (lesson : String) (d : Done SkillCandidate)
      → (synced o r lesson d).0 ≡ d.0
  unfolding synced
  synced-state r lesson (s, ok c) = refl
  synced-state r lesson (s, err e) = refl

  approve_lesson-IsApproved :
      (id : String) (lesson : Option LessonCandidate) (s : LocalExperience)
      → IsApproved o s
      → IsApproved o (approve_lesson o id lesson s).0
  unfolding approve_lesson
  approve_lesson-IsApproved id none s h = h
  approve_lesson-IsApproved id (some lesson) s h =
      rw (found_candidate-state (sync_candidate o lesson s))
        (sync_candidate-IsApproved o lesson s h)

  approve-IsApproved :
      (id : String) (s : LocalExperience) → IsApproved o s → IsApproved o (approve o id s).0
  unfolding approve
  approve-IsApproved id s (candidates, sources, bound) =
      approve_lesson-IsApproved id _ (record s { approvals = add_text id s.approvals })
        (
          λ j c f.
              let (allowed, within) = candidates j c f in
              (
                λ p.
                    let (on, given) = allowed p in
                    (on, ground (arith, add_text-includes id s.approvals j)),
                within,
              ),
          sources,
          bound,
        )

  abbrev with_lesson : ExperienceRecord → LessonCandidate → LocalExperience → LocalExperience
  with_lesson r lesson s = record s {
    lessons_by_key = put_key r.pattern_key lesson s.lessons_by_key;
  }

  learn-off :
      (r : ExperienceRecord) (lesson : LessonCandidate) (s : LocalExperience)
      → is_disabled_mode o.policy.promote ≡ true
      → (learn o r (some lesson) s).0 ≡ with_lesson r lesson s
  unfolding learn
  learn-off r lesson s e = rw e refl

  learn-on :
      (r : ExperienceRecord) (lesson : LessonCandidate) (s : LocalExperience)
      → is_disabled_mode o.policy.promote ≡ false
      → (learn o r (some lesson) s).0 ≡ (sync_candidate o lesson (with_lesson r lesson s)).0
  unfolding learn
  learn-on r lesson s n =
      rw n (synced-state r lesson.id (sync_candidate o lesson (with_lesson r lesson s)))

  learn-IsApproved :
      (r : ExperienceRecord) (lesson : Option LessonCandidate) (s : LocalExperience)
      → IsApproved o s
      → IsApproved o (learn o r lesson s).0
  unfolding learn
  learn-IsApproved r none s h = h
  learn-IsApproved r (some lesson) s h = elim (Bool-cases (is_disabled_mode o.policy.promote)) [
    | inl e ↦ subst (IsApproved o) (sym (learn-off r lesson s e)) h
    | inr n ↦
        subst (IsApproved o) (sym (learn-on r lesson s n))
          (sync_candidate-IsApproved o lesson (with_lesson r lesson s) h)
  ]

  remembered-IsApproved :
      (r : ExperienceRecord) (m : Result HarnessError (Unit {0})) (s : LocalExperience)
      → IsApproved o s
      → IsApproved o (remembered o r m s).0
  unfolding remembered
  remembered-IsApproved r (err e) s h = h
  remembered-IsApproved r (ok u) s h = learn-IsApproved r _ s h

  keep_record-IsApproved :
      (r : ExperienceRecord) (s : LocalExperience)
      → IsApproved o s
      → IsApproved o (keep_record o r s).0
  unfolding keep_record
  keep_record-IsApproved r s (candidates, sources, bound) =
      remembered-IsApproved r (o.remember r.text ("experience" ∷ status_text r.status ∷ r.labels)) _
        (candidates, sources, length-pushed r s.records)

  record_experience-IsApproved :
      (input : RecordExperienceInput) (s : LocalExperience)
      → IsApproved o s
      → IsApproved o (record_experience o input s).0
  unfolding record_experience
  record_experience-IsApproved input s h = elim (Bool-cases o.policy.enabled) [
    | inl e ↦ rw e (keep_record-IsApproved (new_record o input s) s h)
    | inr n ↦ rw n h
  ]

  call_all-keeps :
      (calls : List Call) (s : LocalExperience) → IsApproved o s → IsApproved o (call_all o calls s)
  unfolding call_all
  call_all-keeps [] s h = h
  call_all-keeps (recording input ∷ calls) s h =
      call_all-keeps calls (record_experience o input s).0 (record_experience-IsApproved input s h)
  call_all-keeps (approving id ∷ calls) s h =
      call_all-keeps calls (approve o id s).0 (approve-IsApproved id s h)

  -- After any calls of `record` and `approve` on a new object, whatever they throw: a promoted candidate
  -- has promotion switched on, and is auto-approved or its lesson is among the approvals; every
  -- candidate asks for none of the capabilities of an adapter and, where an authority was given, only for
  -- capabilities of it; every promoted skill is the normal form of a promoted candidate's skill; and there
  -- are at most `max_records` records.
  pub call_all-IsApproved : (calls : List Call) → IsApproved o (call_all o calls new_experience)
  unfolding get_key
  call_all-IsApproved calls =
      call_all-keeps calls new_experience
        (λ j c f. (λ p. (cc, cc), cc), λ n h. absurd h, omega arith)
