-- ===== src/Experience/Store.antt =====
-- packages/agents/src/experience/store.ts. A method runs to its end before the next one starts.
pub mod Allowed
pub mod Approved
pub mod Promoted
use knolo_agents.Base.{
  ℕ, ◌+◌, ◌-◌, zero, suc, String, Bool, true, false, not, ◌&&◌, ◌||◌, Option, none, some, List, [],
  ◌∷◌, ◌++◌, map, filter, any, find, includes, length, ltb, eqb, Result, ok, err, ◌>>◌, require,
  ◌==◌, if◌then◌else◌,
}
use knolo_agents.Base.Dict.{Dict, get_key, put_key, dict_values}
use knolo_agents.Base.Sort.{sort_by, text_le}
use knolo_agents.Base.Text.{◌^^◌}
use knolo_agents.Builder.{or_default}
use knolo_agents.Context.Lexical.{lexical_score}
use knolo_agents.Contracts.Values.{Json}
use knolo_agents.Harness.Types.{
  status_text, HarnessError, InvocationStatus, Task, publish_not_disabled, min_usefulness_invalid,
  max_records_invalid,
}
use knolo_agents.Skills.Types.{SkillDefinitionInput, SkillDefinition}
use knolo_agents.Skills.Definition.{normalize_skill_definition}
use knolo_agents.Experience.Types.{
  ExperiencePromoteMode, ExperiencePolicy, ExperienceRecord, LessonCandidate, PromotionGates,
  CandidateStatus, SkillCandidate, ExperienceReceipt, ExperienceSnapshot, RecordExperienceInput,
}
use knolo_agents.Experience.Policy.{LocalPolicy}
use knolo_agents.Experience.State.{
  Setting, LocalExperience, new_experience, empty_receipt, is_disabled_mode, is_auto_mode,
  is_promoted, drafted_status, add_text, push_new, pushed, sorted_texts, kept_with,
  experience_receipt,
}
use knolo_agents.Experience.Promote.{
  pattern_key, is_useful_experience, bound_experience_text, lesson_from_useful,
  draft_skill_from_lesson, evaluate_gates, gates_pass,
}

-- A state and what the call returned or threw.
abbrev pub Done : Type 0 → Type 0
Done A = LocalExperience × Result HarnessError A

module _ (o : Setting) where
  abbrev with_candidate : String → SkillCandidate → LocalExperience → LocalExperience
  with_candidate lesson c s = record s {
    candidates_by_lesson = put_key lesson c s.candidates_by_lesson;
  }

  gates_of : LessonCandidate → LocalExperience → PromotionGates
  unfolding evaluate_gates is_auto_mode
  gates_of lesson s =
      evaluate_gates lesson o.policy.min_usefulness (includes s.approvals lesson.id)
        (is_auto_mode o.policy.promote)

  drafted : LessonCandidate → LocalExperience → SkillCandidate
  unfolding draft_skill_from_lesson gates_of gates_pass drafted_status
  drafted lesson s =
      let draft = draft_skill_from_lesson o.lower o.slice lesson o.authority_capabilities in
      record {
        version = 1;
        id = draft.id;
        lesson_id = lesson.id;
        skill = draft;
        gates = gates_of lesson s;
        status = drafted_status o.policy.promote (gates_pass (gates_of lesson s));
      }

  promote_skill :
      SkillCandidate → Result HarnessError SkillDefinition → LocalExperience → Done SkillCandidate
  unfolding push_new
  promote_skill c (err e) s = (s, err e)
  promote_skill c (ok normalized) s =
      (record s { promoted_skills = push_new normalized s.promoted_skills }, ok c)

  add_candidate : String → SkillCandidate → LocalExperience → Done SkillCandidate
  unfolding put_key is_promoted promote_skill normalize_skill_definition
  add_candidate lesson c s =
      let stored = with_candidate lesson c s in
      if is_promoted c.status
      then promote_skill c (normalize_skill_definition o.content_hash_of c.skill) stored
      else (stored, ok c)

  sync_existing : LessonCandidate → Option SkillCandidate → LocalExperience → Done SkillCandidate
  unfolding is_promoted put_key kept_with gates_of drafted add_candidate
  sync_existing lesson none s = add_candidate lesson.id (drafted lesson s) s
  sync_existing lesson (some existing) s =
      let kept = kept_with existing (gates_of lesson s) in
      if is_promoted existing.status
      then (with_candidate lesson.id kept s, ok kept)
      else add_candidate lesson.id (drafted lesson s) s

  unfoldable pub sync_candidate : LessonCandidate → LocalExperience → Done SkillCandidate
  unfolding get_key sync_existing
  sync_candidate lesson s = sync_existing lesson (get_key lesson.id s.candidates_by_lesson) s

  unfoldable pub found_candidate : Done SkillCandidate → Done (Option SkillCandidate)
  found_candidate (s, err e) = (s, err e)
  found_candidate (s, ok c) = (s, ok (some c))

  approve_lesson : String → Option LessonCandidate → LocalExperience → Done (Option SkillCandidate)
  unfolding get_key sync_candidate found_candidate
  approve_lesson id none s = (s, ok (get_key id s.candidates_by_lesson))
  approve_lesson id (some lesson) s = found_candidate (sync_candidate lesson s)

  unfoldable pub approve : String → LocalExperience → Done (Option SkillCandidate)
  unfolding add_text dict_values approve_lesson
  approve id s =
      approve_lesson id (find (λ (l : LessonCandidate). l.id == id) (dict_values s.lessons_by_key))
        (record s { approvals = add_text id s.approvals })

  new_record : RecordExperienceInput → LocalExperience → ExperienceRecord
  unfolding pattern_key is_useful_experience bound_experience_text sorted_texts
  new_record input s = record {
    version = 1;
    id = "experience/" ^^ (input.run_id ^^ ("/" ^^ o.decimal (length s.records + 1)));
    run_id = input.run_id;
    sequence = length s.records + 1;
    pattern_key = pattern_key o.lower o.pattern_hash input.task;
    objective = input.task.objective;
    success_criteria = input.task.success_criteria;
    status = input.status;
    useful =
        is_useful_experience input.status input.task.success_criteria input.success_criteria_matched
          input.prohibited_violations;
    text =
        bound_experience_text o.slice o.stringify input.task input.output
          (or_default input.skill_ids []);
    skill_ids = sorted_texts input.skill_ids;
    required_capabilities = sorted_texts input.task.required_capabilities;
    evidence_ids = sorted_texts input.evidence_ids;
    dependency_root = input.dependency_root;
    success_criteria_matched = input.success_criteria_matched;
    prohibited_violations = input.prohibited_violations;
    labels = sorted_texts input.labels;
  }

  synced : ExperienceRecord → String → Done SkillCandidate → Done ExperienceReceipt
  unfolding experience_receipt
  synced r lesson (s, err e) = (s, err e)
  synced r lesson (s, ok c) = (s, ok (experience_receipt r (some lesson) (some c)))

  learn : ExperienceRecord → Option LessonCandidate → LocalExperience → Done ExperienceReceipt
  unfolding put_key is_disabled_mode sync_candidate synced experience_receipt
  learn r none s = (s, ok (experience_receipt r none none))
  learn r (some lesson) s =
      let stored = record s { lessons_by_key = put_key r.pattern_key lesson s.lessons_by_key } in
      if not (is_disabled_mode o.policy.promote)
      then synced r lesson.id (sync_candidate lesson stored)
      else (stored, ok (experience_receipt r (some lesson.id) none))

  remembered :
      ExperienceRecord → Result HarnessError (Unit {0}) → LocalExperience → Done ExperienceReceipt
  unfolding learn lesson_from_useful
  remembered r (err e) s = (s, err e)
  remembered r (ok done) s =
      learn r
        (lesson_from_useful o.slice
          (filter (λ (other : ExperienceRecord). other.pattern_key == r.pattern_key) s.records))
        s

  keep_record : ExperienceRecord → LocalExperience → Done ExperienceReceipt
  unfolding pushed remembered status_text
  keep_record r s =
      remembered r (o.remember r.text ("experience" ∷ status_text r.status ∷ r.labels))
        (record s { records = pushed o.policy.max_records r s.records })

  unfoldable pub record_experience :
      RecordExperienceInput → LocalExperience → Done ExperienceReceipt
  unfolding new_record keep_record empty_receipt
  record_experience input s =
      if o.policy.enabled then keep_record (new_record input s) s else (s, ok empty_receipt)

-- The calls that change the object.
pub data Call : Type 0 where
  recording : (input : RecordExperienceInput) → Call
  approving : (id : String) → Call

unfoldable pub call_all : Setting → List Call → LocalExperience → LocalExperience
unfolding record_experience approve
call_all o [] s = s
call_all o (recording input ∷ calls) s = call_all o calls (record_experience o input s).0
call_all o (approving id ∷ calls) s = call_all o calls (approve o id s).0
