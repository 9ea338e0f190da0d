-- ===== src/Tests/Experience.antt =====
-- Three useful runs of a task and an approval of what they teach.
use knolo_agents.Base.{
  String, false, true, ◌≡◌, refl, inl, arith, none, some, List, [], ◌∷◌, ok, find, ◌==◌,
}
use knolo_agents.Base.Dict.{dict_values}
use knolo_agents.Contracts.Values.{null}
use knolo_agents.Harness.Types.{InvocationStatus, Task}
use knolo_agents.Skills.Types.{SkillDefinition}
use knolo_agents.Experience.Types.{ExperiencePromoteMode, LessonCandidate, RecordExperienceInput}
use knolo_agents.Experience.Promote.{is_nil}
use knolo_agents.Experience.Store.Allowed.{Asks}
use knolo_agents.Experience.State.{Setting, LocalExperience, new_experience, is_disabled_mode}
use knolo_agents.Experience.Store.{Call, recording, approving, call_all, approve}
use knolo_agents.Experience.Store.Allowed.{IsApproved}
use knolo_agents.Experience.Store.Approved.{call_all-IsApproved}
use knolo_agents.Experience.Store.Promoted.{IsPromoted, call_all-promoted, approve-IsPromoted}

abbrev setting : Setting
setting = record {
  policy = record {
    enabled = true;
    promote = ExperiencePromoteMode.require_approval;
    min_usefulness = 2;
    max_records = 2;
  };
  authority_capabilities = "read" ∷ [];
  remember = λ text labels. ok tt;
  lower = λ text. text;
  slice = λ text n. text;
  stringify = λ output. "filed";
  decimal = λ n. "n";
  pattern_hash = λ objective criteria. "key";
  content_hash_of = λ input. "hash";
}

abbrev filing : Task
filing = record {
  id = none;
  objective = "file the brief";
  inputs = none;
  constraints = none;
  success_criteria = "brief filed" ∷ [];
  required_capabilities = some ("read" ∷ "write" ∷ "tools" ∷ []);
  preferred_skills = none;
  prohibited_actions = none;
  budget = none;
  deadline_ms = none;
  output_schema = none;
  evidence_requirements = none;
}

abbrev filed : RecordExperienceInput
filed = record {
  run_id = "run";
  task = filing;
  status = InvocationStatus.succeeded;
  output = null;
  success_criteria_matched = "brief filed" ∷ [];
  prohibited_violations = [];
  skill_ids = none;
  evidence_ids = none;
  dependency_root = "root";
  labels = none;
}

abbrev three_runs : List Call
three_runs = recording filed ∷ recording filed ∷ recording filed ∷ []

abbrev taught : LocalExperience
taught = call_all setting three_runs new_experience

abbrev an_approval : List Call
an_approval = recording filed ∷ recording filed ∷ approving "lesson/key" ∷ []

abbrev some_lesson : LessonCandidate
some_lesson = record {
  version = 1;
  id = "lesson/key";
  pattern_key = "experience-pattern:key";
  objective = "file the brief";
  success_criteria = "brief filed" ∷ [];
  experience_ids = "experience/run/n" ∷ "experience/run/n" ∷ [];
  usefulness = 2;
  skill_ids = [];
  required_capabilities = "read" ∷ "write" ∷ [];
  run_ids = "run" ∷ [];
}

lesson_taught :
    find (λ (l : LessonCandidate). l.id == "lesson/key") (dict_values taught.lessons_by_key)
    ≡ some some_lesson
unfolding call_all dict_values
lesson_taught = refl

call_all-IsApproved_example : IsApproved setting (call_all setting an_approval new_experience)
call_all-IsApproved_example = call_all-IsApproved setting an_approval

approve-IsPromoted_example : IsPromoted setting (approve setting "lesson/key" taught).0 "lesson/key"
unfolding is_disabled_mode is_nil
approve-IsPromoted_example =
    approve-IsPromoted setting "lesson/key" some_lesson taught lesson_taught refl (omega arith)
      (omega arith) refl

abbrev learned : SkillDefinition
learned = record {
  body = record {
    version = 1;
    id = "learned/key";
    skill_version = "1.0.0";
    name = some "Learned local pattern";
    triggers = "brief" ∷ "file" ∷ "filed" ∷ "the" ∷ [];
    domains = "learned" ∷ [];
    schemas = none;
    instructions =
        "Verified local pattern. Objective: file the brief. Success criteria: brief filed. Repeat the successful approach. Do not perform prohibited actions.";
    required_capabilities = "read" ∷ [];
    required_tools = [];
    knowledge_refs = [];
    provenance = record {
      source = "local-pack";
      pack_id = "local-experience";
      digest = none;
      publisher = none;
    };
    content_hash = none;
  };
  content_hash = "hash";
}

learned_promoted : (call_all setting an_approval new_experience).promoted_skills ≡ learned ∷ []
unfolding call_all
learned_promoted = refl

call_all-promoted_example :
    Asks ("read" ∷ []) ("read" ∷ [])
    × (◌≡◌ {A = String} "hash" "hash")
    × (is_disabled_mode ExperiencePromoteMode.require_approval ≡ false)
unfolding call_all
call_all-promoted_example = call_all-promoted setting an_approval learned (inl refl)
