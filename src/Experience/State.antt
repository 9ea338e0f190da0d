-- ===== src/Experience/State.antt =====
-- packages/agents/src/experience/store.ts: the object's state, and what reads it.
use knolo_agents.Base.{
  ℕ, ◌-◌, zero, suc, String, Bool, true, false, not, ◌&&◌, ◌||◌, Option, none, some, List, [], ◌∷◌,
  ◌++◌, map, filter, any, includes, length, ltb, eqb, Result, ◌==◌, if◌then◌else◌,
}
use knolo_agents.Base.Dict.{Dict, dict_values}
use knolo_agents.Base.Sort.{sort_by, text_le}
use knolo_agents.Builder.{or_default}
use knolo_agents.Context.Lexical.{lexical_score}
use knolo_agents.Contracts.Values.{Json}
use knolo_agents.Harness.Types.{HarnessError}
use knolo_agents.Skills.Types.{SkillDefinitionInput, SkillDefinition}
use knolo_agents.Experience.Types.{
  ExperiencePromoteMode, ExperienceRecord, LessonCandidate, PromotionGates, CandidateStatus,
  SkillCandidate, ExperienceReceipt, ExperienceSnapshot,
}
use knolo_agents.Experience.Policy.{LocalPolicy}

-- What the class's constructor keeps, with the language's functions and the hashes it uses: `slice` and
-- `stringify` are those of text and JSON, `decimal` writes a number; `remember` is the caller's function.
pub record Setting : Type 0 where
  pub policy : LocalPolicy
  pub authority_capabilities : List String
  pub remember : String → List String → Result HarnessError (Unit {0})
  pub lower : String → String
  pub slice : String → ℕ → String
  pub stringify : Json → String
  pub decimal : ℕ → String
  pub pattern_hash : String → List String → String
  pub content_hash_of : SkillDefinitionInput → String

pub record LocalExperience : Type 0 where
  pub records : List ExperienceRecord
  pub lessons_by_key : Dict LessonCandidate
  pub candidates_by_lesson : Dict SkillCandidate
  pub promoted_skills : List SkillDefinition
  pub approvals : List String

abbrev pub new_experience : LocalExperience
new_experience = record {
  records = [];
  lessons_by_key = [];
  candidates_by_lesson = [];
  promoted_skills = [];
  approvals = [];
}

unfoldable pub empty_receipt : ExperienceReceipt
empty_receipt = record {
  version = 1;
  recorded = false;
  experience_id = none;
  lesson_id = none;
  candidate_id = none;
  promoted = false;
  gates = none;
}

unfoldable pub is_disabled_mode : ExperiencePromoteMode → Bool
is_disabled_mode ExperiencePromoteMode.disabled = true
is_disabled_mode _ = false

unfoldable pub is_auto_mode : ExperiencePromoteMode → Bool
is_auto_mode ExperiencePromoteMode.auto_approved = true
is_auto_mode _ = false

unfoldable pub is_promoted : CandidateStatus → Bool
is_promoted CandidateStatus.promoted = true
is_promoted _ = false

-- The status of a draft.
unfoldable pub drafted_status : ExperiencePromoteMode → Bool → CandidateStatus
unfolding is_disabled_mode
drafted_status mode pass =
    if is_disabled_mode mode
    then CandidateStatus.rejected
    else if not (is_disabled_mode mode) && pass
    then CandidateStatus.promoted
    else CandidateStatus.candidate

-- A set of texts: set.add(value)
unfoldable pub add_text : String → List String → List String
add_text value held = if includes held value then held else held ++ value ∷ []

unfoldable pub push_new : SkillDefinition → List SkillDefinition → List SkillDefinition
push_new s skills =
    if any (λ (other : SkillDefinition). other.body.id == s.body.id) skills
    then skills
    else skills ++ s ∷ []

-- records.splice(0, n)
unfoldable pub splice_first : ℕ → List ExperienceRecord → List ExperienceRecord
splice_first zero records = records
splice_first (suc n) [] = []
splice_first (suc n) (r ∷ records) = splice_first n records

-- The list after a push.
unfoldable pub pushed : ℕ → ExperienceRecord → List ExperienceRecord → List ExperienceRecord
unfolding splice_first
pushed max_records r records =
    let all = records ++ r ∷ [] in
    if ltb max_records (length all) then splice_first (length all - max_records) all else all

unfoldable pub sorted_texts : Option (List String) → List String
unfolding sort_by text_le
sorted_texts texts = sort_by text_le (or_default texts [])

unfoldable pub kept_with : SkillCandidate → PromotionGates → SkillCandidate
kept_with existing gates = record existing { gates = gates }

unfoldable pub experience_receipt :
    ExperienceRecord → Option String → Option SkillCandidate → ExperienceReceipt
unfolding is_promoted
experience_receipt r lesson none = record {
  version = 1;
  recorded = true;
  experience_id = some r.id;
  lesson_id = lesson;
  candidate_id = none;
  promoted = false;
  gates = none;
}
experience_receipt r lesson (some c) = record {
  version = 1;
  recorded = true;
  experience_id = some r.id;
  lesson_id = lesson;
  candidate_id = some c.id;
  promoted = is_promoted c.status;
  gates = some c.gates;
}

unfoldable pub snapshot : (String → String → Bool) → LocalExperience → ExperienceSnapshot
unfolding sort_by dict_values
snapshot locale_le s = record {
  records = s.records;
  lessons =
      sort_by (λ (l : LessonCandidate) (r : LessonCandidate). locale_le l.id r.id)
        (dict_values s.lessons_by_key);
  candidates =
      sort_by (λ (l : SkillCandidate) (r : SkillCandidate). locale_le l.id r.id)
        (dict_values s.candidates_by_lesson);
  promoted = s.promoted_skills;
}

-- A memory item of the recall.
pub record Recalled : Type 0 where
  pub id : String
  pub text : String
  pub score : ℕ

recalled_le : (String → String → Bool) → Recalled → Recalled → Bool
recalled_le locale_le l r = ltb r.score l.score || (eqb r.score l.score && locale_le l.id r.id)

unfoldable pub recall :
    (String → String → Bool)
    → (String → String)
    → (ℕ → ℕ → ℕ)
    → String
    → LocalExperience
    → List Recalled
unfolding sort_by lexical_score recalled_le
recall locale_le lower per_million query s = sort_by (recalled_le locale_le) (
    filter (λ (r : Recalled). ltb 0 r.score)
      (map
        (λ (r : ExperienceRecord). record {
          id = r.id;
          text = r.text;
          score = lexical_score lower per_million query r.text;
        })
        (filter (λ (r : ExperienceRecord). r.useful) s.records)))
