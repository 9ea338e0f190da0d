-- ===== src/Experience/Promote.antt =====
-- packages/agents/src/experience/promote.ts. `slice` is text.slice(0, n), by UTF-16 units; `pattern_hash` the
-- digest of the canonical JSON of the normal objective and criteria.
use knolo_agents.Base.{
  ℕ, String, Bool, true, false, not, ◌&&◌, ◌||◌, Option, none, some, List, [], ◌∷◌, ◌++◌, map,
  filter, includes, length, ltb, leb, eqb, if◌then◌else◌, zero, suc,
}
use knolo_agents.Base.Sort.{sort_by, text_le, unique_sorted, utf16}
use knolo_agents.Base.Text.{◌^^◌, join, drop_prefix}
use knolo_agents.Contracts.Values.{Json}
use knolo_agents.Capabilities.Authority.{intersect_lists}
use knolo_agents.Context.Lexical.{normalize_text, tokenize}
use knolo_agents.Harness.Types.{InvocationStatus, Task}
use knolo_agents.Skills.Types.{SkillDefinitionInput}
use knolo_agents.Skills.Policy.{adapter_capabilities}
use knolo_agents.Experience.Types.{ExperienceRecord, LessonCandidate, PromotionGates}

abbrev pub max_text : ℕ
max_text = 2000

abbrev pub max_triggers : ℕ
max_triggers = 16

abbrev pattern_label : String
pattern_label = "experience-pattern:"

unfoldable pub pattern_key : (String → String) → (String → List String → String) → Task → String
unfolding normalize_text sort_by text_le
pattern_key lower pattern_hash task =
    pattern_label
    ^^ pattern_hash (normalize_text lower task.objective)
        (sort_by text_le (map (normalize_text lower) task.success_criteria))

is_succeeded : InvocationStatus → Bool
is_succeeded InvocationStatus.succeeded = true
is_succeeded _ = false

unfoldable pub is_nil {ℓ} : {A : Type ℓ} → List A → Bool
is_nil [] = true
is_nil (x ∷ xs) = false

unfoldable pub is_useful_experience :
    InvocationStatus → (criteria matched violations : List String) → Bool
unfolding is_succeeded is_nil
is_useful_experience status criteria matched violations =
    is_succeeded status
    && (is_nil violations && (not (is_nil criteria) && eqb (length matched) (length criteria)))

unfoldable pub bound_experience_text :
    (String → ℕ → String) → (Json → String) → Task → Json → List String → String
unfolding join utf16
bound_experience_text slice stringify task output skill_ids =
    let text =
      join "\n"
        (task.objective ∷ (task.success_criteria ++ (skill_ids ++ stringify output ∷ []))) in
    if leb (length (utf16 text)) max_text then text else slice text max_text

flat_skill_ids : List ExperienceRecord → List String
flat_skill_ids [] = []
flat_skill_ids (r ∷ rs) = r.skill_ids ++ flat_skill_ids rs

unfoldable pub not_of_adapter : String → Bool
not_of_adapter c = not (includes adapter_capabilities c)

lesson_id : (String → ℕ → String) → String → String
unfolding drop_prefix
lesson_id slice key = "lesson/" ^^ slice (drop_prefix pattern_label key) 24

lesson_of : (String → ℕ → String) → List ExperienceRecord → Option LessonCandidate
unfolding lesson_id unique_sorted flat_skill_ids intersect_lists not_of_adapter
lesson_of slice [] = none
lesson_of slice (first ∷ rest) = some (record {
  version = 1;
  id = lesson_id slice first.pattern_key;
  pattern_key = first.pattern_key;
  objective = first.objective;
  success_criteria = first.success_criteria;
  experience_ids = map (λ (r : ExperienceRecord). r.id) (first ∷ rest);
  usefulness = length (first ∷ rest);
  skill_ids = unique_sorted (flat_skill_ids (first ∷ rest));
  required_capabilities = intersect_lists (
      map (λ (r : ExperienceRecord). filter not_of_adapter r.required_capabilities) (first ∷ rest));
  run_ids = unique_sorted (map (λ (r : ExperienceRecord). r.run_id) (first ∷ rest));
})

unfoldable pub lesson_from_useful :
    (String → ℕ → String) → List ExperienceRecord → Option LessonCandidate
unfolding lesson_of
lesson_from_useful slice records =
    lesson_of slice (filter (λ (r : ExperienceRecord). r.useful) records)

abbrev take_first {ℓ} : {A : Type ℓ} → ℕ → List A → List A
take_first zero xs = []
take_first (suc n) [] = []
take_first (suc n) (x ∷ xs) = x ∷ take_first n xs

flat_tokens : (String → String) → List String → List String
unfolding tokenize
flat_tokens lower [] = []
flat_tokens lower (x ∷ xs) = tokenize lower x ++ flat_tokens lower xs

-- !authority.length || authority.includes(c)
unfoldable pub granted : List String → String → Bool
unfolding is_nil
granted authority c = is_nil authority || includes authority c

unfoldable pub draft_skill_from_lesson :
    (String → String) → (String → ℕ → String) → LessonCandidate → List String → SkillDefinitionInput
unfolding drop_prefix unique_sorted flat_tokens tokenize not_of_adapter granted join
draft_skill_from_lesson lower slice lesson authority = record {
  version = 1;
  id = "learned/" ^^ slice (drop_prefix pattern_label lesson.pattern_key) 16;
  skill_version = "1.0.0";
  name = some "Learned local pattern";
  triggers = take_first max_triggers (
      unique_sorted (tokenize lower lesson.objective ++ flat_tokens lower lesson.success_criteria));
  domains = "learned" ∷ [];
  schemas = none;
  instructions =
      "Verified local pattern. Objective: "
      ^^ (lesson.objective
          ^^ (". Success criteria: "
              ^^ (join "; " lesson.success_criteria
                  ^^ ". Repeat the successful approach. Do not perform prohibited actions.")));
  required_capabilities =
      filter (λ c. not_of_adapter c && granted authority c)
        (unique_sorted lesson.required_capabilities);
  required_tools = [];
  knowledge_refs = [];
  provenance = record {
    source = "local-pack";
    pack_id = "local-experience";
    digest = none;
    publisher = none;
  };
  content_hash = none;
}

unfoldable pub evaluate_gates :
    LessonCandidate → (min_usefulness : ℕ) → (is_approved is_auto : Bool) → PromotionGates
unfolding is_nil
evaluate_gates lesson min_usefulness approved auto = record {
  usefulness = leb min_usefulness lesson.usefulness;
  evaluation = ltb 0 lesson.usefulness;
  provenance = not (is_nil lesson.run_ids);
  approval = auto || approved;
}

unfoldable pub gates_pass : PromotionGates → Bool
gates_pass g = g.usefulness && (g.evaluation && (g.provenance && g.approval))
