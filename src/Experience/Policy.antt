-- ===== src/Experience/Policy.antt =====
-- packages/agents/src/experience/store.ts, the policy.
use knolo_agents.Base.{
  ℕ, String, Bool, true, false, Option, none, some, Result, ok, ◌>>◌, require, ◌==◌,
}
use knolo_agents.Builder.{or_default}
use knolo_agents.Builder.Validate.{is_positive_safe}
use knolo_agents.Harness.Types.{
  HarnessError, publish_not_disabled, min_usefulness_invalid, max_records_invalid,
}
use knolo_agents.Experience.Types.{ExperiencePromoteMode, ExperiencePolicy}

-- The `memory` option: absent, a flag, or an object with or without the methods.
pub data Memory : Type 0 where
  no_memory : Memory
  memory_flag : (is_on : Bool) → Memory
  memory_object : (has_query has_remember : Bool) → Memory

unfoldable pub is_cortex : Memory → Bool
is_cortex (memory_object has_query has_remember) = has_query
is_cortex _ = false

unfoldable pub can_remember : Memory → Bool
can_remember (memory_object has_query has_remember) = has_remember
can_remember _ = false

-- memory === true || isCortex(memory)
unfoldable pub memory_on : Memory → Bool
unfolding is_cortex
memory_on (memory_flag is_on) = is_on
memory_on memory = is_cortex memory

pub record LocalPolicy : Type 0 where
  pub enabled : Bool
  pub promote : ExperiencePromoteMode
  pub min_usefulness : ℕ
  pub max_records : ℕ

abbrev no_policy : ExperiencePolicy
no_policy = record {
  enabled = none;
  promote = none;
  min_usefulness = none;
  publish = none;
  max_records = none;
}

publish_allowed : Option String → Bool
publish_allowed none = true
publish_allowed (some publish) = publish == "disabled"

normalized_policy : ExperiencePolicy → Memory → LocalPolicy
unfolding memory_on
normalized_policy p memory = record {
  enabled = or_default p.enabled (memory_on memory);
  promote = or_default p.promote ExperiencePromoteMode.require_approval;
  min_usefulness = or_default p.min_usefulness 2;
  max_records = or_default p.max_records 64;
}

normalize_policy : ExperiencePolicy → Memory → Result HarnessError LocalPolicy
unfolding publish_allowed normalized_policy
normalize_policy p memory =
    require (publish_allowed p.publish) publish_not_disabled
    >> (require (is_positive_safe (or_default p.min_usefulness 2)) min_usefulness_invalid
        >> (require (is_positive_safe (or_default p.max_records 64)) max_records_invalid
            >> ok (normalized_policy p memory)))

unfoldable pub normalize_experience_policy :
    Option ExperiencePolicy → Memory → Result HarnessError LocalPolicy
unfolding normalize_policy
normalize_experience_policy experience memory =
    normalize_policy (or_default experience no_policy) memory
