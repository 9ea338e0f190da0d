-- ===== src/Recovery/Types.antt =====
-- packages/agents/src/recovery/types.ts.
use knolo_agents.Base.{ℕ, String, Bool, Option, List, [], ◌∷◌, eqb, ◌||◌, false}
use knolo_agents.Contracts.Values.{Json}

pub data FailureClass : Type 0 where
  tool retrieval schema timeout policy model unknown : FailureClass

pub data RecoveryStrategy : Type 0 where
  retry alternate_plan fallback_skill alternate_tool narrowed_child hitl graceful_partial :
      RecoveryStrategy

-- What the caller gives; what it gives as a skill or a tool is only asked for its truth.
pub record RecoveryPolicy : Type 0 where
  pub enabled : Option Bool
  pub max_retries : Option ℕ
  pub strategies : Option (List RecoveryStrategy)
  pub fallback_skill : Option Json
  pub alternate_tool : Option Json

pub data RecoveryStatus : Type 0 where
  applied skipped exhausted : RecoveryStatus

pub record RecoveryEvent : Type 0 where
  pub failure_class : FailureClass
  pub strategy : RecoveryStrategy
  pub attempt : ℕ
  pub status : RecoveryStatus
  pub detail : Option String

unfoldable pub default_recovery_strategies : List RecoveryStrategy
default_recovery_strategies =
    retry ∷ alternate_plan ∷ fallback_skill ∷ alternate_tool ∷ narrowed_child ∷ hitl
    ∷ graceful_partial ∷ []

-- The place of a strategy in the list of all of them.
abbrev pub strategy_number : RecoveryStrategy → ℕ
strategy_number retry = 0
strategy_number alternate_plan = 1
strategy_number fallback_skill = 2
strategy_number alternate_tool = 3
strategy_number narrowed_child = 4
strategy_number hitl = 5
strategy_number graceful_partial = 6

abbrev pub same_strategy : RecoveryStrategy → RecoveryStrategy → Bool
same_strategy s t = eqb (strategy_number s) (strategy_number t)

-- used.includes(strategy)
abbrev pub includes_strategy : List RecoveryStrategy → RecoveryStrategy → Bool
includes_strategy [] s = false
includes_strategy (t ∷ ts) s = same_strategy t s || includes_strategy ts s
