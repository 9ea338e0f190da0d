-- ===== src/Recovery/Policy.antt =====
-- packages/agents/src/recovery/policy.ts.
pub mod Allowed
use Prim.Native.Nat.{◌%◌, ◌^◌}
use knolo_agents.Base.{
  ℕ, ◌/◌, String, Bool, true, false, not, ◌&&◌, ◌||◌, Option, none, some, List, [], ◌∷◌, Result, ok,
  err, ◌>>=◌, eqb, leb, if◌then◌else◌, suc, ◌==◌,
}
use knolo_agents.Contracts.Values.{
  Json, null, bool, number, string, array, object, Items, nil, item, Fields, lookup,
}
use knolo_agents.Builder.Validate.{max_safe_integer}
use knolo_agents.Harness.Types.{
  HarnessError, recovery_not_a_policy, max_retries_invalid, unknown_strategy,
}
use knolo_agents.Recovery.Types.{
  FailureClass, RecoveryStrategy, RecoveryPolicy, default_recovery_strategies, includes_strategy,
}

-- Boolean(value)
unfoldable pub truthy : Json → Bool
truthy null = false
truthy (bool b) = b
truthy (number negative digits scale) = not (eqb digits 0)
truthy (string s) = not (s == "")
truthy _ = true

abbrev pub given : Option Json → Bool
given none = false
given (some v) = truthy v

abbrev pub when_given : Option Json → Option Json
when_given v = if given v then v else none

-- A decimal that is a safe integer and not negative.
unfoldable pub safe_natural : Bool → ℕ → ℕ → Option ℕ
safe_natural negative digits scale =
    let power = 10 ^ scale in
    if (eqb (digits % power) 0 && leb (digits / power) max_safe_integer)
      && (not negative || eqb digits 0)
    then some (digits / power)
    else none

max_retries_of : Option Json → Result HarnessError ℕ
unfolding safe_natural
max_retries_of none = ok 1
max_retries_of (some null) = ok 1
max_retries_of (some (number negative digits scale)) = elim (safe_natural negative digits scale) [
  | none ↦ err max_retries_invalid
  | some n ↦ ok n
]
max_retries_of (some v) = err max_retries_invalid

strategy_of : String → Result HarnessError RecoveryStrategy
strategy_of s =
    if s == "retry"
    then ok RecoveryStrategy.retry
    else if s == "alternate-plan"
    then ok RecoveryStrategy.alternate_plan
    else if s == "fallback-skill"
    then ok RecoveryStrategy.fallback_skill
    else if s == "alternate-tool"
    then ok RecoveryStrategy.alternate_tool
    else if s == "narrowed-child"
    then ok RecoveryStrategy.narrowed_child
    else if s == "hitl"
    then ok RecoveryStrategy.hitl
    else if s == "graceful-partial"
    then ok RecoveryStrategy.graceful_partial
    else err unknown_strategy

strategies_of_items : Items → Result HarnessError (List RecoveryStrategy)
unfolding strategy_of
strategies_of_items nil = ok []
strategies_of_items (item (string s) rest) =
    strategy_of s >>= (λ first. strategies_of_items rest >>= (λ others. ok (first ∷ others)))
strategies_of_items (item v rest) = err unknown_strategy

strategies_of : Option Json → Result HarnessError (List RecoveryStrategy)
unfolding strategies_of_items default_recovery_strategies
strategies_of none = ok default_recovery_strategies
strategies_of (some null) = ok default_recovery_strategies
strategies_of (some (array items)) = strategies_of_items items
strategies_of (some v) = err unknown_strategy

-- record.enabled !== false
enabled_of : Option Json → Bool
enabled_of (some (bool b)) = b
enabled_of _ = true

policy_of_fields : Fields → Result HarnessError RecoveryPolicy
unfolding max_retries_of strategies_of enabled_of truthy lookup
policy_of_fields o = max_retries_of (lookup "maxRetries" o) >>= (λ max_retries.
    strategies_of (lookup "strategies" o) >>= (λ strategies. ok (record {
      enabled = some (enabled_of (lookup "enabled" o));
      max_retries = some max_retries;
      strategies = some strategies;
      fallback_skill = when_given (lookup "fallbackSkill" o);
      alternate_tool = when_given (lookup "alternateTool" o);
    })))

default_policy : RecoveryPolicy
unfolding default_recovery_strategies
default_policy = record {
  enabled = some true;
  max_retries = some 1;
  strategies = some default_recovery_strategies;
  fallback_skill = none;
  alternate_tool = none;
}

unfoldable pub parse_recovery_policy : Option Json → Result HarnessError RecoveryPolicy
unfolding policy_of_fields default_policy
parse_recovery_policy none = ok default_policy
parse_recovery_policy (some null) = ok default_policy
parse_recovery_policy (some (bool true)) = ok default_policy
parse_recovery_policy (some (bool false)) = ok (record {
  enabled = some false;
  max_retries = some 0;
  strategies = some [];
  fallback_skill = none;
  alternate_tool = none;
})
parse_recovery_policy (some (object o)) = policy_of_fields o
parse_recovery_policy (some v) = err recovery_not_a_policy

-- How many of the strategies used are retries.
abbrev pub retries : List RecoveryStrategy → ℕ
retries [] = 0
retries (RecoveryStrategy.retry ∷ used) = suc (retries used)
retries (s ∷ used) = retries used

abbrev pub retry_limit : RecoveryPolicy → ℕ
retry_limit policy = elim policy.max_retries [ none ↦ 1 | some n ↦ n ]

-- The body of the loop lets the strategy through: its `continue`s.
unfoldable pub usable : RecoveryPolicy → List RecoveryStrategy → RecoveryStrategy → Bool
unfolding truthy
usable policy used RecoveryStrategy.retry = not (leb (retry_limit policy) (retries used))
usable policy used RecoveryStrategy.fallback_skill =
    not (includes_strategy used RecoveryStrategy.fallback_skill) && given policy.fallback_skill
usable policy used RecoveryStrategy.alternate_tool =
    not (includes_strategy used RecoveryStrategy.alternate_tool) && given policy.alternate_tool
usable policy used RecoveryStrategy.hitl = false
usable policy used RecoveryStrategy.narrowed_child = false
usable policy used s = not (includes_strategy used s)

unfoldable pub first_usable :
    RecoveryPolicy → List RecoveryStrategy → List RecoveryStrategy → Option RecoveryStrategy
unfolding usable
first_usable policy used [] = none
first_usable policy used (s ∷ rest) =
    if usable policy used s then some s else first_usable policy used rest

abbrev pub policy_strategies : RecoveryPolicy → List RecoveryStrategy
policy_strategies policy = elim policy.strategies [
  | none ↦ default_recovery_strategies
  | some ss ↦ ss
]

-- policy.enabled === false
abbrev pub disabled : RecoveryPolicy → Bool
disabled policy = elim policy.enabled [ some false ↦ true | _ ↦ false ]

unfoldable pub next_enabled :
    RecoveryPolicy → FailureClass → List RecoveryStrategy → Option RecoveryStrategy
unfolding first_usable
next_enabled policy FailureClass.policy used = none
next_enabled policy failure_class used = first_usable policy used (policy_strategies policy)

unfoldable pub next_strategy :
    RecoveryPolicy → FailureClass → List RecoveryStrategy → Option RecoveryStrategy
unfolding next_enabled
next_strategy policy failure_class used =
    if disabled policy then none else next_enabled policy failure_class used
