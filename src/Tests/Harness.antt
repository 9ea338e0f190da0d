-- ===== src/Tests/Harness.antt =====
-- Runs of recovery and of the grants of authority, and their theorems there.
use knolo_agents.Base.{
  ℕ, String, ◌≡◌, refl, true, Option, none, some, [], ◌∷◌, Result, ok, err, arith,
}
use knolo_agents.Contracts.Values.{null, string}
use knolo_agents.Harness.Types.{AgentInvocationResult, InvocationStatus, recovery_not_a_policy}
use knolo_agents.Capabilities.Authority.{AuthorityGrant, AuthorityParts, intersect_authority}
use knolo_agents.Capabilities.Authority.Narrows.{Intersects, intersect_authority-Intersects}
use knolo_agents.Recovery.Types.{FailureClass, RecoveryStrategy, RecoveryPolicy}
use knolo_agents.Recovery.Policy.{next_strategy, parse_recovery_policy}
use knolo_agents.Recovery.Policy.Allowed.{Chosen, next_strategy-Chosen}
use knolo_agents.Harness.Recover.{Invocation, RecoveryRun, invoke_with_recovery}
use knolo_agents.Harness.Recover.Bounded.{IsBounded, invoke_with_recovery-IsBounded}
use knolo_agents.Harness.Recover.Ends.{invoke_with_recovery_ends}

abbrev host_grant : AuthorityGrant
host_grant = record {
  capabilities = "pack.read" ∷ "claims.commit" ∷ [];
  tools = "search" ∷ [];
  namespaces = some ("legal" ∷ []);
}

abbrev policy_grant : AuthorityGrant
policy_grant = record { capabilities = "pack.read" ∷ []; tools = "search" ∷ []; namespaces = none }

abbrev parts : AuthorityParts
parts = record { parent = none; agent = none; host = some host_grant; policy = some policy_grant }

intersect_authority-Intersects_example : Intersects parts (intersect_authority parts)
intersect_authority-Intersects_example = intersect_authority-Intersects parts

abbrev retry_policy : RecoveryPolicy
retry_policy = record {
  enabled = some true;
  max_retries = some 1;
  strategies =
      some
        (RecoveryStrategy.retry ∷ RecoveryStrategy.hitl ∷ RecoveryStrategy.graceful_partial ∷ []);
  fallback_skill = none;
  alternate_tool = none;
}

next_strategy-Chosen_example : Chosen retry_policy FailureClass.tool [] RecoveryStrategy.retry
unfolding next_strategy
next_strategy-Chosen_example =
    next_strategy-Chosen retry_policy FailureClass.tool [] RecoveryStrategy.retry refl

text_refused : parse_recovery_policy (some (string "yes")) ≡ err recovery_not_a_policy
unfolding parse_recovery_policy
text_refused = refl

abbrev failure : AgentInvocationResult
failure = record {
  status = InvocationStatus.failed;
  output = null;
  error = some "the tool failed";
  tool_calls = none;
  tokens = none;
  events = none;
}

-- An adapter that always throws.
abbrev broken : ℕ → Invocation
broken n = record {
  before_agent = none;
  emitted = [];
  outcome = err "the tool failed";
  on_error = none;
}

abbrev as_tool : AgentInvocationResult → FailureClass
as_tool result = FailureClass.tool

abbrev silent : ℕ → Option String
silent n = none

abbrev calls_of : Option (Result String RecoveryRun) → ℕ
calls_of none = 0
calls_of (some (err m)) = 0
calls_of (some (ok run)) = run.calls

-- Once, a retry, and then the partial result.
two_calls : calls_of (invoke_with_recovery as_tool broken silent retry_policy 6) ≡ 2
unfolding invoke_with_recovery
two_calls = refl

abbrev run_of : Option (Result String RecoveryRun) → RecoveryRun → RecoveryRun
run_of (some (ok run)) other = run
run_of o other = other

abbrev no_run : RecoveryRun
no_run = record {
  result = failure;
  tool_receipts = [];
  events = [];
  used = [];
  attempt = 0;
  calls = 0;
}

invoke_with_recovery-IsBounded_example :
    IsBounded retry_policy
      (run_of (invoke_with_recovery as_tool broken silent retry_policy 6) no_run)
unfolding invoke_with_recovery
invoke_with_recovery-IsBounded_example =
    invoke_with_recovery-IsBounded as_tool broken silent retry_policy 6
      (run_of (invoke_with_recovery as_tool broken silent retry_policy 6) no_run) refl

invoke_with_recovery_ends_example :
    (r : Result String RecoveryRun) × (invoke_with_recovery as_tool broken silent retry_policy 5
      ≡ some r)
invoke_with_recovery_ends_example =
    invoke_with_recovery_ends as_tool broken silent retry_policy 5 (omega arith)
