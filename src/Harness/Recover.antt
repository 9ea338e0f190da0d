-- ===== src/Harness/Recover.antt =====
-- packages/agents/src/harness/session.ts, `invokeWithRecovery`. The adapter and the hooks are given by
-- what they do at each call, in the order of the calls; an error that leaves the function is its message.
pub mod Bounded
pub mod Ends
use knolo_agents.Base.{
  ℕ, zero, suc, ◌+◌, String, Bool, true, false, not, ◌&&◌, Option, none, some, List, [], ◌∷◌, ◌++◌,
  map, filter, Result, ok, err, ◌>>=◌, ◌>>◌, if◌then◌else◌,
}
use knolo_agents.Contracts.Values.{Json, null, string}
use knolo_agents.Harness.Types.{AgentInvocationResult, InvocationStatus}
use knolo_agents.Recovery.Types.{
  FailureClass, RecoveryStrategy, RecoveryPolicy, RecoveryEvent, RecoveryStatus,
}
use knolo_agents.Recovery.Classify.{needs_recovery}
use knolo_agents.Recovery.Policy.{next_strategy}

pub data ToolPhase : Type 0 where
  before after : ToolPhase

-- A call of `emitTool`, and whether its hooks let it through.
pub record ToolEvent : Type 0 where
  pub phase : ToolPhase
  pub tool_id : String
  pub hooks_pass : Bool

-- What a call of the adapter does. The hooks `beforeAgent` and `onError` throw a message or nothing.
pub record Invocation : Type 0 where
  pub before_agent : Option String
  pub emitted : List ToolEvent
  pub outcome : Result String AgentInvocationResult
  pub on_error : Option String

abbrev pub throw_if : Option String → Result String (Unit {0})
throw_if none = ok tt
throw_if (some message) = err message

counts : ToolEvent → Bool
counts event = elim event.phase [ before ↦ false | after ↦ event.hooks_pass ]

tool_receipts : List ToolEvent → List String
unfolding counts
tool_receipts events = map (λ (e : ToolEvent). e.tool_id) (filter counts events)

failed_with : String → AgentInvocationResult
failed_with message = record {
  status = InvocationStatus.failed;
  output = null;
  error = some message;
  tool_calls = none;
  tokens = none;
  events = none;
}

-- `invokeOnce`: what it returns.
unfoldable pub invoke_once : Invocation → Result String AgentInvocationResult
unfolding failed_with
invoke_once call = throw_if call.before_agent >> elim call.outcome [
  | ok result ↦ ok result
  | err message ↦ throw_if call.on_error >> ok (failed_with message)
]

-- The variables of the loop; `calls` counts the calls of the adapter.
pub record RecoveryRun : Type 0 where
  pub result : AgentInvocationResult
  pub tool_receipts : List String
  pub events : List RecoveryEvent
  pub used : List RecoveryStrategy
  pub attempt : ℕ
  pub calls : ℕ

-- { ...result, status: "partial", output: result.output ?? result.error ?? "partial" }
partial_output : AgentInvocationResult → Json
partial_output result = elim result.output [
  | null ↦ elim result.error [ none ↦ string "partial" | some e ↦ string e ]
  | v ↦ v
]

graceful : AgentInvocationResult → AgentInvocationResult
unfolding partial_output
graceful result = record {
  status = InvocationStatus.partial;
  output = partial_output result;
  error = result.error;
  tool_calls = result.tool_calls;
  tokens = result.tokens;
  events = result.events;
}

unfoldable pub applied_event : FailureClass → RecoveryStrategy → ℕ → Option String → RecoveryEvent
applied_event c s attempt detail = record {
  failure_class = c;
  strategy = s;
  attempt = attempt;
  status = RecoveryStatus.applied;
  detail = detail;
}

-- The loop is left with the strategy `graceful-partial`.
unfoldable pub degrade : FailureClass → RecoveryRun → RecoveryRun
unfolding graceful applied_event
degrade c run = record {
  result = graceful run.result;
  tool_receipts = run.tool_receipts;
  events =
      run.events
      ++ applied_event c RecoveryStrategy.graceful_partial (suc run.attempt)
          (some "graceful-partial")
        ∷ [];
  used = run.used ++ RecoveryStrategy.graceful_partial ∷ [];
  attempt = suc run.attempt;
  calls = run.calls;
}

-- The adapter is called again.
unfoldable pub again :
    FailureClass → RecoveryStrategy → Invocation → AgentInvocationResult → RecoveryRun → RecoveryRun
unfolding applied_event tool_receipts
again c s call result run = record {
  result = result;
  tool_receipts = tool_receipts call.emitted;
  events = run.events ++ applied_event c s (suc run.attempt) none ∷ [];
  used = run.used ++ s ∷ [];
  attempt = suc run.attempt;
  calls = suc run.calls;
}

-- The event that no strategy is left.
unfoldable pub exhaust : FailureClass → RecoveryRun → RecoveryRun
exhaust c run = record {
  result = run.result;
  tool_receipts = run.tool_receipts;
  events =
      run.events
      ++ record {
        failure_class = c;
        strategy = RecoveryStrategy.graceful_partial;
        attempt = suc run.attempt;
        status = RecoveryStatus.exhausted;
        detail = some "no remaining strategy";
      }
        ∷ [];
  used = run.used;
  attempt = run.attempt;
  calls = run.calls;
}

abbrev pub any_used : List RecoveryStrategy → Bool
any_used [] = false
any_used (s ∷ used) = true

module _ (classify : AgentInvocationResult → FailureClass) (adapter : ℕ → Invocation)
    (on_recovery : ℕ → Option String) (policy : RecoveryPolicy) where
  unfoldable pub ask_again : RecoveryRun → RecoveryStrategy → Result String (Bool × RecoveryRun)
  unfolding again invoke_once
  ask_again run s =
      throw_if (on_recovery run.attempt)
      >> (invoke_once (adapter run.calls)
          >>= (λ result. ok (true, again (classify run.result) s (adapter run.calls) result run)))

  -- A strategy is applied: the loop goes on with the run, or is left with it.
  unfoldable pub apply_strategy :
      RecoveryRun → RecoveryStrategy → Result String (Bool × RecoveryRun)
  unfolding degrade ask_again
  apply_strategy run RecoveryStrategy.graceful_partial =
      throw_if (on_recovery run.attempt) >> ok (false, degrade (classify run.result) run)
  apply_strategy run s = ask_again run s

  -- The loop; `none` says that the fuel was not enough.
  unfoldable pub recover : ℕ → RecoveryRun → Option (Result String RecoveryRun)
  unfolding apply_strategy next_strategy needs_recovery
  recover zero run = none
  recover (suc fuel) run =
      if needs_recovery run.result
      then elim (next_strategy policy (classify run.result) run.used) [
        | none ↦ some (ok run)
        | some s ↦ elim (apply_strategy run s) [
          | err message ↦ some (err message)
          | ok (false, after_run) ↦ some (ok after_run)
          | ok (true, after_run) ↦ recover fuel after_run
        ]
      ]
      else some (ok run)

  -- After the loop.
  unfoldable pub finish : RecoveryRun → RecoveryRun
  unfolding exhaust needs_recovery
  finish run =
      if needs_recovery run.result && any_used run.used
      then exhaust (classify run.result) run
      else run

  unfoldable pub first_run : AgentInvocationResult → RecoveryRun
  unfolding tool_receipts
  first_run result = record {
    result = result;
    tool_receipts = tool_receipts (adapter 0).emitted;
    events = [];
    used = [];
    attempt = 0;
    calls = 1;
  }

  unfoldable pub finished : Option (Result String RecoveryRun) → Option (Result String RecoveryRun)
  unfolding finish
  finished none = none
  finished (some (err message)) = some (err message)
  finished (some (ok run)) = some (ok (finish run))

  unfoldable pub recovered :
      ℕ → Result String AgentInvocationResult → Option (Result String RecoveryRun)
  unfolding recover first_run finished
  recovered fuel (err message) = some (err message)
  recovered fuel (ok result) = finished (recover fuel (first_run result))

  unfoldable pub invoke_with_recovery : ℕ → Option (Result String RecoveryRun)
  unfolding invoke_once recovered
  invoke_with_recovery fuel = recovered fuel (invoke_once (adapter 0))
