-- ===== src/Replay.antt =====
-- packages/agents/src/replay/index.ts: artifact hashes, recorded traces and their validation.
pub mod Contiguous
use knolo_agents.Base.{
  ℕ, ◌+◌, String, Bool, true, false, not, ◌&&◌, ◌||◌, Option, none, some, List, [], ◌∷◌, ◌==◌,
  if◌then◌else◌, eqb, Result, ok, err, ◌>>◌, require,
}
use knolo_agents.Contracts.{StateSnapshot, ExecutionEvent, ExecutionReport}
use knolo_agents.Builder.Errors.{DefinitionError, events_not_contiguous, events_of_two_executions}
use knolo_agents.Builder.{or_default}

pub data ReplayMode : Type 0 where
  verify_only mocked_effects live_effects : ReplayMode

pub record ArtifactHashes : Type 0 where
  pub graph : String
  pub pack : String
  pub policy : String
  pub node_implementation : String
  pub contract : String

pub record ReplayRequest : Type 0 where
  pub version : ℕ
  pub mode : ReplayMode
  pub artifacts : ArtifactHashes
  pub live_effect_authorization : Option String

pub record ReplayTrace : Type 0 where
  pub version : ℕ
  pub events : List ExecutionEvent
  pub snapshots : Option (List StateSnapshot)

pub data ReplayError : Type 0 where
  incompatible_hash : (key : String) → ReplayError
  authorization_required : ReplayError

-- A text that is there and not empty.
abbrev pub is_truthy : Option String → Bool
is_truthy none = false
is_truthy (some s) = not (s == "")

is_live : ReplayMode → Bool
is_live live_effects = true
is_live _ = false

-- The keys of `actual` are compared in their order.
unfoldable pub validate_replay : ReplayRequest → ArtifactHashes → Result ReplayError (Unit {0})
unfolding is_live
validate_replay request actual =
    require (request.artifacts.graph == actual.graph) (incompatible_hash "graph")
    >> (require (request.artifacts.pack == actual.pack) (incompatible_hash "pack")
        >> (require (request.artifacts.policy == actual.policy) (incompatible_hash "policy")
            >> (require (request.artifacts.node_implementation == actual.node_implementation)
                  (incompatible_hash "nodeImplementation")
                >> (require (request.artifacts.contract == actual.contract)
                      (incompatible_hash "contract")
                    >> require
                        (not (
                          is_live request.mode
                          && not (is_truthy request.live_effect_authorization)))
                        authorization_required))))

unfoldable pub record_replay_trace : ExecutionReport → ReplayTrace
record_replay_trace report = record {
  version = 1;
  events = report.events;
  snapshots = some (or_default report.snapshots (report.state ∷ []));
}

-- The loop of `validateReplayEvents`, with its `previous` and `executionId`.
unfoldable pub check_events :
    ℕ → Option String → List ExecutionEvent → Result DefinitionError (Unit {0})
check_events previous execution_id [] = ok tt
check_events previous execution_id (event ∷ events) =
    require (eqb event.version 1 && eqb event.sequence (previous + 1)) events_not_contiguous
    >> (require
          (not (is_truthy execution_id && not (event.execution_id == or_default execution_id "")))
          events_of_two_executions
        >> check_events event.sequence (some event.execution_id) events)

unfoldable pub validate_replay_events : List ExecutionEvent → Result DefinitionError (Unit {0})
unfolding check_events
validate_replay_events events = check_events 0 none events
