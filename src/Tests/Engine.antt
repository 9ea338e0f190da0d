-- ===== src/Tests/Engine.antt =====
-- A run of the counting agent, a resumption, and the theorems of the builder and the engine there.
use mathlib.Core.List.{Memᴰ}
use knolo_agents.Base.{◌+◌, ◌≤◌, ◌≡◌, ◌≢◌, refl, none, some, List, [], ◌∷◌, ◌++◌, ok, length}
use knolo_agents.Contracts.{
  EventKind, ExecutionStatus, ExecutionReport, ExecutionEvent, Checkpoint, StateSnapshot,
}
use knolo_agents.Contracts.Values.{null, string, end, assign, lookup}
use knolo_agents.Builder.Errors.{undeclared_write}
use knolo_agents.Builder.Validate.{max_safe_integer}
use knolo_agents.Builder.State.Conforms.{Conforms}
use knolo_agents.Replay.{validate_replay_events}
use knolo_agents.Engine.Trace.{
  yielded_events, execute-validate_replay_events, resume-validate_replay_events,
}
use knolo_agents.Engine.State.{History, execute-Conforms, execute-snapshots}
use knolo_agents.Engine.Writes.{IsUnwritten, execute-unwritten}
use knolo_agents.Engine.Budgets.{execute-within_budgets}
use knolo_agents.Engine.Induction.{IsOwnEnd}
use knolo_agents.Engine.Termination.{run_from_ends}
use knolo_agents.Engine.Throws.{IsHandlerFault, execute-throws}
use knolo_agents.Engine.Steps.{
  EngineError, definition, emit, visit, charge, commit, move, patch_of, update_of, check_writes,
  check_state, rethrow, node_of, patched, apply_patch, edge_from, announce, leave, follow, settle,
  finish, settled, call, cycle_exceeded, enter, turn,
}
use knolo_agents.Engine.{
  Ending, reported, threw, unfinished, report, proceed, drive, initial_loop, run_from,
  initial_snapshot, execute, resume, resumed,
}
use knolo_agents.Builder.State.{validate_state, read_path, value_type}
use knolo_agents.Tests.Sample.{
  schema, stray_config, stray, language, compiled, around, initial, builder, one,
}

engine : Unit {0}
unfolding builder execute resume run_from drive proceed report initial_loop initial_snapshot turn
    enter cycle_exceeded call settled finish settle follow leave announce edge_from apply_patch
    patched node_of rethrow check_state check_writes update_of patch_of move commit charge visit
    emit validate_state read_path value_type assign
engine = tt

abbrev ending : Ending
ending = run_from compiled around (initial_snapshot compiled around initial) "count" 0 0 0

abbrev report_of : Ending → ExecutionReport
report_of (reported r) = r
report_of _ = record {
  status = ExecutionStatus.cancelled;
  state = initial_snapshot compiled around end;
  events = [];
  steps = 0;
  tokens = 0;
  cost_micros = 0;
  snapshots = none;
}

abbrev result : ExecutionReport
result = report_of ending

ran : execute compiled around initial ≡ ok (reported result)
unfolding engine
ran = refl

result_tests :
    (result.status ≡ ExecutionStatus.terminated (string "done"))
    × (result.steps ≡ 2)
    × (result.tokens ≡ 5)
    × (result.cost_micros ≡ 9)
    × (length result.events ≡ 6)
    × (lookup "count" result.state.value ≡ some one)
unfolding engine lookup
result_tests = (refl, refl, refl, refl, refl, refl)

abbrev stray_error : EngineError
stray_error = definition (undeclared_write "count" "name")

stray_run :
    execute stray around initial
    ≡ ok (
        threw stray_error (
          yielded_events
            (run_from stray around (initial_snapshot stray around initial) "count" 0 0 0)))
unfolding engine
stray_run = refl

-- A checkpoint after the first node, and the events before it.
abbrev recorded : List ExecutionEvent
recorded =
    record {
      version = 1;
      sequence = 1;
      execution_id = "run-1";
      node_id = none;
      timestamp_ms = 5;
      kind = EventKind.execution_started;
    }
    ∷ []

abbrev checkpoint : Checkpoint
checkpoint = record {
  version = 1;
  execution_id = "run-1";
  graph_hash = "hash";
  pack_hash = "";
  policy_hash = "";
  node_implementation_hash = "";
  contract_hash = "";
  state = initial_snapshot compiled around initial;
  pending_node = "finish";
  event_cursor = 1;
  steps = 1;
  tokens = 5;
  cost_micros = 9007199254740991;
}

abbrev resumed_ending : Ending
resumed_ending =
    run_from compiled (resumed around checkpoint null) checkpoint.state checkpoint.pending_node 1 1
      5

resumed_run : resume compiled around checkpoint null ≡ ok resumed_ending
unfolding engine
resumed_run = refl

-- The cost that the checkpoint records is the whole budget; the resumed run starts again from 0.
resumed_cost :
    ((report_of resumed_ending).cost_micros ≡ 2)
    × ((report_of resumed_ending).status ≡ ExecutionStatus.terminated (string "done"))
unfolding engine
resumed_cost = (refl, refl)

execute-throws_example : IsHandlerFault stray_error
execute-throws_example =
    execute-throws stray_config stray around initial (unfold builder in refl)
      ((λ e. cc), ((λ e. cc), tt)) stray_run

execute-validate_replay_events_example :
    validate_replay_events (yielded_events (reported result)) ≡ ok tt
execute-validate_replay_events_example = execute-validate_replay_events compiled around initial ran

resume-validate_replay_events_example :
    validate_replay_events (recorded ++ yielded_events resumed_ending) ≡ ok tt
resume-validate_replay_events_example =
    resume-validate_replay_events compiled around checkpoint null recorded (refl, refl, refl, refl)
      resumed_run

execute-Conforms_example : Conforms language schema result.state.value
unfolding builder
execute-Conforms_example = execute-Conforms compiled around initial ran

execute-snapshots_example :
    (xs : List StateSnapshot) × (result.snapshots ≡ some xs)
    × History 0 xs result.state
    × (length xs ≡ result.state.revision + 1)
execute-snapshots_example = execute-snapshots compiled around initial ran

execute-unwritten_example : lookup "name" result.state.value ≡ lookup "name" initial
unfolding builder
execute-unwritten_example = execute-unwritten compiled around initial "name" unwritten ran
  where
    unwritten : IsUnwritten compiled around "name"
    unwritten n (Memᴰ.head e) = rw e
    unwritten n (Memᴰ.tail (Memᴰ.head e)) = rw e
    unwritten n (Memᴰ.tail (Memᴰ.tail m)) = elim m [ ]

execute-within_budgets_example :
    (result.steps ≤ 100)
    × (IsOwnEnd result.status
        → (result.tokens ≤ max_safe_integer) × (result.cost_micros ≤ max_safe_integer))
unfolding builder
execute-within_budgets_example = execute-within_budgets compiled around initial ran

run_from_ends_example : ending ≢ unfinished
run_from_ends_example =
    run_from_ends compiled around (initial_snapshot compiled around initial) "count" 0 0 0
