-- ===== src/Engine.antt =====
-- packages/agents/src/engine/typescript/index.ts: the portable engine: the loop of `runFrom`, the
-- constructor, `execute` and `resume`. The events that the generator yields are the list that its
-- loop state carries; the report holds the same list.
pub mod Steps
pub mod Induction
pub mod Endings
pub mod Termination
pub mod Trace
pub mod State
pub mod Writes
pub mod Budgets
pub mod Throws
use knolo_agents.Base.{
  ℕ, zero, suc, ◌+◌, ◌-◌, String, Bool, true, false, not, Option, none, some, List, [], ◌∷◌, ◌==◌,
  if◌then◌else◌, eqb, filter, includes, Result, ok, err, ◌>>◌, ◌>>=◌, require,
}
use knolo_agents.Contracts.{
  GraphDefinition, StateSnapshot, EventKind, ExecutionEvent, ExecutionStatus, ExecutionReport,
  Checkpoint,
}
use knolo_agents.Contracts.Values.{Json, Fields}
use knolo_agents.Builder.Errors.{DefinitionError, unsupported_capabilities, graph_hash_mismatch}
use knolo_agents.Builder.{CompiledAgentDefinition}
use knolo_agents.Builder.Validate.{validate_definition}
use knolo_agents.Builder.State.{validate_state}
use knolo_agents.Engine.Steps.{
  EngineError, Surroundings, Loop, Turn, next, done, thrown, emit, turn,
}

abbrev pub supported : List String
supported = "state" ∷ "routing" ∷ "suspension" ∷ []

refuse_missing : List String → Result DefinitionError (Unit {0})
refuse_missing [] = ok tt
refuse_missing (c ∷ cs) = err (unsupported_capabilities (c ∷ cs))

-- new TypeScriptEngine(definition)
unfoldable pub new : CompiledAgentDefinition → Result DefinitionError CompiledAgentDefinition
unfolding refuse_missing
new d =
    validate_definition d.graph
    >> (refuse_missing (filter (λ c. not (includes supported c)) d.capabilities) >> ok d)

unfoldable pub report : ExecutionStatus → Loop → ExecutionReport
report status s = record {
  status = status;
  state = s.state;
  events = s.events;
  steps = s.steps;
  tokens = s.tokens;
  cost_micros = s.cost;
  snapshots = some s.snapshots;
}

-- How an execution ends. The last case is that of the fuel.
pub data Ending : Type 0 where
  reported : ExecutionReport → Ending
  threw : EngineError → (yielded : List ExecutionEvent) → Ending
  unfinished : Ending

-- What follows a turn; `rest` is the rest of the loop.
unfoldable pub proceed : (Loop → Ending) → Turn → Ending
proceed rest (next s) = rest s
proceed rest (done status s) = reported (report status s)
proceed rest (thrown e s) = threw e s.events

module _ (d : CompiledAgentDefinition) (around : Surroundings) where
  unfoldable pub drive : ℕ → Loop → Ending
  drive zero s = unfinished
  drive (suc fuel) s = proceed (drive fuel) (turn d around s)

  unfoldable pub initial_loop : StateSnapshot → String → ℕ → ℕ → ℕ → Loop
  initial_loop state start_node cursor steps tokens =
      let s : Loop = record {
        state = state;
        current = start_node;
        sequence = cursor;
        steps = steps;
        tokens = tokens;
        cost = 0;
        events = [];
        snapshots = state ∷ [];
        visits = λ id. 0;
        calls = 0;
      } in
      if eqb cursor 0 then emit d around EventKind.execution_started none s else s

  -- Every turn that goes on takes a step, so the step budget bounds the turns.
  unfoldable pub run_from : StateSnapshot → String → ℕ → ℕ → ℕ → Ending
  run_from state start_node cursor steps tokens =
      drive (suc (d.graph.limits.max_steps - steps))
        (initial_loop state start_node cursor steps tokens)

  unfoldable pub initial_snapshot : Fields → StateSnapshot
  initial_snapshot initial = record {
    schema_id = d.schema.id;
    revision = 0;
    value = initial;
    provenance = none;
  }

  unfoldable pub execute : Fields → Result DefinitionError Ending
  execute initial =
      validate_state around.language d.schema initial
      >> ok (run_from (initial_snapshot initial) d.graph.entry 0 0 0)

abbrev pub resumed : Surroundings → Checkpoint → Json → Surroundings
resumed around checkpoint input = record around {
  execution_id = checkpoint.execution_id;
  resume_input = some input;
}

unfoldable pub resume :
    CompiledAgentDefinition → Surroundings → Checkpoint → Json → Result DefinitionError Ending
resume d around checkpoint input =
    require (checkpoint.graph_hash == d.hash) graph_hash_mismatch
    >> ok (
        run_from d (resumed around checkpoint input) checkpoint.state checkpoint.pending_node
          checkpoint.event_cursor checkpoint.steps checkpoint.tokens)
