-- ===== src/Engine/Steps.antt =====
-- packages/agents/src/engine/typescript/index.ts: one turn of the loop of `runFrom`.
use knolo_agents.Base.{
  ℕ, ◌+◌, String, Bool, true, false, ◌&&◌, Option, none, some, List, [], ◌∷◌, ◌++◌, ◌==◌,
  if◌then◌else◌, ltb, leb, find, includes, Result, ok, err, ◌>>=◌, ◌>>◌,
}
use knolo_agents.Contracts.{
  NodeDefinition, TransitionDefinition, CycleDefinition, StateSnapshot, EventKind, ExecutionEvent,
  ExecutionStatus, StateUpdate, fields, computed, NodeOutcome, continue, route, suspend, terminate,
  fail, NodeExecution,
}
use knolo_agents.Contracts.Values.{Json, Fields, keys, assign}
use knolo_agents.Builder.Errors.{
  DefinitionError, node_has_no_handler, undeclared_write, undeclared_route,
}
use knolo_agents.Builder.{NodeContext, NodeHandler, CompiledAgentDefinition, or_default, pointer}
use knolo_agents.Builder.State.{Language, validate_state}

-- What the generator can throw: a definition error, the error of a patch function, or the error of
-- reading `writes` of a node that the graph does not declare.
pub data EngineError : Type 0 where
  definition : DefinitionError → EngineError
  patch_threw : (message : String) → EngineError
  node_undefined : EngineError

-- The surroundings of one execution: the abort signal and the time since the start, as they are read
-- at the top of the turn that follows a number of handler calls, and the clock at each event.
pub record Surroundings : Type 0 where
  pub language : Language
  pub aborted : ℕ → Bool
  pub elapsed_ms : ℕ → ℕ
  pub timestamp_ms : ℕ → ℕ
  pub execution_id : String
  pub resume_input : Option Json

-- The variables of `runFrom`.
pub record Loop : Type 0 where
  pub state : StateSnapshot
  pub current : String
  pub sequence : ℕ
  pub steps : ℕ
  pub tokens : ℕ
  pub cost : ℕ
  pub events : List ExecutionEvent
  pub snapshots : List StateSnapshot
  pub visits : String → ℕ
  pub calls : ℕ

-- How a turn ends: the loop goes on, the generator returns a report, or it throws.
pub data Turn : Type 0 where
  next : Loop → Turn
  done : ExecutionStatus → Loop → Turn
  thrown : EngineError → Loop → Turn

-- A definition error passes through the generator.
unfoldable pub rethrow : Result DefinitionError (Unit {0}) → Result EngineError (Unit {0})
rethrow (ok u) = ok tt
rethrow (err e) = err (definition e)

module _ (d : CompiledAgentDefinition) (around : Surroundings) where
  unfoldable pub emit : EventKind → Option String → Loop → Loop
  emit kind node s = record s {
    sequence = s.sequence + 1;
    events =
        s.events
        ++ record {
          version = 1;
          sequence = s.sequence + 1;
          execution_id = around.execution_id;
          node_id = node;
          timestamp_ms = around.timestamp_ms (s.sequence + 1);
          kind = kind;
        }
          ∷ [];
  }

  abbrev pub stop : EventKind → ExecutionStatus → Loop → Turn
  stop kind status s = done status (emit kind (some s.current) s)

  abbrev pub stop_failed : String → Loop → Turn
  stop_failed error = stop (EventKind.failed error) (ExecutionStatus.failed error)

  unfoldable pub visit : Loop → Loop
  visit s = record s {
    visits = λ id. if id == s.current then s.visits s.current + 1 else s.visits id;
  }

  -- steps++, and the usage that the handler reports
  unfoldable pub charge : NodeExecution → Loop → Loop
  charge execution s = record s {
    steps = s.steps + 1;
    tokens = s.tokens + or_default execution.tokens 0;
    cost = s.cost + or_default execution.cost_micros 0;
    calls = s.calls + 1;
  }

  unfoldable pub commit : Fields → Loop → Loop
  commit value s =
      let state : StateSnapshot = record {
        schema_id = s.state.schema_id;
        revision = s.state.revision + 1;
        value = value;
        provenance = some (record {
          execution_id = around.execution_id;
          node_id = s.current;
          event_sequence = s.sequence + 1;
        });
      } in
      record s { state = state; snapshots = s.snapshots ++ state ∷ [] }

  unfoldable pub move : String → Loop → Loop
  move to s = record s { current = to }

  unfoldable pub patch_of : NodeOutcome → Option StateUpdate
  patch_of (continue patch) = patch
  patch_of (route r patch) = patch
  patch_of (suspend reason patch) = patch
  patch_of (terminate result patch) = patch
  patch_of (fail error retryable) = none

  unfoldable pub update_of : StateUpdate → Fields → Result EngineError Fields
  update_of (fields update) value = ok update
  update_of (computed f) value = elim (f value) [
    | ok update ↦ ok update
    | err message ↦ err (patch_threw message)
  ]

  -- The loop over the keys of an update: each must be among the node's declared writes.
  unfoldable pub check_writes :
      Option NodeDefinition → String → List String → Result EngineError (Unit {0})
  check_writes declared current [] = ok tt
  check_writes none current (key ∷ rest) = err node_undefined
  check_writes (some n) current (key ∷ rest) =
      if includes n.writes (pointer key)
      then check_writes (some n) current rest
      else err (definition (undeclared_write current key))

  unfoldable pub check_state : Fields → Result EngineError (Unit {0})
  check_state value = rethrow (validate_state around.language d.schema value)

  unfoldable pub node_of : String → Option NodeDefinition
  node_of id = find (λ (n : NodeDefinition). n.id == id) d.graph.nodes

  unfoldable pub patched : Fields → Loop → Loop
  patched value s =
      emit (EventKind.state_patched (commit value s).state.revision) (some s.current)
        (commit value s)

  -- if (patch) { ... }: the loop state after the patch, or what was thrown.
  unfoldable pub apply_patch : Option StateUpdate → Loop → Result EngineError Loop
  apply_patch none s = ok s
  apply_patch (some patch) s = do
    update ← update_of patch s.state.value
    check_writes (node_of s.current) s.current (keys update)
    check_state (assign s.state.value update)
    ok (patched (assign s.state.value update) s)

  unfoldable pub edge_from : String → String → Option TransitionDefinition
  edge_from current taken =
      find (λ (t : TransitionDefinition). t.from == current && t.route == taken) d.graph.transitions

  unfoldable pub announce : Bool → String → TransitionDefinition → Loop → Loop
  announce explicit taken t s =
      if explicit then emit (EventKind.routed taken t.to) (some s.current) s else s

  -- The last part of a turn: the transition of the route, the events for it, and the move.
  unfoldable pub leave : Bool → String → Option TransitionDefinition → Loop → Turn
  leave explicit taken none s = thrown (definition (undeclared_route taken s.current)) s
  leave explicit taken (some t) s =
      next (move t.to (emit EventKind.checkpointed (some s.current) (announce explicit taken t s)))

  unfoldable pub follow : Bool → String → Loop → Turn
  follow explicit taken s = leave explicit taken (edge_from s.current taken) s

  unfoldable pub settle : NodeOutcome → Loop → Turn
  settle (terminate result patch) s =
      stop EventKind.terminated (ExecutionStatus.terminated result) s
  settle (suspend reason patch) s =
      stop (EventKind.suspended reason) (ExecutionStatus.suspended reason) s
  settle (fail error retryable) s = stop_failed error s
  settle (route taken patch) s = follow true taken s
  settle (continue patch) s = follow false "continue" s

  -- From the handler's return to the end of the turn.
  unfoldable pub finish : NodeExecution → Loop → Turn
  finish execution s =
      let l = d.graph.limits in
      if ltb l.max_tokens s.tokens
      then stop_failed "token budget exceeded" s
      else if ltb l.max_cost_micros s.cost
      then stop_failed "cost budget exceeded" s
      else elim (apply_patch (patch_of execution.outcome) s) [
        | err e ↦ thrown e s
        | ok s' ↦ settle execution.outcome s'
      ]

  -- try { await handler(...) } catch: an error of the handler ends the execution as failed.
  unfoldable pub settled : Result String NodeExecution → Loop → Turn
  settled (err message) s = stop_failed message s
  settled (ok execution) s = finish execution (charge execution s)

  abbrev pub context : Loop → NodeContext
  context s = record {
    call = s.calls;
    state = s.state.value;
    attempt = 1;
    resume_input = around.resume_input;
  }

  unfoldable pub call : NodeHandler → Loop → Turn
  call handler s =
      settled (handler (context s)) (emit (EventKind.node_started 1) (some s.current) s)

  unfoldable pub cycle_exceeded : Loop → Bool
  cycle_exceeded s =
      elim (find (λ (c : CycleDefinition). includes c.nodes s.current) d.graph.cycles) [
        | none ↦ false
        | some c ↦ ltb c.max_iterations (s.visits s.current)
      ]

  -- From the count of the visit to the call of the handler.
  unfoldable pub enter : Loop → Turn
  enter s =
      if cycle_exceeded s
      then stop_failed "cycle limit exceeded" s
      else elim (d.handlers s.current) [
        | none ↦ thrown (definition (node_has_no_handler s.current)) s
        | some handler ↦ call handler s
      ]

  -- One turn of `while (true)`.
  unfoldable pub turn : Loop → Turn
  turn s =
      let l = d.graph.limits in
      if around.aborted s.calls
      then stop EventKind.cancelled ExecutionStatus.cancelled s
      else if leb l.max_steps s.steps
      then stop_failed "step budget exceeded" s
      else if ltb l.timeout_ms (around.elapsed_ms s.calls)
      then stop_failed "timeout budget exceeded" s
      else enter (visit s)
