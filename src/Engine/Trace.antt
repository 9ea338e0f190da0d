-- ===== src/Engine/Trace.antt =====
-- The events of an execution against `validateReplayEvents`: what the engine emits can be replayed.
use mathlib.Core.Path.{subst}
use knolo_agents.Base.{ℕ, ◌+◌, String, ◌≡◌, refl, List, [], ◌++◌, ok, eqb, Bool-cases, inl, inr}
use knolo_agents.Contracts.{ExecutionEvent, StateSnapshot, Checkpoint}
use knolo_agents.Contracts.Values.{Json, Fields}
use knolo_agents.Builder.{CompiledAgentDefinition}
use knolo_agents.Replay.{validate_replay_events}
use knolo_agents.Replay.Contiguous.{Trail, Trail-append, Trail-validate_replay_events}
use knolo_agents.Engine.Steps.{Surroundings, Loop, emit, visit, charge, commit, move}
use knolo_agents.Engine.Induction.{IsKept}
use knolo_agents.Engine.Endings.{EndsIn, kept-EndsIn, execute-eq-ok, resume-eq-ok}
use knolo_agents.Engine.{
  Ending, reported, threw, unfinished, initial_loop, run_from, execute, resume, resumed, report,
  initial_snapshot,
}

-- The events of the loop are numbered from the cursor on, up to the counter.
abbrev IsTraced : String → ℕ → Loop → Type 0
IsTraced id cursor s = Trail id cursor s.events s.sequence

module _ (d : CompiledAgentDefinition) (around : Surroundings) where
  IsTraced-kept : (cursor : ℕ) → IsKept d around (IsTraced around.execution_id cursor)
  unfolding emit visit charge move commit
  IsTraced-kept cursor = record {
    quiet = record {
      by_emit = λ kind node s h.
          Trail-append around.execution_id cursor s.sequence (s.sequence + 1) s.events _ h
            (refl, refl, refl, refl);
      by_visit = λ s h. h;
      by_move = λ t s m h. h;
      by_commit = λ update s w c h. h;
    };
    by_charge = λ execution s h. h;
  }

  initial_loop-IsTraced :
      (state : StateSnapshot) (start : String) (cursor steps tokens : ℕ)
      → IsTraced around.execution_id cursor (initial_loop d around state start cursor steps tokens)
  unfolding initial_loop emit
  initial_loop-IsTraced state start cursor steps tokens = elim (Bool-cases (eqb cursor 0)) [
    | inl e ↦ rw e (refl, refl, refl, refl)
    | inr e ↦ rw e refl
  ]

  run_from-IsTraced :
      (state : StateSnapshot) (start : String) (cursor steps tokens : ℕ)
      → EndsIn
          (IsTraced around.execution_id cursor)
          (run_from d around state start cursor steps tokens)
  unfolding run_from
  run_from-IsTraced state start cursor steps tokens =
      kept-EndsIn d around (IsTraced around.execution_id cursor) (IsTraced-kept cursor) _ _
        (initial_loop-IsTraced state start cursor steps tokens)

-- The events that an execution yielded, however it ended.
abbrev pub yielded_events : Ending → List ExecutionEvent
yielded_events (reported r) = r.events
yielded_events (threw e yielded) = yielded
yielded_events unfinished = []

yielded-Trail :
    (id : String) (cursor : ℕ) (ending : Ending)
    → EndsIn (IsTraced id cursor) ending
    → (last : ℕ) × Trail id cursor (yielded_events ending) last
unfolding report
yielded-Trail id cursor (reported r) (status, s, e, h) = (s.sequence, rw e h)
yielded-Trail id cursor (threw x ev) (s, e, h) = (s.sequence, rw e h)
yielded-Trail id cursor unfinished h = (cursor, refl)

-- Whatever an execution from the start yields, reported or thrown, is a valid trace to replay.
pub execute-validate_replay_events :
    (d : CompiledAgentDefinition) (around : Surroundings) (initial : Fields) {ending : Ending}
    → execute d around initial ≡ ok ending
    → validate_replay_events (yielded_events ending) ≡ ok tt
execute-validate_replay_events d around initial e =
    let (valid, same) = execute-eq-ok d around initial e in
    let (last, trail) =
      yielded-Trail around.execution_id 0 _
        (run_from-IsTraced d around (initial_snapshot d around initial) d.graph.entry 0 0 0) in
    subst (λ x. validate_replay_events (yielded_events x) ≡ ok tt) same
      (Trail-validate_replay_events around.execution_id last _ trail)

-- The trace of a run up to a checkpoint, continued by what the resumed run yields, is a valid trace.
pub resume-validate_replay_events :
    (d : CompiledAgentDefinition) (around : Surroundings) (checkpoint : Checkpoint) (input : Json)
    (recorded : List ExecutionEvent) {ending : Ending}
    → Trail checkpoint.execution_id 0 recorded checkpoint.event_cursor
    → resume d around checkpoint input ≡ ok ending
    → validate_replay_events (recorded ++ yielded_events ending) ≡ ok tt
resume-validate_replay_events d around checkpoint input recorded before e =
    let (matching, same) = resume-eq-ok d around checkpoint input e in
    let (last, trail) = yielded-Trail checkpoint.execution_id checkpoint.event_cursor _ (
      run_from-IsTraced d (resumed around checkpoint input) checkpoint.state checkpoint.pending_node
        checkpoint.event_cursor checkpoint.steps checkpoint.tokens) in
    subst (λ x. validate_replay_events (recorded ++ yielded_events x) ≡ ok tt) same
      (Trail-validate_replay_events checkpoint.execution_id last _ (
        Trail-append checkpoint.execution_id 0 checkpoint.event_cursor last recorded _ before
          trail))
