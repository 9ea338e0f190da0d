-- ===== src/Engine/Endings.antt =====
-- What holds of the report or the error of an execution, from what its turns keep.
use knolo_agents.Base.{ℕ, zero, suc, ◌≡◌, refl, arith, ok, eq_iff}
use knolo_agents.Contracts.{ExecutionStatus, Checkpoint}
use knolo_agents.Contracts.Values.{Json, Fields}
use knolo_agents.Builder.State.{validate_state}
use knolo_agents.Builder.{CompiledAgentDefinition}
use knolo_agents.Engine.Steps.{Surroundings, Loop, Turn, next, done, thrown, turn}
use knolo_agents.Engine.Induction.{After, IsKept, turn-kept}
use knolo_agents.Engine.{
  Ending, reported, threw, unfinished, proceed, drive, report, execute, resume, resumed,
  initial_snapshot, run_from,
}

-- The report, or the events of an execution that threw, are those of a loop state with `P`.
abbrev pub EndsIn : (Loop → Type 0) → Ending → Type 0
EndsIn P (reported r) = (status : ExecutionStatus) × (s : Loop) × (r ≡ report status s) × P s
EndsIn P (threw e yielded) = (s : Loop) × (yielded ≡ s.events) × P s
EndsIn P unfinished = Unit

module _ (d : CompiledAgentDefinition) (around : Surroundings) (P : Loop → Type 0) where
  proceed-EndsIn :
      (rest : Loop → Ending) (t : Turn)
      → After P t
      → ((s : Loop) → P s → EndsIn P (rest s))
      → EndsIn P (proceed rest t)
  unfolding proceed
  proceed-EndsIn rest (next s) h f = f s h
  proceed-EndsIn rest (done status s) h f = (status, s, refl, h)
  proceed-EndsIn rest (thrown e s) h f = (s, refl, h)

  -- What every turn keeps holds at the end.
  pub drive-EndsIn :
      ((s : Loop) → P s → After P (turn d around s))
      → (fuel : ℕ) (s : Loop) → P s
      → EndsIn P (drive d around fuel s)
  unfolding drive
  drive-EndsIn keep zero s h = tt
  drive-EndsIn keep (suc fuel) s h =
      proceed-EndsIn (drive d around fuel) (turn d around s) (keep s h)
        (λ s' h'. drive-EndsIn keep fuel s' h')

  pub kept-EndsIn :
      IsKept d around P → (fuel : ℕ) (s : Loop) → P s → EndsIn P (drive d around fuel s)
  kept-EndsIn k = drive-EndsIn (λ s h. turn-kept k s h)

module _ (d : CompiledAgentDefinition) (around : Surroundings) where
  -- `execute` checks the initial state, and then runs from the entry.
  pub execute-eq-ok :
      (initial : Fields) {ending : Ending}
      → execute d around initial ≡ ok ending
      → (validate_state around.language d.schema initial ≡ ok tt)
        × (run_from d around (initial_snapshot d around initial) d.graph.entry 0 0 0 ≡ ending)
  unfolding execute
  execute-eq-ok initial h = (ground arith, ground arith)

  -- `resume` checks the hash of the graph, and then runs from the checkpoint.
  pub resume-eq-ok :
      (checkpoint : Checkpoint) (input : Json) {ending : Ending}
      → resume d around checkpoint input ≡ ok ending
      → (checkpoint.graph_hash ≡ d.hash)
        × (run_from d
              (resumed around checkpoint input)
              checkpoint.state
              checkpoint.pending_node
              checkpoint.event_cursor
              checkpoint.steps
              checkpoint.tokens
            ≡ ending)
  unfolding resume
  resume-eq-ok checkpoint input h =
      (ground (arith, eq_iff checkpoint.graph_hash d.hash), ground arith)
