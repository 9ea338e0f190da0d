-- ===== src/Engine/Termination.antt =====
-- Each turn that goes on takes one step below the step budget, so the loop ends.
use knolo_agents.Base.{
  ℕ, zero, suc, ◌+◌, ◌-◌, ◌≤◌, ◌<◌, String, ◌≡◌, ◌≢◌, refl, Result, ok, err, arith,
}
use knolo_agents.Contracts.{NodeExecution, StateSnapshot}
use knolo_agents.Builder.{NodeHandler, CompiledAgentDefinition}
use knolo_agents.Engine.Steps.{
  Surroundings, Loop, Turn, next, done, thrown, emit, visit, charge, commit, move, finish, settled,
  context, call, enter, turn,
}
use knolo_agents.Engine.{Ending, unfinished, proceed, drive, run_from, initial_loop}
use knolo_agents.Engine.Induction.{After, IsQuiet, finish-kept, enter_by, turn_by}

-- Where the loop goes on, its state satisfies `P`.
abbrev pub Onward : (Loop → Type 0) → Turn → Type 0
Onward P (next s) = P s
Onward P (done status s) = Unit
Onward P (thrown e s) = Unit

Onward-After : (P : Loop → Type 0) (t : Turn) → After P t → Onward P t
Onward-After P (next s) h = h
Onward-After P (done status s) h = tt
Onward-After P (thrown e s) h = tt

Onward-map : (P Q : Loop → Type 0) (t : Turn) → ((s : Loop) → P s → Q s) → Onward P t → Onward Q t
Onward-map P Q (next s) f h = f s h
Onward-map P Q (done status s) f h = tt
Onward-map P Q (thrown e s) f h = tt

abbrev TookStep : ℕ → Loop → Type 0
TookStep n s = s.steps ≡ n + 1

module _ (d : CompiledAgentDefinition) (around : Surroundings) where
  steps-IsQuiet : (n : ℕ) → IsQuiet d around (λ s. s.steps ≡ n)
  unfolding emit visit move commit
  steps-IsQuiet n = record {
    by_emit = λ kind node s h. h;
    by_visit = λ s h. h;
    by_move = λ t s m h. h;
    by_commit = λ update s w c h. h;
  }

  settled_step :
      (r : Result String NodeExecution) (s : Loop)
      → Onward (TookStep s.steps) (settled d around r s)
  unfolding settled
  settled_step (err message) s = tt
  settled_step (ok execution) s =
      Onward-After (TookStep s.steps) (finish d around execution (charge d around execution s)) (
        finish-kept (steps-IsQuiet (s.steps + 1)) execution (charge d around execution s)
          (unfold charge in refl))

  call_step :
      (handler : NodeHandler) (s : Loop) → Onward (TookStep s.steps) (call d around handler s)
  unfolding call emit
  call_step handler s = settled_step (handler (context d around s)) _

  enter_step : (s : Loop) → Onward (TookStep s.steps) (enter d around s)
  enter_step s =
      enter_by d around (Onward (TookStep s.steps)) s (λ kind status n. tt) (λ e. tt)
        (λ handler e. call_step handler s)

  abbrev pub Progress : Loop → Loop → Type 0
  Progress s s' = (s'.steps ≡ s.steps + 1) × (s.steps < d.graph.limits.max_steps)

  -- A turn that goes on started below the step budget, and took one step.
  pub turn_step : (s : Loop) → Onward (Progress s) (turn d around s)
  turn_step s =
      turn_by d around (Onward (Progress s)) s (λ kind status n. tt)
        (λ below.
          Onward-map (TookStep s.steps) (Progress s) (enter d around (visit d around s))
            (λ s' took. (took, below)) (unfold visit in enter_step (visit d around s)))

  proceed_ends :
      (rest : Loop → Ending) (t : Turn) (s : Loop)
      → Onward (Progress s) t
      → ((s' : Loop) → Progress s s' → rest s' ≢ unfinished)
      → proceed rest t ≢ unfinished
  unfolding proceed
  proceed_ends rest (next s') s h f = f s' h
  proceed_ends rest (done status s') s h f = λ e. cc
  proceed_ends rest (thrown x s') s h f = λ e. cc

  -- With a turn for each step that is left, and one more, the loop ends.
  drive_ends :
      (fuel : ℕ) (s : Loop)
      → d.graph.limits.max_steps ≤ s.steps + fuel
      → drive d around (suc fuel) s ≢ unfinished
  unfolding drive
  drive_ends zero s h =
      proceed_ends (drive d around zero) (turn d around s) s (turn_step s)
        (λ s' p. absurd (omega arith))
  drive_ends (suc fuel) s h =
      proceed_ends (drive d around (suc fuel)) (turn d around s) s (turn_step s)
        (λ s' p. drive_ends fuel s' (omega arith))

  pub initial_steps :
      (state : StateSnapshot) (start : String) (cursor steps tokens : ℕ)
      → (initial_loop d around state start cursor steps tokens).steps ≡ steps
  unfolding initial_loop emit
  initial_steps state start cursor steps tokens = ground arith

  -- An execution ends: whatever the handlers, the clock and the abort signal do, and wherever it
  -- starts, the loop returns a report or throws within the turns that the step budget allows.
  pub run_from_ends :
      (state : StateSnapshot) (start : String) (cursor steps tokens : ℕ)
      → run_from d around state start cursor steps tokens ≢ unfinished
  unfolding run_from
  run_from_ends state start cursor steps tokens =
      drive_ends (d.graph.limits.max_steps - steps) _
        (omega (arith, initial_steps state start cursor steps tokens))
