-- ===== src/Engine/Budgets.antt =====
-- The budgets of an execution: steps, tokens and cost.
use mathlib.Core.Path.{subst}
use knolo_agents.Base.{
  ℕ, zero, suc, ◌≤◌, ◌<◌, String, ◌≡◌, Bool, true, false, Option, none, some, Result, ok, err,
  arith,
}
use knolo_agents.Contracts.{
  ExecutionReport, NodeExecution, NodeOutcome, continue, route, suspend, terminate, fail,
  TransitionDefinition,
}
use knolo_agents.Contracts.Values.{Fields}
use knolo_agents.Builder.{CompiledAgentDefinition}
use knolo_agents.Engine.Steps.{
  Surroundings, Loop, Turn, next, done, thrown, emit, visit, charge, commit, move, patch_of, leave,
  follow, settle, edge_from, finish, settled, context, call, turn,
}
use knolo_agents.Engine.Induction.{
  IsQuiet, IsOwnEnd, After, apply_patch-kept, finish-kept, finish_by, enter_by, turn_by,
}
use knolo_agents.Engine.Termination.{initial_steps}
use knolo_agents.Engine.Endings.{EndsIn, drive-EndsIn, execute-eq-ok}
use knolo_agents.Engine.{
  Ending, reported, proceed, drive, report, run_from, initial_snapshot, execute, threw, unfinished,
}

-- Where a turn ends the execution so, `P` holds.
abbrev OwnEnd : (Loop → Type 0) → Turn → Type 0
OwnEnd P (next s) = Unit
OwnEnd P (done status s) = IsOwnEnd status → P s
OwnEnd P (thrown e s) = Unit

module _ (d : CompiledAgentDefinition) (around : Surroundings) where
  -- Within the token and cost budgets.
  abbrev pub IsAffordable : Loop → Type 0
  IsAffordable s =
      (s.tokens ≤ d.graph.limits.max_tokens) × (s.cost ≤ d.graph.limits.max_cost_micros)

  IsAffordable-IsQuiet : IsQuiet d around IsAffordable
  unfolding emit visit move commit
  IsAffordable-IsQuiet = record {
    by_emit = λ kind node s h. h;
    by_visit = λ s h. h;
    by_move = λ t s m h. h;
    by_commit = λ update s w c h. h;
  }

  leave_own :
      (explicit : Bool) (taken : String) (o : Option TransitionDefinition) (s : Loop)
      → OwnEnd IsAffordable (leave d around explicit taken o s)
  unfolding leave
  leave_own explicit taken none s = tt
  leave_own explicit taken (some t) s = tt

  settle_own :
      (o : NodeOutcome) (s : Loop) → IsAffordable s → OwnEnd IsAffordable (settle d around o s)
  unfolding settle follow emit
  settle_own (terminate result patch) s h = λ own. h
  settle_own (suspend reason patch) s h = λ own. h
  settle_own (fail error retryable) s h = λ own. absurd own
  settle_own (route taken patch) s h = leave_own true taken (edge_from d around s.current taken) s
  settle_own (continue patch) s h =
      leave_own false "continue" (edge_from d around s.current "continue") s

  finish_own :
      (execution : NodeExecution) (s : Loop) → OwnEnd IsAffordable (finish d around execution s)
  unfolding finish
  finish_own execution s =
      finish_by d around (OwnEnd IsAffordable) execution s (λ kind status n own. absurd (n own))
        (λ e x. tt)
        (λ s' within affordable e. settle_own execution.outcome s' (
          apply_patch-kept IsAffordable-IsQuiet (patch_of d around execution.outcome) s e
            (within, affordable)))

  settled_own :
      (r : Result String NodeExecution) (s : Loop) → OwnEnd IsAffordable (settled d around r s)
  unfolding settled
  settled_own (err message) s = λ own. absurd own
  settled_own (ok execution) s = finish_own execution _

  turn_own : (s : Loop) → OwnEnd IsAffordable (turn d around s)
  unfolding call
  turn_own s =
      turn_by d around (OwnEnd IsAffordable) s (λ kind status n own. absurd (n own))
        (λ below.
          enter_by d around (OwnEnd IsAffordable) (visit d around s)
            (λ kind status n own. absurd (n own)) (λ e. tt)
            (λ handler e. settled_own (handler (context d around (visit d around s))) _))

  -- A report whose status a node chose.
  abbrev IsWithin : Ending → Type 0
  IsWithin (reported r) =
      IsOwnEnd r.status
      → (r.tokens ≤ d.graph.limits.max_tokens) × (r.cost_micros ≤ d.graph.limits.max_cost_micros)
  IsWithin (threw e yielded) = Unit
  IsWithin unfinished = Unit

  proceed-IsWithin :
      (rest : Loop → Ending) (t : Turn)
      → OwnEnd IsAffordable t
      → ((s : Loop) → IsWithin (rest s))
      → IsWithin (proceed rest t)
  unfolding proceed report
  proceed-IsWithin rest (next s) h f = f s
  proceed-IsWithin rest (done status s) h f = h
  proceed-IsWithin rest (thrown e s) h f = tt

  drive-IsWithin : (fuel : ℕ) (s : Loop) → IsWithin (drive d around fuel s)
  unfolding drive
  drive-IsWithin zero s = tt
  drive-IsWithin (suc fuel) s =
      proceed-IsWithin (drive d around fuel) (turn d around s) (turn_own s) (drive-IsWithin fuel)

  -- At most the steps of the budget have been taken.
  abbrev HasSteps : Loop → Type 0
  HasSteps s = s.steps ≤ d.graph.limits.max_steps

  HasSteps-IsQuiet : IsQuiet d around HasSteps
  unfolding emit visit move commit
  HasSteps-IsQuiet = record {
    by_emit = λ kind node s h. h;
    by_visit = λ s h. h;
    by_move = λ t s m h. h;
    by_commit = λ update s w c h. h;
  }

  settled-HasSteps :
      (r : Result String NodeExecution) (s : Loop)
      → s.steps < d.graph.limits.max_steps
      → After HasSteps (settled d around r s)
  unfolding settled emit
  settled-HasSteps (err message) s h = omega arith
  settled-HasSteps (ok execution) s h =
      finish-kept HasSteps-IsQuiet execution (charge d around execution s)
        (unfold charge in omega arith)

  turn-HasSteps : (s : Loop) → HasSteps s → After HasSteps (turn d around s)
  unfolding call
  turn-HasSteps s h =
      turn_by d around (After HasSteps) s (λ kind status n. HasSteps-IsQuiet.by_emit _ _ _ h)
        (λ below.
          enter_by d around (After HasSteps) (visit d around s)
            (λ kind status n. HasSteps-IsQuiet.by_emit _ _ _ (HasSteps-IsQuiet.by_visit s h))
            (λ e. HasSteps-IsQuiet.by_visit s h)
            (λ handler e. settled-HasSteps _ _ (unfold emit visit in below)))

-- An execution reports at most the steps of its budget; and where a node ended or suspended it, at
-- most the tokens and the cost of their budgets.
pub execute-within_budgets :
    (d : CompiledAgentDefinition) (around : Surroundings) (initial : Fields) {r : ExecutionReport}
    → execute d around initial ≡ ok (reported r)
    → (r.steps ≤ d.graph.limits.max_steps)
      × (IsOwnEnd r.status
          → (r.tokens ≤ d.graph.limits.max_tokens)
            × (r.cost_micros ≤ d.graph.limits.max_cost_micros))
unfolding run_from report
execute-within_budgets d around initial {r} e =
    let (valid, same) = execute-eq-ok d around initial e in
    let (status, s, is_report, h) = subst (EndsIn (HasSteps d around)) same (
      drive-EndsIn d around (HasSteps d around) (turn-HasSteps d around) _ _ (
        rw (initial_steps d around (initial_snapshot d around initial) d.graph.entry 0 0 0)
          (omega arith))) in
    (rw is_report h, subst (IsWithin d around) same (drive-IsWithin d around _ _))
