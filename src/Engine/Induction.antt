-- ===== src/Engine/Induction.antt =====
-- What holds through a turn of the engine: a rule that reduces an invariant of the loop to the five
-- operations on it.
use knolo_agents.Base.{
  String, ◌≡◌, refl, Bool, true, false, inl, inr, Option, none, some, Bool-cases, ltb, leb, Result,
  ok, err, >>=-eq-ok, >>-eq-ok, arith, Result-cases, Option-cases, find-eq-some, ltb→ge, ◌≤◌, ◌<◌,
}
use knolo_agents.Contracts.{
  EventKind, ExecutionStatus, StateUpdate, NodeExecution, NodeOutcome, continue, route, suspend,
  terminate, fail, TransitionDefinition,
}
use knolo_agents.Contracts.Values.{Fields, assign}
use knolo_agents.Builder.{NodeHandler, CompiledAgentDefinition}
use mathlib.Core.Path.{subst}
use mathlib.Core.List.{Memᴰ}
use knolo_agents.Builder.Errors.{node_has_no_handler}
use knolo_agents.Engine.Steps.{
  EngineError, Surroundings, Loop, Turn, next, done, thrown, emit, visit, charge, commit, move,
  definition, patched, update_of, check_writes, check_state, node_of, apply_patch, patch_of,
  edge_from, announce, leave, follow, settle, finish, settled, context, call, cycle_exceeded, enter,
  turn,
}
use knolo_agents.Contracts.Values.{keys}

-- Whatever the turn does next, its loop state satisfies `P`.
abbrev pub After : (Loop → Type 0) → Turn → Type 0
After P (next s) = P s
After P (done status s) = P s
After P (thrown e s) = P s

abbrev pub AfterOk : (Loop → Type 0) → Result EngineError Loop → Type 0
AfterOk P (ok s) = P s
AfterOk P (err e) = Unit

-- Kept by every operation on the loop but `charge`.
pub record IsQuiet (d : CompiledAgentDefinition) (around : Surroundings) (P : Loop → Type 0)
    : Type 0 where
  pub by_emit :
      (kind : EventKind) (node : Option String) (s : Loop) → P s → P (emit d around kind node s)
  pub by_visit : (s : Loop) → P s → P (visit d around s)
  pub by_move :
      (t : TransitionDefinition) (s : Loop)
      → Memᴰ t d.graph.transitions
      → P s
      → P (move d around t.to s)
  pub by_commit :
      (update : Fields) (s : Loop)
      → check_writes d around (node_of d around s.current) s.current (keys update) ≡ ok tt
      → check_state d around (assign s.state.value update) ≡ ok tt
      → P s
      → P (commit d around (assign s.state.value update) s)

pub record IsKept (d : CompiledAgentDefinition) (around : Surroundings) (P : Loop → Type 0)
    : Type 0 where
  pub quiet : IsQuiet d around P
  pub open quiet use *
  pub by_charge : (execution : NodeExecution) (s : Loop) → P s → P (charge d around execution s)

module _ (d : CompiledAgentDefinition) (around : Surroundings) where
  -- A patch that is applied comes from the handler, names declared writes, and keeps the schema.
  pub apply_patch-eq-ok :
      (patch : StateUpdate) (s : Loop) {s' : Loop}
      → apply_patch d around (some patch) s ≡ ok s'
      → (update : Fields) × (update_of d around patch s.state.value ≡ ok update)
        × (check_writes d around (node_of d around s.current) s.current (keys update) ≡ ok tt)
        × (check_state d around (assign s.state.value update) ≡ ok tt)
        × (patched d around (assign s.state.value update) s ≡ s')
  unfolding apply_patch
  apply_patch-eq-ok patch s h =
      let (update, updated, h1) = >>=-eq-ok _ _ h in
      let (written, h2) = >>-eq-ok _ _ h1 in
      let (checked, h3) = >>-eq-ok _ _ h2 in (update, updated, written, checked, cc)

  edge_from-Memᴰ :
      (current taken : String) {t : TransitionDefinition}
      → edge_from d around current taken ≡ some t
      → Memᴰ t d.graph.transitions
  unfolding edge_from
  edge_from-Memᴰ current taken e = (find-eq-some _ d.graph.transitions e).0

-- The node ended the execution, or suspended it: no budget, error or signal did.
abbrev pub IsOwnEnd : ExecutionStatus → Type 0
IsOwnEnd (ExecutionStatus.terminated result) = Unit
IsOwnEnd (ExecutionStatus.suspended reason) = Unit
IsOwnEnd (ExecutionStatus.failed error) = ⊥
IsOwnEnd ExecutionStatus.cancelled = ⊥

-- The ways through the parts of a turn, for any claim about how the turn ends.
module _ (d : CompiledAgentDefinition) (around : Surroundings) (Q : Turn → Type 0) where
  -- The claim holds where the engine itself ends the execution.
  abbrev pub Stops : Loop → Type 0
  Stops s =
      (kind : EventKind) (status : ExecutionStatus)
      → ¬ IsOwnEnd status
      → Q (done status (emit d around kind (some s.current) s))

  pub finish_by :
      (execution : NodeExecution) (s : Loop)
      → Stops s
      → ((e : EngineError)
          → apply_patch d around (patch_of d around execution.outcome) s ≡ err e
          → Q (thrown e s))
      → ((s' : Loop)
          → s.tokens ≤ d.graph.limits.max_tokens
          → s.cost ≤ d.graph.limits.max_cost_micros
          → apply_patch d around (patch_of d around execution.outcome) s ≡ ok s'
          → Q (settle d around execution.outcome s'))
      → Q (finish d around execution s)
  unfolding finish
  finish_by execution s stops throws settles =
      elim (Bool-cases (ltb d.graph.limits.max_tokens s.tokens)) [
        | inl over ↦ rw over (stops _ _ (λ own. own))
        | inr within ↦ rw within (elim (Bool-cases (ltb d.graph.limits.max_cost_micros s.cost)) [
          | inl over ↦ rw over (stops _ _ (λ own. own))
          | inr affordable ↦
              rw affordable
                (elim (Result-cases
                  (apply_patch d around (patch_of d around execution.outcome) s)) [
                    | inl (s', e) ↦ rw e (settles s' (ltb→ge _ _ within) (ltb→ge _ _ affordable) e)
                    | inr (x, e) ↦ rw e (throws x e)
                  ])
        ])
      ]

  pub enter_by :
      (s : Loop)
      → Stops s
      → (d.handlers s.current ≡ none → Q (thrown (definition (node_has_no_handler s.current)) s))
      → ((handler : NodeHandler)
          → d.handlers s.current ≡ some handler
          → Q (call d around handler s))
      → Q (enter d around s)
  unfolding enter
  enter_by s stops throws calls = elim (Bool-cases (cycle_exceeded d around s)) [
    | inl over ↦ rw over (stops _ _ (λ own. own))
    | inr within ↦ rw within (elim (Option-cases (d.handlers s.current)) [
      | inl e ↦ rw e (throws e)
      | inr (handler, e) ↦ rw e (calls handler e)
    ])
  ]

  pub turn_by :
      (s : Loop)
      → Stops s
      → (s.steps < d.graph.limits.max_steps → Q (enter d around (visit d around s)))
      → Q (turn d around s)
  unfolding turn
  turn_by s stops enters = elim (Bool-cases (around.aborted s.calls)) [
    | inl stopped ↦ rw stopped (stops _ _ (λ own. own))
    | inr a ↦ rw a (elim (Bool-cases (leb d.graph.limits.max_steps s.steps)) [
      | inl spent ↦ rw spent (stops _ _ (λ own. own))
      | inr b ↦
          rw b (elim (Bool-cases (ltb d.graph.limits.timeout_ms (around.elapsed_ms s.calls))) [
            | inl late ↦ rw late (stops _ _ (λ own. own))
            | inr c ↦ rw c (enters (ground arith))
          ])
    ])
  ]

module _ {d : CompiledAgentDefinition} {around : Surroundings} {P : Loop → Type 0}
    (k : IsQuiet d around P) where
  pub apply_patch-kept :
      (patch : Option StateUpdate) (s : Loop) {s' : Loop}
      → apply_patch d around patch s ≡ ok s'
      → P s
      → P s'
  unfolding apply_patch patched
  apply_patch-kept none s e h = let same : s ≡ _ = cc in subst P same h
  apply_patch-kept (some patch) s e h =
      let (update, updated, written, checked, same) = apply_patch-eq-ok d around patch s e in
      subst P same (k.by_emit _ _ _ (k.by_commit update s written checked h))

  announce-kept :
      (explicit : Bool) (taken : String) (t : TransitionDefinition) (s : Loop)
      → P s
      → P (announce d around explicit taken t s)
  unfolding announce
  announce-kept true taken t s h = k.by_emit _ _ _ h
  announce-kept false taken t s h = h

  leave-kept :
      (explicit : Bool) (taken : String) (o : Option TransitionDefinition) (s : Loop)
      → edge_from d around s.current taken ≡ o
      → P s
      → After P (leave d around explicit taken o s)
  unfolding leave
  leave-kept explicit taken none s e h = h
  leave-kept explicit taken (some t) s e h =
      k.by_move t _ (edge_from-Memᴰ d around s.current taken e)
        (k.by_emit _ _ _ (announce-kept explicit taken t s h))

  follow-kept :
      (explicit : Bool) (taken : String) (s : Loop)
      → P s
      → After P (follow d around explicit taken s)
  unfolding follow
  follow-kept explicit taken s h =
      leave-kept explicit taken (edge_from d around s.current taken) s refl h

  pub settle-kept : (o : NodeOutcome) (s : Loop) → P s → After P (settle d around o s)
  unfolding settle
  settle-kept (terminate result patch) s h = k.by_emit _ _ _ h
  settle-kept (suspend reason patch) s h = k.by_emit _ _ _ h
  settle-kept (fail error retryable) s h = k.by_emit _ _ _ h
  settle-kept (route taken patch) s h = follow-kept true taken s h
  settle-kept (continue patch) s h = follow-kept false "continue" s h

  pub finish-kept :
      (execution : NodeExecution) (s : Loop) → P s → After P (finish d around execution s)
  finish-kept execution s h =
      finish_by d around (After P) execution s
        (λ kind status n. k.by_emit kind (some s.current) s h) (λ e x. h)
        (λ s' t c e.
          settle-kept execution.outcome s'
            (apply_patch-kept (patch_of d around execution.outcome) s e h))

module _ {d : CompiledAgentDefinition} {around : Surroundings} {P : Loop → Type 0}
    (k : IsKept d around P) where
  settled-kept : (r : Result String NodeExecution) (s : Loop) → P s → After P (settled d around r s)
  unfolding settled
  settled-kept (err message) s h = k.by_emit _ _ _ h
  settled-kept (ok execution) s h = finish-kept k.quiet execution _ (k.by_charge execution _ h)

  call-kept : (handler : NodeHandler) (s : Loop) → P s → After P (call d around handler s)
  unfolding call
  call-kept handler s h =
      settled-kept (handler (context d around s)) _
        (k.by_emit (EventKind.node_started 1) (some s.current) s h)

  enter-kept : (s : Loop) → P s → After P (enter d around s)
  enter-kept s h =
      enter_by d around (After P) s (λ kind status n. k.by_emit kind (some s.current) s h) (λ e. h)
        (λ handler e. call-kept handler s h)

  -- An invariant that the operations keep is kept by a turn, however it ends.
  pub turn-kept : (s : Loop) → P s → After P (turn d around s)
  turn-kept s h =
      turn_by d around (After P) s (λ kind status n. k.by_emit kind (some s.current) s h)
        (λ below. enter-kept (visit d around s) (k.by_visit s h))
