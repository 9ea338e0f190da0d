-- ===== src/Engine/Throws.antt =====
-- What the engine can throw while it runs an agent that `defineAgent` accepted.
use mathlib.Core.Path.{subst}
use knolo_agents.Base.{
  ℕ, zero, suc, String, ◌≡◌, ◌≢◌, Bool, true, false, Option, none, some, List, [], ◌∷◌, inl, inr,
  Result, ok, err, ◌>>=◌, ◌>>◌, Result-cases, find, includes, In, arith, All, All-Memᴰ, map, ◌==◌,
  Bool-cases,
}
use knolo_agents.Contracts.{
  ExecutionEvent, NodeDefinition, TransitionDefinition, StateUpdate, fields, computed,
  NodeExecution, NodeOutcome, continue, route, suspend, terminate, fail,
}
use knolo_agents.Contracts.Values.{Fields, keys, assign}
use knolo_agents.Builder.Errors.{
  DefinitionError, missing_state_path, wrong_state_type, not_a_json_value, undeclared_write,
  undeclared_route,
}
use knolo_agents.Builder.{CompiledAgentDefinition, pointer, AgentConfig, NodeSpec, define_agent}
use knolo_agents.Builder.Validate.{node_ids}
use knolo_agents.Builder.Validate.Sound.{HasEnds}
use knolo_agents.Builder.State.Conforms.{IsStateFault, StateFaults, validate_state-StateFaults}
use knolo_agents.Builder.Agents.{define_agent-IsSoundAgent, define_agent-handlers}
use knolo_agents.Engine.Steps.{
  EngineError, rethrow, definition, patch_threw, node_undefined, Surroundings, Loop, Turn, next,
  done, thrown, emit, visit, charge, commit, move, update_of, check_writes, check_state, node_of,
  patch_of, apply_patch, edge_from, leave, follow, settle, settled, context, call, turn,
}
use knolo_agents.Engine.Induction.{IsKept, After, turn-kept, finish_by, enter_by, turn_by}
use knolo_agents.Engine.Endings.{execute-eq-ok}
use knolo_agents.Engine.{
  Ending, reported, threw, unfinished, proceed, drive, run_from, initial_loop, execute,
}

-- Errors that the handlers' own answers cause: a patch function that throws, a write or a route that
-- is not declared, a patch that breaks the schema.
abbrev pub IsHandlerFault : EngineError → Type 0
IsHandlerFault (patch_threw message) = Unit
IsHandlerFault (definition (undeclared_write node key)) = Unit
IsHandlerFault (definition (undeclared_route taken node)) = Unit
IsHandlerFault (definition e) = IsStateFault e
IsHandlerFault node_undefined = ⊥

-- What fails, fails with such an error.
abbrev FaultsOf {ℓ} : {A : Type ℓ} → Result EngineError A → Type 0
FaultsOf (ok a) = Unit
FaultsOf (err e) = IsHandlerFault e

-- Where the turn throws, the handlers are at fault.
abbrev Faults : Turn → Type 0
Faults (next s) = Unit
Faults (done status s) = Unit
Faults (thrown e s) = IsHandlerFault e

-- The parts of the definition that the loop reads without a check of its own.
pub record IsComplete (d : CompiledAgentDefinition) : Type 0 where
  pub has_ends : All (HasEnds (node_ids d.graph)) d.graph.transitions
  pub has_handlers : (id : String) → In id (node_ids d.graph) → d.handlers id ≢ none

IsStateFault-IsHandlerFault : (e : DefinitionError) → IsStateFault e → IsHandlerFault (definition e)
IsStateFault-IsHandlerFault (missing_state_path path) h = tt
IsStateFault-IsHandlerFault (wrong_state_type path) h = tt
IsStateFault-IsHandlerFault not_a_json_value h = tt
IsStateFault-IsHandlerFault (undeclared_write node key) h = tt
IsStateFault-IsHandlerFault (undeclared_route node key) h = tt
IsStateFault-IsHandlerFault _ h = h

FaultsOf->>= {ℓ κ} :
    {A : Type ℓ} {B : Type κ} (m : Result EngineError A) (f : A → Result EngineError B)
    → FaultsOf m
    → ((a : A) → FaultsOf (f a))
    → FaultsOf (m >>= f)
FaultsOf->>= (ok a) f h g = g a
FaultsOf->>= (err e) f h g = h

FaultsOf->> {ℓ} :
    {B : Type ℓ} (m : Result EngineError (Unit {0})) (k : Result EngineError B)
    → FaultsOf m
    → FaultsOf k
    → FaultsOf (m >> k)
FaultsOf->> (ok tt) k h g = g
FaultsOf->> (err e) k h g = h

FaultsOf-err {ℓ} :
    {A : Type ℓ} (r : Result EngineError A) {e : EngineError}
    → r ≡ err e
    → FaultsOf r
    → IsHandlerFault e
FaultsOf-err r h f = subst (λ x. FaultsOf x) h f

rethrow-FaultsOf : (r : Result DefinitionError (Unit {0})) → StateFaults r → FaultsOf (rethrow r)
unfolding rethrow
rethrow-FaultsOf (ok u) h = tt
rethrow-FaultsOf (err e) h = IsStateFault-IsHandlerFault e h

find_declared :
    (ns : List NodeDefinition) (id : String)
    → In id (map (λ (n : NodeDefinition). n.id) ns)
    → (m : NodeDefinition) × (find (λ (n : NodeDefinition). n.id == id) ns ≡ some m)
find_declared [] id m = cc
find_declared (n ∷ ns) id m = elim (Bool-cases (n.id == id)) [
  | inl e ↦ (n, rw e)
  | inr e ↦ let (found, h) = find_declared ns id (ground arith) in (found, rw e h)
]

module _ (d : CompiledAgentDefinition) (around : Surroundings) (c : IsComplete d) where
  abbrev IsAtNode : Loop → Type 0
  IsAtNode s = In s.current (node_ids d.graph)

  IsAtNode-kept : IsKept d around IsAtNode
  unfolding emit visit charge move commit
  IsAtNode-kept = record {
    quiet = record {
      by_emit = λ kind node s h. h;
      by_visit = λ s h. h;
      by_move =
          λ t s m h. (All-Memᴰ (HasEnds (node_ids d.graph)) d.graph.transitions c.has_ends m).1;
      by_commit = λ update s w k h. h;
    };
    by_charge = λ execution s h. h;
  }

  update_of-FaultsOf :
      (patch : StateUpdate) (value : Fields) → FaultsOf (update_of d around patch value)
  unfolding update_of
  update_of-FaultsOf (fields update) value = tt
  update_of-FaultsOf (computed f) value = elim (Result-cases (f value)) [
    | inl (u, e) ↦ rw e tt
    | inr (x, e) ↦ rw e tt
  ]

  check_writes-FaultsOf :
      (n : NodeDefinition) (current : String) (ks : List String)
      → FaultsOf (check_writes d around (some n) current ks)
  unfolding check_writes
  check_writes-FaultsOf n current [] = tt
  check_writes-FaultsOf n current (k ∷ ks) = elim (Bool-cases (includes n.writes (pointer k))) [
    | inl e ↦ rw e (check_writes-FaultsOf n current ks)
    | inr e ↦ rw e tt
  ]

  check_state-FaultsOf : (value : Fields) → FaultsOf (check_state d around value)
  unfolding check_state
  check_state-FaultsOf value =
      rethrow-FaultsOf _ (validate_state-StateFaults around.language d.schema value)

  apply_patch-FaultsOf :
      (patch : Option StateUpdate) (s : Loop) → IsAtNode s → FaultsOf (apply_patch d around patch s)
  unfolding apply_patch node_of
  apply_patch-FaultsOf none s h = tt
  apply_patch-FaultsOf (some patch) s h =
      let (n, found) = find_declared d.graph.nodes s.current h in
      FaultsOf->>= (update_of d around patch s.state.value) _
        (update_of-FaultsOf patch s.state.value)
        (λ update. rw found (
          FaultsOf->> (check_writes d around (some n) s.current (keys update)) _
            (check_writes-FaultsOf n s.current (keys update))
            (FaultsOf->> (check_state d around (assign s.state.value update)) _
              (check_state-FaultsOf (assign s.state.value update)) tt)))

  leave-Faults :
      (explicit : Bool) (taken : String) (o : Option TransitionDefinition) (s : Loop)
      → Faults (leave d around explicit taken o s)
  unfolding leave
  leave-Faults explicit taken none s = tt
  leave-Faults explicit taken (some t) s = tt

  settle-Faults : (o : NodeOutcome) (s : Loop) → Faults (settle d around o s)
  unfolding settle follow
  settle-Faults (terminate result patch) s = tt
  settle-Faults (suspend reason patch) s = tt
  settle-Faults (fail error retryable) s = tt
  settle-Faults (route taken patch) s =
      leave-Faults true taken (edge_from d around s.current taken) s
  settle-Faults (continue patch) s =
      leave-Faults false "continue" (edge_from d around s.current "continue") s

  settled-Faults :
      (r : Result String NodeExecution) (s : Loop) → IsAtNode s → Faults (settled d around r s)
  unfolding settled
  settled-Faults (err message) s h = tt
  settled-Faults (ok execution) s h =
      finish_by d around Faults execution (charge d around execution s) (λ kind status n. tt)
        (λ e x. FaultsOf-err _ x (
          apply_patch-FaultsOf (patch_of d around execution.outcome) (charge d around execution s)
            (IsAtNode-kept.by_charge execution s h)))
        (λ s' within affordable e. settle-Faults execution.outcome s')

  turn-Faults : (s : Loop) → IsAtNode s → Faults (turn d around s)
  unfolding call
  turn-Faults s h =
      turn_by d around Faults s (λ kind status n. tt)
        (λ below.
          enter_by d around Faults (visit d around s) (λ kind status n. tt)
            (λ e. absurd (c.has_handlers s.current h (unfold visit in e)))
            (λ handler e.
              settled-Faults (handler (context d around (visit d around s))) _
                (IsAtNode-kept.by_emit _ _ _ (IsAtNode-kept.by_visit s h))))

  abbrev ThrowsFaults : Ending → Type 0
  ThrowsFaults (reported r) = Unit
  ThrowsFaults (threw e yielded) = IsHandlerFault e
  ThrowsFaults unfinished = Unit

  proceed-ThrowsFaults :
      (rest : Loop → Ending) (t : Turn)
      → Faults t
      → After IsAtNode t
      → ((s : Loop) → IsAtNode s → ThrowsFaults (rest s))
      → ThrowsFaults (proceed rest t)
  unfolding proceed
  proceed-ThrowsFaults rest (next s) h a f = f s a
  proceed-ThrowsFaults rest (done status s) h a f = tt
  proceed-ThrowsFaults rest (thrown e s) h a f = h

  drive-ThrowsFaults : (fuel : ℕ) (s : Loop) → IsAtNode s → ThrowsFaults (drive d around fuel s)
  unfolding drive
  drive-ThrowsFaults zero s h = tt
  drive-ThrowsFaults (suc fuel) s h =
      proceed-ThrowsFaults (drive d around fuel) (turn d around s) (turn-Faults s h)
        (turn-kept IsAtNode-kept s h) (drive-ThrowsFaults fuel)

-- An agent that `defineAgent` accepted, with a handler for every node, throws while it executes only
-- for an answer of a handler: never for a node, a handler or an end of a transition that is missing.
pub execute-throws :
    (config : AgentConfig) (d : CompiledAgentDefinition) (around : Surroundings) (initial : Fields)
    {e : EngineError} {yielded : List ExecutionEvent}
    → define_agent config ≡ ok d.definition
    → All (λ (n : NodeSpec). n.handler ≢ none) config.nodes
    → execute d around initial ≡ ok (threw e yielded)
    → IsHandlerFault e
unfolding run_from initial_loop emit
execute-throws config d around initial defined handled e =
    let sound = define_agent-IsSoundAgent config d.definition defined in
    let complete : IsComplete d = record {
      has_ends = sound.valid.ends_declared;
      has_handlers = λ id m. define_agent-handlers config d.definition id defined handled m;
    } in
    let (valid, same) = execute-eq-ok d around initial e in
    subst (ThrowsFaults d around complete) same
      (drive-ThrowsFaults d around complete _ _ sound.valid.entry_declared)
