-- ===== src/Engine/State.antt =====
-- The state that an execution reports: it fits the schema, and its history is complete.
use mathlib.Core.Path.{subst}
use knolo_agents.Base.{
  ℕ, ◌+◌, String, ◌≡◌, refl, some, List, [], ◌∷◌, ◌++◌, Result, ok, err, arith, length, eqb,
  Bool-cases, inl, inr,
}
use knolo_agents.Contracts.{StateSnapshot, ExecutionReport}
use knolo_agents.Contracts.Values.{Fields}
use knolo_agents.Builder.{CompiledAgentDefinition}
use knolo_agents.Builder.State.{validate_state}
use knolo_agents.Builder.State.Conforms.{Conforms, validate_state-Conforms_iff}
use knolo_agents.Builder.Errors.{DefinitionError}
use knolo_agents.Engine.Steps.{
  rethrow, Surroundings, Loop, emit, visit, charge, commit, move, check_state,
}
use knolo_agents.Engine.Induction.{IsKept}
use knolo_agents.Engine.Endings.{EndsIn, kept-EndsIn, execute-eq-ok}
use knolo_agents.Engine.{reported, initial_loop, initial_snapshot, run_from, execute, report}

-- A list of snapshots of revisions `n`, `n + 1`, … that ends with `last`.
abbrev pub History : ℕ → List StateSnapshot → StateSnapshot → Type 0
History n [] last = ⊥
History n (x ∷ []) last = (x.revision ≡ n) × (x ≡ last)
History n (x ∷ y ∷ ys) last = (x.revision ≡ n) × History (n + 1) (y ∷ ys) last

History-snoc :
    (n : ℕ) (xs : List StateSnapshot) (last new : StateSnapshot)
    → History n xs last
    → new.revision ≡ last.revision + 1
    → History n (xs ++ new ∷ []) new
History-snoc n [] last new h e = absurd h
History-snoc n (x ∷ []) last new (r, same) e =
    let e' : new.revision ≡ x.revision + 1 = rw same e in (r, (omega arith, refl))
History-snoc n (x ∷ y ∷ ys) last new (r, h) e = (r, History-snoc (n + 1) (y ∷ ys) last new h e)

rethrow-eq-ok : (r : Result DefinitionError (Unit {0})) → rethrow r ≡ ok tt → r ≡ ok tt
unfolding rethrow
rethrow-eq-ok (ok tt) h = refl
rethrow-eq-ok (err e) h = cc

abbrev IsHistory : ℕ → Loop → Type 0
IsHistory n s = History n s.snapshots s.state

module _ (d : CompiledAgentDefinition) (around : Surroundings) where
  IsHistory-kept : (n : ℕ) → IsKept d around (IsHistory n)
  unfolding emit visit charge move commit
  IsHistory-kept n = record {
    quiet = record {
      by_emit = λ kind node s h. h;
      by_visit = λ s h. h;
      by_move = λ t s m h. h;
      by_commit = λ update s w c h. History-snoc n s.snapshots s.state _ h refl;
    };
    by_charge = λ execution s h. h;
  }

  abbrev HasConforming : Loop → Type 0
  HasConforming s = Conforms around.language d.schema s.state.value

  check_state-Conforms :
      (value : Fields)
      → check_state d around value ≡ ok tt
      → Conforms around.language d.schema value
  unfolding check_state
  check_state-Conforms value h =
      (validate_state-Conforms_iff around.language d.schema value).0
        (rethrow-eq-ok (validate_state around.language d.schema value) h)

  HasConforming-kept : IsKept d around HasConforming
  unfolding emit visit charge move commit
  HasConforming-kept = record {
    quiet = record {
      by_emit = λ kind node s h. h;
      by_visit = λ s h. h;
      by_move = λ t s m h. h;
      by_commit = λ update s w c h. check_state-Conforms _ c;
    };
    by_charge = λ execution s h. h;
  }

  -- The operations of `initial_loop` change nothing but the events.
  pub initial_loop-state :
      (state : StateSnapshot) (start : String) (cursor steps tokens : ℕ)
      → ((initial_loop d around state start cursor steps tokens).state ≡ state)
        × ((initial_loop d around state start cursor steps tokens).snapshots ≡ state ∷ [])
  unfolding initial_loop emit
  initial_loop-state state start cursor steps tokens = elim (Bool-cases (eqb cursor 0)) [
    | inl e ↦ rw e (refl, refl)
    | inr e ↦ rw e (refl, refl)
  ]

  run_from-IsHistory :
      (state : StateSnapshot) (start : String) (cursor steps tokens : ℕ)
      → EndsIn (IsHistory state.revision) (run_from d around state start cursor steps tokens)
  unfolding run_from
  run_from-IsHistory state start cursor steps tokens =
      let (same, only) = initial_loop-state state start cursor steps tokens in
      kept-EndsIn d around (IsHistory state.revision) (IsHistory-kept state.revision) _ _
        (rw (same, only) (refl, refl))

  run_from-Conforms :
      (state : StateSnapshot) (start : String) (cursor steps tokens : ℕ)
      → Conforms around.language d.schema state.value
      → EndsIn HasConforming (run_from d around state start cursor steps tokens)
  unfolding run_from
  run_from-Conforms state start cursor steps tokens h =
      let (same, only) = initial_loop-state state start cursor steps tokens in
      kept-EndsIn d around HasConforming HasConforming-kept _ _ (rw same h)

History-revision :
    (n : ℕ) (xs : List StateSnapshot) (last : StateSnapshot)
    → History n xs last
    → length xs + n ≡ last.revision + 1
History-revision n [] last h = absurd h
History-revision n (x ∷ []) last (r, same) = let e : last.revision ≡ n = rw same at r in omega arith
History-revision n (x ∷ y ∷ ys) last (r, h) =
    omega (arith, History-revision (n + 1) (y ∷ ys) last h)

reported-IsHistory :
    (n : ℕ) (r : ExecutionReport)
    → EndsIn (IsHistory n) (reported r)
    → (xs : List StateSnapshot) × (r.snapshots ≡ some xs) × History n xs r.state
unfolding report
reported-IsHistory n r (status, s, e, h) = (s.snapshots, rw e, rw e h)

-- The report of an execution holds a snapshot for every revision of the state, from 0 to the last,
-- in order, and the last one is the state that it reports.
pub execute-snapshots :
    (d : CompiledAgentDefinition) (around : Surroundings) (initial : Fields) {r : ExecutionReport}
    → execute d around initial ≡ ok (reported r)
    → (xs : List StateSnapshot) × (r.snapshots ≡ some xs)
      × History 0 xs r.state
      × (length xs ≡ r.state.revision + 1)
unfolding initial_snapshot
execute-snapshots d around initial {r} e =
    let (valid, same) = execute-eq-ok d around initial e in
    let (xs, held, history) = reported-IsHistory 0 r (
      subst (EndsIn (IsHistory 0)) same
        (run_from-IsHistory d around (initial_snapshot d around initial) d.graph.entry 0 0 0)) in
    (xs, held, history, omega (arith, History-revision 0 xs r.state history))

-- The state that an execution reports fits the schema, whatever patches the handlers returned.
pub execute-Conforms :
    (d : CompiledAgentDefinition) (around : Surroundings) (initial : Fields) {r : ExecutionReport}
    → execute d around initial ≡ ok (reported r)
    → Conforms around.language d.schema r.state.value
unfolding initial_snapshot report
execute-Conforms d around initial {r} e =
    let (valid, same) = execute-eq-ok d around initial e in
    let (status, s, is_report, h) = subst (EndsIn (HasConforming d around)) same (
      run_from-Conforms d around (initial_snapshot d around initial) d.graph.entry 0 0 0
        ((validate_state-Conforms_iff around.language d.schema initial).0 valid)) in
    rw is_report h
