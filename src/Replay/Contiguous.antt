-- ===== src/Replay/Contiguous.antt =====
-- `validateReplayEvents` accepts exactly the numbered events of one execution.
use mathlib.Core.Path.{subst}
use knolo_agents.Base.{
  ℕ, ◌+◌, String, ◌≡◌, ◌≢◌, refl, ◌↔◌, some, List, [], ◌∷◌, ◌++◌, eq_iff, str_eq_refl, ok, arith,
  length,
}
use knolo_agents.Contracts.{ExecutionEvent}
use knolo_agents.Replay.{check_events, validate_replay_events}

-- Events of version 1 and of one execution, numbered from `n + 1` to `m`.
abbrev pub Trail : String → ℕ → List ExecutionEvent → ℕ → Type 0
Trail id n [] m = n ≡ m
Trail id n (e ∷ es) m =
    (e.version ≡ 1) × (e.sequence ≡ n + 1) × (e.execution_id ≡ id) × Trail id (n + 1) es m

pub Trail-append :
    (id : String) (n m k : ℕ) (es fs : List ExecutionEvent)
    → Trail id n es m
    → Trail id m fs k
    → Trail id n (es ++ fs) k
Trail-append id n m k [] fs h g = rw h g
Trail-append id n m k (e ∷ es) fs (v, s, i, h) g = (v, s, i, Trail-append id (n + 1) m k es fs h g)

Trail-check_events :
    (id : String) (n m : ℕ) (es : List ExecutionEvent)
    → Trail id n es m
    → check_events n (some id) es ≡ ok tt
unfolding check_events
Trail-check_events id n m [] h = refl
Trail-check_events id n m (e ∷ es) (v, s, i, h) =
    rw (v, s, i) (ground (arith, Trail-check_events id (n + 1) m es h, str_eq_refl id))

-- The numbered events of one execution pass.
pub Trail-validate_replay_events :
    (id : String) (m : ℕ) (es : List ExecutionEvent)
    → Trail id 0 es m
    → validate_replay_events es ≡ ok tt
unfolding validate_replay_events
Trail-validate_replay_events id m [] h = refl
Trail-validate_replay_events id m (e ∷ es) (v, s, i, h) =
    rw (v, s, i) (Trail-check_events id (0 + 1) m es h)

check_events-Trail :
    (id : String) (n : ℕ) (es : List ExecutionEvent)
    → id ≢ ""
    → check_events n (some id) es ≡ ok tt
    → Trail id n es (n + length es)
unfolding check_events
check_events-Trail id n [] nonempty h = omega arith
check_events-Trail id n (e ∷ es) nonempty h = (
  version,
  sequence,
  same,
  let counted : n + 1 + length es ≡ n + length (e ∷ es) = omega arith in
      subst (λ m. Trail id (n + 1) es m) counted
        (check_events-Trail id (n + 1) es nonempty (
          subst (λ i. check_events (n + 1) (some i) es ≡ ok tt) same
            (subst (λ k. check_events k (some e.execution_id) es ≡ ok tt) sequence rest))),
)
  where
    version : e.version ≡ 1
    version = ground arith

    sequence : e.sequence ≡ n + 1
    sequence = ground arith

    same : e.execution_id ≡ id
    same = ground (arith, eq_iff id "", eq_iff e.execution_id id)

    rest : check_events e.sequence (some e.execution_id) es ≡ ok tt
    rest = ground arith

-- `validateReplayEvents` accepts a list of events whose first carries an execution id exactly when
-- all are of version 1, carry that id, and are numbered 1, 2, 3 and so on.
pub validate_replay_events_iff :
    (e : ExecutionEvent) (es : List ExecutionEvent)
    → e.execution_id ≢ ""
    → (validate_replay_events (e ∷ es) ≡ ok tt) ↔ Trail e.execution_id 0 (e ∷ es) (length (e ∷ es))
unfolding validate_replay_events check_events
validate_replay_events_iff e es nonempty = (
  λ h.
      let sequence : e.sequence ≡ 0 + 1 = ground arith in
      let rest : check_events e.sequence (some e.execution_id) es ≡ ok tt = ground arith in
      let counted : 0 + 1 + length es ≡ length (e ∷ es) = omega arith in
      (
        ground arith,
        sequence,
        refl,
        subst (λ m. Trail e.execution_id (0 + 1) es m) counted
            (check_events-Trail e.execution_id (0 + 1) es nonempty
              (subst (λ k. check_events k (some e.execution_id) es ≡ ok tt) sequence rest)),
      ),
  λ h. Trail-validate_replay_events e.execution_id (length (e ∷ es)) (e ∷ es) h,
)
