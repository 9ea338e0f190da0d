-- ===== src/Recovery/Policy/Allowed.antt =====
-- What the choice of the next strategy keeps to.
use mathlib.Core.Path.{subst}
use knolo_agents.Base.{◌<◌, ◌≡◌, true, false, some, List, [], ◌∷◌, ◌≢◌, arith, Bool-cases, inl, inr}
use knolo_agents.Recovery.Types.{FailureClass, RecoveryStrategy, RecoveryPolicy, includes_strategy}
use knolo_agents.Recovery.Policy.{
  retries, retry_limit, usable, first_usable, policy_strategies, next_strategy, next_enabled, given,
  disabled,
}

-- What a strategy that may be applied needs.
abbrev pub Allowed : RecoveryPolicy → List RecoveryStrategy → RecoveryStrategy → Type 0
Allowed policy used RecoveryStrategy.retry = retries used < retry_limit policy
Allowed policy used RecoveryStrategy.fallback_skill =
    (includes_strategy used RecoveryStrategy.fallback_skill ≡ false)
    × (given policy.fallback_skill ≡ true)
Allowed policy used RecoveryStrategy.alternate_tool =
    (includes_strategy used RecoveryStrategy.alternate_tool ≡ false)
    × (given policy.alternate_tool ≡ true)
Allowed policy used RecoveryStrategy.hitl = ⊥
Allowed policy used RecoveryStrategy.narrowed_child = ⊥
Allowed policy used s = includes_strategy used s ≡ false

usable-Allowed :
    (policy : RecoveryPolicy) (used : List RecoveryStrategy) (s : RecoveryStrategy)
    → usable policy used s ≡ true
    → Allowed policy used s
unfolding usable
usable-Allowed policy used RecoveryStrategy.retry h = ground arith
usable-Allowed policy used RecoveryStrategy.alternate_plan h = ground arith
usable-Allowed policy used RecoveryStrategy.fallback_skill h = (ground arith, ground arith)
usable-Allowed policy used RecoveryStrategy.alternate_tool h = (ground arith, ground arith)
usable-Allowed policy used RecoveryStrategy.narrowed_child h = cc
usable-Allowed policy used RecoveryStrategy.hitl h = cc
usable-Allowed policy used RecoveryStrategy.graceful_partial h = ground arith

first_usable-Allowed :
    (policy : RecoveryPolicy) (used ss : List RecoveryStrategy) (s : RecoveryStrategy)
    → first_usable policy used ss ≡ some s
    → Allowed policy used s × (includes_strategy ss s ≡ true)
unfolding first_usable
first_usable-Allowed policy used [] s h = cc
first_usable-Allowed policy used (t ∷ ss) s h = elim (Bool-cases (usable policy used t)) [
  | inl e ↦
      let same : t ≡ s = cc (rw (e, first_usable) at h) in
      (
        subst (λ u. Allowed policy used u) same (usable-Allowed policy used t e),
        rw same (ground arith),
      )
  | inr e ↦
      let (a, m) = first_usable-Allowed policy used ss s (rw (e, first_usable) at h) in
      (a, ground arith)
]

-- What is known of a strategy that is chosen: recovery is enabled, the failure is not one of policy,
-- and the strategy is one of the policy's.
pub record Chosen (policy : RecoveryPolicy) (c : FailureClass) (used : List RecoveryStrategy)
    (s : RecoveryStrategy) : Type 0 where
  pub enabled : disabled policy ≡ false
  pub not_policy : c ≢ FailureClass.policy
  pub allowed : Allowed policy used s
  pub listed : includes_strategy (policy_strategies policy) s ≡ true

chosen :
    {policy : RecoveryPolicy} {c : FailureClass} {used : List RecoveryStrategy}
    {s : RecoveryStrategy}
    → disabled policy ≡ false
    → (c ≢ FailureClass.policy)
    → Allowed policy used s × (includes_strategy (policy_strategies policy) s ≡ true)
    → Chosen policy c used s
chosen d n (a, m) = record { enabled = d; not_policy = n; allowed = a; listed = m }

next_enabled-Chosen :
    (policy : RecoveryPolicy) (c : FailureClass) (used : List RecoveryStrategy)
    (s : RecoveryStrategy)
    → disabled policy ≡ false
    → next_enabled policy c used ≡ some s
    → Chosen policy c used s
unfolding next_enabled
next_enabled-Chosen policy FailureClass.policy used s d h = cc
next_enabled-Chosen policy FailureClass.tool used s d h =
    chosen d (λ e. cc) (first_usable-Allowed policy used _ s h)
next_enabled-Chosen policy FailureClass.retrieval used s d h =
    chosen d (λ e. cc) (first_usable-Allowed policy used _ s h)
next_enabled-Chosen policy FailureClass.schema used s d h =
    chosen d (λ e. cc) (first_usable-Allowed policy used _ s h)
next_enabled-Chosen policy FailureClass.timeout used s d h =
    chosen d (λ e. cc) (first_usable-Allowed policy used _ s h)
next_enabled-Chosen policy FailureClass.model used s d h =
    chosen d (λ e. cc) (first_usable-Allowed policy used _ s h)
next_enabled-Chosen policy FailureClass.unknown used s d h =
    chosen d (λ e. cc) (first_usable-Allowed policy used _ s h)

-- A strategy is only chosen where recovery is enabled and the failure is not one of policy. It is one of
-- the strategies of the policy. It is not `hitl` or `narrowed-child`; a retry is chosen while there are
-- fewer than the policy's limit, any other strategy at most once, and a fallback skill or an
-- alternate tool only where the policy names one.
pub next_strategy-Chosen :
    (policy : RecoveryPolicy) (c : FailureClass) (used : List RecoveryStrategy)
    (s : RecoveryStrategy)
    → next_strategy policy c used ≡ some s
    → Chosen policy c used s
unfolding next_strategy
next_strategy-Chosen policy c used s h = elim (Bool-cases (disabled policy)) [
  | inl e ↦ cc (rw (e, next_strategy) at h)
  | inr e ↦ next_enabled-Chosen policy c used s e (rw (e, next_strategy) at h)
]
