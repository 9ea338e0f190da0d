-- ===== src/Evaluation/Suite/Limits.antt =====
-- The limit of the tokens of an evaluation, and where its required evidence stands.
use mathlib.Core.Path.{subst}
use knolo_agents.Base.{
  ℕ, ◌≤◌, String, Bool, true, false, Option, none, some, List, [], ◌∷◌, every, ◌==◌, ◌≡◌, ◌↔◌, refl,
  sym, ap, ◌∙◌, arith, str_eq→eq, str_eq_refl, Bool-cases, Option-cases, inl, inr, In, ◌⊎◌, ◌||◌,
}
use knolo_agents.Harness.Types.{HarnessBudget, Task}
use knolo_agents.Evaluation.Types.{AcsTask, Suite}
use knolo_agents.Evaluation.Suite.{
  suite_task, max_tokens_of, budget_tokens, target_tokens, first_given, within_budget,
}
use knolo_agents.Evaluation.Suite.Declared.{within_budget_iff}

-- The limit of the task's budget or, where it has none, the target of the suite's task.
abbrev pub IsLimit : Option HarnessBudget → Option AcsTask → ℕ → Type 0
IsLimit budget target m =
    ((b : HarnessBudget) × (budget ≡ some b) × (b.max_tokens ≡ some m))
    ⊎ (((b : HarnessBudget) → budget ≡ some b → b.max_tokens ≡ none)
        × (t : AcsTask) × (target ≡ some t)
        × (t.target_tokens ≡ some m))

some-injective {ℓ} : {A : Type ℓ} {a b : A} → ◌≡◌ {A = Option A} (some a) (some b) → a ≡ b
some-injective h = cc h

target_tokens-some :
    (target : Option AcsTask) (m : ℕ)
    → target_tokens target ≡ some m
    → (t : AcsTask) × (target ≡ some t) × (t.target_tokens ≡ some m)
unfolding target_tokens
target_tokens-some none m h = cc h
target_tokens-some (some t) m h = (t, refl, h)

some-target_tokens :
    (target : Option AcsTask) (t : AcsTask) (m : ℕ)
    → target ≡ some t
    → t.target_tokens ≡ some m
    → target_tokens target ≡ some m
unfolding target_tokens
some-target_tokens target t m p q = rw p q

IsLimit-iff :
    (budget : Option HarnessBudget) (target : Option AcsTask) (m : ℕ)
    → (first_given (budget_tokens budget) (target_tokens target) ≡ some m) ↔ IsLimit budget target m
unfolding budget_tokens
IsLimit-iff none target m = (
  λ h. let (t, p, q) = target_tokens-some target m h in inr (λ b e. cc e, t, p, q),
  λ h. elim h [ inl (b, p, q) ↦ cc p | inr (free, t, p, q) ↦ some-target_tokens target t m p q ],
)
IsLimit-iff (some b) target m = elim (Option-cases b.max_tokens) [
  | inl free ↦ (
    λ h.
        let (t, p, q) = target_tokens-some target m (rw free at h) in
        inr (
          λ c e. ap (λ (x : HarnessBudget). x.max_tokens) (some-injective (sym e)) ∙ free,
          t,
          p,
          q,
        ),
    λ h. elim h [
      | inl (c, p, q) ↦
          let same : b.max_tokens ≡ c.max_tokens =
            ap (λ (x : HarnessBudget). x.max_tokens) (some-injective p) in
          cc (free, same, q)
      | inr (others, t, p, q) ↦ rw free (some-target_tokens target t m p q)
    ],
  )
  | inr (n, given) ↦ (
    λ h. inl (b, refl, given ∙ (rw given at h)),
    λ h. elim h [
      | inl (c, p, q) ↦
          let same : b.max_tokens ≡ c.max_tokens =
            ap (λ (x : HarnessBudget). x.max_tokens) (some-injective p) in
          rw given (sym given ∙ (same ∙ q))
      | inr (others, t, p, q) ↦ cc (given, others b refl)
    ],
  )
]

-- The tokens that are given are at most the limit, where there is one.
abbrev pub KeepsLimit : Option ℕ → Task → Option Suite → Type 0
KeepsLimit used task suite =
    (tokens m : ℕ) → used ≡ some tokens → IsLimit task.budget (suite_task suite) m → tokens ≤ m

pub within_limit_iff :
    (used : Option ℕ) (task : Task) (suite : Option Suite)
    → (within_budget used (max_tokens_of task suite) ≡ true) ↔ KeepsLimit used task suite
unfolding max_tokens_of
within_limit_iff used task suite =
    let (there, back) = within_budget_iff used (max_tokens_of task suite) in
    (
      λ h t m p l. there h t m p ((IsLimit-iff task.budget (suite_task suite) m).1 l),
      λ k. back (λ t m p q. k t m p ((IsLimit-iff task.budget (suite_task suite) m).0 q)),
    )

-- What is required stands in one of two texts.
abbrev pub StandsIn :
    (stands : String → String → Bool) (first second : String) → List String → Type 0
StandsIn stands first second required =
    (item : String) → In item required → (stands first item ≡ true) ⊎ (stands second item ≡ true)

pub StandsIn-iff :
    (stands : String → String → Bool) (first second : String) (required : List String)
    → (every (λ item. stands first item || stands second item) required ≡ true)
      ↔ StandsIn stands first second required
StandsIn-iff stands first second [] = (λ h item m. cc m, λ k. refl)
StandsIn-iff stands first second (x ∷ required) =
    let (there, back) = StandsIn-iff stands first second required in
    (
      λ h item m. elim (Bool-cases (x == item)) [
        | inl e ↦
            subst (λ i. (stands first i ≡ true) ⊎ (stands second i ≡ true)) (str_eq→eq x item e)
              (either (stands first x) (stands second x) (ground arith))
        | inr n ↦ there (ground arith) item (ground arith)
      ],
      λ k.
          let rest = back (λ item m. k item (ground arith)) in
          elim (k x (rw (str_eq_refl x) refl)) [
            | inl y ↦ rw (y, rest) refl
            | inr y ↦ elim (Bool-cases (stands first x)) [
              | inl f ↦ rw (f, rest) refl
              | inr f ↦ rw (f, y, rest) refl
            ]
          ],
    )
  where
    either : (a b : Bool) → (a || b) ≡ true → (a ≡ true) ⊎ (b ≡ true)
    either true b h = inl refl
    either false b h = inr h
