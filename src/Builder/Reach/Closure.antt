-- ===== src/Builder/Reach/Closure.antt =====
-- The loop finds exactly the reachable nodes, whatever the order of the transitions.
use mathlib.Core.List.Memᴰ
use mathlib.Core.List.{Memᴰ}
use knolo_agents.Base.{
  ℕ, zero, suc, ◌≤◌, ◌<◌, String, ◌≡◌, refl, ◌↔◌, ◌⊎◌, inl, inr, Bool, true, false, not, ◌&&◌, List,
  [], ◌∷◌, ◌++◌, arith, eq_iff, str_eq_refl, if◌then◌else◌, Bool-cases, length, includes, In,
  includes-append, In-head, Subset,
}
use knolo_agents.Base.Distinct.{Distinct, Distinct-snoc}
use knolo_agents.Contracts.{TransitionDefinition}
use knolo_agents.Builder.Reach.{sweep, rounds, reach, Reachable}

pub In-snoc : (xs : List String) (x y : String) → In y xs → In y (xs ++ x ∷ [])
In-snoc xs x y h = ground (arith, includes-append xs (x ∷ []) y)

pub In-snoc_last : (xs : List String) (x : String) → In x (xs ++ x ∷ [])
In-snoc_last xs x = ground (arith, includes-append xs (x ∷ []) x, str_eq_refl x)

pub In-snoc_cases : (xs : List String) (x y : String) → In y (xs ++ x ∷ []) → In y xs ⊎ (x ≡ y)
In-snoc_cases xs x y h = ground (arith, includes-append xs (x ∷ []) y, eq_iff x y)

sweep_mono :
    (ts : List TransitionDefinition) (reached : List String) (c : Bool)
    → Subset reached (sweep ts reached c).0
unfolding sweep
sweep_mono [] reached c x h = h
sweep_mono (t ∷ ts) reached c x h =
    elim (Bool-cases (includes reached t.from && not (includes reached t.to))) [
      | inl e ↦
          rw (e, sweep) (sweep_mono ts (reached ++ t.to ∷ []) true x (In-snoc reached t.to x h))
      | inr e ↦ rw (e, sweep) (sweep_mono ts reached c x h)
    ]

-- How many transitions end in a node that is not reached yet.
missing : List TransitionDefinition → List String → ℕ
missing [] reached = 0
missing (t ∷ ts) reached =
    let rest = missing ts reached in if includes reached t.to then rest else suc rest

missing_bound :
    (ts : List TransitionDefinition) (reached : List String) → missing ts reached ≤ length ts
unfolding missing
missing_bound [] reached = omega arith
missing_bound (t ∷ ts) reached = ground (arith, missing_bound ts reached)

missing_mono :
    (ts : List TransitionDefinition) (r s : List String) → Subset r s → missing ts s ≤ missing ts r
unfolding missing
missing_mono [] r s h = omega arith
missing_mono (t ∷ ts) r s h = ground (arith, missing_mono ts r s h, h t.to)

missing-lt :
    {t : TransitionDefinition} {ts : List TransitionDefinition} (r s : List String)
    → Memᴰ t ts
    → Subset r s
    → includes r t.to ≡ false
    → In t.to s
    → missing ts s < missing ts r
unfolding missing
missing-lt {t} r s (Memᴰ.head {x} {xs} e) h new found = ground (arith, missing_mono xs r s h, e)
missing-lt r s (Memᴰ.tail {x} {xs} m) h new found =
    ground (arith, missing-lt r s m h new found, h x.to)

module _ (every_ts : List TransitionDefinition) where
  -- The transitions of a round are those of the graph.
  abbrev Within : List TransitionDefinition → Type 0
  Within ts = (t : TransitionDefinition) → Memᴰ t ts → Memᴰ t every_ts

  sweep_lt :
      (ts : List TransitionDefinition) (reached : List String)
      → Within ts
      → (sweep ts reached false).1 ≡ true
      → missing every_ts (sweep ts reached false).0 < missing every_ts reached
  unfolding sweep
  sweep_lt [] reached w h = cc
  sweep_lt (t ∷ ts) reached w h =
      elim (Bool-cases (includes reached t.from && not (includes reached t.to))) [
        | inl e ↦
            rw (e, sweep)
              (omega (
                arith,
                missing_mono every_ts (reached ++ t.to ∷ [])
                    (sweep ts (reached ++ t.to ∷ []) true).0
                    (sweep_mono ts (reached ++ t.to ∷ []) true),
                missing-lt reached (reached ++ t.to ∷ []) (w t (Memᴰ.head refl))
                    (λ x. In-snoc reached t.to x) (ground arith) (In-snoc_last reached t.to),
              ))
        | inr e ↦
            rw (e, sweep) (sweep_lt ts reached (λ u m. w u (Memᴰ.tail m)) (rw (e, sweep) at h))
      ]

  sweep_sound :
      (entry : String) (ts : List TransitionDefinition) (reached : List String) (c : Bool)
      → Within ts
      → ((x : String) → In x reached → Reachable every_ts entry x)
      → (x : String) → In x (sweep ts reached c).0
      → Reachable every_ts entry x
  unfolding sweep
  sweep_sound entry [] reached c w h x m = h x m
  sweep_sound entry (t ∷ ts) reached c w h x m =
      elim (Bool-cases (includes reached t.from && not (includes reached t.to))) [
        | inl e ↦
            sweep_sound entry ts (reached ++ t.to ∷ []) true (λ u k. w u (Memᴰ.tail k))
              (λ y k. elim (In-snoc_cases reached t.to y k) [
                | inl old ↦ h y old
                | inr new ↦ Reachable.step t (w t (Memᴰ.head refl)) (h t.from (ground arith)) new
              ])
              x (rw (e, sweep) at m)
        | inr e ↦ sweep_sound entry ts reached c (λ u k. w u (Memᴰ.tail k)) h x (rw (e, sweep) at m)
      ]

  -- What no transition leaves.
  abbrev Closed : List TransitionDefinition → List String → Type 0
  Closed ts reached = (t : TransitionDefinition) → Memᴰ t ts → In t.from reached → In t.to reached

  sweep_changed :
      (ts : List TransitionDefinition) (reached : List String) → (sweep ts reached true).1 ≡ true
  unfolding sweep
  sweep_changed [] reached = refl
  sweep_changed (t ∷ ts) reached =
      ground (arith, sweep_changed ts (reached ++ t.to ∷ []), sweep_changed ts reached)

  -- A round that changes nothing has met no transition to follow.
  sweep_stable :
      (ts : List TransitionDefinition) (reached : List String)
      → (sweep ts reached false).1 ≡ false
      → ((sweep ts reached false).0 ≡ reached) × Closed ts reached
  unfolding sweep
  sweep_stable [] reached h = (refl, λ t m i. absurd (Memᴰ.not-nil m))
  sweep_stable (u ∷ ts) reached h =
      elim (Bool-cases (includes reached u.from && not (includes reached u.to))) [
        | inl e ↦ cc (sweep_changed ts (reached ++ u.to ∷ []), (rw (e, sweep) at h))
        | inr e ↦
            let (same, closed) = sweep_stable ts reached (rw (e, sweep) at h) in
            (
              rw (e, sweep) same,
              λ t m i. elim (Memᴰ.cases_cons m) [
                | inl here ↦ ground arith
                | inr later ↦ closed t later i
              ],
            )
      ]

  rounds-Closed :
      (fuel : ℕ) (reached : List String)
      → missing every_ts reached < fuel
      → Closed every_ts (rounds fuel every_ts reached)
  unfolding rounds
  rounds-Closed zero reached h = absurd (omega arith)
  rounds-Closed (suc fuel) reached h = elim (Bool-cases (sweep every_ts reached false).1) [
    | inl more ↦ rw more (
        rounds-Closed fuel (sweep every_ts reached false).0
          (omega (arith, sweep_lt every_ts reached (λ t m. m) more)))
    | inr done ↦ rw done (let (same, closed) = sweep_stable every_ts reached done in rw same closed)
  ]

  rounds_mono : (fuel : ℕ) (reached : List String) → Subset reached (rounds fuel every_ts reached)
  unfolding rounds
  rounds_mono zero reached x h = h
  rounds_mono (suc fuel) reached x h = ground (
    arith,
    sweep_mono every_ts reached false x h,
    rounds_mono fuel (sweep every_ts reached false).0 x,
  )

  rounds_sound :
      (entry : String) (fuel : ℕ) (reached : List String)
      → ((x : String) → In x reached → Reachable every_ts entry x)
      → (x : String) → In x (rounds fuel every_ts reached)
      → Reachable every_ts entry x
  unfolding rounds
  rounds_sound entry zero reached h x m = h x m
  rounds_sound entry (suc fuel) reached h x m = elim (Bool-cases (sweep every_ts reached false).1) [
    | inl more ↦
        rounds_sound entry fuel (sweep every_ts reached false).0 found x (rw (more, rounds) at m)
    | inr done ↦ found x (rw (done, rounds) at m)
  ]
    where
      found : (y : String) → In y (sweep every_ts reached false).0 → Reachable every_ts entry y
      found = sweep_sound entry every_ts reached false (λ t k. k) h

  Closed-Reachable :
      {entry : String} (found : List String)
      → In entry found
      → Closed every_ts found
      → {x : String} → Reachable every_ts entry x
      → In x found
  Closed-Reachable found e c Reachable.start = e
  Closed-Reachable found e c (Reachable.step t m r same) =
      rw (← same) (c t m (Closed-Reachable found e c r))

  -- The loop's result holds a node exactly when transitions lead to it from the entry.
  pub reach_iff : (entry x : String) → In x (reach every_ts entry) ↔ Reachable every_ts entry x
  unfolding reach
  reach_iff entry x = (
    rounds_sound entry (suc (length every_ts)) (entry ∷ [])
        (λ y m. let e : entry ≡ y = (eq_iff entry y).0 (ground arith) in rw (← e) Reachable.start)
        x,
    Closed-Reachable (reach every_ts entry)
        (rounds_mono (suc (length every_ts)) (entry ∷ []) entry (In-head entry []))
        (rounds-Closed (suc (length every_ts)) (entry ∷ [])
          (omega (arith, missing_bound every_ts (entry ∷ [])))),
  )

sweep-Distinct :
    (ts : List TransitionDefinition) (reached : List String) (c : Bool)
    → Distinct reached
    → Distinct (sweep ts reached c).0
unfolding sweep
sweep-Distinct [] reached c d = d
sweep-Distinct (t ∷ ts) reached c d =
    elim (Bool-cases (includes reached t.from && not (includes reached t.to))) [
      | inl e ↦
          rw (e, sweep)
            (sweep-Distinct ts (reached ++ t.to ∷ []) true
              (Distinct-snoc reached t.to d (ground arith)))
      | inr e ↦ rw (e, sweep) (sweep-Distinct ts reached c d)
    ]

rounds-Distinct :
    (fuel : ℕ) (ts : List TransitionDefinition) (reached : List String)
    → Distinct reached
    → Distinct (rounds fuel ts reached)
unfolding rounds
rounds-Distinct zero ts reached d = d
rounds-Distinct (suc fuel) ts reached d = elim (Bool-cases (sweep ts reached false).1) [
  | inl more ↦
      rw more
        (rounds-Distinct fuel ts (sweep ts reached false).0 (sweep-Distinct ts reached false d))
  | inr done ↦ rw done (sweep-Distinct ts reached false d)
]

pub reach-Distinct : (ts : List TransitionDefinition) (entry : String) → Distinct (reach ts entry)
unfolding reach
reach-Distinct ts entry = rounds-Distinct (suc (length ts)) ts (entry ∷ []) (refl, tt)
