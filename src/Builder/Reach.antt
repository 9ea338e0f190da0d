-- ===== src/Builder/Reach.antt =====
-- packages/agents/src/builder/index.ts: the loop of `validateDefinition` that finds the nodes which
-- the entry reaches, against reachability as a relation.
pub mod Closure
use knolo_agents.Base.{
  ℕ, zero, suc, ◌+◌, ◌≤◌, ◌<◌, String, ◌≡◌, refl, ◌↔◌, inl, inr, Bool, true, false, not, ◌&&◌, ◌||◌,
  List, [], ◌∷◌, ◌++◌, arith, ◌==◌, eq_iff, str_eq_refl, if◌then◌else◌, Bool-cases, length, All,
  includes, In, includes-append,
}
use mathlib.Core.List.{Memᴰ}
use knolo_agents.Contracts.{TransitionDefinition}

-- One round of `while (changed)`, over the transitions that are left.
sweep : List TransitionDefinition → List String → Bool → List String × Bool
sweep [] reached changed = (reached, changed)
sweep (t ∷ ts) reached changed =
    let fires = includes reached t.from && not (includes reached t.to) in
    sweep ts (if fires then reached ++ t.to ∷ [] else reached) (if fires then true else changed)

-- The loop, on fuel for its rounds.
rounds : ℕ → List TransitionDefinition → List String → List String
rounds zero ts reached = reached
rounds (suc fuel) ts reached =
    let (found, changed) = sweep ts reached false in
    let again = rounds fuel ts found in if changed then again else found

-- A round that changes something reaches the end of one more transition: there are no more such
-- rounds than transitions.
unfoldable pub reach : List TransitionDefinition → String → List String
unfolding sweep rounds
reach ts entry = rounds (suc (length ts)) ts (entry ∷ [])

-- What it means that a node is reached.
pub data Reachable (ts : List TransitionDefinition) (entry : String) : String → Type 0 where
  start : Reachable ts entry entry
  step :
      {node : String} (t : TransitionDefinition)
      → Memᴰ t ts
      → Reachable ts entry t.from
      → t.to ≡ node
      → Reachable ts entry node
