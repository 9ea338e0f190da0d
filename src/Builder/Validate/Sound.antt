-- ===== src/Builder/Validate/Sound.antt =====
-- `validateDefinition` accepts exactly the graphs that it means to be valid.

use knolo_agents.Base.{
  ℕ, String, ◌≤◌, ◌<◌, ◌≡◌, refl, ◌↔◌, true, List, [], ◌∷◌, ◌++◌, map, length, length-map, any, In,
  Subset, unique, ok, arith, All, All-Memᴰ,
}
use knolo_agents.Base.Distinct.{
  Distinct, Fresh, Distinct-Fresh, Fresh-Distinct_apart, Distinct-length, unique_of_Distinct,
  Subset_of_length, length-le_of_Subset,
}
use knolo_agents.Contracts.{NodeDefinition, TransitionDefinition, GraphDefinition}
use knolo_agents.Builder.Identifier.{is_identifier, assert_identifier}
use knolo_agents.Builder.Reach.{reach, Reachable}
use knolo_agents.Builder.Reach.Closure.{reach_iff, reach-Distinct}
use knolo_agents.Builder.Validate.{
  max_safe_integer, node_ids, route_key, check_transitions, check_limits, validate_definition,
}

-- Both ends of a transition are nodes of the graph.
abbrev pub HasEnds : List String → TransitionDefinition → Type 0
HasEnds ids t = In t.from ids × In t.to ids

abbrev IsPositiveSafe : ℕ → Type 0
IsPositiveSafe n = (0 < n) × (n ≤ max_safe_integer)

-- What the code asks of a graph, with reachability as a relation.
pub record IsValidGraph (g : GraphDefinition) : Type 0 where
  pub named : is_identifier g.id ≡ true
  pub versioned : g.version ≡ 1
  pub steps_limited : IsPositiveSafe g.limits.max_steps
  pub time_limited : IsPositiveSafe g.limits.timeout_ms
  pub ids_distinct : Distinct (node_ids g)
  pub entry_declared : In g.entry (node_ids g)
  pub has_terminal : any (λ (n : NodeDefinition). n.terminal) g.nodes ≡ true
  pub ends_declared : All (HasEnds (node_ids g)) g.transitions
  pub routes_distinct : Distinct (map route_key g.transitions)
  pub all_reachable : (id : String) → In id (node_ids g) → Reachable g.transitions g.entry id

check_transitions_sound :
    (ids routes : List String) (ts : List TransitionDefinition)
    → check_transitions ids routes ts ≡ ok tt
    → All (HasEnds ids) ts × Fresh routes (map route_key ts)
unfolding check_transitions
check_transitions_sound ids routes [] h = (tt, tt)
check_transitions_sound ids routes (t ∷ ts) h =
    ground (arith, check_transitions_sound ids (routes ++ route_key t ∷ []) ts)

check_transitions_complete :
    (ids routes : List String) (ts : List TransitionDefinition)
    → All (HasEnds ids) ts
    → Fresh routes (map route_key ts)
    → check_transitions ids routes ts ≡ ok tt
unfolding check_transitions
check_transitions_complete ids routes [] a f = refl
check_transitions_complete ids routes (t ∷ ts) a f =
    ground (arith, check_transitions_complete ids (routes ++ route_key t ∷ []) ts a.1 f.1)

module _ (g : GraphDefinition) where
  -- With every end declared, the nodes that are reached are nodes of the graph.
  Reachable-declared :
      {x : String}
      → In g.entry (node_ids g)
      → All (HasEnds (node_ids g)) g.transitions
      → Reachable g.transitions g.entry x
      → In x (node_ids g)
  Reachable-declared e a Reachable.start = e
  Reachable-declared e a (Reachable.step t m r same) =
      rw (← same) (All-Memᴰ (HasEnds (node_ids g)) g.transitions a m).1

  reach-Subset :
      In g.entry (node_ids g)
      → All (HasEnds (node_ids g)) g.transitions
      → Subset (reach g.transitions g.entry) (node_ids g)
  reach-Subset e a x m = Reachable-declared e a ((reach_iff g.transitions g.entry x).0 m)

  -- The checks, one by one.
  abbrev PassesChecks : Type 0
  PassesChecks =
      (assert_identifier g.id "graph id" ≡ ok tt)
      × (g.version ≡ 1)
      × (check_limits g.limits ≡ true)
      × (length (unique (node_ids g)) ≡ length g.nodes)
      × In g.entry (unique (node_ids g))
      × (any (λ (n : NodeDefinition). n.terminal) g.nodes ≡ true)
      × (check_transitions (unique (node_ids g)) [] g.transitions ≡ ok tt)
      × (length (reach g.transitions g.entry) ≡ length (unique (node_ids g)))

  checks_pass : validate_definition g ≡ ok tt → PassesChecks
  unfolding validate_definition
  checks_pass h = ground arith

  checks_suffice : PassesChecks → validate_definition g ≡ ok tt
  unfolding validate_definition
  checks_suffice h = ground arith

  length-node_ids : length (node_ids g) ≡ length g.nodes
  length-node_ids = length-map (λ (n : NodeDefinition). n.id) g.nodes

  limits_iff :
      (check_limits g.limits ≡ true)
      ↔ (IsPositiveSafe g.limits.max_steps × IsPositiveSafe g.limits.timeout_ms)
  unfolding check_limits
  limits_iff = (λ h. ground arith, λ h. ground arith)

  identifier_iff : (assert_identifier g.id "graph id" ≡ ok tt) ↔ (is_identifier g.id ≡ true)
  unfolding assert_identifier
  identifier_iff = (λ h. ground arith, λ h. ground arith)

  accepted-IsValidGraph : PassesChecks → IsValidGraph g
  accepted-IsValidGraph (name, version, limits, size, entry, terminal, transitions, count) =
      record {
        named = identifier_iff.0 name;
        versioned = version;
        steps_limited = (limits_iff.0 limits).0;
        time_limited = (limits_iff.0 limits).1;
        ids_distinct = ids_distinct;
        entry_declared = entry';
        has_terminal = terminal;
        ends_declared = ends.0;
        routes_distinct = Distinct-Fresh (map route_key g.transitions) ends.1;
        all_reachable = λ id m. (reach_iff g.transitions g.entry id).0 (
            Subset_of_length (reach g.transitions g.entry) (node_ids g)
              (reach-Distinct g.transitions g.entry) (reach-Subset entry' ends.0)
              (rw (← unique_of_Distinct (node_ids g) ids_distinct) count') id m);
      }
    where
      ids_distinct : Distinct (node_ids g)
      ids_distinct = Distinct-length (node_ids g) (omega (arith, size, length-node_ids))

      same : unique (node_ids g) ≡ node_ids g
      same = unique_of_Distinct (node_ids g) ids_distinct

      entry' : In g.entry (node_ids g)
      entry' = rw same at entry

      ends : All (HasEnds (node_ids g)) g.transitions × Fresh [] (map route_key g.transitions)
      ends = check_transitions_sound (node_ids g) [] g.transitions (rw same at transitions)

      count' : length (reach g.transitions g.entry) ≡ length (unique (node_ids g))
      count' = count

  IsValidGraph-accepted : IsValidGraph g → PassesChecks
  IsValidGraph-accepted v = rw same (
    identifier_iff.1 v.named,
    v.versioned,
    limits_iff.1 (v.steps_limited, v.time_limited),
    length-node_ids,
    v.entry_declared,
    v.has_terminal,
    check_transitions_complete (node_ids g) [] g.transitions v.ends_declared
        (Fresh-Distinct_apart [] (map route_key g.transitions) v.routes_distinct (λ x m. refl)),
    omega (
      arith,
      length-le_of_Subset (reach g.transitions g.entry) (node_ids g)
          (reach-Distinct g.transitions g.entry) (reach-Subset v.entry_declared v.ends_declared),
      length-le_of_Subset (node_ids g) (reach g.transitions g.entry) v.ids_distinct
          (λ id m. (reach_iff g.transitions g.entry id).1 (v.all_reachable id m)),
    ),
  )
    where
      same : unique (node_ids g) ≡ node_ids g
      same = unique_of_Distinct (node_ids g) v.ids_distinct

-- `validateDefinition` returns normally exactly on the graphs with a valid name, version 1, the limits
-- `max_steps` and `timeout_ms` positive and safe integers, distinct node ids, a declared entry, a terminal
-- node, transitions between declared nodes with no route key twice, and every node reachable from the
-- entry. So it asks nothing of the form of a node's id, of the other limits and of cycles.
pub validate_definition_iff :
    (g : GraphDefinition) → (validate_definition g ≡ ok tt) ↔ IsValidGraph g
validate_definition_iff g = (
  λ h. accepted-IsValidGraph g (checks_pass g h),
  λ v. checks_suffice g (IsValidGraph-accepted g v),
)
