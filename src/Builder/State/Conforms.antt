-- ===== src/Builder/State/Conforms.antt =====
-- What a state that passes `validateState` satisfies, and what a graph that passes
-- `validateGraphStatePaths` does.
use knolo_agents.Base.{
  String, ◌≡◌, refl, ◌↔◌, ◌≢◌, ◌⊎◌, Bool, true, false, List, [], ◌∷◌, ◌++◌, map, Result, ok, err,
  ◌>>=◌, ◌>>◌, require, arith, All, In,
}
use knolo_agents.Contracts.{ValueType, StateSchema, NodeDefinition, GraphDefinition}
use knolo_agents.Contracts.Values.{null, bool, number, string, array, object, Fields}
use knolo_agents.Builder.Errors.{
  DefinitionError, missing_state_path, wrong_state_type, not_a_json_value,
}
use knolo_agents.Builder.State.{
  Found, undefined, json, other, Language, read_path, value_type, is_defined, same_type,
  check_required, check_type, check_types, validate_state, check_paths, check_nodes,
  validate_graph_state_paths,
}

-- What is read at a path of the schema is absent, or a JSON value of the declared type.
abbrev pub HasType : ValueType → Found → Type 0
HasType type v = (v ≡ undefined) ⊎ (value_type v ≡ ok type)

pub record Conforms (js : Language) (schema : StateSchema) (value : Fields) : Type 0 where
  pub required_present : All (λ path. read_path js value path ≢ undefined) schema.required
  pub types_match :
      All (λ (p : String × ValueType). HasType p.1 (read_path js value p.0)) schema.paths

same_type_iff : (a b : ValueType) → (same_type a b ≡ true) ↔ (a ≡ b)
unfolding same_type
same_type_iff a b = (λ h. ground arith, λ h. ground arith)

check_required_sound :
    (js : Language) (value : Fields) (paths : List String)
    → check_required js value paths ≡ ok tt
    → All (λ path. read_path js value path ≢ undefined) paths
unfolding check_required
check_required_sound js value [] h = tt
check_required_sound js value (path ∷ paths) h =
    (λ e. ground arith, check_required_sound js value paths (ground arith))

check_required_complete :
    (js : Language) (value : Fields) (paths : List String)
    → All (λ path. read_path js value path ≢ undefined) paths
    → check_required js value paths ≡ ok tt
unfolding check_required
check_required_complete js value [] h = refl
check_required_complete js value (path ∷ paths) h =
    ground (arith, check_required_complete js value paths h.1)

check_type_iff :
    (path : String) (type : ValueType) (v : Found)
    → (check_type path type v ≡ ok tt) ↔ HasType type v
unfolding check_type value_type
check_type_iff path type v = (λ h. ground arith, λ h. ground arith)

check_types_sound :
    (js : Language) (value : Fields) (paths : List (String × ValueType))
    → check_types js value paths ≡ ok tt
    → All (λ (p : String × ValueType). HasType p.1 (read_path js value p.0)) paths
unfolding check_types
check_types_sound js value [] h = tt
check_types_sound js value ((path, type) ∷ paths) h = (
  (check_type_iff path type (read_path js value path)).0 (ground arith),
  check_types_sound js value paths (ground arith),
)

check_types_complete :
    (js : Language) (value : Fields) (paths : List (String × ValueType))
    → All (λ (p : String × ValueType). HasType p.1 (read_path js value p.0)) paths
    → check_types js value paths ≡ ok tt
unfolding check_types
check_types_complete js value [] h = refl
check_types_complete js value ((path, type) ∷ paths) h = ground (
  arith,
  (check_type_iff path type (read_path js value path)).1 h.0,
  check_types_complete js value paths h.1,
)

module _ (js : Language) (schema : StateSchema) (value : Fields) where
  conforms : validate_state js schema value ≡ ok tt → Conforms js schema value
  unfolding validate_state
  conforms h = record {
    required_present = check_required_sound js value schema.required (ground arith);
    types_match = check_types_sound js value schema.paths (ground arith);
  }

  passes : Conforms js schema value → validate_state js schema value ≡ ok tt
  unfolding validate_state
  passes c = ground (
    arith,
    check_required_complete js value schema.required c.required_present,
    check_types_complete js value schema.paths c.types_match,
  )

-- `validateState` returns normally exactly on the values in which every required path of the schema
-- leads to something, and every path of the schema leads to nothing or to a JSON value of its type.
pub validate_state-Conforms_iff :
    (js : Language) (schema : StateSchema) (value : Fields)
    → (validate_state js schema value ≡ ok tt) ↔ Conforms js schema value
validate_state-Conforms_iff js schema value = (conforms js schema value, passes js schema value)

check_paths_iff :
    (declared : List String) (node : String) (paths : List String)
    → (check_paths declared node paths ≡ ok tt) ↔ All (λ path. In path declared) paths
unfolding check_paths
check_paths_iff declared node [] = (λ h. tt, λ h. refl)
check_paths_iff declared node (path ∷ paths) =
    let (there, back) = check_paths_iff declared node paths in
    (λ h. (ground arith, there (ground arith)), λ h. ground (arith, back h.1))

abbrev pub schema_paths : StateSchema → List String
schema_paths schema = map (λ (p : String × ValueType). p.0) schema.paths

check_nodes_iff :
    (declared : List String) (nodes : List NodeDefinition)
    → (check_nodes declared nodes ≡ ok tt)
      ↔ All (λ (n : NodeDefinition). All (λ path. In path declared) (n.reads ++ n.writes)) nodes
unfolding check_nodes
check_nodes_iff declared [] = (λ h. tt, λ h. refl)
check_nodes_iff declared (n ∷ nodes) =
    let (there, back) = check_nodes_iff declared nodes in
    let (here, again) = check_paths_iff declared n.id (n.reads ++ n.writes) in
    (λ h. (here (ground arith), there (ground arith)), λ h. ground (arith, again h.0, back h.1))

-- `validateGraphStatePaths` returns normally exactly when every path that a node reads or writes is
-- a path of the schema.
pub validate_graph_state_paths_iff :
    (g : GraphDefinition) (schema : StateSchema)
    → (validate_graph_state_paths g schema ≡ ok tt)
      ↔ All
          (λ (n : NodeDefinition).
            All (λ path. In path (schema_paths schema)) (n.reads ++ n.writes))
          g.nodes
unfolding validate_graph_state_paths
validate_graph_state_paths_iff g schema = check_nodes_iff (schema_paths schema) g.nodes

-- The errors of a state that does not fit its schema.
abbrev pub IsStateFault : DefinitionError → Type 0
IsStateFault (missing_state_path path) = Unit
IsStateFault (wrong_state_type path) = Unit
IsStateFault not_a_json_value = Unit
IsStateFault _ = ⊥

-- What fails, fails with such an error.
abbrev pub StateFaults {ℓ} : {A : Type ℓ} → Result DefinitionError A → Type 0
StateFaults (ok a) = Unit
StateFaults (err e) = IsStateFault e

StateFaults->>= {ℓ} :
    {A : Type ℓ} (m : Result DefinitionError A) (f : A → Result DefinitionError (Unit {0}))
    → StateFaults m
    → ((a : A) → StateFaults (f a))
    → StateFaults (m >>= f)
StateFaults->>= (ok a) f h g = g a
StateFaults->>= (err e) f h g = h

StateFaults->> :
    (m k : Result DefinitionError (Unit {0})) → StateFaults m → StateFaults k → StateFaults (m >> k)
StateFaults->> (ok tt) k h g = g
StateFaults->> (err e) k h g = h

StateFaults-require : (b : Bool) (e : DefinitionError) → IsStateFault e → StateFaults (require b e)
StateFaults-require true e h = tt
StateFaults-require false e h = h

value_type-StateFaults : (v : Found) → StateFaults (value_type v)
unfolding value_type
value_type-StateFaults (json null) = tt
value_type-StateFaults (json (bool b)) = tt
value_type-StateFaults (json (number s d e)) = tt
value_type-StateFaults (json (string s)) = tt
value_type-StateFaults (json (array xs)) = tt
value_type-StateFaults (json (object o)) = tt
value_type-StateFaults undefined = tt
value_type-StateFaults other = tt

check_type-StateFaults :
    (path : String) (type : ValueType) (v : Found) → StateFaults (check_type path type v)
unfolding check_type
check_type-StateFaults path type undefined = tt
check_type-StateFaults path type v =
    StateFaults->>= (value_type v) _ (value_type-StateFaults v)
      (λ actual. StateFaults-require (same_type actual type) (wrong_state_type path) tt)

check_required-StateFaults :
    (js : Language) (value : Fields) (paths : List String)
    → StateFaults (check_required js value paths)
unfolding check_required
check_required-StateFaults js value [] = tt
check_required-StateFaults js value (path ∷ paths) =
    StateFaults->> (require (is_defined (read_path js value path)) (missing_state_path path))
      (check_required js value paths)
      (StateFaults-require (is_defined (read_path js value path)) (missing_state_path path) tt)
      (check_required-StateFaults js value paths)

check_types-StateFaults :
    (js : Language) (value : Fields) (paths : List (String × ValueType))
    → StateFaults (check_types js value paths)
unfolding check_types
check_types-StateFaults js value [] = tt
check_types-StateFaults js value ((path, type) ∷ paths) =
    StateFaults->> (check_type path type (read_path js value path)) (check_types js value paths)
      (check_type-StateFaults path type (read_path js value path))
      (check_types-StateFaults js value paths)

pub validate_state-StateFaults :
    (js : Language) (schema : StateSchema) (value : Fields)
    → StateFaults (validate_state js schema value)
unfolding validate_state
validate_state-StateFaults js schema value =
    StateFaults->> (check_required js value schema.required) (check_types js value schema.paths)
      (check_required-StateFaults js value schema.required)
      (check_types-StateFaults js value schema.paths)
