-- ===== src/Builder/State.antt =====
-- packages/agents/src/builder/index.ts: `stateSchema`, `validateState` and `validateGraphStatePaths`.
pub mod Conforms
pub mod Typed
use knolo_agents.Base.{
  String, Bool, true, false, not, ◌&&◌, ◌||◌, Option, none, some, List, [], ◌∷◌, ◌++◌, map,
  if◌then◌else◌, every, includes, Result, ok, err, ◌>>=◌, ◌>>◌, require, ◌==◌, ℕ, eqb,
}
use knolo_agents.Base.Text.{◌^^◌, starts_with_slash, path_segments}
use knolo_agents.Contracts.{
  ValueType, StateSchema, NodeDefinition, GraphDefinition, null_type, bool_type, number_type,
  string_type, array_type, object_type,
}
use knolo_agents.Contracts.Values.{Json, null, bool, number, string, array, object, Fields, lookup}
use knolo_agents.Builder.Errors.{
  DefinitionError, missing_state_path, wrong_state_type, not_a_json_value, undeclared_state_path,
}
use knolo_agents.Builder.Identifier.{assert_identifier}

-- An entry of the shape of a schema; a bare type is an entry that is not optional.
pub record Descriptor : Type 0 where
  pub key : String
  pub type : ValueType
  pub optional : Bool

abbrev pub descriptor_path : Descriptor → String
unfolding starts_with_slash
descriptor_path d = if starts_with_slash d.key then d.key else "/" ^^ d.key

-- paths[path] = type: a path that is there keeps its place.
set_path : String → ValueType → List (String × ValueType) → List (String × ValueType)
set_path path type [] = (path, type) ∷ []
set_path path type ((p, t) ∷ ps) =
    if p == path then (p, type) ∷ ps else (p, t) ∷ set_path path type ps

collect_shape :
    List Descriptor
    → List (String × ValueType)
    → List String
    → List (String × ValueType) × List String
unfolding set_path
collect_shape [] paths required = (paths, required)
collect_shape (d ∷ ds) paths required =
    collect_shape ds (set_path (descriptor_path d) d.type paths)
      (if d.optional then required else required ++ descriptor_path d ∷ [])

pub state_schema : String → List Descriptor → Result DefinitionError StateSchema
unfolding collect_shape assert_identifier
state_schema id shape =
    assert_identifier id "state schema id"
    >> (let (paths, required) = collect_shape shape [] [] in
        ok (record { version = 1; id = id; paths = paths; required = required }))

-- What reading a property yields: nothing, a JSON value, or another value such as a function.
pub data Found : Type 0 where
  undefined : Found
  json : Json → Found
  other : Found

-- The properties that the language supplies, of an object by `inherited` and of any other value
-- that has properties (the indices and length of an array, the methods of a text) by `built_in`.
pub record Language : Type 0 where
  pub inherited : String → Found
  pub built_in : Found → String → Found

or_inherited : Language → String → Option Json → Found
or_inherited js key none = js.inherited key
or_inherited js key (some v) = json v

-- current == null ? undefined : current[key]
pub read_key : Language → Found → String → Found
unfolding or_inherited
read_key js undefined key = undefined
read_key js (json null) key = undefined
read_key js (json (object o)) key = or_inherited js key (lookup key o)
read_key js v key = js.built_in v key

pub read_from : Language → Found → List String → Found
read_from js current [] = current
read_from js current (key ∷ path) = read_from js (read_key js current key) path

unfoldable pub read_path : Language → Fields → String → Found
unfolding read_from read_key path_segments lookup
read_path js value path = read_from js (json (object value)) (path_segments path)

unfoldable pub value_type : Found → Result DefinitionError ValueType
value_type (json null) = ok null_type
value_type (json (bool b)) = ok bool_type
value_type (json (number s d e)) = ok number_type
value_type (json (string s)) = ok string_type
value_type (json (array xs)) = ok array_type
value_type (json (object o)) = ok object_type
value_type undefined = err not_a_json_value
value_type other = err not_a_json_value

pub is_defined : Found → Bool
is_defined undefined = false
is_defined _ = true

-- The place of a type in the union.
type_index : ValueType → ℕ
type_index null_type = 0
type_index bool_type = 1
type_index number_type = 2
type_index string_type = 3
type_index array_type = 4
type_index object_type = 5

pub same_type : ValueType → ValueType → Bool
unfolding type_index
same_type a b = eqb (type_index a) (type_index b)

check_required : Language → Fields → List String → Result DefinitionError (Unit {0})
unfolding is_defined
check_required js value [] = ok tt
check_required js value (path ∷ paths) =
    require (is_defined (read_path js value path)) (missing_state_path path)
    >> check_required js value paths

check_type : String → ValueType → Found → Result DefinitionError (Unit {0})
unfolding same_type value_type
check_type path type undefined = ok tt
check_type path type v =
    value_type v >>= λ actual. require (same_type actual type) (wrong_state_type path)

check_types : Language → Fields → List (String × ValueType) → Result DefinitionError (Unit {0})
check_types js value [] = ok tt
check_types js value ((path, type) ∷ paths) =
    check_type path type (read_path js value path) >> check_types js value paths

unfoldable pub validate_state : Language → StateSchema → Fields → Result DefinitionError (Unit {0})
unfolding check_required check_types check_type read_path
validate_state js schema value =
    check_required js value schema.required >> check_types js value schema.paths

check_paths : List String → String → List String → Result DefinitionError (Unit {0})
check_paths declared node [] = ok tt
check_paths declared node (path ∷ paths) =
    require (includes declared path) (undeclared_state_path node path)
    >> check_paths declared node paths

check_nodes : List String → List NodeDefinition → Result DefinitionError (Unit {0})
unfolding check_paths
check_nodes declared [] = ok tt
check_nodes declared (n ∷ ns) =
    check_paths declared n.id (n.reads ++ n.writes) >> check_nodes declared ns

unfoldable pub validate_graph_state_paths :
    GraphDefinition → StateSchema → Result DefinitionError (Unit {0})
unfolding check_nodes
validate_graph_state_paths g schema =
    check_nodes (map (λ (p : String × ValueType). p.0) schema.paths) g.nodes
