-- ===== src/Builder.antt =====
-- packages/agents/src/builder/index.ts: nodes, transitions, limits, packs, `defineAgent`, `compile`.
pub mod Errors
pub mod Identifier
pub mod Reach
pub mod Validate
pub mod State
pub mod Agents
use knolo_agents.Base.{
  ℕ, String, Bool, true, false, not, ◌&&◌, Option, none, some, List, [], ◌∷◌, ◌++◌, map, ◌==◌,
  if◌then◌else◌, any, includes, unique, Result, ok, err, ◌>>=◌, ◌>>◌, require,
}
use knolo_agents.Base.Text.{◌^^◌}
use knolo_agents.Contracts.{
  StateSchema, ExecutionLimits, NodeDefinition, TransitionDefinition, CycleDefinition,
  GraphDefinition, NodeExecution,
}
use knolo_agents.Contracts.Values.{Json, Fields}
use knolo_agents.Builder.Errors.{DefinitionError, capability_not_granted}
use knolo_agents.Builder.Identifier.{assert_identifier}
use knolo_agents.Builder.Validate.{max_safe_integer, validate_definition}
use knolo_agents.Builder.State.{validate_graph_state_paths}

-- What a handler is given. `call` is the number of handler calls before this one in the execution,
-- so that a handler with a state of its own, or with effects, may answer each call differently.
pub record NodeContext : Type 0 where
  pub call : ℕ
  pub state : Fields
  pub attempt : ℕ
  pub resume_input : Option Json

-- The host's code for a node: it returns, or throws an error with a message.
abbrev pub NodeHandler : Type 0
NodeHandler = NodeContext → Result String NodeExecution

pub record NodeSpec : Type 0 where
  pub id : String
  pub terminal : Bool
  pub reads : List String
  pub writes : List String
  pub handler : Option NodeHandler
  pub capabilities : Option (List String)

pub record NodeOptions : Type 0 where
  pub reads : Option (List String)
  pub writes : Option (List String)
  pub capabilities : Option (List String)
  pub run : NodeHandler

-- o ?? d
abbrev pub or_default {ℓ} : {A : Type ℓ} → Option A → A → A
or_default none d = d
or_default (some x) d = x

abbrev pub pointer : String → String
pointer key = "/" ^^ key

unfoldable pub node : String → NodeOptions → Result DefinitionError NodeSpec
node id options =
    assert_identifier id "node id"
    >> ok (record {
      id = id;
      terminal = false;
      reads = map pointer (or_default options.reads []);
      writes = map pointer (or_default options.writes []);
      handler = some options.run;
      capabilities = options.capabilities;
    })

unfoldable pub terminal : String → NodeOptions → Result DefinitionError NodeSpec
terminal id options = node id options >>= λ (spec : NodeSpec). ok (record spec { terminal = true })

unfoldable pub transition :
    String → String → String → Option String → Result DefinitionError TransitionDefinition
transition from route to id =
    let id' = or_default id (from ^^ ("." ^^ (route ^^ ("." ^^ to)))) in
    assert_identifier id' "transition id"
    >> ok (record { id = id'; from = from; route = route; to = to })

pub record PartialLimits : Type 0 where
  pub max_steps : Option ℕ
  pub max_tokens : Option ℕ
  pub max_cost_micros : Option ℕ
  pub timeout_ms : Option ℕ

unfoldable pub limits : PartialLimits → ExecutionLimits
limits value = record {
  max_steps = or_default value.max_steps 100;
  max_tokens = or_default value.max_tokens max_safe_integer;
  max_cost_micros = or_default value.max_cost_micros max_safe_integer;
  timeout_ms = or_default value.timeout_ms 30000;
}

abbrev pub no_limits : PartialLimits
no_limits = record {
  max_steps = none;
  max_tokens = none;
  max_cost_micros = none;
  timeout_ms = none;
}

pub record PackReference : Type 0 where
  pub version : ℕ
  pub id : String
  pub hash : Option String
  pub capabilities : Option (List String)

unfoldable pub from_pack :
    String → Option String → Option (List String) → Result DefinitionError PackReference
from_pack id hash capabilities =
    assert_identifier id "pack id"
    >> ok (record { version = 1; id = id; hash = hash; capabilities = capabilities })

pub record AgentConfig : Type 0 where
  pub id : String
  pub state : StateSchema
  pub nodes : List NodeSpec
  pub transitions : List TransitionDefinition
  pub entry : String
  pub cycles : Option (List CycleDefinition)
  pub limits : Option ExecutionLimits
  pub pack : Option PackReference

pub record AgentDefinition : Type 0 where
  pub graph : GraphDefinition
  pub schema : StateSchema
  pub handlers : String → Option NodeHandler
  pub capabilities : List String
  pub pack : Option PackReference

pub record CompiledAgentDefinition : Type 0 where
  pub definition : AgentDefinition
  pub open definition use *
  pub hash : String

set_handler :
    Option NodeHandler → String → (String → Option NodeHandler) → String → Option NodeHandler
set_handler none id handlers key = handlers key
set_handler (some h) id handlers key = if id == key then some h else handlers key

-- The loop that fills `handlers`: a later node of the same id replaces the handler.
collect_handlers : List NodeSpec → (String → Option NodeHandler) → String → Option NodeHandler
unfolding set_handler
collect_handlers [] handlers = handlers
collect_handlers (item ∷ items) handlers =
    collect_handlers items (set_handler item.handler item.id handlers)

spec_definition : NodeSpec → NodeDefinition
spec_definition n = record { id = n.id; terminal = n.terminal; reads = n.reads; writes = n.writes }

flat_capabilities : List NodeSpec → List String
flat_capabilities [] = []
flat_capabilities (n ∷ ns) = or_default n.capabilities [] ++ flat_capabilities ns

-- Some capability is not among those that the pack grants; a pack that lists none grants any.
unfoldable pub exceeds : List String → Option (List String) → Bool
exceeds capabilities none = false
exceeds capabilities (some granted) = any (λ c. not (includes granted c)) capabilities

abbrev pub pack_capabilities : Option PackReference → Option (List String)
pack_capabilities none = none
pack_capabilities (some p) = p.capabilities

unfoldable pub config_graph : AgentConfig → GraphDefinition
unfolding spec_definition limits
config_graph config = record {
  version = 1;
  id = config.id;
  state_schema = config.state.id;
  entry = config.entry;
  nodes = map spec_definition config.nodes;
  transitions = config.transitions;
  cycles = or_default config.cycles [];
  limits = or_default config.limits (limits no_limits);
}

-- The checks that `defineAgent` and `compile` share.
unfoldable pub check_agent :
    GraphDefinition
    → StateSchema
    → List String
    → Option PackReference
    → Result DefinitionError (Unit {0})
check_agent graph schema capabilities pack =
    validate_definition graph
    >> (validate_graph_state_paths graph schema
        >> require (not (exceeds capabilities (pack_capabilities pack))) capability_not_granted)

unfoldable pub build_agent : AgentConfig → AgentDefinition
unfolding collect_handlers flat_capabilities config_graph
build_agent config = record {
  graph = config_graph config;
  schema = config.state;
  handlers = collect_handlers config.nodes (λ id. none);
  capabilities = unique (flat_capabilities config.nodes);
  pack = config.pack;
}

abbrev pub check_built : AgentDefinition → Result DefinitionError (Unit {0})
check_built d = check_agent d.graph d.schema d.capabilities d.pack

unfoldable pub define_agent : AgentConfig → Result DefinitionError AgentDefinition
define_agent config = check_built (build_agent config) >> ok (build_agent config)

-- `hash` is `stableHash`, the SHA-256 of the graph's JSON text.
unfoldable pub compile :
    (hash : GraphDefinition → String)
    → AgentDefinition
    → Result DefinitionError CompiledAgentDefinition
compile hash d = check_built d >> ok (record { definition = d; hash = hash d.graph })
