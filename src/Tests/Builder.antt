-- ===== src/Tests/Builder.antt =====
-- The graph of the counting agent, and the theorems of the builder there.
use knolo_agents.Base.{◌≡◌, refl, true, ◌↔◌, none, [], ◌∷◌, ◌++◌, ok, err, arith, In, All, eq_iff}
use knolo_agents.Contracts.{GraphDefinition, NodeDefinition, ExecutionEvent, EventKind}
use knolo_agents.Contracts.Values.{end, field, null}
use knolo_agents.Builder.Errors.{missing_state_path, wrong_state_type}
use knolo_agents.Builder.{pack_capabilities}
use knolo_agents.Builder.Validate.{validate_definition}
use knolo_agents.Builder.Validate.Sound.{IsValidGraph, validate_definition_iff}
use knolo_agents.Builder.Reach.{Reachable, reach}
use knolo_agents.Builder.Reach.Closure.{reach_iff}
use knolo_agents.Builder.State.{validate_state, validate_graph_state_paths, value_type}
use knolo_agents.Builder.State.Conforms.{schema_paths, validate_graph_state_paths_iff}
use knolo_agents.Builder.State.Typed.{IsTyped, validate_state_iff}
use knolo_agents.Builder.Agents.{IsSoundAgent, define_agent-IsSoundAgent}
use knolo_agents.Replay.{validate_replay_events}
use knolo_agents.Replay.Contiguous.{Trail, validate_replay_events_iff}
use knolo_agents.Tests.Sample.{schema, config, definition, initial, language, defined, builder}

validate_definition_iff_example :
    (validate_definition definition.graph ≡ ok tt) ↔ IsValidGraph definition.graph
validate_definition_iff_example = validate_definition_iff definition.graph

-- A graph whose only node has an empty id and leads to itself, without tokens.
abbrev lax_graph : GraphDefinition
lax_graph = record definition.graph {
  nodes = record { id = ""; terminal = true; reads = []; writes = [] } ∷ [];
  transitions = record { id = "again"; from = ""; route = "again"; to = "" } ∷ [];
  entry = "";
  limits = record { max_steps = 1; max_tokens = 0; max_cost_micros = 0; timeout_ms = 1 };
}

lax_accepted : validate_definition lax_graph ≡ ok tt
unfolding builder
lax_accepted = refl

reach_iff_example :
    In "finish" (reach definition.graph.transitions "count")
    ↔ Reachable definition.graph.transitions "count" "finish"
reach_iff_example = reach_iff definition.graph.transitions "count" "finish"

define_agent-IsSoundAgent_example :
    IsSoundAgent definition.graph definition.schema definition.capabilities
      (pack_capabilities definition.pack)
define_agent-IsSoundAgent_example = define_agent-IsSoundAgent config definition defined

-- An empty object lacks the required count.
empty_state : validate_state language schema end ≡ err (missing_state_path "/count")
unfolding validate_state
empty_state = refl

wrong_type :
    (validate_state language schema (field "count" null end) ≡ err (wrong_state_type "/count"))
unfolding validate_state value_type
wrong_type = refl

validate_state_iff_example :
    (validate_state language schema initial ≡ ok tt) ↔ IsTyped language schema initial
validate_state_iff_example = validate_state_iff language schema initial

validate_graph_state_paths_iff_example :
    (validate_graph_state_paths definition.graph schema ≡ ok tt)
    ↔ All
        (λ (n : NodeDefinition). All (λ path. In path (schema_paths schema)) (n.reads ++ n.writes))
        definition.graph.nodes
validate_graph_state_paths_iff_example = validate_graph_state_paths_iff definition.graph schema

abbrev started : ExecutionEvent
started = record {
  version = 1;
  sequence = 1;
  execution_id = "run-1";
  node_id = none;
  timestamp_ms = 5;
  kind = EventKind.execution_started;
}

validate_replay_events_iff_example :
    (validate_replay_events (started ∷ []) ≡ ok tt) ↔ Trail "run-1" 0 (started ∷ []) 1
validate_replay_events_iff_example =
    validate_replay_events_iff started [] (λ e. ground (arith, eq_iff "run-1" ""))
