-- ===== src/Tests/Sample.antt =====
-- A counting agent of two nodes, and surroundings in which it runs.
use knolo_agents.Base.{◌≡◌, refl, true, false, none, some, [], ◌∷◌, unique, ok}
use knolo_agents.Contracts.{StateSchema, number_type, string_type, continue, terminate, fields}
use knolo_agents.Contracts.Values.{Json, number, string, Fields, end, field}
use knolo_agents.Builder.{
  NodeHandler, AgentConfig, AgentDefinition, CompiledAgentDefinition, define_agent, check_agent,
  exceeds, build_agent,
}
use knolo_agents.Builder.Validate.{validate_definition, check_transitions, check_limits}
use knolo_agents.Builder.Identifier.{assert_identifier}
use knolo_agents.Builder.Reach.{reach}
use knolo_agents.Builder.State.{Language, undefined, validate_graph_state_paths}
use knolo_agents.Engine.Steps.{Surroundings}

abbrev pub one : Json
one = number false 1 0

abbrev pub schema : StateSchema
schema = record {
  version = 1;
  id = "counter";
  paths = ("/count", number_type) ∷ ("/name", string_type) ∷ [];
  required = "/count" ∷ [];
}

abbrev pub count_handler : NodeHandler
count_handler context = ok (record {
  outcome = continue (some (fields (field "count" one end)));
  tokens = some 5;
  cost_micros = some 7;
})

abbrev pub end_handler : NodeHandler
end_handler context =
    ok (record { outcome = terminate (string "done") none; tokens = none; cost_micros = some 2 })

abbrev pub config : AgentConfig
config = record {
  id = "count-once";
  state = schema;
  nodes =
      record {
        id = "count";
        terminal = false;
        reads = "/count" ∷ [];
        writes = "/count" ∷ [];
        handler = some count_handler;
        capabilities = some ("state" ∷ []);
      }
      ∷ record {
        id = "finish";
        terminal = true;
        reads = [];
        writes = [];
        handler = some end_handler;
        capabilities = none;
      }
      ∷ [];
  transitions =
      record { id = "count.continue.finish"; from = "count"; route = "continue"; to = "finish" }
      ∷ [];
  entry = "count";
  cycles = none;
  limits = none;
  pack = some (record {
    version = 1;
    id = "pack";
    hash = none;
    capabilities = some ("state" ∷ "routing" ∷ []);
  });
}

abbrev pub definition : AgentDefinition
definition = build_agent config

abbrev pub compiled : CompiledAgentDefinition
compiled = record { definition = definition; hash = "hash" }

abbrev pub language : Language
language = record { inherited = λ key. undefined; built_in = λ v key. undefined }

abbrev pub around : Surroundings
around = record {
  language = language;
  aborted = λ n. false;
  elapsed_ms = λ n. n;
  timestamp_ms = λ n. 1000;
  execution_id = "run-1";
  resume_input = none;
}

abbrev pub initial : Fields
initial = field "count" (number false 0 0) (field "name" (string "n") end)

-- What a test computes with.
unfoldable pub builder : Unit {0}
unfolding define_agent check_agent build_agent exceeds unique validate_definition assert_identifier
    reach check_transitions check_limits validate_graph_state_paths
builder = tt

pub defined : define_agent config ≡ ok definition
unfolding builder
defined = refl

-- The same agent with a handler that writes a property which its node does not declare.
abbrev pub stray_handler : NodeHandler
stray_handler context = ok (record {
  outcome = continue (some (fields (field "name" one end)));
  tokens = none;
  cost_micros = none;
})

abbrev pub stray_config : AgentConfig
stray_config = record config {
  nodes =
      record {
        id = "count";
        terminal = false;
        reads = [];
        writes = "/count" ∷ [];
        handler = some stray_handler;
        capabilities = none;
      }
      ∷ record {
        id = "finish";
        terminal = true;
        reads = [];
        writes = [];
        handler = some end_handler;
        capabilities = none;
      }
      ∷ [];
}

abbrev pub stray : CompiledAgentDefinition
stray = record { definition = build_agent stray_config; hash = "stray" }
