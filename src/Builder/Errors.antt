-- ===== src/Builder/Errors.antt =====
-- packages/agents/src/builder/index.ts: `DefinitionError`, one constructor for each message.
use knolo_agents.Base.{String, List}

pub data DefinitionError : Type 0 where
  invalid_identifier : (label value : String) → DefinitionError
  unsupported_graph_version limits_not_positive duplicate_node_id entry_not_declared :
      DefinitionError
  no_terminal_node endpoint_not_declared duplicate_route unreachable_node : DefinitionError
  undeclared_state_path : (node path : String) → DefinitionError
  capability_not_granted : DefinitionError
  missing_state_path : (path : String) → DefinitionError
  wrong_state_type : (path : String) → DefinitionError
  not_a_json_value : DefinitionError
  unsupported_capabilities : (missing : List String) → DefinitionError
  graph_hash_mismatch : DefinitionError
  node_has_no_handler : (node : String) → DefinitionError
  undeclared_write : (node key : String) → DefinitionError
  undeclared_route : (route node : String) → DefinitionError
  events_not_contiguous events_of_two_executions : DefinitionError
  diverged_events diverged_snapshots : DefinitionError
