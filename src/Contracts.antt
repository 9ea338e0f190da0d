-- ===== src/Contracts.antt =====
-- packages/agents/src/contracts/index.ts: the data that the engines and the hosts exchange.
-- A JavaScript number that counts (versions, steps, tokens, costs, times) is a natural number.
pub mod Values
use knolo_agents.Base.{ℕ, String, Bool, Option, List, Result}
use knolo_agents.Contracts.Values.{Json, Fields}

pub data ValueType : Type 0 where
  null_type bool_type number_type string_type array_type object_type : ValueType

pub record StateSchema : Type 0 where
  pub version : ℕ
  pub id : String
  pub paths : List (String × ValueType)
  pub required : List String

pub record ExecutionLimits : Type 0 where
  pub max_steps : ℕ
  pub max_tokens : ℕ
  pub max_cost_micros : ℕ
  pub timeout_ms : ℕ

pub record NodeDefinition : Type 0 where
  pub id : String
  pub terminal : Bool
  pub reads : List String
  pub writes : List String

pub record TransitionDefinition : Type 0 where
  pub id : String
  pub from : String
  pub route : String
  pub to : String

pub record CycleDefinition : Type 0 where
  pub nodes : List String
  pub max_iterations : ℕ

pub record GraphDefinition : Type 0 where
  pub version : ℕ
  pub id : String
  pub state_schema : String
  pub entry : String
  pub nodes : List NodeDefinition
  pub transitions : List TransitionDefinition
  pub cycles : List CycleDefinition
  pub limits : ExecutionLimits

pub record Provenance : Type 0 where
  pub execution_id : String
  pub node_id : String
  pub event_sequence : ℕ

-- The agents of the library keep a JSON object as their state.
pub record StateSnapshot : Type 0 where
  pub schema_id : String
  pub revision : ℕ
  pub value : Fields
  pub provenance : Option Provenance

pub record ResourceUsage : Type 0 where
  pub calls : ℕ
  pub units : ℕ
  pub duration_ms : ℕ

pub record ToolCall : Type 0 where
  pub version : ℕ
  pub call_id : String
  pub tool_id : String
  pub arguments : Json

pub record ToolResult : Type 0 where
  pub version : ℕ
  pub call_id : String
  pub tool_id : String
  pub value : Json
  pub usage : ResourceUsage

pub data EventKind : Type 0 where
  execution_started : EventKind
  node_started : (attempt : ℕ) → EventKind
  state_patched : (revision : ℕ) → EventKind
  routed : (route to : String) → EventKind
  retrying : (attempt : ℕ) → EventKind
  suspended : (reason : String) → EventKind
  terminated : EventKind
  failed : (error : String) → EventKind
  cancelled : EventKind
  checkpointed : EventKind
  tool_call : ToolCall → EventKind
  tool_result : ToolResult → EventKind

pub record ExecutionEvent : Type 0 where
  pub version : ℕ
  pub sequence : ℕ
  pub execution_id : String
  pub node_id : Option String
  pub timestamp_ms : ℕ
  pub kind : EventKind

pub data ExecutionStatus : Type 0 where
  suspended : (reason : String) → ExecutionStatus
  terminated : (result : Json) → ExecutionStatus
  failed : (error : String) → ExecutionStatus
  cancelled : ExecutionStatus

pub record ExecutionReport : Type 0 where
  pub status : ExecutionStatus
  pub state : StateSnapshot
  pub events : List ExecutionEvent
  pub steps : ℕ
  pub tokens : ℕ
  pub cost_micros : ℕ
  pub snapshots : Option (List StateSnapshot)

pub record Checkpoint : Type 0 where
  pub version : ℕ
  pub execution_id : String
  pub graph_hash : String
  pub pack_hash : String
  pub policy_hash : String
  pub node_implementation_hash : String
  pub contract_hash : String
  pub state : StateSnapshot
  pub pending_node : String
  pub event_cursor : ℕ
  pub steps : ℕ
  pub tokens : ℕ
  pub cost_micros : ℕ

-- A patch is an object, or a function of the state that may throw (`err` holds the message).
pub data StateUpdate : Type 0 where
  fields : Fields → StateUpdate
  computed : (Fields → Result String Fields) → StateUpdate

pub data NodeOutcome : Type 0 where
  continue : (patch : Option StateUpdate) → NodeOutcome
  route : (route : String) (patch : Option StateUpdate) → NodeOutcome
  suspend : (reason : String) (patch : Option StateUpdate) → NodeOutcome
  terminate : (result : Json) (patch : Option StateUpdate) → NodeOutcome
  fail : (error : String) (retryable : Bool) → NodeOutcome

pub record NodeExecution : Type 0 where
  pub outcome : NodeOutcome
  pub tokens : Option ℕ
  pub cost_micros : Option ℕ
