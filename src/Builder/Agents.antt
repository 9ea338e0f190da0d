-- ===== src/Builder/Agents.antt =====
-- What an agent that `defineAgent` or `compile` returned satisfies.
use mathlib.Core.Path.{subst}
use knolo_agents.Base.{
  String, ◌≡◌, ◌≢◌, refl, ap, false, not, Option, none, some, List, [], ◌∷◌, ◌++◌, map, ◌==◌, any,
  includes, In, Subset, ok, arith, inl, inr, Bool-cases, All, eq_iff,
}
use knolo_agents.Contracts.{NodeDefinition, GraphDefinition, StateSchema}
use knolo_agents.Builder.{
  NodeSpec, AgentConfig, AgentDefinition, PackReference, NodeHandler, check_agent, check_built,
  build_agent, define_agent, compile, exceeds, pack_capabilities, collect_handlers, set_handler,
  spec_definition,
}
use knolo_agents.Builder.Validate.{node_ids}
use knolo_agents.Builder.Validate.Sound.{IsValidGraph, validate_definition_iff}
use knolo_agents.Builder.State.Conforms.{schema_paths, validate_graph_state_paths_iff}

-- What the three checks establish.
pub record IsSoundAgent (graph : GraphDefinition) (schema : StateSchema)
    (capabilities : List String) (granted : Option (List String)) : Type 0 where
  pub valid : IsValidGraph graph
  pub paths_declared :
      All
        (λ (n : NodeDefinition). All (λ path. In path (schema_paths schema)) (n.reads ++ n.writes))
        graph.nodes
  pub within_pack : (g : List String) → granted ≡ some g → Subset capabilities g

exceeds-Subset :
    (capabilities g : List String)
    → any (λ c. not (includes g c)) capabilities ≡ false
    → Subset capabilities g
exceeds-Subset [] g h x m = cc
exceeds-Subset (c ∷ cs) g h x m = elim (Bool-cases (c == x)) [
  | inl e ↦ ground (arith, eq_iff c x)
  | inr n ↦ exceeds-Subset cs g (ground arith) x (ground arith)
]

within_pack_of :
    (capabilities : List String) (granted : Option (List String))
    → exceeds capabilities granted ≡ false
    → (g : List String) → granted ≡ some g
    → Subset capabilities g
unfolding exceeds
within_pack_of capabilities none h g e x m = cc
within_pack_of capabilities (some g') h g e x m =
    ground (arith, exceeds-Subset capabilities g' h x m)

check_agent_sound :
    (graph : GraphDefinition) (schema : StateSchema) (capabilities : List String)
    (pack : Option PackReference)
    → check_agent graph schema capabilities pack ≡ ok tt
    → IsSoundAgent graph schema capabilities (pack_capabilities pack)
unfolding check_agent
check_agent_sound graph schema capabilities pack h = record {
  valid = (validate_definition_iff graph).0 (ground arith);
  paths_declared = (validate_graph_state_paths_iff graph schema).0 (ground arith);
  within_pack = within_pack_of capabilities (pack_capabilities pack) (ground arith);
}

define_agent-eq-ok :
    (config : AgentConfig) {d : AgentDefinition}
    → define_agent config ≡ ok d
    → (check_built (build_agent config) ≡ ok tt) × (build_agent config ≡ d)
unfolding define_agent
define_agent-eq-ok config h = (ground arith, ground arith)

-- Whatever `defineAgent` returns has a well-formed graph whose nodes read and write only paths of
-- the schema, and needs no capability beyond those that its pack lists.
pub define_agent-IsSoundAgent :
    (config : AgentConfig) (d : AgentDefinition)
    → define_agent config ≡ ok d
    → IsSoundAgent d.graph d.schema d.capabilities (pack_capabilities d.pack)
define_agent-IsSoundAgent config d h =
    let (checked, built) = define_agent-eq-ok config h in
    check_agent_sound d.graph d.schema d.capabilities d.pack
      (subst (λ (a : AgentDefinition). check_built a ≡ ok tt) built checked)

-- Compiling what `defineAgent` returned never fails, and adds only the hash.
pub compile-define_agent :
    (hash : GraphDefinition → String) (config : AgentConfig) (d : AgentDefinition)
    → define_agent config ≡ ok d
    → compile hash d ≡ ok (record { definition = d; hash = hash d.graph })
unfolding compile
compile-define_agent hash config d h =
    let (checked, built) = define_agent-eq-ok config h in
    rw (subst (λ (a : AgentDefinition). check_built a ≡ ok tt) built checked)

collect_keeps :
    (items : List NodeSpec) (handlers : String → Option NodeHandler) (key : String)
    → handlers key ≢ none
    → collect_handlers items handlers key ≢ none
unfolding collect_handlers set_handler
collect_keeps [] handlers key h = h
collect_keeps (n ∷ ns) handlers key h =
    collect_keeps ns (set_handler n.handler n.id handlers) key (λ e. ground arith)

collect_finds :
    (items : List NodeSpec) (handlers : String → Option NodeHandler) (key : String)
    → All (λ (n : NodeSpec). n.handler ≢ none) items
    → In key (map (λ (n : NodeSpec). n.id) items)
    → collect_handlers items handlers key ≢ none
unfolding collect_handlers set_handler
collect_finds [] handlers key a m = cc
collect_finds (n ∷ ns) handlers key a m = elim (Bool-cases (n.id == key)) [
  | inl e ↦ collect_keeps ns (set_handler n.handler n.id handlers) key (λ e'. a.0 (ground arith))
  | inr e ↦ collect_finds ns (set_handler n.handler n.id handlers) key a.1 (ground arith)
]

ids_of_specs :
    (ns : List NodeSpec)
    → map (λ (n : NodeDefinition). n.id) (map spec_definition ns) ≡ map (λ (n : NodeSpec). n.id) ns
unfolding spec_definition
ids_of_specs [] = refl
ids_of_specs (n ∷ ns) = ap (λ xs. n.id ∷ xs) (ids_of_specs ns)

-- Every node of a defined agent has its handler, if every node was given one.
pub define_agent-handlers :
    (config : AgentConfig) (d : AgentDefinition) (id : String)
    → define_agent config ≡ ok d
    → All (λ (n : NodeSpec). n.handler ≢ none) config.nodes
    → In id (node_ids d.graph)
    → d.handlers id ≢ none
unfolding build_agent
define_agent-handlers config d id h all m =
    let (checked, built) = define_agent-eq-ok config h in
    subst (λ (a : AgentDefinition). In id (node_ids a.graph) → a.handlers id ≢ none) built
      (λ k. collect_finds config.nodes (λ i. none) id all (rw (ids_of_specs config.nodes) at k)) m
