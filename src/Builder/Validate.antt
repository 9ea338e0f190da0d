-- ===== src/Builder/Validate.antt =====
-- packages/agents/src/builder/index.ts: `validateDefinition`.
pub mod Sound
use knolo_agents.Base.{
  ℕ, String, ◌≤◌, ◌<◌, Bool, true, false, not, ◌&&◌, ◌||◌, List, [], ◌∷◌, ◌++◌, map, if◌then◌else◌,
  ltb, leb, eqb, length, any, includes, unique, Result, ok, ◌>>◌, require,
}
use knolo_agents.Base.Text.{◌^^◌}
use knolo_agents.Contracts.{ExecutionLimits, NodeDefinition, TransitionDefinition, GraphDefinition}
use knolo_agents.Builder.Errors.{
  DefinitionError, unsupported_graph_version, limits_not_positive, duplicate_node_id,
  entry_not_declared, no_terminal_node, endpoint_not_declared, duplicate_route, unreachable_node,
}
use knolo_agents.Builder.Identifier.{assert_identifier}
use knolo_agents.Builder.Reach.{reach}

-- Number.MAX_SAFE_INTEGER
abbrev pub max_safe_integer : ℕ
max_safe_integer = 9007199254740991

-- Number.isSafeInteger(n) && n > 0
abbrev pub is_positive_safe : ℕ → Bool
is_positive_safe n = leb n max_safe_integer && ltb 0 n

abbrev pub node_ids : GraphDefinition → List String
node_ids g = map (λ (n : NodeDefinition). n.id) g.nodes

-- `${t.from}\0${t.route}`
abbrev pub route_key : TransitionDefinition → String
route_key t = t.from ^^ ("\0" ^^ t.route)

-- The loop over the transitions: their ends are declared, and no route is taken twice.
unfoldable pub check_transitions :
    List String → List String → List TransitionDefinition → Result DefinitionError (Unit {0})
check_transitions ids routes [] = ok tt
check_transitions ids routes (t ∷ ts) =
    require (includes ids t.from && includes ids t.to) endpoint_not_declared
    >> require (not (includes routes (route_key t))) duplicate_route
    >> check_transitions ids (routes ++ route_key t ∷ []) ts

unfoldable pub check_limits : ExecutionLimits → Bool
check_limits l = is_positive_safe l.max_steps && is_positive_safe l.timeout_ms

unfoldable pub validate_definition : GraphDefinition → Result DefinitionError (Unit {0})
validate_definition g =
    assert_identifier g.id "graph id"
    >> (require (eqb g.version 1) unsupported_graph_version
        >> (require (check_limits g.limits) limits_not_positive
            >> (require (eqb (length (unique (node_ids g))) (length g.nodes)) duplicate_node_id
                >> (require (includes (unique (node_ids g)) g.entry) entry_not_declared
                    >> (require (any (λ (n : NodeDefinition). n.terminal) g.nodes) no_terminal_node
                        >> (check_transitions (unique (node_ids g)) [] g.transitions
                            >> require
                                (eqb (length (reach g.transitions g.entry))
                                  (length (unique (node_ids g))))
                                unreachable_node))))))
