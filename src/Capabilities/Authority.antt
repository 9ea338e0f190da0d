-- ===== src/Capabilities/Authority.antt =====
-- packages/agents/src/capabilities/authority.ts and packages/agents/src/capabilities/types.ts.
pub mod Narrows
use knolo_agents.Base.{
  String, Bool, true, false, not, ◌&&◌, ◌||◌, Option, none, some, List, [], ◌∷◌, ◌++◌, map, every,
  filter, includes, if◌then◌else◌,
}
use knolo_agents.Base.Sort.{unique_sorted}
use knolo_agents.Contracts.Values.{
  Json, null, bool, number, string, array, object, Items, nil, item, Fields, lookup,
}
use knolo_agents.Builder.{or_default}
use knolo_agents.Harness.Types.{AgentCapabilities}

pub record AuthorityGrant : Type 0 where
  pub capabilities : List String
  pub tools : List String
  pub namespaces : Option (List String)

pub record EffectiveAuthority : Type 0 where
  pub capabilities : List String
  pub tools : List String
  pub namespaces : List String

-- The texts of an array, if all of its items are texts.
all_strings : Items → Option (List String)
all_strings nil = some []
all_strings (item (string s) rest) = elim (all_strings rest) [
  | none ↦ none
  | some xs ↦ some (s ∷ xs)
]
all_strings (item v rest) = none

unfoldable pub as_string_array : Option Json → Option (List String)
unfolding all_strings
as_string_array (some (array items)) = all_strings items
as_string_array (some v) = none
as_string_array none = none

grant_of :
    Option (List String) → Option (List String) → Option (List String) → Option AuthorityGrant
grant_of none none none = none
grant_of capabilities tools namespaces = some (record {
  capabilities = unique_sorted (or_default capabilities []);
  tools = unique_sorted (or_default tools []);
  namespaces = some (unique_sorted (or_default namespaces []));
})

unfoldable pub parse_authority_grant : Option Json → Option AuthorityGrant
unfolding as_string_array grant_of lookup
parse_authority_grant (some (object o)) =
    grant_of (as_string_array (lookup "capabilities" o)) (as_string_array (lookup "tools" o))
      (as_string_array (lookup "namespaces" o))
parse_authority_grant _ = none

pub record AuthorityParts : Type 0 where
  pub parent : Option AuthorityGrant
  pub agent : Option AgentCapabilities
  pub host : Option AuthorityGrant
  pub policy : Option AuthorityGrant

unfoldable pub intersect_lists : List (List String) → List String
intersect_lists [] = []
intersect_lists (first ∷ rest) =
    unique_sorted (filter (λ i. every (λ list. includes list i) rest) first)

present : Option AuthorityGrant → List AuthorityGrant
present none = []
present (some g) = g ∷ []

unfoldable pub grants_of : AuthorityParts → List AuthorityGrant
unfolding present
grants_of parts = present parts.parent ++ (present parts.host ++ present parts.policy)

abbrev pub grant_namespaces : AuthorityGrant → List String
grant_namespaces g = or_default g.namespaces []

-- parts.agent && !parts.agent.tools
abbrev pub lacks_tools : Option AgentCapabilities → Bool
lacks_tools none = false
lacks_tools (some a) = not a.tools

unfoldable pub intersect_authority : AuthorityParts → EffectiveAuthority
unfolding grants_of intersect_lists unique_sorted
intersect_authority parts =
    let grants = grants_of parts in
    record {
      capabilities = intersect_lists (map (λ (g : AuthorityGrant). g.capabilities) grants);
      tools =
          if lacks_tools parts.agent
          then []
          else intersect_lists (map (λ (g : AuthorityGrant). g.tools) grants);
      namespaces = intersect_lists (map grant_namespaces grants);
    }
