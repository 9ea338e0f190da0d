-- ===== src/Capabilities/Authority/Narrows.antt =====
-- An effective authority is the intersection of the grants, and is never more than any of them.
use knolo_agents.Base.{
  String, ◌≡◌, refl, ◌↔◌, Bool, true, false, List, [], ◌∷◌, map, every, filter, includes, In,
  In-filter, All, arith, if◌then◌else◌,
}
use knolo_agents.Base.Sort.{unique_sorted-In}
use knolo_agents.Capabilities.Authority.{
  AuthorityGrant, EffectiveAuthority, AuthorityParts, intersect_lists, grants_of, grant_namespaces,
  lacks_tools, intersect_authority,
}

-- The text stands in every list, and there is a list.
abbrev pub InAll : String → List (List String) → Type 0
InAll x [] = ⊥
InAll x (xs ∷ rest) = In x xs × All (λ list. In x list) rest

every-In :
    (x : String) (ls : List (List String))
    → (every (λ list. includes list x) ls ≡ true) ↔ All (λ list. In x list) ls
every-In x [] = (λ h. tt, λ h. refl)
every-In x (l ∷ ls) =
    let (there, back) = every-In x ls in
    (λ h. (ground arith, there (ground arith)), λ h. ground (arith, back h.1))

intersect_lists-In : (x : String) (ls : List (List String)) → In x (intersect_lists ls) ↔ InAll x ls
unfolding intersect_lists
intersect_lists-In x [] = (λ h. cc, λ h. absurd h)
intersect_lists-In x (l ∷ ls) =
    let (there, back) = every-In x ls in
    let kept = In-filter (λ i. every (λ list. includes list i) ls) l x in
    let sorted = unique_sorted-In (filter (λ i. every (λ list. includes list i) ls) l) x in
    (λ h. (ground arith, there (ground arith)), λ h. ground (arith, back h.1))

-- What all of the parts that are given grant, in each of the three lists.
pub record Intersects (parts : AuthorityParts) (a : EffectiveAuthority) : Type 0 where
  pub capabilities_meet :
      (x : String)
      → In x a.capabilities
        ↔ InAll x (map (λ (g : AuthorityGrant). g.capabilities) (grants_of parts))
  pub tools_meet :
      (x : String)
      → In x a.tools ↔ (
          (lacks_tools parts.agent ≡ false)
          × InAll x (map (λ (g : AuthorityGrant). g.tools) (grants_of parts)))
  pub namespaces_meet :
      (x : String) → In x a.namespaces ↔ InAll x (map grant_namespaces (grants_of parts))

tools_iff :
    (lacks : Bool) (x : String) (ls : List (List String))
    → In x (if lacks then [] else intersect_lists ls) ↔ ((lacks ≡ false) × InAll x ls)
tools_iff true x ls = (λ h. cc, λ h. cc (h.0))
tools_iff false x ls =
    (λ h. (refl, (intersect_lists-In x ls).0 h), λ h. (intersect_lists-In x ls).1 h.1)

-- The effective authority holds exactly what every grant that is given holds, nothing where no grant
-- is given, and no tool where the adapter cannot gate tools.
pub intersect_authority-Intersects :
    (parts : AuthorityParts) → Intersects parts (intersect_authority parts)
unfolding intersect_authority
intersect_authority-Intersects parts = record {
  capabilities_meet = λ x. intersect_lists-In x _;
  tools_meet = λ x. tools_iff (lacks_tools parts.agent) x _;
  namespaces_meet = λ x. intersect_lists-In x _;
}
