-- ===== src/Evaluation/Suite/Declared.antt =====
-- What the tests of an evaluation accept, as statements.
use mathlib.Core.Path.{subst}
use knolo_agents.Base.{
  ℕ, ◌≤◌, String, Bool, true, false, Option, none, some, List, [], ◌∷◌, any, includes, ◌==◌, ◌≡◌,
  ◌↔◌, refl, sym, arith, str_eq→eq, str_eq_refl, Bool-cases, inl, inr, In, Subset,
  every-includes→Subset, Subset→every-includes,
}
use knolo_agents.Contracts.Values.{
  Json, null, bool, number, string, array, object, Fields, Items, lookup,
}
use knolo_agents.Evaluation.Suite.{
  within_budget, matches_schema, type_matches, is_object, is_array, is_string, tools_pass,
}

-- Where both are given, the tokens are at most the limit.
abbrev pub KeepsBudget : Option ℕ → Option ℕ → Type 0
KeepsBudget used limit =
    (tokens max_tokens : ℕ) → used ≡ some tokens → limit ≡ some max_tokens → tokens ≤ max_tokens

pub within_budget_iff :
    (used limit : Option ℕ) → (within_budget used limit ≡ true) ↔ KeepsBudget used limit
unfolding within_budget
within_budget_iff none limit = (λ h t m p q. cc p, λ k. refl)
within_budget_iff (some tokens) none = (λ h t m p q. cc q, λ k. refl)
within_budget_iff (some tokens) (some max_tokens) = (
  λ h t m p q. let same : tokens ≡ t = cc p in let bound : max_tokens ≡ m = cc q in ground arith,
  λ k. let fits : tokens ≤ max_tokens = k tokens max_tokens refl refl in ground arith,
)

-- A value of the type that the text names, where it names one of four.
pub record HasNamedType (name : String) (v : Json) : Type 0 where
  pub as_object : name ≡ "object" → (o : Fields) × (v ≡ object o)
  pub as_array : name ≡ "array" → (xs : Items) × (v ≡ array xs)
  pub as_string : name ≡ "string" → (s : String) × (v ≡ string s)
  pub as_number : name ≡ "number" → (n : Bool) × (d : ℕ) × (e : ℕ) × (v ≡ number n d e)

-- Where the schema is an object that names a type, the value has it.
abbrev pub KeepsSchema : Json → Option Json → Type 0
KeepsSchema v schema =
    (o : Fields) (name : String)
    → schema ≡ some (object o)
    → lookup "type" o ≡ some (string name)
    → HasNamedType name v

named_object :
    (v : Json) → type_matches (some (string "object")) v ≡ true → (o : Fields) × (v ≡ object o)
unfolding type_matches is_object
named_object (object o) h = (o, refl)
named_object null h = cc h
named_object (bool b) h = cc h
named_object (number n d e) h = cc h
named_object (string s) h = cc h
named_object (array xs) h = cc h

named_array :
    (v : Json) → type_matches (some (string "array")) v ≡ true → (xs : Items) × (v ≡ array xs)
unfolding type_matches is_array
named_array (array xs) h = (xs, refl)
named_array null h = cc h
named_array (bool b) h = cc h
named_array (number n d e) h = cc h
named_array (string s) h = cc h
named_array (object o) h = cc h

named_string :
    (v : Json) → type_matches (some (string "string")) v ≡ true → (s : String) × (v ≡ string s)
unfolding type_matches is_string
named_string (string s) h = (s, refl)
named_string null h = cc h
named_string (bool b) h = cc h
named_string (number n d e) h = cc h
named_string (array xs) h = cc h
named_string (object o) h = cc h

named_number :
    (v : Json)
    → type_matches (some (string "number")) v ≡ true
    → (n : Bool) × (d : ℕ) × (e : ℕ) × (v ≡ number n d e)
unfolding type_matches
named_number (number n d e) h = (n, d, e, refl)
named_number null h = cc h
named_number (bool b) h = cc h
named_number (string s) h = cc h
named_number (array xs) h = cc h
named_number (object o) h = cc h

type_matches-HasNamedType :
    (name : String) (v : Json) → type_matches (some (string name)) v ≡ true → HasNamedType name v
type_matches-HasNamedType name v h = record {
  as_object = λ q. named_object v (subst (λ k. type_matches (some (string k)) v ≡ true) q h);
  as_array = λ q. named_array v (subst (λ k. type_matches (some (string k)) v ≡ true) q h);
  as_string = λ q. named_string v (subst (λ k. type_matches (some (string k)) v ≡ true) q h);
  as_number = λ q. named_number v (subst (λ k. type_matches (some (string k)) v ≡ true) q h);
}

HasNamedType-type_matches :
    (name : String) (v : Json) → HasNamedType name v → type_matches (some (string name)) v ≡ true
unfolding type_matches is_object is_array is_string
HasNamedType-type_matches name v t = elim (Bool-cases (name == "object")) [
  | inl e ↦ let (o, q) = t.as_object (str_eq→eq name "object" e) in rw (e, q) refl
  | inr n ↦ elim (Bool-cases (name == "array")) [
    | inl e ↦ let (xs, q) = t.as_array (str_eq→eq name "array" e) in rw (n, e, q) refl
    | inr m ↦ elim (Bool-cases (name == "string")) [
      | inl e ↦ let (s, q) = t.as_string (str_eq→eq name "string" e) in rw (n, m, e, q) refl
      | inr k ↦ elim (Bool-cases (name == "number")) [
        | inl e ↦
            let (a, d, b, q) = t.as_number (str_eq→eq name "number" e) in rw (n, m, k, e, q) refl
        | inr l ↦ rw (n, m, k, l) refl
      ]
    ]
  ]
]

type_matches-eq :
    (v : Json) (type : Option Json)
    → ((name : String) → type ≡ some (string name) → HasNamedType name v)
    → type_matches type v ≡ true
unfolding type_matches
type_matches-eq v none k = refl
type_matches-eq v (some (string name)) k = HasNamedType-type_matches name v (k name refl)
type_matches-eq v (some null) k = refl
type_matches-eq v (some (bool b)) k = refl
type_matches-eq v (some (number n d e)) k = refl
type_matches-eq v (some (array xs)) k = refl
type_matches-eq v (some (object o)) k = refl

pub matches_schema_iff :
    (v : Json) (schema : Option Json) → (matches_schema v schema ≡ true) ↔ KeepsSchema v schema
unfolding matches_schema
matches_schema_iff v none = (λ h o n p q. cc p, λ k. refl)
matches_schema_iff v (some null) = (λ h o n p q. cc p, λ k. refl)
matches_schema_iff v (some (bool b)) = (λ h o n p q. cc p, λ k. refl)
matches_schema_iff v (some (number s d e)) = (λ h o n p q. cc p, λ k. refl)
matches_schema_iff v (some (string s)) = (λ h o n p q. cc p, λ k. refl)
matches_schema_iff v (some (array xs)) = (λ h o n p q. cc p, λ k. refl)
matches_schema_iff v (some (object o)) = (
  λ h own name p q.
      let same : o ≡ own = cc p in
      let named : lookup "type" o ≡ some (string name) =
        subst (λ k. lookup "type" k ≡ some (string name)) (sym same) q in
      type_matches-HasNamedType name v (subst (λ k. type_matches k v ≡ true) named h),
  λ k. type_matches-eq v (lookup "type" o) (λ name q. k o name refl q),
)

-- No tool that is used is prohibited, and every expected tool is used.
abbrev pub UsesTools : (used expected prohibited : List String) → Type 0
UsesTools used expected prohibited =
    ((tool : String) → In tool used → ¬ In tool prohibited) × Subset expected used

any-includes-false :
    (prohibited used : List String)
    → any (includes prohibited) used ≡ false
    → (tool : String) → In tool used
    → ¬ In tool prohibited
any-includes-false prohibited [] h tool m p = cc m
any-includes-false prohibited (x ∷ used) h tool m p = elim (Bool-cases (x == tool)) [
  | inl e ↦
      let at : includes prohibited x ≡ true =
        subst (λ k. includes prohibited k ≡ true) (sym (str_eq→eq x tool e)) p in
      ground arith
  | inr n ↦ any-includes-false prohibited used (ground arith) tool (ground arith) p
]

none_prohibited :
    (prohibited used : List String)
    → ((tool : String) → In tool used → ¬ In tool prohibited)
    → any (includes prohibited) used ≡ false
none_prohibited prohibited [] k = refl
none_prohibited prohibited (x ∷ used) k = elim (Bool-cases (includes prohibited x)) [
  | inl y ↦ absurd (k x (rw (str_eq_refl x) refl) y)
  | inr n ↦ rw n (none_prohibited prohibited used (λ tool m. k tool (ground arith)))
]

pub tools_pass_iff :
    (used expected prohibited : List String)
    → (tools_pass used expected prohibited ≡ true) ↔ UsesTools used expected prohibited
unfolding tools_pass
tools_pass_iff used expected prohibited = (
  λ h. (
    any-includes-false prohibited used (ground arith),
    every-includes→Subset expected used (ground arith),
  ),
  λ (clear, there).
      rw (none_prohibited prohibited used clear, Subset→every-includes expected used there) refl,
)
