-- ===== src/Builder/State/Typed.antt =====
-- What a state that passes `validateState` satisfies, by what is read at each path and its type.
use mathlib.Core.Path.{subst}
use knolo_agents.Base.{
  ℕ, String, Bool, ◌≡◌, refl, ◌∙◌, ◌↔◌, ◌≢◌, ◌⊎◌, inl, inr, Option, none, some, List, [], ◌∷◌, ok,
  All,
}
use knolo_agents.Base.Text.{path_segments}
use knolo_agents.Contracts.{
  ValueType, StateSchema, null_type, bool_type, number_type, string_type, array_type, object_type,
}
use knolo_agents.Contracts.Values.{
  Json, null, bool, number, string, array, object, Fields, Items, lookup,
}
use knolo_agents.Builder.State.{
  Found, undefined, json, other, Language, read_key, read_from, read_path, or_inherited, value_type,
  validate_state,
}
use knolo_agents.Builder.State.Conforms.{HasType, Conforms, validate_state-Conforms_iff}

-- A JSON value of a type.
abbrev pub IsOfType : ValueType → Found → Type 0
IsOfType null_type v = v ≡ json null
IsOfType bool_type v = (b : Bool) × (v ≡ json (bool b))
IsOfType number_type v = (n : Bool) × (d : ℕ) × (e : ℕ) × (v ≡ json (number n d e))
IsOfType string_type v = (s : String) × (v ≡ json (string s))
IsOfType array_type v = (xs : Items) × (v ≡ json (array xs))
IsOfType object_type v = (o : Fields) × (v ≡ json (object o))

-- What a property of a value is: nothing, for nothing and for null; of an object its own field, or what the
-- language supplies; of another value what the language supplies.
abbrev pub HasProperty : Language → Found → String → Found → Type 0
HasProperty js undefined key u = u ≡ undefined
HasProperty js (json null) key u = u ≡ undefined
HasProperty js (json (object o)) key u =
    ((v : Json) × (lookup key o ≡ some v) × (u ≡ json v))
    ⊎ ((lookup key o ≡ none) × (u ≡ js.inherited key))
HasProperty js v key u = u ≡ js.built_in v key

-- What is reached from a value by the keys of a path, one after the other.
abbrev pub Reaches : Language → Found → List String → Found → Type 0
Reaches js v [] w = w ≡ v
Reaches js v (key ∷ path) w = (u : Found) × HasProperty js v key u × Reaches js u path w

-- Every required path leads to something, and every path of the schema to nothing or to a JSON value of
-- its type.
pub record IsTyped (js : Language) (schema : StateSchema) (value : Fields) : Type 0 where
  pub has_required :
      All
        (λ path.
          (v : Found) × Reaches js (json (object value)) (path_segments path) v × (v ≢ undefined))
        schema.required
  pub has_types :
      All
        (λ (p : String × ValueType).
          (v : Found) × Reaches js (json (object value)) (path_segments p.0) v
          × ((v ≡ undefined) ⊎ IsOfType p.1 v))
        schema.paths

or_inherited_iff :
    (js : Language) (key : String) (found : Option Json) (u : Found)
    → (u ≡ or_inherited js key found)
      ↔ (((v : Json) × (found ≡ some v) × (u ≡ json v)) ⊎ ((found ≡ none) × (u ≡ js.inherited key)))
unfolding or_inherited
or_inherited_iff js key none u =
    (λ h. inr (refl, h), λ h. elim h [ inl (v, p, q) ↦ cc p | inr (p, q) ↦ q ])
or_inherited_iff js key (some x) u =
    (λ h. inl (x, refl, h), λ h. elim h [ inl (v, p, q) ↦ cc (p, q) | inr (p, q) ↦ cc p ])

read_key_iff :
    (js : Language) (v : Found) (key : String) (u : Found)
    → (u ≡ read_key js v key) ↔ HasProperty js v key u
unfolding read_key
read_key_iff js undefined key u = (λ h. h, λ h. h)
read_key_iff js other key u = (λ h. h, λ h. h)
read_key_iff js (json null) key u = (λ h. h, λ h. h)
read_key_iff js (json (bool b)) key u = (λ h. h, λ h. h)
read_key_iff js (json (number n d e)) key u = (λ h. h, λ h. h)
read_key_iff js (json (string s)) key u = (λ h. h, λ h. h)
read_key_iff js (json (array xs)) key u = (λ h. h, λ h. h)
read_key_iff js (json (object o)) key u = or_inherited_iff js key (lookup key o) u

read_from_iff :
    (js : Language) (v : Found) (path : List String) (w : Found)
    → (w ≡ read_from js v path) ↔ Reaches js v path w
unfolding read_from
read_from_iff js v [] w = (λ h. h, λ h. h)
read_from_iff js v (key ∷ path) w = (
  λ h. (
    read_key js v key,
    (read_key_iff js v key (read_key js v key)).0 refl,
    (read_from_iff js (read_key js v key) path w).0 h,
  ),
  λ (u, p, r).
      let same : u ≡ read_key js v key = (read_key_iff js v key u).1 p in
      subst (λ k. w ≡ read_from js k path) same ((read_from_iff js u path w).1 r),
)

value_type-IsOfType : (type : ValueType) (v : Found) → value_type v ≡ ok type → IsOfType type v
unfolding value_type
value_type-IsOfType type (json null) h =
    let same : null_type ≡ type = cc h in subst (λ t. IsOfType t (json null)) same refl
value_type-IsOfType type (json (bool b)) h =
    let same : bool_type ≡ type = cc h in subst (λ t. IsOfType t (json (bool b))) same (b, refl)
value_type-IsOfType type (json (number n d e)) h =
    let same : number_type ≡ type = cc h in
    subst (λ t. IsOfType t (json (number n d e))) same (n, d, e, refl)
value_type-IsOfType type (json (string s)) h =
    let same : string_type ≡ type = cc h in subst (λ t. IsOfType t (json (string s))) same (s, refl)
value_type-IsOfType type (json (array xs)) h =
    let same : array_type ≡ type = cc h in subst (λ t. IsOfType t (json (array xs))) same (xs, refl)
value_type-IsOfType type (json (object o)) h =
    let same : object_type ≡ type = cc h in subst (λ t. IsOfType t (json (object o))) same (o, refl)
value_type-IsOfType type undefined h = cc h
value_type-IsOfType type other h = cc h

IsOfType-value_type : (type : ValueType) (v : Found) → IsOfType type v → value_type v ≡ ok type
unfolding value_type
IsOfType-value_type null_type v h = rw h refl
IsOfType-value_type bool_type v (b, h) = rw h refl
IsOfType-value_type number_type v (n, d, e, h) = rw h refl
IsOfType-value_type string_type v (s, h) = rw h refl
IsOfType-value_type array_type v (xs, h) = rw h refl
IsOfType-value_type object_type v (o, h) = rw h refl

value_type_iff : (type : ValueType) (v : Found) → (value_type v ≡ ok type) ↔ IsOfType type v
value_type_iff type v = (value_type-IsOfType type v, IsOfType-value_type type v)

module _ (js : Language) (value : Fields) where
  read_path-Reaches :
      (path : String)
      → Reaches js (json (object value)) (path_segments path) (read_path js value path)
  unfolding read_path
  read_path-Reaches path =
      (read_from_iff js (json (object value)) (path_segments path) (read_path js value path)).0 refl

  Reaches-read_path :
      (path : String) (v : Found)
      → Reaches js (json (object value)) (path_segments path) v
      → v ≡ read_path js value path
  unfolding read_path
  Reaches-read_path path v = (read_from_iff js (json (object value)) (path_segments path) v).1

  required_iff :
      (paths : List String)
      → All (λ path. read_path js value path ≢ undefined) paths
        ↔ All
            (λ path.
              (v : Found) × Reaches js (json (object value)) (path_segments path) v
              × (v ≢ undefined))
            paths
  required_iff [] = (λ h. tt, λ h. tt)
  required_iff (path ∷ paths) =
      let (there, back) = required_iff paths in
      (
        λ (n, rest). ((read_path js value path, read_path-Reaches path, n), there rest),
        λ ((v, r, n), rest). (λ e. n (Reaches-read_path path v r ∙ e), back rest),
      )

  types_iff :
      (paths : List (String × ValueType))
      → All (λ (p : String × ValueType). HasType p.1 (read_path js value p.0)) paths
        ↔ All
            (λ (p : String × ValueType).
              (v : Found) × Reaches js (json (object value)) (path_segments p.0) v
              × ((v ≡ undefined) ⊎ IsOfType p.1 v))
            paths
  types_iff [] = (λ h. tt, λ h. tt)
  types_iff ((path, type) ∷ paths) =
      let (there, back) = types_iff paths in
      let (typed, has_type) = value_type_iff type (read_path js value path) in
      (
        λ (t, rest). (
          (
            read_path js value path,
            read_path-Reaches path,
            elim t [ inl e ↦ inl e | inr q ↦ inr (typed q) ],
          ),
          there rest,
        ),
        λ ((v, r, t), rest). (
          subst (HasType type) (Reaches-read_path path v r)
              (elim t [ inl e ↦ inl e | inr q ↦ inr ((value_type_iff type v).1 q) ]),
          back rest,
        ),
      )

-- `validateState` returns normally exactly on the values in which every required path of the schema
-- leads to something, and every path of the schema leads to nothing or to a JSON value of its type;
-- where a path leads is by its segments, one property after the other.
pub validate_state_iff :
    (js : Language) (schema : StateSchema) (value : Fields)
    → (validate_state js schema value ≡ ok tt) ↔ IsTyped js schema value
validate_state_iff js schema value =
    let (conforms, passes) = validate_state-Conforms_iff js schema value in
    (
      λ h.
          let c : Conforms js schema value = conforms h in
          record {
            has_required = (required_iff js value schema.required).0 c.required_present;
            has_types = (types_iff js value schema.paths).0 c.types_match;
          },
      λ t. passes (record {
        required_present = (required_iff js value schema.required).1 t.has_required;
        types_match = (types_iff js value schema.paths).1 t.has_types;
      }),
    )
