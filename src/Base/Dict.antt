-- ===== src/Base/Dict.antt =====
-- JavaScript's `Map` with texts as keys: the entries in the order in which their keys came first.
use Prim.Native.String.{String}
use mathlib.Core.Path.{◌≡◌, refl}
use mathlib.Core.Logic.{◌⊎◌, inl, inr}
use mathlib.Core.Bool.{Bool, true, false, ◌||◌}
use mathlib.Core.Option.{Option, none, some}
use mathlib.Core.List.{List, [], ◌∷◌}
use native.Mathlib.Omega.{arith}
use text.Mathlib.Text.{◌==◌}
use text.Mathlib.TextEquality.{eq_iff}
use knolo_agents.Base.Tests.{if◌then◌else◌, Bool-cases, str_eq_refl}
use knolo_agents.Base.Lists.{Has}

abbrev pub Dict {ℓ} : Type ℓ → Type ℓ
Dict A = List (String × A)

-- map.get(key)
unfoldable pub get_key {ℓ} : {A : Type ℓ} → String → Dict A → Option A
get_key key [] = none
get_key key ((k, v) ∷ rest) = if k == key then some v else get_key key rest

-- map.set(key, value): a key that is there keeps its place.
unfoldable pub put_key {ℓ} : {A : Type ℓ} → String → A → Dict A → Dict A
put_key key value [] = (key, value) ∷ []
put_key key value ((k, v) ∷ rest) =
    let others = put_key key value rest in if k == key then (k, value) ∷ rest else (k, v) ∷ others

-- map.has(key)
unfoldable pub has_key {ℓ} : {A : Type ℓ} → String → Dict A → Bool
has_key key [] = false
has_key key ((k, v) ∷ rest) = k == key || has_key key rest

-- [...map.values()]
unfoldable pub dict_values {ℓ} : {A : Type ℓ} → Dict A → List A
dict_values [] = []
dict_values ((k, v) ∷ rest) = v ∷ dict_values rest

module _ {ℓ} {A : Type ℓ} where
  pub get_key-put_key :
      (key j : String) (value : A) (d : Dict A)
      → get_key j (put_key key value d) ≡ (if key == j then some value else get_key j d)
  unfolding get_key put_key
  get_key-put_key key j value [] = refl
  get_key-put_key key j value ((k, v) ∷ rest) =
      ground (arith, eq_iff k key, eq_iff k j, eq_iff key j, get_key-put_key key j value rest)

  pub get_key-put_key_same :
      (key : String) (value : A) (d : Dict A) → get_key key (put_key key value d) ≡ some value
  get_key-put_key_same key value d =
      ground (arith, get_key-put_key key key value d, str_eq_refl key)

  pub get_key-put_key_other :
      (key j : String) (value : A) (d : Dict A)
      → (key == j) ≡ false
      → get_key j (put_key key value d) ≡ get_key j d
  get_key-put_key_other key j value d n = ground (arith, get_key-put_key key j value d)

  pub has_key-eq-false : (key : String) (d : Dict A) → has_key key d ≡ false → get_key key d ≡ none
  unfolding has_key get_key
  has_key-eq-false key [] h = refl
  has_key-eq-false key ((k, v) ∷ rest) h = ground (arith, has_key-eq-false key rest)

  pub has_key-eq-true :
      (key : String) (d : Dict A) → has_key key d ≡ true → (v : A) × (get_key key d ≡ some v)
  unfolding has_key get_key
  has_key-eq-true key [] h = cc
  has_key-eq-true key ((k, v) ∷ rest) h = elim (Bool-cases (k == key)) [
    | inl e ↦ (v, rw e refl)
    | inr n ↦ let (w, found) = has_key-eq-true key rest (ground arith) in (w, rw (n, get_key) found)
  ]

-- A value that is found is one of the values.
pub get_key-Has :
    {A : Type 0} (key : String) (d : Dict A) {v : A}
    → get_key key d ≡ some v
    → Has v (dict_values d)
unfolding get_key dict_values
get_key-Has key [] h = cc
get_key-Has key ((k, w) ∷ rest) {v} h = elim (Bool-cases (k == key)) [
  | inl e ↦ inl (cc (rw (e, get_key) at h))
  | inr n ↦ inr (get_key-Has key rest (rw (n, get_key) at h))
]

-- A value after a put is the one that was put, or was there.
pub put_key-Has :
    {A : Type 0} (key : String) (value : A) (d : Dict A) (x : A)
    → Has x (dict_values (put_key key value d))
    → (value ≡ x) ⊎ Has x (dict_values d)
unfolding put_key dict_values
put_key-Has key value [] x (inl e) = inl e
put_key-Has key value [] x (inr h) = absurd h
put_key-Has key value ((k, v) ∷ rest) x h = elim (Bool-cases (k == key)) [
  | inl e ↦ elim (rw e at h) [ inl same ↦ inl same | inr m ↦ inr (inr m) ]
  | inr n ↦ elim (rw n at h) [
    | inl same ↦ inr (inl same)
    | inr m ↦ elim (put_key-Has key value rest x m) [
      | inl same ↦ inl same
      | inr old ↦ inr (inr old)
    ]
  ]
]
