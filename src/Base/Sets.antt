-- ===== src/Base/Sets.antt =====
-- Arrays and sets of text: `includes`, `new Set(...)`, subsets.
use Prim.Native.String.{String}
use mathlib.Core.Path.{◌≡◌, refl}
use mathlib.Core.Logic.{inl, inr}
use mathlib.Core.Bool.{Bool, true, false, ◌&&◌, ◌||◌}
use mathlib.Core.List.{List, [], ◌∷◌, ◌++◌}
use native.Mathlib.Omega.{arith}
use text.Mathlib.Text.{◌==◌}
use text.Mathlib.TextEquality.{eq_iff}
use knolo_agents.Base.Tests.{if◌then◌else◌, Bool-cases, str_eq_refl}
use knolo_agents.Base.Lists.{every, filter}

-- xs.includes(x), set.has(x)
abbrev pub includes : List String → String → Bool
includes [] x = false
includes (y ∷ ys) x = y == x || includes ys x

-- set.add(x): a set is the list of its elements in the order of insertion
abbrev pub add_to_set : List String → String → List String
add_to_set s x = if includes s x then s else s ++ x ∷ []

-- new Set(xs), and [...new Set(xs)]: the first of each value
unfoldable pub unique_from : List String → List String → List String
unique_from s [] = s
unique_from s (x ∷ xs) = unique_from (add_to_set s x) xs

unfoldable pub unique : List String → List String
unfolding unique_from
unique xs = unique_from [] xs

-- Membership, as a statement.
abbrev pub In : String → List String → Type 0
In x xs = includes xs x ≡ true

abbrev pub Subset : List String → List String → Type 0
Subset xs ys = (x : String) → In x xs → In x ys

pub includes-append :
    (xs ys : List String) (x : String) → includes (xs ++ ys) x ≡ (includes xs x || includes ys x)
includes-append [] ys x = refl
includes-append (y ∷ xs) ys x = ground (arith, includes-append xs ys x)

pub In-cons : (y x : String) (ys : List String) → In x ys → In x (y ∷ ys)
In-cons y x ys h = ground arith

pub In-head : (x : String) (xs : List String) → In x (x ∷ xs)
In-head x xs = ground (arith, str_eq_refl x)

-- every(x ⇒ ys.includes(x)) decides the subset relation.
pub every-includes→Subset : (xs ys : List String) → every (includes ys) xs ≡ true → Subset xs ys
every-includes→Subset [] ys h x m = cc
every-includes→Subset (z ∷ xs) ys h x m = elim (Bool-cases (z == x)) [
  | inl e ↦ ground (arith, eq_iff z x)
  | inr n ↦ every-includes→Subset xs ys (ground arith) x (ground arith)
]

pub Subset→every-includes : (xs ys : List String) → Subset xs ys → every (includes ys) xs ≡ true
Subset→every-includes [] ys h = refl
Subset→every-includes (z ∷ xs) ys h =
    ground (arith, h z (In-head z xs), Subset→every-includes xs ys (λ x m. h x (In-cons z x xs m)))

pub In-filter :
    (p : String → Bool) (xs : List String) (x : String)
    → includes (filter p xs) x ≡ (p x && includes xs x)
In-filter p [] x = ground arith
In-filter p (y ∷ xs) x = elim (Bool-cases (y == x)) [
  | inl e ↦ rw ((eq_iff y x).0 e) (ground (arith, In-filter p xs x, str_eq_refl x))
  | inr n ↦ ground (arith, In-filter p xs x)
]

add_to_set-In :
    (s : List String) (x y : String) → includes (add_to_set s x) y ≡ (includes s y || x == y)
add_to_set-In s x y = elim (Bool-cases (x == y)) [
  | inl e ↦ rw ((eq_iff x y).0 e) (ground (arith, includes-append s (y ∷ []) y, str_eq_refl y))
  | inr n ↦ ground (arith, includes-append s (x ∷ []) y)
]

unique_from-In :
    (s xs : List String) (y : String)
    → includes (unique_from s xs) y ≡ (includes s y || includes xs y)
unfolding unique_from
unique_from-In s [] y = ground arith
unique_from-In s (x ∷ xs) y =
    ground (arith, unique_from-In (add_to_set s x) xs y, add_to_set-In s x y)

-- A set has the elements that it was made from.
pub unique-In : (xs : List String) (y : String) → includes (unique xs) y ≡ includes xs y
unfolding unique
unique-In xs y = unique_from-In [] xs y
