-- ===== src/Base/Distinct.antt =====
-- Lists of text with no repetition, and counting by inclusion.
use Prim.Native.Nat.{suc, ◌+◌, ◌≤◌}
use Prim.Native.String.{String}
use mathlib.Core.Path.{◌≡◌, refl, sym, ◌∙◌}
use mathlib.Core.Logic.{inl, inr}
use mathlib.Core.Bool.{false}
use mathlib.Core.List.{List, [], ◌∷◌, ◌++◌, append-nil, append_assoc}
use native.Mathlib.Omega.{arith}
use text.Mathlib.Text.{◌==◌}
use text.Mathlib.TextEquality.{eq_iff}
use knolo_agents.Base.Tests.{if◌then◌else◌, Bool-cases, str_eq_refl}
use knolo_agents.Base.Lists.{length, length-append}
use knolo_agents.Base.Sets.{
  includes, In, Subset, In-head, In-cons, includes-append, add_to_set, unique_from, unique,
}

abbrev pub Distinct : List String → Type 0
Distinct [] = Unit
Distinct (x ∷ xs) = (includes xs x ≡ false) × Distinct xs

-- The elements but one occurrence of `x`.
without : String → List String → List String
without x [] = []
without x (y ∷ ys) = if y == x then ys else y ∷ without x ys

length-without : (x : String) (ys : List String) → In x ys → suc (length (without x ys)) ≡ length ys
unfolding without
length-without x [] h = cc
length-without x (y ∷ ys) h = ground (arith, length-without x ys)

In-without : (x z : String) (ys : List String) → In z ys → (x == z) ≡ false → In z (without x ys)
unfolding without
In-without x z [] h n = cc
In-without x z (y ∷ ys) h n = ground (arith, In-without x z ys, eq_iff y z, eq_iff y x, eq_iff x z)

differs : (x z : String) (xs : List String) → includes xs x ≡ false → In z xs → (x == z) ≡ false
differs x z xs n m = elim (Bool-cases (x == z)) [ inl e ↦ cc (n, m, (eq_iff x z).0 e) | inr d ↦ d ]

-- Distinct elements of a list are at most as many as the list has.
pub length-le_of_Subset : (xs ys : List String) → Distinct xs → Subset xs ys → length xs ≤ length ys
length-le_of_Subset [] ys d h = omega arith
length-le_of_Subset (x ∷ xs) ys d h = omega (
  arith,
  length-without x ys (h x (In-head x xs)),
  length-le_of_Subset xs (without x ys) d.1
      (λ z m. In-without x z ys (h z (In-cons x z xs m)) (differs x z xs d.0 m)),
)

-- As many distinct elements as the list has are all of it.
pub Subset_of_length :
    (xs ys : List String) → Distinct xs → Subset xs ys → length xs ≡ length ys → Subset ys xs
Subset_of_length xs ys d h e y m = elim (Bool-cases (includes xs y)) [
  | inl i ↦ i
  | inr n ↦ absurd (
      omega (
        arith,
        length-le_of_Subset (y ∷ xs) ys (n, d)
            (λ z k. elim (Bool-cases (y == z)) [
              | inl same ↦ rw (← (eq_iff y z).0 same) m
              | inr other ↦ h z (ground arith)
            ]),
      ))
]

pub Distinct-snoc :
    (xs : List String) (x : String) → Distinct xs → includes xs x ≡ false → Distinct (xs ++ x ∷ [])
Distinct-snoc [] x d n = (refl, tt)
Distinct-snoc (y ∷ xs) x d n = (
  ground (arith, includes-append xs (x ∷ []) y, eq_iff x y, eq_iff y x),
  Distinct-snoc xs x d.1 (ground arith),
)

add_to_set-Distinct : (s : List String) (x : String) → Distinct s → Distinct (add_to_set s x)
add_to_set-Distinct s x d = elim (Bool-cases (includes s x)) [
  | inl old ↦ rw old d
  | inr new ↦ rw new (Distinct-snoc s x d new)
]

unique_from-Distinct : (s xs : List String) → Distinct s → Distinct (unique_from s xs)
unfolding unique_from
unique_from-Distinct s [] d = d
unique_from-Distinct s (x ∷ xs) d =
    unique_from-Distinct (add_to_set s x) xs (add_to_set-Distinct s x d)

-- A set has no repetition.
pub unique-Distinct : (xs : List String) → Distinct (unique xs)
unfolding unique
unique-Distinct xs = unique_from-Distinct [] xs tt

length-unique_from-le : (s xs : List String) → length (unique_from s xs) ≤ length s + length xs
unfolding unique_from
length-unique_from-le s [] = omega arith
length-unique_from-le s (x ∷ xs) = elim (Bool-cases (includes s x)) [
  | inl old ↦ rw old (omega (arith, length-unique_from-le s xs))
  | inr new ↦
      rw new (omega (arith, length-unique_from-le (s ++ x ∷ []) xs, length-append s (x ∷ [])))
]

-- Each element is new when it is added to `s` and to those before it.
abbrev pub Fresh : List String → List String → Type 0
Fresh s [] = Unit
Fresh s (x ∷ xs) = (includes s x ≡ false) × Fresh (s ++ x ∷ []) xs

Fresh-length : (s xs : List String) → length (unique_from s xs) ≡ length s + length xs → Fresh s xs
unfolding unique_from
Fresh-length s [] h = tt
Fresh-length s (x ∷ xs) h = elim (Bool-cases (includes s x)) [
  | inl old ↦
      let e : length (unique_from s xs) ≡ length s + length (x ∷ xs) = rw (old, unique_from) at h in
      absurd (omega (arith, length-unique_from-le s xs))
  | inr new ↦
      let e : length (unique_from (s ++ x ∷ []) xs) ≡ length s + length (x ∷ xs) =
        rw (new, unique_from) at h in
      (new, Fresh-length (s ++ x ∷ []) xs (omega (arith, length-append s (x ∷ []))))
]

Fresh-apart : (s xs : List String) (x : String) → Fresh s xs → In x xs → includes s x ≡ false
Fresh-apart s [] x f m = cc
Fresh-apart s (y ∷ xs) x f m =
    ground (arith, Fresh-apart (s ++ y ∷ []) xs x f.1, includes-append s (y ∷ []) x, eq_iff y x)

Fresh-Distinct : (s xs : List String) → Fresh s xs → Distinct xs
Fresh-Distinct s [] f = tt
Fresh-Distinct s (x ∷ xs) f = (
  elim (Bool-cases (includes xs x)) [
    | inl m ↦ cc (Fresh-apart (s ++ x ∷ []) xs x f.1 m, includes-append_last s x)
    | inr n ↦ n
  ],
  Fresh-Distinct (s ++ x ∷ []) xs f.1,
)
  where
    includes-append_last : (s : List String) (x : String) → In x (s ++ x ∷ [])
    includes-append_last s x = ground (arith, includes-append s (x ∷ []) x, str_eq_refl x)

-- `ids.size === xs.length` says that nothing is repeated.
pub Distinct-length : (xs : List String) → length (unique xs) ≡ length xs → Distinct xs
unfolding unique
Distinct-length xs h = Fresh-Distinct [] xs (Fresh-length [] xs (omega (arith, h)))

unique_from_of_Distinct :
    (s xs : List String)
    → Distinct xs
    → ((x : String) → In x xs → includes s x ≡ false)
    → unique_from s xs ≡ s ++ xs
unfolding unique_from
unique_from_of_Distinct s [] d h = sym (append-nil s)
unique_from_of_Distinct s (x ∷ xs) d h = rw (h x (In-head x xs)) (
    unique_from_of_Distinct (s ++ x ∷ []) xs d.1 (λ y m.
      ground (arith, includes-append s (x ∷ []) y, h y (In-cons x y xs m), differs x y xs d.0 m))
    ∙ append_assoc s (x ∷ []) xs)

-- A list with no repetition is its own set.
pub unique_of_Distinct : (xs : List String) → Distinct xs → unique xs ≡ xs
unfolding unique
unique_of_Distinct xs d = unique_from_of_Distinct [] xs d (λ x m. refl)

pub Distinct-Fresh : (xs : List String) → Fresh [] xs → Distinct xs
Distinct-Fresh xs = Fresh-Distinct [] xs

pub Fresh-Distinct_apart :
    (s xs : List String)
    → Distinct xs
    → ((x : String) → In x xs → includes s x ≡ false)
    → Fresh s xs
Fresh-Distinct_apart s [] d h = tt
Fresh-Distinct_apart s (x ∷ xs) d h = (
  h x (In-head x xs),
  Fresh-Distinct_apart (s ++ x ∷ []) xs d.1 (λ y m.
      ground (arith, includes-append s (x ∷ []) y, h y (In-cons x y xs m), differs x y xs d.0 m)),
)
