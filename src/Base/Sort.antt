-- ===== src/Base/Sort.antt =====
-- Sorting: `sort(compare)` for a consistent comparison (stable, as the language requires), and the
-- default order of text, by UTF-16 code units.
use knolo_agents.Base.Text.{codes}
use Prim.Native.Nat.{ℕ, ◌+◌, ◌-◌, ◌/◌, ◌%◌}
use Prim.Native.String.{String}
use mathlib.Core.Path.{◌≡◌, refl}
use mathlib.Core.Logic.{inl, inr, ◌⊎◌, ◌↔◌}
use mathlib.Core.Bool.{Bool, true, false, ◌&&◌, ◌||◌}
use mathlib.Core.List.{List, [], ◌∷◌, ◌++◌, Perm}
use mathlib.Core.List.Perm
use native.Mathlib.Omega.{arith}
use knolo_agents.Base.Tests.{if◌then◌else◌, Bool-cases, ltb, leb, eqb}
use knolo_agents.Base.Lists.{All, Has}
use knolo_agents.Base.Sets.{includes, unique, unique-In}

-- The code units of a code point.
units : ℕ → List ℕ
units c =
    if leb 65536 c then (55296 + (c - 65536) / 1024) ∷ (56320 + (c - 65536) % 1024) ∷ [] else c ∷ []

flat_units : List ℕ → List ℕ
unfolding units
flat_units [] = []
flat_units (c ∷ cs) = units c ++ flat_units cs

unfoldable pub utf16 : String → List ℕ
unfolding flat_units codes
utf16 s = flat_units (codes s)

-- The order of lists of numbers by their first difference.
unfoldable pub lex_le : List ℕ → List ℕ → Bool
lex_le [] ys = true
lex_le (x ∷ xs) [] = false
lex_le (x ∷ xs) (y ∷ ys) = ltb x y || (eqb x y && lex_le xs ys)

unfoldable pub text_le : String → String → Bool
unfolding utf16 lex_le
text_le s t = lex_le (utf16 s) (utf16 t)

lex_le_total : (xs ys : List ℕ) → (lex_le xs ys ≡ true) ⊎ (lex_le ys xs ≡ true)
unfolding lex_le
lex_le_total [] ys = inl refl
lex_le_total (x ∷ xs) [] = inr refl
lex_le_total (x ∷ xs) (y ∷ ys) = ground (arith, lex_le_total xs ys)

lex_le_trans : (xs ys zs : List ℕ) → lex_le xs ys ≡ true → lex_le ys zs ≡ true → lex_le xs zs ≡ true
unfolding lex_le
lex_le_trans [] ys zs h g = refl
lex_le_trans (x ∷ xs) [] zs h g = cc
lex_le_trans (x ∷ xs) (y ∷ ys) [] h g = cc
lex_le_trans (x ∷ xs) (y ∷ ys) (z ∷ zs) h g = ground (arith, lex_le_trans xs ys zs)

module _ {ℓ} {A : Type ℓ} (le : A → A → Bool) where
  -- Insertion after the elements that are not greater, so equal elements keep their order.
  insert_sorted : A → List A → List A
  insert_sorted x [] = x ∷ []
  insert_sorted x (y ∷ ys) = if le x y then x ∷ y ∷ ys else y ∷ insert_sorted x ys

  unfoldable pub sort_by : List A → List A
  unfolding insert_sorted
  sort_by [] = []
  sort_by (x ∷ xs) = insert_sorted x (sort_by xs)

  insert_sorted-perm : (x : A) (ys : List A) → Perm (insert_sorted x ys) (x ∷ ys)
  unfolding insert_sorted
  insert_sorted-perm x [] = Perm.refl (x ∷ [])
  insert_sorted-perm x (y ∷ ys) = elim (Bool-cases (le x y)) [
    | inl e ↦ rw e (Perm.refl (x ∷ y ∷ ys))
    | inr e ↦ rw e (Perm.trans (Perm.cons y (insert_sorted-perm x ys)) (Perm.swap x y ys))
  ]

  -- Sorting only reorders.
  pub sort_by-perm : (xs : List A) → Perm (sort_by xs) xs
  unfolding sort_by
  sort_by-perm [] = Perm.refl []
  sort_by-perm (x ∷ xs) =
      Perm.trans (insert_sorted-perm x (sort_by xs)) (Perm.cons x (sort_by-perm xs))

  -- Each element is at most those behind it.
  abbrev pub IsSorted : List A → Type 0
  IsSorted [] = Unit
  IsSorted (x ∷ xs) = All (λ y. le x y ≡ true) xs × IsSorted xs

  module _ (total : (x y : A) → (le x y ≡ true) ⊎ (le y x ≡ true))
      (trans : (x y z : A) → le x y ≡ true → le y z ≡ true → le x z ≡ true) where
    All-insert_sorted :
        (z x : A) (ys : List A)
        → le z x ≡ true
        → All (λ y. le z y ≡ true) ys
        → All (λ y. le z y ≡ true) (insert_sorted x ys)
    unfolding insert_sorted
    All-insert_sorted z x [] h a = (h, tt)
    All-insert_sorted z x (y ∷ ys) h a = elim (Bool-cases (le x y)) [
      | inl e ↦ rw e (h, a)
      | inr e ↦ rw e (a.0, All-insert_sorted z x ys h a.1)
    ]

    All-le :
        (x y : A) (ys : List A)
        → le x y ≡ true
        → All (λ z. le y z ≡ true) ys
        → All (λ z. le x z ≡ true) ys
    All-le x y [] h a = tt
    All-le x y (z ∷ zs) h a = (trans x y z h a.0, All-le x y zs h a.1)

    insert_sorted-IsSorted : (x : A) (ys : List A) → IsSorted ys → IsSorted (insert_sorted x ys)
    unfolding insert_sorted
    insert_sorted-IsSorted x [] s = (tt, tt)
    insert_sorted-IsSorted x (y ∷ ys) s = elim (Bool-cases (le x y)) [
      | inl e ↦ rw e ((e, All-le x y ys e s.0), s)
      | inr e ↦ rw e (
        All-insert_sorted y x ys (ground (arith, total x y)) s.0,
        insert_sorted-IsSorted x ys s.1,
      )
    ]

    -- With a total order, the result is in order.
    pub sort_by-IsSorted : (xs : List A) → IsSorted (sort_by xs)
    unfolding sort_by
    sort_by-IsSorted [] = tt
    sort_by-IsSorted (x ∷ xs) = insert_sorted-IsSorted x (sort_by xs) (sort_by-IsSorted xs)

-- [...new Set(values)].sort()
unfoldable pub unique_sorted : List String → List String
unfolding unique sort_by text_le
unique_sorted values = sort_by text_le (unique values)

insert_sorted-In :
    (le : String → String → Bool) (x : String) (ys : List String) (z : String)
    → includes (insert_sorted le x ys) z ≡ includes (x ∷ ys) z
unfolding insert_sorted
insert_sorted-In le x [] z = refl
insert_sorted-In le x (y ∷ ys) z = ground (arith, insert_sorted-In le x ys z)

pub sort_by-In :
    (le : String → String → Bool) (xs : List String) (z : String)
    → includes (sort_by le xs) z ≡ includes xs z
unfolding sort_by
sort_by-In le [] z = refl
sort_by-In le (x ∷ xs) z =
    ground (arith, insert_sorted-In le x (sort_by le xs) z, sort_by-In le xs z)

-- The values are those of the list.
pub unique_sorted-In :
    (xs : List String) (z : String) → includes (unique_sorted xs) z ≡ includes xs z
unfolding unique_sorted
unique_sorted-In xs z = ground (arith, sort_by-In text_le (unique xs) z, unique-In xs z)

pub unique_sorted-IsSorted : (xs : List String) → IsSorted text_le (unique_sorted xs)
unfolding unique_sorted text_le
unique_sorted-IsSorted xs =
    sort_by-IsSorted text_le (λ x y. lex_le_total (utf16 x) (utf16 y))
      (λ x y z. lex_le_trans (utf16 x) (utf16 y) (utf16 z)) (unique xs)

insert_sorted-Has :
    {A : Type 0} (le : A → A → Bool) (x z : A) (ys : List A)
    → Has z (insert_sorted le x ys) ↔ ((x ≡ z) ⊎ Has z ys)
unfolding insert_sorted
insert_sorted-Has le x z [] = (λ h. h, λ h. h)
insert_sorted-Has le x z (y ∷ ys) = elim (Bool-cases (le x y)) [
  | inl e ↦ rw e (λ h. h, λ h. h)
  | inr e ↦
      let (there, back) = insert_sorted-Has le x z ys in
      rw e (
        λ h. elim h [
          | inl q ↦ inr (inl q)
          | inr r ↦ elim (there r) [ inl q ↦ inl q | inr w ↦ inr (inr w) ]
        ],
        λ h. elim h [
          | inl q ↦ inr (back (inl q))
          | inr r ↦ elim r [ inl q ↦ inl q | inr w ↦ inr (back (inr w)) ]
        ],
      )
]

-- The elements of a sorted list are those of the list.
pub sort_by-Has :
    {A : Type 0} (le : A → A → Bool) (xs : List A) (z : A) → Has z (sort_by le xs) ↔ Has z xs
unfolding sort_by
sort_by-Has le [] z = (λ h. h, λ h. h)
sort_by-Has le (x ∷ xs) z =
    let (there, back) = insert_sorted-Has le x z (sort_by le xs) in
    let (inner, outer) = sort_by-Has le xs z in
    (
      λ h. elim (there h) [ inl q ↦ inl q | inr r ↦ inr (inner r) ],
      λ h. elim h [ inl q ↦ back (inl q) | inr r ↦ back (inr (outer r)) ],
    )
