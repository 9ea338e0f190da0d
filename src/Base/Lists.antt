-- ===== src/Base/Lists.antt =====
-- Lists measured by native numbers, and JavaScript's array methods.
use Prim.Native.Nat.{ℕ, suc, ◌+◌}
use mathlib.Core.Path.{◌≡◌, refl, sym, ap, subst}
use mathlib.Core.Logic.{◌⊎◌, inl, inr}
use mathlib.Core.Bool.{Bool, true, false, ◌&&◌, ◌||◌}
use mathlib.Core.Option.{Option, none, some}
use mathlib.Core.List.{List, [], ◌∷◌, ◌++◌, Memᴰ, map}
use native.Mathlib.Omega.{arith}
use knolo_agents.Base.Tests.{if◌then◌else◌, Bool-cases}

module _ {ℓ} {A : Type ℓ} where
  abbrev pub length : List A → ℕ
  length [] = 0
  length (x ∷ xs) = suc (length xs)

  pub length-append : (xs ys : List A) → length (xs ++ ys) ≡ length xs + length ys
  length-append [] ys = omega arith
  length-append (x ∷ xs) ys = omega (arith, length-append xs ys)

  -- xs.every(p)
  abbrev pub every : (A → Bool) → List A → Bool
  every p [] = true
  every p (x ∷ xs) = p x && every p xs

  -- xs.some(p)
  abbrev pub any : (A → Bool) → List A → Bool
  any p [] = false
  any p (x ∷ xs) = p x || any p xs

  -- xs.find(p)
  abbrev pub find : (A → Bool) → List A → Option A
  find p [] = none
  find p (x ∷ xs) = if p x then some x else find p xs

  -- xs.filter(p)
  abbrev pub filter : (A → Bool) → List A → List A
  filter p [] = []
  filter p (x ∷ xs) = let rest = filter p xs in if p x then x ∷ rest else rest

  -- A predicate of every element.
  abbrev pub All {κ} : (A → Type κ) → List A → Type κ
  All P [] = Unit
  All P (x ∷ xs) = P x × All P xs

  pub All-append {κ} : (P : A → Type κ) (xs ys : List A) → All P xs → All P ys → All P (xs ++ ys)
  All-append P [] ys hx hy = hy
  All-append P (x ∷ xs) ys hx hy = (hx.0, All-append P xs ys hx.1 hy)

  pub All-Memᴰ {κ} : (P : A → Type κ) (xs : List A) → All P xs → {x : A} → Memᴰ x xs → P x
  All-Memᴰ P [] h m = elim m [ ]
  All-Memᴰ P (y ∷ xs) h (Memᴰ.head e) = subst P (sym e) h.0
  All-Memᴰ P (y ∷ xs) h (Memᴰ.tail m) = All-Memᴰ P xs h.1 m

pub length-map {ℓ κ} :
    {A : Type ℓ} {B : Type κ} (f : A → B) (xs : List A) → length (map f xs) ≡ length xs
length-map f [] = refl
length-map f (x ∷ xs) = ap suc (length-map f xs)

pub Option-cases {ℓ} : {A : Type ℓ} (o : Option A) → (o ≡ none) ⊎ ((a : A) × (o ≡ some a))
Option-cases none = inl refl
Option-cases (some a) = inr (a, refl)

-- What `find` returns is an element that passes the test.
pub find-eq-some {ℓ} :
    {A : Type ℓ} (p : A → Bool) (xs : List A) {x : A}
    → find p xs ≡ some x
    → Memᴰ x xs × (p x ≡ true)
find-eq-some p [] h = cc
find-eq-some p (y ∷ ys) h = elim (Bool-cases (p y)) [
  | inl e ↦ (Memᴰ.head (ground arith), ground arith)
  | inr e ↦ let (m, t) = find-eq-some p ys (rw (e, find) at h) in (Memᴰ.tail m, t)
]

-- `find` fails exactly where no element passes.
pub find-eq-none {ℓ} :
    {A : Type ℓ} (p : A → Bool) (xs : List A) {x : A} → find p xs ≡ none → Memᴰ x xs → p x ≡ false
find-eq-none p [] h m = elim m [ ]
find-eq-none p (y ∷ ys) {x} h (Memᴰ.head e) = ground arith
find-eq-none p (y ∷ ys) h (Memᴰ.tail m) = find-eq-none p ys (ground arith) m

-- An element of a list.
abbrev pub Has : {A : Type 0} → A → List A → Type 0
Has x [] = ⊥
Has x (y ∷ ys) = (y ≡ x) ⊎ Has x ys

pub Has-append : {A : Type 0} (x : A) (xs ys : List A) → Has x xs → Has x (xs ++ ys)
Has-append x (y ∷ xs) ys (inl e) = inl e
Has-append x (y ∷ xs) ys (inr h) = inr (Has-append x xs ys h)
Has-append x [] ys h = absurd h

pub Has-last : {A : Type 0} (x : A) (xs : List A) → Has x (xs ++ x ∷ [])
Has-last x [] = inl refl
Has-last x (y ∷ xs) = inr (Has-last x xs)

pub map-append {ℓ κ} :
    {A : Type ℓ} {B : Type κ} (f : A → B) (xs ys : List A) → map f (xs ++ ys) ≡ map f xs ++ map f ys
map-append f [] ys = refl
map-append f (x ∷ xs) ys = ap (λ zs. f x ∷ zs) (map-append f xs ys)

-- What a filter keeps.
pub Has-filter :
    {A : Type 0} (p : A → Bool) (xs : List A) (x : A)
    → Has x (filter p xs)
    → Has x xs × (p x ≡ true)
Has-filter p [] x h = absurd h
Has-filter p (y ∷ ys) x h = elim (Bool-cases (p y)) [
  | inr n ↦ let (there, t) = Has-filter p ys x (rw (n, filter) at h) in (inr there, t)
  | inl e ↦
      let kept : Has x (y ∷ filter p ys) = rw (e, filter) at h in
      elim kept [
        | inl q ↦ (inl q, subst (λ z. p z ≡ true) q e)
        | inr r ↦ let (there, t) = Has-filter p ys x r in (inr there, t)
      ]
]

pub filter-Has :
    {A : Type 0} (p : A → Bool) (xs : List A) (x : A) → Has x xs → p x ≡ true → Has x (filter p xs)
filter-Has p [] x h t = absurd h
filter-Has p (y ∷ ys) x h t = elim (Bool-cases (p y)) [
  | inl e ↦ rw e (elim h [ inl q ↦ inl q | inr r ↦ inr (filter-Has p ys x r t) ])
  | inr n ↦
      rw n
        (elim h [ inl q ↦ cc (subst (λ z. p z ≡ true) (sym q) t) | inr r ↦ filter-Has p ys x r t ])
]

pub Has-map :
    {A : Type 0} {B : Type 0} (f : A → B) (xs : List A) (b : B)
    → Has b (map f xs)
    → (a : A) × Has a xs × (f a ≡ b)
Has-map f [] b h = absurd h
Has-map f (x ∷ xs) b (inl q) = (x, inl refl, q)
Has-map f (x ∷ xs) b (inr r) = let (a, m, q) = Has-map f xs b r in (a, inr m, q)

pub map-Has :
    {A : Type 0} {B : Type 0} (f : A → B) (xs : List A) (a : A) → Has a xs → Has (f a) (map f xs)
map-Has f [] a h = absurd h
map-Has f (x ∷ xs) a (inl q) = inl (ap f q)
map-Has f (x ∷ xs) a (inr r) = inr (map-Has f xs a r)

pub snoc-Has :
    {A : Type 0} (x : A) (xs : List A) (y : A) → Has y (xs ++ x ∷ []) → Has y xs ⊎ (x ≡ y)
snoc-Has x [] y (inl q) = inr q
snoc-Has x [] y (inr h) = absurd h
snoc-Has x (z ∷ xs) y (inl q) = inl (inl q)
snoc-Has x (z ∷ xs) y (inr h) = elim (snoc-Has x xs y h) [ inl m ↦ inl (inr m) | inr q ↦ inr q ]

pub Has-append_right : {A : Type 0} (x : A) (xs ys : List A) → Has x ys → Has x (xs ++ ys)
Has-append_right x [] ys h = h
Has-append_right x (y ∷ xs) ys h = inr (Has-append_right x xs ys h)
