-- ===== src/Prelude/Membership.antt =====
-- Membership in a list, as a family that can be matched.
use mathlib.Core.Path.{◌≡◌, subst}
use mathlib.Core.Logic.{◌⊎◌, inl, inr}
use mathlib.Core.List.{List, [], ◌∷◌, ◌++◌, reverse, reverse-cons}
use mathlib.Core.Option.{some}
use Prim.Native.Nat.{ℕ, zero, suc}
use antminer_chip_tuner.Prelude.Tests.{some_eq}
use antminer_chip_tuner.Prelude.Lists.{get_elem?}

pub data In {ℓ} {A : Type ℓ} (x : A) : List A → Type ℓ where
  here : {xs : List A} → In x (x ∷ xs)
  there : {y : A} {xs : List A} → In x xs → In x (y ∷ xs)

pub In-append_left {ℓ} :
    {A : Type ℓ} {x : A} {xs : List A} (ys : List A) → In x xs → In x (xs ++ ys)
In-append_left ys here = here
In-append_left ys (there h) = there (In-append_left ys h)

pub In-append_right {ℓ} :
    {A : Type ℓ} {x : A} {ys : List A} (xs : List A) → In x ys → In x (xs ++ ys)
In-append_right [] h = h
In-append_right (y ∷ xs) h = there (In-append_right xs h)

pub In-append_split {ℓ} :
    {A : Type ℓ} {x : A} (xs : List A) {ys : List A} → In x (xs ++ ys) → In x xs ⊎ In x ys
In-append_split [] h = inr h
In-append_split (y ∷ xs) here = inl here
In-append_split (y ∷ xs) (there h) = elim (In-append_split xs h) [
  | inl a ↦ inl (there a)
  | inr b ↦ inr b
]

pub In-get_elem? {ℓ} :
    {A : Type ℓ} {x : A} (xs : List A) (i : ℕ) → get_elem? xs i ≡ some x → In x xs
In-get_elem? [] i e = absurd (cc)
In-get_elem? {x = a} (y ∷ xs) zero e = subst (λ z. In z (y ∷ xs)) (some_eq e) here
In-get_elem? (y ∷ xs) (suc i) e = there (In-get_elem? xs i e)

In-singleton {ℓ} : {A : Type ℓ} {x y : A} (xs : List A) → In x (y ∷ []) → In x (y ∷ xs)
In-singleton xs here = here
In-singleton xs (there h) = elim h [ ]

pub In-reverse {ℓ} : {A : Type ℓ} {x : A} (xs : List A) → In x (reverse xs) → In x xs
In-reverse [] h = h
In-reverse {x} (y ∷ xs) h =
    elim (In-append_split (reverse xs) (subst (In x) (reverse-cons y xs) h)) [
      | inl a ↦ there (In-reverse xs a)
      | inr b ↦ In-singleton xs b
    ]
