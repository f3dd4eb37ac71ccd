-- ===== src/Prelude/Members.antt =====
-- Membership and predicates on lists, by recursion into a universe.
use mathlib.Core.Path.{◌≡◌}
use mathlib.Core.Logic.{◌⊎◌, inl, inr}
use mathlib.Core.List.{List, [], ◌∷◌, ◌++◌}
use mathlib.Core.Option.{some}
use Prim.Native.Nat.{ℕ, zero, suc}
use qbt.Prelude.Lists.{get_elem?}

abbrev pub All {ℓ} : {A : Type ℓ} → (A → Type 0) → List A → Type 0
All P [] = Unit
All P (x ∷ xs) = P x × All P xs

abbrev pub Has : {A : Type 0} → A → List A → Type 0
Has x [] = ⊥
Has x (y ∷ ys) = (x ≡ y) ⊎ Has x ys

pub All-append {ℓ} :
    {A : Type ℓ} (P : A → Type 0) (xs ys : List A) → All P xs → All P ys → All P (xs ++ ys)
All-append P [] ys hx hy = hy
All-append P (x ∷ xs) ys (h, hx) hy = (h, All-append P xs ys hx hy)

module _ {A : Type 0} where
  pub Has-append_left : (x : A) (xs ys : List A) → Has x xs → Has x (xs ++ ys)
  Has-append_left a [] ys h = absurd h
  Has-append_left a (y ∷ xs) ys (inl e) = inl e
  Has-append_left a (y ∷ xs) ys (inr h) = inr (Has-append_left a xs ys h)

  pub Has-append_right : (x : A) (xs ys : List A) → Has x ys → Has x (xs ++ ys)
  Has-append_right a [] ys h = h
  Has-append_right a (y ∷ xs) ys h = inr (Has-append_right a xs ys h)

  pub Has-append : (x : A) (xs ys : List A) → Has x (xs ++ ys) → Has x xs ⊎ Has x ys
  Has-append a [] ys h = inr h
  Has-append a (y ∷ xs) ys (inl e) = inl (inl e)
  Has-append a (y ∷ xs) ys (inr h) = elim (Has-append a xs ys h) [
    | inl l ↦ inl (inr l)
    | inr r ↦ inr r
  ]

  pub All-Has : (P : A → Type 0) {x : A} (xs : List A) → All P xs → Has x xs → P x
  All-Has P (y ∷ xs) (hy, hs) (inl e) = rw e hy
  All-Has P (y ∷ xs) (hy, hs) (inr h) = All-Has P xs hs h
  All-Has P [] hs h = absurd h

  pub get_elem?-Has : {x : A} (xs : List A) (i : ℕ) → get_elem? xs i ≡ some x → Has x xs
  get_elem?-Has (y ∷ xs) zero e = inl cc
  get_elem?-Has (y ∷ xs) (suc i) e = inr (get_elem?-Has xs i e)
  get_elem?-Has [] i e = absurd cc
