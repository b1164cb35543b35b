-- ===== src/Base/Member.antt =====
-- Membership by recursion, and what it says of searches and selections.
use mathlib.Core.Path.{◌≡◌, refl}
use mathlib.Core.Logic.{◌⊎◌, inl, inr}
use mathlib.Core.Bool.{Bool, true}
use mathlib.Core.List.{List, [], ◌∷◌, ◌++◌, map}
use Prim.Native.Nat.{ℕ}
use Prim.Native.String.{String}
use native.Mathlib.Omega.{arith}
use text.Mathlib.TextEquality.{eq_iff}
use enterprise_fast_api_boil.Base.Tests.{Bool-cases}
use enterprise_fast_api_boil.Base.Lists.{any, all, select, contains, contains_id}

module _ {A : Type 0} where
  abbrev pub In : A → List A → Type 0
  In a [] = ⊥
  In a (x ∷ xs) = (a ≡ x) ⊎ In a xs

  pub any-witness :
      (p : A → Bool) (xs : List A) → any p xs ≡ true → (x : A) × In x xs × (p x ≡ true)
  any-witness p [] h = absurd (ground arith)
  any-witness p (x ∷ xs) h = elim (Bool-cases (p x)) [
    | inl e ↦ (x, inl refl, e)
    | inr e ↦ let (y, m, q) = any-witness p xs (ground arith) in (y, inr m, q)
  ]

  pub any-intro : (p : A → Bool) (x : A) (xs : List A) → In x xs → p x ≡ true → any p xs ≡ true
  any-intro p x [] m h = absurd m
  any-intro p x (y ∷ ys) (inl e) h = ground arith
  any-intro p x (y ∷ ys) (inr m) h = ground (arith, any-intro p x ys m h)

  pub In-select : (p : A → Bool) (x : A) (xs : List A) → In x xs → p x ≡ true → In x (select p xs)
  In-select p x [] m h = m
  In-select p x (y ∷ ys) (inl e) h = ground arith
  In-select p x (y ∷ ys) (inr m) h = ground (arith, In-select p x ys m h)

  pub In-of_select :
      (p : A → Bool) (x : A) (xs : List A) → In x (select p xs) → In x xs × (p x ≡ true)
  In-of_select p x [] m = absurd m
  In-of_select p x (y ∷ ys) m = ground (arith, In-of_select p x ys)

  pub In-of_append : (x : A) (xs ys : List A) → In x (xs ++ ys) → In x xs ⊎ In x ys
  In-of_append x [] ys m = inr m
  In-of_append x (z ∷ xs) ys (inl e) = inl (inl e)
  In-of_append x (z ∷ xs) ys (inr m) = elim (In-of_append x xs ys m) [
    | inl a ↦ inl (inr a)
    | inr b ↦ inr b
  ]

module _ {A B : Type 0} where
  pub In-of_map :
      (f : A → B) (y : B) (xs : List A) → In y (map f xs) → (x : A) × In x xs × (y ≡ f x)
  In-of_map f y [] m = absurd m
  In-of_map f y (x ∷ xs) (inl e) = (x, inl refl, e)
  In-of_map f y (x ∷ xs) (inr m) = let (z, n, e) = In-of_map f y xs m in (z, inr n, e)

  pub In-map : (f : A → B) (x : A) (xs : List A) → In x xs → In (f x) (map f xs)
  In-map f x [] m = absurd m
  In-map f x (y ∷ ys) (inl e) = inl (λ i. f (e i))
  In-map f x (y ∷ ys) (inr m) = inr (In-map f x ys m)

pub contains-In : (k : String) (ks : List String) → In k ks → contains k ks ≡ true
contains-In k [] m = absurd m
contains-In k (x ∷ xs) (inl e) = ground (arith, eq_iff k x)
contains-In k (x ∷ xs) (inr m) = ground (arith, contains-In k xs m)

pub contains_id-In : (k : ℕ) (ks : List ℕ) → In k ks → contains_id k ks ≡ true
contains_id-In k [] m = absurd m
contains_id-In k (x ∷ xs) (inl e) = ground arith
contains_id-In k (x ∷ xs) (inr m) = ground (arith, contains_id-In k xs m)

pub all-In :
    {A : Type 0} (p : A → Bool) (x : A) (xs : List A) → all p xs ≡ true → In x xs → p x ≡ true
all-In p x [] h m = absurd m
all-In p x (y ∷ ys) h (inl e) = ground arith
all-In p x (y ∷ ys) h (inr m) = all-In p x ys (ground arith) m
