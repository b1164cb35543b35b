-- ===== src/Base/Text.antt =====
-- Texts as the lists of the codes of their characters, with the methods of `str` that the code uses.
use enterprise_fast_api_boil.Base.Tests.{◌==◌, ltb, if◌then◌else◌}
use enterprise_fast_api_boil.Base.Dict.{Key}
use Prim.Native.Nat.{ℕ}
use Prim.Native.String.{String}
use Prim.Native.Char.{code}
use mathlib.Core.Path.{◌≡◌, refl}
use mathlib.Core.Logic.{◌↔◌}
use mathlib.Core.Bool.{Bool, true, false, ◌&&◌}
use mathlib.Core.List.{List, [], ◌∷◌}
use enterprise_fast_api_boil.Base.Lists.{all}
use enterprise_fast_api_boil.Base.Outcome.{Error, Outcome, ok, err}
use native.Mathlib.Omega.{arith}

abbrev pub Text : Type 0
Text = List ℕ

-- The codes of a literal.
abbrev pub codes : String → Text
codes String.[] = []
codes (String.◌∷◌ c s) = code c ∷ codes s

module _ {K : Type 0} ⦃e : Key K⦄ where
  unfoldable pub list_eq : List K → List K → Bool
  list_eq [] [] = true
  list_eq [] (y ∷ ys) = false
  list_eq (x ∷ xs) [] = false
  list_eq (x ∷ xs) (y ∷ ys) = e.beq x y && list_eq xs ys

  list_eq→eq : (xs ys : List K) → list_eq xs ys ≡ true → xs ≡ ys
  unfolding list_eq
  list_eq→eq [] [] h = refl
  list_eq→eq [] (y ∷ ys) h = absurd (ground arith)
  list_eq→eq (x ∷ xs) [] h = absurd (ground arith)
  list_eq→eq (x ∷ xs) (y ∷ ys) h =
      let p : x ≡ y = (e.beq_iff x y).0 (ground arith) in
      let q : xs ≡ ys = list_eq→eq xs ys (ground arith) in λ i. p i ∷ q i

  pub list_eq_self : (xs : List K) → list_eq xs xs ≡ true
  unfolding list_eq
  list_eq_self [] = refl
  list_eq_self (x ∷ xs) = ground (arith, (e.beq_iff x x).1 refl, list_eq_self xs)

  pub list_eq_iff : (xs ys : List K) → (list_eq xs ys ≡ true) ↔ (xs ≡ ys)
  list_eq_iff xs ys = (list_eq→eq xs ys, λ h. rw h (list_eq_self ys))

pub nat_eq_iff : (a b : ℕ) → ((a == b) ≡ true) ↔ (a ≡ b)
nat_eq_iff a b = ground arith

instance abbrev pub nat_key : Key ℕ
nat_key = record { beq = ◌==◌; beq_iff = nat_eq_iff }

instance abbrev pub list_key : {K : Type 0} ⦃e : Key K⦄ → Key (List K)
list_key = record { beq = list_eq; beq_iff = list_eq_iff }

-- `t.startswith(prefix)`
unfoldable pub starts_with : Text → Text → Bool
starts_with t [] = true
starts_with [] (b ∷ bs) = false
starts_with (c ∷ cs) (b ∷ bs) = c == b && starts_with cs bs

abbrev pub is_ascii : Text → Bool
is_ascii t = all (λ c. ltb c 128) t

-- `hmac.compare_digest` on texts: it raises `TypeError` where one is not ASCII.
unfoldable pub compare_digest : Error → Text → Text → Outcome Bool
unfolding list_eq
compare_digest type_error a b =
    if is_ascii a && is_ascii b then ok (list_eq a b) else err type_error
