-- ===== src/Users/Hashing.antt =====
-- `UserService.hash_password` and `verify_password` of backend/domain/users/service.py where bcrypt is not
-- installed. PBKDF2 with a hexadecimal result and `int` of a text are parameters; the salt is drawn
-- before. With bcrypt both are calls of that library, and parameters wherever they are used.
use enterprise_fast_api_boil.Base.{
  ℕ, zero, suc, ◌≡◌, refl, ap, ◌∙◌, Bool, true, false, Option, none, some, List, [], ◌∷◌, ◌++◌, any,
  arith, ◌==◌, if◌then◌else◌,
}
use enterprise_fast_api_boil.Base.Int.{ℤ, pos, negsuc}
use enterprise_fast_api_boil.Base.Text.{
  Text, codes, nat_key, list_eq, list_eq_self, starts_with, is_ascii, compare_digest,
}
use enterprise_fast_api_boil.Base.Outcome.{Error, value_error, Outcome, ok, err}

abbrev pub dollar : ℕ
dollar = b'$'

abbrev pub scheme : Text
scheme = codes "pbkdf2_sha256$"

abbrev pub char_to_first : ℕ → List Text → List Text
char_to_first c [] = (c ∷ []) ∷ []
char_to_first c (part ∷ parts) = (c ∷ part) ∷ parts

-- `t.split("$", n)`: at most `n` cuts.
unfoldable pub split_dollar : ℕ → Text → List Text
split_dollar zero t = t ∷ []
split_dollar (suc n) [] = [] ∷ []
split_dollar (suc n) (c ∷ cs) =
    let cut = split_dollar n cs in
    let rest = split_dollar (suc n) cs in if c == dollar then [] ∷ cut else char_to_first c rest

module _ (pbkdf2 : Text → Text → ℕ → Text) (int_of : Text → Option ℤ) (type_error : Error) where
  -- `hash_password` without bcrypt
  unfoldable pub hash_with_salt : Text → Text → Text
  hash_with_salt salt password =
      codes "pbkdf2_sha256$100000$" ++ (salt ++ (dollar ∷ pbkdf2 password salt 100_000))

  abbrev pub check_derived : Text → Text → Text → Option ℤ → Outcome Bool
  check_derived password salt expected none = err (value_error "invalid literal for int()")
  check_derived password salt expected (some (negsuc n)) =
      err (value_error "iteration value must be greater than 0.")
  check_derived password salt expected (some (pos zero)) =
      err (value_error "iteration value must be greater than 0.")
  check_derived password salt expected (some (pos (suc n))) =
      compare_digest type_error (pbkdf2 password salt (suc n)) expected

  -- The four parts, or the `ValueError` of the assignment.
  abbrev pub check_parts_of : Text → List Text → Outcome Bool
  check_parts_of password (name ∷ iterations ∷ salt ∷ expected ∷ []) =
      check_derived password salt expected (int_of iterations)
  check_parts_of password parts = err (value_error "not enough values to unpack")

  -- `verify_password` without bcrypt
  unfoldable pub verify_text : Text → Text → Outcome Bool
  unfolding starts_with split_dollar compare_digest
  verify_text password hashed_password =
      if starts_with hashed_password scheme
      then check_parts_of password (split_dollar 3 hashed_password)
      else ok false

  split_dollar-flat :
      (t u : Text) (n : ℕ)
      → any (λ c. c == dollar) t ≡ false
      → split_dollar (suc n) (t ++ (dollar ∷ u)) ≡ t ∷ split_dollar n u
  unfolding split_dollar
  split_dollar-flat [] u n h = refl
  split_dollar-flat (c ∷ cs) u n h = ground (arith, split_dollar-flat cs u n)

  split_dollar-hash :
      (salt password : Text)
      → any (λ c. c == dollar) salt ≡ false
      → split_dollar 3 (hash_with_salt salt password)
        ≡ codes "pbkdf2_sha256" ∷ codes "100000" ∷ salt ∷ pbkdf2 password salt 100_000 ∷ []
  unfolding hash_with_salt split_dollar
  split_dollar-hash salt password h = λ i.
      codes "pbkdf2_sha256"
      ∷ codes "100000"
      ∷ split_dollar-flat salt (pbkdf2 password salt 100_000) 0 h i

  hash-starts_with :
      (salt password : Text) → starts_with (hash_with_salt salt password) scheme ≡ true
  unfolding hash_with_salt starts_with
  hash-starts_with salt password = refl

  verify_text-hash :
      (salt password other : Text)
      → any (λ c. c == dollar) salt ≡ false
      → int_of (codes "100000") ≡ some (pos 100_000)
      → verify_text other (hash_with_salt salt password)
        ≡ compare_digest type_error (pbkdf2 other salt 100_000) (pbkdf2 password salt 100_000)
  unfolding verify_text
  verify_text-hash salt password other h read =
      rw (hash-starts_with salt password) (rw (split_dollar-hash salt password h) (rw read refl))

  compare_digest-ascii :
      (a b : Text)
      → is_ascii a ≡ true
      → is_ascii b ≡ true
      → compare_digest type_error a b ≡ ok (list_eq a b)
  unfolding compare_digest
  compare_digest-ascii a b h k = rw (h, k) refl

  -- What was hashed with a salt verifies; another password verifies exactly where its derived key is
  -- the same.
  pub verify-hash :
      (salt password other : Text)
      → any (λ c. c == dollar) salt ≡ false
      → int_of (codes "100000") ≡ some (pos 100_000)
      → is_ascii (pbkdf2 password salt 100_000) ≡ true
      → is_ascii (pbkdf2 other salt 100_000) ≡ true
      → (verify_text password (hash_with_salt salt password) ≡ ok true)
        × (verify_text other (hash_with_salt salt password)
            ≡ ok (list_eq (pbkdf2 other salt 100_000) (pbkdf2 password salt 100_000)))
  verify-hash salt password other h read plain₁ plain₂ = (
    verify_text-hash salt password password h read
        ∙ compare_digest-ascii (pbkdf2 password salt 100_000) (pbkdf2 password salt 100_000) plain₁
            plain₁
        ∙ ap ok (list_eq_self (pbkdf2 password salt 100_000)),
    verify_text-hash salt password other h read
        ∙ compare_digest-ascii (pbkdf2 other salt 100_000) (pbkdf2 password salt 100_000) plain₂
            plain₁,
  )
