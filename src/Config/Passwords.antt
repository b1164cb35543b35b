-- ===== src/Config/Passwords.antt =====
-- `_build_password_pattern` and `_validate_password_strength` of backend/common/schema.py, with the
-- parts of Python's `re` that the pattern uses: a dot is any character but a newline, and `$` also holds
-- in front of a newline at the end. `is_decimal` is `\d`.
use enterprise_fast_api_boil.Base.{
  ℕ, zero, suc, Bool, true, false, not, ◌&&◌, ◌||◌, List, [], ◌∷◌, ◌++◌, leb, ◌==◌, if◌then◌else◌,
}
use enterprise_fast_api_boil.Base.Text.{Text}
use enterprise_fast_api_boil.Base.Outcome.{value_error, Outcome, ok, err}

pub record PasswordSettings : Type 0 where
  pub password_min_length : ℕ
  pub password_require_lowercase : Bool
  pub password_require_uppercase : Bool
  pub password_require_number : Bool
  pub password_require_special_character : Bool

-- `[a-z]`, `[A-Z]`, `\d` and `[^A-Za-z0-9]`
pub data CharClass : Type 0 where
  lowercase uppercase number special : CharClass

-- `^`, `(?=.*` a class `)`, `.{n,}` and `$`
pub data Piece : Type 0 where
  start : Piece
  ahead : CharClass → Piece
  at_least : ℕ → Piece
  finish : Piece

abbrev pub part_if : Bool → CharClass → List Piece
part_if wanted c = if wanted then ahead c ∷ [] else []

-- `_build_password_pattern`
abbrev pub build_password_pattern : PasswordSettings → List Piece
build_password_pattern settings =
    start
    ∷ (part_if settings.password_require_lowercase lowercase
        ++ (part_if settings.password_require_uppercase uppercase
            ++ (part_if settings.password_require_number number
                ++ (part_if settings.password_require_special_character special
                    ++ (at_least settings.password_min_length ∷ finish ∷ [])))))

abbrev pub newline : ℕ
newline = b'\n'

abbrev pub between : ℕ → ℕ → ℕ → Bool
between low high c = leb low c && leb c high

-- `.{n,}` and then the rest of the pattern, which may have to give characters back
unfoldable pub dots : ℕ → (Text → Bool) → Text → Bool
dots zero rest [] = rest []
dots zero rest (x ∷ xs) = rest (x ∷ xs) || (not (x == newline) && dots zero rest xs)
dots (suc n) rest [] = false
dots (suc n) rest (x ∷ xs) = not (x == newline) && dots n rest xs

abbrev pub at_end : Text → Bool
at_end [] = true
at_end (x ∷ []) = x == newline
at_end (x ∷ y ∷ ys) = false

module _ (is_decimal : ℕ → Bool) where
  abbrev pub in_class : CharClass → ℕ → Bool
  in_class lowercase c = between b'a' b'z' c
  in_class uppercase c = between b'A' b'Z' c
  in_class number c = is_decimal c
  in_class special c = not (between b'A' b'Z' c || between b'a' b'z' c || between b'0' b'9' c)

  -- `.*` and then a character of the class
  unfoldable pub looks_ahead : CharClass → Text → Bool
  looks_ahead c [] = false
  looks_ahead c (x ∷ xs) = in_class c x || (not (x == newline) && looks_ahead c xs)

  -- `re.match`
  unfoldable pub matches : List Piece → Text → Bool
  unfolding looks_ahead dots
  matches [] t = true
  matches (start ∷ pattern) t = matches pattern t
  matches (ahead c ∷ pattern) t = looks_ahead c t && matches pattern t
  matches (at_least n ∷ pattern) t = dots n (matches pattern) t
  matches (finish ∷ pattern) t = at_end t && matches pattern t

  -- `_validate_password_strength`
  unfoldable pub validate_password_strength : PasswordSettings → Text → Outcome Text
  unfolding matches
  validate_password_strength settings password =
      if matches (build_password_pattern settings) password
      then ok password
      else err (
          value_error
            "Password must be at least 8 characters and include uppercase, lowercase, number, and special character")
