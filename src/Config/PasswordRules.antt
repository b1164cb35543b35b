-- ===== src/Config/PasswordRules.antt =====
-- Which passwords the pattern of backend/common/schema.py lets through.
use enterprise_fast_api_boil.Base.{
  ℕ, zero, suc, ◌≡◌, refl, ap, ◌∙◌, Bool, true, false, not, ◌&&◌, ◌||◌, List, [], ◌∷◌, ◌++◌, any,
  length, arith, leb, ◌==◌,
}
use enterprise_fast_api_boil.Base.Text.{Text}
use enterprise_fast_api_boil.Config.Passwords.{
  PasswordSettings, CharClass, lowercase, uppercase, number, special, Piece, at_least, finish,
  part_if, build_password_pattern, newline, in_class, looks_ahead, dots, at_end, matches,
}

-- A text of one line.
abbrev pub IsLine : Text → Type 0
IsLine t = any (λ c. c == newline) t ≡ false

-- `.{n,}` takes a whole line where what follows holds at its end.
dots-line :
    (n : ℕ) (t : Text) (rest : Text → Bool)
    → rest [] ≡ true
    → IsLine t
    → dots n rest t ≡ leb n (length t)
unfolding dots
dots-line zero [] rest e h = ground (arith, e)
dots-line zero (x ∷ xs) rest e h = ground (arith, dots-line zero xs rest e)
dots-line (suc n) [] rest e h = ground arith
dots-line (suc n) (x ∷ xs) rest e h = ground (arith, dots-line n xs rest e)

dots-newline :
    (n : ℕ) (t : Text) (rest : Text → Bool)
    → rest (newline ∷ []) ≡ true
    → IsLine t
    → dots n rest (t ++ (newline ∷ [])) ≡ leb n (length t)
unfolding dots
dots-newline zero [] rest e h = ground (arith, e)
dots-newline zero (x ∷ xs) rest e h = ground (arith, dots-newline zero xs rest e)
dots-newline (suc n) [] rest e h = ground arith
dots-newline (suc n) (x ∷ xs) rest e h = ground (arith, dots-newline n xs rest e)

at_end-lines : (t u : Text) (v : ℕ) → at_end (t ++ (newline ∷ v ∷ u)) ≡ false
at_end-lines [] u v = refl
at_end-lines (x ∷ []) u v = refl
at_end-lines (x ∷ y ∷ ys) u v = refl

dots-lines :
    (n : ℕ) (t u : Text) (v : ℕ) → dots n (λ s. at_end s && true) (t ++ (newline ∷ v ∷ u)) ≡ false
unfolding dots
dots-lines zero [] u v = refl
dots-lines zero (x ∷ xs) u v = ground (arith, at_end-lines (x ∷ xs) u v, dots-lines zero xs u v)
dots-lines (suc n) [] u v = refl
dots-lines (suc n) (x ∷ xs) u v = ground (arith, dots-lines n xs u v)

module _ (is_decimal : ℕ → Bool) (not_newline : is_decimal newline ≡ false) where
  abbrev some_char : CharClass → Text → Bool
  some_char c t = any (in_class is_decimal c) t

  looks_ahead-line :
      (c : CharClass) (t : Text) → IsLine t → looks_ahead is_decimal c t ≡ some_char c t
  unfolding looks_ahead
  looks_ahead-line c [] h = refl
  looks_ahead-line c (x ∷ xs) h = ground (arith, looks_ahead-line c xs)

  looks_ahead-newline :
      (c : CharClass) (t u : Text)
      → IsLine t
      → looks_ahead is_decimal c (t ++ (newline ∷ u))
        ≡ (some_char c t || in_class is_decimal c newline)
  unfolding looks_ahead
  looks_ahead-newline c [] u h = ground arith
  looks_ahead-newline c (x ∷ xs) u h = ground (arith, looks_ahead-newline c xs u)

  matches-part_if :
      (wanted : Bool) (c : CharClass) (pattern : List Piece) (t : Text)
      → matches is_decimal (part_if wanted c ++ pattern) t
        ≡ ((not wanted || looks_ahead is_decimal c t) && matches is_decimal pattern t)
  unfolding matches
  matches-part_if true c pattern t = refl
  matches-part_if false c pattern t = refl

  -- The pattern as its parts.
  matches-parts :
      (s : PasswordSettings) (t : Text)
      → matches is_decimal (build_password_pattern s) t ≡ (
          (not s.password_require_lowercase || looks_ahead is_decimal lowercase t)
          && ((not s.password_require_uppercase || looks_ahead is_decimal uppercase t)
              && ((not s.password_require_number || looks_ahead is_decimal number t)
                  && ((not s.password_require_special_character || looks_ahead is_decimal special t)
                      && dots s.password_min_length (λ u. at_end u && true) t))))
  unfolding matches
  matches-parts s t =
      let low = s.password_require_lowercase in
      let up = s.password_require_uppercase in
      let num = s.password_require_number in
      let spec = s.password_require_special_character in
      let last = at_least s.password_min_length ∷ finish ∷ [] in
      let fourth = part_if spec special ++ last in
      let third = part_if num number ++ fourth in
      matches-part_if low lowercase (part_if up uppercase ++ third) t
      ∙ ap (λ b. (not low || looks_ahead is_decimal lowercase t) && b)
          (matches-part_if up uppercase third t
            ∙ ap (λ b. (not up || looks_ahead is_decimal uppercase t) && b)
                (matches-part_if num number fourth t
                  ∙ ap (λ b. (not num || looks_ahead is_decimal number t) && b)
                      (matches-part_if spec special last t)))

  -- The classes and the length that are asked for; `special_given` counts for a special character.
  abbrev pub is_strong : PasswordSettings → Bool → Text → Bool
  is_strong s special_given t =
      (not s.password_require_lowercase || some_char lowercase t)
      && ((not s.password_require_uppercase || some_char uppercase t)
          && ((not s.password_require_number || some_char number t)
              && ((not s.password_require_special_character
                    || (some_char special t || special_given))
                  && leb s.password_min_length (length t))))

  -- A password of one line is accepted exactly where it is long enough and has a character of each
  -- class that is asked for. With a newline behind it, it needs no special character any more. One of
  -- more lines is refused.
  pub password_lem :
      (s : PasswordSettings) (t : Text)
      → IsLine t
      → (matches is_decimal (build_password_pattern s) t ≡ is_strong s false t)
        × (matches is_decimal (build_password_pattern s) (t ++ (newline ∷ [])) ≡ is_strong s true t)
        × ((v : ℕ) (u : Text)
            → matches is_decimal (build_password_pattern s) (t ++ (newline ∷ v ∷ u)) ≡ false)
  password_lem s t line = (
    matches-parts s t
        ∙ rw
            (
              looks_ahead-line lowercase t line,
              looks_ahead-line uppercase t line,
              looks_ahead-line number t line,
              looks_ahead-line special t line,
              dots-line s.password_min_length t (λ u. at_end u && true) refl line,
            )
            (ground arith),
    matches-parts s (t ++ (newline ∷ []))
        ∙ rw
            (
              looks_ahead-newline lowercase t [] line,
              looks_ahead-newline uppercase t [] line,
              looks_ahead-newline number t [] line,
              looks_ahead-newline special t [] line,
              dots-newline s.password_min_length t (λ u. at_end u && true) refl line,
            )
            (ground (arith, not_newline)),
    λ v u.
        matches-parts s (t ++ (newline ∷ v ∷ u))
        ∙ rw (dots-lines s.password_min_length t u v) (ground arith),
  )
