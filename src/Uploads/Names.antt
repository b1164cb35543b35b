-- ===== src/Uploads/Names.antt =====
-- A name that the server draws stays one component below the directory of the uploads.
use enterprise_fast_api_boil.Base.{
  ℕ, ◌≡◌, refl, ap, Bool, true, false, not, ◌&&◌, List, [], ◌∷◌, ◌++◌, any, all, All, arith,
  Bool-cases, inl, inr, ◌==◌,
}
use enterprise_fast_api_boil.Base.Text.{Text, nat_key, list_eq, list_eq_self}
use enterprise_fast_api_boil.Uploads.Paths.{
  dot_dot, slash, dot, ResolvedPath, pieces, is_part, keep_parts, parts, last_or_empty, path_name,
  from_last_dot, suffix_of, path_suffix, is_absolute, is_empty, walk, resolve_in, is_parent,
  first_to,
}

abbrev has_slash : Text → Bool
has_slash t = any (λ c. c == slash) t

-- A text that can stand in front of a suffix: not empty, without slashes and dots, like the digits of
-- `uuid4().hex`.
abbrev pub IsStem : Text → Type 0
IsStem t = (is_empty t ≡ false) × (all (λ c. not (c == slash) && not (c == dot)) t ≡ true)

abbrev Flat : List Text → Type 0
Flat = All (λ p. has_slash p ≡ false)

first_to-Flat : (c : ℕ) (ps : List Text) → (c == slash) ≡ false → Flat ps → Flat (first_to c ps)
first_to-Flat c [] h f = (ground arith, tt)
first_to-Flat c (p ∷ ps) h (f, fs) = (ground arith, fs)

pieces-Flat : (t : Text) → Flat (pieces t)
unfolding pieces
pieces-Flat [] = (refl, tt)
pieces-Flat (c ∷ cs) = elim (Bool-cases (c == slash)) [
  | inl e ↦ rw e (refl, pieces-Flat cs)
  | inr e ↦ rw e (first_to-Flat c (pieces cs) e (pieces-Flat cs))
]

keep_parts-Flat : (ps : List Text) → Flat ps → Flat (keep_parts ps)
unfolding keep_parts
keep_parts-Flat [] f = tt
keep_parts-Flat (p ∷ ps) (f, fs) = elim (Bool-cases (is_part p)) [
  | inl e ↦ rw e (f, keep_parts-Flat ps fs)
  | inr e ↦ rw e (keep_parts-Flat ps fs)
]

last_or_empty-Flat : (ps : List Text) → Flat ps → has_slash (last_or_empty ps) ≡ false
last_or_empty-Flat [] f = refl
last_or_empty-Flat (p ∷ []) (f, fs) = f
last_or_empty-Flat (p ∷ q ∷ ps) (f, fs) = last_or_empty-Flat (q ∷ ps) fs

from_last_dot-flat : (t : Text) → has_slash t ≡ false → has_slash (from_last_dot t) ≡ false
unfolding from_last_dot
from_last_dot-flat [] h = refl
from_last_dot-flat (c ∷ cs) h = ground (arith, from_last_dot-flat cs)

suffix_of-flat : (t : Text) → has_slash t ≡ false → has_slash (suffix_of t) ≡ false
suffix_of-flat [] h = refl
suffix_of-flat (c ∷ cs) h = from_last_dot-flat cs (ground arith)

path_suffix-flat : (t : Text) → has_slash (path_suffix t) ≡ false
path_suffix-flat t =
    suffix_of-flat (path_name t)
      (last_or_empty-Flat (parts t) (keep_parts-Flat (pieces t) (pieces-Flat t)))

pieces-flat : (t : Text) → has_slash t ≡ false → pieces t ≡ t ∷ []
unfolding pieces
pieces-flat [] h = refl
pieces-flat (c ∷ cs) h = ground (arith, pieces-flat cs)

append-flat :
    (t u : Text)
    → all (λ c. not (c == slash) && not (c == dot)) t ≡ true
    → has_slash u ≡ false
    → has_slash (t ++ u) ≡ false
append-flat [] u h k = k
append-flat (c ∷ cs) u h k = ground (arith, append-flat cs u)

pub is_parent-snoc : (d : ResolvedPath) (n : Text) → is_parent d (d ++ (n ∷ [])) ≡ true
unfolding is_parent
is_parent-snoc [] n = refl
is_parent-snoc (p ∷ ps) n = ground (arith, list_eq_self p, is_parent-snoc ps n)

is_part-stem : (t u : Text) → IsStem t → is_part (t ++ u) ≡ true
is_part-stem [] u (h, k) = absurd (ground arith)
is_part-stem (c ∷ []) [] (h, k) = ground arith
is_part-stem (c ∷ []) (d ∷ u) (h, k) = refl
is_part-stem (c ∷ d ∷ cs) u (h, k) = refl

-- It is no absolute path, and it is not `..`.
stem_starts :
    (t u : Text) → IsStem t → (is_absolute (t ++ u) ≡ false) × (list_eq (t ++ u) dot_dot ≡ false)
unfolding list_eq
stem_starts [] u (h, k) = absurd (ground arith)
stem_starts (c ∷ cs) u (h, k) = ground arith

-- A name of the server: a stem and the suffix of what was uploaded.
module _ (hex original : Text) (stem : IsStem hex) where
  parts-stored : parts (hex ++ path_suffix original) ≡ (hex ++ path_suffix original) ∷ []
  unfolding keep_parts
  parts-stored =
      rw
        (pieces-flat (hex ++ path_suffix original)
          (append-flat hex (path_suffix original) stem.1 (path_suffix-flat original)))
        (rw (is_part-stem hex (path_suffix original) stem) refl)

  pub path_name-stored : path_name (hex ++ path_suffix original) ≡ hex ++ path_suffix original
  path_name-stored = ap last_or_empty parts-stored

  pub resolve_in-stored :
      (directory : ResolvedPath)
      → resolve_in directory (hex ++ path_suffix original)
        ≡ directory ++ ((hex ++ path_suffix original) ∷ [])
  unfolding resolve_in walk
  resolve_in-stored directory =
      let (relative, named) = stem_starts hex (path_suffix original) stem in
      rw parts-stored (rw relative (rw named refl))
