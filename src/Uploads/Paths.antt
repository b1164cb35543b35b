-- ===== src/Uploads/Paths.antt =====
-- What the uploads use of `pathlib`, for POSIX paths without symbolic links: a name is the list of
-- the codes of its characters, a resolved path the list of its components from the root.
use enterprise_fast_api_boil.Base.{
  ℕ, Bool, true, false, not, ◌&&◌, List, [], ◌∷◌, ◌++◌, any, ◌==◌, if◌then◌else◌,
}
use enterprise_fast_api_boil.Base.Text.{Text, nat_key, list_eq}

abbrev pub slash : ℕ
slash = b'/'

abbrev pub dot : ℕ
dot = b'.'

abbrev pub ResolvedPath : Type 0
ResolvedPath = List Text

abbrev pub first_to : ℕ → List Text → List Text
first_to c [] = (c ∷ []) ∷ []
first_to c (part ∷ parts) = (c ∷ part) ∷ parts

-- the texts between the slashes
unfoldable pub pieces : Text → List Text
pieces [] = [] ∷ []
pieces (c ∷ cs) = if c == slash then [] ∷ pieces cs else first_to c (pieces cs)

-- `""` and `"."` are no components of a path.
abbrev pub is_part : Text → Bool
is_part [] = false
is_part (c ∷ []) = not (c == dot)
is_part (c ∷ d ∷ cs) = true

unfoldable pub keep_parts : List Text → List Text
keep_parts [] = []
keep_parts (p ∷ ps) = let rest = keep_parts ps in if is_part p then p ∷ rest else rest

-- the components of `Path(t)`
abbrev pub parts : Text → List Text
parts t = keep_parts (pieces t)

abbrev pub last_or_empty : List Text → Text
last_or_empty [] = []
last_or_empty (p ∷ []) = p
last_or_empty (p ∷ q ∷ ps) = last_or_empty (q ∷ ps)

-- `Path(t).name`
abbrev pub path_name : Text → Text
path_name t = last_or_empty (parts t)

abbrev pub is_empty : Text → Bool
is_empty [] = true
is_empty (c ∷ cs) = false

-- From the last dot on, where something follows it.
unfoldable pub from_last_dot : Text → Text
from_last_dot [] = []
from_last_dot (c ∷ cs) =
    let later = from_last_dot cs in
    if any (λ d. d == dot) cs then later else if c == dot && not (is_empty cs) then c ∷ cs else []

-- A dot at the front of a name begins no suffix.
abbrev pub suffix_of : Text → Text
suffix_of [] = []
suffix_of (c ∷ cs) = from_last_dot cs

-- `Path(t).suffix`
abbrev pub path_suffix : Text → Text
path_suffix t = suffix_of (path_name t)

abbrev pub is_absolute : Text → Bool
is_absolute [] = false
is_absolute (c ∷ cs) = c == slash

abbrev pub dot_dot : Text
dot_dot = dot ∷ dot ∷ []

abbrev pub parent : ResolvedPath → ResolvedPath
parent [] = []
parent (p ∷ []) = []
parent (p ∷ q ∷ ps) = p ∷ parent (q ∷ ps)

-- `resolve()`: `..` goes up.
unfoldable pub walk : ResolvedPath → List Text → ResolvedPath
walk at [] = at
walk at (p ∷ ps) = walk (if list_eq p dot_dot then parent at else at ++ (p ∷ [])) ps

-- `(directory / t).resolve()`: an absolute path takes the place of the directory.
unfoldable pub resolve_in : ResolvedPath → Text → ResolvedPath
unfolding walk
resolve_in directory t = walk (if is_absolute t then [] else directory) (parts t)

-- `directory in path.parents`
unfoldable pub is_parent : ResolvedPath → ResolvedPath → Bool
unfolding list_eq
is_parent [] [] = false
is_parent [] (p ∷ ps) = true
is_parent (d ∷ ds) [] = false
is_parent (d ∷ ds) (p ∷ ps) = list_eq d p && is_parent ds ps
