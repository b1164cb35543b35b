-- ===== src/Config/Environment.antt =====
-- `_load_env_file` and the loop over the files in `get_settings` of backend/core/config.py. White space,
-- the ends of lines and the files are parameters; a path stands for the file that it names.
use enterprise_fast_api_boil.Base.{
  ℕ, Bool, true, false, not, ◌||◌, Option, none, some, List, [], ◌∷◌, ◌++◌, any, is_some, ◌==◌,
  if◌then◌else◌,
}
use enterprise_fast_api_boil.Base.Dict.{Dict, get, put}
use enterprise_fast_api_boil.Base.Text.{Text, codes, nat_key, list_key}
use enterprise_fast_api_boil.Base.Outcome.{Error, Outcome, ok, err, and_then}
use enterprise_fast_api_boil.Config.{strip, add_char}

-- `os.environ`
abbrev pub Environment : Type 0
Environment = Dict Text Text

abbrev pub is_full_text : Text → Bool
is_full_text [] = false
is_full_text (c ∷ cs) = true

abbrev pub with_env_file : Option Text → List Text → List Text
with_env_file none usual = usual
with_env_file (some []) usual = usual
with_env_file (some (c ∷ cs)) usual = (c ∷ cs) ∷ usual

-- The paths of the files, in the order in which they are read.
abbrev pub env_paths : Option Text → Text → List Text
env_paths env_file environment = with_env_file env_file (
    codes ".env"
    ∷ (codes ".env." ++ environment)
    ∷ (codes ".env." ++ (environment ++ codes ".local"))
    ∷ codes ".env.local"
    ∷ [])

-- `os.environ.setdefault(key, value)`; the system refuses an empty name.
unfoldable pub set_default : Error → Text → Text → Environment → Outcome Environment
set_default os_error key value env =
    if is_some (get key env)
    then ok env
    else if is_full_text key
    then ok (put key value env)
    else err os_error

module _ (is_space is_line_end : ℕ → Bool) (os_error : Error) where
  -- `splitlines`; the empty lines that it may add or leave out are skipped below.
  unfoldable pub split_lines : Text → List Text
  split_lines [] = [] ∷ []
  split_lines (c ∷ cs) = if is_line_end c then [] ∷ split_lines cs else add_char c (split_lines cs)

  abbrev pub is_comment : Text → Bool
  is_comment [] = true
  is_comment (c ∷ cs) = c == b'#'

  -- `not line or line.startswith("#") or "=" not in line`
  abbrev pub is_skipped : Text → Bool
  is_skipped line = is_comment line || not (any (λ c. c == b'=') line)

  -- `line.split("=", 1)`
  unfoldable pub before_equals : Text → Text
  before_equals [] = []
  before_equals (c ∷ cs) = let rest = before_equals cs in if c == b'=' then [] else c ∷ rest

  unfoldable pub after_equals : Text → Text
  after_equals [] = []
  after_equals (c ∷ cs) = let rest = after_equals cs in if c == b'=' then cs else rest

  -- `value.strip().strip('"').strip("'")`
  abbrev pub unquoted : Text → Text
  unquoted value = strip (λ c. c == b'\'') (strip (λ c. c == b'"') (strip is_space value))

  -- The names and values that a file defines, in order.
  unfoldable pub entries : List Text → List (Text × Text)
  unfolding before_equals after_equals
  entries [] = []
  entries (raw_line ∷ raw_lines) =
      let line = strip is_space raw_line in
      let rest = entries raw_lines in
      if is_skipped line
      then rest
      else (strip is_space (before_equals line), unquoted (after_equals line)) ∷ rest

  unfoldable pub set_defaults : List (Text × Text) → Environment → Outcome Environment
  unfolding set_default
  set_defaults [] env = ok env
  set_defaults ((key, value) ∷ rest) env =
      and_then (set_default os_error key value env) (set_defaults rest)

  abbrev pub entries_of : Option Text → List (Text × Text)
  entries_of none = []
  entries_of (some contents) = entries (split_lines contents)

  module _ (read_file : Text → Option Text) where
    -- `_load_env_file`
    abbrev pub load_env_file : Text → Environment → Outcome Environment
    load_env_file path env = set_defaults (entries_of (read_file path)) env

    -- The loop of `get_settings` over the files.
    unfoldable pub load_env_files : List Text → Environment → Outcome Environment
    unfolding set_defaults entries split_lines
    load_env_files [] env = ok env
    load_env_files (path ∷ paths) env = and_then (load_env_file path env) (load_env_files paths)
