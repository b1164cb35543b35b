-- ===== src/Config/Precedence.antt =====
-- Which definition of a variable counts, where several files define it.
use enterprise_fast_api_boil.Base.{
  ℕ, ◌≡◌, refl, sym, ap, ◌∙◌, Bool, Option, none, some, List, [], ◌∷◌, ◌++◌, is_some, arith,
  Bool-cases, Option-cases, inl, inr, if◌then◌else◌,
}
use enterprise_fast_api_boil.Base.Dict.{Key, Dict, get, put, get-put}
use enterprise_fast_api_boil.Base.Text.{Text, nat_key, list_key}
use enterprise_fast_api_boil.Base.Outcome.{Error, Outcome, ok, err, and_then}
use enterprise_fast_api_boil.Config.Environment.{
  Environment, is_full_text, set_default, set_defaults, entries_of, load_env_files,
}

abbrev pub first_of : Option Text → Option Text → Option Text
first_of (some t) other = some t
first_of none other = other

first_of_assoc : (a b c : Option Text) → first_of (first_of a b) c ≡ first_of a (first_of b c)
first_of_assoc (some t) b c = refl
first_of_assoc none b c = refl

first_of-none : (o : Option Text) → first_of o none ≡ o
first_of-none (some t) = refl
first_of-none none = refl

module _ {K : Type 0} ⦃e : Key K⦄ where
  get-append : (k : K) (xs ys : Dict K Text) → get k (xs ++ ys) ≡ first_of (get k xs) (get k ys)
  unfolding get
  get-append k [] ys = refl
  get-append k ((j, v) ∷ xs) ys = ground (arith, get-append k xs ys)

  get-default :
      (k key : K) (value : Text) (env : Dict K Text)
      → get k (if is_some (get key env) then env else put key value env)
        ≡ first_of (get k env) (if e.beq key k then some value else none)
  get-default k key value env = elim (Option-cases (get key env)) [
    | inl absent ↦ rw absent (
        get-put key k value env
        ∙ ground (arith, absent, e.beq_iff key k, first_of-none (get k env)))
    | inr (v, given) ↦ ground (arith, given, e.beq_iff key k, first_of-none (get k env))
  ]

ok_eq : {A : Type 0} (a b : A) → ok a ≡ ok b → a ≡ b
ok_eq a b h = cc

and_then-ok :
    {A B : Type 0} (r : Outcome A) (f : A → Outcome B) (b : B)
    → and_then r f ≡ ok b
    → (a : A) × (r ≡ ok a) × (f a ≡ ok b)
and_then-ok (ok a) f b h = (a, refl, h)
and_then-ok (err e) f b h = absurd (ground arith)

set_default-ok :
    (os_error : Error) (key value : Text) (env env' : Environment)
    → set_default os_error key value env ≡ ok env'
    → env' ≡ (if is_some (get key env) then env else put key value env)
unfolding set_default
set_default-ok os_error key value env env' h = elim (Bool-cases (is_some (get key env))) [
  | inl given ↦ rw given (sym (ok_eq env env' (rw given at h)))
  | inr absent ↦ elim (Bool-cases (is_full_text key)) [
    | inl full ↦ rw absent (sym (ok_eq (put key value env) env' (rw full at (rw absent at h))))
    | inr empty ↦ absurd (ground (arith, rw empty at (rw absent at h)))
  ]
]

module _ (is_space is_line_end : ℕ → Bool) (os_error : Error) where
  get-set_defaults :
      (k : Text) (defs : List (Text × Text)) (env env' : Environment)
      → set_defaults is_space is_line_end os_error defs env ≡ ok env'
      → get k env' ≡ first_of (get k env) (get k defs)
  unfolding set_defaults get
  get-set_defaults k [] env env' h = rw (ok_eq env env' h) (sym (first_of-none (get k env')))
  get-set_defaults k ((key, value) ∷ defs) env env' h =
      let (env₁, one, rest) =
        and_then-ok (set_default os_error key value env)
          (set_defaults is_space is_line_end os_error defs) env' h in
      get-set_defaults k defs env₁ env' rest
      ∙ ap (λ o. first_of o (get k defs))
          (ap (get k) (set_default-ok os_error key value env env₁ one)
            ∙ get-default k key value env)
      ∙ first_of_assoc (get k env) (get k ((key, value) ∷ [])) (get k defs)
      ∙ ap (first_of (get k env)) (sym (get-append k ((key, value) ∷ []) defs))

  module _ (read_file : Text → Option Text) where
    -- All that the files define, in the order in which they are read.
    abbrev pub definitions : List Text → List (Text × Text)
    definitions [] = []
    definitions (path ∷ paths) =
        entries_of is_space is_line_end os_error (read_file path) ++ definitions paths

    -- After the files were read, a variable of the process has the value that it had before; any other
    -- has the first value that a file defines for it, in the order of the files and of their lines.
    pub load_env_files_lem :
        (k : Text) (paths : List Text) (env env' : Environment)
        → load_env_files is_space is_line_end os_error read_file paths env ≡ ok env'
        → get k env' ≡ first_of (get k env) (get k (definitions paths))
    unfolding load_env_files get
    load_env_files_lem k [] env env' h = rw (ok_eq env env' h) (sym (first_of-none (get k env')))
    load_env_files_lem k (path ∷ paths) env env' h =
        let defs = entries_of is_space is_line_end os_error (read_file path) in
        let (env₁, one, rest) =
          and_then-ok (set_defaults is_space is_line_end os_error defs env)
            (load_env_files is_space is_line_end os_error read_file paths) env' h in
        load_env_files_lem k paths env₁ env' rest
        ∙ ap (λ o. first_of o (get k (definitions paths))) (get-set_defaults k defs env env₁ one)
        ∙ first_of_assoc (get k env) (get k defs) (get k (definitions paths))
        ∙ ap (first_of (get k env)) (sym (get-append k defs (definitions paths)))
