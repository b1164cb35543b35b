-- ===== src/Config/Settings.antt =====
-- `_read_secret_value`, `_normalize_env_list_settings` and `get_settings` of backend/core/config.py, over the
-- variables of the process and the files of the server. Reading of the variables by pydantic is a
-- parameter, and so is `json.dumps`.
use enterprise_fast_api_boil.Base.{
  ℕ, Bool, false, not, ◌&&◌, Option, none, some, List, [], ◌∷◌, ◌++◌, is_some, ◌==◌, if◌then◌else◌,
}
use enterprise_fast_api_boil.Base.Dict.{get, put}
use enterprise_fast_api_boil.Base.Text.{Text, codes, nat_key, list_key, list_eq}
use enterprise_fast_api_boil.Base.Outcome.{Error, Outcome, ok, and_then}
use enterprise_fast_api_boil.Config.{
  split, strip, clean, starts_with_bracket, listed, parse_string_list,
}
use enterprise_fast_api_boil.Config.Environment.{
  Environment, is_full_text, env_paths, load_env_files,
}

-- `value or other`
abbrev pub text_or_else : Option Text → Option Text → Option Text
text_or_else none other = other
text_or_else (some []) other = other
text_or_else (some (c ∷ cs)) other = some (c ∷ cs)

abbrev pub text_or_default : Option Text → Text → Text
text_or_default none other = other
text_or_default (some []) other = other
text_or_default (some (c ∷ cs)) other = c ∷ cs

abbrev pub or_empty : Option Text → Text
or_empty none = []
or_empty (some t) = t

-- The fields of the settings that `get_settings` works on.
pub record Loaded : Type 0 where
  pub environment : Text
  pub app_env : Text
  pub database_url : Text
  pub database_url_file : Option Text
  pub redis_url : Text
  pub redis_url_file : Option Text
  pub secret_key : Text
  pub secret_key_file : Option Text
  pub cors_origins : List Text
  pub trusted_proxy_ips : List Text

module _ (is_space is_line_end : ℕ → Bool) (os_error : Error) (read_file : Text → Option Text) where
  abbrev pub is_absolute_path : Text → Bool
  is_absolute_path [] = false
  is_absolute_path (c ∷ cs) = c == b'/'

  abbrev pub in_secrets_dir : Option Text → Text → Text
  in_secrets_dir none path = path
  in_secrets_dir (some []) path = path
  in_secrets_dir (some (c ∷ cs)) path =
      let candidate = (c ∷ cs) ++ (b'/' ∷ path) in
      if is_some (read_file candidate) then candidate else path

  -- `_resolve_secret_path`, for a path that is not empty
  abbrev pub resolve_secret_path : Environment → Text → Text
  resolve_secret_path env path =
      if is_absolute_path path then path else in_secrets_dir (get (codes "SECRETS_DIR") env) path

  abbrev pub own_value : Option Text → Option Text
  own_value value = text_or_else value none

  abbrev pub contents_or : Option Text → Option Text → Option Text
  contents_or (some contents) value = some (strip is_space contents)
  contents_or none value = own_value value

  -- `_read_secret_value`
  unfoldable pub read_secret_value : Environment → Option Text → Option Text → Option Text
  unfolding get
  read_secret_value env value none = own_value value
  read_secret_value env value (some []) = own_value value
  read_secret_value env value (some (c ∷ cs)) =
      contents_or (read_file (resolve_secret_path env (c ∷ cs))) value

  abbrev pub put_some : Text → Option Text → Environment → Environment
  put_some key none env = env
  put_some key (some value) env = put key value env

  -- A variable, or the contents of the file that its `_FILE` names, put into the environment.
  unfoldable pub resolve_variable : Environment → Text → Environment → Environment
  unfolding read_secret_value put
  resolve_variable given key env =
      put_some key (read_secret_value given (get key given) (get (key ++ codes "_FILE") given)) env

  -- `_normalize_env_list_settings`
  abbrev pub normalize_env_list_settings : (List Text → Text) → Environment → Environment
  normalize_env_list_settings dumps env =
      let cors_origins = or_empty (get (codes "CORS_ORIGINS") env) in
      if is_full_text cors_origins && not (starts_with_bracket is_space cors_origins)
      then put (codes "CORS_ORIGINS") (dumps (clean is_space (split cors_origins))) env
      else env

  -- `_read_secret_value(value, file) or value`
  abbrev pub secret_or_same : Environment → Text → Option Text → Text
  secret_or_same env value file_field =
      text_or_default (read_secret_value env (some value) file_field) value

  -- What `get_settings` does with the settings that were read.
  abbrev pub finish_settings : (Text → Option (List Text)) → Environment → Loaded → Loaded
  finish_settings loads env settings = record settings {
    app_env =
        if not (is_some (get (codes "APP_ENV") env)) && list_eq settings.app_env (codes "dev")
        then settings.environment
        else settings.app_env;
    database_url = secret_or_same env settings.database_url settings.database_url_file;
    redis_url = secret_or_same env settings.redis_url settings.redis_url_file;
    secret_key = secret_or_same env settings.secret_key settings.secret_key_file;
    cors_origins = parse_string_list is_space loads (listed settings.cors_origins);
    trusted_proxy_ips = parse_string_list is_space loads (listed settings.trusted_proxy_ips);
  }

  abbrev pub chosen_environment : Environment → Text
  chosen_environment env =
      text_or_default (text_or_else (get (codes "ENVIRONMENT") env) (get (codes "APP_ENV") env))
        (codes "dev")

  -- The variables after the files and the secrets were read.
  unfoldable pub load_environment : (List Text → Text) → Environment → Outcome Environment
  unfolding load_env_files resolve_variable clean split get put
  load_environment dumps env =
      let normal = normalize_env_list_settings dumps env in
      and_then
        (load_env_files is_space is_line_end os_error read_file
          (env_paths (get (codes "ENV_FILE") normal) (chosen_environment normal)) normal)
        (λ loaded. ok (
          resolve_variable loaded (codes "SECRET_KEY") (
            resolve_variable loaded (codes "REDIS_URL")
              (resolve_variable loaded (codes "DATABASE_URL") loaded))))

  -- `get_settings`, with the environment that it leaves
  unfoldable pub get_settings :
      (List Text → Text)
      → (Text → Option (List Text))
      → (Environment → Outcome Loaded)
      → Environment
      → Outcome (Loaded × Environment)
  unfolding load_environment parse_string_list
  get_settings dumps loads build env = and_then (load_environment dumps env) (λ loaded.
      and_then (build loaded) (λ settings. ok (finish_settings loads loaded settings, loaded)))
