-- ===== src/Tests/Startup.antt =====
-- Files of variables, a server that starts and a password that is hashed, at concrete inputs.
use enterprise_fast_api_boil.Base.{
  ℕ, ◌≡◌, refl, Bool, true, false, Option, none, some, List, [], ◌∷◌, ◌++◌, ◌==◌, if◌then◌else◌,
}
use enterprise_fast_api_boil.Base.Int.{ℤ, pos}
use enterprise_fast_api_boil.Base.Dict.{get, put}
use enterprise_fast_api_boil.Base.Text.{Text, codes, nat_key, list_key, list_eq}
use enterprise_fast_api_boil.Base.Outcome.{Error, value_error, ok, err}
use enterprise_fast_api_boil.Config.{strip_left, strip_right}
use enterprise_fast_api_boil.Config.Environment.{
  Environment, env_paths, set_default, set_defaults, split_lines, entries, load_env_files,
}
use enterprise_fast_api_boil.Config.Precedence.{first_of, definitions, load_env_files_lem}
use enterprise_fast_api_boil.Users.Hashing.{hash_with_salt, verify_text, verify-hash}
use enterprise_fast_api_boil.Events.{event_bus}
use enterprise_fast_api_boil.Jobs.{fresh}
use enterprise_fast_api_boil.Server.{Server}
use enterprise_fast_api_boil.Uploads.Storage.{UploadStorage}
use enterprise_fast_api_boil.Resilience.RateLimit.Redis.{
  RedisRateLimiter, shared, over_redis, no_reset,
}
use enterprise_fast_api_boil.Tests.Counters.{sorted_sets}
use enterprise_fast_api_boil.Startup.{AppState, infrastructure_registry, start_up}
use enterprise_fast_api_boil.Startup.Seeds.{HasSeed, start_up_lem}
use enterprise_fast_api_boil.Tests.Data.{server}

abbrev is_blank : ℕ → Bool
is_blank c = c == b' '

abbrev is_newline : ℕ → Bool
is_newline c = c == 10

abbrev refused : Error
refused = value_error "illegal environment variable name"

-- Two files that both define PORT.
abbrev read_file : Text → Option Text
read_file path =
    if list_eq path (codes ".env")
    then some (codes "# usual\nPORT = '80'\n")
    else if list_eq path (codes ".env.local")
    then some (codes "PORT=81\nHOST=a")
    else none

abbrev variables : Environment
variables = (codes "ENV", codes "dev") ∷ []

abbrev paths : List Text
paths = env_paths none (codes "dev")

abbrev loaded : Environment
loaded = put (codes "HOST") (codes "a") (put (codes "PORT") (codes "80") variables)

files_loaded : load_env_files is_blank is_newline refused read_file paths variables ≡ ok loaded
unfolding load_env_files set_defaults set_default entries split_lines strip_left strip_right list_eq
    get put
files_loaded = refl

load_env_files_lem_example :
    get (codes "PORT") loaded
    ≡ first_of
        (get (codes "PORT") variables)
        (get (codes "PORT") (definitions is_blank is_newline refused read_file paths))
load_env_files_lem_example =
    load_env_files_lem is_blank is_newline refused read_file (codes "PORT") paths variables loaded
      files_loaded

port_is_first : get (codes "PORT") loaded ≡ some (codes "80")
unfolding get put list_eq
port_is_first = refl

-- In place of the derived key: the password and the salt.
abbrev derive : Text → Text → ℕ → Text
derive password salt iterations = password ++ salt

abbrev int_of : Text → Option ℤ
int_of t = if list_eq t (codes "100000") then some (pos 100_000) else none

verify-hash_example :
    (verify_text derive int_of refused
        (codes "Abc1")
        (hash_with_salt derive int_of refused (codes "5f") (codes "Abc1"))
      ≡ ok true)
    × (verify_text derive int_of refused
          (codes "abc1")
          (hash_with_salt derive int_of refused (codes "5f") (codes "Abc1"))
        ≡ ok (
            list_eq
              (derive (codes "abc1") (codes "5f") 100_000)
              (derive (codes "Abc1") (codes "5f") 100_000)))
unfolding list_eq
verify-hash_example =
    verify-hash derive int_of refused (codes "5f") (codes "Abc1") (codes "abc1") refl refl refl refl

abbrev new_server : Server
new_server = record server { rbac_seeded = false; billing_seeded = false }

abbrev app : AppState sorted_sets ℕ
app = record {
  limiter = shared [];
  background_jobs = fresh;
  server = new_server;
  upload_storage = none;
  bus = event_bus;
}

abbrev storage : UploadStorage
storage = UploadStorage.local (codes "uploads" ∷ [])

-- A second process on the database of the first.
abbrev second_app : AppState sorted_sets ℕ
second_app =
    let db = (start_up (infrastructure_registry storage) app).1.server.durable in
    record app { server = record new_server { durable = db; work = db } }

abbrev redis_limiter : RedisRateLimiter sorted_sets
redis_limiter = record { store = λ k. ([], none); fallback = [] }

abbrev deployed : AppState sorted_sets ℕ
deployed = record app { limiter = over_redis redis_limiter }

start_up_lem_example :
    let (r, a') = start_up (infrastructure_registry storage) app in
    let (q, b') = start_up (infrastructure_registry storage) second_app in
    (r ≡ ok tt)
    × HasSeed a'.server.durable
    × (a'.server.work ≡ a'.server.durable)
    × (a'.server.rbac_seeded ≡ true)
    × (a'.server.billing_seeded ≡ true)
    × (q ≡ ok tt)
    × (b'.server.durable ≡ a'.server.durable)
    × (start_up (infrastructure_registry storage) deployed ≡ (err no_reset, deployed))
start_up_lem_example =
    start_up_lem storage app second_app deployed [] [] redis_limiter refl refl refl
      (refl, refl, refl) (refl, refl, refl) refl
