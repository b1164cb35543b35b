-- ===== src/Startup.antt =====
-- The start and the end of a server: backend/common/bootstrap.py, backend/app/lifespan.py and
-- `build_infrastructure_registry` of backend/infrastructure/runtime.py. Of what the hooks write into
-- `app.state` the storage of uploads is kept, which handlers read. `create_all` in development has
-- no counterpart, since every table of the model is there; the export of metrics leaves the process.
pub mod Seeds
use enterprise_fast_api_boil.Base.{
  String, Option, none, some, List, [], ◌∷◌, ◌++◌, ◌=s◌, if◌then◌else◌,
}
use enterprise_fast_api_boil.Base.Text.{Text, codes}
use enterprise_fast_api_boil.Base.Outcome.{Outcome, ok, err, Exec, pure, ◌>>=◌, ◌>>◌}
use enterprise_fast_api_boil.Server.{Server, get_db}
use enterprise_fast_api_boil.Rbac.Seed.{ensure_seed_data}
use enterprise_fast_api_boil.Billing.Checkout.{ensure_billing_seed}
use enterprise_fast_api_boil.Resilience.RateLimit.Redis.{SortedSets, Limiter, reset_limiter}
use enterprise_fast_api_boil.Jobs.{Manager, start, stop}
use enterprise_fast_api_boil.Uploads.Paths.{ResolvedPath}
use enterprise_fast_api_boil.Uploads.Storage.{UploadStorage}
use enterprise_fast_api_boil.Events.{EventBus, event_bus}

module _ (S : Type 0) where
  -- `BootstrapRegistry`
  pub record BootstrapRegistry : Type 0 where
    pub startup_hooks : List (Exec S (Unit {0}))
    pub shutdown_hooks : List (Exec S (Unit {0}))

module _ {S : Type 0} where
  abbrev pub no_hooks : BootstrapRegistry S
  no_hooks = record { startup_hooks = []; shutdown_hooks = [] }

  abbrev pub register_startup_hook : Exec S (Unit {0}) → BootstrapRegistry S → BootstrapRegistry S
  register_startup_hook hook r = record r { startup_hooks = r.startup_hooks ++ (hook ∷ []) }

  abbrev pub register_shutdown_hook : Exec S (Unit {0}) → BootstrapRegistry S → BootstrapRegistry S
  register_shutdown_hook hook r = record r { shutdown_hooks = r.shutdown_hooks ++ (hook ∷ []) }

  -- `run_startup_hooks` and `run_shutdown_hooks`: a hook that raises ends the loop.
  unfoldable pub run_hooks : List (Exec S (Unit {0})) → Exec S (Unit {0})
  run_hooks [] = pure tt
  run_hooks (hook ∷ hooks) = do hook; run_hooks hooks

module _ (redis : SortedSets) (J : Type 0) where
  pub record AppState : Type 0 where
    pub limiter : Limiter redis
    pub background_jobs : Manager J
    pub server : Server
    -- `app.state.upload_storage`
    pub upload_storage : Option UploadStorage
    -- `platform_runtime.event_bus`
    pub bus : EventBus Server

abbrev pub text_or_empty : Option Text → Text
text_or_empty none = []
text_or_empty (some t) = t

-- The storage that the settings ask for; the bucket and the container have their addresses.
abbrev pub choose_storage : String → Option Text → Option Text → ResolvedPath → UploadStorage
choose_storage upload_backend bucket container upload_dir =
    if upload_backend =s "s3"
    then UploadStorage.s3 (codes "s3://" ++ (text_or_empty bucket ++ codes "/"))
    else if upload_backend =s "azure"
    then UploadStorage.azure (codes "azure://" ++ (text_or_empty container ++ codes "/"))
    else UploadStorage.local upload_dir

-- The seeds, in a session and a transaction of their own.
unfoldable pub seed_server : Exec Server (Unit {0})
unfolding ensure_seed_data ensure_billing_seed get_db
seed_server = get_db (do ensure_seed_data; ensure_billing_seed)

module _ {redis : SortedSets} {J : Type 0} where
  -- `register_runtime_state`
  abbrev pub register_runtime_state : UploadStorage → Exec (AppState redis J) (Unit {0})
  register_runtime_state storage a =
      (ok tt, record a { upload_storage = some storage; bus = event_bus })

  -- `clear_runtime_state`
  abbrev pub clear_runtime_state : Exec (AppState redis J) (Unit {0})
  clear_runtime_state a = (ok tt, record a { upload_storage = none })

  -- `build_infrastructure_registry`
  abbrev pub infrastructure_registry : UploadStorage → BootstrapRegistry (AppState redis J)
  infrastructure_registry storage =
      register_shutdown_hook clear_runtime_state
        (register_startup_hook (register_runtime_state storage) no_hooks)

  abbrev pub on_server : Exec Server (Unit {0}) → Exec (AppState redis J) (Unit {0})
  on_server call a = let (r, s') = call a.server in (r, record a { server = s' })

  -- `rate_limiter.reset()`
  unfoldable pub reset_first : Exec (AppState redis J) (Unit {0})
  reset_first a =
      let (r, limiter) = reset_limiter redis a.limiter in (r, record a { limiter = limiter })

  -- `lifespan` up to its `yield`
  unfoldable pub start_up :
      BootstrapRegistry (AppState redis J) → Exec (AppState redis J) (Unit {0})
  unfolding reset_first run_hooks seed_server start
  start_up registry = do
    reset_first
    (λ a. (ok tt, record a { background_jobs = start a.background_jobs }))
    run_hooks registry.startup_hooks
    on_server seed_server

  -- `lifespan` after its `yield`
  unfoldable pub shut_down :
      BootstrapRegistry (AppState redis J) → Exec (AppState redis J) (Unit {0})
  unfolding run_hooks stop
  shut_down registry = do
    run_hooks registry.shutdown_hooks
    (λ a. (ok tt, record a { background_jobs = stop a.background_jobs }))
