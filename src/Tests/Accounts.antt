-- ===== src/Tests/Accounts.antt =====
-- Theorems on registration, on the accounts' own routes and on events, applied.
use enterprise_fast_api_boil.Base.{
  ℕ, List, ◌≤◌, String, ◌≡◌, ◌≢◌, ◌⊎◌, refl, true, false, none, some, [], ◌∷◌, ◌++◌, map, find, any,
  select, length, arith,
}
use enterprise_fast_api_boil.Base.Dict.{get, put, pair_eq}
use enterprise_fast_api_boil.Base.Member.{In}
use enterprise_fast_api_boil.Base.Outcome.{Outcome, ok, err, is_ok, domain, duplicate}
use enterprise_fast_api_boil.Database.{User, Plan}
use enterprise_fast_api_boil.Server.{Server}
use enterprise_fast_api_boil.Users.{has_email, is_live, get_by_email, get_by_username}
use enterprise_fast_api_boil.Users.Public.{UserOut, to_public}
use enterprise_fast_api_boil.Resilience.RateLimit.Guard.{
  Guarded, limited, allowed, too_many_requests,
}
use enterprise_fast_api_boil.Resilience.RateLimit.{allow_request, recent}
use enterprise_fast_api_boil.Webhooks.{dispatch, create_deliveries}
use enterprise_fast_api_boil.Events.{subscribe, handlers, run_handlers, publish}
use enterprise_fast_api_boil.Registration.{
  UserCreate, is_free, register, create_user_row, free_plan, subscribe_free,
}
use enterprise_fast_api_boil.Registration.Accepted.{
  IsUnprivileged, has_plan, register_open, register_taken,
}
use enterprise_fast_api_boil.Registration.Route.{create_user}
use enterprise_fast_api_boil.Registration.Route as Route
use enterprise_fast_api_boil.Registration.Replay.{Event, posts, elsewhere, events, create_user_once}
use enterprise_fast_api_boil.Registration.Stores.{in_memory_store}
use enterprise_fast_api_boil.Users as Users
use enterprise_fast_api_boil.Users.{get_by_id, list_users, count_users}
use enterprise_fast_api_boil.Tokens.Store.{revoke_all_for_user, delete_entry}
use enterprise_fast_api_boil.Profile.Fields.{UserUpdate, unset, null, given, is_empty, has_null}
use enterprise_fast_api_boil.Profile.{Desk, update_user, update_profile, update_own, update_row}
use enterprise_fast_api_boil.Profile.Privileges.{protected_of, update_user_keeps_privileges}
use enterprise_fast_api_boil.Profile.Routes.{list_user_page}
use enterprise_fast_api_boil.Profile.Pages.{
  rows_of, follow, pages_of, IsRearranged, list_user_page_lem,
}
use enterprise_fast_api_boil.Tests.Memory.{in_memory}
use enterprise_fast_api_boil.Tests.Sessions.{auth}
use enterprise_fast_api_boil.Tests.Data.{server, cy, as_actor, ann}

abbrev new_account : UserCreate
new_account = record { email = "dee@example.org"; username = "dee"; password = "Secret-9" }

abbrev same_address : UserCreate
same_address = record new_account { email = "cy@example.org" }

abbrev identity : String → String
identity t = t

abbrev result : Outcome UserOut × Server
result = register identity none 7 new_account server

register_open_example :
    (user : User) × (result.0 ≡ ok (to_public user))
    × (result.1.work.users ≡ server.work.users ++ (user ∷ []))
    × IsUnprivileged user
    × (user.email ≡ "dee@example.org")
    × (user.username ≡ "dee")
    × (user.hashed_password ≡ "Secret-9")
    × ((plan : Plan) × (find is_free result.1.work.plans ≡ some plan)
        × (any (has_plan user plan) result.1.work.subscriptions ≡ true))
register_open_example = register_open identity none 7 new_account server refl refl

register_taken_example :
    (is_ok (register identity none 7 same_address server).0 ≡ false)
    × ((register identity none 7 same_address server).1 ≡ server)
    × ((length (select (has_email "cy@example.org") server.work.users) ≢ 1)
        ⊎ ((register identity none 7 same_address server).0
            ≡ err (domain (duplicate "Email already registered"))))
register_taken_example = register_taken identity none 7 same_address server refl

abbrev door : Guarded (Route.Desk in_memory_store)
door = record { inner = record { server = server; responses = [] }; requests = [] }

abbrev first_answer : Outcome UserOut × Guarded (Route.Desk in_memory_store)
first_answer =
    create_user in_memory_store identity identity none 1 7 "10.0.0.1" (some "k1") new_account door

-- A request for a taken address comes in between.
abbrev meanwhile : List (Event in_memory_store identity identity none)
meanwhile = posts 2 8 "10.0.0.3" (some "k2") same_address ∷ elsewhere (λ s. s) ∷ []

abbrev before_second : Guarded (Route.Desk in_memory_store)
before_second = events in_memory_store identity identity none meanwhile first_answer.1

abbrev second_answer : Outcome UserOut × Guarded (Route.Desk in_memory_store)
second_answer =
    create_user in_memory_store identity identity none 3 9 "10.0.0.2" (some "k1") same_address
      before_second

abbrev dee : UserOut
dee = record {
  id = 4;
  email = "dee@example.org";
  username = "dee";
  is_active = true;
  is_verified = false;
  is_superuser = false;
  role = "user";
  permissions = [];
}

create_user_once_example :
    (second_answer.1.inner ≡ before_second.inner)
    × ((second_answer.0 ≡ ok dee) ⊎ (second_answer.0 ≡ err too_many_requests))
unfolding create_user limited allowed allow_request recent register get_by_email get_by_username
    create_user_row free_plan subscribe_free publish handlers subscribe run_handlers dispatch
    create_deliveries get put pair_eq
create_user_once_example =
    create_user_once in_memory_store identity identity none 1 3 7 9 "10.0.0.1" "10.0.0.2" "k1"
      new_account same_address meanwhile door dee refl refl refl (omega arith, (omega arith, tt))
      (omega arith) (omega arith)

abbrev desk : Desk in_memory
desk = record { auth = auth; own = record { values = []; sets = λ k. [] } }

-- A plain user asks for every right, and a new name.
abbrev greedy : UserUpdate
greedy = record {
  email = unset;
  username = given "chi";
  password = given "Secret-9";
  is_superuser = given true;
  is_active = unset;
  role = given "admin";
  permissions = null;
}

update_user_keeps_privileges_example :
    protected_of in_memory 3 (update_user in_memory identity 5 (as_actor cy) 3 greedy desk).1
    ≡ protected_of in_memory 3 desk
update_user_keeps_privileges_example =
    update_user_keeps_privileges in_memory identity 5 (as_actor cy) greedy refl 3 desk

-- The update does change the name.
greedy_renames :
    map
      (λ u. u.username)
      (update_user in_memory identity 5 (as_actor cy) 3 greedy desk).1.auth.server.work.users
    ≡ ("ann@example.org" ∷ "bob@example.org" ∷ "chi" ∷ [])
unfolding update_user update_profile update_own update_row get_by_id get_by_email get_by_username
    is_empty has_null Users.update_user revoke_all_for_user delete_entry
greedy_renames = refl

as_inserted : IsRearranged server.row_order
as_inserted = record { same_length = λ skip limit xs. refl; same_rows = λ skip limit xs u m. m }

list_user_page_lem_example :
    let items =
      follow (pages_of (list_user_page 0 2 (as_actor ann) server).0) 0 2 (as_actor ann) server in
    (length items ≡ length (select is_live server.work.users))
    × ((out : UserOut) → In out items → In out (map to_public (select is_live server.work.users)))
    × ((skip : ℕ) → length (rows_of (list_user_page skip 2 (as_actor ann) server).0) ≤ 2)
list_user_page_lem_example =
    list_user_page_lem (as_actor ann) server refl as_inserted 2 (omega arith)
