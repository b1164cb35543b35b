-- ===== src/AuditLog.antt =====
-- The audit log: `AuditLogger.log` and the job that stores its entry, of
-- backend/observability/audit.py, and the search of backend/domain/audit_log/repository.py and
-- backend/app/api/v1/audit_log/router.py. The order of an `ORDER BY` is the database's; details, log
-- lines and the file are left out.
use enterprise_fast_api_boil.Base.{
  ℕ, String, Bool, true, false, not, ◌&&◌, ◌||◌, Option, none, some, List, [], ◌∷◌, ◌++◌, map, take,
  drop, length, select, leb, ◌==◌, ◌=s◌,
}
use enterprise_fast_api_boil.Base.Outcome.{Exec, pure, gets, ◌>>=◌, ◌>>◌}
use enterprise_fast_api_boil.Database.{User, AuditLogEntry}
use enterprise_fast_api_boil.Server.{Server, edit, commit_now}
use enterprise_fast_api_boil.Rbac.Queries.{Actor}
use enterprise_fast_api_boil.Rbac.Assign.{require_permission}

-- The `actor` of an entry: a row, a name, or nobody.
pub data AuditActor : Type 0 where
  as_user : User → AuditActor
  as_name : String → AuditActor
  nobody : AuditActor

abbrev pub actor_id_of : AuditActor → Option ℕ
actor_id_of (as_user u) = some u.id
actor_id_of (as_name n) = none
actor_id_of nobody = none

abbrev pub actor_username_of : AuditActor → Option String
actor_username_of (as_user u) = some u.username
actor_username_of (as_name n) = some n
actor_username_of nobody = none

-- What an entry takes from the request: `request.state`, the method and the path.
pub record RequestInfo : Type 0 where
  pub request_id : Option String
  pub trace_id : Option String
  pub method : String
  pub path : String

abbrev or_else : Option String → Option String → Option String
or_else (some t) other = some t
or_else none other = other

-- The identifiers, where `context_id` is `get_request_id()`.
abbrev pub request_id_of : Option String → Option RequestInfo → Option String
request_id_of context_id none = context_id
request_id_of context_id (some r) = or_else r.request_id context_id

abbrev pub trace_id_of : Option String → Option RequestInfo → Option String
trace_id_of context_id none = context_id
trace_id_of context_id (some r) = or_else r.trace_id (or_else r.request_id context_id)

abbrev pub method_of : Option RequestInfo → Option String
method_of none = none
method_of (some r) = some r.method

abbrev pub path_of : Option RequestInfo → Option String
path_of none = none
path_of (some r) = some r.path

-- The `entry` of `AuditLogger.log`, as the row that `persist_audit_log_entry` makes of it.
unfoldable pub entry_row :
    ℕ
    → ℕ
    → Option String
    → AuditActor
    → String
    → String
    → Option RequestInfo
    → Option ℕ
    → Bool
    → Option String
    → AuditLogEntry
entry_row new_id now context_id actor action resource request status_code success error = record {
  id = new_id;
  actor_id = actor_id_of actor;
  actor_username = actor_username_of actor;
  action = action;
  resource = resource;
  request_id = request_id_of context_id request;
  trace_id = trace_id_of context_id request;
  method = method_of request;
  path = path_of request;
  status_code = status_code;
  success = success;
  error = error;
  created_at = now;
}

-- `persist_audit_log_entry`, given the row but for its key
unfoldable pub persist_audit_log_entry : (ℕ → AuditLogEntry) → Exec Server (Unit {0})
persist_audit_log_entry entry = do
  new_id ← gets (λ s. s.assign_id (map (λ e. e.id) s.work.audit_log_entries))
  edit (λ db. record db { audit_log_entries = db.audit_log_entries ++ (entry new_id ∷ []) })
  commit_now

pub record Filters : Type 0 where
  pub actor_id : Option ℕ
  pub action : Option String
  pub resource : Option String
  pub since : Option ℕ
  pub until : Option ℕ
  pub success : Option Bool

-- `column == value` for a nullable column
abbrev is_id : ℕ → Option ℕ → Bool
is_id i none = false
is_id i (some j) = j == i

abbrev same_flag : Bool → Bool → Bool
same_flag true b = b
same_flag false b = not b

abbrev by_actor : Option ℕ → AuditLogEntry → Bool
by_actor none e = true
by_actor (some i) e = is_id i e.actor_id

-- `if action:`, an empty text being no filter
abbrev by_text : Option String → String → Bool
by_text none value = true
by_text (some t) value = t =s "" || value =s t

abbrev by_since : Option ℕ → AuditLogEntry → Bool
by_since none e = true
by_since (some t) e = leb t e.created_at

abbrev by_until : Option ℕ → AuditLogEntry → Bool
by_until none e = true
by_until (some t) e = leb e.created_at t

abbrev by_success : Option Bool → AuditLogEntry → Bool
by_success none e = true
by_success (some b) e = same_flag b e.success

-- The conjunction of the filters that are given.
unfoldable pub passes : Filters → AuditLogEntry → Bool
passes f e =
    by_actor f.actor_id e
    && by_text f.action e.action
    && by_text f.resource e.resource
    && by_since f.since e
    && by_until f.until e
    && by_success f.success e

module _ (newest_first : List AuditLogEntry → List AuditLogEntry) where
  -- `AuditLogRepository.search`: a page, and the number of all rows that pass.
  unfoldable pub search : Filters → ℕ → ℕ → Exec Server (List AuditLogEntry × ℕ)
  unfolding passes
  search f skip limit = gets (λ s.
      let found = select (passes f) s.work.audit_log_entries in
      (take limit (drop skip (newest_first found)), length found))

  -- GET /audit-log/
  unfoldable pub list_audit_entries : Actor → Filters → ℕ → ℕ → Exec Server (List AuditLogEntry)
  unfolding require_permission search
  list_audit_entries actor f skip limit = do
    require_permission actor ("audit.view" ∷ [])
    found ← search f skip limit
    pure found.0
