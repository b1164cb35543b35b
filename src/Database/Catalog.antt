-- ===== src/Database/Catalog.antt =====
-- The rows of backend/domain/products/model.py and backend/domain/audit_log/model.py. The details of
-- an audit entry, and when a product was made or changed, are read by no rule.
use enterprise_fast_api_boil.Base.{ℕ, String, Bool, Option}

pub record Product : Type 0 where
  pub id : ℕ
  pub name : String
  pub description : Option String
  pub price_cents : ℕ
  pub deleted_at : Option ℕ

pub record AuditLogEntry : Type 0 where
  pub id : ℕ
  pub actor_id : Option ℕ
  pub actor_username : Option String
  pub action : String
  pub resource : String
  pub request_id : Option String
  pub trace_id : Option String
  pub method : Option String
  pub path : Option String
  pub status_code : Option ℕ
  pub success : Bool
  pub error : Option String
  pub created_at : ℕ
