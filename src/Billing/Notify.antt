-- ===== src/Billing/Notify.antt =====
-- The job that stores a notification: `billing_notification` of backend/common/background_jobs.py.
use enterprise_fast_api_boil.Base.{ℕ, String, false, [], ◌∷◌, ◌++◌, map}
use enterprise_fast_api_boil.Base.Outcome.{Exec, gets, ◌>>=◌, ◌>>◌}
use enterprise_fast_api_boil.Server.{Server, edit, commit_now}

unfoldable pub handle_billing_notification : ℕ → String → String → String → Exec Server (Unit {0})
handle_billing_notification user_id kind title body = do
  new_id ← gets (λ s. s.assign_id (map (λ n. n.id) s.work.notifications))
  edit (λ db. record db {
    notifications =
        db.notifications
        ++ (record {
          id = new_id;
          user_id = user_id;
          kind = kind;
          title = title;
          body = body;
          is_read = false;
        }
            ∷ []);
  })
  commit_now
