-- ===== src/Migration/Repeat.antt =====
-- What `upgrade` and then `downgrade` leave behind, on any database.
use enterprise_fast_api_boil.Base.{
  String, ◌≡◌, refl, ap, ◌∙◌, map, inl, inr, Option-cases, Bool, true, false, none, some, List, [],
  ◌∷◌, ◌++◌, arith,
}
use enterprise_fast_api_boil.Migration.{Operation, Table, create_table, exists_after, Engine, run}
use enterprise_fast_api_boil.Base.{All}
use enterprise_fast_api_boil.Migration.Accounts.{api_keys_table, create_users}
use enterprise_fast_api_boil.Migration.Initial.{upgrade, downgrade}

-- Which tables there are after operations that succeeded.
tables_after : List Operation → String → Bool → Bool
tables_after [] n old = old
tables_after (op ∷ ops) n old = tables_after ops n (exists_after op n old)

-- The tables that `downgrade` drops.
abbrev pub dropped : List String
dropped =
    "users" ∷ "products" ∷ "roles" ∷ "permissions" ∷ "role_permissions" ∷ "user_roles" ∷ "plans"
    ∷ "features" ∷ "plan_features" ∷ "subscriptions" ∷ "payment_events" ∷ "notifications"
    ∷ "invoices" ∷ []

abbrev pub left_over : List String
left_over = "api_keys" ∷ "audit_log_entries" ∷ "webhook_endpoints" ∷ "webhook_deliveries" ∷ []

module _ (E : Engine) where
  has_table-run :
      (ops : List Operation) (n : String) (s s' : E.State)
      → run E ops s ≡ some s'
      → E.has_table n s' ≡ tables_after ops n (E.has_table n s)
  unfolding run tables_after
  has_table-run [] n s s' h = ground arith
  has_table-run (op ∷ ops) n s s' h = elim (Option-cases (E.apply op s)) [
    | inl e ↦ absurd (ground (arith, e))
    | inr (t, e) ↦
        has_table-run ops n t s' (ground (arith, e))
        ∙ ap (tables_after ops n) (E.has_table-apply op n s t e)
  ]

  run-create_existing :
      (ops : List Operation) (t : Table) (rest : List Operation) (s : E.State)
      → tables_after ops t.name (E.has_table t.name s) ≡ true
      → run E (ops ++ (create_table t ∷ rest)) s ≡ none
  unfolding run tables_after
  run-create_existing [] t rest s h = rw (E.create_existing t s h)
  run-create_existing (op ∷ ops) t rest s h = elim (Option-cases (E.apply op s)) [
    | inl e ↦ rw e
    | inr (u, e) ↦
        rw e (run-create_existing ops t rest u (rw (E.has_table-apply op t.name s u e) h))
  ]

  -- What holds of the tables computed holds of the database.
  All-has_table :
      (s s₂ : E.State) (known : Bool → String → Bool) (b : Bool) (names : List String)
      → ((n : String) → E.has_table n s₂ ≡ known (E.has_table n s) n)
      → map (λ n. known (E.has_table n s) n) names ≡ map (λ _. b) names
      → All (λ n. E.has_table n s₂ ≡ b) names
  All-has_table s s₂ known b [] e h = tt
  All-has_table s s₂ known b (n ∷ names) e h = (e n ∙ cc, All-has_table s s₂ known b names e (cc))

  -- Where `upgrade` and then `downgrade` succeed, four of the tables are still there, all others of
  -- the schema are gone, and a second `upgrade` fails.
  pub upgrade_again :
      (s s₁ s₂ : E.State)
      → run E upgrade s ≡ some s₁
      → run E downgrade s₁ ≡ some s₂
      → All (λ n. E.has_table n s₂ ≡ true) left_over
        × All (λ n. E.has_table n s₂ ≡ false) dropped
        × (run E upgrade s₂ ≡ none)
  unfolding tables_after
  upgrade_again s s₁ s₂ up down =
      let tables = λ (n : String).
        has_table-run downgrade n s₁ s₂ down
        ∙ ap (tables_after downgrade n) (has_table-run upgrade n s s₁ up) in
      let known =
        λ (old : Bool) (n : String). tables_after downgrade n (tables_after upgrade n old) in
      (
        All-has_table s s₂ known true left_over tables refl,
        All-has_table s s₂ known false dropped tables refl,
        run-create_existing create_users api_keys_table _ s₂ (tables "api_keys"),
      )
