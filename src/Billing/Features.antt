-- ===== src/Billing/Features.antt =====
-- What the answer of `BillingService.user_has_feature` says of the tables, and the two gates on it.
use enterprise_fast_api_boil.Base.{
  ℕ, ◌≤◌, String, ◌≡◌, refl, ◌↔◌, Bool, false, ◌&&◌, ◌||◌, List, [], ◌∷◌, any, count, length,
  length-append, replicate, contains_id, ltb, ◌==◌, ◌=s◌, arith, Bool-cases, inl, inr,
  if◌then◌else◌,
}
use enterprise_fast_api_boil.Base.Outcome.{multiple_results, Outcome, ok, err}
use enterprise_fast_api_boil.Database.{User, Feature, PlanFeature, Db}
use enterprise_fast_api_boil.Server.{Server}
use enterprise_fast_api_boil.Rbac.Permission.{any-count, length-replicate, scalar_cases}
use enterprise_fast_api_boil.Billing.Entitlement.{
  plan_ids, feature_rows, carried, user_has_feature, Gate, gate_error, feature_check,
  require_feature,
}

module _ (db : Db) where
  -- The mapping is of one of the plans, to a feature with the key.
  abbrev pub maps : List ℕ → String → PlanFeature → Bool
  maps plans key pf =
      contains_id pf.plan_id plans && any (λ f. f.id == pf.feature_id && f.key =s key) db.features

  -- The user is a superuser, or one of its current plans maps the feature.
  abbrev pub entitled : User → String → Bool
  entitled user key = user.is_superuser || any (maps (plan_ids db user.id) key) db.plan_features

  any-feature_rows :
      (plans : List ℕ) (key : String) (pfs : List PlanFeature)
      → any (maps plans key) pfs ≡ ltb 0 (length (feature_rows db plans key pfs))
  unfolding feature_rows
  any-feature_rows plans key [] = refl
  any-feature_rows plans key (pf ∷ pfs) =
      let p : Feature → Bool = λ f. f.id == pf.feature_id && f.key =s key in
      let n = if contains_id pf.plan_id plans then count p db.features else 0 in
      ground (
        arith,
        any-count p db.features,
        any-feature_rows plans key pfs,
        length-append (replicate n pf.feature_id) (feature_rows db plans key pfs),
        length-replicate n pf.feature_id,
      )

  no_plan : (key : String) (pfs : List PlanFeature) → any (maps [] key) pfs ≡ false
  no_plan key [] = refl
  no_plan key (pf ∷ pfs) = ground (arith, no_plan key pfs)

  carried_sound :
      (plans : List ℕ) (key : String) {b : Bool}
      → carried db plans key ≡ ok b
      → b ≡ any (maps plans key) db.plan_features
  carried_sound [] key h = ground (arith, no_plan key db.plan_features)
  carried_sound (p ∷ ps) key h =
      elim (scalar_cases (feature_rows db (p ∷ ps) key db.plan_features)) [
        | inl (e, q) ↦ ground (arith, any-feature_rows (p ∷ ps) key db.plan_features)
        | inr (inl (e, (x, q))) ↦ ground (arith, any-feature_rows (p ∷ ps) key db.plan_features)
        | inr (inr (e, q)) ↦ ground (arith, any-feature_rows (p ∷ ps) key db.plan_features)
      ]

  -- An answer of `user_has_feature` is the truth: a superuser has every feature, and anyone else
  -- has those that a plan of one of its active or trialing subscriptions maps.
  pub user_has_feature_sound :
      (user : User) (key : String) {b : Bool}
      → user_has_feature db user key ≡ ok b
      → b ≡ entitled user key
  unfolding user_has_feature
  user_has_feature_sound user key h = elim (Bool-cases user.is_superuser) [
    | inl superuser ↦ ground arith
    | inr plain ↦ rw plain (carried_sound (plan_ids db user.id) key (simp plain at h))
  ]

  carried_fails_iff :
      (plans : List ℕ) (key : String)
      → (carried db plans key ≡ err multiple_results)
        ↔ (2 ≤ length (feature_rows db plans key db.plan_features))
  carried_fails_iff [] key =
      ground (arith, any-feature_rows [] key db.plan_features, no_plan key db.plan_features)
  carried_fails_iff (p ∷ ps) key =
      elim (scalar_cases (feature_rows db (p ∷ ps) key db.plan_features)) [
        | inl (e, q) ↦ ground arith
        | inr (inl (e, (x, q))) ↦ ground arith
        | inr (inr (e, q)) ↦ ground arith
      ]

  -- `user_has_feature` fails, with `MultipleResultsFound`, exactly for a user that is no superuser
  -- and for which the query finds two rows or more: two of its plans map the feature.
  pub user_has_feature_fails_iff :
      (user : User) (key : String)
      → (user_has_feature db user key ≡ err multiple_results) ↔ (
          (user.is_superuser ≡ false)
          × (2 ≤ length (feature_rows db (plan_ids db user.id) key db.plan_features)))
  unfolding user_has_feature
  user_has_feature_fails_iff user key = ground (arith, carried_fails_iff (plan_ids db user.id) key)

-- What a route behind a gate does with the answer of the check.
abbrev pub enforce : Outcome Gate × Server → Outcome (Unit {0}) × Server
enforce (ok gate, s) = gate_error gate s
enforce (err e, s) = (err e, s)

-- The dependency `require_feature` and GET /billing/feature-check decide alike: a route behind the
-- dependency is let through where the check answers `allowed`, is refused with 503 or 402 where the
-- check says that the feature is disabled or not in the plan, and fails where the check fails.
pub require_feature-feature_check :
    (user : User) (key : String) (s : Server)
    → require_feature user key s ≡ enforce (feature_check user key s)
unfolding require_feature feature_check
require_feature-feature_check user key s = ground arith
