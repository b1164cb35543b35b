-- ===== src/Rbac/Permission.antt =====
-- Who holds a permission: the answer of `user_has_permission` against the tables.
use enterprise_fast_api_boil.Base.{
  ◌∙◌, if◌then◌else◌, ℕ, suc, zero, ◌*◌, ◌≤◌, String, ◌≡◌, refl, ◌⊎◌, ◌↔◌, Bool, true, false, ◌&&◌,
  ◌||◌, none, some, List, [], ◌∷◌, any, all, count, replicate, contains, length, length-append,
  ◌==◌, ◌=s◌, arith, inl, inr, ltb,
}
use enterprise_fast_api_boil.Base.Outcome.{multiple_results, ok, err, scalar_one_or_none}
use enterprise_fast_api_boil.Database.{RolePermission, Db}
use enterprise_fast_api_boil.Rbac.Queries.{
  Actor, join_rows, permission_rows, user_has_permission, user_has_all_permissions,
}

module _ (db : Db) where
  -- Some grant of a role that the user has carries the key.
  abbrev pub carries : ℕ → String → RolePermission → Bool
  carries uid key rp =
      any (λ p. p.id == rp.permission_id && p.key =s key) db.permissions
      && any (λ r. r.id == rp.role_id) db.roles
      && any (λ ur. ur.user_id == uid && ur.role_id == rp.role_id) db.user_roles

  abbrev pub role_grants : ℕ → String → Bool
  role_grants uid key = any (carries uid key) db.role_permissions

  -- What a caller may do: everything as a superuser, the scopes of its API key, or else the
  -- permissions on the user's row and those of its roles.
  abbrev pub holds : Actor → String → Bool
  holds actor key = actor.is_superuser || (elim actor.api_key_scopes [
    | some scopes ↦ contains key scopes
    | none ↦ contains key actor.permissions || role_grants actor.id key
  ])

module _ {A : Type 0} where
  pub any-count : (p : A → Bool) (xs : List A) → any p xs ≡ ltb 0 (count p xs)
  any-count p [] = refl
  any-count p (x ∷ xs) = ground (arith, any-count p xs)

  pub length-replicate : (n : ℕ) (x : A) → length (replicate n x) ≡ n
  length-replicate zero x = refl
  length-replicate (suc n) x = omega (arith, length-replicate n x)

pub positive_product : (a b c : ℕ) → (ltb 0 a && ltb 0 b && ltb 0 c) ≡ ltb 0 (a * b * c)
positive_product zero b c = ground arith
positive_product (suc a) zero c = ground arith
positive_product (suc a) (suc b) zero = ground arith
positive_product (suc a) (suc b) (suc c) = grind arith

module _ (db : Db) (uid : ℕ) (key : String) where
  carries-join : (rp : RolePermission) → carries db uid key rp ≡ ltb 0 (join_rows db uid key rp)
  unfolding join_rows
  carries-join rp = simp any-count (positive_product _ _ _)

  any-permission_rows :
      (rps : List RolePermission)
      → any (carries db uid key) rps ≡ ltb 0 (length (permission_rows db uid key rps))
  unfolding permission_rows
  any-permission_rows [] = refl
  any-permission_rows (rp ∷ rps) = ground (
    arith,
    carries-join rp,
    any-permission_rows rps,
    length-append (replicate (join_rows db uid key rp) rp.permission_id)
        (permission_rows db uid key rps),
    length-replicate (join_rows db uid key rp) rp.permission_id,
  )

module _ {A : Type 0} where
  pub scalar_cases :
      (xs : List A)
      → ((xs ≡ []) × (scalar_one_or_none xs ≡ ok none))
        ⊎ ((length xs ≡ 1) × ((x : A) × (scalar_one_or_none xs ≡ ok (some x))))
        ⊎ ((2 ≤ length xs) × (scalar_one_or_none xs ≡ err multiple_results))
  scalar_cases [] = inl (refl, refl)
  scalar_cases (x ∷ []) = inr (inl (refl, (x, refl)))
  scalar_cases (x ∷ y ∷ rest) = inr (inr (omega arith, refl))

module _ (db : Db) where
  -- An answer of `user_has_permission` is the truth about the caller: its scopes, if it came with
  -- an API key, and else its own permissions and those of its roles; a superuser holds all.
  pub user_has_permission_sound :
      (actor : Actor) (key : String) {b : Bool}
      → user_has_permission db actor key ≡ ok b
      → b ≡ holds db actor key
  unfolding user_has_permission
  user_has_permission_sound actor key h =
      elim (scalar_cases (permission_rows db actor.id key db.role_permissions)) [
        | inl (e, q) ↦ ground (arith, any-permission_rows db actor.id key db.role_permissions)
        | inr (inl (e, (x, q))) ↦
            ground (arith, any-permission_rows db actor.id key db.role_permissions)
        | inr (inr (e, q)) ↦ ground (arith, any-permission_rows db actor.id key db.role_permissions)
      ]

  pub user_has_all_permissions_sound :
      (actor : Actor) (keys : List String)
      → user_has_all_permissions db actor keys ≡ ok true
      → all (holds db actor) keys ≡ true
  unfolding user_has_all_permissions
  user_has_all_permissions_sound actor [] h = refl
  user_has_all_permissions_sound actor (key ∷ keys) h = ground (
    arith,
    user_has_permission_sound actor key {b = true},
    user_has_all_permissions_sound actor keys,
  )

count-and_le : {A : Type 0} (p q : A → Bool) (xs : List A) → count (λ x. p x && q x) xs ≤ count p xs
count-and_le p q [] = omega arith
count-and_le p q (x ∷ xs) = ground (arith, count-and_le p q xs)

-- A product of counts of which each is at most one.
product_one :
    (a b c : ℕ)
    → a ≤ 1
    → b ≤ 1
    → c ≤ 1
    → a * b * c ≡ (if ltb 0 a && ltb 0 b && ltb 0 c then 1 else 0)
product_one zero b c h k l = ground arith
product_one (suc zero) zero c h k l = ground arith
product_one (suc zero) (suc zero) zero h k l = ground arith
product_one (suc zero) (suc zero) (suc zero) h k l = ground arith
product_one (suc (suc a)) b c h k l = absurd (omega arith)
product_one (suc zero) (suc (suc b)) c h k l = absurd (omega arith)
product_one (suc zero) (suc zero) (suc (suc c)) h k l = absurd (omega arith)

module _ (db : Db) (actor : Actor) (key : String) where
  -- The primary keys of the tables that the query joins are unique.
  pub record HasKeys : Type 0 where
    pub permissions : (id : ℕ) → count (λ p. p.id == id) db.permissions ≤ 1
    pub roles : (id : ℕ) → count (λ r. r.id == id) db.roles ≤ 1
    pub user_roles :
        (id : ℕ) → count (λ ur. ur.user_id == actor.id && ur.role_id == id) db.user_roles ≤ 1

  join_rows-carries :
      (keys : HasKeys) (rp : RolePermission)
      → join_rows db actor.id key rp ≡ (if carries db actor.id key rp then 1 else 0)
  unfolding join_rows
  join_rows-carries keys rp =
      let one = count-and_le (λ p. p.id == rp.permission_id) (λ p. p.key =s key) db.permissions in
      let most = keys.permissions rp.permission_id in
      product_one _ _ _ (omega (arith, one, most)) (keys.roles rp.role_id)
        (keys.user_roles rp.role_id)
      ∙ simp any-count

  length-permission_rows :
      (keys : HasKeys) (rps : List RolePermission)
      → length (permission_rows db actor.id key rps) ≡ count (carries db actor.id key) rps
  unfolding permission_rows
  length-permission_rows keys [] = refl
  length-permission_rows keys (rp ∷ rps) =
      length-append (replicate (join_rows db actor.id key rp) rp.permission_id)
        (permission_rows db actor.id key rps)
      ∙ ground (
        arith,
        join_rows-carries keys rp,
        length-permission_rows keys rps,
        length-replicate (join_rows db actor.id key rp) rp.permission_id,
      )

  -- Where the primary keys are unique, `user_has_permission` fails, with `MultipleResultsFound`, exactly
  -- for a caller that is no superuser, came with no API key, does not have the key on its own row, and
  -- to whose roles two rows or more of the table of grants give the key.
  pub user_has_permission_fails_iff :
      HasKeys
      → (user_has_permission db actor key ≡ err multiple_results) ↔ (
          (actor.is_superuser ≡ false)
          × (actor.api_key_scopes ≡ none)
          × (contains key actor.permissions ≡ false)
          × (2 ≤ count (carries db actor.id key) db.role_permissions))
  unfolding user_has_permission
  user_has_permission_fails_iff keys =
      let rows = length-permission_rows keys db.role_permissions in
      elim (scalar_cases (permission_rows db actor.id key db.role_permissions)) [
        | inl (e, q) ↦ ground (arith, rows)
        | inr (inl (e, (x, q))) ↦ ground (arith, rows)
        | inr (inr (e, q)) ↦ ground (arith, rows)
      ]
