-- ===== src/Admin/LastAdmin.antt =====
-- The number of administrators through a bulk update.
use enterprise_fast_api_boil.Base.{
  ℕ, ◌+◌, ◌≤◌, String, ◌≡◌, ◌≢◌, refl, ◌∙◌, Bool, true, false, ◌||◌, Option, none, some, List, [],
  ◌∷◌, select, count, ◌==◌, arith, eq_iff, inl, inr, ◌⊎◌,
}
use enterprise_fast_api_boil.Base.Outcome.{
  Error, multiple_results, continue-ok, Outcome, ok, err, scalar_one_or_none,
}
use enterprise_fast_api_boil.Database.{User}
use enterprise_fast_api_boil.Server.{Server}
use enterprise_fast_api_boil.Users.{is_live, has_id, get_by_id, update_user}
use enterprise_fast_api_boil.Users.Rows.{b2n, select-update_ne}
use enterprise_fast_api_boil.Rbac.Queries.{Actor}
use enterprise_fast_api_boil.Rbac.Seed.{list_roles, seed-users}
use enterprise_fast_api_boil.Admin.{is_admin, total_admins}
use enterprise_fast_api_boil.Admin.Bulk.{
  BulkEntry, demotion, promotion, tally, weigh_entry, add_pair, change_role, change_user,
  change_entry, apply_updates, bulk_set_user_roles,
}

module _ (i : ℕ) (f : User → User) (keep : (u : User) → is_live (f u) ≡ is_live u) where
  count-update_none :
      (us : List User)
      → select (has_id i) us ≡ []
      → count is_admin (update_user i f us) ≡ count is_admin us
  unfolding update_user
  count-update_none [] h = refl
  count-update_none (u ∷ us) h = ground (arith, keep u, count-update_none us)

  -- Where one live row has the identifier, the count moves by that row.
  pub count-update_one :
      (us : List User) (u : User)
      → select (has_id i) us ≡ u ∷ []
      → count is_admin (update_user i f us) + b2n (is_admin u)
        ≡ count is_admin us + b2n (is_admin (f u))
  unfolding update_user
  count-update_one [] u h = absurd (ground arith)
  count-update_one (v ∷ us) u h =
      ground (arith, keep v, count-update_none us, count-update_one us u)

count-update_same :
    (i : ℕ) (f : User → User) (us : List User)
    → ((u : User) → is_admin (f u) ≡ is_admin u)
    → count is_admin (update_user i f us) ≡ count is_admin us
unfolding update_user
count-update_same i f [] keep = refl
count-update_same i f (u ∷ us) keep = ground (arith, keep u, count-update_same i f us keep)

pub id_of_select : (i : ℕ) (u : User) (us : List User) → select (has_id i) us ≡ u ∷ [] → u.id ≡ i
id_of_select i u [] h = absurd (ground arith)
id_of_select i u (v ∷ us) h = ground (arith, id_of_select i u us)

pub live_of_select :
    (i : ℕ) (u : User) (us : List User) → select (has_id i) us ≡ u ∷ [] → is_live u ≡ true
live_of_select i u [] h = absurd (ground arith)
live_of_select i u (v ∷ us) h = ground (arith, live_of_select i u us)

pub role_moves :
    (u : User) (role : String)
    → is_live u ≡ true
    → (b2n (is_admin (record u { role = role })) + demotion u (some role)
        ≡ b2n (is_admin u) + promotion u (some role))
role_moves u role live = ground (arith, eq_iff role u.role)

abbrev pub rename : String → User → User
rename role u = record u { role = role }

module _ (i : ℕ) (u : User) (s : Server) (one : select (has_id i) s.work.users ≡ u ∷ []) where
  change_role-count :
      (role : Option String)
      → (change_role i u role s).0 ≡ ok tt
      → (total_admins (change_role i u role s).1.work + demotion u role
          ≡ total_admins s.work + promotion u role)
        × ((j : ℕ)
            → j ≢ i
            → select (has_id j) (change_role i u role s).1.work.users
              ≡ select (has_id j) s.work.users)
  unfolding list_roles
  change_role-count none done = (refl, λ j ne. refl)
  change_role-count (some role) done =
      let e = id_of_select i u s.work.users one in
      (
        ground (
          arith,
          seed-users s,
          e,
          one,
          count-update_one i (rename role) (λ v. refl) s.work.users u,
          role_moves u role (live_of_select i u s.work.users one),
        ),
        λ j ne. ground (
          arith,
          seed-users s,
          e,
          select-update_ne (has_id j) i (rename role) s.work.users (λ v q. ground arith)
              (λ v q. ground arith),
        ),
      )

pub row_cases :
    (xs : List User)
    → (xs ≡ []) ⊎ ((x : User) × (xs ≡ x ∷ [])) ⊎ (scalar_one_or_none xs ≡ err multiple_results)
row_cases [] = inl refl
row_cases (x ∷ []) = inr (inl (x, refl))
row_cases (x ∷ y ∷ rest) = inr (inr refl)

module _ (i : ℕ) (permissions : List String) (us : List User) where
  abbrev pub grant : User → User
  grant u = record u { permissions = permissions }

  pub grant-count : count is_admin (update_user i grant us) ≡ count is_admin us
  grant-count = count-update_same i grant us (λ u. refl)

  grant-select : (j : ℕ) → j ≢ i → select (has_id j) (update_user i grant us) ≡ select (has_id j) us
  grant-select j ne =
      select-update_ne (has_id j) i grant us (λ v q. ground arith) (λ v q. ground arith)

module _ (i : ℕ) (e : BulkEntry) (s : Server) where
  abbrev after_entry : Server
  after_entry = (change_entry (some i) e s).1

  change_user-count :
      (u : User)
      → select (has_id i) s.work.users ≡ u ∷ []
      → (permissions : Option (List String)) → e.permissions ≡ permissions
      → (change_user i (some u) e s).0 ≡ ok tt
      → (total_admins (change_user i (some u) e s).1.work + demotion u e.role
          ≡ total_admins s.work + promotion u e.role)
        × ((j : ℕ)
            → j ≢ i
            → select (has_id j) (change_user i (some u) e s).1.work.users
              ≡ select (has_id j) s.work.users)
  change_user-count u one none p done = (
    ground (arith, change_role-count i u s one e.role),
    λ j ne. ground (arith, (change_role-count i u s one e.role (ground arith)).1 j ne),
  )
  change_user-count u one (some ps) p done =
      let id_eq = id_of_select i u s.work.users one in
      let us = (change_role i u e.role s).1.work.users in
      (
        ground (arith, change_role-count i u s one e.role, grant-count u.id ps us),
        λ j ne. ground (
          arith,
          id_eq,
          (change_role-count i u s one e.role (ground arith)).1 j ne,
          grant-select u.id ps us j,
        ),
      )

-- One entry: the count moves by what the first loop counts for it, and the row of no other
-- identifier changes.
module _ (e : BulkEntry) (s : Server) where
  change_entry-count :
      (user_id : Option ℕ)
      → (change_entry user_id e s).0 ≡ ok tt
      → (w : ℕ × ℕ) × (weigh_entry s.work.users user_id e.role ≡ ok w)
        × (total_admins (change_entry user_id e s).1.work + w.0 ≡ total_admins s.work + w.1)
        × ((j : ℕ)
            → user_id ≢ some j
            → select (has_id j) (change_entry user_id e s).1.work.users
              ≡ select (has_id j) s.work.users)
  unfolding get_by_id
  change_entry-count none done = ((0, 0), refl, omega arith, λ j ne. refl)
  change_entry-count (some i) done = elim (row_cases (select (has_id i) s.work.users)) [
    | inl no_row ↦ ((0, 0), ground arith, ground arith, λ j ne. ground arith)
    | inr (inl (u, one)) ↦
        let moved = change_user-count i e s u one e.permissions refl (ground arith) in
        (
          (demotion u e.role, promotion u e.role),
          ground arith,
          ground (arith, moved.0),
          λ j ne. ground (arith, moved.1 j (λ q. ne (cc q))),
        )
    | inr (inr many) ↦ absurd (ground arith)
  ]

abbrev pub names_id : ℕ → Option ℕ → Bool
names_id i none = false
names_id i (some j) = i == j

abbrev pub names : ℕ → List BulkEntry → Bool
names i [] = false
names i (e ∷ es) = names_id i e.user_id || names i es

abbrev pub Fresh : Option ℕ → List BulkEntry → Type 0
Fresh none es = Unit
Fresh (some i) es = names i es ≡ false

-- No user is named by two entries.
abbrev pub Distinct : List BulkEntry → Type 0
Distinct [] = Unit
Distinct (e ∷ es) = Fresh e.user_id es × Distinct es

weigh_entry_cong :
    (us vs : List User) (user_id : Option ℕ) (role : Option String)
    → ((j : ℕ) → names_id j user_id ≡ true → select (has_id j) us ≡ select (has_id j) vs)
    → weigh_entry us user_id role ≡ weigh_entry vs user_id role
weigh_entry_cong us vs none role same = refl
weigh_entry_cong us vs (some i) role same = rw (same i (ground arith))

tally_cong :
    (us vs : List User) (es : List BulkEntry)
    → ((j : ℕ) → names j es ≡ true → select (has_id j) us ≡ select (has_id j) vs)
    → tally us es ≡ tally vs es
unfolding tally
tally_cong us vs [] same = refl
tally_cong us vs (e ∷ es) same = rw (
  weigh_entry_cong us vs e.user_id e.role (λ j h. same j (ground arith)),
  tally_cong us vs es (λ j h. same j (ground arith)),
)

Fresh-ne :
    (user_id : Option ℕ) (es : List BulkEntry) (j : ℕ)
    → Fresh user_id es
    → names j es ≡ true
    → user_id ≢ some j
Fresh-ne none es j fresh h q = cc
Fresh-ne (some i) es j fresh h q = ground arith

split_tally :
    (w : ℕ × ℕ) (rest : Outcome (ℕ × ℕ)) (d p : ℕ)
    → add_pair w rest ≡ ok (d, p)
    → (r : ℕ × ℕ) × (rest ≡ ok r) × ((d ≡ w.0 + r.0) × (p ≡ w.1 + r.1))
split_tally w (ok r) d p h = (r, refl, ground arith)
split_tally w (err e) d p h = absurd (ground arith)

apply_updates-count :
    (es : List BulkEntry) (s : Server) (d p : ℕ)
    → Distinct es
    → (apply_updates es s).0 ≡ ok tt
    → tally s.work.users es ≡ ok (d, p)
    → total_admins (apply_updates es s).1.work + d ≡ total_admins s.work + p
unfolding apply_updates tally
apply_updates-count [] s d p distinct done counted = ground arith
apply_updates-count (e ∷ es) s d p (fresh, distinct) done counted =
    let (r, s') = change_entry e.user_id e s in
    let (_, entry_done, rest_done, whole) = continue-ok r (λ _. apply_updates es) s' done in
    let (w, weighed, moved, frame) = change_entry-count e s e.user_id entry_done in
    let same : tally s'.work.users es ≡ tally s.work.users es =
      tally_cong s'.work.users s.work.users es (λ j h. frame j (Fresh-ne e.user_id es j fresh h)) in
    let (rest, counted', total) =
      split_tally w (tally s.work.users es) d p (rw weighed at counted) in
    rw whole (
      omega (
        arith,
        moved,
        total,
        apply_updates-count es s' rest.0 rest.1 distinct rest_done (same ∙ counted'),
      ))

tally_cases : (r : Outcome (ℕ × ℕ)) → ((w : ℕ × ℕ) × (r ≡ ok w)) ⊎ ((e : Error) × (r ≡ err e))
tally_cases (ok w) = inl (w, refl)
tally_cases (err e) = inr (e, refl)

-- When a bulk update that names no user twice succeeds, an administrator is left.
pub bulk_keeps_admin :
    (actor : Actor) (updates : List BulkEntry) (s : Server)
    → Distinct updates
    → (bulk_set_user_roles actor updates s).0 ≡ ok tt
    → 1 ≤ total_admins (bulk_set_user_roles actor updates s).1.work
unfolding bulk_set_user_roles
bulk_keeps_admin actor updates s distinct done = elim (tally_cases (tally s.work.users updates)) [
  | inl ((d, p), counted) ↦ ground (arith, apply_updates-count updates s d p distinct, counted)
  | inr (e, failed) ↦ absurd (ground arith)
]
