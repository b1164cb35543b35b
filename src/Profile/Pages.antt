-- ===== src/Profile/Pages.antt =====
-- The pages of GET /users/: backend/app/api/v1/users/router.py.
use native.Mathlib.Nat.{lt-div-mul-add}
use enterprise_fast_api_boil.Base.{
  ℕ, zero, suc, ◌+◌, ◌-◌, ◌*◌, ◌/◌, ◌≤◌, ◌<◌, ◌≡◌, ◌∙◌, refl, ap, arith, false, not, ◌&&◌, inl, inr,
  min, contains, List, [], ◌∷◌, ◌++◌, map, take, drop, length, select, length-take, length-drop,
  length-append,
}
use enterprise_fast_api_boil.Base.Member.{In, In-of_append, In-of_map, In-map}
use enterprise_fast_api_boil.Base.Outcome.{Outcome, ok, err}
use enterprise_fast_api_boil.Database.{User}
use enterprise_fast_api_boil.Server.{Server}
use enterprise_fast_api_boil.Users.{is_live, list_users, count_users}
use enterprise_fast_api_boil.Users.Public.{UserOut, to_public}
use enterprise_fast_api_boil.Rbac.Queries.{Actor}
use enterprise_fast_api_boil.Admin.{require_role, admin_only}
use enterprise_fast_api_boil.Profile.Routes.{PaginatedResponse, page_meta, list_user_page}

length-map : {A B : Type 0} (f : A → B) (xs : List A) → length (map f xs) ≡ length xs
length-map f [] = refl
length-map f (x ∷ xs) = ap suc (length-map f xs)

module _ {A : Type 0} where
  In-of_take : (n : ℕ) (x : A) (xs : List A) → In x (take n xs) → In x xs
  In-of_take zero x xs m = absurd (ground (arith, m))
  In-of_take (suc n) x [] m = m
  In-of_take (suc n) x (y ∷ ys) (inl e) = inl e
  In-of_take (suc n) x (y ∷ ys) (inr m) = inr (In-of_take n x ys m)

  In-of_drop : (n : ℕ) (x : A) (xs : List A) → In x (drop n xs) → In x xs
  In-of_drop zero x xs m = m
  In-of_drop (suc n) x [] m = m
  In-of_drop (suc n) x (y ∷ ys) m = inr (In-of_drop n x ys m)

-- The database gives the rows of a query in some order, which may differ from query to query.
pub record IsRearranged (row_order : ℕ → ℕ → List User → List User) : Type 0 where
  pub same_length : (skip limit : ℕ) (xs : List User) → length (row_order skip limit xs) ≡ length xs
  pub same_rows :
      (skip limit : ℕ) (xs : List User) (u : User) → In u (row_order skip limit xs) → In u xs

abbrev pub rows_of : Outcome (PaginatedResponse UserOut) → List UserOut
rows_of (ok page) = page.items
rows_of (err e) = []

-- A client that follows the pages: `n` requests of one size, from an offset on.
unfoldable pub follow : ℕ → ℕ → ℕ → Actor → Server → List UserOut
follow zero skip limit actor s = []
follow (suc n) skip limit actor s =
    rows_of (list_user_page skip limit actor s).0 ++ follow n (skip + limit) limit actor s

-- The pages are as many as are needed: `pages * limit` is no less than the total.
pages_cover : (limit total : ℕ) → 0 < limit → total ≤ (total + limit - 1) / limit * limit
pages_cover limit total h =
    let k : total + limit - 1 < (total + limit - 1) / limit * limit + limit = lt-div-mul-add h in
    omega arith

-- The meta data of an answer.
abbrev pub pages_of : Outcome (PaginatedResponse UserOut) → ℕ
pages_of (ok page) = page.meta.pages
pages_of (err e) = 0

module _ (actor : Actor) (s : Server)
    (admin : (not actor.is_superuser && not (contains actor.role admin_only)) ≡ false)
    (order : IsRearranged s.row_order) where
  abbrev page : ℕ → ℕ → List UserOut
  page skip limit = rows_of (list_user_page skip limit actor s).0

  page-items :
      (skip limit : ℕ)
      → page skip limit
        ≡ map to_public
            (take limit (drop skip (s.row_order skip limit (select is_live s.work.users))))
  unfolding list_user_page list_users count_users require_role
  page-items skip limit = rw admin refl

  length-page :
      (skip limit : ℕ)
      → length (page skip limit) ≡ min limit (length (select is_live s.work.users) - skip)
  length-page skip limit =
      let rows = s.row_order skip limit (select is_live s.work.users) in
      ap length (page-items skip limit)
      ∙ length-map to_public (take limit (drop skip rows))
      ∙ length-take limit (drop skip rows)
      ∙ ap (min limit) (
          length-drop skip rows
          ∙ ap (λ n. n - skip) (order.same_length skip limit (select is_live s.work.users)))

  In-of_page :
      (skip limit : ℕ) (out : UserOut)
      → In out (page skip limit)
      → In out (map to_public (select is_live s.work.users))
  In-of_page skip limit out m =
      let live = select is_live s.work.users in
      let rows = s.row_order skip limit live in
      let (u, here, same) =
        In-of_map to_public out (take limit (drop skip rows)) (rw (page-items skip limit) at m) in
      rw same (
        In-map to_public u live (
          order.same_rows skip limit live u
            (In-of_drop skip u rows (In-of_take limit u (drop skip rows) here))))

  length-follow :
      (n skip limit : ℕ)
      → length (follow n skip limit actor s)
        ≡ min (n * limit) (length (select is_live s.work.users) - skip)
  unfolding follow
  length-follow zero skip limit = ground arith
  length-follow (suc n) skip limit =
      length-append (page skip limit) (follow n (skip + limit) limit actor s)
      ∙ ground (arith, length-page skip limit, length-follow n (skip + limit) limit)

  In-of_follow :
      (n skip limit : ℕ) (out : UserOut)
      → In out (follow n skip limit actor s)
      → In out (map to_public (select is_live s.work.users))
  unfolding follow
  In-of_follow zero skip limit out m = absurd m
  In-of_follow (suc n) skip limit out m =
      elim (In-of_append out (page skip limit) (follow n (skip + limit) limit actor s) m) [
        | inl here ↦ In-of_page skip limit out here
        | inr later ↦ In-of_follow n (skip + limit) limit out later
      ]

  pages-total :
      (limit : ℕ)
      → pages_of (list_user_page 0 limit actor s).0
        ≡ (page_meta 0 limit (length (select is_live s.work.users))).pages
  unfolding list_user_page list_users count_users require_role
  pages-total limit = rw admin refl

  -- For an administrator, any page size but 0, and a database that gives the rows of each query in any
  -- order: the pages that the first answer announces have together as many items as there are live
  -- accounts, each item is a live account, and no page has more items than the page size.
  pub list_user_page_lem :
      (limit : ℕ)
      → 0 < limit
      → let items = follow (pages_of (list_user_page 0 limit actor s).0) 0 limit actor s in
        (length items ≡ length (select is_live s.work.users))
        × ((out : UserOut) → In out items → In out (map to_public (select is_live s.work.users)))
        × ((skip : ℕ) → length (rows_of (list_user_page skip limit actor s).0) ≤ limit)
  unfolding page_meta
  list_user_page_lem limit positive =
      let total = length (select is_live s.work.users) in
      let n = pages_of (list_user_page 0 limit actor s).0 in
      let enough : total ≤ n * limit =
        rw (pages-total limit) (ground (arith, pages_cover limit total positive)) in
      (
        length-follow n 0 limit ∙ omega (arith, enough),
        In-of_follow n 0 limit,
        λ skip. ground (arith, length-page skip limit),
      )
