-- ===== src/Users/Rows.antt =====
-- What an update of one row does to the queries of the users table.
use enterprise_fast_api_boil.Base.{ℕ, ◌≡◌, refl, Bool, true, false, List, [], ◌∷◌, arith, select}
use enterprise_fast_api_boil.Database.{User}
use enterprise_fast_api_boil.Users.{update_user}

abbrev pub b2n : Bool → ℕ
b2n true = 1
b2n false = 0

module _ (p : User → Bool) (i : ℕ) (f : User → User) where
  -- An update that leaves the test of its row as it is leaves an empty answer empty.
  pub select-update_none :
      (us : List User)
      → ((u : User) → u.id ≡ i → p (f u) ≡ p u)
      → select p us ≡ []
      → select p (update_user i f us) ≡ []
  unfolding update_user
  select-update_none [] keep h = refl
  select-update_none (u ∷ us) keep h = ground (arith, keep u, select-update_none us keep)

  -- ... and a single answer becomes the updated row.
  pub select-update_one :
      (us : List User) (u : User)
      → ((v : User) → v.id ≡ i → p (f v) ≡ p v)
      → u.id ≡ i
      → select p us ≡ u ∷ []
      → select p (update_user i f us) ≡ f u ∷ []
  unfolding update_user
  select-update_one [] u keep e h = ground arith
  select-update_one (v ∷ us) u keep e h =
      ground (arith, keep v, select-update_one us u keep e, select-update_none us keep)

  -- A test that fails on the updated rows, before and after, gives the same answer.
  pub select-update_ne :
      (us : List User)
      → ((u : User) → u.id ≡ i → p u ≡ false)
      → ((u : User) → u.id ≡ i → p (f u) ≡ false)
      → select p (update_user i f us) ≡ select p us
  unfolding update_user
  select-update_ne [] before after = refl
  select-update_ne (u ∷ us) before after =
      ground (arith, before u, after u, select-update_ne us before after)
