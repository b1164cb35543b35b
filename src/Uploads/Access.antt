-- ===== src/Uploads/Access.antt =====
-- Who is answered with a file, and which files there are to be answered with.
use enterprise_fast_api_boil.Base.{
  String, ◌≡◌, sym, ap, ◌∙◌, ◌⊎◌, inl, inr, Bool, true, false, not, ◌&&◌, some, List, [], ◌∷◌, find,
  arith, Bool-cases, Option-cases, ==_iff, ◌==◌, ◌=s◌,
}
use enterprise_fast_api_boil.Base.Member.{In}
use enterprise_fast_api_boil.Base.Dict.{get}
use enterprise_fast_api_boil.Base.Text.{Text, nat_key, list_key, list_eq, list_eq_iff}
use enterprise_fast_api_boil.Base.Outcome.{ok}
use enterprise_fast_api_boil.Database.{User}
use enterprise_fast_api_boil.Uploads.{FileResponse, open_file, download_row, download_file}
use enterprise_fast_api_boil.Uploads.Paths.{ResolvedPath, path_name, resolve_in, is_parent}
use enterprise_fast_api_boil.Uploads.Storage.{UploadModel, Vault}

find-In :
    {A : Type 0} (p : A → Bool) (xs : List A) (x : A) → find p xs ≡ some x → In x xs × (p x ≡ true)
find-In p [] x h = absurd (ground arith)
find-In p (y ∷ ys) x h = elim (Bool-cases (p y)) [
  | inl e ↦ let same : y ≡ x = ground (arith, e) in (inl (sym same), ap p (sym same) ∙ e)
  | inr e ↦ let (m, q) = find-In p ys x (ground (arith, e)) in (inr m, q)
]

module _ (M : UploadModel) (lower : Text → Text) (root : ResolvedPath) where
  -- The file that an answer was read from.
  abbrev pub IsFileOf : Text → Vault M → FileResponse → Type 0
  IsFileOf stored_name s r =
      let path = resolve_in root (path_name stored_name) in
      (is_parent root path ≡ true) × (get path s.files ≡ some r.body)

  -- The row gives the user access.
  abbrev pub MayRead : User → M.Row → Type 0
  MayRead user row = (M.owner_id row ≡ user.id) ⊎ (user.is_superuser ≡ true)

  open_file-IsFileOf :
      (stored_name : Text) (s s' : Vault M) (r : FileResponse)
      → open_file M lower root stored_name s ≡ (ok r, s')
      → IsFileOf stored_name s r
  open_file-IsFileOf stored_name s s' r h =
      let path = resolve_in root (path_name stored_name) in
      elim (Bool-cases (is_parent root path)) [
        | inr e ↦ absurd (ground (arith, e))
        | inl e ↦ elim (Option-cases (get path s.files)) [
          | inl missing ↦ absurd (ground (arith, e, missing))
          | inr (body, found) ↦ (e, ground (arith, e, found))
        ]
      ]

  MayRead-of_test :
      (user : User) (row : M.Row)
      → (not (M.owner_id row == user.id) && not user.is_superuser) ≡ false
      → MayRead user row
  MayRead-of_test user row h = elim (Bool-cases (M.owner_id row == user.id)) [
    | inl e ↦ inl ((==_iff (M.owner_id row) user.id).0 e)
    | inr e ↦ inr (ground (arith, e))
  ]

  download_row-ok :
      (upload_backend : String) (stored_name : Text) (user : User) (row : M.Row) (s s' : Vault M)
      (r : FileResponse)
      → download_row M lower upload_backend root stored_name user (some row) s ≡ (ok r, s')
      → MayRead user row × IsFileOf stored_name s r
  download_row-ok upload_backend stored_name user row s s' r h =
      elim (Bool-cases (not (M.owner_id row == user.id) && not user.is_superuser)) [
        | inl refused ↦ absurd (ground (arith, rw refused at h))
        | inr allowed ↦ elim (Bool-cases (upload_backend =s "local")) [
          | inl here ↦ (
            MayRead-of_test user row allowed,
            open_file-IsFileOf stored_name s s' r (rw here at (rw allowed at h)),
          )
          | inr remote ↦ absurd (ground (arith, rw remote at (rw allowed at h)))
        ]
      ]

  -- Whatever the rows hold and whatever name is asked for: only a file below the directory of the
  -- uploads is sent, to the owner of a row of that name or to a superuser.
  pub download_lem :
      (upload_backend : String) (stored_name : Text) (user : User) (s s' : Vault M)
      (r : FileResponse)
      → download_file M lower upload_backend root stored_name user s ≡ (ok r, s')
      → (row : M.Row) × In row s.rows
        × (M.stored_name row ≡ stored_name)
        × MayRead user row
        × IsFileOf stored_name s r
  unfolding download_file
  download_lem upload_backend stored_name user s s' r h =
      elim (Option-cases (find (λ row. list_eq (M.stored_name row) stored_name) s.rows)) [
        | inl missing ↦ absurd (ground (arith, rw missing at h))
        | inr (row, found) ↦
            let (member, named) =
              find-In (λ row. list_eq (M.stored_name row) stored_name) s.rows row found in
            let (reads, sent) =
              download_row-ok upload_backend stored_name user row s s' r (rw found at h) in
            (row, member, (list_eq_iff (M.stored_name row) stored_name).0 named, reads, sent)
      ]
