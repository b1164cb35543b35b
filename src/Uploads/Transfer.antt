-- ===== src/Uploads/Transfer.antt =====
-- What is uploaded to the local storage comes back to its owner, and to nobody but superusers else.
use enterprise_fast_api_boil.Base.{
  ℕ, ◌≡◌, refl, Bool, true, not, ◌&&◌, none, some, List, [], ◌∷◌, ◌++◌, find, arith, Bool-cases,
  inl, inr, ◌==◌, if◌then◌else◌,
}
use enterprise_fast_api_boil.Base.Dict.{put, get-put, beq_refl}
use enterprise_fast_api_boil.Base.Text.{Text, codes, nat_key, list_key, list_eq, list_eq_self}
use enterprise_fast_api_boil.Base.Outcome.{http, ok, err}
use enterprise_fast_api_boil.Database.{User}
use enterprise_fast_api_boil.Uploads.{
  open_file, UploadFile, validate_filename, validate_content, upload_file, download_file,
}
use enterprise_fast_api_boil.Uploads.Paths.{ResolvedPath, path_suffix}
use enterprise_fast_api_boil.Uploads.Storage.{
  UploadModel, Vault, UploadResponse, UploadStorage, type_or_default, save_local,
}
use enterprise_fast_api_boil.Uploads.Names.{
  IsStem, path_name-stored, resolve_in-stored, is_parent-snoc,
}

find-snoc :
    {A : Type 0} (p : A → Bool) (xs : List A) (a : A)
    → find p xs ≡ none
    → p a ≡ true
    → find p (xs ++ (a ∷ [])) ≡ some a
find-snoc p [] a h k = rw k refl
find-snoc p (x ∷ xs) a h k = ground (arith, find-snoc p xs a)

module _ (M : UploadModel) (lower : Text → Text) (root : ResolvedPath) (hex : Text) (now : ℕ) where
  abbrev stored_as : Text → Text
  stored_as name = hex ++ path_suffix name

  -- The answer of a successful upload.
  abbrev pub uploaded : UploadFile → Text → UploadResponse
  uploaded file name = record {
    filename = name;
    stored_as = stored_as name;
    stored_path = codes "/api/v1/uploads/" ++ stored_as name;
    content_type = type_or_default file.content_type;
  }

  abbrev pub vault_after : UploadFile → Text → User → Vault M → Vault M
  vault_after file name user s = record s {
    rows = s.rows ++ (M.make (stored_as name) name user.id now ∷ []);
    files = put (root ++ (stored_as name ∷ [])) file.contents s.files;
  }

  module _ (stem : IsStem hex) (file : UploadFile) (name : Text) (user : User) (s : Vault M)
      (named : validate_filename lower file.filename ≡ ok name)
      (checked : validate_content lower (lower (path_suffix name)) file.contents ≡ ok tt) where
    upload_file-ok :
        upload_file M lower (some (UploadStorage.local root)) hex now file user s
        ≡ (ok (uploaded file name), vault_after file name user s)
    unfolding upload_file save_local
    upload_file-ok = rw named (
        rw checked (
          rw (resolve_in-stored hex name stem root)
            (rw (is_parent-snoc root (stored_as name)) refl)))

    open_file-ok : open_file M lower root (stored_as name) (vault_after file name user s) ≡ (
      ok (record { body = file.contents; attachment = stored_as name }),
      vault_after file name user s,
    )
    open_file-ok = rw (path_name-stored hex name stem) (
        rw (resolve_in-stored hex name stem root) (
          rw (is_parent-snoc root (stored_as name)) (
            rw
              (get-put (root ++ (stored_as name ∷ [])) (root ++ (stored_as name ∷ [])) file.contents
                s.files)
              (rw (beq_refl (root ++ (stored_as name ∷ []))) refl))))

    download_file-ok :
        (reader : User)
        → find (λ row. list_eq (M.stored_name row) (stored_as name)) s.rows ≡ none
        → download_file M lower "local" root (stored_as name) reader (vault_after file name user s)
          ≡ (
            if not (user.id == reader.id) && not reader.is_superuser
                then err (http 403 "Not authorized to access this file")
                else ok (record { body = file.contents; attachment = stored_as name }),
            vault_after file name user s,
          )
    unfolding download_file
    download_file-ok reader fresh =
        let found =
          find-snoc (λ row. list_eq (M.stored_name row) (stored_as name)) s.rows
            (M.make (stored_as name) name user.id now) fresh
            (rw (M.stored_name-make (stored_as name) name user.id now)
              (list_eq_self (stored_as name))) in
        rw found (
          rw (M.owner_id-make (stored_as name) name user.id now)
            (elim (Bool-cases (not (user.id == reader.id) && not reader.is_superuser)) [
              | inl e ↦ rw e refl
              | inr e ↦ rw e open_file-ok
            ]))

-- An upload to the local storage that passes both checks succeeds, with a name drawn by the server.
-- Where no row had that name before, a download of it by the owner or a superuser answers with the
-- uploaded bytes, and one by anybody else with 403.
pub upload_download :
    (M : UploadModel) (lower : Text → Text) (root : ResolvedPath) (hex : Text) (now : ℕ)
    (file : UploadFile) (name : Text) (user reader : User) (s : Vault M)
    → IsStem hex
    → validate_filename lower file.filename ≡ ok name
    → validate_content lower (lower (path_suffix name)) file.contents ≡ ok tt
    → find (λ row. list_eq (M.stored_name row) (hex ++ path_suffix name)) s.rows ≡ none
    → let answer = uploaded M lower root hex now file name in
      let s' = vault_after M lower root hex now file name user s in
      (upload_file M lower (some (UploadStorage.local root)) hex now file user s ≡ (ok answer, s'))
      × (download_file M lower "local" root answer.stored_as reader s' ≡ (
        if not (user.id == reader.id) && not reader.is_superuser
            then err (http 403 "Not authorized to access this file")
            else ok (record { body = file.contents; attachment = answer.stored_as }),
        s',
      ))
upload_download M lower root hex now file name user reader s stem named checked fresh = (
  upload_file-ok M lower root hex now stem file name user s named checked,
  download_file-ok M lower root hex now stem file name user s named checked reader fresh,
)
