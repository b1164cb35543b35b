-- ===== src/Uploads.antt =====
-- Uploads and downloads: backend/app/api/v1/uploads/router.py, with
-- backend/infrastructure/upload_storage.py and `cleanup_stale_uploads` of
-- backend/common/background_jobs.py in the children.
pub mod Paths
pub mod Storage
pub mod Names
pub mod Transfer
pub mod Access
pub mod Cleanup
use enterprise_fast_api_boil.Base.{
  ℕ, ◌+◌, String, Bool, true, false, not, ◌&&◌, ◌||◌, Option, none, some, List, [], ◌∷◌, ◌++◌, any,
  find, is_some, ◌==◌, ◌=s◌, if◌then◌else◌,
}
use enterprise_fast_api_boil.Base.Dict.{Dict, get}
use enterprise_fast_api_boil.Base.Text.{Text, codes, nat_key, list_key, list_eq, starts_with}
use enterprise_fast_api_boil.Base.Outcome.{
  http, Outcome, ok, err, Exec, pure, raise, lift, gets, ◌>>=◌, ◌>>◌,
}
use enterprise_fast_api_boil.Database.{User}
use Paths.{ResolvedPath, path_name, path_suffix, is_empty, resolve_in, is_parent}
use Storage.{Bytes, UploadModel, Vault, UploadResponse, UploadStorage, save}

-- `ALLOWED_EXTENSIONS`
abbrev pub allowed_extensions : List Text
allowed_extensions =
    codes ".png" ∷ codes ".jpg" ∷ codes ".jpeg" ∷ codes ".pdf" ∷ codes ".txt" ∷ codes ".csv" ∷ []

-- `_MAGIC_BYTES`
abbrev pub magic_bytes : Dict Text (List Bytes)
magic_bytes =
    (codes ".png", (0x89 ∷ 0x50 ∷ 0x4E ∷ 0x47 ∷ 0x0D ∷ 0x0A ∷ 0x1A ∷ 0x0A ∷ []) ∷ [])
    ∷ (codes ".jpg", (0xFF ∷ 0xD8 ∷ 0xFF ∷ []) ∷ [])
    ∷ (codes ".jpeg", (0xFF ∷ 0xD8 ∷ 0xFF ∷ []) ∷ [])
    ∷ (codes ".pdf", codes "%PDF-" ∷ [])
    ∷ []

abbrev pub among : Text → List Text → Bool
among t ts = any (λ u. list_eq t u) ts

pub record UploadFile : Type 0 where
  pub filename : Text
  pub contents : Bytes
  pub content_type : Option Text

-- A `FileResponse`: the contents of the file and the name that it is sent under.
pub record FileResponse : Type 0 where
  pub body : Bytes
  pub attachment : Text

module _ (lower : Text → Text) where
  -- `_validate_filename`
  unfoldable pub validate_filename : Text → Outcome Text
  unfolding list_eq
  validate_filename original_filename =
      let safe_name = path_name original_filename in
      if is_empty safe_name
      then err (http 400 "filename is required")
      else if among (lower (path_suffix safe_name)) allowed_extensions
      then ok safe_name
      else err (http 400 "File type not allowed")

  abbrev pub has_signature : Option (List Bytes) → Bytes → Bool
  has_signature none contents = true
  has_signature (some signatures) contents = any (λ sig. starts_with contents sig) signatures

  -- `_validate_content_matches_extension`
  unfoldable pub validate_content : Text → Bytes → Outcome (Unit {0})
  unfolding starts_with list_eq get
  validate_content suffix contents =
      if has_signature (get suffix magic_bytes) contents
      then ok tt
      else err (http 400 "File content does not match its declared type")

module _ (M : UploadModel) (lower : Text → Text) where
  abbrev add_row : M.Row → Exec (Vault M) (Unit {0})
  add_row row s = (ok tt, record s { rows = s.rows ++ (row ∷ []) })

  abbrev pub store_file :
      Option UploadStorage → Text → ℕ → UploadFile → Text → User → Exec (Vault M) UploadResponse
  store_file none hex now file original_name current_user =
      raise (http 500 "Upload storage not configured")
  store_file (some storage) hex now file original_name current_user = do
    result ← save M lower storage hex file.contents original_name file.content_type
    add_row (M.make result.stored_as original_name current_user.id now)
    pure result

  -- POST /uploads/
  unfoldable pub upload_file :
      Option UploadStorage → Text → ℕ → UploadFile → User → Exec (Vault M) UploadResponse
  unfolding validate_filename validate_content save
  upload_file storage hex now file current_user = do
    original_name ← lift (validate_filename lower file.filename)
    lift (validate_content lower (lower (path_suffix original_name)) file.contents)
    store_file storage hex now file original_name current_user

  abbrev pub send_file : Option Bytes → Text → Exec (Vault M) FileResponse
  send_file none safe_name = raise (http 404 "File not found")
  send_file (some body) safe_name = pure (record { body = body; attachment = safe_name })

  abbrev pub open_file : ResolvedPath → Text → Exec (Vault M) FileResponse
  open_file upload_root stored_name =
      let safe_name = path_name stored_name in
      let file_path = resolve_in upload_root safe_name in
      if is_parent upload_root file_path
      then (do found ← gets (λ s. get file_path s.files); send_file found safe_name)
      else raise (http 404 "File not found")

  abbrev pub download_row :
      String → ResolvedPath → Text → User → Option M.Row → Exec (Vault M) FileResponse
  download_row upload_backend upload_root stored_name current_user none =
      raise (http 404 "File not found")
  download_row upload_backend upload_root stored_name current_user (some row) =
      if not (M.owner_id row == current_user.id) && not current_user.is_superuser
      then raise (http 403 "Not authorized to access this file")
      else if upload_backend =s "local"
      then open_file upload_root stored_name
      else raise (http 501 "Download proxying for remote storage backends is not implemented")

  -- GET /uploads/{stored_name}
  unfoldable pub download_file : String → ResolvedPath → Text → User → Exec (Vault M) FileResponse
  download_file upload_backend upload_root stored_name current_user = do
    upload_record ← gets (λ s. find (λ row. list_eq (M.stored_name row) stored_name) s.rows)
    download_row upload_backend upload_root stored_name current_user upload_record
