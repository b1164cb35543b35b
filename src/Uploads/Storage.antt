-- ===== src/Uploads/Storage.antt =====
-- backend/infrastructure/upload_storage.py. The module backend/domain/uploads/model.py is not in the
-- repository, so its `UploadRecord` is a parameter. `uuid4().hex` is drawn before, `lower` is
-- Python's. The clients of S3 and Azure are the list of what was put, in order.
use enterprise_fast_api_boil.Base.{ℕ, ◌≡◌, Option, none, some, List, [], ◌∷◌, ◌++◌, if◌then◌else◌}
use enterprise_fast_api_boil.Base.Dict.{Dict, put}
use enterprise_fast_api_boil.Base.Text.{Text, codes, nat_key, list_key}
use enterprise_fast_api_boil.Base.Outcome.{value_error, ok, Exec, pure, raise, ◌>>◌}
use enterprise_fast_api_boil.Uploads.Paths.{
  ResolvedPath, path_name, path_suffix, is_empty, resolve_in, is_parent,
}

abbrev pub Bytes : Type 0
Bytes = List ℕ

-- `UploadRecord(stored_name, original_filename, owner_id)`, created at a time in seconds.
pub record UploadModel : Type 1 where
  pub Row : Type 0
  pub make : Text → Text → ℕ → ℕ → Row
  pub stored_name : Row → Text
  pub owner_id : Row → ℕ
  pub created_at : Row → ℕ
  pub stored_name-make : (n o : Text) (i t : ℕ) → stored_name (make n o i t) ≡ n
  pub owner_id-make : (n o : Text) (i t : ℕ) → owner_id (make n o i t) ≡ i

-- The rows, the files of the server, and what was put into a remote store.
pub record Vault (M : UploadModel) : Type 0 where
  pub rows : List (M.Row)
  pub files : Dict ResolvedPath Bytes
  pub objects : List (Text × Bytes)

pub record UploadResponse : Type 0 where
  pub filename : Text
  pub stored_as : Text
  pub stored_path : Text
  pub content_type : Text

-- The three classes of storage; a remote one has the prefix of its addresses.
pub data UploadStorage : Type 0 where
  local : ResolvedPath → UploadStorage
  s3 azure : Text → UploadStorage

-- `content_type or "application/octet-stream"`
abbrev pub type_or_default : Option Text → Text
type_or_default none = codes "application/octet-stream"
type_or_default (some t) = if is_empty t then codes "application/octet-stream" else t

module _ (M : UploadModel) (lower : Text → Text) where
  abbrev write_bytes : ResolvedPath → Bytes → Exec (Vault M) (Unit {0})
  write_bytes path contents s = (ok tt, record s { files = put path contents s.files })

  abbrev put_object : Text → Bytes → Exec (Vault M) (Unit {0})
  put_object key contents s = (ok tt, record s { objects = s.objects ++ ((key, contents) ∷ []) })

  -- `LocalUploadStorage.save`
  unfoldable pub save_local :
      ResolvedPath → Text → Bytes → Text → Option Text → Exec (Vault M) UploadResponse
  save_local upload_dir hex contents original_filename content_type =
      let stored_name = hex ++ path_suffix original_filename in
      let destination = resolve_in upload_dir stored_name in
      if is_parent upload_dir destination
      then (do
        write_bytes destination contents
        pure (record {
          filename = original_filename;
          stored_as = stored_name;
          stored_path = codes "/api/v1/uploads/" ++ stored_name;
          content_type = type_or_default content_type;
        }))
      else raise (value_error "Resolved upload path escapes the upload directory")

  -- `S3UploadStorage.save` and `AzureBlobUploadStorage.save`
  unfoldable pub save_remote :
      Text → Text → Bytes → Text → Option Text → Exec (Vault M) UploadResponse
  save_remote prefix hex contents original_filename content_type =
      let safe_name = path_name original_filename in
      let stored_name = hex ++ lower (path_suffix safe_name) in
      if is_empty safe_name then raise (value_error "filename is required") else (do
        put_object stored_name contents
        pure (record {
          filename = safe_name;
          stored_as = stored_name;
          stored_path = prefix ++ stored_name;
          content_type = type_or_default content_type;
        }))

  -- `storage.save`
  unfoldable pub save :
      UploadStorage → Text → Bytes → Text → Option Text → Exec (Vault M) UploadResponse
  unfolding save_local save_remote
  save (local upload_dir) hex = save_local upload_dir hex
  save (s3 address) hex = save_remote address hex
  save (azure address) hex = save_remote address hex
