-- ===== src/Tests/Files.antt =====
-- Uploads, downloads and passwords at concrete inputs.
use enterprise_fast_api_boil.Base.{
  ℕ, ◌≡◌, refl, Bool, true, false, not, ◌&&◌, none, some, [], ◌∷◌, ◌++◌, any, select, length,
  if◌then◌else◌,
}
use enterprise_fast_api_boil.Base.Int.{pos}
use enterprise_fast_api_boil.Base.Member.{In}
use enterprise_fast_api_boil.Base.Dict.{get, put}
use enterprise_fast_api_boil.Base.Text.{Text, codes, nat_key, list_key, list_eq}
use enterprise_fast_api_boil.Base.Outcome.{http, ok, err}
use enterprise_fast_api_boil.Uploads.{
  UploadFile, validate_filename, validate_content, upload_file, download_file,
}
use enterprise_fast_api_boil.Uploads.Paths.{
  ResolvedPath, pieces, keep_parts, from_last_dot, path_suffix, resolve_in, is_parent,
}
use enterprise_fast_api_boil.Uploads.Storage.{UploadModel, Vault, UploadStorage}
use enterprise_fast_api_boil.Uploads.Transfer.{uploaded, vault_after, upload_download}
use enterprise_fast_api_boil.Uploads.Access.{MayRead, IsFileOf, download_lem}
use enterprise_fast_api_boil.Uploads.Cleanup.{file_of, is_stale, cleanup_stale_uploads, cleanup_lem}
use enterprise_fast_api_boil.Config.Passwords.{
  PasswordSettings, build_password_pattern, newline, between, matches,
}
use enterprise_fast_api_boil.Config.PasswordRules.{is_strong, password_lem}
use enterprise_fast_api_boil.Tests.Data.{ann, bob}

record Upload : Type 0 where
  stored_name : Text
  original_filename : Text
  owner_id : ℕ
  created_at : ℕ

abbrev upload_model : UploadModel
upload_model = record {
  Row = Upload;
  make = λ n o i t. record { stored_name = n; original_filename = o; owner_id = i; created_at = t };
  stored_name = λ (u : Upload). u.stored_name;
  owner_id = λ (u : Upload). u.owner_id;
  created_at = λ (u : Upload). u.created_at;
  stored_name-make = λ n o i t. refl;
  owner_id-make = λ n o i t. refl;
}

abbrev same : Text → Text
same t = t

abbrev directory : ResolvedPath
directory = codes "srv" ∷ codes "uploads" ∷ []

abbrev notes : UploadFile
notes = record { filename = codes "../../notes.txt"; contents = codes "hello"; content_type = none }

abbrev empty_vault : Vault upload_model
empty_vault = record { rows = []; files = []; objects = [] }

abbrev kept : Vault upload_model
kept =
    vault_after upload_model same directory (codes "0af3") 1_000 notes (codes "notes.txt") ann
      empty_vault

notes_named : validate_filename same notes.filename ≡ ok (codes "notes.txt")
unfolding validate_filename pieces keep_parts from_last_dot
notes_named = refl

notes_checked : validate_content same (path_suffix (codes "notes.txt")) notes.contents ≡ ok tt
unfolding validate_content pieces keep_parts from_last_dot
notes_checked = refl

upload_download_example :
    (upload_file upload_model same
        (some (UploadStorage.local directory))
        (codes "0af3")
        1_000
        notes
        ann
        empty_vault
      ≡ (
        ok (uploaded upload_model same directory (codes "0af3") 1_000 notes (codes "notes.txt")),
        kept,
      ))
    × (download_file upload_model same "local" directory
          (codes "0af3" ++ path_suffix (codes "notes.txt"))
          bob
          kept
        ≡ (err (http 403 "Not authorized to access this file"), kept))
upload_download_example =
    upload_download upload_model same directory (codes "0af3") 1_000 notes (codes "notes.txt") ann
      bob empty_vault (refl, refl) notes_named notes_checked refl

download_kept :
    download_file upload_model same "local" directory (codes "0af3.txt") ann kept
    ≡ (ok (record { body = codes "hello"; attachment = codes "0af3.txt" }), kept)
unfolding download_file pieces keep_parts from_last_dot resolve_in is_parent list_eq get put
download_kept = refl

download_lem_example :
    (row : Upload) × In row kept.rows
    × (row.stored_name ≡ codes "0af3.txt")
    × MayRead upload_model same directory ann row
    × IsFileOf upload_model same directory
        (codes "0af3.txt")
        kept
        (record { body = codes "hello"; attachment = codes "0af3.txt" })
download_lem_example =
    download_lem upload_model same directory "local" (codes "0af3.txt") ann kept kept
      (record { body = codes "hello"; attachment = codes "0af3.txt" }) download_kept

-- Ten days later, with a limit of seven.
cleanup_lem_example :
    let is_old = is_stale upload_model "local" directory 1_000_000 (pos 7) in
    let (r, s') = cleanup_stale_uploads upload_model "local" directory 1_000_000 (pos 7) kept in
    (r ≡ ok (length (select is_old kept.rows)))
    × (s'.rows ≡ select (λ row. not (is_old row)) kept.rows)
    × ((q : ResolvedPath)
        → get q s'.files ≡ (
            if any (λ row. is_old row && list_eq (file_of upload_model directory row) q) kept.rows
            then none
            else get q kept.files))
    × (cleanup_stale_uploads upload_model "local" directory 1_000_000 (pos 7) s' ≡ (ok 0, s'))
    × (cleanup_stale_uploads upload_model "s3" directory 1_000_000 (pos 7) kept ≡ (
      ok (length (select is_old kept.rows)),
      record kept { rows = select (λ row. not (is_old row)) kept.rows },
    ))
cleanup_lem_example = cleanup_lem upload_model directory 1_000_000 (pos 7) kept "s3" refl

abbrev strict : PasswordSettings
strict = record {
  password_min_length = 8;
  password_require_lowercase = true;
  password_require_uppercase = true;
  password_require_number = true;
  password_require_special_character = true;
}

abbrev is_digit : ℕ → Bool
is_digit c = between b'0' b'9' c

password_lem_example :
    (matches is_digit (build_password_pattern strict) (codes "Passw0rd")
      ≡ is_strong is_digit refl strict false (codes "Passw0rd"))
    × (matches is_digit (build_password_pattern strict) (codes "Passw0rd" ++ (newline ∷ []))
        ≡ is_strong is_digit refl strict true (codes "Passw0rd"))
    × ((v : ℕ) (u : Text)
        → matches is_digit (build_password_pattern strict) (codes "Passw0rd" ++ (newline ∷ v ∷ u))
          ≡ false)
password_lem_example = password_lem is_digit refl strict (codes "Passw0rd") refl

-- The newline stands for the special character.
newline_is_special :
    (matches is_digit (build_password_pattern strict) (codes "Passw0rd") ≡ false)
    × (matches is_digit (build_password_pattern strict) (codes "Passw0rd\n") ≡ true)
unfolding matches
newline_is_special = (refl, refl)
