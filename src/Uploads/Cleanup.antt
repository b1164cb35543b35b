-- ===== src/Uploads/Cleanup.antt =====
-- `cleanup_stale_uploads` and `run_periodic_lifecycle_jobs` of backend/common/background_jobs.py. Times
-- are seconds; `created_at <= now - days` is written `created_at + days <= now`.
use enterprise_fast_api_boil.Base.{
  ℕ, ◌+◌, ◌*◌, String, ◌≡◌, refl, ◌∙◌, Bool, true, false, not, ◌&&◌, ◌||◌, Option, none, List, [],
  ◌∷◌, any, select, length, arith, Option-cases, inl, inr, is_some, leb, ◌=s◌, if◌then◌else◌,
}
use enterprise_fast_api_boil.Base.Int.{ℤ, pos, negsuc}
use enterprise_fast_api_boil.Base.Dict.{Key, Dict, get, remove, get-remove}
use enterprise_fast_api_boil.Base.Text.{nat_key, list_key, list_eq}
use enterprise_fast_api_boil.Base.Outcome.{Outcome, ok, and_then, Exec}
use enterprise_fast_api_boil.Server.{Server}
use enterprise_fast_api_boil.Billing.Subscriptions.{process_trial_expiry_jobs}
use enterprise_fast_api_boil.Uploads.Paths.{ResolvedPath, resolve_in}
use enterprise_fast_api_boil.Uploads.Storage.{Bytes, UploadModel, Vault}

-- `max(0, older_than_days)`
abbrev pub not_negative : ℤ → ℕ
not_negative (pos n) = n
not_negative (negsuc n) = 0

abbrev pub Files : Type 0
Files = Dict ResolvedPath Bytes

-- `if file_path.exists(): file_path.unlink(missing_ok=True)`
unfoldable pub unlink : ResolvedPath → Files → Files
unlink path files = if is_some (get path files) then remove path files else files

-- `(Path(settings.upload_dir) / record.stored_name).resolve()`
abbrev pub file_of : (M : UploadModel) → ResolvedPath → M.Row → ResolvedPath
file_of M upload_dir row = resolve_in upload_dir (M.stored_name row)

module _ (M : UploadModel) (upload_backend : String) (upload_dir : ResolvedPath) where
  abbrev pub is_stale : ℕ → ℤ → M.Row → Bool
  is_stale now days row = leb (M.created_at row + not_negative days * 86_400) now

  unfoldable pub unlink_all : List M.Row → Files → Files
  unlink_all [] files = files
  unlink_all (row ∷ rows) files =
      unlink_all rows
        (if upload_backend =s "local" then unlink (file_of M upload_dir row) files else files)

  -- `cleanup_stale_uploads`: how many rows were deleted.
  unfoldable pub cleanup_stale_uploads : ℕ → ℤ → Exec (Vault M) ℕ
  cleanup_stale_uploads now older_than_days s =
      let records = select (is_stale now older_than_days) s.rows in
      (
        ok (length records),
        record s {
          rows = select (λ row. not (is_stale now older_than_days row)) s.rows;
          files = unlink_all records s.files;
        },
      )

get-remove_if :
    {K V : Type 0} ⦃e : Key K⦄ (p q : K) (d : Dict K V)
    → get q (if is_some (get p d) then remove p d else d) ≡ (if e.beq p q then none else get q d)
get-remove_if ⦃e⦄ p q d = elim (Option-cases (get p d)) [
  | inl missing ↦ ground (arith, missing, e.beq_iff p q)
  | inr (v, found) ↦ rw found (get-remove p q d)
]

get-unlink :
    (p q : ResolvedPath) (files : Files)
    → get q (unlink p files) ≡ (if list_eq p q then none else get q files)
unfolding unlink
get-unlink p q files = get-remove_if p q files

module _ {A : Type 0} (f : A → Bool) where
  any-select : (p : A → Bool) (xs : List A) → any p (select f xs) ≡ any (λ x. f x && p x) xs
  any-select p [] = refl
  any-select p (x ∷ xs) = ground (arith, any-select p xs)

  -- What a selection leaves over has nothing more to be selected.
  select-select-not : (xs : List A) → select f (select (λ x. not (f x)) xs) ≡ []
  select-select-not [] = refl
  select-select-not (x ∷ xs) = ground (arith, select-select-not xs)

  select-not_twice :
      (xs : List A)
      → select (λ x. not (f x)) (select (λ x. not (f x)) xs) ≡ select (λ x. not (f x)) xs
  select-not_twice [] = refl
  select-not_twice (x ∷ xs) = ground (arith, select-not_twice xs)

if_none :
    {A : Type 0} (a b : Bool) (o : Option A)
    → (if b then none else (if a then none else o)) ≡ (if a || b then none else o)
if_none true true o = refl
if_none true false o = refl
if_none false true o = refl
if_none false false o = refl

module _ (M : UploadModel) (upload_dir : ResolvedPath) where
  module _ (q : ResolvedPath) where
    get-unlink_all :
        (rows : List M.Row) (files : Files)
        → get q (unlink_all M "local" upload_dir rows files)
          ≡ (if any (λ row. list_eq (file_of M upload_dir row) q) rows then none else get q files)
    unfolding unlink_all
    get-unlink_all [] files = refl
    get-unlink_all (row ∷ rows) files =
        get-unlink_all rows (unlink (file_of M upload_dir row) files)
        ∙ rw (get-unlink (file_of M upload_dir row) q files) (
            if_none (list_eq (file_of M upload_dir row) q)
              (any (λ r. list_eq (file_of M upload_dir r) q) rows) (get q files))

  unlink_all-remote :
      (remote : String) (rows : List M.Row) (files : Files)
      → (remote =s "local") ≡ false
      → unlink_all M remote upload_dir rows files ≡ files
  unfolding unlink_all
  unlink_all-remote remote [] files far = refl
  unlink_all-remote remote (row ∷ rows) files far = rw far (unlink_all-remote remote rows files far)

  -- With the local storage the job counts the uploads that are old enough, and removes exactly their
  -- rows and their files; all other files stay. Another run at the same time finds nothing more to do.
  -- With another storage it counts them and removes exactly their rows; what is stored stays.
  pub cleanup_lem :
      (now : ℕ) (days : ℤ) (s : Vault M) (remote : String)
      → (remote =s "local") ≡ false
      → let is_old = is_stale M "local" upload_dir now days in
        let (r, s') = cleanup_stale_uploads M "local" upload_dir now days s in
        (r ≡ ok (length (select is_old s.rows)))
        × (s'.rows ≡ select (λ row. not (is_old row)) s.rows)
        × ((q : ResolvedPath)
            → get q s'.files ≡ (
                if any (λ row. is_old row && list_eq (file_of M upload_dir row) q) s.rows
                then none
                else get q s.files))
        × (cleanup_stale_uploads M "local" upload_dir now days s' ≡ (ok 0, s'))
        × (cleanup_stale_uploads M remote upload_dir now days s ≡ (
          ok (length (select is_old s.rows)),
          record s { rows = select (λ row. not (is_old row)) s.rows },
        ))
  unfolding cleanup_stale_uploads unlink_all
  cleanup_lem now days s remote far =
      let is_old = is_stale M "local" upload_dir now days in
      (
        refl,
        refl,
        λ q.
            get-unlink_all q (select is_old s.rows) s.files
            ∙ rw (any-select is_old (λ row. list_eq (file_of M upload_dir row) q) s.rows) refl,
        λ i.
            let left = select-select-not is_old s.rows i in
            (
              ok (length left),
              record s {
                rows = select-not_twice is_old s.rows i;
                files =
                    unlink_all M "local" upload_dir left
                      (unlink_all M "local" upload_dir (select is_old s.rows) s.files);
              },
            ),
        rw (unlink_all-remote remote (select is_old s.rows) s.files far) refl,
      )

module _ (M : UploadModel) (upload_backend : String) (upload_dir : ResolvedPath) where
  -- `run_periodic_lifecycle_jobs`: how many uploads were removed, and how many trials have ended. Each
  -- of the two jobs opens sessions of its own.
  unfoldable pub run_periodic_lifecycle_jobs :
      ℕ → ℤ → Vault M × Server → Outcome (ℕ × ℕ) × Vault M × Server
  unfolding cleanup_stale_uploads process_trial_expiry_jobs
  run_periodic_lifecycle_jobs now older_than_days (vault, server) =
      let (cleaned, vault') =
        cleanup_stale_uploads M upload_backend upload_dir now older_than_days vault in
      let (expired, server') = process_trial_expiry_jobs now server in
      (and_then cleaned (λ c. and_then expired (λ e. ok (c, e))), vault', server')
