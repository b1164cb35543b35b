-- ===== src/Tokens/Revocation.antt =====
-- What the stores of backend/core/security/token_store.py leave in Redis while it answers.
use mathlib.Core.Path.{subst}
use enterprise_fast_api_boil.Base.{
  ℕ, ◌+◌, ◌*◌, ◌≤◌, ◌<◌, String, ◌≡◌, ◌≢◌, refl, sym, ◌∙◌, true, false, Bool-cases, eq_iff, inl,
  inr, ap, none, some, List, [], ◌∷◌, contains, ◌=s◌, arith,
}
use enterprise_fast_api_boil.Base.Outcome.{ok}
use enterprise_fast_api_boil.Tokens.Redis.{Redis, revoked, EntryKey}
use enterprise_fast_api_boil.Tokens.Store.{
  Cache, delete_entry, set_entry, delete_all, revoke_jti, revoke_each,
}

module _ (R : Redis) where
  -- The stores when Redis answers, and when it does not in production.
  abbrev pub online : Cache R → Cache R
  online c = record c { up = true }

  abbrev pub offline : Cache R → Cache R
  offline c = record c { up = false; is_dev = false }

module _ (R : Redis) (prefix : String) where
  abbrev pub deleted : List String → R.State → R.State
  deleted [] s = s
  deleted (token ∷ tokens) s = deleted tokens (R.delete (prefix, token) s)

  abbrev pub all_revoked : ℕ → List String → R.State → R.State
  all_revoked now [] s = s
  all_revoked now (jti ∷ jtis) s =
      all_revoked now jtis (R.set now (prefix, jti) revoked (24 * 60 * 60) s)

  pub delete_all_up :
      (tokens : List String) (c : Cache R)
      → delete_all R prefix tokens (online R c)
        ≡ (ok tt, record c { redis = deleted tokens c.redis; up = true })
  unfolding delete_all delete_entry
  delete_all_up [] c = refl
  delete_all_up (token ∷ tokens) c =
      delete_all_up tokens (record c { redis = R.delete (prefix, token) c.redis })

  pub revoke_each_up :
      (jtis : List String) (c : Cache R)
      → revoke_each R prefix jtis (online R c)
        ≡ (ok tt, record c { redis = all_revoked c.now jtis c.redis; up = true })
  unfolding revoke_each revoke_jti set_entry
  revoke_each_up [] c = refl
  revoke_each_up (jti ∷ jtis) c =
      revoke_each_up jtis
        (record c { redis = R.set c.now (prefix, jti) revoked (24 * 60 * 60) c.redis })

  pub get-deleted-none :
      (tokens : List String) (t : ℕ) (k : EntryKey) (s : R.State)
      → R.get t k s ≡ none
      → R.get t k (deleted tokens s) ≡ none
  get-deleted-none [] t k s gone = gone
  get-deleted-none (token ∷ tokens) t k s gone =
      get-deleted-none tokens t k (R.delete (prefix, token) s)
        (R.get-delete_none t (prefix, token) k s gone)

  pub get-deleted :
      (tokens : List String) (t : ℕ) (token : String) (s : R.State)
      → contains token tokens ≡ true
      → R.get t (prefix, token) (deleted tokens s) ≡ none
  get-deleted [] t token s member = absurd (ground arith)
  get-deleted (x ∷ tokens) t token s member = elim (Bool-cases (token =s x)) [
    | inl same ↦
        get-deleted-none tokens t (prefix, token) (R.delete (prefix, x) s)
          (subst (λ y. R.get t (prefix, token) (R.delete (prefix, y) s) ≡ none)
            ((eq_iff token x).0 same) (R.get-delete_self t (prefix, token) s))
    | inr other ↦ get-deleted tokens t token (R.delete (prefix, x) s) (ground arith)
  ]

  pub get-all_revoked_ne :
      (jtis : List String) (now t : ℕ) (k : EntryKey) (s : R.State)
      → k.0 ≢ prefix
      → R.get t k (all_revoked now jtis s) ≡ R.get t k s
  get-all_revoked_ne [] now t k s other = refl
  get-all_revoked_ne (jti ∷ jtis) now t k s other =
      get-all_revoked_ne jtis now t k (R.set now (prefix, jti) revoked (24 * 60 * 60) s) other
      ∙ R.get-set_ne now t (prefix, jti) k revoked (24 * 60 * 60) s
          (λ e. other (ap (λ (k : EntryKey). k.0) (sym e)))

  -- A key that is revoked, or was before, reads as revoked while the entry lives.
  get-all_revoked_kept :
      (jtis : List String) (now t : ℕ) (jti : String) (s : R.State)
      → now ≤ t
      → t < now + 24 * 60 * 60
      → R.get t (prefix, jti) s ≡ some revoked
      → R.get t (prefix, jti) (all_revoked now jtis s) ≡ some revoked
  get-all_revoked_kept [] now t jti s started live held = held
  get-all_revoked_kept (x ∷ jtis) now t jti s started live held =
      get-all_revoked_kept jtis now t jti (R.set now (prefix, x) revoked (24 * 60 * 60) s) started
        live
        (elim (Bool-cases (jti =s x)) [
          | inl same ↦
              subst
                (λ y.
                  R.get t (prefix, jti) (R.set now (prefix, y) revoked (24 * 60 * 60) s)
                  ≡ some revoked)
                ((eq_iff jti x).0 same)
                (R.get-set_self now t (prefix, jti) revoked (24 * 60 * 60) s started live)
          | inr other ↦
              R.get-set_ne now t (prefix, x) (prefix, jti) revoked (24 * 60 * 60) s
                (λ e. absurd (ground (arith, eq_iff jti x, ap (λ (k : EntryKey). k.1) e)))
              ∙ held
        ])

  pub get-all_revoked :
      (jtis : List String) (now t : ℕ) (jti : String) (s : R.State)
      → now ≤ t
      → t < now + 24 * 60 * 60
      → contains jti jtis ≡ true
      → R.get t (prefix, jti) (all_revoked now jtis s) ≡ some revoked
  get-all_revoked [] now t jti s started live member = absurd (ground arith)
  get-all_revoked (x ∷ jtis) now t jti s started live member = elim (Bool-cases (jti =s x)) [
    | inl same ↦
        get-all_revoked_kept jtis now t jti (R.set now (prefix, x) revoked (24 * 60 * 60) s) started
          live
          (subst
            (λ y.
              R.get t (prefix, jti) (R.set now (prefix, y) revoked (24 * 60 * 60) s) ≡ some revoked)
            ((eq_iff jti x).0 same)
            (R.get-set_self now t (prefix, jti) revoked (24 * 60 * 60) s started live))
    | inr other ↦
        get-all_revoked jtis now t jti (R.set now (prefix, x) revoked (24 * 60 * 60) s) started live
          (ground arith)
  ]
