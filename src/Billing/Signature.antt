-- ===== src/Billing/Signature.antt =====
-- Which webhooks the Stripe adapter takes for genuine.
use enterprise_fast_api_boil.Base.{
  ℕ, ◌≡◌, refl, ap, ◌∙◌, Bool, true, false, not, ◌&&◌, ◌||◌, Option, none, some, List, [], ◌∷◌,
  ◌++◌, any, arith, Bool-cases, inl, inr, ◌==◌,
}
use enterprise_fast_api_boil.Base.Int.{ℤ}
use enterprise_fast_api_boil.Base.Dict.{get}
use enterprise_fast_api_boil.Base.Text.{
  Text, codes, nat_key, list_key, list_eq, list_eq_iff, is_ascii, compare_digest,
}
use enterprise_fast_api_boil.Base.Outcome.{ok, Error}
use enterprise_fast_api_boil.Config.{comma, split, strip}
use enterprise_fast_api_boil.Config.StringLists.{split_last, split-append}
use enterprise_fast_api_boil.Billing.Adapters.{
  Verification, is_too_old, is_falsy, read_parts, digest_matches, check_time, check_parts,
  verify_stripe,
}

module _ (is_space : ℕ → Bool) (int_of : Text → Option ℤ) (decode : List ℕ → Text)
    (hmac_sha256 : Text → Text → Text) (type_error : Error) where
  -- What Stripe signs: the time as it is written, a dot and the payload.
  abbrev pub signature_of : Text → Text → List ℕ → Text
  signature_of secret timestamp payload =
      hmac_sha256 secret (timestamp ++ (codes "." ++ decode payload))

  abbrev pub header_of : Text → Text → Text
  header_of timestamp signature = (codes "t=" ++ timestamp) ++ (comma ∷ (codes "v1=" ++ signature))

  -- A text that a part of a header can hold as it is.
  abbrev pub IsPart : Text → Type 0
  IsPart t =
      (any (λ c. c == comma) t ≡ false) × (strip is_space t ≡ t) × (is_falsy (some t) ≡ false)

  split-header :
      (timestamp value : Text)
      → any (λ c. c == comma) timestamp ≡ false
      → any (λ c. c == comma) value ≡ false
      → split (header_of timestamp value) ≡ (codes "t=" ++ timestamp) ∷ (codes "v1=" ++ value) ∷ []
  split-header timestamp value a d =
      split-append (codes "t=" ++ timestamp) (codes "v1=" ++ value) a
      ∙ ap (λ parts. (codes "t=" ++ timestamp) ∷ parts) (split_last (codes "v1=" ++ value) d)

  read_parts-header :
      (timestamp value : Text)
      → strip is_space (codes "t") ≡ codes "t"
      → strip is_space (codes "v1") ≡ codes "v1"
      → strip is_space timestamp ≡ timestamp
      → strip is_space value ≡ value
      → read_parts is_space int_of decode hmac_sha256 type_error
          ((codes "t=" ++ timestamp) ∷ (codes "v1=" ++ value) ∷ [])
          []
        ≡ (codes "t", timestamp) ∷ (codes "v1", value) ∷ []
  unfolding read_parts list_eq
  read_parts-header timestamp value t v b e = rw (t, v, b, e) refl

  check_time-some :
      (now : ℕ) (secret timestamp value : Text) (t : ℤ) (payload : List ℕ) (header : Text)
      → is_ascii value ≡ true
      → is_ascii (signature_of secret timestamp payload) ≡ true
      → check_time is_space int_of decode hmac_sha256 type_error now secret timestamp value
          (some t)
          payload
          header
        ≡ ok (record {
          verified =
              not (is_too_old now t) && list_eq value (signature_of secret timestamp payload);
          payload = decode payload;
          signature = header;
        })
  unfolding compare_digest
  check_time-some now secret timestamp value t payload header ascii₁ ascii₂ =
      elim (Bool-cases (is_too_old now t)) [
        | inl old ↦ rw old refl
        | inr new ↦ rw new (rw (ascii₁, ascii₂) refl)
      ]

  -- A header that is written for the payload is taken for genuine exactly where its time is at most 300
  -- seconds away and its signature is the one of the payload under the secret.
  pub stripe_roundtrip :
      (now : ℕ) (secret timestamp value : Text) (t : ℤ) (payload : List ℕ)
      → is_falsy (some secret) ≡ false
      → IsPart timestamp
      → IsPart value
      → strip is_space (codes "t") ≡ codes "t"
      → strip is_space (codes "v1") ≡ codes "v1"
      → int_of timestamp ≡ some t
      → is_ascii value ≡ true
      → is_ascii (signature_of secret timestamp payload) ≡ true
      → verify_stripe is_space int_of decode hmac_sha256 type_error now
          (some secret)
          payload
          (header_of timestamp value)
        ≡ ok (record {
          verified =
              not (is_too_old now t) && list_eq value (signature_of secret timestamp payload);
          payload = decode payload;
          signature = header_of timestamp value;
        })
  unfolding verify_stripe
  stripe_roundtrip now secret timestamp value t payload given (a, b, c) (d, e, f) plain_t plain_v
        read ascii₁ ascii₂ =
      rw (split-header timestamp value a d) (
        rw (read_parts-header timestamp value plain_t plain_v b e) (
          rw (given, c, f, read)
            (check_time-some now secret timestamp value t payload (header_of timestamp value) ascii₁
              ascii₂)))

  digest_matches-genuine :
      (value expected : Text) (payload : List ℕ) (header : Text) (v : Verification)
      → digest_matches is_space int_of decode hmac_sha256 type_error value expected payload header
        ≡ ok v
      → v.verified ≡ true
      → value ≡ expected
  unfolding compare_digest
  digest_matches-genuine value expected payload header v h genuine =
      elim (Bool-cases (is_ascii value && is_ascii expected)) [
        | inl plain ↦ (list_eq_iff value expected).0 (ground (arith, rw plain at h))
        | inr odd ↦ absurd (ground (arith, rw odd at h))
      ]

  check_time-genuine :
      (now : ℕ) (key timestamp value : Text) (o : Option ℤ) (payload : List ℕ) (header : Text)
      (v : Verification)
      → check_time is_space int_of decode hmac_sha256 type_error now key timestamp value o payload
          header
        ≡ ok v
      → v.verified ≡ true
      → (t : ℤ) × (o ≡ some t)
        × (is_too_old now t ≡ false)
        × (value ≡ signature_of key timestamp payload)
  check_time-genuine now key timestamp value none payload header v h genuine = absurd (ground arith)
  check_time-genuine now key timestamp value (some t) payload header v h genuine =
      elim (Bool-cases (is_too_old now t)) [
        | inl old ↦ absurd (ground (arith, rw old at h))
        | inr new ↦ (
          t,
          refl,
          new,
          digest_matches-genuine value (signature_of key timestamp payload) payload header v
              (rw new at h) genuine,
        )
      ]

  check_parts-genuine :
      (now : ℕ) (key : Text) (ts value : Option Text) (payload : List ℕ) (header : Text)
      (v : Verification)
      → check_parts is_space int_of decode hmac_sha256 type_error now key ts value payload header
        ≡ ok v
      → v.verified ≡ true
      → (timestamp : Text) × (t : ℤ) × (ts ≡ some timestamp)
        × (int_of timestamp ≡ some t)
        × (is_too_old now t ≡ false)
        × (value ≡ some (signature_of key timestamp payload))
  check_parts-genuine now key none value payload header v h genuine = absurd (ground arith)
  check_parts-genuine now key (some a) none payload header v h genuine =
      elim (Bool-cases (is_falsy (some a) || true)) [
        | inl e ↦ absurd (ground (arith, rw e at h))
        | inr e ↦ absurd (ground (arith, e))
      ]
  check_parts-genuine now key (some a) (some b) payload header v h genuine =
      elim (Bool-cases (is_falsy (some a) || is_falsy (some b))) [
        | inl e ↦ absurd (ground (arith, rw e at h))
        | inr e ↦
            let (t, read, new, same) =
              check_time-genuine now key a b (int_of a) payload header v (rw e at h) genuine in
            (a, t, refl, read, new, ap some same)
      ]

  -- Whatever the header holds: what is taken for genuine carries a time at most 300 seconds away, and
  -- the signature of the payload under a secret that is set.
  pub stripe_sound :
      (now : ℕ) (secret : Option Text) (payload : List ℕ) (header : Text) (v : Verification)
      → verify_stripe is_space int_of decode hmac_sha256 type_error now secret payload header ≡ ok v
      → v.verified ≡ true
      → (key : Text) × (timestamp : Text) × (t : ℤ) × (secret ≡ some key)
        × (is_falsy secret ≡ false)
        × (int_of timestamp ≡ some t)
        × (is_too_old now t ≡ false)
        × (get
              (codes "t")
              (read_parts is_space int_of decode hmac_sha256 type_error (split header) [])
            ≡ some timestamp)
        × (get
              (codes "v1")
              (read_parts is_space int_of decode hmac_sha256 type_error (split header) [])
            ≡ some (signature_of key timestamp payload))
  unfolding verify_stripe
  stripe_sound now none payload header v h genuine = absurd (ground arith)
  stripe_sound now (some key) payload header v h genuine = elim (Bool-cases (is_falsy (some key))) [
    | inl e ↦ absurd (ground (arith, rw e at h))
    | inr e ↦
        let parts = read_parts is_space int_of decode hmac_sha256 type_error (split header) [] in
        let (timestamp, t, at_t, read, new, at_v1) =
          check_parts-genuine now key (get (codes "t") parts) (get (codes "v1") parts) payload
            header v (rw e at h) genuine in
        (key, timestamp, t, refl, e, read, new, at_t, at_v1)
  ]
