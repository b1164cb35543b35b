-- ===== src/Auth/Sockets.antt =====
-- `connect` of backend/app/socketio_app.py, the check of a socket's token. A token is its claims, with
-- the identifier that may be missing; `none` is a token that does not decode. The store of revoked
-- identifiers has a dictionary of its own, as in the module.
use enterprise_fast_api_boil.Base.{
  String, Bool, false, not, Option, none, some, ◌=s◌, if◌then◌else◌,
}
use enterprise_fast_api_boil.Base.Outcome.{Exec, pure, ◌>>=◌}
use enterprise_fast_api_boil.Tokens.Redis.{Redis}
use enterprise_fast_api_boil.Tokens.Store.{Cache, is_revoked}
use enterprise_fast_api_boil.Auth.{revocation_prefix}

module _ (R : Redis) where
  abbrev pub admit : Option String → Exec (Cache R) Bool
  admit none = pure false
  admit (some jti) =
      if jti =s ""
      then pure false
      else (do gone ← is_revoked R revocation_prefix jti; pure (not gone))

  abbrev pub connect_claims : Option (Option String) → Exec (Cache R) Bool
  connect_claims none = pure false
  connect_claims (some jti) = admit jti

  -- `decode` is the library's check of a token that is not expired.
  unfoldable pub connect : (String → Option (Option String)) → Option String → Exec (Cache R) Bool
  unfolding is_revoked
  connect decode none = pure false
  connect decode (some token) = if token =s "" then pure false else connect_claims (decode token)
