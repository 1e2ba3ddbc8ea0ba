-- ===== src/Service/Auth.antt =====
-- AuthService (auth_service.go), the middleware that authenticates a request (auth_middleware.go)
-- and the one that asks for a role (authorisation.go). A response of 401 or 403 is an error here.
pub mod Request
pub mod Unseen
pub mod Login
pub mod Entry
pub mod Accept
pub mod Cleanup
pub mod Accounts
pub mod Kept
pub mod Steps
pub mod Out
use go_invoicing.Base.{
  ◌+◌, Bool, true, false, not, Option, none, some, List, [], ◌∷◌, if◌then◌else◌,
}
use go_invoicing.Base.Text.{Text, text_eq, is_empty, trim_space, to_lower}
use go_invoicing.Errors.{
  Error, Result, ok, err, login_email_required, login_password_required, invalid_credentials,
  user_not_found, session_not_found, session_token_random, unauthorized, forbidden,
}
use go_invoicing.Admin.{Uuid}
use go_invoicing.Admin.User.{
  User, Session, LoginResult, AuthenticatedUser, session_ttl, is_valid, generate_session_token,
  hash_session_token, parse_bearer_token,
}
use go_invoicing.Admin.Password.{verify_password}
use go_invoicing.Store.{Db, Env, M, pure, throw, throw_if, in_tx, ◌>>=◌, ◌>>◌}
use go_invoicing.Store.Users.{get_by_email, get_for_authentication, update_last_login}
use go_invoicing.Store.Sessions.{insert_session, get_by_token_hash, revoke}

module _ {ℓ} {A : Type ℓ} where
  abbrev pub renamed_result : (Error → Error) → Result A → Result A
  renamed_result f (ok a) = ok a
  renamed_result f (err e) = err (f e)

  -- A call whose error is exchanged for another.
  abbrev pub with_error : (Error → Error) → M A → M A
  with_error f m db = let (r, db') = m db in (renamed_result f r, db')

-- `if errors.Is(err, ErrUserNotFound) { return ErrInvalidCredentials }`
abbrev pub hide_unknown_user : Error → Error
hide_unknown_user user_not_found = invalid_credentials
hide_unknown_user e = e

abbrev pub normalized_email : Env → Text → Text
normalized_email env email = to_lower env.lower (trim_space email)

abbrev pub new_session : Env → User → Text → Session
new_session env user token = record {
  id = env.new_id;
  user_id = user.id;
  token_hash = hash_session_token env.crypto token;
  created_at = env.now;
  expires_at = env.now + session_ttl;
  revoked_at = none;
}

abbrev pub record_login : Env → User → Text → M (Unit {0})
record_login env user token = do
  insert_session env (new_session env user token)
  update_last_login env user.id env.now

abbrev pub login_result : Env → User → Text → LoginResult
login_result env user token = record {
  token = token;
  session = new_session env user token;
  user = record user { last_login = some env.now };
}

abbrev pub login_with : Env → User → Option Text → M LoginResult
login_with env user none = throw session_token_random
login_with env user (some token) = do
  in_tx env (record_login env user token)
  pure (login_result env user token)

abbrev pub login_user : Env → Text → User → M LoginResult
login_user env password user = do
  throw_if (not (verify_password env.crypto password user.password_hash)) invalid_credentials
  throw_if (not user.is_active) invalid_credentials
  login_with env user (generate_session_token env.crypto)

unfoldable pub login : Env → Text → Text → M LoginResult
login env email password = do
  throw_if (is_empty (normalized_email env email)) login_email_required
  throw_if (is_empty password) login_password_required
  user ← with_error hide_unknown_user (get_by_email env (normalized_email env email))
  login_user env password user

unfoldable pub logout : Env → Uuid → M (Unit {0})
logout env session = revoke env session

abbrev pub hide_missing_session : Error → Error
hide_missing_session session_not_found = unauthorized
hide_missing_session e = e

abbrev pub hide_missing_user : Error → Error
hide_missing_user user_not_found = unauthorized
hide_missing_user e = e

abbrev pub identity_of : User → Session → AuthenticatedUser
identity_of user session = record {
  user_id = user.id;
  organisation_id = user.organisation_id;
  role = user.role;
  session_id = session.id;
}

abbrev pub admit : Session → User → M AuthenticatedUser
admit session user = do throw_if (not user.is_active) unauthorized; pure (identity_of user session)

abbrev pub check_session : Env → Session → M AuthenticatedUser
check_session env session = do
  throw_if (not (is_valid session env.now)) unauthorized
  user ← with_error hide_missing_user (get_for_authentication env session.user_id)
  admit session user

abbrev pub check_token : Env → Option Text → M AuthenticatedUser
check_token env none = throw unauthorized
check_token env (some token) = do
  session ←
      with_error hide_missing_session (get_by_token_hash env (hash_session_token env.crypto token))
  check_session env session

-- The identity that the next handler is given, for an Authorization header.
unfoldable pub require_auth : Env → Text → M AuthenticatedUser
require_auth env header = check_token env (parse_bearer_token header)

abbrev is_role_of : List Text → Text → Bool
is_role_of [] role = false
is_role_of (r ∷ rs) role = let rest = is_role_of rs role in if text_eq r role then true else rest

-- Inside require_auth, which has found who calls.
unfoldable pub require_role : List Text → AuthenticatedUser → M (Unit {0})
require_role roles identity = throw_if (not (is_role_of roles identity.role)) forbidden
