-- ===== src/Admin/User.antt =====
-- Users, their sessions and who has been authenticated (user.go, session.go, session_token.go and
-- auth_context.go of internal/administration), with the header that carries a token
-- (auth_middleware.go) and the header's fields by strings.Fields.
use go_invoicing.Base.{ℕ, Bool, false, Option, none, some, List, [], ◌∷◌, ltb, if◌then◌else◌}
use go_invoicing.Base.Text.{Text, codes, text_eq, is_space, to_lower}
use go_invoicing.Base.Time.{Time, day_ns}
use go_invoicing.Base.Crypto.{CryptoOps, hex}
use go_invoicing.Admin.{Uuid}

abbrev pub user_role_admin : Text
user_role_admin = codes "admin"

abbrev pub user_role_manager : Text
user_role_manager = codes "manager"

abbrev pub user_role_user : Text
user_role_user = codes "user"

abbrev pub current_terms_version : Text
current_terms_version = codes "2026-09-27"

pub record User : Type 0 where
  pub id : Uuid
  pub organisation_id : Uuid
  pub name : Text
  pub email : Text
  pub password_hash : Text
  pub role : Text
  pub is_active : Bool
  pub last_login : Option Time
  pub created_at : Time
  pub updated_at : Time
  pub deleted_at : Option Time
  pub terms_accepted_at : Option Time
  pub terms_version : Option Text

pub record UserListFilter : Type 0 where
  pub role : Text
  pub active : Option Bool
  pub sort : Text
  pub order : Text
  pub limit : ℕ
  pub offset : ℕ

pub record CreateUserRequest : Type 0 where
  pub name : Text
  pub email : Text
  pub password : Text
  pub role : Text

abbrev pub session_ttl : ℕ
session_ttl = day_ns

pub record Session : Type 0 where
  pub id : Uuid
  pub user_id : Uuid
  pub token_hash : Text
  pub created_at : Time
  pub expires_at : Time
  pub revoked_at : Option Time

abbrev valid_until : Time → Time → Option Time → Bool
valid_until now expiry none = ltb now expiry
valid_until now expiry (some moment) = false

-- Neither revoked nor expired.
abbrev pub is_valid : Session → Time → Bool
is_valid s now = valid_until now s.expires_at s.revoked_at

pub record LoginResult : Type 0 where
  pub token : Text
  pub session : Session
  pub user : User

pub record AuthenticatedUser : Type 0 where
  pub user_id : Uuid
  pub organisation_id : Uuid
  pub role : Text
  pub session_id : Uuid

abbrev encoded_token : CryptoOps → Option (List ℕ) → Option Text
encoded_token crypto none = none
encoded_token crypto (some raw) = some (crypto.base64_raw_url raw)

abbrev pub generate_session_token : CryptoOps → Option Text
generate_session_token crypto = encoded_token crypto (crypto.random 32)

abbrev pub hash_session_token : CryptoOps → Text → Text
hash_session_token crypto token = hex (crypto.sha256 token)

abbrev prepended : ℕ → List Text → List Text
prepended c [] = (c ∷ []) ∷ []
prepended c (w ∷ ws) = (c ∷ w) ∷ ws

abbrev joined : ℕ → Text → List Text → List Text
joined c [] ws = (c ∷ []) ∷ ws
joined c (d ∷ s) ws = if is_space d then (c ∷ []) ∷ ws else prepended c ws

-- strings.Fields
abbrev pub fields : Text → List Text
fields [] = []
fields (c ∷ s) = let rest = fields s in if is_space c then rest else joined c s rest

-- strings.EqualFold(word, "Bearer"): no other letter folds to one of these.
abbrev pub is_bearer : Text → Bool
is_bearer word = text_eq (to_lower (λ c. c) word) (codes "bearer")

abbrev bearer_token_of : List Text → Option Text
bearer_token_of (scheme ∷ token ∷ []) = if is_bearer scheme then some token else none
bearer_token_of _ = none

unfoldable pub parse_bearer_token : Text → Option Text
parse_bearer_token header = bearer_token_of (fields header)
