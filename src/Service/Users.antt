-- ===== src/Service/Users.antt =====
-- UserService (user_service.go), and the checks of a new user's fields that registration shares.
pub mod Laws
use go_invoicing.Base.{
  ℕ, Bool, true, false, not, ◌&&◌, ◌||◌, ltb, Option, none, some, List, if◌then◌else◌,
}
use go_invoicing.Base.Text.{Text, text_eq, is_empty, trim_space, byte_length}
use go_invoicing.Base.Time.{zero_time}
use go_invoicing.Errors.{
  Error, user_name_required, user_email_required, user_email_invalid, user_password_required,
  user_password_too_short, user_role_invalid, user_role_assignment_not_permitted,
  user_actor_not_permitted, user_role_filter_invalid, password_hash_random,
}
use go_invoicing.Admin.{Uuid, Organisation}
use go_invoicing.Admin.User.{
  User, CreateUserRequest, UserListFilter, user_role_admin, user_role_manager, user_role_user,
}
use go_invoicing.Admin.Password.{hash_password}
use go_invoicing.Store.{Env, M, pure, throw, throw_if, ◌>>=◌, ◌>>◌}
use go_invoicing.Store.Parties.{get_organisation}
use go_invoicing.Store.Users.{insert_user, get_user, list_user_rows}
use go_invoicing.Service.Auth.{normalized_email}

abbrev pub min_password_length : ℕ
min_password_length = 12

-- The name trimmed, and the email trimmed and in lower case.
unfoldable pub validate_user_fields : Env → Text → Text → Text → M (Text × Text)
validate_user_fields env name email password = do
  let trimmed = trim_space name
  throw_if (is_empty trimmed) user_name_required
  throw_if (is_empty (normalized_email env email)) user_email_required
  throw_if (not (env.valid_address (normalized_email env email))) user_email_invalid
  throw_if (is_empty password) user_password_required
  throw_if (ltb (byte_length password) min_password_length) user_password_too_short
  pure (trimmed, normalized_email env email)

abbrev pub is_known_role : Text → Bool
is_known_role role =
    text_eq role user_role_admin || text_eq role user_role_manager || text_eq role user_role_user

-- A blank role is that of a user.
abbrev pub requested_role : Text → Text
requested_role role = if is_empty (trim_space role) then user_role_user else trim_space role

unfoldable pub validate_target_role : Text → M Text
validate_target_role role = do
  throw_if (not (is_known_role (requested_role role))) user_role_invalid
  pure (requested_role role)

-- The switch over the role of the caller.
unfoldable pub check_assignment : Text → Text → M (Unit {0})
check_assignment actor role =
    if text_eq actor user_role_admin
    then pure tt
    else if text_eq actor user_role_manager
    then throw_if (not (text_eq role user_role_user)) user_role_assignment_not_permitted
    else throw user_actor_not_permitted

abbrev pub new_user : Env → Uuid → Text × Text → Text → Text → User
new_user env org (name, email) role hash = record {
  id = env.new_id;
  organisation_id = org;
  name = name;
  email = email;
  password_hash = hash;
  role = role;
  is_active = true;
  last_login = none;
  created_at = zero_time;
  updated_at = zero_time;
  deleted_at = none;
  terms_accepted_at = none;
  terms_version = none;
}

abbrev pub or_throw {ℓ} : {A : Type ℓ} → Option A → Error → M A
or_throw none e = throw e
or_throw (some a) e = pure a

abbrev pub insert_checked : Env → Uuid → Text → Text × Text → Text → M User
insert_checked env org password names role = do
  organisation ← get_organisation env org
  hash ← or_throw (hash_password env.crypto password) password_hash_random
  insert_user env (new_user env org names role hash)

unfoldable pub create_user : Env → Uuid → Text → CreateUserRequest → M User
create_user env org actor r = do
  names ← validate_user_fields env r.name r.email r.password
  role ← validate_target_role r.role
  check_assignment actor role
  insert_checked env org r.password names role

unfoldable pub read_user : Env → Uuid → Uuid → M User
read_user env org id = get_user env org id

unfoldable pub list_users : Env → Uuid → UserListFilter → M (List User × ℕ)
list_users env org f = do
  throw_if (not (is_empty f.role) && not (is_known_role f.role)) user_role_filter_invalid
  list_user_rows env org f
