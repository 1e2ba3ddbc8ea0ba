-- ===== src/Service/Organisations/Register.antt =====
-- Register (registration_service.go).
use go_invoicing.Base.{Bool, not, some}
use go_invoicing.Base.Text.{Text, is_empty, trim_space}
use go_invoicing.Errors.{organisation_name_required, terms_not_accepted, password_hash_random}
use go_invoicing.Admin.{Organisation}
use go_invoicing.Admin.User.{User, user_role_admin, current_terms_version}
use go_invoicing.Admin.Password.{hash_password}
use go_invoicing.Store.{Env, M, pure, throw_if, in_tx, ◌>>=◌, ◌>>◌}
use go_invoicing.Store.Organisations.{insert_organisation, insert_settings}
use go_invoicing.Store.Templates.{create_system_template}
use go_invoicing.Store.Users.{insert_user}
use go_invoicing.Service.Organisations.{new_organisation, default_settings}
use go_invoicing.Service.Users.{validate_user_fields, new_user, or_throw}

-- The first user, who is an admin.
abbrev pub first_user : Env → Text × Text → Text → User
first_user env names hash = record (new_user env env.new_id names user_role_admin hash) {
  id = env.later_id 1;
  terms_accepted_at = some env.now;
  terms_version = some current_terms_version;
}

-- The layout's identifier is a further one.
abbrev pub template_env : Env → Env
template_env env = record env { new_id = env.later_id 2 }

unfoldable pub register_body : Env → Text → Text × Text → Text → M (Organisation × User)
register_body env organisation_name names hash = do
  o ← insert_organisation env (new_organisation env organisation_name)
  insert_settings env (default_settings env env.new_id)
  template ← create_system_template (template_env env) env.new_id
  user ← insert_user env (first_user env names hash)
  pure (o, user)

unfoldable pub register : Env → Text → Text → Text → Text → Bool → M (Organisation × User)
register env organisation_name name email password agreed = do
  throw_if (is_empty (trim_space organisation_name)) organisation_name_required
  names ← validate_user_fields env name email password
  throw_if (not agreed) terms_not_accepted
  hash ← or_throw (hash_password env.crypto password) password_hash_random
  in_tx env (register_body env (trim_space organisation_name) names hash)
