-- ===== src/Service/Templates.antt =====
-- TemplateService (template_service.go).
pub mod Laws
use go_invoicing.Base.{ℕ, Bool, false, none, ltb, List, if◌then◌else◌}
use go_invoicing.Base.Text.{Text, trim_space, is_empty, byte_length}
use go_invoicing.Base.Time.{zero_time}
use go_invoicing.Errors.{
  template_name_required, template_definition_too_large, template_is_system_cannot_be_deleted,
}
use go_invoicing.Admin.{Uuid}
use go_invoicing.Template.{Template}
use go_invoicing.Store.{Env, M, pure, throw_if, in_tx, ◌>>=◌, ◌>>◌}
use go_invoicing.Store.Templates.{
  get_template, get_system_template, insert_template, update_template_row, soft_delete,
  set_default_row,
}

-- maxDefinitionBytes, 200 KiB
abbrev max_definition_bytes : ℕ
max_definition_bytes = 204800

unfoldable pub validate_name_and_definition : Text → Text → M Text
validate_name_and_definition name definition = do
  let trimmed = trim_space name
  throw_if (is_empty trimmed) template_name_required
  throw_if (ltb max_definition_bytes (byte_length definition)) template_definition_too_large
  pure trimmed

abbrev pub new_template : Env → Uuid → Text → Text → Template
new_template env org definition name = record {
  id = env.new_id;
  organisation_id = org;
  name = name;
  definition = definition;
  is_default = false;
  is_system = false;
  created_at = zero_time;
  updated_at = zero_time;
  deleted_at = none;
  version = 0;
}

unfoldable pub create_template : Env → Uuid → Text → Text → M Template
create_template env org name definition = do
  name ← validate_name_and_definition name definition
  insert_template env (new_template env org definition name)

-- The columns that the UPDATE does not return.
abbrev pub merged_template : Template → Template → Template
merged_template existing written = record written {
  is_default = existing.is_default;
  is_system = existing.is_system;
  created_at = existing.created_at;
}

abbrev pub update_existing : Env → Uuid → Uuid → Text → Text → ℕ → Template → M Template
update_existing env org id name definition expected existing = do
  throw_if existing.is_system template_is_system_cannot_be_deleted
  written ← update_template_row env org id name definition expected
  pure (merged_template existing written)

unfoldable pub update_template : Env → Uuid → Uuid → Text → Text → ℕ → M Template
update_template env org id name definition expected = do
  name ← validate_name_and_definition name definition
  existing ← get_template env org id
  update_existing env org id name definition expected existing

-- A deleted default gives way to the organisation's Classic template.
unfoldable pub revert_default : Env → Uuid → Bool → M (Unit {0})
revert_default env org was_default =
    if was_default
    then (do classic ← get_system_template env org; set_default_row env org classic.id)
    else pure tt

abbrev pub delete_existing : Env → Uuid → Uuid → Template → M (Unit {0})
delete_existing env org id existing = do
  throw_if existing.is_system template_is_system_cannot_be_deleted
  soft_delete env org id
  revert_default env org existing.is_default

-- The read takes no lock, so that another call can come between it and the writes.
unfoldable pub delete_body : Env → Uuid → Uuid → M (Unit {0})
delete_body env org id = do existing ← get_template env org id; delete_existing env org id existing

unfoldable pub delete_template : Env → Uuid → Uuid → M (Unit {0})
delete_template env org id = in_tx env (delete_body env org id)

-- Not in a transaction: other calls can come between its statements.
unfoldable pub set_default : Env → Uuid → Uuid → M (Unit {0})
set_default env org id = do existing ← get_template env org id; set_default_row env org id
