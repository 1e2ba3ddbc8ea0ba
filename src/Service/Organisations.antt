-- ===== src/Service/Organisations.antt =====
-- OrganisationService (organisation_service.go, organisation_logo.go) and RegistrationService
-- (registration_service.go).
pub mod Register
pub mod Laws
use go_invoicing.Base.{
  ℕ, Bool, false, not, ◌&&◌, ◌||◌, ◌==◌, ltb, length, Option, none, some, List, [], ◌∷◌,
  if◌then◌else◌,
}
use go_invoicing.Base.Text.{Text, is_empty, trim_space, codes}
use go_invoicing.Base.Time.{zero_time}
use go_invoicing.Errors.{
  organisation_name_required, organisation_email_invalid, organisation_vat_number_required,
  organisation_version_conflict, organisation_logo_invalid, organisation_logo_too_large,
  organisation_logo_not_found,
}
use go_invoicing.Admin.{Uuid, Organisation, Settings}
use go_invoicing.Admin.Logo.{
  OrganisationLogo, max_organisation_logo_bytes, is_allowed_logo_content_type,
}
use go_invoicing.Store.{Env, M, pure, throw, throw_if, ◌>>=◌, ◌>>◌}
use go_invoicing.Store.Invoices.{is_none}
use go_invoicing.Store.Parties.{get_organisation}
use go_invoicing.Store.Organisations.{
  insert_organisation, insert_settings, update_organisation_row, save_logo, clear_logo, get_logo,
}
use go_invoicing.Service.Snapshots.{nil_if_empty}

abbrev pub default_quantity_units : List Text
default_quantity_units =
    codes "Day(s)" ∷ codes "Hour(s)" ∷ codes "KG" ∷ codes "g" ∷ codes "Pcs" ∷ []

abbrev pub new_organisation : Env → Text → Organisation
new_organisation env name = record {
  id = env.new_id;
  name = name;
  email = none;
  phone = none;
  website = none;
  address = none;
  city = none;
  state = none;
  postal_code = none;
  country = none;
  tax_id = none;
  created_at = zero_time;
  updated_at = zero_time;
  deleted_at = none;
  vat_registered = false;
  logo_id = none;
  version = 0;
}

abbrev pub default_settings : Env → Uuid → Settings
default_settings env org = record {
  id = env.later_id 0;
  organisation_id = org;
  invoice_prefix = codes "INV-";
  invoice_number = 0;
  currency = codes "GBP";
  payment_terms = 30;
  quantity_units = default_quantity_units;
  created_at = zero_time;
  updated_at = zero_time;
  deleted_at = none;
  version = 0;
}

-- Not in a transaction.
unfoldable pub create_organisation : Env → Text → M Organisation
create_organisation env name = do
  throw_if (is_empty (trim_space name)) organisation_name_required
  o ← insert_organisation env (new_organisation env (trim_space name))
  insert_settings env (default_settings env env.new_id)
  pure o

pub record UpdateOrganisationRequest : Type 0 where
  pub name : Option Text
  pub email : Option Text
  pub phone : Option Text
  pub website : Option Text
  pub address : Option Text
  pub city : Option Text
  pub state : Option Text
  pub postal_code : Option Text
  pub country : Option Text
  pub tax_id : Option Text
  pub vat_registered : Option Bool

abbrev pub has_blank_name : Option Text → Bool
has_blank_name none = false
has_blank_name (some name) = is_empty (trim_space name)

abbrev pub has_bad_email : Env → Option Text → Bool
has_bad_email env none = false
has_bad_email env (some email) =
    not (is_empty (trim_space email)) && not (env.valid_address (trim_space email))

abbrev or_kept {ℓ} : {A : Type ℓ} → Option A → A → A
or_kept none a = a
or_kept (some b) a = b

abbrev name_or_kept : Option Text → Text → Text
name_or_kept none name = name
name_or_kept (some text) name = trim_space text

-- An empty text clears the field.
abbrev text_or_kept : Option Text → Option Text → Option Text
text_or_kept none kept = kept
text_or_kept (some text) kept = nil_if_empty text

abbrev pub patched : UpdateOrganisationRequest → Organisation → Organisation
patched r o = record o {
  name = name_or_kept r.name o.name;
  email = text_or_kept r.email o.email;
  phone = text_or_kept r.phone o.phone;
  website = text_or_kept r.website o.website;
  address = text_or_kept r.address o.address;
  city = text_or_kept r.city o.city;
  state = text_or_kept r.state o.state;
  postal_code = text_or_kept r.postal_code o.postal_code;
  country = text_or_kept r.country o.country;
  tax_id = text_or_kept r.tax_id o.tax_id;
  vat_registered = or_kept r.vat_registered o.vat_registered;
}

-- The rest of Update, for the organisation that was read.
abbrev pub update_read : Env → Uuid → ℕ → UpdateOrganisationRequest → Organisation → M Organisation
update_read env org expected r o = do
  throw_if (not (o.version == expected)) organisation_version_conflict
  throw_if (has_blank_name r.name) organisation_name_required
  throw_if (has_bad_email env r.email) organisation_email_invalid
  throw_if ((patched r o).vat_registered && is_none (patched r o).tax_id)
      organisation_vat_number_required
  update_organisation_row env org (patched r o) expected

unfoldable pub update_organisation : Env → Uuid → ℕ → UpdateOrganisationRequest → M Organisation
update_organisation env org expected r = do
  o ← get_organisation env org
  update_read env org expected r o

abbrev pub new_logo : Env → Uuid → List ℕ → OrganisationLogo
new_logo env org bytes = record {
  id = env.new_id;
  organisation_id = org;
  content_type = env.detect_content_type bytes;
  bytes = bytes;
  created_at = zero_time;
}

unfoldable pub set_logo : Env → Uuid → List ℕ → M OrganisationLogo
set_logo env org bytes = do
  throw_if (length bytes == 0) organisation_logo_invalid
  throw_if (ltb max_organisation_logo_bytes (length bytes)) organisation_logo_too_large
  throw_if (not (is_allowed_logo_content_type (env.detect_content_type bytes)))
      organisation_logo_invalid
  save_logo env org (new_logo env org bytes)

abbrev logo_of : Env → Uuid → Option Uuid → M OrganisationLogo
logo_of env org none = throw organisation_logo_not_found
logo_of env org (some id) = get_logo env org id

unfoldable pub get_current_logo : Env → Uuid → M OrganisationLogo
get_current_logo env org = do o ← get_organisation env org; logo_of env org o.logo_id

unfoldable pub remove_logo : Env → Uuid → M (Unit {0})
remove_logo env org = clear_logo env org
