-- ===== src/Store/Organisations.antt =====
-- Writes of organisations, of their logos and of a new organisation's settings
-- (organisation_repository_postgres.go, and Create of settings_repository_postgres.go).
use go_invoicing.Base.{
  ℕ, suc, Bool, ◌&&◌, ◌||◌, Option, none, some, [], ◌∷◌, ◌++◌, find?, update_where, leb, ◌==◌,
  if◌then◌else◌,
}
use go_invoicing.Errors.{
  ok, err, or_fail, internal, organisation_create, organisation_update, organisation_exists,
  settings_create, logo_save, logo_clear, logo_get, organisation_not_found,
  organisation_version_conflict, organisation_logo_not_found,
}
use go_invoicing.Admin.{Uuid, Organisation, Settings}
use go_invoicing.Admin.Logo.{OrganisationLogo}
use go_invoicing.Store.{Env, M, pure, query, execute, execute_returning, ◌>>=◌}
use go_invoicing.Store.Invoices.{is_none}

-- `deleted_at` and `logo_id` are not among the columns of the INSERT.
abbrev pub created_organisation : Env → Organisation → Organisation
created_organisation env o = record o {
  created_at = env.db_now;
  updated_at = env.db_now;
  deleted_at = none;
  logo_id = none;
  version = 1;
}

unfoldable pub insert_organisation : Env → Organisation → M Organisation
insert_organisation env o = execute_returning env organisation_create (λ db.
    if is_none (find? (λ x. x.id == o.id) db.organisations)
    then ok (
      record o { created_at = env.db_now; updated_at = env.db_now; version = 1 },
      record db { organisations = db.organisations ++ (created_organisation env o ∷ []) },
    )
    else err (internal organisation_create))

abbrev pub created_settings : Env → Settings → Settings
created_settings env s = record s {
  created_at = env.db_now;
  updated_at = env.db_now;
  deleted_at = none;
  version = 1;
}

-- The primary key and UNIQUE (organisation_id), deleted rows included; the numbers are 32-bit.
unfoldable pub insert_settings : Env → Settings → M (Unit {0})
insert_settings env s = execute env settings_create (λ db.
    if is_none (find? (λ x. x.organisation_id == s.organisation_id || x.id == s.id) db.settings)
      && leb s.invoice_number 2147483647
      && leb s.payment_terms 2147483647
    then ok (record db { settings = db.settings ++ (created_settings env s ∷ []) })
    else err (internal settings_create))

abbrev pub is_live_organisation : Uuid → Organisation → Bool
is_live_organisation org o = o.id == org && is_none o.deleted_at

abbrev pub is_current_organisation : Uuid → ℕ → Organisation → Bool
is_current_organisation org expected o = is_live_organisation org o && o.version == expected

abbrev pub edited_organisation : Env → Organisation → Organisation → Organisation
edited_organisation env o row = record row {
  name = o.name;
  email = o.email;
  phone = o.phone;
  website = o.website;
  address = o.address;
  city = o.city;
  state = o.state;
  postal_code = o.postal_code;
  country = o.country;
  tax_id = o.tax_id;
  vat_registered = o.vat_registered;
  updated_at = env.db_now;
  version = suc row.version;
}

-- The UPDATE … RETURNING, with none for no row.
unfoldable pub write_organisation : Env → Uuid → Organisation → ℕ → M (Option Organisation)
write_organisation env org o expected = execute_returning env organisation_update (λ db.
    elim (find? (is_current_organisation org expected) db.organisations) [
      | none ↦ ok (none, db)
      | some row ↦ ok (
        some (edited_organisation env o row),
        record db {
          organisations =
              update_where (is_current_organisation org expected) (edited_organisation env o)
                db.organisations;
        },
      )
    ])

unfoldable pub organisation_missing_or_stale : Env → Uuid → M Organisation
organisation_missing_or_stale env org = query env organisation_exists (λ db.
    if is_none (find? (is_live_organisation org) db.organisations)
    then err organisation_not_found
    else err organisation_version_conflict)

-- The organisation comes back with the new version and time.
abbrev pub organisation_scanned : Env → Uuid → Organisation → Option Organisation → M Organisation
organisation_scanned env org o none = organisation_missing_or_stale env org
organisation_scanned env org o (some row) =
    pure (record o { version = row.version; updated_at = row.updated_at })

unfoldable pub update_organisation_row : Env → Uuid → Organisation → ℕ → M Organisation
update_organisation_row env org o expected = do
  written ← write_organisation env org o expected
  organisation_scanned env org o written

abbrev pub stored_logo : Env → Uuid → OrganisationLogo → OrganisationLogo
stored_logo env org logo = record logo { organisation_id = org; created_at = env.db_now }

abbrev pub with_logo : Option Uuid → Organisation → Organisation
with_logo logo o = record o { logo_id = logo }

-- One statement: the INSERT of the logo of a live organisation, and the UPDATE of the organisation.
unfoldable pub save_logo : Env → Uuid → OrganisationLogo → M OrganisationLogo
save_logo env org logo = execute_returning env logo_save (λ db.
    if is_none (find? (is_live_organisation org) db.organisations)
    then err organisation_not_found
    else if is_none (find? (λ l. l.id == logo.id) db.logos)
    then ok (
      record logo { created_at = env.db_now },
      record db {
        logos = db.logos ++ (stored_logo env org logo ∷ []);
        organisations = update_where (λ o. o.id == org) (with_logo (some logo.id)) db.organisations;
      },
    )
    else err (internal logo_save))

unfoldable pub clear_logo : Env → Uuid → M (Unit {0})
clear_logo env org = execute env logo_clear (λ db.
    if is_none (find? (is_live_organisation org) db.organisations)
    then err organisation_not_found
    else ok (record db {
      organisations = update_where (is_live_organisation org) (with_logo none) db.organisations;
    }))

unfoldable pub get_logo : Env → Uuid → Uuid → M OrganisationLogo
get_logo env org id = query env logo_get (λ db.
    or_fail (find? (λ l. l.organisation_id == org && l.id == id) db.logos)
      organisation_logo_not_found)
