-- ===== src/Service/Organisations/Laws/Founded.antt =====
-- What a registration is to store, column by column (registration_service.go and the INSERTs of
-- organisation_, settings_, template_ and user_repository_postgres.go).
use go_invoicing.Base.{false, true, none, some, [], ◌∷◌}
use go_invoicing.Base.Text.{Text, codes}
use go_invoicing.Admin.{Organisation, Settings}
use go_invoicing.Admin.User.{User}
use go_invoicing.Template.{Template}
use go_invoicing.Store.{Env}

module _ (env : Env) where
  -- Nothing but its name is known of it, and it is not registered for VAT.
  abbrev pub founded : Text → Organisation
  founded name = record {
    id = env.new_id;
    name = name;
    email = none;
    phone = none;
    website = none;
    address = none;
    city = none;
    state = none;
    postal_code = none;
    country = none;
    tax_id = none;
    created_at = env.db_now;
    updated_at = env.db_now;
    deleted_at = none;
    vat_registered = false;
    logo_id = none;
    version = 1;
  }

  abbrev pub opening_settings : Settings
  opening_settings = record {
    id = env.later_id 0;
    organisation_id = env.new_id;
    invoice_prefix = codes "INV-";
    invoice_number = 0;
    currency = codes "GBP";
    payment_terms = 30;
    quantity_units = codes "Day(s)" ∷ codes "Hour(s)" ∷ codes "KG" ∷ codes "g" ∷ codes "Pcs" ∷ [];
    created_at = env.db_now;
    updated_at = env.db_now;
    deleted_at = none;
    version = 1;
  }

  abbrev pub classic_default : Template
  classic_default = record {
    id = env.later_id 2;
    organisation_id = env.new_id;
    name = codes "Classic";
    definition = codes "{\"system\":\"classic\"}";
    is_default = true;
    is_system = true;
    created_at = env.db_now;
    updated_at = env.db_now;
    deleted_at = none;
    version = 1;
  }

  abbrev pub first_admin : Text × Text → Text → User
  first_admin (name, email) hash = record {
    id = env.later_id 1;
    organisation_id = env.new_id;
    name = name;
    email = email;
    password_hash = hash;
    role = codes "admin";
    is_active = true;
    last_login = none;
    created_at = env.db_now;
    updated_at = env.db_now;
    deleted_at = none;
    terms_accepted_at = some env.now;
    terms_version = some (codes "2026-09-27");
  }
