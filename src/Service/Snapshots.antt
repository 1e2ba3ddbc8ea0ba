-- ===== src/Service/Snapshots.antt =====
-- buildPartySnapshot and buildTemplateSnapshot, which read within the caller's transaction.
pub mod Reads
use go_invoicing.Base.{Option, none, some, if◌then◌else◌}
use go_invoicing.Base.Text.{Text, trim_space, is_empty}
use go_invoicing.Errors.{
  Error, ok, err, settings_not_found, invoice_settings_not_found, invoice_snapshot_data_unavailable,
}
use go_invoicing.Admin.{Uuid, Organisation, Settings}
use go_invoicing.Customer.{Customer, Address}
use go_invoicing.Template.{Template}
use go_invoicing.Invoice.{InvoicePartySnapshot, TemplateSnapshot}
use go_invoicing.Invoice.Snapshot.{normalize_currency}
use go_invoicing.Store.{Env, M, pure, ◌>>=◌}
use go_invoicing.Store.Parties.{get_organisation, get_customer, get_settings, get_billing_address}
use go_invoicing.Store.Templates.{get_default}

-- A blank text is stored as NULL, any other trimmed.
unfoldable pub nil_if_empty : Text → Option Text
nil_if_empty value =
    let trimmed = trim_space value in if is_empty trimmed then none else some trimmed

unfoldable pub seller_vat_number : Organisation → Option Text
seller_vat_number o = if o.vat_registered then o.tax_id else none

-- `if err != nil { return f(err) }`
abbrev pub map_err {ℓ} : {A : Type ℓ} → (Error → Error) → M A → M A
map_err f m db = let (r, db') = m db in elim r [ ok a ↦ (ok a, db') | err e ↦ (err (f e), db') ]

-- Every failure of a lookup is wrapped in one sentinel.
abbrev pub unavailable : Error → Error
unavailable e = invoice_snapshot_data_unavailable

abbrev pub settings_failure : Error → Error
settings_failure settings_not_found = invoice_settings_not_found
settings_failure _ = invoice_snapshot_data_unavailable

abbrev street_of : Option Address → (Address → Text) → Option Text
street_of none field = none
street_of (some a) field = nil_if_empty (field a)

unfoldable pub party_snapshot :
    Env → Organisation → Customer → Settings → Option Address → InvoicePartySnapshot
party_snapshot env o c s address = record {
  seller_name = o.name;
  seller_email = o.email;
  seller_phone = o.phone;
  seller_website = o.website;
  seller_address = o.address;
  seller_city = o.city;
  seller_state = o.state;
  seller_postal_code = o.postal_code;
  seller_country = o.country;
  seller_tax_id = seller_vat_number o;
  seller_logo_id = o.logo_id;
  customer_name = c.name;
  customer_company_name = c.company_name;
  customer_email = c.email;
  customer_phone = c.phone;
  customer_tax_id = c.tax_id;
  customer_address = street_of address (λ a. a.street);
  customer_city = street_of address (λ a. a.city);
  customer_state = street_of address (λ a. a.state);
  customer_postal_code = street_of address (λ a. a.postal_code);
  customer_country = street_of address (λ a. a.country);
  currency = normalize_currency env.upper s.currency;
}

unfoldable pub build_party_snapshot : Env → Uuid → Uuid → M InvoicePartySnapshot
build_party_snapshot env org customer_id = do
  o ← map_err unavailable (get_organisation env org)
  c ← map_err unavailable (get_customer env org customer_id)
  s ← map_err settings_failure (get_settings env org)
  address ← map_err unavailable (get_billing_address env org customer_id)
  pure (party_snapshot env o c s address)

abbrev pub template_snapshot : Template → TemplateSnapshot
template_snapshot t = record {
  template_id = t.id;
  name = t.name;
  definition = t.definition;
  is_system = t.is_system;
}

unfoldable pub build_template_snapshot : Env → Uuid → M TemplateSnapshot
build_template_snapshot env org = do
  t ← map_err unavailable (get_default env org)
  pure (template_snapshot t)
