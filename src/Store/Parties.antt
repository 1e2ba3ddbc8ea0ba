-- ===== src/Store/Parties.antt =====
-- Reads of organisations, customers, addresses, products and settings, and the write of an invoice
-- number (organisation_, customer_, address_, product_ and settings_repository_postgres.go).
use go_invoicing.Base.{ℕ, Bool, ◌&&◌, Option, none, find?, update_where, leb, ◌==◌, if◌then◌else◌}
use go_invoicing.Errors.{
  ok, err, or_fail, internal, organisation_get, organisation_not_found, customer_get,
  customer_not_found, address_get, product_get, product_not_found, settings_get, settings_lock,
  settings_number, settings_not_found,
}
use go_invoicing.Admin.{Uuid, Organisation, Settings}
use go_invoicing.Customer.{Customer, Address}
use go_invoicing.Product.{Product}
use go_invoicing.Store.{Db, Env, M, query, execute}
use go_invoicing.Store.Invoices.{is_none}

unfoldable pub get_organisation : Env → Uuid → M Organisation
get_organisation env org =
    query env organisation_get
      (λ db. or_fail (find? (λ o. o.id == org) db.organisations) organisation_not_found)

abbrev pub is_customer : Uuid → Uuid → Customer → Bool
is_customer org id c = c.id == id && c.organisation_id == org && is_none c.deleted_at

abbrev pub customer_row : Db → Uuid → Uuid → Option Customer
customer_row db org id = find? (is_customer org id) db.customers

unfoldable pub get_customer : Env → Uuid → Uuid → M Customer
get_customer env org id =
    query env customer_get
      (λ db. or_fail (find? (is_customer org id) db.customers) customer_not_found)

-- The address is joined with its customer, who must be the organisation's and not deleted.
unfoldable pub get_billing_address : Env → Uuid → Uuid → M (Option Address)
get_billing_address env org id = query env address_get (λ db. ok (
    if is_none (find? (is_customer org id) db.customers)
    then none
    else find? (λ a. a.customer_id == id && a.is_billing) db.addresses))

-- The lookup of the n-th line's product.
unfoldable pub get_product : Env → ℕ → Uuid → Uuid → M Product
get_product env n org id = query env (product_get n) (λ db.
    or_fail
      (find? (λ p. p.id == id && p.organisation_id == org && is_none p.deleted_at) db.products)
      product_not_found)

abbrev pub is_settings : Uuid → Settings → Bool
is_settings org s = s.organisation_id == org && is_none s.deleted_at

abbrev pub settings_row : Db → Uuid → Option Settings
settings_row db org = find? (is_settings org) db.settings

unfoldable pub get_settings : Env → Uuid → M Settings
get_settings env org =
    query env settings_get (λ db. or_fail (settings_row db org) settings_not_found)

unfoldable pub get_settings_for_update : Env → Uuid → M Settings
get_settings_for_update env org =
    query env settings_lock (λ db. or_fail (settings_row db org) settings_not_found)

-- The column `invoice_number` is a 32-bit INTEGER: a larger number is refused.
unfoldable pub update_invoice_number : Env → Uuid → ℕ → M (Unit {0})
update_invoice_number env org number = execute env settings_number (λ db.
    if leb number 2147483647
    then (if is_none (settings_row db org)
        then err settings_not_found
        else ok (record db {
          settings =
              update_where (is_settings org)
                (λ s. record s { invoice_number = number; updated_at = env.db_now }) db.settings;
        }))
    else err (internal settings_number))
