-- ===== src/Examples/Customers.antt =====
-- The theorems on customers and their billing addresses, at the customer 3.
use go_invoicing.Base.{Option, ◌≡◌, refl, some, true, false, [], ◌∷◌}
use go_invoicing.Base.Text.{is_space, trim_space, codes}
use go_invoicing.Errors.{Result, ok, err, customer_has_open_invoices}
use go_invoicing.Customer.{UpsertBillingAddressRequest, Address, CustomerStatus}
use go_invoicing.Store.{Db}
use go_invoicing.Store.Customers.{upsert_address_row, with_status}
use go_invoicing.Store.Parties.{get_billing_address, customer_row}
use go_invoicing.Service.Customers.{set_status, upsert_billing_address}
use go_invoicing.Service.Customers.Requests.{new_billing_address}
use go_invoicing.Service.Customers.Laws.{HasNoOpenInvoice, archived_db, archive_decided}
use go_invoicing.Service.Customers.Addresses.{get_billing_address-upsert}
use go_invoicing.Examples.Data.{env, db, customer}

archive_decided_example :
    (HasNoOpenInvoice db 1 3
      → (set_status env 1 3 CustomerStatus.archived db
          ≡ (ok (with_status env CustomerStatus.archived customer), archived_db env 1 3 db))
        × (customer_row (archived_db env 1 3 db) 1 3
            ≡ some (with_status env CustomerStatus.archived customer)))
    × (¬ HasNoOpenInvoice db 1 3
        → set_status env 1 3 CustomerStatus.archived db ≡ (err customer_has_open_invoices, db))
archive_decided_example = archive_decided env 1 3 db customer refl refl refl

abbrev first_request : UpsertBillingAddressRequest
first_request = record {
  street = codes " Elm 1";
  city = codes "Ash";
  state = [];
  postal_code = codes "12";
  country = codes "IE";
}

abbrev second_request : UpsertBillingAddressRequest
second_request = record first_request { street = codes "Oak 2 " }

abbrev first_address : Address
first_address = record {
  id = 200;
  customer_id = 3;
  is_billing = true;
  street = codes "Elm 1";
  city = codes "Ash";
  state = [];
  postal_code = codes "12";
  country = codes "IE";
  is_default = false;
  created_at = env.db_now;
  updated_at = env.db_now;
}

abbrev second_address : Address
second_address = record first_address { street = codes "Oak 2" }

abbrev first_db : Db
first_db = record db { addresses = first_address ∷ [] }

abbrev second_db : Db
second_db = record db { addresses = second_address ∷ [] }

first_upsert :
    ◌≡◌ {A = Result Address × Db}
      (upsert_billing_address env 1 3 first_request db)
      (ok first_address, first_db)
unfolding upsert_billing_address new_billing_address trim_space is_space upsert_address_row
first_upsert = refl

second_upsert :
    ◌≡◌ {A = Result Address × Db}
      (upsert_billing_address env 1 3 second_request first_db)
      (ok second_address, second_db)
unfolding upsert_billing_address new_billing_address trim_space is_space upsert_address_row
second_upsert = refl

get_billing_address-upsert_example :
    ◌≡◌ {A = Result (Option Address) × Db}
      (get_billing_address env 1 3 first_db)
      (ok (some first_address), first_db)
    × (codes "Elm 1" ≡ trim_space first_request.street)
    × (codes "Ash" ≡ trim_space first_request.city)
    × ([] ≡ trim_space first_request.state)
    × (codes "12" ≡ trim_space first_request.postal_code)
    × (codes "IE" ≡ trim_space first_request.country)
get_billing_address-upsert_example =
    get_billing_address-upsert env env 1 3 first_request db first_db first_address first_upsert refl
