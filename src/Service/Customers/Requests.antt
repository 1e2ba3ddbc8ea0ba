-- ===== src/Service/Customers/Requests.antt =====
-- What CustomerService makes of a request before it is written (customer_service.go).
use go_invoicing.Base.{true, false, not, none, List, [], ◌∷◌}
use go_invoicing.Base.Text.{Text, trim_space, is_empty}
use go_invoicing.Base.Time.{zero_time}
use go_invoicing.Errors.{
  Result, ok, ◌>>◌, fail_if, customer_name_required, customer_status_invalid,
  billing_address_street_required, billing_address_city_required,
  billing_address_postal_code_required, billing_address_country_required,
}
use go_invoicing.Admin.{Uuid}
use go_invoicing.Customer.{
  Customer, CustomerStatus, Address, UpsertBillingAddressRequest, is_valid_customer_status,
}
use go_invoicing.Store.{Env}
use go_invoicing.Service.Snapshots.{nil_if_empty}

unfoldable pub new_customer : Env → Uuid → Text → Text → Text → Text → Text → Result Customer
new_customer env org name email phone company tax = do
  let trimmed = trim_space name
  fail_if (is_empty trimmed) customer_name_required
  ok (record {
    id = env.new_id;
    organisation_id = org;
    name = trimmed;
    email = nil_if_empty email;
    phone = nil_if_empty phone;
    company_name = nil_if_empty company;
    tax_id = nil_if_empty tax;
    status = CustomerStatus.active;
    created_at = zero_time;
    updated_at = zero_time;
    deleted_at = none;
  })

unfoldable pub check_statuses : List CustomerStatus → Result (Unit {0})
check_statuses [] = ok tt
check_statuses (s ∷ ss) =
    fail_if (not (is_valid_customer_status s)) customer_status_invalid >> check_statuses ss

unfoldable pub new_billing_address : Env → Uuid → UpsertBillingAddressRequest → Result Address
new_billing_address env id r = do
  let street = trim_space r.street
  fail_if (is_empty street) billing_address_street_required
  let city = trim_space r.city
  fail_if (is_empty city) billing_address_city_required
  let postal_code = trim_space r.postal_code
  fail_if (is_empty postal_code) billing_address_postal_code_required
  let country = trim_space r.country
  fail_if (is_empty country) billing_address_country_required
  ok (record {
    id = env.new_id;
    customer_id = id;
    is_billing = true;
    street = street;
    city = city;
    state = trim_space r.state;
    postal_code = postal_code;
    country = country;
    is_default = false;
    created_at = zero_time;
    updated_at = zero_time;
  })
