-- ===== src/Service/Customers.antt =====
-- CustomerService (customer_service.go), with the checks of a request in the modules below.
pub mod Requests
pub mod Laws
pub mod Addresses
use go_invoicing.Base.{ℕ, not, List}
use go_invoicing.Base.Text.{Text}
use go_invoicing.Errors.{customer_status_invalid}
use go_invoicing.Admin.{Uuid}
use go_invoicing.Customer.{
  Customer, CustomerStatus, CustomerListFilter, Address, UpsertBillingAddressRequest,
  is_valid_customer_status,
}
use go_invoicing.Store.{Env, M, throw_if, lift, ◌>>=◌, ◌>>◌}
use go_invoicing.Store.Customers.{
  insert_customer, update_customer_status, upsert_address_row, list_customer_rows,
}
use go_invoicing.Service.Customers.Requests.{new_customer, new_billing_address, check_statuses}

unfoldable pub create_customer : Env → Uuid → Text → Text → Text → Text → Text → M Customer
create_customer env org name email phone company tax = do
  c ← lift (new_customer env org name email phone company tax)
  insert_customer env c

unfoldable pub set_status : Env → Uuid → Uuid → CustomerStatus → M Customer
set_status env org id status = do
  throw_if (not (is_valid_customer_status status)) customer_status_invalid
  update_customer_status env org id status

unfoldable pub list_customers : Env → Uuid → CustomerListFilter → M (List Customer × ℕ)
list_customers env org f = do lift (check_statuses f.statuses); list_customer_rows env org f

unfoldable pub upsert_billing_address : Env → Uuid → Uuid → UpsertBillingAddressRequest → M Address
upsert_billing_address env org id r = do
  address ← lift (new_billing_address env id r)
  upsert_address_row env org id address
