-- ===== src/Customer.antt =====
-- internal/customer: customers and their billing addresses (customer.go, address.go).
use go_invoicing.Base.{ℕ, Bool, true, false, Option, List}
use go_invoicing.Base.Text.{Text}
use go_invoicing.Base.Time.{Time}
use go_invoicing.Admin.{Uuid}

-- The column is a text; `other` is any value but the three constants.
pub data CustomerStatus : Type 0 where
  active inactive archived : CustomerStatus
  other : Text → CustomerStatus

pub record Customer : Type 0 where
  pub id : Uuid
  pub organisation_id : Uuid
  pub name : Text
  pub email : Option Text
  pub phone : Option Text
  pub company_name : Option Text
  pub tax_id : Option Text
  pub status : CustomerStatus
  pub created_at : Time
  pub updated_at : Time
  pub deleted_at : Option Time

abbrev is_active_status : CustomerStatus → Bool
is_active_status CustomerStatus.active = true
is_active_status _ = false

unfoldable pub is_active : Customer → Bool
is_active c = is_active_status c.status

-- `type` is kept as the test whether it is "billing", the one value that the program writes.
pub record Address : Type 0 where
  pub id : Uuid
  pub customer_id : Uuid
  pub is_billing : Bool
  pub street : Text
  pub city : Text
  pub state : Text
  pub postal_code : Text
  pub country : Text
  pub is_default : Bool
  pub created_at : Time
  pub updated_at : Time

unfoldable pub is_valid_customer_status : CustomerStatus → Bool
is_valid_customer_status (CustomerStatus.other t) = false
is_valid_customer_status _ = true

pub record UpsertBillingAddressRequest : Type 0 where
  pub street : Text
  pub city : Text
  pub state : Text
  pub postal_code : Text
  pub country : Text

-- ListFilter
pub record CustomerListFilter : Type 0 where
  pub search : Text
  pub statuses : List CustomerStatus
  pub sort : Text
  pub order : Text
  pub limit : ℕ
  pub offset : ℕ
