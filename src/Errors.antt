-- ===== src/Errors.antt =====
-- The sentinel errors of the packages internal/invoice, administration, customer, product and
-- template, the places where a database call is made, and results with an error.
use mathlib.Core.Path.{◌≡◌, refl}
use mathlib.Core.Logic.{◌⊎◌, inl, inr}
use mathlib.Core.Bool.{Bool, true, false}
use mathlib.Core.Option.{Option, none, some}
use go_invoicing.Base.{ℕ}

-- The database calls of the services, by operation. A loop numbers its calls.
pub data Site : Type 0 where
  begin_tx commit_tx : Site
  invoice_get invoice_create invoice_update_status invoice_mark_sent invoice_mark_cancelled : Site
  invoice_lines_get invoice_count invoice_list payment_totals : Site
  invoice_create_line : ℕ → Site
  payment_by_key payment_total payment_create payment_list : Site
  settings_get settings_lock settings_number settings_update : Site
  organisation_get customer_get address_get template_default : Site
  product_get : ℕ → Site
  template_get template_create template_update template_delete template_system : Site
  template_unset_default template_set_default template_exists settings_exists template_list : Site
  customer_create customer_update_status customer_count customer_list address_upsert : Site
  product_create product_update product_count product_list : Site
  user_by_email user_get user_last_login session_create session_get session_revoke : Site
  session_cleanup user_auth user_create user_count user_list : Site
  organisation_create organisation_update organisation_exists settings_create : Site
  logo_save logo_clear logo_get : Site

pub data Error : Type 0 where
  -- internal/invoice
  invoice_customer_id_required invoice_customer_id_invalid invoice_customer_not_found : Error
  invoice_customer_not_active invoice_no_lines : Error
  invoice_issue_date_required invoice_issue_date_invalid : Error
  invoice_due_date_required invoice_due_date_invalid invoice_due_date_before_issue_date : Error
  invoice_line_description_required invoice_line_quantity_invalid : Error
  invoice_line_unit_price_negative invoice_line_vat_rate_negative : Error
  invoice_line_quantity_unit_too_long invoice_line_vat_not_permitted : Error
  invoice_line_product_id_invalid invoice_line_product_not_found : Error
  invoice_settings_not_found payment_exceeds_outstanding : Error
  invoice_snapshot_data_unavailable invoice_currency_unavailable : Error
  invoice_list_status_invalid invoice_list_issue_date_range_invalid : Error
  invoice_list_due_date_range_invalid : Error
  invoice_not_found invoice_already_sent invoice_cannot_accept_payment : Error
  invoice_already_cancelled invoice_cannot_be_cancelled : Error
  payment_amount_invalid payment_not_found : Error
  payment_idempotency_key_invalid payment_idempotency_key_reused : Error
  snapshot_seller_name_required snapshot_customer_name_required : Error
  snapshot_currency_required snapshot_currency_invalid : Error
  template_snapshot_marshal : Error
  -- internal/administration
  settings_not_found settings_version_conflict settings_currency_required : Error
  settings_currency_invalid settings_payment_terms_invalid settings_invoice_prefix_required : Error
  settings_quantity_unit_invalid settings_quantity_unit_duplicate : Error
  settings_quantity_units_too_many : Error
  organisation_not_found : Error
  login_email_required login_password_required invalid_credentials : Error
  user_not_found session_not_found session_token_random : Error
  user_name_required user_email_required user_email_invalid user_password_required : Error
  user_password_too_short user_role_invalid user_role_assignment_not_permitted : Error
  user_actor_not_permitted user_email_already_exists user_role_filter_invalid : Error
  terms_not_accepted password_hash_random unauthorized forbidden : Error
  organisation_name_required organisation_email_invalid organisation_vat_number_required : Error
  organisation_version_conflict : Error
  organisation_logo_not_found organisation_logo_invalid organisation_logo_too_large : Error
  -- internal/customer, internal/product
  customer_not_found billing_address_not_found product_not_found : Error
  customer_name_required customer_status_invalid customer_has_open_invoices : Error
  billing_address_street_required billing_address_city_required : Error
  billing_address_postal_code_required billing_address_country_required : Error
  product_name_required product_sku_required product_price_negative product_vat_rate_invalid : Error
  product_quantity_unit_too_long product_sku_already_exists : Error
  -- internal/template
  template_not_found template_name_required template_is_system_cannot_be_deleted : Error
  template_version_conflict template_definition_too_large : Error
  -- any other failure of a database call, wrapped where the call is made
  internal : Site → Error

pub data Result {ℓ} (A : Type ℓ) : Type ℓ where
  ok : A → Result A
  err : Error → Result A

-- `if err != nil { return err }`
infixl 5 ◌>>=◌ ◌>>◌
abbrev pub ◌>>=◌ {ℓ κ} : {A : Type ℓ} {B : Type κ} → Result A → (A → Result B) → Result B
err e >>= next = err e
ok value >>= next = next value

abbrev pub ◌>>◌ {ℓ} : {B : Type ℓ} → Result (Unit {0}) → Result B → Result B
check >> next = check >>= λ done. next

pub Result-cases {ℓ} :
    {A : Type ℓ} (r : Result A) → ((a : A) × (r ≡ ok a)) ⊎ ((e : Error) × (r ≡ err e))
Result-cases (ok a) = inl (a, refl)
Result-cases (err e) = inr (e, refl)

-- `if c { return err }`
abbrev pub fail_if : Bool → Error → Result (Unit {0})
fail_if true e = err e
fail_if false e = ok tt

abbrev pub or_fail {ℓ} : {A : Type ℓ} → Option A → Error → Result A
or_fail none e = err e
or_fail (some a) e = ok a
