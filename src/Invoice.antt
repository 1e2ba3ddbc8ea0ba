-- ===== src/Invoice.antt =====
-- internal/invoice: the data of invoices, lines and payments (invoice.go, line.go, payment.go,
-- invoice_party_snapshot.go, invoice_template_snapshot.go, payment_idempotency.go, invoice_dto.go).
-- The seller's and the customer's snapshot columns stand in two records of their own.
pub mod Snapshot
pub mod Lifecycle
pub mod Calculation
pub mod Idempotency
pub mod Responses
pub mod Format
use go_invoicing.Base.{ℕ, Bool, true, false, Option, none, List}
use go_invoicing.Base.Int.{ℤ}
use go_invoicing.Base.Float.{Float64}
use go_invoicing.Base.Text.{Text}
use go_invoicing.Base.Time.{Time}
use go_invoicing.Admin.{Uuid}

-- The column is a text; `other` is any value but the five constants.
pub data Status : Type 0 where
  draft sent paid overdue cancelled : Status
  other : Text → Status

abbrev pub is_draft : Status → Bool
is_draft Status.draft = true
is_draft _ = false

abbrev pub is_sent : Status → Bool
is_sent Status.sent = true
is_sent _ = false

abbrev pub is_cancelled : Status → Bool
is_cancelled Status.cancelled = true
is_cancelled _ = false

pub record SellerColumns : Type 0 where
  pub seller_name : Option Text
  pub seller_email : Option Text
  pub seller_phone : Option Text
  pub seller_website : Option Text
  pub seller_address : Option Text
  pub seller_city : Option Text
  pub seller_state : Option Text
  pub seller_postal_code : Option Text
  pub seller_country : Option Text
  pub seller_tax_id : Option Text
  pub seller_logo_id : Option Uuid

pub record CustomerColumns : Type 0 where
  pub customer_name : Option Text
  pub customer_company_name : Option Text
  pub customer_email : Option Text
  pub customer_phone : Option Text
  pub customer_tax_id : Option Text
  pub customer_address : Option Text
  pub customer_city : Option Text
  pub customer_state : Option Text
  pub customer_postal_code : Option Text
  pub customer_country : Option Text

abbrev pub no_seller : SellerColumns
no_seller = record {
  seller_name = none;
  seller_email = none;
  seller_phone = none;
  seller_website = none;
  seller_address = none;
  seller_city = none;
  seller_state = none;
  seller_postal_code = none;
  seller_country = none;
  seller_tax_id = none;
  seller_logo_id = none;
}

abbrev pub no_customer : CustomerColumns
no_customer = record {
  customer_name = none;
  customer_company_name = none;
  customer_email = none;
  customer_phone = none;
  customer_tax_id = none;
  customer_address = none;
  customer_city = none;
  customer_state = none;
  customer_postal_code = none;
  customer_country = none;
}

-- `subtotal`, `vat_total` and `total` are int64 minor units.
pub record Invoice : Type 0 where
  pub id : Uuid
  pub organisation_id : Uuid
  pub customer_id : Uuid
  pub invoice_number : Text
  pub issue_date : Time
  pub due_date : Time
  pub subtotal : ℤ
  pub vat_total : ℤ
  pub total : ℤ
  pub status : Status
  pub sent_at : Option Time
  pub notes : Option Text
  pub vat_registered : Bool
  pub seller : SellerColumns
  pub customer : CustomerColumns
  pub currency : Option Text
  pub cancelled_at : Option Time
  pub customer_display_name : Text
  pub rendered_template_snapshot : Option Text
  pub created_at : Time
  pub updated_at : Time
  pub deleted_at : Option Time

pub record Line : Type 0 where
  pub id : Uuid
  pub invoice_id : Uuid
  pub product_id : Option Uuid
  pub description : Text
  pub quantity : Float64
  pub quantity_unit : Option Text
  pub unit_price : ℤ
  pub vat_rate : Float64
  pub vat_amount : ℤ
  pub total : ℤ
  pub created_at : Time
  pub updated_at : Time

pub record Payment : Type 0 where
  pub id : Uuid
  pub invoice_id : Uuid
  pub amount : ℤ
  pub payment_method : Text
  pub payment_date : Time
  pub reference : Option Text
  pub notes : Option Text
  pub created_at : Time
  pub updated_at : Time

pub record PaymentIdempotency : Type 0 where
  pub key : List ℕ
  pub request_hash : List ℕ

pub record InvoicePartySnapshot : Type 0 where
  pub seller_name : Text
  pub seller_email : Option Text
  pub seller_phone : Option Text
  pub seller_website : Option Text
  pub seller_address : Option Text
  pub seller_city : Option Text
  pub seller_state : Option Text
  pub seller_postal_code : Option Text
  pub seller_country : Option Text
  pub seller_tax_id : Option Text
  pub seller_logo_id : Option Uuid
  pub customer_name : Text
  pub customer_company_name : Option Text
  pub customer_email : Option Text
  pub customer_phone : Option Text
  pub customer_tax_id : Option Text
  pub customer_address : Option Text
  pub customer_city : Option Text
  pub customer_state : Option Text
  pub customer_postal_code : Option Text
  pub customer_country : Option Text
  pub currency : Text

pub record TemplateSnapshot : Type 0 where
  pub template_id : Uuid
  pub name : Text
  pub definition : Text
  pub is_system : Bool

pub record CreateInvoiceLineRequest : Type 0 where
  pub product_id : Option Text
  pub description : Text
  pub quantity : Float64
  pub quantity_unit : Text
  pub unit_price : ℤ
  pub vat_rate : Float64

pub record CreateInvoiceRequest : Type 0 where
  pub customer_id : Text
  pub issue_date : Text
  pub due_date : Text
  pub lines : List CreateInvoiceLineRequest
  pub notes : Text

-- A zero `payment_date` stands for an omitted one.
pub record CreatePaymentRequest : Type 0 where
  pub amount : ℤ
  pub payment_method : Text
  pub payment_date : Time
  pub reference : Text
  pub notes : Text
  pub idempotency_key : List ℕ

-- The fields that the fingerprint of a payment request encodes; the date is its day, and an omitted
-- one is `none`.
pub record PaymentFingerprintV1 : Type 0 where
  pub amount : ℤ
  pub payment_method : Text
  pub payment_date : Option Time
  pub reference : Text
  pub notes : Text
