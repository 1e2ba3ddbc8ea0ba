-- ===== src/Invoice/Responses.antt =====
-- The bodies of the responses on invoices and payments (invoice_dto.go, payment_dto.go), and the
-- header with the key of a payment (readIdempotencyKey of invoice_handler.go). How a UUID, a
-- date and an instant are written is an argument.
use go_invoicing.Http.{Reply, ErrorCode}
use go_invoicing.Errors.{Result, ok, err}
use go_invoicing.Invoice.Idempotency.{validate_idempotency_key}
use go_invoicing.Base.{ℕ, [], ◌∷◌, ◌≡◌}
use go_invoicing.Base.{Bool, Option, none, some, List, map, if◌then◌else◌}
use go_invoicing.Base.Int.{ℤ}
use go_invoicing.Base.Float.{Float64}
use go_invoicing.Base.Text.{Text, is_empty, trim_space}
use go_invoicing.Base.Time.{Time, midnight, parse_date, zero_time}
use go_invoicing.Admin.{Uuid}
use go_invoicing.Invoice.{Status, Invoice, Line, Payment, CreatePaymentRequest}
use go_invoicing.Invoice.Lifecycle.{amount_outstanding, effective_status}

pub record Formats : Type 0 where
  pub uuid : Uuid → Text  -- UUID.String
  pub date : Time → Text  -- Format by "2006-01-02"
  pub timestamp : Time → Text  -- Format by RFC 3339, in UTC

-- The layout "2006-01-02" has no place for the time of day.
abbrev pub ShowsDays : Formats → Type 0
ShowsDays formats = (t : Time) → formats.date (midnight t) ≡ formats.date t

pub record InvoiceLineResponse : Type 0 where
  pub id : Text
  pub product_id : Option Text
  pub description : Text
  pub quantity : Float64
  pub quantity_unit : Option Text
  pub unit_price : ℤ
  pub vat_rate : Float64
  pub vat_amount : ℤ
  pub total : ℤ

pub record InvoiceResponse : Type 0 where
  pub id : Text
  pub organisation_id : Text
  pub customer_id : Text
  pub customer_name : Text
  pub invoice_number : Text
  pub issue_date : Text
  pub due_date : Text
  pub currency : Text
  pub vat_registered : Bool
  pub subtotal : ℤ
  pub vat_total : ℤ
  pub total : ℤ
  pub amount_paid : ℤ
  pub amount_outstanding : ℤ
  pub status : Status
  pub sent_at : Option Text
  pub cancelled_at : Option Text
  pub notes : Option Text
  pub lines : List InvoiceLineResponse
  pub created_at : Text
  pub updated_at : Text

pub record InvoiceListItemResponse : Type 0 where
  pub id : Text
  pub invoice_number : Text
  pub customer_id : Text
  pub customer_name : Text
  pub issue_date : Text
  pub due_date : Text
  pub status : Status
  pub currency : Text
  pub subtotal : ℤ
  pub vat_total : ℤ
  pub total : ℤ
  pub amount_paid : ℤ
  pub amount_outstanding : ℤ
  pub sent_at : Option Text
  pub cancelled_at : Option Text
  pub created_at : Text
  pub updated_at : Text

pub record PaymentResponse : Type 0 where
  pub id : Text
  pub invoice_id : Text
  pub amount : ℤ
  pub payment_method : Text
  pub payment_date : Text
  pub reference : Option Text
  pub notes : Option Text
  pub created_at : Text
  pub updated_at : Text

pub record CreatePaymentHttpRequest : Type 0 where
  pub amount : ℤ
  pub payment_method : Text
  pub payment_date : Text
  pub reference : Text
  pub notes : Text

module _ (formats : Formats) where
  abbrev format_optional_timestamp : Option Time → Option Text
  format_optional_timestamp none = none
  format_optional_timestamp (some t) = some (formats.timestamp t)

  abbrev optional_uuid : Option Uuid → Option Text
  optional_uuid none = none
  optional_uuid (some id) = some (formats.uuid id)

  abbrev to_line_response : Line → InvoiceLineResponse
  to_line_response l = record {
    id = formats.uuid l.id;
    product_id = optional_uuid l.product_id;
    description = l.description;
    quantity = l.quantity;
    quantity_unit = l.quantity_unit;
    unit_price = l.unit_price;
    vat_rate = l.vat_rate;
    vat_amount = l.vat_amount;
    total = l.total;
  }

  unfoldable pub to_invoice_response : Invoice → List Line → ℤ → Text → Time → InvoiceResponse
  to_invoice_response i lines paid currency now = record {
    id = formats.uuid i.id;
    organisation_id = formats.uuid i.organisation_id;
    customer_id = formats.uuid i.customer_id;
    customer_name = i.customer_display_name;
    invoice_number = i.invoice_number;
    issue_date = formats.date i.issue_date;
    due_date = formats.date i.due_date;
    currency = currency;
    vat_registered = i.vat_registered;
    subtotal = i.subtotal;
    vat_total = i.vat_total;
    total = i.total;
    amount_paid = paid;
    amount_outstanding = amount_outstanding i paid;
    status = effective_status i now;
    sent_at = format_optional_timestamp i.sent_at;
    cancelled_at = format_optional_timestamp i.cancelled_at;
    notes = i.notes;
    lines = map to_line_response lines;
    created_at = formats.timestamp i.created_at;
    updated_at = formats.timestamp i.updated_at;
  }

  unfoldable pub to_invoice_list_item_response : Invoice → ℤ → Text → Time → InvoiceListItemResponse
  to_invoice_list_item_response i paid currency now = record {
    id = formats.uuid i.id;
    invoice_number = i.invoice_number;
    customer_id = formats.uuid i.customer_id;
    customer_name = i.customer_display_name;
    issue_date = formats.date i.issue_date;
    due_date = formats.date i.due_date;
    status = effective_status i now;
    currency = currency;
    subtotal = i.subtotal;
    vat_total = i.vat_total;
    total = i.total;
    amount_paid = paid;
    amount_outstanding = amount_outstanding i paid;
    sent_at = format_optional_timestamp i.sent_at;
    cancelled_at = format_optional_timestamp i.cancelled_at;
    created_at = formats.timestamp i.created_at;
    updated_at = formats.timestamp i.updated_at;
  }

  unfoldable pub to_payment_response : Payment → PaymentResponse
  to_payment_response p = record {
    id = formats.uuid p.id;
    invoice_id = formats.uuid p.invoice_id;
    amount = p.amount;
    payment_method = p.payment_method;
    payment_date = formats.date p.payment_date;
    reference = p.reference;
    notes = p.notes;
    created_at = formats.timestamp p.created_at;
    updated_at = formats.timestamp p.updated_at;
  }

abbrev payment_date_of : Text → Option Time
payment_date_of text = if is_empty text then some zero_time else parse_date text

abbrev with_payment_date :
    CreatePaymentHttpRequest → Text → Option Time → Option CreatePaymentRequest
with_payment_date r key none = none
with_payment_date r key (some date) = some (record {
  amount = r.amount;
  payment_method = r.payment_method;
  payment_date = date;
  reference = r.reference;
  notes = r.notes;
  idempotency_key = key;
})

-- none: the date does not parse. The key comes from a header, and the handler sets it afterwards.
unfoldable pub to_create_payment_request :
    CreatePaymentHttpRequest → Text → Option CreatePaymentRequest
to_create_payment_request r key =
    with_payment_date r key (payment_date_of (trim_space r.payment_date))

abbrev checked_key : List ℕ → Result (Unit {0}) → Reply (List ℕ)
checked_key key (ok done) = Reply.accepted key
checked_key key (err e) = Reply.refused ErrorCode.invalid_request

-- The values of the Idempotency-Key header.
unfoldable pub read_idempotency_key : List (List ℕ) → Reply (List ℕ)
read_idempotency_key (key ∷ []) =
    if is_empty key
    then Reply.refused ErrorCode.invalid_request
    else checked_key key (validate_idempotency_key key)
read_idempotency_key _ = Reply.refused ErrorCode.invalid_request
