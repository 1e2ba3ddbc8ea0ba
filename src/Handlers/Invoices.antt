-- ===== src/Handlers/Invoices.antt =====
-- InvoiceHandler (internal/invoice/invoice_handler.go): Create, GetByID, Send, Cancel, CreatePayment and
-- GetPayments. `after` is what the handler meets once its first call of the service has returned.
use go_invoicing.Base.{Bool, true, false, Option, none, some, List, map, if◌then◌else◌}
use go_invoicing.Base.Int.{pos}
use go_invoicing.Base.Time.{Time}
use go_invoicing.Errors.{Error}
use go_invoicing.Http.{ErrorCode, Reply}
use go_invoicing.Admin.{Uuid}
use go_invoicing.Invoice.{CreateInvoiceRequest, CreatePaymentRequest}
use go_invoicing.Invoice.Responses.{
  Formats, InvoiceResponse, PaymentResponse, CreatePaymentHttpRequest, to_invoice_response,
  to_payment_response, to_create_payment_request, read_idempotency_key,
}
use go_invoicing.Store.{Env}
use go_invoicing.Service.Create.{create}
use go_invoicing.Service.Read.{Shown, read_invoice, get_payments}
use go_invoicing.Service.Send.{send}
use go_invoicing.Service.Cancel.{cancel_invoice}
use go_invoicing.Service.Pay.{CreatePaymentResult, create_payment}
use go_invoicing.Handlers.{
  Failure, Checked, Handler, Incoming, fixed_failure, described_failure, internal_failure, require,
  serve, respond, require_authenticated_user, decode_json,
}

unfoldable pub is_invoice_validation_error : Error → Bool
is_invoice_validation_error Error.invoice_customer_id_required = true
is_invoice_validation_error Error.invoice_customer_id_invalid = true
is_invoice_validation_error Error.invoice_no_lines = true
is_invoice_validation_error Error.invoice_issue_date_required = true
is_invoice_validation_error Error.invoice_issue_date_invalid = true
is_invoice_validation_error Error.invoice_due_date_required = true
is_invoice_validation_error Error.invoice_due_date_invalid = true
is_invoice_validation_error Error.invoice_due_date_before_issue_date = true
is_invoice_validation_error Error.invoice_line_description_required = true
is_invoice_validation_error Error.invoice_line_quantity_invalid = true
is_invoice_validation_error Error.invoice_line_unit_price_negative = true
is_invoice_validation_error Error.invoice_line_vat_rate_negative = true
is_invoice_validation_error Error.invoice_line_quantity_unit_too_long = true
is_invoice_validation_error Error.invoice_line_vat_not_permitted = true
is_invoice_validation_error Error.invoice_line_product_id_invalid = true
is_invoice_validation_error _ = false

unfoldable pub is_snapshot_incomplete_error : Error → Bool
is_snapshot_incomplete_error Error.invoice_settings_not_found = true
is_snapshot_incomplete_error Error.snapshot_seller_name_required = true
is_snapshot_incomplete_error Error.snapshot_customer_name_required = true
is_snapshot_incomplete_error Error.snapshot_currency_required = true
is_snapshot_incomplete_error Error.snapshot_currency_invalid = true
is_snapshot_incomplete_error _ = false

unfoldable pub create_failure : Error → Failure
unfolding is_invoice_validation_error
create_failure Error.invoice_customer_not_found =
    described_failure 404 ErrorCode.not_found Error.invoice_customer_not_found
create_failure Error.invoice_line_product_not_found =
    described_failure 404 ErrorCode.not_found Error.invoice_line_product_not_found
create_failure Error.invoice_customer_not_active =
    described_failure 409 ErrorCode.conflict Error.invoice_customer_not_active
create_failure e =
    if is_invoice_validation_error e
    then described_failure 400 ErrorCode.validation_failed e
    else internal_failure

unfoldable pub get_failure : Error → Failure
get_failure Error.invoice_not_found = fixed_failure 404 ErrorCode.invoice_not_found
get_failure Error.invoice_currency_unavailable =
    described_failure 409 ErrorCode.conflict Error.invoice_currency_unavailable
get_failure _ = internal_failure

unfoldable pub send_failure : Error → Failure
unfolding is_snapshot_incomplete_error
send_failure Error.invoice_not_found = fixed_failure 404 ErrorCode.invoice_not_found
send_failure Error.invoice_already_sent =
    described_failure 409 ErrorCode.invoice_already_sent Error.invoice_already_sent
send_failure Error.invoice_already_cancelled =
    described_failure 409 ErrorCode.invoice_cancelled Error.invoice_already_cancelled
send_failure e =
    if is_snapshot_incomplete_error e
    then described_failure 409 ErrorCode.conflict e
    else internal_failure

unfoldable pub cancel_failure : Error → Failure
unfolding is_snapshot_incomplete_error
cancel_failure Error.invoice_not_found = fixed_failure 404 ErrorCode.invoice_not_found
cancel_failure Error.invoice_already_cancelled =
    described_failure 409 ErrorCode.invoice_cancelled Error.invoice_already_cancelled
cancel_failure Error.invoice_cannot_be_cancelled =
    described_failure 409 ErrorCode.conflict Error.invoice_cannot_be_cancelled
cancel_failure e =
    if is_snapshot_incomplete_error e
    then described_failure 409 ErrorCode.conflict e
    else internal_failure

unfoldable pub payment_failure : Error → Failure
payment_failure Error.payment_idempotency_key_reused =
    fixed_failure 409 ErrorCode.idempotency_key_reused
payment_failure Error.payment_idempotency_key_invalid = fixed_failure 400 ErrorCode.invalid_request
payment_failure Error.invoice_not_found = fixed_failure 404 ErrorCode.invoice_not_found
payment_failure Error.invoice_cannot_accept_payment =
    described_failure 409 ErrorCode.conflict Error.invoice_cannot_accept_payment
payment_failure Error.payment_amount_invalid =
    described_failure 400 ErrorCode.validation_failed Error.payment_amount_invalid
payment_failure Error.payment_exceeds_outstanding =
    described_failure 409 ErrorCode.conflict Error.payment_exceeds_outstanding
payment_failure _ = internal_failure

unfoldable pub get_payments_failure : Error → Failure
get_payments_failure Error.invoice_not_found = fixed_failure 404 ErrorCode.invoice_not_found
get_payments_failure _ = internal_failure

abbrev pub parsed_id : Option Uuid → Checked Uuid
parsed_id none = Checked.answered (fixed_failure 400 ErrorCode.invalid_request)
parsed_id (some id) = Checked.passed id

abbrev pub checked {ℓ} : {A : Type ℓ} → Reply A → Checked A
checked (Reply.accepted value) = Checked.passed value
checked (Reply.refused code) = Checked.answered (fixed_failure 400 code)

abbrev pub dated_request : Option CreatePaymentRequest → Checked CreatePaymentRequest
dated_request none = Checked.answered (fixed_failure 400 ErrorCode.validation_failed)
dated_request (some q) = Checked.passed q

abbrev pub shown_response : Formats → Time → Shown → InvoiceResponse
shown_response formats now (inv, lines, paid, currency) =
    to_invoice_response formats inv lines paid currency now

-- The payment, and whether the header Idempotent-Replayed is set.
abbrev pub PaymentAnswer : Type 0
PaymentAnswer = Bool × PaymentResponse

unfoldable pub handle_create :
    Env → Env → Formats → Incoming CreateInvoiceRequest → Handler InvoiceResponse
handle_create env after formats r = require (require_authenticated_user r.identity) λ user.
    require (decode_json r.media_type r.body) λ request.
      serve (create env user.organisation_id request) create_failure λ (inv, lines, currency).
        respond 201 (to_invoice_response formats inv lines (pos 0) currency after.now)

unfoldable pub handle_get_by_id :
    Env → Env → Formats → Incoming (Unit {0}) → Handler InvoiceResponse
handle_get_by_id env after formats r = require (require_authenticated_user r.identity) λ user.
    require (parsed_id (env.parse_uuid r.path_id)) λ id.
      serve (read_invoice env user.organisation_id id) get_failure
        λ shown. respond 200 (shown_response formats after.now shown)

-- The read after a transition: any error of it is an internal one.
abbrev pub show_again : Env → Formats → Uuid → Uuid → Handler InvoiceResponse
show_again after formats org id =
    serve (read_invoice after org id) (λ e. internal_failure)
      λ shown. respond 200 (shown_response formats after.now shown)

unfoldable pub handle_send : Env → Env → Formats → Incoming (Unit {0}) → Handler InvoiceResponse
handle_send env after formats r = require (require_authenticated_user r.identity) λ user.
    require (parsed_id (env.parse_uuid r.path_id)) λ id.
      serve (send env user.organisation_id id) send_failure
        λ inv. show_again after formats user.organisation_id id

unfoldable pub handle_cancel : Env → Env → Formats → Incoming (Unit {0}) → Handler InvoiceResponse
handle_cancel env after formats r = require (require_authenticated_user r.identity) λ user.
    require (parsed_id (env.parse_uuid r.path_id)) λ id.
      serve (cancel_invoice env user.organisation_id id) cancel_failure
        λ inv. show_again after formats user.organisation_id id

abbrev pub payment_answer : Formats → CreatePaymentResult → PaymentAnswer
payment_answer formats result = (result.replayed, to_payment_response formats result.payment)

abbrev pub answer_payment : Formats → CreatePaymentResult → Handler PaymentAnswer
answer_payment formats result = respond 201 (payment_answer formats result)

unfoldable pub handle_create_payment :
    Env → Formats → Incoming CreatePaymentHttpRequest → Handler PaymentAnswer
handle_create_payment env formats r = require (require_authenticated_user r.identity) λ user.
    require (parsed_id (env.parse_uuid r.path_id)) λ id.
      require (checked (read_idempotency_key r.idempotency_keys)) λ key.
        require (decode_json r.media_type r.body) λ body.
          require (dated_request (to_create_payment_request body key)) λ q.
            serve (create_payment env user.organisation_id id q) payment_failure
              (answer_payment formats)

unfoldable pub handle_get_payments :
    Env → Formats → Incoming (Unit {0}) → Handler (List PaymentResponse)
handle_get_payments env formats r = require (require_authenticated_user r.identity) λ user.
    require (parsed_id (env.parse_uuid r.path_id)) λ id.
      serve (get_payments env user.organisation_id id) get_payments_failure
        λ payments. respond 200 (map (to_payment_response formats) payments)
