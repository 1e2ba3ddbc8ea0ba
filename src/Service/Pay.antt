-- ===== src/Service/Pay.antt =====
-- InvoiceService.CreatePayment: one payment, recorded once for each idempotency key.
pub mod Effect
pub mod Kept
pub mod Replay
use go_invoicing.Base.{ℕ, Bool, true, false, not, Option, none, some, List, if◌then◌else◌, ◌==◌}
use go_invoicing.Base.Int.{pos, leb_ℤ, ltb_ℤ, ◌==ℤ◌, sub64}
use go_invoicing.Base.Text.{text_eq}
use go_invoicing.Base.Time.{zero_time}
use go_invoicing.Errors.{
  Result, fail_if, payment_amount_invalid, payment_idempotency_key_reused,
  invoice_cannot_accept_payment, payment_exceeds_outstanding,
}
use go_invoicing.Admin.{Uuid}
use go_invoicing.Invoice.{Status, Invoice, Payment, PaymentIdempotency, CreatePaymentRequest}
use go_invoicing.Invoice.Idempotency.{validate_idempotency_key, fingerprint_payment_request}
use go_invoicing.Invoice.Lifecycle.{can_accept_payment}
use go_invoicing.Store.{Env, M, pure, throw, lift, throw_if, in_tx_early, ◌>>=◌, ◌>>◌}
use go_invoicing.Store.Invoices.{get_for_update, update_status}
use go_invoicing.Store.Payments.{get_by_idempotency_key, get_total_paid_by_invoice_id}
use go_invoicing.Store.Payments
use go_invoicing.Service.Snapshots.{nil_if_empty}

-- A replay returns no invoice.
pub record CreatePaymentResult : Type 0 where
  pub payment : Payment
  pub invoice : Option Invoice
  pub replayed : Bool

-- Payment.Validate
unfoldable pub validate_payment : Payment → Result (Unit {0})
validate_payment p = fail_if (leb_ℤ p.amount (pos 0)) payment_amount_invalid

unfoldable pub new_payment : Env → Uuid → CreatePaymentRequest → Payment
new_payment env id r = record {
  id = env.new_id;
  invoice_id = id;
  amount = r.amount;
  payment_method = r.payment_method;
  payment_date = if r.payment_date == zero_time then env.now else r.payment_date;
  reference = nil_if_empty r.reference;
  notes = nil_if_empty r.notes;
  created_at = zero_time;
  updated_at = zero_time;
}

abbrev pub payment_idempotency : Env → CreatePaymentRequest → PaymentIdempotency
payment_idempotency env r = record {
  key = r.idempotency_key;
  request_hash = fingerprint_payment_request env.digest r;
}

-- The payment that exhausts the balance settles the invoice.
unfoldable pub settle : Env → Uuid → Uuid → Invoice → Bool → M Invoice
settle env org id inv exhausts =
    if exhausts
    then (do update_status env org id Status.paid; pure (record inv { status = Status.paid }))
    else pure inv

-- What runs for a key not yet used on the invoice, under the lock.
unfoldable pub record_payment :
    Env → Uuid → Uuid → Invoice → Payment → PaymentIdempotency → M CreatePaymentResult
record_payment env org id inv payment idempotency = do
  throw_if (not (can_accept_payment inv)) invoice_cannot_accept_payment
  total_paid ← get_total_paid_by_invoice_id env org id
  let outstanding = sub64 inv.total total_paid
  throw_if (ltb_ℤ outstanding payment.amount) payment_exceeds_outstanding
  payment' ← Payments.create env org payment idempotency
  inv' ← settle env org id inv (payment.amount ==ℤ outstanding)
  pure (record { payment = payment'; invoice = some inv'; replayed = false })

-- A used key replays its payment, or is refused for another request.
unfoldable pub replay_or_record :
    Env
    → Uuid
    → Uuid
    → Invoice
    → Payment
    → PaymentIdempotency
    → Option (Payment × List ℕ)
    → M CreatePaymentResult
replay_or_record env org id inv payment idempotency none =
    record_payment env org id inv payment idempotency
replay_or_record env org id inv payment idempotency (some (existing, hash)) =
    if text_eq hash idempotency.request_hash
    then pure (record { payment = existing; invoice = none; replayed = true })
    else throw payment_idempotency_key_reused

unfoldable pub pay_body : Env → Uuid → Uuid → Payment → PaymentIdempotency → M CreatePaymentResult
pay_body env org id payment idempotency = do
  inv ← get_for_update env org id
  found ← get_by_idempotency_key env org id idempotency.key
  replay_or_record env org id inv payment idempotency found

-- A replay returns before the COMMIT.
unfoldable pub create_payment : Env → Uuid → Uuid → CreatePaymentRequest → M CreatePaymentResult
create_payment env org id r = do
  lift (validate_idempotency_key r.idempotency_key)
  let payment = new_payment env id r
  lift (validate_payment payment)
  in_tx_early env (λ result. result.replayed)
      (pay_body env org id payment (payment_idempotency env r))
