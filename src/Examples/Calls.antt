-- ===== src/Examples/Calls.antt =====
-- The theorems on service calls, at one ledger.
use go_invoicing.Base.Int.{◌≤ℤ◌, ◌-ℤ◌, pos}
use go_invoicing.Ledger.Accept.{IsUp, payment_accepted}
use go_invoicing.Service.Pay.Kept.{kept_payment}
use go_invoicing.Service.Pay.Replay.{IsHealthy, answer, retry_writes_nothing}
use go_invoicing.Base.{false}
use go_invoicing.Base.Int.{sub64, wrap64, bits64, of_bits64, ◌-ℤ◌}
use go_invoicing.Base.Text.{text_eq, trim_space, is_space}
use go_invoicing.Invoice.Idempotency.{
  validate_idempotency_key, is_idempotency_key_byte, fingerprint_payment_request,
}
use go_invoicing.Invoice.Lifecycle.{can_accept_payment}
use go_invoicing.Service.Snapshots.{nil_if_empty}
use go_invoicing.Service.Pay.{validate_payment, pay_body, replay_or_record, record_payment, settle}
use go_invoicing.Store.{in_tx_early}
use go_invoicing.Store.Invoices.{get_for_update, update_status}
use go_invoicing.Store.Payments
use go_invoicing.Store.Payments.{
  get_by_idempotency_key, get_total_paid_by_invoice_id, insert_payment,
}
use go_invoicing.Base.{arith, ◌≡◌, refl, some, [], ◌∷◌, inl}
use go_invoicing.Errors.{Result, ok}
use go_invoicing.Base.Int.{pos, InInt64}
use go_invoicing.Invoice.Lifecycle.{copy_snapshots}
use go_invoicing.Invoice.Snapshot.{is_valid_currency_code}
use go_invoicing.Store.Payments.{paid_sum}
use go_invoicing.Store.{Db}
use go_invoicing.Service.Create.{create}
use go_invoicing.Service.Send.{send}
use go_invoicing.Service.Cancel.{cancel_invoice}
use go_invoicing.Service.Pay.{create_payment, new_payment, CreatePaymentResult, payment_idempotency}
use go_invoicing.Store.Effects.{new_row}
use go_invoicing.Store.Payments.{inserted_payment}
use go_invoicing.Ledger.{IsSound}
use go_invoicing.Ledger.Create.{IsFresh}
use go_invoicing.Ledger.Pay.{create_payment-IsSound}
use go_invoicing.Ledger.Steps.{Step, Reaches, Reaches-IsSound}
use go_invoicing.Ledger.Failure.{WritesNothing, failed_calls_write_nothing}
use go_invoicing.Examples.Data.{
  env, empty_db, db, create_request, pay_request, other_request, sent_invoice,
}

empty-IsSound : IsSound empty_db
empty-IsSound = record { distinct = tt; coherent = tt; accounted = tt }

empty-IsFresh : IsFresh env.new_id empty_db
empty-IsFresh = record { no_invoice = tt; no_payment = tt }

Reaches-IsSound_example :
    IsSound
      (create_payment env 1 200 pay_request
        (send env 1 200 (create env 1 create_request empty_db).1).1).1
Reaches-IsSound_example = Reaches-IsSound empty-IsSound (
    Reaches.after
      (Reaches.after (Reaches.after Reaches.start (Step.created env 1 create_request empty-IsFresh))
        (Step.sent env 1 200))
      (Step.paid env 1 200 pay_request))

db-IsSound : IsSound db
unfolding copy_snapshots is_valid_currency_code paid_sum
db-IsSound = record {
  distinct = ((λ e. absurd (ground arith), tt), (tt, tt));
  coherent = ((refl, refl, refl), ((refl, refl, (refl, refl, refl)), tt));
  accounted = (
    (let r : InInt64 (pos 120) = ground arith in r, refl),
    ((let r : InInt64 (pos 120) = ground arith in r, inl refl), tt),
  );
}

create_payment-IsSound_example : IsSound (create_payment env 1 101 pay_request db).1
create_payment-IsSound_example = create_payment-IsSound env 1 101 pay_request db db-IsSound

failed_calls_write_nothing_example :
    WritesNothing (create env 1 create_request) db
    × WritesNothing (send env 1 101) db
    × WritesNothing (cancel_invoice env 1 101) db
    × WritesNothing (create_payment env 1 101 pay_request) db
failed_calls_write_nothing_example =
    failed_calls_write_nothing env 1 101 create_request pay_request db (λ e. absurd (ground arith))

pay-IsHealthy : IsHealthy env
pay-IsHealthy = record { begins = refl; reads_invoice = refl; reads_key = refl }

abbrev pub paid_result : CreatePaymentResult
unfolding new_payment
paid_result = record {
  payment = inserted_payment env (new_payment env 101 pay_request);
  invoice = some sent_invoice;
  replayed = false;
}

abbrev pub paid_db : Db
paid_db = record db {
  payments =
      new_row env (new_payment env 101 pay_request) (payment_idempotency env pay_request) ∷ [];
}

pay_succeeds :
    ◌≡◌ {A = Result CreatePaymentResult × Db}
      (create_payment env 1 101 pay_request db)
      (ok paid_result, paid_db)
unfolding create_payment validate_idempotency_key is_idempotency_key_byte new_payment nil_if_empty
    trim_space is_space validate_payment in_tx_early pay_body get_for_update get_by_idempotency_key
    replay_or_record record_payment can_accept_payment get_total_paid_by_invoice_id paid_sum sub64
    wrap64 bits64 of_bits64 ◌-ℤ◌ Payments.create insert_payment settle update_status copy_snapshots
pay_succeeds = refl

-- A retry with another amount is refused.
retry_writes_nothing_example :
    ◌≡◌ {A = Result CreatePaymentResult × Db} (create_payment env 1 101 other_request paid_db) (
      answer
          (text_eq
            (fingerprint_payment_request env.digest pay_request)
            (fingerprint_payment_request env.digest other_request))
          (kept_payment paid_result),
      paid_db,
    )
retry_writes_nothing_example =
    retry_writes_nothing env env 1 101 pay_request other_request db paid_db paid_result pay_succeeds
      pay-IsHealthy refl (ground arith)

all-IsUp : IsUp env
all-IsUp = record { calls = λ site. refl; commits = refl }

key_is_valid : validate_idempotency_key pay_request.idempotency_key ≡ ok tt
unfolding validate_idempotency_key is_idempotency_key_byte
key_is_valid = refl

within_balance : pay_request.amount ≤ℤ sent_invoice.total -ℤ paid_sum 101 db.payments
unfolding paid_sum copy_snapshots ◌-ℤ◌
within_balance = ground arith

payment_accepted_example :
    (r : CreatePaymentResult) × ((create_payment env 1 101 pay_request db).0 ≡ ok r)
    × (r.payment.amount ≡ pos 50)
    × (r.replayed ≡ false)
unfolding copy_snapshots
payment_accepted_example =
    payment_accepted env 1 101 pay_request db sent_invoice all-IsUp db-IsSound refl refl
      key_is_valid refl (ground arith) within_balance
