-- ===== src/Examples/Handlers.antt =====
-- The theorems on responses, applied to requests of the user of organisation 1.
use go_invoicing.Base.Time.{day_ns, midnight}
use go_invoicing.Base.{◌-◌, ◌/◌, ◌%◌, List, true, false, some, [], ◌∷◌, ◌≡◌, ◌≢◌, ◌⊎◌, refl, arith}
use go_invoicing.Base.Text.{trim_space, is_space, codes}
use go_invoicing.Base.Int.{◌-ℤ◌, sub64, wrap64, bits64, of_bits64, pos}
use go_invoicing.Errors.{Error}
use go_invoicing.Handlers.Invoices.{
  handle_get_payments, payment_failure, handle_send, send_failure, create_failure,
  handle_create_payment, handle_create,
}
use go_invoicing.Handlers.Shown.{Holds, posted_payment_shown}
use go_invoicing.Invoice.Responses.{
  read_idempotency_key, to_create_payment_request, Formats, ShowsDays, PaymentResponse,
  CreatePaymentHttpRequest, to_payment_response,
}
use go_invoicing.Store.Invoices.{get_for_update, update_status}
use go_invoicing.Examples.Data.{env, db, create_request}
use go_invoicing.Service.Create.Request.{parse_required, validate_request}
use go_invoicing.Service.Create.{create}
use go_invoicing.Invoice.Idempotency.{validate_idempotency_key, is_idempotency_key_byte}
use go_invoicing.Service.Snapshots.{nil_if_empty}
use go_invoicing.Service.Pay.{
  validate_payment, pay_body, replay_or_record, record_payment, settle, create_payment, new_payment,
}
use go_invoicing.Store.{in_tx_early, in_tx, Env, CommitOutcome}
use go_invoicing.Store.Payments.{
  get_by_idempotency_key, get_total_paid_by_invoice_id, paid_sum, insert_payment,
}
use go_invoicing.Invoice.Lifecycle.{can_accept_payment, copy_snapshots}
use go_invoicing.Handlers.{
  require_authenticated_user, decode_json, has_json_content_type, Failure, Response, Incoming,
  Decoded, described_failure, internal_failure,
}
use go_invoicing.Service.Send.{send, send_body, send_locked}
use go_invoicing.Http.{ErrorCode}
use go_invoicing.Admin.User.{AuthenticatedUser, user_role_admin}
use go_invoicing.Service.Pay.Replay.{IsHealthy}
use go_invoicing.Handlers.Posted.{IsClientMistake}
use go_invoicing.Handlers.Retry.{resent_payment}
use go_invoicing.Handlers.Transitions.{
  Transition, HasReason, call_of, handler_of, refused_transition,
}
use go_invoicing.Handlers.Creation.{ServerFailed, refused_invoice}
use go_invoicing.Examples.Calls.{paid_db, paid_result}
use go_invoicing.Store.Payments

abbrev pub formats : Formats
formats = record { uuid = λ id. id ∷ []; date = λ t. t / day_ns ∷ []; timestamp = λ t. [] }

shows_days : ShowsDays formats
unfolding midnight
shows_days t = let e : (t - t % day_ns) / day_ns ≡ t / day_ns = omega arith in rw e refl

abbrev pub admin : AuthenticatedUser
admin = record { user_id = 5; organisation_id = 1; role = user_role_admin; session_id = 9 }

-- Every path names the invoice 101.
abbrev pub here : Env
here = record env { parse_uuid = λ t. some 101 }

-- A request of the admin with a JSON body.
abbrev pub incoming : {A : Type 0} → A → Incoming A
incoming a = record {
  identity = some admin;
  path_id = codes "101";
  idempotency_keys = codes "key-0000-0000-0000" ∷ [];
  query = [];
  media_type = some (codes "application/json");
  body = Decoded.value a true;
}

abbrev payment : CreatePaymentHttpRequest
payment = record {
  amount = pos 50;
  payment_method = codes "card";
  payment_date = [];
  reference = codes "a";
  notes = [];
}

abbrev paid_response : PaymentResponse
paid_response = to_payment_response formats paid_result.payment

-- The request is paid for and answered with 201.
posted :
    handle_create_payment here formats (incoming payment) db
    ≡ (Response.json 201 (false, paid_response), paid_db)
unfolding handle_create_payment require_authenticated_user read_idempotency_key decode_json
    has_json_content_type to_create_payment_request create_payment validate_idempotency_key
    is_idempotency_key_byte new_payment nil_if_empty trim_space is_space validate_payment
    in_tx_early pay_body get_for_update get_by_idempotency_key replay_or_record record_payment
    can_accept_payment get_total_paid_by_invoice_id paid_sum sub64 wrap64 bits64 of_bits64 ◌-ℤ◌
    Payments.create insert_payment settle update_status copy_snapshots payment_failure
    to_payment_response
posted = refl

here-IsHealthy : IsHealthy here
here-IsHealthy = record { begins = refl; reads_invoice = refl; reads_key = refl }

resent_payment_example :
    handle_create_payment here formats (incoming payment) paid_db
    ≡ (Response.json 201 (true, paid_response), paid_db)
resent_payment_example =
    resent_payment here here formats (incoming payment) db paid_db false paid_response shows_days
      posted here-IsHealthy refl refl

abbrev over_balance : Failure
over_balance = described_failure 409 ErrorCode.conflict Error.payment_exceeds_outstanding

acknowledged : here.commit ≢ CommitOutcome.unacknowledged
acknowledged e = absurd (ground arith)

abbrev sent_already : Failure
sent_already = described_failure 409 ErrorCode.invoice_already_sent Error.invoice_already_sent

-- The invoice 101 is Sent.
not_sent_twice :
    handler_of Transition.sending here here formats (incoming tt) db
    ≡ (Response.error sent_already, db)
unfolding handle_send require_authenticated_user send in_tx send_body get_for_update send_locked
    copy_snapshots send_failure
not_sent_twice = refl

refused_transition_example : HasReason (call_of Transition.sending here) here db db sent_already
refused_transition_example =
    refused_transition Transition.sending here here formats (incoming tt) db db sent_already
      acknowledged not_sent_twice

abbrev without_lines : Failure
without_lines = described_failure 400 ErrorCode.validation_failed Error.invoice_no_lines

no_invoice :
    handle_create here here formats (incoming (record create_request { lines = [] })) db
    ≡ (Response.error without_lines, db)
unfolding handle_create require_authenticated_user decode_json has_json_content_type create
    validate_request parse_required trim_space is_space create_failure
no_invoice = refl

refused_invoice_example :
    (db ≡ db)
    × (IsClientMistake without_lines ⊎ ((without_lines ≡ internal_failure) × ServerFailed here db))
refused_invoice_example =
    refused_invoice here here formats (incoming (record create_request { lines = [] })) db db
      without_lines acknowledged no_invoice

posted_payment_shown_example :
    (l : List PaymentResponse) × (handle_get_payments here formats (incoming tt) paid_db
      ≡ (Response.json 200 l, paid_db))
    × Holds paid_response l
posted_payment_shown_example =
    posted_payment_shown here here formats (incoming payment) (incoming tt) db paid_db 201 false
      paid_response shows_days posted refl refl refl refl
