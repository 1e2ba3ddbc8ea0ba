-- ===== src/Handlers/PaymentErrors.antt =====
-- Which errors CreatePayment can return, on every path.
use go_invoicing.Base.Int.{ltb_ℤ, sub64, ◌==ℤ◌, leb_ℤ, pos}
use go_invoicing.Base.Text.{text_eq, all_codes}
use go_invoicing.Base.{
  ℕ, Bool, true, false, not, ◌||◌, ◌≡◌, inl, inr, arith, Bool-cases, List, Option, none, some, ltb,
  length,
}
use go_invoicing.Errors.{Error, err, Site, internal}
use go_invoicing.Invoice.Idempotency.{
  idempotency_key_min_length, idempotency_key_max_length, validate_idempotency_key,
  is_idempotency_key_byte,
}
use go_invoicing.Invoice.Lifecycle.{can_accept_payment}
use go_invoicing.Store.{throw_if, lift, Env}
use go_invoicing.Service.Pay.{
  new_payment, payment_idempotency, validate_payment, create_payment, pay_body, replay_or_record,
  record_payment, settle,
}
use go_invoicing.Handlers.Statements.{
  create-Throws, get_for_update-Throws, get_by_idempotency_key-Throws, get_total_paid-Throws,
  update_status-Throws,
}
use go_invoicing.Handlers.Throws.{
  in_tx_early-Throws, lift-Throws, throw_if-Throws, pure-Throws, as_returned, bind-Throws, Throws,
}
use go_invoicing.Admin.{Uuid}
use go_invoicing.Invoice.{Invoice, Payment, PaymentIdempotency, CreatePaymentRequest, Status}
use go_invoicing.Store.Invoices.{get_for_update, update_status}
use go_invoicing.Store.Payments.{
  get_by_idempotency_key, get_total_paid_by_invoice_id, insert_payment, keyed_row, found_payment,
}
use go_invoicing.Store.Payments

-- What CreatePayment can return as an error.
pub data PaymentError : Error → Type 0 where
  key_invalid : PaymentError Error.payment_idempotency_key_invalid
  amount_invalid : PaymentError Error.payment_amount_invalid
  not_found : PaymentError Error.invoice_not_found
  key_reused : PaymentError Error.payment_idempotency_key_reused
  not_payable : PaymentError Error.invoice_cannot_accept_payment
  exceeds_balance : PaymentError Error.payment_exceeds_outstanding
  database : (s : Site) → PaymentError (internal s)

key_error : (key : List ℕ) (e : Error) → validate_idempotency_key key ≡ err e → PaymentError e
unfolding validate_idempotency_key
key_error key e h =
    elim (Bool-cases (
      ltb (length key) idempotency_key_min_length || ltb idempotency_key_max_length (length key))) [
        | inl long ↦ as_returned PaymentError (rw long at h) PaymentError.key_invalid
        | inr fits ↦ elim (Bool-cases (not (all_codes is_idempotency_key_byte key))) [
          | inl odd ↦ as_returned PaymentError (rw (fits, odd) at h) PaymentError.key_invalid
          | inr plain ↦ absurd (let k = rw (fits, plain) at h in ground arith)
        ]
      ]

amount_error : (p : Payment) (e : Error) → validate_payment p ≡ err e → PaymentError e
unfolding validate_payment
amount_error p e h = elim (Bool-cases (leb_ℤ p.amount (pos 0))) [
  | inl bad ↦ as_returned PaymentError (rw bad at h) PaymentError.amount_invalid
  | inr fine ↦ absurd (let k = rw fine at h in ground arith)
]

module _ (env : Env) (org id : Uuid) where
  settle-Throws :
      (inv : Invoice) (exhausts : Bool) → Throws PaymentError (settle env org id inv exhausts)
  unfolding settle
  settle-Throws inv false = pure-Throws PaymentError inv
  settle-Throws inv true =
      bind-Throws PaymentError (update_status env org id Status.paid) _
        (update_status-Throws PaymentError PaymentError.not_found PaymentError.database env org id
          Status.paid)
        (λ u. pure-Throws PaymentError (record inv { status = Status.paid }))

  record_payment-Throws :
      (inv : Invoice) (p : Payment) (i : PaymentIdempotency)
      → Throws PaymentError (record_payment env org id inv p i)
  unfolding record_payment
  record_payment-Throws inv p i =
      bind-Throws PaymentError (throw_if (not (can_accept_payment inv)) _) _
        (throw_if-Throws PaymentError _ _ PaymentError.not_payable)
        λ u.
          bind-Throws PaymentError (get_total_paid_by_invoice_id env org id) _
            (get_total_paid-Throws PaymentError PaymentError.not_found PaymentError.database env org
              id)
            λ paid.
              bind-Throws PaymentError (throw_if (ltb_ℤ (sub64 inv.total paid) p.amount) _) _
                (throw_if-Throws PaymentError _ _ PaymentError.exceeds_balance)
                λ u.
                  bind-Throws PaymentError (Payments.create env org p i) _
                    (create-Throws PaymentError PaymentError.not_found PaymentError.database env org
                      p i)
                    λ p'.
                      bind-Throws PaymentError
                        (settle env org id inv (p.amount ==ℤ sub64 inv.total paid)) _
                        (settle-Throws inv (p.amount ==ℤ sub64 inv.total paid))
                        λ inv'. pure-Throws PaymentError _

  replay_or_record-Throws :
      (inv : Invoice) (p : Payment) (i : PaymentIdempotency) (found : Option (Payment × List ℕ))
      → Throws PaymentError (replay_or_record env org id inv p i found)
  unfolding replay_or_record
  replay_or_record-Throws inv p i none = record_payment-Throws inv p i
  replay_or_record-Throws inv p i (some (q, hash)) = record {
    only = λ db e h. elim (Bool-cases (text_eq hash i.request_hash)) [
      | inl same ↦ absurd (let k = rw same at h in ground arith)
      | inr other ↦ as_returned PaymentError (rw other at h) PaymentError.key_reused
    ];
  }

  pay_body-Throws :
      (p : Payment) (i : PaymentIdempotency) → Throws PaymentError (pay_body env org id p i)
  unfolding pay_body
  pay_body-Throws p i =
      bind-Throws PaymentError (get_for_update env org id) _
        (get_for_update-Throws PaymentError PaymentError.not_found PaymentError.database env org id)
        λ inv.
          bind-Throws PaymentError (get_by_idempotency_key env org id i.key) _
            (get_by_idempotency_key-Throws PaymentError PaymentError.not_found PaymentError.database
              env org id i.key)
            (replay_or_record-Throws inv p i)

  pub create_payment-Throws :
      (q : CreatePaymentRequest) → Throws PaymentError (create_payment env org id q)
  unfolding create_payment
  create_payment-Throws q =
      bind-Throws PaymentError (lift (validate_idempotency_key q.idempotency_key)) _
        (lift-Throws PaymentError _ (key_error q.idempotency_key))
        λ u.
          bind-Throws PaymentError (lift (validate_payment (new_payment env id q))) _
            (lift-Throws PaymentError _ (amount_error (new_payment env id q)))
            λ u.
              in_tx_early-Throws PaymentError env (PaymentError.database _)
                (PaymentError.database _) _
                (pay_body env org id (new_payment env id q) (payment_idempotency env q))
                (pay_body-Throws (new_payment env id q) (payment_idempotency env q))
