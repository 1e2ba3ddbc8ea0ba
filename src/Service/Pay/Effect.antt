-- ===== src/Service/Pay/Effect.antt =====
-- What CreatePayment has done when its transaction's body succeeded.
use go_invoicing.Base.{
  ℕ, ◌≡◌, inl, inr, refl, Bool, true, false, Option, none, some, List, ◌∷◌, find?, update_where,
  arith, Bool-cases, if◌then◌else◌,
}
use go_invoicing.Base.Int.{ℤ, pos, ltb_ℤ, ◌≤ℤ◌, sub64, InInt64, ◌==ℤ◌}
use go_invoicing.Base.Text.{text_eq}
use go_invoicing.Errors.{Result, ok, Result-cases}
use go_invoicing.Admin.{Uuid}
use go_invoicing.Invoice.{Status, Invoice, Payment, PaymentIdempotency}
use go_invoicing.Store.{Db, Env}
use go_invoicing.Store.Invoices.{is_row, invoice_row, get_for_update}
use go_invoicing.Store.Payments
use go_invoicing.Store.Payments.{
  found_payment, is_owned, is_keyed, keyed_row, paid_sum, hash_of, inserted_payment,
  get_by_idempotency_key, get_total_paid_by_invoice_id,
}
use go_invoicing.Store.Effects.{
  get_for_update_ok, get_total_paid_ok, get_by_idempotency_key_ok, create_payment_row_ok,
  update_status_ok, new_row, written_status,
}
use go_invoicing.Invoice.Lifecycle.{can_accept_payment}
use go_invoicing.Service.Pay.{
  CreatePaymentResult, settle, record_payment, replay_or_record, pay_body,
}

abbrev pub total_paid : Db → Uuid → Uuid → ℤ
total_paid db org id = if is_owned db org id then paid_sum id db.payments else pos 0

-- The new invoices: the status is written only if the payment exhausts the balance.
abbrev pub settled : Env → Uuid → Uuid → Bool → List Invoice → List Invoice
settled env org id exhausts is =
    if exhausts then update_where (is_row org id) (written_status env Status.paid) is else is

-- A payment was recorded on a Sent invoice, within what was outstanding.
pub record Recorded (env : Env) (org id : Uuid) (inv : Invoice) (p : Payment)
    (i : PaymentIdempotency) (db : Db) (r : CreatePaymentResult) (after : Db) : Type 0 where
  pub was_sent : inv.status ≡ Status.sent
  pub paid_in_range : InInt64 (total_paid db org id)
  pub within : p.amount ≤ℤ sub64 inv.total (total_paid db org id)
  pub key_unused : find? (is_keyed p.invoice_id i.key) db.payments ≡ none
  pub stored : after ≡ record db {
    payments = new_row env p i ∷ db.payments;
    invoices = settled env org id (p.amount ==ℤ sub64 inv.total (total_paid db org id)) db.invoices;
  }
  pub returned : r.payment ≡ inserted_payment env p
  pub fresh : r.replayed ≡ false

settle_ok :
    (env : Env) (org id : Uuid) (inv : Invoice) (b : Bool) (db : Db) {j : Invoice}
    → (settle env org id inv b db).0 ≡ ok j
    → (settle env org id inv b db).1 ≡ record db { invoices = settled env org id b db.invoices }
unfolding settle
settle_ok env org id inv true db h = ground (arith, update_status_ok env org id Status.paid db)
settle_ok env org id inv false db h = refl

sent_of_can_accept : (i : Invoice) → can_accept_payment i ≡ true → i.status ≡ Status.sent
unfolding can_accept_payment
sent_of_can_accept i h = ground arith

record_payment_ok :
    (env : Env) (org id : Uuid) (inv : Invoice) (p : Payment) (i : PaymentIdempotency) (db : Db)
    {r : CreatePaymentResult}
    → (record_payment env org id inv p i db).0 ≡ ok r
    → Recorded env org id inv p i db r (record_payment env org id inv p i db).1
unfolding record_payment
record_payment_ok env org id inv p i db h = elim (Bool-cases (can_accept_payment inv)) [
  | inr no' ↦ absurd (ground arith)
  | inl yes' ↦ elim (Result-cases (get_total_paid_by_invoice_id env org id db).0) [
    | inr (e, q) ↦ absurd (ground arith)
    | inl (n, q) ↦
        let (total, range, same) = get_total_paid_ok env org id db q in
        elim (Bool-cases (ltb_ℤ (sub64 inv.total n) p.amount)) [
          | inl over ↦ absurd (ground arith)
          | inr under ↦ elim (Result-cases (Payments.create env org p i db).0) [
            | inr (e, c) ↦ absurd (ground arith)
            | inl (k, c) ↦
                let (made, unused, wrote) = create_payment_row_ok env org p i db c in
                let balance = sub64 inv.total n in
                let db' = (Payments.create env org p i db).1 in
                elim (Result-cases (settle env org id inv (p.amount ==ℤ balance) db').0) [
                  | inr (e, s) ↦ absurd (ground arith)
                  | inl (j, s) ↦
                      let done = settle_ok env org id inv (p.amount ==ℤ balance) db' s in
                      record {
                        was_sent = sent_of_can_accept inv yes';
                        paid_in_range = rw (← total) range;
                        within = rw (← total) (ground arith);
                        key_unused = unused;
                        stored = rw (← total) (ground arith);
                        returned = ground arith;
                        fresh = ground arith;
                      }
                ]
          ]
        ]
  ]
]

-- What the body of CreatePayment has done: it replayed a payment with the same fingerprint and wrote
-- nothing, or it recorded a new one under a key that the invoice had not seen.
pub data PayEffect (env : Env) (org id : Uuid) (p : Payment) (i : PaymentIdempotency) (db : Db)
    (r : CreatePaymentResult) (after : Db) : Type 0 where
  replay :
      (inv : Invoice) (hash : List ℕ)
      → invoice_row db org id ≡ some inv
      → found_payment (keyed_row db org id i.key) ≡ ok (some (r.payment, hash))
      → text_eq hash i.request_hash ≡ true
      → r.replayed ≡ true
      → after ≡ db
      → PayEffect env org id p i db r after
  record_new :
      (inv : Invoice)
      → invoice_row db org id ≡ some inv
      → found_payment (keyed_row db org id i.key) ≡ ok none
      → Recorded env org id inv p i db r after
      → PayEffect env org id p i db r after

replay_or_record_ok :
    (env : Env) (org id : Uuid) (inv : Invoice) (p : Payment) (i : PaymentIdempotency)
    (found : Option (Payment × List ℕ)) (db : Db) {r : CreatePaymentResult}
    → invoice_row db org id ≡ some inv
    → found_payment (keyed_row db org id i.key) ≡ ok found
    → (replay_or_record env org id inv p i found db).0 ≡ ok r
    → PayEffect env org id p i db r (replay_or_record env org id inv p i found db).1
unfolding replay_or_record
replay_or_record_ok env org id inv p i none db f k h =
    record_new inv f k (record_payment_ok env org id inv p i db h)
replay_or_record_ok env org id inv p i (some (q, hash)) db {r} f k h =
    elim (Bool-cases (text_eq hash i.request_hash)) [
      | inl same ↦
          replay inv hash f (let e : r.payment ≡ q = ground arith in rw e k) same (ground arith)
            (ground arith)
      | inr other ↦ absurd (ground arith)
    ]

pub pay_body_ok :
    (env : Env) (org id : Uuid) (p : Payment) (i : PaymentIdempotency) (db : Db)
    {r : CreatePaymentResult}
    → (pay_body env org id p i db).0 ≡ ok r
    → PayEffect env org id p i db r (pay_body env org id p i db).1
unfolding pay_body
pay_body_ok env org id p i db {r} h = elim (Result-cases (get_for_update env org id db).0) [
  | inr (e, q) ↦ absurd (ground arith)
  | inl (inv, q) ↦
      let (f, same) = get_for_update_ok env org id db q in
      elim (Result-cases (get_by_idempotency_key env org id i.key db).0) [
        | inr (e, k) ↦ absurd (ground arith)
        | inl (found, k) ↦
            let (fp, same') = get_by_idempotency_key_ok env org id i.key db k in
            let step : ◌≡◌ {A = Result CreatePaymentResult × Db} (pay_body env org id p i db)
                (replay_or_record env org id inv p i found db) =
              ground arith in
            rw step (replay_or_record_ok env org id inv p i found db f fp (rw step at h))
      ]
]
