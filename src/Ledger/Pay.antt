-- ===== src/Ledger/Pay.antt =====
-- CreatePayment keeps the ledger sound, whatever becomes of the call.
use go_invoicing.Service.Pay.Effect.{PayEffect, Recorded, pay_body_ok, total_paid}
use go_invoicing.Service.Pay.{
  create_payment, pay_body, validate_payment, new_payment, payment_idempotency, CreatePaymentResult,
}
use go_invoicing.Ledger.Rows.{owned_of_found, All-change, All-change-update_where}
use go_invoicing.Store.Rows.{
  row_facts, find?-test, DistinctIds-update_where, All-update_where, All-find?,
}
use go_invoicing.Store.{in_tx_early, in_tx_early_changes}
use go_invoicing.Store.Invoices.{is_row}
use go_invoicing.Base.{inl, inr, refl, ◌≢◌}
use go_invoicing.Errors.{Result-cases, ok}
use go_invoicing.Invoice.{CreatePaymentRequest}
use go_invoicing.Invoice.Idempotency.{validate_idempotency_key}
use go_invoicing.Service.Pay.Effect.{settled}
use go_invoicing.Base.{sym, ◌∙◌}
use mathlib.Core.Path.{subst}
use go_invoicing.Store.Invoices.{invoice_row}
use go_invoicing.Base.{some, if◌then◌else◌, Bool, ◌≡◌, ◌≢◌, true, false, arith, List, ◌∷◌}
use go_invoicing.Base.Int.{
  ℤ, pos, ◌≤ℤ◌, ◌<ℤ◌, ◌+ℤ◌, ◌-ℤ◌, sub64, wrap64_id, InInt64, int_laws, ◌==ℤ◌,
}
use go_invoicing.Admin.{Uuid}
use go_invoicing.Invoice.{Invoice, Status, Payment, PaymentIdempotency}
use go_invoicing.Store.{Env, PaymentRow}
use go_invoicing.Store.Payments.{paid_sum}
use go_invoicing.Store.Effects.{written_status, new_row}
use go_invoicing.Ledger.{CoherentAs, IsAccounted, IsSound, IsCoherent, Db, AccountedAs}

-- What is left to pay on a Sent invoice is computed exactly.
pub sub64_outstanding :
    (total paid : ℤ)
    → InInt64 total
    → AccountedAs Status.sent total paid
    → sub64 total paid ≡ total -ℤ paid
unfolding sub64
sub64_outstanding total paid t a = wrap64_id (total -ℤ paid) (grind int_laws)

-- A payment below what was left leaves the invoice Sent.
stays_sent :
    (total paid amount : ℤ)
    → InInt64 total
    → AccountedAs Status.sent total paid
    → pos 0 <ℤ amount
    → amount ≤ℤ sub64 total paid
    → (amount ==ℤ sub64 total paid) ≡ false
    → AccountedAs Status.sent total (amount +ℤ paid)
stays_sent total paid amount t a m w n = let e = sub64_outstanding total paid t a in grind int_laws

-- A payment of what was left makes it Paid.
becomes_paid :
    (total paid amount : ℤ)
    → InInt64 total
    → AccountedAs Status.sent total paid
    → pos 0 <ℤ amount
    → (amount ==ℤ sub64 total paid) ≡ true
    → AccountedAs Status.paid total (amount +ℤ paid)
becomes_paid total paid amount t a m n = let e = sub64_outstanding total paid t a in grind int_laws

-- A payment counts on its own invoice only.
paid_sum_hit :
    (env : Env) (p : Payment) (i : PaymentIdempotency) (rows : List PaymentRow) (id : Uuid)
    → p.invoice_id ≡ id
    → paid_sum id (new_row env p i ∷ rows) ≡ p.amount +ℤ paid_sum id rows
unfolding paid_sum
paid_sum_hit env p i rows id h = ground arith

paid_sum_miss :
    (env : Env) (p : Payment) (i : PaymentIdempotency) (rows : List PaymentRow) (id : Uuid)
    → id ≢ p.invoice_id
    → paid_sum id (new_row env p i ∷ rows) ≡ paid_sum id rows
unfolding paid_sum
paid_sum_miss env p i rows id h = ground arith

-- The row that was read, once the payment is counted and its status written.
IsAccounted-row :
    (env : Env) (org id : Uuid) (db : Db) (inv : Invoice) (p : Payment) (i : PaymentIdempotency)
    (b : Bool)
    → inv.id ≡ id
    → p.invoice_id ≡ id
    → inv.status ≡ Status.sent
    → IsAccounted db.payments inv
    → pos 0 <ℤ p.amount
    → p.amount ≤ℤ sub64 inv.total (paid_sum id db.payments)
    → (p.amount ==ℤ sub64 inv.total (paid_sum id db.payments)) ≡ b
    → IsAccounted
        (new_row env p i ∷ db.payments)
        (if b then written_status env Status.paid inv else inv)
IsAccounted-row env org id db inv p i true same mine s a m w e =
    let a' = subst (λ st. AccountedAs st inv.total (paid_sum inv.id db.payments)) s a.1 in
    (
      a.0,
      rw (paid_sum_hit env p i db.payments inv.id (mine ∙ sym same))
          (becomes_paid inv.total (paid_sum inv.id db.payments) p.amount a.0 a' m (rw same e)),
    )
IsAccounted-row env org id db inv p i false same mine s a m w e =
    let a' = subst (λ st. AccountedAs st inv.total (paid_sum inv.id db.payments)) s a.1 in
    (
      a.0,
      rw (s, paid_sum_hit env p i db.payments inv.id (mine ∙ sym same))
          (stays_sent inv.total (paid_sum inv.id db.payments) p.amount a.0 a' m (rw same w)
            (rw same e)),
    )

IsCoherent-paid :
    (env : Env) (inv : Invoice)
    → inv.status ≡ Status.sent
    → IsCoherent inv
    → IsCoherent (written_status env Status.paid inv)
IsCoherent-paid env inv s c = subst (λ st. CoherentAs st inv) s c

IsSound-settled :
    (env : Env) (org id : Uuid) (db : Db) (inv : Invoice) (rows : List PaymentRow) (b : Bool)
    → IsSound db
    → invoice_row db org id ≡ some inv
    → inv.status ≡ Status.sent
    → ((j : Invoice) → j.id ≢ id → IsAccounted db.payments j → IsAccounted rows j)
    → IsAccounted rows (if b then written_status env Status.paid inv else inv)
    → IsSound (record db { payments = rows; invoices = settled env org id b db.invoices })
IsSound-settled env org id db inv rows true s f st c a = record {
  distinct =
      DistinctIds-update_where (is_row org id) (written_status env Status.paid) db.invoices
        (λ i. refl) s.distinct;
  coherent =
      All-update_where IsCoherent org id (written_status env Status.paid) db.invoices inv s.distinct
        f s.coherent
        (IsCoherent-paid env inv st
          (All-find? IsCoherent (is_row org id) db.invoices s.coherent f));
  accounted =
      All-change-update_where (IsAccounted db.payments) (IsAccounted rows) org id
        (written_status env Status.paid) db.invoices inv s.distinct f c s.accounted a;
}
IsSound-settled env org id db inv rows false s f st c a = record {
  distinct = s.distinct;
  coherent = s.coherent;
  accounted =
      All-change (IsAccounted db.payments) (IsAccounted rows) org id db.invoices inv s.distinct f c
        s.accounted a;
}

Recorded-IsSound :
    (env : Env) (org id : Uuid) (db : Db) (inv : Invoice) (p : Payment) (i : PaymentIdempotency)
    (r : CreatePaymentResult) (after : Db)
    → IsSound db
    → invoice_row db org id ≡ some inv
    → p.invoice_id ≡ id
    → pos 0 <ℤ p.amount
    → Recorded env org id inv p i db r after
    → IsSound after
Recorded-IsSound env org id db inv p i r after s f mine m x =
    let own = owned_of_found db org id f in
    let paid : total_paid db org id ≡ paid_sum id db.payments = rw own refl in
    let same = (row_facts org id inv (find?-test (is_row org id) db.invoices f)).0 in
    rw x.stored (
      IsSound-settled env org id db inv (new_row env p i ∷ db.payments)
        (p.amount ==ℤ sub64 inv.total (total_paid db org id)) s f x.was_sent
        (λ j n a. rw (paid_sum_miss env p i db.payments j.id (rw mine n)) a)
        (IsAccounted-row env org id db inv p i (p.amount ==ℤ sub64 inv.total (total_paid db org id))
          same mine x.was_sent
          (All-find? (IsAccounted db.payments) (is_row org id) db.invoices s.accounted f) m
          (rw (← paid) x.within) (rw paid refl)))

positive_of_valid : (p : Payment) → validate_payment p ≡ ok tt → pos 0 <ℤ p.amount
unfolding validate_payment
positive_of_valid p h = ground arith

-- The transaction of CreatePayment, for a payment that was validated.
pay_tx-IsSound :
    (env : Env) (org id : Uuid) (p : Payment) (i : PaymentIdempotency) (db : Db)
    → p.invoice_id ≡ id
    → pos 0 <ℤ p.amount
    → IsSound db
    → IsSound (in_tx_early env (λ result. result.replayed) (pay_body env org id p i) db).1
pay_tx-IsSound env org id p i db mine m sound =
    elim (in_tx_early_changes env (λ result. result.replayed) (pay_body env org id p i) db) [
      | inl same ↦ rw same sound
      | inr (r, done, e) ↦ rw e (elim (pay_body_ok env org id p i db done) [
        | PayEffect.replay inv hash f k same rep unchanged ↦ rw unchanged sound
        | PayEffect.record_new inv f k x ↦
            Recorded-IsSound env org id db inv p i r _ sound f mine m x
      ])
    ]

-- Whatever CreatePayment returns, and whichever of its database calls fail, a sound ledger stays
-- sound: payments are recorded on a Sent invoice only and never beyond its total, and an invoice
-- that became Paid has payments of exactly its total.
pub create_payment-IsSound :
    (env : Env) (org id : Uuid) (q : CreatePaymentRequest) (db : Db)
    → IsSound db
    → IsSound (create_payment env org id q db).1
unfolding create_payment new_payment
create_payment-IsSound env org id q db sound =
    elim (Result-cases (validate_idempotency_key q.idempotency_key)) [
      | inr (e, bad) ↦ rw bad sound
      | inl (tt, good) ↦ elim (Result-cases (validate_payment (new_payment env id q))) [
        | inr (e, bad) ↦ rw (good, bad) sound
        | inl (tt, valid) ↦
            rw (good, valid)
              (pay_tx-IsSound env org id (new_payment env id q) (payment_idempotency env q) db refl
                (positive_of_valid (new_payment env id q) valid) sound)
      ]
    ]
