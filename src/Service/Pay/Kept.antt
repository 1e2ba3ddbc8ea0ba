-- ===== src/Service/Pay/Kept.antt =====
-- The row that a successful CreatePayment leaves under its idempotency key.
use go_invoicing.Base.{if◌then◌else◌, Bool-cases, Bool, true, false, inl, inr}
use go_invoicing.Invoice.Responses.{Formats, ShowsDays, to_payment_response}
use go_invoicing.Base.{Bool, true, false, ◌≡◌, refl, some, List, find?, arith}
use go_invoicing.Base.Int.{◌==ℤ◌, sub64}
use go_invoicing.Base.Text.{eq_of_text_eq, text_eq_refl}
use go_invoicing.Errors.{ok}
use go_invoicing.Admin.{Uuid}
use go_invoicing.Invoice.{Status, Invoice, Payment, PaymentIdempotency}
use go_invoicing.Store.{Db, Env}
use go_invoicing.Store.Rows.{find?-update_where, find?-test}
use go_invoicing.Store.Invoices.{is_row, invoice_row}
use go_invoicing.Store.Payments.{is_keyed, keyed_row, found_payment, dated_payment}
use go_invoicing.Store.Effects.{new_row, written_status}
use go_invoicing.Service.Pay.{CreatePaymentResult}
use go_invoicing.Service.Pay.Effect.{total_paid, PayEffect, settled}
use go_invoicing.Ledger.Rows.{owned_of_found}

-- The row of the invoice is still there after the payment.
row_after :
    (env : Env) (org id : Uuid) (b : Bool) (is : List Invoice) {inv : Invoice}
    → find? (is_row org id) is ≡ some inv
    → (j : Invoice) × (find? (is_row org id) (settled env org id b is) ≡ some j)
row_after env org id false is {inv} h = (inv, h)
row_after env org id true is {inv} h = (
  written_status env Status.paid inv,
  find?-update_where org id (written_status env Status.paid) is h (find?-test (is_row org id) is h),
)

-- The payment as its row has it. A replayed payment was read from there.
abbrev pub kept_payment : CreatePaymentResult → Payment
kept_payment r = if r.replayed then r.payment else dated_payment r.payment

-- A response shows the payment as it is stored.
pub kept_shown :
    (formats : Formats) (r : CreatePaymentResult)
    → ShowsDays formats
    → to_payment_response formats (kept_payment r) ≡ to_payment_response formats r.payment
unfolding to_payment_response
kept_shown formats r daily = elim (Bool-cases r.replayed) [
  | inl yes' ↦ rw yes' refl
  | inr no' ↦ rw (no', daily r.payment.payment_date) refl
]

keyed_new_row :
    (env : Env) (p : Payment) (i : PaymentIdempotency)
    → is_keyed p.invoice_id i.key (new_row env p i) ≡ true
keyed_new_row env p i = ground (arith, text_eq_refl i.key)

-- The invoice has the key, with this payment and the request's fingerprint.
pub record HasKey (org id : Uuid) (i : PaymentIdempotency) (p : Payment) (db : Db) : Type 0 where
  pub row : Invoice
  pub row_found : invoice_row db org id ≡ some row
  pub key_found : found_payment (keyed_row db org id i.key) ≡ ok (some (p, i.request_hash))

pub effect-HasKey :
    (env : Env) (org id : Uuid) (p : Payment) (i : PaymentIdempotency) (db after : Db)
    (r : CreatePaymentResult)
    → p.invoice_id ≡ id
    → PayEffect env org id p i db r after
    → HasKey org id i (kept_payment r) after
effect-HasKey env org id p i db after r mine (PayEffect.replay inv hash f k same rep unchanged) =
    let e = eq_of_text_eq hash i.request_hash same in
    rw unchanged (record { row = inv; row_found = f; key_found = rw (rep, ← e) k })
effect-HasKey env org id p i db after r mine (PayEffect.record_new inv f k x) =
    let b = p.amount ==ℤ sub64 inv.total (total_paid db org id) in
    let (j, g) = row_after env org id b db.invoices f in
    let own = owned_of_found (record db { invoices = settled env org id b db.invoices }) org id g in
    rw x.stored (record {
      row = j;
      row_found = g;
      key_found = rw (own, ← mine, keyed_new_row env p i, x.fresh, x.returned) refl;
    })
