-- ===== src/Ledger/Accept.antt =====
-- A payment that the rules allow is taken.
use mathlib.Core.Path.{subst}
use go_invoicing.Base.Int.{ℤ, InInt64, in_int64, ◌≤ℤ◌, ◌<ℤ◌, ◌-ℤ◌, leb_ℤ, pos}
use go_invoicing.Base.{◌∙◌}
use go_invoicing.Invoice.{CreatePaymentRequest}
use go_invoicing.Invoice.Idempotency.{validate_idempotency_key}
use go_invoicing.Store.{in_tx_early, M}
use go_invoicing.Store.Invoices.{is_row}
use go_invoicing.Store.Rows.{row_facts, find?-test, All-find?}
use go_invoicing.Service.Pay.{
  create_payment, pay_body, replay_or_record, validate_payment, new_payment, payment_idempotency,
}
use go_invoicing.Ledger.{AccountedAs, IsAccounted, IsSound}
use go_invoicing.Ledger.Pay.{sub64_outstanding}
use go_invoicing.Base.{
  ℕ, Bool, true, false, ◌≡◌, inl, inr, refl, ap, Option, none, some, List, ◌∷◌, find?, arith,
  Bool-cases,
}
use go_invoicing.Base.Int.{ℤ, ltb_ℤ, ◌==ℤ◌, sub64, in_int64}
use go_invoicing.Errors.{Result, ok, Site}
use go_invoicing.Admin.{Uuid}
use go_invoicing.Invoice.{Status, Invoice, Payment, PaymentIdempotency}
use go_invoicing.Invoice.Lifecycle.{can_accept_payment}
use go_invoicing.Store.{Db, Env, CommitOutcome}
use go_invoicing.Store.Invoices.{invoice_row, get_for_update, update_status}
use go_invoicing.Store.Payments
use go_invoicing.Store.Payments.{
  is_keyed, is_owned, paid_sum, get_by_idempotency_key, get_total_paid_by_invoice_id,
  insert_payment, inserted_payment,
}
use go_invoicing.Service.Pay.{CreatePaymentResult, record_payment, settle}
use go_invoicing.Store.Effects.{new_row}
use go_invoicing.Ledger.Rows.{owned_of_found}

-- No call of the database fails.
pub record IsUp (env : Env) : Type 0 where
  pub calls : (site : Site) → env.fails site ≡ false
  pub commits : env.commit ≡ CommitOutcome.committed

module _ (env : Env) (org id : Uuid) (up : IsUp env) where
  reads_row :
      (db : Db) (inv : Invoice)
      → invoice_row db org id ≡ some inv
      → ◌≡◌ {A = Result Invoice × Db} (get_for_update env org id db) (ok inv, db)
  unfolding get_for_update
  reads_row db inv h = rw (up.calls, h) refl

  reads_no_key :
      (db : Db) (key : List ℕ)
      → find? (is_keyed id key) db.payments ≡ none
      → ◌≡◌ {A = Result (Option (Payment × List ℕ)) × Db}
          (get_by_idempotency_key env org id key db)
          (ok none, db)
  unfolding get_by_idempotency_key
  reads_no_key db key h = elim (Bool-cases (is_owned db org id)) [
    | inl own ↦ rw (up.calls, own, h) refl
    | inr alien ↦ rw (up.calls, alien) refl
  ]

  reads_total :
      (db : Db)
      → is_owned db org id ≡ true
      → in_int64 (paid_sum id db.payments) ≡ true
      → ◌≡◌ {A = Result ℤ × Db}
          (get_total_paid_by_invoice_id env org id db)
          (ok (paid_sum id db.payments), db)
  unfolding get_total_paid_by_invoice_id
  reads_total db own r = rw (up.calls, own, r) refl

  inserts_row :
      (db : Db) (inv : Invoice) (p : Payment) (i : PaymentIdempotency)
      → invoice_row db org p.invoice_id ≡ some inv
      → find? (is_keyed p.invoice_id i.key) db.payments ≡ none
      → ◌≡◌ {A = Result (Unit {0}) × Db}
          (insert_payment env org p i db)
          (ok tt, record db { payments = new_row env p i ∷ db.payments })
  unfolding insert_payment
  inserts_row db inv p i h k = rw (up.calls, h, k) refl

  inserts :
      (db : Db) (inv : Invoice) (p : Payment) (i : PaymentIdempotency)
      → p.invoice_id ≡ id
      → invoice_row db org id ≡ some inv
      → find? (is_keyed id i.key) db.payments ≡ none
      → ◌≡◌ {A = Result Payment × Db}
          (Payments.create env org p i db)
          (ok (inserted_payment env p), record db { payments = new_row env p i ∷ db.payments })
  unfolding Payments.create
  inserts db inv p i e h k =
      let r = inserts_row db inv p i (rw e h) (rw e k) in
      let r₀ = ap (λ x. x.0) r in let r₁ = ap (λ x. x.1) r in ground (arith, r₀, r₁)

  writes_status :
      (db : Db) (j : Invoice)
      → invoice_row db org id ≡ some j
      → (update_status env org id Status.paid db).0 ≡ ok tt
  unfolding update_status
  writes_status db j h = rw (up.calls, h) refl

  settles :
      (db : Db) (inv j : Invoice) (b : Bool)
      → invoice_row db org id ≡ some j
      → (k : Invoice) × ((settle env org id inv b db).0 ≡ ok k)
  unfolding settle
  settles db inv j false h = (inv, refl)
  settles db inv j true h =
      (record inv { status = Status.paid }, let w = writes_status db j h in ground (arith, w))

  records :
      (db : Db) (inv : Invoice) (p : Payment) (i : PaymentIdempotency)
      → p.invoice_id ≡ id
      → invoice_row db org id ≡ some inv
      → inv.status ≡ Status.sent
      → find? (is_keyed id i.key) db.payments ≡ none
      → in_int64 (paid_sum id db.payments) ≡ true
      → ltb_ℤ (sub64 inv.total (paid_sum id db.payments)) p.amount ≡ false
      → (r : CreatePaymentResult) × ((record_payment env org id inv p i db).0 ≡ ok r)
        × (r.payment ≡ inserted_payment env p)
        × (r.replayed ≡ false)
  unfolding record_payment can_accept_payment
  records db inv p i e h s k n w =
      let t = reads_total db (owned_of_found db org id h) n in
      let t₀ = ap (λ x. x.0) t in
      let t₁ = ap (λ x. x.1) t in
      let c = inserts db inv p i e h k in
      let c₀ = ap (λ x. x.0) c in
      let c₁ = ap (λ x. x.1) c in
      let (last, l) =
        settles (record db { payments = new_row env p i ∷ db.payments }) inv inv
          (p.amount ==ℤ sub64 inv.total (paid_sum id db.payments)) h in
      (
        record { payment = inserted_payment env p; invoice = some last; replayed = false },
        ground (arith, t₀, t₁, c₀, c₁, l),
        refl,
        refl,
      )

  body_records :
      (db : Db) (inv : Invoice) (p : Payment) (i : PaymentIdempotency)
      → invoice_row db org id ≡ some inv
      → find? (is_keyed id i.key) db.payments ≡ none
      → ◌≡◌ {A = Result CreatePaymentResult × Db}
          (pay_body env org id p i db)
          (record_payment env org id inv p i db)
  unfolding pay_body replay_or_record
  body_records db inv p i h k =
      let a = reads_row db inv h in
      let b = reads_no_key db i.key k in
      let a₀ = ap (λ x. x.0) a in
      let a₁ = ap (λ x. x.1) a in
      let b₀ = ap (λ x. x.0) b in let b₁ = ap (λ x. x.1) b in ground (arith, a₀, a₁, b₀, b₁)

  commits_new :
      (body : M CreatePaymentResult) (db : Db) (r : CreatePaymentResult)
      → (body db).0 ≡ ok r
      → r.replayed ≡ false
      → (in_tx_early env (λ x. x.replayed) body db).0 ≡ ok r
  unfolding in_tx_early
  commits_new body db r h f = rw (up.calls, h, f, up.commits) refl

paid_in_range :
    (total paid : ℤ) → InInt64 total → AccountedAs Status.sent total paid → in_int64 paid ≡ true
paid_in_range total paid t a = ground arith

within_outstanding :
    (total paid amount : ℤ)
    → InInt64 total
    → AccountedAs Status.sent total paid
    → amount ≤ℤ total -ℤ paid
    → ltb_ℤ (sub64 total paid) amount ≡ false
within_outstanding total paid amount t a w =
    let e = sub64_outstanding total paid t a in rw e (ground arith)

-- A payment is taken if the ledger is sound, the invoice is a Sent one of the organisation, the key is
-- valid and not yet used on it, the amount is positive and at most the exact balance that is left,
-- and no call of the database fails: the answer is a new payment of that amount.
pub payment_accepted :
    (env : Env) (org id : Uuid) (q : CreatePaymentRequest) (db : Db) (inv : Invoice)
    → IsUp env
    → IsSound db
    → invoice_row db org id ≡ some inv
    → inv.status ≡ Status.sent
    → validate_idempotency_key q.idempotency_key ≡ ok tt
    → find? (is_keyed id q.idempotency_key) db.payments ≡ none
    → pos 0 <ℤ q.amount
    → q.amount ≤ℤ inv.total -ℤ paid_sum id db.payments
    → (r : CreatePaymentResult) × ((create_payment env org id q db).0 ≡ ok r)
      × (r.payment.amount ≡ q.amount)
      × (r.replayed ≡ false)
unfolding create_payment validate_payment new_payment
payment_accepted env org id q db inv up sound h s good k m w =
    let same = (row_facts org id inv (find?-test (is_row org id) db.invoices h)).0 in
    let a = All-find? (IsAccounted db.payments) (is_row org id) db.invoices sound.accounted h in
    let sent' : AccountedAs Status.sent inv.total (paid_sum id db.payments) =
      subst (λ x. AccountedAs Status.sent inv.total (paid_sum x db.payments)) same
        (subst (λ st. AccountedAs st inv.total (paid_sum inv.id db.payments)) s a.1) in
    let p = new_payment env id q in
    let i = payment_idempotency env q in
    let (r, done, pay, f) =
      records env org id up db inv p i refl h s k (paid_in_range inv.total _ a.0 sent')
        (within_outstanding inv.total _ q.amount a.0 sent' w) in
    let e = ap (λ x. x.0) (body_records env org id up db inv p i h k) in
    let valid : leb_ℤ q.amount (pos 0) ≡ false = ground arith in
    (
      r,
      rw (good, valid) (commits_new env org id up (pay_body env org id p i) db r (e ∙ done) f),
      rw pay refl,
      f,
    )
