-- ===== src/Service/Pay/Replay.antt =====
-- Retries of CreatePayment: what a second call with the same idempotency key does.
use go_invoicing.Service.Pay.Kept.{kept_payment, HasKey, effect-HasKey}
use go_invoicing.Base.{◌⊎◌, ap, ◌∙◌}
use go_invoicing.Base.Int.{leb_ℤ, pos, ◌<ℤ◌}
use go_invoicing.Base.{ℕ, Option, if◌then◌else◌, Bool-cases, Bool, true, false, inl, inr}
use go_invoicing.Base.Text.{text_eq}
use go_invoicing.Store.{in_tx_early, in_tx_early_ok, M}
use go_invoicing.Store.Invoices.{get_for_update}
use go_invoicing.Store.Payments.{get_by_idempotency_key}
use go_invoicing.Service.Pay.{
  pay_body, replay_or_record, create_payment, validate_payment, new_payment, payment_idempotency,
}
use go_invoicing.Service.Pay.Effect.{pay_body_ok}
use go_invoicing.Invoice.{CreatePaymentRequest}
use go_invoicing.Invoice.Idempotency.{validate_idempotency_key, fingerprint_payment_request}
use go_invoicing.Errors.{
  Result, err, Result-cases, payment_idempotency_key_reused, begin_tx, invoice_get, payment_by_key,
}
use go_invoicing.Base.{Bool, true, false, ◌≡◌, refl, none, some, List, arith}
use go_invoicing.Errors.{ok, begin_tx, invoice_get, payment_by_key}
use go_invoicing.Admin.{Uuid}
use go_invoicing.Invoice.{Invoice, Payment, PaymentIdempotency}
use go_invoicing.Store.{Db, Env}
use go_invoicing.Service.Pay.{CreatePaymentResult}
use go_invoicing.Service.Pay.Effect.{PayEffect}

-- The database calls that a replay makes succeed.
pub record IsHealthy (env : Env) : Type 0 where
  pub begins : env.fails begin_tx ≡ false
  pub reads_invoice : env.fails invoice_get ≡ false
  pub reads_key : env.fails payment_by_key ≡ false

abbrev pub replayed : Payment → CreatePaymentResult
replayed p = record { payment = p; invoice = none; replayed = true }

abbrev pub answer : Bool → Payment → Result CreatePaymentResult
answer same p = if same then ok (replayed p) else err payment_idempotency_key_reused

reads_row :
    (env : Env) (org id : Uuid) (i : PaymentIdempotency) (q : Payment) (db : Db)
    → IsHealthy env
    → (k : HasKey org id i q db)
    → ◌≡◌ {A = Result Invoice × Db} (get_for_update env org id db) (ok k.row, db)
unfolding get_for_update
reads_row env org id i q db up k = rw (up.reads_invoice, k.row_found) refl

reads_key :
    (env : Env) (org id : Uuid) (i : PaymentIdempotency) (q : Payment) (db : Db)
    → IsHealthy env
    → HasKey org id i q db
    → ◌≡◌ {A = Result (Option (Payment × List ℕ)) × Db}
        (get_by_idempotency_key env org id i.key db)
        (ok (some (q, i.request_hash)), db)
unfolding get_by_idempotency_key
reads_key env org id i q db up k = rw (up.reads_key, k.key_found) refl

replay_answer :
    (env : Env) (org id : Uuid) (inv : Invoice) (p q : Payment) (hash : List ℕ)
    (j : PaymentIdempotency) (db : Db)
    → ◌≡◌ {A = Result CreatePaymentResult × Db}
        (replay_or_record env org id inv p j (some (q, hash)) db)
        (answer (text_eq hash j.request_hash) q, db)
unfolding replay_or_record
replay_answer env org id inv p q hash j db = elim (Bool-cases (text_eq hash j.request_hash)) [
  | inl yes' ↦ rw yes' refl
  | inr no' ↦ rw no' refl
]

pay_body-HasKey :
    (env : Env) (org id : Uuid) (p q : Payment) (i j : PaymentIdempotency) (db : Db)
    → IsHealthy env
    → HasKey org id i q db
    → j.key ≡ i.key
    → ◌≡◌ {A = Result CreatePaymentResult × Db}
        (pay_body env org id p j db)
        (answer (text_eq i.request_hash j.request_hash) q, db)
unfolding pay_body
pay_body-HasKey env org id p q i j db up k e =
    let row = reads_row env org id i q db up k in
    let key = reads_key env org id i q db up k in
    let last = replay_answer env org id k.row p q i.request_hash j db in
    let r₀ = ap (λ x. x.0) row in
    let r₁ = ap (λ x. x.1) row in
    let k₀ = ap (λ x. x.0) key in
    let k₁ = ap (λ x. x.1) key in
    let step : ◌≡◌ {A = Result CreatePaymentResult × Db} (pay_body env org id p j db)
        (replay_or_record env org id k.row p j (some (q, i.request_hash)) db) =
      ground (arith, r₀, r₁, k₀, k₁) in
    step ∙ last

in_tx_replay :
    (env : Env) (body : M CreatePaymentResult) (b : Bool) (p : Payment) (db : Db)
    → IsHealthy env
    → ◌≡◌ {A = Result CreatePaymentResult × Db} (body db) (answer b p, db)
    → ◌≡◌ {A = Result CreatePaymentResult × Db}
        (in_tx_early env (λ result. result.replayed) body db)
        (answer b p, db)
unfolding in_tx_early
in_tx_replay env body true p db up h = rw (up.begins, h) refl
in_tx_replay env body false p db up h = rw (up.begins, h) refl

-- A call with a used key, and a request that passes validation, changes nothing.
pub create_payment-HasKey :
    (env : Env) (org id : Uuid) (i : PaymentIdempotency) (p : Payment) (q : CreatePaymentRequest)
    (db : Db)
    → IsHealthy env
    → HasKey org id i p db
    → q.idempotency_key ≡ i.key
    → validate_idempotency_key q.idempotency_key ≡ ok tt
    → pos 0 <ℤ q.amount
    → ◌≡◌ {A = Result CreatePaymentResult × Db}
        (create_payment env org id q db)
        (answer (text_eq i.request_hash (fingerprint_payment_request env.digest q)) p, db)
unfolding create_payment validate_payment new_payment
create_payment-HasKey env org id i p q db up k e good m =
    let valid : leb_ℤ q.amount (pos 0) ≡ false = ground arith in
    rw (good, valid)
      (in_tx_replay env (pay_body env org id (new_payment env id q) (payment_idempotency env q))
        (text_eq i.request_hash (fingerprint_payment_request env.digest q)) p db up
        (pay_body-HasKey env org id (new_payment env id q) p i (payment_idempotency env q) db up k
          e))

-- A replay has changed nothing, so ending it by ROLLBACK leaves what its body left.
effect_of_end :
    (env : Env) (org id : Uuid) (p : Payment) (i : PaymentIdempotency) (db after db' : Db)
    (r : CreatePaymentResult)
    → PayEffect env org id p i db r after
    → (after ≡ db') ⊎ ((r.replayed ≡ true) × (db' ≡ db))
    → PayEffect env org id p i db r db'
effect_of_end env org id p i db after db' r x (inl e) = rw (← e) x
effect_of_end env org id p i db after db' r (PayEffect.replay inv hash f k same rep unchanged)
      (inr (t, e)) =
    PayEffect.replay inv hash f k same rep e
effect_of_end env org id p i db after db' r (PayEffect.record_new inv f k x) (inr (t, e)) =
    absurd (let no' = x.fresh in ground arith)

-- What a call that reports success leaves behind.
pub create_payment_ok :
    (env : Env) (org id : Uuid) (q : CreatePaymentRequest) (db db' : Db) (r : CreatePaymentResult)
    → create_payment env org id q db ≡ (ok r, db')
    → (validate_idempotency_key q.idempotency_key ≡ ok tt)
      × (pos 0 <ℤ q.amount)
      × PayEffect env org id (new_payment env id q) (payment_idempotency env q) db r db'
unfolding create_payment validate_payment new_payment
create_payment_ok env org id q db db' r h =
    elim (Result-cases (validate_idempotency_key q.idempotency_key)) [
      | inr (e, bad) ↦ absurd (ground arith)
      | inl (tt, good) ↦ elim (Bool-cases (leb_ℤ q.amount (pos 0))) [
        | inl bad ↦ absurd (ground arith)
        | inr fine ↦
            let body = pay_body env org id (new_payment env id q) (payment_idempotency env q) in
            let (done, e) =
              in_tx_early_ok env (λ result. result.replayed) body db db' r (rw (good, fine) at h) in
            let x =
              pay_body_ok env org id (new_payment env id q) (payment_idempotency env q) db done in
            (good, ground arith, effect_of_end env org id _ _ db (body db).1 db' r x e)
      ]
    ]

-- A call with any request under the same key, made after a payment that succeeded, never records a
-- second one: the database stays as it is, and the answer is the first payment as it was stored,
-- marked as replayed, if the two requests have the same fingerprint, and the error for a reused key
-- if not. The stored payment has lost the time of day of a date that the clock supplied. The second
-- request has a positive amount and its database calls succeed.
pub retry_writes_nothing :
    (env env' : Env) (org id : Uuid) (q q' : CreatePaymentRequest) (db db' : Db)
    (r : CreatePaymentResult)
    → create_payment env org id q db ≡ (ok r, db')
    → IsHealthy env'
    → q'.idempotency_key ≡ q.idempotency_key
    → pos 0 <ℤ q'.amount
    → ◌≡◌ {A = Result CreatePaymentResult × Db} (create_payment env' org id q' db') (
      answer
          (text_eq
            (fingerprint_payment_request env.digest q)
            (fingerprint_payment_request env'.digest q'))
          (kept_payment r),
      db',
    )
unfolding new_payment
retry_writes_nothing env env' org id q q' db db' r h up e m =
    let (good, m₀, x) = create_payment_ok env org id q db db' r h in
    create_payment-HasKey env' org id (payment_idempotency env q) (kept_payment r) q' db' up
      (effect-HasKey env org id (new_payment env id q) (payment_idempotency env q) db db' r refl x)
      e (rw e good) m
