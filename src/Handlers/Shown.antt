-- ===== src/Handlers/Shown.antt =====
-- A payment that was posted is among the payments that are read afterwards.
use go_invoicing.Base.{
  ℕ, Bool, true, false, ◌≡◌, ◌⊎◌, ◌∙◌, refl, sym, ap, inl, inr, arith, Bool-cases, Option-cases,
  Option, some, List, [], ◌∷◌, find?, keep, map, ◌==◌,
}
use go_invoicing.Errors.{Result, ok, invoice_get, payment_list}
use go_invoicing.Admin.{Uuid}
use go_invoicing.Invoice.{Invoice, Payment, PaymentIdempotency}
use go_invoicing.Invoice.Responses.{
  Formats, ShowsDays, PaymentResponse, CreatePaymentHttpRequest, to_payment_response,
}
use go_invoicing.Store.{Db, Env, PaymentRow}
use go_invoicing.Store.Invoices.{get_by_id, display_name}
use go_invoicing.Store.Payments.{is_keyed, found_payment, get_by_invoice_id, payment_before}
use go_invoicing.Store.Paging.{insert_row, sort_rows}
use go_invoicing.Store.Binds.{bind_value}
use go_invoicing.Service.Read.{get_payments}
use go_invoicing.Service.Pay.{create_payment, new_payment, payment_idempotency}
use go_invoicing.Service.Pay.Kept.{kept_payment, kept_shown, HasKey, effect-HasKey}
use go_invoicing.Service.Pay.Replay.{create_payment_ok}
use go_invoicing.Ledger.Rows.{owned_of_found}
use go_invoicing.Admin.User.{AuthenticatedUser}
use go_invoicing.Handlers.Chains.{serve_value, serve_json}
use go_invoicing.Handlers.Invoices.{
  get_payments_failure, parsed_id, payment_failure, answer_payment, handle_create_payment,
  handle_get_payments,
}
use go_invoicing.Handlers.{Checked, respond, Response, Incoming, require_authenticated_user}
use go_invoicing.Handlers.Posted.{Posted-cases, posted_served}

-- The element is one of the list's.
abbrev pub Holds : {A : Type 0} → A → List A → Type 0
Holds x [] = ⊥
Holds x (y ∷ ys) = (x ≡ y) ⊎ Holds x ys

Holds-map : {A B : Type 0} (f : A → B) (x : A) (xs : List A) → Holds x xs → Holds (f x) (map f xs)
Holds-map f x [] h = absurd h
Holds-map f x (y ∷ ys) (inl e) = inl (ap f e)
Holds-map f x (y ∷ ys) (inr h) = inr (Holds-map f x ys h)

Holds-insert_row :
    {A : Type 0} (p : A → A → Bool) (x y : A) (ys : List A)
    → Holds x (y ∷ ys)
    → Holds x (insert_row p y ys)
Holds-insert_row p x y [] h = h
Holds-insert_row p x y (z ∷ zs) h = elim (Bool-cases (p y z)) [
  | inl yes' ↦ rw yes' h
  | inr no' ↦ rw no' (elim h [
    | inl e ↦ inr (Holds-insert_row p x y zs (inl e))
    | inr (inl e) ↦ inl e
    | inr (inr k) ↦ inr (Holds-insert_row p x y zs (inr k))
  ])
]

Holds-sort_rows :
    {A : Type 0} (p : A → A → Bool) (x : A) (xs : List A) → Holds x xs → Holds x (sort_rows p xs)
Holds-sort_rows p x [] h = h
Holds-sort_rows p x (y ∷ ys) (inl e) = Holds-insert_row p x y (sort_rows p ys) (inl e)
Holds-sort_rows p x (y ∷ ys) (inr h) =
    Holds-insert_row p x y (sort_rows p ys) (inr (Holds-sort_rows p x ys h))

some_same {ℓ} : {A : Type ℓ} {a b : A} → ◌≡◌ {A = Option A} (some a) (some b) → a ≡ b
some_same h = ground arith

abbrev payments_of : Uuid → List PaymentRow → List Payment
payments_of id rows = map (λ row. row.payment) (keep (λ row. row.payment.invoice_id == id) rows)

-- In the order of the query.
abbrev listed_payments : Uuid → List PaymentRow → List Payment
listed_payments id rows = sort_rows payment_before (payments_of id rows)

-- The payment found by its key is one of the invoice's.
keyed_listed :
    (id : Uuid) (key : List ℕ) (rows : List PaymentRow) {row : PaymentRow}
    → find? (is_keyed id key) rows ≡ some row
    → Holds row.payment (payments_of id rows)
keyed_listed id key [] h = absurd (ground arith)
keyed_listed id key (x ∷ rows) {row} h = elim (Bool-cases (is_keyed id key x)) [
  | inl hit ↦
      let mine : (x.payment.invoice_id == id) ≡ true = ground arith in
      let same : x ≡ row = some_same (rw hit at h) in rw mine (inl (ap (λ y. y.payment) (sym same)))
  | inr miss ↦ elim (Bool-cases (x.payment.invoice_id == id)) [
    | inl mine ↦ rw mine (inr (keyed_listed id key rows (rw miss at h)))
    | inr other ↦ rw other (keyed_listed id key rows (rw miss at h))
  ]
]

module _ (env : Env) (org id : Uuid) (i : PaymentIdempotency) (p : Payment) (db : Db)
    (k : HasKey org id i p db) where
  key_found : found_payment (find? (is_keyed id i.key) db.payments) ≡ ok (some (p, i.request_hash))
  key_found = rw (owned_of_found db org id k.row_found) at k.key_found

  payment_listed : Holds p (listed_payments id db.payments)
  payment_listed = elim (Option-cases (find? (is_keyed id i.key) db.payments)) [
    | inl missing ↦ absurd (let e = rw missing at key_found in ground arith)
    | inr (row, found) ↦
        let e = rw found at key_found in
        let same : row.payment ≡ p = ground arith in
        Holds-sort_rows payment_before p (payments_of id db.payments)
          (rw (← same) (keyed_listed id i.key db.payments found))
  ]

  row_read :
      env.fails invoice_get ≡ false
      → (inv : Invoice) × ◌≡◌ {A = Result Invoice × Db} (get_by_id env org id db) (ok inv, db)
  unfolding get_by_id
  row_read up =
      (record k.row { customer_display_name = display_name db k.row }, rw (up, k.row_found) refl)

  list_read :
      env.fails payment_list ≡ false
      → ◌≡◌ {A = Result (List Payment) × Db}
          (get_by_invoice_id env org id db)
          (ok (listed_payments id db.payments), db)
  unfolding get_by_invoice_id
  list_read up = rw (up, owned_of_found db org id k.row_found) refl

  payments_read :
      env.fails invoice_get ≡ false
      → env.fails payment_list ≡ false
      → ◌≡◌ {A = Result (List Payment) × Db}
          (get_payments env org id db)
          (ok (listed_payments id db.payments), db)
  unfolding get_payments
  payments_read up up' =
      let (inv, e) = row_read up in
      bind_value (get_by_id env org id) (λ inv. get_by_invoice_id env org id) db e ∙ list_read up'

payments_answered :
    (env : Env) (formats : Formats) (r : Incoming (Unit {0})) (user : AuthenticatedUser) (id : Uuid)
    (ps : List Payment) (db : Db)
    → require_authenticated_user r.identity ≡ Checked.passed user
    → parsed_id (env.parse_uuid r.path_id) ≡ Checked.passed id
    → ◌≡◌ {A = Result (List Payment) × Db} (get_payments env user.organisation_id id db) (ok ps, db)
    → handle_get_payments env formats r db
      ≡ (Response.json 200 (map (to_payment_response formats) ps), db)
unfolding handle_get_payments
payments_answered env formats r user id ps db e₁ e₂ e =
    rw (e₁, e₂)
      (serve_value (get_payments env user.organisation_id id) get_payments_failure
        (λ payments. respond 200 (map (to_payment_response formats) payments)) db e)

-- A payment that was answered with 201, or replayed, is among those that its user reads from the same
-- path afterwards: GET of the payments is answered with 200 and a list that holds the very response
-- of the POST, and changes nothing. The two reads of the database succeed, and a date is written
-- without its time of day, which the stored payment has lost.
pub posted_payment_shown :
    (env env' : Env) (formats : Formats) (r : Incoming CreatePaymentHttpRequest)
    (r' : Incoming (Unit {0})) (db db' : Db) (n : ℕ) (m : Bool) (body : PaymentResponse)
    → ShowsDays formats
    → handle_create_payment env formats r db ≡ (Response.json n (m, body), db')
    → r'.identity ≡ r.identity
    → env'.parse_uuid r'.path_id ≡ env.parse_uuid r.path_id
    → env'.fails invoice_get ≡ false
    → env'.fails payment_list ≡ false
    → (l : List PaymentResponse) × (handle_get_payments env' formats r' db'
        ≡ (Response.json 200 l, db'))
      × Holds body l
unfolding new_payment
posted_payment_shown env env' formats r r' db db' n m body daily h who where' up up' =
    elim (Posted-cases env formats r db) [
      | inr (f, mistake, e) ↦ absurd (ground arith)
      | inl p ↦
          let org = p.user.organisation_id in
          let call = create_payment env org p.id p.request in
          let (result, done, shown) =
            serve_json call payment_failure (answer_payment formats) db
              (sym (posted_served env formats r db p) ∙ h) in
          let mid : (call db).1 ≡ db' = ap (λ x. x.1) shown in
          let first : to_payment_response formats (kept_payment result) ≡ body =
            kept_shown formats result daily ∙ ground (arith, shown) in
          let (good, amount, effect) =
            create_payment_ok env org p.id p.request db db' result
              (done ∙ ap (λ d. (ok result, d)) mid) in
          let k =
            effect-HasKey env org p.id (new_payment env p.id p.request)
              (payment_idempotency env p.request) db db' result refl effect in
          let i = payment_idempotency env p.request in
          (
            map (to_payment_response formats) (listed_payments p.id db'.payments),
            payments_answered env' formats r' p.user p.id _ db'
                (ap require_authenticated_user who ∙ p.identified)
                (ap parsed_id where' ∙ p.addressed)
                (payments_read env' org p.id i (kept_payment result) db' k up up'),
            rw (← first) (
                Holds-map (to_payment_response formats) (kept_payment result) _
                  (payment_listed env' org p.id i (kept_payment result) db' k)),
          )
    ]
