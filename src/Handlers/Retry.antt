-- ===== src/Handlers/Retry.antt =====
-- A payment that is posted again.
use go_invoicing.Base.{inl, inr, Bool, true, ◌≡◌, ◌∙◌, refl, sym, ap, arith}
use go_invoicing.Base.Text.{text_eq, text_eq_refl}
use go_invoicing.Errors.{Result, ok}
use go_invoicing.Invoice.{CreatePaymentRequest}
use go_invoicing.Service.Pay.{CreatePaymentResult, create_payment}
use go_invoicing.Admin.{Uuid}
use go_invoicing.Invoice.Idempotency.{fingerprint_payment_request}
use go_invoicing.Invoice.Responses.{
  Formats, ShowsDays, to_payment_response, PaymentResponse, CreatePaymentHttpRequest,
}
use go_invoicing.Store.{Db, Env}
use go_invoicing.Service.Pay.Kept.{kept_payment, kept_shown}
use go_invoicing.Service.Pay.Replay.{
  IsHealthy, replayed, answer, create_payment_ok, retry_writes_nothing,
}
use go_invoicing.Handlers.{Response, Incoming}
use go_invoicing.Handlers.Chains.{serve_json, serve_value}
use go_invoicing.Handlers.Posted.{Posted, Posted-cases, posted_served}
use go_invoicing.Handlers.Invoices.{
  parsed_id, answer_payment, payment_failure, handle_create_payment,
}

-- The same request, where UUIDs parse alike.
abbrev posted_again :
    (env env' : Env) (r : Incoming CreatePaymentHttpRequest) (p : Posted env r)
    → env'.parse_uuid ≡ env.parse_uuid
    → Posted env' r
posted_again env env' r p parse = record {
  user = p.user;
  id = p.id;
  key = p.key;
  body = p.body;
  request = p.request;
  identified = p.identified;
  addressed = ap (λ f. parsed_id (f r.path_id)) parse ∙ p.addressed;
  keyed = p.keyed;
  decoded = p.decoded;
  dated = p.dated;
}

-- The service's answer to the same request once more.
replayed_again :
    (env env' : Env) (org id : Uuid) (q : CreatePaymentRequest) (db db' : Db)
    (result : CreatePaymentResult)
    → create_payment env org id q db ≡ (ok result, db')
    → IsHealthy env'
    → env'.digest ≡ env.digest
    → ◌≡◌ {A = Result CreatePaymentResult × Db}
        (create_payment env' org id q db')
        (ok (replayed (kept_payment result)), db')
replayed_again env env' org id q db db' result h up digest =
    let (good, amount, effect) = create_payment_ok env org id q db db' result h in
    let same : text_eq (fingerprint_payment_request env.digest q)
          (fingerprint_payment_request env'.digest q)
        ≡ true =
      rw digest (text_eq_refl (fingerprint_payment_request env.digest q)) in
    retry_writes_nothing env env' org id q q db db' result h up refl amount
    ∙ ap (λ b. (answer b (kept_payment result), db')) same

-- A client that has its payment and posts the same request once more, whatever happened to the first
-- response, gets 201 and the same response body again, with the header Idempotent-Replayed, and the
-- database stays as it is. The database calls of the second request succeed, and it is parsed and
-- hashed as the first; a date is written without its time of day, which the stored payment has
-- lost.
pub resent_payment :
    (env env' : Env) (formats : Formats) (r : Incoming CreatePaymentHttpRequest) (db db' : Db)
    (m : Bool) (body : PaymentResponse)
    → ShowsDays formats
    → handle_create_payment env formats r db ≡ (Response.json 201 (m, body), db')
    → IsHealthy env'
    → env'.parse_uuid ≡ env.parse_uuid
    → env'.digest ≡ env.digest
    → handle_create_payment env' formats r db' ≡ (Response.json 201 (true, body), db')
resent_payment env env' formats r db db' m body daily h up parse digest =
    elim (Posted-cases env formats r db) [
      | inr (f, mistake, e) ↦ absurd (ground arith)
      | inl p ↦
          let org = p.user.organisation_id in
          let call = create_payment env org p.id p.request in
          let (result, done, shown) =
            serve_json call payment_failure (answer_payment formats) db
              (sym (posted_served env formats r db p) ∙ h) in
          let mid : (call db).1 ≡ db' = ap (λ x. x.1) shown in
          let first : to_payment_response formats (kept_payment result) ≡ body =
            kept_shown formats result daily ∙ ground (arith, shown) in
          let again =
            replayed_again env env' org p.id p.request db db' result
              (done ∙ ap (λ d. (ok result, d)) mid) up digest in
          posted_served env' formats r db' (posted_again env env' r p parse)
          ∙ serve_value (create_payment env' org p.id p.request) payment_failure
              (answer_payment formats) db' again
          ∙ ap (λ b. (Response.json 201 (true, b), db')) first
    ]
