-- ===== src/Handlers/Creation.antt =====
-- The responses of Create's handler that are errors.
use go_invoicing.Base.{false, ◌≡◌, ◌≢◌, ◌∙◌, ◌⊎◌, refl, sym, ap, inl, inr, arith}
use go_invoicing.Base.Int.{pos}
use go_invoicing.Errors.{Error, err}
use go_invoicing.Admin.{Uuid}
use go_invoicing.Http.{ErrorCode}
use go_invoicing.Invoice.{CreateInvoiceRequest}
use go_invoicing.Invoice.Responses.{Formats, InvoiceResponse, to_invoice_response}
use go_invoicing.Store.{Db, Env, CommitOutcome}
use go_invoicing.Service.Create.{create}
use go_invoicing.Ledger.Failure.{create_failed}
use go_invoicing.Handlers.{
  Failure, Response, Handler, Incoming, internal_failure, described_failure, require, serve,
  respond, require_authenticated_user, decode_json,
}
use go_invoicing.Handlers.Chains.{require_cases, serve_cases, error_same}
use go_invoicing.Handlers.Invoices.{create_failure, handle_create}
use go_invoicing.Handlers.Posted.{
  IsClientMistake, carries_detail, described_mistake, identity_mistake, body_mistake,
}
use go_invoicing.Handlers.RequestErrors.{RequestError}
use go_invoicing.Handlers.CreateErrors.{CreateError, ServerFault, service-Throws}

bad_request :
    (e : Error)
    → carries_detail e ≡ false
    → IsClientMistake (described_failure 400 ErrorCode.validation_failed e)
bad_request e plain = described_mistake 400 _ e (omega arith) (omega arith) plain

request_failure : (e : Error) → RequestError e → IsClientMistake (create_failure e)
unfolding create_failure carries_detail
request_failure e RequestError.customer_id_required = bad_request _ refl
request_failure e RequestError.customer_id_invalid = bad_request _ refl
request_failure e RequestError.no_lines = bad_request _ refl
request_failure e RequestError.issue_date_required = bad_request _ refl
request_failure e RequestError.issue_date_invalid = bad_request _ refl
request_failure e RequestError.due_date_required = bad_request _ refl
request_failure e RequestError.due_date_invalid = bad_request _ refl
request_failure e RequestError.due_date_before_issue_date = bad_request _ refl
request_failure e RequestError.description_required = bad_request _ refl
request_failure e RequestError.quantity_invalid = bad_request _ refl
request_failure e RequestError.unit_price_negative = bad_request _ refl
request_failure e RequestError.vat_rate_negative = bad_request _ refl
request_failure e RequestError.quantity_unit_too_long = bad_request _ refl
request_failure e RequestError.product_id_invalid = bad_request _ refl

server_failure : (e : Error) → ServerFault e → create_failure e ≡ internal_failure
unfolding create_failure
server_failure e ServerFault.organisation_missing = refl
server_failure e ServerFault.settings_missing = refl
server_failure e ServerFault.settings_gone = refl
server_failure e (ServerFault.database s) = refl

-- An error of Create is answered as a mistake of the client's, or is a fault of the server.
create_failure-cases :
    (e : Error)
    → CreateError e
    → IsClientMistake (create_failure e) ⊎ (ServerFault e × (create_failure e ≡ internal_failure))
unfolding create_failure carries_detail
create_failure-cases e (CreateError.request d x) = inl (request_failure d x)
create_failure-cases e CreateError.customer_missing =
    inl (described_mistake 404 _ _ (omega arith) (omega arith) refl)
create_failure-cases e CreateError.product_missing =
    inl (described_mistake 404 _ _ (omega arith) (omega arith) refl)
create_failure-cases e CreateError.customer_inactive =
    inl (described_mistake 409 _ _ (omega arith) (omega arith) refl)
create_failure-cases e CreateError.vat_not_permitted = inl (bad_request _ refl)
create_failure-cases e (CreateError.server d x) = inr (x, server_failure d x)

-- Create met a failure of the database, or did not find the organisation or its settings.
abbrev pub ServerFailed : Env → Db → Type 0
ServerFailed env db =
    (org : Uuid) × (q : CreateInvoiceRequest) × (e : Error) × ((create env org q db).0 ≡ err e)
    × ServerFault e

abbrev created : Env → Env → Formats → Uuid → CreateInvoiceRequest → Handler InvoiceResponse
created env after formats org q = serve (create env org q) create_failure λ (inv, lines, currency).
    respond 201 (to_invoice_response formats inv lines (pos 0) currency after.now)

module _ (env after : Env) (formats : Formats) (db db' : Db) (f : Failure) where
  answered_alike :
      (f' : Failure)
      → IsClientMistake f'
      → ◌≡◌ {A = Response InvoiceResponse × Db} (Response.error f', db) (Response.error f, db')
      → (db' ≡ db) × (IsClientMistake f ⊎ ((f ≡ internal_failure) × ServerFailed env db))
  answered_alike f' mistake h =
      let (same, kept) = error_same h in (sym kept, inl (rw (← same) mistake))

  created_refused :
      (org : Uuid) (q : CreateInvoiceRequest)
      → env.commit ≢ CommitOutcome.unacknowledged
      → created env after formats org q db ≡ (Response.error f, db')
      → (db' ≡ db) × (IsClientMistake f ⊎ ((f ≡ internal_failure) × ServerFailed env db))
  created_refused org q c h =
      elim (serve_cases (create env org q) create_failure
        (λ (inv, lines, currency).
          respond 201 (to_invoice_response formats inv lines (pos 0) currency after.now))
        db) [
          | inl (result, done, k) ↦ absurd (ground arith)
          | inr (e, failed, k) ↦
              let (same, kept) = error_same (sym k ∙ h) in
              let clean =
                create_failed env org q db c e db'
                  (ap (λ r. (r, (create env org q db).1)) failed ∙ ap (λ d. (err e, d)) kept) in
              (
                clean,
                elim (create_failure-cases e ((service-Throws env org q).only db e failed)) [
                  | inl mistake ↦ inl (rw (← same) mistake)
                  | inr (fault, general) ↦ inr (sym same ∙ general, (org, q, e, failed, fault))
                ],
              )
        ]

-- An invoice that is answered with an error has not been created: the database is as it was, the
-- numbering included, unless a COMMIT that was done went unacknowledged. The error has a status from
-- 400 to 499 and a message that is safe to show, or it is the general 500, and a call of the database
-- failed, as it does too for a value that its column does not hold, or found no row of the
-- organisation or of its settings.
pub refused_invoice :
    (env after : Env) (formats : Formats) (r : Incoming CreateInvoiceRequest) (db db' : Db)
    (f : Failure)
    → env.commit ≢ CommitOutcome.unacknowledged
    → handle_create env after formats r db ≡ (Response.error f, db')
    → (db' ≡ db) × (IsClientMistake f ⊎ ((f ≡ internal_failure) × ServerFailed env db))
unfolding handle_create
refused_invoice env after formats r db db' f c h =
    elim (require_cases (require_authenticated_user r.identity)
      (λ user.
        require (decode_json r.media_type r.body) (created env after formats user.organisation_id))
      db) [
        | inr (f', e, k) ↦
            answered_alike env after formats db db' f f' (identity_mistake r.identity f' e)
              (sym k ∙ h)
        | inl (user, e₁, k₁) ↦
            elim (require_cases (decode_json r.media_type r.body)
              (created env after formats user.organisation_id) db) [
                | inr (f', e, k) ↦
                    answered_alike env after formats db db' f f'
                      (body_mistake r.media_type r.body f' e) (sym k ∙ sym k₁ ∙ h)
                | inl (q, e, k) ↦
                    created_refused env after formats db db' f user.organisation_id q c
                      (sym k ∙ sym k₁ ∙ h)
              ]
      ]
