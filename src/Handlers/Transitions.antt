-- ===== src/Handlers/Transitions.antt =====
-- The responses of the handlers of Send and Cancel that are errors.
use go_invoicing.Base.{true, false, ◌≡◌, ◌≢◌, ◌∙◌, ◌⊎◌, refl, sym, ap, inl, inr, arith}
use go_invoicing.Errors.{Error, ok, err}
use go_invoicing.Service.Read.Kept.{read_invoice-ReadsOnly}
use go_invoicing.Handlers.Invoices.{
  handle_send, handle_cancel, shown_response, send_failure, cancel_failure, parsed_id, show_again,
}
use go_invoicing.Store.{in_tx_err, Db, Env, M, CommitOutcome}
use go_invoicing.Handlers.TransitionErrors.{
  send-Throws, cancel_invoice-Throws, SnapshotError, SendError, CancelError,
}
use go_invoicing.Service.Send.{send}
use go_invoicing.Service.Cancel.{cancel_invoice}
use go_invoicing.Admin.{Uuid}
use go_invoicing.Invoice.{Invoice}
use go_invoicing.Invoice.Responses.{Formats, InvoiceResponse}
use go_invoicing.Http.{ErrorCode}
use go_invoicing.Handlers.{
  described_failure, Failure, Response, Handler, Incoming, internal_failure, require, serve,
  require_authenticated_user, respond,
}
use go_invoicing.Service.Read.{read_invoice}
use go_invoicing.Handlers.Chains.{require_cases, serve_cases, error_same}
use go_invoicing.Handlers.Posted.{
  IsClientMistake, carries_detail, own_mistake, described_mistake, identity_mistake, id_mistake,
}
use go_invoicing.Handlers.Throws.{Throws}

-- How an error of a service is answered: as a mistake of the client's, or by the general 500, in which
-- case its text has details to hide.
abbrev Answered : (Error → Failure) → Error → Type 0
Answered translate e =
    IsClientMistake (translate e) ⊎ ((carries_detail e ≡ true) × (translate e ≡ internal_failure))

conflict :
    (code : ErrorCode) (e : Error)
    → carries_detail e ≡ false
    → IsClientMistake (described_failure 409 code e)
conflict code e plain = described_mistake 409 code e (omega arith) (omega arith) plain

snapshot_failure-cases :
    (e : Error) → SnapshotError e → Answered send_failure e × Answered cancel_failure e
unfolding send_failure cancel_failure carries_detail
snapshot_failure-cases e SnapshotError.settings_missing =
    (inl (conflict _ _ refl), inl (conflict _ _ refl))
snapshot_failure-cases e SnapshotError.seller_unnamed =
    (inl (conflict _ _ refl), inl (conflict _ _ refl))
snapshot_failure-cases e SnapshotError.customer_unnamed =
    (inl (conflict _ _ refl), inl (conflict _ _ refl))
snapshot_failure-cases e SnapshotError.currency_missing =
    (inl (conflict _ _ refl), inl (conflict _ _ refl))
snapshot_failure-cases e SnapshotError.currency_malformed =
    (inl (conflict _ _ refl), inl (conflict _ _ refl))
snapshot_failure-cases e SnapshotError.data_unavailable = (inr (refl, refl), inr (refl, refl))
snapshot_failure-cases e SnapshotError.not_encoded = (inr (refl, refl), inr (refl, refl))
snapshot_failure-cases e (SnapshotError.database s) = (inr (refl, refl), inr (refl, refl))

send_failure-cases : (e : Error) → SendError e → Answered send_failure e
unfolding send_failure carries_detail
send_failure-cases e SendError.not_found = inl (own_mistake 404 _ (omega arith) (omega arith))
send_failure-cases e SendError.already_sent = inl (conflict _ _ refl)
send_failure-cases e SendError.already_cancelled = inl (conflict _ _ refl)
send_failure-cases e (SendError.snapshot d x) = (snapshot_failure-cases d x).0

cancel_failure-cases : (e : Error) → CancelError e → Answered cancel_failure e
unfolding cancel_failure carries_detail
cancel_failure-cases e CancelError.not_found = inl (own_mistake 404 _ (omega arith) (omega arith))
cancel_failure-cases e CancelError.already_cancelled = inl (conflict _ _ refl)
cancel_failure-cases e CancelError.not_cancellable = inl (conflict _ _ refl)
cancel_failure-cases e (CancelError.snapshot d x) = (snapshot_failure-cases d x).1

-- What is left by a handler that calls a transition and then reads the invoice, when it answers with
-- an error: the transition has not been made, or it has and the read failed.
abbrev pub HasReason : (Uuid → Uuid → M Invoice) → Env → Db → Db → Failure → Type 0
HasReason call after db db' f =
    ((db' ≡ db)
      × (IsClientMistake f
          ⊎ ((f ≡ internal_failure)
              × ((org : Uuid) × (id : Uuid) × (e : Error) × ((call org id db).0 ≡ err e)
                  × (carries_detail e ≡ true)))))
    ⊎ ((f ≡ internal_failure)
        × ((org : Uuid) × (id : Uuid) × (inv : Invoice) × (e : Error) × (call org id db
              ≡ (ok inv, db'))
            × ((read_invoice after org id db').0 ≡ err e)))

module _ (after : Env) (org id : Uuid) where
  -- A read that fails is answered by 500, and leaves the database alone.
  show_again-refused :
      (formats : Formats) (db db' : Db) (f : Failure)
      → show_again after formats org id db ≡ (Response.error f, db')
      → (f ≡ internal_failure)
        × (db' ≡ db)
        × ((e : Error) × ((read_invoice after org id db).0 ≡ err e))
  show_again-refused formats db db' f h =
      elim (serve_cases (read_invoice after org id) (λ e. internal_failure)
        (λ shown. respond 200 (shown_response formats after.now shown)) db) [
          | inl (shown, done, k) ↦ absurd (ground arith)
          | inr (e, failed, k) ↦
              let (same, kept) = error_same (sym k ∙ h) in
              (sym same, sym kept ∙ read_invoice-ReadsOnly after org id db, (e, failed))
        ]

-- Both transitions are made in a transaction, so one that fails writes nothing.
module _ (call : Env → Uuid → Uuid → M Invoice) (translate : Error → Failure) (P : Error → Type 0)
    (throws : (env : Env) (org id : Uuid) → Throws P (call env org id))
    (answers : (e : Error) → P e → Answered translate e)
    (unwritten : (env : Env) (org id : Uuid) (db db' : Db) (e : Error)
      → env.commit ≢ CommitOutcome.unacknowledged
      → call env org id db ≡ (err e, db')
      → db' ≡ db)
    (env after : Env) (formats : Formats) where
  abbrev transition : Uuid → Uuid → Handler InvoiceResponse
  transition org id = serve (call env org id) translate λ inv. show_again after formats org id

  transition_refused :
      (org id : Uuid) (db db' : Db) (f : Failure)
      → env.commit ≢ CommitOutcome.unacknowledged
      → transition org id db ≡ (Response.error f, db')
      → HasReason (call env) after db db' f
  transition_refused org id db db' f c h =
      elim (serve_cases (call env org id) translate (λ inv. show_again after formats org id) db) [
        | inl (inv, done, k) ↦
            let (general, kept, (e, failed)) =
              show_again-refused after org id formats (call env org id db).1 db' f (sym k ∙ h) in
            inr (
              general,
              (
                org,
                id,
                inv,
                e,
                ap (λ r. (r, (call env org id db).1)) done ∙ ap (λ d. (ok inv, d)) (sym kept),
                rw kept failed,
              ),
            )
        | inr (e, failed, k) ↦
            let (same, kept) = error_same (sym k ∙ h) in
            let clean =
              unwritten env org id db db' e c
                (ap (λ r. (r, (call env org id db).1)) failed ∙ ap (λ d. (err e, d)) kept) in
            inl (
              clean,
              elim (answers e ((throws env org id).only db e failed)) [
                | inl mistake ↦ inl (rw (← same) mistake)
                | inr (detail, general) ↦ inr (sym same ∙ general, (org, id, e, failed, detail))
              ],
            )
      ]

  unserved :
      (db db' : Db) (f f' : Failure)
      → IsClientMistake f'
      → ◌≡◌ {A = Response InvoiceResponse × Db} (Response.error f', db) (Response.error f, db')
      → HasReason (call env) after db db' f
  unserved db db' f f' mistake h =
      let (same, kept) = error_same h in inl (sym kept, inl (rw (← same) mistake))

  handled_refused :
      (r : Incoming (Unit {0})) (db db' : Db) (f : Failure)
      → env.commit ≢ CommitOutcome.unacknowledged
      → (require (require_authenticated_user r.identity) λ user.
            require (parsed_id (env.parse_uuid r.path_id)) (transition user.organisation_id))
          db
        ≡ (Response.error f, db')
      → HasReason (call env) after db db' f
  handled_refused r db db' f c h =
      elim (require_cases (require_authenticated_user r.identity)
        (λ user. require (parsed_id (env.parse_uuid r.path_id)) (transition user.organisation_id))
        db) [
          | inr (f', e, k) ↦ unserved db db' f f' (identity_mistake r.identity f' e) (sym k ∙ h)
          | inl (user, e₁, k₁) ↦
              elim (require_cases (parsed_id (env.parse_uuid r.path_id))
                (transition user.organisation_id) db) [
                  | inr (f', e, k) ↦
                      unserved db db' f f' (id_mistake (env.parse_uuid r.path_id) f' e)
                        (sym k ∙ sym k₁ ∙ h)
                  | inl (id, e, k) ↦
                      transition_refused user.organisation_id id db db' f c (sym k ∙ sym k₁ ∙ h)
                ]
        ]

-- The two transitions that a handler makes.
pub data Transition : Type 0 where
  sending cancelling : Transition

abbrev pub call_of : Transition → Env → Uuid → Uuid → M Invoice
call_of Transition.sending = send
call_of Transition.cancelling = cancel_invoice

abbrev pub handler_of :
    Transition → Env → Env → Formats → Incoming (Unit {0}) → Handler InvoiceResponse
handler_of Transition.sending = handle_send
handler_of Transition.cancelling = handle_cancel

-- An error that Send's or Cancel's handler answers with, unless a COMMIT that was done went
-- unacknowledged, has one of two causes. The transition has not been made and the database is as it
-- was: then the status is from 400 to 499 and the message is safe to show, or it is the general 500
-- and the error of the service has a detail to hide. Or the transition has been made and stored, and
-- the read of the invoice for the response failed: then the answer is the general 500.
pub refused_transition :
    (t : Transition) (env after : Env) (formats : Formats) (r : Incoming (Unit {0})) (db db' : Db)
    (f : Failure)
    → env.commit ≢ CommitOutcome.unacknowledged
    → handler_of t env after formats r db ≡ (Response.error f, db')
    → HasReason (call_of t env) after db db' f
unfolding handle_send handle_cancel send cancel_invoice
refused_transition Transition.sending env after formats r db db' f c h =
    handled_refused send send_failure SendError send-Throws send_failure-cases
      (λ env org id db db' e c h. in_tx_err env _ db db' e c h) env after formats r db db' f c h
refused_transition Transition.cancelling env after formats r db db' f c h =
    handled_refused cancel_invoice cancel_failure CancelError cancel_invoice-Throws
      cancel_failure-cases (λ env org id db db' e c h. in_tx_err env _ db db' e c h) env after
      formats r db db' f c h
