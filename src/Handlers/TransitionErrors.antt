-- ===== src/Handlers/TransitionErrors.antt =====
-- Which errors Send and Cancel can return, on every path.
use go_invoicing.Base.{not, inl, inr, Bool-cases, if◌then◌else◌}
use go_invoicing.Base.Int.{ℤ}
use go_invoicing.Base.Text.{is_empty}
use go_invoicing.Base.Time.{Time}
use go_invoicing.Errors.{Error, ok, Site, internal}
use go_invoicing.Admin.{Uuid}
use go_invoicing.Invoice.{
  Invoice, Status, InvoicePartySnapshot, TemplateSnapshot, is_draft, is_cancelled,
}
use go_invoicing.Invoice.Snapshot.{validate, is_valid_currency_code}
use go_invoicing.Invoice.Lifecycle.{
  Marshal, apply_snapshots, mark_sent, cancellable, check_cancellable, cancel,
}
use go_invoicing.Store.{Env, M}
use go_invoicing.Store.Parties.{get_organisation, get_customer, get_settings, get_billing_address}
use go_invoicing.Store.Templates.{get_default}
use go_invoicing.Service.Snapshots.{
  unavailable, build_party_snapshot, build_template_snapshot, map_err, settings_failure,
}
use go_invoicing.Service.Send.{send, send_body, send_locked}
use go_invoicing.Service.Cancel.{cancel_invoice, cancel_body, cancel_locked, cancel_snapshots}
use go_invoicing.Handlers.Throws.{
  err-Fails, Throws, Fails, bind-Throws, pure-Throws, throw_if-Throws, lift-Throws, map_err-Throws,
  query-Throws, in_tx-Throws, fail_if-Fails, or_fail-Fails, or_fail-Throws, ok-Fails, then-Fails,
}
use go_invoicing.Handlers.Statements.{
  get_for_update-Throws, get_total_paid-Throws, mark_sent_with_snapshot-Throws,
  mark_cancelled-Throws,
}

-- What taking the snapshots, and the database, can return as an error.
pub data SnapshotError : Error → Type 0 where
  settings_missing : SnapshotError Error.invoice_settings_not_found
  seller_unnamed : SnapshotError Error.snapshot_seller_name_required
  customer_unnamed : SnapshotError Error.snapshot_customer_name_required
  currency_missing : SnapshotError Error.snapshot_currency_required
  currency_malformed : SnapshotError Error.snapshot_currency_invalid
  data_unavailable : SnapshotError Error.invoice_snapshot_data_unavailable
  not_encoded : SnapshotError Error.template_snapshot_marshal
  database : (s : Site) → SnapshotError (internal s)

-- What Send can return as an error.
pub data SendError : Error → Type 0 where
  not_found : SendError Error.invoice_not_found
  already_sent : SendError Error.invoice_already_sent
  already_cancelled : SendError Error.invoice_already_cancelled
  snapshot : (e : Error) → SnapshotError e → SendError e

-- What Cancel can return as an error.
pub data CancelError : Error → Type 0 where
  not_found : CancelError Error.invoice_not_found
  already_cancelled : CancelError Error.invoice_already_cancelled
  not_cancellable : CancelError Error.invoice_cannot_be_cancelled
  snapshot : (e : Error) → SnapshotError e → CancelError e

module _ (P : Error → Type 0) (snapshot : (e : Error) → SnapshotError e → P e) where
  unavailable-Throws {ℓ} : {A : Type ℓ} (m : M A) → Throws P (map_err unavailable m)
  unavailable-Throws m =
      map_err-Throws P unavailable m (λ db e h. snapshot _ SnapshotError.data_unavailable)

  settings-Throws :
      (env : Env) (org : Uuid) → Throws P (map_err settings_failure (get_settings env org))
  unfolding get_settings
  settings-Throws env org =
      let errors =
        query-Throws (λ e. P (settings_failure e)) env _ _
          (snapshot _ SnapshotError.data_unavailable)
          (λ db.
            or_fail-Throws (λ e. P (settings_failure e)) _ _
              (snapshot _ SnapshotError.settings_missing)) in
      map_err-Throws P settings_failure (get_settings env org) errors.only

  build_party_snapshot-Throws :
      (env : Env) (org c : Uuid) → Throws P (build_party_snapshot env org c)
  unfolding build_party_snapshot
  build_party_snapshot-Throws env org c =
      bind-Throws P _ _ (unavailable-Throws (get_organisation env org)) λ o.
        bind-Throws P _ _ (unavailable-Throws (get_customer env org c)) λ c'.
          bind-Throws P _ _ (settings-Throws env org) λ s.
            bind-Throws P _ _ (unavailable-Throws (get_billing_address env org c))
              λ a. pure-Throws P _

  build_template_snapshot-Throws :
      (env : Env) (org : Uuid) → Throws P (build_template_snapshot env org)
  unfolding build_template_snapshot
  build_template_snapshot-Throws env org =
      bind-Throws P _ _ (unavailable-Throws (get_default env org)) λ t. pure-Throws P _

  validate-Fails : (s : InvoicePartySnapshot) → Fails P (validate s)
  unfolding validate
  validate-Fails s =
      then-Fails P _ _
        (fail_if-Fails P (is_empty s.seller_name) _ (snapshot _ SnapshotError.seller_unnamed))
        λ u.
          then-Fails P _ _
            (fail_if-Fails P (is_empty s.customer_name) _
              (snapshot _ SnapshotError.customer_unnamed))
            λ u.
              then-Fails P _ _
                (fail_if-Fails P (is_empty s.currency) _
                  (snapshot _ SnapshotError.currency_missing))
                λ u.
                  fail_if-Fails P (not (is_valid_currency_code s.currency)) _
                    (snapshot _ SnapshotError.currency_malformed)

  apply_snapshots-Fails :
      (marshal : Marshal) (i : Invoice) (s : InvoicePartySnapshot) (t : TemplateSnapshot)
      → Fails P (apply_snapshots marshal i s t)
  unfolding apply_snapshots
  apply_snapshots-Fails marshal i s t = then-Fails P _ _ (validate-Fails s) λ u.
      then-Fails P _ _ (or_fail-Fails P (marshal t) _ (snapshot _ SnapshotError.not_encoded))
        λ encoded. ok-Fails P _

module _ (env : Env) (org id : Uuid) where
  send_database : (s : Site) → SendError (internal s)
  send_database s = SendError.snapshot _ (SnapshotError.database s)

  mark_sent-Fails :
      (i : Invoice) (now : Time) (s : InvoicePartySnapshot) (t : TemplateSnapshot)
      → Fails SendError (mark_sent env.marshal_template i now s t)
  unfolding mark_sent
  mark_sent-Fails i now s t =
      then-Fails SendError _ _
        (fail_if-Fails SendError (not (is_draft i.status)) _ SendError.already_sent)
        λ u.
          then-Fails SendError _ _
            (apply_snapshots-Fails SendError SendError.snapshot env.marshal_template i s t)
            λ i'. ok-Fails SendError _

  send_locked-Throws : (i : Invoice) → Throws SendError (send_locked env org id i)
  unfolding send_locked
  send_locked-Throws i =
      bind-Throws SendError _ _
        (throw_if-Throws SendError (is_cancelled i.status) _ SendError.already_cancelled)
        λ u.
          bind-Throws SendError _ _
            (throw_if-Throws SendError (not (is_draft i.status)) _ SendError.already_sent)
            λ u.
              bind-Throws SendError _ _
                (build_party_snapshot-Throws SendError SendError.snapshot env org i.customer_id)
                λ s.
                  bind-Throws SendError _ _
                    (build_template_snapshot-Throws SendError SendError.snapshot env org)
                    λ t.
                      bind-Throws SendError _ _
                        (lift-Throws SendError _ (mark_sent-Fails i env.now s t).only)
                        λ i'.
                          bind-Throws SendError _ _
                            (mark_sent_with_snapshot-Throws SendError SendError.not_found
                              send_database env org id i')
                            λ u. pure-Throws SendError i'

  pub send-Throws : Throws SendError (send env org id)
  unfolding send send_body
  send-Throws =
      in_tx-Throws SendError env (send_database _) (send_database _) (send_body env org id) (
        bind-Throws SendError _ _
          (get_for_update-Throws SendError SendError.not_found send_database env org id)
          send_locked-Throws)

  cancel_database : (s : Site) → CancelError (internal s)
  cancel_database s = CancelError.snapshot _ (SnapshotError.database s)

  cancellable-Fails : (s : Status) (paid : ℤ) → Fails CancelError (cancellable s paid)
  cancellable-Fails Status.draft paid = fail_if-Fails CancelError _ _ CancelError.not_cancellable
  cancellable-Fails Status.sent paid = fail_if-Fails CancelError _ _ CancelError.not_cancellable
  cancellable-Fails Status.paid paid = err-Fails CancelError _ _ CancelError.not_cancellable
  cancellable-Fails Status.overdue paid = err-Fails CancelError _ _ CancelError.not_cancellable
  cancellable-Fails Status.cancelled paid = err-Fails CancelError _ _ CancelError.already_cancelled
  cancellable-Fails (Status.other t) paid = err-Fails CancelError _ _ CancelError.not_cancellable

  check_cancellable-Fails : (i : Invoice) (paid : ℤ) → Fails CancelError (check_cancellable i paid)
  unfolding check_cancellable
  check_cancellable-Fails i paid = cancellable-Fails i.status paid

  snapshots-Fails :
      (i : Invoice) (s : InvoicePartySnapshot) (t : TemplateSnapshot)
      → Fails CancelError
          (if is_draft i.status then apply_snapshots env.marshal_template i s t else ok i)
  snapshots-Fails i s t = elim (Bool-cases (is_draft i.status)) [
    | inl draft ↦
        rw draft (apply_snapshots-Fails CancelError CancelError.snapshot env.marshal_template i s t)
    | inr issued ↦ rw issued (ok-Fails CancelError i)
  ]

  cancel-Fails :
      (i : Invoice) (now : Time) (paid : ℤ) (s : InvoicePartySnapshot) (t : TemplateSnapshot)
      → Fails CancelError (cancel env.marshal_template i now paid s t)
  unfolding cancel
  cancel-Fails i now paid s t =
      then-Fails CancelError _ _ (check_cancellable-Fails i paid)
        λ u. then-Fails CancelError _ _ (snapshots-Fails i s t) λ i'. ok-Fails CancelError _

  cancel_snapshots-Throws : (i : Invoice) → Throws CancelError (cancel_snapshots env org i)
  unfolding cancel_snapshots
  cancel_snapshots-Throws i = elim (Bool-cases (is_draft i.status)) [
    | inl draft ↦ rw draft (
        bind-Throws CancelError _ _
          (build_party_snapshot-Throws CancelError CancelError.snapshot env org i.customer_id)
          λ s.
            bind-Throws CancelError _ _
              (build_template_snapshot-Throws CancelError CancelError.snapshot env org)
              λ t. pure-Throws CancelError (s, t))
    | inr issued ↦ rw issued (pure-Throws CancelError _)
  ]

  cancel_locked-Throws :
      (i : Invoice) (paid : ℤ) → Throws CancelError (cancel_locked env org id i paid)
  unfolding cancel_locked
  cancel_locked-Throws i paid =
      bind-Throws CancelError _ _ (lift-Throws CancelError _ (check_cancellable-Fails i paid).only)
        λ u. bind-Throws CancelError _ _ (cancel_snapshots-Throws i) λ st.
          bind-Throws CancelError _ _
            (lift-Throws CancelError _ (cancel-Fails i env.now paid st.0 st.1).only)
            λ i'.
              bind-Throws CancelError _ _
                (mark_cancelled-Throws CancelError CancelError.not_found cancel_database env org id
                  i')
                λ u. pure-Throws CancelError i'

  pub cancel_invoice-Throws : Throws CancelError (cancel_invoice env org id)
  unfolding cancel_invoice cancel_body
  cancel_invoice-Throws =
      in_tx-Throws CancelError env (cancel_database _) (cancel_database _) (cancel_body env org id)
        (bind-Throws CancelError _ _
          (get_for_update-Throws CancelError CancelError.not_found cancel_database env org id)
          λ i.
            bind-Throws CancelError _ _
              (get_total_paid-Throws CancelError CancelError.not_found cancel_database env org id)
              λ paid. cancel_locked-Throws i paid)
