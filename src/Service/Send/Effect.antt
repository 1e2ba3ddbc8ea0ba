-- ===== src/Service/Send/Effect.antt =====
-- What Send has done when its transaction's body succeeded.
use go_invoicing.Base.{inl, inr, ◌≡◌, some, arith, update_where}
use go_invoicing.Base.Text.{Text}
use go_invoicing.Errors.{Result, ok, Result-cases}
use go_invoicing.Admin.{Uuid}
use go_invoicing.Invoice.{Status, Invoice, InvoicePartySnapshot, TemplateSnapshot}
use go_invoicing.Invoice.Lifecycle.{mark_sent}
use go_invoicing.Invoice.Lifecycle.Laws.{IsComplete, sent_form, mark_sent_inv}
use go_invoicing.Store.{Db, Env}
use go_invoicing.Store.Effects.{get_for_update_ok}
use go_invoicing.Store.Invoices.{is_row, invoice_row, get_for_update, mark_sent_with_snapshot}
use go_invoicing.Service.Snapshots.{build_party_snapshot, build_template_snapshot}
use go_invoicing.Service.Snapshots.Reads.{
  build_party_snapshot-ReadsOnly, build_template_snapshot-ReadsOnly,
}
use go_invoicing.Service.Send.{send_body, send_locked}

-- The UPDATE of MarkSentWithSnapshot.
abbrev pub written_sent : Env → Invoice → Invoice → Invoice
written_sent env j i = record i {
  status = j.status;
  sent_at = j.sent_at;
  seller = j.seller;
  customer = j.customer;
  currency = j.currency;
  rendered_template_snapshot = j.rendered_template_snapshot;
  updated_at = env.db_now;
}

pub record SendEffect (env : Env) (org id : Uuid) (db : Db) (j : Invoice) (after : Db)
    : Type 0 where
  pub row : Invoice
  pub snapshot : InvoicePartySnapshot
  pub template : TemplateSnapshot
  pub encoded : Text
  pub found : invoice_row db org id ≡ some row
  pub was_draft : row.status ≡ Status.draft
  pub party : (build_party_snapshot env org row.customer_id db).0 ≡ ok snapshot
  pub layout : (build_template_snapshot env org db).0 ≡ ok template
  pub encodes : env.marshal_template template ≡ some encoded
  pub complete : IsComplete snapshot
  pub result : j ≡ sent_form row env.now snapshot encoded
  pub stored :
      after ≡ record db { invoices = update_where (is_row org id) (written_sent env j) db.invoices }

mark_sent_with_snapshot_ok :
    (env : Env) (org id : Uuid) (j : Invoice) (db : Db) {u : Unit {0}}
    → (mark_sent_with_snapshot env org id j db).0 ≡ ok u
    → (mark_sent_with_snapshot env org id j db).1
      ≡ record db { invoices = update_where (is_row org id) (written_sent env j) db.invoices }
unfolding mark_sent_with_snapshot
mark_sent_with_snapshot_ok env org id j db h = ground arith

send_locked_ok :
    (env : Env) (org id : Uuid) (inv : Invoice) (db : Db) {j : Invoice}
    → invoice_row db org id ≡ some inv
    → (send_locked env org id inv db).0 ≡ ok j
    → SendEffect env org id db j (send_locked env org id inv db).1
unfolding send_locked
send_locked_ok env org id inv db f h =
    elim (Result-cases (build_party_snapshot env org inv.customer_id db).0) [
      | inr (e, p) ↦ absurd (ground arith)
      | inl (s, p) ↦
          let p' = build_party_snapshot-ReadsOnly env org inv.customer_id db in
          elim (Result-cases (build_template_snapshot env org db).0) [
            | inr (e, q) ↦ absurd (ground arith)
            | inl (ts, q) ↦
                let q' = build_template_snapshot-ReadsOnly env org db in
                elim (Result-cases (mark_sent env.marshal_template inv env.now s ts)) [
                  | inr (e, r) ↦ absurd (ground arith)
                  | inl (k, r) ↦
                      let (enc, d, c, m, x) =
                        mark_sent_inv env.marshal_template inv env.now s ts r in
                      record {
                        row = inv;
                        snapshot = s;
                        template = ts;
                        encoded = enc;
                        found = f;
                        was_draft = d;
                        party = p;
                        layout = q;
                        encodes = m;
                        complete = c;
                        result = ground arith;
                        stored = ground (arith, mark_sent_with_snapshot_ok env org id k db);
                      }
                ]
          ]
    ]

-- Send's body reads one row, which is a Draft, and writes it back as MarkSent made it.
pub send_body_ok :
    (env : Env) (org id : Uuid) (db : Db) {j : Invoice}
    → (send_body env org id db).0 ≡ ok j
    → SendEffect env org id db j (send_body env org id db).1
unfolding send_body
send_body_ok env org id db h = elim (Result-cases (get_for_update env org id db).0) [
  | inr (e, p) ↦ absurd (ground arith)
  | inl (i, p) ↦
      let (f, same) = get_for_update_ok env org id db p in
      let step : ◌≡◌ {A = Result Invoice × Db} (send_body env org id db)
          (send_locked env org id i db) =
        ground arith in
      rw step (send_locked_ok env org id i db f (rw step at h))
]
