-- ===== src/Service/Cancel/Effect.antt =====
-- What Cancel has done when its transaction's body succeeded.
use go_invoicing.Base.{◌≡◌, ◌⊎◌, inl, inr, refl, some, update_where, arith, Bool-cases}
use go_invoicing.Base.Int.{ℤ, pos, ◌≤ℤ◌}
use go_invoicing.Base.Text.{Text}
use go_invoicing.Errors.{Result, ok, Result-cases}
use go_invoicing.Admin.{Uuid}
use go_invoicing.Invoice.{Status, Invoice, InvoicePartySnapshot, TemplateSnapshot, is_draft}
use go_invoicing.Invoice.Lifecycle.{copy_snapshots, check_cancellable, cancel}
use go_invoicing.Invoice.Lifecycle.Laws.{IsComplete, cancelled_form, cancel_draft, cancel-sent}
use go_invoicing.Store.{Db, Env}
use go_invoicing.Store.Laws.{ReadsOnly}
use go_invoicing.Store.Invoices.{is_row, invoice_row, get_for_update}
use go_invoicing.Store.Payments.{get_total_paid_by_invoice_id}
use go_invoicing.Store.Effects.{
  get_for_update_ok, get_total_paid_ok, mark_cancelled_ok, written_cancelled,
}
use go_invoicing.Service.Snapshots.{build_party_snapshot, build_template_snapshot}
use go_invoicing.Service.Snapshots.Reads.{
  build_party_snapshot-ReadsOnly, build_template_snapshot-ReadsOnly,
}
use go_invoicing.Service.Cancel.{Snapshots, cancel_snapshots, cancel_locked, cancel_body}
use go_invoicing.Service.Pay.Effect.{total_paid}

-- The invoice that Cancel made of the row: a Draft took a snapshot, a Sent one kept its own.
pub data Cancelled (env : Env) (org : Uuid) (db : Db) (row j : Invoice) : Type 0 where
  from_draft :
      (s : InvoicePartySnapshot) (ts : TemplateSnapshot) (encoded : Text)
      → row.status ≡ Status.draft
      → (build_party_snapshot env org row.customer_id db).0 ≡ ok s
      → (build_template_snapshot env org db).0 ≡ ok ts
      → IsComplete s
      → env.marshal_template ts ≡ some encoded
      → j ≡ cancelled_form (copy_snapshots row s encoded) env.now
      → Cancelled env org db row j
  from_sent : row.status ≡ Status.sent → j ≡ cancelled_form row env.now → Cancelled env org db row j

pub record CancelEffect (env : Env) (org id : Uuid) (db : Db) (j : Invoice) (after : Db)
    : Type 0 where
  pub row : Invoice
  pub found : invoice_row db org id ≡ some row
  pub unpaid : total_paid db org id ≤ℤ pos 0
  pub made : Cancelled env org db row j
  pub stored :
      after
      ≡ record db { invoices = update_where (is_row org id) (written_cancelled env j) db.invoices }

cancel_snapshots-ReadsOnly :
    (env : Env) (org : Uuid) (i : Invoice) → ReadsOnly (cancel_snapshots env org i)
unfolding cancel_snapshots
cancel_snapshots-ReadsOnly env org i db = elim (Bool-cases (is_draft i.status)) [
  | inr no' ↦ rw no' refl
  | inl yes' ↦ rw yes' (
      ground (
        arith,
        build_party_snapshot-ReadsOnly env org i.customer_id db,
        build_template_snapshot-ReadsOnly env org db,
      ))
]

-- The two snapshots of a Draft are those that the database gives.
drafted :
    (env : Env) (org : Uuid) (i : Invoice) (db : Db) {ss : Snapshots}
    → i.status ≡ Status.draft
    → (cancel_snapshots env org i db).0 ≡ ok ss
    → ((build_party_snapshot env org i.customer_id db).0 ≡ ok ss.0)
      × ((build_template_snapshot env org db).0 ≡ ok ss.1)
unfolding cancel_snapshots
drafted env org i db {ss} d h =
    let same = build_party_snapshot-ReadsOnly env org i.customer_id db in
    elim (Result-cases (build_party_snapshot env org i.customer_id db).0) [
      | inr (e, p) ↦ absurd (ground arith)
      | inl (s, p) ↦ elim (Result-cases (build_template_snapshot env org db).0) [
        | inr (e, q) ↦ absurd (ground arith)
        | inl (t, q) ↦ ground arith
      ]
    ]

unpaid_of_cancel : (i : Invoice) (n : ℤ) → check_cancellable i n ≡ ok tt → n ≤ℤ pos 0
unfolding check_cancellable
unpaid_of_cancel i n h = ground arith

cancellable_cases :
    (i : Invoice) (n : ℤ)
    → check_cancellable i n ≡ ok tt
    → (i.status ≡ Status.draft) ⊎ (i.status ≡ Status.sent)
unfolding check_cancellable
cancellable_cases i n h = ground arith

Cancelled-cases :
    (env : Env) (org : Uuid) (db : Db) (i j : Invoice) (n : ℤ) (s : InvoicePartySnapshot)
    (ts : TemplateSnapshot)
    → (cancel_snapshots env org i db).0 ≡ ok (s, ts)
    → check_cancellable i n ≡ ok tt
    → cancel env.marshal_template i env.now n s ts ≡ ok j
    → Cancelled env org db i j
Cancelled-cases env org db i j n s ts q c h = elim (cancellable_cases i n c) [
  | inl d ↦
      let (enc, comp, m, u, e) = cancel_draft env.marshal_template i env.now n s ts d h in
      let (party, chosen) = drafted env org i db d q in from_draft s ts enc d party chosen comp m e
  | inr d ↦
      let e = (cancel-sent env.marshal_template i env.now n s ts d).0 (unpaid_of_cancel i n c) in
      from_sent d (cc (e, h))
]

cancel_locked_ok :
    (env : Env) (org id : Uuid) (inv : Invoice) (n : ℤ) (db : Db) {j : Invoice}
    → invoice_row db org id ≡ some inv
    → n ≡ total_paid db org id
    → (cancel_locked env org id inv n db).0 ≡ ok j
    → CancelEffect env org id db j (cancel_locked env org id inv n db).1
unfolding cancel_locked
cancel_locked_ok env org id inv n db {j} f t h = elim (Result-cases (check_cancellable inv n)) [
  | inr (e, p) ↦ absurd (ground arith)
  | inl (u, p) ↦ elim (Result-cases (cancel_snapshots env org inv db).0) [
    | inr (e, q) ↦ absurd (ground arith)
    | inl (ss, q) ↦
        let same = cancel_snapshots-ReadsOnly env org inv db in
        elim (Result-cases (cancel env.marshal_template inv env.now n ss.0 ss.1)) [
          | inr (e, r) ↦ absurd (ground arith)
          | inl (k, r) ↦
              let e : j ≡ k = ground arith in
              record {
                row = inv;
                found = f;
                unpaid = rw (← t) (unpaid_of_cancel inv n p);
                made = rw e (Cancelled-cases env org db inv k n ss.0 ss.1 q p r);
                stored = rw e (ground (arith, mark_cancelled_ok env org id k db));
              }
        ]
  ]
]

pub cancel_body_ok :
    (env : Env) (org id : Uuid) (db : Db) {j : Invoice}
    → (cancel_body env org id db).0 ≡ ok j
    → CancelEffect env org id db j (cancel_body env org id db).1
unfolding cancel_body
cancel_body_ok env org id db h = elim (Result-cases (get_for_update env org id db).0) [
  | inr (e, p) ↦ absurd (ground arith)
  | inl (i, p) ↦
      let (f, same) = get_for_update_ok env org id db p in
      elim (Result-cases (get_total_paid_by_invoice_id env org id db).0) [
        | inr (e, q) ↦ absurd (ground arith)
        | inl (n, q) ↦
            let (t, range, same') = get_total_paid_ok env org id db q in
            let step : ◌≡◌ {A = Result Invoice × Db} (cancel_body env org id db)
                (cancel_locked env org id i n db) =
              ground arith in
            rw step (cancel_locked_ok env org id i n db f t (rw step at h))
      ]
]
