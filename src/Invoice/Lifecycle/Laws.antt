-- ===== src/Invoice/Lifecycle/Laws.antt =====
-- What MarkSent and Cancel do on every path: guards, captured snapshots, and what stays.
use go_invoicing.Base.{
  sym, refl, [], ◌∷◌, ap, ◌∙◌, ◌↔◌, Option-cases, ◌≡◌, ◌≢◌, ◌⊎◌, inl, inr, true, false, some, arith,
  Bool-cases,
}
use go_invoicing.Base.Int.{ℤ, pos, ◌≤ℤ◌, ◌<ℤ◌}
use go_invoicing.Base.Text.{Text, is_empty}
use go_invoicing.Base.Time.{Time}
use go_invoicing.Errors.{Result-cases, ok, err, invoice_already_sent, invoice_cannot_be_cancelled}
use go_invoicing.Invoice.{Status, Invoice, InvoicePartySnapshot, TemplateSnapshot, is_draft}
use go_invoicing.Invoice.Snapshot.{validate, is_valid_currency_code}
use go_invoicing.Invoice.Lifecycle.{
  Marshal, copy_snapshots, apply_snapshots, mark_sent, check_cancellable, cancel,
  can_accept_payment,
}

-- What makes a snapshot complete.
pub record IsComplete (s : InvoicePartySnapshot) : Type 0 where
  pub seller_named : is_empty s.seller_name ≡ false
  pub customer_named : is_empty s.customer_name ≡ false
  pub currency_code : is_valid_currency_code s.currency ≡ true

pub validate-IsComplete : (s : InvoicePartySnapshot) → validate s ≡ ok tt → IsComplete s
unfolding validate
validate-IsComplete s h = ground arith

-- A snapshot is applied exactly as it was built, only if it is complete and its template encodes.
pub record Captured (marshal : Marshal) (i : Invoice) (s : InvoicePartySnapshot)
    (ts : TemplateSnapshot) (j : Invoice) : Type 0 where
  pub template : Text
  pub encoded : marshal ts ≡ some template
  pub complete : IsComplete s
  pub copied : j ≡ copy_snapshots i s template

pub apply_snapshots_ok :
    (marshal : Marshal) (i : Invoice) (s : InvoicePartySnapshot) (ts : TemplateSnapshot)
    {j : Invoice}
    → apply_snapshots marshal i s ts ≡ ok j
    → Captured marshal i s ts j
unfolding apply_snapshots
apply_snapshots_ok marshal i s ts h = elim (Option-cases (marshal ts)) [
  | inl n ↦ absurd (ground arith)
  | inr (t, q) ↦ record {
    template = t;
    encoded = q;
    complete = validate-IsComplete s (ground arith);
    copied = ground arith;
  }
]

code_not_empty : (c : Text) → is_valid_currency_code c ≡ true → is_empty c ≡ false
unfolding is_valid_currency_code
code_not_empty [] h = cc
code_not_empty (c ∷ s) h = refl

pub validate_complete : (s : InvoicePartySnapshot) → IsComplete s → validate s ≡ ok tt
unfolding validate
validate_complete s c = ground (arith, code_not_empty s.currency c.currency_code)

-- The invoice that MarkSent returns.
abbrev pub sent_form : Invoice → Time → InvoicePartySnapshot → Text → Invoice
sent_form i at s template = record (copy_snapshots i s template) {
  status = Status.sent;
  sent_at = some at;
}

pub draft_of_is_draft : (s : Status) → is_draft s ≡ true → s ≡ Status.draft
draft_of_is_draft Status.draft h = refl
draft_of_is_draft _ h = cc

pub mark_sent_inv :
    (marshal : Marshal) (i : Invoice) (at : Time) (s : InvoicePartySnapshot) (ts : TemplateSnapshot)
    {j : Invoice}
    → mark_sent marshal i at s ts ≡ ok j
    → (template : Text) × (i.status ≡ Status.draft)
      × IsComplete s
      × (marshal ts ≡ some template)
      × (j ≡ sent_form i at s template)
unfolding mark_sent
mark_sent_inv marshal i at s ts h = elim (Bool-cases (is_draft i.status)) [
  | inr n ↦ absurd (ground arith)
  | inl d ↦ elim (Result-cases (apply_snapshots marshal i s ts)) [
    | inr (e, p) ↦ absurd (ground arith)
    | inl (k, p) ↦
        let c = apply_snapshots_ok marshal i s ts p in
        (c.template, draft_of_is_draft i.status d, c.complete, c.encoded, ground arith)
  ]
]

mark_sent_unique :
    (marshal : Marshal) (i : Invoice) (at : Time) (s : InvoicePartySnapshot) (ts : TemplateSnapshot)
    (template : Text) {j : Invoice}
    → marshal ts ≡ some template
    → mark_sent marshal i at s ts ≡ ok j
    → (i.status ≡ Status.draft) × IsComplete s × (j ≡ sent_form i at s template)
mark_sent_unique marshal i at s ts template e h =
    let (t, d, c, m, r) = mark_sent_inv marshal i at s ts h in
    let same : t ≡ template = cc (m, e) in (d, c, r ∙ ap (sent_form i at s) same)

mark_sent_succeeds :
    (marshal : Marshal) (i : Invoice) (at : Time) (s : InvoicePartySnapshot) (ts : TemplateSnapshot)
    (template : Text)
    → marshal ts ≡ some template
    → i.status ≡ Status.draft
    → IsComplete s
    → mark_sent marshal i at s ts ≡ ok (sent_form i at s template)
unfolding mark_sent apply_snapshots
mark_sent_succeeds marshal i at s ts template e d c = ground (arith, validate_complete s c)

-- MarkSent succeeds exactly on a Draft with a complete snapshot whose template encodes: the result is
-- then the same invoice with that snapshot, the encoded template, the status Sent and the moment,
-- and no other change.
pub mark_sent_iff :
    (marshal : Marshal) (i : Invoice) (at : Time) (s : InvoicePartySnapshot) (ts : TemplateSnapshot)
    (template : Text) (j : Invoice)
    → marshal ts ≡ some template
    → (mark_sent marshal i at s ts ≡ ok j)
      ↔ ((i.status ≡ Status.draft) × IsComplete s × (j ≡ sent_form i at s template))
mark_sent_iff marshal i at s ts template j e = (
  λ h. mark_sent_unique marshal i at s ts template e h,
  λ w. mark_sent_succeeds marshal i at s ts template e w.0 w.1 ∙ ap ok (sym w.2),
)

-- What Cancel returns: a draft takes the snapshot that it had none of, a sent invoice keeps its own.
abbrev pub cancelled_form : Invoice → Time → Invoice
cancelled_form i at = record i { status = Status.cancelled; cancelled_at = some at }

-- Cancel succeeds on a Sent invoice exactly if nothing has been paid, and then changes only the
-- status and the moment: the snapshot captured when it was sent is kept, whatever is passed in.
pub cancel-sent :
    (marshal : Marshal) (i : Invoice) (at : Time) (paid : ℤ) (s : InvoicePartySnapshot)
    (ts : TemplateSnapshot)
    → i.status ≡ Status.sent
    → (paid ≤ℤ pos 0 → cancel marshal i at paid s ts ≡ ok (cancelled_form i at))
      × (pos 0 <ℤ paid → cancel marshal i at paid s ts ≡ err invoice_cannot_be_cancelled)
unfolding cancel check_cancellable
cancel-sent marshal i at paid s ts e = (λ h. ground arith, λ h. ground arith)

pub cancel_draft :
    (marshal : Marshal) (i : Invoice) (at : Time) (paid : ℤ) (s : InvoicePartySnapshot)
    (ts : TemplateSnapshot) {j : Invoice}
    → i.status ≡ Status.draft
    → cancel marshal i at paid s ts ≡ ok j
    → (template : Text) × IsComplete s
      × (marshal ts ≡ some template)
      × (paid ≤ℤ pos 0)
      × (j ≡ cancelled_form (copy_snapshots i s template) at)
unfolding cancel check_cancellable
cancel_draft marshal i at paid s ts d h = elim (Result-cases (apply_snapshots marshal i s ts)) [
  | inr (e, p) ↦ absurd (ground arith)
  | inl (k, p) ↦
      let c = apply_snapshots_ok marshal i s ts p in
      (c.template, c.complete, c.encoded, ground arith, ground arith)
]

-- Paid and Cancelled are final: such an invoice cannot be sent or cancelled and takes no payment.
pub final_absorbs :
    (marshal : Marshal) (i : Invoice) (at : Time) (paid : ℤ) (s : InvoicePartySnapshot)
    (ts : TemplateSnapshot)
    → (i.status ≡ Status.paid) ⊎ (i.status ≡ Status.cancelled)
    → (mark_sent marshal i at s ts ≡ err invoice_already_sent)
      × ((j : Invoice) → cancel marshal i at paid s ts ≢ ok j)
      × (can_accept_payment i ≡ false)
unfolding mark_sent cancel check_cancellable can_accept_payment
final_absorbs marshal i at paid s ts h = (ground arith, λ j e. ground arith, ground arith)
