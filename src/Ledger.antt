-- ===== src/Ledger.antt =====
-- What holds of the invoices and payments between two service calls: each invoice's columns fit
-- its status, and its payments fit its total.
pub mod Rows
pub mod Send
pub mod Cancel
pub mod Pay
pub mod Create
pub mod Steps
pub mod Transitions
pub mod Failure
pub mod Accept
pub mod Currency
pub mod Issued
pub mod Outcome
use go_invoicing.Base.{ℕ, ◌≡◌, ◌⊎◌, Bool, true, false, not, Option, none, some, List, All}
use go_invoicing.Base.Int.{ℤ, pos, ◌≤ℤ◌, ◌<ℤ◌, InInt64}
use go_invoicing.Base.Text.{Text, is_empty}
use go_invoicing.Invoice.{Status, Invoice}
use go_invoicing.Invoice.Snapshot.{is_valid_currency_code}
use go_invoicing.Store.{Db, PaymentRow}
use go_invoicing.Store.Payments.{paid_sum}
use go_invoicing.Store.Rows.{DistinctIds}

abbrev pub is_some {ℓ} : {A : Type ℓ} → Option A → Bool
is_some none = false
is_some (some a) = true

abbrev pub has_text : Option Text → Bool
has_text none = false
has_text (some t) = not (is_empty t)

abbrev pub has_code : Option Text → Bool
has_code none = false
has_code (some t) = is_valid_currency_code t

-- What an issued invoice shows of its party snapshot: both names and a currency.
abbrev pub IsIssued : Invoice → Type 0
IsIssued i =
    (has_text i.seller.seller_name ≡ true)
    × (has_text i.customer.customer_name ≡ true)
    × (has_code i.currency ≡ true)

-- A Draft has no moment of sending or cancelling and no currency; a Sent or Paid invoice has the
-- moment it was sent, and a Cancelled one its moment, both with the names and the currency. Overdue and any
-- other text is never stored.
abbrev pub CoherentAs : Status → Invoice → Type 0
CoherentAs Status.draft i =
    (is_some i.sent_at ≡ false) × (is_some i.cancelled_at ≡ false) × (is_some i.currency ≡ false)
CoherentAs Status.sent i =
    (is_some i.sent_at ≡ true) × (is_some i.cancelled_at ≡ false) × IsIssued i
CoherentAs Status.paid i =
    (is_some i.sent_at ≡ true) × (is_some i.cancelled_at ≡ false) × IsIssued i
CoherentAs Status.cancelled i = (is_some i.cancelled_at ≡ true) × IsIssued i
CoherentAs Status.overdue i = ⊥
CoherentAs (Status.other t) i = ⊥

abbrev pub IsCoherent : Invoice → Type 0
IsCoherent i = CoherentAs i.status i

-- A Draft or Cancelled invoice has nothing paid, a Sent one nothing or less than its total, and a
-- Paid one its total, which is positive.
abbrev pub AccountedAs : Status → ℤ → ℤ → Type 0
AccountedAs Status.draft total paid = paid ≡ pos 0
AccountedAs Status.sent total paid = (paid ≡ pos 0) ⊎ ((pos 0 ≤ℤ paid) × (paid <ℤ total))
AccountedAs Status.paid total paid = (paid ≡ total) × (pos 0 <ℤ total)
AccountedAs Status.cancelled total paid = paid ≡ pos 0
AccountedAs Status.overdue total paid = ⊥
AccountedAs (Status.other t) total paid = ⊥

abbrev pub IsAccounted : List PaymentRow → Invoice → Type 0
IsAccounted rows i = InInt64 i.total × AccountedAs i.status i.total (paid_sum i.id rows)

pub record IsSound (db : Db) : Type 0 where
  pub distinct : DistinctIds db.invoices
  pub coherent : All IsCoherent db.invoices
  pub accounted : All (IsAccounted db.payments) db.invoices
