-- ===== src/Invoice/Lifecycle/Dates.antt =====
-- When a sent invoice counts as overdue.
use go_invoicing.Base.{◌<◌, ◌+◌, ◌%◌, ◌≤◌, ◌≡◌, ◌≢◌, ◌↔◌, true, arith}
use go_invoicing.Base.Time.{Time, day_ns, midnight}
use go_invoicing.Invoice.{Status, Invoice}
use go_invoicing.Invoice.Lifecycle.{effective_status, is_past_due_date}

-- A due date is a midnight. It is past exactly from the midnight that ends its day: never at any
-- moment of the day itself, and always from the first moment of the next.
pub is_past_due_date_iff :
    (now due : Time) → due % day_ns ≡ 0 → (is_past_due_date now due ≡ true) ↔ (due + day_ns ≤ now)
unfolding is_past_due_date midnight
is_past_due_date_iff now due h = (λ e. ground arith, λ e. ground arith)

-- Only a persisted Sent invoice is ever shown otherwise than it is persisted: it is shown Overdue
-- exactly from the day after its due date, and Sent until then; every other status is shown as it is.
pub effective_status_cases :
    (i : Invoice) (now : Time)
    → i.due_date % day_ns ≡ 0
    → (i.status ≢ Status.sent → effective_status i now ≡ i.status)
      × (i.status ≡ Status.sent
          → (i.due_date + day_ns ≤ now → effective_status i now ≡ Status.overdue)
            × (now < i.due_date + day_ns → effective_status i now ≡ Status.sent))
unfolding effective_status is_past_due_date midnight
effective_status_cases i now h =
    (λ n. ground arith, λ e. (λ late. ground arith, λ early. ground arith))
