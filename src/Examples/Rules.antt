-- ===== src/Examples/Rules.antt =====
-- The theorems on statuses, dates, currencies, pages and amounts, at concrete invoices.
use go_invoicing.Store.{Db}
use go_invoicing.Base.{
  ℕ, zero, suc, ◌≡◌, ◌↔◌, ◌%◌, refl, true, none, some, [], ◌∷◌, inl, inr, arith,
}
use go_invoicing.Base.Int.{pos, ◌+ℤ◌, ◌-ℤ◌, wrap64, InInt64}
use go_invoicing.Base.Float.{Float64, FloatOps}
use go_invoicing.Base.Text.{codes}
use go_invoicing.Base.Time.{midnight}
use go_invoicing.Invoice.{Status, Line, Invoice}
use go_invoicing.Invoice.Calculation.{sum_invoice_totals}
use go_invoicing.Invoice.Calculation.Laws.{sum_by, sum_invoice_totals_exact}
use go_invoicing.Invoice.Lifecycle.{copy_snapshots, effective_status}
use mathlib.Core.List.{Perm}
use go_invoicing.Store.Paging.{visit}
use go_invoicing.Store.Listing.{matching, InvoiceListFilter, matches_status, matches, page}
use go_invoicing.Service.Read.Laws.{matches_status_iff}
use go_invoicing.Service.Read.Pages.{IsWanted, pages_cover}
use go_invoicing.Store.Paging.Order.{IsOrdering, Reordered}
use go_invoicing.Examples.Data.{env, db, draft_invoice, sent_invoice}

matches_status_iff_example :
    (matches_status (some Status.overdue) (midnight env.now) sent_invoice ≡ true)
    ↔ (effective_status sent_invoice env.now ≡ Status.overdue)
unfolding copy_snapshots
matches_status_iff_example =
    matches_status_iff Status.overdue env.now sent_invoice (inl refl) (inr (inl refl))

abbrev overdue_filter : InvoiceListFilter
overdue_filter = record {
  status = some Status.overdue;
  customer_id = none;
  search = [];
  issue_date_from = none;
  issue_date_to = none;
  due_date_from = none;
  due_date_to = none;
  sort = codes "dueDate";
  order = codes "asc";
  limit = 50;
  offset = 0;
}

abbrev every_invoice : InvoiceListFilter
every_invoice = record overdue_filter { status = none; limit = 2 }

collates : IsOrdering env.collates_before
collates = record {
  asymmetric = λ x y h. absurd (ground arith);
  splits = λ x y z h. absurd (ground arith);
}

-- The first request meets the rows in another order.
abbrev shuffled : ℕ → Db
shuffled zero = record db { invoices = sent_invoice ∷ draft_invoice ∷ [] }
shuffled (suc n) = db

shuffled-Reordered : (o : ℕ) → Reordered db.invoices (shuffled o).invoices
shuffled-Reordered zero = Reordered.swapped
shuffled-Reordered (suc n) = Reordered.same

pages_cover_example :
    Perm
      (visit
        (λ o. page env 1 (record every_invoice { offset = o }) (midnight env.now) (shuffled o))
        2
        0
        2)
      (matching env 1 every_invoice (midnight env.now) db)
    × ((i : Invoice)
        → (matches env 1 every_invoice (midnight env.now) i ≡ true)
          ↔ IsWanted env 1 every_invoice (midnight env.now) i)
unfolding matches matches_status copy_snapshots
pages_cover_example =
    pages_cover env 1 every_invoice (midnight env.now) db collates
      ((λ e. absurd (ground arith), tt), (tt, tt)) 2 shuffled shuffled-Reordered (omega arith)

abbrev line : Line
line = record {
  id = 1;
  invoice_id = 100;
  product_id = none;
  description = codes "Work";
  quantity = 2;
  quantity_unit = none;
  unit_price = pos 50;
  vat_rate = 20;
  vat_amount = pos 20;
  total = pos 120;
  created_at = 0;
  updated_at = 0;
}

sum_invoice_totals_exact_example :
    let ls = line ∷ line ∷ [] in
    let t = sum_invoice_totals ls in
    (t.subtotal ≡ wrap64 (pos 0 +ℤ sum_by (λ l. l.total -ℤ l.vat_amount) ls))
    × (t.vat_total ≡ wrap64 (pos 0 +ℤ sum_by (λ l. l.vat_amount) ls))
    × (t.total ≡ wrap64 (pos 0 +ℤ sum_by (λ l. l.total) ls))
sum_invoice_totals_exact_example = sum_invoice_totals_exact (line ∷ line ∷ [])

abbrev floats : FloatOps
floats = record env.floats { round_int64 = λ x. pos (x % 1000) }

floats_in_range : (x : Float64) → InInt64 (floats.round_int64 x)
floats_in_range x = ground arith
