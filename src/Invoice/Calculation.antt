-- ===== src/Invoice/Calculation.antt =====
-- Amounts of lines and of invoices (invoice_calculation.go). The float operations are an argument;
-- the int64 sums wrap.
pub mod Laws
use go_invoicing.Base.{List, [], ◌∷◌}
use go_invoicing.Base.Int.{ℤ, pos, add64, sub64}
use go_invoicing.Base.Float.{Float64, FloatOps}
use go_invoicing.Invoice.{Line}

-- The VAT amount and the total of a line.
unfoldable pub calculate_line_amounts : FloatOps → Float64 → ℤ → Float64 → ℤ × ℤ
calculate_line_amounts f quantity unit_price vat_rate =
    let line_subtotal = f.round_int64 (f.mul quantity (f.of_int64 unit_price)) in
    let vat_amount = f.round_int64 (f.div_hundred (f.mul (f.of_int64 line_subtotal) vat_rate)) in
    (vat_amount, add64 line_subtotal vat_amount)

abbrev pub Totals : Type 0
Totals = record { subtotal : ℤ; vat_total : ℤ; total : ℤ }

abbrev add_line : Totals → Line → Totals
add_line t l = record {
  subtotal = add64 t.subtotal (sub64 l.total l.vat_amount);
  vat_total = add64 t.vat_total l.vat_amount;
  total = add64 t.total l.total;
}

-- The loop of sumInvoiceTotals, from the sums so far.
unfoldable pub sum_from : Totals → List Line → Totals
sum_from t [] = t
sum_from t (l ∷ ls) = sum_from (add_line t l) ls

unfoldable pub sum_invoice_totals : List Line → Totals
unfolding sum_from
sum_invoice_totals = sum_from (record { subtotal = pos 0; vat_total = pos 0; total = pos 0 })
