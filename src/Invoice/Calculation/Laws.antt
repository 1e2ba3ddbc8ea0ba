-- ===== src/Invoice/Calculation/Laws.antt =====
-- The totals of an invoice: exact modulo 2 ^ 64, and consistent with one another.
use go_invoicing.Base.{sym, ◌+◌, ap, ◌≡◌, refl, ◌∙◌, List, [], ◌∷◌, arith}
use go_invoicing.Base.Int.{
  wrap64-InInt64, ℤ, pos, ◌+ℤ◌, ◌-ℤ◌, add64, sub64, wrap64, wrap64_parts, wrap64_eq, wrap64_id,
  InInt64, int_laws,
}
use go_invoicing.Base.Float.{Float64, FloatOps}
use go_invoicing.Invoice.{Line}
use go_invoicing.Invoice.Calculation.{
  Totals, calculate_line_amounts, add_line, sum_from, sum_invoice_totals,
}

sub64-add64 : (s v : ℤ) → InInt64 s → sub64 (add64 s v) v ≡ s
unfolding add64 sub64
sub64-add64 s v h =
    let (m, n, e) = wrap64_parts (s +ℤ v) in
    wrap64_eq (wrap64 (s +ℤ v) -ℤ v) s m n (omega int_laws) ∙ wrap64_id s h

-- Adding a line to a total is adding its two parts to the two partial sums.
add64_regroup : (s v l a : ℤ) → add64 (add64 s v) l ≡ add64 (add64 s (sub64 l a)) (add64 v a)
unfolding add64 sub64
add64_regroup s v l a =
    let (m₁, n₁, e₁) = wrap64_parts (s +ℤ v) in
    let (m₂, n₂, e₂) = wrap64_parts (l -ℤ a) in
    let (m₃, n₃, e₃) = wrap64_parts (s +ℤ wrap64 (l -ℤ a)) in
    let (m₄, n₄, e₄) = wrap64_parts (v +ℤ a) in
    wrap64_eq (wrap64 (s +ℤ v) +ℤ l) (wrap64 (s +ℤ wrap64 (l -ℤ a)) +ℤ wrap64 (v +ℤ a))
      (m₁ + n₂ + n₃ + n₄) (n₁ + m₂ + m₃ + m₄) (omega int_laws)

sum_from-consistent :
    (t : Totals) (ls : List Line)
    → t.total ≡ add64 t.subtotal t.vat_total
    → (sum_from t ls).total ≡ add64 (sum_from t ls).subtotal (sum_from t ls).vat_total
unfolding sum_from
sum_from-consistent t [] h = h
sum_from-consistent t (l ∷ ls) h =
    sum_from-consistent (add_line t l) ls
      (ap (λ x. add64 x l.total) h ∙ add64_regroup t.subtotal t.vat_total l.total l.vat_amount)

-- For any lines at all, the three totals of an invoice agree as int64 values: the total is the
-- subtotal plus the VAT total, also where a sum overflows.
pub total-eq-add64 :
    (ls : List Line) → let t = sum_invoice_totals ls in t.total ≡ add64 t.subtotal t.vat_total
unfolding sum_invoice_totals add64 ◌+ℤ◌ wrap64
total-eq-add64 ls = sum_from-consistent _ ls refl

-- The exact sum of an amount over the lines.
abbrev pub sum_by : (Line → ℤ) → List Line → ℤ
sum_by amount [] = pos 0
sum_by amount (l ∷ ls) = amount l +ℤ sum_by amount ls

wrap_step : (t x y : ℤ) → wrap64 (add64 t x +ℤ y) ≡ wrap64 (t +ℤ (x +ℤ y))
unfolding add64
wrap_step t x y =
    let (m, n, e) = wrap64_parts (t +ℤ x) in
    wrap64_eq (wrap64 (t +ℤ x) +ℤ y) (t +ℤ (x +ℤ y)) m n (omega int_laws)

wrap_sub_step : (t l a y : ℤ) → wrap64 (add64 t (sub64 l a) +ℤ y) ≡ wrap64 (t +ℤ ((l -ℤ a) +ℤ y))
unfolding add64 sub64
wrap_sub_step t l a y =
    let (m, n, e) = wrap64_parts (t +ℤ wrap64 (l -ℤ a)) in
    let (m', n', e') = wrap64_parts (l -ℤ a) in
    wrap64_eq (wrap64 (t +ℤ wrap64 (l -ℤ a)) +ℤ y) (t +ℤ ((l -ℤ a) +ℤ y)) (m + m') (n + n')
      (omega int_laws)

wrap64_add_zero : (z : ℤ) → InInt64 z → z ≡ wrap64 (z +ℤ pos 0)
wrap64_add_zero z h = rw (let e : z +ℤ pos 0 ≡ z = omega int_laws in e) (sym (wrap64_id z h))

abbrev InRange : Totals → Type 0
InRange t = InInt64 t.subtotal × InInt64 t.vat_total × InInt64 t.total

abbrev ExactFrom : Totals → List Line → Totals → Type 0
ExactFrom t ls r =
    (r.subtotal ≡ wrap64 (t.subtotal +ℤ sum_by (λ l. l.total -ℤ l.vat_amount) ls))
    × (r.vat_total ≡ wrap64 (t.vat_total +ℤ sum_by (λ l. l.vat_amount) ls))
    × (r.total ≡ wrap64 (t.total +ℤ sum_by (λ l. l.total) ls))

add_line-InRange : (t : Totals) (l : Line) → InRange (add_line t l)
unfolding add64
add_line-InRange t l = (wrap64-InInt64 _, wrap64-InInt64 _, wrap64-InInt64 _)

sum_from_exact : (t : Totals) (ls : List Line) → InRange t → ExactFrom t ls (sum_from t ls)
unfolding sum_from
sum_from_exact t [] h = (wrap64_add_zero _ h.0, wrap64_add_zero _ h.1, wrap64_add_zero _ h.2)
sum_from_exact t (l ∷ ls) h =
    let (s, v, x) = sum_from_exact (add_line t l) ls (add_line-InRange t l) in
    (
      s ∙ wrap_sub_step t.subtotal l.total l.vat_amount _,
      v ∙ wrap_step t.vat_total l.vat_amount _,
      x ∙ wrap_step t.total l.total _,
    )

-- Each total of an invoice is the exact sum over its lines, of the line totals less VAT, of the VAT
-- amounts and of the line totals, reduced to an int64; so it is exact wherever that sum is one.
pub sum_invoice_totals_exact :
    (ls : List Line)
    → let t = sum_invoice_totals ls in
      (t.subtotal ≡ wrap64 (pos 0 +ℤ sum_by (λ l. l.total -ℤ l.vat_amount) ls))
      × (t.vat_total ≡ wrap64 (pos 0 +ℤ sum_by (λ l. l.vat_amount) ls))
      × (t.total ≡ wrap64 (pos 0 +ℤ sum_by (λ l. l.total) ls))
unfolding sum_invoice_totals
sum_invoice_totals_exact ls = sum_from_exact _ ls (omega arith)

-- Where the rounding returns an int64, the subtotal of a line, which is not stored, is exactly its
-- total less its VAT amount, also if the total overflowed.
pub sub64-calculate_line_amounts :
    (f : FloatOps) (quantity : Float64) (unit_price : ℤ) (vat_rate : Float64)
    → ((x : Float64) → InInt64 (f.round_int64 x))
    → let (vat_amount, total) = calculate_line_amounts f quantity unit_price vat_rate in
      sub64 total vat_amount ≡ f.round_int64 (f.mul quantity (f.of_int64 unit_price))
unfolding calculate_line_amounts
sub64-calculate_line_amounts f quantity unit_price vat_rate h =
    sub64-add64 (f.round_int64 (f.mul quantity (f.of_int64 unit_price))) _ (h _)
