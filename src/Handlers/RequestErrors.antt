-- ===== src/Handlers/RequestErrors.antt =====
-- Which errors the rules on a request for an invoice give.
use go_invoicing.Base.{inl, inr, Bool-cases, Option, none, some, List, [], ◌∷◌, length, ltb}
use go_invoicing.Base.Int.{pos, ltb_ℤ}
use go_invoicing.Base.Float.{le_zero, lt_zero}
use go_invoicing.Base.Text.{Text, is_empty, trim_space}
use go_invoicing.Base.Time.{parse_date}
use go_invoicing.Errors.{Error}
use go_invoicing.Admin.{Uuid, max_quantity_unit_length}
use go_invoicing.Invoice.{CreateInvoiceRequest, CreateInvoiceLineRequest}
use go_invoicing.Store.{Env}
use go_invoicing.Service.Create.Request.{
  ValidatedLine, ValidatedRequest, validate_request, validate_lines, validate_line,
  validate_quantity_unit, validate_product_id, parsed_product, parse_required,
}
use go_invoicing.Handlers.Throws.{
  Fails, fail_if-Fails, or_fail-Fails, ok-Fails, err-Fails, then-Fails,
}
use go_invoicing.Service.Create.Request

-- What the check of a request can return as an error.
pub data RequestError : Error → Type 0 where
  customer_id_required : RequestError Error.invoice_customer_id_required
  customer_id_invalid : RequestError Error.invoice_customer_id_invalid
  no_lines : RequestError Error.invoice_no_lines
  issue_date_required : RequestError Error.invoice_issue_date_required
  issue_date_invalid : RequestError Error.invoice_issue_date_invalid
  due_date_required : RequestError Error.invoice_due_date_required
  due_date_invalid : RequestError Error.invoice_due_date_invalid
  due_date_before_issue_date : RequestError Error.invoice_due_date_before_issue_date
  description_required : RequestError Error.invoice_line_description_required
  quantity_invalid : RequestError Error.invoice_line_quantity_invalid
  unit_price_negative : RequestError Error.invoice_line_unit_price_negative
  vat_rate_negative : RequestError Error.invoice_line_vat_rate_negative
  quantity_unit_too_long : RequestError Error.invoice_line_quantity_unit_too_long
  product_id_invalid : RequestError Error.invoice_line_product_id_invalid

quantity_unit-Fails : (t : Text) → Fails RequestError (validate_quantity_unit t)
unfolding validate_quantity_unit
quantity_unit-Fails t = elim (Bool-cases (is_empty (trim_space t))) [
  | inl blank ↦ rw blank (ok-Fails RequestError none)
  | inr text ↦ elim (Bool-cases (ltb max_quantity_unit_length (length (trim_space t)))) [
    | inl long ↦ rw (text, long) (err-Fails RequestError _ _ RequestError.quantity_unit_too_long)
    | inr fits ↦ rw (text, fits) (ok-Fails RequestError _)
  ]
]

parsed_product-Fails : (p : Option Uuid) → Fails RequestError (parsed_product p)
parsed_product-Fails none = err-Fails RequestError _ _ RequestError.product_id_invalid
parsed_product-Fails (some id) = ok-Fails RequestError (some id)

product_id-Fails :
    (parse : Text → Option Uuid) (t : Option Text)
    → Fails RequestError (validate_product_id parse t)
unfolding validate_product_id
product_id-Fails parse none = ok-Fails RequestError none
product_id-Fails parse (some t) = elim (Bool-cases (is_empty (trim_space t))) [
  | inl blank ↦ rw blank (ok-Fails RequestError none)
  | inr text ↦ rw text (parsed_product-Fails (parse (trim_space t)))
]

parse_required-Fails {ℓ} :
    {A : Type ℓ} (parse : Text → Option A) (t : Text) (required invalid : Error)
    → RequestError required
    → RequestError invalid
    → Fails RequestError (parse_required parse t required invalid)
unfolding parse_required
parse_required-Fails parse t required invalid p q = elim (Bool-cases (is_empty (trim_space t))) [
  | inl blank ↦ rw blank (err-Fails RequestError _ required p)
  | inr text ↦ rw text (or_fail-Fails RequestError (parse (trim_space t)) invalid q)
]

no_lines-Fails : (rs : List CreateInvoiceLineRequest) → Fails RequestError (Request.no_lines rs)
no_lines-Fails [] = err-Fails RequestError _ _ RequestError.no_lines
no_lines-Fails (r ∷ rs) = ok-Fails RequestError tt

module _ (env : Env) where
  line-Fails : (r : CreateInvoiceLineRequest) → Fails RequestError (validate_line env r)
  unfolding validate_line
  line-Fails r =
      then-Fails RequestError _ _
        (fail_if-Fails RequestError (is_empty (trim_space r.description)) _
          RequestError.description_required)
        λ u.
          then-Fails RequestError _ _
            (fail_if-Fails RequestError (le_zero r.quantity) _ RequestError.quantity_invalid)
            λ u. then-Fails RequestError _ _ (quantity_unit-Fails r.quantity_unit) λ unit.
              then-Fails RequestError _ _
                (fail_if-Fails RequestError (ltb_ℤ r.unit_price (pos 0)) _
                  RequestError.unit_price_negative)
                λ u.
                  then-Fails RequestError _ _
                    (fail_if-Fails RequestError (lt_zero r.vat_rate) _
                      RequestError.vat_rate_negative)
                    λ u.
                      then-Fails RequestError _ _ (product_id-Fails env.parse_uuid r.product_id)
                        λ p. ok-Fails RequestError _

  lines-Fails : (rs : List CreateInvoiceLineRequest) → Fails RequestError (validate_lines env rs)
  unfolding validate_lines
  lines-Fails [] = ok-Fails RequestError []
  lines-Fails (r ∷ rs) =
      then-Fails RequestError _ _ (line-Fails r)
        λ v. then-Fails RequestError _ _ (lines-Fails rs) λ vs. ok-Fails RequestError (v ∷ vs)

  pub request-Fails : (r : CreateInvoiceRequest) → Fails RequestError (validate_request env r)
  unfolding validate_request
  request-Fails r =
      then-Fails RequestError _ _
        (parse_required-Fails env.parse_uuid r.customer_id _ _ RequestError.customer_id_required
          RequestError.customer_id_invalid)
        λ c. then-Fails RequestError _ _ (no_lines-Fails r.lines) λ u.
          then-Fails RequestError _ _
            (parse_required-Fails parse_date r.issue_date _ _ RequestError.issue_date_required
              RequestError.issue_date_invalid)
            λ issued.
              then-Fails RequestError _ _
                (parse_required-Fails parse_date r.due_date _ _ RequestError.due_date_required
                  RequestError.due_date_invalid)
                λ due.
                  then-Fails RequestError _ _
                    (fail_if-Fails RequestError (ltb due issued) _
                      RequestError.due_date_before_issue_date)
                    λ u.
                      then-Fails RequestError _ _ (lines-Fails r.lines)
                        λ ls. ok-Fails RequestError _
