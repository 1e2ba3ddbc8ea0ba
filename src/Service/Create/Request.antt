-- ===== src/Service/Create/Request.antt =====
-- The structural rules on a request for an invoice (validateLines, parseRequiredUUID and
-- parseRequiredDate), which run before any database call.
use go_invoicing.Base.{Option, none, some, List, [], ◌∷◌, length, ltb, if◌then◌else◌}
use go_invoicing.Base.Int.{ℤ, pos, ltb_ℤ}
use go_invoicing.Base.Float.{Float64, le_zero, lt_zero}
use go_invoicing.Base.Text.{Text, trim_space, is_empty}
use go_invoicing.Base.Time.{Time, parse_date}
use go_invoicing.Errors.{
  Error, Result, ok, err, ◌>>=◌, ◌>>◌, fail_if, or_fail, invoice_line_description_required,
  invoice_line_quantity_invalid, invoice_line_quantity_unit_too_long,
  invoice_line_unit_price_negative, invoice_line_vat_rate_negative, invoice_line_product_id_invalid,
  invoice_customer_id_required, invoice_customer_id_invalid, invoice_no_lines,
  invoice_issue_date_required, invoice_issue_date_invalid, invoice_due_date_required,
  invoice_due_date_invalid, invoice_due_date_before_issue_date,
}
use go_invoicing.Admin.{Uuid, max_quantity_unit_length}
use go_invoicing.Invoice.{CreateInvoiceLineRequest, CreateInvoiceRequest}
use go_invoicing.Store.{Env}

pub record ValidatedLine : Type 0 where
  pub product_id : Option Uuid
  pub description : Text
  pub quantity : Float64
  pub quantity_unit : Option Text
  pub unit_price : ℤ
  pub vat_rate : Float64

-- A text of one code point for each rune, so that its length is utf8.RuneCountInString.
unfoldable pub validate_quantity_unit : Text → Result (Option Text)
validate_quantity_unit t =
    let unit = trim_space t in
    if is_empty unit
    then ok none
    else if ltb max_quantity_unit_length (length unit)
    then err invoice_line_quantity_unit_too_long
    else ok (some unit)

abbrev pub parsed_product : Option Uuid → Result (Option Uuid)
parsed_product none = err invoice_line_product_id_invalid
parsed_product (some id) = ok (some id)

unfoldable pub validate_product_id : (Text → Option Uuid) → Option Text → Result (Option Uuid)
validate_product_id parse none = ok none
validate_product_id parse (some t) =
    let trimmed = trim_space t in
    if is_empty trimmed then ok none else parsed_product (parse trimmed)

-- One round of the loop of validateLines.
unfoldable pub validate_line : Env → CreateInvoiceLineRequest → Result ValidatedLine
validate_line env r = do
  let description = trim_space r.description
  fail_if (is_empty description) invoice_line_description_required
  fail_if (le_zero r.quantity) invoice_line_quantity_invalid
  unit ← validate_quantity_unit r.quantity_unit
  fail_if (ltb_ℤ r.unit_price (pos 0)) invoice_line_unit_price_negative
  fail_if (lt_zero r.vat_rate) invoice_line_vat_rate_negative
  product ← validate_product_id env.parse_uuid r.product_id
  ok (record {
    product_id = product;
    description = description;
    quantity = r.quantity;
    quantity_unit = unit;
    unit_price = r.unit_price;
    vat_rate = r.vat_rate;
  })

unfoldable pub validate_lines : Env → List CreateInvoiceLineRequest → Result (List ValidatedLine)
validate_lines env [] = ok []
validate_lines env (r ∷ rs) = do v ← validate_line env r; vs ← validate_lines env rs; ok (v ∷ vs)

-- parseRequiredUUID and parseRequiredDate, with the parser as an argument.
unfoldable pub parse_required {ℓ} :
    {A : Type ℓ} → (Text → Option A) → Text → Error → Error → Result A
parse_required parse value required invalid =
    let trimmed = trim_space value in
    if is_empty trimmed then err required else or_fail (parse trimmed) invalid

pub record ValidatedRequest : Type 0 where
  pub customer_id : Uuid
  pub issue_date : Time
  pub due_date : Time
  pub lines : List ValidatedLine

abbrev pub no_lines : List CreateInvoiceLineRequest → Result (Unit {0})
no_lines [] = err invoice_no_lines
no_lines (r ∷ rs) = ok tt

-- The part of Create before its first lookup.
unfoldable pub validate_request : Env → CreateInvoiceRequest → Result ValidatedRequest
validate_request env r = do
  customer_id ←
      parse_required env.parse_uuid r.customer_id invoice_customer_id_required
        invoice_customer_id_invalid
  no_lines r.lines
  issue_date ←
      parse_required parse_date r.issue_date invoice_issue_date_required invoice_issue_date_invalid
  due_date ← parse_required parse_date r.due_date invoice_due_date_required invoice_due_date_invalid
  fail_if (ltb due_date issue_date) invoice_due_date_before_issue_date
  lines ← validate_lines env r.lines
  ok (record {
    customer_id = customer_id;
    issue_date = issue_date;
    due_date = due_date;
    lines = lines;
  })
