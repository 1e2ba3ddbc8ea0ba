-- ===== src/Handlers/Listing.antt =====
-- InvoiceHandler.List: the query of a list request, the filter it makes, and the page it is answered with.
use go_invoicing.Base.{ℕ, Bool, Option, none, some, List, [], ◌∷◌, map, if◌then◌else◌}
use go_invoicing.Base.Text.{Text, codes, text_eq}
use go_invoicing.Base.Time.{Time, parse_date}
use go_invoicing.Errors.{Error}
use go_invoicing.Http.{ErrorCode}
use go_invoicing.Http.Query.{
  optional_query_param, parse_limit_offset, parse_sort_order, reject_unknown_query_params,
}
use go_invoicing.Admin.{Uuid}
use go_invoicing.Invoice.{Status}
use go_invoicing.Invoice.Responses.{Formats, InvoiceListItemResponse, to_invoice_list_item_response}
use go_invoicing.Store.{Env}
use go_invoicing.Store.Listing.{InvoiceListFilter}
use go_invoicing.Service.Read.{list}
use go_invoicing.Service.Read.Items.{InvoiceListItem}
use go_invoicing.Handlers.{
  Failure, Checked, Handler, Incoming, fixed_failure, described_failure, internal_failure, require,
  serve, respond, require_authenticated_user,
}
use go_invoicing.Handlers.Invoices.{checked}

pub record ListResponse {ℓ} (A : Type ℓ) : Type ℓ where
  pub items : List A
  pub limit : ℕ
  pub offset : ℕ
  pub total : ℕ

-- url.Values.Get: the first value, or the empty text.
abbrev pub get : List (Text × Text) → Text → Text
get [] key = []
get ((k, value) ∷ query) key = let rest = get query key in if text_eq k key then value else rest

abbrev pub keys : List (Text × Text) → List Text
keys query = map (λ p. p.0) query

abbrev pub invoice_list_sort_fields : List Text
invoice_list_sort_fields =
    codes "invoiceNumber"
    ∷ codes "issueDate"
    ∷ codes "dueDate"
    ∷ codes "total"
    ∷ codes "createdAt"
    ∷ []

abbrev pub invoice_list_query_params : List Text
invoice_list_query_params =
    codes "limit"
    ∷ codes "offset"
    ∷ codes "status"
    ∷ codes "customerId"
    ∷ codes "search"
    ∷ codes "issueDateFrom"
    ∷ codes "issueDateTo"
    ∷ codes "dueDateFrom"
    ∷ codes "dueDateTo"
    ∷ codes "sort"
    ∷ codes "order"
    ∷ []

-- A status as the filter has it.
unfoldable pub status_named : Text → Status
status_named t =
    if text_eq t (codes "draft")
    then Status.draft
    else if text_eq t (codes "sent")
    then Status.sent
    else if text_eq t (codes "paid")
    then Status.paid
    else if text_eq t (codes "overdue")
    then Status.overdue
    else if text_eq t (codes "cancelled")
    then Status.cancelled
    else Status.other t

abbrev pub optional_status : Option Text → Option Status
optional_status none = none
optional_status (some t) = some (status_named t)

abbrev pub optional_search : Option Text → Text
optional_search none = []
optional_search (some t) = t

abbrev parsed_optional {ℓ} : {A : Type ℓ} → Option A → Checked (Option A)
parsed_optional none = Checked.answered (fixed_failure 400 ErrorCode.invalid_request)
parsed_optional (some a) = Checked.passed (some a)

-- An absent parameter is no bound.
abbrev pub parse_optional {ℓ} : {A : Type ℓ} → (Text → Option A) → Option Text → Checked (Option A)
parse_optional parse none = Checked.passed none
parse_optional parse (some raw) = parsed_optional (parse raw)

abbrev pub parse_optional_list_date : List (Text × Text) → Text → Checked (Option Time)
parse_optional_list_date query key =
    parse_optional parse_date (optional_query_param (get query key))

unfoldable pub list_failure : Error → Failure
list_failure Error.invoice_list_status_invalid =
    described_failure 400 ErrorCode.validation_failed Error.invoice_list_status_invalid
list_failure Error.invoice_list_issue_date_range_invalid =
    described_failure 400 ErrorCode.validation_failed Error.invoice_list_issue_date_range_invalid
list_failure Error.invoice_list_due_date_range_invalid =
    described_failure 400 ErrorCode.validation_failed Error.invoice_list_due_date_range_invalid
list_failure Error.invoice_currency_unavailable =
    described_failure 409 ErrorCode.conflict Error.invoice_currency_unavailable
list_failure _ = internal_failure

abbrev pub list_item_response : Formats → Time → InvoiceListItem → InvoiceListItemResponse
list_item_response formats now item =
    to_invoice_list_item_response formats item.invoice item.amount_paid item.currency now

abbrev pub list_response :
    Formats
    → Time
    → InvoiceListFilter
    → List InvoiceListItem × ℕ
    → ListResponse InvoiceListItemResponse
list_response formats now f (items, total) = record {
  items = map (list_item_response formats now) items;
  limit = f.limit;
  offset = f.offset;
  total = total;
}

-- The filter, once every parameter of it has been read.
abbrev pub list_filter :
    List (Text × Text)
    → ℕ × ℕ
    → Text × Text
    → Option Uuid
    → Option Time
    → Option Time
    → Option Time
    → Option Time
    → InvoiceListFilter
list_filter query paging sorting customer_id issued_from issued_to due_from due_to = record {
  status = optional_status (optional_query_param (get query (codes "status")));
  customer_id = customer_id;
  search = optional_search (optional_query_param (get query (codes "search")));
  issue_date_from = issued_from;
  issue_date_to = issued_to;
  due_date_from = due_from;
  due_date_to = due_to;
  sort = sorting.0;
  order = sorting.1;
  limit = paging.0;
  offset = paging.1;
}

-- The service call and the response, for one moment.
abbrev pub show_list :
    Env → Formats → Uuid → InvoiceListFilter → Handler (ListResponse InvoiceListItemResponse)
show_list env formats org f =
    serve (list env org f env.now) list_failure
      λ page. respond 200 (list_response formats env.now f page)

-- strings.EqualFold is an argument.
unfoldable pub handle_list :
    Env
    → (Text → Text → Bool)
    → Formats
    → Incoming (Unit {0})
    → Handler (ListResponse InvoiceListItemResponse)
handle_list env fold formats r = require (require_authenticated_user r.identity) λ user.
    require (checked (reject_unknown_query_params (keys r.query) invoice_list_query_params))
      λ known.
        require
          (checked
            (parse_limit_offset (get r.query (codes "limit")) (get r.query (codes "offset"))))
          λ (limit, offset).
            require
              (checked (
                parse_sort_order fold env.lower invoice_list_sort_fields (codes "issueDate")
                  (codes "desc") (get r.query (codes "sort")) (get r.query (codes "order"))))
              λ (sort, order).
                require
                  (parse_optional env.parse_uuid
                    (optional_query_param (get r.query (codes "customerId"))))
                  λ customer_id.
                    require (parse_optional_list_date r.query (codes "issueDateFrom"))
                      λ issue_date_from.
                        require (parse_optional_list_date r.query (codes "issueDateTo"))
                          λ issue_date_to.
                            require (parse_optional_list_date r.query (codes "dueDateFrom"))
                              λ due_date_from.
                                require (parse_optional_list_date r.query (codes "dueDateTo"))
                                  λ due_date_to. show_list env formats user.organisation_id (
                                    list_filter r.query (limit, offset) (sort, order) customer_id
                                      issue_date_from issue_date_to due_date_from due_date_to)
