-- ===== src/Examples/Lists.antt =====
-- The theorem on lists, applied to a request for the overdue invoices.
use go_invoicing.Base.Text.{trim_space, is_space, lower_code, upper_code, Text, text_eq, codes}
use go_invoicing.Base.Int.{bits64, of_bits64, sub64, wrap64, ◌+ℤ◌, ◌-ℤ◌, pos}
use go_invoicing.Base.Time.{midnight}
use go_invoicing.Base.{List, [], ◌∷◌, ◌≡◌, ◌≤◌, ℕ, map, length, some, refl}
use go_invoicing.Handlers.Listing.{handle_list, status_named, ListResponse, list_item_response}
use go_invoicing.Handlers.{require_authenticated_user, Response, Incoming}
use go_invoicing.Http.Query.{
  reject_unknown_query_params, parse_limit_offset, parse_limit, parse_offset, parse_sort_order,
  optional_query_param,
}
use go_invoicing.Http.Number.{atoi}
use go_invoicing.Service.Read.{list, page_items, page_settings}
use go_invoicing.Service.Read.Items.{validate_filter, list_items}
use go_invoicing.Store.Listing.{
  list_invoices, matches, before, get_total_paid_by_invoice_ids, is_ascending, listed_row,
  matches_status, page, sort_column, InvoiceListFilter, matching,
}
use go_invoicing.Invoice.Lifecycle.{
  is_past_due_date, effective_status, amount_outstanding, copy_snapshots,
}
use go_invoicing.Invoice.Responses.{to_invoice_list_item_response, InvoiceListItemResponse}
use go_invoicing.Invoice.Snapshot.{
  normalize_currency, resolve_currency_from_settings, is_valid_currency_code,
}
use go_invoicing.Store.Invoices.{display_name}
use go_invoicing.Store.Payments.{paid_sum}
use go_invoicing.Admin.User.{AuthenticatedUser}
use go_invoicing.Handlers.Listed.{IsAsked, listed_page}
use go_invoicing.Examples.Data.{db, sent_invoice}
use go_invoicing.Examples.Handlers.{here, formats, incoming}

abbrev overdue_query : List (Text × Text)
overdue_query =
    (codes "status", codes "overdue")
    ∷ (codes "limit", codes "1")
    ∷ (codes "sort", codes "dueDate")
    ∷ []

abbrev overdue_request : Incoming (Unit {0})
overdue_request = record (incoming tt) { query = overdue_query }

abbrev overdue_page : ListResponse InvoiceListItemResponse
unfolding copy_snapshots listed_row display_name to_invoice_list_item_response
overdue_page = record {
  items =
      list_item_response formats here.now (record {
        invoice = listed_row db sent_invoice;
        amount_paid = pos 0;
        currency = codes "EUR";
      })
      ∷ [];
  limit = 1;
  offset = 0;
  total = 1;
}

-- The Sent invoice is past its due date.
overdue_listed :
    handle_list here text_eq formats overdue_request db ≡ (Response.json 200 overdue_page, db)
unfolding handle_list require_authenticated_user reject_unknown_query_params parse_limit_offset
    parse_limit atoi parse_offset parse_sort_order optional_query_param trim_space list
    validate_filter is_space status_named list_invoices page_items matches bits64 of_bits64 sub64
    wrap64 ◌+ℤ◌ ◌-ℤ◌ lower_code upper_code midnight is_past_due_date effective_status
    amount_outstanding to_invoice_list_item_response normalize_currency
    resolve_currency_from_settings list_items page_settings display_name before
    get_total_paid_by_invoice_ids is_ascending listed_row matches_status page sort_column paid_sum
    copy_snapshots is_valid_currency_code
overdue_listed = refl

listed_page_example :
    (◌≡◌ {A = ℕ} 200 200)
    × (db ≡ db)
    × ((user : AuthenticatedUser) × (f : InvoiceListFilter) × (overdue_request.identity ≡ some user)
        × IsAsked here text_eq overdue_query f
        × (map (λ i. i.id) overdue_page.items
            ≡ map
                (λ i. formats.uuid i.id)
                (page here user.organisation_id f (midnight here.now) db))
        × (overdue_page.total
            ≡ length (matching here user.organisation_id f (midnight here.now) db))
        × (1 ≤ overdue_page.limit)
        × (overdue_page.limit ≤ 200)
        × (overdue_page.limit ≡ f.limit)
        × (overdue_page.offset ≡ f.offset))
unfolding copy_snapshots listed_row display_name to_invoice_list_item_response
listed_page_example =
    listed_page here text_eq formats overdue_request db db 200 overdue_page overdue_listed
