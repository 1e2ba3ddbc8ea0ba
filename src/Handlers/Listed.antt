-- ===== src/Handlers/Listed.antt =====
-- What a list request is answered with.
use go_invoicing.Base.Time.{Time, midnight}
use go_invoicing.Base.{
  ℕ, Bool, ◌≡◌, ◌≤◌, ◌∙◌, refl, sym, ap, arith, List, [], ◌∷◌, map, length, some, none, Option,
}
use go_invoicing.Base.Text.{Text, codes}
use go_invoicing.Handlers.Pages.{list-Reads}
use go_invoicing.Invoice.{Invoice}
use go_invoicing.Invoice.Responses.{to_invoice_list_item_response, Formats, InvoiceListItemResponse}
use go_invoicing.Store.Listing.{matching, page, listed_row, InvoiceListFilter}
use go_invoicing.Service.Read.{list}
use go_invoicing.Service.Read.Items.{InvoiceListItem}
use go_invoicing.Handlers.{respond, Response, Checked, Incoming, require_authenticated_user}
use go_invoicing.Handlers.Chains.{serve_json, json_then}
use go_invoicing.Http.{Reply}
use go_invoicing.Http.Query.Laws.{parse_limit_offset_bounds}
use go_invoicing.Http.Query.{
  optional_query_param, parse_limit_offset, parse_sort_order, reject_unknown_query_params,
}
use go_invoicing.Admin.User.{AuthenticatedUser}
use go_invoicing.Store.{Db, Env}
use go_invoicing.Handlers.Invoices.{checked}
use go_invoicing.Handlers.Listing.{
  ListResponse, get, keys, invoice_list_query_params, invoice_list_sort_fields, list_filter,
  list_response, list_item_response, list_failure, optional_status, optional_search, parse_optional,
  parse_optional_list_date, show_list, handle_list,
}

-- The filter that the parameters of a request ask for, each read by its rule.
pub record IsAsked (env : Env) (fold : Text → Text → Bool) (query : List (Text × Text))
    (f : InvoiceListFilter) : Type 0 where
  pub known :
      checked (reject_unknown_query_params (keys query) invoice_list_query_params)
      ≡ Checked.passed tt
  pub paging :
      checked (parse_limit_offset (get query (codes "limit")) (get query (codes "offset")))
      ≡ Checked.passed (f.limit, f.offset)
  pub sorting :
      checked (
        parse_sort_order fold env.lower invoice_list_sort_fields
          (codes "issueDate")
          (codes "desc")
          (get query (codes "sort"))
          (get query (codes "order")))
      ≡ Checked.passed (f.sort, f.order)
  pub customer :
      parse_optional env.parse_uuid (optional_query_param (get query (codes "customerId")))
      ≡ Checked.passed f.customer_id
  pub issued_from :
      parse_optional_list_date query (codes "issueDateFrom") ≡ Checked.passed f.issue_date_from
  pub issued_to :
      parse_optional_list_date query (codes "issueDateTo") ≡ Checked.passed f.issue_date_to
  pub due_from :
      parse_optional_list_date query (codes "dueDateFrom") ≡ Checked.passed f.due_date_from
  pub due_to : parse_optional_list_date query (codes "dueDateTo") ≡ Checked.passed f.due_date_to
  pub selected : f.status ≡ optional_status (optional_query_param (get query (codes "status")))
  pub searched : f.search ≡ optional_search (optional_query_param (get query (codes "search")))

identified :
    (u : Option AuthenticatedUser) (user : AuthenticatedUser)
    → require_authenticated_user u ≡ Checked.passed user
    → u ≡ some user
unfolding require_authenticated_user
identified none user h = absurd (ground arith)
identified (some u) user h = ground arith

module _ (env : Env) (fold : Text → Text → Bool) (formats : Formats) (r : Incoming (Unit {0}))
    (db db' : Db) where
  abbrev Served : ℕ → ListResponse InvoiceListItemResponse → Type 0
  Served n l =
      (user : AuthenticatedUser) × (f : InvoiceListFilter) × (r.identity ≡ some user)
      × IsAsked env fold r.query f
      × (show_list env formats user.organisation_id f db ≡ (Response.json n l, db'))

  -- A list request that is answered with a page had a user and a filter.
  asked :
      (n : ℕ) (l : ListResponse InvoiceListItemResponse)
      → handle_list env fold formats r db ≡ (Response.json n l, db')
      → Served n l
  unfolding handle_list
  asked n l h = json_then (Served n l) (require_authenticated_user r.identity) _ db h λ user e₁ h₁.
      json_then (Served n l)
        (checked (reject_unknown_query_params (keys r.query) invoice_list_query_params)) _ db h₁
        λ u e₂ h₂.
          json_then (Served n l)
            (checked
              (parse_limit_offset (get r.query (codes "limit")) (get r.query (codes "offset"))))
            _ db h₂
            λ paging e₃ h₃.
              json_then (Served n l)
                (checked (
                  parse_sort_order fold env.lower invoice_list_sort_fields (codes "issueDate")
                    (codes "desc") (get r.query (codes "sort")) (get r.query (codes "order"))))
                _ db h₃
                λ sorting e₄ h₄.
                  json_then (Served n l)
                    (parse_optional env.parse_uuid
                      (optional_query_param (get r.query (codes "customerId"))))
                    _ db h₄
                    λ customer e₅ h₅.
                      json_then (Served n l)
                        (parse_optional_list_date r.query (codes "issueDateFrom")) _ db h₅
                        λ from e₆ h₆.
                          json_then (Served n l)
                            (parse_optional_list_date r.query (codes "issueDateTo")) _ db h₆
                            λ to e₇ h₇.
                              json_then (Served n l)
                                (parse_optional_list_date r.query (codes "dueDateFrom")) _ db h₇
                                λ due e₈ h₈.
                                  json_then (Served n l)
                                    (parse_optional_list_date r.query (codes "dueDateTo")) _ db h₈
                                    λ until e₉ h₉. (
                                      user,
                                      list_filter r.query paging sorting customer from to due until,
                                      identified r.identity user e₁,
                                      record {
                                        known = e₂;
                                        paging = e₃;
                                        sorting = e₄;
                                        customer = e₅;
                                        issued_from = e₆;
                                        issued_to = e₇;
                                        due_from = e₈;
                                        due_to = e₉;
                                        selected = refl;
                                        searched = refl;
                                      },
                                      h₉,
                                    )

checked_value {ℓ} :
    {A : Type ℓ} (reply : Reply A) (a : A)
    → checked reply ≡ Checked.passed a
    → reply ≡ Reply.accepted a
checked_value (Reply.accepted b) a h = ground arith
checked_value (Reply.refused code) a h = absurd (ground arith)

-- The responses of a page name its invoices.
module _ (formats : Formats) (now : Time) where
  shown_ids :
      (items : List InvoiceListItem)
      → map (λ r. r.id) (map (list_item_response formats now) items)
        ≡ map (λ i. formats.uuid i.id) (map (λ item. item.invoice) items)
  unfolding to_invoice_list_item_response
  shown_ids [] = refl
  shown_ids (item ∷ items) = ap (λ ids. formats.uuid item.invoice.id ∷ ids) (shown_ids items)

  listed_ids :
      (db : Db) (is : List Invoice)
      → map (λ i. formats.uuid i.id) (map (listed_row db) is) ≡ map (λ i. formats.uuid i.id) is
  unfolding listed_row
  listed_ids db [] = refl
  listed_ids db (i ∷ is) = ap (λ ids. formats.uuid i.id ∷ ids) (listed_ids db is)

-- A list request that is answered with a page, in any database: its status is 200 and nothing has
-- changed; the request had a user and a filter, each of whose parts was read by its rule; the page
-- names exactly the invoices of that page of the list query, in its order, for the organisation of
-- the user; its total is the count of all invoices that match; and it asked for 1 to 200 rows.
pub listed_page :
    (env : Env) (fold : Text → Text → Bool) (formats : Formats) (r : Incoming (Unit {0}))
    (db db' : Db) (n : ℕ) (l : ListResponse InvoiceListItemResponse)
    → handle_list env fold formats r db ≡ (Response.json n l, db')
    → (n ≡ 200)
      × (db' ≡ db)
      × ((user : AuthenticatedUser) × (f : InvoiceListFilter) × (r.identity ≡ some user)
          × IsAsked env fold r.query f
          × (map (λ i. i.id) l.items
              ≡ map
                  (λ i. formats.uuid i.id)
                  (page env user.organisation_id f (midnight env.now) db))
          × (l.total ≡ length (matching env user.organisation_id f (midnight env.now) db))
          × (1 ≤ l.limit)
          × (l.limit ≤ 200)
          × (l.limit ≡ f.limit)
          × (l.offset ≡ f.offset))
listed_page env fold formats r db db' n l h =
    let (user, f, u, a, k) = asked env fold formats r db db' n l h in
    let call = list env user.organisation_id f env.now in
    let ((items, total), done, shown) =
      serve_json call list_failure (λ page. respond 200 (list_response formats env.now f page)) db
        k in
    let (kept, (rows, count)) =
      (list-Reads env user.organisation_id db f env.now).returned (items, total) (call db).1 done in
    let status : 200 ≡ n = ground (arith, shown) in
    let shape : list_response formats env.now f (items, total) ≡ l = ground (arith, shown) in
    let (low, high, offset) =
      parse_limit_offset_bounds.0 _ _ f.limit f.offset (checked_value _ _ a.paging) in
    let limit : f.limit ≡ l.limit = ap (λ x. x.limit) shape in
    (
      sym status,
      sym (ap (λ x. x.1) shown) ∙ kept,
      (
        user,
        f,
        u,
        a,
        ap (λ x. map (λ i. i.id) x.items) (sym shape)
            ∙ shown_ids formats env.now items
            ∙ ap (λ is. map (λ i. formats.uuid i.id) is) rows
            ∙ listed_ids formats env.now db (page env user.organisation_id f (midnight env.now) db),
        sym (ap (λ x. x.total) shape) ∙ count,
        rw (← limit) low,
        rw (← limit) high,
        sym limit,
        sym (ap (λ x. x.offset) shape),
      ),
    )
