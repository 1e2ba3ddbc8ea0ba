-- ===== src/Service/Read/Laws.antt =====
-- What a page of the invoice list holds.
use go_invoicing.Base.{◌≤◌, ◌≡◌, ◌↔◌, ◌⊎◌, true, none, some, List, [], ◌∷◌, All, length, arith}
use go_invoicing.Base.Time.{Time, midnight}
use go_invoicing.Admin.{Uuid}
use go_invoicing.Invoice.{Status, Invoice}
use go_invoicing.Invoice.Lifecycle.{effective_status, is_past_due_date}
use go_invoicing.Store.{Db, Env}
use go_invoicing.Store.Paging.Laws.{All-paged, All-keep, length-take}
use go_invoicing.Store.Listing.{InvoiceListFilter, matches_status, matches, page}

-- The statuses that are stored.
abbrev pub IsStored : Status → Type 0
IsStored s = (s ≡ Status.draft) ⊎ ((s ≡ Status.sent) ⊎ ((s ≡ Status.paid) ⊎ (s ≡ Status.cancelled)))

-- A row that the list query selects for one of the five statuses is exactly one that a response then
-- shows with that status, at the same moment: SQL and Go agree on what is Sent and what Overdue.
pub matches_status_iff :
    (s : Status) (now : Time) (i : Invoice)
    → (s ≡ Status.overdue) ⊎ IsStored s
    → IsStored i.status
    → (matches_status (some s) (midnight now) i ≡ true) ↔ (effective_status i now ≡ s)
unfolding matches_status effective_status is_past_due_date
matches_status_iff s now i k st = (λ e. ground arith, λ e. ground arith)

abbrev OfOrganisation : Uuid → Invoice → Type 0
OfOrganisation org i = (i.organisation_id ≡ org) × (i.deleted_at ≡ none)

matches-OfOrganisation :
    (env : Env) (org : Uuid) (f : InvoiceListFilter) (today : Time) (i : Invoice)
    → matches env org f today i ≡ true
    → OfOrganisation org i
unfolding matches
matches-OfOrganisation env org f today i h = ground arith

All-matches :
    (env : Env) (org : Uuid) (f : InvoiceListFilter) (today : Time) (is : List Invoice)
    → All (λ i. matches env org f today i ≡ true) is
    → All (λ i. (matches env org f today i ≡ true) × OfOrganisation org i) is
All-matches env org f today [] a = tt
All-matches env org f today (i ∷ is) a =
    ((a.0, matches-OfOrganisation env org f today i a.0), All-matches env org f today is a.1)

-- Every row of a page passes the filter, belongs to the organisation and is not deleted, and the page
-- has no more rows than the limit.
pub page_ok :
    (env : Env) (org : Uuid) (f : InvoiceListFilter) (today : Time) (db : Db)
    → All
        (λ i.
          (matches env org f today i ≡ true) × ((i.organisation_id ≡ org) × (i.deleted_at ≡ none)))
        (page env org f today db)
      × (length (page env org f today db) ≤ f.limit)
unfolding page matches
page_ok env org f today db = (
  All-paged _ _ f.limit f.offset _
      (All-matches env org f today _ (All-keep (matches env org f today) db.invoices)),
  length-take f.limit _,
)
