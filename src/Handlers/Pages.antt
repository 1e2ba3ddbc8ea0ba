-- ===== src/Handlers/Pages.antt =====
-- The page that a list request is answered with.
use go_invoicing.Base.{
  ℕ, ◌≡◌, ◌∙◌, refl, sym, ap, inl, inr, arith, Bool-cases, Option, List, [], ◌∷◌, map, length,
}
use go_invoicing.Base.Int.{ℤ}
use go_invoicing.Base.Time.{Time, midnight}
use go_invoicing.Errors.{
  Result, ok, Result-cases, invoice_count, invoice_list, payment_totals, Site,
}
use go_invoicing.Admin.{Uuid, Settings}
use go_invoicing.Invoice.{Invoice}
use go_invoicing.Invoice.Snapshot.{resolve_currency_from_settings}
use go_invoicing.Store.{Db, Env, M, lift, pure, query, ◌>>=◌}
use go_invoicing.Store.Laws.{ReadsOnly}
use go_invoicing.Store.Binds.{bind_ok}
use go_invoicing.Store.Listing.{
  InvoiceListFilter, matching, page, listed_row, list_invoices, get_total_paid_by_invoice_ids,
}
use go_invoicing.Service.Snapshots.Reads.{get_settings-ReadsOnly}
use go_invoicing.Service.Read.{any_draft, list, page_items, page_settings}
use go_invoicing.Service.Read.Items.{paid_for, InvoiceListItem, list_items, validate_filter}

list_items_ok :
    (table : ℕ → ℕ) (s : Option Settings) (paid : List (Uuid × ℤ)) (is : List Invoice)
    (items : List InvoiceListItem)
    → list_items table s paid is ≡ ok items
    → map (λ item. item.invoice) items ≡ is
unfolding list_items
list_items_ok table s paid [] items h = let e : [] ≡ items = ground arith in rw (← e) refl
list_items_ok table s paid (i ∷ is) items h =
    elim (Result-cases (resolve_currency_from_settings table i s)) [
      | inr (e, bad) ↦ absurd (let k = rw bad at h in ground arith)
      | inl (c, good) ↦ elim (Result-cases (list_items table s paid is)) [
        | inr (e, bad) ↦ absurd (let k = rw (good, bad) at h in ground arith)
        | inl (rest, done) ↦
            let k = rw (good, done) at h in
            let e : record { invoice = i; amount_paid = paid_for i.id paid; currency = c } ∷ rest
                ≡ items =
              ground arith in
            rw (← e) (ap (λ js. i ∷ js) (list_items_ok table s paid is rest done))
      ]
    ]

-- A call that, if it succeeds from db, has changed nothing and returns one of Q.
pub record Reads {ℓ κ} {A : Type ℓ} (Q : A → Type κ) (m : M A) (db : Db) : Type (ℓ ⊔ κ) where
  pub returned : (a : A) (mid : Db) → m db ≡ (ok a, mid) → (mid ≡ db) × Q a

ok_value {ℓ} : {A : Type ℓ} {a b : A} → ok a ≡ ok b → b ≡ a
ok_value h = ground arith

module _ (db : Db) where
  pure-Reads {ℓ κ} : {A : Type ℓ} (Q : A → Type κ) (a : A) → Q a → Reads Q (pure a) db
  pure-Reads Q a q = record {
    returned = λ b mid h. let e : a ≡ b = ground arith in (ground arith, rw (← e) q);
  }

  lift-Reads {ℓ} : {A : Type ℓ} (r : Result A) → Reads (λ a. r ≡ ok a) (lift r) db
  lift-Reads r = record { returned = λ b mid h. (ground arith, ap (λ x. x.0) h) }

  kept-Reads {ℓ} : {A : Type ℓ} (m : M A) → ReadsOnly m → Reads (λ a. Unit {0}) m db
  kept-Reads m kept = record { returned = λ a mid h. (sym (ap (λ x. x.1) h) ∙ kept db, tt) }

  query-Reads {ℓ} :
      {A : Type ℓ} (env : Env) (site : Site) (f : Db → Result A)
      → Reads (λ a. f db ≡ ok a) (query env site f) db
  query-Reads env site f = record { returned = λ b mid h. (ground arith, ground arith) }

  bind-Reads {ℓ κ μ ν} :
      {A : Type ℓ} {B : Type κ} (Q : A → Type μ) (R : B → Type ν) (m : M A) (f : A → M B)
      → Reads Q m db
      → ((a : A) → Q a → Reads R (f a) db)
      → Reads R (m >>= f) db
  bind-Reads Q R m f p q = record {
    returned = λ b mid h.
        let (a, mid', e, k) = bind_ok m f db h in
        let (same, qa) = p.returned a mid' e in (q a qa).returned b mid (rw same at k);
  }

module _ (env : Env) (org : Uuid) (db : Db) where
  settings-ReadsOnly : (is : List Invoice) → ReadsOnly (page_settings env org is)
  unfolding page_settings
  settings-ReadsOnly is d = elim (Bool-cases (any_draft is)) [
    | inl drafts ↦ ground (arith, get_settings-ReadsOnly env org d)
    | inr issued ↦ rw issued refl
  ]

  paid-ReadsOnly : (ids : List Uuid) → ReadsOnly (get_total_paid_by_invoice_ids env org ids)
  unfolding get_total_paid_by_invoice_ids
  paid-ReadsOnly [] d = refl
  paid-ReadsOnly (id ∷ ids) d = elim (Bool-cases (env.fails payment_totals)) [
    | inl down ↦ rw down refl
    | inr up ↦ rw up refl
  ]

  page_items-Reads :
      (count : ℕ) (is : List Invoice)
      → Reads
          (λ r. (r.1 ≡ count) × (map (λ item. item.invoice) r.0 ≡ is))
          (page_items env org count is)
          db
  unfolding page_items
  page_items-Reads count [] = pure-Reads db _ ([], count) (refl, refl)
  page_items-Reads count (i ∷ is) =
      bind-Reads db _ _ _ _
        (kept-Reads db (page_settings env org (i ∷ is)) (settings-ReadsOnly (i ∷ is)))
        λ s u.
          bind-Reads db _ _ _ _
            (kept-Reads db (get_total_paid_by_invoice_ids env org (map (λ i. i.id) (i ∷ is)))
              (paid-ReadsOnly (map (λ i. i.id) (i ∷ is))))
            λ paid u.
              bind-Reads db _ _ _ _ (lift-Reads db (list_items env.upper s paid (i ∷ is)))
                λ items e.
                  pure-Reads db _ (items, count)
                    (refl, list_items_ok env.upper s paid (i ∷ is) items e)

  list_invoices-Reads :
      (f : InvoiceListFilter) (today : Time)
      → Reads
          (λ r.
            (r.0 ≡ map (listed_row db) (page env org f today db))
            × (r.1 ≡ length (matching env org f today db)))
          (list_invoices env org f today)
          db
  unfolding list_invoices
  list_invoices-Reads f today =
      bind-Reads db _ _ _ _
        (query-Reads db env invoice_count (λ d. ok (length (matching env org f today d))))
        λ count e.
          bind-Reads db _ _ _ _
            (query-Reads db env invoice_list
              (λ d. ok (map (listed_row d) (page env org f today d))))
            λ rows e'. pure-Reads db _ (rows, count) (ok_value e', ok_value e)

  -- What List returns: the rows of the page, in order, and the count of the rows that match.
  pub list-Reads :
      (f : InvoiceListFilter) (now : Time)
      → Reads
          (λ r.
            (map (λ item. item.invoice) r.0
              ≡ map (listed_row db) (page env org f (midnight now) db))
            × (r.1 ≡ length (matching env org f (midnight now) db)))
          (list env org f now)
          db
  unfolding list
  list-Reads f now = bind-Reads db _ _ _ _ (lift-Reads db (validate_filter f)) λ u e.
      bind-Reads db _ _ _ (λ r. page_items env org r.1 r.0) (list_invoices-Reads f (midnight now))
        λ r e. record {
          returned = λ a mid h.
              let (kept, (total, items)) = (page_items-Reads r.1 r.0).returned a mid h in
              (kept, (items ∙ e.0, total ∙ e.1));
        }
