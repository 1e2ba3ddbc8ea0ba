-- ===== src/Ledger/Rows.antt =====
-- How a predicate on the rows changes when a payment comes in and one row is rewritten.
use mathlib.Core.Path.{subst, refl}
use go_invoicing.Base.{
  Bool-cases, if◌then◌else◌, update_where, Bool, ◌&&◌, ◌==◌, ◌≡◌, ◌≢◌, inl, inr, true, false, some,
  List, [], ◌∷◌, All, find?, arith, sym, ◌∙◌,
}
use go_invoicing.Admin.{Uuid}
use go_invoicing.Invoice.{Invoice}
use go_invoicing.Store.{Db}
use go_invoicing.Store.Rows.{DistinctIds, first_case, row_facts, All-find?, find?-test}
use go_invoicing.Store.Invoices.{is_row, invoice_row, is_none}
use go_invoicing.Store.Payments.{is_owned}

module _ (P Q : Invoice → Type 0) (org id : Uuid) where
  All-change_ne :
      (k : Uuid) (is : List Invoice)
      → ((j : Invoice) → j.id ≢ k → P j → Q j)
      → All (λ j. j.id ≢ k) is
      → All P is
      → All Q is
  All-change_ne k [] c n h = tt
  All-change_ne k (j ∷ is) c n h = (c j n.0 h.0, All-change_ne k is c n.1 h.1)

  -- Only the row that was read changes its predicate.
  pub All-change :
      (is : List Invoice) (i : Invoice)
      → DistinctIds is
      → find? (is_row org id) is ≡ some i
      → ((j : Invoice) → j.id ≢ id → P j → Q j)
      → All P is
      → Q i
      → All Q is
  All-change [] i d h c a q = tt
  All-change (j ∷ is) i d h c a q = elim (first_case (is_row org id) j is h) [
    | inl (hit, e) ↦
        let same = (row_facts org id j hit).0 in
        (
          subst Q (sym e) q,
          All-change_ne id is c (subst (λ k. All (λ x. x.id ≢ k) is) same d.0) a.1,
        )
    | inr (miss, r) ↦ (c j (tail_ne j is i d.0 r) a.0, All-change is i d.1 r c a.1 q)
  ]
    where
      tail_ne :
          (j : Invoice) (is : List Invoice) (i : Invoice)
          → All (λ x. x.id ≢ j.id) is
          → find? (is_row org id) is ≡ some i
          → j.id ≢ id
      tail_ne j is i n r e =
          All-find? (λ x. x.id ≢ j.id) (is_row org id) is n r
            ((row_facts org id i (find?-test (is_row org id) is r)).0 ∙ sym e)

owned_rows :
    (org id : Uuid) (is : List Invoice) {i : Invoice}
    → find? (is_row org id) is ≡ some i
    → is_none (find? (λ i. i.id == id && i.organisation_id == org) is) ≡ false
owned_rows org id [] h = absurd (ground arith)
owned_rows org id (j ∷ is) {i} h = elim (first_case (is_row org id) j is h) [
  | inl (hit, e) ↦ ground arith
  | inr (miss, r) ↦ let rest = owned_rows org id is r in ground arith
]

-- The row that was read is the organisation's.
pub owned_of_found :
    (db : Db) (org id : Uuid) {i : Invoice}
    → invoice_row db org id ≡ some i
    → is_owned db org id ≡ true
owned_of_found db org id h = rw (owned_rows org id db.invoices h)

All-rewritten :
    (Q : Invoice → Type 0) (p : Invoice → Bool) (f : Invoice → Invoice) (is : List Invoice)
    → All (λ j. Q (if p j then f j else j)) is
    → All Q (update_where p f is)
All-rewritten Q p f [] a = tt
All-rewritten Q p f (j ∷ is) a = elim (Bool-cases (p j)) [
  | inl hit ↦ rw hit (subst Q (rw hit refl) a.0, All-rewritten Q p f is a.1)
  | inr miss ↦ rw miss (subst Q (rw miss refl) a.0, All-rewritten Q p f is a.1)
]

-- As `All-change`, with the row that was read rewritten too.
pub All-change-update_where :
    (P Q : Invoice → Type 0) (org id : Uuid) (f : Invoice → Invoice) (is : List Invoice)
    (i : Invoice)
    → DistinctIds is
    → find? (is_row org id) is ≡ some i
    → ((j : Invoice) → j.id ≢ id → P j → Q j)
    → All P is
    → Q (f i)
    → All Q (update_where (is_row org id) f is)
All-change-update_where P Q org id f is i d h c a q = All-rewritten Q (is_row org id) f is (
    All-change P (λ j. Q (if is_row org id j then f j else j)) org id is i d h
      (λ j n r. let miss : is_row org id j ≡ false = ground arith in rw miss (c j n r)) a
      (let hit = find?-test (is_row org id) is h in rw hit q))
