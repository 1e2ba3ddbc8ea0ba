-- ===== src/Store/Rows.antt =====
-- Tables as lists of rows with distinct keys: what an UPDATE of one row keeps.
use mathlib.Core.Path.{subst}
use go_invoicing.Base.{
  not, keep, ap, sym, ◌⊎◌, ◌≡◌, ◌≢◌, refl, Bool, true, false, none, some, List, [], ◌∷◌, All, find?,
  update_where, arith, Bool-cases, inl, inr,
}
use go_invoicing.Admin.{Uuid}
use go_invoicing.Invoice.{Invoice}
use go_invoicing.Store.Invoices.{is_row}

-- The primary key.
abbrev pub DistinctIds : List Invoice → Type 0
DistinctIds [] = Unit
DistinctIds (i ∷ is) = All (λ j. j.id ≢ i.id) is × DistinctIds is

-- Rows with another id do not match.
update_where_other :
    (org id : Uuid) (f : Invoice → Invoice) (is : List Invoice)
    → All (λ j. j.id ≢ id) is
    → update_where (is_row org id) f is ≡ is
update_where_other org id f [] h = refl
update_where_other org id f (i ∷ is) h = ground (arith, update_where_other org id f is h.1)

module _ {ℓ} {A : Type ℓ} where
  pub first_case :
      (p : A → Bool) (x : A) (xs : List A) {y : A}
      → find? p (x ∷ xs) ≡ some y
      → ((p x ≡ true) × (x ≡ y)) ⊎ ((p x ≡ false) × (find? p xs ≡ some y))
  first_case p x xs h = elim (Bool-cases (p x)) [
    | inl hit ↦ inl (hit, let e : some x ≡ some _ = rw hit at h in cc e)
    | inr miss ↦ inr (miss, rw miss at h)
  ]

  pub find?-test : (p : A → Bool) (xs : List A) {y : A} → find? p xs ≡ some y → p y ≡ true
  find?-test p [] h = absurd (ground arith)
  find?-test p (x ∷ xs) {y} h = elim (first_case p x xs h) [
    | inl (hit, e) ↦ subst (λ z. p z ≡ true) e hit
    | inr (miss, r) ↦ find?-test p xs r
  ]

-- What the row that a tenant-scoped read returns is known to be.
pub row_facts :
    (org id : Uuid) (i : Invoice)
    → is_row org id i ≡ true
    → (i.id ≡ id) × (i.organisation_id ≡ org) × (i.deleted_at ≡ none)
row_facts org id i h = ground arith

-- Writing the row that was read: what held of all rows, and holds of the new one, holds of all.
pub All-update_where {ℓ} :
    (P : Invoice → Type ℓ) (org id : Uuid) (f : Invoice → Invoice) (is : List Invoice) (i : Invoice)
    → DistinctIds is
    → find? (is_row org id) is ≡ some i
    → All P is
    → P (f i)
    → All P (update_where (is_row org id) f is)
All-update_where P org id f [] i d h a p = tt
All-update_where P org id f (j ∷ is) i d h a p = elim (first_case (is_row org id) j is h) [
  | inl (hit, e) ↦
      rw
        (
          hit,
          update_where_other org id f is
              (subst (λ k. All (λ j. j.id ≢ k) is) (row_facts org id j hit).0 d.0),
        )
        (subst (λ k. P (f k)) (sym e) p, a.1)
  | inr (miss, r) ↦ rw miss (a.0, All-update_where P org id f is i d.1 r a.1 p)
]

-- An UPDATE that keeps the ids keeps them distinct.
All-ids-update_where :
    (p : Invoice → Bool) (f : Invoice → Invoice) (k : Uuid) (is : List Invoice)
    → ((i : Invoice) → (f i).id ≡ i.id)
    → All (λ j. j.id ≢ k) is
    → All (λ j. j.id ≢ k) (update_where p f is)
All-ids-update_where p f k [] e h = tt
All-ids-update_where p f k (i ∷ is) e h = elim (Bool-cases (p i)) [
  | inl hit ↦ rw hit (rw e h.0, All-ids-update_where p f k is e h.1)
  | inr miss ↦ rw miss (h.0, All-ids-update_where p f k is e h.1)
]

pub DistinctIds-update_where :
    (p : Invoice → Bool) (f : Invoice → Invoice) (is : List Invoice)
    → ((i : Invoice) → (f i).id ≡ i.id)
    → DistinctIds is
    → DistinctIds (update_where p f is)
DistinctIds-update_where p f [] e h = tt
DistinctIds-update_where p f (i ∷ is) e h = elim (Bool-cases (p i)) [
  | inl hit ↦
      rw hit (rw e (All-ids-update_where p f i.id is e h.0), DistinctIds-update_where p f is e h.1)
  | inr miss ↦
      rw miss (All-ids-update_where p f i.id is e h.0, DistinctIds-update_where p f is e h.1)
]

-- What holds of all rows holds of the one that is found.
pub All-find? {ℓ} :
    (P : Invoice → Type ℓ) (p : Invoice → Bool) (is : List Invoice) {i : Invoice}
    → All P is
    → find? p is ≡ some i
    → P i
All-find? P p [] a h = absurd (ground arith)
All-find? P p (j ∷ is) a h = elim (first_case p j is h) [
  | inl (hit, e) ↦ subst P e a.0
  | inr (miss, r) ↦ All-find? P p is a.1 r
]

-- After the UPDATE of the row that was read, the same read finds the new row.
pub find?-update_where :
    (org id : Uuid) (f : Invoice → Invoice) (is : List Invoice) {i : Invoice}
    → find? (is_row org id) is ≡ some i
    → is_row org id (f i) ≡ true
    → find? (is_row org id) (update_where (is_row org id) f is) ≡ some (f i)
find?-update_where org id f [] h k = absurd (ground arith)
find?-update_where org id f (j ∷ is) {i} h k = elim (first_case (is_row org id) j is h) [
  | inl (hit, e) ↦ rw (hit, e) (rw k)
  | inr (miss, r) ↦ rw (miss, miss) (find?-update_where org id f is r k)
]

-- All rows but the tenant's one.
abbrev pub others : Uuid → Uuid → List Invoice → List Invoice
others org id is = keep (λ i. not (is_row org id i)) is

-- An UPDATE of one row leaves every other row as it is, those of other organisations among them.
pub others-update_where :
    (org id : Uuid) (f : Invoice → Invoice) (is : List Invoice)
    → ((i : Invoice) → is_row org id (f i) ≡ is_row org id i)
    → others org id (update_where (is_row org id) f is) ≡ others org id is
others-update_where org id f [] e = refl
others-update_where org id f (i ∷ is) e = elim (Bool-cases (is_row org id i)) [
  | inl hit ↦ rw (hit, e, hit) (others-update_where org id f is e)
  | inr miss ↦ rw (miss, miss) (ap (λ r. i ∷ r) (others-update_where org id f is e))
]
