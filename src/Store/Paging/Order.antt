-- ===== src/Store/Paging/Order.antt =====
-- The order of a page does not depend on the order of the table: an ORDER BY whose last key is unique
-- decides the place of every row.
use go_invoicing.Base.{
  ℕ, ◌≡◌, ◌≢◌, ◌⊎◌, ◌∙◌, refl, sym, ap, inl, inr, Bool, true, false, Bool-cases, List, [], ◌∷◌, All,
  ◌++◌, ◌+◌, zero, suc, keep, arith,
}
use go_invoicing.Store.Paging.{insert_row, sort_rows, row_before, visit}

module _ {ℓ} {A : Type ℓ} where
  -- What an ORDER BY column sorts by: of two values at most one comes first, and a value between two
  -- that are apart is apart from one of them.
  pub record IsOrdering (column : A → A → Bool) : Type ℓ where
    pub asymmetric : (x y : A) → column x y ≡ true → column y x ≡ false
    pub splits : (x y z : A) → column x z ≡ true → (column x y ≡ true) ⊎ (column y z ≡ true)

  -- The same rows in another order of the table.
  pub data Reordered : List A → List A → Type ℓ where
    same : {xs : List A} → Reordered xs xs
    next : {x : A} {xs ys : List A} → Reordered xs ys → Reordered (x ∷ xs) (x ∷ ys)
    swapped : {x y : A} {xs : List A} → Reordered (x ∷ y ∷ xs) (y ∷ x ∷ xs)
    then : {xs ys zs : List A} → Reordered xs ys → Reordered ys zs → Reordered xs zs

  pub keep-Reordered :
      (q : A → Bool) {xs ys : List A} → Reordered xs ys → Reordered (keep q xs) (keep q ys)
  keep-Reordered q same = same
  keep-Reordered q (next {x} r) = elim (Bool-cases (q x)) [
    | inl yes' ↦ rw yes' (next (keep-Reordered q r))
    | inr no' ↦ rw no' (keep-Reordered q r)
  ]
  keep-Reordered q (swapped {x} {y} {xs}) = elim (Bool-cases (q x)) [
    | inl a ↦ elim (Bool-cases (q y)) [ inl b ↦ rw (a, b) swapped | inr b ↦ rw (a, b) same ]
    | inr a ↦ elim (Bool-cases (q y)) [ inl b ↦ rw (a, b) same | inr b ↦ rw (a, b) same ]
  ]
  keep-Reordered q (then r s) = then (keep-Reordered q r) (keep-Reordered q s)

  All-Reordered {κ} : (P : A → Type κ) {xs ys : List A} → Reordered xs ys → All P xs → All P ys
  All-Reordered P same a = a
  All-Reordered P (next r) a = (a.0, All-Reordered P r a.1)
  All-Reordered P swapped a = (a.1.0, (a.0, a.1.1))
  All-Reordered P (then r s) a = All-Reordered P s (All-Reordered P r a)

  module _ (id : A → ℕ) where
    abbrev pub DistinctKeys : List A → Type 0
    DistinctKeys [] = Unit
    DistinctKeys (x ∷ xs) = All (λ y. id y ≢ id x) xs × DistinctKeys xs

    pub DistinctKeys-Reordered :
        {xs ys : List A} → Reordered xs ys → DistinctKeys xs → DistinctKeys ys
    DistinctKeys-Reordered same d = d
    DistinctKeys-Reordered (next r) d =
        (All-Reordered (λ y. id y ≢ id _) r d.0, DistinctKeys-Reordered r d.1)
    DistinctKeys-Reordered swapped d = ((λ e. d.0.0 (sym e), d.1.0), (d.0.1, d.1.1))
    DistinctKeys-Reordered (then r s) d = DistinctKeys-Reordered s (DistinctKeys-Reordered r d)

  All-kept {κ} : (P : A → Type κ) (q : A → Bool) (xs : List A) → All P xs → All P (keep q xs)
  All-kept P q [] a = tt
  All-kept P q (x ∷ xs) a = elim (Bool-cases (q x)) [
    | inl yes' ↦ rw yes' (a.0, All-kept P q xs a.1)
    | inr no' ↦ rw no' (All-kept P q xs a.1)
  ]

  pub DistinctKeys-keep :
      (id : A → ℕ) (q : A → Bool) (xs : List A) → DistinctKeys id xs → DistinctKeys id (keep q xs)
  DistinctKeys-keep id q [] d = tt
  DistinctKeys-keep id q (x ∷ xs) d = elim (Bool-cases (q x)) [
    | inl yes' ↦ rw yes' (All-kept (λ y. id y ≢ id x) q xs d.0, DistinctKeys-keep id q xs d.1)
    | inr no' ↦ rw no' (DistinctKeys-keep id q xs d.1)
  ]

  -- Requests that are answered alike.
  pub visit-same :
      (r s : ℕ → List A) (limit offset count : ℕ)
      → ((o : ℕ) → r o ≡ s o)
      → visit r limit offset count ≡ visit s limit offset count
  visit-same r s limit offset zero e = refl
  visit-same r s limit offset (suc count) e =
      ap (λ t. t ++ visit r limit (offset + limit) count) (e offset)
      ∙ ap (λ t. s offset ++ t) (visit-same r s limit (offset + limit) count e)

  -- Two rows of which the first comes first.
  module _ (p : A → A → Bool)
      (transitive : (x y z : A) → p x y ≡ true → p y z ≡ true → p x z ≡ true) where
    insert_row-swap :
        (x y : A) (zs : List A)
        → p x y ≡ true
        → p y x ≡ false
        → insert_row p x (insert_row p y zs) ≡ insert_row p y (insert_row p x zs)
    insert_row-swap x y [] a b = rw (a, b) refl
    insert_row-swap x y (z ∷ zs) a b = elim (Bool-cases (p y z)) [
      | inl c ↦ let t = transitive x y z a c in rw (c, t, a, b, c) refl
      | inr c ↦ elim (Bool-cases (p x z)) [
        | inl d ↦ rw (c, d, b, c) refl
        | inr d ↦ rw (c, d, c) (ap (λ t. z ∷ t) (insert_row-swap x y zs a b))
      ]
    ]

  module _ (column : A → A → Bool) (id : A → ℕ) (ascending : Bool) (o : IsOrdering column) where
    abbrev p : A → A → Bool
    p = row_before column id ascending

    decided :
        (x y : A)
        → id x ≢ id y
        → ((p x y ≡ true) × (p y x ≡ false)) ⊎ ((p y x ≡ true) × (p x y ≡ false))
    decided x y n = let a = o.asymmetric x y in let b = o.asymmetric y x in ground arith

    transitive : (x y z : A) → p x y ≡ true → p y z ≡ true → p x z ≡ true
    transitive x y z a b = ground (
      arith,
      o.asymmetric x y,
      o.asymmetric y z,
      o.asymmetric x z,
      o.asymmetric y x,
      o.asymmetric z y,
      o.asymmetric z x,
      o.splits x y z,
      o.splits x z y,
      o.splits y x z,
      o.splits y z x,
      o.splits z x y,
      o.splits z y x,
    )

    -- Sorting gives one list for all orders of the table.
    pub sort_rows-Reordered :
        {xs ys : List A} → DistinctKeys id xs → Reordered xs ys → sort_rows p xs ≡ sort_rows p ys
    sort_rows-Reordered d same = refl
    sort_rows-Reordered d (next {x} r) = ap (insert_row p x) (sort_rows-Reordered d.1 r)
    sort_rows-Reordered d (swapped {x} {y} {xs}) = elim (decided x y (λ e. d.0.0 (sym e))) [
      | inl (a, b) ↦ insert_row-swap p transitive x y (sort_rows p xs) a b
      | inr (a, b) ↦ sym (insert_row-swap p transitive y x (sort_rows p xs) a b)
    ]
    sort_rows-Reordered d (then r s) =
        sort_rows-Reordered d r ∙ sort_rows-Reordered (DistinctKeys-Reordered id r d) s
