-- ===== src/Store/Apart.antt =====
-- Rows of any table no two of which clash, as unique indexes keep them, and how writes keep them so.
use go_invoicing.Store.Views.{All-map}
use go_invoicing.Store.Keys.{All-found, find?-none-All}
use go_invoicing.Base.{
  ◌⊎◌, zero, suc, ℕ, ◌≡◌, ◌∙◌, refl, ap, Bool, true, false, Bool-cases, inl, inr, none, some, List,
  [], ◌∷◌, ◌++◌, All, find?, update_where, arith,
}
use go_invoicing.Store.Rows.{first_case}
use go_invoicing.Store.Sessions.{sweep}

module _ {ℓ} {A : Type ℓ} (p : A → Bool) (n : ℕ) (x : A) (xs : List A) where
  pub sweep-gone : p x ≡ true → sweep p (suc n) (x ∷ xs) ≡ sweep p n xs
  sweep-gone h = rw (sweep, h) refl

  pub sweep-kept : p x ≡ false → sweep p (suc n) (x ∷ xs) ≡ x ∷ sweep p (suc n) xs
  sweep-kept h = rw (sweep, h) refl

module _ {ℓ} {A : Type ℓ} (same : A → A → Bool) where
  abbrev pub Apart : List A → Type 0
  Apart [] = Unit
  Apart (x ∷ xs) = All (λ y. same y x ≡ false) xs × Apart xs

  free_appended :
      (z : A) (xs : List A) (x : A)
      → All (λ y. same y z ≡ false) xs
      → same x z ≡ false
      → All (λ y. same y z ≡ false) (xs ++ (x ∷ []))
  free_appended z [] x a h = (h, tt)
  free_appended z (y ∷ ys) x a h = (a.0, free_appended z ys x a.1 h)

  -- An INSERT of a row that clashes with none.
  pub Apart-appended :
      (xs : List A) (x : A)
      → ((y : A) → same y x ≡ false → same x y ≡ false)
      → All (λ y. same y x ≡ false) xs
      → Apart xs
      → Apart (xs ++ (x ∷ []))
  Apart-appended [] x flip a h = (tt, tt)
  Apart-appended (y ∷ ys) x flip a h =
      (free_appended y ys x h.0 (flip y a.0), Apart-appended ys x flip a.1 h.1)

  free_swept :
      (z : A) (p : A → Bool) (n : ℕ) (xs : List A)
      → All (λ y. same y z ≡ false) xs
      → All (λ y. same y z ≡ false) (sweep p n xs)
  free_swept z p zero xs a = a
  free_swept z p (suc n) [] a = tt
  free_swept z p (suc n) (x ∷ xs) a = elim (Bool-cases (p x)) [
    | inl gone ↦ rw (sweep-gone p n x xs gone) (free_swept z p n xs a.1)
    | inr kept ↦ rw (sweep-kept p n x xs kept) (a.0, free_swept z p (suc n) xs a.1)
  ]

  -- A DELETE.
  pub Apart-sweep : (p : A → Bool) (n : ℕ) (xs : List A) → Apart xs → Apart (sweep p n xs)
  Apart-sweep p zero xs h = h
  Apart-sweep p (suc n) [] h = tt
  Apart-sweep p (suc n) (x ∷ xs) h = elim (Bool-cases (p x)) [
    | inl gone ↦ rw (sweep-gone p n x xs gone) (Apart-sweep p n xs h.1)
    | inr kept ↦
        rw (sweep-kept p n x xs kept) (free_swept x p (suc n) xs h.0, Apart-sweep p (suc n) xs h.1)
  ]

  module _ (q : A → Bool) (f : A → A) (same_left : (x y : A) → same (f x) y ≡ same x y)
      (same_right : (x y : A) → same y (f x) ≡ same y x) where
    free_updated :
        (z : A) (xs : List A)
        → All (λ y. same y z ≡ false) xs
        → All (λ y. same y z ≡ false) (update_where q f xs)
    free_updated z [] a = tt
    free_updated z (x ∷ xs) a = elim (Bool-cases (q x)) [
      | inl hit ↦ rw hit (same_left x z ∙ a.0, free_updated z xs a.1)
      | inr miss ↦ rw miss (a.0, free_updated z xs a.1)
    ]

    free_of_updated :
        (x : A) (xs : List A) → All (λ y. same y x ≡ false) xs → All (λ y. same y (f x) ≡ false) xs
    free_of_updated x [] a = tt
    free_of_updated x (y ∷ ys) a = (same_right x y ∙ a.0, free_of_updated x ys a.1)

    -- An UPDATE that keeps the columns of the unique indexes.
    pub Apart-update_where : (xs : List A) → Apart xs → Apart (update_where q f xs)
    Apart-update_where [] h = tt
    Apart-update_where (x ∷ xs) h = elim (Bool-cases (q x)) [
      | inl hit ↦ rw hit (
        free_of_updated x (update_where q f xs) (free_updated x xs h.0),
        Apart-update_where xs h.1,
      )
      | inr miss ↦ rw miss (free_updated x xs h.0, Apart-update_where xs h.1)
    ]

  -- A DELETE finds nothing new.
  pub find?-none-sweep :
      (p q : A → Bool) (n : ℕ) (xs : List A) → find? p xs ≡ none → find? p (sweep q n xs) ≡ none
  find?-none-sweep p q zero xs e = e
  find?-none-sweep p q (suc n) [] e = refl
  find?-none-sweep p q (suc n) (y ∷ ys) e = elim (Bool-cases (p y)) [
    | inl hit ↦ absurd (ground arith)
    | inr miss ↦ elim (Bool-cases (q y)) [
      | inl gone ↦ rw (sweep-gone q n y ys gone) (find?-none-sweep p q n ys (ground arith))
      | inr kept ↦
          rw (sweep-kept q n y ys kept) (rw miss (find?-none-sweep p q (suc n) ys (ground arith)))
    ]
  ]

  module _ (p : A → Bool) (clash : (x y : A) → p x ≡ true → p y ≡ true → same y x ≡ true) where
    none_of_free :
        (x : A) (xs : List A) → p x ≡ true → All (λ y. same y x ≡ false) xs → find? p xs ≡ none
    none_of_free x [] h a = refl
    none_of_free x (y ∷ ys) h a = elim (Bool-cases (p y)) [
      | inl yes' ↦ absurd (let c = clash x y h yes' in let n = a.0 in ground arith)
      | inr no' ↦ rw no' (none_of_free x ys h a.1)
    ]

    -- A row found by a test that no two rows pass is the row that a DELETE takes, or stays found.
    pub find?-sweep :
        (q : A → Bool) (n : ℕ) (xs : List A) {x : A}
        → Apart xs
        → find? p xs ≡ some x
        → q x ≡ false
        → find? p (sweep q n xs) ≡ some x
    find?-sweep q zero xs h e k = e
    find?-sweep q (suc n) [] h e k = absurd (ground arith)
    find?-sweep q (suc n) (y ∷ ys) h e k = elim (first_case p y ys e) [
      | inl (hit, same_row) ↦
          let stays : q y ≡ false = ap q same_row ∙ k in
          rw (sweep-kept q n y ys stays) (rw hit (ap some same_row))
      | inr (miss, r) ↦ elim (Bool-cases (q y)) [
        | inl gone ↦ rw (sweep-gone q n y ys gone) (find?-sweep q n ys h.1 r k)
        | inr kept ↦ rw (sweep-kept q n y ys kept) (rw miss (find?-sweep q (suc n) ys h.1 r k))
      ]
    ]

    -- Any row that passes the test is the one that it finds.
    pub find?-other :
        (q : A → Bool) (xs : List A) {x : A}
        → Apart xs
        → find? q xs ≡ some x
        → p x ≡ true
        → find? p xs ≡ some x
    find?-other q [] h e k = absurd (ground arith)
    find?-other q (y ∷ ys) {x} h e k = elim (first_case q y ys e) [
      | inl (hit, same_row) ↦ let t : p y ≡ true = ap p same_row ∙ k in rw t (ap some same_row)
      | inr (miss, r) ↦ elim (Bool-cases (p y)) [
        | inr no' ↦ rw no' (find?-other q ys h.1 r k)
        | inl yes' ↦ absurd (
            let n = All-found (λ z. same z y ≡ false) q ys h.0 r in
            let c = clash y x yes' k in ground arith)
      ]
    ]

    -- No row but the one found passes the test.
    pub found_only :
        (xs : List A) {x : A}
        → Apart xs
        → find? p xs ≡ some x
        → All (λ y. (p y ≡ false) ⊎ (y ≡ x)) xs
    found_only [] h e = tt
    found_only (y ∷ ys) {x} h e = elim (first_case p y ys e) [
      | inl (hit, same_row) ↦ (
        inr same_row,
        All-map ys (λ z m. inl m) (find?-none-All p ys (none_of_free y ys hit h.0)),
      )
      | inr (miss, r) ↦ (inl miss, found_only ys h.1 r)
    ]

    -- The row found is found after a DELETE too, or was deleted.
    pub find?-sweep-cases :
        (q : A → Bool) (n : ℕ) (xs : List A) {x : A}
        → Apart xs
        → find? p xs ≡ some x
        → (find? p (sweep q n xs) ≡ none) ⊎ (find? p (sweep q n xs) ≡ some x)
    find?-sweep-cases q zero xs h e = inr e
    find?-sweep-cases q (suc n) [] h e = absurd (ground arith)
    find?-sweep-cases q (suc n) (y ∷ ys) h e = elim (Bool-cases (q y)) [
      | inl gone ↦ rw (sweep-gone q n y ys gone) (elim (first_case p y ys e) [
        | inl (hit, same_row) ↦ inl (find?-none-sweep p q n ys (none_of_free y ys hit h.0))
        | inr (miss, r) ↦ find?-sweep-cases q n ys h.1 r
      ])
      | inr kept ↦ rw (sweep-kept q n y ys kept) (elim (first_case p y ys e) [
        | inl (hit, same_row) ↦ rw hit (inr (ap some same_row))
        | inr (miss, r) ↦ rw miss (find?-sweep-cases q (suc n) ys h.1 r)
      ])
    ]
