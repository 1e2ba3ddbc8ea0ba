-- ===== src/Store/Views.antt =====
-- The rows of a table that pass a test, before and after an UPDATE of one row or of all of them.
use mathlib.Core.Path.{subst}
use go_invoicing.Base.{
  if◌then◌else◌, ℕ, ◌≡◌, ◌≢◌, ◌∙◌, refl, sym, ap, Bool, true, false, Bool-cases, inl, inr, some,
  List, [], ◌∷◌, ◌++◌, All, find?, keep, map, update_where, arith,
}
use go_invoicing.Store.Rows.{first_case}
use go_invoicing.Store.Keys.{DistinctBy}

module _ {ℓ κ} {A : Type ℓ} {B : Type κ} where
  -- What a row may not lose: whether it passes the test, and what is seen of it then.
  abbrev pub IsUnseen : (A → Bool) → (A → B) → (A → A) → A → Type κ
  IsUnseen p view f x = (p (f x) ≡ p x) × (p x ≡ true → view (f x) ≡ view x)

  pub keep-update_where :
      (p q : A → Bool) (view : A → B) (f : A → A) (xs : List A)
      → All (λ x. q x ≡ true → IsUnseen p view f x) xs
      → map view (keep p (update_where q f xs)) ≡ map view (keep p xs)
  keep-update_where p q view f [] a = refl
  keep-update_where p q view f (x ∷ xs) a =
      let rest = keep-update_where p q view f xs a.1 in
      elim (Bool-cases (q x)) [
        | inr miss ↦ elim (Bool-cases (p x)) [
          | inl yes' ↦ rw (miss, yes') (ap (λ t. view x ∷ t) rest)
          | inr no' ↦ rw (miss, no') rest
        ]
        | inl hit ↦
            let (same, seen) = a.0 hit in
            elim (Bool-cases (p x)) [
              | inl yes' ↦ rw (hit, same, yes', seen yes') (ap (λ t. view x ∷ t) rest)
              | inr no' ↦ rw (hit, same, no') rest
            ]
      ]

  pub keep-appended :
      (p : A → Bool) (view : A → B) (xs : List A) (x : A)
      → p x ≡ false
      → map view (keep p (xs ++ (x ∷ []))) ≡ map view (keep p xs)
  keep-appended p view [] x miss = rw miss refl
  keep-appended p view (y ∷ ys) x miss =
      let rest = keep-appended p view ys x miss in
      elim (Bool-cases (p y)) [
        | inl yes' ↦ rw yes' (ap (λ t. view y ∷ t) rest)
        | inr no' ↦ rw no' rest
      ]

module _ {ℓ} {A : Type ℓ} where
  pub All-every {κ} : (P : A → Type κ) (xs : List A) → ((x : A) → P x) → All P xs
  All-every P [] h = tt
  All-every P (x ∷ xs) h = (h x, All-every P xs h)

  -- An UPDATE of all the rows that pass, after which they do not.
  pub keep-cleared :
      (p : A → Bool) (f : A → A) (xs : List A)
      → ((x : A) → p (f x) ≡ false)
      → keep p (update_where p f xs) ≡ []
  keep-cleared p f [] h = refl
  keep-cleared p f (x ∷ xs) h = elim (Bool-cases (p x)) [
    | inl yes' ↦ rw (yes', h x) (keep-cleared p f xs h)
    | inr no' ↦ rw (no', no') (keep-cleared p f xs h)
  ]

  module _ (key : A → ℕ) (k : ℕ) (q : A → Bool) (keyed : (x : A) → q x ≡ true → key x ≡ k) where
    -- Rows with other keys do not match.
    All-missed :
        (x : A) (xs : List A) → q x ≡ true → All (λ y. key y ≢ key x) xs → All (λ y. q y ≡ false) xs
    All-missed x [] hit a = tt
    All-missed x (y ∷ ys) hit a = elim (Bool-cases (q y)) [
      | inl yes' ↦ absurd (a.0 (keyed y yes' ∙ sym (keyed x hit)))
      | inr no' ↦ (no', All-missed x ys hit a.1)
    ]

    update_where-missed :
        (f : A → A) (xs : List A) → All (λ y. q y ≡ false) xs → update_where q f xs ≡ xs
    update_where-missed f [] a = refl
    update_where-missed f (y ∷ ys) a = rw a.0 (ap (λ t. y ∷ t) (update_where-missed f ys a.1))

    All-missed-only :
        (x : A) (xs : List A) → All (λ y. q y ≡ false) xs → All (λ y. q y ≡ true → y ≡ x) xs
    All-missed-only x [] a = tt
    All-missed-only x (y ∷ ys) a = (λ h. absurd (ground (arith, h, a.0)), All-missed-only x ys a.1)

    -- The row that is found is the only one that matches.
    pub All-only :
        (xs : List A) {x : A}
        → DistinctBy key xs
        → find? q xs ≡ some x
        → All (λ y. q y ≡ true → y ≡ x) xs
    All-only [] d h = tt
    All-only (y ∷ ys) {x} d h = elim (first_case q y ys h) [
      | inl (hit, e) ↦ (λ t. e, All-missed-only x ys (All-missed y ys hit d.0))
      | inr (miss, r) ↦ (λ t. absurd (ground (arith, t, miss)), All-only ys d.1 r)
    ]

    -- An UPDATE of that row that makes it pass a test that no row passed.
    pub keep-marked :
        (p : A → Bool) (f : A → A) (xs : List A) {x : A}
        → DistinctBy key xs
        → find? q xs ≡ some x
        → keep p xs ≡ []
        → p (f x) ≡ true
        → keep p (update_where q f xs) ≡ f x ∷ []
    keep-marked p f [] d h none' t = absurd (ground arith)
    keep-marked p f (y ∷ ys) {x} d h none' t = elim (Bool-cases (p y)) [
      | inl yes' ↦ absurd (let z : y ∷ keep p ys ≡ [] = rw yes' at none' in ground arith)
      | inr no' ↦
          let rest : keep p ys ≡ [] = rw no' at none' in
          elim (first_case q y ys h) [
            | inl (hit, e) ↦
                let t' : p (f y) ≡ true = subst (λ z. p (f z) ≡ true) (sym e) t in
                rw (hit, t', update_where-missed f ys (All-missed y ys hit d.0), rest)
                  (ap (λ z. f z ∷ []) e)
            | inr (miss, r) ↦ rw (miss, no') (keep-marked p f ys d.1 r rest t)
          ]
    ]

pub All-map {ℓ κ μ} :
    {A : Type ℓ} {P : A → Type κ} {Q : A → Type μ} (xs : List A)
    → ((x : A) → P x → Q x)
    → All P xs
    → All Q xs
All-map [] h a = tt
All-map (x ∷ xs) h a = (h x a.0, All-map xs h a.1)

-- What an UPDATE makes of each row, it makes of all.
pub All-updated {ℓ κ μ} :
    {A : Type ℓ} {R : A → Type μ} (P : A → Type κ) (q : A → Bool) (f : A → A) (xs : List A)
    → ((x : A) → R x → P (if q x then f x else x))
    → All R xs
    → All P (update_where q f xs)
All-updated P q f [] h a = tt
All-updated P q f (x ∷ xs) h a = (h x a.0, All-updated P q f xs h a.1)
