-- ===== src/Store/Keys.antt =====
-- Rows of any table whose keys are distinct: which row a search finds, before and after an UPDATE.
use mathlib.Core.Path.{subst}
use go_invoicing.Base.{
  ◌==◌, ℕ, ◌≡◌, ◌≢◌, ◌∙◌, refl, sym, ap, Bool, true, false, Bool-cases, inl, inr, none, some, List,
  [], ◌∷◌, ◌++◌, All, find?, update_where, arith,
}
use go_invoicing.Store.Rows.{first_case, find?-test}

module _ {ℓ} {A : Type ℓ} where
  abbrev pub DistinctBy : (A → ℕ) → List A → Type 0
  DistinctBy key [] = Unit
  DistinctBy key (x ∷ xs) = All (λ y. key y ≢ key x) xs × DistinctBy key xs

  pub All-found {κ} :
      (P : A → Type κ) (p : A → Bool) (xs : List A) {x : A} → All P xs → find? p xs ≡ some x → P x
  All-found P p [] a h = absurd (ground arith)
  All-found P p (y ∷ ys) a h = elim (first_case p y ys h) [
    | inl (hit, e) ↦ subst P e a.0
    | inr (miss, r) ↦ All-found P p ys a.1 r
  ]

  -- A test that implies another finds the same row, if that row passes it.
  pub find?-narrower :
      (p q : A → Bool) (xs : List A) {x : A}
      → ((y : A) → q y ≡ true → p y ≡ true)
      → find? p xs ≡ some x
      → q x ≡ true
      → find? q xs ≡ some x
  find?-narrower p q [] i h t = absurd (ground arith)
  find?-narrower p q (y ∷ ys) {x} i h t = elim (first_case p y ys h) [
    | inl (hit, e) ↦ let qy : q y ≡ true = subst (λ z. q z ≡ true) (sym e) t in rw qy (ap some e)
    | inr (miss, r) ↦ elim (Bool-cases (q y)) [
      | inl yes' ↦ absurd (let c = i y yes' in ground arith)
      | inr no' ↦ rw no' (find?-narrower p q ys i r t)
    ]
  ]

  pub find?-none :
      (p q : A → Bool) (xs : List A)
      → ((y : A) → q y ≡ true → p y ≡ true)
      → find? p xs ≡ none
      → find? q xs ≡ none
  find?-none p q [] i h = refl
  find?-none p q (y ∷ ys) i h = elim (Bool-cases (q y)) [
    | inl yes' ↦ absurd (let c = i y yes' in ground arith)
    | inr no' ↦ rw no' (find?-none p q ys i (ground arith))
  ]

  -- A row that still passes after its UPDATE is found again.
  pub find?-update_where :
      (p : A → Bool) (f : A → A) (xs : List A) {x : A}
      → find? p xs ≡ some x
      → p (f x) ≡ true
      → find? p (update_where p f xs) ≡ some (f x)
  find?-update_where p f [] h t = absurd (ground arith)
  find?-update_where p f (y ∷ ys) {x} h t = elim (first_case p y ys h) [
    | inl (hit, e) ↦
        let t' : p (f y) ≡ true = subst (λ z. p (f z) ≡ true) (sym e) t in
        rw hit (rw t' (ap (λ z. some (f z)) e))
    | inr (miss, r) ↦ rw (miss, miss) (find?-update_where p f ys r t)
  ]

  pub find?-appended :
      (p : A → Bool) (xs : List A) (x : A)
      → find? p xs ≡ none
      → p x ≡ true
      → find? p (xs ++ (x ∷ [])) ≡ some x
  find?-appended p [] x h t = rw t refl
  find?-appended p (y ∷ ys) x h t = elim (Bool-cases (p y)) [
    | inl hit ↦ absurd (ground arith)
    | inr miss ↦ rw miss (find?-appended p ys x (ground arith) t)
  ]

  pub find?-none-All : (p : A → Bool) (xs : List A) → find? p xs ≡ none → All (λ x. p x ≡ false) xs
  find?-none-All p [] h = tt
  find?-none-All p (x ∷ xs) h = elim (Bool-cases (p x)) [
    | inl hit ↦ absurd (ground arith)
    | inr miss ↦ (miss, find?-none-All p xs (ground arith))
  ]

  pub All-find?-none : (p : A → Bool) (xs : List A) → All (λ x. p x ≡ false) xs → find? p xs ≡ none
  All-find?-none p [] a = refl
  All-find?-none p (x ∷ xs) a = rw a.0 (All-find?-none p xs a.1)

  module _ (key : A → ℕ) (k : ℕ) (p q : A → Bool) (keyed : (y : A) → p y ≡ true → key y ≡ k)
      (narrow : (y : A) → q y ≡ true → p y ≡ true) where
    -- A row found later has the key, so no earlier row has it.
    earlier_misses :
        (y : A) (ys : List A) {x : A}
        → All (λ z. key z ≢ key y) ys
        → find? q ys ≡ some x
        → p y ≡ false
    earlier_misses y ys {x} d h = elim (Bool-cases (p y)) [
      | inr no' ↦ no'
      | inl yes' ↦ absurd (
          All-found (λ z. key z ≢ key y) q ys d h
            (keyed x (narrow x (find?-test q ys h)) ∙ sym (keyed y yes')))
    ]

    -- Where the key is distinct, a row that the narrower test finds is the one that the wider finds.
    pub find?-wider :
        (xs : List A) {x : A} → DistinctBy key xs → find? q xs ≡ some x → find? p xs ≡ some x
    find?-wider [] d h = absurd (ground arith)
    find?-wider (y ∷ ys) {x} d h = elim (first_case q y ys h) [
      | inl (hit, e) ↦ rw (narrow y hit) (ap some e)
      | inr (miss, r) ↦ rw (earlier_misses y ys d.0 r) (find?-wider ys d.1 r)
    ]

    -- After the UPDATE of that row, the wider test finds the new row.
    pub find?-updated :
        (f : A → A) (xs : List A) {x : A}
        → DistinctBy key xs
        → find? q xs ≡ some x
        → p (f x) ≡ true
        → find? p (update_where q f xs) ≡ some (f x)
    find?-updated f [] d h t = absurd (ground arith)
    find?-updated f (y ∷ ys) {x} d h t = elim (first_case q y ys h) [
      | inl (hit, e) ↦
          let t' : p (f y) ≡ true = subst (λ z. p (f z) ≡ true) (sym e) t in
          rw hit (rw t' (ap (λ z. some (f z)) e))
      | inr (miss, r) ↦ rw (miss, earlier_misses y ys d.0 r) (find?-updated f ys d.1 r t)
    ]

  All-keys-update_where :
      (key : A → ℕ) (k : ℕ) (q : A → Bool) (f : A → A) (xs : List A)
      → ((x : A) → key (f x) ≡ key x)
      → All (λ y. key y ≢ k) xs
      → All (λ y. key y ≢ k) (update_where q f xs)
  All-keys-update_where key k q f [] e a = tt
  All-keys-update_where key k q f (x ∷ xs) e a = elim (Bool-cases (q x)) [
    | inl hit ↦ rw (hit, e) (a.0, All-keys-update_where key k q f xs e a.1)
    | inr miss ↦ rw miss (a.0, All-keys-update_where key k q f xs e a.1)
  ]

  -- An UPDATE that keeps the keys keeps them distinct.
  pub DistinctBy-update_where :
      (key : A → ℕ) (q : A → Bool) (f : A → A) (xs : List A)
      → ((x : A) → key (f x) ≡ key x)
      → DistinctBy key xs
      → DistinctBy key (update_where q f xs)
  DistinctBy-update_where key q f [] e d = tt
  DistinctBy-update_where key q f (x ∷ xs) e d = elim (Bool-cases (q x)) [
    | inl hit ↦
        rw (hit, e)
          (All-keys-update_where key (key x) q f xs e d.0, DistinctBy-update_where key q f xs e d.1)
    | inr miss ↦
        rw miss
          (All-keys-update_where key (key x) q f xs e d.0, DistinctBy-update_where key q f xs e d.1)
  ]

  All-keys-appended :
      (key : A → ℕ) (k : ℕ) (xs : List A) (x : A)
      → key x ≢ k
      → All (λ y. key y ≢ k) xs
      → All (λ y. key y ≢ k) (xs ++ (x ∷ []))
  All-keys-appended key k [] x n a = (n, tt)
  All-keys-appended key k (y ∷ ys) x n a = (a.0, All-keys-appended key k ys x n a.1)

  -- An INSERT of a row whose key no row has.
  pub DistinctBy-appended :
      (key : A → ℕ) (xs : List A) (x : A)
      → All (λ y. (key y == key x) ≡ false) xs
      → DistinctBy key xs
      → DistinctBy key (xs ++ (x ∷ []))
  DistinctBy-appended key [] x n d = (tt, tt)
  DistinctBy-appended key (y ∷ ys) x n d = (
    All-keys-appended key (key y) ys x (λ e. let m = n.0 in absurd (ground arith)) d.0,
    DistinctBy-appended key ys x n.1 d.1,
  )
