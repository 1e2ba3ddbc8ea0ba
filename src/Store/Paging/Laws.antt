-- ===== src/Store/Paging/Laws.antt =====
-- What a page holds, and what all the pages hold together.
use mathlib.Core.List.{Perm}
use mathlib.Core.List.Perm
use go_invoicing.Base.{
  ℕ, zero, suc, ◌+◌, ◌*◌, ◌≤◌, ◌≡◌, refl, sym, ap, ◌∙◌, inl, inr, Bool, true, Bool-cases, List, [],
  ◌∷◌, ◌++◌, All, keep, length, arith,
}
use go_invoicing.Store.Paging.{take, drop, insert_row, sort_rows, paged, visit}

module _ {ℓ} {A : Type ℓ} where
  module _ {κ} (P : A → Type κ) where
    All-take : (n : ℕ) (is : List A) → All P is → All P (take n is)
    All-take zero is a = tt
    All-take (suc n) [] a = tt
    All-take (suc n) (i ∷ is) a = (a.0, All-take n is a.1)

    All-drop : (n : ℕ) (is : List A) → All P is → All P (drop n is)
    All-drop zero is a = a
    All-drop (suc n) [] a = tt
    All-drop (suc n) (i ∷ is) a = All-drop n is a.1

    All-insert_row :
        (p : A → A → Bool) (i : A) (is : List A) → P i → All P is → All P (insert_row p i is)
    All-insert_row p i [] h a = (h, tt)
    All-insert_row p i (j ∷ js) h a = elim (Bool-cases (p i j)) [
      | inl yes' ↦ rw yes' (h, a)
      | inr no' ↦ rw no' (a.0, All-insert_row p i js h a.1)
    ]

    All-sort_rows : (p : A → A → Bool) (is : List A) → All P is → All P (sort_rows p is)
    All-sort_rows p [] a = tt
    All-sort_rows p (i ∷ is) a = All-insert_row p i (sort_rows p is) a.0 (All-sort_rows p is a.1)

    pub All-paged :
        (p : A → A → Bool) (limit offset : ℕ) (is : List A)
        → All P is
        → All P (paged p limit offset is)
    All-paged p limit offset is a = All-take limit _ (All-drop offset _ (All-sort_rows p is a))

  pub All-keep : (p : A → Bool) (is : List A) → All (λ i. p i ≡ true) (keep p is)
  All-keep p [] = tt
  All-keep p (i ∷ is) = elim (Bool-cases (p i)) [
    | inl yes' ↦ rw yes' (yes', All-keep p is)
    | inr no' ↦ rw no' (All-keep p is)
  ]

  pub length-take : (n : ℕ) (is : List A) → length (take n is) ≤ n
  length-take zero is = omega arith
  length-take (suc n) [] = omega arith
  length-take (suc n) (i ∷ is) = omega (arith, length-take n is)

  insert_row-perm : (p : A → A → Bool) (i : A) (is : List A) → Perm (insert_row p i is) (i ∷ is)
  insert_row-perm p i [] = Perm.refl (i ∷ [])
  insert_row-perm p i (j ∷ js) = elim (Bool-cases (p i j)) [
    | inl yes' ↦ rw yes' (Perm.refl (i ∷ j ∷ js))
    | inr no' ↦ rw no' (Perm.trans (Perm.cons j (insert_row-perm p i js)) (Perm.swap i j js))
  ]

  sort_rows-perm : (p : A → A → Bool) (is : List A) → Perm (sort_rows p is) is
  sort_rows-perm p [] = Perm.refl []
  sort_rows-perm p (i ∷ is) =
      Perm.trans (insert_row-perm p i (sort_rows p is)) (Perm.cons i (sort_rows-perm p is))

  length-insert_row :
      (p : A → A → Bool) (i : A) (is : List A) → length (insert_row p i is) ≡ suc (length is)
  length-insert_row p i [] = refl
  length-insert_row p i (j ∷ js) = elim (Bool-cases (p i j)) [
    | inl yes' ↦ rw yes' refl
    | inr no' ↦ rw no' (ap suc (length-insert_row p i js))
  ]

  length-sort_rows : (p : A → A → Bool) (is : List A) → length (sort_rows p is) ≡ length is
  length-sort_rows p [] = refl
  length-sort_rows p (i ∷ is) =
      length-insert_row p i (sort_rows p is) ∙ ap suc (length-sort_rows p is)

  take-append-drop : (n : ℕ) (is : List A) → take n is ++ drop n is ≡ is
  take-append-drop zero is = refl
  take-append-drop (suc n) [] = refl
  take-append-drop (suc n) (i ∷ is) = ap (λ t. i ∷ t) (take-append-drop n is)

  drop-none : (n : ℕ) → drop {A = A} n [] ≡ []
  drop-none zero = refl
  drop-none (suc n) = refl

  drop-drop : (m n : ℕ) (is : List A) → drop (m + n) is ≡ drop n (drop m is)
  drop-drop zero n is = let e : 0 + n ≡ n = omega arith in rw e refl
  drop-drop (suc m) n [] = rw (drop-none (suc m + n), drop-none n) refl
  drop-drop (suc m) n (i ∷ is) =
      let e : suc m + n ≡ suc (m + n) = omega arith in rw e (drop-drop m n is)

  length-drop : (n m : ℕ) (is : List A) → length is ≤ n + m → length (drop n is) ≤ m
  length-drop zero m is h = omega (arith, h)
  length-drop (suc n) m [] h = omega arith
  length-drop (suc n) m (i ∷ is) h = length-drop n m is (omega (arith, h))

  empty : (is : List A) → length is ≤ 0 → is ≡ []
  empty [] h = refl
  empty (i ∷ is) h = absurd (omega (arith, h))

  visit_all :
      (limit offset count : ℕ) (is : List A)
      → length (drop offset is) ≤ count * limit
      → visit (λ o. take limit (drop o is)) limit offset count ≡ drop offset is
  visit_all limit offset zero is h = sym (empty (drop offset is) (ground (arith, h)))
  visit_all limit offset (suc count) is h =
      let rest = length-drop limit (count * limit) (drop offset is) (grind (arith, h)) in
      let e = drop-drop offset limit is in
      ap (λ t. take limit (drop offset is) ++ t)
        (visit_all limit (offset + limit) count is (rw e rest) ∙ e)
      ∙ take-append-drop limit (drop offset is)

  -- Enough pages hold every row exactly once.
  pub visit-perm :
      (p : A → A → Bool) (limit count : ℕ) (is : List A)
      → length is ≤ count * limit
      → Perm (visit (λ o. paged p limit o is) limit 0 count) is
  visit-perm p limit count is h =
      let e = visit_all limit 0 count (sort_rows p is) (rw (length-sort_rows p is) h) in
      rw e (sort_rows-perm p is)
