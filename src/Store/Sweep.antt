-- ===== src/Store/Sweep.antt =====
-- What a bounded DELETE leaves: how many rows, and which.
use go_invoicing.Base.{
  zero, suc, ℕ, ◌-◌, ◌≤◌, ◌<◌, ◌≡◌, Bool, false, Bool-cases, inl, inr, List, [], ◌∷◌, All, length,
  arith,
}
use go_invoicing.Store.Sessions.{sweep}
use go_invoicing.Store.Apart.{sweep-gone, sweep-kept}

module _ {ℓ} {A : Type ℓ} (p : A → Bool) where
  pub length-sweep : (n : ℕ) (xs : List A) → length (sweep p n xs) ≤ length xs
  length-sweep zero xs = omega arith
  length-sweep (suc n) [] = omega arith
  length-sweep (suc n) (x ∷ xs) = elim (Bool-cases (p x)) [
    | inl gone ↦ rw (sweep-gone p n x xs gone) (let i = length-sweep n xs in omega (arith, i))
    | inr kept ↦ rw (sweep-kept p n x xs kept) (let i = length-sweep (suc n) xs in omega (arith, i))
  ]

  -- When fewer rows than the bound were taken, none that passes the test is left.
  pub swept_clean :
      (n : ℕ) (xs : List A)
      → length xs - length (sweep p n xs) < n
      → All (λ x. p x ≡ false) (sweep p n xs)
  swept_clean zero xs h = absurd (omega (arith, h))
  swept_clean (suc n) [] h = tt
  swept_clean (suc n) (x ∷ xs) h = elim (Bool-cases (p x)) [
    | inl gone ↦
        let few : suc (length xs) - length (sweep p n xs) < suc n =
          rw (sweep-gone p n x xs gone) at h in
        let i = length-sweep n xs in
        rw (sweep-gone p n x xs gone) (swept_clean n xs (omega (arith, few, i)))
    | inr kept ↦
        let few : suc (length xs) - suc (length (sweep p (suc n) xs)) < suc n =
          rw (sweep-kept p n x xs kept) at h in
        rw (sweep-kept p n x xs kept) (kept, swept_clean (suc n) xs (omega (arith, few)))
  ]

  -- What holds of every row holds of those left.
  pub All-sweep {κ} : (P : A → Type κ) (n : ℕ) (xs : List A) → All P xs → All P (sweep p n xs)
  All-sweep P zero xs a = a
  All-sweep P (suc n) [] a = tt
  All-sweep P (suc n) (x ∷ xs) a = elim (Bool-cases (p x)) [
    | inl gone ↦ rw (sweep-gone p n x xs gone) (All-sweep P n xs a.1)
    | inr kept ↦ rw (sweep-kept p n x xs kept) (a.0, All-sweep P (suc n) xs a.1)
  ]
