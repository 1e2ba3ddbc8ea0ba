-- ===== src/Ledger/Currency.antt =====
-- The currency that a response shows for an invoice that was issued.
use go_invoicing.Base.{ℕ, ◌≡◌, ◌⊎◌, inl, inr, refl, true, false, some, none, Option, [], ◌∷◌, arith}
use go_invoicing.Base.Text.{Text, is_space, trim_space, upper_code, is_empty}
use go_invoicing.Errors.{ok}
use go_invoicing.Admin.{Settings}
use go_invoicing.Invoice.{Status, Invoice}
use go_invoicing.Invoice.Snapshot.{
  is_valid_currency_code, is_upper, normalize_currency, resolve_currency_from_settings,
}
use mathlib.Core.Path.{subst}
use go_invoicing.Ledger.{CoherentAs, has_code, IsCoherent, IsIssued}

upper_not_space : (c : ℕ) → is_upper c ≡ true → is_space c ≡ false
unfolding is_space
upper_not_space c h = ground arith

upper_code_id : (table : ℕ → ℕ) (c : ℕ) → is_upper c ≡ true → upper_code table c ≡ c
unfolding upper_code
upper_code_id table c h = ground arith

-- A currency code is as it is normalised.
normalize_code :
    (table : ℕ → ℕ) (c : Text)
    → is_valid_currency_code c ≡ true
    → (normalize_currency table c ≡ c) × (is_empty (trim_space c) ≡ false)
unfolding is_valid_currency_code normalize_currency trim_space
normalize_code table [] h = absurd (ground arith)
normalize_code table (a ∷ []) h = absurd (ground arith)
normalize_code table (a ∷ b ∷ []) h = absurd (ground arith)
normalize_code table (a ∷ b ∷ c ∷ []) h =
    let x : is_upper a ≡ true = ground arith in
    let y : is_upper b ≡ true = ground arith in
    let z : is_upper c ≡ true = ground arith in
    rw (upper_not_space a x, upper_not_space c z)
      (rw (upper_code_id table a x, upper_code_id table b y, upper_code_id table c z) refl, refl)
normalize_code table (a ∷ b ∷ c ∷ d ∷ s) h = absurd (ground arith)

abbrev IsFinal : Status → Type 0
IsFinal s = (s ≡ Status.sent) ⊎ ((s ≡ Status.paid) ⊎ (s ≡ Status.cancelled))

IsIssued-of_coherent : (i : Invoice) → IsCoherent i → IsFinal i.status → IsIssued i
IsIssued-of_coherent i h (inl e) = let c = subst (λ st. CoherentAs st i) e h in c.2
IsIssued-of_coherent i h (inr (inl e)) = let c = subst (λ st. CoherentAs st i) e h in c.2
IsIssued-of_coherent i h (inr (inr e)) = let c = subst (λ st. CoherentAs st i) e h in c.1

code_of :
    (o : Option Text)
    → has_code o ≡ true
    → (c : Text) × (o ≡ some c) × (is_valid_currency_code c ≡ true)
code_of none h = absurd (ground arith)
code_of (some c) h = (c, refl, h)

issued_code :
    (i : Invoice)
    → IsIssued i
    → (c : Text) × (i.currency ≡ some c) × (is_valid_currency_code c ≡ true)
issued_code i h = code_of i.currency h.2

resolved :
    (table : ℕ → ℕ) (i : Invoice) (settings : Option Settings) (c : Text)
    → IsFinal i.status
    → i.currency ≡ some c
    → normalize_currency table c ≡ c
    → is_empty (trim_space c) ≡ false
    → resolve_currency_from_settings table i settings ≡ ok c
unfolding resolve_currency_from_settings
resolved table i settings c st e n t = ground arith

-- An invoice that a sound ledger holds as Sent, Paid or Cancelled is shown with its own captured
-- currency, unchanged, whatever the organisation's settings say now, or if they are gone.
pub issued_currency :
    (table : ℕ → ℕ) (i : Invoice) (settings : Option Settings)
    → IsCoherent i
    → (i.status ≡ Status.sent) ⊎ ((i.status ≡ Status.paid) ⊎ (i.status ≡ Status.cancelled))
    → (c : Text) × (i.currency ≡ some c) × (resolve_currency_from_settings table i settings ≡ ok c)
issued_currency table i settings h st =
    let (c, e, v) = issued_code i (IsIssued-of_coherent i h st) in
    let (n, t) = normalize_code table c v in (c, e, resolved table i settings c st e n t)
