-- ===== src/Admin/SettingsRequest.antt =====
-- A partial update of the settings, before it is written (settings_service.go, settings_dto.go). The
-- upper and lower case of code points beyond ASCII are arguments.
pub mod Laws
use go_invoicing.Base.{
  ℕ, Bool, true, false, not, ◌&&◌, ◌||◌, ◌==◌, Option, none, some, List, [], ◌∷◌, length, ltb, leb,
  if◌then◌else◌,
}
use go_invoicing.Base.Int.{ℤ, pos, pos_part, ltb_ℤ}
use go_invoicing.Base.Text.{
  Text, text_eq, is_empty, trim_space, to_upper, to_lower, byte_length, all_codes,
}
use go_invoicing.Errors.{
  Result, ok, ◌>>=◌, ◌>>◌, fail_if, settings_version_conflict, settings_currency_required,
  settings_currency_invalid, settings_payment_terms_invalid, settings_invoice_prefix_required,
  settings_quantity_unit_invalid, settings_quantity_unit_duplicate,
  settings_quantity_units_too_many,
}
use go_invoicing.Admin.{Settings, max_quantity_unit_length, max_quantity_units}

-- A field that is none is left as it is.
pub record UpdateSettingsRequest : Type 0 where
  pub currency : Option Text
  pub payment_terms : Option ℤ
  pub invoice_prefix : Option Text
  pub quantity_units : Option (List Text)

unfoldable pub is_valid_settings_currency_code : Text → Bool
is_valid_settings_currency_code code =
    byte_length code == 3 && all_codes (λ c. leb b'A' c && leb c b'Z') code

abbrev pub is_seen : Text → List Text → Bool
is_seen key [] = false
is_seen key (k ∷ seen) = let rest = is_seen key seen in if text_eq k key then true else rest

-- The loop of normalizeQuantityUnits, with the keys that it has seen.
unfoldable pub normalize_from : (ℕ → ℕ) → List Text → List Text → Result (List Text)
normalize_from lower seen [] = ok []
normalize_from lower seen (u ∷ us) = do
  let unit = trim_space u
  fail_if (is_empty unit || ltb max_quantity_unit_length (length unit))
      settings_quantity_unit_invalid
  let key = to_lower lower unit
  fail_if (is_seen key seen) settings_quantity_unit_duplicate
  rest ← normalize_from lower (key ∷ seen) us
  ok (unit ∷ rest)

unfoldable pub normalize_quantity_units : (ℕ → ℕ) → List Text → Result (List Text)
normalize_quantity_units lower units = do
  fail_if (ltb max_quantity_units (length units)) settings_quantity_units_too_many
  normalize_from lower [] units

unfoldable pub apply_currency : (ℕ → ℕ) → Option Text → Settings → Result Settings
apply_currency upper none s = ok s
apply_currency upper (some value) s = do
  let currency = to_upper upper (trim_space value)
  fail_if (is_empty currency) settings_currency_required
  fail_if (not (is_valid_settings_currency_code currency)) settings_currency_invalid
  ok (record s { currency = currency })

unfoldable pub apply_payment_terms : Option ℤ → Settings → Result Settings
apply_payment_terms none s = ok s
apply_payment_terms (some days) s = do
  fail_if (ltb_ℤ days (pos 0)) settings_payment_terms_invalid
  ok (record s { payment_terms = pos_part days })

unfoldable pub apply_prefix : Option Text → Settings → Result Settings
apply_prefix none s = ok s
apply_prefix (some value) s = do
  let prefix = trim_space value
  fail_if (is_empty prefix) settings_invoice_prefix_required
  ok (record s { invoice_prefix = prefix })

unfoldable pub apply_units : (ℕ → ℕ) → Option (List Text) → Settings → Result Settings
apply_units lower none s = ok s
apply_units lower (some units) s = do
  normalized ← normalize_quantity_units lower units
  ok (record s { quantity_units = normalized })

-- The part of Update between its read and its write.
unfoldable pub apply_settings_update :
    (ℕ → ℕ) → (ℕ → ℕ) → ℕ → UpdateSettingsRequest → Settings → Result Settings
apply_settings_update upper lower expected r s = do
  fail_if (not (s.version == expected)) settings_version_conflict
  s ← apply_currency upper r.currency s
  s ← apply_payment_terms r.payment_terms s
  s ← apply_prefix r.invoice_prefix s
  apply_units lower r.quantity_units s
