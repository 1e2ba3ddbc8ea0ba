-- ===== src/Invoice/Snapshot.antt =====
-- The immutable party snapshot: its validation, and the currency rule (invoice_party_snapshot.go,
-- and resolveCurrencyFromSettings in invoice_service.go).
use go_invoicing.Base.{not, ℕ, Bool, ◌&&◌, Option, none, some, leb, ◌==◌, if◌then◌else◌}
use go_invoicing.Base.Text.{Text, is_empty, trim_space, to_upper, byte_length, all_codes}
use go_invoicing.Errors.{
  Result, ok, err, ◌>>◌, fail_if, invoice_currency_unavailable, snapshot_seller_name_required,
  snapshot_customer_name_required, snapshot_currency_required, snapshot_currency_invalid,
}
use go_invoicing.Admin.{Settings}
use go_invoicing.Invoice.{Invoice, InvoicePartySnapshot, is_draft}

abbrev pub is_upper : ℕ → Bool
is_upper c = leb b'A' c && leb c b'Z'

unfoldable pub is_valid_currency_code : Text → Bool
is_valid_currency_code code = byte_length code == 3 && all_codes is_upper code

-- The argument `table` is the upper case of code points beyond ASCII.
unfoldable pub normalize_currency : (ℕ → ℕ) → Text → Text
normalize_currency table currency = to_upper table (trim_space currency)

unfoldable pub validate : InvoicePartySnapshot → Result (Unit {0})
validate s = do
  fail_if (is_empty s.seller_name) snapshot_seller_name_required
  fail_if (is_empty s.customer_name) snapshot_customer_name_required
  fail_if (is_empty s.currency) snapshot_currency_required
  fail_if (not (is_valid_currency_code s.currency)) snapshot_currency_invalid

-- A nil or blank column counts as no currency.
abbrev snapshot_currency : (ℕ → ℕ) → Option Text → Result Text
snapshot_currency table none = err invoice_currency_unavailable
snapshot_currency table (some c) =
    if is_empty (trim_space c)
    then err invoice_currency_unavailable
    else ok (normalize_currency table c)

abbrev settings_currency : (ℕ → ℕ) → Option Settings → Result Text
settings_currency table none = err invoice_currency_unavailable
settings_currency table (some s) = ok (normalize_currency table s.currency)

unfoldable pub resolve_currency_from_settings : (ℕ → ℕ) → Invoice → Option Settings → Result Text
resolve_currency_from_settings table inv settings =
    if is_draft inv.status
    then settings_currency table settings
    else snapshot_currency table inv.currency
