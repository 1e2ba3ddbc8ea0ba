-- ===== src/Invoice/Format.antt =====
-- Amounts and file names on the PDF of an invoice (pdf_format.go).
pub mod Laws
use go_invoicing.Base.{
  ℕ, ◌+◌, ◌/◌, ◌%◌, ◌^◌, Bool, true, false, ◌&&◌, ◌||◌, ◌==◌, leb, Option, none, some, List, [],
  ◌∷◌, ◌++◌, keep, if◌then◌else◌,
}
use go_invoicing.Base.Int.{ℤ, pos, ltb_ℤ, add64, sub64, bits64}
use go_invoicing.Base.Text.{Text, codes, text_eq, is_empty, itoa, to_upper, trim_space, is_digit}

-- absUint64: the wrap-around of int64 and of uint64 is written out.
unfoldable pub abs_uint64 : ℤ → ℕ
abs_uint64 n =
    if ltb_ℤ n (pos 0) then (bits64 (sub64 (pos 0) (add64 n (pos 1))) + 1) % 2 ^ 64 else bits64 n

-- currencySymbols
abbrev pub currency_symbol : Text → Option ℕ
currency_symbol code =
    if text_eq code (codes "GBP")
    then some 0xA3
    else if text_eq code (codes "EUR")
    then some 0x20AC
    else if text_eq code (codes "USD")
    then some b'$'
    else none

-- fmt.Sprintf("%d.%02d", abs / 100, abs % 100)
abbrev pub amount_text : ℕ → Text
amount_text abs = itoa (abs / 100) ++ (b'.' ∷ (48 + abs % 100 / 10) ∷ (48 + abs % 100 % 10) ∷ [])

abbrev pub sign_text : Bool → Text
sign_text negative = if negative then b'-' ∷ [] else []

abbrev with_symbol : Bool → Text → Text → Option ℕ → Text
with_symbol negative amount code (some symbol) = sign_text negative ++ (symbol ∷ amount)
with_symbol negative amount code none = sign_text negative ++ (amount ++ (b' ' ∷ code))

abbrev pub currency_code : (ℕ → ℕ) → Text → Text
currency_code table currency = to_upper table (trim_space currency)

unfoldable pub format_money : (ℕ → ℕ) → ℤ → Text → Text
format_money table minor_units currency =
    with_symbol (ltb_ℤ minor_units (pos 0)) (amount_text (abs_uint64 minor_units))
      (currency_code table currency) (currency_symbol (currency_code table currency))

-- [A-Za-z0-9_-]
abbrev pub is_safe : ℕ → Bool
is_safe c =
    (leb b'A' c && leb c b'Z') || (leb b'a' c && leb c b'z') || is_digit c || c == b'_' || c == b'-'

unfoldable pub sanitize_filename_component : Text → Text
sanitize_filename_component value =
    if is_empty (keep is_safe value) then codes "invoice" else keep is_safe value
