-- ===== src/Invoice/Format/Laws.antt =====
-- What the amounts and file names on a PDF show (pdf_format.go).
use go_invoicing.Base.{zero, suc}
use go_invoicing.Base.Int.{of_bits64}
use go_invoicing.Base.{
  ◌≡◌, ◌∙◌, ◌<◌, refl, sym, ap, ℕ, ◌+◌, ◌*◌, ◌-◌, ◌/◌, ◌%◌, Bool, true, false, Bool-cases, inl, inr,
  some, [], ◌∷◌, ◌++◌, keep, ◌==◌, arith,
}
use go_invoicing.Base.Int.{
  ℤ, pos, negsuc, pos_part, neg_part, ltb_ℤ, InInt64, add64, sub64, bits64, wrap64, wrap64_id, ◌+ℤ◌,
  ◌-ℤ◌, +ℤ_parts, -ℤ_parts, eq_of_parts,
}
use go_invoicing.Base.Text.{
  Text, codes, text_eq, is_empty, itoa, is_digit, all_codes, all_codes-itoa, decimal_value,
  decimal_value-itoa,
}
use go_invoicing.Invoice.Format.{
  abs_uint64, currency_symbol, currency_code, amount_text, sign_text, format_money, is_safe,
  sanitize_filename_component,
}

-- The magnitude of an int64.
abs_pos : (n : ℕ) → n < 9223372036854775808 → abs_uint64 (pos n) ≡ n
unfolding abs_uint64 bits64
abs_pos n h = ground arith

next_up : (n : ℕ) → n < 9223372036854775808 → add64 (negsuc (suc n)) (pos 1) ≡ negsuc n
unfolding add64
next_up n h =
    let e : negsuc (suc n) +ℤ pos 1 ≡ negsuc n =
      eq_of_parts (negsuc (suc n) +ℤ pos 1) (negsuc n)
        (let p = +ℤ_parts (negsuc (suc n)) (pos 1) in omega (arith, p)) in
    ap wrap64 e ∙ wrap64_id (negsuc n) (omega arith, omega (arith, h))

turned : (n : ℕ) → suc n < 9223372036854775808 → sub64 (pos 0) (negsuc n) ≡ pos (suc n)
unfolding sub64
turned n h =
    let e : pos 0 -ℤ negsuc n ≡ pos (suc n) =
      eq_of_parts (pos 0 -ℤ negsuc n) (pos (suc n))
        (let p = -ℤ_parts (pos 0) (negsuc n) in omega (arith, p)) in
    ap wrap64 e ∙ wrap64_id (pos (suc n)) (h, omega arith)

negated_zero : sub64 (pos 0) (add64 (negsuc 0) (pos 1)) ≡ pos 0
unfolding add64 sub64 wrap64 ◌+ℤ◌ ◌-ℤ◌ bits64 of_bits64
negated_zero = refl

negated_next : (n : ℕ) → n < 9223372036854775808 → sub64 (pos 0) (add64 (negsuc n) (pos 1)) ≡ pos n
negated_next zero h = negated_zero
negated_next (suc n) h = ap (sub64 (pos 0)) (next_up n (omega (arith, h))) ∙ turned n h

abs_negsuc : (n : ℕ) → n < 9223372036854775808 → abs_uint64 (negsuc n) ≡ n + 1
unfolding abs_uint64 bits64
abs_negsuc n h = rw (negated_next n h) (ground arith)

abbrev magnitude : ℤ → ℕ
magnitude n = pos_part n + neg_part n

abs_uint64-magnitude : (n : ℤ) → InInt64 n → abs_uint64 n ≡ magnitude n
abs_uint64-magnitude (pos n) h = abs_pos n h.0 ∙ omega arith
abs_uint64-magnitude (negsuc n) h = abs_negsuc n (let k = h.1 in omega (arith, k)) ∙ omega arith

keep-append : (p : ℕ → Bool) (s t : Text) → keep p (s ++ t) ≡ keep p s ++ keep p t
keep-append p [] t = refl
keep-append p (c ∷ s) t = elim (Bool-cases (p c)) [
  | inl yes' ↦ rw yes' (ap (λ r. c ∷ r) (keep-append p s t))
  | inr no' ↦ rw no' (keep-append p s t)
]

keep-all_codes : (p : ℕ → Bool) (s : Text) → all_codes p s ≡ true → keep p s ≡ s
keep-all_codes p [] h = refl
keep-all_codes p (c ∷ s) h = elim (Bool-cases (p c)) [
  | inl yes' ↦ rw yes' (ap (λ r. c ∷ r) (keep-all_codes p s (ground arith)))
  | inr no' ↦ absurd (ground arith)
]

decimal_value-append :
    (acc : ℕ) (s t : Text) → decimal_value acc (s ++ t) ≡ decimal_value (decimal_value acc s) t
decimal_value-append acc [] t = refl
decimal_value-append acc (c ∷ s) t = decimal_value-append (acc * 10 + (c - 48)) s t

abbrev cents : ℕ → Text
cents a = (48 + a % 100 / 10) ∷ (48 + a % 100 % 10) ∷ []

-- The digits of an amount are those of its number of minor units.
digits-amount_text : (a : ℕ) → keep is_digit (amount_text a) ≡ itoa (a / 100) ++ cents a
digits-amount_text a =
    keep-append is_digit (itoa (a / 100)) (b'.' ∷ cents a)
    ∙ ap (λ r. r ++ keep is_digit (b'.' ∷ cents a))
        (keep-all_codes is_digit (itoa (a / 100)) (all_codes-itoa (a / 100)))
    ∙ ap (λ r. itoa (a / 100) ++ r) (keep-all_codes is_digit (cents a) (ground arith))

amount_value : (a : ℕ) → decimal_value 0 (keep is_digit (amount_text a)) ≡ a
amount_value a =
    ap (decimal_value 0) (digits-amount_text a)
    ∙ decimal_value-append 0 (itoa (a / 100)) (cents a)
    ∙ ap (λ k. decimal_value k (cents a)) (decimal_value-itoa (a / 100))
    ∙ omega arith

symbol_cases :
    (code : Text) (symbol : ℕ)
    → currency_symbol code ≡ some symbol
    → (is_digit symbol ≡ false) × ((symbol == b'-') ≡ false)
symbol_cases code symbol h = elim (Bool-cases (text_eq code (codes "GBP"))) [
  | inl pound ↦ ground arith
  | inr a ↦ elim (Bool-cases (text_eq code (codes "EUR"))) [
    | inl euro ↦ ground arith
    | inr b ↦ elim (Bool-cases (text_eq code (codes "USD"))) [
      | inl dollar ↦ ground arith
      | inr c ↦ absurd (ground arith)
    ]
  ]
]

-- The text of an amount in a currency with a symbol.
shown :
    (table : ℕ → ℕ) (n : ℤ) (currency : Text) (symbol : ℕ)
    → currency_symbol (currency_code table currency) ≡ some symbol
    → format_money table n currency
      ≡ sign_text (ltb_ℤ n (pos 0)) ++ (symbol ∷ amount_text (abs_uint64 n))
unfolding format_money
shown table n currency symbol h = rw h refl

shown_value :
    (negative : Bool) (symbol a : ℕ)
    → is_digit symbol ≡ false
    → decimal_value 0 (keep is_digit (sign_text negative ++ (symbol ∷ amount_text a))) ≡ a
shown_value true symbol a h = rw h (amount_value a)
shown_value false symbol a h = rw h (amount_value a)

abbrev starts_with_minus : Text → Bool
starts_with_minus [] = false
starts_with_minus (c ∷ s) = c == b'-'

shown_sign :
    (negative : Bool) (symbol a : ℕ)
    → (symbol == b'-') ≡ false
    → starts_with_minus (sign_text negative ++ (symbol ∷ amount_text a)) ≡ negative
shown_sign true symbol a h = refl
shown_sign false symbol a h = h

same_amount : (m n : ℤ) → magnitude m ≡ magnitude n → ltb_ℤ m (pos 0) ≡ ltb_ℤ n (pos 0) → m ≡ n
same_amount (pos m) (pos n) e s = ap pos (omega (arith, e))
same_amount (negsuc m) (negsuc n) e s = ap negsuc (omega (arith, e))
same_amount (pos m) (negsuc n) e s = absurd (ground arith)
same_amount (negsuc m) (pos n) e s = absurd (ground arith)

-- Two amounts that the PDF of an invoice shows alike, in a currency with a symbol, are the same amount,
-- for all int64 values, the least one included.
pub format_money_injective :
    (table : ℕ → ℕ) (m n : ℤ) (currency : Text) (symbol : ℕ)
    → InInt64 m
    → InInt64 n
    → currency_symbol (currency_code table currency) ≡ some symbol
    → format_money table m currency ≡ format_money table n currency
    → m ≡ n
format_money_injective table m n currency symbol hm hn known same =
    let (mark, bare) = symbol_cases (currency_code table currency) symbol known in
    let texts =
      sym (shown table m currency symbol known) ∙ same ∙ shown table n currency symbol known in
    let values =
      sym (shown_value (ltb_ℤ m (pos 0)) symbol (abs_uint64 m) mark)
      ∙ ap (λ t. decimal_value 0 (keep is_digit t)) texts
      ∙ shown_value (ltb_ℤ n (pos 0)) symbol (abs_uint64 n) mark in
    let signs =
      sym (shown_sign (ltb_ℤ m (pos 0)) symbol (abs_uint64 m) bare)
      ∙ ap starts_with_minus texts
      ∙ shown_sign (ltb_ℤ n (pos 0)) symbol (abs_uint64 n) bare in
    same_amount m n (sym (abs_uint64-magnitude m hm) ∙ values ∙ abs_uint64-magnitude n hn) signs

all_codes-keep : (p : ℕ → Bool) (s : Text) → all_codes p (keep p s) ≡ true
all_codes-keep p [] = refl
all_codes-keep p (c ∷ s) = elim (Bool-cases (p c)) [
  | inl yes' ↦ rw (yes', yes') (all_codes-keep p s)
  | inr no' ↦ rw no' (all_codes-keep p s)
]

-- A file name is never empty and has only letters, digits, underscores and hyphens.
pub sanitize_filename_component_lem :
    (value : Text)
    → (all_codes is_safe (sanitize_filename_component value) ≡ true)
      × (is_empty (sanitize_filename_component value) ≡ false)
unfolding sanitize_filename_component
sanitize_filename_component_lem value = elim (Bool-cases (is_empty (keep is_safe value))) [
  | inl none_left ↦ rw none_left (refl, refl)
  | inr left ↦ rw left (all_codes-keep is_safe value, left)
]
