-- ===== src/Http/Number.antt =====
-- strconv.Atoi and ParseInt(s, 10, 64), which agree on 64-bit machines.
use go_invoicing.Base.{sym, zero, suc, ◌%◌, ◌/◌}
use go_invoicing.Base.{
  ◌%◌, ◌/◌, inr, inl, suc, ap, Bool-cases, ◌∙◌, ℕ, ◌+◌, ◌-◌, ◌≤◌, ◌≡◌, refl, Bool, true, false,
  ◌==◌, ltb, leb, Option, none, some, [], ◌∷◌, if◌then◌else◌, arith,
}
use go_invoicing.Base.Int.{ℤ, pos, negsuc}
use go_invoicing.Base.Text.{
  decimal_from, Text, itoa, all_codes, is_digit, is_empty, decimal_value, decimal_value-itoa,
  all_codes-itoa,
}

abbrev pub is_number : Text → Bool
is_number s = if is_empty s then false else all_codes is_digit s

abbrev pub in_range : ℕ → ℕ → ℤ → Option ℤ
in_range bound n value = if leb n bound then some value else none

abbrev pub negated : ℕ → ℤ
negated n = if n == 0 then pos 0 else negsuc (n - 1)

abbrev pub parse_unsigned : Text → Option ℤ
parse_unsigned s =
    if is_number s
    then in_range 9223372036854775807 (decimal_value 0 s) (pos (decimal_value 0 s))
    else none

abbrev pub parse_negative : Text → Option ℤ
parse_negative s =
    if is_number s
    then in_range 9223372036854775808 (decimal_value 0 s) (negated (decimal_value 0 s))
    else none

unfoldable pub atoi : Text → Option ℤ
atoi [] = none
atoi (c ∷ s) =
    if c == b'-'
    then parse_negative s
    else if c == b'+'
    then parse_unsigned s
    else parse_unsigned (c ∷ s)

-- A text of digits has no sign.
unsigned : (s : Text) → is_number s ≡ true → atoi s ≡ parse_unsigned s
unfolding atoi
unsigned [] h = absurd (ground arith)
unsigned (c ∷ s) h = ground arith

pub atoi-digits :
    (s : Text)
    → is_number s ≡ true
    → decimal_value 0 s ≤ 9223372036854775807
    → atoi s ≡ some (pos (decimal_value 0 s))
atoi-digits s h small = rw (unsigned s h) (ground arith)

filled_from : (fuel n c : ℕ) (acc : Text) → is_empty (decimal_from fuel n (c ∷ acc)) ≡ false
unfolding decimal_from
filled_from zero n c acc = refl
filled_from (suc fuel) n c acc = elim (Bool-cases (ltb n 10)) [
  | inl small ↦ rw small refl
  | inr large ↦ rw large (filled_from fuel (n / 10) (48 + n % 10) (c ∷ acc))
]

pub itoa-filled : (n : ℕ) → is_empty (itoa n) ≡ false
unfolding itoa decimal_from
itoa-filled n = elim (Bool-cases (ltb n 10)) [
  | inl small ↦ rw small refl
  | inr large ↦ rw (large, filled_from n (n / 10) (48 + n % 10) []) refl
]

pub is_number-itoa : (n : ℕ) → is_number (itoa n) ≡ true
unfolding itoa decimal_from
is_number-itoa n = elim (Bool-cases (ltb n 10)) [
  | inl small ↦ rw small (ground arith)
  | inr large ↦
      let digits : all_codes is_digit (decimal_from n (n / 10) ((48 + n % 10) ∷ [])) ≡ true =
        let a = all_codes-itoa n in rw large at a in
      rw (large, filled_from n (n / 10) (48 + n % 10) []) digits
]

-- Atoi reads back what Itoa printed.
pub atoi-itoa : (n : ℕ) → n ≤ 9223372036854775807 → atoi (itoa n) ≡ some (pos n)
atoi-itoa n small =
    let v = decimal_value-itoa n in
    atoi-digits (itoa n) (is_number-itoa n) (omega (arith, v, small)) ∙ ap (λ k. some (pos k)) v

pub atoi_ok :
    (s : Text) (n : ℕ)
    → is_number s ≡ true
    → atoi s ≡ some (pos n)
    → (decimal_value 0 s ≡ n) × (n ≤ 9223372036854775807)
atoi_ok s n h e =
    let u : parse_unsigned s ≡ some (pos n) = sym (unsigned s h) ∙ e in (ground arith, ground arith)

pub atoi_bound : (s : Text) (n : ℕ) → atoi s ≡ some (pos n) → n ≤ 9223372036854775807
unfolding atoi
atoi_bound [] n e = absurd (ground arith)
atoi_bound (c ∷ s) n e = ground arith
