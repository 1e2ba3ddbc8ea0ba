-- ===== src/Base/Text.antt =====
-- Go strings as lists of code points (valid UTF-8), with the parts of the packages `strings`,
-- `strconv` and `unicode/utf8` that the program calls.
use Prim.Native.Nat.{ℕ, zero, suc, ◌+◌, ◌-◌, ◌*◌, ◌/◌, ◌%◌, ◌<◌}
use Prim.Native.Char.{code}
use Prim.Native.String.{String}
use mathlib.Core.Path.{subst, ◌≡◌, refl, ap, sym, ◌∙◌}
use mathlib.Core.Logic.{◌⊎◌, inl, inr}
use mathlib.Core.Bool.{Bool, true, false, ◌&&◌, ◌||◌}
use mathlib.Core.List.{List, [], ◌∷◌, map}
use native.Mathlib.Omega.{arith}
use go_invoicing.Base.Tests.{ltb, leb, ◌==◌, if◌then◌else◌, Bool-cases}

abbrev pub Text : Type 0
Text = List ℕ

-- The code points of a literal.
abbrev pub codes : String → Text
codes String.[] = []
codes (String.◌∷◌ c s) = code c ∷ codes s

abbrev pub text_eq : Text → Text → Bool
text_eq [] [] = true
text_eq [] (_ ∷ _) = false
text_eq (_ ∷ _) [] = false
text_eq (a ∷ s) (b ∷ t) = let rest = text_eq s t in if a == b then rest else false

abbrev pub is_empty : Text → Bool
is_empty [] = true
is_empty (_ ∷ _) = false

-- unicode.IsSpace
unfoldable pub is_space : ℕ → Bool
is_space c =
    (leb 9 c && leb c 13)
    || c == 32
    || c == 0x85
    || c == 0xA0
    || c == 0x1680
    || (leb 0x2000 c && leb c 0x200A)
    || c == 0x2028
    || c == 0x2029
    || c == 0x202F
    || c == 0x205F
    || c == 0x3000

abbrev pub trim_left : Text → Text
trim_left [] = []
trim_left (c ∷ s) = if is_space c then trim_left s else c ∷ s

abbrev cons_unless_blank : ℕ → Text → Text
cons_unless_blank c [] = if is_space c then [] else c ∷ []
cons_unless_blank c (d ∷ s) = c ∷ d ∷ s

abbrev pub trim_right : Text → Text
trim_right [] = []
trim_right (c ∷ s) = cons_unless_blank c (trim_right s)

-- strings.TrimSpace
unfoldable pub trim_space : Text → Text
trim_space s = trim_right (trim_left s)

-- The UTF-8 width of a code point, and `len` of a string.
abbrev pub utf8_width : ℕ → ℕ
utf8_width c = if ltb c 0x80 then 1 else if ltb c 0x800 then 2 else if ltb c 0x10000 then 3 else 4

abbrev pub byte_length : Text → ℕ
byte_length [] = 0
byte_length (c ∷ s) = utf8_width c + byte_length s

abbrev pub all_codes : (ℕ → Bool) → Text → Bool
all_codes p [] = true
all_codes p (c ∷ s) = let rest = all_codes p s in if p c then rest else false

-- strings.ToUpper and strings.ToLower: ASCII letters, and for other code points the tables of the
-- package `unicode`, which are arguments.
unfoldable pub upper_code : (ℕ → ℕ) → ℕ → ℕ
upper_code table c = if ltb c 128 then (if leb b'a' c && leb c b'z' then c - 32 else c) else table c

unfoldable pub lower_code : (ℕ → ℕ) → ℕ → ℕ
lower_code table c = if ltb c 128 then (if leb b'A' c && leb c b'Z' then c + 32 else c) else table c

abbrev pub to_upper : (ℕ → ℕ) → Text → Text
to_upper table s = map (upper_code table) s

abbrev pub to_lower : (ℕ → ℕ) → Text → Text
to_lower table s = map (lower_code table) s

-- strconv.Itoa of a number that is not negative; the fuel `suc n` is more than its digits.
unfoldable pub decimal_from : ℕ → ℕ → Text → Text
decimal_from zero n acc = acc
decimal_from (suc fuel) n acc =
    let rest = decimal_from fuel (n / 10) ((48 + n % 10) ∷ acc) in
    if ltb n 10 then (48 + n) ∷ acc else rest

unfoldable pub itoa : ℕ → Text
unfolding decimal_from
itoa n = decimal_from (suc n) n []

-- The number that a text of digits stands for.
abbrev pub decimal_value : ℕ → Text → ℕ
decimal_value acc [] = acc
decimal_value acc (c ∷ s) = decimal_value (acc * 10 + (c - 48)) s

abbrev pub is_digit : ℕ → Bool
is_digit c = leb b'0' c && leb c b'9'

-- Laws of the text functions.

pub text_eq_refl : (s : Text) → text_eq s s ≡ true
text_eq_refl [] = refl
text_eq_refl (c ∷ s) = ground (arith, text_eq_refl s)

pub eq_of_text_eq : (s t : Text) → text_eq s t ≡ true → s ≡ t
eq_of_text_eq [] [] h = refl
eq_of_text_eq [] (_ ∷ _) h = cc
eq_of_text_eq (_ ∷ _) [] h = cc
eq_of_text_eq (a ∷ s) (b ∷ t) h = ground (arith, eq_of_text_eq s t)

pub text_eq_sym : (s t : Text) → text_eq s t ≡ false → text_eq t s ≡ false
text_eq_sym s t n = elim (Bool-cases (text_eq t s)) [
  | inr no' ↦ no'
  | inl yes' ↦
      let e = eq_of_text_eq t s yes' in
      let z : text_eq s s ≡ false = subst (λ u. text_eq s u ≡ false) e n in
      absurd (let r = text_eq_refl s in ground (arith, z, r))
]

pub decimal_value-decimal_from :
    (fuel n : ℕ) (acc : Text)
    → n < fuel
    → decimal_value 0 (decimal_from fuel n acc) ≡ decimal_value n acc
unfolding decimal_from
decimal_value-decimal_from zero n acc h = elim h [ ]
decimal_value-decimal_from (suc fuel) n acc h = elim (Bool-cases (ltb n 10)) [
  | inl small ↦ rw small (ap (λ k. decimal_value k acc) (omega arith))
  | inr large ↦ rw large (
      decimal_value-decimal_from fuel (n / 10) ((48 + n % 10) ∷ acc) (ground arith)
      ∙ ap (λ k. decimal_value k acc) (omega arith))
]

pub decimal_value-itoa : (n : ℕ) → decimal_value 0 (itoa n) ≡ n
unfolding itoa
decimal_value-itoa n = decimal_value-decimal_from (suc n) n [] (omega arith)

pub itoa_injective : (m n : ℕ) → itoa m ≡ itoa n → m ≡ n
itoa_injective m n h = sym (decimal_value-itoa m) ∙ ap (decimal_value 0) h ∙ decimal_value-itoa n

pub all_codes-decimal_from :
    (fuel n : ℕ) (acc : Text)
    → all_codes is_digit acc ≡ true
    → all_codes is_digit (decimal_from fuel n acc) ≡ true
unfolding decimal_from
all_codes-decimal_from zero n acc h = h
all_codes-decimal_from (suc fuel) n acc h = elim (Bool-cases (ltb n 10)) [
  | inl small ↦ rw small (ground arith)
  | inr large ↦ rw large (all_codes-decimal_from fuel (n / 10) ((48 + n % 10) ∷ acc) (ground arith))
]

pub all_codes-itoa : (n : ℕ) → all_codes is_digit (itoa n) ≡ true
unfolding itoa
all_codes-itoa n = all_codes-decimal_from (suc n) n [] refl

pub trim_left_idem : (s : Text) → trim_left (trim_left s) ≡ trim_left s
trim_left_idem [] = refl
trim_left_idem (c ∷ s) = ground (arith, trim_left_idem s)

trim_right-cons_unless_blank :
    (c : ℕ) (s : Text)
    → trim_right s ≡ s
    → trim_right (cons_unless_blank c s) ≡ cons_unless_blank c s
trim_right-cons_unless_blank c [] h = ground arith
trim_right-cons_unless_blank c (d ∷ s) h = ground arith

pub trim_right_idem : (s : Text) → trim_right (trim_right s) ≡ trim_right s
trim_right_idem [] = refl
trim_right_idem (c ∷ s) = trim_right-cons_unless_blank c (trim_right s) (trim_right_idem s)

trim_left_cases :
    (s : Text)
    → (trim_left s ≡ []) ⊎ ((c : ℕ) × (t : Text) × (trim_left s ≡ c ∷ t) × (is_space c ≡ false))
trim_left_cases [] = inl refl
trim_left_cases (c ∷ s) = elim (Bool-cases (is_space c)) [
  | inl blank ↦ rw blank (trim_left_cases s)
  | inr mark ↦ rw mark (inr (c, s, refl, mark))
]

trim_left-cons_unless_blank :
    (c : ℕ) (s : Text)
    → is_space c ≡ false
    → trim_left (cons_unless_blank c s) ≡ cons_unless_blank c s
trim_left-cons_unless_blank c [] h = ground arith
trim_left-cons_unless_blank c (d ∷ s) h = ground arith

pub trim_space_idem : (s : Text) → trim_space (trim_space s) ≡ trim_space s
unfolding trim_space
trim_space_idem s = elim (trim_left_cases s) [
  | inl e ↦ rw e refl
  | inr (c, t, e, mark) ↦
      rw e (rw (trim_left-cons_unless_blank c (trim_right t) mark) (trim_right_idem (c ∷ t)))
]
