-- ===== src/Http/ETag.antt =====
-- Entity tags: a version in quotes, and If-Match, which must hold one (etag.go).
use go_invoicing.Base.{
  ℕ, ◌≡◌, ◌≤◌, ◌↔◌, refl, ap, Bool, true, false, ◌==◌, leb, Option, none, some, Option-cases, List,
  [], ◌∷◌, ◌++◌, if◌then◌else◌, inl, inr, Bool-cases, arith,
}
use go_invoicing.Base.Text.{Text, itoa, is_empty, decimal_value, trim_space, trim_right, is_space}
use go_invoicing.Base.Int.{ℤ, pos}
use go_invoicing.Http.{Reply, ErrorCode}
use go_invoicing.Http.Number.{atoi_ok, atoi-digits, atoi, is_number, is_number-itoa, atoi-itoa}

unfoldable pub version_etag : ℕ → Text
version_etag version = b'"' ∷ (itoa version ++ (b'"' ∷ []))

abbrev cons_some : ℕ → Option Text → Option Text
cons_some c none = none
cons_some c (some s) = some (c ∷ s)

-- What stands before the final quote.
abbrev pub before_quote : Text → Option Text
before_quote [] = none
before_quote (c ∷ []) = if c == b'"' then some [] else none
before_quote (c ∷ d ∷ s) = cons_some c (before_quote (d ∷ s))

abbrev pub unquoted : Text → Option Text
unquoted [] = none
unquoted (c ∷ s) = if c == b'"' then before_quote s else none

abbrev positive : Option ℤ → Option ℕ
positive (some (pos n)) = if leb 1 n then some n else none
positive _ = none

abbrev of_digits : Option Text → Option ℕ
of_digits none = none
of_digits (some digits) = if is_number digits then positive (atoi digits) else none

unfoldable pub parse_version_etag : List Text → Option ℕ
parse_version_etag (value ∷ []) = of_digits (unquoted (trim_space value))
parse_version_etag _ = none

-- No header, or one that is blank.
abbrev is_missing : List Text → Bool
is_missing [] = true
is_missing (value ∷ []) = is_empty (trim_space value)
is_missing _ = false

abbrev or_invalid : Option ℕ → Reply ℕ
or_invalid none = Reply.refused ErrorCode.invalid_request
or_invalid (some version) = Reply.accepted version

unfoldable pub read_if_match_version : List Text → Reply ℕ
read_if_match_version values =
    if is_missing values
    then Reply.refused ErrorCode.precondition_required
    else or_invalid (parse_version_etag values)

trim_right-quoted : (s : Text) → trim_right (s ++ (b'"' ∷ [])) ≡ s ++ (b'"' ∷ [])
unfolding is_space
trim_right-quoted [] = refl
trim_right-quoted (c ∷ []) = refl
trim_right-quoted (c ∷ d ∷ s) = rw (trim_right-quoted (d ∷ s)) refl

trim_space-version_etag : (v : ℕ) → trim_space (version_etag v) ≡ version_etag v
unfolding trim_space version_etag is_space
trim_space-version_etag v = trim_right-quoted (b'"' ∷ itoa v)

before_quote-quoted : (s : Text) → before_quote (s ++ (b'"' ∷ [])) ≡ some s
before_quote-quoted [] = refl
before_quote-quoted (c ∷ []) = refl
before_quote-quoted (c ∷ d ∷ s) = rw (before_quote-quoted (d ∷ s)) refl

-- If-Match with the ETag of a version that a resource can have is read as that version.
pub read_if_match_version-version_etag :
    (v : ℕ)
    → 1 ≤ v
    → v ≤ 9223372036854775807
    → read_if_match_version (version_etag v ∷ []) ≡ Reply.accepted v
unfolding read_if_match_version parse_version_etag version_etag
read_if_match_version-version_etag v low high =
    let at_least : leb 1 v ≡ true = ground arith in
    rw
      (
        trim_space-version_etag v,
        before_quote-quoted (itoa v),
        is_number-itoa v,
        atoi-itoa v high,
        at_least,
      )
      refl

before_quote_ok : (s : Text) {t : Text} → before_quote s ≡ some t → s ≡ t ++ (b'"' ∷ [])
before_quote_ok [] h = absurd (ground arith)
before_quote_ok (c ∷ []) {t} h = elim (Bool-cases (c == b'"')) [
  | inl quote ↦ let e : [] ≡ t = ground arith in let k : c ≡ b'"' = ground arith in rw (← e, k) refl
  | inr other ↦ absurd (ground arith)
]
before_quote_ok (c ∷ d ∷ s) {t} h = elim (Option-cases (before_quote (d ∷ s))) [
  | inl n ↦ absurd (ground arith)
  | inr (u, f) ↦
      let e : c ∷ u ≡ t = ground arith in rw (← e) (ap (λ z. c ∷ z) (before_quote_ok (d ∷ s) f))
]

-- One value, which is a quoted decimal number from 1 to the largest int64, with any white space
-- around the quotes.
pub record IsTag (values : List Text) (v : ℕ) : Type 0 where
  pub value : Text
  pub single : values ≡ value ∷ []
  pub digits : Text
  pub quoted : trim_space value ≡ b'"' ∷ (digits ++ (b'"' ∷ []))
  pub number : is_number digits ≡ true
  pub reads : decimal_value 0 digits ≡ v
  pub low : 1 ≤ v
  pub high : v ≤ 9223372036854775807

of_digits_ok :
    (digits : Text) (v : ℕ)
    → of_digits (some digits) ≡ some v
    → (is_number digits ≡ true) × (atoi digits ≡ some (pos v)) × (1 ≤ v)
of_digits_ok digits v h = (ground arith, ground arith, ground arith)

unquoted_ok : (s digits : Text) → unquoted s ≡ some digits → s ≡ b'"' ∷ (digits ++ (b'"' ∷ []))
unquoted_ok [] digits h = absurd (ground arith)
unquoted_ok (c ∷ s) digits h =
    let e = before_quote_ok s {t = digits} (ground arith) in
    let k : c ≡ b'"' = ground arith in rw (k, e) refl

read_ok :
    (values : List Text) (v : ℕ) → read_if_match_version values ≡ Reply.accepted v → IsTag values v
unfolding read_if_match_version parse_version_etag
read_ok [] v h = absurd (ground arith)
read_ok (a ∷ b ∷ rest) v h = absurd (ground arith)
read_ok (value ∷ []) v h = elim (Option-cases (unquoted (trim_space value))) [
  | inl n ↦ absurd (ground arith)
  | inr (digits, f) ↦
      let (number, parsed, low) = of_digits_ok digits v (ground arith) in
      let (reads, high) = atoi_ok digits v number parsed in
      record {
        value = value;
        single = refl;
        digits = digits;
        quoted = unquoted_ok (trim_space value) digits f;
        number = number;
        reads = reads;
        low = low;
        high = high;
      }
]

read_tag :
    (values : List Text) (v : ℕ) → IsTag values v → read_if_match_version values ≡ Reply.accepted v
unfolding read_if_match_version parse_version_etag
read_tag values v x =
    let parsed = atoi-digits x.digits x.number (rw x.reads x.high) in
    let at_least : leb 1 v ≡ true = let l = x.low in ground arith in
    rw (x.single, x.quoted, before_quote-quoted x.digits, x.number, parsed, x.reads, at_least) refl

-- If-Match is read as the version v exactly if it is one value that, white space apart, is a decimal
-- number in quotes that stands for v, and v is from 1 to the largest int64: a wildcard, a weak tag, a
-- list and a repeated header are all refused.
pub read_if_match_version_iff :
    (values : List Text) (v : ℕ)
    → (read_if_match_version values ≡ Reply.accepted v) ↔ IsTag values v
read_if_match_version_iff values v = (read_ok values v, read_tag values v)
