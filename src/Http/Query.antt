-- ===== src/Http/Query.antt =====
-- The query parameters of the list endpoints (pagination.go). An absent parameter is the empty text.
-- strings.EqualFold and the lower case of code points beyond ASCII are arguments.
pub mod Laws
use go_invoicing.Base.{
  ℕ, ◌≡◌, ◌≤◌, ◌⊎◌, ◌∙◌, refl, sym, ap, Bool, true, false, not, ◌||◌, ltb, leb, Option, none, some,
  List, [], ◌∷◌, if◌then◌else◌, inl, inr, Option-cases, Bool-cases, All, arith,
}
use go_invoicing.Base.Text.{Text, itoa, is_empty, text_eq, trim_space, to_lower, codes}
use go_invoicing.Base.Int.{ℤ, pos, negsuc}
use go_invoicing.Http.{Reply, ErrorCode}
use go_invoicing.Http.Number.{atoi, is_number-itoa, atoi-itoa}

abbrev default_limit : ℕ
default_limit = 50

abbrev max_limit : ℕ
max_limit = 200

abbrev check_limit : Option ℤ → Reply ℕ
check_limit (some (pos n)) =
    if leb 1 n
    then (if leb n max_limit then Reply.accepted n else Reply.refused ErrorCode.validation_failed)
    else Reply.refused ErrorCode.validation_failed
check_limit _ = Reply.refused ErrorCode.validation_failed

unfoldable pub parse_limit : Text → Reply ℕ
parse_limit raw = if is_empty raw then Reply.accepted default_limit else check_limit (atoi raw)

abbrev check_offset : Option ℤ → Reply ℕ
check_offset (some (pos n)) = Reply.accepted n
check_offset _ = Reply.refused ErrorCode.validation_failed

unfoldable pub parse_offset : Text → Reply ℕ
parse_offset raw = if is_empty raw then Reply.accepted 0 else check_offset (atoi raw)

abbrev and_also : Reply ℕ → Reply ℕ → Reply (ℕ × ℕ)
and_also (Reply.refused c) offset = Reply.refused c
and_also (Reply.accepted l) (Reply.refused c) = Reply.refused c
and_also (Reply.accepted l) (Reply.accepted o) = Reply.accepted (l, o)

unfoldable pub parse_limit_offset : Text → Text → Reply (ℕ × ℕ)
parse_limit_offset limit offset = and_also (parse_limit limit) (parse_offset offset)

-- The first name of the allow-list that the text folds to, or the empty text.
abbrev pub matched_field : (Text → Text → Bool) → List Text → Text → Text
matched_field fold [] raw = []
matched_field fold (candidate ∷ allowed) raw =
    let rest = matched_field fold allowed raw in if fold candidate raw then candidate else rest

abbrev check_field : Text → Reply Text
check_field matched =
    if is_empty matched then Reply.refused ErrorCode.validation_failed else Reply.accepted matched

abbrev pub parse_field : (Text → Text → Bool) → List Text → Text → Text → Reply Text
parse_field fold allowed fallback raw =
    if is_empty raw then Reply.accepted fallback else check_field (matched_field fold allowed raw)

abbrev pub parse_order : (ℕ → ℕ) → Text → Text → Reply Text
parse_order lower fallback raw =
    if is_empty raw
    then Reply.accepted fallback
    else if text_eq (to_lower lower raw) (codes "asc")
        || text_eq (to_lower lower raw) (codes "desc")
    then Reply.accepted (to_lower lower raw)
    else Reply.refused ErrorCode.validation_failed

abbrev both_texts : Reply Text → Reply Text → Reply (Text × Text)
both_texts (Reply.refused c) order = Reply.refused c
both_texts (Reply.accepted f) (Reply.refused c) = Reply.refused c
both_texts (Reply.accepted f) (Reply.accepted o) = Reply.accepted (f, o)

unfoldable pub parse_sort_order :
    (Text → Text → Bool) → (ℕ → ℕ) → List Text → Text → Text → Text → Text → Reply (Text × Text)
parse_sort_order fold lower allowed default_field default_order sort order =
    both_texts (parse_field fold allowed default_field sort) (parse_order lower default_order order)

abbrev is_allowed : List Text → Text → Bool
is_allowed [] key = false
is_allowed (a ∷ allowed) key = text_eq a key || is_allowed allowed key

-- In the order in which the map of the parameters is walked.
unfoldable pub reject_unknown_query_params : List Text → List Text → Reply (Unit {0})
reject_unknown_query_params [] allowed = Reply.accepted tt
reject_unknown_query_params (key ∷ keys) allowed =
    let rest = reject_unknown_query_params keys allowed in
    if is_allowed allowed key then rest else Reply.refused ErrorCode.invalid_request

unfoldable pub optional_query_param : Text → Option Text
optional_query_param raw = let value = trim_space raw in if is_empty value then none else some value
