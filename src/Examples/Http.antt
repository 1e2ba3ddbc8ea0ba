-- ===== src/Examples/Http.antt =====
-- The theorems on entity tags, query parameters and rate limits, at concrete requests.
use go_invoicing.Base.{ℕ, ◌-◌, ◌≤◌, ◌≡◌, ◌↔◌, refl, Option, none, some, List, [], ◌∷◌, arith}
use go_invoicing.Base.Text.{lower_code, Text, codes, text_eq}
use go_invoicing.Base.Time.{Time}
use go_invoicing.Http.{Reply}
use go_invoicing.Http.ETag.{read_if_match_version, IsTag, read_if_match_version_iff}
use go_invoicing.Http.Query.{parse_sort_order}
use go_invoicing.RateLimit.{bucket_for, sweep, RatePackage, new, allow, len, spend}
use go_invoicing.RateLimit.Bound.{served, len-served}
use go_invoicing.RateLimit.Reference.{RefillsWhenIdle}
use go_invoicing.RateLimit.Refinement.{verdicts, ref_verdicts, HasRoom, forgetting_is_unseen}

read_if_match_version_iff_example :
    (read_if_match_version (codes "W/\"3\"" ∷ []) ≡ Reply.accepted 3)
    ↔ IsTag (codes "W/\"3\"" ∷ []) 3
read_if_match_version_iff_example = read_if_match_version_iff (codes "W/\"3\"" ∷ []) 3

abbrev sort_fields : List Text
sort_fields = codes "name" ∷ codes "createdAt" ∷ []

sorts :
    parse_sort_order text_eq
      (λ c. c)
      sort_fields
      (codes "name")
      (codes "asc")
      (codes "createdAt")
      (codes "DESC")
    ≡ Reply.accepted (codes "createdAt", codes "desc")
unfolding parse_sort_order lower_code
sorts = refl

-- One token a second, and none saved up: a limiter is the moment of its last token.
abbrev wait : Time → Option Time → ℕ
wait now none = 0
wait now (some t) = 1000000000 - (now - t)

abbrev one_a_second : RatePackage
one_a_second = record {
  Limiter = Option Time;
  Reservation = Option Time × ℕ;
  new_limiter = none;
  reserve = λ now b. (some now, (b, wait now b));
  delay_from = λ r now. r.1;
  cancel_at = λ r now b. r.0;
  ceil_seconds = λ d. d;
}

abbrev UsedBy : Time → Option Time → Type 0
UsedBy t none = Unit
UsedBy t (some u) = u ≤ t

used_spent :
    (t now : Time) (b : Option Time)
    → t ≤ now
    → UsedBy t b
    → UsedBy now (spend one_a_second now b).1
unfolding spend
used_spent t now none n u = omega arith
used_spent t now (some v) n u = ground (arith, n, u)

refilled_after :
    (t now : Time) (b : Option Time)
    → t ≤ now
    → 2000000000 ≤ now - t
    → UsedBy t b
    → spend one_a_second now b ≡ spend one_a_second now none
unfolding spend
refilled_after t now none n idle u = refl
refilled_after t now (some v) n idle u =
    let free : 1000000000 - (now - v) ≡ 0 = omega (arith, n, idle, u) in rw free refl

abbrev refills : RefillsWhenIdle one_a_second 2000000000
refills = record {
  Used = UsedBy;
  used_new = λ t. tt;
  used_spend = used_spent;
  refilled = refilled_after;
}

-- The second request of "a" comes too soon, and the third after its bucket has been swept.
abbrev requests : List (Text × Time)
requests =
    (codes "a", 40000000000000000)
    ∷ (codes "a", 40000000500000000)
    ∷ (codes "b", 40000070000000000)
    ∷ (codes "a", 40000070000000000)
    ∷ []

len-served_example :
    len one_a_second (served one_a_second requests (new one_a_second 1000000000 2)) ≤ 2
len-served_example = len-served one_a_second 1000000000 2 requests

room : HasRoom one_a_second requests (new one_a_second 1000000000 2)
unfolding new allow bucket_for sweep spend
room = (omega arith, (omega arith, (omega arith, (omega arith, tt))))

forgetting_is_unseen_example :
    verdicts one_a_second requests (new one_a_second 1000000000 2)
    ≡ ref_verdicts one_a_second requests (λ key. none)
forgetting_is_unseen_example =
    forgetting_is_unseen one_a_second 1000000000 2 requests refills
      (omega arith, (omega arith, (omega arith, (omega arith, tt)))) room
