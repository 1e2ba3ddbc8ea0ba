-- ===== src/Base/Time.antt =====
-- Instants as nanoseconds since the midnight (UTC) that begins the year 0, which is before all
-- that the program parses or reads from a clock, and the parts of the package `time` in use.
use Prim.Native.Nat.{ℕ, zero, suc, ◌+◌, ◌-◌, ◌*◌, ◌/◌, ◌%◌}
use mathlib.Core.Bool.{Bool, ◌&&◌, ◌||◌, not}
use mathlib.Core.Option.{Option, none, some}
use mathlib.Core.List.{[], ◌∷◌}
use go_invoicing.Base.Tests.{leb, ◌==◌, if◌then◌else◌}
use go_invoicing.Base.Text.{Text, is_digit, is_empty}

abbrev pub Time : Type 0
Time = ℕ

abbrev pub second_ns : ℕ
second_ns = 1000000000

abbrev pub day_ns : ℕ
day_ns = 86400000000000

-- The zero Time, January 1 of the year 1; the year 0 is a leap year.
abbrev pub zero_time : Time
zero_time = 366 * day_ns

-- `t.UTC()` truncated by `time.Date` to its midnight
unfoldable pub midnight : Time → Time
midnight t = t - t % day_ns

is_leap : ℕ → Bool
is_leap y = y % 4 == 0 && (not (y % 100 == 0) || y % 400 == 0)

-- Days from the start of the year 0 to the start of the year y.
days_before_year : ℕ → ℕ
days_before_year y = 365 * y + (y + 3) / 4 + (y + 399) / 400 - (y + 99) / 100

days_in_month : ℕ → ℕ → ℕ
unfolding is_leap
days_in_month y m =
    if m == 2
    then (if is_leap y then 29 else 28)
    else if m == 4 || m == 6 || m == 9 || m == 11
    then 30
    else 31

-- Days of the months 1 to m of the year y.
days_through : ℕ → ℕ → ℕ
unfolding days_in_month
days_through y zero = 0
days_through y (suc m) = days_in_month y (suc m) + days_through y m

-- Reads exactly n digits, and returns the number and what follows.
take_number : ℕ → ℕ → Text → Option (ℕ × Text)
take_number zero acc s = some (acc, s)
take_number (suc n) acc [] = none
take_number (suc n) acc (c ∷ s) =
    let rest = take_number n (acc * 10 + (c - 48)) s in if is_digit c then rest else none

take_dash : Text → Option Text
take_dash [] = none
take_dash (c ∷ s) = if c == b'-' then some s else none

infixl 5 ◌>>=◌
abbrev ◌>>=◌ : {A B : Type 0} → Option A → (A → Option B) → Option B
none >>= f = none
some a >>= f = f a

date_of : ℕ → ℕ → ℕ → Text → Option Time
unfolding days_in_month days_through days_before_year
date_of y m d rest =
    if is_empty rest && leb 1 m && leb m 12 && leb 1 d && leb d (days_in_month y m)
    then some ((days_before_year y + days_through y (m - 1) + (d - 1)) * day_ns)
    else none

-- `time.Parse("2006-01-02", s)`
unfoldable pub parse_date : Text → Option Time
unfolding take_number take_dash date_of
parse_date s = do
  (y, s) ← take_number 4 0 s
  s ← take_dash s
  (m, s) ← take_number 2 0 s
  s ← take_dash s
  (d, s) ← take_number 2 0 s
  date_of y m d s
