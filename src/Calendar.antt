-- ===== src/Calendar.antt =====
-- src/common/utils/date.ts: calendar dates without a time zone. An ISO date "YYYY-MM-DD" is the
-- number YYYYMMDD, so that the comparison of two texts is the comparison of two numbers and a
-- slice of the text is a quotient or a remainder. The platform's `Date` counts days of the
-- proleptic Gregorian calendar, written out here.
pub mod Order
pub mod Steps
use ai_hr_sytem.Base.{
  ℕ, zero, suc, ◌+◌, ◌-◌, ◌*◌, ◌/◌, ◌%◌, ◌≤◌, Bool, not, ◌&&◌, ◌||◌, ltb, ◌==◌, if◌then◌else◌,
}
use ai_hr_sytem.Base.Int.{ℤ, sub_ℕ}

abbrev pub IsoDate : Type 0
IsoDate = ℕ

-- `Number(iso.slice(0, 4))`
abbrev pub year_of : IsoDate → ℕ
year_of d = d / 10000

-- `Number(iso.slice(5, 7))`
abbrev pub month_of : IsoDate → ℕ
month_of d = d / 100 % 100

abbrev pub day_of : IsoDate → ℕ
day_of d = d % 100

abbrev pub iso : ℕ → ℕ → ℕ → IsoDate
iso y m d = y * 10000 + m * 100 + d

unfoldable pub is_leap : ℕ → Bool
is_leap y = (y % 4 == 0) && (not (y % 100 == 0) || (y % 400 == 0))

-- September, April, June and November.
abbrev pub is_short : ℕ → Bool
is_short m = (m == 9) || (m == 4) || (m == 6) || (m == 11)

unfoldable pub days_in_month : ℕ → ℕ → ℕ
days_in_month y m =
    if not (m == 2) then (if is_short m then 30 else 31) else (if is_leap y then 29 else 28)

-- A date that the calendar has.
pub record IsValid (d : IsoDate) : Type 0 where
  pub month_min : 1 ≤ month_of d
  pub month_max : month_of d ≤ 12
  pub day_min : 1 ≤ day_of d
  pub day_max : day_of d ≤ days_in_month (year_of d) (month_of d)

-- Leap years before year `y`.
unfoldable pub leaps_before : ℕ → ℕ
leaps_before y = (y + 3) / 4 + (y + 399) / 400 - (y + 99) / 100

-- Days of year `y` before its month `m`.
unfoldable pub days_before : ℕ → ℕ → ℕ
days_before y zero = 0
days_before y (suc zero) = 0
days_before y (suc (suc m)) = days_before y (suc m) + days_in_month y (suc m)

-- The day of a date, as `getTime()` counts it in days; the first of January of year 0 is day 1.
unfoldable pub day_number : IsoDate → ℕ
day_number d =
    365 * year_of d + leaps_before (year_of d) + days_before (year_of d) (month_of d) + day_of d

-- `daysBetween(a, b)`, positive when `b` is later.
unfoldable pub days_between : IsoDate → IsoDate → ℤ
days_between a b = sub_ℕ (day_number b) (day_number a)

-- `addDays(d, 1)`
unfoldable pub next_day : IsoDate → IsoDate
next_day d =
    if ltb (day_of d) (days_in_month (year_of d) (month_of d))
    then d + 1
    else if ltb (month_of d) 12
    then iso (year_of d) (month_of d + 1) 1
    else iso (year_of d + 1) 1 1

-- `addDays(d, -1)`
unfoldable pub prev_day : IsoDate → IsoDate
prev_day d =
    if ltb 1 (day_of d)
    then d - 1
    else if ltb 1 (month_of d)
    then iso (year_of d) (month_of d - 1) (days_in_month (year_of d) (month_of d - 1))
    else iso (year_of d - 1) 12 31

-- `addDays(d, n)` for n ≥ 0: the calendar day n days on.
unfoldable pub add_days : IsoDate → ℕ → IsoDate
add_days d zero = d
add_days d (suc n) = next_day (add_days d n)

-- `addDays(d, -n)`
unfoldable pub sub_days : IsoDate → ℕ → IsoDate
sub_days d zero = d
sub_days d (suc n) = prev_day (sub_days d n)

-- `new Date(iso).getUTCDay()`: 0 is Sunday, 6 is Saturday.
unfoldable pub day_of_week : IsoDate → ℕ
day_of_week d = (day_number d + 5) % 7
