-- ===== src/Leave/Holidays.antt =====
-- src/modules/leave/nigerian-holidays.ts: the public holidays that can be computed.
use ai_hr_sytem.Base.{
  ℕ, ◌+◌, ◌-◌, ◌*◌, ◌/◌, ◌%◌, ◌≤◌, ◌<◌, ◌≡◌, inl, inr, arith, List, [], ◌∷◌, if◌then◌else◌, leb,
  lt_or_le,
}
use ai_hr_sytem.Calendar.Steps.{IsValid-iso, next_day_lem, prev_day_lem}
use ai_hr_sytem.Calendar.Order.{day_number_mono, le_day_number}
use ai_hr_sytem.Calendar.{
  day_number, next_day, prev_day, IsoDate, IsValid, iso, days_in_month, add_days, sub_days,
}

-- The golden number and the two remainders of `easterSunday`.
abbrev pub golden : ℕ → ℕ
golden year = year % 19

-- `h`, days from 21 March to the full moon.
unfoldable pub moon : ℕ → ℕ
moon year =
    let b : ℕ = year / 100 in (19 * golden year + b + 15 - b / 4 - (b + 1 - (b + 8) / 25) / 3) % 30

-- `l`, days from the full moon to a Sunday.
unfoldable pub to_sunday : ℕ → ℕ
to_sunday year =
    let c : ℕ = year % 100 in (32 + 2 * (year / 100 % 4) + 2 * (c / 4) - moon year - c % 4) % 7

-- `h + l - 7 * m + 114`
unfoldable pub easter_offset : ℕ → ℕ
easter_offset year =
    moon year
    + to_sunday year
    + 114
    - 7 * ((golden year + 11 * moon year + 22 * to_sunday year) / 451)

unfoldable pub easter_sunday : ℕ → IsoDate
easter_sunday year = iso year (easter_offset year / 31) (easter_offset year % 31 + 1)

moon_bound : (year : ℕ) → moon year < 30
unfolding moon
moon_bound year = omega arith

to_sunday_bound : (year : ℕ) → to_sunday year < 7
unfolding to_sunday
to_sunday_bound year = omega arith

offset_bounds : (year : ℕ) → (114 ≤ easter_offset year) × (easter_offset year ≤ 148)
unfolding easter_offset
offset_bounds year = omega (arith, moon_bound year, to_sunday_bound year)

in_month : (year n : ℕ) → 114 ≤ n → n ≤ 148 → n % 31 + 1 ≤ days_in_month year (n / 31)
unfolding days_in_month
in_month year n a b = elim (lt_or_le n 124) [
  | inl h ↦ let march : n / 31 ≡ 3 = omega arith in ground arith
  | inr h ↦ let april : n / 31 ≡ 4 = omega arith in ground arith
]

-- Easter Sunday is a date of the calendar, in the year asked for, from 22 March to 25 April.
pub easter_sunday_lem :
    (year : ℕ)
    → IsValid (easter_sunday year)
      × (iso year 3 22 ≤ easter_sunday year)
      × (easter_sunday year ≤ iso year 4 25)
unfolding easter_sunday
easter_sunday_lem year =
    let bounds = offset_bounds year in
    (
      IsValid-iso year (easter_offset year / 31) (easter_offset year % 31 + 1)
          (omega (arith, bounds)) (omega (arith, bounds)) (omega arith)
          (in_month year (easter_offset year) bounds.0 bounds.1),
      omega (arith, bounds),
      omega (arith, bounds),
    )

-- `[…].sort((a, b) => a.date.localeCompare(b.date))`
unfoldable pub insert_date : IsoDate → List IsoDate → List IsoDate
insert_date d [] = d ∷ []
insert_date d (x ∷ xs) = let rest = insert_date d xs in if leb d x then d ∷ x ∷ xs else x ∷ rest

unfoldable pub sort_dates : List IsoDate → List IsoDate
sort_dates [] = []
sort_dates (x ∷ xs) = insert_date x (sort_dates xs)

-- The dates as the source lists them.
abbrev pub listed_holidays : ℕ → List IsoDate
listed_holidays year =
    iso year 1 1
    ∷ sub_days (easter_sunday year) 2
    ∷ add_days (easter_sunday year) 1
    ∷ iso year 5 1
    ∷ iso year 6 12
    ∷ iso year 10 1
    ∷ iso year 12 25
    ∷ iso year 12 26
    ∷ []

-- `nigerianPublicHolidays`, by their dates.
unfoldable pub nigerian_public_holidays : ℕ → List IsoDate
nigerian_public_holidays year = sort_dates (listed_holidays year)

day_number_lt : (a b : IsoDate) → IsValid a → IsValid b → day_number a < day_number b → a < b
day_number_lt a b v w h = elim (lt_or_le a b) [
  | inl k ↦ k
  | inr k ↦ absurd (omega (arith, le_day_number b a w v k))
]

-- A date early in a month.
fixed : (year m d : ℕ) → 1 ≤ m → m ≤ 5 → 1 ≤ d → d ≤ 28 → IsValid (iso year m d)
unfolding days_in_month
fixed year m d a b c e = IsValid-iso year m d a (omega arith) c (ground arith)

-- After year 0, Good Friday lies between New Year's Day and Easter Monday, which is before May.
around_easter :
    (year : ℕ)
    → 1 ≤ year
    → (iso year 1 1 < sub_days (easter_sunday year) 2)
      × (sub_days (easter_sunday year) 2 < add_days (easter_sunday year) 1)
      × (add_days (easter_sunday year) 1 < iso year 5 1)
unfolding sub_days add_days
around_easter year h =
    let e = easter_sunday year in
    let (v, lo, hi) = easter_sunday_lem year in
    let p = prev_day_lem e (omega arith) v in
    let one = fixed year 1 1 (omega arith) (omega arith) (omega arith) (omega arith) in
    let two = fixed year 1 2 (omega arith) (omega arith) (omega arith) (omega arith) in
    let three = fixed year 1 3 (omega arith) (omega arith) (omega arith) (omega arith) in
    let may = fixed year 5 1 (omega arith) (omega arith) (omega arith) (omega arith) in
    let late = fixed year 4 26 (omega arith) (omega arith) (omega arith) (omega arith) in
    let a = day_number_mono (iso year 1 1) (iso year 1 2) one two (omega arith) in
    let b = day_number_mono (iso year 1 2) (iso year 1 3) two three (omega arith) in
    let c = day_number_mono (iso year 1 3) e three v (omega arith) in
    let f = day_number_mono e (iso year 4 26) v late (omega arith) in
    let g = day_number_mono (iso year 4 26) (iso year 5 1) late may (omega arith) in
    let n = next_day_lem e v in
    let r = day_number_lt (iso year 1 1) (prev_day e) one p.0 (omega arith) in
    let q = prev_day_lem (prev_day e) (omega arith) p.0 in
    (
      day_number_lt (iso year 1 1) (prev_day (prev_day e)) one q.0 (omega arith),
      day_number_lt (prev_day (prev_day e)) (next_day e) q.0 n.0 (omega arith),
      day_number_lt (next_day e) (iso year 5 1) n.0 may (omega arith),
    )

-- After year 0 the list is in the order of the dates as it is written, so that sorting it changes
-- nothing.
pub nigerian_public_holidays_lem :
    (year : ℕ) → 1 ≤ year → nigerian_public_holidays year ≡ listed_holidays year
unfolding nigerian_public_holidays sort_dates insert_date
nigerian_public_holidays_lem year h = let (a, b, c) = around_easter year h in ground arith
