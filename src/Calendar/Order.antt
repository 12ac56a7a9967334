-- ===== src/Calendar/Order.antt =====
-- The order of ISO dates is the order of their day counts, and the loops over days.
use ai_hr_sytem.Base.{
  ℕ, zero, suc, ◌+◌, ◌*◌, ◌≤◌, ◌<◌, ◌≡◌, ap, inl, inr, arith, lt_or_le, if◌then◌else◌,
}
use ai_hr_sytem.Calendar.{
  IsoDate, year_of, month_of, day_of, is_leap, days_in_month, IsValid, leaps_before, days_before,
  day_number, next_day, prev_day, add_days,
}
use ai_hr_sytem.Calendar.Steps.{
  leaps_before-suc, days_before_year_end, days_before_step, december, next_day_lem, prev_day_lem,
}

-- The first days of later months come later.
days_before_mono :
    (y m n : ℕ) → 1 ≤ m → m < n → days_before y m + days_in_month y m ≤ days_before y n
days_before_mono y m zero a h = absurd (omega arith)
days_before_mono y m (suc n) a h = elim (lt_or_le m n) [
  | inl k ↦ omega (
    arith,
    days_before_mono y m n a k,
    days_before_step y n (omega arith),
    ap (days_before y) {x = n + 1} {y = suc n} (omega arith),
  )
  | inr k ↦
      omega
        (arith, days_before_step y m a, ap (days_before y) {x = m + 1} {y = suc n} (omega arith))
]

-- A day within its year.
within_year :
    (y m d : ℕ)
    → 1 ≤ m
    → m ≤ 12
    → d ≤ days_in_month y m
    → days_before y m + d ≤ 365 + (if is_leap y then 1 else 0)
within_year y m d a b h = elim (lt_or_le m 12) [
  | inl k ↦ omega (arith, days_before_mono y m 12 a k, days_before_year_end y)
  | inr k ↦ omega (
    arith,
    december y m (omega arith),
    days_before_year_end y,
    ap (days_before y) {x = m} {y = 12} (omega arith),
  )
]

-- Days before a year.
days_to_year : ℕ → ℕ
days_to_year y = 365 * y + leaps_before y

days_to_year-suc :
    (y : ℕ) → days_to_year (suc y) ≡ days_to_year y + 365 + (if is_leap y then 1 else 0)
unfolding days_to_year
days_to_year-suc y =
    omega (arith, leaps_before-suc y, ap leaps_before {x = y + 1} {y = suc y} (omega arith))

days_to_year_mono : (y z : ℕ) → y ≤ z → days_to_year y ≤ days_to_year z
days_to_year_mono y zero h = omega (arith, ap days_to_year {x = y} {y = zero} (omega arith))
days_to_year_mono y (suc z) h = elim (lt_or_le z y) [
  | inl k ↦ omega (arith, ap days_to_year {x = y} {y = suc z} (omega arith))
  | inr k ↦ omega (arith, days_to_year_mono y z k, days_to_year-suc z)
]

-- Of two dates of the calendar, the earlier one has the smaller day count.
pub day_number_mono : (a b : IsoDate) → IsValid a → IsValid b → a < b → day_number a < day_number b
unfolding day_number days_to_year
day_number_mono a b v w h = elim (lt_or_le (year_of a) (year_of b)) [
  | inl k ↦ omega (
    arith,
    within_year (year_of a) (month_of a) (day_of a) v.month_min v.month_max v.day_max,
    days_to_year-suc (year_of a),
    days_to_year_mono (suc (year_of a)) (year_of b) k,
  )
  | inr k ↦
      let same : year_of a ≡ year_of b = omega arith in
      let leaps = ap leaps_before same in
      let months = ap (λ y. days_before y (month_of b)) same in
      elim (lt_or_le (month_of a) (month_of b)) [
        | inl l ↦ omega (
          arith,
          leaps,
          months,
          days_before_mono (year_of a) (month_of a) (month_of b) v.month_min l,
        )
        | inr l ↦ omega (
          arith,
          leaps,
          months,
          ap (days_before (year_of a)) {x = month_of a} {y = month_of b} (omega arith),
        )
      ]
]

-- The order of two dates, and their equality, are those of their day counts.
pub day_number_le : (a b : IsoDate) → IsValid a → IsValid b → day_number a ≤ day_number b → a ≤ b
day_number_le a b v w h = elim (lt_or_le b a) [
  | inl k ↦ absurd (omega (arith, day_number_mono b a w v k))
  | inr k ↦ k
]

pub le_day_number : (a b : IsoDate) → IsValid a → IsValid b → a ≤ b → day_number a ≤ day_number b
le_day_number a b v w h = elim (lt_or_le a b) [
  | inl k ↦ omega (arith, day_number_mono a b v w k)
  | inr k ↦ omega (arith, ap day_number {x = a} {y = b} (omega arith))
]

pub day_number_inj : (a b : IsoDate) → IsValid a → IsValid b → day_number a ≡ day_number b → a ≡ b
day_number_inj a b v w h =
    omega (arith, day_number_le a b v w (omega arith), day_number_le b a w v (omega arith))

-- From a date of the calendar, after year 0, a step forward is undone by a step back.
pub prev_day-next_day : (d : IsoDate) → 1 ≤ year_of d → IsValid d → prev_day (next_day d) ≡ d
prev_day-next_day d z v =
    let there = next_day_lem d v in
    let back = prev_day_lem (next_day d) (later d v there.0 there.1 z) there.0 in
    day_number_inj (prev_day (next_day d)) d back.0 v (omega arith)
  where
    later :
        (d : IsoDate)
        → IsValid d
        → IsValid (next_day d)
        → day_number (next_day d) ≡ day_number d + 1
        → 1 ≤ year_of d
        → 1 ≤ year_of (next_day d)
    later d v w e z = omega (arith, day_number_le d (next_day d) v w (omega arith))

pub next_day-prev_day : (d : IsoDate) → 1 ≤ year_of d → IsValid d → next_day (prev_day d) ≡ d
next_day-prev_day d z v =
    let back = prev_day_lem d z v in
    let there = next_day_lem (prev_day d) back.0 in
    day_number_inj (next_day (prev_day d)) d there.0 v (omega arith)

-- Adding n days to a date of the calendar gives a date of the calendar whose day count is n more.
pub add_days_lem :
    (d : IsoDate) (n : ℕ)
    → IsValid d
    → IsValid (add_days d n) × (day_number (add_days d n) ≡ day_number d + n)
unfolding add_days
add_days_lem d zero v = (v, omega arith)
add_days_lem d (suc n) v =
    let before = add_days_lem d n v in
    let after = next_day_lem (add_days d n) before.0 in (after.0, omega arith)
