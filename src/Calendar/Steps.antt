-- ===== src/Calendar/Steps.antt =====
-- Steps of `addDays` against the day count.
use ai_hr_sytem.Base.{
  ℕ, ◌+◌, ◌-◌, ◌*◌, ◌≤◌, ◌<◌, ◌≡◌, ◌∙◌, refl, subst, ap, inl, inr, arith, lt_or_le, if◌then◌else◌,
}
use ai_hr_sytem.Calendar.{
  IsoDate, year_of, month_of, day_of, iso, is_leap, days_in_month, IsValid, leaps_before,
  days_before, day_number, next_day, prev_day,
}

pub days_in_month_bounds : (y m : ℕ) → (28 ≤ days_in_month y m) × (days_in_month y m ≤ 31)
unfolding days_in_month
days_in_month_bounds y m = ground arith

pub year_of-iso : (y m d : ℕ) → m < 100 → d < 100 → year_of (iso y m d) ≡ y
year_of-iso y m d p q = omega arith

pub month_of-iso : (y m d : ℕ) → m < 100 → d < 100 → month_of (iso y m d) ≡ m
month_of-iso y m d p q = omega arith

pub day_of-iso : (y m d : ℕ) → d < 100 → day_of (iso y m d) ≡ d
day_of-iso y m d q = omega arith

pub day_number-iso :
    (y m d : ℕ)
    → m < 100
    → d < 100
    → day_number (iso y m d) ≡ 365 * y + leaps_before y + days_before y m + d
unfolding day_number
day_number-iso y m d p q = rw (year_of-iso y m d p q, month_of-iso y m d p q, day_of-iso y m d q)

pub leaps_before-suc :
    (y : ℕ) → leaps_before (y + 1) ≡ leaps_before y + (if is_leap y then 1 else 0)
unfolding leaps_before is_leap
leaps_before-suc y = ground arith

pub days_before_year_end : (y : ℕ) → days_before y 12 + 31 ≡ 365 + (if is_leap y then 1 else 0)
unfolding days_before days_in_month
days_before_year_end y = ground arith

pub days_before_step :
    (y m : ℕ) → 1 ≤ m → days_before y (m + 1) ≡ days_before y m + days_in_month y m
unfolding days_before
days_before_step y m h = ground arith

iso_parts : (d : IsoDate) → iso (year_of d) (month_of d) (day_of d) ≡ d
iso_parts d = omega arith

-- A date with its parts named.
pub IsValid-iso : (y m d : ℕ) → 1 ≤ m → m ≤ 12 → 1 ≤ d → d ≤ days_in_month y m → IsValid (iso y m d)
IsValid-iso y m d a b c e =
    let bound = days_in_month_bounds y m in
    let ey = year_of-iso y m d (omega arith) (omega arith) in
    let em = month_of-iso y m d (omega arith) (omega arith) in
    let ed = day_of-iso y m d (omega arith) in
    record {
      month_min = rw em a;
      month_max = rw em b;
      day_min = rw ed c;
      day_max = rw (ed, em, ey) e;
    }

module _ (y m d : ℕ) (a : 1 ≤ m) (b : m ≤ 12) (c : 1 ≤ d) (e : d ≤ days_in_month y m) where
  -- The three cases of a step forward.
  next_day_within : d < days_in_month y m → next_day (iso y m d) ≡ iso y m (d + 1)
  unfolding next_day
  next_day_within h =
      let bound = days_in_month_bounds y m in
      let ey = year_of-iso y m d (omega arith) (omega arith) in
      let em = month_of-iso y m d (omega arith) (omega arith) in
      let ed = day_of-iso y m d (omega arith) in rw (ed, em, ey) (ground arith)

  next_day_month : days_in_month y m ≤ d → m < 12 → next_day (iso y m d) ≡ iso y (m + 1) 1
  unfolding next_day
  next_day_month h k =
      let bound = days_in_month_bounds y m in
      let ey = year_of-iso y m d (omega arith) (omega arith) in
      let em = month_of-iso y m d (omega arith) (omega arith) in
      let ed = day_of-iso y m d (omega arith) in rw (ed, em, ey) (ground arith)

  next_day_year : days_in_month y m ≤ d → 12 ≤ m → next_day (iso y m d) ≡ iso (y + 1) 1 1
  unfolding next_day
  next_day_year h k =
      let bound = days_in_month_bounds y m in
      let ey = year_of-iso y m d (omega arith) (omega arith) in
      let em = month_of-iso y m d (omega arith) (omega arith) in
      let ed = day_of-iso y m d (omega arith) in rw (ed, em, ey) (ground arith)

pub december : (y m : ℕ) → m ≡ 12 → days_in_month y m ≡ 31
unfolding days_in_month
december y m e = ground arith

-- The last day of a year and the first of the next.
year_end :
    (y m d : ℕ)
    → m ≡ 12
    → d ≡ days_in_month y m
    → day_number (iso (y + 1) 1 1) ≡ day_number (iso y m d) + 1
unfolding days_before
year_end y m d e h = omega (
  arith,
  december y m e,
  day_number-iso (y + 1) 1 1 (omega arith) (omega arith),
  day_number-iso y m d (omega arith) (omega (arith, december y m e)),
  leaps_before-suc y,
  days_before_year_end y,
  ap (days_before y) e,
)

-- What one step forward gives.
abbrev pub IsStep : IsoDate → IsoDate → Type 0
IsStep d e = IsValid e × (day_number e ≡ day_number d + 1)

next_day-IsStep :
    (y m d : ℕ)
    → 1 ≤ m
    → m ≤ 12
    → 1 ≤ d
    → d ≤ days_in_month y m
    → IsStep (iso y m d) (next_day (iso y m d))
next_day-IsStep y m d a b c e =
    let bound = days_in_month_bounds y m in
    let here = day_number-iso y m d (omega arith) (omega arith) in
    elim (lt_or_le d (days_in_month y m)) [
      | inl h ↦ rw (next_day_within y m d a b c e h) (
        IsValid-iso y m (d + 1) a b (omega arith) (omega arith),
        omega (arith, here, day_number-iso y m (d + 1) (omega arith) (omega arith)),
      )
      | inr h ↦ elim (lt_or_le m 12) [
        | inl k ↦
            let n = days_in_month_bounds y (m + 1) in
            rw (next_day_month y m d a b c e h k) (
              IsValid-iso y (m + 1) 1 (omega arith) (omega arith) (omega arith) (omega arith),
              omega (
                arith,
                here,
                day_number-iso y (m + 1) 1 (omega arith) (omega arith),
                days_before_step y m a,
              ),
            )
        | inr k ↦
            let n = days_in_month_bounds (y + 1) 1 in
            rw (next_day_year y m d a b c e h k) (
              IsValid-iso (y + 1) 1 1 (omega arith) (omega arith) (omega arith) (omega arith),
              year_end y m d (omega arith) (omega arith),
            )
      ]
    ]

-- One step forward gives a date of the calendar whose day count is one more.
pub next_day_lem : (d : IsoDate) → IsValid d → IsStep d (next_day d)
next_day_lem d v =
    subst (λ x. IsStep x (next_day x)) (iso_parts d)
      (next_day-IsStep (year_of d) (month_of d) (day_of d) v.month_min v.month_max v.day_min
        v.day_max)

-- Steps back.
module _ (y m d : ℕ) (a : 1 ≤ m) (b : m ≤ 12) (c : 1 ≤ d) (e : d ≤ days_in_month y m) where
  prev_day_within : 1 < d → prev_day (iso y m d) ≡ iso y m (d - 1)
  unfolding prev_day
  prev_day_within h =
      let bound = days_in_month_bounds y m in
      let ey = year_of-iso y m d (omega arith) (omega arith) in
      let em = month_of-iso y m d (omega arith) (omega arith) in
      let ed = day_of-iso y m d (omega arith) in rw (ed, em, ey) (ground arith)

  prev_day_month : d ≤ 1 → 1 < m → prev_day (iso y m d) ≡ iso y (m - 1) (days_in_month y (m - 1))
  unfolding prev_day
  prev_day_month h k =
      let bound = days_in_month_bounds y m in
      let ey = year_of-iso y m d (omega arith) (omega arith) in
      let em = month_of-iso y m d (omega arith) (omega arith) in
      let ed = day_of-iso y m d (omega arith) in rw (ed, em, ey) (ground arith)

  prev_day_year : d ≤ 1 → m ≤ 1 → prev_day (iso y m d) ≡ iso (y - 1) 12 31
  unfolding prev_day
  prev_day_year h k =
      let bound = days_in_month_bounds y m in
      let ey = year_of-iso y m d (omega arith) (omega arith) in
      let em = month_of-iso y m d (omega arith) (omega arith) in
      let ed = day_of-iso y m d (omega arith) in rw (ed, em, ey) (ground arith)

-- What one step back gives.
abbrev pub IsStepBack : IsoDate → IsoDate → Type 0
IsStepBack d e = IsValid e × (day_number d ≡ day_number e + 1)

first_of_year :
    (y m d : ℕ)
    → 1 ≤ y
    → m ≡ 1
    → d ≡ 1
    → day_number (iso y m d) ≡ day_number (iso (y - 1) 12 31) + 1
unfolding days_in_month
first_of_year y m d z p q =
    ap day_number {x = iso y m d} {y = iso (y - 1 + 1) 1 1} (omega arith)
    ∙ year_end (y - 1) 12 31 refl refl

prev_day-IsStepBack :
    (y m d : ℕ)
    → 1 ≤ y
    → 1 ≤ m
    → m ≤ 12
    → 1 ≤ d
    → d ≤ days_in_month y m
    → IsStepBack (iso y m d) (prev_day (iso y m d))
unfolding days_in_month
prev_day-IsStepBack y m d z a b c e =
    let bound = days_in_month_bounds y m in
    let here = day_number-iso y m d (omega arith) (omega arith) in
    elim (lt_or_le 1 d) [
      | inl h ↦ rw (prev_day_within y m d a b c e h) (
        IsValid-iso y m (d - 1) a b (omega arith) (omega arith),
        omega (arith, here, day_number-iso y m (d - 1) (omega arith) (omega arith)),
      )
      | inr h ↦ elim (lt_or_le 1 m) [
        | inl k ↦
            let n = days_in_month_bounds y (m - 1) in
            rw (prev_day_month y m d a b c e h k) (
              IsValid-iso y (m - 1) (days_in_month y (m - 1)) (omega arith) (omega arith)
                  (omega arith) (omega arith),
              omega (
                arith,
                here,
                day_number-iso y (m - 1) (days_in_month y (m - 1)) (omega arith) (omega arith),
                days_before_step y (m - 1) (omega arith),
                ap (days_before y) {x = m - 1 + 1} {y = m} (omega arith),
              ),
            )
        | inr k ↦ rw (prev_day_year y m d a b c e h k) (
          IsValid-iso (y - 1) 12 31 (omega arith) (omega arith) (omega arith) (omega arith),
          first_of_year y m d z (omega arith) (omega arith),
        )
      ]
    ]

-- One step back gives a date of the calendar whose day count is one less.
pub prev_day_lem : (d : IsoDate) → 1 ≤ year_of d → IsValid d → IsStepBack d (prev_day d)
prev_day_lem d z v =
    subst (λ x. IsStepBack x (prev_day x)) (iso_parts d)
      (prev_day-IsStepBack (year_of d) (month_of d) (day_of d) z v.month_min v.month_max v.day_min
        v.day_max)
