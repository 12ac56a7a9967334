-- ===== src/Tests/Dates.antt =====
-- Dates around the end of February and of the year, and the days of a request.
use ai_hr_sytem.Base.{◌≤◌, ◌<◌, ◌≡◌, refl, arith}
use ai_hr_sytem.Calendar.{
  IsValid, year_of, is_leap, days_in_month, next_day, prev_day, add_days, day_number, leaps_before,
  days_before, day_of_week,
}
use ai_hr_sytem.Calendar.Order.{day_number_mono}
use ai_hr_sytem.Base.{[], ◌∷◌}
use ai_hr_sytem.Calendar.{sub_days, add_days, prev_day, next_day}
use ai_hr_sytem.Leave.Holidays.{moon, to_sunday, easter_offset, easter_sunday, listed_holidays}

leap_day : IsValid 20240229
unfolding days_in_month is_leap
leap_day = record {
  month_min = omega arith;
  month_max = omega arith;
  day_min = omega arith;
  day_max = omega arith;
}

year_end : IsValid 20251231
unfolding days_in_month
year_end = record {
  month_min = omega arith;
  month_max = omega arith;
  day_min = omega arith;
  day_max = omega arith;
}

monday : day_of_week 20260302 ≡ 1
unfolding day_of_week day_number leaps_before days_before days_in_month is_leap
monday = refl

earlier : 20240229 < 20251231
earlier = omega arith

in_era : 1 ≤ year_of 20240229
in_era = omega arith

day_number_mono_example : day_number 20240229 < day_number 20251231
day_number_mono_example = day_number_mono 20240229 20251231 leap_day year_end earlier

-- The dates that the source's own test lists.
easter_2024 : easter_sunday 2024 ≡ 20240331
unfolding easter_sunday easter_offset moon to_sunday
easter_2024 = refl

easter_2038 : easter_sunday 2038 ≡ 20380425
unfolding easter_sunday easter_offset moon to_sunday
easter_2038 = refl

after_zero : 1 ≤ 2026
after_zero = omega arith

holidays_2026 :
    listed_holidays 2026
    ≡ 20260101 ∷ 20260403 ∷ 20260406 ∷ 20260501 ∷ 20260612 ∷ 20261001 ∷ 20261225 ∷ 20261226 ∷ []
unfolding easter_sunday easter_offset moon to_sunday sub_days add_days next_day prev_day
    days_in_month is_leap
holidays_2026 = refl
