-- ===== src/Tests/Clocking.antt =====
-- A day of two employees at the clock, and the edit that leaves two sessions open.
use ai_hr_sytem.Base.{ℕ, ◌+◌, ◌*◌, ◌≡◌, refl, arith, false, none, some, List, [], ◌∷◌}
use ai_hr_sytem.Attendance.{
  AttendanceRecord, AttendanceSource, AttendanceStore, UpdateRecord, minutes_between, today_iso,
  latest, open_session, clock_in, find_record, assert_range, update,
}
use ai_hr_sytem.Attendance.Counting.{open_count, IsSound}
use ai_hr_sytem.Attendance.Sessions.{
  Call, clocks_in, clocks_out, edits, hourly_job, run, run_all, run_all-IsSound,
}

-- 2026-01-05 at 9:00, in milliseconds.
abbrev nine : ℕ
nine = 1767603600000

abbrev hour : ℕ
hour = 3600000

abbrev morning : AttendanceRecord
morning = record {
  id = 1;
  employee_id = 2;
  date = 20260105;
  clock_in = nine;
  clock_out = some (nine + 4 * hour);
  worked_minutes = some 240;
  source = AttendanceSource.clock;
  auto_closed = false;
  note = [];
  created_by_user_id = none;
}

abbrev sheet : AttendanceStore
sheet = record { records = morning ∷ []; employee_ids = 2 ∷ 3 ∷ []; next_id = 2 }

sheet-IsSound : IsSound sheet
unfolding minutes_between
sheet-IsSound = record { single = λ e. ground arith; timed = (refl, tt) }

-- 2 comes back and tries to clock in twice, 3 forgets to clock out and is closed by the job.
abbrev day : List Call
day =
    clocks_in 2 none (nine + 5 * hour)
    ∷ clocks_in 2 none (nine + 6 * hour)
    ∷ clocks_in 3 none (nine + 6 * hour)
    ∷ clocks_out 2 none (nine + 8 * hour)
    ∷ hourly_job (nine + 30 * hour)
    ∷ []

run_all-IsSound_example : IsSound (run_all day sheet)
run_all-IsSound_example = run_all-IsSound day sheet refl sheet-IsSound

-- Taking away the end of the morning session.
abbrev reopen : UpdateRecord
reopen = record { clock_in = none; clock_out = some none; note = none }

two_open :
    open_count 2 (run_all (clocks_in 2 none (nine + 5 * hour) ∷ edits 1 reopen ∷ []) sheet).records
    ≡ 2
unfolding run_all run clock_in open_session latest update find_record today_iso assert_range
two_open = refl
