-- ===== src/Attendance.antt =====
-- src/modules/attendance/attendance.service.ts: work sessions, clocked by employees or entered by
-- HR. Instants are milliseconds since 1970, and a text that is no date parses to none. A
-- note is never the empty text, and an answer that is only the row just written is left out.
pub mod Counting
pub mod Sessions
use ai_hr_sytem.Base.{
  ℕ, ◌+◌, ◌-◌, ◌*◌, ◌/◌, Bool, true, false, not, ◌&&◌, ◌||◌, Option, none, some, List, [], ◌∷◌,
  ◌++◌, String, ltb, leb, ◌==◌, if◌then◌else◌, is_some, or_else, find, select, includes, length,
  update_where, Action, bad_request, not_found, conflict, pure, gets, or_throw, ◌>>=◌, ◌>>◌,
  throw_if, modify,
}
use ai_hr_sytem.Calendar.{IsoDate, add_days}

pub data AttendanceSource : Type 0 where
  clock manual : AttendanceSource

-- The note is the list of its lines, with none for null.
pub record AttendanceRecord : Type 0 where
  pub id : ℕ
  pub employee_id : ℕ
  pub date : IsoDate
  pub clock_in : ℕ
  pub clock_out : Option ℕ
  pub worked_minutes : Option ℕ
  pub source : AttendanceSource
  pub auto_closed : Bool
  pub note : List String
  pub created_by_user_id : Option ℕ

pub record AttendanceStore : Type 0 where
  pub records : List AttendanceRecord
  pub employee_ids : List ℕ  -- the rows of the employees table
  pub next_id : ℕ

pub record ManualRecord : Type 0 where
  pub employee_id : ℕ
  pub clock_in : Option ℕ
  pub clock_out : Option (Option ℕ)  -- null or absent, or a text
  pub note : Option String

pub record UpdateRecord : Type 0 where
  pub clock_in : Option (Option ℕ)  -- absent, or a text
  pub clock_out : Option (Option (Option ℕ))  -- absent, null, or a text
  pub note : Option (Option String)  -- absent, null, or a text

-- `todayIso(now)`: the day in UTC.
unfoldable pub today_iso : ℕ → IsoDate
today_iso now = add_days 19700101 (now / 86400000)

-- `isOpen`
abbrev pub is_open : AttendanceRecord → Bool
is_open r = not (is_some r.clock_out)

-- `minutesBetween`: rounded to minutes, and never below 0.
unfoldable pub minutes_between : ℕ → ℕ → ℕ
minutes_between a b = (b - a + 30000) / 60000

abbrev pub max_session_hours : ℕ
max_session_hours = 16

abbrev pub is_open_of : ℕ → AttendanceRecord → Bool
is_open_of employee r = (r.employee_id == employee) && is_open r

-- `order: { clockIn: 'DESC' }` and the first row.
unfoldable pub latest : List AttendanceRecord → Option AttendanceRecord
latest [] = none
latest (r ∷ rs) = elim (latest rs) [
  | none ↦ some r
  | some q ↦ some (if ltb r.clock_in q.clock_in then q else r)
]

unfoldable pub open_session : ℕ → List AttendanceRecord → Option AttendanceRecord
unfolding latest
open_session employee rs = latest (select (is_open_of employee) rs)

-- `save(create(…))`
abbrev pub add_record : AttendanceRecord → AttendanceStore → AttendanceStore
add_record r s = record s { records = s.records ++ r ∷ []; next_id = s.next_id + 1 }

abbrev pub update_record :
    ℕ → (AttendanceRecord → AttendanceRecord) → AttendanceStore → AttendanceStore
update_record id f s = record s {
  records = update_where (λ (r : AttendanceRecord). r.id == id) f s.records;
}

abbrev pub lines : Option String → List String
lines none = []
lines (some text) = text ∷ []

unfoldable pub clock_in : ℕ → Option String → ℕ → Action AttendanceStore (Unit {0})
clock_in employee note now = do
  throw_if (is_some (← gets (λ (s : AttendanceStore). open_session employee s.records)))
      (conflict "You already have an open session; clock out first")
  modify (λ (s : AttendanceStore).
      add_record
        (record {
          id = s.next_id;
          employee_id = employee;
          date = today_iso now;
          clock_in = now;
          clock_out = none;
          worked_minutes = none;
          source = AttendanceSource.clock;
          auto_closed = false;
          note = lines note;
          created_by_user_id = none;
        })
        s)

abbrev pub closed_at : ℕ → List String → AttendanceRecord → AttendanceRecord
closed_at now note r = record r {
  clock_out = some now;
  worked_minutes = some (minutes_between r.clock_in now);
  note = r.note ++ note;
}

-- `clockOut`; the row that is saved is the one of its id.
unfoldable pub clock_out : ℕ → Option String → ℕ → Action AttendanceStore (Unit {0})
clock_out employee note now = do
  r ←
      or_throw (← gets (λ (s : AttendanceStore). open_session employee s.records))
        (bad_request "No open session to clock out of")
  modify (update_record r.id (closed_at now (lines note)))

-- `assertRange`
unfoldable pub assert_range : Option ℕ → Option (Option ℕ) → Action AttendanceStore ℕ
assert_range start end = do
  a ← or_throw start (bad_request "Invalid clockIn")
  elim end [
    | none ↦ pure a
    | some parsed ↦ or_throw parsed (bad_request "Invalid clockOut") >>= λ b.
        throw_if (leb b a) (bad_request "clockOut must be after clockIn")
        >> throw_if (ltb (24 * 60) (minutes_between a b))
            (bad_request "A session cannot exceed 24 hours")
        >> pure a
  ]

-- A text that was parsed, as a date or null.
abbrev pub parsed : Option (Option ℕ) → Option ℕ
parsed none = none
parsed (some t) = t

abbrev pub worked : ℕ → Option ℕ → Option ℕ
worked a none = none
worked a (some b) = some (minutes_between a b)

unfoldable pub create_manual : ManualRecord → ℕ → Action AttendanceStore (Unit {0})
create_manual dto by = do
  start ← assert_range dto.clock_in dto.clock_out
  throw_if (not (← gets (λ (s : AttendanceStore). includes s.employee_ids dto.employee_id)))
      (not_found "Employee not found")
  busy ← gets (λ (s : AttendanceStore). is_some (open_session dto.employee_id s.records))
  throw_if (not (is_some dto.clock_out) && busy) (conflict "Employee already has an open session")
  modify (λ (s : AttendanceStore).
      add_record
        (record {
          id = s.next_id;
          employee_id = dto.employee_id;
          date = today_iso start;
          clock_in = start;
          clock_out = parsed dto.clock_out;
          worked_minutes = worked start (parsed dto.clock_out);
          source = AttendanceSource.manual;
          auto_closed = false;
          note = lines dto.note;
          created_by_user_id = some by;
        })
        s)

unfoldable pub find_record : ℕ → Action AttendanceStore AttendanceRecord
find_record id = do
  or_throw (← gets (λ (s : AttendanceStore). find (λ (r : AttendanceRecord). r.id == id) s.records))
      (not_found "Attendance record not found")

-- The two ends of a session after the changes that are asked for.
abbrev pub new_start : UpdateRecord → AttendanceRecord → Option ℕ
new_start dto r = or_else dto.clock_in (some r.clock_in)

abbrev pub as_text : Option ℕ → Option (Option ℕ)
as_text none = none
as_text (some t) = some (some t)

abbrev pub new_end : UpdateRecord → AttendanceRecord → Option (Option ℕ)
new_end dto r = or_else dto.clock_out (as_text r.clock_out)

-- The row after `update`, once its start is known.
abbrev pub edited : UpdateRecord → ℕ → AttendanceRecord → AttendanceRecord
edited dto start r = record r {
  date = today_iso start;
  clock_in = start;
  clock_out = parsed (new_end dto r);
  worked_minutes = worked start (parsed (new_end dto r));
  source = AttendanceSource.manual;
  auto_closed = false;
  note = elim dto.note [ none ↦ r.note | some text ↦ lines text ];
}

unfoldable pub update : ℕ → UpdateRecord → Action AttendanceStore (Unit {0})
update id dto = do
  r ← find_record id
  start ← assert_range (new_start dto r) (new_end dto r)
  modify (update_record id (edited dto start))

unfoldable pub remove : ℕ → Action AttendanceStore (Unit {0})
remove id = do
  find_record id
  modify (λ (s : AttendanceStore). record s {
    records = select (λ (r : AttendanceRecord). not (r.id == id)) s.records;
  })

-- A session that the hourly job closes.
abbrev pub is_stale : ℕ → AttendanceRecord → Bool
is_stale now r = is_open r && ltb (r.clock_in + max_session_hours * 3600000) now

abbrev pub with_mark : List String → List String
with_mark [] = "[auto-closed: forgot to clock out]" ∷ []
with_mark (line ∷ rest) = line ∷ rest ++ "[auto-closed]" ∷ []

abbrev pub auto_closed_row : AttendanceRecord → AttendanceRecord
auto_closed_row r = record r {
  clock_out = some (r.clock_in + max_session_hours * 3600000);
  worked_minutes = some (max_session_hours * 60);
  auto_closed = true;
  note = with_mark r.note;
}

-- `autoCloseStaleSessions`, with the count that it returns.
unfoldable pub auto_close_stale_sessions : ℕ → Action AttendanceStore ℕ
auto_close_stale_sessions now = do
  n ← gets (λ (s : AttendanceStore). length (select (is_stale now) s.records))
  modify (λ (s : AttendanceStore). record s {
    records = update_where (is_stale now) auto_closed_row s.records;
  })
  pure n
