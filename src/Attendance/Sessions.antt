-- ===== src/Attendance/Sessions.antt =====
-- The sessions of an employee, over any sequence of calls.
use ai_hr_sytem.Base.{
  ℕ, ◌+◌, ◌*◌, ◌≡◌, refl, ap, sym, subst, inl, inr, arith, Bool, true, false, not, ◌&&◌, Option,
  none, some, List, [], ◌∷◌, String, ◌==◌, is_some, find, select, any, includes, Bool-cases,
  Option-cases, Result-cases, ok,
}
use ai_hr_sytem.Attendance.{
  AttendanceRecord, AttendanceStore, AttendanceSource, today_iso, ManualRecord, UpdateRecord,
  minutes_between, open_session, clock_in, clock_out, assert_range, parsed, worked, create_manual,
  find_record, new_start, new_end, edited, update, remove, is_stale, auto_closed_row,
  auto_close_stale_sessions, closed_at, max_session_hours, lines,
}
use ai_hr_sytem.Attendance.Counting.{
  IsTimed, IsSound, Closing, open_count-select, IsTimed-select, add-IsSound, change-IsSound,
}

clock_in-IsSound :
    (e : ℕ) (remark : Option String) (now : ℕ) (s : AttendanceStore)
    → IsSound s
    → IsSound (clock_in e remark now s).1
unfolding clock_in
clock_in-IsSound e remark now s h = elim (Bool-cases (is_some (open_session e s.records))) [
  | inl q ↦ rw q h
  | inr q ↦ rw q (add-IsSound _ s h refl (λ opens. q))
]

clock_out-IsSound :
    (e : ℕ) (remark : Option String) (now : ℕ) (s : AttendanceStore)
    → IsSound s
    → IsSound (clock_out e remark now s).1
unfolding clock_out
clock_out-IsSound e remark now s h = elim (Option-cases (open_session e s.records)) [
  | inl q ↦ rw q h
  | inr (r, q) ↦ rw q (
      change-IsSound (λ (x : AttendanceRecord). x.id == r.id) (closed_at now (lines remark)) s
        (λ i x p opens. absurd (ground arith)) (λ x p t. refl) h)
]

-- The range check only reads, and an end that passes it is an instant.
range_reads :
    (a : Option ℕ) (b : Option (Option ℕ)) (s : AttendanceStore) → (assert_range a b s).1 ≡ s
unfolding assert_range
range_reads a b s = ground arith

-- A check that passed on an end that was given leaves a session that is closed.
ended :
    (a : Option ℕ) (b : Option (Option ℕ)) (s : AttendanceStore) {start : ℕ}
    → (assert_range a b s).0 ≡ ok start
    → is_some b ≡ is_some (parsed b)
unfolding assert_range
ended a none s h = refl
ended a (some none) s h = absurd (ground arith)
ended a (some (some t)) s h = refl

alone :
    (dto : ManualRecord) (rs : List AttendanceRecord)
    → is_some dto.clock_out ≡ is_some (parsed dto.clock_out)
    → (not (is_some dto.clock_out) && is_some (open_session dto.employee_id rs)) ≡ false
    → not (is_some (parsed dto.clock_out)) ≡ true
    → is_some (open_session dto.employee_id rs) ≡ false
alone dto rs same free opens = ground arith

abbrev manual_row : ManualRecord → ℕ → ℕ → ℕ → AttendanceRecord
manual_row dto by start id = record {
  id = id;
  employee_id = dto.employee_id;
  date = today_iso start;
  clock_in = start;
  clock_out = parsed dto.clock_out;
  worked_minutes = worked start (parsed dto.clock_out);
  source = AttendanceSource.manual;
  auto_closed = false;
  note = lines dto.note;
  created_by_user_id = some by;
}

create_manual-IsSound :
    (dto : ManualRecord) (by : ℕ) (s : AttendanceStore)
    → IsSound s
    → IsSound (create_manual dto by s).1
unfolding create_manual
create_manual-IsSound dto by s h =
    elim (Result-cases (assert_range dto.clock_in dto.clock_out s).0) [
      | inr (x, q) ↦
          let reads = range_reads dto.clock_in dto.clock_out s in subst IsSound (ground arith) h
      | inl (start, q) ↦
          let reads = range_reads dto.clock_in dto.clock_out s in
          let row : AttendanceRecord = manual_row dto by start s.next_id in
          elim (Bool-cases (includes s.employee_ids dto.employee_id)) [
            | inr k ↦ subst IsSound (ground arith) h
            | inl k ↦
                elim (Bool-cases (
                  not (is_some dto.clock_out)
                  && is_some (open_session dto.employee_id s.records))) [
                    | inl busy ↦ subst IsSound (ground arith) h
                    | inr free ↦ subst IsSound (ground arith) (
                        add-IsSound row s h refl
                          (alone dto s.records (ended dto.clock_in dto.clock_out s q) free))
                  ]
          ]
    ]

-- A change of a row that asks for no reopening.
abbrev pub reopens : UpdateRecord → Bool
reopens dto = elim dto.clock_out [ none ↦ false | some t ↦ not (is_some t) ]

edited-Closing :
    (dto : UpdateRecord) (start : ℕ) (p : AttendanceRecord → Bool) (a : Option ℕ)
    (r : AttendanceRecord) (s : AttendanceStore)
    → reopens dto ≡ false
    → (assert_range a (new_end dto r) s).0 ≡ ok start
    → Closing p (edited dto start)
edited-Closing dto start p a r s k h e q hit opens = elim (Option-cases dto.clock_out) [
  | inl same ↦ elim (Option-cases q.clock_out) [
    | inl o ↦ ground arith
    | inr (t, o) ↦ absurd (ground arith)
  ]
  | inr (t, given) ↦
      let closed = ended a t s (subst (λ v. (assert_range a v s).0 ≡ ok start) (ground arith) h) in
      absurd (ground arith)
]

update-IsSound :
    (id : ℕ) (dto : UpdateRecord) (s : AttendanceStore)
    → reopens dto ≡ false
    → IsSound s
    → IsSound (update id dto s).1
unfolding update find_record
update-IsSound id dto s k h =
    elim (Option-cases (find (λ (r : AttendanceRecord). r.id == id) s.records)) [
      | inl q ↦ subst IsSound (ground arith) h
      | inr (r, q) ↦
          let reads = range_reads (new_start dto r) (new_end dto r) s in
          elim (Result-cases (assert_range (new_start dto r) (new_end dto r) s).0) [
            | inr (x, e) ↦ subst IsSound (ground arith) h
            | inl (start, e) ↦ subst IsSound (ground arith) (
                change-IsSound (λ (x : AttendanceRecord). x.id == id) (edited dto start) s
                  (edited-Closing dto start (λ x. x.id == id) (new_start dto r) r s k e)
                  (λ x hit t. refl) h)
          ]
    ]

kept :
    (s : AttendanceStore) (p : AttendanceRecord → Bool)
    → IsSound s
    → IsSound (record s { records = select p s.records })
kept s p h = record {
  single = λ e. omega (arith, open_count-select e p s.records, h.single e);
  timed = IsTimed-select p s.records h.timed;
}

remove-IsSound : (id : ℕ) (s : AttendanceStore) → IsSound s → IsSound (remove id s).1
unfolding remove find_record
remove-IsSound id s h =
    elim (Option-cases (find (λ (r : AttendanceRecord). r.id == id) s.records)) [
      | inl q ↦ subst IsSound (ground arith) h
      | inr (r, q) ↦
          subst IsSound (ground arith) (kept s (λ (x : AttendanceRecord). not (x.id == id)) h)
    ]

whole_session :
    (a : ℕ) → minutes_between a (a + max_session_hours * 3600000) ≡ max_session_hours * 60
unfolding minutes_between
whole_session a = omega arith

auto_close-IsSound :
    (now : ℕ) (s : AttendanceStore) → IsSound s → IsSound (auto_close_stale_sessions now s).1
unfolding auto_close_stale_sessions
auto_close-IsSound now s h =
    change-IsSound (is_stale now) auto_closed_row s (λ e r p opens. absurd (ground arith))
      auto_timed h
  where
    auto_timed :
        (r : AttendanceRecord) → is_stale now r ≡ true → IsTimed r → IsTimed (auto_closed_row r)
    auto_timed r p t = ap some (sym (whole_session r.clock_in))

-- A call of the service.
pub data Call : Type 0 where
  clocks_in clocks_out : ℕ → Option String → ℕ → Call
  enters : ManualRecord → ℕ → Call
  edits : ℕ → UpdateRecord → Call
  removes : ℕ → Call
  hourly_job : ℕ → Call

unfoldable pub run : Call → AttendanceStore → AttendanceStore
run (clocks_in e remark now) s = (clock_in e remark now s).1
run (clocks_out e remark now) s = (clock_out e remark now s).1
run (enters dto by) s = (create_manual dto by s).1
run (edits id dto) s = (update id dto s).1
run (removes id) s = (remove id s).1
run (hourly_job now) s = (auto_close_stale_sessions now s).1

unfoldable pub run_all : List Call → AttendanceStore → AttendanceStore
run_all [] s = s
run_all (c ∷ cs) s = run_all cs (run c s)

abbrev pub reopens_one : Call → Bool
reopens_one (edits id dto) = reopens dto
reopens_one _ = false

run-IsSound :
    (c : Call) (s : AttendanceStore) → reopens_one c ≡ false → IsSound s → IsSound (run c s)
unfolding run
run-IsSound (clocks_in e remark now) s k h = clock_in-IsSound e remark now s h
run-IsSound (clocks_out e remark now) s k h = clock_out-IsSound e remark now s h
run-IsSound (enters dto by) s k h = create_manual-IsSound dto by s h
run-IsSound (edits id dto) s k h = update-IsSound id dto s k h
run-IsSound (removes id) s k h = remove-IsSound id s h
run-IsSound (hourly_job now) s k h = auto_close-IsSound now s h

-- Over any sequence of calls, those that fail included, of which no edit takes the end of a
-- session away, every employee has at most one open session, and the minutes on record are those
-- between the start and the end of each session.
pub run_all-IsSound :
    (cs : List Call) (s : AttendanceStore)
    → any reopens_one cs ≡ false
    → IsSound s
    → IsSound (run_all cs s)
unfolding run_all
run_all-IsSound [] s k h = h
run_all-IsSound (c ∷ cs) s k h =
    run_all-IsSound cs (run c s) (ground arith) (run-IsSound c s (ground arith) h)
