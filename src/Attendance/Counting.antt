-- ===== src/Attendance/Counting.antt =====
-- The open sessions of an employee and the minutes on record, after a row is added, changed or removed.
use ai_hr_sytem.Base.{
  ℕ, ◌≤◌, ◌≡◌, refl, subst, inl, inr, arith, Bool, true, false, List, [], ◌∷◌, ◌++◌, if◌then◌else◌,
  is_some, select, All, update_where, sum_of, sum_of-append, ==→eq, Bool-cases,
}
use ai_hr_sytem.Attendance.{
  AttendanceRecord, AttendanceStore, add_record, is_open, is_open_of, latest, open_session, worked,
}

abbrev pub opened : ℕ → AttendanceRecord → ℕ
opened e r = if is_open_of e r then 1 else 0

-- How many open sessions an employee has.
abbrev pub open_count : ℕ → List AttendanceRecord → ℕ
open_count e = sum_of (opened e)

-- The minutes on record are those between the two instants of a closed session.
abbrev pub IsTimed : AttendanceRecord → Type 0
IsTimed r = r.worked_minutes ≡ worked r.clock_in r.clock_out

pub record IsSound (s : AttendanceStore) : Type 0 where
  pub single : (e : ℕ) → open_count e s.records ≤ 1
  pub timed : All IsTimed s.records

-- A change that opens no session.
abbrev pub Closing : (AttendanceRecord → Bool) → (AttendanceRecord → AttendanceRecord) → Type 0
Closing p f =
    (e : ℕ) (r : AttendanceRecord) → p r ≡ true → is_open_of e (f r) ≡ true → is_open_of e r ≡ true

pub open_count-update :
    (e : ℕ) (p : AttendanceRecord → Bool) (f : AttendanceRecord → AttendanceRecord)
    (rs : List AttendanceRecord)
    → Closing p f
    → open_count e (update_where p f rs) ≤ open_count e rs
open_count-update e p f [] h = omega arith
open_count-update e p f (r ∷ rs) h = ground (arith, h e r, open_count-update e p f rs h)

pub IsTimed-update :
    (p : AttendanceRecord → Bool) (f : AttendanceRecord → AttendanceRecord)
    (rs : List AttendanceRecord)
    → ((r : AttendanceRecord) → p r ≡ true → IsTimed r → IsTimed (f r))
    → All IsTimed rs
    → All IsTimed (update_where p f rs)
IsTimed-update p f [] k h = tt
IsTimed-update p f (r ∷ rs) k h = elim (Bool-cases (p r)) [
  | inl q ↦ rw q (k r q h.0, IsTimed-update p f rs k h.1)
  | inr q ↦ rw q (h.0, IsTimed-update p f rs k h.1)
]

pub IsTimed-append :
    (r : AttendanceRecord) (rs : List AttendanceRecord)
    → All IsTimed rs
    → IsTimed r
    → All IsTimed (rs ++ r ∷ [])
IsTimed-append r [] h k = (k, tt)
IsTimed-append r (q ∷ rs) h k = (h.0, IsTimed-append r rs h.1 k)

pub open_count-select :
    (e : ℕ) (p : AttendanceRecord → Bool) (rs : List AttendanceRecord)
    → open_count e (select p rs) ≤ open_count e rs
open_count-select e p [] = omega arith
open_count-select e p (r ∷ rs) = ground (arith, open_count-select e p rs)

pub IsTimed-select :
    (p : AttendanceRecord → Bool) (rs : List AttendanceRecord)
    → All IsTimed rs
    → All IsTimed (select p rs)
IsTimed-select p [] h = tt
IsTimed-select p (r ∷ rs) h = elim (Bool-cases (p r)) [
  | inl q ↦ rw q (h.0, IsTimed-select p rs h.1)
  | inr q ↦ rw q (IsTimed-select p rs h.1)
]

-- Where no open session is found there is none.
pub no_session :
    (e : ℕ) (rs : List AttendanceRecord) → is_some (open_session e rs) ≡ false → open_count e rs ≡ 0
unfolding open_session latest
no_session e [] h = refl
no_session e (r ∷ rs) h = ground (arith, no_session e rs)

-- One row more, which is open only for an employee with no open session.
pub add-IsSound :
    (r : AttendanceRecord) (s : AttendanceStore)
    → IsSound s
    → IsTimed r
    → (is_open r ≡ true → is_some (open_session r.employee_id s.records) ≡ false)
    → IsSound (add_record r s)
add-IsSound r s h k alone = record {
  single = λ e. elim (Bool-cases (is_open_of e r)) [
    | inl q ↦
        let opens : is_open r ≡ true = ground arith in
        let same : r.employee_id ≡ e = ==→eq r.employee_id e (ground arith) in
        let none_yet : open_count e s.records ≡ 0 =
          subst (λ i. open_count i s.records ≡ 0) same
            (no_session r.employee_id s.records (alone opens)) in
        ground (arith, sum_of-append (opened e) s.records (r ∷ []))
    | inr q ↦ ground (arith, sum_of-append (opened e) s.records (r ∷ []), h.single e)
  ];
  timed = IsTimed-append r s.records h.timed k;
}

pub change-IsSound :
    (p : AttendanceRecord → Bool) (f : AttendanceRecord → AttendanceRecord) (s : AttendanceStore)
    → Closing p f
    → ((r : AttendanceRecord) → p r ≡ true → IsTimed r → IsTimed (f r))
    → IsSound s
    → IsSound (record s { records = update_where p f s.records })
change-IsSound p f s closes keeps h = record {
  single = λ e. omega (arith, open_count-update e p f s.records closes, h.single e);
  timed = IsTimed-update p f s.records keeps h.timed;
}
