-- ===== src/Leave/Policy.antt =====
-- src/modules/leave/leave-policy.service.ts: working days, entitlements and balances.
use ai_hr_sytem.Base.{
  ℕ, zero, suc, ◌+◌, ◌-◌, ◌*◌, ◌/◌, Bool, true, false, not, ◌&&◌, ◌||◌, Option, none, some, List,
  [], ◌∷◌, ◌++◌, ltb, leb, ◌==◌, if◌then◌else◌, includes, find, update_where, Action, bad_request,
  not_found, pure, gets, or_throw, ◌>>=◌, ◌>>◌, throw_if, modify, min,
}
use ai_hr_sytem.Base.Int.{ℤ, pos, pos_part, ltb_ℤ, ◌+ℤ◌, ◌-ℤ◌}
use ai_hr_sytem.Calendar.{IsoDate, year_of, month_of, iso, next_day, day_number, day_of_week}
use ai_hr_sytem.Employees.{Employee, find_employee}
use ai_hr_sytem.Leave.Defs.{
  HalfDay, LeaveType, LeaveBalance, LeaveStore, effective_carry_over, available,
}

abbrev pub is_half : HalfDay → Bool
is_half HalfDay.none_half = false
is_half _ = true

unfoldable pub is_weekend : IsoDate → Bool
is_weekend d = (day_of_week d == 0) || (day_of_week d == 6)

-- A day that is charged.
unfoldable pub is_working : List IsoDate → IsoDate → Bool
is_working holidays d = not (is_weekend d || includes holidays d)

-- `for (let d = startDate; d <= endDate; d = addDays(d, 1))`, with fuel.
unfoldable pub count_loop : ℕ → List IsoDate → IsoDate → IsoDate → ℕ → ℕ
count_loop zero holidays d end_date days = days
count_loop (suc fuel) holidays d end_date days = elim (leb d end_date) [
  | false ↦ days
  | true ↦
      count_loop fuel holidays (next_day d) end_date
        (if is_working holidays d then days + 1 else days)
]

-- One round for each day of the span and one to leave the loop.
abbrev pub rounds : IsoDate → IsoDate → ℕ
rounds a b = day_number b + 2 - day_number a

-- `countWorkingDays`, in half days. The query for the holidays of the span and the test of the
-- set agree with a test of the whole table, since only days of the span are tested.
unfoldable pub count_working_days : IsoDate → IsoDate → HalfDay → Action LeaveStore ℕ
count_working_days a b half = do
  throw_if (ltb b a) (bad_request "endDate must be on or after startDate")
  throw_if (is_half half && not (a == b))
      (bad_request "Half days are only allowed on single-day requests")
  holidays ← gets LeaveStore.holidays
  let days = count_loop (rounds a b) holidays a b 0
  pure (if is_half half then (if days == 0 then 0 else 1) else 2 * days)

unfoldable pub find_type : ℕ → Action LeaveStore LeaveType
find_type id = do
  or_throw (← gets (λ (s : LeaveStore). find (λ (t : LeaveType). t.id == id) s.types))
      (not_found "Leave type not found")

-- `proRate`: round1(defaultDays * months / 12), both in half days.
unfoldable pub pro_rate : ℕ → IsoDate → ℕ → ℕ
pro_rate default_days hire_date year =
    if ltb year (year_of hire_date)
    then 0
    else if ltb (year_of hire_date) year
    then default_days
    else (2 * (default_days * (13 - month_of hire_date)) + 12) / 24

abbrev pub has_key : ℕ → ℕ → ℕ → LeaveBalance → Bool
has_key e t y b = (b.employee_id == e) && (b.leave_type_id == t) && (b.year == y)

abbrev pub find_balance : ℕ → ℕ → ℕ → List LeaveBalance → Option LeaveBalance
find_balance e t y = find (has_key e t y)

-- `max(0, min(remaining, cap))` in half days, where `round1` changes nothing.
abbrev pub clamp : ℤ → ℕ → ℕ
clamp remaining cap = min (pos_part remaining) cap

-- What the row of the year before hands over.
unfoldable pub carry_over : LeaveType → Option LeaveBalance → ℕ
carry_over type prev =
    if ltb 0 type.carry_over_max_days
    then elim prev [
      | none ↦ 0
      | some b ↦
          clamp (b.entitled +ℤ effective_carry_over b (iso b.year 12 31) +ℤ b.adjustment -ℤ b.used)
            type.carry_over_max_days
    ]
    else 0

abbrev pub new_balance : ℕ → ℕ → ℕ → LeaveType → Employee → ℕ → LeaveBalance
new_balance e t year type emp carried = record {
  employee_id = e;
  leave_type_id = t;
  year = year;
  entitled = pos (pro_rate type.default_days emp.hire_date year);
  carried_over = pos carried;
  carry_over_expires_on =
      if ltb 0 carried
      then elim type.carry_over_expires_on [ none ↦ none | some md ↦ some (year * 10000 + md) ]
      else none;
  adjustment = pos 0;
  used = pos 0;
  pending = pos 0;
}

-- `ensureBalance`: the row of the key, created on first touch.
unfoldable pub ensure_balance : ℕ → ℕ → ℕ → Action LeaveStore LeaveBalance
ensure_balance e t y s = elim (find_balance e t y s.balances) [
  | some b ↦ pure b s
  | none ↦
      (do
        type ← find_type t
        emp ← or_throw (find_employee e s.company.employees) (not_found "Employee not found")
        let prev = find_balance e t (y - 1) s.balances
        let row = new_balance e t y type emp (carry_over type prev)
        modify (λ (u : LeaveStore). record u { balances = u.balances ++ row ∷ [] })
        pure row)
        s
]

-- `balances.save(row)`: the row of the key is written.
abbrev pub save_balance : LeaveBalance → List LeaveBalance → List LeaveBalance
save_balance b = update_where (has_key b.employee_id b.leave_type_id b.year) (λ _. b)

-- `applyToBalance`
unfoldable pub apply_to_balance : LeaveBalance → ℤ → ℤ → Action LeaveStore LeaveBalance
apply_to_balance b d_pending d_used = do
  let row = record b { pending = b.pending +ℤ d_pending; used = b.used +ℤ d_used }
  modify (λ (u : LeaveStore). record u { balances = save_balance row u.balances })
  pure row

-- `adjust`, as of `today`.
unfoldable pub adjust : IsoDate → ℕ → ℕ → ℕ → ℤ → ℕ → Action LeaveStore LeaveBalance
adjust today e t y delta actor = do
  type ← find_type t
  throw_if (not type.requires_balance) (bad_request "This leave type has no balance")
  b ← ensure_balance e t y
  throw_if (ltb_ℤ (available b today +ℤ delta) (pos 0))
      (bad_request "Adjustment would make the available balance negative")
  let row = record b { adjustment = b.adjustment +ℤ delta }
  modify (λ (u : LeaveStore). record u {
    balances = save_balance row u.balances;
    adjustments =
        u.adjustments
        ++ record {
          employee_id = e;
          leave_type_id = t;
          year = y;
          delta = delta;
          by_user_id = actor;
        }
          ∷ [];
  })
  pure row
