-- ===== src/Leave/Submission.antt =====
-- A submission reserves what it files, and keeps the ledger balanced.
use ai_hr_sytem.Base.{
  ℕ, ◌≡◌, refl, sym, ap, ◌∙◌, inl, inr, arith, true, false, ◌&&◌, List, [], ◌∷◌, ◌==◌, Bool-cases,
  ok, err, HttpError, Result-cases,
}
use ai_hr_sytem.Base.Int.{ℤ, pos, ◌+ℤ◌, int_laws}
use ai_hr_sytem.Calendar.{IsoDate, year_of}
use ai_hr_sytem.Employees.{Employee}
use ai_hr_sytem.Leave.Defs.{LeaveType, LeaveRequest, LeaveStore, Allocation, CreateLeaveRequest}
use ai_hr_sytem.Leave.Policy.{ensure_balance}
use ai_hr_sytem.Leave.Requests.{
  is_pending, is_approved, charged, zero_days, check_balances, charge_balances, total_days,
  new_request, file_request, reserve,
}
use ai_hr_sytem.Leave.Balances.{
  pending_at, used_at, SameDays, SameTables, SameDays-refl, ensure_balance_lem,
}
use ai_hr_sytem.Leave.Charging.{charge_balances-Charged}
use ai_hr_sytem.Leave.Ledger.{days_in, sum_days, sum_days-add, IsBalanced}
use ai_hr_sytem.Leave.Invariant.{charge_sum-zero}

-- The check of the balances may provision rows, and changes no day on record.
record OnlyRows (s u : LeaveStore) : Type 0 where
  days : SameDays s u
  tables : SameTables s u

module _ (e t start_year : ℕ) (start_date : IsoDate) where
  check_head :
      (a : Allocation) (rest : List Allocation) (s : LeaveStore)
      → (check_balances e t start_year start_date (a ∷ rest) s).0 ≡ ok tt
      → (check_balances e t start_year start_date rest (ensure_balance e t a.year s).1).0 ≡ ok tt
  unfolding check_balances
  check_head a rest s h = ground arith

  check_state :
      (a : Allocation) (rest : List Allocation) (s : LeaveStore)
      → (check_balances e t start_year start_date (a ∷ rest) s).0 ≡ ok tt
      → (check_balances e t start_year start_date (a ∷ rest) s).1
        ≡ (check_balances e t start_year start_date rest (ensure_balance e t a.year s).1).1
  unfolding check_balances
  check_state a rest s h = ground arith

  check_ensured :
      (a : Allocation) (rest : List Allocation) (s : LeaveStore) (x : HttpError)
      → (ensure_balance e t a.year s).0 ≡ err x
      → (check_balances e t start_year start_date (a ∷ rest) s).0 ≡ err x
  unfolding check_balances
  check_ensured a rest s x h = ground arith

  check_balances-OnlyRows :
      (l : List Allocation) (s : LeaveStore)
      → (check_balances e t start_year start_date l s).0 ≡ ok tt
      → OnlyRows s (check_balances e t start_year start_date l s).1
  check_balances-OnlyRows [] s h =
      unfold check_balances in
      record {
        days = SameDays-refl s;
        tables = record {
          same_company = refl;
          same_types = refl;
          same_requests = refl;
          same_next = refl;
        };
      }
  check_balances-OnlyRows (a ∷ rest) s h = elim (Result-cases (ensure_balance e t a.year s).0) [
    | inr (x, q) ↦ absurd (ground (arith, check_ensured a rest s x q))
    | inl (b, q) ↦
        let made = ensure_balance_lem e t a.year s q in
        let m = (ensure_balance e t a.year s).1 in
        let later = check_balances-OnlyRows rest m (check_head a rest s h) in
        rw (check_state a rest s h) (record {
          days = record {
            same_pending = λ i j y. later.days.same_pending i j y ∙ made.days.same_pending i j y;
            same_used = λ i j y. later.days.same_used i j y ∙ made.days.same_used i j y;
          };
          tables = record {
            same_company = later.tables.same_company ∙ made.tables.same_company;
            same_types = later.tables.same_types ∙ made.tables.same_types;
            same_requests = later.tables.same_requests ∙ made.tables.same_requests;
            same_next = later.tables.same_next ∙ made.tables.same_next;
          };
        })
  ]

right_zero : (a : ℤ) → a +ℤ pos 0 ≡ a
right_zero a = omega int_laws

module _ (t : ℕ) (emp : Employee) (type : LeaveType) (dto : CreateLeaveRequest)
    (l : List Allocation) (actor : ℕ) (s : LeaveStore) where
  abbrev pub filed : LeaveStore → LeaveRequest
  filed u = new_request u.next_request_id emp type u.company.employees dto l

  abbrev pub held : List Allocation
  held = charged l (year_of dto.start_date) (total_days l)

  -- What a reservation does to the keys of leave type `t`.
  pub record Reserved (u : LeaveStore) : Type 0 where
    pub now_pending :
        (e y : ℕ) → pending_at e t y u ≡ pending_at e t y s +ℤ days_in is_pending e t y (filed u)
    pub now_used : (e y : ℕ) → used_at e t y u ≡ used_at e t y s
    pub same_requests : u.requests ≡ s.requests

  reserve_parts :
      type.requires_balance ≡ true
      → (reserve emp type dto l s).0 ≡ ok tt
      → let m = (check_balances emp.id type.id (year_of dto.start_date) dto.start_date l s).1 in
        ((check_balances emp.id type.id (year_of dto.start_date) dto.start_date l s).0 ≡ ok tt)
        × ((charge_balances emp.id type.id pos zero_days held m).0 ≡ ok tt)
        × ((reserve emp type dto l s).1 ≡ (charge_balances emp.id type.id pos zero_days held m).1)
  unfolding reserve
  reserve_parts q h = ground arith

  pub reserve-Reserved :
      type.requires_balance ≡ true
      → (reserve emp type dto l s).0 ≡ ok tt
      → Reserved (reserve emp type dto l s).1
  unfolding days_in
  reserve-Reserved q h =
      let (checked, charged_ok, state) = reserve_parts q h in
      let m = (check_balances emp.id type.id (year_of dto.start_date) dto.start_date l s).1 in
      let rows =
        check_balances-OnlyRows emp.id type.id (year_of dto.start_date) dto.start_date l s
          checked in
      let c = charge_balances-Charged emp.id type.id pos zero_days held m charged_ok in
      rw state (record {
        now_pending = λ e y. elim (Bool-cases ((e == emp.id) && (t == type.id))) [
          | inl k ↦ ground (arith, c.own_pending y, rows.days.same_pending e t y)
          | inr k ↦ ground (
            arith,
            c.other_pending e t y k,
            rows.days.same_pending e t y,
            right_zero (pending_at e t y s),
          )
        ];
        now_used = λ e y. elim (Bool-cases ((e == emp.id) && (t == type.id))) [
          | inl k ↦ ground (
            arith,
            c.own_used y,
            rows.days.same_used e t y,
            charge_sum-zero y held,
            right_zero (used_at e t y s),
          )
          | inr k ↦ ground (arith, c.other_used e t y k, rows.days.same_used e t y)
        ];
        same_requests = c.tables.same_requests ∙ rows.tables.same_requests;
      })

  -- A leave type without balances reserves nothing, and its requests are no matter of type `t`.
  pub unreserved-Reserved :
      type.requires_balance ≡ false → (t == type.id) ≡ false → Reserved (reserve emp type dto l s).1
  unfolding reserve days_in
  unreserved-Reserved q other = record {
    now_pending = λ e y. ground (arith, right_zero (pending_at e t y s));
    now_used = λ e y. ground arith;
    same_requests = ground arith;
  }

  -- A submission whose reservation succeeds keeps leave type `t` balanced: the filed request
  -- holds exactly the days that were reserved, in each year.
  pub file-IsBalanced :
      (u : LeaveStore)
      → Reserved u
      → IsBalanced t s
      → IsBalanced t (file_request emp type dto l actor u)
  unfolding file_request days_in
  file-IsBalanced u r b = record {
    reserved = λ e y.
        rw (sum_days-add is_pending e t y (filed u) u.requests, r.same_requests)
          (r.now_pending e y ∙ ap (λ v. v +ℤ days_in is_pending e t y (filed u)) (b.reserved e y));
    consumed = λ e y.
        rw (sum_days-add is_approved e t y (filed u) u.requests, r.same_requests)
          (r.now_used e y
            ∙ b.consumed e y
            ∙ sym (right_zero (sum_days is_approved e t y s.requests))
            ∙ ap (λ v. sum_days is_approved e t y s.requests +ℤ v)
                (sym (not_used e y (filed u) refl)));
  }
    where
      not_used :
          (e y : ℕ) (q : LeaveRequest)
          → is_approved q.status ≡ false
          → days_in is_approved e t y q ≡ pos 0
      not_used e y q h = ground arith
