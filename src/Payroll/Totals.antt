-- ===== src/Payroll/Totals.antt =====
-- `calculate`: the totals of a run are those of its payslips.
use ai_hr_sytem.Base.{
  ℕ, ◌+◌, ◌-◌, ◌≡◌, refl, sym, ap, subst, ◌∙◌, inl, inr, arith, Bool, true, not, Option, some, List,
  [], ◌∷◌, ◌++◌, ==_refl, select, All, length, length-append, sum_of, sum_of-append, Bool-cases,
  Option-cases, ok_injective, ok,
}
use ai_hr_sytem.Base.Int.{ℤ, pos, ◌+ℤ◌, int_laws}
use ai_hr_sytem.Employees.{Employee}
use ai_hr_sytem.Payroll.Rows.{
  append-nil, find_run_at, find_run-none, run_at, found_id, run_at_saved, select-append, select-All,
  reject_All, select_rejected, reject_twice,
}
use ai_hr_sytem.Payroll.Runs.{
  PayrollRunStatus, RunTotals, PayrollRun, EmployerCost, Payslip, PayslipComputation,
  PayrollCalculator, PayrollStore, is_open_run, of_run,
}
use ai_hr_sytem.Payroll.Runs.Calculation.{
  is_in_scope, Outcome, skip, pay, add_totals, Tally, new_payslip, record_outcome, pay_employee,
  pay_all, start_tally, without_slips, finished, commit_run, calculate,
}

abbrev pub net_sum : List Payslip → ℤ
net_sum [] = pos 0
net_sum (p ∷ ps) = p.net +ℤ net_sum ps

abbrev pub cost_of : Payslip → ℕ
cost_of p = sum_of EmployerCost.amount p.employer_costs

-- The totals of a list of payslips.
abbrev pub totals_of : List Payslip → ℕ → RunTotals
totals_of ps skipped = record {
  employees = length ps;
  gross = sum_of Payslip.gross ps;
  deductions = sum_of Payslip.total_deductions ps;
  net = net_sum ps;
  employer_cost = sum_of cost_of ps;
  skipped = skipped;
}

net_sum-append : (ps qs : List Payslip) → net_sum (ps ++ qs) ≡ net_sum ps +ℤ net_sum qs
net_sum-append [] qs = omega int_laws
net_sum-append (p ∷ ps) qs = rw (net_sum-append ps qs) (omega int_laws)

-- The tally agrees with the payslips written so far, which are all of the run.
pub record IsReckoned (id : ℕ) (t : Tally) : Type 0 where
  pub reckoned : t.totals ≡ totals_of t.slips 0
  pub owned : All (λ (p : Payslip). of_run id p ≡ true) t.slips

owned_more :
    (id : ℕ) (ps : List Payslip) (p : Payslip)
    → All (λ (p : Payslip). of_run id p ≡ true) ps
    → of_run id p ≡ true
    → All (λ (p : Payslip). of_run id p ≡ true) (ps ++ p ∷ [])
owned_more id [] p h k = (k, tt)
owned_more id (q ∷ ps) p h k = (h.0, owned_more id ps p h.1 k)

one_more :
    (ps : List Payslip) (id : ℕ) (run : PayrollRun) (e : ℕ) (c : PayslipComputation) (o : Option ℕ)
    → add_totals (totals_of ps 0) c ≡ totals_of (ps ++ new_payslip id run e c o ∷ []) 0
one_more ps id run e c o =
    let qs = new_payslip id run e c o ∷ [] in
    let n : length ps + 1 ≡ length (ps ++ qs) = omega (arith, length-append {0} ps qs) in
    let g : sum_of Payslip.gross ps + c.gross ≡ sum_of Payslip.gross (ps ++ qs) =
      omega (arith, sum_of-append Payslip.gross ps qs) in
    let d : sum_of Payslip.total_deductions ps + c.total_deductions
        ≡ sum_of Payslip.total_deductions (ps ++ qs) =
      omega (arith, sum_of-append Payslip.total_deductions ps qs) in
    let w : net_sum ps +ℤ c.net ≡ net_sum (ps ++ qs) = rw (net_sum-append ps qs) (omega int_laws) in
    let k : sum_of cost_of ps + sum_of EmployerCost.amount c.employer_costs
        ≡ sum_of cost_of (ps ++ qs) =
      omega (arith, sum_of-append cost_of ps qs) in
    λ i. record {
      employees = n i;
      gross = g i;
      deductions = d i;
      net = w i;
      employer_cost = k i;
      skipped = 0;
    }

record_outcome-IsReckoned :
    (run : PayrollRun) (e : ℕ) (o : Outcome) (t : Tally)
    → IsReckoned run.id t
    → IsReckoned run.id (record_outcome run e o t)
unfolding record_outcome
record_outcome-IsReckoned run e (skip reason) t h = record {
  reckoned = h.reckoned;
  owned = h.owned;
}
record_outcome-IsReckoned run e (pay c structure) t h =
    let p = new_payslip t.next_id run e c structure in
    record {
      reckoned = rw (h.reckoned) (one_more t.slips t.next_id run e c structure);
      owned = owned_more run.id t.slips p h.owned (==_refl run.id);
    }

counted :
    (run : PayrollRun) (e : ℕ) (o : Outcome) (t : Tally)
    → length (record_outcome run e o t).skipped + length (record_outcome run e o t).slips
      ≡ length t.skipped + length t.slips + 1
unfolding record_outcome
counted run e (skip reason) t = omega (arith, length-append {0} t.skipped ((e, reason) ∷ []))
counted run e (pay c structure) t =
    omega (arith, length-append {0} t.slips (new_payslip t.next_id run e c structure ∷ []))

-- What a calculation of the run `id` that answers with `run` makes of the store.
pub record IsAccounted (id : ℕ) (s t : PayrollStore) (run : PayrollRun) : Type 0 where
  pub done : run.status ≡ PayrollRunStatus.calculated
  pub reckoned :
      let slips = select (of_run id) t.payslips in
      run.totals
      ≡ some
          (totals_of slips (length (select (is_in_scope run) s.company.employees) - length slips))
  pub rest :
      select (λ (p : Payslip). not (of_run id p)) t.payslips
      ≡ select (λ (p : Payslip). not (of_run id p)) s.payslips

module _ (is_paye_code : ℕ → Bool) (calculator : PayrollCalculator) where
  pay_all-IsReckoned :
      (run : PayrollRun) (s : PayrollStore) (es : List Employee) (t : Tally)
      → IsReckoned run.id t
      → IsReckoned run.id (pay_all is_paye_code calculator run s es t)
  unfolding pay_all
  pay_all-IsReckoned run s [] t h = h
  pay_all-IsReckoned run s (e ∷ es) t h =
      let o = pay_employee is_paye_code calculator run s e in
      pay_all-IsReckoned run s es (record_outcome run e.id o t)
        (record_outcome-IsReckoned run e.id o t h)

  pay_all_counted :
      (run : PayrollRun) (s : PayrollStore) (es : List Employee) (t : Tally)
      → let u = pay_all is_paye_code calculator run s es t in
        length u.skipped + length u.slips ≡ length t.skipped + length t.slips + length es
  unfolding pay_all
  pay_all_counted run s [] t = omega arith
  pay_all_counted run s (e ∷ es) t =
      let o = pay_employee is_paye_code calculator run s e in
      omega (arith, counted run e.id o t, pay_all_counted run s es (record_outcome run e.id o t))

  module _ (run : PayrollRun) (s : PayrollStore) where
    abbrev pub in_scope : List Employee
    in_scope = select (is_in_scope run) s.company.employees

    -- The tally at the end of the loop.
    abbrev pub tally : Tally
    tally =
        pay_all is_paye_code calculator run (without_slips run.id s) in_scope
          (start_tally (without_slips run.id s))

    pub tally-IsReckoned : IsReckoned run.id tally
    tally-IsReckoned =
        let u = without_slips run.id s in
        pay_all-IsReckoned run u in_scope (start_tally u) (record { reckoned = refl; owned = tt })

    tally_counted : length tally.skipped + length tally.slips ≡ length in_scope
    tally_counted =
        let u = without_slips run.id s in
        omega (arith, pay_all_counted run u in_scope (start_tally u))

    committed_own :
        select (of_run run.id) (commit_run is_paye_code calculator run s).payslips ≡ tally.slips
    unfolding commit_run
    committed_own =
        rw
          (
            select-append (of_run run.id) (without_slips run.id s).payslips tally.slips,
            select_rejected (of_run run.id) s.payslips,
            select-All (of_run run.id) tally.slips tally-IsReckoned.owned,
          )
          refl

    committed_rest :
        select
          (λ (p : Payslip). not (of_run run.id p))
          (commit_run is_paye_code calculator run s).payslips
        ≡ select (λ (p : Payslip). not (of_run run.id p)) s.payslips
    unfolding commit_run
    committed_rest =
        rw
          (
            select-append (λ (p : Payslip). not (of_run run.id p)) (without_slips run.id s).payslips
                tally.slips,
            reject_twice (of_run run.id) s.payslips,
            reject_All (of_run run.id) tally.slips tally-IsReckoned.owned,
          )
          (append-nil _)

    committed_totals :
        (finished run tally).totals
        ≡ some (totals_of tally.slips (length in_scope - length tally.slips))
    committed_totals =
        let n : length tally.skipped ≡ length in_scope - length tally.slips =
          omega (arith, tally_counted) in
        rw tally-IsReckoned.reckoned (ap (λ n. some (totals_of tally.slips n)) n)

  calculated_from :
      (id : ℕ) (s : PayrollStore) (run : PayrollRun)
      → (calculate is_paye_code calculator id s).0 ≡ ok run
      → (r : PayrollRun) × (run_at id s.runs ≡ some r) × (is_open_run r.status ≡ true)
  unfolding calculate
  calculated_from id s run h = elim (Option-cases (run_at id s.runs)) [
    | inl c ↦ ground (arith, find_run-none id s c, h)
    | inr (r, c) ↦ elim (Bool-cases (is_open_run r.status)) [
      | inl o ↦ (r, c, o)
      | inr o ↦ ground (arith, find_run_at id s r c, o, h)
    ]
  ]

  calculate_at :
      (id : ℕ) (s : PayrollStore) (r : PayrollRun)
      → run_at id s.runs ≡ some r
      → is_open_run r.status ≡ true
      → calculate is_paye_code calculator id s
        ≡ (ok (finished r (tally r s)), commit_run is_paye_code calculator r s)
  unfolding calculate commit_run
  calculate_at id s r c o =
      let saved = run_at_saved id s.runs r (finished r (tally r s)) c (found_id id s.runs r c) in
      ground (
        arith,
        find_run_at id s r c,
        o,
        find_run_at id (commit_run is_paye_code calculator r s) (finished r (tally r s)) saved,
      )

  committed-IsAccounted :
      (r : PayrollRun) (s : PayrollStore)
      → IsAccounted r.id s (commit_run is_paye_code calculator r s) (finished r (tally r s))
  unfolding is_in_scope
  committed-IsAccounted r s = record {
    done = refl;
    reckoned = rw (committed_own r s) (committed_totals r s);
    rest = committed_rest r s;
  }

  -- A calculation that answers leaves the run calculated, with the totals of the payslips that it
  -- then has, everyone else in its scope counted as skipped; the payslips of other runs stay.
  pub calculate_totals :
      (id : ℕ) (s : PayrollStore) (run : PayrollRun)
      → (calculate is_paye_code calculator id s).0 ≡ ok run
      → IsAccounted id s (calculate is_paye_code calculator id s).1 run
  calculate_totals id s run h =
      let (r, c, o) = calculated_from id s run h in
      let at = calculate_at id s r c o in
      let e : finished r (tally r s) ≡ run =
        ok_injective (finished r (tally r s)) run (sym (ap (λ x. x.0) at) ∙ h) in
      rw at (
        subst (λ q. IsAccounted id s (commit_run is_paye_code calculator r s) q) e
          (subst
            (λ k. IsAccounted k s (commit_run is_paye_code calculator r s) (finished r (tally r s)))
            (found_id id s.runs r c) (committed-IsAccounted r s)))
