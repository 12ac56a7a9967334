-- ===== src/Payroll/Frozen.antt =====
-- The life of a run through any sequence of the service's operations: what is approved is final.
use ai_hr_sytem.Base.{
  ℕ, ◌+◌, ◌≡◌, refl, sym, subst, ◌∙◌, inl, inr, arith, Bool, true, false, not, ltb, is_some, some,
  List, [], ◌∷◌, ◌++◌, ◌==◌, ==→eq, find, select, update_where, Bool-cases, bad_request, modify,
  ◌>>◌, length,
}
use ai_hr_sytem.Payroll.Rows.{
  append-nil, guarded, find_run_store, run_at_more, run_at_dropped, slips_dropped, slips_of_other,
  slips_rendered, run_at, found_id, run_at_saved, run_at_other, select-append,
}
use ai_hr_sytem.Payroll.Runs.{
  PayrollRunStatus, PayrollRun, Payslip, PayrollCalculator, PayrollStore, CreateRun, is_open_run,
  is_calculated, is_approved_run, of_run, find_run, save_run, set_fx_rates, create_run, new_run,
  overlapping_run,
}
use ai_hr_sytem.Payroll.Runs.Calculation.{commit_run, calculate, finished, without_slips}
use ai_hr_sytem.Payroll.Runs.Approval.{approve, mark_paid, delete_run, approved_rest, slip_notices}
use ai_hr_sytem.Payroll.Totals.{tally-IsReckoned, tally}

-- The operations of the service on runs.
pub data Op : Type 0 where
  create_op : ℕ → CreateRun → ℕ → Op
  rates_op : ℕ → List (ℕ × ℕ) → Op
  calculate_op : ℕ → Op
  approve_op : (Payslip → ℕ) → ℕ → ℕ → ℕ → Op
  paid_op : ℕ → ℕ → Op
  delete_op : ℕ → Op

-- The run `id` is as it was when it was `r` with the payslips `slips`, at most marked as paid since.
pub record IsFrozen (id : ℕ) (r : PayrollRun) (slips : List Payslip) (s : PayrollStore)
    : Type 0 where
  pub row : PayrollRun
  pub found : run_at id s.runs ≡ some row
  pub closed : is_open_run row.status ≡ false
  pub same : record row { status = r.status; paid_at = r.paid_at } ≡ r
  pub forward : is_approved_run row.status ≡ true → is_approved_run r.status ≡ true
  pub kept : select (of_run id) s.payslips ≡ slips

some_injective : {A : Type 0} (a b : A) → some a ≡ some b → a ≡ b
some_injective a b h = ground arith

open_of_calculated : (x : PayrollRunStatus) → is_calculated x ≡ true → is_open_run x ≡ true
open_of_calculated x h = ground arith

module _ (document : Payslip → ℕ) (now j actor : ℕ) (q : PayrollRun) where
  -- What `approve` makes of the store.
  abbrev approved_store : PayrollStore → PayrollStore
  approved_store s =
      let rendered =
        update_where (of_run j) (λ (p : Payslip). record p { document_id = some (document p) })
          s.payslips in
      let row = record q {
        status = PayrollRunStatus.approved;
        approved_by_user_id = some actor;
        approved_at = some now;
      } in
      record (save_run row (record s { payslips = rendered })) {
        notices = s.notices ++ slip_notices s.company.employees (select (of_run j) s.payslips);
      }

module _ (id : ℕ) (r : PayrollRun) (slips : List Payslip) where
  module _ (s : PayrollStore) (h : IsFrozen id r slips s) where
    -- An open run is another one.
    open_is_other :
        (j : ℕ) (q : PayrollRun)
        → run_at j s.runs ≡ some q
        → is_open_run q.status ≡ true
        → (j == id) ≡ false
    open_is_other j q c o = elim (Bool-cases (j == id)) [
      | inr n ↦ n
      | inl y ↦
          let e : run_at id s.runs ≡ some q =
            subst (λ x. run_at x s.runs ≡ some q) (==→eq j id y) c in
          ground (arith, sym h.found ∙ e, h.closed, o)
    ]

    -- A change of other rows.
    elsewhere :
        (t : PayrollStore)
        → run_at id t.runs ≡ run_at id s.runs
        → select (of_run id) t.payslips ≡ select (of_run id) s.payslips
        → IsFrozen id r slips t
    elsewhere t a b = record {
      row = h.row;
      found = a ∙ h.found;
      closed = h.closed;
      same = h.same;
      forward = h.forward;
      kept = b ∙ h.kept;
    }

    create_step :
        (c : ℕ) (dto : CreateRun) (actor : ℕ) → IsFrozen id r slips (create_run c dto actor s).1
    unfolding create_run
    create_step c dto actor = elim (Bool-cases (ltb dto.period_end dto.period_start)) [
      | inl a ↦ subst (IsFrozen id r slips) (ground (arith, a)) h
      | inr a ↦ elim (Bool-cases (is_some (overlapping_run dto s.runs))) [
        | inl b ↦ subst (IsFrozen id r slips) (ground (arith, a, b)) h
        | inr b ↦
            let new = new_run s.next_run_id c dto actor in
            let t = record s { runs = s.runs ++ new ∷ []; next_run_id = s.next_run_id + 1 } in
            let more = run_at_more id s.runs (new ∷ []) h.row h.found in
            subst (IsFrozen id r slips) (ground (arith, a, b))
              (elsewhere t (more ∙ sym h.found) refl)
      ]
    ]

    -- A change of an open run is elsewhere.
    open_step :
        (j : ℕ) (q : PayrollRun) (t : PayrollStore)
        → run_at j s.runs ≡ some q
        → is_open_run q.status ≡ true
        → ((q.id == id) ≡ false → (j == id) ≡ false → run_at id t.runs ≡ run_at id s.runs)
        → ((q.id == id) ≡ false
            → (j == id) ≡ false
            → select (of_run id) t.payslips ≡ select (of_run id) s.payslips)
        → IsFrozen id r slips t
    open_step j q t c o a b =
        let n = open_is_other j q c o in
        let m : (q.id == id) ≡ false = rw (found_id j s.runs q c) n in elsewhere t (a m n) (b m n)

    rates_step : (j : ℕ) (rates : List (ℕ × ℕ)) → IsFrozen id r slips (set_fx_rates j rates s).1
    unfolding set_fx_rates
    rates_step j rates =
        let saved : PayrollRun → PayrollStore → PayrollStore =
          λ run. save_run (record run { fx_rates = rates }) in
        guarded j (λ run. not (is_open_run run.status))
          (bad_request "Cannot change rates on this run") (λ run. modify (saved run) >> find_run j)
          s (IsFrozen id r slips) h
          λ q c o. subst (IsFrozen id r slips) (sym (find_run_store j (saved q s))) (
            open_step j q (saved q s) c (ground (arith, o))
              (λ m n. run_at_other id s.runs (record q { fx_rates = rates }) m) (λ m n. refl))

    mark_paid_step : (now j : ℕ) → IsFrozen id r slips (mark_paid now j s).1
    unfolding mark_paid
    mark_paid_step now j =
        let saved : PayrollRun → PayrollRun =
          λ run. record run { status = PayrollRunStatus.paid; paid_at = some now } in
        guarded j (λ run. not (is_approved_run run.status))
          (bad_request "Only approved runs can be marked paid")
          (λ run. modify (save_run (saved run))) s (IsFrozen id r slips) h
          λ q c o. elim (Bool-cases (j == id)) [
            | inr n ↦
                elsewhere (save_run (saved q) s)
                  (run_at_other id s.runs (saved q) (rw (found_id j s.runs q c) n)) refl
            | inl y ↦
                let e : run_at id s.runs ≡ some q =
                  subst (λ x. run_at x s.runs ≡ some q) (==→eq j id y) c in
                let same_row : h.row ≡ q = some_injective h.row q (sym h.found ∙ e) in
                record {
                  row = saved q;
                  found = run_at_saved id s.runs q (saved q) e (found_id id s.runs q e);
                  closed = refl;
                  same =
                      subst
                        (λ (x : PayrollRun).
                          record x { status = r.status; paid_at = r.paid_at } ≡ r)
                        same_row h.same;
                  forward = λ z. ground (arith, z);
                  kept = h.kept;
                }
          ]

    delete_step : (j : ℕ) → IsFrozen id r slips (delete_run j s).1
    unfolding delete_run
    delete_step j =
        let cut : PayrollRun → PayrollStore → PayrollStore = λ run t. record t {
          runs = select (λ (x : PayrollRun). not (x.id == run.id)) t.runs;
          payslips = select (λ (p : Payslip). not (of_run run.id p)) t.payslips;
        } in
        guarded j (λ run. not (is_open_run run.status))
          (bad_request "Approved or paid runs cannot be deleted") (λ run. modify (cut run)) s
          (IsFrozen id r slips) h
          λ q c o.
            open_step j q (cut q s) c (ground (arith, o))
              (λ m n. run_at_dropped id q.id s.runs h.row m h.found ∙ sym h.found)
              (λ m n. slips_dropped id q.id m s.payslips)

    approve_step :
        (document : Payslip → ℕ) (now j actor : ℕ)
        → IsFrozen id r slips (approve document now j actor s).1
    unfolding approve
    approve_step document now j actor =
        guarded j (λ run. not (is_calculated run.status))
          (bad_request "Calculate the run before approving")
          (λ run. approved_rest document now j actor run) s (IsFrozen id r slips) h
          λ q c o. elim (Bool-cases (length (select (of_run j) s.payslips) == 0)) [
            | inl z ↦ subst (IsFrozen id r slips) (ground (arith, z)) h
            | inr z ↦
                let t = approved_store document now j actor q s in
                subst (IsFrozen id r slips) (sym (find_run_store j t) ∙ ground (arith, z)) (
                  open_step j q t c (open_of_calculated q.status (ground (arith, o)))
                    (λ m n.
                      run_at_other id s.runs
                        (record q {
                          status = PayrollRunStatus.approved;
                          approved_by_user_id = some actor;
                          approved_at = some now;
                        })
                        m)
                    (λ m n. slips_rendered id j n document s.payslips))
          ]

    module _ (is_paye_code : ℕ → Bool) (calculator : PayrollCalculator) where
      rest_kept :
          (q : PayrollRun)
          → (q.id == id) ≡ false
          → select (of_run id) (commit_run is_paye_code calculator q s).payslips
            ≡ select (of_run id) s.payslips
      unfolding commit_run
      rest_kept q m =
          rw
            (
              select-append (of_run id) (without_slips q.id s).payslips
                  (tally is_paye_code calculator q s).slips,
              slips_dropped id q.id m s.payslips,
              slips_of_other id q.id m (tally is_paye_code calculator q s).slips
                  (tally-IsReckoned is_paye_code calculator q s).owned,
            )
            (append-nil (select (of_run id) s.payslips))

      calculate_step : (j : ℕ) → IsFrozen id r slips (calculate is_paye_code calculator j s).1
      unfolding calculate commit_run
      calculate_step j =
          let saved = λ (run : PayrollRun). commit_run is_paye_code calculator run in
          guarded j (λ run. not (is_open_run run.status))
            (bad_request "Cannot recalculate this run") (λ run. modify (saved run) >> find_run j) s
            (IsFrozen id r slips) h
            λ q c o. subst (IsFrozen id r slips) (sym (find_run_store j (saved q s))) (
              open_step j q (saved q s) c (ground (arith, o))
                (λ m n. run_at_other id s.runs (finished q (tally is_paye_code calculator q s)) m)
                (λ m n. rest_kept q m))

module _ (is_paye_code : ℕ → Bool) (calculator : PayrollCalculator) where
  -- The store after one call, whether it throws or not.
  abbrev pub apply_op : Op → PayrollStore → PayrollStore
  apply_op (create_op c dto actor) s = (create_run c dto actor s).1
  apply_op (rates_op j rates) s = (set_fx_rates j rates s).1
  apply_op (calculate_op j) s = (calculate is_paye_code calculator j s).1
  apply_op (approve_op document now j actor) s = (approve document now j actor s).1
  apply_op (paid_op now j) s = (mark_paid now j s).1
  apply_op (delete_op j) s = (delete_run j s).1

  abbrev pub apply_ops : List Op → PayrollStore → PayrollStore
  apply_ops [] s = s
  apply_ops (op ∷ ops) s = apply_ops ops (apply_op op s)

  module _ (id : ℕ) (r : PayrollRun) (slips : List Payslip) where
    op_step :
        (op : Op) (s : PayrollStore) → IsFrozen id r slips s → IsFrozen id r slips (apply_op op s)
    op_step (create_op c dto actor) s h = create_step id r slips s h c dto actor
    op_step (rates_op j rates) s h = rates_step id r slips s h j rates
    op_step (calculate_op j) s h = calculate_step id r slips s h is_paye_code calculator j
    op_step (approve_op document now j actor) s h = approve_step id r slips s h document now j actor
    op_step (paid_op now j) s h = mark_paid_step id r slips s h now j
    op_step (delete_op j) s h = delete_step id r slips s h j

    ops_step :
        (ops : List Op) (s : PayrollStore)
        → IsFrozen id r slips s
        → IsFrozen id r slips (apply_ops ops s)
    ops_step [] s h = h
    ops_step (op ∷ ops) s h = ops_step ops (apply_op op s) (op_step op s h)

  -- A run that is on file and no longer open, so approved or paid, survives every sequence of
  -- calls that create, rate, calculate, approve, pay or delete runs: its row is as it was except
  -- that it may have been marked as paid, and its payslips are the same.
  pub closed_run-IsFrozen :
      (ops : List Op) (id : ℕ) (s : PayrollStore) (r : PayrollRun)
      → find (λ (x : PayrollRun). x.id == id) s.runs ≡ some r
      → is_open_run r.status ≡ false
      → IsFrozen id r (select (of_run id) s.payslips) (apply_ops ops s)
  closed_run-IsFrozen ops id s r found closed =
      ops_step id r (select (of_run id) s.payslips) ops s (record {
        row = r;
        found = found;
        closed = closed;
        same = refl;
        forward = λ x. x;
        kept = refl;
      })
