-- ===== src/Payroll/Structures.antt =====
-- src/modules/payroll/payroll.service.ts and its entities: salary structures, and the part of a
-- period that each of them pays. Amounts are kobo, percentages hundredths of a per cent, exchange
-- rates millionths, and codes and currencies numbers.
use ai_hr_sytem.Base.{
  ℕ, ◌+◌, ◌*◌, ◌/◌, Bool, true, false, not, ◌&&◌, Option, none, some, List, [], ◌∷◌, ◌++◌, map,
  String, ltb, leb, ◌==◌, if◌then◌else◌, is_some, or_else, find, select, any, includes,
  update_where, Action, bad_request, pure, gets, ◌>>=◌, ◌>>◌, throw_if, modify,
}
use ai_hr_sytem.Calendar.{IsoDate, prev_day}
use ai_hr_sytem.Employees.{Company, find_by_id}

pub data PayFrequency : Type 0 where
  monthly biweekly weekly : PayFrequency

pub data LineType : Type 0 where
  earning deduction : LineType

pub data LineMethod : Type 0 where
  fixed percent_of_base percent_of_gross : LineMethod

abbrev pub is_earning : LineType → Bool
is_earning LineType.earning = true
is_earning LineType.deduction = false

abbrev pub is_of_gross : LineMethod → Bool
is_of_gross LineMethod.percent_of_gross = true
is_of_gross _ = false

abbrev pub is_fixed : LineMethod → Bool
is_fixed LineMethod.fixed = true
is_fixed _ = false

pub record StructureLine : Type 0 where
  pub code : ℕ
  pub label : String
  pub type : LineType
  pub method : LineMethod
  pub value : ℕ

pub record SalaryStructure : Type 0 where
  pub id : ℕ
  pub employee_id : ℕ
  pub effective_from : IsoDate
  pub effective_to : Option IsoDate
  pub currency : ℕ
  pub pay_frequency : PayFrequency
  pub base_amount : ℕ
  pub lines : List StructureLine
  pub annual_rent : Option ℕ
  pub notes : Option String
  pub created_by_user_id : Option ℕ

pub record CreateStructure : Type 0 where
  pub employee_id : ℕ
  pub effective_from : IsoDate
  pub currency : Option ℕ
  pub pay_frequency : PayFrequency
  pub base_amount : ℕ
  pub annual_rent : Option ℕ
  pub lines : Option (List StructureLine)
  pub notes : Option String

-- The tables that the operations on structures touch.
pub record StructureStore : Type 0 where
  pub company : Company
  pub structures : List SalaryStructure
  pub next_id : ℕ

abbrev pub all_different : List ℕ → Bool
all_different [] = true
all_different (x ∷ xs) = not (includes xs x) && all_different xs

abbrev pub is_of : ℕ → SalaryStructure → Bool
is_of employee s = s.employee_id == employee

-- `effectiveTo: IsNull()`
abbrev pub is_current : SalaryStructure → Bool
is_current s = not (is_some s.effective_to)

-- A call of the employees service on its tables.
abbrev pub on_employees : {A : Type 0} → Action Company A → Action StructureStore A
on_employees m s = let (r, c) = m s.company in (r, record s { company = c })

abbrev pub closed_before : IsoDate → SalaryStructure → SalaryStructure
closed_before from s = record s { effective_to = some (prev_day from) }

-- The checks of `createStructure` on the lines.
unfoldable pub check_lines : List StructureLine → Action StructureStore (Unit {0})
check_lines lines = do
  throw_if (not (all_different (map StructureLine.code lines)))
      (bad_request "Line codes must be unique")
  throw_if (any (λ (l : StructureLine). is_earning l.type && is_of_gross l.method) lines)
      (bad_request "PERCENT_OF_GROSS is only valid for deductions")

-- The structure that a new one follows is closed on the day before; it is the current one of the
-- employee.
unfoldable pub close_current : ℕ → IsoDate → Action StructureStore (Unit {0})
close_current employee from = do
  current ← gets λ (s : StructureStore).
      find (λ (x : SalaryStructure). is_of employee x && is_current x) s.structures
  elim current [
    | none ↦ pure tt
    | some c ↦
        throw_if (leb from c.effective_from)
          (bad_request "New structure must start after the current one")
        >> modify (λ (s : StructureStore). record s {
          structures =
              update_where (λ (x : SalaryStructure). is_of employee x && is_current x)
                (closed_before from) s.structures;
        })
  ]

abbrev pub new_structure : ℕ → ℕ → CreateStructure → ℕ → SalaryStructure
new_structure id default_currency dto actor = record {
  id = id;
  employee_id = dto.employee_id;
  effective_from = dto.effective_from;
  effective_to = none;
  currency = or_else dto.currency default_currency;
  pay_frequency = dto.pay_frequency;
  base_amount = dto.base_amount;
  lines = or_else dto.lines [];
  annual_rent = dto.annual_rent;
  notes = dto.notes;
  created_by_user_id = some actor;
}

-- `createStructure`
unfoldable pub create_structure : ℕ → CreateStructure → ℕ → Action StructureStore (Unit {0})
create_structure default_currency dto actor = do
  emp ← on_employees (find_by_id dto.employee_id)
  check_lines (or_else dto.lines [])
  close_current dto.employee_id dto.effective_from
  modify (λ (s : StructureStore). record s {
    structures = s.structures ++ new_structure s.next_id default_currency dto actor ∷ [];
    next_id = s.next_id + 1;
  })

pub record Period : Type 0 where
  pub start : IsoDate
  pub end : IsoDate

pub record PaySegment : Type 0 where
  pub structure : SalaryStructure
  pub start : IsoDate
  pub end : IsoDate

-- `effectiveTo IS NULL OR effectiveTo >= :date`
abbrev pub lasts_to : IsoDate → SalaryStructure → Bool
lasts_to date s = elim s.effective_to [ none ↦ true | some last ↦ leb date last ]

abbrev pub starts_by : IsoDate → SalaryStructure → Bool
starts_by date s = leb s.effective_from date

-- `orderBy('s.effectiveFrom', 'ASC')`
unfoldable pub insert_structure : SalaryStructure → List SalaryStructure → List SalaryStructure
insert_structure s [] = s ∷ []
insert_structure s (x ∷ xs) =
    let rest = insert_structure s xs in
    if leb s.effective_from x.effective_from then s ∷ x ∷ xs else x ∷ rest

unfoldable pub sort_structures : List SalaryStructure → List SalaryStructure
sort_structures [] = []
sort_structures (x ∷ xs) = insert_structure x (sort_structures xs)

-- The part of a period that a structure covers.
abbrev pub clipped : Period → SalaryStructure → PaySegment
clipped period s = record {
  structure = s;
  start = if ltb period.start s.effective_from then s.effective_from else period.start;
  end = elim s.effective_to [
    | none ↦ period.end
    | some last ↦ if ltb last period.end then last else period.end
  ];
}

-- `segmentsFor`
unfoldable pub segments_for : ℕ → Period → List SalaryStructure → List PaySegment
unfolding sort_structures
segments_for employee period structures = map (clipped period) (
    sort_structures (
      select (λ s. is_of employee s && starts_by period.end s && lasts_to period.start s)
        structures))

-- `orderBy('s.effectiveFrom', 'DESC')` and the first row.
unfoldable pub latest_structure : List SalaryStructure → Option SalaryStructure
latest_structure [] = none
latest_structure (x ∷ xs) = elim (latest_structure xs) [
  | none ↦ some x
  | some y ↦ some (if ltb x.effective_from y.effective_from then y else x)
]

-- `structureOn`
unfoldable pub structure_on : ℕ → IsoDate → List SalaryStructure → Option SalaryStructure
unfolding latest_structure
structure_on employee date structures =
    latest_structure
      (select (λ s. is_of employee s && starts_by date s && lasts_to date s) structures)

-- `toCurrency`: base, fixed lines and rent are converted, with `round2`.
abbrev pub converted : ℕ → ℕ → ℕ
converted rate amount = (amount * rate + 500000) / 1000000

unfoldable pub to_currency : ℕ → ℕ → SalaryStructure → SalaryStructure
to_currency currency rate s = if s.currency == currency then s else record s {
  currency = currency;
  base_amount = converted rate s.base_amount;
  annual_rent = elim s.annual_rent [ none ↦ none | some r ↦ some (converted rate r) ];
  lines =
      map
        (λ (l : StructureLine).
          if is_fixed l.method then record l { value = converted rate l.value } else l)
        s.lines;
}
