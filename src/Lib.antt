-- ===== src/Lib.antt =====
-- Verification of the HR system's core rules. The program is a server of services over database
-- tables. A service method is modelled as a function from its arguments and the tables it touches
-- to a result, a value or the HTTP error it throws, and the tables afterwards; an error keeps the
-- writes made before it, as in the source, where only the blocks inside `transaction` are atomic.
--
-- Calendar: src/common/utils/date.ts and the parts of Date that it relies on. A date
--   "YYYY-MM-DD" is the number YYYYMMDD, so that the order of numbers is the order of the
--   strings; next_day, prev_day and add_days follow the proleptic Gregorian calendar. Steps and
--   Order hold the proofs.
-- Employees: src/modules/employees/employees.service.ts. Defs has the rows and requests;
--   change_assignment is changeAssignment, change_status is changeStatus, terminate is
--   terminate, and is_in_reporting_chain is the recursive query isInReportingChain. Chain is
--   about the reporting lines, Placement, Termination and Status about the three handlers.
-- Departments: src/modules/employees/departments.service.ts. Below is the tree as a relation,
--   Query is about the recursive query isDescendant, Edges and Checks are steps towards Moves,
--   which is about create, update and remove.
-- Leave: src/modules/leave. Defs has the rows, Policy is leave-policy.service.ts, Requests and
--   Decisions are leave-requests.service.ts: submit, approve, reject, cancel,
--   sync_employee_statuses. It calls the employees component for chain queries and for the
--   status of somebody on long leave. Ledger states the balance of the books; Charging, Shift,
--   Quiet, Loading, Invariant, Submission and Balances are the steps towards Submitted, Decided
--   and Cancelled; Numbered is about request ids, Daily, Marks and Marks/Started about the daily
--   job, WorkingDays about countWorkingDays, and Holidays is nigerian-holidays.ts.
-- Tokens: src/modules/auth/token.service.ts. Rotation is about refresh tokens, OneTime about
--   invitations and password resets.
-- Auth: src/modules/users/users.service.ts and the cached context of
--   src/modules/rbac/rbac.service.ts; Mfa is src/modules/auth/mfa.service.ts and Service is
--   src/modules/auth/auth.service.ts, which calls the tokens component through on_tokens.
--   Lockout is about wrong passwords, SignOut about new ones, Suspension about setStatus and
--   refresh.
-- Attendance: src/modules/attendance/attendance.service.ts; Counting and Sessions are about the
--   open sessions.
-- Payroll: src/modules/payroll. Payroll itself has annualPaye and cumulativePaye of
--   nigeria-payroll.calculator.ts; Structures, Runs, Runs/Calculation and Runs/Approval are
--   payroll.service.ts, and a run calculates with a PayrollCalculator, the interface of
--   payroll-calculator.ts. Tax is about annualPaye, Timeline about the structures of an
--   employee, Segments about a period and the structure in force on its days, Rows about the
--   tables, Totals about calculate, and Frozen about the life of a run. It calls the employees
--   component to find whom to pay.
-- Performance: src/modules/performance. Defs has the rows; Cycles, Cycles/Phases and
--   Cycles/Scope are cycles.service.ts, Cycles/Report its report; Reviews, Reviews/Handlers,
--   Reviews/View, Reviews/Feedback and Reviews/Reminders are reviews.service.ts; Goals is
--   goals.service.ts. Cycles/Checks and Cycles/Outcomes say what the calls answer. Sound, with
--   Sound/Edits, Sound/Phases, Sound/Advance and Sound/Runs, is about statuses and ratings,
--   Launched about a cycle after its launch, Closed about a review after the close, View/Privacy
--   about what the reviewee is told, Goals/Weights and Goals/Steps about the weights,
--   Scope/Subtree about the query of departments, Report/Rows, with Report/Counts, about the
--   report, and Reminders/Sent, with Reminders/Counts, about the reminders. It calls the
--   employees component for reporting lines and managers.
-- Onboarding: src/modules/onboarding. Defs has the rows; Start, Tasks, Completion, Progress and
--   Reminders are onboarding.service.ts, with the two lookups of checklist-templates.service.ts
--   and onboarding.listener.ts in Start. A completed checklist calls change_status of the
--   employees component. Invariant states when the checklists are in order; Steps, Handlers and
--   Starts are the steps towards Runs, any sequence of calls. Reminders/Once is about a second
--   run on a day, Progress and Progress/Completes about when a checklist is completed. Templates
--   is the rest of checklist-templates.service.ts, on a store of its own, and
--   Templates/Assignees is about whom the items go to.
-- Base: tests, lists, grouping, rows by their key, integers and the calls that throw. Tests:
--   runs on small data.
--
-- Conventions. Ids are numbers, since the source only compares them; a row has the columns that
-- the modelled operations read or write. Days of leave are counted in half days, to which the
-- source rounds, and money in kobo with exact decimals in place of floating point; exchange
-- rates are millionths, and instants milliseconds. Currencies, codes of pay lines, addresses,
-- passwords and secrets are numbers, since the source only compares them or hands them on. An
-- answer that is only the row that was just written is left out in places. Error texts, log
-- notes and notices leave out the data that the source prints into them. The clock, the random
-- values, the hashes, the rounding of averages and percentages and the start of a day are
-- parameters, and so are the codes of an authenticator, the payroll calculator that is
-- configured and the documents that payslips are rendered into. Rows that a query sorts by name
-- come in the order of the table, and the items of a template in the order of its list. A
-- soft-deleted row is found by the raw query on managers only.
--
-- Bounds and fuel. in_chain climbs as many levels as the query, at most fifty. count_loop runs
-- on fuel for one round more than the span has days, and visits one day in each. search_below
-- runs on fuel for one level more than there are departments, and no path of a tree visits one
-- twice; department_subtree has two levels more than there are departments, which such a tree
-- never uses up.
--
-- Not modelled: the creation and the profile of an employee, positions, the administration of
-- leave types and holidays and of roles, the names of users, the two payroll calculators but for
-- the income tax, recruiting, documents, notifications and their queues (the modelled services
-- record what they send), the audit log but for the entries of signing in, the calls of a
-- language model, exports of personal data, the paged lists, and all of HTTP and the database,
-- which only carry data to and from the services. An unexpected repeat of a notice is dropped by
-- its key in the notification service, which is not modelled, so the model records each call. A
-- foreign key that is set to null or whose rows go with the row it names has no effect in the
-- model beyond the store of the call, so the removal of a department leaves the cycles as they
-- are; nothing in the source deletes a user or an employee softly, so the login of a token is
-- there. Races between requests are not modelled either: an operation runs alone.
pub mod Base
pub mod Calendar
pub mod Employees
pub mod Leave
pub mod Attendance
pub mod Auth
pub mod Departments
pub mod Tokens
pub mod Payroll
pub mod Performance
pub mod Onboarding
pub mod Tests
