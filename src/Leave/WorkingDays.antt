-- ===== src/Leave/WorkingDays.antt =====
-- `countWorkingDays` against the set of days that it is meant to count.
use ai_hr_sytem.Base.{
  err, bad_request, sym, refl, Bool-cases, ==→eq, false, ◌&&◌, leb, ℕ, zero, suc, ◌+◌, ◌-◌, ◌*◌,
  ◌≤◌, ◌<◌, ◌≡◌, subst, inl, inr, arith, true, List, [], ◌∷◌, length, select, any, All, ◌==◌,
  if◌then◌else◌, lt_or_le, ok,
}
use ai_hr_sytem.Calendar.{IsoDate, IsValid, next_day, day_number}
use ai_hr_sytem.Calendar.Steps.{next_day_lem}
use ai_hr_sytem.Calendar.Order.{day_number_le, le_day_number, day_number_inj}
use ai_hr_sytem.Leave.Defs.{HalfDay, LeaveStore}
use ai_hr_sytem.Leave.Policy.{is_half, is_working, count_loop, rounds, count_working_days}

-- The `n` days from `d` on.
abbrev pub days_from : IsoDate → ℕ → List IsoDate
days_from d zero = []
days_from d (suc n) = d ∷ days_from (next_day d) n

-- How many days there are from `a` to `b`, both included.
abbrev pub span : IsoDate → IsoDate → ℕ
span a b = day_number b + 1 - day_number a

-- With fuel for one round more than there are days, the loop counts the working days of the span.
count_loop_lem :
    (fuel n : ℕ) (holidays : List IsoDate) (d b : IsoDate) (acc : ℕ)
    → IsValid d
    → IsValid b
    → day_number b + 1 ≡ day_number d + n
    → n < fuel
    → count_loop fuel holidays d b acc ≡ acc + length (select (is_working holidays) (days_from d n))
unfolding count_loop
count_loop_lem zero n holidays d b acc v w e h = absurd (omega arith)
count_loop_lem (suc fuel) zero holidays d b acc v w e h = elim (lt_or_le b d) [
  | inl k ↦ ground arith
  | inr k ↦ absurd (omega (arith, le_day_number d b v w k))
]
count_loop_lem (suc fuel) (suc n) holidays d b acc v w e h =
    let step = next_day_lem d v in
    let le = day_number_le d b v w (omega arith) in
    ground (
      arith,
      count_loop_lem fuel n holidays (next_day d) b (if is_working holidays d then acc + 1 else acc)
          step.0 w (omega arith) (omega arith),
    )

days_from_sound :
    (n : ℕ) (a b : IsoDate)
    → IsValid a
    → IsValid b
    → day_number a + n ≤ day_number b + 1
    → All (λ d. IsValid d × (a ≤ d) × (d ≤ b)) (days_from a n)
days_from_sound n a b v w h = later n a a b v v w (omega arith) h
  where
    later :
        (n : ℕ) (lo a b : IsoDate)
        → IsValid lo
        → IsValid a
        → IsValid b
        → day_number lo ≤ day_number a
        → day_number a + n ≤ day_number b + 1
        → All (λ d. IsValid d × (lo ≤ d) × (d ≤ b)) (days_from a n)
    later zero lo a b u v w k h = tt
    later (suc n) lo a b u v w k h =
        let step = next_day_lem a v in
        (
          (v, day_number_le lo a u v k, day_number_le a b v w (omega arith)),
          later n lo (next_day a) b u step.0 w (omega arith) (omega arith),
        )

days_from_complete :
    (n : ℕ) (a d : IsoDate)
    → IsValid a
    → IsValid d
    → day_number a ≤ day_number d
    → day_number d < day_number a + n
    → any (λ x. x == d) (days_from a n) ≡ true
days_from_complete zero a d v u p q = absurd (omega arith)
days_from_complete (suc n) a d v u p q = elim (lt_or_le (day_number a) (day_number d)) [
  | inl k ↦
      let step = next_day_lem a v in
      ground (arith, days_from_complete n (next_day a) d step.0 u (omega arith) (omega arith))
  | inr k ↦ ground (arith, day_number_inj a d v u (omega arith))
]

any-All :
    (P : IsoDate → Type 0) (d : IsoDate) (xs : List IsoDate)
    → any (λ x. x == d) xs ≡ true
    → All P xs
    → P d
any-All P d [] h all = absurd (ground arith)
any-All P d (x ∷ xs) h all = elim (Bool-cases (x == d)) [
  | inl e ↦ subst P (==→eq x d e) all.0
  | inr e ↦ any-All P d xs (ground arith) all.1
]

-- A date of the calendar is among the days of a span exactly when it lies between the first and
-- the last of them.
pub days_from_exact :
    (a b d : IsoDate)
    → IsValid a
    → IsValid b
    → IsValid d
    → a ≤ b
    → any (λ x. x == d) (days_from a (span a b)) ≡ (leb a d && leb d b)
days_from_exact a b d v w u h =
    let ab = le_day_number a b v w h in
    let sound = days_from_sound (span a b) a b v w (omega arith) in
    elim (Bool-cases (any (λ x. x == d) (days_from a (span a b)))) [
      | inl e ↦
          let within = any-All (λ d. IsValid d × (a ≤ d) × (d ≤ b)) d _ e sound in
          rw e (sym (within_leb within.1 within.2))
      | inr e ↦ elim (Bool-cases (leb a d && leb d b)) [
        | inr k ↦ rw (e, k) refl
        | inl k ↦
            let p : a ≤ d = ground arith in
            let q : d ≤ b = ground arith in
            let ad = le_day_number a d v u p in
            let db = le_day_number d b u w q in
            let found = days_from_complete (span a b) a d v u ad (omega arith) in
            absurd (ground arith)
      ]
    ]
  where
    within_leb : a ≤ d → d ≤ b → (leb a d && leb d b) ≡ true
    within_leb p q = ground arith

-- For a full-day request over dates of the calendar the loop ends, and the result is two half
-- days for each date of the span that is neither a weekend nor a public holiday; the store is
-- left alone.
pub count_working_days_full :
    (a b : IsoDate) (s : LeaveStore)
    → IsValid a
    → IsValid b
    → a ≤ b
    → count_working_days a b HalfDay.none_half s
      ≡ (ok (2 * length (select (is_working s.holidays) (days_from a (span a b)))), s)
unfolding count_working_days
count_working_days_full a b s v w h =
    let ab = le_day_number a b v w h in
    ground (
      arith,
      count_loop_lem (rounds a b) (span a b) s.holidays a b 0 v w (omega arith) (omega arith),
    )

one_day :
    (a : IsoDate) (half : HalfDay) (s : LeaveStore)
    → IsValid a
    → is_half half ≡ true
    → count_working_days a a half s ≡ (ok (if is_working s.holidays a then 1 else 0), s)
unfolding count_working_days
one_day a half s v h =
    ground (arith, count_loop_lem (rounds a a) 1 s.holidays a a 0 v v (omega arith) (omega arith))

longer_half :
    (a b : IsoDate) (half : HalfDay) (s : LeaveStore)
    → is_half half ≡ true
    → a ≤ b
    → (a == b) ≡ false
    → count_working_days a b half s
      ≡ (err (bad_request "Half days are only allowed on single-day requests"), s)
unfolding count_working_days
longer_half a b half s h le e = ground arith

-- A half-day request on one day charges one half day on a working day and nothing on another; on
-- any longer span it is refused. The store is left alone.
pub count_working_days_half :
    (a b : IsoDate) (half : HalfDay) (s : LeaveStore)
    → IsValid a
    → is_half half ≡ true
    → a ≤ b
    → count_working_days a b half s ≡ (
        if a == b
        then (ok (if is_working s.holidays a then 1 else 0), s)
        else (err (bad_request "Half days are only allowed on single-day requests"), s))
count_working_days_half a b half s v h le = elim (Bool-cases (a == b)) [
  | inl e ↦ rw e (
      subst
        (λ x. count_working_days a x half s ≡ (ok (if is_working s.holidays a then 1 else 0), s))
        (==→eq a b e) (one_day a half s v h))
  | inr e ↦ rw e (longer_half a b half s h le e)
]
