-- ===== src/Leave/Charging.antt =====
-- `chargeBalances`: the change of the reserved and used half days of every key.
use ai_hr_sytem.Base.{
  ℕ, ◌≡◌, refl, sym, ap, ◌∙◌, inl, inr, arith, false, ◌&&◌, some, List, [], ◌∷◌, ◌==◌,
  if◌then◌else◌, ok, err, HttpError, Result-cases,
}
use ai_hr_sytem.Base.Int.{ℤ, pos, ◌+ℤ◌, int_laws}
use ai_hr_sytem.Leave.Defs.{LeaveBalance, LeaveStore, Allocation}
use ai_hr_sytem.Leave.Policy.{find_balance, ensure_balance, apply_to_balance}
use ai_hr_sytem.Leave.Requests.{charge_balances}
use ai_hr_sytem.Leave.Balances.{
  find_balance-save, find_balance-key, pending_at, used_at, SameDays, SameTables,
  ensure_balance_lem,
}

-- The sum of a change over the allocations of one year.
abbrev pub charge_sum : (ℕ → ℤ) → ℕ → List Allocation → ℤ
charge_sum f y [] = pos 0
charge_sum f y (a ∷ rest) = (if a.year == y then f a.days else pos 0) +ℤ charge_sum f y rest

-- The keys of one employee and leave type gain `gain` of their year, and no other key changes.
pub record Charged (e t : ℕ) (d_pending d_used : ℕ → ℤ) (s u : LeaveStore) : Type 0 where
  pub own_pending : (y : ℕ) → pending_at e t y u ≡ pending_at e t y s +ℤ d_pending y
  pub own_used : (y : ℕ) → used_at e t y u ≡ used_at e t y s +ℤ d_used y
  pub other_pending :
      (i j y : ℕ) → ((i == e) && (j == t)) ≡ false → pending_at i j y u ≡ pending_at i j y s
  pub other_used : (i j y : ℕ) → ((i == e) && (j == t)) ≡ false → used_at i j y u ≡ used_at i j y s
  pub tables : SameTables s u

abbrev in_year : ℕ → ℤ → ℕ → ℤ
in_year year d y = if year == y then d else pos 0

apply-Charged :
    (e t y : ℕ) (b : LeaveBalance) (dp du : ℤ) (s : LeaveStore)
    → find_balance e t y s.balances ≡ some b
    → Charged e t (in_year y dp) (in_year y du) s (apply_to_balance b dp du s).1
unfolding apply_to_balance
apply-Charged e t y b dp du s h =
    let key = find_balance-key e t y s.balances b h in
    let row = record b { pending = b.pending +ℤ dp; used = b.used +ℤ du } in
    record {
      own_pending = λ k. grind (int_laws, key, h, find_balance-save row e t k s.balances);
      own_used = λ k. grind (int_laws, key, h, find_balance-save row e t k s.balances);
      other_pending = λ i j k o. ground (arith, key, find_balance-save row i j k s.balances);
      other_used = λ i j k o. ground (arith, key, find_balance-save row i j k s.balances);
      tables = record {
        same_company = refl;
        same_types = refl;
        same_requests = refl;
        same_next = refl;
      };
    }

Charged-step :
    (e t : ℕ) (f g f' g' : ℕ → ℤ) (s m u : LeaveStore)
    → SameDays s m
    → SameTables s m
    → Charged e t f g m u
    → (v : LeaveStore) → Charged e t f' g' u v
    → Charged e t (λ y. f y +ℤ f' y) (λ y. g y +ℤ g' y) s v
Charged-step e t f g f' g' s m u same tables one v rest = record {
  own_pending =
      λ y. rw (rest.own_pending y, one.own_pending y, same.same_pending e t y) (omega int_laws);
  own_used = λ y. rw (rest.own_used y, one.own_used y, same.same_used e t y) (omega int_laws);
  other_pending =
      λ i j y o. rest.other_pending i j y o ∙ one.other_pending i j y o ∙ same.same_pending i j y;
  other_used = λ i j y o. rest.other_used i j y o ∙ one.other_used i j y o ∙ same.same_used i j y;
  tables = record {
    same_company = rest.tables.same_company ∙ one.tables.same_company ∙ tables.same_company;
    same_types = rest.tables.same_types ∙ one.tables.same_types ∙ tables.same_types;
    same_requests = rest.tables.same_requests ∙ one.tables.same_requests ∙ tables.same_requests;
    same_next = rest.tables.same_next ∙ one.tables.same_next ∙ tables.same_next;
  };
}

module _ (e t : ℕ) (dp du : ℕ → ℤ) where
  -- The state after the head of the allocations, and the rest of the loop from there.
  charge_head :
      (a : Allocation) (rest : List Allocation) (s : LeaveStore) {b : LeaveBalance}
      → (ensure_balance e t a.year s).0 ≡ ok b
      → charge_balances e t dp du (a ∷ rest) s
        ≡ charge_balances e t dp du rest
            (apply_to_balance b (dp a.days) (du a.days) (ensure_balance e t a.year s).1).1
  unfolding charge_balances apply_to_balance
  charge_head a rest s h = ground arith

  charge_fails :
      (a : Allocation) (rest : List Allocation) (s : LeaveStore) {x : HttpError}
      → (ensure_balance e t a.year s).0 ≡ err x
      → (charge_balances e t dp du (a ∷ rest) s).0 ≡ err x
  unfolding charge_balances
  charge_fails a rest s h = ground arith

  -- A charge that goes through changes every year of its own employee and leave type by the sum
  -- over that year's allocations, and nothing else.
  pub charge_balances-Charged :
      (allocations : List Allocation) (s : LeaveStore)
      → (charge_balances e t dp du allocations s).0 ≡ ok tt
      → Charged e t
          (λ y. charge_sum dp y allocations)
          (λ y. charge_sum du y allocations)
          s
          (charge_balances e t dp du allocations s).1
  charge_balances-Charged [] s h =
      unfold charge_balances in
      record {
        own_pending = λ y. omega int_laws;
        own_used = λ y. omega int_laws;
        other_pending = λ i j y o. refl;
        other_used = λ i j y o. refl;
        tables = record {
          same_company = refl;
          same_types = refl;
          same_requests = refl;
          same_next = refl;
        };
      }
  charge_balances-Charged (a ∷ rest) s h = elim (Result-cases (ensure_balance e t a.year s).0) [
    | inl (b, q) ↦
        let made = ensure_balance_lem e t a.year s q in
        let m = (ensure_balance e t a.year s).1 in
        let u = (apply_to_balance b (dp a.days) (du a.days) m).1 in
        let whole = charge_head a rest s q in
        rw whole (
          Charged-step e t (in_year a.year (dp a.days)) (in_year a.year (du a.days))
            (λ y. charge_sum dp y rest) (λ y. charge_sum du y rest) s m u made.days made.tables
            (apply-Charged e t a.year b (dp a.days) (du a.days) m made.found)
            (charge_balances e t dp du rest u).1
            (charge_balances-Charged rest u (ap (λ v. v.0) (sym whole) ∙ h)))
    | inr (x, q) ↦ absurd (ground (arith, charge_fails a rest s q))
  ]
