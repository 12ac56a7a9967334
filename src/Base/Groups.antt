-- ===== src/Base/Groups.antt =====
-- `const m = new Map(); for (const r of rows) m.set(key(r), add(r, m.get(key(r)) ?? start(r)))`: rows
-- gathered by a key, in the order in which the keys come up.
use Prim.Native.Nat.{ℕ}
use mathlib.Core.Path.{◌≡◌, refl}
use mathlib.Core.Option.{Option, none, some}
use mathlib.Core.List.{List, [], ◌∷◌}
use native.Mathlib.Omega.{arith}
use ai_hr_sytem.Base.Tests.{◌==◌, ==→eq, ==_refl, if◌then◌else◌, or_else}
use ai_hr_sytem.Base.Lists.{select}

-- `m.get(k)`
abbrev pub value_at : {B : Type 0} → ℕ → List (ℕ × B) → Option B
value_at k [] = none
value_at k ((j, b) ∷ m) = if j == k then some b else value_at k m

-- No key stands twice.
abbrev pub HasNewKeys : {B : Type 0} → List (ℕ × B) → Type 0
HasNewKeys [] = Unit
HasNewKeys ((j, b) ∷ m) = (value_at j m ≡ none) × HasNewKeys m

module _ {R B : Type 0} (key : R → ℕ) (start : R → B) (add : R → B → B) where
  unfoldable pub put : R → List (ℕ × B) → List (ℕ × B)
  put r [] = (key r, add r (start r)) ∷ []
  put r ((k, b) ∷ m) = if k == key r then (k, add r b) ∷ m else (k, b) ∷ put r m

  unfoldable pub group : List (ℕ × B) → List R → List (ℕ × B)
  group m [] = m
  group m (r ∷ rs) = group (put r m) rs

  -- What one row makes of the value under its key.
  abbrev pub joined : R → Option B → Option B
  joined r o = some (add r (or_else o (start r)))

  abbrev pub join_all : List R → Option B → Option B
  join_all [] o = o
  join_all (r ∷ rs) o = join_all rs (joined r o)

  pub value_at-put :
      (k : ℕ) (r : R) (m : List (ℕ × B))
      → value_at k (put r m) ≡ (if key r == k then joined r (value_at k m) else value_at k m)
  unfolding put
  value_at-put k r [] = ground arith
  value_at-put k r ((j, b) ∷ m) =
      ground (arith, value_at-put k r m, ==→eq j (key r), ==→eq j k, ==→eq (key r) k)

  -- The value under a key is made of the rows with this key, in their order.
  pub value_at-group :
      (k : ℕ) (m : List (ℕ × B)) (rs : List R)
      → value_at k (group m rs) ≡ join_all (select (λ r. key r == k) rs) (value_at k m)
  unfolding group
  value_at-group k m [] = refl
  value_at-group k m (r ∷ rs) = ground (arith, value_at-group k (put r m) rs, value_at-put k r m)

  put-HasNewKeys : (r : R) (m : List (ℕ × B)) → HasNewKeys m → HasNewKeys (put r m)
  unfolding put
  put-HasNewKeys r [] h = (refl, tt)
  put-HasNewKeys r ((j, b) ∷ m) h = ground (
    arith,
    put-HasNewKeys r m h.1,
    value_at-put j r m,
    ==→eq j (key r),
    ==→eq (key r) j,
    ==_refl j,
  )

  pub group-HasNewKeys : (m : List (ℕ × B)) (rs : List R) → HasNewKeys m → HasNewKeys (group m rs)
  unfolding group
  group-HasNewKeys m [] h = h
  group-HasNewKeys m (r ∷ rs) h = group-HasNewKeys (put r m) rs (put-HasNewKeys r m h)
