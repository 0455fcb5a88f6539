-- ===== src/Prelude/Tables.antt =====
-- Database tables. A table that is only read by its primary key is a function of that key; a table
-- that is searched is the list of its rows, oldest first. A key is a number: ids are UUIDs, which
-- the code compares and never computes with.
use phone_cases_backend.Prelude.Tests.{◌==◌, if◌then◌else◌, Bool-cases}
use phone_cases_backend.Prelude.Lists.{sum_by}
use Prim.Native.Nat.{ℕ, ◌+◌, ◌≤◌}
use mathlib.Core.Path.{◌≡◌, refl}
use mathlib.Core.Logic.{inl, inr}
use mathlib.Core.Bool.{Bool, true, false}
use mathlib.Core.Option.{Option, none, some}
use mathlib.Core.List.{List, [], ◌∷◌}
use native.Mathlib.Omega.{arith}

abbrev pub Table : Type 0 → Type 0
Table A = ℕ → Option A

-- The table with the row of one key replaced.
abbrev pub put : {A : Type 0} → ℕ → A → Table A → Table A
put k v t j = if j == k then some v else t j

module _ {A : Type 0} where
  abbrev prepend : A → Option (A × List A) → Option (A × List A)
  prepend r none = none
  prepend r (some (x, rs)) = some (x, r ∷ rs)

  -- `UPDATE ... SET f WHERE p RETURNING *` where `p` fixes the primary key, so that at most one row
  -- matches: the row as written and the new table, or `none` if no row matched.
  unfoldable pub update_where : (A → Bool) → (A → A) → List A → Option (A × List A)
  update_where p f [] = none
  update_where p f (r ∷ rs) =
      let rest = update_where p f rs in if p r then some (f r, f r ∷ rs) else prepend r rest

  -- `findUnique` and `findFirst`: the first row that matches.
  abbrev pub find_first : (A → Bool) → List A → Option A
  find_first p [] = none
  find_first p (r ∷ rs) = let rest = find_first p rs in if p r then some r else rest

  -- `updateMany`: every row that matches is written.
  abbrev pub update_all : (A → Bool) → (A → A) → List A → List A
  update_all p f [] = []
  update_all p f (r ∷ rs) = (if p r then f r else r) ∷ update_all p f rs

  prepend_inv :
      (r : A) (o : Option (A × List A)) (x : A) (rs' : List A)
      → prepend r o ≡ some (x, rs')
      → (ys : List A) × (o ≡ some (x, ys)) × (rs' ≡ r ∷ ys)
  prepend_inv r none x rs' e = cc
  prepend_inv r (some (y, ys)) x rs' e = (ys, cc, cc)

  -- An update that matched wrote one row, and moved every total over the table by that row.
  pub update_where_row :
      (p : A → Bool) (f : A → A) (rs : List A) (x : A) (rs' : List A)
      → update_where p f rs ≡ some (x, rs')
      → (r : A) × (p r ≡ true)
        × (x ≡ f r)
        × ((g : A → ℕ) → (sum_by g rs + g (f r) ≡ sum_by g rs' + g r) × (g r ≤ sum_by g rs))
  unfolding update_where
  update_where_row p f [] x rs' e = cc
  update_where_row p f (r ∷ rs) x rs' e = elim (Bool-cases (p r)) [
    | inl t ↦
        let e' : ◌≡◌ {A = Option (A × List A)} (some (f r, f r ∷ rs)) (some (x, rs')) = rw t at e in
        (r, t, cc, λ g. let same : rs' ≡ f r ∷ rs = cc in (rw same (omega arith), omega arith))
    | inr n ↦
        let (ys, found, same) = prepend_inv r (update_where p f rs) x rs' (rw n at e) in
        let (q, t, e', total) = update_where_row p f rs x ys found in
        (q, t, e', λ g. (rw same (omega (arith, total g)), omega (arith, total g)))
  ]

  -- An update misses if a count of the rows that it could match is zero.
  pub update_where_misses :
      (p : A → Bool) (f : A → A) (count : A → ℕ) (rs : List A)
      → ((x : A) → p x ≡ true → count x ≡ 1)
      → sum_by count rs ≡ 0
      → update_where p f rs ≡ none
  unfolding update_where
  update_where_misses p f count [] counts empty = refl
  update_where_misses p f count (r ∷ rs) counts empty =
      let rest = update_where_misses p f count rs counts (omega arith) in
      let fails : p r ≡ false = ground (arith, counts r) in ground (arith, rest, fails)

  -- An update that missed leaves no row that it could have matched.
  pub update_where_missed :
      (p : A → Bool) (f : A → A) (count : A → ℕ) (rs : List A)
      → ((x : A) → p x ≡ false → count x ≡ 0)
      → update_where p f rs ≡ none
      → sum_by count rs ≡ 0
  unfolding update_where
  update_where_missed p f count [] counts e = refl
  update_where_missed p f count (r ∷ rs) counts e =
      let fails : p r ≡ false = ground (arith, e) in
      let rest : update_where p f rs ≡ none = ground (arith, e, fails) in
      omega (arith, counts r fails, update_where_missed p f count rs counts rest)
