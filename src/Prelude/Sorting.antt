-- ===== src/Prelude/Sorting.antt =====
-- `Array.prototype.sort`, which is stable: `before a b` says that the comparator does not put `a`
-- after `b`.
use phone_cases_backend.Prelude.Tests.{if◌then◌else◌, Bool-cases}
use phone_cases_backend.Prelude.Lists.{sum_by, All, length, take, select}
use Prim.Native.Nat.{ℕ, zero, suc, ◌+◌, ◌≤◌}
use mathlib.Core.Path.{◌≡◌, refl}
use mathlib.Core.Logic.{inl, inr}
use mathlib.Core.Bool.{Bool, true}
use mathlib.Core.List.{List, [], ◌∷◌}
use native.Mathlib.Omega.{arith}

module _ {A : Type 0} where
  insert_by : (A → A → Bool) → A → List A → List A
  insert_by before x [] = x ∷ []
  insert_by before x (y ∷ ys) =
      let rest = insert_by before x ys in if before x y then x ∷ y ∷ ys else y ∷ rest

  unfoldable pub sort_by : (A → A → Bool) → List A → List A
  unfolding insert_by
  sort_by before [] = []
  sort_by before (x ∷ xs) = insert_by before x (sort_by before xs)

  sum_by-insert_by :
      (before : A → A → Bool) (g : A → ℕ) (x : A) (xs : List A)
      → sum_by g (insert_by before x xs) ≡ g x + sum_by g xs
  unfolding insert_by
  sum_by-insert_by before g x [] = refl
  sum_by-insert_by before g x (y ∷ ys) = ground (arith, sum_by-insert_by before g x ys)

  -- Sorting moves rows and changes none.
  pub sum_by-sort_by :
      (before : A → A → Bool) (g : A → ℕ) (xs : List A) → sum_by g (sort_by before xs) ≡ sum_by g xs
  unfolding sort_by
  sum_by-sort_by before g [] = refl
  sum_by-sort_by before g (x ∷ xs) =
      omega (arith, sum_by-insert_by before g x (sort_by before xs), sum_by-sort_by before g xs)

  All-insert_by {κ} :
      (before : A → A → Bool) (P : A → Type κ) (x : A) (xs : List A)
      → P x
      → All P xs
      → All P (insert_by before x xs)
  unfolding insert_by
  All-insert_by before P x [] p ps = (p, tt)
  All-insert_by before P x (y ∷ ys) p ps =
      placed (before x y) (All-insert_by before P x ys p (ps.1))
    where
      placed :
          (b : Bool)
          → All P (insert_by before x ys)
          → All P (if b then x ∷ y ∷ ys else y ∷ insert_by before x ys)
      placed Bool.true rest = (p, ps)
      placed Bool.false rest = (ps.0, rest)

  pub All-sort_by {κ} :
      (before : A → A → Bool) (P : A → Type κ) (xs : List A) → All P xs → All P (sort_by before xs)
  unfolding sort_by
  All-sort_by before P [] ps = tt
  All-sort_by before P (x ∷ xs) ps =
      All-insert_by before P x (sort_by before xs) (ps.0) (All-sort_by before P xs (ps.1))

  pub sum_by-take-le : (g : A → ℕ) (n : ℕ) (xs : List A) → sum_by g (take n xs) ≤ sum_by g xs
  sum_by-take-le g zero xs = omega arith
  sum_by-take-le g (suc n) [] = omega arith
  sum_by-take-le g (suc n) (x ∷ xs) = omega (arith, sum_by-take-le g n xs)

  pub All-take {κ} : (P : A → Type κ) (n : ℕ) (xs : List A) → All P xs → All P (take n xs)
  All-take P zero xs ps = tt
  All-take P (suc n) [] ps = tt
  All-take P (suc n) (x ∷ xs) ps = (ps.0, All-take P n xs (ps.1))

  pub sum_by-select-le :
      (g : A → ℕ) (p : A → Bool) (xs : List A) → sum_by g (select p xs) ≤ sum_by g xs
  sum_by-select-le g p [] = omega arith
  sum_by-select-le g p (x ∷ xs) = ground (arith, sum_by-select-le g p xs)

  pub All-select {κ} :
      (P : A → Type κ) (q : A → Bool) (xs : List A) → All P xs → All P (select q xs)
  All-select P q [] ps = tt
  All-select P q (x ∷ xs) ps = elim (Bool-cases (q x)) [
    | inl hit ↦ rw hit (ps.0, All-select P q xs (ps.1))
    | inr miss ↦ rw miss (All-select P q xs (ps.1))
  ]

  pub All-selected : (q : A → Bool) (xs : List A) → All (λ x. q x ≡ true) (select q xs)
  All-selected q [] = tt
  All-selected q (x ∷ xs) = elim (Bool-cases (q x)) [
    | inl hit ↦ rw hit (hit, All-selected q xs)
    | inr miss ↦ rw miss (All-selected q xs)
  ]

  pub length-sort_by :
      (before : A → A → Bool) (xs : List A) → length (sort_by before xs) ≡ length xs
  length-sort_by before xs = omega (
    arith,
    sum_by-sort_by before (λ _. 1) xs,
    length_counts xs,
    length_counts (sort_by before xs),
  )
    where
      length_counts : (ys : List A) → sum_by (λ _. 1) ys ≡ length ys
      length_counts [] = refl
      length_counts (y ∷ ys) = omega (arith, length_counts ys)

  pub length-select : (q : A → Bool) (xs : List A) → length (select q xs) ≤ length xs
  length-select q [] = omega arith
  length-select q (x ∷ xs) = ground (arith, length-select q xs)

  pub length-take : (n : ℕ) (xs : List A) → n ≤ length xs → length (take n xs) ≡ n
  length-take zero xs h = refl
  length-take (suc n) [] h = absurd (omega arith)
  length-take (suc n) (x ∷ xs) h = omega (arith, length-take n xs)
