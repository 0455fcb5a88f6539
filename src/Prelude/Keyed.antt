-- ===== src/Prelude/Keyed.antt =====
-- Tables searched by a primary key: what a lookup finds after a write.
use phone_cases_backend.Prelude.Tests.{◌==◌, if◌then◌else◌, Bool-cases}
use phone_cases_backend.Prelude.Lists.{sum_by}
use phone_cases_backend.Prelude.Tables.{update_where, find_first, update_all}
use Prim.Native.Nat.{ℕ, ◌+◌}
use mathlib.Core.Path.{◌≡◌, refl}
use mathlib.Core.Logic.{inl, inr}
use mathlib.Core.Bool.{Bool, true, false}
use mathlib.Core.Option.{Option, none, some}
use mathlib.Core.List.{List, [], ◌∷◌}
use native.Mathlib.Omega.{arith}

module _ {A : Type 0} (key : A → ℕ) where
  abbrev keyed : ℕ → A → Bool
  keyed k r = key r == k

  abbrev pub find_key : ℕ → List A → Option A
  find_key k rs = find_first (keyed k) rs

  abbrev write_if : Bool → (A → A) → Option A → Option A
  write_if b f none = none
  write_if b f (some r) = some (if b then f r else r)

  -- A write to every row with one key.
  pub find_key-update_all :
      (f : A → A) (k j : ℕ) (rs : List A)
      → ((r : A) → key (f r) ≡ key r)
      → find_key j (update_all (keyed k) f rs) ≡ write_if (j == k) f (find_key j rs)
  find_key-update_all f k j [] same = refl
  find_key-update_all f k j (r ∷ rs) same =
      ground (arith, find_key-update_all f k j rs same, same r)

  pub find_key_has : (k : ℕ) (rs : List A) (r : A) → find_key k rs ≡ some r → key r ≡ k
  find_key_has k [] r e = cc
  find_key_has k (x ∷ rs) r e = ground (arith, find_key_has k rs r)

  abbrev Written : (q : A → Bool) (f : A → A) (k : ℕ) (rs : List A) (r : A) → List A → Type 0
  Written q f k rs r rs' =
      (update_where q f rs ≡ some (f r, rs'))
      × ((j : ℕ) → find_key j rs' ≡ (if j == k then some (f r) else find_key j rs))
      × ((g : A → ℕ) → sum_by g rs + g (f r) ≡ sum_by g rs' + g r)

  -- A conditional write of the row that a lookup of its key has found, where the row meets the
  -- condition: it matches, and the lookup of that key, and of no other, changes.
  pub update_where_found :
      (q : A → Bool) (f : A → A) (k : ℕ) (rs : List A) (r : A)
      → ((x : A) → key (f x) ≡ key x)
      → ((x : A) → q x ≡ true → key x ≡ k)
      → find_key k rs ≡ some r
      → q r ≡ true
      → (rs' : List A) × Written q f k rs r rs'
  unfolding update_where
  update_where_found q f k [] r same only found passed = cc
  update_where_found q f k (x ∷ rs) r same only found passed = elim (Bool-cases (key x == k)) [
    | inl hit ↦
        let first : x ≡ r = ground (arith, hit) in
        let passed' : q x ≡ true = cc in
        (
          f x ∷ rs,
          (
            ground (arith, passed', first),
            λ j. ground (arith, same x, first, hit),
            λ g. ground (arith, first),
          ),
        )
    | inr miss ↦
        let (rs', (done, finds, totals)) =
          update_where_found q f k rs r same only (ground (arith, miss)) passed in
        let fails : q x ≡ false = ground (arith, only x, miss) in
        (
          x ∷ rs',
          (
            ground (arith, done, fails),
            λ j. ground (arith, finds j, miss),
            λ g. ground (arith, totals g),
          ),
        )
  ]
