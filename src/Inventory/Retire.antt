-- ===== src/Inventory/Retire.antt =====
-- Closing a list of reservations closes every active one of an order, if the list names them all.
pub mod Lists
pub mod Sales
use phone_cases_backend.Prelude.{
  ℕ, ◌+◌, ◌≤◌, ◌≡◌, refl, Bool, true, false, not, ◌&&◌, ◌||◌, Option, none, some, List, [], ◌∷◌,
  map, select, ◌==◌, sum_by, sum_by-le, sum_by-plus, if◌then◌else◌, arith,
}
use phone_cases_backend.Prelude.Tables.{update_where, update_where_row, update_where_missed}
use phone_cases_backend.Inventory.{Reservation, is_active, is_live}
use phone_cases_backend.Inventory.Release.{is_active_of}

abbrev live : ℕ → Reservation → ℕ
live id r = if is_live id r then 1 else 0

abbrev pub has_key : ℕ → Reservation → ℕ
has_key id r = if r.id == id then 1 else 0

-- The primary key of the table.
abbrev pub IsUnique : List Reservation → Type 0
IsUnique rs = (id : ℕ) → sum_by (has_key id) rs ≤ 1

-- What an order holds: how many of its reservations are active.
abbrev pub holds : ℕ → Reservation → ℕ
holds order r = if is_active_of order r then 1 else 0

abbrev contains : ℕ → List ℕ → Bool
contains id [] = false
contains id (x ∷ xs) = (x == id) || contains id xs

-- An active reservation of the order that a list does not name.
abbrev missed : ℕ → List ℕ → Reservation → ℕ
missed order ids r = if is_active_of order r && not (contains r.id ids) then 1 else 0

-- The table `rs'` is `rs` with the reservation `id` no longer active.
pub record Retires (id : ℕ) (rs rs' : List Reservation) : Type 0 where
  closed : sum_by (live id) rs' ≡ 0
  fewer : (order : ℕ) (ids : List ℕ) → sum_by (missed order ids) rs' ≤ sum_by (missed order ids) rs
  keys : (k : ℕ) → sum_by (has_key k) rs' ≡ sum_by (has_key k) rs

pub retire :
    (id : ℕ) (f : Reservation → Reservation) (rs : List Reservation) (x : Reservation)
    (rs' : List Reservation)
    → IsUnique rs
    → ((r : Reservation) → ((f r).id ≡ r.id) × (is_active (f r).status ≡ false))
    → update_where (is_live id) f rs ≡ some (x, rs')
    → Retires id rs rs'
retire id f rs x rs' unique closes hit =
    let (r, test, x_is, totals) = update_where_row (is_live id) f rs x rs' hit in
    let le = sum_by-le (live id) (has_key id) rs (λ y. ground arith) in
    let (same_id, inert) = closes r in
    let was : live id r ≡ 1 = ground (arith, test) in
    let is : live id (f r) ≡ 0 = ground (arith, inert) in
    record {
      closed = omega (arith, totals (live id), le, unique id, was, is);
      fewer = λ order ids.
          let zero_ : missed order ids (f r) ≡ 0 = ground (arith, inert) in
          omega (arith, totals (missed order ids), zero_);
      keys = λ k.
          let same : has_key k (f r) ≡ has_key k r = ground (arith, same_id) in
          omega (arith, totals (has_key k), same);
    }

pub retired_before :
    (id : ℕ) (f : Reservation → Reservation) (rs : List Reservation)
    → update_where (is_live id) f rs ≡ none
    → Retires id rs rs
retired_before id f rs miss = record {
  closed = update_where_missed (is_live id) f (live id) rs (λ x h. ground (arith, h)) miss;
  fewer = λ order ids. omega arith;
  keys = λ k. refl;
}

pub Retires-IsUnique :
    (id : ℕ) (rs rs' : List Reservation) → Retires id rs rs' → IsUnique rs → IsUnique rs'
Retires-IsUnique id rs rs' step unique k = omega (arith, step.keys k, unique k)

abbrev pub IsNamed : ℕ → List ℕ → List Reservation → Type 0
IsNamed order ids rs = sum_by (missed order ids) rs ≡ 0

-- After its reservation is closed, an id need not be named any more.
pub Retires-IsNamed :
    (order id : ℕ) (ids : List ℕ) (rs rs' : List Reservation)
    → Retires id rs rs'
    → IsNamed order (id ∷ ids) rs
    → IsNamed order ids rs'
Retires-IsNamed order id ids rs rs' step named =
    let le =
      sum_by-le (missed order ids) (λ r. missed order (id ∷ ids) r + live id r) rs'
        (λ r. ground arith) in
    let plus =
      sum_by-plus (missed order (id ∷ ids)) (live id) (λ r. missed order (id ∷ ids) r + live id r)
        rs' (λ r. refl) in
    omega (arith, le, plus, step.fewer order (id ∷ ids), step.closed)

pub IsNamed-none :
    (order : ℕ) (rs : List Reservation) → IsNamed order [] rs → sum_by (holds order) rs ≡ 0
IsNamed-none order rs named =
    let le = sum_by-le (holds order) (missed order []) rs (λ r. ground arith) in
    omega (arith, le, named)

-- The ids of the active reservations of an order name them all.
pub IsNamed-select :
    (order : ℕ) (rs : List Reservation) (ids : List ℕ)
    → ((k : ℕ)
        → contains k (map (λ r. r.id) (select (is_active_of order) rs)) ≡ true
        → contains k ids ≡ true)
    → IsNamed order ids rs
IsNamed-select order [] ids all = refl
IsNamed-select order (r ∷ rs) ids all =
    let rest = IsNamed-select order rs ids (λ k h. all k (ground (arith, h))) in
    let here : missed order ids r ≡ 0 = ground (arith, all r.id) in omega (arith, rest, here)
