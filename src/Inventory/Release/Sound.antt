-- ===== src/Inventory/Release/Sound.antt =====
-- Giving a hold back lowers the counter of its stock item by its quantity, exactly once.
use phone_cases_backend.Prelude.{
  ℕ, ◌+◌, ◌≤◌, ◌≡◌, Bool, true, false, some, List, [], ◌∷◌, Option-cases, inl, inr, sum_by, arith,
}
use phone_cases_backend.Prelude.Tables.{update_where, update_where_row}
use phone_cases_backend.Inventory.{Inventory, Reservation, ReservationStatus, is_active, is_live}
use phone_cases_backend.Inventory.Invariant.{held, IsSound, Frees, is_for}
use phone_cases_backend.Inventory.Release.{
  as_released, give_back, release_row, release_one, release_many_in_transaction,
}

pub give_back-IsSound :
    (s : Inventory) (k q : ℕ) (rs : List Reservation)
    → IsSound s
    → Frees s.reservations rs k q
    → IsSound (give_back k q (record s { reservations = rs }))
unfolding give_back
give_back-IsSound s k q rs v moved = elim (Option-cases (s.stock k)) [
  | inl gone ↦ record {
    counted = λ j. ground (arith, v.counted j, v.counted k, moved j, moved k, gone);
    backed = λ j. ground (arith, v.backed j, gone);
    fresh = λ j past. ground (arith, v.fresh j, gone);
    linked = λ j. ground (arith, v.linked j, moved j, gone);
  }
  | inr (it, there) ↦ record {
    counted = λ j. ground (arith, v.counted j, v.counted k, moved j, moved k, there);
    backed = λ j. ground (arith, v.backed j, v.backed k, there);
    fresh = λ j past. ground (arith, v.fresh j, v.fresh k, there);
    linked = λ j. ground (arith, v.linked j, moved j, there);
  }
]

-- A row that was released: it was active and passed the test, and all that it held is free.
pub release_row_inv :
    (test : Reservation → Bool) (status : ReservationStatus) (now : ℕ) (s : Inventory)
    (x : Reservation) (s' : Inventory)
    → release_row test status now s ≡ some (x, s')
    → (r : Reservation) × (rs : List Reservation) × (test r ≡ true)
      × (x ≡ as_released status now r)
      × ((g : Reservation → ℕ)
          → (sum_by g s.reservations + g (as_released status now r) ≡ sum_by g rs + g r)
            × (g r ≤ sum_by g s.reservations))
      × (s' ≡ give_back r.stock_item r.quantity (record s { reservations = rs }))
unfolding release_row
release_row_inv test status now s x s' e =
    elim (Option-cases (update_where test (as_released status now) s.reservations)) [
      | inl gone ↦ absurd (ground (arith, gone))
      | inr ((y, rs), there) ↦
          let (r, passed, made, total) =
            update_where_row test (as_released status now) s.reservations y rs there in
          (r, rs, passed, ground (arith, there, made), total, ground (arith, there, made))
    ]

-- The tests of the callers let active rows pass only.
abbrev pub OnlyActive : (Reservation → Bool) → Type 0
OnlyActive test = (r : Reservation) → test r ≡ true → is_active r.status ≡ true

pub OnlyActive-is_live : (id : ℕ) → OnlyActive (is_live id)
OnlyActive-is_live id r h = ground arith

pub release_row-IsSound :
    (test : Reservation → Bool) (status : ReservationStatus) (now : ℕ) (s : Inventory)
    (x : Reservation) (s' : Inventory)
    → OnlyActive test
    → is_active status ≡ false
    → IsSound s
    → release_row test status now s ≡ some (x, s')
    → IsSound s'
release_row-IsSound test status now s x s' only inert v e =
    let (r, rs, passed, made, total, same) = release_row_inv test status now s x s' e in
    let live = only r passed in
    rw same (
      give_back-IsSound s r.stock_item r.quantity rs v
        (λ j. (ground (arith, total (held j), live, inert), ground (arith, total (is_for j)))))

pub release_one-IsSound :
    (id : ℕ) (status : ReservationStatus) (now : ℕ) (s : Inventory)
    → is_active status ≡ false
    → IsSound s
    → IsSound (release_one id status now s).1
unfolding release_one
release_one-IsSound id status now s inert v =
    elim (Option-cases (release_row (is_live id) status now s)) [
      | inl gone ↦ rw (gone, release_one) v
      | inr ((x, s'), there) ↦
          rw (there, release_one)
            (release_row-IsSound (is_live id) status now s x s' (OnlyActive-is_live id) inert v
              there)
    ]

pub release_many-IsSound :
    (ids : List ℕ) (status : ReservationStatus) (now : ℕ) (s : Inventory)
    → is_active status ≡ false
    → IsSound s
    → IsSound (release_many_in_transaction ids status now s).1
unfolding release_many_in_transaction
release_many-IsSound [] status now s inert v = v
release_many-IsSound (id ∷ ids) status now s inert v =
    let (found, s') = release_one id status now s in
    release_many-IsSound ids status now s' inert (release_one-IsSound id status now s inert v)
