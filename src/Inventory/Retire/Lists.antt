-- ===== src/Inventory/Retire/Lists.antt =====
-- Releasing and consuming all the active reservations of an order leaves it none.
use phone_cases_backend.Prelude.{
  ℕ, ◌≡◌, refl, false, Option, some, List, [], ◌∷◌, sum_by, Option-cases, inl, inr, arith,
}
use phone_cases_backend.Prelude.Results.{ok, bind_inv}
use phone_cases_backend.Prelude.Tables.{update_where}
use phone_cases_backend.Errors.{Error, invalid_state_transition}
use phone_cases_backend.Inventory.{Inventory, Reservation, ReservationStatus, is_active, is_live}
use phone_cases_backend.Inventory.Release.{
  give_back, as_released, release_row, release_one, release_many_in_transaction,
}
use phone_cases_backend.Inventory.Consume.{
  take_stock, as_consumed, consume_row, consume_many_in_transaction,
}
use phone_cases_backend.Inventory.Retire.{
  IsUnique, IsNamed, holds, Retires, retire, retired_before, Retires-IsUnique, Retires-IsNamed,
  IsNamed-none,
}

give_back-frame : (k q : ℕ) (s : Inventory) → (give_back k q s).reservations ≡ s.reservations
unfolding give_back
give_back-frame k q s = ground arith

release_one-Retires :
    (id : ℕ) (status : ReservationStatus) (now : ℕ) (s : Inventory)
    → is_active status ≡ false
    → IsUnique s.reservations
    → Retires id s.reservations (release_one id status now s).1.reservations
unfolding release_one release_row
release_one-Retires id status now s inert unique =
    elim (Option-cases (update_where (is_live id) (as_released status now) s.reservations)) [
      | inl miss ↦
          rw (miss, release_one, release_row)
            (retired_before id (as_released status now) s.reservations miss)
      | inr ((x, rs), hit) ↦
          let after = give_back-frame x.stock_item x.quantity (record s { reservations = rs }) in
          let step =
            retire id (as_released status now) s.reservations x rs unique (λ r. (refl, inert))
              hit in
          rw (hit, release_one, release_row, after) step
    ]

pub release_many-frees :
    (order : ℕ) (ids : List ℕ) (status : ReservationStatus) (now : ℕ) (s : Inventory)
    → is_active status ≡ false
    → IsUnique s.reservations
    → IsNamed order ids s.reservations
    → sum_by (holds order) (release_many_in_transaction ids status now s).1.reservations ≡ 0
unfolding release_many_in_transaction
release_many-frees order [] status now s inert unique named =
    IsNamed-none order s.reservations named
release_many-frees order (id ∷ ids) status now s inert unique named =
    let t = (release_one id status now s).1 in
    let step = release_one-Retires id status now s inert unique in
    release_many-frees order ids status now t inert
      (Retires-IsUnique id s.reservations t.reservations step unique)
      (Retires-IsNamed order id ids s.reservations t.reservations step named)

take_stock-frame :
    (k q : ℕ) (s t : Inventory) → take_stock k q s ≡ some t → t.reservations ≡ s.reservations
unfolding take_stock
take_stock-frame k q s t e = ground arith

consume_row-Retires :
    (id : ℕ) (staff : Option ℕ) (now : ℕ) (x : Error) (s : Inventory) (r : Reservation)
    (t : Inventory)
    → IsUnique s.reservations
    → consume_row id staff now x s ≡ ok (r, t)
    → Retires id s.reservations t.reservations
unfolding consume_row
consume_row-Retires id staff now x s r t unique e =
    elim (Option-cases (update_where (is_live id) (as_consumed now) s.reservations)) [
      | inl miss ↦ absurd (ground (arith, miss))
      | inr ((y, rs), hit) ↦
          elim (Option-cases
            (take_stock y.stock_item y.quantity (record s { reservations = rs }))) [
              | inl short ↦ absurd (ground (arith, hit, short))
              | inr (u, took) ↦
                  let after : t.reservations ≡ rs = ground (
                    arith,
                    hit,
                    took,
                    take_stock-frame y.stock_item y.quantity (record s { reservations = rs }) u
                        took,
                  ) in
                  rw after
                    (retire id (as_consumed now) s.reservations y rs unique (λ z. (refl, refl)) hit)
            ]
    ]

pub consume_many-frees :
    (order : ℕ) (ids : List ℕ) (staff : Option ℕ) (now : ℕ) (s : Inventory) (rs : List Reservation)
    (t : Inventory)
    → IsUnique s.reservations
    → IsNamed order ids s.reservations
    → consume_many_in_transaction ids staff now s ≡ ok (rs, t)
    → sum_by (holds order) t.reservations ≡ 0
unfolding consume_many_in_transaction
consume_many-frees order [] staff now s rs t unique named e =
    let same : t ≡ s = cc in rw same (IsNamed-none order s.reservations named)
consume_many-frees order (id ∷ ids) staff now s rs t unique named e =
    let (r, u, first, e₁) =
      bind_inv (consume_row id staff now invalid_state_transition) _ s rs t e in
    let (rest, v, more, e₂) = bind_inv (consume_many_in_transaction ids staff now) _ u rs t e₁ in
    let same : t ≡ v = cc in
    let step = consume_row-Retires id staff now invalid_state_transition s r u unique first in
    rw same (
      consume_many-frees order ids staff now u rest v
        (Retires-IsUnique id s.reservations u.reservations step unique)
        (Retires-IsNamed order id ids s.reservations u.reservations step named) more)
