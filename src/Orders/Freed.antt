-- ===== src/Orders/Freed.antt =====
-- Ended and paid orders hold no stock: what a cancellation, an expiry and a payment do with the
-- reservations of an order.
use phone_cases_backend.Prelude.{
  ℕ, ◌+◌, ◌≡◌, refl, ap, true, false, implies, implies_intro, some, List, [], ◌∷◌, map, select,
  sum_by, arith,
}
use phone_cases_backend.Prelude.Results.{ok}
use phone_cases_backend.Inventory.{Inventory, Reservation, ReservationStatus, is_active, released}
use phone_cases_backend.Inventory.Release.{is_active_of}
use phone_cases_backend.Inventory.Retire.{IsUnique, IsNamed, holds, IsNamed-select}
use phone_cases_backend.Inventory.Retire.Lists.{release_many-frees, consume_many-frees}
use phone_cases_backend.Inventory.Retire.Sales.{
  held_units, held_of, sold_of, on_hand_of, reserved_of, consume_all-sells,
}
use phone_cases_backend.Store.{Store, Order, paid, cancelled, find_order}
use phone_cases_backend.Orders.Triage.{load_reservation_triage, is_of_order}
use phone_cases_backend.Orders.Writes.{release_order_stock, active_ids_of}
use phone_cases_backend.Orders.Fulfillment.{before_move, move_order}
use phone_cases_backend.Orders.Fulfillment.Effects.{move_order-Moved}
use phone_cases_backend.Orders.Payment.{consume_stock, before_payment, pay_order}
use phone_cases_backend.Orders.Payment.Effects.{pay_order-Paid, consume_stock_inv, settle_inv}

-- How many reservations of an order are active.
abbrev pub active_of : ℕ → Store → ℕ
active_of order s = sum_by (holds order) s.inventory.reservations

release_order_stock-frees :
    (order : ℕ) (status : ReservationStatus) (now : ℕ) (s : Store)
    → is_active status ≡ false
    → IsUnique s.inventory.reservations
    → active_of order (release_order_stock order status now s) ≡ 0
unfolding release_order_stock
release_order_stock-frees order status now s inert unique =
    release_many-frees order (active_ids_of order s.inventory.reservations) status now s.inventory
      inert unique
      (IsNamed-select order s.inventory.reservations (active_ids_of order s.inventory.reservations)
        (λ k h. h))

-- A cancellation leaves the order no active reservation.
pub cancelled_frees :
    (o : Order) (now : ℕ) (s : Store) (o' : Order) (t : Store)
    → find_order o.id s ≡ some o
    → IsUnique s.inventory.reservations
    → move_order o cancelled now s ≡ ok (o', t)
    → active_of o.id t ≡ 0
unfolding before_move
cancelled_frees o now s o' t there unique e =
    let m = move_order-Moved o cancelled now s o' t there e in
    let between : m.between ≡ release_order_stock o.id released now s = ground (arith, m.effects) in
    rw (m.inventory, between) (release_order_stock-frees o.id released now s refl unique)

select_twice :
    (order : ℕ) (rs : List Reservation)
    → select (λ r. is_active r.status) (select (is_of_order order) rs)
      ≡ select (is_active_of order) rs
select_twice order [] = refl
select_twice order (r ∷ rs) = ground (arith, select_twice order rs)

triage_ids :
    (order : ℕ) (s : Store)
    → (load_reservation_triage order s.inventory).active_ids
      ≡ map (λ r. r.id) (select (is_active_of order) s.inventory.reservations)
unfolding load_reservation_triage
triage_ids order s = ap (map (λ r. r.id)) (select_twice order s.inventory.reservations)

consume_stock-frees :
    (order staff now : ℕ) (s : Store) (rs : List Reservation) (t : Store)
    → IsUnique s.inventory.reservations
    → consume_stock order staff now s ≡ ok (rs, t)
    → active_of order t ≡ 0
consume_stock-frees order staff now s rs t unique e =
    let (whole, i, took, t_is) = consume_stock_inv order staff now s rs t e in
    let ids = (load_reservation_triage order s.inventory).active_ids in
    let named : IsNamed order ids s.inventory.reservations =
      IsNamed-select order s.inventory.reservations ids (λ k h. rw (triage_ids order s) h) in
    rw t_is (consume_many-frees order ids (some staff) now s.inventory rs i unique named took)

held-none :
    (order k : ℕ) (rs : List Reservation)
    → sum_by (holds order) rs ≡ 0
    → sum_by (held_units order k) rs ≡ 0
held-none order k [] none_left = refl
held-none order k (r ∷ rs) none_left = ground (arith, held-none order k rs, none_left)

-- What a sale to an order does to one stock item: the units that the order held are sold to it, and
-- are neither on hand nor reserved any more.
abbrev pub IsSoldTo : (order stock_item : ℕ) → Inventory → Inventory → Type 0
IsSoldTo order k s t =
    (sold_of order k t ≡ sold_of order k s + held_of order k s)
    × (on_hand_of k t + held_of order k s ≡ on_hand_of k s)
    × (reserved_of k t + held_of order k s ≡ reserved_of k s)

consume_stock-IsSoldTo :
    (order staff now k : ℕ) (s : Store) (rs : List Reservation) (t : Store)
    → IsUnique s.inventory.reservations
    → consume_stock order staff now s ≡ ok (rs, t)
    → IsSoldTo order k s.inventory t.inventory
consume_stock-IsSoldTo order staff now k s rs t unique e =
    let (whole, i, took, t_is) = consume_stock_inv order staff now s rs t e in
    let left : held_of order k i ≡ 0 =
      held-none order k i.reservations
        (rw t_is at (consume_stock-frees order staff now s rs t unique e)) in
    rw t_is (
      consume_all-sells order k (some staff) now s.inventory rs i unique
        (rw (triage_ids order s) at took) left)

-- A payment sells exactly what the order held, and only on a complete commitment: the order has no
-- active reservation any more; of every stock item, the units that it held count as consumed by it,
-- and are neither on hand nor reserved any more, if the ids of reservations are unique.
pub paid_consumes :
    (o : Order) (staff now k : ℕ) (s : Store) (o' : Order) (t : Store)
    → find_order o.id s ≡ some o
    → IsUnique s.inventory.reservations
    → pay_order o paid staff now s ≡ ok (o', t)
    → let triage = load_reservation_triage o.id s.inventory in
      (active_of o.id t ≡ 0)
      × IsSoldTo o.id k s.inventory t.inventory
      × (implies triage.has_any triage.fully_covered ≡ true)
unfolding before_payment
paid_consumes o staff now k s o' t there unique e =
    let m = pay_order-Paid o paid staff now s o' t there e in
    let (rs, s₁, sold, same, inventory) = settle_inv o staff now s (m.between) (m.effects) in
    let (whole, i, took, s₁_is) = consume_stock_inv o.id staff now s rs s₁ sold in
    (
      rw (m.inventory, inventory) (consume_stock-frees o.id staff now s rs s₁ unique sold),
      rw (m.inventory, inventory) (consume_stock-IsSoldTo o.id staff now k s rs s₁ unique sold),
      implies_intro (load_reservation_triage o.id s.inventory).has_any
          (load_reservation_triage o.id s.inventory).fully_covered
          (λ any. ground (arith, whole, any)),
    )
