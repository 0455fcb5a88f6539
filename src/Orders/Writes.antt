-- ===== src/Orders/Writes.antt =====
-- The guarded writes of an order row, and the statements that they come with, in
-- src/modules/orders/orders.service.ts.
use phone_cases_backend.Prelude.{
  ℕ, ◌-◌, Bool, not, ◌&&◌, ◌||◌, Option, none, some, List, is_some, map, select,
}
use phone_cases_backend.Prelude.Results.{Tx, ok, err, guard}
use phone_cases_backend.Prelude.Tables.{put, update_where}
use phone_cases_backend.Errors.{Error, stock_reservation_lost, order_state_changed}
use phone_cases_backend.Inventory.{Reservation, ReservationStatus, is_active}
use phone_cases_backend.Inventory.Release.{release_many_in_transaction}
use phone_cases_backend.Store.{Store, Order, PaymentStatus, unpaid, awaiting, failed, is_payment}
use phone_cases_backend.Orders.Triage.{Triage, is_of_order}

-- `tx.order.updateMany({ where, data })`, refused if no row matched.
unfoldable pub update_order : (Order → Bool) → (Order → Order) → Tx Store Error Order
update_order test f s = elim (update_where test f s.orders) [
  | none ↦ err order_state_changed
  | some (o, os) ↦ ok (o, record s { orders = os })
]

-- `UPDATE coupons SET "usageCount" = GREATEST("usageCount" - 1, 0) WHERE id`
unfoldable pub release_coupon_use : Option ℕ → Store → Store
release_coupon_use none s = s
release_coupon_use (some c) s = elim (s.coupons c) [
  | none ↦ s
  | some k ↦ record s { coupons = put c (record k { usage_count = k.usage_count - 1 }) s.coupons }
]

-- `assertStockCommitmentNotLost`
unfoldable pub assert_stock_commitment_not_lost : Triage → Tx Store Error (Unit {0})
assert_stock_commitment_not_lost t =
    guard (not (t.has_any && not t.fully_covered)) stock_reservation_lost

-- The ids of the active reservations of an order.
abbrev pub active_ids_of : ℕ → List Reservation → List ℕ
active_ids_of order rs =
    map (λ r. r.id) (select (λ r. is_of_order order r && is_active r.status) rs)

-- The release of every active reservation of an order.
unfoldable pub release_order_stock : ℕ → ReservationStatus → ℕ → Store → Store
release_order_stock order status now s =
    let ids = active_ids_of order s.inventory.reservations in
    record s { inventory = (release_many_in_transaction ids status now s.inventory).1 }

abbrev pub was_never_paid : PaymentStatus → Bool
was_never_paid p = is_payment p unpaid || is_payment p awaiting || is_payment p failed

abbrev pub coupon_release_needed : Order → Bool
coupon_release_needed o =
    is_some o.coupon && not o.coupon_usage_released && was_never_paid o.payment
