-- ===== src/Orders/Expiry.antt =====
-- `cancelDueToExpiry` and `cancelExpiredOrders` of src/modules/orders/orders.service.ts, and
-- `sweepAndCancel` of src/modules/orders/order-expiry.service.ts.
use phone_cases_backend.Prelude.{
  ℕ, ◌+◌, Bool, true, false, not, ◌&&◌, ◌||◌, none, some, List, [], ◌∷◌, ltb, is_some, is_some_and,
  map, select, take, length, if◌then◌else◌,
}
use phone_cases_backend.Prelude.Tables.{update_where}
use phone_cases_backend.Inventory.{expired}
use phone_cases_backend.Inventory.Sweep.{release_all_expired}
use phone_cases_backend.Store.{
  Store, Order, pending, unpaid, cancelled, is_fulfillment, is_payment, has_id, find_order,
  cancelled_expired, record_audit,
}
use phone_cases_backend.Orders.Writes.{release_coupon_use, release_order_stock}

abbrev pub is_open : Order → Bool
is_open o = is_fulfillment o.fulfillment pending && is_payment o.payment unpaid

abbrev pub as_cancelled : Order → Order
as_cancelled o = record o {
  fulfillment = cancelled;
  coupon_usage_released = o.coupon_usage_released || is_some o.coupon;
}

-- The transaction from the locked row on: whether the order was cancelled.
unfoldable pub expire_order : Order → ℕ → Store → Bool × Store
unfolding release_order_stock release_coupon_use
expire_order o now s = elim (update_where (λ x. has_id o.id x && is_open x) as_cancelled s.orders) [
  | none ↦ (false, s)
  | some (o', os) ↦
      let t = release_order_stock o.id expired now (record s { orders = os }) in
      (true, (if not o.coupon_usage_released then release_coupon_use o.coupon else λ x. x) t)
]

unfoldable pub expire_transaction : ℕ → ℕ → Store → Bool × Store
unfolding expire_order
expire_transaction id now s = elim (find_order id s) [
  | none ↦ (false, s)
  | some o ↦ if is_open o then expire_order o now s else (false, s)
]

abbrev pub audit_expiry : ℕ → Bool × Store → Bool × Store
audit_expiry id (false, s) = (false, s)
audit_expiry id (true, s) = (true, record_audit none cancelled_expired id s)

-- `cancelDueToExpiry`. The read before the transaction only saves opening one: the transaction
-- tests the same again, on the locked row.
unfoldable pub cancel_due_to_expiry : ℕ → ℕ → Store → Bool × Store
unfolding expire_transaction
cancel_due_to_expiry id now s = elim (find_order id s) [
  | none ↦ (false, s)
  | some o ↦ if is_open o then audit_expiry id (expire_transaction id now s) else (false, s)
]

abbrev pub is_overdue : ℕ → Order → Bool
is_overdue now o = is_open o && is_some_and (λ t. ltb t now) o.reservation_deadline

abbrev count_if : Bool → ℕ → ℕ
count_if true n = n + 1
count_if false n = n

unfoldable pub cancel_each : List ℕ → ℕ → Store → ℕ × Store
unfolding cancel_due_to_expiry
cancel_each [] now s = (0, s)
cancel_each (id ∷ ids) now s =
    let (done, s') = cancel_due_to_expiry id now s in
    let (n, s'') = cancel_each ids now s' in (count_if done n, s'')

-- `cancelExpiredOrders`
unfoldable pub cancel_expired_orders : ℕ → ℕ → Store → ℕ × Store
unfolding cancel_each
cancel_expired_orders limit now s =
    cancel_each (take limit (map (λ o. o.id) (select (is_overdue now) s.orders))) now s

-- `sweepAndCancel`: how many reservations were released and orders cancelled.
unfoldable pub sweep_and_cancel : ℕ → ℕ → Store → (ℕ × ℕ) × Store
unfolding cancel_expired_orders release_all_expired
sweep_and_cancel limit now s =
    let (released, i) = release_all_expired limit now s.inventory in
    let (n, s') = cancel_expired_orders limit now (record s { inventory = i }) in
    ((length released, n), s')
