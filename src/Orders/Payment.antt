-- ===== src/Orders/Payment.antt =====
-- `updatePaymentStatus` and `flagLatePayment` of src/modules/orders/orders.service.ts.
pub mod Effects
use phone_cases_backend.Prelude.{ℕ, Bool, not, ◌&&◌, ◌||◌, Option, none, some, List, if◌then◌else◌}
use phone_cases_backend.Prelude.Results.{
  Result, ok, err, Tx, pure, guard, or_throw, commit, ◌>>=◌, ◌>>◌,
}
use phone_cases_backend.Errors.{
  Error, resource_not_found, invalid_state_transition, use_refunds_endpoint,
}
use phone_cases_backend.Inventory.{Reservation}
use phone_cases_backend.Inventory.Consume.{consume_many_in_transaction}
use phone_cases_backend.Store.{
  Store, Order, PaymentStatus, paid, partially_refunded, refunded, cancelled, is_fulfillment,
  is_payment, is_instapay, has_id, find_order, payment_changed, late_payment_flagged, record_audit,
  in_inventory,
}
use phone_cases_backend.Receipts.{accept_pending_receipt}
use phone_cases_backend.Orders.Transitions.{may_pay}
use phone_cases_backend.Orders.Triage.{load_reservation_triage}
use phone_cases_backend.Orders.Writes.{update_order, assert_stock_commitment_not_lost}

-- The consumption of the stock that an order holds, for its payment.
unfoldable pub consume_stock : ℕ → ℕ → ℕ → Tx Store Error (List Reservation)
unfolding load_reservation_triage assert_stock_commitment_not_lost consume_many_in_transaction
consume_stock id staff now s =
    let triage = load_reservation_triage id s.inventory in
    (do
      assert_stock_commitment_not_lost triage
      in_inventory (consume_many_in_transaction triage.active_ids (some staff) now))
      s

-- The side effects of a payment: the stock, and for InstaPay the receipt.
unfoldable pub settle : Order → ℕ → ℕ → Tx Store Error (Unit {0})
unfolding consume_stock accept_pending_receipt
settle o staff now = do
  consumed ← consume_stock o.id staff now
  if is_instapay o.method then accept_pending_receipt o.id staff now else pure tt

unfoldable pub before_payment : Order → PaymentStatus → ℕ → ℕ → Tx Store Error (Unit {0})
unfolding settle
before_payment o paid staff now = settle o staff now
before_payment o _ staff now = pure tt

abbrev pub with_payment : PaymentStatus → Order → Order
with_payment target o = record o { payment = target }

unfoldable pub pay_order : Order → PaymentStatus → ℕ → ℕ → Tx Store Error Order
unfolding before_payment update_order may_pay
pay_order o target staff now = do
  guard (not (is_fulfillment o.fulfillment cancelled)) invalid_state_transition
  guard (may_pay o.payment target) invalid_state_transition
  before_payment o target staff now
  update_order (λ x. has_id o.id x && is_payment x.payment o.payment) (with_payment target)

-- The result: the order, and the status it moved from, or `none` for a no-op.
unfoldable pub pay_transaction :
    ℕ → PaymentStatus → ℕ → ℕ → Tx Store Error (Order × Option PaymentStatus)
unfolding pay_order
pay_transaction id target staff now s =
    (do
      o ← or_throw (find_order id s) (resource_not_found id)
      if is_payment o.payment target
          then pure (o, none)
          else (do o' ← pay_order o target staff now; pure (o', some o.payment)))
      s

abbrev pub audit_payment :
    ℕ
    → PaymentStatus
    → ℕ
    → Result Error (Order × Option PaymentStatus) × Store
    → Result Error Order × Store
audit_payment id target staff (err e, s) = (err e, s)
audit_payment id target staff (ok (o, none), s) = (ok o, s)
audit_payment id target staff (ok (o, some from), s) =
    (ok o, record_audit (some staff) (payment_changed from target) id s)

abbrev pub is_refund_status : PaymentStatus → Bool
is_refund_status p = is_payment p partially_refunded || is_payment p refunded

unfoldable pub update_payment_status :
    ℕ → PaymentStatus → ℕ → ℕ → Store → Result Error Order × Store
unfolding pay_transaction
update_payment_status id target staff now s =
    if is_refund_status target
    then (err use_refunds_endpoint, s)
    else audit_payment id target staff (commit (pay_transaction id target staff now) s)

-- `flagLatePayment`
unfoldable pub flag_late_payment : ℕ → ℕ → ℕ → ℕ → Tx Store Error Order
unfolding update_order
flag_late_payment id note staff now s =
    (do
      o ← or_throw (find_order id s) (resource_not_found id)
      guard (is_fulfillment o.fulfillment cancelled) invalid_state_transition
      o' ←
          update_order (has_id id)
            (λ x. record x { late_payment_flagged_at = some now; late_payment_note = some note })
      (λ t. ok (o', record_audit (some staff) late_payment_flagged id t)))
      s
