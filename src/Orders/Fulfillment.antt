-- ===== src/Orders/Fulfillment.antt =====
-- `updateFulfillmentStatus` of src/modules/orders/orders.service.ts. The row lock makes the
-- transaction atomic, so that it is a function of the state that it reads after the lock.
pub mod Effects
use phone_cases_backend.Prelude.{
  ℕ, Bool, true, false, not, ◌&&◌, ◌||◌, Option, none, some, List, [], ◌∷◌, ◌==◌, if◌then◌else◌,
}
use phone_cases_backend.Prelude.Results.{
  Result, ok, err, Tx, pure, throw, guard, gets, modify, or_throw, commit, ◌>>=◌, ◌>>◌,
}
use phone_cases_backend.Errors.{
  Error, resource_not_found, invalid_state_transition, payment_not_confirmed,
}
use phone_cases_backend.Inventory.{released}
use phone_cases_backend.Inventory.Release.{pin_active_for_order}
use phone_cases_backend.Store.{
  Store, Order, FulfillmentStatus, confirmed, preparing, cancelled, paid, is_fulfillment,
  is_payment, is_instapay, has_id, find_order, fulfillment_changed, record_audit,
}
use phone_cases_backend.Orders.Transitions.{may_move}
use phone_cases_backend.Orders.Triage.{Triage, load_reservation_triage}
use phone_cases_backend.Orders.Writes.{
  update_order, release_coupon_use, assert_stock_commitment_not_lost, release_order_stock,
  coupon_release_needed,
}

abbrev pub is_nonempty : List ℕ → Bool
is_nonempty [] = false
is_nonempty (x ∷ xs) = true

-- What a confirmation does to the stock: the check of the commitment, and the pin.
unfoldable pub confirm_stock : ℕ → Tx Store Error (Unit {0})
unfolding load_reservation_triage assert_stock_commitment_not_lost pin_active_for_order
confirm_stock id s =
    let triage = load_reservation_triage id s.inventory in
    (do
      assert_stock_commitment_not_lost triage
      if is_nonempty triage.active_ids
          then modify (λ t. record t { inventory = pin_active_for_order id t.inventory })
          else pure tt)
      s

abbrev pub needs_payment : Order → FulfillmentStatus → Bool
needs_payment o target =
    is_fulfillment target preparing && is_instapay o.method && not (is_payment o.payment paid)

abbrev pub with_fulfillment : FulfillmentStatus → Bool → Order → Order
with_fulfillment target release o = record o {
  fulfillment = target;
  coupon_usage_released = o.coupon_usage_released || release;
}

-- The side effects of the two targets that have any.
unfoldable pub before_move : ℕ → FulfillmentStatus → ℕ → Tx Store Error (Unit {0})
unfolding confirm_stock release_order_stock
before_move id confirmed now = confirm_stock id
before_move id cancelled now = modify (release_order_stock id released now)
before_move id _ now = pure tt

-- The transaction from the locked row on, for a target that differs from its status.
unfoldable pub move_order : Order → FulfillmentStatus → ℕ → Tx Store Error Order
unfolding before_move update_order release_coupon_use may_move
move_order o target now = do
  guard (may_move o.fulfillment target) invalid_state_transition
  guard (not (needs_payment o target)) payment_not_confirmed
  before_move o.id target now
  let release = is_fulfillment target cancelled && coupon_release_needed o
  o' ←
      update_order (λ x. has_id o.id x && is_fulfillment x.fulfillment o.fulfillment)
        (with_fulfillment target release)
  modify (if release then release_coupon_use o.coupon else λ t. t)
  pure o'

-- The result of the transaction: the order, and the status it moved from, or `none` for a no-op.
unfoldable pub move_transaction :
    ℕ → FulfillmentStatus → ℕ → Tx Store Error (Order × Option FulfillmentStatus)
unfolding move_order
move_transaction id target now s =
    (do
      o ← or_throw (find_order id s) (resource_not_found id)
      if is_fulfillment o.fulfillment target
          then pure (o, none)
          else (do o' ← move_order o target now; pure (o', some o.fulfillment)))
      s

abbrev pub audit_move :
    ℕ
    → FulfillmentStatus
    → ℕ
    → Result Error (Order × Option FulfillmentStatus) × Store
    → Result Error Order × Store
audit_move id target staff (err e, s) = (err e, s)
audit_move id target staff (ok (o, none), s) = (ok o, s)
audit_move id target staff (ok (o, some from), s) =
    (ok o, record_audit (some staff) (fulfillment_changed from target) id s)

unfoldable pub update_fulfillment_status :
    ℕ → FulfillmentStatus → ℕ → ℕ → Store → Result Error Order × Store
unfolding move_transaction
update_fulfillment_status id target staff now s =
    audit_move id target staff (commit (move_transaction id target now) s)
