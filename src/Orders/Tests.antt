-- ===== src/Orders/Tests.antt =====
-- The life of one InstaPay order on a small database, and the theorems on orders at it.
use phone_cases_backend.Prelude.{
  ◌↔◌, sum_by, implies, ℕ, ◌≤◌, ◌≡◌, refl, true, false, none, some, List, [], ◌∷◌, arith,
}
use phone_cases_backend.Prelude.Results.{Result, ok, err}
use phone_cases_backend.Prelude.Tables.{update_where}
use phone_cases_backend.Errors.{payment_not_confirmed, invalid_state_transition}
use phone_cases_backend.Inventory.{Inventory}
use phone_cases_backend.Inventory.Invariant.{IsSound, active_sum}
use phone_cases_backend.Inventory.Hold.{
  Holder, StockLine, unset, reserve_many_in_transaction, reserve_line,
}
use phone_cases_backend.Inventory.Consume.{consume_many_in_transaction, consume_row, take_stock}
use phone_cases_backend.Inventory.Sweep.{release_candidates}
use phone_cases_backend.Inventory.StockItems.{create}
use phone_cases_backend.Inventory.Runs.{created, ordered, no_stock, IsSound-no_stock, Reach-IsSound}
use phone_cases_backend.Inventory.Runs
use phone_cases_backend.Store.{
  Store, Order, Receipt, pending, confirmed, preparing, delivered, cancelled, unpaid, paid,
  partially_refunded, instapay_manual, pending_review, find_order, fulfillment_code, is_fulfillment,
}
use phone_cases_backend.Receipts.{accept_pending_receipt}
use phone_cases_backend.Refunds.{RefundRequest, already_refunded, record_refund}
use phone_cases_backend.Refunds.Agreement.{IsAgreed, Agrees}
use phone_cases_backend.Orders.Fulfillment.{update_fulfillment_status, move_order}
use phone_cases_backend.Orders.Payment.{update_payment_status, pay_order}
use phone_cases_backend.Orders.Expiry.{
  sweep_and_cancel, cancel_due_to_expiry, is_open, as_cancelled,
}
use phone_cases_backend.Orders.History.Expirations.{expires_exactly}
use phone_cases_backend.Inventory.Retire.{IsUnique}
use phone_cases_backend.Orders.Triage.{load_reservation_triage}
use phone_cases_backend.Orders.Triage.Coverage.{lost_of, fully_covered_iff}
use phone_cases_backend.Orders.Freed.{active_of, cancelled_frees, paid_consumes, IsSoldTo}
use phone_cases_backend.Orders.History.{is_lawful, is_settled, is_begun}
use phone_cases_backend.Orders.Runs.{
  Reach, here, next, fulfillment_updated, payment_updated, refund_recorded, order_goes_forward,
  instapay_paid_before_preparing, refunds_within_total, orders_never_oversell,
}

abbrev state_of : {A E S : Type 0} → S → Result E (A × S) → S
state_of d (ok (a, s)) = s
state_of d (err e) = d

abbrev order_7 : Order
order_7 = record {
  id = 7;
  cart = some 3;
  idempotency_key = 100;
  request_hash = 200;
  fulfillment = pending;
  payment = unpaid;
  method = instapay_manual;
  late_payment_flagged_at = none;
  late_payment_note = none;
  reservation_deadline = some 50_000;
  currency = 1;
  subtotal = 1_000;
  discount_total = 0;
  bundle_discount_total = 0;
  shipping_total = 0;
  total = 1_000;
  coupon = none;
  coupon_usage_released = false;
}

abbrev receipt_8 : Receipt
receipt_8 = record {
  id = 8;
  cart = 3;
  order = some 7;
  status = pending_review;
  reviewed_by = none;
  reviewed_at = none;
  expires_at = none;
}

abbrev holder : Holder
holder = record { cart = none; order = some 7; ttl = unset }

abbrev lines : List StockLine
lines = record { stock_item = 0; quantity = 2 } ∷ []

abbrev stocked : Inventory
stocked = state_of no_stock (create 10 (some 5) no_stock)

abbrev held : Inventory
held = state_of no_stock (reserve_many_in_transaction 1000 lines holder stocked)

abbrev placed : Store
placed = record {
  inventory = held;
  orders = order_7 ∷ [];
  coupons = λ _. none;
  receipts = receipt_8 ∷ [];
  refunds = [];
  audit = [];
  next_id = 9;
}

abbrev confirmed_state : Store
confirmed_state = (update_fulfillment_status 7 confirmed 1 2_000 placed).1

abbrev paid_state : Store
paid_state = (update_payment_status 7 paid 1 3_000 confirmed_state).1

abbrev preparing_state : Store
preparing_state = (update_fulfillment_status 7 preparing 1 4_000 paid_state).1

abbrev refund_of_300 : RefundRequest
refund_of_300 = record { amount = 300; currency = 1; idempotency_key = 55 }

abbrev refunded_state : Store
refunded_state = state_of preparing_state (record_refund 7 refund_of_300 1 preparing_state)

-- Preparing is refused while the payment has not come in.
too_early :
    (update_fulfillment_status 7 preparing 1 2_500 confirmed_state).0 ≡ err payment_not_confirmed
unfolding update_fulfillment_status create reserve_many_in_transaction update_where
too_early = refl

order_at_end : Order
order_at_end = record order_7 { fulfillment = preparing; payment = partially_refunded }

found_at_end : find_order 7 refunded_state ≡ some order_at_end
unfolding order_at_end update_fulfillment_status update_payment_status create
    reserve_many_in_transaction update_where record_refund consume_many_in_transaction
    accept_pending_receipt consume_row take_stock
found_at_end = refl

stock_at_end : refunded_state.inventory.stock 0 ≡ some (record { on_hand = 3; reserved = 0 })
unfolding update_fulfillment_status update_payment_status create reserve_many_in_transaction
    update_where record_refund consume_many_in_transaction accept_pending_receipt consume_row
    take_stock
stock_at_end = refl

-- Delivered orders are not cancelled, paid ones not expired.
not_cancellable :
    (update_fulfillment_status 7 cancelled 1 9_000
      (record placed { orders = record order_7 { fulfillment = delivered } ∷ [] })).0
    ≡ err invalid_state_transition
unfolding update_fulfillment_status
not_cancellable = refl

swept_away : (sweep_and_cancel 200 60_000 placed).0 ≡ (0, 1)
unfolding sweep_and_cancel release_candidates create reserve_many_in_transaction update_where
swept_away = refl

Reach-refunded_state : Reach placed refunded_state
unfolding update_fulfillment_status update_payment_status create reserve_many_in_transaction
    update_where record_refund consume_many_in_transaction accept_pending_receipt consume_row
    take_stock
Reach-refunded_state =
    next
      (next
        (next (next here (fulfillment_updated 7 confirmed 1 2_000 refl))
          (payment_updated 7 paid 1 3_000 refl))
        (fulfillment_updated 7 preparing 1 4_000 refl))
      (refund_recorded 7 refund_of_300 1
        (record { id = 9; order = 7; amount = 300; currency = 1; staff = 1; idempotency_key = 55 })
        (omega arith) refl)

placed-IsSound : IsSound placed.inventory
unfolding create reserve_many_in_transaction update_where
placed-IsSound =
    Reach-IsSound
      (Runs.next (Runs.next Runs.here (created 10 (some 5) 0 refl))
        (ordered 1000 lines holder (held.reservations) refl))
      IsSound-no_stock

only_order :
    (s : Store) (x : Order) (id : ℕ) (o : Order)
    → s.orders ≡ x ∷ []
    → find_order id s ≡ some o
    → o ≡ x
only_order s x id o one found = ground (arith, one, found)

placed-lawful : (id : ℕ) (o : Order) → find_order id placed ≡ some o → is_lawful o ≡ true
placed-lawful id o found = let same = only_order placed order_7 id o refl found in rw same refl

placed-IsAgreed : IsAgreed placed
placed-IsAgreed id o found = let same = only_order placed order_7 id o refl found in rw same refl

order_goes_forward_example :
    (o' : Order) × (find_order 7 refunded_state ≡ some o')
    × (o'.total ≡ 1_000)
    × (0 ≤ fulfillment_code o'.fulfillment)
    × (implies false (is_fulfillment o'.fulfillment delivered) ≡ true)
    × (implies false (is_fulfillment o'.fulfillment cancelled) ≡ true)
    × (implies false (is_settled o'.payment) ≡ true)
order_goes_forward_example =
    order_goes_forward placed refunded_state 7 order_7 Reach-refunded_state refl

instapay_paid_before_preparing_example :
    (implies (is_begun order_at_end.fulfillment) (is_settled order_at_end.payment) ≡ true)
    × (implies false (is_fulfillment order_at_end.fulfillment cancelled) ≡ true)
unfolding order_at_end
instapay_paid_before_preparing_example =
    instapay_paid_before_preparing placed refunded_state 7 order_at_end placed-lawful
      Reach-refunded_state found_at_end

refunds_within_total_example :
    (already_refunded 7 refunded_state ≤ order_at_end.total)
    × Agrees order_at_end.payment (already_refunded 7 refunded_state) order_at_end.total
refunds_within_total_example =
    refunds_within_total placed refunded_state 7 order_at_end placed-IsAgreed Reach-refunded_state
      found_at_end

orders_never_oversell_example :
    (0 ≡ active_sum 0 refunded_state.inventory.reservations)
    × (active_sum 0 refunded_state.inventory.reservations ≤ 3)
orders_never_oversell_example =
    orders_never_oversell placed refunded_state 0 (record { on_hand = 3; reserved = 0 })
      placed-IsSound Reach-refunded_state stock_at_end

placed-IsUnique : IsUnique placed.inventory.reservations
unfolding create reserve_many_in_transaction reserve_line update_where
placed-IsUnique id = ground arith

abbrev cancelled_order : Order
cancelled_order = record order_7 { fulfillment = cancelled }

abbrev cancelled_state : Store
cancelled_state = state_of placed (move_order order_7 cancelled 2_000 placed)

cancelled_frees_example : active_of 7 cancelled_state ≡ 0
unfolding move_order create reserve_many_in_transaction update_where
cancelled_frees_example =
    cancelled_frees order_7 2_000 placed cancelled_order cancelled_state refl placed-IsUnique refl

abbrev paid_order : Order
paid_order = record order_7 { payment = paid }

abbrev settled_state : Store
settled_state = state_of placed (pay_order order_7 paid 1 3_000 placed)

paid_consumes_example :
    (active_of 7 settled_state ≡ 0)
    × IsSoldTo 7 0 placed.inventory settled_state.inventory
    × (implies
          (load_reservation_triage 7 placed.inventory).has_any
          (load_reservation_triage 7 placed.inventory).fully_covered
        ≡ true)
unfolding pay_order create reserve_many_in_transaction update_where consume_many_in_transaction
    consume_row take_stock accept_pending_receipt
paid_consumes_example =
    paid_consumes order_7 1 3_000 0 placed paid_order settled_state refl placed-IsUnique refl

fully_covered_iff_example :
    ((load_reservation_triage 7 placed.inventory).fully_covered ≡ true)
    ↔ (sum_by (lost_of 7) placed.inventory.reservations ≡ 0)
fully_covered_iff_example = fully_covered_iff 7 placed.inventory

expires_exactly_example : ((cancel_due_to_expiry 7 60_000 placed).0 ≡ true) ↔ (
    (o : Order) × (find_order 7 placed ≡ some o)
    × (is_open o ≡ true)
    × (find_order 7 (cancel_due_to_expiry 7 60_000 placed).1 ≡ some (as_cancelled o))
    × ((later : ℕ)
        → (cancel_due_to_expiry 7 later (cancel_due_to_expiry 7 60_000 placed).1).0 ≡ false))
expires_exactly_example = expires_exactly 7 60_000 placed
