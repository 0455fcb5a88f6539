-- ===== src/Refunds/Tests.antt =====
-- The refunds and returns of one order, and the theorems on them.
use phone_cases_backend.Prelude.{ℕ, ◌+◌, ◌≤◌, ◌≡◌, ◌↔◌, refl, false, none, some, [], ◌∷◌, arith}
use phone_cases_backend.Prelude.Results.{Result, ok, err}
use phone_cases_backend.Errors.{Error, refund_exceeds_paid_amount}
use phone_cases_backend.Inventory.Runs.{no_stock}
use phone_cases_backend.Store.{
  Store, Order, Refund, delivered, paid, cash_on_delivery, find_order, item_return_recorded,
}
use phone_cases_backend.Refunds.{RefundRequest, record_refund}
use phone_cases_backend.Refunds.Agreement.{IsAgreed, record_refund-IsAgreed}
use phone_cases_backend.Refunds.Returns.{
  OrderItem, ItemReturn, Lines, already_returned, record_item_return, IsReturnable,
  record_item_return_iff, record_item_return-IsReturnable,
}

abbrev three_cases : OrderItem
three_cases = record { id = 4; order = 7; quantity = 3 }

abbrev one_line : Lines
one_line = record { items = three_cases ∷ []; returns = []; audit = [] }

abbrev two_back : ItemReturn
two_back = record { item = 4; quantity = 2; staff = 1 }

abbrev two_returned : Lines
two_returned = record {
  items = three_cases ∷ [];
  returns = two_back ∷ [];
  audit = record { staff = some 1; action = item_return_recorded 2; entity = 4 } ∷ [];
}

record_item_return_iff_example :
    ((r : ItemReturn) × (t : Lines) × (record_item_return 7 4 1 1 two_returned ≡ ok (r, t))
      × (already_returned 4 t ≡ already_returned 4 two_returned + 1))
    ↔ (already_returned 4 two_returned + 1 ≤ 3)
record_item_return_iff_example = record_item_return_iff 7 4 1 1 two_returned three_cases refl refl

one_line-IsReturnable : IsReturnable one_line
one_line-IsReturnable id i there = ground arith

record_item_return-IsReturnable_example : IsReturnable two_returned
unfolding record_item_return
record_item_return-IsReturnable_example =
    record_item_return-IsReturnable 7 4 2 1 one_line two_back two_returned one_line-IsReturnable
      refl

abbrev paid_order : Order
paid_order = record {
  id = 7;
  cart = some 3;
  idempotency_key = 100;
  request_hash = 200;
  fulfillment = delivered;
  payment = paid;
  method = cash_on_delivery;
  late_payment_flagged_at = none;
  late_payment_note = none;
  reservation_deadline = none;
  currency = 1;
  subtotal = 1_000;
  discount_total = 0;
  bundle_discount_total = 0;
  shipping_total = 0;
  total = 1_000;
  coupon = none;
  coupon_usage_released = false;
}

abbrev delivered_state : Store
delivered_state = record {
  inventory = no_stock;
  orders = paid_order ∷ [];
  coupons = λ _. none;
  receipts = [];
  refunds = [];
  audit = [];
  next_id = 9;
}

abbrev refund_of_300 : RefundRequest
refund_of_300 = record { amount = 300; currency = 1; idempotency_key = 55 }

abbrev state_of : Result Error (Refund × Store) → Store
state_of (ok (r, s)) = s
state_of (err e) = delivered_state

abbrev refund_9 : Refund
refund_9 = record { id = 9; order = 7; amount = 300; currency = 1; staff = 1; idempotency_key = 55 }

abbrev refunded_state : Store
refunded_state = state_of (record_refund 7 refund_of_300 1 delivered_state)

over_refund :
    record_refund 7 (record { amount = 701; currency = 1; idempotency_key = 56 }) 1 refunded_state
    ≡ err refund_exceeds_paid_amount
unfolding record_refund
over_refund = refl

only_order : (id : ℕ) (o : Order) → find_order id delivered_state ≡ some o → o ≡ paid_order
only_order id o found = ground (arith, found)

delivered_state-IsAgreed : IsAgreed delivered_state
delivered_state-IsAgreed id o found = let same = only_order id o found in rw same refl

record_refund-IsAgreed_example : IsAgreed refunded_state
unfolding record_refund
record_refund-IsAgreed_example =
    record_refund-IsAgreed 7 refund_of_300 1 delivered_state refund_9 refunded_state (omega arith)
      delivered_state-IsAgreed refl
