-- ===== src/Receipts/Tests.antt =====
-- The receipts of one cart, and the theorems on receipts at them.
use phone_cases_backend.Prelude.{ℕ, ◌+◌, ◌≡◌, refl, true, false, none, some, [], ◌∷◌, sum_by, arith}
use phone_cases_backend.Prelude.Results.{Result, ok, err}
use phone_cases_backend.Prelude.Tables.{update_where}
use phone_cases_backend.Errors.{
  receipt_already_attached, replacement_not_allowed, too_many_pending_receipts,
}
use phone_cases_backend.Inventory.Runs.{no_stock}
use phone_cases_backend.Store.{
  Store, Order, pending, unpaid, paid, cancelled, instapay_manual, is_fulfillment, is_payment,
  find_order,
}
use phone_cases_backend.Receipts.{
  upload_for_cart, attach_to_order, reject_receipt, new_receipt, delete_expired_unattached,
}
use phone_cases_backend.Receipts.Attached.{
  IsUnique, belongs_to, attached_once, attached_survives_cleanup,
}
use phone_cases_backend.Receipts.Replacement.{
  latest_receipt, was_rejected, replace_receipt, replaced_once,
}

abbrev state_of : {A E : Type 0} → Result E (A × Store) → Store → Store
state_of (ok (a, s)) d = s
state_of (err e) d = d

abbrev order_7 : Order
order_7 = record {
  id = 7;
  cart = some 3;
  idempotency_key = 100;
  request_hash = 200;
  fulfillment = pending;
  payment = unpaid;
  method = instapay_manual;
  late_payment_flagged_at = none;
  late_payment_note = none;
  reservation_deadline = some 50_000;
  currency = 1;
  subtotal = 1_000;
  discount_total = 0;
  bundle_discount_total = 0;
  shipping_total = 0;
  total = 1_000;
  coupon = none;
  coupon_usage_released = false;
}

abbrev ordered : Store
ordered = record {
  inventory = no_stock;
  orders = order_7 ∷ [];
  coupons = λ _. none;
  receipts = [];
  refunds = [];
  audit = [];
  next_id = 9;
}

-- Two uploads of cart 3 (the receipts 9 and 10).
abbrev uploaded : Store
uploaded =
    state_of
      (upload_for_cart 5 60 3 2_000 (state_of (upload_for_cart 5 60 3 1_000 ordered) ordered))
      ordered

abbrev attached : Store
attached = state_of (attach_to_order 3 9 7 2_500 uploaded) uploaded

abbrev after_rejection : Store
after_rejection = state_of (reject_receipt 7 9 1 3_000 attached) attached

abbrev alone : Store → Store
alone s = s

abbrev replaced : Store
replaced = (replace_receipt 3 7 alone alone after_rejection).1

no_third : upload_for_cart 2 60 3 2_100 uploaded ≡ err too_many_pending_receipts
unfolding upload_for_cart
no_third = refl

cleaned_up : (delete_expired_unattached 200 9_000_000 attached).0 ≡ 1
unfolding delete_expired_unattached attach_to_order upload_for_cart update_where
cleaned_up = refl

uploaded-IsUnique : IsUnique 9 uploaded
unfolding upload_for_cart
uploaded-IsUnique = ground arith

attached_once_example :
    (sum_by (belongs_to 7) attached.receipts ≡ sum_by (belongs_to 7) uploaded.receipts + 1)
    × ((cart' order' now' : ℕ)
        → attach_to_order cart' 9 order' now' attached ≡ err receipt_already_attached)
unfolding attach_to_order upload_for_cart update_where
attached_once_example = attached_once 3 9 7 2_500 uploaded attached uploaded-IsUnique refl

attached_survives_cleanup_example :
    sum_by (belongs_to 7) (delete_expired_unattached 200 9_000_000 attached).1.receipts
    ≡ sum_by (belongs_to 7) attached.receipts
attached_survives_cleanup_example = attached_survives_cleanup 7 200 9_000_000 attached

replaced_once_example :
    (o : Order) × (find_order 7 after_rejection ≡ some o)
    × (is_fulfillment o.fulfillment cancelled ≡ false)
    × (is_payment o.payment paid ≡ false)
    × (was_rejected (latest_receipt 7 after_rejection) ≡ true)
    × (latest_receipt 7 replaced ≡ some (new_receipt 11 3 (some 7) none))
    × ¬ (replace_receipt 3 7 alone alone replaced ≡ (ok 12, replaced))
unfolding replace_receipt reject_receipt attach_to_order upload_for_cart update_where
replaced_once_example =
    replaced_once 3 3 7 11 12 alone alone alone alone after_rejection replaced replaced replaced
      refl refl

-- Two replacements that overlap both go through: the second reads before the first inserts.
both_replaced :
    (replace_receipt 3 7 alone (λ s. (replace_receipt 3 7 alone alone s).1) after_rejection).0
    ≡ ok 12
unfolding replace_receipt reject_receipt attach_to_order upload_for_cart update_where
both_replaced = refl

-- One that begins afterwards is refused.
second_refused : (replace_receipt 3 7 alone alone replaced).0 ≡ err replacement_not_allowed
unfolding replace_receipt reject_receipt attach_to_order upload_for_cart update_where
second_refused = refl
