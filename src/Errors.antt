-- ===== src/Errors.antt =====
-- What a request can be refused with: the exceptions of src/common/exceptions/app.exception.ts and
-- the codes that the services throw. Messages are left out; ids and quantities are kept.
use phone_cases_backend.Prelude.{ℕ}

pub data Error : Type 0 where
  bad_request not_unique : Error
  resource_not_found : ℕ → Error
  insufficient_stock : ℕ → ℕ → Error
  invalid_state_transition counters_inconsistent order_state_changed : Error
  idempotency_key_reused cart_already_ordered cart_not_active : Error
  items_unavailable price_changed shipping_rate_not_available : Error
  coupon_not_applicable coupon_usage_limit_reached : Error
  payment_not_confirmed stock_reservation_lost use_refunds_endpoint : Error
  refund_exceeds_paid_amount return_exceeds_purchased_quantity : Error
  receipt_not_found receipt_already_attached receipt_expired no_pending_receipt : Error
  too_many_pending_receipts replacement_not_applicable order_cancelled order_already_paid : Error
  replacement_not_allowed order_not_found : Error
  variant_not_purchasable variant_not_personalizable : Error
  custom_design_variant_mismatch custom_design_already_attached : Error
