-- ===== src/Refunds.antt =====
-- Refunds and returns: `RefundsService` of src/modules/orders/refunds/refunds.service.ts.
pub mod Agreement
pub mod Returns
mod Tests
use phone_cases_backend.Prelude.{
  ℕ, ◌+◌, Bool, true, false, not, ◌&&◌, ◌||◌, Option, none, some, List, [], ◌∷◌, ◌++◌, ltb, leb,
  ◌==◌, sum_by, if◌then◌else◌,
}
use phone_cases_backend.Prelude.Results.{Tx, ok, err, pure, throw, guard, or_throw, ◌>>=◌, ◌>>◌}
use phone_cases_backend.Prelude.Tables.{find_first, update_all}
use phone_cases_backend.Errors.{
  Error, resource_not_found, idempotency_key_reused, invalid_state_transition, bad_request,
  refund_exceeds_paid_amount,
}
use phone_cases_backend.Store.{
  Store, Order, Refund, PaymentStatus, paid, partially_refunded, refunded, is_payment, has_id,
  find_order, refund_recorded, record_audit,
}

-- `CreateRefundDto`
pub record RefundRequest : Type 0 where
  pub amount : ℕ
  pub currency : ℕ
  pub idempotency_key : ℕ

-- The amount of a refund if it is of the given order: the terms of `_sum: { amount }`.
abbrev pub refunded_on : ℕ → Refund → ℕ
refunded_on order r = if r.order == order then r.amount else 0

abbrev pub already_refunded : ℕ → Store → ℕ
already_refunded order s = sum_by (refunded_on order) s.refunds

abbrev pub find_refund : ℕ → Store → Option Refund
find_refund key s = find_first (λ r. r.idempotency_key == key) s.refunds

abbrev pub is_refundable : PaymentStatus → Bool
is_refundable p = is_payment p paid || is_payment p partially_refunded

abbrev pub status_after : ℕ → ℕ → PaymentStatus
status_after new_total total = if leb total new_total then refunded else partially_refunded

abbrev pub new_refund : ℕ → ℕ → RefundRequest → ℕ → Refund
new_refund id order q staff = record {
  id = id;
  order = order;
  amount = q.amount;
  currency = q.currency;
  staff = staff;
  idempotency_key = q.idempotency_key;
}

-- The writes of a refund that was accepted: the row, the derived status, the audit entry.
unfoldable pub write_refund : ℕ → RefundRequest → ℕ → ℕ → Order → Tx Store Error Refund
write_refund order q staff new_total o s =
    let r = new_refund s.next_id order q staff in
    let status = status_after new_total o.total in
    ok (
      r,
      record_audit (some staff) (refund_recorded q.amount status) order (record s {
        refunds = s.refunds ++ (r ∷ []);
        orders = update_all (has_id order) (λ x. record x { payment = status }) s.orders;
        next_id = s.next_id + 1;
      }),
    )

unfoldable pub new_refund_on : ℕ → RefundRequest → ℕ → Order → Tx Store Error Refund
unfolding write_refund
new_refund_on order q staff o s =
    (do
      guard (is_refundable o.payment) invalid_state_transition
      guard (q.currency == o.currency) bad_request
      let new_total = already_refunded order s + q.amount
      guard (not (ltb o.total new_total)) refund_exceeds_paid_amount
      write_refund order q staff new_total o)
      s

-- `recordRefund`. A key that was used before returns the refund of that time, for the same order.
unfoldable pub record_refund : ℕ → RefundRequest → ℕ → Tx Store Error Refund
unfolding new_refund_on
record_refund order q staff s =
    (do
      o ← or_throw (find_order order s) (resource_not_found order)
      elim (find_refund q.idempotency_key s) [
        | none ↦ new_refund_on order q staff o
        | some r ↦ if r.order == order then pure r else throw idempotency_key_reused
      ])
      s
