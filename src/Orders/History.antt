-- ===== src/Orders/History.antt =====
-- What every operation on an existing order keeps, and how far it may change the order.
pub mod Laws
pub mod Moves
pub mod Payments
pub mod Expirations
pub mod Returns
pub mod LatePayments
use phone_cases_backend.Prelude.{
  ℕ, ◌≤◌, ◌≡◌, Bool, true, false, not, ◌&&◌, ◌||◌, Option, none, some, ◌==◌,
}
use phone_cases_backend.Inventory.Invariant.{IsSound}
use phone_cases_backend.Store.{
  Store, Order, FulfillmentStatus, PaymentStatus, preparing, shipped, delivered, cancelled, paid,
  partially_refunded, refunded, fulfillment_code, is_fulfillment, is_payment, is_instapay,
  find_order,
}
use phone_cases_backend.Refunds.Agreement.{IsAgreed}

-- The money of the order has come in.
abbrev pub is_settled : PaymentStatus → Bool
is_settled p = is_payment p paid || is_payment p partially_refunded || is_payment p refunded

-- Work on the order has begun, so that an InstaPay order must be paid.
abbrev pub is_begun : FulfillmentStatus → Bool
is_begun f = is_fulfillment f preparing || is_fulfillment f shipped || is_fulfillment f delivered

abbrev pub is_lawful : Order → Bool
is_lawful o =
    (not (is_instapay o.method && is_begun o.fulfillment) || is_settled o.payment)
    && (not o.coupon_usage_released || is_fulfillment o.fulfillment cancelled)

-- What any number of operations may make of an order.
pub record Turn (o o' : Order) : Type 0 where
  pub same_id : o'.id ≡ o.id
  pub same_total : o'.total ≡ o.total
  pub same_key : o'.idempotency_key ≡ o.idempotency_key
  pub same_hash : o'.request_hash ≡ o.request_hash
  pub same_cart : o'.cart ≡ o.cart
  pub forward : fulfillment_code o.fulfillment ≤ fulfillment_code o'.fulfillment
  pub delivered_final :
      is_fulfillment o.fulfillment delivered ≡ true → o'.fulfillment ≡ o.fulfillment
  pub stays_settled : is_settled o.payment ≡ true → is_settled o'.payment ≡ true
  pub stays_lawful : is_lawful o ≡ true → is_lawful o' ≡ true

abbrev pub Turns : Option Order → Option Order → Type 0
Turns none none = Unit
Turns (some o) (some o') = Turn o o'
Turns _ _ = ⊥

-- The state `t` follows `s`: no order is lost or appears, each has turned lawfully, and the
-- invariants of the stock and of the refunds have been kept.
pub record Continues (s t : Store) : Type 0 where
  pub orders : (j : ℕ) → Turns (find_order j s) (find_order j t)
  pub sound : IsSound s.inventory → IsSound t.inventory
  pub agreed : IsAgreed s → IsAgreed t
