-- ===== src/Orders/Transitions.antt =====
-- `FULFILLMENT_TRANSITIONS` and `PAYMENT_TRANSITIONS` of src/modules/orders/orders.service.ts.
use phone_cases_backend.Prelude.{Bool, false, List, [], ◌∷◌, ◌||◌}
use phone_cases_backend.Store.{
  FulfillmentStatus, pending, confirmed, preparing, shipped, delivered, cancelled, is_fulfillment,
  PaymentStatus, unpaid, awaiting, paid, failed, partially_refunded, refunded, is_payment,
}

unfoldable pub fulfillment_transitions : FulfillmentStatus → List FulfillmentStatus
fulfillment_transitions pending = confirmed ∷ cancelled ∷ []
fulfillment_transitions confirmed = preparing ∷ cancelled ∷ []
fulfillment_transitions preparing = shipped ∷ cancelled ∷ []
fulfillment_transitions shipped = delivered ∷ []
fulfillment_transitions delivered = []
fulfillment_transitions cancelled = []

unfoldable pub payment_transitions : PaymentStatus → List PaymentStatus
payment_transitions unpaid = awaiting ∷ paid ∷ failed ∷ []
payment_transitions awaiting = paid ∷ failed ∷ []
payment_transitions failed = awaiting ∷ paid ∷ []
payment_transitions paid = partially_refunded ∷ refunded ∷ []
payment_transitions partially_refunded = refunded ∷ []
payment_transitions refunded = []

-- `allowed.includes(target)`
unfoldable pub includes_fulfillment : List FulfillmentStatus → FulfillmentStatus → Bool
includes_fulfillment [] b = false
includes_fulfillment (a ∷ as_) b = is_fulfillment a b || includes_fulfillment as_ b

unfoldable pub includes_payment : List PaymentStatus → PaymentStatus → Bool
includes_payment [] b = false
includes_payment (a ∷ as_) b = is_payment a b || includes_payment as_ b

unfoldable pub may_move : FulfillmentStatus → FulfillmentStatus → Bool
unfolding fulfillment_transitions includes_fulfillment
may_move a b = includes_fulfillment (fulfillment_transitions a) b

unfoldable pub may_pay : PaymentStatus → PaymentStatus → Bool
unfolding payment_transitions includes_payment
may_pay a b = includes_payment (payment_transitions a) b
