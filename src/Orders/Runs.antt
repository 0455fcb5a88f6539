-- ===== src/Orders/Runs.antt =====
-- Any interleaving of the operations on a database with orders in it.
use phone_cases_backend.Prelude.{
  ◌&&◌, implies, implies_intro, true, ℕ, ◌≤◌, ◌<◌, ◌≡◌, refl, true, some, Option-cases, inl, inr,
  arith,
}
use phone_cases_backend.Prelude.Results.{ok}
use phone_cases_backend.Inventory.{Inventory, StockItem}
use phone_cases_backend.Inventory.Invariant.{IsSound, active_sum}
use phone_cases_backend.Inventory.Runs.{Step-IsSound}
use phone_cases_backend.Inventory.Runs
use phone_cases_backend.Store.{
  Store, Order, FulfillmentStatus, PaymentStatus, unpaid, awaiting, paid, failed,
  partially_refunded, refunded, Refund, fulfillment_code, delivered, cancelled, is_fulfillment,
  is_instapay, find_order,
}
use phone_cases_backend.Refunds.{RefundRequest, already_refunded, record_refund}
use phone_cases_backend.Refunds.Agreement.{Agrees, IsAgreed}
use phone_cases_backend.Orders.Fulfillment.{update_fulfillment_status}
use phone_cases_backend.Orders.Payment.{update_payment_status, flag_late_payment}
use phone_cases_backend.Orders.Expiry.{cancel_due_to_expiry, sweep_and_cancel}
use phone_cases_backend.Orders.History.{is_settled, is_begun, is_lawful, Turn, Turns, Continues}
use phone_cases_backend.Orders.History.Laws.{Continues-refl, Continues-trans, Continues-frame}
use phone_cases_backend.Orders.History.Moves.{update_fulfillment_status-Continues}
use phone_cases_backend.Orders.History.Payments.{update_payment_status-Continues}
use phone_cases_backend.Orders.History.Expirations.{
  cancel_due_to_expiry-Continues, sweep_and_cancel-Continues,
}
use phone_cases_backend.Orders.History.LatePayments.{flag_late_payment-Continues}
use phone_cases_backend.Orders.History.Returns.{record_refund-Continues}

-- One request or job, whatever its outcome. A refund is of a positive amount, as the validation of
-- the request demands. The last two are what carts and visitors do: any operation on the
-- inventory, and writes to coupons, receipts and the audit log.
pub data Step (s t : Store) : Type 0 where
  fulfillment_updated :
      (id : ℕ) (target : FulfillmentStatus) (staff now : ℕ)
      → t ≡ (update_fulfillment_status id target staff now s).1
      → Step s t
  payment_updated :
      (id : ℕ) (target : PaymentStatus) (staff now : ℕ)
      → t ≡ (update_payment_status id target staff now s).1
      → Step s t
  refund_recorded :
      (id : ℕ) (q : RefundRequest) (staff : ℕ) (r : Refund)
      → 0 < q.amount
      → record_refund id q staff s ≡ ok (r, t)
      → Step s t
  late_payment_flagged :
      (id note staff now : ℕ) (o : Order)
      → flag_late_payment id note staff now s ≡ ok (o, t)
      → Step s t
  order_expired : (id now : ℕ) → t ≡ (cancel_due_to_expiry id now s).1 → Step s t
  swept : (limit now : ℕ) → t ≡ (sweep_and_cancel limit now s).1 → Step s t
  stocked : (i : Inventory) → Runs.Step s.inventory i → t ≡ record s { inventory = i } → Step s t
  elsewhere :
      t ≡ record s {
        coupons = t.coupons;
        receipts = t.receipts;
        audit = t.audit;
        next_id = t.next_id;
      }
      → Step s t

pub data Reach (s : Store) : Store → Type 0 where
  here : Reach s s
  next : {t u : Store} → Reach s t → Step t u → Reach s u

pub Step-Continues : {s t : Store} → Step s t → Continues s t
Step-Continues {s} (fulfillment_updated id target staff now e) =
    rw e (update_fulfillment_status-Continues id target staff now s)
Step-Continues {s} (payment_updated id target staff now e) =
    rw e (update_payment_status-Continues id target staff now s)
Step-Continues {s} {t} (refund_recorded id q staff r some_money e) =
    record_refund-Continues id q staff s r t some_money e
Step-Continues {s} {t} (late_payment_flagged id note staff now o e) =
    flag_late_payment-Continues id note staff now s o t e
Step-Continues {s} (order_expired id now e) = rw e (cancel_due_to_expiry-Continues id now s)
Step-Continues {s} (swept limit now e) = rw e (sweep_and_cancel-Continues limit now s)
Step-Continues {s} (stocked i st e) =
    rw e (Continues-frame s (record s { inventory = i }) refl refl (λ v. Step-IsSound st v))
Step-Continues {s} {t} (elsewhere e) =
    Continues-frame s t (cc) (cc) (λ v. let same : t.inventory ≡ s.inventory = cc in rw same v)

pub Reach-Continues : {s t : Store} → Reach s t → Continues s t
Reach-Continues {s} here = Continues-refl s
Reach-Continues {s} (next {t} {u} r st) =
    Continues-trans s t u (Reach-Continues r) (Step-Continues st)

pub order_follows :
    (id : ℕ) (s t : Store) (o : Order)
    → Turns (find_order id s) (find_order id t)
    → find_order id s ≡ some o
    → (o' : Order) × (find_order id t ≡ some o') × Turn o o'
order_follows id s t o turns there = elim (Option-cases (find_order id t)) [
  | inl gone ↦ absurd (rw (there, gone) at turns)
  | inr (o', found) ↦ (o', found, rw (there, found) at turns)
]

order_precedes :
    (id : ℕ) (s t : Store) (o' : Order)
    → Turns (find_order id s) (find_order id t)
    → find_order id t ≡ some o'
    → (o : Order) × (find_order id s ≡ some o) × Turn o o'
order_precedes id s t o' turns found = elim (Option-cases (find_order id s)) [
  | inl gone ↦ absurd (rw (gone, found) at turns)
  | inr (o, there) ↦ (o, there, rw (there, found) at turns)
]

-- However requests and jobs interleave, an order is never lost, its total stays as it was placed,
-- its fulfillment only goes forward, a delivered or cancelled order stays so, and an order whose
-- money has come in never counts as unpaid again.
pub order_goes_forward :
    (s t : Store) (id : ℕ) (o : Order)
    → Reach s t
    → find_order id s ≡ some o
    → (o' : Order) × (find_order id t ≡ some o')
      × (o'.total ≡ o.total)
      × (fulfillment_code o.fulfillment ≤ fulfillment_code o'.fulfillment)
      × (implies (is_fulfillment o.fulfillment delivered) (is_fulfillment o'.fulfillment delivered)
          ≡ true)
      × (implies (is_fulfillment o.fulfillment cancelled) (is_fulfillment o'.fulfillment cancelled)
          ≡ true)
      × (implies (is_settled o.payment) (is_settled o'.payment) ≡ true)
order_goes_forward s t id o run there =
    let turns = (Reach-Continues run).orders id in
    let (o', found, turn) = order_follows id s t o turns there in
    (
      o',
      found,
      turn.same_total,
      turn.forward,
      implies_intro (is_fulfillment o.fulfillment delivered)
          (is_fulfillment o'.fulfillment delivered)
          (λ h. ground (arith, turn.delivered_final h, h)),
      implies_intro _ _ (λ h. stays_cancelled o.fulfillment o'.fulfillment (turn.forward) h),
      implies_intro _ _ (turn.stays_settled),
    )
  where
    stays_cancelled :
        (a b : FulfillmentStatus)
        → fulfillment_code a ≤ fulfillment_code b
        → is_fulfillment a cancelled ≡ true
        → is_fulfillment b cancelled ≡ true
    stays_cancelled a b le h = ground arith

-- However requests and jobs interleave, from a database whose orders are lawful on: an InstaPay
-- order that is being prepared, has been shipped or delivered has been paid, and only a cancelled
-- order has given the use of its coupon back.
pub instapay_paid_before_preparing :
    (s t : Store) (id : ℕ) (o : Order)
    → ((j : ℕ) (x : Order) → find_order j s ≡ some x → is_lawful x ≡ true)
    → Reach s t
    → find_order id t ≡ some o
    → (implies (is_instapay o.method && is_begun o.fulfillment) (is_settled o.payment) ≡ true)
      × (implies o.coupon_usage_released (is_fulfillment o.fulfillment cancelled) ≡ true)
instapay_paid_before_preparing s t id o lawful run found =
    let (x, there, turn) = order_precedes id s t o ((Reach-Continues run).orders id) found in
    let is : is_lawful o ≡ true = turn.stays_lawful (lawful id x there) in
    (
      implies_intro (is_instapay o.method && is_begun o.fulfillment) (is_settled o.payment)
          (λ h. ground (arith, is, h)),
      implies_intro o.coupon_usage_released (is_fulfillment o.fulfillment cancelled)
          (λ h. ground (arith, is, h)),
    )

-- However requests and jobs interleave, from a database whose payment statuses agree with its
-- refunds on and with refunds of positive amounts: the refunds of an order never exceed its total; they reach it when the order is
-- `refunded`, are a part of it when it is `partially_refunded`, and none otherwise.
pub refunds_within_total :
    (s t : Store) (id : ℕ) (o : Order)
    → IsAgreed s
    → Reach s t
    → find_order id t ≡ some o
    → (already_refunded id t ≤ o.total) × Agrees o.payment (already_refunded id t) o.total
refunds_within_total s t id o v run found =
    let agreed = (Reach-Continues run).agreed v id o found in
    (bounded o.payment (already_refunded id t) o.total agreed, agreed)
  where
    bounded : (p : PaymentStatus) (n total : ℕ) → Agrees p n total → n ≤ total
    bounded unpaid n total h = omega arith
    bounded awaiting n total h = omega arith
    bounded paid n total h = omega arith
    bounded failed n total h = omega arith
    bounded partially_refunded n total h = omega arith
    bounded refunded n total h = omega arith

-- However requests and jobs interleave, from sound stock counters on and with corrections by hand
-- that leave enough for the active holds: moves, payments, refunds and expiries of orders keep the
-- reserved units of every stock item at the total of its active reservations, and within the units
-- on hand.
pub orders_never_oversell :
    (s t : Store) (k : ℕ) (it : StockItem)
    → IsSound s.inventory
    → Reach s t
    → t.inventory.stock k ≡ some it
    → (it.reserved ≡ active_sum k t.inventory.reservations)
      × (active_sum k t.inventory.reservations ≤ it.on_hand)
orders_never_oversell s t k it v run there =
    let v' = (Reach-Continues run).sound v in ground (arith, v'.counted k, v'.backed k, there)
