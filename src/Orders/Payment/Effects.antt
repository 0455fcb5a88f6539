-- ===== src/Orders/Payment/Effects.antt =====
-- What a change of the payment status did, when it was not refused.
use phone_cases_backend.Prelude.{
  ℕ, ◌≡◌, refl, true, false, not, ◌&&◌, some, List, ◌==◌, if◌then◌else◌, Bool-cases, List-cases,
  select, inl, inr, arith,
}
use phone_cases_backend.Prelude.Results.{ok, bind_inv}
use phone_cases_backend.Inventory.{Reservation, Inventory}
use phone_cases_backend.Inventory.Invariant.{IsSound}
use phone_cases_backend.Inventory.Consume.{consume_many_in_transaction}
use phone_cases_backend.Inventory.Consume.Sound.{consume_many-IsSound}
use phone_cases_backend.Store.{
  Store, Order, PaymentStatus, paid, is_fulfillment, is_payment, is_instapay, cancelled, has_id,
  find_order,
}
use phone_cases_backend.Receipts.{accept_pending_receipt, is_reviewable}
use phone_cases_backend.Orders.Transitions.{may_pay}
use phone_cases_backend.Orders.Triage.{load_reservation_triage}
use phone_cases_backend.Orders.Writes.{assert_stock_commitment_not_lost}
use phone_cases_backend.Orders.Frame.{SameOrders, update_order_wrote, in_inventory_inv}
use phone_cases_backend.Orders.Payment.{
  consume_stock, settle, before_payment, with_payment, pay_order,
}

-- A payment consumed exactly the active reservations of the order, on a complete commitment.
pub consume_stock_inv :
    (id staff now : ℕ) (s : Store) (rs : List Reservation) (t : Store)
    → consume_stock id staff now s ≡ ok (rs, t)
    → let triage = load_reservation_triage id s.inventory in
      (triage.has_any && not triage.fully_covered ≡ false)
      × (i : Inventory) × (consume_many_in_transaction triage.active_ids
            (some staff)
            now
            s.inventory
          ≡ ok (rs, i))
      × (t ≡ record s { inventory = i })
unfolding consume_stock assert_stock_commitment_not_lost
consume_stock_inv id staff now s rs t e =
    let triage = load_reservation_triage id s.inventory in
    let (u, s₁, checked, e₁) = bind_inv (assert_stock_commitment_not_lost triage) _ s rs t e in
    let same : s₁ ≡ s = ground (arith, checked) in
    let (i, took, t_is) =
      in_inventory_inv (consume_many_in_transaction triage.active_ids (some staff) now) s rs t
        (rw same at e₁) in
    (ground (arith, checked), i, took, t_is)

accept_pending_receipt-frame :
    (order staff now : ℕ) (s t : Store)
    → accept_pending_receipt order staff now s ≡ ok (tt, t)
    → SameOrders s t × (t.inventory ≡ s.inventory)
unfolding accept_pending_receipt
accept_pending_receipt-frame order staff now s t e =
    elim (List-cases (select (is_reviewable order) s.receipts)) [
      | inl nothing ↦ absurd (ground (arith, nothing))
      | inr (r, rs, pending) ↦
          let e' = rw (pending, accept_pending_receipt) at e in
          (record { orders = cc; refunds = cc }, cc)
    ]

-- The effects of a payment: the stock is consumed, and nothing else of the inventory changes.
pub settle_inv :
    (o : Order) (staff now : ℕ) (s t : Store)
    → settle o staff now s ≡ ok (tt, t)
    → (rs : List Reservation) × (s₁ : Store) × (consume_stock o.id staff now s ≡ ok (rs, s₁))
      × SameOrders s₁ t
      × (t.inventory ≡ s₁.inventory)
unfolding settle
settle_inv o staff now s t e =
    let (rs, s₁, sold, e₁) = bind_inv (consume_stock o.id staff now) _ s tt t e in
    elim (Bool-cases (is_instapay o.method)) [
      | inl instapay ↦
          let (same, inventory) =
            accept_pending_receipt-frame o.id staff now s₁ t (ground (arith, instapay, e₁)) in
          (rs, s₁, sold, same, inventory)
      | inr cash ↦
          let t_is : t ≡ s₁ = ground (arith, cash, e₁) in
          (rs, s₁, sold, record { orders = cc; refunds = cc }, cc)
    ]

settle-frame :
    (o : Order) (staff now : ℕ) (s t : Store)
    → settle o staff now s ≡ ok (tt, t)
    → SameOrders s t × (IsSound s.inventory → IsSound t.inventory)
settle-frame o staff now s t e =
    let (rs, s₁, sold, same, inventory) = settle_inv o staff now s t e in
    let (whole, i, took, s₁_is) = consume_stock_inv o.id staff now s rs s₁ sold in
    let ids = (load_reservation_triage o.id s.inventory).active_ids in
    (
      record { orders = rw (same.orders, s₁_is) refl; refunds = rw (same.refunds, s₁_is) refl },
      λ v.
          rw (inventory, s₁_is) (consume_many-IsSound ids (some staff) now s.inventory rs i v took),
    )

pub before_payment-frame :
    (o : Order) (target : PaymentStatus) (staff now : ℕ) (s t : Store)
    → before_payment o target staff now s ≡ ok (tt, t)
    → SameOrders s t × (IsSound s.inventory → IsSound t.inventory)
unfolding before_payment
before_payment-frame o paid staff now s t e = settle-frame o staff now s t e
before_payment-frame o _ staff now s t e =
    let t_is : t ≡ s = cc in rw t_is (record { orders = refl; refunds = refl }, λ v. v)

-- What the transaction of a payment status did.
pub record Paid (s t : Store) (o o' : Order) (target : PaymentStatus) (staff now : ℕ) : Type 0 where
  pub alive : is_fulfillment o.fulfillment cancelled ≡ false
  pub allowed : may_pay o.payment target ≡ true
  pub order_is : o' ≡ with_payment target o
  pub orders : (j : ℕ) → find_order j t ≡ (if j == o.id then some o' else find_order j s)
  pub refunds : t.refunds ≡ s.refunds
  pub between : Store
  pub effects : before_payment o target staff now s ≡ ok (tt, between)
  pub inventory : t.inventory ≡ between.inventory

pub pay_order-Paid :
    (o : Order) (target : PaymentStatus) (staff now : ℕ) (s : Store) (o' : Order) (t : Store)
    → find_order o.id s ≡ some o
    → pay_order o target staff now s ≡ ok (o', t)
    → Paid s t o o' target staff now
unfolding pay_order
pay_order-Paid o target staff now s o' t there e =
    let alive : is_fulfillment o.fulfillment cancelled ≡ false = ground arith in
    let allowed : may_pay o.payment target ≡ true = ground (arith, alive) in
    let e₁ = rw (alive, allowed) at e in
    let (u, s₁, first, e₂) = bind_inv (before_payment o target staff now) _ s o' t e₁ in
    let (frame, sound) = before_payment-frame o target staff now s s₁ first in
    let there₁ : find_order o.id s₁ ≡ some o = rw (frame.orders) there in
    let (order_is, finds, refunds, inventory) =
      update_order_wrote (λ x. has_id o.id x && is_payment x.payment o.payment)
        (with_payment target) s₁ o o' t (λ x. refl) (λ x h. ground arith) there₁ (ground arith)
        e₂ in
    record {
      alive = alive;
      allowed = allowed;
      order_is = order_is;
      orders = λ j. rw (finds j, frame.orders) refl;
      refunds = rw refunds (frame.refunds);
      between = s₁;
      effects = first;
      inventory = inventory;
    }
