-- ===== src/Orders/Fulfillment/Effects.antt =====
-- What a transition of the fulfillment status did, when it was not refused.
use phone_cases_backend.Prelude.{
  ℕ, ◌≡◌, refl, Bool, true, false, not, ◌&&◌, Option, some, ◌==◌, if◌then◌else◌, Bool-cases, inl,
  inr, ◌⊎◌, arith,
}
use phone_cases_backend.Prelude.Results.{Tx, ok, bind_inv, modify, pure, ◌>>=◌, ◌>>◌}
use phone_cases_backend.Inventory.{released}
use phone_cases_backend.Inventory.Invariant.{IsSound}
use phone_cases_backend.Inventory.Runs.{pin-IsSound}
use phone_cases_backend.Inventory.Release.{pin_active_for_order}
use phone_cases_backend.Errors.{Error}
use phone_cases_backend.Store.{
  Store, Order, FulfillmentStatus, confirmed, cancelled, is_fulfillment, has_id, find_order,
}
use phone_cases_backend.Orders.Transitions.{may_move}
use phone_cases_backend.Orders.Triage.{load_reservation_triage}
use phone_cases_backend.Orders.Writes.{
  update_order, release_coupon_use, assert_stock_commitment_not_lost, release_order_stock,
  coupon_release_needed,
}
use phone_cases_backend.Orders.Frame.{
  SameOrders, release_order_stock-frame, release_coupon_use-frame, release_order_stock-IsSound,
  update_order_wrote,
}
use phone_cases_backend.Orders.Fulfillment.{
  confirm_stock, needs_payment, with_fulfillment, before_move, move_order, is_nonempty,
}

-- A confirmation went ahead on a complete commitment, and pinned it if there was any.
pub confirm_stock_inv :
    (id : ℕ) (s t : Store)
    → confirm_stock id s ≡ ok (tt, t)
    → let triage = load_reservation_triage id s.inventory in
      (triage.has_any && not triage.fully_covered ≡ false)
      × ((t ≡ s) ⊎ (t ≡ record s { inventory = pin_active_for_order id s.inventory }))
unfolding confirm_stock assert_stock_commitment_not_lost
confirm_stock_inv id s t e =
    elim (Bool-cases (is_nonempty (load_reservation_triage id s.inventory).active_ids)) [
      | inl some_held ↦ (ground (arith, some_held), inr (ground (arith, some_held)))
      | inr none_held ↦ (ground (arith, none_held), inl (ground (arith, none_held)))
    ]

confirm_stock-frame :
    (id : ℕ) (s t : Store)
    → confirm_stock id s ≡ ok (tt, t)
    → SameOrders s t × (IsSound s.inventory → IsSound t.inventory)
confirm_stock-frame id s t e = elim (confirm_stock_inv id s t e).1 [
  | inl same ↦ rw same (record { orders = refl; refunds = refl }, λ v. v)
  | inr pin ↦ rw pin (record { orders = refl; refunds = refl }, λ v. pin-IsSound id s.inventory v)
]

same_frame : (s t : Store) → s ≡ t → SameOrders s t × (IsSound s.inventory → IsSound t.inventory)
same_frame s t e = rw (← e) (record { orders = refl; refunds = refl }, λ v. v)

pub before_move-frame :
    (id : ℕ) (target : FulfillmentStatus) (now : ℕ) (s t : Store)
    → before_move id target now s ≡ ok (tt, t)
    → SameOrders s t × (IsSound s.inventory → IsSound t.inventory)
unfolding before_move
before_move-frame id confirmed now s t e = confirm_stock-frame id s t e
before_move-frame id cancelled now s t e =
    let done : t ≡ release_order_stock id released now s = ground arith in
    rw done (
      release_order_stock-frame id released now s,
      release_order_stock-IsSound id released now s refl,
    )
before_move-frame id _ now s t e = same_frame s t (cc)

-- What the transaction of a real move did: a move of the diagram, paid for where it has to be; the
-- order has its new status, and no other order has changed.
pub record Moved (s t : Store) (o o' : Order) (target : FulfillmentStatus) (now : ℕ) : Type 0 where
  pub allowed : may_move o.fulfillment target ≡ true
  pub paid_for : needs_payment o target ≡ false
  pub order_is :
      o' ≡ with_fulfillment target (is_fulfillment target cancelled && coupon_release_needed o) o
  pub orders : (j : ℕ) → find_order j t ≡ (if j == o.id then some o' else find_order j s)
  pub refunds : t.refunds ≡ s.refunds
  pub between : Store
  pub effects : before_move o.id target now s ≡ ok (tt, between)
  pub inventory : t.inventory ≡ between.inventory

-- The last statements of a move: the guarded write of the row, and the use of the coupon.
abbrev write_move : Order → FulfillmentStatus → Bool → Tx Store Error Order
write_move o target release = do
  o' ←
      update_order (λ x. has_id o.id x && is_fulfillment x.fulfillment o.fulfillment)
        (with_fulfillment target release)
  modify (if release then release_coupon_use o.coupon else λ t. t)
  pure o'

pub coupon_frame_if :
    (b : Bool) (c : Option ℕ) (s : Store)
    → let t = (if b then release_coupon_use c else λ t. t) s in
      (t.orders ≡ s.orders) × (t.refunds ≡ s.refunds) × (t.inventory ≡ s.inventory)
coupon_frame_if true c s =
    let (same, inventory) = release_coupon_use-frame c s in (same.orders, same.refunds, inventory)
coupon_frame_if false c s = (refl, refl, refl)

write_moved :
    (o : Order) (target : FulfillmentStatus) (release : Bool) (s : Store) (o' : Order) (t : Store)
    → find_order o.id s ≡ some o
    → write_move o target release s ≡ ok (o', t)
    → (o' ≡ with_fulfillment target release o)
      × ((j : ℕ) → find_order j t ≡ (if j == o.id then some o' else find_order j s))
      × (t.refunds ≡ s.refunds)
      × (t.inventory ≡ s.inventory)
write_moved o target release s o' t there e =
    let test = λ (x : Order). has_id o.id x && is_fulfillment x.fulfillment o.fulfillment in
    let set = with_fulfillment target release in
    let (x, s₂, did, e') = bind_inv (update_order test set) _ s o' t e in
    let (order_is, finds, refunds₂, inventory₂) =
      update_order_wrote test set s o x s₂ (λ y. refl) (λ y h. ground arith) there (ground arith)
        did in
    let (orders, refunds, inventory) = coupon_frame_if release o.coupon s₂ in
    let same : o' ≡ x = cc in
    let t_is : t ≡ (if release then release_coupon_use o.coupon else λ y. y) s₂ = cc in
    (
      rw same order_is,
      λ j. rw (t_is, orders, same) (finds j),
      rw (t_is, refunds) refunds₂,
      rw (t_is, inventory) inventory₂,
    )

pub move_order-Moved :
    (o : Order) (target : FulfillmentStatus) (now : ℕ) (s : Store) (o' : Order) (t : Store)
    → find_order o.id s ≡ some o
    → move_order o target now s ≡ ok (o', t)
    → Moved s t o o' target now
unfolding move_order
move_order-Moved o target now s o' t there e =
    let allowed : may_move o.fulfillment target ≡ true = ground arith in
    let paid_for : needs_payment o target ≡ false = ground (arith, allowed) in
    let release = is_fulfillment target cancelled && coupon_release_needed o in
    let e₁ = rw (allowed, paid_for) at e in
    let (u, s₁, first, e₂) = bind_inv (before_move o.id target now) _ s o' t e₁ in
    let (frame, sound) = before_move-frame o.id target now s s₁ first in
    let there₁ : find_order o.id s₁ ≡ some o = rw (frame.orders) there in
    let (order_is, finds, refunds, inventory) = write_moved o target release s₁ o' t there₁ e₂ in
    record {
      allowed = allowed;
      paid_for = paid_for;
      order_is = order_is;
      orders = λ j. rw (finds j, frame.orders) refl;
      refunds = rw refunds (frame.refunds);
      between = s₁;
      effects = first;
      inventory = inventory;
    }
