-- ===== src/Orders/History/Expirations.antt =====
-- The cancellation of overdue orders, and the sweep, as steps of an order's history.
use phone_cases_backend.Prelude.{
  ℕ, ◌≡◌, ◌↔◌, refl, ap, Bool, true, false, not, ◌&&◌, none, some, List, [], ◌∷◌, ◌==◌,
  if◌then◌else◌, map, select, take, Option-cases, Bool-cases, inl, inr, arith,
}
use phone_cases_backend.Prelude.Keyed.{find_key_has, update_where_found}
use phone_cases_backend.Inventory.{expired}
use phone_cases_backend.Inventory.Sweep.{release_all_expired, expired_ids}
use phone_cases_backend.Inventory.Sweep.Sound.{release_candidates-IsSound}
use phone_cases_backend.Store.{Store, Order, has_id, find_order}
use phone_cases_backend.Orders.Writes.{release_coupon_use, release_order_stock}
use phone_cases_backend.Orders.Frame.{release_order_stock-frame, release_order_stock-IsSound}
use phone_cases_backend.Orders.Fulfillment.Effects.{coupon_frame_if}
use phone_cases_backend.Orders.Expiry.{
  is_open, as_cancelled, expire_order, expire_transaction, audit_expiry, cancel_due_to_expiry,
  is_overdue, cancel_each, cancel_expired_orders, sweep_and_cancel,
}
use phone_cases_backend.Orders.History.{Turn, Continues}
use phone_cases_backend.Orders.History.Laws.{
  Continues-refl, Continues-trans, Continues-frame, Turns-write, IsAgreed-write,
}

cancelled-Turn : (o : Order) → is_open o ≡ true → Turn o (as_cancelled o)
cancelled-Turn o open_ = record {
  same_id = refl;
  same_total = refl;
  same_key = refl;
  same_hash = refl;
  same_cart = refl;
  forward = ground arith;
  delivered_final = λ h. absurd (ground arith);
  stays_settled = λ h. h;
  stays_lawful = λ h. ground arith;
}

-- The cancellation of an open order always goes through.
pub expire_order-Continues :
    (o : Order) (now : ℕ) (s : Store)
    → find_order o.id s ≡ some o
    → is_open o ≡ true
    → ((expire_order o now s).0 ≡ true)
      × ((j : ℕ)
          → find_order j (expire_order o now s).1
            ≡ (if j == o.id then some (as_cancelled o) else find_order j s))
      × Continues s (expire_order o now s).1
unfolding expire_order
expire_order-Continues o now s there open_ =
    let (os, (done, finds, totals)) =
      update_where_found (λ (x : Order). x.id) (λ x. has_id o.id x && is_open x) as_cancelled o.id
        s.orders o (λ x. refl) (λ x h. ground arith) there (ground arith) in
    let t = release_order_stock o.id expired now (record s { orders = os }) in
    let (orders, refunds, inventory) = coupon_frame_if (not o.coupon_usage_released) o.coupon t in
    let stock = release_order_stock-frame o.id expired now (record s { orders = os }) in
    let u = (if not o.coupon_usage_released then release_coupon_use o.coupon else λ x. x) t in
    let found : (j : ℕ)
        → find_order j u ≡ (if j == o.id then some (as_cancelled o) else find_order j s) =
      λ j. rw (orders, stock.orders) (finds j) in
    rw (done, expire_order)
      (
        refl,
        found,
        record {
          orders = Turns-write s u o.id o (as_cancelled o) there found (cancelled-Turn o open_);
          sound = λ v.
              rw inventory
                (release_order_stock-IsSound o.id expired now (record s { orders = os }) refl v);
          agreed =
              IsAgreed-write s u o.id o (as_cancelled o) there found (rw refunds (stock.refunds))
                (λ n h. h);
        },
      )

-- Whatever the outcome: the order gone, no longer open, or cancelled.
pub cancel_due_to_expiry-Continues :
    (id now : ℕ) (s : Store) → Continues s (cancel_due_to_expiry id now s).1
unfolding cancel_due_to_expiry expire_transaction
cancel_due_to_expiry-Continues id now s = elim (Option-cases (find_order id s)) [
  | inl gone ↦ rw (gone, cancel_due_to_expiry) (Continues-refl s)
  | inr (o, there) ↦ elim (Bool-cases (is_open o)) [
    | inr closed ↦ rw (there, closed, cancel_due_to_expiry) (Continues-refl s)
    | inl open_ ↦
        let here : o.id ≡ id = find_key_has (λ (x : Order). x.id) id s.orders o there in
        let (done, finds, kept) = expire_order-Continues o now s (cc) open_ in
        let run : expire_transaction id now s ≡ expire_order o now s =
          ground (arith, there, open_) in
        rw (there, open_, cancel_due_to_expiry)
          (audited (expire_transaction id now s) (rw run kept))
  ]
]
  where
    audited : (r : Bool × Store) → Continues s r.1 → Continues s (audit_expiry id r).1
    audited (false, t) c = c
    audited (true, t) c = Continues-trans s t _ c (Continues-frame t _ refl refl (λ v. v))

cancel_each-Continues : (ids : List ℕ) (now : ℕ) (s : Store) → Continues s (cancel_each ids now s).1
unfolding cancel_each
cancel_each-Continues [] now s = Continues-refl s
cancel_each-Continues (id ∷ ids) now s =
    let t = (cancel_due_to_expiry id now s).1 in
    Continues-trans s t _ (cancel_due_to_expiry-Continues id now s)
      (cancel_each-Continues ids now t)

pub sweep_and_cancel-Continues :
    (limit now : ℕ) (s : Store) → Continues s (sweep_and_cancel limit now s).1
unfolding sweep_and_cancel cancel_expired_orders release_all_expired
sweep_and_cancel-Continues limit now s =
    let ids = take limit (expired_ids (λ _. true) now s.inventory) in
    let t = record s { inventory = (release_all_expired limit now s.inventory).1 } in
    let overdue = take limit (map (λ o. o.id) (select (is_overdue now) t.orders)) in
    Continues-trans s t _
      (Continues-frame s t refl refl (λ v. release_candidates-IsSound ids now s.inventory v))
      (cancel_each-Continues overdue now t)

audit_expiry_same :
    (id : ℕ) (r : Bool × Store)
    → ((audit_expiry id r).0 ≡ r.0) × ((audit_expiry id r).1.orders ≡ r.1.orders)
audit_expiry_same id (false, t) = (refl, refl)
audit_expiry_same id (true, t) = (refl, refl)

expiry_run :
    (id now : ℕ) (s : Store) (o : Order)
    → find_order id s ≡ some o
    → is_open o ≡ true
    → cancel_due_to_expiry id now s ≡ audit_expiry id (expire_order o now s)
unfolding cancel_due_to_expiry expire_transaction
expiry_run id now s o there open_ =
    let inner : expire_transaction id now s ≡ expire_order o now s = ground (arith, there, open_) in
    rw (there, open_, cancel_due_to_expiry) (ap (audit_expiry id) inner)

missing_not_expired :
    (id now : ℕ) (s : Store) → find_order id s ≡ none → (cancel_due_to_expiry id now s).0 ≡ false
unfolding cancel_due_to_expiry
missing_not_expired id now s gone = rw (gone, cancel_due_to_expiry) refl

closed_not_expired :
    (id now : ℕ) (s : Store) (o : Order)
    → find_order id s ≡ some o
    → is_open o ≡ false
    → (cancel_due_to_expiry id now s).0 ≡ false
unfolding cancel_due_to_expiry
closed_not_expired id now s o there closed = rw (there, closed, cancel_due_to_expiry) refl

-- The expiry of an order goes through exactly when the order is pending and unpaid; the order is
-- cancelled then, so that a second attempt does nothing.
pub expires_exactly :
    (id now : ℕ) (s : Store)
    → ((cancel_due_to_expiry id now s).0 ≡ true) ↔ (
        (o : Order) × (find_order id s ≡ some o)
        × (is_open o ≡ true)
        × (find_order id (cancel_due_to_expiry id now s).1 ≡ some (as_cancelled o))
        × ((later : ℕ)
            → (cancel_due_to_expiry id later (cancel_due_to_expiry id now s).1).0 ≡ false))
expires_exactly id now s =
    (there_and_open, λ (o, there, open_, after, again). (went_through o there open_).0)
  where
    went_through :
        (o : Order)
        → find_order id s ≡ some o
        → is_open o ≡ true
        → ((cancel_due_to_expiry id now s).0 ≡ true)
          × (find_order id (cancel_due_to_expiry id now s).1 ≡ some (as_cancelled o))
    went_through o there open_ =
        let here : o.id ≡ id = find_key_has (λ (x : Order). x.id) id s.orders o there in
        let (done, finds, kept) = expire_order-Continues o now s (cc) open_ in
        let (result, orders) = audit_expiry_same id (expire_order o now s) in
        let run = expiry_run id now s o there open_ in
        (rw (run, result) done, rw (run, orders) (ground (arith, finds id, here)))

    there_and_open :
        (cancel_due_to_expiry id now s).0 ≡ true
        → (o : Order) × (find_order id s ≡ some o)
          × (is_open o ≡ true)
          × (find_order id (cancel_due_to_expiry id now s).1 ≡ some (as_cancelled o))
          × ((later : ℕ)
              → (cancel_due_to_expiry id later (cancel_due_to_expiry id now s).1).0 ≡ false)
    there_and_open e = elim (Option-cases (find_order id s)) [
      | inl gone ↦ absurd (let no = missing_not_expired id now s gone in cc)
      | inr (o, there) ↦ elim (Bool-cases (is_open o)) [
        | inr closed ↦ absurd (let no = closed_not_expired id now s o there closed in cc)
        | inl open_ ↦
            let after = (went_through o there open_).1 in
            (
              o,
              there,
              open_,
              after,
              λ later.
                  closed_not_expired id later (cancel_due_to_expiry id now s).1 (as_cancelled o)
                    after refl,
            )
      ]
    ]
