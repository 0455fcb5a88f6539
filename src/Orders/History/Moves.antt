-- ===== src/Orders/History/Moves.antt =====
-- `updateFulfillmentStatus` as a step of an order's history.
use phone_cases_backend.Prelude.{
  ℕ, ◌≤◌, ◌≡◌, refl, Bool, true, false, ◌&&◌, Option, none, some, Option-cases, Bool-cases, inl,
  inr, arith,
}
use phone_cases_backend.Prelude.Results.{Result, ok, err, commit, bind_inv, commit_keeps}
use phone_cases_backend.Prelude.Keyed.{find_key_has}
use phone_cases_backend.Errors.{Error}
use phone_cases_backend.Store.{
  Store, Order, FulfillmentStatus, pending, confirmed, preparing, shipped, delivered, cancelled,
  fulfillment_code, is_fulfillment, find_order,
}
use phone_cases_backend.Orders.Transitions.{may_move}
use phone_cases_backend.Orders.Writes.{coupon_release_needed}
use phone_cases_backend.Orders.Fulfillment.{
  needs_payment, with_fulfillment, move_order, move_transaction, audit_move,
  update_fulfillment_status,
}
use phone_cases_backend.Orders.Fulfillment.Effects.{Moved, before_move-frame, move_order-Moved}
use phone_cases_backend.Orders.History.{is_begun, is_lawful, Turn, Continues}
use phone_cases_backend.Orders.History.Laws.{
  Continues-refl, Continues-trans, Continues-frame, Turns-write, IsAgreed-write,
}

-- A move of the diagram goes forward, begins work only on a confirmed order, and leaves no final
-- status.
may_move_inv :
    (a b : FulfillmentStatus)
    → may_move a b ≡ true
    → (fulfillment_code a ≤ fulfillment_code b)
      × (is_fulfillment a delivered ≡ false)
      × (is_fulfillment a cancelled ≡ false)
      × (is_begun b ≡ true → is_fulfillment b preparing ≡ false → is_begun a ≡ true)
unfolding may_move
may_move_inv pending b e = ground arith
may_move_inv confirmed b e = ground arith
may_move_inv preparing b e = ground arith
may_move_inv shipped b e = ground arith
may_move_inv delivered b e = cc
may_move_inv cancelled b e = cc

-- Three ways to see that the new row is lawful, by what the old row says of itself.
lawful_move :
    (o : Order) (target : FulfillmentStatus) (release : Bool)
    → is_fulfillment o.fulfillment cancelled ≡ false
    → (is_begun target ≡ true
        → is_fulfillment target preparing ≡ false
        → is_begun o.fulfillment ≡ true)
    → needs_payment o target ≡ false
    → (release ≡ true → is_fulfillment target cancelled ≡ true)
    → is_lawful o ≡ true
    → is_lawful (with_fulfillment target release o) ≡ true
lawful_move o target release alive begun paid_for released lawful = ground (arith, begun, released)

Moved-Turn :
    (s t : Store) (o o' : Order) (target : FulfillmentStatus) (now : ℕ)
    → Moved s t o o' target now
    → Turn o o'
Moved-Turn s t o o' target now m =
    let (forward, open_, alive, begun) = may_move_inv o.fulfillment target m.allowed in
    let release = is_fulfillment target cancelled && coupon_release_needed o in
    rw (m.order_is) (record {
      same_id = refl;
      same_total = refl;
      same_key = refl;
      same_hash = refl;
      same_cart = refl;
      forward = forward;
      delivered_final = λ h. absurd (cc);
      stays_settled = λ h. h;
      stays_lawful = lawful_move o target release alive begun (m.paid_for) (λ h. ground (arith, h));
    })

move_order-Continues :
    (o : Order) (target : FulfillmentStatus) (now : ℕ) (s : Store) (o' : Order) (t : Store)
    → find_order o.id s ≡ some o
    → move_order o target now s ≡ ok (o', t)
    → Continues s t
move_order-Continues o target now s o' t there e =
    let m = move_order-Moved o target now s o' t there e in
    let (frame, sound) = before_move-frame o.id target now s (m.between) (m.effects) in
    record {
      orders = Turns-write s t o.id o o' there (m.orders) (Moved-Turn s t o o' target now m);
      sound = λ v. rw (m.inventory) (sound v);
      agreed = IsAgreed-write s t o.id o o' there (m.orders) (m.refunds) (λ n h. rw (m.order_is) h);
    }

move_transaction-Continues :
    (id : ℕ) (target : FulfillmentStatus) (now : ℕ) (s : Store)
    (r : Order × Option FulfillmentStatus) (t : Store)
    → move_transaction id target now s ≡ ok (r, t)
    → Continues s t
unfolding move_transaction
move_transaction-Continues id target now s r t e = elim (Option-cases (find_order id s)) [
  | inl gone ↦ absurd (ground (arith, gone))
  | inr (o, there) ↦
      let e₁ = rw there at e in
      let here : o.id ≡ id = find_key_has (λ (x : Order). x.id) id s.orders o there in
      let here' : find_order o.id s ≡ some o = cc in
      elim (Bool-cases (is_fulfillment o.fulfillment target)) [
        | inl same ↦ let e₂ = rw same at e₁ in let t_is : t ≡ s = cc in rw t_is (Continues-refl s)
        | inr differs ↦
            let e₂ = rw differs at e₁ in
            let (o', s₁, did, ended) = bind_inv (move_order o target now) _ s r t e₂ in
            let t_is : t ≡ s₁ = cc in rw t_is (move_order-Continues o target now s o' s₁ here' did)
      ]
]

-- Whatever the outcome of the request, refusals included.
pub update_fulfillment_status-Continues :
    (id : ℕ) (target : FulfillmentStatus) (staff now : ℕ) (s : Store)
    → Continues s (update_fulfillment_status id target staff now s).1
unfolding update_fulfillment_status
update_fulfillment_status-Continues id target staff now s =
    let kept =
      commit_keeps (Continues s) (move_transaction id target now) s (Continues-refl s)
        (λ r t e. move_transaction-Continues id target now s r t e) in
    audited (commit (move_transaction id target now) s) kept
  where
    audited :
        (r : Result Error (Order × Option FulfillmentStatus) × Store)
        → Continues s r.1
        → Continues s (audit_move id target staff r).1
    audited (err e, t) c = c
    audited (ok (o, none), t) c = c
    audited (ok (o, some from), t) c =
        Continues-trans s t _ c (Continues-frame t _ refl refl (λ v. v))
