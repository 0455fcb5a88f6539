-- ===== src/Orders/History/Payments.antt =====
-- `updatePaymentStatus` as a step of an order's history.
use phone_cases_backend.Prelude.{
  ℕ, ◌≡◌, refl, true, false, Option, none, some, Option-cases, Bool-cases, inl, inr, arith,
}
use phone_cases_backend.Prelude.Results.{Result, ok, err, commit, bind_inv, commit_keeps}
use phone_cases_backend.Prelude.Keyed.{find_key_has}
use phone_cases_backend.Errors.{Error}
use phone_cases_backend.Store.{
  Store, Order, PaymentStatus, unpaid, awaiting, paid, failed, partially_refunded, refunded,
  is_payment, find_order,
}
use phone_cases_backend.Refunds.Agreement.{Agrees}
use phone_cases_backend.Orders.Transitions.{may_pay}
use phone_cases_backend.Orders.Payment.{
  with_payment, pay_order, pay_transaction, audit_payment, is_refund_status, update_payment_status,
}
use phone_cases_backend.Orders.History.{is_settled, is_lawful, Turn, Continues}
use phone_cases_backend.Orders.History.Laws.{
  Continues-refl, Continues-trans, Continues-frame, Turns-write, IsAgreed-write,
}
use phone_cases_backend.Orders.Payment.Effects.{Paid, pay_order-Paid, before_payment-frame}

-- A payment status that a request may ask for leaves the refunds as they are.
may_pay_inv :
    (a b : PaymentStatus)
    → may_pay a b ≡ true
    → is_refund_status b ≡ false
    → (is_settled a ≡ false) × ((n m : ℕ) → Agrees a n m → Agrees b n m)
unfolding may_pay
may_pay_inv unpaid b e r = ground arith
may_pay_inv awaiting b e r = ground arith
may_pay_inv failed b e r = ground arith
may_pay_inv paid b e r = ground arith
may_pay_inv partially_refunded b e r = ground arith
may_pay_inv refunded b e r = cc

lawful_payment :
    (o : Order) (target : PaymentStatus)
    → is_settled o.payment ≡ false
    → is_lawful o ≡ true
    → is_lawful (with_payment target o) ≡ true
lawful_payment o target before lawful = ground arith

Paid-Continues :
    (s t : Store) (o o' : Order) (target : PaymentStatus) (staff now : ℕ)
    → find_order o.id s ≡ some o
    → is_refund_status target ≡ false
    → Paid s t o o' target staff now
    → Continues s t
Paid-Continues s t o o' target staff now there money m =
    let (frame, sound) = before_payment-frame o target staff now s (m.between) (m.effects) in
    let (before, agrees) = may_pay_inv o.payment target (m.allowed) money in
    let turn : Turn o o' = rw (m.order_is) (record {
      same_id = refl;
      same_total = refl;
      same_key = refl;
      same_hash = refl;
      same_cart = refl;
      forward = omega arith;
      delivered_final = λ h. refl;
      stays_settled = λ h. absurd (cc);
      stays_lawful = lawful_payment o target before;
    }) in
    record {
      orders = Turns-write s t o.id o o' there (m.orders) turn;
      sound = λ v. rw (m.inventory) (sound v);
      agreed =
          IsAgreed-write s t o.id o o' there (m.orders) (m.refunds)
            (λ n h. rw (m.order_is) (agrees n o.total h));
    }

pay_transaction-Continues :
    (id : ℕ) (target : PaymentStatus) (staff now : ℕ) (s : Store) (r : Order × Option PaymentStatus)
    (t : Store)
    → is_refund_status target ≡ false
    → pay_transaction id target staff now s ≡ ok (r, t)
    → Continues s t
unfolding pay_transaction
pay_transaction-Continues id target staff now s r t money e =
    elim (Option-cases (find_order id s)) [
      | inl gone ↦ absurd (ground (arith, gone))
      | inr (o, there) ↦
          let e₁ = rw there at e in
          let here : o.id ≡ id = find_key_has (λ (x : Order). x.id) id s.orders o there in
          let here' : find_order o.id s ≡ some o = cc in
          elim (Bool-cases (is_payment o.payment target)) [
            | inl same ↦
                let e₂ = rw same at e₁ in let t_is : t ≡ s = cc in rw t_is (Continues-refl s)
            | inr differs ↦
                let e₂ = rw differs at e₁ in
                let (o', s₁, did, ended) = bind_inv (pay_order o target staff now) _ s r t e₂ in
                let t_is : t ≡ s₁ = cc in
                rw t_is (
                  Paid-Continues s s₁ o o' target staff now here' money
                    (pay_order-Paid o target staff now s o' s₁ here' did))
          ]
    ]

-- Whatever the outcome of the request, refusals included.
pub update_payment_status-Continues :
    (id : ℕ) (target : PaymentStatus) (staff now : ℕ) (s : Store)
    → Continues s (update_payment_status id target staff now s).1
unfolding update_payment_status
update_payment_status-Continues id target staff now s =
    elim (Bool-cases (is_refund_status target)) [
      | inl refund ↦ rw (refund, update_payment_status) (Continues-refl s)
      | inr money ↦
          let run = pay_transaction id target staff now in
          let kept =
            commit_keeps (Continues s) run s (Continues-refl s)
              (λ r t e. pay_transaction-Continues id target staff now s r t money e) in
          rw (money, update_payment_status) (audited (commit run s) kept)
    ]
  where
    audited :
        (r : Result Error (Order × Option PaymentStatus) × Store)
        → Continues s r.1
        → Continues s (audit_payment id target staff r).1
    audited (err e, t) c = c
    audited (ok (o, none), t) c = c
    audited (ok (o, some from), t) c =
        Continues-trans s t _ c (Continues-frame t _ refl refl (λ v. v))
