-- ===== src/Orders/History/LatePayments.antt =====
-- `flagLatePayment` as a step of an order's history.
use phone_cases_backend.Prelude.{ℕ, ◌≡◌, refl, some, Option-cases, Bool-cases, inl, inr, arith}
use phone_cases_backend.Prelude.Results.{ok, bind_inv}
use phone_cases_backend.Prelude.Keyed.{find_key_has}
use phone_cases_backend.Store.{Store, Order, cancelled, is_fulfillment, has_id, find_order}
use phone_cases_backend.Orders.Writes.{update_order}
use phone_cases_backend.Orders.Frame.{update_order_wrote}
use phone_cases_backend.Orders.Payment.{flag_late_payment}
use phone_cases_backend.Orders.History.{Turn, Continues}
use phone_cases_backend.Orders.History.Laws.{
  Continues-trans, Continues-frame, Turns-write, IsAgreed-write,
}

abbrev flagged : ℕ → ℕ → Order → Order
flagged note now x = record x { late_payment_flagged_at = some now; late_payment_note = some note }

flagged-Turn : (note now : ℕ) (o : Order) → Turn o (flagged note now o)
flagged-Turn note now o = record {
  same_id = refl;
  same_total = refl;
  same_key = refl;
  same_hash = refl;
  same_cart = refl;
  forward = omega arith;
  delivered_final = λ h. refl;
  stays_settled = λ h. h;
  stays_lawful = λ h. h;
}

write_flag :
    (id note now : ℕ) (o : Order) (s : Store) (o' : Order) (t : Store)
    → find_order id s ≡ some o
    → update_order (has_id id) (flagged note now) s ≡ ok (o', t)
    → Continues s t
write_flag id note now o s o' t there e =
    let here : o.id ≡ id = find_key_has (λ (x : Order). x.id) id s.orders o there in
    let there' : find_order o.id s ≡ some o = cc in
    let (order_is, finds, refunds, inventory) =
      update_order_wrote (has_id id) (flagged note now) s o o' t (λ x. refl)
        (λ x h. ground (arith, h, here)) there' (ground (arith, here)) e in
    record {
      orders = Turns-write s t o.id o o' there' finds (rw order_is (flagged-Turn note now o));
      sound = λ v. rw inventory v;
      agreed = IsAgreed-write s t o.id o o' there' finds refunds (λ n h. rw order_is h);
    }

-- A note on a cancelled order changes nothing else.
pub flag_late_payment-Continues :
    (id note staff now : ℕ) (s : Store) (o' : Order) (t : Store)
    → flag_late_payment id note staff now s ≡ ok (o', t)
    → Continues s t
unfolding flag_late_payment
flag_late_payment-Continues id note staff now s o' t e = elim (Option-cases (find_order id s)) [
  | inl gone ↦ absurd (ground (arith, gone))
  | inr (o, there) ↦ elim (Bool-cases (is_fulfillment o.fulfillment cancelled)) [
    | inr alive ↦ absurd (ground (arith, there, alive))
    | inl ended ↦
        let e₁ = rw (there, ended, flag_late_payment) at e in
        let (x, u, did, ends) =
          bind_inv (update_order (has_id id) (flagged note now)) _ s o' t e₁ in
        Continues-trans s u t (write_flag id note now o s x u there did) (
          Continues-frame u t (cc) (cc)
            (λ v. let same : t.inventory ≡ u.inventory = cc in rw same v))
  ]
]
