-- ===== src/Orders/History/Returns.antt =====
-- Refunds as steps of an order's history.
use phone_cases_backend.Prelude.{ℕ, ◌+◌, ◌<◌, ◌≡◌, refl, true, inl, inr, arith}
use phone_cases_backend.Prelude.Results.{ok}
use phone_cases_backend.Prelude.Tables.{update_all}
use phone_cases_backend.Prelude.Keyed.{find_key-update_all}
use phone_cases_backend.Store.{Store, Order, Refund, has_id}
use phone_cases_backend.Refunds.{
  RefundRequest, already_refunded, is_refundable, status_after, write_refund, record_refund,
}
use phone_cases_backend.Refunds.Agreement.{record_refund_inv, record_refund-IsAgreed}
use phone_cases_backend.Orders.History.{Turn, Continues}
use phone_cases_backend.Orders.History.Laws.{Continues-refl, Turns-write}

refund-Turn :
    (o : Order) (n : ℕ)
    → is_refundable o.payment ≡ true
    → Turn o (record o { payment = status_after n o.total })
refund-Turn o n open_ = record {
  same_id = refl;
  same_total = refl;
  same_key = refl;
  same_hash = refl;
  same_cart = refl;
  forward = omega arith;
  delivered_final = λ h. refl;
  stays_settled = λ h. ground arith;
  stays_lawful = λ h. ground arith;
}

pub record_refund-Continues :
    (order : ℕ) (q : RefundRequest) (staff : ℕ) (s : Store) (r : Refund) (t : Store)
    → 0 < q.amount
    → record_refund order q staff s ≡ ok (r, t)
    → Continues s t
unfolding write_refund
record_refund-Continues order q staff s r t some_money e =
    let (o, there, how) = record_refund_inv order q staff s r t e in
    elim how [
      | inl (same, of_order, replayed) ↦ rw same (Continues-refl s)
      | inr (new, open_, money, fits, done) ↦
          let n = already_refunded order s + q.amount in
          let pay = λ (y : Order). record y { payment = status_after n o.total } in
          let orders : t.orders ≡ update_all (has_id order) pay s.orders = ground (arith, done) in
          let inventory : t.inventory ≡ s.inventory = ground (arith, done) in
          record {
            orders =
                Turns-write s t order o (pay o) there
                  (λ j. ground (
                    arith,
                    find_key-update_all (λ (y : Order). y.id) pay order j s.orders (λ y. refl),
                    orders,
                    there,
                  ))
                  (refund-Turn o n open_);
            sound = λ v. rw inventory v;
            agreed = λ v. record_refund-IsAgreed order q staff s r t some_money v e;
          }
    ]
