-- ===== src/Refunds/Agreement.antt =====
-- The payment status of an order agrees with its refunds, which never exceed what was paid.
use phone_cases_backend.Prelude.{
  ℕ, ◌+◌, ◌≤◌, ◌<◌, ◌≡◌, ◌⊎◌, inl, inr, refl, true, none, some, List, [], ◌∷◌, ◌++◌, ◌==◌, sum_by,
  sum_by-append, Option-cases, Bool-cases, arith,
}
use phone_cases_backend.Prelude.Results.{ok}
use phone_cases_backend.Prelude.Tables.{update_all}
use phone_cases_backend.Prelude.Keyed.{find_key-update_all}
use phone_cases_backend.Store.{
  Store, Order, Refund, PaymentStatus, partially_refunded, refunded, has_id, find_order,
}
use phone_cases_backend.Refunds.{
  RefundRequest, refunded_on, already_refunded, find_refund, is_refundable, status_after,
  new_refund, write_refund, new_refund_on, record_refund,
}

-- What the status of an order says of the refunds recorded for it and of its total.
abbrev pub Agrees : PaymentStatus → ℕ → ℕ → Type 0
Agrees partially_refunded n total = (0 < n) × (n < total)
Agrees refunded n total = n ≡ total
Agrees _ n total = n ≡ 0

abbrev pub IsAgreed : Store → Type 0
IsAgreed s =
    (id : ℕ) (o : Order)
    → find_order id s ≡ some o
    → Agrees o.payment (already_refunded id s) o.total

-- A refund that is recorded: a replay, which changes nothing, or a new one within what was paid.
pub record_refund_inv :
    (order : ℕ) (q : RefundRequest) (staff : ℕ) (s : Store) (r : Refund) (s' : Store)
    → record_refund order q staff s ≡ ok (r, s')
    → (o : Order) × (find_order order s ≡ some o)
      × (((s' ≡ s) × (r.order ≡ order) × (find_refund q.idempotency_key s ≡ some r))
          ⊎ ((find_refund q.idempotency_key s ≡ none)
              × (is_refundable o.payment ≡ true)
              × (q.currency ≡ o.currency)
              × (already_refunded order s + q.amount ≤ o.total)
              × (write_refund order q staff (already_refunded order s + q.amount) o s
                  ≡ ok (r, s'))))
unfolding record_refund new_refund_on
record_refund_inv order q staff s r s' e = elim (Option-cases (find_order order s)) [
  | inl gone ↦ absurd (ground (arith, gone))
  | inr (o, there) ↦ elim (Option-cases (find_refund q.idempotency_key s)) [
    | inl new ↦ (
      o,
      there,
      inr (
        new,
        ground (arith, there, new),
        ground (arith, there, new),
        ground (arith, there, new),
        ground (arith, there, new),
      ),
    )
    | inr (old, used) ↦ (
      o,
      there,
      inl (ground (arith, there, used), ground (arith, there, used), ground (arith, there, used)),
    )
  ]
]

refunds-snoc :
    (id : ℕ) (rs : List Refund) (r : Refund)
    → sum_by (refunded_on id) (rs ++ (r ∷ [])) ≡ sum_by (refunded_on id) rs + refunded_on id r
refunds-snoc id rs r = omega (arith, sum_by-append (refunded_on id) rs (r ∷ []))

-- The status that is derived agrees with the new total of the refunds.
Agrees-status_after : (n total : ℕ) → 0 < n → n ≤ total → Agrees (status_after n total) n total
Agrees-status_after n total some_money fits = ground arith

write_refund-IsAgreed :
    (order : ℕ) (q : RefundRequest) (staff : ℕ) (o : Order) (s : Store) (r : Refund) (s' : Store)
    → find_order order s ≡ some o
    → 0 < q.amount
    → already_refunded order s + q.amount ≤ o.total
    → IsAgreed s
    → write_refund order q staff (already_refunded order s + q.amount) o s ≡ ok (r, s')
    → IsAgreed s'
unfolding write_refund
write_refund-IsAgreed order q staff o s r s' there some_money fits v e id x found =
    let n = already_refunded order s + q.amount in
    let pay = λ (y : Order). record y { payment = status_after n o.total } in
    let lookup = find_key-update_all (λ (y : Order). y.id) pay order id s.orders (λ y. refl) in
    let sum_is = refunds-snoc id s.refunds (new_refund s.next_id order q staff) in
    let orders' : s'.orders ≡ update_all (has_id order) pay s.orders = ground arith in
    let refunds' : s'.refunds ≡ s.refunds ++ (new_refund s.next_id order q staff ∷ []) =
      ground arith in
    elim (Bool-cases (id == order)) [
      | inl same ↦
          let here : id ≡ order = ground arith in
          let x_is : x ≡ pay o = ground (arith, lookup, orders', there, here) in
          let n_is : already_refunded id s' ≡ n = ground (arith, sum_is, refunds', here) in
          rw (x_is, n_is) (Agrees-status_after n o.total (omega arith) fits)
      | inr other ↦
          let old : find_order id s ≡ some x = ground (arith, lookup, orders', other) in
          let n_is : already_refunded id s' ≡ already_refunded id s =
            ground (arith, sum_is, refunds', other) in
          rw n_is (v id x old)
    ]

-- A refund of a positive amount keeps every order's status in agreement with its refunds, whether
-- it is new or replayed.
pub record_refund-IsAgreed :
    (order : ℕ) (q : RefundRequest) (staff : ℕ) (s : Store) (r : Refund) (s' : Store)
    → 0 < q.amount
    → IsAgreed s
    → record_refund order q staff s ≡ ok (r, s')
    → IsAgreed s'
record_refund-IsAgreed order q staff s r s' some_money v e =
    let (o, there, how) = record_refund_inv order q staff s r s' e in
    elim how [
      | inl (same, of_order, replayed) ↦ rw same v
      | inr (new, open_, money, fits, done) ↦
          write_refund-IsAgreed order q staff o s r s' there some_money fits v done
    ]
