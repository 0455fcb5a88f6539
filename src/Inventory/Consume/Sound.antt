-- ===== src/Inventory/Consume/Sound.antt =====
-- A consumption takes its quantity from both counters, and under sound counters is never refused
-- for an active reservation.
use phone_cases_backend.Prelude.{
  ℕ, ◌+◌, ◌≤◌, ◌<◌, ◌≡◌, true, Option, none, some, List, [], ◌∷◌, ◌++◌, Option-cases, inl, inr,
  sum_by, arith,
}
use phone_cases_backend.Prelude.Results.{ok, err, bind_inv}
use phone_cases_backend.Prelude.Tables.{update_where, update_where_row}
use phone_cases_backend.Errors.{Error, counters_inconsistent, invalid_state_transition}
use phone_cases_backend.Inventory.{Inventory, Reservation, is_live}
use phone_cases_backend.Inventory.Invariant.{held, IsSound, Frees, is_for}
use phone_cases_backend.Inventory.Consume.{
  as_consumed, consumption, take_stock, consume_row, consume_many_in_transaction,
}

take_stock-IsSound :
    (s s' : Inventory) (k q : ℕ) (rs : List Reservation)
    → IsSound s
    → Frees s.reservations rs k q
    → take_stock k q (record s { reservations = rs }) ≡ some s'
    → IsSound s'
unfolding take_stock
take_stock-IsSound s s' k q rs v moved e = elim (Option-cases (s.stock k)) [
  | inl gone ↦ absurd (ground (arith, gone))
  | inr (it, there) ↦ record {
    counted = λ j. ground (arith, v.counted j, v.counted k, moved j, moved k, there);
    backed = λ j. ground (arith, v.backed j, v.backed k, there);
    fresh = λ j past. ground (arith, v.fresh j, v.fresh k, there);
    linked = λ j. ground (arith, v.linked j, moved j, there);
  }
]

-- What a consumption did, when it returned.
pub consume_row_inv :
    (id : ℕ) (staff : Option ℕ) (now : ℕ) (missing : Error) (s : Inventory) (x : Reservation)
    (s' : Inventory)
    → consume_row id staff now missing s ≡ ok (x, s')
    → (r : Reservation) × (rs : List Reservation) × (s₁ : Inventory) × (is_live id r ≡ true)
      × (x ≡ as_consumed now r)
      × ((g : Reservation → ℕ)
          → (sum_by g s.reservations + g (as_consumed now r) ≡ sum_by g rs + g r)
            × (g r ≤ sum_by g s.reservations))
      × (take_stock r.stock_item r.quantity (record s { reservations = rs }) ≡ some s₁)
      × (s' ≡ record s₁ { movements = s₁.movements ++ (consumption x staff ∷ []) })
unfolding consume_row
consume_row_inv id staff now missing s x s' e =
    elim (Option-cases (update_where (is_live id) (as_consumed now) s.reservations)) [
      | inl gone ↦ absurd (ground (arith, gone))
      | inr ((y, rs), there) ↦
          let (r, passed, made, total) =
            update_where_row (is_live id) (as_consumed now) s.reservations y rs there in
          elim (Option-cases
            (take_stock y.stock_item y.quantity (record s { reservations = rs }))) [
              | inl short ↦ absurd (ground (arith, there, short))
              | inr (s₁, taken) ↦ (
                r,
                rs,
                s₁,
                passed,
                ground (arith, there, taken, made),
                total,
                ground (arith, taken, made),
                ground (arith, there, taken, made),
              )
            ]
    ]

pub consume_row-IsSound :
    (id : ℕ) (staff : Option ℕ) (now : ℕ) (missing : Error) (s : Inventory) (x : Reservation)
    (s' : Inventory)
    → IsSound s
    → consume_row id staff now missing s ≡ ok (x, s')
    → IsSound s'
consume_row-IsSound id staff now missing s x s' v e =
    let (r, rs, s₁, live, made, total, taken, same) =
      consume_row_inv id staff now missing s x s' e in
    let v₁ =
      take_stock-IsSound s s₁ r.stock_item r.quantity rs v
        (λ j. (ground (arith, total (held j), live), ground (arith, total (is_for j)))) taken in
    rw same
      (record { counted = v₁.counted; backed = v₁.backed; fresh = v₁.fresh; linked = v₁.linked })

pub consume_many-IsSound :
    (ids : List ℕ) (staff : Option ℕ) (now : ℕ) (s : Inventory) (rs : List Reservation)
    (s' : Inventory)
    → IsSound s
    → consume_many_in_transaction ids staff now s ≡ ok (rs, s')
    → IsSound s'
unfolding consume_many_in_transaction
consume_many-IsSound [] staff now s rs s' v e = let same : s ≡ s' = cc in rw (← same) v
consume_many-IsSound (id ∷ ids) staff now s rs s' v e =
    let (r, s₁, first, rest) =
      bind_inv (consume_row id staff now invalid_state_transition) _ s rs s' e in
    let (rs₁, s₂, others, last) =
      bind_inv (consume_many_in_transaction ids staff now) _ s₁ rs s' rest in
    let same : s₂ ≡ s' = cc in
    rw (← same) (
      consume_many-IsSound ids staff now s₁ rs₁ s₂
        (consume_row-IsSound id staff now invalid_state_transition s r s₁ v first) others)

-- In the table, what an active row holds is part of its stock item's counter.
take_stock_ready :
    (s : Inventory) (k q : ℕ) (rs : List Reservation)
    → IsSound s
    → 0 < sum_by (is_for k) s.reservations
    → Frees s.reservations rs k q
    → ¬ (take_stock k q (record s { reservations = rs }) ≡ none)
unfolding take_stock
take_stock_ready s k q rs v linked moved e = elim (Option-cases (s.stock k)) [
  | inl gone ↦ ground (arith, v.linked k, gone)
  | inr (it, there) ↦ ground (arith, v.counted k, v.backed k, moved k, there)
]

-- Under sound counters a consumption is refused only because its reservation is not active.
pub consume_row_consistent :
    (id : ℕ) (staff : Option ℕ) (now : ℕ) (missing : Error) (s : Inventory)
    → IsSound s
    → ¬ (missing ≡ counters_inconsistent)
    → ¬ (consume_row id staff now missing s ≡ err counters_inconsistent)
unfolding consume_row
consume_row_consistent id staff now missing s v other e =
    elim (Option-cases (update_where (is_live id) (as_consumed now) s.reservations)) [
      | inl gone ↦ other (ground (arith, gone))
      | inr ((y, rs), there) ↦
          let (r, passed, made, total) =
            update_where_row (is_live id) (as_consumed now) s.reservations y rs there in
          elim (Option-cases
            (take_stock y.stock_item y.quantity (record s { reservations = rs }))) [
              | inl short ↦
                  take_stock_ready s r.stock_item r.quantity rs v
                    (ground (arith, total (is_for r.stock_item)))
                    (λ j.
                      (ground (arith, total (held j), passed), ground (arith, total (is_for j))))
                    (ground (arith, short, made))
              | inr (s₁, taken) ↦ ground (arith, there, taken, made)
            ]
    ]
