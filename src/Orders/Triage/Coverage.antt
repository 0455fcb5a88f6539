-- ===== src/Orders/Triage/Coverage.antt =====
-- What `fullyCovered` of the triage means: nothing that the order reserved has been lost.
use phone_cases_backend.Prelude.{
  ℕ, ◌+◌, ◌≤◌, ◌≡◌, refl, ◌↔◌, true, not, ◌&&◌, List, [], ◌∷◌, map, select, sum_by, sum_by-le,
  if◌then◌else◌, arith,
}
use phone_cases_backend.Inventory.{Inventory, Reservation}
use phone_cases_backend.Inventory.Invariant.{of_item}
use phone_cases_backend.Inventory.Hold.{StockLine, add_line, aggregate_from, aggregate_lines}
use phone_cases_backend.Inventory.Hold.Demand.{line_for, demand, demand-aggregate_lines}
use phone_cases_backend.Orders.Triage.{
  is_of_order, is_covering, as_line, quantity_of, covers, load_reservation_triage,
}

-- The units of an order's reservations that have been released or have expired.
abbrev pub lost : Reservation → ℕ
lost r = if is_covering r then 0 else r.quantity

abbrev pub lost_of : ℕ → Reservation → ℕ
lost_of order r = if is_of_order order r && not (is_covering r) then r.quantity else 0

abbrev lost_at : ℕ → Reservation → ℕ
lost_at k r = of_item r.stock_item (lost r) k

quantity_of-add_line :
    (k : ℕ) (l : StockLine) (ls : List StockLine)
    → quantity_of k (add_line l ls) ≡ quantity_of k ls + line_for k l
unfolding quantity_of add_line
quantity_of-add_line k l [] = ground arith
quantity_of-add_line k l (m ∷ ms) = ground (arith, quantity_of-add_line k l ms)

quantity_of-aggregate_from :
    (k : ℕ) (done ls : List StockLine)
    → quantity_of k (aggregate_from done ls) ≡ quantity_of k done + demand k ls
unfolding aggregate_from
quantity_of-aggregate_from k done [] = omega arith
quantity_of-aggregate_from k done (l ∷ ls) =
    omega (arith, quantity_of-aggregate_from k (add_line l done) ls, quantity_of-add_line k l done)

quantity_of-aggregate_lines :
    (k : ℕ) (ls : List StockLine) → quantity_of k (aggregate_lines ls) ≡ demand k ls
unfolding aggregate_lines quantity_of
quantity_of-aggregate_lines k ls = omega (arith, quantity_of-aggregate_from k [] ls)

covers_elim :
    (covered required : List StockLine) (k : ℕ)
    → covers covered required ≡ true
    → quantity_of k required ≤ quantity_of k covered
unfolding covers quantity_of
covers_elim covered [] k e = omega arith
covers_elim covered (l ∷ ls) k e = ground (arith, covers_elim covered ls k)

covers_intro :
    (covered required : List StockLine)
    → ((k : ℕ) → demand k required ≤ quantity_of k covered)
    → covers covered required ≡ true
unfolding covers
covers_intro covered [] h = refl
covers_intro covered (l ∷ ls) h =
    let rest = covers_intro covered ls (λ k. omega (arith, h k)) in
    let here : l.quantity ≤ quantity_of l.stock_item covered = ground (arith, h l.stock_item) in
    ground (arith, rest, here)

-- What was asked for is what is covered and what is lost.
demand_split :
    (k : ℕ) (rs : List Reservation)
    → demand k (map as_line rs)
      ≡ demand k (map as_line (select is_covering rs)) + sum_by (lost_at k) rs
demand_split k [] = refl
demand_split k (r ∷ rs) = ground (arith, demand_split k rs)

lost_everywhere :
    (rs : List Reservation) → ((k : ℕ) → sum_by (lost_at k) rs ≡ 0) → sum_by lost rs ≡ 0
lost_everywhere [] h = refl
lost_everywhere (r ∷ rs) h =
    let rest = lost_everywhere rs (λ k. omega (arith, h k)) in
    let here : lost r ≡ 0 = ground (arith, h r.stock_item) in omega (arith, rest, here)

lost-select :
    (order : ℕ) (rs : List Reservation)
    → sum_by lost (select (is_of_order order) rs) ≡ sum_by (lost_of order) rs
lost-select order [] = refl
lost-select order (r ∷ rs) = ground (arith, lost-select order rs)

-- An order counts as fully covered exactly when none of the units that it ever reserved has been
-- released or has expired, whichever stock items they are of and however they are split.
pub fully_covered_iff :
    (order : ℕ) (i : Inventory)
    → ((load_reservation_triage order i).fully_covered ≡ true)
      ↔ (sum_by (lost_of order) i.reservations ≡ 0)
unfolding load_reservation_triage
fully_covered_iff order i =
    let all = select (is_of_order order) i.reservations in
    let required = aggregate_lines (map as_line all) in
    let covered = aggregate_lines (map as_line (select is_covering all)) in
    (
      λ e.
          let none_at : (k : ℕ) → sum_by (lost_at k) all ≡ 0 = λ k. omega (
            arith,
            covers_elim covered required k e,
            quantity_of-aggregate_lines k (map as_line all),
            quantity_of-aggregate_lines k (map as_line (select is_covering all)),
            demand_split k all,
          ) in
          omega (arith, lost_everywhere all none_at, lost-select order i.reservations),
      λ whole. covers_intro covered required (λ k. omega (
        arith,
        demand-aggregate_lines k (map as_line all),
        quantity_of-aggregate_lines k (map as_line (select is_covering all)),
        demand_split k all,
        sum_by-le (lost_at k) lost all (λ r. ground arith),
        lost-select order i.reservations,
      )),
    )
