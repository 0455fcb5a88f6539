-- ===== src/Inventory/Retire/Sales.antt =====
-- Consuming the reservations of an order sells what the order holds, and nothing else.
use phone_cases_backend.Prelude.{
  ℕ, ◌+◌, ◌≤◌, ◌≡◌, refl, ◌∙◌, Bool, true, false, not, ◌&&◌, Option, none, some, List, [], ◌∷◌, map,
  select, ◌==◌, is_some_and, sum_by, sum_by-plus, sum_by-le, All, if◌then◌else◌, Option-cases,
  Bool-cases, inl, inr, arith,
}
use phone_cases_backend.Prelude.Results.{ok, bind_inv}
use phone_cases_backend.Prelude.Tables.{update_where, update_where_row}
use phone_cases_backend.Errors.{Error, invalid_state_transition}
use phone_cases_backend.Inventory.{Inventory, Reservation, ReservationStatus, consumed, is_live}
use phone_cases_backend.Inventory.Release.{is_active_of}
use phone_cases_backend.Inventory.Consume.{
  take_stock, as_consumed, consume_row, consume_many_in_transaction,
}
use phone_cases_backend.Inventory.Retire.{IsUnique, has_key}

abbrev is_sold : ReservationStatus → Bool
is_sold consumed = true
is_sold _ = false

abbrev is_for : ℕ → Reservation → Bool
is_for order r = is_some_and (λ o. o == order) r.order

-- The units of a stock item that an order holds, and those that have been sold to it.
abbrev pub held_units : (order stock_item : ℕ) → Reservation → ℕ
held_units order k r = if is_active_of order r && r.stock_item == k then r.quantity else 0

abbrev pub sold_units : (order stock_item : ℕ) → Reservation → ℕ
sold_units order k r =
    if is_for order r && is_sold r.status && r.stock_item == k then r.quantity else 0

abbrev pub held_of : (order stock_item : ℕ) → Inventory → ℕ
held_of order k s = sum_by (held_units order k) s.reservations

abbrev pub sold_of : (order stock_item : ℕ) → Inventory → ℕ
sold_of order k s = sum_by (sold_units order k) s.reservations

abbrev pub on_hand_of : ℕ → Inventory → ℕ
on_hand_of k s = elim (s.stock k) [ none ↦ 0 | some it ↦ it.on_hand ]

abbrev pub reserved_of : ℕ → Inventory → ℕ
reserved_of k s = elim (s.stock k) [ none ↦ 0 | some it ↦ it.reserved ]

-- A live row with an id that is not of the order, and one that is.
abbrev foreign : (order id : ℕ) → Reservation → ℕ
foreign order id r = if is_live id r && not (is_for order r) then 1 else 0

abbrev own : (order id : ℕ) → Reservation → ℕ
own order id r = if is_live id r && is_for order r then 1 else 0

abbrev IsOwn : ℕ → List Reservation → ℕ → Type 0
IsOwn order rs id = sum_by (foreign order id) rs ≡ 0

abbrev units_if : ℕ → ℕ → ℕ → ℕ
units_if j k q = if j == k then q else 0

take_stock_inv :
    (j q k : ℕ) (s t : Inventory)
    → take_stock j q s ≡ some t
    → (t.reservations ≡ s.reservations)
      × (on_hand_of k t + units_if j k q ≡ on_hand_of k s)
      × (reserved_of k t + units_if j k q ≡ reserved_of k s)
unfolding take_stock
take_stock_inv j q k s t e = elim (Option-cases (s.stock j)) [
  | inl gone ↦ absurd (ground (arith, e, gone))
  | inr (it, there) ↦ (ground (arith, e, there), ground (arith, e, there), ground (arith, e, there))
]

-- What the consumption of one row of an order does to the units of a stock item.
record Sells (order k : ℕ) (s t : Inventory) : Type 0 where
  units : sold_of order k t + held_of order k t ≡ sold_of order k s + held_of order k s
  on_hand : on_hand_of k t + sold_of order k t ≡ on_hand_of k s + sold_of order k s
  reserved : reserved_of k t + sold_of order k t ≡ reserved_of k s + sold_of order k s
  fewer :
      (id : ℕ) → sum_by (foreign order id) t.reservations ≤ sum_by (foreign order id) s.reservations

consume_row-Sells :
    (order k id : ℕ) (staff : Option ℕ) (now : ℕ) (x : Error) (s : Inventory) (r : Reservation)
    (t : Inventory)
    → IsOwn order s.reservations id
    → consume_row id staff now x s ≡ ok (r, t)
    → Sells order k s t
unfolding consume_row
consume_row-Sells order k id staff now x s r t mine e =
    elim (Option-cases (update_where (is_live id) (as_consumed now) s.reservations)) [
      | inl miss ↦ absurd (ground (arith, e, miss))
      | inr ((y, rs), hit) ↦
          elim (Option-cases
            (take_stock y.stock_item y.quantity (record s { reservations = rs }))) [
              | inl short ↦ absurd (ground (arith, e, hit, short))
              | inr (u, took) ↦
                  let t_is : (t.reservations ≡ u.reservations) × (t.stock ≡ u.stock) =
                    (ground (arith, e, hit, took), ground (arith, e, hit, took)) in
                  let (rows, less, fewer) =
                    take_stock_inv y.stock_item y.quantity k (record s { reservations = rs }) u
                      took in
                  sells y rs u t_is rows less fewer
                    (update_where_row (is_live id) (as_consumed now) s.reservations y rs hit)
            ]
    ]
  where
    sells :
        (y : Reservation) (rs : List Reservation) (u : Inventory)
        → (t.reservations ≡ u.reservations) × (t.stock ≡ u.stock)
        → u.reservations ≡ rs
        → on_hand_of k u + units_if y.stock_item k y.quantity ≡ on_hand_of k s
        → reserved_of k u + units_if y.stock_item k y.quantity ≡ reserved_of k s
        → (q : Reservation) × (is_live id q ≡ true)
          × (y ≡ as_consumed now q)
          × ((g : Reservation → ℕ)
              → (sum_by g s.reservations + g (as_consumed now q) ≡ sum_by g rs + g q)
                × (g q ≤ sum_by g s.reservations))
        → Sells order k s t
    sells y rs u (t_rows, t_stock) rows less fewer (q, live, y_is, totals) =
        let here : is_for order q ≡ true =
          ground (arith, live, mine, (totals (foreign order id)).1) in
        let n = units_if q.stock_item k q.quantity in
        let held : held_units order k q ≡ n = ground (arith, live, here) in
        let freed : held_units order k (as_consumed now q) ≡ 0 = ground arith in
        let unsold : sold_units order k q ≡ 0 = ground (arith, live) in
        let sold : sold_units order k (as_consumed now q) ≡ n = ground (arith, here) in
        let same : units_if y.stock_item k y.quantity ≡ n = rw y_is refl in
        let all : t.reservations ≡ rs = t_rows ∙ rows in
        let hand : on_hand_of k t ≡ on_hand_of k u = rw (t_stock, on_hand_of) refl in
        let kept : reserved_of k t ≡ reserved_of k u = rw (t_stock, reserved_of) refl in
        record {
          units = rw all (
              omega (
                arith,
                totals (sold_units order k),
                totals (held_units order k),
                held,
                freed,
                unsold,
                sold,
              ));
          on_hand =
              rw all (omega (arith, totals (sold_units order k), unsold, sold, same, less, hand));
          reserved =
              rw all (omega (arith, totals (sold_units order k), unsold, sold, same, fewer, kept));
          fewer = λ j.
              let gone : foreign order j (as_consumed now q) ≡ 0 = ground arith in
              rw all (omega (arith, totals (foreign order j), gone));
        }

fewer-IsOwn :
    (order : ℕ) (ids : List ℕ) (rs rs' : List Reservation)
    → ((id : ℕ) → sum_by (foreign order id) rs' ≤ sum_by (foreign order id) rs)
    → All (IsOwn order rs) ids
    → All (IsOwn order rs') ids
fewer-IsOwn order [] rs rs' fewer mine = tt
fewer-IsOwn order (id ∷ ids) rs rs' fewer mine =
    (omega (arith, fewer id, mine.0), fewer-IsOwn order ids rs rs' fewer mine.1)

-- Consuming rows of an order sells exactly what the order holds of a stock item less of it.
consume_many-Sells :
    (order k : ℕ) (ids : List ℕ) (staff : Option ℕ) (now : ℕ) (s : Inventory)
    (rs : List Reservation) (t : Inventory)
    → All (IsOwn order s.reservations) ids
    → consume_many_in_transaction ids staff now s ≡ ok (rs, t)
    → Sells order k s t
unfolding consume_many_in_transaction
consume_many-Sells order k [] staff now s rs t mine e =
    let same : t ≡ s = cc in
    rw same (record { units = refl; on_hand = refl; reserved = refl; fewer = λ j. omega arith })
consume_many-Sells order k (id ∷ ids) staff now s rs t mine e =
    let (r, u, first, e₁) =
      bind_inv (consume_row id staff now invalid_state_transition) _ s rs t e in
    let (rest, v, more, e₂) = bind_inv (consume_many_in_transaction ids staff now) _ u rs t e₁ in
    let same : t ≡ v = cc in
    let step = consume_row-Sells order k id staff now invalid_state_transition s r u mine.0 first in
    let steps =
      consume_many-Sells order k ids staff now u rest v
        (fewer-IsOwn order ids s.reservations u.reservations step.fewer mine.1) more in
    rw same (record {
      units = omega (arith, step.units, steps.units);
      on_hand = omega (arith, step.on_hand, steps.on_hand);
      reserved = omega (arith, step.reserved, steps.reserved);
      fewer = λ j. omega (arith, step.fewer j, steps.fewer j);
    })

-- The ids of the active rows of an order are its own, if ids are unique.
ids-IsOwn :
    (order : ℕ) (all rs : List Reservation)
    → IsUnique all
    → ((id : ℕ) → sum_by (own order id) rs ≤ sum_by (own order id) all)
    → All (IsOwn order all) (map (λ r. r.id) (select (is_active_of order) rs))
ids-IsOwn order all [] unique within = tt
ids-IsOwn order all (r ∷ rs) unique within =
    let rest = ids-IsOwn order all rs unique (λ id. omega (arith, within id)) in
    elim (Bool-cases (is_active_of order r)) [
      | inr other ↦ rw other rest
      | inl mine ↦ rw mine (alone (ground (arith, mine)), rest)
    ]
  where
    alone : own order r.id r ≡ 1 → IsOwn order all r.id
    alone h =
        let plus =
          sum_by-plus (own order r.id) (foreign order r.id)
            (λ x. own order r.id x + foreign order r.id x) all (λ x. refl) in
        let le =
          sum_by-le (λ x. own order r.id x + foreign order r.id x) (has_key r.id) all
            (λ x. ground arith) in
        omega (arith, plus, le, h, within r.id, unique r.id)

-- Consuming all active rows of an order: what it held of a stock item is sold to it, and is neither
-- on hand nor reserved any more.
pub consume_all-sells :
    (order k : ℕ) (staff : Option ℕ) (now : ℕ) (s : Inventory) (rs : List Reservation)
    (t : Inventory)
    → IsUnique s.reservations
    → consume_many_in_transaction
        (map (λ r. r.id) (select (is_active_of order) s.reservations))
        staff
        now
        s
      ≡ ok (rs, t)
    → held_of order k t ≡ 0
    → (sold_of order k t ≡ sold_of order k s + held_of order k s)
      × (on_hand_of k t + held_of order k s ≡ on_hand_of k s)
      × (reserved_of k t + held_of order k s ≡ reserved_of k s)
consume_all-sells order k staff now s rs t unique e none_left =
    let mine = ids-IsOwn order s.reservations s.reservations unique (λ id. omega arith) in
    let sells =
      consume_many-Sells order k (map (λ r. r.id) (select (is_active_of order) s.reservations))
        staff now s rs t mine e in
    (
      omega (arith, sells.units, none_left),
      omega (arith, sells.units, sells.on_hand, none_left),
      omega (arith, sells.units, sells.reserved, none_left),
    )
