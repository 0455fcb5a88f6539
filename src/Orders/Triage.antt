-- ===== src/Orders/Triage.antt =====
-- `loadReservationTriage` of src/modules/orders/orders.service.ts: which reservations of an order
-- are active, and whether they and the consumed ones still cover all that the order reserved.
pub mod Coverage
use phone_cases_backend.Prelude.{
  ℕ, Bool, true, false, ◌||◌, List, [], ◌∷◌, map, select, ltb, ◌==◌, is_some_and, if◌then◌else◌,
}
use phone_cases_backend.Inventory.{Inventory, Reservation, ReservationStatus, consumed, is_active}
use phone_cases_backend.Inventory.Hold.{StockLine, aggregate_lines}

pub record Triage : Type 0 where
  pub active_ids : List ℕ
  pub has_any : Bool
  pub has_consumed : Bool
  pub fully_covered : Bool

abbrev pub is_of_order : ℕ → Reservation → Bool
is_of_order order r = is_some_and (λ o. o == order) r.order

abbrev pub is_consumed : ReservationStatus → Bool
is_consumed consumed = true
is_consumed _ = false

abbrev pub is_covering : Reservation → Bool
is_covering r = is_active r.status || is_consumed r.status

abbrev pub as_line : Reservation → StockLine
as_line r = record { stock_item = r.stock_item; quantity = r.quantity }

-- `map.get(k) ?? 0`
unfoldable pub quantity_of : ℕ → List StockLine → ℕ
quantity_of k [] = 0
quantity_of k (l ∷ ls) = if l.stock_item == k then l.quantity else quantity_of k ls

-- The loop over the required quantities, which stops at the first that is not covered.
unfoldable pub covers : List StockLine → List StockLine → Bool
unfolding quantity_of
covers covered [] = true
covers covered (l ∷ ls) =
    let rest = covers covered ls in
    if ltb (quantity_of l.stock_item covered) l.quantity then false else rest

abbrev is_nonempty {ℓ} : {A : Type ℓ} → List A → Bool
is_nonempty [] = false
is_nonempty (x ∷ xs) = true

unfoldable pub load_reservation_triage : ℕ → Inventory → Triage
unfolding covers
load_reservation_triage order i =
    let all = select (is_of_order order) i.reservations in
    let required = aggregate_lines (map as_line all) in
    let covered = aggregate_lines (map as_line (select is_covering all)) in
    record {
      active_ids = map (λ r. r.id) (select (λ r. is_active r.status) all);
      has_any = is_nonempty all;
      has_consumed = is_nonempty (select (λ r. is_consumed r.status) all);
      fully_covered = covers covered required;
    }
