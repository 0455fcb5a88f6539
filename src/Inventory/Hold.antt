-- ===== src/Inventory/Hold.antt =====
-- Placing holds: `ReservationsService` of
-- src/modules/inventory/reservations/reservations.service.ts. `now` is the clock in milliseconds.
pub mod Sound
pub mod Demand
use phone_cases_backend.Prelude.{
  ℕ, ◌+◌, ◌*◌, Option, none, some, List, [], ◌∷◌, ◌++◌, leb, ◌==◌, if◌then◌else◌,
}
use phone_cases_backend.Prelude.Tables.{put}
use phone_cases_backend.Prelude.Results.{ok, err, Tx, pure, ◌>>=◌}
use phone_cases_backend.Errors.{Error, insufficient_stock}
use phone_cases_backend.Inventory.{Inventory, Reservation, active}

-- `ttlMinutes?: number | null`: undefined, null, or a number.
pub data Ttl : Type 0 where
  unset never : Ttl
  minutes : ℕ → Ttl

abbrev default_reservation_ttl_minutes : ℕ
default_reservation_ttl_minutes = 15

unfoldable pub resolve_expires_at : ℕ → Ttl → Option ℕ
resolve_expires_at now never = none
resolve_expires_at now unset = some (now + default_reservation_ttl_minutes * 60_000)
resolve_expires_at now (minutes n) = some (now + n * 60_000)

-- Who holds a reservation, and for how long.
pub record Holder : Type 0 where
  pub cart : Option ℕ
  pub order : Option ℕ
  pub ttl : Ttl

-- A line that needs stock: a stock item and a quantity.
pub record StockLine : Type 0 where
  pub stock_item : ℕ
  pub quantity : ℕ

-- `UPDATE stock_items SET reserved = reserved + q WHERE id AND "onHand" - reserved >= q`
pub hold_stock : ℕ → ℕ → Inventory → Option Inventory
hold_stock k q s = elim (s.stock k) [
  | none ↦ none
  | some it ↦
      if leb (it.reserved + q) it.on_hand
      then some (record s { stock = put k (record it { reserved = it.reserved + q }) s.stock })
      else none
]

abbrev pub new_reservation : Inventory → ℕ → ℕ → Holder → Option ℕ → Reservation
new_reservation s k q h expires_at = record {
  id = s.next_id;
  stock_item = k;
  cart = h.cart;
  order = h.order;
  quantity = q;
  status = active;
  expires_at = expires_at;
  released_at = none;
  consumed_at = none;
}

pub create_reservation : ℕ → ℕ → Holder → Option ℕ → Tx Inventory Error Reservation
create_reservation k q h expires_at s =
    let r = new_reservation s k q h expires_at in
    ok (r, record s { reservations = s.reservations ++ (r ∷ []); next_id = s.next_id + 1 })

-- One line of a reservation: the body of `reserve`, and of the loop of `reserveMany`.
unfoldable pub reserve_line : ℕ → ℕ → Holder → Option ℕ → Tx Inventory Error Reservation
unfolding hold_stock create_reservation
reserve_line k q h expires_at s = elim (hold_stock k q s) [
  | none ↦ err (insufficient_stock k q)
  | some s' ↦ create_reservation k q h expires_at s'
]

-- `aggregateLines`: a `Map` in the order of first insertion.
unfoldable pub add_line : StockLine → List StockLine → List StockLine
add_line l [] = l ∷ []
add_line l (m ∷ ms) =
    if m.stock_item == l.stock_item
    then (record m { quantity = m.quantity + l.quantity }) ∷ ms
    else m ∷ add_line l ms

unfoldable pub aggregate_from : List StockLine → List StockLine → List StockLine
unfolding add_line
aggregate_from done [] = done
aggregate_from done (l ∷ ls) = aggregate_from (add_line l done) ls

unfoldable pub aggregate_lines : List StockLine → List StockLine
unfolding aggregate_from
aggregate_lines = aggregate_from []

pub reserve_aggregated : List StockLine → Holder → Option ℕ → Tx Inventory Error (List Reservation)
unfolding reserve_line
reserve_aggregated [] h expires_at = pure []
reserve_aggregated (l ∷ ls) h expires_at = do
  r ← reserve_line l.stock_item l.quantity h expires_at
  rs ← reserve_aggregated ls h expires_at
  pure (r ∷ rs)

unfoldable pub reserve_many_in_transaction :
    ℕ → List StockLine → Holder → Tx Inventory Error (List Reservation)
unfolding reserve_aggregated aggregate_lines resolve_expires_at
reserve_many_in_transaction now lines h =
    reserve_aggregated (aggregate_lines lines) h (resolve_expires_at now h.ttl)
