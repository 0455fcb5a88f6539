-- ===== src/Inventory/Consume.antt =====
-- Turning holds into sales: `ReservationsService` of
-- src/modules/inventory/reservations/reservations.service.ts. `now` is the clock in milliseconds.
pub mod Sound
use phone_cases_backend.Prelude.{
  ℕ, ◌-◌, ◌&&◌, Option, none, some, List, [], ◌∷◌, ◌++◌, leb, if◌then◌else◌,
}
use phone_cases_backend.Prelude.Int.{neg}
use phone_cases_backend.Prelude.Tables.{put, update_where}
use phone_cases_backend.Prelude.Results.{ok, err, Tx, pure, ◌>>=◌}
use phone_cases_backend.Errors.{
  Error, resource_not_found, invalid_state_transition, counters_inconsistent,
}
use phone_cases_backend.Inventory.{
  Inventory, Reservation, consumed, Movement, reservation_consumed, is_live, find_reservation,
}

abbrev pub as_consumed : ℕ → Reservation → Reservation
as_consumed now r = record r { status = consumed; consumed_at = some now }

-- `UPDATE stock_items SET "onHand" -= q, reserved -= q WHERE id AND "onHand" >= q AND reserved >= q`
unfoldable pub take_stock : ℕ → ℕ → Inventory → Option Inventory
take_stock k q s = elim (s.stock k) [
  | none ↦ none
  | some it ↦
      if leb q it.on_hand && leb q it.reserved
      then some (record s {
        stock = put k (record { on_hand = it.on_hand - q; reserved = it.reserved - q }) s.stock;
      })
      else none
]

abbrev pub consumption : Reservation → Option ℕ → Movement
consumption r staff = record {
  stock_item = r.stock_item;
  delta = neg r.quantity;
  reason = reservation_consumed r.id;
  staff = staff;
}

-- The statements of a consumption. `missing` is the refusal of a reservation that is not active;
-- `consume` and `consumeMany` word it differently.
unfoldable pub consume_row : ℕ → Option ℕ → ℕ → Error → Tx Inventory Error Reservation
consume_row id staff now missing s =
    elim (update_where (is_live id) (as_consumed now) s.reservations) [
      | none ↦ err missing
      | some (r, rs) ↦ elim (take_stock r.stock_item r.quantity (record s { reservations = rs })) [
        | none ↦ err counters_inconsistent
        | some s' ↦ ok (r, record s' { movements = s'.movements ++ (consumption r staff ∷ []) })
      ]
    ]

unfoldable pub consume : ℕ → Option ℕ → ℕ → Tx Inventory Error Reservation
consume id staff now s =
    consume_row id staff now
      (elim (find_reservation id s) [
        | none ↦ resource_not_found id
        | some r ↦ invalid_state_transition
      ])
      s

unfoldable pub consume_many_in_transaction :
    List ℕ → Option ℕ → ℕ → Tx Inventory Error (List Reservation)
consume_many_in_transaction [] staff now = pure []
consume_many_in_transaction (id ∷ ids) staff now = do
  r ← consume_row id staff now invalid_state_transition
  rs ← consume_many_in_transaction ids staff now
  pure (r ∷ rs)
