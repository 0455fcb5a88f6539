-- ===== src/Inventory/Release.antt =====
-- Giving holds back, and pinning the holds of a confirmed order: `ReservationsService` of
-- src/modules/inventory/reservations/reservations.service.ts. `now` is the clock in milliseconds.
pub mod Sound
use phone_cases_backend.Prelude.{
  ℕ, ◌-◌, Bool, ◌&&◌, Option, none, some, List, [], ◌∷◌, leb, ◌==◌, is_some_and, if◌then◌else◌,
}
use phone_cases_backend.Prelude.Tables.{put, update_where, update_all}
use phone_cases_backend.Prelude.Results.{ok, err, Tx}
use phone_cases_backend.Errors.{Error, resource_not_found}
use phone_cases_backend.Inventory.{
  Inventory, Reservation, ReservationStatus, is_active, is_live, find_reservation,
}

-- `UPDATE stock_items SET reserved = reserved - q WHERE id AND reserved >= q`, whose count of rows
-- is not read.
unfoldable pub give_back : ℕ → ℕ → Inventory → Inventory
give_back k q s = elim (s.stock k) [
  | none ↦ s
  | some it ↦
      if leb q it.reserved
      then record s { stock = put k (record it { reserved = it.reserved - q }) s.stock }
      else s
]

abbrev pub as_released : ReservationStatus → ℕ → Reservation → Reservation
as_released status now r = record r { status = status; released_at = some now }

-- The two statements of a release, for the rows that a test allows: the status, if the row is still
-- active, and then the counter of its stock item.
unfoldable pub release_row :
    (Reservation → Bool) → ReservationStatus → ℕ → Inventory → Option (Reservation × Inventory)
release_row test status now s = elim (update_where test (as_released status now) s.reservations) [
  | none ↦ none
  | some (r, rs) ↦ some (r, give_back r.stock_item r.quantity (record s { reservations = rs }))
]

-- One release: the row as released, or as found in another state, or `none` if there is no row.
unfoldable pub release_one : ℕ → ReservationStatus → ℕ → Inventory → Option Reservation × Inventory
release_one id status now s = elim (release_row (is_live id) status now s) [
  | none ↦ (find_reservation id s, s)
  | some (r, s') ↦ (some r, s')
]

unfoldable pub release : ℕ → ReservationStatus → ℕ → Tx Inventory Error Reservation
unfolding release_one
release id status now s =
    let (found, s') = release_one id status now s in
    elim found [ none ↦ err (resource_not_found id) | some r ↦ ok (r, s') ]

abbrev pub cons_found : Option Reservation → List Reservation → List Reservation
cons_found none rs = rs
cons_found (some r) rs = r ∷ rs

-- `releaseManyInTransaction`, which never throws.
unfoldable pub release_many_in_transaction :
    List ℕ → ReservationStatus → ℕ → Inventory → List Reservation × Inventory
release_many_in_transaction [] status now s = ([], s)
release_many_in_transaction (id ∷ ids) status now s =
    let (found, s') = release_one id status now s in
    let (rs, s'') = release_many_in_transaction ids status now s' in (cons_found found rs, s'')

abbrev pub is_active_of : ℕ → Reservation → Bool
is_active_of order r = is_some_and (λ o. o == order) r.order && is_active r.status

-- `pinActiveForOrderInTransaction`
unfoldable pub pin_active_for_order : ℕ → Inventory → Inventory
pin_active_for_order order s = record s {
  reservations =
      update_all (is_active_of order) (λ r. record r { expires_at = none }) s.reservations;
}
