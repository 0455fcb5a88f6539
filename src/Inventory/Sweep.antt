-- ===== src/Inventory/Sweep.antt =====
-- Holds that have expired, and the operations that sweep before they reserve:
-- `ReservationsService` of src/modules/inventory/reservations/reservations.service.ts.
pub mod Sound
use phone_cases_backend.Prelude.{
  ℕ, Bool, true, ◌&&◌, Option, none, some, List, [], ◌∷◌, map, ◌==◌, select, take,
}
use phone_cases_backend.Prelude.Results.{Result, commit}
use phone_cases_backend.Errors.{Error}
use phone_cases_backend.Inventory.{Inventory, Reservation, expired, is_active, is_live, is_expired}
use phone_cases_backend.Inventory.Hold.{
  Holder, StockLine, resolve_expires_at, aggregate_lines, reserve_line, reserve_many_in_transaction,
}
use phone_cases_backend.Inventory.Release.{release_row, cons_found}

-- `releaseIfStillExpired`, one transaction: the test for expiry is part of the write.
pub release_if_still_expired : ℕ → ℕ → Inventory → Option Reservation × Inventory
release_if_still_expired id now s =
    elim (release_row (λ r. is_live id r && is_expired now r) expired now s) [
      | none ↦ (none, s)
      | some (r, s') ↦ (some r, s')
    ]

-- The loop of the sweeps, over the ids that a query selected.
unfoldable pub release_candidates : List ℕ → ℕ → Inventory → List Reservation × Inventory
release_candidates [] now s = ([], s)
release_candidates (id ∷ ids) now s =
    let (found, s') = release_if_still_expired id now s in
    let (rs, s'') = release_candidates ids now s' in (cons_found found rs, s'')

abbrev pub expired_ids : (Reservation → Bool) → ℕ → Inventory → List ℕ
expired_ids p now s =
    map (λ r. r.id) (select (λ r. p r && is_active r.status && is_expired now r) s.reservations)

-- `releaseAllExpired`
unfoldable pub release_all_expired : ℕ → ℕ → Inventory → List Reservation × Inventory
release_all_expired limit now s =
    release_candidates (take limit (expired_ids (λ _. true) now s)) now s

-- `releaseExpiredForStockItem`
pub release_expired_for_stock_item : ℕ → ℕ → Inventory → Inventory
release_expired_for_stock_item k now s =
    (release_candidates (expired_ids (λ r. r.stock_item == k) now s) now s).1

-- `sweepExpiredForStockItems`
pub sweep_expired : List ℕ → ℕ → Inventory → Inventory
sweep_expired [] now s = s
sweep_expired (k ∷ ks) now s = sweep_expired ks now (release_expired_for_stock_item k now s)

-- `reserve`: the sweep, and then one transaction.
unfoldable pub reserve : ℕ → ℕ → Holder → ℕ → Inventory → Result Error Reservation × Inventory
reserve k q h now s =
    commit (reserve_line k q h (resolve_expires_at now h.ttl))
      (release_expired_for_stock_item k now s)

unfoldable pub reserve_many :
    List StockLine → Holder → ℕ → Inventory → Result Error (List Reservation) × Inventory
reserve_many lines h now s =
    commit (reserve_many_in_transaction now lines h)
      (sweep_expired (map (λ l. l.stock_item) (aggregate_lines lines)) now s)
