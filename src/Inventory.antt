-- ===== src/Inventory.antt =====
-- Stock counters and reservations: the rows of `stock_items`, `stock_reservations` and
-- `stock_movements` (prisma/schema.prisma) and the operations of
-- src/modules/inventory/reservations and src/modules/inventory/stock-items.
pub mod Invariant
pub mod Hold
pub mod Release
pub mod Consume
pub mod Sweep
pub mod StockItems
pub mod Retire
pub mod Runs
mod Tests
use phone_cases_backend.Prelude.{ℕ, Bool, true, false, ◌&&◌, Option, List, ltb, ◌==◌, is_some_and}
use phone_cases_backend.Prelude.Int.{ℤ}
use phone_cases_backend.Prelude.Tables.{Table, find_first}

pub record StockItem : Type 0 where
  pub on_hand : ℕ
  pub reserved : ℕ

pub data ReservationStatus : Type 0 where
  active consumed released expired : ReservationStatus

-- Times are milliseconds; `expires_at` of `none` never expires.
pub record Reservation : Type 0 where
  pub id : ℕ
  pub stock_item : ℕ
  pub cart : Option ℕ
  pub order : Option ℕ
  pub quantity : ℕ
  pub status : ReservationStatus
  pub expires_at : Option ℕ
  pub released_at : Option ℕ
  pub consumed_at : Option ℕ

pub data MovementReason : Type 0 where
  reservation_consumed : ℕ → MovementReason
  manual : ℕ → MovementReason

-- The ledger of changes of `on_hand`. A consumption refers to its reservation.
pub record Movement : Type 0 where
  pub stock_item : ℕ
  pub delta : ℤ
  pub reason : MovementReason
  pub staff : Option ℕ

-- `skus` is the unique index on the column `sku`, which nothing else reads.
-- `next_id` stands for the generator of ids: a new row takes it and no row has it yet.
pub record Inventory : Type 0 where
  pub stock : Table StockItem
  pub skus : List ℕ
  pub reservations : List Reservation
  pub movements : List Movement
  pub next_id : ℕ

abbrev pub is_active : ReservationStatus → Bool
is_active active = true
is_active _ = false

abbrev pub is_live : ℕ → Reservation → Bool
is_live id r = r.id == id && is_active r.status

-- `"expiresAt" IS NOT NULL AND "expiresAt" < now()`
abbrev pub is_expired : ℕ → Reservation → Bool
is_expired now r = is_some_and (λ t. ltb t now) r.expires_at

abbrev pub find_reservation : ℕ → Inventory → Option Reservation
find_reservation id s = find_first (λ r. r.id == id) s.reservations
