-- ===== src/Inventory/Tests.antt =====
-- Runs of the inventory on small tables, and its theorems at concrete inputs.
use phone_cases_backend.Prelude.{◌+◌, ◌≤◌, ◌≡◌, refl, none, some, List, [], ◌∷◌, map, sum_by, arith}
use phone_cases_backend.Prelude.Results.{Result, ok, err}
use phone_cases_backend.Prelude.Tables.{update_where}
use phone_cases_backend.Errors.{insufficient_stock, resource_not_found, counters_inconsistent}
use phone_cases_backend.Inventory.{Inventory, Reservation}
use phone_cases_backend.Inventory.Invariant.{active_sum, IsSound}
use phone_cases_backend.Inventory.Hold.{
  Holder, StockLine, unset, reserve_many_in_transaction, reserve_line,
}
use phone_cases_backend.Inventory.Hold.Demand.{demand, reserve_many-held, reserve_many_ready}
use phone_cases_backend.Inventory.Release.{pin_active_for_order}
use phone_cases_backend.Inventory.Consume.{consume, consume_row, take_stock}
use phone_cases_backend.Inventory.Consume.Sound.{consume_row_consistent}
use phone_cases_backend.Inventory.Sweep.{release_all_expired}
use phone_cases_backend.Inventory.Sweep.Sound.{held_for, pinned_survives_sweep}
use phone_cases_backend.Inventory.StockItems.{create}
use phone_cases_backend.Inventory.Runs.{
  Reach, here, next, created, ordered, no_stock, IsSound-no_stock, Reach-IsSound, never_oversold,
}

abbrev checkout : Holder
checkout = record { cart = none; order = some 70; ttl = unset }

abbrev lines : List StockLine
lines =
    record { stock_item = 0; quantity = 2 }
    ∷ record { stock_item = 1; quantity = 1 }
    ∷ record { stock_item = 0; quantity = 1 }
    ∷ []

abbrev state_of {ℓ κ} : {E : Type κ} {A : Type ℓ} → Result E (A × Inventory) → Inventory
state_of (ok (a, s)) = s
state_of (err e) = no_stock

-- Two stock items, of 5 and of 2 units.
stocked : Inventory
unfolding create
stocked = state_of (create 11 (some 2) (state_of (create 10 (some 5) no_stock)))

held_state : Inventory
unfolding stocked reserve_many_in_transaction reserve_line
held_state = state_of (reserve_many_in_transaction 1000 lines checkout stocked)

two_rows : map (λ r. r.quantity) held_state.reservations ≡ 3 ∷ 1 ∷ []
unfolding held_state
two_rows = refl

reserved_of_first : held_state.stock 0 ≡ some (record { on_hand = 5; reserved = 3 })
unfolding held_state
reserved_of_first = refl

too_many :
    reserve_many_in_transaction 1000
      (record { stock_item = 1; quantity = 3 } ∷ [])
      checkout
      held_state
    ≡ err (insufficient_stock 1 3)
unfolding held_state reserve_many_in_transaction reserve_line
too_many = refl

consumed_first :
    (state_of (consume 2 none 2000 held_state)).stock 0
    ≡ some (record { on_hand = 2; reserved = 0 })
unfolding held_state consume consume_row take_stock update_where
consumed_first = refl

Reach-held_state : Reach no_stock held_state
unfolding held_state
Reach-held_state =
    next (next (next here (created 10 (some 5) 0 refl)) (created 11 (some 2) 1 refl))
      (ordered 1000 lines checkout (held_state.reservations) refl)

never_oversold_example :
    (3 ≡ active_sum 0 held_state.reservations) × (active_sum 0 held_state.reservations ≤ 5)
never_oversold_example =
    never_oversold held_state 0 (record { on_hand = 5; reserved = 3 }) Reach-held_state
      reserved_of_first

stocked-IsSound : IsSound stocked
unfolding stocked
stocked-IsSound =
    Reach-IsSound (next (next here (created 10 (some 5) 0 refl)) (created 11 (some 2) 1 refl))
      IsSound-no_stock

reserve_many-held_example : active_sum 0 held_state.reservations ≡ 0 + demand 0 lines
unfolding held_state
reserve_many-held_example =
    reserve_many-held 1000 lines checkout stocked held_state.reservations held_state 0 refl

reserve_many_ready_example :
    (rs : List Reservation) × (s' : Inventory) × (reserve_many_in_transaction 1000 lines checkout
        stocked
      ≡ ok (rs, s'))
unfolding stocked
reserve_many_ready_example =
    reserve_many_ready 1000 lines checkout stocked (omega arith) (λ k. ground arith)

consume_row_consistent_example :
    ¬ (consume_row 2 none 2000 (resource_not_found 2) held_state ≡ err counters_inconsistent)
consume_row_consistent_example =
    consume_row_consistent 2 none 2000 (resource_not_found 2) held_state
      (Reach-IsSound Reach-held_state IsSound-no_stock) (λ e. cc)

pinned_survives_sweep_example :
    sum_by (held_for 70 0) held_state.reservations
    ≤ sum_by
        (held_for 70 0)
        (release_all_expired 200 9_000_000 (pin_active_for_order 70 held_state)).1.reservations
pinned_survives_sweep_example = pinned_survives_sweep 70 0 200 9_000_000 held_state
