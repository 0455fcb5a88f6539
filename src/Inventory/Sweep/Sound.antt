-- ===== src/Inventory/Sweep/Sound.antt =====
-- Sweeps keep the counters sound, and leave alone what was pinned.
use phone_cases_backend.Prelude.{
  ℕ, ◌≡◌, refl, ◌∙◌, ◌≤◌, Bool, true, ◌&&◌, none, List, [], ◌∷◌, Option-cases, inl, inr, sum_by,
  arith, if◌then◌else◌, take, ◌==◌, map, is_some,
}
use phone_cases_backend.Prelude.Results.{commit_keeps}
use phone_cases_backend.Prelude.Tables.{update_all}
use phone_cases_backend.Inventory.{Inventory, Reservation, expired, is_live, is_expired}
use phone_cases_backend.Inventory.Invariant.{IsSound}
use phone_cases_backend.Inventory.Hold.{
  Holder, StockLine, reserve_line, resolve_expires_at, reserve_aggregated,
  reserve_many_in_transaction, aggregate_lines,
}
use phone_cases_backend.Inventory.Hold.Sound.{reserve_line-IsSound, reserve_aggregated-IsSound}
use phone_cases_backend.Inventory.Release.{
  release_row, give_back, pin_active_for_order, is_active_of,
}
use phone_cases_backend.Inventory.Release.Sound.{OnlyActive, release_row_inv, release_row-IsSound}
use phone_cases_backend.Inventory.Sweep.{
  release_if_still_expired, release_candidates, expired_ids, release_all_expired,
  release_expired_for_stock_item, sweep_expired, reserve, reserve_many,
}

abbrev test_expired : ℕ → ℕ → Reservation → Bool
test_expired id now r = is_live id r && is_expired now r

OnlyActive-test_expired : (id now : ℕ) → OnlyActive (test_expired id now)
OnlyActive-test_expired id now r h = ground arith

pub release_if_still_expired-IsSound :
    (id now : ℕ) (s : Inventory) → IsSound s → IsSound (release_if_still_expired id now s).1
unfolding release_if_still_expired
release_if_still_expired-IsSound id now s v =
    elim (Option-cases (release_row (test_expired id now) expired now s)) [
      | inl gone ↦ rw (gone, release_if_still_expired) v
      | inr ((x, s'), there) ↦
          rw (there, release_if_still_expired)
            (release_row-IsSound (test_expired id now) expired now s x s'
              (OnlyActive-test_expired id now) refl v there)
    ]

pub release_candidates-IsSound :
    (ids : List ℕ) (now : ℕ) (s : Inventory) → IsSound s → IsSound (release_candidates ids now s).1
unfolding release_candidates
release_candidates-IsSound [] now s v = v
release_candidates-IsSound (id ∷ ids) now s v =
    release_candidates-IsSound ids now (release_if_still_expired id now s).1
      (release_if_still_expired-IsSound id now s v)

sweep_expired-IsSound :
    (ks : List ℕ) (now : ℕ) (s : Inventory) → IsSound s → IsSound (sweep_expired ks now s)
unfolding sweep_expired release_expired_for_stock_item
sweep_expired-IsSound [] now s v = v
sweep_expired-IsSound (k ∷ ks) now s v =
    sweep_expired-IsSound ks now (release_expired_for_stock_item k now s)
      (release_candidates-IsSound (expired_ids (λ r. r.stock_item == k) now s) now s v)

-- Whether it reserves or refuses, `reserveMany` leaves the counters sound.
pub reserve_many-IsSound :
    (lines : List StockLine) (h : Holder) (now : ℕ) (s : Inventory)
    → IsSound s
    → IsSound (reserve_many lines h now s).1
unfolding reserve_many reserve_many_in_transaction
reserve_many-IsSound lines h now s v =
    let ls = aggregate_lines lines in
    let x = resolve_expires_at now h.ttl in
    let s₀ = sweep_expired (map (λ l. l.stock_item) ls) now s in
    let v₀ = sweep_expired-IsSound (map (λ l. l.stock_item) ls) now s v in
    commit_keeps IsSound (reserve_aggregated ls h x) s₀ v₀
      (λ rs s' e. reserve_aggregated-IsSound ls h x s₀ rs s' v₀ e)

pub reserve-IsSound :
    (k q : ℕ) (h : Holder) (now : ℕ) (s : Inventory) → IsSound s → IsSound (reserve k q h now s).1
unfolding reserve release_expired_for_stock_item
reserve-IsSound k q h now s v =
    let x = resolve_expires_at now h.ttl in
    let s₀ = release_expired_for_stock_item k now s in
    let v₀ = release_candidates-IsSound (expired_ids (λ r. r.stock_item == k) now s) now s v in
    commit_keeps IsSound (reserve_line k q h x) s₀ v₀
      (λ r s' e. reserve_line-IsSound k q h x s₀ r s' v₀ e)

-- What an order holds of a stock item.
abbrev pub held_for : ℕ → ℕ → Reservation → ℕ
held_for order k r = if is_active_of order r && r.stock_item == k then r.quantity else 0

-- The part of it that never expires.
abbrev pinned_for : ℕ → ℕ → Reservation → ℕ
pinned_for order k r = if is_some r.expires_at then 0 else held_for order k r

give_back_rows : (k q : ℕ) (s : Inventory) → (give_back k q s).reservations ≡ s.reservations
unfolding give_back
give_back_rows k q s = ground arith

release_if_still_expired-pinned :
    (order k id now : ℕ) (s : Inventory)
    → let s' = (release_if_still_expired id now s).1 in
      sum_by (pinned_for order k) s'.reservations ≡ sum_by (pinned_for order k) s.reservations
unfolding release_if_still_expired
release_if_still_expired-pinned order k id now s =
    elim (Option-cases (release_row (test_expired id now) expired now s)) [
      | inl gone ↦ rw (gone, release_if_still_expired) refl
      | inr ((x, s'), there) ↦
          let (r, rs, passed, made, total, same) =
            release_row_inv (test_expired id now) expired now s x s' there in
          rw (there, release_if_still_expired)
            (ground (
              arith,
              total (pinned_for order k),
              passed,
              same,
              give_back_rows r.stock_item r.quantity (record s { reservations = rs }),
            ))
    ]

release_candidates-pinned :
    (order k : ℕ) (ids : List ℕ) (now : ℕ) (s : Inventory)
    → let s' = (release_candidates ids now s).1 in
      sum_by (pinned_for order k) s'.reservations ≡ sum_by (pinned_for order k) s.reservations
unfolding release_candidates
release_candidates-pinned order k [] now s = refl
release_candidates-pinned order k (id ∷ ids) now s =
    release_candidates-pinned order k ids now (release_if_still_expired id now s).1
    ∙ release_if_still_expired-pinned order k id now s

pin-pinned :
    (order k : ℕ) (rs : List Reservation)
    → sum_by
        (pinned_for order k)
        (update_all (is_active_of order) (λ r. record r { expires_at = none }) rs)
      ≡ sum_by (held_for order k) rs
pin-pinned order k [] = refl
pin-pinned order k (r ∷ rs) = ground (arith, pin-pinned order k rs)

pinned-le :
    (order k : ℕ) (rs : List Reservation)
    → sum_by (pinned_for order k) rs ≤ sum_by (held_for order k) rs
pinned-le order k [] = omega arith
pinned-le order k (r ∷ rs) = ground (arith, pinned-le order k rs)

-- What an order holds when it is pinned is still held after a sweep, at whatever time it runs and
-- whatever rows it picks.
pub pinned_survives_sweep :
    (order k limit now : ℕ) (s : Inventory)
    → let s' = (release_all_expired limit now (pin_active_for_order order s)).1 in
      sum_by (held_for order k) s.reservations ≤ sum_by (held_for order k) s'.reservations
unfolding release_all_expired pin_active_for_order
pinned_survives_sweep order k limit now s =
    let p = pin_active_for_order order s in
    let ids = take limit (expired_ids (λ _. true) now p) in
    omega (
      arith,
      pinned-le order k (release_candidates ids now p).1.reservations,
      release_candidates-pinned order k ids now p,
      pin-pinned order k s.reservations,
    )
