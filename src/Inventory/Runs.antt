-- ===== src/Inventory/Runs.antt =====
-- The transactions of the two inventory services in any order, whoever makes them: each step is one
-- committed transaction, so that every interleaving of concurrent requests is a run.
use phone_cases_backend.Prelude.{
  ℕ, ◌≤◌, ◌≡◌, refl, false, Option, none, some, List, [], ◌∷◌, sum_by, arith,
}
use phone_cases_backend.Prelude.Int.{ℤ}
use phone_cases_backend.Prelude.Results.{ok}
use phone_cases_backend.Prelude.Tables.{update_all}
use phone_cases_backend.Inventory.{Inventory, StockItem, Reservation, ReservationStatus, is_active}
use phone_cases_backend.Inventory.Invariant.{active_sum, is_for, IsSound}
use phone_cases_backend.Inventory.Hold.{
  Holder, StockLine, reserve_many_in_transaction, aggregate_lines, resolve_expires_at,
}
use phone_cases_backend.Inventory.Hold.Sound.{reserve_aggregated-IsSound}
use phone_cases_backend.Inventory.Release.{
  release_one, release, release_many_in_transaction, pin_active_for_order, is_active_of,
}
use phone_cases_backend.Inventory.Release.Sound.{release_one-IsSound, release_many-IsSound}
use phone_cases_backend.Inventory.Consume.{consume, consume_many_in_transaction}
use phone_cases_backend.Inventory.Consume.Sound.{consume_row-IsSound, consume_many-IsSound}
use phone_cases_backend.Inventory.Sweep.{release_if_still_expired, reserve, reserve_many}
use phone_cases_backend.Inventory.Sweep.Sound.{
  release_if_still_expired-IsSound, reserve-IsSound, reserve_many-IsSound,
}
use phone_cases_backend.Inventory.StockItems.{create, adjust, create-IsSound, adjust-IsSound}

-- A correction of a count by hand is a step only where it leaves enough for the active holds:
-- `adjust` itself asks only that the count stay above zero.
pub data Step (s : Inventory) (s' : Inventory) : Type 0 where
  created : (sku : ℕ) (on_hand : Option ℕ) (k : ℕ) → create sku on_hand s ≡ ok (k, s') → Step s s'
  adjusted :
      (k : ℕ) (delta : ℤ) (reason : ℕ) (staff : Option ℕ) (it : StockItem)
      → adjust k delta reason staff s ≡ ok (it, s')
      → it.reserved ≤ it.on_hand
      → Step s s'
  reserved : (k q : ℕ) (h : Holder) (now : ℕ) → s' ≡ (reserve k q h now s).1 → Step s s'
  reserved_many :
      (lines : List StockLine) (h : Holder) (now : ℕ)
      → s' ≡ (reserve_many lines h now s).1
      → Step s s'
  ordered :
      (now : ℕ) (lines : List StockLine) (h : Holder) (rs : List Reservation)
      → reserve_many_in_transaction now lines h s ≡ ok (rs, s')
      → Step s s'
  released :
      (id : ℕ) (status : ReservationStatus) (now : ℕ) (r : Reservation)
      → is_active status ≡ false
      → release id status now s ≡ ok (r, s')
      → Step s s'
  released_many :
      (ids : List ℕ) (status : ReservationStatus) (now : ℕ)
      → is_active status ≡ false
      → s' ≡ (release_many_in_transaction ids status now s).1
      → Step s s'
  consumed :
      (id : ℕ) (staff : Option ℕ) (now : ℕ) (r : Reservation)
      → consume id staff now s ≡ ok (r, s')
      → Step s s'
  consumed_many :
      (ids : List ℕ) (staff : Option ℕ) (now : ℕ) (rs : List Reservation)
      → consume_many_in_transaction ids staff now s ≡ ok (rs, s')
      → Step s s'
  swept : (id now : ℕ) → s' ≡ (release_if_still_expired id now s).1 → Step s s'
  pinned : (order : ℕ) → s' ≡ pin_active_for_order order s → Step s s'

pub data Reach (s : Inventory) : Inventory → Type 0 where
  here : Reach s s
  next : {t u : Inventory} → Reach s t → Step t u → Reach s u

release-IsSound :
    (id : ℕ) (status : ReservationStatus) (now : ℕ) (s : Inventory) (r : Reservation)
    (s' : Inventory)
    → is_active status ≡ false
    → IsSound s
    → release id status now s ≡ ok (r, s')
    → IsSound s'
unfolding release
release-IsSound id status now s r s' inert v e =
    let v' = release_one-IsSound id status now s inert v in
    let same : s' ≡ (release_one id status now s).1 = ground arith in rw same v'

update_all-held :
    (order k : ℕ) (rs : List Reservation)
    → let rs' = update_all (is_active_of order) (λ r. record r { expires_at = none }) rs in
      (active_sum k rs' ≡ active_sum k rs) × (sum_by (is_for k) rs' ≡ sum_by (is_for k) rs)
update_all-held order k [] = (refl, refl)
update_all-held order k (r ∷ rs) = ground (arith, update_all-held order k rs)

pub pin-IsSound : (order : ℕ) (s : Inventory) → IsSound s → IsSound (pin_active_for_order order s)
unfolding pin_active_for_order
pin-IsSound order s v = record {
  counted = λ k. rw ((update_all-held order k s.reservations).0) (v.counted k);
  backed = v.backed;
  fresh = v.fresh;
  linked = λ k. rw ((update_all-held order k s.reservations).1) (v.linked k);
}

pub Step-IsSound : {s s' : Inventory} → Step s s' → IsSound s → IsSound s'
unfolding consume reserve_many_in_transaction
Step-IsSound {s} {s'} (created sku n k e) v = create-IsSound sku n s k s' v e
Step-IsSound {s} {s'} (adjusted k d why staff it e enough) v =
    adjust-IsSound k d why staff s it s' v e enough
Step-IsSound {s} (reserved k q h now e) v = rw e (reserve-IsSound k q h now s v)
Step-IsSound {s} (reserved_many ls h now e) v = rw e (reserve_many-IsSound ls h now s v)
Step-IsSound {s} {s'} (ordered now ls h rs e) v =
    reserve_aggregated-IsSound (aggregate_lines ls) h (resolve_expires_at now h.ttl) s rs s' v e
Step-IsSound {s} {s'} (released id status now r inert e) v =
    release-IsSound id status now s r s' inert v e
Step-IsSound {s} (released_many ids status now inert e) v =
    rw e (release_many-IsSound ids status now s inert v)
Step-IsSound {s} {s'} (consumed id staff now r e) v = consume_row-IsSound id staff now _ s r s' v e
Step-IsSound {s} {s'} (consumed_many ids staff now rs e) v =
    consume_many-IsSound ids staff now s rs s' v e
Step-IsSound {s} (swept id now e) v = rw e (release_if_still_expired-IsSound id now s v)
Step-IsSound {s} (pinned order e) v = rw e (pin-IsSound order s v)

pub Reach-IsSound : {s s' : Inventory} → Reach s s' → IsSound s → IsSound s'
Reach-IsSound here v = v
Reach-IsSound (next r st) v = Step-IsSound st (Reach-IsSound r v)

abbrev pub no_stock : Inventory
no_stock = record { stock = λ _. none; skus = []; reservations = []; movements = []; next_id = 0 }

pub IsSound-no_stock : IsSound no_stock
IsSound-no_stock = record {
  counted = λ _. refl;
  backed = λ _. tt;
  fresh = λ _ _. refl;
  linked = λ _. refl;
}

-- However requests interleave, from an empty inventory on: the counter of reserved units of every
-- stock item is the total of its active reservations, and never more than the units on hand.
pub never_oversold :
    (s : Inventory) (k : ℕ) (it : StockItem)
    → Reach no_stock s
    → s.stock k ≡ some it
    → (it.reserved ≡ active_sum k s.reservations) × (active_sum k s.reservations ≤ it.on_hand)
never_oversold s k it run there =
    let v = Reach-IsSound run IsSound-no_stock in ground (arith, v.counted k, v.backed k, there)
