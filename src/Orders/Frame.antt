-- ===== src/Orders/Frame.antt =====
-- What the side effects of an order's transitions leave alone: they write to the inventory, the
-- coupons and the receipts, and keep the stock counters sound.
use phone_cases_backend.Prelude.{
  ℕ, ◌≡◌, refl, Bool, true, false, Option, none, some, ◌==◌, if◌then◌else◌, arith,
}
use phone_cases_backend.Prelude.Results.{Result, Tx, ok, err, same_result}
use phone_cases_backend.Prelude.Keyed.{update_where_found}
use phone_cases_backend.Errors.{Error}
use phone_cases_backend.Inventory.{Inventory, ReservationStatus, is_active}
use phone_cases_backend.Inventory.Invariant.{IsSound}
use phone_cases_backend.Inventory.Release.Sound.{release_many-IsSound}
use phone_cases_backend.Store.{Store, Order, find_order, in_inventory}
use phone_cases_backend.Orders.Writes.{
  update_order, release_coupon_use, release_order_stock, active_ids_of,
}

-- Two states with the same orders and refunds.
pub record SameOrders (s t : Store) : Type 0 where
  pub orders : t.orders ≡ s.orders
  pub refunds : t.refunds ≡ s.refunds

pub release_coupon_use-frame :
    (c : Option ℕ) (s : Store)
    → SameOrders s (release_coupon_use c s) × ((release_coupon_use c s).inventory ≡ s.inventory)
unfolding release_coupon_use
release_coupon_use-frame none s = ground arith
release_coupon_use-frame (some c) s = ground arith

pub release_order_stock-frame :
    (order : ℕ) (status : ReservationStatus) (now : ℕ) (s : Store)
    → SameOrders s (release_order_stock order status now s)
unfolding release_order_stock
release_order_stock-frame order status now s = record { orders = refl; refunds = refl }

pub release_order_stock-IsSound :
    (order : ℕ) (status : ReservationStatus) (now : ℕ) (s : Store)
    → is_active status ≡ false
    → IsSound s.inventory
    → IsSound (release_order_stock order status now s).inventory
unfolding release_order_stock
release_order_stock-IsSound order status now s inert v =
    release_many-IsSound (active_ids_of order s.inventory.reservations) status now s.inventory inert
      v

-- A guarded write of the order that a lookup has found always matches.
pub update_order_found :
    (test : Order → Bool) (f : Order → Order) (s : Store) (id : ℕ) (o : Order)
    → ((x : Order) → (f x).id ≡ x.id)
    → ((x : Order) → test x ≡ true → x.id ≡ id)
    → find_order id s ≡ some o
    → test o ≡ true
    → (s' : Store) × (update_order test f s ≡ ok (f o, s'))
      × (s'.refunds ≡ s.refunds)
      × (s'.inventory ≡ s.inventory)
      × ((j : ℕ) → find_order j s' ≡ (if j == id then some (f o) else find_order j s))
unfolding update_order
update_order_found test f s id o same only found passed =
    let (rs, (done, finds, totals)) =
      update_where_found (λ (x : Order). x.id) test f id s.orders o same only found passed in
    (record s { orders = rs }, ground (arith, done), refl, refl, finds)

-- An inventory operation that returned inside the whole database.
pub in_inventory_inv :
    {A : Type 0} (m : Tx Inventory Error A) (s : Store) (a : A) (t : Store)
    → in_inventory m s ≡ ok (a, t)
    → (i : Inventory) × (m s.inventory ≡ ok (a, i)) × (t ≡ record s { inventory = i })
in_inventory_inv {A} m s a t e = go (m s.inventory) refl e
  where
    go :
        (run : Result Error (A × Inventory))
        → m s.inventory ≡ run
        → in_inventory (λ _. run) s ≡ ok (a, t)
        → (i : Inventory) × (m s.inventory ≡ ok (a, i)) × (t ≡ record s { inventory = i })
    go (ok (b, i)) is e' = (i, cc, cc)
    go (err x) is e' = cc

-- The same, for a write that is known to have returned.
pub update_order_wrote :
    (test : Order → Bool) (f : Order → Order) (s : Store) (o o' : Order) (t : Store)
    → ((x : Order) → (f x).id ≡ x.id)
    → ((x : Order) → test x ≡ true → x.id ≡ o.id)
    → find_order o.id s ≡ some o
    → test o ≡ true
    → update_order test f s ≡ ok (o', t)
    → (o' ≡ f o)
      × ((j : ℕ) → find_order j t ≡ (if j == o.id then some o' else find_order j s))
      × (t.refunds ≡ s.refunds)
      × (t.inventory ≡ s.inventory)
update_order_wrote test f s o o' t same only found passed e =
    let (s₂, done, refunds, inventory, finds) =
      update_order_found test f s o.id o same only found passed in
    let (order_is, t_is) = same_result (update_order test f s) (f o) o' s₂ t done e in
    (order_is, λ j. rw (t_is, order_is) (finds j), rw t_is refunds, rw t_is inventory)
