-- ===== src/Checkout/Creation/Rows.antt =====
-- What a placed order writes, and that it adds up.
use phone_cases_backend.Prelude.{
  ℕ, ◌+◌, ◌≡◌, refl, sym, ap, ◌∙◌, Bool, true, false, Option, none, some, List, [], ◌∷◌, ◌++◌, map,
  select, sum_by, All, Bool-cases, Option-cases, inl, inr, if◌then◌else◌, arith,
}
use phone_cases_backend.Prelude.Int.{pos_part}
use phone_cases_backend.Prelude.Results.{Result, ok, err, Tx}
use phone_cases_backend.Prelude.Tables.{update_where}
use phone_cases_backend.Errors.{Error, not_unique}
use phone_cases_backend.Inventory.{Inventory, Reservation}
use phone_cases_backend.Inventory.Hold.{StockLine, reserve_many_in_transaction}
use phone_cases_backend.Store.{Store, Order, Coupon}
use phone_cases_backend.Receipts.{attach_to_order, is_attachable, attached_to}
use phone_cases_backend.Pricing.View.{CartItem, Instance, is_available}
use phone_cases_backend.Checkout.{
  Cart, ItemRow, Shop, Quote, load_items, load_coupon, load_active_for_pricing, priced_cart,
}
use phone_cases_backend.Checkout.Drafts.{
  CreatedItem, order_items, Exact.IsExact, Exact.order_items-AddUp, Sums.AreAvailable,
}
use phone_cases_backend.Checkout.Creation.{
  Request, Config, ttl_minutes, reservation_ttl, in_store, use_coupon, count_use, read_coupon,
  is_taken, write_order, write_new_order, order_row, write_lines, group_rows, item_row, stock_lines,
  attach_receipt, reserve_stock, groups_now, place_order, any_unavailable, Placed.Priced,
  Placed.place_order_inv,
}

in_store_inv :
    {A : Type 0} (m : Tx Store Error A) (s s' : Shop) (a : A)
    → in_store m s ≡ ok (a, s')
    → (t : Store) × (m s.store ≡ ok (a, t)) × (s' ≡ (record s { store = t }))
in_store_inv {A} m s s' a e = go (m s.store) refl e
  where
    go :
        (r : Result Error (A × Store))
        → m s.store ≡ r
        → (elim r as (λ _. Result Error (A × Shop)) [
          | ok (x, t) ↦ ok (x, record s { store = t })
          | err x ↦ err x
        ])
          ≡ ok (a, s')
        → (t : Store) × (m s.store ≡ ok (a, t)) × (s' ≡ (record s { store = t }))
    go (ok (x, t)) ran p = (t, cc, cc)
    go (err x) ran p = cc

-- A step that leaves the orders, their items and the carts as they are.
abbrev Keeps : Shop → Shop → Type 0
Keeps s t = (t.store.orders ≡ s.store.orders) × (t.items ≡ s.items) × (t.carts ≡ s.carts)

use_coupon-Keeps :
    (read : Option (ℕ × Coupon)) (n now : ℕ) (s t : Shop)
    → use_coupon read n now s ≡ ok (tt, t)
    → Keeps s t
unfolding use_coupon count_use
use_coupon-Keeps none n now s t e = (cc, cc, cc)
use_coupon-Keeps (some (id, seen)) n now s t e = elim (Option-cases (s.store.coupons id)) [
  | inl gone ↦ ground (arith, e, gone)
  | inr (c, found) ↦ ground (arith, e, found)
]

attach_to_order-orders :
    (cart r order now : ℕ) (s t : Store)
    → attach_to_order cart r order now s ≡ ok (tt, t)
    → t.orders ≡ s.orders
unfolding attach_to_order
attach_to_order-orders cart r order now s t e =
    elim (Option-cases (update_where (is_attachable cart r now) (attached_to order) s.receipts)) [
      | inl gone ↦ ground (arith, e, gone)
      | inr ((x, rs), found) ↦ ground (arith, e, found)
    ]

attach_receipt-orders :
    (req : Request) (cart order now : ℕ) (s t : Store)
    → attach_receipt req cart order now s ≡ ok (tt, t)
    → t.orders ≡ s.orders
unfolding attach_receipt
attach_receipt-orders req cart order now s t e = elim (Option-cases req.receipt) [
  | inl gone ↦ ground (arith, e, gone)
  | inr (r, found) ↦ ground (arith, e, found, attach_to_order-orders cart r order now s t)
]

reserve_stock-orders :
    (lines : List StockLine) (ttl : Option ℕ) (order now : ℕ) (s t : Store)
    → reserve_stock lines ttl order now s ≡ ok (tt, t)
    → t.orders ≡ s.orders
unfolding reserve_stock
reserve_stock-orders [] ttl order now s t e = cc
reserve_stock-orders (l ∷ ls) ttl order now s t e =
    go
      (reserve_many_in_transaction now (l ∷ ls)
        (record { cart = none; order = some order; ttl = reservation_ttl ttl }) s.inventory)
      e
  where
    go :
        (r : Result Error (List Reservation × Inventory))
        → (elim (elim r as (λ _. Result Error (List Reservation × Store)) [
          | ok (a, i) ↦ ok (a, record s { inventory = i })
          | err x ↦ err x
        ])
            as (λ _. Result Error (Unit {0} × Store)) [ ok (rs, t') ↦ ok (tt, t') | err x ↦ err x ])
          ≡ ok (tt, t)
        → t.orders ≡ s.orders
    go (ok (a, i)) p = cc
    go (err x) p = cc

unless_inv :
    (b : Bool) (x : Error) (o' o : Order) (t' t : Shop)
    → if◌then◌else◌ {A = Result Error (Order × Shop)} b (err x) (ok (o', t')) ≡ ok (o, t)
    → (b ≡ false) × (o ≡ o') × (t ≡ t')
unless_inv true x o' o t' t e = cc
unless_inv false x o' o t' t e = (refl, cc, cc)

-- The row of a new order, which no order with its key or of its cart stands before.
write_new_order_inv :
    (config : Config) (req : Request) (c : Cart) (q : Quote) (now : ℕ) (s t : Shop) (o : Order)
    → write_new_order config req c q now s ≡ ok (o, t)
    → (o ≡ order_row config req c q s.store.next_id now)
      × (is_taken req.idempotency_key c.id s.store.orders ≡ false)
      × (t.store.orders ≡ s.store.orders ++ (o ∷ []))
      × (t.items ≡ s.items)
      × (t.carts ≡ s.carts)
unfolding write_new_order write_order
write_new_order_inv config req c q now s t o e =
    let (free, same, after) =
      unless_inv (is_taken req.idempotency_key c.id s.store.orders) not_unique
        (order_row config req c q s.store.next_id now) o _ t e in
    (same, free, orders_after same after, ap (λ x. x.items) after, ap (λ x. x.carts) after)
  where
    orders_after :
        o ≡ order_row config req c q s.store.next_id now
        → t ≡ (record s {
          store = record (s.store) {
            orders = s.store.orders ++ (order_row config req c q s.store.next_id now ∷ []);
            next_id = s.store.next_id + 1;
          };
        })
        → t.store.orders ≡ s.store.orders ++ (o ∷ [])
    orders_after same after =
        ap (λ x. x.store.orders) after ∙ ap (λ x. s.store.orders ++ (x ∷ [])) (sym same)

-- The rows of an order's items.
abbrev pub AreOf : ℕ → List CreatedItem → List ItemRow → Type 0
AreOf order items rows = (map (λ r. r.item) rows ≡ items) × All (λ r. r.order ≡ order) rows

item_rows-AreOf :
    (order : ℕ) (ids : List ℕ) (items : List CreatedItem)
    → AreOf order items (map (item_row order ids) items)
item_rows-AreOf order ids [] = (refl, tt)
item_rows-AreOf order ids (i ∷ is) =
    let (same, all) = item_rows-AreOf order ids is in (ap (λ xs. i ∷ xs) same, (refl, all))

write_lines_inv :
    (order : ℕ) (groups : List Instance) (items : List CreatedItem) (s t : Shop)
    → write_lines order groups items s ≡ ok (tt, t)
    → (t.store.orders ≡ s.store.orders)
      × (t.carts ≡ s.carts)
      × (rows : List ItemRow) × (t.items ≡ s.items ++ rows)
      × AreOf order items rows
unfolding write_lines
write_lines_inv order groups items s t e =
    let ids = map (λ r. r.id) (group_rows order s.store.next_id groups) in
    let after = ok_inv _ t e in
    (
      ap (λ x. x.store.orders) after,
      ap (λ x. x.carts) after,
      map (item_row order ids) items,
      ap (λ x. x.items) after,
      item_rows-AreOf order ids items,
    )
  where
    ok_inv :
        (t' t : Shop) → ◌≡◌ {A = Result Error (Unit {0} × Shop)} (ok (tt, t')) (ok (tt, t)) → t ≡ t'
    ok_inv t' t e = cc

all_available : (items : List CartItem) → any_unavailable items ≡ false → AreAvailable items
all_available [] e = tt
all_available (x ∷ xs) e = elim (Bool-cases (is_available x)) [
  | inl there ↦ (there, all_available xs (ground (arith, e, there)))
  | inr gone ↦ absurd (ground (arith, e, gone))
]

-- The items of an order, each of which is its subtotal less its two discounts, add up to it.
abbrev pub IsAccounted : Order → List CreatedItem → Type 0
IsAccounted o items =
    All IsExact items
    × (sum_by (λ i. i.line_subtotal) items ≡ o.subtotal)
    × (sum_by (λ i. i.line_discount) items ≡ o.discount_total)
    × (sum_by (λ i. i.bundle_discount) items ≡ o.bundle_discount_total)
    × (sum_by (λ i. pos_part i.line_total) items + o.shipping_total ≡ o.total)

abbrev items_now : Cart → ℕ → Shop → Quote → List CreatedItem
items_now c now s q = order_items (load_items s c) (groups_now c now s) q.view.discount_total

accounted :
    (config : Config) (req : Request) (c : Cart) (now id : ℕ) (s : Shop) (q : Quote)
    → Priced req c now s q
    → IsAccounted (order_row config req c q id now) (items_now c now s q)
      × (q.total ≡ req.expected_total)
unfolding priced_cart
accounted config req c now id s q (empty, there, rate, found, same, expected) =
    let items = load_items s c in
    let (exact, quantities, subtotals, discounts, bundles, total) =
      order_items-AddUp items (load_coupon s c) (load_active_for_pricing now s.bundles) now
        (all_available items there) in
    rw same ((exact, subtotals, discounts, bundles, ground (arith, total)), expected)

-- The only order that is new is the one returned, and no earlier one has its key or is of its cart.
abbrev pub IsNew : Request → Cart → Order → List Order → List Order → Type 0
IsNew req c o os os' =
    (os' ≡ os ++ (o ∷ []))
    × (is_taken req.idempotency_key c.id os ≡ false)
    × (o.idempotency_key ≡ req.idempotency_key)
    × (o.request_hash ≡ req.request_hash)
    × (o.cart ≡ some c.id)

-- A cart is placed as an order only at the total that the customer has confirmed. The order is new;
-- the rows written for it are of this order, no line's total is negative, each line is its subtotal
-- less its two discounts, and the lines with the shipping add up to the order's amounts.
pub place_order_lem :
    (config : Config) (req : Request) (c : Cart) (now : ℕ) (s : Shop) (o : Order) (s' : Shop)
    → place_order config req c now s ≡ ok (o, s')
    → (o.total ≡ req.expected_total)
      × (s'.carts ≡ s.carts)
      × IsNew req c o s.store.orders s'.store.orders
      × (items : List CreatedItem) × (rows : List ItemRow) × (s'.items ≡ s.items ++ rows)
      × AreOf o.id items rows
      × IsAccounted o items
place_order_lem config req c now s o s' e =
    let p = place_order_inv config req c now s o s' e in
    let q = p.q in
    let (orders0, items0, carts0) =
      use_coupon-Keeps (read_coupon s c) q.view.subtotal now s p.counted p.coupon in
    let (is_row, free, orders1, items1, carts1) =
      write_new_order_inv config req c q now p.counted p.written o p.wrote in
    let (orders2, carts2, rows, items2, of) =
      write_lines_inv o.id (groups_now c now s) (items_now c now s q) p.written p.listed p.lines in
    let (t1, attached, after1) =
      in_store_inv (attach_receipt req c.id o.id now) p.listed p.attached tt p.receipt in
    let (t2, reserved, after2) =
      in_store_inv
        (reserve_stock (stock_lines (select is_available (load_items s c)))
          (ttl_minutes config req.method) o.id now)
        p.attached s' tt p.stock in
    let orders3 : t1.orders ≡ p.listed.store.orders =
      attach_receipt-orders req c.id o.id now p.listed.store t1 attached in
    let orders4 : t2.orders ≡ p.attached.store.orders =
      reserve_stock-orders (stock_lines (select is_available (load_items s c)))
        (ttl_minutes config req.method) o.id now p.attached.store t2 reserved in
    let all_orders : s'.store.orders ≡ s.store.orders ++ (o ∷ []) =
      ap (λ x. x.store.orders) after2
      ∙ orders4
      ∙ ap (λ x. x.store.orders) after1
      ∙ orders3
      ∙ orders2
      ∙ orders1
      ∙ ap (λ os. os ++ (o ∷ [])) orders0 in
    let all_items : s'.items ≡ s.items ++ rows =
      ap (λ x. x.items) after2
      ∙ ap (λ x. x.items) after1
      ∙ items2
      ∙ ap (λ is. is ++ rows) (items1 ∙ items0) in
    let still_free : is_taken req.idempotency_key c.id s.store.orders ≡ false =
      ap (λ os. is_taken req.idempotency_key c.id os) (sym orders0) ∙ free in
    let (fits, expected) = accounted config req c now p.counted.store.next_id s q p.priced in
    let all_carts : s'.carts ≡ s.carts =
      ap (λ x. x.carts) after2 ∙ ap (λ x. x.carts) after1 ∙ carts2 ∙ carts1 ∙ carts0 in
    (
      ap (λ x. x.total) is_row ∙ expected,
      all_carts,
      (
        all_orders,
        still_free,
        ap (λ x. x.idempotency_key) is_row,
        ap (λ x. x.request_hash) is_row,
        ap (λ x. x.cart) is_row,
      ),
      items_now c now s q,
      rows,
      all_items,
      of,
      rw is_row fits,
    )
