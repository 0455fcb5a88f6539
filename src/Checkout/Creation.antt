-- ===== src/Checkout/Creation.antt =====
-- `createOrder` of src/modules/orders/orders.service.ts.
pub mod Serving
pub mod Placed
pub mod Rows
pub mod Found
pub mod Later
pub mod Replay
pub mod Once
pub mod Quoted
use phone_cases_backend.Prelude.{
  ℕ, zero, suc, ◌+◌, ◌*◌, Bool, true, false, not, ◌&&◌, ◌||◌, Option, none, some, List, [], ◌∷◌,
  ◌++◌, map, ltb, leb, ◌==◌, is_some, is_some_and, select, length, if◌then◌else◌,
}
use phone_cases_backend.Prelude.Int.{pos_part}
use phone_cases_backend.Prelude.Results.{
  Result, ok, err, Tx, pure, throw, guard, or_throw, gets, modify, commit, ◌>>=◌, ◌>>◌,
}
use phone_cases_backend.Prelude.Tables.{update_where, find_first, put}
use phone_cases_backend.Errors.{
  Error, bad_request, not_unique, resource_not_found, idempotency_key_reused, cart_already_ordered,
  items_unavailable, price_changed, shipping_rate_not_available, coupon_not_applicable,
  coupon_usage_limit_reached, receipt_already_attached,
}
use phone_cases_backend.Inventory.Hold.{
  Ttl, never, minutes, Holder, StockLine, reserve_many_in_transaction,
}
use phone_cases_backend.Store.{
  Store, Order, Coupon, Receipt, PaymentMethod, cash_on_delivery, instapay_manual, pending, unpaid,
  is_instapay, order_created, record_audit, in_inventory,
}
use phone_cases_backend.Receipts.{find_owned_unattached, attach_to_order}
use phone_cases_backend.Pricing.Coupons.{find_coupon_validity_error}
use phone_cases_backend.Pricing.View.{CartItem, Instance, View, is_available}
use phone_cases_backend.Pricing.CartView.{coupon_is_applied}
use phone_cases_backend.Checkout.Drafts.{CreatedItem, order_groups, order_items}
use phone_cases_backend.Checkout.{
  CartStatus, ShippingRate, active, ordered, Cart, GroupRow, ItemRow, Shop, Quote, load_items,
  load_coupon, load_active_for_pricing, priced_cart, resolve_rate, quote_at, find_cart,
}

-- `request_hash` stands for the hash of the body without its key. `has_valid_note` and
-- `has_valid_phone` say whether the two texts pass their checks; no other text is looked at.
pub record Request : Type 0 where
  pub idempotency_key : ℕ
  pub request_hash : ℕ
  pub method : PaymentMethod
  pub receipt : Option ℕ
  pub rate : ℕ
  pub country : ℕ
  pub expected_total : ℕ
  pub has_valid_note : Bool
  pub has_valid_phone : Bool

pub record Config : Type 0 where
  pub instapay_review_deadline_minutes : ℕ
  pub cod_expiry_minutes : Option ℕ

abbrev pub ttl_minutes : Config → PaymentMethod → Option ℕ
ttl_minutes c instapay_manual = some c.instapay_review_deadline_minutes
ttl_minutes c cash_on_delivery = c.cod_expiry_minutes

abbrev pub reservation_ttl : Option ℕ → Ttl
reservation_ttl none = never
reservation_ttl (some m) = minutes m

abbrev pub reservation_deadline : ℕ → Option ℕ → Option ℕ
reservation_deadline now none = none
reservation_deadline now (some m) = some (now + m * 60_000)

abbrev pub has_key : ℕ → Order → Bool
has_key key o = o.idempotency_key == key

abbrev pub is_of_cart : ℕ → Order → Bool
is_of_cart cart o = is_some_and (λ c. c == cart) o.cart

-- An order that this very request of this cart has created.
abbrev pub is_replay : ℕ → Request → Order → Bool
is_replay cart req o = is_of_cart cart o && o.request_hash == req.request_hash

abbrev pub in_store : {A : Type 0} → Tx Store Error A → Tx Shop Error A
in_store m s = elim (m s.store) [ ok (a, t) ↦ ok (a, record s { store = t }) | err e ↦ err e ]

-- `prisma.cart.updateMany` from ACTIVE to ORDERED.
abbrev pub is_open : CartStatus → Bool
is_open active = true
is_open _ = false

abbrev pub is_claimable : ℕ → Cart → Bool
is_claimable cart c = c.id == cart && is_open c.status

abbrev pub as_ordered : Cart → Cart
as_ordered c = record c { status = ordered }

-- The claim found no active cart: the order is the one that this request created, or none is made.
unfoldable pub lost_claim : ℕ → Request → Tx Shop Error Order
lost_claim cart req s = elim (find_cart cart s) [
  | none ↦ err (resource_not_found cart)
  | some c ↦ elim (find_first (is_of_cart cart) s.store.orders) [
    | none ↦ err cart_already_ordered
    | some o ↦
        if o.idempotency_key == req.idempotency_key
        then (if o.request_hash == req.request_hash then ok (o, s) else err idempotency_key_reused)
        else err cart_already_ordered
  ]
]

abbrev pub is_empty : List CartItem → Bool
is_empty [] = true
is_empty (x ∷ xs) = false

abbrev pub price_checks :
    (empty unavailable : Bool)
    → Option ShippingRate
    → (ShippingRate → Quote)
    → (expected_total : ℕ) → Tx Shop Error Quote
price_checks empty unavailable rate quoted expected_total = do
  guard (not empty) bad_request
  guard (not unavailable) items_unavailable
  r ← or_throw rate shipping_rate_not_available
  guard ((quoted r).total == expected_total) price_changed
  pure (quoted r)

abbrev pub any_unavailable : List CartItem → Bool
any_unavailable items = ltb 0 (length (select (λ i. not (is_available i)) items))

-- The price of the cart as it is now, and its four refusals.
unfoldable pub price_order : Request → Cart → ℕ → Tx Shop Error Quote
unfolding resolve_rate priced_cart
price_order req c now s =
    let items = load_items s c in
    price_checks (is_empty items) (any_unavailable items)
      (resolve_rate req.rate req.country s.rates) (quote_at (priced_cart now s c) items)
      req.expected_total s

abbrev pub below_limit : Coupon → Bool
below_limit c = not (is_some c.usage_limit) || is_some_and (λ n. ltb c.usage_count n) c.usage_limit

abbrev pub used_once_more : Coupon → Coupon
used_once_more c = record c { usage_count = c.usage_count + 1 }

-- The coupon of a cart, as the transaction reads it with the cart.
abbrev pub read_coupon : Shop → Cart → Option (ℕ × Coupon)
read_coupon s c = elim c.coupon [
  | none ↦ none
  | some id ↦ elim (s.store.coupons id) [ none ↦ none | some seen ↦ some (id, seen) ]
]

abbrev pub with_coupon : ℕ → Coupon → Shop → Shop
with_coupon id c s = record s { store = record (s.store) { coupons = put id c s.store.coupons } }

-- `UPDATE coupons SET "usageCount" += 1 WHERE id AND ("usageLimit" IS NULL OR "usageCount" <
-- "usageLimit")`, on the row as it is by then.
unfoldable pub count_use : ℕ → Tx Shop Error (Unit {0})
count_use id s = elim (s.store.coupons id) [
  | none ↦ err coupon_usage_limit_reached
  | some c ↦
      if below_limit c
      then ok (tt, with_coupon id (used_once_more c) s)
      else err coupon_usage_limit_reached
]

-- The coupon is checked as it was read, and its use is counted under its limit: no lock keeps others
-- from using it in between.
unfoldable pub use_coupon : Option (ℕ × Coupon) → (subtotal now : ℕ) → Tx Shop Error (Unit {0})
unfolding count_use
use_coupon none subtotal now s = ok (tt, s)
use_coupon (some (id, seen)) subtotal now s =
    if is_some (find_coupon_validity_error seen subtotal now)
    then err coupon_not_applicable
    else count_use id s

abbrev pub order_row : Config → Request → Cart → Quote → (id now : ℕ) → Order
order_row config req c q id now = record {
  id = id;
  cart = some c.id;
  idempotency_key = req.idempotency_key;
  request_hash = req.request_hash;
  fulfillment = pending;
  payment = unpaid;
  method = req.method;
  late_payment_flagged_at = none;
  late_payment_note = none;
  reservation_deadline = reservation_deadline now (ttl_minutes config req.method);
  currency = c.currency;
  subtotal = q.view.subtotal;
  discount_total = q.view.discount_total;
  bundle_discount_total = q.view.bundle_discount_total;
  shipping_total = q.shipping_total;
  total = q.total;
  coupon = c.coupon;
  coupon_usage_released = false;
}

-- The two unique columns of `orders` that a request sets.
abbrev pub is_taken : ℕ → ℕ → List Order → Bool
is_taken key cart os =
    is_some (find_first (has_key key) os) || is_some (find_first (is_of_cart cart) os)

unfoldable pub write_order : Order → ℕ → Tx Shop Error Order
write_order o cart s =
    if is_taken o.idempotency_key cart s.store.orders
    then err not_unique
    else ok (
      o,
      record s {
        store = record (s.store) {
          orders = s.store.orders ++ (o ∷ []);
          next_id = s.store.next_id + 1;
        };
      },
    )

abbrev pub group_rows : (order id : ℕ) → List Instance → List GroupRow
group_rows order id [] = []
group_rows order id (b ∷ bs) =
    record {
      id = id;
      order = order;
      bundle = b.bundle;
      fixed_total_applied = b.fixed_total_applied;
      normal_subtotal = b.normal_subtotal;
      discount_amount = b.discount_amount;
    }
    ∷ group_rows order (id + 1) bs

-- `bundleInstanceDbIds[k]`
abbrev pub nth : ℕ → List ℕ → Option ℕ
nth k [] = none
nth zero (x ∷ xs) = some x
nth (suc k) (x ∷ xs) = nth k xs

abbrev pub item_row : ℕ → List ℕ → CreatedItem → ItemRow
item_row order ids i = record {
  order = order;
  group_id = elim i.group [ none ↦ none | some k ↦ nth k ids ];
  item = i;
}

unfoldable pub write_lines : ℕ → List Instance → List CreatedItem → Tx Shop Error (Unit {0})
write_lines order groups items s =
    let rows = group_rows order s.store.next_id groups in
    ok (
      tt,
      record s {
        store = record (s.store) { next_id = s.store.next_id + length groups };
        groups = s.groups ++ rows;
        items = s.items ++ map (item_row order (map (λ r. r.id) rows)) items;
      },
    )

-- The lines of items with a stock item, for `reserveManyInTransaction`.
abbrev pub stock_lines : List CartItem → List StockLine
stock_lines [] = []
stock_lines (x ∷ xs) = elim x.variant.stock_item [
  | none ↦ stock_lines xs
  | some k ↦ record { stock_item = k; quantity = x.quantity } ∷ stock_lines xs
]

unfoldable pub attach_receipt : Request → (cart order now : ℕ) → Tx Store Error (Unit {0})
unfolding attach_to_order
attach_receipt req cart order now s = elim req.receipt [
  | none ↦ ok (tt, s)
  | some r ↦ if is_instapay req.method then attach_to_order cart r order now s else ok (tt, s)
]

unfoldable pub reserve_stock :
    List StockLine → Option ℕ → (order now : ℕ) → Tx Store Error (Unit {0})
unfolding reserve_many_in_transaction
reserve_stock lines ttl order now s = elim lines [
  | [] ↦ ok (tt, s)
  | l ∷ ls ↦
      elim (in_inventory
        (reserve_many_in_transaction now (l ∷ ls)
          (record { cart = none; order = some order; ttl = reservation_ttl ttl }))
        s) [ ok (rs, t) ↦ ok (tt, t) | err e ↦ err e ]
]

-- The row takes its id from the generator.
unfoldable pub write_new_order : Config → Request → Cart → Quote → ℕ → Tx Shop Error Order
unfolding write_order
write_new_order config req c q now s =
    write_order (order_row config req c q s.store.next_id now) c.id s

abbrev pub groups_now : Cart → ℕ → Shop → List Instance
groups_now c now s =
    let items = load_items s c in
    order_groups items (load_active_for_pricing now s.bundles)
      (coupon_is_applied items (load_coupon s c) now)

-- The transaction, once the cart is claimed.
unfoldable pub place_order : Config → Request → Cart → ℕ → Tx Shop Error Order
unfolding price_order use_coupon write_new_order write_lines attach_receipt reserve_stock
    order_groups order_items load_active_for_pricing
place_order config req c now s =
    let items = load_items s c in
    let groups = groups_now c now s in
    (do
      q ← price_order req c now
      use_coupon (read_coupon s c) q.view.subtotal now
      o ← write_new_order config req c q now
      write_lines o.id groups (order_items items groups q.view.discount_total)
      in_store (attach_receipt req c.id o.id now)
      in_store (
          reserve_stock (stock_lines (select is_available items)) (ttl_minutes config req.method)
            o.id now)
      pure o)
      s

unfoldable pub create_in_transaction : Config → ℕ → Request → ℕ → Tx Shop Error Order
unfolding place_order lost_claim
create_in_transaction config cart req now s =
    elim (update_where (is_claimable cart) as_ordered s.carts) [
      | none ↦ lost_claim cart req s
      | some (c, cs) ↦ place_order config req c now (record s { carts = cs })
    ]
