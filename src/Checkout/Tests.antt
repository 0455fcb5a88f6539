-- ===== src/Checkout/Tests.antt =====
-- A shop with one cart, its order, and the theorems on them.
use phone_cases_backend.Prelude.{
  ℕ, ◌≡◌, ◌⊎◌, ◌↔◌, refl, true, false, Option, none, some, List, [], ◌∷◌, ◌++◌, ◌==◌, if◌then◌else◌,
  arith,
}
use phone_cases_backend.Prelude.Int.{pos}
use phone_cases_backend.Prelude.Results.{Result, ok, err}
use phone_cases_backend.Prelude.Sorting.{sort_by}
use phone_cases_backend.Prelude.Tables.{update_where}
use phone_cases_backend.Errors.{Error, price_changed, coupon_usage_limit_reached}
use phone_cases_backend.Store.{
  Order, Coupon, fixed, cash_on_delivery, pending, preparing, unpaid, find_order,
}
use phone_cases_backend.Orders.Fulfillment.{update_fulfillment_status}
use phone_cases_backend.Orders.Runs.{fulfillment_updated}
use phone_cases_backend.Pricing.View.{
  CartItem, Variant, View, unavailable_reason, build_view, compute_shipping_price,
}
use phone_cases_backend.Pricing.Bundles.{
  Bundle, all_products, Groups.compute_bundle_instances, is_line_eligible,
}
use phone_cases_backend.Pricing.Coupons.{compute_discount, find_coupon_validity_error}
use phone_cases_backend.Pricing.CartView.{cart_view, coupon_is_applied}
use phone_cases_backend.Checkout.{active, Cart, Shop, Quote, ItemRow, quote}
use phone_cases_backend.Checkout.Drafts.{
  CreatedItem, order_groups, order_items, Exact.AddUp, Exact.order_items-AddUp,
}
use phone_cases_backend.Checkout.Creation.{
  Request, Config, price_order, use_coupon, count_use, with_coupon, used_once_more, place_order,
  Serving.create_order, is_empty, Rows.IsNew, Rows.AreOf, Rows.IsAccounted, Rows.place_order_lem,
  Later.moved, Later.now_, Replay.create_order-replays, Once.IsOrderly, Once.create_order-refused,
  Once.create_order-IsOrderly, Quoted.price_order_iff, Quoted.IsWithinLimits,
  Quoted.use_coupon-IsWithinLimits,
}

-- A case for 200, of which there are 7.
abbrev cheap_case : Variant
cheap_case = record {
  id = 11;
  currency = 1;
  product = 5;
  phone_model = some 21;
  phone_brand = some 31;
  case_type = some 41;
  collections = [];
  price = 200;
  is_personalizable = false;
  customization_price = 0;
  is_active = true;
  is_published = true;
  stock_item = some 51;
  available = some (pos 7);
  is_unlimited_stock = false;
}

abbrev three_of_them : List CartItem
three_of_them = record { variant = cheap_case; quantity = 3; custom_design = none } ∷ []

-- Any two cases for 350, over and over.
abbrev two_for_350 : Bundle
two_for_350 = record {
  id = 1;
  fixed_total = 350;
  currency = 1;
  require_different_phone_models = false;
  is_repeatable = true;
  allow_coupon_stacking = true;
  eligible_variants = [];
  scope = some all_products;
  target_ids = [];
  bundle_size = some 2;
  min_unit_price = some 200;
  max_surcharge = none;
}

abbrev thirty_off : Coupon
thirty_off = record {
  type = fixed;
  value = 30;
  min_spend = none;
  starts_at = none;
  expires_at = none;
  usage_limit = some 1;
  usage_count = 0;
  is_active = true;
}

abbrev the_cart : Cart
the_cart = record {
  id = 71;
  status = active;
  currency = 1;
  coupon = some 81;
  lines = record { variant = 11; quantity = 3; custom_design = none } ∷ [];
}

abbrev shop : Shop
shop = record {
  store = record {
    inventory = record {
      stock = λ k. if k == 51 then some (record { on_hand = 7; reserved = 0 }) else none;
      skus = [];
      reservations = [];
      movements = [];
      next_id = 1;
    };
    orders = [];
    coupons = λ k. if k == 81 then some thirty_off else none;
    receipts = [];
    refunds = [];
    audit = [];
    next_id = 1;
  };
  carts = the_cart ∷ [];
  variants = λ id. cheap_case;
  rates =
      record {
        id = 91;
        price = 60;
        free_shipping_threshold = some 1000;
        is_active = true;
        zone_is_active = true;
        countries = 20 ∷ [];
      }
      ∷ [];
  bundles =
      record {
        promotion = two_for_350;
        has_fixed_total = true;
        has_currency = true;
        is_enabled = true;
        starts_at = none;
        expires_at = none;
      }
      ∷ [];
  groups = [];
  items = [];
}

abbrev config : Config
config = record { instapay_review_deadline_minutes = 1440; cod_expiry_minutes = none }

abbrev request : (expected_total : ℕ) → Request
request expected_total = record {
  idempotency_key = 1001;
  request_hash = 2002;
  method = cash_on_delivery;
  receipt = none;
  rate = 91;
  country = 20;
  expected_total = expected_total;
  has_valid_note = true;
  has_valid_phone = true;
}

abbrev alone : Shop → Shop
alone s = s

abbrev outcome : (expected_total : ℕ) → Result Error Order × Shop
outcome expected_total = create_order config 71 (request expected_total) 0 alone alone shop

abbrev total_of : Result Error Order → Option ℕ
total_of (ok o) = some o.total
total_of (err e) = none

abbrev the_order : Order
the_order = record {
  id = 1;
  cart = some 71;
  idempotency_key = 1001;
  request_hash = 2002;
  fulfillment = pending;
  payment = unpaid;
  method = cash_on_delivery;
  late_payment_flagged_at = none;
  late_payment_note = none;
  reservation_deadline = none;
  currency = 1;
  subtotal = 600;
  discount_total = 30;
  bundle_discount_total = 50;
  shipping_total = 60;
  total = 580;
  coupon = some 81;
  coupon_usage_released = false;
}

-- 600, less 50 for the bundle and 30 for the coupon, and 60 for shipping.
totals_580 : total_of (outcome 580).0 ≡ some 580
unfolding create_order update_where unavailable_reason cart_view build_view
    find_coupon_validity_error compute_discount compute_bundle_instances is_line_eligible sort_by
    compute_shipping_price
totals_580 = refl

price_has_changed : outcome 579 ≡ (err price_changed, shop)
unfolding create_order update_where unavailable_reason cart_view build_view
    find_coupon_validity_error compute_discount compute_bundle_instances is_line_eligible sort_by
    compute_shipping_price
price_has_changed = refl

-- The order is being prepared when its request is sent again.
abbrev prepared : Shop
prepared = record ((outcome 580).1) {
  store = (update_fulfillment_status 1 preparing 1 5_000 (outcome 580).1.store).1;
}

create_order-replays_example :
    (o' : Order) × (find_order 1 prepared.store ≡ some o')
    × (create_order config 71 (request 580) 9_000 alone alone prepared ≡ (ok o', prepared))
unfolding create_order update_where unavailable_reason cart_view build_view
    find_coupon_validity_error compute_discount compute_bundle_instances is_line_eligible sort_by
    compute_shipping_price update_fulfillment_status
create_order-replays_example =
    create_order-replays config config 71 (request 580) 0 9_000 alone alone alone alone shop
      (outcome 580).1 prepared the_order (λ k. ground arith) (λ k. ground arith) (λ k. ground arith)
      refl (moved prepared.store now_ (fulfillment_updated 1 preparing 1 5_000 refl))

is_being_prepared :
    total_of (create_order config 71 (request 580) 9_000 alone alone prepared).0 ≡ some 580
unfolding create_order update_where unavailable_reason cart_view build_view
    find_coupon_validity_error compute_discount compute_bundle_instances is_line_eligible sort_by
    compute_shipping_price update_fulfillment_status
is_being_prepared = refl

create_order-refused_example : (shop ≡ shop) ⊎ ((shop ≡ shop) ⊎ (shop ≡ shop))
unfolding create_order update_where unavailable_reason cart_view build_view
    find_coupon_validity_error compute_discount compute_bundle_instances is_line_eligible sort_by
    compute_shipping_price
create_order-refused_example =
    create_order-refused config 71 (request 579) 0 alone alone shop shop price_changed refl

create_order-IsOrderly_example : IsOrderly (outcome 580).1
create_order-IsOrderly_example =
    create_order-IsOrderly config 71 (request 580) 0 alone alone shop (λ u v. v) (λ u v. v)
      ((λ k. omega arith), (λ k. omega arith))

order_items-AddUp_example :
    let view = cart_view three_of_them (some thirty_off) (two_for_350 ∷ []) 0 in
    let groups =
      order_groups three_of_them
        (two_for_350 ∷ [])
        (coupon_is_applied three_of_them (some thirty_off) 0) in
    AddUp three_of_them view (order_items three_of_them groups view.discount_total)
unfolding unavailable_reason
order_items-AddUp_example =
    order_items-AddUp three_of_them (some thirty_off) (two_for_350 ∷ []) 0 (refl, tt)

abbrev placed : Result Error (Order × Shop)
placed = place_order config (request 580) the_cart 0 shop

abbrev state_of : Result Error (Order × Shop) → Shop
state_of (ok (o, s)) = s
state_of (err e) = shop

place_order_lem_example :
    (the_order.total ≡ 580)
    × ((state_of placed).carts ≡ shop.carts)
    × IsNew (request 580) the_cart the_order [] (state_of placed).store.orders
    × (items : List CreatedItem) × (rows : List ItemRow) × ((state_of placed).items ≡ [] ++ rows)
    × AreOf 1 items rows
    × IsAccounted the_order items
unfolding place_order update_where unavailable_reason cart_view build_view
    find_coupon_validity_error compute_discount compute_bundle_instances is_line_eligible sort_by
    compute_shipping_price
place_order_lem_example =
    place_order_lem config (request 580) the_cart 0 shop the_order (state_of placed) refl

abbrev the_view : View
the_view = cart_view three_of_them (some thirty_off) (two_for_350 ∷ []) 0

abbrev the_quote : Quote
the_quote = record { view = the_view; shipping_total = 60; total = 580; issues = 0 }

price_order_iff_example : (price_order (request 580) the_cart 0 shop ≡ ok (the_quote, shop)) ↔ (
    (quote 71 91 20 0 shop ≡ ok the_quote)
    × (is_empty three_of_them ≡ false)
    × (the_quote.issues ≡ 0)
    × (the_quote.total ≡ 580))
price_order_iff_example = price_order_iff (request 580) the_cart 0 shop the_quote refl

abbrev after_use : Result Error (Unit {0} × Shop) → Shop
after_use (ok (u, s)) = s
after_use (err e) = shop

-- A coupon that its last other use has reached since it was read is refused by the UPDATE.
abbrev used_up : Shop
used_up = with_coupon 81 (record thirty_off { usage_limit = some 1; usage_count = 1 }) shop

loses_race :
    use_coupon
      (some (81, record thirty_off { usage_limit = some 1; usage_count = 0 }))
      600
      0
      used_up
    ≡ err coupon_usage_limit_reached
unfolding use_coupon count_use find_coupon_validity_error
loses_race = refl

use_coupon-IsWithinLimits_example :
    IsWithinLimits (after_use (use_coupon (some (81, thirty_off)) 600 0 shop)).store.coupons
    × (find_coupon_validity_error thirty_off 600 0 ≡ none)
    × (c : Coupon) × (shop.store.coupons 81 ≡ some c)
    × ((after_use (use_coupon (some (81, thirty_off)) 600 0 shop)).store.coupons 81
        ≡ some (used_once_more c))
unfolding use_coupon count_use find_coupon_validity_error
use_coupon-IsWithinLimits_example =
    use_coupon-IsWithinLimits 81 600 0 thirty_off shop
      (after_use (use_coupon (some (81, thirty_off)) 600 0 shop)) (λ j. ground arith) refl
