-- ===== src/Checkout.antt =====
-- Checking a cart out: `quote` of src/modules/orders/checkout.service.ts and `createOrder` of
-- src/modules/orders/orders.service.ts, with what they read: `loadActiveForPricing` of
-- src/modules/promotions/bundles/bundles.service.ts and `resolveRateForCheckout` of
-- src/modules/shipping/shipping.service.ts.
pub mod Drafts
pub mod Creation
mod Tests
use phone_cases_backend.Prelude.{
  ℕ, ◌+◌, Bool, true, false, not, ◌&&◌, ◌||◌, Option, none, some, List, [], ◌∷◌, map, ltb, leb,
  ◌==◌, is_some, is_some_and, or_else, select, length, if◌then◌else◌,
}
use phone_cases_backend.Prelude.Int.{ℤ, pos_part, sub_ℕ}
use phone_cases_backend.Prelude.Results.{Result, ok, err}
use phone_cases_backend.Prelude.Tables.{find_first}
use phone_cases_backend.Errors.{Error, resource_not_found, shipping_rate_not_available}
use phone_cases_backend.Inventory.{Inventory}
use phone_cases_backend.Store.{Store, Coupon}
use phone_cases_backend.Pricing.View.{CartItem, Variant, View, is_available, compute_shipping_price}
use phone_cases_backend.Pricing.Bundles.{Bundle, Scope, all_products, specific_variants, contains}
use phone_cases_backend.Pricing.CartView.{cart_view}
use phone_cases_backend.Checkout.Drafts.{CreatedItem}

pub data CartStatus : Type 0 where
  active ordered abandoned : CartStatus

pub record CartLine : Type 0 where
  pub variant : ℕ
  pub quantity : ℕ
  pub custom_design : Option ℕ

pub record Cart : Type 0 where
  pub id : ℕ
  pub status : CartStatus
  pub currency : ℕ
  pub coupon : Option ℕ
  pub lines : List CartLine

-- A rate, with the columns of its zone that are read.
pub record ShippingRate : Type 0 where
  pub id : ℕ
  pub price : ℕ
  pub free_shipping_threshold : Option ℕ
  pub is_active : Bool
  pub zone_is_active : Bool
  pub countries : List ℕ

-- `promotion` holds the columns that pricing reads, as they are once the two columns that may be
-- null are set.
pub record BundleRow : Type 0 where
  pub promotion : Bundle
  pub has_fixed_total : Bool
  pub has_currency : Bool
  pub is_enabled : Bool
  pub starts_at : Option ℕ
  pub expires_at : Option ℕ

-- A row of `bundle_instances`.
pub record GroupRow : Type 0 where
  pub id : ℕ
  pub order : ℕ
  pub bundle : ℕ
  pub fixed_total_applied : ℕ
  pub normal_subtotal : ℕ
  pub discount_amount : ℕ

pub record ItemRow : Type 0 where
  pub order : ℕ
  pub group_id : Option ℕ
  pub item : CreatedItem

-- The rows that a checkout reads and writes. A foreign key keeps a variant for every id that a line
-- names, so that `variants` is total. `bundles` are in the order of their creation.
pub record Shop : Type 0 where
  pub store : Store
  pub carts : List Cart
  pub variants : ℕ → Variant
  pub rates : List ShippingRate
  pub bundles : List BundleRow
  pub groups : List GroupRow
  pub items : List ItemRow

abbrev has_started : ℕ → BundleRow → Bool
has_started now r = not (is_some r.starts_at) || is_some_and (λ t. leb t now) r.starts_at

abbrev has_not_ended : ℕ → BundleRow → Bool
has_not_ended now r = not (is_some r.expires_at) || is_some_and (λ t. leb now t) r.expires_at

abbrev is_in_effect : ℕ → BundleRow → Bool
is_in_effect now r =
    r.is_enabled && r.has_fixed_total && r.has_currency && has_started now r && has_not_ended now r

abbrev has_targets : Scope → Bundle → Bool
has_targets all_products b = true
has_targets specific_variants b = leb 2 (length b.eligible_variants)
has_targets _ b = leb 1 (length b.target_ids)

abbrev is_complete : BundleRow → Bool
is_complete r = has_targets (or_else r.promotion.scope specific_variants) r.promotion

-- `loadActiveForPricing`
unfoldable pub load_active_for_pricing : ℕ → List BundleRow → List Bundle
load_active_for_pricing now rows =
    map (λ r. r.promotion) (select is_complete (select (is_in_effect now) rows))

abbrev is_for : (rate country : ℕ) → ShippingRate → Bool
is_for rate country r =
    r.id == rate && r.is_active && r.zone_is_active && contains country r.countries

-- `resolveRateForCheckout`, for a country in upper case.
unfoldable pub resolve_rate : (rate country : ℕ) → List ShippingRate → Option ShippingRate
resolve_rate rate country rates = find_first (is_for rate country) rates

abbrev counter_of : Inventory → Option ℕ → Option ℤ
counter_of inv none = none
counter_of inv (some k) = elim (inv.stock k) [
  | none ↦ none
  | some it ↦ some (sub_ℕ it.on_hand it.reserved)
]

-- A line as `CART_INCLUDE` reads it, with the counters of its stock item.
abbrev pub load_line : Shop → CartLine → CartItem
load_line s l =
    let v = s.variants l.variant in
    record {
      variant = record v { available = counter_of s.store.inventory v.stock_item };
      quantity = l.quantity;
      custom_design = l.custom_design;
    }

abbrev pub load_items : Shop → Cart → List CartItem
load_items s c = map (load_line s) c.lines

abbrev pub load_coupon : Shop → Cart → Option Coupon
load_coupon s c = elim c.coupon [ none ↦ none | some id ↦ s.store.coupons id ]

-- `buildView` of a cart as it is now.
unfoldable pub priced_cart : ℕ → Shop → Cart → View
unfolding load_active_for_pricing
priced_cart now s c =
    cart_view (load_items s c) (load_coupon s c) (load_active_for_pricing now s.bundles) now

-- `computeShippingPrice(rate, priced.total)`; the total of a view is never negative.
abbrev pub shipping_total_of : ShippingRate → View → ℕ
shipping_total_of rate view =
    compute_shipping_price rate.price rate.free_shipping_threshold (pos_part view.total)

abbrev pub find_cart : ℕ → Shop → Option Cart
find_cart id s = find_first (λ c. c.id == id) s.carts

-- The parts of a quote that an order is compared with.
pub record Quote : Type 0 where
  pub view : View
  pub shipping_total : ℕ
  pub total : ℕ
  pub issues : ℕ

abbrev quote_at : View → List CartItem → ShippingRate → Quote
quote_at view items rate = record {
  view = view;
  shipping_total = shipping_total_of rate view;
  total = pos_part view.total + shipping_total_of rate view;
  issues = length (select (λ i. not (is_available i)) items);
}

-- `quote`
unfoldable pub quote : (cart rate country now : ℕ) → Shop → Result Error Quote
unfolding resolve_rate priced_cart
quote cart rate country now s = elim (find_cart cart s) [
  | none ↦ err (resource_not_found cart)
  | some c ↦ elim (resolve_rate rate country s.rates) [
    | none ↦ err shipping_rate_not_available
    | some r ↦ ok (quote_at (priced_cart now s c) (load_items s c) r)
  ]
]
