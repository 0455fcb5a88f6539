-- ===== src/Pricing/CartView.antt =====
-- The view of a cart with the groups of its bundles: `toBundleSourceLine` and `buildView` of
-- src/modules/cart/cart-pricing.service.ts.
pub mod Lines
pub mod Groups
mod Tests
use phone_cases_backend.Prelude.{
  ℕ, ◌+◌, Bool, true, false, not, ◌&&◌, Option, none, some, List, [], ◌∷◌, is_some, if◌then◌else◌,
}
use phone_cases_backend.Store.{Coupon}
use phone_cases_backend.Pricing.View.{
  CartItem, Instance, View, effective_unit_price, is_available, subtotal_of, coupon_problem,
  build_view,
}
use phone_cases_backend.Pricing.Bundles.{Bundle, SourceLine, Groups.compute_bundle_instances}

abbrev pub to_source_line : CartItem → ℕ → SourceLine
to_source_line item i = record {
  line_index = i;
  variant = item.variant.id;
  phone_model = item.variant.phone_model;
  unit_price = effective_unit_price item.variant;
  quantity = item.quantity;
  currency = item.variant.currency;
  product = some item.variant.product;
  case_type = item.variant.case_type;
  phone_brand = item.variant.phone_brand;
  collections = item.variant.collections;
}

-- The available items, with their places in the cart.
unfoldable pub source_lines : ℕ → List CartItem → List SourceLine
source_lines i [] = []
source_lines i (x ∷ xs) =
    let rest = source_lines (i + 1) xs in if is_available x then to_source_line x i ∷ rest else rest

-- A coupon is applied where nothing is wrong with it.
abbrev pub coupon_is_applied : List CartItem → Option Coupon → ℕ → Bool
coupon_is_applied items coupon now =
    is_some coupon && not (is_some (coupon_problem coupon (subtotal_of items) now))

unfoldable pub cart_groups : List CartItem → Option Coupon → List Bundle → ℕ → List Instance
unfolding source_lines
cart_groups items coupon bundles now =
    compute_bundle_instances (source_lines 0 items) bundles (coupon_is_applied items coupon now)

unfoldable pub cart_view : List CartItem → Option Coupon → List Bundle → ℕ → View
unfolding cart_groups
cart_view items coupon bundles now =
    build_view items coupon (cart_groups items coupon bundles now) now
