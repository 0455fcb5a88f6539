-- ===== src/Pricing/View.antt =====
-- The totals of a cart: `buildView`, `toItemView` and `effectiveUnitPrice` of
-- src/modules/cart/cart-pricing.service.ts, and `computeShippingPrice` of
-- src/modules/shipping/shipping.service.ts. The instances of bundles are an argument of `build_view`;
-- Pricing/CartView.antt passes those that the bundles give.
pub mod Totals
use phone_cases_backend.Prelude.{
  ℕ, ◌+◌, ◌-◌, ◌*◌, ◌≤◌, ◌<◌, ◌≡◌, refl, Bool, true, false, not, ◌&&◌, ◌||◌, Option, none, some,
  List, [], ◌∷◌, ltb, leb, ◌==◌, is_some, is_some_and, length, sum, sum_by, All, if◌then◌else◌,
  Bool-cases, inl, inr, arith,
}
use phone_cases_backend.Prelude.Int.{ℤ, pos, sub_ℕ}
use phone_cases_backend.Store.{Coupon}
use phone_cases_backend.Pricing.Coupons.{
  CouponProblem, compute_discount, find_coupon_validity_error, compute_discount-bounds,
}

pub record Variant : Type 0 where
  pub id : ℕ
  pub currency : ℕ
  pub product : ℕ
  pub phone_model : Option ℕ
  pub phone_brand : Option ℕ
  pub case_type : Option ℕ
  pub collections : List ℕ
  pub price : ℕ
  pub is_personalizable : Bool
  pub customization_price : ℕ
  pub is_active : Bool
  pub is_published : Bool
  pub stock_item : Option ℕ
  pub available : Option ℤ
  pub is_unlimited_stock : Bool

pub record CartItem : Type 0 where
  pub variant : Variant
  pub quantity : ℕ
  pub custom_design : Option ℕ

abbrev pub effective_unit_price : Variant → ℕ
effective_unit_price v = v.price + (if v.is_personalizable then v.customization_price else 0)

abbrev is_positive : ℤ → Bool
is_positive (pos n) = ltb 0 n
is_positive _ = false

-- `onHand - reserved > 0`, for a variant with a stock item.
abbrev has_stock : Variant → Bool
has_stock v = elim v.available [ none ↦ v.is_unlimited_stock | some n ↦ is_positive n ]

pub data Unavailable : Type 0 where
  no_longer_available out_of_stock needs_design : Unavailable

unfoldable pub unavailable_reason : CartItem → Option Unavailable
unavailable_reason item =
    if not item.variant.is_published || not item.variant.is_active
    then some no_longer_available
    else if not (has_stock item.variant)
    then some out_of_stock
    else if item.variant.is_personalizable && not (is_some item.custom_design)
    then some needs_design
    else none

abbrev pub line_subtotal : CartItem → ℕ
line_subtotal item = effective_unit_price item.variant * item.quantity

abbrev pub is_available : CartItem → Bool
is_available item = not (is_some (unavailable_reason item))

abbrev pub subtotal_of : List CartItem → ℕ
subtotal_of items = sum_by (λ i. if is_available i then line_subtotal i else 0) items

-- One application of a bundle: its prices, its discount, and the parts of it that its units take.
pub record Share : Type 0 where
  pub line_index : ℕ
  pub discount : ℕ

pub record Instance : Type 0 where
  pub bundle : ℕ
  pub fixed_total_applied : ℕ
  pub normal_subtotal : ℕ
  pub discount_amount : ℕ
  pub unit_allocations : List Share

abbrev pub share_of : ℕ → Share → ℕ
share_of i a = if a.line_index == i then a.discount else 0

-- `bundleDiscountByLine.get(i) ?? 0`
abbrev pub line_discount : ℕ → List Instance → ℕ
line_discount i instances = sum_by (λ b. sum_by (share_of i) b.unit_allocations) instances

abbrev pub bundle_total : List Instance → ℕ
bundle_total instances = sum_by (λ b. b.discount_amount) instances

pub record View : Type 0 where
  pub subtotal : ℕ
  pub line_discounts : List ℕ
  pub bundle_discount_total : ℕ
  pub discount_total : ℕ
  pub total : ℤ
  pub coupon_warning : Option CouponProblem

-- The discounts of the lines from index `i` on.
unfoldable pub line_discounts_from : ℕ → List CartItem → List Instance → List ℕ
line_discounts_from i [] instances = []
line_discounts_from i (x ∷ xs) instances =
    line_discount i instances ∷ line_discounts_from (i + 1) xs instances

abbrev pub coupon_problem : Option Coupon → ℕ → ℕ → Option CouponProblem
coupon_problem none subtotal now = none
coupon_problem (some c) subtotal now = find_coupon_validity_error c subtotal now

-- A coupon is applied if there is one and nothing is wrong with it.
abbrev pub coupon_discount : Option Coupon → Option CouponProblem → ℕ → ℕ
coupon_discount (some c) none eligible = compute_discount c eligible
coupon_discount _ _ eligible = 0

-- What is left after the bundles is not positive where they take more than all; a coupon then
-- takes nothing.
unfoldable pub build_view : List CartItem → Option Coupon → List Instance → ℕ → View
unfolding line_discounts_from
build_view items coupon instances now =
    let subtotal = subtotal_of items in
    let problem = coupon_problem coupon subtotal now in
    let bundles = bundle_total instances in
    let discount = coupon_discount coupon problem (subtotal - bundles) in
    record {
      subtotal = subtotal;
      line_discounts = line_discounts_from 0 items instances;
      bundle_discount_total = bundles;
      discount_total = discount;
      total = sub_ℕ subtotal (discount + bundles);
      coupon_warning = problem;
    }

-- A rate's price, or nothing from its threshold on.
unfoldable pub compute_shipping_price : (price : ℕ) (free_from : Option ℕ) (basis : ℕ) → ℕ
compute_shipping_price price free_from basis =
    if is_some_and (λ t. leb t basis) free_from then 0 else price
