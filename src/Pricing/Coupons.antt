-- ===== src/Pricing/Coupons.antt =====
-- Coupons: `computeDiscount` and `findCouponValidityError` of
-- src/modules/cart/cart-pricing.service.ts, `computeCouponStatus` of
-- src/modules/promotions/coupons/coupon-status.util.ts.
use phone_cases_backend.Prelude.{
  ℕ, ◌+◌, ◌*◌, ◌/◌, ◌≤◌, ◌<◌, ◌≡◌, ◌↔◌, Bool, false, not, Option, none, some, ltb, leb, is_some_and,
  min, if◌then◌else◌, arith,
}
use native.Mathlib.Nat.{mul-le-mul_left}
use phone_cases_backend.Store.{Coupon, percentage, fixed}

-- The amount before the cap: fixed, or a percentage rounded down.
abbrev raw_discount : Coupon → ℕ → ℕ
raw_discount c subtotal = elim c.type [ percentage ↦ (subtotal * c.value) / 100 | fixed ↦ c.value ]

unfoldable pub compute_discount : Coupon → ℕ → ℕ
compute_discount c subtotal = if leb subtotal 0 then 0 else min (raw_discount c subtotal) subtotal

pub data CouponProblem : Type 0 where
  inactive not_started lapsed below_min_spend used_up : CouponProblem

abbrev starts_later : Coupon → ℕ → Bool
starts_later c now = is_some_and (λ t. ltb now t) c.starts_at

abbrev has_ended : Coupon → ℕ → Bool
has_ended c now = is_some_and (λ t. ltb t now) c.expires_at

abbrev pub is_below_min_spend : Coupon → ℕ → Bool
is_below_min_spend c subtotal = is_some_and (λ m. ltb subtotal m) c.min_spend

abbrev is_used_up : Coupon → Bool
is_used_up c = is_some_and (λ n. leb n c.usage_count) c.usage_limit

unfoldable pub find_coupon_validity_error : Coupon → ℕ → ℕ → Option CouponProblem
find_coupon_validity_error c subtotal now =
    if not c.is_active
    then some inactive
    else if starts_later c now
    then some not_started
    else if has_ended c now
    then some lapsed
    else if is_below_min_spend c subtotal
    then some below_min_spend
    else if is_used_up c
    then some used_up
    else none

pub data CouponStatus : Type 0 where
  disabled scheduled expired exhausted active : CouponStatus

unfoldable pub compute_coupon_status : Coupon → ℕ → CouponStatus
compute_coupon_status c now =
    if not c.is_active
    then disabled
    else if starts_later c now
    then scheduled
    else if has_ended c now
    then expired
    else if is_used_up c
    then exhausted
    else active

percentage_exact :
    (n v : ℕ)
    → v ≤ 100
    → let d = if leb n 0 then 0 else min ((n * v) / 100) n in
      (d * 100 ≤ n * v) × (n * v < d * 100 + 100)
percentage_exact n v small =
    let top : n * v ≤ n * 100 = mul-le-mul_left n small in generalized n (n * v) top
  where
    generalized :
        (n x : ℕ)
        → x ≤ n * 100
        → let d = if leb n 0 then 0 else min (x / 100) n in (d * 100 ≤ x) × (x < d * 100 + 100)
    generalized n x top = ground arith

pub compute_discount_le : (c : Coupon) (n : ℕ) → compute_discount c n ≤ n
unfolding compute_discount
compute_discount_le c n = ground arith

-- A discount in percent takes the exact part of the subtotal, less what is below one minor unit,
-- and never more than the subtotal.
pub compute_discount-bounds :
    (c : Coupon) (subtotal : ℕ)
    → c.type ≡ percentage
    → c.value ≤ 100
    → (compute_discount c subtotal ≤ subtotal)
      × (compute_discount c subtotal * 100 ≤ subtotal * c.value)
      × (subtotal * c.value < compute_discount c subtotal * 100 + 100)
unfolding compute_discount
compute_discount-bounds c subtotal p small =
    let exact = percentage_exact subtotal c.value small in
    (compute_discount_le c subtotal, rw p (exact.0), rw p (exact.1))

-- The list of coupons calls a coupon active exactly when the cart accepts it for a subtotal that
-- reaches its minimum.
pub active_iff_valid :
    (c : Coupon) (subtotal now : ℕ)
    → (find_coupon_validity_error c subtotal now ≡ none)
      ↔ ((compute_coupon_status c now ≡ active) × (is_below_min_spend c subtotal ≡ false))
unfolding find_coupon_validity_error compute_coupon_status
active_iff_valid c subtotal now = ground arith
