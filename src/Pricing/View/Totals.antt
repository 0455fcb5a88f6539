-- ===== src/Pricing/View/Totals.antt =====
-- What the totals of a cart view add up to.
use phone_cases_backend.Prelude.{
  ℕ, suc, ◌+◌, ◌-◌, ◌≤◌, ◌<◌, ◌≡◌, refl, sym, ap, ◌∙◌, ◌&&◌, Option, none, some, List, [], ◌∷◌, ltb,
  leb, length, sum, sum_by, sum_by-plus, All, if◌then◌else◌, arith,
}
use phone_cases_backend.Prelude.Int.{pos, sub_ℕ}
use phone_cases_backend.Store.{Coupon}
use phone_cases_backend.Pricing.Coupons.{CouponProblem, compute_discount_le}
use phone_cases_backend.Pricing.View.{
  CartItem, Share, Instance, share_of, line_discount, bundle_total, line_discounts_from,
  subtotal_of, coupon_problem, coupon_discount, build_view,
}

-- The bundles' discounts are shared out to the units of the lines, none of which is lost.
abbrev pub IsShared : ℕ → Instance → Type 0
IsShared n b =
    (sum_by (λ a. a.discount) b.unit_allocations ≡ b.discount_amount)
    × All (λ a. a.line_index < n) b.unit_allocations

-- The part of a share that falls on the `n` lines from `i` on.
abbrev within : ℕ → ℕ → Share → ℕ
within i n a = if leb i a.line_index && ltb a.line_index (i + n) then a.discount else 0

sum_by_zero : {A : Type 0} (f : A → ℕ) (xs : List A) → ((x : A) → f x ≡ 0) → sum_by f xs ≡ 0
sum_by_zero f [] zero_ = refl
sum_by_zero f (x ∷ xs) zero_ = omega (arith, zero_ x, sum_by_zero f xs zero_)

within_step : (i n : ℕ) (a : Share) → share_of i a + within (i + 1) n a ≡ within i (suc n) a
within_step i n a = ground arith

line_discounts_sum :
    (i : ℕ) (items : List CartItem) (bs : List Instance)
    → sum (line_discounts_from i items bs)
      ≡ sum_by (λ b. sum_by (within i (length items)) b.unit_allocations) bs
unfolding line_discounts_from
line_discounts_sum i [] bs = sym (
    sum_by_zero (λ b. sum_by (within i 0) b.unit_allocations) bs
      (λ b. sum_by_zero (within i 0) b.unit_allocations (λ a. ground arith)))
line_discounts_sum i (x ∷ xs) bs =
    let n = length xs in
    let split =
      sum_by-plus (λ b. sum_by (share_of i) b.unit_allocations)
        (λ b. sum_by (within (i + 1) n) b.unit_allocations)
        (λ b. sum_by (within i (suc n)) b.unit_allocations) bs
        (λ b.
          sum_by-plus (share_of i) (within (i + 1) n) (within i (suc n)) b.unit_allocations
            (within_step i n)) in
    ap (λ z. line_discount i bs + z) (line_discounts_sum (i + 1) xs bs) ∙ split

within_every :
    (n : ℕ) (as_ : List Share)
    → All (λ a. a.line_index < n) as_
    → sum_by (within 0 n) as_ ≡ sum_by (λ a. a.discount) as_
within_every n [] h = refl
within_every n (a ∷ as_) h = ground (arith, within_every n as_ (h.1))

shared_total :
    (n : ℕ) (bs : List Instance)
    → All (IsShared n) bs
    → sum_by (λ b. sum_by (within 0 n) b.unit_allocations) bs ≡ bundle_total bs
shared_total n [] h = refl
shared_total n (b ∷ bs) h =
    omega (arith, within_every n b.unit_allocations (h.0.1), h.0.0, shared_total n bs (h.1))

-- The discounts shown at the lines of a cart add up to the bundle discount of the cart, if each
-- bundle shares its discount out in full to lines of the cart.
pub line_discounts-add_up :
    (items : List CartItem) (coupon : Option Coupon) (bs : List Instance) (now : ℕ)
    → All (IsShared (length items)) bs
    → let view = build_view items coupon bs now in
      sum view.line_discounts ≡ view.bundle_discount_total
unfolding build_view
line_discounts-add_up items coupon bs now shared =
    line_discounts_sum 0 items bs ∙ shared_total (length items) bs shared

coupon_discount_le :
    (c : Option Coupon) (p : Option CouponProblem) (n : ℕ) → coupon_discount c p n ≤ n
coupon_discount_le none p n = omega arith
coupon_discount_le (some c) none n = compute_discount_le c n
coupon_discount_le (some c) (some p) n = omega arith

-- Where the bundles take no more than the subtotal, the total of a cart is not negative: it is
-- the subtotal less the two discounts, and the coupon takes a part of what the bundles leave.
pub total-is_exact :
    (items : List CartItem) (coupon : Option Coupon) (bs : List Instance) (now : ℕ)
    → bundle_total bs ≤ subtotal_of items
    → let view = build_view items coupon bs now in
      (t : ℕ) × (view.total ≡ pos t)
      × (t + view.discount_total + view.bundle_discount_total ≡ view.subtotal)
unfolding build_view
total-is_exact items coupon bs now fits =
    let n = subtotal_of items in
    let d = coupon_discount coupon (coupon_problem coupon n now) (n - bundle_total bs) in
    let le : d ≤ n - bundle_total bs =
      coupon_discount_le coupon (coupon_problem coupon n now) (n - bundle_total bs) in
    exact n d (bundle_total bs) le fits
  where
    exact : (n d b : ℕ) → d ≤ n - b → b ≤ n → (t : ℕ) × (sub_ℕ n (d + b) ≡ pos t) × (t + d + b ≡ n)
    exact n d b le fits = (n - (d + b), ground arith, omega arith)
