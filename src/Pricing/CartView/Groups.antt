-- ===== src/Pricing/CartView/Groups.antt =====
-- What the groups of bundles take from a cart, and what the cart's totals are with them.
use phone_cases_backend.Prelude.{
  ℕ, ◌+◌, ◌*◌, ◌≤◌, ◌<◌, ◌≡◌, refl, sym, ap, Option, List, [], ◌∷◌, ◌==◌, length, sum, sum_by, All,
  if◌then◌else◌, arith,
}
use native.Mathlib.Nat.{mul-le-mul_left}
use phone_cases_backend.Prelude.Int.{pos}
use phone_cases_backend.Store.{Coupon}
use phone_cases_backend.Pricing.View.{
  CartItem, Share, Instance, share_of, line_discount, bundle_total, line_discounts_from,
  line_subtotal, subtotal_of, is_available, build_view, Totals.IsShared,
  Totals.line_discounts-add_up, Totals.total-is_exact,
}
use phone_cases_backend.Pricing.Bundles.{
  Bundle, Rounds.claimed, Rounds.claimed_in, Rounds.IsGood, Rounds.IsFair,
  Claims.compute_bundle_instances_lem,
}
use phone_cases_backend.Pricing.CartView.{
  source_lines, coupon_is_applied, cart_groups, cart_view, Lines.price_at, Lines.units_at,
  Lines.price_at-later, Lines.units_at-later, Lines.source_lines-IsIndexed,
  Lines.quantities-source_lines,
}

-- The groups of a cart's bundles take no more units of a line than it has, and none of a line that
-- cannot be bought; each of them is of two units or more, all of them of lines of the cart, and
-- its discount, which is the normal price of its units less what is paid for them, is shared out
-- in full, without more than the price of a unit falling on that unit.
pub cart_groups_lem :
    (items : List CartItem) (coupon : Option Coupon) (bundles : List Bundle) (now : ℕ)
    → let groups = cart_groups items coupon bundles now in
      ((i : ℕ) → claimed i groups ≤ units_at items i)
      × All (IsGood (price_at items) (length items)) groups
unfolding cart_groups
cart_groups_lem items coupon bundles now =
    let (claims, good) =
      compute_bundle_instances_lem (price_at items) (length items) (source_lines 0 items) bundles
        (coupon_is_applied items coupon now) (source_lines-IsIndexed items) in
    ((λ i. omega (arith, claims i, quantities-source_lines items i)), good)

scale_add : (p a b x y : ℕ) → x ≤ p * a → y ≤ p * b → x + y ≤ p * (a + b)
scale_add p a b x y hx hy = ground (arith, hx, hy)

shares-le :
    (price : ℕ → ℕ) (n i : ℕ) (as_ : List Share)
    → All (IsFair price n) as_
    → sum_by (share_of i) as_ ≤ price i * sum_by (λ a. if a.line_index == i then 1 else 0) as_
shares-le price n i [] fair = omega arith
shares-le price n i (a ∷ as_) fair =
    scale_add (price i) (if a.line_index == i then 1 else 0)
      (sum_by (λ a. if a.line_index == i then 1 else 0) as_) (share_of i a)
      (sum_by (share_of i) as_) (ground (arith, fair.0.1)) (shares-le price n i as_ (fair.1))

groups-le :
    (price : ℕ → ℕ) (n i : ℕ) (bs : List Instance)
    → All (IsGood price n) bs
    → line_discount i bs ≤ price i * claimed i bs
groups-le price n i [] good = omega arith
groups-le price n i (b ∷ bs) ((two, paid, total, fair), good) =
    scale_add (price i) (claimed_in i b) (claimed i bs) (sum_by (share_of i) b.unit_allocations)
      (line_discount i bs) (shares-le price n i b.unit_allocations fair)
      (groups-le price n i bs good)

-- No more is taken off a line than it costs.
line_discount-le :
    (items : List CartItem) (coupon : Option Coupon) (bundles : List Bundle) (now i : ℕ)
    → line_discount i (cart_groups items coupon bundles now) ≤ price_at items i * units_at items i
line_discount-le items coupon bundles now i =
    let groups = cart_groups items coupon bundles now in
    let (claims, good) = cart_groups_lem items coupon bundles now in
    omega (
      arith,
      groups-le (price_at items) (length items) i groups good,
      mul-le-mul_left (price_at items i) (claims i),
    )

are-IsShared :
    (price : ℕ → ℕ) (n : ℕ) (bs : List Instance) → All (IsGood price n) bs → All (IsShared n) bs
are-IsShared price n [] good = tt
are-IsShared price n (b ∷ bs) ((two, paid, total, fair), good) =
    ((total, within b.unit_allocations fair), are-IsShared price n bs good)
  where
    within : (as_ : List Share) → All (IsFair price n) as_ → All (λ a. a.line_index < n) as_
    within [] f = tt
    within (a ∷ as_) f = (f.0.0, within as_ (f.1))

-- What the items that can be bought cost at a place.
abbrev cost_at : List CartItem → ℕ → ℕ
cost_at items i = price_at items i * units_at items i

cost-first :
    (x : CartItem) (xs : List CartItem)
    → cost_at (x ∷ xs) 0 ≡ (if is_available x then line_subtotal x else 0)
cost-first x xs = ground arith

cost-later : (x : CartItem) (xs : List CartItem) (i : ℕ) → cost_at (x ∷ xs) (i + 1) ≡ cost_at xs i
cost-later x xs i = rw (price_at-later x xs i, units_at-later x xs i) refl

discounts-le :
    (items : List CartItem) (k : ℕ) (bs : List Instance)
    → ((i : ℕ) → line_discount (k + i) bs ≤ cost_at items i)
    → sum (line_discounts_from k items bs) ≤ subtotal_of items
unfolding line_discounts_from
discounts-le [] k bs h = omega arith
discounts-le (x ∷ xs) k bs h = omega (
  arith,
  first (omega arith),
  cost-first x xs,
  discounts-le xs (k + 1) bs (λ i. later i (omega arith)),
)
  where
    first : k + 0 ≡ k → line_discount k bs ≤ cost_at (x ∷ xs) 0
    first e = rw (ap (λ j. line_discount j bs) (sym e)) (h 0)

    later : (i : ℕ) → k + (i + 1) ≡ k + 1 + i → line_discount (k + 1 + i) bs ≤ cost_at xs i
    later i e = omega (arith, h (i + 1), cost-later x xs i, ap (λ j. line_discount j bs) e)

groups-le_subtotal :
    (items : List CartItem) (coupon : Option Coupon) (bundles : List Bundle) (now : ℕ)
    → bundle_total (cart_groups items coupon bundles now) ≤ subtotal_of items
unfolding build_view
groups-le_subtotal items coupon bundles now =
    let groups = cart_groups items coupon bundles now in
    let (claims, good) = cart_groups_lem items coupon bundles now in
    let same : sum (line_discounts_from 0 items groups) ≡ bundle_total groups =
      line_discounts-add_up items coupon groups now
        (are-IsShared (price_at items) (length items) groups good) in
    omega (arith, same, discounts-le items 0 groups (λ i. from_zero i (omega arith)))
  where
    from_zero :
        (i : ℕ)
        → 0 + i ≡ i
        → line_discount (0 + i) (cart_groups items coupon bundles now) ≤ cost_at items i
    from_zero i e =
        rw (ap (λ j. line_discount j (cart_groups items coupon bundles now)) e)
          (line_discount-le items coupon bundles now i)

-- The total of a cart with its bundles and its coupon is never negative: it is what the items that
-- can be bought cost, less the two discounts, and the discounts shown at the lines are the bundle
-- discount.
pub cart_view-is_exact :
    (items : List CartItem) (coupon : Option Coupon) (bundles : List Bundle) (now : ℕ)
    → let view = cart_view items coupon bundles now in
      (t : ℕ) × (view.total ≡ pos t)
      × (t + view.discount_total + view.bundle_discount_total ≡ view.subtotal)
      × (sum view.line_discounts ≡ view.bundle_discount_total)
unfolding cart_view
cart_view-is_exact items coupon bundles now =
    let groups = cart_groups items coupon bundles now in
    let (claims, good) = cart_groups_lem items coupon bundles now in
    let (t, is_total, exact) =
      total-is_exact items coupon groups now (groups-le_subtotal items coupon bundles now) in
    let shared = are-IsShared (price_at items) (length items) groups good in
    (t, is_total, exact, line_discounts-add_up items coupon groups now shared)
