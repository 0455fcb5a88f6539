-- ===== src/Checkout/Drafts/Exact.antt =====
-- The rows of a new order against the cart view that the customer has seen.
use phone_cases_backend.Prelude.{
  ℕ, ◌+◌, ◌-◌, ◌≤◌, ◌≡◌, refl, sym, ap, ◌∙◌, Bool, true, Option, List, [], ◌∷◌, map, select, length,
  min, sum, sum_by, All, if◌then◌else◌, arith,
}
use phone_cases_backend.Prelude.Int.{pos, pos_part, sub_ℕ}
use phone_cases_backend.Store.{Coupon}
use phone_cases_backend.Pricing.Allocation.{allocate_discount, Below, Exact.allocate_discount_exact}
use phone_cases_backend.Pricing.View.{
  CartItem, View, line_discounts_from, build_view, is_available, subtotal_of,
}
use phone_cases_backend.Pricing.Bundles.{Bundle, Rounds.claimed}
use phone_cases_backend.Pricing.CartView.{
  source_lines, coupon_is_applied, cart_groups, cart_view, Lines.price_at, Groups.cart_groups_lem,
  Groups.cart_view-is_exact,
}
use phone_cases_backend.Checkout.Drafts.{
  Draft, CreatedItem, number_lines, order_groups, drafts_from, draft_subtotal, draft_eligible,
  create_item, create_items, order_items, Sums.AreAvailable, Sums.Totals, Sums.drafts_from-Totals,
}

select-All : {A : Type 0} (p : A → Bool) (xs : List A) → All (λ x. p x ≡ true) xs → select p xs ≡ xs
select-All p [] h = refl
select-All p (x ∷ xs) h = rw (h.0, if◌then◌else◌) (ap (λ ys. x ∷ ys) (select-All p xs (h.1)))

number_lines_lem :
    (i : ℕ) (items : List CartItem)
    → AreAvailable items
    → number_lines i items ≡ source_lines i items
unfolding number_lines source_lines
number_lines_lem i [] there = refl
number_lines_lem i (x ∷ xs) there = ground (arith, there.0, number_lines_lem (i + 1) xs (there.1))

-- An order of items that can all be bought has the groups of the cart view.
pub order_groups_lem :
    (items : List CartItem) (coupon : Option Coupon) (bundles : List Bundle) (now : ℕ)
    → AreAvailable items
    → order_groups items bundles (coupon_is_applied items coupon now)
      ≡ cart_groups items coupon bundles now
unfolding order_groups cart_groups
order_groups_lem items coupon bundles now there =
    rw (select-All is_available items there, number_lines_lem 0 items there) refl

-- A line's total is not negative: it is its subtotal less its two discounts.
abbrev pub IsExact : CreatedItem → Type 0
IsExact r =
    (r.line_total ≡ pos (pos_part r.line_total))
    × (pos_part r.line_total + r.line_discount + r.bundle_discount ≡ r.line_subtotal)

create_item-IsExact :
    (x : Draft) (d : ℕ)
    → d ≤ draft_eligible x
    → x.bundle_discount ≤ draft_subtotal x
    → IsExact (create_item x d)
create_item-IsExact x d le fits = exact (draft_subtotal x) d x.bundle_discount le fits
  where
    exact :
        (s d b : ℕ)
        → d ≤ s - b
        → b ≤ s
        → (sub_ℕ s (d + b) ≡ pos (pos_part (sub_ℕ s (d + b))))
          × (pos_part (sub_ℕ s (d + b)) + d + b ≡ s)
    exact s d b le fits =
        let whole : sub_ℕ s (d + b) ≡ pos (s - (d + b)) = ground arith in
        rw (whole, pos_part) (refl, omega (arith, le, fits))

abbrev paid : CreatedItem → ℕ
paid r = pos_part r.line_total

-- The rows of drafts have the drafts' totals, and the discounts that are handed out.
create_items_lem :
    (xs : List Draft) (ds : List ℕ)
    → Below ds (map draft_eligible xs)
    → All (λ x. x.bundle_discount ≤ draft_subtotal x) xs
    → let rows = create_items xs ds in
      All IsExact rows
      × (sum_by (λ r. r.quantity) rows ≡ sum_by (λ x. x.quantity) xs)
      × (sum_by (λ r. r.line_subtotal) rows ≡ sum_by draft_subtotal xs)
      × (sum_by (λ r. r.line_discount) rows ≡ sum ds)
      × (sum_by (λ r. r.bundle_discount) rows ≡ sum_by (λ x. x.bundle_discount) xs)
      × (sum_by paid rows + sum ds + sum_by (λ x. x.bundle_discount) xs ≡ sum_by draft_subtotal xs)
create_items_lem [] [] below fits = (tt, refl, refl, refl, refl, refl)
create_items_lem [] (d ∷ ds) below fits = absurd below
create_items_lem (x ∷ xs) [] below fits = absurd below
create_items_lem (x ∷ xs) (d ∷ ds) below fits =
    let (exact, a, b, c, e, all) = create_items_lem xs ds (below.1) (fits.1) in
    let one = create_item-IsExact x d (below.0) (fits.0) in
    (
      (one, exact),
      omega (arith, a),
      omega (arith, b),
      omega (arith, c),
      omega (arith, e),
      omega (arith, all, one.1),
    )

eligible-sum :
    (xs : List Draft)
    → All (λ x. x.bundle_discount ≤ draft_subtotal x) xs
    → sum (map draft_eligible xs) + sum_by (λ x. x.bundle_discount) xs ≡ sum_by draft_subtotal xs
eligible-sum [] fits = refl
eligible-sum (x ∷ xs) fits = omega (arith, eligible-sum xs (fits.1), fits.0)

-- What a cart view and the rows of an order of its items agree on.
abbrev pub AddUp : List CartItem → View → List CreatedItem → Type 0
AddUp items view rows =
    All IsExact rows
    × (sum_by (λ r. r.quantity) rows ≡ sum_by (λ x. x.quantity) items)
    × (sum_by (λ r. r.line_subtotal) rows ≡ view.subtotal)
    × (sum_by (λ r. r.line_discount) rows ≡ view.discount_total)
    × (sum_by (λ r. r.bundle_discount) rows ≡ view.bundle_discount_total)
    × (view.total ≡ pos (sum_by (λ r. pos_part r.line_total) rows))

abbrev order_rows : List Draft → ℕ → List CreatedItem
order_rows drafts discount_total =
    create_items drafts (allocate_discount (map draft_eligible drafts) discount_total)

rows-AddUp :
    (items : List CartItem) (drafts : List Draft) (view : View) (t : ℕ)
    → Totals drafts (sum_by (λ x. x.quantity) items) view.subtotal view.bundle_discount_total
    → view.total ≡ pos t
    → t + view.discount_total + view.bundle_discount_total ≡ view.subtotal
    → AddUp items view (order_rows drafts view.discount_total)
rows-AddUp items drafts view t (a, b, c, h) is_total exact =
    let (handed, below) = allocate_discount_exact (map draft_eligible drafts) view.discount_total in
    let (rows, q, s, d, g, all) =
      create_items_lem drafts (allocate_discount (map draft_eligible drafts) view.discount_total)
        below h in
    let full : min view.discount_total (sum (map draft_eligible drafts)) ≡ view.discount_total =
      omega (arith, eligible-sum drafts h, b, c, exact) in
    (
      rows,
      q ∙ a,
      s ∙ b,
      d ∙ handed ∙ full,
      g ∙ c,
      is_total ∙ ap pos (omega (arith, all, handed, full, exact, b, c)),
    )

view_parts :
    (items : List CartItem) (coupon : Option Coupon) (bundles : List Bundle) (now : ℕ)
    → let view = cart_view items coupon bundles now in
      (view.subtotal ≡ subtotal_of items)
      × (view.line_discounts ≡ line_discounts_from 0 items (cart_groups items coupon bundles now))
unfolding cart_view build_view
view_parts items coupon bundles now = (refl, refl)

-- The rows of an order add up to the cart view: where every item of the cart can be bought, no
-- line's total is negative, each is its subtotal less its two discounts, no unit is lost, and
-- subtotals, coupon discounts, bundle discounts and totals of the lines add up to those of the view.
pub order_items-AddUp :
    (items : List CartItem) (coupon : Option Coupon) (bundles : List Bundle) (now : ℕ)
    → AreAvailable items
    → let view = cart_view items coupon bundles now in
      let groups = order_groups items bundles (coupon_is_applied items coupon now) in
      AddUp items view (order_items items groups view.discount_total)
unfolding order_items
order_items-AddUp items coupon bundles now there =
    let view = cart_view items coupon bundles now in
    let groups = cart_groups items coupon bundles now in
    let (t, is_total, exact, shared) = cart_view-is_exact items coupon bundles now in
    let (claims, good) = cart_groups_lem items coupon bundles now in
    let totals =
      drafts_from-Totals items (length items) 0 groups (price_at items) there good
        (λ i. ap (price_at items) (omega arith))
        (λ i. omega (arith, claims i, ap (λ j. claimed j groups) (from_zero i))) in
    let (sub, lines) = view_parts items coupon bundles now in
    let (a, b, c, h) = totals in
    let rows =
      rows-AddUp items (drafts_from 0 items groups) view t
        (a, b ∙ sym sub, c ∙ ap sum (sym lines) ∙ shared, h) is_total exact in
    rw
      (
        order_groups_lem items coupon bundles now there,
        select-All is_available items there,
        order_items,
      )
      rows
  where
    from_zero : (i : ℕ) → 0 + i ≡ i
    from_zero i = omega arith
