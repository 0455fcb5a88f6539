-- ===== src/Checkout/Drafts.antt =====
-- The lines of a new order: the part of `createOrder` of src/modules/orders/orders.service.ts that
-- splits the lines of a cart by the groups of its bundles, and shares the coupon's discount out.
pub mod Sums
pub mod Exact
use phone_cases_backend.Prelude.{
  ℕ, ◌+◌, ◌-◌, ◌*◌, Bool, true, false, Option, none, some, List, [], ◌∷◌, ◌++◌, map, ltb, ◌==◌,
  select, sum_by, if◌then◌else◌,
}
use phone_cases_backend.Prelude.Int.{ℤ, sub_ℕ}
use phone_cases_backend.Pricing.Allocation.{allocate_discount}
use phone_cases_backend.Pricing.View.{CartItem, Share, Instance, effective_unit_price, is_available}
use phone_cases_backend.Pricing.Bundles.{Bundle, SourceLine, Groups.compute_bundle_instances}
use phone_cases_backend.Pricing.CartView.{to_source_line}

-- Every item with its place in the list.
pub number_lines : ℕ → List CartItem → List SourceLine
number_lines i [] = []
number_lines i (x ∷ xs) = to_source_line x i ∷ number_lines (i + 1) xs

-- The groups are computed again, from the items that can be bought.
unfoldable pub order_groups : List CartItem → List Bundle → Bool → List Instance
unfolding number_lines
order_groups items bundles coupon_is_applied =
    compute_bundle_instances (number_lines 0 (select is_available items)) bundles coupon_is_applied

-- How many units of a line one group took, and what was taken off them.
pub record Usage : Type 0 where
  pub group : ℕ
  pub quantity : ℕ
  pub discount : ℕ

-- One unit more for a group, in the order of first insertion.
unfoldable pub add_use : ℕ → ℕ → List Usage → List Usage
add_use k d [] = record { group = k; quantity = 1; discount = d } ∷ []
add_use k d (u ∷ us) =
    if u.group == k
    then (record u { quantity = u.quantity + 1; discount = u.discount + d }) ∷ us
    else u ∷ add_use k d us

-- The entry of line `i` in `usageByLine` after the units of group `k`, and after all groups.
unfoldable pub uses_of_group : (i k : ℕ) → List Share → List Usage → List Usage
unfolding add_use
uses_of_group i k [] us = us
uses_of_group i k (a ∷ as_) us =
    uses_of_group i k as_ (if a.line_index == i then add_use k a.discount us else us)

unfoldable pub uses_from : (i k : ℕ) → List Instance → List Usage → List Usage
unfolding uses_of_group
uses_from i k [] us = us
uses_from i k (b ∷ bs) us = uses_from i (k + 1) bs (uses_of_group i k b.unit_allocations us)

-- `usageByLine.get(i)`
abbrev pub usage_of_line : List Instance → ℕ → List Usage
usage_of_line groups i = uses_from i 0 groups []

pub record Draft : Type 0 where
  pub item : CartItem
  pub quantity : ℕ
  pub group : Option ℕ
  pub bundle_discount : ℕ

abbrev pub grouped_draft : CartItem → Usage → Draft
grouped_draft item u = record {
  item = item;
  quantity = u.quantity;
  group = some u.group;
  bundle_discount = u.discount;
}

abbrev pub plain_draft : CartItem → ℕ → Draft
plain_draft item n = record { item = item; quantity = n; group = none; bundle_discount = 0 }

-- One draft for each group that took units of the item, and one for the units that are left.
unfoldable pub drafts_of : CartItem → List Usage → List Draft
drafts_of item us =
    let remaining = item.quantity - sum_by (λ u. u.quantity) us in
    map (grouped_draft item) us ++ (if ltb 0 remaining then plain_draft item remaining ∷ [] else [])

unfoldable pub drafts_from : ℕ → List CartItem → List Instance → List Draft
unfolding drafts_of uses_from
drafts_from i [] groups = []
drafts_from i (x ∷ xs) groups =
    drafts_of x (usage_of_line groups i) ++ drafts_from (i + 1) xs groups

abbrev pub draft_subtotal : Draft → ℕ
draft_subtotal d = effective_unit_price d.item.variant * d.quantity

-- What a coupon may still take; no draft's bundle discount is above its subtotal.
abbrev pub draft_eligible : Draft → ℕ
draft_eligible d = draft_subtotal d - d.bundle_discount

-- The row of an order item, without the texts that are copied from the catalogue.
pub record CreatedItem : Type 0 where
  pub variant : ℕ
  pub unit_price : ℕ
  pub customization_price : ℕ
  pub quantity : ℕ
  pub line_subtotal : ℕ
  pub line_discount : ℕ
  pub group : Option ℕ
  pub bundle_discount : ℕ
  pub line_total : ℤ
  pub custom_design : Option ℕ

abbrev pub create_item : Draft → ℕ → CreatedItem
create_item d line_discount = record {
  variant = d.item.variant.id;
  unit_price = effective_unit_price d.item.variant;
  customization_price =
      if d.item.variant.is_personalizable then d.item.variant.customization_price else 0;
  quantity = d.quantity;
  line_subtotal = draft_subtotal d;
  line_discount = line_discount;
  group = d.group;
  bundle_discount = d.bundle_discount;
  line_total = sub_ℕ (draft_subtotal d) (line_discount + d.bundle_discount);
  custom_design = d.item.custom_design;
}

-- The drafts with their parts of the coupon's discount.
abbrev pub create_items : List Draft → List ℕ → List CreatedItem
create_items [] ds = []
create_items (x ∷ xs) [] = []
create_items (x ∷ xs) (d ∷ ds) = create_item x d ∷ create_items xs ds

unfoldable pub order_items : List CartItem → List Instance → (discount_total : ℕ) → List CreatedItem
unfolding drafts_from allocate_discount
order_items items groups discount_total =
    let drafts = drafts_from 0 (select is_available items) groups in
    create_items drafts (allocate_discount (map draft_eligible drafts) discount_total)
