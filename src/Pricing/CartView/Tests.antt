-- ===== src/Pricing/CartView/Tests.antt =====
-- A cart with a bundle, and the theorems on it.
use phone_cases_backend.Prelude.{
  ℕ, ◌+◌, ◌≤◌, ◌≡◌, refl, true, false, none, some, List, [], ◌∷◌, sum, All, arith,
}
use phone_cases_backend.Prelude.Int.{pos}
use phone_cases_backend.Prelude.Sorting.{sort_by}
use phone_cases_backend.Pricing.Allocation.{allocate_discount}
use phone_cases_backend.Pricing.View.{CartItem, Variant, unavailable_reason}
use phone_cases_backend.Pricing.Bundles.{
  Bundle, all_products, is_line_eligible, quantities, Groups.compute_bundle_instances,
  Groups.form_group, Groups.form_groups, Groups.unit_count, Claims.start_of, Claims.rounds_end,
  Rounds.claimed, Rounds.IsGood,
}
use phone_cases_backend.Pricing.CartView.{
  source_lines, cart_groups, cart_view, Lines.price_at, Lines.units_at,
  Lines.source_lines-IsIndexed, Groups.cart_groups_lem, Groups.cart_view-is_exact,
}

abbrev case_of : (id model price : ℕ) → Variant
case_of id model price = record {
  id = id;
  currency = 1;
  product = 5;
  phone_model = some model;
  phone_brand = some 31;
  case_type = some 41;
  collections = [];
  price = price;
  is_personalizable = false;
  customization_price = 0;
  is_active = true;
  is_published = true;
  stock_item = some 51;
  available = some (pos 7);
  is_unlimited_stock = false;
}

abbrev three_cases : List CartItem
three_cases =
    record { variant = case_of 11 21 200; quantity = 2; custom_design = none }
    ∷ record { variant = case_of 12 22 500; quantity = 2; custom_design = none }
    ∷ []

-- Any two cases for 450, over and over.
abbrev two_for_450 : Bundle
two_for_450 = record {
  id = 1;
  fixed_total = 450;
  currency = 1;
  require_different_phone_models = false;
  is_repeatable = true;
  allow_coupon_stacking = true;
  eligible_variants = [];
  scope = some all_products;
  target_ids = [];
  bundle_size = some 2;
  min_unit_price = some 200;
  max_surcharge = none;
}

-- The dearest units come first; a group of the two cheap cases would cost more than they do.
dearest_first : (cart_groups three_cases none (two_for_450 ∷ []) 0) ≡ (
    record {
      bundle = 1;
      fixed_total_applied = 450;
      normal_subtotal = 1000;
      discount_amount = 550;
      unit_allocations =
          record { line_index = 1; discount = 275 }
          ∷ record { line_index = 1; discount = 275 }
          ∷ [];
    }
    ∷ [])
unfolding cart_groups compute_bundle_instances unavailable_reason is_line_eligible sort_by
    allocate_discount
dearest_first = refl

cart_groups_lem_example :
    let groups = cart_groups three_cases none (two_for_450 ∷ []) 0 in
    ((i : ℕ) → claimed i groups ≤ units_at three_cases i)
    × All (IsGood (price_at three_cases) 2) groups
cart_groups_lem_example = cart_groups_lem three_cases none (two_for_450 ∷ []) 0

cart_view-is_exact_example :
    let view = cart_view three_cases none (two_for_450 ∷ []) 0 in
    (t : ℕ) × (view.total ≡ pos t)
    × (t + view.discount_total + view.bundle_discount_total ≡ view.subtotal)
    × (sum view.line_discounts ≡ view.bundle_discount_total)
cart_view-is_exact_example = cart_view-is_exact three_cases none (two_for_450 ∷ []) 0

rounds_end_example :
    let lines = source_lines 0 three_cases in
    let start = start_of (price_at three_cases) 2 lines two_for_450 (quantities lines) [] in
    form_group two_for_450 2 (form_groups (unit_count start.buckets) two_for_450 2 start) ≡ none
rounds_end_example =
    rounds_end (price_at three_cases) 2 (source_lines 0 three_cases) two_for_450
      (quantities (source_lines 0 three_cases)) (quantities (source_lines 0 three_cases)) []
      (source_lines-IsIndexed three_cases) (λ i. omega arith, tt) (omega arith)
