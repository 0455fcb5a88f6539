-- ===== src/Pricing/Tests.antt =====
-- Small prices, and the theorems on them at concrete inputs.
use phone_cases_backend.Prelude.{
  ℕ, ◌+◌, ◌*◌, ◌≤◌, ◌<◌, ◌≡◌, ◌↔◌, refl, true, false, none, some, List, [], ◌∷◌, sum, arith,
}
use phone_cases_backend.Prelude.Int.{pos}
use phone_cases_backend.Store.{Coupon, percentage}
use phone_cases_backend.Pricing.Coupons.{
  compute_discount, find_coupon_validity_error, compute_coupon_status, is_below_min_spend,
  compute_discount-bounds, active_iff_valid,
}
use phone_cases_backend.Pricing.Coupons
use phone_cases_backend.Pricing.Schedule.{
  Window, Write, keep, write, unchanged, set, after, resolve_schedule_window, compute_bundle_status,
  accepted_window_is_used,
}
use phone_cases_backend.Pricing.Schedule
use phone_cases_backend.Pricing.View.{
  CartItem, Instance, build_view, unavailable_reason, compute_shipping_price,
}
use phone_cases_backend.Pricing.Allocation.{allocate_discount, Below}
use phone_cases_backend.Pricing.Allocation.Exact.{
  allocate_discount_exact, allocate_discount_proportional,
}

-- The incident that the comment in the source records: it used to give 0, 0, 2.
allocate_small : allocate_discount (1 ∷ 1 ∷ 1 ∷ []) 2 ≡ 1 ∷ 1 ∷ 0 ∷ []
unfolding allocate_discount
allocate_small = refl

allocate_mixed : allocate_discount (1000 ∷ 2000 ∷ 3000 ∷ []) 1000 ≡ 167 ∷ 333 ∷ 500 ∷ []
unfolding allocate_discount
allocate_mixed = refl

allocate_discount_exact_example :
    (sum (allocate_discount (1 ∷ 1 ∷ 1 ∷ []) 2) ≡ 2)
    × Below (allocate_discount (1 ∷ 1 ∷ 1 ∷ []) 2) (1 ∷ 1 ∷ 1 ∷ [])
allocate_discount_exact_example = allocate_discount_exact (1 ∷ 1 ∷ 1 ∷ []) 2

allocate_discount_proportional_example :
    Below (166 ∷ 333 ∷ 500 ∷ []) (allocate_discount (1000 ∷ 2000 ∷ 3000 ∷ []) 1000)
allocate_discount_proportional_example =
    allocate_discount_proportional (1000 ∷ 2000 ∷ 3000 ∷ []) 1000 (omega arith) (omega arith)
      (omega arith)

abbrev ten_percent : Coupon
ten_percent = record {
  type = percentage;
  value = 10;
  min_spend = some 500;
  starts_at = none;
  expires_at = some 9_000;
  usage_limit = some 3;
  usage_count = 1;
  is_active = true;
}

compute_discount-bounds_example :
    (compute_discount ten_percent 999 ≤ 999)
    × (compute_discount ten_percent 999 * 100 ≤ 999 * 10)
    × (999 * 10 < compute_discount ten_percent 999 * 100 + 100)
compute_discount-bounds_example = compute_discount-bounds ten_percent 999 refl (omega arith)

active_iff_valid_example : (find_coupon_validity_error ten_percent 999 5_000 ≡ none) ↔ (
    (compute_coupon_status ten_percent 5_000 ≡ Coupons.active)
    × (is_below_min_spend ten_percent 999 ≡ false))
active_iff_valid_example = active_iff_valid ten_percent 999 5_000

abbrev open_end : Window
open_end = record { starts_at = some 1_000; expires_at = none }

accepted_window_is_used_example :
    (now : ℕ) × (compute_bundle_status true (after (keep, write (some 2_000)) open_end) now
      ≡ Schedule.active)
unfolding resolve_schedule_window
accepted_window_is_used_example =
    accepted_window_is_used unchanged (set 2_000) open_end (keep, write (some 2_000)) (ground arith)
      refl

abbrev case_in_cart : CartItem
case_in_cart = record {
  variant = record {
    id = 11;
    currency = 1;
    product = 5;
    phone_model = some 21;
    phone_brand = some 31;
    case_type = some 41;
    collections = [];
    price = 400;
    is_personalizable = false;
    customization_price = 0;
    is_active = true;
    is_published = true;
    stock_item = some 51;
    available = some (pos 7);
    is_unlimited_stock = false;
  };
  quantity = 2;
  custom_design = none;
}

-- Two cases, the second for half the price.
abbrev one_bundle : List Instance
one_bundle =
    record {
      bundle = 1;
      fixed_total_applied = 600;
      normal_subtotal = 800;
      discount_amount = 200;
      unit_allocations =
          record { line_index = 0; discount = 100 }
          ∷ record { line_index = 0; discount = 100 }
          ∷ [];
    }
    ∷ []

view_of_two : (build_view (case_in_cart ∷ []) (some ten_percent) one_bundle 5_000).total ≡ pos 540
unfolding build_view find_coupon_validity_error compute_discount unavailable_reason
view_of_two = refl

free_from_500 : compute_shipping_price 60 (some 500) 540 ≡ 0
unfolding compute_shipping_price
free_from_500 = refl
