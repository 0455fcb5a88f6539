-- ===== src/Carts/Tests.antt =====
-- A desk with two carts, one of them closed, and the theorems on it.
use phone_cases_backend.Prelude.{
  sum_by, ◌+◌, ◌≤◌, ℕ, ◌≡◌, refl, true, false, none, some, List, [], ◌∷◌, ◌==◌, if◌then◌else◌,
  arith,
}
use phone_cases_backend.Prelude.Results.{ok, err}
use phone_cases_backend.Errors.{cart_not_active, bad_request, not_unique}
use phone_cases_backend.Pricing.View.{Variant}
use phone_cases_backend.Carts.Shared.{set_quantity_fits}
use phone_cases_backend.Texts.{omitted, text, sanitize_note, trim_start, trim_end}
use phone_cases_backend.Carts.{
  demand, assert_soft_availability, accept_note, Desk, Item, Changes.add, Changes.replace,
  Changes.serve, Changes.update, Rules.AreSmall, Tidy.serve-AreSmall,
}

abbrev plain : ℕ → Variant
plain id = record {
  id = id;
  currency = 1;
  product = 5;
  phone_model = none;
  phone_brand = none;
  case_type = none;
  collections = [];
  price = 200;
  is_personalizable = false;
  customization_price = 0;
  is_active = true;
  is_published = true;
  stock_item = some 51;
  available = none;
  is_unlimited_stock = false;
}

abbrev line : (id cart variant quantity : ℕ) → Item
line id cart variant quantity = record {
  id = id;
  cart = cart;
  variant = variant;
  quantity = quantity;
  is_personalized = false;
  custom_design = none;
  note = none;
}

abbrev desk_with : List Item → Desk
desk_with items = record {
  carts = λ k.
      if k == 71
      then some (record { is_active = true; coupon = none })
      else if k == 72
      then some (record { is_active = false; coupon = none })
      else none;
  items = items;
  variants = λ k. some (plain k);
  stock = λ k. some (record { on_hand = 100; reserved = 0 });
  designs = λ k. none;
  coupons = λ k. none;
  next_id = 9;
}

abbrev alone : Desk → Desk
alone s = s

-- An addition goes to the line of its variant.
adds_up :
    serve alone 71 (add 11 4 none omitted) (desk_with (line 1 71 11 15 ∷ []))
    ≡ ok (tt, desk_with (line 1 71 11 19 ∷ []))
unfolding serve sanitize_note
adds_up = refl

too_many :
    serve alone 71 (add 11 6 none omitted) (desk_with (line 1 71 11 15 ∷ [])) ≡ err bad_request
unfolding serve sanitize_note
too_many = refl

-- Two lines of one variant become one, with what fits.
merges :
    serve alone 71 (replace 1 12) (desk_with (line 1 71 11 15 ∷ line 2 71 12 8 ∷ []))
    ≡ ok (tt, desk_with (line 2 71 12 20 ∷ []))
unfolding serve
merges = refl

abbrev engraved : Item
engraved = record (line 1 71 11 1) { is_personalized = true; custom_design = some 61 }

-- A personalized line does not merge into the plain line of its new variant; the unique index then
-- refuses the write.
hits_index :
    serve alone 71 (replace 1 12) (desk_with (engraved ∷ line 2 71 12 8 ∷ [])) ≡ err not_unique
unfolding serve
hits_index = refl

-- An update of nothing is refused first; a note that is too long after the quantity is checked.
updates_nothing :
    serve alone 72 (update 3 none omitted) (desk_with (line 3 72 11 1 ∷ [])) ≡ err bad_request
unfolding serve
updates_nothing = refl

updates_closed :
    serve alone 72 (update 3 (some 2) omitted) (desk_with (line 3 72 11 1 ∷ []))
    ≡ err cart_not_active
unfolding serve
updates_closed = refl

-- A note alone is stored trimmed.
notes :
    serve alone 71 (update 1 none (text (32 ∷ 97 ∷ []))) (desk_with (line 1 71 11 1 ∷ []))
    ≡ ok (tt, desk_with (record (line 1 71 11 1) { note = some (97 ∷ []) } ∷ []))
unfolding serve sanitize_note trim_start trim_end
notes = refl

updates :
    serve alone 71 (update 1 (some 2) omitted) (desk_with (line 1 71 11 1 ∷ []))
    ≡ ok (tt, desk_with (line 1 71 11 2 ∷ []))
unfolding serve sanitize_note
updates = refl

serve-AreSmall_example : AreSmall (desk_with (line 2 71 12 20 ∷ []))
unfolding serve
serve-AreSmall_example =
    serve-AreSmall alone 71 (replace 1 12) (desk_with (line 1 71 11 15 ∷ line 2 71 12 8 ∷ []))
      (desk_with (line 2 71 12 20 ∷ [])) (λ t v. v) tt (omega arith, (omega arith, tt)) refl

set_quantity_fits_example :
    0
      + sum_by
          (demand (desk_with (line 1 71 11 18 ∷ line 2 71 12 8 ∷ [])) 71 51)
          (line 1 71 11 18 ∷ line 2 71 12 8 ∷ [])
    ≤ 100
unfolding assert_soft_availability accept_note sanitize_note
set_quantity_fits_example =
    set_quantity_fits 71 18 omitted (line 1 71 11 15) (plain 11)
      (desk_with (line 1 71 11 15 ∷ line 2 71 12 8 ∷ []))
      (desk_with (line 1 71 11 18 ∷ line 2 71 12 8 ∷ [])) 51
      (record { on_hand = 100; reserved = 0 }) (λ id. ground arith) refl refl refl refl
