-- ===== src/Carts.antt =====
-- The lines of carts: `CartService` of src/modules/cart/cart.service.ts, and
-- `assertOwnedReadyForVariant` of src/modules/custom-designs/custom-designs.service.ts. The view of
-- the cart that every operation returns is left out.
pub mod Changes
pub mod Rules
pub mod Tidy
pub mod Shared
mod Tests
use phone_cases_backend.Prelude.{
  ℕ, ◌+◌, ◌-◌, Bool, true, false, not, ◌&&◌, ◌||◌, Option, none, some, List, [], ◌∷◌, ◌++◌, ltb,
  ◌==◌, min, is_some, is_some_and, select, sum_by, if◌then◌else◌,
}
use phone_cases_backend.Prelude.Results.{
  Result, ok, err, Tx, pure, throw, guard, gets, modify, or_throw, ◌>>=◌, ◌>>◌,
}
use phone_cases_backend.Prelude.Tables.{Table, find_first, update_all, put}
use phone_cases_backend.Errors.{
  Error, bad_request, not_unique, resource_not_found, insufficient_stock, cart_not_active,
  coupon_not_applicable, variant_not_purchasable, variant_not_personalizable,
  custom_design_variant_mismatch, custom_design_already_attached,
}
use phone_cases_backend.Inventory.{StockItem}
use phone_cases_backend.Store.{Coupon}
use phone_cases_backend.Pricing.View.{Variant, CartItem, subtotal_of}
use phone_cases_backend.Pricing.Coupons.{find_coupon_validity_error}
use phone_cases_backend.Prelude.Int.{ℤ, sub_ℕ}
use phone_cases_backend.Texts.{Text, Note, omitted, cleared, text, sanitize_cart_item_note}

abbrev pub max_cart_item_quantity : ℕ
max_cart_item_quantity = 20

-- A line of a cart.
pub record Item : Type 0 where
  pub id : ℕ
  pub cart : ℕ
  pub variant : ℕ
  pub quantity : ℕ
  pub is_personalized : Bool
  pub custom_design : Option ℕ
  pub note : Option Text

pub record Design : Type 0 where
  pub cart : ℕ
  pub variant : ℕ

-- A cart as far as its own columns go; `is_active` says whether its status is ACTIVE.
pub record CartHead : Type 0 where
  pub is_active : Bool
  pub coupon : Option ℕ

-- The rows that carts are made of.
pub record Desk : Type 0 where
  pub carts : Table CartHead
  pub items : List Item
  pub variants : Table Variant
  pub stock : Table StockItem
  pub designs : Table Design
  pub coupons : Table Coupon
  pub next_id : ℕ

abbrev pub is_item : ℕ → Item → Bool
is_item id i = i.id == id

abbrev pub is_item_of : (cart id : ℕ) → Item → Bool
is_item_of cart id i = i.id == id && i.cart == cart

-- The rows of the partial unique index on cart and variant.
abbrev pub is_plain : (cart variant : ℕ) → Item → Bool
is_plain cart variant i = i.cart == cart && i.variant == variant && not i.is_personalized

abbrev pub find_plain : (cart variant : ℕ) → Desk → Option Item
find_plain cart variant s = find_first (is_plain cart variant) s.items

-- A check that reads the rows and writes none.
abbrev pub reading : {A : Type 0} → (Desk → Result Error A) → Tx Desk Error A
reading check s = elim (check s) [ ok a ↦ ok (a, s) | err e ↦ err e ]

abbrev pub require : Bool → Error → Result Error (Unit {0})
require b e = if b then ok tt else err e

abbrev pub check_active : ℕ → Desk → Result Error (Unit {0})
check_active cart s = elim (s.carts cart) [
  | none ↦ err (resource_not_found cart)
  | some c ↦ require c.is_active cart_not_active
]

-- `assertCartIsActive`
unfoldable pub assert_cart_is_active : ℕ → Tx Desk Error (Unit {0})
assert_cart_is_active cart = reading (check_active cart)

abbrev pub excludes : List ℕ → ℕ → Bool
excludes [] id = true
excludes (x ∷ xs) id = not (x == id) && excludes xs id

abbrev pub stock_item_of : Desk → Item → Option ℕ
stock_item_of s i = elim (s.variants i.variant) [ none ↦ none | some v ↦ v.stock_item ]

-- The units of a stock item that lines of a cart ask for.
abbrev pub demand : Desk → (cart stock_item : ℕ) → Item → ℕ
demand s cart k i =
    if i.cart == cart && is_some_and (λ j. j == k) (stock_item_of s i) then i.quantity else 0

abbrev pub other_demand : Desk → (cart stock_item : ℕ) → List ℕ → ℕ
other_demand s cart k excluded =
    sum_by (demand s cart k) (select (λ i. excludes excluded i.id) s.items)

abbrev pub is_enough : Desk → (cart stock_item quantity : ℕ) → List ℕ → StockItem → Bool
is_enough s cart k quantity excluded it =
    not (ltb it.on_hand (it.reserved + (quantity + other_demand s cart k excluded)))

abbrev pub check_stock :
    (cart : ℕ) → Variant → (quantity : ℕ) → List ℕ → Desk → Result Error (Unit {0})
check_stock cart v quantity excluded s = elim v.stock_item [
  | none ↦ require v.is_unlimited_stock (insufficient_stock 0 quantity)
  | some k ↦ elim (s.stock k) [
    | none ↦ err (resource_not_found k)
    | some it ↦ require (is_enough s cart k quantity excluded it) (insufficient_stock k quantity)
  ]
]

-- `assertSoftAvailability`: the demand of all lines that share the stock item counts.
unfoldable pub assert_soft_availability :
    (cart : ℕ) → Variant → (quantity : ℕ) → List ℕ → Tx Desk Error (Unit {0})
assert_soft_availability cart v quantity excluded = reading (check_stock cart v quantity excluded)

abbrev pub has_design : ℕ → Item → Bool
has_design design i = is_some_and (λ d. d == design) i.custom_design

abbrev pub check_free : (current_item : Option ℕ) → Option Item → Result Error (Unit {0})
check_free current none = ok tt
check_free current (some i) =
    require (is_some_and (λ id. i.id == id) current) custom_design_already_attached

abbrev pub check_design : (cart design variant : ℕ) → Option ℕ → Desk → Result Error (Unit {0})
check_design cart design variant current s = elim (s.designs design) [
  | none ↦ err (resource_not_found design)
  | some d ↦
      if not (d.cart == cart)
      then err (resource_not_found design)
      else if not (d.variant == variant)
      then err custom_design_variant_mismatch
      else check_free current (find_first (has_design design) s.items)
]

-- `assertDesignAttachable`
unfoldable pub assert_design_attachable :
    (cart design variant : ℕ) → (current_item : Option ℕ) → Tx Desk Error (Unit {0})
assert_design_attachable cart design variant current =
    reading (check_design cart design variant current)

abbrev pub clashes : Item → List Item → Bool
clashes row rows =
    not row.is_personalized && is_some (find_first (is_plain row.cart row.variant) rows)

-- The column after a write: a note that is left out leaves it alone.
abbrev pub noted : Note → Option Text → Option Text
noted omitted old = old
noted cleared old = none
noted (text t) old = some t

-- `prisma.cartItem.create`, under the unique index.
unfoldable pub insert_item :
    (cart variant quantity : ℕ) → Note → Bool → Option ℕ → Tx Desk Error (Unit {0})
insert_item cart variant quantity note personalized design s =
    let row : Item = record {
      id = s.next_id;
      cart = cart;
      variant = variant;
      quantity = quantity;
      is_personalized = personalized;
      custom_design = design;
      note = noted note none;
    } in
    if clashes row s.items
    then err not_unique
    else ok (tt, record s { items = s.items ++ (row ∷ []); next_id = s.next_id + 1 })

abbrev pub write_item : ℕ → (Item → Item) → Desk → Desk
write_item id f s = record s { items = update_all (is_item id) f s.items }

abbrev pub with_quantity : ℕ → Item → Item
with_quantity n i = record i { quantity = n }

abbrev pub with_note : Note → Item → Item
with_note note i = record i { note = noted note i.note }

abbrev pub with_update : ℕ → Note → Item → Item
with_update n note i = record i { quantity = n; note = noted note i.note }

abbrev pub with_design : Option ℕ → Item → Item
with_design d i = record i { custom_design = d }

-- A change of variant without a merge drops the design.
abbrev pub with_variant : ℕ → Bool → Item → Item
with_variant variant personalized i = record i {
  variant = variant;
  is_personalized = personalized;
  custom_design = none;
}

abbrev pub remove_row : ℕ → Desk → Desk
remove_row id s = record s { items = select (λ i. not (is_item id i)) s.items }

abbrev pub is_purchasable : Variant → Bool
is_purchasable v = v.is_active && v.is_published

abbrev pub attach_if_given : (cart variant : ℕ) → Option ℕ → Tx Desk Error (Unit {0})
attach_if_given cart variant none = pure tt
attach_if_given cart variant (some d) = assert_design_attachable cart d variant none

abbrev pub found_or : {A : Type 0} → Option A → Error → Result Error A
found_or none e = err e
found_or (some a) e = ok a

abbrev pub find_item : (cart id : ℕ) → Tx Desk Error Item
find_item cart id =
    reading (λ s. found_or (find_first (is_item_of cart id) s.items) (resource_not_found id))

abbrev pub find_variant : ℕ → Tx Desk Error Variant
find_variant variant = reading (λ s. found_or (s.variants variant) (resource_not_found variant))

-- `sanitizeCartItemNote(dto.note)`, which may refuse the request.
unfoldable pub accept_note : Note → Tx Desk Error Note
accept_note note = reading (λ s. sanitize_cart_item_note note)

abbrev pub is_omitted : Note → Bool
is_omitted omitted = true
is_omitted _ = false
