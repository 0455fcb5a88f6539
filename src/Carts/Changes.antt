-- ===== src/Carts/Changes.antt =====
-- The requests that change a cart: the operations of `CartService` of
-- src/modules/cart/cart.service.ts.
use phone_cases_backend.Prelude.{
  ℕ, ◌+◌, Bool, true, false, not, ◌||◌, Option, none, some, List, [], ◌∷◌, ltb, ◌==◌, min, is_some,
  is_some_and, select, if◌then◌else◌,
}
use phone_cases_backend.Prelude.Results.{ok, err, Tx, pure, guard, gets, modify, ◌>>=◌, ◌>>◌}
use phone_cases_backend.Prelude.Tables.{Table}
use phone_cases_backend.Errors.{
  Error, bad_request, not_unique, resource_not_found, coupon_not_applicable,
  variant_not_purchasable, variant_not_personalizable,
}
use phone_cases_backend.Inventory.{StockItem}
use phone_cases_backend.Pricing.View.{Variant, CartItem, subtotal_of}
use phone_cases_backend.Pricing.Coupons.{find_coupon_validity_error}
use phone_cases_backend.Prelude.Int.{ℤ, sub_ℕ}
use phone_cases_backend.Carts.{
  max_cart_item_quantity, Item, Desk, is_item, find_plain, reading, assert_cart_is_active,
  assert_soft_availability, assert_design_attachable, clashes, insert_item, write_item,
  with_quantity, with_note, with_update, with_design, with_variant, remove_row, is_purchasable,
  attach_if_given, found_or, find_item, find_variant, accept_note, is_omitted,
}
use phone_cases_backend.Texts.{Note}

-- `addPersonalizedItem`
unfoldable pub add_personalized_item :
    (cart : ℕ) → Variant → (quantity : ℕ) → Note → Option ℕ → Tx Desk Error (Unit {0})
unfolding assert_soft_availability assert_design_attachable insert_item
add_personalized_item cart v quantity note design = do
  guard (not (ltb max_cart_item_quantity quantity)) bad_request
  assert_soft_availability cart v quantity []
  attach_if_given cart v.id design
  insert_item cart v.id quantity note true design

-- Where another request has added the line first, the units go to its line, as far as they fit.
unfoldable pub fold_into_winner : (cart variant quantity : ℕ) → Note → Tx Desk Error (Unit {0})
fold_into_winner cart variant quantity note s = elim (find_plain cart variant s) [
  | none ↦ err (resource_not_found variant)
  | some w ↦ ok (
    tt,
    write_item w.id (with_update (min (w.quantity + quantity) max_cart_item_quantity) note) s,
  )
]

abbrev pub create_or_fold : (cart variant quantity : ℕ) → Note → Tx Desk Error (Unit {0})
create_or_fold cart variant quantity note s =
    if is_some (find_plain cart variant s)
    then fold_into_winner cart variant quantity note s
    else insert_item cart variant quantity note false none s

abbrev pub add_units :
    (meanwhile : Desk → Desk)
    → (cart : ℕ) → Variant
    → (quantity : ℕ) → Note
    → Option Item
    → Tx Desk Error (Unit {0})
add_units meanwhile cart v quantity note none = do
  guard (not (ltb max_cart_item_quantity quantity)) bad_request
  assert_soft_availability cart v quantity []
  modify meanwhile
  create_or_fold cart v.id quantity note
add_units meanwhile cart v quantity note (some e) = do
  guard (not (ltb max_cart_item_quantity (e.quantity + quantity))) bad_request
  assert_soft_availability cart v (e.quantity + quantity) (e.id ∷ [])
  modify (write_item e.id (with_update (e.quantity + quantity) note))

-- `addNonPersonalizedItem`; `meanwhile` is what others write before the new row.
unfoldable pub add_non_personalized_item :
    (meanwhile : Desk → Desk)
    → (cart : ℕ) → Variant
    → (quantity : ℕ) → Note
    → Tx Desk Error (Unit {0})
unfolding assert_soft_availability insert_item fold_into_winner
add_non_personalized_item meanwhile cart v quantity note = do
  existing ← gets (find_plain cart v.id)
  add_units meanwhile cart v quantity note existing

-- `addItem`
unfoldable pub add_item :
    (meanwhile : Desk → Desk)
    → (cart variant quantity : ℕ) → Option ℕ
    → Note
    → Tx Desk Error (Unit {0})
unfolding assert_cart_is_active add_personalized_item add_non_personalized_item accept_note
add_item meanwhile cart variant quantity design note = do
  assert_cart_is_active cart
  v ← find_variant variant
  guard (is_purchasable v) variant_not_purchasable
  guard (v.is_personalizable || not (is_some design)) bad_request
  n ← accept_note note
  if v.is_personalizable
      then add_personalized_item cart v quantity n design
      else add_non_personalized_item meanwhile cart v quantity n

-- The new quantity is checked, then the note, then both are written.
abbrev pub set_quantity : (cart : ℕ) → Item → (quantity : ℕ) → Note → Tx Desk Error (Unit {0})
set_quantity cart i quantity note = do
  v ← find_variant i.variant
  assert_soft_availability cart v quantity (i.id ∷ [])
  n ← accept_note note
  modify (write_item i.id (with_update quantity n))

abbrev pub write_update : (cart : ℕ) → Item → Option ℕ → Note → Tx Desk Error (Unit {0})
write_update cart i none note = do n ← accept_note note; modify (write_item i.id (with_note n))
write_update cart i (some quantity) note = set_quantity cart i quantity note

abbrev pub removes : Option ℕ → Bool
removes quantity = is_some_and (λ n. n == 0) quantity

-- `updateItem`; the request keeps a new quantity up to the maximum, and 0 removes the line. A request
-- with neither a quantity nor a note is refused before the cart is looked at.
unfoldable pub update_item : (cart id : ℕ) → Option ℕ → Note → Tx Desk Error (Unit {0})
unfolding assert_cart_is_active assert_soft_availability accept_note
update_item cart id quantity note = do
  guard (is_some quantity || not (is_omitted note)) bad_request
  assert_cart_is_active cart
  i ← find_item cart id
  if removes quantity then modify (remove_row id) else write_update cart i quantity note

-- An update of a line to another variant, under the unique index.
unfoldable pub move_item : (id variant : ℕ) → (Item → Item) → Item → Tx Desk Error (Unit {0})
move_item id variant f i s =
    let others = select (λ x. not (is_item id x)) s.items in
    if clashes (f i) others then err not_unique else ok (tt, write_item id f s)

-- `$transaction` of a merge: the target line takes the units, the other goes.
abbrev pub merge_items : (target id quantity : ℕ) → Desk → Desk
merge_items target id quantity s = remove_row id (write_item target (with_quantity quantity) s)

abbrev pub move_plain : ℕ → ℕ → Item → Item
move_plain variant quantity i = record i { variant = variant; quantity = quantity }

abbrev pub merge_into : (cart : ℕ) → Item → Variant → Option Item → Tx Desk Error (Unit {0})
merge_into cart i v none = do
  assert_soft_availability cart v (min i.quantity max_cart_item_quantity) (i.id ∷ [])
  move_item i.id v.id (move_plain v.id (min i.quantity max_cart_item_quantity)) i
merge_into cart i v (some e) = do
  assert_soft_availability cart v (min (e.quantity + i.quantity) max_cart_item_quantity)
      (i.id ∷ e.id ∷ [])
  modify (merge_items e.id i.id (min (e.quantity + i.quantity) max_cart_item_quantity))

unfoldable pub replace_plain : (cart : ℕ) → Item → Variant → Tx Desk Error (Unit {0})
unfolding assert_soft_availability move_item
replace_plain cart i v = do target ← gets (find_plain cart v.id); merge_into cart i v target

-- A line that is personalized, or becomes so, keeps its units, loses its design and never merges.
unfoldable pub replace_personalized : (cart : ℕ) → Item → Variant → Tx Desk Error (Unit {0})
unfolding assert_soft_availability move_item
replace_personalized cart i v = do
  assert_soft_availability cart v i.quantity (i.id ∷ [])
  move_item i.id v.id (with_variant v.id v.is_personalizable) i

abbrev pub replace_by : (cart : ℕ) → Item → (variant : ℕ) → Tx Desk Error (Unit {0})
replace_by cart i variant = do
  v ← find_variant variant
  guard (is_purchasable v) variant_not_purchasable
  if i.is_personalized || v.is_personalizable
      then replace_personalized cart i v
      else replace_plain cart i v

-- `replaceItemVariant`
unfoldable pub replace_item_variant : (cart id variant : ℕ) → Tx Desk Error (Unit {0})
unfolding assert_cart_is_active replace_plain replace_personalized
replace_item_variant cart id variant = do
  assert_cart_is_active cart
  i ← find_item cart id
  if i.variant == variant then pure tt else replace_by cart i variant

-- `attachCustomDesign`
unfoldable pub attach_custom_design : (cart id design : ℕ) → Tx Desk Error (Unit {0})
unfolding assert_cart_is_active assert_design_attachable
attach_custom_design cart id design = do
  assert_cart_is_active cart
  i ← find_item cart id
  v ← find_variant i.variant
  guard v.is_personalizable variant_not_personalizable
  assert_design_attachable cart design i.variant (some id)
  modify (write_item id (with_design (some design)))

-- `removeCustomDesign`
unfoldable pub remove_custom_design : (cart id : ℕ) → Tx Desk Error (Unit {0})
unfolding assert_cart_is_active
remove_custom_design cart id = do
  assert_cart_is_active cart
  i ← find_item cart id
  modify (write_item id (with_design none))

-- `removeItem`
unfoldable pub remove_item : (cart id : ℕ) → Tx Desk Error (Unit {0})
unfolding assert_cart_is_active
remove_item cart id = do assert_cart_is_active cart; i ← find_item cart id; modify (remove_row id)

abbrev units_free : Table StockItem → Option ℕ → Option ℤ
units_free stock none = none
units_free stock (some k) = elim (stock k) [
  | none ↦ none
  | some it ↦ some (sub_ℕ it.on_hand it.reserved)
]

-- The lines of a cart as its view reads them.
abbrev view_items : Desk → List Item → List CartItem
view_items s [] = []
view_items s (i ∷ is) = elim (s.variants i.variant) [
  | none ↦ view_items s is
  | some v ↦
      record {
        variant = record v { available = units_free s.stock v.stock_item };
        quantity = i.quantity;
        custom_design = i.custom_design;
      }
      ∷ view_items s is
]

abbrev pub cart_subtotal : ℕ → Desk → ℕ
cart_subtotal cart s = subtotal_of (view_items s (select (λ i. i.cart == cart) s.items))

abbrev pub set_coupon : ℕ → Option ℕ → Desk → Desk
set_coupon cart coupon s = record s {
  carts = λ j. elim (s.carts j) [
    | none ↦ none
    | some c ↦ if j == cart then some (record c { coupon = coupon }) else some c
  ];
}

-- `applyCoupon`, for a code in upper case, which stands for its coupon.
unfoldable pub apply_coupon : (cart code now : ℕ) → Tx Desk Error (Unit {0})
unfolding assert_cart_is_active
apply_coupon cart code now = do
  assert_cart_is_active cart
  c ← reading (λ s. found_or (s.coupons code) (resource_not_found code))
  subtotal ← gets (cart_subtotal cart)
  guard (not (is_some (find_coupon_validity_error c subtotal now))) coupon_not_applicable
  modify (set_coupon cart (some code))

-- `removeCoupon`
unfoldable pub remove_coupon : (cart : ℕ) → Tx Desk Error (Unit {0})
unfolding assert_cart_is_active
remove_coupon cart = do assert_cart_is_active cart; modify (set_coupon cart none)

-- The requests that change a cart.
pub data Change : Type 0 where
  add : (variant quantity : ℕ) → Option ℕ → Note → Change
  update : (id : ℕ) → Option ℕ → Note → Change
  replace attach : (id value : ℕ) → Change
  detach remove : ℕ → Change
  apply : (code now : ℕ) → Change
  withdraw : Change

unfoldable pub serve : (meanwhile : Desk → Desk) → (cart : ℕ) → Change → Tx Desk Error (Unit {0})
unfolding add_item update_item replace_item_variant attach_custom_design remove_custom_design
    remove_item apply_coupon remove_coupon
serve meanwhile cart (add variant quantity design note) =
    add_item meanwhile cart variant quantity design note
serve meanwhile cart (update id quantity note) = update_item cart id quantity note
serve meanwhile cart (replace id variant) = replace_item_variant cart id variant
serve meanwhile cart (attach id design) = attach_custom_design cart id design
serve meanwhile cart (detach id) = remove_custom_design cart id
serve meanwhile cart (remove id) = remove_item cart id
serve meanwhile cart (apply code now) = apply_coupon cart code now
serve meanwhile cart withdraw = remove_coupon cart
