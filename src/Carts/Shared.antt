-- ===== src/Carts/Shared.antt =====
-- The stock that the lines of a cart share.
use phone_cases_backend.Prelude.{
  ℕ, ◌+◌, ◌≤◌, ◌≡◌, refl, sym, ap, ◌∙◌, Bool, true, false, Option, none, some, List, [], ◌∷◌,
  select, sum_by, if◌then◌else◌, arith,
}
use phone_cases_backend.Prelude.Results.{Result, ok, err, modify, bind_inv}
use phone_cases_backend.Prelude.Tables.{update_all}
use phone_cases_backend.Errors.{Error, resource_not_found, insufficient_stock}
use phone_cases_backend.Inventory.{StockItem}
use phone_cases_backend.Pricing.View.{Variant}
use phone_cases_backend.Carts.{
  Desk, Item, is_item, demand, other_demand, excludes, require, is_enough, check_stock, reading,
  found_or, assert_soft_availability, write_item, with_update, find_variant, accept_note,
}
use phone_cases_backend.Texts.{Note, sanitize_cart_item_note}
use phone_cases_backend.Carts.Changes.{set_quantity}

reading_inv :
    {A : Type 0} (check : Desk → Result Error A) (s s' : Desk) (a : A)
    → reading check s ≡ ok (a, s')
    → (check s ≡ ok a) × (s' ≡ s)
reading_inv {A} check s s' a e = go (check s) refl e
  where
    go :
        (r : Result Error A)
        → check s ≡ r
        → (elim r as (λ _. Result Error (A × Desk)) [ ok x ↦ ok (x, s) | err x ↦ err x ])
          ≡ ok (a, s')
        → (check s ≡ ok a) × (s' ≡ s)
    go (ok x) ran p = let same : x ≡ a = cc in (ran ∙ ap ok same, cc)
    go (err x) ran p = cc

found_or_inv : {A : Type 0} (o : Option A) (x : Error) (a : A) → found_or o x ≡ ok a → o ≡ some a
found_or_inv none x a e = cc
found_or_inv (some b) x a e = cc

require_inv : (b : Bool) (x : Error) → require b x ≡ ok tt → b ≡ true
require_inv true x e = refl
require_inv false x e = cc

-- Without a row of an id, a write by that id changes nothing.
untouched :
    (s : Desk) (cart k id n : ℕ) (note : Note) (is : List Item)
    → sum_by (λ i. if is_item id i then 1 else 0) is ≡ 0
    → sum_by (demand s cart k) (update_all (is_item id) (with_update n note) is)
      ≡ sum_by (demand s cart k) (select (λ i. excludes (id ∷ []) i.id) is)
untouched s cart k id n note [] none_ = refl
untouched s cart k id n note (i ∷ is) none_ = ground (arith, untouched s cart k id n note is, none_)

rewritten :
    (s : Desk) (cart k id n : ℕ) (note : Note) (is : List Item)
    → sum_by (λ i. if is_item id i then 1 else 0) is ≤ 1
    → sum_by (demand s cart k) (update_all (is_item id) (with_update n note) is)
      ≤ n + sum_by (demand s cart k) (select (λ i. excludes (id ∷ []) i.id) is)
rewritten s cart k id n note [] once = omega arith
rewritten s cart k id n note (i ∷ is) once =
    ground (arith, rewritten s cart k id n note is, untouched s cart k id n note is, once)

abbrev pub HasUniqueItems : Desk → Type 0
HasUniqueItems s = (id : ℕ) → sum_by (λ i. if is_item id i then 1 else 0) s.items ≤ 1

enough_inv :
    (cart quantity : ℕ) (w : Variant) (excluded : List ℕ) (s : Desk) (k : ℕ) (it : StockItem)
    → w.stock_item ≡ some k
    → s.stock k ≡ some it
    → check_stock cart w quantity excluded s ≡ ok tt
    → it.reserved + (quantity + other_demand s cart k excluded) ≤ it.on_hand
enough_inv cart quantity w excluded s k it linked found e =
    let enough : is_enough s cart k quantity excluded it ≡ true =
      require_inv (is_enough s cart k quantity excluded it) (insufficient_stock k quantity)
        (sym value ∙ e) in
    ground (arith, enough)
  where
    value :
        check_stock cart w quantity excluded s
        ≡ require (is_enough s cart k quantity excluded it) (insufficient_stock k quantity)
    value = rw (linked, check_stock) (rw (found, check_stock) refl)

-- A line whose quantity is changed leaves the cart with no more demand for its stock item, over all
-- lines that share it, than the item has units that are not reserved, if the ids of lines are unique.
pub set_quantity_fits :
    (cart n : ℕ) (note : Note) (i : Item) (w : Variant) (s s' : Desk) (k : ℕ) (it : StockItem)
    → HasUniqueItems s
    → s.variants i.variant ≡ some w
    → w.stock_item ≡ some k
    → s.stock k ≡ some it
    → set_quantity cart i n note s ≡ ok (tt, s')
    → it.reserved + sum_by (demand s' cart k) s'.items ≤ it.on_hand
unfolding assert_soft_availability accept_note
set_quantity_fits cart n note i w s s' k it unique known linked found e =
    let (w', s1, looked, r1) = bind_inv (find_variant i.variant) _ s tt s' e in
    let (is_w, still1) =
      reading_inv (λ t. found_or (t.variants i.variant) (resource_not_found i.variant)) s s1 w'
        looked in
    let same : w' ≡ w =
      some_inv w' w (
        sym (found_or_inv (s.variants i.variant) (resource_not_found i.variant) w' is_w) ∙ known) in
    let (u, s2, checked, r2) =
      bind_inv (reading (check_stock cart w' n (i.id ∷ []))) _ s1 tt s' r1 in
    let (enough, still2) = reading_inv (check_stock cart w' n (i.id ∷ [])) s1 s2 u checked in
    let (m, s3, accepted, r3) =
      bind_inv (accept_note note) (λ m. modify (write_item i.id (with_update n m))) s2 tt s' r2 in
    let (fine, still3) = reading_inv (λ t. sanitize_cart_item_note note) s2 s3 m accepted in
    let after = modify_inv (write_item i.id (with_update n m)) s3 s' r3 in
    let all : s' ≡ write_item i.id (with_update n m) s =
      after ∙ ap (λ t. write_item i.id (with_update n m) t) (still3 ∙ still2 ∙ still1) in
    let here : check_stock cart w n (i.id ∷ []) s ≡ ok tt =
      ap (λ t. check_stock cart w n (i.id ∷ []) t) (sym still1)
      ∙ ap (λ v. check_stock cart v n (i.id ∷ []) s1) (sym same)
      ∙ enough in
    rw all (
      omega (
        arith,
        enough_inv cart n w (i.id ∷ []) s k it linked found here,
        rewritten s cart k i.id n m s.items (unique i.id),
      ))
  where
    modify_inv :
        (f : Desk → Desk) (t t' : Desk) → modify {S = Desk} {E = Error} f t ≡ ok (tt, t') → t' ≡ f t
    modify_inv f t t' p = cc

    some_inv : (a b : Variant) → some a ≡ some b → a ≡ b
    some_inv a b p = cc
