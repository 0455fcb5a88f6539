-- ===== src/Carts/Tidy.antt =====
-- What every change of a cart keeps: the quantities of its lines.
use phone_cases_backend.Prelude.{
  ℕ, ◌+◌, ◌≤◌, ◌≡◌, refl, sym, ◌∙◌, Bool, true, false, not, ◌||◌, Option, none, some, [], ◌∷◌, ltb,
  ◌==◌, min, is_some, select, All-append, Bool-cases, inl, inr, if◌then◌else◌, arith,
}
use phone_cases_backend.Prelude.Results.{Result, ok, err, Tx, pure, gets, modify, ◌>>=◌, ◌>>◌}
use phone_cases_backend.Prelude.Tables.{find_first}
use phone_cases_backend.Errors.{
  Error, not_unique, variant_not_purchasable, variant_not_personalizable, coupon_not_applicable,
  bad_request, resource_not_found,
}
use phone_cases_backend.Pricing.View.{Variant}
use phone_cases_backend.Pricing.Coupons.{find_coupon_validity_error}
use phone_cases_backend.Carts.{
  Desk, Item, Changes.Change, Changes.add, Changes.update, Changes.replace, Changes.attach,
  Changes.detach, Changes.remove, Changes.apply, Changes.withdraw, max_cart_item_quantity,
  assert_cart_is_active, assert_soft_availability, assert_design_attachable, insert_item,
  write_item, remove_row, with_quantity, with_note, with_update, with_design, is_item, clashes,
  Changes.move_item, Changes.merge_items, attach_if_given, Changes.add_personalized_item,
  Changes.add_units, Changes.merge_into, Changes.move_plain, with_variant, is_purchasable,
  Changes.create_or_fold, Changes.fold_into_winner, find_plain, find_item, found_or, is_item_of,
  Changes.cart_subtotal, Changes.set_coupon, reading, check_active, find_variant, check_stock,
  check_design, accept_note, is_omitted, Changes.removes, Changes.write_update,
  Changes.set_quantity, Changes.replace_plain, Changes.replace_personalized, Changes.serve,
}
use phone_cases_backend.Texts.{Note, sanitize_cart_item_note}
use phone_cases_backend.Carts.Rules.{
  IsSmall, AreSmall, Keeps, Reads, Reads-Keeps, bind-Keeps, guarded-Keeps, reading-Reads,
  after-Keeps, modify-Keeps, write-AreSmall, remove-AreSmall, unless-Keeps,
}

insert_item-Keeps :
    (cart variant quantity : ℕ) (note : Note) (p : Bool) (d : Option ℕ)
    → quantity ≤ max_cart_item_quantity
    → Keeps (insert_item cart variant quantity note p d)
unfolding insert_item
insert_item-Keeps cart variant quantity note p d small =
    unless-Keeps _ not_unique _ (λ s v. All-append IsSmall s.items _ v (small, tt))

move_item-Keeps :
    (id variant : ℕ) (f : Item → Item) (i : Item)
    → ((x : Item) → IsSmall x → IsSmall (f x))
    → Keeps (move_item id variant f i)
unfolding move_item
move_item-Keeps id variant f i keeps =
    unless-Keeps (λ s. clashes (f i) (select (λ x. not (is_item id x)) s.items)) not_unique
      (write_item id f) (write-AreSmall id f keeps)

set-IsSmall :
    (n : ℕ) → n ≤ max_cart_item_quantity → (i : Item) → IsSmall i → IsSmall (with_quantity n i)
set-IsSmall n small i v = small

update-IsSmall :
    (n : ℕ) (note : Note)
    → n ≤ max_cart_item_quantity
    → (i : Item) → IsSmall i
    → IsSmall (with_update n note i)
update-IsSmall n note small i v = small

attach_if_given-Keeps : (cart variant : ℕ) (d : Option ℕ) → Keeps (attach_if_given cart variant d)
unfolding assert_design_attachable
attach_if_given-Keeps cart variant none = Reads-Keeps (pure tt) (λ s s' a e. pure_reads s s' a e)
  where
    pure_reads :
        (s s' : Desk) (a : Unit {0})
        → ◌≡◌ {A = Result Error (Unit {0} × Desk)} (ok (tt, s)) (ok (a, s'))
        → s' ≡ s
    pure_reads s s' a e = cc
attach_if_given-Keeps cart variant (some d) =
    Reads-Keeps (reading (check_design cart d variant none))
      (reading-Reads (check_design cart d variant none))

add_personalized_item-Keeps :
    (cart : ℕ) (w : Variant) (quantity : ℕ) (note : Note) (d : Option ℕ)
    → Keeps (add_personalized_item cart w quantity note d)
unfolding add_personalized_item assert_soft_availability
add_personalized_item-Keeps cart w quantity note d =
    guarded-Keeps (not (ltb max_cart_item_quantity quantity)) bad_request _ (λ small.
      after-Keeps (check_stock cart w quantity []) _ (λ _.
        bind-Keeps (attach_if_given cart w.id d) _ (attach_if_given-Keeps cart w.id d)
          (λ _. insert_item-Keeps cart w.id quantity note true d (ground (arith, small)))))

fold_into_winner-Keeps :
    (cart variant quantity : ℕ) (note : Note) → Keeps (fold_into_winner cart variant quantity note)
unfolding fold_into_winner
fold_into_winner-Keeps cart variant quantity note s s' a v e = go (find_plain cart variant s) e
  where
    go :
        (o : Option Item)
        → (elim o as (λ _. Result Error (Unit {0} × Desk)) [
          | none ↦ err (resource_not_found variant)
          | some w ↦ ok (
            tt,
            write_item w.id
                (with_update (min (w.quantity + quantity) max_cart_item_quantity) note)
                s,
          )
        ])
          ≡ ok (a, s')
        → AreSmall s'
    go none p = cc
    go (some w) p =
        let n = min (w.quantity + quantity) max_cart_item_quantity in
        let after : s' ≡ write_item w.id (with_update n note) s = cc in
        rw after
          (write-AreSmall w.id (with_update n note) (update-IsSmall n note (omega arith)) s v)

create_or_fold-Keeps :
    (cart variant quantity : ℕ) (note : Note)
    → quantity ≤ max_cart_item_quantity
    → Keeps (create_or_fold cart variant quantity note)
create_or_fold-Keeps cart variant quantity note small s s' a v e =
    elim (Bool-cases (is_some (find_plain cart variant s))) [
      | inl there ↦
          fold_into_winner-Keeps cart variant quantity note s s' a v (sym (taken there) ∙ e)
      | inr none_ ↦
          insert_item-Keeps cart variant quantity note false none small s s' a v
            (sym (free none_) ∙ e)
    ]
  where
    taken :
        is_some (find_plain cart variant s) ≡ true
        → create_or_fold cart variant quantity note s
          ≡ fold_into_winner cart variant quantity note s
    taken there = rw (there, create_or_fold) refl

    free :
        is_some (find_plain cart variant s) ≡ false
        → create_or_fold cart variant quantity note s
          ≡ insert_item cart variant quantity note false none s
    free none_ = rw (none_, create_or_fold) refl

gets-Reads : {A : Type 0} (f : Desk → A) → Reads (gets f)
gets-Reads f s s' a e = cc

move_plain-IsSmall :
    (variant n : ℕ)
    → n ≤ max_cart_item_quantity
    → (i : Item) → IsSmall i
    → IsSmall (move_plain variant n i)
move_plain-IsSmall variant n small i v = small

merge_into-Keeps :
    (cart : ℕ) (i : Item) (w : Variant) (o : Option Item) → Keeps (merge_into cart i w o)
unfolding assert_soft_availability
merge_into-Keeps cart i w none =
    let n = min i.quantity max_cart_item_quantity in
    after-Keeps (check_stock cart w n (i.id ∷ [])) _ (λ _.
      move_item-Keeps i.id w.id (move_plain w.id n) i (move_plain-IsSmall w.id n (omega arith)))
merge_into-Keeps cart i w (some e) =
    let n = min (e.quantity + i.quantity) max_cart_item_quantity in
    after-Keeps (check_stock cart w n (i.id ∷ e.id ∷ [])) _ (λ _.
      modify-Keeps (merge_items e.id i.id n) (λ s v.
        remove-AreSmall i.id (write_item e.id (with_quantity n) s)
          (write-AreSmall e.id (with_quantity n) (set-IsSmall n (omega arith)) s v)))

replace_plain-Keeps : (cart : ℕ) (i : Item) (w : Variant) → Keeps (replace_plain cart i w)
unfolding replace_plain
replace_plain-Keeps cart i w =
    bind-Keeps (gets (find_plain cart w.id)) _
      (Reads-Keeps (gets (find_plain cart w.id)) (gets-Reads (find_plain cart w.id)))
      (λ o. merge_into-Keeps cart i w o)

replace_personalized-Keeps :
    (cart : ℕ) (i : Item) (w : Variant) → Keeps (replace_personalized cart i w)
unfolding replace_personalized assert_soft_availability
replace_personalized-Keeps cart i w =
    after-Keeps (check_stock cart w i.quantity (i.id ∷ [])) _
      (λ _. move_item-Keeps i.id w.id (with_variant w.id w.is_personalizable) i (λ x v. v))

module _ (meanwhile : Desk → Desk) (others : (s : Desk) → AreSmall s → AreSmall (meanwhile s)) where
  add_units-Keeps :
      (cart : ℕ) (w : Variant) (quantity : ℕ) (note : Note) (o : Option Item)
      → Keeps (add_units meanwhile cart w quantity note o)
  unfolding assert_soft_availability
  add_units-Keeps cart w quantity note none =
      guarded-Keeps (not (ltb max_cart_item_quantity quantity)) bad_request _ (λ small.
        after-Keeps (check_stock cart w quantity []) _ (λ _.
          bind-Keeps (modify meanwhile) _ (modify-Keeps meanwhile others)
            (λ _. create_or_fold-Keeps cart w.id quantity note (ground (arith, small)))))
  add_units-Keeps cart w quantity note (some e) =
      guarded-Keeps (not (ltb max_cart_item_quantity (e.quantity + quantity))) bad_request _
        (λ small. after-Keeps (check_stock cart w (e.quantity + quantity) (e.id ∷ [])) _ (λ _.
          modify-Keeps (write_item e.id (with_update (e.quantity + quantity) note)) (
            write-AreSmall e.id (with_update (e.quantity + quantity) note)
              (update-IsSmall (e.quantity + quantity) note (ground (arith, small))))))

if-Keeps :
    (b : Bool) (m k : Tx Desk Error (Unit {0})) → Keeps m → Keeps k → Keeps (if b then m else k)
if-Keeps true m k first second = first
if-Keeps false m k first second = second

active-Keeps :
    (cart : ℕ) (m : Tx Desk Error (Unit {0})) → Keeps m → Keeps (assert_cart_is_active cart >> m)
unfolding assert_cart_is_active
active-Keeps cart m keeps = after-Keeps (check_active cart) (λ _. m) (λ _. keeps)

pure-Keeps : Keeps (pure {S = Desk} {E = Error} (tt {0}))
pure-Keeps s s' a v e = let after : s' ≡ s = cc in rw after v

-- The request keeps a new quantity of a line up to the maximum.
abbrev pub IsValid : Change → Type 0
IsValid (update id (some quantity) note) = quantity ≤ max_cart_item_quantity
IsValid _ = Unit

noted-Keeps :
    (note : Note) (f : Note → Tx Desk Error (Unit {0}))
    → ((n : Note) → Keeps (f n))
    → Keeps (accept_note note >>= f)
unfolding accept_note
noted-Keeps note f keeps = after-Keeps (λ s. sanitize_cart_item_note note) f keeps

found_variant-Keeps :
    (variant : ℕ) (f : Variant → Tx Desk Error (Unit {0}))
    → ((w : Variant) → Keeps (f w))
    → Keeps (find_variant variant >>= f)
found_variant-Keeps variant f keeps =
    after-Keeps (λ s. found_or (s.variants variant) (resource_not_found variant)) f keeps

found_item-Keeps :
    (cart id : ℕ) (f : Item → Tx Desk Error (Unit {0}))
    → ((i : Item) → Keeps (f i))
    → Keeps (find_item cart id >>= f)
found_item-Keeps cart id f keeps =
    after-Keeps (λ s. found_or (find_first (is_item_of cart id) s.items) (resource_not_found id)) f
      keeps

set_quantity-Keeps :
    (cart : ℕ) (i : Item) (n : ℕ) (note : Note)
    → n ≤ max_cart_item_quantity
    → Keeps (set_quantity cart i n note)
unfolding assert_soft_availability
set_quantity-Keeps cart i n note small = found_variant-Keeps i.variant _ (λ w.
    after-Keeps (check_stock cart w n (i.id ∷ [])) _ (λ _. noted-Keeps note _ (λ m.
      modify-Keeps (write_item i.id (with_update n m))
        (write-AreSmall i.id (with_update n m) (update-IsSmall n m small)))))

write_update-Keeps :
    (cart id : ℕ) (i : Item) (quantity : Option ℕ) (note : Note)
    → IsValid (update id quantity note)
    → Keeps (write_update cart i quantity note)
write_update-Keeps cart id i none note valid = noted-Keeps note _ (λ m.
    modify-Keeps (write_item i.id (with_note m)) (write-AreSmall i.id (with_note m) (λ x v. v)))
write_update-Keeps cart id i (some n) note valid = set_quantity-Keeps cart i n note valid

serve-Keeps :
    (meanwhile : Desk → Desk) (cart : ℕ) (change : Change)
    → ((s : Desk) → AreSmall s → AreSmall (meanwhile s))
    → IsValid change
    → Keeps (serve meanwhile cart change)
unfolding serve assert_design_attachable
serve-Keeps meanwhile cart (add variant quantity design note) others valid = active-Keeps cart _ (
    found_variant-Keeps variant _ (λ w.
      guarded-Keeps (is_purchasable w) variant_not_purchasable _ (λ _.
        guarded-Keeps (w.is_personalizable || not (is_some design)) bad_request _ (λ _.
          noted-Keeps note _ (λ m.
            if-Keeps w.is_personalizable _ _ (add_personalized_item-Keeps cart w quantity m design)
              (bind-Keeps (gets (find_plain cart w.id)) _
                (Reads-Keeps (gets (find_plain cart w.id)) (gets-Reads (find_plain cart w.id)))
                (λ o. add_units-Keeps meanwhile others cart w quantity m o)))))))
serve-Keeps meanwhile cart (update id quantity note) others valid =
    guarded-Keeps (is_some quantity || not (is_omitted note)) bad_request _ (λ _.
      active-Keeps cart _ (
        found_item-Keeps cart id _ (λ i.
          if-Keeps (removes quantity) _ _ (modify-Keeps (remove_row id) (remove-AreSmall id))
            (write_update-Keeps cart id i quantity note valid))))
serve-Keeps meanwhile cart (replace id variant) others valid = active-Keeps cart _ (
    found_item-Keeps cart id _ (λ i. if-Keeps (i.variant == variant) _ _ pure-Keeps (
      found_variant-Keeps variant _ (λ w.
        guarded-Keeps (is_purchasable w) variant_not_purchasable _ (λ _.
          if-Keeps (i.is_personalized || w.is_personalizable) _ _
            (replace_personalized-Keeps cart i w) (replace_plain-Keeps cart i w))))))
serve-Keeps meanwhile cart (attach id design) others valid = active-Keeps cart _ (
    found_item-Keeps cart id _ (λ i. found_variant-Keeps i.variant _ (λ w.
      guarded-Keeps w.is_personalizable variant_not_personalizable _ (λ _.
        after-Keeps (check_design cart design i.variant (some id)) _ (λ _.
          modify-Keeps (write_item id (with_design (some design)))
            (write-AreSmall id (with_design (some design)) (λ x v. v)))))))
serve-Keeps meanwhile cart (detach id) others valid = active-Keeps cart _ (
    found_item-Keeps cart id _ (λ i.
      modify-Keeps (write_item id (with_design none))
        (write-AreSmall id (with_design none) (λ x v. v))))
serve-Keeps meanwhile cart (remove id) others valid =
    active-Keeps cart _
      (found_item-Keeps cart id _ (λ i. modify-Keeps (remove_row id) (remove-AreSmall id)))
serve-Keeps meanwhile cart (apply code now) others valid = active-Keeps cart _ (
    after-Keeps (λ s. found_or (s.coupons code) (resource_not_found code)) _
      (λ c.
        bind-Keeps (gets (cart_subtotal cart)) _
          (Reads-Keeps (gets (cart_subtotal cart)) (gets-Reads (cart_subtotal cart)))
          (λ n.
            guarded-Keeps (not (is_some (find_coupon_validity_error c n now))) coupon_not_applicable
              _ (λ _. modify-Keeps (set_coupon cart (some code)) (λ s v. v)))))
serve-Keeps meanwhile cart withdraw others valid =
    active-Keeps cart _ (modify-Keeps (set_coupon cart none) (λ s v. v))

-- No line ever has more units than a line may have: not by an addition, also where another request
-- added the line first and the two are merged, not by a change of its quantity, which the request
-- itself keeps up to the maximum, and not by the merge of two lines under a change of variant.
pub serve-AreSmall :
    (meanwhile : Desk → Desk) (cart : ℕ) (change : Change) (s s' : Desk)
    → ((t : Desk) → AreSmall t → AreSmall (meanwhile t))
    → IsValid change
    → AreSmall s
    → serve meanwhile cart change s ≡ ok (tt, s')
    → AreSmall s'
serve-AreSmall meanwhile cart change s s' others valid v e =
    serve-Keeps meanwhile cart change others valid s s' tt v e
