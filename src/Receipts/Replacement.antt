-- ===== src/Receipts/Replacement.antt =====
-- A new receipt after a rejected one: `uploadReplacementForCart` of
-- src/modules/payments/receipts/receipts.service.ts.
use phone_cases_backend.Prelude.{
  ℕ, ◌+◌, ◌≡◌, Bool, true, false, not, Option, none, some, List, [], ◌∷◌, ◌++◌, ◌==◌, is_some_and,
  if◌then◌else◌, ==_refl, refl, ◌∙◌, arith,
}
use phone_cases_backend.Prelude.Results.{Result, ok, err}
use phone_cases_backend.Prelude.Tables.{find_first}
use phone_cases_backend.Errors.{
  Error, resource_not_found, order_not_found, replacement_not_applicable, order_cancelled,
  order_already_paid, replacement_not_allowed,
}
use phone_cases_backend.Store.{
  Store, Order, Receipt, cancelled, paid, is_fulfillment, is_payment, is_instapay, is_rejected,
  find_order, receipt_replaced, record_audit,
}
use phone_cases_backend.Receipts.{is_receipt_of, new_receipt}

-- `findFirst` in descending order of creation: the newest row that matches.
abbrev pub find_last {ℓ} : {A : Type ℓ} → (A → Bool) → List A → Option A
find_last p [] = none
find_last p (x ∷ xs) = elim (find_last p xs) [
  | none ↦ if p x then some x else none
  | some y ↦ some y
]

abbrev pub latest_receipt : ℕ → Store → Option Receipt
latest_receipt order s = find_last (is_receipt_of order) s.receipts

abbrev pub was_rejected : Option Receipt → Bool
was_rejected none = false
was_rejected (some r) = is_rejected r.status

-- What the check before and the transaction ask of the order, and of its newest receipt.
abbrev pub check_open : Order → Result Error (Unit {0})
check_open o =
    if is_fulfillment o.fulfillment cancelled
    then err order_cancelled
    else if is_payment o.payment paid
    then err order_already_paid
    else ok tt

abbrev pub check_latest : ℕ → Store → Result Error (Unit {0})
check_latest order s =
    if was_rejected (latest_receipt order s) then ok tt else err replacement_not_allowed

-- The check before the image is decoded: the order of the cart, which does not change.
unfoldable pub find_replaceable : (cart_exists : Bool) (cart : ℕ) → Store → Result Error Order
find_replaceable cart_exists cart s =
    if not cart_exists
    then err (resource_not_found cart)
    else elim (find_first (λ o. is_some_and (λ c. c == cart) o.cart) s.orders) [
      | none ↦ err order_not_found
      | some o ↦
          if not (is_instapay o.method)
          then err replacement_not_applicable
          else elim (check_open o) [
            | err e ↦ err e
            | ok u ↦ elim (check_latest o.id s) [ err e ↦ err e | ok v ↦ ok o ]
          ]
    ]

abbrev pub with_receipt : ℕ → ℕ → Store → Store
with_receipt cart order s = record s {
  receipts = s.receipts ++ (new_receipt s.next_id cart (some order) none ∷ []);
  next_id = s.next_id + 1;
}

abbrev pub insert_if :
    Result Error (Unit {0}) → ℕ → ℕ → (during : Store → Store) → Store → Result Error ℕ × Store
insert_if (err e) cart order during s = (err e, s)
insert_if (ok u) cart order during s = (ok (during s).next_id, with_receipt cart order (during s))

abbrev pub read_latest :
    Result Error (Unit {0})
    → ℕ
    → ℕ
    → (between during : Store → Store) → Store
    → Result Error ℕ × Store
read_latest (err e) cart order between during s = (err e, s)
read_latest (ok u) cart order between during s =
    insert_if (check_latest order (between s)) cart order during (between s)

-- The transaction, which reads the order, then its newest receipt, and then inserts the new one. It
-- locks no row and each statement sees what has been committed by then: `between` is what others
-- commit between the two reads, `during` between the second and the insert.
unfoldable pub replace_receipt :
    (cart order : ℕ) (between during : Store → Store) (s : Store) → Result Error ℕ × Store
replace_receipt cart order between during s = elim (find_order order s) [
  | none ↦ (err (resource_not_found order), s)
  | some o ↦ read_latest (check_open o) cart order between during s
]

abbrev pub audit_replacement : ℕ → Result Error ℕ × Store → Result Error ℕ × Store
audit_replacement order (err e, s) = (err e, s)
audit_replacement order (ok id, s) = (ok id, record_audit none (receipt_replaced id) order s)

-- `uploadReplacementForCart`, where `meanwhile` is what other requests do between the check and the
-- transaction.
unfoldable pub upload_replacement_for_cart :
    (cart_exists : Bool) (cart : ℕ) (meanwhile between during : Store → Store) (s : Store)
    → Result Error ℕ × Store
unfolding find_replaceable replace_receipt
upload_replacement_for_cart cart_exists cart meanwhile between during s =
    elim (find_replaceable cart_exists cart s) [
      | err e ↦ (err e, s)
      | ok o ↦ audit_replacement o.id (replace_receipt cart o.id between during (meanwhile s))
    ]

find_last-snoc :
    {A : Type 0} (p : A → Bool) (xs : List A) (x : A)
    → p x ≡ true
    → find_last p (xs ++ (x ∷ [])) ≡ some x
find_last-snoc p [] x h = ground (arith, h)
find_last-snoc p (y ∷ ys) x h = ground (arith, find_last-snoc p ys x h)

open_inv :
    (o : Order)
    → check_open o ≡ ok tt
    → (is_fulfillment o.fulfillment cancelled ≡ false) × (is_payment o.payment paid ≡ false)
open_inv o e = (ground (arith, e), ground (arith, e))

insert_if_inv :
    (c : Result Error (Unit {0})) (cart order id : ℕ) (during : Store → Store) (s t : Store)
    → insert_if c cart order during s ≡ (ok id, t)
    → (c ≡ ok tt) × (id ≡ (during s).next_id) × (t ≡ with_receipt cart order (during s))
insert_if_inv (err x) cart order id during s t e = cc
insert_if_inv (ok u) cart order id during s t e = (refl, cc, cc)

read_latest_inv :
    (c : Result Error (Unit {0})) (cart order id : ℕ) (between during : Store → Store) (s t : Store)
    → read_latest c cart order between during s ≡ (ok id, t)
    → (c ≡ ok tt)
      × (insert_if (check_latest order (between s)) cart order during (between s) ≡ (ok id, t))
read_latest_inv (err x) cart order id between during s t e = cc
read_latest_inv (ok u) cart order id between during s t e = (refl, e)

-- A replacement that goes through found its order, the newest receipt rejected, and inserted.
replace_inv :
    (cart order id : ℕ) (between during : Store → Store) (s t : Store)
    → replace_receipt cart order between during s ≡ (ok id, t)
    → (o : Order) × (find_order order s ≡ some o)
      × (check_open o ≡ ok tt)
      × (was_rejected (latest_receipt order (between s)) ≡ true)
      × (id ≡ (during (between s)).next_id)
      × (t ≡ with_receipt cart order (during (between s)))
unfolding replace_receipt
replace_inv cart order id between during s t e = go (find_order order s) refl e
  where
    go :
        (r : Option Order)
        → find_order order s ≡ r
        → (elim r as (λ _. Result Error ℕ × Store) [
          | none ↦ (err (resource_not_found order), s)
          | some o ↦ read_latest (check_open o) cart order between during s
        ])
          ≡ (ok id, t)
        → (o : Order) × (find_order order s ≡ some o)
          × (check_open o ≡ ok tt)
          × (was_rejected (latest_receipt order (between s)) ≡ true)
          × (id ≡ (during (between s)).next_id)
          × (t ≡ with_receipt cart order (during (between s)))
    go none there p = cc
    go (some o) there p =
        let (fine, p₁) = read_latest_inv (check_open o) cart order id between during s t p in
        let (latest, id_is, t_is) =
          insert_if_inv (check_latest order (between s)) cart order id during (between s) t p₁ in
        (o, there, fine, ground (arith, latest), id_is, t_is)

-- A replacement goes through only for an order that is neither cancelled nor paid and a newest
-- receipt that is rejected, as the transaction reads them. The new receipt awaits review and is the
-- newest of the order. A replacement that begins afterwards is not accepted while that receipt is the
-- newest that it reads, whatever others commit around it.
pub replaced_once :
    (cart cart' order id id' : ℕ) (between during between' during' : Store → Store)
    (s t u v : Store)
    → replace_receipt cart order between during s ≡ (ok id, t)
    → latest_receipt order (between' u) ≡ latest_receipt order t
    → (o : Order) × (find_order order s ≡ some o)
      × (is_fulfillment o.fulfillment cancelled ≡ false)
      × (is_payment o.payment paid ≡ false)
      × (was_rejected (latest_receipt order (between s)) ≡ true)
      × (latest_receipt order t ≡ some (new_receipt id cart (some order) none))
      × ¬ (replace_receipt cart' order between' during' u ≡ (ok id', v))
replaced_once cart cart' order id id' between during between' during' s t u v e same =
    let (o, there, fine, bad, id_is, t_is) = replace_inv cart order id between during s t e in
    let newest : latest_receipt order t ≡ some (new_receipt id cart (some order) none) =
      rw (t_is, id_is)
        (find_last-snoc (is_receipt_of order) (during (between s)).receipts
          (new_receipt (during (between s)).next_id cart (some order) none) (==_refl order)) in
    (
      o,
      there,
      (open_inv o fine).0,
      (open_inv o fine).1,
      bad,
      newest,
      λ again.
          (let (o', there', fine', bad', id_is', t_is') =
              replace_inv cart' order id' between' during' u v again in
            pending (latest_receipt order (between' u)) (same ∙ newest) bad'),
    )
  where
    pending :
        (r : Option Receipt)
        → r ≡ some (new_receipt id cart (some order) none)
        → was_rejected r ≡ true
        → ⊥
    pending r is h = ground (arith, is, h)
