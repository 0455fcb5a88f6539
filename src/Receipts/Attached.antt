-- ===== src/Receipts/Attached.antt =====
-- A receipt is used for one order, and the cleanup never takes the receipt of an order.
use phone_cases_backend.Prelude.{
  ℕ, ◌+◌, ◌≤◌, ◌≡◌, refl, ◌∙◌, not, ◌&&◌, some, List, [], ◌∷◌, map, select, take, sum_by, sum_by-le,
  if◌then◌else◌, Option-cases, inl, inr, arith,
}
use phone_cases_backend.Prelude.Results.{ok, err}
use phone_cases_backend.Prelude.Tables.{update_where, update_where_row, update_where_misses}
use phone_cases_backend.Errors.{receipt_already_attached}
use phone_cases_backend.Store.{Store, Receipt}
use phone_cases_backend.Receipts.{
  is_receipt, is_unattached, is_receipt_of, is_attachable, attached_to, attach_to_order,
  is_disposable, is_deletable, delete_receipts, delete_expired_unattached,
}

abbrev pub has_id : ℕ → Receipt → ℕ
has_id id r = if is_receipt id r then 1 else 0

abbrev is_free : ℕ → Receipt → ℕ
is_free id r = if is_receipt id r && is_unattached r then 1 else 0

-- How many receipts an order has.
abbrev pub belongs_to : ℕ → Receipt → ℕ
belongs_to order r = if is_receipt_of order r then 1 else 0

-- The primary key of the table.
abbrev pub IsUnique : ℕ → Store → Type 0
IsUnique id s = sum_by (has_id id) s.receipts ≤ 1

attach_inv :
    (cart id order now : ℕ) (s t : Store)
    → attach_to_order cart id order now s ≡ ok (tt, t)
    → (r : Receipt) × (update_where (is_attachable cart id now) (attached_to order) s.receipts
        ≡ some (r, t.receipts))
unfolding attach_to_order
attach_inv cart id order now s t e =
    elim (Option-cases (update_where (is_attachable cart id now) (attached_to order) s.receipts)) [
      | inl none_left ↦ absurd (ground (arith, none_left))
      | inr ((r, rs), hit) ↦ (r, ground (arith, hit))
    ]

attach_refused :
    (cart id order now : ℕ) (s : Store)
    → sum_by (is_free id) s.receipts ≡ 0
    → attach_to_order cart id order now s ≡ err receipt_already_attached
unfolding attach_to_order
attach_refused cart id order now s gone =
    let miss =
      update_where_misses (is_attachable cart id now) (attached_to order) (is_free id) s.receipts
        (λ y h. ground (arith, h)) gone in
    rw (miss, attach_to_order) refl

-- A receipt that an order has claimed is claimed by no other, whoever asks and when: a claim adds
-- one receipt to those of the order, and a further claim of it is refused.
pub attached_once :
    (cart id order now : ℕ) (s t : Store)
    → IsUnique id s
    → attach_to_order cart id order now s ≡ ok (tt, t)
    → (sum_by (belongs_to order) t.receipts ≡ sum_by (belongs_to order) s.receipts + 1)
      × ((cart' order' now' : ℕ)
          → attach_to_order cart' id order' now' t ≡ err receipt_already_attached)
attached_once cart id order now s t unique e =
    let (x, hit) = attach_inv cart id order now s t e in
    let (r, test, x_is, totals) =
      update_where_row (is_attachable cart id now) (attached_to order) s.receipts x t.receipts
        hit in
    let free = sum_by-le (is_free id) (has_id id) s.receipts (λ y. ground arith) in
    let was : is_free id r ≡ 1 = ground (arith, test) in
    let is : is_free id (attached_to order r) ≡ 0 = ground arith in
    let gone : sum_by (is_free id) t.receipts ≡ 0 =
      omega (arith, totals (is_free id), free, was, is) in
    let other : belongs_to order r ≡ 0 = ground (arith, test) in
    let mine : belongs_to order (attached_to order r) ≡ 1 = ground arith in
    (
      omega (arith, totals (belongs_to order), other, mine),
      λ cart' order' now'. attach_refused cart' id order' now' t gone,
    )

delete-belongs_to :
    (id order now : ℕ) (rs : List Receipt)
    → sum_by (belongs_to order) (select (λ r. not (is_deletable id now r)) rs)
      ≡ sum_by (belongs_to order) rs
delete-belongs_to id order now [] = refl
delete-belongs_to id order now (r ∷ rs) = ground (arith, delete-belongs_to id order now rs)

deletes-belongs_to :
    (ids : List ℕ) (order now : ℕ) (rs : List Receipt)
    → sum_by (belongs_to order) (delete_receipts ids now rs).1 ≡ sum_by (belongs_to order) rs
unfolding delete_receipts
deletes-belongs_to [] order now rs = refl
deletes-belongs_to (id ∷ ids) order now rs =
    deletes-belongs_to ids order now (select (λ r. not (is_deletable id now r)) rs)
    ∙ delete-belongs_to id order now rs

-- The cleanup never deletes a receipt of an order, at any time and for any limit.
pub attached_survives_cleanup :
    (order limit now : ℕ) (s : Store)
    → sum_by (belongs_to order) (delete_expired_unattached limit now s).1.receipts
      ≡ sum_by (belongs_to order) s.receipts
unfolding delete_expired_unattached
attached_survives_cleanup order limit now s =
    deletes-belongs_to (take limit (map (λ r. r.id) (select (is_disposable now) s.receipts))) order
      now s.receipts
