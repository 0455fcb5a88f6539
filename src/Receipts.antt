-- ===== src/Receipts.antt =====
-- Payment receipts: `ReceiptsService` of src/modules/payments/receipts/receipts.service.ts. Image
-- decoding and file storage happen outside the database and are left out.
pub mod Attached
pub mod Replacement
mod Tests
use phone_cases_backend.Prelude.{
  ℕ, ◌+◌, ◌*◌, Bool, true, false, not, ◌&&◌, ◌||◌, Option, none, some, List, [], ◌∷◌, ◌++◌, ltb,
  leb, ◌==◌, is_some_and, is_some, map, select, take, length, if◌then◌else◌,
}
use phone_cases_backend.Prelude.Results.{Result, ok, err, Tx}
use phone_cases_backend.Prelude.Tables.{update_where, update_all, find_first}
use phone_cases_backend.Errors.{
  Error, resource_not_found, invalid_state_transition, receipt_not_found, receipt_already_attached,
  receipt_expired, no_pending_receipt, too_many_pending_receipts,
}
use phone_cases_backend.Store.{
  Store, Receipt, pending_review, accepted, rejected, is_pending_review, receipt_rejected,
  record_audit,
}

abbrev pub is_receipt : ℕ → Receipt → Bool
is_receipt id r = r.id == id

abbrev pub is_unattached : Receipt → Bool
is_unattached r = not (is_some r.order)

abbrev pub is_receipt_of : ℕ → Receipt → Bool
is_receipt_of order r = is_some_and (λ o. o == order) r.order

abbrev has_lapsed : ℕ → Receipt → Bool
has_lapsed now r = is_some_and (λ t. ltb t now) r.expires_at

-- The row that `persist` writes; the id comes from the generator.
abbrev pub new_receipt : ℕ → ℕ → Option ℕ → Option ℕ → Receipt
new_receipt id cart order expires_at = record {
  id = id;
  cart = cart;
  order = order;
  status = pending_review;
  reviewed_by = none;
  reviewed_at = none;
  expires_at = expires_at;
}

-- `uploadForCart` for a cart that is active, after the image has been decoded.
unfoldable pub upload_for_cart : (max_pending retention_minutes cart now : ℕ) → Tx Store Error ℕ
upload_for_cart max_pending retention_minutes cart now s =
    let count = length (select (λ r. r.cart == cart && is_unattached r) s.receipts) in
    let r = new_receipt s.next_id cart none (some (now + retention_minutes * 60_000)) in
    if leb max_pending count
    then err too_many_pending_receipts
    else ok (s.next_id, record s { receipts = s.receipts ++ (r ∷ []); next_id = s.next_id + 1 })

check_unattached : ℕ → Receipt → Result Error Receipt
check_unattached now r =
    if is_some r.order
    then err receipt_already_attached
    else if has_lapsed now r
    then err receipt_expired
    else ok r

-- `findOwnedUnattachedOrThrow`
unfoldable pub find_owned_unattached : ℕ → ℕ → ℕ → Store → Result Error Receipt
unfolding check_unattached
find_owned_unattached cart id now s = elim (find_first (is_receipt id) s.receipts) [
  | none ↦ err receipt_not_found
  | some r ↦ if r.cart == cart then check_unattached now r else err receipt_not_found
]

abbrev pub is_attachable : ℕ → ℕ → ℕ → Receipt → Bool
is_attachable cart id now r =
    is_receipt id r
    && r.cart == cart
    && is_unattached r
    && (not (is_some r.expires_at) || is_some_and (λ t. ltb now t) r.expires_at)

abbrev pub attached_to : ℕ → Receipt → Receipt
attached_to order r = record r { order = some order; expires_at = none }

-- `attachToOrderInTransaction`
unfoldable pub attach_to_order : ℕ → ℕ → ℕ → ℕ → Tx Store Error (Unit {0})
attach_to_order cart id order now s =
    elim (update_where (is_attachable cart id now) (attached_to order) s.receipts) [
      | none ↦ err receipt_already_attached
      | some (r, rs) ↦ ok (tt, record s { receipts = rs })
    ]

abbrev as_rejected : ℕ → ℕ → Receipt → Receipt
as_rejected staff now r = record r {
  status = rejected;
  reviewed_by = some staff;
  reviewed_at = some now;
}

abbrev as_accepted : ℕ → ℕ → Receipt → Receipt
as_accepted staff now r = record r {
  status = accepted;
  reviewed_by = some staff;
  reviewed_at = some now;
}

-- `rejectReceipt`
unfoldable pub reject_receipt : ℕ → ℕ → ℕ → ℕ → Tx Store Error Receipt
reject_receipt order id staff now s =
    elim (update_where (λ r. is_receipt id r && is_receipt_of order r && is_pending_review r.status)
      (as_rejected staff now) s.receipts) [
        | some (r, rs) ↦
            ok (
              r,
              record_audit (some staff) (receipt_rejected id) order (record s { receipts = rs }),
            )
        | none ↦ elim (find_first (is_receipt id) s.receipts) [
          | none ↦ err (resource_not_found id)
          | some r ↦
              if is_receipt_of order r
              then err invalid_state_transition
              else err (resource_not_found id)
        ]
      ]

abbrev pub is_reviewable : ℕ → Receipt → Bool
is_reviewable order r = is_receipt_of order r && is_pending_review r.status

-- `acceptPendingReceiptInTransaction`
unfoldable pub accept_pending_receipt : ℕ → ℕ → ℕ → Tx Store Error (Unit {0})
accept_pending_receipt order staff now s = elim (select (is_reviewable order) s.receipts) [
  | [] ↦ err no_pending_receipt
  | r ∷ rs ↦ ok (
    tt,
    record s { receipts = update_all (is_reviewable order) (as_accepted staff now) s.receipts },
  )
]

abbrev pub is_disposable : ℕ → Receipt → Bool
is_disposable now r = is_unattached r && has_lapsed now r

-- `deleteMany` of one candidate, tested again.
abbrev pub is_deletable : ℕ → ℕ → Receipt → Bool
is_deletable id now r = is_receipt id r && is_disposable now r

abbrev count_if : Bool → ℕ → ℕ
count_if true n = n + 1
count_if false n = n

-- How many candidates were deleted, and the rows left.
unfoldable pub delete_receipts : List ℕ → ℕ → List Receipt → ℕ × List Receipt
delete_receipts [] now rs = (0, rs)
delete_receipts (id ∷ ids) now rs =
    let count = length (select (is_deletable id now) rs) in
    let (n, left) = delete_receipts ids now (select (λ r. not (is_deletable id now r)) rs) in
    (count_if (ltb 0 count) n, left)

-- `deleteExpiredUnattached`
unfoldable pub delete_expired_unattached : ℕ → ℕ → Store → ℕ × Store
unfolding delete_receipts
delete_expired_unattached limit now s =
    let ids = take limit (map (λ r. r.id) (select (is_disposable now) s.receipts)) in
    let (n, left) = delete_receipts ids now s.receipts in (n, record s { receipts = left })
