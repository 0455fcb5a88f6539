-- ===== src/Checkout/Creation/Serving.antt =====
-- `createOrder` of src/modules/orders/orders.service.ts around its transaction: the checks, and what
-- becomes of the outcome.
use phone_cases_backend.Prelude.{
  ℕ, Bool, true, false, ◌&&◌, Option, none, some, ◌==◌, if◌then◌else◌,
}
use phone_cases_backend.Prelude.Results.{Result, ok, err, commit}
use phone_cases_backend.Prelude.Tables.{find_first}
use phone_cases_backend.Errors.{
  Error, bad_request, not_unique, idempotency_key_reused, receipt_already_attached,
}
use phone_cases_backend.Store.{
  Order, Receipt, PaymentMethod, cash_on_delivery, instapay_manual, order_created, record_audit,
}
use phone_cases_backend.Receipts.{find_owned_unattached}
use phone_cases_backend.Checkout.{Shop}
use phone_cases_backend.Checkout.Creation.{
  Request, Config, has_key, is_of_cart, is_replay, create_in_transaction,
}

-- `error.code === 'RECEIPT_ALREADY_ATTACHED'`
abbrev pub is_already_attached : Error → Bool
is_already_attached receipt_already_attached = true
is_already_attached _ = false

-- `error.code === 'P2002'`
abbrev pub is_not_unique : Error → Bool
is_not_unique not_unique = true
is_not_unique _ = false

abbrev pub has_made : Request → Order → Bool
has_made req o = o.idempotency_key == req.idempotency_key && o.request_hash == req.request_hash

-- The order of the cart, if this request has made it.
abbrev pub made_order : ℕ → Request → Shop → Option Order
made_order cart req s = elim (find_first (is_of_cart cart) s.store.orders) [
  | none ↦ none
  | some o ↦ if has_made req o then some o else none
]

-- Where the receipt is attached already, this request may have been served meanwhile.
abbrev pub recover : Error → Option Order → Result Error (Option Order)
recover e none = err e
recover e (some o) = if is_already_attached e then ok (some o) else err e

abbrev pub after_look_up : Result Error Receipt → Option Order → Result Error (Option Order)
after_look_up (ok r) made = ok none
after_look_up (err e) made = recover e made

-- Only a payment by InstaPay has a receipt, and it needs one.
abbrev pub check_method :
    PaymentMethod
    → Option ℕ
    → (ℕ → Result Error Receipt)
    → Option Order
    → Result Error (Option Order)
check_method cash_on_delivery none look_up made = ok none
check_method cash_on_delivery (some r) look_up made = err bad_request
check_method instapay_manual none look_up made = err bad_request
check_method instapay_manual (some r) look_up made = after_look_up (look_up r) made

-- What is checked before the transaction: an order made already, or none.
unfoldable pub check_request : ℕ → Request → ℕ → Shop → Result Error (Option Order)
unfolding find_owned_unattached
check_request cart req now s =
    if req.has_valid_note
    then check_method req.method req.receipt (λ r. find_owned_unattached cart r now s.store)
        (made_order cart req s)
    else err bad_request

-- The order with the key, for the request that has made it alone.
abbrev pub replay : ℕ → Request → Option Order → Result Error Order
replay cart req none = err idempotency_key_reused
replay cart req (some o) = if is_replay cart req o then ok o else err idempotency_key_reused

abbrev pub by_key : Request → Shop → Option Order
by_key req s = find_first (has_key req.idempotency_key) s.store.orders

-- After the transaction: the entry in the audit log, or the order that took the key first.
abbrev pub settle_creation : ℕ → Request → Result Error Order × Shop → Result Error Order × Shop
settle_creation cart req (ok o, s) =
    (ok o, record s { store = record_audit none (order_created o.total) o.id s.store })
settle_creation cart req (err e, s) =
    if is_not_unique e then (replay cart req (by_key req s), s) else (err e, s)

-- `createOrder` from the first checks on, for a key that no order has.
unfoldable pub create_new_order :
    Config → ℕ → Request → ℕ → (Shop → Shop) → Shop → Result Error Order × Shop
unfolding check_request create_in_transaction
create_new_order config cart req now meanwhile s = elim (check_request cart req now s) [
  | err e ↦ (err e, s)
  | ok (some o) ↦ (ok o, s)
  | ok none ↦
      if req.has_valid_phone
      then settle_creation cart req
          (commit (create_in_transaction config cart req now) (meanwhile s))
      else (err bad_request, s)
]

-- `createOrder`; `before` and `meanwhile` are what others commit between the look-up of the key and
-- the checks, and between the checks and the transaction.
unfoldable pub create_order :
    Config → ℕ → Request → ℕ → (before meanwhile : Shop → Shop) → Shop → Result Error Order × Shop
unfolding create_new_order
create_order config cart req now before meanwhile s = elim (by_key req s) [
  | some o ↦ (replay cart req (some o), s)
  | none ↦ create_new_order config cart req now meanwhile (before s)
]
