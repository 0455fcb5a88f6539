-- ===== src/Store.antt =====
-- The rows that orders are made of (prisma/schema.prisma): orders, coupons, receipts and refunds,
-- beside the inventory and the audit log. Texts that no decision reads are left out.
use phone_cases_backend.Prelude.{ℕ, Bool, true, false, Option, List, [], ◌∷◌, ◌++◌, ◌==◌}
use phone_cases_backend.Prelude.Results.{Tx, ok, err}
use phone_cases_backend.Prelude.Tables.{Table, find_first}
use phone_cases_backend.Errors.{Error}
use phone_cases_backend.Inventory.{Inventory}

pub data FulfillmentStatus : Type 0 where
  pending confirmed preparing shipped delivered cancelled : FulfillmentStatus

-- `awaiting` is the source's PENDING, which FulfillmentStatus has too.
pub data PaymentStatus : Type 0 where
  unpaid awaiting paid failed partially_refunded refunded : PaymentStatus

pub data PaymentMethod : Type 0 where
  cash_on_delivery instapay_manual : PaymentMethod

pub data ReceiptStatus : Type 0 where
  pending_review accepted rejected : ReceiptStatus

-- `===` on the statuses.
abbrev pub fulfillment_code : FulfillmentStatus → ℕ
fulfillment_code pending = 0
fulfillment_code confirmed = 1
fulfillment_code preparing = 2
fulfillment_code shipped = 3
fulfillment_code delivered = 4
fulfillment_code cancelled = 5

abbrev pub is_fulfillment : FulfillmentStatus → FulfillmentStatus → Bool
is_fulfillment a b = fulfillment_code a == fulfillment_code b

abbrev pub payment_code : PaymentStatus → ℕ
payment_code unpaid = 0
payment_code awaiting = 1
payment_code paid = 2
payment_code failed = 3
payment_code partially_refunded = 4
payment_code refunded = 5

abbrev pub is_payment : PaymentStatus → PaymentStatus → Bool
is_payment a b = payment_code a == payment_code b

abbrev pub is_instapay : PaymentMethod → Bool
is_instapay cash_on_delivery = false
is_instapay instapay_manual = true

abbrev pub is_pending_review : ReceiptStatus → Bool
is_pending_review pending_review = true
is_pending_review _ = false

abbrev pub is_rejected : ReceiptStatus → Bool
is_rejected rejected = true
is_rejected _ = false

pub record Order : Type 0 where
  pub id : ℕ
  pub cart : Option ℕ
  pub idempotency_key : ℕ
  pub request_hash : ℕ
  pub fulfillment : FulfillmentStatus
  pub payment : PaymentStatus
  pub method : PaymentMethod
  pub late_payment_flagged_at : Option ℕ
  pub late_payment_note : Option ℕ
  pub reservation_deadline : Option ℕ
  pub currency : ℕ
  pub subtotal : ℕ
  pub discount_total : ℕ
  pub bundle_discount_total : ℕ
  pub shipping_total : ℕ
  pub total : ℕ
  pub coupon : Option ℕ
  pub coupon_usage_released : Bool

pub data CouponType : Type 0 where
  percentage fixed : CouponType

pub record Coupon : Type 0 where
  pub type : CouponType
  pub value : ℕ
  pub min_spend : Option ℕ
  pub starts_at : Option ℕ
  pub expires_at : Option ℕ
  pub usage_limit : Option ℕ
  pub usage_count : ℕ
  pub is_active : Bool

pub record Receipt : Type 0 where
  pub id : ℕ
  pub cart : ℕ
  pub order : Option ℕ
  pub status : ReceiptStatus
  pub reviewed_by : Option ℕ
  pub reviewed_at : Option ℕ
  pub expires_at : Option ℕ

pub record Refund : Type 0 where
  pub id : ℕ
  pub order : ℕ
  pub amount : ℕ
  pub currency : ℕ
  pub staff : ℕ
  pub idempotency_key : ℕ

-- The entries of the audit log, by the `action` that they name and their metadata.
pub data AuditAction : Type 0 where
  order_created : ℕ → AuditAction
  fulfillment_changed : FulfillmentStatus → FulfillmentStatus → AuditAction
  payment_changed : PaymentStatus → PaymentStatus → AuditAction
  cancelled_expired late_payment_flagged : AuditAction
  refund_recorded : ℕ → PaymentStatus → AuditAction
  receipt_rejected receipt_replaced item_return_recorded : ℕ → AuditAction

pub record AuditEntry : Type 0 where
  pub staff : Option ℕ
  pub action : AuditAction
  pub entity : ℕ

pub record Store : Type 0 where
  pub inventory : Inventory
  pub orders : List Order
  pub coupons : Table Coupon
  pub receipts : List Receipt
  pub refunds : List Refund
  pub audit : List AuditEntry
  pub next_id : ℕ

abbrev pub has_id : ℕ → Order → Bool
has_id id o = o.id == id

abbrev pub find_order : ℕ → Store → Option Order
find_order id s = find_first (has_id id) s.orders

-- `auditLogService.record`, where the write succeeds; a failure there is logged and ignored.
abbrev pub record_audit : Option ℕ → AuditAction → ℕ → Store → Store
record_audit staff action entity s = record s {
  audit = s.audit ++ (record { staff = staff; action = action; entity = entity } ∷ []);
}

-- An inventory operation inside a transaction on the whole database.
abbrev pub in_inventory : {A : Type 0} → Tx Inventory Error A → Tx Store Error A
in_inventory m s = elim (m s.inventory) [
  | ok (a, i) ↦ ok (a, record s { inventory = i })
  | err e ↦ err e
]
