-- ===== src/Lib.antt =====
-- Verification library of the phone-cases backend: a shop's server on NestJS and PostgreSQL.
--
-- The parts and how they interact. Carts and orders hold units of stock items by reservations
-- (inventory). An order moves through two state machines, its fulfillment and its payment; a move
-- may pin, release or consume its reservations, give the use of its coupon back, and accept its
-- payment receipt. Refunds derive the payment status of an order from the money that went back.
-- Jobs release expired reservations, cancel overdue orders and delete receipts that no order has
-- claimed. The prices of a cart combine coupons, bundles and a shipping rate; one allocation
-- routine splits a discount over the lines of an order. Checking out prices the cart again, claims
-- it, counts the use of its coupon, writes the order and its lines, attaches the receipt and holds
-- the stock, all in one transaction.
--
-- Which file models which code:
--   Errors              src/common/exceptions/app.exception.ts and the codes of the services
--   Inventory           src/modules/inventory/reservations/reservations.service.ts: Hold (reserve,
--                       reserveMany), Release (release, pinActiveForOrderInTransaction), Consume,
--                       Sweep (releaseAllExpired and the lazy sweeps); StockItems for
--                       src/modules/inventory/stock-items/stock-items.service.ts; Runs for any
--                       interleaving of them; Retire for lists of reservations that are closed,
--                       and Sales for what consuming them takes from the stock
--   Store               the rows of prisma/schema.prisma that the parts below share
--   Orders              src/modules/orders/orders.service.ts: Transitions (the two tables), Triage
--                       (loadReservationTriage), Fulfillment (updateFulfillmentStatus), Payment
--                       (updatePaymentStatus, flagLatePayment), Expiry (cancelDueToExpiry,
--                       cancelExpiredOrders, and sweepAndCancel of order-expiry.service.ts); History
--                       and Runs for what any sequence of them keeps; Freed for the stock of ended
--                       and paid orders
--   Receipts            src/modules/payments/receipts/receipts.service.ts; Replacement for
--                       uploadReplacementForCart, Attached for claims against the cleanup
--   Refunds             src/modules/orders/refunds/refunds.service.ts; Agreement for statuses
--                       against amounts, Returns for recordItemReturn
--   Pricing             Allocation for allocateDiscount of src/modules/orders/order-pricing.util.ts;
--                       Coupons and View for src/modules/cart/cart-pricing.service.ts and
--                       src/modules/promotions/coupons/coupon-status.util.ts; Schedule for
--                       src/common/schedule/schedule-window.util.ts and
--                       src/modules/promotions/bundles/bundle-schedule.util.ts; View also for
--                       computeShippingPrice of src/modules/shipping/shipping.service.ts; Bundles
--                       for computeBundleInstances of
--                       src/modules/promotions/bundles/bundle-pricing.util.ts, and CartView for
--                       buildView with the groups of the bundles
--   Checkout            the quote of src/modules/orders/checkout.service.ts, with the rates of
--                       src/modules/shipping/shipping.service.ts and the bundles that
--                       src/modules/promotions/bundles/bundles.service.ts loads for pricing; Drafts
--                       for the lines of a new order, Creation for the transaction of
--                       createOrder of src/modules/orders/orders.service.ts, and its child
--                       Serving for what comes before and after it
--   Carts               the lines of carts: src/modules/cart/cart.service.ts; Changes for its
--                       operations, Tidy and Shared for what they keep
--   Texts               src/common/utils/sanitize-note.util.ts, with what Notes shows of it; Phones
--                       for src/common/utils/phone.util.ts
--   Prelude             Boolean tests, lists, integers, results and tables that the parts share
--
-- State and operations. A table that the code searches is the list of its rows, oldest first; one
-- that it only reads by key is a function. A conditional UPDATE on a primary key is `update_where`:
-- it writes the first row that its condition allows, or misses. The body of a `$transaction` is a
-- function `Tx` from the state to an error, or to a value and the new state; `commit` keeps the old
-- state on an error, as the rollback does. A method that runs several transactions returns the
-- state in any case. Row locks are what makes a transition of an order one step: the order row is
-- locked first, so that its reads are of the state that it writes, and interleavings are sequences
-- of whole transactions (`Step` and `Reach` in Inventory.Runs and Orders.Runs, `Later` in
-- Checkout.Creation.Later). The transaction of uploadReplacementForCart locks nothing: what others
-- commit between its statements is a parameter. In createOrder, the coupon that is checked is an
-- argument of `use_coupon`, apart from the row that the UPDATE finds; the transaction as a whole is
-- one step. The requests on a cart are no transactions in the code; each is one step here, with
-- what others commit before the insert of addItem as a parameter. Where code outside a transaction
-- reads first, the transaction tests again; in uploadReplacementForCart and createOrder what others
-- commit in between is a parameter.
--
-- Numbers. Amounts are minor units and quantities are whole: natural numbers without a bound. The
-- code computes with doubles, which are exact below 2 ^ 53, a bound that no sum of amounts of the
-- columns (32 bits) and no amount times a percentage reaches. The product of a line and a discount
-- in allocateDiscount can pass it: from there on, `share` is the exact number and the code's is
-- rounded. Where a difference may be negative, it is an integer. The clock is an argument in
-- milliseconds. Ids are numbers, only compared; `next_id` stands for the generator of UUIDs. The
-- loop over the groups of a bundle runs on as much fuel as the bundle has units, of which every
-- round takes two or more; every other loop is a recursion on its list, or on the units left over.
-- A text that is looked into is the list of its UTF-16 code units.
--
-- Not modelled: computeBundleProgress, the editing of coupons, bundles, shipping rates and the
-- catalogue, staff and their sessions, custom designs and files; the reads of the admin views,
-- other texts, and the HTTP layer. An audit entry that fails to be written is ignored by the code,
-- and is written here.
pub mod Prelude
pub mod Errors
pub mod Pricing
pub mod Checkout
pub mod Carts
pub mod Texts
pub mod Inventory
pub mod Store
pub mod Receipts
pub mod Refunds
pub mod Orders
