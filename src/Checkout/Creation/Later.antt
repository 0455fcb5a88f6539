-- ===== src/Checkout/Creation/Later.antt =====
-- What others commit after a request has been served, and the order that stays through it.
use phone_cases_backend.Prelude.{
  ℕ, ◌≡◌, refl, ◌∙◌, Bool, some, List, [], ◌∷◌, ◌++◌, inl, inr, arith,
}
use phone_cases_backend.Prelude.Results.{ok}
use phone_cases_backend.Prelude.Tables.{find_first}
use phone_cases_backend.Store.{Store, Order, find_order}
use phone_cases_backend.Orders.Runs.{Step, Step-Continues, order_follows}
use phone_cases_backend.Checkout.{Shop}
use phone_cases_backend.Checkout.Creation.{
  Request, Config, create_in_transaction, Rows.place_order_lem, Found.lost_or_placed,
}

-- Any number of transactions of others: the moves, payments, refunds and expiries of orders and what
-- is done to the stock, creations of other orders, and whatever touches no order.
pub data Later (s : Shop) : Shop → Type 0 where
  now_ : Later s s
  moved : {t : Shop} (v : Store) → Later s t → Step t.store v → Later s (record t { store = v })
  created :
      {t u : Shop} (config : Config) (cart : ℕ) (req : Request) (now : ℕ) (o : Order)
      → Later s t
      → create_in_transaction config cart req now t ≡ ok (o, u)
      → Later s u
  apart : {t u : Shop} → Later s t → u.store.orders ≡ t.store.orders → Later s u

-- What no transaction changes in an order.
abbrev pub IsSame : Order → Order → Type 0
IsSame o o' =
    (o'.idempotency_key ≡ o.idempotency_key)
    × (o'.request_hash ≡ o.request_hash)
    × (o'.cart ≡ o.cart)

abbrev pub Stays : ℕ → Order → Shop → Type 0
Stays id o u = (o' : Order) × (find_order id u.store ≡ some o') × IsSame o o'

found-append :
    (p : Order → Bool) (os : List Order) (x o : Order)
    → find_first p os ≡ some o
    → find_first p (os ++ (x ∷ [])) ≡ some o
found-append p [] x o e = cc
found-append p (y ∷ os) x o e = ground (arith, found-append p os x o, e)

created-Stays :
    (config : Config) (cart : ℕ) (req : Request) (now id : ℕ) (x o : Order) (t u : Shop)
    → create_in_transaction config cart req now t ≡ ok (x, u)
    → Stays id o t
    → Stays id o u
created-Stays config cart req now id x o t u e (o', there, same) =
    elim (lost_or_placed config cart req now t u x e) [
      | inl (still, own) ↦ (o', rw still there, same)
      | inr (c, cs, claimed, is_c, placed) ↦
          let (expected, carts, fresh, items, rows, grown, of, fits) =
            place_order_lem config req c now (record t { carts = cs }) x u placed in
          (o', rw (fresh.0) (found-append _ t.store.orders x o' there), same)
    ]

pub Later-Stays :
    (id : ℕ) (o : Order) {s u : Shop} → Later s u → find_order id s.store ≡ some o → Stays id o u
Later-Stays id o now_ there = (o, there, (refl, refl, refl))
Later-Stays id o (moved {t} v run step) there =
    let (x, found, (key, hash, cart)) = Later-Stays id o run there in
    let (o', found', turn) = order_follows id t.store v x ((Step-Continues step).orders id) found in
    (o', found', (turn.same_key ∙ key, turn.same_hash ∙ hash, turn.same_cart ∙ cart))
Later-Stays id o (created {t} {u} config cart req now x run e) there =
    created-Stays config cart req now id x o t u e (Later-Stays id o run there)
Later-Stays id o (apart {t} {u} run orders) there =
    let (o', found, same) = Later-Stays id o run there in (o', rw orders found, same)
