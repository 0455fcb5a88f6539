-- ===== src/Checkout/Creation/Once.antt =====
-- One cart makes at most one order, and a request that is refused writes nothing.
use phone_cases_backend.Prelude.{
  ℕ, ◌+◌, ◌≤◌, ◌≡◌, refl, ap, Bool, true, false, not, ◌&&◌, Option, none, some, List, [], ◌∷◌, ◌==◌,
  is_some, sum_by, sum_by-append, ◌⊎◌, inl, inr, if◌then◌else◌, arith,
}
use phone_cases_backend.Prelude.Results.{Result, ok, err, commit}
use phone_cases_backend.Prelude.Tables.{find_first, update_where_row}
use phone_cases_backend.Errors.{Error, bad_request}
use phone_cases_backend.Store.{Order, record_audit, order_created}
use phone_cases_backend.Checkout.{Cart, Shop}
use phone_cases_backend.Checkout.Creation.{
  Request, Config, has_key, is_of_cart, is_open, is_claimable, as_ordered, Serving.by_key,
  Serving.replay, Serving.is_not_unique, Serving.check_request, create_in_transaction,
  Serving.settle_creation, Serving.create_new_order, Serving.create_order, Rows.IsNew,
  Rows.place_order_lem, Found.HasUniqueKeys, Found.lost_or_placed,
}

abbrev pub orders_of : ℕ → Shop → ℕ
orders_of cart s = sum_by (λ o. if is_of_cart cart o then 1 else 0) s.store.orders

abbrev is_closed_one : ℕ → Cart → ℕ
is_closed_one cart c = if c.id == cart && not (is_open c.status) then 1 else 0

-- The carts with an id that are no longer active.
abbrev pub closed_carts : ℕ → Shop → ℕ
closed_carts cart s = sum_by (is_closed_one cart) s.carts

-- No cart has more orders than its closing allows, which is none while it is active, and no key is
-- of two orders.
abbrev pub IsOrderly : Shop → Type 0
IsOrderly s = ((k : ℕ) → orders_of k s ≤ closed_carts k s) × HasUniqueKeys s

none_taken :
    (p : Order → Bool) (os : List Order)
    → is_some (find_first p os) ≡ false
    → sum_by (λ o. if p o then 1 else 0) os ≡ 0
none_taken p [] e = refl
none_taken p (o ∷ os) e = ground (arith, none_taken p os, e)

new_key :
    (req : Request) (c : Cart) (o : Order) (os os' : List Order) (k : ℕ)
    → IsNew req c o os os'
    → sum_by (λ x. if has_key k x then 1 else 0) os ≤ 1
    → sum_by (λ x. if has_key k x then 1 else 0) os' ≤ 1
new_key req c o os os' k (orders, free, key, hash, cart) once = rw orders (
    ground (
      arith,
      sum_by-append (λ x. if has_key k x then 1 else 0) os (o ∷ []),
      none_taken (has_key req.idempotency_key) os,
      free,
      key,
      once,
    ))

new_order_of :
    (req : Request) (c : Cart) (o : Order) (os os' : List Order) (k : ℕ)
    → IsNew req c o os os'
    → sum_by (λ x. if is_of_cart k x then 1 else 0) os'
      ≡ sum_by (λ x. if is_of_cart k x then 1 else 0) os + (if c.id == k then 1 else 0)
new_order_of req c o os os' k (orders, free, key, hash, cart) =
    rw orders
      (ground (arith, sum_by-append (λ x. if is_of_cart k x then 1 else 0) os (o ∷ []), cart))

create_in_transaction-IsOrderly :
    (config : Config) (cart : ℕ) (req : Request) (now : ℕ) (s t : Shop) (o : Order)
    → IsOrderly s
    → create_in_transaction config cart req now s ≡ ok (o, t)
    → IsOrderly t
create_in_transaction-IsOrderly config cart req now s t o (once, keys) e =
    elim (lost_or_placed config cart req now s t o e) [
      | inl (still, own) ↦ rw still (once, keys)
      | inr (c, cs, claimed, same, placed) ↦
          let (r, claimable, is_row, totals) =
            update_where_row (is_claimable cart) as_ordered s.carts c cs claimed in
          let (expected, carts, fresh, items, rows, grown, of, fits) =
            place_order_lem config req c now (record s { carts = cs }) o t placed in
          let closing : (k : ℕ)
              → sum_by (is_closed_one k) cs ≡ closed_carts k s + (if c.id == k then 1 else 0) =
            λ k. ground (arith, totals (is_closed_one k), is_row, claimable) in
          let closed : (k : ℕ) → closed_carts k t ≡ sum_by (is_closed_one k) cs =
            λ k. ap (λ x. sum_by (is_closed_one k) x) carts in
          (
            λ k. omega (
              arith,
              once k,
              closing k,
              closed k,
              new_order_of req c o s.store.orders t.store.orders k fresh,
            ),
            λ k. new_key req c o s.store.orders t.store.orders k fresh (keys k),
          )
    ]

-- How a creation may end: with the state that it began in or found on its way, or with that of its
-- transaction and an entry in the audit log.
abbrev Committed : Config → ℕ → Request → ℕ → Shop → Result Error Order → Shop → Type 0
Committed config cart req now m r t =
    (o : Order) × (u : Shop) × (create_in_transaction config cart req now m ≡ ok (o, u))
    × (r ≡ ok o)
    × (t ≡ (record u { store = record_audit none (order_created o.total) o.id u.store }))

abbrev Ends : Config → ℕ → Request → ℕ → Shop → Result Error Order → Shop → Type 0
Ends config cart req now m r t = (t ≡ m) ⊎ Committed config cart req now m r t

either_state :
    (b : Bool) (r r' x : Result Error Order) (s t : Shop)
    → ◌≡◌ {A = Result Error Order × Shop} (if b then (r, s) else (r', s)) (x, t)
    → t ≡ s
either_state true r r' x s t e = cc
either_state false r r' x s t e = cc

settle_creation-Ends :
    (config : Config) (cart : ℕ) (req : Request) (now : ℕ) (m t : Shop) (r : Result Error Order)
    → settle_creation cart req (commit (create_in_transaction config cart req now) m) ≡ (r, t)
    → Ends config cart req now m r t
settle_creation-Ends config cart req now m t r e =
    go (create_in_transaction config cart req now m) refl e
  where
    go :
        (x : Result Error (Order × Shop))
        → create_in_transaction config cart req now m ≡ x
        → settle_creation cart req (elim x as (λ _. Result Error Order × Shop) [
          | ok (y, u) ↦ (ok y, u)
          | err y ↦ (err y, m)
        ])
          ≡ (r, t)
        → Ends config cart req now m r t
    go (ok (y, u)) ran p = inr (y, u, ran, cc, cc)
    go (err y) ran p =
        inl (either_state (is_not_unique y) (replay cart req (by_key req m)) (err y) r m t p)

create_new_order-Ends :
    (config : Config) (cart : ℕ) (req : Request) (now : ℕ) (meanwhile : Shop → Shop) (s t : Shop)
    (r : Result Error Order)
    → create_new_order config cart req now meanwhile s ≡ (r, t)
    → (t ≡ s) ⊎ Ends config cart req now (meanwhile s) r t
unfolding create_new_order
create_new_order-Ends config cart req now meanwhile s t r e = go (check_request cart req now s) e
  where
    valid :
        (b : Bool)
        → ◌≡◌ {A = Result Error Order × Shop}
            (if b
              then settle_creation cart req
                  (commit (create_in_transaction config cart req now) (meanwhile s))
              else (err bad_request, s))
            (r, t)
        → (t ≡ s) ⊎ Ends config cart req now (meanwhile s) r t
    valid true p = inr (settle_creation-Ends config cart req now (meanwhile s) t r p)
    valid false p = inl cc

    go :
        (x : Result Error (Option Order))
        → (elim x as (λ _. Result Error Order × Shop) [
          | err y ↦ (err y, s)
          | ok (some y) ↦ (ok y, s)
          | ok none ↦
              if req.has_valid_phone
              then settle_creation cart req
                  (commit (create_in_transaction config cart req now) (meanwhile s))
              else (err bad_request, s)
        ])
          ≡ (r, t)
        → (t ≡ s) ⊎ Ends config cart req now (meanwhile s) r t
    go (err y) p = inl cc
    go (ok (some y)) p = inl cc
    go (ok none) p = valid req.has_valid_phone p

create_order-Ends :
    (config : Config) (cart : ℕ) (req : Request) (now : ℕ) (before meanwhile : Shop → Shop)
    (s t : Shop) (r : Result Error Order)
    → create_order config cart req now before meanwhile s ≡ (r, t)
    → (t ≡ s) ⊎ ((t ≡ before s) ⊎ Ends config cart req now (meanwhile (before s)) r t)
unfolding create_order
create_order-Ends config cart req now before meanwhile s t r e = go (by_key req s) e
  where
    go :
        (x : Option Order)
        → (elim x as (λ _. Result Error Order × Shop) [
          | some y ↦ (replay cart req (some y), s)
          | none ↦ create_new_order config cart req now meanwhile (before s)
        ])
          ≡ (r, t)
        → (t ≡ s) ⊎ ((t ≡ before s) ⊎ Ends config cart req now (meanwhile (before s)) r t)
    go (some y) p = inl cc
    go none p = inr (create_new_order-Ends config cart req now meanwhile (before s) t r p)

-- A creation that is refused writes nothing: the state is the one that others left, before or
-- after the checks of the request.
pub create_order-refused :
    (config : Config) (cart : ℕ) (req : Request) (now : ℕ) (before meanwhile : Shop → Shop)
    (s t : Shop) (e : Error)
    → create_order config cart req now before meanwhile s ≡ (err e, t)
    → (t ≡ s) ⊎ ((t ≡ before s) ⊎ (t ≡ meanwhile (before s)))
create_order-refused config cart req now before meanwhile s t e refused =
    elim (create_order-Ends config cart req now before meanwhile s t (err e) refused) [
      | inl same ↦ inl same
      | inr (inl same) ↦ inr (inl same)
      | inr (inr (inl same)) ↦ inr (inr same)
      | inr (inr (inr (o, u, ran, returned, after))) ↦ cc
    ]

-- Creations keep the shop orderly, whoever else commits between their steps, if the others do: no
-- cart has an order while it is active, or more orders than carts with its id are closed, and no key
-- is of two orders.
pub create_order-IsOrderly :
    (config : Config) (cart : ℕ) (req : Request) (now : ℕ) (before meanwhile : Shop → Shop)
    (s : Shop)
    → ((u : Shop) → IsOrderly u → IsOrderly (before u))
    → ((u : Shop) → IsOrderly u → IsOrderly (meanwhile u))
    → IsOrderly s
    → IsOrderly (create_order config cart req now before meanwhile s).1
create_order-IsOrderly config cart req now before meanwhile s keep keep' v =
    let (r, t) = create_order config cart req now before meanwhile s in
    ends t (create_order-Ends config cart req now before meanwhile s t r refl)
  where
    ends :
        (t : Shop)
        → (t ≡ s)
          ⊎ ((t ≡ before s)
              ⊎ Ends config cart req now
                  (meanwhile (before s))
                  (create_order config cart req now before meanwhile s).0
                  t)
        → IsOrderly t
    ends t (inl same) = rw same v
    ends t (inr (inl same)) = rw same (keep s v)
    ends t (inr (inr (inl same))) = rw same (keep' (before s) (keep s v))
    ends t (inr (inr (inr (o, u, ran, returned, after)))) = rw after (
        create_in_transaction-IsOrderly config cart req now (meanwhile (before s)) u o
          (keep' (before s) (keep s v)) ran)
