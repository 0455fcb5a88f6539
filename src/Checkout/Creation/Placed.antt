-- ===== src/Checkout/Creation/Placed.antt =====
-- An order that is placed: the steps of its transaction, taken apart.
use phone_cases_backend.Prelude.{
  ℕ, ◌≡◌, refl, sym, ap, ◌∙◌, Bool, true, false, Option, none, some, ◌==◌, select, arith,
}
use phone_cases_backend.Prelude.Results.{ok, Tx, pure, guard, ◌>>◌, bind_inv}
use phone_cases_backend.Errors.{Error, price_changed}
use phone_cases_backend.Store.{Order}
use phone_cases_backend.Pricing.View.{is_available}
use phone_cases_backend.Checkout.{
  Cart, ShippingRate, Shop, Quote, load_items, priced_cart, resolve_rate, quote_at,
}
use phone_cases_backend.Checkout.Drafts.{order_items}
use phone_cases_backend.Checkout.Creation.{
  Request, Config, ttl_minutes, is_empty, any_unavailable, in_store, price_checks, price_order,
  use_coupon, read_coupon, write_new_order, write_lines, stock_lines, attach_receipt, reserve_stock,
  groups_now, place_order,
}

abbrev Checked :
    (empty unavailable : Bool)
    → Option ShippingRate
    → (ShippingRate → Quote)
    → (expected_total : ℕ) → Quote
    → Type 0
Checked empty unavailable rate quoted expected q =
    (empty ≡ false)
    × (unavailable ≡ false)
    × (r : ShippingRate) × (rate ≡ some r)
    × (q ≡ quoted r)
    × ((quoted r).total ≡ expected)

price_checks_inv :
    (empty unavailable : Bool) (rate : Option ShippingRate) (quoted : ShippingRate → Quote)
    (expected : ℕ) (s s' : Shop) (q : Quote)
    → price_checks empty unavailable rate quoted expected s ≡ ok (q, s')
    → (s' ≡ s) × Checked empty unavailable rate quoted expected q
price_checks_inv true unavailable rate quoted expected s s' q e = cc
price_checks_inv false true rate quoted expected s s' q e = cc
price_checks_inv false false none quoted expected s s' q e = cc
price_checks_inv false false (some r) quoted expected s s' q e =
    let (u, s1, guarded, rest) =
      bind_inv (guard ((quoted r).total == expected) price_changed) (λ _. pure (quoted r)) s q s'
        e in
    let (same, still) = guard_inv ((quoted r).total == expected) price_changed s s1 u guarded in
    (cc, (refl, refl, r, refl, cc, ground (arith, same)))
  where
    guard_inv :
        (b : Bool) (x : Error) (t t' : Shop) (u : Unit {0})
        → guard b x t ≡ ok (u, t')
        → (b ≡ true) × (t' ≡ t)
    guard_inv true x t t' u p = (refl, cc)
    guard_inv false x t t' u p = cc

-- The price that an order is placed at.
abbrev pub Priced : Request → Cart → ℕ → Shop → Quote → Type 0
Priced req c now s q =
    let items = load_items s c in
    Checked (is_empty items) (any_unavailable items) (resolve_rate req.rate req.country s.rates)
      (quote_at (priced_cart now s c) items) req.expected_total q

pub price_order_inv :
    (req : Request) (c : Cart) (now : ℕ) (s s' : Shop) (q : Quote)
    → price_order req c now s ≡ ok (q, s')
    → (s' ≡ s) × Priced req c now s q
unfolding price_order
price_order_inv req c now s s' q e =
    let items = load_items s c in
    price_checks_inv (is_empty items) (any_unavailable items)
      (resolve_rate req.rate req.country s.rates) (quote_at (priced_cart now s c) items)
      req.expected_total s s' q e

-- The steps of a transaction that placed an order.
pub record Placed (config : Config) (req : Request) (c : Cart) (now : ℕ) (s : Shop) (o : Order)
    (s' : Shop) : Type 0 where
  pub q : Quote
  pub priced : Priced req c now s q
  pub counted : Shop
  pub coupon : use_coupon (read_coupon s c) q.view.subtotal now s ≡ ok (tt, counted)
  pub written : Shop
  pub wrote : write_new_order config req c q now counted ≡ ok (o, written)
  pub listed : Shop
  pub lines :
      write_lines o.id
        (groups_now c now s)
        (order_items (load_items s c) (groups_now c now s) q.view.discount_total)
        written
      ≡ ok (tt, listed)
  pub attached : Shop
  pub receipt : in_store (attach_receipt req c.id o.id now) listed ≡ ok (tt, attached)
  pub stock :
      in_store
        (reserve_stock
          (stock_lines (select is_available (load_items s c)))
          (ttl_minutes config req.method)
          o.id
          now)
        attached
      ≡ ok (tt, s')

pure_inv :
    (o o' : Order) (s s' : Shop)
    → pure {S = Shop} {E = Error} o' s ≡ ok (o, s')
    → (o' ≡ o) × (s ≡ s')
pure_inv o o' s s' e = (cc, cc)

last_inv :
    (m : Tx Shop Error (Unit {0})) (o o' : Order) (s s' : Shop)
    → (m >> pure o') s ≡ ok (o, s')
    → (o' ≡ o) × (m s ≡ ok (tt, s'))
last_inv m o o' s s' e =
    let (u, t, ran, end) = bind_inv m (λ _. pure o') s o s' e in
    let (same, still) = pure_inv o o' t s' end in (same, rw (sym still) ran)

pub place_order_inv :
    (config : Config) (req : Request) (c : Cart) (now : ℕ) (s : Shop) (o : Order) (s' : Shop)
    → place_order config req c now s ≡ ok (o, s')
    → Placed config req c now s o s'
unfolding place_order
place_order_inv config req c now s o s' e =
    let (q, s0, priced, r0) = bind_inv (price_order req c now) _ s o s' e in
    let (still, checked) = price_order_inv req c now s s0 q priced in
    let (u1, s1, counted, r1) =
      bind_inv (use_coupon (read_coupon s c) q.view.subtotal now) _ s0 o s' r0 in
    let (o', s2, wrote, r2) = bind_inv (write_new_order config req c q now) _ s1 o s' r1 in
    placed q s0 s1 s2 o' still checked counted wrote r2
  where
    placed :
        (q : Quote) (s0 s1 s2 : Shop) (o' : Order)
        → s0 ≡ s
        → Priced req c now s q
        → use_coupon (read_coupon s c) q.view.subtotal now s0 ≡ ok (tt, s1)
        → write_new_order config req c q now s1 ≡ ok (o', s2)
        → (write_lines o'.id
                (groups_now c now s)
                (order_items (load_items s c) (groups_now c now s) q.view.discount_total)
              >> (in_store (attach_receipt req c.id o'.id now)
                  >> (in_store (
                        reserve_stock
                          (stock_lines (select is_available (load_items s c)))
                          (ttl_minutes config req.method)
                          o'.id
                          now)
                      >> pure o')))
            s2
          ≡ ok (o, s')
        → Placed config req c now s o s'
    placed q s0 s1 s2 o' still checked counted wrote r2 =
        let lines =
          write_lines o'.id (groups_now c now s)
            (order_items (load_items s c) (groups_now c now s) q.view.discount_total) in
        let reserve = in_store (
          reserve_stock (stock_lines (select is_available (load_items s c)))
            (ttl_minutes config req.method) o'.id now) in
        let attach = in_store (attach_receipt req c.id o'.id now) in
        let (u3, s3, listed, r3) =
          bind_inv lines (λ _. attach >> (reserve >> pure o')) s2 o s' r2 in
        let (u4, s4, attached, r4) = bind_inv attach (λ _. reserve >> pure o') s3 o s' r3 in
        let (same, reserved) = last_inv reserve o o' s4 s' r4 in
        rw (sym same) (record {
          q = q;
          priced = checked;
          counted = s1;
          coupon =
              ap (λ x. use_coupon (read_coupon s c) q.view.subtotal now x) (sym still) ∙ counted;
          written = s2;
          wrote = wrote;
          listed = s3;
          lines = listed;
          attached = s4;
          receipt = attached;
          stock = reserved;
        })
