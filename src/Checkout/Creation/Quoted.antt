-- ===== src/Checkout/Creation/Quoted.antt =====
-- An order against the quote that its customer has seen, and the uses of its coupon.
use phone_cases_backend.Prelude.{
  ℕ, ◌≡◌, ◌↔◌, refl, sym, ap, ◌∙◌, Bool, true, false, not, ◌||◌, Option, none, some, leb, ◌==◌,
  is_some, is_some_and, Option-cases, inl, inr, if◌then◌else◌, arith,
}
use phone_cases_backend.Prelude.Results.{Result, ok, err, guard}
use phone_cases_backend.Prelude.Tables.{Table, put}
use phone_cases_backend.Errors.{Error, shipping_rate_not_available, coupon_not_applicable}
use phone_cases_backend.Store.{Coupon}
use phone_cases_backend.Pricing.Coupons.{find_coupon_validity_error}
use phone_cases_backend.Checkout.{
  Cart, ShippingRate, Shop, Quote, find_cart, load_items, priced_cart, resolve_rate, quote_at,
  quote,
}
use phone_cases_backend.Checkout.Creation.{
  Request, is_empty, any_unavailable, price_checks, price_order, use_coupon, count_use, below_limit,
  used_once_more, with_coupon, Placed.Priced, Placed.price_order_inv,
}

quote_value :
    (c : Cart) (rate country now : ℕ) (s : Shop) (r : ShippingRate)
    → find_cart c.id s ≡ some c
    → resolve_rate rate country s.rates ≡ some r
    → quote c.id rate country now s ≡ ok (quote_at (priced_cart now s c) (load_items s c) r)
unfolding quote
quote_value c rate country now s r there found = rw (there, found, quote) refl

price_value :
    (req : Request) (c : Cart) (now : ℕ) (s : Shop) (q : Quote)
    → Priced req c now s q
    → price_order req c now s ≡ ok (q, s)
unfolding price_order
price_value req c now s q (empty, there, r, found, same, expected) =
    passes (is_empty (load_items s c)) (any_unavailable (load_items s c))
      (resolve_rate req.rate req.country s.rates) (quote_at (priced_cart now s c) (load_items s c))
      r empty there found same expected
  where
    passes :
        (e u : Bool) (o : Option ShippingRate) (quoted : ShippingRate → Quote) (x : ShippingRate)
        → e ≡ false
        → u ≡ false
        → o ≡ some x
        → q ≡ quoted x
        → (quoted x).total ≡ req.expected_total
        → price_checks e u o quoted req.expected_total s ≡ ok (q, s)
    passes true u o quoted x pe pu po pq pt = cc
    passes false true o quoted x pe pu po pq pt = cc
    passes false false none quoted x pe pu po pq pt = cc
    passes false false (some y) quoted x pe pu po pq pt =
        let same_rate : y ≡ x = cc in
        let hit : ((quoted x).total == req.expected_total) ≡ true = ground (arith, pt) in
        rw (same_rate, pq, hit, guard) refl

quote_inv :
    (c : Cart) (rate country now : ℕ) (s : Shop) (q : Quote)
    → find_cart c.id s ≡ some c
    → quote c.id rate country now s ≡ ok q
    → (r : ShippingRate) × (resolve_rate rate country s.rates ≡ some r)
      × (q ≡ quote_at (priced_cart now s c) (load_items s c) r)
unfolding quote
quote_inv c rate country now s q there e = elim (Option-cases (resolve_rate rate country s.rates)) [
  | inl none_ ↦ absurd (refused (rw (there, none_, quote) refl) e)
  | inr (r, found) ↦ (
    r,
    found,
    same (quote_at (priced_cart now s c) (load_items s c) r)
        (sym (quote_value c rate country now s r there found) ∙ e),
  )
]
  where
    refused :
        quote c.id rate country now s ≡ err shipping_rate_not_available
        → quote c.id rate country now s ≡ ok q
        → ⊥
    refused a b = cc

    same : (q' : Quote) → ◌≡◌ {A = Result Error Quote} (ok q') (ok q) → q ≡ q'
    same q' p = cc

-- An order is priced exactly as quoted: for a cart as it stands in the shop, the price of an order
-- goes through, with no change, exactly when the quote for the same rate and country is that price,
-- the cart has items, none of them has an issue, and the total is the one that was confirmed.
pub price_order_iff :
    (req : Request) (c : Cart) (now : ℕ) (s : Shop) (q : Quote)
    → find_cart c.id s ≡ some c
    → (price_order req c now s ≡ ok (q, s)) ↔ (
        (quote c.id req.rate req.country now s ≡ ok q)
        × (is_empty (load_items s c) ≡ false)
        × (q.issues ≡ 0)
        × (q.total ≡ req.expected_total))
price_order_iff req c now s q there = (
  λ e.
      (let (still, (empty, available, r, found, same, expected)) =
          price_order_inv req c now s s q e in
        (
          quote_value c req.rate req.country now s r there found ∙ ap ok (sym same),
          empty,
          ap (λ x. x.issues) same ∙ ground (arith, available),
          ap (λ x. x.total) same ∙ expected,
        )),
  λ (quoted, empty, issues, total).
      (let (r, found, same) = quote_inv c req.rate req.country now s q there quoted in
        price_value req c now s q (
          empty,
          ground (arith, sym (ap (λ x. x.issues) same) ∙ issues),
          r,
          found,
          same,
          sym (ap (λ x. x.total) same) ∙ total,
        )),
)

abbrev is_within : Coupon → Bool
is_within c = not (is_some c.usage_limit) || is_some_and (λ n. leb c.usage_count n) c.usage_limit

abbrev all_within : Option Coupon → Bool
all_within none = true
all_within (some c) = is_within c

-- No coupon has been used more often than its limit allows.
abbrev pub IsWithinLimits : Table Coupon → Type 0
IsWithinLimits coupons = (id : ℕ) → all_within (coupons id) ≡ true

checked_inv :
    (b : Bool) (x : Error) (r : Result Error (Unit {0} × Shop)) (t : Shop)
    → if◌then◌else◌ {A = Result Error (Unit {0} × Shop)} b (err x) r ≡ ok (tt, t)
    → (b ≡ false) × (r ≡ ok (tt, t))
checked_inv true x r t e = cc
checked_inv false x r t e = (refl, e)

-- A use that is counted found the coupon below its limit.
count_use_inv :
    (id : ℕ) (s t : Shop)
    → count_use id s ≡ ok (tt, t)
    → (c : Coupon) × (s.store.coupons id ≡ some c)
      × (below_limit c ≡ true)
      × (t ≡ with_coupon id (used_once_more c) s)
unfolding count_use
count_use_inv id s t e = elim (Option-cases (s.store.coupons id)) [
  | inl gone ↦ absurd (ground (arith, e, gone))
  | inr (c, found) ↦
      let below : below_limit c ≡ true = ground (arith, e, found) in
      (c, found, below, ground (arith, e, found, below))
]

-- However the row of the coupon has changed since the transaction read it: a use that goes through
-- was of a coupon that was valid for the subtotal as it was read; it is counted on the row as it is,
-- and no coupon is taken past its limit, if none was before.
pub use_coupon-IsWithinLimits :
    (id subtotal now : ℕ) (seen : Coupon) (s t : Shop)
    → IsWithinLimits s.store.coupons
    → use_coupon (some (id, seen)) subtotal now s ≡ ok (tt, t)
    → IsWithinLimits t.store.coupons
      × (find_coupon_validity_error seen subtotal now ≡ none)
      × (c : Coupon) × (s.store.coupons id ≡ some c)
      × (t.store.coupons id ≡ some (used_once_more c))
unfolding use_coupon
use_coupon-IsWithinLimits id subtotal now seen s t within e =
    let (valid, counted) =
      checked_inv (is_some (find_coupon_validity_error seen subtotal now)) coupon_not_applicable
        (count_use id s) t e in
    let (c, found, below, after) = count_use_inv id s t counted in
    let coupons : t.store.coupons ≡ put id (used_once_more c) s.store.coupons =
      ap (λ x. x.store.coupons) after in
    (
      rw coupons (λ j. ground (arith, below, within j)),
      ground (arith, valid),
      c,
      found,
      ap (λ x. x id) coupons ∙ ground arith,
    )
