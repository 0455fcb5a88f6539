-- ===== src/Checkout/Creation/Found.antt =====
-- The order that a request has made, as retries find it.
use phone_cases_backend.Prelude.{
  ℕ, ◌≤◌, ◌≡◌, refl, sym, ap, ◌∙◌, Bool, true, false, none, some, List, [], ◌∷◌, ◌++◌, ◌==◌,
  is_some, sum_by, Option-cases, ◌⊎◌, inl, inr, if◌then◌else◌, arith,
}
use phone_cases_backend.Prelude.Results.{Result, ok, err}
use phone_cases_backend.Prelude.Tables.{find_first, update_where, update_where_row}
use phone_cases_backend.Errors.{Error, idempotency_key_reused, cart_already_ordered}
use phone_cases_backend.Store.{Order}
use phone_cases_backend.Checkout.{Cart, Shop, find_cart}
use phone_cases_backend.Checkout.Creation.{
  Request, Config, has_key, is_of_cart, is_replay, Serving.has_made, is_claimable, as_ordered,
  Serving.made_order, Serving.by_key, lost_claim, place_order, create_in_transaction, Rows.IsNew,
  Rows.place_order_lem,
}

-- Every key is of one order at most: `idempotencyKey` is a unique column.
abbrev pub HasUniqueKeys : Shop → Type 0
HasUniqueKeys s = (k : ℕ) → sum_by (λ o. if has_key k o then 1 else 0) s.store.orders ≤ 1

-- The order that the request has made, as a retry looks for it.
abbrev pub Made : ℕ → Request → Order → Shop → Type 0
Made cart req o s = (by_key req s ≡ some o) × (is_replay cart req o ≡ true)

pub found-is :
    (p : Order → Bool) (os : List Order) (o : Order) → find_first p os ≡ some o → p o ≡ true
found-is p [] o e = cc
found-is p (x ∷ xs) o e = ground (arith, found-is p xs o, e)

-- Where one order at most passes a test, an order that any look-up finds and that passes it is the one
-- that the test finds.
found-counts :
    (p q : Order → Bool) (os : List Order) (o : Order)
    → find_first p os ≡ some o
    → q o ≡ true
    → 1 ≤ sum_by (λ x. if q x then 1 else 0) os
found-counts p q [] o e h = cc
found-counts p q (x ∷ xs) o e h = ground (arith, found-counts p q xs o, e, h)

pub found-by :
    (p q : Order → Bool) (os : List Order) (o : Order)
    → sum_by (λ x. if q x then 1 else 0) os ≤ 1
    → find_first p os ≡ some o
    → q o ≡ true
    → find_first q os ≡ some o
found-by p q [] o once e h = cc
found-by p q (x ∷ xs) o once e h =
    ground (arith, found-by p q xs o, found-counts p q xs o, once, e, h)

-- An order of this cart that this request has made, found by its cart.
abbrev pub Own : ℕ → Request → Order → Shop → Type 0
Own cart req o s = (find_first (is_of_cart cart) s.store.orders ≡ some o) × (has_made req o ≡ true)

pub Own-Made :
    (cart : ℕ) (req : Request) (o : Order) (s : Shop)
    → Own cart req o s
    → HasUniqueKeys s
    → Made cart req o s
Own-Made cart req o s (found, made) unique =
    let here : is_of_cart cart o ≡ true = found-is (is_of_cart cart) s.store.orders o found in
    (
      found-by (is_of_cart cart) (has_key req.idempotency_key) s.store.orders o
          (unique req.idempotency_key) found (ground (arith, made)),
      ground (arith, made, here),
    )

pub made_order_inv :
    (cart : ℕ) (req : Request) (s : Shop) (o : Order)
    → made_order cart req s ≡ some o
    → Own cart req o s
made_order_inv cart req s o e = elim (Option-cases (find_first (is_of_cart cart) s.store.orders)) [
  | inl gone ↦ absurd (ground (arith, e, gone))
  | inr (x, found) ↦ own x found (ground (arith, e, found))
]
  where
    own :
        (x : Order)
        → find_first (is_of_cart cart) s.store.orders ≡ some x
        → (if has_made req x then some x else none) ≡ some o
        → Own cart req o s
    own x found p =
        let made : has_made req x ≡ true = ground (arith, p) in
        let same : x ≡ o = ground (arith, p, made) in rw (sym same) (found, made)

both_inv :
    (b d : Bool) (x o : Order) (s t : Shop)
    → if◌then◌else◌ {A = Result Error (Order × Shop)} b
        (if◌then◌else◌ {A = Result Error (Order × Shop)} d (ok (x, s)) (err idempotency_key_reused))
        (err cart_already_ordered)
      ≡ ok (o, t)
    → (b ≡ true) × (d ≡ true) × (x ≡ o) × (t ≡ s)
both_inv true true x o s t e = (refl, refl, cc, cc)
both_inv true false x o s t e = cc
both_inv false d x o s t e = cc

pub lost_claim_inv :
    (cart : ℕ) (req : Request) (s t : Shop) (o : Order)
    → lost_claim cart req s ≡ ok (o, t)
    → (t ≡ s) × Own cart req o s
unfolding lost_claim
lost_claim_inv cart req s t o e = elim (Option-cases (find_cart cart s)) [
  | inl gone ↦ absurd (ground (arith, e, gone))
  | inr (c, there) ↦ elim (Option-cases (find_first (is_of_cart cart) s.store.orders)) [
    | inl none_ ↦ absurd (ground (arith, e, there, none_))
    | inr (x, found) ↦
        let (key, hash, same, still) =
          both_inv (x.idempotency_key == req.idempotency_key) (x.request_hash == req.request_hash) x
            o s t (sym (value c there x found) ∙ e) in
        (still, rw (sym same) (found, ground (arith, key, hash)))
  ]
]
  where
    value :
        (c : Cart)
        → find_cart cart s ≡ some c
        → (x : Order) → find_first (is_of_cart cart) s.store.orders ≡ some x
        → lost_claim cart req s
          ≡ if◌then◌else◌ {A = Result Error (Order × Shop)}
              (x.idempotency_key == req.idempotency_key)
              (if◌then◌else◌ {A = Result Error (Order × Shop)}
                (x.request_hash == req.request_hash)
                (ok (x, s))
                (err idempotency_key_reused))
              (err cart_already_ordered)
    value c there x found = rw (there, found, lost_claim) refl

find_first-append :
    (p : Order → Bool) (os : List Order) (o : Order)
    → is_some (find_first p os) ≡ false
    → p o ≡ true
    → find_first p (os ++ (o ∷ [])) ≡ some o
find_first-append p [] o none_ h = ground (arith, h)
find_first-append p (x ∷ xs) o none_ h = ground (arith, find_first-append p xs o, none_, h)

new-Made :
    (req : Request) (c : Cart) (o : Order) (s t : Shop)
    → IsNew req c o s.store.orders t.store.orders
    → Made c.id req o t
new-Made req c o s t (orders, free, key, hash, cart) = (
  ap (find_first (has_key req.idempotency_key)) orders
      ∙ find_first-append (has_key req.idempotency_key) s.store.orders o (ground (arith, free))
          (ground (arith, key)),
  ground (arith, hash, cart),
)

claimed_is :
    (cart : ℕ) (s : Shop) (c : Cart) (cs : List Cart)
    → update_where (is_claimable cart) as_ordered s.carts ≡ some (c, cs)
    → c.id ≡ cart
claimed_is cart s c cs e =
    let (r, claimable, same, totals) =
      update_where_row (is_claimable cart) as_ordered s.carts c cs e in
    ap (λ x. x.id) same ∙ ground (arith, claimable)

-- A cart that is claimed was active, and is ordered from then on; the others are as they were.
pub lost_or_placed :
    (config : Config) (cart : ℕ) (req : Request) (now : ℕ) (s t : Shop) (o : Order)
    → create_in_transaction config cart req now s ≡ ok (o, t)
    → ((t ≡ s) × Own cart req o s)
      ⊎ ((c : Cart) × (cs : List Cart) × (update_where (is_claimable cart) as_ordered s.carts
            ≡ some (c, cs))
          × (c.id ≡ cart)
          × (place_order config req c now (record s { carts = cs }) ≡ ok (o, t)))
unfolding create_in_transaction
lost_or_placed config cart req now s t o e =
    elim (Option-cases (update_where (is_claimable cart) as_ordered s.carts)) [
      | inl gone ↦ inl (lost_claim_inv cart req s t o (sym (lost gone) ∙ e))
      | inr ((c, cs), claimed) ↦
          inr (c, cs, claimed, claimed_is cart s c cs claimed, sym (placed c cs claimed) ∙ e)
    ]
  where
    lost :
        update_where (is_claimable cart) as_ordered s.carts ≡ none
        → create_in_transaction config cart req now s ≡ lost_claim cart req s
    lost gone = rw (gone, create_in_transaction) refl

    placed :
        (c : Cart) (cs : List Cart)
        → update_where (is_claimable cart) as_ordered s.carts ≡ some (c, cs)
        → create_in_transaction config cart req now s
          ≡ place_order config req c now (record s { carts = cs })
    placed c cs claimed = rw (claimed, create_in_transaction) refl

pub create_in_transaction-Made :
    (config : Config) (cart : ℕ) (req : Request) (now : ℕ) (s t : Shop) (o : Order)
    → create_in_transaction config cart req now s ≡ ok (o, t)
    → HasUniqueKeys t
    → Made cart req o t
create_in_transaction-Made config cart req now s t o e unique =
    elim (lost_or_placed config cart req now s t o e) [
      | inl (still, own) ↦ Own-Made cart req o t (rw still own) unique
      | inr (c, cs, claimed, same, placed) ↦
          let (expected, carts, fresh, items, rows, grown, of, fits) =
            place_order_lem config req c now (record s { carts = cs }) o t placed in
          rw (sym same) (new-Made req c o s t fresh)
    ]
