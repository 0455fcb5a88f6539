-- ===== src/Checkout/Creation/Replay.antt =====
-- Retries of a request that has been served, and requests that are refused.
use phone_cases_backend.Prelude.{
  ℕ, ◌≡◌, refl, sym, ap, ◌∙◌, Bool, true, false, Option, none, some, sum_by, ◌≤◌, ◌==◌, ==_refl,
  if◌then◌else◌,
}
use phone_cases_backend.Prelude.Results.{Result, ok, err, commit}
use phone_cases_backend.Prelude.Tables.{find_first}
use phone_cases_backend.Errors.{Error, bad_request, idempotency_key_reused}
use phone_cases_backend.Checkout.Creation.Later.{Later, Later-Stays}
use phone_cases_backend.Store.{
  has_id, find_order, Order, Receipt, PaymentMethod, cash_on_delivery, instapay_manual,
}
use phone_cases_backend.Receipts.{find_owned_unattached}
use phone_cases_backend.Checkout.{Shop}
use phone_cases_backend.Checkout.Creation.{
  Request, Config, has_key, is_replay, Serving.made_order, Serving.by_key, Serving.replay,
  Serving.is_not_unique, Serving.is_already_attached, Serving.recover, Serving.after_look_up,
  Serving.check_method, Serving.check_request, create_in_transaction, Serving.settle_creation,
  Serving.create_new_order, Serving.create_order,
}
use phone_cases_backend.Checkout.Creation.Found.{
  HasUniqueKeys, Made, Own-Made, found-is, found-by, made_order_inv, create_in_transaction-Made,
}

-- The primary key of `orders`.
abbrev pub HasUniqueIds : Shop → Type 0
HasUniqueIds s = (k : ℕ) → sum_by (λ o. if has_id k o then 1 else 0) s.store.orders ≤ 1

own_inv :
    (b : Bool) (x : Error) (o o' : Order) (s t : Shop)
    → ◌≡◌ {A = Result Error Order × Shop} (if b then ok o' else err x, s) (ok o, t)
    → (b ≡ true) × (o' ≡ o) × (t ≡ s)
own_inv true x o o' s t e = (refl, cc, cc)
own_inv false x o o' s t e = cc

replay_inv :
    (cart : ℕ) (req : Request) (r : Option Order) (o : Order) (s t : Shop)
    → ◌≡◌ {A = Result Error Order × Shop} (replay cart req r, s) (ok o, t)
    → (r ≡ some o) × (is_replay cart req o ≡ true) × (t ≡ s)
replay_inv cart req none o s t e = cc
replay_inv cart req (some x) o s t e =
    let (own, same, still) = own_inv (is_replay cart req x) idempotency_key_reused o x s t e in
    (ap some same, ap (is_replay cart req) (sym same) ∙ own, still)

refused_inv :
    (b : Bool) (x : Error) (r : Result Error Order) (o : Order) (s t : Shop)
    → if◌then◌else◌ {A = Result Error Order × Shop} b (r, s) (err x, s) ≡ (ok o, t)
    → ◌≡◌ {A = Result Error Order × Shop} (r, s) (ok o, t)
refused_inv true x r o s t e = e
refused_inv false x r o s t e = cc

settle_creation-Made :
    (config : Config) (cart : ℕ) (req : Request) (now : ℕ) (s t : Shop) (o : Order)
    → settle_creation cart req (commit (create_in_transaction config cart req now) s) ≡ (ok o, t)
    → HasUniqueKeys t
    → Made cart req o t
settle_creation-Made config cart req now s t o e unique =
    go (create_in_transaction config cart req now s) refl e
  where
    go :
        (r : Result Error (Order × Shop))
        → create_in_transaction config cart req now s ≡ r
        → settle_creation cart req (elim r as (λ _. Result Error Order × Shop) [
          | ok (x, s') ↦ (ok x, s')
          | err x ↦ (err x, s)
        ])
          ≡ (ok o, t)
        → Made cart req o t
    go (ok (x, s')) ran p =
        let same : x ≡ o = cc in
        let orders : t.store.orders ≡ s'.store.orders = ap (λ r. r.1.store.orders) (sym p) in
        let (found, own) = create_in_transaction-Made config cart req now s s' x ran (λ k.
          rw (ap (λ os. sum_by (λ y. if has_key k y then 1 else 0) os) (sym orders)) (unique k)) in
        (
          ap (λ os. find_first (has_key req.idempotency_key) os) orders ∙ found ∙ ap some same,
          ap (λ y. is_replay cart req y) (sym same) ∙ own,
        )
    go (err x) ran p =
        let (found, own, still) =
          replay_inv cart req (by_key req s) o s t
            (refused_inv (is_not_unique x) x (replay cart req (by_key req s)) o s t p) in
        rw still (found, own)

-- A valid request gets on with the transaction.
valid_inv :
    (b : Bool) (x : Error) (r : Result Error Order × Shop) (o : Order) (s t : Shop)
    → if◌then◌else◌ {A = Result Error Order × Shop} b r (err x, s) ≡ (ok o, t)
    → r ≡ (ok o, t)
valid_inv true x r o s t e = e
valid_inv false x r o s t e = cc

recover_inv :
    (x : Error) (made : Option Order) (o : Order) → recover x made ≡ ok (some o) → made ≡ some o
recover_inv x none o e = cc
recover_inv x (some y) o e = ap some (go (is_already_attached x) e)
  where
    go :
        (b : Bool)
        → if◌then◌else◌ {A = Result Error (Option Order)} b (ok (some y)) (err x) ≡ ok (some o)
        → y ≡ o
    go true p = cc
    go false p = cc

after_look_up_inv :
    (r : Result Error Receipt) (made : Option Order) (o : Order)
    → after_look_up r made ≡ ok (some o)
    → made ≡ some o
after_look_up_inv (ok r) made o e = cc
after_look_up_inv (err x) made o e = recover_inv x made o e

check_method_inv :
    (m : PaymentMethod) (receipt : Option ℕ) (look_up : ℕ → Result Error Receipt)
    (made : Option Order) (o : Order)
    → check_method m receipt look_up made ≡ ok (some o)
    → made ≡ some o
check_method_inv cash_on_delivery none look_up made o e = cc
check_method_inv cash_on_delivery (some r) look_up made o e = cc
check_method_inv instapay_manual none look_up made o e = cc
check_method_inv instapay_manual (some r) look_up made o e = after_look_up_inv (look_up r) made o e

when_inv :
    (b : Bool) (x : Error) (r : Result Error (Option Order)) (o : Order)
    → if◌then◌else◌ {A = Result Error (Option Order)} b r (err x) ≡ ok (some o)
    → r ≡ ok (some o)
when_inv true x r o e = e
when_inv false x r o e = cc

check_request_inv :
    (cart : ℕ) (req : Request) (now : ℕ) (s : Shop) (o : Order)
    → check_request cart req now s ≡ ok (some o)
    → made_order cart req s ≡ some o
unfolding check_request
check_request_inv cart req now s o e =
    check_method_inv req.method req.receipt (λ r. find_owned_unattached cart r now s.store)
      (made_order cart req s) o
      (when_inv req.has_valid_note bad_request
        (check_method req.method req.receipt (λ r. find_owned_unattached cart r now s.store)
          (made_order cart req s))
        o e)

create_new_order-Made :
    (config : Config) (cart : ℕ) (req : Request) (now : ℕ) (meanwhile : Shop → Shop) (s t : Shop)
    (o : Order)
    → create_new_order config cart req now meanwhile s ≡ (ok o, t)
    → HasUniqueKeys t
    → Made cart req o t
unfolding create_new_order
create_new_order-Made config cart req now meanwhile s t o e unique =
    go (check_request cart req now s) refl e
  where
    go :
        (r : Result Error (Option Order))
        → check_request cart req now s ≡ r
        → (elim r as (λ _. Result Error Order × Shop) [
          | err x ↦ (err x, s)
          | ok (some y) ↦ (ok y, s)
          | ok none ↦
              if req.has_valid_phone
              then settle_creation cart req
                  (commit (create_in_transaction config cart req now) (meanwhile s))
              else (err bad_request, s)
        ])
          ≡ (ok o, t)
        → Made cart req o t
    go (err x) checked p = cc
    go (ok (some y)) checked p =
        let same : y ≡ o = cc in
        let still : t ≡ s = cc in
        let own =
          made_order_inv cart req s o (check_request_inv cart req now s y checked ∙ ap some same) in
        Own-Made cart req o t (rw still own) unique
    go (ok none) checked p =
        settle_creation-Made config cart req now (meanwhile s) t o
          (valid_inv req.has_valid_phone bad_request
            (settle_creation cart req
              (commit (create_in_transaction config cart req now) (meanwhile s)))
            o s t p)
          unique

create_order-Made :
    (config : Config) (cart : ℕ) (req : Request) (now : ℕ) (before meanwhile : Shop → Shop)
    (s t : Shop) (o : Order)
    → create_order config cart req now before meanwhile s ≡ (ok o, t)
    → HasUniqueKeys t
    → Made cart req o t
unfolding create_order
create_order-Made config cart req now before meanwhile s t o e unique = go (by_key req s) refl e
  where
    go :
        (r : Option Order)
        → by_key req s ≡ r
        → (elim r as (λ _. Result Error Order × Shop) [
          | some x ↦ (replay cart req (some x), s)
          | none ↦ create_new_order config cart req now meanwhile (before s)
        ])
          ≡ (ok o, t)
        → Made cart req o t
    go none looked p = create_new_order-Made config cart req now meanwhile (before s) t o p unique
    go (some x) looked p =
        let (found, own, still) = replay_inv cart req (some x) o s t p in
        rw still (looked ∙ found, own)

-- A request that has been served is idempotent: whatever it went through, in whatever order others
-- committed meanwhile, and whatever they have committed since, the retry changes nothing and returns
-- the same order, as it has become by then, if the keys and ids of the orders are unique.
pub create_order-replays :
    (config config' : Config) (cart : ℕ) (req : Request) (now now' : ℕ)
    (before meanwhile before' meanwhile' : Shop → Shop) (s t u : Shop) (o : Order)
    → HasUniqueKeys t
    → HasUniqueIds t
    → HasUniqueKeys u
    → create_order config cart req now before meanwhile s ≡ (ok o, t)
    → Later t u
    → (o' : Order) × (find_order o.id u.store ≡ some o')
      × (create_order config' cart req now' before' meanwhile' u ≡ (ok o', u))
unfolding create_order
create_order-replays config config' cart req now now' before meanwhile before' meanwhile' s t u o
      unique ids unique' e since =
    let (found, own) = create_order-Made config cart req now before meanwhile s t o e unique in
    let there : find_order o.id t.store ≡ some o =
      found-by (has_key req.idempotency_key) (has_id o.id) t.store.orders o (ids o.id) found
        (==_refl o.id) in
    let (o', there', (key, hash, of)) = Later-Stays o.id o since there in
    let by : has_key req.idempotency_key o ≡ true =
      found-is (has_key req.idempotency_key) t.store.orders o found in
    let found' : by_key req u ≡ some o' =
      found-by (has_id o.id) (has_key req.idempotency_key) u.store.orders o'
        (unique' req.idempotency_key) there' (ap (λ k. k == req.idempotency_key) key ∙ by) in
    let own' : is_replay cart req o' ≡ true = rw (hash, of) own in
    (o', there', rw (found', own', create_order, replay) refl)
