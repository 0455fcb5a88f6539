-- ===== src/Orders/History/Laws.antt =====
-- The order of histories: it is reflexive and transitive, and holds of a write to one order.
use phone_cases_backend.Prelude.{
  ℕ, ◌≡◌, refl, Option, none, some, ◌==◌, if◌then◌else◌, Bool-cases, inl, inr, arith,
}
use phone_cases_backend.Inventory.Invariant.{IsSound}
use phone_cases_backend.Store.{Store, Order, find_order}
use phone_cases_backend.Refunds.{already_refunded}
use phone_cases_backend.Refunds.Agreement.{Agrees, IsAgreed}
use phone_cases_backend.Orders.History.{Turn, Turns, Continues}

Turn-refl : (o : Order) → Turn o o
Turn-refl o = record {
  same_id = refl;
  same_total = refl;
  same_key = refl;
  same_hash = refl;
  same_cart = refl;
  forward = omega arith;
  delivered_final = λ _. refl;
  stays_settled = λ h. h;
  stays_lawful = λ h. h;
}

Turn-trans : (a b c : Order) → Turn a b → Turn b c → Turn a c
Turn-trans a b c x y = record {
  same_id = cc;
  same_total = cc;
  same_key = cc;
  same_hash = cc;
  same_cart = cc;
  forward = omega arith;
  delivered_final = λ h. ground (arith, x.delivered_final h, y.delivered_final);
  stays_settled = λ h. y.stays_settled (x.stays_settled h);
  stays_lawful = λ h. y.stays_lawful (x.stays_lawful h);
}

pub Turns-refl : (o : Option Order) → Turns o o
Turns-refl none = tt
Turns-refl (some o) = Turn-refl o

Turns-trans : (a b c : Option Order) → Turns a b → Turns b c → Turns a c
Turns-trans none none none x y = tt
Turns-trans (some a) (some b) (some c) x y = Turn-trans a b c x y
Turns-trans none none (some c) x y = absurd y
Turns-trans none (some b) c x y = absurd x
Turns-trans (some a) none c x y = absurd x
Turns-trans (some a) (some b) none x y = absurd y

pub Continues-refl : (s : Store) → Continues s s
Continues-refl s = record {
  orders = λ j. Turns-refl (find_order j s);
  sound = λ v. v;
  agreed = λ v. v;
}

pub Continues-trans : (s t u : Store) → Continues s t → Continues t u → Continues s u
Continues-trans s t u x y = record {
  orders =
      λ j. Turns-trans (find_order j s) (find_order j t) (find_order j u) (x.orders j) (y.orders j);
  sound = λ v. y.sound (x.sound v);
  agreed = λ v. y.agreed (x.agreed v);
}

-- A write that touches no order and no refund.
pub Continues-frame :
    (s t : Store)
    → t.orders ≡ s.orders
    → t.refunds ≡ s.refunds
    → (IsSound s.inventory → IsSound t.inventory)
    → Continues s t
Continues-frame s t orders refunds sound = record {
  orders = λ j. rw orders (Turns-refl (find_order j s));
  sound = sound;
  agreed = λ v id o there. rw refunds (v id o (rw orders at there));
}

-- A write of one order by a turn of it.
pub Turns-write :
    (s t : Store) (id : ℕ) (o o' : Order)
    → find_order id s ≡ some o
    → ((j : ℕ) → find_order j t ≡ (if j == id then some o' else find_order j s))
    → Turn o o'
    → (j : ℕ) → Turns (find_order j s) (find_order j t)
Turns-write s t id o o' there finds turn j = elim (Bool-cases (j == id)) [
  | inl same ↦ let here : j ≡ id = ground arith in rw (finds j, same, here, there) turn
  | inr other ↦ rw (finds j, other) (Turns-refl (find_order j s))
]

-- A write of one order that leaves the refunds alone, where the new status says the same of them.
pub IsAgreed-write :
    (s t : Store) (id : ℕ) (o o' : Order)
    → find_order id s ≡ some o
    → ((j : ℕ) → find_order j t ≡ (if j == id then some o' else find_order j s))
    → t.refunds ≡ s.refunds
    → ((n : ℕ) → Agrees o.payment n o.total → Agrees o'.payment n o'.total)
    → IsAgreed s
    → IsAgreed t
IsAgreed-write s t id o o' there finds refunds keeps v j x found = elim (Bool-cases (j == id)) [
  | inl same ↦
      let here : j ≡ id = ground arith in
      let x_is : x ≡ o' = ground (arith, finds j, same, found) in
      rw (refunds, x_is, here) (keeps (already_refunded id s) (v id o there))
  | inr other ↦
      let old : find_order j s ≡ some x = ground (arith, finds j, other, found) in
      rw refunds (v j x old)
]
