-- ===== src/Refunds/Returns.antt =====
-- Returned units of an order's lines: `recordItemReturn` of
-- src/modules/orders/refunds/refunds.service.ts, on the tables that it reads and writes.
use phone_cases_backend.Prelude.{
  ℕ, ◌+◌, ◌≤◌, ◌≡◌, ◌↔◌, not, Option, none, some, List, [], ◌∷◌, ◌++◌, ltb, ◌==◌, sum_by,
  sum_by-append, if◌then◌else◌, Option-cases, Bool-cases, inl, inr, arith,
}
use phone_cases_backend.Prelude.Results.{Tx, ok, guard, or_throw, ◌>>=◌, ◌>>◌}
use phone_cases_backend.Prelude.Tables.{find_first}
use phone_cases_backend.Store.{AuditEntry, item_return_recorded}
use phone_cases_backend.Errors.{Error, resource_not_found, return_exceeds_purchased_quantity}

pub record OrderItem : Type 0 where
  pub id : ℕ
  pub order : ℕ
  pub quantity : ℕ

pub record ItemReturn : Type 0 where
  pub item : ℕ
  pub quantity : ℕ
  pub staff : ℕ

pub record Lines : Type 0 where
  pub items : List OrderItem
  pub returns : List ItemReturn
  pub audit : List AuditEntry

abbrev pub find_item : ℕ → Lines → Option OrderItem
find_item id s = find_first (λ i. i.id == id) s.items

abbrev pub returned_of : ℕ → ItemReturn → ℕ
returned_of id r = if r.item == id then r.quantity else 0

abbrev pub already_returned : ℕ → Lines → ℕ
already_returned id s = sum_by (returned_of id) s.returns

abbrev item_of_order : ℕ → ℕ → Lines → Option OrderItem
item_of_order order id s = elim (find_item id s) [
  | none ↦ none
  | some i ↦ if i.order == order then some i else none
]

abbrev return_entry : ℕ → ℕ → ℕ → AuditEntry
return_entry id quantity staff = record {
  staff = some staff;
  action = item_return_recorded quantity;
  entity = id;
}

abbrev new_return : ℕ → ℕ → ℕ → ItemReturn
new_return id quantity staff = record { item = id; quantity = quantity; staff = staff }

abbrev with_return : ℕ → ℕ → ℕ → Lines → Lines
with_return id quantity staff s = record s {
  returns = s.returns ++ (new_return id quantity staff ∷ []);
  audit = s.audit ++ (return_entry id quantity staff ∷ []);
}

abbrev write_return : ℕ → ℕ → ℕ → Tx Lines Error ItemReturn
write_return id quantity staff s =
    ok (new_return id quantity staff, with_return id quantity staff s)

-- `recordItemReturn`
unfoldable pub record_item_return : (order id quantity staff : ℕ) → Tx Lines Error ItemReturn
record_item_return order id quantity staff s =
    (do
      i ← or_throw (item_of_order order id s) (resource_not_found id)
      guard (not (ltb i.quantity (already_returned id s + quantity)))
          return_exceeds_purchased_quantity
      write_return id quantity staff)
      s

-- No line has more units returned than it has.
abbrev pub IsReturnable : Lines → Type 0
IsReturnable s =
    (id : ℕ) (i : OrderItem) → find_item id s ≡ some i → already_returned id s ≤ i.quantity

returns-snoc :
    (id : ℕ) (rs : List ItemReturn) (r : ItemReturn)
    → sum_by (returned_of id) (rs ++ (r ∷ [])) ≡ sum_by (returned_of id) rs + returned_of id r
returns-snoc id rs r = omega (arith, sum_by-append (returned_of id) rs (r ∷ []))

-- A return on a line of the order is recorded exactly when the line has enough units left.
pub record_item_return_iff :
    (order id quantity staff : ℕ) (s : Lines) (i : OrderItem)
    → find_item id s ≡ some i
    → i.order ≡ order
    → ((r : ItemReturn) × (t : Lines) × (record_item_return order id quantity staff s ≡ ok (r, t))
        × (already_returned id t ≡ already_returned id s + quantity))
      ↔ (already_returned id s + quantity ≤ i.quantity)
unfolding record_item_return
record_item_return_iff order id quantity staff s i there of_order =
    let sum_is = returns-snoc id s.returns (new_return id quantity staff) in
    (
      λ (r, t, e, sum_). ground (arith, there, of_order, e),
      λ room. (
        new_return id quantity staff,
        with_return id quantity staff s,
        ground (arith, there, of_order, room),
        ground (arith, sum_is),
      ),
    )

-- Recording returns never lets a line have more units returned than it has.
pub record_item_return-IsReturnable :
    (order id quantity staff : ℕ) (s : Lines) (r : ItemReturn) (t : Lines)
    → IsReturnable s
    → record_item_return order id quantity staff s ≡ ok (r, t)
    → IsReturnable t
unfolding record_item_return
record_item_return-IsReturnable order id quantity staff s r t v e j x found =
    elim (Option-cases (find_item id s)) [
      | inl gone ↦ absurd (ground (arith, gone))
      | inr (i, there) ↦
          let fits : already_returned id s + quantity ≤ i.quantity = ground (arith, there) in
          let items : t.items ≡ s.items = ground (arith, there) in
          let returns : t.returns ≡ s.returns ++ (new_return id quantity staff ∷ []) =
            ground (arith, there) in
          let sum_is = returns-snoc j s.returns (new_return id quantity staff) in
          let old : find_item j s ≡ some x = ground (arith, items, found) in
          let before : already_returned j s ≤ x.quantity = v j x old in
          elim (Bool-cases (id == j)) [
            | inl same ↦ ground (arith, sum_is, returns, fits, there, old, same)
            | inr other ↦ ground (arith, sum_is, returns, before, other)
          ]
    ]
