-- ===== src/Inventory/StockItems.antt =====
-- `StockItemsService` of src/modules/inventory/stock-items/stock-items.service.ts: new stock items
-- and manual corrections of their counts.
use phone_cases_backend.Prelude.{
  ℕ, ◌+◌, ◌≤◌, ◌≡◌, Bool, Option, none, some, List, [], ◌∷◌, ◌++◌, ◌==◌, ◌||◌, false, or_else,
  if◌then◌else◌, Option-cases, inl, inr, arith,
}
use phone_cases_backend.Prelude.Int.{ℤ, pos, negsuc, ◌+ℤ◌, ℤ-cases}
use phone_cases_backend.Prelude.Results.{ok, err, Tx}
use phone_cases_backend.Prelude.Tables.{put}
use phone_cases_backend.Errors.{Error, resource_not_found, bad_request, not_unique}
use phone_cases_backend.Inventory.{Inventory, StockItem, Movement, manual}
use phone_cases_backend.Inventory.Invariant.{IsSound}

abbrev is_in : ℕ → List ℕ → Bool
is_in k [] = false
is_in k (x ∷ xs) = x == k || is_in k xs

-- `create`, whose result is the id of the new row.
unfoldable pub create : ℕ → Option ℕ → Tx Inventory Error ℕ
create sku on_hand s =
    if is_in sku s.skus
    then err not_unique
    else ok (
      s.next_id,
      record s {
        stock = put s.next_id (record { on_hand = or_else on_hand 0; reserved = 0 }) s.stock;
        skus = sku ∷ s.skus;
        next_id = s.next_id + 1;
      },
    )

abbrev correction : ℕ → ℤ → ℕ → Option ℕ → Movement
correction k delta reason staff = record {
  stock_item = k;
  delta = delta;
  reason = manual reason;
  staff = staff;
}

-- The conditional UPDATE of `adjust`, on the new count.
abbrev set_on_hand : ℕ → StockItem → ℤ → Movement → Tx Inventory Error StockItem
set_on_hand k it (negsuc n) m s = err bad_request
set_on_hand k it (pos n) m s =
    let it' = record it { on_hand = n } in
    ok (it', record s { stock = put k it' s.stock; movements = s.movements ++ (m ∷ []) })

unfoldable pub adjust : ℕ → ℤ → ℕ → Option ℕ → Tx Inventory Error StockItem
adjust k delta reason staff s = elim (s.stock k) [
  | none ↦ err (resource_not_found k)
  | some it ↦ set_on_hand k it (pos it.on_hand +ℤ delta) (correction k delta reason staff) s
]

pub create-IsSound :
    (sku : ℕ) (on_hand : Option ℕ) (s : Inventory) (k : ℕ) (s' : Inventory)
    → IsSound s
    → create sku on_hand s ≡ ok (k, s')
    → IsSound s'
unfolding create
create-IsSound sku on_hand s k s' v e =
    let new : is_in sku s.skus ≡ false = ground arith in
    record {
      counted = λ j. ground (arith, v.counted j, v.fresh j, new);
      backed = λ j. ground (arith, v.backed j, new);
      fresh = λ j past. ground (arith, v.fresh j, new);
      linked = λ j. ground (arith, v.linked j, v.fresh j, new);
    }

adjust_inv :
    (k : ℕ) (delta : ℤ) (reason : ℕ) (staff : Option ℕ) (s : Inventory) (it : StockItem)
    (s' : Inventory)
    → adjust k delta reason staff s ≡ ok (it, s')
    → (old : StockItem) × (s.stock k ≡ some old)
      × (pos it.on_hand ≡ pos old.on_hand +ℤ delta)
      × (it.reserved ≡ old.reserved)
      × (s' ≡ record s {
        stock = put k it s.stock;
        movements = s.movements ++ (correction k delta reason staff ∷ []);
      })
unfolding adjust
adjust_inv k delta reason staff s it s' e = elim (Option-cases (s.stock k)) [
  | inl gone ↦ absurd (ground (arith, gone))
  | inr (old, there) ↦ elim (ℤ-cases (pos old.on_hand +ℤ delta)) [
    | inl (n, whole) ↦ (
      old,
      there,
      ground (arith, there, whole),
      ground (arith, there, whole),
      ground (arith, there, whole),
    )
    | inr (n, below) ↦ absurd (ground (arith, there, below))
  ]
]

-- A correction that leaves enough for the active reservations keeps the counters sound.
pub adjust-IsSound :
    (k : ℕ) (delta : ℤ) (reason : ℕ) (staff : Option ℕ) (s : Inventory) (it : StockItem)
    (s' : Inventory)
    → IsSound s
    → adjust k delta reason staff s ≡ ok (it, s')
    → it.reserved ≤ it.on_hand
    → IsSound s'
adjust-IsSound k delta reason staff s it s' v e enough =
    let (old, there, whole, kept, same) = adjust_inv k delta reason staff s it s' e in
    rw same (record {
      counted = λ j. ground (arith, v.counted j, v.counted k, there, kept);
      backed = λ j. ground (arith, v.backed j);
      fresh = λ j past. ground (arith, v.fresh j, v.fresh k, there);
      linked = λ j. ground (arith, v.linked j, there);
    })
