-- ===== src/Inventory/Invariant.antt =====
-- What holds of the stock counters between two transactions: `reserved` is the total of the active
-- reservations, and is covered by `onHand`.
use phone_cases_backend.Prelude.{
  ℕ, ◌+◌, ◌≤◌, ◌≡◌, ◌&&◌, Option, none, some, List, [], ◌∷◌, ◌++◌, ◌==◌, if◌then◌else◌, sum_by,
  sum_by-append, arith,
}
use phone_cases_backend.Inventory.{Inventory, StockItem, Reservation, is_active}

-- What one reservation holds of a stock item.
abbrev pub held : ℕ → Reservation → ℕ
held k r = if is_active r.status && r.stock_item == k then r.quantity else 0

abbrev pub active_sum : ℕ → List Reservation → ℕ
active_sum k rs = sum_by (held k) rs

abbrev pub Counts : Option StockItem → ℕ → Type 0
Counts none n = n ≡ 0
Counts (some it) n = it.reserved ≡ n

abbrev pub Backs : Option StockItem → Type 0
Backs none = Unit
Backs (some it) = it.reserved ≤ it.on_hand

-- Whether a reservation is for a stock item: 1 or 0.
abbrev pub is_for : ℕ → Reservation → ℕ
is_for k r = if r.stock_item == k then 1 else 0

-- The foreign key of the table: a stock item that does not exist has no reservation.
abbrev pub Links : Option StockItem → ℕ → Type 0
Links none n = n ≡ 0
Links (some it) n = Unit

-- Every counter is the total of the active reservations; none holds stock that does not exist.
abbrev pub IsCounted : Inventory → Type 0
IsCounted s = (k : ℕ) → Counts (s.stock k) (active_sum k s.reservations)

abbrev pub IsBacked : Inventory → Type 0
IsBacked s = (k : ℕ) → Backs (s.stock k)

pub record IsSound (s : Inventory) : Type 0 where
  pub counted : IsCounted s
  pub backed : IsBacked s
  pub fresh : (k : ℕ) → s.next_id ≤ k → s.stock k ≡ none
  pub linked : (k : ℕ) → Links (s.stock k) (sum_by (is_for k) s.reservations)

pub active_sum-snoc :
    (k : ℕ) (rs : List Reservation) (r : Reservation)
    → active_sum k (rs ++ (r ∷ [])) ≡ active_sum k rs + held k r
active_sum-snoc k rs r = omega (arith, sum_by-append (held k) rs (r ∷ []))

-- A quantity of stock item `k`, seen from stock item `j`.
abbrev pub of_item : ℕ → ℕ → ℕ → ℕ
of_item k q j = if k == j then q else 0

-- The table `rs'` is `rs` with one hold of `q` on `k` less, and no row lost.
abbrev pub Frees : List Reservation → List Reservation → ℕ → ℕ → Type 0
Frees rs rs' k q =
    (j : ℕ)
    → (active_sum j rs ≡ active_sum j rs' + of_item k q j)
      × (sum_by (is_for j) rs ≡ sum_by (is_for j) rs')
