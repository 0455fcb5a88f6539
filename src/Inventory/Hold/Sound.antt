-- ===== src/Inventory/Hold/Sound.antt =====
-- Holding stock keeps the counters sound, and never holds more than there is.
use phone_cases_backend.Prelude.{
  ℕ, ◌++◌, ◌+◌, ◌≤◌, ◌≡◌, Option, some, List, [], ◌∷◌, Option-cases, inl, inr, arith, sum_by-append,
}
use phone_cases_backend.Prelude.Results.{ok, bind_inv}
use phone_cases_backend.Prelude.Tables.{put}
use phone_cases_backend.Inventory.{Inventory, StockItem, Reservation}
use phone_cases_backend.Inventory.Invariant.{IsSound, active_sum-snoc, is_for}
use phone_cases_backend.Inventory.Hold.{
  new_reservation, Holder, StockLine, hold_stock, create_reservation, reserve_line,
  reserve_aggregated,
}

abbrev pub holding : Inventory → ℕ → StockItem → ℕ → Reservation → Inventory
holding s k it q r = record {
  stock = put k (record { on_hand = it.on_hand; reserved = it.reserved + q }) s.stock;
  reservations = s.reservations ++ (r ∷ []);
  movements = s.movements;
  skus = s.skus;
  next_id = s.next_id + 1;
}

pub reserve_line_inv :
    (k q : ℕ) (h : Holder) (x : Option ℕ) (s : Inventory) (r : Reservation) (s' : Inventory)
    → reserve_line k q h x s ≡ ok (r, s')
    → (it : StockItem) × (s.stock k ≡ some it)
      × (it.reserved + q ≤ it.on_hand)
      × (r ≡ new_reservation s k q h x)
      × (s' ≡ holding s k it q r)
unfolding reserve_line hold_stock create_reservation
reserve_line_inv k q h x s r s' e = elim (Option-cases (s.stock k)) [
  | inl gone ↦ ground arith
  | inr (it, there) ↦ (it, there, ground arith, ground arith, ground arith)
]

holding-IsSound :
    (s : Inventory) (k : ℕ) (it : StockItem) (q : ℕ) (h : Holder) (x : Option ℕ)
    → IsSound s
    → s.stock k ≡ some it
    → it.reserved + q ≤ it.on_hand
    → IsSound (holding s k it q (new_reservation s k q h x))
holding-IsSound s k it q h x v there fits = record {
  counted = λ j.
      ground
        (arith, active_sum-snoc j s.reservations (new_reservation s k q h x), v.counted j, there);
  backed = λ j. ground (arith, v.backed j);
  fresh = λ j past. ground (arith, v.fresh j, v.fresh k, there);
  linked = λ j. ground (
    arith,
    sum_by-append (is_for j) s.reservations (new_reservation s k q h x ∷ []),
    v.linked j,
    there,
  );
}

pub reserve_line-IsSound :
    (k q : ℕ) (h : Holder) (x : Option ℕ) (s : Inventory) (r : Reservation) (s' : Inventory)
    → IsSound s
    → reserve_line k q h x s ≡ ok (r, s')
    → IsSound s'
reserve_line-IsSound k q h x s r s' v e =
    let (it, there, fits, made, same) = reserve_line_inv k q h x s r s' e in
    rw (same, made) (holding-IsSound s k it q h x v there fits)

pub reserve_aggregated-IsSound :
    (ls : List StockLine) (h : Holder) (x : Option ℕ) (s : Inventory) (rs : List Reservation)
    (s' : Inventory)
    → IsSound s
    → reserve_aggregated ls h x s ≡ ok (rs, s')
    → IsSound s'
unfolding reserve_aggregated
reserve_aggregated-IsSound [] h x s rs s' v e = ground arith
reserve_aggregated-IsSound (l ∷ ls) h x s rs s' v e =
    let (r, s₁, first, rest) = bind_inv (reserve_line l.stock_item l.quantity h x) _ s rs s' e in
    let (rs₁, s₂, others, last) = bind_inv (reserve_aggregated ls h x) _ s₁ rs s' rest in
    let same : s₂ ≡ s' = cc in
    rw (← same) (
      reserve_aggregated-IsSound ls h x s₁ rs₁ s₂
        (reserve_line-IsSound l.stock_item l.quantity h x s r s₁ v first) others)
