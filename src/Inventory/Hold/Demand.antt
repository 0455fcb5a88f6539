-- ===== src/Inventory/Hold/Demand.antt =====
-- What a reservation of several lines holds: exactly the demand for each stock item, however the
-- lines are split, and it succeeds whenever every demand is free.
use phone_cases_backend.Prelude.{
  ℕ, ◌+◌, ◌≤◌, ◌<◌, ◌≡◌, refl, Option, none, some, List, [], ◌∷◌, sum_by, All, Option-cases, inl,
  inr, arith,
}
use phone_cases_backend.Prelude.Results.{ok, bind_inv}
use phone_cases_backend.Inventory.{Inventory, StockItem, Reservation}
use phone_cases_backend.Inventory.Invariant.{active_sum, of_item, active_sum-snoc}
use phone_cases_backend.Inventory.Hold.{
  Holder, StockLine, new_reservation, hold_stock, create_reservation, reserve_line, add_line,
  aggregate_from, aggregate_lines, reserve_aggregated, reserve_many_in_transaction,
  resolve_expires_at,
}
use phone_cases_backend.Inventory.Hold.Sound.{holding, reserve_line_inv}

-- What a list of lines asks of a stock item.
abbrev pub line_for : ℕ → StockLine → ℕ
line_for k l = of_item l.stock_item l.quantity k

abbrev pub demand : ℕ → List StockLine → ℕ
demand k ls = sum_by (line_for k) ls

demand-add_line :
    (k : ℕ) (l : StockLine) (ls : List StockLine)
    → demand k (add_line l ls) ≡ line_for k l + demand k ls
unfolding add_line
demand-add_line k l [] = refl
demand-add_line k l (m ∷ ms) = ground (arith, demand-add_line k l ms)

demand-aggregate_from :
    (k : ℕ) (done ls : List StockLine)
    → demand k (aggregate_from done ls) ≡ demand k done + demand k ls
unfolding aggregate_from
demand-aggregate_from k done [] = omega arith
demand-aggregate_from k done (l ∷ ls) =
    omega (arith, demand-aggregate_from k (add_line l done) ls, demand-add_line k l done)

-- Aggregation asks for the same of every stock item.
pub demand-aggregate_lines :
    (k : ℕ) (ls : List StockLine) → demand k (aggregate_lines ls) ≡ demand k ls
unfolding aggregate_lines
demand-aggregate_lines k ls = omega (arith, demand-aggregate_from k [] ls)

reserve_line-held :
    (k q : ℕ) (h : Holder) (x : Option ℕ) (s : Inventory) (r : Reservation) (s' : Inventory) (j : ℕ)
    → reserve_line k q h x s ≡ ok (r, s')
    → active_sum j s'.reservations ≡ active_sum j s.reservations + of_item k q j
reserve_line-held k q h x s r s' j e =
    let (it, there, fits, made, same) = reserve_line_inv k q h x s r s' e in
    ground (arith, same, made, active_sum-snoc j s.reservations r)

reserve_aggregated-held :
    (ls : List StockLine) (h : Holder) (x : Option ℕ) (s : Inventory) (rs : List Reservation)
    (s' : Inventory) (j : ℕ)
    → reserve_aggregated ls h x s ≡ ok (rs, s')
    → active_sum j s'.reservations ≡ active_sum j s.reservations + demand j ls
unfolding reserve_aggregated
reserve_aggregated-held [] h x s rs s' j e = ground arith
reserve_aggregated-held (l ∷ ls) h x s rs s' j e =
    let (r, s₁, first, rest) = bind_inv (reserve_line l.stock_item l.quantity h x) _ s rs s' e in
    let (rs₁, s₂, others, last) = bind_inv (reserve_aggregated ls h x) _ s₁ rs s' rest in
    let same : s₂ ≡ s' = cc in
    rw (← same) (
      omega (
        arith,
        reserve_line-held l.stock_item l.quantity h x s r s₁ j first,
        reserve_aggregated-held ls h x s₁ rs₁ s₂ j others,
      ))

abbrev pub Free : Option StockItem → ℕ → Type 0
Free none n = n ≡ 0
Free (some it) n = it.reserved + n ≤ it.on_hand

-- Whatever the lines ask of a stock item is there, and is free.
abbrev pub IsFree : Inventory → List StockLine → Type 0
IsFree s ls = (k : ℕ) → Free (s.stock k) (demand k ls)

abbrev pub IsPositive : StockLine → Type 0
IsPositive l = 0 < l.quantity

reserve_line_ready :
    (k q : ℕ) (h : Holder) (x : Option ℕ) (s : Inventory) (it : StockItem)
    → s.stock k ≡ some it
    → it.reserved + q ≤ it.on_hand
    → reserve_line k q h x s
      ≡ ok (new_reservation s k q h x, holding s k it q (new_reservation s k q h x))
unfolding reserve_line hold_stock create_reservation
reserve_line_ready k q h x s it there fits = ground arith

reserve_aggregated_ready :
    (ls : List StockLine) (h : Holder) (x : Option ℕ) (s : Inventory)
    → All IsPositive ls
    → IsFree s ls
    → (rs : List Reservation) × (s' : Inventory) × (reserve_aggregated ls h x s ≡ ok (rs, s'))
unfolding reserve_aggregated
reserve_aggregated_ready [] h x s p f = ([], s, refl)
reserve_aggregated_ready (l ∷ ls) h x s p f = elim (Option-cases (s.stock l.stock_item)) [
  | inl gone ↦ absurd (ground (arith, f l.stock_item, gone, p.0))
  | inr (it, there) ↦
      let k = l.stock_item in
      let r = new_reservation s k l.quantity h x in
      let s₁ = holding s k it l.quantity r in
      let (rs, s', rest) =
        reserve_aggregated_ready ls h x s₁ p.1 (λ j. ground (arith, f j, f k, there)) in
      (
        r ∷ rs,
        s',
        ground (
          arith,
          reserve_line_ready k l.quantity h x s it there (ground (arith, f k, there)),
          rest,
        ),
      )
]

add_line-IsPositive :
    (l : StockLine) (ls : List StockLine)
    → 0 < l.quantity
    → All IsPositive ls
    → All IsPositive (add_line l ls)
unfolding add_line
add_line-IsPositive l [] p ps = (p, tt)
add_line-IsPositive l (m ∷ ms) p ps = ground (arith, add_line-IsPositive l ms p ps.1)

aggregate_from-IsPositive :
    (done ls : List StockLine)
    → All IsPositive done
    → All IsPositive ls
    → All IsPositive (aggregate_from done ls)
unfolding aggregate_from
aggregate_from-IsPositive done [] d ps = d
aggregate_from-IsPositive done (l ∷ ls) d ps =
    aggregate_from-IsPositive (add_line l done) ls (add_line-IsPositive l done ps.0 d) ps.1

-- A reservation holds exactly what its lines ask of each stock item, also where lines share one.
pub reserve_many-held :
    (now : ℕ) (lines : List StockLine) (h : Holder) (s : Inventory) (rs : List Reservation)
    (s' : Inventory) (k : ℕ)
    → reserve_many_in_transaction now lines h s ≡ ok (rs, s')
    → active_sum k s'.reservations ≡ active_sum k s.reservations + demand k lines
unfolding reserve_many_in_transaction
reserve_many-held now lines h s rs s' k e = omega (
  arith,
  reserve_aggregated-held (aggregate_lines lines) h (resolve_expires_at now h.ttl) s rs s' k e,
  demand-aggregate_lines k lines,
)

-- Lines with positive quantities are all reserved if the demand for each stock item is free.
pub reserve_many_ready :
    (now : ℕ) (lines : List StockLine) (h : Holder) (s : Inventory)
    → All IsPositive lines
    → IsFree s lines
    → (rs : List Reservation) × (s' : Inventory) × (reserve_many_in_transaction now lines h s
        ≡ ok (rs, s'))
unfolding reserve_many_in_transaction aggregate_lines
reserve_many_ready now lines h s p f =
    reserve_aggregated_ready (aggregate_lines lines) h (resolve_expires_at now h.ttl) s
      (aggregate_from-IsPositive [] lines tt p) (λ k. rw (demand-aggregate_lines k lines) (f k))
