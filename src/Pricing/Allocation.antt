-- ===== src/Pricing/Allocation.antt =====
-- `allocateDiscount` of src/modules/orders/order-pricing.util.ts: a discount shared among lines in
-- proportion to their subtotals, rounded down, with the remainder handed out a unit at a time.
-- Amounts are minor units, which are never negative.
pub mod Loop
pub mod Shares
pub mod Exact
use phone_cases_backend.Prelude.{
  ℕ, zero, suc, ◌+◌, ◌-◌, ◌*◌, ◌/◌, ◌≤◌, min, List, [], ◌∷◌, map, ltb, leb, sum, if◌then◌else◌,
}

-- The rounded-down share of one line. The source computes the product and the quotient in doubles,
-- which gives this number while the product is below 2 ^ 53: the product is exact then, and a
-- quotient that is not whole lies too far from the next whole number to be rounded to it. For larger
-- products, the share of the source may differ by the rounding.
pub share : ℕ → ℕ → ℕ → ℕ
share capped subtotal line = min line ((line * capped) / subtotal)

abbrev pub fst_of : ℕ × ℕ → ℕ
fst_of (a, cap) = a

-- The `while` loop from the line under the index on. A pair is the allocation so far and the line's
-- subtotal; a line that is full is passed, any other takes one unit.
pub distribute : ℕ → List (ℕ × ℕ) → List ℕ
distribute zero lines = map fst_of lines
distribute (suc remainder) [] = []
distribute (suc remainder) ((a, cap) ∷ lines) =
    let more = distribute remainder ((a + 1, cap) ∷ lines) in
    let next = a ∷ distribute (suc remainder) lines in if ltb a cap then more else next

abbrev pub with_share : ℕ → ℕ → ℕ → ℕ × ℕ
with_share capped subtotal line = (share capped subtotal line, line)

pub allocate_positive : List ℕ → ℕ → ℕ → List ℕ
unfolding distribute share
allocate_positive lines total subtotal =
    let capped = min total subtotal in
    let allocations = map (share capped subtotal) lines in
    let remainder = capped - sum allocations in
    distribute remainder (map (with_share capped subtotal) lines)

unfoldable pub allocate_discount : List ℕ → ℕ → List ℕ
unfolding allocate_positive
allocate_discount [] total = []
allocate_discount (l ∷ ls) total =
    let lines = l ∷ ls in
    let subtotal = sum lines in
    if leb total 0
    then map (λ _. 0) lines
    else if leb subtotal 0
    then map (λ _. 0) lines
    else allocate_positive lines total subtotal

-- One list lies below another, place by place; they have the same length.
abbrev pub Below : List ℕ → List ℕ → Type 0
Below [] [] = Unit
Below (x ∷ xs) (y ∷ ys) = (x ≤ y) × Below xs ys
Below _ _ = ⊥

abbrev pub caps : List (ℕ × ℕ) → List ℕ
caps [] = []
caps ((a, cap) ∷ ps) = cap ∷ caps ps
