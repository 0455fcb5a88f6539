-- ===== src/Pricing/CartView/Lines.antt =====
-- The lines of a cart that bundles are applied to.
use phone_cases_backend.Prelude.{
  ℕ, ◌+◌, ◌-◌, ◌≤◌, ◌<◌, ◌≡◌, refl, false, true, List, [], ◌∷◌, ◌==◌, select, length, All,
  if◌then◌else◌, Bool-cases, List-cases, inl, inr, arith,
}
use phone_cases_backend.Pricing.View.{CartItem, effective_unit_price, is_available}
use phone_cases_backend.Pricing.Bundles.{
  SourceLine, quantities, Claims.with_index, Claims.IsPriced, Claims.IsIndexed,
}
use phone_cases_backend.Pricing.CartView.{to_source_line, source_lines}

-- The price of a unit, and the number of units that can be bought, at a place of a cart.
abbrev pub price_at : List CartItem → ℕ → ℕ
price_at [] i = 0
price_at (x ∷ xs) i = if i == 0 then effective_unit_price x.variant else price_at xs (i - 1)

abbrev pub units_at : List CartItem → ℕ → ℕ
units_at [] i = 0
units_at (x ∷ xs) i =
    if i == 0 then (if is_available x then x.quantity else 0) else units_at xs (i - 1)

lines_before : (i k : ℕ) (items : List CartItem) → i < k → with_index i (source_lines k items) ≡ 0
unfolding source_lines
lines_before i k [] before = refl
lines_before i k (x ∷ xs) before = ground (arith, lines_before i (k + 1) xs)

lines_once : (i k : ℕ) (items : List CartItem) → with_index i (source_lines k items) ≤ 1
unfolding source_lines
lines_once i k [] = omega arith
lines_once i k (x ∷ xs) = ground (arith, lines_once i (k + 1) xs, lines_before i (k + 1) xs)

-- A line from place `k` on has the price and at most the units of its item.
abbrev IsLine : ℕ → List CartItem → SourceLine → Type 0
IsLine k items l =
    (k ≤ l.line_index)
    × (l.line_index < k + length items)
    × (l.unit_price ≡ price_at items (l.line_index - k))
    × (l.quantity ≡ units_at items (l.line_index - k))

IsLine-later :
    (k : ℕ) (x : CartItem) (xs : List CartItem) (l : SourceLine)
    → IsLine (k + 1) xs l
    → IsLine k (x ∷ xs) l
IsLine-later k x xs l (from, below, price, units) =
    let step : l.line_index - k - 1 ≡ l.line_index - (k + 1) = omega arith in
    (
      omega (arith, from),
      omega (arith, below),
      ground (arith, step, price, from),
      ground (arith, step, units, from),
    )

All-later :
    (k : ℕ) (x : CartItem) (xs : List CartItem) (ls : List SourceLine)
    → All (IsLine (k + 1) xs) ls
    → All (IsLine k (x ∷ xs)) ls
All-later k x xs [] ps = tt
All-later k x xs (l ∷ ls) ps = (IsLine-later k x xs l (ps.0), All-later k x xs ls (ps.1))

IsLine-first :
    (k : ℕ) (x : CartItem) (xs : List CartItem)
    → is_available x ≡ true
    → IsLine k (x ∷ xs) (to_source_line x k)
IsLine-first k x xs there = (omega arith, omega arith, ground arith, ground (arith, there))

source_lines_are : (k : ℕ) (items : List CartItem) → All (IsLine k items) (source_lines k items)
unfolding source_lines
source_lines_are k [] = tt
source_lines_are k (x ∷ xs) =
    let rest = All-later k x xs (source_lines (k + 1) xs) (source_lines_are (k + 1) xs) in
    elim (Bool-cases (is_available x)) [
      | inl there ↦ rw (there, source_lines) (IsLine-first k x xs there, rest)
      | inr gone ↦ rw (gone, source_lines) rest
    ]

are-IsPriced :
    (items : List CartItem) (ls : List SourceLine)
    → All (IsLine 0 items) ls
    → All (IsPriced (price_at items) (length items)) ls
are-IsPriced items [] ps = tt
are-IsPriced items (l ∷ ls) ((from, below, price, units), ps) =
    ((ground (arith, price), omega (arith, below)), are-IsPriced items ls ps)

pub source_lines-IsIndexed :
    (items : List CartItem) → IsIndexed (price_at items) (length items) (source_lines 0 items)
source_lines-IsIndexed items = (
  λ i. lines_once i 0 items,
  are-IsPriced items (source_lines 0 items) (source_lines_are 0 items),
)

quantities-le :
    (items : List CartItem) (i : ℕ) (ls : List SourceLine)
    → All (IsLine 0 items) ls
    → quantities ls i ≤ units_at items i
unfolding quantities
quantities-le items i [] ps = omega arith
quantities-le items i (l ∷ ls) ((from, below, price, units), ps) =
    elim (List-cases (select (λ m. m.line_index == i) ls)) [
      | inl e ↦ rw (e, quantities) (ground (arith, units))
      | inr (m, ms, e) ↦ rw (e, quantities) (quantities-le items i ls ps)
    ]

pub quantities-source_lines :
    (items : List CartItem) (i : ℕ) → quantities (source_lines 0 items) i ≤ units_at items i
quantities-source_lines items i =
    quantities-le items i (source_lines 0 items) (source_lines_are 0 items)

-- The places of a cart after the first.
pub price_at-later :
    (x : CartItem) (xs : List CartItem) (i : ℕ) → price_at (x ∷ xs) (i + 1) ≡ price_at xs i
price_at-later x xs i =
    let back : i + 1 - 1 ≡ i = omega arith in
    let not_first : (i + 1 == 0) ≡ false = ground arith in rw (not_first, back, if◌then◌else◌) refl

pub units_at-later :
    (x : CartItem) (xs : List CartItem) (i : ℕ) → units_at (x ∷ xs) (i + 1) ≡ units_at xs i
units_at-later x xs i =
    let back : i + 1 - 1 ≡ i = omega arith in
    let not_first : (i + 1 == 0) ≡ false = ground arith in rw (not_first, back, if◌then◌else◌) refl
