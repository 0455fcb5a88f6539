-- ===== src/Pricing/Allocation/Exact.antt =====
-- `allocateDiscount` gives out exactly the discount, and to each line its part.
use phone_cases_backend.Prelude.{
  ℕ, ◌*◌, ◌/◌, ◌^◌, ◌<◌, ◌≡◌, refl, min, List, [], ◌∷◌, map, leb, sum, arith, Bool-cases, inl, inr,
  false,
}
use phone_cases_backend.Pricing.Allocation.{share, allocate_positive, allocate_discount, Below}
use phone_cases_backend.Pricing.Allocation.Loop.{Below-trans}
use phone_cases_backend.Pricing.Allocation.Shares.{allocate_positive_lem, shares_exact}

zeros-sum : (lines : List ℕ) → sum (map (λ _. 0) lines) ≡ 0
zeros-sum [] = refl
zeros-sum (l ∷ ls) = omega (arith, zeros-sum ls)

zeros-Below : (lines : List ℕ) → Below (map (λ _. 0) lines) lines
zeros-Below [] = tt
zeros-Below (l ∷ ls) = (omega arith, zeros-Below ls)

-- The allocations add up to the discount, or to the whole subtotal where the discount is larger;
-- there is one for each line, and none is more than its line's subtotal.
pub allocate_discount_exact :
    (lines : List ℕ) (total : ℕ)
    → (sum (allocate_discount lines total) ≡ min total (sum lines))
      × Below (allocate_discount lines total) lines
unfolding allocate_discount
allocate_discount_exact [] total = (omega arith, tt)
allocate_discount_exact (l ∷ ls) total = elim (Bool-cases (leb total 0)) [
  | inl none_asked ↦ rw none_asked (ground (arith, zeros-sum (l ∷ ls)), zeros-Below (l ∷ ls))
  | inr asked ↦ elim (Bool-cases (leb (sum (l ∷ ls)) 0)) [
    | inl free ↦ rw (asked, free) (ground (arith, zeros-sum (l ∷ ls)), zeros-Below (l ∷ ls))
    | inr paid ↦
        let d = allocate_positive_lem (l ∷ ls) total (ground arith) in rw (asked, paid) (d.0, d.1)
  ]
]

-- Every line gets at least its exact proportional part of the discount, rounded down, where the
-- subtotal times the discount is below 2 ^ 53, so that the products of the source are exact.
pub allocate_discount_proportional :
    (lines : List ℕ) (total : ℕ)
    → 0 < total
    → 0 < sum lines
    → sum lines * min total (sum lines) < 2 ^ 53
    → let capped = min total (sum lines) in
      Below (map (λ line. line * capped / sum lines) lines) (allocate_discount lines total)
unfolding allocate_discount
allocate_discount_proportional [] total asked paid exact = tt
allocate_discount_proportional (l ∷ ls) total asked paid exact =
    let capped = min total (sum (l ∷ ls)) in
    let first : leb total 0 ≡ false = ground arith in
    let second : leb (sum (l ∷ ls)) 0 ≡ false = ground arith in
    let d = allocate_positive_lem (l ∷ ls) total paid in
    rw (first, second)
      (Below-trans (map (λ line. line * capped / sum (l ∷ ls)) (l ∷ ls))
        (map (share capped (sum (l ∷ ls))) (l ∷ ls))
        (allocate_positive (l ∷ ls) total (sum (l ∷ ls)))
        (shares_exact capped (sum (l ∷ ls)) (l ∷ ls) (omega arith)) d.2)
