-- ===== src/Pricing/Allocation/Shares.antt =====
-- The rounded-down shares, and the allocation of a positive discount.
use native.Mathlib.Nat.{div-le_of_le-mul, div-mul-le_self, le_of_mul-le-mul_left, mul-le-mul_left}
use phone_cases_backend.Prelude.{
  ℕ, ◌-◌, ◌*◌, ◌/◌, ◌≤◌, ◌<◌, ◌≡◌, refl, min, List, [], ◌∷◌, map, sum, arith,
}
use phone_cases_backend.Pricing.Allocation.{
  share, fst_of, with_share, allocate_positive, Below, caps,
}
use phone_cases_backend.Pricing.Allocation.Loop.{distribute_lem}

-- The rounded-down shares never come to more than what is shared.
sum-share-le :
    (capped subtotal : ℕ) (lines : List ℕ)
    → sum (map (share capped subtotal) lines) * subtotal ≤ sum lines * capped
unfolding share
sum-share-le c s [] = omega arith
sum-share-le c s (l ∷ ls) = grind (arith, sum-share-le c s ls, div-mul-le_self (l * c) s)

shares-Below : (c s : ℕ) (lines : List ℕ) → Below (map (share c s) lines) lines
unfolding share
shares-Below c s [] = tt
shares-Below c s (l ∷ ls) = (omega arith, shares-Below c s ls)

caps-with_share : (c s : ℕ) (lines : List ℕ) → caps (map (with_share c s) lines) ≡ lines
caps-with_share c s [] = refl
caps-with_share c s (l ∷ ls) = rw (caps-with_share c s ls)

firsts-with_share :
    (c s : ℕ) (lines : List ℕ) → map fst_of (map (with_share c s) lines) ≡ map (share c s) lines
firsts-with_share c s [] = refl
firsts-with_share c s (l ∷ ls) = rw (firsts-with_share c s ls)

-- The shares of a positive subtotal leave room for the remainder.
sum-share-le_capped :
    (c : ℕ) (lines : List ℕ) → 0 < sum lines → sum (map (share c (sum lines)) lines) ≤ c
sum-share-le_capped c lines pos =
    le_of_mul-le-mul_left {k = sum lines} (omega (arith, sum-share-le c (sum lines) lines)) pos

pub allocate_positive_lem :
    (lines : List ℕ) (total : ℕ)
    → 0 < sum lines
    → let out = allocate_positive lines total (sum lines) in
      (sum out ≡ min total (sum lines))
      × Below out lines
      × Below (map (share (min total (sum lines)) (sum lines)) lines) out
unfolding allocate_positive
allocate_positive_lem lines total pos =
    let c = min total (sum lines) in
    let ps = map (with_share c (sum lines)) lines in
    let shares = map (share c (sum lines)) lines in
    let fits = sum-share-le_capped c lines pos in
    let firsts = firsts-with_share c (sum lines) lines in
    let tops = caps-with_share c (sum lines) lines in
    let d =
      distribute_lem (c - sum shares) ps (rw (firsts, tops) (shares-Below c (sum lines) lines))
        (rw (firsts, tops) (omega arith)) in
    let d' = rw (firsts, tops) at d in (omega (arith, d'.0), d'.1, d'.2)

share_exact : (c s line : ℕ) → c ≤ s → line * c / s ≤ share c s line
unfolding share
share_exact c s line h =
    let below : line * c / s ≤ line = div-le_of_le-mul s (grind (arith, mul-le-mul_left line h)) in
    omega arith

pub shares_exact :
    (c s : ℕ) (lines : List ℕ)
    → c ≤ s
    → Below (map (λ line. line * c / s) lines) (map (share c s) lines)
shares_exact c s [] h = tt
shares_exact c s (l ∷ ls) h = (share_exact c s l h, shares_exact c s ls h)
