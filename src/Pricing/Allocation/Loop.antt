-- ===== src/Pricing/Allocation/Loop.antt =====
-- The loop that hands out the remainder of an allocation.
use phone_cases_backend.Prelude.{
  ℕ, zero, suc, ◌+◌, ◌≤◌, ◌≡◌, List, [], ◌∷◌, map, ltb, sum, arith, Bool-cases, inl, inr,
}
use phone_cases_backend.Pricing.Allocation.{fst_of, distribute, Below, caps}

pub Below-refl : (xs : List ℕ) → Below xs xs
Below-refl [] = tt
Below-refl (x ∷ xs) = (omega arith, Below-refl xs)

-- The loop hands out all of a remainder that fits, never passes a line's subtotal and takes
-- nothing back.
pub distribute_lem :
    (r : ℕ) (ps : List (ℕ × ℕ))
    → Below (map fst_of ps) (caps ps)
    → sum (map fst_of ps) + r ≤ sum (caps ps)
    → (sum (distribute r ps) ≡ sum (map fst_of ps) + r)
      × Below (distribute r ps) (caps ps)
      × Below (map fst_of ps) (distribute r ps)
unfolding distribute
distribute_lem zero ps b h = (omega arith, b, Below-refl (map fst_of ps))
distribute_lem (suc r) [] b h = omega arith
distribute_lem (suc r) ((a, cap) ∷ ps) b h = elim (Bool-cases (ltb a cap)) [
  | inl room ↦
      let ih = distribute_lem r ((a + 1, cap) ∷ ps) (ground arith, b.1) (omega arith) in
      rw room (omega (arith, ih.0), ih.1, raised (distribute r ((a + 1, cap) ∷ ps)) ih.2)
  | inr full ↦
      let ih = distribute_lem (suc r) ps b.1 (ground arith) in
      rw full (omega (arith, ih.0), (b.0, ih.1), (omega arith, ih.2))
]
  where
    raised : (out : List ℕ) → Below ((a + 1) ∷ map fst_of ps) out → Below (a ∷ map fst_of ps) out
    raised [] h = elim h [ ]
    raised (x ∷ xs) h = (omega (arith, h.0), h.1)

pub Below-trans : (xs ys zs : List ℕ) → Below xs ys → Below ys zs → Below xs zs
Below-trans [] [] [] h k = tt
Below-trans (x ∷ xs) (y ∷ ys) (z ∷ zs) h k = (omega arith, Below-trans xs ys zs h.1 k.1)
Below-trans [] [] (z ∷ zs) h k = elim k [ ]
Below-trans [] (y ∷ ys) zs h k = elim h [ ]
Below-trans (x ∷ xs) [] zs h k = elim h [ ]
Below-trans (x ∷ xs) (y ∷ ys) [] h k = elim k [ ]
