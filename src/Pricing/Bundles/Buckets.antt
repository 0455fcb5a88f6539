-- ===== src/Pricing/Bundles/Buckets.antt =====
-- Buckets: their keys are distinct, and what a quantity over their units is before and after units
-- are added and dropped.
use phone_cases_backend.Prelude.{
  ℕ, zero, suc, ◌+◌, ◌≤◌, ◌≡◌, refl, false, Option, some, List, [], ◌∷◌, ◌==◌, drop, take, sum_by,
  sum_by-append, All, All-append, if◌then◌else◌, Bool-cases, inl, inr, arith,
}
use phone_cases_backend.Prelude.Keyed.{find_key}
use phone_cases_backend.Pricing.Bundles.{
  Bundle, Piece, Bucket, add_unit, fill_buckets, key_of, drop_units,
}

-- The total of a quantity over all units of all buckets.
abbrev pub weight : (Piece → ℕ) → List Bucket → ℕ
weight g bs = sum_by (λ b. sum_by g b.units) bs

abbrev pub has_key : ℕ → Bucket → ℕ
has_key k b = if b.key == k then 1 else 0

abbrev pub IsKeyed : List Bucket → Type 0
IsKeyed bs = (k : ℕ) → sum_by (has_key k) bs ≤ 1

abbrev pub find_bucket : ℕ → List Bucket → Option Bucket
find_bucket k bs = find_key (λ b. b.key) k bs

weight-add_unit :
    (g : Piece → ℕ) (k : ℕ) (u : Piece) (bs : List Bucket)
    → weight g (add_unit k u bs) ≡ weight g bs + g u
unfolding add_unit
weight-add_unit g k u [] = omega arith
weight-add_unit g k u (b ∷ bs) =
    ground (arith, weight-add_unit g k u bs, sum_by-append g b.units (u ∷ []))

keys-add_unit :
    (j k : ℕ) (u : Piece) (bs : List Bucket)
    → sum_by (has_key j) (add_unit k u bs) ≡ (
        if j == k
        then (if sum_by (has_key j) bs == 0 then 1 else sum_by (has_key j) bs)
        else sum_by (has_key j) bs)
unfolding add_unit
keys-add_unit j k u [] = ground arith
keys-add_unit j k u (b ∷ bs) = ground (arith, keys-add_unit j k u bs)

add_unit-IsKeyed : (k : ℕ) (u : Piece) (bs : List Bucket) → IsKeyed bs → IsKeyed (add_unit k u bs)
add_unit-IsKeyed k u bs v j = ground (arith, keys-add_unit j k u bs, v j)

pub weight-fill_buckets :
    (g : Piece → ℕ) (b : Bundle) (done : List Bucket) (us : List Piece)
    → weight g (fill_buckets b done us) ≡ weight g done + sum_by g us
unfolding fill_buckets
weight-fill_buckets g b done [] = omega arith
weight-fill_buckets g b done (u ∷ us) = omega (
  arith,
  weight-fill_buckets g b (add_unit (key_of b u) u done) us,
  weight-add_unit g (key_of b u) u done,
)

pub fill_buckets-IsKeyed :
    (b : Bundle) (done : List Bucket) (us : List Piece)
    → IsKeyed done
    → IsKeyed (fill_buckets b done us)
unfolding fill_buckets
fill_buckets-IsKeyed b done [] v = v
fill_buckets-IsKeyed b done (u ∷ us) v =
    fill_buckets-IsKeyed b (add_unit (key_of b u) u done) us
      (add_unit-IsKeyed (key_of b u) u done v)

abbrev pub AllUnits : (Piece → Type 0) → List Bucket → Type 0
AllUnits P bs = All (λ b. All P b.units) bs

add_unit-AllUnits :
    (P : Piece → Type 0) (k : ℕ) (u : Piece) (bs : List Bucket)
    → P u
    → AllUnits P bs
    → AllUnits P (add_unit k u bs)
unfolding add_unit
add_unit-AllUnits P k u [] p ps = ((p, tt), tt)
add_unit-AllUnits P k u (b ∷ bs) p ps = elim (Bool-cases (b.key == k)) [
  | inl hit ↦ rw hit (All-append P b.units (u ∷ []) (ps.0) (p, tt), ps.1)
  | inr miss ↦ rw miss (ps.0, add_unit-AllUnits P k u bs p (ps.1))
]

pub fill_buckets-AllUnits :
    (P : Piece → Type 0) (b : Bundle) (done : List Bucket) (us : List Piece)
    → AllUnits P done
    → All P us
    → AllUnits P (fill_buckets b done us)
unfolding fill_buckets
fill_buckets-AllUnits P b done [] v ps = v
fill_buckets-AllUnits P b done (u ∷ us) v ps =
    fill_buckets-AllUnits P b (add_unit (key_of b u) u done) us
      (add_unit-AllUnits P (key_of b u) u done (ps.0) v) (ps.1)

sum_by-take-drop :
    (g : Piece → ℕ) (n : ℕ) (us : List Piece)
    → sum_by g (drop n us) + sum_by g (take n us) ≡ sum_by g us
sum_by-take-drop g zero us = omega arith
sum_by-take-drop g (suc n) [] = refl
sum_by-take-drop g (suc n) (u ∷ us) = omega (arith, sum_by-take-drop g n us)

-- Dropping the first units of a bucket.
pub weight-drop_units :
    (g : Piece → ℕ) (n k : ℕ) (bs : List Bucket) (c : Bucket)
    → find_bucket k bs ≡ some c
    → weight g (drop_units n k bs) + sum_by g (take n c.units) ≡ weight g bs
unfolding drop_units
weight-drop_units g n k [] c e = cc
weight-drop_units g n k (b ∷ bs) c e =
    ground (arith, weight-drop_units g n k bs c, sum_by-take-drop g n b.units)

pub find-drop_units :
    (n k j : ℕ) (bs : List Bucket)
    → (j == k) ≡ false
    → find_bucket j (drop_units n k bs) ≡ find_bucket j bs
unfolding drop_units
find-drop_units n k j [] other = refl
find-drop_units n k j (b ∷ bs) other = ground (arith, find-drop_units n k j bs)

keys-drop_units :
    (n k j : ℕ) (bs : List Bucket) → sum_by (has_key j) (drop_units n k bs) ≡ sum_by (has_key j) bs
unfolding drop_units
keys-drop_units n k j [] = refl
keys-drop_units n k j (b ∷ bs) = ground (arith, keys-drop_units n k j bs)

pub drop_units-IsKeyed : (n k : ℕ) (bs : List Bucket) → IsKeyed bs → IsKeyed (drop_units n k bs)
drop_units-IsKeyed n k bs v j = rw (keys-drop_units n k j bs) (v j)

All-drop : (P : Piece → Type 0) (n : ℕ) (us : List Piece) → All P us → All P (drop n us)
All-drop P zero us ps = ps
All-drop P (suc n) [] ps = tt
All-drop P (suc n) (u ∷ us) ps = All-drop P n us (ps.1)

pub drop_units-AllUnits :
    (P : Piece → Type 0) (n k : ℕ) (bs : List Bucket)
    → AllUnits P bs
    → AllUnits P (drop_units n k bs)
unfolding drop_units
drop_units-AllUnits P n k [] ps = tt
drop_units-AllUnits P n k (b ∷ bs) ps = elim (Bool-cases (b.key == k)) [
  | inl hit ↦ rw hit (All-drop P n b.units (ps.0), ps.1)
  | inr miss ↦ rw miss (ps.0, drop_units-AllUnits P n k bs (ps.1))
]

found-counts :
    (bs : List Bucket) (k : ℕ) (c : Bucket) → find_bucket k bs ≡ some c → 1 ≤ sum_by (has_key k) bs
found-counts [] k c e = cc
found-counts (b ∷ bs) k c e = ground (arith, found-counts bs k c)

found-later :
    (b : Bucket) (bs : List Bucket) (k : ℕ) (c : Bucket)
    → IsKeyed (b ∷ bs)
    → find_bucket k bs ≡ some c
    → find_bucket k (b ∷ bs) ≡ some c
found-later b bs k c w e = ground (arith, found-counts bs k c e, w k)

-- Under distinct keys every bucket is the one that its key finds.
pub found-All : (bs : List Bucket) → IsKeyed bs → All (λ c. find_bucket c.key bs ≡ some c) bs
found-All bs v = among bs bs (λ k c e. e) v
  where
    among :
        (rest all : List Bucket)
        → ((k : ℕ) (c : Bucket) → find_bucket k rest ≡ some c → find_bucket k all ≡ some c)
        → IsKeyed rest
        → All (λ c. find_bucket c.key all ≡ some c) rest
    among [] all lift w = tt
    among (b ∷ bs') all lift w = (
      lift b.key b (ground arith),
      among bs' all (λ k c e. lift k c (found-later b bs' k c w e)) (λ k. omega (arith, w k)),
    )
