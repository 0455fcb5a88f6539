-- ===== src/Pricing/Bundles/Claims.antt =====
-- All bundles of a calculation: the units of the lines that the groups of one bundle took are no
-- longer there for the next.
use phone_cases_backend.Prelude.{
  ℕ, zero, suc, ◌+◌, ◌≤◌, ◌<◌, ◌≡◌, refl, ap, Bool, false, not, ◌&&◌, none, List, [], ◌∷◌, map,
  ◌==◌, ltb, select, length, sum_by, sum_by-append, All, All-append, if◌then◌else◌, Bool-cases, inl,
  inr, arith,
}
use phone_cases_backend.Prelude.Sorting.{sum_by-sort_by, All-sort_by, sum_by-select-le, All-select}
use phone_cases_backend.Pricing.View.{Instance}
use phone_cases_backend.Pricing.Bundles.{
  Bundle, SourceLine, Piece, Bucket, Remaining, Groups.Grouping, size_of, is_eligible, piece_of,
  replicate, pieces, quantities, key_of, dearer_first, add_unit, fill_buckets, sort_bucket,
  make_buckets, Groups.form_group, Groups.form_groups, Groups.unit_count, Groups.apply_bundle,
  Groups.apply_bundles, Groups.compute_bundle_instances, Buckets.weight, Buckets.has_key,
  Buckets.AllUnits, Buckets.weight-fill_buckets, Buckets.fill_buckets-IsKeyed,
  Buckets.fill_buckets-AllUnits, Rounds.at, Rounds.Fits, Rounds.IsGood, Rounds.IsLawful,
  Rounds.claimed, Rounds.form_groups-IsLawful, Rounds.form_groups_end,
}

-- How many lines have an index.
abbrev pub with_index : ℕ → List SourceLine → ℕ
with_index i lines = sum_by (λ l. if l.line_index == i then 1 else 0) lines

at-replicate :
    (i m : ℕ) (u : Piece) → sum_by (at i) (replicate m u) ≡ (if u.line_index == i then m else 0)
at-replicate i zero u = ground arith
at-replicate i (suc m) u = ground (arith, at-replicate i m u)

at-pieces :
    (i : ℕ) (b : Bundle) (left : Remaining) (lines : List SourceLine)
    → with_index i lines ≤ 1
    → sum_by (at i) (pieces b left lines) ≤ (if with_index i lines == 0 then 0 else left i)
unfolding pieces
at-pieces i b left [] once = omega arith
at-pieces i b left (l ∷ ls) once = ground (
  arith,
  at-pieces i b left ls,
  at-replicate i (left l.line_index) (piece_of b l),
  sum_by-append (at i) (replicate (left l.line_index) (piece_of b l)) (pieces b left ls),
)

weight-sorted : (g : Piece → ℕ) (bs : List Bucket) → weight g (map sort_bucket bs) ≡ weight g bs
weight-sorted g [] = refl
weight-sorted g (b ∷ bs) = ground (arith, weight-sorted g bs, sum_by-sort_by dearer_first g b.units)

keys-sorted :
    (k : ℕ) (bs : List Bucket) → sum_by (has_key k) (map sort_bucket bs) ≡ sum_by (has_key k) bs
keys-sorted k [] = refl
keys-sorted k (b ∷ bs) = ap (λ m. has_key k b + m) (keys-sorted k bs)

units-sorted :
    (P : Piece → Type 0) (bs : List Bucket) → AllUnits P bs → AllUnits P (map sort_bucket bs)
units-sorted P [] ps = tt
units-sorted P (b ∷ bs) ps = (All-sort_by dearer_first P b.units (ps.0), units-sorted P bs (ps.1))

length-sorted : (bs : List Bucket) → length (map sort_bucket bs) ≡ length bs
length-sorted [] = refl
length-sorted (b ∷ bs) = ap suc (length-sorted bs)

-- Without a condition on the phone models all units have one key.
single_key :
    (k : ℕ) (u : Piece) (bs : List Bucket)
    → length bs ≤ 1
    → sum_by (has_key k) bs ≡ length bs
    → (length (add_unit k u bs) ≤ 1)
      × (sum_by (has_key k) (add_unit k u bs) ≡ length (add_unit k u bs))
unfolding add_unit
single_key k u [] one same = (ground arith, ground arith)
single_key k u (b ∷ c ∷ bs) one same = absurd (omega (arith, one))
single_key k u (b ∷ []) one same = (ground (arith, one, same), ground (arith, one, same))

any_key : (b : Bundle) (u : Piece) → b.require_different_phone_models ≡ false → key_of b u ≡ 0
unfolding key_of
any_key b u free = ground (arith, free)

single_fill :
    (b : Bundle) (done : List Bucket) (us : List Piece)
    → b.require_different_phone_models ≡ false
    → length done ≤ 1
    → sum_by (has_key 0) done ≡ length done
    → length (fill_buckets b done us) ≤ 1
unfolding fill_buckets
single_fill b done [] free one same = one
single_fill b done (u ∷ us) free one same =
    let (one', same') = single_key 0 u done one same in
    let key : key_of b u ≡ 0 = any_key b u free in
    rw key (single_fill b (add_unit 0 u done) us free one' same')

with_index-select :
    (i : ℕ) (q : SourceLine → Bool) (lines : List SourceLine)
    → with_index i lines ≤ 1
    → with_index i (select q lines) ≤ 1
with_index-select i q lines once =
    omega (arith, sum_by-select-le (λ l. if l.line_index == i then 1 else 0) q lines)

module _ (price : ℕ → ℕ) (n : ℕ) where
  -- A line has the price of its index, which is under `n`.
  abbrev pub IsPriced : SourceLine → Type 0
  IsPriced l = (l.unit_price ≡ price l.line_index) × (l.line_index < n)

  replicate-fit : (m : ℕ) (u : Piece) → Fits price n u → All (Fits price n) (replicate m u)
  replicate-fit zero u f = tt
  replicate-fit (suc m) u f = (f, replicate-fit m u f)

  pieces-fit :
      (b : Bundle) (left : Remaining) (lines : List SourceLine)
      → All IsPriced lines
      → All (Fits price n) (pieces b left lines)
  unfolding pieces
  pieces-fit b left [] ps = tt
  pieces-fit b left (l ∷ ls) ps =
      All-append (Fits price n) (replicate (left l.line_index) (piece_of b l)) (pieces b left ls)
        (replicate-fit (left l.line_index) (piece_of b l) (ps.0)) (pieces-fit b left ls (ps.1))

  module _ (lines : List SourceLine) where
    -- Every index occurs once, with its price.
    abbrev pub IsIndexed : Type 0
    IsIndexed = ((i : ℕ) → with_index i lines ≤ 1) × All IsPriced lines

    -- What is left of the lines and what groups took add up to what there was.
    abbrev pub IsClaimed : Remaining → Remaining × List Instance → Type 0
    IsClaimed quantity (left, done) =
        ((i : ℕ) → claimed i done + left i ≡ quantity i) × All (IsGood price n) done

    abbrev pub start_of : Bundle → Remaining → List Instance → Grouping
    start_of b left done = record {
      buckets = make_buckets b left lines;
      left = left;
      instances = done;
      formed_any = false;
    }

    start-IsLawful :
        (b : Bundle) (quantity left : Remaining) (done : List Instance)
        → IsIndexed
        → IsClaimed quantity (left, done)
        → IsLawful price n b quantity (start_of b left done)
    unfolding make_buckets
    start-IsLawful b quantity left done (once, priced) (sums, good) =
        let eligible = select (is_eligible b) lines in
        let us = pieces b left eligible in
        let filled = fill_buckets b [] us in
        (
          λ k.
              omega
                (arith, keys-sorted k filled, fill_buckets-IsKeyed b [] us (λ j. omega arith) k),
          units-sorted (Fits price n) filled (
              fill_buckets-AllUnits (Fits price n) b [] us tt
                (pieces-fit b left eligible (All-select IsPriced (is_eligible b) lines priced))),
          λ free. omega (arith, length-sorted filled, single_fill b [] us free (omega arith) refl),
          λ i. ground (
            arith,
            weight-sorted (at i) filled,
            weight-fill_buckets (at i) b [] us,
            at-pieces i b left eligible (with_index-select i (is_eligible b) lines (once i)),
          ),
          sums,
          good,
        )

    apply_bundle-IsClaimed :
        (coupon : Bool) (b : Bundle) (quantity : Remaining) (s : Remaining × List Instance)
        → IsIndexed
        → IsClaimed quantity s
        → IsClaimed quantity (apply_bundle coupon lines s b)
    unfolding apply_bundle
    apply_bundle-IsClaimed coupon b quantity (left, done) ix v =
        elim (Bool-cases (coupon && not b.allow_coupon_stacking)) [
          | inl skipped ↦ rw skipped v
          | inr goes ↦ elim (Bool-cases (ltb (size_of b) 2)) [
            | inl small ↦ rw (goes, small) v
            | inr two ↦
                let (keyed, units, single, less, sums, good) =
                  form_groups-IsLawful price n (unit_count (make_buckets b left lines)) b
                    (size_of b) quantity (start_of b left done) (ground (arith, two))
                    (start-IsLawful b quantity left done ix v) in
                rw (goes, two) (sums, good)
          ]
        ]

    apply_bundles-IsClaimed :
        (coupon : Bool) (bs : List Bundle) (quantity : Remaining) (s : Remaining × List Instance)
        → IsIndexed
        → IsClaimed quantity s
        → IsClaimed quantity (apply_bundles coupon lines bs s)
    unfolding apply_bundles
    apply_bundles-IsClaimed coupon [] quantity s ix v = v
    apply_bundles-IsClaimed coupon (b ∷ bs) quantity s ix v =
        apply_bundles-IsClaimed coupon bs quantity (apply_bundle coupon lines s b) ix
          (apply_bundle-IsClaimed coupon b quantity s ix v)

    -- The loop over the groups of one bundle ends: after as many rounds as there are units in the
    -- buckets, if not before, a round is a `break`. The lines have distinct indices, and what is
    -- left of them is what earlier groups have not taken; groups of under two units are skipped.
    pub rounds_end :
        (b : Bundle) (quantity left : Remaining) (done : List Instance)
        → IsIndexed
        → IsClaimed quantity (left, done)
        → 2 ≤ size_of b
        → let start = start_of b left done in
          form_group b (size_of b) (form_groups (unit_count start.buckets) b (size_of b) start)
          ≡ none
    rounds_end b quantity left done ix v two =
        form_groups_end price n (unit_count (make_buckets b left lines)) b (size_of b) quantity
          (start_of b left done) two (start-IsLawful b quantity left done ix v) (omega arith)

    -- The groups of a calculation take no unit twice, and each is good.
    pub compute_bundle_instances_lem :
        (bundles : List Bundle) (coupon : Bool)
        → IsIndexed
        → let instances = compute_bundle_instances lines bundles coupon in
          ((i : ℕ) → claimed i instances ≤ quantities lines i) × All (IsGood price n) instances
    unfolding compute_bundle_instances
    compute_bundle_instances_lem bundles coupon ix =
        let (sums, good) =
          apply_bundles-IsClaimed coupon bundles (quantities lines) (quantities lines, []) ix
            ((λ i. omega arith), tt) in
        ((λ i. omega (arith, sums i)), good)
