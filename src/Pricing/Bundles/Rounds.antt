-- ===== src/Pricing/Bundles/Rounds.antt =====
-- The rounds of a bundle: what holds of its buckets, of the units left and of the groups formed.
use phone_cases_backend.Prelude.{
  ℕ, zero, suc, ◌+◌, ◌-◌, ◌≤◌, ◌<◌, ◌≡◌, refl, ap, Bool, true, false, not, ◌&&◌, Option, none, some,
  List, [], ◌∷◌, map, ◌==◌, ltb, length, sum, sum_by, sum_by-append, All, All-append, if◌then◌else◌,
  Bool-cases, Option-cases, inl, inr, arith,
}
use phone_cases_backend.Pricing.Allocation.{allocate_discount, Below, Exact.allocate_discount_exact}
use phone_cases_backend.Pricing.View.{Share, Instance}
use phone_cases_backend.Pricing.Bundles.{
  Bundle, Piece, Bucket, Pick, Remaining, Groups.Grouping, choose, remove, claim, share_out,
  normal_of, effective_of, make_instance, Groups.take_group, Groups.group_or_stop,
  Groups.form_group, Groups.form_groups, Groups.unit_count, Buckets.weight, Buckets.IsKeyed,
  Buckets.AllUnits, Picks.taken, Picks.IsSingle, Picks.choose-Groups, Picks.length-remove,
}

-- How many units of a line.
abbrev pub at : ℕ → Piece → ℕ
at i u = if u.line_index == i then 1 else 0

abbrev pub claimed_in : ℕ → Instance → ℕ
claimed_in i b = sum_by (λ a. if a.line_index == i then 1 else 0) b.unit_allocations

abbrev pub claimed : ℕ → List Instance → ℕ
claimed i bs = sum_by (claimed_in i) bs

claim-takes :
    (i : ℕ) (picks : List Pick) (left : Remaining)
    → taken (at i) picks ≤ left i
    → claim picks left i + taken (at i) picks ≡ left i
unfolding claim
claim-takes i [] left fits = omega arith
claim-takes i (p ∷ ps) left fits =
    let j = p.piece.line_index in
    ground (arith, claim-takes i ps (λ k. if k == j then left k - 1 else left k))

-- The prices and the number of the lines of a cart.
module _ (price : ℕ → ℕ) (n : ℕ) where
  abbrev pub Fits : Piece → Type 0
  Fits u = (u.price ≡ price u.line_index) × (u.line_index < n)

  -- A share is of a line of the cart, and takes no more than the price of one unit.
  abbrev pub IsFair : Share → Type 0
  IsFair a = (a.line_index < n) × (a.discount ≤ price a.line_index)

  -- A group of two units or more, whose discount is its normal price less what is paid for it and
  -- is shared out in full.
  abbrev pub IsGood : Instance → Type 0
  IsGood b =
      (2 ≤ length b.unit_allocations)
      × (b.discount_amount + b.fixed_total_applied ≡ b.normal_subtotal)
      × (sum_by (λ a. a.discount) b.unit_allocations ≡ b.discount_amount)
      × All IsFair b.unit_allocations

  shares_lem :
      (picks : List Pick) (ds : List ℕ)
      → Below ds (map (λ p. p.piece.price) picks)
      → All (λ p. Fits p.piece) picks
      → (length (share_out picks ds) ≡ length picks)
        × (sum_by (λ a. a.discount) (share_out picks ds) ≡ sum ds)
        × ((i : ℕ)
            → sum_by (λ a. if a.line_index == i then 1 else 0) (share_out picks ds)
              ≡ taken (at i) picks)
        × All IsFair (share_out picks ds)
  shares_lem [] [] below fits = (refl, refl, λ i. refl, tt)
  shares_lem [] (d ∷ ds) below fits = absurd below
  shares_lem (p ∷ ps) [] below fits = absurd below
  shares_lem (p ∷ ps) (d ∷ ds) below fits =
      let (count, total, at_line, fair) = shares_lem ps ds (below.1) (fits.1) in
      (
        ap suc count,
        ap (λ m. d + m) total,
        λ i. ap (λ m. at i p.piece + m) (at_line i),
        ((fits.0.1, omega (arith, fits.0.0, below.0)), fair),
      )

  sum_prices : (picks : List Pick) → sum (map (λ p. p.piece.price) picks) ≡ normal_of picks
  sum_prices [] = refl
  sum_prices (p ∷ ps) = ap (λ m. p.piece.price + m) (sum_prices ps)

  make_instance_lem :
      (b : Bundle) (picks : List Pick)
      → 2 ≤ length picks
      → effective_of b picks ≤ normal_of picks
      → All (λ p. Fits p.piece) picks
      → IsGood (make_instance b picks)
        × ((i : ℕ) → claimed_in i (make_instance b picks) ≡ taken (at i) picks)
  unfolding make_instance
  make_instance_lem b picks enough cheaper fits =
      let prices = map (λ p. p.piece.price) picks in
      let discount = normal_of picks - effective_of b picks in
      let (total, below) = allocate_discount_exact prices discount in
      let (count, shared, at_line, fair) =
        shares_lem picks (allocate_discount prices discount) below fits in
      (
        (
          omega (arith, count, enough),
          omega (arith, cheaper),
          omega (arith, shared, total, sum_prices picks),
          fair,
        ),
        at_line,
      )

  -- No more units stand in the buckets than are left, and those that are not left are in groups.
  abbrev pub IsLawful : Bundle → Remaining → Grouping → Type 0
  IsLawful b quantity s =
      IsKeyed s.buckets
      × AllUnits Fits s.buckets
      × IsSingle b s.buckets
      × ((i : ℕ) → weight (at i) s.buckets ≤ s.left i)
      × ((i : ℕ) → claimed i s.instances + s.left i ≡ quantity i)
      × All IsGood s.instances

  take_group-IsLawful :
      (b : Bundle) (size : ℕ) (quantity : Remaining) (s : Grouping) (picks : List Pick)
      → 2 ≤ size
      → IsLawful b quantity s
      → choose b size s.buckets ≡ some picks
      → effective_of b picks ≤ normal_of picks
      → IsLawful b quantity (take_group b size picks s)
  take_group-IsLawful b size quantity s picks two (keyed, units, single, left, sums, good) e
        cheaper =
      let (count, (splits, fits, keyed', units')) =
        choose-Groups Fits b size s.buckets picks keyed units single e in
      let (made, at_line) = make_instance_lem b picks (omega (arith, count, two)) cheaper fits in
      let takes : (i : ℕ) → claim picks s.left i + taken (at i) picks ≡ s.left i =
        λ i. claim-takes i picks s.left (omega (arith, splits (at i), left i)) in
      (
        keyed',
        units',
        λ same. omega (arith, single same, length-remove b size picks s.buckets),
        λ i. omega (arith, splits (at i), left i, takes i),
        λ i. omega (
          arith,
          takes i,
          sums i,
          at_line i,
          sum_by-append (claimed_in i) s.instances (make_instance b picks ∷ []),
        ),
        All-append IsGood s.instances (make_instance b picks ∷ []) good (made, tt),
      )

  -- A round took a group of at least two units, so that the buckets have fewer.
  abbrev Round : Bundle → ℕ → Grouping → Grouping → Type 0
  Round b size s s' =
      (picks : List Pick) × (choose b size s.buckets ≡ some picks)
      × (effective_of b picks ≤ normal_of picks)
      × (s' ≡ take_group b size picks s)

  unless_inv :
      (c : Bool) (x y : Grouping) → (if c then none else some x) ≡ some y → (c ≡ false) × (y ≡ x)
  unless_inv true x y e = cc
  unless_inv false x y e = (refl, cc)

  group_or_stop_inv :
      (b : Bundle) (size : ℕ) (s s' : Grouping) (o : Option (List Pick))
      → choose b size s.buckets ≡ o
      → group_or_stop b size o s ≡ some s'
      → Round b size s s'
  group_or_stop_inv b size s s' none made e = absurd (ground (arith, e))
  group_or_stop_inv b size s s' (some picks) made e =
      let (cheaper, same) =
        unless_inv (ltb (normal_of picks) (effective_of b picks)) (take_group b size picks s) s'
          e in
      (picks, made, ground (arith, cheaper), same)

  form_group_inv :
      (b : Bundle) (size : ℕ) (s s' : Grouping) → form_group b size s ≡ some s' → Round b size s s'
  unfolding form_group
  form_group_inv b size s s' e = elim (Bool-cases (not b.is_repeatable && s.formed_any)) [
    | inl stop ↦ absurd (ground (arith, e, stop))
    | inr goes ↦
        group_or_stop_inv b size s s' (choose b size s.buckets) refl (ground (arith, e, goes))
  ]

  form_group-IsLawful :
      (b : Bundle) (size : ℕ) (quantity : Remaining) (s s' : Grouping)
      → 2 ≤ size
      → IsLawful b quantity s
      → form_group b size s ≡ some s'
      → IsLawful b quantity s'
  form_group-IsLawful b size quantity s s' two v e =
      let (picks, made, cheaper, same) = form_group_inv b size s s' e in
      rw same (take_group-IsLawful b size quantity s picks two v made cheaper)

  pub form_groups-IsLawful :
      (fuel : ℕ) (b : Bundle) (size : ℕ) (quantity : Remaining) (s : Grouping)
      → 2 ≤ size
      → IsLawful b quantity s
      → IsLawful b quantity (form_groups fuel b size s)
  unfolding form_groups
  form_groups-IsLawful zero b size quantity s two v = v
  form_groups-IsLawful (suc fuel) b size quantity s two v =
      elim (Option-cases (form_group b size s)) [
        | inl stop ↦ rw (stop, form_groups) v
        | inr (s', round) ↦
            rw (round, form_groups)
              (form_groups-IsLawful fuel b size quantity s' two
                (form_group-IsLawful b size quantity s s' two v round))
      ]

  unit_count_lem : (bs : List Bucket) → unit_count bs ≡ weight (λ _. 1) bs
  unit_count_lem [] = refl
  unit_count_lem (b ∷ bs) = omega (arith, unit_count_lem bs, units b.units)
    where
      units : (us : List Piece) → length us ≡ sum_by (λ _. 1) us
      units [] = refl
      units (u ∷ us) = omega (arith, units us)

  taken_count : (picks : List Pick) → taken (λ _. 1) picks ≡ length picks
  taken_count [] = refl
  taken_count (p ∷ ps) = omega (arith, taken_count ps)

  form_group-falls :
      (b : Bundle) (size : ℕ) (quantity : Remaining) (s s' : Grouping)
      → 2 ≤ size
      → IsLawful b quantity s
      → form_group b size s ≡ some s'
      → unit_count s'.buckets + size ≡ unit_count s.buckets
  form_group-falls b size quantity s s' two (keyed, units, single, left, sums, good) e =
      let (picks, made, cheaper, same) = form_group_inv b size s s' e in
      let (count, (splits, fits, keyed', units')) =
        choose-Groups Fits b size s.buckets picks keyed units single made in
      let after : s'.buckets ≡ remove b size picks s.buckets = ap (λ t. t.buckets) same in
      rw after (
        omega (
          arith,
          splits (λ _. 1),
          taken_count picks,
          count,
          unit_count_lem s.buckets,
          unit_count_lem (remove b size picks s.buckets),
        ))

  pub form_groups_end :
      (fuel : ℕ) (b : Bundle) (size : ℕ) (quantity : Remaining) (s : Grouping)
      → 2 ≤ size
      → IsLawful b quantity s
      → unit_count s.buckets ≤ fuel
      → form_group b size (form_groups fuel b size s) ≡ none
  unfolding form_groups
  form_groups_end zero b size quantity s two v enough = elim (Option-cases (form_group b size s)) [
    | inl stop ↦ stop
    | inr (s', round) ↦
        absurd (omega (arith, form_group-falls b size quantity s s' two v round, two, enough))
  ]
  form_groups_end (suc fuel) b size quantity s two v enough =
      elim (Option-cases (form_group b size s)) [
        | inl stop ↦ rw (stop, form_groups) stop
        | inr (s', round) ↦
            rw (round, form_groups)
              (form_groups_end fuel b size quantity s' two
                (form_group-IsLawful b size quantity s s' two v round)
                (omega (arith, form_group-falls b size quantity s s' two v round, two, enough)))
      ]
