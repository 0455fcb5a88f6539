-- ===== src/Pricing/Bundles/Picks.antt =====
-- One round of a bundle: the units that it takes are units of the buckets, and those that it
-- leaves are the others.
use phone_cases_backend.Prelude.{
  ℕ, suc, ◌+◌, ◌≤◌, ◌≡◌, refl, length-map, sym, ap, ◌∙◌, true, false, some, List, [], ◌∷◌, map,
  ◌==◌, ltb, select, take, length, sum_by, All, Bool-cases, List-cases, inl, inr, arith,
}
use phone_cases_backend.Prelude.Sorting.{
  sort_by, sum_by-sort_by, All-sort_by, sum_by-take-le, All-take, sum_by-select-le, length-take,
  All-select, All-selected, length-sort_by, length-select,
}
use phone_cases_backend.Pricing.Bundles.{
  Bundle, Piece, Bucket, Pick, is_filled, larger_first, firsts, choose_different, choose_same,
  same_from, choose, drop_units, remove_firsts, first_of, pick_from, remove_same, remove,
  Buckets.weight, Buckets.has_key, Buckets.IsKeyed, Buckets.find_bucket, Buckets.AllUnits,
  Buckets.weight-drop_units, Buckets.find-drop_units, Buckets.drop_units-IsKeyed,
  Buckets.drop_units-AllUnits, Buckets.found-All,
}

abbrev pub taken : (Piece → ℕ) → List Pick → ℕ
taken g picks = sum_by (λ p. g p.piece) picks

-- What a choice and the removal of what it chose keep.
abbrev pub Splits : (Piece → Type 0) → List Bucket → List Pick → List Bucket → Type 0
Splits P bs picks rest =
    ((g : Piece → ℕ) → weight g rest + taken g picks ≡ weight g bs)
    × All (λ p. P p.piece) picks
    × IsKeyed rest
    × AllUnits P rest

abbrev Found : List Bucket → Bucket → Type 0
Found bs c = find_bucket c.key bs ≡ some c

still-Found :
    (n k : ℕ) (bs cs : List Bucket)
    → sum_by (has_key k) cs ≡ 0
    → All (Found bs) cs
    → All (Found (drop_units n k bs)) cs
still-Found n k bs [] none_ f = tt
still-Found n k bs (c ∷ cs) none_ f =
    let other : (c.key == k) ≡ false = ground (arith, none_) in
    (
      rw (find-drop_units n k c.key bs other) (f.0),
      still-Found n k bs cs (ground (arith, none_)) (f.1),
    )

abbrev Removes : (Piece → Type 0) → List Bucket → List Pick → Type 0
Removes P bs picks = Splits P bs picks (remove_firsts picks bs)

remove_one :
    (P : Piece → Type 0) (bs : List Bucket) (c : Bucket) (u : Piece) (us : List Piece)
    (picks : List Pick)
    → c.units ≡ u ∷ us
    → Found bs c
    → P u
    → Removes P (drop_units 1 c.key bs) picks
    → Removes P bs (pick_from c.key u ∷ picks)
unfolding remove_firsts
remove_one P bs c u us picks e f p (total, ps, v, qs) =
    (λ g. ground (arith, total g, weight-drop_units g 1 c.key bs c f, e), (p, ps), v, qs)

All_head :
    (P : Piece → Type 0) (xs : List Piece) (u : Piece) (us : List Piece)
    → xs ≡ u ∷ us
    → All P xs
    → P u
All_head P [] u us e ps = cc
All_head P (x ∷ xs) u us e ps = let same : x ≡ u = cc in rw (sym same) (ps.0)

remove_firsts-Splits :
    (P : Piece → Type 0) (bs cs : List Bucket)
    → IsKeyed bs
    → IsKeyed cs
    → AllUnits P bs
    → AllUnits P cs
    → All (Found bs) cs
    → Removes P bs (firsts cs)
unfolding remove_firsts
remove_firsts-Splits P bs [] v w ps qs f = (λ g. omega arith, tt, v, ps)
remove_firsts-Splits P bs (c ∷ cs) v w ps qs f = elim (List-cases c.units) [
  | inl e ↦
      rw (e, first_of) (remove_firsts-Splits P bs cs v (λ k. omega (arith, w k)) ps (qs.1) (f.1))
  | inr (u, us, e) ↦
      let alone : sum_by (has_key c.key) cs ≡ 0 = ground (arith, w c.key) in
      let p = All_head P c.units u us e (qs.0) in
      let rest =
        remove_firsts-Splits P (drop_units 1 c.key bs) cs (drop_units-IsKeyed 1 c.key bs v)
          (λ k. omega (arith, w k)) (drop_units-AllUnits P 1 c.key bs ps) (qs.1)
          (still-Found 1 c.key bs cs alone (f.1)) in
      rw (e, first_of) (remove_one P bs c u us (firsts cs) e (f.0) p rest)
]

-- The buckets that a group of different models takes its units from.
abbrev chosen : ℕ → List Bucket → List Bucket
chosen size bs = take size (sort_by larger_first (select is_filled bs))

chosen-le : (size : ℕ) (bs : List Bucket) (g : Bucket → ℕ) → sum_by g (chosen size bs) ≤ sum_by g bs
chosen-le size bs g = omega (
  arith,
  sum_by-take-le g size (sort_by larger_first (select is_filled bs)),
  sum_by-sort_by larger_first g (select is_filled bs),
  sum_by-select-le g is_filled bs,
)

All-chosen : (Q : Bucket → Type 0) (size : ℕ) (bs : List Bucket) → All Q bs → All Q (chosen size bs)
All-chosen Q size bs qs =
    All-take Q size (sort_by larger_first (select is_filled bs))
      (All-sort_by larger_first Q (select is_filled bs) (All-select Q is_filled bs qs))

chosen-filled : (size : ℕ) (bs : List Bucket) → All (λ c. is_filled c ≡ true) (chosen size bs)
chosen-filled size bs =
    All-take (λ c. is_filled c ≡ true) size (sort_by larger_first (select is_filled bs))
      (All-sort_by larger_first (λ c. is_filled c ≡ true) (select is_filled bs)
        (All-selected is_filled bs))

length-firsts :
    (cs : List Bucket) → All (λ c. is_filled c ≡ true) cs → length (firsts cs) ≡ length cs
length-firsts [] f = refl
length-firsts (c ∷ cs) f = elim (List-cases c.units) [
  | inl e ↦ absurd (ground (arith, f.0, e))
  | inr (u, us, e) ↦ rw (e, first_of) (ap suc (length-firsts cs (f.1)))
]

-- A group of `size` units.
abbrev pub Groups : (Piece → Type 0) → ℕ → List Bucket → List Pick → List Bucket → Type 0
Groups P size bs picks rest = (length picks ≡ size) × Splits P bs picks rest

choose_different-Groups :
    (P : Piece → Type 0) (size : ℕ) (bs : List Bucket) (picks : List Pick)
    → IsKeyed bs
    → AllUnits P bs
    → choose_different size bs ≡ some picks
    → Groups P size bs picks (remove_firsts picks bs)
unfolding choose_different
choose_different-Groups P size bs picks v ps e =
    let filled = select is_filled bs in
    let cs = chosen size bs in
    let enough : ltb (length filled) size ≡ false = ground (arith, e) in
    let same : picks ≡ firsts cs = ground (arith, e, enough) in
    let splits =
      remove_firsts-Splits P bs cs v (λ k. omega (arith, v k, chosen-le size bs (has_key k))) ps
        (All-chosen (λ c. All P c.units) size bs ps)
        (All-chosen (Found bs) size bs (found-All bs v)) in
    let count : length cs ≡ size =
      length-take size (sort_by larger_first filled)
        (ground (arith, length-sort_by larger_first filled, enough)) in
    rw same (length-firsts cs (chosen-filled size bs) ∙ count, splits)

taken-map : (g : Piece → ℕ) (k : ℕ) (us : List Piece) → taken g (map (pick_from k) us) ≡ sum_by g us
taken-map g k [] = refl
taken-map g k (u ∷ us) = ap (λ n. g u + n) (taken-map g k us)

All-map :
    (P : Piece → Type 0) (k : ℕ) (us : List Piece)
    → All P us
    → All (λ p. P p.piece) (map (pick_from k) us)
All-map P k [] ps = tt
All-map P k (u ∷ us) ps = (ps.0, All-map P k us (ps.1))

remove_same-Splits :
    (P : Piece → Type 0) (size : ℕ) (bs : List Bucket) (c : Bucket)
    → IsKeyed bs
    → AllUnits P bs
    → All P c.units
    → Found bs c
    → let picks = map (pick_from c.key) (take size c.units) in
      Splits P bs picks (remove_same size picks bs)
unfolding remove_same
remove_same-Splits P size bs c v ps qs f = elim (List-cases (take size c.units)) [
  | inl e ↦ rw (e, map, remove_same) (λ g. omega arith, tt, v, ps)
  | inr (u, us, e) ↦
      let everything : All P (take size c.units) = All-take P size c.units qs in
      let all = All-map P c.key (u ∷ us) (rw (ap (All P) (sym e)) everything) in
      rw (e, map, remove_same)
        (
          λ g. ground (arith, weight-drop_units g size c.key bs c f, e, taken-map g c.key us),
          all,
          drop_units-IsKeyed size c.key bs v,
          drop_units-AllUnits P size c.key bs ps,
        )
]

choose_same_from :
    (P : Piece → Type 0) (size : ℕ) (bs filled : List Bucket) (picks : List Pick)
    → IsKeyed bs
    → AllUnits P bs
    → All (Found bs) filled
    → AllUnits P filled
    → length filled ≤ 1
    → same_from size filled ≡ some picks
    → Groups P size bs picks (remove_same size picks bs)
choose_same_from P size bs [] picks v ps f qs single e = absurd (ground (arith, e))
choose_same_from P size bs (c ∷ d ∷ ds) picks v ps f qs single e = absurd (omega arith)
choose_same_from P size bs (c ∷ []) picks v ps f qs single e =
    let enough : size ≤ length c.units = ground (arith, e) in
    let same : picks ≡ map (pick_from c.key) (take size c.units) = ground (arith, e) in
    rw same (
      length-map (pick_from c.key) (take size c.units) ∙ length-take size c.units enough,
      remove_same-Splits P size bs c v ps (qs.0) (f.0),
    )

choose_same-Groups :
    (P : Piece → Type 0) (size : ℕ) (bs : List Bucket) (picks : List Pick)
    → IsKeyed bs
    → AllUnits P bs
    → length bs ≤ 1
    → choose_same size bs ≡ some picks
    → Groups P size bs picks (remove_same size picks bs)
unfolding choose_same
choose_same-Groups P size bs picks v ps single e =
    choose_same_from P size bs (select is_filled bs) picks v ps
      (All-select (Found bs) is_filled bs (found-All bs v))
      (All-select (λ c. All P c.units) is_filled bs ps) (omega (arith, length-select is_filled bs))
      e

abbrev pub IsSingle : Bundle → List Bucket → Type 0
IsSingle b bs = b.require_different_phone_models ≡ false → length bs ≤ 1

pub choose-Groups :
    (P : Piece → Type 0) (b : Bundle) (size : ℕ) (bs : List Bucket) (picks : List Pick)
    → IsKeyed bs
    → AllUnits P bs
    → IsSingle b bs
    → choose b size bs ≡ some picks
    → Groups P size bs picks (remove b size picks bs)
unfolding choose remove
choose-Groups P b size bs picks v ps single e = elim (Bool-cases b.require_different_phone_models) [
  | inl hit ↦ rw hit (choose_different-Groups P size bs picks v ps (ground (arith, e, hit)))
  | inr miss ↦
      rw miss (choose_same-Groups P size bs picks v ps (single miss) (ground (arith, e, miss)))
]

length-drop_units : (n k : ℕ) (bs : List Bucket) → length (drop_units n k bs) ≡ length bs
unfolding drop_units
length-drop_units n k [] = refl
length-drop_units n k (b ∷ bs) = ground (arith, length-drop_units n k bs)

length-remove_firsts :
    (picks : List Pick) (bs : List Bucket) → length (remove_firsts picks bs) ≡ length bs
unfolding remove_firsts
length-remove_firsts [] bs = refl
length-remove_firsts (p ∷ ps) bs =
    length-remove_firsts ps (drop_units 1 p.key bs) ∙ length-drop_units 1 p.key bs

length-remove_same :
    (size : ℕ) (picks : List Pick) (bs : List Bucket)
    → length (remove_same size picks bs) ≡ length bs
unfolding remove_same
length-remove_same size [] bs = refl
length-remove_same size (p ∷ ps) bs = length-drop_units size p.key bs

pub length-remove :
    (b : Bundle) (size : ℕ) (picks : List Pick) (bs : List Bucket)
    → length (remove b size picks bs) ≡ length bs
unfolding remove
length-remove b size picks bs =
    ground (arith, length-remove_firsts picks bs, length-remove_same size picks bs)
