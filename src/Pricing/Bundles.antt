-- ===== src/Pricing/Bundles.antt =====
-- Bundle promotions: `computeBundleInstances` of
-- src/modules/promotions/bundles/bundle-pricing.util.ts.
pub mod Groups
pub mod Buckets
pub mod Picks
pub mod Rounds
pub mod Claims
use phone_cases_backend.Prelude.{
  ℕ, zero, suc, ◌+◌, ◌-◌, ◌*◌, ◌^◌, Bool, true, false, not, ◌&&◌, ◌||◌, Option, none, some, List,
  [], ◌∷◌, ◌++◌, map, ltb, leb, ◌==◌, is_some, is_some_and, or_else, select, take, drop, length,
  sum, sum_by, if◌then◌else◌,
}
use phone_cases_backend.Prelude.Sorting.{sort_by}
use phone_cases_backend.Pricing.Allocation.{allocate_discount}
use phone_cases_backend.Pricing.View.{Share, Instance}

pub data Scope : Type 0 where
  specific_variants all_products products collections case_types phone_brands phone_models : Scope

-- `eligible_variants` is a map from variants to surcharges; a field of `none` is absent.
pub record Bundle : Type 0 where
  pub id : ℕ
  pub fixed_total : ℕ
  pub currency : ℕ
  pub require_different_phone_models : Bool
  pub is_repeatable : Bool
  pub allow_coupon_stacking : Bool
  pub eligible_variants : List (ℕ × ℕ)
  pub scope : Option Scope
  pub target_ids : List ℕ
  pub bundle_size : Option ℕ
  pub min_unit_price : Option ℕ
  pub max_surcharge : Option ℕ

pub record SourceLine : Type 0 where
  pub line_index : ℕ
  pub variant : ℕ
  pub phone_model : Option ℕ
  pub unit_price : ℕ
  pub quantity : ℕ
  pub currency : ℕ
  pub product : Option ℕ
  pub case_type : Option ℕ
  pub phone_brand : Option ℕ
  pub collections : List ℕ

abbrev pub default_bundle_size : ℕ
default_bundle_size = 2

abbrev pub size_of : Bundle → ℕ
size_of b = or_else b.bundle_size default_bundle_size

abbrev pub contains : ℕ → List ℕ → Bool
contains k [] = false
contains k (x ∷ xs) = (x == k) || contains k xs

abbrev pub contains_any : List ℕ → List ℕ → Bool
contains_any [] targets = false
contains_any (k ∷ ks) targets = contains k targets || contains_any ks targets

-- `map.get(k)` of the surcharges; a `Map` has one entry for a key.
abbrev pub surcharge_of : ℕ → List (ℕ × ℕ) → Option ℕ
surcharge_of k [] = none
surcharge_of k ((v, s) ∷ rest) = if v == k then some s else surcharge_of k rest

abbrev pub is_target : List ℕ → Option ℕ → Bool
is_target targets id = is_some_and (λ k. contains k targets) id

abbrev pub fits_scope : Scope → SourceLine → Bundle → Bool
fits_scope all_products l b = true
fits_scope specific_variants l b = is_some (surcharge_of l.variant b.eligible_variants)
fits_scope products l b = is_target b.target_ids l.product
fits_scope collections l b = contains_any l.collections b.target_ids
fits_scope case_types l b = is_target b.target_ids l.case_type
fits_scope phone_brands l b = is_target b.target_ids l.phone_brand
fits_scope phone_models l b = is_target b.target_ids l.phone_model

-- `isLineEligible`
unfoldable pub is_line_eligible : SourceLine → Bundle → Bool
is_line_eligible l b = fits_scope (or_else b.scope specific_variants) l b

abbrev pub is_eligible : Bundle → SourceLine → Bool
is_eligible b l = (l.currency == b.currency) && is_line_eligible l b

-- One physical unit of a line.
pub record Piece : Type 0 where
  pub line_index : ℕ
  pub phone_model : Option ℕ
  pub price : ℕ
  pub surcharge : ℕ

abbrev pub is_variant_scope : Option Scope → Bool
is_variant_scope none = true
is_variant_scope (some specific_variants) = true
is_variant_scope (some _) = false

abbrev pub surcharge_on : Bundle → SourceLine → ℕ
surcharge_on b l =
    if is_variant_scope b.scope then or_else (surcharge_of l.variant b.eligible_variants) 0 else 0

abbrev pub piece_of : Bundle → SourceLine → Piece
piece_of b l = record {
  line_index = l.line_index;
  phone_model = l.phone_model;
  price = l.unit_price;
  surcharge = surcharge_on b l;
}

abbrev pub replicate : {A : Type 0} → ℕ → A → List A
replicate zero x = []
replicate (suc n) x = x ∷ replicate n x

-- How many units of each line are left: `remainingQuantityByLine`.
abbrev pub Remaining : Type 0
Remaining = ℕ → ℕ

-- `new Map(lines.map(...))`: the last line with an index counts.
unfoldable pub quantities : List SourceLine → Remaining
quantities [] i = 0
quantities (l ∷ ls) i = elim (select (λ m. m.line_index == i) ls) [
  | [] ↦ if l.line_index == i then l.quantity else 0
  | m ∷ ms ↦ quantities ls i
]

pub pieces : Bundle → Remaining → List SourceLine → List Piece
pieces b left [] = []
pieces b left (l ∷ ls) = replicate (left l.line_index) (piece_of b l) ++ pieces b left ls

-- A key of a bucket is the place of its text in the order of texts. The text of the units with no
-- phone model starts with an underscore, which stands between the digits and the letters, and so
-- between the UUIDs that start with a digit and the others.
abbrev pub first_letter_id : ℕ
first_letter_id = 10 * 16 ^ 31

pub bucket_key : Option ℕ → ℕ
bucket_key none = first_letter_id
bucket_key (some m) = if ltb m first_letter_id then m else m + 1

-- All units share one bucket where the models need not differ.
unfoldable pub key_of : Bundle → Piece → ℕ
unfolding bucket_key
key_of b u = if b.require_different_phone_models then bucket_key u.phone_model else 0

pub record Bucket : Type 0 where
  pub key : ℕ
  pub units : List Piece

-- One unit more, in the order of first insertion.
pub add_unit : ℕ → Piece → List Bucket → List Bucket
add_unit k u [] = record { key = k; units = u ∷ [] } ∷ []
add_unit k u (b ∷ bs) =
    if b.key == k then (record b { units = b.units ++ (u ∷ []) }) ∷ bs else b ∷ add_unit k u bs

pub fill_buckets : Bundle → List Bucket → List Piece → List Bucket
unfolding add_unit key_of
fill_buckets b done [] = done
fill_buckets b done (u ∷ us) = fill_buckets b (add_unit (key_of b u) u done) us

abbrev pub dearer_first : Piece → Piece → Bool
dearer_first x y = leb y.price x.price

abbrev pub sort_bucket : Bucket → Bucket
sort_bucket b = record b { units = sort_by dearer_first b.units }

unfoldable pub make_buckets : Bundle → Remaining → List SourceLine → List Bucket
unfolding fill_buckets pieces
make_buckets b left lines =
    map sort_bucket (fill_buckets b [] (pieces b left (select (is_eligible b) lines)))

-- A unit that a round takes, with the key of its bucket.
pub record Pick : Type 0 where
  pub key : ℕ
  pub piece : Piece

abbrev pub is_filled : Bucket → Bool
is_filled b = ltb 0 (length b.units)

-- The comparator: longer buckets first, then by key.
abbrev pub larger_first : Bucket → Bucket → Bool
larger_first x y =
    ltb (length y.units) (length x.units) || ((length x.units == length y.units) && leb x.key y.key)

abbrev pub pick_from : ℕ → Piece → Pick
pick_from k u = record { key = k; piece = u }

abbrev pub first_of : ℕ → List Piece → List Pick
first_of k [] = []
first_of k (u ∷ us) = pick_from k u ∷ []

-- The first unit of each bucket; none of them is empty here.
abbrev pub firsts : List Bucket → List Pick
firsts [] = []
firsts (b ∷ bs) = first_of b.key b.units ++ firsts bs

-- One unit from each of the `size` largest buckets.
unfoldable pub choose_different : ℕ → List Bucket → Option (List Pick)
choose_different size buckets =
    let filled = select is_filled buckets in
    if ltb (length filled) size
    then none
    else some (firsts (take size (sort_by larger_first filled)))

abbrev pub same_from : ℕ → List Bucket → Option (List Pick)
same_from size [] = none
same_from size (b ∷ bs) =
    if ltb (sum_by (λ c. length c.units) (b ∷ bs)) size
    then none
    else some (map (pick_from b.key) (take size b.units))

-- `size` units from the first bucket that has any. (With a size of 0 no bucket is an error of the
-- source; no size is under 2 here.)
unfoldable pub choose_same : ℕ → List Bucket → Option (List Pick)
choose_same size buckets = same_from size (select is_filled buckets)

unfoldable pub choose : Bundle → ℕ → List Bucket → Option (List Pick)
unfolding choose_different choose_same
choose b size buckets =
    if b.require_different_phone_models
    then choose_different size buckets
    else choose_same size buckets

-- `buckets.set(key, bucket.slice(n))`
unfoldable pub drop_units : ℕ → ℕ → List Bucket → List Bucket
drop_units n k [] = []
drop_units n k (b ∷ bs) =
    if b.key == k then (record b { units = drop n b.units }) ∷ bs else b ∷ drop_units n k bs

unfoldable pub remove_firsts : List Pick → List Bucket → List Bucket
unfolding drop_units
remove_firsts [] buckets = buckets
remove_firsts (p ∷ ps) buckets = remove_firsts ps (drop_units 1 p.key buckets)

unfoldable pub remove_same : ℕ → List Pick → List Bucket → List Bucket
unfolding drop_units
remove_same size [] buckets = buckets
remove_same size (p ∷ ps) buckets = drop_units size p.key buckets

unfoldable pub remove : Bundle → ℕ → List Pick → List Bucket → List Bucket
unfolding remove_firsts remove_same
remove b size picks buckets =
    if b.require_different_phone_models
    then remove_firsts picks buckets
    else remove_same size picks buckets

-- The units that a round took are no longer left, for any bundle.
unfoldable pub claim : List Pick → Remaining → Remaining
claim [] left = left
claim (p ∷ ps) left = claim ps (λ i. if i == p.piece.line_index then left i - 1 else left i)

abbrev pub share_out : List Pick → List ℕ → List Share
share_out [] ds = []
share_out (p ∷ ps) [] = []
share_out (p ∷ ps) (d ∷ ds) =
    record { line_index = p.piece.line_index; discount = d } ∷ share_out ps ds

abbrev pub normal_of : List Pick → ℕ
normal_of picks = sum_by (λ p. p.piece.price) picks

abbrev pub effective_of : Bundle → List Pick → ℕ
effective_of b picks = b.fixed_total + sum_by (λ p. p.piece.surcharge) picks

unfoldable pub make_instance : Bundle → List Pick → Instance
make_instance b picks =
    let discount = normal_of picks - effective_of b picks in
    record {
      bundle = b.id;
      fixed_total_applied = effective_of b picks;
      normal_subtotal = normal_of picks;
      discount_amount = discount;
      unit_allocations =
          share_out picks (allocate_discount (map (λ p. p.piece.price) picks) discount);
    }
