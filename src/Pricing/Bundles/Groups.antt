-- ===== src/Pricing/Bundles/Groups.antt =====
-- The groups of bundles: the loops of `computeBundleInstances`.
use phone_cases_backend.Prelude.{
  ℕ, zero, suc, Bool, true, false, not, ◌&&◌, Option, none, some, List, [], ◌∷◌, ◌++◌, ltb, length,
  sum_by, if◌then◌else◌,
}
use phone_cases_backend.Pricing.View.{Instance}
use phone_cases_backend.Pricing.Bundles.{
  Bundle, SourceLine, size_of, Remaining, quantities, Bucket, make_buckets, Pick, choose, remove,
  claim, normal_of, effective_of, make_instance,
}

-- The variables of the loop over the groups of one bundle.
pub record Grouping : Type 0 where
  pub buckets : List Bucket
  pub left : Remaining
  pub instances : List Instance
  pub formed_any : Bool

abbrev pub take_group : Bundle → ℕ → List Pick → Grouping → Grouping
take_group b size picks s = record {
  buckets = remove b size picks s.buckets;
  left = claim picks s.left;
  instances = s.instances ++ (make_instance b picks ∷ []);
  formed_any = true;
}

abbrev pub group_or_stop : Bundle → ℕ → Option (List Pick) → Grouping → Option Grouping
group_or_stop b size none s = none
group_or_stop b size (some picks) s =
    if ltb (normal_of picks) (effective_of b picks) then none else some (take_group b size picks s)

-- One round of the loop; `none` is a `break`.
unfoldable pub form_group : Bundle → ℕ → Grouping → Option Grouping
unfolding choose remove claim make_instance
form_group b size s =
    if not b.is_repeatable && s.formed_any
    then none
    else group_or_stop b size (choose b size s.buckets) s

-- `while (true)`, on fuel.
unfoldable pub form_groups : ℕ → Bundle → ℕ → Grouping → Grouping
unfolding form_group
form_groups zero b size s = s
form_groups (suc fuel) b size s = elim (form_group b size s) [
  | none ↦ s
  | some s' ↦ form_groups fuel b size s'
]

abbrev pub unit_count : List Bucket → ℕ
unit_count buckets = sum_by (λ b. length b.units) buckets

-- The groups of one bundle, on top of those of the bundles before it. Every round takes at least
-- one unit, so that there are no more rounds than units.
unfoldable pub apply_bundle :
    Bool → List SourceLine → Remaining × List Instance → Bundle → Remaining × List Instance
unfolding make_buckets form_groups
apply_bundle coupon_is_applied lines (left, done) b =
    let buckets = make_buckets b left lines in
    let start : Grouping = record {
      buckets = buckets;
      left = left;
      instances = done;
      formed_any = false;
    } in
    let end = form_groups (unit_count buckets) b (size_of b) start in
    if coupon_is_applied && not b.allow_coupon_stacking
    then (left, done)
    else if ltb (size_of b) 2
    then (left, done)
    else (end.left, end.instances)

unfoldable pub apply_bundles :
    Bool → List SourceLine → List Bundle → Remaining × List Instance → Remaining × List Instance
unfolding apply_bundle
apply_bundles coupon lines [] s = s
apply_bundles coupon lines (b ∷ bs) s =
    apply_bundles coupon lines bs (apply_bundle coupon lines s b)

unfoldable pub compute_bundle_instances : List SourceLine → List Bundle → Bool → List Instance
unfolding apply_bundles quantities
compute_bundle_instances lines bundles coupon_is_applied =
    (apply_bundles coupon_is_applied lines bundles (quantities lines, [])).1
