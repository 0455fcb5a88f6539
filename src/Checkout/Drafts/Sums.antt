-- ===== src/Checkout/Drafts/Sums.antt =====
-- The lines of a new order add up to its totals.
use phone_cases_backend.Prelude.{
  ℕ, ◌+◌, ◌-◌, ◌*◌, ◌≤◌, ◌≡◌, refl, sym, ap, ◌∙◌, true, List, [], ◌∷◌, ◌++◌, map, ltb, ◌==◌, sum,
  sum_by, sum_by-append, All, All-append, if◌then◌else◌, Bool-cases, inl, inr, arith,
}
use native.Mathlib.Nat.{mul-add}
use phone_cases_backend.Pricing.View.{
  CartItem, Share, Instance, share_of, line_discount, line_discounts_from, subtotal_of,
  effective_unit_price, is_available,
}
use phone_cases_backend.Pricing.Bundles.{Rounds.claimed, Rounds.IsGood, Rounds.IsFair}
use phone_cases_backend.Pricing.CartView.{
  Lines.price_at, Lines.units_at, Lines.price_at-later, Lines.units_at-later,
}
use phone_cases_backend.Checkout.Drafts.{
  Usage, Draft, add_use, uses_of_group, uses_from, usage_of_line, grouped_draft, plain_draft,
  drafts_of, drafts_from, draft_subtotal,
}

abbrev used : List Usage → ℕ
used us = sum_by (λ u. u.quantity) us

abbrev taken_off : List Usage → ℕ
taken_off us = sum_by (λ u. u.discount) us

-- A price that no unit's discount is above.
abbrev IsCheap : ℕ → Usage → Type 0
IsCheap price u = u.discount ≤ price * u.quantity

add_use_lem :
    (price k d : ℕ) (us : List Usage)
    → d ≤ price
    → All (IsCheap price) us
    → (used (add_use k d us) ≡ used us + 1)
      × (taken_off (add_use k d us) ≡ taken_off us + d)
      × All (IsCheap price) (add_use k d us)
unfolding add_use
add_use_lem price k d [] le cheap = (omega arith, omega arith, (omega (arith, le), tt))
add_use_lem price k d (u ∷ us) le cheap =
    let (more, off, cheap') = add_use_lem price k d us le (cheap.1) in
    elim (Bool-cases (u.group == k)) [
      | inl hit ↦ rw hit (omega arith, omega arith, (ground (arith, le, cheap.0), cheap.1))
      | inr miss ↦ rw miss (omega (arith, more), omega (arith, off), (cheap.0, cheap'))
    ]

abbrev Uses : ℕ → ℕ → ℕ → List Usage → List Usage → Type 0
Uses price n d us us' =
    (used us' ≡ used us + n) × (taken_off us' ≡ taken_off us + d) × All (IsCheap price) us'

uses_of_group_lem :
    (price : ℕ → ℕ) (n i k : ℕ) (as_ : List Share) (us : List Usage)
    → All (IsFair price n) as_
    → All (IsCheap (price i)) us
    → Uses
        (price i)
        (sum_by (λ a. if a.line_index == i then 1 else 0) as_)
        (sum_by (share_of i) as_)
        us
        (uses_of_group i k as_ us)
unfolding uses_of_group
uses_of_group_lem price n i k [] us fair cheap = (omega arith, omega arith, cheap)
uses_of_group_lem price n i k (a ∷ as_) us fair cheap = elim (Bool-cases (a.line_index == i)) [
  | inl hit ↦
      let le : a.discount ≤ price i = ground (arith, fair.0.1, hit) in
      let (more, off, cheap') = add_use_lem (price i) k a.discount us le cheap in
      let (more', off', cheap'') =
        uses_of_group_lem price n i k as_ (add_use k a.discount us) (fair.1) cheap' in
      rw hit (omega (arith, more, more'), omega (arith, off, off'), cheap'')
  | inr miss ↦
      let (more', off', cheap'') = uses_of_group_lem price n i k as_ us (fair.1) cheap in
      rw miss (omega (arith, more'), omega (arith, off'), cheap'')
]

uses_from_lem :
    (price : ℕ → ℕ) (n i k : ℕ) (bs : List Instance) (us : List Usage)
    → All (IsGood price n) bs
    → All (IsCheap (price i)) us
    → Uses (price i) (claimed i bs) (line_discount i bs) us (uses_from i k bs us)
unfolding uses_from
uses_from_lem price n i k [] us good cheap = (omega arith, omega arith, cheap)
uses_from_lem price n i k (b ∷ bs) us ((two, paid, total, fair), good) cheap =
    let (more, off, cheap') = uses_of_group_lem price n i k b.unit_allocations us fair cheap in
    let (more', off', cheap'') =
      uses_from_lem price n i (k + 1) bs (uses_of_group i k b.unit_allocations us) good cheap' in
    (omega (arith, more, more'), omega (arith, off, off'), cheap'')

-- What drafts of quantity `q`, subtotal `s` and bundle discount `d` in all are like; none of them
-- has a discount above its subtotal.
abbrev pub Totals : List Draft → ℕ → ℕ → ℕ → Type 0
Totals ds q s d =
    (sum_by (λ x. x.quantity) ds ≡ q)
    × (sum_by draft_subtotal ds ≡ s)
    × (sum_by (λ x. x.bundle_discount) ds ≡ d)
    × All (λ x. x.bundle_discount ≤ draft_subtotal x) ds

Totals-append :
    (xs ys : List Draft) (q s d q' s' d' : ℕ)
    → Totals xs q s d
    → Totals ys q' s' d'
    → Totals (xs ++ ys) (q + q') (s + s') (d + d')
Totals-append xs ys q s d q' s' d' (a, b, c, h) (a', b', c', h') = (
  omega (arith, sum_by-append (λ x. x.quantity) xs ys, a, a'),
  omega (arith, sum_by-append draft_subtotal xs ys, b, b'),
  omega (arith, sum_by-append (λ x. x.bundle_discount) xs ys, c, c'),
  All-append (λ x. x.bundle_discount ≤ draft_subtotal x) xs ys h h',
)

grouped-Totals :
    (item : CartItem) (us : List Usage)
    → All (IsCheap (effective_unit_price item.variant)) us
    → Totals
        (map (grouped_draft item) us)
        (used us)
        (effective_unit_price item.variant * used us)
        (taken_off us)
grouped-Totals item [] cheap = (refl, omega arith, refl, tt)
grouped-Totals item (u ∷ us) cheap =
    let (a, b, c, h) = grouped-Totals item us (cheap.1) in
    (omega (arith, a), ground (arith, b), omega (arith, c), (cheap.0, h))

rest-Totals :
    (item : CartItem) (n : ℕ)
    → Totals
        (if ltb 0 n then plain_draft item n ∷ [] else [])
        n
        (effective_unit_price item.variant * n)
        0
rest-Totals item n = elim (Bool-cases (ltb 0 n)) [
  | inl more ↦ rw more (omega arith, omega arith, refl, (omega arith, tt))
  | inr none_ ↦ rw none_ (ground (arith, none_), zero_rest (ground (arith, none_)), refl, tt)
]
  where
    zero_rest : n ≡ 0 → 0 ≡ effective_unit_price item.variant * n
    zero_rest e = rw (ap (λ m. effective_unit_price item.variant * m) e) (omega arith)

drafts_of-Totals :
    (item : CartItem) (us : List Usage)
    → All (IsCheap (effective_unit_price item.variant)) us
    → used us ≤ item.quantity
    → Totals
        (drafts_of item us)
        item.quantity
        (effective_unit_price item.variant * item.quantity)
        (taken_off us)
unfolding drafts_of
drafts_of-Totals item us cheap fits =
    let p = effective_unit_price item.variant in
    let left = item.quantity - used us in
    let (a, b, c, h) =
      Totals-append (map (grouped_draft item) us)
        (if ltb 0 left then plain_draft item left ∷ [] else []) (used us) (p * used us)
        (taken_off us) left (p * left) 0 (grouped-Totals item us cheap) (rest-Totals item left) in
    (omega (arith, a, fits), b ∙ whole p (used us) item.quantity fits, omega (arith, c), h)
  where
    whole : (p a q : ℕ) → a ≤ q → p * a + p * (q - a) ≡ p * q
    whole p a q le = ap (λ m. m) (sym (mul-add p a (q - a))) ∙ ap (λ m. p * m) (omega (arith, le))

-- All lines of an order can be bought.
abbrev pub AreAvailable : List CartItem → Type 0
AreAvailable items = All (λ x. is_available x ≡ true) items

pub drafts_from-Totals :
    (items : List CartItem) (n k : ℕ) (groups : List Instance) (price : ℕ → ℕ)
    → AreAvailable items
    → All (IsGood price n) groups
    → ((i : ℕ) → price (k + i) ≡ price_at items i)
    → ((i : ℕ) → claimed (k + i) groups ≤ units_at items i)
    → Totals
        (drafts_from k items groups)
        (sum_by (λ x. x.quantity) items)
        (subtotal_of items)
        (sum (line_discounts_from k items groups))
unfolding drafts_from line_discounts_from
drafts_from-Totals [] n k groups price there good priced fits = (refl, refl, refl, tt)
drafts_from-Totals (x ∷ xs) n k groups price there good priced fits =
    let at_zero : k + 0 ≡ k = omega arith in
    let p : price k ≡ effective_unit_price x.variant = ap price (sym at_zero) ∙ priced 0 in
    let (count, off, cheap) = uses_from_lem price n k 0 groups [] good tt in
    let enough : claimed k groups ≤ (if is_available x then x.quantity else 0) =
      rw (ap (λ i. claimed i groups) (sym at_zero)) (fits 0) in
    let mine =
      drafts_of-Totals x (usage_of_line groups k) (rw (sym p) cheap)
        (ground (arith, count, enough, there.0)) in
    let rest =
      drafts_from-Totals xs n (k + 1) groups price (there.1) good
        (λ i. priced_later i (omega arith)) (λ i. fits_later i (omega arith)) in
    let (a, b, c, h) =
      Totals-append (drafts_of x (usage_of_line groups k)) (drafts_from (k + 1) xs groups)
        x.quantity (effective_unit_price x.variant * x.quantity)
        (taken_off (usage_of_line groups k)) (sum_by (λ y. y.quantity) xs) (subtotal_of xs)
        (sum (line_discounts_from (k + 1) xs groups)) mine rest in
    (a, ground (arith, b, there.0), omega (arith, c, off), h)
  where
    priced_later : (i : ℕ) → k + 1 + i ≡ k + (i + 1) → price (k + 1 + i) ≡ price_at xs i
    priced_later i e = ap price e ∙ priced (i + 1) ∙ price_at-later x xs i

    fits_later : (i : ℕ) → k + 1 + i ≡ k + (i + 1) → claimed (k + 1 + i) groups ≤ units_at xs i
    fits_later i e =
        omega (arith, fits (i + 1), units_at-later x xs i, ap (λ j. claimed j groups) e)
