-- ===== src/Texts/Phones.antt =====
-- Phone numbers: src/common/utils/phone.util.ts. A digit is a code unit from 48 on; 43 is the plus.
use phone_cases_backend.Prelude.{
  ℕ, ◌+◌, ◌-◌, ◌≡◌, refl, ap, Bool, true, false, not, ◌&&◌, ◌||◌, Option, none, some, [], ◌∷◌, inl,
  inr, length, select, map, All, Bool-cases, ◌==◌, if◌then◌else◌, implies, arith,
}
use phone_cases_backend.Prelude.Results.{Result, ok, err}
use phone_cases_backend.Errors.{Error, bad_request}
use phone_cases_backend.Texts.{Text, is_between, is_space, trim_start, trim_end, trim}

-- `toWesternDigits`, for one code unit: Arabic-Indic and Extended Arabic-Indic digits.
abbrev to_western_digit : ℕ → ℕ
to_western_digit c =
    if is_between 1632 1641 c
    then (c - 1632) + 48
    else if is_between 1776 1785 c
    then (c - 1776) + 48
    else c

-- What `[\s\-().]` takes out.
abbrev is_separator : ℕ → Bool
is_separator c = is_space c || c == 45 || c == 40 || c == 41 || c == 46

unfoldable pub strip : Text → Text
strip raw = select (λ c. not (is_separator c)) (map to_western_digit (trim raw))

abbrev is_digit : ℕ → Bool
is_digit c = is_between 48 57 c

abbrev all_digits : Text → Bool
all_digits [] = true
all_digits (c ∷ t) = is_digit c && all_digits t

abbrev drop_plus : Text → Text
drop_plus [] = []
drop_plus (c ∷ t) = if c == 43 then t else c ∷ t

abbrev is_6_to_15_digits : Text → Bool
is_6_to_15_digits t = all_digits t && is_between 6 15 (length t)

-- `^\+?\d{6,15}$`
abbrev pub is_phone : Text → Bool
is_phone t = is_6_to_15_digits (drop_plus t)

-- `countryCode.toUpperCase() === 'EG'`
abbrev pub is_egypt : Text → Bool
is_egypt (c ∷ d ∷ []) = (c == 69 || c == 101) && (d == 71 || d == 103)
is_egypt [] = false
is_egypt (c ∷ []) = false
is_egypt (c ∷ d ∷ e ∷ t) = false

-- `^01[0125]\d{8}$`
abbrev pub is_egyptian : Text → Bool
is_egyptian (a ∷ b ∷ c ∷ t) =
    a == 48
    && b == 49
    && (c == 48 || c == 49 || c == 50 || c == 53)
    && all_digits t
    && length t == 8
is_egyptian [] = false
is_egyptian (a ∷ []) = false
is_egyptian (a ∷ b ∷ []) = false

-- What follows a leading `20`.
abbrev after_20 : Text → Option Text
after_20 [] = none
after_20 (a ∷ []) = none
after_20 (a ∷ b ∷ t) = if a == 50 && b == 48 then some t else none

abbrev without_country_code : Text → Text
without_country_code t = elim (after_20 (drop_plus t)) [ some rest ↦ 48 ∷ rest | none ↦ t ]

abbrev check_egyptian : Text → Result Error Text
check_egyptian t = if is_egyptian t then ok t else err bad_request

abbrev check_phone : Text → Text → Result Error Text
check_phone country t =
    if not (is_phone t)
    then err bad_request
    else if is_egypt country
    then check_egyptian (without_country_code t)
    else ok t

unfoldable pub normalize_phone_number : Text → Text → Result Error Text
normalize_phone_number raw country = check_phone country (strip raw)

abbrev is_plain : ℕ → Bool
is_plain c = is_digit c || c == 43

abbrev Plain : Text → Type 0
Plain t = All (λ c. is_plain c ≡ true) t

trim_start_unchanged : (t : Text) → Plain t → trim_start t ≡ t
unfolding trim_start
trim_start_unchanged [] h = refl
trim_start_unchanged (c ∷ t) h = let s : is_space c ≡ false = ground (arith, h.0) in rw s refl

trim_end_unchanged : (t : Text) → Plain t → trim_end t ≡ t
unfolding trim_end
trim_end_unchanged [] h = refl
trim_end_unchanged (c ∷ []) h = let s : is_space c ≡ false = ground (arith, h.0) in rw s refl
trim_end_unchanged (c ∷ d ∷ t) h = rw (trim_end_unchanged (d ∷ t) h.1) refl

separators_unchanged :
    (t : Text) → Plain t → select (λ c. not (is_separator c)) (map to_western_digit t) ≡ t
separators_unchanged [] h = refl
separators_unchanged (c ∷ t) h =
    let same : to_western_digit c ≡ c = ground (arith, h.0) in
    let kept : is_separator c ≡ false = ground (arith, h.0) in
    rw same (rw kept (ap (λ r. c ∷ r) (separators_unchanged t h.1)))

-- Digits and the plus survive as they are.
strip_unchanged : (t : Text) → Plain t → strip t ≡ t
unfolding strip
strip_unchanged t h =
    rw (trim_start_unchanged t h) (rw (trim_end_unchanged t h) (separators_unchanged t h))

all_digits-Plain : (t : Text) → all_digits t ≡ true → Plain t
all_digits-Plain [] h = tt
all_digits-Plain (c ∷ t) h = (ground (arith, h), all_digits-Plain t (ground (arith, h)))

is_phone-Plain : (t : Text) → is_phone t ≡ true → Plain t
is_phone-Plain [] h = tt
is_phone-Plain (c ∷ t) h = elim (Bool-cases (c == 43)) [
  | inl plus ↦ (ground (arith, plus), all_digits-Plain t (ground (arith, h, plus)))
  | inr other ↦ all_digits-Plain (c ∷ t) (ground (arith, h, other))
]

without_country_code_kept : (t : Text) → is_egyptian t ≡ true → without_country_code t ≡ t
without_country_code_kept [] h = absurd cc
without_country_code_kept (a ∷ []) h = absurd cc
without_country_code_kept (a ∷ b ∷ []) h = absurd cc
without_country_code_kept (a ∷ b ∷ c ∷ t) h =
    let plus : (a == 43) ≡ false = ground (arith, h) in
    let prefix : (a == 50) ≡ false = ground (arith, h) in
    rw (without_country_code, plus) (rw prefix refl)

is_egyptian-IsPhone : (t : Text) → is_egyptian t ≡ true → is_phone t ≡ true
is_egyptian-IsPhone [] h = absurd cc
is_egyptian-IsPhone (a ∷ []) h = absurd cc
is_egyptian-IsPhone (a ∷ b ∷ []) h = absurd cc
is_egyptian-IsPhone (a ∷ b ∷ c ∷ t) h =
    let plus : (a == 43) ≡ false = ground (arith, h) in rw plus (ground (arith, h))

abbrev pub IsNormal : Text → Text → Type 0
IsNormal country p = (is_phone p ≡ true) × (implies (is_egypt country) (is_egyptian p) ≡ true)

check_phone-IsNormal : (country t p : Text) → check_phone country t ≡ ok p → IsNormal country p
check_phone-IsNormal country t p done = elim (Bool-cases (is_phone t)) [
  | inr bad ↦ absurd (ground (arith, done, bad))
  | inl good ↦ elim (Bool-cases (is_egypt country)) [
    | inr abroad ↦
        let same : t ≡ p = ground (arith, done, good, abroad) in rw (← same) (good, rw abroad refl)
    | inl home ↦ elim (Bool-cases (is_egyptian (without_country_code t))) [
      | inr bad ↦ absurd (ground (arith, done, good, home, bad))
      | inl ours ↦
          let same : without_country_code t ≡ p = ground (arith, done, good, home, ours) in
          rw (← same) (is_egyptian-IsPhone (without_country_code t) ours, rw home ours)
    ]
  ]
]

check_phone_normal : (country p : Text) → IsNormal country p → check_phone country p ≡ ok p
check_phone_normal country p (good, fits) = elim (Bool-cases (is_egypt country)) [
  | inr abroad ↦ rw good (rw abroad refl)
  | inl home ↦
      let ours : is_egyptian p ≡ true = ground (arith, fits, home) in
      rw good (rw home (rw (without_country_code_kept p ours) (rw ours refl)))
]

-- A number that is accepted is 6 to 15 Western digits, after a plus at most, and for Egypt a mobile
-- number of 11 digits without the country's code; sent again, it is accepted and stored as it is.
pub normalize_phone_number_idem :
    (raw country p : Text)
    → normalize_phone_number raw country ≡ ok p
    → IsNormal country p × (normalize_phone_number p country ≡ ok p)
unfolding normalize_phone_number
normalize_phone_number_idem raw country p done =
    let normal = check_phone-IsNormal country (strip raw) p done in
    (
      normal,
      rw (strip_unchanged p (is_phone-Plain p normal.0)) (check_phone_normal country p normal),
    )
