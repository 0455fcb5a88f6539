-- ===== src/Pricing/Schedule.antt =====
-- The windows of coupons and bundles: src/common/schedule/schedule-window.util.ts and
-- `computeBundleStatus` of src/modules/promotions/bundles/bundle-schedule.util.ts.
use phone_cases_backend.Prelude.{
  ℕ, ◌<◌, ◌≡◌, refl, ◌⊎◌, Bool, true, false, not, ◌&&◌, Option, none, some, ltb, leb, is_some_and,
  if◌then◌else◌, Bool-cases, inl, inr, arith,
}
use phone_cases_backend.Prelude.Results.{Result, ok, err}
use phone_cases_backend.Errors.{Error, bad_request}

-- One side of a window in a request: left alone, cleared, or set to a text that is a date (its
-- time) or none.
pub data Side : Type 0 where
  unchanged cleared not_a_date : Side
  set : ℕ → Side

pub record Window : Type 0 where
  pub starts_at : Option ℕ
  pub expires_at : Option ℕ

-- `undefined` leaves the column as it is.
pub data Write : Type 0 where
  keep : Write
  write : Option ℕ → Write

unfoldable pub to_write : Side → Result Error Write
to_write unchanged = ok keep
to_write cleared = ok (write none)
to_write not_a_date = err bad_request
to_write (set t) = ok (write (some t))

abbrev pub is_keep : Write → Bool
is_keep keep = true
is_keep (write x) = false

-- What the column holds after the write.
abbrev pub effective : Write → Option ℕ → Option ℕ
effective keep old = old
effective (write x) old = x

abbrev is_inverted : Option ℕ → Option ℕ → Bool
is_inverted (some a) (some b) = leb b a
is_inverted _ _ = false

-- The check of the effective range, once both sides are read.
unfoldable pub check_window : Write → Write → Window → Result Error (Write × Write)
check_window s e old =
    if is_keep s && is_keep e
    then ok (s, e)
    else if is_inverted (effective s old.starts_at) (effective e old.expires_at)
    then err bad_request
    else ok (s, e)

-- `resolveScheduleWindow`; a new record has no old window: both sides are `none`.
unfoldable pub resolve_schedule_window : Side → Side → Window → Result Error (Write × Write)
unfolding to_write check_window
resolve_schedule_window starts expires old = elim (to_write starts) [
  | err e ↦ err e
  | ok s ↦ elim (to_write expires) [ err e ↦ err e | ok e ↦ check_window s e old ]
]

pub data BundleStatus : Type 0 where
  disabled scheduled active expired : BundleStatus

unfoldable pub compute_bundle_status : Bool → Window → ℕ → BundleStatus
compute_bundle_status is_enabled w now =
    if not is_enabled
    then disabled
    else if is_some_and (λ t. ltb now t) w.starts_at
    then scheduled
    else if is_some_and (λ t. ltb t now) w.expires_at
    then expired
    else active

-- There is a moment at which the window is open.
abbrev pub Opens : Option ℕ → Option ℕ → Type 0
Opens (some a) (some b) = a < b
Opens _ _ = Unit

-- What the row holds after an accepted request.
abbrev pub after : Write × Write → Window → Window
after (s, e) old = record {
  starts_at = effective s old.starts_at;
  expires_at = effective e old.expires_at;
}

abbrev Accepted : Write × Write → Window → Type 0
Accepted w old =
    (Opens old.starts_at old.expires_at → Opens (after w old).starts_at (after w old).expires_at)
    × (is_keep w.0 && is_keep w.1 ≡ false → Opens (after w old).starts_at (after w old).expires_at)
    × (is_keep w.0 && is_keep w.1 ≡ true → after w old ≡ old)

open_unless_inverted : (a b : Option ℕ) → is_inverted a b ≡ false → Opens a b
open_unless_inverted none b e = tt
open_unless_inverted (some a) none e = tt
open_unless_inverted (some a) (some b) e = ground arith

checked :
    (s e : Write) (old : Window)
    → is_inverted (effective s old.starts_at) (effective e old.expires_at) ≡ false
    → is_keep s && is_keep e ≡ false
    → Accepted (s, e) old
checked s e old right touched =
    let opens = open_unless_inverted _ _ right in (λ h. opens, λ h. opens, λ h. absurd (cc))

touched_window :
    (s e : Write) (old : Window) (w : Write × Write)
    → is_keep s && is_keep e ≡ false
    → check_window s e old ≡ ok w
    → Accepted w old
unfolding check_window
touched_window s e old w touched h =
    elim (Bool-cases (is_inverted (effective s old.starts_at) (effective e old.expires_at))) [
      | inl wrong ↦ absurd (ground (arith, touched, wrong))
      | inr right ↦
          let same : w ≡ (s, e) = ground (arith, touched, right) in
          rw same (checked s e old right touched)
    ]

check_window-Accepted :
    (s e : Write) (old : Window) (w : Write × Write) → check_window s e old ≡ ok w → Accepted w old
unfolding check_window
check_window-Accepted keep keep old w h =
    let same : w ≡ (keep, keep) = cc in rw same (λ v. v, λ f. absurd (cc), λ t. refl)
check_window-Accepted (write x) e old w h = touched_window (write x) e old w refl h
check_window-Accepted keep (write x) old w h = touched_window keep (write x) old w refl h

to_write-cases : (x : Side) → (to_write x ≡ err bad_request) ⊎ ((w : Write) × (to_write x ≡ ok w))
unfolding to_write
to_write-cases unchanged = inr (keep, refl)
to_write-cases cleared = inr (write none, refl)
to_write-cases not_a_date = inl refl
to_write-cases (set t) = inr (write (some t), refl)

-- An accepted request that names a date leaves a window that is open at some moment, also where
-- one side stays as it was; one that names none writes nothing. A stored window that opens stays
-- so under any accepted request.
pub resolve_schedule_window-Opens :
    (starts expires : Side) (old : Window) (w : Write × Write)
    → resolve_schedule_window starts expires old ≡ ok w
    → Accepted w old
unfolding resolve_schedule_window
resolve_schedule_window-Opens starts expires old w e = elim (to_write-cases starts) [
  | inl bad ↦ absurd (ground (arith, bad))
  | inr (s, there) ↦ elim (to_write-cases expires) [
    | inl bad ↦ absurd (ground (arith, there, bad))
    | inr (x, found) ↦ check_window-Accepted s x old w (ground (arith, there, found))
  ]
]

active_sometime :
    (a b : Option ℕ)
    → Opens a b
    → (now : ℕ) × (compute_bundle_status true (record { starts_at = a; expires_at = b }) now
        ≡ active)
unfolding compute_bundle_status
active_sometime none none o = (0, refl)
active_sometime none (some b) o = (b, ground arith)
active_sometime (some a) none o = (a, ground arith)
active_sometime (some a) (some b) o = (a, ground arith)

-- An accepted request that names a date never makes a bundle that cannot apply: if it is enabled,
-- there is a moment at which it is active.
pub accepted_window_is_used :
    (starts expires : Side) (old : Window) (w : Write × Write)
    → resolve_schedule_window starts expires old ≡ ok w
    → is_keep w.0 && is_keep w.1 ≡ false
    → (now : ℕ) × (compute_bundle_status true (after w old) now ≡ active)
accepted_window_is_used starts expires old w e touched =
    let (kept, opens, same) = resolve_schedule_window-Opens starts expires old w e in
    active_sometime (after w old).starts_at (after w old).expires_at (opens touched)
