-- ===== src/Texts/Notes.antt =====
-- The notes that `sanitizeNote` lets through, against what it calls clean.
use phone_cases_backend.Prelude.{
  ℕ, ◌≤◌, ◌≡◌, refl, ap, Bool, true, false, not, [], ◌∷◌, inl, inr, length, select, All, Bool-cases,
  ltb, arith,
}
use phone_cases_backend.Prelude.Results.{ok}
use phone_cases_backend.Prelude.Sorting.{All-selected}
use phone_cases_backend.Texts.{
  Text, Note, omitted, cleared, text, is_control, is_space, trim_start, trim_end, trim, before_end,
  check_length, sanitize_note,
}

abbrev pub is_kept : ℕ → Bool
is_kept c = not (is_control c)

abbrev pub Kept : Text → Type 0
Kept t = All (λ c. is_kept c ≡ true) t

select_unchanged : (t : Text) → Kept t → select is_kept t ≡ t
select_unchanged [] h = refl
select_unchanged (c ∷ t) h = simp (h.0, select_unchanged t h.1)

trim_start-Kept : (t : Text) → Kept t → Kept (trim_start t)
unfolding trim_start
trim_start-Kept [] h = h
trim_start-Kept (c ∷ t) h = elim (Bool-cases (is_space c)) [
  | inl s ↦ rw s (trim_start-Kept t h.1)
  | inr s ↦ rw s h
]

before_end-Kept : (c : ℕ) (t : Text) → is_kept c ≡ true → Kept t → Kept (before_end c t)
before_end-Kept c [] hc h = elim (Bool-cases (is_space c)) [
  | inl s ↦ rw s tt
  | inr s ↦ rw s (hc, tt)
]
before_end-Kept c (d ∷ t) hc h = (hc, h)

trim_end-Kept : (t : Text) → Kept t → Kept (trim_end t)
unfolding trim_end
trim_end-Kept [] h = h
trim_end-Kept (c ∷ t) h = before_end-Kept c (trim_end t) h.0 (trim_end-Kept t h.1)

before_end_kept : (c : ℕ) (t : Text) → is_space c ≡ false → before_end c t ≡ c ∷ t
before_end_kept c [] s = rw s refl
before_end_kept c (d ∷ t) s = refl

-- An end that is trimmed once has nothing left to trim.
trim_end-before_end :
    (c : ℕ) (t : Text) → trim_end t ≡ t → trim_end (before_end c t) ≡ before_end c t
unfolding trim_end
trim_end-before_end c [] h = elim (Bool-cases (is_space c)) [
  | inl s ↦ rw s refl
  | inr s ↦ rw s (rw s refl)
]
trim_end-before_end c (d ∷ t) h = ap (before_end c) h

trim_end_idem : (t : Text) → trim_end (trim_end t) ≡ trim_end t
unfolding trim_end
trim_end_idem [] = refl
trim_end_idem (c ∷ t) = trim_end-before_end c (trim_end t) (trim_end_idem t)

-- Trimming the end of a text leaves its trimmed start alone.
trim_start-trim : (t : Text) → trim_start (trim t) ≡ trim t
unfolding trim_start trim_end
trim_start-trim [] = refl
trim_start-trim (c ∷ t) = elim (Bool-cases (is_space c)) [
  | inl s ↦ rw s (trim_start-trim t)
  | inr s ↦ rw s (rw (before_end_kept c (trim_end t) s) (rw s refl))
]

trim_idem : (t : Text) → trim (trim t) ≡ trim t
trim_idem t = rw (trim_start-trim t) (trim_end_idem (trim_start t))

-- A note as it is stored: without control characters, without white space at its ends, not empty
-- and not too long.
abbrev pub IsClean : ℕ → Note → Type 0
IsClean max_length omitted = Unit
IsClean max_length cleared = Unit
IsClean max_length (text t) = Kept t × (trim t ≡ t) × (1 ≤ length t) × (length t ≤ max_length)

check_length-IsClean :
    (max_length : ℕ) (t : Text) (n : Note)
    → Kept t
    → trim t ≡ t
    → check_length max_length t ≡ ok n
    → IsClean max_length n
check_length-IsClean max_length [] n kept trimmed done =
    let same : cleared ≡ n = cc in rw (← same) tt
check_length-IsClean max_length (c ∷ t) n kept trimmed done =
    elim (Bool-cases (ltb max_length (length (c ∷ t)))) [
      | inl long ↦ absurd (ground (arith, done, long))
      | inr fits ↦
          let same : text (c ∷ t) ≡ n = ground (arith, done, fits) in
          rw (← same) (kept, trimmed, omega arith, ground (arith, fits))
    ]

check_length_fits :
    (max_length : ℕ) (t : Text)
    → 1 ≤ length t
    → length t ≤ max_length
    → check_length max_length t ≡ ok (text t)
check_length_fits max_length [] some_left fits = absurd (omega arith)
check_length_fits max_length (c ∷ t) some_left fits = ground arith

-- A clean note is stored as it is.
sanitize_note-clean :
    (n : Note) (max_length : ℕ) → IsClean max_length n → sanitize_note n max_length ≡ ok n
unfolding sanitize_note
sanitize_note-clean omitted max_length clean = refl
sanitize_note-clean cleared max_length clean = refl
sanitize_note-clean (text t) max_length (kept, trimmed, some_left, fits) =
    rw (select_unchanged t kept) (rw trimmed (check_length_fits max_length t some_left fits))

sanitize_note-IsClean :
    (raw : Note) (max_length : ℕ) (n : Note)
    → sanitize_note raw max_length ≡ ok n
    → IsClean max_length n
unfolding sanitize_note
sanitize_note-IsClean omitted max_length n done = let same : omitted ≡ n = cc in rw (← same) tt
sanitize_note-IsClean cleared max_length n done = let same : cleared ≡ n = cc in rw (← same) tt
sanitize_note-IsClean (text raw) max_length n done =
    let kept = select is_kept raw in
    check_length-IsClean max_length (trim kept) n
      (trim_end-Kept (trim_start kept) (trim_start-Kept kept (All-selected is_kept raw)))
      (trim_idem kept) done

pub sanitize_note_idem :
    (raw : Note) (max_length : ℕ) (n : Note)
    → sanitize_note raw max_length ≡ ok n
    → IsClean max_length n × (sanitize_note n max_length ≡ ok n)
sanitize_note_idem raw max_length n done =
    let clean = sanitize_note-IsClean raw max_length n done in
    (clean, sanitize_note-clean n max_length clean)
