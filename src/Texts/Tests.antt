-- ===== src/Texts/Tests.antt =====
-- A note with a bell (7), a line feed (10) and blanks (32), a phone number, and the theorems on them.
use phone_cases_backend.Prelude.{◌≡◌, refl, [], ◌∷◌}
use phone_cases_backend.Prelude.Results.{ok, err}
use phone_cases_backend.Errors.{bad_request}
use phone_cases_backend.Texts.{
  Text, text, cleared, trim_start, trim_end, sanitize_note, sanitize_order_note, Notes.IsClean,
  Notes.sanitize_note_idem, Phones.IsNormal, Phones.strip, Phones.normalize_phone_number,
  Phones.normalize_phone_number_idem,
}

abbrev typed : Text
typed = 32 ∷ 10 ∷ 72 ∷ 7 ∷ 32 ∷ 105 ∷ 10 ∷ 32 ∷ []

abbrev stored : Text
stored = 72 ∷ 32 ∷ 105 ∷ []

cleans : sanitize_order_note (text typed) ≡ ok (text stored)
unfolding sanitize_note trim_start trim_end
cleans = refl

refuses_long : sanitize_note (text typed) 2 ≡ err bad_request
unfolding sanitize_note trim_start trim_end
refuses_long = refl

drops_blank : sanitize_note (text (32 ∷ 7 ∷ 160 ∷ [])) 2 ≡ ok cleared
unfolding sanitize_note trim_start trim_end
drops_blank = refl

-- A carriage return stays where it is not at an end.
keeps_return : sanitize_note (text (97 ∷ 13 ∷ 98 ∷ [])) 9 ≡ ok (text (97 ∷ 13 ∷ 98 ∷ []))
unfolding sanitize_note trim_start trim_end
keeps_return = refl

sanitize_note_idem_example :
    IsClean 1000 (text stored) × (sanitize_note (text stored) 1000 ≡ ok (text stored))
unfolding sanitize_note trim_start trim_end
sanitize_note_idem_example = sanitize_note_idem (text typed) 1000 (text stored) refl

abbrev egypt : Text
egypt = 69 ∷ 103 ∷ []

-- `+20 10-1234 5678`, its 1 an Arabic-Indic digit.
abbrev dialled : Text
dialled = 43 ∷ 50 ∷ 48 ∷ 32 ∷ 1633 ∷ 48 ∷ 45 ∷ 49 ∷ 50 ∷ 51 ∷ 52 ∷ 32 ∷ 53 ∷ 54 ∷ 55 ∷ 56 ∷ []

-- `01012345678`
abbrev number : Text
number = 48 ∷ 49 ∷ 48 ∷ 49 ∷ 50 ∷ 51 ∷ 52 ∷ 53 ∷ 54 ∷ 55 ∷ 56 ∷ []

normalizes : normalize_phone_number dialled egypt ≡ ok number
unfolding normalize_phone_number strip trim_start trim_end
normalizes = refl

refuses_short : normalize_phone_number stored egypt ≡ err bad_request
unfolding normalize_phone_number strip trim_start trim_end
refuses_short = refl

normalize_phone_number_idem_example :
    IsNormal egypt number × (normalize_phone_number number egypt ≡ ok number)
unfolding normalize_phone_number strip trim_start trim_end
normalize_phone_number_idem_example = normalize_phone_number_idem dialled egypt number refl
