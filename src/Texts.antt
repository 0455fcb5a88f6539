-- ===== src/Texts.antt =====
-- Texts that guests write: src/common/utils/sanitize-note.util.ts. A text is the list of its UTF-16
-- code units, which is what `length`, `trim` and the pattern of control characters count in.
use phone_cases_backend.Prelude.{
  ℕ, Bool, false, not, ◌&&◌, ◌||◌, List, [], ◌∷◌, length, select, leb, ltb, ◌==◌, if◌then◌else◌,
}
use phone_cases_backend.Prelude.Results.{Result, ok, err}
use phone_cases_backend.Errors.{Error, bad_request}
pub mod Notes
pub mod Phones
mod Tests

abbrev pub Text : Type 0
Text = List ℕ

-- `cart_item_note_max_length` and `order_note_max_length`, in code units.
abbrev pub cart_item_note_max_length : ℕ
cart_item_note_max_length = 500

abbrev pub order_note_max_length : ℕ
order_note_max_length = 1000

abbrev pub is_between : ℕ → ℕ → ℕ → Bool
is_between lo hi c = leb lo c && leb c hi

-- `CONTROL_CHAR_PATTERN`: every control character but the tab (9), the line feed (10) and the
-- carriage return (13), which the comment of the source does not name.
abbrev pub is_control : ℕ → Bool
is_control c = leb c 8 || c == 11 || c == 12 || is_between 14 31 c || is_between 127 159 c

-- What `trim` takes off: the white space and the line ends of the language.
abbrev pub is_space : ℕ → Bool
is_space c =
    is_between 9 13 c
    || c == 32
    || c == 160
    || c == 5760
    || is_between 8192 8202 c
    || c == 8232
    || c == 8233
    || c == 8239
    || c == 8287
    || c == 12288
    || c == 65279

unfoldable pub trim_start : Text → Text
trim_start [] = []
trim_start (c ∷ t) = let rest = trim_start t in if is_space c then rest else c ∷ t

abbrev pub before_end : ℕ → Text → Text
before_end c [] = if is_space c then [] else c ∷ []
before_end c (d ∷ t) = c ∷ d ∷ t

unfoldable pub trim_end : Text → Text
trim_end [] = []
trim_end (c ∷ t) = before_end c (trim_end t)

abbrev pub trim : Text → Text
trim t = trim_end (trim_start t)

-- A field of a request: left out, null, or a text.
pub data Note : Type 0 where
  omitted cleared : Note
  text : Text → Note

abbrev pub check_length : ℕ → Text → Result Error Note
check_length max_length [] = ok cleared
check_length max_length (c ∷ t) =
    if ltb max_length (length (c ∷ t)) then err bad_request else ok (text (c ∷ t))

unfoldable pub sanitize_note : Note → ℕ → Result Error Note
sanitize_note omitted max_length = ok omitted
sanitize_note cleared max_length = ok cleared
sanitize_note (text raw) max_length =
    check_length max_length (trim (select (λ c. not (is_control c)) raw))

abbrev pub sanitize_cart_item_note : Note → Result Error Note
sanitize_cart_item_note raw = sanitize_note raw cart_item_note_max_length

abbrev pub sanitize_order_note : Note → Result Error Note
sanitize_order_note raw = sanitize_note raw order_note_max_length
