-- ===== src/Users/Username.antt =====
-- models/user.py: the validators of usernames and emails.
use Prim.Native.Char.{Char, code}
use subtask.Base.{
  ℕ, String, Bool, false, ◌&&◌, ◌||◌, Option, none, some, Result, ok, err, ◌==◌, nat_eq, string_eq,
  leb, if◌then◌else◌, text_length,
}
use subtask.Groups.{at_end}

pub data ValueError : Type 0 where
  value_error : ValueError

abbrev pub username_min_length : ℕ
username_min_length = 3

abbrev pub username_max_length : ℕ
username_max_length = 30

abbrev pub email_max_length : ℕ
email_max_length = 100

abbrev is_in : ℕ → ℕ → ℕ → Bool
is_in low high k = leb low k && leb k high

-- `[A-Z0-9._]` where case is ignored: beside the letters, the four other characters that Python's re takes
-- for some of A to Z then.
unfoldable pub is_username_char : Char → Bool
is_username_char c =
    let k = code c in
    is_in 65 90 k
    || is_in 97 122 k
    || is_in 48 57 k
    || k == 46
    || k == 95
    || k == 304
    || k == 305
    || k == 383
    || k == 8490

-- What is left behind the characters of the class
unfoldable pub skip_username : String → String
unfolding is_username_char
skip_username String.[] = String.[]
skip_username (String.◌∷◌ c s) =
    let rest = skip_username s in if is_username_char c then rest else String.◌∷◌ c s

abbrev pub starts_in_class : String → Bool
starts_in_class String.[] = false
starts_in_class (String.◌∷◌ c s) = is_username_char c

-- `re.match(USERNAME_PATTERN, username)`
unfoldable pub matches_username : String → Bool
unfolding skip_username at_end
matches_username name = starts_in_class name && at_end (skip_username name)

unfoldable pub validate_username : String → Result ValueError String
unfolding matches_username
validate_username name =
    if leb username_min_length (text_length name) && leb (text_length name) username_max_length
    then (if matches_username name then ok name else err value_error)
    else err value_error

unfoldable pub validate_email : Option String → Result ValueError (Option String)
validate_email none = ok none
validate_email (some email) =
    if leb (text_length email) email_max_length then ok (some email) else err value_error
