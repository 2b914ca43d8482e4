-- ===== src/Annotations/Ids.antt =====
-- URLSafeUUID of db/types.py: the ids of annotations, as they are in URLs and as they are in the database.
-- `decode` is the hex form of what base64 makes of the text and of two signs of padding, where it makes
-- something, and `encode` turns hex digits back and takes the padding off; `normalise` is the hex form of
-- a UUID, and `byte_length` the number of bytes of a text in UTF-8.
pub mod Text
pub mod RoundTrip
use subtask.Base.{
  ℕ, ◌-◌, String, Bool, ◌&&◌, Option, none, some, Result, ok, err, ◌==◌, nat_eq, string_eq,
  if◌then◌else◌, ◌<>◌, text_length,
}
use subtask.Annotations.Ids.Text.{text_take, text_drop}

pub data IdError : Type 0 where
  invalid_uuid : IdError
  -- The ValueError of `uuid.UUID`
  bad_hex : IdError

-- `s[a:b]`, of which `s[a]` is a case
abbrev pub slice : ℕ → ℕ → String → String
slice a b s = text_take (b - a) (text_drop a s)

unfoldable pub has_magic_byte : String → Bool
has_magic_byte s = slice 12 13 s == "e" && slice 16 17 s == "5"

unfoldable pub add_magic_byte : String → String
add_magic_byte s = slice 0 12 s <> "e" <> slice 12 15 s <> "5" <> text_drop 15 s

unfoldable pub remove_magic_byte : String → String
remove_magic_byte s = slice 0 12 s <> slice 13 16 s <> slice 17 32 s

abbrev pub hex_of : ℕ → Option String → Result IdError String
hex_of length none = err invalid_uuid
hex_of length (some hex) =
    if length == 22 && text_length hex == 32
    then ok hex
    else if length == 20 && text_length hex == 30
    then ok (add_magic_byte hex)
    else err invalid_uuid

unfoldable pub url_safe_to_hex :
    (String → Option String) → (String → ℕ) → String → Result IdError String
unfolding add_magic_byte
url_safe_to_hex decode byte_length value = hex_of (byte_length value) (decode value)

abbrev pub stripped : String → String
stripped hex = if has_magic_byte hex then remove_magic_byte hex else hex

abbrev pub url_safe_of : (String → String) → Option String → Result IdError String
url_safe_of encode none = err bad_hex
url_safe_of encode (some hex) = ok (encode (stripped hex))

unfoldable pub hex_to_url_safe :
    (String → Option String) → (String → String) → String → Result IdError String
unfolding has_magic_byte remove_magic_byte
hex_to_url_safe normalise encode value = url_safe_of encode (normalise value)
