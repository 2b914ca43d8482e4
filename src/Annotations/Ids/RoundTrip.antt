-- ===== src/Annotations/Ids/RoundTrip.antt =====
-- The database's form of an id, from the URL-safe form that is made of it.
use subtask.Base.{
  ℕ, ◌+◌, ◌≡◌, ◌∙◌, sym, ap, refl, String, Bool, true, false, Option, some, ok, nat_eq, string_eq,
  if◌then◌else◌, ◌<>◌, text_length, arith, ◌>>=◌,
}
use subtask.Annotations.Ids.Text.{
  text_take, text_drop, take-drop, drop-drop, length-take, length-drop, length-append, take_all,
  take-append, drop-append,
}
use subtask.Annotations.Ids.{
  has_magic_byte, add_magic_byte, remove_magic_byte, hex_of, url_safe_to_hex, stripped, url_safe_of,
  hex_to_url_safe,
}

-- A text from its slice of one character on.
at_one :
    (n k : ℕ) (s c : String)
    → k ≡ n + 1
    → text_take 1 (text_drop n s) ≡ c
    → text_drop n s ≡ c <> text_drop k s
at_one n k s c p h =
    sym (take-drop 1 (text_drop n s))
    ∙ ap (λ x. x <> text_drop 1 (text_drop n s)) h
    ∙ ap (λ x. c <> x) (drop-drop n 1 k s p)

module _ (h : String) (size : text_length h ≡ 32) where
  abbrev head : String
  head = text_take 12 h

  abbrev middle : String
  middle = text_take 3 (text_drop 13 h)

  abbrev tail : String
  tail = text_take 15 (text_drop 17 h)

  size_head : text_length head ≡ 12
  size_head = length-take 12 h (omega arith)

  size_middle : text_length middle ≡ 3
  size_middle = length-take 3 (text_drop 13 h) (let d = length-drop 13 h in omega arith)

  tail_all : tail ≡ text_drop 17 h
  tail_all = take_all 15 (text_drop 17 h) (let d = length-drop 17 h in omega arith)

  drop_head : text_drop 12 (head <> middle <> tail) ≡ middle <> tail
  drop_head = drop-append 12 head (middle <> tail) size_head

  add_parts : add_magic_byte (head <> middle <> tail) ≡ head <> "e" <> middle <> "5" <> tail
  unfolding add_magic_byte
  add_parts =
      ap
        (λ x.
          x
          <> "e"
          <> text_take 3 (text_drop 12 (head <> middle <> tail))
          <> "5"
          <> text_drop 15 (head <> middle <> tail))
        (take-append 12 head (middle <> tail) size_head)
      ∙ ap (λ x. head <> "e" <> text_take 3 x <> "5" <> text_drop 15 (head <> middle <> tail))
          drop_head
      ∙ ap (λ x. head <> "e" <> x <> "5" <> text_drop 15 (head <> middle <> tail))
          (take-append 3 middle tail size_middle)
      ∙ ap (λ x. head <> "e" <> middle <> "5" <> x)
          (sym (drop-drop 12 3 15 (head <> middle <> tail) refl)
            ∙ ap (text_drop 3) drop_head
            ∙ drop-append 3 middle tail size_middle)

  whole :
      text_take 1 (text_drop 12 h) ≡ "e"
      → text_take 1 (text_drop 16 h) ≡ "5"
      → head <> "e" <> middle <> "5" <> tail ≡ h
  whole p q =
      ap (λ x. head <> "e" <> middle <> "5" <> x) tail_all
      ∙ ap (λ x. head <> "e" <> middle <> x) (sym (at_one 16 17 h "5" refl q))
      ∙ ap (λ x. head <> "e" <> middle <> x) (sym (drop-drop 13 3 16 h refl))
      ∙ ap (λ x. head <> "e" <> x) (take-drop 3 (text_drop 13 h))
      ∙ ap (λ x. head <> x) (sym (at_one 12 13 h "e" refl p))
      ∙ take-drop 12 h

  add-remove : has_magic_byte h ≡ true → add_magic_byte (remove_magic_byte h) ≡ h
  unfolding has_magic_byte remove_magic_byte
  add-remove magic =
      let p : text_take 1 (text_drop 12 h) ≡ "e" = ground arith in
      let q : text_take 1 (text_drop 16 h) ≡ "5" = ground arith in add_parts ∙ whole p q

  size_removed : text_length (remove_magic_byte h) ≡ 30
  unfolding remove_magic_byte
  size_removed =
      let d = length-drop 17 h in
      let t = ap text_length tail_all in
      length-append head (middle <> tail)
      ∙ ap (λ n. text_length head + n) (length-append middle tail)
      ∙ (let a = size_head in let b = size_middle in omega arith)

-- What base64 does with a hex text: what it is encoded to has this many bytes and is decoded to it.
pub record IsCodecOf (decode : String → Option String) (byte_length : String → ℕ)
    (encode : String → String) (hex : String) (size : ℕ) : Type 0 where
  pub decoded : decode (encode hex) ≡ some hex
  pub bytes : byte_length (encode hex) ≡ size

hex_of-flake :
    (n : ℕ) (hex : String)
    → n ≡ 20
    → text_length hex ≡ 30
    → hex_of n (some hex) ≡ ok (add_magic_byte hex)
hex_of-flake n hex p q = ground arith

hex_of-uuid : (n : ℕ) (hex : String) → n ≡ 22 → text_length hex ≡ 32 → hex_of n (some hex) ≡ ok hex
hex_of-uuid n hex p q = ground arith

module _ (decode : String → Option String) (byte_length : String → ℕ)
    (encode : String → String) where
  hex_of-back :
      (h : String) (magic : Bool)
      → text_length h ≡ 32
      → has_magic_byte h ≡ magic
      → IsCodecOf decode byte_length encode
          (if magic then remove_magic_byte h else h)
          (if magic then 20 else 22)
      → url_safe_to_hex decode byte_length (encode (if magic then remove_magic_byte h else h))
        ≡ ok h
  unfolding url_safe_to_hex
  hex_of-back h true size p codec =
      ap (hex_of (byte_length (encode (remove_magic_byte h)))) codec.decoded
      ∙ hex_of-flake (byte_length (encode (remove_magic_byte h))) (remove_magic_byte h) codec.bytes
          (size_removed h size)
      ∙ ap ok (add-remove h size p)
  hex_of-back h false size p codec =
      ap (hex_of (byte_length (encode h))) codec.decoded
      ∙ hex_of-uuid (byte_length (encode h)) h codec.bytes size

  -- An id of 32 hex digits that is a normal form, whether or not it has the magic byte, is what its URL-safe
  -- form is turned back into, if base64 decodes what it encodes, to 22 bytes for a UUID and to 20 for
  -- a flake id.
  pub url_safe_to_hex-hex_to_url_safe :
      (normalise : String → Option String) (h : String)
      → text_length h ≡ 32
      → normalise h ≡ some h
      → IsCodecOf decode byte_length encode (stripped h) (if has_magic_byte h then 20 else 22)
      → (hex_to_url_safe normalise encode h >>= url_safe_to_hex decode byte_length) ≡ ok h
  unfolding hex_to_url_safe
  url_safe_to_hex-hex_to_url_safe normalise h size normal codec =
      ap (λ o. url_safe_of encode o >>= url_safe_to_hex decode byte_length) normal
      ∙ hex_of-back h (has_magic_byte h) size refl codec
