-- ===== src/Groups/Groupid.antt =====
-- A groupid is taken apart into what it was put together from.
use Prim.Native.Char.{Char}
use mathlib.Core.Bool.{false≢true}
use text.Mathlib.TextLemmas.{cons-ne-nil}
use subtask.Base.{
  String, ◌≡◌, refl, sym, ap, ◌∙◌, ◌+◌, ◌<◌, ==-refl, append-assoc_text, true, false, not, none,
  some, ◌==◌, leb, string_eq, nat_eq, ok, ◌<>◌, text_length, all_chars, arith,
}
use subtask.Models.{Group}
use subtask.Groups.{
  is_id_char, is_newline, span_id, matches_id_pattern, validate_authority_provided_id, strip_prefix,
  dot_all, match_parts, match_groupid, split_groupid, is_groupid, get_groupid, set_groupid,
}

pub strip_prefix-append : (p s : String) → strip_prefix p (p <> s) ≡ some s
unfolding strip_prefix
strip_prefix-append String.[] s = refl
strip_prefix-append (String.◌∷◌ c p) s = ground (arith, strip_prefix-append p s)

-- Up to the first character outside the class.
span_id-append :
    (id : String) (c : Char) (s : String)
    → all_chars is_id_char id ≡ true
    → is_id_char c ≡ false
    → span_id (id <> String.◌∷◌ c s) ≡ (id, String.◌∷◌ c s)
unfolding span_id
span_id-append String.[] c s h k = rw k
span_id-append (String.◌∷◌ d id) c s h k = ground (arith, span_id-append id c s (ground arith) k)

pub dot_all-eq : (s : String) → all_chars (λ c. not (is_newline c)) s ≡ true → dot_all s ≡ some s
unfolding dot_all
dot_all-eq String.[] h = refl
dot_all-eq (String.◌∷◌ c s) h = ground (arith, dot_all-eq s (ground arith))

-- An id that the validator returns, and an authority that is one line.
abbrev pub IsId : String → Type 0
IsId id =
    (all_chars is_id_char id ≡ true) × ((id == "") ≡ false) × (leb (text_length id) 1024 ≡ true)

abbrev pub IsLine : String → Type 0
IsLine s = all_chars (λ c. not (is_newline c)) s ≡ true

at_sign : is_id_char "@" ≡ false
unfolding is_id_char nat_eq
at_sign = refl

span_id-all : (id : String) → all_chars is_id_char id ≡ true → span_id id ≡ (id, "")
unfolding span_id
span_id-all String.[] h = refl
span_id-all (String.◌∷◌ c s) h = ground (arith, span_id-all s (ground arith))

match_parts-at :
    (id authority : String)
    → IsId id
    → IsLine authority
    → match_parts (id, "@" <> authority) ≡ some (id, authority)
unfolding match_parts nat_eq
match_parts-at id authority (chars, nonempty, short) line =
    rw (nonempty, short, dot_all-eq authority line)

match_groupid-append :
    (id authority : String)
    → IsId id
    → IsLine authority
    → match_groupid ("group:" <> id <> "@" <> authority) ≡ some (id, authority)
unfolding match_groupid nat_eq
match_groupid-append id authority h line =
    ap match_parts (span_id-append id "@" authority h.0 at_sign)
    ∙ match_parts-at id authority h line

split_groupid-append :
    (id authority : String)
    → IsId id
    → IsLine authority
    → split_groupid ("group:" <> id <> "@" <> authority) ≡ ok (id, authority)
unfolding split_groupid
split_groupid-append id authority h line =
    rw (match_groupid-append id authority h line, split_groupid)

validate_authority_provided_id-IsId :
    (id : String) → IsId id → validate_authority_provided_id (some id) ≡ ok (some id)
unfolding validate_authority_provided_id
validate_authority_provided_id-IsId id (chars, nonempty, short) =
    rw (span_id-all id chars, nonempty, short)

-- To give a group the groupid that it has changes nothing, if its id is one that the validator
-- lets in and its authority is one line.
pub set_groupid-get_groupid :
    (g : Group) (id : String)
    → g.authority_provided_id ≡ some id
    → IsId id
    → IsLine g.authority
    → set_groupid (get_groupid g) g ≡ ok g
unfolding set_groupid get_groupid
set_groupid-get_groupid g id e h line =
    rw e (rw (split_groupid-append id g.authority h line, validate_authority_provided_id-IsId id h))

newline_char : is_id_char "\n" ≡ false
unfolding is_id_char nat_eq
newline_char = refl

text_length-append : (s t : String) → text_length (s <> t) ≡ text_length s + text_length t
text_length-append String.[] t = omega arith
text_length-append (String.◌∷◌ c s) t = omega (arith, text_length-append s t)

append-ne-empty : (s t : String) → (s == "") ≡ false → ((s <> t) == "") ≡ false
append-ne-empty String.[] t h = absurd (false≢true (sym h ∙ ==-refl {A = String} ""))
append-ne-empty (String.◌∷◌ c s) t h = ground (arith, cons-ne-nil c (s <> t))

matches_id_pattern-newline : (id : String) → IsId id → matches_id_pattern (id <> "\n") ≡ true
unfolding matches_id_pattern is_newline nat_eq
matches_id_pattern-newline id (chars, nonempty, short) =
    rw (span_id-append id "\n" "" chars newline_char, nonempty)

match_parts-newline : (id rest : String) → IsId id → match_parts (id, "\n" <> rest) ≡ none
unfolding match_parts nat_eq
match_parts-newline id rest (chars, nonempty, short) = rw (nonempty, short)

match_groupid-newline :
    (id rest : String) → IsId id → match_groupid ("group:" <> (id <> "\n") <> rest) ≡ none
unfolding match_groupid nat_eq
match_groupid-newline id rest h =
    ap match_parts
      (ap span_id (append-assoc_text id "\n" rest) ∙ span_id-append id "\n" rest h.0 newline_char)
    ∙ match_parts-newline id rest h

-- `$` also matches before a newline at the end: the validator lets an id pass that has one more
-- character, a newline, and the groupid that is made of it is none.
pub newline_id :
    (id authority : String)
    → IsId id
    → text_length id < 1024
    → (validate_authority_provided_id (some (id <> "\n")) ≡ ok (some (id <> "\n")))
      × (is_groupid ("group:" <> (id <> "\n") <> "@" <> authority) ≡ false)
unfolding validate_authority_provided_id is_groupid
newline_id id authority h short = (
  rw (append-ne-empty id "\n" h.1, matches_id_pattern-newline id h, text_length-append id "\n")
      (ground arith),
  rw (match_groupid-newline id ("@" <> authority) h, is_groupid),
)
