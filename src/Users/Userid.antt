-- ===== src/Users/Userid.antt =====
-- util/user.py: userids and their parts.
use Prim.Native.Char.{Char, code}
use subtask.Base.{
  String, ◌≡◌, ◌∙◌, ap, refl, Bool, true, false, not, Option, none, some, Result, ok, err, ◌==◌,
  string_eq, nat_eq, if◌then◌else◌, ◌<>◌, all_chars, arith,
}
use subtask.Groups.{strip_prefix, dot_all}
use subtask.Groups.Groupid.{strip_prefix-append, dot_all-eq, IsLine}

pub data UserIdError : Type 0 where
  invalid_user_id : UserIdError

-- `[^@]`
unfoldable pub is_no_at : Char → Bool
is_no_at c = not (code c == 64)

unfoldable pub span_user : String → String × String
unfolding is_no_at
span_user String.[] = (String.[], String.[])
span_user (String.◌∷◌ c s) =
    let (user, rest) = span_user s in
    if is_no_at c then (String.◌∷◌ c user, rest) else (String.[], String.◌∷◌ c s)

-- `(.*)$`, and `@` before it
abbrev pub line_of : String → Option String → Result UserIdError (String × String)
line_of user none = err invalid_user_id
line_of user (some domain) = ok (user, domain)

abbrev pub domain_of : String → Option String → Result UserIdError (String × String)
domain_of user none = err invalid_user_id
domain_of user (some tail) = line_of user (dot_all tail)

abbrev pub match_user : String × String → Result UserIdError (String × String)
match_user (user, rest) =
    if user == "" then err invalid_user_id else domain_of user (strip_prefix "@" rest)

abbrev pub parts_of : Option String → Result UserIdError (String × String)
parts_of none = err invalid_user_id
parts_of (some s) = match_user (span_user s)

unfoldable pub split_user : String → Result UserIdError (String × String)
unfolding dot_all span_user strip_prefix
split_user userid = parts_of (strip_prefix "acct:" userid)

unfoldable pub format_userid : String → String → String
format_userid username authority = "acct:" <> username <> "@" <> authority

-- A username that is not empty and has no `@`.
abbrev pub IsUsername : String → Type 0
IsUsername name = (all_chars is_no_at name ≡ true) × ((name == "") ≡ false)

span_user-append :
    (user s : String)
    → all_chars is_no_at user ≡ true
    → span_user (user <> "@" <> s) ≡ (user, "@" <> s)
unfolding span_user is_no_at nat_eq
span_user-append String.[] s h = refl
span_user-append (String.◌∷◌ c user) s h = ground (arith, span_user-append user s (ground arith))

-- The userid that is made of a username that is not empty and has no `@` and of an authority of one line is
-- taken apart into them.
pub split_user-format_userid :
    (username authority : String)
    → IsUsername username
    → IsLine authority
    → split_user (format_userid username authority) ≡ ok (username, authority)
unfolding split_user format_userid
split_user-format_userid username authority (chars, nonempty) line =
    ap parts_of (strip_prefix-append "acct:" (username <> "@" <> authority))
    ∙ ap match_user (span_user-append username authority chars)
    ∙ ap
        (λ b.
          if b
          then err invalid_user_id
          else domain_of username (strip_prefix "@" ("@" <> authority)))
        nonempty
    ∙ ap (domain_of username) (strip_prefix-append "@" authority)
    ∙ ap (line_of username) (dot_all-eq authority line)
