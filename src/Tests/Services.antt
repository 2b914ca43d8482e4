-- ===== src/Tests/Services.antt =====
-- The services at small tables.
use subtask.Base.{
  arith, String, ◌≡◌, refl, Bool, true, false, Option, none, some, List, [], ◌∷◌, contains, ok,
  nat_eq, string_eq, option_eq,
}
use subtask.Models.{Annotation}
use subtask.Groups.{is_newline}
use subtask.Users.Userid.{split_user, format_userid}
use subtask.Users.Service.{normalise_username}
use subtask.Services.Nipsa.{NipsaService, UserRow, flagged_in, has_userid, is_flagged, unflag}
use subtask.Services.Nipsa.Cached.{truth, IsSpelled, is_flagged-flagged_in}
use subtask.Services.Flag.{FlagService, has_flag, flagged, create, flag_of}
use subtask.Services.Flag.Cached.{create-flagged}
use subtask.Services.GroupMembers.{Members, update_members}
use subtask.Services.GroupMembers.Distinct.{IsDistinct}
use subtask.Services.GroupMembers.Updated.{update_members-contains}
use subtask.Services.AuthTicket.{
  AuthTicketService, new_ticket, refreshed, verify_ticket, add_ticket,
}
use subtask.Services.AuthTicket.Verified.{ticket_of, verify_ticket-add_ticket}
use subtask.Tests.Data.{author, reader, note, world_group}

abbrev rows : List UserRow
rows =
    record { username = "a"; authority = "x"; nipsa = true }
    ∷ record { username = "b"; authority = "x"; nipsa = false }
    ∷ []

abbrev cold : NipsaService
cold = record { lower = λ s. s; users = rows; flagged_userids = none; jobs = [] }

abbrev warm : NipsaService
warm = record cold { flagged_userids = some ("acct:a@x" ∷ []) }

nipsa_answers :
    (is_flagged "acct:a@x" cold ≡ ok (some true))
    × (is_flagged "acct:b@x" cold ≡ ok (some false))
    × (is_flagged "acct:c@x" cold ≡ ok none)
    × (is_flagged "acct:c@x" warm ≡ ok (some false))
unfolding is_flagged normalise_username string_eq split_user nat_eq is_newline
nipsa_answers = (refl, refl, refl, refl)

abbrev unflagged : NipsaService
unflagged = record {
  lower = λ s. s;
  users =
      record { username = "a"; authority = "x"; nipsa = false }
      ∷ record { username = "b"; authority = "x"; nipsa = false }
      ∷ [];
  flagged_userids = some [];
  jobs = record { userid = "acct:a@x"; tag = "NipsaService.unflag" } ∷ [];
}

unflag_ann : unflag "acct:a@x" warm ≡ ok unflagged
unfolding unflag string_eq format_userid
unflag_ann = refl

abbrev lone : NipsaService
lone = record {
  lower = λ s. s;
  users = record { username = "a"; authority = "x"; nipsa = true } ∷ [];
  flagged_userids = none;
  jobs = [];
}

lone-IsSpelled : IsSpelled lone.lower "acct:a@x" lone.users
unfolding has_userid normalise_username string_eq split_user nat_eq is_newline format_userid
lone-IsSpelled = record { once = omega arith; exact = (refl, tt) }

is_flagged-flagged_in_example :
    (answer : Option Bool) × (is_flagged "acct:a@x" lone ≡ ok answer)
    × (truth answer ≡ contains (flagged_in lone.users) "acct:a@x")
is_flagged-flagged_in_example = is_flagged-flagged_in "acct:a@x" lone lone-IsSpelled tt

abbrev shared_note : Annotation
shared_note = note world_group true false

abbrev flag_table : FlagService
flag_table = record {
  flags = flag_of author shared_note ∷ [];
  flagged_cache = [];
  flag_count_cache = [];
}

create-flagged_example :
    (has_flag 8 "n1" (create reader shared_note flag_table).flags ≡ true)
    × ((flagged (some reader) (some shared_note) (create reader shared_note flag_table)).0 ≡ false)
unfolding has_flag nat_eq string_eq
create-flagged_example = create-flagged reader shared_note flag_table tt refl

-- Users that are their userids, of whom each is found.
abbrev team_members : Members String
team_members = record { members = some "ann" ∷ some "bob" ∷ []; published = [] }

update_members_run :
    update_members some (λ u. u) team_members ("bob" ∷ "eve" ∷ [])
    ≡ ok (record {
      members = some "bob" ∷ some "eve" ∷ [];
      published =
          record { type = "group-join"; userid = "eve" }
          ∷ record { type = "group-leave"; userid = "ann" }
          ∷ [];
    })
unfolding update_members string_eq option_eq
update_members_run = refl

update_members-contains_example :
    (group' : Members String) × (update_members some (λ u. u) team_members ("bob" ∷ "eve" ∷ [])
      ≡ ok group')
    × IsDistinct group'.members
    × ((u : String) → contains group'.members (some u) ≡ contains ("bob" ∷ "eve" ∷ []) u)
unfolding string_eq option_eq
update_members-contains_example =
    update_members-contains some (λ u. u) (λ u. refl) team_members ("ann" ∷ "bob" ∷ [])
      ("bob" ∷ "eve" ∷ []) refl (refl, (refl, tt))

abbrev ticket_table : AuthTicketService
ticket_table = record {
  tickets = new_ticket "acct:a@x" "t1" 5 ∷ [];
  ticket = some (new_ticket "acct:a@x" "t1" 5);
}

verify_ticket-add_ticket_example :
    (s' : AuthTicketService) × (add_ticket some "acct:b@x" "t2" 100 ticket_table ≡ ok s')
    × (ticket_of (verify_ticket (some "acct:b@x") (some "t2") 120 (record s' { ticket = none }))
        ≡ ok (some (new_ticket "acct:b@x" "t2" 100)))
unfolding string_eq refreshed
verify_ticket-add_ticket_example =
    verify_ticket-add_ticket some "acct:b@x" "t2" 100 120 ticket_table refl refl (refl, tt)
