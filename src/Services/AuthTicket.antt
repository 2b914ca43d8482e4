-- ===== src/Services/AuthTicket.antt =====
-- services/auth_ticket.py: the tickets of logged-in browsers, and the one that the service keeps
-- for the rest of the request. Times are in seconds; the clock is an argument of each call.
pub mod Verified
use subtask.Base.{
  ℕ, ◌+◌, ◌*◌, String, Bool, true, false, not, ◌&&◌, ◌||◌, Option, none, some, List, [], ◌∷◌, ◌++◌,
  filter, ltb, ◌==◌, string_eq, Result, ok, err, if◌then◌else◌,
}

pub record AuthTicket : Type 0 where
  pub id : String
  pub user_userid : String
  pub expires : ℕ
  pub updated : ℕ

-- The table, and the id of the row that `_ticket` is, with that row.
pub record AuthTicketService : Type 0 where
  pub tickets : List AuthTicket
  pub ticket : Option AuthTicket

pub data TicketError : Type 0 where
  multiple_results : TicketError
  no_user : String → TicketError

abbrev pub ticket_ttl : ℕ
ticket_ttl = 90 * 86400

abbrev pub ticket_refresh_interval : ℕ
ticket_refresh_interval = 60

abbrev pub is_valid : String → String → ℕ → AuthTicket → Bool
is_valid userid ticket_id now t = t.id == ticket_id && t.user_userid == userid && ltb now t.expires

-- The refresh of `expires`; `updated` is the time at which the row is written, by its `onupdate`.
unfoldable pub refreshed : ℕ → AuthTicket → AuthTicket
refreshed now t =
    if ltb (t.updated + ticket_refresh_interval) now
    then record t { expires = now + ticket_ttl; updated = now }
    else t

-- A row is the one of its id.
unfoldable pub write : AuthTicket → List AuthTicket → List AuthTicket
write t [] = []
write t (row ∷ rows) = let rest = write t rows in (if row.id == t.id then t else row) ∷ rest

-- What `one_or_none` makes of the rows, and what is then done with the one.
unfoldable pub found :
    ℕ
    → List AuthTicket
    → AuthTicketService
    → Result TicketError (Option AuthTicket × AuthTicketService)
unfolding refreshed write
found now [] s = ok (none, s)
found now (t ∷ []) s =
    let t' = refreshed now t in
    ok (some t', record { tickets = write t' s.tickets; ticket = some t' })
found now (_ ∷ _ ∷ _) s = err multiple_results

unfoldable pub verify_given :
    String
    → String
    → ℕ
    → AuthTicketService
    → Result TicketError (Option AuthTicket × AuthTicketService)
unfolding found
verify_given userid ticket_id now s =
    if userid == "" || ticket_id == ""
    then ok (none, s)
    else found now (filter (is_valid userid ticket_id now) s.tickets) s

unfoldable pub verify_uncached :
    Option String
    → Option String
    → ℕ
    → AuthTicketService
    → Result TicketError (Option AuthTicket × AuthTicketService)
unfolding verify_given
verify_uncached none ticket_id now s = ok (none, s)
verify_uncached (some userid) none now s = ok (none, s)
verify_uncached (some userid) (some ticket_id) now s = verify_given userid ticket_id now s

unfoldable pub verify_ticket :
    Option String
    → Option String
    → ℕ
    → AuthTicketService
    → Result TicketError (Option AuthTicket × AuthTicketService)
unfolding verify_uncached
verify_ticket userid ticket_id now s = elim s.ticket [
  | some t ↦ ok (some t, s)
  | none ↦ verify_uncached userid ticket_id now s
]

abbrev pub new_ticket : String → String → ℕ → AuthTicket
new_ticket userid ticket_id now = record {
  id = ticket_id;
  user_userid = userid;
  expires = now + ticket_ttl;
  updated = now;
}

-- `fetch` is the user service's: the userid of the row, if there is one.
unfoldable pub add_ticket :
    (String → Option String)
    → String
    → String
    → ℕ
    → AuthTicketService
    → Result TicketError AuthTicketService
add_ticket fetch userid ticket_id now s = elim (fetch userid) [
  | none ↦ err (no_user userid)
  | some user_userid ↦
      let t = new_ticket user_userid ticket_id now in
      ok (record { tickets = s.tickets ++ (t ∷ []); ticket = some t })
]

unfoldable pub remove_ticket : String → AuthTicketService → AuthTicketService
remove_ticket ticket_id s = record {
  tickets = filter (λ t. not (t.id == ticket_id)) s.tickets;
  ticket = none;
}
