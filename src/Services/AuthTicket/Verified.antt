-- ===== src/Services/AuthTicket/Verified.antt =====
-- Which tickets are verified.
use subtask.Base.{
  ℕ, ◌+◌, String, Bool, true, false, not, ◌||◌, ◌≡◌, refl, ap, ◌∙◌, Option, none, some, List, [],
  ◌∷◌, ◌++◌, filter, ltb, ◌==◌, string_eq, ==-refl, Result, ok, err, if◌then◌else◌, arith,
  Bool-cases, inl, inr, All,
}
use subtask.Services.AuthTicket.{
  AuthTicket, AuthTicketService, TicketError, ticket_ttl, new_ticket, is_valid, refreshed, found,
  verify_ticket, add_ticket, remove_ticket,
}

removed_rows :
    (userid ticket_id : String) (now : ℕ) (rows : List AuthTicket)
    → filter (is_valid userid ticket_id now) (filter (λ t. not (t.id == ticket_id)) rows) ≡ []
removed_rows userid ticket_id now [] = refl
removed_rows userid ticket_id now (t ∷ rows) =
    ground (arith, removed_rows userid ticket_id now rows)

-- After remove_ticket, no call of verify_ticket with that ticket id finds a ticket, whatever the
-- table and the cache were, and none raises.
pub verify_ticket-remove_ticket :
    (userid : Option String) (ticket_id : String) (now : ℕ) (s : AuthTicketService)
    → verify_ticket userid (some ticket_id) now (remove_ticket ticket_id s)
      ≡ ok (none, remove_ticket ticket_id s)
unfolding verify_ticket remove_ticket
verify_ticket-remove_ticket none ticket_id now s = refl
verify_ticket-remove_ticket (some userid) ticket_id now s =
    elim (Bool-cases (userid == "" || ticket_id == "")) [
      | inl missing ↦ rw missing refl
      | inr present ↦ rw present (rw (removed_rows userid ticket_id now s.tickets) refl)
    ]

found_rows :
    (userid ticket_id : String) (now : ℕ) (rows : List AuthTicket)
    → All (λ t. (t.id == ticket_id) ≡ false) rows
    → (t : AuthTicket)
    → filter (is_valid userid ticket_id now) (rows ++ (t ∷ []))
      ≡ (if is_valid userid ticket_id now t then t ∷ [] else [])
found_rows userid ticket_id now [] h t = refl
found_rows userid ticket_id now (row ∷ rows) (h, hs) t =
    ground (arith, found_rows userid ticket_id now rows hs t)

-- The ticket that a call returned.
abbrev pub ticket_of :
    Result TicketError (Option AuthTicket × AuthTicketService)
    → Result TicketError (Option AuthTicket)
ticket_of (ok (t, s)) = ok t
ticket_of (err e) = err e

is_valid_new :
    (userid ticket_id : String) (now later : ℕ)
    → is_valid userid ticket_id later (new_ticket userid ticket_id now)
      ≡ ltb later (now + ticket_ttl)
is_valid_new userid ticket_id now later = ground (arith, ==-refl userid, ==-refl ticket_id)

found_new :
    (later : ℕ) (t : AuthTicket) (b : Bool) (s : AuthTicketService)
    → ticket_of (found later (if b then t ∷ [] else []) s)
      ≡ ok (if b then some (refreshed later t) else none)
unfolding found
found_new later t true s = refl
found_new later t false s = refl

verified_rows :
    (userid ticket_id : String) (later : ℕ) (s : AuthTicketService) (rows : List AuthTicket)
    → (userid == "" || ticket_id == "") ≡ false
    → filter (is_valid userid ticket_id later) s.tickets ≡ rows
    → verify_ticket (some userid) (some ticket_id) later (record s { ticket = none })
      ≡ found later rows (record s { ticket = none })
unfolding verify_ticket
verified_rows userid ticket_id later s rows present p = rw present (rw p refl)

-- If neither id is empty, the user service finds the userid with this very spelling, and no ticket has the
-- ticket id, then add_ticket returns, and the first verification of the ticket in a later request finds it
-- before its time is over, refreshed if it is due for that, and finds none from then on.
pub verify_ticket-add_ticket :
    (fetch : String → Option String) (userid ticket_id : String) (now later : ℕ)
    (s : AuthTicketService)
    → fetch userid ≡ some userid
    → (userid == "" || ticket_id == "") ≡ false
    → All (λ t. (t.id == ticket_id) ≡ false) s.tickets
    → (s' : AuthTicketService) × (add_ticket fetch userid ticket_id now s ≡ ok s')
      × (ticket_of
            (verify_ticket (some userid) (some ticket_id) later (record s' { ticket = none }))
          ≡ ok (
              if ltb later (now + ticket_ttl)
              then some (refreshed later (new_ticket userid ticket_id now))
              else none))
unfolding add_ticket
verify_ticket-add_ticket fetch userid ticket_id now later s known present new =
    let t = new_ticket userid ticket_id now in
    let s' : AuthTicketService = record { tickets = s.tickets ++ (t ∷ []); ticket = some t } in
    (
      s',
      rw (known, add_ticket) refl,
      ap ticket_of (
            verified_rows userid ticket_id later s'
              (if ltb later (now + ticket_ttl) then t ∷ [] else []) present
              (found_rows userid ticket_id later s.tickets new t
                ∙ ap (λ b. if b then t ∷ [] else []) (is_valid_new userid ticket_id now later)))
          ∙ found_new later t (ltb later (now + ticket_ttl)) (record s' { ticket = none }),
    )
