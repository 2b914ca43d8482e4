-- ===== src/Tests/Streamer.antt =====
-- Three sockets at a small site.
use subtask.Base.{
  String, ◌≡◌, refl, ◌≢◌, ◌⊎◌, inr, not, Option, Bool, true, false, none, some, List, [], ◌∷◌, All,
  any, filter, nat_eq, string_eq, option_eq, arith,
}
use text.Mathlib.TextEquality.{eq_iff}
use subtask.Models.{Annotation}
use subtask.Security.Identity.{authenticated_userid}
use subtask.Security.Clauses.{entry_eq}
use subtask.Security.PermissionMap.{permission_map}
use subtask.Security.Permits.{identity_permits}
use subtask.Streamer.Filter.{Socket}
use subtask.Streamer.Client.{
  MessageType, named, number, FilterField, clauses, Payload, pong, raises, handle_message,
}
use subtask.Streamer.Client.Answered.{IsAnswered, handle_message-IsAnswered, handle_message-raises}
use subtask.Streamer.Clauses.{
  RawClause, HandlerError, object, named_field, list_of, text_item, plain_item,
}
use subtask.Streamer.Clauses.Read.{is_readable}
use subtask.Streamer.Messages.{
  UserEvent, AnnotationEvent, annotation_notification, presented, Delivery, handle_annotation_event,
}
use subtask.Streamer.Messages.Privacy.{
  handle_annotation_event-private, handle_annotation_event-nipsad,
}
use subtask.Tests.Data.{author, reader, logged_in, note, team, world_group, socket}

abbrev sockets : List Socket
sockets = socket "c1" (logged_in author) ∷ socket "c2" (logged_in reader) ∷ socket "c3" none ∷ []

abbrev created : AnnotationEvent
created = record { action = "create"; annotation_id = "n1"; src_client_id = some "c9" }

abbrev renamed : UserEvent String
renamed = record { type = "group-join"; userid = "acct:bob@example.com"; session_model = "m" }

-- What the site sends for a note that its read service finds.
sends : Annotation → (String → Bool) → Delivery String
unfolding handle_annotation_event
sends a is_flagged =
    handle_annotation_event (λ uri. uri) [] (λ id. some a) (λ a. a.id) is_flagged created sockets

shared_event_sent :
    (sends (note team true false) (λ u. false)).sent
    ≡ (socket "c1" (logged_in author), annotation_notification "create" (presented "n1"))
      ∷ (socket "c2" (logged_in reader), annotation_notification "create" (presented "n1"))
      ∷ []
unfolding sends identity_permits permission_map entry_eq nat_eq string_eq option_eq
shared_event_sent = refl

-- The author is flagged: the reader is not told, and the socket with no identity is.
flagged_event_sent :
    (sends (note world_group true false) (λ u. true)).sent
    ≡ (socket "c1" (logged_in author), annotation_notification "create" (presented "n1"))
      ∷ (socket "c3" none, annotation_notification "create" (presented "n1"))
      ∷ []
unfolding sends identity_permits permission_map entry_eq nat_eq string_eq option_eq
flagged_event_sent = refl

handle_annotation_event-private_example :
    All
      (λ m. authenticated_userid m.0.identity ≡ some "acct:ann@example.com")
      (sends (note team false false) (λ u. false)).sent
unfolding sends
handle_annotation_event-private_example =
    handle_annotation_event-private (λ uri. uri) [] (λ id. some (note team false false)) (λ a. a.id)
      (λ u. false) created sockets (note team false false) refl refl

handle_annotation_event-nipsad_example :
    All
      (λ m.
        (m.0.identity ≡ none) ⊎ (authenticated_userid m.0.identity ≡ some "acct:ann@example.com"))
      (sends (note world_group true false) (λ u. true)).sent
unfolding sends
handle_annotation_event-nipsad_example =
    handle_annotation_event-nipsad (λ uri. uri) [] (λ id. some (note world_group true false))
      (λ a. a.id) (λ u. true) created sockets (note world_group true false) refl refl

other_client : created.src_client_id ≢ some "c3"
other_client = ground (arith, eq_iff "c9" "c3")

abbrev message : MessageType → Option FilterField → Payload
message type_ field = record {
  id = some (number 4);
  type_ = type_;
  message_type = none;
  value = none;
  filter = field;
}

-- A clause on the note, and one on a field that is not known, with no value.
abbrev on_note : List RawClause
on_note =
    object (some (named_field "/id"))
      (some (list_of (text_item "n0" ∷ plain_item ∷ text_item "n1" ∷ [])))
    ∷ object (some (named_field "/quote")) none
    ∷ []

answered_ping :
    (handle_message (λ uri. uri) (socket "c1" none) (message (named "ping") none)).sent
    ≡ record { reply_to = 4; ok = true; payload = pong } ∷ []
unfolding handle_message string_eq option_eq
answered_ping = refl

handle_message-IsAnswered_example :
    IsAnswered
      (socket "c1" none)
      (message (named "whoami") none)
      (handle_message (λ uri. uri) (socket "c1" none) (message (named "whoami") none))
handle_message-IsAnswered_example =
    handle_message-IsAnswered (socket "c1" none) (message (named "whoami") none) (λ uri. uri)

-- A clause with no keys.
abbrev bare : List RawClause
bare = object none none ∷ []

not_read : any (λ raw. not (is_readable raw)) bare ≡ true
unfolding is_readable
not_read = refl

handle_message-raises_example :
    (e : HandlerError) × (handle_message
        (λ uri. uri)
        (socket "c1" none)
        (message (named "filter") (some (clauses bare)))
      ≡ raises (socket "c1" none) e)
handle_message-raises_example =
    handle_message-raises (socket "c1" none) (message (named "filter") (some (clauses bare)))
      (λ uri. uri) bare refl (inr refl) not_read
