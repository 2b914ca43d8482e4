-- ===== src/Streamer/Client.antt =====
-- streamer/websocket.py: what a message of a client does to its socket, and what is answered. A payload is
-- an object, with the keys that it has (`null` as a type counts as none); the number of a message is only
-- given back. A client id that is no text, and the JSON that is sent, are left out.
pub mod Answered
use subtask.Base.{
  ℕ, String, Bool, true, false, not, ◌&&◌, ◌≡◌, ◌≤◌, refl, ap, ◌∙◌, Option, none, some, List, [],
  ◌∷◌, Result, ok, err, any, length, ◌==◌, string_eq, option_eq, if◌then◌else◌, arith,
}
use subtask.Security.Identity.{Identity, LongLivedUser}
use subtask.Streamer.Filter.{Socket, FilterClause, set_filter}
use subtask.Streamer.Clauses.{RawClause, HandlerError, type_error, attribute_error, read_clauses}

pub data MessageType : Type 0 where
  absent : MessageType
  named : String → MessageType
  -- A number or a truth value, and a list or an object, which is no key of a dictionary.
  hashable unhashable : MessageType

pub data ReplyId : Type 0 where
  number : ℕ → ReplyId
  no_number : ReplyId

-- A filter that the schema takes, with its clauses, or another value.
pub data FilterField : Type 0 where
  clauses : List RawClause → FilterField
  invalid : FilterField

pub record Payload : Type 0 where
  pub id : Option ReplyId
  pub type_ : MessageType
  pub message_type : Option String
  pub value : Option (Option String)
  pub filter : Option FilterField

pub data Reply : Type 0 where
  pong : Reply
  whoyouare : Option String → Reply
  invalid_data : String → Reply
  invalid_type : MessageType → Reply

pub record Sent : Type 0 where
  pub reply_to : ℕ
  pub ok : Bool
  pub payload : Reply

pub record Handled : Type 0 where
  pub socket : Socket
  pub sent : List Sent
  pub raised : Option HandlerError

-- `WebSocket.send_json`
unfoldable pub send_json : Socket → Sent → Handled
send_json socket data_ = record {
  socket = socket;
  sent = if socket.terminated then [] else data_ ∷ [];
  raised = none;
}

abbrev pub quiet : Socket → Handled
quiet socket = record { socket = socket; sent = []; raised = none }

abbrev pub raises : Socket → HandlerError → Handled
raises socket e = record { socket = socket; sent = []; raised = some e }

-- `Message.reply`
unfoldable pub reply : Socket → Option ReplyId → Reply → Bool → Handled
unfolding send_json
reply socket none payload is_ok = quiet socket
reply socket (some no_number) payload is_ok = quiet socket
reply socket (some (number n)) payload is_ok =
    send_json socket (record { reply_to = n; ok = is_ok; payload = payload })

unfoldable pub handle_client_id_message : Socket → Payload → Option (Option String) → Handled
unfolding reply
handle_client_id_message socket payload none =
    reply socket payload.id (invalid_data "\"value\" is missing") false
handle_client_id_message socket payload (some value) = quiet (record socket { client_id = value })

unfoldable pub handle_ping_message : Socket → Payload → Handled
unfolding reply
handle_ping_message socket payload = reply socket payload.id pong true

-- An identity with no user has no userid: an attribute error.
unfoldable pub tell_user : Socket → Payload → Option LongLivedUser → Handled
unfolding reply
tell_user socket payload none = raises socket attribute_error
tell_user socket payload (some user) = reply socket payload.id (whoyouare (some user.userid)) true

unfoldable pub handle_whoami_message : Socket → Payload → Option Identity → Handled
unfolding tell_user
handle_whoami_message socket payload none = reply socket payload.id (whoyouare none) true
handle_whoami_message socket payload (some identity) = tell_user socket payload identity.user

unfoldable pub handle_unknown_message : Socket → Payload → Handled
unfolding reply
handle_unknown_message socket payload = reply socket payload.id (invalid_type payload.type_) false

-- The formats that are tolerated: a message with no type.
abbrev pub tolerated : Payload → MessageType
tolerated payload = elim payload.filter [
  | some f ↦ named "filter"
  | none ↦ if payload.message_type == some "client_id" then named "client_id" else absent
]

abbrev pub type_of : Payload → MessageType
type_of payload = elim payload.type_ [
  | absent ↦ tolerated payload
  | named name ↦ named name
  | hashable ↦ hashable
  | unhashable ↦ unhashable
]

module _ (normalize : String → String) where
  -- Where reading a clause raises, the attribute of the socket is not set.
  abbrev pub filtered : Socket → Result HandlerError (List FilterClause) → Handled
  filtered socket (ok cs) = quiet (set_filter normalize socket cs)
  filtered socket (err e) = raises socket e

  unfoldable pub handle_filter_message : Socket → Payload → Option FilterField → Handled
  unfolding reply set_filter read_clauses
  handle_filter_message socket payload none =
      reply socket payload.id (invalid_data "\"filter\" is missing") false
  handle_filter_message socket payload (some invalid) =
      reply socket payload.id (invalid_data "failed to parse filter") false
  handle_filter_message socket payload (some (clauses raws)) = filtered socket (read_clauses raws)

  -- `MESSAGE_HANDLERS.get(type_, …)`
  unfoldable pub dispatch : Socket → Payload → MessageType → Handled
  unfolding handle_client_id_message handle_filter_message handle_ping_message handle_whoami_message
      handle_unknown_message
  dispatch socket payload absent = handle_unknown_message socket payload
  dispatch socket payload hashable = handle_unknown_message socket payload
  dispatch socket payload unhashable = raises socket type_error
  dispatch socket payload (named name) =
      if name == "client_id"
      then handle_client_id_message socket payload payload.value
      else if name == "filter"
      then handle_filter_message socket payload payload.filter
      else if name == "ping"
      then handle_ping_message socket payload
      else if name == "whoami"
      then handle_whoami_message socket payload socket.identity
      else handle_unknown_message socket payload

  unfoldable pub handle_message : Socket → Payload → Handled
  unfolding dispatch
  handle_message socket payload = dispatch socket payload (type_of payload)
