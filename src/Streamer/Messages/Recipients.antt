-- ===== src/Streamer/Messages/Recipients.antt =====
-- Who is told of an event, where every socket that has an identity has a user: the streamer's
-- policy makes identities of users alone.
use subtask.Base.{
  String, ◌≡◌, refl, Bool, true, not, ◌&&◌, ◌||◌, none, some, List, [], ◌∷◌, ◌++◌, filter, All,
  All-weaken, inl, inr, Bool-cases, ◌==◌, string_eq, option_eq, Result, ok, arith,
}
use subtask.Models.{Annotation}
use subtask.Security.Permission.{annotation_read_realtime_updates}
use subtask.Security.Identity.{annotation_context, authenticated_userid}
use subtask.Security.Predicates.{Error, found}
use subtask.Security.Permits.Granted.{granted}
use subtask.Streamer.Filter.{Socket}
use subtask.Streamer.Messages.{
  UserEvent, AnnotationEvent, Reply, session_change, send_json, broadcast, is_user,
  handle_user_event,
}

abbrev pub HasUser : Socket → Type 0
HasUser socket = elim socket.identity [ none ↦ Unit | some identity ↦ found identity.user ≡ true ]

-- One message for each socket that is still open.
abbrev pub send_all : {Json : Type 0} → Reply Json → List Socket → List (Socket × Reply Json)
send_all reply [] = []
send_all reply (socket ∷ sockets) = send_json socket reply ++ send_all reply sockets

module _ {Json : Type 0} where
  broadcast-filter :
      (wants : Socket → Result Error Bool) (test : Socket → Bool) (reply : Reply Json)
      (sockets : List Socket)
      → All (λ s. wants s ≡ ok (test s)) sockets
      → broadcast wants reply sockets
        ≡ record { sent = send_all reply (filter test sockets); raised = none }
  unfolding broadcast
  broadcast-filter wants test reply [] h = refl
  broadcast-filter wants test reply (s ∷ sockets) (h, hs) = elim (Bool-cases (test s)) [
    | inl yes_ ↦ ground (arith, broadcast-filter wants test reply sockets hs)
    | inr no_ ↦ ground (arith, broadcast-filter wants test reply sockets hs)
  ]

-- The caller behind a socket is the user.
abbrev pub is_of : String → Socket → Bool
is_of userid socket = authenticated_userid socket.identity == some userid

is_user-is_of :
    (userid : String) (socket : Socket)
    → HasUser socket
    → is_user userid socket ≡ ok (is_of userid socket)
unfolding is_user option_eq
is_user-is_of userid socket h = ground arith

-- A socket that the loop sends to: of another client than the event's, of nobody but the author if
-- the author is flagged (or of no user), and of someone whom the annotation is open to.
abbrev pub reaches : AnnotationEvent → Bool → Annotation → Socket → Bool
reaches message nipsad a socket =
    not (message.src_client_id == socket.client_id)
    && (not nipsad || not (found socket.identity) || is_of a.userid socket)
    && granted socket.identity (annotation_context a) annotation_read_realtime_updates

-- A session change is sent to the open sockets of the user, and to no others.
pub handle_user_event-is_of :
    {Json : Type 0} (message : UserEvent Json) (sockets : List Socket)
    → All HasUser sockets
    → let reply = session_change message.type message.session_model in
      handle_user_event message sockets
      ≡ record { sent = send_all reply (filter (is_of message.userid) sockets); raised = none }
unfolding handle_user_event
handle_user_event-is_of message sockets h =
    broadcast-filter (is_user message.userid) (is_of message.userid) _ sockets
      (All-weaken HasUser _ sockets (is_user-is_of message.userid) h)
