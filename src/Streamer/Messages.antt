-- ===== src/Streamer/Messages.antt =====
-- streamer/messages.py: the handlers of the two realtime topics. Model rows and JSON that others
-- make are parameters: the annotation that the read service finds, what `present` makes of it, and
-- whether a user is flagged by the NIPSA service.
pub mod Recipients
pub mod Privacy
use subtask.Base.{
  ℕ, suc, String, Bool, true, false, not, Option, none, some, List, [], ◌∷◌, ◌++◌, ◌==◌, string_eq,
  option_eq, Result, ok, err, ◌>>=◌, if◌then◌else◌,
}
use subtask.Models.{Annotation}
use subtask.Security.Permission.{annotation_read_realtime_updates}
use subtask.Security.Identity.{Identity, annotation_context}
use subtask.Security.Predicates.{Error, deref}
use subtask.Security.PermissionMap.{permission_map}
use subtask.Security.Permits.{identity_permits}
use subtask.Streamer.Filter.{DocumentUri, Socket, matching}

pub record UserEvent (Json : Type 0) : Type 0 where
  pub type : String
  pub userid : String
  pub session_model : Json

pub record AnnotationEvent : Type 0 where
  pub action : String
  pub annotation_id : String
  pub src_client_id : Option String

pub data Payload (Json : Type 0) : Type 0 where
  deleted : String → Payload Json
  presented : Json → Payload Json

pub data Reply (Json : Type 0) : Type 0 where
  session_change : String → Json → Reply Json
  annotation_notification : String → Payload Json → Reply Json

-- What was sent before the handler returned, or raised.
pub record Delivery (Json : Type 0) : Type 0 where
  pub sent : List (Socket × Reply Json)
  pub raised : Option Error

-- The fuel of `identity_permits`: its calls nest two deep, and no deeper.
abbrev pub depth : ℕ
depth = 2

-- `not socket.identity or socket.identity.user.userid != userid`, negated
unfoldable pub is_user : String → Socket → Result Error Bool
is_user userid socket = elim socket.identity [
  | none ↦ ok false
  | some identity ↦ do user ← deref identity.user; ok (user.userid == userid)
]

module _ {Json : Type 0} where
  unfoldable pub send_json : Socket → Reply Json → List (Socket × Reply Json)
  send_json socket reply = if socket.terminated then [] else (socket, reply) ∷ []

  -- The loop over the sockets, in which a socket is passed over, sent to, or raises.
  unfoldable pub broadcast : (Socket → Result Error Bool) → Reply Json → List Socket → Delivery Json
  unfolding send_json
  broadcast wants reply [] = record { sent = []; raised = none }
  broadcast wants reply (socket ∷ sockets) =
      let rest = broadcast wants reply sockets in
      elim (wants socket) [
        | err e ↦ record { sent = []; raised = some e }
        | ok false ↦ rest
        | ok true ↦ record rest { sent = send_json socket reply ++ rest.sent }
      ]

  unfoldable pub handle_user_event : UserEvent Json → List Socket → Delivery Json
  unfolding broadcast is_user
  handle_user_event message sockets =
      broadcast (is_user message.userid) (session_change message.type message.session_model) sockets

  unfoldable pub generate_annotation_event :
      (Annotation → Json) → AnnotationEvent → Annotation → Reply Json
  generate_annotation_event present message a =
      annotation_notification message.action (
        if message.action == "delete" then deleted message.annotation_id else presented (present a))

-- `annotator_nipsad and socket.identity and socket.identity.user.userid != annotation.userid`
unfoldable pub is_kept_from : Bool → Annotation → Socket → Result Error Bool
is_kept_from nipsad a socket = elim nipsad [
  | false ↦ ok false
  | true ↦ elim socket.identity [
    | none ↦ ok false
    | some identity ↦ do user ← deref identity.user; ok (not (user.userid == a.userid))
  ]
]

-- The three tests of the loop, each of which may pass the socket over.
unfoldable pub wants_annotation : AnnotationEvent → Bool → Annotation → Socket → Result Error Bool
unfolding is_kept_from
wants_annotation message nipsad a socket =
    if message.src_client_id == socket.client_id
    then ok false
    else (is_kept_from nipsad a socket >>= λ kept.
        if kept
        then ok false
        else identity_permits permission_map socket.identity (annotation_context a) depth
            annotation_read_realtime_updates)

module _ {Json : Type 0} (normalize : String → String) (document_uris : List DocumentUri)
    (get_annotation_by_id : String → Option Annotation) (present : Annotation → Json)
    (is_flagged : String → Bool) where
  unfoldable pub handle_annotation_event : AnnotationEvent → List Socket → Delivery Json
  unfolding broadcast wants_annotation generate_annotation_event matching
  handle_annotation_event message sockets = elim (get_annotation_by_id message.annotation_id) [
    | none ↦ record { sent = []; raised = none }
    | some a ↦
        broadcast (wants_annotation message (is_flagged a.userid) a)
          (generate_annotation_event present message a) (matching normalize document_uris a sockets)
  ]
