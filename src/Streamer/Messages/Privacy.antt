-- ===== src/Streamer/Messages/Privacy.antt =====
-- What no socket is told, whatever identity it has.
use mathlib.Core.Path.{subst}
use subtask.Base.{
  All-if, String, ◌≡◌, refl, sym, ◌≢◌, ◌⊎◌, Bool, true, false, Option, none, some, List, [], ◌∷◌,
  All, All-append, Result, ok, err, arith, string_eq, option_eq,
}
use subtask.Models.{Annotation, Group, ReadableBy}
use subtask.Security.Permits.Granted.{granted, identity_permits-granted}
use subtask.Security.Permission.{annotation_read_realtime_updates}
use subtask.Security.Identity.{annotation_context, authenticated_userid}
use subtask.Security.Predicates.{Error}
use subtask.Security.PermissionMap.{permission_map}
use subtask.Security.Permits.{identity_permits}
use subtask.Security.Permits.Policy.{identity_permits-private}
use subtask.Streamer.Filter.{DocumentUri, Socket, matching}
use subtask.Streamer.Messages.{
  AnnotationEvent, Reply, Delivery, depth, send_json, broadcast, generate_annotation_event,
  wants_annotation, handle_annotation_event,
}

module _ {Json : Type 0} (P : Socket → Type 0) where
  send_json-All :
      (socket : Socket) (reply : Reply Json) → P socket → All (λ m. P m.0) (send_json socket reply)
  unfolding send_json
  send_json-All socket reply h =
      All-if (λ m. P m.0) socket.terminated [] ((socket, reply) ∷ []) tt (h, tt)

  module _ (wants : Socket → Result Error Bool) (reply : Reply Json) (s : Socket)
      (rest : List Socket) where
    broadcast_step-All :
        (r : Result Error Bool)
        → wants s ≡ r
        → (wants s ≡ ok true → P s)
        → All (λ m. P m.0) (broadcast wants reply rest).sent
        → All (λ m. P m.0) (broadcast wants reply (s ∷ rest)).sent
    unfolding broadcast
    broadcast_step-All (err e) p h later = rw (p, broadcast) tt
    broadcast_step-All (ok false) p h later = rw (p, broadcast) later
    broadcast_step-All (ok true) p h later =
        rw (p, broadcast) (All-append _ (send_json s reply) _ (send_json-All s reply (h p)) later)

  -- What is true of every socket that is wanted is true of every socket that is sent to.
  broadcast-All :
      (wants : Socket → Result Error Bool) (reply : Reply Json) (sockets : List Socket)
      → ((s : Socket) → wants s ≡ ok true → P s)
      → All (λ m. P m.0) (broadcast wants reply sockets).sent
  unfolding broadcast
  broadcast-All wants reply [] h = tt
  broadcast-All wants reply (s ∷ sockets) h =
      broadcast_step-All wants reply s sockets (wants s) refl (h s)
        (broadcast-All wants reply sockets h)

module _ (message : AnnotationEvent) (nipsad : Bool) (a : Annotation) (s : Socket) where
  abbrev IsPermitted : Type 0
  IsPermitted =
      identity_permits permission_map s.identity (annotation_context a) depth
        annotation_read_realtime_updates
      ≡ ok true

  wants_annotation-permits : wants_annotation message nipsad a s ≡ ok true → IsPermitted
  unfolding wants_annotation
  wants_annotation-permits h = ground arith

  wants_annotation-ne :
      wants_annotation message nipsad a s ≡ ok true → message.src_client_id ≢ s.client_id
  unfolding wants_annotation
  wants_annotation-ne h = ground arith

  wants_annotation-nipsad :
      nipsad ≡ true
      → wants_annotation message nipsad a s ≡ ok true
      → (s.identity ≡ none) ⊎ (authenticated_userid s.identity ≡ some a.userid)
  unfolding wants_annotation
  wants_annotation-nipsad n h = ground arith

module _ {Json : Type 0} (normalize : String → String) (document_uris : List DocumentUri)
    (get_annotation_by_id : String → Option Annotation) (present : Annotation → Json)
    (is_flagged : String → Bool) (message : AnnotationEvent) (sockets : List Socket)
    (a : Annotation) (found : get_annotation_by_id message.annotation_id ≡ some a) where
  abbrev sent_to : List (Socket × Reply Json)
  sent_to =
      (handle_annotation_event normalize document_uris get_annotation_by_id present is_flagged
        message sockets).sent

  handle_annotation_event-eq :
      handle_annotation_event normalize document_uris get_annotation_by_id present is_flagged
        message sockets
      ≡ broadcast
          (wants_annotation message (is_flagged a.userid) a)
          (generate_annotation_event present message a)
          (matching normalize document_uris a sockets)
  unfolding handle_annotation_event
  handle_annotation_event-eq = rw (found, handle_annotation_event)

  handle_annotation_event-All :
      (P : Socket → Type 0)
      → ((s : Socket) → wants_annotation message (is_flagged a.userid) a s ≡ ok true → P s)
      → All (λ m. P m.0) sent_to
  handle_annotation_event-All P h =
      subst (λ (d : Delivery Json). All (λ m. P m.0) d.sent) (sym handle_annotation_event-eq)
        (broadcast-All P (wants_annotation message (is_flagged a.userid) a)
          (generate_annotation_event present message a) (matching normalize document_uris a sockets)
          h)

  -- Of a private annotation only sockets of its author are told.
  pub handle_annotation_event-private :
      a.shared ≡ false → All (λ m. authenticated_userid m.0.identity ≡ some a.userid) sent_to
  handle_annotation_event-private private =
      handle_annotation_event-All (λ s. authenticated_userid s.identity ≡ some a.userid)
        λ s h.
          identity_permits-private s.identity a 0 annotation_read_realtime_updates refl private
            (wants_annotation-permits message (is_flagged a.userid) a s h)

  -- The client that made the change is not told of it.
  pub handle_annotation_event-ne : All (λ m. message.src_client_id ≢ m.0.client_id) sent_to
  handle_annotation_event-ne =
      handle_annotation_event-All (λ s. message.src_client_id ≢ s.client_id)
        (wants_annotation-ne message (is_flagged a.userid) a)

  -- Of what a flagged user writes, sockets with no identity and those of the user are told.
  pub handle_annotation_event-nipsad :
      is_flagged a.userid ≡ true
      → All
          (λ m. (m.0.identity ≡ none) ⊎ (authenticated_userid m.0.identity ≡ some a.userid))
          sent_to
  handle_annotation_event-nipsad flagged =
      handle_annotation_event-All
        (λ s. (s.identity ≡ none) ⊎ (authenticated_userid s.identity ≡ some a.userid))
        (λ s. wants_annotation-nipsad message (is_flagged a.userid) a s flagged)

-- A socket with no identity is told of what is readable by the world, whether or not the author is
-- flagged.
pub wants_annotation-anonymous :
    (message : AnnotationEvent) (nipsad : Bool) (a : Annotation) (s : Socket) {g : Group}
    → s.identity ≡ none
    → message.src_client_id ≢ s.client_id
    → a.shared ≡ true
    → a.group ≡ some g
    → g.readable_by ≡ some ReadableBy.world
    → wants_annotation message nipsad a s ≡ ok true
unfolding wants_annotation granted
wants_annotation-anonymous message nipsad a s anonymous other shared group world = ground (
  arith,
  identity_permits-granted s.identity (annotation_context a) 0 annotation_read_realtime_updates,
)
