-- ===== src/Streamer/Client/Answered.antt =====
-- What the messages of clients can do.
use subtask.Base.{
  String, Bool, true, false, ◌≡◌, ◌≤◌, refl, ap, ◌∙◌, ◌⊎◌, inl, inr, Option, none, some, List, [],
  any, not, Result, ok, err, length, ◌==◌, string_eq, if◌then◌else◌, arith,
}
use subtask.Security.Identity.{Identity, LongLivedUser}
use subtask.Streamer.Filter.{Socket, FilterClause, set_filter}
use subtask.Streamer.Clauses.{RawClause, HandlerError, type_error, attribute_error, read_clauses}
use subtask.Streamer.Clauses.Read.{is_readable, read_clauses-is_readable}
use subtask.Streamer.Client.{
  MessageType, absent, named, hashable, unhashable, ReplyId, number, no_number, FilterField,
  clauses, invalid, Payload, Reply, Handled, send_json, quiet, reply, raises, filtered,
  handle_client_id_message, handle_filter_message, handle_ping_message, tell_user,
  handle_whoami_message, handle_unknown_message, type_of, dispatch, handle_message,
}

-- A message is answered at most once, and not at all if the socket is terminated or the id of the message is
-- none or no number; the identity of the socket stays, and nothing is both answered and raised.
pub record IsAnswered (socket : Socket) (payload : Payload) (h : Handled) : Type 0 where
  pub once : length h.sent ≤ 1
  pub open_only : socket.terminated ≡ true → h.sent ≡ []
  pub unasked : payload.id ≡ none → h.sent ≡ []
  pub unnumbered : payload.id ≡ some no_number → h.sent ≡ []
  pub one_of : (h.sent ≡ []) ⊎ (h.raised ≡ none)
  pub same_identity : h.socket.identity ≡ socket.identity

module _ (socket : Socket) (payload : Payload) where
  reply-IsAnswered :
      (id : Option ReplyId) (r : Reply) (is_ok : Bool)
      → payload.id ≡ id
      → IsAnswered socket payload (reply socket id r is_ok)
  unfolding reply send_json
  reply-IsAnswered none r is_ok p = record {
    once = omega arith;
    open_only = λ h. refl;
    unasked = λ h. refl;
    unnumbered = λ h. refl;
    one_of = inl refl;
    same_identity = refl;
  }
  reply-IsAnswered (some no_number) r is_ok p = record {
    once = omega arith;
    open_only = λ h. refl;
    unasked = λ h. refl;
    unnumbered = λ h. refl;
    one_of = inl refl;
    same_identity = refl;
  }
  reply-IsAnswered (some (number n)) r is_ok p = record {
    once = ground arith;
    open_only = λ h. rw h refl;
    unasked = λ h. cc;
    unnumbered = λ h. cc;
    one_of = inr refl;
    same_identity = refl;
  }

  quiet-IsAnswered :
      (s : Socket) → s.identity ≡ socket.identity → IsAnswered socket payload (quiet s)
  quiet-IsAnswered s h = record {
    once = omega arith;
    open_only = λ h. refl;
    unasked = λ h. refl;
    unnumbered = λ h. refl;
    one_of = inl refl;
    same_identity = h;
  }

  raises-IsAnswered : (e : HandlerError) → IsAnswered socket payload (raises socket e)
  raises-IsAnswered e = record {
    once = omega arith;
    open_only = λ h. refl;
    unasked = λ h. refl;
    unnumbered = λ h. refl;
    one_of = inl refl;
    same_identity = refl;
  }

  handle_client_id_message-IsAnswered :
      (v : Option (Option String))
      → IsAnswered socket payload (handle_client_id_message socket payload v)
  unfolding handle_client_id_message
  handle_client_id_message-IsAnswered none = reply-IsAnswered payload.id _ _ refl
  handle_client_id_message-IsAnswered (some v) = quiet-IsAnswered _ refl

  tell_user-IsAnswered :
      (user : Option LongLivedUser) → IsAnswered socket payload (tell_user socket payload user)
  unfolding tell_user
  tell_user-IsAnswered none = raises-IsAnswered attribute_error
  tell_user-IsAnswered (some user) = reply-IsAnswered payload.id _ _ refl

  handle_whoami_message-IsAnswered :
      (i : Option Identity) → IsAnswered socket payload (handle_whoami_message socket payload i)
  unfolding handle_whoami_message
  handle_whoami_message-IsAnswered none = reply-IsAnswered payload.id _ _ refl
  handle_whoami_message-IsAnswered (some identity) = tell_user-IsAnswered identity.user

  handle_unknown_message-IsAnswered :
      IsAnswered socket payload (handle_unknown_message socket payload)
  unfolding handle_unknown_message
  handle_unknown_message-IsAnswered = reply-IsAnswered payload.id _ _ refl

  handle_ping_message-IsAnswered : IsAnswered socket payload (handle_ping_message socket payload)
  unfolding handle_ping_message
  handle_ping_message-IsAnswered = reply-IsAnswered payload.id _ _ refl

  module _ (normalize : String → String) where
    filtered-IsAnswered :
        (r : Result HandlerError (List FilterClause))
        → IsAnswered socket payload (filtered normalize socket r)
    unfolding set_filter
    filtered-IsAnswered (ok cs) = quiet-IsAnswered _ refl
    filtered-IsAnswered (err e) = raises-IsAnswered e

    handle_filter_message-IsAnswered :
        (f : Option FilterField)
        → IsAnswered socket payload (handle_filter_message normalize socket payload f)
    unfolding handle_filter_message
    handle_filter_message-IsAnswered none = reply-IsAnswered payload.id _ _ refl
    handle_filter_message-IsAnswered (some invalid) = reply-IsAnswered payload.id _ _ refl
    handle_filter_message-IsAnswered (some (clauses raws)) = filtered-IsAnswered (read_clauses raws)

    if-IsAnswered :
        {a b : Handled} (c : Bool)
        → IsAnswered socket payload a
        → IsAnswered socket payload b
        → IsAnswered socket payload (if c then a else b)
    if-IsAnswered true ha hb = ha
    if-IsAnswered false ha hb = hb

    dispatch-IsAnswered :
        (t : MessageType) → IsAnswered socket payload (dispatch normalize socket payload t)
    unfolding dispatch
    dispatch-IsAnswered absent = handle_unknown_message-IsAnswered
    dispatch-IsAnswered hashable = handle_unknown_message-IsAnswered
    dispatch-IsAnswered unhashable = raises-IsAnswered type_error
    dispatch-IsAnswered (named name) =
        if-IsAnswered (name == "client_id") (handle_client_id_message-IsAnswered payload.value) (
          if-IsAnswered (name == "filter") (handle_filter_message-IsAnswered payload.filter) (
            if-IsAnswered (name == "ping") handle_ping_message-IsAnswered (
              if-IsAnswered (name == "whoami") (handle_whoami_message-IsAnswered socket.identity)
                handle_unknown_message-IsAnswered)))

    -- Whatever a client sends, its message is answered at most once, and not if its socket is terminated or the
    -- message has no id or one that is no number; nothing is both answered and raised; and the identity of
    -- the socket stays what it was.
    pub handle_message-IsAnswered :
        IsAnswered socket payload (handle_message normalize socket payload)
    unfolding handle_message
    handle_message-IsAnswered = dispatch-IsAnswered (type_of payload)

    filter_handled :
        (raws : List RawClause)
        → payload.filter ≡ some (clauses raws)
        → (payload.type_ ≡ absent) ⊎ (payload.type_ ≡ named "filter")
        → handle_message normalize socket payload ≡ filtered normalize socket (read_clauses raws)
    unfolding handle_message dispatch handle_filter_message string_eq
    filter_handled raws hf (inl h) = rw h (rw hf refl)
    filter_handled raws hf (inr h) = rw h (rw hf refl)

    -- A filter that the schema takes, in a message whose type is "filter" or which has none, and of which some
    -- clause cannot be read (it is no object, lacks its field or the value of a known field, or has a field
    -- or values that are not to be compared), makes the handler raise; nothing is answered, and the socket
    -- keeps the filter that it had.
    pub handle_message-raises :
        (raws : List RawClause)
        → payload.filter ≡ some (clauses raws)
        → (payload.type_ ≡ absent) ⊎ (payload.type_ ≡ named "filter")
        → any (λ raw. not (is_readable raw)) raws ≡ true
        → (e : HandlerError) × (handle_message normalize socket payload ≡ raises socket e)
    handle_message-raises raws hf ht unreadable =
        let (e, failed) = read_clauses-is_readable raws unreadable in
        (e, filter_handled raws hf ht ∙ ap (filtered normalize socket) failed)
