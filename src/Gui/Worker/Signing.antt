-- ===== src/Gui/Worker/Signing.antt =====
-- Signing in and registering, as the packets of the handshake arrive at the worker.
use g04_final_project_d_25_c.Prelude.{
  ℤ, Bool, true, false, String, some, [], ◌∷◌, ◌++◌, ◌≡◌, ◌∙◌, ap, refl, ◌==◌, String_eq,
  Bool-cases, inl, inr, if◌then◌else◌,
}
use g04_final_project_d_25_c.Dict.{get}
use g04_final_project_d_25_c.Exec.{Result, require, modify, catch, ◌>>=◌}
use g04_final_project_d_25_c.Protocol.{PacketType, Reply, string}
use g04_final_project_d_25_c.Gui.Events.{
  login_success, session_restored, register_success, system_message, login_failed,
}
use g04_final_project_d_25_c.Gui.Worker
use g04_final_project_d_25_c.Gui.Worker.{TcpWorker, Link, absent, ready, failing}
use g04_final_project_d_25_c.Gui.Worker.Receiver.{
  handle_packet, on_packet, packet_branch, on_auth_success, on_session_ack, take_session,
  announce_session, announce_account, text_or, has_token, given_or, text_field, emit,
}

-- What `send_welcome` of the server sends, in the type of either of its two packets.
abbrev pub welcome_packet : PacketType → String → String → String → Reply
welcome_packet t name token room = record {
  type = t;
  fields =
      ("sender", string "server")
      ∷ ("username", string name)
      ∷ ("session_token", string token)
      ∷ ("room", string room)
      ∷ [];
}

-- What the server sends when an account is made.
abbrev pub account_packet : String → String → Reply
account_packet name message = record {
  type = PacketType.auth_success;
  fields = ("username", string name) ∷ ("message", string message) ∷ [];
}

-- The packet that welcomes a user, in either of its types, leaves the worker with the name and the
-- token of the server, where none of the three texts is empty, and raises `login_success` and then
-- `session_restored` with the room.
pub handle_packet-welcome :
    (qt_int : ℤ → Result ℤ) (again : Bool) (name token room : String) (w : TcpWorker)
    → (name == "") ≡ false
    → (token == "") ≡ false
    → (room == "") ≡ false
    → handle_packet qt_int
        (welcome_packet
          (if again then PacketType.session_ack else PacketType.auth_success)
          name
          token
          room)
        w
      ≡ record w {
        username = some name;
        session_token = some token;
        emitted = (w.emitted ++ login_success name ∷ []) ++ session_restored name room ∷ [];
      }
unfolding handle_packet on_auth_success on_session_ack take_session announce_session text_or
    given_or
handle_packet-welcome qt_int true name token room w n t r =
    rw
      (
        handle_packet, on_packet, packet_branch, on_session_ack, take_session, announce_session, n,
        t, r,
      )
      refl
handle_packet-welcome qt_int false name token room w n t r =
    rw
      (
        handle_packet, on_packet, packet_branch, on_auth_success, take_session, announce_session, n,
        t, r, t,
      )
      refl

-- What the server sends when it refuses.
abbrev pub refusal_packet : String → Reply
refusal_packet reason = record {
  type = PacketType.auth_failed;
  fields = ("message", string reason) ∷ [];
}

reconnect-has_token :
    (token : String) (w : TcpWorker)
    → (token == "") ≡ false
    → has_token (Worker.reconnect token w) ≡ true
unfolding Worker.reconnect Worker.send_raw
reconnect-has_token token w t = by_link w.socket refl
  where
    by_link : (l : Link) → w.socket ≡ l → has_token (Worker.reconnect token w) ≡ true
    by_link absent e = rw (e, t) refl
    by_link ready e = rw (e, t) refl
    by_link (failing r) e = rw (e, t) refl

account_told :
    (qt_int : ℤ → Result ℤ) (name message : String) (w : TcpWorker)
    → (name == "") ≡ false
    → (handle_packet qt_int (account_packet name message) w).emitted ≡ (
        if has_token w
        then (w.emitted ++ login_success name ∷ []) ++ session_restored name "global" ∷ []
        else (w.emitted ++ register_success name ∷ []) ++ system_message "auth" message ∷ [])
unfolding handle_packet on_auth_success take_session announce_session announce_account text_or
    given_or
account_told qt_int name message w n = elim (Bool-cases (has_token w)) [
  | inl h ↦
      rw
        (
          handle_packet, on_packet, packet_branch, on_auth_success, take_session, announce_session,
          h, n,
        )
        refl
  | inr h ↦
      rw
        (
          handle_packet, on_packet, packet_branch, on_auth_success, take_session, announce_account,
          h, n,
        )
        refl
]

-- A refusal is told, and changes nothing else.
refused :
    (qt_int : ℤ → Result ℤ) (reason : String) (w : TcpWorker)
    → handle_packet qt_int (refusal_packet reason) w
      ≡ record w { emitted = w.emitted ++ login_failed reason ∷ [] }
unfolding handle_packet on_packet packet_branch text_field emit require modify get ◌>>=◌ catch
refused qt_int reason w = refl

-- The packet that says that an account was made signs nobody in where the worker has no token: it
-- raises `register_success` and a system message. Where the worker has a token, it raises
-- `login_success` and `session_restored` instead. Where `reconnect` was called with a token that is not
-- empty, the worker has one, also after the server has refused it; so the account packet that comes
-- after the refusal raises `login_success`.
pub handle_packet-account :
    (qt_int : ℤ → Result ℤ) (name message token reason : String) (w : TcpWorker)
    → (name == "") ≡ false
    → (token == "") ≡ false
    → ((handle_packet qt_int (account_packet name message) w).emitted ≡ (
        if has_token w
        then (w.emitted ++ login_success name ∷ []) ++ session_restored name "global" ∷ []
        else (w.emitted ++ register_success name ∷ []) ++ system_message "auth" message ∷ []))
      × (has_token (handle_packet qt_int (refusal_packet reason) (Worker.reconnect token w)) ≡ true)
      × ((handle_packet qt_int
            (account_packet name message)
            (handle_packet qt_int (refusal_packet reason) (Worker.reconnect token w))).emitted
          ≡ (((Worker.reconnect token w).emitted ++ login_failed reason ∷ [])
              ++ login_success name ∷ [])
            ++ session_restored name "global" ∷ [])
handle_packet-account qt_int name message token reason w n t =
    let still : has_token (handle_packet qt_int (refusal_packet reason) (Worker.reconnect token w))
        ≡ true =
      ap has_token (refused qt_int reason (Worker.reconnect token w))
      ∙ reconnect-has_token token w t in
    (
      account_told qt_int name message w n,
      still,
      account_told qt_int name message
            (handle_packet qt_int (refusal_packet reason) (Worker.reconnect token w)) n
          ∙ ap
              (λ b.
                if b
                then (w'.emitted ++ login_success name ∷ []) ++ session_restored name "global" ∷ []
                else (w'.emitted ++ register_success name ∷ [])
                  ++ system_message "auth" message ∷ [])
              still
          ∙ ap (λ x. (x.emitted ++ login_success name ∷ []) ++ session_restored name "global" ∷ [])
              (refused qt_int reason (Worker.reconnect token w)),
    )
  where
    w' : TcpWorker
    w' = handle_packet qt_int (refusal_packet reason) (Worker.reconnect token w)
