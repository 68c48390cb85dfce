-- ===== src/Service/Handshake.antt =====
-- server/server.py: the handshake of a connection, and its life after it.
use g04_final_project_d_25_c.Prelude.{
  ℕ, zero, suc, Bool, true, false, String, ◌==◌, String_eq, ℕ_eq, Option, none, some, List, [], ◌∷◌,
  is_some, if◌then◌else◌, strip, join_text,
}
use g04_final_project_d_25_c.Dict.{Dict}
use g04_final_project_d_25_c.Exec.{
  Exec, PyError, value_error, internal_error, pure, raise, gets, modify, catch, ◌>>=◌, ◌>>◌,
}
use g04_final_project_d_25_c.Protocol.{
  Packet, PacketType, Field, Value, null, text, string, field_or, py_str, truthy, stripped_field,
  auth_failed, auth_success, session_ack,
}
use g04_final_project_d_25_c.Auth
use g04_final_project_d_25_c.Server.{Server, Env, on_db}
use g04_final_project_d_25_c.Server.Connections
use g04_final_project_d_25_c.Server.Connections.{transmit}
use g04_final_project_d_25_c.Server.Sessions.{Restored, create_session, restore_session}
use g04_final_project_d_25_c.Service.{set_user_room}
use g04_final_project_d_25_c.Service.Clients.{register_client, unregister_client}
use g04_final_project_d_25_c.Service.Routing.{type_among, route_packet}

-- `packet.get(a) or packet.get(b) or ""`
abbrev pub first_truthy : Value → Value → Value
first_truthy a b = if truthy a then a else if truthy b then b else text ""

unfoldable pub claimed_name : Packet → String
claimed_name packet =
    strip (py_str (first_truthy (field_or "username" null packet) (field_or "sender" null packet)))

unfoldable pub given_password : Packet → String
given_password packet = py_str (first_truthy (field_or "password" null packet) (text ""))

unfoldable pub send_packet : ℕ → PacketType → Dict String Field → Exec Server (Unit {0})
send_packet conn kind fields = modify (transmit conn kind fields)

unfoldable pub send_auth_failed : ℕ → String → Exec Server (Unit {0})
send_auth_failed conn reason = send_packet conn auth_failed (("message", string reason) ∷ [])

-- `try: account = m` / `except ValueError as exc: self._send_auth_failed(…)`; any other exception goes on.
abbrev pub or_failed : ℕ → PyError → Exec Server (Option String)
or_failed conn (value_error e) = do send_auth_failed conn e; pure none
or_failed conn internal_error = raise internal_error

abbrev pub some_account : Exec Server String → Exec Server (Option String)
some_account m = do name ← m; pure (some name)

abbrev pub attempt : ℕ → Exec Server String → Exec Server (Option String)
attempt conn m = catch (some_account m) (or_failed conn)

abbrev pub report_registered : ℕ → Option String → Exec Server Bool
report_registered conn none = pure false
report_registered conn (some name) = do
  send_packet conn auth_success
      (("username", string name) ∷ ("message", string "Account created. You may now sign in.") ∷ [])
  pure true

unfoldable pub handle_register : Env → ℕ → Packet → Exec Server Bool
handle_register env conn packet = do
  registered ←
      attempt conn (on_db (Auth.register env (claimed_name packet) (given_password packet)))
  report_registered conn registered

abbrev pub already_connected : String
already_connected = "This account is already connected from another client."

-- The pair of packets that every sign-in ends with.
unfoldable pub send_welcome : ℕ → String → String → String → String → Exec Server (Unit {0})
send_welcome conn name token room greeting = do
  send_packet conn auth_success (
      ("sender", string "server")
      ∷ ("username", string name)
      ∷ ("session_token", string token)
      ∷ ("room", string room)
      ∷ ("message", string greeting)
      ∷ [])
  send_packet conn session_ack (
      ("sender", string "server")
      ∷ ("username", string name)
      ∷ ("session_token", string token)
      ∷ ("room", string room)
      ∷ [])

-- What follows a password that is right.
unfoldable pub sign_in : Env → ℕ → Option String → Exec Server (Option String)
sign_in env conn none = pure none
sign_in env conn (some name) = do
  connected ← gets (λ s. is_some (Connections.get name s))
  if connected then (send_auth_failed conn already_connected >> pure none) else do
    modify (Connections.add name conn)
    modify (set_user_room name "global")
    token ← create_session env name "global"
    send_welcome conn name token "global" (join_text ("Welcome back, " ∷ name ∷ "." ∷ []))
    register_client name false
    pure (some name)

unfoldable pub handle_login : Env → ℕ → Packet → Exec Server (Option String)
handle_login env conn packet = do
  account ←
      attempt conn (on_db (Auth.authenticate env (claimed_name packet) (given_password packet)))
  sign_in env conn account

unfoldable pub resume : ℕ → Option Restored → Exec Server (Option String)
resume conn none = do
  send_auth_failed conn "Unable to restore session. Please log in again."
  pure none
resume conn (some r) = do
  connected ← gets (λ s. is_some (Connections.get r.username s))
  if connected then (send_auth_failed conn already_connected >> pure none) else do
    modify (set_user_room r.username r.room_name)
    modify (Connections.add r.username conn)
    send_welcome conn r.username r.session_token r.room_name
        (join_text ("Reconnected as " ∷ r.username ∷ "." ∷ []))
    register_client r.username true
    pure (some r.username)

unfoldable pub handle_reconnect : ℕ → Packet → Exec Server (Option String)
handle_reconnect conn packet = do
  found ← restore_session (stripped_field "session_token" (text "") packet)
  resume conn found

-- What one packet of the handshake leads to: the loop goes on, or it ends with a name or none.
pub data Step : Type 0 where
  again : Step
  done : Option String → Step

abbrev pub ends_with : Option String → Step
ends_with none = again
ends_with (some name) = if name == "" then again else done (some name)

unfoldable pub handshake_step : Env → ℕ → Option PacketType → Packet → Exec Server Step
handshake_step env conn (some PacketType.register) packet = do
  handle_register env conn packet
  pure again
handshake_step env conn (some PacketType.login) packet = do
  name ← handle_login env conn packet
  pure (ends_with name)
handshake_step env conn (some PacketType.reconnect) packet = do
  name ← handle_reconnect conn packet
  pure (ends_with name)
handshake_step env conn _ packet = do
  send_auth_failed conn "First packet must be REGISTER, LOGIN or RECONNECT."
  pure (done none)

-- The packets that a connection gives, each with what is taken from outside while it is handled; at
-- the end of the list `receive_packet` returns None.
abbrev pub Stream : Type 0
Stream = List (Env × Packet)

abbrev pub first_types : List PacketType
first_types = PacketType.register ∷ PacketType.login ∷ PacketType.reconnect ∷ []

abbrev pub type_of : Packet → Option PacketType
type_of packet = type_among first_types (field_or "type" null packet)

-- The loop of `_authenticate`, with the tries that are left, and the packets that it leaves.
unfoldable pub authenticate_loop : ℕ → ℕ → Stream → Exec Server (Option String × Stream)
authenticate_loop zero conn stream = do
  send_auth_failed conn "Too many failed authentication attempts."
  pure (none, stream)
authenticate_loop (suc n) conn [] = pure (none, [])
authenticate_loop (suc n) conn ((env, packet) ∷ stream) = do
  step ← handshake_step env conn (type_of packet) packet
  elim step [ again ↦ authenticate_loop n conn stream | done name ↦ pure (name, stream) ]

unfoldable pub serve_packets : String → Stream → Exec Server (Unit {0})
serve_packets username [] = pure tt
serve_packets username ((env, packet) ∷ stream) = do
  route_packet env packet username
  serve_packets username stream

unfoldable pub close : ℕ → Server → Server
close conn s = record s { writable = λ c. if c == conn then false else s.writable c }

-- `finally: if username: self.service.unregister_client(username)`, and `conn.close()`
unfoldable pub finish : ℕ → String → Exec Server (Unit {0})
finish conn username = do unregister_client username; modify (close conn)

abbrev pub serve_client : ℕ → Option String × Stream → Exec Server (Unit {0})
serve_client conn (none, stream) = modify (close conn)
serve_client conn (some name, stream) = do
  catch (serve_packets name stream) (λ e. pure tt)
  finish conn name

-- An exception of the handshake leaves `username` at None, so that nothing is unregistered.
unfoldable pub handle_client : ℕ → Stream → Exec Server (Unit {0})
handle_client conn stream =
    catch (authenticate_loop 5 conn stream) (λ e. pure (none, [])) >>= serve_client conn
