-- ===== src/Gui/Worker/Receiver.antt =====
-- gui/controllers/tcp_controller.py, TCPWorker: the packets that come in. `qt_int` is what a signal
-- with an `int` makes of a number of Python, which may be too large for it. A signal with a `str` or a
-- `list` takes nothing else; `session_token` and `username` are texts where they are there, and
-- `online_users` and `friends` are lists of names and of friends.
use g04_final_project_d_25_c.Prelude.{
  Bool, true, false, String, String_eq, ℕ_eq, ◌==◌, Option, none, some, List, [], ◌∷◌, ℤ, pos,
  if◌then◌else◌, or_else,
}
use g04_final_project_d_25_c.Dict.{get}
use g04_final_project_d_25_c.Exec.{
  Exec, Result, ok, err, internal_error, pure, raise, gets, modify, catch, require, ◌>>=◌, ◌>>◌,
}
use g04_final_project_d_25_c.Protocol.{
  PacketType, Reply, Field, Friend, string, nat, names, roster, history, text, py_int,
}
use g04_final_project_d_25_c.Gui.Events.{
  Event, login_success, login_failed, register_success, session_restored, message_received,
  private_message_received, system_message, friend_request_received, friend_list_updated,
  online_users_updated, user_status_changed, image_received, file_transfer_complete,
  file_transfer_started, file_transfer_progress,
}
use g04_final_project_d_25_c.Gui.Worker.{TcpWorker, emitting}

abbrev pub Handler : Type 0
Handler = Exec TcpWorker (Unit {0})

unfoldable pub emit : Event → Handler
unfolding modify
emit e = modify (emitting e)

-- `packet.get(key, default)`
abbrev pub field_of : String → Field → Reply → Field
field_of key default packet = or_else (get key packet.fields) default

-- What a signal with a `str` takes.
abbrev pub as_text : Field → Option String
as_text (string s) = some s
as_text _ = none

abbrev pub as_names : Field → Option (List String)
as_names (names xs) = some xs
as_names _ = none

abbrev pub as_roster : Field → Option (List Friend)
as_roster (roster xs) = some xs
as_roster _ = none

abbrev pub as_number : Field → Option ℤ
as_number (nat n) = some (pos n)
as_number _ = none

-- `bool(field)`
abbrev pub is_truthy : Field → Bool
is_truthy (string s) = if s == "" then false else true
is_truthy (nat n) = if n == 0 then false else true
is_truthy (names []) = false
is_truthy (names (x ∷ xs)) = true
is_truthy (roster []) = false
is_truthy (roster (x ∷ xs)) = true
is_truthy (history []) = false
is_truthy (history (x ∷ xs)) = true

unfoldable pub text_field : String → String → Reply → Exec TcpWorker String
unfolding require get
text_field key default packet =
    require (as_text (field_of key (string default) packet)) internal_error

-- What is there and not empty, and else what there was before.
unfoldable pub given_or : Option String → Option Field → Exec TcpWorker (Option String)
unfolding pure raise
given_or old none = pure old
given_or old (some (string s)) = pure (if s == "" then old else some s)
given_or old (some f) = if is_truthy f then raise internal_error else pure old

-- `packet.get(key) or old`
unfoldable pub text_or : String → Option String → Reply → Exec TcpWorker (Option String)
unfolding given_or get
text_or key old packet = given_or old (get key packet.fields)

-- `packet.get("room") or packet.get("sender", "direct")`
unfoldable pub room_or_sender : Reply → Exec TcpWorker String
unfolding require get
room_or_sender packet =
    let sender = field_of "sender" (string "direct") packet in
    let room = field_of "room" (string "") packet in
    require (as_text (if is_truthy room then room else sender)) internal_error

abbrev pub result_of : Result ℤ → Exec TcpWorker ℤ
result_of r w = (r, w)

-- `int(packet.get("filesize") or 0)`
unfoldable pub size_of : Reply → Result ℤ
unfolding py_int get
size_of packet = elim (field_of "filesize" (nat 0) packet) [
  | nat n ↦ ok (pos n)
  | string s ↦ if s == "" then ok (pos 0) else py_int (text s)
  | names xs ↦ if is_truthy (names xs) then err internal_error else ok (pos 0)
  | roster xs ↦ if is_truthy (roster xs) then err internal_error else ok (pos 0)
  | history xs ↦ if is_truthy (history xs) then err internal_error else ok (pos 0)
]

-- `self.username or ""`
abbrev pub shown_name : TcpWorker → String
shown_name w = or_else w.username ""

abbrev pub is_given : Option String → Bool
is_given none = false
is_given (some t) = if t == "" then false else true

-- `if self.session_token:`
abbrev pub has_token : TcpWorker → Bool
has_token w = is_given w.session_token

abbrev pub or_global : Field → Field
or_global room = if is_truthy room then room else string "global"

-- The first lines of AUTH_SUCCESS and of SESSION_ACK.
unfoldable pub take_session : Reply → Handler
unfolding text_or ◌>>=◌
take_session packet = do
  token ← gets (λ w. w.session_token)
  token' ← text_or "session_token" token packet
  modify (λ w. record w { session_token = token' })
  name ← gets (λ w. w.username)
  name' ← text_or "username" name packet
  modify (λ w. record w { username = name' })

unfoldable pub announce_session : Reply → Handler
unfolding emit ◌>>=◌ get
announce_session packet = do
  name ← gets shown_name
  emit (login_success name)
  room ← require (as_text (or_global (field_of "room" (string "global") packet))) internal_error
  emit (session_restored name room)

unfoldable pub announce_account : Reply → Handler
unfolding emit text_field ◌>>=◌
announce_account packet = do
  name ← gets shown_name
  emit (register_success name)
  message ← text_field "message" "Account created. You may now sign in." packet
  emit (system_message "auth" message)

unfoldable pub on_auth_success : Reply → Handler
unfolding take_session announce_session announce_account ◌>>=◌
on_auth_success packet = do
  take_session packet
  signed_in ← gets has_token
  if signed_in then announce_session packet else announce_account packet

unfoldable pub on_session_ack : Reply → Handler
unfolding take_session announce_session ◌>>=◌
on_session_ack packet = do take_session packet; announce_session packet

unfoldable pub on_chat : Reply → Handler
unfolding text_field emit ◌>>=◌
on_chat packet = do
  room ← text_field "room" "global" packet
  sender ← text_field "sender" "unknown" packet
  message ← text_field "message" "" packet
  timestamp ← text_field "timestamp" "" packet
  emit (message_received room sender message timestamp)

unfoldable pub on_private : Reply → Handler
unfolding text_field emit ◌>>=◌
on_private packet = do
  sender ← text_field "sender" "unknown" packet
  message ← text_field "message" "" packet
  timestamp ← text_field "timestamp" "" packet
  emit (private_message_received sender message timestamp)

unfoldable pub on_image : Reply → Handler
unfolding room_or_sender text_field emit ◌>>=◌
on_image packet = do
  room ← room_or_sender packet
  filename ← text_field "filename" "unknown" packet
  file_path ← text_field "file_path" "" packet
  emit (image_received room filename file_path)

-- Nothing is told before the size is read; then each signal checks what it is given.
unfoldable pub on_file : (ℤ → Result ℤ) → Reply → Handler
unfolding room_or_sender require text_field emit size_of get ◌>>=◌
on_file qt_int packet = do
  let filename = field_of "filename" (string "unknown") packet
  size ← result_of (size_of packet)
  transfer_id ← require (as_text (field_of "transfer_id" filename packet)) internal_error
  emit (file_transfer_complete transfer_id)
  room ← room_or_sender packet
  name ← require (as_text filename) internal_error
  file_path ← text_field "file_path" "" packet
  emit (image_received room name file_path)
  shown_size ← result_of (qt_int size)
  emit (file_transfer_started transfer_id name shown_size)

unfoldable pub on_progress : (ℤ → Result ℤ) → Reply → Handler
unfolding require text_field emit get ◌>>=◌
on_progress qt_int packet = do
  transfer_id ← text_field "transfer_id" "unknown" packet
  progress ← require (as_number (field_of "progress" (nat 0) packet)) internal_error
  shown ← result_of (qt_int progress)
  emit (file_transfer_progress transfer_id shown)

-- The branches of the `if` chain.
unfoldable pub packet_branch : (ℤ → Result ℤ) → PacketType → Reply → Handler
unfolding on_auth_success on_session_ack on_chat on_private on_image on_file on_progress text_field
    emit require get pure ◌>>=◌
packet_branch qt_int PacketType.auth_success packet = on_auth_success packet
packet_branch qt_int PacketType.auth_failed packet = do
  message ← text_field "message" "Authentication failed." packet
  emit (login_failed message)
packet_branch qt_int PacketType.session_ack packet = on_session_ack packet
packet_branch qt_int PacketType.message packet = on_chat packet
packet_branch qt_int PacketType.private_message packet = on_private packet
packet_branch qt_int PacketType.system packet = do
  room ← text_field "room" "global" packet
  message ← text_field "message" "" packet
  emit (system_message room message)
packet_branch qt_int PacketType.friend_request packet = do
  sender ← text_field "sender" "unknown" packet
  emit (friend_request_received sender)
packet_branch qt_int PacketType.friend_list packet = do
  friends ← require (as_roster (field_of "friends" (roster []) packet)) internal_error
  emit (friend_list_updated friends)
packet_branch qt_int PacketType.get_online_users packet = do
  users ← require (as_names (field_of "online_users" (names []) packet)) internal_error
  emit (online_users_updated users)
packet_branch qt_int PacketType.status_update packet = do
  user ← text_field "user" "unknown" packet
  status ← text_field "status" "ONLINE" packet
  emit (user_status_changed user status)
packet_branch qt_int PacketType.image packet = on_image packet
packet_branch qt_int PacketType.file packet = on_file qt_int packet
packet_branch qt_int PacketType.transfer_progress packet = on_progress qt_int packet
packet_branch qt_int PacketType.error packet = do
  message ← text_field "message" "Unknown error" packet
  emit (Event.error message)
packet_branch qt_int _ packet = pure tt

unfoldable pub on_packet : (ℤ → Result ℤ) → Reply → Handler
unfolding packet_branch
on_packet qt_int packet = packet_branch qt_int packet.type packet

-- An exception is logged and dropped.
unfoldable pub handle_packet : (ℤ → Result ℤ) → Reply → TcpWorker → TcpWorker
unfolding on_packet catch pure
handle_packet qt_int packet w = (catch (on_packet qt_int packet) (λ e. pure tt) w).1
