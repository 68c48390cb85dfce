-- ===== src/Client/Display.antt =====
-- client/client_app.py: what comes in from the server. `repr` is how Python prints a whole packet. A
-- field that is printed is a text or a number there, `session_token`, `username` and `room` are texts,
-- and names and friends are lists of them, as the server sends them; anything else raises.
use g04_final_project_d_25_c.Prelude.{
  ℕ, zero, suc, Bool, true, false, String, String_eq, Option, none, some, List, [], ◌∷◌, code,
  nat_eq, if◌then◌else◌, or_else, join_names,
}
use g04_final_project_d_25_c.Dict.{get}
use g04_final_project_d_25_c.Exec.{
  Exec, internal_error, pure, raise, gets, modify, require, when, for_each, ◌>>=◌, ◌>>◌,
}
use g04_final_project_d_25_c.Protocol.{
  PacketType, Reply, Field, Friend, HistoryLine, string, nat, names, roster, history, show_nat,
}
use g04_final_project_d_25_c.Client.{ConvoxClient, Action, say, is_set}

-- `f"{packet.get(key, default)}"`
abbrev shown_in : Field → Option String
shown_in (string s) = some s
shown_in (nat n) = some (show_nat n)
shown_in _ = none

unfoldable pub shown : String → Field → Reply → Exec ConvoxClient String
unfolding get require show_nat
shown key default packet =
    require (shown_in (or_else (get key packet.fields) default)) internal_error

abbrev pub text_in : Field → Option String
text_in (string s) = some s
text_in _ = none

-- `packet.get(key)`, a text or None
unfoldable pub text_or_none : Option Field → Exec ConvoxClient (Option String)
unfolding pure raise
text_or_none none = pure none
text_or_none (some (string s)) = pure (some s)
text_or_none (some _) = raise internal_error

unfoldable pub optional : String → Reply → Exec ConvoxClient (Option String)
unfolding get text_or_none
optional key packet = text_or_none (get key packet.fields)

-- `new or old`
abbrev set_or : Option String → Option String → Option String
set_or new old = if is_set new then new else old

-- `text.startswith(prefix)`
abbrev pub starts_with : String → String → Bool
starts_with String.[] s = true
starts_with (String.◌∷◌ p ps) String.[] = false
starts_with (String.◌∷◌ p ps) (String.◌∷◌ c s) =
    let rest = starts_with ps s in if nat_eq (code p) (code c) then rest else false

-- `text[:16]`
abbrev shortened_to : ℕ → String → String
shortened_to zero s = ""
shortened_to (suc n) String.[] = ""
shortened_to (suc n) (String.◌∷◌ c s) = String.◌∷◌ c (shortened_to n s)

abbrev names_in : Field → Option (List String)
names_in (names xs) = some xs
names_in _ = none

abbrev friends_in : Field → Option (List Friend)
friends_in (roster xs) = some xs
friends_in _ = none

abbrev history_in : Field → Option (List HistoryLine)
history_in (history xs) = some xs
history_in _ = none

unfoldable pub on_auth_success : Reply → Action
unfolding optional shown say ◌>>=◌ gets
on_auth_success packet = do
  token ← optional "session_token" packet
  name ← optional "username" packet
  room ← optional "room" packet
  modify (λ c. record c {
    session_token = set_or token c.session_token;
    username = set_or name c.username;
    current_room = or_else room c.current_room;
  })
  message ← shown "message" (string "Authenticated.") packet
  say ("[AUTH] " ∷ message ∷ [])

unfoldable pub on_session_ack : Reply → Action
unfolding optional say when ◌>>=◌ gets
on_session_ack packet = do
  token ← optional "session_token" packet
  name ← optional "username" packet
  room ← optional "room" packet
  modify (λ c. record c {
    session_token = token;
    username = set_or name c.username;
    current_room = or_else room "global";
  })
  when (is_set token)
      (say ("[SESSION] Session token: " ∷ shortened_to 16 (or_else token "") ∷ "..." ∷ []))

unfoldable pub on_upload : String → Reply → Action
unfolding shown say ◌>>=◌
on_upload kind packet = do
  timestamp ← shown "timestamp" (string "") packet
  sender ← shown "sender" (string "server") packet
  filename ← shown "filename" (string "unknown") packet
  filesize ← shown "filesize" (nat 0) packet
  say (
      "[" ∷ timestamp ∷ "] [" ∷ kind ∷ "] " ∷ sender ∷ " sent: " ∷ filename ∷ " (" ∷ filesize
      ∷ " bytes)" ∷ [])

unfoldable pub on_match : Reply → Action
unfolding optional shown say require get ◌>>=◌
on_match packet = do
  found ← optional "room" packet
  let room = or_else found "unknown"
  modify (λ c. record c { current_room = room })
  timestamp ← shown "timestamp" (string "") packet
  participants ←
      require (names_in (or_else (get "participants" packet.fields) (names []))) internal_error
  say ("[" ∷ timestamp ∷ "] [MATCH] Join room " ∷ room ∷ " with " ∷ join_names participants ∷ [])

-- What a system message says about the room of the user.
abbrev room_after : String → String → String → String
room_after message room current =
    if starts_with "You joined room '" message
    then room
    else if starts_with "You left " message
    then "global"
    else current

unfoldable pub on_system : Reply → Action
unfolding optional shown say require get ◌>>=◌
on_system packet = do
  timestamp ← shown "timestamp" (string "") packet
  found ← optional "room" packet
  message ← require (text_in (or_else (get "message" packet.fields) (string ""))) internal_error
  say ("[" ∷ timestamp ∷ "] [SYSTEM] " ∷ message ∷ [])
  modify
      (λ c. record c { current_room = room_after message (or_else found "global") c.current_room })

abbrev say_friend : Friend → Action
say_friend f = say ("  " ∷ f.username ∷ " (" ∷ f.status ∷ ")" ∷ [])

abbrev say_history : HistoryLine → Action
say_history l = say ("  [" ∷ show_nat l.timestamp ∷ "] " ∷ l.sender ∷ ": " ∷ l.content ∷ [])

-- The branches of the `if` chain.
unfoldable pub display_branch : (Reply → String) → PacketType → Reply → Action
unfolding on_auth_success on_session_ack on_upload on_match on_system shown say require get for_each
    join_names show_nat ◌>>=◌
display_branch repr PacketType.auth_success packet = on_auth_success packet
display_branch repr PacketType.auth_failed packet = do
  message ← shown "message" (string "Authentication failed.") packet
  say ("[AUTH] " ∷ message ∷ [])
display_branch repr PacketType.session_ack packet = on_session_ack packet
display_branch repr PacketType.message packet = do
  timestamp ← shown "timestamp" (string "") packet
  room ← shown "room" (string "global") packet
  sender ← shown "sender" (string "server") packet
  message ← shown "message" (string "") packet
  say ("[" ∷ timestamp ∷ "] [" ∷ room ∷ "] " ∷ sender ∷ ": " ∷ message ∷ [])
display_branch repr PacketType.private_message packet = do
  timestamp ← shown "timestamp" (string "") packet
  sender ← shown "sender" (string "server") packet
  message ← shown "message" (string "") packet
  say ("[" ∷ timestamp ∷ "] [PRIVATE] " ∷ sender ∷ ": " ∷ message ∷ [])
display_branch repr PacketType.image packet = on_upload "IMAGE" packet
display_branch repr PacketType.file packet = on_upload "FILE" packet
display_branch repr PacketType.match_found packet = on_match packet
display_branch repr PacketType.transfer_progress packet = do
  transfer_id ←
      require (text_in (or_else (get "transfer_id" packet.fields) (string "unknown")))
        internal_error
  progress ← shown "progress" (nat 0) packet
  say ("[PROGRESS] Transfer " ∷ shortened_to 16 transfer_id ∷ "...: " ∷ progress ∷ "%" ∷ [])
display_branch repr PacketType.friend_request packet = do
  timestamp ← shown "timestamp" (string "") packet
  sender ← shown "sender" (string "unknown") packet
  say ("[" ∷ timestamp ∷ "] [FRIEND REQUEST] " ∷ sender ∷ " sent you a friend request." ∷ [])
display_branch repr PacketType.friend_list packet = do
  friends ← require (friends_in (or_else (get "friends" packet.fields) (roster []))) internal_error
  say ("Friend list:" ∷ [])
  for_each friends say_friend
display_branch repr PacketType.status_update packet = do
  timestamp ← shown "timestamp" (string "") packet
  user ← shown "user" (string "unknown") packet
  status ← shown "status" (string "UNKNOWN") packet
  say ("[" ∷ timestamp ∷ "] [STATUS] " ∷ user ∷ " is now " ∷ status ∷ "." ∷ [])
display_branch repr PacketType.room_history packet = do
  timestamp ← shown "timestamp" (string "") packet
  room ← shown "room" (string "global") packet
  lines ← require (history_in (or_else (get "history" packet.fields) (history []))) internal_error
  say ("[" ∷ timestamp ∷ "] [HISTORY] Last messages in " ∷ room ∷ ":" ∷ [])
  for_each lines say_history
display_branch repr PacketType.system packet = on_system packet
display_branch repr PacketType.error packet = do
  message ← shown "message" (string "") packet
  say ("[ERROR] " ∷ message ∷ [])
display_branch repr PacketType.get_online_users packet = do
  users ← require (names_in (or_else (get "online_users" packet.fields) (names []))) internal_error
  say ("Online users: " ∷ join_names users ∷ [])
display_branch repr _ packet = say ("[RECEIVED] " ∷ repr packet ∷ [])

unfoldable pub display_packet : (Reply → String) → Reply → Action
unfolding display_branch
display_packet repr packet = display_branch repr packet.type packet
