-- ===== src/Client/Commands.antt =====
-- client/client_app.py: what the user types. `command_of` finds the branch of `handle_command`, and
-- `execute` runs it.
pub mod Help
pub mod Understood
use g04_final_project_d_25_c.Prelude.{
  ℕ, zero, suc, Bool, true, false, ◌&&◌, ◌||◌, String, String_eq, ◌==◌, Option, none, some, List,
  [], ◌∷◌, code, if◌then◌else◌, is_space, lstrip, strip, lower, upper, nat_eq, is_empty,
}
use g04_final_project_d_25_c.Exec.{pure, gets, modify, ◌>>=◌, ◌>>◌, for_each}
use g04_final_project_d_25_c.Protocol.{PacketType, text}
use g04_final_project_d_25_c.Client.{
  Machine, ConvoxClient, Action, say, send_packet, is_set, room_text, voice_join, voice_leave,
  set_mute,
}
use g04_final_project_d_25_c.Client.Uploads.{send_image, send_file}
use g04_final_project_d_25_c.Client.Commands.Help.{help_lines}

-- The word that a text starts with, and the rest after it.
abbrev take_word : String → String
take_word String.[] = ""
take_word (String.◌∷◌ c s) = if is_space (code c) then "" else String.◌∷◌ c (take_word s)

abbrev drop_word : String → String
drop_word String.[] = ""
drop_word (String.◌∷◌ c s) = if is_space (code c) then String.◌∷◌ c s else drop_word s

-- `s.split(maxsplit=n)`
unfoldable pub split : ℕ → String → List String
split zero s = if lstrip s == "" then [] else lstrip s ∷ []
split (suc n) s =
    let rest = split n (drop_word (lstrip s)) in
    if lstrip s == "" then [] else take_word (lstrip s) ∷ rest

pub data Command : Type 0 where
  help online leave matchmake friends : Command
  join_voice leave_voice mute unmute voice_users ptt quit unknown : Command
  join create delete : (room : String) → Command
  invite kick friend accept reject remove : (user : String) → Command
  message_to : (user message : String) → Command
  status : (value : String) → Command
  image_from file_from : (path : String) → Command
  reconnect : (token : String) → Command

-- A branch with `len(parts) >= 2`
abbrev with_one : (String → Command) → List String → Command
with_one f [] = Command.unknown
with_one f (a ∷ args) = f a

-- A branch with `len(parts) == 3`; `split` gives no more than that.
abbrev with_two : (String → String → Command) → List String → Command
with_two f (a ∷ b ∷ args) = f a b
with_two f _ = Command.unknown

abbrev with_token : Option String → Command
with_token token = if is_set token then Command.reconnect (room_text token) else Command.unknown

abbrev pub named : Option String → String → List String → Command
named token name args =
    if name == "/help"
    then Command.help
    else if name == "/online"
    then Command.online
    else if name == "/join"
    then with_one Command.join args
    else if name == "/create"
    then with_one Command.create args
    else if name == "/leave"
    then Command.leave
    else if name == "/invite"
    then with_one Command.invite args
    else if name == "/kick"
    then with_one Command.kick args
    else if name == "/delete"
    then with_one Command.delete args
    else if name == "/matchmake"
    then Command.matchmake
    else if name == "/friend"
    then with_one Command.friend args
    else if name == "/accept"
    then with_one Command.accept args
    else if name == "/reject"
    then with_one Command.reject args
    else if name == "/remove"
    then with_one Command.remove args
    else if name == "/friends"
    then Command.friends
    else if name == "/msg"
    then with_two Command.message_to args
    else if name == "/status"
    then with_one Command.status args
    else if name == "/sendimage"
    then with_one Command.image_from args
    else if name == "/sendfile"
    then with_one Command.file_from args
    else if name == "/reconnect"
    then with_token token
    else if name == "/voicejoin"
    then Command.join_voice
    else if name == "/voiceleave"
    then Command.leave_voice
    else if name == "/mute"
    then Command.mute
    else if name == "/unmute"
    then Command.unmute
    else if name == "/voiceusers"
    then Command.voice_users
    else if name == "/ptt"
    then Command.ptt
    else if name == "/quit"
    then Command.quit
    else Command.unknown

-- `parts[0].lower()`, and the branch; the text starts with "/", so that there is a first part.
unfoldable pub command_of : Option String → List String → Command
unfolding lower
command_of token [] = Command.unknown
command_of token (part ∷ args) = named token (lower part) args

abbrev pub join_named : String → Action
join_named room = do
  modify (λ c. record c { current_room = room })
  send_packet PacketType.join_room (("room", text room) ∷ [])

abbrev pub leave_current : Action
leave_current = do
  room ← gets (λ c. c.current_room)
  send_packet PacketType.leave_room (("room", text room) ∷ [])

abbrev pub quit_now : Machine → Action
quit_now machine = do
  modify (λ c. record c { running = false; broken = some machine.closed_reason })
  say ("Disconnected from Convox" ∷ [])

unfoldable pub print_help : Action
unfolding for_each say
print_help = for_each help_lines (λ line. say (line ∷ []))

unfoldable pub execute : Machine → Command → Action
unfolding print_help say send_packet voice_join voice_leave set_mute send_image send_file upper
    ◌>>=◌
execute machine Command.help = print_help
execute machine Command.online = send_packet PacketType.get_online_users []
execute machine (Command.join room) = join_named room
execute machine (Command.create room) =
    send_packet PacketType.create_room (("room", text room) ∷ [])
execute machine Command.leave = leave_current
execute machine (Command.invite user) =
    send_packet PacketType.invite_user (("target", text user) ∷ [])
execute machine (Command.kick user) = send_packet PacketType.kick_user (("target", text user) ∷ [])
execute machine (Command.delete room) =
    send_packet PacketType.delete_room (("room", text room) ∷ [])
execute machine Command.matchmake = send_packet PacketType.matchmake []
execute machine (Command.friend user) =
    send_packet PacketType.add_friend (("friend", text user) ∷ [])
execute machine (Command.accept user) =
    send_packet PacketType.accept_friend (("friend", text user) ∷ [])
execute machine (Command.reject user) =
    send_packet PacketType.reject_friend (("friend", text user) ∷ [])
execute machine (Command.remove user) =
    send_packet PacketType.remove_friend (("friend", text user) ∷ [])
execute machine Command.friends = send_packet PacketType.get_friends []
execute machine (Command.message_to user message) =
    send_packet PacketType.private_message (("target", text user) ∷ ("message", text message) ∷ [])
execute machine (Command.status value) =
    send_packet PacketType.update_status (("status", text (upper value)) ∷ [])
execute machine (Command.image_from path) = send_image machine path
execute machine (Command.file_from path) = send_file machine path
execute machine (Command.reconnect token) =
    send_packet PacketType.reconnect (("session_token", text token) ∷ [])
execute machine Command.join_voice = voice_join machine
execute machine Command.leave_voice = voice_leave
execute machine Command.mute = set_mute true
execute machine Command.unmute = set_mute false
execute machine Command.voice_users =
    say ("[VOICE] Voice users in current room (requires /voicejoin first)" ∷ [])
execute machine Command.ptt = say ("[PTT] Push-to-talk not yet implemented" ∷ [])
execute machine Command.quit = quit_now machine
execute machine Command.unknown = say ("Unknown command. Type /help for available commands." ∷ [])

unfoldable pub handle_command : Machine → String → Action
unfolding split command_of execute ◌>>=◌ gets
handle_command machine payload = do
  token ← gets (λ c. c.session_token)
  execute machine (command_of token (split 2 payload))

-- `payload.startswith("/")`
abbrev pub is_command : String → Bool
is_command String.[] = false
is_command (String.◌∷◌ c s) = nat_eq (code c) b'/'

abbrev pub chat : String → Action
chat message = do
  room ← gets (λ c. c.current_room)
  send_packet PacketType.message (("room", text room) ∷ ("message", text message) ∷ [])

-- One turn of the loop of `run`, for one line.
unfoldable pub on_line : Machine → String → Action
unfolding strip handle_command send_packet pure gets ◌>>=◌
on_line machine line =
    let payload = strip line in
    if payload == ""
    then pure tt
    else if is_command payload
    then handle_command machine payload
    else chat payload
