-- ===== src/Protocol.antt =====
-- protocol/packet.py: the packet types, and what a packet holds on each side. A packet that comes in
-- is the dictionary that `json.loads` gives, with the scalars as its values; one that goes out is
-- its type and the keyword arguments of `build_packet`.
pub mod Frame
use g04_final_project_d_25_c.Prelude.{
  ℕ, zero, suc, ◌+◌, ◌-◌, ◌*◌, ◌/◌, ◌%◌, ℤ, pos, negsuc, Bool, true, false, ◌&&◌, String, ◌==◌,
  String_eq, ℕ_eq, Option, none, some, List, [], ◌∷◌, code, if◌then◌else◌, or_else, leb, nat_eq,
  strip, join_text,
}
use g04_final_project_d_25_c.Dict.{Dict, get}
use g04_final_project_d_25_c.Exec.{Result, ok, err, value_error, internal_error}

pub data PacketType : Type 0 where
  login register auth_success auth_failed message private_message : PacketType
  join_room leave_room create_room delete_room invite_user kick_user : PacketType
  add_friend accept_friend reject_friend remove_friend get_friends : PacketType
  friend_request friend_list get_online_users status_update update_status : PacketType
  matchmake match_found broadcast schedule_broadcast image file : PacketType
  file_start file_chunk file_end reconnect session_ack transfer_progress : PacketType
  room_history voice_start voice_stop voice_status system error : PacketType

-- `PacketType.X.value`
unfoldable pub wire_name : PacketType → String
wire_name login = "LOGIN"
wire_name register = "REGISTER"
wire_name auth_success = "AUTH_SUCCESS"
wire_name auth_failed = "AUTH_FAILED"
wire_name message = "MESSAGE"
wire_name private_message = "PRIVATE_MESSAGE"
wire_name join_room = "JOIN_ROOM"
wire_name leave_room = "LEAVE_ROOM"
wire_name create_room = "CREATE_ROOM"
wire_name delete_room = "DELETE_ROOM"
wire_name invite_user = "INVITE_USER"
wire_name kick_user = "KICK_USER"
wire_name add_friend = "ADD_FRIEND"
wire_name accept_friend = "ACCEPT_FRIEND"
wire_name reject_friend = "REJECT_FRIEND"
wire_name remove_friend = "REMOVE_FRIEND"
wire_name get_friends = "GET_FRIENDS"
wire_name friend_request = "FRIEND_REQUEST"
wire_name friend_list = "FRIEND_LIST"
wire_name get_online_users = "GET_ONLINE_USERS"
wire_name status_update = "STATUS_UPDATE"
wire_name update_status = "UPDATE_STATUS"
wire_name matchmake = "MATCHMAKE"
wire_name match_found = "MATCH_FOUND"
wire_name broadcast = "BROADCAST"
wire_name schedule_broadcast = "SCHEDULE_BROADCAST"
wire_name image = "IMAGE"
wire_name file = "FILE"
wire_name file_start = "FILE_START"
wire_name file_chunk = "FILE_CHUNK"
wire_name file_end = "FILE_END"
wire_name reconnect = "RECONNECT"
wire_name session_ack = "SESSION_ACK"
wire_name transfer_progress = "TRANSFER_PROGRESS"
wire_name room_history = "ROOM_HISTORY"
wire_name voice_start = "VOICE_START"
wire_name voice_stop = "VOICE_STOP"
wire_name voice_status = "VOICE_STATUS"
wire_name system = "SYSTEM"
wire_name error = "ERROR"

pub data Value : Type 0 where
  null : Value
  boolean : Bool → Value
  number : ℤ → Value
  text : String → Value

abbrev pub Packet : Type 0
Packet = Dict String Value

-- `packet.get(key, default)`
abbrev pub field_or : String → Value → Packet → Value
field_or key default packet = or_else (get key packet) default

abbrev digit : ℕ → String
digit n =
    if n == 0
    then "0"
    else if n == 1
    then "1"
    else if n == 2
    then "2"
    else if n == 3
    then "3"
    else if n == 4
    then "4"
    else if n == 5
    then "5"
    else if n == 6
    then "6"
    else if n == 7
    then "7"
    else if n == 8
    then "8"
    else "9"

-- The decimal digits before `rest`; a number has fewer digits than the fuel, which is its successor.
decimal : ℕ → ℕ → List String → String
decimal zero n rest = join_text rest
decimal (suc f) n rest = elim (n / 10 == 0) [
  | true ↦ join_text (digit n ∷ rest)
  | false ↦ decimal f (n / 10) (digit (n % 10) ∷ rest)
]

unfoldable pub show_nat : ℕ → String
unfolding decimal join_text
show_nat n = decimal (suc n) n []

-- `str(value)`
unfoldable pub py_str : Value → String
unfolding show_nat
py_str null = "None"
py_str (boolean true) = "True"
py_str (boolean false) = "False"
py_str (number (pos n)) = show_nat n
py_str (number (negsuc n)) = join_text ("-" ∷ show_nat (suc n) ∷ [])
py_str (text s) = s

-- `bool(value)`
unfoldable pub truthy : Value → Bool
truthy null = false
truthy (boolean b) = b
truthy (number (pos zero)) = false
truthy (number (pos (suc n))) = true
truthy (number (negsuc n)) = true
truthy (text s) = if s == "" then false else true

abbrev is_digit : ℕ → Bool
is_digit c = leb b'0' c && leb c b'9'

-- The digits of `int(s)`, where one underscore may stand between two digits.
abbrev digits : Bool → ℕ → String → Option ℕ
digits after n String.[] = if after then some n else none
digits after n (String.◌∷◌ c s) =
    let next = digits true (n * 10 + (code c - b'0')) s in
    let skip = digits false n s in
    if is_digit (code c) then next else if nat_eq (code c) b'_' && after then skip else none

abbrev opposite : ℕ → ℤ
opposite zero = pos 0
opposite (suc n) = negsuc n

abbrev signed : String → Option ℤ
signed String.[] = none
signed (String.◌∷◌ c s) =
    if nat_eq (code c) b'-'
    then elim (digits false 0 s) [ none ↦ none | some n ↦ some (opposite n) ]
    else if nat_eq (code c) b'+'
    then elim (digits false 0 s) [ none ↦ none | some n ↦ some (pos n) ]
    else elim (digits false 0 (String.◌∷◌ c s)) [ none ↦ none | some n ↦ some (pos n) ]

-- `int(value)`, with ASCII digits in a text
unfoldable pub py_int : Value → Result ℤ
unfolding strip
py_int null = err internal_error
py_int (boolean true) = ok (pos 1)
py_int (boolean false) = ok (pos 0)
py_int (number z) = ok z
py_int (text s) = elim (signed (strip s)) [
  | none ↦
      err (value_error (join_text ("invalid literal for int() with base 10: '" ∷ s ∷ "'" ∷ [])))
  | some z ↦ ok z
]

-- `str(packet.get(key, default)).strip()`
unfoldable pub stripped_field : String → Value → Packet → String
unfolding strip get py_str
stripped_field key default packet = strip (py_str (field_or key default packet))

-- A field that both clients send as a text or leave out. A number or a truth value there is refused.
unfoldable pub optional_text : String → Packet → Result (Option String)
unfolding get
optional_text key packet = elim (field_or key null packet) [
  | null ↦ ok none
  | text s ↦ ok (some s)
  | boolean b ↦ err internal_error
  | number z ↦ err internal_error
]

-- What the server sends in a field.
pub record Friend : Type 0 where
  pub username : String
  pub status : String

pub record HistoryLine : Type 0 where
  pub sender : String
  pub content : String
  pub timestamp : ℕ

pub data Field : Type 0 where
  string : String → Field
  nat : ℕ → Field
  names : List String → Field
  roster : List Friend → Field
  history : List HistoryLine → Field

pub record Reply : Type 0 where
  pub type : PacketType
  pub fields : Dict String Field
