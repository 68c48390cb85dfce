-- ===== src/Samples.antt =====
-- Runs of the program on small inputs, where the conditions of the theorems hold.
pub mod Parts
pub mod Screens
pub mod Texts
pub mod Calls
use g04_final_project_d_25_c.Prelude.{
  Bytes, ℕ, zero, suc, ◌≤◌, ◌<◌, ◌≡◌, refl, Bool, true, false, ◌&&◌, ◌||◌, not, String, String_eq,
  ℕ_eq, ◌==◌, Option, none, some, List, [], ◌∷◌, length, map, arith, pos, ltb, if◌then◌else◌,
  IsNodup, ◌+◌, ◌*◌,
}
use g04_final_project_d_25_c.Dict
use g04_final_project_d_25_c.Dict.{Dict}
use g04_final_project_d_25_c.Exec.{Exec, Result, ok, err, internal_error, pure, ◌>>=◌}
use g04_final_project_d_25_c.Database.{
  Database, ensure_schema, FriendRequest, BroadcastRow, pending,
}
use g04_final_project_d_25_c.Database.Users.{insert_user, find_user_id}
use g04_final_project_d_25_c.Protocol.{Packet, PacketType, text}
use g04_final_project_d_25_c.Server.{Server, Env, Room}
use g04_final_project_d_25_c.Server.RoomManager.{init_rooms}
use g04_final_project_d_25_c.Service.Routing.{route_packet}
use g04_final_project_d_25_c.Service.Reach.{Reach, start, packet, blank}
use g04_final_project_d_25_c.Service.Handshake.{handshake_step}
use g04_final_project_d_25_c.Service.Reach.{Reach, start, greet, packet, blank}
use g04_final_project_d_25_c.Service.Reach.Queue.{one_waits}
use g04_final_project_d_25_c.Service.Reach.Names.{names_unique}
use g04_final_project_d_25_c.Service.Reach.Friendship.{friends_both_ways}
use g04_final_project_d_25_c.Service.Reach.Transfers.{transfers_bounded}
use g04_final_project_d_25_c.Service.Reach.VoiceRooms.{voice_rooms_peopled, is_deserted}
use g04_final_project_d_25_c.Service.Routing.{dispatch, type_among, routed}
use g04_final_project_d_25_c.Protocol.{field_or, null, number}
use g04_final_project_d_25_c.Database.Friends.{
  has_friendship, has_pending, respond_friend_request, remove_friend, list_pending_friend_requests,
  record_request, drop_friendship, add_friend_by_id,
}
use g04_final_project_d_25_c.Database.Users.Unique.{usernames}

unfoldable pub seven : ℕ → Bytes
seven zero = []
seven (suc n) = 7 ∷ seven n

abbrev pub outside : Env
outside = record {
  uuid = "0b9e7c1a";
  hex8 = "5f2d8a31";
  salt = 1 ∷ 254 ∷ [];
  pbkdf2 = λ password salt n size. seven size;
  b64decode = λ s. ok (1 ∷ []);
  percent = λ a b. 50;
  is_send_time = λ s. true;
  suffix = λ s. "png";
  uploads = "/srv/uploads";
}

abbrev of_type : String → Packet
of_type t = ("type", text t) ∷ []

abbrev account : String → Packet
account name =
    ("type", text "REGISTER") ∷ ("username", text name) ∷ ("password", text "correct horse") ∷ []

abbrev friend_packet : String → String → Packet
friend_packet t friend = ("type", text t) ∷ ("friend", text friend) ∷ []

-- A new server, and what it comes to when ann and bob register, both ask for a match, and become
-- friends.
abbrev first_state : Server
first_state = (init_rooms (blank 5 "2024-01-01 00:00:00")).1

abbrev register_on : ℕ → String → Server → Server
register_on conn name s =
    (handshake_step outside conn (some PacketType.register) (account name) s).1

abbrev sent_by : String → Packet → Server → Server
sent_by name p s = (route_packet outside p name s).1

abbrev two_accounts : Server
two_accounts = register_on 4 "bob" (register_on 3 "ann" first_state)

abbrev both_came : Server
both_came = sent_by "bob" (of_type "MATCHMAKE") (sent_by "ann" (of_type "MATCHMAKE") two_accounts)

abbrev befriended : Server
befriended =
    sent_by "bob" (friend_packet "ACCEPT_FRIEND" "ann")
      (sent_by "ann" (friend_packet "ADD_FRIEND" "bob") both_came)

two_accounts-Reach : Reach two_accounts
two_accounts-Reach = greet outside 4 _ _ _ (greet outside 3 _ _ _ (start 5 "2024-01-01 00:00:00"))

both_came-Reach : Reach both_came
both_came-Reach = packet outside _ "bob" _ (packet outside _ "ann" _ two_accounts-Reach)

befriended-Reach : Reach befriended
befriended-Reach = packet outside _ "bob" _ (packet outside _ "ann" _ both_came-Reach)

friends_both_ways_example : has_friendship 2 3 befriended.db ≡ has_friendship 3 2 befriended.db
friends_both_ways_example = friends_both_ways befriended 2 3 befriended-Reach

names_unique_example : IsNodup (usernames two_accounts.db.users.rows)
names_unique_example = names_unique two_accounts two_accounts-Reach

one_waits_example : length both_came.queue ≤ 1
one_waits_example = one_waits both_came both_came-Reach

-- ann starts a transfer, and takes part in the voice of the global room.
abbrev file_packet : Packet
file_packet =
    ("type", text "FILE_START")
    ∷ ("filename", text "a.txt")
    ∷ ("filesize", number (pos 9))
    ∷ ("transfer_id", text "t1")
    ∷ ("total_chunks", number (pos 2))
    ∷ []

abbrev uploading : Server
uploading = sent_by "ann" file_packet befriended

uploading-Reach : Reach uploading
uploading-Reach = packet outside _ "ann" _ befriended-Reach

transfers_bounded_example : length uploading.chunks.transfers ≤ 20
transfers_bounded_example = transfers_bounded uploading uploading-Reach

abbrev voice_packet : Packet
voice_packet = ("type", text "VOICE_START") ∷ ("udp_port", number (pos 6000)) ∷ []

abbrev talking : Server
talking = sent_by "ann" voice_packet (sent_by "ann" (of_type "LEAVE_ROOM") uploading)

talking-Reach : Reach talking
talking-Reach = packet outside _ "ann" _ (packet outside _ "ann" _ uploading-Reach)

voice_rooms_peopled_example : is_deserted "global" talking.voice_rooms ≡ false
voice_rooms_peopled_example = voice_rooms_peopled talking "global" talking-Reach
