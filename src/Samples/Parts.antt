-- ===== src/Samples/Parts.antt =====
-- Runs of single components on small inputs.
use g04_final_project_d_25_c.Prelude.{
  Bytes, ℕ, zero, suc, ◌≡◌, refl, true, false, ◌&&◌, ◌||◌, not, String_eq, ℕ_eq, none, some, List,
  [], ◌∷◌, map, arith, pos, ltb, if◌then◌else◌, ◌+◌, ◌*◌,
}
use g04_final_project_d_25_c.Dict
use g04_final_project_d_25_c.Dict.{Dict}
use g04_final_project_d_25_c.Exec.{ok, err, internal_error, pure}
use g04_final_project_d_25_c.Database.{Database, ensure_schema, BroadcastRow, sort_by}
use g04_final_project_d_25_c.Database.Users.{insert_user, find_user_id, get_user_password_hash}
use g04_final_project_d_25_c.Database.Friends.{
  has_friendship, has_pending, respond_friend_request, remove_friend, list_pending_friend_requests,
  record_request, add_friend_by_id,
}
use g04_final_project_d_25_c.Database.Friends.Symmetry.{is_pair}
use g04_final_project_d_25_c.Database.Friends.Answers.{
  respond_friend_request-answered, remove_friend-ended,
}
use g04_final_project_d_25_c.Database.Sessions as DbSessions
use g04_final_project_d_25_c.Database.Broadcasts.{fetch_due_broadcasts}
use g04_final_project_d_25_c.Database.Rooms.{get_room}
use g04_final_project_d_25_c.Chunking.{new_manager, begin_transfer, complete_transfer}
use g04_final_project_d_25_c.Chunking.Assembly.{upload-roundtrip, upload_outcome, add_all}
use g04_final_project_d_25_c.Protocol.Frame.{Socket, receive_packet, build_packet, to_bytes}
use g04_final_project_d_25_c.Protocol.Frame.Segments.{receive_packet-build_packet, IsReceived}
use g04_final_project_d_25_c.Voice.Jitter.{JitterBuffer, new_buffer}
use g04_final_project_d_25_c.Voice.Jitter.Stalls.{
  Use, asks, arrives, answers, nothing_each, stalls_without,
}
use g04_final_project_d_25_c.Voice.Jitter.Order.{playback_in_order, play, add_frames}
use g04_final_project_d_25_c.Auth.{
  hash_password, verify_password, authenticate, register, validate_username, validate_password,
  has_account,
}
use g04_final_project_d_25_c.Auth.Hashing.{AreBytes, encoded_hash, verify_password-hash_password}
use g04_final_project_d_25_c.Auth.Accounts.{
  authenticate-IsProved, register-taken, register-authenticate, IsProved, is_err,
}
use g04_final_project_d_25_c.Server.{Server, Room}
use g04_final_project_d_25_c.Server.RoomManager.{join_room}
use g04_final_project_d_25_c.Server.RoomManager.Joining.{join_room-IsJoined, IsJoined}
use g04_final_project_d_25_c.Server.Sessions.{create_session, restore_session, end_session}
use g04_final_project_d_25_c.Server.Sessions.Laws.{
  restore_session-created, restore_session-ended, at_time,
}
use g04_final_project_d_25_c.Server.Matchmaker.{enqueue}
use g04_final_project_d_25_c.Server.Matchmaker.Laws.{enqueue-joined, joined}
use g04_final_project_d_25_c.Service.Reach.{blank}
use g04_final_project_d_25_c.Service.Clients.{send_pending_friend_requests}
use g04_final_project_d_25_c.Service.Clients.Pending.{send_pending_friend_requests-raises}
use g04_final_project_d_25_c.Service.Broadcasts.{run_due}
use g04_final_project_d_25_c.Service.Broadcasts.Runner.{run_due-raises}
use g04_final_project_d_25_c.Samples.{outside, seven}

-- Three chunks, of which the second comes last.
abbrev chunks : List Bytes
chunks = (10 ∷ 11 ∷ []) ∷ (12 ∷ []) ∷ (13 ∷ 14 ∷ []) ∷ []

abbrev arrivals : Dict ℕ Bytes
arrivals = (3, 13 ∷ 14 ∷ []) ∷ (1, 10 ∷ 11 ∷ []) ∷ (2, 12 ∷ []) ∷ []

upload-roundtrip_example :
    upload_outcome
      (complete_transfer "t1"
        (add_all "t1" arrivals (begin_transfer "t1" "a" (some 3) [] (new_manager 20)))).0
    ≡ some ([], some (10 ∷ 11 ∷ 12 ∷ 13 ∷ 14 ∷ []))
unfolding Dict.keys Dict.get
upload-roundtrip_example =
    upload-roundtrip "t1" "a" [] chunks arrivals (new_manager 20) (refl, (refl, (refl, tt))) refl
      (refl, (refl, (refl, tt)))

abbrev frames : Dict ℕ Bytes
frames = (9, 2 ∷ []) ∷ (8, 1 ∷ []) ∷ []

playback_in_order_example :
    play 3 (add_frames ((7, 0 ∷ []) ∷ frames) (new_buffer 4))
    ≡ map some ((0 ∷ []) ∷ (1 ∷ []) ∷ (2 ∷ []) ∷ [])
unfolding Dict.keys Dict.get
playback_in_order_example =
    playback_in_order 4 7 (0 ∷ []) frames ((0 ∷ []) ∷ (1 ∷ []) ∷ (2 ∷ []) ∷ [])
      (refl, (refl, (refl, tt))) (omega arith) (refl, (refl, (refl, tt)))

abbrev waiting : JitterBuffer
waiting = record { buffer = (9, 2 ∷ []) ∷ []; next_sequence = 7; max_frames = 1; started = true }

-- The frame 7 is lost; later ones come, and one of them twice.
abbrev uses : List Use
uses = asks ∷ arrives 8 (1 ∷ []) ∷ asks ∷ arrives 10 (3 ∷ []) ∷ arrives 8 (1 ∷ []) ∷ asks ∷ []

stalls_without_example : answers uses waiting ≡ nothing_each uses
unfolding Dict.get
stalls_without_example = stalls_without uses waiting refl refl (refl, (refl, (refl, tt)))

seven-AreBytes : (n : ℕ) → AreBytes (seven n)
unfolding seven
seven-AreBytes zero = tt
seven-AreBytes (suc n) = (omega arith, seven-AreBytes n)

verify_password-hash_password_example :
    verify_password outside "correct horse" (encoded_hash (1 ∷ 254 ∷ []) (seven 32)) ≡ true
unfolding hash_password seven
verify_password-hash_password_example =
    verify_password-hash_password outside outside "correct horse"
      (encoded_hash (1 ∷ 254 ∷ []) (seven 32)) refl (omega arith, (omega arith, tt))
      (seven-AreBytes 32) refl refl

-- ann has the password, and bob has none.
abbrev accounts : Database
accounts = insert_user "bob" "ONLINE" none (
    insert_user "ann" "OFFLINE" (some (encoded_hash (1 ∷ 254 ∷ []) (seven 32)))
      (ensure_schema 5 "2024-01-01 00:00:00"))

authenticate-IsProved_example :
    IsProved outside "correct horse" accounts (authenticate outside "ann" "correct horse" accounts)
authenticate-IsProved_example = authenticate-IsProved outside "ann" "correct horse" accounts

respond_friend_request-answered_example :
    let d = record_request 1 2 accounts in
    ((respond_friend_request "ann" "bob" true d).0 ≡ ok tt)
    × (has_pending 1 2 (respond_friend_request "ann" "bob" true d).1 ≡ false)
    × (has_friendship 2 1 (respond_friend_request "ann" "bob" true d).1
        ≡ (has_friendship 2 1 d || (true && (is_pair 1 2 2 1 || is_pair 2 1 2 1))))
unfolding find_user_id
respond_friend_request-answered_example =
    respond_friend_request-answered "ann" "bob" true 1 2 2 1 (record_request 1 2 accounts) refl refl

remove_friend-ended_example :
    let d = add_friend_by_id 1 2 accounts in
    has_friendship 1 2 (remove_friend "ann" "bob" d)
    ≡ (has_friendship 1 2 d && not (is_pair 1 2 1 2 || is_pair 2 1 1 2))
unfolding find_user_id add_friend_by_id
remove_friend-ended_example =
    remove_friend-ended "ann" "bob" 1 2 1 2 (add_friend_by_id 1 2 accounts) refl refl

abbrev on_accounts : Server
on_accounts = record (blank 5 "2024-01-01 00:00:00") { db = accounts }

abbrev taken_accounts : Database
taken_accounts = insert_user "ann" "OFFLINE" (some "hash") (ensure_schema 5 "2024-01-01 00:00:00")

register-taken_example :
    (is_err (register outside "ann" "another one" taken_accounts).0 ≡ true)
    × ((register outside "ann" "another one" taken_accounts).1 ≡ taken_accounts)
unfolding validate_username has_account get_user_password_hash
register-taken_example = register-taken outside "ann" "another one" "ann" taken_accounts refl refl

-- A room with a password and two places, of which one is taken.
abbrev lobby : Room
lobby = record {
  name = "lobby";
  owner = "ann";
  visibility = "public";
  max_capacity = pos 2;
  invite_only = false;
  password = some "key";
  members = "ann" ∷ [];
  invites = [];
}

abbrev with_lobby : Server
with_lobby = record on_accounts { rooms = ("lobby", lobby) ∷ [] }

join_room-IsJoined_example :
    IsJoined "lobby" "bob"
      (some "key")
      lobby
      with_lobby
      (join_room "lobby" "bob" (some "key") with_lobby)
unfolding Dict.get
join_room-IsJoined_example = join_room-IsJoined "lobby" "bob" (some "key") lobby with_lobby refl

restore_session-created_example :
    (restore_session "0b9e7c1a" (
      at_time 900_000_006 "2024-01-01 00:15:00"
        (create_session outside "ann" "lobby" on_accounts).1)).0
    ≡ ok (
        if ltb (5 + 15 * 60_000_000) 900_000_006
        then none
        else some (record { username = "ann"; room_name = "lobby"; session_token = "0b9e7c1a" }))
restore_session-created_example =
    restore_session-created outside "ann" "lobby" 900_000_006 "2024-01-01 00:15:00" on_accounts

abbrev signed_in : Server
signed_in = record on_accounts {
  db = DbSessions.create_session "0b9e7c1a" "ann" "global" accounts;
  sessions = ("ann", "0b9e7c1a") ∷ [];
}

restore_session-ended_example :
    (restore_session "0b9e7c1a" (at_time 6 "2024-01-01 00:00:01" (end_session "ann" signed_in).1)).0
    ≡ ok none
unfolding Dict.get
restore_session-ended_example =
    restore_session-ended "ann" "0b9e7c1a" 6 "2024-01-01 00:00:01" signed_in refl refl

abbrev ann_waits : Server
ann_waits = record on_accounts { queue = "ann" ∷ [] }

enqueue-joined_example :
    enqueue "bob" (λ pair. pure tt) ann_waits
    ≡ joined "bob" (λ pair. pure tt) ("ann" ∷ []) ann_waits
enqueue-joined_example = enqueue-joined "bob" (λ pair. pure tt) ann_waits (omega arith)

abbrev bob_asked : Server
bob_asked = record on_accounts { db = record_request 1 2 accounts }

send_pending_friend_requests-raises_example :
    send_pending_friend_requests "bob" bob_asked ≡ (err internal_error, bob_asked)
unfolding list_pending_friend_requests find_user_id
send_pending_friend_requests-raises_example =
    send_pending_friend_requests-raises "bob" "ann" [] bob_asked refl

abbrev to_nowhere : BroadcastRow
to_nowhere = record {
  id = 1;
  target_room = "nowhere";
  message = "hello";
  send_time = "2023-12-31 23:59:59";
  sent = false;
  created_by = 1;
  created_at = 4;
}

abbrev with_broadcast : Server
with_broadcast = record on_accounts {
  db = record accounts { broadcasts = record { rows = to_nowhere ∷ []; next_id = 2 } };
}

run_due-raises_example :
    ((run_due with_broadcast).0 ≡ err internal_error)
    × ((run_due with_broadcast).1.sent ≡ [])
    × ((run_due with_broadcast).1.db.broadcasts ≡ with_broadcast.db.broadcasts)
unfolding fetch_due_broadcasts get_room sort_by
run_due-raises_example = run_due-raises to_nowhere [] with_broadcast refl refl refl

-- A packet of two bytes, cut within its header and before its last byte; a part of the next one follows.
abbrev stream : Socket
stream = (0 ∷ 0 ∷ []) ∷ (0 ∷ 2 ∷ 91 ∷ []) ∷ (93 ∷ 0 ∷ []) ∷ []

receive_packet-build_packet_example : IsReceived (91 ∷ 93 ∷ []) (0 ∷ []) (receive_packet stream)
unfolding build_packet to_bytes
receive_packet-build_packet_example =
    receive_packet-build_packet (91 ∷ 93 ∷ []) (0 ∷ []) stream (refl, (refl, (refl, tt))) refl
      (omega arith) (omega arith)

-- bob, who has a row and no password yet, registers and signs in.
register-authenticate_example :
    ((register outside "bob" "correct horse" accounts).0 ≡ ok "bob")
    × (authenticate outside "bob" "correct horse"
          (register outside "bob" "correct horse" accounts).1
        ≡ (ok "bob", (register outside "bob" "correct horse" accounts).1))
unfolding validate_username validate_password has_account get_user_password_hash seven
register-authenticate_example =
    register-authenticate outside outside "bob" "correct horse" "bob" accounts refl refl refl refl
      refl (omega arith, (omega arith, tt)) (seven-AreBytes 32) refl refl
