-- ===== src/Service/Matches.antt =====
-- server/service.py: matchmaking, and the room of a match.
use g04_final_project_d_25_c.Prelude.{
  pos, true, not, String, ◌==◌, String_eq, none, List, [], ◌∷◌, join_text, join_names, keep_if,
  is_none,
}
use g04_final_project_d_25_c.Exec.{Exec, pure, gets, modify, when, ◌>>=◌, ◌>>◌, for_each}
use g04_final_project_d_25_c.Database.Rooms as DbRooms
use g04_final_project_d_25_c.Protocol.{string, names, match_found}
use g04_final_project_d_25_c.Server.{Server, Env, on_db}
use g04_final_project_d_25_c.Server.RoomManager
use g04_final_project_d_25_c.Server.Matchmaker.{
  EnqueueResult, already_queued, matched, queued, enqueue,
}
use g04_final_project_d_25_c.Service.{
  user_room, set_user_room, send_packet, send_system, leave_room,
}

abbrev pub others : String → List String → List String
others participant participants = keep_if (λ p. not (p == participant)) participants

-- The room of `_finish_match`, and what one participant goes through.
abbrev pub match_room : Env → String
match_room env = join_text ("match_" ∷ env.hex8 ∷ [])

unfoldable pub welcome_match : String → String → List String → Exec Server (Unit {0})
welcome_match participant room_name participants = do
  modify (set_user_room participant room_name)
  send_packet participant match_found (
      ("room", string room_name)
      ∷ ("participants", names (others participant participants))
      ∷ (
        "message",
        string (
            join_text (
              "Matched into room "
              ∷ room_name
              ∷ " with "
              ∷ join_names (others participant participants)
              ∷ "."
              ∷ [])),
      )
      ∷ [])
  send_system participant ("Match found! You are now in " ∷ room_name ∷ "." ∷ []) room_name

unfoldable pub place_participant : String → List String → String → Exec Server (Unit {0})
place_participant room_name participants participant = do
  previous ← gets (user_room participant)
  when (not (previous == room_name)) (leave_room participant previous true)
  refused ← RoomManager.join_room room_name participant none
  when (is_none refused) (welcome_match participant room_name participants)

unfoldable pub invite_participant : String → String → String → Exec Server (Unit {0})
invite_participant room_name owner participant = do
  RoomManager.invite_user room_name participant
  on_db (DbRooms.invite_room_user room_name owner participant)

unfoldable pub finish_match : Env → List String → Exec Server (Unit {0})
finish_match env [] = pure tt
finish_match env (owner ∷ rest) = do
  let room_name = match_room env
  created ← RoomManager.create_room room_name owner "private" (pos 10) true none
  when created (do
    for_each (owner ∷ rest) (invite_participant room_name owner)
    for_each (owner ∷ rest) (place_participant room_name (owner ∷ rest)))

abbrev pub report_match : String → EnqueueResult → Exec Server (Unit {0})
report_match username already_queued =
    send_system username ("You are already in the matchmaking queue." ∷ []) "global"
report_match username queued =
    send_system username ("You have entered the matchmaking queue. Waiting for a match..." ∷ [])
      "global"
report_match username matched =
    send_system username ("Match found. Preparing room..." ∷ []) "global"

unfoldable pub handle_matchmake : Env → String → Exec Server (Unit {0})
handle_matchmake env username = do
  status ← enqueue username (finish_match env)
  report_match username status
