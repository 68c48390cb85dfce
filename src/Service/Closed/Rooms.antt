-- ===== src/Service/Closed/Rooms.antt =====
-- The handlers of messages, rooms and matchmaking keep what their writes keep.
use g04_final_project_d_25_c.Prelude.{
  String, String_eq, List, [], ◌∷◌, contains, Bool-cases, inl, inr,
}
use g04_final_project_d_25_c.Exec.{Keeps, Keeps-pure, keeps_rules, ◌>>=◌}
use g04_final_project_d_25_c.Protocol.{Packet}
use g04_final_project_d_25_c.Server.{Server, Env}
use g04_final_project_d_25_c.Server.Matchmaker.{
  EnqueueResult, already_queued, matched, queued, enqueue, announce,
}
use g04_final_project_d_25_c.Server.Closed
use g04_final_project_d_25_c.Service.Messages
use g04_final_project_d_25_c.Service.RoomHandlers
use g04_final_project_d_25_c.Service.Matches
use g04_final_project_d_25_c.Service.Closed.Writes
use g04_final_project_d_25_c.Service.Closed.Writes.{ClosedWrites, service_rules}

module _ {ℓ} {P : Server → Type ℓ} (w : ClosedWrites P) where
  open w use {base}

  pub handle_room_message-Keeps :
      (u : String) (p : Packet) → Keeps P (Messages.handle_room_message u p)
  unfolding Messages.handle_room_message
  handle_room_message-Keeps u p =
      search (service_rules, Closed.is_room_member-Keeps, w.at_message) depth 14

  pub handle_private_message-Keeps :
      (u : String) (p : Packet) → Keeps P (Messages.handle_private_message u p)
  unfolding Messages.handle_private_message
  handle_private_message-Keeps u p =
      search (service_rules, Closed.query-Keeps, Closed.send-Keeps, w.at_message) depth 14

  send_room_history-Keeps : (u r : String) → Keeps P (Messages.send_room_history u r)
  unfolding Messages.send_room_history
  send_room_history-Keeps u r = search (service_rules, Closed.query-Keeps) depth 8

  pub handle_status_update-Keeps :
      (u : String) (p : Packet) → Keeps P (Messages.handle_status_update u p)
  unfolding Messages.handle_status_update
  handle_status_update-Keeps u p = search (service_rules, Closed.set_status-Keeps) depth 8

  pub handle_join_room-Keeps :
      (u : String) (p : Packet) → Keeps P (RoomHandlers.handle_join_room u p)
  unfolding RoomHandlers.handle_join_room
  handle_join_room-Keeps u p =
      search (service_rules, Closed.join_room-Keeps, send_room_history-Keeps) depth 16

  pub handle_create_room-Keeps :
      (u : String) (p : Packet) → Keeps P (RoomHandlers.handle_create_room u p)
  unfolding RoomHandlers.handle_create_room
  handle_create_room-Keeps u p =
      search (service_rules, Closed.create_room-Keeps, handle_join_room-Keeps) depth 14

  pub handle_leave_room-Keeps :
      (u : String) (p : Packet) → Keeps P (RoomHandlers.handle_leave_room u p)
  unfolding RoomHandlers.handle_leave_room
  handle_leave_room-Keeps u p = search service_rules depth 10

  pub handle_invite_user-Keeps :
      (u : String) (p : Packet) → Keeps P (RoomHandlers.handle_invite_user u p)
  unfolding RoomHandlers.handle_invite_user
  handle_invite_user-Keeps u p =
      search
        (
          service_rules, Closed.is_owner-Keeps, Closed.invite_user-Keeps, base.at_invite,
          Closed.send-Keeps,
        )
        depth 16

  pub handle_kick_user-Keeps :
      (u : String) (p : Packet) → Keeps P (RoomHandlers.handle_kick_user u p)
  unfolding RoomHandlers.handle_kick_user
  handle_kick_user-Keeps u p =
      search (service_rules, Closed.is_owner-Keeps, Closed.kick_user-Keeps, Closed.send-Keeps) depth
        16

  pub handle_delete_room-Keeps :
      (u : String) (p : Packet) → Keeps P (RoomHandlers.handle_delete_room u p)
  unfolding RoomHandlers.handle_delete_room
  handle_delete_room-Keeps u p =
      search (service_rules, Closed.is_owner-Keeps, Closed.delete_room-Keeps, base.at_no_room) depth
        12

  welcome_match-Keeps : (u r : String) (l : List String) → Keeps P (Matches.welcome_match u r l)
  unfolding Matches.welcome_match
  welcome_match-Keeps u r l = search service_rules depth 8

  place_participant-Keeps :
      (r : String) (l : List String) (u : String) → Keeps P (Matches.place_participant r l u)
  unfolding Matches.place_participant
  place_participant-Keeps r l u =
      search (service_rules, Closed.join_room-Keeps, welcome_match-Keeps) depth 10

  invite_participant-Keeps : (r o u : String) → Keeps P (Matches.invite_participant r o u)
  unfolding Matches.invite_participant
  invite_participant-Keeps r o u =
      search (service_rules, Closed.invite_user-Keeps, base.at_invite) depth 8

  finish_match-Keeps : (e : Env) (l : List String) → Keeps P (Matches.finish_match e l)
  unfolding Matches.finish_match
  finish_match-Keeps e [] = Keeps-pure _
  finish_match-Keeps e (o ∷ l) =
      search
        (service_rules, Closed.create_room-Keeps, invite_participant-Keeps, place_participant-Keeps)
        depth 12

  announce-Keeps : (e : Env) (l : List String) → Keeps P (announce l (Matches.finish_match e))
  announce-Keeps e [] = Keeps-pure _
  announce-Keeps e (a ∷ l) = search (keeps_rules, finish_match-Keeps)

  report_match-Keeps : (u : String) (r : EnqueueResult) → Keeps P (Matches.report_match u r)
  report_match-Keeps u already_queued = Writes.send_system-Keeps w u _ _
  report_match-Keeps u queued = Writes.send_system-Keeps w u _ _
  report_match-Keeps u matched = Writes.send_system-Keeps w u _ _

  enqueue-Keeps : (e : Env) (u : String) → Keeps P (enqueue u (Matches.finish_match e))
  unfolding enqueue ◌>>=◌
  enqueue-Keeps e u = record {
    after = λ s h. elim (Bool-cases (contains u s.queue)) [
      | inl there ↦ rw there h
      | inr new ↦ rw new ((announce-Keeps e _).after _ (w.at_match u s h))
    ];
  }

  pub handle_matchmake-Keeps : (e : Env) (u : String) → Keeps P (Matches.handle_matchmake e u)
  unfolding Matches.handle_matchmake
  handle_matchmake-Keeps e u = search (keeps_rules, enqueue-Keeps, report_match-Keeps)
