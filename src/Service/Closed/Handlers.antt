-- ===== src/Service/Closed/Handlers.antt =====
-- Every packet keeps a property that is closed under the writes of the service.
use g04_final_project_d_25_c.Prelude.{Bool, String, String_eq, ◌==◌, Option, none, some}
use g04_final_project_d_25_c.Dict
use g04_final_project_d_25_c.Dict.{Dict}
use g04_final_project_d_25_c.Exec.{
  Keeps, Keeps-modify, Keeps-pure, Keeps-raise, keeps_rules, modify,
}
use g04_final_project_d_25_c.Database.{BroadcastRow}
use g04_final_project_d_25_c.Protocol.{Packet, PacketType}
use g04_final_project_d_25_c.Server.{Server, Env}
use g04_final_project_d_25_c.Server.Matchmaker.{leave_queue}
use g04_final_project_d_25_c.Server.Closed
use g04_final_project_d_25_c.Service.Voices
use g04_final_project_d_25_c.Service.Clients
use g04_final_project_d_25_c.Service.Broadcasts
use g04_final_project_d_25_c.Service.Routing
use g04_final_project_d_25_c.Service.Closed.Writes
use g04_final_project_d_25_c.Service.Closed.Writes.{ClosedWrites, service_rules}
use g04_final_project_d_25_c.Service.Closed.Rooms
use g04_final_project_d_25_c.Service.Closed.Uploads

module _ {ℓ} {P : Server → Type ℓ} (w : ClosedWrites P) where
  open w use {base}

  pending_packet-Keeps : (u a : String) → Keeps P (Clients.pending_packet u a)
  unfolding Clients.pending_packet
  pending_packet-Keeps u a = Writes.send_packet-Keeps w u _ _

  pending-Keeps : (u : String) → Keeps P (Clients.send_pending_friend_requests u)
  unfolding Clients.send_pending_friend_requests
  pending-Keeps u = search (service_rules, Closed.query-Keeps, pending_packet-Keeps) depth 8

  raise_failed-Keeps : (r : String) (o : Option String) → Keeps P (Clients.raise_failed r o)
  raise_failed-Keeps r none = Keeps-pure _
  raise_failed-Keeps r (some e) = Keeps-raise _

  pub register_client-Keeps : (u : String) (b : Bool) → Keeps P (Clients.register_client u b)
  unfolding Clients.register_client
  register_client-Keeps u b =
      search
        (
          service_rules, base.at_user, Closed.set_status-Keeps, Closed.join_room-Keeps,
          raise_failed-Keeps, pending-Keeps,
        )
        depth 20

  handle_reconnect-Keeps : (u : String) (p : Packet) → Keeps P (Clients.handle_reconnect u p)
  unfolding Clients.handle_reconnect
  handle_reconnect-Keeps u p =
      search (service_rules, Closed.restore_session-Keeps, register_client-Keeps) depth 14

  handle_schedule_broadcast-Keeps :
      (e : Env) (u : String) (p : Packet) → Keeps P (Broadcasts.handle_schedule_broadcast e u p)
  unfolding Broadcasts.handle_schedule_broadcast
  handle_schedule_broadcast-Keeps e u p = search (service_rules, w.at_schedule) depth 10

  unknown_type-Keeps : (u : String) (p : Packet) → Keeps P (Routing.unknown_type u p)
  unfolding Routing.unknown_type
  unknown_type-Keeps u p = Writes.send_error-Keeps w u _

  ruleset handlers = (
    Rooms.handle_room_message-Keeps, Rooms.handle_private_message-Keeps,
    Rooms.handle_create_room-Keeps, Rooms.handle_join_room-Keeps, Rooms.handle_leave_room-Keeps,
    Rooms.handle_invite_user-Keeps, Rooms.handle_kick_user-Keeps, Rooms.handle_delete_room-Keeps,
    handle_schedule_broadcast-Keeps, Rooms.handle_status_update-Keeps, Rooms.handle_matchmake-Keeps,
    Uploads.handle_file_start-Keeps, Uploads.handle_file_chunk-Keeps, Uploads.handle_file_end-Keeps,
    Uploads.handle_image_upload-Keeps, handle_reconnect-Keeps, Uploads.handle_voice_start-Keeps,
    Uploads.handle_voice_stop-Keeps, Uploads.handle_voice_status-Keeps, unknown_type-Keeps,
    Closed.send_friend_list-Keeps, Closed.send_request-Keeps, Closed.accept_request-Keeps,
    Closed.reject_request-Keeps, Closed.remove_friend-Keeps, Writes.send_online_users-Keeps,
    Writes.base_of,
  )

  dispatch-Keeps :
      (e : Env) (t : Option PacketType) (u : String) (p : Packet)
      → Keeps P (Routing.dispatch e t u p)
  unfolding Routing.dispatch
  dispatch-Keeps e (some PacketType.message) u p = search handlers
  dispatch-Keeps e (some _) u p = search handlers
  dispatch-Keeps e none u p = search handlers

  pub route_packet-Keeps :
      (e : Env) (p : Packet) (u : String) → Keeps P (Routing.route_packet e p u)
  unfolding Routing.route_packet
  route_packet-Keeps e p u = search (keeps_rules, dispatch-Keeps, Writes.send_error-Keeps)

  run_broadcast-Keeps : (b : BroadcastRow) → Keeps P (Broadcasts.run_broadcast b)
  unfolding Broadcasts.run_broadcast Broadcasts.dispatch_scheduled_broadcast
  run_broadcast-Keeps b = search (service_rules, w.at_message, w.at_mark) depth 8

  -- One round of the scheduler.
  pub run_due-Keeps : Keeps P Broadcasts.run_due
  unfolding Broadcasts.run_due
  run_due-Keeps = search (service_rules, Closed.query-Keeps, run_broadcast-Keeps) depth 8

  leave_queue-Keeps : (u : String) → Keeps P (modify (leave_queue u))
  leave_queue-Keeps u = Keeps-modify _ (w.at_leave_queue u)

  quit_voice-Keeps : (u : String) (o : Option String) → Keeps P (modify (Clients.quit_voice u o))
  unfolding Voices.change_voice
  quit_voice-Keeps u none = Keeps-modify _ (λ s h. h)
  quit_voice-Keeps u (some r) =
      Keeps-modify _ (λ s h. Writes.if_kept w (r == "") s _ h (w.at_voice_leave r u s h))

  drop_user_room-Keeps :
      (u : String) → Keeps P (modify (λ s. record s { user_rooms = Dict.pop u s.user_rooms }))
  drop_user_room-Keeps u = Keeps-modify _ (λ s h. w.at_user_rooms _ s h)

  pub unregister_client-Keeps : (u : String) → Keeps P (Clients.unregister_client u)
  unfolding Clients.unregister_client
  unregister_client-Keeps u =
      search
        (
          service_rules, Closed.remove_client-Keeps, leave_queue-Keeps, Closed.leave_room-Keeps,
          base.at_no_member, Closed.remove_status-Keeps, Closed.end_session-Keeps,
          drop_user_room-Keeps, quit_voice-Keeps,
        )
        depth 20
